-- ===== src/Timer/Destroy.antt =====
-- The end of the timers.
use expo_iperf.Common.{ℕ, ◌+◌, ◌≡◌, refl, List, [], ◌∷◌, arith}
use expo_iperf.Timer.{Timer, Timers, cancel_all, tmr_cleanup, tmr_destroy}
use expo_iperf.Timer.Sorted.{count_id}
use expo_iperf.Timer.Ops.{held, count_addr}

module _ {P : Type 0} where
  count_addr-cancel_all :
      (a : ℕ) (l : List (Timer P)) (unused : List ℕ)
      → count_addr a (cancel_all l unused) ≡ count_id a l + count_addr a unused
  unfolding cancel_all
  count_addr-cancel_all a [] unused = omega arith
  count_addr-cancel_all a (t ∷ rest) unused =
      omega (arith, count_addr-cancel_all a rest (t.id ∷ unused))

  -- `tmr_destroy` frees every structure as often as it was held, running or unused (so in valid
  -- lists, each of them once), and leaves both lists empty.
  pub destroy_lem :
      (ts : Timers P)
      → let (freed, ts') = tmr_destroy ts in
        ((a : ℕ) → count_addr a freed ≡ held a ts) × (ts'.active ≡ []) × (ts'.free_timers ≡ [])
  unfolding tmr_destroy tmr_cleanup
  destroy_lem ts = (λ a. count_addr-cancel_all a ts.active ts.free_timers, refl, refl)
