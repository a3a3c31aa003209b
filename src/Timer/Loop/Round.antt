-- ===== src/Timer/Loop/Round.antt =====
-- One round of the loop of `tmr_run`.
use expo_iperf.Common.{
  ℕ, zero, suc, ◌≤◌, ◌<◌, ◌≡◌, refl, sym, subst, ◌∙◌, true, false, Option, none, some, arith, inl,
  inr, Bool-cases, Option-cases,
}
use expo_iperf.Clock.{IperfTime}
use expo_iperf.Clock.Laws.{IsNormal, micros, compare-micros}
use expo_iperf.Timer.{Timer, Timers, is_after, find}
use expo_iperf.Timer.Ops.{IsValid}
use expo_iperf.Timer.Loop.Visit.{finish-IsValid}
use expo_iperf.Timer.Loop.{World, done, head_id, next_of, finish_timer, run_from, tmr_run}

pub after→lt :
    (s t : IperfTime) → IsNormal s → IsNormal t → is_after s t ≡ true → micros t < micros s
after→lt s t m n h = ground (arith, compare-micros s t m n)

pub after→ge :
    (s t : IperfTime) → IsNormal s → IsNormal t → is_after s t ≡ false → micros s ≤ micros t
after→ge s t m n h = ground (arith, compare-micros s t m n)

done-injective : {S P : Type 0} {v w : World S P} → done v ≡ done w → v ≡ w
done-injective e = cc

module _ {S P : Type 0} (call : P → IperfTime → World S P → World S P) where
  -- One round of the loop, at a timer that is due.
  pub round :
      (fuel : ℕ) (now : IperfTime) (a : ℕ) (w : World S P) (t : Timer P) (ts : Timers P)
      → find a w.timers.active ≡ some t
      → is_after t.time now ≡ false
      → finish_timer a (call t.proc now w).timers ≡ some ts
      → run_from call (suc fuel) now (some a) w
        ≡ run_from call fuel now
            (next_of a w.timers.active)
            (record (call t.proc now w) { timers = ts })
  unfolding run_from
  round fuel now a w t ts f d e = rw (f, run_from) (rw d (rw (e, run_from)))

  pub at_end :
      (fuel : ℕ) (now : IperfTime) (w : World S P) → run_from call (suc fuel) now none w ≡ done w
  unfolding run_from
  at_end fuel now w = refl

  pub break_off :
      (fuel : ℕ) (now : IperfTime) (a : ℕ) (w : World S P) (t : Timer P)
      → find a w.timers.active ≡ some t
      → is_after t.time now ≡ true
      → run_from call (suc fuel) now (some a) w ≡ done w
  unfolding run_from
  break_off fuel now a w t f d = rw (f, run_from) (rw d)

  -- Where the callbacks keep the timers valid, so does every run that ends in a state.
  run_from-IsValid :
      ((p : P) (now : IperfTime) (w : World S P) → IsValid w.timers → IsValid (call p now w).timers)
      → (fuel : ℕ) (now : IperfTime) (next : Option ℕ) (w : World S P) {w' : World S P}
      → IsValid w.timers
      → run_from call fuel now next w ≡ done w'
      → IsValid w'.timers
  run_from-IsValid keep zero now next w v e = absurd (unfold run_from in cc)
  run_from-IsValid keep (suc fuel) now none w v e =
      subst (λ (x : World S P). IsValid x.timers) (done-injective (sym (at_end fuel now w) ∙ e)) v
  run_from-IsValid keep (suc fuel) now (some a) w v e =
      elim (Option-cases (find a w.timers.active)) [
        | inl q ↦ absurd (unfold run_from in cc)
        | inr (t, q) ↦ elim (Bool-cases (is_after t.time now)) [
          | inl d ↦
              subst (λ (x : World S P). IsValid x.timers)
                (done-injective (sym (break_off fuel now a w t q d) ∙ e)) v
          | inr d ↦ elim (Option-cases (finish_timer a (call t.proc now w).timers)) [
            | inl g ↦ absurd (unfold run_from in ground arith)
            | inr (ts, g) ↦
                run_from-IsValid keep fuel now (next_of a w.timers.active)
                  (record (call t.proc now w) { timers = ts })
                  (finish-IsValid a (call t.proc now w).timers (keep t.proc now w v) g)
                  (sym (round fuel now a w t ts q d g) ∙ e)
          ]
        ]
      ]

  -- Where every callback keeps the timers valid, whatever else it does to them and to the program: a
  -- run that ends, and that has come to running timers only, leaves the timers valid. A callback that
  -- cancels its own timer or the next one makes the run come to a structure that is not running, of
  -- which nothing is said.
  pub run-IsValid :
      ((p : P) (now : IperfTime) (w : World S P) → IsValid w.timers → IsValid (call p now w).timers)
      → (fuel : ℕ) (now : IperfTime) (w : World S P) {w' : World S P} → IsValid w.timers
      → tmr_run call fuel now w ≡ done w'
      → IsValid w'.timers
  unfolding tmr_run
  run-IsValid keep fuel now w v e = run_from-IsValid keep fuel now (head_id w.timers.active) w v e
