-- ===== src/Timer/Loop/Run.antt =====
-- `tmr_run` ends, keeps the timers valid and leaves no timer behind that was due once.
use expo_iperf.Common.{
  ℕ, zero, suc, ◌+◌, ◌*◌, ◌^◌, ◌≤◌, ◌<◌, ◌≡◌, refl, sym, ap, subst, ◌∙◌, Bool, true, false,
  if◌then◌else◌, Option, some, List, [], ◌∷◌, ◌++◌, arith, All, inl, inr, Bool-cases, append-nil,
}
use expo_iperf.Clock.{IperfTime, iperf_time_add_usecs}
use expo_iperf.Clock.Laws.{IsNormal, micros, add_usecs-micros}
use expo_iperf.Timer.{Timer, Timers, is_after, walk, list_remove, find, list_resort, tmr_cancel}
use expo_iperf.Timer.Sorted.{
  NotBefore, IsSorted, count_id, list_add-walk, count_id-append, find-IsNormal,
}
use expo_iperf.Timer.Ops.{IsValid, cancel-IsValid, count_self}
use expo_iperf.Timer.Loop.Visit.{
  finish_timer_lem, reschedule-IsValid, walk-All, All-append, find-append, next_of-append,
  remove-append, cost, total_cost, IsPeriodic, walk-Split,
}
use expo_iperf.Timer.Loop.{
  World, RunResult, done, head_id, next_of, reschedule, finish_timer, run_from, tmr_run,
}
use expo_iperf.Timer.Loop.Round.{after→lt, after→ge, round, at_end, break_off}

-- A periodic timer moves on when it is rescheduled, and its next time can be represented.
abbrev pub MovesOn : {P : Type 0} → ℕ → Timer P → Type 0
MovesOn now t = t.periodic ≡ true → (0 < t.usecs) × (now + t.usecs < 2 ^ 32 * 1000000)

-- A timer that runs once is still ahead.
abbrev pub IsAhead : {P : Type 0} → ℕ → Timer P → Type 0
IsAhead now t = t.periodic ≡ false → now < micros t.time

pub record Finished {S P : Type 0} (now : ℕ) (r : RunResult (World S P)) : Type 0 where
  pub final : World S P
  pub ended : r ≡ done final
  pub valid : IsValid final.timers
  pub ahead : All (IsAhead now) final.timers.active

module _ {S P : Type 0} (call : P → IperfTime → World S P → World S P)
    (quiet : (p : P) (now : IperfTime) (w : World S P) → (call p now w).timers ≡ w.timers)
    (now : IperfTime) (n : IsNormal now) where
  periodic-IsAhead : (l : List (Timer P)) → All IsPeriodic l → All (IsAhead (micros now)) l
  periodic-IsAhead [] h = tt
  periodic-IsAhead (t ∷ l) h = (λ e. absurd (cc), periodic-IsAhead l h.1)

  later-IsAhead :
      (k : ℕ) (l : List (Timer P)) → micros now < k → NotBefore k l → All (IsAhead (micros now)) l
  later-IsAhead k [] h b = tt
  later-IsAhead k (t ∷ l) h b = (λ e. omega arith, later-IsAhead k l h b.1)

  sorted-append :
      (l : List (Timer P)) (t : Timer P) (r : List (Timer P))
      → IsSorted (l ++ t ∷ r)
      → NotBefore (micros t.time) r
  sorted-append [] t r s = s.0
  sorted-append (x ∷ l) t r s = sorted-append l t r s.1

  -- The list behind a periodic timer that is rescheduled.
  put_back :
      (visited rest : List (Timer P)) (t : Timer P) (ts : Timers P)
      → ts.active ≡ visited ++ t ∷ rest
      → count_id t.id visited ≡ 0
      → (reschedule t ts).active
        ≡ walk (record t { time = iperf_time_add_usecs t.time t.usecs }) (visited ++ rest)
  unfolding reschedule list_resort
  put_back visited rest t ts e alone =
      list_add-walk _ (list_remove t.id ts.active)
      ∙ ap (walk (record t { time = iperf_time_add_usecs t.time t.usecs }))
          (rw e (remove-append visited rest t alone))

  cheaper_again :
      (t : Timer P)
      → IsNormal t.time
      → micros t.time ≤ micros now
      → MovesOn (micros now) t
      → t.periodic ≡ true
      → cost (micros now) (record t { time = iperf_time_add_usecs t.time t.usecs })
        < cost (micros now) t
  cheaper_again t h le m q =
      omega (arith, m q, add_usecs-micros t.time t.usecs h (omega (arith, m q)))

  -- A timer that runs once is taken out of the list.
  cancelled :
      (visited rest : List (Timer P)) (t : Timer P) (ts : Timers P)
      → ts.active ≡ visited ++ t ∷ rest
      → count_id t.id visited ≡ 0
      → (ts' : Timers P) × (tmr_cancel t.id ts ≡ some ts') × (ts'.active ≡ visited ++ rest)
  unfolding tmr_cancel
  cancelled visited rest t ts e alone =
      let found : find t.id ts.active ≡ some t = rw e (find-append visited rest t alone) in
      (
        record { active = list_remove t.id ts.active; free_timers = t.id ∷ ts.free_timers },
        rw (found, tmr_cancel),
        rw e (remove-append visited rest t alone),
      )

  -- The claim for a given fuel, with the timers that were visited in this run.
  abbrev Ends : ℕ → Type 0
  Ends fuel =
      (visited rest : List (Timer P)) (w : World S P)
      → w.timers.active ≡ visited ++ rest
      → IsValid w.timers
      → All (MovesOn (micros now)) w.timers.active
      → All IsPeriodic visited
      → total_cost (micros now) rest < fuel
      → Finished (micros now) (run_from call fuel now (head_id rest) w)

  -- What holds when the loop stands at a timer.
  record At (visited rest : List (Timer P)) (t : Timer P) (w : World S P) : Type 0 where
    alone : count_id t.id visited ≡ 0
    found : find t.id w.timers.active ≡ some t
    next : next_of t.id w.timers.active ≡ head_id rest
    normal : IsNormal t.time
    sorted : NotBefore (micros t.time) rest
    moves_before : All (MovesOn (micros now)) visited
    moves : MovesOn (micros now) t
    moves_after : All (MovesOn (micros now)) rest

  timer-At :
      (visited rest : List (Timer P)) (t : Timer P) (w : World S P)
      → w.timers.active ≡ visited ++ t ∷ rest
      → IsValid w.timers
      → All (MovesOn (micros now)) w.timers.active
      → At visited rest t w
  timer-At visited rest t w e v m =
      let alone : count_id t.id visited ≡ 0 = omega (
        arith,
        v.once t.id,
        count_id-append t.id visited (t ∷ rest),
        ap (count_id t.id) e,
        count_self t.id,
      ) in
      let found : find t.id w.timers.active ≡ some t = rw e (find-append visited rest t alone) in
      let moves =
        (All-append (MovesOn (micros now)) visited (t ∷ rest)).0
          (subst (All (MovesOn (micros now))) e m) in
      record {
        alone = alone;
        found = found;
        next = rw e (next_of-append visited rest t alone);
        normal = find-IsNormal t.id w.timers.active v.normal found;
        sorted = sorted-append visited t rest (subst IsSorted e v.sorted);
        moves_before = moves.0;
        moves = moves.1.0;
        moves_after = moves.1.1;
      }

  module _ (fuel : ℕ) (ends : Ends fuel) (visited rest : List (Timer P)) (t : Timer P)
      (w : World S P) (e : w.timers.active ≡ visited ++ t ∷ rest) (v : IsValid w.timers)
      (p : All IsPeriodic visited) (at : At visited rest t w)
      (lt : total_cost (micros now) (t ∷ rest) < suc fuel) where
    called : World S P
    called = call t.proc now w

    same : called.timers ≡ w.timers
    unfolding called
    same = quiet t.proc now w

    found : find t.id called.timers.active ≡ some t
    found = rw same at.found

    valid : IsValid called.timers
    valid = rw same v

    whole : called.timers.active ≡ visited ++ t ∷ rest
    whole = rw same e

    stop :
        is_after t.time now ≡ true
        → Finished (micros now) (run_from call (suc fuel) now (some t.id) w)
    stop d =
        let ahead = after→lt t.time now at.normal n d in
        record {
          final = w;
          ended = break_off call fuel now t.id w t at.found d;
          valid = v;
          ahead = rw e (
              (All-append (IsAhead (micros now)) visited (t ∷ rest)).1 (
                periodic-IsAhead visited p,
                (λ q. ahead, later-IsAhead (micros t.time) rest ahead at.sorted),
              ));
        }

    go_on :
        (ts : Timers P) (next : Option ℕ)
        → is_after t.time now ≡ false
        → finish_timer t.id called.timers ≡ some ts
        → head_id rest ≡ next
        → Finished (micros now) (run_from call fuel now next (record called { timers = ts }))
        → Finished (micros now) (run_from call (suc fuel) now (some t.id) w)
    unfolding called
    go_on ts next d g h = subst (Finished (micros now)) (
        sym (
          round call fuel now t.id w t ts at.found d g
          ∙ ap (λ k. run_from call fuel now k (record (call t.proc now w) { timers = ts }))
              (at.next ∙ h)))

    finish :
        (b : Bool)
        → t.periodic ≡ b
        → finish_timer t.id called.timers
          ≡ (if b then some (reschedule t called.timers) else tmr_cancel t.id called.timers)
    finish b q =
        finish_timer_lem t.id t called.timers found
        ∙ ap (λ c. if c then some (reschedule t called.timers) else tmr_cancel t.id called.timers) q

    visit_periodic :
        is_after t.time now ≡ false
        → t.periodic ≡ true
        → Finished (micros now) (run_from call (suc fuel) now (some t.id) w)
    visit_periodic d q =
        let moved : Timer P = record t { time = iperf_time_add_usecs t.time t.usecs } in
        let again = walk-Split (micros now) moved visited rest q p in
        let list = put_back visited rest t called.timers whole at.alone in
        let moves =
          (All-append (MovesOn (micros now)) visited rest).1 (at.moves_before, at.moves_after) in
        go_on (reschedule t called.timers) (head_id again.rest) d (finish true q) (sym again.next) (
          ends again.visited again.rest (record called { timers = reschedule t called.timers })
            (list ∙ again.whole) (reschedule-IsValid t.id t called.timers valid found)
            (rw list (walk-All (MovesOn (micros now)) moved (visited ++ rest) at.moves moves))
            again.periodic
            (omega (
              arith,
              again.cheaper,
              cheaper_again t at.normal (after→ge t.time now at.normal n d) at.moves q,
            )))

    visit_once :
        is_after t.time now ≡ false
        → t.periodic ≡ false
        → Finished (micros now) (run_from call (suc fuel) now (some t.id) w)
    visit_once d q =
        let (ts, c, list) = cancelled visited rest t called.timers whole at.alone in
        let moves =
          (All-append (MovesOn (micros now)) visited rest).1 (at.moves_before, at.moves_after) in
        go_on ts (head_id rest) d (finish false q ∙ c) refl (
          ends visited rest (record called { timers = ts }) list
            (cancel-IsValid t.id called.timers valid c).0 (rw list moves) p (omega arith))

  run-Finished : (fuel : ℕ) → Ends fuel
  unfolding head_id
  run-Finished zero visited rest w e v m p lt = absurd (omega arith)
  run-Finished (suc fuel) visited [] w e v m p lt = record {
    final = w;
    ended = at_end call fuel now w;
    valid = v;
    ahead = rw (e, append-nil) (periodic-IsAhead visited p);
  }
  run-Finished (suc fuel) visited (t ∷ rest) w e v m p lt =
      let at = timer-At visited rest t w e v m in
      let ends = run-Finished fuel in
      elim (Bool-cases (is_after t.time now)) [
        | inl d ↦ stop fuel ends visited rest t w e v p at lt d
        | inr d ↦ elim (Bool-cases t.periodic) [
          | inl q ↦ visit_periodic fuel ends visited rest t w e v p at lt d q
          | inr q ↦ visit_once fuel ends visited rest t w e v p at lt d q
        ]
      ]

  -- Where no callback touches the timers, every periodic timer has a period above 0 whose next time
  -- can be represented, and the fuel exceeds the cost of the running timers, `tmr_run` ends in a
  -- state: its timers are valid, and every timer that runs once and was due is gone.
  pub tmr_run-Finished :
      (fuel : ℕ) (w : World S P)
      → IsValid w.timers
      → All (MovesOn (micros now)) w.timers.active
      → total_cost (micros now) w.timers.active < fuel
      → Finished (micros now) (tmr_run call fuel now w)
  unfolding tmr_run
  tmr_run-Finished fuel w v m lt = run-Finished fuel [] w.timers.active w refl v m tt lt
