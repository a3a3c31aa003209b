-- ===== src/Timer/Loop.antt =====
-- `tmr_run` of timer.c. The loop goes from timer to timer by the address of the next one, which it
-- reads before the callback runs. The callbacks are those of the client and the server: here an
-- argument, which may change the timers and the rest of the program's state.
pub mod Visit
pub mod Round
pub mod Run
use expo_iperf.Common.{ℕ, zero, suc, ◌==◌, if◌then◌else◌, Option, none, some, List, [], ◌∷◌}
use expo_iperf.Clock.{IperfTime, iperf_time_add_usecs}
use expo_iperf.Timer.{Timer, Timers, is_after, find, list_resort, tmr_cancel}

-- The timers, and what the callbacks work on.
pub record World (S P : Type 0) : Type 0 where
  pub timers : Timers P
  pub app : S

-- How a run ends: with a state, at an address that is no running timer, or without fuel. The program
-- does not end at such an address, which a callback makes by cancelling its own timer or the next
-- one: it goes on with the structure there, which may be in the list of unused ones. `stale` says
-- nothing of what it does then.
pub data RunResult (W : Type 0) : Type 0 where
  done : W → RunResult W
  stale : RunResult W
  no_fuel : RunResult W

module _ {P : Type 0} where
  unfoldable pub head_id : List (Timer P) → Option ℕ
  head_id [] = none
  head_id (t ∷ rest) = some t.id

  -- `t->next`, for the timer at an address.
  unfoldable pub next_of : ℕ → List (Timer P) → Option ℕ
  next_of a [] = none
  next_of a (t ∷ rest) = let further = next_of a rest in if t.id == a then head_id rest else further

  pub reschedule : Timer P → Timers P → Timers P
  reschedule t ts = record ts {
    active = list_resort (record t { time = iperf_time_add_usecs t.time t.usecs }) ts.active;
  }

  -- What follows the callback: a periodic timer is rescheduled, any other is cancelled.
  unfoldable pub finish_timer : ℕ → Timers P → Option (Timers P)
  finish_timer a ts = elim (find a ts.active) [
    | none ↦ none
    | some t ↦ if t.periodic then some (reschedule t ts) else tmr_cancel a ts
  ]

module _ {S P : Type 0} (call : P → IperfTime → World S P → World S P) where
  unfoldable pub run_from : ℕ → IperfTime → Option ℕ → World S P → RunResult (World S P)
  run_from zero now next w = no_fuel
  run_from (suc fuel) now none w = done w
  run_from (suc fuel) now (some a) w = elim (find a w.timers.active) [
    | none ↦ stale
    | some t ↦
        let called = call t.proc now w in
        let next = next_of a w.timers.active in
        let finished : RunResult (World S P) = elim (finish_timer a called.timers) [
          | none ↦ stale
          | some ts ↦ run_from fuel now next (record called { timers = ts })
        ] in
        if is_after t.time now then done w else finished
  ]

  unfoldable pub tmr_run : ℕ → IperfTime → World S P → RunResult (World S P)
  unfolding run_from
  tmr_run fuel now w = run_from fuel now (head_id w.timers.active) w
