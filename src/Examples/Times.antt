-- ===== src/Examples/Times.antt =====
-- Time stamps, and timers of a running test.
use expo_iperf.Common.{
  ℕ, ◌+◌, ◌*◌, ◌-◌, ◌≤◌, ◌<◌, ◌≡◌, ◌↔◌, ◌⊎◌, refl, true, false, none, some, [], ◌∷◌, arith, max,
  min,
}
use expo_iperf.Clock.{IperfTime, iperf_time_add_usecs, iperf_time_compare, iperf_time_diff}
use expo_iperf.Clock.Laws.{IsNormal, micros, diff-micros}
use expo_iperf.Timer.{
  tmr_destroy, Timer, Timers, list_add, list_resort, list_remove, find, tmr_create, tmr_timeout,
  tmr_reset, tmr_cancel, alloc, start_timer, walk,
}
use expo_iperf.Timer.Sorted.{NotBefore}
use expo_iperf.Timer.Ops.{IsValid, count_addr, held, count_time, timeout_lem}
use expo_iperf.Timer.Destroy.{destroy_lem}
use expo_iperf.Timer.Loop.Round.{run-IsValid}
use expo_iperf.Timer.Loop.{done, run_from, head_id, next_of, finish_timer, World, tmr_run}
use expo_iperf.Timer.Loop.Run.{Finished, tmr_run-Finished}

abbrev early : IperfTime
early = record { secs = 10; usecs = 900000 }

abbrev late : IperfTime
late = record { secs = 12; usecs = 100000 }

early-IsNormal : IsNormal early
early-IsNormal = record { secs_in = ground arith; usecs_in = ground arith }

late-IsNormal : IsNormal late
late-IsNormal = record { secs_in = ground arith; usecs_in = ground arith }

diff-micros_example :
    let (past, d) = iperf_time_diff early late in
    (micros d + min (micros early) (micros late) ≡ max (micros early) (micros late))
    × ((past ≡ true) ↔ (micros early ≤ micros late))
    × IsNormal d
diff-micros_example = diff-micros early late early-IsNormal late-IsNormal

-- A report timer of one second, and a timer that ends the test.
abbrev report : Timer ℕ
report = record { id = 1; proc = 7; usecs = 1000000; periodic = true; time = early }

abbrev final_timer : Timer ℕ
final_timer = record { id = 2; proc = 8; usecs = 2000000; periodic = false; time = late }

abbrev timers : Timers ℕ
timers = record { active = report ∷ final_timer ∷ []; free_timers = 3 ∷ [] }

timers-IsValid : IsValid timers
timers-IsValid = record {
  normal = (early-IsNormal, (late-IsNormal, tt));
  sorted = ((ground arith, tt), (tt, tt));
  once = λ a. ground arith;
}

abbrev reset_timers : Timers ℕ
reset_timers = record {
  active = final_timer ∷ record report { time = record { secs = 13; usecs = 100000 } } ∷ [];
  free_timers = 3 ∷ [];
}

reset_runs : tmr_reset late 1 timers ≡ some reset_timers
unfolding tmr_reset iperf_time_compare list_resort list_remove list_add walk find
    iperf_time_add_usecs
reset_runs = refl

abbrev without_report : Timers ℕ
without_report = record { active = final_timer ∷ []; free_timers = 1 ∷ 3 ∷ [] }

cancel_runs : tmr_cancel 1 timers ≡ some without_report
unfolding tmr_cancel list_remove find
cancel_runs = refl

abbrev omit : Timer ℕ
omit = record {
  id = 3;
  proc = 9;
  usecs = 500000;
  periodic = false;
  time = record { secs = 11; usecs = 400000 };
}

abbrev with_omit : Timers ℕ
with_omit = record { active = report ∷ omit ∷ final_timer ∷ []; free_timers = [] }

create_runs : tmr_create (some 4) early 9 500000 false timers ≡ some (3, with_omit)
unfolding tmr_create alloc start_timer list_add walk iperf_time_add_usecs iperf_time_compare
create_runs = refl

abbrev now : IperfTime
now = record { secs = 10; usecs = 0 }

now-IsNormal : IsNormal now
now-IsNormal = record { secs_in = ground arith; usecs_in = ground arith }

timeout_lem_example :
    ((tmr_timeout now timers ≡ none) × (timers.active ≡ []))
    ⊎ ((sec usec first : ℕ) × (tmr_timeout now timers ≡ some (sec, usec))
        × (sec * 1000000 + usec ≡ first - micros now)
        × (usec < 1000000)
        × NotBefore first timers.active
        × (0 < count_time first timers.active))
timeout_lem_example = timeout_lem now timers timers-IsValid now-IsNormal

abbrev world : World ℕ ℕ
world = record { timers = timers; app = 0 }

abbrev count_calls : ℕ → IperfTime → World ℕ ℕ → World ℕ ℕ
count_calls proc t w = record w { app = w.app + 1 }

tmr_run-Finished_example : Finished (micros late) (tmr_run count_calls 3000000 late world)
tmr_run-Finished_example =
    tmr_run-Finished count_calls (λ p t w. refl) late late-IsNormal 3000000 world timers-IsValid
      ((λ _. (ground arith, ground arith)), ((λ e. absurd (cc)), tt)) (ground arith)

destroy_lem_example :
    let (freed, ts) = tmr_destroy timers in
    ((a : ℕ) → count_addr a freed ≡ held a timers) × (ts.active ≡ []) × (ts.free_timers ≡ [])
destroy_lem_example = destroy_lem timers

-- The end of the test is due, and no other timer runs.
abbrev last_world : World ℕ ℕ
last_world = record { timers = record { active = final_timer ∷ []; free_timers = 3 ∷ [] }; app = 0 }

abbrev ended_world : World ℕ ℕ
ended_world = record { timers = record { active = []; free_timers = 2 ∷ 3 ∷ [] }; app = 1 }

last_run : tmr_run count_calls 2 late last_world ≡ done ended_world
unfolding tmr_run run_from head_id next_of finish_timer find tmr_cancel list_remove
    iperf_time_compare
last_run = refl

last_world-IsValid : IsValid last_world.timers
last_world-IsValid = record {
  normal = (late-IsNormal, tt);
  sorted = (tt, tt);
  once = λ a. ground arith;
}

run-IsValid_example : IsValid ended_world.timers
run-IsValid_example =
    run-IsValid count_calls (λ p t w v. v) 2 late last_world {w' = ended_world} last_world-IsValid
      last_run
