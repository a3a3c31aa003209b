-- ===== src/Clock/Laws.antt =====
-- What the operations of iperf_time.c compute, as numbers of microseconds.
use expo_iperf.Common.{ℕ, ◌+◌, ◌*◌, ◌^◌, ◌≤◌, ◌<◌, ◌≡◌, ◌↔◌, true, arith, max, min}
use expo_iperf.Clock.{
  IperfTime, earlier, same, later, iperf_time_add_usecs, iperf_time_in_usecs, iperf_time_compare,
  iperf_time_diff,
}

-- A time stamp as the clock and the operations make it.
pub record IsNormal (t : IperfTime) : Type 0 where
  pub secs_in : t.secs < 2 ^ 32
  pub usecs_in : t.usecs < 1000000

-- The number of microseconds that a time stamp stands for.
abbrev pub micros : IperfTime → ℕ
micros t = t.secs * 1000000 + t.usecs

-- The number of microseconds in a time stamp never wraps.
pub in_usecs-micros : {t : IperfTime} → IsNormal t → iperf_time_in_usecs t ≡ micros t
unfolding iperf_time_in_usecs
in_usecs-micros n = omega arith

-- Adding keeps a time stamp normal.
pub add_usecs-IsNormal : (t : IperfTime) (u : ℕ) → IsNormal (iperf_time_add_usecs t u)
unfolding iperf_time_add_usecs
add_usecs-IsNormal t u = omega arith

-- Where the sum fits into the 32-bit seconds, adding microseconds adds them to the time, and the
-- result is normal.
pub add_usecs-micros :
    (t : IperfTime) (u : ℕ)
    → IsNormal t
    → micros t + u < 2 ^ 32 * 1000000
    → micros (iperf_time_add_usecs t u) ≡ micros t + u
unfolding iperf_time_add_usecs
add_usecs-micros t u n h = omega arith

-- Comparison decides the order of the microseconds.
pub compare-micros :
    (s t : IperfTime)
    → IsNormal s
    → IsNormal t
    → ((iperf_time_compare s t ≡ earlier) ↔ (micros s < micros t))
      × ((iperf_time_compare s t ≡ same) ↔ (micros s ≡ micros t))
      × ((iperf_time_compare s t ≡ later) ↔ (micros t < micros s))
unfolding iperf_time_compare
compare-micros s t m n = ground arith

-- The difference is the distance in microseconds, `past` is raised exactly when the first time is
-- not after the second, and the difference is normal.
pub diff-micros :
    (s t : IperfTime)
    → IsNormal s
    → IsNormal t
    → let (past, d) = iperf_time_diff s t in
      (micros d + min (micros s) (micros t) ≡ max (micros s) (micros t))
      × ((past ≡ true) ↔ (micros s ≤ micros t))
      × IsNormal d
unfolding iperf_time_diff
diff-micros s t m n = ground arith
