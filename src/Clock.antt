-- ===== src/Clock.antt =====
-- iperf_time.c: time stamps of seconds and microseconds, both `uint32_t`.
pub mod Laws
use expo_iperf.Common.{
  ℕ, ◌+◌, ◌-◌, ◌*◌, ◌/◌, ◌%◌, ◌<◌, Bool, true, false, ltb, if◌then◌else◌, u32, u64, sub_u32,
}

-- `struct iperf_time`
pub record IperfTime : Type 0 where
  pub secs : ℕ  -- uint32_t
  pub usecs : ℕ  -- uint32_t

-- The three results of `iperf_time_compare`: -1, 0 and 1.
pub data Cmp : Type 0 where
  earlier same later : Cmp

unfoldable pub iperf_time_add_usecs : IperfTime → ℕ → IperfTime
iperf_time_add_usecs t usecs =
    let total_usecs = u64 (t.usecs + usecs) in
    record { secs = u32 (t.secs + total_usecs / 1000000); usecs = total_usecs % 1000000 }

unfoldable pub iperf_time_in_usecs : IperfTime → ℕ
iperf_time_in_usecs t = u64 (t.secs * 1000000 + t.usecs)

unfoldable pub iperf_time_compare : IperfTime → IperfTime → Cmp
iperf_time_compare t1 t2 =
    if ltb t1.secs t2.secs
    then earlier
    else if ltb t2.secs t1.secs
    then later
    else if ltb t1.usecs t2.usecs
    then earlier
    else if ltb t2.usecs t1.usecs
    then later
    else same

-- The two branches of `iperf_time_diff` are one subtraction with the times exchanged.
unfoldable pub time_sub : IperfTime → IperfTime → IperfTime
time_sub t1 t2 =
    if ltb t1.usecs t2.usecs
    then record {
      secs = sub_u32 (sub_u32 t1.secs t2.secs) 1;
      usecs = sub_u32 (u32 (t1.usecs + 1000000)) t2.usecs;
    }
    else record { secs = sub_u32 t1.secs t2.secs; usecs = sub_u32 t1.usecs t2.usecs }

-- The result `past`, and what is written through `diff`.
unfoldable pub iperf_time_diff : IperfTime → IperfTime → Bool × IperfTime
unfolding time_sub iperf_time_compare
iperf_time_diff t1 t2 = elim (iperf_time_compare t1 t2) [
  | same ↦ (true, record { secs = 0; usecs = 0 })
  | later ↦ (false, time_sub t1 t2)
  | earlier ↦ (true, time_sub t2 t1)
]
