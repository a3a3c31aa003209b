-- ===== src/Streams/Throttle.antt =====
-- When the throttle lets a stream send.
use expo_iperf.Common.{
  ℕ, ◌*◌, ◌^◌, ◌<◌, ◌≡◌, ◌≢◌, ◌↔◌, true, false, ◌==◌, arith, sub_u64, u64, subst, sym,
}
use expo_iperf.Clock.{IperfTime, iperf_time_diff}
use expo_iperf.Double.{Doubles, iperf_time_in_secs}
use expo_iperf.Udp.{is_positive}
use expo_iperf.Streams.{Target, Flow, iperf_check_throttle}

positive_lem : (a b : ℕ) → a < 2 ^ 63 → b < 2 ^ 63 → (is_positive (sub_u64 a b) ≡ true) ↔ (b < a)
positive_lem a b h k = ground arith

-- The bits of the bytes so far for each second since the start, as a whole number.
abbrev pub rate_so_far : (D : Doubles) → ℕ → IperfTime → IperfTime → ℕ
rate_so_far D sent start now =
    D.truncate (D.div (D.of_ℕ (sent * 8)) (iperf_time_in_secs D (iperf_time_diff start now).1))

-- In a test that is not done and has a target rate, where the bits that a stream has sent are below
-- 2 ^ 64 and both rates below 2 ^ 63: the stream has a green light behind the check just when eight
-- bits for each byte so far, over the seconds since its start, are below the target. The product
-- does not wrap, and the signed difference of the two unsigned rates decides rightly.
pub check_throttle_lem :
    (D : Doubles) {S : Type 0} (stream_bytes : S → ℕ) (start : IperfTime) (g : Target)
    (now : IperfTime) (s : Flow S)
    → g.rate ≢ 0
    → g.rate < 2 ^ 63
    → stream_bytes s.app * 8 < 2 ^ 64
    → rate_so_far D (stream_bytes s.app) start now < 2 ^ 63
    → ((iperf_check_throttle D stream_bytes start false g now s).green_light ≡ true)
      ↔ (rate_so_far D (stream_bytes s.app) start now < g.rate)
unfolding iperf_check_throttle
check_throttle_lem D stream_bytes start g now s set h fits k =
    let on : (g.rate == 0) ≡ false = ground arith in
    let whole : u64 (stream_bytes s.app * 8) ≡ stream_bytes s.app * 8 = omega (arith, fits) in
    let rate = rate_so_far D (stream_bytes s.app) start now in
    let rate_of = λ (n : ℕ).
      D.truncate (D.div (D.of_ℕ n) (iperf_time_in_secs D (iperf_time_diff start now).1)) in
    rw on (
      subst (λ n. (is_positive (sub_u64 g.rate (rate_of n)) ≡ true) ↔ (rate < g.rate)) (sym whole)
        (positive_lem g.rate rate h k))
