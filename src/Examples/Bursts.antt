-- ===== src/Examples/Bursts.antt =====
-- A stream that sends blocks of 20 bytes.
use expo_iperf.Common.{ℕ, ◌+◌, ◌^◌, ◌≤◌, ◌≡◌, ◌≢◌, ◌<◌, ◌↔◌, refl, false, true, u64, max, arith}
use expo_iperf.Clock.{IperfTime, iperf_time_diff, iperf_time_compare}
use expo_iperf.Double.{iperf_time_in_secs}
use expo_iperf.Net.{NetResult, bytes}
use expo_iperf.Streams.{Target, Flow, iperf_check_throttle, burst_size, iperf_send_mt}
use expo_iperf.Streams.Burst.{send_mt_conserves, send_mt_bounds}
use expo_iperf.Streams.Throttle.{rate_so_far, check_throttle_lem}
use expo_iperf.Examples.CommandLines.{whole}

abbrev send_block : ℕ → NetResult × ℕ × ℕ
send_block a = (bytes 20, 0, a + 20)

abbrev target : Target
target = record { burst = 0; rate = 0; multisend = 10; bytes_limit = 100; blocks_limit = 0 }

abbrev flow : Flow ℕ
flow = record {
  bytes_sent = 60;
  blocks_sent = 3;
  bytes_received = 0;
  blocks_received = 0;
  green_light = true;
  app = 60;
}

abbrev at_start : IperfTime
at_start = record { secs = 1; usecs = 0 }

abbrev at_burst : IperfTime
at_burst = record { secs = 2; usecs = 0 }

send_mt_conserves_example :
    let t =
      (iperf_send_mt whole (λ a. a) at_start false target send_block at_burst at_burst flow).1 in
    u64 (t.bytes_sent + 60) ≡ u64 (60 + t.app)
send_mt_conserves_example =
    send_mt_conserves whole (λ a. a) at_start false target send_block (λ a. a) (λ a. refl) at_burst
      at_burst flow

send_mt_bounds_example :
    let t =
      (iperf_send_mt whole (λ a. a) at_start false target send_block at_burst at_burst flow).1 in
    (t.blocks_sent ≤ 3 + burst_size whole (λ a. a) at_start target)
    × (target.bytes_limit ≢ 0 → t.bytes_sent ≤ max 60 (100 + 20) + 20)
send_mt_bounds_example =
    send_mt_bounds whole (λ a. a) at_start false target send_block 20 (λ a. ground arith) at_burst
      at_burst flow

abbrev paced : Target
paced = record { burst = 0; rate = 1000; multisend = 10; bytes_limit = 0; blocks_limit = 0 }

slow : rate_so_far whole 60 at_start at_burst < 2 ^ 63
unfolding iperf_time_diff iperf_time_compare iperf_time_in_secs
slow = ground arith

check_throttle_lem_example :
    ((iperf_check_throttle whole (λ a. a) at_start false paced at_burst flow).green_light ≡ true)
    ↔ (rate_so_far whole 60 at_start at_burst < 1000)
check_throttle_lem_example =
    check_throttle_lem whole (λ a. a) at_start paced at_burst flow (λ e. ground arith)
      (ground arith) (ground arith) slow
