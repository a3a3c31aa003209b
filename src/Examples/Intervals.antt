-- ===== src/Examples/Intervals.antt =====
-- Two intervals of a receiver of UDP.
use expo_iperf.Common.{ℕ, ◌+◌, ◌≡◌, false, true, List, [], ◌∷◌, u64, arith}
use expo_iperf.Clock.{IperfTime}
use expo_iperf.Stats.{Stream, of_udp}
use expo_iperf.Stats.Intervals.{
  Event, came, went, counted, ends, run, total_bytes, this_interval, total_moved, Chain, next_start,
  intervals_lem,
}
use expo_iperf.Stats.Packets.{total_packets, reported, packets_lem}

abbrev at : ℕ → IperfTime
at n = record { secs = n; usecs = 0 }

abbrev stream : Stream
stream = record {
  sender = false;
  packet_count = 0;
  cnt_error = 0;
  outoforder_packets = 0;
  omitted_packet_count = 0;
  omitted_cnt_error = 0;
  omitted_outoforder_packets = 0;
  result = record {
    bytes_received = 0;
    bytes_sent = 0;
    bytes_received_this_interval = 0;
    bytes_sent_this_interval = 0;
    bytes_sent_omit = 0;
    stream_prev_total_retrans = 0;
    stream_retrans = 0;
    stream_max_rtt = 0;
    stream_min_rtt = 0;
    stream_sum_rtt = 0;
    stream_count_rtt = 0;
    stream_max_snd_cwnd = 0;
    stream_max_snd_wnd = 0;
    start_time = at 5;
    end_time = at 0;
    interval_results = [];
  };
}

abbrev events : List Event
events =
    came true 1400
    ∷ counted 1
    ∷ ends false (at 6) of_udp
    ∷ came true 1400
    ∷ counted 2
    ∷ went 10
    ∷ came false 1400
    ∷ ends false (at 7) of_udp
    ∷ came true 1400
    ∷ []

intervals_lem_example :
    (u64 (total_bytes (run events stream).0 + this_interval (run events stream).1)
      ≡ u64 (0 + total_moved false events))
    × Chain (at 5) (run events stream).0 (next_start (run events stream).1)
intervals_lem_example = intervals_lem events stream

packets_lem_example :
    u64 (total_packets (run events stream).0 + 0) ≡ u64 (reported (run events stream).1)
packets_lem_example = packets_lem events stream (omega arith) (omega arith)
