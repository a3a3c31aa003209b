-- ===== src/Stats.antt =====
-- iperf_api.c and iperf_tcp.c: what a stream counts, the results of its intervals and the reset when
-- the omitted time is over. The jitter and the duration of an interval, both `double`, are not
-- modelled. `long` and `int64_t` counters are bit patterns.
pub mod Intervals
pub mod Packets
use expo_iperf.Common.{
  ℕ, zero, suc, ◌+◌, ◌==◌, Bool, true, false, ◌&&◌, ◌||◌, if◌then◌else◌, ltb, Option, none, some,
  List, [], ◌∷◌, ◌++◌, u64, sub_u64,
}
use expo_iperf.Clock.{IperfTime}

-- `struct iperf_interval_results`
pub record Interval : Type 0 where
  pub bytes_transferred : ℕ
  pub interval_start_time : IperfTime
  pub interval_end_time : IperfTime
  pub interval_packet_count : ℕ
  pub interval_outoforder_packets : ℕ
  pub interval_cnt_error : ℕ
  pub packet_count : ℕ
  pub outoforder_packets : ℕ
  pub cnt_error : ℕ
  pub omitted : Bool
  pub interval_retrans : ℕ
  pub snd_cwnd : ℕ
  pub snd_wnd : ℕ
  pub rtt : ℕ
  pub rttvar : ℕ
  pub pmtu : ℕ

-- `struct iperf_stream_result`
pub record StreamResult : Type 0 where
  pub bytes_received : ℕ
  pub bytes_sent : ℕ
  pub bytes_received_this_interval : ℕ
  pub bytes_sent_this_interval : ℕ
  pub bytes_sent_omit : ℕ
  pub stream_prev_total_retrans : ℕ
  pub stream_retrans : ℕ
  pub stream_max_rtt : ℕ
  pub stream_min_rtt : ℕ
  pub stream_sum_rtt : ℕ
  pub stream_count_rtt : ℕ
  pub stream_max_snd_cwnd : ℕ
  pub stream_max_snd_wnd : ℕ
  pub start_time : IperfTime
  pub end_time : IperfTime
  pub interval_results : List Interval

-- The counters of `struct iperf_stream`, with its result.
pub record Stream : Type 0 where
  pub sender : Bool
  pub packet_count : ℕ
  pub cnt_error : ℕ
  pub outoforder_packets : ℕ
  pub omitted_packet_count : ℕ
  pub omitted_cnt_error : ℕ
  pub omitted_outoforder_packets : ℕ
  pub result : StreamResult

-- What the operating system tells of a TCP connection, by `save_tcpinfo` and the functions of
-- tcp_info.c.
pub record TcpInfo : Type 0 where
  pub total_retransmits : ℕ
  pub snd_cwnd : ℕ
  pub snd_wnd : ℕ
  pub rtt : ℕ
  pub rttvar : ℕ
  pub pmtu : ℕ

-- `r` bytes came in, in the state TEST_RUNNING or in another.
unfoldable pub count_received : Bool → ℕ → StreamResult → StreamResult
count_received running r rp =
    if running
    then record rp {
      bytes_received = u64 (rp.bytes_received + r);
      bytes_received_this_interval = u64 (rp.bytes_received_this_interval + r);
    }
    else rp

unfoldable pub count_sent : ℕ → StreamResult → StreamResult
count_sent r rp = record rp {
  bytes_sent = u64 (rp.bytes_sent + r);
  bytes_sent_this_interval = u64 (rp.bytes_sent_this_interval + r);
}

-- TAILQ_LAST of `interval_results`.
abbrev pub last_interval : List Interval → Option Interval
last_interval [] = none
last_interval (i ∷ []) = some i
last_interval (i ∷ j ∷ l) = last_interval (j ∷ l)

abbrev pub without_last : List Interval → List Interval
without_last [] = []
without_last (i ∷ []) = []
without_last (i ∷ j ∷ l) = i ∷ without_last (j ∷ l)

unfoldable pub add_to_interval_list : Interval → List Interval → List Interval
add_to_interval_list new l = without_last l ++ (new ∷ [])

-- The interval starts where the last one ended, the first one with the test.
abbrev pub start_of : Option Interval → StreamResult → IperfTime
start_of none rp = rp.start_time
start_of (some i) rp = rp.end_time

-- A counter since the last interval.
abbrev pub since : (Interval → ℕ) → Option Interval → ℕ → ℕ
since count none n = n
since count (some i) n = sub_u64 n (count i)

-- The largest value, and the smallest but 0.
abbrev pub at_least : ℕ → ℕ → ℕ
at_least m n = if ltb m n then n else m

abbrev pub at_most : ℕ → ℕ → ℕ
at_most m n = if (m == 0) || ltb n m then n else m

-- The fields that every protocol sets. Those that a protocol does not set are 0 here; in the program
-- the variable keeps what the stream before has left in them.
abbrev pub plain_interval : Bool → IperfTime → Stream → Interval
plain_interval omitting now s = record {
  bytes_transferred =
      if s.sender then s.result.bytes_sent_this_interval else s.result.bytes_received_this_interval;
  interval_start_time = start_of (last_interval s.result.interval_results) s.result;
  interval_end_time = now;
  interval_packet_count = 0;
  interval_outoforder_packets = 0;
  interval_cnt_error = 0;
  packet_count = 0;
  outoforder_packets = 0;
  cnt_error = 0;
  omitted = omitting;
  interval_retrans = 0;
  snd_cwnd = 0;
  snd_wnd = 0;
  rtt = 0;
  rttvar = 0;
  pmtu = 0;
}

-- The counters of UDP.
abbrev pub udp_interval : Stream → Interval → Interval
udp_interval s i =
    let irp = last_interval s.result.interval_results in
    record i {
      interval_packet_count = since (λ (j : Interval). j.packet_count) irp s.packet_count;
      interval_outoforder_packets =
          since (λ (j : Interval). j.outoforder_packets) irp s.outoforder_packets;
      interval_cnt_error = since (λ (j : Interval). j.cnt_error) irp s.cnt_error;
      packet_count = s.packet_count;
      outoforder_packets = s.outoforder_packets;
      cnt_error = s.cnt_error;
    }

-- The figures of TCP, where `sender_has_retransmits` is 1.
abbrev pub tcp_interval : TcpInfo → StreamResult → Interval → Interval
tcp_interval t rp i = record i {
  interval_retrans = sub_u64 t.total_retransmits rp.stream_prev_total_retrans;
  snd_cwnd = t.snd_cwnd;
  snd_wnd = t.snd_wnd;
  rtt = t.rtt;
  rttvar = t.rttvar;
  pmtu = t.pmtu;
}

abbrev pub tcp_result : TcpInfo → StreamResult → StreamResult
tcp_result t rp = record rp {
  stream_retrans =
      u64 (rp.stream_retrans + sub_u64 t.total_retransmits rp.stream_prev_total_retrans);
  stream_prev_total_retrans = t.total_retransmits;
  stream_max_snd_cwnd = at_least rp.stream_max_snd_cwnd t.snd_cwnd;
  stream_max_snd_wnd = at_least rp.stream_max_snd_wnd t.snd_wnd;
  stream_max_rtt = at_least rp.stream_max_rtt t.rtt;
  stream_min_rtt = at_most rp.stream_min_rtt t.rtt;
  stream_sum_rtt = u64 (rp.stream_sum_rtt + t.rtt);
  stream_count_rtt = rp.stream_count_rtt + 1;
}

-- The protocol of the test, for TCP with the information that is used, if it is.
pub data Figures : Type 0 where
  of_tcp : Option TcpInfo → Figures
  of_udp : Figures

abbrev pub interval_of : Figures → Stream → Interval → Interval
interval_of (of_tcp none) s i = i
interval_of (of_tcp (some t)) s i = tcp_interval t s.result i
interval_of of_udp s i = udp_interval s i

abbrev pub result_of : Figures → StreamResult → StreamResult
result_of (of_tcp (some t)) rp = tcp_result t rp
result_of _ rp = rp

-- The round of `iperf_stats_callback` for a stream: the interval, and the stream behind it.
unfoldable pub stats_round : Bool → IperfTime → Figures → Stream → Interval × Stream
unfolding add_to_interval_list
stats_round omitting now f s =
    let new = interval_of f s (plain_interval omitting now s) in
    let rp = result_of f s.result in
    (
      new,
      record s {
        result = record rp {
          end_time = now;
          interval_results = add_to_interval_list new rp.interval_results;
          bytes_sent_this_interval = 0;
          bytes_received_this_interval = 0;
        };
      },
    )

-- `iperf_stats_callback`: a time and the figures for each stream; the streams, and the number of bytes
-- that `iperf_check_total_rate` is given.
unfoldable pub iperf_stats_callback :
    Bool → List (IperfTime × Figures) → List Stream → List Stream × ℕ
unfolding stats_round
iperf_stats_callback omitting ((now, f) ∷ readings) (s ∷ l) =
    let (l', total) = iperf_stats_callback omitting readings l in
    (
      (stats_round omitting now f s).1 ∷ l',
      u64 (s.result.bytes_sent_this_interval + s.result.bytes_received_this_interval + total),
    )
iperf_stats_callback omitting _ l = (l, 0)

-- `iperf_reset_stats` for a stream, with the retransmits so far where they are counted.
unfoldable pub reset_stream : IperfTime → Option ℕ → Stream → Stream
reset_stream now retransmits s = record s {
  omitted_packet_count = s.packet_count;
  omitted_cnt_error = s.cnt_error;
  omitted_outoforder_packets = s.outoforder_packets;
  result = record (s.result) {
    bytes_sent_omit = s.result.bytes_sent;
    bytes_received = 0;
    bytes_sent_this_interval = 0;
    bytes_received_this_interval = 0;
    stream_prev_total_retrans = elim retransmits [
      | none ↦ s.result.stream_prev_total_retrans
      | some n ↦ n
    ];
    stream_retrans = 0;
    start_time = now;
  };
}
