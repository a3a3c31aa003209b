-- ===== src/Udp.antt =====
-- iperf_udp.c: sending and receiving the numbered datagrams of a UDP test. A datagram's buffer is a
-- list of bytes; what `Nwrite` and `Nrecv_no_select` return is an argument, and so is the clock.
pub mod Header
pub mod Sending
pub mod Sequence
use expo_iperf.Common.{
  ℕ, zero, suc, ◌+◌, ◌-◌, ◌*◌, ◌/◌, ◌%◌, ◌^◌, ◌<◌, Bool, true, false, ◌&&◌, ◌==◌, ltb, leb,
  if◌then◌else◌, Option, none, some, List, [], ◌∷◌, ◌++◌, get_or, drop, u32, u64, sub_u64,
}
use expo_iperf.Clock.{IperfTime, iperf_time_diff}
use expo_iperf.Double.{Doubles, iperf_time_in_secs}
use expo_iperf.Net.{NetResult, bytes, soft_error, hard_error}
use expo_iperf.State.{State, is_running}

-- `htonl` and `htobe64`: the bytes of a number, the highest first.
unfoldable pub be32 : ℕ → List ℕ
be32 n = n / 2 ^ 24 % 256 ∷ n / 2 ^ 16 % 256 ∷ n / 2 ^ 8 % 256 ∷ n % 256 ∷ []

pub be64 : ℕ → List ℕ
unfolding be32
be64 n = be32 (n / 2 ^ 32) ++ be32 n

-- `ntohl` and `be64toh` of the bytes at an offset of the buffer.
unfoldable pub read_be32 : List ℕ → ℕ → ℕ
read_be32 buf i =
    get_or buf i 0 * 2 ^ 24
    + get_or buf (i + 1) 0 * 2 ^ 16
    + get_or buf (i + 2) 0 * 2 ^ 8
    + get_or buf (i + 3) 0

pub read_be64 : List ℕ → ℕ → ℕ
unfolding read_be32
read_be64 buf i = read_be32 buf i * 2 ^ 32 + read_be32 buf (i + 4)

-- What `memcpy` puts at the front of the buffer.
unfoldable pub header : Bool → IperfTime → ℕ → List ℕ
unfolding be32 be64
header wide before pcount =
    be32 before.secs ++ (be32 before.usecs ++ (if wide then be64 pcount else be32 (u32 pcount)))

-- What the receiver digs out: the time of sending and the sequence number.
unfoldable pub read_header : Bool → List ℕ → IperfTime × ℕ
unfolding read_be32 read_be64
read_header wide buf = (
  record { secs = read_be32 buf 0; usecs = read_be32 buf 4 },
  if wide then read_be64 buf 8 else read_be32 buf 8,
)

-- The sender's part of a stream. The signed counters are the bit patterns of an `int64_t`.
pub record Sender : Type 0 where
  pub buffer : List ℕ
  pub packet_count : ℕ
  pub bytes_sent : ℕ
  pub bytes_sent_this_interval : ℕ

-- `iperf_udp_send` up to its call of `Nwrite`: the number and the buffer of the datagram.
unfoldable pub prepare : Bool → IperfTime → Sender → Sender
prepare wide before sp =
    let packet_count = u64 (sp.packet_count + 1) in
    record sp {
      packet_count = packet_count;
      buffer = header wide before packet_count ++ drop (if wide then 16 else 12) sp.buffer;
    }

-- The rest of `iperf_udp_send`, by what `Nwrite` returned.
unfoldable pub account : NetResult → Sender → Sender
account (bytes zero) sp = record sp { packet_count = sub_u64 sp.packet_count 1 }
account (bytes (suc r)) sp = record sp {
  bytes_sent = u64 (sp.bytes_sent + suc r);
  bytes_sent_this_interval = u64 (sp.bytes_sent_this_interval + suc r);
}
account soft_error sp = record sp { packet_count = sub_u64 sp.packet_count 1 }
account hard_error sp = record sp { packet_count = sub_u64 sp.packet_count 1 }

-- `iperf_udp_send`: what `Nwrite` returns depends on the buffer that it is given.
unfoldable pub iperf_udp_send :
    (List ℕ → NetResult) → Bool → IperfTime → Sender → NetResult × Sender
unfolding prepare account
iperf_udp_send nwrite wide before sp =
    let ready = prepare wide before sp in let r = nwrite ready.buffer in (r, account r ready)

-- The counters that tell lost datagrams from late ones.
pub record Counters : Type 0 where
  pub packet_count : ℕ
  pub cnt_error : ℕ
  pub outoforder_packets : ℕ

-- `x > 0` of an `int64_t`
abbrev pub is_positive : ℕ → Bool
is_positive x = ltb 0 x && ltb x (2 ^ 63)

-- The sequence number of a datagram against the highest one so far.
unfoldable pub count_packet : ℕ → Counters → Counters
count_packet pcount c =
    let expected = u64 (c.packet_count + 1) in
    if leb expected pcount
    then record c {
      packet_count = pcount;
      cnt_error =
          if ltb expected pcount
          then u64 (c.cnt_error + sub_u64 (sub_u64 pcount 1) c.packet_count)
          else c.cnt_error;
    }
    else record c {
      outoforder_packets = u64 (c.outoforder_packets + 1);
      cnt_error = if is_positive c.cnt_error then sub_u64 c.cnt_error 1 else c.cnt_error;
    }

module _ (D : Doubles) where
  open D use {Double, of_ℕ, add, sub, div, is_less}

  -- The receiver's part of a stream.
  pub record Receiver : Type 0 where
    pub counters : Counters
    pub bytes_received : ℕ
    pub bytes_received_this_interval : ℕ
    pub jitter : Double
    pub prev_transit : Double

  -- The jitter of RFC 1889, from the transit time of a datagram.
  unfoldable pub add_transit : Bool → Double → Receiver → Receiver
  add_transit first_packet transit sp =
      let prev_transit = if first_packet then transit else sp.prev_transit in
      let d = sub transit prev_transit in
      let distance = if is_less d (of_ℕ 0) then sub (of_ℕ 0) d else d in
      record sp {
        prev_transit = transit;
        jitter = add sp.jitter (div (sub distance sp.jitter) (of_ℕ 16));
      }

  -- `iperf_udp_recv`, by what `Nrecv_no_select` returned and stored, and the clock behind it.
  unfoldable pub iperf_udp_recv :
      NetResult → List ℕ → State → Bool → IperfTime → Receiver → NetResult × Receiver
  unfolding read_header count_packet add_transit iperf_time_in_secs
  iperf_udp_recv soft_error buf state wide arrival sp = (soft_error, sp)
  iperf_udp_recv hard_error buf state wide arrival sp = (hard_error, sp)
  iperf_udp_recv (bytes zero) buf state wide arrival sp = (bytes zero, sp)
  iperf_udp_recv (bytes (suc r)) buf state wide arrival sp =
      let first_packet = sp.bytes_received == 0 in
      let (sent, pcount) = read_header wide buf in
      let transit = iperf_time_in_secs D (iperf_time_diff arrival sent).1 in
      let counted = record sp {
        bytes_received = u64 (sp.bytes_received + suc r);
        bytes_received_this_interval = u64 (sp.bytes_received_this_interval + suc r);
        counters = count_packet pcount sp.counters;
      } in
      (bytes (suc r), if is_running state then add_transit first_packet transit counted else sp)
