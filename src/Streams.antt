-- ===== src/Streams.antt =====
-- The loops of iperf_api.c that drive a stream: `iperf_send_mt` sends a burst of blocks by the send
-- function of the protocol, `iperf_recv_mt` receives one, and `iperf_check_throttle` compares the
-- rate so far with the target. The protocol's functions work on a state of their own, a parameter.
pub mod Burst
pub mod Throttle
use expo_iperf.Common.{
  ℕ, zero, suc, ◌+◌, ◌*◌, Bool, true, false, not, ◌&&◌, ◌||◌, ◌==◌, if◌then◌else◌, leb, u64,
  sub_u64,
}
use expo_iperf.Clock.{IperfTime, iperf_time_diff}
use expo_iperf.Double.{Doubles, iperf_time_in_secs}
use expo_iperf.Net.{NetResult, bytes, soft_error, hard_error}
use expo_iperf.Udp.{is_positive}

-- The settings that the loops read.
pub record Target : Type 0 where
  pub burst : ℕ
  pub rate : ℕ
  pub multisend : ℕ
  pub bytes_limit : ℕ  -- `settings->bytes`
  pub blocks_limit : ℕ  -- `settings->blocks`

-- The counters of the test, the light of the stream, and the state of the protocol.
pub record Flow (S : Type 0) : Type 0 where
  pub bytes_sent : ℕ
  pub blocks_sent : ℕ
  pub bytes_received : ℕ
  pub blocks_received : ℕ
  pub green_light : Bool
  pub app : S

-- How a call ends: with 0, or with the result of the protocol and IESTREAMWRITE or IESTREAMREAD.
pub data Ended : Type 0 where
  zero_result : Ended
  stream_error : NetResult → Ended

module _ (D : Doubles) {S : Type 0} (stream_bytes : S → ℕ) (start : IperfTime) where
  open D use {of_ℕ, div, truncate}

  -- `bytes_sent` and `start_time_fixed` are those of the stream's result.
  abbrev pub bits_per_second : IperfTime → Flow S → ℕ
  bits_per_second now s =
      let seconds = iperf_time_in_secs D (iperf_time_diff start now).1 in
      truncate (div (of_ℕ (u64 (stream_bytes s.app * 8))) seconds)

  unfoldable pub iperf_check_throttle : Bool → Target → IperfTime → Flow S → Flow S
  iperf_check_throttle done g now s =
      if done || (g.rate == 0)
      then s
      else record s { green_light = is_positive (sub_u64 g.rate (bits_per_second now s)) }

  unfoldable pub burst_size : Target → ℕ
  burst_size g = if not (g.burst == 0) then g.burst else if g.rate == 0 then g.multisend else 1

  -- Without clock_nanosleep and nanosleep.
  abbrev pub throttle_check_per_message : Target → Bool
  throttle_check_per_message g = not (g.rate == 0) && (g.burst == 0)

  -- An end condition is met, and the block is not the last of the burst.
  abbrev pub is_at_end : Target → ℕ → Flow S → Bool
  is_at_end g more s =
      not (more == 0)
      && (not (g.bytes_limit == 0) && leb g.bytes_limit s.bytes_sent
          || not (g.blocks_limit == 0) && leb g.blocks_limit s.blocks_sent)

  -- What a block that was sent changes: the number of bytes, and what is pending behind it.
  abbrev pub count_block : ℕ → ℕ → S → Flow S → Flow S
  count_block r pending app s = record s {
    bytes_sent = u64 (s.bytes_sent + r);
    blocks_sent = if pending == 0 then u64 (s.blocks_sent + 1) else s.blocks_sent;
    app = app;
  }

  module _ (done : Bool) (g : Target) (snd : S → NetResult × ℕ × S) (now : IperfTime) where
    abbrev pub throttled : Flow S → Flow S
    throttled s = if throttle_check_per_message g then iperf_check_throttle done g now s else s

    -- What follows the send function, by its result.
    abbrev pub after_send :
        Bool → Flow S → NetResult → S → (ℕ → Ended × Bool × Flow S) → Ended × Bool × Flow S
    after_send sent s (bytes k) app next = next k
    after_send sent s soft_error app next = (zero_result, sent, record s { app = app })
    after_send sent s hard_error app next = (stream_error hard_error, sent, record s { app = app })

    -- The loop, with what is left of the burst and whether a message was sent.
    unfoldable pub send_loop : ℕ → Bool → Flow S → Ended × Bool × Flow S
    send_loop zero sent s = (zero_result, sent, s)
    send_loop (suc more) sent s =
        let (r, pending, app) = snd s.app in
        let sent_on = λ (k : ℕ). send_loop more true (throttled (count_block k pending app s)) in
        if not s.green_light || is_at_end g more s
        then (zero_result, sent, s)
        else after_send sent s r app sent_on

    -- `later` is the clock behind the loop.
    abbrev pub finish_burst : IperfTime → Ended × Bool × Flow S → Ended × Flow S
    finish_burst later (stream_error r, sent, t) = (stream_error r, t)
    finish_burst later (zero_result, sent, t) = (
      zero_result,
      if not (throttle_check_per_message g) || not sent
          then iperf_check_throttle done g later t
          else t,
    )

    unfoldable pub iperf_send_mt : IperfTime → Flow S → Ended × Flow S
    iperf_send_mt later s = finish_burst later (send_loop (burst_size g) false s)

  unfoldable pub iperf_recv_mt : (S → NetResult × S) → Flow S → Ended × Flow S
  iperf_recv_mt rcv s = counted (rcv s.app)
    where
      counted : NetResult × S → Ended × Flow S
      counted (hard_error, app) = (stream_error hard_error, record s { app = app })
      counted (soft_error, app) = (stream_error soft_error, record s { app = app })
      counted (bytes zero, app) = (zero_result, record s { app = app })
      counted (bytes (suc r), app) = (
        zero_result,
        record s {
          bytes_received = u64 (s.bytes_received + suc r);
          blocks_received = u64 (s.blocks_received + 1);
          app = app;
        },
      )
