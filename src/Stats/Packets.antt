-- ===== src/Stats/Packets.antt =====
-- The packets of the intervals of a UDP stream are the packets of the stream.
use expo_iperf.Common.{
  ℕ, ◌+◌, ◌^◌, ◌<◌, ◌≡◌, ◌∙◌, sym, ap, arith, true, false, Option, none, some, List, [], ◌∷◌, ◌++◌,
  u64, All,
}
use expo_iperf.Stats.{
  Interval, Stream, of_udp, of_tcp, last_interval, stats_round, count_received, count_sent,
  plain_interval, udp_interval, since,
}
use expo_iperf.Stats.Intervals.{Event, came, went, counted, ends, step, run, last-add}

abbrev pub total_packets : List Interval → ℕ
total_packets [] = 0
total_packets (i ∷ l) = i.interval_packet_count + total_packets l

abbrev pub packets_of : Option Interval → ℕ
packets_of none = 0
packets_of (some i) = i.packet_count

-- The packets up to the end of the last interval.
abbrev pub reported : Stream → ℕ
reported s = packets_of (last_interval s.result.interval_results)

-- An event of a UDP stream, whose counter fits in 64 bits.
abbrev pub IsUdp : Event → Type 0
IsUdp (counted n) = n < 2 ^ 64
IsUdp (ends omitting now (of_tcp t)) = ⊥
IsUdp _ = Unit

abbrev pub Fits : Stream → Type 0
Fits s = (reported s < 2 ^ 64) × (s.packet_count < 2 ^ 64)

since_lem :
    (o : Option Interval) (n : ℕ)
    → packets_of o < 2 ^ 64
    → u64 (since (λ (j : Interval). j.packet_count) o n + 0 + packets_of o) ≡ u64 n
since_lem none n h = omega arith
since_lem (some i) n h = omega arith

packets_step :
    (e : Event) (s : Stream)
    → IsUdp e
    → Fits s
    → (u64 (total_packets (step e s).0 + reported s) ≡ u64 (reported (step e s).1))
      × Fits (step e s).1
unfolding step stats_round count_received count_sent
packets_step (came true n) s h fits = (omega arith, fits)
packets_step (came false n) s h fits = (omega arith, fits)
packets_step (went n) s h fits = (omega arith, fits)
packets_step (counted n) s h (f, g) = (omega arith, (f, h))
packets_step (ends omitting now of_udp) s h (f, g) =
    let last =
      last-add (udp_interval s (plain_interval omitting now s)) s.result.interval_results in
    let now_reported = ap packets_of last in
    (
      since_lem (last_interval s.result.interval_results) s.packet_count f
          ∙ ap (λ (n : ℕ). u64 n) (sym now_reported),
      (omega (arith, now_reported, g), g),
    )
packets_step (ends omitting now (of_tcp t)) s h fits = absurd h

packets-append : (a b : List Interval) → total_packets (a ++ b) ≡ total_packets a + total_packets b
packets-append [] b = omega arith
packets-append (i ∷ a) b = omega (arith, packets-append a b)

-- For a UDP stream whose counters fit in 64 bits, the packets of the intervals are the packets up
-- to the end of the last one, modulo 2 ^ 64.
pub packets_lem :
    (l : List Event) (s : Stream)
    → All IsUdp l
    → Fits s
    → u64 (total_packets (run l s).0 + reported s) ≡ u64 (reported (run l s).1)
unfolding run
packets_lem [] s h f = omega arith
packets_lem (e ∷ l) s (h, hs) f =
    let (now, fits) = packets_step e s h f in
    omega (
      arith,
      now,
      packets_lem l (step e s).1 hs fits,
      packets-append (step e s).0 (run l (step e s).1).0,
    )
