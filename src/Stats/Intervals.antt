-- ===== src/Stats/Intervals.antt =====
-- The intervals of a stream account for all that the stream counts.
use expo_iperf.Common.{
  ℕ, ◌+◌, ◌≡◌, refl, sym, ap, subst, arith, Bool, true, false, if◌then◌else◌, Option, none, some,
  List, [], ◌∷◌, ◌++◌, u64,
}
use expo_iperf.Clock.{IperfTime}
use expo_iperf.Stats.{
  Interval, StreamResult, Stream, Figures, of_udp, of_tcp, count_received, count_sent,
  last_interval, add_to_interval_list, start_of, stats_round, plain_interval, interval_of,
}

-- What happens to a stream: bytes come in, in the state TEST_RUNNING or in another, or go out; the
-- packets so far are counted; an interval ends.
pub data Event : Type 0 where
  came : Bool → ℕ → Event
  went : ℕ → Event
  counted : ℕ → Event
  ends : Bool → IperfTime → Figures → Event

abbrev pub with_result : (StreamResult → StreamResult) → Stream → Stream
with_result f s = record s { result = f s.result }

-- The stream behind the event, and the interval that ends with it.
unfoldable pub step : Event → Stream → List Interval × Stream
step (came running n) s = ([], with_result (count_received running n) s)
step (went n) s = ([], with_result (count_sent n) s)
step (counted n) s = ([], record s { packet_count = n })
step (ends omitting now f) s = let (i, s') = stats_round omitting now f s in (i ∷ [], s')

unfoldable pub run : List Event → Stream → List Interval × Stream
run [] s = ([], s)
run (e ∷ l) s = let (first, s') = step e s in let (rest, t) = run l s' in (first ++ rest, t)

-- The bytes that the event moves in the direction that the stream reports.
abbrev pub moved : Bool → Event → ℕ
moved sends (came running n) = if sends then 0 else if running then n else 0
moved sends (went n) = if sends then n else 0
moved sends _ = 0

abbrev pub total_moved : Bool → List Event → ℕ
total_moved sends [] = 0
total_moved sends (e ∷ l) = moved sends e + total_moved sends l

abbrev pub total_bytes : List Interval → ℕ
total_bytes [] = 0
total_bytes (i ∷ l) = i.bytes_transferred + total_bytes l

-- The bytes that are in no interval yet.
abbrev pub this_interval : Stream → ℕ
this_interval s =
    if s.sender then s.result.bytes_sent_this_interval else s.result.bytes_received_this_interval

-- When the next interval starts.
abbrev pub next_start : Stream → IperfTime
next_start s = start_of (last_interval s.result.interval_results) s.result

-- Intervals one behind the other, from one instant to another.
abbrev pub Chain : IperfTime → List Interval → IperfTime → Type 0
Chain t [] t' = t ≡ t'
Chain t (i ∷ l) t' = (i.interval_start_time ≡ t) × Chain i.interval_end_time l t'

pub last-add :
    (new : Interval) (l : List Interval) → last_interval (add_to_interval_list new l) ≡ some new
unfolding add_to_interval_list
last-add new [] = refl
last-add new (i ∷ []) = refl
last-add new (i ∷ j ∷ []) = refl
last-add new (i ∷ j ∷ k ∷ l) = last-add new (j ∷ k ∷ l)

bytes_step :
    (e : Event) (s : Stream)
    → u64 (total_bytes (step e s).0 + this_interval (step e s).1)
      ≡ u64 (this_interval s + moved s.sender e)
unfolding step stats_round count_received count_sent
bytes_step (came running n) s = ground arith
bytes_step (went n) s = ground arith
bytes_step (counted n) s = ground arith
bytes_step (ends omitting now of_udp) s = ground arith
bytes_step (ends omitting now (of_tcp none)) s = ground arith
bytes_step (ends omitting now (of_tcp (some t))) s = ground arith

sender-step : (e : Event) (s : Stream) → (step e s).1.sender ≡ s.sender
unfolding step stats_round
sender-step (came running n) s = refl
sender-step (went n) s = refl
sender-step (counted n) s = refl
sender-step (ends omitting now f) s = refl

total-append : (a b : List Interval) → total_bytes (a ++ b) ≡ total_bytes a + total_bytes b
total-append [] b = omega arith
total-append (i ∷ a) b = omega (arith, total-append a b)

run_bytes :
    (l : List Event) (s : Stream)
    → u64 (total_bytes (run l s).0 + this_interval (run l s).1)
      ≡ u64 (this_interval s + total_moved s.sender l)
unfolding run
run_bytes [] s = omega arith
run_bytes (e ∷ l) s =
    let t = (step e s).1 in
    let same : total_moved t.sender l ≡ total_moved s.sender l =
      ap (λ (b : Bool). total_moved b l) (sender-step e s) in
    omega (arith, run_bytes l t, bytes_step e s, total-append (step e s).0 (run l t).0, same)

start_of-received :
    (o : Option Interval) (b : Bool) (n : ℕ) (rp : StreamResult)
    → start_of o rp ≡ start_of o (count_received b n rp)
unfolding count_received
start_of-received none true n rp = refl
start_of-received none false n rp = refl
start_of-received (some i) true n rp = refl
start_of-received (some i) false n rp = refl

start_of-sent :
    (o : Option Interval) (n : ℕ) (rp : StreamResult) → start_of o rp ≡ start_of o (count_sent n rp)
unfolding count_sent
start_of-sent none n rp = refl
start_of-sent (some i) n rp = refl

-- An interval that is added is where the next one starts.
next_start-ends :
    (new : Interval) (l : List Interval) (rp : StreamResult)
    → rp.end_time ≡ start_of (last_interval (add_to_interval_list new l)) rp
next_start-ends new l rp = ap (λ (o : Option Interval). start_of o rp) (sym (last-add new l))

step-Chain : (e : Event) (s : Stream) → Chain (next_start s) (step e s).0 (next_start (step e s).1)
unfolding step stats_round count_received count_sent
step-Chain (came true n) s =
    start_of-received (last_interval s.result.interval_results) true n s.result
step-Chain (came false n) s = refl
step-Chain (went n) s = start_of-sent (last_interval s.result.interval_results) n s.result
step-Chain (counted n) s = refl
step-Chain (ends omitting now of_udp) s = (
  refl,
  next_start-ends (interval_of of_udp s (plain_interval omitting now s)) s.result.interval_results
      (stats_round omitting now of_udp s).1.result,
)
step-Chain (ends omitting now (of_tcp none)) s = (
  refl,
  next_start-ends (interval_of (of_tcp none) s (plain_interval omitting now s))
      s.result.interval_results (stats_round omitting now (of_tcp none) s).1.result,
)
step-Chain (ends omitting now (of_tcp (some t))) s = (
  refl,
  next_start-ends (interval_of (of_tcp (some t)) s (plain_interval omitting now s))
      s.result.interval_results (stats_round omitting now (of_tcp (some t)) s).1.result,
)

Chain-append :
    (a b : List Interval) (t m t' : IperfTime) → Chain t a m → Chain m b t' → Chain t (a ++ b) t'
Chain-append [] b t m t' h k = subst (λ (x : IperfTime). Chain x b t') (sym h) k
Chain-append (i ∷ a) b t m t' (e, h) k = (e, Chain-append a b i.interval_end_time m t' h k)

run-Chain :
    (l : List Event) (s : Stream) → Chain (next_start s) (run l s).0 (next_start (run l s).1)
unfolding run
run-Chain [] s = refl
run-Chain (e ∷ l) s =
    Chain-append (step e s).0 (run l (step e s).1).0 (next_start s) (next_start (step e s).1)
      (next_start (run l (step e s).1).1) (step-Chain e s) (run-Chain l (step e s).1)

-- Whatever bytes come and go, and whenever intervals end, where no byte is counted while an
-- interval is closed: the bytes of the intervals with those that are in none yet are those that
-- were counted, modulo 2 ^ 64; and each interval starts where the one before it ended.
pub intervals_lem :
    (l : List Event) (s : Stream)
    → let (intervals, t) = run l s in
      (u64 (total_bytes intervals + this_interval t)
        ≡ u64 (this_interval s + total_moved s.sender l))
      × Chain (next_start s) intervals (next_start t)
intervals_lem l s = (run_bytes l s, run-Chain l s)
