-- ===== src/Streams/Burst.antt =====
-- What a burst of `iperf_send_mt` adds to the counters of the test.
use expo_iperf.Common.{
  ℕ, zero, suc, ◌+◌, ◌≤◌, ◌<◌, ◌≡◌, ◌≢◌, refl, sym, ap, ◌∙◌, Bool, true, false, not, ◌&&◌, ◌||◌,
  ◌==◌, if◌then◌else◌, leb, u64, arith, max, inl, inr, Bool-cases, if_both,
}
use expo_iperf.Clock.{IperfTime}
use expo_iperf.Double.{Doubles}
use expo_iperf.Net.{NetResult, bytes, soft_error, hard_error}
use expo_iperf.Streams.{
  Target, Flow, Ended, zero_result, stream_error, iperf_check_throttle, burst_size,
  throttle_check_per_message, is_at_end, count_block, throttled, send_loop, after_send,
  finish_burst, iperf_send_mt,
}

abbrev pub sent_bytes : NetResult → ℕ
sent_bytes (bytes k) = k
sent_bytes soft_error = 0
sent_bytes hard_error = 0

or_right : (a b : Bool) → (a || b) ≡ false → b ≡ false
or_right true b h = absurd (cc)
or_right false b h = h

module _ (D : Doubles) {S : Type 0} (stream_bytes : S → ℕ) (start : IperfTime) (done : Bool)
    (g : Target) (snd : S → NetResult × ℕ × S) where
  -- The throttle changes the light only.
  abbrev SameCounts : Flow S → Flow S → Type 0
  SameCounts s t = (t.bytes_sent ≡ s.bytes_sent) × (t.blocks_sent ≡ s.blocks_sent) × (t.app ≡ s.app)

  throttle-SameCounts :
      (now : IperfTime) (s : Flow S)
      → SameCounts s (iperf_check_throttle D stream_bytes start done g now s)
  unfolding iperf_check_throttle
  throttle-SameCounts now s =
      if_both (SameCounts s) (done || (g.rate == 0)) _ _ (λ _. (refl, refl, refl))
        (λ _. (refl, refl, refl))

  throttled-SameCounts :
      (now : IperfTime) (s : Flow S)
      → SameCounts s (throttled D stream_bytes start done g snd now s)
  throttled-SameCounts now s =
      if_both (SameCounts s) (throttle_check_per_message D stream_bytes start g)
        (iperf_check_throttle D stream_bytes start done g now s) s (λ _. throttle-SameCounts now s)
        (λ _. (refl, refl, refl))

  -- A statement about the counters before and behind the rest of a burst: every exit of the loop
  -- gives it if it holds where nothing more is sent, behind a failed block, and behind a block that
  -- was sent if it holds for the rest.
  module _ (Q : ℕ → Flow S → Flow S → Type 0) (same : (m : ℕ) (s : Flow S) → Q m s s)
      (failed : (m : ℕ) (s : Flow S)
        → sent_bytes ((snd s.app).0) ≡ 0
        → Q (suc m) s (record s { app = (snd s.app).2 }))
      (sends : (m k pending : ℕ) (app : S) (s t u : Flow S)
        → snd s.app ≡ (bytes k, pending, app)
        → is_at_end D stream_bytes start g m s ≡ false
        → SameCounts (count_block D stream_bytes start k pending app s) t
        → Q m t u
        → Q (suc m) s u)
      (later_on : (m : ℕ) (s t u : Flow S) → Q m s t → SameCounts t u → Q m s u) where
    send_loop_lem :
        (now : IperfTime) (m : ℕ) (sent : Bool) (s : Flow S)
        → Q m s ((send_loop D stream_bytes start done g snd now m sent s).2)
    unfolding send_loop
    send_loop_lem now zero sent s = same zero s
    send_loop_lem now (suc m) sent s =
        let (r, pending, app) = snd s.app in
        if_both (λ o. Q (suc m) s (o.2)) (not s.green_light || is_at_end D stream_bytes start g m s)
          (zero_result, sent, s)
          (after_send D stream_bytes start done g snd now sent s r app (λ k.
            send_loop D stream_bytes start done g snd now m true (
              throttled D stream_bytes start done g snd now
                (count_block D stream_bytes start k pending app s))))
          (λ _. same (suc m) s)
          (λ q.
            after (λ t. send_loop_lem now m true t) r pending app refl
              (or_right (not s.green_light) _ q))
      where
        after :
            ((t : Flow S) → Q m t ((send_loop D stream_bytes start done g snd now m true t).2))
            → (r : NetResult) (pending : ℕ) (app : S) → snd s.app ≡ (r, pending, app)
            → is_at_end D stream_bytes start g m s ≡ false
            → Q (suc m) s (
                (after_send D stream_bytes start done g snd now sent s r app (λ k.
                  send_loop D stream_bytes start done g snd now m true (
                    throttled D stream_bytes start done g snd now
                      (count_block D stream_bytes start k pending app s)))).2)
        after rest (bytes k) pending app e q =
            sends m k pending app s _ _ e q
              (throttled-SameCounts now (count_block D stream_bytes start k pending app s)) (rest _)
        after rest soft_error pending app e q =
            rw⁻¹ (ap (λ o. o.2) e) (failed m s (ap (λ o. sent_bytes (o.0)) e))
        after rest hard_error pending app e q =
            rw⁻¹ (ap (λ o. o.2) e) (failed m s (ap (λ o. sent_bytes (o.0)) e))

    pub send_mt_lem :
        (now later : IperfTime) (s : Flow S)
        → Q
            (burst_size D stream_bytes start g)
            s
            ((iperf_send_mt D stream_bytes start done g snd now later s).1)
    unfolding iperf_send_mt
    send_mt_lem now later s =
        finish_lem (send_loop D stream_bytes start done g snd now m false s)
          (send_loop_lem now m false s)
      where
        m : ℕ
        m = burst_size D stream_bytes start g

        finish_lem :
            (o : Ended × Bool × Flow S)
            → Q m s (o.2)
            → Q m s ((finish_burst D stream_bytes start done g snd now later o).1)
        finish_lem (stream_error r, sent, t) h = h
        finish_lem (zero_result, sent, t) h =
            if_both (λ u. Q m s u)
              (not (throttle_check_per_message D stream_bytes start g) || not sent)
              (iperf_check_throttle D stream_bytes start done g later t) t
              (λ _. later_on m s t _ h (throttle-SameCounts later t)) (λ _. h)

  -- Where the send function of the protocol counts the bytes that it reports, the test's `bytes_sent`
  -- grows in a burst, on every exit, by what the protocol counted (modulo 2 ^ 64).
  pub send_mt_conserves :
      (tally : S → ℕ)
      → ((a : S) → u64 (tally ((snd a).2)) ≡ u64 (tally a + sent_bytes ((snd a).0)))
      → (now later : IperfTime) (s : Flow S)
      → let t = (iperf_send_mt D stream_bytes start done g snd now later s).1 in
        u64 (t.bytes_sent + tally s.app) ≡ u64 (s.bytes_sent + tally t.app)
  send_mt_conserves tally counts =
      send_mt_lem (λ m s t. u64 (t.bytes_sent + tally s.app) ≡ u64 (s.bytes_sent + tally t.app))
        (λ m s. refl) (λ m s e. omega (arith, counts s.app, e)) sends
        (λ m s t u h c. later_on s t u h c)
    where
      sends :
          (m k pending : ℕ) (app : S) (s t u : Flow S)
          → snd s.app ≡ (bytes k, pending, app)
          → is_at_end D stream_bytes start g m s ≡ false
          → SameCounts (count_block D stream_bytes start k pending app s) t
          → u64 (u.bytes_sent + tally t.app) ≡ u64 (t.bytes_sent + tally u.app)
          → u64 (u.bytes_sent + tally s.app) ≡ u64 (s.bytes_sent + tally u.app)
      sends m k pending app s t u e q c h =
          let grown : u64 (tally app) ≡ u64 (tally s.app + k) =
            sym (ap (λ o. u64 (tally (o.2))) e)
            ∙ counts s.app
            ∙ ap (λ o. u64 (tally s.app + sent_bytes (o.0))) e in
          let moved : tally t.app ≡ tally app = ap tally (c.2) in
          omega (arith, c.0, moved, grown, h)

      later_on :
          (s t u : Flow S)
          → u64 (t.bytes_sent + tally s.app) ≡ u64 (s.bytes_sent + tally t.app)
          → SameCounts t u
          → u64 (u.bytes_sent + tally s.app) ≡ u64 (s.bytes_sent + tally u.app)
      later_on s t u h c = rw (c.0, c.2) h

  below_lem :
      (m limit n blocks k : ℕ)
      → (not (m == 0) && (not (limit == 0) && leb limit n || not (blocks == 0) && leb blocks k))
        ≡ false
      → m ≢ 0
      → limit ≢ 0
      → n < limit
  below_lem m limit n blocks k h p q = ground arith

  -- Where no block is larger than b bytes, a burst sends at most as many blocks as its size, and
  -- with a number of bytes as the end condition it ends at most two blocks above that number, or one
  -- above where it began.
  pub send_mt_bounds :
      (b : ℕ)
      → ((a : S) → sent_bytes ((snd a).0) ≤ b)
      → (now later : IperfTime) (s : Flow S)
      → let t = (iperf_send_mt D stream_bytes start done g snd now later s).1 in
        (t.blocks_sent ≤ s.blocks_sent + burst_size D stream_bytes start g)
        × (g.bytes_limit ≢ 0 → t.bytes_sent ≤ max s.bytes_sent (g.bytes_limit + b) + b)
  send_mt_bounds b small now later s =
      let (blocks, total) =
        send_mt_lem Q (λ m a. (omega arith, λ _. ground arith))
          (λ m a e. (omega arith, λ _. ground arith)) sends
          (λ m a t u h c. (omega (arith, c.1, h.0), λ l. ground (arith, c.0, h.1 l))) now later s in
      (blocks, λ l. ground (arith, total l))
    where
      Q : ℕ → Flow S → Flow S → Type 0
      Q m s t =
          (t.blocks_sent ≤ s.blocks_sent + m)
          × (g.bytes_limit ≢ 0
              → t.bytes_sent
                ≤ (if m == 0 then s.bytes_sent else max s.bytes_sent (g.bytes_limit + b) + b))

      sends :
          (m k pending : ℕ) (app : S) (s t u : Flow S)
          → snd s.app ≡ (bytes k, pending, app)
          → is_at_end D stream_bytes start g m s ≡ false
          → SameCounts (count_block D stream_bytes start k pending app s) t
          → Q m t u
          → Q (suc m) s u
      sends m k pending app s t u e q c h =
          let block : k ≤ b = rw⁻¹ (ap (λ o. sent_bytes (o.0)) e) (small s.app) in
          (ground (arith, c.1, h.0), λ l. total block l)
        where
          total_last :
              k ≤ b
              → u.bytes_sent ≤ t.bytes_sent
              → u.bytes_sent
                ≤ (if suc m == 0 then s.bytes_sent else max s.bytes_sent (g.bytes_limit + b) + b)
          total_last block le = ground (arith, c.0)

          total_more :
              k ≤ b
              → g.bytes_limit ≢ 0
              → (m == 0) ≡ false
              → u.bytes_sent ≤ max t.bytes_sent (g.bytes_limit + b) + b
              → u.bytes_sent
                ≤ (if suc m == 0 then s.bytes_sent else max s.bytes_sent (g.bytes_limit + b) + b)
          total_more block l n le =
              let below : s.bytes_sent < g.bytes_limit =
                below_lem m g.bytes_limit s.bytes_sent g.blocks_limit s.blocks_sent q
                  (λ z. ground arith) l in
              ground (arith, c.0)

          total :
              k ≤ b
              → g.bytes_limit ≢ 0
              → u.bytes_sent
                ≤ (if suc m == 0 then s.bytes_sent else max s.bytes_sent (g.bytes_limit + b) + b)
          total block l = elim (Bool-cases (m == 0)) [
            | inl z ↦ total_last block (rw (z) at h.1 l)
            | inr n ↦ total_more block l n (rw (n) at h.1 l)
          ]
