-- ===== src/Control/Session/Stages/Rank.antt =====
-- How many actions a session still needs from a stage.
use expo_iperf.Common.{
  ℕ, zero, suc, ◌+◌, ◌==◌, ◌≡◌, ◌⊎◌, inl, inr, refl, true, false, some, List, Ensures, if_both,
  arith,
}
use expo_iperf.State.{test_running}
use expo_iperf.Control.{StreamInfo, iperf_add_stream}
use expo_iperf.Control.Client.{EndCounters, is_over}
use expo_iperf.Control.Session.{
  Action, client_reads, server_reads, client_accepted, stream_accepted, stranger, client_ticks,
  Setup,
}
use expo_iperf.Control.Session.Stages.{
  to_receive, to_send, client_full, Stage, called, accepted, parameters_asked, parameters_sent,
  streams_asked, creating, started, starting, running, ended, results_asked, results_sent,
  results_back, display_asked, done_sent, over, after_stream, next,
}
use expo_iperf.Control.Session.Stages.Fitting.{Fits}

abbrev pub rank : Setup → Stage → ℕ
rank u called = 14 + (to_receive u.mode u.num_streams + to_send u.mode u.num_streams)
rank u accepted = 13 + (to_receive u.mode u.num_streams + to_send u.mode u.num_streams)
rank u parameters_asked = 12 + (to_receive u.mode u.num_streams + to_send u.mode u.num_streams)
rank u parameters_sent = 11 + (to_receive u.mode u.num_streams + to_send u.mode u.num_streams)
rank u streams_asked = 10 + (to_receive u.mode u.num_streams + to_send u.mode u.num_streams)
rank u (creating a b r q l) = 9 + (r + q)
rank u started = 9
rank u starting = 8
rank u running = 7
rank u ended = 6
rank u results_asked = 5
rank u results_sent = 4
rank u results_back = 3
rank u display_asked = 2
rank u done_sent = 1
rank u over = 0

-- Somebody else who connects is no progress.
abbrev pub weight : Action → ℕ
weight stranger = 0
weight _ = 1

after-rank :
    (u : Setup) (a b r q : ℕ) (l : List StreamInfo)
    → Ensures (λ (τ : Stage). 1 + rank u τ ≡ 10 + (r + q)) (some (after_stream a b r q l))
after-rank u a b r q l =
    if_both (λ (τ : Stage). 1 + rank u τ ≡ 10 + (r + q)) (r + q == 0) _ _ (λ e. ground arith)
      (λ e. omega arith)

pub next-rank :
    (u : Setup) (a : Action) (σ : Stage)
    → Ensures (λ (τ : Stage). weight a + rank u τ ≡ rank u σ) (next u a σ)
unfolding next
next-rank u client_reads streams_asked = omega arith
next-rank u client_reads parameters_asked = omega arith
next-rank u server_reads parameters_sent = omega arith
next-rank u server_reads accepted = omega arith
next-rank u client_accepted called = omega arith
next-rank u stream_accepted (creating a b (suc r) q l) =
    omega (arith, after-rank u (a + 1) b r q (iperf_add_stream false l))
next-rank u stream_accepted (creating a b zero (suc q) l) =
    omega (arith, after-rank u a (b + 1) 0 q (iperf_add_stream true l))
next-rank u stream_accepted (creating a b zero zero l) = tt
next-rank u (client_ticks c) running =
    if_both (Ensures (λ (τ : Stage). 1 + rank u τ ≡ 7))
      (is_over c (client_full u test_running false)) _ _ (λ _. refl) (λ _. tt)
next-rank u stranger (creating a b r q l) = omega arith
next-rank u a σ = ground arith

-- EndCounters that end a test.
abbrev enough : EndCounters
enough = record {
  omitting = false;
  bytes = 1;
  blocks = 0;
  bytes_sent = 1;
  bytes_received = 0;
  blocks_sent = 0;
  blocks_received = 0;
}

abbrev pub Advances : Setup → Stage → Type 0
Advances u σ = (a : Action) × (τ : Stage) × (next u a σ ≡ some τ) × (weight a ≡ 1)

pub next_possible : (u : Setup) (σ : Stage) → Fits u σ → (σ ≡ over) ⊎ Advances u σ
unfolding next
next_possible u called h = inr (client_accepted, _, refl, refl)
next_possible u accepted h = inr (server_reads, _, refl, refl)
next_possible u parameters_asked h = inr (client_reads, _, refl, refl)
next_possible u parameters_sent h = inr (server_reads, _, refl, refl)
next_possible u streams_asked h = inr (client_reads, _, refl, refl)
next_possible u (creating a b (suc r) q l) h = inr (stream_accepted, _, refl, refl)
next_possible u (creating a b zero (suc q) l) h = inr (stream_accepted, _, refl, refl)
next_possible u (creating a b zero zero l) (w, k) = absurd (k refl)
next_possible u started h = inr (client_reads, _, refl, refl)
next_possible u starting h = inr (client_reads, _, refl, refl)
next_possible u running h = inr (client_ticks enough, _, refl, refl)
next_possible u ended h = inr (server_reads, _, refl, refl)
next_possible u results_asked h = inr (client_reads, _, refl, refl)
next_possible u results_sent h = inr (server_reads, _, refl, refl)
next_possible u results_back h = inr (client_reads, _, refl, refl)
next_possible u display_asked h = inr (client_reads, _, refl, refl)
next_possible u done_sent h = inr (server_reads, _, refl, refl)
next_possible u over h = inl refl
