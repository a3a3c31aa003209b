-- ===== src/Control/Session/Stages/Fitting.antt =====
-- The counts of a stage in which the server accepts streams, and that every action keeps them.
use expo_iperf.Common.{
  ℕ, zero, suc, ◌+◌, ◌==◌, ◌≡◌, ◌≢◌, refl, true, false, some, List, [], Ensures, if_both, arith,
}
use expo_iperf.State.{create_streams, test_running}
use expo_iperf.Args.{Mode, sender, receiver, bidirectional}
use expo_iperf.Control.{StreamInfo, iperf_add_stream}
use expo_iperf.Control.Client.{is_over}
use expo_iperf.Control.Server.{exceeds_limit}
use expo_iperf.Control.Session.{
  Action, client_reads, server_reads, client_accepted, stream_accepted, stranger, client_ticks,
  Setup,
}
use expo_iperf.Control.Session.Drive.{add_all}
use expo_iperf.Control.Session.Stages.{
  to_receive, to_send, server_list, server_in, client_full, Stage, called, streams_asked, creating,
  running, done_sent, after_stream, next,
}

-- There is a stream, and the rate is within the limit of the server.
pub record IsFine (u : Setup) : Type 0 where
  pub some_stream : u.num_streams ≢ 0
  pub within : exceeds_limit (server_in u create_streams false []) ≡ false

pub record Remaining (u : Setup) (a b r q : ℕ) (l : List StreamInfo) : Type 0 where
  pub all_received : a + r ≡ to_receive u.mode u.num_streams
  pub all_sent : b + q ≡ to_send u.mode u.num_streams
  pub complete : add_all q true (add_all r false l) ≡ server_list u

abbrev pub Fits : Setup → Stage → Type 0
Fits u (creating a b r q l) = Remaining u a b r q l × (r + q ≢ 0)
Fits u _ = Unit

some_left : (m : Mode) (n : ℕ) → n ≢ 0 → to_receive m n + to_send m n ≢ 0
some_left sender n h = omega arith
some_left receiver n h = omega arith
some_left bidirectional n h = omega arith

after-Fits :
    (u : Setup) (a b r q : ℕ) (l : List StreamInfo)
    → Remaining u a b r q l
    → Ensures (Fits u) (some (after_stream a b r q l))
after-Fits u a b r q l w = if_both (Fits u) (r + q == 0) _ _ (λ _. tt) (λ e. (w, ground arith))

pub received-Remaining :
    (u : Setup) (a b r q : ℕ) (l : List StreamInfo)
    → Remaining u a b (suc r) q l
    → Remaining u (a + 1) b r q (iperf_add_stream false l)
received-Remaining u a b r q l w = record {
  all_received = omega (arith, w.all_received);
  all_sent = w.all_sent;
  complete = w.complete;
}

pub sending-Remaining :
    (u : Setup) (a b q : ℕ) (l : List StreamInfo)
    → Remaining u a b 0 (suc q) l
    → Remaining u a (b + 1) 0 q (iperf_add_stream true l)
sending-Remaining u a b q l w = record {
  all_received = w.all_received;
  all_sent = omega (arith, w.all_sent);
  complete = w.complete;
}

pub next-Fits :
    (u : Setup) → IsFine u → (a : Action) (σ : Stage) → Fits u σ → Ensures (Fits u) (next u a σ)
unfolding next
next-Fits u f client_reads streams_asked h = (
  record { all_received = omega arith; all_sent = omega arith; complete = refl },
  some_left u.mode u.num_streams f.some_stream,
)
next-Fits u f server_reads done_sent h = tt
next-Fits u f client_accepted called h = tt
next-Fits u f stream_accepted (creating a b (suc r) q l) (w, _) =
    after-Fits u (a + 1) b r q (iperf_add_stream false l) (received-Remaining u a b r q l w)
next-Fits u f stream_accepted (creating a b zero (suc q) l) (w, _) =
    after-Fits u a (b + 1) 0 q (iperf_add_stream true l) (sending-Remaining u a b q l w)
next-Fits u f stream_accepted (creating a b zero zero l) h = tt
next-Fits u f stranger (creating a b r q l) h = h
next-Fits u f (client_ticks c) running h =
    if_both (Ensures (Fits u)) (is_over c (client_full u test_running false)) _ _ (λ _. tt)
      (λ _. tt)
next-Fits u f a σ h = tt
