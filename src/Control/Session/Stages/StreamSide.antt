-- ===== src/Control/Session/Stages/StreamSide.antt =====
-- The server accepts a stream, or somebody else, as the automaton says.
use expo_iperf.Common.{
  ℕ, zero, suc, ◌+◌, ◌==◌, ◌≡◌, refl, Bool, true, false, not, some, List, [], ◌∙◌, ap, arith,
  if◌then◌else◌, if_both, ==_iff,
}
use expo_iperf.State.{test_running, create_streams, display_results}
use expo_iperf.Args.{Mode, sender, receiver, bidirectional}
use expo_iperf.Control.{Call, Proc, ret, iperf_add_stream, StreamInfo}
use expo_iperf.Control.Client.{iperf_connect, iperf_handle_message_client}
use expo_iperf.Control.Server.{
  Serving, serve, or_cleanup, serve_listener, iperf_accept, serve_streams,
  iperf_handle_message_server, accept_stream, assign_stream, start_if_complete, all_accepted,
}
use expo_iperf.Control.Session.{
  Outbox, drive, succeeds, is_stranger, on_listener, on_stream, Session, stream_accepted, stranger,
  perform, Setup, session_start, server_sent, run_server, accept_waiting,
}
use expo_iperf.Control.Session.Drive.{drive-bind, drive-or_cleanup, announced, add_all}
use expo_iperf.Control.Session.Stages.{
  to_receive, to_send, server_list, Stage, streams_asked, creating, started, starting, running,
  ended, results_back, display_asked, done_sent, session_at, next, server_full, serving_in,
  server_in, after_stream,
}
use expo_iperf.Control.Session.Stages.Server.{
  drive_incomplete, drive_complete, drive-received, drive-sending,
}
use expo_iperf.Control.Session.Stages.Fitting.{
  IsFine, Remaining, Fits, received-Remaining, sending-Remaining,
}
use expo_iperf.Control.Session.Stages.ClientSide.{Refines}
use expo_iperf.Control.Session.Stages.ServerSide.{still_waiting, asked_lem}

-- A client that the server does not serve is denied.
denied :
    (m : Mode) (u : Setup) (s : Bool) (o : Outbox)
    → let v =
        server_full (record u { mode = m }) (if s then test_running else display_results) (not s) in
      drive succeeds (serve on_listener v) o ≡ (o, ret v)
unfolding drive serve serve_listener iperf_accept
denied sender u true o = refl
denied sender u false o = refl
denied receiver u true o = refl
denied receiver u false o = refl
denied bidirectional u true o = refl
denied bidirectional u false o = refl

denied_lem :
    (u : Setup) (s : Bool) (w : Session) (o : Outbox)
    → let v = server_full u (if s then test_running else display_results) (not s) in
      some (server_sent w (drive succeeds (serve on_listener v) o))
      ≡ some (server_sent w (o, ret v))
denied_lem u s w o =
    ap (λ (r : Outbox × Proc Serving). some (server_sent w r)) (denied u.mode u s o)

incomplete_lem :
    (u : Setup) (a b r q : ℕ) (l : List StreamInfo)
    → Remaining u a b r q l
    → (r + q == 0) ≡ false
    → all_accepted (serving_in u (server_in u create_streams false l) a b) ≡ false
incomplete_lem u a b r q l w e = ground (arith, w.all_received, w.all_sent)

abbrev accepting : Setup → ℕ → ℕ → List StreamInfo → Serving
accepting u a b l = serving_in u (server_in u create_streams false l) a b

-- The connection comes in by the listener, which is left to `protocol->accept`.
stream_serve :
    (answer : Call → Bool) (u : Setup) (a b : ℕ) (l : List StreamInfo) (s : Session)
    → some (run_server answer (serve on_stream (accepting u a b l)) s)
      ≡ some (run_server answer (or_cleanup (serve_streams true (accepting u a b l))) s)
unfolding serve
stream_serve answer u a b l s = refl

pub stranger-Refines : (u : Setup) → IsFine u → (σ : Stage) → Fits u σ → Refines u stranger σ
unfolding perform session_at session_start next drive iperf_connect serve_streams accept_stream
    serve serve_listener iperf_accept iperf_handle_message_server
stranger-Refines u f streams_asked h =
    stream_serve is_stranger u 0 0 [] (session_at u streams_asked) ∙ asked_lem is_stranger u f
stranger-Refines u f (creating a b r q l) (w, k) =
    let s = session_at u (creating a b r q l) in
    stream_serve is_stranger u a b l s
    ∙ still_waiting is_stranger s (accepting u a b l) _
        (incomplete_lem u a b r q l w (ground arith))
stranger-Refines u f started h = denied_lem u true (session_at u started) _
stranger-Refines u f starting h = denied_lem u true (session_at u starting) _
stranger-Refines u f running h = denied_lem u true (session_at u running) _
stranger-Refines u f ended h = denied_lem u true (session_at u ended) _
stranger-Refines u f results_back h = denied_lem u false (session_at u results_back) _
stranger-Refines u f display_asked h = denied_lem u false (session_at u display_asked) _
stranger-Refines u f done_sent h = denied_lem u false (session_at u done_sent) _
stranger-Refines u f σ h = refl

-- A stream that is accepted and assigned, and what follows.
accept_lem :
    (v : Serving) (o : Outbox) {v' v'' : Serving} {o' : Outbox}
    → drive succeeds (assign_stream v) o ≡ (o, ret v')
    → drive succeeds (start_if_complete v') o ≡ (o', ret v'')
    → drive succeeds (or_cleanup (serve_streams true v)) o ≡ (o', ret v'')
unfolding drive serve_streams accept_stream
accept_lem v o e f =
    drive-or_cleanup succeeds (serve_streams true v) o
      (drive-bind succeeds (accept_stream v) start_if_complete o e ∙ f)

list_lem :
    (r q : ℕ) (l full : List StreamInfo)
    → r + q ≡ 0
    → add_all q true (add_all r false l) ≡ full
    → l ≡ full
list_lem zero zero l full k e = e
list_lem (suc r) q l full k e = absurd (omega arith)
list_lem zero (suc q) l full k e = absurd (omega arith)

-- With the last stream the test starts.
last_lem :
    (u : Setup) (a b r q : ℕ) (l : List StreamInfo) (v : Serving)
    → IsFine u
    → Remaining u a b r q l
    → r + q ≡ 0
    → drive succeeds (assign_stream v) (record { messages = []; connects = 0 })
      ≡ (record { messages = []; connects = 0 }, ret (accepting u a b l))
    → drive succeeds (or_cleanup (serve_streams true v)) (record { messages = []; connects = 0 })
      ≡ (announced (record { messages = []; connects = 0 }), ret (server_full u test_running false))
last_lem u a b r q l v f w k e =
    let full : l ≡ server_list u = list_lem r q l (server_list u) k w.complete in
    let received_all : a ≡ to_receive u.mode u.num_streams = omega (arith, w.all_received) in
    let sent_all : b ≡ to_send u.mode u.num_streams = omega (arith, w.all_sent) in
    accept_lem v _ e (drive_complete (accepting u a b l) _ (ground arith) f.within refl) ∙ cc

-- The stage behind a stream.
settled :
    (u : Setup) (a b r q : ℕ) (l : List StreamInfo) (v : Serving)
    → IsFine u
    → Remaining u a b r q l
    → drive succeeds (assign_stream v) (record { messages = []; connects = 0 })
      ≡ (record { messages = []; connects = 0 }, ret (accepting u a b l))
    → some (
        run_server succeeds (or_cleanup (serve_streams true v)) (session_at u (creating a b r q l)))
      ≡ some (session_at u (after_stream a b r q l))
unfolding session_at
settled u a b r q l v f w e =
    let s = session_at u (creating a b r q l) in
    if_both
      (λ (σ : Stage).
        some (run_server succeeds (or_cleanup (serve_streams true v)) s) ≡ some (session_at u σ))
      (r + q == 0) _ _
      (λ k.
        let none_left : r + q ≡ 0 = (==_iff (r + q) 0).0 k in
        ap (λ (o : Outbox × Proc Serving). some (server_sent s o))
          (last_lem u a b r q l v f w none_left e)
        ∙ ap (λ (n : ℕ). some (record (session_at u started) { waiting = n })) none_left)
      (λ k.
        ap (λ (o : Outbox × Proc Serving). some (server_sent s o))
          (accept_lem v _ e
            (drive_incomplete succeeds (accepting u a b l) _ (incomplete_lem u a b r q l w k))))

pub stream_accepted-Refines :
    (u : Setup) → IsFine u → (σ : Stage) → Fits u σ → Refines u stream_accepted σ
unfolding perform session_at session_start next drive iperf_connect serve serve_listener
    iperf_accept iperf_handle_message_server iperf_handle_message_client
stream_accepted-Refines u f (creating a b (suc r) q l) (w, k) =
    let s = session_at u (creating a b r q l) in
    ap (λ (n : ℕ). accept_waiting s n s.server_side) {y = suc (r + q)} (omega arith)
    ∙ stream_serve succeeds u a b l s
    ∙ settled u (a + 1) b r q (iperf_add_stream false l) (accepting u a b l) f
        (received-Remaining u a b r q l w)
        (drive-received (accepting u a b l) _ (ground (arith, w.all_received)))
stream_accepted-Refines u f (creating a b zero (suc q) l) (w, k) =
    let s = session_at u (creating a b zero q l) in
    ap (λ (n : ℕ). accept_waiting s n s.server_side) {y = suc (0 + q)} (omega arith)
    ∙ stream_serve succeeds u a b l s
    ∙ settled u a (b + 1) 0 q (iperf_add_stream true l) (accepting u a b l) f
        (sending-Remaining u a b q l w)
        (drive-sending (accepting u a b l) _ (ground (arith, w.all_received))
          (ground (arith, w.all_sent)))
stream_accepted-Refines u f (creating a b zero zero l) (w, k) = refl
stream_accepted-Refines u f σ h = refl
