-- ===== src/Control/Session/Stages/ServerSide.antt =====
-- Every action of the server does to the session what the automaton says.
use expo_iperf.Common.{ℕ, ◌==◌, ◌≡◌, ◌≢◌, refl, Bool, true, false, ◌&&◌, some, [], ap, arith}
use expo_iperf.State.{create_streams}
use expo_iperf.Args.{Mode, sender, receiver, bidirectional}
use expo_iperf.Control.{
  Call, Proc, ret, iperf_exchange_parameters, iperf_set_send_state, get_parameters,
  iperf_exchange_results, get_results,
}
use expo_iperf.Control.Client.{iperf_connect, iperf_handle_message_client}
use expo_iperf.Control.Server.{
  Serving, serve, or_cleanup, serve_listener, iperf_accept, accept_client, read_cookie,
  iperf_handle_message_server, handle_state, end_test, serve_streams, start_if_complete,
  all_accepted,
}
use expo_iperf.Control.Session.{
  Outbox, drive, succeeds, Session, server_reads, client_accepted, perform, Setup, session_start,
  server_sent,
}
use expo_iperf.Control.Session.Drive.{drive-or_cleanup}
use expo_iperf.Control.Session.Stages.{
  to_receive, to_send, Stage, called, parameters_sent, streams_asked, session_at, next, serving_in,
  server_in,
}
use expo_iperf.Control.Session.Stages.Server.{drive_incomplete}
use expo_iperf.Control.Session.Stages.Fitting.{IsFine}
use expo_iperf.Control.Session.Stages.ClientSide.{Refines}

-- With no stream accepted, and some to come.
none_accepted : (m : Mode) (n : ℕ) → n ≢ 0 → (0 == to_receive m n && 0 == to_send m n) ≡ false
none_accepted sender n h = ground arith
none_accepted receiver n h = ground arith
none_accepted bidirectional n h = ground arith

-- A server that waits for streams is left as it is.
pub still_waiting :
    (answer : Call → Bool) (s : Session) (v : Serving) (o : Outbox)
    → all_accepted v ≡ false
    → some (server_sent s (drive answer (or_cleanup (start_if_complete v)) o))
      ≡ some (server_sent s (o, ret v))
still_waiting answer s v o e =
    ap (λ (r : Outbox × Proc Serving). some (server_sent s r))
      (drive-or_cleanup answer (start_if_complete v) o (drive_incomplete answer v o e))

abbrev pub asked : Setup → Serving
asked u = serving_in u (server_in u create_streams false []) 0 0

pub asked_lem :
    (answer : Call → Bool) (u : Setup)
    → IsFine u
    → some (
        server_sent (session_at u streams_asked) (
          drive answer
            (or_cleanup (start_if_complete (asked u)))
            (record { messages = (session_at u streams_asked).to_client; connects = 0 })))
      ≡ some (session_at u streams_asked)
unfolding session_at
asked_lem answer u f =
    still_waiting answer (session_at u streams_asked) (asked u) _
      (none_accepted u.mode u.num_streams f.some_stream)

parameters_lem :
    (u : Setup) (m : Mode) (has_affinity : Bool)
    → IsFine (record u { mode = m; has_affinity = has_affinity })
    → Refines (record u { mode = m; has_affinity = has_affinity }) server_reads parameters_sent
unfolding perform session_at next drive serve serve_listener iperf_accept accept_client read_cookie
    iperf_exchange_parameters get_parameters iperf_set_send_state serve_streams
parameters_lem u sender true f = asked_lem succeeds _ f
parameters_lem u sender false f = asked_lem succeeds _ f
parameters_lem u receiver true f = asked_lem succeeds _ f
parameters_lem u receiver false f = asked_lem succeeds _ f
parameters_lem u bidirectional true f = asked_lem succeeds _ f
parameters_lem u bidirectional false f = asked_lem succeeds _ f

pub server_reads-Refines : (u : Setup) → IsFine u → (σ : Stage) → Refines u server_reads σ
unfolding perform session_at session_start next drive iperf_connect serve serve_listener
    iperf_accept accept_client read_cookie iperf_handle_message_server handle_state end_test
    iperf_exchange_results get_results iperf_set_send_state iperf_handle_message_client
server_reads-Refines u f parameters_sent = parameters_lem u u.mode u.has_affinity f
server_reads-Refines u f σ = refl

pub client_accepted-Refines : (u : Setup) (σ : Stage) → Refines u client_accepted σ
unfolding perform session_at session_start next drive iperf_connect serve serve_listener
    iperf_accept accept_client read_cookie
client_accepted-Refines u called = refl
client_accepted-Refines u σ = refl
