-- ===== src/Control/Session/Stages.antt =====
-- A session as an automaton: the stages that it passes, and what an action does to each.
mod Server
pub mod ClientSide
mod ServerSide
mod StreamSide
pub mod Fitting
pub mod Rank
pub mod Refines
use expo_iperf.Common.{
  ℕ, zero, suc, ◌+◌, ◌==◌, ◌≡◌, ◌≢◌, Bool, true, false, if◌then◌else◌, Option, none, some, List, [],
  ◌∷◌, ◌++◌,
}
use expo_iperf.State.{
  State, test_start, test_running, test_end, param_exchange, create_streams, exchange_results,
  display_results, iperf_done,
}
use expo_iperf.Args.{Mode, sender, receiver, bidirectional}
use expo_iperf.Control.{
  StreamInfo, Message, cookie, state_byte, parameters, results, ControlTest, Proc, ret,
  iperf_add_stream, mirrored,
}
use expo_iperf.Control.Client.{EndCounters, is_over, iperf_handle_message_client}
use expo_iperf.Control.Server.{Serving, serve}
use expo_iperf.Control.Session.{
  Outbox, drive, succeeds, feed, Session, on_control, on_listener, Action, client_reads,
  server_reads, client_accepted, stream_accepted, stranger, client_ticks, Setup, client_start,
  server_start, serving_start, session_start,
}
use expo_iperf.Control.Session.Drive.{client_list, stream_count, add_all}

-- The streams that the server receives on and those that it sends on.
abbrev pub to_receive : Mode → ℕ → ℕ
to_receive sender n = n
to_receive receiver n = 0
to_receive bidirectional n = n

abbrev pub to_send : Mode → ℕ → ℕ
to_send sender n = 0
to_send receiver n = n
to_send bidirectional n = n

-- The streams of the server, in the order in which it accepts them.
abbrev pub server_list : Setup → List StreamInfo
server_list u =
    add_all (to_send u.mode u.num_streams) true (add_all (to_receive u.mode u.num_streams) false [])

abbrev pub client_in : Setup → State → Bool → List StreamInfo → ControlTest
client_in u s over l = record (client_start u) {
  state = s;
  has_ctrl = true;
  done = over;
  streams = l;
}

abbrev pub server_in : Setup → State → Bool → List StreamInfo → ControlTest
server_in u s over l = record (server_start u) {
  state = s;
  mode = mirrored u.mode;
  num_streams = u.num_streams;
  rate = u.rate;
  has_ctrl = true;
  done = over;
  streams = l;
}

abbrev pub serving_in : Setup → ControlTest → ℕ → ℕ → Serving
serving_in u t a b = record {
  test = t;
  streams_to_send = to_send u.mode u.num_streams;
  streams_to_rec = to_receive u.mode u.num_streams;
  send_streams_accepted = b;
  rec_streams_accepted = a;
}

-- The server with all its streams.
abbrev pub server_full : Setup → State → Bool → Serving
server_full u s over =
    serving_in u (server_in u s over (server_list u)) (to_receive u.mode u.num_streams)
      (to_send u.mode u.num_streams)

abbrev pub client_full : Setup → State → Bool → ControlTest
client_full u s over = client_in u s over (client_list u.mode u.num_streams)

abbrev empty : Outbox
empty = record { messages = []; connects = 0 }

-- A side that waits in a handler.
abbrev pub waits : {A : Type 0} → Proc A → Proc A
waits p = (drive succeeds p empty).1

-- Where a session is. In `creating` the server has accepted `a` streams to receive on and `b` to
-- send on, and `r` and `q` are left.
pub data Stage : Type 0 where
  called accepted parameters_asked parameters_sent streams_asked : Stage
  creating : (a b r q : ℕ) → List StreamInfo → Stage
  started starting running ended results_asked results_sent results_back display_asked : Stage
  done_sent over : Stage

abbrev pub between : Setup → Proc ControlTest → Proc Serving → List Message → List Message → Session
between u c v to_client to_server = record {
  client_side = c;
  server_side = v;
  to_client = to_client;
  to_server = to_server;
  calling = false;
  waiting = 0;
}

-- The server behind `accept`, which waits for the cookie and then for the parameters.
abbrev pub cookie_awaited : Setup → Proc Serving
cookie_awaited u = waits (serve on_listener (serving_start u))

abbrev pub parameters_awaited : Setup → Proc Serving
parameters_awaited u = waits (feed cookie (cookie_awaited u))

abbrev pub server_results_awaited : Setup → Proc Serving
server_results_awaited u =
    waits (feed (state_byte test_end) (serve on_control (server_full u test_running false)))

abbrev pub client_results_awaited : Setup → Proc ControlTest
client_results_awaited u =
    waits (
      feed (state_byte exchange_results)
        (iperf_handle_message_client (client_full u test_end true)))

-- The session at a stage.
unfoldable pub session_at : Setup → Stage → Session
unfolding session_start drive
session_at u called = session_start u
session_at u accepted =
    between u (ret (client_in u (client_start u).state false [])) (cookie_awaited u) []
      (cookie ∷ [])
session_at u parameters_asked =
    between u (ret (client_in u (client_start u).state false [])) (parameters_awaited u)
      (state_byte param_exchange ∷ []) []
session_at u parameters_sent =
    between u (ret (client_in u param_exchange false [])) (parameters_awaited u) []
      (parameters u.mode u.num_streams u.rate ∷ [])
session_at u streams_asked =
    between u (ret (client_in u param_exchange false []))
      (ret (serving_in u (server_in u create_streams false []) 0 0))
      (state_byte create_streams ∷ []) []
session_at u (creating a b r q l) =
    record (between u (ret (client_full u create_streams false))
      (ret (serving_in u (server_in u create_streams false l) a b)) [] []) { waiting = r + q }
session_at u started =
    between u (ret (client_full u create_streams false)) (ret (server_full u test_running false))
      (state_byte test_start ∷ state_byte test_running ∷ []) []
session_at u starting =
    between u (ret (client_full u test_start false)) (ret (server_full u test_running false))
      (state_byte test_running ∷ []) []
session_at u running =
    between u (ret (client_full u test_running false)) (ret (server_full u test_running false)) []
      []
session_at u ended =
    between u (ret (client_full u test_end true)) (ret (server_full u test_running false)) []
      (state_byte test_end ∷ [])
session_at u results_asked =
    between u (ret (client_full u test_end true)) (server_results_awaited u)
      (state_byte exchange_results ∷ []) []
session_at u results_sent =
    between u (client_results_awaited u) (server_results_awaited u) [] (results ∷ [])
session_at u results_back =
    between u (client_results_awaited u) (ret (server_full u display_results true))
      (results ∷ state_byte display_results ∷ []) []
session_at u display_asked =
    between u (ret (client_full u exchange_results true)) (ret (server_full u display_results true))
      (state_byte display_results ∷ []) []
session_at u done_sent =
    between u (ret (client_full u iperf_done true)) (ret (server_full u display_results true)) []
      (state_byte iperf_done ∷ [])
session_at u over =
    between u (ret (client_full u iperf_done true)) (ret (server_full u iperf_done true)) [] []

-- The stage behind the acceptance of a stream: the first ones are received on.
abbrev pub after_stream : ℕ → ℕ → ℕ → ℕ → List StreamInfo → Stage
after_stream a b r q l = if r + q == 0 then started else creating a b r q l

-- The automaton. Somebody else who connects changes nothing.
unfoldable pub next : Setup → Action → Stage → Option Stage
next u client_accepted called = some accepted
next u server_reads accepted = some parameters_asked
next u client_reads parameters_asked = some parameters_sent
next u server_reads parameters_sent = some streams_asked
next u client_reads streams_asked =
    some (creating 0 0 (to_receive u.mode u.num_streams) (to_send u.mode u.num_streams) [])
next u stream_accepted (creating a b (suc r) q l) =
    some (after_stream (a + 1) b r q (iperf_add_stream false l))
next u stream_accepted (creating a b zero (suc q) l) =
    some (after_stream a (b + 1) 0 q (iperf_add_stream true l))
next u client_reads started = some starting
next u client_reads starting = some running
next u (client_ticks c) running =
    if is_over c (client_full u test_running false) then some ended else none
next u server_reads ended = some results_asked
next u client_reads results_asked = some results_sent
next u server_reads results_sent = some results_back
next u client_reads results_back = some display_asked
next u client_reads display_asked = some done_sent
next u server_reads done_sent = some over
next u stranger streams_asked = some streams_asked
next u stranger (creating a b r q l) = some (creating a b r q l)
next u stranger started = some started
next u stranger starting = some starting
next u stranger running = some running
next u stranger ended = some ended
next u stranger results_back = some results_back
next u stranger display_asked = some display_asked
next u stranger done_sent = some done_sent
next u _ _ = none
