-- ===== src/Control/Session.antt =====
-- A client and a server with one control connection between them. A side runs up to its next read;
-- what it writes waits in the connection until the other side reads it, and a stream that it
-- connects waits until the server accepts it. All calls succeed, and the test is one of TCP, whose
-- connections wait in the queue of the listener; with UDP a client waits for the server's reply.
pub mod Drive
pub mod Stages
pub mod Opposite
pub mod Outcome
use expo_iperf.Common.{
  ℕ, suc, Bool, true, false, not, ◌&&◌, ◌||◌, if◌then◌else◌, Option, none, some, List, [], ◌∷◌,
  ◌++◌,
}
use expo_iperf.State.{is_running, iperf_start, unknown}
use expo_iperf.Args.{Mode, receiver, client, server}
use expo_iperf.Control.{
  Message, got, Call, nwrite, protocol_connect, stream_is_open, ControlTest, Proc, ret, fail, call,
  read, is_done, is_creating,
}
use expo_iperf.Control.Client.{
  EndCounters, is_over, iperf_connect, iperf_handle_message_client, finish_if_over,
}
use expo_iperf.Control.Server.{Serving, Ready, serve}

-- What a side has sent: messages and connections of streams.
pub record Outbox : Type 0 where
  pub messages : List Message
  pub connects : ℕ

abbrev pub note : Call → Outbox → Outbox
note (nwrite m) o = record o { messages = o.messages ++ (m ∷ []) }
note (protocol_connect p) o = record o { connects = suc o.connects }
note _ o = o

-- A side runs until it reads or ends.
unfoldable pub drive : {A : Type 0} → (Call → Bool) → Proc A → Outbox → Outbox × Proc A
drive answer (ret a) o = (o, ret a)
drive answer (fail t) o = (o, fail t)
drive answer (call c k) o = drive answer (k (answer c)) (note c o)
drive answer (read k) o = (o, read k)

abbrev pub succeeds : Call → Bool
succeeds c = true

-- The cookie of a stream is not that of the test, and `protocol->accept` has closed it.
abbrev pub is_stranger : Call → Bool
is_stranger stream_is_open = false
is_stranger _ = true

abbrev pub feed : {A : Type 0} → Message → Proc A → Proc A
feed m (read k) = k (got m)
feed m p = p

pub record Session : Type 0 where
  pub client_side : Proc ControlTest
  pub server_side : Proc Serving
  pub to_client : List Message
  pub to_server : List Message
  pub calling : Bool  -- the client has connected and is not accepted yet
  pub waiting : ℕ  -- streams that are not accepted yet

abbrev pub client_sent : Session → Outbox × Proc ControlTest → Session
client_sent s (o, p) = record s { client_side = p; to_server = o.messages; waiting = o.connects }

abbrev pub run_client : Proc ControlTest → Session → Session
run_client p s =
    client_sent s (drive succeeds p (record { messages = s.to_server; connects = s.waiting }))

abbrev pub server_sent : Session → Outbox × Proc Serving → Session
server_sent s (o, p) = record s { server_side = p; to_client = o.messages }

abbrev pub run_server : (Call → Bool) → Proc Serving → Session → Session
run_server answer p s =
    server_sent s (drive answer p (record { messages = s.to_client; connects = 0 }))

-- What can happen next.
pub data Action : Type 0 where
  client_reads server_reads client_accepted stream_accepted stranger : Action
  client_ticks : EndCounters → Action

-- The side that a message reaches: in its loop it handles it, unless the loop has ended, and in a
-- handler that waits it goes on.
abbrev pub client_receives : Message → Proc ControlTest → Option (Proc ControlTest)
client_receives m (ret t) =
    if is_done t.state then none else some (feed m (iperf_handle_message_client t))
client_receives m (read k) = some (k (got m))
client_receives m _ = none

abbrev pub on_control : Ready
on_control = record { listener = false; control = true; prot_listener = false }

abbrev pub server_receives : Message → Proc Serving → Option (Proc Serving)
server_receives m (ret v) =
    if is_done v.test.state || not v.test.has_ctrl then none else some (feed m (serve on_control v))
server_receives m (read k) = some (k (got m))
server_receives m _ = none

abbrev pub on_listener : Ready
on_listener = record { listener = true; control = false; prot_listener = false }

-- With TCP the streams come in by the listener.
abbrev pub on_stream : Ready
on_stream = record { listener = true; control = false; prot_listener = true }

abbrev pub perform_client : Session → Option (Proc ControlTest) → Option Session
perform_client s none = none
perform_client s (some p) = some (run_client p s)

abbrev pub perform_server : Session → Option (Proc Serving) → Option Session
perform_server s none = none
perform_server s (some p) = some (run_server succeeds p s)

abbrev pub client_read : Session → List Message → Option Session
client_read s [] = none
client_read s (m ∷ rest) =
    perform_client (record s { to_client = rest }) (client_receives m s.client_side)

abbrev pub server_read : Session → List Message → Option Session
server_read s [] = none
server_read s (m ∷ rest) =
    perform_server (record s { to_server = rest }) (server_receives m s.server_side)

abbrev pub accept_call : Session → Bool → Proc Serving → Option Session
accept_call s true (ret v) =
    if is_done v.test.state || is_creating v.test.state
    then none
    else some (run_server succeeds (serve on_listener v) (record s { calling = false }))
accept_call s _ _ = none

abbrev pub accept_waiting : Session → ℕ → Proc Serving → Option Session
accept_waiting s (suc w) (ret v) =
    if is_creating v.test.state
    then some (run_server succeeds (serve on_stream v) (record s { waiting = w }))
    else none
accept_waiting s _ _ = none

-- Somebody else connects by TCP to the server, which has its client.
abbrev pub accept_stranger : Session → Proc Serving → Option Session
accept_stranger s (ret v) =
    if is_done v.test.state || not v.test.has_ctrl
    then none
    else if is_creating v.test.state
    then some (run_server is_stranger (serve on_stream v) s)
    else some (run_server succeeds (serve on_listener v) s)
accept_stranger s _ = none

abbrev pub tick : EndCounters → Session → Proc ControlTest → Option Session
tick c s (ret t) =
    if is_running t.state && is_over c t then some (run_client (finish_if_over c t) s) else none
tick c s _ = none

-- The session behind an action, if the action is possible.
unfoldable pub perform : Action → Session → Option Session
perform client_reads s = client_read s s.to_client
perform server_reads s = server_read s s.to_server
perform client_accepted s = accept_call s s.calling s.server_side
perform stream_accepted s = accept_waiting s s.waiting s.server_side
perform stranger s = accept_stranger s s.server_side
perform (client_ticks c) s = tick c s s.client_side

abbrev pub and_then : (Session → Option Session) → Option Session → Option Session
and_then f none = none
and_then f (some s) = f s

-- The actions in turn.
unfoldable pub perform_all : List Action → Session → Option Session
perform_all [] s = some s
perform_all (a ∷ rest) s = and_then (perform_all rest) (perform a s)

-- What the command lines of the two sides set.
pub record Setup : Type 0 where
  pub mode : Mode
  pub num_streams : ℕ
  pub rate : ℕ
  pub bind_port : ℕ
  pub relisten : Bool
  pub has_affinity : Bool
  pub bitrate_limit : ℕ

abbrev pub client_start : Setup → ControlTest
client_start u = record {
  role = client;
  state = unknown 0;
  mode = u.mode;
  num_streams = u.num_streams;
  rate = u.rate;
  bitrate_limit = 0;
  bind_port = u.bind_port;
  is_tcp = true;
  relisten = u.relisten;
  has_affinity = false;
  has_ctrl = false;
  done = false;
  i_errno = none;
  streams = [];
}

-- A server in the state IPERF_START.
abbrev pub server_start : Setup → ControlTest
server_start u = record {
  role = server;
  state = iperf_start;
  mode = receiver;
  num_streams = 1;
  rate = 0;
  bitrate_limit = u.bitrate_limit;
  bind_port = 0;
  is_tcp = true;
  relisten = u.relisten;
  has_affinity = u.has_affinity;
  has_ctrl = false;
  done = false;
  i_errno = none;
  streams = [];
}

abbrev pub serving_start : Setup → Serving
serving_start u = record {
  test = server_start u;
  streams_to_send = 0;
  streams_to_rec = 0;
  send_streams_accepted = 0;
  rec_streams_accepted = 0;
}

-- The client calls.
unfoldable pub session_start : Setup → Session
unfolding drive iperf_connect
session_start u = run_client (iperf_connect (client_start u)) (record {
  client_side = ret (client_start u);
  server_side = ret (serving_start u);
  to_client = [];
  to_server = [];
  calling = true;
  waiting = 0;
})
