-- ===== src/Control/Server.antt =====
-- iperf_server_api.c: a client that connects, what the server does with a message of its client, how
-- it accepts the streams and starts the test, and how it cleans up behind an error.
use expo_iperf.Common.{
  ℕ, ◌+◌, ◌*◌, ◌==◌, Bool, true, false, not, ◌&&◌, if◌then◌else◌, some, ltb, u64,
}
use expo_iperf.State.{
  test_start, test_running, test_end, param_exchange, client_terminate, exchange_results,
  display_results, iperf_done,
}
use expo_iperf.Args.{sender, receiver, bidirectional, is_receiver}
use expo_iperf.Control.{
  ie_ctrlclose, ie_recvmessage, ie_message, ie_clientterm, ie_accept, ie_setnodelay, ie_recvcookie,
  ie_totalrate, ie_listen, ie_pthreadcreate, set_by_callee, cookie, first_state, got, closed,
  failed, accept, set_nodelay, set_affinity, protocol_accept, common_sockopts, stream_is_open,
  netannounce, init_test, create_timers, create_omit_timer, create_threads, on_connect,
  on_test_finish, stats_callback, cpu_util, deny_stranger, close_streams, close_control,
  close_accepted, close_prot_listener, close_listener, stop_threads, cancel_timers,
  create_send_timers, reporter_callback, ControlTest, Proc, ret, fail, call, read, ◌>>=◌, refuse,
  or_fail, act, set_state, is_creating, is_bidirectional, iperf_set_send_state, attach_stream,
  iperf_exchange_parameters, iperf_exchange_results,
}

-- The local variables of `iperf_run_server` with the test.
pub record Serving : Type 0 where
  pub test : ControlTest
  pub streams_to_send : ℕ
  pub streams_to_rec : ℕ
  pub send_streams_accepted : ℕ
  pub rec_streams_accepted : ℕ

abbrev pub with_test : Serving → ControlTest → Proc Serving
with_test v t = ret (record v { test = t })

-- The read of the cookie.
unfoldable pub read_cookie : ControlTest → Proc ControlTest
read_cookie t = read (λ m. elim m [ got cookie ↦ ret t | _ ↦ refuse ie_recvcookie t ])

abbrev pub bind_server : ControlTest → Proc ControlTest
bind_server t = if t.has_affinity then or_fail set_affinity set_by_callee t else ret t

-- The branch of `iperf_accept` for a server that is free.
unfoldable pub accept_client : ControlTest → Proc ControlTest
unfolding read_cookie iperf_set_send_state iperf_exchange_parameters
accept_client t = do
  a ← or_fail set_nodelay ie_setnodelay (record t { has_ctrl = true })
  b ← read_cookie a
  c ← iperf_set_send_state param_exchange b
  d ← iperf_exchange_parameters c
  e ← bind_server d
  act on_connect e

-- `error_handling`: the new connection is closed, but `ctrl_sck` keeps its number.
abbrev pub or_close : Proc ControlTest → Proc ControlTest
or_close (ret t) = ret t
or_close (fail t) = act close_accepted t >>= fail
or_close (call c k) = call c (λ ok. or_close (k ok))
or_close (read k) = read (λ m. or_close (k m))

-- A server that has a client sends the new one ACCESS_DENIED and closes its connection.
unfoldable pub iperf_accept : ControlTest → Proc ControlTest
unfolding accept_client
iperf_accept t = or_fail accept ie_accept t >>= λ a.
    if a.has_ctrl then act deny_stranger a else or_close (accept_client a)

-- The case TEST_END.
unfoldable pub end_test : ControlTest → Proc ControlTest
unfolding iperf_set_send_state iperf_exchange_results
end_test t = do
  a ← act cpu_util (record t { done = true })
  b ← act stats_callback a
  c ← act close_streams b
  d ← act (reporter_callback c.state) c
  e ← iperf_set_send_state exchange_results d
  f ← iperf_exchange_results e
  g ← iperf_set_send_state display_results f
  act on_test_finish g

-- The case CLIENT_TERMINATE.
unfoldable pub end_terminated : ControlTest → Proc ControlTest
end_terminated t = do
  a ← act cpu_util (record t { i_errno = some ie_clientterm })
  b ← act (reporter_callback display_results) a
  c ← act close_streams b
  ret (set_state iperf_done c)

-- The switch of `iperf_handle_message_server`, on the state that was read.
unfoldable pub handle_state : ControlTest → Proc ControlTest
unfolding end_test end_terminated
handle_state t = elim t.state [
  | test_start ↦ ret t
  | test_end ↦ end_test t
  | iperf_done ↦ ret t
  | client_terminate ↦ end_terminated t
  | _ ↦ refuse ie_message t
]

unfoldable pub iperf_handle_message_server : ControlTest → Proc ControlTest
unfolding handle_state
iperf_handle_message_server t = read (λ m. elim m [
  | got m ↦ handle_state (set_state (first_state m) t)
  | closed ↦ ret (set_state iperf_done (record t { i_errno = some ie_ctrlclose }))
  | failed ↦ refuse ie_recvmessage t
])

-- "Set streams number", behind `iperf_accept`.
abbrev pub set_streams : Serving → Serving
set_streams v = elim v.test.mode [
  | bidirectional ↦ record v {
    streams_to_send = v.test.num_streams;
    streams_to_rec = v.test.num_streams;
  }
  | receiver ↦ record v { streams_to_rec = v.test.num_streams; streams_to_send = 0 }
  | sender ↦ record v { streams_to_send = v.test.num_streams; streams_to_rec = 0 }
]

unfoldable pub serve_listener : Serving → Proc Serving
unfolding iperf_accept
serve_listener v =
    if is_creating v.test.state
    then ret v
    else (iperf_accept v.test >>= λ t. ret (set_streams (record v { test = t })))

-- The stream that was accepted: the server receives on the first ones and sends on the others.
unfoldable pub assign_stream : Serving → Proc Serving
unfolding attach_stream
assign_stream v =
    if not (v.rec_streams_accepted == v.streams_to_rec)
    then attach_stream false v.test
      >>= with_test (record v { rec_streams_accepted = v.rec_streams_accepted + 1 })
    else if not (v.send_streams_accepted == v.streams_to_send)
    then attach_stream true v.test
      >>= with_test (record v { send_streams_accepted = v.send_streams_accepted + 1 })
    else ret v

unfoldable pub accept_stream : Serving → Proc Serving
unfolding assign_stream
accept_stream v = do
  a ← or_fail protocol_accept set_by_callee v.test
  b ← or_fail common_sockopts set_by_callee a
  call stream_is_open (λ open_still.
      if open_still then assign_stream (record v { test = b }) else ret (record v { test = b }))

abbrev pub all_accepted : Serving → Bool
all_accepted v =
    v.rec_streams_accepted == v.streams_to_rec && v.send_streams_accepted == v.streams_to_send

abbrev pub total_requested_rate : ControlTest → ℕ
total_requested_rate t = u64 (t.num_streams * t.rate * (if is_bidirectional t.mode then 2 else 1))

abbrev pub exceeds_limit : ControlTest → Bool
exceeds_limit t = not (t.bitrate_limit == 0) && ltb t.bitrate_limit (total_requested_rate t)

-- The listener of the streams is closed, or the server listens anew.
abbrev pub settle_listener : ControlTest → Proc ControlTest
settle_listener t =
    if not t.is_tcp
    then act close_prot_listener t
    else if t.relisten
    then act close_listener t >>= or_fail netannounce ie_listen
    else ret t

-- All streams are there: the test starts.
unfoldable pub start_test : ControlTest → Proc ControlTest
unfolding iperf_set_send_state
start_test t = do
  a ← settle_listener t
  b ← if exceeds_limit a then refuse ie_totalrate a else act cpu_util a
  c ← iperf_set_send_state test_start b
  d ← or_fail init_test set_by_callee c
  e ← or_fail create_timers set_by_callee d
  f ← or_fail create_omit_timer set_by_callee e
  g ← if is_receiver f.mode then ret f else act create_send_timers f
  h ← iperf_set_send_state test_running g
  or_fail create_threads ie_pthreadcreate h

unfoldable pub start_if_complete : Serving → Proc Serving
unfolding start_test
start_if_complete v = if all_accepted v then start_test v.test >>= with_test v else ret v

-- What the loop of `iperf_run_server` does in the state CREATE_STREAMS.
unfoldable pub serve_streams : Bool → Serving → Proc Serving
unfolding accept_stream start_if_complete
serve_streams ready v = (if ready then accept_stream v else ret v) >>= start_if_complete

-- The descriptors that `select` reports.
pub record Ready : Type 0 where
  pub listener : Bool
  pub control : Bool
  pub prot_listener : Bool

-- `cleanup_server`
unfoldable pub cleanup_server : ControlTest → Proc ControlTest
cleanup_server t = do
  a ← act stop_threads t
  b ← act close_streams a
  c ← if b.has_ctrl then act close_control (record b { has_ctrl = false }) else ret b
  d ← act close_listener c
  e ← act close_prot_listener d
  act cancel_timers e

-- Every failure in the loop is cleaned up.
abbrev pub or_cleanup : {A : Type 0} → Proc A → Proc A
or_cleanup (ret a) = ret a
or_cleanup (fail t) = cleanup_server t >>= fail
or_cleanup (call c k) = call c (λ ok. or_cleanup (k ok))
or_cleanup (read k) = read (λ m. or_cleanup (k m))

abbrev pub serve_control : Bool → Serving → Proc Serving
serve_control ready v = if ready then iperf_handle_message_server v.test >>= with_test v else ret v

abbrev pub is_new_client : Ready → Serving → Bool
is_new_client ready v = ready.listener && not (is_creating v.test.state)

abbrev pub serve_creation : Bool → Serving → Proc Serving
serve_creation ready v = if is_creating v.test.state then serve_streams ready v else ret v

-- One round of the loop of `iperf_run_server` behind `select`. With TCP the streams come in by
-- `listener`, which `iperf_accept` has emptied.
unfoldable pub serve : Ready → Serving → Proc Serving
unfolding serve_listener serve_streams iperf_handle_message_server
serve ready v = or_cleanup (
    (if is_new_client ready v then serve_listener v else ret v)
    >>= serve_control ready.control
    >>= serve_creation (ready.prot_listener && not (is_new_client ready v && v.test.is_tcp)))
