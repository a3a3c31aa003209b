-- ===== src/Control/Client.antt =====
-- iperf_client_api.c: what the client does with a message of the server, how it makes the streams,
-- and how it ends the test.
use expo_iperf.Common.{
  ℕ, zero, suc, ◌+◌, ◌%◌, ◌^◌, ◌==◌, Bool, true, false, not, ◌&&◌, ◌||◌, if◌then◌else◌, Option,
  some, leb,
}
use expo_iperf.State.{
  test_start, test_running, test_end, param_exchange, create_streams, server_terminate,
  exchange_results, display_results, iperf_done, access_denied, server_error, to_byte, is_running,
}
use expo_iperf.Args.{sender, receiver, bidirectional, is_receiver}
use expo_iperf.Control.{
  ControlError, ie_ctrlclose, ie_recvmessage, ie_message, ie_serverterm, ie_accessdenied,
  ie_ctrlread, ie_connect, ie_sendcookie, ie_setnodelay, netdial, set_nodelay, nwrite, cookie,
  set_by_callee, no_number, error_number, first_state, Reply, got, closed, failed, init_test,
  create_timers, create_omit_timer, cancel_senders, protocol_connect, on_connect, on_test_finish,
  stats_callback, cpu_util, close_streams, close_control, create_send_timers, reporter_callback,
  ControlTest, Proc, ret, fail, read, ◌>>=◌, refuse, or_fail, act, ignore, set_state,
  is_bidirectional, iperf_set_send_state, attach_stream, iperf_exchange_parameters,
  iperf_exchange_results,
}

-- `iperf_connect` up to the cookie. What follows it is in Blocks.
unfoldable pub iperf_connect : ControlTest → Proc ControlTest
iperf_connect t = do
  a ← if t.has_ctrl then ret t else or_fail netdial ie_connect t
  b ← or_fail set_nodelay ie_setnodelay (record a { has_ctrl = true })
  or_fail (nwrite cookie) ie_sendcookie b

-- `bind_port` for stream `i`, while it connects, by its low 16 bits, which `htons` keeps in the
-- address to bind to.
abbrev pub stream_port : ControlTest → Bool → ℕ → ℕ
stream_port t sends i =
    if t.bind_port == 0
    then 0
    else if not sends && is_bidirectional t.mode
    then (t.bind_port + i + t.num_streams) % 2 ^ 16
    else (t.bind_port + i) % 2 ^ 16

-- The loop of `iperf_create_streams`: the streams that are left, and the number of the next.
unfoldable pub create_loop : ℕ → ℕ → Bool → ControlTest → Proc ControlTest
create_loop zero i sends t = ret t
create_loop (suc k) i sends t =
    or_fail (protocol_connect (stream_port t sends i)) set_by_callee t
    >>= attach_stream sends
    >>= create_loop k (suc i) sends

unfoldable pub iperf_create_streams : Bool → ControlTest → Proc ControlTest
iperf_create_streams sends t = create_loop t.num_streams 0 sends t

-- The case CREATE_STREAMS: a mode is the flag `sender` of its streams.
unfoldable pub create_all : ControlTest → Proc ControlTest
create_all t = elim t.mode [
  | bidirectional ↦ iperf_create_streams true t >>= iperf_create_streams false
  | sender ↦ iperf_create_streams true t
  | receiver ↦ iperf_create_streams false t
]

unfoldable pub start_test : ControlTest → Proc ControlTest
start_test t = do
  a ← or_fail init_test set_by_callee t
  b ← or_fail create_timers set_by_callee a
  c ← or_fail create_omit_timer set_by_callee b
  if is_receiver c.mode then ret c else act create_send_timers c

-- `iperf_client_end`. A state is more than 0 unless it is ACCESS_DENIED or SERVER_ERROR.
unfoldable pub iperf_client_end : ControlTest → Proc ControlTest
unfolding iperf_set_send_state
iperf_client_end t = do
  a ← act close_streams t
  b ← act (reporter_callback a.state) a
  c ←
      if leb (to_byte b.state) 127 && not (to_byte b.state == 0)
      then iperf_set_send_state iperf_done b
      else ret b
  if c.has_ctrl then act close_control c else ret c

-- An error number of the server, in the variable `err`. A connection that is closed leaves it as it
-- was.
abbrev pub number_of : Reply → Option ControlError
number_of (got (error_number e)) = e
number_of _ = some no_number

abbrev pub is_failed : Reply → Bool
is_failed failed = true
is_failed _ = false

unfoldable pub read_error : ControlTest → Proc ControlTest
read_error t = read (λ m.
    if is_failed m
    then refuse ie_ctrlread t
    else read (λ m'.
      if is_failed m'
      then refuse ie_ctrlread (record t { i_errno = number_of m })
      else fail (record t { i_errno = number_of m })))

-- The switch of `iperf_handle_message_client`, on the state that was read.
unfoldable pub handle_state : ControlTest → Proc ControlTest
unfolding start_test create_all iperf_client_end read_error
handle_state t = elim t.state [
  | param_exchange ↦ iperf_exchange_parameters t >>= act on_connect
  | create_streams ↦ create_all t
  | test_start ↦ start_test t
  | test_running ↦ ret t
  | exchange_results ↦ iperf_exchange_results t
  | display_results ↦ act on_test_finish t >>= λ a. ignore (iperf_client_end a)
  | iperf_done ↦ ret t
  | server_terminate ↦
      act cpu_util (record t { i_errno = some ie_serverterm })
      >>= act (reporter_callback display_results)
      >>= fail
  | access_denied ↦ refuse ie_accessdenied t
  | server_error ↦ read_error t
  | _ ↦ refuse ie_message t
]

unfoldable pub iperf_handle_message_client : ControlTest → Proc ControlTest
unfolding handle_state
iperf_handle_message_client t = read (λ m. elim m [
  | got m ↦ handle_state (set_state (first_state m) t)
  | closed ↦ refuse ie_ctrlclose t
  | failed ↦ refuse ie_recvmessage t
])

-- The counters and limits that end a test.
pub record EndCounters : Type 0 where
  pub omitting : Bool
  pub bytes : ℕ
  pub blocks : ℕ
  pub bytes_sent : ℕ
  pub bytes_received : ℕ
  pub blocks_sent : ℕ
  pub blocks_received : ℕ

abbrev pub is_over : EndCounters → ControlTest → Bool
is_over c t =
    not c.omitting
    && (t.done
        || (not (c.bytes == 0) && (leb c.bytes c.bytes_sent || leb c.bytes c.bytes_received)
            || not (c.blocks == 0)
              && (leb c.blocks c.blocks_sent || leb c.blocks c.blocks_received)))

-- The test is over: the senders stop and the server is told.
unfoldable pub finish_test : ControlTest → Proc ControlTest
unfolding iperf_set_send_state
finish_test t = do
  a ← or_fail cancel_senders set_by_callee t
  b ← act cpu_util (record a { done = true })
  c ← act stats_callback b
  iperf_set_send_state test_end c

-- The part of the loop of `iperf_run_client` behind the timers: is the test done yet?
unfoldable pub finish_if_over : EndCounters → ControlTest → Proc ControlTest
unfolding finish_test
finish_if_over c t = if is_running t.state && is_over c t then finish_test t else ret t
