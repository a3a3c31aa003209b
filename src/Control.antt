-- ===== src/Control.antt =====
-- The control connection, of iperf_api.c, iperf_client_api.c and iperf_server_api.c. The code of an
-- end is a tree of the calls that it makes: a call that leaves this code is answered by whether it
-- succeeds, and a read waits for a message. What a tree does depends on the answers, and every
-- answer is in it.
pub mod Client
pub mod Server
pub mod Session
pub mod Ends
pub mod Errors
pub mod Refusals
pub mod Cleanup
pub mod Ports
pub mod Limit
pub mod Blocks
use expo_iperf.Common.{
  ℕ, ◌+◌, ◌==◌, Bool, true, false, if◌then◌else◌, Option, none, some, List, [], ◌∷◌, ◌++◌, length,
}
use expo_iperf.State.{State, create_streams, server_error, iperf_done, unknown}
use expo_iperf.Args.{Role, Mode, sender, receiver, bidirectional, client, is_role}

-- The values of `i_errno` that this code sets; `set_by_callee` where a call that failed has set it,
-- and `no_number` for what is left in a variable that a read did not fill.
pub data ControlError : Type 0 where
  ie_ctrlclose ie_recvmessage ie_sendmessage ie_message ie_serverterm ie_clientterm : ControlError
  ie_accessdenied ie_ctrlread ie_ctrlwrite ie_accept ie_setnodelay ie_recvcookie : ControlError
  ie_recvparams ie_recvresults ie_sendparams ie_sendresults ie_totalrate ie_listen : ControlError
  ie_pthreadcreate ie_connect ie_sendcookie set_by_callee no_number : ControlError

-- What one end writes to the control connection at once. Of the parameters it holds the mode of the
-- client, the number of streams and the rate.
pub data Message : Type 0 where
  cookie : Message
  state_byte : State → Message
  parameters : Mode → ℕ → ℕ → Message
  results : Message
  error_number : Option ControlError → Message
  errno_value : Message

-- The state that the first byte of a message is. A cookie starts with a letter or a digit, a text
-- with its length in four bytes and an error number with its high byte, which is 0.
abbrev pub first_state : Message → State
first_state (state_byte s) = s
first_state cookie = unknown b'a'
first_state _ = unknown 0

-- A read on the control connection: a message, the end of the connection, or an error.
pub data Reply : Type 0 where
  got : Message → Reply
  closed : Reply
  failed : Reply

-- The calls that leave this code. The second group has no result that the code reads.
pub data Call : Type 0 where
  nwrite : Message → Call
  netdial accept set_nodelay set_affinity protocol_listen protocol_accept : Call
  common_sockopts stream_is_open netannounce init_test create_timers create_omit_timer
        create_threads :
      Call
  cancel_senders : Call
  protocol_connect : ℕ → Call  -- with `bind_port`
  new_stream : Bool → Call  -- with `sender`
  on_connect on_new_stream on_test_finish stats_callback cpu_util deny_stranger : Call
  close_streams close_control close_accepted close_prot_listener close_listener stop_threads : Call
  cancel_timers create_send_timers : Call
  reporter_callback : State → Call  -- with `state`

-- A stream by its number and whether this end sends.
pub record StreamInfo : Type 0 where
  pub id : ℕ
  pub sender : Bool

-- The fields of `struct iperf_test` that this code reads and writes.
pub record ControlTest : Type 0 where
  pub role : Role
  pub state : State
  pub mode : Mode
  pub num_streams : ℕ
  pub rate : ℕ
  pub bitrate_limit : ℕ
  pub bind_port : ℕ
  pub is_tcp : Bool
  pub relisten : Bool  -- `no_delay`, `settings->mss` or `settings->socket_bufsize` is set
  pub has_affinity : Bool  -- `server_affinity != -1`
  pub has_ctrl : Bool  -- `ctrl_sck >= 0`
  pub done : Bool
  pub i_errno : Option ControlError
  pub streams : List StreamInfo

-- `ret` ends a function with success, `fail` with -1 and the test as it is then.
pub data Proc (A : Type 0) : Type 0 where
  ret : A → Proc A
  fail : ControlTest → Proc A
  call : Call → (Bool → Proc A) → Proc A
  read : (Reply → Proc A) → Proc A

infixl 5 ◌>>=◌
abbrev pub ◌>>=◌ : {A B : Type 0} → Proc A → (A → Proc B) → Proc B
ret a >>= f = f a
fail t >>= f = fail t
call c k >>= f = call c (λ ok. k ok >>= f)
read k >>= f = read (λ m. k m >>= f)

abbrev pub refuse : {A : Type 0} → ControlError → ControlTest → Proc A
refuse e t = fail (record t { i_errno = some e })

-- A call whose failure ends the function.
abbrev pub or_fail : Call → ControlError → ControlTest → Proc ControlTest
or_fail c e t = call c (λ ok. if ok then ret t else refuse e t)

-- A call whose result is not read.
abbrev pub act : Call → ControlTest → Proc ControlTest
act c t = call c (λ _. ret t)

-- The result -1 of a function that is not looked at.
abbrev pub ignore : Proc ControlTest → Proc ControlTest
ignore (ret t) = ret t
ignore (fail t) = ret t
ignore (call c k) = call c (λ ok. ignore (k ok))
ignore (read k) = read (λ m. ignore (k m))

abbrev pub is_done : State → Bool
is_done iperf_done = true
is_done _ = false

abbrev pub is_creating : State → Bool
is_creating create_streams = true
is_creating _ = false

abbrev pub is_bidirectional : Mode → Bool
is_bidirectional bidirectional = true
is_bidirectional _ = false

abbrev pub set_state : State → ControlTest → ControlTest
set_state s t = record t { state = s }

unfoldable pub iperf_set_send_state : State → ControlTest → Proc ControlTest
iperf_set_send_state s t =
    if t.has_ctrl then or_fail (nwrite (state_byte s)) ie_sendmessage (set_state s t) else ret t

-- The number that `iperf_add_stream` gives the next stream.
unfoldable pub next_id : List StreamInfo → ℕ
next_id [] = 1
next_id (s ∷ rest) = length (s ∷ rest) + 2

unfoldable pub iperf_add_stream : Bool → List StreamInfo → List StreamInfo
unfolding next_id
iperf_add_stream sends l = l ++ (record { id = next_id l; sender = sends } ∷ [])

-- The call of `iperf_new_stream`, which adds the stream, and the callback behind it.
unfoldable pub attach_stream : Bool → ControlTest → Proc ControlTest
attach_stream sends t = do
  a ← or_fail (new_stream sends) set_by_callee t
  act on_new_stream (record a { streams = iperf_add_stream sends a.streams })

-- The mode of the server by that of the client: `reverse` and `bidirectional` are what the
-- parameters say of it, and the server is a RECEIVER before.
abbrev pub mirrored : Mode → Mode
mirrored sender = receiver
mirrored receiver = sender
mirrored bidirectional = bidirectional

-- The part of `get_parameters` that reads the number of streams, the direction and the rate.
unfoldable pub get_parameters : ControlTest → Proc ControlTest
get_parameters t = read (λ m. elim m [
  | got (parameters mode n rate) ↦
      ret (record t { mode = mirrored mode; num_streams = n; rate = rate })
  | _ ↦ refuse ie_recvparams t
])

-- The server could not listen: the client is told SERVER_ERROR and the two error numbers.
unfoldable pub send_error : ControlTest → Proc ControlTest
unfolding iperf_set_send_state
send_error t = do
  a ← iperf_set_send_state server_error t
  b ← or_fail (nwrite (error_number a.i_errno)) ie_ctrlwrite a
  c ← or_fail (nwrite errno_value) ie_ctrlwrite b
  fail c

unfoldable pub iperf_exchange_parameters : ControlTest → Proc ControlTest
unfolding get_parameters send_error iperf_set_send_state
iperf_exchange_parameters t =
    if is_role t.role client
    then or_fail (nwrite (parameters t.mode t.num_streams t.rate)) ie_sendparams t
    else (get_parameters t >>= λ a. call protocol_listen (λ ok.
        if ok
        then iperf_set_send_state create_streams a
        else send_error (record a { i_errno = some set_by_callee })))

abbrev pub send_results : ControlTest → Proc ControlTest
send_results t = or_fail (nwrite results) ie_sendresults t

unfoldable pub get_results : ControlTest → Proc ControlTest
get_results t = read (λ m. elim m [ got results ↦ ret t | _ ↦ refuse ie_recvresults t ])

unfoldable pub iperf_exchange_results : ControlTest → Proc ControlTest
unfolding get_results
iperf_exchange_results t =
    if is_role t.role client then send_results t >>= get_results else get_results t >>= send_results
