-- ===== src/State.antt =====
-- The test states of iperf_api.h, which are also the messages on the control connection: one byte,
-- a `signed char`.
pub mod Codes
use expo_iperf.Common.{ℕ, Bool, true, false, ◌==◌, if◌then◌else◌}

pub data State : Type 0 where
  test_start test_running test_end param_exchange create_streams server_terminate : State
  client_terminate exchange_results display_results iperf_start iperf_done : State
  access_denied server_error : State
  -- Any other byte.
  unknown : ℕ → State

-- The byte that is sent, ACCESS_DENIED (-1) and SERVER_ERROR (-2) as bit patterns.
unfoldable pub to_byte : State → ℕ
to_byte test_start = 1
to_byte test_running = 2
to_byte test_end = 4
to_byte param_exchange = 9
to_byte create_streams = 10
to_byte server_terminate = 11
to_byte client_terminate = 12
to_byte exchange_results = 13
to_byte display_results = 14
to_byte iperf_start = 15
to_byte iperf_done = 16
to_byte access_denied = 255
to_byte server_error = 254
to_byte (unknown b) = b

pub of_byte : ℕ → State
of_byte b =
    if b == 1
    then test_start
    else if b == 2
    then test_running
    else if b == 4
    then test_end
    else if b == 9
    then param_exchange
    else if b == 10
    then create_streams
    else if b == 11
    then server_terminate
    else if b == 12
    then client_terminate
    else if b == 13
    then exchange_results
    else if b == 14
    then display_results
    else if b == 15
    then iperf_start
    else if b == 16
    then iperf_done
    else if b == 255
    then access_denied
    else if b == 254
    then server_error
    else unknown b

abbrev pub is_running : State → Bool
is_running test_running = true
is_running _ = false
