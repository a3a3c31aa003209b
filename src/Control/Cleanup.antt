-- ===== src/Control/Cleanup.antt =====
-- A round of the server that fails leaves no control connection and an error number.
use expo_iperf.Common.{Bool, true, false, not, ◌&&◌, ◌==◌, ◌≡◌, refl, if◌then◌else◌, if_both}
use expo_iperf.State.{
  State, test_start, test_running, test_end, param_exchange, client_terminate, exchange_results,
  display_results, iperf_done,
}
use expo_iperf.Args.{is_receiver}
use expo_iperf.Control.{
  cookie, state_byte, parameters, results, error_number, errno_value, got, closed, failed,
  first_state, set_state, is_creating, ControlTest, Proc, ret, fail, call, read, ◌>>=◌, refuse, act,
  cpu_util, close_listener, close_prot_listener, cancel_timers, create_send_timers, ie_accept,
  ie_setnodelay, ie_recvcookie, ie_message, ie_recvmessage, ie_totalrate, ie_listen,
  ie_pthreadcreate, set_by_callee, iperf_exchange_parameters, iperf_exchange_results,
  iperf_set_send_state, attach_stream,
}
use expo_iperf.Control.Server.{
  Serving, read_cookie, bind_server, accept_client, iperf_accept, end_test, end_terminated,
  handle_state, iperf_handle_message_server, serve_listener, assign_stream, accept_stream,
  all_accepted, exceeds_limit, settle_listener, start_test, start_if_complete, serve_streams, Ready,
  cleanup_server, or_cleanup, or_close, serve_control, is_new_client, serve_creation, serve,
}
use expo_iperf.Control.Ends.{
  Ends, HasError, Reports, Reports-bind, some_error, Reports-after, Reports-last, Reports-if,
  Reports-send, Reports-attach_stream,
}
use expo_iperf.Control.Errors.{Reports-exchange_parameters, Reports-exchange_results}

Reports-read_cookie : (t : ControlTest) → Reports (read_cookie t)
unfolding read_cookie
Reports-read_cookie t (got cookie) = tt
Reports-read_cookie t (got (parameters m n r)) = some_error ie_recvcookie
Reports-read_cookie t (got (state_byte s)) = some_error ie_recvcookie
Reports-read_cookie t (got results) = some_error ie_recvcookie
Reports-read_cookie t (got (error_number e)) = some_error ie_recvcookie
Reports-read_cookie t (got errno_value) = some_error ie_recvcookie
Reports-read_cookie t closed = some_error ie_recvcookie
Reports-read_cookie t failed = some_error ie_recvcookie

Reports-bind_server : (t : ControlTest) → Reports (bind_server t)
Reports-bind_server t = Reports-if t.has_affinity _ _ (Reports-last set_by_callee t) tt

Reports-accept_client : (t : ControlTest) → Reports (accept_client t)
unfolding accept_client
Reports-accept_client t =
    let a = record t { has_ctrl = true } in
    Reports-after ie_setnodelay a _ (
      Reports-bind (read_cookie a) _ (Reports-read_cookie a) λ b.
        Reports-bind (iperf_set_send_state param_exchange b) _ (Reports-send param_exchange b) λ c.
          Reports-bind (iperf_exchange_parameters c) _ (Reports-exchange_parameters c)
            λ d. Reports-bind (bind_server d) _ (Reports-bind_server d) (λ e _. tt))

Reports-or_close : (p : Proc ControlTest) → Reports p → Reports (or_close p)
Reports-or_close (ret t) h = tt
Reports-or_close (fail t) h = λ _. h
Reports-or_close (call c k) h = λ ok. Reports-or_close (k ok) (h ok)
Reports-or_close (read k) h = λ m. Reports-or_close (k m) (h m)

Reports-accept : (t : ControlTest) → Reports (iperf_accept t)
unfolding iperf_accept
Reports-accept t = Reports-after ie_accept t _ (
    Reports-if t.has_ctrl _ _ (λ _. tt)
      (Reports-or_close (accept_client t) (Reports-accept_client t)))

Reports-end_test : (t : ControlTest) → Reports (end_test t)
unfolding end_test
Reports-end_test t = λ _ _ _ _.
    let a = record t { done = true } in
    Reports-bind (iperf_set_send_state exchange_results a) _ (Reports-send exchange_results a) λ b.
      Reports-bind (iperf_exchange_results b) _ (Reports-exchange_results b) λ c.
        Reports-bind (iperf_set_send_state display_results c) _ (Reports-send display_results c)
          (λ d _. tt)

Reports-handle_state : (s : State) (t : ControlTest) → Reports (handle_state (set_state s t))
unfolding handle_state end_terminated
Reports-handle_state test_start t = tt
Reports-handle_state test_end t = Reports-end_test (set_state test_end t)
Reports-handle_state iperf_done t = tt
Reports-handle_state client_terminate t = λ _ _ _. tt
Reports-handle_state s t = some_error ie_message

Reports-handle_message : (t : ControlTest) → Reports (iperf_handle_message_server t)
unfolding iperf_handle_message_server
Reports-handle_message t (got m) = Reports-handle_state (first_state m) t
Reports-handle_message t closed = tt
Reports-handle_message t failed = some_error ie_recvmessage

Reports-assign : (v : Serving) → Reports (assign_stream v)
unfolding assign_stream
Reports-assign v =
    Reports-if (not (v.rec_streams_accepted == v.streams_to_rec)) _ _
      (Reports-bind (attach_stream false v.test) _ (Reports-attach_stream false v.test) (λ t. tt))
      (Reports-if (not (v.send_streams_accepted == v.streams_to_send)) _ _
        (Reports-bind (attach_stream true v.test) _ (Reports-attach_stream true v.test) (λ t. tt))
        tt)

Reports-accept_stream : (v : Serving) → Reports (accept_stream v)
unfolding accept_stream
Reports-accept_stream v = Reports-after set_by_callee v.test _ (
    Reports-after set_by_callee v.test _
      λ open_still. Reports-if open_still _ _ (Reports-assign v) tt)

Reports-settle : (t : ControlTest) → Reports (settle_listener t)
Reports-settle t =
    Reports-if (not t.is_tcp) _ _ (λ _. tt)
      (Reports-if t.relisten _ _ (λ _. Reports-last ie_listen t) tt)

Reports-start : (t : ControlTest) → Reports (start_test t)
unfolding start_test
Reports-start t = Reports-bind (settle_listener t) _ (Reports-settle t) λ a.
    Reports-bind (if exceeds_limit a then refuse ie_totalrate a else act cpu_util a) _
      (Reports-if (exceeds_limit a) _ _ (some_error ie_totalrate) (λ _. tt))
      λ b. Reports-bind (iperf_set_send_state test_start b) _ (Reports-send test_start b) λ c.
        Reports-after set_by_callee c _ (
          Reports-after set_by_callee c _ (
            Reports-after set_by_callee c _ (
              Reports-bind (if is_receiver c.mode then ret c else act create_send_timers c) _
                (Reports-if (is_receiver c.mode) _ _ tt (λ _. tt))
                λ g.
                  Reports-bind (iperf_set_send_state test_running g) _ (Reports-send test_running g)
                    (λ h. Reports-last ie_pthreadcreate h))))

Reports-start_if_complete : (v : Serving) → Reports (start_if_complete v)
unfolding start_if_complete
Reports-start_if_complete v =
    Reports-if (all_accepted v) _ _
      (Reports-bind (start_test v.test) _ (Reports-start v.test) (λ t. tt)) tt

Reports-listener : (v : Serving) → Reports (serve_listener v)
unfolding serve_listener
Reports-listener v =
    Reports-if (is_creating v.test.state) _ _ tt
      (Reports-bind (iperf_accept v.test) _ (Reports-accept v.test) (λ t. tt))

Reports-control : (b : Bool) (v : Serving) → Reports (serve_control b v)
Reports-control b v =
    Reports-if b _ _
      (Reports-bind (iperf_handle_message_server v.test) _ (Reports-handle_message v.test)
        (λ t. tt))
      tt

Reports-creation : (b : Bool) (v : Serving) → Reports (serve_creation b v)
unfolding serve_streams
Reports-creation b v =
    Reports-if (is_creating v.test.state) _ _
      (Reports-bind (if b then accept_stream v else ret v) _
        (Reports-if b _ _ (Reports-accept_stream v) tt) Reports-start_if_complete)
      tt

Reports-round :
    (ready : Ready) (v : Serving)
    → Reports (
        (if is_new_client ready v then serve_listener v else ret v)
        >>= serve_control ready.control
        >>= serve_creation (ready.prot_listener && not (is_new_client ready v && v.test.is_tcp)))
Reports-round ready v =
    let first = if is_new_client ready v then serve_listener v else ret v in
    Reports-bind (first >>= serve_control ready.control) _
      (Reports-bind first _ (Reports-if (is_new_client ready v) _ _ (Reports-listener v) tt)
        (Reports-control ready.control))
      (Reports-creation (ready.prot_listener && not (is_new_client ready v && v.test.is_tcp)))

-- The connection is closed, and there is an error number.
abbrev pub CleanedUp : ControlTest → Type 0
CleanedUp t = HasError t × (t.has_ctrl ≡ false)

cleanup_lem :
    (A : Type 0) (t : ControlTest)
    → HasError t
    → Ends (λ (a : A). Unit {0}) CleanedUp (cleanup_server t >>= fail)
unfolding cleanup_server
cleanup_lem A t h _ _ =
    if_both
      (λ (p : Proc ControlTest).
        Ends (λ (a : A). Unit {0}) CleanedUp
          (p
            >>= (λ c. act close_listener c >>= act close_prot_listener >>= act cancel_timers)
            >>= fail))
      t.has_ctrl _ _ (λ _ _ _ _ _. (h, refl)) (λ e _ _ _. (h, e))

or_cleanup-CleanedUp :
    {A : Type 0} (p : Proc A) → Reports p → Ends (λ (a : A). Unit {0}) CleanedUp (or_cleanup p)
or_cleanup-CleanedUp (ret a) h = tt
or_cleanup-CleanedUp {A} (fail t) h = cleanup_lem A t h
or_cleanup-CleanedUp (call c k) h = λ ok. or_cleanup-CleanedUp (k ok) (h ok)
or_cleanup-CleanedUp (read k) h = λ m. or_cleanup-CleanedUp (k m) (h m)

-- Whatever the calls answer and whatever is read, a round of the server that fails leaves an error
-- number and no control connection.
pub serve-CleanedUp :
    (ready : Ready) (v : Serving) → Ends (λ (w : Serving). Unit {0}) CleanedUp (serve ready v)
unfolding serve
serve-CleanedUp ready v = or_cleanup-CleanedUp _ (Reports-round ready v)
