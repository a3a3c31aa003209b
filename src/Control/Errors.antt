-- ===== src/Control/Errors.antt =====
-- What the two ends exchange fails with an error number, whatever the calls answer and whatever is
-- read.
use expo_iperf.Common.{Bool, true, false, some, if◌then◌else◌, if_both}
use expo_iperf.State.{State, create_streams, server_error}
use expo_iperf.Args.{is_role, client}
use expo_iperf.Control.{
  cookie, state_byte, parameters, results, error_number, errno_value, got, closed, failed,
  ie_sendparams, ie_sendresults, ie_recvparams, ie_recvresults, ie_ctrlwrite, set_by_callee,
  set_state, ControlTest, refuse, ie_sendmessage, ret, get_parameters, send_error,
  iperf_exchange_parameters, get_results, send_results, iperf_exchange_results,
  iperf_set_send_state,
}
use expo_iperf.Control.Ends.{
  Ends, Ends-bind, HasError, Reports, Reports-bind, some_error, Reports-after, Reports-last,
  Reports-if, Reports-send,
}

Reports-get_parameters : (t : ControlTest) → Reports (get_parameters t)
unfolding get_parameters
Reports-get_parameters t (got (parameters m n r)) = tt
Reports-get_parameters t (got cookie) = some_error ie_recvparams
Reports-get_parameters t (got (state_byte s)) = some_error ie_recvparams
Reports-get_parameters t (got results) = some_error ie_recvparams
Reports-get_parameters t (got (error_number e)) = some_error ie_recvparams
Reports-get_parameters t (got errno_value) = some_error ie_recvparams
Reports-get_parameters t closed = some_error ie_recvparams
Reports-get_parameters t failed = some_error ie_recvparams

Reports-get_results : (t : ControlTest) → Reports (get_results t)
unfolding get_results
Reports-get_results t (got results) = tt
Reports-get_results t (got cookie) = some_error ie_recvresults
Reports-get_results t (got (state_byte s)) = some_error ie_recvresults
Reports-get_results t (got (parameters m n r)) = some_error ie_recvresults
Reports-get_results t (got (error_number e)) = some_error ie_recvresults
Reports-get_results t (got errno_value) = some_error ie_recvresults
Reports-get_results t closed = some_error ie_recvresults
Reports-get_results t failed = some_error ie_recvresults

keeps_error :
    (s : State) (t : ControlTest) → HasError t → Ends HasError HasError (iperf_set_send_state s t)
unfolding iperf_set_send_state
keeps_error s t h = if_both (Ends HasError HasError) t.has_ctrl _ _ (λ _. sent) (λ _. h)
  where
    sent :
        (ok : Bool)
        → Ends HasError HasError
            (if ok then ret (set_state s t) else refuse ie_sendmessage (set_state s t))
    sent true = h
    sent false = some_error ie_sendmessage

-- SERVER_ERROR is sent with an error number that is set.
Reports-send_error :
    (t : ControlTest) → Reports (send_error (record t { i_errno = some set_by_callee }))
unfolding send_error iperf_set_send_state
Reports-send_error t =
    let a = record t { i_errno = some set_by_callee } in
    Ends-bind HasError (λ (b : ControlTest). Unit {0}) HasError
      (iperf_set_send_state server_error a) _
      (keeps_error server_error a (some_error set_by_callee))
      (λ b h. Reports-after ie_ctrlwrite b _ (Reports-after ie_ctrlwrite b _ h))

pub Reports-exchange_parameters : (t : ControlTest) → Reports (iperf_exchange_parameters t)
unfolding iperf_exchange_parameters
Reports-exchange_parameters t =
    Reports-if (is_role t.role client) _ _ (Reports-last ie_sendparams t) (
      Reports-bind (get_parameters t) _ (Reports-get_parameters t)
        λ a ok. Reports-if ok _ _ (Reports-send create_streams a) (Reports-send_error a))

pub Reports-exchange_results : (t : ControlTest) → Reports (iperf_exchange_results t)
unfolding iperf_exchange_results
Reports-exchange_results t =
    Reports-if (is_role t.role client) _ _
      (Reports-bind (send_results t) get_results (Reports-last ie_sendresults t)
        Reports-get_results)
      (Reports-bind (get_results t) send_results (Reports-get_results t)
        λ a. Reports-last ie_sendresults a)
