-- ===== src/Control/Refusals.antt =====
-- What the client refuses, and with which error number.
use expo_iperf.Common.{ℕ, zero, suc, Bool, true, false, ◌≡◌, refl, inl, inr, ◌⊎◌, if_both}
use expo_iperf.State.{
  State, test_start, test_running, test_end, param_exchange, create_streams, server_terminate,
  client_terminate, exchange_results, display_results, iperf_done, iperf_start, access_denied,
  server_error, unknown,
}
use expo_iperf.Args.{Mode, sender, receiver, bidirectional, is_receiver}
use expo_iperf.Control.{
  Message, got, closed, failed, ie_serverterm, ie_accessdenied, ie_message, ie_ctrlclose,
  ie_recvmessage, set_by_callee, first_state, set_state, ie_ctrlread, ControlTest, Proc,
  protocol_connect, attach_stream, ret, fail, call, read, ◌>>=◌, or_fail, ignore,
  iperf_exchange_parameters, iperf_exchange_results,
}
use expo_iperf.Control.Client.{
  iperf_handle_message_client, create_loop, iperf_create_streams, create_all, stream_port,
}
use expo_iperf.Control.Client
use expo_iperf.Control.Session.{feed}
use expo_iperf.Control.Ends.{
  Ends, HasError, Reports, Reports-bind, some_error, Reports-after, Reports-if,
  Reports-attach_stream, Reports-ignore,
}
use expo_iperf.Control.Errors.{Reports-exchange_parameters, Reports-exchange_results}

Reports-create_loop : (k i : ℕ) (b : Bool) (t : ControlTest) → Reports (create_loop k i b t)
unfolding create_loop
Reports-create_loop zero i b t = tt
Reports-create_loop (suc k) i b t =
    Reports-bind
      (or_fail (protocol_connect (stream_port t b i)) set_by_callee t >>= attach_stream b) _
      (Reports-after set_by_callee t (attach_stream b) (Reports-attach_stream b t))
      (Reports-create_loop k (suc i) b)

Reports-create_all : (m : Mode) (t : ControlTest) → Reports (create_all (record t { mode = m }))
unfolding create_all iperf_create_streams
Reports-create_all sender t = Reports-create_loop t.num_streams 0 true _
Reports-create_all receiver t = Reports-create_loop t.num_streams 0 false _
Reports-create_all bidirectional t =
    Reports-bind (create_loop t.num_streams 0 true (record t { mode = bidirectional })) _
      (Reports-create_loop t.num_streams 0 true _)
      (λ a. Reports-create_loop a.num_streams 0 false a)

Reports-start_test : (t : ControlTest) → Reports (Client.start_test t)
unfolding Client.start_test
Reports-start_test t = Reports-after set_by_callee t _ (
    Reports-after set_by_callee t _
      (Reports-after set_by_callee t _ (Reports-if (is_receiver t.mode) _ _ tt (λ _. tt))))

-- A failure of the client has an error number, or it is the number that came with SERVER_ERROR.
abbrev pub HasReason : ControlTest → Type 0
HasReason t = HasError t ⊎ (t.state ≡ server_error)

Ends-weaken :
    {A : Type 0} (P P' : A → Type 0) (Q R : ControlTest → Type 0) (p : Proc A)
    → ((a : A) → P a → P' a)
    → ((t : ControlTest) → Q t → R t)
    → Ends P Q p
    → Ends P' R p
Ends-weaken P P' Q R (ret a) g f h = g a h
Ends-weaken P P' Q R (fail t) g f h = f t h
Ends-weaken P P' Q R (call c k) g f h = λ ok. Ends-weaken P P' Q R (k ok) g f (h ok)
Ends-weaken P P' Q R (read k) g f h = λ m. Ends-weaken P P' Q R (k m) g f (h m)

-- The states that the client takes from its server.
abbrev pub is_expected : State → Bool
is_expected param_exchange = true
is_expected create_streams = true
is_expected test_start = true
is_expected test_running = true
is_expected exchange_results = true
is_expected display_results = true
is_expected iperf_done = true
is_expected _ = false

abbrev pub Reasoned : (ControlTest → Type 0) → Proc ControlTest → Type 0
Reasoned P p = Ends P HasReason p

by_report : (p : Proc ControlTest) → Reports p → Reasoned (λ t. Unit {0}) p
by_report p h =
    Ends-weaken (λ (t : ControlTest). Unit {0}) (λ (t : ControlTest). Unit {0}) HasError HasReason p
      (λ t k. k) (λ t k. inl k) h

-- What SERVER_ERROR brings is a failure.
read_error_lem :
    (t : ControlTest) → t.state ≡ server_error → Reasoned (λ _. ⊥) (Client.read_error t)
unfolding Client.read_error
read_error_lem t e m =
    if_both (Reasoned (λ _. ⊥)) (Client.is_failed m) _ _ (λ _. inl (some_error ie_ctrlread))
      (λ _ m'. if_both (Reasoned (λ _. ⊥)) (Client.is_failed m') _ _ (λ _. inr e) (λ _. inr e))

state_lem :
    (s : State) (t : ControlTest) → Reasoned (λ a. Unit {0}) (Client.handle_state (set_state s t))
unfolding Client.handle_state
state_lem param_exchange t = by_report _ (
    Reports-bind (iperf_exchange_parameters (set_state param_exchange t)) _
      (Reports-exchange_parameters (set_state param_exchange t)) (λ a _. tt))
state_lem create_streams t =
    by_report (create_all (set_state create_streams t))
      (Reports-create_all t.mode (set_state create_streams t))
state_lem test_start t =
    by_report (Client.start_test (set_state test_start t))
      (Reports-start_test (set_state test_start t))
state_lem test_running t = tt
state_lem exchange_results t =
    by_report (iperf_exchange_results (set_state exchange_results t))
      (Reports-exchange_results (set_state exchange_results t))
state_lem display_results t = λ _.
    by_report (ignore (Client.iperf_client_end (set_state display_results t)))
      (Reports-ignore (Client.iperf_client_end (set_state display_results t)))
state_lem iperf_done t = tt
state_lem server_terminate t = λ _ _. inl (some_error ie_serverterm)
state_lem access_denied t = inl (some_error ie_accessdenied)
state_lem server_error t =
    Ends-weaken (λ (a : ControlTest). ⊥) (λ (a : ControlTest). Unit {0}) HasReason HasReason
      (Client.read_error (set_state server_error t)) (λ a h. tt) (λ a h. h)
      (read_error_lem (set_state server_error t) refl)
state_lem test_end t = inl (some_error ie_message)
state_lem client_terminate t = inl (some_error ie_message)
state_lem iperf_start t = inl (some_error ie_message)
state_lem (unknown n) t = inl (some_error ie_message)

refused_lem :
    (s : State) (t : ControlTest)
    → is_expected s ≡ false
    → Reasoned (λ a. ⊥) (Client.handle_state (set_state s t))
unfolding Client.handle_state
refused_lem server_terminate t e = λ _ _. inl (some_error ie_serverterm)
refused_lem access_denied t e = inl (some_error ie_accessdenied)
refused_lem server_error t e = read_error_lem (set_state server_error t) refl
refused_lem test_end t e = inl (some_error ie_message)
refused_lem client_terminate t e = inl (some_error ie_message)
refused_lem iperf_start t e = inl (some_error ie_message)
refused_lem (unknown n) t e = inl (some_error ie_message)
refused_lem s t e = absurd (cc)

-- Whatever the calls answer and whatever is read, a failure of iperf_handle_message_client has an
-- error number, or comes with SERVER_ERROR; and a message that begins with no state that the
-- client expects always makes it fail.
pub handle_message_client_lem :
    (t : ControlTest)
    → Reasoned (λ a. Unit {0}) (iperf_handle_message_client t)
      × ((m : Message)
          → is_expected (first_state m) ≡ false
          → Reasoned (λ a. ⊥) (feed m (iperf_handle_message_client t)))
unfolding iperf_handle_message_client
handle_message_client_lem t = (replies, λ m e. refused_lem (first_state m) t e)
  where
    replies : Reasoned (λ a. Unit {0}) (iperf_handle_message_client t)
    replies (got m) = state_lem (first_state m) t
    replies closed = inl (some_error ie_ctrlclose)
    replies failed = inl (some_error ie_recvmessage)
