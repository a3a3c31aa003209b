-- ===== src/Control/Session/Stages/ClientSide.antt =====
-- Every action of the client does to the session what the automaton says.
use expo_iperf.Common.{
  ℕ, ◌+◌, ◌≡◌, refl, Bool, true, false, none, some, [], ◌∙◌, ap, arith, if◌then◌else◌,
}
use mathlib.Core.Option
use expo_iperf.State.{to_byte, test_start, create_streams, test_running}
use expo_iperf.Args.{Mode, sender, receiver, bidirectional, is_receiver}
use expo_iperf.Control.{
  ControlTest, Proc, ret, iperf_exchange_parameters, iperf_set_send_state, iperf_exchange_results,
  get_results,
}
use expo_iperf.Control.Client.{
  iperf_connect, iperf_handle_message_client, handle_state, start_test, iperf_client_end,
  finish_if_over, finish_test, EndCounters, is_over,
}
use expo_iperf.Control.Session.{
  Outbox, drive, succeeds, client_reads, client_ticks, perform, Setup, session_start, Action,
  client_sent,
}
use expo_iperf.Control.Session.Drive.{drive-create_all, stream_count, drive-if}
use expo_iperf.Control.Session.Stages.{
  to_receive, to_send, Stage, streams_asked, creating, started, starting, running, ended,
  session_at, next, client_full, client_in,
}

abbrev pub Refines : Setup → Action → Stage → Type 0
Refines u a σ = perform a (session_at u σ) ≡ Option.map (session_at u) (next u a σ)

pub count_lem : (m : Mode) (n : ℕ) → 0 + stream_count m n ≡ to_receive m n + to_send m n
count_lem sender n = omega arith
count_lem receiver n = omega arith
count_lem bidirectional n = omega arith

drive-start : (t : ControlTest) (o : Outbox) → drive succeeds (start_test t) o ≡ (o, ret t)
unfolding drive start_test
drive-start t o = drive-if (is_receiver t.mode) _ _ o refl refl

pub client_reads-Refines : (u : Setup) (σ : Stage) → Refines u client_reads σ
unfolding perform session_at session_start next drive iperf_connect iperf_handle_message_client
    handle_state iperf_client_end iperf_exchange_parameters iperf_set_send_state
    iperf_exchange_results get_results to_byte
client_reads-Refines u streams_asked =
    ap
      (λ (r : Outbox × Proc ControlTest). some (client_sent (session_at u (creating 0 0 0 0 [])) r))
      (drive-create_all u.mode (client_in u create_streams false []) _)
    ∙ ap (λ (n : ℕ). some (record (session_at u (creating 0 0 0 0 [])) { waiting = n }))
        (count_lem u.mode u.num_streams)
client_reads-Refines u started =
    ap (λ (r : Outbox × Proc ControlTest). some (client_sent (session_at u starting) r))
      (drive-start (client_full u test_start false) _)
client_reads-Refines u σ = refl

-- A tick by whether the test is over.
tick_by :
    (u : Setup) (b : Bool)
    → (if b
        then some (
            client_sent (session_at u running) (
              drive succeeds
                (if b
                  then finish_test (client_full u test_running false)
                  else ret (client_full u test_running false))
                (record { messages = []; connects = 0 })))
        else none)
      ≡ Option.map (session_at u) (if b then some ended else none)
unfolding session_at drive finish_test iperf_set_send_state
tick_by u true = refl
tick_by u false = refl

pub ticks-Refines : (c : EndCounters) (u : Setup) (σ : Stage) → Refines u (client_ticks c) σ
unfolding perform session_at session_start next drive iperf_connect finish_if_over
    iperf_handle_message_client handle_state iperf_exchange_results get_results
ticks-Refines c u running = tick_by u (is_over c (client_full u test_running false))
ticks-Refines c u σ = refl
