-- ===== src/Examples/Sessions.antt =====
-- A whole session with streams in both directions, and single steps of such a session.
use expo_iperf.Common.{
  ◌≤◌, ◌<◌, ◌≡◌, ◌≢◌, ◌⊎◌, refl, false, Option, some, none, List, [], ◌∷◌, arith,
}
use mathlib.Core.Option
use expo_iperf.State.{test_running, create_streams}
use expo_iperf.Args.{bidirectional}
use expo_iperf.Control.{Message, ret, first_state, set_state}
use expo_iperf.Control.Client
use expo_iperf.Control.Client.{
  EndCounters, iperf_handle_message_client, create_all, iperf_client_end, finish_if_over,
  finish_test,
}
use expo_iperf.Control.Server
use expo_iperf.Control.Server.{Serving, serve, iperf_handle_message_server, end_test}
use expo_iperf.Control.Session.{
  Session, Outbox, Action, client_reads, server_reads, client_accepted, stream_accepted, stranger,
  drive, succeeds, feed, on_control, perform_all, Setup, session_start,
}
use expo_iperf.Control.Session.Drive.{announced}
use expo_iperf.Control.Session.Stages.{client_full, server_full, server_in}
use expo_iperf.Control.Ends.{Ends}
use expo_iperf.Control.Refusals.{Reasoned, is_expected, handle_message_client_lem}
use expo_iperf.Control.Cleanup.{CleanedUp, serve-CleanedUp}
use expo_iperf.Control.Ports.{connect_ports, count_from, create_all-ports}
use expo_iperf.Control.Limit.{asked_rate, IsRefused, start_test_lem}

abbrev two_ways : Setup
two_ways = record {
  mode = bidirectional;
  num_streams = 1;
  rate = 1000;
  bind_port = 5000;
  relisten = false;
  has_affinity = false;
  bitrate_limit = 4000;
}

abbrev counters : EndCounters
counters = record {
  omitting = false;
  bytes = 10;
  blocks = 0;
  bytes_sent = 12;
  bytes_received = 0;
  blocks_sent = 0;
  blocks_received = 0;
}

abbrev setting_up : List Action
setting_up =
    client_accepted ∷ server_reads ∷ client_reads ∷ server_reads ∷ client_reads ∷ stream_accepted
    ∷ stranger ∷ stream_accepted ∷ client_reads ∷ client_reads ∷ []

abbrev or_start : Option Session → Session
or_start none = session_start two_ways
or_start (some s) = s

abbrev set_up : Session
set_up = or_start (perform_all setting_up (session_start two_ways))

handle_message_client_lem_example :
    Reasoned (λ a. Unit {0}) (iperf_handle_message_client (client_full two_ways test_running false))
    × ((m : Message)
        → is_expected (first_state m) ≡ false
        → Reasoned
            (λ a. ⊥)
            (feed m (iperf_handle_message_client (client_full two_ways test_running false))))
handle_message_client_lem_example =
    handle_message_client_lem (client_full two_ways test_running false)

serve-CleanedUp_example :
    Ends
      (λ (w : Serving). Unit {0})
      CleanedUp
      (serve on_control (server_full two_ways test_running false))
serve-CleanedUp_example = serve-CleanedUp on_control (server_full two_ways test_running false)

create_all-ports_example :
    connect_ports (create_all (client_full two_ways create_streams false)) ≡ count_from 5000 2
create_all-ports_example =
    create_all-ports bidirectional (client_full two_ways create_streams false) (omega arith)
      (omega arith)

start_test_lem_example :
    let t = server_in two_ways create_streams false [] in
    let o : Outbox = record { messages = []; connects = 0 } in
    ((t.bitrate_limit ≡ 0) ⊎ (asked_rate t ≤ t.bitrate_limit)
      → drive succeeds (Server.start_test t) o ≡ (announced o, ret (set_state test_running t)))
    × (t.bitrate_limit ≢ 0
        → t.bitrate_limit < asked_rate t
        → Ends (λ a. ⊥) IsRefused (Server.start_test t))
start_test_lem_example =
    start_test_lem (server_in two_ways create_streams false [])
      (record { messages = []; connects = 0 }) refl (omega arith)
