-- ===== src/Examples/CommandLines.antt =====
-- Command lines that parse.
use expo_iperf.Common.{
  ℕ, ◌+◌, ◌-◌, ◌*◌, ◌/◌, ◌≡◌, refl, true, false, ◌==◌, ltb, Option, none, some, List, [], ◌∷◌,
}
use expo_iperf.Common.Int.{ℤ, pos}
use expo_iperf.Double.{Doubles}
use expo_iperf.Args.{
  Mode, client, server, Text, Parsing, basic, load, client_role, CliOption, bidir, parallel, time,
  bitrate, ok, net, run, RunOption, server_role, client_port, version4, Outcome,
}
use expo_iperf.Args.Parse.{iperf_parse_arguments}
use expo_iperf.Args.Options.{
  all_options, one_option, basic_option, load_option, net_option, run_option, iperf_set_test_role,
  iperf_set_test_bidirectional, check_sender_has_retransmits, role_mode,
}
use expo_iperf.Args.Parse.{
  start, iperf_defaults, no_switches, check_all, check_roles, set_block_size, chosen_block_size,
  is_bad_block_size, is_bad_udp_block_size, set_rate, set_bytes, set_duration, check_end_conditions,
  set_limit_intervals,
}
use expo_iperf.Args.Direction.{IsDirected, asked, IsAsked, parse_direction}
use expo_iperf.Args.Roles.{HasClientDefaults, HasServerDefaults}
use expo_iperf.Args.Final.{parse_roles}
use expo_iperf.Args.Ranges.{IsInRange, parse_ranges}
use expo_iperf.Args.Ends.{IsComplete, parse_ends}

-- Whole numbers are enough for these lines.
abbrev pub whole : Doubles
whole = record {
  Double = ℕ;
  of_ℕ = λ n. n;
  add = λ a b. a + b;
  sub = λ a b. a - b;
  mul = λ a b. a * b;
  div = λ a b. a / b;
  is_less = ltb;
  is_zero = λ a. a == 0;
  round = λ a. a;
  truncate = λ a. a;
}

abbrev pub no_files : Text → Option ℕ
no_files x = none

-- iperf3 --bidir -c h -P 4 -b 1000/10 -t 60
abbrev client_line : List (CliOption whole)
client_line =
    load bidir
    ∷ basic (client_role (b'h' ∷ []) false)
    ∷ load (parallel (pos 4))
    ∷ load (bitrate (some (pos 10)) 1000)
    ∷ load (time (pos 60))
    ∷ []

abbrev parsed : Parsing whole
parsed = record {
  test = record (iperf_defaults whole) {
    role = client;
    mode = Mode.bidirectional;
    bidirectional = true;
    sender_has_retransmits = true;
    server_hostname = some (b'h' ∷ []);
    num_streams = pos 4;
    rate = 1000;
    burst = pos 10;
    duration = pos 60;
    bitrate_limit_stats_per_interval = 5;
  };
  switches = no_switches whole;
  block_size = pos 0;
  server_flag = false;
  client_flag = true;
  rate_flag = true;
  duration_flag = true;
}

line_parses : iperf_parse_arguments whole no_files true client_line ≡ ok parsed
unfolding iperf_parse_arguments all_options one_option basic_option load_option iperf_set_test_role
    iperf_set_test_bidirectional check_sender_has_retransmits role_mode start iperf_defaults
    no_switches check_all check_roles set_block_size chosen_block_size is_bad_block_size
    is_bad_udp_block_size set_rate set_bytes set_duration check_end_conditions set_limit_intervals
line_parses = refl

parse_direction_example :
    IsDirected whole true parsed.test
    × IsAsked whole true (asked whole true client_line) parsed.test
parse_direction_example = parse_direction whole true no_files client_line parsed line_parses

parse_roles_example :
    (parsed.test.role ≡ server → HasClientDefaults whole true parsed)
    × (parsed.test.role ≡ client → HasServerDefaults whole true parsed)
parse_roles_example = parse_roles whole true no_files client_line parsed line_parses

parse_ranges_example : IsInRange whole true parsed.test
parse_ranges_example = parse_ranges whole true no_files client_line parsed refl line_parses

parse_ends_example : IsComplete whole true no_files parsed
parse_ends_example = parse_ends whole true no_files client_line parsed line_parses

-- iperf3 -s --cport 5000 -4 --udp-counters-64bit
abbrev server_line : List (CliOption whole)
server_line =
    basic server_role
    ∷ net (client_port (pos 5000))
    ∷ net version4
    ∷ run RunOption.udp_counters_64bit
    ∷ []

abbrev bind_port_of : Outcome (Parsing whole) → Option ℤ
bind_port_of (ok p) = some p.test.bind_port
bind_port_of _ = none

server_line_parses :
    bind_port_of (iperf_parse_arguments whole no_files true server_line) ≡ some (pos 5000)
unfolding iperf_parse_arguments all_options one_option basic_option net_option run_option
    iperf_set_test_role check_sender_has_retransmits role_mode start iperf_defaults no_switches
    check_all check_roles set_block_size chosen_block_size is_bad_block_size is_bad_udp_block_size
    set_rate set_bytes set_duration check_end_conditions set_limit_intervals
server_line_parses = refl
