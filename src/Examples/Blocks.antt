-- ===== src/Examples/Blocks.antt =====
-- iperf3 -u -c h, whose control connection has an MSS of 1448 bytes.
use expo_iperf.Common.{◌≡◌, refl, true, false, some, List, [], ◌∷◌}
use expo_iperf.Common.Int.{pos}
use expo_iperf.Args.{Mode, Protocol, client, Parsing, basic, client_role, use_udp, CliOption, ok}
use expo_iperf.Args.Parse.{
  iperf_parse_arguments, start, iperf_defaults, no_switches, check_all, check_roles, set_block_size,
  chosen_block_size, is_bad_block_size, is_bad_udp_block_size, set_rate, set_bytes, set_duration,
  check_end_conditions, set_limit_intervals,
}
use expo_iperf.Args.Options.{
  all_options, one_option, basic_option, set_protocol, iperf_set_test_role,
  check_sender_has_retransmits, role_mode,
}
use expo_iperf.Control.Blocks.{connect_blksize}
use expo_iperf.Control.Blocks.Sizes.{FitsDatagram, connect_blksize-FitsDatagram}
use expo_iperf.Examples.CommandLines.{whole, no_files}

abbrev udp_line : List (CliOption whole)
udp_line = basic use_udp ∷ basic (client_role (b'h' ∷ []) false) ∷ []

abbrev udp_parsed : Parsing whole
udp_parsed = record {
  test = record (iperf_defaults whole) {
    role = client;
    mode = Mode.sender;
    protocol = Protocol.udp;
    blksize = pos 0;
    server_hostname = some (b'h' ∷ []);
    rate = 1048576;
    bitrate_limit_stats_per_interval = 5;
  };
  switches = no_switches whole;
  block_size = pos 0;
  server_flag = false;
  client_flag = true;
  rate_flag = false;
  duration_flag = false;
}

udp_line_parses : iperf_parse_arguments whole no_files true udp_line ≡ ok udp_parsed
unfolding iperf_parse_arguments all_options one_option basic_option set_protocol iperf_set_test_role
    check_sender_has_retransmits role_mode start iperf_defaults no_switches check_all check_roles
    set_block_size chosen_block_size is_bad_block_size is_bad_udp_block_size set_rate set_bytes
    set_duration check_end_conditions set_limit_intervals
udp_line_parses = refl

connect_blksize-FitsDatagram_example :
    FitsDatagram (pos 0) (connect_blksize (some (pos 1448)) Protocol.udp (pos 0))
connect_blksize-FitsDatagram_example =
    connect_blksize-FitsDatagram whole true no_files udp_line udp_parsed (some (pos 1448))
      udp_line_parses refl refl
