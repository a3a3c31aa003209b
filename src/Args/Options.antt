-- ===== src/Args/Options.antt =====
-- The cases of the `switch` in `iperf_parse_arguments`, and the setters that they call.
use expo_iperf.Common.{
  ℕ, ◌*◌, ◌/◌, ◌%◌, Bool, true, false, not, ◌&&◌, ◌||◌, ◌==◌, if◌then◌else◌, Option, none, some,
  List, [], ◌∷◌, ◌++◌,
}
use expo_iperf.Common.Int.{ℤ, pos, ltb_ℤ, pos_part}
use expo_iperf.Double.{Doubles}
use expo_iperf.Args.{
  ArgError, serv_client, unimp, bad_tos, reverse_bidir, no_sendfile, buf_size, Role, unset, client,
  server, Mode, sender, receiver, bidirectional, Protocol, udp, Text, Test, Parsing, BasicOption,
  port, format, set_interval, json, version, server_role, use_udp, client_role, LoadOption, bitrate,
  server_bitrate_limit, time, blockcount, length, parallel, window, bidir, NetOption, bind,
  client_port, set_mss, dscp, version4, version6, flowlabel, zerocopy, xbind, timestamps, RunOption,
  file, affinity, congestion, no_fq_socket_pacing, fq_rate, help, unknown, CliOption, basic, load,
  net, run, Outcome, ok, err, exits, ◌>>=◌, ◌>>◌, refuse_if, is_between, is_receiver, is_tcp,
  is_role,
}

-- The mode that a role, `reverse` and `bidirectional` give.
unfoldable pub role_mode : Role → Bool → Bool → Mode → Mode
role_mode client true b m = receiver
role_mode server true b m = sender
role_mode unset true b m = m
role_mode r false true m = bidirectional
role_mode client false false m = sender
role_mode server false false m = receiver
role_mode unset false false m = m

module _ (D : Doubles) (has_tcpinfo_retransmits : Bool) where
  open D use {Double, of_ℕ, div, is_less, is_zero}

  unfoldable pub check_sender_has_retransmits : Test D → Test D
  check_sender_has_retransmits t = record t {
    sender_has_retransmits =
        not (is_receiver t.mode) && (is_tcp t.protocol && has_tcpinfo_retransmits);
  }

  unfoldable pub iperf_set_test_role : Role → Test D → Test D
  unfolding check_sender_has_retransmits role_mode
  iperf_set_test_role role t =
      check_sender_has_retransmits
        (record t { role = role; mode = role_mode role t.reverse t.bidirectional t.mode })

  -- The setter of `reverse` does not look at `bidirectional`.
  unfoldable pub iperf_set_test_reverse : Bool → Test D → Test D
  unfolding check_sender_has_retransmits role_mode
  iperf_set_test_reverse reverse t =
      check_sender_has_retransmits
        (record t { reverse = reverse; mode = role_mode t.role reverse false t.mode })

  unfoldable pub iperf_set_test_bidirectional : Bool → Test D → Test D
  unfolding iperf_set_test_reverse
  iperf_set_test_bidirectional true t = record t { bidirectional = true; mode = bidirectional }
  iperf_set_test_bidirectional false t =
      iperf_set_test_reverse t.reverse (record t { bidirectional = false })

  unfoldable pub set_protocol : Protocol → Test D → Test D
  unfolding check_sender_has_retransmits
  set_protocol p t = check_sender_has_retransmits (record t { protocol = p })

  -- `iperf_parse_hostname` found a device: not supported in this configuration.
  abbrev pub no_device : Bool → Parsing D → Outcome (Parsing D)
  no_device true s = err ArgError.bind_dev_no_support
  no_device false s = ok s

  -- Whether an interval is refused: not 0, and below 0.1 or above 60 seconds.
  abbrev pub is_bad_interval : Double → Bool
  is_bad_interval x = (is_less x (div (of_ℕ 1) (of_ℕ 10)) || is_less (of_ℕ 60) x) && not (is_zero x)

  -- The letters k K m M g G t T.
  abbrev pub is_unit_format : ℕ → Bool
  is_unit_format c =
      c == b'k'
      || c == b'K'
      || c == b'm'
      || c == b'M'
      || c == b'g'
      || c == b'G'
      || c == b't'
      || c == b'T'

  unfoldable pub basic_option : BasicOption D → Parsing D → Outcome (Parsing D)
  unfolding iperf_set_test_role set_protocol
  basic_option (port n) s = do
    refuse_if (not (is_between (pos 1) (pos 65535) n)) ArgError.bad_port
    ok (record s { test = record (s.test) { server_port = n } })
  basic_option (format c) s = do
    refuse_if (not (is_unit_format c)) ArgError.bad_format
    ok (record s { test = record (s.test) { unit_format = c } })
  basic_option (set_interval x) s = do
    refuse_if (is_bad_interval x) ArgError.interval
    ok (record s { test = record (s.test) { stats_interval = x; reporter_interval = x } })
  basic_option BasicOption.daemon s =
      ok (record s { switches = record (s.switches) { daemon = true }; server_flag = true })
  basic_option BasicOption.one_off s =
      ok (record s { switches = record (s.switches) { one_off = true }; server_flag = true })
  basic_option BasicOption.verbose s =
      ok (record s { switches = record (s.switches) { verbose = true } })
  basic_option json s = ok (record s { switches = record (s.switches) { json_output = true } })
  basic_option BasicOption.json_stream s =
      ok (record s { switches = record (s.switches) { json_output = true; json_stream = true } })
  basic_option version s = exits 0
  basic_option server_role s = do
    refuse_if (is_role s.test.role client) serv_client
    ok (record s { test = iperf_set_test_role server s.test })
  basic_option (client_role host device) s = do
    refuse_if (is_role s.test.role server) serv_client
    no_device device (record s {
      test = record (iperf_set_test_role client s.test) { server_hostname = some host };
    })
  basic_option use_udp s = ok (record s { test = set_protocol udp s.test; client_flag = true })

  abbrev burst_option : Option ℤ → Test D → Outcome (Test D)
  burst_option none t = ok t
  burst_option (some n) t = do
    refuse_if (not (is_between (pos 1) (pos 1000) n)) ArgError.burst
    ok (record t { burst = n })

  abbrev limit_interval : Option Double → Test D → Outcome (Test D)
  limit_interval none t = ok t
  limit_interval (some x) t = do
    refuse_if (is_bad_interval x) ArgError.total_interval
    ok (record t { bitrate_limit_interval = x })

  unfoldable pub load_option : LoadOption D → Parsing D → Outcome (Parsing D)
  unfolding iperf_set_test_reverse iperf_set_test_bidirectional
  load_option (bitrate slash rate) s = do
    t ← burst_option slash s.test
    ok (record s { test = record t { rate = rate }; rate_flag = true; client_flag = true })
  load_option (server_bitrate_limit slash rate) s = do
    t ← limit_interval slash s.test
    ok (record s { test = record t { bitrate_limit = rate }; server_flag = true })
  load_option (time n) s = do
    refuse_if (not (is_between (pos 0) (pos 86400) n)) ArgError.duration
    ok (record s {
      test = record (s.test) { duration = n };
      duration_flag = true;
      client_flag = true;
    })
  load_option (LoadOption.bytes n) s =
      ok (record s { test = record (s.test) { bytes = n }; client_flag = true })
  load_option (blockcount n) s =
      ok (record s { test = record (s.test) { blocks = n }; client_flag = true })
  load_option (length n) s = ok (record s { block_size = n; client_flag = true })
  load_option (parallel n) s = do
    refuse_if (ltb_ℤ (pos 128) n) ArgError.num_streams
    ok (record s { test = record (s.test) { num_streams = n }; client_flag = true })
  load_option LoadOption.reverse s = do
    refuse_if s.test.bidirectional reverse_bidir
    ok (record s { test = iperf_set_test_reverse true s.test; client_flag = true })
  load_option bidir s = do
    refuse_if s.test.reverse reverse_bidir
    ok (record s { test = iperf_set_test_bidirectional true s.test; client_flag = true })
  load_option (window n) s = do
    refuse_if (ltb_ℤ (pos (512 * 1024 * 1024)) n) buf_size
    ok (record s { test = record (s.test) { socket_bufsize = n }; client_flag = true })

  -- AF_INET and AF_INET6
  abbrev pub af_inet : ℕ
  af_inet = 2

  abbrev pub af_inet6 : ℕ
  af_inet6 = 10

  unfoldable pub tos_option : Option ℤ → Parsing D → Outcome (Parsing D)
  tos_option none s = err bad_tos
  tos_option (some n) s = do
    refuse_if (not (is_between (pos 0) (pos 255) n)) bad_tos
    ok (record s { test = record (s.test) { tos = n }; client_flag = true })

  abbrev default_format : Text
  default_format = b'%' ∷ b'c' ∷ b' ' ∷ []

  unfoldable pub net_option : NetOption D → Parsing D → Outcome (Parsing D)
  unfolding tos_option
  net_option (bind host device) s =
      no_device device (record s { test = record (s.test) { bind_address = some host } })
  net_option (client_port n) s = do
    refuse_if (not (is_between (pos 1) (pos 65535) n)) ArgError.bad_port
    ok (record s { test = record (s.test) { bind_port = n } })
  net_option (set_mss n) s = do
    refuse_if (ltb_ℤ (pos (9 * 1024)) n) ArgError.mss
    ok (record s { test = record (s.test) { mss = n }; client_flag = true })
  net_option NetOption.no_delay s =
      ok (record s { switches = record (s.switches) { no_delay = true }; client_flag = true })
  net_option version4 s = ok (record s { test = record (s.test) { domain = af_inet } })
  net_option version6 s = ok (record s { test = record (s.test) { domain = af_inet6 } })
  net_option (NetOption.tos n) s = tos_option n s
  net_option (dscp n) s = do
    refuse_if (ltb_ℤ n (pos 0)) bad_tos
    ok (record s { test = record (s.test) { tos = n }; client_flag = true })
  net_option (NetOption.extra_data x) s =
      ok (record s { switches = record (s.switches) { extra_data = some x }; client_flag = true })
  net_option flowlabel s = err unimp
  net_option (xbind x) s = ok (record s {
    switches = record (s.switches) { xbind_addrs = s.switches.xbind_addrs ++ (x ∷ []) };
  })
  net_option zerocopy s = err no_sendfile
  net_option NetOption.repeating_payload s =
      ok (record s {
        switches = record (s.switches) { repeating_payload = true };
        client_flag = true;
      })
  net_option (timestamps none) s =
      ok (record s { switches = record (s.switches) { timestamp_format = some default_format } })
  net_option (timestamps (some x)) s =
      ok (record s { switches = record (s.switches) { timestamp_format = some x } })

  abbrev debug_level_of : Option ℤ → ℤ
  debug_level_of none = pos 4
  debug_level_of (some n) = if ltb_ℤ n (pos 0) then pos 4 else n

  unfoldable pub run_option : RunOption D → Parsing D → Outcome (Parsing D)
  run_option (RunOption.omit n) s = do
    refuse_if (not (is_between (pos 0) (pos 600) n)) ArgError.omit
    ok (record s { test = record (s.test) { omit = n }; client_flag = true })
  run_option (file x) s = ok (record s { test = record (s.test) { diskfile_name = some x } })
  run_option (RunOption.idle_timeout n) s = do
    refuse_if (not (is_between (pos 1) (pos 86400) n)) ArgError.idle_timeout
    ok (record s { test = record (s.test) { idle_timeout = n }; server_flag = true })
  run_option (RunOption.rcv_timeout n) s = do
    refuse_if (not (is_between (pos 100) (pos 86400000) n)) ArgError.rcv_timeout
    ok (record s {
      test = record (s.test) {
        rcv_timeout = record { secs = pos_part n / 1000; usecs = pos_part n % 1000 * 1000 };
      };
    })
  run_option affinity s = err unimp
  run_option (RunOption.title x) s =
      ok (record s { switches = record (s.switches) { title = some x }; client_flag = true })
  run_option congestion s = err unimp
  run_option (RunOption.debug n) s =
      ok (record s {
        switches = record (s.switches) { debug = true; debug_level = debug_level_of n };
      })
  run_option (RunOption.pidfile x) s =
      ok (record s { switches = record (s.switches) { pidfile = some x } })
  run_option (RunOption.logfile x) s =
      ok (record s { switches = record (s.switches) { logfile = some x } })
  run_option RunOption.forceflush s =
      ok (record s { switches = record (s.switches) { forceflush = true } })
  run_option RunOption.get_server_output s =
      ok (record s {
        switches = record (s.switches) { get_server_output = true };
        client_flag = true;
      })
  run_option RunOption.udp_counters_64bit s =
      ok (record s { switches = record (s.switches) { udp_counters_64bit = true } })
  run_option no_fq_socket_pacing s = err unimp
  run_option fq_rate s = err unimp
  run_option (RunOption.pacing_timer n) s =
      ok (record s { test = record (s.test) { pacing_timer = n }; client_flag = true })
  run_option (RunOption.connect_timeout n) s =
      ok (record s { test = record (s.test) { connect_timeout = n }; client_flag = true })
  run_option help s = exits 0
  run_option unknown s = exits 1

  unfoldable pub one_option : CliOption D → Parsing D → Outcome (Parsing D)
  one_option (basic o) s = basic_option o s
  one_option (load o) s = load_option o s
  one_option (net o) s = net_option o s
  one_option (run o) s = run_option o s

  -- The loop over what `getopt_long` delivers.
  unfoldable pub all_options : List (CliOption D) → Parsing D → Outcome (Parsing D)
  all_options [] s = ok s
  all_options (o ∷ rest) s = one_option o s >>= all_options rest
