-- ===== src/Args/Parse.antt =====
-- `iperf_defaults`, the checks behind the loop of `iperf_parse_arguments`, and the whole function.
-- `file_size` is what `stat` says of a file, `has_tcpinfo_retransmits` the platform's answer.
use expo_iperf.Common.{
  ℕ, ◌*◌, ◌==◌, Bool, true, false, not, ◌&&◌, ◌||◌, if◌then◌else◌, Option, none, some, List, [],
}
use expo_iperf.Common.Int.{ℤ, pos, negsuc, ltb_ℤ}
use expo_iperf.Double.{Doubles}
use expo_iperf.Args.{
  server_only, client_only, udp_file_transfer, block_size, udp_block_size, end_conditions, no_role,
  unset, client, server, receiver, Protocol, tcp, udp, Text, Test, Switches, Parsing, CliOption,
  Outcome, ok, ◌>>=◌, ◌>>◌, refuse_if, is_tcp, is_role,
}
use expo_iperf.Args.Options.{all_options}

abbrev pub default_tcp_blksize : ℤ
default_tcp_blksize = pos (128 * 1024)

abbrev pub max_blocksize : ℤ
max_blocksize = pos (1024 * 1024)

abbrev pub udp_rate : ℕ
udp_rate = 1024 * 1024

abbrev pub is_set : Option Text → Bool
is_set none = false
is_set (some x) = true

-- `blksize` behind its default.
unfoldable pub chosen_block_size : Protocol → ℤ → ℤ
chosen_block_size udp n = n
chosen_block_size tcp (pos n) = if n == 0 then default_tcp_blksize else pos n
chosen_block_size tcp (negsuc n) = negsuc n

-- The first test of the block size, and the one for UDP.
unfoldable pub is_bad_block_size : Protocol → ℤ → Bool
is_bad_block_size p n = (is_tcp p && not (ltb_ℤ (pos 0) n)) || ltb_ℤ max_blocksize n

unfoldable pub is_bad_udp_block_size : Protocol → ℤ → Bool
is_bad_udp_block_size p n =
    not (is_tcp p) && (ltb_ℤ (pos 0) n && (ltb_ℤ n (pos 16) || ltb_ℤ (pos 65507) n))

module _ (D : Doubles) where
  open D use {of_ℕ, div, is_less, is_zero, round}

  unfoldable pub iperf_defaults : Test D
  iperf_defaults = record {
    role = unset;
    mode = receiver;
    reverse = false;
    bidirectional = false;
    sender_has_retransmits = false;
    protocol = tcp;
    server_hostname = none;
    bind_address = none;
    bind_port = pos 0;
    server_port = pos 5201;
    omit = pos 0;
    duration = pos 10;
    diskfile_name = none;
    stats_interval = of_ℕ 1;
    reporter_interval = of_ℕ 1;
    num_streams = pos 1;
    domain = 0;
    unit_format = b'a';
    socket_bufsize = pos 0;
    blksize = default_tcp_blksize;
    rate = 0;
    bitrate_limit = 0;
    bitrate_limit_interval = of_ℕ 5;
    bitrate_limit_stats_per_interval = 0;
    pacing_timer = pos 1000;
    burst = pos 0;
    mss = pos 0;
    tos = pos 0;
    bytes = 0;
    blocks = 0;
    connect_timeout = negsuc 0;
    idle_timeout = pos 0;
    rcv_timeout = record { secs = 120; usecs = 0 };
  }

  unfoldable pub no_switches : Switches D
  no_switches = record {
    daemon = false;
    one_off = false;
    verbose = false;
    json_output = false;
    json_stream = false;
    no_delay = false;
    repeating_payload = false;
    timestamp_format = none;
    extra_data = none;
    title = none;
    pidfile = none;
    logfile = none;
    xbind_addrs = [];
    debug = false;
    debug_level = pos 0;
    forceflush = false;
    get_server_output = false;
    udp_counters_64bit = false;
  }

  unfoldable pub start : Parsing D
  start = record {
    test = iperf_defaults;
    switches = no_switches;
    block_size = pos 0;
    server_flag = false;
    client_flag = false;
    rate_flag = false;
    duration_flag = false;
  }

  abbrev pub has_server_flag : Parsing D → Bool
  has_server_flag s = is_role s.test.role client && s.server_flag

  abbrev pub has_client_flag : Parsing D → Bool
  has_client_flag s = is_role s.test.role server && s.client_flag

  abbrev pub sends_file_by_udp : Parsing D → Bool
  sends_file_by_udp s =
      is_role s.test.role client && (is_set s.test.diskfile_name && not (is_tcp s.test.protocol))

  -- The flags against the role.
  unfoldable pub check_roles : Parsing D → Outcome (Parsing D)
  check_roles s = do
    refuse_if (has_server_flag s) server_only
    refuse_if (has_client_flag s) client_only
    refuse_if (sends_file_by_udp s) udp_file_transfer
    ok s

  unfoldable pub set_block_size : Parsing D → Outcome (Parsing D)
  set_block_size s = do
    let n = chosen_block_size s.test.protocol s.block_size
    refuse_if (is_bad_block_size s.test.protocol n) block_size
    refuse_if (is_bad_udp_block_size s.test.protocol n) udp_block_size
    ok (record s { test = record (s.test) { blksize = n } })

  abbrev pub default_rate : Protocol → ℕ
  default_rate udp = udp_rate
  default_rate tcp = 0

  unfoldable pub set_rate : Parsing D → Parsing D
  set_rate s =
      if s.rate_flag
      then s
      else record s { test = record (s.test) { rate = default_rate s.test.protocol } }

  module _ (file_size : Text → Option ℕ) where
    -- The size of the file that -F names, if there is one.
    abbrev pub size_of : Option Text → Option ℕ
    size_of none = none
    size_of (some x) = file_size x

    abbrev pub or_bytes : Option ℕ → Test D → Test D
    or_bytes none t = t
    or_bytes (some n) t = record t { bytes = n }

    abbrev pub has_no_end : Parsing D → Bool
    has_no_end s = s.test.bytes == 0 && s.test.blocks == 0 && not s.duration_flag

    unfoldable pub set_bytes : Parsing D → Parsing D
    set_bytes s =
        if has_no_end s && is_role s.test.role client
        then record s { test = or_bytes (size_of s.test.diskfile_name) s.test }
        else s

    abbrev pub ends_by_size : Parsing D → Bool
    ends_by_size s = (not (s.test.bytes == 0) || not (s.test.blocks == 0)) && not s.duration_flag

    -- A size without a time takes the default time away.
    unfoldable pub set_duration : Parsing D → Parsing D
    set_duration s =
        if ends_by_size s then record s { test = record (s.test) { duration = pos 0 } } else s

    abbrev pub has_two_ends : Parsing D → Bool
    has_two_ends s =
        s.duration_flag && not (s.test.bytes == 0)
        || s.duration_flag && not (s.test.blocks == 0)
        || not (s.test.bytes == 0) && not (s.test.blocks == 0)

    abbrev pub has_no_role : Parsing D → Bool
    has_no_role s = not (is_role s.test.role client) && not (is_role s.test.role server)

    unfoldable pub check_end_conditions : Parsing D → Outcome (Parsing D)
    check_end_conditions s = do
      refuse_if (has_two_ends s) end_conditions
      refuse_if (has_no_role s) no_role
      ok s

    -- For intervals that are numbers: with a NaN the program takes the other branch.
    abbrev pub limit_intervals : Parsing D → ℕ
    limit_intervals s =
        if is_less s.test.stats_interval s.test.bitrate_limit_interval
        then round (div s.test.bitrate_limit_interval s.test.stats_interval)
        else 1

    unfoldable pub set_limit_intervals : Parsing D → Parsing D
    set_limit_intervals s = if is_zero s.test.bitrate_limit_interval then s else record s {
      test = record (s.test) { bitrate_limit_stats_per_interval = limit_intervals s };
    }

    -- Everything behind the loop.
    unfoldable pub check_all : Parsing D → Outcome (Parsing D)
    check_all s = do
      a ← check_roles s
      b ← set_block_size a
      c ← check_end_conditions (set_duration (set_bytes (set_rate b)))
      ok (set_limit_intervals c)

    -- `iperf_defaults` and then `iperf_parse_arguments`.
    unfoldable pub iperf_parse_arguments : Bool → List (CliOption D) → Outcome (Parsing D)
    iperf_parse_arguments has_tcpinfo_retransmits options =
        all_options D has_tcpinfo_retransmits options start >>= check_all
