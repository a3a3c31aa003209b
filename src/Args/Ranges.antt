-- ===== src/Args/Ranges.antt =====
-- The ranges of the numbers that parsing accepts.
use expo_iperf.Common.{
  ◌*◌, ℕ, inl, inr, Bool-cases, Bool, false, true, not, ◌&&◌, ◌+◌, ◌/◌, ◌%◌, ◌≡◌, ◌⊎◌, ◌≤◌, ◌<◌,
  arith, refl, List, Option, none, some,
}
use expo_iperf.Common.Int.{ℤ, negsuc, pos, pos_part, ltb_ℤ}
use expo_iperf.Clock.{IperfTime}
use expo_iperf.Double.{Doubles}
use expo_iperf.Args.{
  client, server, Test, Parsing, BasicOption, port, format, set_interval, json, version,
  server_role, use_udp, client_role, LoadOption, bitrate, server_bitrate_limit, time, blockcount,
  length, parallel, window, bidir, NetOption, bind, client_port, set_mss, dscp, version4, version6,
  flowlabel, zerocopy, xbind, timestamps, RunOption, file, affinity, congestion,
  no_fq_socket_pacing, fq_rate, help, unknown, Text, ok, CliOption, basic, load, net, run, is_role,
  is_between, ArgError,
}
use expo_iperf.Args.Outcomes.{Holds, Holds-bind, Holds-refuse, Holds-ok}
use expo_iperf.Args.Steps.{Holds-no_device, all_options-Moves, after_all}
use expo_iperf.Args.Parse.{start, iperf_defaults, check_all, iperf_parse_arguments}
use expo_iperf.Args.Frame.{check_all-Holds}
use expo_iperf.Args.Options.{
  check_sender_has_retransmits, iperf_set_test_role, iperf_set_test_reverse,
  iperf_set_test_bidirectional, set_protocol, basic_option, load_option, net_option, tos_option,
  run_option, one_option, all_options, is_bad_interval, is_unit_format,
}

-- a ≤ z ≤ b
abbrev pub Between : ℕ → ℕ → ℤ → Type 0
Between a b z = (n : ℕ) × (z ≡ pos n) × (a ≤ n) × (n ≤ b)

abbrev pub AtMost : ℕ → ℤ → Type 0
AtMost b (pos n) = n ≤ b
AtMost b (negsuc n) = Unit

pub between_lem : (a b : ℕ) (z : ℤ) → not (is_between (pos a) (pos b) z) ≡ false → Between a b z
between_lem a b (pos n) h = (n, refl, ground arith, ground arith)
between_lem a b (negsuc n) h = absurd (ground arith)

pub at_most_lem : (b : ℕ) (z : ℤ) → ltb_ℤ (pos b) z ≡ false → AtMost b z
at_most_lem b (pos n) h = ground arith
at_most_lem b (negsuc n) h = tt

dscp_lem :
    (g : Bool) (z : ℤ)
    → ltb_ℤ z (pos 0) ≡ false
    → (g && not (ltb_ℤ (pos 255) z)) ≡ true
    → Between 0 255 z
dscp_lem g (pos n) h k = (n, refl, ground arith, ground arith)
dscp_lem g (negsuc n) h k = absurd (ground arith)

-- Normal, and 0.1 seconds to a day.
pub record IsTimeout (t : IperfTime) : Type 0 where
  pub usecs_in : t.usecs < 1000000
  pub at_least : 100 * 1000 ≤ t.secs * 1000000 + t.usecs
  pub at_most : t.secs * 1000000 + t.usecs ≤ 86400 * 1000000

timeout_lem :
    (z : ℤ)
    → not (is_between (pos 100) (pos 86400000) z) ≡ false
    → IsTimeout (record { secs = pos_part z / 1000; usecs = pos_part z % 1000 * 1000 })
timeout_lem (pos n) h =
    let lo : 100 ≤ n = ground arith in
    let hi : n ≤ 86400000 = ground arith in
    record { usecs_in = omega arith; at_least = omega (arith, lo); at_most = omega (arith, hi) }
timeout_lem (negsuc n) h = absurd (ground arith)

module _ (D : Doubles) (r : Bool) where
  open D use {Double}

  abbrev pub IsInRange : Test D → Type 0
  IsInRange t =
      Between 1 65535 t.server_port
      × ((t.bind_port ≡ pos 0) ⊎ Between 1 65535 t.bind_port)
      × Between 0 86400 t.duration
      × Between 0 600 t.omit
      × AtMost 128 t.num_streams
      × AtMost (9 * 1024) t.mss
      × AtMost (512 * 1024 * 1024) t.socket_bufsize
      × Between 0 255 t.tos
      × ((t.burst ≡ pos 0) ⊎ Between 1 1000 t.burst)
      × ((t.idle_timeout ≡ pos 0) ⊎ Between 1 86400 t.idle_timeout)
      × IsTimeout t.rcv_timeout

  -- The values of --dscp are those of `parse_qos`, 0 to 255 or -1; `g` says that all so far were at
  -- most 255.
  abbrev after_net : NetOption D → Bool → Bool
  after_net (dscp n) g = g && not (ltb_ℤ (pos 255) n)
  after_net _ g = g

  abbrev after_option : CliOption D → Bool → Bool
  after_option (basic o) g = g
  after_option (load o) g = g
  after_option (net o) g = after_net o g
  after_option (run o) g = g

  abbrev InRange : Bool → Test D → Type 0
  InRange g t =
      Between 1 65535 t.server_port
      × ((t.bind_port ≡ pos 0) ⊎ Between 1 65535 t.bind_port)
      × Between 0 86400 t.duration
      × Between 0 600 t.omit
      × AtMost 128 t.num_streams
      × AtMost (9 * 1024) t.mss
      × AtMost (512 * 1024 * 1024) t.socket_bufsize
      × (g ≡ true → Between 0 255 t.tos)
      × ((t.burst ≡ pos 0) ⊎ Between 1 1000 t.burst)
      × ((t.idle_timeout ≡ pos 0) ⊎ Between 1 86400 t.idle_timeout)
      × IsTimeout t.rcv_timeout

  abbrev I : Bool → Parsing D → Type 0
  I g s = InRange g s.test

  burst_keeps :
      (g : Bool) (slash : Option ℤ) (s : Parsing D) (rate : ℕ)
      → I g s
      → Holds (I g) (load_option D r (bitrate slash rate) s)
  unfolding load_option
  burst_keeps g none s rate h = h
  burst_keeps g (some n) s rate h = elim (Bool-cases (not (is_between (pos 1) (pos 1000) n))) [
    | inl q ↦ rw (q) tt
    | inr q ↦
        rw (q) (h.0, h.1, h.2, h.3, h.4, h.5, h.6, h.7, inr (between_lem 1 1000 n q), h.9, h.10)
  ]

  limit_keeps :
      (g : Bool) (slash : Option Double) (s : Parsing D) (rate : ℕ)
      → I g s
      → Holds (I g) (load_option D r (server_bitrate_limit slash rate) s)
  unfolding load_option
  limit_keeps g none s rate h = h
  limit_keeps g (some x) s rate h = elim (Bool-cases (is_bad_interval D r x)) [
    | inl q ↦ rw (q) tt
    | inr q ↦ rw (q) h
  ]

  keeps_basic :
      (g : Bool) (o : BasicOption D) (s : Parsing D) → I g s → Holds (I g) (basic_option D r o s)
  unfolding basic_option iperf_set_test_role check_sender_has_retransmits set_protocol
  keeps_basic g (port n) s h =
      Holds-refuse (I g) (not (is_between (pos 1) (pos 65535) n)) ArgError.bad_port _
        λ e. (between_lem 1 65535 n e, h.1, h.2, h.3, h.4, h.5, h.6, h.7, h.8, h.9, h.10)
  keeps_basic g (format c) s h =
      Holds-refuse (I g) (not (is_unit_format D r c)) ArgError.bad_format _ λ e. h
  keeps_basic g (set_interval x) s h =
      Holds-refuse (I g) (is_bad_interval D r x) ArgError.interval _ λ e. h
  keeps_basic g BasicOption.daemon s h = h
  keeps_basic g BasicOption.one_off s h = h
  keeps_basic g BasicOption.verbose s h = h
  keeps_basic g json s h = h
  keeps_basic g BasicOption.json_stream s h = h
  keeps_basic g version s h = tt
  keeps_basic g server_role s h =
      Holds-refuse (I g) (is_role s.test.role client) ArgError.serv_client _ λ e. h
  keeps_basic g (client_role host device) s h =
      Holds-refuse (I g) (is_role s.test.role server) ArgError.serv_client _
        λ e. Holds-no_device D r (I g) device _ (h)
  keeps_basic g use_udp s h = h

  keeps_load :
      (g : Bool) (o : LoadOption D) (s : Parsing D) → I g s → Holds (I g) (load_option D r o s)
  unfolding load_option iperf_set_test_reverse iperf_set_test_bidirectional
      check_sender_has_retransmits
  keeps_load g (bitrate slash rate) s h = burst_keeps g slash s rate h
  keeps_load g (server_bitrate_limit slash rate) s h = limit_keeps g slash s rate h
  keeps_load g (time n) s h =
      Holds-refuse (I g) (not (is_between (pos 0) (pos 86400) n)) ArgError.duration _
        λ e. (h.0, h.1, between_lem 0 86400 n e, h.3, h.4, h.5, h.6, h.7, h.8, h.9, h.10)
  keeps_load g (LoadOption.bytes n) s h = h
  keeps_load g (blockcount n) s h = h
  keeps_load g (length n) s h = h
  keeps_load g (parallel n) s h =
      Holds-refuse (I g) (ltb_ℤ (pos 128) n) ArgError.num_streams _
        λ e. (h.0, h.1, h.2, h.3, at_most_lem 128 n e, h.5, h.6, h.7, h.8, h.9, h.10)
  keeps_load g LoadOption.reverse s h =
      Holds-refuse (I g) (s.test.bidirectional) ArgError.reverse_bidir _ λ e. h
  keeps_load g bidir s h = Holds-refuse (I g) (s.test.reverse) ArgError.reverse_bidir _ λ e. h
  keeps_load g (window n) s h =
      Holds-refuse (I g) (ltb_ℤ (pos (512 * 1024 * 1024)) n) ArgError.buf_size _ λ e.
        (h.0, h.1, h.2, h.3, h.4, h.5, at_most_lem (512 * 1024 * 1024) n e, h.7, h.8, h.9, h.10)

  keeps_net :
      (g : Bool) (o : NetOption D) (s : Parsing D)
      → I g s
      → Holds (I (after_net o g)) (net_option D r o s)
  unfolding net_option tos_option
  keeps_net g (bind host device) s h = Holds-no_device D r (I g) device _ (h)
  keeps_net g (client_port n) s h =
      Holds-refuse (I g) (not (is_between (pos 1) (pos 65535) n)) ArgError.bad_port _
        λ e. (h.0, inr (between_lem 1 65535 n e), h.2, h.3, h.4, h.5, h.6, h.7, h.8, h.9, h.10)
  keeps_net g (set_mss n) s h =
      Holds-refuse (I g) (ltb_ℤ (pos (9 * 1024)) n) ArgError.mss _
        λ e. (h.0, h.1, h.2, h.3, h.4, at_most_lem (9 * 1024) n e, h.6, h.7, h.8, h.9, h.10)
  keeps_net g NetOption.no_delay s h = h
  keeps_net g version4 s h = h
  keeps_net g version6 s h = h
  keeps_net g (NetOption.tos none) s h = tt
  keeps_net g (NetOption.tos (some n)) s h =
      Holds-refuse (I g) (not (is_between (pos 0) (pos 255) n)) ArgError.bad_tos _
        λ e. (h.0, h.1, h.2, h.3, h.4, h.5, h.6, λ _. between_lem 0 255 n e, h.8, h.9, h.10)
  keeps_net g (dscp n) s h =
      Holds-refuse (I (g && not (ltb_ℤ (pos 255) n))) (ltb_ℤ n (pos 0)) ArgError.bad_tos _
        λ e. (h.0, h.1, h.2, h.3, h.4, h.5, h.6, dscp_lem g n e, h.8, h.9, h.10)
  keeps_net g (NetOption.extra_data x) s h = h
  keeps_net g flowlabel s h = tt
  keeps_net g (xbind x) s h = h
  keeps_net g zerocopy s h = tt
  keeps_net g NetOption.repeating_payload s h = h
  keeps_net g (timestamps none) s h = h
  keeps_net g (timestamps (some x)) s h = h

  keeps_run :
      (g : Bool) (o : RunOption D) (s : Parsing D) → I g s → Holds (I g) (run_option D r o s)
  unfolding run_option
  keeps_run g (RunOption.omit n) s h =
      Holds-refuse (I g) (not (is_between (pos 0) (pos 600) n)) ArgError.omit _
        λ e. (h.0, h.1, h.2, between_lem 0 600 n e, h.4, h.5, h.6, h.7, h.8, h.9, h.10)
  keeps_run g (file x) s h = h
  keeps_run g (RunOption.idle_timeout n) s h =
      Holds-refuse (I g) (not (is_between (pos 1) (pos 86400) n)) ArgError.idle_timeout _
        λ e. (h.0, h.1, h.2, h.3, h.4, h.5, h.6, h.7, h.8, inr (between_lem 1 86400 n e), h.10)
  keeps_run g (RunOption.rcv_timeout n) s h =
      Holds-refuse (I g) (not (is_between (pos 100) (pos 86400000) n)) ArgError.rcv_timeout _
        λ e. (h.0, h.1, h.2, h.3, h.4, h.5, h.6, h.7, h.8, h.9, timeout_lem n e)
  keeps_run g affinity s h = tt
  keeps_run g (RunOption.title x) s h = h
  keeps_run g congestion s h = tt
  keeps_run g (RunOption.debug n) s h = h
  keeps_run g (RunOption.pidfile x) s h = h
  keeps_run g (RunOption.logfile x) s h = h
  keeps_run g RunOption.forceflush s h = h
  keeps_run g RunOption.get_server_output s h = h
  keeps_run g RunOption.udp_counters_64bit s h = h
  keeps_run g no_fq_socket_pacing s h = tt
  keeps_run g fq_rate s h = tt
  keeps_run g (RunOption.pacing_timer n) s h = h
  keeps_run g (RunOption.connect_timeout n) s h = h
  keeps_run g help s h = tt
  keeps_run g unknown s h = tt

  one_option-InRange :
      (o : CliOption D) (g : Bool) (s : Parsing D)
      → I g s
      → Holds (I (after_option o g)) (one_option D r o s)
  unfolding one_option
  one_option-InRange (basic o) g s h = keeps_basic g o s h
  one_option-InRange (load o) g s h = keeps_load g o s h
  one_option-InRange (net o) g s h = keeps_net g o s h
  one_option-InRange (run o) g s h = keeps_run g o s h

  -- Every value of --dscp is at most 255.
  abbrev pub dscp_fits : List (CliOption D) → Bool
  dscp_fits options = after_all after_option options true

  starts-InRange : I true (start D)
  unfolding start iperf_defaults
  starts-InRange = (
    (5201, refl, ground arith, ground arith),
    inl refl,
    (10, refl, ground arith, ground arith),
    (0, refl, ground arith, ground arith),
    ground arith,
    ground arith,
    ground arith,
    λ _. (0, refl, ground arith, ground arith),
    inl refl,
    inl refl,
    record { usecs_in = ground arith; at_least = ground arith; at_most = ground arith },
  )

  keep_lem :
      (g : Bool) (t : Test D) (b : ℤ) (n k : ℕ) (d : ℤ) (m : ℕ)
      → (d ≡ t.duration) ⊎ (d ≡ pos 0)
      → InRange g t
      → InRange g (record t {
        blksize = b;
        rate = n;
        bytes = k;
        duration = d;
        bitrate_limit_stats_per_interval = m;
      })
  keep_lem g t b n k d m (inl q) h = rw (q) h
  keep_lem g t b n k d m (inr q) h =
      rw (q)
        (h.0, h.1, (0, refl, ground arith, ground arith), h.3, h.4, h.5, h.6, h.7, h.8, h.9, h.10)

  -- Whatever the options, with values of --dscp of at most 255, after a successful parse the ports are
  -- from 1 to 65535 (a bind port may be unset), the duration is at most a day, the omitted time at
  -- most 600 seconds, at most 128 streams, an MSS of at most 9 KB, a buffer of at most 512 MB, a
  -- type of service of 0 to 255, a burst of 1 to 1000 or none, an idle timeout of at most a day or
  -- none, and a receive timeout of 0.1 seconds to a day, with less than a second of microseconds.
  pub parse_ranges :
      (file_size : Text → Option ℕ) (options : List (CliOption D)) (p : Parsing D)
      → dscp_fits options ≡ true
      → iperf_parse_arguments D file_size r options ≡ ok p
      → IsInRange p.test
  unfolding iperf_parse_arguments
  parse_ranges file_size options p fits e =
      let g = dscp_fits options in
      let h =
        Holds-ok (I g) (iperf_parse_arguments D file_size r options)
          (Holds-bind (I g) (I g) (all_options D r options (start D)) (check_all D file_size)
            (all_options-Moves D r after_option I one_option-InRange options true (start D)
              starts-InRange)
            (check_all-Holds D file_size (InRange g) (keep_lem g)))
          e in
      (h.0, h.1, h.2, h.3, h.4, h.5, h.6, h.7 fits, h.8, h.9, h.10)
