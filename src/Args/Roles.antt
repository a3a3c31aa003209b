-- ===== src/Args/Roles.antt =====
-- Options that only a client or only a server takes: the flags that record them, and what the other
-- role is left with.
use expo_iperf.Common.{
  ◌*◌, ℕ, inl, inr, Bool-cases, Bool, false, not, ◌≡◌, refl, List, Option, none, some,
}
use expo_iperf.Common.Int.{ℤ, negsuc, pos, ltb_ℤ}
use expo_iperf.Double.{Doubles}
use expo_iperf.Args.{
  Switches, client, server, tcp, Test, Parsing, BasicOption, port, format, set_interval, json,
  version, server_role, use_udp, client_role, LoadOption, bitrate, server_bitrate_limit, time,
  blockcount, length, parallel, window, bidir, NetOption, bind, client_port, set_mss, dscp,
  version4, version6, flowlabel, zerocopy, xbind, timestamps, RunOption, file, affinity, congestion,
  no_fq_socket_pacing, fq_rate, help, unknown, CliOption, is_role, is_between, ArgError,
}
use expo_iperf.Args.Outcomes.{Holds, Holds-refuse}
use expo_iperf.Args.Steps.{Holds-no_device, all_options-Holds}
use expo_iperf.Args.Parse.{default_tcp_blksize, start, iperf_defaults, no_switches}
use expo_iperf.Args.Options.{
  check_sender_has_retransmits, iperf_set_test_role, set_protocol, basic_option, load_option,
  net_option, tos_option, run_option, all_options, is_bad_interval, is_unit_format,
}

module _ (D : Doubles) (r : Bool) where
  open D use {Double, of_ℕ}

  -- Settings that only a client chooses have the values of `iperf_defaults`.
  abbrev pub HasFixedDefaults : Test D → Type 0
  HasFixedDefaults t =
      (t.reverse ≡ false)
      × (t.bidirectional ≡ false)
      × (t.protocol ≡ tcp)
      × (t.omit ≡ pos 0)
      × (t.num_streams ≡ pos 1)
      × (t.socket_bufsize ≡ pos 0)
      × (t.mss ≡ pos 0)
      × (t.tos ≡ pos 0)
      × (t.burst ≡ pos 0)
      × (t.pacing_timer ≡ pos 1000)
      × (t.connect_timeout ≡ negsuc 0)

  -- So have the switches that only a client sets.
  abbrev pub HasDefaultSwitches : Switches D → Type 0
  HasDefaultSwitches w =
      (w.no_delay ≡ false)
      × (w.repeating_payload ≡ false)
      × (w.extra_data ≡ none)
      × (w.title ≡ none)
      × (w.get_server_output ≡ false)

  -- The same with those that the checks behind the loop may write, and the local variables.
  abbrev pub HasClientDefaults : Parsing D → Type 0
  HasClientDefaults s =
      HasFixedDefaults s.test
      × (s.test.bytes ≡ 0)
      × (s.test.blocks ≡ 0)
      × (s.test.duration ≡ pos 10)
      × (s.test.rate ≡ 0)
      × (s.test.blksize ≡ default_tcp_blksize)
      × (s.duration_flag ≡ false)
      × (s.rate_flag ≡ false)
      × (s.block_size ≡ pos 0)
      × HasDefaultSwitches s.switches

  -- The same for the settings of a server.
  abbrev pub HasServerDefaults : Parsing D → Type 0
  HasServerDefaults s =
      (s.test.bitrate_limit ≡ 0)
      × (s.test.bitrate_limit_interval ≡ of_ℕ 5)
      × (s.test.idle_timeout ≡ pos 0)
      × (s.switches.daemon ≡ false)
      × (s.switches.one_off ≡ false)

  -- What the two flags are for.
  abbrev pub I : Parsing D → Type 0
  I s =
      (s.client_flag ≡ false → HasClientDefaults s) × (s.server_flag ≡ false → HasServerDefaults s)

  burst_keeps :
      (slash : Option ℤ) (s : Parsing D) (rate : ℕ)
      → I s
      → Holds I (load_option D r (bitrate slash rate) s)
  unfolding load_option
  burst_keeps none s rate h = (λ e. absurd (cc), h.1)
  burst_keeps (some n) s rate h = elim (Bool-cases (is_between (pos 1) (pos 1000) n)) [
    | inl q ↦ rw (q) (λ e. absurd (cc), h.1)
    | inr q ↦ rw (q) tt
  ]

  limit_keeps :
      (slash : Option Double) (s : Parsing D) (rate : ℕ)
      → I s
      → Holds I (load_option D r (server_bitrate_limit slash rate) s)
  unfolding load_option
  limit_keeps none s rate h = (h.0, λ e. absurd (cc))
  limit_keeps (some x) s rate h = elim (Bool-cases (is_bad_interval D r x)) [
    | inl q ↦ rw (q) tt
    | inr q ↦ rw (q) (h.0, λ e. absurd (cc))
  ]

  keeps_basic : (o : BasicOption D) (s : Parsing D) → I s → Holds I (basic_option D r o s)
  unfolding basic_option iperf_set_test_role check_sender_has_retransmits set_protocol
  keeps_basic (port n) s h =
      Holds-refuse I (not (is_between (pos 1) (pos 65535) n)) ArgError.bad_port _ λ e. h
  keeps_basic (format c) s h =
      Holds-refuse I (not (is_unit_format D r c)) ArgError.bad_format _ λ e. h
  keeps_basic (set_interval x) s h =
      Holds-refuse I (is_bad_interval D r x) ArgError.interval _ λ e. h
  keeps_basic BasicOption.daemon s h = (h.0, λ c. absurd (cc))
  keeps_basic BasicOption.one_off s h = (h.0, λ c. absurd (cc))
  keeps_basic BasicOption.verbose s h = h
  keeps_basic json s h = h
  keeps_basic BasicOption.json_stream s h = h
  keeps_basic version s h = tt
  keeps_basic server_role s h =
      Holds-refuse I (is_role s.test.role client) ArgError.serv_client _ λ e. h
  keeps_basic (client_role host device) s h =
      Holds-refuse I (is_role s.test.role server) ArgError.serv_client _
        λ e. Holds-no_device D r I device _ (h)
  keeps_basic use_udp s h = (λ c. absurd (cc), h.1)

  keeps_load : (o : LoadOption D) (s : Parsing D) → I s → Holds I (load_option D r o s)
  unfolding load_option
  keeps_load (bitrate slash rate) s h = burst_keeps slash s rate h
  keeps_load (server_bitrate_limit slash rate) s h = limit_keeps slash s rate h
  keeps_load (time n) s h =
      Holds-refuse I (not (is_between (pos 0) (pos 86400) n)) ArgError.duration _
        λ e. (λ c. absurd (cc), h.1)
  keeps_load (LoadOption.bytes n) s h = (λ c. absurd (cc), h.1)
  keeps_load (blockcount n) s h = (λ c. absurd (cc), h.1)
  keeps_load (length n) s h = (λ c. absurd (cc), h.1)
  keeps_load (parallel n) s h =
      Holds-refuse I (ltb_ℤ (pos 128) n) ArgError.num_streams _ λ e. (λ c. absurd (cc), h.1)
  keeps_load LoadOption.reverse s h =
      Holds-refuse I (s.test.bidirectional) ArgError.reverse_bidir _ λ e. (λ c. absurd (cc), h.1)
  keeps_load bidir s h =
      Holds-refuse I (s.test.reverse) ArgError.reverse_bidir _ λ e. (λ c. absurd (cc), h.1)
  keeps_load (window n) s h =
      Holds-refuse I (ltb_ℤ (pos (512 * 1024 * 1024)) n) ArgError.buf_size _
        λ e. (λ c. absurd (cc), h.1)

  keeps_net : (o : NetOption D) (s : Parsing D) → I s → Holds I (net_option D r o s)
  unfolding net_option tos_option
  keeps_net (bind host device) s h = Holds-no_device D r I device _ (h)
  keeps_net (client_port n) s h =
      Holds-refuse I (not (is_between (pos 1) (pos 65535) n)) ArgError.bad_port _ λ e. h
  keeps_net (set_mss n) s h =
      Holds-refuse I (ltb_ℤ (pos (9 * 1024)) n) ArgError.mss _ λ e. (λ c. absurd (cc), h.1)
  keeps_net NetOption.no_delay s h = (λ c. absurd (cc), h.1)
  keeps_net version4 s h = h
  keeps_net version6 s h = h
  keeps_net (NetOption.tos none) s h = tt
  keeps_net (NetOption.tos (some n)) s h =
      Holds-refuse I (not (is_between (pos 0) (pos 255) n)) ArgError.bad_tos _
        λ e. (λ c. absurd (cc), h.1)
  keeps_net (dscp n) s h =
      Holds-refuse I (ltb_ℤ n (pos 0)) ArgError.bad_tos _ λ e. (λ c. absurd (cc), h.1)
  keeps_net (NetOption.extra_data x) s h = (λ c. absurd (cc), h.1)
  keeps_net flowlabel s h = tt
  keeps_net (xbind x) s h = h
  keeps_net zerocopy s h = tt
  keeps_net NetOption.repeating_payload s h = (λ c. absurd (cc), h.1)
  keeps_net (timestamps none) s h = h
  keeps_net (timestamps (some x)) s h = h

  keeps_run : (o : RunOption D) (s : Parsing D) → I s → Holds I (run_option D r o s)
  unfolding run_option
  keeps_run (RunOption.omit n) s h =
      Holds-refuse I (not (is_between (pos 0) (pos 600) n)) ArgError.omit _
        λ e. (λ c. absurd (cc), h.1)
  keeps_run (file x) s h = h
  keeps_run (RunOption.idle_timeout n) s h =
      Holds-refuse I (not (is_between (pos 1) (pos 86400) n)) ArgError.idle_timeout _
        λ e. (h.0, λ c. absurd (cc))
  keeps_run (RunOption.rcv_timeout n) s h =
      Holds-refuse I (not (is_between (pos 100) (pos 86400000) n)) ArgError.rcv_timeout _ λ e. h
  keeps_run affinity s h = tt
  keeps_run (RunOption.title x) s h = (λ c. absurd (cc), h.1)
  keeps_run congestion s h = tt
  keeps_run (RunOption.debug n) s h = h
  keeps_run (RunOption.pidfile x) s h = h
  keeps_run (RunOption.logfile x) s h = h
  keeps_run RunOption.forceflush s h = h
  keeps_run RunOption.get_server_output s h = (λ c. absurd (cc), h.1)
  keeps_run RunOption.udp_counters_64bit s h = h
  keeps_run no_fq_socket_pacing s h = tt
  keeps_run fq_rate s h = tt
  keeps_run (RunOption.pacing_timer n) s h = (λ c. absurd (cc), h.1)
  keeps_run (RunOption.connect_timeout n) s h = (λ c. absurd (cc), h.1)
  keeps_run help s h = tt
  keeps_run unknown s h = tt

  pub all_options-flags :
      (options : List (CliOption D)) (s : Parsing D) → I s → Holds I (all_options D r options s)
  all_options-flags = all_options-Holds D r I keeps_basic keeps_load keeps_net keeps_run

  pub starts-flags : I (start D)
  unfolding start iperf_defaults no_switches
  starts-flags = (
    λ _. (
      (refl, refl, refl, refl, refl, refl, refl, refl, refl, refl, refl),
      refl,
      refl,
      refl,
      refl,
      refl,
      refl,
      refl,
      refl,
      (refl, refl, refl, refl, refl),
    ),
    λ _. (refl, refl, refl, refl, refl),
  )
