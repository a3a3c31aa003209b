-- ===== src/Args/Direction.antt =====
-- The direction of the test, which the role and two options that may come in any order determine.
use expo_iperf.Common.{
  ◌*◌, ℕ, inl, inr, Bool-cases, Bool, true, false, not, ◌&&◌, ◌≡◌, refl, sym, ap, ◌∙◌, List, [],
  Option, none, some,
}
use expo_iperf.Common.Int.{ℤ, pos, ltb_ℤ}
use expo_iperf.Double.{Doubles}
use expo_iperf.Args.{
  Role, unset, client, server, Mode, sender, receiver, bidirectional, Protocol, udp, Test, Parsing,
  BasicOption, port, format, set_interval, json, version, server_role, use_udp, client_role,
  LoadOption, bitrate, server_bitrate_limit, time, blockcount, length, parallel, window, bidir,
  NetOption, bind, client_port, set_mss, dscp, version4, version6, flowlabel, zerocopy, xbind,
  timestamps, RunOption, file, affinity, congestion, no_fq_socket_pacing, fq_rate, help, unknown,
  Text, ok, CliOption, basic, load, net, run, is_receiver, is_tcp, is_role, is_between, ArgError,
}
use expo_iperf.Args.Outcomes.{Holds, Holds-bind, Holds-refuse, Holds-ok}
use expo_iperf.Args.Steps.{Holds-no_device, all_options-Moves, after_all}
use expo_iperf.Args.Parse.{start, iperf_defaults, check_all, iperf_parse_arguments}
use expo_iperf.Args.Frame.{check_all-Holds}
use expo_iperf.Args.Options.{
  check_sender_has_retransmits, role_mode, iperf_set_test_role, iperf_set_test_reverse,
  iperf_set_test_bidirectional, set_protocol, basic_option, load_option, net_option, tos_option,
  run_option, one_option, all_options, is_bad_interval, is_unit_format,
}

abbrev pub wanted_mode : Role → Bool → Bool → Mode
wanted_mode role reverse true = bidirectional
wanted_mode client false false = sender
wanted_mode client true false = receiver
wanted_mode server false false = receiver
wanted_mode server true false = sender
wanted_mode unset reverse false = receiver

role_mode-client :
    (reverse bidir : Bool) (m : Mode)
    → (reverse && bidir) ≡ false
    → role_mode client reverse bidir m ≡ wanted_mode client reverse bidir
unfolding role_mode
role_mode-client true true m h = absurd (cc)
role_mode-client true false m h = refl
role_mode-client false true m h = refl
role_mode-client false false m h = refl

role_mode-server :
    (reverse bidir : Bool) (m : Mode)
    → (reverse && bidir) ≡ false
    → role_mode server reverse bidir m ≡ wanted_mode server reverse bidir
unfolding role_mode
role_mode-server true true m h = absurd (cc)
role_mode-server true false m h = refl
role_mode-server false true m h = refl
role_mode-server false false m h = refl

role_mode-reverse :
    (role : Role) (reverse : Bool) (m : Mode)
    → m ≡ wanted_mode role reverse false
    → role_mode role true false m ≡ wanted_mode role true false
unfolding role_mode
role_mode-reverse unset reverse m h = h
role_mode-reverse client reverse m h = refl
role_mode-reverse server reverse m h = refl

-- What the options of a command line ask for, so far.
pub record Asked : Type 0 where
  pub role : Role
  pub reverse : Bool
  pub bidirectional : Bool

module _ (D : Doubles) (r : Bool) where
  open D use {Double}

  -- `mode` is the wanted one, and a client knows whether the sender counts retransmissions.
  abbrev pub IsDirected : Test D → Type 0
  IsDirected t =
      ((t.reverse && t.bidirectional) ≡ false)
      × (t.mode ≡ wanted_mode t.role t.reverse t.bidirectional)
      × (t.role ≡ client
          → t.sender_has_retransmits ≡ (not (is_receiver t.mode) && (is_tcp t.protocol && r)))

  client-IsDirected : (t : Test D) → IsDirected t → IsDirected (iperf_set_test_role D r client t)
  unfolding check_sender_has_retransmits iperf_set_test_role
  client-IsDirected t h = (h.0, role_mode-client t.reverse t.bidirectional t.mode (h.0), λ e. refl)

  server-IsDirected : (t : Test D) → IsDirected t → IsDirected (iperf_set_test_role D r server t)
  unfolding check_sender_has_retransmits iperf_set_test_role
  server-IsDirected t h = (h.0, role_mode-server t.reverse t.bidirectional t.mode (h.0), λ e. refl)

  reverse-IsDirected :
      (t : Test D)
      → t.bidirectional ≡ false
      → IsDirected t
      → IsDirected (iperf_set_test_reverse D r true t)
  unfolding iperf_set_test_reverse check_sender_has_retransmits
  reverse-IsDirected t b h = (
    b,
    role_mode-reverse t.role t.reverse t.mode (rw b at h.1) ∙ ap (wanted_mode t.role true) (sym b),
    λ e. refl,
  )

  client_sends :
      (t : Test D)
      → t.reverse ≡ false
      → t.role ≡ client
      → IsDirected t
      → (not (is_receiver t.mode) && (is_tcp t.protocol && r)) ≡ (is_tcp t.protocol && r)
  client_sends t b e h = elim (Bool-cases t.bidirectional) [
    | inl q ↦ rw (h.1, e, b, q)
    | inr q ↦ rw (h.1, e, b, q)
  ]

  bidir-IsDirected :
      (t : Test D)
      → t.reverse ≡ false
      → IsDirected t
      → IsDirected (iperf_set_test_bidirectional D r true t)
  unfolding iperf_set_test_bidirectional
  bidir-IsDirected t b h = (rw b, refl, λ e. h.2 e ∙ client_sends t b e h)

  protocol-IsDirected :
      (t : Test D) (p : Protocol) → IsDirected t → IsDirected (set_protocol D r p t)
  unfolding set_protocol check_sender_has_retransmits
  protocol-IsDirected t p h = (h.0, h.1, λ e. refl)

  -- The options one by one.
  abbrev after_basic : BasicOption D → Asked → Asked
  after_basic server_role g = record g { role = server }
  after_basic (client_role host device) g = record g { role = client }
  after_basic _ g = g

  abbrev after_load : LoadOption D → Asked → Asked
  after_load LoadOption.reverse g = record g { reverse = true }
  after_load bidir g = record g { bidirectional = true }
  after_load _ g = g

  abbrev after_option : CliOption D → Asked → Asked
  after_option (basic o) g = after_basic o g
  after_option (load o) g = after_load o g
  after_option (net o) g = g
  after_option (run o) g = g

  -- What a command line asks for.
  abbrev pub asked : List (CliOption D) → Asked
  asked options =
      after_all after_option options
        (record { role = unset; reverse = false; bidirectional = false })

  abbrev pub IsAsked : Asked → Test D → Type 0
  IsAsked g t = (t.role ≡ g.role) × (t.reverse ≡ g.reverse) × (t.bidirectional ≡ g.bidirectional)

  abbrev I : Asked → Parsing D → Type 0
  I g s = IsDirected s.test × IsAsked g s.test

  burst_keeps :
      (g : Asked) (slash : Option ℤ) (s : Parsing D) (rate : ℕ)
      → I g s
      → Holds (I g) (load_option D r (bitrate slash rate) s)
  unfolding load_option
  burst_keeps g none s rate h = h
  burst_keeps g (some n) s rate h = elim (Bool-cases (is_between (pos 1) (pos 1000) n)) [
    | inl q ↦ rw (q) h
    | inr q ↦ rw (q) tt
  ]

  limit_keeps :
      (g : Asked) (slash : Option Double) (s : Parsing D) (rate : ℕ)
      → I g s
      → Holds (I g) (load_option D r (server_bitrate_limit slash rate) s)
  unfolding load_option
  limit_keeps g none s rate h = h
  limit_keeps g (some x) s rate h = elim (Bool-cases (is_bad_interval D r x)) [
    | inl q ↦ rw (q) tt
    | inr q ↦ rw (q) h
  ]

  keeps_basic :
      (g : Asked) (o : BasicOption D) (s : Parsing D)
      → I g s
      → Holds (I (after_basic o g)) (basic_option D r o s)
  unfolding basic_option iperf_set_test_role set_protocol check_sender_has_retransmits
  keeps_basic g (port n) s h =
      Holds-refuse (I g) (not (is_between (pos 1) (pos 65535) n)) ArgError.bad_port _ λ e. h
  keeps_basic g (format c) s h =
      Holds-refuse (I g) (not (is_unit_format D r c)) ArgError.bad_format _ λ e. h
  keeps_basic g (set_interval x) s h =
      Holds-refuse (I g) (is_bad_interval D r x) ArgError.interval _ λ e. h
  keeps_basic g BasicOption.daemon s h = h
  keeps_basic g BasicOption.one_off s h = h
  keeps_basic g BasicOption.verbose s h = h
  keeps_basic g json s h = h
  keeps_basic g BasicOption.json_stream s h = h
  keeps_basic g version s h = tt
  keeps_basic g server_role s h =
      Holds-refuse (I (record g { role = server })) (is_role s.test.role client)
        ArgError.serv_client _ λ e. (server-IsDirected s.test h.0, (refl, h.1.1, h.1.2))
  keeps_basic g (client_role host device) s h =
      Holds-refuse (I (record g { role = client })) (is_role s.test.role server)
        ArgError.serv_client _
        λ e.
          Holds-no_device D r (I (record g { role = client })) device _
            (client-IsDirected s.test h.0, (refl, h.1.1, h.1.2))
  keeps_basic g use_udp s h = (protocol-IsDirected s.test udp h.0, h.1)

  keeps_load :
      (g : Asked) (o : LoadOption D) (s : Parsing D)
      → I g s
      → Holds (I (after_load o g)) (load_option D r o s)
  unfolding load_option iperf_set_test_reverse iperf_set_test_bidirectional
      check_sender_has_retransmits
  keeps_load g (bitrate slash rate) s h = burst_keeps g slash s rate h
  keeps_load g (server_bitrate_limit slash rate) s h = limit_keeps g slash s rate h
  keeps_load g (time n) s h =
      Holds-refuse (I g) (not (is_between (pos 0) (pos 86400) n)) ArgError.duration _ λ e. h
  keeps_load g (LoadOption.bytes n) s h = h
  keeps_load g (blockcount n) s h = h
  keeps_load g (length n) s h = h
  keeps_load g (parallel n) s h =
      Holds-refuse (I g) (ltb_ℤ (pos 128) n) ArgError.num_streams _ λ e. h
  keeps_load g LoadOption.reverse s h =
      Holds-refuse (I (record g { reverse = true })) (s.test.bidirectional) ArgError.reverse_bidir _
        λ e. (reverse-IsDirected s.test e h.0, (h.1.0, refl, h.1.2))
  keeps_load g bidir s h =
      Holds-refuse (I (record g { bidirectional = true })) (s.test.reverse) ArgError.reverse_bidir _
        λ e. (bidir-IsDirected s.test e h.0, (h.1.0, h.1.1, refl))
  keeps_load g (window n) s h =
      Holds-refuse (I g) (ltb_ℤ (pos (512 * 1024 * 1024)) n) ArgError.buf_size _ λ e. h

  keeps_net :
      (g : Asked) (o : NetOption D) (s : Parsing D) → I g s → Holds (I g) (net_option D r o s)
  unfolding net_option tos_option
  keeps_net g (bind host device) s h = Holds-no_device D r (I g) device _ (h)
  keeps_net g (client_port n) s h =
      Holds-refuse (I g) (not (is_between (pos 1) (pos 65535) n)) ArgError.bad_port _ λ e. h
  keeps_net g (set_mss n) s h = Holds-refuse (I g) (ltb_ℤ (pos (9 * 1024)) n) ArgError.mss _ λ e. h
  keeps_net g NetOption.no_delay s h = h
  keeps_net g version4 s h = h
  keeps_net g version6 s h = h
  keeps_net g (NetOption.tos none) s h = tt
  keeps_net g (NetOption.tos (some n)) s h =
      Holds-refuse (I g) (not (is_between (pos 0) (pos 255) n)) ArgError.bad_tos _ λ e. h
  keeps_net g (dscp n) s h = Holds-refuse (I g) (ltb_ℤ n (pos 0)) ArgError.bad_tos _ λ e. h
  keeps_net g (NetOption.extra_data x) s h = h
  keeps_net g flowlabel s h = tt
  keeps_net g (xbind x) s h = h
  keeps_net g zerocopy s h = tt
  keeps_net g NetOption.repeating_payload s h = h
  keeps_net g (timestamps none) s h = h
  keeps_net g (timestamps (some x)) s h = h

  keeps_run :
      (g : Asked) (o : RunOption D) (s : Parsing D) → I g s → Holds (I g) (run_option D r o s)
  unfolding run_option
  keeps_run g (RunOption.omit n) s h =
      Holds-refuse (I g) (not (is_between (pos 0) (pos 600) n)) ArgError.omit _ λ e. h
  keeps_run g (file x) s h = h
  keeps_run g (RunOption.idle_timeout n) s h =
      Holds-refuse (I g) (not (is_between (pos 1) (pos 86400) n)) ArgError.idle_timeout _ λ e. h
  keeps_run g (RunOption.rcv_timeout n) s h =
      Holds-refuse (I g) (not (is_between (pos 100) (pos 86400000) n)) ArgError.rcv_timeout _ λ e. h
  keeps_run g affinity s h = tt
  keeps_run g (RunOption.title x) s h = h
  keeps_run g congestion s h = tt
  keeps_run g (RunOption.debug n) s h = h
  keeps_run g (RunOption.pidfile x) s h = h
  keeps_run g (RunOption.logfile x) s h = h
  keeps_run g RunOption.forceflush s h = h
  keeps_run g RunOption.get_server_output s h = h
  keeps_run g RunOption.udp_counters_64bit s h = h
  keeps_run g no_fq_socket_pacing s h = tt
  keeps_run g fq_rate s h = tt
  keeps_run g (RunOption.pacing_timer n) s h = h
  keeps_run g (RunOption.connect_timeout n) s h = h
  keeps_run g help s h = tt
  keeps_run g unknown s h = tt

  one_option-IsDirected :
      (o : CliOption D) (g : Asked) (s : Parsing D)
      → I g s
      → Holds (I (after_option o g)) (one_option D r o s)
  unfolding one_option
  one_option-IsDirected (basic o) g s h = keeps_basic g o s h
  one_option-IsDirected (load o) g s h = keeps_load g o s h
  one_option-IsDirected (net o) g s h = keeps_net g o s h
  one_option-IsDirected (run o) g s h = keeps_run g o s h

  starts-IsDirected : I (asked []) (start D)
  unfolding start iperf_defaults
  starts-IsDirected = ((refl, refl, λ e. absurd (cc)), (refl, refl, refl))

  -- Whatever the options and their order, a successful parse leaves the role of the last option that
  -- names one, `reverse` just where -R was given and `bidirectional` just where --bidir was, never
  -- both; `mode` is what the manual promises for these three; and a client that sends over TCP
  -- reports retransmissions where the platform counts them.
  pub parse_direction :
      (file_size : Text → Option ℕ) (options : List (CliOption D)) (p : Parsing D)
      → iperf_parse_arguments D file_size r options ≡ ok p
      → IsDirected p.test × IsAsked (asked options) p.test
  unfolding iperf_parse_arguments
  parse_direction file_size options p e =
      let g = asked options in
      Holds-ok (I g) (iperf_parse_arguments D file_size r options)
        (Holds-bind (I g) (I g) (all_options D r options (start D)) (check_all D file_size)
          (all_options-Moves D r after_option I one_option-IsDirected options (asked []) (start D)
            starts-IsDirected)
          (check_all-Holds D file_size (λ t. IsDirected t × IsAsked g t) (λ t b n k d m _ h. h)))
        e
