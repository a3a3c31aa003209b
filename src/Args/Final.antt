-- ===== src/Args/Final.antt =====
-- The role that parsing ends with, and the defaults that it leaves the other role's settings at.
use expo_iperf.Common.{
  ◌==◌, ℕ, if_both, inl, inr, Bool-cases, Bool, true, false, not, ◌&&◌, ◌||◌, ◌≡◌, refl, ap, List,
  Option, none, some,
}
use expo_iperf.Common.Int.{ℤ, pos}
use expo_iperf.Double.{Doubles}
use expo_iperf.Args.{
  Role, unset, client, server, Protocol, tcp, Parsing, server_only, client_only, udp_file_transfer,
  block_size, udp_block_size, end_conditions, no_role, Text, ok, CliOption, is_role,
}
use expo_iperf.Args.Outcomes.{Holds, Holds-bind, Holds-refuse, Holds-ok}
use expo_iperf.Args.Parse.{
  default_tcp_blksize, start, check_roles, set_block_size, set_rate, default_rate, set_bytes,
  set_duration, check_end_conditions, set_limit_intervals, has_server_flag, has_client_flag,
  sends_file_by_udp, chosen_block_size, is_bad_block_size, is_bad_udp_block_size, has_no_end,
  ends_by_size, has_two_ends, has_no_role, size_of, or_bytes, check_all, iperf_parse_arguments,
}
use expo_iperf.Args.Roles.{I, HasClientDefaults, HasServerDefaults, all_options-flags, starts-flags}
use expo_iperf.Args.Options.{all_options}

and_right : (a b : Bool) → (a && b) ≡ true → b ≡ true
and_right true b h = h
and_right false b h = absurd (cc)

client_not_server : (a : Role) → is_role a client ≡ true → a ≡ server → ⊥
client_not_server unset h e = absurd (cc)
client_not_server client h e = absurd (cc)
client_not_server server h e = absurd (cc)

no_end_by_size :
    (m n : ℕ) (b : Bool) → m ≡ 0 → n ≡ 0 → ((not (m == 0) || not (n == 0)) && b) ≡ false
no_end_by_size m n b h k = rw (h, k) refl

module _ (D : Doubles) (r : Bool) (file_size : Text → Option ℕ) where
  open D use {is_zero}

  -- A server has no setting of a client, and a client none of a server.
  abbrev pub K : Parsing D → Type 0
  K s =
      (s.test.role ≡ server → HasClientDefaults D r s)
      × (s.test.role ≡ client → HasServerDefaults D r s)

  roles_lem : (s : Parsing D) → I D r s → Holds K (check_roles D s)
  unfolding check_roles
  roles_lem s h = Holds-refuse K (has_server_flag D s) server_only _ λ a.
      Holds-refuse K (has_client_flag D s) client_only _ λ b.
        Holds-refuse K (sends_file_by_udp D s) udp_file_transfer _
          λ _. (λ e. h.0 (rw e at b), λ e. h.1 (rw e at a))

  default_chosen :
      (p : Protocol) (n : ℤ) → p ≡ tcp → n ≡ pos 0 → chosen_block_size p n ≡ default_tcp_blksize
  unfolding chosen_block_size
  default_chosen p n e q = rw (e, q) refl

  block_lem : (s : Parsing D) → K s → Holds K (set_block_size D s)
  unfolding set_block_size
  block_lem s h =
      let n = chosen_block_size s.test.protocol s.block_size in
      Holds-refuse K (is_bad_block_size s.test.protocol n) block_size _ λ _.
        Holds-refuse K (is_bad_udp_block_size s.test.protocol n) udp_block_size _ λ _. (
          λ e. (
            (h.0 e).0,
            (h.0 e).1,
            (h.0 e).2,
            (h.0 e).3,
            (h.0 e).4,
            default_chosen s.test.protocol s.block_size ((h.0 e).0.2) ((h.0 e).8),
            (h.0 e).6,
            (h.0 e).7,
            (h.0 e).8,
            (h.0 e).9,
          ),
          h.1,
        )

  rate_lem : (s : Parsing D) → K s → K (set_rate D s)
  unfolding set_rate
  rate_lem s h =
      if_both K s.rate_flag s
        (record s { test = record (s.test) { rate = default_rate D s.test.protocol } }) (λ _. h)
        λ _. (
          λ e. (
            (h.0 e).0,
            (h.0 e).1,
            (h.0 e).2,
            (h.0 e).3,
            ap (default_rate D) ((h.0 e).0.2),
            (h.0 e).5,
            (h.0 e).6,
            (h.0 e).7,
            (h.0 e).8,
            (h.0 e).9,
          ),
          h.1,
        )

  bytes_step :
      (o : Option ℕ) (s : Parsing D)
      → is_role s.test.role client ≡ true
      → K s
      → K (record s { test = or_bytes D file_size o s.test })
  bytes_step none s q h = h
  bytes_step (some n) s q h = (λ e. absurd (client_not_server s.test.role q e), h.1)

  bytes_lem : (s : Parsing D) → K s → K (set_bytes D file_size s)
  unfolding set_bytes
  bytes_lem s h =
      if_both K (has_no_end D file_size s && is_role s.test.role client)
        (record s { test = or_bytes D file_size (size_of D file_size s.test.diskfile_name) s.test })
        s
        (λ q.
          bytes_step (size_of D file_size s.test.diskfile_name) s
            (and_right (has_no_end D file_size s) (is_role s.test.role client) q) h)
        λ _. h

  ends_lem : (s : Parsing D) → HasClientDefaults D r s → ends_by_size D file_size s ≡ true → ⊥
  ends_lem s h q =
      let k = no_end_by_size s.test.bytes s.test.blocks (not s.duration_flag) (h.1) (h.2) in
      absurd (cc)

  duration_lem : (s : Parsing D) → K s → K (set_duration D file_size s)
  unfolding set_duration
  duration_lem s h =
      if_both K (ends_by_size D file_size s)
        (record s { test = record (s.test) { duration = pos 0 } }) s
        (λ q. (λ e. absurd (ends_lem s (h.0 e) q), h.1)) λ _. h

  end_lem : (s : Parsing D) → K s → Holds K (check_end_conditions D file_size s)
  unfolding check_end_conditions
  end_lem s h =
      Holds-refuse K (has_two_ends D file_size s) end_conditions _
        λ _. Holds-refuse K (has_no_role D file_size s) no_role _ λ _. h

  limit_lem : (s : Parsing D) → K s → K (set_limit_intervals D file_size s)
  unfolding set_limit_intervals
  limit_lem s h = elim (Bool-cases (is_zero s.test.bitrate_limit_interval)) [
    | inl q ↦ rw (q) h
    | inr q ↦ rw (q) h
  ]

  pub check_all-K : (s : Parsing D) → I D r s → Holds K (check_all D file_size s)
  unfolding check_all
  check_all-K s h = Holds-bind K K (check_roles D s) _ (roles_lem s h) λ a ha.
      Holds-bind K K (set_block_size D a) _ (block_lem a ha) λ b hb.
        Holds-bind K K
          (check_end_conditions D file_size
            (set_duration D file_size (set_bytes D file_size (set_rate D b))))
          _ (end_lem _ (duration_lem _ (bytes_lem _ (rate_lem b hb)))) (λ c hc. limit_lem c hc)

  -- Whatever the options and their order, when a parse succeeds as a server, every setting whose
  -- option counts as a client's, and what is computed from them, has its default value, and when it
  -- succeeds as a client, every setting of a server has: a mixture is refused. Of the options that
  -- the usage text lists as a client's, --cport, -4, -6 and --udp-counters-64bit do not count as
  -- such, and a server may have them.
  pub parse_roles :
      (options : List (CliOption D)) (p : Parsing D)
      → iperf_parse_arguments D file_size r options ≡ ok p
      → (p.test.role ≡ server → HasClientDefaults D r p)
        × (p.test.role ≡ client → HasServerDefaults D r p)
  unfolding iperf_parse_arguments
  parse_roles options p e =
      Holds-ok K (iperf_parse_arguments D file_size r options)
        (Holds-bind (I D r) K (all_options D r options (start D)) (check_all D file_size)
          (all_options-flags D r options (start D) (starts-flags D r)) check_all-K)
        e
