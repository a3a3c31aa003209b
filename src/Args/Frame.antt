-- ===== src/Args/Frame.antt =====
-- The checks behind the loop over the options write five fields of the test and no other.
use expo_iperf.Common.{refl, ◌⊎◌, inl, inr, Bool-cases, ◌&&◌, ℕ, ◌≡◌, Option, none, some, if_both}
use expo_iperf.Common.Int.{ℤ, pos}
use expo_iperf.Double.{Doubles}
use expo_iperf.Args.{
  server_only, client_only, udp_file_transfer, block_size, udp_block_size, end_conditions, no_role,
  Text, Test, Parsing, is_role, client,
}
use expo_iperf.Args.Outcomes.{Holds, Holds-bind, Holds-refuse}
use expo_iperf.Args.Parse.{
  has_server_flag, has_client_flag, sends_file_by_udp, chosen_block_size, is_bad_block_size,
  is_bad_udp_block_size, has_no_end, ends_by_size, limit_intervals, has_two_ends, has_no_role,
  check_roles, set_block_size, set_rate, size_of, or_bytes, set_bytes, set_duration,
  check_end_conditions, set_limit_intervals, check_all,
}

module _ (D : Doubles) (file_size : Text → Option ℕ) (I : Test D → Type 0)
    (keep : (t : Test D) (blksize : ℤ) (rate bytes : ℕ) (duration : ℤ) (stats : ℕ)
      → (duration ≡ t.duration) ⊎ (duration ≡ pos 0)
      → I t
      → I (record t {
        blksize = blksize;
        rate = rate;
        bytes = bytes;
        duration = duration;
        bitrate_limit_stats_per_interval = stats;
      })) where
  open D use {is_zero}

  abbrev J : Parsing D → Type 0
  J s = I s.test

  roles_lem : (s : Parsing D) → J s → Holds J (check_roles D s)
  unfolding check_roles
  roles_lem s h = Holds-refuse J (has_server_flag D s) server_only _ λ _.
      Holds-refuse J (has_client_flag D s) client_only _
        λ _. Holds-refuse J (sends_file_by_udp D s) udp_file_transfer _ λ _. h

  block_lem : (s : Parsing D) → J s → Holds J (set_block_size D s)
  unfolding set_block_size
  block_lem s h =
      let n = chosen_block_size s.test.protocol s.block_size in
      Holds-refuse J (is_bad_block_size s.test.protocol n) block_size _ λ _.
        Holds-refuse J (is_bad_udp_block_size s.test.protocol n) udp_block_size _ λ _.
          keep s.test _ s.test.rate s.test.bytes s.test.duration
            s.test.bitrate_limit_stats_per_interval (inl refl) h

  rate_lem : (s : Parsing D) → J s → J (set_rate D s)
  unfolding set_rate
  rate_lem s h =
      if_both J s.rate_flag _ _ (λ e. h)
        λ e.
          keep s.test s.test.blksize _ s.test.bytes s.test.duration
            s.test.bitrate_limit_stats_per_interval (inl refl) h

  bytes_step : (o : Option ℕ) (t : Test D) → I t → I (or_bytes D file_size o t)
  bytes_step none t h = h
  bytes_step (some n) t h =
      keep t t.blksize t.rate n t.duration t.bitrate_limit_stats_per_interval (inl refl) h

  bytes_lem : (s : Parsing D) → J s → J (set_bytes D file_size s)
  unfolding set_bytes
  bytes_lem s h = elim (Bool-cases (has_no_end D file_size s && is_role s.test.role client)) [
    | inl q ↦ rw (q) (bytes_step (size_of D file_size s.test.diskfile_name) s.test h)
    | inr q ↦ rw (q) h
  ]

  duration_lem : (s : Parsing D) → J s → J (set_duration D file_size s)
  unfolding set_duration
  duration_lem s h = elim (Bool-cases (ends_by_size D file_size s)) [
    | inl q ↦ rw (q) (
        keep s.test s.test.blksize s.test.rate s.test.bytes (pos 0)
          s.test.bitrate_limit_stats_per_interval (inr refl) h)
    | inr q ↦ rw (q) h
  ]

  end_lem : (s : Parsing D) → J s → Holds J (check_end_conditions D file_size s)
  unfolding check_end_conditions
  end_lem s h =
      Holds-refuse J (has_two_ends D file_size s) end_conditions _
        λ _. Holds-refuse J (has_no_role D file_size s) no_role _ λ _. h

  limit_lem : (s : Parsing D) → J s → J (set_limit_intervals D file_size s)
  unfolding set_limit_intervals
  limit_lem s h = elim (Bool-cases (is_zero s.test.bitrate_limit_interval)) [
    | inl q ↦ rw (q) h
    | inr q ↦ rw (q) (
        keep s.test s.test.blksize s.test.rate s.test.bytes s.test.duration
          (limit_intervals D file_size s) (inl refl) h)
  ]

  pub check_all-Holds : (s : Parsing D) → J s → Holds J (check_all D file_size s)
  unfolding check_all
  check_all-Holds s h = Holds-bind J J _ _ (roles_lem s h) λ a ha.
      Holds-bind J J _ _ (block_lem a ha) λ b hb.
        Holds-bind J J _ _ (end_lem _ (duration_lem _ (bytes_lem _ (rate_lem b hb))))
          (λ c hc. limit_lem c hc)
