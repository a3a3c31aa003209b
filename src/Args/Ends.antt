-- ===== src/Args/Ends.antt =====
-- The role, the block size and the end condition that a successful parse leaves.
use expo_iperf.Common.{
  ◌*◌, ◌==◌, ℕ, if_both, inl, inr, Bool-cases, Bool, true, false, not, ◌&&◌, ◌||◌, ◌≡◌, zero, suc,
  true_not_false, ◌≢◌, ◌⊎◌, ◌≤◌, arith, refl, sym, ◌∙◌, List, Option, none, some,
}
use expo_iperf.Common.Int.{ℤ, negsuc, pos}
use expo_iperf.Double.{Doubles}
use expo_iperf.Args.{
  Role, unset, client, server, Protocol, tcp, udp, Parsing, block_size, udp_block_size,
  end_conditions, no_role, Text, ok, err, exits, Outcome, CliOption, is_role,
}
use expo_iperf.Args.Outcomes.{Holds, Holds-bind, Holds-refuse, Holds-ok}
use expo_iperf.Args.Parse.{
  start, check_roles, set_block_size, set_rate, default_rate, set_bytes, set_duration,
  check_end_conditions, set_limit_intervals, chosen_block_size, is_bad_block_size,
  is_bad_udp_block_size, has_no_end, ends_by_size, has_two_ends, has_no_role, size_of, or_bytes,
  check_all, iperf_parse_arguments,
}
use expo_iperf.Args.Options.{all_options}

-- 1 byte to 1 MB for TCP. For UDP the code lets 0 pass, which asks for a size from the MSS, and
-- every negative number.
abbrev pub IsBlockSize : Protocol → ℤ → Type 0
IsBlockSize tcp (pos n) = (1 ≤ n) × (n ≤ 1024 * 1024)
IsBlockSize tcp (negsuc n) = ⊥
IsBlockSize udp (pos n) = (n ≡ 0) ⊎ ((16 ≤ n) × (n ≤ 65507))
IsBlockSize udp (negsuc n) = Unit

block_size_lem :
    (p : Protocol) (z : ℤ)
    → is_bad_block_size p z ≡ false
    → is_bad_udp_block_size p z ≡ false
    → IsBlockSize p z
unfolding is_bad_block_size is_bad_udp_block_size
block_size_lem tcp (pos n) h k = ground arith
block_size_lem tcp (negsuc n) h k = ground arith
block_size_lem udp (pos n) h k = ground arith
block_size_lem udp (negsuc n) h k = tt

-- A test that ends by its bytes or by its blocks ends by nothing else.
abbrev pub HasOneEnd : ℕ → ℕ → ℤ → ℤ → Type 0
HasOneEnd m n d z = (m ≢ 0 → (n ≡ 0) × (d ≡ z)) × (n ≢ 0 → d ≡ z)

one_end :
    (m n : ℕ) (f : Bool) (d z : ℤ)
    → (f && not (m == 0) || f && not (n == 0) || not (m == 0) && not (n == 0)) ≡ false
    → (((not (m == 0) || not (n == 0)) && not f) ≡ true → d ≡ z)
    → HasOneEnd m n d z
one_end zero zero f d z h k = ground arith
one_end zero (suc n) f d z h k = ground arith
one_end (suc m) zero f d z h k = ground arith
one_end (suc m) (suc n) f d z h k = ground arith

set_role : (a : Role) → (not (is_role a client) && not (is_role a server)) ≡ false → a ≢ unset
set_role unset h e = true_not_false h
set_role client h e = absurd (cc)
set_role server h e = absurd (cc)

module _ (D : Doubles) (r : Bool) (file_size : Text → Option ℕ) where
  open D use {is_zero}

  abbrev Anything : Parsing D → Type 0
  Anything s = Unit

  anything : (m : Outcome (Parsing D)) → Holds Anything m
  anything (ok a) = tt
  anything (err e) = tt
  anything (exits n) = tt

  abbrev HasSize : Parsing D → Type 0
  HasSize s = IsBlockSize s.test.protocol s.test.blksize

  abbrev EndsBySize : Parsing D → Type 0
  EndsBySize s = HasSize s × (ends_by_size D file_size s ≡ true → s.test.duration ≡ pos 0)

  abbrev pub IsComplete : Parsing D → Type 0
  IsComplete s =
      HasSize s
      × HasOneEnd s.test.bytes s.test.blocks s.test.duration (pos 0)
      × (s.test.role ≢ unset)

  block_lem : (s : Parsing D) → Holds HasSize (set_block_size D s)
  unfolding set_block_size
  block_lem s =
      let n = chosen_block_size s.test.protocol s.block_size in
      Holds-refuse HasSize (is_bad_block_size s.test.protocol n) block_size _ λ a.
        Holds-refuse HasSize (is_bad_udp_block_size s.test.protocol n) udp_block_size _
          λ b. block_size_lem s.test.protocol n a b

  rate_lem : (s : Parsing D) → HasSize s → HasSize (set_rate D s)
  unfolding set_rate
  rate_lem s h =
      if_both HasSize s.rate_flag s
        (record s { test = record (s.test) { rate = default_rate D s.test.protocol } }) (λ _. h)
        λ _. h

  bytes_step :
      (o : Option ℕ) (s : Parsing D)
      → HasSize s
      → HasSize (record s { test = or_bytes D file_size o s.test })
  bytes_step none s h = h
  bytes_step (some n) s h = h

  bytes_lem : (s : Parsing D) → HasSize s → HasSize (set_bytes D file_size s)
  unfolding set_bytes
  bytes_lem s h =
      if_both HasSize (has_no_end D file_size s && is_role s.test.role client)
        (record s { test = or_bytes D file_size (size_of D file_size s.test.diskfile_name) s.test })
        s (λ _. bytes_step (size_of D file_size s.test.diskfile_name) s h) λ _. h

  duration_lem : (s : Parsing D) → HasSize s → EndsBySize (set_duration D file_size s)
  unfolding set_duration
  duration_lem s h =
      if_both EndsBySize (ends_by_size D file_size s)
        (record s { test = record (s.test) { duration = pos 0 } }) s (λ _. (h, λ _. refl))
        λ q. (h, λ e. absurd (true_not_false (sym e ∙ q)))

  end_lem : (s : Parsing D) → EndsBySize s → Holds IsComplete (check_end_conditions D file_size s)
  unfolding check_end_conditions
  end_lem s h = Holds-refuse IsComplete (has_two_ends D file_size s) end_conditions _ λ a.
      Holds-refuse IsComplete (has_no_role D file_size s) no_role _ λ b. (
        h.0,
        one_end s.test.bytes s.test.blocks s.duration_flag s.test.duration (pos 0) a (h.1),
        set_role s.test.role b,
      )

  limit_lem : (s : Parsing D) → IsComplete s → IsComplete (set_limit_intervals D file_size s)
  unfolding set_limit_intervals
  limit_lem s h = elim (Bool-cases (is_zero s.test.bitrate_limit_interval)) [
    | inl q ↦ rw (q) h
    | inr q ↦ rw (q) h
  ]

  check_all-IsComplete : (s : Parsing D) → Holds IsComplete (check_all D file_size s)
  unfolding check_all
  check_all-IsComplete s =
      Holds-bind Anything IsComplete (check_roles D s) _ (anything (check_roles D s)) λ a _.
        Holds-bind HasSize IsComplete (set_block_size D a) _ (block_lem a) λ b hb.
          Holds-bind IsComplete IsComplete
            (check_end_conditions D file_size
              (set_duration D file_size (set_bytes D file_size (set_rate D b))))
            _ (end_lem _ (duration_lem _ (bytes_lem _ (rate_lem b hb)))) (λ c hc. limit_lem c hc)

  -- Whatever the options, a successful parse leaves a role; a block size of 1 byte to 1 MB for TCP,
  -- and for UDP one of 16 to 65507, 0 or a negative number; and when a number of bytes is given
  -- or is the size of a file, no number of blocks and no duration, as when a number of blocks is,
  -- no duration.
  pub parse_ends :
      (options : List (CliOption D)) (p : Parsing D)
      → iperf_parse_arguments D file_size r options ≡ ok p
      → IsComplete p
  unfolding iperf_parse_arguments
  parse_ends options p e =
      Holds-ok IsComplete (iperf_parse_arguments D file_size r options)
        (Holds-bind Anything IsComplete (all_options D r options (start D)) (check_all D file_size)
          (anything (all_options D r options (start D))) (λ s _. check_all-IsComplete s))
        e
