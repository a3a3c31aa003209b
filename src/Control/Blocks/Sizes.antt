-- ===== src/Control/Blocks/Sizes.antt =====
-- The size of the datagrams, from the command line to the connection.
use expo_iperf.Common.{
  ℕ, zero, suc, ◌≡◌, ◌≤◌, ◌⊎◌, inl, inr, refl, subst, sym, arith, Bool, false, not, ◌&&◌, if_both,
  ap, ◌∙◌, Option, none, some, List,
}
use expo_iperf.Common.Int.{ℤ, pos, negsuc, ltb_ℤ}
use expo_iperf.Double.{Doubles}
use expo_iperf.Args.{udp, Parsing, ok, Text, CliOption}
use expo_iperf.Args.Parse.{iperf_parse_arguments}
use expo_iperf.Args.Ends.{IsBlockSize, parse_ends}
use expo_iperf.Control.Blocks.{
  BlockChoice, max_udp_blocksize, connect_blksize, control_mss, choose_blksize,
}

-- The size that was asked for is kept; or none was, the size is the MSS, where it is known, or 1460,
-- and no warning is given.
abbrev pub FitsDatagram : ℤ → BlockChoice → Type 0
FitsDatagram asked c =
    (b : ℕ) × (c.blksize ≡ pos b)
    × (1 ≤ b)
    × (b ≤ 65507)
    × (((asked ≡ pos b) × (16 ≤ b))
        ⊎ ((asked ≡ pos 0)
            × (c.is_warned ≡ false)
            × ((c.ctrl_sck_mss ≡ pos b) ⊎ ((c.ctrl_sck_mss ≡ pos 0) × (b ≡ 1460)))))

abbrev IsMss : ℤ → Type 0
IsMss z = (m : ℕ) × (z ≡ pos m) × (m ≤ 65507)

control_mss-IsMss : (answer : Option ℤ) → IsMss (control_mss answer)
unfolding control_mss
control_mss-IsMss none = (0, refl, omega arith)
control_mss-IsMss (some (negsuc n)) = (0, ground arith, omega arith)
control_mss-IsMss (some (pos n)) =
    if_both IsMss (ltb_ℤ (pos 0) (pos n) && not (ltb_ℤ max_udp_blocksize (pos n))) (pos n) (pos 0)
      (λ e. (n, refl, ground (arith, e))) (λ _. (0, refl, omega arith))

asked_lem : (m n : ℕ) → 16 ≤ n → choose_blksize udp (pos m) (pos n) ≡ pos n
unfolding choose_blksize
asked_lem m n h = ground arith

known_lem : (m : ℕ) → 1 ≤ m → choose_blksize udp (pos m) (pos 0) ≡ pos m
unfolding choose_blksize
known_lem m h = ground arith

unknown_lem : choose_blksize udp (pos 0) (pos 0) ≡ pos 1460
unfolding choose_blksize
unknown_lem = refl

same_not_below : (m : ℕ) → (ltb_ℤ (pos 0) (pos m) && ltb_ℤ (pos m) (pos m)) ≡ false
same_not_below m = ground arith

abbrev choice : ℤ → ℤ → BlockChoice
choice mss chosen = record {
  ctrl_sck_mss = mss;
  blksize = chosen;
  is_warned = ltb_ℤ (pos 0) mss && ltb_ℤ mss chosen;
}

abbrev chosen_by : ℤ → ℤ → BlockChoice
chosen_by mss n = choice mss (choose_blksize udp mss n)

fits_lem :
    (m n : ℕ)
    → m ≤ 65507
    → IsBlockSize udp (pos n)
    → FitsDatagram (pos n) (chosen_by (pos m) (pos n))
fits_lem m n h (inr (lo, hi)) = (n, asked_lem m n lo, omega (arith, lo), hi, inl (refl, lo))
fits_lem zero n h (inl e) =
    subst (λ k. FitsDatagram (pos k) (chosen_by (pos 0) (pos k))) (sym e)
      (1460, unknown_lem, omega arith, omega arith, inr (refl, refl, inr (refl, refl)))
fits_lem (suc m) n h (inl e) =
    subst (λ k. FitsDatagram (pos k) (chosen_by (pos (suc m)) (pos k))) (sym e)
      (
        suc m,
        known_lem (suc m) (omega arith),
        omega arith,
        h,
        inr (
          refl,
          ap (λ z. ltb_ℤ (pos 0) (pos (suc m)) && ltb_ℤ (pos (suc m)) z)
                (known_lem (suc m) (omega arith))
              ∙ same_not_below (suc m),
          inl refl,
        ),
      )

not_negative :
    (answer : Option ℤ) (n : ℤ)
    → ltb_ℤ n (pos 0) ≡ false
    → IsBlockSize udp n
    → FitsDatagram n (connect_blksize answer udp n)
unfolding connect_blksize
not_negative answer (negsuc n) h k = ground (arith, h)
not_negative answer (pos n) h k =
    let (m, e, most) = control_mss-IsMss answer in
    subst (λ z. FitsDatagram (pos n) (chosen_by z (pos n))) (sym e) (fits_lem m n most k)

module _ (D : Doubles) (r : Bool) (file_size : Text → Option ℕ) where
  -- For a command line that is accepted, for UDP and with no negative block size: whatever
  -- getsockopt says of the MSS, behind iperf_connect a block has 1 to 65507 bytes. A size that was
  -- asked for has 16 bytes or more, and is kept; where none was, it is the MSS, or 1460 where the
  -- MSS is not known, and no warning is given.
  pub connect_blksize-FitsDatagram :
      (options : List (CliOption D)) (p : Parsing D) (answer : Option ℤ)
      → iperf_parse_arguments D file_size r options ≡ ok p
      → p.test.protocol ≡ udp
      → ltb_ℤ p.test.blksize (pos 0) ≡ false
      → FitsDatagram p.test.blksize (connect_blksize answer p.test.protocol p.test.blksize)
  connect_blksize-FitsDatagram options p answer e is_udp positive =
      let size = (parse_ends D r file_size options p e).0 in
      subst (λ q. FitsDatagram p.test.blksize (connect_blksize answer q p.test.blksize))
        (sym is_udp)
        (not_negative answer p.test.blksize positive
          (subst (λ q. IsBlockSize q p.test.blksize) is_udp size))
