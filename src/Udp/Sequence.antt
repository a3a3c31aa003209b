-- ===== src/Udp/Sequence.antt =====
-- What the counters of the receiver say of the datagrams that arrived, in any order.
use expo_iperf.Common.{
  ℕ, zero, suc, ◌+◌, ◌^◌, ◌≤◌, ◌<◌, max, ◌≡◌, refl, sym, ap, ◌∙◌, ◌==◌, leb, if◌then◌else◌, List,
  [], ◌∷◌, length, All, arith, Bool-cases, inl, inr, ==_iff, leb→le,
}
use expo_iperf.Udp.{Counters, count_packet}

-- The sequence numbers of a test, one datagram after the other.
pub receive_all : List ℕ → Counters → Counters
receive_all [] c = c
receive_all (pcount ∷ rest) c = receive_all rest (count_packet pcount c)

abbrev pub fresh : Counters
fresh = record { packet_count = 0; cnt_error = 0; outoforder_packets = 0 }

abbrev pub count : ℕ → List ℕ → ℕ
count a [] = 0
count a (x ∷ xs) = (if x == a then 1 else 0) + count a xs

abbrev pub InRange : ℕ → List ℕ → Type 0
InRange m = All (λ x. (0 < x) × (x ≤ m))

abbrev pub highest : ℕ → List ℕ → ℕ
highest m [] = m
highest m (x ∷ xs) = highest (max m x) xs

-- The number of arrivals that are not above all before them.
abbrev pub late : ℕ → List ℕ → ℕ
late m [] = 0
late m (x ∷ xs) = (if leb x m then 1 else 0) + late (max m x) xs

-- The list without a number.
without : ℕ → List ℕ → List ℕ
without m [] = []
without m (x ∷ xs) = let rest = without m xs in if x == m then rest else x ∷ rest

length-without : (m : ℕ) (xs : List ℕ) → length (without m xs) + count m xs ≡ length xs
unfolding without
length-without m [] = refl
length-without m (x ∷ xs) = ground (arith, length-without m xs)

count-without : (a m : ℕ) (xs : List ℕ) → count a (without m xs) ≤ count a xs
unfolding without
count-without a m [] = omega arith
count-without a m (x ∷ xs) = ground (arith, count-without a m xs)

without-InRange : (m : ℕ) (xs : List ℕ) → InRange (suc m) xs → InRange m (without (suc m) xs)
unfolding without
without-InRange m [] h = tt
without-InRange m (x ∷ xs) h = ground (arith, without-InRange m xs)

-- Distinct numbers from 1 to `m` are at most `m` many.
pigeonhole : (m : ℕ) (xs : List ℕ) → ((a : ℕ) → count a xs ≤ 1) → InRange m xs → length xs ≤ m
pigeonhole zero [] d h = omega arith
pigeonhole zero (x ∷ xs) d h = absurd (omega arith)
pigeonhole (suc m) xs d h = omega (
  arith,
  length-without (suc m) xs,
  d (suc m),
  pigeonhole m (without (suc m) xs) (λ a. omega (arith, count-without a (suc m) xs, d a))
      (without-InRange m xs h),
)

InRange-max : (m p : ℕ) (xs : List ℕ) → InRange m xs → InRange (max m p) xs
InRange-max m p [] h = tt
InRange-max m p (x ∷ xs) h = ((h.0.0, omega arith), InRange-max m p xs h.1)

-- The counters behind the datagrams `seen`, of which `k` came late, where nothing wraps.
record Counted (seen : List ℕ) (m k : ℕ) (c : Counters) : Type 0 where
  top : c.packet_count ≡ m
  bounded : m < 2 ^ 63
  in_range : InRange m seen
  once : (a : ℕ) → count a seen ≤ 1
  lost : c.cnt_error + length seen ≡ m
  behind : c.outoforder_packets ≡ k
  some_behind : k ≤ length seen

module _ (seen : List ℕ) (m k p : ℕ) (c : Counters) (h : Counted seen m k c)
    (new : count p seen ≡ 0) (pos : 0 < p) (small : p < 2 ^ 63) where
  still_once : (a : ℕ) → count a (p ∷ seen) ≤ 1
  still_once a = elim (Bool-cases (p == a)) [
    | inl e ↦
        let absent : count a seen ≡ 0 = ap (λ x. count x seen) (sym ((==_iff p a).0 e)) ∙ new in
        rw e (omega (arith, absent))
    | inr e ↦ rw e (omega (arith, h.once a))
  ]

  room : p ≤ m → suc (length seen) ≤ m
  room le = pigeonhole m (p ∷ seen) still_once ((pos, le), h.in_range)

  lost_again : (count_packet p c).cnt_error + suc (length seen) ≡ max m p
  unfolding count_packet
  lost_again = elim (Bool-cases (leb p m)) [
    | inl e ↦ ground (arith, room (leb→le p m e))
    | inr e ↦ ground arith
  ]

  count_packet-Counted :
      Counted (p ∷ seen) (max m p) (k + (if leb p m then 1 else 0)) (count_packet p c)
  count_packet-Counted = record {
    top = unfold count_packet in ground arith;
    bounded = omega arith;
    in_range = ((pos, omega arith), InRange-max m p seen h.in_range);
    once = still_once;
    lost = lost_again;
    behind = unfold count_packet in ground (arith, length-le);
    some_behind = ground arith;
  }
    where
      length-le : length seen ≤ m
      length-le = omega arith

-- No datagram comes twice, none has come before, and all have a positive `int64_t` for a number.
abbrev pub New : List ℕ → List ℕ → Type 0
New seen [] = Unit
New seen (p ∷ rest) = (count p seen ≡ 0) × (0 < p) × (p < 2 ^ 63) × New (p ∷ seen) rest

receive_all-Counted :
    (arrivals seen : List ℕ) (m k : ℕ) (c : Counters)
    → Counted seen m k c
    → New seen arrivals
    → ((receive_all arrivals c).packet_count ≡ highest m arrivals)
      × ((receive_all arrivals c).cnt_error + (length arrivals + length seen) ≡ highest m arrivals)
      × ((receive_all arrivals c).outoforder_packets ≡ k + late m arrivals)
unfolding receive_all
receive_all-Counted [] seen m k c h n = (h.top, omega (arith, h.lost), omega (arith, h.behind))
receive_all-Counted (p ∷ rest) seen m k c h n =
    let (top, lost, behind) =
      receive_all-Counted rest (p ∷ seen) (max m p) (k + (if leb p m then 1 else 0))
        (count_packet p c) (count_packet-Counted seen m k p c h n.0 n.1 n.2) n.3 in
    (top, omega (arith, lost), omega (arith, behind))

-- Where no datagram arrives twice, the receiver's counters are exact for any order of arrival: the
-- highest number seen, as lost the numbers up to it that did not arrive, and as out of order the
-- arrivals that were not above all before them.
pub receive_all_lem :
    (arrivals : List ℕ)
    → New [] arrivals
    → let c = receive_all arrivals fresh in
      (c.packet_count ≡ highest 0 arrivals)
      × (c.cnt_error + length arrivals ≡ highest 0 arrivals)
      × (c.outoforder_packets ≡ late 0 arrivals)
receive_all_lem arrivals n =
    let (top, lost, behind) =
      receive_all-Counted arrivals [] 0 0 fresh
        (record {
          top = refl;
          bounded = omega arith;
          in_range = tt;
          once = λ a. omega arith;
          lost = refl;
          behind = refl;
          some_behind = omega arith;
        })
        n in
    (top, omega (arith, lost), omega (arith, behind))
