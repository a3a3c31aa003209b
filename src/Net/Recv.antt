-- ===== src/Net/Recv.antt =====
-- `Nrecv_no_select` hands over what the operating system delivered, in order.
use expo_iperf.Common.{
  ℕ, ◌+◌, ◌-◌, ◌^◌, ◌≤◌, ◌<◌, ◌≡◌, refl, ap, sym, ◌∙◌, true, false, ◌==◌, some, List, [], ◌∷◌, ◌++◌,
  arith, length, length-append, sub_u64, append_assoc, eq_nil_of_length, subst, Bool-cases, Ensures,
  Ensures-some, if_both, inl, inr,
}
use expo_iperf.Net.{
  bytes, as_int, NetResult, stop, ReadResult, got, read_failed, is_retry, Received, recv_loop,
  nrecv_no_select,
}

-- All bytes that the calls deliver.
abbrev pub delivered : List ReadResult → List ℕ
delivered [] = []
delivered (got xs r ∷ reads) = xs ++ delivered reads
delivered (read_failed e ∷ reads) = delivered reads

-- What POSIX says of `read(fd, buf, nleft)`: it stores the bytes that it counts, at most `nleft`.
abbrev pub IsHonest : ℕ → List ReadResult → Type 0
IsHonest nleft [] = Unit
IsHonest nleft (got xs r ∷ reads) =
    (r ≡ length xs) × (length xs ≤ nleft) × IsHonest (nleft - length xs) reads
IsHonest nleft (read_failed e ∷ reads) = IsHonest nleft reads

-- What is stored is counted, fits, and with what was not read makes up what is delivered.
pub record IsPrefixOf (count : ℕ) (all : List ℕ) (r : Received ReadResult) : Type 0 where
  pub fits : length r.stored ≤ count
  pub counted : (n : ℕ) → r.result ≡ bytes n → n ≡ length r.stored
  pub in_order : all ≡ r.stored ++ delivered r.to_come

-- A number below 2 ^ 31 is returned as it is.
pub as_int-small : (n : ℕ) → n < 2 ^ 31 → as_int n ≡ bytes n
unfolding as_int
as_int-small n h = ground arith

pub as_int-count :
    (count nleft n k : ℕ)
    → count < 2 ^ 31
    → k + nleft ≡ count
    → as_int (sub_u64 count nleft) ≡ bytes n
    → n ≡ k
as_int-count count nleft n k small e c =
    let left : sub_u64 count nleft ≡ k = omega arith in
    ground (arith, sym (as_int-small (sub_u64 count nleft) (omega (arith, left))) ∙ c, left)

-- The final state of the loop, from what was stored before.
pub prefix :
    (count nleft : ℕ) (stored all : List ℕ) (to_come : List ReadResult)
    → count < 2 ^ 31
    → length stored + nleft ≡ count
    → all ≡ stored ++ delivered to_come
    → IsPrefixOf count all
        (record { result = as_int (sub_u64 count nleft); stored = stored; to_come = to_come })
prefix count nleft stored all to_come small e q = record {
  fits = omega arith;
  counted = λ n c. as_int-count count nleft n (length stored) small e c;
  in_order = q;
}

pub shrink : (n r k : ℕ) → n < 2 ^ 31 → r ≡ k → k ≤ n → sub_u64 n r ≡ n - k
shrink n r k small e h = omega arith

-- Every call delivers something.
abbrev pub Flows : List ReadResult → Type 0
Flows [] = Unit
Flows (got xs r ∷ reads) = (0 < length xs) × Flows reads
Flows (read_failed e ∷ reads) = ⊥

module _ (count : ℕ) (small : count < 2 ^ 31) where
  recv_loop-IsPrefixOf :
      (nleft : ℕ) (stored : List ℕ) (reads : List ReadResult)
      → length stored + nleft ≡ count
      → IsHonest nleft reads
      → Ensures
          (IsPrefixOf count (stored ++ delivered reads))
          (recv_loop false count nleft stored reads)
  unfolding recv_loop
  recv_loop-IsPrefixOf nleft stored [] e h =
      if_both (Ensures (IsPrefixOf count (stored ++ []))) (nleft == 0) _ _
        (λ _. prefix count nleft stored (stored ++ []) [] small e refl) (λ _. tt)
  recv_loop-IsPrefixOf nleft stored (got xs r ∷ reads) e h =
      let all = stored ++ (xs ++ delivered reads) in
      if_both (Ensures (IsPrefixOf count all)) (nleft == 0) _ _
        (λ _. prefix count nleft stored all (got xs r ∷ reads) small e refl)
        (λ _.
          if_both (Ensures (IsPrefixOf count all)) (r == 0) _ _
            (λ z.
              prefix count nleft stored all reads small e
                (ap (λ ys. stored ++ (ys ++ delivered reads)) (eq_nil_of_length xs (ground arith))))
            (λ _. rw (shrink nleft r (length xs) (omega arith) h.0 h.1) (
              subst
                (λ a.
                  Ensures (IsPrefixOf count a)
                    (recv_loop false count (nleft - length xs) (stored ++ xs) reads))
                (append_assoc stored xs (delivered reads))
                (recv_loop-IsPrefixOf (nleft - length xs) (stored ++ xs) reads
                  (omega (arith, length-append stored xs)) h.2))))
  recv_loop-IsPrefixOf nleft stored (read_failed x ∷ reads) e h =
      let all = stored ++ delivered reads in
      if_both (Ensures (IsPrefixOf count all)) (nleft == 0) _ _
        (λ _. prefix count nleft stored all (read_failed x ∷ reads) small e refl)
        (λ _.
          if_both (Ensures (IsPrefixOf count all)) (is_retry x) _ _
            (λ _. prefix count nleft stored all reads small e refl)
            (λ _. record { fits = omega arith; counted = λ n c. absurd (cc); in_order = refl }))

  -- Nothing is left.
  whole : (nleft : ℕ) → nleft ≡ 0 → as_int (sub_u64 count nleft) ≡ bytes count
  whole nleft z =
      let all : sub_u64 count nleft ≡ count = omega arith in
      ap as_int all ∙ as_int-small count small

  recv_loop_full :
      (nleft : ℕ) (stored : List ℕ) (reads : List ReadResult)
      → nleft ≤ count
      → IsHonest nleft reads
      → Flows reads
      → nleft ≤ length (delivered reads)
      → (r : Received ReadResult) × (recv_loop false count nleft stored reads ≡ some r)
        × (r.result ≡ bytes count)
  unfolding recv_loop
  recv_loop_full nleft stored [] le h f enough =
      let z : nleft ≡ 0 = omega arith in
      let yes : (nleft == 0) ≡ true = ground arith in
      (
        record { result = bytes count; stored = stored; to_come = [] },
        rw yes (ap (λ (n : NetResult). stop n stored []) (whole nleft z)),
        refl,
      )
  recv_loop_full nleft stored (got xs r ∷ reads) le h f enough = elim (Bool-cases (nleft == 0)) [
    | inl z ↦ (
      record { result = bytes count; stored = stored; to_come = got xs r ∷ reads },
      rw z (ap (λ (n : NetResult). stop n stored (got xs r ∷ reads)) (whole nleft (ground arith))),
      refl,
    )
    | inr m ↦
        let (res, e, q) =
          recv_loop_full (nleft - length xs) (stored ++ xs) reads (omega arith) h.2 f.1
            (omega (arith, length-append xs (delivered reads))) in
        let nz : (r == 0) ≡ false = ground arith in
        (res, rw (m, nz, shrink nleft r (length xs) (omega arith) h.0 h.1) e, q)
  ]
  recv_loop_full nleft stored (read_failed x ∷ reads) le h f enough = absurd f

-- For fewer than 2 ^ 31 bytes, and where `read` keeps to POSIX, the bytes that `Nrecv_no_select` stores are the first ones delivered,
-- in order and none twice; they fit into the buffer, and a number that is returned counts them.
pub nrecv_no_select-IsPrefixOf :
    (count : ℕ) (reads : List ReadResult) {r : Received ReadResult}
    → count < 2 ^ 31
    → IsHonest count reads
    → nrecv_no_select false count reads ≡ some r
    → IsPrefixOf count (delivered reads) r
unfolding nrecv_no_select
nrecv_no_select-IsPrefixOf count reads small h e =
    Ensures-some (IsPrefixOf count (delivered reads)) (recv_loop false count count [] reads)
      (recv_loop-IsPrefixOf count small count [] reads (omega arith) h) e

-- For fewer than 2 ^ 31 bytes, where every read delivers something and together they deliver enough, it returns all that was
-- asked for.
pub nrecv_no_select_full :
    (count : ℕ) (reads : List ReadResult)
    → count < 2 ^ 31
    → IsHonest count reads
    → Flows reads
    → count ≤ length (delivered reads)
    → (r : Received ReadResult) × (nrecv_no_select false count reads ≡ some r)
      × (r.result ≡ bytes count)
unfolding nrecv_no_select
nrecv_no_select_full count reads small h f enough =
    recv_loop_full count small count [] reads (omega arith) h f enough
