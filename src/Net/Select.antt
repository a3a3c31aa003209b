-- ===== src/Net/Select.antt =====
-- `Nread` hands over what was delivered, in order, and stops reading at its deadline.
use expo_iperf.Common.{
  ℕ, ◌+◌, ◌-◌, ◌^◌, ◌≤◌, ◌<◌, ◌≡◌, ◌≢◌, refl, sym, ap, subst, true, ◌==◌, some, List, [], ◌∷◌, ◌++◌,
  arith, length, length-append, sub_u64, append_assoc, eq_nil_of_length, Ensures, Ensures-some,
  if_both,
}
use expo_iperf.Clock.{IperfTime}
use expo_iperf.Net.{
  stop, bytes, as_int, hard_error, ReadResult, got, read_failed, is_retry, Received, Selected,
  readable, timed_out, select_failed, Round, deadline, is_over, read_loop, nread,
}
use expo_iperf.Net.Recv.{delivered, IsHonest, shrink, as_int-count}

-- The reads of the rounds.
abbrev pub reads_of : List Round → List ReadResult
reads_of [] = []
reads_of (u ∷ rounds) = u.read ∷ reads_of rounds

pub record IsReadOf (count : ℕ) (all : List ℕ) (r : Received Round) : Type 0 where
  pub fits : length r.stored ≤ count
  pub counted : (n : ℕ) → r.result ≡ bytes n → n ≡ length r.stored
  pub in_order : all ≡ r.stored ++ delivered (reads_of r.to_come)

at_stop :
    (count nleft : ℕ) (stored all : List ℕ) (to_come : List Round)
    → count < 2 ^ 31
    → length stored + nleft ≡ count
    → all ≡ stored ++ delivered (reads_of to_come)
    → IsReadOf count all
        (record { result = as_int (sub_u64 count nleft); stored = stored; to_come = to_come })
at_stop count nleft stored all to_come small e q = record {
  fits = omega arith;
  counted = λ n c. as_int-count count nleft n (length stored) small e c;
  in_order = q;
}

at_error :
    (count nleft : ℕ) (stored all : List ℕ) (to_come : List Round)
    → length stored + nleft ≡ count
    → all ≡ stored ++ delivered (reads_of to_come)
    → IsReadOf count all (record { result = hard_error; stored = stored; to_come = to_come })
at_error count nleft stored all to_come e q = record {
  fits = omega arith;
  counted = λ n c. absurd (cc);
  in_order = q;
}

module _ (count : ℕ) (small : count < 2 ^ 31) where
  -- One round, by what its read and its `select` give.
  round-IsReadOf :
      (nleft : ℕ) (stored : List ℕ) (ftimeout now : IperfTime) (read : ReadResult)
      (select : Selected) (rounds : List Round)
      → length stored + nleft ≡ count
      → IsHonest nleft (read ∷ reads_of rounds)
      → ((nleft : ℕ) (stored : List ℕ) (ftimeout : IperfTime)
          → length stored + nleft ≡ count
          → IsHonest nleft (reads_of rounds)
          → Ensures
              (IsReadOf count (stored ++ delivered (reads_of rounds)))
              (read_loop count nleft stored ftimeout rounds))
      → let round : Round = record { read = read; now = now; select = select } in
        Ensures
          (IsReadOf count (stored ++ delivered (read ∷ reads_of rounds)))
          (read_loop count nleft stored ftimeout (round ∷ rounds))
  unfolding read_loop
  round-IsReadOf nleft stored ftimeout now (read_failed x) select rounds e h rec =
      let all = stored ++ delivered (reads_of rounds) in
      let round : Round = record { read = read_failed x; now = now; select = select } in
      if_both (Ensures (IsReadOf count all)) (nleft == 0) _ _
        (λ _. at_stop count nleft stored all (round ∷ rounds) small e refl)
        (λ _.
          if_both (Ensures (IsReadOf count all)) (is_retry x) _ _
            (λ _. at_stop count nleft stored all rounds small e refl)
            (λ _. at_error count nleft stored all rounds e refl))
  round-IsReadOf nleft stored ftimeout now (got xs r) select rounds e h rec =
      let all = stored ++ (xs ++ delivered (reads_of rounds)) in
      let round : Round = record { read = got xs r; now = now; select = select } in
      let stored' = stored ++ xs in
      let nleft' = sub_u64 nleft r in
      let left : nleft' ≡ nleft - length xs = shrink nleft r (length xs) (omega arith) h.0 h.1 in
      let e' : length stored' + nleft' ≡ count = omega (arith, length-append stored xs, left) in
      let q : all ≡ stored' ++ delivered (reads_of rounds) =
        sym (append_assoc stored xs (delivered (reads_of rounds))) in
      if_both (Ensures (IsReadOf count all)) (nleft == 0) _ _
        (λ _. at_stop count nleft stored all (round ∷ rounds) small e refl)
        (λ _.
          if_both (Ensures (IsReadOf count all)) (r == 0) _ _
            (λ z. at_stop count nleft stored all rounds small e (
              ap (λ ys. stored ++ (ys ++ delivered (reads_of rounds)))
                (eq_nil_of_length xs (ground arith))))
            (λ _.
              if_both (Ensures (IsReadOf count all)) (nleft' == 0) _ _
                (λ _. at_stop count nleft' stored' all rounds small e' q)
                (λ _.
                  if_both (Ensures (IsReadOf count all)) (is_over (deadline ftimeout now) now) _ _
                    (λ _. at_stop count nleft' stored' all rounds small e' q)
                    (λ _.
                      elim select
                        as (λ s. Ensures (IsReadOf count all) (elim s [
                          | select_failed ↦ stop hard_error stored' rounds
                          | timed_out ↦ stop (as_int (sub_u64 count nleft')) stored' rounds
                          | readable ↦ read_loop count nleft' stored' (deadline ftimeout now) rounds
                        ])) [
                          | select_failed ↦ at_error count nleft' stored' all rounds e' q
                          | timed_out ↦ at_stop count nleft' stored' all rounds small e' q
                          | readable ↦
                              subst
                                (λ a.
                                  Ensures (IsReadOf count a)
                                    (read_loop count nleft' stored' (deadline ftimeout now) rounds))
                                (sym q)
                                (rec nleft' stored' (deadline ftimeout now) e' (rw left h.2))
                        ]))))

  read_loop-IsReadOf :
      (nleft : ℕ) (stored : List ℕ) (ftimeout : IperfTime) (rounds : List Round)
      → length stored + nleft ≡ count
      → IsHonest nleft (reads_of rounds)
      → Ensures
          (IsReadOf count (stored ++ delivered (reads_of rounds)))
          (read_loop count nleft stored ftimeout rounds)
  unfolding read_loop
  read_loop-IsReadOf nleft stored ftimeout [] e h =
      if_both (Ensures (IsReadOf count (stored ++ []))) (nleft == 0) _ _
        (λ _. at_stop count nleft stored (stored ++ []) [] small e refl) (λ _. tt)
  read_loop-IsReadOf nleft stored ftimeout (u ∷ rounds) e h =
      round-IsReadOf nleft stored ftimeout u.now u.read u.select rounds e h
        (λ n s f. read_loop-IsReadOf n s f rounds)

-- For fewer than 2 ^ 31 bytes, and where `read` keeps to POSIX, the bytes that `Nread` stores are the first ones delivered, in order
-- and none twice; they fit into the buffer, and a number that is returned counts them.
pub nread-IsReadOf :
    (count : ℕ) (first : Selected) (rounds : List Round) {r : Received Round}
    → count < 2 ^ 31
    → IsHonest count (reads_of rounds)
    → nread count first rounds ≡ some r
    → IsReadOf count (delivered (reads_of rounds)) r
unfolding nread
nread-IsReadOf count select_failed rounds small h q =
    Ensures-some (IsReadOf count (delivered (reads_of rounds)))
      (some (record { result = hard_error; stored = []; to_come = rounds }))
      (at_error count count [] (delivered (reads_of rounds)) rounds (omega arith) refl) q
nread-IsReadOf count timed_out rounds small h q =
    Ensures-some (IsReadOf count (delivered (reads_of rounds)))
      (some (record { result = bytes 0; stored = []; to_come = rounds }))
      (record { fits = omega arith; counted = λ n c. ground arith; in_order = refl }) q
nread-IsReadOf count readable rounds small h q =
    Ensures-some (IsReadOf count (delivered (reads_of rounds)))
      (read_loop count count [] (record { secs = 0; usecs = 0 }) rounds)
      (read_loop-IsReadOf count small count [] (record { secs = 0; usecs = 0 }) rounds (omega arith)
        h)
      q

-- A time past the deadline of `Nread` ends it: behind a round whose clock stands after the deadline,
-- no further call is made, whatever comes.
pub nread_deadline :
    (count nleft : ℕ) (stored : List ℕ) (ftimeout : IperfTime) (u : Round) (rounds : List Round)
    {r : Received Round}
    → nleft ≢ 0
    → ftimeout.secs ≢ 0
    → is_over ftimeout u.now ≡ true
    → read_loop count nleft stored ftimeout (u ∷ rounds) ≡ some r
    → r.to_come ≡ rounds
unfolding read_loop
nread_deadline count nleft stored ftimeout u rounds {r} nz set over q = ends u.read refl
  where
    ends : (x : ReadResult) → u.read ≡ x → r.to_come ≡ rounds
    ends (got xs k) e = ground arith
    ends (read_failed x) e = ground arith
