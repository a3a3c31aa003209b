-- ===== src/Net/Write.antt =====
-- `Nwrite` sends a prefix of the buffer, and what it returns says which, but for two errors.
use expo_iperf.Common.{
  sub_u64, ℕ, zero, suc, ◌+◌, ◌-◌, ◌^◌, ◌≤◌, ◌<◌, ◌≡◌, refl, ap, sym, ◌∙◌, false, if◌then◌else◌,
  Bool-cases, inl, inr, ◌==◌, subst, some, List, [], ◌∷◌, ◌++◌, arith, length, length-append,
  append_assoc, append-nil, take, drop, take-append-drop, length-take, length-drop, Ensures,
  Ensures-some, if_both,
}
use expo_iperf.Net.Recv.{as_int-small, as_int-count}
use expo_iperf.Net.{
  as_int, eintr, eagain, ewouldblock, enobufs, other, bytes, soft_error, WriteResult, wrote,
  write_failed, Written, write_loop, nwrite,
}

-- What POSIX says of `write(fd, buf, nleft)`: it takes at most `nleft` bytes.
abbrev pub IsModest : ℕ → List WriteResult → Type 0
IsModest nleft [] = Unit
IsModest nleft (wrote r ∷ writes) = (r ≤ nleft) × IsModest (nleft - r) writes
IsModest nleft (write_failed e ∷ writes) = IsModest nleft writes

-- The number of bytes that the calls take.
abbrev pub taken : List WriteResult → ℕ
taken [] = 0
taken (wrote r ∷ writes) = r + taken writes
taken (write_failed e ∷ writes) = taken writes

abbrev pub Accepts : List WriteResult → Type 0
Accepts [] = Unit
Accepts (wrote r ∷ writes) = (0 < r) × Accepts writes
Accepts (write_failed e ∷ writes) = ⊥

-- What was sent is a prefix of the buffer, and a number that is returned is its length.
pub record SentPrefix (buf : List ℕ) (w : Written) : Type 0 where
  pub unsent : List ℕ
  pub prefix : buf ≡ w.sent ++ unsent
  pub counted : (n : ℕ) → w.result ≡ bytes n → n ≡ length w.sent

module _ (count : ℕ) (small : count < 2 ^ 31) where
  -- An interruption.
  partial_lem :
      (sent buf : List ℕ)
      → length sent + length buf ≡ count
      → (n : ℕ)
      → (if count == length buf then soft_error else as_int (sub_u64 count (length buf))) ≡ bytes n
      → n ≡ length sent
  partial_lem sent buf e n c = elim (Bool-cases (count == length buf)) [
    | inl z ↦ absurd (soft_lem (rw z at c))
    | inr z ↦ as_int-count count (length buf) n (length sent) small e (rw z at c)
  ]
    where
      soft_lem : soft_error ≡ bytes n → ⊥
      soft_lem q = cc

  write_loop-SentPrefix :
      (sent buf : List ℕ) (writes : List WriteResult)
      → length sent + length buf ≡ count
      → IsModest (length buf) writes
      → Ensures (SentPrefix (sent ++ buf)) (write_loop count sent buf writes)
  unfolding write_loop
  write_loop-SentPrefix sent [] writes e m = record {
    unsent = [];
    prefix = refl;
    counted = λ n c.
        ground (arith, sym (as_int-small count small) ∙ c, length-append sent [], append-nil sent);
  }
  write_loop-SentPrefix sent (x ∷ buf) [] e m = tt
  write_loop-SentPrefix sent (x ∷ buf) (wrote r ∷ writes) e m =
      if_both (Ensures (SentPrefix (sent ++ x ∷ buf))) (r == 0) _ _
        (λ _. record { unsent = x ∷ buf; prefix = refl; counted = λ n c. absurd (cc) })
        (λ _.
          subst
            (λ a.
              Ensures (SentPrefix a)
                (write_loop count (sent ++ take r (x ∷ buf)) (drop r (x ∷ buf)) writes))
            (append_assoc sent (take r (x ∷ buf)) (drop r (x ∷ buf))
              ∙ ap (◌++◌ sent) (take-append-drop r (x ∷ buf)))
            (write_loop-SentPrefix (sent ++ take r (x ∷ buf)) (drop r (x ∷ buf)) writes
              (omega (
                arith,
                length-append sent (take r (x ∷ buf)),
                length-take r (x ∷ buf),
                length-drop r (x ∷ buf),
              ))
              (rw (length-drop r (x ∷ buf)) m.1)))
  write_loop-SentPrefix sent (x ∷ buf) (write_failed eintr ∷ writes) e m = record {
    unsent = x ∷ buf;
    prefix = refl;
    counted = λ n c. partial_lem sent (x ∷ buf) e n c;
  }
  write_loop-SentPrefix sent (x ∷ buf) (write_failed eagain ∷ writes) e m = record {
    unsent = x ∷ buf;
    prefix = refl;
    counted = λ n c. partial_lem sent (x ∷ buf) e n c;
  }
  write_loop-SentPrefix sent (x ∷ buf) (write_failed ewouldblock ∷ writes) e m = record {
    unsent = x ∷ buf;
    prefix = refl;
    counted = λ n c. partial_lem sent (x ∷ buf) e n c;
  }
  write_loop-SentPrefix sent (x ∷ buf) (write_failed enobufs ∷ writes) e m = record {
    unsent = x ∷ buf;
    prefix = refl;
    counted = λ n c. absurd (cc);
  }
  write_loop-SentPrefix sent (x ∷ buf) (write_failed other ∷ writes) e m = record {
    unsent = x ∷ buf;
    prefix = refl;
    counted = λ n c. absurd (cc);
  }

  write_loop_full :
      (sent buf : List ℕ) (writes : List WriteResult)
      → IsModest (length buf) writes
      → Accepts writes
      → length buf ≤ taken writes
      → write_loop count sent buf writes
        ≡ some (record { result = bytes count; sent = sent ++ buf })
  unfolding write_loop
  write_loop_full sent [] writes m a enough = rw (append-nil, as_int-small count small) refl
  write_loop_full sent (x ∷ buf) [] m a enough = absurd (omega arith)
  write_loop_full sent (x ∷ buf) (wrote r ∷ writes) m a enough =
      let nz : (r == 0) ≡ false = ground arith in
      rw nz (
        write_loop_full (sent ++ take r (x ∷ buf)) (drop r (x ∷ buf)) writes
          (rw (length-drop r (x ∷ buf)) m.1) a.1 (omega (arith, length-drop r (x ∷ buf)))
        ∙ ap (λ s. some (record { result = bytes count; sent = s }))
            (append_assoc sent (take r (x ∷ buf)) (drop r (x ∷ buf))
              ∙ ap (◌++◌ sent) (take-append-drop r (x ∷ buf))))
  write_loop_full sent (x ∷ buf) (write_failed e ∷ writes) m a enough = absurd a

-- For fewer than 2 ^ 31 bytes, and where `write` keeps to POSIX, the bytes that were sent are a prefix of the buffer, and a number
-- that `Nwrite` returns is the length of that prefix.
pub nwrite-SentPrefix :
    (buf : List ℕ) (writes : List WriteResult) {w : Written}
    → length buf < 2 ^ 31
    → IsModest (length buf) writes
    → nwrite buf writes ≡ some w
    → SentPrefix buf w
unfolding nwrite
nwrite-SentPrefix buf writes small m e =
    Ensures-some (SentPrefix buf) (write_loop (length buf) [] buf writes)
      (write_loop-SentPrefix (length buf) small [] buf writes (omega arith) m) e

-- For fewer than 2 ^ 31 bytes, where every `write` takes something and together they take enough, all of the buffer is sent, and
-- its length is returned.
pub nwrite_full :
    (buf : List ℕ) (writes : List WriteResult)
    → length buf < 2 ^ 31
    → IsModest (length buf) writes
    → Accepts writes
    → length buf ≤ taken writes
    → nwrite buf writes ≡ some (record { result = bytes (length buf); sent = buf })
unfolding nwrite
nwrite_full buf writes small m a enough =
    write_loop_full (length buf) small [] buf writes m a enough

-- A `write` that is interrupted behind one that took `r` bytes gives `r`, and one that is short of
-- buffers gives NET_SOFTERROR, although `r` bytes are on their way.
pub nwrite_after_partial :
    (buf : List ℕ) (r : ℕ) (writes : List WriteResult)
    → 0 < r
    → r < length buf
    → length buf < 2 ^ 31
    → (nwrite buf (wrote r ∷ write_failed eintr ∷ writes)
        ≡ some (record { result = bytes r; sent = take r buf }))
      × (nwrite buf (wrote r ∷ write_failed enobufs ∷ writes)
          ≡ some (record { result = soft_error; sent = take r buf }))
unfolding nwrite write_loop
nwrite_after_partial [] r writes h lt small = absurd (omega arith)
nwrite_after_partial (x ∷ buf) (suc r) writes h lt small =
    let nz : (suc r == 0) ≡ false = ground arith in rw nz (after (drop r buf) (length-drop r buf))
  where
    after :
        (rest : List ℕ)
        → length rest ≡ length buf - r
        → (write_loop (suc (length buf)) (x ∷ take r buf) rest (write_failed eintr ∷ writes)
            ≡ some (record { result = bytes (suc r); sent = x ∷ take r buf }))
          × (write_loop (suc (length buf)) (x ∷ take r buf) rest (write_failed enobufs ∷ writes)
              ≡ some (record { result = soft_error; sent = x ∷ take r buf }))
    after [] e = absurd (omega arith)
    after (y ∷ rest) e =
        let other_size : (suc (length buf) == suc (length rest)) ≡ false = ground (arith, e) in
        let left : sub_u64 (suc (length buf)) (suc (length rest)) ≡ suc r = omega (arith, e) in
        (rw (other_size, left, as_int-small (suc r) (omega arith)) refl, refl)
nwrite_after_partial buf zero writes h lt small = absurd (omega arith)
