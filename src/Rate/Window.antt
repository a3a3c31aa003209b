-- ===== src/Rate/Window.antt =====
-- The cyclic array holds the last intervals, and its writes stay inside when there are at most 60.
use expo_iperf.Common.{
  ℕ, zero, suc, ◌+◌, ◌^◌, ◌≤◌, ◌<◌, ◌≡◌, refl, sym, ap, ◌∙◌, true, u64, List, [], ◌∷◌, ◌++◌, length,
  set, take, drop, replicate, append_assoc, arith, length-append, length-replicate,
}
use expo_iperf.Rate.{Limit, max_interval, next_index, stored, is_inside, add_up}

abbrev pub sum : List ℕ → ℕ
sum [] = 0
sum (x ∷ xs) = x + sum xs

add_up_lem : (xs : List ℕ) (n : ℕ) → n < 2 ^ 64 → add_up xs n ≡ u64 (n + sum xs)
unfolding add_up
add_up_lem [] n h = omega arith
add_up_lem (x ∷ xs) n h = omega (arith, add_up_lem xs (u64 (n + x)) (omega arith))

sum-append : (xs ys : List ℕ) → sum (xs ++ ys) ≡ sum xs + sum ys
sum-append [] ys = omega arith
sum-append (x ∷ xs) ys = omega (arith, sum-append xs ys)

set-append : (xs ys : List ℕ) (y v : ℕ) → set (xs ++ (y ∷ ys)) (length xs) v ≡ xs ++ (v ∷ ys)
set-append [] ys y v = refl
set-append (x ∷ xs) ys y v = ap (◌∷◌ x) (set-append xs ys y v)

drop-snoc :
    (n : ℕ) (xs : List ℕ) (v : ℕ)
    → n < length xs
    → drop 1 (drop n xs) ++ (v ∷ []) ≡ drop (suc n) (xs ++ (v ∷ []))
drop-snoc n [] v h = absurd (omega arith)
drop-snoc zero (x ∷ xs) v h = refl
drop-snoc (suc n) (x ∷ xs) v h = drop-snoc n xs v (omega arith)

take-append : (xs ys : List ℕ) → take (length xs) (xs ++ ys) ≡ xs
take-append [] ys = refl
take-append (x ∷ xs) ys = ap (◌∷◌ x) (take-append xs ys)

-- The last n of the reports, with zeros before the first.
abbrev pub window : ℕ → List ℕ → List ℕ
window n history = drop (length history) (replicate n 0 ++ history)

-- The entries in use, read on from the last one written, are the window.
abbrev pub IsWindow : ℕ → List ℕ → Limit → Type 0
IsWindow n history s =
    (before after behind : List ℕ) × (s.intervals_traffic_bytes ≡ before ++ (after ++ behind))
    × (length before ≡ s.last_interval_index + 1)
    × (length before + length after ≡ n)
    × (length before + length after + length behind ≡ max_interval)
    × (after ++ before ≡ window n history)
    × (s.stats_per_interval ≡ n)

window-snoc :
    (n : ℕ) (history : List ℕ) (x : ℕ)
    → 1 ≤ n
    → drop 1 (window n history) ++ (x ∷ []) ≡ window n (history ++ (x ∷ []))
window-snoc n history x h =
    let len : suc (length history) ≡ length (history ++ (x ∷ [])) =
      omega (arith, length-append history (x ∷ [])) in
    drop-snoc (length history) (replicate n 0 ++ history) x
      (omega (arith, length-append (replicate n 0) history, length-replicate {A = ℕ} n 0))
    ∙ ap (λ k. drop k ((replicate n 0 ++ history) ++ (x ∷ []))) len
    ∙ ap (drop (length (history ++ (x ∷ [])))) (append_assoc (replicate n 0) history (x ∷ []))

module _ (n : ℕ) (history : List ℕ) (s : Limit) (x : ℕ) (one : 1 ≤ n) where
  -- The index starts again at 0.
  wrap_lem :
      (b : ℕ) (bs behind : List ℕ)
      → s.intervals_traffic_bytes ≡ b ∷ (bs ++ behind)
      → suc (length bs) ≡ s.last_interval_index + 1
      → suc (length bs) ≡ n
      → suc (length bs) + length behind ≡ max_interval
      → (b ∷ bs) ≡ window n history
      → s.stats_per_interval ≡ n
      → (is_inside s ≡ true) × IsWindow n (history ++ (x ∷ [])) (stored s x)
  wrap_lem b bs behind arr idx len all win per =
      let zero_next : next_index s ≡ 0 = rw (per) (ground arith) in
      (
        rw (zero_next, arr) (ground arith),
        (
          x ∷ [],
          bs,
          behind,
          rw (zero_next, arr) refl,
          rw (zero_next) refl,
          omega arith,
          omega arith,
          ap (λ w. drop 1 w ++ (x ∷ [])) win ∙ window-snoc n history x one,
          per,
        ),
      )

  advance_lem :
      (before : List ℕ) (a : ℕ) (after behind : List ℕ)
      → s.intervals_traffic_bytes ≡ before ++ (a ∷ (after ++ behind))
      → length before ≡ s.last_interval_index + 1
      → length before + suc (length after) ≡ n
      → length before + suc (length after) + length behind ≡ max_interval
      → (a ∷ (after ++ before)) ≡ window n history
      → s.stats_per_interval ≡ n
      → (is_inside s ≡ true) × IsWindow n (history ++ (x ∷ [])) (stored s x)
  advance_lem before a after behind arr idx len all win per =
      let next : next_index s ≡ length before = rw (per) (ground arith) in
      (
        rw (next, arr) (ground (arith, length-append before (a ∷ (after ++ behind)))),
        (
          before ++ (x ∷ []),
          after,
          behind,
          rw (next, arr)
              (set-append before (after ++ behind) a x
                ∙ sym (append_assoc before (x ∷ []) (after ++ behind))),
          rw (next) (length-append before (x ∷ []) ∙ omega arith),
          omega (arith, length-append before (x ∷ [])),
          omega (arith, length-append before (x ∷ [])),
          sym (append_assoc after before (x ∷ []))
              ∙ ap (λ w. drop 1 w ++ (x ∷ [])) win
              ∙ window-snoc n history x one,
          per,
        ),
      )

  pub stored-IsWindow :
      IsWindow n history s → (is_inside s ≡ true) × IsWindow n (history ++ (x ∷ [])) (stored s x)
  stored-IsWindow (b ∷ bs, [], behind, arr, idx, len, all, win, per) =
      wrap_lem b bs behind arr idx (omega arith) (omega arith) win per
  stored-IsWindow ([], [], behind, arr, idx, len, all, win, per) = absurd (omega arith)
  stored-IsWindow (before, a ∷ after, behind, arr, idx, len, all, win, per) =
      advance_lem before a after behind arr idx len all win per

abbrev pub zeros : ℕ → List ℕ
zeros n = replicate n 0

pub zeros_add : (a b : ℕ) → zeros (a + b) ≡ zeros a ++ zeros b
zeros_add zero b = let z : 0 + b ≡ b = omega arith in ap zeros z
zeros_add (suc a) b =
    let z : suc a + b ≡ suc (a + b) = omega arith in ap zeros z ∙ ap (◌∷◌ 0) (zeros_add a b)

pub zeros_last : (a : ℕ) → zeros a ++ (0 ∷ []) ≡ zeros (suc a)
zeros_last zero = refl
zeros_last (suc a) = ap (◌∷◌ 0) (zeros_last a)

take_used :
    (n : ℕ) (before after behind : List ℕ)
    → length before + length after ≡ n
    → take n (before ++ (after ++ behind)) ≡ before ++ after
take_used n before after behind h =
    let len : n ≡ length (before ++ after) = omega (arith, length-append before after) in
    ap (take n) (sym (append_assoc before after behind))
    ∙ ap (λ k. take k ((before ++ after) ++ behind)) len
    ∙ take-append (before ++ after) behind

pub sum-window :
    (n : ℕ) (history : List ℕ) (s : Limit)
    → IsWindow n history s
    → add_up (take s.stats_per_interval s.intervals_traffic_bytes) 0 ≡ u64 (sum (window n history))
sum-window n history s (before, after, behind, arr, idx, len, all, win, per) =
    ap (λ a. add_up a 0)
      (ap (λ k. take k s.intervals_traffic_bytes) per
        ∙ ap (take n) arr
        ∙ take_used n before after behind len)
    ∙ add_up_lem (before ++ after) 0 (omega arith)
    ∙ ap u64 (omega (arith, sum-append before after, sum-append after before) ∙ ap sum win)
