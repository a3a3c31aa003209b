-- ===== src/Rate/Exceeded.antt =====
-- When the limit on the total bit rate counts as exceeded, and what happens with more intervals
-- than the array has entries.
use expo_iperf.Common.{
  ℕ, zero, suc, ◌+◌, ◌-◌, ◌^◌, ◌≤◌, ◌<◌, ◌≡◌, ◌≢◌, refl, sym, ap, subst, ◌∙◌, Bool, true, false,
  ◌||◌, ◌&&◌, ◌==◌, ltb, leb, u64, none, some, List, [], ◌∷◌, ◌++◌, length, take, append-nil, arith,
  if_both, length-append, length-replicate, length-set,
}
use expo_iperf.Double.{Doubles}
use expo_iperf.Rate.{
  Limit, max_interval, reset, next_index, stored, is_inside, add_up, bits_per_second, judge,
  iperf_check_total_rate, check_all,
}
use expo_iperf.Rate.Window.{
  zeros, zeros_add, zeros_last, sum-window, sum, window, IsWindow, stored-IsWindow,
}

or_false : (b : Bool) → b ≡ (b || false)
or_false true = refl
or_false false = refl

or_assoc : (a b c : Bool) → ((a || b) || c) ≡ (a || (b || c))
or_assoc true b c = refl
or_assoc false b c = refl

module _ (D : Doubles) (stats_interval : D.Double) where
  -- Whether the last n of the intervals so far make a rate above the limit.
  abbrev pub is_over : ℕ → ℕ → List ℕ → Bool
  is_over n limit history =
      leb n (length history)
      && ltb limit (bits_per_second D stats_interval n (u64 (sum (window n history))))

  -- Whether any of the reports was over the limit, when they come behind a history.
  abbrev pub any_over : ℕ → ℕ → List ℕ → List ℕ → Bool
  any_over n limit history [] = false
  any_over n limit history (x ∷ xs) =
      is_over n limit (history ++ (x ∷ [])) || any_over n limit (history ++ (x ∷ [])) xs

  abbrev Tracks : ℕ → ℕ → List ℕ → Limit → Type 0
  Tracks n limit history s =
      (s.stats_count ≡ length history)
      × (s.done ≡ false)
      × (s.bitrate_limit ≡ limit)
      × IsWindow n history s

  too_early :
      (n limit : ℕ) (history : List ℕ) (s : Limit)
      → Tracks n limit history s
      → ltb s.stats_count s.stats_per_interval ≡ true
      → s.exceeded ≡ (s.exceeded || is_over n limit history)
  too_early n limit history s (c, d, l, (before, after, behind, arr, idx, len, all, win, per)) q =
      let no : leb n (length history) ≡ false = ground arith in rw (no) (or_false s.exceeded)

  in_time :
      (n limit : ℕ) (history : List ℕ) (s : Limit)
      → Tracks n limit history s
      → ltb s.stats_count s.stats_per_interval ≡ false
      → (s.exceeded
          || ltb s.bitrate_limit (
              bits_per_second D stats_interval s.stats_per_interval
                (add_up (take s.stats_per_interval s.intervals_traffic_bytes) 0)))
        ≡ (s.exceeded || is_over n limit history)
  in_time n limit history s (c, d, l, w) q =
      let (before, after, behind, arr, idx, len, all, win, per) = w in
      let yes : leb n (length history) ≡ true = ground arith in
      rw (yes, sum-window n history s w, l) (rw (per) refl)

  judge_lem :
      (n limit : ℕ) (history : List ℕ) (s : Limit)
      → Tracks n limit history s
      → Tracks n limit history (judge D stats_interval s)
        × ((judge D stats_interval s).exceeded ≡ (s.exceeded || is_over n limit history))
  unfolding judge
  judge_lem n limit history s h =
      if_both
        (λ t. Tracks n limit history t × (t.exceeded ≡ (s.exceeded || is_over n limit history)))
        (ltb s.stats_count s.stats_per_interval) _ _ (λ q. (h, too_early n limit history s h q))
        (λ q. (h, in_time n limit history s h q))

  guard_lem :
      (s : Limit)
      → s.done ≡ false
      → s.bitrate_limit ≢ 0
      → (s.done || (s.bitrate_limit == 0)) ≡ false
  guard_lem s d l = rw (d) (ground arith)

  runs :
      (s : Limit) (x : ℕ)
      → (s.done || (s.bitrate_limit == 0)) ≡ false
      → is_inside s ≡ true
      → iperf_check_total_rate D stats_interval s x ≡ some (judge D stats_interval (stored s x))
  unfolding iperf_check_total_rate
  runs s x g i = rw (g, i) refl

  fails :
      (s : Limit) (x : ℕ)
      → (s.done || (s.bitrate_limit == 0)) ≡ false
      → is_inside s ≡ false
      → iperf_check_total_rate D stats_interval s x ≡ none
  unfolding iperf_check_total_rate
  fails s x g i = rw (g, i) refl

  check_lem :
      (n limit : ℕ) (history : List ℕ) (s : Limit) (x : ℕ)
      → 1 ≤ n
      → limit ≢ 0
      → length history + 1 < 2 ^ 64
      → Tracks n limit history s
      → (t : Limit) × (iperf_check_total_rate D stats_interval s x ≡ some t)
        × Tracks n limit (history ++ (x ∷ [])) t
        × (t.exceeded ≡ (s.exceeded || is_over n limit (history ++ (x ∷ []))))
  check_lem n limit history s x one pos_limit small (c, d, l, w) =
      let st = stored-IsWindow n history s x one w in
      let after_store : Tracks n limit (history ++ (x ∷ [])) (stored s x) =
        (omega (arith, length-append history (x ∷ [])), d, l, st.1) in
      let j = judge_lem n limit (history ++ (x ∷ [])) (stored s x) after_store in
      (
        judge D stats_interval (stored s x),
        runs s x (guard_lem s d (λ z. pos_limit (sym l ∙ z))) (st.0),
        j.0,
        j.1,
      )

  le_split : (n : ℕ) → suc n ≤ max_interval → max_interval ≡ suc n + (max_interval - suc n)
  le_split n h = omega arith

  reset_lem : (n limit : ℕ) → 1 ≤ n → n ≤ max_interval → Tracks n limit [] (reset limit n)
  unfolding reset
  reset_lem zero limit one le = absurd (omega arith)
  reset_lem (suc n) limit one le = (
    refl,
    refl,
    refl,
    (
      0 ∷ [],
      zeros n,
      zeros (max_interval - suc n),
      ap zeros (le_split n le) ∙ zeros_add (suc n) (max_interval - suc n),
      refl,
      omega (arith, length-replicate {A = ℕ} n 0),
      omega
          (arith, length-replicate {A = ℕ} n 0, length-replicate {A = ℕ} (max_interval - suc n) 0),
      zeros_last n ∙ sym (append-nil (zeros (suc n))),
      refl,
    ),
  )

  run_lem :
      (n limit : ℕ) (history xs : List ℕ) (s : Limit)
      → 1 ≤ n
      → limit ≢ 0
      → length history + length xs < 2 ^ 64
      → Tracks n limit history s
      → (t : Limit) × (check_all D stats_interval xs s ≡ some t)
        × (t.exceeded ≡ (s.exceeded || any_over n limit history xs))
  unfolding check_all
  run_lem n limit history [] s one pos_limit small h = (s, refl, or_false s.exceeded)
  run_lem n limit history (x ∷ xs) s one pos_limit small h =
      let (t, e, k, q) = check_lem n limit history s x one pos_limit (omega arith) h in
      let (u, f, g) =
        run_lem n limit (history ++ (x ∷ [])) xs t one pos_limit
          (omega (arith, length-append history (x ∷ []))) k in
      (
        u,
        rw (e, check_all) f,
        g ∙ ap (λ b. b || any_over n limit (history ++ (x ∷ [])) xs) q ∙ or_assoc s.exceeded _ _,
      )

  -- Where more than 60 intervals are averaged, at an index k.
  abbrev IsTooLong : ℕ → ℕ → Limit → Type 0
  IsTooLong n k s =
      (s.done ≡ false)
      × (s.bitrate_limit ≢ 0)
      × (s.stats_per_interval ≡ n)
      × (length s.intervals_traffic_bytes ≡ max_interval)
      × (s.last_interval_index ≡ k)

  judge-IsTooLong :
      (n k : ℕ) (s : Limit) → IsTooLong n k s → IsTooLong n k (judge D stats_interval s)
  unfolding judge
  judge-IsTooLong n k s h =
      if_both (IsTooLong n k) (ltb s.stats_count s.stats_per_interval) _ _ (λ _. h) (λ _. h)

  inside_lem :
      (s : Limit) (k : ℕ)
      → length s.intervals_traffic_bytes ≡ max_interval
      → next_index s ≡ k
      → k < max_interval
      → is_inside s ≡ true
  inside_lem s k len next lt = ground arith

  outside_lem :
      (s : Limit)
      → length s.intervals_traffic_bytes ≡ max_interval
      → next_index s ≡ max_interval
      → is_inside s ≡ false
  outside_lem s len next = ground arith

  next_lem : (n k : ℕ) (s : Limit) → k + 1 < n → IsTooLong n k s → next_index s ≡ k + 1
  next_lem n k s lt (d, l, per, len, idx) = ground arith

  -- As long as there are entries, the checks go on.
  fill_lem :
      (n k : ℕ) (xs : List ℕ) (s : Limit)
      → max_interval < n
      → IsTooLong n k s
      → k + length xs < max_interval
      → (t : Limit) × (check_all D stats_interval xs s ≡ some t) × IsTooLong n (k + length xs) t
  unfolding check_all
  fill_lem n k [] s big h room =
      let same : k ≡ k + 0 = omega arith in (s, refl, subst (λ m. IsTooLong n m s) same h)
  fill_lem n k (x ∷ xs) s big h room =
      let (d, l, per, len, idx) = h in
      let next = next_lem n k s (omega arith) h in
      let inside = inside_lem s (k + 1) len next (omega arith) in
      let (t, e, far) =
        fill_lem n (k + 1) xs (judge D stats_interval (stored s x)) big
          (judge-IsTooLong n (k + 1) (stored s x)
            (d, l, per, length-set s.intervals_traffic_bytes (next_index s) x ∙ len, next))
          (omega arith) in
      let moved : k + 1 + length xs ≡ k + length (x ∷ xs) = omega arith in
      (
        t,
        rw (runs s x (guard_lem s d l) inside, check_all) e,
        subst (λ m. IsTooLong n m t) moved far,
      )

  -- For a limit above 0, an average over 1 to 60 intervals and fewer than 2 ^ 64 reports, the checks
  -- of a server after its reset stay inside the array, and the limit counts as exceeded just when
  -- at one of the reports at least that many had been made and the rate of the last ones, and of no
  -- other, was above the limit.
  pub check_all_lem :
      (n limit : ℕ) (reports : List ℕ)
      → 1 ≤ n
      → n ≤ max_interval
      → limit ≢ 0
      → length reports < 2 ^ 64
      → (t : Limit) × (check_all D stats_interval reports (reset limit n) ≡ some t)
        × (t.exceeded ≡ any_over n limit [] reports)
  unfolding reset
  check_all_lem n limit reports one le l small =
      run_lem n limit [] reports (reset limit n) one l (omega arith) (reset_lem n limit one le)

  -- The array has 60 entries whatever the average is taken over: with more than 60 intervals, as an
  -- interval below a second allows, and a limit above 0, the checks of the first 59 reports after a
  -- reset stay inside the array, and that of the 60th writes behind its end.
  pub check_all_overflow :
      (n limit : ℕ) (reports : List ℕ) (x : ℕ)
      → max_interval < n
      → limit ≢ 0
      → length reports + 1 ≡ max_interval
      → (t : Limit) × (check_all D stats_interval reports (reset limit n) ≡ some t)
        × (iperf_check_total_rate D stats_interval t x ≡ none)
  unfolding reset
  check_all_overflow n limit reports x big l e =
      let (t, runs_on, h) =
        fill_lem n 0 reports (reset limit n) big (refl, l, refl, refl, refl) (omega arith) in
      let (d, pos_limit, per, len, idx) = h in
      let next : next_index t ≡ max_interval =
        next_lem n (0 + length reports) t (omega arith) h ∙ omega (arith, e) in
      (t, runs_on, fails t x (guard_lem t d pos_limit) (outside_lem t len next))
