-- ===== src/Results/Matching.antt =====
-- The streams that get_results finds by their numbers.
use expo_iperf.Common.{
  ℕ, ◌==◌, ==_iff, ==_refl, Bool, true, false, ◌≡◌, ◌≢◌, ◌∙◌, refl, ap, sym, subst, true_not_false,
  if◌then◌else◌, Option, some, List, [], ◌∷◌, map, All, Bool-cases, inl, inr, arith,
}
use expo_iperf.Common.Int.{ℤ, pos}
use expo_iperf.Double.{Doubles}
use expo_iperf.Results.{Figures, ResultStream, ◌>>=◌, eq_id, set_figures, update_stream}

-- No number occurs twice.
abbrev pub Distinct : List ℕ → Type 0
Distinct [] = Unit
Distinct (x ∷ l) = All (λ y. x ≢ y) l × Distinct l

abbrev pub occurs : List ℕ → ℕ → Bool
occurs [] n = false
occurs (x ∷ l) n = if n == x then true else occurs l n

eq_id-other : (z : ℤ) (n m : ℕ) → z ≡ pos n → n ≢ m → eq_id z m ≡ false
eq_id-other z n m e h =
    rw e (elim (Bool-cases (n == m)) [ inl t ↦ absurd (h ((==_iff n m).0 t)) | inr t ↦ t ])

eq_id_self : (z : ℤ) (n m : ℕ) → z ≡ pos n → n ≡ m → eq_id z m ≡ true
eq_id_self z n m e h = rw (e, h) (==_refl m)

module _ (D : Doubles) where
  open D use {Double}

  abbrev pub ids : List (ResultStream Double) → List ℕ
  ids l = map (λ (s : ResultStream Double). s.id) l

  -- What a stream takes over from figures, where they are its own.
  abbrev pub take_figures : Figures Double → ResultStream Double → ResultStream Double
  take_figures f s = if eq_id f.sid s.id then set_figures D f s else s

  pub set_figures-id :
      (f : Figures Double) (s : ResultStream Double) → (set_figures D f s).id ≡ s.id
  unfolding set_figures
  set_figures-id f s = ground arith

  pub take_figures-id :
      (f : Figures Double) (s : ResultStream Double) → (take_figures f s).id ≡ s.id
  take_figures-id f s = elim (Bool-cases (eq_id f.sid s.id)) [
    | inl e ↦ rw e (set_figures-id f s)
    | inr e ↦ rw e refl
  ]

  pub ids-map :
      (f : Figures Double) (l : List (ResultStream Double)) → ids (map (take_figures f) l) ≡ ids l
  ids-map f [] = refl
  ids-map f (s ∷ l) = λ i. take_figures-id f s i ∷ ids-map f l i

  untouched :
      (f : Figures Double) (n : ℕ) (l : List (ResultStream Double))
      → f.sid ≡ pos n
      → All (λ y. n ≢ y) (ids l)
      → map (take_figures f) l ≡ l
  untouched f n [] e h = refl
  untouched f n (s ∷ l) e (h, hs) =
      let t = eq_id-other f.sid n s.id e h in
      ap (λ (b : Bool). (if b then set_figures D f s else s) ∷ map (take_figures f) l) t
      ∙ ap (◌∷◌ s) (untouched f n l e hs)

  -- Where the numbers are distinct and the number occurs, the one stream of that number is updated.
  pub update_stream-map :
      (f : Figures Double) (n : ℕ) (l : List (ResultStream Double))
      → f.sid ≡ pos n
      → Distinct (ids l)
      → occurs (ids l) n ≡ true
      → update_stream D f l ≡ some (map (take_figures f) l)
  unfolding update_stream
  update_stream-map f n [] e d o = absurd (cc)
  update_stream-map f n (s ∷ l) e (h, d) o = elim (Bool-cases (n == s.id)) [
    | inl t ↦
        let same = (==_iff n s.id).0 t in
        rw (eq_id_self f.sid n s.id e same) (
          ap (λ (m : List (ResultStream Double)). some (set_figures D f s ∷ m))
            (sym (untouched f n l e (subst (λ k. All (λ y. k ≢ y) (ids l)) (sym same) h))))
    | inr t ↦
        rw (eq_id-other f.sid n s.id e (λ q. true_not_false (sym ((==_iff n s.id).1 q) ∙ t))) (
          ap (λ (m : Option (List (ResultStream Double))). m >>= λ r. some (s ∷ r))
            (update_stream-map f n l e d (occurs_rest t o)))
  ]
    where
      occurs_rest : (n == s.id) ≡ false → occurs (ids (s ∷ l)) n ≡ true → occurs (ids l) n ≡ true
      occurs_rest t o = ground arith

  -- All figures, one after the other.
  abbrev pub take_all : List (Figures Double) → ResultStream Double → ResultStream Double
  take_all [] s = s
  take_all (f ∷ l) s = take_all l (take_figures f s)
