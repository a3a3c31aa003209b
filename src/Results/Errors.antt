-- ===== src/Results/Errors.antt =====
-- When get_results refuses the list of streams.
use expo_iperf.Common.{
  ◌≡◌, ◌≢◌, ◌∙◌, ◌↔◌, refl, ap, sym, subst, ℕ, Bool, true, false, ◌||◌, inl, inr, Option, none,
  some, List, [], ◌∷◌, All, Bool-cases, true_not_false,
}
use expo_iperf.Double.{Doubles}
use expo_iperf.Results.Items.{ResultJson}
use expo_iperf.Results.{
  eq_id, Figures, ResultStream, set_figures, update_stream, Reading, put_streams, put_figures,
  read_stream, read_streams, read_figures, items_of, ◌>>=◌,
}
use expo_iperf.Results.Readable.{is_known, names_known, is_readable, read_figures-names_known}
use expo_iperf.Results.Matching.{ids, set_figures-id}

or_left : (b c : Bool) → (b || c) ≡ false → b ≡ false
or_left true c h = h
or_left false c h = refl

or_right : (b c : Bool) → b ≡ false → (b || c) ≡ c
or_right true c h = absurd (cc)
or_right false c h = refl

module _ (D : Doubles) where
  update_stream-none :
      (f : Figures D.Double) (l : List (ResultStream D.Double))
      → is_known (ids D l) f.sid ≡ false
      → update_stream D f l ≡ none
  unfolding update_stream
  update_stream-none f [] h = refl
  update_stream-none f (s ∷ l) h =
      let t = or_left (eq_id f.sid s.id) (is_known (ids D l) f.sid) h in
      rw t (
        ap (λ (m : Option (List (ResultStream D.Double))). m >>= λ r. some (s ∷ r))
          (update_stream-none f l (sym (or_right _ _ t) ∙ h)))

  -- An update keeps the numbers.
  update_stream-some :
      (f : Figures D.Double) (l : List (ResultStream D.Double))
      → is_known (ids D l) f.sid ≡ true
      → (m : List (ResultStream D.Double)) × (update_stream D f l ≡ some m) × (ids D m ≡ ids D l)
  unfolding update_stream
  update_stream-some f [] h = absurd (cc)
  update_stream-some f (s ∷ l) h = elim (Bool-cases (eq_id f.sid s.id)) [
    | inl t ↦ (set_figures D f s ∷ l, rw t refl, ap (λ (n : ℕ). n ∷ ids D l) (set_figures-id D f s))
    | inr t ↦
        let (m, e, d) = update_stream-some f l (sym (or_right _ _ t) ∙ h) in
        (
          s ∷ m,
          rw t (ap (λ (m : Option (List (ResultStream D.Double))). m >>= λ r. some (s ∷ r)) e),
          ap (◌∷◌ s.id) d,
        )
  ]

module _ (D : Doubles) (J : ResultJson D.Double) where
  put_figures-good :
      (o : Option (Figures D.Double)) (ss : List (ResultStream D.Double))
      → names_known D J (ids D ss) o ≡ true
      → (m : List (ResultStream D.Double)) × (put_figures D J o
            (record { error = none; streams = ss })
          ≡ record { error = none; streams = m })
        × (ids D m ≡ ids D ss)
  put_figures-good none ss h = absurd (cc)
  put_figures-good (some f) ss h =
      let (m, e, d) = update_stream-some D f ss h in
      let v : Reading D J = record { error = none; streams = ss } in
      (m, ap (λ (r : Option (List (ResultStream D.Double))). put_streams D J r v) e, d)

  put_figures-bad :
      (o : Option (Figures D.Double)) (ss : List (ResultStream D.Double))
      → names_known D J (ids D ss) o ≡ false
      → (put_figures D J o (record { error = none; streams = ss })).error ≢ none
  put_figures-bad none ss h = λ e. absurd (cc)
  put_figures-bad (some f) ss h =
      let v : Reading D J = record { error = none; streams = ss } in
      subst (λ (r : Option (List (ResultStream D.Double))). (put_streams D J r v).error ≢ none)
        (sym (update_stream-none D f ss h)) (λ e. absurd (cc))

  put_streams-kept :
      (r : Option (List (ResultStream D.Double))) (v : Reading D J)
      → v.error ≢ none
      → (put_streams D J r v).error ≢ none
  put_streams-kept none v h = λ e. absurd (cc)
  put_streams-kept (some l) v h = h

  put_figures-kept :
      (o : Option (Figures D.Double)) (v : Reading D J)
      → v.error ≢ none
      → (put_figures D J o v).error ≢ none
  put_figures-kept none v h = λ e. absurd (cc)
  put_figures-kept (some f) v h = put_streams-kept (update_stream D f v.streams) v h

  -- An error stays.
  read_streams-kept :
      (l : List J.Object) (v : Reading D J) → v.error ≢ none → (read_streams D J l v).error ≢ none
  unfolding read_streams
  read_streams-kept [] v h = h
  read_streams-kept (o ∷ l) v h = read_streams-kept l (read_stream D J o v) (put_figures-kept _ v h)

  -- The streams are read without an error exactly when in every object the number of the stream,
  -- the bytes, the retransmissions, the jitter, the errors and the packets are numbers, the omitted
  -- errors and packets are there together or not at all, and a stream has the number.
  pub read_streams-error :
      (l : List J.Object) (ss : List (ResultStream D.Double))
      → ((read_streams D J l (record { error = none; streams = ss })).error ≡ none)
        ↔ All (λ o. is_readable D J (ids D ss) o ≡ true) l
  unfolding read_streams
  read_streams-error [] ss = (λ _. tt, λ _. refl)
  read_streams-error (o ∷ l) ss = elim (Bool-cases (is_readable D J (ids D ss) o)) [
    | inl t ↦
        let (m, e, d) =
          put_figures-good (read_figures D J (items_of D J o)) ss
            (read_figures-names_known D J (ids D ss) o ∙ t) in
        let ih = read_streams-error l m in
        let step = ap (λ (v : Reading D J). (read_streams D J l v).error) e in
        (
          λ h. (t, subst (λ n. All (λ o. is_readable D J n o ≡ true) l) d (ih.0 (sym step ∙ h))),
          λ h. step ∙ ih.1 (subst (λ n. All (λ o. is_readable D J n o ≡ true) l) (sym d) h.1),
        )
    | inr t ↦ (
      λ h. absurd (
          read_streams-kept l _
            (put_figures-bad _ ss (read_figures-names_known D J (ids D ss) o ∙ t)) h),
      λ h. absurd (true_not_false (sym h.0 ∙ t)),
    )
  ]
