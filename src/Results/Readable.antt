-- ===== src/Results/Readable.antt =====
-- What of a stream get_results needs, by the items of the object.
use expo_iperf.Common.{
  ◌≡◌, ◌∙◌, refl, ℕ, Bool, true, false, not, ◌&&◌, ◌||◌, Option, none, some, List, [], ◌∷◌,
}
use expo_iperf.Common.Int.{ℤ}
use expo_iperf.Double.{Doubles}
use expo_iperf.Params.{is_some}
use expo_iperf.Results.Items.{
  ResultJson, ResultKey, Value, number_item, string_item, array_item, object_item, id_key,
  bytes_key, retransmits_key, jitter_key, errors_key, omitted_errors_key, packets_key,
  omitted_packets_key, start_key, end_key,
}
use expo_iperf.Results.{
  to_int, to_uint64, number_of, both, span_at, eq_id, Figures, read_figures, items_of, ◌>>=◌,
}

-- A stream has the number.
abbrev pub is_known : List ℕ → ℤ → Bool
is_known [] z = false
is_known (n ∷ l) z = eq_id z n || is_known l z

module _ (D : Doubles) (J : ResultJson D.Double) where
  abbrev pub names_known : List ℕ → Option (Figures D.Double) → Bool
  names_known l none = false
  names_known l (some f) = is_known l f.sid

  abbrev pub is_number : Option (Value J.Object D.Double) → Bool
  is_number (some (number_item d)) = true
  is_number _ = false

  abbrev pub all_numbers : List ResultKey → J.Object → Bool
  all_numbers [] o = true
  all_numbers (k ∷ l) o = is_number (J.get k o) && all_numbers l o

  abbrev pub is_of_known : List ℕ → Option (Value J.Object D.Double) → Bool
  is_of_known l (some (number_item d)) = is_known l (to_int (J.valueint d))
  is_of_known l _ = false

  abbrev pub is_equal : Bool → Bool → Bool
  is_equal true b = b
  is_equal false b = not b

  -- The items that a stream must have are numbers, the omitted errors and packets come together or
  -- not at all, and a stream has its number.
  abbrev pub is_readable : List ℕ → J.Object → Bool
  is_readable l o =
      all_numbers
        (id_key ∷ bytes_key ∷ retransmits_key ∷ jitter_key ∷ errors_key ∷ packets_key ∷ []) o
      && (is_equal (is_number (J.get omitted_errors_key o))
            (is_number (J.get omitted_packets_key o))
          && is_of_known l (J.get id_key o))

  abbrev as_integer : Option D.Double → Option ℤ
  as_integer o = o >>= λ d. some (J.valueint d)

  -- The figures by the numbers that are there.
  abbrev figures_from :
      Option D.Double
      → Option D.Double
      → Option D.Double
      → Option D.Double
      → Option D.Double
      → Option D.Double
      → Option D.Double
      → Option D.Double
      → Option D.Double
      → Option (Figures D.Double)
  figures_from a b c d e f p q x = do
    sid ← as_integer a
    bytes ← as_integer b
    retransmits ← as_integer c
    jitter ← d
    errors ← as_integer e
    packets ← as_integer f
    omitted ← both D J (as_integer p) (as_integer q)
    some (record {
      sid = to_int sid;
      bytes = to_uint64 bytes;
      retransmits = to_int retransmits;
      jitter = jitter;
      errors = errors;
      packets = packets;
      omitted = omitted;
      span = x;
    })

  abbrev is_of : List ℕ → Option D.Double → Bool
  is_of l none = false
  is_of l (some d) = is_known l (to_int (J.valueint d))

  figures_lem :
      (l : List ℕ) (a b c d e f p q x : Option D.Double)
      → names_known l (figures_from a b c d e f p q x) ≡ (
          (is_some a
            && (is_some b && (is_some c && (is_some d && (is_some e && (is_some f && true))))))
          && (is_equal (is_some p) (is_some q) && is_of l a))
  figures_lem l none b c d e f p q x = refl
  figures_lem l (some a) none c d e f p q x = refl
  figures_lem l (some a) (some b) none d e f p q x = refl
  figures_lem l (some a) (some b) (some c) none e f p q x = refl
  figures_lem l (some a) (some b) (some c) (some d) none f p q x = refl
  figures_lem l (some a) (some b) (some c) (some d) (some e) none p q x = refl
  figures_lem l (some a) (some b) (some c) (some d) (some e) (some f) none none x = refl
  figures_lem l (some a) (some b) (some c) (some d) (some e) (some f) none (some q) x = refl
  figures_lem l (some a) (some b) (some c) (some d) (some e) (some f) (some p) none x = refl
  figures_lem l (some a) (some b) (some c) (some d) (some e) (some f) (some p) (some q) x = refl

  number_lem : (v : Option (Value J.Object D.Double)) → is_some (number_of D J v) ≡ is_number v
  number_lem none = refl
  number_lem (some (number_item d)) = refl
  number_lem (some (string_item x)) = refl
  number_lem (some (array_item l)) = refl
  number_lem (some (object_item o)) = refl

  known_lem :
      (l : List ℕ) (v : Option (Value J.Object D.Double))
      → is_of l (number_of D J v) ≡ is_of_known l v
  known_lem l none = refl
  known_lem l (some (number_item d)) = refl
  known_lem l (some (string_item x)) = refl
  known_lem l (some (array_item m)) = refl
  known_lem l (some (object_item o)) = refl

  -- An object gives figures of a stream that there is just when it is readable.
  pub read_figures-names_known :
      (l : List ℕ) (o : J.Object)
      → names_known l (read_figures D J (items_of D J o)) ≡ is_readable l o
  unfolding read_figures
  read_figures-names_known l o =
      let n = λ (k : ResultKey). number_of D J (J.get k o) in
      let at = λ (k : ResultKey). number_lem (J.get k o) in
      figures_lem l (n id_key) (n bytes_key) (n retransmits_key) (n jitter_key) (n errors_key)
        (n packets_key) (n omitted_errors_key) (n omitted_packets_key)
        (span_at D J (n start_key) (n end_key))
      ∙ λ i.
          (at id_key i
            && (at bytes_key i
                && (at retransmits_key i
                    && (at jitter_key i && (at errors_key i && (at packets_key i && true))))))
          && (is_equal (at omitted_errors_key i) (at omitted_packets_key i)
              && known_lem l (J.get id_key o) i)
