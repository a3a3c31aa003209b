-- ===== src/Results/Entries.antt =====
-- What is read of the items that send_results adds for a stream.
use expo_iperf.Common.{
  ℕ, ◌+◌, ◌^◌, ◌<◌, ◌≡◌, ◌∙◌, ap, Bool, true, false, ◌&&◌, if◌then◌else◌, Option, none, some, List,
  [], ◌∷◌, All, arith,
}
use mathlib.Core.Path.{fun_ext}
use expo_iperf.Common.Int.{ℤ, pos, negsuc, pos_part, neg_part}
use expo_iperf.Double.{Doubles, iperf_time_in_secs}
use expo_iperf.Clock.{iperf_time_diff}
use expo_iperf.Params.Items.{or_item, or_item-if, or_item-none, skip_absent}
use expo_iperf.Results.Items.{ResultKey, is_same, Value, ResultJson, IsPlain, IsLawful}
use expo_iperf.Results.{
  to_int, to_uint64, Figures, ResultStream, span_of, Entry, build, bytes_transferred,
  retransmits_of, stream_entries, stream_object, items_of, Lookup, read_figures,
}

-- An integer that a `double` and an `int` hold.
abbrev pub IsSmall : ℤ → Type 0
IsSmall n = pos_part n + neg_part n < 2 ^ 31

abbrev pub IsExact : ℤ → Type 0
IsExact n = pos_part n + neg_part n < 2 ^ 53

pub to_int-small : (n : ℤ) → IsSmall n → to_int n ≡ n
unfolding to_int
to_int-small (pos n) h = ground arith
to_int-small (negsuc n) h = ground arith

pub to_uint64-pos : (n : ℕ) → n < 2 ^ 53 → to_uint64 (pos n) ≡ n
unfolding to_uint64
to_uint64-pos n h = omega arith

module _ (D : Doubles) (J : ResultJson D.Double) where
  -- The item of a name among those that are added.
  abbrev pub found : List (Entry D J) → Lookup D J
  found [] k = none
  found (e ∷ rest) k = if is_same k e.key && e.present then some e.value else found rest k

  module _ (w : IsLawful J) where
    get-added :
        (b : Bool) (k a : ResultKey) (v : Value J.Object D.Double) (o : J.Object)
        (x : Option (Value J.Object D.Double))
        → or_item (J.get k (if b then J.add a v o else o)) x
          ≡ or_item (J.get k o) (if is_same k a && b then some v else x)
    get-added true k a v o x =
        ap (λ (g : Option (Value J.Object D.Double)). or_item g x) (w.get-add k a v o)
        ∙ or_item-if (J.get k o) x (is_same k a) v
    get-added false k a v o x = ap (or_item (J.get k o)) (skip_absent (is_same k a) v x)

    get-build :
        (l : List (Entry D J)) (o : J.Object) (k : ResultKey)
        → J.get k (build D J l o) ≡ or_item (J.get k o) (found l k)
    unfolding build
    get-build [] o k = or_item-none (J.get k o)
    get-build (e ∷ l) o k =
        get-build l (if e.present then J.add e.key e.value o else o) k
        ∙ get-added e.present k e.key e.value o (found l k)

    -- The items of an object are those that are added.
    pub items_of-build : (l : List (Entry D J)) → items_of D J (build D J l J.create) ≡ found l
    items_of-build l = fun_ext λ k.
        get-build l J.create k
        ∙ ap (λ (g : Option (Value J.Object D.Double)). or_item g (found l k)) (w.get-create k)

    pub build-IsPrintable :
        (l : List (Entry D J)) (o : J.Object)
        → All (λ (e : Entry D J). IsPlain J e.value) l
        → J.IsPrintable o
        → J.IsPrintable (build D J l o)
    unfolding build
    build-IsPrintable [] o h p = p
    build-IsPrintable (e ∷ l) o (h, hs) p = build-IsPrintable l _ hs (added e.present)
      where
        added : (b : Bool) → J.IsPrintable (if b then J.add e.key e.value o else o)
        added true = w.printable-add e.key e.value o h p
        added false = p

  -- The numbers of a stream that can be sent as they are.
  pub record IsSendable (flag : ℤ) (s : ResultStream D.Double) : Type 0 where
    pub id_small : s.id < 2 ^ 31
    pub bytes_exact : bytes_transferred D J s < 2 ^ 53
    pub retransmits_small : IsSmall (retransmits_of D J flag s)
    pub errors_exact : IsExact s.cnt_error
    pub omitted_errors_exact : IsExact s.omitted_cnt_error
    pub packets_exact : IsExact s.packet_count
    pub omitted_packets_exact : IsExact s.omitted_packet_count
    pub jitter_kept : J.IsKept s.jitter
    pub start_kept : J.IsKept (iperf_time_in_secs D (iperf_time_diff s.start_time s.start_time).1)
    pub end_kept : J.IsKept (iperf_time_in_secs D (iperf_time_diff s.start_time s.end_time).1)

  -- The figures of a stream as the other end should have them.
  abbrev pub figures_of : ℤ → ResultStream D.Double → Figures D.Double
  figures_of flag s = record {
    sid = pos s.id;
    bytes = bytes_transferred D J s;
    retransmits = retransmits_of D J flag s;
    jitter = s.jitter;
    errors = s.cnt_error;
    packets = s.packet_count;
    omitted = some (s.omitted_cnt_error, s.omitted_packet_count);
    span = some (span_of D s);
  }

  module _ (w : IsLawful J) where
    pub read_figures-stream_object :
        (flag : ℤ) (s : ResultStream D.Double)
        → IsSendable flag s
        → read_figures D J (items_of D J (stream_object D J flag s)) ≡ some (figures_of flag s)
    unfolding read_figures stream_entries span_of
    read_figures-stream_object flag s h =
        ap (read_figures D J) (items_of-build w (stream_entries D J flag s)) ∙ (λ i. some (record {
          sid =
              (ap to_int (w.valueint-of_ℤ (pos s.id) (omega (arith, h.id_small)))
                  ∙ to_int-small (pos s.id) (omega (arith, h.id_small)))
                i;
          bytes =
              (ap to_uint64
                    (w.valueint-of_ℤ (pos (bytes_transferred D J s)) (omega (arith, h.bytes_exact)))
                  ∙ to_uint64-pos (bytes_transferred D J s) h.bytes_exact)
                i;
          retransmits =
              (ap to_int (
                    w.valueint-of_ℤ (retransmits_of D J flag s)
                      (omega (arith, h.retransmits_small)))
                  ∙ to_int-small (retransmits_of D J flag s) h.retransmits_small)
                i;
          jitter = s.jitter;
          errors = w.valueint-of_ℤ s.cnt_error h.errors_exact i;
          packets = w.valueint-of_ℤ s.packet_count h.packets_exact i;
          omitted = some (
            w.valueint-of_ℤ s.omitted_cnt_error h.omitted_errors_exact i,
            w.valueint-of_ℤ s.omitted_packet_count h.omitted_packets_exact i,
          );
          span = some (span_of D s);
        }))

    pub stream_object-IsPrintable :
        (flag : ℤ) (s : ResultStream D.Double)
        → IsSendable flag s
        → J.IsPrintable (stream_object D J flag s)
    unfolding stream_entries
    stream_object-IsPrintable flag s h =
        build-IsPrintable w (stream_entries D J flag s) J.create
          (
            w.kept-of_ℤ _ (omega (arith, h.id_small)),
            (
              w.kept-of_ℤ _ (omega (arith, h.bytes_exact)),
              (
                w.kept-of_ℤ _ (omega (arith, h.retransmits_small)),
                (
                  h.jitter_kept,
                  (
                    w.kept-of_ℤ _ h.errors_exact,
                    (
                      w.kept-of_ℤ _ h.omitted_errors_exact,
                      (
                        w.kept-of_ℤ _ h.packets_exact,
                        (w.kept-of_ℤ _ h.omitted_packets_exact, (h.start_kept, (h.end_kept, tt))),
                      ),
                    ),
                  ),
                ),
              ),
            ),
          )
          w.printable-create
