-- ===== src/Results/Exchange.antt =====
-- The results that an end has sent, as the other end reads them.
use expo_iperf.Common.{
  ◌<◌, ◌^◌, ◌==◌, ==_iff, ◌≡◌, ◌≢◌, ◌∙◌, refl, ap, sym, subst, arith, Bool, true, false, not, ◌&&◌,
  inl, inr, if◌then◌else◌, Option, none, some, List, [], ◌∷◌, map, length, All, Bool-cases,
}
use expo_iperf.Common.Int.{ℤ}
use expo_iperf.Double.{Doubles}
use expo_iperf.Params.Framing.{json_read-json_write}
use expo_iperf.Args.{Text, client, is_role}
use expo_iperf.Params.{is_some}
use expo_iperf.Results.Items.{
  Value, string_item, object_item, congestion_used_key, ResultJson, IsLawful,
}
use expo_iperf.Results.{
  to_int, Figures, ResultStream, set_figures, span_of, bytes_transferred, retransmits_of, build,
  ResultTest, Reading, read_streams, read_stream, put_figures, put_streams, stream_object,
  result_entries, sends_output, flag_sent, concat, set_flags, send_results, get_results,
  read_results, read_items, Received, ResultError, choose_output, set_congestion, string_of,
  text_of, take_output, Lookup, read_heading, with_reading, ◌>>=◌,
}
use expo_iperf.Results.Matching.{
  Distinct, occurs, ids, take_figures, set_figures-id, ids-map, update_stream-map, take_all,
}
use expo_iperf.Results.Entries.{
  IsSmall, to_int-small, found, items_of-build, build-IsPrintable, IsSendable, figures_of,
  read_figures-stream_object, stream_object-IsPrintable,
}

module _ (D : Doubles) (J : ResultJson D.Double) where
  -- What a stream takes over from the other end's stream `p` of its number: one that sends, the
  -- receiver's losses, jitter, bytes and time; one that receives, the sender's bytes,
  -- retransmits and time.
  abbrev pub taken : ℤ → ResultStream D.Double → ResultStream D.Double → ResultStream D.Double
  taken flag p s =
      if s.sender
      then record s {
        jitter = p.jitter;
        cnt_error = p.cnt_error;
        omitted_cnt_error = p.omitted_cnt_error;
        peer_packet_count = p.packet_count;
        peer_omitted_packet_count = p.omitted_packet_count;
        bytes_received = bytes_transferred D J p;
        receiver_time = span_of D p;
      }
      else record s {
        peer_packet_count = p.packet_count;
        peer_omitted_packet_count = p.omitted_packet_count;
        bytes_sent = bytes_transferred D J p;
        stream_retrans = retransmits_of D J flag p;
        sender_time = span_of D p;
      }

  set_figures-taken :
      (flag : ℤ) (p s : ResultStream D.Double)
      → set_figures D (figures_of D J flag p) s ≡ taken flag p s
  unfolding set_figures
  set_figures-taken flag p s = refl

  -- What a stream takes over from all the streams of the other end.
  abbrev pub own : ℤ → List (ResultStream D.Double) → ResultStream D.Double → ResultStream D.Double
  own flag [] s = s
  own flag (p ∷ l) s = if p.id == s.id then taken flag p s else own flag l s

  abbrev chosen : ℤ → ResultStream D.Double → ResultStream D.Double → Bool → ResultStream D.Double
  chosen flag p s b = if b then set_figures D (figures_of D J flag p) s else s

  absent :
      (flag : ℤ) (l : List (ResultStream D.Double)) (s : ResultStream D.Double)
      → All (λ y. s.id ≢ y) (ids D l)
      → take_all D (map (figures_of D J flag) l) s ≡ s
  absent flag [] s h = refl
  absent flag (p ∷ l) s (h, hs) = elim (Bool-cases (p.id == s.id)) [
    | inl t ↦ absurd (h (sym ((==_iff p.id s.id).0 t)))
    | inr t ↦
        ap (λ (b : Bool). take_all D (map (figures_of D J flag) l) (chosen flag p s b)) t
        ∙ absent flag l s hs
  ]

  take_all-own :
      (flag : ℤ) (l : List (ResultStream D.Double)) (s : ResultStream D.Double)
      → Distinct (ids D l)
      → take_all D (map (figures_of D J flag) l) s ≡ own flag l s
  take_all-own flag [] s h = refl
  take_all-own flag (p ∷ l) s (h, hs) = elim (Bool-cases (p.id == s.id)) [
    | inl t ↦
        ap (λ (b : Bool). take_all D (map (figures_of D J flag) l) (chosen flag p s b)) t
        ∙ own_lem t
        ∙ set_figures-taken flag p s
        ∙ sym (ap own_or t)
    | inr t ↦
        ap (λ (b : Bool). take_all D (map (figures_of D J flag) l) (chosen flag p s b)) t
        ∙ take_all-own flag l s hs
        ∙ sym (ap own_or t)
  ]
    where
      own_or : Bool → ResultStream D.Double
      own_or b = if b then taken flag p s else own flag l s

      own_lem :
          (p.id == s.id) ≡ true
          → take_all D (map (figures_of D J flag) l) (set_figures D (figures_of D J flag p) s)
            ≡ set_figures D (figures_of D J flag p) s
      own_lem t = absent flag l (set_figures D (figures_of D J flag p) s) (
          subst (λ n. All (λ y. n ≢ y) (ids D l))
            ((==_iff p.id s.id).0 t ∙ sym (set_figures-id D (figures_of D J flag p) s)) h)

  map-none : (l : List (ResultStream D.Double)) → map (take_all D []) l ≡ l
  map-none [] = refl
  map-none (s ∷ l) = ap (◌∷◌ s) (map-none l)

  map-map :
      (f : Figures D.Double) (fs : List (Figures D.Double)) (l : List (ResultStream D.Double))
      → map (take_all D fs) (map (take_figures D f) l) ≡ map (take_all D (f ∷ fs)) l
  map-map f fs [] = refl
  map-map f fs (s ∷ l) = ap (◌∷◌ (take_all D fs (take_figures D f s))) (map-map f fs l)

  module _ (w : IsLawful J) where
    read_stream-sent :
        (flag : ℤ) (p : ResultStream D.Double) (ss : List (ResultStream D.Double))
        → IsSendable D J flag p
        → Distinct (ids D ss)
        → occurs (ids D ss) p.id ≡ true
        → read_stream D J (stream_object D J flag p) (record { error = none; streams = ss })
          ≡ record { error = none; streams = map (take_figures D (figures_of D J flag p)) ss }
    read_stream-sent flag p ss h d o =
        let v : Reading D J = record { error = none; streams = ss } in
        ap (λ (o : Option (Figures D.Double)). put_figures D J o v)
          (read_figures-stream_object D J w flag p h)
        ∙ ap (λ (o : Option (List (ResultStream D.Double))). put_streams D J o v)
            (update_stream-map D (figures_of D J flag p) p.id ss refl d o)

    read_streams-sent :
        (flag : ℤ) (l ss : List (ResultStream D.Double))
        → All (IsSendable D J flag) l
        → Distinct (ids D ss)
        → All (λ (p : ResultStream D.Double). occurs (ids D ss) p.id ≡ true) l
        → read_streams D J (map (stream_object D J flag) l) (record { error = none; streams = ss })
          ≡ record { error = none; streams = map (take_all D (map (figures_of D J flag) l)) ss }
    unfolding read_streams
    read_streams-sent flag [] ss h d o =
        ap (λ (l : List (ResultStream D.Double)). record { error = none; streams = l })
          (sym (map-none ss))
    read_streams-sent flag (p ∷ l) ss (h, hs) d (o, os) =
        let f = figures_of D J flag p in
        let kept = ids-map D f ss in
        ap (read_streams D J (map (stream_object D J flag) l)) (read_stream-sent flag p ss h d o)
        ∙ read_streams-sent flag l (map (take_figures D f) ss) hs (subst Distinct (sym kept) d)
            (subst (λ n. All (λ (q : ResultStream D.Double). occurs n q.id ≡ true) l) (sym kept) os)
        ∙ ap (λ (m : List (ResultStream D.Double)). record { error = none; streams = m })
            (map-map f (map (figures_of D J flag) l) ss)

  -- What the other end sends of its output, where it is a server.
  abbrev pub output_of : ResultTest D J → ResultTest D J → ResultTest D J → ResultTest D J
  output_of c s t =
      if is_role s.role client && s.get_server_output
      then (if sends_output D J c && c.json_output
          then record t { json_server_output = some (object_item c.json_top) }
          else (if sends_output D J c && not c.json_output
              then record t { server_output_text = some (concat D J c.server_output_list) }
              else t))
      else t

  abbrev pub with_congestion : Option Text → ResultTest D J → ResultTest D J
  with_congestion none t = t
  with_congestion (some x) t = record t { remote_congestion_used = some x }

  -- The test of the end that reads, with what the other end has: its use of the CPU, its flag and
  -- its congestion algorithm, its output, and for every stream the figures of the same number.
  abbrev pub agreed : ResultTest D J → ResultTest D J → ResultTest D J
  agreed c s = with_congestion c.congestion_used (
      output_of c s (record (set_flags D J (flag_sent D J c) s) {
        remote_cpu_util = c.cpu_util;
        streams = map (own c.sender_has_retransmits c.streams) s.streams;
      }))

  output_lem :
      (p q r : Bool) (v : Value J.Object D.Double) (x : Text) (t : ResultTest D J)
      → choose_output D J p
          (if q then some v else none)
          (if r then some (string_item x) else none)
          t
        ≡ (if p
            then (if q
                then record t { json_server_output = some v }
                else (if r then record t { server_output_text = some x } else t))
            else t)
  output_lem false q r v x t = refl
  output_lem true true r v x t = refl
  output_lem true false true v x t = refl
  output_lem true false false v x t = refl

  congestion_lem :
      (o : Option Text) (e : Option ResultError) (t : ResultTest D J)
      → set_congestion D J
          (string_of D J (if is_some o then some (string_item (text_of D J o)) else none))
          (e, t)
        ≡ (e, with_congestion o t)
  congestion_lem none e t = refl
  congestion_lem (some x) e t = refl

  -- The results of a test that can be sent: cJSON keeps its numbers, its texts have no zero byte, and every stream has one of its
  -- number at the other end.
  pub record IsSent (c s : ResultTest D J) : Type 0 where
    pub total_kept : J.IsKept c.cpu_util.0
    pub user_kept : J.IsKept c.cpu_util.1
    pub system_kept : J.IsKept c.cpu_util.2
    pub flag_small : IsSmall (flag_sent D J c)
    pub streams_sendable : All (IsSendable D J c.sender_has_retransmits) c.streams
    pub distinct : Distinct (ids D c.streams)
    pub distinct_here : Distinct (ids D s.streams)
    pub known : All (λ (p : ResultStream D.Double). occurs (ids D s.streams) p.id ≡ true) c.streams
    pub output_printable : J.IsPrintable c.json_top
    pub congestion_text : All (λ n. 0 < n) (text_of D J c.congestion_used)
    pub output_text : All (λ n. 0 < n) (concat D J c.server_output_list)

  module _ (w : IsLawful J) where
    map-own :
        (flag : ℤ) (l ss : List (ResultStream D.Double))
        → Distinct (ids D l)
        → map (take_all D (map (figures_of D J flag) l)) ss ≡ map (own flag l) ss
    map-own flag l [] d = refl
    map-own flag l (s ∷ ss) d = λ i. take_all-own flag l s d i ∷ map-own flag l ss d i

    read_items_lem :
        (c s : ResultTest D J)
        → IsSent c s
        → read_items D J (found D J (result_entries D J c)) s ≡ (none, agreed c s)
    unfolding result_entries
    read_items_lem c s h =
        let get = found D J (result_entries D J c) in
        let last =
          λ (r : Received D J). set_congestion D J (string_of D J (get congestion_used_key)) r in
        let a = record (set_flags D J (flag_sent D J c) s) { remote_cpu_util = c.cpu_util } in
        ap
          (λ (n : ℤ).
            last (read_heading D J get s (some (c.cpu_util.0, c.cpu_util.1, c.cpu_util.2, n))))
          (ap to_int (w.valueint-of_ℤ (flag_sent D J c) (omega (arith, h.flag_small)))
            ∙ to_int-small (flag_sent D J c) h.flag_small)
        ∙ ap (λ (v : Reading D J). last (with_reading D J get a v))
            (read_streams-sent w c.sender_has_retransmits c.streams s.streams h.streams_sendable
              h.distinct_here h.known)
        ∙ ap
            (λ (l : List (ResultStream D.Double)).
              last (none, take_output D J get (record a { streams = l })))
            (map-own c.sender_has_retransmits c.streams s.streams h.distinct)
        ∙ ap (λ (t : ResultTest D J). last (none, t))
            (output_lem (is_role s.role client && s.get_server_output)
              (sends_output D J c && c.json_output) (sends_output D J c && not c.json_output) _ _ _)
        ∙ congestion_lem c.congestion_used none _

    objects-IsPrintable :
        (flag : ℤ) (l : List (ResultStream D.Double))
        → All (IsSendable D J flag) l
        → All J.IsPrintable (map (stream_object D J flag) l)
    objects-IsPrintable flag [] h = tt
    objects-IsPrintable flag (s ∷ l) (h, hs) =
        (stream_object-IsPrintable D J w flag s h, objects-IsPrintable flag l hs)

    results-IsPrintable :
        (c s : ResultTest D J)
        → IsSent c s
        → J.IsPrintable (build D J (result_entries D J c) J.create)
    unfolding result_entries
    results-IsPrintable c s h =
        build-IsPrintable D J w (result_entries D J c) J.create
          (
            h.total_kept,
            (
              h.user_kept,
              (
                h.system_kept,
                (
                  w.kept-of_ℤ _ (omega (arith, h.flag_small)),
                  (
                    h.congestion_text,
                    (
                      h.output_printable,
                      (h.output_text, (objects-IsPrintable _ c.streams h.streams_sendable, tt)),
                    ),
                  ),
                ),
              ),
            ),
          )
          w.printable-create

module _ (D : Doubles) (J : ResultJson D.Double) where
  abbrev pub result_text : ResultTest D J → List J.Char
  result_text c = J.print (build D J (result_entries D J c) J.create)

  -- With a cJSON that does what it is taken to do, numbers that it keeps, texts without a zero byte,
  -- streams with distinct numbers that occur at the other end, and a text that is not empty and
  -- shorter than 2 ^ 31, an end reads the results that the other has sent without an error: of each
  -- stream it has the figures of the stream with the same number, in whatever order they come, and
  -- keeps its own counts; it has the use of the CPU, the flag, the congestion algorithm and the
  -- server's output.
  pub get-send_results :
      (w : IsLawful J) (c s : ResultTest D J)
      → IsSent D J c s
      → length (result_text c) ≢ 0
      → length (result_text c) < 2 ^ 31
      → get_results D J (send_results D J c) s ≡ (none, agreed D J c s)
  unfolding get_results send_results
  get-send_results w c s h some_text small =
      ap (λ (o : Option (List J.Char)). read_results D J (o >>= J.parse) s)
        (json_read-json_write 0 (result_text c) some_text small (inl refl)).1
      ∙ ap (λ (o : Option J.Object). read_results D J o s)
          (w.parse-print (build D J (result_entries D J c) J.create)
            (results-IsPrintable D J w c s h))
      ∙ ap (λ (get : Lookup D J). read_items D J get s)
          (items_of-build D J w (result_entries D J c))
      ∙ read_items_lem D J w c s h
