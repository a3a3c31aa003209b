-- ===== src/Results.antt =====
-- iperf_api.c: the results that the ends exchange, send_results and get_results. cJSON, another
-- project's library, and the arithmetic of `double` are parameters.
pub mod Items
pub mod Matching
pub mod Entries
pub mod Exchange
pub mod Readable
pub mod Errors
use expo_iperf.Common.{
  ℕ, ◌+◌, ◌-◌, ◌%◌, ◌^◌, ◌==◌, Bool, true, false, not, ◌&&◌, if◌then◌else◌, ltb, u64, sub_u64,
  Option, none, some, List, [], ◌∷◌, ◌++◌, map,
}
use expo_iperf.Common.Int.{ℤ, pos, negsuc, ltb_ℤ}
use expo_iperf.Clock.{IperfTime, iperf_time_diff}
use expo_iperf.Double.{Doubles, iperf_time_in_secs}
use expo_iperf.Args.{
  Text, Role, client, server, is_role, Mode, sender, receiver, bidirectional, is_receiver,
}
use expo_iperf.Params.{is_some}
use expo_iperf.Params.Framing.{Framed, json_write, json_read}
use expo_iperf.Results.Items.{
  ResultKey, Value, number_item, string_item, array_item, object_item, ResultJson, total_key,
  user_key, system_key, flag_key, congestion_used_key, json_key, text_key, streams_key, id_key,
  bytes_key, retransmits_key, jitter_key, errors_key, omitted_errors_key, packets_key,
  omitted_packets_key, start_key, end_key,
}

-- The conversion of an integer to `int` and to `uint64_t`: the low bits are kept.
abbrev pub int_of_bits : ℕ → ℤ
int_of_bits n = if ltb n (2 ^ 31) then pos n else negsuc (2 ^ 32 - n - 1)

unfoldable pub to_int : ℤ → ℤ
to_int (pos n) = int_of_bits (n % 2 ^ 32)
to_int (negsuc n) = int_of_bits (2 ^ 32 - 1 - n % 2 ^ 32)

unfoldable pub to_uint64 : ℤ → ℕ
to_uint64 (pos n) = u64 n
to_uint64 (negsuc n) = 2 ^ 64 - 1 - n % 2 ^ 64

pub data ResultError : Type 0 where
  ie_recvresults ie_streamid : ResultError

infixl 5 ◌>>=◌
abbrev pub ◌>>=◌ : {A B : Type 0} → Option A → (A → Option B) → Option B
none >>= f = none
some a >>= f = f a

-- `SLIST_FOREACH … if (sp->id == sid) break`, and what is done with the stream.
abbrev pub eq_id : ℤ → ℕ → Bool
eq_id (pos a) n = a == n
eq_id (negsuc a) n = false

abbrev pub not_zero : ℤ → Bool
not_zero (pos n) = not (n == 0)
not_zero (negsuc n) = true

module _ (Double : Type 0) where
  -- The fields of a stream and its results that the two functions read or write.
  pub record ResultStream : Type 0 where
    pub id : ℕ
    pub sender : Bool
    pub jitter : Double
    pub cnt_error : ℤ
    pub omitted_cnt_error : ℤ
    pub packet_count : ℤ
    pub omitted_packet_count : ℤ
    pub peer_packet_count : ℤ
    pub peer_omitted_packet_count : ℤ
    pub bytes_sent : ℕ
    pub bytes_sent_omit : ℕ
    pub bytes_received : ℕ
    pub stream_retrans : ℤ
    pub start_time : IperfTime
    pub end_time : IperfTime
    pub receiver_time : Double
    pub sender_time : Double

  -- What is read of one stream. The counts that leave out the omitted time, and the times, may be
  -- missing.
  pub record Figures : Type 0 where
    pub sid : ℤ
    pub bytes : ℕ
    pub retransmits : ℤ
    pub jitter : Double
    pub errors : ℤ
    pub packets : ℤ
    pub omitted : Option (ℤ × ℤ)  -- errors and packets
    pub span : Option Double

module _ (D : Doubles) where
  open D use {Double, of_ℕ, sub}

  -- The time of a stream as the other end computes it.
  unfoldable pub span_of : ResultStream Double → Double
  unfolding iperf_time_diff iperf_time_in_secs
  span_of s =
      sub (iperf_time_in_secs D (iperf_time_diff s.start_time s.end_time).1)
        (iperf_time_in_secs D (iperf_time_diff s.start_time s.start_time).1)

  unfoldable pub omitted_errors : ℤ → ℤ → ℤ
  omitted_errors omitted_packets errors =
      if ltb_ℤ (pos 0) omitted_packets
      then (if ltb_ℤ (pos 0) errors then negsuc 0 else pos 0)
      else errors

  -- What a stream that sends takes over from its receiver.
  unfoldable pub set_received : Figures Double → ResultStream Double → ResultStream Double
  unfolding omitted_errors
  set_received f s = record s {
    jitter = f.jitter;
    cnt_error = f.errors;
    peer_packet_count = f.packets;
    bytes_received = f.bytes;
    peer_omitted_packet_count = elim f.omitted [ some o ↦ o.1 | none ↦ s.omitted_packet_count ];
    omitted_cnt_error = elim f.omitted [
      | some o ↦ o.0
      | none ↦ omitted_errors s.omitted_packet_count f.errors
    ];
    receiver_time = elim f.span [ some d ↦ d | none ↦ of_ℕ 0 ];
  }

  -- What a stream that receives takes over from its sender.
  unfoldable pub set_sent : Figures Double → ResultStream Double → ResultStream Double
  set_sent f s = record s {
    peer_packet_count = f.packets;
    bytes_sent = f.bytes;
    stream_retrans = f.retransmits;
    peer_omitted_packet_count = elim f.omitted [ some o ↦ o.1 | none ↦ f.packets ];
    sender_time = elim f.span [ some d ↦ d | none ↦ of_ℕ 0 ];
  }

  unfoldable pub set_figures : Figures Double → ResultStream Double → ResultStream Double
  unfolding set_received set_sent
  set_figures f s = if s.sender then set_received f s else set_sent f s

  -- The first stream of that number; `none` is IESTREAMID.
  unfoldable pub update_stream :
      Figures Double → List (ResultStream Double) → Option (List (ResultStream Double))
  unfolding set_figures
  update_stream f [] = none
  update_stream f (s ∷ l) =
      let others = update_stream f l >>= λ m. some (s ∷ m) in
      if eq_id f.sid s.id then some (set_figures f s ∷ l) else others

module _ (D : Doubles) (J : ResultJson D.Double) where
  open D use {Double}

  -- An item that is added if a condition holds.
  pub record Entry : Type 0 where
    pub present : Bool
    pub key : ResultKey
    pub value : Value J.Object Double

  abbrev pub number : Double → ResultKey → Entry
  number d k = record { present = true; key = k; value = number_item d }

  abbrev pub integer : ℤ → ResultKey → Entry
  integer n k = number (J.of_ℤ n) k

  abbrev pub text_of : Option Text → Text
  text_of none = []
  text_of (some x) = x

  unfoldable pub build : List Entry → J.Object → J.Object
  build [] o = o
  build (e ∷ rest) o = build rest (if e.present then J.add e.key e.value o else o)

  -- The fields of the test that the two functions read or write.
  pub record ResultTest : Type 0 where
    pub role : Role
    pub mode : Mode
    pub cpu_util : Double × Double × Double
    pub remote_cpu_util : Double × Double × Double
    pub sender_has_retransmits : ℤ
    pub other_side_has_retransmits : ℤ
    pub congestion_used : Option Text
    pub remote_congestion_used : Option Text
    pub get_server_output : Bool
    pub json_output : Bool
    pub json_top : J.Object
    pub server_output_list : List Text
    pub server_output_text : Option Text
    pub json_server_output : Option (Value J.Object Double)
    pub streams : List (ResultStream Double)

  unfoldable pub bytes_transferred : ResultStream Double → ℕ
  bytes_transferred s =
      if s.sender then sub_u64 s.bytes_sent s.bytes_sent_omit else s.bytes_received

  unfoldable pub retransmits_of : ℤ → ResultStream Double → ℤ
  unfolding to_int
  retransmits_of has_retransmits s =
      if s.sender && not_zero has_retransmits then to_int s.stream_retrans else negsuc 0

  -- The items of a stream.
  unfoldable pub stream_entries : ℤ → ResultStream Double → List Entry
  unfolding bytes_transferred retransmits_of
  stream_entries has_retransmits s =
      integer (pos s.id) id_key
      ∷ integer (pos (bytes_transferred s)) bytes_key
      ∷ integer (retransmits_of has_retransmits s) retransmits_key
      ∷ number s.jitter jitter_key
      ∷ integer s.cnt_error errors_key
      ∷ integer s.omitted_cnt_error omitted_errors_key
      ∷ integer s.packet_count packets_key
      ∷ integer s.omitted_packet_count omitted_packets_key
      ∷ number (iperf_time_in_secs D (iperf_time_diff s.start_time s.start_time).1) start_key
      ∷ number (iperf_time_in_secs D (iperf_time_diff s.start_time s.end_time).1) end_key
      ∷ []

  abbrev pub stream_object : ℤ → ResultStream Double → J.Object
  stream_object has_retransmits s = build (stream_entries has_retransmits s) J.create

  abbrev pub concat : List Text → Text
  concat [] = []
  concat (x ∷ l) = x ++ concat l

  abbrev pub sends_output : ResultTest → Bool
  sends_output t = is_role t.role server && t.get_server_output

  abbrev pub flag_sent : ResultTest → ℤ
  flag_sent t = if is_receiver t.mode then negsuc 0 else t.sender_has_retransmits

  -- The items of the results, in the order of `send_results`.
  unfoldable pub result_entries : ResultTest → List Entry
  unfolding build stream_entries
  result_entries t =
      number t.cpu_util.0 total_key
      ∷ number t.cpu_util.1 user_key
      ∷ number t.cpu_util.2 system_key
      ∷ integer (flag_sent t) flag_key
      ∷ record {
        present = is_some t.congestion_used;
        key = congestion_used_key;
        value = string_item (text_of t.congestion_used);
      }
      ∷ record {
        present = sends_output t && t.json_output;
        key = json_key;
        value = object_item t.json_top;
      }
      ∷ record {
        present = sends_output t && not t.json_output;
        key = text_key;
        value = string_item (concat t.server_output_list);
      }
      ∷ record {
        present = true;
        key = streams_key;
        value = array_item (map (stream_object t.sender_has_retransmits) t.streams);
      }
      ∷ []

  unfoldable pub send_results : ResultTest → Framed J.Char
  unfolding result_entries json_write
  send_results t = json_write (J.print (build (result_entries t) J.create))

  -- The items of an object by their names.
  abbrev pub Lookup : Type 0
  Lookup = ResultKey → Option (Value J.Object Double)

  abbrev pub items_of : J.Object → Lookup
  items_of o k = J.get k o

  -- An item of the type that is expected.
  abbrev pub number_of : Option (Value J.Object Double) → Option Double
  number_of (some (number_item d)) = some d
  number_of _ = none

  abbrev pub string_of : Option (Value J.Object Double) → Option Text
  string_of (some (string_item x)) = some x
  string_of _ = none

  abbrev pub array_of : Option (Value J.Object Double) → Option (List J.Object)
  array_of (some (array_item l)) = some l
  array_of _ = none

  abbrev pub number_at : Lookup → ResultKey → Option Double
  number_at get k = number_of (get k)

  abbrev pub integer_at : Lookup → ResultKey → Option ℤ
  integer_at get k = number_at get k >>= λ d. some (J.valueint d)

  -- Both of the omitted counts, or none of them; one alone is an error.
  abbrev pub both : Option ℤ → Option ℤ → Option (Option (ℤ × ℤ))
  both none none = some none
  both (some e) (some p) = some (some (e, p))
  both _ _ = none

  abbrev pub span_at : Option Double → Option Double → Option Double
  span_at (some a) (some b) = some (D.sub b a)
  span_at _ _ = none

  -- `none` where an item is missing.
  unfoldable pub read_figures : Lookup → Option (Figures Double)
  unfolding to_int to_uint64
  read_figures get = do
    sid ← integer_at get id_key
    bytes ← integer_at get bytes_key
    retransmits ← integer_at get retransmits_key
    jitter ← number_at get jitter_key
    errors ← integer_at get errors_key
    packets ← integer_at get packets_key
    omitted ← both (integer_at get omitted_errors_key) (integer_at get omitted_packets_key)
    some (record {
      sid = to_int sid;
      bytes = to_uint64 bytes;
      retransmits = to_int retransmits;
      jitter = jitter;
      errors = errors;
      packets = packets;
      omitted = omitted;
      span = span_at (number_at get start_key) (number_at get end_key);
    })

  -- The streams, and the last error.
  pub record Reading : Type 0 where
    pub error : Option ResultError
    pub streams : List (ResultStream Double)

  abbrev pub put_streams : Option (List (ResultStream Double)) → Reading → Reading
  put_streams none v = record v { error = some ie_streamid }
  put_streams (some l) v = record v { streams = l }

  abbrev pub put_figures : Option (Figures Double) → Reading → Reading
  put_figures none v = record v { error = some ie_recvresults }
  put_figures (some f) v = put_streams (update_stream D f v.streams) v

  abbrev pub read_stream : J.Object → Reading → Reading
  read_stream o v = put_figures (read_figures (items_of o)) v

  unfoldable pub read_streams : List J.Object → Reading → Reading
  unfolding read_figures update_stream
  read_streams [] v = v
  read_streams (o ∷ l) v = read_streams l (read_stream o v)

  -- The first part of `get_results`, where the numbers of the CPU and the flag are there.
  abbrev pub set_flags : ℤ → ResultTest → ResultTest
  set_flags flag t = record t {
    sender_has_retransmits = if is_receiver t.mode then flag else t.sender_has_retransmits;
    other_side_has_retransmits = elim t.mode [
      | receiver ↦ pos 0
      | bidirectional ↦ flag
      | sender ↦ t.other_side_has_retransmits
    ];
  }

  -- The output of the server as JSON, which is taken as it is, or as text.
  abbrev pub choose_output :
      Bool
      → Option (Value J.Object Double)
      → Option (Value J.Object Double)
      → ResultTest
      → ResultTest
  choose_output false json text t = t
  choose_output true (some v) text t = record t { json_server_output = some v }
  choose_output true none (some (string_item x)) t = record t { server_output_text = some x }
  choose_output true none _ t = t

  abbrev pub take_output : Lookup → ResultTest → ResultTest
  take_output get t =
      choose_output (is_role t.role client && t.get_server_output) (get json_key) (get text_key) t

  abbrev pub Received : Type 0
  Received = Option ResultError × ResultTest

  abbrev pub with_reading : Lookup → ResultTest → Reading → Received
  with_reading get t v = (v.error, take_output get (record t { streams = v.streams }))

  abbrev pub read_list : Lookup → ResultTest → Option (List J.Object) → Received
  read_list get t none = (some ie_recvresults, t)
  read_list get t (some l) =
      with_reading get t (read_streams l (record { error = none; streams = t.streams }))

  -- The four numbers that are always there.
  abbrev pub heading : Lookup → Option (Double × Double × Double × ℤ)
  heading get = do
    total ← number_at get total_key
    user ← number_at get user_key
    system ← number_at get system_key
    flag ← integer_at get flag_key
    some (total, user, system, to_int flag)

  abbrev pub read_heading : Lookup → ResultTest → Option (Double × Double × Double × ℤ) → Received
  read_heading get t none = (some ie_recvresults, t)
  read_heading get t (some (total, user, system, flag)) =
      let a = record (set_flags flag t) { remote_cpu_util = (total, user, system) } in
      read_list get a (array_of (get streams_key))

  abbrev pub set_congestion : Option Text → Received → Received
  set_congestion none r = r
  set_congestion (some x) r = (r.0, record r.1 { remote_congestion_used = some x })

  abbrev pub read_items : Lookup → ResultTest → Received
  read_items get t =
      set_congestion (string_of (get congestion_used_key)) (read_heading get t (heading get))

  abbrev pub read_results : Option J.Object → ResultTest → Received
  read_results none t = (some ie_recvresults, t)
  read_results (some o) t = read_items (items_of o) t

  -- The error number, where the result is -1, and the test.
  unfoldable pub get_results : Framed J.Char → ResultTest → Received
  unfolding json_read read_streams
  get_results f t = read_results (json_read 0 f >>= J.parse) t
