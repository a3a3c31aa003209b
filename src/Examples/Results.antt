-- ===== src/Examples/Results.antt =====
-- The results of a test in both directions, with objects that are lists of items.
use expo_iperf.Common.{
  ℕ, ◌+◌, ◌*◌, ◌/◌, ◌≡◌, ◌↔◌, refl, Bool, true, false, if◌then◌else◌, Option, some, none, List, [],
  ◌∷◌, All, ap, arith,
}
use expo_iperf.Common.Int.{ℤ, pos, pos_part, neg_part, sub_ℕ, ltb_ℤ}
use expo_iperf.Double.{Doubles, iperf_time_in_secs}
use expo_iperf.Clock.{iperf_time_diff}
use expo_iperf.Args.{Text, client, server, bidirectional}
use expo_iperf.Params.Items.{or_item}
use expo_iperf.Results.Items.{
  ResultKey, is_same, Value, number_item, string_item, array_item, object_item, ResultJson,
  IsLawful,
}
use expo_iperf.Results.{
  ResultStream, ResultTest, bytes_transferred, retransmits_of, build, result_entries, send_results,
  get_results, read_streams, stream_object, ie_recvresults,
}
use expo_iperf.Results.Matching.{ids}
use expo_iperf.Results.Exchange.{IsSent, agreed, get-send_results}
use expo_iperf.Results.Readable.{is_readable}
use expo_iperf.Results.Errors.{read_streams-error}

-- Whole numbers are enough for these results.
abbrev integers : Doubles
integers = record {
  Double = ℤ;
  of_ℕ = pos;
  add = λ a b. sub_ℕ (pos_part a + pos_part b) (neg_part a + neg_part b);
  sub = λ a b. sub_ℕ (pos_part a + neg_part b) (pos_part b + neg_part a);
  mul = λ a b. pos (pos_part a * pos_part b);
  div = λ a b. pos (pos_part a / pos_part b);
  is_less = ltb_ℤ;
  is_zero = λ a. false;
  round = pos_part;
  truncate = pos_part;
}

-- An object is a list of items, with the objects of an array in it.
mutual
  data Tree : Type 0 where
    empty : Tree
    number : ResultKey → ℤ → Tree → Tree
    string : ResultKey → Text → Tree → Tree
    array : ResultKey → Trees → Tree → Tree
    object : ResultKey → Tree → Tree → Tree

  data Trees : Type 0 where
    nil : Trees
    cons : Tree → Trees → Trees

abbrev list_of : Trees → List Tree
list_of nil = []
list_of (cons t l) = t ∷ list_of l

abbrev trees_of : List Tree → Trees
trees_of [] = nil
trees_of (t ∷ l) = cons t (trees_of l)

list_of-trees_of : (l : List Tree) → list_of (trees_of l) ≡ l
list_of-trees_of [] = refl
list_of-trees_of (t ∷ l) = ap (◌∷◌ t) (list_of-trees_of l)

abbrev item : ResultKey → Value Tree ℤ → Tree
item k (number_item d) = number k d empty
item k (string_item x) = string k x empty
item k (array_item l) = array k (trees_of l) empty
item k (object_item o) = object k o empty

abbrev append : Tree → Tree → Tree
append empty u = u
append (number k d t) u = number k d (append t u)
append (string k x t) u = string k x (append t u)
append (array k l t) u = array k l (append t u)
append (object k o t) u = object k o (append t u)

abbrev look : ResultKey → Tree → Option (Value Tree ℤ)
look k empty = none
look k (number a d t) = if is_same k a then some (number_item d) else look k t
look k (string a x t) = if is_same k a then some (string_item x) else look k t
look k (array a l t) = if is_same k a then some (array_item (list_of l)) else look k t
look k (object a o t) = if is_same k a then some (object_item o) else look k t

abbrev first_tree : List Tree → Option Tree
first_tree [] = none
first_tree (t ∷ l) = some t

abbrev trees : ResultJson ℤ
trees = record {
  Object = Tree;
  Char = Tree;
  create = empty;
  add = λ k v o. append o (item k v);
  get = look;
  of_ℤ = λ n. n;
  valueint = λ n. n;
  print = λ o. o ∷ [];
  parse = first_tree;
  IsKept = λ d. Unit;
  IsPrintable = λ o. Unit;
}

look_on :
    (s : Bool) (x : Value Tree ℤ) (l g y : Option (Value Tree ℤ))
    → l ≡ or_item g y
    → (if s then some x else l) ≡ or_item (if s then some x else g) y
look_on true x l g y e = refl
look_on false x l g y e = e

look_item :
    (k a : ResultKey) (v : Value Tree ℤ)
    → look k (item a v) ≡ (if is_same k a then some v else none)
look_item k a (number_item d) = refl
look_item k a (string_item x) = refl
look_item k a (array_item l) =
    ap (λ (m : List Tree). if is_same k a then some (array_item m) else none) (list_of-trees_of l)
look_item k a (object_item o) = refl

look-append :
    (k a : ResultKey) (v : Value Tree ℤ) (o : Tree)
    → look k (append o (item a v)) ≡ or_item (look k o) (if is_same k a then some v else none)
look-append k a v empty = look_item k a v
look-append k a v (number b d t) = look_on (is_same k b) _ _ (look k t) _ (look-append k a v t)
look-append k a v (string b d t) = look_on (is_same k b) _ _ (look k t) _ (look-append k a v t)
look-append k a v (array b d t) = look_on (is_same k b) _ _ (look k t) _ (look-append k a v t)
look-append k a v (object b d t) = look_on (is_same k b) _ _ (look k t) _ (look-append k a v t)

trees-IsLawful : IsLawful trees
trees-IsLawful = record {
  get-create = λ k. refl;
  get-add = λ k a v o. look-append k a v o;
  kept-of_ℤ = λ n h. tt;
  valueint-of_ℤ = λ n h. refl;
  printable-create = tt;
  printable-add = λ a v o h p. tt;
  parse-print = λ o h. refl;
}

-- The first stream of the client sends, and the server has the streams in the other order.
abbrev stream : ℕ → Bool → ℕ → ResultStream ℤ
stream n sends count = record {
  id = n;
  sender = sends;
  jitter = pos 3;
  cnt_error = pos 2;
  omitted_cnt_error = pos 1;
  packet_count = pos count;
  omitted_packet_count = pos 1;
  peer_packet_count = pos 0;
  peer_omitted_packet_count = pos 0;
  bytes_sent = count * 1000;
  bytes_sent_omit = 1000;
  bytes_received = count * 999;
  stream_retrans = pos 5;
  start_time = record { secs = 10; usecs = 0 };
  end_time = record { secs = 20; usecs = 0 };
  receiver_time = pos 0;
  sender_time = pos 0;
}

abbrev client_test : ResultTest integers trees
client_test = record {
  role = client;
  mode = bidirectional;
  cpu_util = (pos 12, pos 4, pos 8);
  remote_cpu_util = (pos 0, pos 0, pos 0);
  sender_has_retransmits = pos 1;
  other_side_has_retransmits = pos 0;
  congestion_used = none;
  remote_congestion_used = none;
  get_server_output = true;
  json_output = false;
  json_top = empty;
  server_output_list = [];
  server_output_text = none;
  json_server_output = none;
  streams = stream 1 true 40 ∷ stream 3 false 30 ∷ [];
}

abbrev server_test : ResultTest integers trees
server_test = record client_test {
  role = server;
  congestion_used = some (b'c' ∷ []);
  server_output_list = (b'o' ∷ []) ∷ (b'k' ∷ []) ∷ [];
  streams = stream 3 true 31 ∷ stream 1 false 39 ∷ [];
}

server_test-IsSent : IsSent integers trees server_test client_test
unfolding bytes_transferred retransmits_of iperf_time_in_secs iperf_time_diff
server_test-IsSent = record {
  total_kept = tt;
  user_kept = tt;
  system_kept = tt;
  flag_small = omega arith;
  streams_sendable = (omega arith, (omega arith, tt));
  distinct = omega arith;
  distinct_here = omega arith;
  known = (refl, (refl, tt));
  output_printable = tt;
  congestion_text = omega arith;
  output_text = omega arith;
}

get-send_results_example :
    get_results integers trees (send_results integers trees server_test) client_test
    ≡ (none, agreed integers trees server_test client_test)
unfolding result_entries build
get-send_results_example =
    get-send_results integers trees trees-IsLawful server_test client_test server_test-IsSent
      (omega arith) (omega arith)

-- An object without items, behind one that is complete.
read_streams-error_example :
    ((read_streams integers trees
        (stream_object integers trees (pos 1) (stream 1 false 39) ∷ empty ∷ [])
        (record { error = none; streams = client_test.streams })).error
      ≡ none)
    ↔ All
        (λ o. is_readable integers trees (ids integers client_test.streams) o ≡ true)
        (stream_object integers trees (pos 1) (stream 1 false 39) ∷ empty ∷ [])
read_streams-error_example =
    read_streams-error integers trees
      (stream_object integers trees (pos 1) (stream 1 false 39) ∷ empty ∷ []) client_test.streams

results_refused :
    (read_streams integers trees
      (empty ∷ [])
      (record { error = none; streams = client_test.streams })).error
    ≡ some ie_recvresults
unfolding read_streams
results_refused = refl
