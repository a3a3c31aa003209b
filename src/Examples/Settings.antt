-- ===== src/Examples/Settings.antt =====
-- The parameters of a test in reverse, with objects that are lists of items.
use expo_iperf.Common.{
  ℕ, ◌≡◌, refl, Bool, true, false, if◌then◌else◌, Option, some, none, List, [], ◌∷◌, ◌++◌, arith,
}
use expo_iperf.Args.{receiver, tcp}
use expo_iperf.Params.Items.{Key, is_same, Item, number_item, Json, or_item, IsLawful}
use expo_iperf.Params.{Params, parameter_entries, build, send_parameters, read_parameters}
use expo_iperf.Params.Fields.{agreed}
use expo_iperf.Params.Exchange.{read-send_parameters}

abbrev look : Key → List (Key × Item) → Option Item
look k [] = none
look k ((a, v) ∷ o) = if is_same k a then some v else look k o

abbrev number_in : Item → ℕ
number_in (number_item n) = n
number_in _ = 0

abbrev items : Json
items = record {
  Object = List (Key × Item);
  Char = Key × Item;
  create = [];
  add = λ k v o. o ++ ((k, v) ∷ []);
  get = look;
  valueint = number_in;
  print = λ o. o;
  parse = some;
}

look_on :
    (s : Bool) (x : Item) (l g y : Option Item)
    → l ≡ or_item g y
    → (if s then some x else l) ≡ or_item (if s then some x else g) y
look_on true x l g y e = refl
look_on false x l g y e = e

look_end :
    (k a : Key) (v : Item) (o : List (Key × Item))
    → look k (o ++ ((a, v) ∷ [])) ≡ or_item (look k o) (if is_same k a then some v else none)
look_end k a v [] = refl
look_end k a v ((b, x) ∷ o) = look_on (is_same k b) x _ (look k o) _ (look_end k a v o)

items-IsLawful : IsLawful items
items-IsLawful = record {
  get-create = λ k. refl;
  get-add = λ k a v o h. look_end k a v o;
  valueint-number = λ n. refl;
  get-parse = λ o. (o, refl, λ k. refl);
}

abbrev test : Params
test = record {
  protocol = tcp;
  omit = 1;
  server_affinity = none;
  duration = 10;
  bytes = 0;
  blocks = 0;
  mss = 0;
  no_delay = true;
  num_streams = 4;
  reverse = true;
  bidirectional_flag = false;
  mode = receiver;
  socket_bufsize = 0;
  blksize = 131072;
  rate = 1000000;
  fqrate = 0;
  pacing_timer = 1000;
  burst = 0;
  tos = 0;
  flowlabel = 0;
  title = none;
  extra_data = some [];
  congestion = none;
  congestion_used = none;
  get_server_output = false;
  udp_counters_64bit = true;
  repeating_payload = false;
  zerocopy = 0;
  skip_rx_copy = 0;
}

abbrev at_server : Params
at_server = record test {
  omit = 0;
  no_delay = false;
  num_streams = 1;
  reverse = false;
  rate = 0;
  extra_data = none;
  udp_counters_64bit = false;
}

read-send_parameters_example :
    read_parameters items (send_parameters items [] test) at_server ≡ some (agreed test at_server)
unfolding parameter_entries build
read-send_parameters_example =
    read-send_parameters items items-IsLawful [] test at_server (omega arith) (omega arith)
      (omega arith)
