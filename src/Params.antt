-- ===== src/Params.antt =====
-- iperf_api.c: the parameters of a test, which the client sends to the server as a JSON text. The
-- library cJSON, which is another project's, is a parameter.
pub mod Items
pub mod Framing
pub mod Fields
pub mod Exchange
use expo_iperf.Common.{
  ℕ, ◌+◌, ◌*◌, ◌^◌, ◌<◌, ◌==◌, ◌≡◌, Bool, true, false, not, ◌&&◌, ◌||◌, if◌then◌else◌, leb, Option,
  none, some, List, [], ◌∷◌, ◌++◌, length, take,
}
use expo_iperf.Args.{
  Text, Mode, sender, receiver, bidirectional, Protocol, tcp, udp, is_tcp, is_receiver,
}
use expo_iperf.Params.Items.{
  Key, is_same, Item, true_item, number_item, string_item, Json, IsExact, or_item, IsLawful,
  tcp_key, udp_key, omit_key, affinity_key, time_key, num_key, blockcount_key, mss_key, nodelay_key,
  parallel_key, reverse_key, bidirectional_key, window_key, len_key, bandwidth_key, fqrate_key,
  pacing_key, burst_key, tos_key, flowlabel_key, title_key, extra_key, congestion_key, used_key,
  output_key, counters_key, repeating_key, zerocopy_key, skip_key, version_key,
}
use expo_iperf.Params.Framing.{Framed, json_write, json_read}

abbrev pub max_params_json_string : ℕ
max_params_json_string = 8192

-- The fields that the two functions read or write.
pub record Params : Type 0 where
  pub protocol : Protocol
  pub omit : ℕ
  pub server_affinity : Option ℕ
  pub duration : ℕ
  pub bytes : ℕ
  pub blocks : ℕ
  pub mss : ℕ
  pub no_delay : Bool
  pub num_streams : ℕ
  pub reverse : Bool
  pub bidirectional_flag : Bool
  pub mode : Mode
  pub socket_bufsize : ℕ
  pub blksize : ℕ
  pub rate : ℕ
  pub fqrate : ℕ
  pub pacing_timer : ℕ
  pub burst : ℕ
  pub tos : ℕ
  pub flowlabel : ℕ
  pub title : Option Text
  pub extra_data : Option Text
  pub congestion : Option Text
  pub congestion_used : Option Text
  pub get_server_output : Bool
  pub udp_counters_64bit : Bool
  pub repeating_payload : Bool
  pub zerocopy : ℕ
  pub skip_rx_copy : ℕ

-- An item that is added if a condition holds.
pub record Entry : Type 0 where
  pub present : Bool
  pub key : Key
  pub item : Item

abbrev pub flag : Bool → Key → Entry
flag b k = record { present = b; key = k; item = true_item }

abbrev pub always : ℕ → Key → Entry
always n k = record { present = true; key = k; item = number_item n }

abbrev pub unless_zero : ℕ → Key → Entry
unless_zero n k = record { present = not (n == 0); key = k; item = number_item n }

abbrev pub number_flag : Bool → Key → Entry
number_flag b k = record { present = b; key = k; item = number_item 1 }

abbrev pub is_some : {A : Type 0} → Option A → Bool
is_some none = false
is_some (some a) = true

abbrev pub item_of : Option ℕ → Item
item_of none = true_item
item_of (some n) = number_item n

abbrev pub text_item : Option Text → Item
text_item none = true_item
text_item (some x) = string_item x

abbrev pub optional_number : Option ℕ → Key → Entry
optional_number o k = record { present = is_some o; key = k; item = item_of o }

abbrev pub optional_text : Option Text → Key → Entry
optional_text o k = record { present = is_some o; key = k; item = text_item o }

-- The items that `send_parameters` adds, in its order.
unfoldable pub parameter_entries : Text → Params → List Entry
parameter_entries version p =
    flag (is_tcp p.protocol) tcp_key
    ∷ flag (not (is_tcp p.protocol)) udp_key
    ∷ always p.omit omit_key
    ∷ optional_number p.server_affinity affinity_key
    ∷ always p.duration time_key
    ∷ always p.bytes num_key
    ∷ always p.blocks blockcount_key
    ∷ unless_zero p.mss mss_key
    ∷ flag p.no_delay nodelay_key
    ∷ always p.num_streams parallel_key
    ∷ flag p.reverse reverse_key
    ∷ flag p.bidirectional_flag bidirectional_key
    ∷ unless_zero p.socket_bufsize window_key
    ∷ unless_zero p.blksize len_key
    ∷ unless_zero p.rate bandwidth_key
    ∷ unless_zero p.fqrate fqrate_key
    ∷ unless_zero p.pacing_timer pacing_key
    ∷ unless_zero p.burst burst_key
    ∷ unless_zero p.tos tos_key
    ∷ unless_zero p.flowlabel flowlabel_key
    ∷ optional_text p.title title_key
    ∷ optional_text p.extra_data extra_key
    ∷ optional_text p.congestion congestion_key
    ∷ optional_text p.congestion_used used_key
    ∷ number_flag p.get_server_output output_key
    ∷ number_flag p.udp_counters_64bit counters_key
    ∷ number_flag p.repeating_payload repeating_key
    ∷ unless_zero p.zerocopy zerocopy_key
    ∷ unless_zero p.skip_rx_copy skip_key
    ∷ optional_text (some version) version_key
    ∷ []

-- What an item sets, if it is there and has the type that is expected.
abbrev pub on_true : {A : Type 0} → Option Item → A → A → A
on_true (some true_item) a b = a
on_true _ a b = b

abbrev pub number_or : Option Item → ℕ → ℕ
number_or (some (number_item n)) m = n
number_or _ m = m

abbrev pub on_number : {A : Type 0} → Option Item → A → A → A
on_number (some (number_item n)) a b = a
on_number _ a b = b

abbrev pub affinity_or : Option Item → Option ℕ → Option ℕ
affinity_or (some (number_item n)) m = some n
affinity_or _ m = m

abbrev pub text_or : Option Item → Option Text → Option Text
text_or (some (string_item x)) m = some x
text_or _ m = m

-- An item of any type.
abbrev pub any_number : (Item → ℕ) → Option Item → ℕ → ℕ
any_number valueint none m = m
any_number valueint (some v) m = valueint v

-- The items, set in the test of the server: its mode is SENDER in reverse. `sender_has_retransmits`
-- is not modelled.
abbrev pub set_items : (Item → ℕ) → (Key → Option Item) → Params → Params
set_items valueint get p = record {
  protocol = on_true (get udp_key) udp (on_true (get tcp_key) tcp p.protocol);
  omit = number_or (get omit_key) p.omit;
  server_affinity = affinity_or (get affinity_key) p.server_affinity;
  duration = number_or (get time_key) p.duration;
  bytes = number_or (get num_key) 0;
  blocks = number_or (get blockcount_key) 0;
  mss = number_or (get mss_key) p.mss;
  no_delay = on_true (get nodelay_key) true p.no_delay;
  num_streams = number_or (get parallel_key) p.num_streams;
  reverse = on_true (get reverse_key) true p.reverse;
  bidirectional_flag = on_true (get bidirectional_key) true p.bidirectional_flag;
  mode = on_true (get bidirectional_key) bidirectional (on_true (get reverse_key) sender p.mode);
  socket_bufsize = number_or (get window_key) p.socket_bufsize;
  blksize = number_or (get len_key) p.blksize;
  rate = number_or (get bandwidth_key) p.rate;
  fqrate = number_or (get fqrate_key) p.fqrate;
  pacing_timer = number_or (get pacing_key) p.pacing_timer;
  burst = number_or (get burst_key) p.burst;
  tos = number_or (get tos_key) p.tos;
  flowlabel = number_or (get flowlabel_key) p.flowlabel;
  title = text_or (get title_key) p.title;
  extra_data = text_or (get extra_key) p.extra_data;
  congestion = text_or (get congestion_key) p.congestion;
  congestion_used = text_or (get used_key) p.congestion_used;
  get_server_output = on_number (get output_key) true p.get_server_output;
  udp_counters_64bit = on_number (get counters_key) true p.udp_counters_64bit;
  repeating_payload = on_number (get repeating_key) true p.repeating_payload;
  zerocopy = number_or (get zerocopy_key) p.zerocopy;
  skip_rx_copy = any_number valueint (get skip_key) p.skip_rx_copy;
}

module _ (J : Json) where
  open J use {Object, create, add, get, print, parse}

  unfoldable pub build : List Entry → Object → Object
  build [] o = o
  build (e ∷ rest) o = build rest (if e.present then add e.key e.item o else o)

  unfoldable pub send_parameters : Text → Params → Framed J.Char
  unfolding build parameter_entries json_write
  send_parameters version p = json_write (print (build (parameter_entries version p) create))

  abbrev pub read_items : Object → Params → Params
  read_items o p = set_items J.valueint (λ k. get k o) p

  -- The object, if there is one, read out.
  abbrev pub read_object : Option Object → Params → Option Params
  read_object none p = none
  read_object (some o) p = some (read_items o p)

  -- The text that was read, if there is one, parsed and read out.
  abbrev pub read_text : Option (List J.Char) → Params → Option Params
  read_text none p = none
  read_text (some str) p = read_object (parse str) p

  -- `get_parameters`; `none` is IERECVPARAMS.
  unfoldable pub read_parameters : Framed J.Char → Params → Option Params
  unfolding json_read
  read_parameters f p = read_text (json_read max_params_json_string f) p
