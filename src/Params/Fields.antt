-- ===== src/Params/Fields.antt =====
-- What the server sets by the items that the client adds, field by field.
use expo_iperf.Common.{
  ℕ, ◌==◌, ◌≡◌, ◌∙◌, refl, ap, Bool, true, false, not, ◌&&◌, ◌||◌, if◌then◌else◌, Option, none,
  some, List, [], ◌∷◌,
}
use expo_iperf.Args.{Text, Mode, sender, bidirectional, Protocol, tcp, udp, is_tcp}
use expo_iperf.Params.Items.{Key, is_same, Item, true_item, number_item}
use expo_iperf.Params.{
  Params, Entry, is_some, item_of, text_item, parameter_entries, on_true, number_or, on_number,
  affinity_or, text_or, any_number, set_items,
}

-- The item of a name among those that are added.
abbrev pub found : List Entry → Key → Option Item
found [] k = none
found (e ∷ rest) k = if is_same k e.key && e.present then some e.item else found rest k

-- A number that is sent unless it is 0.
abbrev pub kept : ℕ → ℕ → ℕ
kept n m = if n == 0 then m else n

abbrev pub kept_text : Option Text → Option Text → Option Text
kept_text none m = m
kept_text (some x) m = some x

abbrev pub kept_number : Option ℕ → Option ℕ → Option ℕ
kept_number none m = m
kept_number (some n) m = some n

-- What the server has in the end: what is always sent, and what is sent where it is set; it sends
-- where the client receives.
abbrev pub agreed : Params → Params → Params
agreed c s = record {
  protocol = c.protocol;
  omit = c.omit;
  server_affinity = kept_number c.server_affinity s.server_affinity;
  duration = c.duration;
  bytes = c.bytes;
  blocks = c.blocks;
  mss = kept c.mss s.mss;
  no_delay = c.no_delay || s.no_delay;
  num_streams = c.num_streams;
  reverse = c.reverse || s.reverse;
  bidirectional_flag = c.bidirectional_flag || s.bidirectional_flag;
  mode = if c.bidirectional_flag then bidirectional else if c.reverse then sender else s.mode;
  socket_bufsize = kept c.socket_bufsize s.socket_bufsize;
  blksize = kept c.blksize s.blksize;
  rate = kept c.rate s.rate;
  fqrate = kept c.fqrate s.fqrate;
  pacing_timer = kept c.pacing_timer s.pacing_timer;
  burst = kept c.burst s.burst;
  tos = kept c.tos s.tos;
  flowlabel = kept c.flowlabel s.flowlabel;
  title = kept_text c.title s.title;
  extra_data = kept_text c.extra_data s.extra_data;
  congestion = kept_text c.congestion s.congestion;
  congestion_used = kept_text c.congestion_used s.congestion_used;
  get_server_output = c.get_server_output || s.get_server_output;
  udp_counters_64bit = c.udp_counters_64bit || s.udp_counters_64bit;
  repeating_payload = c.repeating_payload || s.repeating_payload;
  zerocopy = kept c.zerocopy s.zerocopy;
  skip_rx_copy = kept c.skip_rx_copy s.skip_rx_copy;
}

protocol_lem :
    (p q : Protocol)
    → on_true
        (if not (is_tcp p) then some true_item else none)
        udp
        (on_true (if is_tcp p then some true_item else none) tcp q)
      ≡ p
protocol_lem tcp q = refl
protocol_lem udp q = refl

flag_lem :
    {A : Type 0} (b : Bool) (x y : A)
    → on_true (if b then some true_item else none) x y ≡ (if b then x else y)
flag_lem true x y = refl
flag_lem false x y = refl

true_or : (b c : Bool) → on_true (if b then some true_item else none) true c ≡ (b || c)
true_or true c = refl
true_or false c = refl

number_true : (b c : Bool) → on_number (if b then some (number_item 1) else none) true c ≡ (b || c)
number_true true c = refl
number_true false c = refl

kept_by :
    (n m : ℕ) (b : Bool)
    → number_or (if not b then some (number_item n) else none) m ≡ (if b then m else n)
kept_by n m true = refl
kept_by n m false = refl

kept_any :
    (valueint : Item → ℕ) (n m : ℕ) (b : Bool)
    → valueint (number_item n) ≡ n
    → any_number valueint (if not b then some (number_item n) else none) m ≡ (if b then m else n)
kept_any valueint n m true e = refl
kept_any valueint n m false e = e

affinity_lem :
    (o m : Option ℕ)
    → affinity_or (if is_some o then some (item_of o) else none) m ≡ kept_number o m
affinity_lem none m = refl
affinity_lem (some n) m = refl

text_lem :
    (o m : Option Text) → text_or (if is_some o then some (text_item o) else none) m ≡ kept_text o m
text_lem none m = refl
text_lem (some x) m = refl

pub set_found :
    (valueint : Item → ℕ) (version : Text) (c s : Params)
    → ((n : ℕ) → valueint (number_item n) ≡ n)
    → set_items valueint (found (parameter_entries version c)) s ≡ agreed c s
unfolding parameter_entries
set_found valueint version c s e i = record {
  protocol = protocol_lem c.protocol s.protocol i;
  omit = c.omit;
  server_affinity = affinity_lem c.server_affinity s.server_affinity i;
  duration = c.duration;
  bytes = c.bytes;
  blocks = c.blocks;
  mss = kept_by c.mss s.mss (c.mss == 0) i;
  no_delay = true_or c.no_delay s.no_delay i;
  num_streams = c.num_streams;
  reverse = true_or c.reverse s.reverse i;
  bidirectional_flag = true_or c.bidirectional_flag s.bidirectional_flag i;
  mode =
      (flag_lem c.bidirectional_flag bidirectional _
          ∙ ap (λ (m : Mode). if c.bidirectional_flag then bidirectional else m)
              (flag_lem c.reverse sender s.mode))
        i;
  socket_bufsize = kept_by c.socket_bufsize s.socket_bufsize (c.socket_bufsize == 0) i;
  blksize = kept_by c.blksize s.blksize (c.blksize == 0) i;
  rate = kept_by c.rate s.rate (c.rate == 0) i;
  fqrate = kept_by c.fqrate s.fqrate (c.fqrate == 0) i;
  pacing_timer = kept_by c.pacing_timer s.pacing_timer (c.pacing_timer == 0) i;
  burst = kept_by c.burst s.burst (c.burst == 0) i;
  tos = kept_by c.tos s.tos (c.tos == 0) i;
  flowlabel = kept_by c.flowlabel s.flowlabel (c.flowlabel == 0) i;
  title = text_lem c.title s.title i;
  extra_data = text_lem c.extra_data s.extra_data i;
  congestion = text_lem c.congestion s.congestion i;
  congestion_used = text_lem c.congestion_used s.congestion_used i;
  get_server_output = number_true c.get_server_output s.get_server_output i;
  udp_counters_64bit = number_true c.udp_counters_64bit s.udp_counters_64bit i;
  repeating_payload = number_true c.repeating_payload s.repeating_payload i;
  zerocopy = kept_by c.zerocopy s.zerocopy (c.zerocopy == 0) i;
  skip_rx_copy =
      kept_any valueint c.skip_rx_copy s.skip_rx_copy (c.skip_rx_copy == 0) (e c.skip_rx_copy) i;
}
