-- ===== src/Rate.antt =====
-- The server's limit on its total bit rate, `iperf_check_total_rate` of iperf_api.c: the bytes of the
-- last intervals in a cyclic array, which is allocated for `MAX_INTERVAL` entries. A write behind
-- the array gives `none`. `double` arithmetic is a parameter.
pub mod Window
pub mod Exceeded
use expo_iperf.Common.{
  ℕ, suc, ◌+◌, ◌*◌, Bool, true, false, ◌||◌, ◌==◌, if◌then◌else◌, ltb, leb, u64, Option, none, some,
  List, [], ◌∷◌, length, set, take, replicate,
}
use expo_iperf.Double.{Doubles}

abbrev pub max_interval : ℕ
max_interval = 60

pub record Limit : Type 0 where
  pub done : Bool
  pub bitrate_limit : ℕ
  pub stats_per_interval : ℕ
  pub stats_count : ℕ
  pub intervals_traffic_bytes : List ℕ
  pub last_interval_index : ℕ
  pub exceeded : Bool

-- What `iperf_new_test` and `iperf_reset_test` leave, with the two settings.
unfoldable pub reset : ℕ → ℕ → Limit
reset limit n = record {
  done = false;
  bitrate_limit = limit;
  stats_per_interval = n;
  stats_count = 0;
  intervals_traffic_bytes = replicate max_interval 0;
  last_interval_index = 0;
  exceeded = false;
}

abbrev pub next_index : Limit → ℕ
next_index s =
    if leb s.stats_per_interval (s.last_interval_index + 1) then 0 else s.last_interval_index + 1

-- The assignment to an entry of the array, and whether the entry exists.
abbrev pub stored : Limit → ℕ → Limit
stored s bytes = record s {
  last_interval_index = next_index s;
  intervals_traffic_bytes = set s.intervals_traffic_bytes (next_index s) bytes;
  stats_count = u64 (s.stats_count + 1);
}

abbrev pub is_inside : Limit → Bool
is_inside s = ltb (next_index s) (length s.intervals_traffic_bytes)

-- The loop that adds the entries up.
unfoldable pub add_up : List ℕ → ℕ → ℕ
add_up [] total_bytes = total_bytes
add_up (x ∷ xs) total_bytes = add_up xs (u64 (total_bytes + x))

module _ (D : Doubles) (stats_interval : D.Double) where
  open D use {of_ℕ, mul, div, truncate}

  unfoldable pub bits_per_second : ℕ → ℕ → ℕ
  bits_per_second n total = truncate (div (of_ℕ (u64 (total * 8))) (mul stats_interval (of_ℕ n)))

  unfoldable pub judge : Limit → Limit
  judge s = if ltb s.stats_count s.stats_per_interval then s else record s {
    exceeded =
        s.exceeded
        || ltb s.bitrate_limit (
            bits_per_second s.stats_per_interval
              (add_up (take s.stats_per_interval s.intervals_traffic_bytes) 0));
  }

  unfoldable pub iperf_check_total_rate : Limit → ℕ → Option Limit
  iperf_check_total_rate s bytes =
      if s.done || (s.bitrate_limit == 0)
      then some s
      else if is_inside s
      then some (judge (stored s bytes))
      else none

  -- One check for each interval.
  unfoldable pub check_all : List ℕ → Limit → Option Limit
  check_all [] s = some s
  check_all (x ∷ xs) s = elim (iperf_check_total_rate s x) [ none ↦ none | some a ↦ check_all xs a ]
