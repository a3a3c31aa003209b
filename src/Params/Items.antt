-- ===== src/Params/Items.antt =====
-- The names and the values of the items of a JSON object, and cJSON, a library of another project,
-- as a parameter with its laws.
use expo_iperf.Common.{
  ℕ, ◌^◌, ◌<◌, ◌==◌, ◌≡◌, refl, Bool, true, false, ◌&&◌, if◌then◌else◌, Option, none, some, List,
}
use expo_iperf.Args.{Text}

-- The names of the items.
pub data Key : Type 0 where
  tcp_key udp_key omit_key affinity_key time_key num_key blockcount_key mss_key nodelay_key : Key
  parallel_key reverse_key bidirectional_key window_key len_key bandwidth_key fqrate_key : Key
  pacing_key burst_key tos_key flowlabel_key title_key extra_key congestion_key used_key : Key
  output_key counters_key repeating_key zerocopy_key skip_key version_key : Key

-- A number for each name: two names are the same if their numbers are.
abbrev pub key_number : Key → ℕ
key_number tcp_key = 0
key_number udp_key = 1
key_number omit_key = 2
key_number affinity_key = 3
key_number time_key = 4
key_number num_key = 5
key_number blockcount_key = 6
key_number mss_key = 7
key_number nodelay_key = 8
key_number parallel_key = 9
key_number reverse_key = 10
key_number bidirectional_key = 11
key_number window_key = 12
key_number len_key = 13
key_number bandwidth_key = 14
key_number fqrate_key = 15
key_number pacing_key = 16
key_number burst_key = 17
key_number tos_key = 18
key_number flowlabel_key = 19
key_number title_key = 20
key_number extra_key = 21
key_number congestion_key = 22
key_number used_key = 23
key_number output_key = 24
key_number counters_key = 25
key_number repeating_key = 26
key_number zerocopy_key = 27
key_number skip_key = 28
key_number version_key = 29

abbrev pub is_same : Key → Key → Bool
is_same a b = key_number a == key_number b

pub data Item : Type 0 where
  true_item : Item
  number_item : ℕ → Item  -- `valueint`
  string_item : Text → Item

-- The operations of cJSON: `valueint` is that field of an item of any type, `get` finds the first item of a name, `print` and `parse` are
-- cJSON_PrintUnformatted and cJSON_Parse.
pub record Json : Type 1 where
  pub Object : Type 0
  pub Char : Type 0
  pub create : Object
  pub add : Key → Item → Object → Object
  pub get : Key → Object → Option Item
  pub valueint : Item → ℕ
  pub print : Object → List Char
  pub parse : List Char → Option Object

-- A number is kept as a `double`: below 2 ^ 53 it is exact.
abbrev pub IsExact : Item → Type 0
IsExact (number_item n) = n < 2 ^ 53
IsExact _ = Unit

abbrev pub or_item : {A : Type 0} → Option A → Option A → Option A
or_item none o = o
or_item (some v) o = some v

-- What cJSON documents: an item is added behind the others, and a text that is printed and parsed
-- has the items again.
pub record IsLawful (J : Json) : Type 0 where
  pub get-create : (k : Key) → J.get k J.create ≡ none
  pub get-add :
      (k a : Key) (v : Item) (o : J.Object)
      → IsExact v
      → J.get k (J.add a v o) ≡ or_item (J.get k o) (if is_same k a then some v else none)
  pub valueint-number : (n : ℕ) → J.valueint (number_item n) ≡ n
  pub get-parse :
      (o : J.Object)
      → (p : J.Object) × (J.parse (J.print o) ≡ some p) × ((k : Key) → J.get k p ≡ J.get k o)

-- What an item that is added behind the others changes, where it is there.
module _ {A : Type 0} where
  pub or_item-if :
      (g x : Option A) (s : Bool) (v : A)
      → or_item (or_item g (if s then some v else none)) x
        ≡ or_item g (if s && true then some v else x)
  or_item-if (some w) x s v = refl
  or_item-if none x true v = refl
  or_item-if none x false v = refl

  pub or_item-none : (g : Option A) → g ≡ or_item g none
  or_item-none none = refl
  or_item-none (some v) = refl

  pub skip_absent : (s : Bool) (v : A) (x : Option A) → x ≡ (if s && false then some v else x)
  skip_absent true v x = refl
  skip_absent false v x = refl
