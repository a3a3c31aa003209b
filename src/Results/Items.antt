-- ===== src/Results/Items.antt =====
-- The items of the results in JSON, with cJSON, a library of another project, as a parameter; the
-- operations are those of Params/Items, with numbers that are `double` and with arrays.
use expo_iperf.Common.{
  ℕ, ◌+◌, ◌^◌, ◌<◌, ◌==◌, ◌≡◌, Bool, if◌then◌else◌, Option, none, some, List, All,
}
use expo_iperf.Common.Int.{ℤ, pos_part, neg_part}
use expo_iperf.Args.{Text}
use expo_iperf.Params.Items.{or_item}

-- The names of the items: those of the results and those of a stream in them.
pub data ResultKey : Type 0 where
  total_key user_key system_key flag_key congestion_used_key json_key text_key : ResultKey
  streams_key id_key bytes_key retransmits_key jitter_key errors_key : ResultKey
  omitted_errors_key packets_key omitted_packets_key start_key end_key : ResultKey

-- A number for each name: two names are the same if their numbers are.
abbrev pub key_number : ResultKey → ℕ
key_number total_key = 0
key_number user_key = 1
key_number system_key = 2
key_number flag_key = 3
key_number congestion_used_key = 4
key_number json_key = 5
key_number text_key = 6
key_number streams_key = 7
key_number id_key = 8
key_number bytes_key = 9
key_number retransmits_key = 10
key_number jitter_key = 11
key_number errors_key = 12
key_number omitted_errors_key = 13
key_number packets_key = 14
key_number omitted_packets_key = 15
key_number start_key = 16
key_number end_key = 17

abbrev pub is_same : ResultKey → ResultKey → Bool
is_same a b = key_number a == key_number b

pub data Value (Object Double : Type 0) : Type 0 where
  number_item : Double → Value Object Double
  string_item : Text → Value Object Double
  array_item : List Object → Value Object Double
  object_item : Object → Value Object Double

-- The operations of cJSON. `of_ℤ` is the conversion of an integer to `double`, and `valueint` the
-- integer that cJSON keeps of a number. `IsKept` holds of a number that is parsed as it was printed:
-- cJSON prints 15 digits where what they read as is within a relative DBL_EPSILON of the number, so
-- that of a number that needs more digits a near one may come back.
pub record ResultJson (Double : Type 0) : Type 1 where
  pub Object : Type 0
  pub Char : Type 0
  pub create : Object
  pub add : ResultKey → Value Object Double → Object → Object
  pub get : ResultKey → Object → Option (Value Object Double)
  pub of_ℤ : ℤ → Double
  pub valueint : Double → ℤ
  pub print : Object → List Char
  pub parse : List Char → Option Object
  pub IsKept : Double → Type 0
  pub IsPrintable : Object → Type 0

module _ {Double : Type 0} (J : ResultJson Double) where
  -- A string of C has no zero byte.
  abbrev pub IsPlain : Value J.Object Double → Type 0
  IsPlain (number_item d) = J.IsKept d
  IsPlain (string_item x) = All (λ c. 0 < c) x
  IsPlain (array_item l) = All J.IsPrintable l
  IsPlain (object_item o) = J.IsPrintable o

-- What cJSON does: an item is added behind the others, a text of numbers that are kept is parsed to
-- the object that was printed, and integers below 2 ^ 53 are kept and exact.
pub record IsLawful {Double : Type 0} (J : ResultJson Double) : Type 0 where
  pub get-create : (k : ResultKey) → J.get k J.create ≡ none
  pub get-add :
      (k a : ResultKey) (v : Value J.Object Double) (o : J.Object)
      → J.get k (J.add a v o) ≡ or_item (J.get k o) (if is_same k a then some v else none)
  pub kept-of_ℤ : (n : ℤ) → pos_part n + neg_part n < 2 ^ 53 → J.IsKept (J.of_ℤ n)
  pub valueint-of_ℤ : (n : ℤ) → pos_part n + neg_part n < 2 ^ 53 → J.valueint (J.of_ℤ n) ≡ n
  pub printable-create : J.IsPrintable J.create
  pub printable-add :
      (a : ResultKey) (v : Value J.Object Double) (o : J.Object)
      → IsPlain J v
      → J.IsPrintable o
      → J.IsPrintable (J.add a v o)
  pub parse-print : (o : J.Object) → J.IsPrintable o → J.parse (J.print o) ≡ some o
