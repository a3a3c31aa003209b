-- ===== src/Params/Framing.antt =====
-- iperf_api.c: JSON_write and JSON_read, which put the size of a text in front of it.
use expo_iperf.Common.{
  ℕ, ◌+◌, ◌%◌, ◌^◌, min, Bool, true, false, ◌≤◌, ◌<◌, ◌==◌, ◌≡◌, ◌≢◌, ◌⊎◌, inl, inr, refl, ap,
  arith, not, ◌&&◌, ◌||◌, if◌then◌else◌, leb, Option, none, some, List, [], ◌∷◌, length, take,
}
use expo_iperf.Udp.{be32, read_be32}
use expo_iperf.Net.{NetResult, bytes, as_int}
use expo_iperf.Net.Recv.{as_int-small}

-- What JSON_write writes where every write takes all: the size of the text as four bytes, and the
-- text; and whether it returns -1 for it, as it does where the number of bytes is negative as `int`.
pub record Framed (Char : Type 0) : Type 0 where
  pub size : List ℕ
  pub text : List Char
  pub failed : Bool

abbrev pub is_negative : NetResult → Bool
is_negative (bytes n) = false
is_negative _ = true

-- `hsize` has 32 bits.
unfoldable pub json_write : {C : Type 0} → List C → Framed C
json_write str =
    let hsize = length str % 2 ^ 32 in
    record { size = be32 hsize; text = take hsize str; failed = is_negative (as_int hsize) }

-- Behind `Nread` of the text, by its result.
abbrev pub if_complete : {C : Type 0} → ℕ → List C → NetResult → Option (List C)
if_complete hsize text (bytes rc) = if rc == hsize then some (take hsize text) else none
if_complete hsize text _ = none

-- The text of a size; `strsize` is 0 where `hsize + 1` wraps.
abbrev pub read_sized : {C : Type 0} → ℕ → ℕ → List C → Option (List C)
read_sized max hsize text =
    if not (hsize == 0) && ((max == 0) || leb hsize max)
    then (if (hsize + 1) % 2 ^ 32 == 0
        then none
        else if_complete hsize text (as_int (min hsize (length text))))
    else none

-- The text that JSON_read parses; `max` 0 is no limit.
unfoldable pub json_read : {C : Type 0} → ℕ → Framed C → Option (List C)
json_read max f =
    if not (length f.size == 4) then none else read_sized max (read_be32 f.size 0) f.text

take_all : {C : Type 0} (l : List C) → take (length l) l ≡ l
take_all [] = refl
take_all (x ∷ l) = ap (◌∷◌ x) (take_all l)

read_be32_lem : (n : ℕ) → n < 2 ^ 32 → read_be32 (be32 n) 0 ≡ n
unfolding be32 read_be32
read_be32_lem n h = omega arith

sized_lem :
    {C : Type 0} (max : ℕ) (str : List C)
    → length str ≢ 0
    → length str < 2 ^ 31
    → (max ≡ 0) ⊎ (length str ≤ max)
    → read_sized max (length str) str ≡ some str
sized_lem max str h small fits =
    let n = length str in
    let allowed : (not (n == 0) && ((max == 0) || leb n max)) ≡ true = elim fits [
      | inl e ↦ ground arith
      | inr e ↦ ground arith
    ] in
    let no_wrap : ((n + 1) % 2 ^ 32 == 0) ≡ false = ground arith in
    let same : min n n ≡ n = omega arith in
    let all : (n == n) ≡ true = ground arith in
    rw (allowed, no_wrap, same, as_int-small n small, all) (ap some (take_all str))

-- A text that is not empty, shorter than 2 ^ 31 and within the limit is written without an error, and
-- read as it was written.
pub json_read-json_write :
    {C : Type 0} (max : ℕ) (str : List C)
    → length str ≢ 0
    → length str < 2 ^ 31
    → (max ≡ 0) ⊎ (length str ≤ max)
    → ((json_write str).failed ≡ false) × (json_read max (json_write str) ≡ some str)
unfolding json_read json_write be32
json_read-json_write max str h small fits =
    let size : length str % 2 ^ 32 ≡ length str = omega (arith, small) in
    rw
      (
        size,
        as_int-small (length str) small,
        read_be32_lem (length str) (omega (arith, small)),
        take_all str,
      )
      (refl, sized_lem max str h small fits)
