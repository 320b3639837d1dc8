-- ===== src/Soa/Columns.antt =====
-- Fields, their Arrow formats, and the columns that are packed for a chunk: presence masks, string
-- offsets and booleans (include/nanoarrow2parquet/soa.hpp).
use Prim.Native.Char.{Char}
use Prim.Native.String.{String}
use nanoarrow2parquet.Common.{
  ℕ, zero, suc, ◌+◌, ◌-◌, ◌*◌, ◌/◌, ◌%◌, Bool, true, false, ◌==◌, ◌&&◌, ltb, leb, Option, none,
  some, List, [], ◌∷◌, ◌++◌, length, replicate, if◌then◌else◌,
}
use nanoarrow2parquet.Bytes.{Bytes}
use nanoarrow2parquet.Bitmap.{set_bit, zero_bitmap, valid_bit}
use nanoarrow2parquet.Pages.Values.{plain_bytes}

-- The element types that arrow_traits, the string tags and bool name.
pub data ElementType : Type 0 where
  int8 uint8 int16 uint16 int32 uint32 int64 uint64 float double : ElementType
  byte_array_of : ℕ → ElementType
  utf8 binary large_utf8 large_binary : ElementType
  boolean : ElementType

abbrev digit_char : ℕ → Char
digit_char d =
    if d == 0
    then "0"
    else if d == 1
    then "1"
    else if d == 2
    then "2"
    else if d == 3
    then "3"
    else if d == 4
    then "4"
    else if d == 5
    then "5"
    else if d == 6
    then "6"
    else if d == 7
    then "7"
    else if d == 8
    then "8"
    else "9"

-- `fixed_size_binary_format::digits`: `v` rounds are enough.
abbrev pub digits : ℕ → ℕ → ℕ
digits zero v = 1
digits (suc fuel) v = elim (ltb v 10) [ true ↦ 1 | false ↦ suc (digits fuel (v / 10)) ]

-- `fixed_size_binary_format::make`: the digits are set from the last to the first.
abbrev pub set_digits : ℕ → ℕ → String → String
set_digits zero v out = out
set_digits (suc i) v out = set_digits i (v / 10) (String.◌∷◌ (digit_char (v % 10)) out)

abbrev pub fixed_size_binary_format : ℕ → String
fixed_size_binary_format n = String.◌∷◌ "w" (String.◌∷◌ ":" (set_digits (digits n n) n String.[]))

-- arrow_traits<T>::format and string_format<T>().
unfoldable pub format_of : ElementType → String
format_of int8 = "c"
format_of uint8 = "C"
format_of int16 = "s"
format_of uint16 = "S"
format_of int32 = "i"
format_of uint32 = "I"
format_of int64 = "l"
format_of uint64 = "L"
format_of float = "f"
format_of double = "g"
format_of (byte_array_of n) = fixed_size_binary_format n
format_of utf8 = "u"
format_of binary = "z"
format_of large_utf8 = "U"
format_of large_binary = "Z"
format_of boolean = "b"

-- A column's range: the storage and the size of a fixed-width one, strings, or booleans.
pub data Values : Type 0 where
  numbers : Bytes → ℕ → Values
  strings : List Bytes → Values
  bools : List Bool → Values

abbrev pub size : Values → ℕ
size (numbers b n) = n
size (strings vs) = length vs
size (bools bs) = length bs

-- The packing loop of `present` and `group_present` from element `i` on, with the bitmap and the
-- nulls so far; the loop ends at `n` elements.
unfoldable pub pack_mask : List Bool → ℕ → ℕ → Bytes → ℕ → Bytes × ℕ
pack_mask [] n i bits nulls = (bits, nulls)
pack_mask (m ∷ ms) n i bits nulls =
    let rest =
      pack_mask ms n (i + 1) (if m then set_bit bits i else bits)
        (if m then nulls else nulls + 1) in
    if ltb i n then rest else (bits, nulls)

-- A range with its validity bitmap (none for a null pointer) and null count.
pub record NullableColumn : Type 0 where
  pub values : Values
  pub validity : Option Bytes
  pub null_count : ℕ

-- `owned_bitmap.empty() ? bitmap : owned_bitmap.data()`
abbrev pub owned_or : Bytes → Option Bytes → Option Bytes
owned_or [] bitmap = bitmap
owned_or (b ∷ bs) bitmap = some (b ∷ bs)

unfoldable pub present : Values → List Bool → NullableColumn
unfolding pack_mask
present values mask =
    let (bits, nulls) = pack_mask mask (size values) 0 (zero_bitmap (size values)) 0 in
    record { values = values; validity = owned_or bits none; null_count = nulls }

unfoldable pub valid_bits : Values → Option Bytes → ℕ → NullableColumn
valid_bits values bitmap null_count = record {
  values = values;
  validity = bitmap;
  null_count = null_count;
}

-- The loop that packs booleans, from element `i` on; none where it writes behind the buffer.
unfoldable pub pack_bools : List Bool → ℕ → Bytes → Option Bytes
pack_bools [] i packed = some packed
pack_bools (b ∷ bs) i packed =
    let rest = pack_bools bs (i + 1) (if b then set_bit packed i else packed) in
    if b && leb (length packed) (i / 8) then none else rest

-- The loop over strings from element `i` on: an absent one adds nothing to the data, and each sets
-- the offset behind it, a little-endian word of `width` bytes. The offsets have `n + 1` words, zero at
-- first; none where the loop writes behind them.
unfoldable pub pack_strings :
    ℕ → Option Bytes → List Bytes → ℕ → ℕ → ℕ → Bytes → Bytes → Option (Bytes × Bytes)
unfolding plain_bytes
pack_strings width validity [] n i cur off dat = some (off ++ replicate (width * (n - i)) 0, dat)
pack_strings width validity (v ∷ vs) n i cur off dat =
    let here = valid_bit validity i in
    let next = if here then cur + length v else cur in
    let rest =
      pack_strings width validity vs n (i + 1) next (off ++ plain_bytes width next)
        (if here then dat ++ v else dat) in
    if ltb i n then rest else none
