-- ===== src/Format.antt =====
-- The column type mapping of src/writer.cpp: Arrow format strings to Parquet column descriptions.
pub mod Layout
use Prim.Native.Char.{code}
use nanoarrow2parquet.Common.{
  ℕ, zero, ◌+◌, ◌-◌, ◌*◌, ◌≤◌, List, [], ◌∷◌, Bool, true, false, ◌&&◌, ◌||◌, ◌==◌, leb, ltb, drop,
  Option, none, some, String, str_eq, if◌then◌else◌,
}
use nanoarrow2parquet.Common.Int.{ℤ, pos, negsuc}
use nanoarrow2parquet.Result.{Result, ok, err, crash, invalid_fixed_width, unsupported_format}

-- The values of pq::Type and pq::ConvertedType that the writer names.
pub data PqType : Type 0 where
  boolean int32 int64 float double byte_array fixed_len_byte_array : PqType

pub data ConvertedType : Type 0 where
  utf8 map_type list_type int_8 int_16 uint_8 uint_16 uint_32 uint_64 : ConvertedType

pub data Extract : Type 0 where
  memcpy_fixed widen_int bool byte_array null : Extract

-- `has_converted` and `converted` are one optional value.
pub record ColumnSpec : Type 0 where
  pub name : String
  pub type : PqType
  pub extract : Extract
  pub converted : Option ConvertedType
  pub type_length : ℕ
  pub src_width : ℕ
  pub sign_extend : Bool
  pub large_offsets : Bool
  pub nullable : Bool

abbrev pub codes : String → List ℕ
codes String.[] = []
codes (String.◌∷◌ c s) = code c ∷ codes s

abbrev is_digit : ℕ → Bool
is_digit c = leb b'0' c && leb c b'9'

abbrev is_space : ℕ → Bool
is_space c = c == 32 || (leb 9 c && leb c 13)

abbrev pub digits_from : ℕ → List ℕ → ℕ
digits_from acc [] = acc
digits_from acc (c ∷ cs) = elim (is_digit c) [
  | true ↦ digits_from (10 * acc + (c - b'0')) cs
  | false ↦ acc
]

abbrev negative : ℕ → ℤ
negative n = if n == 0 then pos 0 else negsuc (n - 1)

-- std::atoi, on a number that fits an int.
abbrev pub atoi : List ℕ → ℤ
atoi [] = pos 0
atoi (c ∷ cs) =
    let skipped = atoi cs in
    if is_space c
    then skipped
    else if c == b'-'
    then negative (digits_from 0 cs)
    else pos (if c == b'+' then digits_from 0 cs else digits_from 0 (c ∷ cs))

-- `strncmp(format, "w:", 2) == 0`
abbrev pub is_fixed_binary : List ℕ → Bool
is_fixed_binary [] = false
is_fixed_binary (c ∷ []) = false
is_fixed_binary (c ∷ d ∷ cs) = c == b'w' && d == b':'

-- A default ColumnSpec with the name and the flag.
abbrev blank : String → Bool → ColumnSpec
blank name nullable = record {
  name = name;
  type = PqType.boolean;
  extract = Extract.memcpy_fixed;
  converted = none;
  type_length = 0;
  src_width = 0;
  sign_extend = false;
  large_offsets = false;
  nullable = nullable;
}

-- The local function `fixed` of `map_format`.
abbrev fixed : ColumnSpec → PqType → ℕ → ColumnSpec
fixed s t width = record s { type = t; extract = Extract.memcpy_fixed; src_width = width }

abbrev widened : ColumnSpec → ℕ → Bool → ConvertedType → ColumnSpec
widened s width sign c = record s {
  type = PqType.int32;
  extract = Extract.widen_int;
  converted = some c;
  src_width = width;
  sign_extend = sign;
}

unfoldable pub fixed_binary : ColumnSpec → String → ℤ → Result ColumnSpec
fixed_binary s format (pos zero) = err (invalid_fixed_width format)
fixed_binary s format (negsuc n) = err (invalid_fixed_width format)
fixed_binary s format (pos n) = ok (record s {
  type = PqType.fixed_len_byte_array;
  extract = Extract.memcpy_fixed;
  type_length = n;
  src_width = n;
})

unfoldable pub variable_width : ColumnSpec → String → Result ColumnSpec
variable_width s f =
    if str_eq f "u" || str_eq f "U"
    then ok (record s {
      type = PqType.byte_array;
      extract = Extract.byte_array;
      converted = some utf8;
      large_offsets = str_eq f "U";
    })
    else if str_eq f "z" || str_eq f "Z"
    then ok (record s {
      type = PqType.byte_array;
      extract = Extract.byte_array;
      large_offsets = str_eq f "Z";
    })
    else err (unsupported_format f)

unfoldable pub fixed_width : ColumnSpec → String → Result ColumnSpec
fixed_width s f =
    if str_eq f "i"
    then ok (fixed s PqType.int32 4)
    else if str_eq f "I"
    then ok (record (fixed s PqType.int32 4) { converted = some uint_32 })
    else if str_eq f "l"
    then ok (fixed s PqType.int64 8)
    else if str_eq f "L"
    then ok (record (fixed s PqType.int64 8) { converted = some uint_64 })
    else if str_eq f "f"
    then ok (fixed s PqType.float 4)
    else if str_eq f "g"
    then ok (fixed s PqType.double 8)
    else if is_fixed_binary (codes f)
    then fixed_binary s f (atoi (drop 2 (codes f)))
    else variable_width s f

unfoldable pub narrow : ColumnSpec → String → Result ColumnSpec
narrow s f =
    if str_eq f "b"
    then ok (record s { type = PqType.boolean; extract = Extract.bool })
    else if str_eq f "c"
    then ok (widened s 1 true int_8)
    else if str_eq f "C"
    then ok (widened s 1 false uint_8)
    else if str_eq f "s"
    then ok (widened s 2 true int_16)
    else if str_eq f "S"
    then ok (widened s 2 false uint_16)
    else fixed_width s f

-- The tests stand in the source's order; a null format is passed to strcmp before it is tested.
unfoldable pub map_format : Option String → String → Bool → Result ColumnSpec
map_format none name nullable = crash
map_format (some f) name nullable =
    if str_eq f "n"
    then ok (record (blank name true) { type = PqType.int32; extract = Extract.null })
    else narrow (blank name nullable) f
