-- ===== src/Format/Layout.antt =====
-- What every accepted format says of a column: its values' width agrees with its Parquet type.
use nanoarrow2parquet.Common.{
  ℕ, zero, suc, ◌<◌, ◌≡◌, ◌⊎◌, arith, Bool, true, false, ◌||◌, Option, none, some, String, drop,
}
use nanoarrow2parquet.Common.Int.{ℤ, pos, negsuc}
use nanoarrow2parquet.Result.{Result, ok, err, crash}
use nanoarrow2parquet.Format.{
  PqType, Extract, ColumnSpec, atoi, codes, blank, map_format, narrow, fixed_width, fixed_binary,
  variable_width,
}

-- The bytes of one PLAIN value of a fixed-width Parquet type.
abbrev pub plain_width : PqType → ℕ → ℕ
plain_width PqType.int32 n = 4
plain_width PqType.int64 n = 8
plain_width PqType.float n = 4
plain_width PqType.double n = 8
plain_width PqType.fixed_len_byte_array n = n
plain_width _ n = 0

-- What each way to extract values demands of the column's other fields.
abbrev pub Layout : Extract → ColumnSpec → Type 0
Layout Extract.memcpy_fixed s = (0 < s.src_width) × (s.src_width ≡ plain_width s.type s.type_length)
Layout Extract.widen_int s = (s.type ≡ PqType.int32) × ((s.src_width ≡ 1) ⊎ (s.src_width ≡ 2))
Layout Extract.bool s = s.type ≡ PqType.boolean
Layout Extract.byte_array s = s.type ≡ PqType.byte_array
Layout Extract.null s = (s.type ≡ PqType.int32) × (s.nullable ≡ true)

abbrev pub of_null_type : Extract → Bool
of_null_type Extract.null = true
of_null_type _ = false

abbrev Described : String → Bool → Result ColumnSpec → Type 0
Described name nullable (ok s) =
    Layout s.extract s × (s.name ≡ name) × (s.nullable ≡ (nullable || of_null_type s.extract))
Described name nullable (err e) = Unit
Described name nullable crash = Unit

fixed_binary-Described :
    (s : ColumnSpec) (f : String) (n : ℤ) → Described s.name s.nullable (fixed_binary s f n)
unfolding fixed_binary
fixed_binary-Described s f (pos zero) = tt
fixed_binary-Described s f (pos (suc n)) = ground arith
fixed_binary-Described s f (negsuc n) = tt

variable_width-Described :
    (s : ColumnSpec) (f : String) → Described s.name s.nullable (variable_width s f)
unfolding variable_width
variable_width-Described s f = ground arith

fixed_width-Described :
    (s : ColumnSpec) (f : String) → Described s.name s.nullable (fixed_width s f)
unfolding fixed_width
fixed_width-Described s f =
    ground
      (arith, fixed_binary-Described s f (atoi (drop 2 (codes f))), variable_width-Described s f)

narrow-Described : (s : ColumnSpec) (f : String) → Described s.name s.nullable (narrow s f)
unfolding narrow
narrow-Described s f = ground (arith, fixed_width-Described s f)

map_format-Described :
    (f : Option String) (name : String) (nullable : Bool)
    → Described name nullable (map_format f name nullable)
unfolding map_format
map_format-Described none name nullable = tt
map_format-Described (some f) name nullable =
    ground (arith, narrow-Described (blank name nullable) f)

-- The column that any format is mapped to is consistent: values copied as they are have the width
-- of their Parquet type (never 0), widened integers take 1 or 2 bytes and become INT32, booleans
-- and byte arrays have those types, it keeps its name, and is OPTIONAL exactly
-- if its Arrow field is nullable or its type is null.
pub map_format-Layout :
    (f : Option String) (name : String) (nullable : Bool) (s : ColumnSpec)
    → map_format f name nullable ≡ ok s
    → Layout s.extract s × (s.name ≡ name) × (s.nullable ≡ (nullable || of_null_type s.extract))
map_format-Layout f name nullable s e =
    let described : Described name nullable (ok s) =
      rw e at (map_format-Described f name nullable) in
    described
