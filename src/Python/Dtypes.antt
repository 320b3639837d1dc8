-- ===== src/Python/Dtypes.antt =====
-- The Arrow types of NumPy's dtypes (`map_numeric_dtype` of bindings/python/src/numpy_bridge.hpp).
use nanoarrow2parquet.Common.{ℕ, ◌≡◌, ◌≢◌, refl, ◌∙◌, arith, Bool, some, String}
use nanoarrow2parquet.Result.{ok}
use nanoarrow2parquet.Format.{ColumnSpec, map_format, narrow, fixed_width}
use nanoarrow2parquet.Python.Capsule.{returned}
use nanoarrow2parquet.Python.Numpy.{
  ArrowType, bool, int8, int16, int32, int64, uint8, uint16, uint32, uint64, float, double,
  map_numeric_dtype,
}

-- The format strings of the Arrow C data interface.
abbrev pub format_of : ArrowType → String
format_of bool = "b"
format_of int8 = "c"
format_of int16 = "s"
format_of int32 = "i"
format_of int64 = "l"
format_of uint8 = "C"
format_of uint16 = "S"
format_of uint32 = "I"
format_of uint64 = "L"
format_of float = "f"
format_of double = "g"

abbrev byte_width : ArrowType → ℕ
byte_width bool = 0
byte_width int8 = 1
byte_width int16 = 2
byte_width int32 = 4
byte_width int64 = 8
byte_width uint8 = 1
byte_width uint16 = 2
byte_width uint32 = 4
byte_width uint64 = 8
byte_width float = 4
byte_width double = 8

byte_width-itemsize :
    (kind : String) (itemsize : ℕ) (t : ArrowType)
    → map_numeric_dtype kind itemsize ≡ returned t
    → t ≢ bool
    → byte_width t ≡ itemsize
unfolding map_numeric_dtype
byte_width-itemsize kind itemsize t mapped not_bool = ground arith

-- The column that the writer maps the format of a type to.
column_of :
    (t : ArrowType) (name : String) (nullable : Bool)
    → t ≢ bool
    → (s : ColumnSpec) × (map_format (some (format_of t)) name nullable ≡ ok s)
      × (s.src_width ≡ byte_width t)
unfolding map_format narrow fixed_width
column_of bool name nullable not_bool = absurd (not_bool refl)
column_of int8 name nullable not_bool = (_, refl, refl)
column_of int16 name nullable not_bool = (_, refl, refl)
column_of int32 name nullable not_bool = (_, refl, refl)
column_of int64 name nullable not_bool = (_, refl, refl)
column_of uint8 name nullable not_bool = (_, refl, refl)
column_of uint16 name nullable not_bool = (_, refl, refl)
column_of uint32 name nullable not_bool = (_, refl, refl)
column_of uint64 name nullable not_bool = (_, refl, refl)
column_of float name nullable not_bool = (_, refl, refl)
column_of double name nullable not_bool = (_, refl, refl)

-- The elements of a column that is not boolean, as the writer reads them by the type's format, are as
-- wide as NumPy's: the writer accepts the format, and its column's width is the item size.
pub map_numeric_dtype-Width :
    (kind name : String) (itemsize : ℕ) (nullable : Bool) (t : ArrowType)
    → map_numeric_dtype kind itemsize ≡ returned t
    → t ≢ bool
    → (s : ColumnSpec) × (map_format (some (format_of t)) name nullable ≡ ok s)
      × (s.src_width ≡ itemsize)
map_numeric_dtype-Width kind name itemsize nullable t mapped not_bool =
    let (s, accepted, width) = column_of t name nullable not_bool in
    (s, accepted, width ∙ byte_width-itemsize kind itemsize t mapped not_bool)
