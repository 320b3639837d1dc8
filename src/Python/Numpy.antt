-- ===== src/Python/Numpy.antt =====
-- Record batches of NumPy columns (bindings/python/src/numpy_bridge.hpp). An object is seen through
-- what its attributes say and the memory at its address; nanoarrow's calls are parameters.
use nanoarrow2parquet.Common.{
  ℕ, ◌*◌, Bool, ◌==◌, Option, none, some, String, str_eq, List, [], ◌∷◌, length, take,
  if◌then◌else◌,
}
use nanoarrow2parquet.Common.Int.{pos}
use nanoarrow2parquet.Bytes.{Bytes}
use nanoarrow2parquet.Arrow.{
  ArrowArray, array, Arrays, null_children, nil, cons, head, children, SchemaHead, ArrowSchema,
  schema, Schemas, no_schemas, and_schema,
}
use nanoarrow2parquet.Python.Capsule.{
  Py, returned, raised, ◌>>=◌, ◌>>◌, require, or_raise, BatchStream, not_contiguous,
  not_one_dimensional, unsupported_dtype, not_attached, no_columns, not_an_ndarray, unequal_lengths,
  no_struct_schema, no_child_type, no_child_name, no_struct_array, unknown_column, already_exported,
  nanoarrow_failed,
}

-- `kind` and `itemsize` of the dtype, and the first number of the shape.
pub record NumpyArray : Type 0 where
  pub is_ndarray : Bool
  pub c_contiguous : Bool
  pub ndim : ℕ
  pub kind : String
  pub itemsize : ℕ
  pub rows : ℕ
  pub address : ℕ
  pub memory : Bytes

abbrev pub Column : Type 0
Column = String × NumpyArray

-- The ArrowTypes that are named.
pub data ArrowType : Type 0 where
  bool int8 int16 int32 int64 uint8 uint16 uint32 uint64 float double : ArrowType

pub record Nanoarrow : Type 0 where
  -- ArrowSchemaSetTypeStruct for so many children, with the head that it leaves
  pub set_type_struct : ℕ → Option SchemaHead
  pub set_type : ArrowType → Option SchemaHead
  pub set_name : SchemaHead → String → Option SchemaHead
  pub init_from_schema : ArrowSchema → Option ArrowArray
  -- ArrowArraySetBuffer
  pub set_buffer : ArrowArray → ℕ → Bytes → Option ArrowArray
  -- whether ArrowBasicArrayStreamInit succeeds for so many batches
  pub stream_init : ℕ → Bool

unfoldable pub require_c_contiguous : NumpyArray → Py (Unit {0})
require_c_contiguous arr = do
  require arr.c_contiguous not_contiguous
  require (arr.ndim == 1) not_one_dimensional

-- The bytes of the elements, from the address on.
abbrev pub numpy_column_bytes : NumpyArray → Bytes
numpy_column_bytes arr = take (arr.rows * arr.itemsize) arr.memory

unfoldable pub map_numeric_dtype : String → ℕ → Py ArrowType
map_numeric_dtype kind itemsize =
    if str_eq kind "b"
    then returned bool
    else if str_eq kind "i"
    then (if itemsize == 1
        then returned int8
        else if itemsize == 2
        then returned int16
        else if itemsize == 4
        then returned int32
        else if itemsize == 8
        then returned int64
        else raised unsupported_dtype)
    else if str_eq kind "u"
    then (if itemsize == 1
        then returned uint8
        else if itemsize == 2
        then returned uint16
        else if itemsize == 4
        then returned uint32
        else if itemsize == 8
        then returned uint64
        else raised unsupported_dtype)
    else if str_eq kind "f"
    then (if itemsize == 4
        then returned float
        else if itemsize == 8
        then returned double
        else raised unsupported_dtype)
    else raised unsupported_dtype

-- The length that the columns share, none before the first.
unfoldable pub check_columns : Option ℕ → List Column → Py (Option ℕ)
unfolding require_c_contiguous
check_columns n [] = returned n
check_columns none ((name, arr) ∷ cs) = do
  require arr.is_ndarray not_an_ndarray
  require_c_contiguous arr
  check_columns (some arr.rows) cs
check_columns (some n) ((name, arr) ∷ cs) = do
  require arr.is_ndarray not_an_ndarray
  require_c_contiguous arr
  require (n == arr.rows) unequal_lengths
  check_columns (some n) cs

module _ (na : Nanoarrow) where
  unfoldable pub child_schemas : List Column → Py Schemas
  unfolding map_numeric_dtype
  child_schemas [] = returned no_schemas
  child_schemas ((name, arr) ∷ cs) = do
    type ← map_numeric_dtype arr.kind arr.itemsize
    typed ← or_raise (na.set_type type) no_child_type
    named ← or_raise (na.set_name typed name) no_child_name
    rest ← child_schemas cs
    returned (and_schema (schema named no_schemas) rest)

  abbrev pub set_counts : ℕ → ArrowArray → ArrowArray
  set_counts n a = array (record (head a) { length = n; null_count = pos 0 }) (children a)

  unfoldable pub attach_numpy_column : NumpyArray → ArrowArray → ℕ → Py ArrowArray
  unfolding map_numeric_dtype
  attach_numpy_column arr child n = do
    type ← map_numeric_dtype arr.kind arr.itemsize
    attached ← or_raise (na.set_buffer child 1 (numpy_column_bytes arr)) not_attached
    returned (set_counts n attached)

  -- ArrowArrayInitFromSchema has made a child for each column.
  unfoldable pub attach_columns : List Column → ℕ → Arrays → Py Arrays
  unfolding attach_numpy_column
  attach_columns [] n as' = returned as'
  attach_columns ((name, arr) ∷ cs) n (cons a as') = do
    child ← attach_numpy_column arr a n
    rest ← attach_columns cs n as'
    returned (cons child rest)
  attach_columns (c ∷ cs) n nil = returned nil
  attach_columns (c ∷ cs) n (null_children k) = returned (null_children k)

  -- The RecordBatchBacking of a batch; `sc` and `arr` are none once they have been moved out.
  pub record NumpyRecordBatch : Type 0 where
    pub columns : List Column
    pub sc : Option ArrowSchema
    pub arr : Option ArrowArray

  abbrev pub build_with : List Column → ℕ → Py NumpyRecordBatch
  build_with cs n = do
    h ← or_raise (na.set_type_struct (length cs)) no_struct_schema
    ss ← child_schemas cs
    a ← or_raise (na.init_from_schema (schema h ss)) no_struct_array
    filled ← attach_columns cs n (children a)
    returned (record {
      columns = cs;
      sc = some (schema h ss);
      arr = some (set_counts n (array (head a) filled));
    })

  -- No column, or the length of all of them.
  unfoldable pub build_record_batch : List Column → Py NumpyRecordBatch
  unfolding check_columns child_schemas attach_columns
  build_record_batch cs = do
    n ← check_columns none cs
    shared ← or_raise n no_columns
    build_with cs shared

  unfoldable pub arrow_c_array :
      NumpyRecordBatch → Py ((ArrowSchema × ArrowArray) × NumpyRecordBatch)
  arrow_c_array b = do
    s ← or_raise b.sc already_exported
    a ← or_raise b.arr already_exported
    returned ((s, a), record b { sc = none; arr = none })

  unfoldable pub arrow_c_stream : NumpyRecordBatch → Py (BatchStream × NumpyRecordBatch)
  arrow_c_stream b = do
    s ← or_raise b.sc already_exported
    a ← or_raise b.arr already_exported
    require (na.stream_init 1) nanoarrow_failed
    returned (
      record { batches = some a ∷ []; stream_schema = some s },
      record b { sc = none; arr = none },
    )

  -- NumpyRecordBatch::length
  abbrev pub batch_length : NumpyRecordBatch → ℕ
  batch_length b = elim b.arr [ none ↦ 0 | some a ↦ (head a).length ]

  abbrev address_in : List Column → String → Py ℕ
  address_in [] name = raised unknown_column
  address_in ((n, arr) ∷ cs) name =
      if str_eq n name then returned arr.address else address_in cs name

  abbrev pub column_address : NumpyRecordBatch → String → Py ℕ
  column_address b name = address_in b.columns name
