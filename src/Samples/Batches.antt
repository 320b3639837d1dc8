-- ===== src/Samples/Batches.antt =====
-- The theorems on the NumPy bridge at two columns of two rows.
use nanoarrow2parquet.Common.{
  ℕ, zero, suc, ◌≡◌, refl, arith, ◌==◌, true, Option, none, some, List, [], ◌∷◌, inl, if◌then◌else◌,
}
use nanoarrow2parquet.Common.Int.{pos}
use nanoarrow2parquet.Bytes.{Bytes}
use nanoarrow2parquet.Arrow.{
  ArrowArray, array, Arrays, nil, cons, head, children, buffer, schema_children, SchemaHead,
  ArrowSchema, schema, Schemas, null_schemas, no_schemas, and_schema,
}
use nanoarrow2parquet.Format.{ColumnSpec, map_format}
use nanoarrow2parquet.Result.{ok}
use nanoarrow2parquet.Python.Capsule.{raised, already_exported}
use nanoarrow2parquet.Python.Numpy
use nanoarrow2parquet.Python.Numpy.{
  NumpyArray, Column, ArrowType, int8, Nanoarrow, NumpyRecordBatch, arrow_c_array, arrow_c_stream,
}
use nanoarrow2parquet.Python.Dtypes.{format_of, map_numeric_dtype-Width}
use nanoarrow2parquet.Python.Columns.{
  Matches, IsNanoarrow, IsBatch, build_record_batch-IsBatch, export-once,
}

-- An array with a child for each child of the schema, each with two buffers.
abbrev empty_array : Arrays → ArrowArray
empty_array cs =
    array
      (record {
        length = 0;
        null_count = pos 0;
        offset = 0;
        n_buffers = 2;
        buffers = some (none ∷ none ∷ []);
      })
      cs

empty_children : Schemas → Option Arrays
empty_children no_schemas = some nil
empty_children (null_schemas n) = none
empty_children (and_schema s ss) = elim (empty_children ss) [
  | none ↦ none
  | some cs ↦ some (cons (empty_array nil) cs)
]

-- The buffer that is set is the second; any other number fails.
set_second : ArrowArray → ℕ → Bytes → Option ArrowArray
set_second a i b = elim a [
  | array h cs ↦
      if i == 1 then some (array (record h { buffers = some (none ∷ some b ∷ []) }) cs) else none
]

init : ArrowSchema → Option ArrowArray
init sc = elim (empty_children (schema_children sc)) [
  | none ↦ none
  | some cs ↦ some (empty_array cs)
]

abbrev struct_head : SchemaHead
struct_head = record { format = some "+s"; name = none; flags = 2 }

abbrev sample : Nanoarrow
sample = record {
  set_type_struct = λ n. some struct_head;
  set_type = λ t. some (record struct_head { format = some (format_of t) });
  set_name = λ h s. some (record h { name = some s });
  init_from_schema = init;
  set_buffer = set_second;
  stream_init = λ n. true;
}

empty_children-Matches :
    (ss : Schemas) (cs : Arrays) → empty_children ss ≡ some cs → Matches sample ss cs
unfolding empty_children
empty_children-Matches no_schemas cs e = let same : nil ≡ cs = cc e in rw (← same) tt
empty_children-Matches (null_schemas n) cs e = absurd (ground arith)
empty_children-Matches (and_schema s ss) cs e =
    more (empty_children ss) refl e (λ bs is. empty_children-Matches ss bs is)
  where
    more :
        (x : Option Arrays)
        → empty_children ss ≡ x
        → ◌≡◌ {A = Option Arrays}
            (elim x [ none ↦ none | some bs ↦ some (cons (empty_array nil) bs) ])
            (some cs)
        → ((bs : Arrays) → empty_children ss ≡ some bs → Matches sample ss bs)
        → Matches sample (and_schema s ss) cs
    more none is e' ih = absurd (ground arith)
    more (some bs) is e' ih =
        let same : cons (empty_array nil) bs ≡ cs = cc e' in rw (← same) (ih bs is)

sample-IsNanoarrow : IsNanoarrow sample
unfolding init set_second
sample-IsNanoarrow = record { inits = λ h ss a e. made ss a (empty_children ss) refl e; sets = set }
  where
    made :
        (ss : Schemas) (a : ArrowArray) (x : Option Arrays)
        → empty_children ss ≡ x
        → ◌≡◌ {A = Option ArrowArray}
            (elim x [ none ↦ none | some cs ↦ some (empty_array cs) ])
            (some a)
        → Matches sample ss (children a)
    made ss a none is e = absurd (ground arith)
    made ss a (some cs) is e =
        let same : empty_array cs ≡ a = cc e in rw (← same) (empty_children-Matches ss cs is)

    set :
        (a a' : ArrowArray) (i : ℕ) (b : Bytes)
        → set_second a i b ≡ some a'
        → buffer (head a') i ≡ some b
    set (array h cs) a' (suc zero) b e =
        let same : array (record h { buffers = some (none ∷ some b ∷ []) }) cs ≡ a' = cc e in
        rw (← same) refl
    set (array h cs) a' zero b e = absurd (ground arith)
    set (array h cs) a' (suc (suc i)) b e = absurd (ground arith)

abbrev bytes_column : Column
bytes_column = (
  "x",
  record {
    is_ndarray = true;
    c_contiguous = true;
    ndim = 1;
    kind = "i";
    itemsize = 1;
    rows = 2;
    address = 64;
    memory = 7 ∷ 9 ∷ [];
  },
)

abbrev two_columns : List Column
two_columns = bytes_column ∷ bytes_column ∷ []

abbrev child_schema : ArrowSchema
child_schema = schema (record { format = some "c"; name = some "x"; flags = 2 }) no_schemas

abbrev child_array : ArrowArray
child_array =
    array
      (record {
        length = 2;
        null_count = pos 0;
        offset = 0;
        n_buffers = 2;
        buffers = some (none ∷ some (7 ∷ 9 ∷ []) ∷ []);
      })
      nil

abbrev built : NumpyRecordBatch sample
built = record {
  columns = two_columns;
  sc = some (schema struct_head (and_schema child_schema (and_schema child_schema no_schemas)));
  arr = some (
      array
        (record {
          length = 2;
          null_count = pos 0;
          offset = 0;
          n_buffers = 2;
          buffers = some (none ∷ none ∷ []);
        })
        (cons child_array (cons child_array nil)));
}

build_record_batch-IsBatch_example : IsBatch sample two_columns built
unfolding init set_second empty_children Numpy.require_c_contiguous Numpy.map_numeric_dtype
    Numpy.check_columns Numpy.child_schemas Numpy.attach_numpy_column Numpy.attach_columns
    Numpy.build_record_batch
build_record_batch-IsBatch_example =
    build_record_batch-IsBatch sample sample-IsNanoarrow two_columns built refl

export-once_example :
    let gone : NumpyRecordBatch sample = record built { sc = none; arr = none } in
    (arrow_c_array sample gone ≡ raised already_exported)
    × (arrow_c_stream sample gone ≡ raised already_exported)
unfolding Numpy.arrow_c_array
export-once_example =
    export-once sample built (record built { sc = none; arr = none }) (inl (_, refl))

map_numeric_dtype-Width_example :
    (s : ColumnSpec) × (map_format (some "c") "x" true ≡ ok s) × (s.src_width ≡ 1)
unfolding Numpy.map_numeric_dtype
map_numeric_dtype-Width_example = map_numeric_dtype-Width "i" "x" 1 true int8 refl (λ e. cc e)
