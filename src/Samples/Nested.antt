-- ===== src/Samples/Nested.antt =====
-- The theorems on lists at a column of lists.
use nanoarrow2parquet.Common.{◌≤◌, ◌≡◌, refl, arith, true, some, List, [], ◌∷◌, length, All}
use nanoarrow2parquet.Result.{Result, ok, err, crash}
use nanoarrow2parquet.Format.{Extract}
use nanoarrow2parquet.Samples.{run}
use nanoarrow2parquet.Common.Int.{pos}
use nanoarrow2parquet.Arrow.{
  ArrowArray, array, nil, cons, ArrowSchema, schema, and_schema, no_schemas,
}
use nanoarrow2parquet.Schema.{Flat, flatten_schema, PathStep, list_step, leaf_step}
use nanoarrow2parquet.Shred.{Shredded}
use nanoarrow2parquet.Shred.Paths.{FitsPath, flatten_schema-FitsPath}
use nanoarrow2parquet.Shred.Levels.{count, depth, shred_rows-Levels}
use nanoarrow2parquet.Common.{true, [], List}
use nanoarrow2parquet.Shred.Rows.{KeepsRows, shred_rows-KeepsRows}
use nanoarrow2parquet.Writer.Batch.{flatten_columns, empty_flat}
use nanoarrow2parquet.Writer.SchemaTree.{flatten_columns-Tree}
use nanoarrow2parquet.Schema.Tree.{Trees, all_columns, read_trees}
use nanoarrow2parquet.Schema.Shape.{describe}
use nanoarrow2parquet.Common.{map, false, ℕ, zero, suc, none, if◌then◌else◌, ◌==◌}
use nanoarrow2parquet.Bytes.{Bytes}
use nanoarrow2parquet.Format.{ColumnSpec, PqType}
use nanoarrow2parquet.Shred.{offset_at}
use nanoarrow2parquet.Shred.Order.{Sorted}
use nanoarrow2parquet.Writer.ListValues.{ValuesOfRows, shred_rows-ValuesOfRows}

-- A list column of the rows [5, null], null and [].
abbrev numbers : ArrowArray
numbers =
    array
      (record {
        length = 2;
        null_count = pos 1;
        offset = 0;
        n_buffers = 2;
        buffers = some (some (1 ∷ []) ∷ some (5 ∷ 0 ∷ 0 ∷ 0 ∷ 0 ∷ 0 ∷ 0 ∷ 0 ∷ []) ∷ []);
      })
      nil

abbrev lists : ArrowArray
lists =
    array
      (record {
        length = 3;
        null_count = pos 1;
        offset = 0;
        n_buffers = 2;
        buffers = some (
            some (5 ∷ [])
            ∷ some (0 ∷ 0 ∷ 0 ∷ 0 ∷ 2 ∷ 0 ∷ 0 ∷ 0 ∷ 2 ∷ 0 ∷ 0 ∷ 0 ∷ 2 ∷ 0 ∷ 0 ∷ 0 ∷ [])
            ∷ []);
      })
      (cons numbers nil)

abbrev list_path : List PathStep
list_path =
    record { kind = list_step; optional = true; child = 0; rep_level = 1 }
    ∷ record { kind = leaf_step; optional = true; child = 0; rep_level = 0 }
    ∷ []

abbrev shredded_lists : Shredded
shredded_lists = record {
  rep = 0 ∷ 1 ∷ 0 ∷ 0 ∷ [];
  def = 3 ∷ 2 ∷ 0 ∷ 1 ∷ [];
  present = 1 ∷ [];
  present_count = 1;
}

shred_rows-Levels_example :
    (length shredded_lists.rep ≡ length shredded_lists.def)
    × (count 0 shredded_lists.rep ≡ 3)
    × All (λ d. d ≤ depth list_path) shredded_lists.def
    × (count (depth list_path) shredded_lists.def ≡ shredded_lists.present_count)
unfolding run
shred_rows-Levels_example =
    shred_rows-Levels "l" Extract.memcpy_fixed list_path lists 3 (0 ∷ []) shredded_lists
      (omega arith, (tt, tt)) refl

-- A nullable list of nullable 32-bit integers.
abbrev list_schema : ArrowSchema
list_schema =
    schema (record { format = some "+l"; name = some "l"; flags = 2 })
      (and_schema (schema (record { format = some "i"; name = some "item"; flags = 2 }) no_schemas)
        no_schemas)

flattened : Result Flat
unfolding run
flattened = flatten_schema list_schema 0 (record { nodes = []; leaves = [] })

flat_of : Result Flat → Flat
flat_of (ok f) = f
flat_of (err e) = record { nodes = []; leaves = [] }
flat_of crash = record { nodes = []; leaves = [] }

flatten_schema-FitsPath_example : All FitsPath (flat_of flattened).leaves
unfolding run flattened flat_of
flatten_schema-FitsPath_example =
    flatten_schema-FitsPath list_schema 0 (record { nodes = []; leaves = [] }) (flat_of flattened)
      tt refl

shred_rows-KeepsRows_example :
    KeepsRows Extract.memcpy_fixed list_path lists 3 (0 ∷ []) shredded_lists
unfolding run
shred_rows-KeepsRows_example =
    shred_rows-KeepsRows "l" Extract.memcpy_fixed list_path lists 3 (0 ∷ []) shredded_lists
      (omega arith, tt) refl

one_list : Result Flat
unfolding run
one_list = flatten_columns (and_schema list_schema no_schemas) 0 empty_flat

flatten_columns-Tree_example :
    (ts : Trees) × (read_trees (length (flat_of one_list).nodes) 1 (flat_of one_list).nodes
      ≡ some (ts, []))
    × (all_columns ts [] 0 0 ≡ map describe (flat_of one_list).leaves)
unfolding run one_list flat_of
flatten_columns-Tree_example =
    flatten_columns-Tree (and_schema list_schema no_schemas) (flat_of one_list) refl

-- The spec of the leaf, a nullable 32-bit integer column.
abbrev numbers_spec : ColumnSpec
numbers_spec = record {
  name = "l";
  type = PqType.int32;
  extract = Extract.memcpy_fixed;
  converted = none;
  type_length = 0;
  src_width = 4;
  sign_extend = false;
  large_offsets = false;
  nullable = true;
}

abbrev numbers_values : Bytes
numbers_values = 5 ∷ 0 ∷ 0 ∷ 0 ∷ 0 ∷ 0 ∷ 0 ∷ 0 ∷ []

abbrev list_offsets : Bytes
list_offsets = 0 ∷ 0 ∷ 0 ∷ 0 ∷ 2 ∷ 0 ∷ 0 ∷ 0 ∷ 2 ∷ 0 ∷ 0 ∷ 0 ∷ 2 ∷ 0 ∷ 0 ∷ 0 ∷ []

-- The offsets of `lists` as numbers.
abbrev begins_at : ℕ → ℕ
begins_at i = if i == 0 then 0 else 2

lists-offsets : (i : ℕ) → i ≤ 3 → offset_at list_step list_offsets i ≡ pos (begins_at i)
unfolding run
lists-offsets zero h = refl
lists-offsets (suc zero) h = refl
lists-offsets (suc (suc zero)) h = refl
lists-offsets (suc (suc (suc zero))) h = refl
lists-offsets (suc (suc (suc (suc i)))) h = absurd (omega arith)

lists-Sorted : Sorted list_path 2 lists
lists-Sorted = (
  list_offsets,
  numbers,
  numbers,
  begins_at,
  refl,
  refl,
  refl,
  lists-offsets,
  (λ i h. ground arith),
  (λ i h. ground arith),
  omega arith,
)

shred_rows-ValuesOfRows_example :
    ValuesOfRows Extract.memcpy_fixed list_path lists 3 2 numbers_spec numbers_values shredded_lists
unfolding run
shred_rows-ValuesOfRows_example =
    shred_rows-ValuesOfRows "l" Extract.memcpy_fixed list_path lists 3 2 numbers_spec numbers_values
      shredded_lists (omega arith, tt) lists-Sorted (omega arith) refl
