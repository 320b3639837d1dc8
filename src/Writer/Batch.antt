-- ===== src/Writer/Batch.antt =====
-- A record batch as a row group (src/writer.cpp): `write_list_leaf` and `write_one_batch`.
use nanoarrow2parquet.Common.{
  ℕ, zero, suc, ◌+◌, ◌-◌, List, [], ◌∷◌, ◌++◌, Bool, true, false, not, ◌==◌, ◌&&◌, ltb, Option,
  none, some, length, if◌then◌else◌, is_empty,
}
use nanoarrow2parquet.Bytes.{Bytes}
use nanoarrow2parquet.Bitmap.{valid_bit, set_bit, zero_bitmap}
use nanoarrow2parquet.Arrow.{
  ArrayHead, ArrowArray, head, children, array_at, n_arrays, buffer, ArrowSchema, Schemas,
  schema_head, schema_children, n_schemas, null_schemas, no_schemas, and_schema,
}
use nanoarrow2parquet.Schema.{
  LeafSpec, PathStep, struct_step, map_step, leaf_step, Flat, flatten_schema, is_format,
}
use nanoarrow2parquet.Shred.{Shredded, shred_rows}
use nanoarrow2parquet.Pages.{encode_definition_levels, encode_definition_levels_bitmap}
use nanoarrow2parquet.External.{External}
use nanoarrow2parquet.External.Headers.{ColumnChunkMeta, RowGroupMeta}
use nanoarrow2parquet.Writer.State.{
  Action, ◌>>=◌, ◌>>◌, pure, gets, refuse, refuse_if, throwing, reporting, catching, done,
}
use nanoarrow2parquet.Writer.Columns.{validate_child, new_chunk, write_leaf_pages, is_null_type}
use nanoarrow2parquet.Result.{
  invalid_argument, unsupported_type, io_error, Result, ok, crash, and_then, batch_structure,
  null_argument, not_a_struct, no_columns, child_count, no_leaves, incompatible_schema,
  stream_failed,
}

-- One step of `write_list_leaf`'s way down to the leaf array.
unfoldable pub next_array : PathStep → ArrowArray → Option ArrowArray
next_array st a = elim st.kind [
  | struct_step ↦ array_at (children a) st.child
  | map_step ↦ elim (array_at (children a) 0) [
    | none ↦ none
    | some entries ↦
        if n_arrays (children entries) == 2 then array_at (children entries) st.child else none
  ]
  | _ ↦ array_at (children a) 0
]

unfoldable pub leaf_array : List PathStep → ArrowArray → Option ArrowArray
unfolding next_array
leaf_array [] a = some a
leaf_array (st ∷ sts) a = elim st.kind [
  | leaf_step ↦ some a
  | _ ↦ elim (next_array st a) [ none ↦ none | some c ↦ leaf_array sts c ]
]

abbrev pub or_structure : {A : Type 0} → Option A → Action A
or_structure none = refuse invalid_argument batch_structure
or_structure (some a) = pure a

-- The arrays from a column down to the leaf, by the child indices of the path.
unfoldable pub path_arrays : List ℕ → ArrowArray → Option (List ArrowArray)
path_arrays [] a = some []
path_arrays (i ∷ is) a = elim (array_at (children a) i) [
  | none ↦ none
  | some c ↦ elim (path_arrays is c) [ none ↦ none | some cs ↦ some (c ∷ cs) ]
]

-- `val`, null where there is no buffer; none for the read through a null `buffers`.
abbrev pub first_buffer : ArrayHead → Option (Option Bytes)
first_buffer h =
    if ltb 0 h.n_buffers
    then elim h.buffers [ none ↦ none | some bs ↦ some (buffer h 0) ]
    else some none

-- The inner loop over a path at row `i`: the present OPTIONAL nodes before the first null, and
-- whether there was no null; none where a read crashes.
unfoldable pub row_level : Bool → List ArrowArray → List Bool → ℕ → ℕ → Option (ℕ × Bool)
row_level null_leaf [] flags i d = some (d, true)
row_level null_leaf (a ∷ as') [] i d = some (d, true)
row_level null_leaf (a ∷ as') (false ∷ flags) i d = row_level null_leaf as' flags i d
row_level null_leaf (a ∷ as') (true ∷ flags) i d = elim (first_buffer (head a)) [
  | none ↦ none
  | some val ↦ elim (if is_empty as' && null_leaf then false else valid_bit val i) [
    | true ↦ row_level null_leaf as' flags i (d + 1)
    | false ↦ some (d, false)
  ]
]

-- `def`, `present_map` and `present_count` while the rows are visited.
pub record Levels : Type 0 where
  pub def : List ℕ
  pub present_map : Bytes
  pub present_count : ℕ

-- A row's levels: `def` is kept only if the maximum is above 1.
unfoldable pub add_row : ℕ → ℕ → ℕ × Bool → Levels → Levels
add_row max i (d, present_all) ls = record {
  def = if ltb 1 max then ls.def ++ (d ∷ []) else ls.def;
  present_map = if present_all && d == max then set_bit ls.present_map i else ls.present_map;
  present_count = if present_all && d == max then ls.present_count + 1 else ls.present_count;
}

-- The loop over the rows from `i` on.
unfoldable pub row_levels : Bool → List ArrowArray → List Bool → ℕ → ℕ → ℕ → Levels → Option Levels
unfolding row_level add_row
row_levels null_leaf as' flags max zero i ls = some ls
row_levels null_leaf as' flags max (suc n) i ls = elim (row_level null_leaf as' flags i 0) [
  | none ↦ none
  | some r ↦ row_levels null_leaf as' flags max n (i + 1) (add_row max i r ls)
]

unfoldable pub last_array : ArrowArray → List ArrowArray → ArrowArray
last_array a [] = a
last_array a (b ∷ bs) = last_array b bs

abbrev pub no_levels : ℕ → Levels
no_levels n = record { def = []; present_map = zero_bitmap n; present_count = 0 }

-- The chunk joins its row group.
abbrev pub add_chunk : RowGroupMeta → ColumnChunkMeta → RowGroupMeta
add_chunk rg c = record rg {
  columns = rg.columns ++ (c ∷ []);
  total_byte_size = rg.total_byte_size + c.total_uncompressed;
}

-- `path_idx[0]`; every path has one.
abbrev pub column_index : List ℕ → ℕ
column_index [] = 0
column_index (i ∷ is) = i

-- `value_validity`: nothing to skip where every position is present.
abbrev pub validity_of : ℕ → ℕ → Bytes → Option Bytes
validity_of count n present = if ltb count n then some present else none

module _ (ext : External) where
  -- A leaf under a list or map.
  unfoldable pub write_list_leaf : LeafSpec → ArrowArray → RowGroupMeta → Action RowGroupMeta
  unfolding leaf_array
  write_list_leaf leaf batch rg = do
    column ← or_structure (array_at (children batch) (column_index leaf.path_idx))
    leaf_arr ← or_structure (leaf_array leaf.steps column)
    let n = (head leaf_arr).length
    reporting invalid_argument (validate_child leaf_arr leaf.col n)
    let start : Shredded = record { rep = []; def = []; present = zero_bitmap n; present_count = 0 }
    sh ←
        reporting invalid_argument
          (shred_rows leaf.col.name leaf.col.extract leaf.steps column (head batch).length 0 start)
    reps ← throwing (encode_definition_levels ext sh.rep leaf.rep_bit_width)
    defs ← throwing (encode_definition_levels ext sh.def leaf.def_bit_width)
    at ← gets (λ w. w.offset)
    let c = record (new_chunk leaf (length sh.def) at) {
      null_count = length sh.def - sh.present_count;
    }
    c' ←
        write_leaf_pages ext leaf_arr leaf.col (validity_of sh.present_count n sh.present)
          (reps ++ defs) (length sh.def) true c
    pure (add_chunk rg c')

  -- The definition levels of a leaf outside lists, with the validity of its values and its null
  -- count: none for a REQUIRED path.
  abbrev pub encode_levels : LeafSpec → ℕ → Option Levels → Result (Bytes × Option Bytes × ℕ)
  encode_levels leaf n none = crash
  encode_levels leaf n (some ls) =
      let prefix =
        if leaf.max_def_level == 1
        then encode_definition_levels_bitmap ext ls.present_map n
        else encode_definition_levels ext ls.def leaf.def_bit_width in
      and_then prefix
        (λ bytes. ok (bytes, validity_of ls.present_count n ls.present_map, n - ls.present_count))

  unfoldable pub leaf_levels : LeafSpec → List ArrowArray → ℕ → Result (Bytes × Option Bytes × ℕ)
  unfolding row_levels
  leaf_levels leaf as' n =
      if ltb 0 leaf.max_def_level
      then encode_levels leaf n (
          row_levels (is_null_type leaf.col.extract) as' leaf.path_optional leaf.max_def_level n 0
            (no_levels n))
      else ok ([], none, 0)

  -- A leaf outside lists: the loop body of `write_one_batch`.
  unfoldable pub write_flat_leaf : LeafSpec → ArrowArray → RowGroupMeta → Action RowGroupMeta
  unfolding path_arrays last_array leaf_levels
  write_flat_leaf leaf batch rg = do
    as' ← or_structure (path_arrays leaf.path_idx batch)
    let child = last_array batch as'
    let n = (head batch).length
    reporting invalid_argument (validate_child child leaf.col n)
    at ← gets (λ w. w.offset)
    (prefix, validity, nulls) ← throwing (leaf_levels leaf as' n)
    c' ←
        write_leaf_pages ext child leaf.col validity prefix n (ltb 0 leaf.max_def_level)
          (record (new_chunk leaf n at) { null_count = nulls })
    pure (add_chunk rg c')

  unfoldable pub write_leaf : LeafSpec → ArrowArray → RowGroupMeta → Action RowGroupMeta
  unfolding write_list_leaf write_flat_leaf
  write_leaf leaf batch rg =
      if leaf.has_list then write_list_leaf leaf batch rg else write_flat_leaf leaf batch rg

  unfoldable pub write_leaves : List LeafSpec → ArrowArray → RowGroupMeta → Action RowGroupMeta
  unfolding write_leaf
  write_leaves [] batch rg = pure rg
  write_leaves (leaf ∷ leaves) batch rg = write_leaf leaf batch rg >>= write_leaves leaves batch

-- The loop of the first batch over the top-level columns from `i` on.
unfoldable pub flatten_columns : Schemas → ℕ → Flat → Result Flat
flatten_columns (null_schemas zero) i out = ok out
flatten_columns (null_schemas (suc n)) i out = crash
flatten_columns no_schemas i out = ok out
flatten_columns (and_schema c cs) i out =
    and_then (flatten_schema c i out) (flatten_columns cs (i + 1))

abbrev pub empty_flat : Flat
empty_flat = record { nodes = []; leaves = [] }

-- The members that fix the schema, where it has a leaf.
unfoldable pub set_schema : Schemas → Flat → Action (Unit {0})
set_schema cs flat = do
  refuse_if (is_empty flat.leaves) invalid_argument no_leaves
  λ w. (
    done tt,
    record w {
      schema_nodes = flat.nodes;
      leaves = flat.leaves;
      top_children = n_schemas cs;
      schema_locked = true;
    },
  )

-- The first batch fixes the schema; a later one must have as many columns.
unfoldable pub lock_schema : Schemas → Action (Unit {0})
unfolding flatten_columns set_schema
lock_schema cs w =
    if w.schema_locked
    then refuse_if (not (n_schemas cs == w.top_children)) invalid_argument incompatible_schema w
    else (reporting unsupported_type (flatten_columns cs 0 empty_flat) >>= set_schema cs) w

-- The RowGroupMeta that a batch of `rows` rows starts with.
abbrev pub start_group : ℕ → RowGroupMeta
start_group rows = record { columns = []; num_rows = rows; total_byte_size = 0 }

abbrev pub add_row_group : RowGroupMeta → ℕ → Action (Unit {0})
add_row_group rg rows w =
    (done tt, record w { row_groups = w.row_groups ++ (rg ∷ []); total_rows = w.total_rows + rows })

module _ (ext : External) where
  unfoldable pub write_checked : ArrowSchema → ArrowArray → Action (Unit {0})
  unfolding lock_schema
  write_checked sc batch = do
    refuse_if (not (is_format (schema_head sc).format "+s")) invalid_argument not_a_struct
    refuse_if (n_schemas (schema_children sc) == 0) invalid_argument no_columns
    refuse_if (not (n_arrays (children batch) == n_schemas (schema_children sc))) invalid_argument
        child_count
    lock_schema (schema_children sc)
    leaves ← gets (λ w. w.leaves)
    rg ← catching (write_leaves ext leaves batch (start_group (head batch).length))
    add_row_group rg (head batch).length
    good ← gets (λ w. w.out.good)
    refuse_if (not good) io_error stream_failed

  -- A value means N2P_OK.
  unfoldable pub write_one_batch : Option ArrowSchema → Option ArrowArray → Action (Unit {0})
  unfolding write_checked
  write_one_batch none batch = refuse invalid_argument null_argument
  write_one_batch (some sc) none = refuse invalid_argument null_argument
  write_one_batch (some sc) (some batch) = write_checked sc batch
