-- ===== src/Soa/Nodes.antt =====
-- The borrowed Arrow tree of a chunk (`build_node` of include/nanoarrow2parquet/soa.hpp).
use nanoarrow2parquet.Common.{
  ℕ, suc, Bool, true, false, ◌&&◌, ◌==◌, Option, none, some, String, List, [], ◌∷◌, if◌then◌else◌,
}
use nanoarrow2parquet.Common.Int.{pos}
use nanoarrow2parquet.Bytes.{Bytes}
use nanoarrow2parquet.Bitmap.{zero_bitmap}
use nanoarrow2parquet.Arrow.{
  ArrowArray, Arrays, array, nil, cons, ArrowSchema, Schemas, schema, no_schemas, and_schema,
}
use nanoarrow2parquet.Pages.Values.{plain_bytes}
use nanoarrow2parquet.Soa.Columns.{
  ElementType, utf8, binary, large_utf8, large_binary, boolean, format_of, Values, numbers, strings,
  bools, size, NullableColumn, pack_bools, pack_strings,
}

-- Field, Nullable, Struct and NullableStruct: a name, the flag, and a type or children.
mutual
  pub data Field : Type 0 where
    leaf : String → Bool → ElementType → Field
    group : String → Bool → Fields → Field

  pub data Fields : Type 0 where
    last : Field → Fields
    field : Field → Fields → Fields

-- A plain range, present(...) or valid_bits(...), group(...), and group_present or group_valid with
-- their bitmap, null count and, for a mask, its length.
mutual
  pub data Arg : Type 0 where
    range : Values → Arg
    nullable : NullableColumn → Arg
    group_of : Args → Arg
    nullable_group : Option Bytes → ℕ → Option ℕ → Args → Arg

  pub data Args : Type 0 where
    last_arg : Arg → Args
    arg : Arg → Args → Args

-- A built node, and whether the shape was right.
pub record Node : Type 0 where
  pub node_schema : ArrowSchema
  pub node_array : ArrowArray
  pub shape_ok : Bool

pub record Nodes : Type 0 where
  pub schemas : Schemas
  pub arrays : Arrays
  pub shapes_ok : Bool

abbrev field_flags : Bool → ℕ
field_flags b = if b then 2 else 0

abbrev string_buffers : Option (Bytes × Bytes) → Option (List (Option Bytes))
string_buffers none = none
string_buffers (some (off, dat)) = some (some off ∷ some dat ∷ [])

-- `vb[1]` and `vb[2]` of a leaf, by its type: none where the range is of another type, or where a
-- column that is longer than `n` makes a loop write behind its buffer.
unfoldable pub value_buffers :
    ElementType → Values → Option Bytes → ℕ → Option (List (Option Bytes))
unfolding pack_bools pack_strings
value_buffers boolean (bools bs) validity n = elim (pack_bools bs 0 (zero_bitmap n)) [
  | none ↦ none
  | some packed ↦ some (some packed ∷ [])
]
value_buffers boolean _ validity n = none
value_buffers utf8 (strings vs) validity n =
    string_buffers (pack_strings 4 validity vs n 0 0 (plain_bytes 4 0) [])
value_buffers utf8 _ validity n = none
value_buffers binary (strings vs) validity n =
    string_buffers (pack_strings 4 validity vs n 0 0 (plain_bytes 4 0) [])
value_buffers binary _ validity n = none
value_buffers large_utf8 (strings vs) validity n =
    string_buffers (pack_strings 8 validity vs n 0 0 (plain_bytes 8 0) [])
value_buffers large_utf8 _ validity n = none
value_buffers large_binary (strings vs) validity n =
    string_buffers (pack_strings 8 validity vs n 0 0 (plain_bytes 8 0) [])
value_buffers large_binary _ validity n = none
value_buffers t (numbers b k) validity n = some (some b ∷ [])
value_buffers t _ validity n = none

abbrev count_buffers : List (Option Bytes) → ℕ
count_buffers [] = 1
count_buffers (b ∷ bs) = suc (count_buffers bs)

-- The leaf branch of `build_node`.
unfoldable pub build_leaf :
    String → Bool → ElementType → Values → Option Bytes → ℕ → ℕ → Option Node
unfolding value_buffers
build_leaf name is_nullable t values validity null_count n =
    elim (value_buffers t values validity n) [
      | none ↦ none
      | some bs ↦ some (record {
        node_schema =
            schema
              (record {
                format = some (format_of t);
                name = some name;
                flags = field_flags is_nullable;
              })
              no_schemas;
        node_array =
            array
              (record {
                length = n;
                null_count = pos null_count;
                offset = 0;
                n_buffers = count_buffers bs;
                buffers = some (validity ∷ bs);
              })
              nil;
        shape_ok = size values == n;
      })
    ]

-- The group branch, with its children built.
unfoldable pub build_group :
    String → Bool → Option Bytes → ℕ → Bool → ℕ → Option Nodes → Option Node
build_group name is_nullable validity null_count rows_ok n none = none
build_group name is_nullable validity null_count rows_ok n (some children) = some (record {
  node_schema =
      schema (record { format = some "+s"; name = some name; flags = field_flags is_nullable })
        children.schemas;
  node_array =
      array
        (record {
          length = n;
          null_count = pos null_count;
          offset = 0;
          n_buffers = 1;
          buffers = some (validity ∷ []);
        })
        children.arrays;
  shape_ok = rows_ok && children.shapes_ok;
})

abbrev rows_match : Option ℕ → ℕ → Bool
rows_match none n = true
rows_match (some rows) n = rows == n

abbrev first_node : Option Node → Option Nodes
first_node none = none
first_node (some d) = some (record {
  schemas = and_schema d.node_schema no_schemas;
  arrays = cons d.node_array nil;
  shapes_ok = d.shape_ok;
})

abbrev add_node : Option Node → Option Nodes → Option Nodes
add_node none ds = none
add_node (some d) none = none
add_node (some d) (some ds) = some (record {
  schemas = and_schema d.node_schema ds.schemas;
  arrays = cons d.node_array ds.arrays;
  shapes_ok = d.shape_ok && ds.shapes_ok;
})

-- A REQUIRED field takes a plain range or group(...), a nullable one a column or group with validity.
unfoldable mutual
  pub build_node : Field → Arg → ℕ → Option Node
  build_node (leaf name false t) (range values) n = build_leaf name false t values none 0 n
  build_node (leaf name true t) (nullable col) n =
      build_leaf name true t col.values col.validity col.null_count n
  build_node (leaf name _ t) _ n = none
  build_node (group name false fs) (group_of args) n =
      build_group name false none 0 true n (build_nodes fs args n)
  build_node (group name true fs) (nullable_group validity nulls rows args) n =
      build_group name true validity nulls (rows_match rows n) n (build_nodes fs args n)
  build_node (group name _ fs) _ n = none

  pub build_nodes : Fields → Args → ℕ → Option Nodes
  build_nodes (last f) (last_arg a) n = first_node (build_node f a n)
  build_nodes (last f) (arg a as') n = none
  build_nodes (field f fs) (last_arg a) n = none
  build_nodes (field f fs) (arg a as') n = add_node (build_node f a n) (build_nodes fs as' n)

-- The row count of an argument's first leaf.
unfoldable mutual
  pub first_leaf_size : Arg → ℕ
  first_leaf_size (range values) = size values
  first_leaf_size (nullable col) = size col.values
  first_leaf_size (group_of args) = first_leaf_sizes args
  first_leaf_size (nullable_group validity nulls rows args) = first_leaf_sizes args

  pub first_leaf_sizes : Args → ℕ
  first_leaf_sizes (last_arg a) = first_leaf_size a
  first_leaf_sizes (arg a as') = first_leaf_size a
