-- ===== src/Schema.antt =====
-- Nested schema flattening of src/writer.cpp: the pre-order footer nodes and the leaves of a record
-- batch, by recursion on the Arrow schema.
pub mod Tree
pub mod Shape
use nanoarrow2parquet.Common.{
  ℕ, zero, suc, ◌+◌, List, [], ◌∷◌, ◌++◌, Bool, true, false, ◌||◌, ◌==◌, ltb, Option, none, some,
  String, str_eq, if◌then◌else◌,
}
use nanoarrow2parquet.Arrow.{
  ArrowSchema, schema, Schemas, null_schemas, no_schemas, and_schema, SchemaHead, schema_head,
  n_schemas, has_nullable_flag,
}
use nanoarrow2parquet.Bytes.{dictionary_bit_width}
use nanoarrow2parquet.Format.{ColumnSpec, PqType, ConvertedType, map_format}
use nanoarrow2parquet.Result.{Result, ok, err, crash, ◌>>=◌, list_child_count, map_entries_shape}

-- `has_converted` and `converted` are one optional value.
pub record SchemaNode : Type 0 where
  pub is_group : Bool
  pub name : String
  pub optional : Bool
  pub repeated : Bool
  pub num_children : ℕ
  pub list_group : Bool
  pub map_group : Bool
  pub type : PqType
  pub converted : Option ConvertedType
  pub type_length : ℕ

pub data StepKind : Type 0 where
  struct_step list_step large_list_step map_step leaf_step : StepKind

pub record PathStep : Type 0 where
  pub kind : StepKind
  pub optional : Bool
  pub child : ℕ
  pub rep_level : ℕ

pub record LeafSpec : Type 0 where
  pub col : ColumnSpec
  pub path_idx : List ℕ
  pub path_names : List String
  pub path_optional : List Bool
  pub max_def_level : ℕ
  pub def_bit_width : ℕ
  pub has_list : Bool
  pub steps : List PathStep
  pub max_rep_level : ℕ
  pub rep_bit_width : ℕ

-- The `idx`, `names`, `opt` and `steps` arguments of `flatten_node`.
pub record Trail : Type 0 where
  pub idx : List ℕ
  pub names : List String
  pub opt : List Bool
  pub steps : List PathStep

-- The two vectors that `flatten_node` appends to.
pub record Flat : Type 0 where
  pub nodes : List SchemaNode
  pub leaves : List LeafSpec

abbrev pub is_repeated : StepKind → Bool
is_repeated struct_step = false
is_repeated list_step = true
is_repeated large_list_step = true
is_repeated map_step = true
is_repeated leaf_step = false

-- `rep_above`, and the final `R`: the list and map steps.
abbrev pub rep_count : List PathStep → ℕ
rep_count [] = 0
rep_count (st ∷ sts) = (if is_repeated st.kind then 1 else 0) + rep_count sts

-- The final `D`: one level for an optional step, and one for each repeated group.
abbrev pub def_count : List PathStep → ℕ
def_count [] = 0
def_count (st ∷ sts) =
    (if st.optional then 1 else 0) + (if is_repeated st.kind then 1 else 0) + def_count sts

abbrev pub text_or_empty : Option String → String
text_or_empty none = ""
text_or_empty (some s) = s

abbrev pub is_format : Option String → String → Bool
is_format none f = false
is_format (some g) f = str_eq g f

abbrev pub nullable_child : ArrowSchema → Bool
nullable_child s = has_nullable_flag (schema_head s) || is_format (schema_head s).format "n"

abbrev pub group_node : String → Bool → ℕ → SchemaNode
group_node name optional n = record {
  is_group = true;
  name = name;
  optional = optional;
  repeated = false;
  num_children = n;
  list_group = false;
  map_group = false;
  type = PqType.boolean;
  converted = none;
  type_length = 0;
}

-- The repeated group of a list or map.
abbrev pub repeated_group : String → ℕ → SchemaNode
repeated_group name n = record (group_node name false n) { repeated = true }

abbrev pub leaf_node : ColumnSpec → SchemaNode
leaf_node spec = record {
  is_group = false;
  name = spec.name;
  optional = spec.nullable;
  repeated = false;
  num_children = 0;
  list_group = false;
  map_group = false;
  type = spec.type;
  converted = spec.converted;
  type_length = spec.type_length;
}

abbrev pub add_node : SchemaNode → Flat → Flat
add_node n out = record out { nodes = out.nodes ++ (n ∷ []) }

abbrev step : StepKind → Bool → ℕ → ℕ → PathStep
step kind optional child rep = record {
  kind = kind;
  optional = optional;
  child = child;
  rep_level = rep;
}

-- The steps are kept only for a leaf under a list or map.
unfoldable pub make_leaf : ColumnSpec → Trail → LeafSpec
make_leaf spec t =
    let steps = t.steps ++ (step leaf_step spec.nullable 0 0 ∷ []) in
    let is_nested = ltb 0 (rep_count steps) in
    record {
      col = spec;
      path_idx = t.idx;
      path_names = t.names;
      path_optional = t.opt;
      max_def_level = def_count steps;
      def_bit_width = dictionary_bit_width (def_count steps + 1);
      has_list = is_nested;
      steps = if is_nested then steps else [];
      max_rep_level = rep_count steps;
      rep_bit_width = dictionary_bit_width (rep_count steps + 1);
    }

-- The leaf part of `flatten_node`.
unfoldable pub flatten_leaf : SchemaHead → String → Bool → Trail → Flat → Result Flat
unfolding make_leaf
flatten_leaf h name optional t out = do
  spec ← map_format h.format name optional
  ok (record {
    nodes = out.nodes ++ (leaf_node spec ∷ []);
    leaves = out.leaves ++ (make_leaf spec t ∷ []);
  })

-- The step into child `i` of a struct, whose name and flag join the path.
abbrev pub into_field : Trail → Bool → ℕ → ArrowSchema → Trail
into_field t optional i c = record {
  idx = t.idx ++ (i ∷ []);
  names = t.names ++ (text_or_empty (schema_head c).name ∷ []);
  opt = t.opt ++ (nullable_child c ∷ []);
  steps = t.steps ++ (step struct_step optional i 0 ∷ []);
}

-- The step into a list's element, or into a map's key (0) or value (1).
abbrev pub into_repeated : Trail → StepKind → Bool → String → String → ℕ → Trail
into_repeated t kind optional group name i = record t {
  names = t.names ++ (group ∷ name ∷ []);
  steps = t.steps ++ (step kind optional i (rep_count t.steps + 1) ∷ []);
}

-- The two footer groups of a list.
abbrev pub list_groups : String → Bool → Flat → Flat
list_groups name optional out =
    add_node (repeated_group "list" 1)
      (add_node (record (group_node name optional 1) { list_group = true }) out)

abbrev pub map_groups : String → Bool → Flat → Flat
map_groups name optional out =
    add_node (repeated_group "key_value" 2)
      (add_node (record (group_node name optional 1) { map_group = true }) out)

unfoldable mutual
  pub flatten_node : ArrowSchema → String → Bool → Trail → Flat → Result Flat
  flatten_node (schema h cs) name optional t out = elim (is_format h.format "+s") [
    | true ↦ flatten_fields cs 0 optional t (add_node (group_node name optional (n_schemas cs)) out)
    | false ↦ elim (is_format h.format "+l" || is_format h.format "+L") [
      | true ↦
          flatten_list cs (if is_format h.format "+L" then large_list_step else list_step) name
            optional t out
      | false ↦ elim (is_format h.format "+m") [
        | true ↦ flatten_map cs name optional t out
        | false ↦ flatten_leaf h name optional t out
      ]
    ]
  ]

  -- The loop over a struct's children, from child `i` on.
  pub flatten_fields : Schemas → ℕ → Bool → Trail → Flat → Result Flat
  flatten_fields (null_schemas zero) i optional t out = ok out
  flatten_fields (null_schemas (suc n)) i optional t out = crash
  flatten_fields no_schemas i optional t out = ok out
  flatten_fields (and_schema c cs) i optional t out =
      flatten_node c (text_or_empty (schema_head c).name) (nullable_child c)
        (into_field t optional i c) out
      >>= flatten_fields cs (i + 1) optional t

  pub flatten_list : Schemas → StepKind → String → Bool → Trail → Flat → Result Flat
  flatten_list (and_schema c no_schemas) kind name optional t out =
      flatten_node c "element" (nullable_child c) (into_repeated t kind optional "list" "element" 0)
        (list_groups name optional out)
  flatten_list _ kind name optional t out = err (list_child_count name)

  pub flatten_map : Schemas → String → Bool → Trail → Flat → Result Flat
  flatten_map (and_schema entries no_schemas) name optional t out =
      elim (is_format (schema_head entries).format "+s") [
        | true ↦ flatten_entries entries name optional t out
        | false ↦ err (map_entries_shape name)
      ]
  flatten_map _ name optional t out = err (list_child_count name)

  -- Keys are REQUIRED; values keep their nullability.
  pub flatten_entries : ArrowSchema → String → Bool → Trail → Flat → Result Flat
  flatten_entries (schema h (and_schema k (and_schema v no_schemas))) name optional t out =
      flatten_node k "key" false (into_repeated t map_step optional "key_value" "key" 0)
        (map_groups name optional out)
      >>= flatten_node v "value" (nullable_child v)
          (into_repeated t map_step optional "key_value" "value" 1)
  flatten_entries (schema h cs) name optional t out =
      if n_schemas cs == 2 then crash else err (map_entries_shape name)

-- A top-level column: its own index, name and flag start the path.
unfoldable pub flatten_schema : ArrowSchema → ℕ → Flat → Result Flat
flatten_schema c i out =
    flatten_node c (text_or_empty (schema_head c).name) (nullable_child c)
      (record {
        idx = i ∷ [];
        names = text_or_empty (schema_head c).name ∷ [];
        opt = nullable_child c ∷ [];
        steps = [];
      })
      out
