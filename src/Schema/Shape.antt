-- ===== src/Schema/Shape.antt =====
-- What the flattening of a schema makes: the pre-order of trees, with the leaves as their columns.
use mathlib.Core.List.{map-append}
use nanoarrow2parquet.Common.{
  ℕ, zero, suc, ◌+◌, ◌≡◌, refl, sym, ap, ◌∙◌, arith, Bool, true, false, String, List, [], ◌∷◌, ◌++◌,
  map, append_assoc, append-nil, if◌then◌else◌, Bool-cases, inl, inr, ◌||◌, ◌==◌,
}
use nanoarrow2parquet.Arrow.{
  ArrowSchema, schema, Schemas, SchemaHead, schema_head, null_schemas, no_schemas, and_schema,
  n_schemas,
}
use nanoarrow2parquet.Format.{ColumnSpec, map_format}
use nanoarrow2parquet.Format.Layout.{map_format-Layout}
use nanoarrow2parquet.Schema.{
  SchemaNode, PathStep, StepKind, struct_step, list_step, large_list_step, map_step, leaf_step,
  LeafSpec, Trail, Flat, is_repeated, def_count, rep_count, make_leaf, flatten_leaf, flatten_node,
  flatten_fields, flatten_list, flatten_map, flatten_entries, is_format, into_field, into_repeated,
  text_or_empty, list_groups, map_groups, group_node, repeated_group, leaf_node, add_node,
}
use nanoarrow2parquet.Schema.Tree.{
  Tree, Trees, column, group, nil, cons, count, preorder, preorders, IsCounted, AreCounted, Column,
  columns, all_columns, defines, repeats,
}
use nanoarrow2parquet.Result.Rules.{IfOk, IfOk-bind, IfOk-map}
use nanoarrow2parquet.Result.{Result, ok, err, crash, ◌>>=◌, map_entries_shape}

-- A leaf as a column of the schema.
abbrev pub describe : LeafSpec → Column
describe l = record {
  path = l.path_names;
  type = l.col.type;
  max_def = l.max_def_level;
  max_rep = l.max_rep_level;
}

-- One tree more in the nodes, and its columns in the leaves.
abbrev pub GrewOne : List String → ℕ → ℕ → Flat → Flat → Type 0
GrewOne path d r out out' =
    (t : Tree) × (out'.nodes ≡ out.nodes ++ preorder t)
    × IsCounted t
    × (map describe out'.leaves ≡ map describe out.leaves ++ columns t path d r)

abbrev pub Grew : ℕ → List String → ℕ → ℕ → Flat → Flat → Type 0
Grew k path d r out out' =
    (ts : Trees) × (out'.nodes ≡ out.nodes ++ preorders ts)
    × AreCounted ts
    × (count ts ≡ k)
    × (map describe out'.leaves ≡ map describe out.leaves ++ all_columns ts path d r)

-- The path and the levels of the node that is about to be flattened.
pub record At (t : Trail) (path : List String) (name : String) (d r : ℕ) : Type 0 where
  pub named : t.names ≡ path ++ (name ∷ [])
  pub defined : def_count t.steps ≡ d
  pub repeated : rep_count t.steps ≡ r

def_count-append :
    (sts : List PathStep) (st : PathStep)
    → def_count (sts ++ (st ∷ []))
      ≡ def_count sts + ((if st.optional then 1 else 0) + (if is_repeated st.kind then 1 else 0))
def_count-append [] st = omega arith
def_count-append (s ∷ sts) st = omega (arith, def_count-append sts st)

rep_count-append :
    (sts : List PathStep) (st : PathStep)
    → rep_count (sts ++ (st ∷ [])) ≡ rep_count sts + (if is_repeated st.kind then 1 else 0)
rep_count-append [] st = omega arith
rep_count-append (s ∷ sts) st = omega (arith, rep_count-append sts st)

describe-make_leaf :
    (path : List String) (spec : ColumnSpec) (t : Trail) (d r : ℕ)
    → At t path spec.name d r
    → map describe (make_leaf spec t ∷ []) ≡ columns (column (leaf_node spec)) path d r
unfolding make_leaf columns
describe-make_leaf path spec t d r at =
    let leaf : PathStep = record {
      kind = leaf_step;
      optional = spec.nullable;
      child = 0;
      rep_level = 0;
    } in
    let def : def_count (t.steps ++ (leaf ∷ [])) ≡ d + ((if spec.nullable then 1 else 0) + 0) =
      omega (arith, def_count-append t.steps leaf, at.defined) in
    let rep : rep_count (t.steps ++ (leaf ∷ [])) ≡ r + 0 =
      omega (arith, rep_count-append t.steps leaf, at.repeated) in
    λ i. record { path = at.named i; type = spec.type; max_def = def i; max_rep = rep i } ∷ []

flatten_leaf-Grew :
    (h : SchemaHead) (path : List String) (name : String) (optional : Bool) (t : Trail) (d r : ℕ)
    (out : Flat)
    → At t path name d r
    → IfOk (GrewOne path d r out) (flatten_leaf h name optional t out)
unfolding flatten_leaf
flatten_leaf-Grew h path name optional t d r out at = go (map_format h.format name optional) refl
  where
    go :
        (m : Result ColumnSpec)
        → map_format h.format name optional ≡ m
        → IfOk (GrewOne path d r out) (
            m >>= λ spec. ok (record {
              nodes = out.nodes ++ (leaf_node spec ∷ []);
              leaves = out.leaves ++ (make_leaf spec t ∷ []);
            }))
    go (ok spec) e = (
      column (leaf_node spec),
      unfold preorder in refl,
      unfold IsCounted in refl,
      map-append describe out.leaves (make_leaf spec t ∷ [])
          ∙ ap (λ (cs : List Column). map describe out.leaves ++ cs)
              (describe-make_leaf path spec t d r (
                let named : spec.name ≡ name =
                  (map_format-Layout h.format name optional spec e).1 in
                record {
                  named = at.named ∙ ap (λ (x : String). path ++ (x ∷ [])) (sym named);
                  defined = at.defined;
                  repeated = at.repeated;
                })),
    )
    go (err x) e = tt
    go crash e = tt

-- A group's node, and then its children.
under_group :
    (n : SchemaNode) (k : ℕ) (path : List String) (d r : ℕ) (out out' : Flat)
    → n.is_group ≡ true
    → n.num_children ≡ k
    → Grew k (path ++ (n.name ∷ [])) (d + defines n) (r + repeats n) (add_node n out) out'
    → GrewOne path d r out out'
unfolding preorder IsCounted columns
under_group n k path d r out out' inner number (ts, nodes, counted, same, leaves) = (
  group n ts,
  nodes ∙ append_assoc out.nodes (n ∷ []) (preorders ts),
  (inner, number ∙ sym same, counted),
  leaves,
)

one_child :
    (path : List String) (d r : ℕ) (out out' : Flat)
    → GrewOne path d r out out'
    → Grew 1 path d r out out'
unfolding preorder IsCounted columns
one_child path d r out out' (t, nodes, counted, leaves) =
    (cons t nil, rw append-nil nodes, (counted, tt), refl, rw append-nil leaves)

pub no_child : (path : List String) (d r : ℕ) (out : Flat) → Grew 0 path d r out out
unfolding preorder IsCounted columns
no_child path d r out =
    (nil, sym (append-nil out.nodes), tt, refl, sym (append-nil (map describe out.leaves)))

pub next_child :
    (k : ℕ) (path : List String) (d r : ℕ) (out mid out' : Flat)
    → GrewOne path d r out mid
    → Grew k path d r mid out'
    → Grew (suc k) path d r out out'
unfolding preorder IsCounted columns
next_child k path d r out mid out' (t, nodes, counted, leaves)
      (ts, nodes', counted', same, leaves') =
    (
      cons t ts,
      nodes'
          ∙ ap (λ (ns : List SchemaNode). ns ++ preorders ts) nodes
          ∙ append_assoc out.nodes (preorder t) (preorders ts),
      (counted, counted'),
      ap suc same,
      leaves'
          ∙ ap (λ (cs : List Column). cs ++ all_columns ts path d r) leaves
          ∙ append_assoc (map describe out.leaves) (columns t path d r) (all_columns ts path d r),
    )

-- The group of a list or map with its repeated group, around the children.
under_groups :
    (top inner : SchemaNode) (k : ℕ) (path : List String) (d r : ℕ) (out out' : Flat)
    → top.is_group ≡ true
    → top.num_children ≡ 1
    → inner.is_group ≡ true
    → inner.num_children ≡ k
    → Grew k
        ((path ++ (top.name ∷ [])) ++ (inner.name ∷ []))
        (d + defines top + defines inner)
        (r + repeats top + repeats inner)
        (add_node inner (add_node top out))
        out'
    → GrewOne path d r out out'
under_groups top inner k path d r out out' a b c e grew = under_group top 1 path d r out out' a b (
    one_child (path ++ (top.name ∷ [])) (d + defines top) (r + repeats top) (add_node top out) out'
      (under_group inner k (path ++ (top.name ∷ [])) (d + defines top) (r + repeats top)
        (add_node top out) out' c e grew))

refused-Grew :
    (b : Bool) (name : String) (P : Flat → Type 0)
    → IfOk P (if b then crash else err (map_entries_shape name))
refused-Grew true name P = tt
refused-Grew false name P = tt

-- The path and levels of a struct's child, and of what stands in a list or map.
into_field-At :
    (t : Trail) (optional : Bool) (i : ℕ) (c : ArrowSchema) (n : ℕ) (path : List String)
    (name : String) (d r : ℕ)
    → At t path name d r
    → let g = group_node name optional n in
      At
        (into_field t optional i c)
        (path ++ (name ∷ []))
        (text_or_empty (schema_head c).name)
        (d + defines g)
        (r + repeats g)
into_field-At t optional i c n path name d r at = record {
  named = ap (λ (ns : List String). ns ++ (text_or_empty (schema_head c).name ∷ [])) at.named;
  defined = omega (
    arith,
    at.defined,
    def_count-append t.steps
        (record { kind = struct_step; optional = optional; child = i; rep_level = 0 }),
  );
  repeated = omega (
    arith,
    at.repeated,
    rep_count-append t.steps
        (record { kind = struct_step; optional = optional; child = i; rep_level = 0 }),
  );
}

into_repeated-At :
    (t : Trail) (k : StepKind) (optional : Bool) (inside elem : String) (i : ℕ) (path : List String)
    (name : String) (d r : ℕ)
    → is_repeated k ≡ true
    → At t path name d r
    → At
        (into_repeated t k optional inside elem i)
        ((path ++ (name ∷ [])) ++ (inside ∷ []))
        elem
        (d + ((if optional then 1 else 0) + 0) + (0 + 1))
        (r + 0 + 1)
into_repeated-At t k optional inside elem i path name d r e at =
    let st : PathStep = record {
      kind = k;
      optional = optional;
      child = i;
      rep_level = rep_count t.steps + 1;
    } in
    let one : ◌≡◌ {A = ℕ} (if is_repeated k then 1 else 0) 1 = rw e in
    record {
      named =
          ap (λ (ns : List String). ns ++ (inside ∷ elem ∷ [])) at.named
          ∙ sym (append_assoc (path ++ (name ∷ [])) (inside ∷ []) (elem ∷ []));
      defined = omega (arith, at.defined, def_count-append t.steps st, one);
      repeated = omega (arith, at.repeated, rep_count-append t.steps st, one);
    }

list_kind : (b : Bool) → is_repeated (if b then large_list_step else list_step) ≡ true
list_kind true = refl
list_kind false = refl

mutual
  unfolding flatten_node flatten_fields flatten_list flatten_map flatten_entries

  pub flatten_node-Grew :
      (s : ArrowSchema) (path : List String) (name : String) (optional : Bool) (t : Trail) (d r : ℕ)
      (out : Flat)
      → At t path name d r
      → IfOk (GrewOne path d r out) (flatten_node s name optional t out)
  flatten_node-Grew (schema h cs) path name optional t d r out at =
      elim (Bool-cases (is_format h.format "+s")) [
        | inl struct ↦
            rw (flatten_node, struct)
              (let g = group_node name optional (n_schemas cs) in
                IfOk-map
                  (Grew (n_schemas cs) (path ++ (name ∷ [])) (d + defines g) (r + repeats g)
                    (add_node g out))
                  (GrewOne path d r out) _
                  (flatten_fields-Grew cs 0 optional t path name d r (n_schemas cs) (add_node g out)
                    at)
                  (λ out' grew. under_group g (n_schemas cs) path d r out out' refl refl grew))
        | inr other ↦ elim (Bool-cases (is_format h.format "+l" || is_format h.format "+L")) [
          | inl list ↦
              rw (flatten_node, other, list)
                (flatten_list-Grew cs _ path name optional t d r out
                  (list_kind (is_format h.format "+L")) at)
          | inr no_list ↦ elim (Bool-cases (is_format h.format "+m")) [
            | inl map' ↦
                rw (flatten_node, other, no_list, map')
                  (flatten_map-Grew cs path name optional t d r out at)
            | inr leaf ↦
                rw (flatten_node, other, no_list, leaf)
                  (flatten_leaf-Grew h path name optional t d r out at)
          ]
        ]
      ]

  flatten_fields-Grew :
      (cs : Schemas) (i : ℕ) (optional : Bool) (t : Trail) (path : List String) (name : String)
      (d r n : ℕ) (out : Flat)
      → At t path name d r
      → let g = group_node name optional n in
        IfOk
          (Grew (n_schemas cs) (path ++ (name ∷ [])) (d + defines g) (r + repeats g) out)
          (flatten_fields cs i optional t out)
  flatten_fields-Grew (null_schemas zero) i optional t path name d r n out at =
      no_child (path ++ (name ∷ [])) _ _ out
  flatten_fields-Grew (null_schemas (suc k)) i optional t path name d r n out at = tt
  flatten_fields-Grew no_schemas i optional t path name d r n out at =
      no_child (path ++ (name ∷ [])) _ _ out
  flatten_fields-Grew (and_schema c cs) i optional t path name d r n out at =
      let g = group_node name optional n in
      let inside = path ++ (name ∷ []) in
      IfOk-bind (GrewOne inside (d + defines g) (r + repeats g) out)
        (Grew (suc (n_schemas cs)) inside (d + defines g) (r + repeats g) out)
        (flatten_node c _ _ (into_field t optional i c) out) (flatten_fields cs (i + 1) optional t)
        (flatten_node-Grew c inside _ _ (into_field t optional i c) _ _ out
          (into_field-At t optional i c n path name d r at))
        λ mid one.
          IfOk-map (Grew (n_schemas cs) inside (d + defines g) (r + repeats g) mid)
            (Grew (suc (n_schemas cs)) inside (d + defines g) (r + repeats g) out) _
            (flatten_fields-Grew cs (i + 1) optional t path name d r n mid at)
            λ out' many.
              next_child (n_schemas cs) inside (d + defines g) (r + repeats g) out mid out' one many

  flatten_list-Grew :
      (cs : Schemas) (k : StepKind) (path : List String) (name : String) (optional : Bool)
      (t : Trail) (d r : ℕ) (out : Flat)
      → is_repeated k ≡ true
      → At t path name d r
      → IfOk (GrewOne path d r out) (flatten_list cs k name optional t out)
  flatten_list-Grew (and_schema c no_schemas) k path name optional t d r out e at =
      let top = record (group_node name optional 1) { list_group = true } in
      let inner = repeated_group "list" 1 in
      let inside = (path ++ (name ∷ [])) ++ ("list" ∷ []) in
      IfOk-map
        (GrewOne inside (d + defines top + defines inner) (r + repeats top + repeats inner)
          (list_groups name optional out))
        (GrewOne path d r out) _
        (flatten_node-Grew c inside "element" _ _ _ _ _
          (into_repeated-At t k optional "list" "element" 0 path name d r e at))
        λ out' one. under_groups top inner 1 path d r out out' refl refl refl refl (
          one_child inside (d + defines top + defines inner) (r + repeats top + repeats inner)
            (list_groups name optional out) out' one)
  flatten_list-Grew (and_schema c (and_schema c' cs)) k path name optional t d r out e at = tt
  flatten_list-Grew (and_schema c (null_schemas n)) k path name optional t d r out e at = tt
  flatten_list-Grew no_schemas k path name optional t d r out e at = tt
  flatten_list-Grew (null_schemas n) k path name optional t d r out e at = tt

  flatten_map-Grew :
      (cs : Schemas) (path : List String) (name : String) (optional : Bool) (t : Trail) (d r : ℕ)
      (out : Flat)
      → At t path name d r
      → IfOk (GrewOne path d r out) (flatten_map cs name optional t out)
  flatten_map-Grew (and_schema c no_schemas) path name optional t d r out at =
      elim (Bool-cases (is_format (schema_head c).format "+s")) [
        | inl struct ↦
            rw (flatten_map, struct) (flatten_entries-Grew c path name optional t d r out at)
        | inr other ↦ rw (flatten_map, other) tt
      ]
  flatten_map-Grew (and_schema c (and_schema c' cs)) path name optional t d r out at = tt
  flatten_map-Grew (and_schema c (null_schemas n)) path name optional t d r out at = tt
  flatten_map-Grew no_schemas path name optional t d r out at = tt
  flatten_map-Grew (null_schemas n) path name optional t d r out at = tt

  flatten_entries-Grew :
      (s : ArrowSchema) (path : List String) (name : String) (optional : Bool) (t : Trail) (d r : ℕ)
      (out : Flat)
      → At t path name d r
      → IfOk (GrewOne path d r out) (flatten_entries s name optional t out)
  flatten_entries-Grew (schema h (and_schema k (and_schema v no_schemas))) path name optional t d r
        out at =
      let top = record (group_node name optional 1) { map_group = true } in
      let inner = repeated_group "key_value" 2 in
      let inside = (path ++ (name ∷ [])) ++ ("key_value" ∷ []) in
      let dd = d + defines top + defines inner in
      let rr = r + repeats top + repeats inner in
      let start = map_groups name optional out in
      IfOk-bind (GrewOne inside dd rr start) (GrewOne path d r out)
        (flatten_node k "key" false (into_repeated t map_step optional "key_value" "key" 0) start) _
        (flatten_node-Grew k inside "key" false _ _ _ start
          (into_repeated-At t map_step optional "key_value" "key" 0 path name d r refl at))
        λ mid key.
          IfOk-map (GrewOne inside dd rr mid) (GrewOne path d r out) _
            (flatten_node-Grew v inside "value" _ _ _ _ mid
              (into_repeated-At t map_step optional "key_value" "value" 1 path name d r refl at))
            λ out' val.
              under_groups top inner 2 path d r out out' refl refl refl refl
                (next_child 1 inside dd rr start mid out' key (one_child inside dd rr mid out' val))
  flatten_entries-Grew (schema h no_schemas) path name optional t d r out at =
      refused-Grew (n_schemas no_schemas == 2) name (GrewOne path d r out)
  flatten_entries-Grew (schema h (null_schemas n)) path name optional t d r out at =
      refused-Grew (n_schemas (null_schemas n) == 2) name (GrewOne path d r out)
  flatten_entries-Grew (schema h (and_schema k no_schemas)) path name optional t d r out at =
      refused-Grew (n_schemas (and_schema k no_schemas) == 2) name (GrewOne path d r out)
  flatten_entries-Grew (schema h (and_schema k (null_schemas n))) path name optional t d r out at =
      refused-Grew (n_schemas (and_schema k (null_schemas n)) == 2) name (GrewOne path d r out)
  flatten_entries-Grew (schema h (and_schema k (and_schema v (null_schemas n)))) path name optional
        t d r out at =
      refused-Grew (n_schemas (and_schema k (and_schema v (null_schemas n))) == 2) name
        (GrewOne path d r out)
  flatten_entries-Grew (schema h (and_schema k (and_schema v (and_schema w cs)))) path name optional
        t d r out at =
      refused-Grew (n_schemas (and_schema k (and_schema v (and_schema w cs))) == 2) name
        (GrewOne path d r out)
