-- ===== src/Shred/Paths.antt =====
-- The paths that the flattening of a schema gives its leaves, as the shredding needs them.
use nanoarrow2parquet.Common.{
  ℕ, zero, suc, ◌+◌, ◌≡◌, refl, arith, Bool, true, false, String, List, [], ◌∷◌, ◌++◌, All,
  All-append, ltb, if◌then◌else◌, Bool-cases, inl, inr, ◌||◌, ◌==◌,
}
use nanoarrow2parquet.Arrow.{
  ArrowSchema, schema, Schemas, SchemaHead, schema_head, null_schemas, no_schemas, and_schema,
  n_schemas,
}
use nanoarrow2parquet.Format.{ColumnSpec, map_format}
use nanoarrow2parquet.Schema.{
  PathStep, StepKind, struct_step, list_step, large_list_step, map_step, leaf_step, LeafSpec, Trail,
  Flat, is_repeated, def_count, rep_count, make_leaf, flatten_leaf, flatten_node, flatten_fields,
  flatten_list, flatten_map, flatten_entries, flatten_schema, is_format, into_field, into_repeated,
  nullable_child, text_or_empty,
}
use nanoarrow2parquet.Shred.Assembly.{Deepens, DeepensKind}
use nanoarrow2parquet.Shred.Levels.{depth, step_depth, Repeats, RepeatsAt}
use nanoarrow2parquet.Result.Rules.{IfOk, IfOk-bind, IfOk-any}
use nanoarrow2parquet.Result.{ok, err, crash, map_entries_shape}

-- A step above a leaf is no leaf step, and the list and map steps repeat at levels 1, 2 and so on.
abbrev NumberedKind : StepKind → ℕ → ℕ → Type 0
NumberedKind leaf_step level k = ⊥
NumberedKind struct_step level k = Unit
NumberedKind _ level k = level ≡ suc k

abbrev Numbered : ℕ → List PathStep → Type 0
Numbered k [] = Unit
Numbered k (st ∷ sts) =
    NumberedKind st.kind st.rep_level k × Numbered (k + (if is_repeated st.kind then 1 else 0)) sts

-- A leaf's steps repeat at growing levels above 0, and a leaf that keeps them has their depth as its
-- maximum.
abbrev pub FitsPath : LeafSpec → Type 0
FitsPath l =
    Repeats l.steps × Deepens 0 l.steps × (l.has_list ≡ true → depth l.steps ≡ l.max_def_level)

Numbered-append :
    (k : ℕ) (sts : List PathStep) (st : PathStep)
    → Numbered k sts
    → NumberedKind st.kind st.rep_level (k + rep_count sts)
    → Numbered k (sts ++ (st ∷ []))
Numbered-append k [] st h last = let here : k + 0 ≡ k = omega arith in (rw here at last, tt)
Numbered-append k (s ∷ sts) st h last =
    let one = if is_repeated s.kind then 1 else 0 in
    let sum : k + (one + rep_count sts) ≡ k + one + rep_count sts = omega arith in
    (h.0, Numbered-append (k + one) sts st h.1 (rw sum at last))

inner_lem :
    (kind : StepKind) (level k n : ℕ) (P : ℕ → Type 0)
    → NumberedKind kind level k
    → P (k + (if is_repeated kind then 1 else 0))
    → RepeatsAt kind level
      × (step_depth kind n ≡ (if is_repeated kind then 1 else 0) + n)
      × DeepensKind kind level k P
inner_lem leaf_step level k n P h p = elim h [ ]
inner_lem struct_step level k n P h p =
    let same : k + 0 ≡ k = omega arith in (tt, omega arith, rw same at p)
inner_lem list_step level k n P h p =
    let next : k + 1 ≡ level = omega arith in
    (omega arith, omega arith, (omega arith, rw next at p))
inner_lem large_list_step level k n P h p =
    let next : k + 1 ≡ level = omega arith in
    (omega arith, omega arith, (omega arith, rw next at p))
inner_lem map_step level k n P h p =
    let next : k + 1 ≡ level = omega arith in
    (omega arith, omega arith, (omega arith, rw next at p))

with_leaf :
    (k : ℕ) (sts : List PathStep) (last : PathStep)
    → last.kind ≡ leaf_step
    → Numbered k sts
    → Repeats (sts ++ (last ∷ []))
      × Deepens k (sts ++ (last ∷ []))
      × (depth (sts ++ (last ∷ [])) ≡ def_count (sts ++ (last ∷ [])))
with_leaf k [] last e h = (rw e (tt, tt), rw e tt, rw e (omega arith))
with_leaf k (st ∷ sts) last e h =
    let (repeats, deepens, same) =
      with_leaf (k + (if is_repeated st.kind then 1 else 0)) sts last e h.1 in
    let (at, adds, deep) =
      inner_lem st.kind st.rep_level k (depth (sts ++ (last ∷ [])))
        (λ k'. Deepens k' (sts ++ (last ∷ []))) h.0 deepens in
    ((at, repeats), deep, omega (arith, adds, same))

make_leaf-FitsPath :
    (spec : ColumnSpec) (t : Trail) → Numbered 0 t.steps → FitsPath (make_leaf spec t)
unfolding make_leaf
make_leaf-FitsPath spec t h =
    let leaf : PathStep = record {
      kind = leaf_step;
      optional = spec.nullable;
      child = 0;
      rep_level = 0;
    } in
    let fits = with_leaf 0 t.steps leaf refl h in
    elim (Bool-cases (ltb 0 (rep_count (t.steps ++ (leaf ∷ []))))) [
      | inl nested ↦ rw nested (fits.0, fits.1, λ x. fits.2)
      | inr flat ↦ rw flat (tt, tt, λ x. absurd (ground arith))
    ]

abbrev AllFit : Flat → Type 0
AllFit out = All FitsPath out.leaves

flatten_leaf-AllFit :
    (h : SchemaHead) (name : String) (optional : Bool) (t : Trail) (out : Flat)
    → Numbered 0 t.steps
    → AllFit out
    → IfOk AllFit (flatten_leaf h name optional t out)
unfolding flatten_leaf
flatten_leaf-AllFit h name optional t out inner fit =
    IfOk-any AllFit (map_format h.format name optional) _ (λ spec.
      All-append FitsPath out.leaves (make_leaf spec t ∷ []) fit
        (make_leaf-FitsPath spec t inner, tt))

repeated-Numbered :
    (kind : StepKind) (k : ℕ) → is_repeated kind ≡ true → NumberedKind kind (k + 1) k
repeated-Numbered leaf_step k e = absurd (ground arith)
repeated-Numbered struct_step k e = tt
repeated-Numbered list_step k e = omega arith
repeated-Numbered large_list_step k e = omega arith
repeated-Numbered map_step k e = omega arith

list_kind : (b : Bool) → is_repeated (if b then large_list_step else list_step) ≡ true
list_kind true = refl
list_kind false = refl

into_repeated-Inner :
    (t : Trail) (k : StepKind) (optional : Bool) (group name : String) (i : ℕ)
    → is_repeated k ≡ true
    → Numbered 0 t.steps
    → Numbered 0 (into_repeated t k optional group name i).steps
into_repeated-Inner t k optional group name i e h =
    let level : 0 + rep_count t.steps ≡ rep_count t.steps = omega arith in
    Numbered-append 0 t.steps
      (record { kind = k; optional = optional; child = i; rep_level = rep_count t.steps + 1 }) h
      (rw level (repeated-Numbered k (rep_count t.steps) e))

refused-AllFit :
    (b : Bool) (name : String) → IfOk AllFit (if b then crash else err (map_entries_shape name))
refused-AllFit true name = tt
refused-AllFit false name = tt

mutual
  unfolding flatten_node flatten_fields flatten_list flatten_map flatten_entries

  flatten_node-AllFit :
      (s : ArrowSchema) (name : String) (optional : Bool) (t : Trail) (out : Flat)
      → Numbered 0 t.steps
      → AllFit out
      → IfOk AllFit (flatten_node s name optional t out)
  flatten_node-AllFit (schema h cs) name optional t out inner fit =
      elim (Bool-cases (is_format h.format "+s")) [
        | inl struct ↦ rw (flatten_node, struct) (flatten_fields-AllFit cs 0 optional t _ inner fit)
        | inr other ↦ elim (Bool-cases (is_format h.format "+l" || is_format h.format "+L")) [
          | inl list ↦
              rw (flatten_node, other, list)
                (flatten_list-AllFit cs _ name optional t out (list_kind (is_format h.format "+L"))
                  inner fit)
          | inr no_list ↦ elim (Bool-cases (is_format h.format "+m")) [
            | inl map ↦
                rw (flatten_node, other, no_list, map)
                  (flatten_map-AllFit cs name optional t out inner fit)
            | inr leaf ↦
                rw (flatten_node, other, no_list, leaf)
                  (flatten_leaf-AllFit h name optional t out inner fit)
          ]
        ]
      ]

  flatten_fields-AllFit :
      (cs : Schemas) (i : ℕ) (optional : Bool) (t : Trail) (out : Flat)
      → Numbered 0 t.steps
      → AllFit out
      → IfOk AllFit (flatten_fields cs i optional t out)
  flatten_fields-AllFit (null_schemas zero) i optional t out inner fit = fit
  flatten_fields-AllFit (null_schemas (suc n)) i optional t out inner fit = tt
  flatten_fields-AllFit no_schemas i optional t out inner fit = fit
  flatten_fields-AllFit (and_schema c cs) i optional t out inner fit =
      IfOk-bind AllFit AllFit (flatten_node c _ _ (into_field t optional i c) out) _
        (flatten_node-AllFit c _ _ (into_field t optional i c) out
          (Numbered-append 0 t.steps
            (record { kind = struct_step; optional = optional; child = i; rep_level = 0 }) inner tt)
          fit)
        (λ mid fit'. flatten_fields-AllFit cs (i + 1) optional t mid inner fit')

  flatten_list-AllFit :
      (cs : Schemas) (k : StepKind) (name : String) (optional : Bool) (t : Trail) (out : Flat)
      → is_repeated k ≡ true
      → Numbered 0 t.steps
      → AllFit out
      → IfOk AllFit (flatten_list cs k name optional t out)
  flatten_list-AllFit (and_schema c no_schemas) k name optional t out e inner fit =
      flatten_node-AllFit c "element" _ _ _
        (into_repeated-Inner t k optional "list" "element" 0 e inner) fit
  flatten_list-AllFit (and_schema c (and_schema d cs)) k name optional t out e inner fit = tt
  flatten_list-AllFit (and_schema c (null_schemas n)) k name optional t out e inner fit = tt
  flatten_list-AllFit no_schemas k name optional t out e inner fit = tt
  flatten_list-AllFit (null_schemas n) k name optional t out e inner fit = tt

  flatten_map-AllFit :
      (cs : Schemas) (name : String) (optional : Bool) (t : Trail) (out : Flat)
      → Numbered 0 t.steps
      → AllFit out
      → IfOk AllFit (flatten_map cs name optional t out)
  flatten_map-AllFit (and_schema c no_schemas) name optional t out inner fit =
      elim (Bool-cases (is_format (schema_head c).format "+s")) [
        | inl struct ↦
            rw (flatten_map, struct) (flatten_entries-AllFit c name optional t out inner fit)
        | inr other ↦ rw (flatten_map, other) tt
      ]
  flatten_map-AllFit (and_schema c (and_schema d cs)) name optional t out inner fit = tt
  flatten_map-AllFit (and_schema c (null_schemas n)) name optional t out inner fit = tt
  flatten_map-AllFit no_schemas name optional t out inner fit = tt
  flatten_map-AllFit (null_schemas n) name optional t out inner fit = tt

  flatten_entries-AllFit :
      (s : ArrowSchema) (name : String) (optional : Bool) (t : Trail) (out : Flat)
      → Numbered 0 t.steps
      → AllFit out
      → IfOk AllFit (flatten_entries s name optional t out)
  flatten_entries-AllFit (schema h (and_schema k (and_schema v no_schemas))) name optional t out
        inner fit =
      IfOk-bind AllFit AllFit
        (flatten_node k "key" false (into_repeated t map_step optional "key_value" "key" 0) _) _
        (flatten_node-AllFit k "key" false _ _
          (into_repeated-Inner t map_step optional "key_value" "key" 0 refl inner) fit)
        (λ mid fit'.
          flatten_node-AllFit v "value" _ _ mid
            (into_repeated-Inner t map_step optional "key_value" "value" 1 refl inner) fit')
  flatten_entries-AllFit (schema h no_schemas) name optional t out inner fit =
      refused-AllFit (n_schemas no_schemas == 2) name
  flatten_entries-AllFit (schema h (null_schemas n)) name optional t out inner fit =
      refused-AllFit (n_schemas (null_schemas n) == 2) name
  flatten_entries-AllFit (schema h (and_schema k no_schemas)) name optional t out inner fit =
      refused-AllFit (n_schemas (and_schema k no_schemas) == 2) name
  flatten_entries-AllFit (schema h (and_schema k (null_schemas n))) name optional t out inner fit =
      refused-AllFit (n_schemas (and_schema k (null_schemas n)) == 2) name
  flatten_entries-AllFit (schema h (and_schema k (and_schema v (null_schemas n)))) name optional t
        out inner fit =
      refused-AllFit (n_schemas (and_schema k (and_schema v (null_schemas n))) == 2) name
  flatten_entries-AllFit (schema h (and_schema k (and_schema v (and_schema w cs)))) name optional t
        out inner fit =
      refused-AllFit (n_schemas (and_schema k (and_schema v (and_schema w cs))) == 2) name

-- Every leaf that the flattening of a column adds fits the shredding: its steps repeat at growing
-- levels above 0, and where it stands under a list or map, the depth of its steps is its maximum definition
-- level. The leaves before must fit.
pub flatten_schema-FitsPath :
    (c : ArrowSchema) (i : ℕ) (out out' : Flat)
    → All FitsPath out.leaves
    → flatten_schema c i out ≡ ok out'
    → All FitsPath out'.leaves
unfolding flatten_schema
flatten_schema-FitsPath c i out out' fit e =
    let fits : IfOk AllFit (ok out') = rw e at (
      flatten_node-AllFit c (text_or_empty (schema_head c).name) (nullable_child c)
        (record {
          idx = i ∷ [];
          names = text_or_empty (schema_head c).name ∷ [];
          opt = nullable_child c ∷ [];
          steps = [];
        })
        out tt fit) in
    fits
