-- ===== src/Shred/Refinement.antt =====
-- The shredder emits the places of the nested values that the Arrow arrays hold.
use nanoarrow2parquet.Common.{
  ℕ, zero, suc, ◌+◌, ◌-◌, ◌≡◌, refl, sym, ap, ◌∙◌, arith, Bool, true, false, not, ◌&&◌, ◌==◌, ltb,
  leb, List, [], ◌∷◌, ◌++◌, Option, none, some, String, Bool-cases, Option-cases, inl, inr,
  if◌then◌else◌,
}
use nanoarrow2parquet.Common.Int.{ℤ, pos, negsuc, is_positive}
use nanoarrow2parquet.Arrow.{ArrowArray, head, children, array_at, buffer}
use nanoarrow2parquet.Format.{Extract}
use nanoarrow2parquet.Schema.{
  PathStep, StepKind, struct_step, list_step, large_list_step, map_step, leaf_step,
}
use nanoarrow2parquet.Shred.{
  Shredded, emit, emit_value, each_entry, walk_entries, walk_list, list_child, visit, walk,
  is_present, offset_at, range_of, valid,
}
use nanoarrow2parquet.Shred.Nested.{
  Cell, Cells, missing, there, value, entries, end, entry, Slot, Stripe, stripe, stripe_step,
  stripe_kind, stripe_entries, stripe_more, Fits, FitsKind, AllEntries,
}
use nanoarrow2parquet.Result.Rules.{IfOk, IfOk-bind, IfOk-any, IfOk-map}
use nanoarrow2parquet.Result.{Result, ok, err, fail_if, unexpected_null}

-- The nested value that an array holds at a position, read from the arrays alone; none where they
-- have not the structure of the path.
abbrev pub Holds : Type 0
Holds = ArrowArray → ℕ → Option Cell

abbrev pub with_entry : Option Cell → Option Cells → Option Cells
with_entry none cs = none
with_entry (some c) none = none
with_entry (some c) (some cs) = some (entry c cs)

unfoldable pub cells_from : (ℕ → Option Cell) → ℕ → ℕ → Option Cells
cells_from f zero j = some end
cells_from f (suc n) j = with_entry (f j) (cells_from f n (j + 1))

abbrev pub span : ℤ → ℤ → Option (ℕ × ℕ)
span (pos s) (pos t) = if ltb t s then none else some (s, t - s)
span _ _ = none

abbrev pub list_array : PathStep → ArrowArray → Option ArrowArray
list_array st child = elim st.kind [
  | map_step ↦ array_at (children child) st.child
  | _ ↦ some child
]

abbrev pub as_list : Option Cells → Option Cell
as_list none = none
as_list (some cs) = some (entries cs)

abbrev pub in_array : Holds → Option ArrowArray → Option (ℕ × ℕ) → Option Cell
in_array rest none range = none
in_array rest (some c) none = none
in_array rest (some c) (some (s, n)) = as_list (cells_from (rest c) n s)

unfoldable pub list_cell : PathStep → Holds → Holds
list_cell st rest a e = elim (buffer (head a) 1) [
  | none ↦ none
  | some off ↦ elim (array_at (children a) 0) [
    | none ↦ none
    | some child ↦
        in_array rest (list_array st child)
          (span (offset_at st.kind off e) (offset_at st.kind off (e + 1)))
  ]
]

unfoldable pub kind_cell : PathStep → Holds → Holds
unfolding list_cell
kind_cell st rest a e = elim st.kind [
  | leaf_step ↦ some (value e)
  | struct_step ↦ elim (array_at (children a) st.child) [ none ↦ none | some c ↦ rest c e ]
  | _ ↦ list_cell st rest a e
]

abbrev pub as_there : Option Cell → Option Cell
as_there none = none
as_there (some c) = some (there c)

unfoldable pub cell_of : Extract → List PathStep → Holds
unfolding kind_cell
cell_of extract [] a e = none
cell_of extract (st ∷ sts) a e =
    if st.optional
    then (if is_present extract st a e
        then as_there (kind_cell st (cell_of extract sts) a e)
        else some missing)
    else kind_cell st (cell_of extract sts) a e

-- What the shredder keeps of a place.
abbrev pub record_slot : Slot → Shredded → Shredded
record_slot t out = elim t.held [
  | none ↦ emit t.rep t.def out
  | some p ↦ emit_value p t.rep t.def out
]

unfoldable pub record_all : List Slot → Shredded → Shredded
record_all [] out = out
record_all (t ∷ ts) out = record_all ts (record_slot t out)

pub record_all-append :
    (ts us : List Slot) (out : Shredded)
    → record_all (ts ++ us) out ≡ record_all us (record_all ts out)
unfolding record_all
record_all-append [] us out = refl
record_all-append (t ∷ ts) us out = record_all-append ts us (record_slot t out)

-- The state after a value is the one before with the value's places, and the value is the arrays'.
abbrev pub Emits : (Cell → Type 0) → Option Cell → (Cell → List Slot) → Shredded → Shredded → Type 0
Emits P held places out out' =
    (c : Cell) × (held ≡ some c) × P c × (out' ≡ record_all (places c) out)

abbrev pub EmitsAll :
    (Cell → Type 0) → Option Cells → (Cells → List Slot) → Shredded → Shredded → Type 0
EmitsAll P held places out out' =
    (cs : Cells) × (held ≡ some cs) × AllEntries P cs × (out' ≡ record_all (places cs) out)

abbrev pub Walk : Type 0
Walk = ArrowArray → ℕ → ℕ → ℕ → Shredded → Result Shredded

abbrev pub Refines : (Cell → Type 0) → Stripe → Holds → Walk → Type 0
Refines P S holds rest =
    (a : ArrowArray) (e r d : ℕ) (out : Shredded)
    → IfOk (Emits P (holds a e) (S r d) out) (rest a e r d out)

list_child-array :
    (name : String) (st : PathStep) (child : ArrowArray) (t : ℤ)
    → IfOk (λ c. list_array st child ≡ some c) (list_child name st child t)
unfolding list_child
list_child-array name st child t = ground arith

range_of-span : (s t : ℤ) (n x m : ℕ) → range_of s t n ≡ some (x, m) → span s t ≡ some (x, m)
range_of-span (pos s) (pos t) n x m h = ground arith
range_of-span (pos s) (negsuc t) n x m h = absurd (cc h)
range_of-span (negsuc s) (pos t) n x m h = absurd (cc h)
range_of-span (negsuc s) (negsuc t) n x m h = absurd (cc h)

abbrev pub path_step : StepKind → Bool → ℕ → ℕ → PathStep
path_step k o child rep = record { kind = k; optional = o; child = child; rep_level = rep }

-- The places of a list, as those of its entries.
module _ (rest : Walk) (holds : Holds) (S : Stripe) (P : Cell → Type 0)
    (refines : Refines P S holds rest) where
  abbrev EmitsList : PathStep → ArrowArray → Option (ℕ × ℕ) → ℕ → ℕ → Shredded → Shredded → Type 0
  EmitsList st c sp r d out =
      Emits (FitsKind list_step P) (in_array holds (some c) sp)
        (stripe_kind list_step S st.rep_level r d) out

  more_entries-Emits :
      (c : ArrowArray) (rep d n j : ℕ) (out : Shredded)
      → IfOk
          (EmitsAll P (cells_from (holds c) n j) (stripe_more S rep d) out)
          (each_entry (λ j' r out'. rest c j' r d out') n j rep rep out)
  unfolding each_entry cells_from stripe_more
  more_entries-Emits c rep d zero j out = (end, refl, tt, unfold record_all in refl)
  more_entries-Emits c rep d (suc n) j out =
      IfOk-bind (Emits P (holds c j) (S rep d) out)
        (EmitsAll P (cells_from (holds c) (suc n) j) (stripe_more S rep d) out) (rest c j rep d out)
        _ (refines c j rep d out)
        λ mid (x, held, fits, is).
          IfOk-map (EmitsAll P (cells_from (holds c) n (j + 1)) (stripe_more S rep d) mid)
            (EmitsAll P (cells_from (holds c) (suc n) j) (stripe_more S rep d) out) _
            (more_entries-Emits c rep d n (j + 1) mid)
            λ out' (xs, helds, fit, is'). (
              entry x xs,
              rw (held, helds),
              (fits, fit),
              is'
                  ∙ ap (record_all (stripe_more S rep d xs)) is
                  ∙ sym (record_all-append (S rep d x) (stripe_more S rep d xs) out),
            )

  all_entries-Emits :
      (c : ArrowArray) (rep r d n j : ℕ) (out : Shredded)
      → IfOk
          (EmitsAll P (cells_from (holds c) (suc n) j) (stripe_entries S rep r d) out)
          (each_entry (λ j' r' out'. rest c j' r' (d + 1) out') (suc n) j r rep out)
  unfolding each_entry cells_from stripe_entries
  all_entries-Emits c rep r d n j out =
      IfOk-bind (Emits P (holds c j) (S r (d + 1)) out)
        (EmitsAll P (cells_from (holds c) (suc n) j) (stripe_entries S rep r d) out)
        (rest c j r (d + 1) out) _ (refines c j r (d + 1) out)
        λ mid (x, held, fits, is).
          IfOk-map (EmitsAll P (cells_from (holds c) n (j + 1)) (stripe_more S rep (d + 1)) mid)
            (EmitsAll P (cells_from (holds c) (suc n) j) (stripe_entries S rep r d) out) _
            (more_entries-Emits c rep (d + 1) n (j + 1) mid)
            λ out' (xs, helds, fit, is'). (
              entry x xs,
              rw (held, helds),
              (fits, fit),
              is'
                  ∙ ap (record_all (stripe_more S rep (d + 1) xs)) is
                  ∙ sym (record_all-append (S r (d + 1) x) (stripe_more S rep (d + 1) xs) out),
            )

  walk_entries-Emits :
      (name : String) (st : PathStep) (c : ArrowArray) (range sp : Option (ℕ × ℕ)) (r d : ℕ)
      (out : Shredded)
      → ((x m : ℕ) → range ≡ some (x, m) → sp ≡ some (x, m))
      → IfOk (EmitsList st c sp r d out) (walk_entries rest name st c range r d out)
  unfolding walk_entries stripe_entries cells_from stripe_kind
  walk_entries-Emits name st c none sp r d out h = tt
  walk_entries-Emits name st c (some (x, zero)) sp r d out h =
      (entries end, rw (h x 0 refl), tt, unfold record_all in refl)
  walk_entries-Emits name st c (some (x, suc m)) sp r d out h =
      IfOk-map (EmitsAll P (cells_from (holds c) (suc m) x) (stripe_entries S st.rep_level r d) out)
        (EmitsList st c sp r d out) _ (all_entries-Emits c st.rep_level r d m x out)
        λ out' (xs, helds, fit, is). (entries xs, rw (h x (suc m) refl, helds), fit, is)

  walk_list-Emits :
      (name : String) (st : PathStep) (a : ArrowArray) (e r d : ℕ) (out : Shredded)
      → IfOk
          (Emits
            (FitsKind list_step P)
            (list_cell st holds a e)
            (stripe_kind list_step S st.rep_level r d)
            out)
          (walk_list rest name st a e r d out)
  unfolding walk_list list_cell stripe_kind
  walk_list-Emits name st a e r d out = elim (Bool-cases (ltb (head a).n_buffers 2)) [
    | inl few ↦ rw few tt
    | inr enough ↦ elim (Option-cases (buffer (head a) 1)) [
      | inl absent ↦ rw (enough, absent) tt
      | inr (off, found) ↦ elim (Option-cases (array_at (children a) 0)) [
        | inl no_child ↦ rw (enough, found, no_child) tt
        | inr (child, a_child) ↦
            rw (enough, list_cell, found, a_child)
              (let s = offset_at st.kind off e in
                let t = offset_at st.kind off (e + 1) in
                IfOk-bind (λ c. list_array st child ≡ some c)
                  (Emits (FitsKind list_step P) (in_array holds (list_array st child) (span s t))
                    (stripe_kind list_step S st.rep_level r d) out)
                  (list_child name st child t) _ (list_child-array name st child t)
                  (λ c is. rw is (
                    walk_entries-Emits name st c (range_of s t (head c).length) (span s t) r d out
                      (range_of-span s t (head c).length))))
      ]
    ]
  ]

  visit-Emits :
      (name : String) (k : StepKind) (o : Bool) (child rep : ℕ) (a : ArrowArray) (e r d : ℕ)
      (out : Shredded)
      → IfOk
          (Emits
            (FitsKind k P)
            (kind_cell (path_step k o child rep) holds a e)
            (stripe_kind k S rep r d)
            out)
          (visit rest name (path_step k o child rep) a e r d out)
  unfolding visit kind_cell stripe_kind record_all
  visit-Emits name leaf_step o child rep a e r d out = (value e, refl, tt, refl)
  visit-Emits name struct_step o child rep a e r d out =
      elim (Option-cases (array_at (children a) child)) [
        | inl absent ↦ rw (visit, absent) tt
        | inr (c, found) ↦ rw (visit, kind_cell, found) (refines c e r d out)
      ]
  visit-Emits name list_step o child rep a e r d out =
      walk_list-Emits name (path_step list_step o child rep) a e r d out
  visit-Emits name large_list_step o child rep a e r d out =
      walk_list-Emits name (path_step large_list_step o child rep) a e r d out
  visit-Emits name map_step o child rep a e r d out =
      walk_list-Emits name (path_step map_step o child rep) a e r d out

-- The body of `walk` behind its two guards.
walk_body :
    (name : String) (extract : Extract) (sts : List PathStep) (k : StepKind) (o : Bool)
    (child rep : ℕ)
    → Refines (Fits sts) (stripe sts) (cell_of extract sts) (walk name extract sts)
    → (a : ArrowArray) (e r d : ℕ) (out : Shredded)
    → let st = path_step k o child rep in
      IfOk (Emits (Fits (st ∷ sts)) (cell_of extract (st ∷ sts) a e) (stripe (st ∷ sts) r d) out) (
        if o
        then (if is_present extract st a e
            then visit (walk name extract sts) name st a e r (d + 1) out
            else ok (emit r d out))
        else (if is_positive (head a).null_count && not (valid (head a) e)
            then err (unexpected_null name)
            else visit (walk name extract sts) name st a e r d out))
unfolding cell_of stripe stripe_step record_all
walk_body name extract sts k true child rep ih a e r d out =
    let st = path_step k true child rep in
    elim (Bool-cases (is_present extract st a e)) [
      | inl here ↦
          rw (here, cell_of)
            (IfOk-map
              (Emits (FitsKind k (Fits sts)) (kind_cell st (cell_of extract sts) a e)
                (stripe_kind k (stripe sts) rep r (d + 1)) out)
              (Emits (Fits (st ∷ sts)) (as_there (kind_cell st (cell_of extract sts) a e))
                (stripe (st ∷ sts) r d) out)
              _
              (visit-Emits (walk name extract sts) (cell_of extract sts) (stripe sts) (Fits sts) ih
                name k true child rep a e r (d + 1) out)
              λ out' (c, held, fits, is). (there c, rw held, fits, is))
      | inr null ↦ rw (null, cell_of) (missing, refl, tt, refl)
    ]
walk_body name extract sts k false child rep ih a e r d out =
    elim (Bool-cases (is_positive (head a).null_count && not (valid (head a) e))) [
      | inl null ↦ rw null tt
      | inr here ↦ rw here (
          visit-Emits (walk name extract sts) (cell_of extract sts) (stripe sts) (Fits sts) ih name
            k false child rep a e r d out)
    ]

pub walk-Refines :
    (name : String) (extract : Extract) (sts : List PathStep)
    → Refines (Fits sts) (stripe sts) (cell_of extract sts) (walk name extract sts)
unfolding walk
walk-Refines name extract [] a e r d out = tt
walk-Refines name extract (st ∷ sts) a e r d out =
    let P = Emits (Fits (st ∷ sts)) (cell_of extract (st ∷ sts) a e) (stripe (st ∷ sts) r d) out in
    IfOk-any P (fail_if (not ((head a).offset == 0)) _) _ λ _.
      IfOk-any P (fail_if (leb (head a).length e) _) _ λ _.
        walk_body name extract sts st.kind st.optional st.child st.rep_level
          (walk-Refines name extract sts) a e r d out
