-- ===== src/Shred/Nested.antt =====
-- Nested values along the path of one leaf: the rows that a column's level streams stand for. This is
-- the view of a Parquet reader, and does not mention the arrays that src/writer.cpp shreds.
use nanoarrow2parquet.Common.{
  ℕ, zero, suc, ◌+◌, Bool, true, false, ◌==◌, leb, List, [], ◌∷◌, ◌++◌, length, Option, none, some,
  if◌then◌else◌,
}
use nanoarrow2parquet.Schema.{PathStep, StepKind, struct_step, leaf_step}

-- A null, a value that is not null, a leaf's value by its position, or the entries of a list or map.
mutual
  pub data Cell : Type 0 where
    missing : Cell
    there : Cell → Cell
    value : ℕ → Cell
    entries : Cells → Cell

  pub data Cells : Type 0 where
    end : Cells
    entry : Cell → Cells → Cells

-- The positions of the values in a nested value, in its order.
unfoldable mutual
  pub positions : Cell → List ℕ
  positions missing = []
  positions (there c) = positions c
  positions (value p) = p ∷ []
  positions (entries cs) = all_positions cs

  pub all_positions : Cells → List ℕ
  all_positions end = []
  all_positions (entry c cs) = positions c ++ all_positions cs

-- One place in the streams: its repetition and definition level, and its value if it has one.
pub record Slot : Type 0 where
  pub rep : ℕ
  pub def : ℕ
  pub held : Option ℕ

abbrev pub slot : ℕ → ℕ → Option ℕ → Slot
slot r d v = record { rep = r; def = d; held = v }

-- What the steps behind a step do.
abbrev pub Stripe : Type 0
Stripe = ℕ → ℕ → Cell → List Slot

-- Entries behind the first, at the list's repetition level.
unfoldable pub stripe_more : Stripe → ℕ → ℕ → Cells → List Slot
stripe_more rest rep d end = []
stripe_more rest rep d (entry c cs) = rest rep d c ++ stripe_more rest rep d cs

-- An empty list takes one place, at the level that the list itself has.
unfoldable pub stripe_entries : Stripe → ℕ → ℕ → ℕ → Cells → List Slot
unfolding stripe_more
stripe_entries rest rep r d end = slot r d none ∷ []
stripe_entries rest rep r d (entry c cs) = rest r (d + 1) c ++ stripe_more rest rep (d + 1) cs

unfoldable pub stripe_kind : StepKind → Stripe → ℕ → Stripe
unfolding stripe_entries
stripe_kind leaf_step rest rep r d (value p) = slot r d (some p) ∷ []
stripe_kind leaf_step rest rep r d _ = []
stripe_kind struct_step rest rep r d c = rest r d c
stripe_kind _ rest rep r d (entries cs) = stripe_entries rest rep r d cs
stripe_kind _ rest rep r d _ = []

unfoldable pub stripe_step : Bool → Stripe → Stripe
stripe_step false inner r d c = inner r d c
stripe_step true inner r d missing = slot r d none ∷ []
stripe_step true inner r d (there c) = inner r (d + 1) c
stripe_step true inner r d _ = []

-- The places that a value takes, the first at repetition level `r`.
unfoldable pub stripe : List PathStep → Stripe
unfolding stripe_kind stripe_step
stripe [] r d c = []
stripe (st ∷ sts) r d c =
    stripe_step st.optional (stripe_kind st.kind (stripe sts) st.rep_level) r d c

-- A value that a path can lead to.
abbrev pub AllEntries : (Cell → Type 0) → Cells → Type 0
AllEntries P end = Unit
AllEntries P (entry c cs) = P c × AllEntries P cs

abbrev pub FitsKind : StepKind → (Cell → Type 0) → Cell → Type 0
FitsKind leaf_step P (value p) = Unit
FitsKind leaf_step P _ = ⊥
FitsKind struct_step P c = P c
FitsKind _ P (entries cs) = AllEntries P cs
FitsKind _ P _ = ⊥

abbrev pub FitsStep : Bool → (Cell → Type 0) → Cell → Type 0
FitsStep false P c = P c
FitsStep true P missing = Unit
FitsStep true P (there c) = P c
FitsStep true P _ = ⊥

abbrev pub Fits : List PathStep → Cell → Type 0
Fits [] c = ⊥
Fits (st ∷ sts) c = FitsStep st.optional (FitsKind st.kind (Fits sts)) c

-- A reader takes one value off the front of the places.
abbrev pub Reader : Type 0
Reader = ℕ → List Slot → Option (Cell × List Slot)

abbrev pub and_entry : Cell → Option (Cells × List Slot) → Option (Cells × List Slot)
and_entry c none = none
and_entry c (some (cs, ts)) = some (entry c cs, ts)

-- The entries that repeat at the list's level; there are at most as many as there are places.
unfoldable pub read_more : Reader → ℕ → ℕ → ℕ → List Slot → Option (Cells × List Slot)
read_more rest rep d fuel [] = some (end, [])
read_more rest rep d zero (t ∷ ts) = if t.rep == rep then none else some (end, t ∷ ts)
read_more rest rep d (suc fuel) (t ∷ ts) = elim (t.rep == rep) [
  | false ↦ some (end, t ∷ ts)
  | true ↦ elim (rest d (t ∷ ts)) [
    | none ↦ none
    | some (c, ts') ↦ and_entry c (read_more rest rep d fuel ts')
  ]
]

abbrev pub as_entries : Option (Cells × List Slot) → Option (Cell × List Slot)
as_entries none = none
as_entries (some (cs, ts)) = some (entries cs, ts)

unfoldable pub read_entries : Reader → ℕ → ℕ → List Slot → Option (Cell × List Slot)
unfolding read_more
read_entries rest rep d [] = none
read_entries rest rep d (t ∷ ts) = elim (leb t.def d) [
  | true ↦ some (entries end, ts)
  | false ↦ elim (rest (d + 1) (t ∷ ts)) [
    | none ↦ none
    | some (c, ts') ↦ as_entries (and_entry c (read_more rest rep (d + 1) (length ts') ts'))
  ]
]

unfoldable pub read_value : List Slot → Option (Cell × List Slot)
read_value [] = none
read_value (t ∷ ts) = elim t.held [ none ↦ none | some p ↦ some (value p, ts) ]

unfoldable pub read_kind : StepKind → Reader → ℕ → Reader
unfolding read_value read_entries
read_kind leaf_step rest rep d ts = read_value ts
read_kind struct_step rest rep d ts = rest d ts
read_kind _ rest rep d ts = read_entries rest rep d ts

abbrev pub as_there : Option (Cell × List Slot) → Option (Cell × List Slot)
as_there none = none
as_there (some (c, ts)) = some (there c, ts)

unfoldable pub read_step : Bool → Reader → Reader
read_step false inner d ts = inner d ts
read_step true inner d [] = none
read_step true inner d (t ∷ ts) =
    if leb t.def d then some (missing, ts) else as_there (inner (d + 1) (t ∷ ts))

-- Record assembly along a path.
unfoldable pub assemble : List PathStep → Reader
unfolding read_kind read_step
assemble [] d ts = none
assemble (st ∷ sts) d ts =
    read_step st.optional (read_kind st.kind (assemble sts) st.rep_level) d ts
