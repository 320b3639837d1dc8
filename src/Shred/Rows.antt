-- ===== src/Shred/Rows.antt =====
-- The streams of a shredded column determine its rows: a reader gets them from the two level
-- streams and the values alone.
use nanoarrow2parquet.Common.{
  ℕ, zero, suc, ◌+◌, ◌<◌, ◌≡◌, refl, sym, ap, ◌∙◌, arith, Bool, true, false, ◌==◌, List, [], ◌∷◌,
  ◌++◌, map, length, append_assoc, append-nil, All, All-append, Option, none, some, String,
  if◌then◌else◌,
}
use nanoarrow2parquet.Bytes.{Bytes}
use nanoarrow2parquet.Arrow.{ArrowArray}
use nanoarrow2parquet.Format.{Extract}
use nanoarrow2parquet.Schema.{
  PathStep, StepKind, struct_step, leaf_step, list_step, large_list_step, map_step,
}
use nanoarrow2parquet.Shred.{Shredded, emit, emit_value, shred_rows, walk}
use nanoarrow2parquet.Result.Rules.{IfOk, IfOk-bind, IfOk-map}
use nanoarrow2parquet.Shred.Levels.{depth, step_depth, nothing_shredded}
use nanoarrow2parquet.Shred.Nested.{
  Cell, Cells, missing, there, value, entries, end, entry, all_positions, Slot, slot, Stripe,
  stripe, stripe_step, stripe_kind, stripe_entries, stripe_more, assemble, read_more, Fits,
  FitsStep, FitsKind, AllEntries,
}
use nanoarrow2parquet.Shred.Values.{values_of, stripe_more-values, stripe-HoldsValues}
use nanoarrow2parquet.Shred.Present.{set_bits}
use nanoarrow2parquet.Shred.Assembly.{Deepens, rows_round_trip}
use nanoarrow2parquet.Shred.Refinement.{
  cell_of, cells_from, record_all, record_slot, record_all-append, Emits, EmitsAll, walk-Refines,
}
use nanoarrow2parquet.Result.{ok}

-- A reader finds a value at each place that has the highest definition level.
unfoldable pub pair_up : ℕ → List ℕ → List ℕ → List ℕ → List Slot
pair_up top [] ds ps = []
pair_up top (r ∷ rs) [] ps = []
pair_up top (r ∷ rs) (d ∷ ds) [] = slot r d none ∷ pair_up top rs ds []
pair_up top (r ∷ rs) (d ∷ ds) (p ∷ ps) = elim (d == top) [
  | true ↦ slot r d (some p) ∷ pair_up top rs ds ps
  | false ↦ slot r d none ∷ pair_up top rs ds (p ∷ ps)
]

-- The rows of a column, from its streams.
unfoldable pub read_rows : List PathStep → List ℕ → List ℕ → List ℕ → Option (Cells × List Slot)
unfolding pair_up
read_rows sts rs ds ps =
    let slots = pair_up (depth sts) rs ds ps in read_more (assemble sts) 0 0 (length slots) slots

abbrev MarkedAt : ℕ → ℕ → Option ℕ → Type 0
MarkedAt top d none = d < top
MarkedAt top d (some p) = d ≡ top

-- A place has a value just when its definition level is the highest.
abbrev Marked : ℕ → Slot → Type 0
Marked top t = MarkedAt top t.def t.held

abbrev Marks : (Cell → Type 0) → ℕ → Stripe → Type 0
Marks P n S = (r d : ℕ) (c : Cell) → P c → All (Marked (d + n)) (S r d c)

module _ (P : Cell → Type 0) (S : Stripe) (n : ℕ) (marks : Marks P n S) where
  stripe_more-Marked :
      (rep d : ℕ) (cs : Cells) → AllEntries P cs → All (Marked (d + n)) (stripe_more S rep d cs)
  unfolding stripe_more
  stripe_more-Marked rep d end fits = tt
  stripe_more-Marked rep d (entry c cs) fits =
      All-append (Marked (d + n)) (S rep d c) (stripe_more S rep d cs) (marks rep d c fits.0)
        (stripe_more-Marked rep d cs fits.1)

  stripe_entries-Marked :
      (rep r d : ℕ) (cs : Cells)
      → AllEntries P cs
      → All (Marked (d + suc n)) (stripe_entries S rep r d cs)
  unfolding stripe_entries
  stripe_entries-Marked rep r d end fits = (omega arith, tt)
  stripe_entries-Marked rep r d (entry c cs) fits =
      let next : d + 1 + n ≡ d + suc n = omega arith in
      All-append (Marked (d + suc n)) (S r (d + 1) c) (stripe_more S rep (d + 1) cs)
        (rw next at (marks r (d + 1) c fits.0))
        (rw next at (stripe_more-Marked rep (d + 1) cs fits.1))

  stripe_kind-Marks :
      (k : StepKind) (rep : ℕ) → Marks (FitsKind k P) (step_depth k n) (stripe_kind k S rep)
  unfolding stripe_kind
  stripe_kind-Marks leaf_step rep r d (value p) fits = (omega arith, tt)
  stripe_kind-Marks leaf_step rep r d _ fits = tt
  stripe_kind-Marks struct_step rep r d c fits = marks r d c fits
  stripe_kind-Marks list_step rep r d (entries cs) fits = stripe_entries-Marked rep r d cs fits
  stripe_kind-Marks list_step rep r d _ fits = tt
  stripe_kind-Marks large_list_step rep r d (entries cs) fits =
      stripe_entries-Marked rep r d cs fits
  stripe_kind-Marks large_list_step rep r d _ fits = tt
  stripe_kind-Marks map_step rep r d (entries cs) fits = stripe_entries-Marked rep r d cs fits
  stripe_kind-Marks map_step rep r d _ fits = tt

  stripe_step-Marks : (o : Bool) → Marks (FitsStep o P) ((if o then 1 else 0) + n) (stripe_step o S)
  unfolding stripe_step
  stripe_step-Marks false r d c fits =
      let flat : 0 + n ≡ n = omega arith in rw flat (marks r d c fits)
  stripe_step-Marks true r d missing fits = (omega arith, tt)
  stripe_step-Marks true r d (there c) fits =
      let next : d + 1 + n ≡ d + (1 + n) = omega arith in rw next at (marks r (d + 1) c fits)
  stripe_step-Marks true r d (value p) fits = tt
  stripe_step-Marks true r d (entries cs) fits = tt

stripe-Marks : (sts : List PathStep) → Marks (Fits sts) (depth sts) (stripe sts)
unfolding stripe
stripe-Marks [] r d c fits = tt
stripe-Marks (st ∷ sts) r d c fits =
    stripe_step-Marks (FitsKind st.kind (Fits sts)) (stripe_kind st.kind (stripe sts) st.rep_level)
      (step_depth st.kind (depth sts))
      (stripe_kind-Marks (Fits sts) (stripe sts) (depth sts) (stripe-Marks sts) st.kind
        st.rep_level)
      st.optional r d c fits

pair_up_null :
    (top r d : ℕ) (rs ds ps : List ℕ)
    → d < top
    → pair_up top (r ∷ rs) (d ∷ ds) ps ≡ slot r d none ∷ pair_up top rs ds ps
unfolding pair_up
pair_up_null top r d rs ds [] h = refl
pair_up_null top r d rs ds (p ∷ ps) h =
    let other : (d == top) ≡ false = ground arith in rw (pair_up, other)

pair_up_value :
    (top r d p : ℕ) (rs ds ps : List ℕ)
    → d ≡ top
    → pair_up top (r ∷ rs) (d ∷ ds) (p ∷ ps) ≡ slot r d (some p) ∷ pair_up top rs ds ps
unfolding pair_up
pair_up_value top r d p rs ds ps h = let hit : (d == top) ≡ true = ground arith in rw (pair_up, hit)

abbrev reps : List Slot → List ℕ
reps = map (λ t. t.rep)

abbrev defs : List Slot → List ℕ
defs = map (λ t. t.def)

-- The places come back from their levels and values.
pair_up-slots :
    (top : ℕ) (ts : List Slot)
    → All (Marked top) ts
    → pair_up top (reps ts) (defs ts) (values_of ts) ≡ ts
unfolding pair_up
pair_up-slots top [] h = refl
pair_up-slots top (t ∷ ts) (h, hs) = front t.rep t.def t.held (pair_up-slots top ts hs) h
  where
    front :
        (r d : ℕ) (v : Option ℕ)
        → pair_up top (reps ts) (defs ts) (values_of ts) ≡ ts
        → MarkedAt top d v
        → pair_up top (r ∷ reps ts) (d ∷ defs ts) (values_of (slot r d v ∷ ts)) ≡ slot r d v ∷ ts
    front r d none ih below =
        pair_up_null top r d (reps ts) (defs ts) (values_of ts) below
        ∙ ap (λ (us : List Slot). slot r d none ∷ us) ih
    front r d (some p) ih same =
        pair_up_value top r d p (reps ts) (defs ts) (values_of ts) same
        ∙ ap (λ (us : List Slot). slot r d (some p) ∷ us) ih

abbrev Streams : List Slot → Shredded → Shredded → Type 0
Streams ts out out' =
    (out'.rep ≡ out.rep ++ reps ts)
    × (out'.def ≡ out.def ++ defs ts)
    × (out'.present ≡ set_bits (values_of ts) out.present)
    × (out'.present_count ≡ out.present_count + length (values_of ts))

record_all-Streams : (ts : List Slot) (out : Shredded) → Streams ts out (record_all ts out)
unfolding record_all
record_all-Streams [] out = (sym (append-nil out.rep), sym (append-nil out.def), refl, omega arith)
record_all-Streams (t ∷ ts) out = front t.rep t.def t.held (record_all-Streams ts)
  where
    front :
        (r d : ℕ) (v : Option ℕ)
        → ((out' : Shredded) → Streams ts out' (record_all ts out'))
        → Streams (slot r d v ∷ ts) out (record_all ts (record_slot (slot r d v) out))
    front r d none ih =
        let (a, b, c, e) = ih (emit r d out) in
        (
          a ∙ append_assoc out.rep (r ∷ []) (reps ts),
          b ∙ append_assoc out.def (d ∷ []) (defs ts),
          c,
          e,
        )
    front r d (some p) ih =
        let (a, b, c, e) = ih (emit_value p r d out) in
        (
          a ∙ append_assoc out.rep (r ∷ []) (reps ts),
          b ∙ append_assoc out.def (d ∷ []) (defs ts),
          c,
          omega (arith, e),
        )

rows-EmitsAll :
    (name : String) (extract : Extract) (sts : List PathStep) (column : ArrowArray) (n e : ℕ)
    (out : Shredded)
    → IfOk
        (EmitsAll
          (Fits sts)
          (cells_from (cell_of extract sts column) n e)
          (stripe_more (stripe sts) 0 0)
          out)
        (shred_rows name extract sts column n e out)
unfolding shred_rows cells_from stripe_more
rows-EmitsAll name extract sts column zero e out = (end, refl, tt, unfold record_all in refl)
rows-EmitsAll name extract sts column (suc n) e out =
    IfOk-bind (Emits (Fits sts) (cell_of extract sts column e) (stripe sts 0 0) out)
      (EmitsAll (Fits sts) (cells_from (cell_of extract sts column) (suc n) e)
        (stripe_more (stripe sts) 0 0) out)
      (walk name extract sts column e 0 0 out) (shred_rows name extract sts column n (e + 1))
      (walk-Refines name extract sts column e 0 0 out)
      λ mid (x, held, fits, is).
        IfOk-map
          (EmitsAll (Fits sts) (cells_from (cell_of extract sts column) n (e + 1))
            (stripe_more (stripe sts) 0 0) mid)
          (EmitsAll (Fits sts) (cells_from (cell_of extract sts column) (suc n) e)
            (stripe_more (stripe sts) 0 0) out)
          _ (rows-EmitsAll name extract sts column n (e + 1) mid)
          λ out' (xs, helds, fit, is'). (
            entry x xs,
            rw (held, helds),
            (fits, fit),
            is'
                ∙ ap (record_all (stripe_more (stripe sts) 0 0 xs)) is
                ∙ sym (record_all-append (stripe sts 0 0 x) (stripe_more (stripe sts) 0 0 xs) out),
          )

-- What a shredded column keeps of the rows that the arrays hold: all of them. A reader gets exactly
-- the nested rows from the two level streams and the positions of the values in them; these are set
-- in the presence bitmap and counted.
abbrev pub KeepsRows : Extract → List PathStep → ArrowArray → ℕ → Bytes → Shredded → Type 0
KeepsRows extract sts column n bm sh =
    (rows : Cells) × (cells_from (cell_of extract sts column) n 0 ≡ some rows)
    × (read_rows sts sh.rep sh.def (all_positions rows) ≡ some (rows, []))
    × (sh.present ≡ set_bits (all_positions rows) bm)
    × (sh.present_count ≡ length (all_positions rows))

-- Shredding loses nothing: if it succeeds, the arrays hold a nested value for every row, and record
-- assembly on the repetition levels, the definition levels and the positions of the values in the
-- rows, in the order of the rows, gives back these rows and nothing else; the presence bitmap has
-- the bits of these positions added, and the count is their number. The path's repetition levels
-- must grow from step to step.
pub shred_rows-KeepsRows :
    (name : String) (extract : Extract) (sts : List PathStep) (column : ArrowArray) (n : ℕ)
    (bm : Bytes) (sh : Shredded)
    → Deepens 0 sts
    → shred_rows name extract sts column n 0 (nothing_shredded bm) ≡ ok sh
    → KeepsRows extract sts column n bm sh
unfolding read_rows
shred_rows-KeepsRows name extract sts column n bm sh deep ran =
    let S = stripe sts in
    let emitted : EmitsAll (Fits sts) (cells_from (cell_of extract sts column) n 0)
        (stripe_more S 0 0) (nothing_shredded bm) sh =
      kept (rw ran at (rows-EmitsAll name extract sts column n 0 (nothing_shredded bm))) in
    let rows = emitted.0 in
    let slots = stripe_more S 0 0 rows in
    let streams : Streams slots (nothing_shredded bm) sh =
      rw emitted.3 (record_all-Streams slots (nothing_shredded bm)) in
    let marked =
      stripe_more-Marked (Fits sts) S (depth sts) (stripe-Marks sts) 0 0 rows emitted.2 in
    let flat : 0 + depth sts ≡ depth sts = omega arith in
    let in_order : values_of slots ≡ all_positions rows =
      stripe_more-values (Fits sts) S (stripe-HoldsValues sts) 0 0 rows emitted.2 in
    let slots_back : pair_up (depth sts) sh.rep sh.def (values_of slots) ≡ slots =
      rw (streams.0, streams.1) (pair_up-slots (depth sts) slots (rw flat at marked)) in
    (
      rows,
      emitted.1,
      rw (← in_order, slots_back) (rows_round_trip sts rows deep emitted.2),
      streams.2 ∙ ap (λ (ps : List ℕ). set_bits ps bm) in_order,
      omega (arith, streams.3) ∙ ap (λ (ps : List ℕ). length ps) in_order,
    )
  where
    kept :
        IfOk
          (EmitsAll
            (Fits sts)
            (cells_from (cell_of extract sts column) n 0)
            (stripe_more (stripe sts) 0 0)
            (nothing_shredded bm))
          (ok sh)
        → EmitsAll
            (Fits sts)
            (cells_from (cell_of extract sts column) n 0)
            (stripe_more (stripe sts) 0 0)
            (nothing_shredded bm)
            sh
    kept h = h
