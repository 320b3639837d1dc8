-- ===== src/Shred/Levels.antt =====
-- What the level streams of a shredded column say: as many repetition as definition levels, a zero
-- for each row, and the highest definition level for each value.
use nanoarrow2parquet.Common.{
  ℕ, zero, suc, ◌+◌, ◌≤◌, ◌<◌, ◌≡◌, refl, arith, not, ◌==◌, ◌&&◌, ltb, leb, List, [], ◌∷◌, ◌++◌,
  length, length-append, Option, none, some, All, All-append, String, if◌then◌else◌, Bool-cases,
  Option-cases, inl, inr,
}
use nanoarrow2parquet.Bytes.{Bytes}
use nanoarrow2parquet.Arrow.{ArrowArray, head, children, array_at, buffer}
use nanoarrow2parquet.Common.Int.{is_positive}
use nanoarrow2parquet.Format.{Extract}
use nanoarrow2parquet.Schema.{
  PathStep, StepKind, struct_step, list_step, large_list_step, map_step, leaf_step,
}
use nanoarrow2parquet.Shred.{
  Shredded, emit, emit_value, each_entry, walk_entries, walk_list, list_child, visit, walk,
  shred_rows, is_present, offset_at, valid,
}
use nanoarrow2parquet.Result.{Result, ok, err, crash, fail_if}
use nanoarrow2parquet.Result.Rules.{IfOk, IfOk-bind, IfOk-any}

abbrev pub count : ℕ → List ℕ → ℕ
count v [] = 0
count v (x ∷ xs) = (if x == v then 1 else 0) + count v xs

-- The levels that a step of a kind adds to those of the steps behind it; none is behind a leaf.
abbrev pub step_depth : StepKind → ℕ → ℕ
step_depth leaf_step n = 0
step_depth struct_step n = n
step_depth _ n = suc n

-- The definition levels that the steps of a path add.
abbrev pub depth : List PathStep → ℕ
depth [] = 0
depth (st ∷ sts) = (if st.optional then 1 else 0) + step_depth st.kind (depth sts)

-- Every step that is repeated repeats at a level above 0.
abbrev pub RepeatsAt : StepKind → ℕ → Type 0
RepeatsAt leaf_step level = Unit
RepeatsAt struct_step level = Unit
RepeatsAt _ level = 0 < level

abbrev pub Repeats : List PathStep → Type 0
Repeats [] = Unit
Repeats (st ∷ sts) = RepeatsAt st.kind st.rep_level × Repeats sts

-- What is emitted between two states: levels of both kinds in step, none above `top`, those equal to
-- `top` one for each value, and `rows` repetition levels 0.
pub record Emitted (top rows : ℕ) (out out' : Shredded) : Type 0 where
  pub in_step : length out'.rep + length out.def ≡ length out'.def + length out.rep
  pub started : count 0 out'.rep ≡ count 0 out.rep + rows
  pub bounded : All (λ d. d ≤ top) out.def → All (λ d. d ≤ top) out'.def
  pub values : count top out'.def + out.present_count ≡ count top out.def + out'.present_count

abbrev one_if_zero : ℕ → ℕ
one_if_zero r = if r == 0 then 1 else 0

count-append : (v : ℕ) (xs ys : List ℕ) → count v (xs ++ ys) ≡ count v xs + count v ys
count-append v [] ys = omega arith
count-append v (x ∷ xs) ys = omega (arith, count-append v xs ys)

Emitted-emit :
    (top r d : ℕ) (out : Shredded) → d < top → Emitted top (one_if_zero r) out (emit r d out)
Emitted-emit top r d out below = record {
  in_step = omega (arith, length-append out.rep (r ∷ []), length-append out.def (d ∷ []));
  started = omega (arith, count-append 0 out.rep (r ∷ []));
  bounded = λ h. All-append (λ d. d ≤ top) out.def (d ∷ []) h (omega arith, tt);
  values = ground (arith, count-append top out.def (d ∷ []));
}

Emitted-emit_value :
    (e r d : ℕ) (out : Shredded) → Emitted d (one_if_zero r) out (emit_value e r d out)
Emitted-emit_value e r d out = record {
  in_step = omega (arith, length-append out.rep (r ∷ []), length-append out.def (d ∷ []));
  started = omega (arith, count-append 0 out.rep (r ∷ []));
  bounded = λ h. All-append (λ x. x ≤ d) out.def (d ∷ []) h (omega arith, tt);
  values = ground (arith, count-append d out.def (d ∷ []));
}

Emitted-nothing : (top : ℕ) (out : Shredded) → Emitted top 0 out out
Emitted-nothing top out = record {
  in_step = omega arith;
  started = omega arith;
  bounded = λ h. h;
  values = refl;
}

Emitted-then :
    (top m n : ℕ) (a b c : Shredded)
    → Emitted top m a b
    → Emitted top n b c
    → Emitted top (m + n) a c
Emitted-then top m n a b c h k = record {
  in_step = omega (arith, h.in_step, k.in_step);
  started = omega (arith, h.started, k.started);
  bounded = λ x. k.bounded (h.bounded x);
  values = omega (arith, h.values, k.values);
}

IfOk-after :
    (top m n : ℕ) (out mid : Shredded) (x : Result Shredded)
    → Emitted top m out mid
    → IfOk (Emitted top n mid) x
    → IfOk (Emitted top (m + n) out) x
IfOk-after top m n out mid (ok a) h k = Emitted-then top m n out mid a h k
IfOk-after top m n out mid (err e) h k = tt
IfOk-after top m n out mid crash h k = tt

repeated : (rep : ℕ) → 0 < rep → one_if_zero rep + 0 ≡ 0
repeated rep above = ground arith

-- Entries behind the first repeat, and start no row.
each_entry-Emitted :
    (top : ℕ) (f : ℕ → ℕ → Shredded → Result Shredded)
    → ((j r : ℕ) (out : Shredded) → IfOk (Emitted top (one_if_zero r) out) (f j r out))
    → (n j rep : ℕ) (out : Shredded) → 0 < rep
    → IfOk (Emitted top 0 out) (each_entry f n j rep rep out)
unfolding each_entry
each_entry-Emitted top f h zero j rep out above = Emitted-nothing top out
each_entry-Emitted top f h (suc n) j rep out above =
    IfOk-bind (Emitted top (one_if_zero rep) out) (Emitted top 0 out) (f j rep out)
      (each_entry f n (j + 1) rep rep) (h j rep out)
      (λ mid k.
        let rest : IfOk (Emitted top (one_if_zero rep + 0) out)
            (each_entry f n (j + 1) rep rep mid) =
          IfOk-after top (one_if_zero rep) 0 out mid _ k
            (each_entry-Emitted top f h n (j + 1) rep mid above) in
        rw (repeated rep above) at rest)

-- The same for the entries of a list, the first of which may start a row.
all_entries-Emitted :
    (top : ℕ) (f : ℕ → ℕ → Shredded → Result Shredded)
    → ((j r : ℕ) (out : Shredded) → IfOk (Emitted top (one_if_zero r) out) (f j r out))
    → (n j r rep : ℕ) (out : Shredded) → 0 < rep
    → IfOk (Emitted top (one_if_zero r) out) (each_entry f (suc n) j r rep out)
unfolding each_entry
all_entries-Emitted top f h n j r rep out above =
    IfOk-bind (Emitted top (one_if_zero r) out) (Emitted top (one_if_zero r) out) (f j r out)
      (each_entry f n (j + 1) rep rep) (h j r out)
      (λ mid k.
        let rest : IfOk (Emitted top (one_if_zero r + 0) out) (each_entry f n (j + 1) rep rep mid) =
          IfOk-after top (one_if_zero r) 0 out mid _ k
            (each_entry-Emitted top f h n (j + 1) rep mid above) in
        let none_more : one_if_zero r + 0 ≡ one_if_zero r = omega arith in rw none_more at rest)

abbrev Walk : Type 0
Walk = ArrowArray → ℕ → ℕ → ℕ → Shredded → Result Shredded

-- What a walk over steps of depth `n` emits.
abbrev Walks : ℕ → Walk → Type 0
Walks n rest =
    (a : ArrowArray) (e r d : ℕ) (out : Shredded)
    → IfOk (Emitted (d + n) (one_if_zero r) out) (rest a e r d out)

module _ (rest : Walk) (n : ℕ) (walks : Walks n rest) where
  walk_entries-Emitted :
      (name : String) (st : PathStep) (c : ArrowArray) (range : Option (ℕ × ℕ)) (r d : ℕ)
      (out : Shredded)
      → 0 < st.rep_level
      → IfOk (Emitted (d + suc n) (one_if_zero r) out) (walk_entries rest name st c range r d out)
  unfolding walk_entries
  walk_entries-Emitted name st c none r d out above = tt
  walk_entries-Emitted name st c (some (s, zero)) r d out above =
      Emitted-emit (d + suc n) r d out (omega arith)
  walk_entries-Emitted name st c (some (s, suc m)) r d out above =
      all_entries-Emitted (d + suc n) (λ j r' out'. rest c j r' (d + 1) out')
        (λ j r' out'.
          let next : d + 1 + n ≡ d + suc n = omega arith in
          let h : IfOk (Emitted (d + 1 + n) (one_if_zero r') out') (rest c j r' (d + 1) out') =
            walks c j r' (d + 1) out' in
          rw next at h)
        m s r st.rep_level out above

  walk_list-Emitted :
      (name : String) (st : PathStep) (a : ArrowArray) (e r d : ℕ) (out : Shredded)
      → 0 < st.rep_level
      → IfOk (Emitted (d + suc n) (one_if_zero r) out) (walk_list rest name st a e r d out)
  unfolding walk_list
  walk_list-Emitted name st a e r d out above = elim (Bool-cases (ltb (head a).n_buffers 2)) [
    | inl few ↦ rw few tt
    | inr enough ↦ elim (Option-cases (buffer (head a) 1)) [
      | inl missing ↦ rw (enough, missing) tt
      | inr (off, found) ↦ elim (Option-cases (array_at (children a) 0)) [
        | inl no_child ↦ rw (enough, found, no_child) tt
        | inr (child, a_child) ↦
            rw (enough, found, a_child)
              (IfOk-any (Emitted (d + suc n) (one_if_zero r) out)
                (list_child name st child (offset_at st.kind off (e + 1))) _
                (λ c. walk_entries-Emitted name st c _ r d out above))
      ]
    ]
  ]

  visit-Emitted :
      (name : String) (st : PathStep) (a : ArrowArray) (e r d : ℕ) (out : Shredded) (k : StepKind)
      → st.kind ≡ k
      → RepeatsAt k st.rep_level
      → IfOk (Emitted (d + step_depth k n) (one_if_zero r) out) (visit rest name st a e r d out)
  unfolding visit
  visit-Emitted name st a e r d out struct_step same h =
      elim (Option-cases (array_at (children a) st.child)) [
        | inl missing ↦ rw (same, visit, missing) tt
        | inr (c, found) ↦ rw (same, visit, found) (walks c e r d out)
      ]
  visit-Emitted name st a e r d out list_step same h =
      rw same (walk_list-Emitted name (record st { kind = list_step }) a e r d out h)
  visit-Emitted name st a e r d out large_list_step same h =
      rw same (walk_list-Emitted name (record st { kind = large_list_step }) a e r d out h)
  visit-Emitted name st a e r d out map_step same h =
      rw same (walk_list-Emitted name (record st { kind = map_step }) a e r d out h)
  visit-Emitted name st a e r d out leaf_step same h =
      let base : d + 0 ≡ d = omega arith in rw (same, base) (Emitted-emit_value e r d out)

optional_depth : (d n : ℕ) → d + 1 + n ≡ d + (1 + n)
optional_depth d n = omega arith

walk-Emitted :
    (name : String) (extract : Extract) (sts : List PathStep)
    → Repeats sts
    → Walks (depth sts) (walk name extract sts)
unfolding walk
walk-Emitted name extract [] h a e r d out = tt
walk-Emitted name extract (st ∷ sts) h a e r d out =
    let seen =
      visit-Emitted (walk name extract sts) (depth sts) (walk-Emitted name extract sts h.1) in
    let P = Emitted (d + depth (st ∷ sts)) (one_if_zero r) out in
    IfOk-any P (fail_if (not ((head a).offset == 0)) _) _ (λ _.
      IfOk-any P (fail_if (leb (head a).length e) _) _ (λ _. elim (Bool-cases st.optional) [
        | inl optional ↦ elim (Bool-cases (is_present extract st a e)) [
          | inl there ↦
              rw (optional, there, ← optional_depth d (step_depth st.kind (depth sts)))
                (seen name st a e r (d + 1) out st.kind refl h.0)
          | inr null ↦
              rw (optional, null)
                (Emitted-emit (d + (1 + step_depth st.kind (depth sts))) r d out (omega arith))
        ]
        | inr required ↦
            let flat : 0 + step_depth st.kind (depth sts) ≡ step_depth st.kind (depth sts) =
              omega arith in
            elim (Bool-cases (is_positive (head a).null_count && not (valid (head a) e))) [
              | inl null ↦ rw (required, null) tt
              | inr there ↦ rw (required, there, flat) (seen name st a e r d out st.kind refl h.0)
            ]
      ]))

all_rows-Emitted :
    (name : String) (extract : Extract) (sts : List PathStep) (column : ArrowArray) (n e : ℕ)
    (out : Shredded)
    → Repeats sts
    → IfOk (Emitted (depth sts) n out) (shred_rows name extract sts column n e out)
unfolding shred_rows
all_rows-Emitted name extract sts column zero e out h = Emitted-nothing (depth sts) out
all_rows-Emitted name extract sts column (suc n) e out h =
    let flat : 0 + depth sts ≡ depth sts = omega arith in
    let one_more : 1 + n ≡ suc n = omega arith in
    IfOk-bind (Emitted (depth sts) 1 out) (Emitted (depth sts) (suc n) out)
      (walk name extract sts column e 0 0 out) (shred_rows name extract sts column n (e + 1))
      (rw flat at (walk-Emitted name extract sts h column e 0 0 out))
      (λ mid one. rw one_more at (
        IfOk-after (depth sts) 1 n out mid (shred_rows name extract sts column n (e + 1) mid) one
          (all_rows-Emitted name extract sts column n (e + 1) mid h)))

-- The levels that a leaf begins with: none, and no value.
abbrev pub nothing_shredded : Bytes → Shredded
nothing_shredded bm = record { rep = []; def = []; present = bm; present_count = 0 }

-- Shredding a column from its first row on, if it succeeds, emits as many repetition as definition
-- levels, exactly one repetition level 0 for each row, and no definition level above the path's
-- depth; that highest level stands as often as values are counted present. Each step of the path
-- that is a list or map must repeat at a level above 0.
pub shred_rows-Levels :
    (name : String) (extract : Extract) (sts : List PathStep) (column : ArrowArray) (n : ℕ)
    (bm : Bytes) (sh : Shredded)
    → Repeats sts
    → shred_rows name extract sts column n 0 (nothing_shredded bm) ≡ ok sh
    → (length sh.rep ≡ length sh.def)
      × (count 0 sh.rep ≡ n)
      × All (λ d. d ≤ depth sts) sh.def
      × (count (depth sts) sh.def ≡ sh.present_count)
shred_rows-Levels name extract sts column n bm sh h ran =
    let emitted : IfOk (Emitted (depth sts) n (nothing_shredded bm)) (ok sh) =
      rw ran at (all_rows-Emitted name extract sts column n 0 (nothing_shredded bm) h) in
    (
      omega (arith, emitted.in_step),
      omega (arith, emitted.started),
      emitted.bounded tt,
      omega (arith, emitted.values),
    )
