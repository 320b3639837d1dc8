-- ===== src/Writer/FlatLevels.antt =====
-- The levels of a leaf outside lists (`write_one_batch` of src/writer.cpp): the row loop against a
-- description of one row.
use nanoarrow2parquet.Common.{
  ℕ, zero, suc, ◌+◌, ◌-◌, ◌*◌, ◌≤◌, ◌<◌, ◌≡◌, refl, sym, ap, ◌∙◌, arith, Bool, true, false, ◌&&◌,
  ◌||◌, ◌==◌, ltb, leb, List, [], ◌∷◌, ◌++◌, append_assoc, append-nil, All, length, Option, none,
  some, Bool-cases, inl, inr, if◌then◌else◌, is_empty,
}
use native.Mathlib.Decide.{ℕ_discrete}
use nanoarrow2parquet.Bytes.{Bytes}
use nanoarrow2parquet.Bitmap.{bit_at, valid_bit}
use nanoarrow2parquet.Bitmap.Laws.{
  IsByte, set_bit-IsByte, length-set_bit, bit_at-set_bit, zero_bitmap-IsByte, length-zero_bitmap,
  bit_at-zero_bitmap,
}
use nanoarrow2parquet.Arrow.{ArrayHead, ArrowArray, head, buffer}
use nanoarrow2parquet.Schema.{LeafSpec}
use nanoarrow2parquet.Pages.{encode_definition_levels, encode_definition_levels_bitmap}
use nanoarrow2parquet.External.{External}
use nanoarrow2parquet.Result.{Result, ok, err, crash, and_then}
use nanoarrow2parquet.Writer.Columns.{is_null_type}
use nanoarrow2parquet.Writer.Batch.{
  Levels, first_buffer, encode_levels, row_level, add_row, row_levels, no_levels, leaf_levels,
  validity_of,
}

-- Whether an array's element is present, by the Arrow format: no buffers, or no validity bitmap, or a
-- bit that is set for the element behind the array's offset.
abbrev pub element_present : ArrayHead → ℕ → Bool
element_present h i =
    if h.n_buffers == 0
    then true
    else elim (buffer h 0) [ none ↦ true | some bits ↦ bit_at bits (h.offset + i) ]

-- Whether each OPTIONAL node of a path is present at row `i`, from the column down; no element of an
-- array of the null type is.
abbrev pub node_bits : Bool → List ArrowArray → List Bool → ℕ → List Bool
node_bits null_leaf [] flags i = []
node_bits null_leaf (a ∷ as') [] i = []
node_bits null_leaf (a ∷ as') (false ∷ flags) i = node_bits null_leaf as' flags i
node_bits null_leaf (a ∷ as') (true ∷ flags) i =
    (if is_empty as' && null_leaf then false else element_present (head a) i)
    ∷ node_bits null_leaf as' flags i

-- No array of the path is a slice.
abbrev pub Unsliced : List ArrowArray → Type 0
Unsliced as' = All (λ a. (head a).offset ≡ 0) as'

-- The present nodes before the first null.
abbrev pub leading : List Bool → ℕ
leading [] = 0
leading (b ∷ bs) = if b then suc (leading bs) else 0

abbrev pub all_true : List Bool → Bool
all_true [] = true
all_true (b ∷ bs) = b && all_true bs

first_buffer_lem :
    (h : ArrayHead) (i : ℕ) (val : Option Bytes)
    → h.offset ≡ 0
    → first_buffer h ≡ some val
    → valid_bit val i ≡ element_present h i
unfolding valid_bit
first_buffer_lem h i val whole read = ground (arith, whole, read)

row_level_lem :
    (null_leaf : Bool) (as' : List ArrowArray) (flags : List Bool) (i d : ℕ) (r : ℕ × Bool)
    → Unsliced as'
    → row_level null_leaf as' flags i d ≡ some r
    → let bits = node_bits null_leaf as' flags i in r ≡ (d + leading bits, all_true bits)
unfolding row_level
row_level_lem null_leaf [] flags i d r whole ran = ground arith
row_level_lem null_leaf (a ∷ as') [] i d r whole ran = ground arith
row_level_lem null_leaf (a ∷ as') (false ∷ flags) i d r whole ran =
    row_level_lem null_leaf as' flags i d r whole.1 ran
row_level_lem null_leaf (a ∷ as') (true ∷ flags) i d r whole ran =
    read (first_buffer (head a)) refl ran
      (λ k. row_level_lem null_leaf as' flags i (d + 1) r whole.1 k)
  where
    here : Bool
    here = if is_empty as' && null_leaf then false else element_present (head a) i

    rest : List Bool
    rest = node_bits null_leaf as' flags i

    Is : Bool → Type 0
    Is b = r ≡ (d + (if b then suc (leading rest) else 0), b && all_true rest)

    after :
        (b : Bool)
        → ◌≡◌ {A = Option (ℕ × Bool)}
            (elim b [ true ↦ row_level null_leaf as' flags i (d + 1) | false ↦ some (d, false) ])
            (some r)
        → (row_level null_leaf as' flags i (d + 1) ≡ some r
            → r ≡ (d + 1 + leading rest, all_true rest))
        → Is b
    after true k ih =
        let more : d + 1 + leading rest ≡ d + suc (leading rest) = omega arith in
        ih k ∙ ap (λ (m : ℕ). (m, all_true rest)) more
    after false k ih = let none_more : d + 0 ≡ d = omega arith in rw none_more (ground arith)

    read :
        (x : Option (Option Bytes))
        → first_buffer (head a) ≡ x
        → ◌≡◌ {A = Option (ℕ × Bool)}
            (elim x [
              | none ↦ none
              | some val ↦ elim (if is_empty as' && null_leaf then false else valid_bit val i) [
                | true ↦ row_level null_leaf as' flags i (d + 1)
                | false ↦ some (d, false)
              ]
            ])
            (some r)
        → (row_level null_leaf as' flags i (d + 1) ≡ some r
            → r ≡ (d + 1 + leading rest, all_true rest))
        → Is here
    read none is k ih = absurd (ground arith)
    read (some val) is k ih =
        let same : valid_bit val i ≡ element_present (head a) i =
          first_buffer_lem (head a) i val whole.0 is in
        rw (← same) (after (if is_empty as' && null_leaf then false else valid_bit val i) k ih)

-- What one row adds, if its level is `d` and its value is present just when `p` holds.
abbrev AddsRow : ℕ → ℕ → ℕ → Bool → Levels → Levels → Type 0
AddsRow max i d p ls out =
    All IsByte out.present_map
    × (length out.present_map ≡ length ls.present_map)
    × (out.def ≡ (if ltb 1 max then ls.def ++ (d ∷ []) else ls.def))
    × ((j : ℕ) → bit_at out.present_map j ≡ (bit_at ls.present_map j || (i == j && p)))
    × (out.present_count ≡ ls.present_count + (if p then 1 else 0))

add_row-AddsRow :
    (max i d : ℕ) (a p : Bool) (ls : Levels)
    → (a && d == max) ≡ p
    → All IsByte ls.present_map
    → i < 8 * length ls.present_map
    → AddsRow max i d p ls (add_row max i (d, a) ls)
unfolding add_row
add_row-AddsRow max i d a true ls e bytes inside = rw e (
  set_bit-IsByte ls.present_map i bytes,
  length-set_bit ls.present_map i,
  refl,
  (λ j. bit_at-set_bit ls.present_map i j bytes inside ∙ ground arith),
  refl,
)
add_row-AddsRow max i d a false ls e bytes inside =
    rw e (bytes, refl, refl, (λ j. ground arith), omega arith)

keep_def : (b : Bool) (xs : List ℕ) → xs ≡ (if b then xs ++ [] else xs)
keep_def true xs = sym (append-nil xs)
keep_def false xs = refl

join_def :
    (b : Bool) (xs ys : List ℕ) (x : ℕ)
    → let mid = (if b then xs ++ (x ∷ []) else xs) in
      (if b then mid ++ ys else mid) ≡ (if b then xs ++ (x ∷ ys) else xs)
join_def true xs ys x = append_assoc xs (x ∷ []) ys
join_def false xs ys x = refl

-- A row's bit, and the bits of the rows behind it, are the bits of all of them.
join_bits :
    (was : Bool) (i n j : ℕ) (present : ℕ → Bool)
    → ((was || (i == j && present i)) || (leb (i + 1) j && ltb j (i + 1 + n) && present j))
      ≡ (was || (leb i j && ltb j (i + suc n) && present j))
join_bits was i n j present = elim (ℕ_discrete i j) [
  | yes same ↦ rw same (ground arith)
  | no other ↦ ground arith
]

module _ (null_leaf : Bool) (as' : List ArrowArray) (flags : List Bool) (max : ℕ) where
  -- The level of a row, and whether its value is present.
  abbrev pub level_at : ℕ → ℕ
  level_at i = leading (node_bits null_leaf as' flags i)

  abbrev pub present_at : ℕ → Bool
  present_at i = all_true (node_bits null_leaf as' flags i) && level_at i == max

  abbrev pub levels_from : ℕ → ℕ → List ℕ
  levels_from zero i = []
  levels_from (suc n) i = level_at i ∷ levels_from n (i + 1)

  abbrev pub present_from : ℕ → ℕ → ℕ
  present_from zero i = 0
  present_from (suc n) i = (if present_at i then 1 else 0) + present_from n (i + 1)

  -- What the loop over the rows from `i` on adds to what it has.
  record Loops (n i : ℕ) (ls out : Levels) : Type 0 where
    def : out.def ≡ (if ltb 1 max then ls.def ++ levels_from n i else ls.def)
    bits :
        (j : ℕ)
        → bit_at out.present_map j
          ≡ (bit_at ls.present_map j || (leb i j && ltb j (i + n) && present_at j))
    counted : out.present_count ≡ ls.present_count + present_from n i

  row_lem :
      (i : ℕ) (r : ℕ × Bool)
      → Unsliced as'
      → row_level null_leaf as' flags i 0 ≡ some r
      → r ≡ (level_at i, all_true (node_bits null_leaf as' flags i))
  row_lem i r whole ran =
      let start : 0 + level_at i ≡ level_at i = omega arith in
      let is = row_level_lem null_leaf as' flags i 0 r whole ran in rw start at is

  row_levels-Loops :
      (n i : ℕ) (ls out : Levels)
      → Unsliced as'
      → All IsByte ls.present_map
      → i + n ≤ 8 * length ls.present_map
      → row_levels null_leaf as' flags max n i ls ≡ some out
      → Loops n i ls out
  unfolding row_levels
  row_levels-Loops zero i ls out whole bytes inside ran =
      let same : ls ≡ out = cc ran in
      rw (← same) (record {
        def = keep_def (ltb 1 max) ls.def;
        bits = λ j. ground arith;
        counted = omega arith;
      })
  row_levels-Loops (suc n) i ls out whole bytes inside ran =
      first (row_level null_leaf as' flags i 0) refl ran
        (λ mid b k e. row_levels-Loops n (i + 1) mid out whole b k e)
    where
      first :
          (x : Option (ℕ × Bool))
          → row_level null_leaf as' flags i 0 ≡ x
          → ◌≡◌ {A = Option Levels}
              (elim x [
                | none ↦ none
                | some r ↦ row_levels null_leaf as' flags max n (i + 1) (add_row max i r ls)
              ])
              (some out)
          → ((mid : Levels)
              → All IsByte mid.present_map
              → i + 1 + n ≤ 8 * length mid.present_map
              → row_levels null_leaf as' flags max n (i + 1) mid ≡ some out
              → Loops n (i + 1) mid out)
          → Loops (suc n) i ls out
      first none is ran' ih = absurd (ground arith)
      first (some r) is ran' ih =
          let mid = add_row max i r ls in
          let one : AddsRow max i (level_at i) (present_at i) ls mid = rw (row_lem i r whole is) (
            add_row-AddsRow max i (level_at i) (all_true (node_bits null_leaf as' flags i))
              (present_at i) ls refl bytes (omega arith)) in
          let rest = ih mid one.0 (omega (arith, one.1)) ran' in
          record {
            def =
                rest.def
                ∙ ap (λ (ds : List ℕ). if ltb 1 max then ds ++ levels_from n (i + 1) else ds) one.2
                ∙ join_def (ltb 1 max) ls.def (levels_from n (i + 1)) (level_at i);
            bits = λ j.
                rest.bits j
                ∙ ap (λ (b : Bool). b || (leb (i + 1) j && ltb j (i + 1 + n) && present_at j))
                    (one.3 j)
                ∙ join_bits (bit_at ls.present_map j) i n j present_at;
            counted = omega (arith, rest.counted, one.4);
          }

  present_from-le : (n i : ℕ) → present_from n i ≤ n
  present_from-le zero i = omega arith
  present_from-le (suc n) i = ground (arith, present_from-le n (i + 1))

  all_present : (n i j : ℕ) → present_from n i ≡ n → i ≤ j → j < i + n → present_at j ≡ true
  all_present zero i j e low high = absurd (omega arith)
  all_present (suc n) i j e low high = elim (Bool-cases (present_at i)) [
    | inl here ↦ elim (ℕ_discrete i j) [
      | yes same ↦ rw (← same) here
      | no other ↦
          all_present n (i + 1) j (ground (arith, e, here)) (omega (arith, other)) (omega arith)
    ]
    | inr absent ↦ absurd (ground (arith, e, absent, present_from-le n (i + 1)))
  ]

  -- The state after the loop over all rows.
  all_rows :
      (n : ℕ) (ls : Levels)
      → Unsliced as'
      → row_levels null_leaf as' flags max n 0 (no_levels n) ≡ some ls
      → Loops n 0 (no_levels n) ls
  all_rows n ls whole ran =
      row_levels-Loops n 0 (no_levels n) ls whole (zero_bitmap-IsByte n)
        (omega (arith, length-zero_bitmap n)) ran

  -- The validity that the page builders get.
  validity_lem :
      (n j : ℕ) (ls : Levels)
      → Loops n 0 (no_levels n) ls
      → j < n
      → valid_bit (validity_of ls.present_count n ls.present_map) j ≡ present_at j
  unfolding valid_bit
  validity_lem n j ls loops inside = elim (Bool-cases (ltb ls.present_count n)) [
    | inl some_null ↦ rw some_null (loops.bits j ∙ ground (arith, bit_at-zero_bitmap n j, inside))
    | inr no_null ↦ rw no_null (
        sym (
          all_present n 0 j (ground (arith, no_null, loops.counted, present_from-le n 0))
            (omega arith) (omega arith)))
  ]

module _ (ext : External) where
  abbrev on_leaf :
      {A : Type 0} → LeafSpec → List ArrowArray → (Bool → List ArrowArray → List Bool → ℕ → A) → A
  on_leaf leaf as' f = f (is_null_type leaf.col.extract) as' leaf.path_optional leaf.max_def_level

  ended :
      (r : Result Bytes) (v v' : Option Bytes) (k k' : ℕ) (prefix : Bytes)
      → and_then {B = Bytes × Option Bytes × ℕ} r (λ b. ok (b, v, k)) ≡ ok (prefix, v', k')
      → (r ≡ ok prefix) × (v' ≡ v) × (k' ≡ k)
  ended (ok b) v v' k k' prefix e = (cc e, cc e, cc e)
  ended (err x) v v' k k' prefix e = absurd (cc e)
  ended crash v v' k k' prefix e = absurd (cc e)

  -- The levels of an OPTIONAL path outside lists, none of whose arrays is a slice: the validity that
  -- is passed on marks, among the rows, exactly those whose every OPTIONAL node is present by the
  -- arrays' validity bitmaps, as far as their level is the path's highest; the nulls are the other
  -- rows; and with a highest level above 1 the levels that are encoded are, row by row, the numbers of
  -- nodes present before the first null.
  pub leaf_levels-Rows :
      (leaf : LeafSpec) (as' : List ArrowArray) (n nulls : ℕ) (prefix : Bytes)
      (validity : Option Bytes)
      → 0 < leaf.max_def_level
      → Unsliced as'
      → leaf_levels ext leaf as' n ≡ ok (prefix, validity, nulls)
      → ((j : ℕ) → j < n → valid_bit validity j ≡ on_leaf leaf as' present_at j)
        × (nulls + on_leaf leaf as' present_from n 0 ≡ n)
        × (1 < leaf.max_def_level
            → encode_definition_levels ext (on_leaf leaf as' levels_from n 0) leaf.def_bit_width
              ≡ ok prefix)
  unfolding leaf_levels
  leaf_levels-Rows leaf as' n nulls prefix validity optional whole e =
      let above : ltb 0 leaf.max_def_level ≡ true = ground arith in
      go
        (row_levels (is_null_type leaf.col.extract) as' leaf.path_optional leaf.max_def_level n 0
          (no_levels n))
        refl (simp above at e)
    where
      go :
          (x : Option Levels)
          → row_levels
              (is_null_type leaf.col.extract)
              as'
              leaf.path_optional
              leaf.max_def_level
              n
              0
              (no_levels n)
            ≡ x
          → encode_levels ext leaf n x ≡ ok (prefix, validity, nulls)
          → ((j : ℕ) → j < n → valid_bit validity j ≡ on_leaf leaf as' present_at j)
            × (nulls + on_leaf leaf as' present_from n 0 ≡ n)
            × (1 < leaf.max_def_level
                → encode_definition_levels ext (on_leaf leaf as' levels_from n 0) leaf.def_bit_width
                  ≡ ok prefix)
      go none is e' = absurd (cc e')
      go (some ls) is e' =
          let nl = is_null_type leaf.col.extract in
          let loops = all_rows nl as' leaf.path_optional leaf.max_def_level n ls whole is in
          let parts =
            ended _ (validity_of ls.present_count n ls.present_map) validity (n - ls.present_count)
              nulls prefix e' in
          (
            (λ j inside.
                ap (λ (v : Option Bytes). valid_bit v j) parts.1
                ∙ validity_lem nl as' leaf.path_optional leaf.max_def_level n j ls loops inside),
            omega (
              arith,
              parts.2,
              loops.counted,
              present_from-le nl as' leaf.path_optional leaf.max_def_level n 0,
            ),
            (λ deep.
                let many : ltb 1 leaf.max_def_level ≡ true = ground arith in
                let single : (leaf.max_def_level == 1) ≡ false = ground arith in
                let levels = on_leaf leaf as' levels_from n 0 in
                let same : ls.def ≡ levels =
                  loops.def ∙ ap (λ (b : Bool). if b then levels else []) many in
                ap (λ (ds : List ℕ). encode_definition_levels ext ds leaf.def_bit_width) (sym same)
                ∙ sym (
                    ap
                      (λ (b : Bool).
                        if b
                        then encode_definition_levels_bitmap ext ls.present_map n
                        else encode_definition_levels ext ls.def leaf.def_bit_width)
                      single)
                ∙ parts.0),
          )
