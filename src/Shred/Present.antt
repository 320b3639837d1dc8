-- ===== src/Shred/Present.antt =====
-- The presence bitmap of a shredded column picks, in their order, the values of its rows.
use nanoarrow2parquet.Common.{
  ℕ, zero, suc, ◌+◌, ◌*◌, ◌<◌, ◌≤◌, ◌≡◌, refl, ap, ◌∙◌, arith, Bool, true, false, ◌||◌, ◌==◌, ltb,
  List, [], ◌∷◌, length, All, none, some, Bool-cases, inl, inr, if◌then◌else◌,
}
use nanoarrow2parquet.Bytes.{Bytes}
use nanoarrow2parquet.Bitmap.{bit_at, set_bit, zero_bitmap, valid_bit}
use nanoarrow2parquet.Bitmap.Laws.{
  IsByte, bit_at-set_bit, set_bit-IsByte, length-set_bit, zero_bitmap-IsByte, length-zero_bitmap,
  bit_at-zero_bitmap,
}
use nanoarrow2parquet.Plain.Gathering.{valid_rows}
use nanoarrow2parquet.Shred.Order.{Ascends, Ascends-le, Ascends-length}

-- `present_map[...] |= ...` at each of the positions.
abbrev pub set_bits : List ℕ → Bytes → Bytes
set_bits [] bm = bm
set_bits (p ∷ ps) bm = set_bits ps (set_bit bm p)

abbrev among : ℕ → List ℕ → Bool
among j [] = false
among j (p ∷ ps) = p == j || among j ps

or_swap : (a b c : Bool) → (a || (b || c)) ≡ ((b || a) || c)
or_swap true true c = refl
or_swap true false c = refl
or_swap false true c = refl
or_swap false false c = refl

-- Exactly the bits of the positions are added.
bit_at-set_bits :
    (lo hi : ℕ) (ps : List ℕ) (bm : Bytes) (j : ℕ)
    → All IsByte bm
    → hi ≤ 8 * length bm
    → Ascends lo hi ps
    → bit_at (set_bits ps bm) j ≡ (among j ps || bit_at bm j)
bit_at-set_bits lo hi [] bm j bytes fits up = refl
bit_at-set_bits lo hi (p ∷ ps) bm j bytes fits up =
    let inside = Ascends-le (p + 1) hi ps up.1 in
    let rest =
      bit_at-set_bits (p + 1) hi ps (set_bit bm p) j (set_bit-IsByte bm p bytes)
        (omega (arith, length-set_bit bm p)) up.1 in
    rest
    ∙ rw (bit_at-set_bit bm p j bytes (omega (arith, up.0, inside)))
        (or_swap (among j ps) (p == j) (bit_at bm j))

below-among : (lo hi j : ℕ) (ps : List ℕ) → j < lo → Ascends lo hi ps → among j ps ≡ false
below-among lo hi j [] h up = refl
below-among lo hi j (p ∷ ps) h up =
    let other : (p == j) ≡ false = ground (arith, up.0) in
    rw other (below-among (p + 1) hi j ps (omega (arith, up.0)) up.1)

-- A bitmap of the positions gives them back.
marked_rows :
    (bm : Bytes) (m i : ℕ) (ps : List ℕ)
    → Ascends i (i + m) ps
    → ((j : ℕ) → i ≤ j → bit_at bm j ≡ among j ps)
    → valid_rows (some bm) m i ≡ ps
unfolding valid_bit
marked_rows bm zero i [] up marks = refl
marked_rows bm zero i (p ∷ ps) up marks =
    let inside = Ascends-le (p + 1) (i + 0) ps up.1 in absurd (omega (arith, inside, up.0))
marked_rows bm (suc m) i [] up marks =
    rw (marks i (omega arith))
      (marked_rows bm m (i + 1) [] (omega arith) λ j h. marks j (omega arith))
marked_rows bm (suc m) i (p ∷ ps) up marks =
    let next : i + suc m ≡ i + 1 + m = omega arith in
    elim (Bool-cases (p == i)) [
      | inl hit ↦
          let is : p ≡ i = ground arith in
          let here : bit_at bm i ≡ true = marks i (omega arith) ∙ rw hit in
          let later : Ascends (i + 1) (i + 1 + m) ps = rw (is, next) at (up.1) in
          rw (here, is)
            (ap (λ (qs : List ℕ). i ∷ qs)
              (marked_rows bm m (i + 1) ps later λ j h.
                let other : (p == j) ≡ false = ground arith in marks j (omega arith) ∙ rw other))
      | inr other ↦
          let behind : i + 1 ≤ p = ground (arith, up.0) in
          let absent : among i ps ≡ false =
            below-among (p + 1) (i + suc m) i ps (omega arith) up.1 in
          let here : bit_at bm i ≡ false = marks i (omega arith) ∙ rw (other, absent) in
          let later : Ascends (p + 1) (i + 1 + m) ps = rw next at (up.1) in
          rw here (marked_rows bm m (i + 1) (p ∷ ps) (behind, later) λ j h. marks j (omega arith))
    ]

-- As many positions as there are rows are all the rows.
all_rows : (m i : ℕ) (ps : List ℕ) → Ascends i (i + m) ps → length ps ≡ m → valid_rows none m i ≡ ps
unfolding valid_bit
all_rows zero i [] up count = refl
all_rows zero i (p ∷ ps) up count = absurd (omega arith)
all_rows (suc m) i [] up count = absurd (omega arith)
all_rows (suc m) i (p ∷ ps) up count =
    let room = Ascends-length (p + 1) (i + suc m) ps up.1 in
    let is : p ≡ i = omega (arith, room, up.0) in
    let next : i + suc m ≡ i + 1 + m = omega arith in
    let later : Ascends (i + 1) (i + 1 + m) ps = rw (is, next) at (up.1) in
    rw is (ap (λ (qs : List ℕ). i ∷ qs) (all_rows m (i + 1) ps later (omega arith)))

-- Positions that ascend are the rows which their bitmap, or no bitmap if they are all, calls valid.
pub valid_rows-set_bits :
    (n count : ℕ) (ps : List ℕ)
    → Ascends 0 n ps
    → count ≡ length ps
    → valid_rows (if ltb count n then some (set_bits ps (zero_bitmap n)) else none) n 0 ≡ ps
valid_rows-set_bits n count ps up counted = elim (Bool-cases (ltb count n)) [
  | inl some_null ↦
      let whole : n ≡ 0 + n = omega arith in
      rw some_null (
        marked_rows (set_bits ps (zero_bitmap n)) n 0 ps (rw whole at up) λ j h.
          bit_at-set_bits 0 n ps (zero_bitmap n) j (zero_bitmap-IsByte n)
            (omega (arith, length-zero_bitmap n)) up
          ∙ rw (bit_at-zero_bitmap n j) (ground arith))
  | inr no_null ↦
      let room = Ascends-length 0 n ps up in
      let all : length ps ≡ n = ground (arith, room, counted) in
      let whole : n ≡ 0 + n = omega arith in rw no_null (all_rows n 0 ps (rw whole at up) all)
]
