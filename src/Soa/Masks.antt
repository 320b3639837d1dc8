-- ===== src/Soa/Masks.antt =====
-- The presence masks of include/nanoarrow2parquet/soa.hpp as the writer of src/writer.cpp reads them.
use nanoarrow2parquet.Common.{
  ℕ, zero, suc, ◌+◌, ◌-◌, ◌*◌, ◌≤◌, ◌<◌, ◌≡◌, refl, sym, ap, ◌∙◌, arith, Bool, true, false, ◌&&◌,
  ◌||◌, ◌==◌, ltb, leb, List, [], ◌∷◌, length, All, none, Bool-cases, inl, inr, if◌then◌else◌,
}
use native.Mathlib.Decide.{ℕ_discrete}
use nanoarrow2parquet.Bytes.{Bytes}
use nanoarrow2parquet.Bitmap.{bit_at, set_bit, zero_bitmap, valid_bit}
use nanoarrow2parquet.Bitmap.Laws.{
  IsByte, set_bit-IsByte, length-set_bit, bit_at-set_bit, zero_bitmap-IsByte, length-zero_bitmap,
  bit_at-zero_bitmap, nth_bit,
}
use nanoarrow2parquet.Soa.Columns.{Values, size, NullableColumn, pack_mask, owned_or, present}

-- The absent elements among the first `k` of a mask.
abbrev pub absent_in : List Bool → ℕ → ℕ
absent_in ms zero = 0
absent_in [] (suc k) = 0
absent_in (m ∷ ms) (suc k) = (if m then 0 else 1) + absent_in ms k

abbrev from : List Bool → ℕ → ℕ → ℕ → Bool
from ms n i j = leb i j && (ltb j n && nth_bit ms (j - i))

from-cons :
    (m : Bool) (ms : List Bool) (n i j : ℕ)
    → i < n
    → from (m ∷ ms) n i j ≡ ((i == j && m) || from ms n (i + 1) j)
from-cons m ms n i j h = elim (Bool-cases (leb i j)) [
  | inr before ↦
      let other : (i == j) ≡ false = ground arith in
      let too : leb (i + 1) j ≡ false = ground arith in rw (before, other, too)
  | inl reached ↦ elim (ℕ_discrete i j) [
    | yes same ↦
        let here : (i == j) ≡ true = ground arith in
        let past : leb (i + 1) j ≡ false = ground arith in
        let inside : ltb j n ≡ true = ground arith in
        let first : j - i ≡ 0 = omega arith in
        rw (reached, here, past, inside, first) (ground arith)
    | no other ↦
        let not_here : (i == j) ≡ false = ground arith in
        let past : leb (i + 1) j ≡ true = ground arith in
        let behind : j - i ≡ suc (j - (i + 1)) = ground arith in
        rw (reached, not_here, past, behind)
  ]
]

or_first : (a b c : Bool) → ((a || b) || c) ≡ (b || (a || c))
or_first true true c = refl
or_first true false c = refl
or_first false true c = refl
or_first false false c = refl

abbrev Packs : List Bool → ℕ → ℕ → Bytes → ℕ → Bytes × ℕ → Type 0
Packs ms n i bits nulls out =
    (length out.0 ≡ length bits)
    × ((j : ℕ) → bit_at out.0 j ≡ (bit_at bits j || from ms n i j))
    × (out.1 ≡ nulls + absent_in ms (n - i))

nothing_from : (ms : List Bool) (n i j : ℕ) → n ≤ i → from ms n i j ≡ false
nothing_from ms n i j h = elim (Bool-cases (leb i j)) [
  | inl reached ↦ let outside : ltb j n ≡ false = ground arith in rw (reached, outside)
  | inr before ↦ rw before
]

or_none : (b c : Bool) → c ≡ false → b ≡ (b || c)
or_none true c h = refl
or_none false c h = sym h

pack_mask-Packs :
    (ms : List Bool) (n i : ℕ) (bits : Bytes) (nulls : ℕ)
    → All IsByte bits
    → n ≤ 8 * length bits
    → Packs ms n i bits nulls (pack_mask ms n i bits nulls)
unfolding pack_mask
pack_mask-Packs [] n i bits nulls bytes fits =
    (refl, (λ j. or_none (bit_at bits j) (from [] n i j) (ground arith)), none_left (n - i))
  where
    none_left : (k : ℕ) → nulls ≡ nulls + absent_in [] k
    none_left zero = omega arith
    none_left (suc k) = omega arith
pack_mask-Packs (m ∷ ms) n i bits nulls bytes fits = elim (Bool-cases (ltb i n)) [
  | inr over ↦
      let none_left : n - i ≡ 0 = ground arith in
      rw (over, none_left)
        (
          refl,
          (λ j.
              or_none (bit_at bits j) (from (m ∷ ms) n i j)
                (nothing_from (m ∷ ms) n i j (ground arith))),
          omega arith,
        )
  | inl more ↦
      let more_left : n - i ≡ suc (n - (i + 1)) = ground arith in
      rw (more, more_left) (packs m (pack_mask-Packs ms n (i + 1)) (ground arith))
]
  where
    packs :
        (b : Bool)
        → ((bm : Bytes) (k : ℕ)
            → All IsByte bm
            → n ≤ 8 * length bm
            → Packs ms n (i + 1) bm k (pack_mask ms n (i + 1) bm k))
        → i < n
        → let out =
            pack_mask ms n
              (i + 1)
              (if b then set_bit bits i else bits)
              (if b then nulls else nulls + 1) in
          (length out.0 ≡ length bits)
          × ((j : ℕ) → bit_at out.0 j ≡ (bit_at bits j || from (b ∷ ms) n i j))
          × (out.1 ≡ nulls + absent_in (b ∷ ms) (suc (n - (i + 1))))
    packs true ih inside =
        let (long, at, count) =
          ih (set_bit bits i) nulls (set_bit-IsByte bits i bytes)
            (omega (arith, length-set_bit bits i)) in
        (
          long ∙ length-set_bit bits i,
          (λ j.
              at j
              ∙ rw (bit_at-set_bit bits i j bytes (omega arith), from-cons true ms n i j inside)
                  (ground arith)),
          omega (arith, count),
        )
    packs false ih inside =
        let (long, at, count) = ih bits (nulls + 1) bytes fits in
        (
          long,
          (λ j. at j ∙ rw (from-cons false ms n i j inside) (ground arith)),
          omega (arith, count),
        )

-- The column of a packed mask.
abbrev column_of : Values → Bytes × ℕ → NullableColumn
column_of values out = record {
  values = values;
  validity = owned_or out.0 none;
  null_count = out.1;
}

count_all :
    (mask : List Bool) (n nulls : ℕ) → nulls ≡ 0 + absent_in mask (n - 0) → nulls ≡ absent_in mask n
count_all mask n nulls h =
    let whole : n - 0 ≡ n = omega arith in omega (arith, h, ap (absent_in mask) whole)

packed-valid :
    (values : Values) (mask : List Bool) (out : Bytes × ℕ)
    → Packs mask (size values) 0 (zero_bitmap (size values)) 0 out
    → ((j : ℕ) → j < size values → valid_bit (column_of values out).validity j ≡ nth_bit mask j)
      × ((column_of values out).null_count ≡ absent_in mask (size values))
      × ((column_of values out).values ≡ values)
unfolding valid_bit
packed-valid values mask ([], nulls) (long, at, count) = (
  (λ j h. absurd (omega (arith, long, length-zero_bitmap (size values)))),
  count_all mask (size values) nulls count,
  refl,
)
packed-valid values mask (b ∷ bs, nulls) (long, at, count) = (
  (λ j h. at j ∙ rw (bit_at-zero_bitmap (size values) j) (ground arith)),
  count_all mask (size values) nulls count,
  refl,
)

-- A column under a mask is valid just where the mask has an element that is set, for each of its
-- rows; its null count is the number of elements of the mask, up to the rows, that are not set, and
-- its values are those given.
pub present_lem :
    (values : Values) (mask : List Bool)
    → let c = present values mask in
      ((j : ℕ) → j < size values → valid_bit c.validity j ≡ nth_bit mask j)
      × (c.null_count ≡ absent_in mask (size values))
      × (c.values ≡ values)
unfolding present
present_lem values mask =
    packed-valid values mask (pack_mask mask (size values) 0 (zero_bitmap (size values)) 0) (
      pack_mask-Packs mask (size values) 0 (zero_bitmap (size values)) 0
        (zero_bitmap-IsByte (size values)) (omega (arith, length-zero_bitmap (size values))))
