-- ===== src/Bitmap/Laws.antt =====
-- Setting a bit sets that bit and no other, and keeps a bitmap's length and bytes.
use nanoarrow2parquet.Common.{
  ℕ, zero, suc, ◌+◌, ◌*◌, ◌/◌, ◌%◌, ◌^◌, ◌<◌, ◌≡◌, refl, arith, Bool, true, false, ◌&&◌, ◌||◌, ◌==◌,
  ltb, bit_or, List, [], ◌∷◌, All, length, length-set, length-replicate, get_or, set,
  get_or-set_self, get_or-set_ne, ==_iff, Bool-cases, inl, inr,
}
use nanoarrow2parquet.Bytes.{Bytes}
use nanoarrow2parquet.Bitmap.{bit_at, set_bit, zero_bitmap}
use native.Mathlib.Decide.{ℕ_discrete}

abbrev pub IsByte : ℕ → Type 0
IsByte b = b < 256

-- Whether a test holds of every number under a bound.
holds_under : (ℕ → Bool) → ℕ → Bool
holds_under test zero = true
holds_under test (suc top) = holds_under test top && test top

instance_of :
    (test : ℕ → Bool) (bound : ℕ)
    → holds_under test bound ≡ true
    → (k : ℕ) → k < bound
    → test k ≡ true
unfolding holds_under
instance_of test zero run k inside = absurd (omega arith)
instance_of test (suc top) run k inside = elim (ℕ_discrete k top) [
  | yes same ↦ rw same (ground (arith, run))
  | no other ↦ instance_of test top (ground (arith, run)) k (omega (arith, other))
]

bool_eq : Bool → Bool → Bool
bool_eq true b = b
bool_eq false true = false
bool_eq false false = true

bool_eq→eq : (a b : Bool) → bool_eq a b ≡ true → a ≡ b
unfolding bool_eq
bool_eq→eq a b h = ground arith

-- Bit `j` of `b | 1 << k`.
or_bit_holds : ℕ → ℕ → ℕ → Bool
unfolding bool_eq
or_bit_holds k j b =
    ltb (bit_or b (2 ^ k)) 256
    && bool_eq (bit_or b (2 ^ k) / 2 ^ j % 2 == 1) (k == j || b / 2 ^ j % 2 == 1)

or_bit_table : holds_under (λ k. holds_under (λ j. holds_under (or_bit_holds k j) 256) 8) 8 ≡ true
unfolding holds_under or_bit_holds
or_bit_table = refl

or_bit_at : (b k j : ℕ) → b < 256 → k < 8 → j < 8 → or_bit_holds k j b ≡ true
or_bit_at b k j hb hk hj =
    instance_of (or_bit_holds k j) 256 (instance_of _ 8 (instance_of _ 8 or_bit_table k hk) j hj) b
      hb

or_bit :
    (b k j : ℕ)
    → b < 256
    → k < 8
    → j < 8
    → (bit_or b (2 ^ k) < 256)
      × ((bit_or b (2 ^ k) / 2 ^ j % 2 == 1) ≡ (k == j || b / 2 ^ j % 2 == 1))
unfolding or_bit_holds
or_bit b k j hb hk hj = ground (
  arith,
  or_bit_at b k j hb hk hj,
  bool_eq→eq (bit_or b (2 ^ k) / 2 ^ j % 2 == 1) (k == j || b / 2 ^ j % 2 == 1),
)

pub get_or-IsByte : (bm : Bytes) (i : ℕ) → All IsByte bm → get_or bm i 0 < 256
get_or-IsByte [] i h = omega arith
get_or-IsByte (b ∷ bm) zero h = h.0
get_or-IsByte (b ∷ bm) (suc i) h = get_or-IsByte bm i h.1

set-IsByte : (bm : Bytes) (i v : ℕ) → v < 256 → All IsByte bm → All IsByte (set bm i v)
set-IsByte [] i v hv h = h
set-IsByte (b ∷ bm) zero v hv h = (hv, h.1)
set-IsByte (b ∷ bm) (suc i) v hv h = (h.0, set-IsByte bm i v hv h.1)

pub set_bit-IsByte : (bm : Bytes) (i : ℕ) → All IsByte bm → All IsByte (set_bit bm i)
unfolding set_bit
set_bit-IsByte bm i h =
    set-IsByte bm (i / 8) _
      (or_bit (get_or bm (i / 8) 0) (i % 8) 0 (get_or-IsByte bm (i / 8) h) (omega arith)
        (omega arith)).0
      h

pub length-set_bit : (bm : Bytes) (i : ℕ) → length (set_bit bm i) ≡ length bm
unfolding set_bit
length-set_bit bm i = length-set bm (i / 8) _

-- Setting bit `i` of a bitmap that has it sets bit `i`, and leaves every other bit as it was.
pub bit_at-set_bit :
    (bm : Bytes) (i j : ℕ)
    → All IsByte bm
    → i < 8 * length bm
    → bit_at (set_bit bm i) j ≡ (i == j || bit_at bm j)
unfolding bit_at set_bit
bit_at-set_bit bm i j h inside = elim (ℕ_discrete (i / 8) (j / 8)) [
  | yes same ↦
      rw
        (
          ← same,
          get_or-set_self bm (i / 8) (bit_or (get_or bm (i / 8) 0) (2 ^ (i % 8))) 0 (omega arith),
        )
        ground
        (
          arith,
          or_bit (get_or bm (i / 8) 0) (i % 8) (j % 8) (get_or-IsByte bm (i / 8) h) (omega arith)
              (omega arith),
        )
  | no other ↦
      rw (get_or-set_ne bm (i / 8) (j / 8) (bit_or (get_or bm (i / 8) 0) (2 ^ (i % 8))) 0 other)
        (ground arith)
]

replicate_zero-IsByte : (n : ℕ) → All IsByte (nanoarrow2parquet.Common.replicate n 0)
replicate_zero-IsByte zero = tt
replicate_zero-IsByte (suc n) = (omega arith, replicate_zero-IsByte n)

pub zero_bitmap-IsByte : (n : ℕ) → All IsByte (zero_bitmap n)
unfolding zero_bitmap
zero_bitmap-IsByte n = replicate_zero-IsByte ((n + 7) / 8)

pub length-zero_bitmap : (n : ℕ) → length (zero_bitmap n) ≡ (n + 7) / 8
unfolding zero_bitmap
length-zero_bitmap n = length-replicate ((n + 7) / 8) 0

get_or-replicate_zero :
    (n i : ℕ) → ◌≡◌ {A = ℕ} (get_or (nanoarrow2parquet.Common.replicate n 0) i 0) 0
get_or-replicate_zero zero i = refl
get_or-replicate_zero (suc n) zero = refl
get_or-replicate_zero (suc n) (suc i) = get_or-replicate_zero n i

-- Bit `j` of a list; behind its end no bit is set.
abbrev pub nth_bit : List Bool → ℕ → Bool
nth_bit [] j = false
nth_bit (b ∷ bs) zero = b
nth_bit (b ∷ bs) (suc j) = nth_bit bs j

pub bit_at-zero_bitmap : (n i : ℕ) → bit_at (zero_bitmap n) i ≡ false
unfolding bit_at zero_bitmap
bit_at-zero_bitmap n i = rw (get_or-replicate_zero ((n + 7) / 8) (i / 8)) (ground arith)
