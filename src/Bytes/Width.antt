-- ===== src/Bytes/Width.antt =====
-- The bit width of a dictionary (src/rle_bitpack.hpp) is the least that holds every index.
use nanoarrow2parquet.Common.{
  ℕ, zero, suc, ◌+◌, ◌*◌, ◌^◌, ◌≤◌, ◌<◌, ◌≡◌, ltb, arith, Bool-cases, inl, inr, ltb→lt, true,
}
use native.Mathlib.Decide.{dec_lt}
use nanoarrow2parquet.Bytes.{bit_width_loop, dictionary_bit_width}
use native.Mathlib.Numerals.{towards_suc}

pow_double : (w : ℕ) → 2 ^ (w + 1) ≡ 2 * 2 ^ w
pow_double w = simp towards_suc (omega arith)

pow_grows : (n : ℕ) → n < 2 ^ n
pow_grows zero = omega arith
pow_grows (suc n) = omega (arith, pow_grows n, pow_double n)

bit_width_loop-enough :
    (fuel size w p : ℕ) → p ≡ w + fuel → size ≤ 2 ^ p → size ≤ 2 ^ bit_width_loop fuel size w
unfolding bit_width_loop
bit_width_loop-enough zero size w p e h = let same : p ≡ w = omega arith in rw same at h
bit_width_loop-enough (suc fuel) size w p e h = elim (Bool-cases (ltb (2 ^ w) size)) [
  | inl wider ↦ rw wider (bit_width_loop-enough fuel size (w + 1) p (omega arith) h)
  | inr done ↦ rw done (ground arith)
]

bit_width_loop-least :
    (fuel size w : ℕ)
    → ((v : ℕ) → v < w → 2 ^ v < size)
    → (v : ℕ) → v < bit_width_loop fuel size w
    → 2 ^ v < size
unfolding bit_width_loop
bit_width_loop-least zero size w h v below = h v below
bit_width_loop-least (suc fuel) size w h v below = elim (Bool-cases (ltb (2 ^ w) size)) [
  | inl wider ↦ bit_width_loop-least fuel size (w + 1) (smaller wider) v (rw wider at below)
  | inr done ↦ h v (rw done at below)
]
  where
    smaller : ltb (2 ^ w) size ≡ true → (u : ℕ) → u < w + 1 → 2 ^ u < size
    smaller wider u lt = elim (dec_lt u w) [
      | yes p ↦ h u p
      | no p ↦ let e : u ≡ w = omega arith in rw e (ltb→lt _ _ wider)
    ]

-- Every index below the dictionary's size fits the bit width, and no smaller width has room for
-- all of them.
pub dictionary_bit_width-least :
    (size : ℕ)
    → (size ≤ 2 ^ dictionary_bit_width size)
      × ((w : ℕ) → w < dictionary_bit_width size → 2 ^ w < size)
unfolding dictionary_bit_width
dictionary_bit_width-least size = (
  bit_width_loop-enough size size 0 size (omega arith) (omega (arith, pow_grows size)),
  bit_width_loop-least size size 0 (λ v h. absurd (omega arith)),
)
