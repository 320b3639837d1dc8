-- ===== src/Plain/Widening.antt =====
-- The 32-bit word of a widened integer stands for the same number as the narrow one.
use nanoarrow2parquet.Common.{
  ℕ, ◌+◌, ◌*◌, ◌^◌, ◌<◌, ◌≡◌, arith, Bool, true, false, All, ◌⊎◌, inl, inr, Bool-cases,
}
use nanoarrow2parquet.Common.Int.{ℤ, pos, signed}
use nanoarrow2parquet.Bytes.{Bytes, read_le}
use nanoarrow2parquet.Bitmap.Laws.{IsByte, get_or-IsByte}
use nanoarrow2parquet.Format.{ColumnSpec}
use nanoarrow2parquet.Plain.{sign_extend, widened_word}

sign_extend_byte : (raw : ℕ) → raw < 2 ^ 8 → signed 32 (sign_extend 8 raw) ≡ signed 8 raw
sign_extend_byte raw h = ground arith

sign_extend_short : (raw : ℕ) → raw < 2 ^ 16 → signed 32 (sign_extend 16 raw) ≡ signed 16 raw
sign_extend_short raw h = ground arith

unsigned_word : (raw : ℕ) → raw < 2 ^ 16 → signed 32 raw ≡ pos raw
unsigned_word raw h = ground arith

read_byte : (src : Bytes) (i : ℕ) → All IsByte src → read_le 1 src i < 2 ^ 8
unfolding read_le
read_byte src i h = omega (arith, get_or-IsByte src i h)

read_short : (src : Bytes) (i : ℕ) → All IsByte src → read_le 2 src i < 2 ^ 16
unfolding read_le
read_short src i h = omega (arith, get_or-IsByte src i h, get_or-IsByte src (i + 1) h)

-- The number that narrow value `i` of a column stands for.
abbrev pub narrow_value : Bool → ℕ → Bytes → ℕ → ℤ
narrow_value true width src i = signed (8 * width) (read_le width src (width * i))
narrow_value false width src i = pos (read_le width src (width * i))

-- Widening keeps the number: the 32-bit word that is stored for an 8- or 16-bit value, read as a
-- signed INT32, is the value that its Arrow bytes stand for, signed or not.
pub signed-widened_word :
    (s : ColumnSpec) (src : Bytes) (i : ℕ)
    → (s.src_width ≡ 1) ⊎ (s.src_width ≡ 2)
    → All IsByte src
    → signed 32 (widened_word s src i) ≡ narrow_value s.sign_extend s.src_width src i
unfolding widened_word
signed-widened_word s src i (inl one) h =
    let once : 1 * i ≡ i = omega arith in
    elim (Bool-cases s.sign_extend) [
      | inl yes' ↦ rw (one, yes', once) (sign_extend_byte (read_le 1 src i) (read_byte src i h))
      | inr no' ↦
          rw (one, no', once) (unsigned_word (read_le 1 src i) (omega (arith, read_byte src i h)))
    ]
signed-widened_word s src i (inr two) h = elim (Bool-cases s.sign_extend) [
  | inl yes' ↦ rw (two, yes') (sign_extend_short (read_le 2 src (2 * i)) (read_short src (2 * i) h))
  | inr no' ↦ rw (two, no') (unsigned_word (read_le 2 src (2 * i)) (read_short src (2 * i) h))
]
