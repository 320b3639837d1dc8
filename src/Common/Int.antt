-- ===== src/Common/Int.antt =====
-- Signed numbers that the program reads from Arrow buffers and structs, and their orders.
use Prim.Native.Nat.{ℕ, ◌-◌, ◌^◌}
use mathlib.Core.Bool.{Bool, false}
use nanoarrow2parquet.Common.Tests.{ltb, if◌then◌else◌}

-- `negsuc n` is -(n + 1).
pub data ℤ : Type 0 where
  pos : ℕ → ℤ
  negsuc : ℕ → ℤ

-- The number below 2 ^ bits that a two's complement pattern stands for.
abbrev pub signed : ℕ → ℕ → ℤ
signed bits w = if ltb w (2 ^ (bits - 1)) then pos w else negsuc (2 ^ bits - w - 1)

abbrev pub is_positive : ℤ → Bool
is_positive (pos n) = ltb 0 n
is_positive (negsuc n) = false
