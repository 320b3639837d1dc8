-- ===== src/Bitmap.antt =====
-- Arrow's LSB-first bitmaps, as src/writer.cpp and include/nanoarrow2parquet/soa.hpp read and pack
-- them.
pub mod Laws
use nanoarrow2parquet.Common.{
  ℕ, zero, suc, ◌+◌, ◌/◌, ◌%◌, ◌^◌, Bool, true, Option, none, some, ◌==◌, bit_or, get_or, set,
  replicate,
}
use nanoarrow2parquet.Bytes.{Bytes}

-- `(bm[i >> 3] >> (i & 7)) & 1`
unfoldable pub bit_at : Bytes → ℕ → Bool
bit_at bm i = get_or bm (i / 8) 0 / 2 ^ (i % 8) % 2 == 1

-- `bm[i >> 3] |= 1u << (i & 7)`
unfoldable pub set_bit : Bytes → ℕ → Bytes
set_bit bm i = set bm (i / 8) (bit_or (get_or bm (i / 8) 0) (2 ^ (i % 8)))

-- `(n + 7) / 8` bytes of zero.
unfoldable pub zero_bitmap : ℕ → Bytes
zero_bitmap n = replicate ((n + 7) / 8) 0

-- A null bitmap pointer means that every value is valid.
unfoldable pub valid_bit : Option Bytes → ℕ → Bool
valid_bit none i = true
valid_bit (some validity) i = bit_at validity i
