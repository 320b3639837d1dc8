-- ===== src/Bytes.antt =====
-- Byte vectors (src/rle_bitpack.hpp, src/writer.cpp): little-endian words, the page length prefix,
-- and the bit width of a dictionary.
pub mod RoundTrip
pub mod Width
use nanoarrow2parquet.Common.{
  ℕ, zero, suc, ◌+◌, ◌*◌, ◌/◌, ◌%◌, ◌^◌, ◌-◌, List, [], ◌∷◌, ◌++◌, ltb, get_or, length,
  if◌then◌else◌,
}
use nanoarrow2parquet.Result.{Result, ok, err, level_stream_too_large}

-- std::vector<std::uint8_t>, and an Arrow buffer: each entry is below 256.
abbrev pub Bytes : Type 0
Bytes = List ℕ

-- The four pushes of a std::uint32_t.
unfoldable pub append_le : Bytes → ℕ → Bytes
append_le out v = out ++ (v % 256 ∷ v / 2 ^ 8 % 256 ∷ v / 2 ^ 16 % 256 ∷ v / 2 ^ 24 % 256 ∷ [])

unfoldable pub append_bytes : Bytes → Bytes → Bytes
append_bytes out more = out ++ more

-- The length of a level stream, then the stream; a stream of 4 GiB or more throws.
unfoldable pub with_length_prefix : Bytes → Result Bytes
unfolding append_le append_bytes
with_length_prefix run =
    if ltb (2 ^ 32 - 1) (length run)
    then err level_stream_too_large
    else ok (append_bytes (append_le [] (length run)) run)

-- The loop of `dictionary_bit_width`: `fuel` rounds at most.
unfoldable pub bit_width_loop : ℕ → ℕ → ℕ → ℕ
bit_width_loop zero size w = w
bit_width_loop (suc fuel) size w =
    let wider = bit_width_loop fuel size (w + 1) in if ltb (2 ^ w) size then wider else w

-- `size` rounds are enough, since 2 ^ size is at least `size`.
unfoldable pub dictionary_bit_width : ℕ → ℕ
unfolding bit_width_loop
dictionary_bit_width size = bit_width_loop size size 0

-- A little-endian word of `width` bytes at byte `at`. C++ defines no read past the buffer's end;
-- the model reads 0 there, and the theorems that need the bytes say that they are in range.
unfoldable pub read_le : ℕ → Bytes → ℕ → ℕ
read_le zero b i = 0
read_le (suc width) b i = get_or b i 0 + 256 * read_le width b (i + 1)
