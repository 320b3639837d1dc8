-- ===== src/Plain.antt =====
-- PLAIN page bodies of src/writer.cpp: fixed-width values, widened integers, packed booleans.
-- A null buffer, which Arrow has only under an empty array, is read as an empty one.
pub mod Widening
pub mod Gathering
pub mod Booleans
use nanoarrow2parquet.Common.{
  ℕ, zero, suc, ◌+◌, ◌-◌, ◌*◌, ◌/◌, ◌%◌, ◌^◌, [], ◌∷◌, ◌++◌, Bool, ◌==◌, ltb, Option, none, some,
  bit_or, get_or, set, take, drop, length, if◌then◌else◌,
}
use nanoarrow2parquet.Bytes.{Bytes, append_le, read_le}
use nanoarrow2parquet.Bitmap.{bit_at, valid_bit}
use nanoarrow2parquet.Format.{ColumnSpec, Extract}

-- The bytes from `start` on, `count` of them.
abbrev pub slice : Bytes → ℕ → ℕ → Bytes
slice src start count = take count (drop start src)

abbrev pub contents : Option Bytes → Bytes
contents none = []
contents (some b) = b

-- The loop over positions from `i` on that appends `value i` where the validity bit is set.
unfoldable pub gather : (ℕ → Bytes) → Option Bytes → ℕ → ℕ → Bytes → Bytes
gather value validity zero i body = body
gather value validity (suc n) i body =
    gather value validity n (i + 1) (if valid_bit validity i then body ++ value i else body)

-- An 8 or 16 bit pattern as the std::uint32_t of its std::int32_t value.
abbrev pub sign_extend : ℕ → ℕ → ℕ
sign_extend bits raw = if ltb raw (2 ^ (bits - 1)) then raw else raw + 2 ^ 32 - 2 ^ bits

-- `append_widened`: the word that stands for narrow value `i`.
unfoldable pub widened_word : ColumnSpec → Bytes → ℕ → ℕ
widened_word s src i =
    if s.src_width == 1
    then (if s.sign_extend then sign_extend 8 (read_le 1 src i) else read_le 1 src i)
    else (if s.sign_extend then sign_extend 16 (read_le 2 src (2 * i)) else read_le 2 src (2 * i))

unfoldable pub build_plain_fixed : ℕ → Bytes → ColumnSpec → Option Bytes → Bytes
unfolding gather widened_word append_le
build_plain_fixed n src s validity = elim s.extract [
  | Extract.memcpy_fixed ↦ elim validity [
    | none ↦ take (n * s.src_width) src
    | some bm ↦ gather (λ i. slice src (i * s.src_width) s.src_width) (some bm) n 0 []
  ]
  | _ ↦ gather (λ i. append_le [] (widened_word s src i)) validity n 0 []
]

-- `body.back() |= mask`
abbrev pub or_last : Bytes → ℕ → Bytes
or_last body mask = set body (length body - 1) (bit_or (get_or body (length body - 1) 0) mask)

-- One round of the packing loop for a present bit.
abbrev pub push_bit : Bytes → ℕ → Bool → Bytes
push_bit body out_bit b =
    let grown = if out_bit % 8 == 0 then body ++ (0 ∷ []) else body in
    if b then or_last grown (2 ^ (out_bit % 8)) else grown

unfoldable pub pack_present : Bytes → Bytes → ℕ → ℕ → ℕ → Bytes → Bytes
pack_present src validity zero i out_bit body = body
pack_present src validity (suc n) i out_bit body =
    let keep = bit_at validity i in
    pack_present src validity n (i + 1) (if keep then out_bit + 1 else out_bit)
      (if keep then push_bit body out_bit (bit_at src i) else body)

unfoldable pub build_plain_bool : ℕ → Bytes → Option Bytes → Bytes
unfolding pack_present
build_plain_bool n src none = take ((n + 7) / 8) src
build_plain_bool n src (some validity) = pack_present src validity n 0 0 []
