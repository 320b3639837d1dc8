-- ===== src/Pages/Values.antt =====
-- Fixed-width columns of src/writer.cpp: chunk statistics and the DELTA and BYTE_STREAM_SPLIT
-- encodings.
use nanoarrow2parquet.Common.{
  ℕ, zero, suc, ◌+◌, ◌*◌, ◌/◌, ◌%◌, List, [], ◌∷◌, Bool, true, false, not, ◌==◌, ◌&&◌, ◌||◌, Option,
  none, some, length, if◌then◌else◌,
}
use nanoarrow2parquet.Bytes.{Bytes, append_bytes, read_le}
use nanoarrow2parquet.Bitmap.{bit_at, valid_bit}
use nanoarrow2parquet.Arrow.{ArrayHead, buffer}
use nanoarrow2parquet.Plain.{slice, contents, sign_extend}
use nanoarrow2parquet.Format.{ColumnSpec, Extract, PqType, ConvertedType}
use nanoarrow2parquet.External.{External, i8, u8, i16, u16, i32, u32, i64, u64, f32, f64}
use nanoarrow2parquet.External.Headers.{Encoding, plain, delta_binary_packed, byte_stream_split}
use nanoarrow2parquet.Pages.ByteArrays.{present_values, enc_delta, enc_byte_stream_split}

-- The bytes of a value in memory, lowest first (`plain_bytes` on a little-endian machine).
unfoldable pub plain_bytes : ℕ → ℕ → Bytes
plain_bytes zero v = []
plain_bytes (suc width) v = v % 256 ∷ plain_bytes width (v / 256)

-- The scan of a boolean column stops when it has seen both values.
unfoldable pub bool_scan : Bytes → Option Bytes → ℕ → ℕ → Bool → Bool → Bool × Bool
bool_scan bits validity zero i any_true any_false = (any_true, any_false)
bool_scan bits validity (suc n) i any_true any_false = elim (any_true && any_false) [
  | true ↦ (any_true, any_false)
  | false ↦
      bool_scan bits validity n (i + 1) (any_true || (valid_bit validity i && bit_at bits i))
        (any_false || (valid_bit validity i && not (bit_at bits i)))
]

unfoldable pub bool_stats : Bool × Bool → Option (Bytes × Bytes)
bool_stats (any_true, any_false) =
    if any_true || any_false
    then some ((if any_false then 0 else 1) ∷ [], (if any_true then 1 else 0) ∷ [])
    else none

-- A null column and the default cases report nothing; a narrow value is reported as the INT32 that
-- it is stored as.
abbrev put_with : (ℕ → Bytes) → Option (ℕ × ℕ) → Option (Bytes × Bytes)
put_with f none = none
put_with f (some (lo, hi)) = some (f lo, f hi)

abbrev is_unsigned : ColumnSpec → Bool
is_unsigned s = elim s.converted [
  | none ↦ false
  | some c ↦ elim c [
    | ConvertedType.uint_8 ↦ true
    | ConvertedType.uint_16 ↦ true
    | ConvertedType.uint_32 ↦ true
    | ConvertedType.uint_64 ↦ true
    | _ ↦ false
  ]
]

-- `w` words of `width` bytes from the front of a body.
unfoldable pub words_of : ℕ → Bytes → ℕ → ℕ → List ℕ
words_of width body zero i = []
words_of width body (suc n) i = read_le width body (width * i) ∷ words_of width body n (i + 1)

module _ (ext : External) where
  widen_stats : Bytes → ℕ → ColumnSpec → Option Bytes → Option (Bytes × Bytes)
  widen_stats src n s validity =
      if s.src_width == 1
      then (if s.sign_extend
          then put_with (λ v. plain_bytes 4 (sign_extend 8 v)) (ext.compute_stats i8 src validity n)
          else put_with (plain_bytes 4) (ext.compute_stats u8 src validity n))
      else (if s.sign_extend
          then put_with (λ v. plain_bytes 4 (sign_extend 16 v))
              (ext.compute_stats i16 src validity n)
          else put_with (plain_bytes 4) (ext.compute_stats u16 src validity n))

  fixed_width_stats : Bytes → ℕ → ColumnSpec → Option Bytes → Option (Bytes × Bytes)
  fixed_width_stats src n s validity = elim s.type [
    | PqType.int32 ↦
        put_with (plain_bytes 4)
          (ext.compute_stats (if is_unsigned s then u32 else i32) src validity n)
    | PqType.int64 ↦
        put_with (plain_bytes 8)
          (ext.compute_stats (if is_unsigned s then u64 else i64) src validity n)
    | PqType.float ↦ put_with (plain_bytes 4) (ext.compute_stats f32 src validity n)
    | PqType.double ↦ put_with (plain_bytes 8) (ext.compute_stats f64 src validity n)
    | PqType.fixed_len_byte_array ↦
        ext.compute_binary_stats
          (present_values (λ i. slice src (i * s.type_length) s.type_length) validity n 0)
    | _ ↦ none
  ]

  -- What `fixed_stats` sets of the chunk: its min and max, or nothing.
  unfoldable pub fixed_stats : ArrayHead → ColumnSpec → Option Bytes → Option (Bytes × Bytes)
  unfolding bool_scan bool_stats widen_stats fixed_width_stats plain_bytes
  fixed_stats h s validity = elim s.extract [
    | Extract.null ↦ none
    | Extract.bool ↦ bool_stats (bool_scan (contents (buffer h 1)) validity h.length 0 false false)
    | Extract.widen_int ↦ widen_stats (contents (buffer h 1)) h.length s validity
    | Extract.memcpy_fixed ↦ fixed_width_stats (contents (buffer h 1)) h.length s validity
    | Extract.byte_array ↦ none
  ]

  delta_words : ℕ → Bytes → Bytes × Encoding
  delta_words width values = (
    append_bytes []
        (ext.delta_binary_packed_encode width (words_of width values (length values / width) 0)),
    delta_binary_packed,
  )

  split_streams : ℕ → Bytes → Bytes × Encoding
  split_streams width values = (
    append_bytes [] (ext.byte_stream_split_encode values width (length values / width)),
    byte_stream_split,
  )

  -- The values re-encoded in the selected mode, and the page encoding.
  unfoldable pub encode_fixed_values : Bytes → ColumnSpec → ℕ → Bytes × Encoding
  unfolding delta_words split_streams words_of
  encode_fixed_values values s mode = elim s.type [
    | PqType.int32 ↦ if mode == enc_delta then delta_words 4 values else (values, plain)
    | PqType.int64 ↦ if mode == enc_delta then delta_words 8 values else (values, plain)
    | PqType.float ↦
        if mode == enc_byte_stream_split then split_streams 4 values else (values, plain)
    | PqType.double ↦
        if mode == enc_byte_stream_split then split_streams 8 values else (values, plain)
    | _ ↦ (values, plain)
  ]
