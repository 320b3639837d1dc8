-- ===== src/Pages/ByteArrays.antt =====
-- String and binary columns (`build_byte_array_pages` of src/writer.cpp): PLAIN, front coding, or a
-- dictionary where that is smaller.
use nanoarrow2parquet.Common.{
  ℕ, zero, suc, ◌+◌, ◌-◌, ◌*◌, ◌%◌, List, [], ◌∷◌, ◌++◌, Bool, true, false, ◌==◌, ltb, Option, none,
  some, length, if◌then◌else◌,
}
use nanoarrow2parquet.Common.Int.{ℤ, pos, negsuc, signed}
use nanoarrow2parquet.Bytes.{Bytes, append_le, append_bytes, dictionary_bit_width, read_le}
use nanoarrow2parquet.Bitmap.{valid_bit}
use nanoarrow2parquet.Arrow.{ArrayHead, buffer}
use nanoarrow2parquet.Plain.{slice, contents}
use nanoarrow2parquet.Format.{ColumnSpec}
use nanoarrow2parquet.External.{External}
use nanoarrow2parquet.External.Headers.{Encoding, plain, rle_dictionary, delta_byte_array}
use nanoarrow2parquet.Result.{Result, ok, err, string_too_long}

-- kEncAuto, kEncPlain, kEncDelta, kEncByteStreamSplit
abbrev pub enc_auto : ℕ
enc_auto = 0

abbrev pub enc_plain : ℕ
enc_plain = 1

abbrev pub enc_delta : ℕ
enc_delta = 2

abbrev pub enc_byte_stream_split : ℕ
enc_byte_stream_split = 3

pub record ByteArrayPages : Type 0 where
  pub use_dictionary : Bool
  pub data_encoding : Encoding
  pub dict_body : Bytes
  pub data_body : Bytes
  pub dict_size : ℕ
  pub stats : Option (Bytes × Bytes)

-- A negative offset, which Arrow forbids, would be an undefined read; the model takes 0.
abbrev not_negative : ℤ → ℕ
not_negative (pos n) = n
not_negative (negsuc n) = 0

abbrev pub binary_offset : Bool → Bytes → ℕ → ℕ
binary_offset true off i = not_negative (signed 64 (read_le 8 off (8 * i)))
binary_offset false off i = not_negative (signed 32 (read_le 4 off (4 * i)))

unfoldable pub value_at : ColumnSpec → ArrayHead → ℕ → Bytes
value_at s h i =
    let start = binary_offset s.large_offsets (contents (buffer h 1)) i in
    slice (contents (buffer h 2)) start
      (binary_offset s.large_offsets (contents (buffer h 1)) (i + 1) - start)

-- The loop that collects `value i` at each valid position from `i` on.
unfoldable pub present_values : (ℕ → Bytes) → Option Bytes → ℕ → ℕ → List Bytes
present_values value validity zero i = []
present_values value validity (suc n) i =
    let rest = present_values value validity n (i + 1) in
    if valid_bit validity i then value i ∷ rest else rest

abbrev pub total_size : List Bytes → ℕ
total_size [] = 0
total_size (v ∷ vs) = length v + total_size vs

-- The loop that appends each value behind its length.
unfoldable pub append_values : Bytes → List Bytes → Bytes
append_values body [] = body
append_values body (v ∷ vs) = append_values (append_le body (length v) ++ v) vs

-- The local function `plain_body`.
unfoldable pub plain_pages : List Bytes → Option (Bytes × Bytes) → ByteArrayPages
plain_pages present stats = record {
  use_dictionary = false;
  data_encoding = plain;
  dict_body = [];
  data_body = append_values [] present;
  dict_size = 0;
  stats = stats;
}

unfoldable pub plain_total : List Bytes → ℕ
plain_total present = 4 * length present + total_size present

module _ (ext : External) where
  unfoldable pub encode_rle_dictionary_indices : List ℕ → ℕ → Bytes
  unfolding append_bytes
  encode_rle_dictionary_indices indices bit_width =
      append_bytes [] (ext.rle_hybrid_encode indices bit_width)

  unfoldable pub index_stream : List Bytes → Bytes
  index_stream present =
      encode_rle_dictionary_indices (ext.dictionary_indices present)
        (dictionary_bit_width (length (ext.dictionary_values present)))

  unfoldable pub dict_total : List Bytes → ℕ
  dict_total present =
      4 * length (ext.dictionary_values present)
      + total_size (ext.dictionary_values present)
      + 1
      + length (index_stream present)

  unfoldable pub dictionary_pages : List Bytes → ByteArrayPages
  dictionary_pages present = record {
    use_dictionary = true;
    data_encoding = rle_dictionary;
    dict_body = append_values [] (ext.dictionary_values present);
    data_body =
        dictionary_bit_width (length (ext.dictionary_values present)) % 256 ∷ index_stream present;
    dict_size = length (ext.dictionary_values present);
    stats = ext.compute_binary_stats (ext.dictionary_values present);
  }

  delta_pages : List Bytes → Result ByteArrayPages
  delta_pages present = elim (ext.delta_prefix_encode present) [
    | none ↦ err string_too_long
    | some enc ↦ ok (record (plain_pages present (ext.compute_binary_stats present)) {
      data_encoding = delta_byte_array;
      data_body = append_bytes [] enc;
    })
  ]

  -- The pages of the present values, in the given encoding mode.
  unfoldable pub pages_of : List Bytes → ℕ → Result ByteArrayPages
  unfolding dictionary_pages delta_pages plain_pages
  pages_of present mode =
      if mode == enc_plain
      then ok (plain_pages present (ext.compute_binary_stats present))
      else if mode == enc_delta
      then delta_pages present
      else if ltb (plain_total present) (dict_total present)
      then ok (plain_pages present (ext.compute_binary_stats (ext.dictionary_values present)))
      else ok (dictionary_pages present)

  unfoldable pub build_byte_array_pages :
      ArrayHead → ColumnSpec → Option Bytes → ℕ → Result ByteArrayPages
  unfolding pages_of
  build_byte_array_pages h s validity mode =
      pages_of (present_values (value_at s h) validity h.length 0) mode
