-- ===== src/Pages.antt =====
-- What goes into a page: levels (src/rle_bitpack.hpp), compression (src/compress.hpp), the
-- encodings of fixed-width and byte-array values, statistics and page headers (src/writer.cpp).
pub mod ByteArrays
pub mod Sizes
pub mod Decoding
pub mod Values
use nanoarrow2parquet.Common.{
  ℕ, ◌+◌, ◌-◌, ◌^◌, List, Bool, false, ltb, Option, none, some, length, if◌then◌else◌,
}
use nanoarrow2parquet.Bytes.{Bytes, with_length_prefix}
use nanoarrow2parquet.External.{External}
use nanoarrow2parquet.External.Headers.{
  Encoding, plain, rle, CompressionCodec, zstd, uncompressed, PageHeader, data_page,
  dictionary_page,
}
use nanoarrow2parquet.Result.{Result, ok, err, ◌>>=◌, page_too_large, header_failed, zstd_failed}

-- The capacity of HeaderBytes.
abbrev header_capacity : ℕ
header_capacity = 128

-- A size beyond the wire's i32 throws.
unfoldable pub page_size_i32 : ℕ → Result ℕ
page_size_i32 n = if ltb (2 ^ 31 - 1) n then err page_too_large else ok n

module _ (ext : External) where
  unfoldable pub encode_definition_levels : List ℕ → ℕ → Result Bytes
  encode_definition_levels levels bit_width =
      with_length_prefix (ext.rle_hybrid_encode levels bit_width)

  unfoldable pub encode_definition_levels_bitmap : Bytes → ℕ → Result Bytes
  encode_definition_levels_bitmap present n = with_length_prefix (ext.rle_bitmap_encode present n)

  unfoldable pub compress_page : Bytes → CompressionCodec → Result Bytes
  compress_page src uncompressed = ok src
  compress_page src zstd = elim (ext.zstd_compress src (ext.zstd_bound (length src))) [
    | none ↦ err zstd_failed
    | some dst ↦ ok dst
  ]

  unfoldable pub encode_page_header : PageHeader → Result Bytes
  encode_page_header h = elim (ext.encode_header h header_capacity) [
    | none ↦ err header_failed
    | some b ↦ ok b
  ]

  unfoldable pub data_page_header : ℕ → Encoding → ℕ → ℕ → Result Bytes
  data_page_header num_values encoding uncompressed_size compressed_size = do
    values ← page_size_i32 num_values
    full ← page_size_i32 uncompressed_size
    packed ← page_size_i32 compressed_size
    encode_page_header (record {
      type = data_page;
      uncompressed_page_size = full;
      compressed_page_size = packed;
      data_page_header = some (record {
        num_values = values;
        encoding = encoding;
        definition_level_encoding = rle;
        repetition_level_encoding = rle;
      });
      dictionary_page_header = none;
    })

  unfoldable pub dictionary_page_header : ℕ → ℕ → ℕ → Result Bytes
  dictionary_page_header num_values uncompressed_size compressed_size = do
    values ← page_size_i32 num_values
    full ← page_size_i32 uncompressed_size
    packed ← page_size_i32 compressed_size
    encode_page_header (record {
      type = dictionary_page;
      uncompressed_page_size = full;
      compressed_page_size = packed;
      data_page_header = none;
      dictionary_page_header =
          some (record { num_values = values; encoding = plain; is_sorted = false });
    })
