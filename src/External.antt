-- ===== src/External.antt =====
-- What the writer calls and does not implement: nanom's columnar encoders, statistics and Thrift
-- encoder, zstd, and the file behind a std::ofstream. They are parameters of the model.
pub mod Headers
use nanoarrow2parquet.Common.{ℕ, Bool, List, Option, String}
use nanoarrow2parquet.Bytes.{Bytes}
use Headers.{PageHeader, FileMetaData}

-- The element types that nanom::columnar::compute_stats is instantiated at.
pub data NumberType : Type 0 where
  i8 u8 i16 u16 i32 u32 i64 u64 f32 f64 : NumberType

pub record External : Type 0 where
  -- nanom::columnar: the hybrid encoders, on values and a bit width, and on a bitmap and a count
  pub rle_hybrid_encode : List ℕ → ℕ → Bytes
  pub rle_bitmap_encode : Bytes → ℕ → Bytes
  -- `delta_prefix_encode` fails on a string that is too long
  pub delta_prefix_encode : List Bytes → Option Bytes
  -- on words of the given number of bytes, and on a body, the width and the count
  pub delta_binary_packed_encode : ℕ → List ℕ → Bytes
  pub byte_stream_split_encode : Bytes → ℕ → ℕ → Bytes
  -- string_dictionary: `index_of` on each value in order, then `values()`
  pub dictionary_indices : List Bytes → List ℕ
  pub dictionary_values : List Bytes → List Bytes
  -- min and max, as bit patterns, if there is a value to report
  pub compute_stats : NumberType → Bytes → Option Bytes → ℕ → Option (ℕ × ℕ)
  pub compute_binary_stats : List Bytes → Option (Bytes × Bytes)
  -- nanom::thrift_compact_encode, into a buffer of the given capacity and into a growing one
  pub encode_header : PageHeader → ℕ → Option Bytes
  pub encode_footer : FileMetaData → Option Bytes
  -- ZSTD_compressBound, and ZSTD_compress into a buffer of the given capacity
  pub zstd_bound : ℕ → ℕ
  pub zstd_compress : Bytes → ℕ → Option Bytes
  -- the file: whether it opens, whether a write to the file as it stands succeeds, what a failed
  -- write leaves, and whether a flush succeeds
  pub opens : String → Bool
  pub accepts : Bytes → Bytes → Bool
  pub after_failure : Bytes → Bytes → Bytes
  pub flushes : Bytes → Bool
