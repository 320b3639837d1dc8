-- ===== src/Samples.antt =====
-- Concrete inputs, and the theorems applied to them.
mod Witnesses
mod Nested
mod Sessions
mod Captures
mod Objects
mod Batches
use nanoarrow2parquet.Common.{
  ℕ, ◌≡◌, refl, List, [], ◌∷◌, ◌++◌, Bool, true, false, Option, none, some, String, length,
}
use nanoarrow2parquet.Common.Int.{pos}
use nanoarrow2parquet.Bytes.{Bytes}
use nanoarrow2parquet.Bytes
use nanoarrow2parquet.Bitmap
use nanoarrow2parquet.Arrow.{
  ArrowArray, array, nil, cons, ArrowSchema, schema, no_schemas, and_schema,
}
use nanoarrow2parquet.Format
use nanoarrow2parquet.Schema
use nanoarrow2parquet.Shred
use nanoarrow2parquet.Plain
use nanoarrow2parquet.Pages
use nanoarrow2parquet.Pages.ByteArrays
use nanoarrow2parquet.Pages.Values
use nanoarrow2parquet.Writer.State
use nanoarrow2parquet.Writer.State.{N2PWriter}
use nanoarrow2parquet.Writer.Columns
use nanoarrow2parquet.Writer.Batch
use nanoarrow2parquet.Writer.Footer
use nanoarrow2parquet.Writer.Api
use nanoarrow2parquet.External.{External}

-- Encoders that are easy to follow: a level stream is its values behind the width, headers have two
-- bytes and the footer three, and the file takes every write.
abbrev pub plain_external : External
plain_external = record {
  rle_hybrid_encode = λ vs width. width ∷ vs;
  rle_bitmap_encode = λ bm n. bm;
  delta_prefix_encode = λ vs. some [];
  delta_binary_packed_encode = λ width vs. vs;
  byte_stream_split_encode = λ b width n. b;
  dictionary_indices = λ vs. [];
  dictionary_values = λ vs. vs;
  compute_stats = λ t b v n. none;
  compute_binary_stats = λ vs. none;
  encode_header = λ h capacity. some (21 ∷ 22 ∷ []);
  encode_footer = λ f. some (31 ∷ 32 ∷ 33 ∷ []);
  zstd_bound = λ n. n;
  zstd_compress = λ b capacity. some b;
  opens = λ path. true;
  accepts = λ old new. true;
  after_failure = λ old new. old;
  flushes = λ b. true;
}

-- A record batch with one nullable int32 column "x" of two rows, the second null.
abbrev pub batch_schema : ArrowSchema
batch_schema =
    schema (record { format = some "+s"; name = none; flags = 0 })
      (and_schema (schema (record { format = some "i"; name = some "x"; flags = 2 }) no_schemas)
        no_schemas)

abbrev pub column_x : ArrowArray
column_x =
    array
      (record {
        length = 2;
        null_count = pos 1;
        offset = 0;
        n_buffers = 2;
        buffers = some (some (1 ∷ []) ∷ some (7 ∷ 0 ∷ 0 ∷ 0 ∷ 9 ∷ 0 ∷ 0 ∷ 0 ∷ []) ∷ []);
      })
      nil

abbrev pub batch : ArrowArray
batch =
    array
      (record {
        length = 2;
        null_count = pos 0;
        offset = 0;
        n_buffers = 1;
        buffers = some (none ∷ []);
      })
      (cons column_x nil)

-- What a run of the writer computes with.
pub run : Unit {0}
unfolding Bytes.append_le Bytes.with_length_prefix Bytes.dictionary_bit_width Bytes.read_le
    Bitmap.bit_at Bitmap.set_bit Bitmap.zero_bitmap Bitmap.valid_bit Format.map_format Format.narrow
    Format.fixed_width Format.variable_width Format.fixed_binary Schema.make_leaf
    Schema.flatten_leaf Schema.flatten_node Schema.flatten_schema Shred.shred_rows
    Plain.build_plain_fixed Plain.build_plain_bool Pages.encode_definition_levels
    Pages.encode_definition_levels_bitmap Pages.compress_page Pages.page_size_i32
    Pages.encode_page_header Pages.data_page_header Pages.dictionary_page_header
    ByteArrays.build_byte_array_pages Values.fixed_stats Values.encode_fixed_values
    Columns.fixed_body Columns.validate_child Columns.write_leaf_pages State.emit_page
    Batch.write_one_batch Batch.write_leaves Footer.serialize_footer Api.n2p_writer_open
    Api.n2p_writer_set_codec Api.n2p_writer_close Api.n2p_writer_write_batch
run = tt

-- The writer after an open, and after the batch.
pub opened : N2PWriter
unfolding run
opened = (State.write_bytes plain_external Api.magic (Api.new_writer "f.parquet" true)).1

pub written : N2PWriter
unfolding run opened
written = (Batch.write_one_batch plain_external (some batch_schema) (some batch) opened).1

-- Magic, header, level prefix (length 1, bitmap), and the one value that is present.
written_bytes :
    written.out.bytes ≡ 80 ∷ 65 ∷ 82 ∷ 49 ∷ 21 ∷ 22 ∷ 1 ∷ 0 ∷ 0 ∷ 0 ∷ 1 ∷ 7 ∷ 0 ∷ 0 ∷ 0 ∷ []
unfolding written
written_bytes = refl
