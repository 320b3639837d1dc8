-- ===== src/Samples/Witnesses.antt =====
-- The theorems at concrete inputs where their hypotheses hold.
use nanoarrow2parquet.Common.{
  ℕ, ◌+◌, ◌^◌, ◌<◌, ◌≤◌, ◌≡◌, inr, ◌||◌, ◌==◌, refl, arith, true, false, some, [], ◌∷◌, ◌++◌,
  length, All, drop,
}
use nanoarrow2parquet.Result.{ok}
use nanoarrow2parquet.Bytes.{Bytes, append_le, with_length_prefix, read_le, dictionary_bit_width}
use nanoarrow2parquet.Bytes.RoundTrip.{with_length_prefix_lem}
use nanoarrow2parquet.Bytes.Width.{dictionary_bit_width-least}
use nanoarrow2parquet.Bitmap.{bit_at, set_bit}
use nanoarrow2parquet.Bitmap.Laws.{bit_at-set_bit, nth_bit}
use nanoarrow2parquet.Format.{ColumnSpec, PqType, Extract, int_16}
use nanoarrow2parquet.Format.Layout.{Layout, map_format-Layout}
use nanoarrow2parquet.Writer.Consistency.{IsConsistent, StoredIn, write_one_batch-IsConsistent}
use nanoarrow2parquet.Writer.Close.{open-IsConsistent, close-Complete, tail_of}
use nanoarrow2parquet.Writer.Groups.{MoreChunks, write_leaves-Tiles}
use nanoarrow2parquet.Writer.Batch.{write_leaves, write_one_batch, start_group}
use nanoarrow2parquet.Writer.Rules.{After}
use nanoarrow2parquet.Writer.State.{Stream}
use nanoarrow2parquet.Writer.Footer.{serialize_footer}
use nanoarrow2parquet.Samples.{plain_external, batch_schema, batch, run, opened, written}
use nanoarrow2parquet.Common.Int.{signed}
use nanoarrow2parquet.Plain.{widened_word}
use nanoarrow2parquet.Plain.Widening.{narrow_value, signed-widened_word}
use nanoarrow2parquet.Pages.ByteArrays.{ByteArrayPages, pages_of, plain_total, enc_auto}
use nanoarrow2parquet.Pages.Sizes.{pages_of_auto}
use nanoarrow2parquet.External.Headers.{uncompressed}
use nanoarrow2parquet.Common.Int.{pos}
use nanoarrow2parquet.Writer.Codec.{Follows, set_codec-file_metadata}
use nanoarrow2parquet.Common.{none}
use nanoarrow2parquet.Schema.{LeafSpec}
use nanoarrow2parquet.Bitmap.{valid_bit}
use nanoarrow2parquet.Pages.{encode_definition_levels}
use nanoarrow2parquet.Writer.FlatLevels.{present_at, present_from, levels_from, leaf_levels-Rows}
use nanoarrow2parquet.Plain.{build_plain_fixed}
use nanoarrow2parquet.Plain.Gathering.{concat_map, value_bytes, valid_rows, build_plain_fixed-rows}
use nanoarrow2parquet.Pages.ByteArrays.{plain_pages}
use nanoarrow2parquet.Pages.Decoding.{read_values, plain_pages-read}
use nanoarrow2parquet.Samples.{column_x}
use nanoarrow2parquet.Soa.Columns.{numbers, present}
use nanoarrow2parquet.Soa.Masks.{absent_in, present_lem}
use nanoarrow2parquet.Plain.{build_plain_bool}
use nanoarrow2parquet.Plain.Booleans.{build_plain_bool-rows}
use nanoarrow2parquet.Common.{◌/◌}
use nanoarrow2parquet.Soa.Strings.{packed, kept_at, packed-value_at}
use nanoarrow2parquet.Arrow.{ArrayHead, buffer}
use nanoarrow2parquet.Common.{List, get_or}
use nanoarrow2parquet.Result.{N2PStatus}
use nanoarrow2parquet.Pages.ByteArrays.{value_at}

-- A nullable column of 16-bit integers.
abbrev shorts : ColumnSpec
shorts = record {
  name = "n";
  type = PqType.int32;
  extract = Extract.widen_int;
  converted = some int_16;
  type_length = 0;
  src_width = 2;
  sign_extend = true;
  large_offsets = false;
  nullable = true;
}

map_format-Layout_example :
    Layout shorts.extract shorts × (shorts.name ≡ "n") × (shorts.nullable ≡ true)
unfolding run
map_format-Layout_example = map_format-Layout (some "s") "n" true shorts refl

-- The leaf of the sample's column "x".
abbrev leaf_x : LeafSpec
leaf_x = record {
  col = record {
    name = "x";
    type = PqType.int32;
    extract = Extract.memcpy_fixed;
    converted = none;
    type_length = 0;
    src_width = 4;
    sign_extend = false;
    large_offsets = false;
    nullable = true;
  };
  path_idx = 0 ∷ [];
  path_names = "x" ∷ [];
  path_optional = true ∷ [];
  max_def_level = 1;
  def_bit_width = 1;
  has_list = false;
  steps = [];
  max_rep_level = 0;
  rep_bit_width = 0;
}

dictionary_bit_width-least_example :
    (5 ≤ 2 ^ dictionary_bit_width 5) × ((w : ℕ) → w < dictionary_bit_width 5 → 2 ^ w < 5)
dictionary_bit_width-least_example = dictionary_bit_width-least 5

with_length_prefix_lem_example :
    (with_length_prefix (9 ∷ []) ≡ ok (append_le [] 1 ++ 9 ∷ []))
    × (read_le 4 (append_le [] 1 ++ 9 ∷ []) 0 ≡ 1)
    × (drop 4 (append_le [] 1 ++ 9 ∷ []) ≡ 9 ∷ [])
with_length_prefix_lem_example = with_length_prefix_lem (9 ∷ []) (omega arith)

bit_at-set_bit_example : bit_at (set_bit (0 ∷ 4 ∷ []) 9) 10 ≡ (9 == 10 || bit_at (0 ∷ 4 ∷ []) 10)
bit_at-set_bit_example = bit_at-set_bit (0 ∷ 4 ∷ []) 9 10 (omega arith) (omega arith)

opened-IsConsistent : IsConsistent opened
unfolding opened
opened-IsConsistent = open-IsConsistent plain_external "f.parquet" opened refl

write_one_batch-IsConsistent_example :
    IsConsistent (write_one_batch plain_external (some batch_schema) (some batch) opened).1
write_one_batch-IsConsistent_example =
    write_one_batch-IsConsistent plain_external (some batch_schema) (some batch) opened
      opened-IsConsistent

written-IsConsistent : IsConsistent written
unfolding written
written-IsConsistent =
    write_one_batch-IsConsistent plain_external (some batch_schema) (some batch) opened
      opened-IsConsistent

write_leaves-Tiles_example :
    After opened
      (MoreChunks opened.offset written.leaves (start_group 2))
      (write_leaves plain_external written.leaves batch (start_group 2) opened)
write_leaves-Tiles_example =
    write_leaves-Tiles plain_external written.leaves batch (start_group 2) opened

closed : Stream
closed = record {
  is_open = false;
  good = true;
  bytes = written.out.bytes ++ tail_of (31 ∷ 32 ∷ 33 ∷ []);
}

close-Complete_example :
    (footer : Bytes) × (serialize_footer plain_external written ≡ ok footer)
    × (closed.bytes ≡ written.out.bytes ++ tail_of footer)
    × (read_le 4 closed.bytes (length written.out.bytes + length footer) ≡ length footer)
    × All (StoredIn written.leaves closed.bytes) written.row_groups
unfolding closed written
close-Complete_example =
    close-Complete plain_external written closed written-IsConsistent refl refl refl

pages_of_auto_example :
    (p : ByteArrayPages) × (pages_of plain_external ((1 ∷ []) ∷ []) enc_auto ≡ ok p)
    × (length p.dict_body + length p.data_body ≤ plain_total ((1 ∷ []) ∷ []))
    × (p.use_dictionary ≡ false → length p.data_body ≡ plain_total ((1 ∷ []) ∷ []))
pages_of_auto_example = pages_of_auto plain_external ((1 ∷ []) ∷ [])

signed-widened_word_example :
    signed 32 (widened_word shorts (255 ∷ 255 ∷ []) 0) ≡ narrow_value true 2 (255 ∷ 255 ∷ []) 0
signed-widened_word_example =
    signed-widened_word shorts (255 ∷ 255 ∷ []) 0 (inr refl) (omega arith, (omega arith, tt))

set_codec-file_metadata_example :
    ((record written { codec = uncompressed }).row_groups ≡ written.row_groups)
    × ((record written { codec = uncompressed }).out.bytes ≡ written.out.bytes)
    × Follows written (record written { codec = uncompressed }) 1 N2PStatus.ok
unfolding run
set_codec-file_metadata_example =
    set_codec-file_metadata written (record written { codec = uncompressed }) 1 N2PStatus.ok refl

leaf_levels-Rows_example :
    ((j : ℕ)
      → j < 2
      → valid_bit (some (1 ∷ [])) j ≡ present_at false (column_x ∷ []) (true ∷ []) 1 j)
    × (1 + present_from false (column_x ∷ []) (true ∷ []) 1 2 0 ≡ 2)
    × (1 < 1
        → encode_definition_levels plain_external
            (levels_from false (column_x ∷ []) (true ∷ []) 1 2 0)
            1
          ≡ ok (1 ∷ 0 ∷ 0 ∷ 0 ∷ 1 ∷ []))
unfolding run
leaf_levels-Rows_example =
    leaf_levels-Rows plain_external leaf_x (column_x ∷ []) 2 1 (1 ∷ 0 ∷ 0 ∷ 0 ∷ 1 ∷ [])
      (some (1 ∷ [])) (omega arith) (refl, tt) refl

build_plain_fixed-rows_example :
    build_plain_fixed 2 (7 ∷ 0 ∷ 9 ∷ 0 ∷ []) shorts (some (2 ∷ []))
    ≡ concat_map (value_bytes shorts (7 ∷ 0 ∷ 9 ∷ 0 ∷ [])) (valid_rows (some (2 ∷ [])) 2 0)
build_plain_fixed-rows_example =
    build_plain_fixed-rows 2 (7 ∷ 0 ∷ 9 ∷ 0 ∷ []) shorts (some (2 ∷ []))

plain_pages-read_example :
    read_values 2 (plain_pages ((1 ∷ 2 ∷ []) ∷ [] ∷ []) none).data_body
    ≡ ((1 ∷ 2 ∷ []) ∷ [] ∷ [], [])
plain_pages-read_example =
    plain_pages-read ((1 ∷ 2 ∷ []) ∷ [] ∷ []) none (omega arith, (omega arith, tt))

-- A mask over three values, the second absent.
present_example :
    let c = present (numbers (1 ∷ 2 ∷ 3 ∷ []) 3) (true ∷ false ∷ true ∷ []) in
    ((j : ℕ) → j < 3 → valid_bit c.validity j ≡ nth_bit (true ∷ false ∷ true ∷ []) j)
    × (c.null_count ≡ absent_in (true ∷ false ∷ true ∷ []) 3)
    × (c.values ≡ numbers (1 ∷ 2 ∷ 3 ∷ []) 3)
present_example = present_lem (numbers (1 ∷ 2 ∷ 3 ∷ []) 3) (true ∷ false ∷ true ∷ [])

-- Three strings, the second absent.
abbrev letters : List Bytes
letters = (97 ∷ 98 ∷ []) ∷ (120 ∷ []) ∷ (99 ∷ []) ∷ []

packed-value_at_example :
    (off : Bytes) × (dat : Bytes) × (packed false (some (5 ∷ [])) letters 3 ≡ some (off, dat))
    × ((h : ArrayHead) (k : ℕ)
        → buffer h 1 ≡ some off
        → buffer h 2 ≡ some dat
        → k < 3
        → value_at shorts h k ≡ kept_at (some (5 ∷ [])) k (get_or letters k []))
unfolding run
packed-value_at_example = packed-value_at shorts (some (5 ∷ [])) letters 3 refl (omega arith)

-- Three booleans, the first null.
build_plain_bool-rows_example :
    let rows = valid_rows (some (6 ∷ [])) 3 0 in
    let body = build_plain_bool 3 (5 ∷ []) (some (6 ∷ [])) in
    (length body ≡ (length rows + 7) / 8)
    × ((k : ℕ) → k < length rows → bit_at body k ≡ bit_at (5 ∷ []) (get_or rows k 0))
build_plain_bool-rows_example = build_plain_bool-rows 3 (5 ∷ []) (some (6 ∷ [])) (omega arith)

-- The same booleans as a column's page.
abbrev flags_column : ColumnSpec
flags_column = record shorts { type = PqType.boolean; extract = Extract.bool; src_width = 0 }

abbrev flags_array : ArrayHead
flags_array = record {
  length = 3;
  null_count = pos 1;
  offset = 0;
  n_buffers = 2;
  buffers = some (some (6 ∷ []) ∷ some (5 ∷ []) ∷ []);
}
