-- ===== src/Writer/Columns.antt =====
-- One column chunk (src/writer.cpp): `validate_child`, `write_leaf_pages`, `write_list_leaf`.
use nanoarrow2parquet.Common.{
  ℕ, ◌+◌, List, [], ◌∷◌, ◌++◌, Bool, true, false, not, ◌==◌, ◌&&◌, ltb, Option, none, some, length,
  if◌then◌else◌,
}
use nanoarrow2parquet.Common.Int.{is_positive}
use nanoarrow2parquet.Bytes.{Bytes}
use nanoarrow2parquet.Arrow.{ArrayHead, ArrowArray, head, buffer}
use nanoarrow2parquet.Plain.{build_plain_bool, build_plain_fixed, contents}
use nanoarrow2parquet.Format.{ColumnSpec, Extract}
use nanoarrow2parquet.Schema.{LeafSpec}
use nanoarrow2parquet.Pages.{compress_page, data_page_header, dictionary_page_header}
use nanoarrow2parquet.Pages.ByteArrays.{ByteArrayPages, build_byte_array_pages}
use nanoarrow2parquet.Pages.Values.{fixed_stats, encode_fixed_values}
use nanoarrow2parquet.External.{External}
use nanoarrow2parquet.External.Headers.{Encoding, plain, rle, rle_dictionary, ColumnChunkMeta}
use nanoarrow2parquet.Writer.State.{Action, ◌>>=◌, pure, gets, throwing, emit_page}
use nanoarrow2parquet.Result.{
  Result, ok, err, length_mismatch, nonzero_offset, contains_nulls, missing_buffers,
}

abbrev buffers_needed : Extract → ℕ
buffers_needed Extract.byte_array = 3
buffers_needed _ = 2

abbrev pub is_null_type : Extract → Bool
is_null_type Extract.null = true
is_null_type _ = false

unfoldable pub validate_child : ArrowArray → ColumnSpec → ℕ → Result (Unit {0})
validate_child child s expected_rows =
    if not ((head child).length == expected_rows)
    then err (length_mismatch s.name)
    else if not ((head child).offset == 0)
    then err (nonzero_offset s.name)
    else if is_positive (head child).null_count && not s.nullable
    then err (contains_nulls s.name)
    else if is_null_type s.extract
    then ok tt
    else if ltb (head child).n_buffers (buffers_needed s.extract)
    then err (missing_buffers s.name)
    else elim (head child).buffers [ none ↦ err (missing_buffers s.name) | some bs ↦ ok tt ]

-- A chunk record before its pages are written.
abbrev pub new_chunk : LeafSpec → ℕ → ℕ → ColumnChunkMeta
new_chunk leaf num_values file_offset = record {
  type = leaf.col.type;
  encodings = [];
  path = leaf.path_names;
  num_values = num_values;
  total_uncompressed = 0;
  total_compressed = 0;
  data_page_offset = 0;
  dictionary_page_offset = 0;
  has_dictionary = false;
  file_offset = file_offset;
  minmax = none;
  null_count = 0;
}

abbrev pub with_levels : List Encoding → Bool → List Encoding
with_levels encodings has_levels = if has_levels then encodings ++ (rle ∷ []) else encodings

-- The chunk's min and max are set where there are any.
abbrev pub set_minmax : Option (Bytes × Bytes) → ColumnChunkMeta → ColumnChunkMeta
set_minmax none c = c
set_minmax (some m) c = record c { minmax = some m }

abbrev pub is_byte_array : Extract → Bool
is_byte_array Extract.byte_array = true
is_byte_array _ = false

module _ (ext : External) where
  -- The data page that each branch of `write_leaf_pages` ends with: compress, make the header, note
  -- the offset, emit. The totals add to those that a dictionary page has brought.
  unfoldable pub write_data_page : ColumnChunkMeta → Bytes → Encoding → ℕ → Action ColumnChunkMeta
  write_data_page c body encoding num_levels = do
    codec ← gets (λ w. w.codec)
    comp ← throwing (compress_page ext body codec)
    hdr ← throwing (data_page_header ext num_levels encoding (length body) (length comp))
    at ← gets (λ w. w.offset)
    (on_disk, full) ← emit_page ext hdr comp (length body)
    pure (record c {
      total_uncompressed = c.total_uncompressed + full;
      total_compressed = c.total_compressed + on_disk;
      data_page_offset = at;
    })

  unfoldable pub write_dictionary_page : ColumnChunkMeta → ByteArrayPages → Action ColumnChunkMeta
  write_dictionary_page c pages = do
    codec ← gets (λ w. w.codec)
    comp ← throwing (compress_page ext pages.dict_body codec)
    hdr ←
        throwing (dictionary_page_header ext pages.dict_size (length pages.dict_body) (length comp))
    at ← gets (λ w. w.offset)
    (on_disk, full) ← emit_page ext hdr comp (length pages.dict_body)
    pure (record c {
      total_uncompressed = full;
      total_compressed = on_disk;
      dictionary_page_offset = at;
      has_dictionary = true;
    })

  unfoldable pub write_byte_array_pages :
      ColumnChunkMeta → ByteArrayPages → Bytes → ℕ → Bool → Action ColumnChunkMeta
  unfolding write_data_page write_dictionary_page
  write_byte_array_pages c pages level_prefix num_levels has_levels =
      if pages.use_dictionary
      then (do
        c1 ← write_dictionary_page c pages
        c2 ← write_data_page c1 (level_prefix ++ pages.data_body) rle_dictionary num_levels
        pure (record c2 { encodings = with_levels (plain ∷ rle_dictionary ∷ []) has_levels }))
      else (do
        c2 ← write_data_page c (level_prefix ++ pages.data_body) pages.data_encoding num_levels
        pure (record c2 { encodings = with_levels (pages.data_encoding ∷ []) has_levels }))

  -- The value bytes of a column that is no byte array, and their encoding.
  unfoldable pub fixed_body : ArrayHead → ColumnSpec → Option Bytes → ℕ → Bytes × Encoding
  fixed_body h s validity mode = elim s.extract [
    | Extract.bool ↦ (build_plain_bool h.length (contents (buffer h 1)) validity, plain)
    | Extract.null ↦ ([], plain)
    | _ ↦
        encode_fixed_values ext (build_plain_fixed h.length (contents (buffer h 1)) s validity) s
          mode
  ]

  unfoldable pub write_leaf_pages :
      ArrowArray
      → ColumnSpec
      → Option Bytes
      → Bytes
      → ℕ
      → Bool
      → ColumnChunkMeta
      → Action ColumnChunkMeta
  unfolding write_byte_array_pages
  write_leaf_pages arr s validity level_prefix num_levels has_levels c = do
    mode ← gets (λ w. w.encoding)
    if is_byte_array s.extract
        then (do
          pages ← throwing (build_byte_array_pages ext (head arr) s validity mode)
          write_byte_array_pages (set_minmax pages.stats c) pages level_prefix num_levels
              has_levels)
        else (let values = fixed_body (head arr) s validity mode in
            do
              c2 ←
                  write_data_page (set_minmax (fixed_stats ext (head arr) s validity) c)
                    (level_prefix ++ values.0) values.1 num_levels
              pure (record c2 { encodings = with_levels (values.1 ∷ []) has_levels }))
