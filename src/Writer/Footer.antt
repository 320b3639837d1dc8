-- ===== src/Writer/Footer.antt =====
-- The footer of src/writer.cpp: `schema_element` and `serialize_footer`.
use nanoarrow2parquet.Common.{
  ℕ, ◌∷◌, true, false, ◌||◌, Option, none, some, length, map, if◌then◌else◌,
}
use nanoarrow2parquet.Bytes.{Bytes}
use nanoarrow2parquet.Format.{PqType, ConvertedType}
use nanoarrow2parquet.Schema.{SchemaNode}
use nanoarrow2parquet.External.{External}
use nanoarrow2parquet.External.Headers.{
  SchemaElement, FieldRepetitionType, list_logical, map_logical, CompressionCodec, ColumnChunkMeta,
  RowGroupMeta, ColumnChunk, RowGroup, FileMetaData,
}
use nanoarrow2parquet.Writer.State.{N2PWriter}
use nanoarrow2parquet.Result.{Result, ok, err, footer_failed}

unfoldable pub repetition_of : SchemaNode → FieldRepetitionType
repetition_of s =
    if s.repeated
    then FieldRepetitionType.repeated
    else if s.optional
    then FieldRepetitionType.optional
    else FieldRepetitionType.required

abbrev fixed_length : PqType → ℕ → Option ℕ
fixed_length PqType.fixed_len_byte_array n = some n
fixed_length _ n = none

unfoldable pub schema_element : SchemaNode → SchemaElement
unfolding repetition_of
schema_element s = elim s.is_group [
  | true ↦ record {
    type = none;
    type_length = none;
    repetition_type = some (repetition_of s);
    name = s.name;
    num_children = some s.num_children;
    converted_type =
        if s.list_group || s.map_group
        then some (if s.list_group then ConvertedType.list_type else ConvertedType.map_type)
        else none;
    logical_type =
        if s.list_group || s.map_group
        then some (if s.list_group then list_logical else map_logical)
        else none;
  }
  | false ↦ record {
    type = some s.type;
    type_length = fixed_length s.type s.type_length;
    repetition_type = some (repetition_of s);
    name = s.name;
    num_children = none;
    converted_type = s.converted;
    logical_type = none;
  }
]

-- The root element has a name and a number of children only.
abbrev pub root_element : ℕ → SchemaElement
root_element n = record {
  type = none;
  type_length = none;
  repetition_type = none;
  name = "schema";
  num_children = some n;
  converted_type = none;
  logical_type = none;
}

abbrev first_of_pair : Option (Bytes × Bytes) → Option Bytes
first_of_pair none = none
first_of_pair (some (lo, hi)) = some lo

abbrev second_of_pair : Option (Bytes × Bytes) → Option Bytes
second_of_pair none = none
second_of_pair (some (lo, hi)) = some hi

-- Every chunk is listed with the codec that the writer has at the end.
unfoldable pub column_chunk : CompressionCodec → ColumnChunkMeta → ColumnChunk
column_chunk codec c = record {
  file_offset = c.file_offset;
  meta_data = record {
    type = c.type;
    encodings = c.encodings;
    path_in_schema = c.path;
    codec = codec;
    num_values = c.num_values;
    total_uncompressed_size = c.total_uncompressed;
    total_compressed_size = c.total_compressed;
    data_page_offset = c.data_page_offset;
    dictionary_page_offset = if c.has_dictionary then some c.dictionary_page_offset else none;
    statistics = record {
      null_count = c.null_count;
      min_value = first_of_pair c.minmax;
      max_value = second_of_pair c.minmax;
    };
  };
}

unfoldable pub row_group : CompressionCodec → RowGroupMeta → RowGroup
unfolding column_chunk
row_group codec rg = record {
  columns = map (column_chunk codec) rg.columns;
  total_byte_size = rg.total_byte_size;
  num_rows = rg.num_rows;
}

-- The FileMetaData that `serialize_footer` builds.
unfoldable pub file_metadata : N2PWriter → FileMetaData
unfolding schema_element row_group
file_metadata w = record {
  version = 1;
  schema = root_element w.top_children ∷ map schema_element w.schema_nodes;
  num_rows = w.total_rows;
  row_groups = map (row_group w.codec) w.row_groups;
  created_by = "nanoarrow2parquet";
  column_orders = length w.leaves;
}

module _ (ext : External) where
  unfoldable pub serialize_footer : N2PWriter → Result Bytes
  unfolding file_metadata
  serialize_footer w = elim (ext.encode_footer (file_metadata w)) [
    | none ↦ err footer_failed
    | some b ↦ ok b
  ]
