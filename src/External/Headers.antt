-- ===== src/External/Headers.antt =====
-- The Parquet metadata that src/writer.cpp fills in: the members of nanom's Thrift structs that it
-- sets, and the per-chunk records that it keeps until the footer.
use nanoarrow2parquet.Common.{ℕ, Bool, List, Option, String}
use nanoarrow2parquet.Bytes.{Bytes}
use nanoarrow2parquet.Format.{PqType, ConvertedType}

pub data Encoding : Type 0 where
  plain rle rle_dictionary delta_binary_packed delta_byte_array byte_stream_split : Encoding

pub data CompressionCodec : Type 0 where
  zstd uncompressed : CompressionCodec

pub data PageType : Type 0 where
  data_page dictionary_page : PageType

pub record DataPageHeader : Type 0 where
  pub num_values : ℕ
  pub encoding : Encoding
  pub definition_level_encoding : Encoding
  pub repetition_level_encoding : Encoding

pub record DictionaryPageHeader : Type 0 where
  pub num_values : ℕ
  pub encoding : Encoding
  pub is_sorted : Bool

pub record PageHeader : Type 0 where
  pub type : PageType
  pub uncompressed_page_size : ℕ
  pub compressed_page_size : ℕ
  pub data_page_header : Option DataPageHeader
  pub dictionary_page_header : Option DictionaryPageHeader

-- `has_minmax`, `min_value` and `max_value` are one optional pair.
pub record ColumnChunkMeta : Type 0 where
  pub type : PqType
  pub encodings : List Encoding
  pub path : List String
  pub num_values : ℕ
  pub total_uncompressed : ℕ
  pub total_compressed : ℕ
  pub data_page_offset : ℕ
  pub dictionary_page_offset : ℕ
  pub has_dictionary : Bool
  pub file_offset : ℕ
  pub minmax : Option (Bytes × Bytes)
  pub null_count : ℕ

pub record RowGroupMeta : Type 0 where
  pub columns : List ColumnChunkMeta
  pub num_rows : ℕ
  pub total_byte_size : ℕ

pub data FieldRepetitionType : Type 0 where
  required optional repeated : FieldRepetitionType

pub data LogicalType : Type 0 where
  list_logical map_logical : LogicalType

pub record SchemaElement : Type 0 where
  pub type : Option PqType
  pub type_length : Option ℕ
  pub repetition_type : Option FieldRepetitionType
  pub name : String
  pub num_children : Option ℕ
  pub converted_type : Option ConvertedType
  pub logical_type : Option LogicalType

pub record Statistics : Type 0 where
  pub null_count : ℕ
  pub min_value : Option Bytes
  pub max_value : Option Bytes

pub record ColumnMetaData : Type 0 where
  pub type : PqType
  pub encodings : List Encoding
  pub path_in_schema : List String
  pub codec : CompressionCodec
  pub num_values : ℕ
  pub total_uncompressed_size : ℕ
  pub total_compressed_size : ℕ
  pub data_page_offset : ℕ
  pub dictionary_page_offset : Option ℕ
  pub statistics : Statistics

pub record ColumnChunk : Type 0 where
  pub file_offset : ℕ
  pub meta_data : ColumnMetaData

pub record RowGroup : Type 0 where
  pub columns : List ColumnChunk
  pub total_byte_size : ℕ
  pub num_rows : ℕ

-- `column_orders` is the number of TYPE_ORDER entries.
pub record FileMetaData : Type 0 where
  pub version : ℕ
  pub schema : List SchemaElement
  pub num_rows : ℕ
  pub row_groups : List RowGroup
  pub created_by : String
  pub column_orders : ℕ
