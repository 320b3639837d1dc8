-- ===== src/Writer/Bodies.antt =====
-- The value bytes of a data page of fixed-width or boolean values (`write_leaf_pages` of
-- src/writer.cpp), row by row.
use nanoarrow2parquet.Common.{ℕ, ◌+◌, ◌/◌, ◌<◌, ◌≡◌, Option, length, get_or}
use nanoarrow2parquet.Bytes.{Bytes}
use nanoarrow2parquet.Bitmap.{bit_at}
use nanoarrow2parquet.Arrow.{ArrayHead, buffer}
use nanoarrow2parquet.Format.{Extract, ColumnSpec}
use nanoarrow2parquet.External.{External}
use nanoarrow2parquet.Plain.{contents}
use nanoarrow2parquet.Plain.Gathering.{concat_map, valid_rows, value_bytes}

module _ (ext : External) where
  -- What the body of a page of `h.length` rows holds: for booleans a bit for each valid row, that of
  -- the values buffer; for fixed-width values the bytes of each valid row's value; in the order of the
  -- rows. A null column has no values, and byte arrays have other pages.
  abbrev pub HoldsRows : Extract → ArrayHead → ColumnSpec → Option Bytes → Bytes → Type 0
  HoldsRows Extract.bool h s validity body =
      let rows = valid_rows validity h.length 0 in
      (length body ≡ (length rows + 7) / 8)
      × ((k : ℕ)
          → k < length rows
          → bit_at body k ≡ bit_at (contents (buffer h 1)) (get_or rows k 0))
  HoldsRows Extract.null h s validity body = length body ≡ 0
  HoldsRows Extract.byte_array h s validity body = Unit {0}
  HoldsRows _ h s validity body =
      body ≡ concat_map (value_bytes s (contents (buffer h 1))) (valid_rows validity h.length 0)
