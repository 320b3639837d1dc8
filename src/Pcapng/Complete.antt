-- ===== src/Pcapng/Complete.antt =====
-- What a successful run of the converter leaves (`Converter::run` of
-- examples/pcapng2parquet/src/pcapng2parquet_main.cpp).
use Prim.Native.String.{◌++◌ as str_append}
use nanoarrow2parquet.Common.{ℕ, ◌≡◌, Option, none, some, String, List, ◌++◌, length, All}
use nanoarrow2parquet.Bytes.{Bytes}
use nanoarrow2parquet.Arrow.{ArrowSchema}
use nanoarrow2parquet.External.{External}
use nanoarrow2parquet.Result.{N2PStatus, ok}
use nanoarrow2parquet.Writer.State.{N2PWriter, Stream}
use nanoarrow2parquet.Writer.Footer.{serialize_footer}
use nanoarrow2parquet.Writer.Api.{n2p_writer_open}
use nanoarrow2parquet.Writer.Consistency.{StoredIn}
use nanoarrow2parquet.Writer.Close.{tail_of}
use nanoarrow2parquet.Pcapng.Args.{Args}
use nanoarrow2parquet.Pcapng.Blocks.{PacketRow, Capture}
use nanoarrow2parquet.Pcapng.Convert.{Converter}
use nanoarrow2parquet.Pcapng.Tables.{TableSource}
use nanoarrow2parquet.Pcapng.Run.{Exit, new_converter}
use nanoarrow2parquet.Pcapng.Slices.{ids, count_up, kept_before}
use nanoarrow2parquet.Pcapng.Delivery.{Reads}
use nanoarrow2parquet.Pcapng.Packets.{Windows, Over}

module _ {S : Type 0} (read : S → ℕ → Bytes × S) (rest : S → Bytes) (reads : Reads read rest)
    {R St D L : Type 0} (cap : Capture R St D L) (ext : External) (a : Args) where
  abbrev Opened : String → Type 0
  Opened path = (w : N2PWriter) × (n2p_writer_open ext (some path) ≡ (N2PStatus.ok, some w))

  module _ {K : Type 0} (src : TableSource K D L) where
    -- The packets file of a run on the source `s`: complete, with every row group where the footer says,
    -- and its rows are those of the scan of the source's bytes, window behind window from their front on,
    -- until the count is reached, the bytes end or no block in what is left is complete. The rows have
    -- the numbers from `drop` on.
    pub record PacketsFile (s : S) (exit : Exit) : Type 0 where
      pub opened : N2PWriter
      pub engine : Option L
      pub sc : ArrowSchema
      pub last : Converter St D L
      pub rows : List PacketRow
      pub base : ℕ
      pub windows :
          Windows cap ext a (rest s) (new_converter read cap ext a sc opened engine) rows base last
      pub over : Over cap ext a (rest s) base last
      pub file : Stream
      pub footer : Bytes
      pub closed : exit.packets ≡ some file
      pub described : serialize_footer ext last.pkt_writer ≡ ok footer
      pub ends : file.bytes ≡ last.pkt_writer.out.bytes ++ tail_of footer
      pub stored : All (StoredIn last.pkt_writer.leaves file.bytes) last.pkt_writer.row_groups
      pub counted : last.pkt_writer.total_rows ≡ length rows
      pub numbered : ids rows ≡ count_up a.drop (length rows)
      pub kept : length rows ≡ kept_before a last.global_pid

    -- The packets file is the one at hand.
    abbrev Has : Option Stream → Option Exit → Type 0
    Has out none = Unit {0}
    Has out (some exit) = exit.packets ≡ out
