-- ===== src/Samples/Sessions.antt =====
-- The theorems on the C interface at a run of the writer.
use nanoarrow2parquet.Common.{◌+◌, ◌≡◌, refl, true, false, some, [], ◌∷◌, ◌++◌, length, All}
use nanoarrow2parquet.Bytes.{Bytes, read_le}
use nanoarrow2parquet.Result.{N2PStatus, Reason, ok}
use nanoarrow2parquet.Writer.State.{Stream}
use nanoarrow2parquet.Writer.Footer.{serialize_footer}
use nanoarrow2parquet.Writer.Consistency.{StoredIn}
use nanoarrow2parquet.Writer.Close.{tail_of}
use nanoarrow2parquet.Writer.Api
use nanoarrow2parquet.Writer.Files.{FileOf, n2p_write_file-FileOf}
use nanoarrow2parquet.Writer.Outcome.{Added, write_batch-Returned}
use nanoarrow2parquet.Writer.Session.{here, followed_by, batch_written, session-Complete}
use nanoarrow2parquet.Samples.{plain_external, batch_schema, batch, run, opened, written}

finished : Stream
finished = record {
  is_open = false;
  good = true;
  bytes = written.out.bytes ++ tail_of (31 ∷ 32 ∷ 33 ∷ []);
}

write_batch-Returned_example : Added opened 2 written
unfolding run opened written
write_batch-Returned_example =
    write_batch-Returned plain_external opened written (some batch_schema) (some batch) N2PStatus.ok
      refl

session-Complete_example :
    (footer : Bytes) × (serialize_footer plain_external written ≡ ok footer)
    × (finished.bytes ≡ written.out.bytes ++ tail_of footer)
    × (read_le 4 finished.bytes (length written.out.bytes + length footer) ≡ length footer)
    × All (StoredIn written.leaves finished.bytes) written.row_groups
unfolding run opened written finished
session-Complete_example =
    session-Complete plain_external "f.parquet" opened written finished refl
      (followed_by (batch_written (some batch_schema) (some batch) N2PStatus.ok refl) here) refl

n2p_write_file-FileOf_example :
    FileOf plain_external "f.parquet" (some batch_schema) batch (some finished)
unfolding run opened written finished Api.n2p_write_file Api.after_open Api.after_write
n2p_write_file-FileOf_example =
    n2p_write_file-FileOf plain_external "f.parquet" (some batch_schema) batch Reason.none
      (some finished) refl
