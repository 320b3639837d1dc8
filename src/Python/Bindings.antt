-- ===== src/Python/Bindings.antt =====
-- The writer's Python functions and class ParquetWriter (bindings/python/src/n2p_bindings.cpp).
use nanoarrow2parquet.Common.{
  ℕ, ◌+◌, false, ◌==◌, ◌||◌, Option, none, some, String, str_eq, List, [], ◌∷◌, if◌then◌else◌,
}
use nanoarrow2parquet.Arrow.{ArrowArray, ArrowSchema, head}
use nanoarrow2parquet.External.{External}
use nanoarrow2parquet.Result.{N2PStatus, Reason}
use nanoarrow2parquet.Writer.State.{N2PWriter, Stream}
use nanoarrow2parquet.Writer.Api.{
  n2p_writer_open, n2p_writer_set_codec, n2p_writer_write_batch, n2p_writer_close, n2p_write_file,
}
use nanoarrow2parquet.Python.Capsule.{
  Py, returned, raised, PyError, unknown_codec, empty_input, writer_closed, nothing_written,
  n2p_failed, Interpreter, BatchStream, BatchIterator, Handed, next, open_stream, import_batch,
}

-- N2P_CODEC_ZSTD is 0, N2P_CODEC_UNCOMPRESSED is 1.
unfoldable pub parse_codec : String → Py ℕ
parse_codec codec =
    if str_eq codec "zstd" || str_eq codec "ZSTD"
    then returned 0
    else if str_eq codec "uncompressed" || (str_eq codec "none" || str_eq codec "UNCOMPRESSED")
    then returned 1
    else raised unknown_codec

-- `writer_` is none for a null pointer.
pub record ParquetWriter : Type 0 where
  pub writer : Option N2PWriter
  pub row_groups : ℕ
  pub num_rows : ℕ

-- How a method ends, with what it leaves: the object (none if its constructor threw), and the file,
-- where it was closed. A writer that was opened and is in no object stays open for good.
pub record Left : Type 0 where
  pub object : Option ParquetWriter
  pub closed : Option Stream
  pub lost : Option N2PWriter

abbrev pub Call : Type 0
Call = Py (Unit {0}) × Left

abbrev pub keeps : ParquetWriter → Left
keeps p = record { object = some p; closed = none; lost = none }

module _ (ext : External) where
  abbrev message_of : Option N2PWriter → Reason
  message_of none = Reason.none
  message_of (some w) = w.last_error

  -- The constructor, once the codec is set: a codec that is refused closes the file.
  abbrev pub codec_set_to : N2PStatus × Option N2PWriter → Call
  codec_set_to (N2PStatus.ok, w) =
      (returned tt, keeps (record { writer = w; row_groups = 0; num_rows = 0 }))
  codec_set_to (s, w) = (
    raised (n2p_failed s (message_of w)),
    record { object = none; closed = (n2p_writer_close ext w).1; lost = none },
  )

  abbrev pub opened_as : ℕ → N2PStatus × Option N2PWriter → Call
  opened_as codec (N2PStatus.ok, w) = codec_set_to (n2p_writer_set_codec w codec)
  opened_as codec (s, w) =
      (raised (n2p_failed s (message_of w)), record { object = none; closed = none; lost = w })

  unfoldable pub new_parquet_writer : String → ℕ → Call
  new_parquet_writer path codec = opened_as codec (n2p_writer_open ext (some path))

  module _ {O : Type 0} (py : Interpreter O) where
    abbrev pub batch_status : ParquetWriter → ℕ → Option (N2PStatus × N2PWriter) → Option Call
    batch_status p n none = none
    batch_status p n (some (N2PStatus.ok, w)) = some (
      returned tt,
      keeps (record { writer = some w; row_groups = p.row_groups + 1; num_rows = p.num_rows + n }),
    )
    batch_status p n (some (s, w)) =
        some (raised (n2p_failed s w.last_error), keeps (record p { writer = some w }))

    abbrev pub batch_imported :
        ParquetWriter → N2PWriter → Py (ArrowSchema × ArrowArray) → Option Call
    batch_imported p w (raised e) = some (raised e, keeps p)
    batch_imported p w (returned (sc, arr)) =
        batch_status p (head arr).length (n2p_writer_write_batch ext w (some sc) (some arr))

    abbrev pub write_open : ParquetWriter → O → Option N2PWriter → Option Call
    write_open p obj none = some (raised writer_closed, keeps p)
    write_open p obj (some w) = batch_imported p w (import_batch py obj)

    -- ParquetWriter::write_batch; none where the call crashes.
    unfoldable pub write_batch : ParquetWriter → O → Option Call
    write_batch p obj = write_open p obj p.writer

  -- The writer is null behind either close.
  abbrev pub close_status : ParquetWriter → N2PStatus × Option Stream → Call
  close_status p (N2PStatus.ok, out) = (
    returned tt,
    record { object = some (record p { writer = none }); closed = out; lost = none },
  )
  close_status p (s, out) = (
    raised (n2p_failed s Reason.none),
    record { object = some (record p { writer = none }); closed = out; lost = none },
  )

  abbrev pub close_open : ParquetWriter → Option N2PWriter → Call
  close_open p none = (returned tt, keeps p)
  close_open p (some w) =
      if p.row_groups == 0
      then (
        raised nothing_written,
        record {
          object = some (record p { writer = none });
          closed = (n2p_writer_close ext (some w)).1;
          lost = none;
        },
      )
      else close_status p (n2p_writer_close ext (some w))

  -- ParquetWriter::close
  unfoldable pub close : ParquetWriter → Call
  close p = close_open p p.writer

  -- What `write_batches` leaves: the closed file, or a writer that no one closes.
  pub record Files : Type 0 where
    pub file : Option Stream
    pub unclosed : Option N2PWriter

  -- How a function that writes files ends: it returns or raises, with what it leaves, or a call
  -- crashes. `no_rounds` is the model's own end of a loop that has used its rounds.
  pub data CallEnd : Type 0 where
    ended : Py (Unit {0}) → Files → CallEnd
    crashed : CallEnd
    no_rounds : CallEnd

  abbrev pub fails : PyError → Option N2PWriter → CallEnd
  fails e w = ended (raised e) (record { file = none; unclosed = w })

  abbrev pub close_all : N2PStatus × Option Stream → CallEnd
  close_all (N2PStatus.ok, out) = ended (returned tt) (record { file = out; unclosed = none })
  close_all (s, out) =
      ended (raised (n2p_failed s Reason.none)) (record { file = out; unclosed = none })

  -- The writer of the first batch, or an exception and what it leaves open.
  pub data Started : Type 0 where
    have : N2PWriter → Started
    refused : PyError → Option N2PWriter → Started

  abbrev pub start_codec : N2PStatus × Option N2PWriter → Started
  start_codec (N2PStatus.ok, some w) = have w
  start_codec (s, w) = refused (n2p_failed s (message_of w)) w

  abbrev pub start_open : ℕ → N2PStatus × Option N2PWriter → Started
  start_open codec (N2PStatus.ok, w) = start_codec (n2p_writer_set_codec w codec)
  start_open codec (s, w) = refused (n2p_failed s (message_of w)) w

  -- Opened with the first batch; later batches have it.
  abbrev pub writer_for : String → ℕ → Option N2PWriter → Started
  writer_for path codec none = start_open codec (n2p_writer_open ext (some path))
  writer_for path codec (some w) = have w

  -- Behind a batch the loop goes on with the writer, or throws and leaves it open.
  abbrev pub batch_written : (N2PWriter → CallEnd) → Option (N2PStatus × N2PWriter) → CallEnd
  batch_written go none = crashed
  batch_written go (some (N2PStatus.ok, w)) = go w
  batch_written go (some (s, w)) = fails (n2p_failed s w.last_error) (some w)

  abbrev pub with_writer :
      (N2PWriter → CallEnd) → Option ArrowSchema → ArrowArray → Started → CallEnd
  with_writer go sc arr (refused e w) = fails e w
  with_writer go sc arr (have w) = batch_written go (n2p_writer_write_batch ext w sc (some arr))

  -- The end of the stream: an error if there was no batch.
  abbrev pub at_end : Option N2PWriter → CallEnd
  at_end none = fails empty_input none
  at_end (some w) = close_all (n2p_writer_close ext (some w))

  abbrev pub on_next :
      String
      → ℕ
      → (Option ArrowSchema → BatchIterator → N2PWriter → CallEnd)
      → Option N2PWriter
      → Py (Option Handed)
      → CallEnd
  on_next path codec go w (raised e) = fails e w
  on_next path codec go w (returned none) = at_end w
  on_next path codec go w (returned (some (sc, arr, it))) =
      with_writer (go sc it) sc arr (writer_for path codec w)

  -- The loop, with one round for each batch that the stream has and one more to see the stream's end.
  unfoldable pub write_rounds :
      String
      → ℕ
      → List (Option ArrowArray)
      → Option ArrowSchema
      → BatchIterator
      → Option N2PWriter
      → CallEnd
  unfolding next
  write_rounds path codec [] sc it w = on_next path codec (λ sc' it' w'. no_rounds) w (next it sc)
  write_rounds path codec (b ∷ bs) sc it w =
      on_next path codec (λ sc' it' w'. write_rounds path codec bs sc' it' (some w')) w (next it sc)

  module _ {O : Type 0} (py : Interpreter O) where
    abbrev pub write_stream : String → ℕ → Py BatchStream → CallEnd
    write_stream path codec (raised e) = fails e none
    write_stream path codec (returned s) =
        write_rounds path codec s.batches none (record { stream = s; schema_loaded = false }) none

    unfoldable pub write_batches : O → String → ℕ → CallEnd
    unfolding write_rounds open_stream
    write_batches table path codec = write_stream path codec (open_stream py table)

    abbrev pub with_parsed : (ℕ → CallEnd) → Py ℕ → CallEnd
    with_parsed go (raised e) = fails e none
    with_parsed go (returned codec) = go codec

    unfoldable pub write_table : O → String → String → CallEnd
    unfolding write_batches parse_codec
    write_table table path codec = with_parsed (write_batches table path) (parse_codec codec)

    abbrev pub file_written : Option (N2PStatus × Reason × Option Stream) → CallEnd
    file_written none = crashed
    file_written (some (N2PStatus.ok, e, out)) =
        ended (returned tt) (record { file = out; unclosed = none })
    file_written (some (s, e, out)) =
        ended (raised (n2p_failed s e)) (record { file = out; unclosed = none })

    abbrev pub write_imported : String → Py (ArrowSchema × ArrowArray) → CallEnd
    write_imported path (raised e) = fails e none
    write_imported path (returned (sc, arr)) =
        file_written (n2p_write_file ext (some path) (some sc) (some arr))

    -- The one-shot function: its codec is not used.
    unfoldable pub write_one_shot : O → String → String → CallEnd
    write_one_shot batch path codec = write_imported path (import_batch py batch)
