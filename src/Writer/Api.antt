-- ===== src/Writer/Api.antt =====
-- The C interface of src/writer.cpp. A null N2PWriter pointer is none; an entry point returns the
-- status and the writer as it then is, and `close`, which frees it, the stream.
use nanoarrow2parquet.Common.{
  ℕ, ◌-◌, ◌/◌, ◌%◌, ◌^◌, [], ◌∷◌, Bool, true, false, not, ◌==◌, ◌&&◌, leb, ltb, Option, none, some,
  String, length, if◌then◌else◌,
}
use nanoarrow2parquet.Bytes.{Bytes}
use nanoarrow2parquet.Arrow.{ArrowArray, ArrowSchema}
use nanoarrow2parquet.External.{External}
use nanoarrow2parquet.External.Headers.{zstd, uncompressed}
use nanoarrow2parquet.Writer.State.{
  Stream, N2PWriter, Action, ◌>>◌, Ending, done, returned, thrown, crashed, write_bytes,
}
use nanoarrow2parquet.Writer.Batch.{write_one_batch}
use nanoarrow2parquet.Writer.Footer.{serialize_footer}
use nanoarrow2parquet.Result.{
  N2PStatus, invalid_argument, io_error, Reason, Result, ok, err, crash, cannot_open, unknown_codec,
  unknown_encoding, not_open, footer_too_large,
}

-- kMagic, "PAR1"
abbrev pub magic : Bytes
magic = b'P' ∷ b'A' ∷ b'R' ∷ b'1' ∷ []

-- `new N2PWriter()`, with the stream that the open left.
abbrev pub new_writer : String → Bool → N2PWriter
new_writer path is_open = record {
  out = record { is_open = is_open; good = is_open; bytes = [] };
  path = path;
  offset = 0;
  codec = zstd;
  encoding = 0;
  schema_locked = false;
  schema_nodes = [];
  leaves = [];
  top_children = 0;
  row_groups = [];
  total_rows = 0;
  footer_written = false;
  last_error = Reason.none;
}

module _ (ext : External) where
  unfoldable pub n2p_writer_open : Option String → N2PStatus × Option N2PWriter
  n2p_writer_open none = (invalid_argument, none)
  n2p_writer_open (some path) =
      if ext.opens path
      then (N2PStatus.ok, some (write_bytes ext magic (new_writer path true)).1)
      else (io_error, some (record (new_writer path false) { last_error = cannot_open }))

-- N2P_CODEC_ZSTD is 0 and N2P_CODEC_UNCOMPRESSED is 1; any other number is refused.
unfoldable pub n2p_writer_set_codec : Option N2PWriter → ℕ → N2PStatus × Option N2PWriter
n2p_writer_set_codec none codec = (invalid_argument, none)
n2p_writer_set_codec (some w) codec =
    if codec == 0
    then (N2PStatus.ok, some (record w { codec = zstd }))
    else if codec == 1
    then (N2PStatus.ok, some (record w { codec = uncompressed }))
    else (invalid_argument, some (record w { last_error = unknown_codec }))

-- The four encodings are 0 to 3.
unfoldable pub n2p_writer_set_encoding : Option N2PWriter → ℕ → N2PStatus × Option N2PWriter
n2p_writer_set_encoding none encoding = (invalid_argument, none)
n2p_writer_set_encoding (some w) encoding =
    if leb encoding 3
    then (N2PStatus.ok, some (record w { encoding = encoding }))
    else (invalid_argument, some (record w { last_error = unknown_encoding }))

-- A call that crashes has no status and no writer.
abbrev pub as_call : Ending (Unit {0}) × N2PWriter → Option (N2PStatus × N2PWriter)
as_call (done a, w) = some (N2PStatus.ok, w)
as_call (returned s, w) = some (s, w)
as_call (thrown e, w) = none
as_call (crashed, w) = none

-- The four bytes of the footer's length.
abbrev pub footer_length : ℕ → Bytes
footer_length len = len % 256 ∷ len / 2 ^ 8 % 256 ∷ len / 2 ^ 16 % 256 ∷ len / 2 ^ 24 % 256 ∷ []

-- The status that `close` returns: a stream that has failed makes it an I/O error.
abbrev pub status_of : Ending (Unit {0}) → Bool → N2PStatus
status_of r false = io_error
status_of (done a) true = N2PStatus.ok
status_of (returned s) true = s
status_of (thrown e) true = io_error
status_of crashed true = io_error

-- An exception has been caught below this point or ends the program, as undefined behaviour may.
module _ (ext : External) where
  unfoldable pub n2p_writer_write_batch :
      N2PWriter → Option ArrowSchema → Option ArrowArray → Option (N2PStatus × N2PWriter)
  n2p_writer_write_batch w sc batch =
      if not w.out.is_open
      then some (io_error, record w { last_error = not_open })
      else as_call (write_one_batch ext sc batch w)

  -- Footer, length, magic; nothing if there is no footer or it takes 4 GiB or more.
  unfoldable pub write_encoded : Result Bytes → Action (Unit {0})
  write_encoded (ok footer) w =
      if ltb (2 ^ 32 - 1) (length footer)
      then (returned io_error, record w { last_error = footer_too_large })
      else (do
        write_bytes ext footer
        write_bytes ext (footer_length (length footer))
        write_bytes ext magic)
          w
  write_encoded (err e) w = (returned io_error, record w { last_error = e })
  write_encoded crash w = (crashed, w)

  unfoldable pub write_footer : Action (Unit {0})
  unfolding write_encoded
  write_footer w = write_encoded (serialize_footer ext w) w

  abbrev pub flush : Stream → Stream
  flush f = record f { good = f.good && ext.flushes f.bytes }

  -- `close` behind the footer: flush, look at the stream, close it.
  unfoldable pub finish_close : Ending (Unit {0}) × N2PWriter → N2PStatus × Option Stream
  finish_close (r, w) =
      let out = flush w.out in (status_of r out.good, some (record out { is_open = false }))

  unfoldable pub n2p_writer_close : Option N2PWriter → N2PStatus × Option Stream
  unfolding write_footer finish_close
  n2p_writer_close none = (invalid_argument, none)
  n2p_writer_close (some w) =
      if w.out.is_open && not w.footer_written
      then finish_close (write_footer w)
      else (N2PStatus.ok, some w.out)

  -- The status, the message that is copied to `err`, and the stream; none if a call crashes.
  unfoldable pub after_write :
      Option (N2PStatus × N2PWriter) → Option (N2PStatus × Reason × Option Stream)
  unfolding n2p_writer_close
  after_write none = none
  after_write (some (N2PStatus.ok, w)) =
      let (s, out) = n2p_writer_close (some w) in some (s, Reason.none, out)
  after_write (some (s, w)) = some (s, w.last_error, (n2p_writer_close (some w)).1)

  unfoldable pub after_open :
      Option ArrowSchema
      → Option ArrowArray
      → N2PStatus × Option N2PWriter
      → Option (N2PStatus × Reason × Option Stream)
  unfolding after_write n2p_writer_write_batch
  after_open sc batch (s, none) = some (s, Reason.none, none)
  after_open sc batch (N2PStatus.ok, some w) = after_write (n2p_writer_write_batch w sc batch)
  after_open sc batch (s, some w) = some (s, w.last_error, (n2p_writer_close (some w)).1)

  unfoldable pub n2p_write_file :
      Option String
      → Option ArrowSchema
      → Option ArrowArray
      → Option (N2PStatus × Reason × Option Stream)
  unfolding after_open
  n2p_write_file path sc batch = after_open sc batch (n2p_writer_open ext path)
