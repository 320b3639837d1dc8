-- ===== src/Writer/Files.antt =====
-- What a client of the C interface of src/writer.cpp has in hand: a writer with what it has recorded,
-- and the file that a successful close leaves.
use nanoarrow2parquet.Common.{
  ℕ, ◌+◌, ◌≡◌, refl, ap, ◌∙◌, arith, Bool, true, false, not, ◌&&◌, Option, none, some, String, List,
  [], ◌∷◌, ◌++◌, length, length-append, All, inl, inr, ◌≢◌, if◌then◌else◌,
}
use nanoarrow2parquet.Bytes.{Bytes}
use nanoarrow2parquet.Arrow.{ArrowArray, ArrowSchema, head}
use nanoarrow2parquet.External.{External}
use nanoarrow2parquet.External.Headers.{RowGroupMeta}
use nanoarrow2parquet.Result.{
  N2PStatus, invalid_argument, unsupported_type, io_error, Reason, ok, cannot_open,
}
use nanoarrow2parquet.Writer.State.{N2PWriter, Stream, write_bytes}
use nanoarrow2parquet.Writer.Footer.{serialize_footer}
use nanoarrow2parquet.Writer.Api.{
  magic, new_writer, n2p_writer_open, n2p_writer_set_codec, n2p_writer_write_batch,
  n2p_writer_close, finish_close, write_footer, after_write, after_open, n2p_write_file,
}
use nanoarrow2parquet.Writer.Consistency.{StoredIn}
use nanoarrow2parquet.Writer.Close.{tail_of}
use nanoarrow2parquet.Writer.Outcome.{Added, Kept, Returned, write_batch-Returned}
use nanoarrow2parquet.Writer.Session.{
  ◌⟶◌, ◌⟶*◌, here, followed_by, codec_set, batch_written, session-Complete, set_codec-SameFile,
}

module _ (ext : External) where
  pub snoc : {u v w : N2PWriter} → ◌⟶*◌ ext u v → ◌⟶◌ ext v w → ◌⟶*◌ ext u w
  snoc here last = followed_by last here
  snoc (followed_by first rest) last = followed_by first (snoc rest last)

  pub open-empty :
      (path : String) (w : N2PWriter)
      → n2p_writer_open ext (some path) ≡ (N2PStatus.ok, some w)
      → (w.total_rows ≡ 0) × (w.row_groups ≡ [])
  unfolding n2p_writer_open write_bytes
  open-empty path w e = go (ext.opens path) e
    where
      go :
          (b : Bool)
          → ◌≡◌ {A = N2PStatus × Option N2PWriter}
              (if b
                then (N2PStatus.ok, some (write_bytes ext magic (new_writer path true)).1)
                else (io_error, some (record (new_writer path false) { last_error = cannot_open })))
              (N2PStatus.ok, some w)
          → (w.total_rows ≡ 0) × (w.row_groups ≡ [])
      go true e' = (ground arith, ground arith)
      go false e' = absurd (ground arith)

  pub close-some :
      (w : N2PWriter) (o : Option Stream)
      → n2p_writer_close ext (some w) ≡ (N2PStatus.ok, o)
      → (out : Stream) × (o ≡ some out)
  unfolding n2p_writer_close finish_close
  close-some w none e = absurd (go (w.out.is_open && not w.footer_written) e)
    where
      go :
          (b : Bool)
          → ◌≡◌ {A = N2PStatus × Option Stream}
              (if b then finish_close ext (write_footer ext w) else (N2PStatus.ok, some w.out))
              (N2PStatus.ok, none)
          → ⊥
      go true e' = cc (ap (λ (t : N2PStatus × Option Stream). t.1) e')
      go false e' = cc (ap (λ (t : N2PStatus × Option Stream). t.1) e')
  close-some w (some out) e = (out, refl)

  -- The writer got to its state by calls of the interface behind an open of `path`, and has recorded
  -- so many row groups and rows.
  pub record Recorded (path : String) (groups rows : ℕ) (w : N2PWriter) : Type 0 where
    pub opened : N2PWriter
    pub open_call : n2p_writer_open ext (some path) ≡ (N2PStatus.ok, some opened)
    pub calls : ◌⟶*◌ ext opened w
    pub count : length w.row_groups ≡ groups
    pub total : w.total_rows ≡ rows

  -- From `u` the writer got to `w` by a call for each of these batches, in their order and with one
  -- schema, that returned N2P_OK.
  pub data WrittenAll (sc : Option ArrowSchema) (u : N2PWriter)
      : List ArrowArray → N2PWriter → Type 0 where
    none_written : WrittenAll sc u [] u
    one_more :
        {bs : List ArrowArray} {v w : N2PWriter} (b : ArrowArray)
        → WrittenAll sc u bs v
        → n2p_writer_write_batch ext v sc (some b) ≡ some (N2PStatus.ok, w)
        → WrittenAll sc u (bs ++ (b ∷ [])) w

  -- A writer of `path` with this codec, and these batches.
  pub record Took (path : String) (codec : ℕ) (sc : Option ArrowSchema) (bs : List ArrowArray)
      (w : N2PWriter) : Type 0 where
    pub opened : N2PWriter
    pub begun : N2PWriter
    pub open_call : n2p_writer_open ext (some path) ≡ (N2PStatus.ok, some opened)
    pub set_call : n2p_writer_set_codec (some opened) codec ≡ (N2PStatus.ok, some begun)
    pub batches : WrittenAll sc begun bs w

  -- A file with so many row groups and rows: it ends in their footer, and each row group is stored
  -- where its record says.
  pub record CompleteFile (groups rows : ℕ) (closed : Option Stream) : Type 0 where
    pub writer : N2PWriter
    pub file : Stream
    pub is_closed : closed ≡ some file
    pub footer : Bytes
    pub described : serialize_footer ext writer ≡ ok footer
    pub ends : file.bytes ≡ writer.out.bytes ++ tail_of footer
    pub stored : All (StoredIn writer.leaves file.bytes) writer.row_groups
    pub count : length writer.row_groups ≡ groups
    pub total : writer.total_rows ≡ rows

  -- An open and a setting of the codec that both succeed.
  pub codec-Recorded :
      (path : String) (codec : ℕ) (w w' : N2PWriter)
      → n2p_writer_open ext (some path) ≡ (N2PStatus.ok, some w)
      → n2p_writer_set_codec (some w) codec ≡ (N2PStatus.ok, some w')
      → Recorded path 0 0 w'
  codec-Recorded path codec w w' opened set =
      let same = set_codec-SameFile ext w w' codec N2PStatus.ok set in
      let empty = open-empty path w opened in
      record {
        opened = w;
        open_call = opened;
        calls = followed_by (codec_set codec N2PStatus.ok set) here;
        count = ap (λ (gs : List RowGroupMeta). length gs) (same.groups ∙ empty.1);
        total = same.rows ∙ empty.0;
      }

  pub batch-Recorded :
      (path : String) (groups rows : ℕ) (w w' : N2PWriter) (sc : Option ArrowSchema)
      (batch : ArrowArray)
      → Recorded path groups rows w
      → n2p_writer_write_batch ext w sc (some batch) ≡ some (N2PStatus.ok, w')
      → Recorded path (groups + 1) (rows + (head batch).length) w'
  batch-Recorded path groups rows w w' sc batch h call =
      let added : Added w (head batch).length w' =
        write_batch-Returned ext w w' sc (some batch) N2PStatus.ok call in
      let many = length-append w.row_groups (added.group ∷ []) in
      record {
        opened = h.opened;
        open_call = h.open_call;
        calls = snoc h.calls (batch_written sc (some batch) N2PStatus.ok call);
        count =
            omega (arith, ap (λ (gs : List RowGroupMeta). length gs) added.groups, many, h.count);
        total = omega (arith, added.rows, h.total);
      }

  -- A batch that is refused, but not by an I/O error.
  pub refused-Recorded :
      (path : String) (groups rows : ℕ) (w w' : N2PWriter) (sc : Option ArrowSchema)
      (batch : ArrowArray) (s : N2PStatus)
      → Recorded path groups rows w
      → n2p_writer_write_batch ext w sc (some batch) ≡ some (s, w')
      → s ≢ N2PStatus.ok
      → s ≢ io_error
      → Recorded path groups rows w'
  refused-Recorded path groups rows w w' sc batch s h call failed no_io =
      kept s (write_batch-Returned ext w w' sc (some batch) s call) failed no_io
    where
      same : Kept w w' → Recorded path groups rows w'
      same k = record {
        opened = h.opened;
        open_call = h.open_call;
        calls = snoc h.calls (batch_written sc (some batch) s call);
        count = ap (λ (gs : List RowGroupMeta). length gs) k.groups ∙ h.count;
        total = k.rows ∙ h.total;
      }

      kept :
          (t : N2PStatus)
          → Returned ext w (head batch).length t w'
          → t ≢ N2PStatus.ok
          → t ≢ io_error
          → Recorded path groups rows w'
      kept N2PStatus.ok k not_ok not_io = absurd (not_ok refl)
      kept invalid_argument (inl k) not_ok not_io = same k
      kept invalid_argument (inr k) not_ok not_io = absurd (not_io k.0)
      kept unsupported_type (inl k) not_ok not_io = same k
      kept unsupported_type (inr k) not_ok not_io = absurd (not_io k.0)
      kept io_error k not_ok not_io = absurd (not_io refl)

  pub close-file_of :
      (path : String) (groups rows : ℕ) (w : N2PWriter) (o : Option Stream)
      → Recorded path groups rows w
      → n2p_writer_close ext (some w) ≡ (N2PStatus.ok, o)
      → (f : CompleteFile groups rows o) × (f.writer ≡ w)
  close-file_of path groups rows w o h shut =
      let (out, is) = close-some w o shut in
      let (footer, described, ends, length_back, stored) =
        session-Complete ext path h.opened w out h.open_call h.calls
          (shut ∙ ap (λ (t : Option Stream). (N2PStatus.ok, t)) is) in
      (
        record {
          writer = w;
          file = out;
          is_closed = is;
          footer = footer;
          described = described;
          ends = ends;
          stored = stored;
          count = h.count;
          total = h.total;
        },
        refl,
      )

  pub close-CompleteFile :
      (path : String) (groups rows : ℕ) (w : N2PWriter) (o : Option Stream)
      → Recorded path groups rows w
      → n2p_writer_close ext (some w) ≡ (N2PStatus.ok, o)
      → CompleteFile groups rows o
  close-CompleteFile path groups rows w o h shut = (close-file_of path groups rows w o h shut).0

  open-Recorded :
      (path : String) (w : N2PWriter)
      → n2p_writer_open ext (some path) ≡ (N2PStatus.ok, some w)
      → Recorded path 0 0 w
  open-Recorded path w opened =
      let empty = open-empty path w opened in
      record {
        opened = w;
        open_call = opened;
        calls = here;
        count = ap (λ (gs : List RowGroupMeta). length gs) empty.1;
        total = empty.0;
      }

  -- The file of one call of `n2p_writer_write_batch`: it has one row group, as many rows as the batch,
  -- and the footer and the bytes of the writer that this call leaves behind a fresh open.
  pub record FileOf (path : String) (sc : Option ArrowSchema) (batch : ArrowArray)
      (o : Option Stream) : Type 0 where
    pub complete : CompleteFile 1 (head batch).length o
    pub fresh : N2PWriter
    pub open_call : n2p_writer_open ext (some path) ≡ (N2PStatus.ok, some fresh)
    pub call :
        n2p_writer_write_batch ext fresh sc (some batch) ≡ some (N2PStatus.ok, complete.writer)

  -- `n2p_write_file`, with N2P_OK, has opened a file and written the batch with success, and leaves a
  -- complete file with one row group and as many rows as the batch has: the bytes that the call for the
  -- batch has written and the footer of its records.
  pub n2p_write_file-FileOf :
      (path : String) (sc : Option ArrowSchema) (batch : ArrowArray) (e : Reason)
      (o : Option Stream)
      → n2p_write_file ext (some path) sc (some batch) ≡ some (N2PStatus.ok, e, o)
      → FileOf path sc batch o
  unfolding n2p_write_file after_open after_write n2p_writer_open
  n2p_write_file-FileOf path sc batch e o ran = split (n2p_writer_open ext (some path)) refl ran
    where
      zero_add : (n : ℕ) → 0 + n ≡ n
      zero_add n = omega arith

      no_writer :
          (b : Bool)
          → ◌≡◌ {A = N2PStatus × Option N2PWriter}
              (if b
                then (N2PStatus.ok, some (write_bytes ext magic (new_writer path true)).1)
                else (io_error, some (record (new_writer path false) { last_error = cannot_open })))
              (N2PStatus.ok, none)
          → ⊥
      no_writer true e' = ground arith
      no_writer false e' = ground arith

      written :
          (w : N2PWriter) (x : Option (N2PStatus × N2PWriter))
          → n2p_writer_open ext (some path) ≡ (N2PStatus.ok, some w)
          → n2p_writer_write_batch ext w sc (some batch) ≡ x
          → after_write ext x ≡ some (N2PStatus.ok, e, o)
          → FileOf path sc batch o
      written w none h call ran' = absurd (ground arith)
      written w (some (N2PStatus.ok, v)) h call ran' =
          let h' = batch-Recorded path 0 0 w v sc batch (open-Recorded path w h) call in
          let (f, same) =
            close-file_of path 1 (head batch).length v o (rw (zero_add (head batch).length) at h')
              (ground arith) in
          record { complete = f; fresh = w; open_call = h; call = rw same call }
      written w (some (invalid_argument, v)) h call ran' = absurd (ground arith)
      written w (some (unsupported_type, v)) h call ran' = absurd (ground arith)
      written w (some (io_error, v)) h call ran' = absurd (ground arith)

      split :
          (x : N2PStatus × Option N2PWriter)
          → n2p_writer_open ext (some path) ≡ x
          → after_open ext sc (some batch) x ≡ some (N2PStatus.ok, e, o)
          → FileOf path sc batch o
      split (N2PStatus.ok, some w) opened ran' =
          written w (n2p_writer_write_batch ext w sc (some batch)) opened refl ran'
      split (N2PStatus.ok, none) opened ran' = absurd (no_writer (ext.opens path) opened)
      split (invalid_argument, none) opened ran' = absurd (ground arith)
      split (invalid_argument, some w) opened ran' = absurd (ground arith)
      split (unsupported_type, none) opened ran' = absurd (ground arith)
      split (unsupported_type, some w) opened ran' = absurd (ground arith)
      split (io_error, none) opened ran' = absurd (ground arith)
      split (io_error, some w) opened ran' = absurd (ground arith)
