-- ===== src/Python/Objects.antt =====
-- The life of a ParquetWriter object (bindings/python/src/n2p_bindings.cpp).
use nanoarrow2parquet.Common.{
  ℕ, ◌+◌, ◌<◌, ◌≡◌, ◌≢◌, refl, ap, sym, ◌∙◌, arith, Bool, true, false, ◌==◌, Option, none, some,
  String, if◌then◌else◌,
}
use nanoarrow2parquet.Arrow.{ArrowArray, ArrowSchema, head}
use nanoarrow2parquet.External.{External}
use nanoarrow2parquet.Result.{N2PStatus, invalid_argument, unsupported_type, io_error, Reason}
use nanoarrow2parquet.Writer.State.{N2PWriter, Stream}
use nanoarrow2parquet.Writer.Api.{
  n2p_writer_open, n2p_writer_set_codec, n2p_writer_write_batch, n2p_writer_close,
}
use nanoarrow2parquet.Writer.Files.{
  Recorded, CompleteFile, codec-Recorded, batch-Recorded, refused-Recorded, close-CompleteFile,
}
use nanoarrow2parquet.Python.Capsule.{
  Py, returned, raised, n2p_failed, writer_closed, nothing_written, Interpreter, import_batch,
}
use nanoarrow2parquet.Python.Bindings.{
  ParquetWriter, Left, keeps, codec_set_to, opened_as, new_parquet_writer, batch_status,
  batch_imported, write_open, write_batch, close, close_open, close_status,
}

-- The call raised an I/O error of the writer.
abbrev pub IsIo : Py (Unit {0}) → Type 0
IsIo (raised (n2p_failed io_error m)) = Unit {0}
IsIo _ = ⊥

module _ (ext : External) {O : Type 0} (py : Interpreter O) where
  -- The object was created and has had any number of calls of `write_batch`, none of which raised an
  -- I/O error; other exceptions were caught.
  pub data Used (path : String) (codec : ℕ) : ParquetWriter → Type 0 where
    created :
        {p : ParquetWriter}
        → new_parquet_writer ext path codec ≡ (returned tt, keeps p)
        → Used path codec p
    after :
        {p p' : ParquetWriter} (obj : O) (r : Py (Unit {0}))
        → Used path codec p
        → write_batch ext py p obj ≡ some (r, keeps p')
        → ¬ IsIo r
        → Used path codec p'

  -- The object has a writer, and its two counts are those of the writer.
  pub record Counts (path : String) (p : ParquetWriter) : Type 0 where
    pub handle : N2PWriter
    pub is_open : p.writer ≡ some handle
    pub recorded : Recorded ext path p.row_groups p.num_rows handle

  created-Counts :
      (path : String) (codec : ℕ) (p : ParquetWriter)
      → new_parquet_writer ext path codec ≡ (returned tt, keeps p)
      → Counts path p
  unfolding new_parquet_writer n2p_writer_set_codec
  created-Counts path codec p made = opened (n2p_writer_open ext (some path)) refl made
    where
      set :
          (w : N2PWriter) (x : N2PStatus × Option N2PWriter)
          → n2p_writer_open ext (some path) ≡ (N2PStatus.ok, some w)
          → n2p_writer_set_codec (some w) codec ≡ x
          → codec_set_to ext x ≡ (returned tt, keeps p)
          → Counts path p
      set w (N2PStatus.ok, some v) is call made' =
          let same : record { writer = some v; row_groups = 0; num_rows = 0 } ≡ p = cc made' in
          rw (← same) (record {
            handle = v;
            is_open = refl;
            recorded = codec-Recorded ext path codec w v is call;
          })
      set w (N2PStatus.ok, none) is call made' = absurd (ground arith)
      set w (invalid_argument, v) is call made' = absurd (ground arith)
      set w (unsupported_type, v) is call made' = absurd (ground arith)
      set w (io_error, v) is call made' = absurd (ground arith)

      opened :
          (x : N2PStatus × Option N2PWriter)
          → n2p_writer_open ext (some path) ≡ x
          → opened_as ext codec x ≡ (returned tt, keeps p)
          → Counts path p
      opened (N2PStatus.ok, some w) is made' =
          set w (n2p_writer_set_codec (some w) codec) is refl made'
      opened (N2PStatus.ok, none) is made' = absurd (ground arith)
      opened (invalid_argument, w) is made' = absurd (ground arith)
      opened (unsupported_type, w) is made' = absurd (ground arith)
      opened (io_error, w) is made' = absurd (ground arith)

  batch-Counts :
      (path : String) (p p' : ParquetWriter) (obj : O) (r : Py (Unit {0}))
      → Counts path p
      → write_batch ext py p obj ≡ some (r, keeps p')
      → ¬ IsIo r
      → Counts path p'
  unfolding write_batch
  batch-Counts path p p' obj r h call no_io =
      imported (import_batch py obj) (ap (write_open ext py p obj) (sym h.is_open) ∙ call)
    where
      n : ArrowArray → ℕ
      n arr = (head arr).length

      is_io : (m : Reason) → raised (n2p_failed io_error m) ≡ r → IsIo r
      is_io m same = rw (← same) tt

      refused :
          (sc : ArrowSchema) (arr : ArrowArray) (s : N2PStatus) (v : N2PWriter)
          → n2p_writer_write_batch ext h.handle (some sc) (some arr) ≡ some (s, v)
          → s ≢ N2PStatus.ok
          → s ≢ io_error
          → record p { writer = some v } ≡ p'
          → Counts path p'
      refused sc arr s v is not_ok not_io same = rw (← same) (record {
        handle = v;
        is_open = refl;
        recorded =
            refused-Recorded ext path p.row_groups p.num_rows h.handle v (some sc) arr s h.recorded
              is not_ok not_io;
      })

      status :
          (sc : ArrowSchema) (arr : ArrowArray) (x : Option (N2PStatus × N2PWriter))
          → n2p_writer_write_batch ext h.handle (some sc) (some arr) ≡ x
          → batch_status ext py p (n arr) x ≡ some (r, keeps p')
          → Counts path p'
      status sc arr none is call' = absurd (ground arith)
      status sc arr (some (N2PStatus.ok, v)) is call' =
          let same : record {
            writer = some v;
            row_groups = p.row_groups + 1;
            num_rows = p.num_rows + n arr;
          }
              ≡ p' =
            cc call' in
          rw (← same) (record {
            handle = v;
            is_open = refl;
            recorded =
                batch-Recorded ext path p.row_groups p.num_rows h.handle v (some sc) arr h.recorded
                  is;
          })
      status sc arr (some (invalid_argument, v)) is call' =
          refused sc arr invalid_argument v is (λ e. cc e) (λ e. cc e) (cc call')
      status sc arr (some (unsupported_type, v)) is call' =
          refused sc arr unsupported_type v is (λ e. cc e) (λ e. cc e) (cc call')
      status sc arr (some (io_error, v)) is call' = absurd (no_io (is_io v.last_error (cc call')))

      imported :
          (x : Py (ArrowSchema × ArrowArray))
          → batch_imported ext py p h.handle x ≡ some (r, keeps p')
          → Counts path p'
      imported (raised e) call' = let same : p ≡ p' = cc call' in rw (← same) h
      imported (returned (sc, arr)) call' = status sc arr _ refl call'

  -- Over a life of the object without I/O errors, its counts are those of the row groups and the rows
  -- that the writer has recorded, also behind calls that raised an exception.
  pub Used-Counts :
      (path : String) (codec : ℕ) (p : ParquetWriter) → Used path codec p → Counts path p
  Used-Counts path codec p (created made) = created-Counts path codec p made
  Used-Counts path codec p' (after {p} obj r before call no_io) =
      batch-Counts path p p' obj r (Used-Counts path codec p before) call no_io

  -- A `close` that returns, after such a life, has had a batch and leaves a complete file with as many
  -- row groups and rows as the object counts; the object has no writer any more.
  pub close-File :
      (path : String) (codec : ℕ) (p : ParquetWriter) (left : Left)
      → Used path codec p
      → close ext p ≡ (returned tt, left)
      → (0 < p.row_groups)
        × CompleteFile ext p.row_groups p.num_rows left.closed
        × (left.object ≡ some (record p { writer = none }))
  unfolding close
  close-File path codec p left used shut =
      counted (p.row_groups == 0) refl (ap (close_open ext p) (sym h.is_open) ∙ shut)
    where
      h : Counts path p
      h = Used-Counts path codec p used

      Closed : Type 0
      Closed =
          (0 < p.row_groups)
          × CompleteFile ext p.row_groups p.num_rows left.closed
          × (left.object ≡ some (record p { writer = none }))

      status :
          (x : N2PStatus × Option Stream)
          → 0 < p.row_groups
          → n2p_writer_close ext (some h.handle) ≡ x
          → close_status ext p x ≡ (returned tt, left)
          → Closed
      status (N2PStatus.ok, o) started is shut' =
          let same : record { object = some (record p { writer = none }); closed = o; lost = none }
              ≡ left =
            cc shut' in
          rw (← same) (
            started,
            close-CompleteFile ext path p.row_groups p.num_rows h.handle o h.recorded is,
            refl,
          )
      status (invalid_argument, o) started is shut' = absurd (ground arith)
      status (unsupported_type, o) started is shut' = absurd (ground arith)
      status (io_error, o) started is shut' = absurd (ground arith)

      counted :
          (b : Bool)
          → (p.row_groups == 0) ≡ b
          → close_open ext p (some h.handle) ≡ (returned tt, left)
          → Closed
      counted true is shut' = absurd (ground arith)
      counted false is shut' =
          status (n2p_writer_close ext (some h.handle)) (ground arith) refl (ground arith)

  -- However `close` ends, it takes the writer out of the object and leaves the counts; from there on
  -- `close` returns with no effect and `write_batch` raises an exception and writes nothing.
  pub close-Closed :
      (p : ParquetWriter) (obj : O)
      → let gone : ParquetWriter = record p { writer = none } in
        ((close ext p).1.object ≡ some gone)
        × (close ext gone ≡ (returned tt, keeps gone))
        × (write_batch ext py gone obj ≡ some (raised writer_closed, keeps gone))
  unfolding close write_batch
  close-Closed p obj = (left p.writer refl, refl, refl)
    where
      gone : ParquetWriter
      gone = record p { writer = none }

      status : (x : N2PStatus × Option Stream) → (close_status ext p x).1.object ≡ some gone
      status (N2PStatus.ok, o) = refl
      status (invalid_argument, o) = refl
      status (unsupported_type, o) = refl
      status (io_error, o) = refl

      counted :
          (w : N2PWriter) (b : Bool)
          → ◌≡◌ {A = Option ParquetWriter}
              (if b
                then (
                  raised nothing_written,
                  record {
                    object = some gone;
                    closed = (n2p_writer_close ext (some w)).1;
                    lost = none;
                  },
                )
                else close_status ext p (n2p_writer_close ext (some w))).1.object
              (some gone)
      counted w true = refl
      counted w false = status (n2p_writer_close ext (some w))

      left : (w : Option N2PWriter) → p.writer ≡ w → (close_open ext p w).1.object ≡ some gone
      left none is = ap (λ (w : Option N2PWriter). some (record p { writer = w })) is
      left (some w) is = counted w (p.row_groups == 0)
