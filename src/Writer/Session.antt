-- ===== src/Writer/Session.antt =====
-- A writer's life: any sequence of calls of the C interface between `n2p_writer_open` and
-- `n2p_writer_close` of src/writer.cpp.
use nanoarrow2parquet.Common.{
  ℕ, ◌+◌, ◌≡◌, refl, ap, sym, ◌∙◌, arith, Bool, true, false, not, inl, inr, Option, some, List, [],
  ◌∷◌, ◌++◌, append_assoc, append-nil, String, length, All, if◌then◌else◌,
}
use nanoarrow2parquet.Bytes.{Bytes, read_le}
use nanoarrow2parquet.Arrow.{ArrowArray, ArrowSchema}
use nanoarrow2parquet.External.{External}
use nanoarrow2parquet.External.Headers.{RowGroupMeta}
use nanoarrow2parquet.Writer.State.{
  Stream, N2PWriter, Ending, done, returned, thrown, crashed, write_bytes,
}
use nanoarrow2parquet.Writer.Batch.{write_one_batch}
use nanoarrow2parquet.Writer.Footer.{serialize_footer}
use nanoarrow2parquet.Writer.Api.{
  n2p_writer_open, n2p_writer_set_codec, n2p_writer_set_encoding, n2p_writer_write_batch,
  n2p_writer_close, as_call, new_writer, magic,
}
use nanoarrow2parquet.Writer.Rules.{write_bytes-Wrote}
use nanoarrow2parquet.Writer.Consistency.{
  IsConsistent, sum_rows, StoredIn, write_one_batch-IsConsistent,
}
use nanoarrow2parquet.Writer.Close.{open-IsConsistent, close-Complete, tail_of}
use nanoarrow2parquet.Writer.Outcome.{SameSettings, Returned, rows_of, write_batch-Returned}
use nanoarrow2parquet.Result.{N2PStatus, io_error, cannot_open, not_open, ok}

module _ (ext : External) where
  infix 40 ◌⟶◌ ◌⟶*◌
  -- One call, whatever its arguments and its status, that did not crash.
  pub data ◌⟶◌ : N2PWriter → N2PWriter → Type 0 where
    codec_set :
        {w w' : N2PWriter} (codec : ℕ) (s : N2PStatus)
        → n2p_writer_set_codec (some w) codec ≡ (s, some w')
        → w ⟶ w'
    encoding_set :
        {w w' : N2PWriter} (encoding : ℕ) (s : N2PStatus)
        → n2p_writer_set_encoding (some w) encoding ≡ (s, some w')
        → w ⟶ w'
    batch_written :
        {w w' : N2PWriter} (sc : Option ArrowSchema) (batch : Option ArrowArray) (s : N2PStatus)
        → n2p_writer_write_batch ext w sc batch ≡ some (s, w')
        → w ⟶ w'

  -- Any number of calls.
  pub data ◌⟶*◌ : N2PWriter → N2PWriter → Type 0 where
    here : {w : N2PWriter} → w ⟶* w
    followed_by : {u v w : N2PWriter} → u ⟶ v → v ⟶* w → u ⟶* w

  -- What holds between two calls of a writer whose file was opened.
  pub record IsLive (w : N2PWriter) : Type 0 where
    pub consistent : IsConsistent w
    pub opened : w.out.is_open ≡ true
    pub unwritten : w.footer_written ≡ false

  -- What `w'` has recorded begins with what `w` has.
  pub record Extends (w w' : N2PWriter) : Type 0 where
    pub more : List RowGroupMeta
    pub groups : w'.row_groups ≡ w.row_groups ++ more

  -- The two setters change a setting or the message only.
  pub record SameFile (w w' : N2PWriter) : Type 0 where
    out : w'.out ≡ w.out
    offset : w'.offset ≡ w.offset
    leaves : w'.leaves ≡ w.leaves
    pub groups : w'.row_groups ≡ w.row_groups
    pub rows : w'.total_rows ≡ w.total_rows
    locked : w'.schema_locked ≡ w.schema_locked
    footer : w'.footer_written ≡ w.footer_written

  SameFile-IsLive : (w w' : N2PWriter) → SameFile w w' → IsLive w → IsLive w' × Extends w w'
  SameFile-IsLive w w' h live = (
    record {
      consistent = record {
        file = λ g.
            let m = live.consistent.file (ap (λ (f : Stream). f.good) (sym h.out) ∙ g) in
            record {
              size = h.offset ∙ m.size ∙ ap (λ (f : Stream). length f.bytes) (sym h.out);
              begins = rw h.out m.begins;
              stored = rw (h.out, h.leaves, h.groups) m.stored;
            };
        counted = h.rows ∙ live.consistent.counted ∙ ap sum_rows (sym h.groups);
        unlocked = λ u. h.groups ∙ live.consistent.unlocked (sym h.locked ∙ u);
      };
      opened = ap (λ (f : Stream). f.is_open) h.out ∙ live.opened;
      unwritten = h.footer ∙ live.unwritten;
    },
    record { more = []; groups = h.groups ∙ sym (append-nil w.row_groups) },
  )

  pub set_codec-SameFile :
      (w w' : N2PWriter) (codec : ℕ) (s : N2PStatus)
      → n2p_writer_set_codec (some w) codec ≡ (s, some w')
      → SameFile w w'
  unfolding n2p_writer_set_codec
  set_codec-SameFile w w' codec s e = ground arith

  set_encoding-SameFile :
      (w w' : N2PWriter) (encoding : ℕ) (s : N2PStatus)
      → n2p_writer_set_encoding (some w) encoding ≡ (s, some w')
      → SameFile w w'
  unfolding n2p_writer_set_encoding
  set_encoding-SameFile w w' encoding s e = ground arith

  -- The state after a batch, by the equation of the call.
  write_batch-IsConsistent :
      (w w' : N2PWriter) (sc : Option ArrowSchema) (batch : Option ArrowArray) (s : N2PStatus)
      → n2p_writer_write_batch ext w sc batch ≡ some (s, w')
      → w.out.is_open ≡ true
      → IsConsistent w
      → IsConsistent w'
  unfolding n2p_writer_write_batch
  write_batch-IsConsistent w w' sc batch s e opened c = go w.out.is_open refl e
    where
      after :
          (x : Ending (Unit {0}) × N2PWriter)
          → IsConsistent x.1
          → as_call x ≡ some (s, w')
          → IsConsistent w'
      after (done u, v) h e' = let same : v ≡ w' = cc e' in rw (← same) h
      after (returned t, v) h e' = let same : v ≡ w' = cc e' in rw (← same) h
      after (thrown x, v) h e' = absurd (cc e')
      after (crashed, v) h e' = absurd (cc e')

      go :
          (b : Bool)
          → w.out.is_open ≡ b
          → ◌≡◌ {A = Option (N2PStatus × N2PWriter)}
              (if not b
                then some (io_error, record w { last_error = not_open })
                else as_call (write_one_batch ext sc batch w))
              (some (s, w'))
          → IsConsistent w'
      go true u e' =
          after (write_one_batch ext sc batch w) (write_one_batch-IsConsistent ext sc batch w c) e'
      go false u e' = absurd (cc (u, opened))

  Returned-Extends :
      (w w' : N2PWriter) (n : ℕ) (s : N2PStatus)
      → Returned ext w n s w'
      → SameSettings w w' × Extends w w'
  Returned-Extends w w' n N2PStatus.ok added =
      (added.settings, record { more = added.group ∷ []; groups = added.groups })
  Returned-Extends w w' n s (inl kept) =
      (kept.settings, record { more = []; groups = kept.groups ∙ sym (append-nil w.row_groups) })
  Returned-Extends w w' n s (inr (e, added)) =
      (added.settings, record { more = added.group ∷ []; groups = added.groups })

  step-IsLive : {w w' : N2PWriter} → w ⟶ w' → IsLive w → IsLive w' × Extends w w'
  step-IsLive {w} {w'} (codec_set codec s e) live =
      SameFile-IsLive w w' (set_codec-SameFile w w' codec s e) live
  step-IsLive {w} {w'} (encoding_set encoding s e) live =
      SameFile-IsLive w w' (set_encoding-SameFile w w' encoding s e) live
  step-IsLive {w} {w'} (batch_written sc batch s e) live =
      let (settings, extends) =
        Returned-Extends w w' (rows_of ext batch) s (write_batch-Returned ext w w' sc batch s e) in
      (
        record {
          consistent = write_batch-IsConsistent w w' sc batch s e live.opened live.consistent;
          opened = settings.opened ∙ live.opened;
          unwritten = settings.footer ∙ live.unwritten;
        },
        extends,
      )

  -- After any calls the writer is live, and no row group that was recorded before is lost or moved.
  pub steps-IsLive : {w w' : N2PWriter} → w ⟶* w' → IsLive w → IsLive w' × Extends w w'
  steps-IsLive {w} here live = (live, record { more = []; groups = sym (append-nil w.row_groups) })
  steps-IsLive {w} {w'} (followed_by first rest) live =
      let (live1, ext1) = step-IsLive first live in
      let (live2, ext2) = steps-IsLive rest live1 in
      (
        live2,
        record {
          more = ext1.more ++ ext2.more;
          groups =
              ext2.groups
              ∙ ap (λ (gs : List RowGroupMeta). gs ++ ext2.more) ext1.groups
              ∙ append_assoc w.row_groups ext1.more ext2.more;
        },
      )

  handle :
      (path : String) (w : N2PWriter)
      → n2p_writer_open ext (some path) ≡ (N2PStatus.ok, some w)
      → (w.out.is_open ≡ true) × (w.footer_written ≡ false)
  unfolding n2p_writer_open
  handle path w e = go (ext.opens path) e
    where
      go :
          (b : Bool)
          → ◌≡◌ {A = N2PStatus × Option N2PWriter}
              (if b
                then (N2PStatus.ok, some (write_bytes ext magic (new_writer path true)).1)
                else (io_error, some (record (new_writer path false) { last_error = cannot_open })))
              (N2PStatus.ok, some w)
          → (w.out.is_open ≡ true) × (w.footer_written ≡ false)
      go true e' =
          let h = write_bytes-Wrote ext magic (new_writer path true) in
          let same : (write_bytes ext magic (new_writer path true)).1 ≡ w = cc e' in
          rw (← same) (h.same.opened, h.same.footer)
      go false e' = absurd (cc e')

  open-IsLive :
      (path : String) (w : N2PWriter)
      → n2p_writer_open ext (some path) ≡ (N2PStatus.ok, some w)
      → IsLive w
  open-IsLive path w e = record {
    consistent = open-IsConsistent ext path w e;
    opened = (handle path w e).0;
    unwritten = (handle path w e).1;
  }

  -- A file is complete after any life of its writer: if the open and the close report success, then
  -- whatever was called between them, with whatever arguments and statuses, the file ends in a
  -- footer, the footer's length, which reads back, and the magic bytes, and every recorded row group
  -- is stored where its record says.
  pub session-Complete :
      (path : String) (w w' : N2PWriter) (out : Stream)
      → n2p_writer_open ext (some path) ≡ (N2PStatus.ok, some w)
      → w ⟶* w'
      → n2p_writer_close ext (some w') ≡ (N2PStatus.ok, some out)
      → (footer : Bytes) × (serialize_footer ext w' ≡ ok footer)
        × (out.bytes ≡ w'.out.bytes ++ tail_of footer)
        × (read_le 4 out.bytes (length w'.out.bytes + length footer) ≡ length footer)
        × All (StoredIn w'.leaves out.bytes) w'.row_groups
  session-Complete path w w' out e calls closed =
      let live = (steps-IsLive calls (open-IsLive path w e)).0 in
      close-Complete ext w' out live.consistent live.opened live.unwritten closed
