-- ===== src/Writer/Close.antt =====
-- Opening and closing: a fresh writer agrees with its file, and a file that was closed with success
-- is complete.
use nanoarrow2parquet.Common.{
  ◌+◌, ◌<◌, ◌^◌, ◌-◌, ◌≡◌, refl, ◌∙◌, arith, Bool, true, false, ltb, String, Option, some, [], ◌++◌,
  length, All, Bool-cases, inl, inr, if◌then◌else◌,
}
use nanoarrow2parquet.Bytes.{Bytes, append_le, read_le}
use nanoarrow2parquet.Bytes.RoundTrip.{read_le-append, read_le-append_le}
use nanoarrow2parquet.External.{External}
use nanoarrow2parquet.Writer.State.{Stream, N2PWriter, done, returned, crashed, write_bytes}
use nanoarrow2parquet.Writer.Footer.{serialize_footer}
use nanoarrow2parquet.Writer.Api.{
  magic, new_writer, n2p_writer_open, n2p_writer_close, write_encoded, finish_close, footer_length,
}
use nanoarrow2parquet.Writer.Rules.{Wrote, Wrote-trans, write_bytes-Wrote}
use nanoarrow2parquet.Writer.Consistency.{IsConsistent, StoredIn, StoredIn-append}
use nanoarrow2parquet.Result.{N2PStatus, io_error, cannot_open, Result, ok, err, crash}

-- The footer's bytes, its length and the magic bytes.
abbrev pub tail_of : Bytes → Bytes
tail_of footer = footer ++ (footer_length (length footer) ++ magic)

module _ (ext : External) where
  written_magic-IsConsistent :
      (path : String) → IsConsistent (write_bytes ext magic (new_writer path true)).1
  written_magic-IsConsistent path =
      let h = write_bytes-Wrote ext magic (new_writer path true) in
      record {
        file = λ g.
            rw (h.appended g)
              (record { size = h.advance; begins = ([], refl); stored = rw h.same.groups tt });
        counted = rw (h.same.rows, h.same.groups);
        unlocked = λ u. h.same.groups;
      }

  -- A writer that was opened with success agrees with its file, which holds the magic bytes unless
  -- their write has failed.
  pub open-IsConsistent :
      (path : String) (w : N2PWriter)
      → n2p_writer_open ext (some path) ≡ (N2PStatus.ok, some w)
      → IsConsistent w
  unfolding n2p_writer_open
  open-IsConsistent path w e = go (ext.opens path) e
    where
      go :
          (b : Bool)
          → ◌≡◌ {A = N2PStatus × Option N2PWriter}
              (if b
                then (N2PStatus.ok, some (write_bytes ext magic (new_writer path true)).1)
                else (io_error, some (record (new_writer path false) { last_error = cannot_open })))
              (N2PStatus.ok, some w)
          → IsConsistent w
      go true e' =
          let same : (write_bytes ext magic (new_writer path true)).1 ≡ w = cc e' in
          rw (← same) (written_magic-IsConsistent path)
      go false e' = absurd (cc e')

  -- The writer after the three writes that end a file.
  ended : Bytes → N2PWriter → N2PWriter
  ended footer w =
      (write_bytes ext magic
        (write_bytes ext (footer_length (length footer)) (write_bytes ext footer w).1).1).1

  ended-Wrote : (footer : Bytes) (w : N2PWriter) → Wrote w (tail_of footer) (ended footer w)
  unfolding ended
  ended-Wrote footer w =
      let len = footer_length (length footer) in
      let w1 = (write_bytes ext footer w).1 in
      let w2 = (write_bytes ext len w1).1 in
      Wrote-trans w w1 (write_bytes ext magic w2).1 footer (len ++ magic)
        (write_bytes-Wrote ext footer w)
        (Wrote-trans w1 w2 (write_bytes ext magic w2).1 len magic (write_bytes-Wrote ext len w1)
          (write_bytes-Wrote ext magic w2))

  finish_close_done :
      (u : Unit {0}) (w : N2PWriter) (out : Stream)
      → finish_close ext (done u, w) ≡ (N2PStatus.ok, some out)
      → (w.out.good ≡ true) × (out.bytes ≡ w.out.bytes)
  unfolding finish_close
  finish_close_done u w out e = ground arith

  finish_close_failed :
      (w : N2PWriter) (out : Stream)
      → finish_close ext (returned io_error, w) ≡ (N2PStatus.ok, some out)
      → ⊥
  unfolding finish_close
  finish_close_failed w out e = ground arith

  finish_close_crashed :
      (w : N2PWriter) (out : Stream) → finish_close ext (crashed, w) ≡ (N2PStatus.ok, some out) → ⊥
  unfolding finish_close
  finish_close_crashed w out e = ground arith

  -- Only a footer that was encoded, fits and was written ends a file with success.
  closed_with :
      (r : Result Bytes) (w : N2PWriter) (out : Stream)
      → finish_close ext (write_encoded ext r w) ≡ (N2PStatus.ok, some out)
      → (footer : Bytes) × (r ≡ ok footer)
        × (length footer < 2 ^ 32)
        × (w.out.good ≡ true)
        × (out.bytes ≡ w.out.bytes ++ tail_of footer)
  unfolding write_encoded
  closed_with (ok footer) w out e = elim (Bool-cases (ltb (2 ^ 32 - 1) (length footer))) [
    | inl big ↦ absurd (finish_close_failed _ out (rw big at e))
    | inr fits ↦
        let wrote = ended-Wrote footer w in
        let closed =
          finish_close_done tt (ended footer w) out (unfold ended write_bytes in rw fits at e) in
        (footer, refl, ground arith, wrote.was_good closed.0, closed.1 ∙ wrote.appended closed.0)
  ]
  closed_with (err x) w out e = absurd (finish_close_failed _ out e)
  closed_with crash w out e = absurd (finish_close_crashed _ out e)

  -- The four bytes behind a footer that fits are its length.
  read_length :
      (before footer : Bytes)
      → length footer < 2 ^ 32
      → read_le 4 (before ++ tail_of footer) (length before + length footer) ≡ length footer
  unfolding append_le
  read_length before footer fits =
      read_le-append 4 before (tail_of footer) _ (length footer) refl
      ∙ read_le-append 4 footer (append_le [] (length footer) ++ magic) _ 0 (omega arith)
      ∙ read_le-append_le [] magic (length footer) fits

  -- A file that was closed with success is complete: behind what the writer had written stand the
  -- footer, its length in four bytes, which read back as that length, and the magic bytes; and every
  -- row group is where its record says.
  pub close-Complete :
      (w : N2PWriter) (out : Stream)
      → IsConsistent w
      → w.out.is_open ≡ true
      → w.footer_written ≡ false
      → n2p_writer_close ext (some w) ≡ (N2PStatus.ok, some out)
      → (footer : Bytes) × (serialize_footer ext w ≡ ok footer)
        × (out.bytes ≡ w.out.bytes ++ tail_of footer)
        × (read_le 4 out.bytes (length w.out.bytes + length footer) ≡ length footer)
        × All (StoredIn w.leaves out.bytes) w.row_groups
  unfolding n2p_writer_close
  close-Complete w out c opened unwritten e =
      let (footer, encoded, fits, good, bytes) =
        closed_with (serialize_footer ext w) w out (simp (opened, unwritten) at e) in
      (
        footer,
        encoded,
        bytes,
        rw bytes (read_length w.out.bytes footer fits),
        rw bytes (
            StoredIn-append w.leaves w.out.bytes (tail_of footer) w.row_groups
              (c.file good).stored),
      )
