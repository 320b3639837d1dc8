-- ===== src/Pcapng/Packets.antt =====
-- The packets table over all the windows of a capture (`process_window` and `Converter::run` of
-- examples/pcapng2parquet/src/pcapng2parquet_main.cpp).
use nanoarrow2parquet.Common.{
  ℕ, ◌+◌, ◌-◌, ◌%◌, ◌^◌, ◌≡◌, refl, sym, ap, ◌∙◌, arith, Bool, true, false, ◌==◌, ltb, Option, none,
  some, List, [], ◌∷◌, ◌++◌, length, length-append, append-nil, ◌⊎◌, inl, inr, if◌then◌else◌,
}
use nanoarrow2parquet.Bytes.{Bytes}
use nanoarrow2parquet.Arrow.{ArrowArray, head}
use nanoarrow2parquet.External.{External}
use nanoarrow2parquet.External.Headers.{RowGroupMeta}
use nanoarrow2parquet.Result.{N2PStatus, invalid_argument, unsupported_type, io_error}
use nanoarrow2parquet.Writer.State.{N2PWriter}
use nanoarrow2parquet.Writer.Api.{n2p_writer_write_batch}
use nanoarrow2parquet.Writer.Outcome.{Added, write_batch-Returned}
use nanoarrow2parquet.Writer.Session.{◌⟶*◌, here, batch_written}
use nanoarrow2parquet.Writer.Files.{snoc}
use nanoarrow2parquet.Pcapng.Args.{Args, all_packets}
use nanoarrow2parquet.Pcapng.Blocks.{BlockRef, PacketRow, Capture}
use nanoarrow2parquet.Pcapng.Convert.{
  Converter, window_rows, write_rows, write_window, process_window,
}
use nanoarrow2parquet.Pcapng.Run.{past_count}
use nanoarrow2parquet.Pcapng.Slices.{
  FollowsOn, window_rows-FollowsOn, ids, ids-append, count_up, count_up-add, kept_before,
}

module _ {R St D L : Type 0} (cap : Capture R St D L) (ext : External) (a : Args) where
  -- What a window that was processed with success did: it had no rows, or they became a row group.
  abbrev Wrote : List PacketRow → Converter St D L → Converter St D L → Type 0
  Wrote rows c c' =
      ((rows ≡ []) × (c' ≡ c))
      ⊎ ((batch : ArrowArray) × (w : N2PWriter) × (cap.to_arrow rows ≡ some batch)
          × (n2p_writer_write_batch ext c.pkt_writer (some c.pkt_schema) (some batch)
              ≡ some (N2PStatus.ok, w))
          × (c' ≡ record c { pkt_writer = w; pkt_row_groups = c.pkt_row_groups + 1 }))

  write_rows-Wrote :
      (rows : List PacketRow) (c c' : Converter St D L) (x : Option ArrowArray)
      → cap.to_arrow rows ≡ x
      → write_rows cap ext x c ≡ some (true, c')
      → Wrote rows c c'
  unfolding write_rows
  write_rows-Wrote rows c c' none e ran = absurd (ground arith)
  write_rows-Wrote rows c c' (some batch) e ran =
      status (n2p_writer_write_batch ext c.pkt_writer (some c.pkt_schema) (some batch)) refl ran
    where
      status :
          (y : Option (N2PStatus × N2PWriter))
          → n2p_writer_write_batch ext c.pkt_writer (some c.pkt_schema) (some batch) ≡ y
          → ◌≡◌ {A = Option (Bool × Converter St D L)}
              (elim y [
                | none ↦ none
                | some (s, w) ↦ elim s [
                  | N2PStatus.ok ↦
                      some
                        (true, record c { pkt_writer = w; pkt_row_groups = c.pkt_row_groups + 1 })
                  | _ ↦ some (false, record c { pkt_writer = w })
                ]
              ])
              (some (true, c'))
          → Wrote rows c c'
      status none call ran = absurd (ground arith)
      status (some (N2PStatus.ok, w)) call ran = inr (batch, w, e, call, ground arith)
      status (some (invalid_argument, w)) call ran = absurd (ground arith)
      status (some (unsupported_type, w)) call ran = absurd (ground arith)
      status (some (io_error, w)) call ran = absurd (ground arith)

  process_window-Wrote :
      (wbytes : Bytes) (refs : List (BlockRef R)) (c c' : Converter St D L)
      → process_window cap ext a wbytes refs c ≡ some (true, c')
      → let x = window_rows cap a wbytes refs c in Wrote x.0 x.1 c'
  unfolding process_window
  process_window-Wrote wbytes refs c c' ran = split (window_rows cap a wbytes refs c) ran
    where
      split :
          (x : List PacketRow × Converter St D L)
          → write_window cap ext x ≡ some (true, c')
          → Wrote x.0 x.1 c'
      split ([], c1) ran' = inl (refl, ground arith)
      split (row ∷ rows, c1) ran' = write_rows-Wrote (row ∷ rows) c1 c' _ refl ran'

  -- The bytes `wbytes` are those of the file from `base` on, and with the mark they reach its end.
  pub record ShownAt (file : Bytes) (base : ℕ) (wbytes : Bytes) (eof : Bool) : Type 0 where
    pub past : Bytes
    pub more : Bytes
    pub whole : past ++ (wbytes ++ more) ≡ file
    pub placed : length past ≡ base
    pub at_end : eof ≡ true → more ≡ []

  -- The scan of the file from `c` on, with the rows of the packets and the place it has got to. In a
  -- window with no complete block nothing moves; otherwise the window's blocks, as the scanner finds
  -- them in the bytes of the file at this place, are processed with success, and the next window
  -- stands behind the bytes that they take.
  pub data Windows (file : Bytes) (c : Converter St D L)
      : List PacketRow → ℕ → Converter St D L → Type 0 where
    start : Windows file c [] 0 c
    scanned :
        {rows : List PacketRow} {base : ℕ} {c1 c2 : Converter St D L} (wbytes : Bytes) (eof : Bool)
        (refs : List (BlockRef R)) (st : St)
        → Windows file c rows base c1
        → ShownAt file base wbytes eof
        → cap.scan_window c1.st wbytes eof ≡ some (refs, 0, st)
        → c2 ≡ record c1 { st = st }
        → Windows file c rows base c2
    window :
        {rows rows' : List PacketRow} {base base' : ℕ} {c1 c2 : Converter St D L} (wbytes : Bytes)
        (eof : Bool) (refs : List (BlockRef R)) (consumed : ℕ) (st : St)
        → Windows file c rows base c1
        → ShownAt file base wbytes eof
        → cap.scan_window c1.st wbytes eof ≡ some (refs, consumed, st)
        → process_window cap ext a wbytes refs (record c1 { st = st }) ≡ some (true, c2)
        → rows' ≡ rows ++ (window_rows cap a wbytes refs (record c1 { st = st })).0
        → base' ≡ base + (if ltb (length wbytes) consumed then length wbytes else consumed)
        → Windows file c rows' base' c2

  -- Where the scan may stop: the count is reached, or the file ends, or the scanner finds no complete
  -- block in what is left of it.
  pub data Over (file : Bytes) (base : ℕ) (c : Converter St D L) : Type 0 where
    count_reached : past_count a c.global_pid ≡ true → Over file base c
    all_taken : base ≡ length file → Over file base c
    no_block :
        (wbytes : Bytes) (before : St) (refs : List (BlockRef R))
        → ShownAt file base wbytes true
        → cap.scan_window before wbytes true ≡ some (refs, 0, c.st)
        → Over file base c

  -- soatins makes one array element of each row.
  abbrev pub Converts : Type 0
  Converts =
      (rows : List PacketRow) (batch : ArrowArray)
      → cap.to_arrow rows ≡ some batch
      → (head batch).length ≡ length rows

  -- The rows of a run are the packets from number `drop` on, as many as are kept of those seen; they
  -- are counted, and the writer has got to its state by calls of the C interface that stored them.
  pub record Stores (w : N2PWriter) (rows : List PacketRow) (c : Converter St D L) : Type 0 where
    pub numbered : ids rows ≡ count_up a.drop (length rows)
    pub kept : length rows ≡ kept_before a c.global_pid
    pub counted : c.emitted ≡ length rows
    pub calls : ◌⟶*◌ ext w c.pkt_writer
    pub stored : c.pkt_writer.total_rows ≡ w.total_rows + length rows
    pub groups : length c.pkt_writer.row_groups ≡ length w.row_groups + c.pkt_row_groups

  window-Stores :
      (converts : Converts) (w : N2PWriter) (rows : List PacketRow) (c c' : Converter St D L)
      (x : List PacketRow × Converter St D L)
      → FollowsOn cap a c x
      → Stores w rows c
      → Wrote x.0 x.1 c'
      → Stores w (rows ++ x.0) c'
  window-Stores converts w rows c c' (more, c1) (numbers, grows, counts, same, groups) h
        (inl (none_new, is)) =
      let nothing : length more ≡ 0 = ap (λ (t : List PacketRow). length t) none_new in
      rw (none_new, append-nil rows, is)
        (record {
          numbered = h.numbered;
          kept = omega (arith, h.kept, grows, nothing);
          counted = omega (arith, h.counted, counts, nothing);
          calls = rw same (h.calls);
          stored = rw same (h.stored);
          groups = rw (same, groups) (h.groups);
        })
  window-Stores converts w rows c c' (more, c1) (numbers, grows, counts, same, groups) h
        (inr (batch, v, made, call, is)) =
      let size = length-append rows more in
      let call' : n2p_writer_write_batch ext c.pkt_writer (some c1.pkt_schema) (some batch)
          ≡ some (N2PStatus.ok, v) =
        rw same at call in
      let added : Added c.pkt_writer (head batch).length v =
        write_batch-Returned ext c.pkt_writer v (some c1.pkt_schema) (some batch) N2PStatus.ok
          call' in
      let many = length-append c.pkt_writer.row_groups (added.group ∷ []) in
      rw is (record {
        numbered =
            ids-append rows more
            ∙ ap (λ (t : List ℕ). t ++ ids more) h.numbered
            ∙ ap (λ (t : List ℕ). count_up a.drop (length rows) ++ t)
                (numbers ∙ ap (λ (k : ℕ). count_up (a.drop + k) (length more)) (sym h.kept))
            ∙ sym (count_up-add a.drop (length rows) (length more))
            ∙ ap (count_up a.drop) (sym size);
        kept = omega (arith, size, h.kept, grows);
        counted = omega (arith, size, h.counted, counts);
        calls =
            snoc ext h.calls (batch_written (some c1.pkt_schema) (some batch) N2PStatus.ok call');
        stored = omega (arith, size, h.stored, added.rows, converts more batch made);
        groups =
            omega (
              arith,
              ap (λ (t : List RowGroupMeta). length t) added.groups,
              many,
              h.groups,
              groups,
            );
      })

  pub Windows-Stores :
      (file : Bytes) (converts : Converts) (c : Converter St D L) {rows : List PacketRow} {base : ℕ}
      {c' : Converter St D L}
      → c.global_pid ≡ 0
      → c.emitted ≡ 0
      → c.pkt_row_groups ≡ 0
      → Windows file c rows base c'
      → Stores c.pkt_writer rows c'
  Windows-Stores file converts c fresh none_yet no_groups start = record {
    numbered = refl;
    kept = rw fresh (nothing_kept (a.take == all_packets));
    counted = none_yet;
    calls = here;
    stored = omega arith;
    groups = omega (arith, no_groups);
  }
    where
      nothing_kept :
          (b : Bool)
          → ◌≡◌ {A = ℕ} 0 (
              (if b
                then 0
                else (if ltb 0 ((a.drop + a.take) % 2 ^ 64)
                    then 0
                    else ((a.drop + a.take) % 2 ^ 64)))
              - (if ltb 0 a.drop then 0 else a.drop))
      nothing_kept true = ground arith
      nothing_kept false = ground arith
  Windows-Stores file converts c fresh none_yet no_groups
        (scanned {rows} {base} {c1} {c2} wbytes eof refs st before shown found is) =
      let h = Windows-Stores file converts c fresh none_yet no_groups before in
      rw is (record {
        numbered = h.numbered;
        kept = h.kept;
        counted = h.counted;
        calls = h.calls;
        stored = h.stored;
        groups = h.groups;
      })
  Windows-Stores file converts c fresh none_yet no_groups
        (window {rows} {rows'} {base} {base'} {c1} {c2} wbytes eof refs consumed st before shown
          found ran is moved) =
      let h = Windows-Stores file converts c fresh none_yet no_groups before in
      let c1' : Converter St D L = record c1 { st = st } in
      let h' : Stores c.pkt_writer rows c1' = record {
        numbered = h.numbered;
        kept = h.kept;
        counted = h.counted;
        calls = h.calls;
        stored = h.stored;
        groups = h.groups;
      } in
      rw is (
        window-Stores converts c.pkt_writer rows c1' c2 (window_rows cap a wbytes refs c1')
          (window_rows-FollowsOn cap a wbytes refs c1') h'
          (process_window-Wrote wbytes refs c1' c2 ran))
