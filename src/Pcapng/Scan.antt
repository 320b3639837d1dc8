-- ===== src/Pcapng/Scan.antt =====
-- The converter's loop goes over the bytes of its file (`Converter::run` of
-- examples/pcapng2parquet/src/pcapng2parquet_main.cpp): window by window, in order.
use nanoarrow2parquet.Common.{
  ℕ, zero, suc, ◌<◌, ◌≡◌, refl, ap, arith, Bool, true, false, ◌==◌, Option, none, some, List, [],
  ◌++◌, length, length-append, inl, inr, if◌then◌else◌,
}
use nanoarrow2parquet.Bytes.{Bytes}
use nanoarrow2parquet.External.{External}
use nanoarrow2parquet.Pcapng.Args.{Args}
use nanoarrow2parquet.Pcapng.Window.{Window, new_window, full, fill, consume, grow}
use nanoarrow2parquet.Pcapng.Delivery.{
  Reads, IsWindow, Stopped, fill-Stopped, consume-IsWindow, grow-IsWindow, new_window-IsWindow,
}
use nanoarrow2parquet.Pcapng.Blocks.{BlockRef, PacketRow, Capture}
use nanoarrow2parquet.Pcapng.Convert.{Converter, process_window, window_rows}
use nanoarrow2parquet.Pcapng.Run.{
  Ended, done, failed, crashed, no_fuel, Round, stop, again, starved, after_window, after_scan,
  round, run_windows, past_count,
}
use nanoarrow2parquet.Pcapng.Packets.{
  Windows, start, scanned, window, ShownAt, Over, count_reached, all_taken, no_block,
}

module _ {S : Type 0} (read : S → ℕ → Bytes × S) (rest : S → Bytes) (reads : Reads read rest)
    {R St D L : Type 0} (cap : Capture R St D L) (ext : External) (a : Args) (file : Bytes) where
  -- The loop before a round: the windows so far have taken the file up to the window's base, and the
  -- window, which has been filled, stands there.
  pub record Reached (c0 c : Converter St D L) (w : Window S) : Type 0 where
    pub rows : List PacketRow
    pub windows : Windows cap ext a file c0 rows w.base c
    pub shows : IsWindow read rest reads file w
    pub filled : Stopped read rest reads w
    pub has_room : 0 < w.capacity

  -- The loop after its last round.
  pub record Scanned (c0 c : Converter St D L) : Type 0 where
    pub rows : List PacketRow
    pub base : ℕ
    pub windows : Windows cap ext a file c0 rows base c
    pub over : Over cap ext a file base c

  -- A round goes on, or ends with success, from windows that were all processed with success.
  abbrev OnRound : Converter St D L → Round (Converter St D L) (Window S) → Type 0
  OnRound c0 (stop (done c)) = Scanned c0 c
  OnRound c0 (stop (failed c)) = Unit {0}
  OnRound c0 (stop crashed) = Unit {0}
  OnRound c0 (stop no_fuel) = Unit {0}
  OnRound c0 (again c w) = Reached c0 c w

  shown :
      (w : Window S) → IsWindow read rest reads file w → ShownAt cap ext a file w.base w.bytes w.eof
  shown w inv = record {
    past = inv.past;
    more = rest w.source;
    whole = inv.whole;
    placed = inv.placed;
    at_end = inv.ended;
  }

  fill-Reached :
      (c0 c : Converter St D L) (w : Window S) (rows : List PacketRow)
      → Windows cap ext a file c0 rows w.base c
      → IsWindow read rest reads file w
      → 0 < w.capacity
      → Reached c0 c (fill read w)
  fill-Reached c0 c w rows seen inv room =
      let (stopped, more, base, capacity, inv') = fill-Stopped read rest reads file w inv in
      record {
        rows = rows;
        windows = rw base seen;
        shows = inv';
        filled = stopped;
        has_room = omega (arith, capacity, room);
      }

  -- An empty window that was filled stands at the end of the file.
  empty-end :
      (w : Window S)
      → IsWindow read rest reads file w
      → Stopped read rest reads w
      → 0 < w.capacity
      → length w.bytes ≡ 0
      → w.base ≡ length file
  empty-end w inv stopped room empty =
      let all : length (inv.past ++ (w.bytes ++ rest w.source)) ≡ length file =
        ap (λ (t : Bytes). length t) inv.whole in
      let at_end : w.eof ≡ true = elim stopped [
        | inl e ↦ e
        | inr filled ↦ absurd (omega (arith, filled))
      ] in
      let none_left : length (rest w.source) ≡ 0 =
        ap (λ (t : Bytes). length t) (inv.ended at_end) in
      omega (
        arith,
        all,
        none_left,
        length-append inv.past (w.bytes ++ rest w.source),
        length-append w.bytes (rest w.source),
        inv.placed,
      )

  round-OnRound :
      (c0 c : Converter St D L) (w : Window S)
      → Reached c0 c w
      → OnRound c0 (round read cap ext a c w)
  unfolding round after_scan starved after_window consume grow
  round-OnRound c0 c w h = tested (length w.bytes == 0) refl
    where
      starve :
          (refs : List (BlockRef R)) (st : St)
          → cap.scan_window c.st w.bytes w.eof ≡ some (refs, 0, st)
          → OnRound c0 (starved read cap ext a (record c { st = st }) w)
      starve refs st found = at_end w.eof refl
        where
          before : Windows cap ext a file c0 h.rows w.base (record c { st = st })
          before = scanned w.bytes w.eof refs st h.windows (shown w h.shows) found refl

          refilled :
              (b : Bool) → Reached c0 (record c { st = st }) (fill read (if b then grow w else w))
          refilled true =
              fill-Reached c0 (record c { st = st }) (grow w) h.rows before
                (grow-IsWindow read rest reads file w h.shows) (omega (arith, h.has_room))
          refilled false = fill-Reached c0 (record c { st = st }) w h.rows before h.shows h.has_room

          at_end :
              (b : Bool)
              → w.eof ≡ b
              → OnRound c0 (
                  if b
                  then stop (done (record c { st = st }))
                  else again (record c { st = st }) (fill read (if full w then grow w else w)))
          at_end true e = record {
            rows = h.rows;
            base = w.base;
            windows = before;
            over = no_block w.bytes c.st refs (rw e at (shown w h.shows)) (rw e at found);
          }
          at_end false e = refilled (full w)

      processed :
          (refs : List (BlockRef R)) (consumed : ℕ) (st : St) (x : Option (Bool × Converter St D L))
          → cap.scan_window c.st w.bytes w.eof ≡ some (refs, consumed, st)
          → process_window cap ext a w.bytes refs (record c { st = st }) ≡ x
          → OnRound c0 (after_window read cap ext a consumed w x)
      processed refs consumed st none found e = tt
      processed refs consumed st (some (false, c2)) found e = tt
      processed refs consumed st (some (true, c2)) found e = split (past_count a c2.global_pid) refl
        where
          rows' : List PacketRow
          rows' = h.rows ++ (window_rows cap a w.bytes refs (record c { st = st })).0

          after : Windows cap ext a file c0 rows' (consume consumed w).base c2
          after =
              window w.bytes w.eof refs consumed st h.windows (shown w h.shows) found e refl refl

          split :
              (b : Bool)
              → past_count a c2.global_pid ≡ b
              → OnRound c0 (if b then stop (done c2) else again c2 (fill read (consume consumed w)))
          split true past = record {
            rows = rows';
            base = (consume consumed w).base;
            windows = after;
            over = count_reached past;
          }
          split false past =
              fill-Reached c0 c2 (consume consumed w) rows' after
                (consume-IsWindow read rest reads file consumed w h.shows) h.has_room

      scan :
          (x : Option (List (BlockRef R) × ℕ × St))
          → cap.scan_window c.st w.bytes w.eof ≡ x
          → OnRound c0 (after_scan read cap ext a c w x)
      scan none found = tt
      scan (some (refs, consumed, st)) found = split (consumed == 0) refl
        where
          split :
              (b : Bool)
              → (consumed == 0) ≡ b
              → OnRound c0 (
                  if b
                  then starved read cap ext a (record c { st = st }) w
                  else after_window read cap ext a consumed w
                      (process_window cap ext a w.bytes refs (record c { st = st })))
          split true e =
              let nothing : consumed ≡ 0 = ground arith in starve refs st (rw nothing at found)
          split false e = processed refs consumed st _ found refl

      tested :
          (b : Bool)
          → (length w.bytes == 0) ≡ b
          → OnRound c0 (
              if b
              then stop (done c)
              else after_scan read cap ext a c w (cap.scan_window c.st w.bytes w.eof))
      tested true e = record {
        rows = h.rows;
        base = w.base;
        windows = h.windows;
        over = all_taken (empty-end w h.shows h.filled h.has_room (ground arith));
      }
      tested false e = scan (cap.scan_window c.st w.bytes w.eof) refl

  pub run_windows-Scanned :
      (fuel : ℕ) (c0 c c' : Converter St D L) (w : Window S)
      → Reached c0 c w
      → run_windows read cap ext a fuel c w ≡ done c'
      → Scanned c0 c'
  unfolding run_windows
  run_windows-Scanned zero c0 c c' w seen ran = absurd (ground arith)
  run_windows-Scanned (suc fuel) c0 c c' w seen ran =
      next (round read cap ext a c w) (round-OnRound c0 c w seen)
        (λ c1 w1 seen1 ran1. run_windows-Scanned fuel c0 c1 c' w1 seen1 ran1) ran
    where
      next :
          (r : Round (Converter St D L) (Window S))
          → OnRound c0 r
          → ((c1 : Converter St D L) (w1 : Window S)
              → Reached c0 c1 w1
              → run_windows read cap ext a fuel c1 w1 ≡ done c'
              → Scanned c0 c')
          → ◌≡◌ {A = Ended (Converter St D L)}
              (elim r [ stop e ↦ e | again c1 w1 ↦ run_windows read cap ext a fuel c1 w1 ])
              (done c')
          → Scanned c0 c'
      next (stop (done c1)) h ih ran' = let same : c1 ≡ c' = ground arith in rw (← same) h
      next (stop (failed c1)) h ih ran' = absurd (ground arith)
      next (stop crashed) h ih ran' = absurd (ground arith)
      next (stop no_fuel) h ih ran' = absurd (ground arith)
      next (again c1 w1) h ih ran' = ih c1 w1 h ran'

  -- The loop of a run: it starts at the front of its file.
  pub first-Reached :
      (c : Converter St D L) (s : S)
      → rest s ≡ file
      → Reached c c (fill read (new_window s a.window_bytes))
  first-Reached c s is =
      let inv = new_window-IsWindow read rest reads s a.window_bytes in
      fill-Reached c c (new_window s a.window_bytes) [] start (rw is at inv) (ground arith)
