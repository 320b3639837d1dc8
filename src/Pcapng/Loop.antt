-- ===== src/Pcapng/Loop.antt =====
-- The converter's loop ends (`Converter::run` of
-- examples/pcapng2parquet/src/pcapng2parquet_main.cpp), and what it keeps.
use nanoarrow2parquet.Common.{
  ℕ, zero, suc, ◌+◌, ◌*◌, ◌<◌, ◌≤◌, ◌≡◌, refl, ap, arith, Bool, true, false, ◌==◌, ltb, Option,
  none, some, List, ◌++◌, length, length-append, inl, inr, if◌then◌else◌,
}
use nanoarrow2parquet.Bytes.{Bytes}
use nanoarrow2parquet.External.{External}
use nanoarrow2parquet.Pcapng.Args.{Args}
use nanoarrow2parquet.Pcapng.Window.{Window, new_window, full, fill, consume, grow}
use nanoarrow2parquet.Pcapng.Delivery.{
  Reads, IsWindow, fill-Stopped, consume-IsWindow, grow-IsWindow, new_window-IsWindow, length-drop,
}
use nanoarrow2parquet.Pcapng.Blocks.{BlockRef, Capture}
use nanoarrow2parquet.Pcapng.Convert.{Converter, process_window}
use nanoarrow2parquet.Pcapng.Run.{
  Ended, done, failed, crashed, no_fuel, Round, stop, again, starved, after_window, after_scan,
  round, run_windows, past_count,
}

abbrev pub Finished : {C : Type 0} → Ended C → Type 0
Finished (done c) = Unit {0}
Finished (failed c) = Unit {0}
Finished crashed = Unit {0}
Finished no_fuel = ⊥

module _ {S : Type 0} (read : S → ℕ → Bytes × S) (rest : S → Bytes) (reads : Reads read rest) where
  abbrev unmarked : Bool → ℕ
  unmarked eof = if eof then 0 else 1

  -- The bytes to come, counted so that each round of the loop leaves fewer.
  abbrev left : Window S → ℕ
  left w = 2 * (length w.bytes + length (rest w.source)) + length (rest w.source) + unmarked w.eof

  total :
      (file : Bytes) (w : Window S)
      → IsWindow read rest reads file w
      → w.base + (length w.bytes + length (rest w.source)) ≡ length file
  total file w inv =
      let all : length (inv.past ++ (w.bytes ++ rest w.source)) ≡ length file =
        ap (λ (t : Bytes). length t) inv.whole in
      omega (
        arith,
        all,
        length-append inv.past (w.bytes ++ rest w.source),
        length-append w.bytes (rest w.source),
        inv.placed,
      )

  at_most_one : (b : Bool) → unmarked b ≤ 1
  at_most_one true = omega arith
  at_most_one false = omega arith

  fill-left :
      (file : Bytes) (w : Window S)
      → IsWindow read rest reads file w
      → length w.bytes < w.capacity
      → w.eof ≡ false
      → left (fill read w) < left w
  fill-left file w inv space open_yet =
      let (stopped, more, base, capacity, inv') = fill-Stopped read rest reads file w inv in
      let before = total file w inv in
      let after = total file (fill read w) inv' in
      let one : unmarked w.eof ≡ 1 = ap unmarked open_yet in
      elim stopped [
        | inl at_end ↦
            let none_left : unmarked (fill read w).eof ≡ 0 = ap unmarked at_end in
            omega (arith, before, after, more, base, one, none_left)
        | inr filled ↦
            omega (arith, before, after, base, capacity, filled, one, at_most_one (fill read w).eof)
      ]

  -- A fill leaves no more bytes to come.
  refill-left :
      (file : Bytes) (w : Window S)
      → IsWindow read rest reads file w
      → left (fill read w)
        ≤ 2 * (length w.bytes + length (rest w.source)) + length (rest w.source) + 1
  refill-left file w inv =
      let (stopped, more, base, capacity, inv') = fill-Stopped read rest reads file w inv in
      omega (
        arith,
        total file w inv,
        total file (fill read w) inv',
        more,
        base,
        at_most_one (fill read w).eof,
      )

  consume-left :
      (n : ℕ) (w : Window S)
      → 0 < n
      → 0 < length w.bytes
      → (length (consume n w).bytes < length w.bytes) × ((consume n w).source ≡ w.source)
  unfolding consume
  consume-left n w pos some_bytes = (
    omega (
      arith,
      length-drop read rest reads (if ltb (length w.bytes) n then length w.bytes else n) w.bytes,
      moved,
    ),
    refl,
  )
    where
      moved : 0 < (if ltb (length w.bytes) n then length w.bytes else n)
      moved = ground arith

  module _ {R St D L : Type 0} (cap : Capture R St D L) (ext : External) (a : Args) where
    -- A round that is not the last leaves fewer bytes to come.
    abbrev Advances : Bytes → Window S → Round (Converter St D L) (Window S) → Type 0
    Advances file w (stop e) = Finished e
    Advances file w (again c w') = IsWindow read rest reads file w' × (left w' < left w)

    starved-Advances :
        (file : Bytes) (c : Converter St D L) (w : Window S)
        → IsWindow read rest reads file w
        → 0 < length w.bytes
        → Advances file w (starved read cap ext a c w)
    unfolding starved grow
    starved-Advances file c w inv some_bytes = at_end w.eof refl
      where
        refilled :
            (b : Bool)
            → full w ≡ b
            → w.eof ≡ false
            → IsWindow read rest reads file (fill read (if b then grow w else w))
              × (left (fill read (if b then grow w else w)) < left w)
        refilled true is_full open_yet =
            let inv' = grow-IsWindow read rest reads file w inv in
            let room : length w.bytes < w.capacity * 2 = ground (arith, inv.room) in
            (
              (fill-Stopped read rest reads file (grow w) inv').4,
              fill-left file (grow w) inv' room open_yet,
            )
        refilled false not_full open_yet =
            let room : length w.bytes < w.capacity = ground (arith, inv.room) in
            ((fill-Stopped read rest reads file w inv).4, fill-left file w inv room open_yet)

        at_end :
            (b : Bool)
            → w.eof ≡ b
            → Advances file w
                (if b then stop (done c) else again c (fill read (if full w then grow w else w)))
        at_end true e = tt
        at_end false e = refilled (full w) refl e

    after_window-Advances :
        (file : Bytes) (consumed : ℕ) (w : Window S) (x : Option (Bool × Converter St D L))
        → IsWindow read rest reads file w
        → 0 < length w.bytes
        → 0 < consumed
        → Advances file w (after_window read cap ext a consumed w x)
    unfolding after_window
    after_window-Advances file consumed w none inv some_bytes pos = tt
    after_window-Advances file consumed w (some (false, c)) inv some_bytes pos = tt
    after_window-Advances file consumed w (some (true, c)) inv some_bytes pos =
        counted (past_count a c.global_pid)
      where
        counted :
            (b : Bool)
            → Advances file w
                (if b then stop (done c) else again c (fill read (consume consumed w)))
        counted true = tt
        counted false =
            let inv' = consume-IsWindow read rest reads file consumed w inv in
            let (fewer, same) = consume-left consumed w pos some_bytes in
            let still : length (rest (consume consumed w).source) ≡ length (rest w.source) =
              ap (λ (s : S). length (rest s)) same in
            (
              (fill-Stopped read rest reads file (consume consumed w) inv').4,
              omega (arith, refill-left file (consume consumed w) inv', fewer, still),
            )

    round-Advances :
        (file : Bytes) (c : Converter St D L) (w : Window S)
        → IsWindow read rest reads file w
        → Advances file w (round read cap ext a c w)
    unfolding round after_scan
    round-Advances file c w inv = tested (length w.bytes == 0) refl
      where
        scanned :
            (x : Option (List (BlockRef R) × ℕ × St))
            → 0 < length w.bytes
            → Advances file w (after_scan read cap ext a c w x)
        scanned none pos = tt
        scanned (some (refs, consumed, st)) pos = split (consumed == 0) refl
          where
            split :
                (b : Bool)
                → (consumed == 0) ≡ b
                → Advances file w (
                    if b
                    then starved read cap ext a (record c { st = st }) w
                    else after_window read cap ext a consumed w
                        (process_window cap ext a w.bytes refs (record c { st = st })))
            split true e = starved-Advances file (record c { st = st }) w inv pos
            split false e = after_window-Advances file consumed w _ inv pos (ground arith)

        tested :
            (b : Bool)
            → (length w.bytes == 0) ≡ b
            → Advances file w (
                if b
                then stop (done c)
                else after_scan read cap ext a c w (cap.scan_window c.st w.bytes w.eof))
        tested true e = tt
        tested false e = scanned (cap.scan_window c.st w.bytes w.eof) (ground arith)

    -- The loop over the windows of a capture ends, whatever the scanner makes of the bytes: more rounds
    -- of fuel than are left suffice.
    enough-Finished :
        (file : Bytes) (fuel : ℕ) (c : Converter St D L) (w : Window S)
        → IsWindow read rest reads file w
        → left w < fuel
        → Finished (run_windows read cap ext a fuel c w)
    unfolding run_windows
    enough-Finished file zero c w inv enough = absurd (omega arith)
    enough-Finished file (suc fuel) c w inv enough =
        next (round read cap ext a c w) (round-Advances file c w inv)
          λ c' w' inv' h. enough-Finished file fuel c' w' inv' h
      where
        next :
            (r : Round (Converter St D L) (Window S))
            → Advances file w r
            → ((c' : Converter St D L) (w' : Window S)
                → IsWindow read rest reads file w'
                → left w' < fuel
                → Finished (run_windows read cap ext a fuel c' w'))
            → Finished (elim r as (λ x. Ended (Converter St D L)) [
              | stop e ↦ e
              | again c' w' ↦ run_windows read cap ext a fuel c' w'
            ])
        next (stop e) h ih = h
        next (again c' w') h ih = ih c' w' h.0 (omega (arith, h.1))

    -- The converter's loop ends on every capture, whatever the scanner, the decoders and the writer
    -- make of it, with a result, a failure or a crash of the writer: from a new window it makes its test
    -- at most three times for each byte of the file, and twice more. Reads of the source must give
    -- its bytes in order, and none only at the end.
    pub run_windows-Finished :
        (s : S) (c : Converter St D L) (fuel : ℕ)
        → 3 * length (rest s) + 1 < fuel
        → Finished (run_windows read cap ext a fuel c (fill read (new_window s a.window_bytes)))
    run_windows-Finished s c fuel enough =
        let w = new_window s a.window_bytes in
        let inv = new_window-IsWindow read rest reads s a.window_bytes in
        enough-Finished (rest s) fuel c (fill read w)
          (fill-Stopped read rest reads (rest s) w inv).4
          (omega (arith, refill-left (rest s) w inv))
