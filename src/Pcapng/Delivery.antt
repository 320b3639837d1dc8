-- ===== src/Pcapng/Delivery.antt =====
-- The window delivers the bytes of its source: each once, in order, at its offset.
use nanoarrow2parquet.Common.{
  ℕ, zero, suc, ◌+◌, ◌-◌, ◌<◌, ◌≤◌, ◌≡◌, refl, sym, ap, ◌∙◌, arith, Bool, true, false, not, ◌&&◌,
  ◌==◌, ltb, [], ◌∷◌, ◌++◌, length, length-append, append_assoc, drop, take, take-append,
  drop-append, inl, inr, ◌⊎◌, Bool-cases, if◌then◌else◌,
}
use nanoarrow2parquet.Bytes.{Bytes}
use nanoarrow2parquet.Pcapng.Window.{Window, new_window, top_up, fill_rounds, fill, consume, grow}

-- How a sequential source reads, seen through the bytes that it has still to give: a read takes some
-- from their front, no more than asked for, and none only if none is asked for or left.
pub record Reads {S : Type 0} (read : S → ℕ → Bytes × S) (rest : S → Bytes) : Type 0 where
  pub front : (s : S) (n : ℕ) → (read s n).0 ++ rest (read s n).1 ≡ rest s
  pub at_most : (s : S) (n : ℕ) → length (read s n).0 ≤ n
  pub some_left : (s : S) (n : ℕ) → 0 < n → length (read s n).0 ≡ 0 → rest s ≡ []

module _ {S : Type 0} (read : S → ℕ → Bytes × S) (rest : S → Bytes) (reads : Reads read rest) where
  -- What a window of the bytes `file` satisfies: it holds the bytes from its base on, the source gives
  -- those behind, and at the end of the file there are none.
  pub record IsWindow (file : Bytes) (w : Window S) : Type 0 where
    pub past : Bytes
    pub whole : past ++ (w.bytes ++ rest w.source) ≡ file
    pub placed : length past ≡ w.base
    pub room : length w.bytes ≤ w.capacity
    pub ended : w.eof ≡ true → rest w.source ≡ []

  -- Nothing but the bytes at hand, the source and the mark has changed, and no byte is lost.
  record MovedOn (w w' : Window S) : Type 0 where
    base : w'.base ≡ w.base
    capacity : w'.capacity ≡ w.capacity
    bytes : w'.bytes ++ rest w'.source ≡ w.bytes ++ rest w.source
    more : length w.bytes ≤ length w'.bytes
    room : length w'.bytes ≤ w'.capacity
    ended : w'.eof ≡ true → rest w'.source ≡ []

  top_up-MovedOn :
      (w : Window S) → length w.bytes < w.capacity → w.eof ≡ false → MovedOn w (top_up read w)
  unfolding top_up
  top_up-MovedOn w space open_yet =
      let n = w.capacity - length w.bytes in
      let got = (read w.source n).0 in
      let grew = length-append w.bytes got in
      let few = reads.at_most w.source n in
      record {
        base = refl;
        capacity = refl;
        bytes =
            append_assoc w.bytes got (rest (read w.source n).1)
            ∙ ap (λ (t : Bytes). w.bytes ++ t) (reads.front w.source n);
        more = omega (arith, grew);
        room = omega (arith, grew, few);
        ended = λ at_end. nothing_left n got refl (omega arith) at_end;
      }
    where
      nothing_left :
          (n : ℕ) (got : Bytes)
          → got ≡ (read w.source n).0
          → 0 < n
          → (if length got == 0 then true else w.eof) ≡ true
          → rest (read w.source n).1 ≡ []
      nothing_left n [] is pos at_end =
          let none_left = reads.some_left w.source n pos (sym (ap (λ (t : Bytes). length t) is)) in
          let all : [] ++ rest (read w.source n).1 ≡ rest w.source =
            ap (λ (t : Bytes). t ++ rest (read w.source n).1) is ∙ reads.front w.source n in
          all ∙ none_left
      nothing_left n (b ∷ got) is pos at_end = absurd (ground arith)

  MovedOn-trans : (u v w : Window S) → MovedOn u v → MovedOn v w → MovedOn u w
  MovedOn-trans u v w a b = record {
    base = b.base ∙ a.base;
    capacity = b.capacity ∙ a.capacity;
    bytes = b.bytes ∙ a.bytes;
    more = omega (arith, a.more, b.more);
    room = b.room;
    ended = b.ended;
  }

  -- A round that adds nothing is the last.
  rounds_left : Window S → ℕ
  rounds_left w = (w.capacity - length w.bytes) + (if w.eof then 0 else 1)

  top_up-rounds_left :
      (w : Window S)
      → length w.bytes < w.capacity
      → w.eof ≡ false
      → rounds_left (top_up read w) < rounds_left w
  unfolding top_up rounds_left
  top_up-rounds_left w space open_yet =
      let n = w.capacity - length w.bytes in
      let got = (read w.source n).0 in
      let grew = length-append w.bytes got in
      let few = reads.at_most w.source n in
      elim (Bool-cases (length got == 0)) [
        | inl none ↦ rw (none, open_yet) (omega (arith, grew))
        | inr some ↦
            let added : 0 < length got = ground arith in
            rw (some, open_yet) (omega (arith, grew, few))
      ]

  -- Where `fill` stops.
  abbrev pub Stopped : Window S → Type 0
  Stopped w = (w.eof ≡ true) ⊎ (length w.bytes ≡ w.capacity)

  fill_rounds-MovedOn :
      (fuel : ℕ) (w : Window S)
      → rounds_left w ≤ fuel
      → length w.bytes ≤ w.capacity
      → (w.eof ≡ true → rest w.source ≡ [])
      → MovedOn w (fill_rounds read fuel w) × Stopped (fill_rounds read fuel w)
  unfolding fill_rounds rounds_left
  fill_rounds-MovedOn zero w enough room ended = (
    record {
      base = refl;
      capacity = refl;
      bytes = refl;
      more = omega arith;
      room = room;
      ended = ended;
    },
    elim (Bool-cases w.eof) [ inl at_end ↦ inl at_end | inr open_yet ↦ absurd (ground arith) ],
  )
  fill_rounds-MovedOn (suc fuel) w enough room ended =
      elim (Bool-cases (ltb (length w.bytes) w.capacity && not w.eof)) [
        | inr over ↦ rw over (stay, at_stop over)
        | inl on ↦
            let space : length w.bytes < w.capacity = ground arith in
            let open_yet : w.eof ≡ false = ground arith in
            let one = top_up-MovedOn w space open_yet in
            let fewer = top_up-rounds_left w space open_yet in
            let (more, stopped) =
              fill_rounds-MovedOn fuel (top_up read w) (omega (arith, fewer)) one.room one.ended in
            rw on (MovedOn-trans w (top_up read w) _ one more, stopped)
      ]
    where
      stay : MovedOn w w
      stay = record {
        base = refl;
        capacity = refl;
        bytes = refl;
        more = omega arith;
        room = room;
        ended = ended;
      }

      at_stop : (ltb (length w.bytes) w.capacity && not w.eof) ≡ false → Stopped w
      at_stop over = elim (Bool-cases w.eof) [
        | inl at_end ↦ inl at_end
        | inr open_yet ↦ inr (ground arith)
      ]

  fill-MovedOn :
      (file : Bytes) (w : Window S)
      → IsWindow file w
      → MovedOn w (fill read w) × Stopped (fill read w)
  unfolding fill rounds_left
  fill-MovedOn file w inv =
      fill_rounds-MovedOn (w.capacity + 1) w (rounds_bound w.eof) inv.room inv.ended
    where
      rounds_bound :
          (b : Bool) → (w.capacity - length w.bytes) + (if b then 0 else 1) ≤ w.capacity + 1
      rounds_bound true = omega arith
      rounds_bound false = omega arith

  fill-IsWindow : (file : Bytes) (w : Window S) → IsWindow file w → IsWindow file (fill read w)
  fill-IsWindow file w inv =
      let moved = (fill-MovedOn file w inv).0 in
      record {
        past = inv.past;
        whole = ap (λ (t : Bytes). inv.past ++ t) moved.bytes ∙ inv.whole;
        placed = inv.placed ∙ sym moved.base;
        room = moved.room;
        ended = moved.ended;
      }

  take-drop : (n : ℕ) (xs : Bytes) → take n xs ++ drop n xs ≡ xs
  take-drop zero xs = refl
  take-drop (suc n) [] = refl
  take-drop (suc n) (x ∷ xs) = ap (λ (t : Bytes). x ∷ t) (take-drop n xs)

  pub length-drop : (n : ℕ) (xs : Bytes) → length (drop n xs) ≡ length xs - n
  length-drop zero xs = omega arith
  length-drop (suc n) [] = omega arith
  length-drop (suc n) (x ∷ xs) = omega (arith, length-drop n xs)

  pub consume-IsWindow :
      (file : Bytes) (n : ℕ) (w : Window S) → IsWindow file w → IsWindow file (consume n w)
  unfolding consume
  consume-IsWindow file n w inv =
      shift (if ltb (length w.bytes) n then length w.bytes else n) (ground arith)
    where
      shift :
          (n' : ℕ)
          → n' ≤ length w.bytes
          → IsWindow file (record w { bytes = drop n' w.bytes; base = w.base + n' })
      shift n' h =
          let split = take-drop n' w.bytes in
          let kept = length-drop n' w.bytes in
          let gone = length-append inv.past (take n' w.bytes) in
          let taken = length-append (take n' w.bytes) (drop n' w.bytes) in
          let halves : length (take n' w.bytes ++ drop n' w.bytes) ≡ length w.bytes =
            ap length split in
          record {
            past = inv.past ++ take n' w.bytes;
            whole =
                append_assoc inv.past (take n' w.bytes) (drop n' w.bytes ++ rest w.source)
                ∙ ap (λ (t : Bytes). inv.past ++ t)
                    (sym (append_assoc (take n' w.bytes) (drop n' w.bytes) (rest w.source)))
                ∙ ap (λ (t : Bytes). inv.past ++ (t ++ rest w.source)) split
                ∙ inv.whole;
            placed = omega (arith, gone, taken, halves, kept, inv.placed);
            room = omega (arith, kept, inv.room);
            ended = inv.ended;
          }

  pub grow-IsWindow : (file : Bytes) (w : Window S) → IsWindow file w → IsWindow file (grow w)
  unfolding grow
  grow-IsWindow file w inv = record {
    past = inv.past;
    whole = inv.whole;
    placed = inv.placed;
    room = omega (arith, inv.room);
    ended = inv.ended;
  }

  infix 40 ◌⟶◌
  -- One call of a window's three operations after another.
  pub data ◌⟶◌ : Window S → Window S → Type 0 where
    here : {w : Window S} → w ⟶ w
    filled : {w v : Window S} → fill read w ⟶ v → w ⟶ v
    consumed : {w v : Window S} (n : ℕ) → consume n w ⟶ v → w ⟶ v
    grown : {w v : Window S} → grow w ⟶ v → w ⟶ v

  steps-IsWindow : (file : Bytes) {w v : Window S} → w ⟶ v → IsWindow file w → IsWindow file v
  steps-IsWindow file here inv = inv
  steps-IsWindow file {w} (filled next) inv = steps-IsWindow file next (fill-IsWindow file w inv)
  steps-IsWindow file {w} (consumed n next) inv =
      steps-IsWindow file next (consume-IsWindow file n w inv)
  steps-IsWindow file {w} (grown next) inv = steps-IsWindow file next (grow-IsWindow file w inv)

  pub new_window-IsWindow : (s : S) (capacity : ℕ) → IsWindow (rest s) (new_window s capacity)
  new_window-IsWindow s capacity = record {
    past = [];
    whole = refl;
    placed = refl;
    room = omega arith;
    ended = λ e. absurd (cc e);
  }

  middle :
      (past bytes after : Bytes) (k : ℕ)
      → length past ≡ k
      → take (length bytes) (drop k (past ++ (bytes ++ after))) ≡ bytes
  middle past bytes after k is =
      rw (← is)
        (ap (take (length bytes)) (drop-append past (bytes ++ after)) ∙ take-append bytes after)

  -- A window shows its file: whatever calls of `fill`, `consume` and `grow` come after the window was
  -- made, in any order and with any number of bytes to consume, it holds exactly the bytes of the file
  -- from its base on, as many as it has and at most its capacity, and if it is at the end of the file
  -- they reach the file's end. Reads of the source must give its bytes in order, and none only at
  -- the end.
  pub steps-Shows :
      (s : S) (capacity : ℕ) (w : Window S)
      → new_window s capacity ⟶ w
      → (w.bytes ≡ take (length w.bytes) (drop w.base (rest s)))
        × (length w.bytes ≤ w.capacity)
        × (w.eof ≡ true → w.base + length w.bytes ≡ length (rest s))
  steps-Shows s capacity w steps =
      let inv = steps-IsWindow (rest s) steps (new_window-IsWindow s capacity) in
      let whole = inv.whole in
      (
        sym (middle inv.past w.bytes (rest w.source) w.base inv.placed)
            ∙ ap (λ (t : Bytes). take (length w.bytes) (drop w.base t)) whole,
        inv.room,
        λ at_end.
            let nothing : length (rest w.source) ≡ 0 =
              ap (λ (t : Bytes). length t) (inv.ended at_end) in
            let all : length (inv.past ++ (w.bytes ++ rest w.source)) ≡ length (rest s) =
              ap (λ (t : Bytes). length t) whole in
            omega (
              arith,
              nothing,
              all,
              length-append inv.past (w.bytes ++ rest w.source),
              length-append w.bytes (rest w.source),
              inv.placed,
            ),
      )

  -- `fill` returns: its rounds are at most one more than the capacity, and then the window is full or at
  -- the end of its file; it has lost no byte, and keeps its base and capacity. Reads of the source
  -- must give its bytes in order, and none only at the end.
  pub fill-Stopped :
      (file : Bytes) (w : Window S)
      → IsWindow file w
      → Stopped (fill read w)
        × (length w.bytes ≤ length (fill read w).bytes)
        × ((fill read w).base ≡ w.base)
        × ((fill read w).capacity ≡ w.capacity)
        × IsWindow file (fill read w)
  fill-Stopped file w inv =
      let (moved, stopped) = fill-MovedOn file w inv in
      (stopped, moved.more, moved.base, moved.capacity, fill-IsWindow file w inv)
