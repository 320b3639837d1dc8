-- ===== src/Pcapng/Slices.antt =====
-- The packets that --drop and --count keep, window by window (`process_window` of
-- examples/pcapng2parquet/src/pcapng2parquet_main.cpp).
use nanoarrow2parquet.Common.{
  ℕ, zero, suc, ◌+◌, ◌-◌, ◌%◌, ◌^◌, ◌<◌, ◌≤◌, ◌≡◌, refl, sym, ap, ◌∙◌, arith, Bool, true, false,
  not, ◌==◌, ltb, Option, List, [], ◌∷◌, ◌++◌, length, length-take, take, drop, if◌then◌else◌,
}
use nanoarrow2parquet.Bytes.{Bytes}
use nanoarrow2parquet.Pcapng.Args.{Args, all_packets}
use nanoarrow2parquet.Pcapng.Blocks.{BlockRef, IdbView, PacketRow, Capture, classify_all}
use nanoarrow2parquet.Pcapng.Convert.{
  Converter, slice_bounds, before, packet_row, decode_packet, keep_packets, window_rows, blocks_of,
}

abbrev smaller : ℕ → ℕ → ℕ
smaller x y = if ltb x y then x else y

-- How many of the first `g` packets of the capture are kept: those from number `drop` on, and with
-- --count those before number `drop + take`, a sum of 64 bits.
abbrev pub kept_before : Args → ℕ → ℕ
kept_before a g =
    (if a.take == all_packets then g else smaller g ((a.drop + a.take) % 2 ^ 64)) - smaller g a.drop

-- The bounds of a window lie in it and keep what the count grows by, from the next number on.
abbrev IsSlice : Args → ℕ → ℕ → ℕ × ℕ → Type 0
IsSlice a g n (lo, hi) =
    (lo ≤ hi)
    × (hi ≤ n)
    × (kept_before a (g + n) ≡ kept_before a g + (hi - lo))
    × (lo < hi → g + lo ≡ a.drop + kept_before a g)

bounds-IsSlice :
    (d e g n : ℕ) (some_left : Bool)
    → let lo = if ltb g d then before d g n else 0 in
      let hi = if some_left then (if ltb g e then before e g n else 0) else n in
      let hi' = if ltb hi lo then lo else hi in
      let kept = λ (k : ℕ). (if some_left then smaller k e else k) - smaller k d in
      (lo ≤ hi')
      × (hi' ≤ n)
      × (kept (g + n) ≡ kept g + (hi' - lo))
      × (lo < hi' → g + lo ≡ d + kept g)
bounds-IsSlice d e g n true = ground arith
bounds-IsSlice d e g n false = ground arith

slice_bounds-IsSlice : (a : Args) (g n : ℕ) → IsSlice a g n (slice_bounds a g n)
unfolding slice_bounds
slice_bounds-IsSlice a g n = split (a.take == all_packets)
  where
    end : ℕ
    end = (a.drop + a.take) % 2 ^ 64

    split :
        (b : Bool)
        → let lo = if ltb g a.drop then before a.drop g n else 0 in
          let hi = if not b then (if ltb g end then before end g n else 0) else n in
          let hi' = if ltb hi lo then lo else hi in
          let kept = λ (k : ℕ). (if b then k else smaller k end) - smaller k a.drop in
          (lo ≤ hi')
          × (hi' ≤ n)
          × (kept (g + n) ≡ kept g + (hi' - lo))
          × (lo < hi' → g + lo ≡ a.drop + kept g)
    split true = bounds-IsSlice a.drop end g n false
    split false = bounds-IsSlice a.drop end g n true

-- So many numbers from `k` on.
abbrev pub count_up : ℕ → ℕ → List ℕ
count_up k zero = []
count_up k (suc n) = k ∷ count_up (k + 1) n

pub count_up-add : (k m n : ℕ) → count_up k (m + n) ≡ count_up k m ++ count_up (k + m) n
count_up-add k zero n =
    let none : 0 + n ≡ n = omega arith in let here : k + 0 ≡ k = omega arith in rw (none, here)
count_up-add k (suc m) n =
    let more : suc m + n ≡ suc (m + n) = omega arith in
    let next : k + suc m ≡ k + 1 + m = omega arith in
    rw (more, next) (ap (λ (t : List ℕ). k ∷ t) (count_up-add (k + 1) m n))

same_start : (k m n : ℕ) → (0 < n → k ≡ m) → count_up k n ≡ count_up m n
same_start k m zero h = refl
same_start k m (suc n) h = ap (λ (t : ℕ). count_up t (suc n)) (h (omega arith))

length-count_up : (k n : ℕ) → length (count_up k n) ≡ n
length-count_up k zero = refl
length-count_up k (suc n) = ap suc (length-count_up (k + 1) n)

abbrev pub ids : List PacketRow → List ℕ
ids [] = []
ids (r ∷ rs) = r.packet_id ∷ ids rs

pub ids-append : (xs ys : List PacketRow) → ids (xs ++ ys) ≡ ids xs ++ ids ys
ids-append [] ys = refl
ids-append (x ∷ xs) ys = ap (λ (t : List ℕ). x.packet_id ∷ t) (ids-append xs ys)

length-ids : (xs : List PacketRow) → length (ids xs) ≡ length xs
length-ids [] = refl
length-ids (x ∷ xs) = ap suc (length-ids xs)

length-drop {ℓ} : {A : Type ℓ} (n : ℕ) (xs : List A) → length (drop n xs) ≡ length xs - n
length-drop zero xs = omega arith
length-drop (suc n) [] = omega arith
length-drop (suc n) (x ∷ xs) = omega (arith, length-drop n xs)

length-slice {ℓ} :
    {A : Type ℓ} (lo hi : ℕ) (xs : List A)
    → lo ≤ hi
    → hi ≤ length xs
    → length (take (hi - lo) (drop lo xs)) ≡ hi - lo
length-slice lo hi xs h k = ground (arith, length-take (hi - lo) (drop lo xs), length-drop lo xs)

module _ {R St D L : Type 0} (cap : Capture R St D L) where
  keep_packets-ids :
      (decode : Bool) (wbytes : Bytes) (sections : List (List IdbView)) (ps : List (BlockRef R × ℕ))
      (pid : ℕ) (ds : D × Option L)
      → ids (keep_packets cap decode wbytes sections ps pid ds).0 ≡ count_up pid (length ps)
  unfolding keep_packets
  keep_packets-ids decode wbytes sections [] pid ds = refl
  keep_packets-ids decode wbytes sections (p ∷ ps) pid ds =
      ap (λ (t : List ℕ). pid ∷ t)
        (keep_packets-ids decode wbytes sections ps (pid + 1)
          (decode_packet cap decode wbytes p.0 (packet_row cap wbytes sections p pid) ds))

  -- What a window adds: the numbers of its rows follow on those of the rows before, and the counts grow
  -- by its packets and by its rows.
  abbrev pub FollowsOn : Args → Converter St D L → List PacketRow × Converter St D L → Type 0
  FollowsOn a c (rows, c') =
      (ids rows ≡ count_up (a.drop + kept_before a c.global_pid) (length rows))
      × (kept_before a c'.global_pid ≡ kept_before a c.global_pid + length rows)
      × (c'.emitted ≡ c.emitted + length rows)
      × (c'.pkt_writer ≡ c.pkt_writer)
      × (c'.pkt_row_groups ≡ c.pkt_row_groups)

  pub window_rows-FollowsOn :
      (a : Args) (wbytes : Bytes) (refs : List (BlockRef R)) (c : Converter St D L)
      → FollowsOn a c (window_rows cap a wbytes refs c)
  unfolding window_rows
  window_rows-FollowsOn a wbytes refs c =
      let cl = classify_all cap wbytes refs (blocks_of cap c) in
      let n = length cl.packets in
      let (lo, hi) = slice_bounds a c.global_pid n in
      let (ordered, within, grows, next) = slice_bounds-IsSlice a c.global_pid n in
      let kept = take (hi - lo) (drop lo cl.packets) in
      let many = length-slice lo hi cl.packets ordered within in
      let numbered =
        keep_packets-ids a.decode_l2l3 wbytes cl.sections kept (c.global_pid + lo)
          (c.dag, c.lldp_engine) in
      let rows =
        (keep_packets cap a.decode_l2l3 wbytes cl.sections kept (c.global_pid + lo)
          (c.dag, c.lldp_engine)).0 in
      let counted : length rows ≡ length kept =
        sym (length-ids rows)
        ∙ ap (λ (t : List ℕ). length t) numbered
        ∙ length-count_up (c.global_pid + lo) (length kept) in
      (
        numbered
            ∙ same_start (c.global_pid + lo) (a.drop + kept_before a c.global_pid) (length kept)
                (λ some_kept. next (omega (arith, some_kept, many)))
            ∙ ap (count_up (a.drop + kept_before a c.global_pid)) (sym counted),
        omega (arith, grows, counted, many),
        omega (arith, counted, many),
        refl,
        refl,
      )
