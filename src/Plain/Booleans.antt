-- ===== src/Plain/Booleans.antt =====
-- A PLAIN body of booleans (`build_plain_bool` of src/writer.cpp) is the valid rows' bits, packed.
use nanoarrow2parquet.Common.{
  ℕ, zero, suc, ◌+◌, ◌-◌, ◌/◌, ◌%◌, ◌^◌, ◌≤◌, ◌<◌, ◌≡◌, refl, ap, ◌∙◌, arith, Bool, true, false,
  ◌&&◌, ◌||◌, ◌==◌, List, [], ◌∷◌, ◌++◌, append_assoc, append-nil, length-append, length-take, map,
  length, All, All-append, take, get_or, Option, none, some, Bool-cases, inl, inr, if◌then◌else◌,
}
use nanoarrow2parquet.Bytes.{Bytes}
use nanoarrow2parquet.Bitmap.{bit_at, set_bit, valid_bit}
use nanoarrow2parquet.Bitmap.Laws.{IsByte, set_bit-IsByte, length-set_bit, bit_at-set_bit, nth_bit}
use nanoarrow2parquet.Plain.{push_bit, or_last, pack_present, build_plain_bool}
use nanoarrow2parquet.Plain.Gathering.{valid_rows}

nth_bit-end :
    (bs : List Bool) (b : Bool) (j : ℕ)
    → nth_bit (bs ++ (b ∷ [])) j ≡ ((length bs == j && b) || nth_bit bs j)
nth_bit-end [] b zero = ground arith
nth_bit-end [] b (suc j) = ground arith
nth_bit-end (c ∷ bs) b zero = ground arith
nth_bit-end (c ∷ bs) b (suc j) =
    let same : (suc (length bs) == suc j) ≡ (length bs == j) = ground arith in
    rw same (nth_bit-end bs b j)

get_or-zero : (xs : Bytes) (k : ℕ) → get_or (xs ++ (0 ∷ [])) k 0 ≡ get_or xs k 0
get_or-zero [] zero = refl
get_or-zero [] (suc k) = refl
get_or-zero (x ∷ xs) zero = refl
get_or-zero (x ∷ xs) (suc k) = get_or-zero xs k

-- The body has these bits, and no byte more than they need.
record Packed (body : Bytes) (bs : List Bool) : Type 0 where
  long : length body ≡ (length bs + 7) / 8
  bytes : All IsByte body
  bits : (j : ℕ) → bit_at body j ≡ nth_bit bs j

abbrev grown : Bytes → ℕ → Bytes
grown body out_bit = if out_bit % 8 == 0 then body ++ (0 ∷ []) else body

grown-Packed :
    (body : Bytes) (bs : List Bool)
    → Packed body bs
    → (length (grown body (length bs)) ≡ length bs / 8 + 1)
      × All IsByte (grown body (length bs))
      × ((j : ℕ) → bit_at (grown body (length bs)) j ≡ nth_bit bs j)
unfolding bit_at
grown-Packed body bs p = elim (Bool-cases (length bs % 8 == 0)) [
  | inl full ↦
      let more = length-append body (0 ∷ []) in
      rw full (
        ground (arith, p.long, more),
        All-append IsByte body (0 ∷ []) p.bytes (omega arith, tt),
        λ j. rw (get_or-zero body (j / 8)) (p.bits j),
      )
  | inr part ↦ rw part (ground (arith, p.long), p.bytes, p.bits)
]

push_bit-Packed :
    (body : Bytes) (bs : List Bool) (b : Bool)
    → Packed body bs
    → Packed (push_bit body (length bs) b) (bs ++ (b ∷ []))
unfolding set_bit
push_bit-Packed body bs false p =
    let (long, bytes, bits) = grown-Packed body bs p in
    let more = length-append bs (false ∷ []) in
    record {
      long = omega (arith, long, more);
      bytes = bytes;
      bits = λ j. bits j ∙ rw (nth_bit-end bs false j) (ground arith);
    }
push_bit-Packed body bs true p =
    let (long, bytes, bits) = grown-Packed body bs p in
    let more = length-append bs (true ∷ []) in
    let g = grown body (length bs) in
    let last : length g - 1 ≡ length bs / 8 = omega (arith, long) in
    let is : or_last g (2 ^ (length bs % 8)) ≡ set_bit g (length bs) = rw last refl in
    record {
      long =
          ap (λ (t : Bytes). length t) is
          ∙ length-set_bit g (length bs)
          ∙ omega (arith, long, more);
      bytes = rw is (set_bit-IsByte g (length bs) bytes);
      bits = λ j.
          ap (λ (t : Bytes). bit_at t j) is
          ∙ bit_at-set_bit g (length bs) j bytes (omega (arith, long))
          ∙ rw (bits j, nth_bit-end bs true j) (ground arith);
    }

pack_present-Packed :
    (src validity : Bytes) (n i : ℕ) (body : Bytes) (bs : List Bool)
    → Packed body bs
    → Packed
        (pack_present src validity n i (length bs) body)
        (bs ++ map (bit_at src) (valid_rows (some validity) n i))
unfolding pack_present valid_bit
pack_present-Packed src validity zero i body bs p = rw append-nil p
pack_present-Packed src validity (suc n) i body bs p = elim (Bool-cases (bit_at validity i)) [
  | inl here ↦
      let b = bit_at src i in
      let ih =
        pack_present-Packed src validity n (i + 1) (push_bit body (length bs) b) (bs ++ (b ∷ []))
          (push_bit-Packed body bs b p) in
      let more : length (bs ++ (b ∷ [])) ≡ length bs + 1 = length-append bs (b ∷ []) in
      rw here (rw (more, append_assoc) at ih)
  | inr absent ↦ rw absent (pack_present-Packed src validity n (i + 1) body bs p)
]

nth_bit-map :
    (f : ℕ → Bool) (rows : List ℕ) (k : ℕ)
    → k < length rows
    → nth_bit (map f rows) k ≡ f (get_or rows k 0)
nth_bit-map f [] k h = absurd (omega arith)
nth_bit-map f (r ∷ rows) zero h = refl
nth_bit-map f (r ∷ rows) (suc k) h = nth_bit-map f rows k (omega arith)

length-map_rows : (f : ℕ → Bool) (rows : List ℕ) → length (map f rows) ≡ length rows
length-map_rows f [] = refl
length-map_rows f (r ∷ rows) = omega (arith, length-map_rows f rows)

-- Without a bitmap every row is valid.
every_row :
    (n i : ℕ)
    → (length (valid_rows none n i) ≡ n)
      × ((k : ℕ) → k < n → get_or (valid_rows none n i) k 0 ≡ i + k)
unfolding valid_bit
every_row zero i = (refl, λ k h. absurd (omega arith))
every_row (suc n) i = let (long, rows) = every_row n (i + 1) in (omega (arith, long), row rows)
  where
    row :
        ((k : ℕ) → k < n → get_or (valid_rows none n (i + 1)) k 0 ≡ i + 1 + k)
        → (k : ℕ) → k < suc n
        → get_or (i ∷ valid_rows none n (i + 1)) k 0 ≡ i + k
    row rows zero h = omega arith
    row rows (suc k) h = omega (arith, rows k (omega arith))

get_or-take : (m k : ℕ) (xs : Bytes) → k < m → get_or (take m xs) k 0 ≡ get_or xs k 0
get_or-take zero k xs h = absurd (omega arith)
get_or-take (suc m) k [] h = refl
get_or-take (suc m) zero (x ∷ xs) h = refl
get_or-take (suc m) (suc k) (x ∷ xs) h = get_or-take m k xs (omega arith)

-- A PLAIN body of booleans has one bit for each valid row, in the order of the rows and lowest bit
-- first, which is the bit that the values buffer has for this row, and no byte more than these bits
-- need; if the buffer has a bit for every row.
pub build_plain_bool-rows :
    (n : ℕ) (src : Bytes) (validity : Option Bytes)
    → (n + 7) / 8 ≤ length src
    → let rows = valid_rows validity n 0 in
      let body = build_plain_bool n src validity in
      (length body ≡ (length rows + 7) / 8)
      × ((k : ℕ) → k < length rows → bit_at body k ≡ bit_at src (get_or rows k 0))
unfolding build_plain_bool bit_at
build_plain_bool-rows n src none enough =
    let (long, row) = every_row n 0 in
    (
      omega (arith, long, length-take ((n + 7) / 8) src),
      λ k h.
          rw
            (
              row k (omega (arith, long)),
              get_or-take ((n + 7) / 8) (k / 8) src (omega (arith, long)),
            )
            (ground arith),
    )
build_plain_bool-rows n src (some validity) enough =
    let rows = valid_rows (some validity) n 0 in
    let p : Packed (pack_present src validity n 0 0 []) (map (bit_at src) rows) =
      pack_present-Packed src validity n 0 [] []
        (record { long = omega arith; bytes = tt; bits = λ j. ground arith }) in
    (
      omega (arith, p.long, length-map_rows (bit_at src) rows),
      λ k h. p.bits k ∙ nth_bit-map (bit_at src) rows k h,
    )
