-- ===== src/Soa/Strings.antt =====
-- The string columns that include/nanoarrow2parquet/soa.hpp packs, read by the offsets as the writer
-- of src/writer.cpp reads them.
use nanoarrow2parquet.Common.{
  ℕ, zero, suc, ◌+◌, ◌-◌, ◌*◌, ◌^◌, ◌/◌, ◌%◌, ◌≤◌, ◌<◌, ◌≡◌, refl, ap, ◌∙◌, arith, Bool, true,
  false, List, [], ◌∷◌, ◌++◌, length, append_assoc, append-nil, length-append, All, take, drop, ltb,
  get_or, Option, some, Bool-cases, inl, inr, if◌then◌else◌,
}
use nanoarrow2parquet.Bytes.{Bytes, read_le}
use nanoarrow2parquet.Bytes.RoundTrip.{read_le-append}
use nanoarrow2parquet.Bitmap.{valid_bit}
use nanoarrow2parquet.Plain.{slice}
use nanoarrow2parquet.Arrow.{ArrayHead, buffer}
use nanoarrow2parquet.Format.{ColumnSpec}
use nanoarrow2parquet.Pages.ByteArrays.{binary_offset, value_at}
use nanoarrow2parquet.Pages.Values.{plain_bytes}
use nanoarrow2parquet.Soa.Columns.{pack_strings}

-- The bytes that stand for element `i`: none if it is absent.
abbrev pub kept_at : Option Bytes → ℕ → Bytes → Bytes
kept_at validity i v = if valid_bit validity i then v else []

abbrev pub kept_all : Option Bytes → List Bytes → ℕ → Bytes
kept_all validity [] i = []
kept_all validity (v ∷ vs) i = kept_at validity i v ++ kept_all validity vs (i + 1)

-- Where each element ends.
abbrev ends : Option Bytes → List Bytes → ℕ → ℕ → List ℕ
ends validity [] i cur = []
ends validity (v ∷ vs) i cur =
    let next = cur + length (kept_at validity i v) in next ∷ ends validity vs (i + 1) next

abbrev words : ℕ → List ℕ → Bytes
words width [] = []
words width (e ∷ es) = plain_bytes width e ++ words width es

pack_strings-laid_out :
    (width : ℕ) (validity : Option Bytes) (vs : List Bytes) (n i cur : ℕ) (off dat : Bytes)
    → i + length vs ≡ n
    → pack_strings width validity vs n i cur off dat
      ≡ some (off ++ words width (ends validity vs i cur), dat ++ kept_all validity vs i)
unfolding pack_strings
pack_strings-laid_out width validity [] n i cur off dat long =
    let at_end : n - i ≡ 0 = omega (arith, long) in
    let no_more : width * 0 ≡ 0 = omega arith in
    rw (at_end, no_more, append-nil off, append-nil dat) refl
pack_strings-laid_out width validity (v ∷ vs) n i cur off dat long =
    let inside : ltb i n ≡ true = ground (arith, long) in
    let further : i + 1 + length vs ≡ n = omega (arith, long) in
    elim (Bool-cases (valid_bit validity i)) [
      | inl here ↦
          rw (inside, here)
            (pack_strings-laid_out width validity vs n (i + 1) (cur + length v)
                (off ++ plain_bytes width (cur + length v)) (dat ++ v) further
              ∙ rw (append_assoc, append_assoc) refl)
      | inr absent ↦
          let same : cur + 0 ≡ cur = omega arith in
          rw (inside, absent, same)
            (pack_strings-laid_out width validity vs n (i + 1) cur (off ++ plain_bytes width cur)
                dat further
              ∙ rw append_assoc refl)
    ]

length-plain_bytes : (width v : ℕ) → length (plain_bytes width v) ≡ width
unfolding plain_bytes
length-plain_bytes zero v = refl
length-plain_bytes (suc width) v = omega (arith, length-plain_bytes width (v / 256))

read_le-plain_bytes :
    (width v : ℕ) (rest : Bytes)
    → v < 256 ^ width
    → read_le width (plain_bytes width v ++ rest) 0 ≡ v
unfolding plain_bytes read_le
read_le-plain_bytes zero v rest h = let is : 256 ^ 0 ≡ 1 = refl in omega arith
read_le-plain_bytes (suc width) v rest h =
    let power : 256 ^ suc width ≡ 256 * 256 ^ width = grind arith in
    let moved =
      read_le-append width (v % 256 ∷ []) (plain_bytes width (v / 256) ++ rest) 1 0 refl in
    let deeper = read_le-plain_bytes width (v / 256) rest (omega arith) in
    omega (arith, moved, deeper)

read_word :
    (width : ℕ) (es : List ℕ) (k : ℕ)
    → All (λ e. e < 256 ^ width) es
    → k < length es
    → read_le width (words width es) (width * k) ≡ get_or es k 0
read_word width [] k fit h = absurd (omega arith)
read_word width (e ∷ es) zero fit h =
    let start : width * 0 ≡ 0 = omega arith in
    rw start (read_le-plain_bytes width e (words width es) fit.0)
read_word width (e ∷ es) (suc k) fit h =
    let further : width * suc k ≡ width + width * k = grind arith in
    read_le-append width (plain_bytes width e) (words width es) (width * suc k) (width * k)
      (omega (arith, further, length-plain_bytes width e))
    ∙ read_word width es k fit.1 (omega arith)

drop-front : (pre rest : Bytes) → drop (length pre) (pre ++ rest) ≡ rest
drop-front [] rest = refl
drop-front (b ∷ pre) rest = drop-front pre rest

take-front : (pre rest : Bytes) → take (length pre) (pre ++ rest) ≡ pre
take-front [] rest = refl
take-front (b ∷ pre) rest = ap (λ (t : Bytes). b ∷ t) (take-front pre rest)

-- The bytes between two ends.
slice-kept :
    (validity : Option Bytes) (vs : List Bytes) (i k : ℕ) (pre : Bytes)
    → k < length vs
    → let es = length pre ∷ ends validity vs i (length pre) in
      slice
        (pre ++ kept_all validity vs i)
        (get_or es k 0)
        (get_or (ends validity vs i (length pre)) k 0 - get_or es k 0)
      ≡ kept_at validity (i + k) (get_or vs k [])
slice-kept validity [] i k pre h = absurd (omega arith)
slice-kept validity (v ∷ vs) i zero pre h =
    let size : length pre + length (kept_at validity i v) - length pre
        ≡ length (kept_at validity i v) =
      omega arith in
    let here : i + 0 ≡ i = omega arith in
    rw (here, size, drop-front pre (kept_at validity i v ++ kept_all validity vs (i + 1)))
      (take-front (kept_at validity i v) (kept_all validity vs (i + 1)))
slice-kept validity (v ∷ vs) i (suc k) pre h =
    let x = kept_at validity i v in
    let next : i + 1 + k ≡ i + suc k = omega arith in
    let ih = slice-kept validity vs (i + 1) k (pre ++ x) (omega arith) in
    rw (length-append pre x, append_assoc, next) at ih

-- The ends lie within the data, and there is one for each element.
ends-within :
    (validity : Option Bytes) (vs : List Bytes) (i cur top : ℕ)
    → cur + length (kept_all validity vs i) ≤ top
    → All (λ e. e ≤ top) (ends validity vs i cur)
ends-within validity [] i cur top h = tt
ends-within validity (v ∷ vs) i cur top h =
    let x = kept_at validity i v in
    let more = length-append x (kept_all validity vs (i + 1)) in
    (
      omega (arith, more),
      ends-within validity vs (i + 1) (cur + length x) top (omega (arith, more)),
    )

length-ends :
    (validity : Option Bytes) (vs : List Bytes) (i cur : ℕ)
    → length (ends validity vs i cur) ≡ length vs
length-ends validity [] i cur = refl
length-ends validity (v ∷ vs) i cur =
    omega (arith, length-ends validity vs (i + 1) (cur + length (kept_at validity i v)))

All-below :
    (top bound : ℕ) (es : List ℕ) → top < bound → All (λ e. e ≤ top) es → All (λ e. e < bound) es
All-below top bound [] h all = tt
All-below top bound (e ∷ es) h all = (omega (arith, all.0), All-below top bound es h all.1)

get_or-within : (top : ℕ) (es : List ℕ) (k : ℕ) → All (λ e. e ≤ top) es → get_or es k 0 ≤ top
get_or-within top [] k h = omega arith
get_or-within top (e ∷ es) zero h = h.0
get_or-within top (e ∷ es) (suc k) h = get_or-within top es k h.1

abbrev pub offset_width : Bool → ℕ
offset_width large = if large then 8 else 4

-- What a signed offset can count.
abbrev pub offset_limit : Bool → ℕ
offset_limit large = if large then 2 ^ 63 else 2 ^ 31

offset-read :
    (large : Bool) (es : List ℕ) (k top : ℕ)
    → top < offset_limit large
    → All (λ e. e ≤ top) es
    → k < length es
    → binary_offset large (words (offset_width large) es) k ≡ get_or es k 0
offset-read true es k top room all h =
    let read = read_word 8 es k (All-below top (256 ^ 8) es (omega arith) all) h in
    let low = get_or-within top es k all in rw read (ground (arith, low))
offset-read false es k top room all h =
    let read = read_word 4 es k (All-below top (256 ^ 4) es (omega arith) all) h in
    let low = get_or-within top es k all in rw read (ground (arith, low))

-- The two buffers of packed strings, for a chunk of `n` rows.
abbrev pub packed : Bool → Option Bytes → List Bytes → ℕ → Option (Bytes × Bytes)
packed large validity vs n =
    pack_strings (offset_width large) validity vs n 0 0 (plain_bytes (offset_width large) 0) []

-- A column of as many strings as the chunk has rows is packed, without a write behind its buffers,
-- and its strings come back: at each position the writer reads, by the offsets and as wide as the
-- column's format says, exactly the string of that element, or nothing where the validity bitmap says
-- that it is absent; if the bytes of all the strings are fewer than a signed offset can count.
pub packed-value_at :
    (s : ColumnSpec) (validity : Option Bytes) (vs : List Bytes) (n : ℕ)
    → length vs ≡ n
    → length (kept_all validity vs 0) < offset_limit s.large_offsets
    → (off : Bytes) × (dat : Bytes) × (packed s.large_offsets validity vs n ≡ some (off, dat))
      × ((h : ArrayHead) (k : ℕ)
          → buffer h 1 ≡ some off
          → buffer h 2 ≡ some dat
          → k < n
          → value_at s h k ≡ kept_at validity k (get_or vs k []))
unfolding value_at
packed-value_at s validity vs n long room =
    let large = s.large_offsets in
    let total = length (kept_all validity vs 0) in
    let laid =
      pack_strings-laid_out (offset_width large) validity vs n 0 0
        (plain_bytes (offset_width large) 0) [] (omega (arith, long)) in
    let es : List ℕ = ends validity vs 0 0 in
    let within : All (λ e. e ≤ total) (0 ∷ es) =
      (omega arith, ends-within validity vs 0 0 total (omega arith)) in
    let many = length-ends validity vs 0 0 in
    (
      _,
      _,
      laid,
      λ h k offsets bytes inside.
          let first = offset-read large (0 ∷ es) k total room within (omega (arith, many, long)) in
          let second =
            offset-read large (0 ∷ es) (suc k) total room within (omega (arith, many, long)) in
          let next : k + 1 ≡ suc k = omega arith in
          let kept = slice-kept validity vs 0 k [] (omega (arith, long)) in
          let here : 0 + k ≡ k = omega arith in
          rw (offsets, bytes, next, first, second) (rw here at kept),
    )
