-- ===== src/Plain/Gathering.antt =====
-- A PLAIN body of fixed-width values is the valid rows' values, one behind the other.
use nanoarrow2parquet.Common.{
  ℕ, zero, suc, ◌+◌, ◌*◌, ◌≡◌, refl, sym, ap, ◌∙◌, arith, List, [], ◌∷◌, ◌++◌, append_assoc,
  append-nil, take, drop, Option, none, some, if◌then◌else◌, Bool-cases, inl, inr,
}
use nanoarrow2parquet.Bytes.{Bytes, append_le}
use nanoarrow2parquet.Bitmap.{valid_bit}
use nanoarrow2parquet.Format.{ColumnSpec, Extract}
use nanoarrow2parquet.Plain.{slice, gather, widened_word, build_plain_fixed}

-- The rows from `i` on that are valid.
abbrev pub valid_rows : Option Bytes → ℕ → ℕ → List ℕ
valid_rows validity zero i = []
valid_rows validity (suc n) i =
    if valid_bit validity i
    then i ∷ valid_rows validity n (i + 1)
    else valid_rows validity n (i + 1)

abbrev pub concat_map : (ℕ → Bytes) → List ℕ → Bytes
concat_map f [] = []
concat_map f (i ∷ is) = f i ++ concat_map f is

-- The bytes that stand for row `i` of a column.
abbrev pub value_bytes : ColumnSpec → Bytes → ℕ → Bytes
value_bytes s src i = elim s.extract [
  | Extract.memcpy_fixed ↦ slice src (i * s.src_width) s.src_width
  | _ ↦ append_le [] (widened_word s src i)
]

gather-rows :
    (value : ℕ → Bytes) (validity : Option Bytes) (n i : ℕ) (body : Bytes)
    → gather value validity n i body ≡ body ++ concat_map value (valid_rows validity n i)
unfolding gather
gather-rows value validity zero i body = sym (append-nil body)
gather-rows value validity (suc n) i body = elim (Bool-cases (valid_bit validity i)) [
  | inl here ↦ rw here (
      gather-rows value validity n (i + 1) (body ++ value i)
      ∙ append_assoc body (value i) (concat_map value (valid_rows validity n (i + 1))))
  | inr absent ↦ rw absent (gather-rows value validity n (i + 1) body)
]

take-nil : (k : ℕ) → take {A = ℕ} k [] ≡ []
take-nil zero = refl
take-nil (suc k) = refl

take-add : (a b : ℕ) (xs : Bytes) → take (a + b) xs ≡ take a xs ++ take b (drop a xs)
take-add zero b xs = let same : 0 + b ≡ b = omega arith in rw same
take-add (suc a) b [] =
    let more : suc a + b ≡ suc (a + b) = omega arith in rw more (sym (take-nil b))
take-add (suc a) b (x ∷ xs) =
    let more : suc a + b ≡ suc (a + b) = omega arith in
    rw more (ap (λ (t : Bytes). x ∷ t) (take-add a b xs))

drop-nil : (k : ℕ) → drop {A = ℕ} k [] ≡ []
drop-nil zero = refl
drop-nil (suc k) = refl

drop-add : (a b : ℕ) (xs : Bytes) → drop b (drop a xs) ≡ drop (a + b) xs
drop-add zero b xs = let same : 0 + b ≡ b = omega arith in rw same
drop-add (suc a) b [] = let more : suc a + b ≡ suc (a + b) = omega arith in rw more (drop-nil b)
drop-add (suc a) b (x ∷ xs) =
    let more : suc a + b ≡ suc (a + b) = omega arith in rw more (drop-add a b xs)

-- Consecutive slices, one for each row, are one copy.
slices-take :
    (src : Bytes) (w n i : ℕ)
    → take (n * w) (drop (i * w) src) ≡ concat_map (λ j. slice src (j * w) w) (valid_rows none n i)
unfolding valid_bit
slices-take src w zero i = let nothing : 0 * w ≡ 0 = omega arith in rw nothing
slices-take src w (suc n) i =
    let size : suc n * w ≡ w + n * w = grind arith in
    let next : i * w + w ≡ (i + 1) * w = grind arith in
    ap (λ (k : ℕ). take k (drop (i * w) src)) size
    ∙ take-add w (n * w) (drop (i * w) src)
    ∙ ap (λ (t : Bytes). slice src (i * w) w ++ take (n * w) t) (drop-add (i * w) w src)
    ∙ ap (λ (k : ℕ). slice src (i * w) w ++ take (n * w) (drop k src)) next
    ∙ ap (λ (t : Bytes). slice src (i * w) w ++ t) (slices-take src w n (i + 1))

-- A PLAIN body is exactly the values of the valid rows in the order of the rows: also where all rows
-- are valid and the code copies the whole buffer at once.
pub build_plain_fixed-rows :
    (n : ℕ) (src : Bytes) (s : ColumnSpec) (validity : Option Bytes)
    → build_plain_fixed n src s validity ≡ concat_map (value_bytes s src) (valid_rows validity n 0)
unfolding build_plain_fixed
build_plain_fixed-rows n src s validity = go s.extract validity refl
  where
    go :
        (e : Extract) (v : Option Bytes)
        → s.extract ≡ e
        → build_plain_fixed n src s v ≡ concat_map (value_bytes s src) (valid_rows v n 0)
    go Extract.memcpy_fixed none same =
        let start : 0 * s.src_width ≡ 0 = omega arith in
        rw (same, build_plain_fixed)
          (ap (λ (k : ℕ). take (n * s.src_width) (drop k src)) (sym start)
            ∙ slices-take src s.src_width n 0)
    go Extract.memcpy_fixed (some bm) same =
        rw (same, build_plain_fixed)
          (gather-rows (λ i. slice src (i * s.src_width) s.src_width) (some bm) n 0 [])
    go Extract.widen_int v same =
        rw (same, build_plain_fixed)
          (gather-rows
            (λ i. append_le [] (widened_word (record s { extract = Extract.widen_int }) src i)) v n
            0 [])
    go Extract.bool v same =
        rw (same, build_plain_fixed)
          (gather-rows
            (λ i. append_le [] (widened_word (record s { extract = Extract.bool }) src i)) v n 0 [])
    go Extract.byte_array v same =
        rw (same, build_plain_fixed)
          (gather-rows
            (λ i. append_le [] (widened_word (record s { extract = Extract.byte_array }) src i)) v n
            0 [])
    go Extract.null v same =
        rw (same, build_plain_fixed)
          (gather-rows
            (λ i. append_le [] (widened_word (record s { extract = Extract.null }) src i)) v n 0 [])
