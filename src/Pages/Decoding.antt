-- ===== src/Pages/Decoding.antt =====
-- PLAIN byte-array bodies are read back value by value.
use nanoarrow2parquet.Common.{
  ℕ, zero, suc, ◌^◌, ◌<◌, ◌≡◌, refl, sym, ap, ◌∙◌, List, [], ◌∷◌, ◌++◌, append_assoc, append-nil,
  length, All, take, drop, take-append, drop-append, Option,
}
use nanoarrow2parquet.Bytes.{Bytes, append_le, read_le}
use nanoarrow2parquet.Bytes.RoundTrip.{read_le-append_le}
use nanoarrow2parquet.External.{External}
use nanoarrow2parquet.Pages.ByteArrays.{append_values, plain_pages, dictionary_pages}

-- A reader of `n` values: each is behind its length, a 32-bit word.
unfoldable pub read_values : ℕ → Bytes → List Bytes × Bytes
read_values zero bs = ([], bs)
read_values (suc n) bs =
    let size = read_le 4 bs 0 in
    let (vs, rest) = read_values n (drop size (drop 4 bs)) in (take size (drop 4 bs) ∷ vs, rest)

abbrev encoded : List Bytes → Bytes
encoded [] = []
encoded (v ∷ vs) = append_le [] (length v) ++ (v ++ encoded vs)

append_values-encoded :
    (body : Bytes) (vs : List Bytes) → append_values body vs ≡ body ++ encoded vs
unfolding append_values append_le
append_values-encoded body [] = sym (append-nil body)
append_values-encoded body (v ∷ vs) =
    append_values-encoded (append_le body (length v) ++ v) vs
    ∙ append_assoc (append_le body (length v)) v (encoded vs)
    ∙ append_assoc body (append_le [] (length v)) (v ++ encoded vs)

abbrev pub IsShort : Bytes → Type 0
IsShort v = length v < 2 ^ 32

read_encoded :
    (vs : List Bytes) (rest : Bytes)
    → All IsShort vs
    → read_values (length vs) (encoded vs ++ rest) ≡ (vs, rest)
unfolding read_values
read_encoded [] rest h = refl
read_encoded (v ∷ vs) rest (short, h) =
    let word = append_le [] (length v) in
    let behind = encoded vs ++ rest in
    let split : encoded (v ∷ vs) ++ rest ≡ word ++ (v ++ behind) =
      append_assoc word (v ++ encoded vs) rest
      ∙ ap (λ (t : Bytes). word ++ t) (append_assoc v (encoded vs) rest) in
    let size : read_le 4 (word ++ (v ++ behind)) 0 ≡ length v =
      read_le-append_le [] (v ++ behind) (length v) short in
    let body : drop 4 (word ++ (v ++ behind)) ≡ v ++ behind = unfold append_le in refl in
    rw (split, size, body, take-append v behind, drop-append v behind, read_encoded vs rest h)

-- The PLAIN page of present values, and the dictionary page of its values, are read back as those
-- values with nothing left, if each value is below 4 GiB.
pub plain_pages-read :
    (vs : List Bytes) (stats : Option (Bytes × Bytes))
    → All IsShort vs
    → read_values (length vs) (plain_pages vs stats).data_body ≡ (vs, [])
unfolding plain_pages
plain_pages-read vs stats h =
    rw (append_values-encoded [] vs) (rw append-nil at (read_encoded vs [] h))

module _ (ext : External) where
  pub dictionary_pages-read :
      (vs : List Bytes)
      → All IsShort (ext.dictionary_values vs)
      → read_values (length (ext.dictionary_values vs)) (dictionary_pages ext vs).dict_body
        ≡ (ext.dictionary_values vs, [])
  unfolding dictionary_pages
  dictionary_pages-read vs h =
      rw (append_values-encoded [] (ext.dictionary_values vs))
        (rw append-nil at (read_encoded (ext.dictionary_values vs) [] h))
