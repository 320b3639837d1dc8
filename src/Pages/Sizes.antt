-- ===== src/Pages/Sizes.antt =====
-- The sizes of a string or binary column's pages, and what the automatic mode promises.
use nanoarrow2parquet.Common.{
  ◌+◌, ◌*◌, ◌≤◌, ◌≡◌, arith, false, List, [], ◌∷◌, ◌++◌, length, length-append, Bool-cases, inl,
  inr, ltb,
}
use nanoarrow2parquet.Bytes.{Bytes, append_le}
use nanoarrow2parquet.Bytes.RoundTrip.{length-append_le}
use nanoarrow2parquet.External.{External}
use nanoarrow2parquet.Pages.ByteArrays.{
  ByteArrayPages, pages_of, plain_pages, dictionary_pages, append_values, plain_total, dict_total,
  total_size, enc_auto,
}
use nanoarrow2parquet.Result.{ok}

length-append_values :
    (body : Bytes) (vs : List Bytes)
    → length (append_values body vs) ≡ length body + 4 * length vs + total_size vs
unfolding append_values
length-append_values body [] = omega arith
length-append_values body (v ∷ vs) = omega (
  arith,
  length-append_values (append_le body (length v) ++ v) vs,
  length-append (append_le body (length v)) v,
  length-append_le body (length v),
)

module _ (ext : External) where
  -- In the automatic mode a column always gets pages, and their bodies together take no more bytes
  -- than PLAIN would; without a dictionary they take as many.
  pub pages_of_auto :
      (present : List Bytes)
      → (p : ByteArrayPages) × (pages_of ext present enc_auto ≡ ok p)
        × (length p.dict_body + length p.data_body ≤ plain_total present)
        × (p.use_dictionary ≡ false → length p.data_body ≡ plain_total present)
  unfolding pages_of plain_pages dictionary_pages plain_total dict_total
  pages_of_auto present = elim (Bool-cases (ltb (plain_total present) (dict_total ext present))) [
    | inl larger ↦ (
      plain_pages present (ext.compute_binary_stats (ext.dictionary_values present)),
      rw larger,
      omega (arith, length-append_values [] present),
      λ h. omega (arith, length-append_values [] present),
    )
    | inr smaller ↦ (
      dictionary_pages ext present,
      rw smaller,
      ground (arith, smaller, length-append_values [] (ext.dictionary_values present)),
      λ h. ground arith,
    )
  ]
