-- ===== src/Writer/Refusals.antt =====
-- The columns of a batch are refused with one status only: N2P_INVALID_ARGUMENT.
use nanoarrow2parquet.Common.{
  ℕ, ◌≡◌, refl, Bool, true, Option, none, some, List, [], ◌∷◌, ◌++◌, length, ltb, Bool-cases, inl,
  inr,
}
use nanoarrow2parquet.Bytes.{Bytes}
use nanoarrow2parquet.Arrow.{ArrowArray, head, children, array_at}
use nanoarrow2parquet.Format.{ColumnSpec}
use nanoarrow2parquet.Schema.{LeafSpec}
use nanoarrow2parquet.Shred.{shred_rows}
use nanoarrow2parquet.Pages.{
  compress_page, data_page_header, dictionary_page_header, encode_definition_levels,
}
use nanoarrow2parquet.Pages.Values.{fixed_stats}
use nanoarrow2parquet.Pages.ByteArrays.{ByteArrayPages, build_byte_array_pages}
use nanoarrow2parquet.External.{External}
use nanoarrow2parquet.External.Headers.{Encoding, ColumnChunkMeta, RowGroupMeta, rle_dictionary}
use nanoarrow2parquet.Writer.State.{
  N2PWriter, Ending, done, returned, thrown, crashed, continue, throwing, reporting, emit_page,
  write_bytes,
}
use nanoarrow2parquet.Writer.Columns.{
  write_data_page, write_dictionary_page, write_byte_array_pages, write_leaf_pages, validate_child,
  is_byte_array, set_minmax, fixed_body,
}
use nanoarrow2parquet.Writer.Batch.{
  write_list_leaf, write_flat_leaf, write_leaf, write_leaves, leaf_levels, or_structure, leaf_array,
  path_arrays, last_array, column_index,
}
use nanoarrow2parquet.Result.{invalid_argument, Result, ok, err, crash}

-- A call that returns early returns N2P_INVALID_ARGUMENT.
abbrev pub Refuses : {A : Type 0} → Ending A × N2PWriter → Type 0
Refuses (returned s, w) = s ≡ invalid_argument
Refuses _ = Unit

Refuses-bind :
    {A B : Type 0} (x : Ending A × N2PWriter) (f : A → N2PWriter → Ending B × N2PWriter)
    → Refuses x
    → ((a : A) (w : N2PWriter) → Refuses (f a w))
    → Refuses (continue x f)
Refuses-bind (done a, w) f h k = k a w
Refuses-bind (returned s, w) f h k = h
Refuses-bind (thrown e, w) f h k = tt
Refuses-bind (crashed, w) f h k = tt

Refuses-throwing :
    {A B : Type 0} (r : Result A) (w : N2PWriter) (f : A → N2PWriter → Ending B × N2PWriter)
    → ((a : A) → Refuses (f a w))
    → Refuses (continue (throwing r w) f)
Refuses-throwing (ok a) w f k = k a
Refuses-throwing (err e) w f k = tt
Refuses-throwing crash w f k = tt

Refuses-reporting :
    {A B : Type 0} (r : Result A) (w : N2PWriter) (f : A → N2PWriter → Ending B × N2PWriter)
    → ((a : A) → Refuses (f a w))
    → Refuses (continue (reporting invalid_argument r w) f)
Refuses-reporting (ok a) w f k = k a
Refuses-reporting (err e) w f k = refl
Refuses-reporting crash w f k = tt

Refuses-or_structure :
    {A B : Type 0} (o : Option A) (w : N2PWriter) (f : A → N2PWriter → Ending B × N2PWriter)
    → ((a : A) → Refuses (f a w))
    → Refuses (continue (or_structure o w) f)
Refuses-or_structure none w f k = refl
Refuses-or_structure (some a) w f k = k a

module _ (ext : External) where
  write_data_page-Refuses :
      (c : ColumnChunkMeta) (body : Bytes) (e : Encoding) (n : ℕ) (w : N2PWriter)
      → Refuses (write_data_page ext c body e n w)
  unfolding write_data_page emit_page write_bytes
  write_data_page-Refuses c body e n w =
      Refuses-throwing (compress_page ext body w.codec) w _ λ comp.
        Refuses-throwing (data_page_header ext n e (length body) (length comp)) w _ λ hdr. tt

  write_dictionary_page-Refuses :
      (c : ColumnChunkMeta) (pages : ByteArrayPages) (w : N2PWriter)
      → Refuses (write_dictionary_page ext c pages w)
  unfolding write_dictionary_page emit_page write_bytes
  write_dictionary_page-Refuses c pages w =
      Refuses-throwing (compress_page ext pages.dict_body w.codec) w _ λ comp.
        Refuses-throwing
          (dictionary_page_header ext pages.dict_size (length pages.dict_body) (length comp)) w _
          λ hdr. tt

  write_byte_array_pages-Refuses :
      (c : ColumnChunkMeta) (pages : ByteArrayPages) (prefix : Bytes) (n : ℕ) (levels : Bool)
      (w : N2PWriter)
      → Refuses (write_byte_array_pages ext c pages prefix n levels w)
  unfolding write_byte_array_pages
  write_byte_array_pages-Refuses c pages prefix n levels w =
      elim (Bool-cases pages.use_dictionary) [
        | inl dictionary ↦ rw dictionary (
            Refuses-bind (write_dictionary_page ext c pages w) _
              (write_dictionary_page-Refuses c pages w)
              λ c1 w1.
                Refuses-bind
                  (write_data_page ext c1 (prefix ++ pages.data_body) rle_dictionary n w1) _
                  (write_data_page-Refuses c1 (prefix ++ pages.data_body) rle_dictionary n w1)
                  λ c2 w2. tt)
        | inr plain_layout ↦ rw plain_layout (
            Refuses-bind (write_data_page ext c (prefix ++ pages.data_body) pages.data_encoding n w)
              _ (write_data_page-Refuses c (prefix ++ pages.data_body) pages.data_encoding n w)
              λ c2 w2. tt)
      ]

  write_leaf_pages-Refuses :
      (arr : ArrowArray) (s : ColumnSpec) (validity : Option Bytes) (prefix : Bytes) (n : ℕ)
      (levels : Bool) (c : ColumnChunkMeta) (w : N2PWriter)
      → Refuses (write_leaf_pages ext arr s validity prefix n levels c w)
  unfolding write_leaf_pages
  write_leaf_pages-Refuses arr s validity prefix n levels c w =
      elim (Bool-cases (is_byte_array s.extract)) [
        | inl strings ↦ rw strings (
            Refuses-throwing (build_byte_array_pages ext (head arr) s validity w.encoding) w _
              λ pages. write_byte_array_pages-Refuses _ pages prefix n levels w)
        | inr fixed ↦ rw fixed (
            let (body, encoding) = fixed_body ext (head arr) s validity w.encoding in
            let c1 = set_minmax (fixed_stats ext (head arr) s validity) c in
            Refuses-bind (write_data_page ext c1 (prefix ++ body) encoding n w) _
              (write_data_page-Refuses c1 (prefix ++ body) encoding n w) λ c2 w2. tt)
      ]

  write_leaf-Refuses :
      (l : LeafSpec) (batch : ArrowArray) (rg : RowGroupMeta) (w : N2PWriter)
      → Refuses (write_leaf ext l batch rg w)
  unfolding write_leaf write_list_leaf write_flat_leaf
  write_leaf-Refuses l batch rg w = elim (Bool-cases l.has_list) [
    | inl nested ↦ rw nested (
        Refuses-or_structure (array_at (children batch) (column_index l.path_idx)) w _ λ column.
          Refuses-or_structure (leaf_array l.steps column) w _ λ leaf.
            Refuses-reporting (validate_child leaf l.col (head leaf).length) w _ λ u.
              Refuses-reporting
                (shred_rows l.col.name l.col.extract l.steps column (head batch).length 0 _) w _
                λ sh.
                  Refuses-throwing (encode_definition_levels ext sh.rep l.rep_bit_width) w _ λ reps.
                    Refuses-throwing (encode_definition_levels ext sh.def l.def_bit_width) w _
                      λ defs.
                        Refuses-bind (write_leaf_pages ext leaf l.col _ _ _ true _ w) _
                          (write_leaf_pages-Refuses leaf l.col _ _ _ true _ w) λ c' w'. tt)
    | inr flat ↦ rw flat (
        Refuses-or_structure (path_arrays l.path_idx batch) w _ λ arrays.
          Refuses-reporting (validate_child (last_array batch arrays) l.col (head batch).length) w _
            λ u. Refuses-throwing (leaf_levels ext l arrays (head batch).length) w _ λ made.
              Refuses-bind
                (write_leaf_pages ext (last_array batch arrays) l.col _ _ _ (ltb 0 l.max_def_level)
                  _ w)
                _
                (write_leaf_pages-Refuses (last_array batch arrays) l.col _ _ _
                  (ltb 0 l.max_def_level) _ w)
                λ c' w'. tt)
  ]

  pub write_leaves-Refuses :
      (ls : List LeafSpec) (batch : ArrowArray) (rg : RowGroupMeta) (w : N2PWriter)
      → Refuses (write_leaves ext ls batch rg w)
  unfolding write_leaves
  write_leaves-Refuses [] batch rg w = tt
  write_leaves-Refuses (l ∷ ls) batch rg w =
      Refuses-bind (write_leaf ext l batch rg w) _ (write_leaf-Refuses l batch rg w)
        λ rg1 w1. write_leaves-Refuses ls batch rg1 w1
