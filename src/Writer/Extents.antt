-- ===== src/Writer/Extents.antt =====
-- Where the pages of a column chunk stand in the file: the chunk's record names the bytes that were
-- written for it, and nothing else was written.
use nanoarrow2parquet.Common.{
  ℕ, ◌+◌, ◌≡◌, refl, ◌∙◌, arith, Bool, true, false, String, Option, none, some, List, [], ◌++◌,
  length, length-append, Bool-cases, inl, inr,
}
use nanoarrow2parquet.Bytes.{Bytes}
use nanoarrow2parquet.Arrow.{ArrowArray, head}
use nanoarrow2parquet.Format.{ColumnSpec, PqType}
use nanoarrow2parquet.External.{External}
use nanoarrow2parquet.External.Headers.{Encoding, ColumnChunkMeta, rle_dictionary}
use nanoarrow2parquet.Pages.{compress_page, data_page_header, dictionary_page_header}
use nanoarrow2parquet.Pages.ByteArrays.{ByteArrayPages, build_byte_array_pages}
use nanoarrow2parquet.Pages.Values.{fixed_stats}
use nanoarrow2parquet.Writer.State.{N2PWriter, done, continue, emit_page, write_bytes}
use nanoarrow2parquet.Writer.Columns.{
  write_data_page, write_dictionary_page, write_byte_array_pages, write_leaf_pages, set_minmax,
  is_byte_array,
}
use nanoarrow2parquet.Writer.Rules.{
  Wrote, Wrote-trans, After, After-bind, After-throwing, write_bytes-Wrote, Wrote-nothing,
}

-- The chunk that begins at offset `at` takes exactly the bytes `more`: a dictionary page, if it
-- says that it has one, and then the data page, at the offsets that it names.
abbrev pub Placed : ℕ → ColumnChunkMeta → Bytes → Type 0
Placed at c more =
    (dict page : Bytes) × (more ≡ dict ++ page)
    × (c.file_offset ≡ at)
    × (c.total_compressed ≡ length more)
    × (c.data_page_offset ≡ at + length dict)
    × (c.has_dictionary ≡ true → c.dictionary_page_offset ≡ at)
    × (c.has_dictionary ≡ false → dict ≡ [])

-- What a chunk's record says of its column: the value tag, the type and the path.
abbrev pub Label : Type 0
Label = ℕ × PqType × List String

abbrev pub label : ColumnChunkMeta → Label
label c = (c.num_values, c.type, c.path)

-- A chunk record whose pages are not written yet.
pub record IsFresh (at : ℕ) (tag : Label) (c : ColumnChunkMeta) : Type 0 where
  pub begins : c.file_offset ≡ at
  pub empty : c.total_compressed ≡ 0
  pub no_dictionary : c.has_dictionary ≡ false
  pub labelled : label c ≡ tag

abbrev pub PlacedChunk : ℕ → Label → ColumnChunkMeta → Bytes → Type 0
PlacedChunk at tag c more = Placed at c more × (label c ≡ tag)

module _ (ext : External) where
  emit_page-Wrote :
      (hdr comp : Bytes) (n : ℕ) (w : N2PWriter)
      → Wrote w (hdr ++ comp) (emit_page ext hdr comp n w).1
  unfolding emit_page
  emit_page-Wrote hdr comp n w =
      Wrote-trans w (write_bytes ext hdr w).1 (write_bytes ext comp (write_bytes ext hdr w).1).1 hdr
        comp (write_bytes-Wrote ext hdr w) (write_bytes-Wrote ext comp (write_bytes ext hdr w).1)

  -- What a data page adds to the chunk's record.
  abbrev DataPage : N2PWriter → ColumnChunkMeta → ColumnChunkMeta → Bytes → Type 0
  DataPage w c c' more =
      (c'.file_offset ≡ c.file_offset)
      × (c'.total_compressed ≡ c.total_compressed + length more)
      × (c'.data_page_offset ≡ w.offset)
      × (c'.has_dictionary ≡ c.has_dictionary)
      × (c'.dictionary_page_offset ≡ c.dictionary_page_offset)
      × (label c' ≡ label c)

  write_data_page-After :
      (c : ColumnChunkMeta) (body : Bytes) (e : Encoding) (n : ℕ) (w : N2PWriter)
      → After w (DataPage w c) (write_data_page ext c body e n w)
  unfolding write_data_page emit_page
  write_data_page-After c body e n w =
      After-throwing w (DataPage w c) (compress_page ext body w.codec) _ λ comp hc.
        After-throwing w (DataPage w c) (data_page_header ext n e (length body) (length comp)) _
          λ hdr hh. (
            hdr ++ comp,
            emit_page-Wrote hdr comp (length body) w,
            (refl, omega (arith, length-append hdr comp), refl, refl, refl, refl),
          )

  abbrev DictionaryPage : N2PWriter → ColumnChunkMeta → ColumnChunkMeta → Bytes → Type 0
  DictionaryPage w c c' more =
      (c'.file_offset ≡ c.file_offset)
      × (c'.total_compressed ≡ length more)
      × (c'.dictionary_page_offset ≡ w.offset)
      × (c'.has_dictionary ≡ true)
      × (label c' ≡ label c)

  write_dictionary_page-After :
      (c : ColumnChunkMeta) (pages : ByteArrayPages) (w : N2PWriter)
      → After w (DictionaryPage w c) (write_dictionary_page ext c pages w)
  unfolding write_dictionary_page emit_page
  write_dictionary_page-After c pages w =
      After-throwing w (DictionaryPage w c) (compress_page ext pages.dict_body w.codec) _ λ comp hc.
        After-throwing w (DictionaryPage w c)
          (dictionary_page_header ext pages.dict_size (length pages.dict_body) (length comp)) _
          λ hdr hh. (
            hdr ++ comp,
            emit_page-Wrote hdr comp (length pages.dict_body) w,
            (refl, omega (arith, length-append hdr comp), refl, refl, refl),
          )

  -- A lone data page makes a chunk without a dictionary.
  write_plain_chunk :
      (c : ColumnChunkMeta) (body : Bytes) (e : Encoding) (n : ℕ) (es : List Encoding) (tag : Label)
      (w : N2PWriter)
      → IsFresh w.offset tag c
      → After w (PlacedChunk w.offset tag) (
          continue
            (write_data_page ext c body e n w)
            (λ c2 w2. (done (record c2 { encodings = es }), w2)))
  write_plain_chunk c body e n es tag w fresh =
      After-bind w (DataPage w c) (PlacedChunk w.offset tag) _ _
        (write_data_page-After c body e n w)
        λ c2 more w2 wrote page. (
          [],
          Wrote-nothing w2 w2.last_error,
          (
            (
              [],
              more ++ [],
              refl,
              page.0 ∙ fresh.begins,
              omega (arith, page.1, fresh.empty, length-append more []),
              omega (arith, page.2),
              (λ h. cc (h, page.3, fresh.no_dictionary)),
              (λ h. refl),
            ),
            page.5 ∙ fresh.labelled,
          ),
        )

  write_byte_array_pages-After :
      (c : ColumnChunkMeta) (pages : ByteArrayPages) (prefix : Bytes) (n : ℕ) (levels : Bool)
      (tag : Label) (w : N2PWriter)
      → IsFresh w.offset tag c
      → After w (PlacedChunk w.offset tag) (write_byte_array_pages ext c pages prefix n levels w)
  unfolding write_byte_array_pages
  write_byte_array_pages-After c pages prefix n levels tag w fresh =
      elim (Bool-cases pages.use_dictionary) [
        | inr plain_layout ↦ rw plain_layout (write_plain_chunk c _ _ n _ tag w fresh)
        | inl dictionary ↦ rw dictionary (
            After-bind w (DictionaryPage w c) (PlacedChunk w.offset tag) _ _
              (write_dictionary_page-After c pages w)
              λ c1 dict w1 wrote1 dpage.
                After-bind w1 (DataPage w1 c1)
                  (λ c' rest. PlacedChunk w.offset tag c' (dict ++ rest)) _ _
                  (write_data_page-After c1 (prefix ++ pages.data_body) rle_dictionary n w1)
                  λ c2 page w2 wrote2 vpage. (
                    [],
                    Wrote-nothing w2 w2.last_error,
                    (
                      (
                        dict,
                        page ++ [],
                        refl,
                        vpage.0 ∙ dpage.0 ∙ fresh.begins,
                        omega (
                          arith,
                          vpage.1,
                          dpage.1,
                          length-append dict (page ++ []),
                          length-append page [],
                        ),
                        omega (arith, vpage.2, wrote1.advance),
                        (λ h. vpage.4 ∙ dpage.2),
                        (λ h. cc (h, vpage.3, dpage.3)),
                      ),
                      vpage.5 ∙ dpage.4 ∙ fresh.labelled,
                    ),
                  ))
      ]

  set_minmax-IsFresh :
      (at : ℕ) (tag : Label) (m : Option (Bytes × Bytes)) (c : ColumnChunkMeta)
      → IsFresh at tag c
      → IsFresh at tag (set_minmax m c)
  set_minmax-IsFresh at tag none c h = h
  set_minmax-IsFresh at tag (some m) c h = record {
    begins = h.begins;
    empty = h.empty;
    no_dictionary = h.no_dictionary;
    labelled = h.labelled;
  }

  -- Writing a column's pages appends exactly the bytes that its record then describes: the record's
  -- offsets are those of the dictionary page, if there is one, and of the data page, its compressed
  -- size is their size with both headers, and its value count, type and path are as given. However the
  -- call ends, it changes nothing of the writer but the file, the offset and the message.
  pub write_leaf_pages-Placed :
      (arr : ArrowArray) (s : ColumnSpec) (validity : Option Bytes) (prefix : Bytes) (n : ℕ)
      (levels : Bool) (c : ColumnChunkMeta) (tag : Label) (w : N2PWriter)
      → IsFresh w.offset tag c
      → After w (PlacedChunk w.offset tag) (write_leaf_pages ext arr s validity prefix n levels c w)
  unfolding write_leaf_pages
  write_leaf_pages-Placed arr s validity prefix n levels c tag w fresh =
      elim (Bool-cases (is_byte_array s.extract)) [
        | inl strings ↦ rw strings (
            After-throwing w (PlacedChunk w.offset tag)
              (build_byte_array_pages ext (head arr) s validity w.encoding) _
              λ pages built.
                write_byte_array_pages-After (set_minmax pages.stats c) pages prefix n levels tag w
                  (set_minmax-IsFresh w.offset tag pages.stats c fresh))
        | inr fixed ↦ rw fixed (
            write_plain_chunk (set_minmax (fixed_stats ext (head arr) s validity) c) _ _ n _ tag w
              (set_minmax-IsFresh w.offset tag (fixed_stats ext (head arr) s validity) c fresh))
      ]
