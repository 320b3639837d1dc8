-- ===== src/Writer/Groups.antt =====
-- A row group in the file: its chunks stand one behind the other, one for each leaf of the schema.
use nanoarrow2parquet.Common.{
  ℕ, ◌+◌, ◌-◌, ◌≡◌, refl, ap, sym, ◌∙◌, arith, Bool, true, Option, none, some, List, [], ◌∷◌, ◌++◌,
  length, append_assoc, append-nil, ltb, Bool-cases, inl, inr,
}
use nanoarrow2parquet.Bytes.{Bytes}
use nanoarrow2parquet.Arrow.{ArrowArray, head, children, array_at}
use nanoarrow2parquet.External.{External}
use nanoarrow2parquet.External.Headers.{ColumnChunkMeta, RowGroupMeta}
use nanoarrow2parquet.Schema.{LeafSpec}
use nanoarrow2parquet.Shred.{Shredded, shred_rows}
use nanoarrow2parquet.Bitmap.{zero_bitmap}
use nanoarrow2parquet.Pages.{encode_definition_levels}
use nanoarrow2parquet.Writer.State.{N2PWriter, Ending, done, continue}
use nanoarrow2parquet.Writer.Columns.{write_leaf_pages, validate_child, new_chunk}
use nanoarrow2parquet.Writer.Batch.{
  write_list_leaf, write_flat_leaf, write_leaf, write_leaves, leaf_levels, add_chunk, or_structure,
  leaf_array, path_arrays, last_array, column_index, validity_of,
}
use nanoarrow2parquet.Writer.Rules.{
  Wrote-nothing, After, After-weaken, After-bind, After-throwing, After-reporting,
}
use nanoarrow2parquet.Writer.Extents.{Placed, PlacedChunk, Label, write_leaf_pages-Placed}
use nanoarrow2parquet.Result.{invalid_argument, batch_structure}

-- The chunks `cs` take exactly the bytes `more` from offset `at` on, in order, one for each leaf,
-- with its type and path.
abbrev pub Tiles : ℕ → List LeafSpec → List ColumnChunkMeta → Bytes → Type 0
Tiles at [] [] more = more ≡ []
Tiles at [] (c ∷ cs) more = ⊥
Tiles at (l ∷ ls) [] more = ⊥
Tiles at (l ∷ ls) (c ∷ cs) more =
    (own rest : Bytes) × (more ≡ own ++ rest)
    × Placed at c own
    × (c.type ≡ l.col.type)
    × (c.path ≡ l.path_names)
    × Tiles (at + length own) ls cs rest

abbrev pub total_uncompressed : List ColumnChunkMeta → ℕ
total_uncompressed [] = 0
total_uncompressed (c ∷ cs) = c.total_uncompressed + total_uncompressed cs

-- `rg'` is `rg` with one more chunk, that of leaf `l`, in the bytes `more` from `at` on.
abbrev pub OneChunk : ℕ → LeafSpec → RowGroupMeta → RowGroupMeta → Bytes → Type 0
OneChunk at l rg rg' more =
    (c : ColumnChunkMeta) × (rg' ≡ add_chunk rg c)
    × Placed at c more
    × (c.type ≡ l.col.type)
    × (c.path ≡ l.path_names)

After-or_structure :
    {A B : Type 0} (w : N2PWriter) (Q : B → Bytes → Type 0) (o : Option A)
    (f : A → N2PWriter → Ending B × N2PWriter)
    → ((a : A) → o ≡ some a → After w Q (f a w))
    → After w Q (continue (or_structure o w) f)
After-or_structure w Q none f k = ([], Wrote-nothing w batch_structure)
After-or_structure w Q (some a) f k = k a refl

-- The chunks that a group gains, in the bytes written from `at` on.
abbrev pub MoreChunks : ℕ → List LeafSpec → RowGroupMeta → RowGroupMeta → Bytes → Type 0
MoreChunks at ls rg rg' more =
    (cs : List ColumnChunkMeta) × (rg'.columns ≡ rg.columns ++ cs)
    × (rg'.total_byte_size ≡ rg.total_byte_size + total_uncompressed cs)
    × (rg'.num_rows ≡ rg.num_rows)
    × Tiles at ls cs more

module _ (ext : External) where
  -- The pages of a fresh chunk, and then the chunk joins its group.
  finish_chunk :
      (arr : ArrowArray) (validity : Option Bytes) (prefix : Bytes) (n : ℕ) (levels : Bool)
      (nulls : ℕ) (l : LeafSpec) (rg : RowGroupMeta) (w : N2PWriter)
      → After w (OneChunk w.offset l rg) (
          continue
            (write_leaf_pages ext arr l.col validity prefix n levels
              (record (new_chunk l n w.offset) { null_count = nulls })
              w)
            (λ c w'. (done (add_chunk rg c), w')))
  finish_chunk arr validity prefix n levels nulls l rg w =
      After-bind w (PlacedChunk w.offset (n, l.col.type, l.path_names)) (OneChunk w.offset l rg) _ _
        (write_leaf_pages-Placed ext arr l.col validity prefix n levels
          (record (new_chunk l n w.offset) { null_count = nulls }) (n, l.col.type, l.path_names) w
          (record { begins = refl; empty = refl; no_dictionary = refl; labelled = refl }))
        λ c more w' wrote placed. (
          [],
          Wrote-nothing w' w'.last_error,
          (
            c,
            refl,
            rw append-nil (placed.0),
            ap (λ (t : Label). t.1) placed.1,
            ap (λ (t : Label). t.2) placed.1,
          ),
        )

  write_flat_leaf-OneChunk :
      (l : LeafSpec) (batch : ArrowArray) (rg : RowGroupMeta) (w : N2PWriter)
      → After w (OneChunk w.offset l rg) (write_flat_leaf ext l batch rg w)
  unfolding write_flat_leaf
  write_flat_leaf-OneChunk l batch rg w =
      let n = (head batch).length in
      let Q = OneChunk w.offset l rg in
      After-or_structure w Q (path_arrays l.path_idx batch) _ λ arrays found.
        After-reporting w invalid_argument Q (validate_child (last_array batch arrays) l.col n) _
          λ u valid. After-throwing w Q (leaf_levels ext l arrays n) _ λ levels made.
            finish_chunk (last_array batch arrays) levels.1 levels.0 n (ltb 0 l.max_def_level)
              levels.2 l rg w

  abbrev start_shredding : ℕ → Shredded
  start_shredding n = record { rep = []; def = []; present = zero_bitmap n; present_count = 0 }

  write_list_leaf-OneChunk :
      (l : LeafSpec) (batch : ArrowArray) (rg : RowGroupMeta) (w : N2PWriter)
      → After w (OneChunk w.offset l rg) (write_list_leaf ext l batch rg w)
  unfolding write_list_leaf
  write_list_leaf-OneChunk l batch rg w =
      let rows = (head batch).length in
      let Q = OneChunk w.offset l rg in
      After-or_structure w Q (array_at (children batch) (column_index l.path_idx)) _ λ column found.
        After-or_structure w Q (leaf_array l.steps column) _ λ leaf reached.
          let n = (head leaf).length in
          After-reporting w invalid_argument Q (validate_child leaf l.col n) _ λ u valid.
            After-reporting w invalid_argument Q
              (shred_rows l.col.name l.col.extract l.steps column rows 0 (start_shredding n)) _
              λ sh shredded.
                After-throwing w Q (encode_definition_levels ext sh.rep l.rep_bit_width) _
                  λ reps made.
                    After-throwing w Q (encode_definition_levels ext sh.def l.def_bit_width) _
                      λ defs made'.
                        finish_chunk leaf (validity_of sh.present_count n sh.present) (reps ++ defs)
                          (length sh.def) true (length sh.def - sh.present_count) l rg w

  write_leaf-OneChunk :
      (l : LeafSpec) (batch : ArrowArray) (rg : RowGroupMeta) (w : N2PWriter)
      → After w (OneChunk w.offset l rg) (write_leaf ext l batch rg w)
  unfolding write_leaf
  write_leaf-OneChunk l batch rg w = elim (Bool-cases l.has_list) [
    | inl nested ↦ rw nested (write_list_leaf-OneChunk l batch rg w)
    | inr flat ↦ rw flat (write_flat_leaf-OneChunk l batch rg w)
  ]

  -- Writing the leaves of a batch writes their chunks one behind the other, one for each leaf and in
  -- its order, and nothing else: each chunk's record names its own bytes, and the group's byte size
  -- is the sum of their uncompressed sizes.
  pub write_leaves-Tiles :
      (ls : List LeafSpec) (batch : ArrowArray) (rg : RowGroupMeta) (w : N2PWriter)
      → After w (MoreChunks w.offset ls rg) (write_leaves ext ls batch rg w)
  unfolding write_leaves
  write_leaves-Tiles [] batch rg w =
      ([], Wrote-nothing w w.last_error, ([], sym (append-nil rg.columns), omega arith, refl, refl))
  write_leaves-Tiles (l ∷ ls) batch rg w =
      After-bind w (OneChunk w.offset l rg) (MoreChunks w.offset (l ∷ ls) rg)
        (write_leaf ext l batch rg w) _ (write_leaf-OneChunk l batch rg w)
        λ rg1 own w1 wrote one.
          After-weaken w1 (MoreChunks w1.offset ls rg1) _ _ (write_leaves-Tiles ls batch rg1 w1)
            λ rg2 rest (cs, columns, size, rows, tiles). (
              one.0 ∷ cs,
              columns
                  ∙ ap (λ (t : RowGroupMeta). t.columns ++ cs) one.1
                  ∙ append_assoc rg.columns (one.0 ∷ []) cs,
              omega (arith, size, ap (λ (t : RowGroupMeta). t.total_byte_size) one.1),
              rows ∙ ap (λ (t : RowGroupMeta). t.num_rows) one.1,
              (own, rest, refl, one.2, one.3, one.4, rw wrote.advance at tiles),
            )
