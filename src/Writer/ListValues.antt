-- ===== src/Writer/ListValues.antt =====
-- The values in a page of a leaf under lists: `write_list_leaf` of src/writer.cpp shreds the column to
-- levels and a presence bitmap, and gathers the leaf array's values by this bitmap.
use nanoarrow2parquet.Common.{ℕ, ◌+◌, ◌≤◌, ◌≡◌, ap, ◌∙◌, arith, List, [], ◌∷◌, some, String}
use nanoarrow2parquet.Result.{ok}
use nanoarrow2parquet.Bytes.{Bytes}
use nanoarrow2parquet.Bitmap.{zero_bitmap}
use nanoarrow2parquet.Arrow.{ArrowArray, head}
use nanoarrow2parquet.Format.{ColumnSpec, Extract}
use nanoarrow2parquet.Schema.{PathStep}
use nanoarrow2parquet.Plain.{build_plain_fixed}
use nanoarrow2parquet.Plain.Gathering.{value_bytes, concat_map, build_plain_fixed-rows}
use nanoarrow2parquet.Shred.{Shredded, shred_rows}
use nanoarrow2parquet.Shred.Levels.{nothing_shredded}
use nanoarrow2parquet.Shred.Nested.{Cells, all_positions}
use nanoarrow2parquet.Shred.Assembly.{Deepens}
use nanoarrow2parquet.Shred.Refinement.{cell_of, cells_from}
use nanoarrow2parquet.Shred.Order.{Ascends, Sorted, Order, cell_of-Order, cells-Ascends}
use nanoarrow2parquet.Shred.Present.{valid_rows-set_bits}
use nanoarrow2parquet.Shred.Rows.{read_rows, shred_rows-KeepsRows}
use nanoarrow2parquet.Writer.Batch.{validity_of}

Ascends-widen : (lo hi m : ℕ) (ps : List ℕ) → hi ≤ m → Ascends lo hi ps → Ascends 0 m ps
Ascends-widen lo hi m [] h up = omega arith
Ascends-widen lo hi m (p ∷ ps) h up = (omega arith, upper (p + 1) ps up.1)
  where
    upper : (lo' : ℕ) (qs : List ℕ) → Ascends lo' hi qs → Ascends lo' m qs
    upper lo' [] k = omega arith
    upper lo' (q ∷ qs) k = (k.0, upper (q + 1) qs k.1)

-- The rows that the arrays hold, what a reader makes of the level streams, and the page body that
-- is gathered by the shredded presence bitmap.
abbrev pub ValuesOfRows :
    Extract → List PathStep → ArrowArray → ℕ → ℕ → ColumnSpec → Bytes → Shredded → Type 0
ValuesOfRows extract sts column n m s src sh =
    (rows : Cells) × (cells_from (cell_of extract sts column) n 0 ≡ some rows)
    × (read_rows sts sh.rep sh.def (all_positions rows) ≡ some (rows, []))
    × (build_plain_fixed m src s (validity_of sh.present_count m sh.present)
        ≡ concat_map (value_bytes s src) (all_positions rows))

-- Values and levels of a column of lists belong together: if the offsets of the arrays along the
-- path are sorted and stay inside the arrays below, the leaf array has at most `m` values and the
-- column at least `n` rows, then a PLAIN body of `m` fixed-width values under the presence bitmap
-- that shredding leaves is the values that stand in the rows, in the order in which record assembly
-- takes them to give back these rows from the levels. The path's repetition levels must grow from
-- step to step, and the shredding must succeed.
pub shred_rows-ValuesOfRows :
    (name : String) (extract : Extract) (sts : List PathStep) (column : ArrowArray) (n m : ℕ)
    (s : ColumnSpec) (src : Bytes) (sh : Shredded)
    → Deepens 0 sts
    → Sorted sts m column
    → n ≤ (head column).length
    → shred_rows name extract sts column n 0 (nothing_shredded (zero_bitmap m)) ≡ ok sh
    → ValuesOfRows extract sts column n m s src sh
shred_rows-ValuesOfRows name extract sts column n m s src sh deep sorted long ran =
    let (rows, held, read, bits, counted) =
      shred_rows-KeepsRows name extract sts column n (zero_bitmap m) sh deep ran in
    let order : Order (cell_of extract sts column) (head column).length m =
      cell_of-Order extract sts m column sorted in
    let up =
      cells-Ascends (cell_of extract sts column) (head column).length m order n 0 rows (omega arith)
        held in
    let inside =
      Ascends-widen (order.reach 0) (order.reach (0 + n)) m (all_positions rows)
        (order.bounded (0 + n) (omega arith)) up in
    (
      rows,
      held,
      read,
      build_plain_fixed-rows m src s (validity_of sh.present_count m sh.present)
          ∙ rw bits (
              ap (concat_map (value_bytes s src))
                (valid_rows-set_bits m sh.present_count (all_positions rows) inside counted)),
    )
