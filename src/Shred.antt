-- ===== src/Shred.antt =====
-- Dremel shredding of src/writer.cpp (class Shredder): the repetition and definition levels of one
-- leaf under lists or maps, and the positions of the leaf array that hold its values.
pub mod Nested
pub mod Rows
pub mod Order
pub mod Values
pub mod Present
pub mod Refinement
pub mod Assembly
pub mod Levels
pub mod Paths
use nanoarrow2parquet.Common.{
  ℕ, zero, suc, ◌+◌, ◌-◌, ◌*◌, List, [], ◌∷◌, ◌++◌, Bool, true, false, not, ◌&&◌, ◌||◌, ◌==◌, ltb,
  leb, Option, none, some, String, if◌then◌else◌,
}
use nanoarrow2parquet.Common.Int.{ℤ, pos, negsuc, signed, is_positive}
use nanoarrow2parquet.Bytes.{Bytes, read_le}
use nanoarrow2parquet.Bitmap.{bit_at, set_bit}
use nanoarrow2parquet.Arrow.{ArrayHead, ArrowArray, head, children, array_at, n_arrays, buffer}
use nanoarrow2parquet.Format.{Extract}
use nanoarrow2parquet.Schema.{PathStep, StepKind, struct_step, large_list_step, map_step, leaf_step}
use nanoarrow2parquet.Result.{
  Result, ok, err, crash, ◌>>=◌, ◌>>◌, fail_if, path_offset, path_index, unexpected_null,
  structure_mismatch, list_buffers, map_array_shape, map_offsets, list_offsets,
}

pub record Shredded : Type 0 where
  pub rep : List ℕ
  pub def : List ℕ
  pub present : Bytes
  pub present_count : ℕ

abbrev is_zero : ℤ → Bool
is_zero (pos n) = n == 0
is_zero (negsuc n) = false

-- `Shredder::valid`
unfoldable pub valid : ArrayHead → ℕ → Bool
valid h e =
    if is_zero h.null_count || ltb h.n_buffers 1
    then true
    else elim (buffer h 0) [ none ↦ true | some bm ↦ bit_at bm e ]

abbrev pub emit : ℕ → ℕ → Shredded → Shredded
emit r d out = record out { rep = out.rep ++ (r ∷ []); def = out.def ++ (d ∷ []) }

-- The leaf case: a value is present at position `e`.
abbrev pub emit_value : ℕ → ℕ → ℕ → Shredded → Shredded
emit_value e r d out = record (emit r d out) {
  present = set_bit out.present e;
  present_count = out.present_count + 1;
}

-- Entry `i` of a list's offsets: 64 bits for a large list, otherwise 32.
abbrev pub offset_at : StepKind → Bytes → ℕ → ℤ
offset_at large_list_step off i = signed 64 (read_le 8 off (8 * i))
offset_at _ off i = signed 32 (read_le 4 off (4 * i))

abbrev exceeds : ℤ → ℕ → Bool
exceeds (pos t) n = ltb n t
exceeds (negsuc t) n = false

-- The start and the count of entries, where `0 <= s <= t <= length`.
abbrev pub range_of : ℤ → ℤ → ℕ → Option (ℕ × ℕ)
range_of (pos s) (pos t) n = if ltb t s || ltb n t then none else some (s, t - s)
range_of _ _ n = none

-- The child array that a list's entries, or a map's keys or values, stand in.
unfoldable pub list_child : String → PathStep → ArrowArray → ℤ → Result ArrowArray
list_child name st child t = elim st.kind [
  | map_step ↦ elim (array_at (children child) st.child) [
    | none ↦ err (map_array_shape name)
    | some kv ↦
        if not ((head child).offset == 0) || not (n_arrays (children child) == 2)
        then err (map_array_shape name)
        else if exceeds t (head child).length
        then err (map_offsets name)
        else ok kv
  ]
  | _ ↦ ok child
]

-- The loop over the entries from `j` on: the first has repetition level `r`, each later one `rep`.
unfoldable pub each_entry :
    (ℕ → ℕ → Shredded → Result Shredded) → ℕ → ℕ → ℕ → ℕ → Shredded → Result Shredded
each_entry f zero j r rep out = ok out
each_entry f (suc n) j r rep out = f j r out >>= each_entry f n (j + 1) rep rep

-- The rest of `walk`, for the entries of child array `c` in the given range.
unfoldable pub walk_entries :
    (ArrowArray → ℕ → ℕ → ℕ → Shredded → Result Shredded)
    → String
    → PathStep
    → ArrowArray
    → Option (ℕ × ℕ)
    → ℕ
    → ℕ
    → Shredded
    → Result Shredded
unfolding each_entry
walk_entries rest name st c none r d out = err (list_offsets name)
walk_entries rest name st c (some (s, zero)) r d out = ok (emit r d out)
walk_entries rest name st c (some (s, suc n)) r d out =
    each_entry (λ j r' out'. rest c j r' (d + 1) out') (suc n) s r st.rep_level out

-- The list and map case of `walk`'s switch.
unfoldable pub walk_list :
    (ArrowArray → ℕ → ℕ → ℕ → Shredded → Result Shredded)
    → String
    → PathStep
    → ArrowArray
    → ℕ
    → ℕ
    → ℕ
    → Shredded
    → Result Shredded
unfolding walk_entries list_child
walk_list rest name st a e r d out =
    if ltb (head a).n_buffers 2 then err (list_buffers name) else elim (buffer (head a) 1) [
      | none ↦ err (list_buffers name)
      | some off ↦ elim (array_at (children a) 0) [
        | none ↦ err (list_buffers name)
        | some child ↦ list_child name st child (offset_at st.kind off (e + 1)) >>= λ c.
            walk_entries rest name st c
              (range_of (offset_at st.kind off e) (offset_at st.kind off (e + 1)) (head c).length) r
              d out
      ]
    ]

-- `walk`'s switch on the kind of the step; `rest` walks the steps behind it.
unfoldable pub visit :
    (ArrowArray → ℕ → ℕ → ℕ → Shredded → Result Shredded)
    → String
    → PathStep
    → ArrowArray
    → ℕ
    → ℕ
    → ℕ
    → Shredded
    → Result Shredded
unfolding walk_list
visit rest name st a e r d out = elim st.kind [
  | leaf_step ↦ ok (emit_value e r d out)
  | struct_step ↦ elim (array_at (children a) st.child) [
    | none ↦ err (structure_mismatch name)
    | some c ↦ rest c e r d out
  ]
  | _ ↦ walk_list rest name st a e r d out
]

-- Whether the entry of an optional step is there: never for the leaf of a null column.
unfoldable pub is_present : Extract → PathStep → ArrowArray → ℕ → Bool
unfolding valid
is_present extract st a e = elim st.kind [
  | leaf_step ↦ elim extract [ Extract.null ↦ false | _ ↦ valid (head a) e ]
  | _ ↦ valid (head a) e
]

-- `Shredder::walk` over the steps that are left; behind the last step there is none to read.
unfoldable pub walk :
    String → Extract → List PathStep → ArrowArray → ℕ → ℕ → ℕ → Shredded → Result Shredded
unfolding visit is_present valid
walk name extract [] a e r d out = crash
walk name extract (st ∷ sts) a e r d out = do
  fail_if (not ((head a).offset == 0)) (path_offset name)
  fail_if (leb (head a).length e) (path_index name)
  if st.optional
      then if is_present extract st a e
        then visit (walk name extract sts) name st a e r (d + 1) out
        else ok (emit r d out)
      else if is_positive (head a).null_count && not (valid (head a) e)
      then err (unexpected_null name)
      else visit (walk name extract sts) name st a e r d out

-- `Shredder::row` on the rows from `e` on.
unfoldable pub shred_rows :
    String → Extract → List PathStep → ArrowArray → ℕ → ℕ → Shredded → Result Shredded
unfolding walk
shred_rows name extract steps column zero e out = ok out
shred_rows name extract steps column (suc n) e out =
    walk name extract steps column e 0 0 out >>= shred_rows name extract steps column n (e + 1)
