-- ===== src/Arrow.antt =====
-- The Arrow C data interface as the writer reads it: struct ArrowSchema and struct ArrowArray of
-- include/nanoarrow2parquet/soa.hpp, less the members that the writer never reads (metadata,
-- dictionary, release, private_data). Lengths, offsets and counts are not negative, as the interface
-- demands; `null_count` may be -1.
use nanoarrow2parquet.Common.{
  ℕ, zero, suc, ◌/◌, ◌%◌, Bool, true, false, ◌==◌, Option, none, some, List, String, get_elem?,
}
use nanoarrow2parquet.Common.Int.{ℤ}
use nanoarrow2parquet.Bytes.{Bytes}

-- `buffers` is none for a null pointer, and so is each buffer.
pub record ArrayHead : Type 0 where
  pub length : ℕ
  pub null_count : ℤ
  pub offset : ℕ
  pub n_buffers : ℕ
  pub buffers : Option (List (Option Bytes))

-- `null_children n` is a null `children` pointer beside a count of `n`.
mutual
  pub data ArrowArray : Type 0 where
    array : ArrayHead → Arrays → ArrowArray

  pub data Arrays : Type 0 where
    null_children : ℕ → Arrays
    nil : Arrays
    cons : ArrowArray → Arrays → Arrays

abbrev pub head : ArrowArray → ArrayHead
head (array h cs) = h

abbrev pub children : ArrowArray → Arrays
children (array h cs) = cs

abbrev pub n_arrays : Arrays → ℕ
n_arrays (null_children n) = n
n_arrays nil = 0
n_arrays (cons a cs) = suc (n_arrays cs)

-- `children[i]`, or none where the pointer is null or the count ends.
abbrev pub array_at : Arrays → ℕ → Option ArrowArray
array_at (null_children n) i = none
array_at nil i = none
array_at (cons a cs) zero = some a
array_at (cons a cs) (suc i) = array_at cs i

abbrev pub is_null_children : Arrays → Bool
is_null_children (null_children n) = true
is_null_children nil = false
is_null_children (cons a cs) = false

-- `buffers[i]`: none for a null pointer at either level.
abbrev pub buffer : ArrayHead → ℕ → Option Bytes
buffer h i = elim h.buffers [
  | none ↦ none
  | some bs ↦ elim (get_elem? bs i) [ none ↦ none | some b ↦ b ]
]

pub record SchemaHead : Type 0 where
  pub format : Option String
  pub name : Option String
  pub flags : ℕ

mutual
  pub data ArrowSchema : Type 0 where
    schema : SchemaHead → Schemas → ArrowSchema

  pub data Schemas : Type 0 where
    null_schemas : ℕ → Schemas
    no_schemas : Schemas
    and_schema : ArrowSchema → Schemas → Schemas

abbrev pub schema_head : ArrowSchema → SchemaHead
schema_head (schema h cs) = h

abbrev pub schema_children : ArrowSchema → Schemas
schema_children (schema h cs) = cs

abbrev pub n_schemas : Schemas → ℕ
n_schemas (null_schemas n) = n
n_schemas no_schemas = 0
n_schemas (and_schema s cs) = suc (n_schemas cs)

-- `flags & ARROW_FLAG_NULLABLE`
abbrev pub has_nullable_flag : SchemaHead → Bool
has_nullable_flag h = h.flags / 2 % 2 == 1
