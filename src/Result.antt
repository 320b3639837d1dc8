-- ===== src/Result.antt =====
-- Errors as values: the messages that the writer leaves in `last_error` (src/writer.cpp), the C
-- status codes (include/nanoarrow2parquet/nanoarrow2parquet.h), and results of fallible code.
pub mod Rules
use nanoarrow2parquet.Common.{String, Bool, true, false}

-- N2PStatus
pub data N2PStatus : Type 0 where
  ok invalid_argument unsupported_type io_error : N2PStatus

-- The messages, one constructor each, with the column name that the text carries.
pub data Reason : Type 0 where
  none : Reason
  unsupported_format invalid_fixed_width : String → Reason
  list_child_count map_entries_shape : String → Reason
  path_offset path_index unexpected_null structure_mismatch list_buffers : String → Reason
  map_array_shape map_offsets list_offsets : String → Reason
  length_mismatch nonzero_offset contains_nulls missing_buffers : String → Reason
  batch_structure null_argument not_a_struct no_columns child_count no_leaves : Reason
  incompatible_schema not_open cannot_open unknown_codec unknown_encoding stream_failed : Reason
  level_stream_too_large string_too_long page_too_large header_failed zstd_failed : Reason
  compression_failed : Reason → Reason
  footer_failed footer_too_large : Reason

-- `err` is a failure that the source reports or throws; `crash` is a read through a null pointer.
pub data Result {ℓ} (A : Type ℓ) : Type ℓ where
  ok : A → Result A
  err : Reason → Result A
  crash : Result A

infixl 5 ◌>>=◌ ◌>>◌
abbrev pub ◌>>=◌ {ℓ κ} : {A : Type ℓ} {B : Type κ} → Result A → (A → Result B) → Result B
ok a >>= f = f a
err e >>= f = err e
crash >>= f = crash

-- The same where another monad's operator is in use.
abbrev pub and_then {ℓ κ} : {A : Type ℓ} {B : Type κ} → Result A → (A → Result B) → Result B
and_then m f = m >>= f

abbrev pub ◌>>◌ {ℓ} : {B : Type ℓ} → Result (Unit {0}) → Result B → Result B
m >> k = m >>= λ _. k

-- A guard that fails when its test is true, as the source's early returns do.
abbrev pub fail_if : Bool → Reason → Result (Unit {0})
fail_if true e = err e
fail_if false e = ok tt
