-- ===== src/Python/Capsule.antt =====
-- Arrow data from Python objects (bindings/python/src/arrow_capsule.hpp). An object is seen through
-- what nanobind and the interpreter report of it; structs that are moved are values.
use nanoarrow2parquet.Common.{
  ℕ, Bool, true, false, ◌||◌, Option, none, some, String, str_eq, List, [], ◌∷◌, length, map,
  if◌then◌else◌,
}
use nanoarrow2parquet.Arrow.{ArrowArray, ArrowSchema}
use nanoarrow2parquet.Result.{N2PStatus, Reason}

-- What the bindings throw, one constructor for each message.
pub data PyError : Type 0 where
  invalid_capsule no_pointer no_array_method capsule_count not_a_sequence no_schema : PyError
  not_exported next_failed nanoarrow_failed empty_table already_exported : PyError
  wrong_capsule : String → PyError
  -- nb::python_error, and a failed nb::cast
  python_error bad_cast : PyError
  -- of numpy_bridge.hpp
  not_contiguous not_one_dimensional unsupported_dtype not_attached no_columns : PyError
  not_an_ndarray unequal_lengths no_struct_schema no_child_type no_child_name no_struct_array :
      PyError
  unknown_column : PyError
  -- of n2p_bindings.cpp
  unknown_codec empty_input writer_closed nothing_written : PyError
  n2p_failed : N2PStatus → Reason → PyError

pub data Py {ℓ} (A : Type ℓ) : Type ℓ where
  returned : A → Py A
  raised : PyError → Py A

infixl 5 ◌>>=◌ ◌>>◌
abbrev pub ◌>>=◌ {ℓ κ} : {A : Type ℓ} {B : Type κ} → Py A → (A → Py B) → Py B
returned a >>= f = f a
raised e >>= f = raised e

abbrev pub ◌>>◌ {ℓ} : {B : Type ℓ} → Py (Unit {0}) → Py B → Py B
m >> k = m >>= λ _. k

abbrev pub require : Bool → PyError → Py (Unit {0})
require true e = returned tt
require false e = raised e

-- The value, or an exception where there is none.
abbrev pub or_raise {ℓ} : {A : Type ℓ} → Option A → PyError → Py A
or_raise (some a) e = returned a
or_raise none e = raised e

-- An ArrowArrayStream: the batches that `get_next` has still to give, none of them for a call that
-- fails, and the schema, if it can be had.
pub record BatchStream : Type 0 where
  pub batches : List (Option ArrowArray)
  pub stream_schema : Option ArrowSchema

-- A capsule: whether it is valid, its name, and what its pointer, if it can be had, points to.
pub record Capsule : Type 0 where
  pub is_valid : Bool
  pub name : Option String
  pub schema_pointer : Option ArrowSchema
  pub array_pointer : Option ArrowArray
  pub stream_pointer : Option BatchStream

-- The interpreter and nanobind: none where a call or a cast throws. O is the type of objects.
pub record Interpreter (O : Type 0) : Type 0 where
  pub hasattr : O → String → Bool
  pub call_method : O → String → Option O
  -- a tuple's or list's items
  pub as_sequence : O → Option (List O)
  pub as_capsule : O → Option Capsule
  -- whether ArrowBasicArrayStreamInit succeeds for so many batches
  pub stream_init : ℕ → Bool

abbrev is_named : Option String → String → Bool
is_named none s = false
is_named (some n) s = str_eq n s

unfoldable pub require_capsule_name : Capsule → String → Py (Unit {0})
require_capsule_name cap expected = do
  require cap.is_valid invalid_capsule
  require (is_named cap.name expected) (wrong_capsule expected)

unfoldable pub steal_schema_capsule : Capsule → Py ArrowSchema
unfolding require_capsule_name
steal_schema_capsule cap = do
  require_capsule_name cap "arrow_schema"
  or_raise cap.schema_pointer no_pointer

unfoldable pub steal_array_capsule : Capsule → Py ArrowArray
unfolding require_capsule_name
steal_array_capsule cap = do
  require_capsule_name cap "arrow_array"
  or_raise cap.array_pointer no_pointer

unfoldable pub steal_stream_capsule : Capsule → Py BatchStream
unfolding require_capsule_name
steal_stream_capsule cap = do
  require_capsule_name cap "arrow_array_stream"
  or_raise cap.stream_pointer no_pointer

module _ {O : Type 0} (py : Interpreter O) where
  -- The capsules of the schema, if there is one, and of the array.
  unfoldable pub two_capsules : List O → Py (Option Capsule × Capsule)
  two_capsules (s ∷ a ∷ []) = do
    sc ← or_raise (py.as_capsule s) bad_cast
    ac ← or_raise (py.as_capsule a) bad_cast
    returned (some sc, ac)
  two_capsules (a ∷ []) = do ac ← or_raise (py.as_capsule a) bad_cast; returned (none, ac)
  two_capsules [] = raised capsule_count
  two_capsules (s ∷ a ∷ b ∷ more) = raised capsule_count

  -- The schema of the pair, or the one that the object exports beside it. A capsule that is not valid
  -- counts as none.
  unfoldable pub import_schema : O → Option Capsule → Py ArrowSchema
  unfolding steal_schema_capsule
  import_schema obj none =
      if py.hasattr obj "__arrow_c_schema__"
      then (do
        o ← or_raise (py.call_method obj "__arrow_c_schema__") python_error
        cap ← or_raise (py.as_capsule o) bad_cast
        steal_schema_capsule cap)
      else raised no_schema
  import_schema obj (some cap) =
      if cap.is_valid
      then steal_schema_capsule cap
      else if py.hasattr obj "__arrow_c_schema__"
      then (do
        o ← or_raise (py.call_method obj "__arrow_c_schema__") python_error
        cap' ← or_raise (py.as_capsule o) bad_cast
        steal_schema_capsule cap')
      else raised no_schema

  unfoldable pub import_batch : O → Py (ArrowSchema × ArrowArray)
  unfolding two_capsules import_schema steal_array_capsule
  import_batch obj = do
    require (py.hasattr obj "__arrow_c_array__") no_array_method
    result ← or_raise (py.call_method obj "__arrow_c_array__") python_error
    items ← or_raise (py.as_sequence result) not_a_sequence
    caps ← two_capsules items
    sc ← import_schema obj caps.0
    arr ← steal_array_capsule caps.1
    returned (sc, arr)

  -- The object's stream: by the first of the two stream methods that it has, or of its one batch.
  unfoldable pub open_stream : O → Py BatchStream
  unfolding steal_stream_capsule import_batch
  open_stream obj =
      if py.hasattr obj "__arrow_c_stream__" || py.hasattr obj "__arrow_c_array_stream__"
      then (do
        o ←
            or_raise
              (py.call_method obj (
                if py.hasattr obj "__arrow_c_stream__"
                then "__arrow_c_stream__"
                else "__arrow_c_array_stream__"))
              python_error
        cap ← or_raise (py.as_capsule o) bad_cast
        steal_stream_capsule cap)
      else if py.hasattr obj "__arrow_c_array__"
      then (do
        imported ← import_batch obj
        require (py.stream_init 1) nanoarrow_failed
        returned (record { batches = some imported.1 ∷ []; stream_schema = some imported.0 }))
      else raised not_exported

-- A BatchIterator: `schema_loaded` is whether the schema has been handed out.
pub record BatchIterator : Type 0 where
  pub stream : BatchStream
  pub schema_loaded : Bool

-- What `next` hands out: the caller's schema, the batch and the iterator behind it.
abbrev pub Handed : Type 0
Handed = Option ArrowSchema × ArrowArray × BatchIterator

-- The schema goes out with the first batch.
abbrev pub hand_out :
    BatchIterator → Option ArrowSchema → ArrowArray → List (Option ArrowArray) → Py (Option Handed)
hand_out it out arr bs =
    let it' : BatchIterator = record {
      stream = record it.stream { batches = bs };
      schema_loaded = true;
    } in
    elim it.schema_loaded [
      | true ↦ returned (some (out, arr, it'))
      | false ↦ or_raise it.stream.stream_schema nanoarrow_failed >>= λ sc.
          returned (some (some sc, arr, it'))
    ]

abbrev pub next_of :
    BatchIterator → Option ArrowSchema → List (Option ArrowArray) → Py (Option Handed)
next_of it out [] = returned none
next_of it out (none ∷ bs) = raised next_failed
next_of it out (some arr ∷ bs) = hand_out it out arr bs

-- `next` on the caller's schema; none where there is nothing more.
unfoldable pub next : BatchIterator → Option ArrowSchema → Py (Option Handed)
next it out = next_of it out it.stream.batches

-- An ExportedTable: what is left to export; `schema` is none once it has been moved out.
pub record ExportedTable : Type 0 where
  pub schema : Option ArrowSchema
  pub arrays : List (Option ArrowArray)

unfoldable pub from_read_result : ArrowSchema → List ArrowArray → ExportedTable
from_read_result sc batches = record { schema = some sc; arrays = map some batches }

-- The stream and the state behind it, none where a moved struct is read through a null pointer. The
-- arrays are set one by one; a null array is read too.
unfoldable pub arrow_c_stream :
    {O : Type 0} → Interpreter O → Option ExportedTable → Py (Option (BatchStream × ExportedTable))
arrow_c_stream py none = raised empty_table
arrow_c_stream py (some t) = elim t.schema [
  | none ↦ returned none
  | some sc ↦ do
    require (py.stream_init (length t.arrays)) nanoarrow_failed
    returned (
        some (
          record { batches = t.arrays; stream_schema = some sc },
          record { schema = none; arrays = map (λ a. none) t.arrays },
        ))
]
