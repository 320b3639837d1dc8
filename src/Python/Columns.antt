-- ===== src/Python/Columns.antt =====
-- What a record batch of NumPy columns holds (bindings/python/src/numpy_bridge.hpp).
use nanoarrow2parquet.Common.{
  ℕ, ◌≡◌, ◌<◌, ◌⊎◌, inl, inr, refl, ap, ◌∙◌, arith, Bool, true, false, ◌==◌, Option, none, some,
  String, List, [], ◌∷◌, length, All,
}
use nanoarrow2parquet.Common.Int.{pos}
use nanoarrow2parquet.Bytes.{Bytes}
use nanoarrow2parquet.Arrow.{
  ArrowArray, array, Arrays, null_children, nil, cons, head, children, buffer, schema_head,
  schema_children, SchemaHead, ArrowSchema, schema, Schemas, no_schemas, and_schema,
}
use nanoarrow2parquet.Python.Capsule.{
  Py, PyError, returned, raised, require, ◌>>=◌, ◌>>◌, not_an_ndarray, not_contiguous,
  not_one_dimensional, unequal_lengths, no_child_type, no_child_name, no_struct_schema,
  no_struct_array, no_columns, not_attached, nanoarrow_failed, or_raise, already_exported,
  BatchStream,
}
use nanoarrow2parquet.Python.Numpy.{
  NumpyArray, Column, ArrowType, Nanoarrow, require_c_contiguous, map_numeric_dtype,
  numpy_column_bytes, check_columns, child_schemas, attach_numpy_column, attach_columns, set_counts,
  NumpyRecordBatch, build_record_batch, arrow_c_array, arrow_c_stream,
}

module _ (na : Nanoarrow) where
  -- What is asked of each column, for batches of `n` rows.
  pub record Fits (n : ℕ) (c : Column) : Type 0 where
    pub ndarray : c.1.is_ndarray ≡ true
    pub contiguous : c.1.c_contiguous ≡ true
    pub flat : c.1.ndim ≡ 1
    pub rows : c.1.rows ≡ n

  -- ArrowArrayInitFromSchema makes a child for each child of the schema, and ArrowArraySetBuffer sets
  -- the buffer that it is given.
  abbrev pub Matches : Schemas → Arrays → Type 0
  Matches no_schemas nil = Unit {0}
  Matches (and_schema s ss) (cons a as') = Matches ss as'
  Matches _ _ = ⊥

  pub record IsNanoarrow : Type 0 where
    pub inits :
        (h : SchemaHead) (ss : Schemas) (a : ArrowArray)
        → na.init_from_schema (schema h ss) ≡ some a
        → Matches ss (children a)
    pub sets :
        (a a' : ArrowArray) (i : ℕ) (b : Bytes)
        → na.set_buffer a i b ≡ some a'
        → buffer (head a') i ≡ some b

  -- The children hold the columns' elements, `n` in each and none null.
  abbrev pub Holds : ℕ → List Column → Arrays → Type 0
  Holds n [] nil = Unit {0}
  Holds n (c ∷ cs) (cons a as') =
      ((head a).length ≡ n)
      × ((head a).null_count ≡ pos 0)
      × (buffer (head a) 1 ≡ some (numpy_column_bytes c.1))
      × Holds n cs as'
  Holds n _ _ = ⊥

  required :
      {A : Type 0} (b : Bool) (e : PyError) (k : Py A) (r : A)
      → (require b e >> k) ≡ returned r
      → (b ≡ true) × (k ≡ returned r)
  required true e k r ran = (refl, ran)
  required false e k r ran = absurd (ground arith)

  required_two :
      {A : Type 0} (b c : Bool) (e e' : PyError) (k : Py A) (r : A)
      → ((require b e >> require c e') >> k) ≡ returned r
      → (b ≡ true) × (c ≡ true) × (k ≡ returned r)
  required_two true true e e' k r ran = (refl, refl, ran)
  required_two true false e e' k r ran = absurd (ground arith)
  required_two false c e e' k r ran = absurd (ground arith)

  inverted :
      {A B : Type 0} (m : Py A) (f : A → Py B) (r : B)
      → (m >>= f) ≡ returned r
      → (a : A) × (m ≡ returned a) × (f a ≡ returned r)
  inverted (returned a) f r ran = (a, refl, ran)
  inverted (raised e) f r ran = absurd (ground arith)

  obtained :
      {A B : Type 0} (o : Option A) (e : PyError) (f : A → Py B) (r : B)
      → (or_raise o e >>= f) ≡ returned r
      → (a : A) × (o ≡ some a) × (f a ≡ returned r)
  obtained (some a) e f r ran = (a, refl, ran)
  obtained none e f r ran = absurd (ground arith)

  check_columns-Fits :
      (n : ℕ) (cs : List Column) (r : Option ℕ)
      → check_columns (some n) cs ≡ returned r
      → (r ≡ some n) × All (Fits n) cs
  unfolding check_columns require_c_contiguous
  check_columns-Fits n [] r ran = (ground arith, tt)
  check_columns-Fits n ((name, arr) ∷ cs) r ran =
      let (is_array, ran1) = required arr.is_ndarray not_an_ndarray _ r ran in
      let (contiguous, flat, ran2) =
        required_two arr.c_contiguous (arr.ndim == 1) not_contiguous not_one_dimensional _ r ran1 in
      let (same, ran3) = required (n == arr.rows) unequal_lengths _ r ran2 in
      let (shared, rest) = check_columns-Fits n cs r ran3 in
      (
        shared,
        (
          record {
            ndarray = is_array;
            contiguous = contiguous;
            flat = ground arith;
            rows = ground arith;
          },
          rest,
        ),
      )

  -- The first column gives the length.
  columns-Fits :
      (cs : List Column) (n : ℕ)
      → check_columns none cs ≡ returned (some n)
      → (0 < length cs) × All (Fits n) cs
  unfolding check_columns require_c_contiguous
  columns-Fits [] n ran = absurd (ground arith)
  columns-Fits ((name, arr) ∷ cs) n ran =
      let (is_array, ran1) = required arr.is_ndarray not_an_ndarray _ (some n) ran in
      let (contiguous, flat, ran2) =
        required_two arr.c_contiguous (arr.ndim == 1) not_contiguous not_one_dimensional _ (some n)
          ran1 in
      let (shared, rest) = check_columns-Fits arr.rows cs (some n) ran2 in
      let same : arr.rows ≡ n = cc shared in
      (
        omega arith,
        (
          record { ndarray = is_array; contiguous = contiguous; flat = ground arith; rows = same },
          rw same at rest,
        ),
      )

  attached-Holds :
      (is : IsNanoarrow) (arr : NumpyArray) (n : ℕ) (a b : ArrowArray)
      → attach_numpy_column na arr a n ≡ returned b
      → ((head b).length ≡ n)
        × ((head b).null_count ≡ pos 0)
        × (buffer (head b) 1 ≡ some (numpy_column_bytes arr))
  unfolding attach_numpy_column
  attached-Holds is arr n a b ran =
      let (t, typed, ran1) = inverted (map_numeric_dtype arr.kind arr.itemsize) _ b ran in
      let (a', attached, ran2) =
        obtained (na.set_buffer a 1 (numpy_column_bytes arr)) not_attached _ b ran1 in
      let same : set_counts na n a' ≡ b = cc ran2 in
      rw (← same) (refl, refl, is.sets a a' 1 (numpy_column_bytes arr) attached)

  -- The child's schema has the type of the column's dtype and the column's name.
  abbrev pub Typed : Column → ArrowSchema → Type 0
  Typed (name, arr) s =
      (t : ArrowType) × (typed : SchemaHead) × (map_numeric_dtype arr.kind arr.itemsize
        ≡ returned t)
      × (na.set_type t ≡ some typed)
      × (na.set_name typed name ≡ some (schema_head s))

  abbrev pub Describes : List Column → Schemas → Type 0
  Describes [] no_schemas = Unit {0}
  Describes (c ∷ cs) (and_schema s ss) = Typed c s × Describes cs ss
  Describes _ _ = ⊥

  -- One schema for each column.
  described-columns :
      (name : String) (arr : NumpyArray) (cs : List Column) (ss : Schemas)
      → child_schemas na ((name, arr) ∷ cs) ≡ returned ss
      → (s : ArrowSchema) × (rest : Schemas) × (child_schemas na cs ≡ returned rest)
        × (ss ≡ and_schema s rest)
        × Typed (name, arr) s
  unfolding child_schemas
  described-columns name arr cs ss ran =
      let (t, e1, ran1) = inverted (map_numeric_dtype arr.kind arr.itemsize) _ ss ran in
      let (typed, e2, ran2) = obtained (na.set_type t) no_child_type _ ss ran1 in
      let (named, e3, ran3) = obtained (na.set_name typed name) no_child_name _ ss ran2 in
      let (rest, e4, ran4) = inverted (child_schemas na cs) _ ss ran3 in
      (schema named no_schemas, rest, e4, cc ran4, (t, typed, e1, e2, e3))

  child_schemas-Describes :
      (cs : List Column) (ss : Schemas) → child_schemas na cs ≡ returned ss → Describes cs ss
  unfolding child_schemas
  child_schemas-Describes [] ss ran = let same : no_schemas ≡ ss = cc ran in rw (← same) tt
  child_schemas-Describes ((name, arr) ∷ cs) ss ran =
      let (s, rest, described, is_cons, typed) = described-columns name arr cs ss ran in
      rw is_cons (typed, child_schemas-Describes cs rest described)

  attach_columns-Holds :
      (is : IsNanoarrow) (cs : List Column) (n : ℕ) (ss : Schemas) (as' bs : Arrays)
      → child_schemas na cs ≡ returned ss
      → Matches ss as'
      → attach_columns na cs n as' ≡ returned bs
      → Holds n cs bs
  unfolding child_schemas attach_columns
  attach_columns-Holds is [] n ss nil bs described match ran =
      let same : nil ≡ bs = cc ran in rw (← same) tt
  attach_columns-Holds is [] n ss (cons a as') bs described match ran =
      let none_described : ss ≡ no_schemas = cc described in
      let impossible : Matches no_schemas (cons a as') = rw none_described at match in
      absurd impossible
  attach_columns-Holds is [] n ss (null_children k) bs described match ran =
      let none_described : ss ≡ no_schemas = cc described in
      let impossible : Matches no_schemas (null_children k) = rw none_described at match in
      absurd impossible
  attach_columns-Holds is ((name, arr) ∷ cs) n ss (cons a as') bs described match ran =
      let (s, rest, described', is_cons, typed) = described-columns name arr cs ss described in
      let match' : Matches (and_schema s rest) (cons a as') = rw is_cons at match in
      let (child, e1, ran1) = inverted (attach_numpy_column na arr a n) _ bs ran in
      let (others, e2, ran2) = inverted (attach_columns na cs n as') _ bs ran1 in
      let same : cons child others ≡ bs = cc ran2 in
      let (long, no_nulls, values) = attached-Holds is arr n a child e1 in
      rw (← same)
        (long, no_nulls, values, attach_columns-Holds is cs n rest as' others described' match' e2)
  attach_columns-Holds is ((name, arr) ∷ cs) n ss nil bs described match ran =
      let (s, rest, described', is_cons, typed) = described-columns name arr cs ss described in
      let impossible : Matches (and_schema s rest) nil = rw is_cons at match in absurd impossible
  attach_columns-Holds is ((name, arr) ∷ cs) n ss (null_children k) bs described match ran =
      let (s, rest, described', is_cons, typed) = described-columns name arr cs ss described in
      let impossible : Matches (and_schema s rest) (null_children k) = rw is_cons at match in
      absurd impossible

  -- A record batch: some columns, all of them arrays of NumPy with one dimension, contiguous and of
  -- the same length, which is the batch's; its children have their names, the types of their
  -- dtypes and their elements, in their order.
  pub record IsBatch (cs : List Column) (b : NumpyRecordBatch na) : Type 0 where
    pub rows : ℕ
    pub some_column : 0 < length cs
    pub fit : All (Fits rows) cs
    pub sc : ArrowSchema
    pub described : b.sc ≡ some sc
    pub typed : Describes cs (schema_children sc)
    pub arr : ArrowArray
    pub held : b.arr ≡ some arr
    pub long : (head arr).length ≡ rows
    pub values : Holds rows cs (children arr)

  -- `build_record_batch`, where it returns, makes a record batch of some columns, all of one length,
  -- contiguous and of one dimension: its children have their names, the types of their dtypes and
  -- their elements as they stand in memory, none of them null.
  pub build_record_batch-IsBatch :
      (is : IsNanoarrow) (cs : List Column) (b : NumpyRecordBatch na)
      → build_record_batch na cs ≡ returned b
      → IsBatch cs b
  unfolding build_record_batch
  build_record_batch-IsBatch is cs b ran =
      let (shared, e1, ran1) = inverted (check_columns none cs) _ b ran in
      let (n, e2, ran2) = obtained shared no_columns _ b ran1 in
      let (some_column, fit) = columns-Fits cs n (e1 ∙ ap (λ (t : Option ℕ). returned t) e2) in
      let (h, e3, ran3) = obtained (na.set_type_struct (length cs)) no_struct_schema _ b ran2 in
      let (ss, e4, ran4) = inverted (child_schemas na cs) _ b ran3 in
      let (a, e5, ran5) = obtained (na.init_from_schema (schema h ss)) no_struct_array _ b ran4 in
      let (filled, e6, ran6) = inverted (attach_columns na cs n (children a)) _ b ran5 in
      let same : record {
        columns = cs;
        sc = some (schema h ss);
        arr = some (set_counts na n (array (head a) filled));
      }
          ≡ b =
        cc ran6 in
      rw (← same) (record {
        rows = n;
        some_column = some_column;
        fit = fit;
        sc = schema h ss;
        described = refl;
        typed = child_schemas-Describes cs ss e4;
        arr = set_counts na n (array (head a) filled);
        held = refl;
        long = refl;
        values = attach_columns-Holds is cs n ss (children a) filled e4 (is.inits h ss a e5) e6;
      })

  -- A batch that was exported, as an array or as a stream, cannot be exported again.
  pub export-once :
      (b b' : NumpyRecordBatch na)
      → ((x : ArrowSchema × ArrowArray) × (arrow_c_array na b ≡ returned (x, b')))
        ⊎ ((s : BatchStream) × (arrow_c_stream na b ≡ returned (s, b')))
      → (arrow_c_array na b' ≡ raised already_exported)
        × (arrow_c_stream na b' ≡ raised already_exported)
  unfolding arrow_c_array arrow_c_stream
  export-once b b' (inl (x, ran)) =
      let (s, e1, ran1) = obtained b.sc already_exported _ (x, b') ran in
      let (a, e2, ran2) = obtained b.arr already_exported _ (x, b') ran1 in
      let same : record b { sc = none; arr = none } ≡ b' = cc ran2 in rw (← same) (refl, refl)
  export-once b b' (inr (t, ran)) =
      let (s, e1, ran1) = obtained b.sc already_exported _ (t, b') ran in
      let (a, e2, ran2) = obtained b.arr already_exported _ (t, b') ran1 in
      let (ready, ran3) = required (na.stream_init 1) nanoarrow_failed _ (t, b') ran2 in
      let same : record b { sc = none; arr = none } ≡ b' = cc ran3 in rw (← same) (refl, refl)
