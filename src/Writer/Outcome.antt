-- ===== src/Writer/Outcome.antt =====
-- How `n2p_writer_write_batch` of src/writer.cpp ends: one row group more, or none, and no exception.
use nanoarrow2parquet.Common.{
  ℕ, ◌+◌, ◌≡◌, refl, ap, ◌∙◌, ◌⊎◌, inl, inr, Bool, true, false, not, ◌==◌, Option, none, some, List,
  [], ◌∷◌, ◌++◌, is_empty, if◌then◌else◌,
}
use nanoarrow2parquet.Arrow.{
  ArrowArray, ArrowSchema, Schemas, head, n_schemas, n_arrays, children, schema_head,
  schema_children,
}
use nanoarrow2parquet.Schema.{Flat, is_format}
use nanoarrow2parquet.External.{External}
use nanoarrow2parquet.External.Headers.{RowGroupMeta}
use nanoarrow2parquet.Writer.State.{
  N2PWriter, Ending, done, returned, thrown, crashed, continue, caught, reporting, refuse_if,
}
use nanoarrow2parquet.Writer.Batch.{
  lock_schema, set_schema, write_leaves, write_checked, write_one_batch, flatten_columns,
  empty_flat, start_group,
}
use nanoarrow2parquet.Writer.Rules.{SameRecords, After}
use nanoarrow2parquet.Writer.Refusals.{Refuses, write_leaves-Refuses}
use nanoarrow2parquet.Writer.Groups.{MoreChunks, write_leaves-Tiles}
use nanoarrow2parquet.Writer.Api.{n2p_writer_write_batch, as_call}
use nanoarrow2parquet.Result.{
  N2PStatus, invalid_argument, unsupported_type, Reason, io_error, not_a_struct, no_columns,
  child_count, stream_failed, null_argument, not_open, no_leaves, incompatible_schema, Result, ok,
  err, crash,
}

-- The settings of `w'` and its file's handle are those of `w`.
pub record SameSettings (w w' : N2PWriter) : Type 0 where
  pub codec : w'.codec ≡ w.codec
  pub encoding : w'.encoding ≡ w.encoding
  pub footer : w'.footer_written ≡ w.footer_written
  pub opened : w'.out.is_open ≡ w.out.is_open

-- No row group was recorded.
pub record Kept (w w' : N2PWriter) : Type 0 where
  pub settings : SameSettings w w'
  pub groups : w'.row_groups ≡ w.row_groups
  pub rows : w'.total_rows ≡ w.total_rows

-- One row group of `n` rows was recorded, behind the others.
pub record Added (w : N2PWriter) (n : ℕ) (w' : N2PWriter) : Type 0 where
  pub settings : SameSettings w w'
  pub group : RowGroupMeta
  pub groups : w'.row_groups ≡ w.row_groups ++ (group ∷ [])
  pub size : group.num_rows ≡ n
  pub rows : w'.total_rows ≡ w.total_rows + n

Kept-refl : (w : N2PWriter) (e : Reason) → Kept w (record w { last_error = e })
Kept-refl w e = record {
  settings = record { codec = refl; encoding = refl; footer = refl; opened = refl };
  groups = refl;
  rows = refl;
}

SameSettings-trans : (u v w : N2PWriter) → SameSettings u v → SameSettings v w → SameSettings u w
SameSettings-trans u v w h k = record {
  codec = k.codec ∙ h.codec;
  encoding = k.encoding ∙ h.encoding;
  footer = k.footer ∙ h.footer;
  opened = k.opened ∙ h.opened;
}

Kept-trans : (u v w : N2PWriter) → Kept u v → Kept v w → Kept u w
Kept-trans u v w h k = record {
  settings = SameSettings-trans u v w h.settings k.settings;
  groups = k.groups ∙ h.groups;
  rows = k.rows ∙ h.rows;
}

SameRecords-Kept : (w w' : N2PWriter) → SameRecords w w' → Kept w w'
SameRecords-Kept w w' h = record {
  settings = record {
    codec = h.codec;
    encoding = h.encoding;
    footer = h.footer;
    opened = h.opened;
  };
  groups = h.groups;
  rows = h.rows;
}

Added-after : (u w w' : N2PWriter) (n : ℕ) → Kept u w → Added w n w' → Added u n w'
Added-after u w w' n h k = record {
  settings = SameSettings-trans u w w' h.settings k.settings;
  group = k.group;
  groups = k.groups ∙ ap (λ (gs : List RowGroupMeta). gs ++ (k.group ∷ [])) h.groups;
  size = k.size;
  rows = k.rows ∙ ap (λ (m : ℕ). m + n) h.rows;
}

-- How a batch of `n` rows may end; an exception never leaves the call.
abbrev Outcome : N2PWriter → ℕ → Ending (Unit {0}) × N2PWriter → Type 0
Outcome w n (done u, w') = Added w n w'
Outcome w n (returned N2PStatus.ok, w') = ⊥
Outcome w n (returned s, w') = Kept w w' ⊎ ((s ≡ io_error) × Added w n w')
Outcome w n (thrown e, w') = ⊥
Outcome w n (crashed, w') = Unit

-- A part of the call that records nothing; its value has the property `P`.
abbrev Keeps : {A : Type 0} → N2PWriter → (A → Type 0) → Ending A × N2PWriter → Type 0
Keeps w P (done a, w') = Kept w w' × P a
Keeps w P (returned N2PStatus.ok, w') = ⊥
Keeps w P (returned s, w') = Kept w w'
Keeps w P (thrown e, w') = ⊥
Keeps w P (crashed, w') = Unit

Outcome-bind :
    {A : Type 0} (w : N2PWriter) (n : ℕ) (P : A → Type 0) (x : Ending A × N2PWriter)
    (f : A → N2PWriter → Ending (Unit {0}) × N2PWriter)
    → Keeps w P x
    → ((a : A) (w' : N2PWriter) → Kept w w' → P a → Outcome w n (f a w'))
    → Outcome w n (continue x f)
Outcome-bind w n P (done a, w') f h k = k a w' h.0 h.1
Outcome-bind w n P (returned N2PStatus.ok, w') f h k = h
Outcome-bind w n P (returned invalid_argument, w') f h k = inl h
Outcome-bind w n P (returned unsupported_type, w') f h k = inl h
Outcome-bind w n P (returned io_error, w') f h k = inl h
Outcome-bind w n P (thrown e, w') f h k = h
Outcome-bind w n P (crashed, w') f h k = tt

abbrev Any : {A : Type 0} → A → Type 0
Any a = Unit {0}

refuse-Keeps :
    (b : Bool) (e : Reason) (w : N2PWriter) → Keeps w Any (refuse_if b invalid_argument e w)
refuse-Keeps true e w = Kept-refl w e
refuse-Keeps false e w = (Kept-refl w w.last_error, tt)

set_schema-Keeps :
    (cs : Schemas) (r : Result Flat) (w : N2PWriter)
    → Keeps w Any (continue (reporting unsupported_type r w) (set_schema cs))
unfolding set_schema
set_schema-Keeps cs (ok flat) w = go (is_empty flat.leaves)
  where
    go :
        (b : Bool)
        → Keeps w Any (
            continue (refuse_if b invalid_argument no_leaves w) (λ u w'. (
              done tt,
              record w' {
                schema_nodes = flat.nodes;
                leaves = flat.leaves;
                top_children = n_schemas cs;
                schema_locked = true;
              },
            )))
    go true = Kept-refl w no_leaves
    go false = (
      record {
        settings = record { codec = refl; encoding = refl; footer = refl; opened = refl };
        groups = refl;
        rows = refl;
      },
      tt,
    )
set_schema-Keeps cs (err e) w = Kept-refl w e
set_schema-Keeps cs crash w = tt

lock_schema-Keeps : (cs : Schemas) (w : N2PWriter) → Keeps w Any (lock_schema cs w)
unfolding lock_schema
lock_schema-Keeps cs w = go w.schema_locked
  where
    go :
        (b : Bool)
        → Keeps w Any (
            if b
            then refuse_if
                (not (n_schemas cs == w.top_children))
                invalid_argument
                incompatible_schema
                w
            else continue
                (reporting unsupported_type (flatten_columns cs 0 empty_flat) w)
                (set_schema cs))
    go true = refuse-Keeps (not (n_schemas cs == w.top_children)) incompatible_schema w
    go false = set_schema-Keeps cs (flatten_columns cs 0 empty_flat) w

abbrev Counts : ℕ → RowGroupMeta → Type 0
Counts n rg = rg.num_rows ≡ n

-- The columns of a batch write bytes, record nothing, and keep its row count.
caught-Keeps :
    (w : N2PWriter) (n at : ℕ) (x : Ending RowGroupMeta × N2PWriter)
    → After w (MoreChunks at w.leaves (start_group n)) x
    → Refuses x
    → Keeps w (Counts n) (caught x)
caught-Keeps w n at (done rg, w') (more, wrote, (cs, columns, size, rows, tiles)) h =
    (SameRecords-Kept w w' wrote.same, rows)
caught-Keeps w n at (returned N2PStatus.ok, w') (more, wrote) h = absurd (cc h)
caught-Keeps w n at (returned invalid_argument, w') (more, wrote) h =
    SameRecords-Kept w w' wrote.same
caught-Keeps w n at (returned unsupported_type, w') (more, wrote) h =
    SameRecords-Kept w w' wrote.same
caught-Keeps w n at (returned io_error, w') (more, wrote) h = SameRecords-Kept w w' wrote.same
caught-Keeps w n at (thrown e, w') (more, wrote) h =
    Kept-trans w w' _ (SameRecords-Kept w w' wrote.same) (Kept-refl w' _)
caught-Keeps w n at (crashed, w') h k = tt

add_row_group-Outcome :
    (w w' : N2PWriter) (n : ℕ) (rg : RowGroupMeta) (good : Bool)
    → Kept w w'
    → rg.num_rows ≡ n
    → let w2 = record w' {
      row_groups = w'.row_groups ++ (rg ∷ []);
      total_rows = w'.total_rows + n;
    } in
      Outcome w n (refuse_if (not good) io_error stream_failed w2)
add_row_group-Outcome w w' n rg good kept counts = go good
  where
    added :
        Added w n
          (record w' { row_groups = w'.row_groups ++ (rg ∷ []); total_rows = w'.total_rows + n })
    added = record {
      settings = record {
        codec = kept.settings.codec;
        encoding = kept.settings.encoding;
        footer = kept.settings.footer;
        opened = kept.settings.opened;
      };
      group = rg;
      groups = ap (λ (gs : List RowGroupMeta). gs ++ (rg ∷ [])) kept.groups;
      size = counts;
      rows = ap (λ (m : ℕ). m + n) kept.rows;
    }

    go :
        (b : Bool)
        → Outcome w n (
            refuse_if (not b) io_error stream_failed (record w' {
              row_groups = w'.row_groups ++ (rg ∷ []);
              total_rows = w'.total_rows + n;
            }))
    go true = added
    go false = inr (
      refl,
      record {
        settings = record {
          codec = kept.settings.codec;
          encoding = kept.settings.encoding;
          footer = kept.settings.footer;
          opened = kept.settings.opened;
        };
        group = rg;
        groups = added.groups;
        size = counts;
        rows = added.rows;
      },
    )

Outcome-after :
    (u w : N2PWriter) (n : ℕ) (x : Ending (Unit {0}) × N2PWriter)
    → Kept u w
    → Outcome w n x
    → Outcome u n x
Outcome-after u w n (done v, w') h k = Added-after u w w' n h k
Outcome-after u w n (returned N2PStatus.ok, w') h k = k
Outcome-after u w n (returned invalid_argument, w') h k = elim k [
  | inl kept ↦ inl (Kept-trans u w w' h kept)
  | inr (e, added) ↦ inr (e, Added-after u w w' n h added)
]
Outcome-after u w n (returned unsupported_type, w') h k = elim k [
  | inl kept ↦ inl (Kept-trans u w w' h kept)
  | inr (e, added) ↦ inr (e, Added-after u w w' n h added)
]
Outcome-after u w n (returned io_error, w') h k = elim k [
  | inl kept ↦ inl (Kept-trans u w w' h kept)
  | inr (e, added) ↦ inr (e, Added-after u w w' n h added)
]
Outcome-after u w n (thrown e, w') h k = k
Outcome-after u w n (crashed, w') h k = tt

module _ (ext : External) where
  write_checked-Outcome :
      (sc : ArrowSchema) (batch : ArrowArray) (w : N2PWriter)
      → Outcome w (head batch).length (write_checked ext sc batch w)
  unfolding write_checked
  write_checked-Outcome sc batch w =
      let cs = schema_children sc in
      let n = (head batch).length in
      Outcome-bind w n Any
        (refuse_if (not (is_format (schema_head sc).format "+s")) invalid_argument not_a_struct w) _
        (refuse-Keeps _ not_a_struct w)
        λ _ w1 k1 _. Outcome-after w w1 n _ k1 (
          Outcome-bind w1 n Any (refuse_if (n_schemas cs == 0) invalid_argument no_columns w1) _
            (refuse-Keeps _ no_columns w1)
            λ _ w2 k2 _. Outcome-after w1 w2 n _ k2 (
              Outcome-bind w2 n Any
                (refuse_if (not (n_arrays (children batch) == n_schemas cs)) invalid_argument
                  child_count w2)
                _ (refuse-Keeps _ child_count w2)
                λ _ w3 k3 _. Outcome-after w2 w3 n _ k3 (
                  Outcome-bind w3 n Any (lock_schema cs w3) _ (lock_schema-Keeps cs w3) λ _ w4 k4 _.
                    Outcome-after w3 w4 n _ k4 (
                      Outcome-bind w4 n (Counts n)
                        (caught (write_leaves ext w4.leaves batch (start_group n) w4)) _
                        (caught-Keeps w4 n w4.offset _
                          (write_leaves-Tiles ext w4.leaves batch (start_group n) w4)
                          (write_leaves-Refuses ext w4.leaves batch (start_group n) w4))
                        λ rg w5 k5 counts.
                          add_row_group-Outcome w4 w5 n rg w5.out.good k5 counts))))

  -- The rows of a batch, none where there is no batch.
  abbrev pub rows_of : Option ArrowArray → ℕ
  rows_of none = 0
  rows_of (some batch) = (head batch).length

  -- What a call that returned `s` has done.
  abbrev pub Returned : N2PWriter → ℕ → N2PStatus → N2PWriter → Type 0
  Returned w n N2PStatus.ok w' = Added w n w'
  Returned w n s w' = Kept w w' ⊎ ((s ≡ io_error) × Added w n w')

  moved :
      (w v w' : N2PWriter) (n : ℕ) (t s : N2PStatus)
      → ◌≡◌ {A = Option (N2PStatus × N2PWriter)} (some (t, v)) (some (s, w'))
      → Returned w n t v
      → Returned w n s w'
  moved w v w' n t s e h =
      let status : t ≡ s = cc e in let same : v ≡ w' = cc e in rw (← status, ← same) h

  as_call-Returned :
      (w w' : N2PWriter) (n : ℕ) (s : N2PStatus) (x : Ending (Unit {0}) × N2PWriter)
      → Outcome w n x
      → as_call x ≡ some (s, w')
      → Returned w n s w'
  as_call-Returned w w' n s (done u, v) h e = moved w v w' n N2PStatus.ok s e h
  as_call-Returned w w' n s (returned N2PStatus.ok, v) h e = absurd h
  as_call-Returned w w' n s (returned invalid_argument, v) h e =
      moved w v w' n invalid_argument s e h
  as_call-Returned w w' n s (returned unsupported_type, v) h e =
      moved w v w' n unsupported_type s e h
  as_call-Returned w w' n s (returned io_error, v) h e = moved w v w' n io_error s e h
  as_call-Returned w w' n s (thrown x, v) h e = absurd h
  as_call-Returned w w' n s (crashed, v) h e = absurd (cc e)

  write_one_batch-Outcome :
      (sc : Option ArrowSchema) (batch : Option ArrowArray) (w : N2PWriter)
      → Outcome w (rows_of batch) (write_one_batch ext sc batch w)
  unfolding write_one_batch
  write_one_batch-Outcome none batch w = inl (Kept-refl w null_argument)
  write_one_batch-Outcome (some sc) none w = inl (Kept-refl w null_argument)
  write_one_batch-Outcome (some sc) (some batch) w = write_checked-Outcome sc batch w

  -- A batch is recorded as a whole or not at all: with N2P_OK exactly one row group with the batch's
  -- rows stands behind the others, and the row count has grown by them; with another status the row
  -- groups and the count are as they were, except that an I/O error may also be found after the row
  -- group was recorded. In any case codec, encoding, the footer's mark and the file's handle stay.
  pub write_batch-Returned :
      (w w' : N2PWriter) (sc : Option ArrowSchema) (batch : Option ArrowArray) (s : N2PStatus)
      → n2p_writer_write_batch ext w sc batch ≡ some (s, w')
      → Returned w (rows_of batch) s w'
  unfolding n2p_writer_write_batch
  write_batch-Returned w w' sc batch s e = go w.out.is_open e
    where
      go :
          (b : Bool)
          → ◌≡◌ {A = Option (N2PStatus × N2PWriter)}
              (if not b
                then some (io_error, record w { last_error = not_open })
                else as_call (write_one_batch ext sc batch w))
              (some (s, w'))
          → Returned w (rows_of batch) s w'
      go true e' =
          as_call-Returned w w' (rows_of batch) s (write_one_batch ext sc batch w)
            (write_one_batch-Outcome sc batch w) e'
      go false e' =
          moved w (record w { last_error = not_open }) w' (rows_of batch) io_error s e'
            (inl (Kept-refl w not_open))
