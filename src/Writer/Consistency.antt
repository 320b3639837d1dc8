-- ===== src/Writer/Consistency.antt =====
-- The writer's state agrees with the file: the offset is its size, it begins with the magic bytes,
-- and every row group's chunks stand where their records say.
use nanoarrow2parquet.Common.{
  ℕ, ◌+◌, ◌≡◌, refl, ap, sym, ◌∙◌, arith, Bool, true, false, not, ◌==◌, Option, none, some, List,
  [], ◌∷◌, ◌++◌, length, length-append, append_assoc, append-nil, All, All-append, is_empty,
  if◌then◌else◌,
}
use nanoarrow2parquet.Bytes.{Bytes}
use nanoarrow2parquet.Arrow.{
  ArrowArray, ArrowSchema, Schemas, head, n_schemas, n_arrays, children, schema_head,
  schema_children,
}
use nanoarrow2parquet.Schema.{SchemaNode, LeafSpec, Flat, is_format}
use nanoarrow2parquet.External.{External}
use nanoarrow2parquet.External.Headers.{RowGroupMeta}
use nanoarrow2parquet.Writer.State.{
  N2PWriter, Ending, done, returned, thrown, crashed, continue, caught, reporting, refuse_if,
}
use nanoarrow2parquet.Writer.Batch.{
  lock_schema, set_schema, write_leaves, write_checked, write_one_batch, flatten_columns,
  empty_flat, start_group,
}
use nanoarrow2parquet.Writer.Rules.{Wrote, Wrote-nothing, After, After-caught}
use nanoarrow2parquet.Writer.Groups.{Tiles, total_uncompressed, MoreChunks, write_leaves-Tiles}
use nanoarrow2parquet.Writer.Api.{magic}
use nanoarrow2parquet.Result.{
  N2PStatus, invalid_argument, unsupported_type, Reason, io_error, not_a_struct, no_columns,
  child_count, stream_failed, null_argument, no_leaves, incompatible_schema, Result, ok, err, crash,
}

-- A row group in a file: its chunks take consecutive bytes of it, at the offsets that they name,
-- one for each leaf; its byte size is the sum of theirs.
abbrev pub StoredIn : List LeafSpec → Bytes → RowGroupMeta → Type 0
StoredIn leaves bytes g =
    (before own behind : Bytes) × (bytes ≡ before ++ (own ++ behind))
    × Tiles (length before) leaves g.columns own
    × (g.total_byte_size ≡ total_uncompressed g.columns)

abbrev pub sum_rows : List RowGroupMeta → ℕ
sum_rows [] = 0
sum_rows (g ∷ gs) = g.num_rows + sum_rows gs

-- What the records say of the file `bytes`.
pub record Matches (w : N2PWriter) (bytes : Bytes) : Type 0 where
  pub size : w.offset ≡ length bytes
  pub begins : (rest : Bytes) × (bytes ≡ magic ++ rest)
  pub stored : All (StoredIn w.leaves bytes) w.row_groups

-- The state agrees with the file unless a write has failed; the row count and the lock do always.
pub record IsConsistent (w : N2PWriter) : Type 0 where
  pub file : w.out.good ≡ true → Matches w w.out.bytes
  pub counted : w.total_rows ≡ sum_rows w.row_groups
  pub unlocked : w.schema_locked ≡ false → w.row_groups ≡ []

pub StoredIn-append :
    (leaves : List LeafSpec) (bytes more : Bytes) (gs : List RowGroupMeta)
    → All (StoredIn leaves bytes) gs
    → All (StoredIn leaves (bytes ++ more)) gs
StoredIn-append leaves bytes more [] h = tt
StoredIn-append leaves bytes more (g ∷ gs) ((before, own, behind, e, tiles, size), h) = (
  (
    before,
    own,
    behind ++ more,
    ap (λ (t : Bytes). t ++ more) e
        ∙ append_assoc before (own ++ behind) more
        ∙ ap (λ (t : Bytes). before ++ t) (append_assoc own behind more),
    tiles,
    size,
  ),
  StoredIn-append leaves bytes more gs h,
)

sum_rows-append : (gs hs : List RowGroupMeta) → sum_rows (gs ++ hs) ≡ sum_rows gs + sum_rows hs
sum_rows-append [] hs = omega arith
sum_rows-append (g ∷ gs) hs = omega (arith, sum_rows-append gs hs)

-- Bytes that are written behind the others keep what is recorded.
pub Wrote-Matches :
    (w w' : N2PWriter) (more : Bytes)
    → Wrote w more w'
    → IsConsistent w
    → w'.out.good ≡ true
    → Matches w' w'.out.bytes
Wrote-Matches w w' more h c g =
    let m : Matches w w.out.bytes = c.file (h.was_good g) in
    rw (h.appended g) (record {
      size = omega (arith, h.advance, m.size, length-append w.out.bytes more);
      begins = (
        m.begins.0 ++ more,
        ap (λ (t : Bytes). t ++ more) m.begins.1 ∙ append_assoc magic m.begins.0 more,
      );
      stored =
          rw (h.same.leaves, h.same.groups)
            (StoredIn-append w.leaves w.out.bytes more w.row_groups m.stored);
    })

pub Wrote-IsConsistent :
    (w w' : N2PWriter) (more : Bytes) → Wrote w more w' → IsConsistent w → IsConsistent w'
Wrote-IsConsistent w w' more h c = record {
  file = Wrote-Matches w w' more h c;
  counted = h.same.rows ∙ c.counted ∙ ap sum_rows (sym h.same.groups);
  unlocked = λ u. h.same.groups ∙ c.unlocked (sym h.same.locked ∙ u);
}

-- A row group whose chunks were just written joins the record.
add_row_group-IsConsistent :
    (w w' : N2PWriter) (more : Bytes) (rows : ℕ) (rg : RowGroupMeta)
    → Wrote w more w'
    → MoreChunks w.offset w.leaves (start_group rows) rg more
    → w.schema_locked ≡ true
    → IsConsistent w
    → IsConsistent
        (record w' { row_groups = w'.row_groups ++ (rg ∷ []); total_rows = w'.total_rows + rows })
add_row_group-IsConsistent w w' more rows rg h (cs, columns, size, nrows, tiles) locked c = record {
  file = λ g.
      let m : Matches w w.out.bytes = c.file (h.was_good g) in
      let m' : Matches w' w'.out.bytes = Wrote-Matches w w' more h c g in
      record {
        size = m'.size;
        begins = m'.begins;
        stored = All-append (StoredIn w'.leaves w'.out.bytes) w'.row_groups (rg ∷ []) m'.stored (
          (
            w.out.bytes,
            more,
            [],
            h.appended g ∙ ap (λ (t : Bytes). w.out.bytes ++ t) (sym (append-nil more)),
            rw (columns, h.same.leaves, ← m.size) tiles,
            omega (arith, size, ap total_uncompressed columns),
          ),
          tt,
        );
      };
  counted = omega (
    arith,
    sum_rows-append w'.row_groups (rg ∷ []),
    nrows,
    h.same.rows,
    c.counted,
    ap sum_rows h.same.groups,
  );
  unlocked = λ u. absurd (cc (u, h.same.locked, locked));
}

record_message-IsConsistent :
    (w : N2PWriter) (e : Reason) → IsConsistent w → IsConsistent (record w { last_error = e })
record_message-IsConsistent w e c =
    Wrote-IsConsistent w (record w { last_error = e }) [] (Wrote-nothing w e) c

-- However a call ends, the state is consistent; a value comes with the relation `P` as well.
abbrev pub Ends : {A : Type 0} → (A → N2PWriter → Type 0) → Ending A × N2PWriter → Type 0
Ends P (done a, w) = IsConsistent w × P a w
Ends P (returned s, w) = IsConsistent w
Ends P (thrown e, w) = IsConsistent w
Ends P (crashed, w) = IsConsistent w

Ends-IsConsistent :
    {A : Type 0} (P : A → N2PWriter → Type 0) (x : Ending A × N2PWriter)
    → Ends P x
    → IsConsistent x.1
Ends-IsConsistent P (done a, w) h = h.0
Ends-IsConsistent P (returned s, w) h = h
Ends-IsConsistent P (thrown e, w) h = h
Ends-IsConsistent P (crashed, w) h = h

-- The rule for `>>=`.
Ends-bind :
    {A B : Type 0} (P : A → N2PWriter → Type 0) (Q : B → N2PWriter → Type 0)
    (x : Ending A × N2PWriter) (f : A → N2PWriter → Ending B × N2PWriter)
    → Ends P x
    → ((a : A) (w : N2PWriter) → IsConsistent w → P a w → Ends Q (f a w))
    → Ends Q (continue x f)
Ends-bind P Q (done a, w) f h k = k a w h.0 h.1
Ends-bind P Q (returned s, w) f h k = h
Ends-bind P Q (thrown e, w) f h k = h
Ends-bind P Q (crashed, w) f h k = h

-- A test that refuses leaves the state as it was where it passes.
Ends-refuse_if :
    {B : Type 0} (b : Bool) (s : N2PStatus) (e : Reason) (w : N2PWriter)
    (Q : B → N2PWriter → Type 0) (f : Unit {0} → N2PWriter → Ending B × N2PWriter)
    → IsConsistent w
    → (IsConsistent w → Ends Q (f tt w))
    → Ends Q (continue (refuse_if b s e w) f)
Ends-refuse_if true s e w Q f c k = record_message-IsConsistent w e c
Ends-refuse_if false s e w Q f c k = k c

-- Fixing the schema before the first row group leaves nothing to place.
set_schema-IsConsistent :
    (w : N2PWriter) (nodes : List SchemaNode) (leaves : List LeafSpec) (n : ℕ)
    → w.schema_locked ≡ false
    → IsConsistent w
    → IsConsistent
        (record w { schema_nodes = nodes; leaves = leaves; top_children = n; schema_locked = true })
set_schema-IsConsistent w nodes leaves n u c = record {
  file = λ g. record {
    size = (c.file g).size;
    begins = (c.file g).begins;
    stored = rw (c.unlocked u) tt;
  };
  counted = c.counted;
  unlocked = λ e. absurd (cc e);
}

abbrev Locked : Unit {0} → N2PWriter → Type 0
Locked u w = w.schema_locked ≡ true

set_schema-Ends :
    (cs : Schemas) (r : Result Flat) (w : N2PWriter)
    → w.schema_locked ≡ false
    → IsConsistent w
    → Ends Locked (continue (reporting unsupported_type r w) (set_schema cs))
unfolding set_schema
set_schema-Ends cs (ok flat) w u c =
    Ends-refuse_if (is_empty flat.leaves) invalid_argument no_leaves w Locked _ c
      λ c'. (set_schema-IsConsistent w flat.nodes flat.leaves (n_schemas cs) u c', refl)
set_schema-Ends cs (err e) w u c = record_message-IsConsistent w e c
set_schema-Ends cs crash w u c = c

refuse-Locked :
    (b : Bool) (s : N2PStatus) (e : Reason) (w : N2PWriter)
    → w.schema_locked ≡ true
    → IsConsistent w
    → Ends Locked (refuse_if b s e w)
refuse-Locked true s e w l c = record_message-IsConsistent w e c
refuse-Locked false s e w l c = (c, l)

-- After a batch's schema is accepted the writer is locked.
lock_schema-Ends : (cs : Schemas) (w : N2PWriter) → IsConsistent w → Ends Locked (lock_schema cs w)
unfolding lock_schema
lock_schema-Ends cs w c = go w.schema_locked refl
  where
    go :
        (b : Bool)
        → w.schema_locked ≡ b
        → Ends Locked (
            if b
            then refuse_if
                (not (n_schemas cs == w.top_children))
                invalid_argument
                incompatible_schema
                w
            else continue
                (reporting unsupported_type (flatten_columns cs 0 empty_flat) w)
                (set_schema cs))
    go true l = refuse-Locked _ _ _ w l c
    go false u = set_schema-Ends cs (flatten_columns cs 0 empty_flat) w u c

abbrev Any : Unit {0} → N2PWriter → Type 0
Any u w = Unit {0}

refuse-IsConsistent :
    (b : Bool) (s : N2PStatus) (e : Reason) (w : N2PWriter)
    → IsConsistent w
    → Ends Any (refuse_if b s e w)
refuse-IsConsistent true s e w c = record_message-IsConsistent w e c
refuse-IsConsistent false s e w c = (c, tt)

-- The columns of a batch, written and entered as a row group.
write_columns-Ends :
    (w : N2PWriter) (rows : ℕ) (x : Ending RowGroupMeta × N2PWriter)
    (Q : Unit {0} → N2PWriter → Type 0)
    (f : RowGroupMeta → N2PWriter → Ending (Unit {0}) × N2PWriter)
    → w.schema_locked ≡ true
    → IsConsistent w
    → After w (MoreChunks w.offset w.leaves (start_group rows)) x
    → ((rg : RowGroupMeta) (w' : N2PWriter)
        → IsConsistent (record w' {
          row_groups = w'.row_groups ++ (rg ∷ []);
          total_rows = w'.total_rows + rows;
        })
        → Ends Q (f rg w'))
    → Ends Q (continue x f)
write_columns-Ends w rows (done rg, w') Q f l c (more, h, chunks) k =
    k rg w' (add_row_group-IsConsistent w w' more rows rg h chunks l c)
write_columns-Ends w rows (returned s, w') Q f l c (more, h) k = Wrote-IsConsistent w w' more h c
write_columns-Ends w rows (thrown e, w') Q f l c (more, h) k = Wrote-IsConsistent w w' more h c
write_columns-Ends w rows (crashed, w') Q f l c (more, h) k = Wrote-IsConsistent w w' more h c

module _ (ext : External) where
  write_checked-Ends :
      (sc : ArrowSchema) (batch : ArrowArray) (w : N2PWriter)
      → IsConsistent w
      → Ends Any (write_checked ext sc batch w)
  unfolding write_checked
  write_checked-Ends sc batch w c =
      let cs = schema_children sc in
      let rows = (head batch).length in
      Ends-refuse_if (not (is_format (schema_head sc).format "+s")) invalid_argument not_a_struct w
        Any _ c
        λ c1. Ends-refuse_if (n_schemas cs == 0) invalid_argument no_columns w Any _ c1 λ c2.
          Ends-refuse_if (not (n_arrays (children batch) == n_schemas cs)) invalid_argument
            child_count w Any _ c2
            λ c3. Ends-bind Locked Any (lock_schema cs w) _ (lock_schema-Ends cs w c3) λ u w1 c4 l.
              write_columns-Ends w1 rows
                (caught (write_leaves ext w1.leaves batch (start_group rows) w1)) Any _ l c4
                (After-caught w1 (MoreChunks w1.offset w1.leaves (start_group rows)) _
                  (write_leaves-Tiles ext w1.leaves batch (start_group rows) w1))
                λ rg w2 c5. refuse-IsConsistent (not w2.out.good) io_error stream_failed _ c5

  -- Writing a batch keeps the writer consistent, whatever the arguments and however it ends: also
  -- after a refused batch or a failed column, the offset is the file's size and every recorded row
  -- group is stored where its chunks say, as long as no write to the file has failed.
  pub write_one_batch-IsConsistent :
      (sc : Option ArrowSchema) (batch : Option ArrowArray) (w : N2PWriter)
      → IsConsistent w
      → IsConsistent (write_one_batch ext sc batch w).1
  unfolding write_one_batch
  write_one_batch-IsConsistent none batch w c = record_message-IsConsistent w null_argument c
  write_one_batch-IsConsistent (some sc) none w c = record_message-IsConsistent w null_argument c
  write_one_batch-IsConsistent (some sc) (some batch) w c =
      Ends-IsConsistent Any (write_checked ext sc batch w) (write_checked-Ends sc batch w c)
