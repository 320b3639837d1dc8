-- ===== src/Writer/Rules.antt =====
-- What the methods that write do to the writer: they append bytes, and change nothing else but the
-- message. The rules follow the monad, so that a method's proof follows its `do` block.
use nanoarrow2parquet.Common.{
  ◌+◌, ◌≡◌, refl, ap, sym, ◌∙◌, arith, true, [], ◌++◌, length, length-append, append_assoc,
  append-nil,
}
use nanoarrow2parquet.Bytes.{Bytes}
use nanoarrow2parquet.External.{External}
use nanoarrow2parquet.Result.{N2PStatus, Reason, Result, ok, err, crash, compression_failed}
use nanoarrow2parquet.Writer.State.{
  N2PWriter, Ending, done, returned, thrown, crashed, continue, caught, throwing, reporting,
  write_bytes,
}

-- The settings, the schema and the row groups of `w'` are those of `w`.
pub record SameRecords (w w' : N2PWriter) : Type 0 where
  pub codec : w'.codec ≡ w.codec
  pub encoding : w'.encoding ≡ w.encoding
  pub locked : w'.schema_locked ≡ w.schema_locked
  pub nodes : w'.schema_nodes ≡ w.schema_nodes
  pub leaves : w'.leaves ≡ w.leaves
  pub top : w'.top_children ≡ w.top_children
  pub groups : w'.row_groups ≡ w.row_groups
  pub rows : w'.total_rows ≡ w.total_rows
  pub footer : w'.footer_written ≡ w.footer_written
  pub opened : w'.out.is_open ≡ w.out.is_open

-- From `w` to `w'` the bytes `more` were written: the offset counts them in any case, and the file
-- has them at its end if no write has failed until now.
pub record Wrote (w : N2PWriter) (more : Bytes) (w' : N2PWriter) : Type 0 where
  pub same : SameRecords w w'
  pub advance : w'.offset ≡ w.offset + length more
  pub was_good : w'.out.good ≡ true → w.out.good ≡ true
  pub appended : w'.out.good ≡ true → w'.out.bytes ≡ w.out.bytes ++ more

pub SameRecords-refl : (w : N2PWriter) (e : Reason) → SameRecords w (record w { last_error = e })
SameRecords-refl w e = record {
  codec = refl;
  encoding = refl;
  locked = refl;
  nodes = refl;
  leaves = refl;
  top = refl;
  groups = refl;
  rows = refl;
  footer = refl;
  opened = refl;
}

pub SameRecords-trans : (u v w : N2PWriter) → SameRecords u v → SameRecords v w → SameRecords u w
SameRecords-trans u v w h k = record {
  codec = k.codec ∙ h.codec;
  encoding = k.encoding ∙ h.encoding;
  locked = k.locked ∙ h.locked;
  nodes = k.nodes ∙ h.nodes;
  leaves = k.leaves ∙ h.leaves;
  top = k.top ∙ h.top;
  groups = k.groups ∙ h.groups;
  rows = k.rows ∙ h.rows;
  footer = k.footer ∙ h.footer;
  opened = k.opened ∙ h.opened;
}

-- A message alone writes nothing.
pub Wrote-nothing : (w : N2PWriter) (e : Reason) → Wrote w [] (record w { last_error = e })
Wrote-nothing w e = record {
  same = SameRecords-refl w e;
  advance = omega arith;
  was_good = λ g. g;
  appended = λ g. sym (append-nil w.out.bytes);
}

pub Wrote-trans : (u v w : N2PWriter) (a b : Bytes) → Wrote u a v → Wrote v b w → Wrote u (a ++ b) w
Wrote-trans u v w a b h k = record {
  same = SameRecords-trans u v w h.same k.same;
  advance = omega (arith, h.advance, k.advance, length-append a b);
  was_good = λ g. h.was_good (k.was_good g);
  appended = λ g.
      k.appended g
      ∙ ap (λ (t : Bytes). t ++ b) (h.appended (k.was_good g))
      ∙ append_assoc u.out.bytes a b;
}

-- How an action that began at `w` has ended: it wrote some bytes, and a value that it gives stands
-- in the relation `P` to them.
abbrev pub After : {A : Type 0} → N2PWriter → (A → Bytes → Type 0) → Ending A × N2PWriter → Type 0
After w P (done a, w') = (more : Bytes) × Wrote w more w' × P a more
After w P (returned s, w') = (more : Bytes) × Wrote w more w'
After w P (thrown e, w') = (more : Bytes) × Wrote w more w'
After w P (crashed, w') = (more : Bytes) × Wrote w more w'

pub After-prepend :
    {A : Type 0} (u w : N2PWriter) (more : Bytes) (Q : A → Bytes → Type 0)
    (y : Ending A × N2PWriter)
    → Wrote u more w
    → After w (λ b rest. Q b (more ++ rest)) y
    → After u Q y
After-prepend u w more Q (done b, w') h (rest, k, q) =
    (more ++ rest, Wrote-trans u w w' more rest h k, q)
After-prepend u w more Q (returned s, w') h (rest, k) =
    (more ++ rest, Wrote-trans u w w' more rest h k)
After-prepend u w more Q (thrown e, w') h (rest, k) =
    (more ++ rest, Wrote-trans u w w' more rest h k)
After-prepend u w more Q (crashed, w') h (rest, k) =
    (more ++ rest, Wrote-trans u w w' more rest h k)

pub After-weaken :
    {A : Type 0} (w : N2PWriter) (P Q : A → Bytes → Type 0) (x : Ending A × N2PWriter)
    → After w P x
    → ((a : A) (more : Bytes) → P a more → Q a more)
    → After w Q x
After-weaken w P Q (done a, w') (more, h, p) k = (more, h, k a more p)
After-weaken w P Q (returned s, w') h k = h
After-weaken w P Q (thrown e, w') h k = h
After-weaken w P Q (crashed, w') h k = h

-- The rule for `>>=`.
pub After-bind :
    {A B : Type 0} (w : N2PWriter) (P : A → Bytes → Type 0) (Q : B → Bytes → Type 0)
    (x : Ending A × N2PWriter) (f : A → N2PWriter → Ending B × N2PWriter)
    → After w P x
    → ((a : A) (more : Bytes) (w' : N2PWriter)
        → Wrote w more w'
        → P a more
        → After w' (λ b rest. Q b (more ++ rest)) (f a w'))
    → After w Q (continue x f)
After-bind w P Q (done a, w') f (more, h, p) k =
    After-prepend w w' more Q (f a w') h (k a more w' h p)
After-bind w P Q (returned s, w') f h k = h
After-bind w P Q (thrown e, w') f h k = h
After-bind w P Q (crashed, w') f h k = h

pub After-caught :
    {A : Type 0} (w : N2PWriter) (P : A → Bytes → Type 0) (x : Ending A × N2PWriter)
    → After w P x
    → After w P (caught x)
After-caught w P (done a, w') h = h
After-caught w P (returned s, w') h = h
After-caught w P (thrown e, w') (more, h) = (
  more ++ [],
  Wrote-trans w w' (record w' { last_error = compression_failed e }) more [] h
      (Wrote-nothing w' (compression_failed e)),
)
After-caught w P (crashed, w') h = h

-- A call that throws or reports writes nothing, and what follows it may use its value.
pub After-throwing :
    {A B : Type 0} (w : N2PWriter) (Q : B → Bytes → Type 0) (r : Result A)
    (f : A → N2PWriter → Ending B × N2PWriter)
    → ((a : A) → r ≡ ok a → After w Q (f a w))
    → After w Q (continue (throwing r w) f)
After-throwing w Q (ok a) f k = k a refl
After-throwing w Q (err e) f k = ([], Wrote-nothing w w.last_error)
After-throwing w Q crash f k = ([], Wrote-nothing w w.last_error)

pub After-reporting :
    {A B : Type 0} (w : N2PWriter) (s : N2PStatus) (Q : B → Bytes → Type 0) (r : Result A)
    (f : A → N2PWriter → Ending B × N2PWriter)
    → ((a : A) → r ≡ ok a → After w Q (f a w))
    → After w Q (continue (reporting s r w) f)
After-reporting w s Q (ok a) f k = k a refl
After-reporting w s Q (err e) f k = ([], Wrote-nothing w e)
After-reporting w s Q crash f k = ([], Wrote-nothing w w.last_error)

module _ (ext : External) where
  pub write_bytes-Wrote : (more : Bytes) (w : N2PWriter) → Wrote w more (write_bytes ext more w).1
  unfolding write_bytes
  write_bytes-Wrote more w = record {
    same = record {
      codec = refl;
      encoding = refl;
      locked = refl;
      nodes = refl;
      leaves = refl;
      top = refl;
      groups = refl;
      rows = refl;
      footer = refl;
      opened = ground arith;
    };
    advance = refl;
    was_good = ground arith;
    appended = ground arith;
  }
