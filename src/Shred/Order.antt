-- ===== src/Shred/Order.antt =====
-- The values of a column of lists stand in the leaf array in the order of the rows, if the offsets of
-- its lists are sorted, as Arrow demands.
use nanoarrow2parquet.Common.{
  ℕ, zero, suc, ◌+◌, ◌-◌, ◌≤◌, ◌<◌, ◌≡◌, refl, arith, Bool, true, false, List, [], ◌∷◌, ◌++◌,
  length, Option, none, some, Bool-cases, inl, inr,
}
use nanoarrow2parquet.Common.Int.{pos}
use nanoarrow2parquet.Bytes.{Bytes}
use nanoarrow2parquet.Arrow.{ArrowArray, head, children, array_at, buffer}
use nanoarrow2parquet.Format.{Extract}
use nanoarrow2parquet.Schema.{
  PathStep, StepKind, struct_step, list_step, large_list_step, map_step, leaf_step,
}
use nanoarrow2parquet.Shred.{is_present, offset_at}
use nanoarrow2parquet.Shred.Nested.{
  Cell, Cells, missing, there, value, entries, end, entry, positions, all_positions,
}
use nanoarrow2parquet.Shred.Refinement.{
  cell_of, cells_from, kind_cell, list_cell, list_array, with_entry, span, as_list, as_there, Holds,
  path_step,
}

-- The numbers grow from one to the next, from `lo` on and below `hi`.
abbrev pub Ascends : ℕ → ℕ → List ℕ → Type 0
Ascends lo hi [] = lo ≤ hi
Ascends lo hi (p ∷ ps) = (lo ≤ p) × Ascends (p + 1) hi ps

Ascends-append :
    (lo mid hi : ℕ) (ps qs : List ℕ)
    → Ascends lo mid ps
    → Ascends mid hi qs
    → Ascends lo hi (ps ++ qs)
Ascends-append lo mid hi [] [] h k = omega arith
Ascends-append lo mid hi [] (q ∷ qs) h k = (omega arith, k.1)
Ascends-append lo mid hi (p ∷ ps) qs h k = (h.0, Ascends-append (p + 1) mid hi ps qs h.1 k)

pub Ascends-le : (lo hi : ℕ) (ps : List ℕ) → Ascends lo hi ps → lo ≤ hi
Ascends-le lo hi [] h = h
Ascends-le lo hi (p ∷ ps) h = omega (arith, h.0, Ascends-le (p + 1) hi ps h.1)

pub Ascends-length : (lo hi : ℕ) (ps : List ℕ) → Ascends lo hi ps → lo + length ps ≤ hi
Ascends-length lo hi [] h = omega arith
Ascends-length lo hi (p ∷ ps) h = omega (arith, h.0, Ascends-length (p + 1) hi ps h.1)

-- The arrays below a list or map step: its offsets, up to the last, are sorted numbers that stay
-- within the entries.
abbrev pub SortedList : PathStep → (ArrowArray → Type 0) → ArrowArray → Type 0
SortedList st P a =
    (off : Bytes) × (child c : ArrowArray) × (o : ℕ → ℕ) × (buffer (head a) 1 ≡ some off)
    × (array_at (children a) 0 ≡ some child)
    × (list_array st child ≡ some c)
    × ((i : ℕ) → i ≤ (head a).length → offset_at st.kind off i ≡ pos (o i))
    × ((i : ℕ) → i < (head a).length → o i ≤ o (i + 1))
    × ((i : ℕ) → i ≤ (head a).length → o i ≤ (head c).length)
    × P c

abbrev pub SortedKind : StepKind → PathStep → (ArrowArray → Type 0) → ℕ → ArrowArray → Type 0
SortedKind leaf_step st P n a = (head a).length ≤ n
SortedKind struct_step st P n a =
    (c : ArrowArray) × (array_at (children a) st.child ≡ some c)
    × ((head a).length ≤ (head c).length)
    × P c
SortedKind _ st P n a = SortedList st P a

-- The arrays along a path, to a leaf array of at most `n` values.
abbrev pub Sorted : List PathStep → ℕ → ArrowArray → Type 0
Sorted [] n a = ⊥
Sorted (st ∷ sts) n a = SortedKind st.kind st (Sorted sts n) n a

-- The leaf positions of each entry lie behind those of the entry before it.
pub record Order (holds : ℕ → Option Cell) (length n : ℕ) : Type 0 where
  pub reach : ℕ → ℕ
  pub grows : (e : ℕ) → e < length → reach e ≤ reach (e + 1)
  pub bounded : (e : ℕ) → e ≤ length → reach e ≤ n
  pub inside :
      (e : ℕ) (c : Cell)
      → e < length
      → holds e ≡ some c
      → Ascends (reach e) (reach (e + 1)) (positions c)

with_entry-some :
    (x : Option Cell) (xs : Option Cells) (cs : Cells)
    → with_entry x xs ≡ some cs
    → (c : Cell) × (cs' : Cells) × (x ≡ some c) × (xs ≡ some cs') × (cs ≡ entry c cs')
with_entry-some none xs cs e = absurd (cc e)
with_entry-some (some c) none cs e = absurd (cc e)
with_entry-some (some c) (some cs') cs e = (c, cs', refl, refl, cc e)

module _ (holds : ℕ → Option Cell) (length n : ℕ) (order : Order holds length n) where
  pub cells-Ascends :
      (m j : ℕ) (cs : Cells)
      → j + m ≤ length
      → cells_from holds m j ≡ some cs
      → Ascends (order.reach j) (order.reach (j + m)) (all_positions cs)
  unfolding cells_from positions
  cells-Ascends zero j cs within e =
      let none_more : end ≡ cs = cc e in
      let here : j + 0 ≡ j = omega arith in rw (← none_more, here) (omega arith)
  cells-Ascends (suc m) j cs within e =
      let (c, cs', first, rest, is) = with_entry-some (holds j) (cells_from holds m (j + 1)) cs e in
      let next : j + 1 + m ≡ j + suc m = omega arith in
      let behind : Ascends (order.reach (j + 1)) (order.reach (j + 1 + m)) (all_positions cs') =
        cells-Ascends m (j + 1) cs' (omega arith) rest in
      rw is (
        Ascends-append (order.reach j) (order.reach (j + 1)) (order.reach (j + suc m)) (positions c)
          (all_positions cs') (order.inside j c (omega arith) first) (rw next at behind))

  -- No entry reaches below an earlier one.
  reach-le : (m j : ℕ) → j + m ≤ length → order.reach j ≤ order.reach (j + m)
  reach-le zero j within = let here : j + 0 ≡ j = omega arith in rw here (omega arith)
  reach-le (suc m) j within =
      let next : j + 1 + m ≡ j + suc m = omega arith in
      let rest : order.reach (j + 1) ≤ order.reach (j + suc m) =
        rw next at (reach-le m (j + 1) (omega arith)) in
      omega (arith, rest, order.grows j (omega arith))

as_list-some :
    (x : Option Cells) (c : Cell)
    → as_list x ≡ some c
    → (cs : Cells) × (x ≡ some cs) × (c ≡ entries cs)
as_list-some none c e = absurd (cc e)
as_list-some (some cs) c e = (cs, refl, cc e)

as_there-some :
    (x : Option Cell) (c : Cell) → as_there x ≡ some c → (y : Cell) × (x ≡ some y) × (c ≡ there y)
as_there-some none c e = absurd (cc e)
as_there-some (some y) c e = (y, refl, cc e)

span-pos : (s t : ℕ) → s ≤ t → span (pos s) (pos t) ≡ some (s, t - s)
span-pos s t h = ground arith

-- Each kind of step orders its entries if the steps behind it do.
module _ (n : ℕ) (rest : Holds) (P : ArrowArray → Type 0)
    (below : (a : ArrowArray) → P a → Order (rest a) (head a).length n) where
  list-Order :
      (st : PathStep) (a : ArrowArray)
      → SortedList st P a
      → Order (list_cell st rest a) (head a).length n
  unfolding list_cell positions
  list-Order st a (off, child, c, o, found, a_child, is, offset, rises, within, p) =
      let inner : Order (rest c) (head c).length n = below c p in
      record {
        reach = λ e. inner.reach (o e);
        grows = λ e h.
            let r = rises e h in
            let w = within (e + 1) (omega arith) in
            let end : o e + (o (e + 1) - o e) ≡ o (e + 1) = omega arith in
            rw end at
              (reach-le (rest c) (head c).length n inner (o (e + 1) - o e) (o e) (omega arith));
        bounded = λ e h. inner.bounded (o e) (within e h);
        inside = λ e x h held.
            let r = rises e h in
            let w = within (e + 1) (omega arith) in
            let end : o e + (o (e + 1) - o e) ≡ o (e + 1) = omega arith in
            let at_last : offset_at st.kind off (e + 1) ≡ pos (o (e + 1)) =
              offset (e + 1) (omega arith) in
            let read : as_list (cells_from (rest c) (o (e + 1) - o e) (o e)) ≡ some x =
              rw
                (
                  list_cell,
                  found,
                  a_child,
                  is,
                  offset e (omega arith),
                  at_last,
                  span-pos (o e) (o (e + 1)) r,
                )
                at held in
            let (cs, from, is_list) =
              as_list-some (cells_from (rest c) (o (e + 1) - o e) (o e)) x read in
            rw is_list (
              rw end at (
                cells-Ascends (rest c) (head c).length n inner (o (e + 1) - o e) (o e) cs
                  (omega arith) from));
      }

  kind-Order :
      (k : StepKind) (o : Bool) (child rep : ℕ) (a : ArrowArray)
      → SortedKind k (path_step k o child rep) P n a
      → Order (kind_cell (path_step k o child rep) rest a) (head a).length n
  unfolding kind_cell positions
  kind-Order leaf_step o child rep a short = record {
    reach = λ e. e;
    grows = λ e h. omega arith;
    bounded = λ e h. omega arith;
    inside = λ e c h held. let is : value e ≡ c = cc held in rw (← is) (omega arith, omega arith);
  }
  kind-Order struct_step o child rep a (c, found, short, p) =
      let inner : Order (rest c) (head c).length n = below c p in
      record {
        reach = inner.reach;
        grows = λ e h. inner.grows e (omega arith);
        bounded = λ e h. inner.bounded e (omega arith);
        inside = λ e x h held. inner.inside e x (omega arith) (rw (kind_cell, found) at held);
      }
  kind-Order list_step o child rep a sorted = list-Order (path_step list_step o child rep) a sorted
  kind-Order large_list_step o child rep a sorted =
      list-Order (path_step large_list_step o child rep) a sorted
  kind-Order map_step o child rep a sorted = list-Order (path_step map_step o child rep) a sorted

pub cell_of-Order :
    (extract : Extract) (sts : List PathStep) (n : ℕ) (a : ArrowArray)
    → Sorted sts n a
    → Order (cell_of extract sts a) (head a).length n
unfolding cell_of positions
cell_of-Order extract [] n a impossible = absurd impossible
cell_of-Order extract (st ∷ sts) n a sorted =
    wrap (λ b. cell_of-Order extract sts n b) st.optional st.kind st.child st.rep_level sorted
  where
    wrap :
        ((b : ArrowArray) → Sorted sts n b → Order (cell_of extract sts b) (head b).length n)
        → (o : Bool) (k : StepKind) (child rep : ℕ)
        → SortedKind k (path_step k o child rep) (Sorted sts n) n a
        → Order (cell_of extract (path_step k o child rep ∷ sts) a) (head a).length n
    wrap ih false k child rep s =
        kind-Order n (cell_of extract sts) (Sorted sts n) ih k false child rep a s
    wrap ih true k child rep s =
        let st' = path_step k true child rep in
        let inner : Order (kind_cell st' (cell_of extract sts) a) (head a).length n =
          kind-Order n (cell_of extract sts) (Sorted sts n) ih k true child rep a s in
        record {
          reach = inner.reach;
          grows = inner.grows;
          bounded = inner.bounded;
          inside = λ e x h held. elim (Bool-cases (is_present extract st' a e)) [
            | inl here ↦
                let (y, from, is) =
                  as_there-some (kind_cell st' (cell_of extract sts) a e) x (rw here at held) in
                rw is (inner.inside e y h from)
            | inr null ↦ let is : missing ≡ x = cc (rw null at held) in rw (← is) (inner.grows e h)
          ];
        }
