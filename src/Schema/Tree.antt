-- ===== src/Schema/Tree.antt =====
-- The footer's schema as a tree: what a Parquet reader makes of the flat list of schema elements.
use nanoarrow2parquet.Common.{
  ℕ, zero, suc, ◌+◌, ◌≤◌, ◌≡◌, refl, ap, ◌∙◌, arith, Bool, true, false, List, [], ◌∷◌, ◌++◌,
  append_assoc, length, length-append, Option, none, some, String, if◌then◌else◌,
}
use nanoarrow2parquet.Format.{PqType}
use nanoarrow2parquet.Schema.{SchemaNode}

mutual
  pub data Tree : Type 0 where
    column : SchemaNode → Tree
    group : SchemaNode → Trees → Tree

  pub data Trees : Type 0 where
    nil : Trees
    cons : Tree → Trees → Trees

abbrev pub count : Trees → ℕ
count nil = 0
count (cons t ts) = suc (count ts)

unfoldable mutual
  pub preorder : Tree → List SchemaNode
  preorder (column n) = n ∷ []
  preorder (group n ts) = n ∷ preorders ts

  pub preorders : Trees → List SchemaNode
  preorders nil = []
  preorders (cons t ts) = preorder t ++ preorders ts

-- A group says how many children it has, and a column that it is none.
unfoldable mutual
  pub IsCounted : Tree → Type 0
  IsCounted (column n) = n.is_group ≡ false
  IsCounted (group n ts) = (n.is_group ≡ true) × (n.num_children ≡ count ts) × AreCounted ts

  pub AreCounted : Trees → Type 0
  AreCounted nil = Unit
  AreCounted (cons t ts) = IsCounted t × AreCounted ts

-- A column as a reader sees it: the path from the root, the type, and the highest levels, which
-- count the OPTIONAL and the REPEATED nodes on the path.
pub record Column : Type 0 where
  pub path : List String
  pub type : PqType
  pub max_def : ℕ
  pub max_rep : ℕ

abbrev pub repeats : SchemaNode → ℕ
repeats n = if n.repeated then 1 else 0

abbrev pub defines : SchemaNode → ℕ
defines n = (if n.optional then 1 else 0) + repeats n

unfoldable mutual
  pub columns : Tree → List String → ℕ → ℕ → List Column
  columns (column n) path d r =
      record {
        path = path ++ (n.name ∷ []);
        type = n.type;
        max_def = d + defines n;
        max_rep = r + repeats n;
      }
      ∷ []
  columns (group n ts) path d r =
      all_columns ts (path ++ (n.name ∷ [])) (d + defines n) (r + repeats n)

  pub all_columns : Trees → List String → ℕ → ℕ → List Column
  all_columns nil path d r = []
  all_columns (cons t ts) path d r = columns t path d r ++ all_columns ts path d r

-- A reader takes `k` trees off the front of the list.
abbrev and_tree : Tree → Option (Trees × List SchemaNode) → Option (Trees × List SchemaNode)
and_tree t none = none
and_tree t (some (ts, rest)) = some (cons t ts, rest)

abbrev Taken : Type 0
Taken = Option (Trees × List SchemaNode)

-- One tree, by its node's kind, with its children as they would be read, and then the others.
abbrev take_tree : Bool → SchemaNode → List SchemaNode → Taken → (List SchemaNode → Taken) → Taken
take_tree false n ns children others = and_tree (column n) (others ns)
take_tree true n ns none others = none
take_tree true n ns (some (ts, rest)) others = and_tree (group n ts) (others rest)

unfoldable pub read_trees : ℕ → ℕ → List SchemaNode → Option (Trees × List SchemaNode)
read_trees fuel zero ns = some (nil, ns)
read_trees fuel (suc k) [] = none
read_trees zero (suc k) (n ∷ ns) = none
read_trees (suc fuel) (suc k) (n ∷ ns) =
    take_tree n.is_group n ns (read_trees fuel n.num_children ns) (read_trees fuel k)

-- With as much fuel as there are nodes, a reader gets the trees back from the list, whatever follows.
pub read_trees-preorders :
    (ts : Trees) (fuel : ℕ) (rest : List SchemaNode)
    → AreCounted ts
    → length (preorders ts) ≤ fuel
    → read_trees fuel (count ts) (preorders ts ++ rest) ≡ some (ts, rest)
unfolding read_trees preorder IsCounted
read_trees-preorders nil fuel rest h enough = refl
read_trees-preorders (cons (column n) ts) zero rest h enough = absurd (omega arith)
read_trees-preorders (cons (column n) ts) (suc fuel) rest (leaf, h) enough =
    let ns = preorders ts ++ rest in
    ap
      (λ (b : Bool).
        take_tree b n ns (read_trees fuel n.num_children ns) (read_trees fuel (count ts)))
      leaf
    ∙ ap (and_tree (column n)) (read_trees-preorders ts fuel rest h (omega arith))
read_trees-preorders (cons (group n us) ts) zero rest h enough = absurd (omega arith)
read_trees-preorders (cons (group n us) ts) (suc fuel) rest ((inner, number, counted), h) enough =
    let others = preorders ts ++ rest in
    let size = length-append (preorders us) (preorders ts) in
    let ns = (preorders us ++ preorders ts) ++ rest in
    let whole : ns ≡ preorders us ++ others = append_assoc (preorders us) (preorders ts) rest in
    let children : read_trees fuel n.num_children ns ≡ some (us, others) =
      ap (λ (k : ℕ). read_trees fuel k ns) number
      ∙ ap (read_trees fuel (count us)) whole
      ∙ read_trees-preorders us fuel others counted (omega (arith, size)) in
    ap
      (λ (b : Bool).
        take_tree b n ns (read_trees fuel n.num_children ns) (read_trees fuel (count ts)))
      inner
    ∙ ap (λ (c : Taken). take_tree true n ns c (read_trees fuel (count ts))) children
    ∙ ap (and_tree (group n us)) (read_trees-preorders ts fuel rest h (omega (arith, size)))
