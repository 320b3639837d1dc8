-- ===== src/Writer/SchemaTree.antt =====
-- The schema that the first batch fixes (`write_one_batch` of src/writer.cpp), as a Parquet reader
-- sees it in the footer.
use nanoarrow2parquet.Common.{
  ℕ, zero, suc, ◌+◌, ◌≡◌, refl, sym, arith, [], map, append-nil, length, some,
}
use nanoarrow2parquet.Arrow.{
  ArrowSchema, Schemas, schema_head, null_schemas, no_schemas, and_schema, n_schemas,
}
use nanoarrow2parquet.Schema.{Flat, flatten_schema, nullable_child, text_or_empty}
use nanoarrow2parquet.Schema.Tree.{
  Trees, count, preorders, all_columns, read_trees, read_trees-preorders,
}
use nanoarrow2parquet.Schema.Shape.{
  GrewOne, Grew, describe, flatten_node-Grew, no_child, next_child,
}
use nanoarrow2parquet.Writer.Batch.{flatten_columns, empty_flat}
use nanoarrow2parquet.Result.Rules.{IfOk, IfOk-bind, IfOk-map}
use nanoarrow2parquet.Result.{ok}

flatten_schema-Grew :
    (c : ArrowSchema) (i : ℕ) (out : Flat) → IfOk (GrewOne [] 0 0 out) (flatten_schema c i out)
unfolding flatten_schema
flatten_schema-Grew c i out =
    flatten_node-Grew c [] (text_or_empty (schema_head c).name) (nullable_child c) _ 0 0 out
      (record { named = refl; defined = refl; repeated = refl })

flatten_columns-Grew :
    (cs : Schemas) (i : ℕ) (out : Flat)
    → IfOk (Grew (n_schemas cs) [] 0 0 out) (flatten_columns cs i out)
unfolding flatten_columns
flatten_columns-Grew (null_schemas zero) i out = no_child [] 0 0 out
flatten_columns-Grew (null_schemas (suc n)) i out = tt
flatten_columns-Grew no_schemas i out = no_child [] 0 0 out
flatten_columns-Grew (and_schema c cs) i out =
    IfOk-bind (GrewOne [] 0 0 out) (Grew (suc (n_schemas cs)) [] 0 0 out) (flatten_schema c i out)
      (flatten_columns cs (i + 1)) (flatten_schema-Grew c i out)
      λ mid one.
        IfOk-map (Grew (n_schemas cs) [] 0 0 mid) (Grew (suc (n_schemas cs)) [] 0 0 out) _
          (flatten_columns-Grew cs (i + 1) mid)
          λ out' many. next_child (n_schemas cs) [] 0 0 out mid out' one many

-- The flat list of nodes that the columns of a batch are flattened to is one schema: a reader that
-- takes as many trees off its front as the root has children takes exactly the whole list, and the
-- columns of these trees are, in their order, the leaves of every row group: each with its path, its
-- type, and as its highest definition and repetition levels the numbers of OPTIONAL or REPEATED and
-- of REPEATED nodes on the path.
pub flatten_columns-Tree :
    (cs : Schemas) (flat : Flat)
    → flatten_columns cs 0 empty_flat ≡ ok flat
    → (ts : Trees) × (read_trees (length flat.nodes) (n_schemas cs) flat.nodes ≡ some (ts, []))
      × (all_columns ts [] 0 0 ≡ map describe flat.leaves)
flatten_columns-Tree cs flat e =
    let grew : IfOk (Grew (n_schemas cs) [] 0 0 empty_flat) (ok flat) =
      rw e at (flatten_columns-Grew cs 0 empty_flat) in
    let (ts, nodes, counted, same, leaves) = taken grew in
    let nodes' : flat.nodes ≡ preorders ts = nodes in
    let read : read_trees (length (preorders ts)) (count ts) (preorders ts) ≡ some (ts, []) =
      rw append-nil at (read_trees-preorders ts (length (preorders ts)) [] counted (omega arith)) in
    (ts, rw (nodes', ← same) read, sym leaves)
  where
    taken :
        IfOk (Grew (n_schemas cs) [] 0 0 empty_flat) (ok flat)
        → Grew (n_schemas cs) [] 0 0 empty_flat flat
    taken h = h
