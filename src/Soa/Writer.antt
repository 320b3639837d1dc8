-- ===== src/Soa/Writer.antt =====
-- The typed writer (class Writer and `write_file` of include/nanoarrow2parquet/soa.hpp).
use nanoarrow2parquet.Common.{ℕ, true, false, Option, none, some, String, [], ◌∷◌}
use nanoarrow2parquet.Common.Int.{pos}
use nanoarrow2parquet.Arrow.{ArrowArray, array, ArrowSchema, schema}
use nanoarrow2parquet.External.{External}
use nanoarrow2parquet.Writer.State.{N2PWriter, Stream}
use nanoarrow2parquet.Writer.Api.{n2p_writer_open, n2p_writer_write_batch, n2p_writer_close}
use nanoarrow2parquet.Soa.Nodes.{Fields, Args, Nodes, build_nodes, first_leaf_sizes}
use nanoarrow2parquet.Result.{N2PStatus, invalid_argument}

-- `w_` and `status_`.
pub record SoaWriter : Type 0 where
  pub handle : Option N2PWriter
  pub status : N2PStatus

abbrev pub root_schema : Nodes → ArrowSchema
root_schema ds = schema (record { format = some "+s"; name = some "schema"; flags = 0 }) ds.schemas

abbrev pub root_array : Nodes → ℕ → ArrowArray
root_array ds n =
    array
      (record {
        length = n;
        null_count = pos 0;
        offset = 0;
        n_buffers = 1;
        buffers = some (none ∷ []);
      })
      ds.arrays

module _ (ext : External) where
  unfoldable pub soa_open : String → SoaWriter
  soa_open path = let (s, w) = n2p_writer_open ext (some path) in record { handle = w; status = s }

  abbrev took : Option (N2PStatus × N2PWriter) → Option SoaWriter
  took none = none
  took (some (s, w)) = some (record { handle = some w; status = s })

  abbrev write_nodes : N2PWriter → ℕ → Nodes → Option SoaWriter
  write_nodes w n ds = elim ds.shapes_ok [
    | false ↦ some (record { handle = some w; status = invalid_argument })
    | true ↦ took (n2p_writer_write_batch ext w (some (root_schema ds)) (some (root_array ds n)))
  ]

  -- The writer after the chunk; its status is what the call returns. None where the fields and the
  -- columns do not fit, or the call crashes.
  unfoldable pub write_chunk : Fields → Args → SoaWriter → Option SoaWriter
  write_chunk fs args sw = elim sw.handle [
    | none ↦ some sw
    | some w ↦ elim (build_nodes fs args (first_leaf_sizes args)) [
      | none ↦ none
      | some ds ↦ write_nodes w (first_leaf_sizes args) ds
    ]
  ]

  abbrev keep_first : N2PStatus → N2PStatus → N2PStatus
  keep_first N2PStatus.ok s = s
  keep_first t s = t

  -- The status, the writer and the closed stream; a second close returns the status at hand.
  unfoldable pub soa_close : SoaWriter → N2PStatus × SoaWriter × Option Stream
  soa_close sw = elim sw.handle [
    | none ↦ (sw.status, sw, none)
    | some w ↦
        let (s, out) = n2p_writer_close ext (some w) in
        (s, record { handle = none; status = keep_first sw.status s }, out)
  ]

  -- `write_file`, once the chunk is written.
  abbrev after_chunk : Option SoaWriter → Option (N2PStatus × Option Stream)
  after_chunk none = none
  after_chunk (some sw) =
      let (s, sw', out) = soa_close sw in
      elim sw.status [ N2PStatus.ok ↦ some (s, out) | e ↦ some (e, out) ]

  unfoldable pub write_file : String → Fields → Args → Option (N2PStatus × Option Stream)
  unfolding soa_open soa_close write_chunk
  write_file path fs args =
      let sw = soa_open path in
      elim sw.status [
        | N2PStatus.ok ↦ after_chunk (write_chunk fs args sw)
        | e ↦ some (e, (soa_close sw).2)
      ]
