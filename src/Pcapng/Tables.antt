-- ===== src/Pcapng/Tables.antt =====
-- The tables of the decoded packets, one file each
-- (examples/pcapng2parquet/include/parquet_pdu_table_writer.hpp, and `write_pdu_tables` and
-- `write_lldp_table` of examples/pcapng2parquet/src/pcapng2parquet_main.cpp).
use Prim.Native.String.{◌++◌ as str_append}
use nanoarrow2parquet.Common.{
  ℕ, ◌+◌, ◌*◌, Bool, true, false, ◌==◌, ◌&&◌, Option, none, some, String, List, [], ◌∷◌, length,
  set, take, if◌then◌else◌,
}
use nanoarrow2parquet.Common.Int.{pos}
use nanoarrow2parquet.Bytes.{Bytes}
use nanoarrow2parquet.Arrow.{
  ArrowArray, array, Arrays, null_children, nil, cons, head, children, SchemaHead, ArrowSchema,
  schema, Schemas, no_schemas, and_schema,
}
use nanoarrow2parquet.External.{External}
use nanoarrow2parquet.Result.{N2PStatus}
use nanoarrow2parquet.Writer.State.{N2PWriter, Stream}
use nanoarrow2parquet.Writer.Api.{
  n2p_writer_open, n2p_writer_set_codec, n2p_writer_write_batch, n2p_writer_close,
}

-- A column and a table of nanotins::dag_pdu_table, as the program reads them. K is the type
-- soatins::arrow_kind.
pub record PduColumn (K : Type 0) : Type 0 where
  pub kind : K
  pub fixed_width : ℕ
  pub name : String
  pub elem_size : ℕ
  pub bytes : Bytes

pub record PduTable (K : Type 0) : Type 0 where
  pub size : ℕ
  pub packet_id : Bytes
  pub columns : List (PduColumn K)

-- What these functions call: nanoarrow, soatins, and the accumulated tables of the decoders.
pub record TableSource (K D L : Type 0) : Type 0 where
  pub u64 : K
  -- ArrowSchemaSetTypeStruct for so many children, with the head that it leaves
  pub set_type_struct : ℕ → Option SchemaHead
  pub nt_set_column_schema : K → ℕ → String → Option ArrowSchema
  pub init_from_schema : ArrowSchema → Option ArrowArray
  -- whether so many bytes can be appended to a buffer
  pub buffer_append : ℕ → Bool
  pub finish_building : ArrowArray → Option ArrowArray
  -- the table of the node that is written under a suffix
  pub node_table : String → D → PduTable K
  -- Engine::table: its size, and its rows by soatins
  pub lldp_size : L → ℕ
  pub lldp_schema : Option ArrowSchema
  pub lldp_to_arrow : L → Option ArrowArray

-- `compress ? N2P_CODEC_ZSTD : N2P_CODEC_UNCOMPRESSED`
abbrev pub codec_of : Bool → ℕ
codec_of compress = if compress then 0 else 1

-- `w` behind a set_codec whose status is not looked at.
abbrev pub with_codec : Bool → N2PWriter → N2PWriter
with_codec compress w = elim (n2p_writer_set_codec (some w) (codec_of compress)).1 [
  | none ↦ w
  | some w' ↦ w'
]

module _ {K D L : Type 0} (src : TableSource K D L) where
  -- The fold over the columns, which stops at the first failure.
  unfoldable pub column_schemas : List (PduColumn K) → Option Schemas
  column_schemas [] = some no_schemas
  column_schemas (c ∷ cs) = elim (src.nt_set_column_schema c.kind c.fixed_width c.name) [
    | none ↦ none
    | some s ↦ elim (column_schemas cs) [ none ↦ none | some ss ↦ some (and_schema s ss) ]
  ]

  unfoldable pub build_dag_pdu_schema : PduTable K → Option ArrowSchema
  unfolding column_schemas
  build_dag_pdu_schema t = elim (src.set_type_struct (length t.columns + 1)) [
    | none ↦ none
    | some h ↦ elim (src.nt_set_column_schema src.u64 0 "packet_id") [
      | none ↦ none
      | some s ↦ elim (column_schemas t.columns) [
        | none ↦ none
        | some ss ↦ some (schema (record h { flags = 0 }) (and_schema s ss))
      ]
    ]
  ]

  -- A child with `n` elements of `width` bytes in its second buffer.
  abbrev fill_child : ℕ → ℕ → Bytes → ArrowArray → ArrowArray
  fill_child n width bytes a =
      let h = head a in
      array
        (record h {
          length = n;
          null_count = pos 0;
          buffers = elim h.buffers [
            | none ↦ none
            | some bs ↦ some (set bs 1 (some (take (n * width) bytes)))
          ];
        })
        (children a)

  -- One bulk append for each column; `nil` where the array has fewer children.
  unfoldable pub fill_columns : ℕ → List (PduColumn K) → Arrays → Option Arrays
  fill_columns n [] as' = some as'
  fill_columns n (c ∷ cs) (cons a as') = elim (src.buffer_append (n * c.elem_size)) [
    | false ↦ none
    | true ↦ elim (fill_columns n cs as') [
      | none ↦ none
      | some bs ↦ some (cons (fill_child n c.elem_size c.bytes a) bs)
    ]
  ]
  fill_columns n (c ∷ cs) nil = some nil
  fill_columns n (c ∷ cs) (null_children k) = some (null_children k)

  -- `packet_id` is the column before the others.
  abbrev all_columns : PduTable K → List (PduColumn K)
  all_columns t =
      record {
        kind = src.u64;
        fixed_width = 0;
        name = "packet_id";
        elem_size = 8;
        bytes = t.packet_id;
      }
      ∷ t.columns

  unfoldable pub build_dag_pdu_batch : ArrowSchema → PduTable K → Option ArrowArray
  unfolding fill_columns
  build_dag_pdu_batch sc t = elim (src.init_from_schema sc) [
    | none ↦ none
    | some a ↦ elim (fill_columns t.size (all_columns t) (children a)) [
      | none ↦ none
      | some cs ↦
          src.finish_building (array (record (head a) { length = t.size; null_count = pos 0 }) cs)
    ]
  ]

  module _ (ext : External) where
    -- Once the batch is written: the file is closed whatever the status, and a failed close counts
    -- where the batch was written.
    abbrev close_table : Option (N2PStatus × N2PWriter) → Option (Bool × Option Stream)
    close_table none = none
    close_table (some (N2PStatus.ok, w)) =
        let (s, out) = n2p_writer_close ext (some w) in
        elim s [ N2PStatus.ok ↦ some (true, out) | _ ↦ some (false, out) ]
    close_table (some (s, w)) = some (false, (n2p_writer_close ext (some w)).1)

    -- Once the file is open, or not; an open that fails leaves no file.
    abbrev opened_table :
        Bool
        → ArrowSchema
        → ArrowArray
        → N2PStatus × Option N2PWriter
        → Option (Bool × Option Stream)
    opened_table compress sc batch (s, none) = some (false, none)
    opened_table compress sc batch (N2PStatus.ok, some w) =
        close_table (n2p_writer_write_batch ext (with_codec compress w) (some sc) (some batch))
    opened_table compress sc batch (s, some w) = some (false, none)

    -- One file with one row group; true where the function returns true, none where a call crashes.
    unfoldable pub write_dag_pdu_table : Bool → String → PduTable K → Option (Bool × Option Stream)
    unfolding build_dag_pdu_schema build_dag_pdu_batch
    write_dag_pdu_table compress path t = elim (t.size == 0) [
      | true ↦ some (true, none)
      | false ↦ elim (build_dag_pdu_schema t) [
        | none ↦ some (false, none)
        | some sc ↦ elim (build_dag_pdu_batch sc t) [
          | none ↦ some (false, none)
          | some batch ↦ opened_table compress sc batch (n2p_writer_open ext (some path))
        ]
      ]
    ]

    -- Each suffix in turn; a table that fails does not stop the others. The paths and files written.
    unfoldable pub write_each :
        Bool → String → D → List String → Option (Bool × List (String × Stream))
    unfolding write_dag_pdu_table
    write_each compress stem dag [] = some (true, [])
    write_each compress stem dag (suffix ∷ suffixes) =
        let path = str_append stem suffix in
        elim (write_dag_pdu_table compress path (src.node_table suffix dag)) [
          | none ↦ none
          | some (ok, file) ↦ elim (write_each compress stem dag suffixes) [
            | none ↦ none
            | some (oks, files) ↦
                some (ok && oks, elim file [ none ↦ files | some f ↦ (path, f) ∷ files ])
          ]
        ]

    abbrev pub suffixes : List String
    suffixes =
        "_ethernet.parquet" ∷ "_vlan.parquet" ∷ "_ipv4.parquet" ∷ "_ipv6.parquet" ∷ "_tcp.parquet"
        ∷ "_udp.parquet" ∷ "_ptp.parquet" ∷ "_ptp_timestamp.parquet" ∷ "_ptp_ts_port.parquet"
        ∷ "_ptp_announce.parquet" ∷ "_ptp_signaling.parquet" ∷ "_ipv6_hopbyhop.parquet"
        ∷ "_ipv6_routing.parquet" ∷ "_ipv6_fragment.parquet" ∷ "_ipv6_destopt.parquet"
        ∷ "_ipv6_ah.parquet" ∷ "_someip.parquet" ∷ []

    unfoldable pub write_pdu_tables : Bool → String → D → Option (Bool × List (String × Stream))
    unfolding write_each
    write_pdu_tables compress stem dag = write_each compress stem dag suffixes

    -- The status of the write decides; that of the close is not looked at.
    abbrev after_lldp : Option (N2PStatus × N2PWriter) → Option (Bool × Option Stream)
    after_lldp none = none
    after_lldp (some (N2PStatus.ok, w)) = some (true, (n2p_writer_close ext (some w)).1)
    after_lldp (some (s, w)) = some (false, (n2p_writer_close ext (some w)).1)

    abbrev lldp_opened :
        Bool
        → ArrowSchema
        → ArrowArray
        → N2PStatus × Option N2PWriter
        → Option (Bool × Option Stream)
    lldp_opened compress sc batch (s, none) = some (false, none)
    lldp_opened compress sc batch (N2PStatus.ok, some w) =
        after_lldp (n2p_writer_write_batch ext (with_codec compress w) (some sc) (some batch))
    lldp_opened compress sc batch (s, some w) = some (false, none)

    unfoldable pub write_lldp_table : Bool → String → L → Option (Bool × Option Stream)
    write_lldp_table compress stem engine = elim (src.lldp_size engine == 0) [
      | true ↦ some (true, none)
      | false ↦ elim src.lldp_schema [
        | none ↦ some (false, none)
        | some sc ↦ elim (src.lldp_to_arrow engine) [
          | none ↦ some (false, none)
          | some batch ↦
              lldp_opened compress sc batch
                (n2p_writer_open ext (some (str_append stem "_lldp.parquet")))
        ]
      ]
    ]
