-- ===== src/Pcapng/Convert.antt =====
-- The converter's state and its windows (class Converter of
-- examples/pcapng2parquet/src/pcapng2parquet_main.cpp).
use nanoarrow2parquet.Common.{
  ℕ, ◌+◌, ◌-◌, ◌%◌, ◌^◌, Bool, true, false, not, ◌==◌, ◌&&◌, ltb, leb, Option, none, some, List, [],
  ◌∷◌, length, get_or, get_elem?, take, drop, if◌then◌else◌,
}
use nanoarrow2parquet.Bytes.{Bytes}
use nanoarrow2parquet.Arrow.{ArrowSchema, ArrowArray}
use nanoarrow2parquet.External.{External}
use nanoarrow2parquet.Result.{N2PStatus}
use nanoarrow2parquet.Writer.State.{N2PWriter}
use nanoarrow2parquet.Writer.Api.{n2p_writer_write_batch}
use nanoarrow2parquet.Pcapng.Args.{Args, all_packets}
use nanoarrow2parquet.Pcapng.Blocks.{
  epb, simple_packet, BlockRef, IdbView, EpbView, PacketRow, Capture, Classified, classify_all,
}

-- The members that change. `pkt_writer` is the open writer of the packets table and `pkt_schema` its
-- schema; `cur_section` is none for -1, and `lldp_engine` for a null pointer.
pub record Converter (St D L : Type 0) : Type 0 where
  pub pkt_schema : ArrowSchema
  pub pkt_writer : N2PWriter
  pub pkt_row_groups : ℕ
  pub st : St
  pub sections : List (List IdbView)
  pub cur_section : Option ℕ
  pub global_pid : ℕ
  pub emitted : ℕ
  pub other_count : ℕ
  pub dag : D
  pub lldp_engine : Option L

-- `std::min` on the packets of a window: how many of `n` stand before number `k`, the first being `g0`.
abbrev pub before : ℕ → ℕ → ℕ → ℕ
before k g0 n = if ltb (k - g0) n then k - g0 else n

-- `lo` and `hi`: the packets of a window that --drop and --count keep. The sum of the two is one of
-- 64 bits.
unfoldable pub slice_bounds : Args → ℕ → ℕ → ℕ × ℕ
slice_bounds a g0 n =
    let lo = if ltb g0 a.drop then before a.drop g0 n else 0 in
    let end = (a.drop + a.take) % 2 ^ 64 in
    let hi =
      if not (a.take == all_packets) then (if ltb g0 end then before end g0 n else 0) else n in
    (lo, if ltb hi lo then lo else hi)

module _ {R St D L : Type 0} (cap : Capture R St D L) where
  -- The link type and the time unit of a packet: those of its interface, or a classic record's own.
  unfoldable pub link_and_unit : List (List IdbView) → BlockRef R × ℕ → EpbView → ℕ × ℕ
  link_and_unit sections (ref, section) e =
      let on_interface =
        elim (get_elem? (get_or sections section []) e.interface_id) as (λ x. ℕ × ℕ) [
          | none ↦ (0, 6)
          | some v ↦ (v.link_type, v.ts_resol)
        ] in
      elim ref.kind [
        | epb ↦ on_interface
        | simple_packet ↦ on_interface
        | _ ↦ (ref.type_or_link % 2 ^ 16, 6)
      ]

  unfoldable pub packet_row : Bytes → List (List IdbView) → BlockRef R × ℕ → ℕ → PacketRow
  unfolding link_and_unit
  packet_row wbytes sections p pid =
      let e = cap.parse_epb wbytes p.0 in
      let (link, res) = link_and_unit sections p e in
      record {
        packet_id = pid;
        interface_id = e.interface_id;
        ts_raw = e.ts_raw;
        caplen = e.caplen;
        origlen = e.origlen;
        link_type = link;
        ts_resol = res;
        epb_flags = e.epb_flags;
      }

  -- The decoders behind a packet: an Ethernet packet inside the window goes to those that are on. The
  -- sum is one of 64 bits; where it wraps round, the model reads no byte.
  unfoldable pub decode_packet : Bool → Bytes → BlockRef R → PacketRow → D × Option L → D × Option L
  decode_packet decode_l2l3 wbytes ref row (dag, engine) =
      let e = cap.parse_epb wbytes ref in
      let pkt = take e.caplen (drop e.payload_file_offset wbytes) in
      if row.link_type == 1 && leb ((e.payload_file_offset + e.caplen) % 2 ^ 64) (length wbytes)
      then (
        if decode_l2l3 then cap.dag_decode_packet row.packet_id pkt dag else dag,
        elim engine [ none ↦ none | some l ↦ some (cap.run_rules row.packet_id pkt l) ],
      )
      else (dag, engine)

  -- The loop over the packets that are kept, from number `pid` on.
  unfoldable pub keep_packets :
      Bool
      → Bytes
      → List (List IdbView)
      → List (BlockRef R × ℕ)
      → ℕ
      → D × Option L
      → List PacketRow × (D × Option L)
  unfolding packet_row decode_packet
  keep_packets decode_l2l3 wbytes sections [] pid ds = ([], ds)
  keep_packets decode_l2l3 wbytes sections (p ∷ ps) pid ds =
      let row = packet_row wbytes sections p pid in
      let (rows, ds') =
        keep_packets decode_l2l3 wbytes sections ps (pid + 1)
          (decode_packet decode_l2l3 wbytes p.0 row ds) in
      (row ∷ rows, ds')

  abbrev pub after_blocks : Classified R → Converter St D L → Converter St D L
  after_blocks cl c = record c {
    sections = cl.sections;
    cur_section = cl.cur_section;
    other_count = cl.other_count;
  }

  abbrev pub blocks_of : Converter St D L → Classified R
  blocks_of c = record {
    sections = c.sections;
    cur_section = c.cur_section;
    other_count = c.other_count;
    packets = [];
  }

  -- The rows of a window, with the state in which they are written.
  unfoldable pub window_rows :
      Args → Bytes → List (BlockRef R) → Converter St D L → List PacketRow × Converter St D L
  unfolding classify_all keep_packets
  window_rows a wbytes refs c =
      let cl = classify_all cap wbytes refs (blocks_of c) in
      let n_total = length cl.packets in
      let (lo, hi) = slice_bounds a c.global_pid n_total in
      let (rows, (dag, engine)) =
        keep_packets a.decode_l2l3 wbytes cl.sections (take (hi - lo) (drop lo cl.packets))
          (c.global_pid + lo) (c.dag, c.lldp_engine) in
      (
        rows,
        record (after_blocks cl c) {
          global_pid = c.global_pid + n_total;
          emitted = c.emitted + (hi - lo);
          dag = dag;
          lldp_engine = engine;
        },
      )

  module _ (ext : External) where
    -- The row group of a window; true where `process_window` returns 0, none where the call crashes.
    unfoldable pub write_rows :
        Option ArrowArray → Converter St D L → Option (Bool × Converter St D L)
    write_rows none c = some (false, c)
    write_rows (some batch) c =
        elim (n2p_writer_write_batch ext c.pkt_writer (some c.pkt_schema) (some batch)) [
          | none ↦ none
          | some (s, w) ↦ elim s [
            | N2PStatus.ok ↦
                some (true, record c { pkt_writer = w; pkt_row_groups = c.pkt_row_groups + 1 })
            | _ ↦ some (false, record c { pkt_writer = w })
          ]
        ]

    -- A window without rows writes nothing.
    abbrev pub write_window : List PacketRow × Converter St D L → Option (Bool × Converter St D L)
    write_window ([], c) = some (true, c)
    write_window (row ∷ rows, c) = write_rows (cap.to_arrow (row ∷ rows)) c

    unfoldable pub process_window :
        Args → Bytes → List (BlockRef R) → Converter St D L → Option (Bool × Converter St D L)
    unfolding window_rows write_rows
    process_window a wbytes refs c = write_window (window_rows a wbytes refs c)
