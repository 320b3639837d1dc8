-- ===== src/Pcapng/Blocks.antt =====
-- The blocks of a capture (`classify_block` of
-- examples/pcapng2parquet/src/pcapng2parquet_main.cpp), and what the converter calls and does not
-- implement: nanotins' scanner, parsers and decoders, and soatins' conversion of rows.
use nanoarrow2parquet.Common.{
  ℕ, ◌+◌, ◌-◌, Bool, Option, none, some, List, [], ◌∷◌, ◌++◌, length, get_or, set,
}
use nanoarrow2parquet.Bytes.{Bytes}
use nanoarrow2parquet.Arrow.{ArrowSchema, ArrowArray}

pub data Kind : Type 0 where
  shb idb epb pcap_record simple_packet other_kind : Kind

-- What the program reads of a pcapblocks::BlockRef; `body` is the rest.
pub record BlockRef (R : Type 0) : Type 0 where
  pub kind : Kind
  pub type_or_link : ℕ
  pub body : R

-- The fields of the views that the program reads.
pub record IdbView : Type 0 where
  pub link_type : ℕ
  pub ts_resol : ℕ

pub record EpbView : Type 0 where
  pub interface_id : ℕ
  pub ts_raw : ℕ
  pub caplen : ℕ
  pub origlen : ℕ
  pub epb_flags : ℕ
  pub payload_file_offset : ℕ

-- One row of the packets table (examples/pcapng2parquet/include/packet_row.hpp).
pub record PacketRow : Type 0 where
  pub packet_id : ℕ
  pub interface_id : ℕ
  pub ts_raw : ℕ
  pub caplen : ℕ
  pub origlen : ℕ
  pub link_type : ℕ
  pub ts_resol : ℕ
  pub epb_flags : ℕ

-- R is the rest of a block reference, St the scanner's state, D the tables of the packet decoder and L
-- the engine of the link-layer discovery rules.
pub record Capture (R St D L : Type 0) : Type 0 where
  -- the default ScanState and dag_tables
  pub new_state : St
  pub new_tables : D
  -- on the window's bytes and the mark of the end: the blocks and how many bytes they take, if the
  -- bytes can be scanned
  pub scan_window : St → Bytes → Bool → Option (List (BlockRef R) × ℕ × St)
  pub parse_idb : Bytes → BlockRef R → Option IdbView
  -- the view that is filled in, which stays zero if the parser fails
  pub parse_epb : Bytes → BlockRef R → EpbView
  -- soatins::arrow_schema<PacketRow> and soatins::to_arrow
  pub packet_schema : Option ArrowSchema
  pub to_arrow : List PacketRow → Option ArrowArray
  -- dag_decode_packet and Engine::run, on the packet's number and bytes
  pub dag_decode_packet : ℕ → Bytes → D → D
  pub run_rules : ℕ → Bytes → L → L
  -- load_rules on the fixed rules, if they compile
  pub load_rules : Option L

-- The sections' interface tables, the section at hand (none for -1), and the blocks passed over; and
-- the window's packets, each with the section it stands in.
pub record Classified (R : Type 0) : Type 0 where
  pub sections : List (List IdbView)
  pub cur_section : Option ℕ
  pub other_count : ℕ
  pub packets : List (BlockRef R × ℕ)

module _ {R St D L : Type 0} (cap : Capture R St D L) where
  -- A section is opened where a block needs one and there is none.
  abbrev in_section : Classified R → Classified R
  in_section c = elim c.cur_section [
    | none ↦ record c { sections = c.sections ++ ([] ∷ []); cur_section = some 0 }
    | some s ↦ c
  ]

  abbrev section_of : Classified R → ℕ
  section_of c = elim c.cur_section [ none ↦ 0 | some s ↦ s ]

  abbrev add_interface : IdbView → Classified R → Classified R
  add_interface v c =
      let s = section_of c in
      record c { sections = set c.sections s (get_or c.sections s [] ++ (v ∷ [])) }

  abbrev add_packet : BlockRef R → Classified R → Classified R
  add_packet r c = record c { packets = c.packets ++ ((r, section_of c) ∷ []) }

  unfoldable pub classify_block : Bytes → BlockRef R → Classified R → Classified R
  classify_block wbytes r c = elim r.kind [
    | shb ↦ record c {
      sections = c.sections ++ ([] ∷ []);
      cur_section = some (length (c.sections ++ ([] ∷ [])) - 1);
    }
    | idb ↦ elim (cap.parse_idb wbytes r) [
      | none ↦ in_section c
      | some v ↦ add_interface v (in_section c)
    ]
    | other_kind ↦ record c { other_count = c.other_count + 1 }
    | _ ↦ add_packet r (in_section c)
  ]

  -- The loop over a window's blocks.
  unfoldable pub classify_all : Bytes → List (BlockRef R) → Classified R → Classified R
  unfolding classify_block
  classify_all wbytes [] c = c
  classify_all wbytes (r ∷ rs) c = classify_all wbytes rs (classify_block wbytes r c)
