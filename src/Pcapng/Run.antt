-- ===== src/Pcapng/Run.antt =====
-- A run of the converter (`Converter::run` of
-- examples/pcapng2parquet/src/pcapng2parquet_main.cpp).
use Prim.Native.String.{◌++◌ as str_append}
use nanoarrow2parquet.Common.{
  ℕ, zero, suc, ◌+◌, ◌%◌, ◌^◌, Bool, true, false, not, ◌==◌, ◌&&◌, ltb, leb, Option, none, some,
  String, List, [], ◌∷◌, ◌++◌, length, if◌then◌else◌, ◌||◌, str_eq,
}
use nanoarrow2parquet.Bytes.{Bytes}
use nanoarrow2parquet.Arrow.{ArrowSchema}
use nanoarrow2parquet.External.{External}
use nanoarrow2parquet.Result.{N2PStatus}
use nanoarrow2parquet.Writer.State.{N2PWriter, Stream}
use nanoarrow2parquet.Writer.Api.{n2p_writer_open, n2p_writer_close}
use nanoarrow2parquet.Pcapng.Args.{
  Args, all_packets, default_args, Parsed, parsed, refused, thrown, parse_args,
}
use nanoarrow2parquet.Pcapng.Window.{Window, new_window, full, fill, consume, grow}
use nanoarrow2parquet.Pcapng.Blocks.{BlockRef, Capture}
use nanoarrow2parquet.Pcapng.Convert.{Converter, process_window}
use nanoarrow2parquet.Pcapng.Tables.{TableSource, with_codec, write_pdu_tables, write_lldp_table}

-- How the loop over the windows ends.
pub data Ended (C : Type 0) : Type 0 where
  done : C → Ended C
  failed : C → Ended C
  crashed : Ended C
  no_fuel : Ended C

-- What a round of the loop leaves to do.
pub data Round (C W : Type 0) : Type 0 where
  stop : Ended C → Round C W
  again : C → W → Round C W

-- The exit code of `run`, the packets file, and the other files by path.
pub record Exit : Type 0 where
  pub code : ℕ
  pub packets : Option Stream
  pub tables : List (String × Stream)

-- `args_.take != UINT64_MAX && global_pid_ >= args_.drop + args_.take`
abbrev pub past_count : Args → ℕ → Bool
past_count a pid = not (a.take == all_packets) && leb ((a.drop + a.take) % 2 ^ 64) pid

module _ {S : Type 0} (read : S → ℕ → Bytes × S) {R St D L : Type 0} (cap : Capture R St D L)
    (ext : External) (a : Args) where
  -- No block is complete: at the end of the file the loop ends, otherwise more is read.
  unfoldable pub starved : Converter St D L → Window S → Round (Converter St D L) (Window S)
  starved c w = if w.eof then stop (done c) else again c (fill read (if full w then grow w else w))

  -- The window's packets are written, or not, or the call crashed.
  unfoldable pub after_window :
      ℕ → Window S → Option (Bool × Converter St D L) → Round (Converter St D L) (Window S)
  after_window consumed w none = stop crashed
  after_window consumed w (some (false, c)) = stop (failed c)
  after_window consumed w (some (true, c)) =
      if past_count a c.global_pid then stop (done c) else again c (fill read (consume consumed w))

  unfoldable pub after_scan :
      Converter St D L
      → Window S
      → Option (List (BlockRef R) × ℕ × St)
      → Round (Converter St D L) (Window S)
  unfolding starved after_window
  after_scan c w none = stop (failed c)
  after_scan c w (some (refs, consumed, st)) =
      if consumed == 0
      then starved (record c { st = st }) w
      else after_window consumed w (process_window cap ext a w.bytes refs (record c { st = st }))

  -- The body of the loop, with its test.
  unfoldable pub round : Converter St D L → Window S → Round (Converter St D L) (Window S)
  unfolding after_scan
  round c w =
      if length w.bytes == 0
      then stop (done c)
      else after_scan c w (cap.scan_window c.st w.bytes w.eof)

  unfoldable pub run_windows : ℕ → Converter St D L → Window S → Ended (Converter St D L)
  unfolding round
  run_windows zero c w = no_fuel
  run_windows (suc fuel) c w = elim (round c w) [
    | stop e ↦ e
    | again c' w' ↦ run_windows fuel c' w'
  ]

  abbrev pub new_converter : ArrowSchema → N2PWriter → Option L → Converter St D L
  new_converter sc w engine = record {
    pkt_schema = sc;
    pkt_writer = w;
    pkt_row_groups = 0;
    st = cap.new_state;
    sections = [];
    cur_section = none;
    global_pid = 0;
    emitted = 0;
    other_count = 0;
    dag = cap.new_tables;
    lldp_engine = engine;
  }

  module _ {K : Type 0} (src : TableSource K D L) where
    abbrev pub stopped : Option Stream → List (String × Stream) → Option Exit
    stopped out files = some (record { code = 1; packets = out; tables = files })

    abbrev pub ended : Bool → Option Stream → List (String × Stream) → Option Exit
    ended ok out files = some (record { code = if ok then 0 else 1; packets = out; tables = files })

    abbrev pub lldp_written :
        String
        → Option Stream
        → List (String × Stream)
        → Option (Bool × Option Stream)
        → Option Exit
    lldp_written stem out files none = none
    lldp_written stem out files (some (b, none)) = ended b out files
    lldp_written stem out files (some (b, some f)) =
        ended b out (files ++ ((str_append stem "_lldp.parquet", f) ∷ []))

    -- The table of the link-layer discovery rules, if they are on.
    unfoldable pub write_lldp :
        String → Option L → Option Stream → List (String × Stream) → Option Exit
    write_lldp stem none out files = ended true out files
    write_lldp stem (some l) out files =
        lldp_written stem out files (write_lldp_table src ext a.compress stem l)

    abbrev pub tables_written :
        String → Option L → Option Stream → Option (Bool × List (String × Stream)) → Option Exit
    tables_written stem engine out none = none
    tables_written stem engine out (some (false, files)) = stopped out files
    tables_written stem engine out (some (true, files)) = write_lldp stem engine out files

    -- The tables of the decoded packets, if there are any.
    unfoldable pub write_tables : String → Converter St D L → Option Stream → Option Exit
    unfolding write_lldp
    write_tables stem c out =
        if a.decode_l2l3 && ltb 0 c.emitted
        then tables_written stem c.lldp_engine out (write_pdu_tables src ext a.compress stem c.dag)
        else write_lldp stem c.lldp_engine out []

    abbrev pub after_close : String → Converter St D L → N2PStatus × Option Stream → Option Exit
    after_close stem c (N2PStatus.ok, out) = write_tables stem c out
    after_close stem c (s, out) = stopped out []

    -- Behind the loop: the packets writer is closed, and then the other tables are written.
    unfoldable pub finish_run : String → Ended (Converter St D L) → Option Exit
    unfolding write_tables
    finish_run stem (done c) = after_close stem c (n2p_writer_close ext (some c.pkt_writer))
    finish_run stem (failed c) = stopped (n2p_writer_close ext (some c.pkt_writer)).1 []
    finish_run stem crashed = none
    finish_run stem no_fuel = none

    -- The loop, with the rules' engine, and what follows it.
    unfoldable pub convert_file : ℕ → String → S → ArrowSchema → N2PWriter → Option L → Option Exit
    unfolding run_windows finish_run
    convert_file fuel stem s sc w engine =
        finish_run stem
          (run_windows fuel (new_converter sc w engine) (fill read (new_window s a.window_bytes)))

    abbrev pub with_rules : ℕ → String → S → ArrowSchema → N2PWriter → Option L → Option Exit
    with_rules fuel stem s sc w none = stopped (n2p_writer_close ext (some w)).1 []
    with_rules fuel stem s sc w (some l) = convert_file fuel stem s sc w (some l)

    -- The writer of the packets, if its file opens.
    abbrev pub opened_run :
        ℕ → String → S → ArrowSchema → N2PStatus × Option N2PWriter → Option Exit
    opened_run fuel stem s sc (N2PStatus.ok, some w) =
        let w' = with_codec a.compress w in
        if a.lldp
        then with_rules fuel stem s sc w' cap.load_rules
        else convert_file fuel stem s sc w' none
    opened_run fuel stem s sc (t, w) = stopped none []

    -- The source, if the input file opens; none where a call crashes or the fuel does not suffice.
    unfoldable pub run : ℕ → String → Option S → Option Exit
    unfolding convert_file
    run fuel stem none = stopped none []
    run fuel stem (some s) = elim cap.packet_schema [
      | none ↦ stopped none []
      | some sc ↦
          opened_run fuel stem s sc
            (n2p_writer_open ext (some (str_append stem "_packets.parquet")))
    ]

-- A path's extension, and the path without it, by std::filesystem.
pub record Paths : Type 0 where
  pub extension : String → String
  pub without_extension : String → String

-- `out.parquet` and `out` name the same stem.
unfoldable pub stem_of : Paths → String → String
stem_of ps out =
    if str_eq (ps.extension out) ".parquet" || str_eq (ps.extension out) ".lance"
    then ps.without_extension out
    else out

module _ (stoull : String → Option ℕ) (ps : Paths) where
  abbrev main_parsed : (Args → String → String → Option ℕ) → Parsed → Option ℕ
  main_parsed go refused = some 1
  main_parsed go thrown = none
  main_parsed go (parsed a) = elim a.pos [
    | [] ↦ some 2
    | input ∷ others ↦ elim others [ [] ↦ some 2 | out ∷ more ↦ go a input (stem_of ps out) ]
  ]

  -- The exit code, on the arguments behind the program's name and a converter that takes input and stem;
  -- none where an exception or a crash ends the program.
  unfoldable pub main : (Args → String → String → Option ℕ) → List String → Option ℕ
  unfolding stem_of
  main go argv = main_parsed go (parse_args stoull argv default_args)
