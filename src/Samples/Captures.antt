-- ===== src/Samples/Captures.antt =====
-- The theorems on the converter at a capture of five bytes, each a packet, in windows of two.
use nanoarrow2parquet.Common.{
  ℕ, zero, suc, ◌+◌, ◌<◌, ◌≤◌, ◌≡◌, refl, ap, arith, true, List, [], ◌∷◌, ◌++◌, length, take, drop,
  Option, none, some,
}
use nanoarrow2parquet.Common.Int.{pos}
use nanoarrow2parquet.Bytes.{Bytes}
use nanoarrow2parquet.Arrow.{ArrowArray, array, nil, cons, schema, and_schema, no_schemas}
use nanoarrow2parquet.Samples.{plain_external, run, opened}
use nanoarrow2parquet.Pcapng.Args.{Args, default_args}
use nanoarrow2parquet.Pcapng.Window.{Window, new_window, fill, consume, grow}
use nanoarrow2parquet.Pcapng.Delivery.{
  Reads, IsWindow, Stopped, here, filled, consumed, grown, steps-Shows, fill-Stopped,
  new_window-IsWindow,
}
use nanoarrow2parquet.Pcapng.Blocks.{epb, BlockRef, PacketRow, Capture}
use nanoarrow2parquet.Pcapng.Convert
use nanoarrow2parquet.Pcapng.Tables.{TableSource}
use nanoarrow2parquet.Pcapng.Run
use nanoarrow2parquet.Pcapng.Run.{Exit, Ended, new_converter, run_windows}
use nanoarrow2parquet.Pcapng.Loop.{Finished, run_windows-Finished}

-- A source that has all its bytes at hand.
read_list : Bytes → ℕ → Bytes × Bytes
read_list s n = (take n s, drop n s)

take_drop : (n : ℕ) (s : Bytes) → take n s ++ drop n s ≡ s
take_drop zero s = refl
take_drop (suc n) [] = refl
take_drop (suc n) (b ∷ s) = ap (λ (t : Bytes). b ∷ t) (take_drop n s)

length-take_le : (n : ℕ) (s : Bytes) → length (take n s) ≤ n
length-take_le zero s = omega arith
length-take_le (suc n) [] = omega arith
length-take_le (suc n) (b ∷ s) = omega (arith, length-take_le n s)

nothing_left : (s : Bytes) (n : ℕ) → 0 < n → length (take n s) ≡ 0 → s ≡ []
nothing_left [] n some_asked e = refl
nothing_left (b ∷ s) zero some_asked e = absurd (omega arith)
nothing_left (b ∷ s) (suc n) some_asked e = absurd (omega arith)

abbrev all_bytes : Bytes → Bytes
all_bytes s = s

read_list-Reads : Reads read_list all_bytes
unfolding read_list
read_list-Reads = record {
  front = λ s n. take_drop n s;
  at_most = λ s n. length-take_le n s;
  some_left = nothing_left;
}

abbrev capture_bytes : Bytes
capture_bytes = 1 ∷ 2 ∷ 3 ∷ 4 ∷ 5 ∷ []

two_bytes : Window Bytes
unfolding read_list
two_bytes = consume 1 (fill read_list (new_window capture_bytes 2))

-- The window after a fill, a byte consumed, a growth and a fill.
four_bytes : Window Bytes
unfolding two_bytes
four_bytes = fill read_list (grow two_bytes)

steps-Shows_example :
    (four_bytes.bytes ≡ take (length four_bytes.bytes) (drop four_bytes.base capture_bytes))
    × (length four_bytes.bytes ≤ four_bytes.capacity)
    × (four_bytes.eof ≡ true → four_bytes.base + length four_bytes.bytes ≡ 5)
unfolding four_bytes
steps-Shows_example =
    steps-Shows read_list all_bytes read_list-Reads capture_bytes 2 four_bytes
      (filled (consumed 1 (grown (filled here))))

fill-Stopped_example :
    let w = new_window capture_bytes 2 in
    Stopped read_list all_bytes read_list-Reads (fill read_list w)
    × (length w.bytes ≤ length (fill read_list w).bytes)
    × ((fill read_list w).base ≡ w.base)
    × ((fill read_list w).capacity ≡ w.capacity)
    × IsWindow read_list all_bytes read_list-Reads capture_bytes (fill read_list w)
fill-Stopped_example =
    fill-Stopped read_list all_bytes read_list-Reads capture_bytes (new_window capture_bytes 2)
      (new_window-IsWindow read_list all_bytes read_list-Reads capture_bytes 2)

each_byte : Bytes → List (BlockRef (Unit {0}))
each_byte [] = []
each_byte (b ∷ bs) = record { kind = epb; type_or_link = 0; body = tt } ∷ each_byte bs

zeros : List PacketRow → Bytes
zeros [] = []
zeros (r ∷ rs) = 0 ∷ 0 ∷ 0 ∷ 0 ∷ zeros rs

-- One required column of 32-bit zeros.
rows_array : List PacketRow → ArrowArray
unfolding zeros
rows_array rows =
    array
      (record {
        length = length rows;
        null_count = pos 0;
        offset = 0;
        n_buffers = 1;
        buffers = some (none ∷ []);
      })
      (cons
        (array
          (record {
            length = length rows;
            null_count = pos 0;
            offset = 0;
            n_buffers = 2;
            buffers = some (none ∷ some (zeros rows) ∷ []);
          })
          nil)
        nil)

small_capture : Capture (Unit {0}) (Unit {0}) (Unit {0}) (Unit {0})
unfolding rows_array each_byte
small_capture = record {
  new_state = tt;
  new_tables = tt;
  scan_window = λ st bytes eof. some (each_byte bytes, length bytes, tt);
  parse_idb = λ bytes r. none;
  parse_epb = λ bytes r. record {
    interface_id = 0;
    ts_raw = 0;
    caplen = 0;
    origlen = 0;
    epb_flags = 0;
    payload_file_offset = 0;
  };
  packet_schema = some (
      schema (record { format = some "+s"; name = none; flags = 0 })
        (and_schema (schema (record { format = some "i"; name = some "x"; flags = 0 }) no_schemas)
          no_schemas));
  to_arrow = λ rows. some (rows_array rows);
  dag_decode_packet = λ pid bytes d. d;
  run_rules = λ pid bytes l. l;
  load_rules = none;
}

small_tables : TableSource (Unit {0}) (Unit {0}) (Unit {0})
small_tables = record {
  u64 = tt;
  set_type_struct = λ n. none;
  nt_set_column_schema = λ k width name. none;
  init_from_schema = λ sc. none;
  buffer_append = λ n. true;
  finish_building = λ a. none;
  node_table = λ suffix d. record { size = 0; packet_id = []; columns = [] };
  lldp_size = λ l. 0;
  lldp_schema = none;
  lldp_to_arrow = λ l. none;
}

-- Windows of two bytes; the packets 1 and 2.
abbrev two_packets : Args
two_packets = record default_args { window_bytes = 2; drop = 1; take = 2 }

exit_or : Option Exit → Exit
exit_or none = record { code = 1; packets = none; tables = [] }
exit_or (some e) = e

converted_run : Option Exit
unfolding run read_list small_capture Run.run Convert.process_window Convert.slice_bounds
    Convert.window_rows fill consume
converted_run =
    Run.run read_list small_capture plain_external two_packets small_tables 20 "out"
      (some capture_bytes)

run_windows-Finished_example : Finished (
    run_windows read_list small_capture plain_external two_packets 17
      (new_converter read_list small_capture plain_external two_packets
        (schema (record { format = some "+s"; name = none; flags = 0 }) no_schemas)
        opened
        none)
      (fill read_list (new_window capture_bytes 2)))
run_windows-Finished_example =
    run_windows-Finished read_list all_bytes read_list-Reads small_capture plain_external
      two_packets capture_bytes
      (new_converter read_list small_capture plain_external two_packets
        (schema (record { format = some "+s"; name = none; flags = 0 }) no_schemas) opened none)
      17 (omega arith)
