-- ===== src/Lib.antt =====
-- A model of nanoarrow2parquet, which writes Arrow record batches as a Parquet file, with the theorems
-- that make it correct.
--
-- The program takes Arrow data through the C Data Interface. `n2p_writer_open` begins a file,
-- `n2p_writer_write_batch` writes one batch as one row group, `n2p_writer_close` ends the file with a
-- footer. The first batch fixes the schema: the Arrow tree is flattened into schema nodes and leaves.
-- For each leaf of a batch the writer computes levels (per row, or by shredding where the leaf stands
-- under a list or map), builds the page bodies, compresses them, writes the pages, and keeps a chunk
-- record; the footer is made from these records. `soa.hpp` builds Arrow trees from columns held in
-- memory and calls the same writer.
--
-- The files and the code they are about:
--   Common, Common/{Tests, Lists, Int}: shared names, Boolean tests, lists measured by native numbers,
--     and signed readings of machine words.
--   Result: N2PStatus (include/nanoarrow2parquet/nanoarrow2parquet.h) and the messages and exceptions
--     as values; `crash` stands for undefined behaviour.
--   Bytes: append_le (src/writer.cpp), with_length_prefix, append_bytes and dictionary_bit_width
--     (src/rle_bitpack.hpp). Bytes are numbers; every store writes `% 256` out.
--   Bitmap: valid_bit and the writes to present_map (src/writer.cpp).
--   Arrow: ArrowSchema and ArrowArray as trees.
--   Format: ColumnSpec and map_format (src/writer.cpp).
--   Schema: SchemaNode, PathStep, LeafSpec, flatten_node and flatten_schema (src/writer.cpp).
--   Shred: class Shredder (src/writer.cpp).
--   Plain: build_plain_fixed and build_plain_bool (src/writer.cpp).
--   Pages, Pages/ByteArrays, Pages/Values: level streams (src/rle_bitpack.hpp), compress_page
--     (src/compress.hpp), page headers, build_byte_array_pages, fixed_stats and encode_fixed_values
--     (src/writer.cpp).
--   External, External/Headers: what the program calls and does not contain, as the fields of one
--     record that the definitions take as a parameter: the level, index, delta and split encoders,
--     statistics, the Thrift encoders and zstd, and the file's stream. External/Headers has the
--     records that are passed to the Thrift encoders, with the chunk records.
--   Writer/State: N2PWriter, its stream, write_bytes, emit_page, and methods as state passing with
--     early returns and exceptions. Writer/Columns: validate_child, write_leaf_pages. Writer/Batch:
--     write_list_leaf, write_one_batch. Writer/Footer: serialize_footer. Writer/Api: the C interface.
--     All of src/writer.cpp.
--   Soa/{Columns, Nodes, Writer}: include/nanoarrow2parquet/soa.hpp. Fields, which C++ has as types,
--     are data; what C++ does not compile gives none.
--   Result/Rules, Format/Layout, Soa/{Masks, Strings}, Bytes/{RoundTrip, Width}, Bitmap/Laws,
--     Plain/{Widening, Gathering, Booleans}, Pages/{Sizes, Decoding}: proofs.
--   Schema/Tree: a schema as a tree, and a reader of the footer's list. Schema/Shape: proofs.
--   Shred/Nested: nested values, their places in the streams, and record assembly, as a Parquet reader
--     does it. Shred/{Levels, Paths, Assembly, Refinement, Values, Rows, Order, Present}: proofs.
--   Writer/Session: calls of the C interface as steps. Writer/{Rules, Refusals, Extents, Groups,
--     Consistency, Outcome, Close, Codec, FlatLevels, ListValues, SchemaTree,
--     Files, Bodies}: proofs.
--   Pcapng/{Window, Args, Blocks, Convert, Tables, Run}: the converter of examples/pcapng2parquet, which
--     streams a capture through a bounded window and writes a table of packets, one row group for each
--     window, and one table of each kind of protocol data unit: include/streaming_reader.hpp,
--     src/pcapng2parquet_main.cpp and include/parquet_pdu_table_writer.hpp there.
--     Pcapng/{Delivery, Loop, Slices, Packets, Scan, Complete}: proofs.
--   Python/{Capsule, Bindings, Numpy}: the Python bindings, which take Arrow data from objects'
--     capsules, write it by the C interface, and make record batches of NumPy columns:
--     bindings/python/src/{arrow_capsule.hpp, n2p_bindings.cpp, numpy_bridge.hpp}. Python/{Streams,
--     Objects, Dtypes, Columns}: proofs, which use Writer/Files on what a client of the C interface has.
--   Samples, Samples/{Witnesses, Nested, Sessions, Captures, Objects, Batches}: concrete inputs, a
--     run of the writer, and theorems applied to them.
--
-- Every loop is structural recursion on the rows, entries, values, nodes or batches that are left.
-- Four loops run on fuel: `Window::fill`, with a round for each byte of capacity and one more; the
-- converter's loop over windows, with a theorem on how many rounds suffice; bit_width_loop of
-- dictionary_bit_width, with as many rounds as the dictionary has entries; and the digits of a decimal
-- number, with as many as the number. The last two end earlier.
--
-- Not modelled: the Thrift, level, delta and split encoders, the dictionary, the statistics and zstd,
-- which are other libraries, and nanotins, soatins and nanoarrow, which the converter and the bindings
-- call; the Python interpreter and nanobind; the text of messages, which are values; memory and
-- pointers, except null pointers and the reads that the code makes of them; what the converter prints;
-- the demo and the benchmarks.
-- The message of n2p_writer_last_error is the field last_error.
pub mod Common
pub mod Result
pub mod Bytes
pub mod Bitmap
pub mod Arrow
pub mod Format
pub mod Schema
pub mod Shred
pub mod Plain
pub mod External
pub mod Pages
pub mod Writer
pub mod Soa
pub mod Pcapng
pub mod Python
pub mod Samples
