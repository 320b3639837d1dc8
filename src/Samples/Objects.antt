-- ===== src/Samples/Objects.antt =====
-- The theorems on the Python bindings, at an interpreter with a batch and a stream of two batches.
use nanoarrow2parquet.Common.{
  ◌<◌, ◌≡◌, refl, Bool, true, false, Option, none, some, String, str_eq, List, [], ◌∷◌,
}
use nanoarrow2parquet.Writer.State.{N2PWriter}
use nanoarrow2parquet.Writer.Batch
use nanoarrow2parquet.Writer.Api
use nanoarrow2parquet.Writer.Files.{CompleteFile}
use nanoarrow2parquet.Python.Capsule
use nanoarrow2parquet.Python.Capsule.{
  returned, raised, writer_closed, Capsule, Interpreter, BatchStream, BatchIterator,
}
use nanoarrow2parquet.Python.Bindings
use nanoarrow2parquet.Python.Bindings.{ParquetWriter, Left, Files, keeps}
use nanoarrow2parquet.Python.Streams.{WroteAll, write_batches-WroteAll}
use nanoarrow2parquet.Python.Objects.{
  Used, created, after, Counts, Used-Counts, close-File, close-Closed,
}
use nanoarrow2parquet.Samples.{plain_external, batch_schema, batch, run, opened, written}

-- A record batch, the pair of capsules that it exports, a table, and its stream's capsule.
data Object : Type 0 where
  record_batch capsule_pair schema_capsule array_capsule table stream_capsule : Object

abbrev no_capsule : Capsule
no_capsule = record {
  is_valid = true;
  name = none;
  schema_pointer = none;
  array_pointer = none;
  stream_pointer = none;
}

abbrev two_batches : BatchStream
two_batches = record { batches = some batch ∷ some batch ∷ []; stream_schema = some batch_schema }

has : Object → String → Bool
has record_batch s = str_eq s "__arrow_c_array__"
has table s = str_eq s "__arrow_c_stream__"
has _ s = false

call : Object → String → Option Object
call record_batch s = some capsule_pair
call table s = some stream_capsule
call _ s = none

capsule_of : Object → Option Capsule
capsule_of schema_capsule =
    some (record no_capsule { name = some "arrow_schema"; schema_pointer = some batch_schema })
capsule_of array_capsule =
    some (record no_capsule { name = some "arrow_array"; array_pointer = some batch })
capsule_of stream_capsule =
    some (record no_capsule { name = some "arrow_array_stream"; stream_pointer = some two_batches })
capsule_of _ = none

items : Object → Option (List Object)
items capsule_pair = some (schema_capsule ∷ array_capsule ∷ [])
items _ = none

abbrev interpreter : Interpreter Object
interpreter = record {
  hasattr = has;
  call_method = call;
  as_sequence = items;
  as_capsule = capsule_of;
  stream_init = λ n. true;
}

-- What a run of the bindings computes with.
run_python : Unit {0}
unfolding run opened written has call capsule_of items Capsule.require_capsule_name
    Capsule.steal_schema_capsule Capsule.steal_array_capsule Capsule.steal_stream_capsule
    Capsule.two_capsules Capsule.import_schema Capsule.import_batch Capsule.open_stream Capsule.next
    Bindings.new_parquet_writer Bindings.write_batch Bindings.close Bindings.write_rounds
    Bindings.write_batches
run_python = tt

written_twice : N2PWriter
unfolding run_python
written_twice = (Batch.write_one_batch plain_external (some batch_schema) (some batch) written).1

table_files : Files plain_external
unfolding run_python written_twice
table_files = record {
  file = (Api.n2p_writer_close plain_external (some written_twice)).1;
  unclosed = none;
}

write_batches-WroteAll_example :
    (s : BatchStream) × (Capsule.open_stream interpreter table ≡ returned s)
    × WroteAll plain_external "f.parquet" 0 s.stream_schema [] s.batches 0 0 table_files
unfolding run_python written_twice table_files
write_batches-WroteAll_example =
    write_batches-WroteAll plain_external interpreter table "f.parquet" 0 table_files refl

-- The object at the start, and after a batch.
abbrev new_object : ParquetWriter
new_object = record { writer = some opened; row_groups = 0; num_rows = 0 }

abbrev used_object : ParquetWriter
used_object = record { writer = some written; row_groups = 1; num_rows = 2 }

used : Used plain_external interpreter "f.parquet" 0 used_object
unfolding run_python
used = after record_batch (returned tt) (created refl) refl (λ e. e)

closed_object : Left
unfolding run_python
closed_object = record {
  object = some (record used_object { writer = none });
  closed = (Api.n2p_writer_close plain_external (some written)).1;
  lost = none;
}

Used-Counts_example : Counts plain_external interpreter "f.parquet" used_object
Used-Counts_example = Used-Counts plain_external interpreter "f.parquet" 0 used_object used

close-File_example :
    (0 < 1)
    × CompleteFile plain_external 1 2 closed_object.closed
    × (closed_object.object ≡ some (record used_object { writer = none }))
unfolding run_python closed_object
close-File_example =
    close-File plain_external interpreter "f.parquet" 0 used_object closed_object used refl

close-Closed_example :
    let gone : ParquetWriter = record used_object { writer = none } in
    ((Bindings.close plain_external used_object).1.object ≡ some gone)
    × (Bindings.close plain_external gone ≡ (returned tt, keeps gone))
    × (Bindings.write_batch plain_external interpreter gone record_batch
        ≡ some (raised writer_closed, keeps gone))
close-Closed_example = close-Closed plain_external interpreter used_object record_batch
