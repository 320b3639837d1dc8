-- ===== src/Python/Streams.antt =====
-- What `write_batches` of bindings/python/src/n2p_bindings.cpp makes of a stream.
use nanoarrow2parquet.Common.{
  ℕ, suc, ◌+◌, ◌<◌, ◌≡◌, refl, ap, arith, Bool, true, false, Option, none, some, String, List, [],
  ◌∷◌, ◌++◌, append-nil, append_assoc, length, map,
}
use nanoarrow2parquet.Arrow.{ArrowArray, ArrowSchema, head}
use nanoarrow2parquet.External.{External}
use nanoarrow2parquet.Result.{N2PStatus, invalid_argument, unsupported_type, io_error}
use nanoarrow2parquet.Writer.State.{N2PWriter, Stream}
use nanoarrow2parquet.Writer.Api.{
  n2p_writer_open, n2p_writer_set_codec, n2p_writer_write_batch, n2p_writer_close,
}
use nanoarrow2parquet.Writer.Files.{
  Recorded, CompleteFile, Took, none_written, one_more, codec-Recorded, batch-Recorded,
  close-file_of,
}
use nanoarrow2parquet.Python.Capsule.{
  Py, returned, raised, Interpreter, BatchStream, next, open_stream,
}
use nanoarrow2parquet.Python.Bindings.{
  CallEnd, ended, crashed, no_rounds, Files, at_end, close_all, Started, have, refused, start_codec,
  start_open, writer_for, with_writer, batch_written, write_rounds, write_stream, write_batches,
}

abbrev pub sum_lengths : List ArrowArray → ℕ
sum_lengths [] = 0
sum_lengths (a ∷ rest) = (head a).length + sum_lengths rest

module _ (ext : External) where
  abbrev Result : Type 0
  Result = CallEnd ext

  -- The stream gave these batches, and they were written behind those `before`, which had `groups` row
  -- groups and `rows` rows: the file is complete, and its bytes and records are those of the calls for
  -- all of them; no writer stays open.
  pub record WroteAll (path : String) (codec : ℕ) (sc : Option ArrowSchema)
      (before : List ArrowArray) (bs : List (Option ArrowArray)) (groups rows : ℕ)
      (files : Files ext) : Type 0 where
    pub arrays : List ArrowArray
    pub given : bs ≡ map some arrays
    pub some_group : 0 < groups + length arrays
    pub written :
        (f : CompleteFile ext (groups + length arrays) (rows + sum_lengths arrays) files.file)
        × Took ext path codec sc (before ++ arrays) f.writer
    pub none_open : files.unclosed ≡ none

  -- The writer of the loop, once there is one.
  abbrev Has : String → ℕ → Option ArrowSchema → List ArrowArray → ℕ → ℕ → Option N2PWriter → Type 0
  Has path codec sc before groups rows none = (before ≡ []) × (groups ≡ 0) × (rows ≡ 0)
  Has path codec sc before groups rows (some w) =
      (0 < groups) × Recorded ext path groups rows w × Took ext path codec sc before w

  Writes :
      String
      → ℕ
      → Option ArrowSchema
      → List ArrowArray
      → Result
      → List (Option ArrowArray)
      → ℕ
      → ℕ
      → Type 0
  Writes path codec sc before x bs groups rows =
      (files : Files ext)
      → x ≡ ended (returned tt) files
      → WroteAll path codec sc before bs groups rows files

  at_end-Writes :
      (path : String) (codec : ℕ) (sc : Option ArrowSchema) (before : List ArrowArray)
      (groups rows : ℕ) (w : Option N2PWriter)
      → Has path codec sc before groups rows w
      → Writes path codec sc before (at_end ext w) [] groups rows
  unfolding Writes
  at_end-Writes path codec sc before groups rows none h files ran = absurd (ground arith)
  at_end-Writes path codec sc before groups rows (some w) (started, h, took) files ran =
      status (n2p_writer_close ext (some w)) refl ran
    where
      add_none : (n : ℕ) → n + 0 ≡ n
      add_none n = omega arith

      status :
          (x : N2PStatus × Option Stream)
          → n2p_writer_close ext (some w) ≡ x
          → close_all ext x ≡ ended (returned tt) files
          → WroteAll path codec sc before [] groups rows files
      status (N2PStatus.ok, o) shut ran' =
          let is : record { file = o; unclosed = none } ≡ files = cc ran' in
          let (f, same) = close-file_of ext path groups rows w o h shut in
          let both : (g : CompleteFile ext groups rows o) × Took ext path codec sc before g.writer =
            (f, rw same took) in
          rw (← is) (record {
            arrays = [];
            given = refl;
            some_group = omega (arith, started);
            written = rw (add_none groups, add_none rows, append-nil before) both;
            none_open = refl;
          })
      status (invalid_argument, o) shut ran' = absurd (ground arith)
      status (unsupported_type, o) shut ran' = absurd (ground arith)
      status (io_error, o) shut ran' = absurd (ground arith)

  -- A writer that has taken no batch.
  abbrev Fresh : String → ℕ → Option ArrowSchema → N2PWriter → Type 0
  Fresh path codec sc v = Recorded ext path 0 0 v × Took ext path codec sc [] v

  start_codec-Fresh :
      (path : String) (codec : ℕ) (sc : Option ArrowSchema) (w v : N2PWriter)
      (x : N2PStatus × Option N2PWriter)
      → n2p_writer_open ext (some path) ≡ (N2PStatus.ok, some w)
      → n2p_writer_set_codec (some w) codec ≡ x
      → start_codec ext x ≡ have v
      → Fresh path codec sc v
  start_codec-Fresh path codec sc w v (N2PStatus.ok, some u) opened set started =
      let same : u ≡ v = cc started in
      rw (← same) (
        codec-Recorded ext path codec w u opened set,
        record {
          opened = w;
          begun = u;
          open_call = opened;
          set_call = set;
          batches = none_written;
        },
      )
  start_codec-Fresh path codec sc w v (N2PStatus.ok, none) opened set started =
      absurd (ground arith)
  start_codec-Fresh path codec sc w v (invalid_argument, u) opened set started =
      absurd (ground arith)
  start_codec-Fresh path codec sc w v (unsupported_type, u) opened set started =
      absurd (ground arith)
  start_codec-Fresh path codec sc w v (io_error, u) opened set started = absurd (ground arith)

  start_open-Fresh :
      (path : String) (codec : ℕ) (sc : Option ArrowSchema) (v : N2PWriter)
      (x : N2PStatus × Option N2PWriter)
      → n2p_writer_open ext (some path) ≡ x
      → start_open ext codec x ≡ have v
      → Fresh path codec sc v
  unfolding n2p_writer_set_codec
  start_open-Fresh path codec sc v (N2PStatus.ok, some w) opened started =
      start_codec-Fresh path codec sc w v (n2p_writer_set_codec (some w) codec) opened refl started
  start_open-Fresh path codec sc v (N2PStatus.ok, none) opened started = absurd (ground arith)
  start_open-Fresh path codec sc v (invalid_argument, w) opened started = absurd (ground arith)
  start_open-Fresh path codec sc v (unsupported_type, w) opened started = absurd (ground arith)
  start_open-Fresh path codec sc v (io_error, w) opened started = absurd (ground arith)

  -- The writer that a batch gets.
  writer_for-Recorded :
      (path : String) (codec : ℕ) (sc : Option ArrowSchema) (before : List ArrowArray)
      (groups rows : ℕ) (w : Option N2PWriter) (v : N2PWriter)
      → Has path codec sc before groups rows w
      → writer_for ext path codec w ≡ have v
      → Recorded ext path groups rows v × Took ext path codec sc before v
  writer_for-Recorded path codec sc before groups rows none v (no_batch, no_groups, no_rows)
        started =
      rw (no_batch, no_groups, no_rows)
        (start_open-Fresh path codec sc v (n2p_writer_open ext (some path)) refl started)
  writer_for-Recorded path codec sc before groups rows (some w) v h started =
      let same : w ≡ v = cc started in rw (← same) (h.1, h.2)

  -- What the loop does with a batch that it was given.
  with_writer-Writes :
      (path : String) (codec : ℕ) (before : List ArrowArray) (groups rows : ℕ)
      (w : Option N2PWriter) (sc : Option ArrowSchema) (arr : ArrowArray)
      (bs : List (Option ArrowArray)) (go : N2PWriter → Result)
      → Has path codec sc before groups rows w
      → ((v : N2PWriter)
          → Has path codec sc
              (before ++ (arr ∷ []))
              (groups + 1)
              (rows + (head arr).length)
              (some v)
          → Writes path codec sc
              (before ++ (arr ∷ []))
              (go v)
              bs
              (groups + 1)
              (rows + (head arr).length))
      → Writes path codec sc before
          (with_writer ext go sc arr (writer_for ext path codec w))
          (some arr ∷ bs)
          groups
          rows
  unfolding Writes
  with_writer-Writes path codec before groups rows w sc arr bs go h ih files ran =
      start (writer_for ext path codec w) refl ran
    where
      longer :
          WroteAll path codec sc
            (before ++ (arr ∷ []))
            bs
            (groups + 1)
            (rows + (head arr).length)
            files
          → WroteAll path codec sc before (some arr ∷ bs) groups rows files
      longer x = record {
        arrays = arr ∷ x.arrays;
        given = ap (λ (t : List (Option ArrowArray)). some arr ∷ t) x.given;
        some_group = omega arith;
        written =
            rw
              (
                one_group groups (length x.arrays),
                more rows,
                ← append_assoc before (arr ∷ []) x.arrays,
              )
              (x.written);
        none_open = x.none_open;
      }
        where
          one_group : (g n : ℕ) → g + suc n ≡ g + 1 + n
          one_group g n = omega arith

          more :
              (n : ℕ)
              → n + ((head arr).length + sum_lengths x.arrays)
                ≡ n + (head arr).length + sum_lengths x.arrays
          more n = omega arith

      status :
          (v : N2PWriter) (y : Option (N2PStatus × N2PWriter))
          → Recorded ext path groups rows v × Took ext path codec sc before v
          → n2p_writer_write_batch ext v sc (some arr) ≡ y
          → batch_written ext go y ≡ ended (returned tt) files
          → WroteAll path codec sc before (some arr ∷ bs) groups rows files
      status v none k call ran' = absurd (ground arith)
      status v (some (N2PStatus.ok, u)) (k, took) call ran' =
          let took' : Took ext path codec sc (before ++ (arr ∷ [])) u = record {
            opened = took.opened;
            begun = took.begun;
            open_call = took.open_call;
            set_call = took.set_call;
            batches = one_more arr took.batches call;
          } in
          longer (
            ih u (omega arith, batch-Recorded ext path groups rows v u sc arr k call, took') files
              ran')
      status v (some (invalid_argument, u)) k call ran' = absurd (ground arith)
      status v (some (unsupported_type, u)) k call ran' = absurd (ground arith)
      status v (some (io_error, u)) k call ran' = absurd (ground arith)

      start :
          (x : Started ext)
          → writer_for ext path codec w ≡ x
          → with_writer ext go sc arr x ≡ ended (returned tt) files
          → WroteAll path codec sc before (some arr ∷ bs) groups rows files
      start (have v) is ran' =
          status v (n2p_writer_write_batch ext v sc (some arr))
            (writer_for-Recorded path codec sc before groups rows w v h is) refl ran'
      start (refused e v) is ran' = absurd (ground arith)

  -- The schema that the batches to come are written with.
  abbrev schema_of : Option ArrowSchema → Option ArrowSchema → Bool → Option ArrowSchema
  schema_of sc st true = sc
  schema_of sc st false = st

  write_rounds-Writes :
      (path : String) (codec : ℕ) (before : List ArrowArray) (groups rows : ℕ)
      (bs : List (Option ArrowArray)) (sc : Option ArrowSchema) (st : Option ArrowSchema)
      (loaded : Bool) (w : Option N2PWriter)
      → Has path codec (schema_of sc st loaded) before groups rows w
      → Writes path codec
          (schema_of sc st loaded)
          before
          (write_rounds ext path codec bs sc
            (record {
              stream = record { batches = bs; stream_schema = st };
              schema_loaded = loaded;
            })
            w)
          bs
          groups
          rows
  unfolding Writes write_rounds next
  write_rounds-Writes path codec before groups rows [] sc st loaded w h files ran =
      at_end-Writes path codec (schema_of sc st loaded) before groups rows w h files ran
  write_rounds-Writes path codec before groups rows (none ∷ bs) sc st loaded w h files ran =
      absurd (ground arith)
  write_rounds-Writes path codec before groups rows (some arr ∷ bs) sc st true w h files ran =
      with_writer-Writes path codec before groups rows w sc arr bs _ h
        (λ v k.
          write_rounds-Writes path codec (before ++ (arr ∷ [])) (groups + 1)
            (rows + (head arr).length) bs sc st true (some v) k)
        files ran
  write_rounds-Writes path codec before groups rows (some arr ∷ bs) sc none false w h files ran =
      absurd (ground arith)
  write_rounds-Writes path codec before groups rows (some arr ∷ bs) sc (some s) false w h files
        ran =
      with_writer-Writes path codec before groups rows w (some s) arr bs _ h
        (λ v k.
          write_rounds-Writes path codec (before ++ (arr ∷ [])) (groups + 1)
            (rows + (head arr).length) bs (some s) (some s) true (some v) k)
        files ran

  module _ {O : Type 0} (py : Interpreter O) where
    -- `write_batches`, when it returns, has had a stream from the object, each of whose batches was
    -- given, one at least, and has opened the file, set the codec and written these batches, all of
    -- them, in their order and with the stream's schema, by one call of `n2p_writer_write_batch` each;
    -- it leaves a complete file with the bytes and the records of these calls, as many row groups as
    -- batches and the sum of their rows, and no writer open.
    pub write_batches-WroteAll :
        (table : O) (path : String) (codec : ℕ) (files : Files ext)
        → write_batches ext py table path codec ≡ ended (returned tt) files
        → (s : BatchStream) × (open_stream py table ≡ returned s)
          × WroteAll path codec s.stream_schema [] s.batches 0 0 files
    unfolding write_batches Writes
    write_batches-WroteAll table path codec files ran = split (open_stream py table) refl ran
      where
        split :
            (x : Py BatchStream)
            → open_stream py table ≡ x
            → write_stream ext py path codec x ≡ ended (returned tt) files
            → (s : BatchStream) × (open_stream py table ≡ returned s)
              × WroteAll path codec s.stream_schema [] s.batches 0 0 files
        split (raised e) is ran' = absurd (ground arith)
        split (returned s) is ran' = (
          s,
          is,
          write_rounds-Writes path codec [] 0 0 s.batches none s.stream_schema false none
              (refl, refl, refl) files ran',
        )

  -- The function ends: it returns, raises an exception, or crashes in a call of the C interface.
  abbrev pub Ends : Result → Type 0
  Ends (ended r files) = Unit {0}
  Ends crashed = Unit {0}
  Ends no_rounds = ⊥
