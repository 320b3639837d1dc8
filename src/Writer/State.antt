-- ===== src/Writer/State.antt =====
-- N2PWriter, its stream, and the monad of the methods: a state that survives early returns and
-- exceptions (src/writer.cpp).
use nanoarrow2parquet.Common.{ℕ, ◌+◌, List, ◌++◌, Bool, true, false, String, length, if◌then◌else◌}
use nanoarrow2parquet.Bytes.{Bytes}
use nanoarrow2parquet.External.{External}
use nanoarrow2parquet.External.Headers.{CompressionCodec, RowGroupMeta}
use nanoarrow2parquet.Schema.{SchemaNode, LeafSpec}
use nanoarrow2parquet.Result.{
  N2PStatus, io_error, Reason, Result, ok, err, crash, compression_failed,
}

-- The std::ofstream and the file behind it.
pub record Stream : Type 0 where
  pub is_open : Bool
  pub good : Bool
  pub bytes : Bytes

pub record N2PWriter : Type 0 where
  pub out : Stream
  pub path : String
  pub offset : ℕ
  pub codec : CompressionCodec
  pub encoding : ℕ
  pub schema_locked : Bool
  pub schema_nodes : List SchemaNode
  pub leaves : List LeafSpec
  pub top_children : ℕ
  pub row_groups : List RowGroupMeta
  pub total_rows : ℕ
  pub footer_written : Bool
  pub last_error : Reason

-- How a method ends: with a value, by returning a status, by throwing, or in undefined behaviour.
pub data Ending {ℓ} (A : Type ℓ) : Type ℓ where
  done : A → Ending A
  returned : N2PStatus → Ending A
  thrown : Reason → Ending A
  crashed : Ending A

abbrev pub Action : Type 0 → Type 0
Action A = N2PWriter → Ending A × N2PWriter

-- What follows an action runs only if it is done.
abbrev pub continue : {A B : Type 0} → Ending A × N2PWriter → (A → Action B) → Ending B × N2PWriter
continue (done a, w) f = f a w
continue (returned s, w) f = (returned s, w)
continue (thrown e, w) f = (thrown e, w)
continue (crashed, w) f = (crashed, w)

infixl 5 ◌>>=◌ ◌>>◌
abbrev pub ◌>>=◌ : {A B : Type 0} → Action A → (A → Action B) → Action B
◌>>=◌ m f w = continue (m w) f

abbrev pub ◌>>◌ : {A B : Type 0} → Action A → Action B → Action B
m >> k = m >>= λ _. k

module _ {A : Type 0} where
  abbrev pub pure : A → Action A
  pure a w = (done a, w)

  abbrev pub gets : (N2PWriter → A) → Action A
  gets f w = (done (f w), w)

  -- `w.last_error = e; return s;`
  abbrev pub refuse : N2PStatus → Reason → Action A
  refuse s e w = (returned s, record w { last_error = e })

  -- A call of a function that throws.
  abbrev pub throwing : Result A → Action A
  throwing (ok a) w = (done a, w)
  throwing (err e) w = (thrown e, w)
  throwing crash w = (crashed, w)

  -- A call of a function that reports its failure, which the caller returns with status `s`.
  abbrev pub reporting : N2PStatus → Result A → Action A
  reporting s (ok a) w = (done a, w)
  reporting s (err e) w = (returned s, record w { last_error = e })
  reporting s crash w = (crashed, w)

-- The `catch` around the columns of a batch.
abbrev pub caught {ℓ} : {A : Type ℓ} → Ending A × N2PWriter → Ending A × N2PWriter
caught (done a, w) = (done a, w)
caught (returned s, w) = (returned s, w)
caught (thrown e, w) = (returned io_error, record w { last_error = compression_failed e })
caught (crashed, w) = (crashed, w)

abbrev pub catching : {A : Type 0} → Action A → Action A
catching m w = caught (m w)

abbrev pub refuse_if : Bool → N2PStatus → Reason → Action (Unit {0})
refuse_if true s e w = (returned s, record w { last_error = e })
refuse_if false s e w = (done tt, w)

module _ (ext : External) where
  -- A write to a stream that has failed does nothing.
  unfoldable pub stream_write : Stream → Bytes → Stream
  stream_write f more =
      if f.good
      then (if ext.accepts f.bytes more
          then record f { bytes = f.bytes ++ more }
          else record f { good = false; bytes = ext.after_failure f.bytes more })
      else f

  unfoldable pub write_bytes : Bytes → Action (Unit {0})
  unfolding stream_write
  write_bytes more w =
      (done tt, record w { out = stream_write w.out more; offset = w.offset + length more })

  -- The two sums of PageBytes: on disk, and uncompressed.
  unfoldable pub emit_page : Bytes → Bytes → ℕ → Action (ℕ × ℕ)
  unfolding write_bytes
  emit_page header compressed_body uncompressed_body = do
    write_bytes header
    write_bytes compressed_body
    pure (length header + length compressed_body, length header + uncompressed_body)
