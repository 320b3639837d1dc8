-- ===== src/Writer/Codec.antt =====
-- The codec that the footer names for chunks already written.
use nanoarrow2parquet.Common.{
  ℕ, ◌<◌, ◌≡◌, ◌⊎◌, inl, inr, refl, arith, Bool, true, false, ◌==◌, Option, List, [], ◌∷◌, some,
  All, map, if◌then◌else◌,
}
use nanoarrow2parquet.External.Headers.{
  CompressionCodec, zstd, uncompressed, ColumnChunkMeta, RowGroupMeta, RowGroup,
}
use nanoarrow2parquet.Writer.State.{N2PWriter}
use nanoarrow2parquet.Writer.Footer.{column_chunk, row_group, file_metadata}
use nanoarrow2parquet.Writer.Api.{n2p_writer_set_codec}
use nanoarrow2parquet.Result.{N2PStatus, invalid_argument, unknown_codec}

-- A row group of the footer whose chunks all name one codec.
abbrev pub Names : CompressionCodec → RowGroup → Type 0
Names codec g = All (λ c. c.meta_data.codec ≡ codec) g.columns

column_chunk-Names :
    (codec : CompressionCodec) (cs : List ColumnChunkMeta)
    → All (λ c. c.meta_data.codec ≡ codec) (map (column_chunk codec) cs)
unfolding column_chunk
column_chunk-Names codec [] = tt
column_chunk-Names codec (c ∷ cs) = (refl, column_chunk-Names codec cs)

row_group-Names :
    (codec : CompressionCodec) (gs : List RowGroupMeta)
    → All (Names codec) (map (row_group codec) gs)
unfolding row_group
row_group-Names codec [] = tt
row_group-Names codec (g ∷ gs) = (column_chunk-Names codec g.columns, row_group-Names codec gs)

-- What a status of the setter says of the codec: with N2P_OK the number is one of the two, and the
-- footer names that codec; another status is N2P_INVALID_ARGUMENT, for any other number, and the
-- codec is the one before.
abbrev pub Follows : N2PWriter → N2PWriter → ℕ → N2PStatus → Type 0
Follows w w' codec N2PStatus.ok =
    ((codec ≡ 0) × All (Names zstd) (file_metadata w').row_groups)
    ⊎ ((codec ≡ 1) × All (Names uncompressed) (file_metadata w').row_groups)
Follows w w' codec s = (s ≡ invalid_argument) × (1 < codec) × (w'.codec ≡ w.codec)

-- The setter on each number: 0 makes the footer name zstd, and 1 uncompressed, for every chunk, those
-- already written included; any other number is refused and leaves the codec. In each case the row
-- groups and the bytes that are written stay as they are.
pub set_codec-file_metadata :
    (w w' : N2PWriter) (codec : ℕ) (s : N2PStatus)
    → n2p_writer_set_codec (some w) codec ≡ (s, some w')
    → (w'.row_groups ≡ w.row_groups) × (w'.out.bytes ≡ w.out.bytes) × Follows w w' codec s
unfolding n2p_writer_set_codec file_metadata
set_codec-file_metadata w w' codec s e = go (codec == 0) (codec == 1) refl refl e
  where
    go :
        (b c : Bool)
        → (codec == 0) ≡ b
        → (codec == 1) ≡ c
        → ◌≡◌ {A = N2PStatus × Option N2PWriter}
            (if b
              then (N2PStatus.ok, some (record w { codec = zstd }))
              else if c
              then (N2PStatus.ok, some (record w { codec = uncompressed }))
              else (invalid_argument, some (record w { last_error = unknown_codec })))
            (s, some w')
        → (w'.row_groups ≡ w.row_groups) × (w'.out.bytes ≡ w.out.bytes) × Follows w w' codec s
    go true c e0 e1 e' =
        let same : record w { codec = zstd } ≡ w' = cc e' in
        let status : N2PStatus.ok ≡ s = cc e' in
        rw (← same, ← status) (refl, refl, inl (ground arith, row_group-Names zstd w.row_groups))
    go false true e0 e1 e' =
        let same : record w { codec = uncompressed } ≡ w' = cc e' in
        let status : N2PStatus.ok ≡ s = cc e' in
        rw (← same, ← status)
          (refl, refl, inr (ground arith, row_group-Names uncompressed w.row_groups))
    go false false e0 e1 e' =
        let same : record w { last_error = unknown_codec } ≡ w' = cc e' in
        let status : invalid_argument ≡ s = cc e' in
        rw (← same, ← status) (refl, refl, (refl, ground arith, refl))
