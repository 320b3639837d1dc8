-- ===== src/Bytes/RoundTrip.antt =====
-- Little-endian words are read back as they were appended.
use nanoarrow2parquet.Common.{
  ℕ, zero, suc, ◌+◌, ◌^◌, ◌%◌, ◌/◌, ◌<◌, ◌≡◌, [], ◌∷◌, ◌++◌, arith, length, length-append, get_or,
  drop, append_assoc, refl, ◌∙◌,
}
use nanoarrow2parquet.Bytes.{Bytes, append_le, with_length_prefix, read_le}
use nanoarrow2parquet.Result.{ok}

-- A read past a prefix is a read in what follows it.
pub get_or-append :
    (front back : Bytes) (k i : ℕ)
    → k ≡ length front + i
    → get_or (front ++ back) k 0 ≡ get_or back i 0
get_or-append [] back k i e = let same : k ≡ i = omega arith in rw same
get_or-append (b ∷ front) back zero i e = absurd (omega arith)
get_or-append (b ∷ front) back (suc k) i e = get_or-append front back k i (omega arith)

pub read_le-append :
    (width : ℕ) (front back : Bytes) (k i : ℕ)
    → k ≡ length front + i
    → read_le width (front ++ back) k ≡ read_le width back i
unfolding read_le
read_le-append zero front back k i e = refl
read_le-append (suc width) front back k i e =
    cc (
      get_or-append front back k i e,
      read_le-append width front back (k + 1) (i + 1) (omega arith),
    )

le_word : (v : ℕ) (rest : Bytes) → v < 2 ^ 32 → read_le 4 (append_le [] v ++ rest) 0 ≡ v
unfolding read_le append_le
le_word v rest h = omega arith

append_le-append : (out : Bytes) (v : ℕ) → append_le out v ≡ out ++ append_le [] v
unfolding append_le
append_le-append out v = refl

pub length-append_le : (out : Bytes) (v : ℕ) → length (append_le out v) ≡ length out + 4
unfolding append_le
length-append_le out v = omega (
  arith,
  length-append out (v % 256 ∷ v / 2 ^ 8 % 256 ∷ v / 2 ^ 16 % 256 ∷ v / 2 ^ 24 % 256 ∷ []),
)

-- A 32-bit value that is appended to any bytes is read back at the place where they ended, whatever
-- is appended behind it.
pub read_le-append_le :
    (out rest : Bytes) (v : ℕ) → v < 2 ^ 32 → read_le 4 (append_le out v ++ rest) (length out) ≡ v
read_le-append_le out rest v h =
    rw (append_le-append out v, append_assoc)
      (read_le-append 4 out (append_le [] v ++ rest) (length out) 0 (omega arith)
        ∙ le_word v rest h)

-- A level stream below 4 GiB is stored behind its own length: the first four bytes hold the number
-- of bytes that follow, and these are the stream.
pub with_length_prefix_lem :
    (run : Bytes)
    → length run < 2 ^ 32
    → (with_length_prefix run ≡ ok (append_le [] (length run) ++ run))
      × (read_le 4 (append_le [] (length run) ++ run) 0 ≡ length run)
      × (drop 4 (append_le [] (length run) ++ run) ≡ run)
unfolding with_length_prefix append_le
with_length_prefix_lem run h = (ground arith, le_word (length run) run h, refl)
