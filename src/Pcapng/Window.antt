-- ===== src/Pcapng/Window.antt =====
-- The sliding window over a source (class Window of
-- examples/pcapng2parquet/include/streaming_reader.hpp). `bytes` are the first `valid_` bytes of `buf_`
-- and `capacity` is its size; what lies behind them is never read.
use nanoarrow2parquet.Common.{
  ℕ, zero, suc, ◌+◌, ◌-◌, ◌*◌, Bool, true, false, not, ◌&&◌, ◌==◌, ltb, ◌++◌, length, drop, [],
  if◌then◌else◌,
}
use nanoarrow2parquet.Bytes.{Bytes}

pub record Window (S : Type 0) : Type 0 where
  pub source : S
  pub capacity : ℕ
  pub bytes : Bytes
  pub base : ℕ
  pub eof : Bool

-- The constructor.
abbrev pub new_window : {S : Type 0} → S → ℕ → Window S
new_window s capacity = record {
  source = s;
  capacity = if capacity == 0 then 1 else capacity;
  bytes = [];
  base = 0;
  eof = false;
}

abbrev pub full : {S : Type 0} → Window S → Bool
full w = length w.bytes == w.capacity

-- `read s n` is what FileSource::read has put in the buffer, at most `n` bytes, and the stream behind.
module _ {S : Type 0} (read : S → ℕ → Bytes × S) where
  -- One round of `fill`.
  unfoldable pub top_up : Window S → Window S
  top_up w =
      let (got, s) = read w.source (w.capacity - length w.bytes) in
      record w { source = s; bytes = w.bytes ++ got; eof = if length got == 0 then true else w.eof }

  -- The loop of `fill`.
  unfoldable pub fill_rounds : ℕ → Window S → Window S
  unfolding top_up
  fill_rounds zero w = w
  fill_rounds (suc fuel) w =
      let rest = fill_rounds fuel (top_up w) in
      if ltb (length w.bytes) w.capacity && not w.eof then rest else w

  -- Each round but the last adds a byte.
  unfoldable pub fill : Window S → Window S
  unfolding fill_rounds
  fill w = fill_rounds (w.capacity + 1) w

-- `n > valid_` is the case in which nothing is kept.
unfoldable pub consume : {S : Type 0} → ℕ → Window S → Window S
consume n w =
    let n' = if ltb (length w.bytes) n then length w.bytes else n in
    record w { bytes = drop n' w.bytes; base = w.base + n' }

unfoldable pub grow : {S : Type 0} → Window S → Window S
grow w = record w { capacity = w.capacity * 2 }
