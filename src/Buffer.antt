-- ===== src/Buffer.antt =====
-- include/kvrpc/buffer.h: a queue of bytes, appended at the back and consumed at the front. `data()`
-- is the list of the bytes from the read position on.
pub mod Queue
use kvrpc.Base.{
  ℕ, zero, ◌+◌, ◌/◌, ◌-size◌, Bool, not, ◌&&◌, [], ◌++◌, Bytes, length, take, drop, leb, ◌==◌,
  if◌then◌else◌,
}

pub record Buffer : Type 0 where
  pub bytes : Bytes
  pub read : ℕ

abbrev pub buffer_size : Buffer → ℕ
buffer_size b = length b.bytes -size b.read

unfoldable pub buffer_data : Buffer → Bytes
buffer_data b = drop b.read b.bytes

-- The erasure of what has been consumed, once it is half of the vector.
abbrev pub reclaimed : Buffer → Buffer
reclaimed b =
    if not (b.read == 0) && leb (length b.bytes / 2) b.read
    then record { bytes = drop b.read b.bytes; read = 0 }
    else b

unfoldable pub append : Bytes → Buffer → Buffer
append new b = let c = reclaimed b in record { bytes = c.bytes ++ new; read = c.read }

unfoldable pub consume : ℕ → Buffer → Buffer
consume n b =
    if b.read + n == length b.bytes
    then record { bytes = []; read = 0 }
    else record { bytes = b.bytes; read = b.read + n }

unfoldable pub copy : ℕ → Buffer → Bytes
copy n b = take n (buffer_data b)
