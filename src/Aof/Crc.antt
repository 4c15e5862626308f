-- ===== src/Aof/Crc.antt =====
-- `Crc` of KVCache/src/aof.cpp, on 32-bit words.
use Prim.Native.Nat.{bit_and, bit_xor}
use kvrpc.Base.{ℕ, zero, suc, ◌-◌, ◌/◌, ◌%◌, ◌^◌, ◌<◌, ◌≡◌, refl, [], ◌∷◌, Bytes, arith}

-- One round of the table's loop: `(c >> 1) ^ (0xedb88320u & (0u - (c & 1)))`.
crc_round : ℕ → ℕ
crc_round c = bit_xor (c / 2) (bit_and 0xedb88320 ((2 ^ 32 - c % 2) % 2 ^ 32))

rounds : ℕ → ℕ → ℕ
rounds zero c = c
rounds (suc n) c = rounds n (crc_round c)

-- `table[i]`
table_entry : ℕ → ℕ
unfolding rounds crc_round
table_entry i = rounds 8 i

crc_from : ℕ → Bytes → ℕ
crc_from crc [] = crc
crc_from crc (b ∷ bs) =
    crc_from (bit_xor (table_entry (bit_and (bit_xor crc b) 255)) (crc / 256)) bs

-- `~crc` on a `uint32_t`
pub complement : ℕ → ℕ
complement crc = 2 ^ 32 - 1 - crc

unfoldable pub crc32 : Bytes → ℕ
unfolding crc_from table_entry complement
crc32 bytes = complement (crc_from (2 ^ 32 - 1) bytes)

-- The checksum fits its field.
pub crc32-lt : (bytes : Bytes) → crc32 bytes < 2 ^ 32
unfolding crc32
crc32-lt bytes = omega arith

-- The check value of CRC-32/IEEE: the bytes of "123456789".
crc32_check : crc32 (0x31 ∷ 0x32 ∷ 0x33 ∷ 0x34 ∷ 0x35 ∷ 0x36 ∷ 0x37 ∷ 0x38 ∷ 0x39 ∷ []) ≡ 0xcbf43926
unfolding crc32
crc32_check = refl
