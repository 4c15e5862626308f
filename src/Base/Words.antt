-- ===== src/Base/Words.antt =====
-- Unsigned integers in network byte order, as `htons`, `htonl` and `memcpy` write and read them.
use Prim.Native.Nat.{ℕ, ◌+◌, ◌*◌, ◌/◌, ◌%◌, ◌^◌, ◌<◌}
use mathlib.Core.Path.{◌≡◌, refl}
use mathlib.Core.List.{[], ◌∷◌}
use native.Mathlib.Omega.{arith}
use kvrpc.Base.Lists.{Bytes, IsBytes, get_or, length}

-- The byte at an offset; the callers check the length first.
abbrev pub byte_at : Bytes → ℕ → ℕ
byte_at bs i = get_or bs i 0

unfoldable pub be16 : ℕ → Bytes
be16 n = (n / 256 % 256) ∷ (n % 256) ∷ []

unfoldable pub be32 : ℕ → Bytes
be32 n = (n / 16777216 % 256) ∷ (n / 65536 % 256) ∷ (n / 256 % 256) ∷ (n % 256) ∷ []

abbrev pub join2 : ℕ → ℕ → ℕ
join2 a b = a * 256 + b

abbrev pub join4 : ℕ → ℕ → ℕ → ℕ → ℕ
join4 a b c d = a * 16777216 + b * 65536 + c * 256 + d

unfoldable pub read16 : Bytes → ℕ → ℕ
read16 bs i = join2 (byte_at bs i) (byte_at bs (i + 1))

unfoldable pub read32 : Bytes → ℕ → ℕ
read32 bs i = join4 (byte_at bs i) (byte_at bs (i + 1)) (byte_at bs (i + 2)) (byte_at bs (i + 3))

pub join2_bytes : (n : ℕ) → n < 2 ^ 16 → join2 (n / 256 % 256) (n % 256) ≡ n
join2_bytes n h = omega arith

pub join4_bytes :
    (n : ℕ)
    → n < 2 ^ 32
    → join4 (n / 16777216 % 256) (n / 65536 % 256) (n / 256 % 256) (n % 256) ≡ n
join4_bytes n h = omega arith

pub be32_bytes :
    (a b c d : ℕ) → IsBytes (a ∷ b ∷ c ∷ d ∷ []) → be32 (join4 a b c d) ≡ a ∷ b ∷ c ∷ d ∷ []
unfolding be32
be32_bytes a b c d h = ground arith

pub length-be32 : (n : ℕ) → length (be32 n) ≡ 4
unfolding be32
length-be32 n = refl
