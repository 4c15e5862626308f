-- ===== src/Serializer.antt =====
-- include/kvrpc/serializer.h. A scalar is its representation, a number of so many bytes, which
-- `memcpy` puts into memory in the order of the machine: whether the low byte comes first is an argument.
pub mod Scalars
pub mod RoundTrip
use kvrpc.Base.{
  ℕ, zero, suc, ◌+◌, ◌-◌, ◌*◌, ◌/◌, ◌%◌, ◌^◌, ◌-size◌, Bool, true, false, ◌||◌, List, [], ◌∷◌, ◌++◌,
  Bytes, length, get_or, take, drop, ltb, ◌==◌, if◌then◌else◌, Outcome, ok, throws, Exception,
  throw_if, ◌>>=◌, ◌>>◌,
}

pub record Serializer : Type 0 where
  pub max_bytes : ℕ
  pub buffer : Bytes
  pub offset : ℕ

abbrev pub default_max_bytes : ℕ
default_max_bytes = 64 * 1024 * 1024

abbrev pub new_serializer : ℕ → Serializer
new_serializer max_bytes = record { max_bytes = max_bytes; buffer = []; offset = 0 }

-- On the bytes of a buffer.
abbrev pub of_buffer : Bytes → Serializer
of_buffer buffer = record { max_bytes = default_max_bytes; buffer = buffer; offset = 0 }

abbrev pub reset : Serializer → Serializer
reset s = record s { buffer = []; offset = 0 }

abbrev pub remaining : Serializer → ℕ
remaining s = length s.buffer -size s.offset

-- `Require`
unfoldable pub require : ℕ → Serializer → Outcome (Unit {0})
require bytes s = throw_if (ltb (remaining s) bytes) Exception.out_of_range

-- `ReserveFor`
unfoldable pub reserve_for : ℕ → Serializer → Outcome (Unit {0})
reserve_for bytes s =
    throw_if (ltb s.max_bytes (length s.buffer) || ltb (s.max_bytes -size length s.buffer) bytes)
      Exception.length_error

-- `f i`, `f (i + 1)` and so on.
unfoldable pub table : (ℕ → ℕ) → ℕ → ℕ → Bytes
table f i zero = []
table f i (suc count) = f i ∷ table f (i + 1) count

-- `LittleEndian() ? i : sizeof(T) - 1 - i`, which is its own inverse.
abbrev pub place : Bool → ℕ → ℕ → ℕ
place little size i = if little then i else size - 1 - i

-- A number without its low bytes.
unfoldable pub shift : ℕ → ℕ → ℕ
shift zero n = n
shift (suc i) n = shift i n / 256

-- The memory of a number, and the number of a memory.
unfoldable pub to_memory : Bool → ℕ → ℕ → Bytes
to_memory little size n = table (λ i. shift (place little size i) n % 256) 0 size

unfoldable pub sum_from : (ℕ → ℕ) → ℕ → ℕ → ℕ
sum_from f i zero = 0
sum_from f i (suc count) = f i + 256 * sum_from f (i + 1) count

unfoldable pub from_memory : Bool → ℕ → Bytes → ℕ
from_memory little size bytes = sum_from (λ i. get_or bytes (place little size i) 0) 0 size

-- The values that are serialized, and their types.
pub data Datum : Type 0 where
  boolean : Bool → Datum
  scalar : ℕ → ℕ → Datum
  string : Bytes → Datum

pub data Format : Type 0 where
  boolean_format string_format : Format
  scalar_format : ℕ → Format

abbrev pub push : Bytes → Serializer → Serializer
push bytes s = record s { buffer = s.buffer ++ bytes }

-- The test before a value is written, of `size` bytes.
abbrev pub written : ℕ → Bytes → Serializer → Outcome Serializer
written size bytes s = reserve_for size s >> ok (push bytes s)

module _ (little : Bool) where
  unfoldable pub serialize_scalar : ℕ → ℕ → Serializer → Outcome Serializer
  serialize_scalar size n s =
      let bytes = to_memory little size n in
      written size (table (λ i. get_or bytes (place little size i) 0) 0 size) s

  unfoldable pub serialize_string : Bytes → Serializer → Outcome Serializer
  serialize_string value s = do
    throw_if (ltb (2 ^ 32 - 1) (length value)) Exception.length_error
    reserve_for (4 + length value) s
    s' ← serialize_scalar 4 (length value % 2 ^ 32) s
    ok (push value s')

  unfoldable pub serialize : Datum → Serializer → Outcome Serializer
  serialize (boolean b) s = written 1 ((if b then 1 else 0) ∷ []) s
  serialize (scalar size n) s = serialize_scalar size n s
  serialize (string value) s = serialize_string value s

  unfoldable pub serialize_all : List Datum → Serializer → Outcome Serializer
  serialize_all [] s = ok s
  serialize_all (d ∷ ds) s = serialize d s >>= serialize_all ds

  abbrev pub byte_here : ℕ → Serializer → ℕ
  byte_here i s = get_or s.buffer (s.offset + i) 0

  abbrev pub advance : ℕ → Serializer → Serializer
  advance n s = record s { offset = s.offset + n }

  unfoldable pub deserialize_scalar : ℕ → Serializer → Outcome (ℕ × Serializer)
  deserialize_scalar size s =
      let bytes = table (λ i. byte_here (place little size i) s) 0 size in
      (require size s >> ok (from_memory little size bytes, advance size s))

  unfoldable pub deserialize_boolean : Serializer → Outcome (Bool × Serializer)
  deserialize_boolean s = do
    require 1 s
    throw_if (ltb 1 (byte_here 0 s)) Exception.bad_argument
    ok (byte_here 0 s == 1, advance 1 s)

  unfoldable pub deserialize_string : Serializer → Outcome (Bytes × Serializer)
  deserialize_string s = do
    (size, s') ← deserialize_scalar 4 s
    require size s'
    ok (take size (drop s'.offset s'.buffer), advance size s')

  unfoldable pub deserialize : Format → Serializer → Outcome (Datum × Serializer)
  deserialize boolean_format s = deserialize_boolean s >>= λ x. ok (boolean x.0, x.1)
  deserialize (scalar_format size) s = deserialize_scalar size s >>= λ x. ok (scalar size x.0, x.1)
  deserialize string_format s = deserialize_string s >>= λ x. ok (string x.0, x.1)

  unfoldable pub deserialize_all : List Format → Serializer → Outcome (List Datum × Serializer)
  deserialize_all [] s = ok ([], s)
  deserialize_all (f ∷ fs) s = do
    (d, s') ← deserialize f s
    (ds, s'') ← deserialize_all fs s'
    ok (d ∷ ds, s'')
