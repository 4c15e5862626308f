-- ===== src/Serializer/RoundTrip.antt =====
-- What is serialized is read back, whatever the order of bytes of the two machines.
use kvrpc.Base.{
  ℕ, suc, ◌+◌, ◌-◌, ◌%◌, ◌^◌, size_sub, ◌≤◌, ◌<◌, ◌≡◌, refl, sym, ap, ◌∙◌, Bool, true, false, List,
  [], ◌∷◌, ◌++◌, Bytes, All, length, get_or, get_or-append, take, drop, take-append, drop-append,
  append_assoc, append-nil, concat, length-append, map, ltb, ◌==◌, if◌then◌else◌, le→ltb, Outcome,
  ok, Exception, throw_if, throw_if-eq-ok, >>=-eq-ok, ◌>>=◌, ◌>>◌, arith,
}
use kvrpc.Serializer.{
  Serializer, require, reserve_for, remaining, table, place, shift, from_memory, Datum, boolean,
  scalar, string, Format, boolean_format, string_format, scalar_format, push, written,
  serialize_scalar, serialize_string, serialize, serialize_all, byte_here, advance,
  deserialize_scalar, deserialize_boolean, deserialize_string, deserialize, deserialize_all,
}
use kvrpc.Serializer.Scalars.{
  words, little_bytes, get_or-table, length-table, written_bytes, read_bytes,
}

-- A value that a machine can have.
abbrev pub IsDatum : Datum → Type 0
IsDatum (boolean b) = Unit
IsDatum (scalar size n) = n < words size
IsDatum (string value) = Unit

abbrev pub format_of : Datum → Format
format_of (boolean b) = boolean_format
format_of (scalar size n) = scalar_format size
format_of (string value) = string_format

-- The bytes of a value.
abbrev pub bytes_of : Datum → Bytes
bytes_of (boolean b) = (if b then 1 else 0) ∷ []
bytes_of (scalar size n) = little_bytes size n
bytes_of (string value) = little_bytes 4 (length value) ++ value

abbrev pub all_bytes : List Datum → Bytes
all_bytes ds = concat (map bytes_of ds)

get_or_past : (xs ys : Bytes) (i : ℕ) → get_or (xs ++ ys) (length xs + i) 0 ≡ get_or ys i 0
get_or_past [] ys i = ap (λ z. get_or ys z 0) (omega arith)
get_or_past (x ∷ xs) ys i =
    let e : suc (length xs) + i ≡ suc (length xs + i) = omega arith in
    ap (λ z. get_or (x ∷ (xs ++ ys)) z 0) e ∙ get_or_past xs ys i

ok_injective : {s s' : Serializer} → ok s ≡ ok s' → s' ≡ s
ok_injective e = cc

written-push :
    (size : ℕ) (bytes : Bytes) (s s' : Serializer)
    → written size bytes s ≡ ok s'
    → s' ≡ push bytes s
written-push size bytes s s' e =
    let (_, _, r) = >>=-eq-ok (reserve_for size s) (λ _. ok (push bytes s)) e in ok_injective r

push-push : (a b : Bytes) (s : Serializer) → push b (push a s) ≡ push (a ++ b) s
push-push a b s = ap (λ (z : Bytes). record s { buffer = z }) (append_assoc s.buffer a b)

-- What is made of the byte of a Boolean.
abbrev bit : ℕ → Serializer → Outcome (Bool × Serializer)
bit n s = do throw_if (ltb 1 n) Exception.bad_argument; ok (n == 1, s)

the_bit : (b : Bool) (s : Serializer) → bit (if b then 1 else 0) s ≡ ok (b, s)
the_bit true s = refl
the_bit false s = refl

module _ (little : Bool) where
  serialize_scalar_bytes :
      (size n : ℕ) (s s' : Serializer)
      → serialize_scalar little size n s ≡ ok s'
      → s' ≡ push (little_bytes size n) s
  unfolding serialize_scalar
  serialize_scalar_bytes size n s s' e =
      written-push size _ s s' e ∙ ap (λ z. push z s) (written_bytes little size n)

  serialize_string_bytes :
      (value : Bytes) (s s' : Serializer)
      → serialize_string little value s ≡ ok s'
      → (length value < 2 ^ 32) × (s' ≡ push (bytes_of (string value)) s)
  unfolding serialize_string
  serialize_string_bytes value s s' e =
      let (short, e₁) =
        throw_if-eq-ok (ltb (2 ^ 32 - 1) (length value)) Exception.length_error
          (λ _. reserve_for (4 + length value) s >>= λ _.
            serialize_scalar little 4 (length value % 2 ^ 32) s >>= λ s₁. ok (push value s₁))
          e in
      let (_, _, e₂) =
        >>=-eq-ok (reserve_for (4 + length value) s)
          (λ _. serialize_scalar little 4 (length value % 2 ^ 32) s >>= λ s₁. ok (push value s₁))
          e₁ in
      let (s₁, first, e₃) =
        >>=-eq-ok (serialize_scalar little 4 (length value % 2 ^ 32) s) (λ s₁. ok (push value s₁))
          e₂ in
      let small : length value < 2 ^ 32 = ground arith in
      let same : length value % 2 ^ 32 ≡ length value = omega arith in
      (
        small,
        ok_injective e₃
            ∙ ap (push value) (
                serialize_scalar_bytes 4 (length value % 2 ^ 32) s s₁ first
                ∙ ap (λ z. push (little_bytes 4 z) s) same)
            ∙ push-push (little_bytes 4 (length value)) value s,
      )

  -- What a value is read from.
  abbrev IsWire : Datum → Type 0
  IsWire (boolean b) = Unit
  IsWire (scalar size n) = Unit
  IsWire (string value) = length value < 2 ^ 32

  serialize_bytes :
      (d : Datum) (s s' : Serializer)
      → serialize little d s ≡ ok s'
      → IsWire d × (s' ≡ push (bytes_of d) s)
  unfolding serialize
  serialize_bytes (boolean b) s s' e = (tt, written-push 1 _ s s' e)
  serialize_bytes (scalar size n) s s' e = (tt, serialize_scalar_bytes size n s s' e)
  serialize_bytes (string value) s s' e = serialize_string_bytes value s s' e

  -- A serializer whose next bytes are these.
  record IsAt (s : Serializer) (bytes : Bytes) : Type 0 where
    front : Bytes
    rest : Bytes
    buffer : s.buffer ≡ front ++ (bytes ++ rest)
    offset : s.offset ≡ length front

  IsAt-advance :
      (s : Serializer) (a b : Bytes) (n : ℕ)
      → n ≡ length a
      → IsAt s (a ++ b)
      → IsAt (advance little n s) b
  IsAt-advance s a b n e v = record {
    front = v.front ++ a;
    rest = v.rest;
    buffer =
        v.buffer
        ∙ ap (λ z. v.front ++ z) (append_assoc a b v.rest)
        ∙ sym (append_assoc v.front a (b ++ v.rest));
    offset = omega (arith, v.offset, e, length-append v.front a);
  }

  require_here :
      (s : Serializer) (bytes : Bytes) (n : ℕ)
      → n ≤ length bytes
      → IsAt s bytes
      → require n s ≡ ok tt
  unfolding require
  require_here s bytes n h v =
      let total = ap length v.buffer in
      let parts = length-append v.front (bytes ++ v.rest) in
      let more = length-append bytes v.rest in
      let left = size_sub (length s.buffer) s.offset (omega (arith, total, parts, v.offset)) in
      ap (λ b. throw_if b Exception.out_of_range)
        (le→ltb (remaining s) n (omega (arith, total, parts, more, left, v.offset)))

  byte_at_here :
      (s : Serializer) (bytes : Bytes) (i : ℕ)
      → i < length bytes
      → IsAt s bytes
      → byte_here little i s ≡ get_or bytes i 0
  byte_at_here s bytes i h v =
      ap (λ z. get_or z (s.offset + i) 0) v.buffer
      ∙ ap (λ z. get_or (v.front ++ (bytes ++ v.rest)) (z + i) 0) v.offset
      ∙ get_or_past v.front (bytes ++ v.rest) i
      ∙ get_or-append i bytes v.rest 0 h

  text_here :
      (s : Serializer) (value behind : Bytes)
      → IsAt s (value ++ behind)
      → take (length value) (drop s.offset s.buffer) ≡ value
  text_here s value behind v =
      ap (λ z. take (length value) (drop s.offset z)) v.buffer
      ∙ ap (take (length value)) (drop-append s.offset v.front _ v.offset)
      ∙ ap (take (length value)) (append_assoc value behind v.rest)
      ∙ take-append (length value) value (behind ++ v.rest) refl

  deserialize_scalar_bytes :
      (size n : ℕ) (behind : Bytes) (s : Serializer)
      → n < words size
      → IsAt s (little_bytes size n ++ behind)
      → (deserialize_scalar little size s ≡ ok (n, advance little size s))
        × IsAt (advance little size s) behind
  unfolding deserialize_scalar
  deserialize_scalar_bytes size n behind s h v =
      let bytes = little_bytes size n in
      let len = length-table (λ i. shift i n % 256) 0 size in
      let total = length-append bytes behind in
      let here : (i : ℕ) → i < size → byte_here little i s ≡ shift i n % 256 = λ i k.
        byte_at_here s (bytes ++ behind) i (omega (arith, total, len)) v
        ∙ get_or-append i bytes behind 0 (omega (arith, len))
        ∙ get_or-table (λ i. shift i n % 256) 0 size i k
        ∙ ap (λ z. shift z n % 256) (omega arith) in
      (
        ap
              (λ z.
                z
                >> ok (
                  from_memory little size
                      (table (λ i. byte_here little (place little size i) s) 0 size),
                  advance little size s,
                ))
              (require_here s (bytes ++ behind) size (omega (arith, total, len)) v)
            ∙ ap (λ z. ok (z, advance little size s))
                (read_bytes little size n (λ i. byte_here little i s) h here),
        IsAt-advance s bytes behind size (sym len) v,
      )

  deserialize_string_bytes :
      (value behind : Bytes) (s : Serializer)
      → length value < 2 ^ 32
      → IsAt s (bytes_of (string value) ++ behind)
      → (s' : Serializer) × (deserialize_string little s ≡ ok (value, s')) × IsAt s' behind
  unfolding deserialize_string
  deserialize_string_bytes value behind s h v =
      let v₁ : IsAt s (little_bytes 4 (length value) ++ (value ++ behind)) = record {
        front = v.front;
        rest = v.rest;
        buffer =
            v.buffer
            ∙ ap (λ z. v.front ++ (z ++ v.rest))
                (append_assoc (little_bytes 4 (length value)) value behind);
        offset = v.offset;
      } in
      let (run, v₂) =
        deserialize_scalar_bytes 4 (length value) (value ++ behind) s (omega (arith, h)) v₁ in
      let s₂ = advance little 4 s in
      let need =
        require_here s₂ (value ++ behind) (length value) (omega (arith, length-append value behind))
          v₂ in
      (
        advance little (length value) s₂,
        rw (run, need)
            (ap (λ z. ok (z, advance little (length value) s₂)) (text_here s₂ value behind v₂)),
        IsAt-advance s₂ value behind (length value) refl v₂,
      )

  deserialize_boolean_bytes :
      (b : Bool) (behind : Bytes) (s : Serializer)
      → IsAt s (bytes_of (boolean b) ++ behind)
      → (deserialize_boolean little s ≡ ok (b, advance little 1 s))
        × IsAt (advance little 1 s) behind
  unfolding deserialize_boolean
  deserialize_boolean_bytes b behind s v =
      let need = require_here s (bytes_of (boolean b) ++ behind) 1 (omega arith) v in
      let here = byte_at_here s (bytes_of (boolean b) ++ behind) 0 (omega arith) v in
      (
        rw (need, here) (the_bit b (advance little 1 s)),
        IsAt-advance s (bytes_of (boolean b)) behind 1 refl v,
      )

  deserialize_bytes :
      (d : Datum) (behind : Bytes) (s : Serializer)
      → IsDatum d
      → IsWire d
      → IsAt s (bytes_of d ++ behind)
      → (s' : Serializer) × (deserialize little (format_of d) s ≡ ok (d, s')) × IsAt s' behind
  unfolding deserialize
  deserialize_bytes (boolean b) behind s h w v =
      let (run, v') = deserialize_boolean_bytes b behind s v in
      (advance little 1 s, rw run refl, v')
  deserialize_bytes (scalar size n) behind s h w v =
      let (run, v') = deserialize_scalar_bytes size n behind s h v in
      (advance little size s, rw run refl, v')
  deserialize_bytes (string value) behind s h w v =
      let (s', run, v') = deserialize_string_bytes value behind s w v in (s', rw run refl, v')

  serialize_all_bytes :
      (ds : List Datum) (s s' : Serializer)
      → serialize_all little ds s ≡ ok s'
      → All IsWire ds × (s' ≡ push (all_bytes ds) s)
  unfolding serialize_all
  serialize_all_bytes [] s s' e =
      (tt, ok_injective e ∙ ap (λ (z : Bytes). record s { buffer = z }) (sym (append-nil s.buffer)))
  serialize_all_bytes (d ∷ ds) s s' e =
      let (s₁, first, others) = >>=-eq-ok (serialize little d s) (serialize_all little ds) e in
      let (w, at) = serialize_bytes d s s₁ first in
      let (ws, at') = serialize_all_bytes ds s₁ s' others in
      ((w, ws), at' ∙ ap (push (all_bytes ds)) at ∙ push-push (bytes_of d) (all_bytes ds) s)

  deserialize_all_bytes :
      (ds : List Datum) (behind : Bytes) (s : Serializer)
      → All IsDatum ds
      → All IsWire ds
      → IsAt s (all_bytes ds ++ behind)
      → (s' : Serializer) × (deserialize_all little (map format_of ds) s ≡ ok (ds, s'))
        × IsAt s' behind
  unfolding deserialize_all
  deserialize_all_bytes [] behind s h w v = (s, refl, v)
  deserialize_all_bytes (d ∷ ds) behind s (h, hs) (w, ws) v =
      let v₁ : IsAt s (bytes_of d ++ (all_bytes ds ++ behind)) = record {
        front = v.front;
        rest = v.rest;
        buffer =
            v.buffer
            ∙ ap (λ z. v.front ++ (z ++ v.rest)) (append_assoc (bytes_of d) (all_bytes ds) behind);
        offset = v.offset;
      } in
      let (s₁, first, v₂) = deserialize_bytes d (all_bytes ds ++ behind) s h w v₁ in
      let (s₂, others, v₃) = deserialize_all_bytes ds behind s₁ hs ws v₂ in
      (s₂, rw (first, others) refl, v₃)

-- If the serialization of values that their types can hold returns, the buffer is the old one and
-- then their bytes, which do not depend on the order of bytes of the machine; and from that
-- position the deserialization of their types, on a machine of either order and whatever bytes
-- follow, returns the same values.
pub deserialize_all-serialize_all :
    (here there : Bool) (ds : List Datum) (s s' : Serializer)
    → All IsDatum ds
    → serialize_all here ds s ≡ ok s'
    → (rest : Bytes)
    → (s'.buffer ≡ s.buffer ++ all_bytes ds)
      × ((done : Serializer) × (deserialize_all there
              (map format_of ds)
              (record s' { buffer = s'.buffer ++ rest; offset = length s.buffer })
            ≡ ok (ds, done)))
deserialize_all-serialize_all here there ds s s' h e rest =
    let (w, at) = serialize_all_bytes here ds s s' e in
    let bytes : s'.buffer ≡ s.buffer ++ all_bytes ds = ap (λ (z : Serializer). z.buffer) at in
    let v : IsAt there (record s' { buffer = s'.buffer ++ rest; offset = length s.buffer })
        (all_bytes ds ++ []) =
      record {
        front = s.buffer;
        rest = rest;
        buffer =
            ap (λ z. z ++ rest) bytes
            ∙ append_assoc s.buffer (all_bytes ds) rest
            ∙ ap (λ z. s.buffer ++ (z ++ rest)) (sym (append-nil (all_bytes ds)));
        offset = refl;
      } in
    let (done, run, _) = deserialize_all_bytes there ds [] _ h w v in (bytes, (done, run))
