-- ===== src/Aof/Replay/Records.antt =====
-- The records of the log as the replay reads them, whole and cut short.
use kvrpc.Base.{
  ℕ, zero, suc, ◌+◌, ◌-◌, ◌^◌, ◌≤◌, ◌<◌, ◌≡◌, refl, sym, ap, ◌∙◌, Bool, true, false, ◌||◌, List, [],
  ◌∷◌, ◌++◌, Bytes, length, take, take-append, drop-append, length-append, length-take, append-nil,
  subst, ltb, le→ltb, lt→ltb, ◌==◌, dec_lt, arith, ok, throws, Exception,
}
use kvrpc.Base.Words.{be32, read32, join4_bytes}
use kvrpc.Kv.{
  max_key_size, max_wire_value_size, Command, header_size, max_frame_size, code_of, command_of,
  header_of, decode_header, body_key, body_value,
}
use kvrpc.Kv.Frame.{frame, length-frame, decode_header-frame, validate-header_of, body-frame}
use kvrpc.Aof.Crc.{crc32, crc32-lt}
use kvrpc.Aof.Disk.{SysResult, read_loop, IsBenign}
use kvrpc.Aof.Encode.{Mutation, IsLoggable, is_loggable, is_del, record_magic, wrap}
use kvrpc.Aof.Replay.{is_record, read_record, read_payload, bad_operation, parse_payload}
use kvrpc.Aof.Replay.Reading.{read_loop-IsBenign}

-- The first twelve bytes of a record.
unfoldable pub head_of : Bytes → Bytes
head_of payload = record_magic ++ (be32 (length payload) ++ be32 (crc32 payload))

pub wrap-head_of :
    (payload rest : Bytes) → wrap payload ++ rest ≡ head_of payload ++ (payload ++ rest)
unfolding wrap head_of be32
wrap-head_of payload rest = refl

pub length-wrap :
    (payload rest : Bytes) → length (wrap payload ++ rest) ≡ 12 + length payload + length rest
unfolding wrap be32
length-wrap payload rest = omega (arith, length-append payload rest)

pub length-head_of : (payload : Bytes) → length (head_of payload) ≡ 12
unfolding head_of be32
length-head_of payload = refl

pub is_record-head_of : (payload : Bytes) → is_record (head_of payload) ≡ true
unfolding is_record head_of be32
is_record-head_of payload = refl

pub read32-length :
    (payload : Bytes) → length payload < 2 ^ 32 → read32 (head_of payload) 4 ≡ length payload
unfolding read32 head_of be32
read32-length payload h = join4_bytes (length payload) h

read32-crc : (payload : Bytes) → read32 (head_of payload) 8 ≡ crc32 payload
unfolding read32 head_of be32
read32-crc payload = join4_bytes (crc32 payload) (crc32-lt payload)

-- What a reader that is given `front ++ back` takes when it asks for the length of `front`.
pub read_loop-append :
    (os : List SysResult) (n : ℕ) (front back : Bytes)
    → IsBenign os
    → n ≡ length front
    → (os' : List SysResult) × (read_loop os n (front ++ back) ≡ ok (front, back, os'))
      × IsBenign os'
read_loop-append os n front back b e =
    let (os', r, b') =
      read_loop-IsBenign os n (front ++ back) b (omega (arith, length-append front back)) in
    (os', r ∙ rw (take-append n front back e, drop-append n front back e), b')

==-self : (n : ℕ) → (n == n) ≡ true
==-self n = ground arith

-- A checksummed record, its head behind the reader.
read_record-head_of :
    (payload rest : Bytes) (os : List SysResult)
    → header_size ≤ length payload
    → length payload ≤ max_frame_size
    → IsBenign os
    → (os' : List SysResult) × (read_record
          (head_of payload)
          (record { remaining = length payload + length rest; rest = payload ++ rest; os = os })
        ≡ ok (payload, record { remaining = length rest; rest = rest; os = os' }))
      × IsBenign os'
unfolding read_record
read_record-head_of payload rest os low high b =
    let (os', r, b') = read_loop-append os (length payload) payload rest b refl in
    let left : length payload + length rest - length payload ≡ length rest = omega arith in
    (
      os',
      rw (
        read32-length payload (omega arith),
        read32-crc payload,
        le→ltb (length payload) header_size low,
        le→ltb max_frame_size (length payload) high,
        le→ltb (length payload + length rest) (length payload) (omega arith),
        r,
        ==-self (crc32 payload),
        left,
      ),
      b',
    )

pub read_payload-head_of :
    (payload rest : Bytes) (os : List SysResult)
    → header_size ≤ length payload
    → length payload ≤ max_frame_size
    → IsBenign os
    → (os' : List SysResult) × (read_payload (record {
      remaining = 12 + length payload + length rest;
      rest = wrap payload ++ rest;
      os = os;
    })
        ≡ ok (payload, record { remaining = length rest; rest = rest; os = os' }))
      × IsBenign os'
unfolding read_payload
read_payload-head_of payload rest os low high b =
    let (os₁, r, b₁) =
      read_loop-append os header_size (head_of payload) (payload ++ rest) b
        (sym (length-head_of payload)) in
    let (os₂, e, b₂) = read_record-head_of payload rest os₁ low high b₁ in
    let left : 12 + length payload + length rest - header_size ≡ length payload + length rest =
      omega arith in
    (
      os₂,
      rw
          (
            wrap-head_of payload rest,
            le→ltb (12 + length payload + length rest) header_size (omega arith),
            r,
            is_record-head_of payload,
            left,
          )
          e,
      b₂,
    )

command_of-code_of : (c : Command) → command_of (code_of c) ≡ c
command_of-code_of Command.set = refl
command_of-code_of Command.unknown = refl
command_of-code_of _ = refl

bad_operation-header_of :
    (c : Command) (key value : Bytes)
    → is_loggable c ≡ true
    → (is_del c ≡ true → value ≡ [])
    → length key ≤ max_key_size
    → length value ≤ max_wire_value_size
    → bad_operation (header_of c key value) (frame c key value) ≡ false
bad_operation-header_of Command.set key value g d k v =
    ground (arith, length-frame Command.set key value)
bad_operation-header_of Command.set_ttl key value g d k v =
    ground (arith, length-frame Command.set_ttl key value)
bad_operation-header_of Command.del key value g d k v =
    let none = ap length (d refl) in ground (arith, length-frame Command.del key value, none)
bad_operation-header_of _ key value g d k v = cc

-- The parser gives back the mutation that was encoded.
pub parse_payload-frame :
    (m : Mutation) → IsLoggable m → parse_payload (frame m.command m.key m.value) ≡ ok m
unfolding parse_payload
parse_payload-frame m l =
    let f = l.fits in
    let none = append-nil (frame m.command m.key m.value) in
    let h : decode_header (frame m.command m.key m.value) ≡ header_of m.command m.key m.value =
      subst (λ z. decode_header z ≡ header_of m.command m.key m.value) none
        (decode_header-frame m.command m.key m.value [] f) in
    let body : (body_key (header_of m.command m.key m.value) (frame m.command m.key m.value)
          ≡ m.key)
        × (body_value (header_of m.command m.key m.value) (frame m.command m.key m.value)
            ≡ m.value) =
      subst
        (λ z.
          (body_key (header_of m.command m.key m.value) z ≡ m.key)
          × (body_value (header_of m.command m.key m.value) z ≡ m.value))
        none (body-frame m.command m.key m.value [] f) in
    rw (
      h,
      validate-header_of m.command m.key m.value f,
      bad_operation-header_of m.command m.key m.value l.command l.no_value f.key_fits f.value_fits,
      command_of-code_of m.command,
      body.0,
      body.1,
    )

take-append_long :
    (n : ℕ) (xs ys : Bytes) → length xs ≤ n → take n (xs ++ ys) ≡ xs ++ take (n - length xs) ys
unfolding take
take-append_long n [] ys h = ap (λ k. take k ys) (omega arith)
take-append_long zero (x ∷ xs) ys h = absurd (omega arith)
take-append_long (suc n) (x ∷ xs) ys h =
    ap (◌∷◌ x) (take-append_long n xs ys (omega arith) ∙ ap (λ k. xs ++ take k ys) (omega arith))

torn_head :
    (payload : Bytes) (k : ℕ)
    → 12 ≤ k
    → take k (wrap payload) ≡ head_of payload ++ take (k - 12) payload
torn_head payload k h =
    let whole : wrap payload ≡ head_of payload ++ payload =
      sym (append-nil (wrap payload))
      ∙ wrap-head_of payload []
      ∙ ap (λ z. head_of payload ++ z) (append-nil payload) in
    let n = length-head_of payload in
    rw whole (
      take-append_long k (head_of payload) payload (omega (arith, n))
      ∙ ap (λ z. head_of payload ++ take (k - z) payload) n)

or_true : (a b : Bool) → (a || b || true) ≡ true
or_true true b = refl
or_true false true = refl
or_true false false = refl

read_record-short :
    (payload part : Bytes) (os : List SysResult)
    → length payload < 2 ^ 32
    → length part < length payload
    → read_record
        (head_of payload)
        (record { remaining = 12 + length part - header_size; rest = part; os = os })
      ≡ throws Exception.runtime_error
unfolding read_record
read_record-short payload part os small short =
    let left : 12 + length part - header_size ≡ length part = omega arith in
    rw (
      left,
      read32-length payload small,
      lt→ltb (length part) (length payload) short,
      or_true (ltb (length payload) header_size) (ltb max_frame_size (length payload)),
    )

-- A record that a crash cut short: its head, or its payload, is not all there.
pub read_payload-torn :
    (payload : Bytes) (k : ℕ) (os : List SysResult)
    → length payload < 2 ^ 32
    → k < 12 + length payload
    → IsBenign os
    → let bytes = take k (wrap payload) in
      read_payload (record { remaining = length bytes; rest = bytes; os = os })
      ≡ throws Exception.runtime_error
unfolding read_payload
read_payload-torn payload k os small short b = elim (dec_lt k 12) [
  | yes p ↦ rw (
      lt→ltb (length (take k (wrap payload))) header_size
        (omega (arith, length-take k (wrap payload))))
  | no p ↦
      let part = take (k - 12) payload in
      let cut : take k (wrap payload) ≡ head_of payload ++ part =
        torn_head payload k (omega arith) in
      let (os', r, b') =
        read_loop-append os header_size (head_of payload) part b (sym (length-head_of payload)) in
      let n : length (head_of payload ++ part) ≡ 12 + length part =
        omega (arith, length-append (head_of payload) part, length-head_of payload) in
      rw (cut, n, le→ltb (12 + length part) header_size (omega arith), r, is_record-head_of payload)
        (read_record-short payload part os' small (omega (arith, length-take (k - 12) payload)))
]
