-- ===== src/Kv/Frame.antt =====
-- The frames of kv_protocol.h: what `encode` writes is what the decoder and the sizer read.
use kvrpc.Base.{
  length-drop, length-take, take-append-drop, take_all, ap, ◌∙◌, ℕ, ◌+◌, ◌%◌, ◌^◌, ◌≤◌, ◌<◌, ◌≡◌,
  ◌↔◌, refl, ◌⊎◌, ◌≢◌, ◌∷◌, ◌++◌, Bytes, IsBytes, length, take, drop, take-append, drop-append,
  drop-add, length-append, get_or-append, append_assoc, arith, ok,
}
use kvrpc.Base.Words.{be16, be32, read16, read32}
use kvrpc.Kv.{
  code_of, command_of, Command, Header, magic_number, version_number, header_size, max_key_size,
  max_wire_value_size, max_frame_size, header_of, header_bytes, invalid_header, validate, encode,
  decode_header, body_key, body_value, frame_size,
}

-- What a frame is: its header's bytes, the key and the value.
unfoldable pub frame : Command → Bytes → Bytes → Bytes
frame command key value = header_bytes (header_of command key value) ++ (key ++ value)

-- The parts fit the limits of the protocol, and the command is one of the six.
pub record Fits (command : Command) (key value : Bytes) : Type 0 where
  pub known : command ≢ Command.unknown
  pub key_fits : length key ≤ max_key_size
  pub value_fits : length value ≤ max_wire_value_size

pub encode-frame :
    (command : Command) (key value : Bytes)
    → Fits command key value
    → encode command key value ≡ ok (frame command key value)
unfolding encode validate invalid_header frame
encode-frame Command.unknown key value f = absurd (f.known refl)
encode-frame Command.set key value f = ground arith
encode-frame _ key value f = ground arith

pub encode-Fits :
    (command : Command) (key value : Bytes) {bytes : Bytes}
    → encode command key value ≡ ok bytes
    → Fits command key value
unfolding encode validate invalid_header
encode-Fits Command.unknown key value e = ground arith
encode-Fits Command.set key value e = record {
  known = λ p. cc;
  key_fits = ground arith;
  value_fits = ground arith;
}
encode-Fits _ key value e = record {
  known = λ p. cc;
  key_fits = ground arith;
  value_fits = ground arith;
}

pub length-frame :
    (command : Command) (key value : Bytes)
    → length (frame command key value) ≡ header_size + length key + length value
unfolding frame header_bytes
length-frame command key value = omega (arith, length-append key value)

-- The header of a frame is read back, whatever follows the frame.
pub decode_header-frame :
    (command : Command) (key value rest : Bytes)
    → Fits command key value
    → decode_header (frame command key value ++ rest) ≡ header_of command key value
unfolding decode_header frame header_bytes
decode_header-frame command key value rest f = ground arith

-- A frame's header passes the validation.
pub validate-header_of :
    (command : Command) (key value : Bytes)
    → Fits command key value
    → validate (header_of command key value) ≡ ok tt
unfolding validate invalid_header
validate-header_of Command.unknown key value f = absurd (f.known refl)
validate-header_of Command.set key value f = ground arith
validate-header_of _ key value f = ground arith

-- A validated header names one of the six commands and lengths within the limits.
pub record IsValidHeader (h : Header) : Type 0 where
  pub magic : h.magic ≡ magic_number
  pub version : h.version ≡ version_number
  pub command_low : 1 ≤ h.command
  pub command_high : h.command ≤ 6
  pub key_len : h.key_len ≤ max_key_size
  pub value_len : h.value_len ≤ max_wire_value_size

pub validate-IsValidHeader : (h : Header) → (validate h ≡ ok tt) ↔ IsValidHeader h
unfolding validate invalid_header
validate-IsValidHeader h = (λ e. ground arith, λ v. ground arith)

pub decode_header-append :
    (bytes rest : Bytes)
    → header_size ≤ length bytes
    → decode_header (bytes ++ rest) ≡ decode_header bytes
unfolding decode_header read16 read32
decode_header-append bytes rest h =
    let at = λ (i : ℕ) (p : i < length bytes). get_or-append i bytes rest 0 p in
    cc (
      at 0 (omega arith),
      at 1 (omega arith),
      at 2 (omega arith),
      at 3 (omega arith),
      at 4 (omega arith),
      at 5 (omega arith),
      at 6 (omega arith),
      at 7 (omega arith),
      at 8 (omega arith),
      at 9 (omega arith),
      at 10 (omega arith),
      at 11 (omega arith),
    )

-- The sizer asks for more bytes exactly when there are fewer than a header has.
frame_size-eq-zero_iff : (bytes : Bytes) → (frame_size bytes ≡ ok 0) ↔ (length bytes < header_size)
unfolding frame_size validate
frame_size-eq-zero_iff bytes = (λ e. ground arith, λ h. ground arith)

-- Once a header is there, bytes that follow do not change what the sizer gives.
frame_size-append :
    (bytes rest : Bytes)
    → header_size ≤ length bytes
    → frame_size (bytes ++ rest) ≡ frame_size bytes
unfolding frame_size
frame_size-append bytes rest h =
    rw (decode_header-append bytes rest h) (ground (arith, length-append bytes rest))

-- The size that the sizer gives is 0, or at least a header and at most the largest frame of the
-- protocol.
frame_size-le :
    (bytes : Bytes) {n : ℕ}
    → frame_size bytes ≡ ok n
    → (n ≡ 0) ⊎ ((header_size ≤ n) × (n ≤ max_frame_size))
unfolding frame_size validate
frame_size-le bytes e = ground (arith, validate-IsValidHeader (decode_header bytes))

pub frame_size-frame :
    (command : Command) (key value rest : Bytes)
    → Fits command key value
    → frame_size (frame command key value ++ rest) ≡ ok (length (frame command key value))
unfolding frame_size
frame_size-frame command key value rest f =
    rw (decode_header-frame command key value rest f, validate-header_of command key value f)
      (ground (arith, length-frame command key value, length-append (frame command key value) rest))

pub body-frame :
    (command : Command) (key value rest : Bytes)
    → Fits command key value
    → let h = header_of command key value in
      let bytes = frame command key value ++ rest in
      (body_key h bytes ≡ key) × (body_value h bytes ≡ value)
unfolding body_key body_value frame header_bytes be16 be32 drop
body-frame command key value rest f = (
  rw (append_assoc key value rest) (take-append _ key (value ++ rest) (omega arith)),
  rw
      (
        drop-add 12 (length key % 2 ^ 32),
        append_assoc key value rest,
        drop-append (length key % 2 ^ 32) key (value ++ rest) (omega arith),
      )
      (take-append _ value rest (omega arith)),
)

-- What `encode` returns is one whole frame to the sizer, whatever bytes follow it, and its decoded
-- header, key and value are those that were encoded.
pub decode-encode :
    (command : Command) (key value rest : Bytes) {bytes : Bytes}
    → encode command key value ≡ ok bytes
    → let h = header_of command key value in
      (frame_size (bytes ++ rest) ≡ ok (length bytes))
      × (decode_header (bytes ++ rest) ≡ h)
      × (body_key h (bytes ++ rest) ≡ key)
      × (body_value h (bytes ++ rest) ≡ value)
decode-encode command key value rest e =
    let f = encode-Fits command key value e in
    let same = encode-frame command key value f in
    let body = body-frame command key value rest f in
    ground (
      arith,
      same,
      frame_size-frame command key value rest f,
      decode_header-frame command key value rest f,
      body.0,
      body.1,
    )

header_bytes-decode_header :
    (bytes : Bytes)
    → IsBytes bytes
    → header_size ≤ length bytes
    → header_bytes (decode_header bytes) ≡ take header_size bytes
unfolding header_bytes decode_header be16 be32 read16 read32 take
header_bytes-decode_header (a ∷ b ∷ c ∷ d ∷ e ∷ f ∷ g ∷ h ∷ i ∷ j ∷ k ∷ l ∷ rest) bs n =
    ground arith
header_bytes-decode_header _ bs n = absurd (omega arith)

code_of-command_of : (n : ℕ) → 1 ≤ n → n ≤ 6 → code_of (command_of n) ≡ n
code_of-command_of n lo hi = ground arith

pub frame_size-IsValidHeader :
    (bytes : Bytes) {n : ℕ}
    → frame_size bytes ≡ ok n
    → header_size ≤ length bytes
    → let h = decode_header bytes in IsValidHeader h × (n ≡ header_size + h.key_len + h.value_len)
unfolding frame_size validate
frame_size-IsValidHeader bytes e long = ground (arith, validate-IsValidHeader (decode_header bytes))

-- What the cuts of a whole frame are: as long as the header says, and together the body.
pub body_parts :
    (h : Header) (bytes : Bytes)
    → length bytes ≡ header_size + h.key_len + h.value_len
    → (length (body_key h bytes) ≡ h.key_len)
      × (length (body_value h bytes) ≡ h.value_len)
      × (body_key h bytes ++ body_value h bytes ≡ drop header_size bytes)
unfolding body_key body_value
body_parts h bytes e =
    let body = drop header_size bytes in
    let n = length-drop header_size bytes in
    let m = length-drop h.key_len body in
    rw (drop-add header_size h.key_len bytes) (
      omega (arith, length-take h.key_len body),
      omega (arith, length-take h.value_len (drop h.key_len body)),
      rw (take_all h.value_len (drop h.key_len body) (omega arith))
          (take-append-drop h.key_len body),
    )

command_of-ne-unknown : (n : ℕ) → 1 ≤ n → n ≤ 6 → command_of n ≢ Command.unknown
command_of-ne-unknown n lo hi = ground arith

-- The key and the value of a frame of octets whose length is the size that the sizer gives, encoded
-- under its command, give back the same bytes.
pub encode-decode :
    (bytes : Bytes)
    → IsBytes bytes
    → header_size ≤ length bytes
    → frame_size bytes ≡ ok (length bytes)
    → let h = decode_header bytes in
      encode (command_of h.command) (body_key h bytes) (body_value h bytes) ≡ ok bytes
encode-decode bytes octets long sized =
    let h = decode_header bytes in
    let (v, total) = frame_size-IsValidHeader bytes sized long in
    let (k, l, joined) = body_parts h bytes total in
    let c = command_of h.command in
    let same : header_of c (body_key h bytes) (body_value h bytes) ≡ h =
      ground (arith, code_of-command_of h.command) in
    let whole : frame c (body_key h bytes) (body_value h bytes) ≡ bytes =
      (unfold frame in
        rw (same, joined, header_bytes-decode_header bytes octets long)
          (take-append-drop header_size bytes)) in
    encode-frame c (body_key h bytes) (body_value h bytes) (record {
      known = command_of-ne-unknown h.command v.command_low v.command_high;
      key_fits = omega arith;
      value_fits = omega arith;
    })
    ∙ ap ok whole
