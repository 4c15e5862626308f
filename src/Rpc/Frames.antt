-- ===== src/Rpc/Frames.antt =====
-- What `RpcEncode` writes is what `RpcFrameSize`, `RpcId` and `RpcDecode` read.
use kvrpc.Base.{
  ℕ, zero, suc, ◌+◌, ◌*◌, ◌/◌, ◌%◌, ◌^◌, ◌≤◌, ◌<◌, ◌≡◌, ◌≢◌, refl, sym, ap, ◌∙◌, false, [], ◌∷◌,
  ◌++◌, Bytes, length, take, drop, some, drop-append, append-nil, length-append, append_assoc, ltb,
  ◌==◌, if_false, inl, inr, Bool-cases, ok, Exception, ErrorCode, ==_refl, throw_if, ◌>>◌, le→ltb,
  arith,
}
use kvrpc.Base.Words.{be32, read32, join4_bytes}
use kvrpc.Rpc.{
  Envelope, Codec, rpc_header, rpc_magic, rpc_frame_size, read_id, rpc_id, id_bytes, rpc_encode,
  rpc_decode, protocol_error,
}

-- 256 to a power.
abbrev ids : ℕ → ℕ
ids zero = 1
ids (suc k) = 256 * ids k

read_id-id_bytes :
    (k id : ℕ) (behind : Bytes)
    → id < ids k
    → id < 2 ^ 64
    → read_id 0 (id_bytes k id behind) ≡ read_id id behind
unfolding read_id id_bytes
read_id-id_bytes zero id behind h b = let e : 0 ≡ id = omega arith in ap (λ z. read_id z behind) e
read_id-id_bytes (suc k) id behind h b =
    let e : (id / 256 * 256 + id % 256) % 2 ^ 64 ≡ id = omega arith in
    let small : id / 256 < ids k = omega arith in
    read_id-id_bytes k (id / 256) (id % 256 ∷ behind) small (omega arith)
    ∙ ap (λ z. read_id z behind) e

id_bytes-append : (k id : ℕ) (a b : Bytes) → id_bytes k id (a ++ b) ≡ id_bytes k id a ++ b
unfolding id_bytes
id_bytes-append zero id a b = refl
id_bytes-append (suc k) id a b = id_bytes-append k (id / 256) (id % 256 ∷ a) b

length-id_bytes : (k id : ℕ) (a : Bytes) → length (id_bytes k id a) ≡ k + length a
unfolding id_bytes
length-id_bytes zero id a = omega arith
length-id_bytes (suc k) id a = omega (arith, length-id_bytes k (id / 256) (id % 256 ∷ a))

-- The header of a frame with a payload of a size.
abbrev pub header : ℕ → ℕ → Bytes
header id size = rpc_magic ++ (be32 (size % 2 ^ 32) ++ id_bytes 8 id [])

abbrev pub frame : Codec → ℕ → Envelope → Bytes
frame codec id message = header id (length (codec.serialize message)) ++ codec.serialize message

length-header : (id size : ℕ) → length (header id size) ≡ 16
unfolding be32 id_bytes
length-header id size = refl

frame_size_of :
    (id size : ℕ) (rest : Bytes)
    → size < 2 ^ 32
    → rpc_frame_size (header id size ++ rest) ≡ ok (16 + size)
unfolding rpc_frame_size be32 id_bytes read32
frame_size_of id size rest h =
    let m : size % 2 ^ 32 ≡ size = omega arith in
    let n = length-append (header id size) rest in
    if_false (ltb (length (header id size ++ rest)) rpc_header) _ _
      (le→ltb _ 16 (omega (arith, n, length-header id size)))
    ∙ ap (λ z. ok (16 + z)) (join4_bytes (size % 2 ^ 32) (omega arith) ∙ m)

nonzero : (id : ℕ) → id ≢ 0 → (throw_if (id == 0) protocol_error >> ok id) ≡ ok id
nonzero id h = elim (Bool-cases (id == 0)) [ inl e ↦ absurd (h (ground arith)) | inr e ↦ rw e refl ]

id_of :
    (id size : ℕ) (rest : Bytes) → id ≢ 0 → id < 2 ^ 64 → rpc_id (header id size ++ rest) ≡ ok id
unfolding rpc_id be32 id_bytes take drop
id_of id size rest h b =
    let e : read_id 0 (id_bytes 8 id []) ≡ id =
      unfold read_id in read_id-id_bytes 8 id [] (omega arith) b in
    ap (λ z. throw_if (z == 0) protocol_error >> ok z) e ∙ nonzero id h

-- A message that its codec brings over, with a size that a frame can have.
pub record Travels (codec : Codec) (limit : ℕ) (message : Envelope) : Type 0 where
  pub comes_back : codec.parse (codec.serialize message) ≡ some message
  pub fits : length (codec.serialize message) ≤ limit
  pub counted : limit < 2 ^ 32

module _ (codec : Codec) (limit : ℕ) (id : ℕ) (message : Envelope) where
  rpc_encode-frame :
      length (codec.serialize message) ≤ limit
      → rpc_encode codec id message limit ≡ ok (frame codec id message)
  unfolding rpc_encode
  rpc_encode-frame h =
      let payload = codec.serialize message in
      ap
        (λ b.
          throw_if b (Exception.rpc_error ErrorCode.invalid_argument)
          >> ok (rpc_magic ++ (be32 (length payload % 2 ^ 32) ++ id_bytes 8 id payload)))
        (le→ltb limit (length payload) h)
      ∙ ap (λ z. ok (rpc_magic ++ z))
          (ap (λ z. be32 (length payload % 2 ^ 32) ++ z) (id_bytes-append 8 id [] payload)
            ∙ sym (append_assoc (be32 (length payload % 2 ^ 32)) (id_bytes 8 id []) payload))

  decoded :
      (bytes : Bytes)
      → ltb (length bytes) rpc_header ≡ false
      → rpc_frame_size bytes ≡ ok (length bytes)
      → codec.parse (drop rpc_header bytes) ≡ some message
      → rpc_decode codec bytes ≡ ok message
  unfolding rpc_decode
  decoded bytes long size parse = rw (long, size, ==_refl (length bytes), parse) refl

  frame-size :
      (rest : Bytes)
      → Travels codec limit message
      → rpc_frame_size (frame codec id message ++ rest) ≡ ok (length (frame codec id message))
  frame-size rest t =
      let payload = codec.serialize message in
      let size = length payload in
      let n : 16 + size ≡ length (frame codec id message) =
        omega (arith, length-append (header id size) payload, length-header id size) in
      ap rpc_frame_size (append_assoc (header id size) payload rest)
      ∙ frame_size_of id size (payload ++ rest) (omega (arith, t.fits, t.counted))
      ∙ ap ok n

  rpc_decode-frame :
      Travels codec limit message → rpc_decode codec (frame codec id message) ≡ ok message
  rpc_decode-frame t =
      let payload = codec.serialize message in
      let head = header id (length payload) in
      decoded (head ++ payload)
        (le→ltb _ 16 (omega (arith, length-append head payload, length-header id (length payload))))
        (ap rpc_frame_size (sym (append-nil (head ++ payload))) ∙ frame-size [] t)
        (ap codec.parse (drop-append 16 head payload (sym (length-header id (length payload))))
          ∙ t.comes_back)

  -- For a message that the codec brings over, within a limit below 2 ^ 32, and a nonzero 64-bit
  -- identifier, `RpcEncode` returns a frame of which `RpcFrameSize` gives the whole length,
  -- whatever bytes follow, `RpcId` the identifier and `RpcDecode` the message.
  pub rpc_encode_lem :
      Travels codec limit message
      → id ≢ 0
      → id < 2 ^ 64
      → (rest : Bytes)
      → (rpc_encode codec id message limit ≡ ok (frame codec id message))
        × (rpc_frame_size (frame codec id message ++ rest) ≡ ok (length (frame codec id message)))
        × (rpc_id (frame codec id message) ≡ ok id)
        × (rpc_decode codec (frame codec id message) ≡ ok message)
  rpc_encode_lem t h b rest = (
    rpc_encode-frame t.fits,
    frame-size rest t,
    id_of id (length (codec.serialize message)) (codec.serialize message) h b,
    rpc_decode-frame t,
  )
