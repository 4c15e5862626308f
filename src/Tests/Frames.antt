-- ===== src/Tests/Frames.antt =====
-- Frames of the protocol.
use kvrpc.Base.{
  ℕ, ◌+◌, ◌≤◌, ◌<◌, ◌≡◌, ◌↔◌, ◌⊎◌, refl, List, [], ◌∷◌, ◌++◌, Bytes, IsBytes, length, arith, ok,
}
use kvrpc.Kv.{
  Command, command_of, header_of, header_size, max_frame_size, encode, decode_header, body_key,
  body_value, frame_size,
}
use kvrpc.Kv.Frame.{decode-encode, encode-decode}

abbrev get_frame : Bytes
get_frame = 0xca ∷ 0xfe ∷ 1 ∷ 2 ∷ 0 ∷ 0 ∷ 0 ∷ 2 ∷ 0 ∷ 0 ∷ 0 ∷ 0 ∷ 104 ∷ 105 ∷ []

encoded : encode Command.get (104 ∷ 105 ∷ []) [] ≡ ok get_frame
unfolding encode kvrpc.Kv.validate kvrpc.Kv.invalid_header kvrpc.Kv.header_bytes
    kvrpc.Base.Words.be16 kvrpc.Base.Words.be32
encoded = refl

sized : frame_size get_frame ≡ ok 14
unfolding frame_size kvrpc.Kv.validate kvrpc.Kv.invalid_header decode_header kvrpc.Base.Words.read16
    kvrpc.Base.Words.read32
sized = refl

decode-encode_example :
    let h = header_of Command.get (104 ∷ 105 ∷ []) [] in
    (frame_size (get_frame ++ 7 ∷ []) ≡ ok 14)
    × (decode_header (get_frame ++ 7 ∷ []) ≡ h)
    × (body_key h (get_frame ++ 7 ∷ []) ≡ 104 ∷ 105 ∷ [])
    × (body_value h (get_frame ++ 7 ∷ []) ≡ [])
decode-encode_example = decode-encode Command.get (104 ∷ 105 ∷ []) [] (7 ∷ []) encoded

get_frame-IsBytes : IsBytes get_frame
get_frame-IsBytes = (
  omega arith,
  (
    omega arith,
    (
      omega arith,
      (
        omega arith,
        (
          omega arith,
          (
            omega arith,
            (
              omega arith,
              (
                omega arith,
                (
                  omega arith,
                  (omega arith, (omega arith, (omega arith, (omega arith, (omega arith, tt))))),
                ),
              ),
            ),
          ),
        ),
      ),
    ),
  ),
)

encode-decode_example :
    let h = decode_header get_frame in
    encode (command_of h.command) (body_key h get_frame) (body_value h get_frame) ≡ ok get_frame
encode-decode_example = encode-decode get_frame get_frame-IsBytes (omega arith) sized

abbrev short : Bytes
short = 0xca ∷ 0xfe ∷ []
