-- ===== src/Client/Responses.antt =====
-- What a client makes of the response that the service encodes.
use kvrpc.Base.{
  ℕ, ◌+◌, ◌%◌, ◌^◌, ◌≤◌, ◌≡◌, refl, sym, ap, ◌∙◌, false, not, ◌&&◌, ◌||◌, [], Bytes, length,
  append-nil, ltb, le→ltb, ◌==◌, ==_refl, ok, if_pos, arith,
}
use kvrpc.Kv.{
  Command, code_of, header_of, header_size, max_key_size, max_wire_value_size, encode,
  decode_header, body_key, body_value,
}
use kvrpc.Kv.Frame.{decode-encode, encode-Fits, encode-frame, length-frame}
use kvrpc.Service.{Codec}
use kvrpc.Client.{Wanted, has_no_value, result_of, complete_request}

ok_injective : {a b : Bytes} → ok a ≡ ok b → a ≡ b
ok_injective e = cc

length_encoded :
    (command : Command) (key value : Bytes) {bytes : Bytes}
    → encode command key value ≡ ok bytes
    → length bytes ≡ header_size + length key + length value
length_encoded command key value e =
    let f = encode-frame command key value (encode-Fits command key value e) in
    ap length (ok_injective (sym e ∙ f)) ∙ length-frame command key value

-- The test of the completion lets the response pass.
accepted :
    (limit : ℕ) (command : Command) (key value bytes : Bytes)
    → length key ≤ max_key_size
    → length value ≤ max_wire_value_size
    → length bytes ≤ limit
    → has_no_value command && not (length value == 0) ≡ false
    → let h = header_of command key value in
      (not (h.command == code_of command)
        || not (h.key_len == length key)
        || ltb limit (length bytes)
        || (has_no_value command && not (h.value_len == 0)))
      ≡ false
accepted limit command key value bytes kf vf fits empty =
    let k : length key % 2 ^ 32 ≡ length key = omega (arith, kf) in
    let v : length value % 2 ^ 32 ≡ length value = omega (arith, vf) in
    rw (==_refl (code_of command), k, v, ==_refl (length key), le→ltb limit (length bytes) fits)
      empty

module _ (dec : Discrete Bytes) (codec : Codec) where
  -- The completion of a request takes the frame that `encode` returns for the same command and key,
  -- within the limit and with no value where the command has none, for what it is: the promise gets
  -- the result that it is for from the value of the frame.
  pub complete_request-encode :
      (limit : ℕ) (command : Command) (key value : Bytes) (wanted : Wanted) {bytes : Bytes}
      → encode command key value ≡ ok bytes
      → length bytes ≤ limit
      → has_no_value command && not (length value == 0) ≡ false
      → complete_request dec codec limit command key wanted bytes ≡ result_of dec codec wanted value
  unfolding complete_request
  complete_request-encode limit command key value wanted {bytes} e fits empty =
      let (size, head, same_key, same_value) = decode-encode command key value [] e in
      let f = encode-Fits command key value e in
      let h = header_of command key value in
      let same = append-nil bytes in
      let as_header : decode_header bytes ≡ h = ap decode_header (sym same) ∙ head in
      let as_key : body_key h bytes ≡ key = ap (body_key h) (sym same) ∙ same_key in
      let as_value : body_value h bytes ≡ value = ap (body_value h) (sym same) ∙ same_value in
      let total = length_encoded command key value e in
      let whole =
        le→ltb (length bytes) (header_size + h.key_len + h.value_len)
          (omega (arith, total, f.key_fits, f.value_fits)) in
      rw
        (
          as_header,
          accepted limit command key value bytes f.key_fits f.value_fits fits empty,
          whole,
          as_key,
          as_value,
        )
        (if_pos (dec key key) refl _ _)
