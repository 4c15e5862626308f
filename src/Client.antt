-- ===== src/Client.antt =====
-- The requests of include/kvrpc/kvcache_client.h, and what their completions make of a response. The
-- transport has cut the response to the size that its header gives; to read past it is undefined.
pub mod Responses
use kvrpc.Base.{
  ℕ, ◌+◌, Bool, true, false, not, ◌&&◌, ◌||◌, List, [], ◌∷◌, Bytes, length, Option, none, some, ltb,
  ◌==◌, if◌then◌else◌, Outcome, ok, throws, stuck, Exception, ErrorCode, throw_if, ◌>>=◌, ◌>>◌, ite,
}
use kvrpc.Kv.{
  Command, Header, code_of, header_size, max_key_size, max_value_size, max_wire_value_size, encode,
  decode_header, body_key, body_value,
}
use kvrpc.Service.{Item, Codec}

abbrev pub invalid_argument : Exception
invalid_argument = Exception.rpc_error ErrorCode.invalid_argument

abbrev pub protocol_error : Exception
protocol_error = Exception.rpc_error ErrorCode.protocol

abbrev pub largest_value : Command → ℕ
largest_value Command.set_ttl = max_wire_value_size
largest_value _ = max_value_size

-- The bytes that `Request` gives to the transport.
unfoldable pub request_bytes : ℕ → Command → Bytes → Bytes → Outcome Bytes
request_bytes max_frame_bytes command key value = do
  throw_if
      (ltb max_key_size (length key)
        || ltb (largest_value command) (length value)
        || ltb max_frame_bytes (header_size + length key + length value))
      invalid_argument
  encode command key value

-- `SetWithTTL`, with a count of milliseconds that is not negative.
unfoldable pub set_with_ttl : Codec → ℕ → Bytes → Bytes → ℕ → Outcome Bytes
set_with_ttl codec max_frame_bytes key value ttl = do
  throw_if (ttl == 0 || ltb max_value_size (length value)) invalid_argument
  request_bytes max_frame_bytes Command.set_ttl key
      (codec.serialize (record { found = false; value = value; ttl_ms = ttl; expires_unix_ms = 0 }))

-- What a promise is for, and what it gets.
pub data Wanted : Type 0 where
  done text looked_up : Wanted

pub data Result : Type 0 where
  is_done : Result
  is_text : Bytes → Result
  is_looked_up : Option Bytes → Result

-- A response of these has no value.
abbrev pub has_no_value : Command → Bool
has_no_value Command.set = true
has_no_value Command.set_ttl = true
has_no_value Command.del = true
has_no_value _ = false

abbrev pub found_value : Option Item → Outcome Result
found_value none = throws protocol_error
found_value (some item) = ok (is_looked_up (if item.found then some item.value else none))

module _ (dec : Discrete Bytes) (codec : Codec) where
  abbrev pub result_of : Wanted → Bytes → Outcome Result
  result_of done value = ok is_done
  result_of text value = ok (is_text value)
  result_of looked_up value = found_value (codec.parse value)

  -- The completion, on a response.
  unfoldable pub complete_request : ℕ → Command → Bytes → Wanted → Bytes → Outcome Result
  complete_request limit command key wanted response =
      let h = decode_header response in
      let cut_key = body_key h response in
      let value = body_value h response in
      do
        throw_if
            (not (h.command == code_of command)
              || not (h.key_len == length key)
              || ltb limit (length response)
              || (has_no_value command && not (h.value_len == 0)))
            protocol_error
        if ltb (length response) (header_size + h.key_len + h.value_len)
            then stuck
            else ite (dec cut_key key) (result_of wanted value) (throws protocol_error)
