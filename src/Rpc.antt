-- ===== src/Rpc.antt =====
-- The RPC protocol of include/kvrpc/rpc_protocol.h, over the messages of proto/rpc.proto: the frame
-- of a message, and the values that stand for C++ arguments. The protobuf runtime is a parameter.
pub mod Frames
pub mod Values
pub mod Remote
use kvrpc.Base.{
  ℕ, zero, suc, ◌+◌, ◌-◌, ◌*◌, ◌/◌, ◌%◌, ◌^◌, ◌≡◌, Bool, true, false, not, ◌&&◌, ◌||◌, List, [],
  ◌∷◌, ◌++◌, Bytes, length, take, drop, Option, none, some, ltb, leb, ◌==◌, if◌then◌else◌, Outcome,
  ok, throws, Exception, ErrorCode, throw_if, ◌>>=◌, ◌>>◌,
}
use kvrpc.Base.Words.{be32, read32, byte_at}

-- Integers, with the library's names.
pub data ℤ : Type 0 where
  pos : ℕ → ℤ
  negsuc : ℕ → ℤ

-- `oneof kind`; `unset` is a message without any. A double is its 64 bits.
pub data Value : Type 0 where
  signed_value : ℤ → Value
  unsigned_value : ℕ → Value
  real_value : ℕ → Value
  bool_value : Bool → Value
  string_value : Bytes → Value
  message_value : Bytes → Value
  unset : Value

pub data Kind : Type 0 where
  request response : Kind

pub record Envelope : Type 0 where
  pub kind : Kind
  pub method : Bytes
  pub arguments : List Value
  pub result : Option Value
  pub status : ℕ
  pub error : Bytes

-- `SerializeToArray`, whose bytes `ByteSizeLong` counts, and `ParseFromArray`.
pub record Codec : Type 0 where
  pub serialize : Envelope → Bytes
  pub parse : Bytes → Option Envelope

abbrev pub protocol_error : Exception
protocol_error = Exception.rpc_error ErrorCode.protocol

abbrev pub rpc_header : ℕ
rpc_header = 16

-- "KVR2"
abbrev pub rpc_magic : Bytes
rpc_magic = 75 ∷ 86 ∷ 82 ∷ 50 ∷ []

abbrev pub has_magic : Bytes → Bool
has_magic bytes =
    byte_at bytes 0 == 75
    && (byte_at bytes 1 == 86 && (byte_at bytes 2 == 82 && byte_at bytes 3 == 50))

-- `RpcFrameSize`
unfoldable pub rpc_frame_size : Bytes → Outcome ℕ
rpc_frame_size bytes =
    if ltb (length bytes) rpc_header
    then ok 0
    else (throw_if (not (has_magic bytes)) protocol_error >> ok (rpc_header + read32 bytes 4))

-- The loop `id = (id << 8) | bytes[i]` on `uint64_t`.
unfoldable pub read_id : ℕ → Bytes → ℕ
read_id id [] = id
read_id id (b ∷ bs) = read_id ((id * 256 + b) % 2 ^ 64) bs

-- `RpcId`, on a frame.
unfoldable pub rpc_id : Bytes → Outcome ℕ
rpc_id bytes =
    let id = read_id 0 (take 8 (drop 8 bytes)) in (throw_if (id == 0) protocol_error >> ok id)

-- The loop `bytes[i] = id & 255; id >>= 8`, from the last byte to the first.
unfoldable pub id_bytes : ℕ → ℕ → Bytes → Bytes
id_bytes zero id behind = behind
id_bytes (suc k) id behind = id_bytes k (id / 256) (id % 256 ∷ behind)

module _ (codec : Codec) where
  -- `RpcEncode`
  unfoldable pub rpc_encode : ℕ → Envelope → ℕ → Outcome Bytes
  rpc_encode id message limit =
      let payload = codec.serialize message in
      (throw_if (ltb limit (length payload)) (Exception.rpc_error ErrorCode.invalid_argument)
        >> ok (rpc_magic ++ (be32 (length payload % 2 ^ 32) ++ id_bytes 8 id payload)))

  abbrev pub parsed : Option Envelope → Outcome Envelope
  parsed none = throws protocol_error
  parsed (some message) = ok message

  -- `RpcDecode`
  unfoldable pub rpc_decode : Bytes → Outcome Envelope
  rpc_decode bytes = do
    throw_if (ltb (length bytes) rpc_header) protocol_error
    size ← rpc_frame_size bytes
    throw_if (not (size == length bytes)) protocol_error
    parsed (codec.parse (drop rpc_header bytes))

-- The C++ types of arguments and results that the model has, integers with their bits.
pub data CppType : Type 0 where
  boolean double text : CppType
  signed unsigned : ℕ → CppType

-- Their values.
pub data Arg : Type 0 where
  bool_arg : Bool → Arg
  signed_arg : ℤ → Arg
  unsigned_arg real_arg : ℕ → Arg
  text_arg : Bytes → Arg

-- `ToValue`
unfoldable pub to_value : Arg → Value
to_value (bool_arg b) = bool_value b
to_value (signed_arg z) = signed_value z
to_value (unsigned_arg n) = unsigned_value n
to_value (real_arg n) = real_value n
to_value (text_arg t) = string_value t

-- Between `numeric_limits<T>::min()` and `max()`, on `bits` bits.
abbrev pub signed_fits : ℕ → ℤ → Bool
signed_fits bits (pos n) = ltb n (2 ^ (bits - 1))
signed_fits bits (negsuc n) = ltb n (2 ^ (bits - 1))

-- `FromValue`
unfoldable pub from_value : CppType → Value → Outcome Arg
from_value boolean (bool_value b) = ok (bool_arg b)
from_value (signed bits) (signed_value z) =
    (throw_if (not (signed_fits bits z)) protocol_error >> ok (signed_arg z))
from_value (unsigned bits) (unsigned_value n) =
    (throw_if (not (ltb n (2 ^ bits))) protocol_error >> ok (unsigned_arg n))
from_value double (real_value n) = ok (real_arg n)
from_value text (string_value t) = ok (text_arg t)
from_value _ _ = throws protocol_error
