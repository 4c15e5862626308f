-- ===== src/Kv.antt =====
-- include/kvrpc/kv_protocol.h: the frames of the KV compatibility protocol, and the frame sizer that
-- include/kvrpc/kvcache_client.h and KVCache/src/main.cpp install. A string is the list of its bytes.
pub mod Frame
use kvrpc.Base.{
  ℕ, ◌+◌, ◌*◌, ◌%◌, ◌^◌, Bool, ◌||◌, not, List, [], ◌∷◌, ◌++◌, Bytes, length, take, drop, ltb, ◌==◌,
  if◌then◌else◌, Outcome, ok, throws, Exception, throw_if, ◌>>=◌, ◌>>◌,
}
use kvrpc.Base.Words.{be16, be32, read16, read32, byte_at}

abbrev pub magic_number : ℕ
magic_number = 0xCAFE

abbrev pub version_number : ℕ
version_number = 1

abbrev pub header_size : ℕ
header_size = 12

abbrev pub max_key_size : ℕ
max_key_size = 64 * 1024

abbrev pub max_value_size : ℕ
max_value_size = 1024 * 1024

abbrev pub max_wire_value_size : ℕ
max_wire_value_size = max_value_size + 64

abbrev pub max_frame_size : ℕ
max_frame_size = header_size + max_key_size + max_wire_value_size

pub data Command : Type 0 where
  set get del stats lookup set_ttl unknown : Command

-- `static_cast<uint8_t>(command)`
abbrev pub code_of : Command → ℕ
code_of Command.set = 1
code_of Command.get = 2
code_of Command.del = 3
code_of Command.stats = 4
code_of Command.lookup = 5
code_of Command.set_ttl = 6
code_of Command.unknown = 0

-- `static_cast<Command>(byte)`; the callers have validated the byte, which makes it 1 to 6.
abbrev pub command_of : ℕ → Command
command_of n =
    if n == 1
    then Command.set
    else if n == 2
    then Command.get
    else if n == 3
    then Command.del
    else if n == 4
    then Command.stats
    else if n == 5
    then Command.lookup
    else if n == 6
    then Command.set_ttl
    else Command.unknown

pub record Header : Type 0 where
  pub magic : ℕ
  pub version : ℕ
  pub command : ℕ
  pub key_len : ℕ
  pub value_len : ℕ

unfoldable pub invalid_header : Header → Bool
invalid_header h =
    not (h.magic == magic_number)
    || not (h.version == version_number)
    || ltb h.command 1
    || ltb 6 h.command
    || ltb max_key_size h.key_len
    || ltb max_wire_value_size h.value_len

unfoldable pub validate : Header → Outcome (Unit {0})
validate h = throw_if (invalid_header h) Exception.runtime_error

abbrev pub header_of : Command → Bytes → Bytes → Header
header_of command key value = record {
  magic = magic_number;
  version = version_number;
  command = code_of command;
  key_len = length key % 2 ^ 32;
  value_len = length value % 2 ^ 32;
}

-- The twelve bytes that the copies into `bytes.data()` write.
unfoldable pub header_bytes : Header → Bytes
unfolding be16 be32
header_bytes h = be16 h.magic ++ (h.version ∷ h.command ∷ (be32 h.key_len ++ be32 h.value_len))

unfoldable pub encode : Command → Bytes → Bytes → Outcome Bytes
encode command key value = do
  throw_if (ltb max_key_size (length key) || ltb max_wire_value_size (length value))
      Exception.length_error
  validate (header_of command key value)
  ok (header_bytes (header_of command key value) ++ (key ++ value))

unfoldable pub decode_header : Bytes → Header
unfolding read16 read32
decode_header bytes = record {
  magic = read16 bytes 0;
  version = byte_at bytes 2;
  command = byte_at bytes 3;
  key_len = read32 bytes 4;
  value_len = read32 bytes 8;
}

-- The strings that the server, the client and the replay cut out of a frame.
unfoldable pub body_key : Header → Bytes → Bytes
body_key h bytes = take h.key_len (drop header_size bytes)

unfoldable pub body_value : Header → Bytes → Bytes
body_value h bytes = take h.value_len (drop (header_size + h.key_len) bytes)

-- The frame sizer: 0 asks for more bytes.
unfoldable pub frame_size : Bytes → Outcome ℕ
frame_size bytes =
    if ltb (length bytes) header_size
    then ok 0
    else let h = decode_header bytes in do validate h; ok (header_size + h.key_len + h.value_len)
