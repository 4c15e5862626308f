-- ===== src/Aof/Replay.antt =====
-- `AofLogger::replay` of KVCache/src/aof.cpp: the reader of the log.
pub mod Reading
pub mod Records
pub mod Recovery
use kvrpc.Base.{
  ℕ, zero, suc, ◌+◌, ◌-◌, ◌≤◌, Bool, not, ◌&&◌, ◌||◌, List, [], ◌∷◌, ◌++◌, Bytes, length, take, ltb,
  ◌==◌, if◌then◌else◌, Outcome, ok, throws, stuck, Exception, throw_if, ◌>>=◌, ◌>>◌,
}
use kvrpc.Base.Words.{read32, byte_at}
use kvrpc.Kv.{
  Command, Header, header_size, max_frame_size, command_of, validate, decode_header, body_key,
  body_value,
}
use kvrpc.Aof.Crc.{crc32}
use kvrpc.Aof.Disk.{SysResult, read_loop}
use kvrpc.Aof.Encode.{Mutation}

-- Where the loop stands: the bytes that the size of the file promises, those behind the read
-- position, and the kernel's script.
pub record Cursor : Type 0 where
  pub remaining : ℕ
  pub rest : Bytes
  pub os : List SysResult

-- `!std::memcmp(header, "AOF2", 4)`
unfoldable pub is_record : Bytes → Bool
is_record header =
    byte_at header 0 == 0x41
    && byte_at header 1 == 0x4f
    && byte_at header 2 == 0x46
    && byte_at header 3 == 0x32

-- A checksummed record behind its first twelve bytes.
unfoldable pub read_record : Bytes → Cursor → Outcome (Bytes × Cursor)
read_record header c = do
  let length_field = read32 header 4
  let crc = read32 header 8
  throw_if
      (ltb length_field header_size
        || ltb max_frame_size length_field
        || ltb c.remaining length_field)
      Exception.runtime_error
  (payload, rest, os) ← read_loop c.os length_field c.rest
  throw_if (not (crc32 payload == crc)) Exception.runtime_error
  ok (payload, record { remaining = c.remaining - length_field; rest = rest; os = os })

-- A record of version 1: a frame with no checksum.
unfoldable pub read_legacy : Bytes → Cursor → Outcome (Bytes × Cursor)
read_legacy header c = do
  let h = decode_header header
  validate h
  let body = h.key_len + h.value_len
  throw_if (ltb c.remaining body) Exception.runtime_error
  (bytes, rest, os) ← read_loop c.os body c.rest
  ok (header ++ bytes, record { remaining = c.remaining - body; rest = rest; os = os })

-- The payload of the next record, of either version.
unfoldable pub read_payload : Cursor → Outcome (Bytes × Cursor)
read_payload c = do
  throw_if (ltb c.remaining header_size) Exception.runtime_error
  (header, rest, os) ← read_loop c.os header_size c.rest
  let c' : Cursor = record { remaining = c.remaining - header_size; rest = rest; os = os }
  if is_record header then read_record header c' else read_legacy header c'

-- The test on the header of a payload.
abbrev pub bad_operation : Header → Bytes → Bool
bad_operation h payload =
    not (header_size + h.key_len + h.value_len == length payload)
    || (not (h.command == 1) && not (h.command == 3) && not (h.command == 6))
    || (h.command == 3 && not (h.value_len == 0))

unfoldable pub parse_payload : Bytes → Outcome Mutation
parse_payload payload = do
  let h = decode_header payload
  validate h
  throw_if (bad_operation h payload) Exception.runtime_error
  ok (record {
    command = command_of h.command;
    key = body_key h payload;
    value = body_value h payload;
  })

module _ {ℓ} {S : Type ℓ} (callback : Mutation → S → Outcome S) where
  -- The loop. A round reads twelve bytes at least, so the size of the file and one is enough fuel.
  unfoldable pub replay_loop : ℕ → Cursor → S → Outcome S
  replay_loop zero c s = stuck
  replay_loop (suc fuel) c s =
      let round = do
        (payload, c') ← read_payload c
        m ← parse_payload payload
        s' ← callback m s
        replay_loop fuel c' s'
      in if c.remaining == 0 then ok s else round

  -- The calls that a history asks for, in order, until one throws.
  unfoldable pub apply_all : List Mutation → S → Outcome S
  apply_all [] s = ok s
  apply_all (m ∷ ms) s = callback m s >>= apply_all ms
