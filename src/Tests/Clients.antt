-- ===== src/Tests/Clients.antt =====
-- Values that cross between two machines, a transfer over a connection, and a response to a client.
use mathlib.Core.List.{List-discrete}
use kvrpc.Base.{
  ◌≡◌, refl, map, true, false, List, [], ◌∷◌, ◌++◌, some, Bytes, arith, ok, ℕ_discrete,
}
use kvrpc.Kv.{Command, encode, validate, invalid_header, header_bytes}
use kvrpc.Service.{Codec}
use kvrpc.Server.Pump.{SendResult, RecvResult}
use kvrpc.Serializer.{
  Serializer, Datum, boolean, scalar, string, new_serializer, serialize, serialize_all,
  serialize_scalar, serialize_string, reserve_for, table, to_memory, shift, deserialize_all,
}
use kvrpc.Serializer.RoundTrip.{format_of, all_bytes, deserialize_all-serialize_all}
use kvrpc.Connection.{Connection, Poll, ready, interrupted, late, send_all, recv_all}
use kvrpc.Connection.Transfers.{Sent, Got, send_all_lem, send_all_done, recv_all_lem}
use kvrpc.Client.{Wanted, result_of, complete_request}
use kvrpc.Client.Responses.{complete_request-encode}

abbrev values : List Datum
values = boolean true ∷ scalar 2 513 ∷ string (104 ∷ 105 ∷ []) ∷ []

-- With a limit of one hundred bytes.
abbrev serialized : Serializer
serialized = record {
  max_bytes = 100;
  buffer = 1 ∷ 1 ∷ 2 ∷ 2 ∷ 0 ∷ 0 ∷ 0 ∷ 104 ∷ 105 ∷ [];
  offset = 0;
}

test_serialize_all : serialize_all false values (new_serializer 100) ≡ ok serialized
unfolding serialize_all serialize serialize_scalar serialize_string reserve_for table to_memory
    shift
test_serialize_all = refl

deserialize_all-serialize_all_example :
    (serialized.buffer ≡ [] ++ all_bytes values)
    × ((done : Serializer) × (deserialize_all true
            (map format_of values)
            (record serialized { buffer = serialized.buffer ++ 7 ∷ []; offset = 0 })
          ≡ ok (values, done)))
deserialize_all-serialize_all_example =
    deserialize_all-serialize_all false true values (new_serializer 100) serialized
      (tt, (omega arith, (tt, tt))) test_serialize_all (7 ∷ [])

abbrev connection : Connection
connection = record {
  options = record { connect_timeout = 2000; io_timeout = 5000 };
  connected = true;
  deadline = 5000;
  timed_out = false;
}

abbrev sends : List (Poll SendResult)
sends =
    interrupted
    ∷ ready (SendResult.moved 2)
    ∷ ready SendResult.send_blocks
    ∷ ready (SendResult.moved 5)
    ∷ []

send_all_lem_example :
    Sent []
      (1 ∷ 2 ∷ 3 ∷ [])
      connection
      (send_all (ready (SendResult.moved 2) ∷ late ∷ []) false (1 ∷ 2 ∷ 3 ∷ []) connection)
send_all_lem_example =
    send_all_lem (ready (SendResult.moved 2) ∷ late ∷ []) (1 ∷ 2 ∷ 3 ∷ []) connection refl

send_all_done_example :
    send_all sends false (1 ∷ 2 ∷ []) connection ≡ (true, 1 ∷ 2 ∷ [], connection)
send_all_done_example =
    send_all_done sends (1 ∷ 2 ∷ []) connection refl (tt, (omega arith, (tt, (omega arith, tt))))
      (omega arith)

recv_all_lem_example : Got 3 connection (
    recv_all
      (ready (RecvResult.received (1 ∷ 2 ∷ [])) ∷ ready (RecvResult.received (3 ∷ [])) ∷ [])
      false
      3
      connection)
recv_all_lem_example =
    recv_all_lem
      (ready (RecvResult.received (1 ∷ 2 ∷ [])) ∷ ready (RecvResult.received (3 ∷ [])) ∷ []) 3
      connection refl

abbrev dec : Discrete Bytes
dec = List-discrete ℕ_discrete

abbrev codec : Codec
codec = record {
  parse = λ bs. some (record { found = true; value = bs; ttl_ms = 0; expires_unix_ms = 0 });
  serialize = λ i. i.value;
}

abbrev response : Bytes
response = 0xca ∷ 0xfe ∷ 1 ∷ 2 ∷ 0 ∷ 0 ∷ 0 ∷ 1 ∷ 0 ∷ 0 ∷ 0 ∷ 2 ∷ 97 ∷ 1 ∷ 2 ∷ []

test_response : encode Command.get (97 ∷ []) (1 ∷ 2 ∷ []) ≡ ok response
unfolding encode validate invalid_header header_bytes
test_response = refl

complete_request-encode_example :
    complete_request dec codec 100 Command.get (97 ∷ []) Wanted.text response
    ≡ result_of dec codec Wanted.text (1 ∷ 2 ∷ [])
complete_request-encode_example =
    complete_request-encode dec codec 100 Command.get (97 ∷ []) (1 ∷ 2 ∷ []) Wanted.text
      test_response (omega arith) refl
