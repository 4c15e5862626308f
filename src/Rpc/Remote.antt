-- ===== src/Rpc/Remote.antt =====
-- Remote calls: `Register` and `Dispatch` of include/kvrpc/rpc_server.h, and `Call` of
-- include/kvrpc/rpc_client.h, whose transport brings the bytes of a request to the one and those of
-- its response to the other.
pub mod Results
use kvrpc.Base.{
  ℕ, zero, suc, ◌+◌, ◌≡◌, Bool, true, false, not, ◌&&◌, ◌||◌, List, [], ◌∷◌, ◌++◌, Bytes, length,
  map, Option, none, some, ltb, ◌==◌, if◌then◌else◌, ite, Outcome, ok, throws, stuck, Exception,
  ErrorCode, throw_if, ◌>>=◌, ◌>>◌,
}
use kvrpc.Server.{Config, new_server}
use kvrpc.Rpc.{
  Value, unset, Kind, request, response, Envelope, Codec, protocol_error, rpc_header,
  rpc_frame_size, rpc_id, rpc_encode, rpc_decode, CppType, Arg, to_value, from_value,
}

-- A function over a state `S`, with the types of its arguments; `none` is an exception, and `void`
-- is no result.
pub record Method (S : Type 0) : Type 0 where
  pub types : List CppType
  pub call : List Arg → S → Option (Option Arg) × S

-- `methods_`, the first registered first.
abbrev pub Methods : Type 0 → Type 0
Methods S = List (Bytes × Method S)

-- `RpcFrameSize` as the sizer of a server.
abbrev pub sized : Outcome ℕ → Option ℕ
sized (ok n) = some n
sized (throws _) = none
sized stuck = none

-- The constructor, with the port, whether the address parses, and the limit on connections.
unfoldable pub new_rpc_server : ℕ → Bool → ℕ → ℕ → Outcome Config
new_rpc_server port parses connections max_payload =
    new_server port parses connections (max_payload + rpc_header) >>= λ c.
    ok (record c { sizer = some (λ bytes. sized (rpc_frame_size bytes)) })

abbrev pub method_not_found : Bytes
method_not_found =
    77 ∷ 101 ∷ 116 ∷ 104 ∷ 111 ∷ 100 ∷ 32 ∷ 110 ∷ 111 ∷ 116 ∷ 32 ∷ 102 ∷ 111 ∷ 117 ∷ 110 ∷ 100 ∷ []

abbrev pub invalid_method_arguments : Bytes
invalid_method_arguments =
    73 ∷ 110 ∷ 118 ∷ 97 ∷ 108 ∷ 105 ∷ 100 ∷ 32 ∷ 109 ∷ 101 ∷ 116 ∷ 104 ∷ 111 ∷ 100 ∷ 32 ∷ 97 ∷ 114
    ∷ 103 ∷ 117 ∷ 109 ∷ 101 ∷ 110 ∷ 116 ∷ 115 ∷ []

abbrev pub method_execution_failed : Bytes
method_execution_failed =
    77 ∷ 101 ∷ 116 ∷ 104 ∷ 111 ∷ 100 ∷ 32 ∷ 101 ∷ 120 ∷ 101 ∷ 99 ∷ 117 ∷ 116 ∷ 105 ∷ 111 ∷ 110 ∷ 32
    ∷ 102 ∷ 97 ∷ 105 ∷ 108 ∷ 101 ∷ 100 ∷ []

-- `Decode`
unfoldable pub decode_arguments : List CppType → List Value → Outcome (List Arg)
decode_arguments [] [] = ok []
decode_arguments (t ∷ ts) (v ∷ vs) = do
  arg ← from_value t v
  args ← decode_arguments ts vs
  ok (arg ∷ args)
decode_arguments _ _ = throws Exception.bad_argument

-- How a method ends.
pub data Called : Type 0 where
  returned : Option Value → Called
  bad_arguments failed : Called

abbrev pub value_of : Option Arg → Option Value
value_of none = none
value_of (some a) = some (to_value a)

module _ {S : Type 0} where
  abbrev pub called : Option (Option Arg) × S → Called × S
  called (none, s) = (failed, s)
  called (some result, s) = (returned (value_of result), s)

  -- The closure that `Register` makes; what `Decode` throws becomes `BadArguments`.
  unfoldable pub invoke : Method S → List Value → S → Called × S
  invoke m values s =
      if length values == length m.types
      then elim (decode_arguments m.types values) [
        | ok args ↦ called (m.call args s)
        | throws _ ↦ (bad_arguments, s)
        | stuck ↦ (bad_arguments, s)
      ]
      else (bad_arguments, s)

-- The response that `Dispatch` fills.
abbrev pub answer : Option Value → ℕ → Bytes → Envelope
answer result status error = record {
  kind = response;
  method = [];
  arguments = [];
  result = result;
  status = status;
  error = error;
}

abbrev pub answer_of : Called → Envelope
answer_of (returned result) = answer result 0 []
answer_of bad_arguments = answer none 2 invalid_method_arguments
answer_of failed = answer none 3 method_execution_failed

abbrev pub is_request : Kind → Bool
is_request request = true
is_request response = false

module _ {S : Type 0} (dec : Discrete Bytes) where
  unfoldable pub find_method : Bytes → Methods S → Option (Method S)
  find_method name [] = none
  find_method name ((n, m) ∷ methods) = ite (dec name n) (some m) (find_method name methods)

  -- `Register`
  unfoldable pub register : ℕ → Bytes → Method S → Methods S → Outcome (Methods S)
  register limit name m methods = do
    throw_if (length name == 0 || ltb limit (length name)) Exception.bad_argument
    elim (find_method name methods) [
      | none ↦ ok (methods ++ (name, m) ∷ [])
      | some _ ↦ throws Exception.bad_argument
    ]

  -- The response to a request.
  unfoldable pub respond : Methods S → Envelope → S → Envelope × S
  respond methods message s = elim (find_method message.method methods) [
    | none ↦ (answer none 1 method_not_found, s)
    | some m ↦ let (result, s') = invoke m message.arguments s in (answer_of result, s')
  ]

  -- `Dispatch`, with its `consumed`.
  unfoldable pub dispatch : Codec → ℕ → Methods S → Bytes → S → Outcome (Bytes × ℕ × S)
  dispatch codec limit methods bytes s = do
    message ← rpc_decode codec bytes
    id ← rpc_id bytes
    throw_if (not (is_request message.kind)) Exception.runtime_error
    let (result, s') = respond methods message s in
        (rpc_encode codec id result limit >>= λ response. ok (response, length bytes, s'))

-- The request of `Call`, and its bytes.
abbrev pub request_of : Bytes → List Arg → Envelope
request_of name args = record {
  kind = request;
  method = name;
  arguments = map to_value args;
  result = none;
  status = 0;
  error = [];
}

unfoldable pub call_bytes : Codec → ℕ → ℕ → Bytes → List Arg → Outcome Bytes
call_bytes codec limit id name args = rpc_encode codec id (request_of name args) limit

abbrev pub or_unset : Option Value → Value
or_unset none = unset
or_unset (some v) = v

-- The result that the promise gets, of a return type or `void`.
abbrev pub result_of : Option CppType → Option Value → Outcome (Option Arg)
result_of none none = ok none
result_of none (some v) = throws protocol_error
result_of (some t) result = from_value t (or_unset result) >>= λ a. ok (some a)

abbrev pub is_response : Kind → Bool
is_response response = true
is_response request = false

unfoldable pub received_result : Option CppType → Envelope → Outcome (Option Arg)
received_result t message = do
  throw_if (not (is_response message.kind) || ltb 4 message.status) protocol_error
  throw_if (not (message.status == 0)) (Exception.remote_error message.status)
  result_of t message.result

-- The completion of `Call`, on bytes.
unfoldable pub complete_call : Codec → Option CppType → Bytes → Outcome (Option Arg)
complete_call codec t bytes = rpc_decode codec bytes >>= received_result t

-- What the completion returns to the transport: whether the connection is kept.
unfoldable pub keeps_connection : Outcome (Option Arg) → Bool
keeps_connection (ok _) = true
keeps_connection (throws (Exception.rpc_error ErrorCode.protocol)) = false
keeps_connection (throws (Exception.rpc_error _)) = true
keeps_connection (throws (Exception.remote_error _)) = true
keeps_connection _ = false
