-- ===== src/Tests/Calls.antt =====
-- An RPC server with one method, which adds its argument to a counter, and a codec of its messages.
use mathlib.Core.List.{List-discrete}
use kvrpc.Base.{
  ℕ, if_pos, subst, sym, ◌+◌, ◌≡◌, ◌↔◌, refl, List, [], ◌∷◌, ◌++◌, none, some, Bytes, length, arith,
  Option, ok, ℕ_discrete,
}
use kvrpc.Rpc.{
  Envelope, Codec, request, response, Arg, unsigned, unsigned_arg, to_value, from_value, Value,
  unsigned_value, rpc_encode, rpc_frame_size, rpc_id, rpc_decode,
}
use kvrpc.Rpc.Values.{IsValue, from_value_lem}
use kvrpc.Rpc.Frames.{Travels, frame, rpc_encode_lem}
use kvrpc.Rpc.Remote.{
  Method, Methods, invoke, respond, find_method, dispatch, request_of, answer, call_bytes,
  complete_call, decode_arguments,
}
use kvrpc.Rpc.Remote.Results.{local_call, remote_call_lem}

abbrev dec : Discrete Bytes
dec = List-discrete ℕ_discrete

abbrev add : List Arg → ℕ → Option (Option Arg) × ℕ
add (unsigned_arg n ∷ []) s = (some (some (unsigned_arg (s + n))), s + n)
add _ s = (none, s)

abbrev method : Method ℕ
method = record { types = unsigned 8 ∷ []; call = add }

abbrev methods : Methods ℕ
methods = (7 ∷ [], method) ∷ []

abbrev args : List Arg
args = unsigned_arg 5 ∷ []

abbrev sum_of : Option Value → ℕ
sum_of (some (unsigned_value n)) = n
sum_of _ = 0

-- A request is its kind; a response has its result too.
abbrev write : Envelope → Bytes
write e = elim e.kind [ request ↦ 0 ∷ [] | response ↦ 1 ∷ sum_of e.result ∷ [] ]

abbrev read : Bytes → Option Envelope
read (kind ∷ []) = some (request_of (7 ∷ []) args)
read (kind ∷ n ∷ []) = some (answer (some (unsigned_value n)) 0 [])
read _ = none

abbrev codec : Codec
codec = record { serialize = write; parse = read }

test_find : find_method dec (7 ∷ []) methods ≡ some method
unfolding find_method
test_find = if_pos (dec (7 ∷ []) (7 ∷ [])) refl _ _

test_respond :
    respond dec methods (request_of (7 ∷ []) args) 3 ≡ (answer (some (unsigned_value 8)) 0 [], 8)
unfolding respond invoke decode_arguments from_value to_value
test_respond = rw (test_find, respond) refl

request-Travels : Travels codec 100 (request_of (7 ∷ []) args)
request-Travels = record { comes_back = refl; fits = omega arith; counted = omega arith }

response-Travels : Travels codec 100 (respond dec methods (request_of (7 ∷ []) args) 3).0
response-Travels =
    subst (λ (z : Envelope × ℕ). Travels codec 100 z.0) (sym test_respond)
      (record { comes_back = refl; fits = omega arith; counted = omega arith })

rpc_encode_lem_example :
    (rpc_encode codec 9 (request_of (7 ∷ []) args) 100
      ≡ ok (frame codec 9 (request_of (7 ∷ []) args)))
    × (rpc_frame_size (frame codec 9 (request_of (7 ∷ []) args) ++ 1 ∷ 2 ∷ [])
        ≡ ok (length (frame codec 9 (request_of (7 ∷ []) args))))
    × (rpc_id (frame codec 9 (request_of (7 ∷ []) args)) ≡ ok 9)
    × (rpc_decode codec (frame codec 9 (request_of (7 ∷ []) args)) ≡ ok (request_of (7 ∷ []) args))
rpc_encode_lem_example =
    rpc_encode_lem codec 100 9 (request_of (7 ∷ []) args) request-Travels (ground arith)
      (omega arith) (1 ∷ 2 ∷ [])

from_value_lem_example :
    (from_value (unsigned 8) (unsigned_value 255) ≡ ok (unsigned_arg 255))
    ↔ (IsValue (unsigned 8) (unsigned_arg 255) × (to_value (unsigned_arg 255) ≡ unsigned_value 255))
from_value_lem_example = from_value_lem (unsigned 8) (unsigned_value 255) (unsigned_arg 255)

remote_call_lem_example :
    let bytes = frame codec 9 (request_of (7 ∷ []) args) in
    let reply = frame codec 9 (respond dec methods (request_of (7 ∷ []) args) 3).0 in
    let result = local_call (some (unsigned 8)) (find_method dec (7 ∷ []) methods) args 3 in
    (call_bytes codec 100 9 (7 ∷ []) args ≡ ok bytes)
    × (dispatch dec codec 100 methods bytes 3 ≡ ok (reply, length bytes, result.1))
    × (rpc_id reply ≡ ok 9)
    × (complete_call codec (some (unsigned 8)) reply ≡ result.0)
remote_call_lem_example =
    remote_call_lem dec methods codec 100 100 9 (some (unsigned 8)) (7 ∷ []) args 3 (ground arith)
      (omega arith) request-Travels response-Travels
