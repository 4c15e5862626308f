-- ===== src/Rpc/Remote/Results.antt =====
-- A remote call against the call of the method itself.
use kvrpc.Base.{
  ℕ, suc, ◌^◌, ◌<◌, ◌≡◌, ◌≢◌, refl, ap, inl, inr, Bool, true, false, ◌&&◌, List, [], ◌∷◌, Bytes,
  length, map, Option, none, some, Option-cases, Bool-cases, ◌==◌, ==_refl, if◌then◌else◌, Outcome,
  ok, throws, Exception, arith,
}
use kvrpc.Rpc.{Codec, protocol_error, rpc_id, CppType, Arg, to_value, from_value}
use kvrpc.Rpc.Values.{is_value, from_value_test}
use kvrpc.Rpc.Frames.{Travels, frame, rpc_encode_lem}
use kvrpc.Rpc.Remote.{
  Method, Methods, decode_arguments, returned, bad_arguments, called, invoke, answer, answer_of,
  method_not_found, find_method, respond, dispatch, request_of, call_bytes, received_result,
  complete_call, value_of,
}

-- The arguments are as many as the types, each a value of its own.
abbrev pub typed : List CppType → List Arg → Bool
typed [] [] = true
typed (t ∷ ts) (a ∷ args) = is_value t a && typed ts args
typed _ _ = false

-- A result that the caller expects; any other is a protocol error.
abbrev pub expected : Option CppType → Option Arg → Outcome (Option Arg)
expected none none = ok none
expected (some t) (some a) = if is_value t a then ok (some a) else throws protocol_error
expected _ _ = throws protocol_error

the_first : (a b : Bool) → (a && b) ≡ true → a ≡ true
the_first true b h = refl
the_first false b h = h

the_rest : (a b : Bool) → (a && b) ≡ true → b ≡ true
the_rest true b h = h
the_rest false b h = cc

typed-length :
    (ts : List CppType) (args : List Arg)
    → typed ts args ≡ true
    → length (map to_value args) ≡ length ts
typed-length [] [] h = refl
typed-length (t ∷ ts) (a ∷ args) h = ap suc (typed-length ts args (ground arith))
typed-length [] (a ∷ args) h = cc
typed-length (t ∷ ts) [] h = cc

decode_arguments-typed :
    (ts : List CppType) (args : List Arg)
    → typed ts args ≡ true
    → decode_arguments ts (map to_value args) ≡ ok args
unfolding decode_arguments
decode_arguments-typed [] [] h = refl
decode_arguments-typed (t ∷ ts) (a ∷ args) h =
    rw
      (
        from_value_test t a,
        the_first (is_value t a) _ h,
        decode_arguments-typed ts args (the_rest (is_value t a) _ h),
      )
      refl
decode_arguments-typed [] (a ∷ args) h = cc
decode_arguments-typed (t ∷ ts) [] h = cc

decode_arguments_untyped :
    (ts : List CppType) (args : List Arg)
    → typed ts args ≡ false
    → (e : Exception) × (decode_arguments ts (map to_value args) ≡ throws e)
unfolding decode_arguments
decode_arguments_untyped [] [] h = cc
decode_arguments_untyped (t ∷ ts) (a ∷ args) h = elim (Bool-cases (is_value t a)) [
  | inl v ↦
      let (e, rest) = decode_arguments_untyped ts args (ground arith) in
      (e, rw (from_value_test t a, v, rest) refl)
  | inr v ↦ (protocol_error, rw (from_value_test t a, v) refl)
]
decode_arguments_untyped [] (a ∷ args) h = (_, refl)
decode_arguments_untyped (t ∷ ts) [] h = (_, refl)

-- What the client makes of the response to a call.
received_expected :
    (t : Option CppType) (r : Option Arg)
    → received_result t (answer_of (returned (value_of r))) ≡ expected t r
unfolding received_result
received_expected none none = refl
received_expected none (some a) = refl
received_expected (some CppType.boolean) none = unfold from_value in refl
received_expected (some CppType.double) none = unfold from_value in refl
received_expected (some CppType.text) none = unfold from_value in refl
received_expected (some (CppType.signed b)) none = unfold from_value in refl
received_expected (some (CppType.unsigned b)) none = unfold from_value in refl
received_expected (some t) (some a) = elim (Bool-cases (is_value t a)) [
  | inl h ↦ rw (from_value_test t a, h) refl
  | inr h ↦ rw (from_value_test t a, h) refl
]

both {ℓ} : {A : Type ℓ} (b : Bool) (x : A) → (if b then x else x) ≡ x
both true x = refl
both false x = refl

module _ {S : Type 0} where
  abbrev pub outcome_of : Option CppType → Option (Option Arg) × S → Outcome (Option Arg) × S
  outcome_of t (none, s) = (throws (Exception.remote_error 3), s)
  outcome_of t (some result, s) = (expected t result, s)

  -- What the caller of a method sees, frames aside.
  abbrev pub local_call :
      Option CppType → Option (Method S) → List Arg → S → Outcome (Option Arg) × S
  local_call t none args s = (throws (Exception.remote_error 1), s)
  local_call t (some m) args s =
      if typed m.types args
      then outcome_of t (m.call args s)
      else (throws (Exception.remote_error 2), s)

  invoke_lem :
      (m : Method S) (args : List Arg) (s : S)
      → invoke m (map to_value args) s
        ≡ (if typed m.types args then called (m.call args s) else (bad_arguments, s))
  unfolding invoke
  invoke_lem m args s = elim (Bool-cases (typed m.types args)) [
    | inl h ↦
        rw
          (
            h,
            typed-length m.types args h,
            ==_refl (length m.types),
            decode_arguments-typed m.types args h,
          )
          refl
    | inr h ↦
        let (e, run) = decode_arguments_untyped m.types args h in
        rw (h, run) (both (length (map to_value args) == length m.types) _)
  ]

  received_called :
      (t : Option CppType) (y : Option (Option Arg) × S)
      → (received_result t (answer_of (called y).0) ≡ (outcome_of t y).0)
        × ((called y).1 ≡ (outcome_of t y).1)
  received_called t (none, s) = ((unfold received_result in refl), refl)
  received_called t (some r, s) = (received_expected t r, refl)

  invoked :
      (t : Option CppType) (m : Method S) (args : List Arg) (s : S)
      → let x = invoke m (map to_value args) s in
        (received_result t (answer_of x.0) ≡ (local_call t (some m) args s).0)
        × (x.1 ≡ (local_call t (some m) args s).1)
  invoked t m args s = elim (Bool-cases (typed m.types args)) [
    | inl h ↦ rw (invoke_lem m args s, h) (received_called t (m.call args s))
    | inr h ↦ rw (invoke_lem m args s, h) ((unfold received_result in refl), refl)
  ]

module _ {S : Type 0} (dec : Discrete Bytes) (methods : Methods S) where
  pub respond_lem :
      (t : Option CppType) (name : Bytes) (args : List Arg) (s : S)
      → let x = respond dec methods (request_of name args) s in
        let y = local_call t (find_method dec name methods) args s in
        (received_result t x.0 ≡ y.0) × (x.1 ≡ y.1)
  respond_lem t name args s = elim (Option-cases (find_method dec name methods)) [
    | inl at ↦
        let e : respond dec methods (request_of name args) s ≡ (answer none 1 method_not_found, s) =
          unfold respond in simp (at, respond) in
        rw (at, e) ((unfold received_result in refl), refl)
    | inr (m, at) ↦
        let x = invoke m (map to_value args) s in
        let e : respond dec methods (request_of name args) s ≡ (answer_of x.0, x.1) =
          unfold respond in simp (at, respond) in
        rw (at, e) (invoked t m args s)
  ]

  -- If the codec brings the request and the response over within the limits, and the identifier is
  -- a nonzero 64-bit word, then `Call` sends the frame of its request, `Dispatch` returns the frame
  -- of a response with that identifier, and the client gets from it what the registered method
  -- returns for the arguments, a remote error 1, 2 or 3 for an unknown method, arguments of other
  -- types or an exception of the method, or a protocol error for a result of another type; the
  -- state of the server is that after the call.
  pub remote_call_lem :
      (codec : Codec) (sent allowed id : ℕ) (t : Option CppType) (name : Bytes) (args : List Arg)
      (s : S)
      → id ≢ 0
      → id < 2 ^ 64
      → Travels codec sent (request_of name args)
      → Travels codec allowed (respond dec methods (request_of name args) s).0
      → let bytes = frame codec id (request_of name args) in
        let reply = frame codec id (respond dec methods (request_of name args) s).0 in
        let result = local_call t (find_method dec name methods) args s in
        (call_bytes codec sent id name args ≡ ok bytes)
        × (dispatch dec codec allowed methods bytes s ≡ ok (reply, length bytes, result.1))
        × (rpc_id reply ≡ ok id)
        × (complete_call codec t reply ≡ result.0)
  unfolding dispatch
  remote_call_lem codec sent allowed id t name args s nonzero small go back =
      let x = respond dec methods (request_of name args) s in
      let (encoded, _, named, decoded) =
        rpc_encode_lem codec sent id (request_of name args) go nonzero small [] in
      let (encoded', _, named', decoded') =
        rpc_encode_lem codec allowed id x.0 back nonzero small [] in
      let (seen, state) = respond_lem t name args s in
      (
        (unfold call_bytes in encoded),
        (rw (decoded, named, encoded')
            (ap (λ z. ok (frame codec id x.0, length (frame codec id (request_of name args)), z))
              state)),
        named',
        (unfold complete_call in rw decoded' seen),
      )
