-- ===== src/Rpc/Values.antt =====
-- The values of arguments: `FromValue` takes what `ToValue` makes of a value of its type.
use kvrpc.Base.{
  ◌-◌, ◌^◌, ◌<◌, ◌≡◌, ◌↔◌, refl, sym, subst, not, throw_if, ◌>>◌, Exception, ap, ◌∙◌, Bool, true,
  false, ltb, lt→ltb, ltb→lt, ok, throws, if◌then◌else◌,
}
use kvrpc.Rpc.{
  pos, negsuc, Value, signed_value, unsigned_value, real_value, bool_value, string_value, CppType,
  boolean, double, text, signed, unsigned, Arg, bool_arg, signed_arg, unsigned_arg, real_arg,
  text_arg, to_value, from_value, signed_fits, protocol_error,
}

-- A value of a type.
abbrev pub IsValue : CppType → Arg → Type 0
IsValue boolean (bool_arg b) = Unit
IsValue (signed bits) (signed_arg (pos n)) = n < 2 ^ (bits - 1)
IsValue (signed bits) (signed_arg (negsuc n)) = n < 2 ^ (bits - 1)
IsValue (unsigned bits) (unsigned_arg n) = n < 2 ^ bits
IsValue double (real_arg n) = Unit
IsValue text (text_arg t) = Unit
IsValue _ _ = ⊥

pub from_value-to_value : (t : CppType) (a : Arg) → IsValue t a → from_value t (to_value a) ≡ ok a
unfolding from_value to_value
from_value-to_value boolean (bool_arg b) h = refl
from_value-to_value (signed bits) (signed_arg (pos n)) h = rw (lt→ltb n (2 ^ (bits - 1)) h) refl
from_value-to_value (signed bits) (signed_arg (negsuc n)) h = rw (lt→ltb n (2 ^ (bits - 1)) h) refl
from_value-to_value (unsigned bits) (unsigned_arg n) h = rw (lt→ltb n (2 ^ bits) h) refl
from_value-to_value double (real_arg n) h = refl
from_value-to_value text (text_arg t) h = refl
from_value-to_value _ _ h = absurd h

ok_injective : {a b : Arg} → ok a ≡ ok b → a ≡ b
ok_injective h = cc

returned :
    (t : CppType) (v : Value) (a b : Arg)
    → IsValue t a
    → to_value a ≡ v
    → ok a ≡ ok b
    → IsValue t b × (to_value b ≡ v)
returned t v a b h e r = subst (λ z. IsValue t z × (to_value z ≡ v)) (ok_injective r) (h, e)

-- Past the test of a range.
checked :
    (b : Bool) (error : Exception) (t : CppType) (v : Value) (x a : Arg)
    → (b ≡ true → IsValue t x)
    → to_value x ≡ v
    → (throw_if (not b) error >> ok x) ≡ ok a
    → IsValue t a × (to_value a ≡ v)
checked true error t v x a f e h = returned t v x a (f refl) e h
checked false error t v x a f e h = cc

pub from_value_back :
    (t : CppType) (v : Value) (a : Arg) → from_value t v ≡ ok a → IsValue t a × (to_value a ≡ v)
unfolding from_value to_value
from_value_back boolean (bool_value b) a h =
    returned boolean (bool_value b) (bool_arg b) a tt refl h
from_value_back (signed bits) (signed_value (pos n)) a h =
    checked (ltb n (2 ^ (bits - 1))) protocol_error (signed bits) _ (signed_arg (pos n)) a
      (ltb→lt n (2 ^ (bits - 1))) refl h
from_value_back (signed bits) (signed_value (negsuc n)) a h =
    checked (ltb n (2 ^ (bits - 1))) protocol_error (signed bits) _ (signed_arg (negsuc n)) a
      (ltb→lt n (2 ^ (bits - 1))) refl h
from_value_back (unsigned bits) (unsigned_value n) a h =
    checked (ltb n (2 ^ bits)) protocol_error (unsigned bits) _ (unsigned_arg n) a
      (ltb→lt n (2 ^ bits)) refl h
from_value_back double (real_value n) a h = returned double (real_value n) (real_arg n) a tt refl h
from_value_back text (string_value t) a h = returned text (string_value t) (text_arg t) a tt refl h
from_value_back _ _ a h = cc

-- `FromValue` of a type returns a value from a message exactly when the value is one of the type
-- and `ToValue` makes the message of it.
pub from_value_lem :
    (t : CppType) (v : Value) (a : Arg) → (from_value t v ≡ ok a) ↔ (IsValue t a × (to_value a ≡ v))
from_value_lem t v a =
    (from_value_back t v a, (λ x. ap (from_value t) (sym x.1) ∙ from_value-to_value t a x.0))

-- The test of a value of a type.
abbrev pub is_value : CppType → Arg → Bool
is_value boolean (bool_arg b) = true
is_value (signed bits) (signed_arg z) = signed_fits bits z
is_value (unsigned bits) (unsigned_arg n) = ltb n (2 ^ bits)
is_value double (real_arg n) = true
is_value text (text_arg t) = true
is_value _ _ = false

past_test :
    (b : Bool) (error : Exception) (a : Arg)
    → (throw_if (not b) error >> ok a) ≡ (if b then ok a else throws error)
past_test true error a = refl
past_test false error a = refl

pub from_value_test :
    (t : CppType) (a : Arg)
    → from_value t (to_value a) ≡ (if is_value t a then ok a else throws protocol_error)
unfolding from_value to_value
from_value_test (signed bits) (signed_arg z) =
    past_test (signed_fits bits z) protocol_error (signed_arg z)
from_value_test (unsigned bits) (unsigned_arg n) =
    past_test (ltb n (2 ^ bits)) protocol_error (unsigned_arg n)
from_value_test boolean (bool_arg b) = refl
from_value_test double (real_arg n) = refl
from_value_test text (text_arg t) = refl
from_value_test _ _ = refl
