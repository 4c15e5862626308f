-- ===== src/Base/Failure.antt =====
-- include/kvrpc/error.h and the standard exceptions that the code throws; a call that may throw
-- returns an `Outcome`.
use mathlib.Core.Path.{◌≡◌, refl}
use mathlib.Core.Bool.{Bool, true, false}
use Prim.Native.Nat.{ℕ}

pub data ErrorCode : Type 0 where
  invalid_argument overloaded closed timeout connection transport protocol remote : ErrorCode

-- `rpc_error` is `kvrpc::Error` and `remote_error` is `RemoteError`, with its status; `capacity_error`
-- is `AofCapacityError`. The messages are left out.
pub data Exception : Type 0 where
  runtime_error length_error bad_argument out_of_range logic_error capacity_error : Exception
  rpc_error : ErrorCode → Exception
  remote_error : ℕ → Exception

-- `catch (const std::runtime_error&)` takes the classes derived from it too.
abbrev pub is_runtime_error : Exception → Bool
is_runtime_error Exception.runtime_error = true
is_runtime_error Exception.capacity_error = true
is_runtime_error (Exception.rpc_error _) = true
is_runtime_error (Exception.remote_error _) = true
is_runtime_error _ = false

-- `stuck` is undefined behaviour of the source, such as the use of a dangling iterator.
pub data Outcome {ℓ} (A : Type ℓ) : Type ℓ where
  ok : A → Outcome A
  throws : Exception → Outcome A
  stuck : Outcome A

infixl 5 ◌>>=◌ ◌>>◌
abbrev pub ◌>>=◌ {ℓ κ} : {A : Type ℓ} {B : Type κ} → Outcome A → (A → Outcome B) → Outcome B
ok a >>= f = f a
throws e >>= f = throws e
stuck >>= f = stuck

abbrev pub ◌>>◌ {ℓ} : {B : Type ℓ} → Outcome (Unit {0}) → Outcome B → Outcome B
m >> k = m >>= λ _. k

-- `if (test) throw error;`
abbrev pub throw_if : Bool → Exception → Outcome (Unit {0})
throw_if true e = throws e
throw_if false e = ok tt

-- A chain that returns went through its first call.
pub >>=-eq-ok {ℓ κ} :
    {A : Type ℓ} {B : Type κ} (call : Outcome A) (next : A → Outcome B) {b : B}
    → (call >>= next) ≡ ok b
    → (a : A) × (call ≡ ok a) × (next a ≡ ok b)
>>=-eq-ok (throws e) next returned = cc
>>=-eq-ok stuck next returned = cc
>>=-eq-ok (ok a) next returned = (a, refl, returned)

-- A statement that follows a guard runs because the guard let it pass.
pub throw_if-eq-ok {ℓ} :
    (b : Bool) (e : Exception) {B : Type ℓ} (f : Unit {0} → Outcome B) {r : B}
    → (throw_if b e >>= f) ≡ ok r
    → (b ≡ false) × (f tt ≡ ok r)
throw_if-eq-ok true e f h = cc
throw_if-eq-ok false e f h = (refl, h)
