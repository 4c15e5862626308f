-- ===== src/Aof/Encode.antt =====
-- The records of the log: `Encode` and `Size` of KVCache/src/aof.cpp.
use kvrpc.Base.{
  ℕ, ◌+◌, ◌≡◌, ◌⊎◌, refl, ap, sym, append_assoc, >>=-eq-ok, throw_if-eq-ok, ◌∙◌, inl, inr, Bool,
  true, false, not, ◌&&◌, ◌||◌, List, [], ◌∷◌, ◌++◌, Bytes, All, length, length-append, ltb,
  Bool-cases, arith, Outcome, ok, throws, Exception, throw_if, ◌>>=◌, ◌>>◌,
}
use kvrpc.Base.Words.{be32}
use kvrpc.Kv.{
  Command, encode, validate, invalid_header, header_of, header_bytes, max_key_size,
  max_wire_value_size,
}
use kvrpc.Kv.Frame.{frame, Fits, encode-frame, encode-Fits, length-frame}
use kvrpc.Aof.Crc.{crc32}

pub record Mutation : Type 0 where
  pub command : Command
  pub key : Bytes
  pub value : Bytes

-- The commands of the log.
abbrev pub is_loggable : Command → Bool
is_loggable Command.set = true
is_loggable Command.del = true
is_loggable Command.set_ttl = true
is_loggable _ = false

abbrev pub is_del : Command → Bool
is_del Command.del = true
is_del _ = false

abbrev pub is_empty : Bytes → Bool
is_empty [] = true
is_empty (b ∷ bs) = false

-- "AOF2"
abbrev pub record_magic : Bytes
record_magic = 0x41 ∷ 0x4f ∷ 0x46 ∷ 0x32 ∷ []

-- A payload behind its magic, length and checksum.
unfoldable pub wrap : Bytes → Bytes
wrap payload = record_magic ++ (be32 (length payload) ++ (be32 (crc32 payload) ++ payload))

-- The test at the start of `Encode`.
abbrev pub refused : Mutation → Bool
refused m = not (is_loggable m.command) || (is_del m.command && not (is_empty m.value))

is_empty-eq-nil : (bs : Bytes) → is_empty bs ≡ true → bs ≡ []
is_empty-eq-nil [] h = refl
is_empty-eq-nil (b ∷ bs) h = cc

refused-false :
    (m : Mutation)
    → refused m ≡ false
    → (is_loggable m.command ≡ true) × (is_del m.command ≡ true → m.value ≡ [])
refused-false m h = (ground arith, λ d. is_empty-eq-nil m.value (ground arith))

unfoldable pub encode_record : Mutation → Outcome Bytes
encode_record m = do
  throw_if (refused m) Exception.bad_argument
  payload ← encode m.command m.key m.value
  ok (wrap payload)

unfoldable pub size_of : List Mutation → Outcome ℕ
size_of [] = ok 0
size_of (m ∷ ms) = do
  record_bytes ← encode_record m
  rest ← size_of ms
  ok (length record_bytes + rest)

-- A mutation that can be logged.
pub record IsLoggable (m : Mutation) : Type 0 where
  pub command : is_loggable m.command ≡ true
  pub no_value : is_del m.command ≡ true → m.value ≡ []
  pub fits : Fits m.command m.key m.value

unfoldable pub record_of : Mutation → Bytes
record_of m = wrap (frame m.command m.key m.value)

-- A log of mutations, oldest first.
unfoldable pub log_of : List Mutation → Bytes
log_of [] = []
log_of (m ∷ ms) = record_of m ++ log_of ms

pub encode_record-record_of : (m : Mutation) → IsLoggable m → encode_record m ≡ ok (record_of m)
unfolding encode_record record_of
encode_record-record_of m l =
    rw (l.command, encode_record, guard m l, encode-frame m.command m.key m.value l.fits)
  where
    guard : (m : Mutation) → IsLoggable m → (is_del m.command && not (is_empty m.value)) ≡ false
    guard m l = elim (Bool-cases (is_del m.command)) [ inl d ↦ rw (d, l.no_value d) | inr d ↦ rw d ]

-- `Encode` throws on everything else.
pub encode_record-IsLoggable :
    (m : Mutation) {bytes : Bytes}
    → encode_record m ≡ ok bytes
    → IsLoggable m × (bytes ≡ record_of m)
unfolding encode_record record_of
encode_record-IsLoggable m {bytes} e =
    let (g, e₁) =
      throw_if-eq-ok (refused m) Exception.bad_argument
        (λ _. encode m.command m.key m.value >>= λ p. ok (wrap p)) e in
    let (payload, made, e₂) = >>=-eq-ok (encode m.command m.key m.value) (λ p. ok (wrap p)) e₁ in
    let f = encode-Fits m.command m.key m.value made in
    let same = encode-frame m.command m.key m.value f in
    let parts = refused-false m g in
    (record { command = parts.0; no_value = parts.1; fits = f }, ground arith)

pub length-record_of : (m : Mutation) → length (record_of m) ≡ 24 + length m.key + length m.value
unfolding record_of wrap be32
length-record_of m = omega (arith, length-frame m.command m.key m.value)

pub log_of-append : (ms ns : List Mutation) → log_of (ms ++ ns) ≡ log_of ms ++ log_of ns
unfolding log_of
log_of-append [] ns = refl
log_of-append (m ∷ ms) ns =
    ap (◌++◌ (record_of m)) (log_of-append ms ns)
    ∙ sym (append_assoc (record_of m) (log_of ms) (log_of ns))

-- `Size` is the length of the log that it announces.
pub size_of-log_of : (ms : List Mutation) → All IsLoggable ms → size_of ms ≡ ok (length (log_of ms))
unfolding size_of log_of
size_of-log_of [] all = refl
size_of-log_of (m ∷ ms) all =
    rw (encode_record-record_of m all.0, size_of-log_of ms all.1)
      (ap ok (sym (length-append (record_of m) (log_of ms))))

-- It throws exactly when some mutation cannot be logged.
pub size_of-All : (ms : List Mutation) {n : ℕ} → size_of ms ≡ ok n → All IsLoggable ms
unfolding size_of
size_of-All [] e = tt
size_of-All (m ∷ ms) e =
    let (bytes, made, e₁) =
      >>=-eq-ok (encode_record m) (λ b. size_of ms >>= λ n. ok (length b + n)) e in
    let (n, rest, _) = >>=-eq-ok (size_of ms) (λ n. ok (length bytes + n)) e₁ in
    ((encode_record-IsLoggable m made).0, size_of-All ms rest)

-- A call that returns or throws.
abbrev Throws {ℓ} : {A : Type ℓ} → Outcome A → Type ℓ
Throws r = (e : Exception) × (r ≡ throws e)

encode-cases :
    (c : Command) (key value : Bytes)
    → ((bytes : Bytes) × (encode c key value ≡ ok bytes)) ⊎ Throws (encode c key value)
unfolding encode validate
encode-cases c key value =
    elim (Bool-cases (ltb max_key_size (length key) || ltb max_wire_value_size (length value))) [
      | inl p ↦ inr (Exception.length_error, rw p)
      | inr p ↦ elim (Bool-cases (invalid_header (header_of c key value))) [
        | inl q ↦ inr (Exception.runtime_error, rw (p, q))
        | inr q ↦ inl (header_bytes (header_of c key value) ++ (key ++ value), rw (p, q))
      ]
    ]

encode_record-cases :
    (m : Mutation) → ((bytes : Bytes) × (encode_record m ≡ ok bytes)) ⊎ Throws (encode_record m)
unfolding encode_record
encode_record-cases m = elim (Bool-cases (refused m)) [
  | inl p ↦ inr (Exception.bad_argument, rw p)
  | inr p ↦ elim (encode-cases m.command m.key m.value) [
    | inl (bytes, e) ↦ inl (wrap bytes, rw (p, e))
    | inr (x, e) ↦ inr (x, rw (p, e))
  ]
]

size_of_total : (ms : List Mutation) → ((n : ℕ) × (size_of ms ≡ ok n)) ⊎ Throws (size_of ms)
unfolding size_of
size_of_total [] = inl (0, refl)
size_of_total (m ∷ ms) = elim (encode_record-cases m) [
  | inr (x, e) ↦ inr (x, rw e)
  | inl (bytes, e) ↦ elim (size_of_total ms) [
    | inr (x, f) ↦ inr (x, rw (e, f))
    | inl (n, f) ↦ inl (length bytes + n, rw (e, f))
  ]
]

-- `Size` returns the length of the log of the mutations, which can then all be logged, or throws.
pub size_of-cases :
    (ms : List Mutation)
    → ((size_of ms ≡ ok (length (log_of ms))) × All IsLoggable ms) ⊎ Throws (size_of ms)
size_of-cases ms = elim (size_of_total ms) [
  | inl (n, e) ↦ inl (size_of-log_of ms (size_of-All ms e), size_of-All ms e)
  | inr t ↦ inr t
]
