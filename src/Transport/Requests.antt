-- ===== src/Transport/Requests.antt =====
-- The requests of a transport: where each one is, and the counters.
use kvrpc.Base.{
  ℕ, suc, ◌+◌, ◌≤◌, ◌≡◌, sym, ap, ◌∙◌, inl, inr, List, [], ◌∷◌, ◌++◌, length, some, Bool-cases,
  ◌==◌, if◌then◌else◌, if_true, if_false, arith,
}
use kvrpc.Transport.{Request, Response, Transport, find_request, erase_request}

abbrev pub total : List Request → ℕ
total [] = 0
total (r ∷ rs) = r.size + total rs

-- How often a request with an identifier is among some, and among the completed ones.
abbrev pub times : ℕ → List Request → ℕ
times q [] = 0
times q (r ∷ rs) = (if r.id == q then 1 else 0) + times q rs

abbrev pub times_completed : ℕ → List (ℕ × Response) → ℕ
times_completed q [] = 0
times_completed q (x ∷ xs) = (if x.0 == q then 1 else 0) + times_completed q xs

-- The counters are those of the requests that are admitted and not complete.
pub record IsTransport (t : Transport) : Type 0 where
  pub admitted : t.admitted ≡ length t.requests + length t.posted
  pub bytes : t.bytes ≡ total t.requests + total t.posted

-- Each request is where it was, or is complete instead.
pub record Keeps (t t' : Transport) : Type 0 where
  pub valid : IsTransport t'
  pub once :
      (q : ℕ)
      → times q t'.requests + times_completed q t'.completed
        ≡ times q t.requests + times_completed q t.completed
  pub grows : (q : ℕ) → times_completed q t.completed ≤ times_completed q t'.completed
  pub fewer : length t'.requests ≤ length t.requests
  pub posted : t'.posted ≡ t.posted
  pub admitted : t'.admitted ≤ t.admitted
  pub bytes : t'.bytes ≤ t.bytes

pub Keeps-trans : {t t' t'' : Transport} → Keeps t t' → Keeps t' t'' → Keeps t t''
Keeps-trans a b = record {
  valid = b.valid;
  once = λ q. b.once q ∙ a.once q;
  grows = λ q. omega (arith, a.grows q, b.grows q);
  fewer = omega (arith, a.fewer, b.fewer);
  posted = b.posted ∙ a.posted;
  admitted = omega (arith, a.admitted, b.admitted);
  bytes = omega (arith, a.bytes, b.bytes);
}

pub times_completed-append :
    (q : ℕ) (xs ys : List (ℕ × Response))
    → times_completed q (xs ++ ys) ≡ times_completed q xs + times_completed q ys
times_completed-append q [] ys = omega arith
times_completed-append q (x ∷ xs) ys = omega (arith, times_completed-append q xs ys)

some_injective : {a b : Request} → some a ≡ some b → a ≡ b
some_injective e = cc

-- What is erased when a request is found.
pub erase_request_lem :
    (id : ℕ) (rs : List Request) (r : Request)
    → find_request id rs ≡ some r
    → (r.id ≡ id)
      × (length rs ≡ suc (length (erase_request id rs)))
      × (total rs ≡ r.size + total (erase_request id rs))
      × ((q : ℕ) → times q rs ≡ (if r.id == q then 1 else 0) + times q (erase_request id rs))
erase_request_lem id [] r h = cc
erase_request_lem id (x ∷ rs) r h = elim (Bool-cases (x.id == id)) [
  | inl e ↦
      let same : x ≡ r = some_injective (sym (if_true (x.id == id) _ _ e) ∙ h) in
      let left : erase_request id (x ∷ rs) ≡ rs = if_true (x.id == id) _ _ e in
      let n = ap length left in
      let t = ap total left in
      let size = ap (λ (z : Request). z.size) same in
      (
        ap (λ (z : Request). z.id) (sym same) ∙ ground arith,
        omega (arith, n),
        omega (arith, t, size),
        λ q.
            ap (λ (z : Request). (if z.id == q then 1 else 0) + times q rs) same
            ∙ ap (λ z. (if r.id == q then 1 else 0) + times q z) (sym left),
      )
  | inr e ↦
      let rest : find_request id rs ≡ some r = sym (if_false (x.id == id) _ _ e) ∙ h in
      let (name, count, sum, each) = erase_request_lem id rs r rest in
      let left : erase_request id (x ∷ rs) ≡ x ∷ erase_request id rs =
        if_false (x.id == id) _ _ e in
      let n = ap length left in
      let t = ap total left in
      (
        name,
        omega (arith, n, count),
        omega (arith, t, sum),
        λ q. omega (arith, each q, ap (times q) left),
      )
]
