-- ===== src/Aof/Replay/Reading.antt =====
-- One round of the replay: what it reads of a whole record, and of one that is cut short.
use kvrpc.Base.{
  ℕ, zero, suc, ◌-◌, ◌≤◌, ◌<◌, ◌≡◌, refl, sym, ap, ◌∙◌, inl, inr, List, [], ◌∷◌, ◌++◌, Bytes,
  length, take, drop, length-drop, min, le→ltb, lt→ltb, pos-==-zero, drop-add, ◌==◌, Bool-cases,
  arith, Outcome, ok, throws, Exception, ◌>>=◌,
}
use kvrpc.Aof.Disk.{SysResult, done, moved, interrupted, failed, read_loop, IsBenign}

take-nil : {A : Type 0} (n : ℕ) → take {A = A} n [] ≡ []
unfolding take
take-nil zero = refl
take-nil (suc n) = refl

-- Taking in two parts.
pub take-take :
    {A : Type 0} (m n : ℕ) (xs : List A) → m ≤ n → take m xs ++ take (n - m) (drop m xs) ≡ take n xs
unfolding take drop
take-take zero n xs h = ap (λ k. take k xs) (omega arith)
take-take (suc m) zero xs h = absurd (omega arith)
take-take (suc m) (suc n) [] h = take-nil (suc n - suc m)
take-take (suc m) (suc n) (x ∷ xs) h =
    ap (◌∷◌ x)
      (ap (λ k. take m xs ++ take k (drop m xs)) (omega arith) ∙ take-take m n xs (omega arith))

drop-drop : {A : Type 0} (m n : ℕ) (xs : List A) → m ≤ n → drop (n - m) (drop m xs) ≡ drop n xs
drop-drop m n xs h = sym (drop-add m (n - m) xs) ∙ ap (λ k. drop k xs) (omega arith)

-- What is asked for, delivered in two parts.
abbrev Delivers : List SysResult → ℕ → Bytes → Outcome (Bytes × Bytes × List SysResult) → Type 0
Delivers os n rest r =
    (os' : List SysResult) × (r ≡ ok (take n rest, drop n rest, os')) × IsBenign os'

two_parts :
    (os : List SysResult) (m n : ℕ) (rest : Bytes)
    → m ≤ n
    → Delivers os (n - m) (drop m rest) (read_loop os (n - m) (drop m rest))
    → Delivers os n rest
        (read_loop os (n - m) (drop m rest) >>= λ r. ok (take m rest ++ r.0, r.1, r.2))
two_parts os m n rest h (os', e, b) = (os', rw (e, take-take m n rest h, drop-drop m n rest h), b)

-- With a benign kernel `ReadExact` delivers exactly the bytes that it is asked for.
pub read_loop-IsBenign :
    (os : List SysResult) (n : ℕ) (rest : Bytes)
    → IsBenign os
    → n ≤ length rest
    → (os' : List SysResult) × (read_loop os n rest ≡ ok (take n rest, drop n rest, os'))
      × IsBenign os'
unfolding read_loop
read_loop-IsBenign os zero rest b h = (os, unfold take drop in refl, b)
read_loop-IsBenign [] (suc n) rest b h = ([], rw (le→ltb (length rest) (suc n) h), tt)
read_loop-IsBenign (done ∷ os) (suc n) rest b h = (os, rw (le→ltb (length rest) (suc n) h), b)
read_loop-IsBenign (interrupted ∷ os) (suc n) rest b h = read_loop-IsBenign os (suc n) rest b h
read_loop-IsBenign (failed ∷ os) (suc n) rest b h = elim b [ ]
read_loop-IsBenign (moved zero ∷ os) (suc n) rest b h = elim b [ ]
read_loop-IsBenign (moved (suc k) ∷ os) (suc n) rest b h =
    let m = min (suc k) (min (suc n) (length rest)) in
    let left : suc n - m ≤ length (drop m rest) = omega (arith, length-drop m rest) in
    rw (pos-==-zero m (omega arith)) (
      two_parts os m (suc n) rest (omega arith)
        (read_loop-IsBenign os (suc n - m) (drop m rest) b left))

-- A file that ends too early stops it.
pub read_loop-short :
    (os : List SysResult) (n : ℕ) (rest : Bytes)
    → length rest < n
    → read_loop os n rest ≡ throws Exception.runtime_error
unfolding read_loop
read_loop-short os zero rest h = absurd (omega arith)
read_loop-short [] (suc n) rest h = rw (lt→ltb (length rest) (suc n) h)
read_loop-short (done ∷ os) (suc n) rest h = rw (lt→ltb (length rest) (suc n) h)
read_loop-short (interrupted ∷ os) (suc n) rest h = read_loop-short os (suc n) rest h
read_loop-short (failed ∷ os) (suc n) rest h = refl
read_loop-short (moved k ∷ os) (suc n) rest h =
    let m = min k (min (suc n) (length rest)) in
    let more = read_loop-short os (suc n - m) (drop m rest) (omega (arith, length-drop m rest)) in
    elim (Bool-cases (m == 0)) [ inl z ↦ rw z | inr z ↦ rw (z, more) ]
