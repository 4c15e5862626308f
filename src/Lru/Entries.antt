-- ===== src/Lru/Entries.antt =====
-- What a client of a shard sees: its entries, most recently used first. The operations of
-- lru_cache.h in these terms, without nodes, iterators or loops.
use kvrpc.Base.{
  ℕ, zero, suc, ◌+◌, ◌-◌, ◌≤◌, ◌≡◌, ◌≢◌, refl, List, [], ◌∷◌, ◌++◌, ite, if_pos, if_neg, sym, subst,
  ap, inl, inr, Bool-cases, tests, Option, none, some, length, leb, if◌then◌else◌, All, arith,
}
use kvrpc.Lru.{Entry}

module _ {ℓ} {K V : Type ℓ} where
  unfoldable pub total : List (Entry K V) → ℕ
  total [] = 0
  total (e ∷ es) = e.bytes + total es

  -- The longest prefix with at most `cap` entries of at most `budget` bytes together.
  unfoldable pub trim : ℕ → ℕ → List (Entry K V) → List (Entry K V)
  trim cap budget [] = []
  trim zero budget (e ∷ es) = []
  trim (suc cap) budget (e ∷ es) =
      let rest = trim cap (budget - e.bytes) es in if leb e.bytes budget then e ∷ rest else []

  pub length-trim-le : (cap budget : ℕ) (es : List (Entry K V)) → length (trim cap budget es) ≤ cap
  unfolding trim
  length-trim-le cap budget [] = omega arith
  length-trim-le zero budget (e ∷ es) = omega arith
  length-trim-le (suc cap) budget (e ∷ es) =
      ground (arith, length-trim-le cap (budget - e.bytes) es)

  pub length-trim-le_self :
      (cap budget : ℕ) (es : List (Entry K V)) → length (trim cap budget es) ≤ length es
  unfolding trim
  length-trim-le_self cap budget [] = omega arith
  length-trim-le_self zero budget (e ∷ es) = omega arith
  length-trim-le_self (suc cap) budget (e ∷ es) =
      ground (arith, length-trim-le_self cap (budget - e.bytes) es)

  pub total-trim-le : (cap budget : ℕ) (es : List (Entry K V)) → total (trim cap budget es) ≤ budget
  unfolding trim total
  total-trim-le cap budget [] = omega arith
  total-trim-le zero budget (e ∷ es) = omega arith
  total-trim-le (suc cap) budget (e ∷ es) = ground (arith, total-trim-le cap (budget - e.bytes) es)

  pub trim_of_fits :
      (cap budget : ℕ) (es : List (Entry K V))
      → length es ≤ cap
      → total es ≤ budget
      → trim cap budget es ≡ es
  unfolding trim total
  trim_of_fits cap budget [] n t = refl
  trim_of_fits zero budget (e ∷ es) n t = absurd (omega arith)
  trim_of_fits (suc cap) budget (e ∷ es) n t =
      ground (arith, trim_of_fits cap (budget - e.bytes) es)

  -- Where the entries do not fit, the last of them makes no difference.
  pub trim-snoc :
      (cap budget : ℕ) (es : List (Entry K V)) (e : Entry K V)
      → ((length es + 1 ≤ cap) → (total es + e.bytes ≤ budget) → ⊥)
      → trim cap budget (es ++ e ∷ []) ≡ trim cap budget es
  unfolding trim total
  trim-snoc zero budget [] e h = refl
  trim-snoc (suc n) budget [] e h = elim (Bool-cases (leb e.bytes budget)) [
    | inl p ↦ absurd (h (omega arith) (omega tests))
    | inr p ↦ rw p
  ]
  trim-snoc zero budget (x ∷ es) e h = refl
  trim-snoc (suc n) budget (x ∷ es) e h = elim (Bool-cases (leb x.bytes budget)) [
    | inl p ↦
        rw p
          (ap (◌∷◌ x) (trim-snoc n (budget - x.bytes) es e (λ a b. h (omega arith) (omega tests))))
    | inr p ↦ rw p
  ]

  -- A prefix keeps what holds of all.
  pub All-trim {κ} :
      (P : Entry K V → Type κ) (cap budget : ℕ) (es : List (Entry K V))
      → All P es
      → All P (trim cap budget es)
  unfolding trim
  All-trim P cap budget [] h = tt
  All-trim P zero budget (e ∷ es) h = tt
  All-trim P (suc cap) budget (e ∷ es) h = ground (arith, All-trim P cap (budget - e.bytes) es)

module _ {ℓ} {K V : Type ℓ} (dec : Discrete K) where
  unfoldable pub find : K → List (Entry K V) → Option (Entry K V)
  find k [] = none
  find k (e ∷ es) = ite (dec e.key k) (some e) (find k es)

  unfoldable pub remove_key : K → List (Entry K V) → List (Entry K V)
  remove_key k [] = []
  remove_key k (e ∷ es) = ite (dec e.key k) es (e ∷ remove_key k es)

  -- No two entries have one key.
  abbrev pub DistinctKeys : List (Entry K V) → Type ℓ
  DistinctKeys [] = Unit
  DistinctKeys (e ∷ es) = All (λ x. x.key ≢ e.key) es × DistinctKeys es

  pub find_absent : (k : K) (es : List (Entry K V)) → All (λ x. x.key ≢ k) es → find k es ≡ none
  unfolding find
  find_absent k [] h = refl
  find_absent k (e ∷ es) h = ground (arith, find_absent k es h.1)

  pub find-key : (k : K) (es : List (Entry K V)) {e : Entry K V} → find k es ≡ some e → e.key ≡ k
  unfolding find
  find-key k [] h = cc
  find-key k (x ∷ es) {e} h = ground (arith, find-key k es {e = e})

  pub remove_key_absent : (k : K) (es : List (Entry K V)) → find k es ≡ none → remove_key k es ≡ es
  unfolding find remove_key
  remove_key_absent k [] h = refl
  remove_key_absent k (e ∷ es) h = ground (arith, remove_key_absent k es)

  pub find-remove_key_ne :
      (k q : K) (es : List (Entry K V)) → q ≢ k → find q (remove_key k es) ≡ find q es
  unfolding find remove_key
  find-remove_key_ne k q [] h = refl
  find-remove_key_ne k q (e ∷ es) h = ground (arith, find-remove_key_ne k q es)

  pub find-remove_key_self :
      (k : K) (es : List (Entry K V)) → DistinctKeys es → find k (remove_key k es) ≡ none
  unfolding find remove_key
  find-remove_key_self k [] d = refl
  find-remove_key_self k (e ∷ es) d = elim (dec e.key k) [
    | yes p ↦ rw (if_pos _ p) (find_absent k es (subst (λ q. All (λ x. x.key ≢ q) es) p d.0))
    | no p ↦ rw (if_neg _ p, if_neg _ p) (find-remove_key_self k es d.1)
  ]

  pub All-remove_key {κ} :
      (P : Entry K V → Type κ) (k : K) (es : List (Entry K V)) → All P es → All P (remove_key k es)
  unfolding remove_key
  All-remove_key P k [] h = tt
  All-remove_key P k (e ∷ es) h = ground (arith, All-remove_key P k es)

  pub total-remove_key :
      (k : K) (es : List (Entry K V)) {e : Entry K V}
      → find k es ≡ some e
      → (total (remove_key k es) + e.bytes ≡ total es) × (length (remove_key k es) + 1 ≡ length es)
  unfolding find remove_key total
  total-remove_key k [] h = cc
  total-remove_key k (x ∷ es) {e} h = ground (arith, total-remove_key k es {e = e})

  last_differs :
      (x : Entry K V) (es : List (Entry K V)) (e : Entry K V)
      → All (λ y. y.key ≢ x.key) (es ++ e ∷ [])
      → e.key ≢ x.key
  last_differs x [] e h = h.0
  last_differs x (y ∷ es) e h = last_differs x es e h.1

  pub remove_key_last :
      (es : List (Entry K V)) (e : Entry K V)
      → DistinctKeys (es ++ e ∷ [])
      → remove_key e.key (es ++ e ∷ []) ≡ es
  unfolding remove_key
  remove_key_last [] e d = if_pos (dec e.key e.key) refl _ _
  remove_key_last (x ∷ es) e d =
      rw (if_neg (dec x.key e.key) (λ p. last_differs x es e d.0 (sym p)))
        (ap (◌∷◌ x) (remove_key_last es e d.1))
