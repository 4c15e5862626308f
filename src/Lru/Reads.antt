-- ===== src/Lru/Reads.antt =====
-- What a client can read from a shard after a write, and the safety of every sequence of calls.
use kvrpc.Base.{
  ℕ, zero, suc, ◌-◌, ◌≤◌, ◌<◌, ◌≡◌, ◌≢◌, refl, sym, ap, ◌∙◌, ◌⊎◌, inl, inr, Bool, true, false, List,
  [], ◌∷◌, if_pos, if_neg, le→leb, Option, none, some, leb, if◌then◌else◌, Bool-cases, tests, arith,
  ok,
}
use native.Mathlib.Numerals.{sub-one}
use kvrpc.Lru.{Entry, Cache, Costs, has_passed, expired, get, put, can_store}
use kvrpc.Lru.Entries.{
  find, remove_key, trim, DistinctKeys, find-remove_key_ne, find-remove_key_self,
}
use kvrpc.Lru.Nodes.{Distinct-DistinctKeys}
use kvrpc.Lru.Shard.{Shard, missed, used, view, shrink, forget, insert, fetch, IsValid}
use kvrpc.Lru.Calls.{get-Returns, put-Implements, new_entry}

still_passed :
    (expires now later : ℕ)
    → now ≤ later
    → has_passed expires now ≡ true
    → has_passed expires later ≡ true
still_passed expires now later order h = ground arith

module _ {ℓ} {K V : Type ℓ} (dec : Discrete K) where
  -- A prefix of the entries reads as the whole, or misses.
  pub find-trim :
      (q : K) (cap budget : ℕ) (es : List (Entry K V))
      → (find dec q (trim cap budget es) ≡ none) ⊎ (find dec q (trim cap budget es) ≡ find dec q es)
  unfolding find trim
  find-trim q n budget [] = inl refl
  find-trim q zero budget (e ∷ es) = inl refl
  find-trim q (suc n) budget (e ∷ es) = elim (Bool-cases (leb e.bytes budget)) [
    | inr p ↦ rw p (inl refl)
    | inl p ↦ rw p (elim (dec e.key q) [
      | yes here ↦ inr (rw (if_pos (dec e.key q) here, if_pos (dec e.key q) here))
      | no there ↦
          rw (if_neg (dec e.key q) there, if_neg (dec e.key q) there)
            (find-trim q n (budget - e.bytes) es)
    ])
  ]

  trim_front :
      (e : Entry K V) (es : List (Entry K V)) (n budget : ℕ)
      → 0 < n
      → e.bytes ≤ budget
      → trim n budget (e ∷ es) ≡ e ∷ trim (n - 1) (budget - e.bytes) es
  unfolding trim
  trim_front e es zero budget p q = absurd (omega arith)
  trim_front e es (suc n) budget p q = rw (le→leb e.bytes budget q, sub-one)

  -- An entry that fits by itself stays at the head of what is kept.
  find-shrink_front :
      (e : Entry K V) (es : List (Entry K V)) (s : Shard K V)
      → 0 < s.capacity
      → e.bytes ≤ s.max_bytes
      → find dec e.key (shrink (record s { contents = e ∷ es })).contents ≡ some e
  unfolding shrink
  find-shrink_front e es s p q = rw (trim_front e es s.capacity s.max_bytes p q) (
      unfold find in
      if_pos (dec e.key e.key) refl (some e)
        (find dec e.key (trim (s.capacity - 1) (s.max_bytes - e.bytes) es)))

  find-insert_self :
      (now : ℕ) (e : Entry K V) (s : Shard K V)
      → 0 < s.capacity
      → e.bytes ≤ s.max_bytes
      → expired now e ≡ false
      → find dec e.key (insert dec now e s).contents ≡ some e
  unfolding insert
  find-insert_self now e s p q live =
      rw (live, insert) (find-shrink_front e (remove_key dec e.key s.contents) s p q)

  -- Another key is untouched, unless its entry was evicted.
  pub find-insert_ne :
      (now : ℕ) (e : Entry K V) (s : Shard K V) (q : K)
      → q ≢ e.key
      → let after = find dec q (insert dec now e s).contents in
        (after ≡ none) ⊎ (after ≡ find dec q s.contents)
  unfolding insert
  find-insert_ne now e s q other = elim (Bool-cases (expired now e)) [
    | inl old ↦
        rw (old, insert) (inr (unfold forget in find-remove_key_ne dec e.key q s.contents other))
    | inr live ↦ rw (live, insert) (kept (find-trim q s.capacity s.max_bytes _))
  ]
    where
      rest : List (Entry K V)
      rest = remove_key dec e.key s.contents

      behind : find dec q (e ∷ rest) ≡ find dec q s.contents
      behind =
          unfold find in
          rw (if_neg (dec e.key q) (λ p. other (sym p)))
            (find-remove_key_ne dec e.key q s.contents other)

      kept :
          let after = find dec q (trim s.capacity s.max_bytes (e ∷ rest)) in
          (after ≡ none) ⊎ (after ≡ find dec q (e ∷ rest))
          → let after = find dec q (shrink (record s { contents = e ∷ rest })).contents in
            (after ≡ none) ⊎ (after ≡ find dec q s.contents)
      kept (inl h) = inl (unfold shrink in h)
      kept (inr h) = inr (unfold shrink in h ∙ behind)

  -- A read of a key right after its write.
  fetch-insert :
      (now later : ℕ) (e : Entry K V) (s : Shard K V)
      → 0 < s.capacity
      → e.bytes ≤ s.max_bytes
      → DistinctKeys dec s.contents
      → now ≤ later
      → (fetch dec later e.key (insert dec now e s)).1
        ≡ (if expired later e then none else some e.value)
  unfolding fetch
  fetch-insert now later e s p q distinct order = elim (Bool-cases (expired now e)) [
    | inl old ↦
        let gone : find dec e.key (insert dec now e s).contents ≡ none =
          unfold insert in
          rw (old, insert) (unfold forget in find-remove_key_self dec e.key s.contents distinct) in
        rw (gone, fetch, still_passed e.expires now later order old)
    | inr live ↦ rw (find-insert_self now e s p q live, fetch) (settle (expired later e))
  ]
    where
      settle :
          (b : Bool)
          → (if b
              then missed dec (forget dec e.key (insert dec now e s))
              else used dec e (insert dec now e s)).1
            ≡ (if b then none else some e.value)
      settle true = refl
      settle false = refl

module _ {ℓ} {K V : Type ℓ} (dec : Discrete K) (cost : Costs K V) where
  -- After a `put` that `canStore` accepts, which returns, a `get` of the key at that time or later
  -- returns the value, or nothing if it has expired by then.
  pub get-put :
      (now later : ℕ) (key : K) (value : V) (expires : ℕ) (c : Cache K V)
      → IsValid dec c
      → can_store dec cost c key value ≡ true
      → now ≤ later
      → (c' c'' : Cache K V) × (put dec cost now key value expires c ≡ ok c')
        × (get dec later key c' ≡ ok (c'', if has_passed expires later then none else some value))
  get-put now later key value expires c v fits order =
      let e = new_entry dec cost key value expires in
      let s = insert dec now e (view c) in
      let (c', stored, v', seen) = (put-Implements dec cost now key value expires c v).0 fits in
      let (c'', read, _, _) = get-Returns dec later key c' v' in
      let distinct = Distinct-DistinctKeys dec c.items v.counts.links.distinct in
      let room : e.bytes ≤ c.max_bytes = (unfold can_store in omega tests) in
      let value =
        ap (λ (r : Shard K V). (fetch dec later key r).1) seen
        ∙ fetch-insert dec now later e (view c) (unfold view in v.capacity_pos)
            (unfold view in room) (unfold view in distinct) order in
      (c', c'', stored, read ∙ ap (λ (o : Option V). ok (c'', o)) value)
