-- ===== src/Lru/Runs.antt =====
-- Every sequence of calls of a shard.
use kvrpc.Base.{
  ℕ, ◌≤◌, ◌<◌, ◌≡◌, refl, inl, inr, List, [], ◌∷◌, Bool-cases, arith, Outcome, ok, throws, stuck,
  ◌>>=◌,
}
use kvrpc.Lru.{Cache, Costs, get, exists, remove, put, can_store, size, new}
use kvrpc.Lru.Nodes.{length-entries}
use kvrpc.Lru.Shard.{IsValid}
use kvrpc.Lru.Calls.{get-Returns, exists-Returns, remove-Returns, put-Implements, new-IsValid}

-- A call, with the reading of the clock.
pub data Call {ℓ} (K V : Type ℓ) : Type ℓ where
  puts : ℕ → K → V → ℕ → Call K V
  gets asks : ℕ → K → Call K V
  removes : K → Call K V

module _ {ℓ} {K V : Type ℓ} (dec : Discrete K) (cost : Costs K V) where
  -- A `put` that throws leaves the shard as it was, and the client goes on.
  abbrev caught : Cache K V → Outcome (Cache K V) → Outcome (Cache K V)
  caught c (ok c') = ok c'
  caught c (throws e) = ok c
  caught c stuck = stuck

  unfoldable pub step : Call K V → Cache K V → Outcome (Cache K V)
  step (puts now k v expires) c = caught c (put dec cost now k v expires c)
  step (gets now k) c = get dec now k c >>= λ r. ok r.0
  step (asks now k) c = exists dec now k c >>= λ r. ok r.0
  step (removes k) c = remove dec k c >>= λ r. ok r.0

  unfoldable pub run : List (Call K V) → Cache K V → Outcome (Cache K V)
  run [] c = ok c
  run (call ∷ calls) c = step call c >>= run calls

  step-IsValid :
      (call : Call K V) (c : Cache K V)
      → IsValid dec c
      → (c' : Cache K V) × (step call c ≡ ok c') × IsValid dec c'
  unfolding step
  step-IsValid (puts now k x expires) c v =
      let (fits, bulky) = put-Implements dec cost now k x expires c v in
      elim (Bool-cases (can_store dec cost c k x)) [
        | inl h ↦ let (c', run, v', _) = fits h in (c', rw (run, step), v')
        | inr h ↦ (c, rw (bulky h, step), v)
      ]
  step-IsValid (gets now k) c v =
      let (c', run, v', _) = get-Returns dec now k c v in (c', rw (run, step), v')
  step-IsValid (asks now k) c v =
      let (c', run, v', _) = exists-Returns dec now k c v in (c', rw (run, step), v')
  step-IsValid (removes k) c v =
      let (c', run, v', _) = remove-Returns dec k c v in (c', rw (run, step), v')

  run-IsValid :
      (calls : List (Call K V)) (c : Cache K V)
      → IsValid dec c
      → (c' : Cache K V) × (run calls c ≡ ok c') × IsValid dec c'
  unfolding run
  run-IsValid [] c v = (c, refl, v)
  run-IsValid (call ∷ calls) c v =
      let (c', once, v') = step-IsValid call c v in
      let (c'', rest, v'') = run-IsValid calls c' v' in (c'', rw (once, run) rest, v'')

  -- From a new shard with positive limits, every sequence of calls returns, with no dangling
  -- iterator and no endless loop, and leaves a valid shard whose size and bytes are within its
  -- limits.
  pub run-new :
      (calls : List (Call K V)) (capacity max_bytes : ℕ)
      → 0 < capacity
      → 0 < max_bytes
      → (c : Cache K V) × (new capacity max_bytes >>= run calls ≡ ok c)
        × IsValid dec c
        × (size c ≤ c.capacity)
        × (c.stats.bytes ≤ c.max_bytes)
  unfolding size
  run-new calls capacity max_bytes p q =
      let (c, made, v, _) = new-IsValid dec capacity max_bytes p q in
      let (c', ran, v') = run-IsValid calls c v in
      (
        c',
        rw made ran,
        v',
        omega (arith, length-entries c'.items, v'.within),
        omega (arith, v'.counts.counted, v'.budget),
      )
