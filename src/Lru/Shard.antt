-- ===== src/Lru/Shard.antt =====
-- The contract of a shard: its limits, its entries in the order of their last use, and its
-- counters. The operations are stated on this view; `Implements` links them to the code.
use kvrpc.Base.{
  ℕ, ◌+◌, ◌-◌, ◌≤◌, ◌<◌, ◌≡◌, Bool, true, false, List, ◌∷◌, Option, none, some, length,
  if◌then◌else◌, Outcome, ok,
}
use kvrpc.Lru.{Entry, Cache, expired}
use kvrpc.Lru.Entries.{find, remove_key, total, trim}
use kvrpc.Lru.Nodes.{entries, Distinct, Below, find_node}

pub record Shard {ℓ} (K V : Type ℓ) : Type ℓ where
  pub capacity : ℕ
  pub max_bytes : ℕ
  pub contents : List (Entry K V)
  pub hits : ℕ
  pub misses : ℕ
  pub evictions : ℕ

module _ {ℓ} {K V : Type ℓ} where
  unfoldable pub view : Cache K V → Shard K V
  view c = record {
    capacity = c.capacity;
    max_bytes = c.max_bytes;
    contents = entries c.items;
    hits = c.stats.hits;
    misses = c.stats.misses;
    evictions = c.stats.evictions;
  }

  -- The least recently used entries go until both limits hold.
  unfoldable pub shrink : Shard K V → Shard K V
  shrink s =
      let kept = trim s.capacity s.max_bytes s.contents in
      record s { contents = kept; evictions = s.evictions + (length s.contents - length kept) }

module _ {ℓ} {K V : Type ℓ} (dec : Discrete K) where
  unfoldable pub forget : K → Shard K V → Shard K V
  forget k s = record s { contents = remove_key dec k s.contents }

  unfoldable pub insert : ℕ → Entry K V → Shard K V → Shard K V
  insert now e s =
      if expired now e
      then forget e.key s
      else shrink (record s { contents = e ∷ remove_key dec e.key s.contents })

  abbrev pub missed : Shard K V → Shard K V × Option V
  missed s = (record s { misses = s.misses + 1 }, none)

  abbrev pub used : Entry K V → Shard K V → Shard K V × Option V
  used e s =
      (record s { hits = s.hits + 1; contents = e ∷ remove_key dec e.key s.contents }, some e.value)

  unfoldable pub fetch : ℕ → K → Shard K V → Shard K V × Option V
  fetch now k s = elim (find dec k s.contents) [
    | none ↦ missed s
    | some e ↦ if expired now e then missed (forget k s) else used e s
  ]

  unfoldable pub probe : ℕ → K → Shard K V → Shard K V × Bool
  probe now k s = elim (find dec k s.contents) [
    | none ↦ (s, false)
    | some e ↦ if expired now e then (forget k s, false) else (s, true)
  ]

  unfoldable pub discard : K → Shard K V → Shard K V × Bool
  discard k s = elim (find dec k s.contents) [ none ↦ (s, false) | some e ↦ (forget k s, true) ]

  -- The index has the iterators of the nodes, whose identities and keys are distinct.
  pub record IsLinked (c : Cache K V) : Type ℓ where
    pub linked : (k : K) → c.index k ≡ find_node dec k c.items
    pub distinct : Distinct c.items
    pub fresh : Below c.next_node c.items

  -- What `put` breaks until its eviction loop has run.
  pub record IsCounted (c : Cache K V) : Type ℓ where
    pub links : IsLinked c
    pub counted : c.stats.bytes ≡ total (entries c.items)

  pub record IsValid (c : Cache K V) : Type ℓ where
    pub counts : IsCounted c
    pub open counts use *
    pub capacity_pos : 0 < c.capacity
    pub bytes_pos : 0 < c.max_bytes
    pub within : length (entries c.items) ≤ c.capacity
    pub budget : total (entries c.items) ≤ c.max_bytes

  -- The call returns, and leaves a valid cache with the view `s`.
  abbrev pub Implements : Outcome (Cache K V) → Shard K V → Type ℓ
  Implements r s = (c : Cache K V) × (r ≡ ok c) × IsValid c × (view c ≡ s)

  -- The same of a call with a result.
  abbrev pub Returns {κ} : {A : Type κ} → Outcome (Cache K V × A) → Shard K V × A → Type (ℓ ⊔ κ)
  Returns r s = (c : Cache K V) × (r ≡ ok (c, s.1)) × IsValid c × (view c ≡ s.0)
