-- ===== src/Lru.antt =====
-- KVCache/include/lru_cache.h: one shard. A node of `std::list` has an identity that survives
-- splicing, and an iterator is that identity; `index` is the `unordered_map` from keys to
-- iterators. The readings of the clock are arguments. Sizes are natural numbers: a sum of the sizes
-- of objects in memory stays below 2 ^ 64, and a subtraction wraps as on `size_t`.
pub mod Entries
pub mod Nodes
pub mod Shard
pub mod Steps
pub mod Eviction
pub mod Index
pub mod Calls
pub mod Reads
pub mod Runs
use kvrpc.Base.{
  ℕ, zero, suc, ◌+◌, Bool, true, false, not, ◌&&◌, ◌||◌, List, [], ◌∷◌, reverse, ite, Option, none,
  some, length, ltb, leb, ◌==◌, if◌then◌else◌, ◌-size◌, Outcome, ok, stuck, Exception, throw_if,
  ◌>>=◌, ◌>>◌, ℕ_discrete,
}

pub record Entry {ℓ} (K V : Type ℓ) : Type ℓ where
  pub key : K
  pub value : V
  pub expires : ℕ
  pub bytes : ℕ

pub record Node {ℓ} (K V : Type ℓ) : Type ℓ where
  pub id : ℕ
  pub entry : Entry K V

pub record Stats : Type 0 where
  pub hits : ℕ
  pub misses : ℕ
  pub bytes : ℕ
  pub evictions : ℕ

pub record Cache {ℓ} (K V : Type ℓ) : Type ℓ where
  pub capacity : ℕ
  pub max_bytes : ℕ
  pub items : List (Node K V)
  pub index : K → Option ℕ
  pub stats : Stats
  pub next_node : ℕ

-- `Cost` of the two template parameters, and `sizeof(Entry)`.
pub record Costs {ℓ} (K V : Type ℓ) : Type ℓ where
  pub of_key : K → ℕ
  pub of_value : V → ℕ
  pub entry_size : ℕ

-- `item.expires && item.expires <= UnixMilliseconds()`
abbrev pub has_passed : ℕ → ℕ → Bool
has_passed expires now = not (expires == 0) && leb expires now

module _ {ℓ} {K V : Type ℓ} where
  -- `*it`
  unfoldable pub deref : ℕ → List (Node K V) → Option (Entry K V)
  deref i [] = none
  deref i (n ∷ ns) = ite (ℕ_discrete n.id i) (some n.entry) (deref i ns)

  -- `items_.erase(it)`
  unfoldable pub erase_node : ℕ → List (Node K V) → List (Node K V)
  erase_node i [] = []
  erase_node i (n ∷ ns) = ite (ℕ_discrete n.id i) ns (n ∷ erase_node i ns)

  -- `std::prev(items_.end())`
  unfoldable pub last_node : List (Node K V) → Option ℕ
  last_node [] = none
  last_node (n ∷ []) = some n.id
  last_node (n ∷ m ∷ ns) = last_node (m ∷ ns)

  abbrev pub expired : ℕ → Entry K V → Bool
  expired now e = has_passed e.expires now

  abbrev pub empty : ℕ → ℕ → Cache K V
  empty capacity max_bytes = record {
    capacity = capacity;
    max_bytes = max_bytes;
    items = [];
    index = λ k. none;
    stats = record { hits = 0; misses = 0; bytes = 0; evictions = 0 };
    next_node = 0;
  }

  -- The constructor.
  unfoldable pub new : ℕ → ℕ → Outcome (Cache K V)
  new capacity max_bytes = do
    throw_if (capacity == 0 || max_bytes == 0) Exception.bad_argument
    ok (empty capacity max_bytes)

  unfoldable pub size : Cache K V → ℕ
  size c = length c.items

  -- The test of the eviction loop.
  abbrev pub over : Cache K V → Bool
  over c = ltb c.capacity (length c.items) || ltb c.max_bytes c.stats.bytes

  -- The clock is read anew for each entry, from reading `i` on; an entry without a time to live counts
  -- as a reading, which is not used.
  unfoldable pub live_entries : (ℕ → ℕ) → ℕ → List (Node K V) → List (Entry K V)
  live_entries clock i [] = []
  live_entries clock i (n ∷ ns) =
      let rest = live_entries clock (suc i) ns in
      if expired (clock i) n.entry then rest else n.entry ∷ rest

  -- Oldest first, without what has expired.
  unfoldable pub snapshot : (ℕ → ℕ) → ℕ → Cache K V → List (Entry K V)
  snapshot clock i c = live_entries clock i (reverse c.items)

module _ {ℓ} {K : Type ℓ} (dec : Discrete K) where
  -- `index_[key] = it`, and `index_.erase(key)`.
  abbrev pub update : (K → Option ℕ) → K → Option ℕ → K → Option ℕ
  update index key i k = ite (dec key k) i (index k)

module _ {ℓ} {K V : Type ℓ} (dec : Discrete K) where
  -- `Erase`
  unfoldable pub erase : ℕ → Cache K V → Outcome (Cache K V)
  erase i c = elim (deref i c.items) [
    | none ↦ stuck
    | some e ↦ ok (record c {
      stats = record c.stats { bytes = c.stats.bytes -size e.bytes };
      index = update dec c.index e.key none;
      items = erase_node i c.items;
    })
  ]

  -- `++stats_.evictions`
  abbrev count_eviction : Cache K V → Cache K V
  count_eviction c = record c { stats = record c.stats { evictions = c.stats.evictions + 1 } }

  -- The loop of `put`. A round drops one item, so the fuel is the number of items and one.
  unfoldable pub evict : ℕ → Cache K V → Outcome (Cache K V)
  evict zero c = stuck
  evict (suc fuel) c = elim (over c) [
    | false ↦ ok c
    | true ↦ elim (last_node c.items) [
      | none ↦ stuck
      | some i ↦ erase i c >>= λ c'. evict fuel (count_eviction c')
    ]
  ]

  -- `push_front` and the update of `index_`; an old item of the key is erased.
  unfoldable pub link : Entry K V → Cache K V → Outcome (Cache K V)
  link e c =
      let i = c.next_node in
      let items = record { id = i; entry = e } ∷ c.items in
      let linked = record c { index = update dec c.index e.key (some i); next_node = suc i } in
      elim (c.index e.key) [
        | none ↦ ok (record linked { items = items })
        | some j ↦ elim (deref j items) [
          | none ↦ stuck
          | some old ↦ ok (record linked {
            items = erase_node j items;
            stats = record c.stats { bytes = c.stats.bytes -size old.bytes };
          })
        ]
      ]

  -- `index_.erase` of a key that may be absent
  abbrev erase_found : Option ℕ → Cache K V → Outcome (Cache K V)
  erase_found none c = ok c
  erase_found (some i) c = erase i c

  -- The part of `put` behind the size check.
  unfoldable pub store : ℕ → Entry K V → Cache K V → Outcome (Cache K V)
  store now e c = if expired now e then erase_found (c.index e.key) c else do
    linked ← link e c
    let stats = record linked.stats { bytes = linked.stats.bytes + e.bytes }
    evict (suc (length linked.items)) (record linked { stats = stats })

  abbrev miss : Cache K V → Cache K V × Option V
  miss c = (record c { stats = record c.stats { misses = c.stats.misses + 1 } }, none)

  abbrev hit : ℕ → Entry K V → Cache K V → Cache K V × Option V
  hit i e c = (
    record c {
      stats = record c.stats { hits = c.stats.hits + 1 };
      items = record { id = i; entry = e } ∷ erase_node i c.items;
    },
    some e.value,
  )

  unfoldable pub get : ℕ → K → Cache K V → Outcome (Cache K V × Option V)
  get now key c = elim (c.index key) [
    | none ↦ ok (miss c)
    | some i ↦ elim (deref i c.items) [
      | none ↦ stuck
      | some e ↦ if expired now e then (erase i c >>= λ c'. ok (miss c')) else ok (hit i e c)
    ]
  ]

  unfoldable pub exists : ℕ → K → Cache K V → Outcome (Cache K V × Bool)
  exists now key c = elim (c.index key) [
    | none ↦ ok (c, false)
    | some i ↦ elim (deref i c.items) [
      | none ↦ stuck
      | some e ↦ if expired now e then (erase i c >>= λ c'. ok (c', false)) else ok (c, true)
    ]
  ]

  unfoldable pub remove : K → Cache K V → Outcome (Cache K V × Bool)
  remove key c = elim (c.index key) [
    | none ↦ ok (c, false)
    | some i ↦ erase i c >>= λ c'. ok (c', true)
  ]

module _ {ℓ} {K V : Type ℓ} (dec : Discrete K) (cost : Costs K V) where
  abbrev pub cost_of : K → V → ℕ
  cost_of key value = cost.of_key key + cost.of_value value + cost.entry_size

  unfoldable pub can_store : Cache K V → K → V → Bool
  can_store c key value = leb (cost_of key value) c.max_bytes

  unfoldable pub put : ℕ → K → V → ℕ → Cache K V → Outcome (Cache K V)
  put now key value expires c =
      let bytes = cost_of key value in
      do
        throw_if (ltb c.max_bytes bytes) Exception.length_error
        store dec now (record { key = key; value = value; expires = expires; bytes = bytes }) c
