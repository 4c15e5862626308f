-- ===== src/Sharded.antt =====
-- KVCache/include/sharded_cache.h: keys are spread over shards by their hash. `std::hash` is a
-- parameter, of which nothing is assumed.
pub mod Limits
pub mod Routing
use kvrpc.Base.{
  ℕ, zero, suc, ◌+◌, ◌/◌, ◌%◌, min, Bool, ◌||◌, List, [], ◌∷◌, ◌++◌, Option, none, some, length,
  get_elem?, set, ltb, ◌==◌, if◌then◌else◌, Outcome, ok, stuck, Exception, throw_if, ◌>>=◌, ◌>>◌,
}
use kvrpc.Lru
use kvrpc.Lru.{Cache, Costs, Entry, Stats}

pub record ShardedCache {ℓ} (K V : Type ℓ) : Type ℓ where
  pub num_shards : ℕ
  pub shards : List (Cache K V)

-- The part of a total that shard `i` of `n` gets.
unfoldable pub share : ℕ → ℕ → ℕ → ℕ
share total n i = total / n + (if ltb i (total % n) then 1 else 0)

module _ {ℓ} {K V : Type ℓ} where
  -- The loop of the constructor: `left` more shards of `n`, from shard `i` on.
  unfoldable pub new_shards : ℕ → ℕ → ℕ → ℕ → ℕ → Outcome (List (Cache K V))
  new_shards capacity max_bytes n zero i = ok []
  new_shards capacity max_bytes n (suc left) i = do
    shard ← Lru.new (share capacity n i) (share max_bytes n i)
    rest ← new_shards capacity max_bytes n left (i + 1)
    ok (shard ∷ rest)

  unfoldable pub new : ℕ → ℕ → ℕ → Outcome (ShardedCache K V)
  new capacity num_shards max_bytes = do
    throw_if (capacity == 0 || num_shards == 0) Exception.bad_argument
    let n = min capacity num_shards
    shards ← new_shards capacity max_bytes n n 0
    ok (record { num_shards = n; shards = shards })

  unfoldable pub total_size : List (Cache K V) → ℕ
  total_size [] = 0
  total_size (c ∷ cs) = Lru.size c + total_size cs

  unfoldable pub size : ShardedCache K V → ℕ
  size s = total_size s.shards

  unfoldable pub total_stats : List (Cache K V) → Stats
  total_stats [] = record { hits = 0; misses = 0; bytes = 0; evictions = 0 }
  total_stats (c ∷ cs) =
      let rest = total_stats cs in
      record {
        hits = c.stats.hits + rest.hits;
        misses = c.stats.misses + rest.misses;
        bytes = c.stats.bytes + rest.bytes;
        evictions = c.stats.evictions + rest.evictions;
      }

  unfoldable pub get_stats : ShardedCache K V → Stats
  get_stats s = total_stats s.shards

  unfoldable pub snapshots : (ℕ → ℕ) → ℕ → List (Cache K V) → List (Entry K V)
  snapshots clock i [] = []
  snapshots clock i (c ∷ cs) = Lru.snapshot clock i c ++ snapshots clock (i + Lru.size c) cs

  unfoldable pub snapshot : (ℕ → ℕ) → ℕ → ShardedCache K V → List (Entry K V)
  snapshot clock i s = snapshots clock i s.shards

module _ {ℓ} {K V : Type ℓ} (dec : Discrete K) (cost : Costs K V) (hash : K → ℕ) where
  abbrev pub shard_index : K → ShardedCache K V → ℕ
  shard_index key s = hash key % s.num_shards

  -- `getShard`
  unfoldable pub get_shard : K → ShardedCache K V → Option (Cache K V)
  get_shard key s = get_elem? s.shards (shard_index key s)

  abbrev pub write_back : K → ShardedCache K V → Cache K V → ShardedCache K V
  write_back key s c = record s { shards = set s.shards (shard_index key s) c }

  unfoldable pub can_store : K → V → ShardedCache K V → Outcome Bool
  can_store key value s = elim (get_shard key s) [
    | none ↦ stuck
    | some c ↦ ok (Lru.can_store dec cost c key value)
  ]

  unfoldable pub put : ℕ → K → V → ℕ → ShardedCache K V → Outcome (ShardedCache K V)
  put now key value expires s = elim (get_shard key s) [
    | none ↦ stuck
    | some c ↦ Lru.put dec cost now key value expires c >>= λ c'. ok (write_back key s c')
  ]

  unfoldable pub get : ℕ → K → ShardedCache K V → Outcome (ShardedCache K V × Option V)
  get now key s = elim (get_shard key s) [
    | none ↦ stuck
    | some c ↦ Lru.get dec now key c >>= λ r. ok (write_back key s r.0, r.1)
  ]

  unfoldable pub remove : K → ShardedCache K V → Outcome (ShardedCache K V × Bool)
  remove key s = elim (get_shard key s) [
    | none ↦ stuck
    | some c ↦ Lru.remove dec key c >>= λ r. ok (write_back key s r.0, r.1)
  ]

  unfoldable pub exists : ℕ → K → ShardedCache K V → Outcome (ShardedCache K V × Bool)
  exists now key s = elim (get_shard key s) [
    | none ↦ stuck
    | some c ↦ Lru.exists dec now key c >>= λ r. ok (write_back key s r.0, r.1)
  ]
