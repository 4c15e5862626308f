-- ===== src/Tests/Shards.antt =====
-- A shard of two entries and a cache of two shards.
use kvrpc.Base.{
  ℕ, ◌≤◌, ◌≡◌, refl, true, false, List, [], ◌∷◌, none, some, arith, ℕ_discrete, ok, throws,
  Exception, ◌>>=◌,
}
use kvrpc.Lru
use kvrpc.Lru.{Cache, Costs, Entry, Node, update, empty}
use kvrpc.Lru.Entries.{total}
use kvrpc.Lru.Nodes.{entries, find_node}
use kvrpc.Lru.Shard.{
  view, shrink, insert, fetch, probe, discard, IsCounted, IsValid, Implements, Returns,
}
use kvrpc.Lru.Calls.{get-Returns, exists-Returns, remove-Returns, put-Implements, new_entry}
use kvrpc.Lru.Eviction.{evict_lem}
use kvrpc.Lru.Reads
use kvrpc.Lru.Runs.{Call, puts, gets, asks, removes, run, run-new}
use kvrpc.Sharded
use kvrpc.Sharded.{ShardedCache}
use kvrpc.Sharded.Limits.{new-IsDivided, IsDivided}
use kvrpc.Sharded.Routing.{IsSharded, Local, put-Local, sharded_get-put}

abbrev costs : Costs ℕ ℕ
costs = record { of_key = λ k. 8; of_value = λ v. v; entry_size = 32 }

abbrev two : Cache ℕ ℕ
two = record {
  capacity = 2;
  max_bytes = 100;
  items =
      record { id = 1; entry = record { key = 2; value = 9; expires = 500; bytes = 49 } }
      ∷ record { id = 0; entry = record { key = 1; value = 5; expires = 0; bytes = 45 } }
      ∷ [];
  index = update ℕ_discrete (update ℕ_discrete (λ k. none) 1 (some 0)) 2 (some 1);
  stats = record { hits = 0; misses = 0; bytes = 94; evictions = 0 };
  next_node = 2;
}

two-IsCounted : IsCounted ℕ_discrete two
unfolding entries total find_node
two-IsCounted = record {
  links = record {
    linked = λ k. refl;
    distinct = ((record { id = λ e. omega arith; key = λ e. omega arith }, tt), (tt, tt));
    fresh = (omega arith, (omega arith, tt));
  };
  counted = refl;
}

two-IsValid : IsValid ℕ_discrete two
unfolding entries total
two-IsValid = record {
  counts = two-IsCounted;
  capacity_pos = omega arith;
  bytes_pos = omega arith;
  within = omega arith;
  budget = omega arith;
}

-- A `put` of a third key evicts the oldest, and the shard then misses it.
third :
    (Lru.put ℕ_discrete costs 10 3 1 0 two >>= Lru.get ℕ_discrete 10 1 >>= λ r. ok r.1) ≡ ok none
unfolding Lru.put Lru.get Lru.store Lru.link Lru.evict Lru.erase Lru.deref Lru.erase_node
    Lru.last_node ℕ_discrete
third = refl

put-Implements_example :
    (Lru.can_store ℕ_discrete costs two 3 1 ≡ true
      → Implements ℕ_discrete
          (Lru.put ℕ_discrete costs 10 3 1 0 two)
          (insert ℕ_discrete 10 (new_entry ℕ_discrete costs 3 1 0) (view two)))
    × (Lru.can_store ℕ_discrete costs two 3 1 ≡ false
        → Lru.put ℕ_discrete costs 10 3 1 0 two ≡ throws Exception.length_error)
put-Implements_example = put-Implements ℕ_discrete costs 10 3 1 0 two two-IsValid

get-Returns_example :
    Returns ℕ_discrete (Lru.get ℕ_discrete 600 2 two) (fetch ℕ_discrete 600 2 (view two))
get-Returns_example = get-Returns ℕ_discrete 600 2 two two-IsValid

exists-Returns_example :
    Returns ℕ_discrete (Lru.exists ℕ_discrete 600 2 two) (probe ℕ_discrete 600 2 (view two))
exists-Returns_example = exists-Returns ℕ_discrete 600 2 two two-IsValid

remove-Returns_example :
    Returns ℕ_discrete (Lru.remove ℕ_discrete 1 two) (discard ℕ_discrete 1 (view two))
remove-Returns_example = remove-Returns ℕ_discrete 1 two two-IsValid

abbrev crowded : Cache ℕ ℕ
crowded = record two { capacity = 1 }

crowded-IsCounted : IsCounted ℕ_discrete crowded
unfolding entries total find_node
crowded-IsCounted = record {
  links = record {
    linked = two-IsCounted.links.linked;
    distinct = two-IsCounted.links.distinct;
    fresh = two-IsCounted.links.fresh;
  };
  counted = refl;
}

evict_lem_example :
    (c : Cache ℕ ℕ) × (Lru.evict ℕ_discrete 3 crowded ≡ ok c)
    × IsCounted ℕ_discrete c
    × (view c ≡ shrink (view crowded))
evict_lem_example = evict_lem ℕ_discrete 3 crowded crowded-IsCounted (omega arith)

can_store-two : Lru.can_store ℕ_discrete costs two 2 7 ≡ true
unfolding Lru.can_store
can_store-two = refl

get-put_example :
    (c' c'' : Cache ℕ ℕ) × (Lru.put ℕ_discrete costs 10 2 7 20 two ≡ ok c')
    × (Lru.get ℕ_discrete 15 2 c' ≡ ok (c'', some 7))
get-put_example =
    Reads.get-put ℕ_discrete costs 10 15 2 7 20 two two-IsValid can_store-two (omega arith)

abbrev calls : List (Call ℕ ℕ)
calls = puts 1 1 10 0 ∷ puts 2 2 20 9 ∷ gets 3 1 ∷ puts 4 3 30 0 ∷ asks 5 2 ∷ removes 1 ∷ []

run-new_example :
    (c : Cache ℕ ℕ) × (Lru.new 2 150 >>= run ℕ_discrete costs calls ≡ ok c)
    × IsValid ℕ_discrete c
    × (Lru.size c ≤ c.capacity)
    × (c.stats.bytes ≤ c.max_bytes)
run-new_example = run-new ℕ_discrete costs calls 2 150 (omega arith) (omega arith)

abbrev sharded : ShardedCache ℕ ℕ
sharded = record { num_shards = 2; shards = two ∷ two ∷ [] }

sharded-IsSharded : IsSharded ℕ_discrete sharded
sharded-IsSharded = record {
  positive = omega arith;
  count = refl;
  valid = (two-IsValid, (two-IsValid, tt));
}

can_store-sharded : Sharded.can_store ℕ_discrete costs (λ k. k) 2 7 sharded ≡ ok true
unfolding Sharded.can_store Sharded.get_shard Lru.can_store
can_store-sharded = refl

put-Local_example :
    (s' : ShardedCache ℕ ℕ) × (Sharded.put ℕ_discrete costs (λ k. k) 10 2 7 20 sharded ≡ ok s')
    × Local ℕ_discrete costs (λ k. k) 2 sharded s'
put-Local_example =
    put-Local ℕ_discrete costs (λ k. k) 2 sharded sharded-IsSharded 10 7 20 can_store-sharded

sharded_get-put_example :
    (s' s'' : ShardedCache ℕ ℕ) × (Sharded.put ℕ_discrete costs (λ k. k) 10 2 7 20 sharded ≡ ok s')
    × (Sharded.get ℕ_discrete costs (λ k. k) 15 2 s' ≡ ok (s'', some 7))
sharded_get-put_example =
    sharded_get-put ℕ_discrete costs (λ k. k) 2 sharded sharded-IsSharded 10 15 7 20
      can_store-sharded (omega arith)

new-IsDivided_example :
    (s : ShardedCache ℕ ℕ) × (Sharded.new 5 3 100 ≡ ok s) × IsDivided ℕ_discrete 5 3 100 s
new-IsDivided_example = new-IsDivided ℕ_discrete 5 3 100 (omega arith) (omega arith) (omega arith)
