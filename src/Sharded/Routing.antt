-- ===== src/Sharded/Routing.antt =====
-- The calls of `ShardedCache` go to the shard of their key, and to no other.
use kvrpc.Base.{
  ℕ, ◌%◌, ◌≤◌, ◌<◌, ◌≡◌, ◌≢◌, refl, sym, ◌∙◌, Bool, true, Option, none, some, length, All,
  get_elem?-set_self, get_elem?-set_ne, get_elem?-All, set-All, length-set, if◌then◌else◌, arith,
  ok,
}
use kvrpc.Lru
use kvrpc.Lru.{Cache, Costs, has_passed}
use kvrpc.Lru.Shard.{view, fetch, discard, probe, IsValid}
use kvrpc.Lru.Calls.{get-Returns, exists-Returns, remove-Returns, put-Implements}
use kvrpc.Lru.Reads
use kvrpc.Sharded.{ShardedCache, get_shard, write_back, can_store, put, get, remove, exists}

module _ {ℓ} {K V : Type ℓ} (dec : Discrete K) where
  -- There is a shard for every remainder, and every shard is valid.
  pub record IsSharded (s : ShardedCache K V) : Type ℓ where
    pub positive : 0 < s.num_shards
    pub count : length s.shards ≡ s.num_shards
    pub valid : All (IsValid dec) s.shards

module _ {ℓ} {K V : Type ℓ} (dec : Discrete K) (cost : Costs K V) (hash : K → ℕ) where
  pub get_shard-IsValid :
      (key : K) (s : ShardedCache K V)
      → IsSharded dec s
      → (c : Cache K V) × (get_shard dec cost hash key s ≡ some c) × IsValid dec c
  unfolding get_shard
  get_shard-IsValid key s v =
      get_elem?-All (IsValid dec) s.shards (hash key % s.num_shards)
        (omega (arith, v.count, v.positive)) v.valid

  pub write_back-IsSharded :
      (key : K) (s : ShardedCache K V) (c : Cache K V)
      → IsSharded dec s
      → IsValid dec c
      → IsSharded dec (write_back dec cost hash key s c)
  write_back-IsSharded key s c v w = record {
    positive = v.positive;
    count = length-set s.shards (hash key % s.num_shards) c ∙ v.count;
    valid = set-All (IsValid dec) s.shards (hash key % s.num_shards) c v.valid w;
  }

  get_shard-write_back :
      (key : K) (s : ShardedCache K V) (c : Cache K V)
      → IsSharded dec s
      → get_shard dec cost hash key (write_back dec cost hash key s c) ≡ some c
  unfolding get_shard
  get_shard-write_back key s c v =
      get_elem?-set_self s.shards (hash key % s.num_shards) c (omega (arith, v.count, v.positive))

  -- A call on `key` returned, kept the invariant, and left every other shard alone.
  pub record Local (key : K) (s s' : ShardedCache K V) : Type ℓ where
    pub valid : IsSharded dec s'
    pub number : s'.num_shards ≡ s.num_shards
    pub others :
        (q : K)
        → hash q % s.num_shards ≢ hash key % s.num_shards
        → get_shard dec cost hash q s' ≡ get_shard dec cost hash q s

  write_back-Local :
      (key : K) (s : ShardedCache K V) (c : Cache K V)
      → IsSharded dec s
      → IsValid dec c
      → Local key s (write_back dec cost hash key s c)
  unfolding get_shard
  write_back-Local key s c v w = record {
    valid = write_back-IsSharded key s c v w;
    number = refl;
    others = λ q h. get_elem?-set_ne s.shards c (λ e. h (sym e));
  }

  module _ (key : K) (s : ShardedCache K V) (v : IsSharded dec s) where
    can_store-shard :
        (c : Cache K V) (value : V)
        → get_shard dec cost hash key s ≡ some c
        → can_store dec cost hash key value s ≡ ok true
        → Lru.can_store dec cost c key value ≡ true
    unfolding can_store
    can_store-shard c value at fits =
        let h : ok (Lru.can_store dec cost c key value) ≡ ok true = rw (at, can_store) at fits in cc

    -- In a valid sharded cache, `put` of what `canStore` accepts returns a valid cache in which
    -- every shard but that of the key is unchanged.
    pub put-Local :
        (now : ℕ) (value : V) (expires : ℕ)
        → can_store dec cost hash key value s ≡ ok true
        → (s' : ShardedCache K V) × (put dec cost hash now key value expires s ≡ ok s')
          × Local key s s'
    unfolding put
    put-Local now value expires fits =
        let (c, at, w) = get_shard-IsValid key s v in
        let (c', run, w', _) =
          (put-Implements dec cost now key value expires c w).0 (can_store-shard c value at fits) in
        (write_back dec cost hash key s c', rw (at, put, run), write_back-Local key s c' v w')

    -- In a valid sharded cache, `get` returns a valid cache in which every shard but that of the
    -- key is unchanged.
    get-Local :
        (now : ℕ)
        → (s' : ShardedCache K V) × (o : Option V) × (get dec cost hash now key s ≡ ok (s', o))
          × Local key s s'
    unfolding get
    get-Local now =
        let (c, at, w) = get_shard-IsValid key s v in
        let (c', run, w', _) = get-Returns dec now key c w in
        (
          write_back dec cost hash key s c',
          (fetch dec now key (view c)).1,
          rw (at, get, run),
          write_back-Local key s c' v w',
        )

    pub remove-Local :
        (s' : ShardedCache K V) × (b : Bool) × (remove dec cost hash key s ≡ ok (s', b))
        × Local key s s'
    unfolding remove
    remove-Local =
        let (c, at, w) = get_shard-IsValid key s v in
        let (c', run, w', _) = remove-Returns dec key c w in
        (
          write_back dec cost hash key s c',
          (discard dec key (view c)).1,
          rw (at, remove, run),
          write_back-Local key s c' v w',
        )

    pub exists-Local :
        (now : ℕ)
        → (s' : ShardedCache K V) × (b : Bool) × (exists dec cost hash now key s ≡ ok (s', b))
          × Local key s s'
    unfolding exists
    exists-Local now =
        let (c, at, w) = get_shard-IsValid key s v in
        let (c', run, w', _) = exists-Returns dec now key c w in
        (
          write_back dec cost hash key s c',
          (probe dec now key (view c)).1,
          rw (at, exists, run),
          write_back-Local key s c' v w',
        )

    -- In a valid sharded cache, a value that `canStore` accepts is stored by `put` and read back by
    -- `get` at that time or later, unless it has expired by then.
    pub sharded_get-put :
        (now later : ℕ) (value : V) (expires : ℕ)
        → can_store dec cost hash key value s ≡ ok true
        → now ≤ later
        → (s' s'' : ShardedCache K V) × (put dec cost hash now key value expires s ≡ ok s')
          × (get dec cost hash later key s'
              ≡ ok (s'', if has_passed expires later then none else some value))
    unfolding put get
    sharded_get-put now later value expires fits order =
        let (c, at, w) = get_shard-IsValid key s v in
        let (c', c'', stored, read) =
          Reads.get-put dec cost now later key value expires c w (can_store-shard c value at fits)
            order in
        let found = get_shard-write_back key s c' v in
        let s' = write_back dec cost hash key s c' in
        (s', write_back dec cost hash key s' c'', rw (at, put, stored), rw (found, get, read))
