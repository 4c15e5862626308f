-- ===== src/Lru/Calls.antt =====
-- The methods of `LRUCache` implement the contract of `Shard`: no iterator dangles, no loop runs
-- away, and the view of the result is that of the contract.
use kvrpc.Base.{
  ℕ, suc, ◌+◌, ◌<◌, ◌≡◌, refl, ap, ◌∙◌, inl, inr, Bool, true, false, [], ◌∷◌, none, some, length,
  ltb, leb, Bool-cases, pos-==-zero, arith, throws, Exception,
}
use kvrpc.Lru.{
  Entry, Cache, Costs, expired, empty, new, get, exists, remove, store, put, can_store, cost_of,
}
use kvrpc.Lru.Entries.{find, remove_key, total, remove_key_absent, length-trim-le, total-trim-le}
use kvrpc.Lru.Nodes.{entries, find_node}
use kvrpc.Lru.Shard.{
  Shard, view, shrink, forget, insert, fetch, probe, discard, IsCounted, IsValid, Implements,
  Returns, missed, used,
}
use kvrpc.Lru.Steps.{Links, link_lem}
use kvrpc.Lru.Eviction.{evict_lem}
use kvrpc.Lru.Index.{Found, index_cases, erase-Implements, recount, front-IsValid, IsValid-of_view}

module _ {ℓ} {K V : Type ℓ} (dec : Discrete K) (now : ℕ) (k : K) where
  fetch_hit :
      (s : Shard K V) (e : Entry K V)
      → find dec k s.contents ≡ some e
      → expired now e ≡ false
      → fetch dec now k s ≡ used dec e s
  unfolding fetch
  fetch_hit s e h live = rw (h, fetch, live)

  fetch-expired :
      (s : Shard K V) (e : Entry K V)
      → find dec k s.contents ≡ some e
      → expired now e ≡ true
      → fetch dec now k s ≡ missed dec (forget dec k s)
  unfolding fetch
  fetch-expired s e h old = rw (h, fetch, old)

  module _ (c : Cache K V) (v : IsValid dec c) where
    get_absent :
        c.index k ≡ none
        → find dec k (entries c.items) ≡ none
        → Returns dec (get dec now k c) (fetch dec now k (view c))
    unfolding get fetch view
    get_absent h nf =
        rw (h, get, nf, fetch) (_, refl, recount dec c c.stats.hits (c.stats.misses + 1) v, refl)

    get-expired :
        (f : Found dec c k)
        → expired now f.entry ≡ true
        → Returns dec (get dec now k c) (fetch dec now k (view c))
    unfolding get view
    get-expired f old =
        let (c', run, v', seen) = erase-Implements dec c k v f in
        rw (fetch-expired (view c) f.entry f.located.found old) (
          _,
          rw (f.indexed, get, f.located.reads, old, run),
          recount dec c' c'.stats.hits (c'.stats.misses + 1) v',
          ap (λ (s : Shard K V). record s { misses = s.misses + 1 }) seen,
        )

    get_live :
        (f : Found dec c k)
        → expired now f.entry ≡ false
        → Returns dec (get dec now k c) (fetch dec now k (view c))
    unfolding get view entries
    get_live f live =
        let moved = front-IsValid dec c k v f in
        rw (fetch_hit (view c) f.entry f.located.found live) (
          _,
          rw (f.indexed, get, f.located.reads, live),
          recount dec _ (c.stats.hits + 1) c.stats.misses moved,
          rw (f.located.erased, f.located.key),
        )

    -- On a valid shard `get` returns, leaves a valid shard, and does what the contract says: a miss
    -- is counted for an absent or expired key, whose entry is erased, and a live entry is returned,
    -- counted and moved to the front.
    pub get-Returns : Returns dec (get dec now k c) (fetch dec now k (view c))
    get-Returns = elim (index_cases dec c k v.counts.links) [
      | inl (h, nf) ↦ get_absent h nf
      | inr f ↦ elim (Bool-cases (expired now f.entry)) [
        | inl old ↦ get-expired f old
        | inr live ↦ get_live f live
      ]
    ]

    probe-Found :
        (f : Found dec c k)
        → (b : Bool) → expired now f.entry ≡ b
        → Returns dec (exists dec now k c) (probe dec now k (view c))
    unfolding exists probe view
    probe-Found f true old =
        let (c', run, v', seen) = erase-Implements dec c k v f in
        (
          c',
          rw (f.indexed, exists, f.located.reads, old, run, f.located.found, probe, old),
          v',
          rw (f.located.found, probe, old) seen,
        )
    probe-Found f false live = (
      c,
      rw (f.indexed, exists, f.located.reads, live, f.located.found, probe, live),
      v,
      rw (f.located.found, probe, live),
    )

    -- On a valid shard `exists` returns, leaves a valid shard, answers whether a live entry has the
    -- key, erases an expired one, and leaves the order and the counters.
    pub exists-Returns : Returns dec (exists dec now k c) (probe dec now k (view c))
    unfolding exists probe view
    exists-Returns = elim (index_cases dec c k v.counts.links) [
      | inl (h, nf) ↦ (c, rw (h, exists, nf, probe), v, rw (nf, probe))
      | inr f ↦ probe-Found f (expired now f.entry) refl
    ]

module _ {ℓ} {K V : Type ℓ} (dec : Discrete K) where
  -- On a valid shard `remove` returns, leaves a valid shard, erases the entry of the key, live or
  -- not, and says whether there was one.
  pub remove-Returns :
      (k : K) (c : Cache K V)
      → IsValid dec c
      → Returns dec (remove dec k c) (discard dec k (view c))
  unfolding remove discard view
  remove-Returns k c v = elim (index_cases dec c k v.counts.links) [
    | inl (h, nf) ↦ (c, rw (h, remove, nf, discard), v, rw (nf, discard))
    | inr f ↦
        let (c', run, v', seen) = erase-Implements dec c k v f in
        (
          c',
          rw (f.indexed, remove, run, f.located.found, discard),
          v',
          rw (f.located.found, discard) seen,
        )
  ]

  -- The constructor refuses a limit of zero, and builds an empty shard otherwise.
  pub new-IsValid :
      (capacity max_bytes : ℕ)
      → 0 < capacity
      → 0 < max_bytes
      → Implements dec (new {K = K} {V = V} capacity max_bytes) (record {
        capacity = capacity;
        max_bytes = max_bytes;
        contents = [];
        hits = 0;
        misses = 0;
        evictions = 0;
      })
  unfolding new view entries total find_node
  new-IsValid capacity max_bytes p q = (
    empty capacity max_bytes,
    rw (pos-==-zero capacity p, new, pos-==-zero max_bytes q),
    record {
      counts = record {
        links = record { linked = λ k. refl; distinct = tt; fresh = tt };
        counted = refl;
      };
      capacity_pos = p;
      bytes_pos = q;
      within = omega arith;
      budget = omega arith;
    },
    refl,
  )

  -- `stats_.bytes += bytes`
  abbrev charge : Cache K V → ℕ → Cache K V
  charge c n = record c { stats = record c.stats { bytes = c.stats.bytes + n } }

  charge-IsCounted :
      (c' : Cache K V) {c : Cache K V} {e : Entry K V}
      → Links dec e c c'
      → IsCounted dec (charge c' e.bytes)
  charge-IsCounted c' t = record {
    links = record { linked = t.links.linked; distinct = t.links.distinct; fresh = t.links.fresh };
    counted = t.counted;
  }

  view-charge : (c : Cache K V) (n : ℕ) → view (charge c n) ≡ view c
  unfolding view
  view-charge c n = refl

  module _ (now : ℕ) (e : Entry K V) (c : Cache K V) (v : IsValid dec c) where
    store-expired :
        expired now e ≡ true → Implements dec (store dec now e c) (insert dec now e (view c))
    unfolding store insert
    store-expired old = elim (index_cases dec c e.key v.counts.links) [
      | inl (h, nf) ↦ (
        c,
        rw (old, store, h),
        v,
        rw (old, insert)
            (unfold forget view in rw (remove_key_absent dec e.key (entries c.items) nf)),
      )
      | inr f ↦
          let (c', run, v', seen) = erase-Implements dec c e.key v f in
          (c', rw (old, store, f.indexed, run), v', rw (old, insert) seen)
    ]

    store_live :
        expired now e ≡ false → Implements dec (store dec now e c) (insert dec now e (view c))
    unfolding store insert shrink
    store_live live =
        let (c', run, t) = link_lem dec e c v.counts in
        let (r, run', v', seen) =
          evict_lem dec (suc (length c'.items)) (charge c' e.bytes) (charge-IsCounted c' t)
            (omega arith) in
        let s = record (view c) { contents = e ∷ remove_key dec e.key (entries c.items) } in
        let same : view r ≡ shrink s = seen ∙ ap shrink (view-charge c' e.bytes ∙ t.viewed) in
        (
          r,
          rw (live, store, run) run',
          IsValid-of_view dec c r (shrink s) v v' same (unfold view in refl) (unfold view in refl)
              (unfold view in length-trim-le _ _ s.contents)
              (unfold view in total-trim-le _ _ s.contents),
          rw (live, insert) (same ∙ unfold view in refl),
        )

    pub store-Implements : Implements dec (store dec now e c) (insert dec now e (view c))
    store-Implements = elim (Bool-cases (expired now e)) [
      | inl old ↦ store-expired old
      | inr live ↦ store_live live
    ]

module _ {ℓ} {K V : Type ℓ} (dec : Discrete K) (cost : Costs K V) where
  -- The entry that `put` makes.
  abbrev pub new_entry : K → V → ℕ → Entry K V
  new_entry key value expires = record {
    key = key;
    value = value;
    expires = expires;
    bytes = cost_of dec cost key value;
  }

  -- On a valid shard, `put` of an entry that `canStore` accepts returns a valid shard whose view is
  -- that of the contract: the entry is at the front, or the key is dropped if the entry has
  -- expired, and the least recently used entries are gone until both limits hold. An entry that
  -- `canStore` refuses makes `put` throw `length_error`.
  pub put-Implements :
      (now : ℕ) (key : K) (value : V) (expires : ℕ) (c : Cache K V)
      → IsValid dec c
      → (can_store dec cost c key value ≡ true
          → Implements dec
              (put dec cost now key value expires c)
              (insert dec now (new_entry key value expires) (view c)))
        × (can_store dec cost c key value ≡ false
            → put dec cost now key value expires c ≡ throws Exception.length_error)
  unfolding put can_store
  put-Implements now key value expires c v = (
    λ h. rw (fits h) (store-Implements dec now (new_entry key value expires) c v),
    λ h. rw (bulky h),
  )
    where
      fits :
          leb (cost_of dec cost key value) c.max_bytes ≡ true
          → ltb c.max_bytes (cost_of dec cost key value) ≡ false
      fits h = ground arith

      bulky :
          leb (cost_of dec cost key value) c.max_bytes ≡ false
          → ltb c.max_bytes (cost_of dec cost key value) ≡ true
      bulky h = ground arith
