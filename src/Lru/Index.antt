-- ===== src/Lru/Index.antt =====
-- What the index of a shard finds, and the invariant under the updates of the methods.
use kvrpc.Base.{
  if_pos, if_neg, ℕ, ◌≤◌, ◌<◌, ◌≡◌, refl, sym, ap, subst, ◌∙◌, ◌⊎◌, inl, inr, ◌∷◌, none, some,
  length, Option-cases, arith,
}
use kvrpc.Lru.{Entry, Cache, erase, erase_node}
use kvrpc.Lru.Entries.{find, total, total-remove_key}
use kvrpc.Lru.Nodes.{
  entries, find_node, Located, locate, find_of_none, Differs-All, erase_node_gone, absent_of_none,
  erase_node-Distinct, find_node-lt, All-erase_node,
}
use kvrpc.Lru.Shard.{Shard, view, forget, IsLinked, IsCounted, IsValid, Implements}
use kvrpc.Lru.Steps.{erase_lem}

module _ {ℓ} {K V : Type ℓ} (dec : Discrete K) where
  -- The index either misses, and no entry has the key, or it leads to the entry of the key.
  pub record Found (c : Cache K V) (k : K) : Type ℓ where
    pub node : ℕ
    pub entry : Entry K V
    pub indexed : c.index k ≡ some node
    pub located : Located dec k node c.items entry

  pub index_cases :
      (c : Cache K V) (k : K)
      → IsLinked dec c
      → ((c.index k ≡ none) × (find dec k (entries c.items) ≡ none)) ⊎ Found c k
  index_cases c k v = elim (Option-cases (c.index k)) [
    | inl h ↦ inl (h, find_of_none dec k c.items (sym (v.linked k) ∙ h))
    | inr (i, h) ↦
        let (e, t) = locate dec k c.items v.distinct (sym (v.linked k) ∙ h) in
        inr (record { node = i; entry = e; indexed = h; located = t })
  ]

  -- The limits hold of a smaller content under the same limits.
  pub IsValid-of_view :
      (c c' : Cache K V) (s : Shard K V)
      → IsValid dec c
      → IsCounted dec c'
      → view c' ≡ s
      → s.capacity ≡ c.capacity
      → s.max_bytes ≡ c.max_bytes
      → length s.contents ≤ c.capacity
      → total s.contents ≤ c.max_bytes
      → IsValid dec c'
  unfolding view
  IsValid-of_view c c' s v counts seen p q n m =
      let cap_same = ap (λ (r : Shard K V). r.capacity) seen in
      let max_same = ap (λ (r : Shard K V). r.max_bytes) seen in
      let same_length = ap (λ (r : Shard K V). length r.contents) seen in
      let same_total = ap (λ (r : Shard K V). total r.contents) seen in
      record {
        counts = counts;
        capacity_pos = omega (arith, v.capacity_pos);
        bytes_pos = omega (arith, v.bytes_pos);
        within = omega arith;
        budget = omega arith;
      }

  -- Erasing the entry of an indexed key.
  pub erase-Implements :
      (c : Cache K V) (k : K)
      → IsValid dec c
      → (f : Found c k) → Implements dec (erase dec f.node c) (forget dec k (view c))
  unfolding forget view
  erase-Implements c k v f =
      let (c', run, v', seen) = erase_lem dec k f.node c v.counts f.indexed in
      let size = total-remove_key dec k (entries c.items) f.located.found in
      (
        c',
        run,
        IsValid-of_view c c' _ v v' seen refl refl (omega (arith, v.within))
            (omega (arith, v.budget)),
        seen,
      )

  -- The counters are no part of the invariant.
  pub recount :
      (c : Cache K V) (hits misses : ℕ)
      → IsValid dec c
      → IsValid dec (record c { stats = record c.stats { hits = hits; misses = misses } })
  recount c hits misses v = record {
    counts = record {
      links = record {
        linked = v.counts.links.linked;
        distinct = v.counts.links.distinct;
        fresh = v.counts.links.fresh;
      };
      counted = v.counts.counted;
    };
    capacity_pos = v.capacity_pos;
    bytes_pos = v.bytes_pos;
    within = v.within;
    budget = v.budget;
  }

  -- Moving the node of a key to the front.
  front-IsLinked :
      (c : Cache K V) (k : K)
      → IsLinked dec c
      → (f : Found c k)
      → IsLinked dec
          (record c { items = record { id = f.node; entry = f.entry } ∷ erase_node f.node c.items })
  unfolding find_node
  front-IsLinked c k v f =
      let t = f.located in
      let e = f.entry in
      let rest = erase_node f.node c.items in
      let at = sym (v.linked k) ∙ f.indexed in
      record {
        linked = λ q. elim (dec e.key q) [
          | yes p ↦ rw (if_pos _ p) (ap c.index (sym p ∙ t.key) ∙ f.indexed)
          | no p ↦ rw (if_neg _ p) (v.linked q ∙ sym (t.keeps q (λ r. p (t.key ∙ sym r))))
        ];
        distinct = (
          Differs-All _ rest (erase_node_gone f.node c.items v.distinct) (
              absent_of_none dec e.key rest
                (subst (λ q. find_node dec q rest ≡ none) (sym t.key) t.forgets)),
          erase_node-Distinct f.node c.items v.distinct,
        );
        fresh = (
          find_node-lt dec k c.next_node c.items v.fresh at,
          All-erase_node (λ n. n.id < c.next_node) f.node c.items v.fresh,
        );
      }

  pub front-IsValid :
      (c : Cache K V) (k : K)
      → IsValid dec c
      → (f : Found c k)
      → IsValid dec
          (record c { items = record { id = f.node; entry = f.entry } ∷ erase_node f.node c.items })
  unfolding entries total
  front-IsValid c k v f =
      let size = total-remove_key dec k (entries c.items) f.located.found in
      let shorter = ap length f.located.erased in
      let lighter = ap total f.located.erased in
      record {
        counts = record {
          links = front-IsLinked c k v.counts.links f;
          counted = omega (arith, v.counts.counted);
        };
        capacity_pos = v.capacity_pos;
        bytes_pos = v.bytes_pos;
        within = omega (arith, v.within);
        budget = omega (arith, v.budget);
      }
