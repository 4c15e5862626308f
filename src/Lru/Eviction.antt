-- ===== src/Lru/Eviction.antt =====
-- The eviction loop of `put`.
use kvrpc.Base.{
  ℕ, zero, suc, ◌+◌, ◌≤◌, ◌<◌, ◌≡◌, refl, sym, ap, subst, ◌∙◌, ◌⊎◌, inl, inr, true, false, List, [],
  ◌∷◌, ◌++◌, length, length-append, Bool-cases, arith, ok,
}
use kvrpc.Lru.{Entry, Node, Cache, erase, evict, over, count_eviction}
use kvrpc.Lru.Entries.{
  DistinctKeys, remove_key, total, trim, remove_key_last, trim-snoc, trim_of_fits,
  length-trim-le_self,
}
use kvrpc.Lru.Nodes.{entries, length-entries, Distinct, Last, last_lem, Distinct-DistinctKeys}
use kvrpc.Lru.Shard.{Shard, view, shrink, forget, IsCounted}
use kvrpc.Lru.Steps.{erase_lem}

module _ {ℓ} {K V : Type ℓ} where
  pub shrink_fits :
      (s : Shard K V)
      → length s.contents ≤ s.capacity
      → total s.contents ≤ s.max_bytes
      → shrink s ≡ s
  unfolding shrink
  shrink_fits s n m =
      rw (trim_of_fits s.capacity s.max_bytes s.contents n m)
        (ap (λ k. record s { evictions = k }) (omega arith))

  shrink_last :
      (s : Shard K V) (es : List (Entry K V)) (e : Entry K V)
      → s.contents ≡ es ++ e ∷ []
      → (length es + 1 ≤ s.capacity → total es + e.bytes ≤ s.max_bytes → ⊥)
      → shrink (record s { contents = es; evictions = s.evictions + 1 }) ≡ shrink s
  unfolding shrink
  shrink_last s es e p h =
      let same = trim-snoc s.capacity s.max_bytes es e h in
      rw (p, same)
        (ap (λ k. record s { contents = trim s.capacity s.max_bytes es; evictions = k })
          (omega (arith, length-append es (e ∷ []), length-trim-le_self s.capacity s.max_bytes es)))

  Last-cases : (dec : Discrete K) (ns : List (Node K V)) → Distinct ns → (ns ≡ []) ⊎ Last dec ns
  Last-cases dec [] d = inl refl
  Last-cases dec (n ∷ ns) d = inr (last_lem dec n ns d)

module _ {ℓ} {K V : Type ℓ} (dec : Discrete K) where
  -- Erasing at the end drops the last entry.
  erase-Last :
      (c : Cache K V)
      → IsCounted dec c
      → (t : Last dec c.items)
      → (c' : Cache K V) × (erase dec t.id c ≡ ok c')
        × IsCounted dec c'
        × (view c' ≡ record (view c) { contents = t.before })
  unfolding view forget
  erase-Last c v t =
      let (c', run, v', seen) =
        erase_lem dec t.entry.key t.id c v (v.links.linked t.entry.key ∙ t.indexed) in
      let keys =
        subst (DistinctKeys dec) t.splits (Distinct-DistinctKeys dec c.items v.links.distinct) in
      (
        c',
        run,
        v',
        seen
            ∙ ap (λ es. record (view c) { contents = es })
                (ap (remove_key dec t.entry.key) t.splits
                  ∙ remove_key_last dec t.before t.entry keys),
      )

  pub total-snoc :
      (es : List (Entry K V)) (e : Entry K V) → total (es ++ e ∷ []) ≡ total es + e.bytes
  unfolding total
  total-snoc [] e = omega arith
  total-snoc (x ∷ es) e = omega (arith, total-snoc es e)

  not_over :
      (c : Cache K V)
      → IsCounted dec c
      → over c ≡ false
      → (length (entries c.items) ≤ c.capacity) × (total (entries c.items) ≤ c.max_bytes)
  not_over c v h = ground (arith, length-entries c.items)

  over-snoc :
      (c : Cache K V) (t : Last dec c.items)
      → IsCounted dec c
      → over c ≡ true
      → length t.before + 1 ≤ c.capacity
      → total t.before + t.entry.bytes ≤ c.max_bytes
      → ⊥
  over-snoc c t v h m n = ground (
    arith,
    length-entries c.items,
    ap length t.splits,
    ap total t.splits,
    length-append t.before (t.entry ∷ []),
    total-snoc t.before t.entry,
  )

  over_empty : (c : Cache K V) → IsCounted dec c → c.items ≡ [] → over c ≡ false
  unfolding entries total
  over_empty c v e =
      ground (arith, ap length e, ap (λ (ns : List (Node K V)). total (entries ns)) e, v.counted)

  count_eviction-IsCounted :
      (c : Cache K V) → IsCounted dec c → IsCounted dec (count_eviction dec c)
  count_eviction-IsCounted c v = record {
    links = record { linked = v.links.linked; distinct = v.links.distinct; fresh = v.links.fresh };
    counted = v.counted;
  }

  module _ (c c' : Cache K V) (t : Last dec c.items) where
    view_next :
        IsCounted dec c
        → over c ≡ true
        → view c' ≡ record (view c) { contents = t.before }
        → shrink (view (count_eviction dec c')) ≡ shrink (view c)
    unfolding view
    view_next v more seen =
        ap (λ (s : Shard K V). shrink (record s { evictions = s.evictions + 1 })) seen
        ∙ shrink_last (view c) t.before t.entry t.splits (over-snoc c t v more)

    shorter_next :
        view c' ≡ record (view c) { contents = t.before } → suc (length c'.items) ≡ length c.items
    unfolding view
    shorter_next seen = omega (
      arith,
      ap (λ (s : Shard K V). length s.contents) seen,
      length-entries c'.items,
      length-entries c.items,
      ap length t.splits,
      length-append t.before (t.entry ∷ []),
    )

  -- What a round does to a cache over a limit.
  record Round (c : Cache K V) (fuel : ℕ) : Type ℓ where
    next : Cache K V
    counts : IsCounted dec next
    run : evict dec (suc fuel) c ≡ evict dec fuel next
    viewed : shrink (view next) ≡ shrink (view c)
    shorter : suc (length next.items) ≡ length c.items

  round :
      (fuel : ℕ) (c : Cache K V) → IsCounted dec c → over c ≡ true → Last dec c.items → Round c fuel
  unfolding evict
  round fuel c v more t =
      let (c', run, v', seen) = erase-Last c v t in
      let counted = ap (λ (s : Shard K V). record s { evictions = s.evictions + 1 }) seen in
      record {
        next = count_eviction dec c';
        counts = count_eviction-IsCounted c' v';
        run = rw (more, evict, t.is_last, run);
        viewed = view_next c c' t v more seen;
        shorter = shorter_next c c' t seen;
      }

  -- With more fuel than items the eviction loop ends, keeps the index and the byte count in step,
  -- and leaves the longest prefix of the entries, in the order of their use, that fits both limits.
  pub evict_lem :
      (fuel : ℕ) (c : Cache K V)
      → IsCounted dec c
      → length c.items < fuel
      → (c' : Cache K V) × (evict dec fuel c ≡ ok c')
        × IsCounted dec c'
        × (view c' ≡ shrink (view c))
  evict_lem zero c v h = absurd (omega arith)
  evict_lem (suc fuel) c v h = elim (Bool-cases (over c)) [
    | inr done ↦
        let (n, m) = not_over c v done in
        (
          c,
          unfold evict in rw (done, evict),
          v,
          sym (shrink_fits (view c) (unfold view in n) (unfold view in m)),
        )
    | inl more ↦ elim (Last-cases dec c.items v.links.distinct) [
      | inl empty ↦ cc (over_empty c v empty, more)
      | inr t ↦
          let r = round fuel c v more t in
          let (c', run, v', seen) = evict_lem fuel r.next r.counts (omega (arith, r.shorter)) in
          (c', r.run ∙ run, v', seen ∙ r.viewed)
    ]
  ]
