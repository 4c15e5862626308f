-- ===== src/Lru/Steps.antt =====
-- The parts of the operations of a shard: erasing by iterator, linking a new item, and the eviction
-- loop.
use kvrpc.Base.{
  ℕ, suc, ◌+◌, ◌<◌, ◌≡◌, sym, ap, subst, ◌∙◌, inl, inr, List, [], ◌∷◌, ite, if_pos, if_neg, none,
  some, size_sub, ◌-size◌, Option-cases, arith, ok, ℕ_discrete,
}
use kvrpc.Lru.{Entry, Node, Cache, deref, erase_node, erase, link, update}
use kvrpc.Lru.Entries.{remove_key, total, total-remove_key, remove_key_absent}
use kvrpc.Lru.Nodes.{
  entries, find_node, Located, locate, All-erase_node, erase_node-Distinct, absent_of_none,
  find_of_none, find_node-lt, Differs-new, Below,
}
use kvrpc.Lru.Shard.{view, forget, IsLinked, IsCounted}

Below-suc {ℓ} : {K V : Type ℓ} (i : ℕ) (ns : List (Node K V)) → Below i ns → Below (suc i) ns
Below-suc i [] b = tt
Below-suc i (n ∷ ns) b = (omega arith, Below-suc i ns b.1)

module _ {ℓ} {K V : Type ℓ} (dec : Discrete K) where
  update_lem :
      (k : K) (i : ℕ) (c : Cache K V) (e : Entry K V)
      → ((q : K) → c.index q ≡ find_node dec q c.items)
      → Located dec k i c.items e
      → (q : K) → update dec c.index e.key none q ≡ find_node dec q (erase_node i c.items)
  update_lem k i c e linked t q = elim (dec e.key q) [
    | yes p ↦
        rw (if_pos _ p) (
          sym
            (subst (λ q. find_node dec q (erase_node i c.items) ≡ none) (sym t.key ∙ p) t.forgets))
    | no p ↦ rw (if_neg _ p) (linked q ∙ sym (t.keeps q (λ r. p (t.key ∙ sym r))))
  ]

  pub erase_lem :
      (k : K) (i : ℕ) (c : Cache K V)
      → IsCounted dec c
      → c.index k ≡ some i
      → (c' : Cache K V) × (erase dec i c ≡ ok c')
        × IsCounted dec c'
        × (view c' ≡ forget dec k (view c))
  unfolding erase view forget
  erase_lem k i c v h =
      let (e, t) = locate dec k c.items v.links.distinct (sym (v.links.linked k) ∙ h) in
      let size = total-remove_key dec k (entries c.items) t.found in
      (
        record c {
          stats = record c.stats { bytes = c.stats.bytes -size e.bytes };
          index = update dec c.index e.key none;
          items = erase_node i c.items;
        },
        rw (t.reads, erase),
        record {
          links = record {
            linked = update_lem k i c e v.links.linked t;
            distinct = erase_node-Distinct i c.items v.links.distinct;
            fresh = All-erase_node (λ n. n.id < c.next_node) i c.items v.links.fresh;
          };
          counted = rw (t.erased, size_sub c.stats.bytes e.bytes (omega arith)) (omega arith);
        },
        rw t.erased,
      )

  -- Linking a new entry puts it in front and drops the old entry of its key; the bytes of the new
  -- one are not yet counted.
  pub record Links (e : Entry K V) (c c' : Cache K V) : Type ℓ where
    pub links : IsLinked dec c'
    pub counted : c'.stats.bytes + e.bytes ≡ total (entries c'.items)
    pub viewed : view c' ≡ record (view c) { contents = e ∷ remove_key dec e.key (entries c.items) }

  link-none :
      (e : Entry K V) (c : Cache K V)
      → IsCounted dec c
      → c.index e.key ≡ none
      → (c' : Cache K V) × (link dec e c ≡ ok c') × Links e c c'
  unfolding link view entries find_node total
  link-none e c v h =
      let i = c.next_node in
      let absent = sym (v.links.linked e.key) ∙ h in
      let node : Node K V = record { id = i; entry = e } in
      (
        record c {
          items = node ∷ c.items;
          index = update dec c.index e.key (some i);
          next_node = suc i;
        },
        rw (h, link),
        record {
          links = record {
            linked = λ q. ap (ite (dec e.key q) (some i)) (v.links.linked q);
            distinct = (
              Differs-new dec node c.items v.links.fresh (absent_of_none dec e.key c.items absent),
              v.links.distinct,
            );
            fresh = (omega arith, Below-suc i c.items v.links.fresh);
          };
          counted = omega (arith, v.counted);
          viewed = rw (
              remove_key_absent dec e.key (entries c.items)
                (find_of_none dec e.key c.items absent));
        },
      )

  deref_skip :
      (n : Node K V) (ns : List (Node K V)) (j : ℕ)
      → ¬ (n.id ≡ j)
      → (deref j (n ∷ ns) ≡ deref j ns) × (erase_node j (n ∷ ns) ≡ n ∷ erase_node j ns)
  unfolding deref erase_node
  deref_skip n ns j h = (if_neg (ℕ_discrete n.id j) h _ _, if_neg (ℕ_discrete n.id j) h _ _)

  link_run :
      (e old : Entry K V) (c : Cache K V) (j : ℕ)
      → c.index e.key ≡ some j
      → ¬ (c.next_node ≡ j)
      → deref j c.items ≡ some old
      → link dec e c
        ≡ ok (record c {
          items = record { id = c.next_node; entry = e } ∷ erase_node j c.items;
          index = update dec c.index e.key (some c.next_node);
          stats = record c.stats { bytes = c.stats.bytes -size old.bytes };
          next_node = suc c.next_node;
        })
  unfolding link
  link_run e old c j h other reads =
      let (same, kept) = deref_skip (record { id = c.next_node; entry = e }) c.items j other in
      rw (h, link, same, reads, kept)

  link-some :
      (e : Entry K V) (c : Cache K V) (j : ℕ)
      → IsCounted dec c
      → c.index e.key ≡ some j
      → (c' : Cache K V) × (link dec e c ≡ ok c') × Links e c c'
  unfolding view entries find_node total
  link-some e c j v h =
      let i = c.next_node in
      let node : Node K V = record { id = i; entry = e } in
      let at = sym (v.links.linked e.key) ∙ h in
      let (old, t) = locate dec e.key c.items v.links.distinct at in
      let earlier = find_node-lt dec e.key i c.items v.links.fresh at in
      let other : ¬ (i ≡ j) = omega arith in
      let size = total-remove_key dec e.key (entries c.items) t.found in
      (
        record c {
          items = node ∷ erase_node j c.items;
          index = update dec c.index e.key (some i);
          stats = record c.stats { bytes = c.stats.bytes -size old.bytes };
          next_node = suc i;
        },
        link_run e old c j h other t.reads,
        record {
          links = record {
            linked = λ q. elim (dec e.key q) [
              | yes p ↦ rw (if_pos _ p, if_pos _ p)
              | no p ↦
                  rw (if_neg _ p, if_neg _ p) (v.links.linked q ∙ sym (t.keeps q (λ r. p (sym r))))
            ];
            distinct = (
              Differs-new dec node (erase_node j c.items)
                  (All-erase_node (λ n. n.id < i) j c.items v.links.fresh)
                  (absent_of_none dec e.key (erase_node j c.items) t.forgets),
              erase_node-Distinct j c.items v.links.distinct,
            );
            fresh = (
              omega arith,
              Below-suc i (erase_node j c.items)
                  (All-erase_node (λ n. n.id < i) j c.items v.links.fresh),
            );
          };
          counted = rw (t.erased, size_sub c.stats.bytes old.bytes (omega arith)) (omega arith);
          viewed = rw t.erased;
        },
      )

  pub link_lem :
      (e : Entry K V) (c : Cache K V)
      → IsCounted dec c
      → (c' : Cache K V) × (link dec e c ≡ ok c') × Links e c c'
  link_lem e c v = elim (Option-cases (c.index e.key)) [
    | inl h ↦ link-none e c v h
    | inr (j, h) ↦ link-some e c j v h
  ]
