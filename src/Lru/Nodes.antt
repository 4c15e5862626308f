-- ===== src/Lru/Nodes.antt =====
-- The list of nodes of a shard and its iterators: what following and erasing the iterator of a key
-- does, as long as no two nodes share an identity or a key.
use kvrpc.Base.{
  ℕ, suc, ◌<◌, ◌≡◌, ◌≢◌, refl, ap, List, [], ◌∷◌, ◌++◌, ite, if_pos, if_neg, sym, subst, Option,
  none, some, length, All, arith, ℕ_discrete,
}
use kvrpc.Lru.{Entry, Node, deref, erase_node, last_node}
use kvrpc.Lru.Entries.{find, remove_key, DistinctKeys, find_absent}

module _ {ℓ} {K V : Type ℓ} where
  unfoldable pub entries : List (Node K V) → List (Entry K V)
  entries [] = []
  entries (n ∷ ns) = n.entry ∷ entries ns

  -- Another node: another identity and another key.
  pub record Differs (n m : Node K V) : Type ℓ where
    pub id : m.id ≢ n.id
    pub key : m.entry.key ≢ n.entry.key

  abbrev pub Distinct : List (Node K V) → Type ℓ
  Distinct [] = Unit
  Distinct (n ∷ ns) = All (Differs n) ns × Distinct ns

  -- Identities below `next` only.
  abbrev pub Below : ℕ → List (Node K V) → Type 0
  Below next = All (λ n. n.id < next)

  pub length-entries : (ns : List (Node K V)) → length (entries ns) ≡ length ns
  unfolding entries
  length-entries [] = refl
  length-entries (n ∷ ns) = ap suc (length-entries ns)

  pub entries-append : (ns ms : List (Node K V)) → entries (ns ++ ms) ≡ entries ns ++ entries ms
  unfolding entries
  entries-append [] ms = refl
  entries-append (n ∷ ns) ms = ap (◌∷◌ n.entry) (entries-append ns ms)

  pub All-erase_node {κ} :
      (P : Node K V → Type κ) (i : ℕ) (ns : List (Node K V)) → All P ns → All P (erase_node i ns)
  unfolding erase_node
  All-erase_node P i [] h = tt
  All-erase_node P i (n ∷ ns) h = ground (arith, All-erase_node P i ns)

  pub erase_node-Distinct :
      (i : ℕ) (ns : List (Node K V)) → Distinct ns → Distinct (erase_node i ns)
  unfolding erase_node
  erase_node-Distinct i [] d = tt
  erase_node-Distinct i (n ∷ ns) d =
      ground (arith, erase_node-Distinct i ns d.1, All-erase_node (Differs n) i ns d.0)

  All-id-ne : (n : Node K V) (ns : List (Node K V)) → All (Differs n) ns → All (λ m. m.id ≢ n.id) ns
  All-id-ne n [] d = tt
  All-id-ne n (m ∷ ns) d = (d.0.id, All-id-ne n ns d.1)

  -- An erased identity is gone.
  pub erase_node_gone :
      (i : ℕ) (ns : List (Node K V)) → Distinct ns → All (λ m. m.id ≢ i) (erase_node i ns)
  unfolding erase_node
  erase_node_gone i [] d = tt
  erase_node_gone i (n ∷ ns) d = elim (ℕ_discrete n.id i) [
    | yes p ↦ rw (if_pos _ p) (subst (λ j. All (λ m. m.id ≢ j) ns) p (All-id-ne n ns d.0))
    | no p ↦ rw (if_neg _ p) (p, erase_node_gone i ns d.1)
  ]

  pub Differs-All :
      (n : Node K V) (ns : List (Node K V))
      → All (λ m. m.id ≢ n.id) ns
      → All (λ m. m.entry.key ≢ n.entry.key) ns
      → All (Differs n) ns
  Differs-All n [] p q = tt
  Differs-All n (m ∷ ns) p q = (record { id = p.0; key = q.0 }, Differs-All n ns p.1 q.1)

module _ {ℓ} {K V : Type ℓ} (dec : Discrete K) where
  -- The iterator to the node of a key.
  unfoldable pub find_node : K → List (Node K V) → Option ℕ
  find_node k [] = none
  find_node k (n ∷ ns) = ite (dec n.entry.key k) (some n.id) (find_node k ns)

  -- Following the iterator of a key reads its entry, and erasing there drops that entry.
  pub record Located (k : K) (i : ℕ) (ns : List (Node K V)) (e : Entry K V) : Type ℓ where
    pub reads : deref i ns ≡ some e
    pub key : e.key ≡ k
    pub found : find dec k (entries ns) ≡ some e
    pub erased : entries (erase_node i ns) ≡ remove_key dec k (entries ns)
    pub forgets : find_node k (erase_node i ns) ≡ none
    pub keeps : (q : K) → q ≢ k → find_node q (erase_node i ns) ≡ find_node q ns

  find_node-ne :
      (n : Node K V) (k : K) (ns : List (Node K V)) {i : ℕ}
      → All (Differs n) ns
      → find_node k ns ≡ some i
      → i ≢ n.id
  unfolding find_node
  find_node-ne n k [] d e = cc
  find_node-ne n k (m ∷ ns) {i} d e = ground (arith, find_node-ne n k ns {i = i} d.1)

  find_node_absent :
      (n : Node K V) (ns : List (Node K V)) → All (Differs n) ns → find_node n.entry.key ns ≡ none
  unfolding find_node
  find_node_absent n [] d = refl
  find_node_absent n (m ∷ ns) d = ground (arith, find_node_absent n ns d.1)

  module _ (n : Node K V) (ns : List (Node K V)) (apart : All (Differs n) ns) where
    locate_here : Located n.entry.key n.id (n ∷ ns) n.entry
    unfolding deref erase_node entries find remove_key find_node
    locate_here = record {
      reads = ground arith;
      key = refl;
      found = ground arith;
      erased = rw (if_pos (ℕ_discrete n.id n.id) refl, if_pos (dec n.entry.key n.entry.key) refl);
      forgets = rw (if_pos (ℕ_discrete n.id n.id) refl) (find_node_absent n ns apart);
      keeps = λ q h. ground arith;
    }

    locate_there :
        (k : K) (i : ℕ) (e : Entry K V)
        → ¬ (n.entry.key ≡ k)
        → i ≢ n.id
        → Located k i ns e
        → Located k i (n ∷ ns) e
    unfolding deref erase_node entries find remove_key find_node
    locate_there k i e p q t =
        let r : ¬ (n.id ≡ i) = λ s. q (sym s) in
        record {
          reads = rw (if_neg _ r) t.reads;
          key = t.key;
          found = rw (if_neg _ p) t.found;
          erased = rw (if_neg _ r, if_neg _ p) (ap (◌∷◌ n.entry) t.erased);
          forgets = rw (if_neg _ r, if_neg _ p) t.forgets;
          keeps = λ j h. rw (if_neg _ r) (ap (ite (dec n.entry.key j) (some n.id)) (t.keeps j h));
        }

  pub locate :
      (k : K) (ns : List (Node K V)) {i : ℕ}
      → Distinct ns
      → find_node k ns ≡ some i
      → (e : Entry K V) × Located k i ns e
  unfolding find_node
  locate k [] d h = cc
  locate k (n ∷ ns) {i} d h = elim (dec n.entry.key k) [
    | yes p ↦
        let h' : some n.id ≡ some i = rw (if_pos (dec n.entry.key k) p) at h in
        let q : n.id ≡ i = ground arith in
        let here = subst (λ a. Located n.entry.key a (n ∷ ns) n.entry) q (locate_here n ns d.0) in
        (n.entry, subst (λ a. Located a i (n ∷ ns) n.entry) p here)
    | no p ↦
        let h' : find_node k ns ≡ some i = rw (if_neg (dec n.entry.key k) p) at h in
        let (e, t) = locate k ns d.1 h' in
        (e, locate_there n ns d.0 k i e p (find_node-ne n k ns d.0 h') t)
  ]

  entries-keys :
      (k : K) (ns : List (Node K V))
      → All (λ n. n.entry.key ≢ k) ns
      → All (λ e. e.key ≢ k) (entries ns)
  unfolding entries
  entries-keys k [] h = tt
  entries-keys k (n ∷ ns) h = (h.0, entries-keys k ns h.1)

  Differs-keys :
      (n : Node K V) (ns : List (Node K V))
      → All (Differs n) ns
      → All (λ m. m.entry.key ≢ n.entry.key) ns
  Differs-keys n [] h = tt
  Differs-keys n (m ∷ ns) h = (h.0.key, Differs-keys n ns h.1)

  pub Distinct-DistinctKeys : (ns : List (Node K V)) → Distinct ns → DistinctKeys dec (entries ns)
  unfolding entries
  Distinct-DistinctKeys [] d = tt
  Distinct-DistinctKeys (n ∷ ns) d =
      (entries-keys n.entry.key ns (Differs-keys n ns d.0), Distinct-DistinctKeys ns d.1)

  -- The last node is the one that its key leads to.
  pub record Last (ns : List (Node K V)) : Type ℓ where
    pub id : ℕ
    pub entry : Entry K V
    pub before : List (Entry K V)
    pub is_last : last_node ns ≡ some id
    pub indexed : find_node entry.key ns ≡ some id
    pub splits : entries ns ≡ before ++ entry ∷ []

  pub last_lem : (n : Node K V) (ns : List (Node K V)) → Distinct (n ∷ ns) → Last (n ∷ ns)
  unfolding last_node find_node entries
  last_lem n [] d = record {
    id = n.id;
    entry = n.entry;
    before = [];
    is_last = refl;
    indexed = if_pos (dec n.entry.key n.entry.key) refl _ _;
    splits = refl;
  }
  last_lem n (m ∷ ns) d =
      let t = last_lem m ns d.1 in
      record {
        id = t.id;
        entry = t.entry;
        before = n.entry ∷ t.before;
        is_last = t.is_last;
        indexed = elim (dec n.entry.key t.entry.key) [
          | yes p ↦
              let gone =
                subst (λ q. find_node q (m ∷ ns) ≡ none) p (find_node_absent n (m ∷ ns) d.0) in
              cc (gone, t.indexed)
          | no p ↦ rw (if_neg _ p) t.indexed
        ];
        splits = ap (◌∷◌ n.entry) t.splits;
      }

  pub absent_of_none :
      (k : K) (ns : List (Node K V)) → find_node k ns ≡ none → All (λ n. n.entry.key ≢ k) ns
  unfolding find_node
  absent_of_none k [] h = tt
  absent_of_none k (n ∷ ns) h = elim (dec n.entry.key k) [
    | yes p ↦ let h' : some n.id ≡ none = rw (if_pos (dec n.entry.key k) p) at h in cc
    | no p ↦
        let h' : find_node k ns ≡ none = rw (if_neg (dec n.entry.key k) p) at h in
        (p, absent_of_none k ns h')
  ]

  pub find_of_none :
      (k : K) (ns : List (Node K V)) → find_node k ns ≡ none → find dec k (entries ns) ≡ none
  find_of_none k ns h = find_absent dec k (entries ns) (entries-keys k ns (absent_of_none k ns h))

  pub find_node-lt :
      (k : K) (next : ℕ) (ns : List (Node K V)) {i : ℕ}
      → Below next ns
      → find_node k ns ≡ some i
      → i < next
  unfolding find_node
  find_node-lt k next [] b h = cc
  find_node-lt k next (n ∷ ns) {i} b h = ground (arith, find_node-lt k next ns {i = i} b.1)

  -- A node with a new identity and a new key differs from all.
  pub Differs-new :
      (new : Node K V) (ns : List (Node K V))
      → Below new.id ns
      → All (λ n. n.entry.key ≢ new.entry.key) ns
      → All (Differs new) ns
  Differs-new new [] b h = tt
  Differs-new new (n ∷ ns) b h =
      (record { id = omega arith; key = h.0 }, Differs-new new ns b.1 h.1)
