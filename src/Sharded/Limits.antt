-- ===== src/Sharded/Limits.antt =====
-- How `ShardedCache` divides its limits among the shards.
use kvrpc.Base.{
  dec_lt, inl, inr, Bool-cases, ℕ, zero, suc, ◌+◌, ◌*◌, ◌/◌, ◌%◌, ◌≤◌, ◌<◌, min, ◌≡◌, refl, ap, ◌∙◌,
  List, [], ◌∷◌, length, All, ltb, ◌==◌, pos-==-zero, if◌then◌else◌, ok, throws, Exception, arith,
}
use native.Mathlib.Nat.{div-add-mod, mod-lt, mod-eq_of_lt, div-eq_of_lt, le-div_iff_mul-le}
use kvrpc.Lru
use kvrpc.Lru.{Cache}
use kvrpc.Lru.Shard.{Shard, view, IsValid}
use kvrpc.Lru.Calls.{new-IsValid}
use kvrpc.Sharded.{ShardedCache, share, new_shards, new}

-- The sum of the shares of `left` shards from `i` on.
unfoldable pub shares : ℕ → ℕ → ℕ → ℕ → ℕ
shares total n zero i = 0
shares total n (suc left) i = share total n i + shares total n left (i + 1)

step_share : (i r : ℕ) → (if ltb i r then 1 else 0) + min i r ≡ min (i + 1) r
step_share i r = ground arith

share_one : (total n i : ℕ) → total < n → i < total → 0 < share total n i
unfolding share
share_one total n i h lt = ground (arith, mod-eq_of_lt h)

share_none : (total n i : ℕ) → total < n → total ≤ i → share total n i ≡ 0
unfolding share
share_none total n i h le = ground (arith, mod-eq_of_lt h, div-eq_of_lt h)

-- The first `total % n` shards get one more.
pub shares_lem :
    (total n left i : ℕ)
    → shares total n left i + min i (total % n) ≡ left * (total / n) + min (i + left) (total % n)
unfolding shares share
shares_lem total n zero i = omega arith
shares_lem total n (suc left) i =
    omega (arith, step_share i (total % n), shares_lem total n left (i + 1))

-- The shares add up to the total: the division loses nothing.
pub shares_total : (total n : ℕ) → 0 < n → shares total n n 0 ≡ total
shares_total total n h = omega (arith, shares_lem total n n 0, div-add-mod total n, mod-lt total h)

quotient_pos : (total n : ℕ) → 0 < n → n ≤ total → 0 < total / n
quotient_pos total n h le = (le-div_iff_mul-le h).1 (omega arith)

pub share_pos : (total n i : ℕ) → 0 < n → n ≤ total → 0 < share total n i
unfolding share
share_pos total n i h le =
    omega (arith, div-add-mod total n, mod-lt total h, quotient_pos total n h le)

module _ {ℓ} {K V : Type ℓ} where
  unfoldable pub capacities : List (Cache K V) → ℕ
  capacities [] = 0
  capacities (c ∷ cs) = c.capacity + capacities cs

  unfoldable pub budgets : List (Cache K V) → ℕ
  budgets [] = 0
  budgets (c ∷ cs) = c.max_bytes + budgets cs

  capacity-view : (c : Cache K V) → (view c).capacity ≡ c.capacity
  unfolding view
  capacity-view c = refl

  max_bytes-view : (c : Cache K V) → (view c).max_bytes ≡ c.max_bytes
  unfolding view
  max_bytes-view c = refl

  new_no_bytes :
      (capacity n : ℕ) → n ≡ 0 → Lru.new {K = K} {V = V} capacity n ≡ throws Exception.bad_argument
  unfolding Lru.new
  new_no_bytes capacity n e = elim (Bool-cases (capacity == 0)) [
    | inl h ↦ rw (e, h, Lru.new)
    | inr h ↦ rw (e, h, Lru.new)
  ]

module _ {ℓ} {K V : Type ℓ} (dec : Discrete K) where
  -- What the constructor's loop builds from shard `i` on.
  pub record Built (capacity max_bytes n left i : ℕ) (cs : List (Cache K V)) : Type ℓ where
    pub count : length cs ≡ left
    pub valid : All (IsValid dec) cs
    pub entries : capacities cs ≡ shares capacity n left i
    pub bytes : budgets cs ≡ shares max_bytes n left i

  new_shards-Built :
      (capacity max_bytes n : ℕ)
      → 0 < n
      → n ≤ capacity
      → n ≤ max_bytes
      → (left i : ℕ)
      → (cs : List (Cache K V)) × (new_shards capacity max_bytes n left i ≡ ok cs)
        × Built capacity max_bytes n left i cs
  unfolding new_shards capacities budgets shares
  new_shards-Built capacity max_bytes n p q r zero i =
      ([], refl, record { count = refl; valid = tt; entries = refl; bytes = refl })
  new_shards-Built capacity max_bytes n p q r (suc left) i =
      let (c, made, v, seen) =
        new-IsValid dec (share capacity n i) (share max_bytes n i) (share_pos capacity n i p q)
          (share_pos max_bytes n i p r) in
      let (cs, rest, t) = new_shards-Built capacity max_bytes n p q r left (i + 1) in
      (
        c ∷ cs,
        rw (made, rest),
        record {
          count = ap suc t.count;
          valid = (v, t.valid);
          entries =
              omega (arith, capacity-view c, ap (λ (x : Shard K V). x.capacity) seen, t.entries);
          bytes =
              omega (arith, max_bytes-view c, ap (λ (x : Shard K V). x.max_bytes) seen, t.bytes);
        },
      )

  -- What the constructor makes: as many valid shards as keys can use, with the limits divided
  -- among them and nothing lost.
  pub record IsDivided (capacity num_shards max_bytes : ℕ) (s : ShardedCache K V) : Type ℓ where
    pub number : s.num_shards ≡ min capacity num_shards
    pub count : length s.shards ≡ s.num_shards
    pub valid : All (IsValid dec) s.shards
    pub entries : capacities s.shards ≡ capacity
    pub bytes : budgets s.shards ≡ max_bytes

  module _ (capacity num_shards max_bytes : ℕ) (p : 0 < capacity) (q : 0 < num_shards) where
    -- With positive capacity and shard count and a byte for every shard, the constructor returns
    -- the smaller of the two numbers of valid shards, whose capacities and byte budgets add up to
    -- the limits given.
    pub new-IsDivided :
        min capacity num_shards ≤ max_bytes
        → (s : ShardedCache K V) × (new capacity num_shards max_bytes ≡ ok s)
          × IsDivided capacity num_shards max_bytes s
    unfolding new
    new-IsDivided r =
        let n = min capacity num_shards in
        let (cs, made, t) =
          new_shards-Built capacity max_bytes n (omega arith) (omega arith) r n 0 in
        (
          record { num_shards = n; shards = cs },
          rw (pos-==-zero capacity p, new, pos-==-zero num_shards q, made),
          record {
            number = refl;
            count = t.count;
            valid = t.valid;
            entries = t.entries ∙ shares_total capacity n (omega arith);
            bytes = t.bytes ∙ shares_total max_bytes n (omega arith);
          },
        )

    starved :
        (n : ℕ)
        → 0 < n
        → n ≤ capacity
        → max_bytes < n
        → (left i : ℕ) → i + left ≡ n
        → i ≤ max_bytes
        → new_shards {K = K} {V = V} capacity max_bytes n left i ≡ throws Exception.bad_argument
    unfolding new_shards
    starved n p q h zero i e le = absurd (omega arith)
    starved n p q h (suc left) i e le = elim (dec_lt i max_bytes) [
      | yes lt ↦
          let (c, made, _, _) =
            new-IsValid {V = V} dec (share capacity n i) (share max_bytes n i)
              (share_pos capacity n i p q) (share_one max_bytes n i h lt) in
          rw (made, starved n p q h left (i + 1) (omega arith) (omega arith))
      | no ge ↦ rw (
          new_no_bytes {K = K} {V = V} (share capacity n i) (share max_bytes n i)
            (share_none max_bytes n i h (omega arith)))
    ]

    -- With positive capacity and shard count but fewer bytes than shards, the constructor throws
    -- `invalid_argument`.
    new_starved :
        max_bytes < min capacity num_shards
        → new {K = K} {V = V} capacity num_shards max_bytes ≡ throws Exception.bad_argument
    unfolding new
    new_starved h =
        let n = min capacity num_shards in
        rw (
          pos-==-zero capacity p,
          new,
          pos-==-zero num_shards q,
          starved n (omega arith) (omega arith) h n 0 (omega arith) (omega arith),
        )
