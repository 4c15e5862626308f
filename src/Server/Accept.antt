-- ===== src/Server/Accept.antt =====
-- The accepting of connections: `accept_ready` of src/tcp_server.cpp. The loop posts the attaching of
-- a descriptor to the event loop that is next in turn.
use kvrpc.Base.{
  ℕ, zero, suc, ◌+◌, ◌%◌, sym, ap, ◌∙◌, append-nil, append_assoc, ◌≤◌, ◌<◌, ◌≡◌, refl, ◌⊎◌, inl,
  inr, Bool, true, false, List, [], ◌∷◌, ◌++◌, leb, leb→le, Bool-cases, if◌then◌else◌, arith,
}
use kvrpc.Server.{Config, Runtime}

-- The results of `accept4`; past the end of a script no connection is left.
pub data AcceptResult : Type 0 where
  connected interrupted none_left : AcceptResult

-- The event loops that got a connection, in order; the count `next`; and the counters.
pub record Accepted : Type 0 where
  pub posts : List ℕ
  pub next : ℕ
  pub runtime : Runtime

-- One connection, with `n` event loops.
abbrev pub accept_one : Config → ℕ → Accepted → Accepted
accept_one c n a =
    let r = a.runtime in
    if leb c.max_connections r.active
    then record a { runtime = record r { rejected = r.rejected + 1 } }
    else record {
      posts = a.posts ++ a.next % n ∷ [];
      next = a.next + 1;
      runtime = record r { active = r.active + 1; accepted = r.accepted + 1 };
    }

-- The `for` loop with `left` rounds, and whether it posts itself again.
unfoldable pub accept_ready : Config → ℕ → ℕ → List AcceptResult → Accepted → Accepted × Bool
accept_ready c n zero os a = (a, true)
accept_ready c n (suc left) [] a = (a, false)
accept_ready c n (suc left) (none_left ∷ os) a = (a, false)
accept_ready c n (suc left) (interrupted ∷ os) a = accept_ready c n (suc left) os a
accept_ready c n (suc left) (connected ∷ os) a = accept_ready c n left os (accept_one c n a)

-- The event loops in turn, from a count on.
abbrev pub turns : ℕ → ℕ → ℕ → List ℕ
turns n next zero = []
turns n next (suc k) = next % n ∷ turns n (next + 1) k

-- The connections that a run takes.
pub record Accepts (c : Config) (n : ℕ) (a a' : Accepted) : Type 0 where
  pub limit : a'.runtime.active ≤ c.max_connections
  pub connections : ℕ
  pub posts : a'.posts ≡ a.posts ++ turns n a.next connections
  pub next : a'.next ≡ a.next + connections
  pub active : a'.runtime.active ≡ a.runtime.active + connections
  pub accepted : a'.runtime.accepted ≡ a.runtime.accepted + connections
  pub refused : (a'.runtime.rejected ≡ a.runtime.rejected) ⊎ (a'.runtime.active ≡ c.max_connections)

turns-add : (n next j k : ℕ) → turns n next (j + k) ≡ turns n next j ++ turns n (next + j) k
turns-add n next zero k =
    let e : 0 + k ≡ k = omega arith in
    let f : next ≡ next + 0 = omega arith in ap (turns n next) e ∙ ap (λ z. turns n z k) f
turns-add n next (suc j) k =
    let e : suc j + k ≡ suc (j + k) = omega arith in
    let f : next + 1 + j ≡ next + suc j = omega arith in
    ap (turns n next) e
    ∙ ap (◌∷◌ (next % n))
        (turns-add n (next + 1) j k ∙ ap (λ z. turns n (next + 1) j ++ turns n z k) f)

one_of :
    {r r' r'' active active' limit : ℕ}
    → (r' ≡ r) ⊎ (active ≡ limit)
    → (r'' ≡ r') ⊎ (active' ≡ limit)
    → (active ≡ limit → active' ≡ limit)
    → (r'' ≡ r) ⊎ (active' ≡ limit)
one_of (inl e) (inl f) k = inl (f ∙ e)
one_of (inl e) (inr f) k = inr f
one_of (inr e) y k = inr (k e)

module _ (c : Config) (n : ℕ) where
  no_connection : (a : Accepted) → a.runtime.active ≤ c.max_connections → Accepts c n a a
  no_connection a h = record {
    limit = h;
    connections = 0;
    posts = sym (append-nil a.posts);
    next = omega arith;
    active = omega arith;
    accepted = omega arith;
    refused = inl refl;
  }

  one_connection :
      (a : Accepted) → a.runtime.active ≤ c.max_connections → Accepts c n a (accept_one c n a)
  one_connection a h = elim (Bool-cases (leb c.max_connections a.runtime.active)) [
    | inl full ↦ rw full (record {
      limit = h;
      connections = 0;
      posts = sym (append-nil a.posts);
      next = omega arith;
      active = omega arith;
      accepted = omega arith;
      refused = inr (omega (arith, leb→le c.max_connections a.runtime.active full));
    })
    | inr room ↦
        let lt : a.runtime.active < c.max_connections = ground arith in
        rw room (record {
          limit = omega arith;
          connections = 1;
          posts = refl;
          next = refl;
          active = refl;
          accepted = refl;
          refused = inl refl;
        })
  ]

  Accepts-trans : {a a' a'' : Accepted} → Accepts c n a a' → Accepts c n a' a'' → Accepts c n a a''
  Accepts-trans {a} {a'} {a''} x y = record {
    limit = y.limit;
    connections = x.connections + y.connections;
    posts =
        y.posts
        ∙ ap (λ z. a'.posts ++ turns n z y.connections) x.next
        ∙ ap (λ z. z ++ turns n (a.next + x.connections) y.connections) x.posts
        ∙ append_assoc a.posts (turns n a.next x.connections) _
        ∙ ap (λ z. a.posts ++ z) (sym (turns-add n a.next x.connections y.connections));
    next = omega (arith, x.next, y.next);
    active = omega (arith, x.active, y.active);
    accepted = omega (arith, x.accepted, y.accepted);
    refused = one_of x.refused y.refused (λ e. omega (arith, y.active, y.limit, e));
  }

  -- If no more connections are active than are allowed, none are after `accept_ready`; each
  -- connection that it took is counted as accepted and active and was posted to the next event loop
  -- in turn; and if it has refused any, as many are active as are allowed.
  pub Accepts-accept_ready :
      (left : ℕ) (os : List AcceptResult) (a : Accepted)
      → a.runtime.active ≤ c.max_connections
      → Accepts c n a (accept_ready c n left os a).0
  unfolding accept_ready
  Accepts-accept_ready zero os a h = no_connection a h
  Accepts-accept_ready (suc left) [] a h = no_connection a h
  Accepts-accept_ready (suc left) (none_left ∷ os) a h = no_connection a h
  Accepts-accept_ready (suc left) (interrupted ∷ os) a h = Accepts-accept_ready (suc left) os a h
  Accepts-accept_ready (suc left) (connected ∷ os) a h =
      let x = one_connection a h in
      Accepts-trans x (Accepts-accept_ready left os (accept_one c n a) x.limit)
