-- ===== src/Transport/Completions.antt =====
-- A request completes once.
use kvrpc.Base.{
  ℕ, zero, suc, ◌+◌, ◌-◌, size_sub, ◌≤◌, ◌<◌, ◌≡◌, refl, sym, ap, subst, ◌∙◌, ◌⊎◌, inl, inr, Bool,
  false, ◌&&◌, List, [], ◌∷◌, ◌++◌, length, none, some, Option-cases, Bool-cases, length-append,
  ◌==◌, if◌then◌else◌, if_true, if_false, Outcome, ok, ErrorCode, ◌>>=◌, arith,
}
use kvrpc.Transport.{
  Request, Response, Transport, find_request, erase_request, released, no_more, finish_all,
  disconnect_with, after_completion, failure, finish, disconnect, refuses, submit_request,
  update_socket, cut_off, failed_ids,
}
use kvrpc.Transport.Requests.{
  total, times, times_completed, IsTransport, Keeps, Keeps-trans, times_completed-append,
  erase_request_lem,
}

-- Nothing but the sockets and the script of a transport has changed.
module _ (accepts : ℕ → Response → Bool) where
  same_requests :
      (t t' : Transport)
      → IsTransport t
      → t'.requests ≡ t.requests
      → t'.posted ≡ t.posted
      → t'.completed ≡ t.completed
      → t'.admitted ≡ t.admitted
      → t'.bytes ≡ t.bytes
      → Keeps t t'
  same_requests t t' v r p c a b = record {
    valid = record {
      admitted = omega (arith, a, ap length r, ap length p, v.admitted);
      bytes = omega (arith, b, ap total r, ap total p, v.bytes);
    };
    once = λ q. omega (arith, ap (times q) r, ap (times_completed q) c);
    grows = λ q. omega (arith, ap (times_completed q) c);
    fewer = omega (arith, ap length r);
    posted = p;
    admitted = omega (arith, a);
    bytes = omega (arith, b);
  }

  released-Keeps :
      (id : ℕ) (r : Request) (reply : Response) (t : Transport)
      → IsTransport t
      → find_request id t.requests ≡ some r
      → Keeps t (released r reply t)
        × (suc (length (released r reply t).requests) ≡ length t.requests)
  released-Keeps id r reply t v h =
      let (name, count, sum, each) = erase_request_lem id t.requests r h in
      let same : erase_request r.id t.requests ≡ erase_request id t.requests =
        ap (λ z. erase_request z t.requests) name in
      let n = ap length same in
      let s = ap total same in
      let one = size_sub t.admitted 1 (omega (arith, v.admitted, count)) in
      let some_bytes = size_sub t.bytes r.size (omega (arith, v.bytes, sum)) in
      (
        record {
          valid = record {
            admitted = omega (arith, one, n, count, v.admitted);
            bytes = omega (arith, some_bytes, s, sum, v.bytes);
          };
          once = λ q. omega (
            arith,
            each q,
            ap (times q) same,
            times_completed-append q t.completed ((r.id, reply) ∷ []),
          );
          grows = λ q. omega (arith, times_completed-append q t.completed ((r.id, reply) ∷ []));
          fewer = omega (arith, n, count);
          posted = refl;
          admitted = omega (arith, one);
          bytes = omega (arith, some_bytes);
        },
        omega (arith, n, count),
      )

  no_more-Keeps : (t : Transport) → IsTransport t → Keeps t (no_more t)
  no_more-Keeps t v = elim (Bool-cases (t.draining && length t.requests == 0)) [
    | inl e ↦
        subst (Keeps t) (sym (if_true (t.draining && length t.requests == 0) _ _ e))
          (same_requests t _ v refl refl refl refl refl)
    | inr e ↦
        subst (Keeps t) (sym (if_false (t.draining && length t.requests == 0) _ _ e))
          (same_requests t t v refl refl refl refl refl)
  ]

  -- A call that returns, and keeps every request.
  abbrev Returns : Transport → Outcome Transport → Type 0
  Returns t o = (t' : Transport) × (o ≡ ok t') × Keeps t t'

  finish_all_lem :
      (f : ℕ → Response → Transport → Outcome Transport) (bound : ℕ) (code : ErrorCode)
      (ids : List ℕ) (t : Transport)
      → ((id : ℕ) (reply : Response) (u : Transport)
          → IsTransport u
          → length u.requests < bound
          → Returns u (f id reply u))
      → IsTransport t
      → length t.requests < bound
      → Returns t (finish_all f code ids t)
  unfolding finish_all
  finish_all_lem f bound code [] t ih v h = (t, refl, same_requests t t v refl refl refl refl refl)
  finish_all_lem f bound code (id ∷ ids) t ih v h =
      let (t₁, run, k) = ih id (failure code) t v h in
      let (t₂, run', k') =
        finish_all_lem f bound code ids t₁ ih k.valid (omega (arith, k.fewer, h)) in
      (t₂, rw run run', Keeps-trans k k')

  disconnect_with_lem :
      (f : ℕ → Response → Transport → Outcome Transport) (bound i : ℕ) (code : ErrorCode)
      (t : Transport)
      → ((id : ℕ) (reply : Response) (u : Transport)
          → IsTransport u
          → length u.requests < bound
          → Returns u (f id reply u))
      → IsTransport t
      → length t.requests < bound
      → Returns t (disconnect_with f i code t)
  disconnect_with_lem f bound i code t ih v h =
      let k =
        same_requests t (record t { sockets = update_socket i cut_off t.sockets }) v refl refl refl
          refl refl in
      let (t', run, k') = finish_all_lem f bound code (failed_ids i t.requests) _ ih k.valid h in
      (t', run, Keeps-trans k k')

  after_completion_lem :
      (d : ℕ → ErrorCode → Transport → Outcome Transport) (r : Request) (reply : Response)
      (t : Transport)
      → ((i : ℕ) (code : ErrorCode) → Returns t (d i code t))
      → IsTransport t
      → Returns t (after_completion accepts d r reply t)
  after_completion_lem d r reply t ih v = elim (Bool-cases (accepts r.id reply)) [
    | inl e ↦ rw e (t, refl, same_requests t t v refl refl refl refl refl)
    | inr e ↦ elim (Option-cases r.slot) [
      | inl none_at ↦ rw (e, none_at) (t, refl, same_requests t t v refl refl refl refl refl)
      | inr (i, at) ↦ rw (e, at) (ih i ErrorCode.protocol)
    ]
  ]

  finish-none :
      (fuel id : ℕ) (reply : Response) (t : Transport)
      → find_request id t.requests ≡ none
      → finish accepts (suc fuel) id reply t ≡ ok t
  unfolding finish
  finish-none fuel id reply t at = simp (at, finish)

  finish-some :
      (fuel id : ℕ) (reply : Response) (t : Transport) (r : Request)
      → find_request id t.requests ≡ some r
      → finish accepts (suc fuel) id reply t ≡ (
          after_completion accepts
            (disconnect_with (finish accepts fuel))
            r
            reply
            (released r reply t)
          >>= λ t'. ok (no_more t'))
  unfolding finish
  finish-some fuel id reply t r at = simp (at, finish)

  finish_found :
      (fuel id : ℕ) (reply : Response) (t : Transport) (r : Request)
      → ((i : ℕ) (x : Response) (u : Transport)
          → IsTransport u
          → length u.requests < fuel
          → Returns u (finish accepts fuel i x u))
      → IsTransport t
      → length t.requests < suc fuel
      → find_request id t.requests ≡ some r
      → (t' : Transport) × (finish accepts (suc fuel) id reply t ≡ ok t')
        × Keeps t t'
        × (times_completed id t.completed < times_completed id t'.completed)
  finish_found fuel id reply t r ih v h at =
      let t₁ = released r reply t in
      let (k, count) = released-Keeps id r reply t v at in
      let small : length t₁.requests < fuel = omega (arith, count, h) in
      let (t₂, run, k₂) =
        after_completion_lem (disconnect_with (finish accepts fuel)) r reply t₁
          (λ i code. disconnect_with_lem (finish accepts fuel) fuel i code t₁ ih k.valid small)
          k.valid in
      let k₃ = no_more-Keeps t₂ k₂.valid in
      let name = (erase_request_lem id t.requests r at).0 in
      let one : 0 < times_completed id ((r.id, reply) ∷ []) = ground arith in
      (
        no_more t₂,
        finish-some fuel id reply t r at
            ∙ ap (λ (z : Outcome Transport). z >>= (λ t'. ok (no_more t'))) run,
        Keeps-trans k (Keeps-trans k₂ k₃),
        omega (
          arith,
          k₂.grows id,
          k₃.grows id,
          one,
          times_completed-append id t.completed ((r.id, reply) ∷ []),
        ),
      )

  -- `Finish` returns, on fuel that is more than the requests.
  finish_lem :
      (fuel id : ℕ) (reply : Response) (t : Transport)
      → IsTransport t
      → length t.requests < fuel
      → Returns t (finish accepts fuel id reply t)
  finish_lem zero id reply t v h = absurd (omega arith)
  finish_lem (suc fuel) id reply t v h = elim (Option-cases (find_request id t.requests)) [
    | inl at ↦ (t, finish-none fuel id reply t at, same_requests t t v refl refl refl refl refl)
    | inr (r, at) ↦
        let (t', run, k, _) = finish_found fuel id reply t r (finish_lem fuel) v h at in
        (t', run, k)
  ]

  -- `Finish` of a request of a transport whose counters are right returns, whatever its completion
  -- and those of the requests that fail with its connection say, on one unit of fuel more than the
  -- requests: that request is complete once more, every request, of any identifier, is where it was
  -- or is complete instead, and the counters are right.
  pub finish_once :
      (id : ℕ) (reply : Response) (t : Transport) (r : Request)
      → IsTransport t
      → find_request id t.requests ≡ some r
      → (t' : Transport) × (finish accepts (suc (length t.requests)) id reply t ≡ ok t')
        × Keeps t t'
        × (times_completed id t.completed < times_completed id t'.completed)
  finish_once id reply t r v at =
      finish_found (length t.requests) id reply t r (finish_lem (length t.requests)) v (omega arith)
        at

  -- `Disconnect` on a transport whose counters are right returns, whatever the completions say, on
  -- one unit of fuel more than the requests; every request, of any identifier, is where it was or
  -- is complete instead, and the counters are right.
  pub disconnect_lem :
      (i : ℕ) (code : ErrorCode) (t : Transport)
      → IsTransport t
      → (t' : Transport) × (disconnect accepts (suc (length t.requests)) i code t ≡ ok t')
        × Keeps t t'
  unfolding disconnect
  disconnect_lem i code t v =
      disconnect_with_lem (finish accepts (suc (length t.requests))) (suc (length t.requests)) i
        code t (finish_lem (suc (length t.requests))) v (omega arith)

total-append : (rs qs : List Request) → total (rs ++ qs) ≡ total rs + total qs
total-append [] qs = omega arith
total-append (r ∷ rs) qs = omega (arith, total-append rs qs)

-- The limits of the admission.
pub record IsWithin (t : Transport) : Type 0 where
  pub counters : IsTransport t
  pub capacity : t.admitted ≤ t.options.queue_capacity
  pub memory : t.bytes ≤ t.options.queue_bytes

-- If the counters of the transport are right and within its limits, they still are after `Submit`,
-- which has posted the request, or completed it at once as closed or overloaded.
pub submit_request_lem :
    (id size : ℕ) (t : Transport)
    → IsWithin t
    → IsWithin (submit_request id size t)
      × (((submit_request id size t).posted
              ≡ t.posted ++ record { id = id; size = size; slot = none; sent = false } ∷ [])
            × ((submit_request id size t).completed ≡ t.completed)
          ⊎ ((submit_request id size t).posted ≡ t.posted)
            × ((submit_request id size t).completed
                ≡ t.completed
                  ++ (id, failure (if t.closing then ErrorCode.closed else ErrorCode.overloaded))
                    ∷ []))
unfolding submit_request
submit_request_lem id size t v = elim (Bool-cases (refuses size t)) [
  | inl full ↦ rw full (
    record {
      counters = record { admitted = v.counters.admitted; bytes = v.counters.bytes };
      capacity = v.capacity;
      memory = v.memory;
    },
    inr (refl, refl),
  )
  | inr room ↦
      let left = size_sub t.options.queue_bytes t.bytes v.memory in
      let fits : size ≤ t.options.queue_bytes - t.bytes = ground (arith, left) in
      let few : t.admitted < t.options.queue_capacity = ground arith in
      let request : Request = record { id = id; size = size; slot = none; sent = false } in
      rw room (
        record {
          counters = record {
            admitted = omega (arith, v.counters.admitted, length-append t.posted (request ∷ []));
            bytes = omega (arith, v.counters.bytes, total-append t.posted (request ∷ []));
          };
          capacity = omega (arith, few);
          memory = omega (arith, fits, v.memory);
        },
        inl (refl, refl),
      )
]
