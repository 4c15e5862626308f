-- ===== src/Transport.antt =====
-- The requests of src/async_transport.cpp from their admission to their completion: `Submit`, the task
-- that it posts, the timer of a request, `Finish` and `Disconnect`. A map is a list, and the mutex of
-- the admission makes each use of its counters one step. A completion is a function of the identifier
-- and the response, which says whether the response was a valid one.
pub mod Requests
pub mod Completions
use kvrpc.Base.{
  ℕ, zero, suc, ◌+◌, ◌-◌, ◌-size◌, Bool, true, false, not, ◌&&◌, ◌||◌, List, [], ◌∷◌, ◌++◌, Bytes,
  length, Option, none, some, ltb, leb, ◌==◌, if◌then◌else◌, Outcome, ok, throws, stuck, ErrorCode,
  ◌>>=◌,
}

pub record ClientOptions : Type 0 where
  pub workers : ℕ
  pub queue_capacity : ℕ
  pub max_frame_bytes : ℕ
  pub queue_bytes : ℕ
  pub max_inflight : ℕ

-- A request with the size of its bytes; `none` is the slot `SIZE_MAX`.
pub record Request : Type 0 where
  pub id : ℕ
  pub size : ℕ
  pub slot : Option ℕ
  pub sent : Bool

pub record Socket : Type 0 where
  pub connected : Bool
  pub connecting : Bool
  pub input : Bytes
  pub output : List ℕ
  pub order : List ℕ
  pub sent : ℕ
  pub inflight : ℕ
  pub retired : List ℕ

pub data Response : Type 0 where
  response : Bytes → Response
  failure : ErrorCode → Response

-- `posted` are the requests whose task has not run yet, and `completed` the calls of completions.
pub record Transport : Type 0 where
  pub options : ClientOptions
  pub with_ids : Bool
  pub sockets : List Socket
  pub waiting : List ℕ
  pub requests : List Request
  pub posted : List Request
  pub admitted : ℕ
  pub bytes : ℕ
  pub closing : Bool
  pub draining : Bool
  pub stopped : Bool
  pub completed : List (ℕ × Response)

abbrev pub find_request : ℕ → List Request → Option Request
find_request id [] = none
find_request id (r ∷ rs) = if r.id == id then some r else find_request id rs

abbrev pub erase_request : ℕ → List Request → List Request
erase_request id [] = []
erase_request id (r ∷ rs) = if r.id == id then rs else r ∷ erase_request id rs

-- `waiting.erase(std::remove_if(...))`
abbrev pub remove_waiting : ℕ → List ℕ → List ℕ
remove_waiting id [] = []
remove_waiting id (w ∷ ws) = if w == id then remove_waiting id ws else w ∷ remove_waiting id ws

abbrev pub update_socket : ℕ → (Socket → Socket) → List Socket → List Socket
update_socket i f [] = []
update_socket zero f (c ∷ cs) = f c ∷ cs
update_socket (suc i) f (c ∷ cs) = c ∷ update_socket i f cs

abbrev pub one_less : Socket → Socket
one_less c = record c { inflight = c.inflight -size 1 }

abbrev pub in_slot : ℕ → Option ℕ → Bool
in_slot i none = false
in_slot i (some j) = j == i

-- The identifiers of the requests of a connection.
abbrev pub failed_ids : ℕ → List Request → List ℕ
failed_ids i [] = []
failed_ids i (r ∷ rs) = if in_slot i r.slot then r.id ∷ failed_ids i rs else failed_ids i rs

-- `Finish` up to the call of the completion.
abbrev pub released : Request → Response → Transport → Transport
released r reply t = record t {
  requests = erase_request r.id t.requests;
  sockets = elim r.slot [ none ↦ t.sockets | some i ↦ update_socket i one_less t.sockets ];
  waiting = elim r.slot [ none ↦ remove_waiting r.id t.waiting | some i ↦ t.waiting ];
  admitted = t.admitted -size 1;
  bytes = t.bytes -size r.size;
  completed = t.completed ++ (r.id, reply) ∷ [];
}

abbrev pub no_more : Transport → Transport
no_more t = if t.draining && length t.requests == 0 then record t { stopped = true } else t

-- The fields of a connection that `Disconnect` resets.
abbrev pub cut_off : Socket → Socket
cut_off c = record {
  connected = false;
  connecting = false;
  input = [];
  output = [];
  order = [];
  sent = 0;
  inflight = c.inflight;
  retired = [];
}

-- The loop of `Disconnect` over `failed`, with the `Finish` that it calls.
unfoldable pub finish_all :
    (ℕ → Response → Transport → Outcome Transport)
    → ErrorCode
    → List ℕ
    → Transport
    → Outcome Transport
finish_all finish code [] t = ok t
finish_all finish code (id ∷ ids) t = finish id (failure code) t >>= finish_all finish code ids

abbrev pub disconnect_with :
    (ℕ → Response → Transport → Outcome Transport) → ℕ → ErrorCode → Transport → Outcome Transport
disconnect_with finish i code t =
    finish_all finish code (failed_ids i t.requests)
      (record t { sockets = update_socket i cut_off t.sockets })

module _ (accepts : ℕ → Response → Bool) where
  -- After the completion of a request.
  abbrev pub after_completion :
      (ℕ → ErrorCode → Transport → Outcome Transport)
      → Request
      → Response
      → Transport
      → Outcome Transport
  after_completion disconnect r reply t =
      if accepts r.id reply
      then ok t
      else elim r.slot [ none ↦ ok t | some i ↦ disconnect i ErrorCode.protocol t ]

  -- `Finish`, which may disconnect and so finish others: on fuel, more than the requests.
  unfoldable pub finish : ℕ → ℕ → Response → Transport → Outcome Transport
  finish zero id reply t = stuck
  finish (suc fuel) id reply t = elim (find_request id t.requests) [
    | none ↦ ok t
    | some r ↦
        after_completion (disconnect_with (finish fuel)) r reply (released r reply t) >>= λ t'.
        ok (no_more t')
  ]

  -- `Disconnect`
  unfoldable pub disconnect : ℕ → ℕ → ErrorCode → Transport → Outcome Transport
  disconnect fuel i code t = disconnect_with (finish fuel) i code t

  abbrev pub retire : ℕ → Socket → Socket
  retire id c = record c { retired = id ∷ c.retired }

  -- The timer of a request.
  unfoldable pub expire : ℕ → ℕ → Transport → Outcome Transport
  expire fuel id t = elim (find_request id t.requests) [
    | none ↦ ok t
    | some r ↦ elim r.slot [
      | none ↦ finish fuel id (failure ErrorCode.timeout) t
      | some i ↦
          let retired = record t { sockets = update_socket i (retire id) t.sockets } in
          if t.with_ids && r.sent
          then finish fuel id (failure ErrorCode.timeout) retired
          else disconnect fuel i ErrorCode.timeout t
    ]
  ]

abbrev pub refuses : ℕ → Transport → Bool
refuses size t =
    t.closing
    || leb t.options.queue_capacity t.admitted
    || ltb (t.options.queue_bytes -size t.bytes) size

-- `Submit`
unfoldable pub submit_request : ℕ → ℕ → Transport → Transport
submit_request id size t =
    if refuses size t
    then record t {
      completed =
          t.completed
          ++ (id, failure (if t.closing then ErrorCode.closed else ErrorCode.overloaded)) ∷ [];
    }
    else record t {
      admitted = t.admitted + 1;
      bytes = t.bytes + size;
      posted = t.posted ++ record { id = id; size = size; slot = none; sent = false } ∷ [];
    }

-- The task that `Submit` posted, up to its `Dispatch`: the tasks run in the order of the posts.
unfoldable pub arrive : Transport → Transport
arrive t = elim t.posted [
  | [] ↦ t
  | r ∷ rest ↦ record t {
    posted = rest;
    requests = elim (find_request r.id t.requests) [
      | none ↦ t.requests ++ r ∷ []
      | some _ ↦ t.requests
    ];
    waiting = t.waiting ++ r.id ∷ [];
  }
]
