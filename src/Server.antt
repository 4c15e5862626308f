-- ===== src/Server.antt =====
-- `TcpServer` of include/kvrpc/tcp_server.h and src/tcp_server.cpp: its options, and the queue of jobs
-- between the event loops and the workers. The mutex makes `Submit`, and the taking of a batch, one
-- step each. What a job does when it is complete is the closure that `Pump` makes, as its data.
pub mod Pump
pub mod Accept
pub mod Queue
use kvrpc.Base.{
  ℕ, zero, suc, ◌+◌, ◌-◌, ◌*◌, ◌-size◌, min, max, Bool, true, false, not, ◌&&◌, ◌||◌, List, [], ◌∷◌,
  ◌++◌, map, Bytes, length, Option, none, some, take, drop, ltb, leb, ◌==◌, if◌then◌else◌, Outcome,
  ok, throws, stuck, Exception, throw_if, ◌>>=◌, ◌>>◌,
}
use kvrpc.Service.{Reply}

pub record ServerOptions : Type 0 where
  pub io_threads : ℕ
  pub workers : ℕ
  pub queue_capacity : ℕ
  pub queue_bytes : ℕ
  pub output_bytes : ℕ
  pub pipeline : ℕ
  pub idle_timeout : ℕ

abbrev pub default_options : ServerOptions
default_options = record {
  io_threads = 2;
  workers = 4;
  queue_capacity = 1024;
  queue_bytes = 64 * 1024 * 1024;
  output_bytes = 8 * 1024 * 1024;
  pipeline = 16;
  idle_timeout = 30000;
}

-- The options of a server, its frame sizer, for which `none` is an exception, and whether it has a
-- batch handler.
pub record Config : Type 0 where
  pub options : ServerOptions
  pub max_connections : ℕ
  pub max_frame_bytes : ℕ
  pub sizer : Option (Bytes → Option ℕ)
  pub batched : Bool

-- The constructor; whether the address parses is an argument. A port is not negative.
unfoldable pub new_server : ℕ → Bool → ℕ → ℕ → Outcome Config
new_server port parses connections bytes = do
  throw_if
      (ltb 65535 port
        || connections == 0
        || bytes == 0
        || ltb (64 * 1024 * 1024 + 16) bytes
        || not parses)
      Exception.bad_argument
  ok (record {
    options = record default_options {
      output_bytes = max default_options.output_bytes (bytes * 2);
    };
    max_connections = connections;
    max_frame_bytes = bytes;
    sizer = none;
    batched = false;
  })

unfoldable pub configure : ServerOptions → Config → Outcome Config
configure o c = do
  throw_if
      (o.io_threads == 0
        || ltb 256 o.io_threads
        || o.workers == 0
        || ltb 256 o.workers
        || o.queue_capacity == 0
        || o.queue_bytes == 0
        || ltb o.output_bytes c.max_frame_bytes
        || o.pipeline == 0
        || o.idle_timeout == 0)
      Exception.bad_argument
  ok (record c { options = o })

-- `complete` of a job: the token of its peer, and the `size` and `framed` that it captured.
pub record Job : Type 0 where
  pub input : Bytes
  pub peer : ℕ
  pub size : ℕ
  pub framed : Bool

-- The queue, and the counters of the server.
pub record Runtime : Type 0 where
  pub jobs : List Job
  pub queued_bytes : ℕ
  pub closing : Bool
  pub stat_bytes : ℕ
  pub stat_tasks : ℕ
  pub accepted : ℕ
  pub active : ℕ
  pub rejected : ℕ
  pub requests : ℕ
  pub timeouts : ℕ
  pub handler_errors : ℕ

abbrev pub refuses : ServerOptions → Job → Runtime → Bool
refuses o job r =
    r.closing
    || leb o.queue_capacity (length r.jobs)
    || ltb (o.queue_bytes -size r.queued_bytes) (length job.input)

unfoldable pub submit : ServerOptions → Job → Runtime → Bool × Runtime
submit o job r = if refuses o job r then (false, r) else (
  true,
  record r {
    jobs = r.jobs ++ job ∷ [];
    queued_bytes = r.queued_bytes + length job.input;
    stat_bytes = r.stat_bytes + length job.input;
    stat_tasks = r.stat_tasks + 1;
  },
)

-- The loop that moves `count` jobs from the queue to a batch; on an empty queue `front()` is
-- undefined.
unfoldable pub take_jobs : ℕ → Runtime → Outcome (List Job × Runtime)
take_jobs zero r = ok ([], r)
take_jobs (suc count) r = elim r.jobs [
  | [] ↦ stuck
  | job ∷ jobs ↦ do
    (batch, r') ← take_jobs count (record r {
      jobs = jobs;
      queued_bytes = r.queued_bytes -size length job.input;
      stat_bytes = r.stat_bytes -size length job.input;
      stat_tasks = r.stat_tasks -size 1;
    })
    ok (job ∷ batch, r')
]

-- What a worker takes when it wakes; `none` ends its thread.
unfoldable pub next_batch : Bool → Runtime → Outcome (Option (List Job) × Runtime)
next_batch batched r =
    let count = if batched then min 64 (length r.jobs) else 1 in
    if length r.jobs == 0 then ok (none, r) else (take_jobs count r >>= λ x. ok (some x.0, x.1))

abbrev pub refusal : Reply
refusal = record { bytes = []; consumed = 0; close = true }

-- `replies.assign(batch.size(), Reply{0, {}, true})`
unfoldable pub refusals : List Job → List Reply
refusals [] = []
refusals (job ∷ jobs) = refusal ∷ refusals jobs

-- `batch[i].complete(std::move(replies[i]))`, in order.
unfoldable pub completions : List Job → List Reply → List (Job × Reply)
completions (job ∷ jobs) (reply ∷ replies) = (job, reply) ∷ completions jobs replies
completions [] replies = []
completions (job ∷ jobs) [] = []

-- The handlers of a server over a state `H`: of one input, with its `consumed`, or of a batch.
-- `none` is an exception, whichever it is.
pub data Handler (H : Type 0) : Type 0 where
  per_job : (Bytes → H → Option (Bytes × ℕ) × H) → Handler H
  per_batch : (List Bytes → H → Option (List Reply) × H) → Handler H

module _ {H : Type 0} where
  -- The end of the `try` block of `Work`, and its `catch`: the replies, and the errors to count.
  abbrev pub judged : List Job → Option (List Reply) × H → List Reply × ℕ × H
  judged jobs (none, h) = (refusals jobs, length jobs, h)
  judged jobs (some replies, h) =
      if length replies == length jobs then (replies, 0, h) else (refusals jobs, length jobs, h)

  -- A reply of the single handler; `close` stays false.
  abbrev pub replied : Option (Bytes × ℕ) × H → Option (List Reply) × H
  replied (none, h) = (none, h)
  replied (some (bytes, consumed), h) =
      (some (record { bytes = bytes; consumed = consumed; close = false } ∷ []), h)

  -- A worker with the single handler takes one job at a time.
  unfoldable pub handle_jobs : Handler H → List Job → H → List Reply × ℕ × H
  handle_jobs (per_batch f) jobs h = judged jobs (f (map (λ j. j.input) jobs) h)
  handle_jobs (per_job f) [] h = ([], 0, h)
  handle_jobs (per_job f) (job ∷ jobs) h = judged (job ∷ jobs) (replied (f job.input h))

  abbrev pub is_batch : Handler H → Bool
  is_batch (per_batch f) = true
  is_batch (per_job f) = false

  -- What a worker does with the batch that it took, and what it posts to the event loops.
  abbrev pub work_on :
      Handler H → H → Option (List Job) × Runtime → List (Job × Reply) × Runtime × H
  work_on f h (none, r) = ([], r, h)
  work_on f h (some jobs, r) =
      let (replies, errors, h') = handle_jobs f jobs h in
      (completions jobs replies, record r { handler_errors = r.handler_errors + errors }, h')

  -- One round of `Work`.
  unfoldable pub work : Handler H → Runtime → H → Outcome (List (Job × Reply) × Runtime × H)
  work f r h = next_batch (is_batch f) r >>= λ x. ok (work_on f h x)
