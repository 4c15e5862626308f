-- ===== src/Server/Queue.antt =====
-- The bounds of the queue of jobs, and the replies that a worker gives to its batch.
use kvrpc.Base.{
  ℕ, zero, suc, ◌+◌, ◌-◌, ◌-size◌, size_sub, ◌≤◌, ◌<◌, ◌≡◌, refl, sym, ap, subst, ◌∙◌, ◌⊎◌, inl,
  inr, Bool, true, false, min, List, [], ◌∷◌, ◌++◌, length, map, Option, none, some, List-cases,
  length-append, ◌==◌, if◌then◌else◌, if_true, if_false, Bool-cases, Outcome, ok, ◌>>=◌, arith,
}
use kvrpc.Service.{Reply}
use kvrpc.Server.{
  ServerOptions, Job, Runtime, Handler, refuses, submit, take_jobs, next_batch, refusals,
  completions, judged, handle_jobs, is_batch, work_on, work, per_job, per_batch,
}

abbrev pub total : List Job → ℕ
total [] = 0
total (j ∷ js) = length j.input + total js

-- The counts are those of the jobs of the queue, and within the options.
pub record IsQueue (o : ServerOptions) (r : Runtime) : Type 0 where
  pub bytes : r.queued_bytes ≡ total r.jobs
  pub stat_bytes : r.stat_bytes ≡ total r.jobs
  pub stat_tasks : r.stat_tasks ≡ length r.jobs
  pub fits : total r.jobs ≤ o.queue_bytes
  pub capacity : length r.jobs ≤ o.queue_capacity

empty_of {ℓ} : {A : Type ℓ} (xs : List A) → length xs ≡ 0 → xs ≡ []
empty_of [] h = refl
empty_of (x ∷ xs) h = absurd (omega arith)

length-map {ℓ κ} :
    {A : Type ℓ} {B : Type κ} (f : A → B) (xs : List A) → length (map f xs) ≡ length xs
length-map f [] = refl
length-map f (x ∷ xs) = ap suc (length-map f xs)

total-append : (js ks : List Job) → total (js ++ ks) ≡ total js + total ks
total-append [] ks = omega arith
total-append (j ∷ js) ks = omega (arith, total-append js ks)

-- If the counts of the queue are those of its jobs and within the options, they still are after
-- `Submit`, which has put the job at the end, or refused it and changed nothing.
pub submit-IsQueue :
    (o : ServerOptions) (job : Job) (r : Runtime)
    → IsQueue o r
    → IsQueue o (submit o job r).1
      × (((submit o job r).0 ≡ true) × ((submit o job r).1.jobs ≡ r.jobs ++ job ∷ [])
          ⊎ ((submit o job r).0 ≡ false) × ((submit o job r).1 ≡ r))
unfolding submit
submit-IsQueue o job r v = elim (Bool-cases (refuses o job r)) [
  | inl full ↦ rw full (v, inr (refl, refl))
  | inr room ↦
      let s = size_sub o.queue_bytes r.queued_bytes (omega (arith, v.bytes, v.fits)) in
      let t = total-append r.jobs (job ∷ []) in
      let n = length-append r.jobs (job ∷ []) in
      let within : length job.input ≤ o.queue_bytes - r.queued_bytes = ground (arith, s) in
      let few : length r.jobs < o.queue_capacity = ground arith in
      let bytes = v.bytes in
      let fits = v.fits in
      rw room (
        record {
          bytes = omega (arith, v.bytes, t);
          stat_bytes = omega (arith, v.stat_bytes, t);
          stat_tasks = omega (arith, v.stat_tasks, n);
          fits = omega (arith, v.bytes, v.fits, within, t);
          capacity = omega (arith, n, few);
        },
        inl (refl, refl),
      )
]

-- What a worker takes is the front of the queue.
pub record Takes (o : ServerOptions) (r : Runtime) (batch : List Job) (r' : Runtime) : Type 0 where
  pub queue : IsQueue o r'
  pub jobs : r.jobs ≡ batch ++ r'.jobs

-- The state when a job has been taken from the front.
abbrev without_first : Job → List Job → Runtime → Runtime
without_first job jobs r = record r {
  jobs = jobs;
  queued_bytes = r.queued_bytes -size length job.input;
  stat_bytes = r.stat_bytes -size length job.input;
  stat_tasks = r.stat_tasks -size 1;
}

take_jobs-suc :
    (count : ℕ) (r : Runtime) (job : Job) (jobs : List Job)
    → r.jobs ≡ job ∷ jobs
    → take_jobs (suc count) r
      ≡ (take_jobs count (without_first job jobs r) >>= λ x. ok (job ∷ x.0, x.1))
unfolding take_jobs
take_jobs-suc count r job jobs at = simp (at, take_jobs)

pub take_jobs_lem :
    (o : ServerOptions) (count : ℕ) (r : Runtime)
    → IsQueue o r
    → count ≤ length r.jobs
    → (batch : List Job) × (r' : Runtime) × (take_jobs count r ≡ ok (batch, r'))
      × Takes o r batch r'
      × (length batch ≡ count)
take_jobs_lem o zero r v h =
    ([], r, unfold take_jobs in refl, record { queue = v; jobs = refl }, refl)
take_jobs_lem o (suc count) r v h = elim (List-cases r.jobs) [
  | inl at ↦ absurd (omega (arith, ap length at))
  | inr (job, jobs, at) ↦
      let n = ap length at in
      let t = ap total at in
      let r₁ = without_first job jobs r in
      let v₁ : IsQueue o r₁ = record {
        bytes = omega (
          arith,
          v.bytes,
          t,
          size_sub r.queued_bytes (length job.input) (omega (arith, v.bytes, t)),
        );
        stat_bytes = omega (
          arith,
          v.stat_bytes,
          t,
          size_sub r.stat_bytes (length job.input) (omega (arith, v.stat_bytes, t)),
        );
        stat_tasks =
            omega
              (arith, v.stat_tasks, n, size_sub r.stat_tasks 1 (omega (arith, v.stat_tasks, n)));
        fits = omega (arith, v.fits, t);
        capacity = omega (arith, v.capacity, n);
      } in
      let (batch, r', run, took, size) = take_jobs_lem o count r₁ v₁ (omega (arith, n)) in
      (
        job ∷ batch,
        r',
        take_jobs-suc count r job jobs at
            ∙ ap (λ (z : Outcome (List Job × Runtime)). z >>= (λ x. ok (job ∷ x.0, x.1))) run,
        record { queue = took.queue; jobs = at ∙ ap (◌∷◌ job) took.jobs },
        ap suc size,
      )
]

length-refusals : (js : List Job) → length (refusals js) ≡ length js
unfolding refusals
length-refusals [] = refl
length-refusals (j ∷ js) = ap suc (length-refusals js)

completions_jobs :
    (js : List Job) (replies : List Reply)
    → length replies ≡ length js
    → map (λ (x : Job × Reply). x.0) (completions js replies) ≡ js
unfolding completions
completions_jobs [] [] h = refl
completions_jobs (j ∷ js) (x ∷ replies) h = ap (◌∷◌ j) (completions_jobs js replies (omega arith))
completions_jobs [] (x ∷ replies) h = absurd (omega arith)
completions_jobs (j ∷ js) [] h = absurd (omega arith)

-- The number of jobs that a worker takes of a queue that has some.
abbrev pub batch_size : Bool → ℕ → ℕ
batch_size batched n = if batched then min 64 n else 1

batch_size_le : (batched : Bool) (n : ℕ) → 0 < n → batch_size batched n ≤ n
batch_size_le true n h = omega arith
batch_size_le false n h = omega arith

next_batch_lem :
    (o : ServerOptions) (batched : Bool) (r : Runtime)
    → IsQueue o r
    → ((r.jobs ≡ []) × (next_batch batched r ≡ ok (none, r)))
      ⊎ ((batch : List Job) × (r' : Runtime) × (next_batch batched r ≡ ok (some batch, r'))
          × Takes o r batch r'
          × (length batch ≡ batch_size batched (length r.jobs))
          × (0 < length r.jobs))
unfolding next_batch
next_batch_lem o batched r v = elim (Bool-cases (length r.jobs == 0)) [
  | inl e ↦ inl (empty_of r.jobs (ground arith), if_true (length r.jobs == 0) _ _ e)
  | inr e ↦
      let some_jobs : 0 < length r.jobs = ground arith in
      let (batch, r', run, took, size) =
        take_jobs_lem o (batch_size batched (length r.jobs)) r v
          (batch_size_le batched (length r.jobs) some_jobs) in
      inr (
        batch,
        r',
        if_false (length r.jobs == 0) _ _ e
            ∙ ap (λ (z : Outcome (List Job × Runtime)). z >>= (λ x. ok (some x.0, x.1))) run,
        took,
        size,
        some_jobs,
      )
]

module _ {H : Type 0} where
  length-judged : (js : List Job) (x : Option (List Reply) × H) → length (judged js x).0 ≡ length js
  length-judged js (none, h) = length-refusals js
  length-judged js (some replies, h) = elim (Bool-cases (length replies == length js)) [
    | inl e ↦ rw e (ground arith)
    | inr e ↦ rw e (length-refusals js)
  ]

  length-handle_jobs :
      (f : Handler H) (js : List Job) (h : H)
      → (is_batch f ≡ false → length js ≤ 1)
      → length (handle_jobs f js h).0 ≡ length js
  unfolding handle_jobs
  length-handle_jobs (per_batch f) js h one = length-judged js _
  length-handle_jobs (per_job f) [] h one = refl
  length-handle_jobs (per_job f) (j ∷ js) h one = length-judged (j ∷ js) _

  -- A worker never takes from an empty queue. On a queue with jobs, whose counts are right, it
  -- takes the first 64, or all of fewer, with a batch handler, or the first one, and gives each of
  -- them one reply, in order, whatever the handler does; the rest of the queue is as it was, with
  -- its counts right.
  pub work_lem :
      (o : ServerOptions) (f : Handler H) (r : Runtime) (h : H)
      → IsQueue o r
      → ((r.jobs ≡ []) × (work f r h ≡ ok ([], r, h)))
        ⊎ ((answers : List (Job × Reply)) × (r' : Runtime) × (h' : H) × (work f r h
              ≡ ok (answers, r', h'))
            × Takes o r (map (λ x. x.0) answers) r'
            × (length answers ≡ batch_size (is_batch f) (length r.jobs)))
  unfolding work
  work_lem o f r h v = elim (next_batch_lem o (is_batch f) r v) [
    | inl (at, run) ↦ inl (at, ap (λ z. z >>= λ x. ok (work_on f h x)) run)
    | inr (batch, r', run, took, size, some_jobs) ↦
        let (replies, errors, h') = handle_jobs f batch h in
        let same = completions_jobs batch replies (
          length-handle_jobs f batch h
            (λ e. omega (arith, size, ap (λ b. batch_size b (length r.jobs)) e))) in
        inr (
          completions batch replies,
          record r' { handler_errors = r'.handler_errors + errors },
          h',
          ap (λ z. z >>= λ x. ok (work_on f h x)) run,
          record {
            queue = record {
              bytes = took.queue.bytes;
              stat_bytes = took.queue.stat_bytes;
              stat_tasks = took.queue.stat_tasks;
              fits = took.queue.fits;
              capacity = took.queue.capacity;
            };
            jobs = subst (λ z. r.jobs ≡ z ++ r'.jobs) (sym same) took.jobs;
          },
          sym (length-map _ (completions batch replies)) ∙ ap length same ∙ size,
        )
  ]
