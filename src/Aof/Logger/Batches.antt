-- ===== src/Aof/Logger/Batches.antt =====
-- `logBatch`: what a call leaves on the disk and in the logger, whichever of its steps fails.
use kvrpc.Base.{
  ℕ, ◌+◌, ◌-size◌, size_sub, ◌^◌, ◌<◌, ◌≤◌, ◌-◌, ◌↔◌, ◌≡◌, ◌≢◌, refl, sym, ap, ◌∙◌, ◌⊎◌, inl, inr,
  true, false, not, ◌||◌, List, [], ◌∷◌, ◌++◌, Bytes, All, length, ltb, ltb→lt, lt→ltb, Bool-cases,
  if◌then◌else◌, arith, Outcome, ok, throws, stuck, Exception,
}
use kvrpc.Aof.Disk.{SysResult, done, interrupted, failed, moved, Disk, after, sync_loop}
use kvrpc.Aof.Encode.{Mutation, IsLoggable, log_of, size_of-cases, size_of-log_of}
use kvrpc.Aof.Logger.{
  Logger, Written, add64, write_records, write_all, synced, sync, committed, commit, log_batch,
}
use kvrpc.Aof.Logger.Writing.{IsTorn, Recorded, write_records_lem}

-- The sizes that the logger keeps are those of its file, and no subtraction of them wraps. After a
-- failed write the file may be longer.
pub record IsValid (l : Logger) : Type 0 where
  pub sized : l.failed ≡ false → l.bytes ≡ length l.disk.contents
  pub bounded : l.bytes ≤ l.max_bytes
  pub rewritten : l.rewritten_at ≤ l.bytes
  pub word : l.max_bytes < 2 ^ 64
  pub counted : l.stats.bytes ≡ l.bytes

-- `fsync` makes the file durable, or throws and says nothing of it.
abbrev pub Synced : Disk → Outcome (Unit {0}) × Disk → Type 0
Synced d r =
    ((r.0 ≡ ok tt) × (r.1.contents ≡ d.contents) × (r.1.durable ≡ d.contents))
    ⊎ ((r.0 ≡ throws Exception.runtime_error)
        × (r.1.contents ≡ d.contents)
        × (r.1.durable ≡ d.durable))

synced_lem : (d : Disk) (os : List SysResult) → Synced d (synced d (sync_loop os))
unfolding sync_loop
synced_lem d [] = inl (refl, refl, refl)
synced_lem d (done ∷ os) = inl (refl, refl, refl)
synced_lem d (moved n ∷ os) = inl (refl, refl, refl)
synced_lem d (failed ∷ os) = inr (refl, refl, refl)
synced_lem d (interrupted ∷ os) = synced_lem d os

pub sync_lem : (d : Disk) → Synced d (sync d)
unfolding sync
sync_lem d = synced_lem d d.os

-- What writing and synchronising a batch may leave: all of it, durable; or, after a failure, the
-- old durable bytes, and in the file a part of the batch.
abbrev pub Saved : List Mutation → Disk → Outcome (Unit {0}) × Disk → Type 0
Saved ms d r =
    ((r.0 ≡ ok tt)
      × (r.1.contents ≡ d.contents ++ log_of ms)
      × (r.1.durable ≡ d.contents ++ log_of ms))
    ⊎ ((r.0 ≡ throws Exception.runtime_error)
        × (r.1.durable ≡ d.durable)
        × (bytes : Bytes) × (r.1.contents ≡ d.contents ++ bytes)
        × ((bytes ≡ log_of ms) ⊎ IsTorn ms bytes))

saved_lem :
    (ms : List Mutation) (d : Disk) (w : Written)
    → Recorded ms d.contents w
    → Saved ms d (after (w.0, record d { contents = w.1; os = w.2 }) (λ u d'. sync d'))
saved_lem ms d (ok u, file, os) (inl (o, e)) =
    elim (sync_lem (record d { contents = file; os = os })) [
      | inl (p, c, h) ↦ inl (p, c ∙ e, h ∙ e)
      | inr (p, c, h) ↦ inr (p, h, log_of ms, c ∙ e, inl refl)
    ]
saved_lem ms d (throws x, file, os) (inl (o, e)) = cc
saved_lem ms d (stuck, file, os) (inl (o, e)) = cc
saved_lem ms d (ok u, file, os) (inr (o, bytes, e, t)) = cc
saved_lem ms d (throws x, file, os) (inr (o, bytes, e, t)) = inr (o, refl, bytes, e, inr t)
saved_lem ms d (stuck, file, os) (inr (o, bytes, e, t)) = cc

pub write_all-sync :
    (ms : List Mutation) (d : Disk)
    → All IsLoggable ms
    → Saved ms d (after (write_all ms d) (λ u d'. sync d'))
unfolding write_all
write_all-sync ms d all =
    saved_lem ms d (write_records d.os ms d.contents) (write_records_lem ms d.os d.contents all)

-- A batch that `logBatch` acknowledges.
pub record IsLogged (elapsed : ℕ) (ms : List Mutation) (l l' : Logger) : Type 0 where
  pub contents : l'.disk.contents ≡ l.disk.contents ++ log_of ms
  pub durable : l'.disk.durable ≡ l.disk.contents ++ log_of ms
  pub bytes : l'.bytes ≡ l.bytes + length (log_of ms)
  pub bounded : l'.bytes ≤ l'.max_bytes
  pub stats : l'.stats ≡ record {
    records = add64 l.stats.records (length ms);
    syncs = add64 l.stats.syncs 1;
    bytes = l'.bytes;
    rewrites = l.stats.rewrites;
    sync_us = add64 l.stats.sync_us elapsed;
  }
  pub rewritten_at : l'.rewritten_at ≡ l.rewritten_at
  pub max_bytes : l'.max_bytes ≡ l.max_bytes
  pub failed : l'.failed ≡ l.failed
  pub started : l'.started ≡ l.started

-- A batch whose writing failed: the logger is out of service, what was durable still is, and the
-- file has a part of the batch.
pub record IsBroken (ms : List Mutation) (l l' : Logger) : Type 0 where
  pub tail : Bytes
  pub contents : l'.disk.contents ≡ l.disk.contents ++ tail
  pub part : (tail ≡ log_of ms) ⊎ IsTorn ms tail
  pub failed : l'.failed ≡ true
  pub durable : l'.disk.durable ≡ l.disk.durable
  pub bytes : l'.bytes ≡ l.bytes
  pub rewritten_at : l'.rewritten_at ≡ l.rewritten_at
  pub max_bytes : l'.max_bytes ≡ l.max_bytes
  pub stats : l'.stats ≡ l.stats

-- The two ends of the writing of a batch.
abbrev pub Committed : ℕ → List Mutation → Logger → Outcome (Unit {0}) × Logger → Type 0
Committed elapsed ms l r =
    ((r.0 ≡ ok tt) × All IsLoggable ms × IsLogged elapsed ms l r.1)
    ⊎ ((r.0 ≡ throws Exception.runtime_error) × All IsLoggable ms × IsBroken ms l r.1)

-- A call may also be refused.
abbrev pub Ends : ℕ → List Mutation → Logger → Outcome (Unit {0}) × Logger → Type 0
Ends elapsed ms l r = ((e : Exception) × (r ≡ (throws e, l))) ⊎ Committed elapsed ms l r

committed_lem :
    (elapsed : ℕ) (ms : List Mutation) (l : Logger) (r : Outcome (Unit {0}) × Disk)
    → l.bytes + length (log_of ms) ≤ l.max_bytes
    → l.max_bytes < 2 ^ 64
    → All IsLoggable ms
    → Saved ms l.disk r
    → Committed elapsed ms l (committed elapsed (length ms) (length (log_of ms)) l r)
committed_lem elapsed ms l (ok u, d) fits word all (inl (o, c, h)) =
    let sum : add64 l.bytes (length (log_of ms)) ≡ l.bytes + length (log_of ms) = omega arith in
    inl (
      refl,
      all,
      record {
        contents = c;
        durable = h;
        bytes = sum;
        bounded = omega arith;
        stats = refl;
        rewritten_at = refl;
        max_bytes = refl;
        failed = refl;
        started = refl;
      },
    )
committed_lem elapsed ms l (throws x, d) fits word all (inl (o, c, h)) = cc
committed_lem elapsed ms l (stuck, d) fits word all (inl (o, c, h)) = cc
committed_lem elapsed ms l (ok u, d) fits word all (inr (o, h, bytes, c, t)) = cc
committed_lem elapsed ms l (throws x, d) fits word all (inr (o, h, bytes, c, t)) = inr (
  o,
  all,
  record {
    tail = bytes;
    contents = c;
    part = t;
    failed = refl;
    durable = h;
    bytes = refl;
    rewritten_at = refl;
    max_bytes = refl;
    stats = refl;
  },
)
committed_lem elapsed ms l (stuck, d) fits word all (inr (o, h, bytes, c, t)) = cc

-- The guard on the capacity, without the wrap-around of its subtraction.
room :
    (l : Logger) (n : ℕ)
    → IsValid l
    → ltb (l.max_bytes -size l.bytes) n ≡ false
    → l.bytes + n ≤ l.max_bytes
room l n v h = ground (arith, v.bounded)

commit_lem :
    (elapsed : ℕ) (ms : List Mutation) (l : Logger)
    → IsValid l
    → All IsLoggable ms
    → ltb (l.max_bytes -size l.bytes) (length (log_of ms)) ≡ false
    → Committed elapsed ms l (commit elapsed ms (length (log_of ms)) l)
unfolding commit
commit_lem elapsed ms l v all q =
    committed_lem elapsed ms l (after (write_all ms l.disk) (λ u d. sync d))
      (room l (length (log_of ms)) v q) v.word all (write_all-sync ms l.disk all)

-- `logBatch` of some mutations on a valid logger ends in one of three ways: it throws and changes
-- nothing; it returns, every mutation can be logged, their records follow the old bytes in the file
-- and are durable, and the counters agree; or it throws a `runtime_error`, the logger has failed,
-- what was durable is untouched, and behind the old bytes the file has all the records of the
-- batch, or those of its first mutations and a part of the next.
pub log_batch-Ends :
    (elapsed : ℕ) (ms : List Mutation) (l : Logger)
    → IsValid l
    → ms ≢ []
    → Ends elapsed ms l (log_batch elapsed ms l)
unfolding log_batch
log_batch-Ends elapsed [] l v some = absurd (some refl)
log_batch-Ends elapsed (m ∷ ms) l v some = elim (Bool-cases (not l.started || l.failed)) [
  | inl p ↦ rw p (inl (Exception.runtime_error, refl))
  | inr p ↦ elim (size_of-cases (m ∷ ms)) [
    | inr (x, e) ↦ rw (p, e) (inl (x, refl))
    | inl (e, all) ↦
        elim (Bool-cases (ltb (l.max_bytes -size l.bytes) (length (log_of (m ∷ ms))))) [
          | inl q ↦ rw (p, e, q) (inl (Exception.capacity_error, refl))
          | inr q ↦ rw (p, e, q) (inr (commit_lem elapsed (m ∷ ms) l v all q))
        ]
  ]
]

not_capacity :
    {elapsed : ℕ} {ms : List Mutation} {l : Logger} (r : Outcome (Unit {0}) × Logger)
    → Committed elapsed ms l r
    → r.0 ≢ throws Exception.capacity_error
not_capacity r (inl (o, _, _)) e = cc
not_capacity r (inr (o, _, _)) e = cc

in_service :
    (elapsed : ℕ) (m : Mutation) (ms : List Mutation) (l : Logger)
    → IsValid l
    → All IsLoggable (m ∷ ms)
    → l.started ≡ true
    → l.failed ≡ false
    → let n = length (log_of (m ∷ ms)) in
      log_batch elapsed (m ∷ ms) l ≡ (
        if ltb (l.max_bytes - l.bytes) n
        then (throws Exception.capacity_error, l)
        else commit elapsed (m ∷ ms) n l)
unfolding log_batch
in_service elapsed m ms l v all on good =
    let open_guard : (not l.started || l.failed) ≡ false = rw (on, good) in
    rw (open_guard, size_of-log_of (m ∷ ms) all, size_sub l.max_bytes l.bytes v.bounded)

-- On a valid logger that is started and has not failed, a nonempty batch of mutations that can be
-- logged is refused with the capacity error, and nothing changes, exactly when the file with its
-- records would be longer than the limit.
pub log_batch-capacity :
    (elapsed : ℕ) (ms : List Mutation) (l : Logger)
    → IsValid l
    → All IsLoggable ms
    → ms ≢ []
    → l.started ≡ true
    → l.failed ≡ false
    → (l.max_bytes < length l.disk.contents + length (log_of ms))
      ↔ (log_batch elapsed ms l ≡ (throws Exception.capacity_error, l))
log_batch-capacity elapsed [] l v all some on good = absurd (some refl)
log_batch-capacity elapsed (m ∷ ms) l v all some on good =
    let n = length (log_of (m ∷ ms)) in
    let size = v.sized good in
    let run = in_service elapsed m ms l v all on good in
    (
      λ h. run ∙ rw (lt→ltb (l.max_bytes - l.bytes) n (omega (arith, v.bounded))),
      λ r. elim (Bool-cases (ltb (l.max_bytes - l.bytes) n)) [
        | inl q ↦ omega (arith, ltb→lt (l.max_bytes - l.bytes) n q)
        | inr q ↦
            let done_run : log_batch elapsed (m ∷ ms) l ≡ commit elapsed (m ∷ ms) n l =
              run ∙ rw q in
            absurd (
              not_capacity (commit elapsed (m ∷ ms) n l)
                (commit_lem elapsed (m ∷ ms) l v all
                  (ap (λ k. ltb k n) (size_sub l.max_bytes l.bytes v.bounded) ∙ q))
                (ap (λ z. z.0) (sym done_run ∙ r)))
      ],
    )
