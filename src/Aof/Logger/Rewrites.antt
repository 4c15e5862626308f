-- ===== src/Aof/Logger/Rewrites.antt =====
-- `rewrite` replaces the log as a whole, or leaves it alone; and the invariant of the logger.
use kvrpc.Base.{
  ◌≤◌, ◌≡◌, refl, sym, ap, subst, ◌∙◌, ◌⊎◌, inl, inr, Bool, true, false, List, [], ◌∷◌, ◌++◌, Bytes,
  All, length, ltb, Bool-cases, if◌then◌else◌, arith, Outcome, ok, throws, stuck, Exception,
}
use kvrpc.Aof.Disk.{SysResult, done, interrupted, failed, moved, Disk, Io, after, sys_call}
use kvrpc.Aof.Encode.{Mutation, IsLoggable, log_of, size_of, size_of-cases}
use kvrpc.Aof.Logger.{
  Logger, add64, write_all, sync, sync_directory, prepare, published, publish, replace,
  rewrite_sized, rewrite,
}
use kvrpc.Aof.Logger.Batches.{Synced, sync_lem, Saved, write_all-sync}

-- A system call returns or throws, and does nothing to the file.
abbrev Called : Disk → Outcome (Unit {0}) × Disk → Type 0
Called d r =
    ((r.0 ≡ ok tt) ⊎ (r.0 ≡ throws Exception.runtime_error))
    × (r.1.contents ≡ d.contents)
    × (r.1.durable ≡ d.durable)

pub sys_call_lem : (d : Disk) → Called d (sys_call d)
unfolding sys_call
sys_call_lem d = called d d.os
  where
    called : (d : Disk) (os : List SysResult) → Called d (sys_call (record d { os = os }))
    called d [] = (inl refl, refl, refl)
    called d (done ∷ os) = (inl refl, refl, refl)
    called d (moved n ∷ os) = (inl refl, refl, refl)
    called d (interrupted ∷ os) = (inr refl, refl, refl)
    called d (failed ∷ os) = (inr refl, refl, refl)

-- The name of the log is made durable, or not.
sync_directory_lem : (d : Disk) → Synced d (sync_directory d)
unfolding sync_directory
sync_directory_lem d = step (sys_call d) (sys_call_lem d)
  where
    step : (r : Outcome (Unit {0}) × Disk) → Called d r → Synced d (after r (λ u d'. sync d'))
    step (ok u, d') (o, c, h) = elim (sync_lem d') [
      | inl (p, x, y) ↦ inl (p, x ∙ c, y ∙ c)
      | inr (p, x, y) ↦ inr (p, x ∙ c, y ∙ h)
    ]
    step (throws e, d') (inl o, c, h) = cc
    step (throws e, d') (inr o, c, h) = inr (o, c, h)
    step (stuck, d') (inl o, c, h) = cc
    step (stuck, d') (inr o, c, h) = cc

after-after :
    {A B C : Type 0} (r : Outcome A × Disk) (f : A → Io B) (g : B → Io C)
    → after (after r f) g ≡ after r (λ a d. after (f a d) g)
after-after (ok a, d) f g = refl
after-after (throws e, d) f g = refl
after-after (stuck, d) f g = refl

-- The replacement holds the records of the snapshot when it is renamed.
Prepared : List Mutation → Outcome (Unit {0}) × Disk → Type 0
Prepared ms r =
    ((r.0 ≡ ok tt) × (r.1.contents ≡ log_of ms)) ⊎ (r.0 ≡ throws Exception.runtime_error)

prepare_lem :
    (ms : List Mutation) (os : List SysResult)
    → All IsLoggable ms
    → Prepared ms (prepare ms (record { contents = []; durable = []; os = os }))
unfolding prepare Prepared
prepare_lem ms os all =
    let d : Disk = record { contents = []; durable = []; os = os } in
    locked (sys_call d) (sys_call_lem d)
  where
    renamed :
        (d : Disk) (r : Outcome (Unit {0}) × Disk)
        → (d.contents ≡ log_of ms)
        → Called d r
        → Prepared ms r
    renamed d r e (inl o, c, h) = inl (o, c ∙ e)
    renamed d r e (inr o, c, h) = inr o

    wrote :
        (d : Disk) (r : Outcome (Unit {0}) × Disk)
        → d.contents ≡ []
        → Saved ms d r
        → Prepared ms (after r (λ w r₃. sys_call r₃))
    wrote d (ok u, d') e (inl (o, c, h)) =
        renamed d' (sys_call d') (c ∙ ap (λ z. z ++ log_of ms) e) (sys_call_lem d')
    wrote d (throws x, d') e (inl (o, c, h)) = cc
    wrote d (stuck, d') e (inl (o, c, h)) = cc
    wrote d (ok u, d') e (inr (o, h, bytes, c, t)) = cc
    wrote d (throws x, d') e (inr (o, h, bytes, c, t)) = inr o
    wrote d (stuck, d') e (inr (o, h, bytes, c, t)) = cc

    locked :
        (r : Outcome (Unit {0}) × Disk)
        → Called (record { contents = []; durable = []; os = os }) r
        → Prepared ms (
            after r
              (λ u r₁. after (write_all ms r₁) (λ v r₂. after (sync r₂) (λ w r₃. sys_call r₃))))
    locked (ok u, d) (o, c, h) =
        subst (Prepared ms) (after-after (write_all ms d) (λ v r₂. sync r₂) (λ w r₃. sys_call r₃))
          (wrote d (after (write_all ms d) (λ v r₂. sync r₂)) c (write_all-sync ms d all))
    locked (throws e, d) (inl o, c, h) = cc
    locked (throws e, d) (inr o, c, h) = inr o
    locked (stuck, d) (inl o, c, h) = cc
    locked (stuck, d) (inr o, c, h) = cc

-- A rewrite that returns.
pub record IsRewritten (snapshot : List Mutation) (l l' : Logger) : Type 0 where
  pub contents : l'.disk.contents ≡ log_of snapshot
  pub durable : l'.disk.durable ≡ log_of snapshot
  pub bytes : l'.bytes ≡ length (log_of snapshot)
  pub bounded : l'.bytes ≤ l'.max_bytes
  pub stats : l'.stats ≡ record {
    records = l.stats.records;
    syncs = l.stats.syncs;
    bytes = l'.bytes;
    rewrites = add64 l.stats.rewrites 1;
    sync_us = l.stats.sync_us;
  }
  pub rewritten_at : l'.rewritten_at ≡ l'.bytes
  pub max_bytes : l'.max_bytes ≡ l.max_bytes
  pub failed : l'.failed ≡ false
  pub started : l'.started ≡ l.started

-- Nothing of the logger or its file has changed, the kernel's script apart.
pub record IsUntouched (l l' : Logger) : Type 0 where
  pub script : List SysResult
  pub same : l' ≡ record l { disk = record l.disk { os = script } }

-- The new log is in place, but its name may not be durable: the logger is out of service.
pub record IsUnconfirmed (snapshot : List Mutation) (l l' : Logger) : Type 0 where
  pub contents : l'.disk.contents ≡ log_of snapshot
  pub durable : l'.disk.durable ≡ l.disk.durable
  pub bytes : l'.bytes ≡ length (log_of snapshot)
  pub bounded : l'.bytes ≤ l'.max_bytes
  pub rewritten_at : l'.rewritten_at ≡ l'.bytes
  pub counted : l'.stats.bytes ≡ l'.bytes
  pub max_bytes : l'.max_bytes ≡ l.max_bytes
  pub failed : l'.failed ≡ true

abbrev pub Rewrites : List Mutation → Logger → Outcome (Unit {0}) × Logger → Type 0
Rewrites snapshot l r =
    ((r.0 ≡ ok tt) × All IsLoggable snapshot × IsRewritten snapshot l r.1)
    ⊎ (((e : Exception) × (r.0 ≡ throws e) × IsUntouched l r.1)
        ⊎ ((r.0 ≡ throws Exception.runtime_error)
            × All IsLoggable snapshot
            × IsUnconfirmed snapshot l r.1))

same_disk :
    (l : Logger) (d : Disk)
    → d.contents ≡ l.disk.contents
    → d.durable ≡ l.disk.durable
    → IsUntouched l (record l { disk = d })
same_disk l d c h = record { script = d.os; same = rw⁻¹ (c, h) refl }

published_lem :
    (ms : List Mutation) (l : Logger) (new : Bytes) (os : List SysResult)
    (r : Outcome (Unit {0}) × Disk)
    → l.failed ≡ false
    → length (log_of ms) ≤ l.max_bytes
    → All IsLoggable ms
    → new ≡ log_of ms
    → Synced (record { contents = new; durable = l.disk.durable; os = os }) r
    → Rewrites ms l (published (length (log_of ms)) l r)
published_lem ms l new os (ok u, d) good fits all e (inl (o, c, h)) = inl (
  refl,
  all,
  record {
    contents = c ∙ e;
    durable = h ∙ e;
    bytes = refl;
    bounded = fits;
    stats = refl;
    rewritten_at = refl;
    max_bytes = refl;
    failed = good;
    started = refl;
  },
)
published_lem ms l new os (throws x, d) good fits all e (inl (o, c, h)) = cc
published_lem ms l new os (stuck, d) good fits all e (inl (o, c, h)) = cc
published_lem ms l new os (ok u, d) good fits all e (inr (o, c, h)) = cc
published_lem ms l new os (throws x, d) good fits all e (inr (o, c, h)) = inr (
    inr (
      o,
      all,
      record {
        contents = c ∙ e;
        durable = h;
        bytes = refl;
        bounded = fits;
        rewritten_at = refl;
        counted = refl;
        max_bytes = refl;
        failed = refl;
      },
    ))
published_lem ms l new os (stuck, d) good fits all e (inr (o, c, h)) = cc

publish_lem :
    (ms : List Mutation) (l : Logger) (r : Outcome (Unit {0}) × Disk)
    → l.failed ≡ false
    → length (log_of ms) ≤ l.max_bytes
    → All IsLoggable ms
    → Prepared ms r
    → Rewrites ms l (publish (length (log_of ms)) l r)
unfolding publish Prepared
publish_lem ms l (ok u, r) good fits all (inl (o, e)) =
    let d : Disk = record { contents = r.contents; durable = l.disk.durable; os = r.os } in
    published_lem ms l r.contents r.os (sync_directory d) good fits all e (sync_directory_lem d)
publish_lem ms l (ok u, r) good fits all (inr o) = cc
publish_lem ms l (throws x, r) good fits all p =
    inr (inl (x, refl, record { script = r.os; same = refl }))
publish_lem ms l (stuck, r) good fits all (inl (o, e)) = cc
publish_lem ms l (stuck, r) good fits all (inr o) = cc

replace_lem :
    (ms : List Mutation) (l : Logger) (r : Outcome (Unit {0}) × Disk)
    → l.failed ≡ false
    → length (log_of ms) ≤ l.max_bytes
    → All IsLoggable ms
    → Called l.disk r
    → Rewrites ms l (replace ms (length (log_of ms)) l r)
unfolding replace
replace_lem ms l (ok u, d) good fits all (o, c, h) =
    publish_lem ms l (prepare ms (record { contents = []; durable = []; os = d.os })) good fits all
      (prepare_lem ms d.os all)
replace_lem ms l (throws x, d) good fits all (o, c, h) = inr (inl (x, refl, same_disk l d c h))
replace_lem ms l (stuck, d) good fits all (inl o, c, h) = cc
replace_lem ms l (stuck, d) good fits all (inr o, c, h) = cc

untouched : (l : Logger) → IsUntouched l l
untouched l = record { script = l.disk.os; same = refl }

if_skip : {A : Type 0} (b : Bool) (x y : A) → b ≡ false → (if b then x else y) ≡ y
if_skip true x y h = cc
if_skip false x y h = refl

pub rewrite-Rewrites :
    (snapshot : List Mutation) (l : Logger) → Rewrites snapshot l (rewrite snapshot l)
unfolding rewrite
rewrite-Rewrites snapshot l = elim (Bool-cases l.failed) [
  | inl p ↦ refused Exception.runtime_error (rw p)
  | inr p ↦ elim (size_of-cases snapshot) [
    | inr (x, e) ↦ refused x (
        if_skip l.failed (throws Exception.runtime_error, l)
          (rewrite_sized snapshot l (size_of snapshot)) p
        ∙ rw e)
    | inl (e, all) ↦ elim (Bool-cases (ltb l.max_bytes (length (log_of snapshot)))) [
      | inl q ↦ refused Exception.capacity_error (
          if_skip l.failed (throws Exception.runtime_error, l)
            (rewrite_sized snapshot l (size_of snapshot)) p
          ∙ rw (e, q))
      | inr q ↦
          subst (Rewrites snapshot l)
            (sym (
              if_skip l.failed (throws Exception.runtime_error, l)
                (rewrite_sized snapshot l (size_of snapshot)) p
              ∙ rw (e, q)))
            (replace_lem snapshot l (sys_call l.disk) p (ground arith) all (sys_call_lem l.disk))
    ]
  ]
]
  where
    refused :
        (e : Exception)
        → rewrite snapshot l ≡ (throws e, l)
        → Rewrites snapshot l (rewrite snapshot l)
    refused e h = subst (Rewrites snapshot l) (sym h) (inr (inl (e, refl, untouched l)))
