-- ===== src/Aof/Logger.antt =====
-- `AofLogger` of KVCache/include/aof.h and KVCache/src/aof.cpp: the log, its rewriting and its
-- opening. Descriptors and the mutex are left out: the file that `fd_` names is the one at the path.
pub mod Writing
pub mod Batches
pub mod Rewrites
pub mod Histories
pub mod Recoveries
use kvrpc.Base.{
  ℕ, zero, suc, ◌+◌, ◌-size◌, ◌/◌, ◌%◌, ◌^◌, Bool, true, false, not, ◌&&◌, ◌||◌, List, [], ◌∷◌,
  Bytes, length, ltb, if◌then◌else◌, Outcome, ok, throws, stuck, Exception, ◌>>=◌,
}
use kvrpc.Aof.Disk.{SysResult, Disk, Io, after, sys_call, write_loop, sync_loop}
use kvrpc.Aof.Encode.{Mutation, encode_record, size_of}
use kvrpc.Aof.Replay.{Cursor, replay_loop}

pub record Stats : Type 0 where
  pub records : ℕ
  pub syncs : ℕ
  pub bytes : ℕ
  pub rewrites : ℕ
  pub sync_us : ℕ

pub record Logger : Type 0 where
  pub disk : Disk
  pub bytes : ℕ
  pub rewritten_at : ℕ
  pub max_bytes : ℕ
  pub failed : Bool
  pub started : Bool
  pub stats : Stats

-- A sum on `uint64_t`.
abbrev pub add64 : ℕ → ℕ → ℕ
add64 a b = (a + b) % 2 ^ 64

-- What a write leaves: its outcome, the file and the script.
abbrev pub Written : Type 0
Written = Outcome (Unit {0}) × Bytes × List SysResult

unfoldable pub and_then : Written → (List SysResult → Bytes → Written) → Written
and_then (ok u, file, os) f = f os file
and_then (throws e, file, os) f = (throws e, file, os)
and_then (stuck, file, os) f = (stuck, file, os)

-- `WriteExact(fd, Encode(m))`
unfoldable pub write_record : List SysResult → Mutation → Bytes → Written
write_record os m file = elim (encode_record m) [
  | ok bytes ↦ write_loop os bytes file
  | throws e ↦ (throws e, file, os)
  | stuck ↦ (stuck, file, os)
]

unfoldable pub write_records : List SysResult → List Mutation → Bytes → Written
write_records os [] file = (ok tt, file, os)
write_records os (m ∷ ms) file =
    and_then (write_record os m file) (λ os' file'. write_records os' ms file')

unfoldable pub write_all : List Mutation → Io (Unit {0})
write_all ms d =
    let w = write_records d.os ms d.contents in (w.0, record d { contents = w.1; os = w.2 })

abbrev pub synced : Disk → Outcome (Unit {0}) × List SysResult → Outcome (Unit {0}) × Disk
synced d (ok u, os) = (ok tt, record { contents = d.contents; durable = d.contents; os = os })
synced d (throws e, os) = (throws e, record d { os = os })
synced d (stuck, os) = (stuck, record d { os = os })

unfoldable pub sync : Io (Unit {0})
sync d = synced d (sync_loop d.os)

-- `SyncDirectory`: the name is durable when it returns, and with it what the file had when it was
-- synchronised, which after a rename is all of it.
unfoldable pub sync_directory : Io (Unit {0})
sync_directory d = after (sys_call d) (λ u d'. sync d')

-- The constructor. It synchronises the directory alone, so what is durable of an old file stays.
unfoldable pub open_log : ℕ → Disk → Outcome Logger × Disk
open_log max_bytes d₀ = after (sys_call d₀) (λ lock d₁. after (sys_call d₁) (λ locked d₂.
    after (sys_call d₂) (λ fd d₃. after (sys_call d₃) (λ owned d₄. after (sys_call d₄) (λ info d₅.
      if ltb max_bytes (length d₅.contents)
      then (throws Exception.runtime_error, d₅)
      else after (sync_directory d₅) (λ u d₆. (
        ok (record {
          disk = record d₆ { durable = d₅.durable };
          bytes = length d₅.contents;
          rewritten_at = 0;
          max_bytes = max_bytes;
          failed = false;
          started = false;
          stats = record {
            records = 0;
            syncs = 0;
            bytes = length d₅.contents;
            rewrites = 0;
            sync_us = 0;
          };
        }),
        record d₆ { durable = d₅.durable },
      )))))))

abbrev pub start : Logger → Logger
start l = record l { started = true }

abbrev pub stop : Logger → Logger
stop l = record l { started = false }

unfoldable pub needs_rewrite : List Mutation → Logger → Outcome Bool
needs_rewrite [] l = ok false
needs_rewrite (m ∷ ms) l = elim (size_of (m ∷ ms)) [
  | ok size ↦ ok (
      ltb (l.max_bytes -size l.bytes) size
      || (ltb (l.max_bytes / 2) l.bytes && ltb (l.max_bytes / 4) (l.bytes -size l.rewritten_at)))
  | throws e ↦ throws e
  | stuck ↦ stuck
]

-- The counters after a batch of `n` records and `size` bytes.
abbrev pub logged : ℕ → ℕ → ℕ → Logger → Disk → Logger
logged elapsed n size l d = record {
  disk = d;
  bytes = add64 l.bytes size;
  rewritten_at = l.rewritten_at;
  max_bytes = l.max_bytes;
  failed = l.failed;
  started = l.started;
  stats = record {
    records = add64 l.stats.records n;
    syncs = add64 l.stats.syncs 1;
    bytes = add64 l.bytes size;
    rewrites = l.stats.rewrites;
    sync_us = add64 l.stats.sync_us elapsed;
  };
}

-- What follows the `try` block of `logBatch`, and its `catch`.
abbrev pub committed : ℕ → ℕ → ℕ → Logger → Outcome (Unit {0}) × Disk → Outcome (Unit {0}) × Logger
committed elapsed n size l (ok u, d) = (ok tt, logged elapsed n size l d)
committed elapsed n size l (throws e, d) = (throws e, record l { disk = d; failed = true })
committed elapsed n size l (stuck, d) = (stuck, record l { disk = d })

unfoldable pub commit : ℕ → List Mutation → ℕ → Logger → Outcome (Unit {0}) × Logger
commit elapsed ms size l =
    committed elapsed (length ms) size l (after (write_all ms l.disk) (λ u d. sync d))

-- `logBatch`; `elapsed` is what the clock measures of the synchronisation.
unfoldable pub log_batch : ℕ → List Mutation → Logger → Outcome (Unit {0}) × Logger
log_batch elapsed [] l = (ok tt, l)
log_batch elapsed (m ∷ ms) l =
    if not l.started || l.failed
    then (throws Exception.runtime_error, l)
    else elim (size_of (m ∷ ms)) [
      | throws e ↦ (throws e, l)
      | stuck ↦ (stuck, l)
      | ok size ↦
          if ltb (l.max_bytes -size l.bytes) size
          then (throws Exception.capacity_error, l)
          else commit elapsed (m ∷ ms) size l
    ]

abbrev pub log : ℕ → Mutation → Logger → Outcome (Unit {0}) × Logger
log elapsed m l = log_batch elapsed (m ∷ []) l

-- The replacement of the log, up to `rename`: lock, write, synchronise, rename.
unfoldable pub prepare : List Mutation → Io (Unit {0})
prepare snapshot r₀ =
    after (sys_call r₀)
      (λ u r₁. after (write_all snapshot r₁) (λ v r₂. after (sync r₂) (λ w r₃. sys_call r₃)))

abbrev pub rewritten : ℕ → Bool → Logger → Disk → Logger
rewritten size failed l d = record {
  disk = d;
  bytes = size;
  rewritten_at = size;
  max_bytes = l.max_bytes;
  failed = failed;
  started = l.started;
  stats = record {
    records = l.stats.records;
    syncs = l.stats.syncs;
    bytes = size;
    rewrites = add64 l.stats.rewrites 1;
    sync_us = l.stats.sync_us;
  };
}

-- What follows `rename`. Until the directory is synchronised a crash may still leave the old log.
abbrev pub published : ℕ → Logger → Outcome (Unit {0}) × Disk → Outcome (Unit {0}) × Logger
published size l (ok u, d) = (ok tt, rewritten size l.failed l d)
published size l (throws e, d) = (throws e, rewritten size true l d)
published size l (stuck, d) = (stuck, rewritten size l.failed l d)

-- The end of the `try` block, and its `catch`: before `rename` it removes the replacement `r`.
unfoldable pub publish : ℕ → Logger → Outcome (Unit {0}) × Disk → Outcome (Unit {0}) × Logger
publish size l (ok u, r) =
    published size l
      (sync_directory (record { contents = r.contents; durable = l.disk.durable; os = r.os }))
publish size l (throws e, r) = (throws e, record l { disk = record l.disk { os = r.os } })
publish size l (stuck, r) = (stuck, record l { disk = record l.disk { os = r.os } })

-- `mkstemp`, which makes an empty file, and what is done with it.
unfoldable pub replace :
    List Mutation → ℕ → Logger → Outcome (Unit {0}) × Disk → Outcome (Unit {0}) × Logger
replace snapshot size l (ok u, d) =
    publish size l (prepare snapshot (record { contents = []; durable = []; os = d.os }))
replace snapshot size l (throws e, d) = (throws e, record l { disk = d })
replace snapshot size l (stuck, d) = (stuck, record l { disk = d })

-- The test on the size, and what follows it.
abbrev pub rewrite_sized : List Mutation → Logger → Outcome ℕ → Outcome (Unit {0}) × Logger
rewrite_sized snapshot l (throws e) = (throws e, l)
rewrite_sized snapshot l stuck = (stuck, l)
rewrite_sized snapshot l (ok size) =
    if ltb l.max_bytes size
    then (throws Exception.capacity_error, l)
    else replace snapshot size l (sys_call l.disk)

unfoldable pub rewrite : List Mutation → Logger → Outcome (Unit {0}) × Logger
rewrite snapshot l =
    if l.failed
    then (throws Exception.runtime_error, l)
    else rewrite_sized snapshot l (size_of snapshot)

-- `replay`, whose loop reads the `bytes_` of the file; a round reads twelve bytes at least, so the
-- fuel is enough.
unfoldable pub replay {ℓ} : {S : Type ℓ} → (Mutation → S → Outcome S) → Logger → S → Outcome S
replay callback l s =
    let (sought, d) = sys_call l.disk in
    if l.started
    then throws Exception.logic_error
    else sought >>= λ u.
        replay_loop callback (suc l.bytes)
          (record { remaining = l.bytes; rest = d.contents; os = d.os }) s
