-- ===== src/Tests/Logs.antt =====
-- A log of a few mutations, and system calls that fail.
use kvrpc.Base.{
  ℕ, suc, ◌+◌, ◌≤◌, ◌<◌, ◌≡◌, ◌≢◌, ◌↔◌, ◌⊎◌, refl, Bool, true, false, List, [], ◌∷◌, ◌++◌, Bytes,
  length, take, All, arith, Outcome, ok, throws, Exception, ◌>>=◌,
}
use kvrpc.Kv.{Command}
use kvrpc.Kv.Frame.{Fits}
use kvrpc.Aof.Disk.{
  SysResult, done, interrupted, failed, moved, Disk, sys_call, IsBenign, read_loop,
}
use kvrpc.Aof.Encode.{Mutation, IsLoggable, log_of, record_of, size_of, length-record_of}
use kvrpc.Aof.Replay.{replay_loop, apply_all}
use kvrpc.Aof.Replay.Recovery.{at_start, replay-log_of, replay-torn}
use kvrpc.Aof.Logger.{Logger, stop, log_batch, replay}
use kvrpc.Aof.Logger.Batches.{IsValid, Ends, log_batch-Ends, log_batch-capacity}
use kvrpc.Aof.Logger.Rewrites.{Rewrites}
use kvrpc.Aof.Logger.Histories.{Call, log_call, rewrite_call, stop_call, run, run-IsValid}
use kvrpc.Aof.Logger.Recoveries.{Holds, Survives, replay-log_batch, log_batch-Survives}

abbrev set_a : Mutation
set_a = record { command = Command.set; key = 97 ∷ []; value = 1 ∷ 2 ∷ [] }

abbrev del_a : Mutation
del_a = record { command = Command.del; key = 97 ∷ []; value = [] }

set_a-IsLoggable : IsLoggable set_a
set_a-IsLoggable = record {
  command = refl;
  no_value = λ e. cc;
  fits = record { known = λ e. cc; key_fits = omega arith; value_fits = omega arith };
}

del_a-IsLoggable : IsLoggable del_a
del_a-IsLoggable = record {
  command = refl;
  no_value = λ e. refl;
  fits = record { known = λ e. cc; key_fits = omega arith; value_fits = omega arith };
}

abbrev history : List Mutation
history = set_a ∷ del_a ∷ []

history-IsLoggable : All IsLoggable history
history-IsLoggable = (set_a-IsLoggable, (del_a-IsLoggable, tt))

-- A callback that collects what it is given.
abbrev collect : Mutation → List Mutation → Outcome (List Mutation)
collect m ms = ok (m ∷ ms)

abbrev choppy : List SysResult
choppy = interrupted ∷ moved 5 ∷ moved 7 ∷ done ∷ []

length-log : length (log_of history) ≡ 52
unfolding log_of record_of kvrpc.Aof.Encode.wrap kvrpc.Base.Words.be32 kvrpc.Kv.Frame.frame
    kvrpc.Kv.header_bytes
length-log = refl

replay-log_of_example :
    replay_loop collect 60 (at_start (log_of history) choppy) [] ≡ apply_all collect history []
replay-log_of_example =
    replay-log_of collect history choppy 60 [] history-IsLoggable tt (omega (arith, length-log))

torn_length : length (log_of (set_a ∷ []) ++ take 20 (record_of del_a)) < 60
unfolding log_of record_of take kvrpc.Aof.Encode.wrap kvrpc.Base.Words.be32 kvrpc.Kv.Frame.frame
    kvrpc.Kv.header_bytes
torn_length = omega arith

replay-torn_example :
    replay_loop collect 60 (at_start (log_of (set_a ∷ []) ++ take 20 (record_of del_a)) choppy) []
    ≡ (apply_all collect (set_a ∷ []) [] >>= λ _. throws Exception.runtime_error)
replay-torn_example =
    replay-torn collect (set_a ∷ []) del_a 20 choppy 60 [] (set_a-IsLoggable, tt) del_a-IsLoggable
      (omega arith) (omega (arith, length-record_of del_a)) tt torn_length

-- A logger with an empty file.
abbrev logger : List SysResult → Logger
logger os = record {
  disk = record { contents = []; durable = []; os = os };
  bytes = 0;
  rewritten_at = 0;
  max_bytes = 100;
  failed = false;
  started = true;
  stats = record { records = 0; syncs = 0; bytes = 0; rewrites = 0; sync_us = 0 };
}

logger-IsValid : (os : List SysResult) → IsValid (logger os)
logger-IsValid os = record {
  sized = λ e. refl;
  bounded = omega arith;
  rewritten = omega arith;
  word = omega arith;
  counted = refl;
}

logger-Holds : (os : List SysResult) → Holds [] (logger os)
unfolding log_of
logger-Holds os = record { good = refl; contents = refl; loggable = tt }

log_batch-Ends_example :
    Ends 3 history
      (logger (moved 9 ∷ failed ∷ []))
      (log_batch 3 history (logger (moved 9 ∷ failed ∷ [])))
log_batch-Ends_example =
    log_batch-Ends 3 history (logger (moved 9 ∷ failed ∷ []))
      (logger-IsValid (moved 9 ∷ failed ∷ [])) (λ e. cc)

log_batch-Survives_example :
    Survives collect [] history
      (log_batch 3 history (logger (moved 9 ∷ failed ∷ []))).1.disk.contents
log_batch-Survives_example =
    log_batch-Survives collect 3 [] history (logger (moved 9 ∷ failed ∷ []))
      (logger-IsValid (moved 9 ∷ failed ∷ [])) (logger-Holds (moved 9 ∷ failed ∷ []))

all_good : (log_batch 3 history (logger choppy)).0 ≡ ok tt
unfolding log_batch kvrpc.Aof.Logger.commit kvrpc.Aof.Logger.write_all
    kvrpc.Aof.Logger.write_records kvrpc.Aof.Logger.write_record kvrpc.Aof.Logger.and_then
    kvrpc.Aof.Disk.write_loop kvrpc.Aof.Disk.sync_loop kvrpc.Aof.Logger.sync size_of
    kvrpc.Aof.Encode.encode_record kvrpc.Kv.encode kvrpc.Kv.validate kvrpc.Kv.invalid_header
    kvrpc.Aof.Encode.wrap kvrpc.Base.Words.be32 kvrpc.Kv.header_bytes take kvrpc.Base.drop
all_good = refl

seeks :
    sys_call (stop (log_batch 3 history (logger choppy)).1).disk
    ≡ (ok tt, (log_batch 3 history (logger choppy)).1.disk)
unfolding sys_call log_batch kvrpc.Aof.Logger.commit kvrpc.Aof.Logger.write_all
    kvrpc.Aof.Logger.write_records kvrpc.Aof.Logger.write_record kvrpc.Aof.Logger.and_then
    kvrpc.Aof.Disk.write_loop kvrpc.Aof.Disk.sync_loop kvrpc.Aof.Logger.sync size_of
    kvrpc.Aof.Encode.encode_record kvrpc.Kv.encode kvrpc.Kv.validate kvrpc.Kv.invalid_header
    kvrpc.Aof.Encode.wrap kvrpc.Base.Words.be32 kvrpc.Kv.header_bytes take kvrpc.Base.drop
seeks = refl

calm : IsBenign (log_batch 3 history (logger choppy)).1.disk.os
unfolding log_batch kvrpc.Aof.Logger.commit kvrpc.Aof.Logger.write_all
    kvrpc.Aof.Logger.write_records kvrpc.Aof.Logger.write_record kvrpc.Aof.Logger.and_then
    kvrpc.Aof.Disk.write_loop kvrpc.Aof.Disk.sync_loop kvrpc.Aof.Logger.sync size_of
    kvrpc.Aof.Encode.encode_record kvrpc.Kv.encode kvrpc.Kv.validate kvrpc.Kv.invalid_header
    kvrpc.Aof.Encode.wrap kvrpc.Base.Words.be32 kvrpc.Kv.header_bytes take kvrpc.Base.drop
calm = tt

replay-log_batch_example :
    replay collect (stop (log_batch 3 history (logger choppy)).1) []
    ≡ apply_all collect ([] ++ history) []
replay-log_batch_example =
    replay-log_batch collect 3 [] history (logger choppy)
      (log_batch 3 history (logger choppy)).1.disk [] (logger-IsValid choppy) (logger-Holds choppy)
      all_good seeks calm

abbrev calls : List Call
calls = rewrite_call history ∷ log_call 2 history ∷ stop_call ∷ log_call 2 history ∷ []

run-IsValid_example : IsValid (run calls (logger (done ∷ moved 9 ∷ interrupted ∷ failed ∷ [])))
run-IsValid_example =
    run-IsValid calls (logger (done ∷ moved 9 ∷ interrupted ∷ failed ∷ []))
      (logger-IsValid (done ∷ moved 9 ∷ interrupted ∷ failed ∷ []))

abbrev large : List Mutation
large = set_a ∷ del_a ∷ set_a ∷ del_a ∷ []

large-IsLoggable : All IsLoggable large
large-IsLoggable = (set_a-IsLoggable, (del_a-IsLoggable, history-IsLoggable))

log_batch-capacity_example :
    (100 < 0 + length (log_of large))
    ↔ (log_batch 3 large (logger []) ≡ (throws Exception.capacity_error, logger []))
log_batch-capacity_example =
    log_batch-capacity 3 large (logger []) (logger-IsValid []) large-IsLoggable (λ e. cc) refl refl
