-- ===== src/Aof/Disk.antt =====
-- The file behind the log and the system calls on it: `ReadExact`, `WriteExact`, `Sync` and
-- `SyncDirectory` of KVCache/src/aof.cpp. The kernel is a script of results, one for each call; past
-- its end every call succeeds in full. So a script says where calls are cut short, interrupted or
-- fail, and a call is interrupted finitely often.
use kvrpc.Base.{
  ℕ, zero, suc, ◌-◌, List, [], ◌∷◌, ◌++◌, Bytes, length, take, drop, min, ltb, ◌==◌, if◌then◌else◌,
  Outcome, ok, throws, stuck, Exception, ◌>>=◌,
}

-- `moved n` moves at most `n` bytes; `interrupted` is EINTR.
pub data SysResult : Type 0 where
  done interrupted failed : SysResult
  moved : ℕ → SysResult

-- `contents` is what the path names, and `durable` what a crash would leave there at worst: it
-- follows `contents` when the file and its name are synchronised.
pub record Disk : Type 0 where
  pub contents : Bytes
  pub durable : Bytes
  pub os : List SysResult

-- An action may throw; what it did to the disk stays.
abbrev pub Io : Type 0 → Type 0
Io A = Disk → Outcome A × Disk

abbrev pub after : {A B : Type 0} → Outcome A × Disk → (A → Io B) → Outcome B × Disk
after (ok a, d) f = f a d
after (throws e, d) f = (throws e, d)
after (stuck, d) f = (stuck, d)

-- A call that is not repeated when it is interrupted: `open`, `flock`, `mkstemp`, `rename`.
unfoldable pub sys_call : Io (Unit {0})
sys_call d = elim d.os [
  | [] ↦ (ok tt, d)
  | done ∷ os ↦ (ok tt, record d { os = os })
  | moved n ∷ os ↦ (ok tt, record d { os = os })
  | interrupted ∷ os ↦ (throws Exception.runtime_error, record d { os = os })
  | failed ∷ os ↦ (throws Exception.runtime_error, record d { os = os })
]

-- The loop of `WriteExact`: the script, what is left to write, and the file so far.
unfoldable pub write_loop :
    List SysResult → Bytes → Bytes → Outcome (Unit {0}) × Bytes × List SysResult
write_loop [] rest file = (ok tt, file ++ rest, [])
write_loop (r ∷ os) [] file = (ok tt, file, r ∷ os)
write_loop (done ∷ os) (b ∷ rest) file = (ok tt, file ++ b ∷ rest, os)
write_loop (interrupted ∷ os) (b ∷ rest) file = write_loop os (b ∷ rest) file
write_loop (failed ∷ os) (b ∷ rest) file = (throws Exception.runtime_error, file, os)
write_loop (moved zero ∷ os) (b ∷ rest) file = (throws Exception.runtime_error, file, os)
write_loop (moved (suc n) ∷ os) (b ∷ rest) file =
    write_loop os (drop n rest) (file ++ b ∷ take n rest)

-- The loop of `Sync`.
unfoldable pub sync_loop : List SysResult → Outcome (Unit {0}) × List SysResult
sync_loop [] = (ok tt, [])
sync_loop (interrupted ∷ os) = sync_loop os
sync_loop (failed ∷ os) = (throws Exception.runtime_error, os)
sync_loop (done ∷ os) = (ok tt, os)
sync_loop (moved n ∷ os) = (ok tt, os)

-- The loop of `ReadExact`: `n` bytes from the front of `rest`.
unfoldable pub read_loop : List SysResult → ℕ → Bytes → Outcome (Bytes × Bytes × List SysResult)
read_loop os zero rest = ok ([], rest, os)
read_loop [] (suc n) rest =
    if ltb (length rest) (suc n)
    then throws Exception.runtime_error
    else ok (take (suc n) rest, drop (suc n) rest, [])
read_loop (done ∷ os) (suc n) rest =
    if ltb (length rest) (suc n)
    then throws Exception.runtime_error
    else ok (take (suc n) rest, drop (suc n) rest, os)
read_loop (interrupted ∷ os) (suc n) rest = read_loop os (suc n) rest
read_loop (failed ∷ os) (suc n) rest = throws Exception.runtime_error
read_loop (moved k ∷ os) (suc n) rest =
    let m = min k (min (suc n) (length rest)) in
    let more = read_loop os (suc n - m) (drop m rest) in
    if m == 0
    then throws Exception.runtime_error
    else more >>= λ r. ok (take m rest ++ r.0, r.1, r.2)

-- Scripts in which no call fails and every call makes progress.
abbrev pub IsBenign : List SysResult → Type 0
IsBenign [] = Unit
IsBenign (failed ∷ os) = ⊥
IsBenign (moved zero ∷ os) = ⊥
IsBenign (_ ∷ os) = IsBenign os
