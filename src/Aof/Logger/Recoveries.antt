-- ===== src/Aof/Logger/Recoveries.antt =====
-- What a replay makes of a log after its last batch was acknowledged, refused or cut short.
use kvrpc.Base.{
  ℕ, zero, suc, ◌<◌, ◌≡◌, ◌≢◌, refl, sym, ap, subst, ◌∙◌, ◌⊎◌, inl, inr, false, List, [], ◌∷◌, ◌++◌,
  Bytes, All, All-append, length, take, append-nil, append_assoc, arith, Outcome, ok, throws,
  Exception, ◌>>=◌,
}
use kvrpc.Aof.Disk.{SysResult, Disk, sys_call, IsBenign}
use kvrpc.Aof.Encode.{Mutation, IsLoggable, log_of, record_of, log_of-append}
use kvrpc.Aof.Replay.{replay_loop, apply_all}
use kvrpc.Aof.Replay.Recovery.{at_start, replay-log_of, replay-torn}
use kvrpc.Aof.Logger.{Logger, stop, log_batch, replay}
use kvrpc.Aof.Logger.Writing.{IsTorn}
use kvrpc.Aof.Logger.Rewrites.{sys_call_lem}
use kvrpc.Aof.Logger.Histories.{log_batch-IsValid}
use kvrpc.Aof.Logger.Batches.{IsValid, Ends, log_batch-Ends}

All-front {ℓ} :
    {A : Type ℓ} (P : A → Type 0) (xs ys : List A) → All P (xs ++ ys) → All P xs × All P ys
All-front P [] ys p = (tt, p)
All-front P (x ∷ xs) ys p = let (f, b) = All-front P xs ys p.1 in ((p.0, f), b)

ok-ne-throws : {r : Outcome (Unit {0})} {e : Exception} → r ≡ ok tt → r ≢ throws e
ok-ne-throws h k = cc

-- The logger is in service, and its file is the log of a history.
pub record Holds (history : List Mutation) (l : Logger) : Type 0 where
  pub good : l.failed ≡ false
  pub contents : l.disk.contents ≡ log_of history
  pub loggable : All IsLoggable history

Ends-Holds :
    (elapsed : ℕ) (hs ms : List Mutation) (l : Logger) (r : Outcome (Unit {0}) × Logger)
    → Holds hs l
    → Ends elapsed ms l r
    → r.0 ≡ ok tt
    → Holds (hs ++ ms) r.1
Ends-Holds elapsed hs ms l r h (inl (x, e)) o = absurd (ok-ne-throws o (ap (λ z. z.0) e))
Ends-Holds elapsed hs ms l r h (inr (inl (p, all, g))) o = record {
  good = g.failed ∙ h.good;
  contents = g.contents ∙ ap (λ z. z ++ log_of ms) h.contents ∙ sym (log_of-append hs ms);
  loggable = All-append IsLoggable hs ms h.loggable all;
}
Ends-Holds elapsed hs ms l r h (inr (inr (p, all, b))) o = absurd (ok-ne-throws o p)

log_batch-Holds :
    (elapsed : ℕ) (hs ms : List Mutation) (l : Logger)
    → IsValid l
    → Holds hs l
    → (log_batch elapsed ms l).0 ≡ ok tt
    → Holds (hs ++ ms) (log_batch elapsed ms l).1
log_batch-Holds elapsed hs [] l v h o =
    unfold log_batch in subst (λ z. Holds z l) (sym (append-nil hs)) h
log_batch-Holds elapsed hs (m ∷ ms) l v h o =
    Ends-Holds elapsed hs (m ∷ ms) l (log_batch elapsed (m ∷ ms) l) h
      (log_batch-Ends elapsed (m ∷ ms) l v (λ e. cc)) o

module _ {ℓ} {S : Type ℓ} (callback : Mutation → S → Outcome S) where
  replay-Holds :
      (hs : List Mutation) (l : Logger) (d : Disk) (s : S)
      → IsValid l
      → Holds hs l
      → l.started ≡ false
      → sys_call l.disk ≡ (ok tt, d)
      → IsBenign d.os
      → replay callback l s ≡ apply_all callback hs s
  unfolding replay
  replay-Holds hs l d s v h off sought b =
      let same = ap (λ z. z.1.contents) (sym sought) ∙ (sys_call_lem l.disk).1 in
      let n : l.bytes ≡ length (log_of hs) = v.sized h.good ∙ ap length h.contents in
      let c : d.contents ≡ log_of hs = same ∙ h.contents in
      rw (sought, off, n, c)
        (replay-log_of callback hs d.os (suc (length (log_of hs))) s h.loggable b (omega arith))

  -- If `logBatch` returns on a valid logger in service whose file is the log of a history, then
  -- after `stop` a `replay` whose seek succeeds and whose reads do not fail calls the callback on
  -- the history and then on the batch, in order, until a call throws.
  pub replay-log_batch :
      (elapsed : ℕ) (hs ms : List Mutation) (l : Logger) (d : Disk) (s : S)
      → IsValid l
      → Holds hs l
      → (log_batch elapsed ms l).0 ≡ ok tt
      → let l' = stop (log_batch elapsed ms l).1 in
        sys_call l'.disk ≡ (ok tt, d)
        → IsBenign d.os
        → replay callback l' s ≡ apply_all callback (hs ++ ms) s
  replay-log_batch elapsed hs ms l d s v h o sought b =
      let l₁ = (log_batch elapsed ms l).1 in
      let v₁ = log_batch-IsValid elapsed ms l v in
      let h₁ = log_batch-Holds elapsed hs ms l v h o in
      replay-Holds (hs ++ ms) (stop l₁) d s
        (record {
          sized = v₁.sized;
          bounded = v₁.bounded;
          rewritten = v₁.rewritten;
          word = v₁.word;
          counted = v₁.counted;
        })
        (record { good = h₁.good; contents = h₁.contents; loggable = h₁.loggable }) refl sought b

  -- What a replay of a file may do: apply a history, or apply it and then throw.
  abbrev pub Replays : Bytes → List Mutation → Type ℓ
  Replays file hs =
      (os : List SysResult) (fuel : ℕ) (s : S)
      → IsBenign os
      → length file < fuel
      → (replay_loop callback fuel (at_start file os) s ≡ apply_all callback hs s)
        ⊎ (replay_loop callback fuel (at_start file os) s
            ≡ (apply_all callback hs s >>= λ _. throws Exception.runtime_error))

  Replays-whole : (hs : List Mutation) → All IsLoggable hs → Replays (log_of hs) hs
  Replays-whole hs all os fuel s b h = inl (replay-log_of callback hs os fuel s all b h)

  Replays-torn :
      (hs : List Mutation) (m : Mutation) (k : ℕ)
      → All IsLoggable hs
      → IsLoggable m
      → k < length (record_of m)
      → Replays (log_of hs ++ take k (record_of m)) hs
  Replays-torn hs m zero all l short =
      let same : log_of hs ≡ log_of hs ++ take 0 (record_of m) =
        sym (unfold take in append-nil (log_of hs)) in
      subst (λ z. Replays z hs) same (Replays-whole hs all)
  Replays-torn hs m (suc k) all l short = λ os fuel s b h.
      inr (replay-torn callback hs m (suc k) os fuel s all l (omega arith) short b h)

  -- What a call on a log may leave, seen by a replay: the history and a first part of the batch.
  abbrev pub Survives : List Mutation → List Mutation → Bytes → Type ℓ
  Survives hs ms file =
      (kept : List Mutation) × (lost : List Mutation) × (ms ≡ kept ++ lost)
      × Replays file (hs ++ kept)

  part-Survives :
      (hs ms : List Mutation) (tail file : Bytes)
      → All IsLoggable hs
      → All IsLoggable ms
      → file ≡ log_of hs ++ tail
      → (tail ≡ log_of ms) ⊎ IsTorn ms tail
      → Survives hs ms file
  part-Survives hs ms tail file all new e (inl whole) =
      let same : log_of (hs ++ ms) ≡ file =
        log_of-append hs ms ∙ sym (e ∙ ap (λ z. log_of hs ++ z) whole) in
      (
        ms,
        [],
        sym (append-nil ms),
        subst (λ z. Replays z (hs ++ ms)) same
            (Replays-whole (hs ++ ms) (All-append IsLoggable hs ms all new)),
      )
  part-Survives hs ms tail file all new e (inr t) =
      let (front, back) =
        All-front IsLoggable t.whole (t.cut ∷ t.lost) (subst (All IsLoggable) t.history new) in
      let torn = take t.kept (record_of t.cut) in
      let same : log_of (hs ++ t.whole) ++ torn ≡ file =
        ap (λ z. z ++ torn) (log_of-append hs t.whole)
        ∙ append_assoc (log_of hs) (log_of t.whole) torn
        ∙ sym (e ∙ ap (λ z. log_of hs ++ z) t.contents) in
      (
        t.whole,
        t.cut ∷ t.lost,
        t.history,
        subst (λ z. Replays z (hs ++ t.whole)) same
            (Replays-torn (hs ++ t.whole) t.cut t.kept (All-append IsLoggable hs t.whole all front)
              back.0 t.short),
      )

  Ends-Survives :
      (elapsed : ℕ) (hs ms : List Mutation) (l : Logger) (r : Outcome (Unit {0}) × Logger)
      → Holds hs l
      → Ends elapsed ms l r
      → Survives hs ms r.1.disk.contents
  Ends-Survives elapsed hs ms l r h (inl (x, e)) =
      let file : log_of (hs ++ []) ≡ r.1.disk.contents =
        ap log_of (append-nil hs) ∙ sym (ap (λ z. z.1.disk.contents) e ∙ h.contents) in
      (
        [],
        ms,
        refl,
        subst (λ z. Replays z (hs ++ [])) file
            (Replays-whole (hs ++ []) (All-append IsLoggable hs [] h.loggable tt)),
      )
  Ends-Survives elapsed hs ms l r h (inr (inl (p, all, g))) =
      let file : log_of (hs ++ ms) ≡ r.1.disk.contents =
        log_of-append hs ms ∙ sym (g.contents ∙ ap (λ z. z ++ log_of ms) h.contents) in
      (
        ms,
        [],
        sym (append-nil ms),
        subst (λ z. Replays z (hs ++ ms)) file
            (Replays-whole (hs ++ ms) (All-append IsLoggable hs ms h.loggable all)),
      )
  Ends-Survives elapsed hs ms l r h (inr (inr (p, all, b))) =
      part-Survives hs ms b.tail r.1.disk.contents h.loggable all
        (b.contents ∙ ap (λ z. z ++ b.tail) h.contents) b.part

  -- After any call of `logBatch` on a valid logger in service whose file is the log of a history, a
  -- replay of the file by a kernel that does not fail calls the callback on that history and on a
  -- first part of the batch, in order and on nothing else until a call throws, and then returns or
  -- throws a `runtime_error`; one more than the length of the file is enough fuel.
  pub log_batch-Survives :
      (elapsed : ℕ) (hs ms : List Mutation) (l : Logger)
      → IsValid l
      → Holds hs l
      → Survives hs ms (log_batch elapsed ms l).1.disk.contents
  log_batch-Survives elapsed hs [] l v h =
      unfold log_batch in
      Ends-Survives elapsed hs [] l (throws Exception.runtime_error, l) h
        (inl (Exception.runtime_error, refl))
  log_batch-Survives elapsed hs (m ∷ ms) l v h =
      Ends-Survives elapsed hs (m ∷ ms) l (log_batch elapsed (m ∷ ms) l) h
        (log_batch-Ends elapsed (m ∷ ms) l v (λ e. cc))
