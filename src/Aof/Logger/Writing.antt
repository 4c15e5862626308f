-- ===== src/Aof/Logger/Writing.antt =====
-- What a write leaves in the file: all of it, or a part when a call fails.
use kvrpc.Base.{
  ℕ, zero, suc, ◌+◌, ◌<◌, ◌≡◌, refl, sym, ap, ◌∙◌, ◌⊎◌, inl, inr, List, [], ◌∷◌, ◌++◌, Bytes, All,
  length, take, drop, take-append-drop, length-drop, append_assoc, append-nil, arith, ok, throws,
  stuck, subst, Exception,
}
use kvrpc.Aof.Disk.{SysResult, done, interrupted, failed, moved, write_loop}
use kvrpc.Aof.Encode.{Mutation, IsLoggable, record_of, log_of, encode_record-record_of}
use kvrpc.Aof.Replay.Reading.{take-take}
use kvrpc.Aof.Logger.{Written, and_then, write_record, write_records}

-- All of the bytes are behind `file`, or, after a failure, fewer of them.
abbrev Wrote : Bytes → Bytes → Written → Type 0
Wrote bytes file w =
    ((w.0 ≡ ok tt) × (w.1 ≡ file ++ bytes))
    ⊎ ((w.0 ≡ throws Exception.runtime_error)
        × (k : ℕ) × (k < length bytes)
        × (w.1 ≡ file ++ take k bytes))

Wrote-more :
    (n : ℕ) (b : ℕ) (rest file : Bytes) (w : Written)
    → Wrote (drop n rest) (file ++ b ∷ take n rest) w
    → Wrote (b ∷ rest) file w
unfolding take
Wrote-more n b rest file w (inl (o, e)) = inl (
  o,
  e
      ∙ append_assoc file (b ∷ take n rest) (drop n rest)
      ∙ ap (λ z. file ++ b ∷ z) (take-append-drop n rest),
)
Wrote-more n b rest file w (inr (o, k, h, e)) =
    let joined : take n rest ++ take k (drop n rest) ≡ take (n + k) rest =
      ap (λ z. take n rest ++ take z (drop n rest)) (omega arith)
      ∙ take-take n (n + k) rest (omega arith) in
    inr (
      o,
      suc (n + k),
      omega (arith, length-drop n rest),
      e
          ∙ append_assoc file (b ∷ take n rest) (take k (drop n rest))
          ∙ ap (λ z. file ++ b ∷ z) joined,
    )

nothing :
    (b : ℕ) (rest file : Bytes) (os : List SysResult)
    → Wrote (b ∷ rest) file (throws Exception.runtime_error, file, os)
unfolding take
nothing b rest file os = inr (refl, 0, omega arith, sym (append-nil file))

write_loop_lem :
    (os : List SysResult) (bytes file : Bytes) → Wrote bytes file (write_loop os bytes file)
unfolding write_loop
write_loop_lem [] bytes file = inl (refl, refl)
write_loop_lem (r ∷ os) [] file = inl (refl, sym (append-nil file))
write_loop_lem (done ∷ os) (b ∷ rest) file = inl (refl, refl)
write_loop_lem (interrupted ∷ os) (b ∷ rest) file = write_loop_lem os (b ∷ rest) file
write_loop_lem (failed ∷ os) (b ∷ rest) file = nothing b rest file os
write_loop_lem (moved zero ∷ os) (b ∷ rest) file = nothing b rest file os
write_loop_lem (moved (suc n) ∷ os) (b ∷ rest) file =
    Wrote-more n b rest file (write_loop os (drop n rest) (file ++ b ∷ take n rest))
      (write_loop_lem os (drop n rest) (file ++ b ∷ take n rest))

-- The records of the first mutations, and less than the record of the next.
pub record IsTorn (ms : List Mutation) (bytes : Bytes) : Type 0 where
  pub whole : List Mutation
  pub cut : Mutation
  pub lost : List Mutation
  pub kept : ℕ
  pub history : ms ≡ whole ++ cut ∷ lost
  pub short : kept < length (record_of cut)
  pub contents : bytes ≡ log_of whole ++ take kept (record_of cut)

-- All of the records are behind `file`, or, after a failure, a torn part of them.
abbrev pub Recorded : List Mutation → Bytes → Written → Type 0
Recorded ms file w =
    ((w.0 ≡ ok tt) × (w.1 ≡ file ++ log_of ms))
    ⊎ ((w.0 ≡ throws Exception.runtime_error)
        × (bytes : Bytes) × (w.1 ≡ file ++ bytes)
        × IsTorn ms bytes)

Recorded-more :
    (m : Mutation) (ms : List Mutation) (file : Bytes) (w : Written)
    → Recorded ms (file ++ record_of m) w
    → Recorded (m ∷ ms) file w
unfolding log_of
Recorded-more m ms file w (inl (o, e)) = inl (o, e ∙ append_assoc file (record_of m) (log_of ms))
Recorded-more m ms file w (inr (o, bytes, e, t)) = inr (
  o,
  record_of m ++ bytes,
  e ∙ append_assoc file (record_of m) bytes,
  record {
    whole = m ∷ t.whole;
    cut = t.cut;
    lost = t.lost;
    kept = t.kept;
    history = ap (◌∷◌ m) t.history;
    short = t.short;
    contents =
        ap (◌++◌ (record_of m)) t.contents
        ∙ sym (append_assoc (record_of m) (log_of t.whole) (take t.kept (record_of t.cut)));
  },
)

Recorded-first :
    (m : Mutation) (ms : List Mutation) (file : Bytes) (w : Written)
    → Wrote (record_of m) file w
    → ((os : List SysResult) (file' : Bytes) → Recorded ms file' (write_records os ms file'))
    → Recorded (m ∷ ms) file (and_then w (λ os' file'. write_records os' ms file'))
unfolding and_then
Recorded-first m ms file (ok u, file', os) (inl (o, e)) more =
    Recorded-more m ms file (write_records os ms file')
      (subst (λ z. Recorded ms z (write_records os ms file')) e (more os file'))
Recorded-first m ms file (throws x, file', os) (inl (o, e)) more = cc
Recorded-first m ms file (stuck, file', os) (inl (o, e)) more = cc
Recorded-first m ms file (ok u, file', os) (inr (o, k, h, e)) more = cc
Recorded-first m ms file (throws x, file', os) (inr (o, k, h, e)) more = inr (
  o,
  take k (record_of m),
  e,
  record {
    whole = [];
    cut = m;
    lost = ms;
    kept = k;
    history = refl;
    short = h;
    contents = unfold log_of in refl;
  },
)
Recorded-first m ms file (stuck, file', os) (inr (o, k, h, e)) more = cc

write_record_lem :
    (m : Mutation) (os : List SysResult) (file : Bytes)
    → IsLoggable m
    → Wrote (record_of m) file (write_record os m file)
unfolding write_record
write_record_lem m os file l =
    rw (write_record, encode_record-record_of m l) (write_loop_lem os (record_of m) file)

pub write_records_lem :
    (ms : List Mutation) (os : List SysResult) (file : Bytes)
    → All IsLoggable ms
    → Recorded ms file (write_records os ms file)
unfolding write_records
write_records_lem [] os file all = inl (refl, unfold log_of in sym (append-nil file))
write_records_lem (m ∷ ms) os file all =
    Recorded-first m ms file (write_record os m file) (write_record_lem m os file all.0)
      (λ os' file'. write_records_lem ms os' file' all.1)
