-- ===== src/Aof/Logger/Histories.antt =====
-- The life of a log: what its operations keep, and what a later replay makes of it.
use kvrpc.Base.{
  ℕ, ◌≢◌, sym, ap, subst, ◌∙◌, inl, inr, true, false, List, [], ◌∷◌, length, length-append, arith,
  Outcome,
}
use kvrpc.Aof.Encode.{Mutation, log_of}
use kvrpc.Aof.Logger.{Logger, start, stop, log_batch, rewrite}
use kvrpc.Aof.Logger.Batches.{IsValid, Ends, log_batch-Ends}
use kvrpc.Aof.Logger.Rewrites.{Rewrites, rewrite-Rewrites}

true-ne-false : true ≢ false
true-ne-false e = cc

Ends-IsValid :
    (elapsed : ℕ) (ms : List Mutation) (l : Logger) (r : Outcome (Unit {0}) × Logger)
    → IsValid l
    → Ends elapsed ms l r
    → IsValid r.1
Ends-IsValid elapsed ms l r v (inl (x, e)) = subst IsValid (sym (ap (λ z. z.1) e)) v
Ends-IsValid elapsed ms l r v (inr (inl (o, all, g))) =
    let c = ap length g.contents in
    let n = length-append l.disk.contents (log_of ms) in
    record {
      sized = λ h. (let s = v.sized (sym g.failed ∙ h) in omega (arith, g.bytes));
      bounded = g.bounded;
      rewritten = omega (arith, v.rewritten, g.bytes, g.rewritten_at);
      word = omega (arith, v.word, g.max_bytes);
      counted = ap (λ z. z.bytes) g.stats;
    }
Ends-IsValid elapsed ms l r v (inr (inr (o, all, b))) = record {
  sized = λ h. absurd (true-ne-false (sym b.failed ∙ h));
  bounded = omega (arith, v.bounded, b.bytes, b.max_bytes);
  rewritten = omega (arith, v.rewritten, b.bytes, b.rewritten_at);
  word = omega (arith, v.word, b.max_bytes);
  counted = ap (λ z. z.bytes) b.stats ∙ v.counted ∙ sym b.bytes;
}

pub log_batch-IsValid :
    (elapsed : ℕ) (ms : List Mutation) (l : Logger) → IsValid l → IsValid (log_batch elapsed ms l).1
log_batch-IsValid elapsed [] l v = unfold log_batch in v
log_batch-IsValid elapsed (m ∷ ms) l v =
    Ends-IsValid elapsed (m ∷ ms) l (log_batch elapsed (m ∷ ms) l) v
      (log_batch-Ends elapsed (m ∷ ms) l v (λ e. cc))

pub Rewrites-IsValid :
    (ms : List Mutation) (l : Logger) (r : Outcome (Unit {0}) × Logger)
    → IsValid l
    → Rewrites ms l r
    → IsValid r.1
Rewrites-IsValid ms l r v (inl (o, all, g)) = record {
  sized = λ h. g.bytes ∙ sym (ap length g.contents);
  bounded = g.bounded;
  rewritten = omega (arith, g.rewritten_at);
  word = omega (arith, v.word, g.max_bytes);
  counted = ap (λ z. z.bytes) g.stats;
}
Rewrites-IsValid ms l r v (inr (inl (x, o, u))) = subst IsValid (sym u.same) (record {
  sized = v.sized;
  bounded = v.bounded;
  rewritten = v.rewritten;
  word = v.word;
  counted = v.counted;
})
Rewrites-IsValid ms l r v (inr (inr (o, all, u))) = record {
  sized = λ h. absurd (true-ne-false (sym u.failed ∙ h));
  bounded = u.bounded;
  rewritten = omega (arith, u.rewritten_at);
  word = omega (arith, v.word, u.max_bytes);
  counted = u.counted;
}

-- A call on an open log.
pub data Call : Type 0 where
  start_call stop_call : Call
  log_call : ℕ → List Mutation → Call
  rewrite_call : List Mutation → Call

unfoldable pub step : Call → Logger → Logger
step start_call l = start l
step stop_call l = stop l
step (log_call elapsed ms) l = (log_batch elapsed ms l).1
step (rewrite_call ms) l = (rewrite ms l).1

unfoldable pub run : List Call → Logger → Logger
run [] l = l
run (c ∷ cs) l = run cs (step c l)

-- Starting, stopping, logging and rewriting keep a valid logger valid, whichever system calls fail:
-- its size is within its limit and, unless it has failed, that of its file.
pub run-IsValid : (cs : List Call) (l : Logger) → IsValid l → IsValid (run cs l)
unfolding run step
run-IsValid [] l v = v
run-IsValid (start_call ∷ cs) l v = run-IsValid cs (start l) (record {
  sized = v.sized;
  bounded = v.bounded;
  rewritten = v.rewritten;
  word = v.word;
  counted = v.counted;
})
run-IsValid (stop_call ∷ cs) l v = run-IsValid cs (stop l) (record {
  sized = v.sized;
  bounded = v.bounded;
  rewritten = v.rewritten;
  word = v.word;
  counted = v.counted;
})
run-IsValid (log_call elapsed ms ∷ cs) l v =
    run-IsValid cs (log_batch elapsed ms l).1 (log_batch-IsValid elapsed ms l v)
run-IsValid (rewrite_call ms ∷ cs) l v =
    run-IsValid cs (rewrite ms l).1 (Rewrites-IsValid ms l (rewrite ms l) v (rewrite-Rewrites ms l))
