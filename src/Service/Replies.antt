-- ===== src/Service/Replies.antt =====
-- What a batch of requests leaves behind, and which replies it gives.
use kvrpc.Base.{
  ◌+◌, ℕ, suc, ◌≡◌, ◌≢◌, refl, sym, map, ap, subst, ◌∙◌, ◌⊎◌, inl, inr, Bool, true, false, List, [],
  ◌∷◌, ◌++◌, Bytes, length, All, if◌then◌else◌, arith, Outcome, ok, throws, stuck, Exception,
}
use kvrpc.Kv.{encode}
use kvrpc.Aof.Encode.{Mutation, IsLoggable, log_of}
use kvrpc.Aof.Logger.{Logger, Stats, log_batch, rewrite, needs_rewrite}
use kvrpc.Aof.Logger.Batches.{IsValid, IsLogged, Ends, log_batch-Ends}
use kvrpc.Sharded
use kvrpc.Aof.Logger.Rewrites.{Rewrites, rewrite-Rewrites}
use kvrpc.Aof.Logger.Histories.{Rewrites-IsValid}
use kvrpc.Service.{
  saved, Outside, Store, Slot, waiting, closing, ready, Reply, Request, Served, Service,
  read_inputs, reply_first, answer, perform, performed, serve, compact, fail, compact_if, make_room,
  read_then, served, logged_then, room_then, handle_batch,
}

module _ (o : Outside) where
  ok-ne-throws : {r : Outcome (Unit {0})} {e : Exception} → r ≡ ok tt → r ≢ throws e
  ok-ne-throws h k = cc

  -- A reply that a slot may get.
  abbrev pub Answers : Slot → Reply → Type 0
  Answers waiting r = (r.bytes ≡ []) × (r.consumed ≡ 0) × (r.close ≡ false)
  Answers closing r = (r.bytes ≡ []) × (r.consumed ≡ 0) × (r.close ≡ true)
  Answers (ready q total) r =
      ((response : Bytes) × (encode q.command q.key response ≡ ok r.bytes))
      × (r.consumed ≡ total)
      × (r.close ≡ false)

  abbrev pub AnswersAll : List Slot → List Reply → Type 0
  AnswersAll [] [] = Unit
  AnswersAll (s ∷ ss) (r ∷ rs) = Answers s r × AnswersAll ss rs
  AnswersAll _ _ = ⊥

  reply_first-eq-ok :
      (r : Reply) (x : Served o) {rs : List Reply}
      → (reply_first o r x).0 ≡ ok rs
      → (rest : List Reply) × (x.0 ≡ ok rest) × (rs ≡ r ∷ rest)
  reply_first-eq-ok r (ok rest, c) e = (rest, refl, cc)
  reply_first-eq-ok r (throws x, c) e = cc
  reply_first-eq-ok r (stuck, c) e = cc

  performed-eq-ok :
      (x : Outcome (Store × Bytes)) (c : Store) (f : Store → Bytes → Served o) {rs : List Reply}
      → (performed o x c f).0 ≡ ok rs
      → (c' : Store) × (response : Bytes) × ((f c' response).0 ≡ ok rs)
  performed-eq-ok (ok (c', response)) c f e = (c', response, e)
  performed-eq-ok (throws x) c f e = cc
  performed-eq-ok stuck c f e = cc

  answer-eq-ok :
      (q : Request) (total : ℕ) (c : Store) (response : Bytes) (rest : Reply → Served o)
      {rs : List Reply}
      → (answer o q total c response rest).0 ≡ ok rs
      → (r : Reply) × Answers (ready q total) r × ((rest r).0 ≡ ok rs)
  answer-eq-ok q total c response rest e = settle (encode q.command q.key response) refl e
    where
      settle :
          (x : Outcome Bytes) {rs : List Reply}
          → encode q.command q.key response ≡ x
          → (elim x as (λ y. Served o) [
            | ok bytes ↦ rest (record { bytes = bytes; consumed = total; close = false })
            | throws z ↦ (throws z, c)
            | stuck ↦ (stuck, c)
          ]).0
            ≡ ok rs
          → (r : Reply) × Answers (ready q total) r × ((rest r).0 ≡ ok rs)
      settle (ok bytes) made e = (
        record { bytes = bytes; consumed = total; close = false },
        ((response, made), refl, refl),
        e,
      )
      settle (throws z) made e = cc
      settle stuck made e = cc

  serve-Answers :
      (clock : ℕ → ℕ) (i : ℕ) (slots : List Slot) (disk : Stats) (c : Store) {rs : List Reply}
      → (serve o clock i slots disk c).0 ≡ ok rs
      → AnswersAll slots rs
  unfolding serve
  serve-Answers clock i [] disk c {rs} e = subst (AnswersAll []) (the_list e) tt
    where
      the_list : {xs : List Reply} → ok [] ≡ ok xs → [] ≡ xs
      the_list e = cc
  serve-Answers clock i (waiting ∷ slots) disk c {rs} e =
      let x = serve o clock (suc i) slots disk c in
      let (rest, ran, same) =
        reply_first-eq-ok (record { bytes = []; consumed = 0; close = false }) x e in
      subst (AnswersAll (waiting ∷ slots)) (sym same)
        ((refl, refl, refl), serve-Answers clock (suc i) slots disk c ran)
  serve-Answers clock i (closing ∷ slots) disk c {rs} e =
      let x = serve o clock (suc i) slots disk c in
      let (rest, ran, same) =
        reply_first-eq-ok (record { bytes = []; consumed = 0; close = true }) x e in
      subst (AnswersAll (closing ∷ slots)) (sym same)
        ((refl, refl, refl), serve-Answers clock (suc i) slots disk c ran)
  serve-Answers clock i (ready q total ∷ slots) disk c {rs} e =
      let (c', response, answered) =
        performed-eq-ok (perform o (clock i) q disk c) c
          (λ c' response.
            answer o q total c' response
              (λ reply. reply_first o reply (serve o clock (suc i) slots disk c')))
          e in
      let (r, fits, more) =
        answer-eq-ok q total c' response
          (λ reply. reply_first o reply (serve o clock (suc i) slots disk c')) answered in
      let (rest, ran, same) = reply_first-eq-ok r (serve o clock (suc i) slots disk c') more in
      subst (AnswersAll (ready q total ∷ slots)) (sym same)
        (fits, serve-Answers clock (suc i) slots disk c' ran)

  -- The bytes before the new records: those of the old file, or of a snapshot of the cache.
  abbrev pub Base : Service → (ℕ → ℕ) → ℕ → Bytes → Type 0
  Base s clock i old =
      (old ≡ s.aof.disk.contents)
      ⊎ (old ≡ log_of (map (saved o) (Sharded.snapshot clock i s.cache)))

  compacted :
      (clock : ℕ → ℕ) (i : ℕ) (s : Service)
      → IsValid s.aof
      → (compact o clock i s).0 ≡ ok tt
      → IsValid (compact o clock i s).1.aof
        × Base s clock i (compact o clock i s).1.aof.disk.contents
  unfolding compact
  compacted clock i s v e =
      let ms = map (saved o) (Sharded.snapshot clock i s.cache) in
      (
        Rewrites-IsValid ms s.aof (rewrite ms s.aof) v (rewrite-Rewrites ms s.aof),
        replaced ms (rewrite ms s.aof) (rewrite-Rewrites ms s.aof) e,
      )
    where
      replaced :
          (ms : List Mutation) (r : Outcome (Unit {0}) × Logger)
          → Rewrites ms s.aof r
          → r.0 ≡ ok tt
          → (r.1.disk.contents ≡ s.aof.disk.contents) ⊎ (r.1.disk.contents ≡ log_of ms)
      replaced ms r (inl (p, all, g)) e = inr g.contents
      replaced ms r (inr (inl (x, p, u))) e = inl (ap (λ z. z.disk.contents) u.same)
      replaced ms r (inr (inr (p, all, u))) e = inr u.contents

  room_made :
      (clock : ℕ → ℕ) (i : ℕ) (s : Service) (b : Outcome Bool)
      → IsValid s.aof
      → (compact_if o clock i s b).0 ≡ ok tt
      → IsValid (compact_if o clock i s b).1.aof
        × Base s clock i (compact_if o clock i s b).1.aof.disk.contents
  room_made clock i s (ok true) v e = compacted clock i s v e
  room_made clock i s (ok false) v e = (v, inl refl)
  room_made clock i s (throws x) v e = cc
  room_made clock i s stuck v e = cc

  -- The mutations of a batch are behind some such bytes, and durable.
  abbrev pub Kept : Service → (ℕ → ℕ) → ℕ → List Mutation → Logger → Type 0
  Kept s clock i ms l =
      All IsLoggable ms
      × (old : Bytes) × Base s clock i old
      × (l.disk.contents ≡ old ++ log_of ms)
      × (l.disk.durable ≡ l.disk.contents)

  fail-ne-ok : (e : Exception) (s : Service) {rs : List Reply} → (fail o e s).0 ≢ ok rs
  unfolding fail
  fail-ne-ok e s h = ground arith

  served-eq-ok :
      (s : Service) (x : Served o) {rs : List Reply}
      → (served o s x).0 ≡ ok rs
      → (x.0 ≡ ok rs) × ((served o s x).1.aof ≡ s.aof)
  served-eq-ok s (ok replies, c) e = (e, refl)
  served-eq-ok s (throws x, c) e = absurd (fail-ne-ok x (record s { cache = c }) e)
  served-eq-ok s (stuck, c) e = cc

  IsLogged-Kept :
      (elapsed : ℕ) (ms : List Mutation) (l : Logger) (r : Outcome (Unit {0}) × Logger)
      → Ends elapsed ms l r
      → r.0 ≡ ok tt
      → All IsLoggable ms × IsLogged elapsed ms l r.1
  IsLogged-Kept elapsed ms l r (inl (x, e)) o = absurd (ok-ne-throws o (ap (λ z. z.0) e))
  IsLogged-Kept elapsed ms l r (inr (inl (p, all, g))) o = (all, g)
  IsLogged-Kept elapsed ms l r (inr (inr (p, all, b))) o = absurd (ok-ne-throws o p)

  then_logged :
      (clock : ℕ → ℕ) (i : ℕ) (slots : List Slot) (s : Service) (r : Outcome (Unit {0}) × Logger)
      {rs : List Reply}
      → (logged_then o clock i slots s r).0 ≡ ok rs
      → (r.0 ≡ ok tt) × AnswersAll slots rs × ((logged_then o clock i slots s r).1.aof ≡ r.1)
  then_logged clock i slots s (ok u, aof) e =
      let (ran, same) =
        served-eq-ok (record s { aof = aof }) (serve o clock i slots aof.stats s.cache) e in
      (refl, serve-Answers clock i slots aof.stats s.cache ran, same)
  then_logged clock i slots s (throws x, aof) e = absurd (fail-ne-ok x (record s { aof = aof }) e)
  then_logged clock i slots s (stuck, aof) e = cc

  module _ (clock : ℕ → ℕ) (elapsed : ℕ) where
    then_room :
        (i : ℕ) (slots : List Slot) (ms : List Mutation) (x : Outcome (Unit {0}) × Service)
        {rs : List Reply}
        → (x.0 ≡ ok tt → IsValid x.1.aof)
        → (room_then o clock i elapsed slots ms x).0 ≡ ok rs
        → (x.0 ≡ ok tt)
          × AnswersAll slots rs
          × (ms ≢ []
              → All IsLoggable ms
                × IsLogged elapsed ms x.1.aof (room_then o clock i elapsed slots ms x).1.aof)
    then_room i slots ms (ok u, s) v e =
        let r = log_batch elapsed ms s.aof in
        let (ran, answers, same) = then_logged clock i slots s r e in
        (
          refl,
          answers,
          λ some.
              (let (all, g) =
                  IsLogged-Kept elapsed ms s.aof r (log_batch-Ends elapsed ms s.aof (v refl) some)
                    ran in
                (all, subst (IsLogged elapsed ms s.aof) (sym same) g)),
        )
    then_room i slots ms (throws x, s) v e = absurd (fail-ne-ok x s e)
    then_room i slots ms (stuck, s) v e = cc

    then_read :
        (n : ℕ) (s : Service) (r : Outcome (List Slot × List Mutation)) {rs : List Reply}
        → IsValid s.aof
        → (read_then o clock n elapsed s r).0 ≡ ok rs
        → (slots : List Slot) × (ms : List Mutation) × (r ≡ ok (slots, ms))
          × AnswersAll slots rs
          × (ms ≢ [] → Kept s clock n ms (read_then o clock n elapsed s r).1.aof)
    then_read n s (ok (slots, ms)) v e =
        let x = make_room o clock n ms s in
        let room : x.0 ≡ ok tt → IsValid x.1.aof × Base s clock n x.1.aof.disk.contents =
          (unfold make_room in room_made clock n s (needs_rewrite ms s.aof) v) in
        let (made, answers, kept) =
          then_room (n + Sharded.size s.cache) slots ms x (λ h. (room h).0) e in
        (
          slots,
          ms,
          refl,
          answers,
          λ some.
              (let (all, g) = kept some in
                (
                  all,
                  x.1.aof.disk.contents,
                  (room made).1,
                  g.contents,
                  g.durable ∙ sym g.contents,
                )),
        )
    then_read n s (throws x) v e = cc
    then_read n s stuck v e = cc

  gate :
      (b : Bool) (s : Service) (y : Outcome (List Reply) × Service) {rs : List Reply}
      → (if b then (throws Exception.runtime_error, s) else y).0 ≡ ok rs
      → (y.0 ≡ ok rs) × ((if b then (throws Exception.runtime_error, s) else y) ≡ y)
  gate true s y e = cc
  gate false s y e = (e, refl)

  -- If `HandleBatch` returns replies on a service with a valid log, then its first loop returned
  -- slots and mutations, every slot has its own reply, in order (a wait for more bytes, a close, or
  -- the encoding of some response under the command and key of the request), and the mutations, if
  -- there are any, can all be logged, and the file is some bytes and then their records, all
  -- durable, where the bytes are those of the old file or the log of a snapshot of the cache before
  -- the batch.
  pub handle_batch-Kept :
      (clock : ℕ → ℕ) (elapsed : ℕ) (inputs : List Bytes) (s : Service) {rs : List Reply}
      → IsValid s.aof
      → (handle_batch o clock elapsed inputs s).0 ≡ ok rs
      → (slots : List Slot) × (ms : List Mutation) × (read_inputs o clock 0 inputs s.cache
          ≡ ok (slots, ms))
        × AnswersAll slots rs
        × (ms ≢ [] → Kept s clock (length inputs) ms (handle_batch o clock elapsed inputs s).1.aof)
  unfolding handle_batch
  handle_batch-Kept clock elapsed inputs s v e =
      let y = read_then o clock (length inputs) elapsed s (read_inputs o clock 0 inputs s.cache) in
      let (ran, same) = gate s.failed s y e in
      let (slots, ms, r, answers, kept) =
        then_read clock elapsed (length inputs) s (read_inputs o clock 0 inputs s.cache) v ran in
      (
        slots,
        ms,
        r,
        answers,
        λ some. subst (λ z. Kept s clock (length inputs) ms z.1.aof) (sym same) (kept some),
      )
