-- ===== src/Aof/Replay/Recovery.antt =====
-- The replay of a log that `log` wrote, whole or cut short by a crash.
use kvrpc.Base.{
  ℕ, zero, suc, ◌+◌, ◌<◌, ◌≡◌, refl, sym, ap, ◌∙◌, List, [], ◌∷◌, ◌++◌, Bytes, All, length, take,
  length-append, length-take, append_assoc, append-nil, pos-==-zero, arith, Outcome, ok, throws,
  stuck, Exception, ◌>>=◌,
}
use kvrpc.Kv.Frame.{frame, length-frame}
use kvrpc.Aof.Disk.{SysResult, IsBenign}
use kvrpc.Aof.Encode.{Mutation, IsLoggable, record_of, log_of, wrap, length-record_of}
use kvrpc.Aof.Replay.{Cursor, replay_loop, apply_all}
use kvrpc.Aof.Replay.Records.{
  length-wrap, read_payload-head_of, parse_payload-frame, read_payload-torn,
}

-- The cursor at the start of a file.
abbrev pub at_start : Bytes → List SysResult → Cursor
at_start contents os = record { remaining = length contents; rest = contents; os = os }

>>=-ext {ℓ κ} :
    {A : Type ℓ} {B : Type κ} (m : Outcome A) {f g : A → Outcome B}
    → ((a : A) → f a ≡ g a)
    → (m >>= f) ≡ (m >>= g)
>>=-ext (ok a) h = h a
>>=-ext (throws e) h = refl
>>=-ext stuck h = refl

>>=-assoc {ℓ κ} :
    {A : Type ℓ} {B C : Type κ} (m : Outcome A) (f : A → Outcome B) (g : B → Outcome C)
    → ((m >>= f) >>= g) ≡ (m >>= λ a. f a >>= g)
>>=-assoc (ok a) f g = refl
>>=-assoc (throws e) f g = refl
>>=-assoc stuck f g = refl

>>=-ok {ℓ} : {A : Type ℓ} (m : Outcome A) → (m >>= ok) ≡ m
>>=-ok (ok a) = refl
>>=-ok (throws e) = refl
>>=-ok stuck = refl

length-record :
    (m : Mutation)
    → length (wrap (frame m.command m.key m.value)) ≡ 24 + length m.key + length m.value
unfolding record_of
length-record m = length-record_of m

module _ {ℓ} {S : Type ℓ} (callback : Mutation → S → Outcome S) where
  -- One round of the loop on a whole record.
  round_lem :
      (fuel : ℕ) (m : Mutation) (rest : Bytes) (os : List SysResult)
      → IsLoggable m
      → IsBenign os
      → (os' : List SysResult) × ((s : S)
          → replay_loop callback (suc fuel) (at_start (record_of m ++ rest) os) s
            ≡ (callback m s >>= replay_loop callback fuel (at_start rest os')))
        × IsBenign os'
  unfolding replay_loop record_of
  round_lem fuel m rest os l b =
      let payload = frame m.command m.key m.value in
      let n = length-frame m.command m.key m.value in
      let f = l.fits in
      let (os', e, b') =
        read_payload-head_of payload rest os (omega arith) (omega (arith, f.key_fits, f.value_fits))
          b in
      let whole : length (wrap payload ++ rest) ≡ 12 + length payload + length rest =
        length-wrap payload rest in
      let some_left = pos-==-zero (12 + length payload + length rest) (omega arith) in
      (os', λ s. rw (whole, some_left, e, parse_payload-frame m l), b')

  -- The records at the front of a file, and what is left to do after them.
  replay-append :
      (ms : List Mutation) (tail : Bytes) (os : List SysResult) (fuel : ℕ)
      → All IsLoggable ms
      → IsBenign os
      → length (log_of ms ++ tail) < fuel
      → (os' : List SysResult) × (fuel' : ℕ) × ((s : S)
          → replay_loop callback fuel (at_start (log_of ms ++ tail) os) s
            ≡ (apply_all callback ms s >>= replay_loop callback fuel' (at_start tail os')))
        × IsBenign os'
        × (length tail < fuel')
  unfolding log_of apply_all
  replay-append ms tail os zero all b h = absurd (omega arith)
  replay-append [] tail os (suc fuel) all b h = (os, suc fuel, λ s. refl, b, h)
  replay-append (m ∷ ms) tail os (suc fuel) all b h =
      let split = append_assoc (record_of m) (log_of ms) tail in
      let (os₁, e, b₁) = round_lem fuel m (log_of ms ++ tail) os all.0 b in
      let n = ap length split in
      let enough : length (log_of ms ++ tail) < fuel =
        omega (arith, n, length-append (record_of m) (log_of ms ++ tail), length-record_of m) in
      let (os₂, fuel₂, r, b₂, left) = replay-append ms tail os₁ fuel all.1 b₁ enough in
      (
        os₂,
        fuel₂,
        λ s.
            rw split (e s)
            ∙ >>=-ext (callback m s) r
            ∙ sym (>>=-assoc (callback m s) (apply_all callback ms) _),
        b₂,
        left,
      )

  at_end :
      (fuel : ℕ) (os : List SysResult)
      → 0 < fuel
      → (s : S) → replay_loop callback fuel (at_start [] os) s ≡ ok s
  unfolding replay_loop
  at_end zero os h s = absurd (omega arith)
  at_end (suc fuel) os h s = refl

  -- A replay of the log of any mutations that can be logged, by a kernel whose calls may be
  -- interrupted or cut short but do not fail, calls the callback on exactly those mutations in
  -- order, until a call throws; one more than the length of the log is enough fuel.
  pub replay-log_of :
      (ms : List Mutation) (os : List SysResult) (fuel : ℕ) (s : S)
      → All IsLoggable ms
      → IsBenign os
      → length (log_of ms) < fuel
      → replay_loop callback fuel (at_start (log_of ms) os) s ≡ apply_all callback ms s
  replay-log_of ms os fuel s all b h =
      let none = append-nil (log_of ms) in
      let (os', fuel', r, b', left) = replay-append ms [] os fuel all b (rw none h) in
      ap (λ z. replay_loop callback fuel (at_start z os) s) (sym none)
      ∙ r s
      ∙ >>=-ext (apply_all callback ms s) (at_end fuel' os' left)
      ∙ >>=-ok (apply_all callback ms s)

  torn :
      (m : Mutation) (k : ℕ) (os : List SysResult) (fuel : ℕ)
      → IsLoggable m
      → 0 < k
      → k < length (record_of m)
      → IsBenign os
      → 0 < fuel
      → (s : S)
      → replay_loop callback fuel (at_start (take k (record_of m)) os) s
        ≡ throws Exception.runtime_error
  unfolding replay_loop record_of
  torn m k os zero l pos short b h s = absurd (omega arith)
  torn m k os (suc fuel) l pos short b h s =
      let payload = frame m.command m.key m.value in
      let n = length-frame m.command m.key m.value in
      let w = length-record m in
      let f = l.fits in
      let fails =
        read_payload-torn payload k os (omega (arith, f.key_fits, f.value_fits)) (omega arith) b in
      let some_left =
        pos-==-zero (length (take k (wrap payload)))
          (omega (arith, length-take k (wrap payload))) in
      rw (some_left, fails)

  -- A replay of a log whose last record is cut short, but not to nothing, by a kernel that does not
  -- fail and with one more than the length of the file as fuel, calls the callback on the mutations
  -- before that record, in order, and then throws a `runtime_error`.
  pub replay-torn :
      (ms : List Mutation) (m : Mutation) (k : ℕ) (os : List SysResult) (fuel : ℕ) (s : S)
      → All IsLoggable ms
      → IsLoggable m
      → 0 < k
      → k < length (record_of m)
      → IsBenign os
      → length (log_of ms ++ take k (record_of m)) < fuel
      → replay_loop callback fuel (at_start (log_of ms ++ take k (record_of m)) os) s
        ≡ (apply_all callback ms s >>= λ _. throws Exception.runtime_error)
  replay-torn ms m k os fuel s all l pos short b h =
      let (os', fuel', r, b', left) = replay-append ms (take k (record_of m)) os fuel all b h in
      r s ∙ >>=-ext (apply_all callback ms s) (torn m k os' fuel' l pos short b' (omega arith))
