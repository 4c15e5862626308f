-- ===== src/Connection/Transfers.antt =====
-- What `SendAll` and `RecvAll` have moved when they return.
use kvrpc.Base.{
  ℕ, zero, suc, ◌+◌, ◌-◌, ◌≤◌, ◌<◌, ◌≡◌, refl, sym, ap, ◌∙◌, ◌⊎◌, inl, inr, Bool, true, false, min,
  List, [], ◌∷◌, ◌++◌, Bytes, length, take, drop, take-append-drop, All, length-drop, pos-==-zero,
  length-take, length-append, append_assoc, append-nil, ◌==◌, Bool-cases, if_false, not, ◌||◌,
  true-ne-false, arith,
}
use kvrpc.Server.Pump.{SendResult, RecvResult}
use kvrpc.Connection.{
  Connection, Poll, late, elapsed, broken, interrupted, ready, int_max, send_rest, send_all,
  recv_rest, recv_all,
}

-- All of the bytes have been sent and the connection is as it was; or a first part of it, and the
-- connection is closed.
abbrev pub Sent : Bytes → Bytes → Connection → Bool × Bytes × Connection → Type 0
Sent before bytes c (done, wire, c') =
    (done ≡ true) × (wire ≡ before ++ bytes) × (c' ≡ c)
    ⊎ (done ≡ false)
      × (c'.connected ≡ false)
      × ((part : Bytes) × (rest : Bytes) × (bytes ≡ part ++ rest) × (wire ≡ before ++ part))

cut_short :
    (before bytes : Bytes) (c c' : Connection)
    → c'.connected ≡ false
    → Sent before bytes c (false, before, c')
cut_short before bytes c c' h = inr (refl, h, ([], bytes, refl, sym (append-nil before)))

Sent-more :
    (n : ℕ) (before bytes : Bytes) (c : Connection) (x : Bool × Bytes × Connection)
    → Sent (before ++ take n bytes) (drop n bytes) c x
    → Sent before bytes c x
Sent-more n before bytes c (done, wire, c') (inl (d, e, k)) = inl (
  d,
  e
      ∙ append_assoc before (take n bytes) (drop n bytes)
      ∙ ap (λ z. before ++ z) (take-append-drop n bytes),
  k,
)
Sent-more n before bytes c (done, wire, c') (inr (d, k, (part, rest, e, f))) = inr (
  d,
  k,
  (
    take n bytes ++ part,
    rest,
    sym (take-append-drop n bytes)
        ∙ ap (λ z. take n bytes ++ z) e
        ∙ sym (append_assoc (take n bytes) part rest),
    f ∙ append_assoc before (take n bytes) part,
  ),
)

pub send_rest_lem :
    (ps : List (Poll SendResult)) (bytes before : Bytes) (c : Connection)
    → Sent before bytes c (send_rest ps bytes before c)
unfolding send_rest
send_rest_lem ps [] before c = inl (refl, sym (append-nil before), refl)
send_rest_lem [] (b ∷ bs) before c = cut_short before (b ∷ bs) c _ refl
send_rest_lem (late ∷ ps) (b ∷ bs) before c = cut_short before (b ∷ bs) c _ refl
send_rest_lem (elapsed ∷ ps) (b ∷ bs) before c = cut_short before (b ∷ bs) c _ refl
send_rest_lem (broken ∷ ps) (b ∷ bs) before c = cut_short before (b ∷ bs) c _ refl
send_rest_lem (interrupted ∷ ps) (b ∷ bs) before c = send_rest_lem ps (b ∷ bs) before c
send_rest_lem (ready SendResult.send_interrupted ∷ ps) (b ∷ bs) before c =
    send_rest_lem ps (b ∷ bs) before c
send_rest_lem (ready SendResult.send_blocks ∷ ps) (b ∷ bs) before c =
    send_rest_lem ps (b ∷ bs) before c
send_rest_lem (ready SendResult.send_fails ∷ ps) (b ∷ bs) before c =
    cut_short before (b ∷ bs) c _ refl
send_rest_lem (ready (SendResult.moved k) ∷ ps) (b ∷ bs) before c =
    let n = min k (min (length (b ∷ bs)) int_max) in
    let more =
      Sent-more n before (b ∷ bs) c _
        (send_rest_lem ps (drop n (b ∷ bs)) (before ++ take n (b ∷ bs)) c) in
    elim (Bool-cases (n == 0)) [
      | inl z ↦ rw z (cut_short before (b ∷ bs) c _ refl)
      | inr z ↦ rw z more
    ]

-- A connected object goes on to the loop.
send_all_open :
    (ps : List (Poll SendResult)) (bytes : Bytes) (c : Connection)
    → c.connected ≡ true
    → send_all ps false bytes c ≡ send_rest ps bytes [] c
unfolding send_all
send_all_open ps bytes c h = if_false (not c.connected || false) _ _ (ap (λ b. not b || false) h)

recv_all_open :
    (ps : List (Poll RecvResult)) (len : ℕ) (c : Connection)
    → c.connected ≡ true
    → recv_all ps false len c ≡ recv_rest ps len [] c
unfolding recv_all
recv_all_open ps len c h = if_false (not c.connected || false) _ _ (ap (λ b. not b || false) h)

-- `SendAll` on a connected object returns true, has sent all of the bytes and has changed nothing
-- else; or it returns false, has sent a first part of them, and has closed the connection.
pub send_all_lem :
    (ps : List (Poll SendResult)) (bytes : Bytes) (c : Connection)
    → c.connected ≡ true
    → Sent [] bytes c (send_all ps false bytes c)
send_all_lem ps bytes c h = rw (send_all_open ps bytes c h) (send_rest_lem ps bytes [] c)

-- All of the bytes have been received and the connection is as it was; or fewer, and it is closed.
abbrev pub Got : ℕ → Connection → Bool × Bytes × Connection → Type 0
Got len c (done, got, c') =
    (done ≡ true) × (length got ≡ len) × (c' ≡ c)
    ⊎ (done ≡ false) × (length got < len) × (c'.connected ≡ false)

recv_rest_lem :
    (ps : List (Poll RecvResult)) (left len : ℕ) (got : Bytes) (c : Connection)
    → length got + left ≡ len
    → Got len c (recv_rest ps left got c)
unfolding recv_rest
recv_rest_lem ps zero len got c h = inl (refl, omega arith, refl)
recv_rest_lem [] (suc left) len got c h = inr (refl, omega arith, refl)
recv_rest_lem (late ∷ ps) (suc left) len got c h = inr (refl, omega arith, refl)
recv_rest_lem (elapsed ∷ ps) (suc left) len got c h = inr (refl, omega arith, refl)
recv_rest_lem (broken ∷ ps) (suc left) len got c h = inr (refl, omega arith, refl)
recv_rest_lem (interrupted ∷ ps) (suc left) len got c h = recv_rest_lem ps (suc left) len got c h
recv_rest_lem (ready RecvResult.recv_interrupted ∷ ps) (suc left) len got c h =
    recv_rest_lem ps (suc left) len got c h
recv_rest_lem (ready RecvResult.recv_blocks ∷ ps) (suc left) len got c h =
    recv_rest_lem ps (suc left) len got c h
recv_rest_lem (ready RecvResult.recv_fails ∷ ps) (suc left) len got c h =
    inr (refl, omega arith, refl)
recv_rest_lem (ready (RecvResult.received bytes) ∷ ps) (suc left) len got c h =
    let more = take (min (suc left) int_max) bytes in
    let n = length-take (min (suc left) int_max) bytes in
    let next =
      recv_rest_lem ps (suc left - length more) len (got ++ more) c
        (omega (arith, h, n, length-append got more)) in
    elim (Bool-cases (length more == 0)) [
      | inl z ↦ rw z (inr (refl, omega arith, refl))
      | inr z ↦ rw z next
    ]

-- `RecvAll` on a connected object returns true, has as many bytes as were asked for and has changed
-- nothing else; or it returns false, has fewer, and has closed the connection.
pub recv_all_lem :
    (ps : List (Poll RecvResult)) (len : ℕ) (c : Connection)
    → c.connected ≡ true
    → Got len c (recv_all ps false len c)
recv_all_lem ps len c h =
    rw (recv_all_open ps len c h) (recv_rest_lem ps len len [] c (omega arith))

-- A round in which nothing fails and time remains.
abbrev pub IsKind : Poll SendResult → Type 0
IsKind interrupted = Unit
IsKind (ready SendResult.send_interrupted) = Unit
IsKind (ready SendResult.send_blocks) = Unit
IsKind (ready (SendResult.moved k)) = 0 < k
IsKind _ = ⊥

-- The rounds of a script that send something.
abbrev pub moves : List (Poll SendResult) → ℕ
moves [] = 0
moves (ready (SendResult.moved k) ∷ ps) = suc (moves ps)
moves (_ ∷ ps) = moves ps

send_rest_done :
    (ps : List (Poll SendResult)) (bytes before : Bytes) (c : Connection)
    → All IsKind ps
    → length bytes ≤ moves ps
    → (send_rest ps bytes before c).0 ≡ true
unfolding send_rest
send_rest_done ps [] before c all h = refl
send_rest_done [] (b ∷ bs) before c all h = absurd (omega arith)
send_rest_done (late ∷ ps) (b ∷ bs) before c all h = absurd all.0
send_rest_done (elapsed ∷ ps) (b ∷ bs) before c all h = absurd all.0
send_rest_done (broken ∷ ps) (b ∷ bs) before c all h = absurd all.0
send_rest_done (interrupted ∷ ps) (b ∷ bs) before c all h =
    send_rest_done ps (b ∷ bs) before c all.1 h
send_rest_done (ready SendResult.send_interrupted ∷ ps) (b ∷ bs) before c all h =
    send_rest_done ps (b ∷ bs) before c all.1 h
send_rest_done (ready SendResult.send_blocks ∷ ps) (b ∷ bs) before c all h =
    send_rest_done ps (b ∷ bs) before c all.1 h
send_rest_done (ready SendResult.send_fails ∷ ps) (b ∷ bs) before c all h = absurd all.0
send_rest_done (ready (SendResult.moved k) ∷ ps) (b ∷ bs) before c all h =
    let n = min k (min (length (b ∷ bs)) int_max) in
    let some_bytes : 0 < n = omega (arith, all.0) in
    let rest =
      send_rest_done ps (drop n (b ∷ bs)) (before ++ take n (b ∷ bs)) c all.1
        (omega (arith, length-drop n (b ∷ bs), h)) in
    rw (pos-==-zero n some_bytes) rest

-- `SendAll` on a connected object returns true and has sent all of the bytes if no round fails or
-- comes too late and at least as many rounds send something as there are bytes.
pub send_all_done :
    (ps : List (Poll SendResult)) (bytes : Bytes) (c : Connection)
    → c.connected ≡ true
    → All IsKind ps
    → length bytes ≤ moves ps
    → send_all ps false bytes c ≡ (true, bytes, c)
send_all_done ps bytes c h all enough =
    let done =
      ap (λ (x : Bool × Bytes × Connection). x.0) (send_all_open ps bytes c h)
      ∙ send_rest_done ps bytes [] c all enough in
    elim (send_all_lem ps bytes c h) [
      | inl (d, e, k) ↦ cc
      | inr (d, _, _) ↦ absurd (true-ne-false done d)
    ]
