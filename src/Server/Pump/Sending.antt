-- ===== src/Server/Pump/Sending.antt =====
-- What a peer sends: every byte of its replies once and in order.
use kvrpc.Base.{
  ℕ, zero, suc, ◌+◌, ◌-◌, ◌-size◌, size_sub, ◌≤◌, ◌<◌, ◌≡◌, refl, sym, ap, subst, ◌∙◌, inl, inr,
  List, [], ◌∷◌, ◌++◌, Bytes, length, All, List-cases, take, drop, min, concat, append_assoc,
  drop-add, drop-append, drop-append_short, take-append_short, take-append-drop, length-append,
  length-drop, ◌==◌, if◌then◌else◌, if_true, if_false, Bool-cases, arith,
}
use kvrpc.Server.{Config}
use kvrpc.Server.Pump.{
  Peer, World, SendResult, moved, send_interrupted, send_blocks, send_fails, close_peer, sent_some,
  send_loop,
}

-- The replies are not empty, and less than the first has been sent.
abbrev pub Short : ℕ → List Bytes → Type 0
Short n [] = n ≡ 0
Short n (b ∷ bs) = (n < length b) × All (λ x. 0 < length x) bs

pub record IsSending (p : Peer) : Type 0 where
  pub counted : p.output_bytes + p.sent ≡ length (concat p.output)
  pub short : Short p.sent p.output

-- The bytes that are still to be sent.
abbrev pub unsent : Peer → Bytes
unsent p = drop p.sent (concat p.output)

-- What sending leaves alone.
pub record Sends (w w' : World) : Type 0 where
  pub sending : IsSending w'.peer
  pub stream : w'.wire ++ unsent w'.peer ≡ w.wire ++ unsent w.peer
  pub input : w'.peer.input ≡ w.peer.input
  pub pending : w'.peer.pending ≡ w.peer.pending
  pub output_bytes : w'.peer.output_bytes ≤ w.peer.output_bytes
  pub token : w'.peer.token ≡ w.peer.token
  pub jobs : w'.runtime.jobs ≡ w.runtime.jobs
  pub receives : w'.receives ≡ w.receives

Short_next : (bs : List Bytes) → All (λ x. 0 < length x) bs → Short 0 bs
Short_next [] all = refl
Short_next (b ∷ bs) all = all

stream_more :
    (s n : ℕ) (bytes rest wire : Bytes)
    → s ≤ length bytes
    → n ≤ length bytes - s
    → (wire ++ take n (drop s bytes)) ++ drop (s + n) (bytes ++ rest)
      ≡ wire ++ drop s (bytes ++ rest)
stream_more s n bytes rest wire hs hn =
    let left = drop s bytes ++ rest in
    let split : drop s (bytes ++ rest) ≡ left = drop-append_short s bytes rest hs in
    let took : take n left ≡ take n (drop s bytes) =
      take-append_short n (drop s bytes) rest (omega (arith, length-drop s bytes)) in
    append_assoc wire (take n (drop s bytes)) (drop (s + n) (bytes ++ rest))
    ∙ ap (λ z. wire ++ (take n (drop s bytes) ++ z))
        (drop-add s n (bytes ++ rest) ∙ ap (drop n) split)
    ∙ ap (λ z. wire ++ (z ++ drop n left)) (sym took)
    ∙ ap (λ z. wire ++ z) (take-append-drop n left ∙ sym split)

module _ (c : Config) (now : ℕ) (n : ℕ) (bytes : Bytes) (rest : List Bytes) (w : World) where
  sent_some-Sends :
      w.peer.output ≡ bytes ∷ rest
      → IsSending w.peer
      → n ≤ length bytes - w.peer.sent
      → Sends w (sent_some c now n bytes rest w)
  unfolding sent_some
  sent_some-Sends at v h =
      let s = w.peer.sent in
      let counted : w.peer.output_bytes + s ≡ length (bytes ++ concat rest) =
        v.counted ∙ ap (λ o. length (concat o)) at in
      let short : (s < length bytes) × All (λ x. 0 < length x) rest = subst (Short s) at v.short in
      let total = length-append bytes (concat rest) in
      let sub = size_sub w.peer.output_bytes n (omega arith) in
      let stream = stream_more s n bytes (concat rest) w.wire (omega arith) h in
      let old = ap (λ o. w.wire ++ drop s (concat o)) (sym at) in
      elim (Bool-cases (s + n == length bytes)) [
        | inl p ↦
            let e : s + n ≡ length bytes = ground arith in
            let gone : drop 0 (concat rest) ≡ drop (s + n) (bytes ++ concat rest) =
              (unfold drop in sym (drop-append (s + n) bytes (concat rest) e)) in
            rw p (record {
              sending = record {
                counted = rw sub (omega (arith, total));
                short = Short_next rest short.1;
              };
              stream = ap (λ z. (w.wire ++ take n (drop s bytes)) ++ z) gone ∙ stream ∙ old;
              input = refl;
              pending = refl;
              output_bytes = rw sub (omega arith);
              token = refl;
              jobs = refl;
              receives = refl;
            })
        | inr p ↦
            let more : s + n < length bytes = ground arith in
            rw p (record {
              sending = record {
                counted = rw sub (omega (arith, v.counted));
                short = subst (Short (s + n)) (sym at) (more, short.1);
              };
              stream =
                  ap (λ o. (w.wire ++ take n (drop s bytes)) ++ drop (s + n) (concat o)) at
                  ∙ stream
                  ∙ old;
              input = refl;
              pending = refl;
              output_bytes = rw sub (omega arith);
              token = refl;
              jobs = refl;
              receives = refl;
            })
      ]

Sends-trans : {w w' w'' : World} → Sends w w' → Sends w' w'' → Sends w w''
Sends-trans {w} {w'} {w''} a b = record {
  sending = b.sending;
  stream = b.stream ∙ a.stream;
  input = b.input ∙ a.input;
  pending = b.pending ∙ a.pending;
  output_bytes = omega (arith, a.output_bytes, b.output_bytes);
  token = b.token ∙ a.token;
  jobs = b.jobs ∙ a.jobs;
  receives = b.receives ∙ a.receives;
}

-- A world of which only the script, or whether the peer is closed, has changed.
Sends-script :
    (w : World) (os : List SendResult) → IsSending w.peer → Sends w (record w { sends = os })
Sends-script w os v = record {
  sending = v;
  stream = refl;
  input = refl;
  pending = refl;
  output_bytes = omega arith;
  token = refl;
  jobs = refl;
  receives = refl;
}

pub Sends-close : (w : World) → IsSending w.peer → Sends w (close_peer w)
unfolding close_peer
Sends-close w v = elim (Bool-cases w.peer.closed) [
  | inl p ↦ subst (Sends w) (sym (if_true w.peer.closed _ _ p)) (Sends-script w w.sends v)
  | inr p ↦ subst (Sends w) (sym (if_false w.peer.closed _ _ p)) (record {
    sending = record { counted = v.counted; short = v.short };
    stream = refl;
    input = refl;
    pending = refl;
    output_bytes = omega arith;
    token = refl;
    jobs = refl;
    receives = refl;
  })
]

module _ (c : Config) (now : ℕ) where
  send_none :
      (r : SendResult) (os : List SendResult) (budget : ℕ) (w : World)
      → w.peer.output ≡ []
      → send_loop c now (r ∷ os) (suc budget) w ≡ (record w { sends = r ∷ os }, suc budget)
  unfolding send_loop
  send_none r os budget w at = simp (at, send_loop)

  -- One result, when there is something to send.
  abbrev one_send : SendResult → List SendResult → ℕ → Bytes → List Bytes → World → World × ℕ
  one_send send_interrupted os budget bytes rest w = send_loop c now os (suc budget) w
  one_send send_blocks os budget bytes rest w = (record w { sends = os }, suc budget)
  one_send send_fails os budget bytes rest w = (close_peer (record w { sends = os }), suc budget)
  one_send (moved k) os budget bytes rest w =
      let n = min k (min (suc budget) (length bytes -size w.peer.sent)) in
      if n == 0
      then (close_peer (record w { sends = os }), suc budget)
      else send_loop c now os (suc budget - n) (sent_some c now n bytes rest w)

  send_one :
      (r : SendResult) (os : List SendResult) (budget : ℕ) (w : World) {bytes : Bytes}
      {rest : List Bytes}
      → w.peer.output ≡ bytes ∷ rest
      → send_loop c now (r ∷ os) (suc budget) w ≡ one_send r os budget bytes rest w
  unfolding send_loop
  send_one send_interrupted os budget w at = simp (at, send_loop)
  send_one send_blocks os budget w at = simp (at, send_loop)
  send_one send_fails os budget w at = simp (at, send_loop)
  send_one (moved k) os budget w at = simp (at, send_loop)

  Sends-one_send :
      (r : SendResult) (os : List SendResult) (budget : ℕ) (bytes : Bytes) (rest : List Bytes)
      (w : World)
      → w.peer.output ≡ bytes ∷ rest
      → IsSending w.peer
      → ((b : ℕ) (w' : World) → IsSending w'.peer → Sends w' (send_loop c now os b w').0)
      → Sends w (one_send r os budget bytes rest w).0
  Sends-one_send send_interrupted os budget bytes rest w at v ih = ih (suc budget) w v
  Sends-one_send send_blocks os budget bytes rest w at v ih = Sends-script w os v
  Sends-one_send send_fails os budget bytes rest w at v ih =
      Sends-trans (Sends-script w os v) (Sends-close (record w { sends = os }) v)
  Sends-one_send (moved k) os budget bytes rest w at v ih =
      let n = min k (min (suc budget) (length bytes -size w.peer.sent)) in
      let short : (w.peer.sent < length bytes) × All (λ x. 0 < length x) rest =
        subst (Short w.peer.sent) at v.short in
      let le : n ≤ length bytes - w.peer.sent =
        omega (arith, size_sub (length bytes) w.peer.sent (omega arith)) in
      elim (Bool-cases (n == 0)) [
        | inl z ↦ rw z (Sends-trans (Sends-script w os v) (Sends-close (record w { sends = os }) v))
        | inr z ↦
            let a = sent_some-Sends c now n bytes rest w at v le in
            rw z (Sends-trans a (ih (suc budget - n) (sent_some c now n bytes rest w) a.sending))
      ]

  -- The loop sends the replies in order, each byte once, and keeps the count of those left.
  pub Sends-send_loop :
      (os : List SendResult) (budget : ℕ) (w : World)
      → IsSending w.peer
      → Sends w (send_loop c now os budget w).0
  Sends-send_loop os zero w v = unfold send_loop in Sends-script w os v
  Sends-send_loop [] (suc budget) w v = unfold send_loop in Sends-script w [] v
  Sends-send_loop (r ∷ os) (suc budget) w v = elim (List-cases w.peer.output) [
    | inl at ↦
        subst (λ z. Sends w z.0) (sym (send_none r os budget w at)) (Sends-script w (r ∷ os) v)
    | inr (bytes, rest, at) ↦
        subst (λ z. Sends w z.0) (sym (send_one r os budget w at))
          (Sends-one_send r os budget bytes rest w at v (Sends-send_loop os))
  ]
