-- ===== src/Server/Pump/Replies.antt =====
-- The callback with a reply: what `Pump` is then given, and what the peer has to send.
use kvrpc.Base.{
  true-ne-false, ℕ, ◌+◌, ◌-size◌, size_sub, ◌≤◌, ◌<◌, ◌≡◌, refl, sym, ap, subst, ◌∙◌, inl, inr,
  true, false, List, [], ◌∷◌, ◌++◌, Bytes, length, All, All-append, concat, concat-append,
  append_assoc, append-nil, length-append, length-drop, drop, drop-append_short, pos-==-zero, ◌⊎◌,
  ◌==◌, if◌then◌else◌, if_true, if_false, Bool-cases, arith,
}
use kvrpc.Buffer.{buffer_data}
use kvrpc.Buffer.Queue.{consume_lem}
use kvrpc.Service.{Reply}
use kvrpc.Server.{Config, Job}
use kvrpc.Server.Pump.{Peer, World, close_peer, is_framed, bad_reply, take_reply, complete}
use kvrpc.Server.Pump.Sending.{Short, unsent}
use kvrpc.Server.Pump.Receiving.{IsReceiving, buffer_size_lem}
use kvrpc.Server.Pump.Framing.{IsJob, inputs, close_peer-Shut}
use kvrpc.Server.Pump.Limits.{IsPeer, Pumps, Shut-Still, Still-Pumps}
use kvrpc.Server.Pump.Stages.{Pumps-pump}

-- A peer that a reply closes.
pub record Drops (c : Config) (w w' : World) : Type 0 where
  pub valid : IsPeer c w'.peer
  pub closed : w'.peer.closed ≡ true
  pub jobs : w'.runtime.jobs ≡ w.runtime.jobs
  pub output : w'.wire ++ unsent w'.peer ≡ w.wire ++ unsent w.peer
  pub token : w'.peer.token ≡ w.peer.token

-- As `Pumps`, with a reply that is taken first.
pub record Answers (c : Config) (job : Job) (reply : Reply) (w w' : World) : Type 0 where
  pub valid : IsPeer c w'.peer
  pub got : Bytes
  pub new : List Job
  pub jobs : w'.runtime.jobs ≡ w.runtime.jobs ++ new
  pub made : All (IsJob c w.peer.token) new
  pub input :
      is_framed c ≡ true
      → w'.peer.closed ≡ false
      → job.framed ≡ true
      → inputs new ++ buffer_data w'.peer.input ≡ buffer_data w.peer.input ++ got
  pub pending : w'.peer.closed ≡ false → w'.peer.pending + 1 ≡ w.peer.pending + length new
  pub output : w'.wire ++ unsent w'.peer ≡ (w.wire ++ unsent w.peer) ++ reply.bytes
  pub token : w'.peer.token ≡ w.peer.token

-- A reply behind the others.
Short-append :
    (n : ℕ) (bs : List Bytes) (b : Bytes) → Short n bs → 0 < length b → Short n (bs ++ b ∷ [])
Short-append n [] b z h = (omega arith, tt)
Short-append n (x ∷ xs) b (lt, all) h = (lt, All-append _ xs (b ∷ []) all (h, tt))

put_reply :
    (bytes : Bytes) (n : ℕ) (output : List Bytes)
    → Short n output
    → let output' = if length bytes == 0 then output else output ++ bytes ∷ [] in
      Short n output' × (concat output' ≡ concat output ++ bytes)
put_reply [] n output h = (h, sym (append-nil (concat output)))
put_reply (b ∷ bs) n output h = rw (pos-==-zero (length (b ∷ bs)) (omega arith)) (
  Short-append n output (b ∷ bs) h (omega arith),
  concat-append output ((b ∷ bs) ∷ []) ∙ ap (λ z. concat output ++ z) (append-nil (b ∷ bs)),
)

module _ (c : Config) where
  bounds_of :
      (job : Job) (reply : Reply) (p : Peer)
      → p.output_bytes ≤ c.options.output_bytes
      → bad_reply c job reply p ≡ false
      → (reply.consumed ≤ job.size) × (p.output_bytes + length reply.bytes ≤ c.options.output_bytes)
  bounds_of job reply p h ok =
      let s = size_sub c.options.output_bytes p.output_bytes h in ground arith

  -- What a reply that is taken does to the input of its peer.
  take_reply-IsReceiving :
      (job : Job) (reply : Reply) (p : Peer)
      → IsReceiving c p
      → reply.consumed ≤ job.size
      → (job.framed ≡ false → job.size ≤ length (buffer_data p.input))
      → IsReceiving c (take_reply job reply p)
  take_reply-IsReceiving job reply p v le held = elim (Bool-cases job.framed) [
    | inl f ↦ rw f (record { buffer = v.buffer; fits = v.fits })
    | inr f ↦
        let n = buffer_size_lem p.input v.buffer in
        let (w, data', _) = consume_lem reply.consumed p.input v.buffer (omega (arith, held f)) in
        rw f (record {
          buffer = w;
          fits =
              omega
                (arith, ap length data', length-drop reply.consumed (buffer_data p.input), v.fits);
        })
  ]

  -- A reply that is taken goes behind the output of its peer.
  take_reply-IsPeer :
      (job : Job) (reply : Reply) (p : Peer)
      → IsPeer c p
      → (job.framed ≡ false → job.size ≤ length (buffer_data p.input))
      → bad_reply c job reply p ≡ false
      → IsPeer c (take_reply job reply p)
        × (unsent (take_reply job reply p) ≡ unsent p ++ reply.bytes)
  take_reply-IsPeer job reply p v held good =
      let (le, fits) = bounds_of job reply p v.output_bytes good in
      let (short, all) = put_reply reply.bytes p.sent p.output v.sending.short in
      let counted = ap length all in
      let total = length-append (concat p.output) reply.bytes in
      (
        record {
          sending = record {
            counted = omega (arith, counted, total, v.sending.counted);
            short = short;
          };
          receiving = take_reply-IsReceiving job reply p v.receiving le held;
          pending = v.pending;
          output_bytes = fits;
        },
        ap (drop p.sent) all
            ∙ drop-append_short p.sent (concat p.output) reply.bytes
                (omega (arith, v.sending.counted)),
      )

  -- The peer that the callback hands to `Pump`.
  abbrev pub taken : Job → Reply → World → World
  taken job reply w =
      let p = record w.peer { pending = w.peer.pending -size 1 } in
      let r = w.runtime in
      record w {
        peer = take_reply job reply p;
        runtime = if reply.consumed == 0 then r else record r { requests = r.requests + 1 };
      }

  taken_jobs :
      (job : Job) (reply : Reply) (w : World) → (taken job reply w).runtime.jobs ≡ w.runtime.jobs
  taken_jobs job reply w = elim (Bool-cases (reply.consumed == 0)) [
    | inl z ↦ rw z refl
    | inr z ↦ rw z refl
  ]

  taken_data :
      (job : Job) (reply : Reply) (w : World)
      → job.framed ≡ true
      → buffer_data (taken job reply w).peer.input ≡ buffer_data w.peer.input
  taken_data job reply w f = ap buffer_data (if_true job.framed w.peer.input _ f)

  pumped :
      (now : ℕ) (job : Job) (reply : Reply) (w : World) {w' : World} {got : Bytes}
      → 0 < w.peer.pending
      → Pumps c got (taken job reply w) w'
      → unsent (taken job reply w).peer ≡ unsent w.peer ++ reply.bytes
      → Answers c job reply w w'
  pumped now job reply w {got} h a out =
      let s = size_sub w.peer.pending 1 (omega arith) in
      record {
        valid = a.valid;
        got = got;
        new = a.new;
        jobs = a.jobs ∙ ap (λ z. z ++ a.new) (taken_jobs job reply w);
        made = a.made;
        input = λ f o f'. a.input f o ∙ ap (λ z. z ++ got) (taken_data job reply w f');
        pending = λ o. omega (arith, a.pending o, s);
        output =
            a.output
            ∙ ap (λ z. w.wire ++ z) out
            ∙ sym (append_assoc w.wire (unsent w.peer) reply.bytes);
        token = a.token;
      }

  less_pending :
      (p : Peer) → IsPeer c p → 0 < p.pending → IsPeer c (record p { pending = p.pending -size 1 })
  less_pending p v h =
      let s = size_sub p.pending 1 (omega arith) in
      record {
        sending = record { counted = v.sending.counted; short = v.sending.short };
        receiving = record { buffer = v.receiving.buffer; fits = v.receiving.fits };
        pending = omega (arith, s, v.pending);
        output_bytes = v.output_bytes;
      }

  -- A reply is dropped with its peer, or sent behind what the peer had still to send.
  pub complete_lem :
      (now : ℕ) (job : Job) (reply : Reply) (w : World)
      → IsPeer c w.peer
      → w.peer.closed ≡ false
      → 0 < w.peer.pending
      → (job.framed ≡ false → job.size ≤ length (buffer_data w.peer.input))
      → let bad = bad_reply c job reply (record w.peer { pending = w.peer.pending -size 1 }) in
        ((bad ≡ true) × Drops c w (complete c now job reply w))
        ⊎ ((bad ≡ false) × Answers c job reply w (complete c now job reply w))
  unfolding complete
  complete_lem now job reply w v o h held =
      let p = record w.peer { pending = w.peer.pending -size 1 } in
      let w₁ = record w { peer = p } in
      let v' = less_pending w.peer v h in
      let k = close_peer-Shut w₁ in
      let a = Still-Pumps c {w = w₁} v' (Shut-Still k) in
      let bad = bad_reply c job reply p in
      let drops : Drops c w (close_peer w₁) = record {
        valid = a.valid;
        closed = k.closed;
        jobs = k.jobs;
        output = a.output;
        token = k.token;
      } in
      elim (Bool-cases bad) [
        | inl e ↦
            inl
              (e, subst (Drops c w) (sym (if_false w.peer.closed _ _ o ∙ if_true bad _ _ e)) drops)
        | inr e ↦
            let (v₁, out) = take_reply-IsPeer job reply p v' held e in
            inr (
              e,
              subst (Answers c job reply w)
                  (sym (if_false w.peer.closed _ _ o ∙ if_false bad _ _ e))
                  (pumped now job reply w h (Pumps-pump c now (taken job reply w) v₁).1 out),
            )
      ]

  -- When an open peer within its bounds, with a pending job, gets the reply of a framed job, its
  -- bounds still hold; and either the reply is a bad one, and the peer is closed with none of its
  -- bytes, or the bytes of the reply are, after what was sent and what was left to send before, the
  -- end of what has been sent and is left to send.
  pub reply_lem :
      (now : ℕ) (job : Job) (reply : Reply) (w : World)
      → IsPeer c w.peer
      → w.peer.closed ≡ false
      → 0 < w.peer.pending
      → job.framed ≡ true
      → let w' = complete c now job reply w in
        let bad = bad_reply c job reply (record w.peer { pending = w.peer.pending -size 1 }) in
        IsPeer c w'.peer
        × ((bad ≡ true)
              × (w'.peer.closed ≡ true)
              × (w'.wire ++ unsent w'.peer ≡ w.wire ++ unsent w.peer)
            ⊎ (bad ≡ false)
              × (w'.wire ++ unsent w'.peer ≡ (w.wire ++ unsent w.peer) ++ reply.bytes))
  reply_lem now job reply w v o h f =
      elim (complete_lem now job reply w v o h (λ k. absurd (true-ne-false f k))) [
        | inl (b, d) ↦ (d.valid, inl (b, d.closed, d.output))
        | inr (b, a) ↦ (a.valid, inr (b, a.output))
      ]
