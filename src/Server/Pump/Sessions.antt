-- ===== src/Server/Pump/Sessions.antt =====
-- What holds of a peer after any steps of its event loop.
use kvrpc.Base.{
  true-ne-false, ℕ, ◌+◌, ◌≤◌, ◌≡◌, refl, sym, ap, subst, ◌∙◌, inl, inr, true, false, List, [], ◌∷◌,
  ◌++◌, Bytes, length, All, All-append, length-append, append-nil, drop, drop-append, if◌then◌else◌,
  if_true, if_false, Bool-cases, arith, ◌-size◌,
}
use kvrpc.Buffer.{buffer_data}
use kvrpc.Service.{Reply}
use kvrpc.Server.{Config, Job, Runtime}
use kvrpc.Server.Pump.{
  Peer, World, SendResult, RecvResult, close_peer, time_out, pump, is_framed, limit_of, bad_reply,
  complete, scheduled_pump, on_event,
}
use kvrpc.Server.Pump.Sending.{unsent}
use kvrpc.Server.Pump.Framing.{IsJob, close_peer-Shut}
use kvrpc.Server.Pump.Limits.{IsPeer, Pumps, Still, Still-trans, Still-Pumps, Shut-Still}
use kvrpc.Server.Pump.Stages.{Pumps-pump}
use kvrpc.Server.Pump.Replies.{complete_lem}
use kvrpc.Server.Pump.Events.{
  Event, ready, posted, timed, run_event, Session, queued, elsewhere, attached, after_event,
  after_reply, Step, happens, answered, Reach, started, then_step,
}

-- While a peer is open, `pending` counts its jobs that have no reply; and what has been sent, with
-- what is left to send, is the replies.
pub record IsSession (c : Config) (id : ℕ) (s : Session) : Type 0 where
  pub peer : IsPeer c s.world.peer
  pub pending : s.world.peer.closed ≡ false → s.world.peer.pending ≡ length s.outstanding
  pub jobs : All (IsJob c id) s.outstanding
  pub replies : s.world.wire ++ unsent s.world.peer ≡ s.replies
  pub token : s.world.peer.token ≡ id

Still-runtime :
    (w : World) (n : ℕ) → Still w (record w { runtime = record w.runtime { timeouts = n } })
Still-runtime w n = record {
  input = refl;
  pending = refl;
  jobs = refl;
  output = refl;
  sent = refl;
  output_bytes = refl;
  token = refl;
  wire = refl;
  receives = refl;
}

unscheduled : {c : Config} (p : Peer) → IsPeer c p → IsPeer c (record p { scheduled = false })
unscheduled p v = record {
  sending = record { counted = v.sending.counted; short = v.sending.short };
  receiving = record { buffer = v.receiving.buffer; fits = v.receiving.fits };
  pending = v.pending;
  output_bytes = v.output_bytes;
}

module _ (c : Config) (token : ℕ) where
  -- Flags and counters of `w` that a callback changes before it runs.
  close-Pumps : (w w₁ : World) → IsPeer c w.peer → Still w w₁ → Pumps c [] w (close_peer w₁)
  close-Pumps w w₁ v k = Still-Pumps c v (Still-trans k (Shut-Still (close_peer-Shut w₁)))

  run_event-Pumps :
      (now : ℕ) (e : Event) (w : World)
      → IsPeer c w.peer
      → (got : Bytes) × Pumps c got w (run_event c now e w)
  unfolding run_event on_event scheduled_pump time_out
  run_event-Pumps now (ready failed) w v = elim (Bool-cases failed) [
    | inl h ↦ rw h ([], close-Pumps w w v (Still-runtime w w.runtime.timeouts))
    | inr h ↦ rw h (Pumps-pump c now w v)
  ]
  run_event-Pumps now posted w v =
      let (got, a) =
        Pumps-pump c now (record w { peer = record w.peer { scheduled = false } })
          (unscheduled w.peer v) in
      (
        got,
        record {
          valid = a.valid;
          new = a.new;
          jobs = a.jobs;
          made = a.made;
          input = a.input;
          pending = a.pending;
          output = a.output;
          token = a.token;
        },
      )
  run_event-Pumps now timed w v =
      let w₁ = record w { runtime = record w.runtime { timeouts = w.runtime.timeouts + 1 } } in
      elim (Bool-cases w.peer.closed) [
        | inl h ↦
            subst (λ z. (got : Bytes) × Pumps c got w z) (sym (if_true w.peer.closed _ _ h))
              ([], Still-Pumps c v (Still-runtime w w.runtime.timeouts))
        | inr h ↦
            subst (λ z. (got : Bytes) × Pumps c got w z) (sym (if_false w.peer.closed _ _ h))
              ([], close-Pumps w w₁ v (Still-runtime w (w.runtime.timeouts + 1)))
      ]

  pump_closed : (now : ℕ) (w : World) → w.peer.closed ≡ true → (pump c now w).peer.closed ≡ true
  unfolding pump
  pump_closed now w h = ap (λ (z : World). z.peer.closed) (if_true w.peer.closed _ _ h) ∙ h

  run_event_closed :
      (now : ℕ) (e : Event) (w : World)
      → w.peer.closed ≡ true
      → (run_event c now e w).peer.closed ≡ true
  unfolding run_event on_event scheduled_pump
  run_event_closed now (ready failed) w h = elim (Bool-cases failed) [
    | inl f ↦ rw f (close_peer-Shut w).closed
    | inr f ↦ rw f (pump_closed now w h)
  ]
  run_event_closed now posted w h =
      pump_closed now (record w { peer = record w.peer { scheduled = false } }) h
  run_event_closed now timed w h =
      ap (λ (z : World). z.peer.closed) (if_true w.peer.closed _ _ h) ∙ h

  -- The jobs that `queued` finds are those that were put behind the others.
  queued_new :
      (w w' : World) (new : List Job) → w'.runtime.jobs ≡ w.runtime.jobs ++ new → queued w w' ≡ new
  queued_new w w' new e =
      ap (drop (length w.runtime.jobs)) e
      ∙ drop-append (length w.runtime.jobs) w.runtime.jobs new refl

  after_event-IsSession :
      (now : ℕ) (e : Event) (w : World) (s : Session)
      → IsSession c token (record s { world = w })
      → IsSession c token (after_event c now e w s)
  after_event-IsSession now e w s v =
      let a = (run_event-Pumps now e w v.peer).1 in
      let w' = run_event c now e w in
      let new = queued_new w w' a.new a.jobs in
      record {
        peer = a.valid;
        pending = λ o. elim (Bool-cases w.peer.closed) [
          | inl h ↦ absurd (true-ne-false (run_event_closed now e w h) o)
          | inr h ↦ omega (
            arith,
            a.pending o,
            v.pending h,
            length-append s.outstanding (queued w w'),
            ap length new,
          )
        ];
        jobs = All-append (IsJob c token) s.outstanding (queued w w') v.jobs (
            subst (All (IsJob c token)) (sym new)
              (subst (λ t. All (IsJob c t) a.new) v.token a.made));
        replies = a.output ∙ v.replies;
        token = a.token ∙ v.token;
      }

  -- What holds of the jobs holds of one of them and of the rest.
  without :
      (front : List Job) (job : Job) (back : List Job)
      → All (IsJob c token) (front ++ job ∷ back)
      → IsJob c token job × All (IsJob c token) (front ++ back)
  without [] job back all = all
  without (x ∷ front) job back (h, all) =
      let (j, rest) = without front job back all in (j, (h, rest))

  -- A session of which a job has its reply.
  replied :
      (w w' : World) (left new : List Job) (replies : Bytes)
      → All (IsJob c token) left
      → IsPeer c w'.peer
      → w'.runtime.jobs ≡ w.runtime.jobs ++ new
      → All (IsJob c token) new
      → (w'.peer.closed ≡ false → w'.peer.pending ≡ length left + length new)
      → w'.wire ++ unsent w'.peer ≡ replies
      → w'.peer.token ≡ token
      → IsSession c token
          (record { world = w'; outstanding = left ++ queued w w'; replies = replies })
  replied w w' left new replies all v jobs made pending out id =
      let e = queued_new w w' new jobs in
      record {
        peer = v;
        pending = λ o. omega (arith, pending o, length-append left (queued w w'), ap length e);
        jobs =
            All-append (IsJob c token) left (queued w w') all
              (subst (All (IsJob c token)) (sym e) made);
        replies = out;
        token = id;
      }

  after_reply-IsSession :
      is_framed c ≡ true
      → (now : ℕ) (front : List Job) (job : Job) (back : List Job) (reply : Reply) (w : World)
        (s : Session)
      → s.outstanding ≡ front ++ job ∷ back
      → IsSession c token (record s { world = w })
      → IsSession c token (after_reply c now front job back reply w s)
  after_reply-IsSession framed now front job back reply w s at v =
      let (j, rest) = without front job back (subst (All (IsJob c token)) at v.jobs) in
      let w' = complete c now job reply w in
      let bad = bad_reply c job reply (record w.peer { pending = w.peer.pending -size 1 }) in
      let n = ap length at ∙ length-append front (job ∷ back) in
      let m = length-append front back in
      let answer = replied w w' (front ++ back) in
      let as_replies : Bytes → Session =
        λ r. record { world = w'; outstanding = (front ++ back) ++ queued w w'; replies = r } in
      let same : (r : Bytes)
          → (if w.peer.closed
              then s.replies
              else if bad
              then s.replies
              else s.replies ++ reply.bytes)
            ≡ r
          → IsSession c token (as_replies r)
          → IsSession c token (after_reply c now front job back reply w s) =
        λ r e k. subst (λ z. IsSession c token (as_replies z)) (sym e) k in
      elim (Bool-cases w.peer.closed) [
        | inl h ↦
            let e : w' ≡ w = unfold complete in if_true w.peer.closed _ _ h in
            same s.replies (if_true w.peer.closed _ _ h) (
              answer [] s.replies rest (subst (λ (z : World). IsPeer c z.peer) (sym e) v.peer)
                (ap (λ (z : World). z.runtime.jobs) e ∙ sym (append-nil w.runtime.jobs)) tt
                (λ o. absurd (true-ne-false (ap (λ (z : World). z.peer.closed) e ∙ h) o))
                (ap (λ (z : World). z.wire ++ unsent z.peer) e ∙ v.replies)
                (ap (λ (z : World). z.peer.token) e ∙ v.token))
        | inr h ↦
            elim (complete_lem c now job reply w v.peer h (omega (arith, v.pending h))
              (λ f. absurd (true-ne-false (j.framed ∙ framed) f))) [
                | inl (b, d) ↦ same s.replies (if_false w.peer.closed _ _ h ∙ if_true bad _ _ b) (
                    answer [] s.replies rest d.valid (d.jobs ∙ sym (append-nil w.runtime.jobs)) tt
                      (λ o. absurd (true-ne-false d.closed o)) (d.output ∙ v.replies)
                      (d.token ∙ v.token))
                | inr (b, a) ↦
                    same (s.replies ++ reply.bytes)
                      (if_false w.peer.closed _ _ h ∙ if_false bad _ _ b)
                      (answer a.new (s.replies ++ reply.bytes) rest a.valid a.jobs
                        (subst (λ t. All (IsJob c t) a.new) v.token a.made)
                        (λ o. omega (arith, a.pending o, v.pending h))
                        (a.output ∙ ap (λ z. z ++ reply.bytes) v.replies) (a.token ∙ v.token))
              ]
      ]

  elsewhere-IsSession :
      (r : Runtime) (os : List SendResult) (is : List RecvResult) (s : Session)
      → IsSession c token s
      → IsSession c token (record s { world = elsewhere r os is s.world })
  elsewhere-IsSession r os is s v = record {
    peer = v.peer;
    pending = v.pending;
    jobs = v.jobs;
    replies = v.replies;
    token = v.token;
  }

  attached-IsSession : (now : ℕ) (r : Runtime) → IsSession c token (attached c now token r)
  attached-IsSession now r = record {
    peer = record {
      sending = record { counted = refl; short = refl };
      receiving = record {
        buffer = record { within = omega arith };
        fits = unfold buffer_data drop in omega arith;
      };
      pending = omega arith;
      output_bytes = omega arith;
    };
    pending = λ o. refl;
    jobs = tt;
    replies = unfold drop in refl;
    token = refl;
  }

  Step-IsSession :
      is_framed c ≡ true
      → {s s' : Session} → Step c s s'
      → IsSession c token s
      → IsSession c token s'
  Step-IsSession framed (happens now e r os is s) v =
      after_event-IsSession now e (elsewhere r os is s.world) s (elsewhere-IsSession r os is s v)
  Step-IsSession framed (answered now front job back reply r os is s at) v =
      after_reply-IsSession framed now front job back reply (elsewhere r os is s.world) s at
        (elsewhere-IsSession r os is s v)

  pub Reach-IsSession :
      is_framed c ≡ true
      → (now : ℕ) (r : Runtime) (s : Session) → Reach c now token r s
      → IsSession c token s
  Reach-IsSession framed now r s started = attached-IsSession now r
  Reach-IsSession framed now r s (then_step reached step) =
      Step-IsSession framed step (Reach-IsSession framed now r _ reached)

  -- In a server with a sizer, a peer that is open after any steps of its event loop (its
  -- descriptor, its posts, its timer and its replies, in any order, with any change of what the
  -- server shares and any results of the socket between them) has as many jobs without a reply as
  -- `pending` counts; what has been sent and what is left to send is the replies it took, in order;
  -- and its pending jobs, its bytes to send and its bytes received are within their limits.
  pub session_lem :
      is_framed c ≡ true
      → (now : ℕ) (r : Runtime) (s : Session) → Reach c now token r s
      → s.world.peer.closed ≡ false
      → (s.world.peer.pending ≡ length s.outstanding)
        × (s.world.wire ++ unsent s.world.peer ≡ s.replies)
        × (s.world.peer.pending ≤ limit_of c)
        × (s.world.peer.output_bytes ≤ c.options.output_bytes)
        × (length (buffer_data s.world.peer.input) ≤ c.max_frame_bytes)
  session_lem framed now r s reached o =
      let v = Reach-IsSession framed now r s reached in
      (v.pending o, v.replies, v.peer.pending, v.peer.output_bytes, v.peer.receiving.fits)
