-- ===== src/Server/Pump/Framing.antt =====
-- How `Pump` cuts the input of a peer into the inputs of jobs.
use kvrpc.Base.{
  true-ne-false, ℕ, zero, suc, ◌+◌, ◌≤◌, ◌<◌, ◌≡◌, refl, sym, ap, subst, ◌∙◌, inl, inr, Bool, true,
  false, not, ◌&&◌, ◌||◌, List, [], ◌∷◌, ◌++◌, Bytes, length, map, Option, none, some, Option-cases,
  All, drop, concat, append_assoc, append-nil, take-append-drop, length-take, length-drop, ltb,
  ◌==◌, if◌then◌else◌, if_true, if_false, Bool-cases, arith,
}
use kvrpc.Buffer.{buffer_size, buffer_data, copy}
use kvrpc.Buffer.Queue.{IsBuffer, consume_lem}
use kvrpc.Server.{Config, Job, Runtime, refuses, submit}
use kvrpc.Server.Pump.{
  Peer, World, close_peer, has_room, next_size, is_framed, cut, job_of, submitted, frame_loop,
}
use kvrpc.Server.Pump.Receiving.{IsReceiving, buffer_size_lem}

-- A job of a peer: with a sizer, its input is what it says.
pub record IsJob (c : Config) (token : ℕ) (j : Job) : Type 0 where
  pub peer : j.peer ≡ token
  pub size : j.size ≡ length j.input
  pub framed : j.framed ≡ is_framed c
  pub some_bytes : 0 < j.size
  pub fits : j.size ≤ c.max_frame_bytes

abbrev pub inputs : List Job → Bytes
inputs js = concat (map (λ (j : Job). j.input) js)

pub inputs-append : (js ks : List Job) → inputs (js ++ ks) ≡ inputs js ++ inputs ks
inputs-append [] ks = refl
inputs-append (j ∷ js) ks =
    ap (λ z. j.input ++ z) (inputs-append js ks)
    ∙ sym (append_assoc j.input (inputs js) (inputs ks))

pub record Cuts (c : Config) (limit : ℕ) (w w' : World) : Type 0 where
  pub receiving : IsReceiving c w'.peer
  pub new : List Job
  pub jobs : w'.runtime.jobs ≡ w.runtime.jobs ++ new
  pub valid : All (IsJob c w.peer.token) new
  pub stream :
      is_framed c ≡ true
      → w'.peer.closed ≡ false
      → inputs new ++ buffer_data w'.peer.input ≡ buffer_data w.peer.input
  pub pending : w'.peer.closed ≡ false → w'.peer.pending ≡ w.peer.pending + length new
  pub bounded : w'.peer.pending ≤ limit
  pub output : w'.peer.output ≡ w.peer.output
  pub sent : w'.peer.sent ≡ w.peer.sent
  pub output_bytes : w'.peer.output_bytes ≡ w.peer.output_bytes
  pub token : w'.peer.token ≡ w.peer.token
  pub wire : w'.wire ≡ w.wire
  pub receives : w'.receives ≡ w.receives

-- What `Close` leaves alone.
pub record Shut (w w' : World) : Type 0 where
  pub closed : w'.peer.closed ≡ true
  pub input : w'.peer.input ≡ w.peer.input
  pub pending : w'.peer.pending ≡ w.peer.pending
  pub jobs : w'.runtime.jobs ≡ w.runtime.jobs
  pub output : w'.peer.output ≡ w.peer.output
  pub sent : w'.peer.sent ≡ w.peer.sent
  pub output_bytes : w'.peer.output_bytes ≡ w.peer.output_bytes
  pub token : w'.peer.token ≡ w.peer.token
  pub wire : w'.wire ≡ w.wire
  pub receives : w'.receives ≡ w.receives

pub close_peer-Shut : (w : World) → Shut w (close_peer w)
unfolding close_peer
close_peer-Shut w = elim (Bool-cases w.peer.closed) [
  | inl p ↦ subst (Shut w) (sym (if_true w.peer.closed _ _ p)) (record {
    closed = p;
    input = refl;
    pending = refl;
    jobs = refl;
    output = refl;
    sent = refl;
    output_bytes = refl;
    token = refl;
    wire = refl;
    receives = refl;
  })
  | inr p ↦ subst (Shut w) (sym (if_false w.peer.closed _ _ p)) (record {
    closed = refl;
    input = refl;
    pending = refl;
    jobs = refl;
    output = refl;
    sent = refl;
    output_bytes = refl;
    token = refl;
    wire = refl;
    receives = refl;
  })
]

module _ (c : Config) (limit : ℕ) where
  uncut : (w : World) → IsReceiving c w.peer → w.peer.pending ≤ limit → Cuts c limit w w
  uncut w v h = record {
    receiving = v;
    new = [];
    jobs = sym (append-nil w.runtime.jobs);
    valid = tt;
    stream = λ f o. refl;
    pending = λ o. omega arith;
    bounded = h;
    output = refl;
    sent = refl;
    output_bytes = refl;
    token = refl;
    wire = refl;
    receives = refl;
  }

  -- A closed peer keeps its bounds, and whatever it has is dropped.
  Shut-Cuts :
      (w w₁ w₂ : World)
      → IsReceiving c w₁.peer
      → w₁.peer.pending ≤ limit
      → w₁.runtime.jobs ≡ w.runtime.jobs
      → (w₁.peer.output ≡ w.peer.output)
        × (w₁.peer.sent ≡ w.peer.sent)
        × (w₁.peer.output_bytes ≡ w.peer.output_bytes)
        × (w₁.peer.token ≡ w.peer.token)
        × (w₁.wire ≡ w.wire)
        × (w₁.receives ≡ w.receives)
      → Shut w₁ w₂
      → Cuts c limit w w₂
  Shut-Cuts w w₁ w₂ v h j (o, s, b, t, x, r) k = record {
    receiving = record {
      buffer = subst IsBuffer (sym k.input) v.buffer;
      fits = subst (λ z. length (buffer_data z) ≤ c.max_frame_bytes) (sym k.input) v.fits;
    };
    new = [];
    jobs = k.jobs ∙ j ∙ sym (append-nil w.runtime.jobs);
    valid = tt;
    stream = λ f e. absurd (true-ne-false k.closed e);
    pending = λ e. absurd (true-ne-false k.closed e);
    bounded = omega (arith, k.pending, h);
    output = k.output ∙ o;
    sent = k.sent ∙ s;
    output_bytes = k.output_bytes ∙ b;
    token = k.token ∙ t;
    wire = k.wire ∙ x;
    receives = k.receives ∙ r;
  }

  cut-IsReceiving :
      (size : ℕ) (p : Peer)
      → IsReceiving c p
      → size ≤ length (buffer_data p.input)
      → IsReceiving c (cut c size p)
        × (is_framed c ≡ true → buffer_data (cut c size p).input ≡ drop size (buffer_data p.input))
  cut-IsReceiving size p v le =
      let n = buffer_size_lem p.input v.buffer in
      let (w, data', _) = consume_lem size p.input v.buffer (omega arith) in
      elim (Bool-cases (is_framed c)) [
        | inl f ↦ rw f (
          record {
            buffer = w;
            fits = omega (arith, ap length data', length-drop size (buffer_data p.input), v.fits);
          },
          λ h. data',
        )
        | inr f ↦ rw f (record { buffer = v.buffer; fits = v.fits }, λ h. cc)
      ]

  submitted-Cuts :
      (size left : ℕ) (w : World) (x : Bool × Runtime)
      → IsReceiving c w.peer
      → w.peer.pending < limit
      → 0 < size
      → size ≤ length (buffer_data w.peer.input)
      → size ≤ c.max_frame_bytes
      → (x.0 ≡ true → x.1.jobs ≡ w.runtime.jobs ++ job_of c size w.peer ∷ [])
      → (x.0 ≡ false → x.1.jobs ≡ w.runtime.jobs)
      → ((w' : World)
          → IsReceiving c w'.peer
          → w'.peer.pending ≤ limit
          → Cuts c limit w' (frame_loop c limit left w').0)
      → Cuts c limit w
          (submitted x (record w { peer = cut c size w.peer }) (frame_loop c limit left) left).0
  submitted-Cuts size left w (true, r) v h pos le fits took refused ih =
      let job = job_of c size w.peer in
      let (v', data') = cut-IsReceiving size w.peer v le in
      let w₁ = record w { peer = cut c size w.peer; runtime = r } in
      let k = ih w₁ v' (omega arith) in
      let copied : length job.input ≡ size =
        unfold copy in omega (arith, length-take size (buffer_data w.peer.input)) in
      record {
        receiving = k.receiving;
        new = job ∷ k.new;
        jobs =
            k.jobs
            ∙ ap (λ z. z ++ k.new) (took refl)
            ∙ append_assoc w.runtime.jobs (job ∷ []) k.new;
        valid = (
          record { peer = refl; size = sym copied; framed = refl; some_bytes = pos; fits = fits },
          k.valid,
        );
        stream = λ f o.
            append_assoc job.input (inputs k.new) _
            ∙ ap (λ z. job.input ++ z) (k.stream f o ∙ data' f)
            ∙ unfold copy in take-append-drop size (buffer_data w.peer.input);
        pending = λ o. omega (arith, k.pending o);
        bounded = k.bounded;
        output = k.output;
        sent = k.sent;
        output_bytes = k.output_bytes;
        token = k.token;
        wire = k.wire;
        receives = k.receives;
      }
  submitted-Cuts size left w (false, r) v h pos le fits took refused ih =
      let w₁ = record w {
        peer = cut c size w.peer;
        runtime = record r { rejected = r.rejected + 1 };
      } in
      Shut-Cuts w w₁ (close_peer w₁) (cut-IsReceiving size w.peer v le).0 (omega arith)
        (refused refl) (refl, refl, refl, refl, refl, refl) (close_peer-Shut w₁)

-- `Submit` puts a job at the end of the queue, or leaves the queue alone.
pub submit_jobs :
    (c : Config) (job : Job) (r : Runtime)
    → ((submit c.options job r).0 ≡ true → (submit c.options job r).1.jobs ≡ r.jobs ++ job ∷ [])
      × ((submit c.options job r).0 ≡ false → (submit c.options job r).1.jobs ≡ r.jobs)
unfolding submit
submit_jobs c job r = elim (Bool-cases (refuses c.options job r)) [
  | inl full ↦ rw full ((λ e. cc), (λ e. refl))
  | inr room ↦ rw room ((λ e. refl), (λ e. cc))
]

module _ (c : Config) (limit : ℕ) where
  -- What a round does with the size of a frame.
  abbrev sized : Option ℕ → ℕ → World → World × ℕ
  sized none left w = (close_peer w, left)
  sized (some size) left w =
      if ltb c.max_frame_bytes size
      then (close_peer w, left)
      else if size == 0 || ltb (buffer_size w.peer.input) size
      then (w, left)
      else submitted (submit c.options (job_of c size w.peer) w.runtime)
          (record w { peer = cut c size w.peer }) (frame_loop c limit left) left

  frame_loop-suc :
      (left : ℕ) (w : World)
      → frame_loop c limit (suc left) w ≡ (
          if not (buffer_size w.peer.input == 0)
            && (not w.peer.incomplete && has_room c limit w.peer)
          then sized (next_size c w.peer) left w
          else (w, suc left))
  unfolding frame_loop
  frame_loop-suc left w = elim (Option-cases (next_size c w.peer)) [
    | inl e ↦ simp (e, frame_loop)
    | inr (size, e) ↦ simp (e, frame_loop)
  ]

  Cuts-sized :
      (o : Option ℕ) (left : ℕ) (w : World)
      → IsReceiving c w.peer
      → w.peer.pending < limit
      → ((w' : World)
          → IsReceiving c w'.peer
          → w'.peer.pending ≤ limit
          → Cuts c limit w' (frame_loop c limit left w').0)
      → Cuts c limit w (sized o left w).0
  Cuts-sized none left w v h ih =
      Shut-Cuts c limit w w (close_peer w) v (omega arith) refl (refl, refl, refl, refl, refl, refl)
        (close_peer-Shut w)
  Cuts-sized (some size) left w v h ih =
      let n = buffer_size_lem w.peer.input v.buffer in
      let (took, left_alone) = submit_jobs c (job_of c size w.peer) w.runtime in
      elim (Bool-cases (ltb c.max_frame_bytes size)) [
        | inl big ↦ rw big (
            Shut-Cuts c limit w w (close_peer w) v (omega arith) refl
              (refl, refl, refl, refl, refl, refl) (close_peer-Shut w))
        | inr fits ↦ elim (Bool-cases (size == 0 || ltb (buffer_size w.peer.input) size)) [
          | inl stop ↦ rw (fits, stop) (uncut c limit w v (omega arith))
          | inr go ↦
              rw (fits, go)
                (submitted-Cuts c limit size left w
                  (submit c.options (job_of c size w.peer) w.runtime) v h (ground arith)
                  (ground arith) (ground arith) took left_alone ih)
        ]
      ]

  -- The rounds take frames off the front of the input, in order, and queue one job for each.
  pub Cuts-frame_loop :
      (left : ℕ) (w : World)
      → IsReceiving c w.peer
      → w.peer.pending ≤ limit
      → Cuts c limit w (frame_loop c limit left w).0
  Cuts-frame_loop zero w v h = unfold frame_loop in uncut c limit w v h
  Cuts-frame_loop (suc left) w v h =
      let test =
        not (buffer_size w.peer.input == 0) && (not w.peer.incomplete && has_room c limit w.peer) in
      subst (λ z. Cuts c limit w z.0) (sym (frame_loop-suc left w))
        (elim (Bool-cases test) [
          | inl go ↦
              rw go (Cuts-sized (next_size c w.peer) left w v (ground arith) (Cuts-frame_loop left))
          | inr stop ↦ rw stop (uncut c limit w v h)
        ])
