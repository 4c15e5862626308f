-- ===== src/Server/Pump/Limits.antt =====
-- The bounds of a peer, and the bytes that pass through it, in each stage of `Pump`.
use kvrpc.Base.{
  ◌+◌, ◌≤◌, ◌≡◌, refl, sym, ap, subst, ◌∙◌, inl, inr, Bool, true, false, ◌||◌, List, [], ◌++◌,
  Bytes, length, All, All-append, concat, append_assoc, append-nil, length-append, if◌then◌else◌,
  Bool-cases, arith,
}
use kvrpc.Buffer.{buffer_data}
use kvrpc.Buffer.Queue.{IsBuffer}
use kvrpc.Server.{Config, Job}
use kvrpc.Server.Pump.{Peer, World, schedule, is_framed, limit_of}
use kvrpc.Server.Pump.Sending.{IsSending, Short, unsent, Sends}
use kvrpc.Server.Pump.Receiving.{IsReceiving, Receives}
use kvrpc.Server.Pump.Framing.{IsJob, inputs, inputs-append, Cuts, Shut}

-- The bounds of a peer.
pub record IsPeer (c : Config) (p : Peer) : Type 0 where
  pub sending : IsSending p
  pub receiving : IsReceiving c p
  pub pending : p.pending ≤ limit_of c
  pub output_bytes : p.output_bytes ≤ c.options.output_bytes

-- From one state of a peer to a later one, with the bytes received and the jobs queued.
pub record Pumps (c : Config) (got : Bytes) (w w' : World) : Type 0 where
  pub valid : IsPeer c w'.peer
  pub new : List Job
  pub jobs : w'.runtime.jobs ≡ w.runtime.jobs ++ new
  pub made : All (IsJob c w.peer.token) new
  pub input :
      is_framed c ≡ true
      → w'.peer.closed ≡ false
      → inputs new ++ buffer_data w'.peer.input ≡ buffer_data w.peer.input ++ got
  pub pending : w'.peer.closed ≡ false → w'.peer.pending ≡ w.peer.pending + length new
  pub output : w'.wire ++ unsent w'.peer ≡ w.wire ++ unsent w.peer
  pub token : w'.peer.token ≡ w.peer.token

-- Flags, scripts and counters alone have changed.
pub record Still (w w' : World) : Type 0 where
  pub input : w'.peer.input ≡ w.peer.input
  pub pending : w'.peer.pending ≡ w.peer.pending
  pub jobs : w'.runtime.jobs ≡ w.runtime.jobs
  pub output : w'.peer.output ≡ w.peer.output
  pub sent : w'.peer.sent ≡ w.peer.sent
  pub output_bytes : w'.peer.output_bytes ≡ w.peer.output_bytes
  pub token : w'.peer.token ≡ w.peer.token
  pub wire : w'.wire ≡ w.wire
  pub receives : w'.receives ≡ w.receives

pub Shut-Still : {w w' : World} → Shut w w' → Still w w'
Shut-Still k = record {
  input = k.input;
  pending = k.pending;
  jobs = k.jobs;
  output = k.output;
  sent = k.sent;
  output_bytes = k.output_bytes;
  token = k.token;
  wire = k.wire;
  receives = k.receives;
}

pub Still-trans : {w w' w'' : World} → Still w w' → Still w' w'' → Still w w''
Still-trans a b = record {
  input = b.input ∙ a.input;
  pending = b.pending ∙ a.pending;
  jobs = b.jobs ∙ a.jobs;
  output = b.output ∙ a.output;
  sent = b.sent ∙ a.sent;
  output_bytes = b.output_bytes ∙ a.output_bytes;
  token = b.token ∙ a.token;
  wire = b.wire ∙ a.wire;
  receives = b.receives ∙ a.receives;
}

pub Still-schedule :
    (b : Bool) (w : World) → Still w (record w { peer = if b then schedule w.peer else w.peer })
Still-schedule false w = record {
  input = refl;
  pending = refl;
  jobs = refl;
  output = refl;
  sent = refl;
  output_bytes = refl;
  token = refl;
  wire = refl;
  receives = refl;
}
Still-schedule true w = elim (Bool-cases (w.peer.scheduled || w.peer.closed)) [
  | inl z ↦ rw z (record {
    input = refl;
    pending = refl;
    jobs = refl;
    output = refl;
    sent = refl;
    output_bytes = refl;
    token = refl;
    wire = refl;
    receives = refl;
  })
  | inr z ↦ rw z (record {
    input = refl;
    pending = refl;
    jobs = refl;
    output = refl;
    sent = refl;
    output_bytes = refl;
    token = refl;
    wire = refl;
    receives = refl;
  })
]

pub schedule_open :
    (b : Bool) (w : World)
    → w.peer.closed ≡ false
    → (if b then schedule w.peer else w.peer).closed ≡ false
schedule_open false w o = o
schedule_open true w o = elim (Bool-cases (w.peer.scheduled || w.peer.closed)) [
  | inl z ↦ rw z o
  | inr z ↦ rw z o
]

IsSending-as :
    {p p' : Peer}
    → IsSending p
    → p'.output ≡ p.output
    → p'.sent ≡ p.sent
    → p'.output_bytes ≡ p.output_bytes
    → IsSending p'
IsSending-as {p} {p'} v o s b = record {
  counted = omega (arith, v.counted, s, b, ap (λ z. length (concat z)) o);
  short = subst (Short p'.sent) (sym o) (subst (λ n. Short n p.output) (sym s) v.short);
}

stream_as :
    (w w' : World)
    → w'.peer.output ≡ w.peer.output
    → w'.peer.sent ≡ w.peer.sent
    → w'.wire ≡ w.wire
    → w'.wire ++ unsent w'.peer ≡ w.wire ++ unsent w.peer
stream_as w w' o s x = cc

module _ (c : Config) where
  IsReceiving-as : {p p' : Peer} → IsReceiving c p → p'.input ≡ p.input → IsReceiving c p'
  IsReceiving-as {p} {p'} v e = record {
    buffer = subst IsBuffer (sym e) v.buffer;
    fits = subst (λ z. length (buffer_data z) ≤ c.max_frame_bytes) (sym e) v.fits;
  }

  pub Still-Pumps : {w w' : World} → IsPeer c w.peer → Still w w' → Pumps c [] w w'
  Still-Pumps {w} {w'} v k = record {
    valid = record {
      sending = IsSending-as v.sending k.output k.sent k.output_bytes;
      receiving = IsReceiving-as v.receiving k.input;
      pending = omega (arith, k.pending, v.pending);
      output_bytes = omega (arith, k.output_bytes, v.output_bytes);
    };
    new = [];
    jobs = k.jobs ∙ sym (append-nil w.runtime.jobs);
    made = tt;
    input = λ f o. ap buffer_data k.input ∙ sym (append-nil (buffer_data w.peer.input));
    pending = λ o. omega (arith, k.pending);
    output = stream_as w w' k.output k.sent k.wire;
    token = k.token;
  }

  pub Sends-Pumps : {w w' : World} → IsPeer c w.peer → Sends w w' → Pumps c [] w w'
  Sends-Pumps {w} {w'} v k = record {
    valid = record {
      sending = k.sending;
      receiving = IsReceiving-as v.receiving k.input;
      pending = omega (arith, k.pending, v.pending);
      output_bytes = omega (arith, k.output_bytes, v.output_bytes);
    };
    new = [];
    jobs = k.jobs ∙ sym (append-nil w.runtime.jobs);
    made = tt;
    input = λ f o. ap buffer_data k.input ∙ sym (append-nil (buffer_data w.peer.input));
    pending = λ o. omega (arith, k.pending);
    output = k.stream;
    token = k.token;
  }

  pub Receives-Pumps :
      {got : Bytes} {w w' : World} → IsPeer c w.peer → Receives c got w w' → Pumps c got w w'
  Receives-Pumps {got} {w} {w'} v k = record {
    valid = record {
      sending = IsSending-as v.sending k.output k.sent k.output_bytes;
      receiving = k.receiving;
      pending = omega (arith, k.pending, v.pending);
      output_bytes = omega (arith, k.output_bytes, v.output_bytes);
    };
    new = [];
    jobs = k.jobs ∙ sym (append-nil w.runtime.jobs);
    made = tt;
    input = λ f o. k.stream;
    pending = λ o. omega (arith, k.pending);
    output = stream_as w w' k.output k.sent k.wire;
    token = k.token;
  }

  pub Cuts-Pumps : {w w' : World} → IsPeer c w.peer → Cuts c (limit_of c) w w' → Pumps c [] w w'
  Cuts-Pumps {w} {w'} v k = record {
    valid = record {
      sending = IsSending-as v.sending k.output k.sent k.output_bytes;
      receiving = k.receiving;
      pending = k.bounded;
      output_bytes = omega (arith, k.output_bytes, v.output_bytes);
    };
    new = k.new;
    jobs = k.jobs;
    made = k.valid;
    input = λ f o. k.stream f o ∙ sym (append-nil (buffer_data w.peer.input));
    pending = k.pending;
    output = stream_as w w' k.output k.sent k.wire;
    token = k.token;
  }

  -- What happens to an open peer goes on from what has happened to it.
  pub Pumps-trans :
      {w w' w'' : World} {got more : Bytes}
      → w'.peer.closed ≡ false
      → Pumps c got w w'
      → Pumps c more w' w''
      → Pumps c (got ++ more) w w''
  Pumps-trans {w} {w'} {w''} {got} {more} o a b = record {
    valid = b.valid;
    new = a.new ++ b.new;
    jobs = b.jobs ∙ ap (λ z. z ++ b.new) a.jobs ∙ append_assoc w.runtime.jobs a.new b.new;
    made =
        All-append (IsJob c w.peer.token) a.new b.new a.made
          (subst (λ t. All (IsJob c t) b.new) a.token b.made);
    input = λ f o'.
        ap (λ z. z ++ buffer_data w''.peer.input) (inputs-append a.new b.new)
        ∙ append_assoc (inputs a.new) (inputs b.new) _
        ∙ ap (λ z. inputs a.new ++ z) (b.input f o')
        ∙ sym (append_assoc (inputs a.new) (buffer_data w'.peer.input) more)
        ∙ ap (λ z. z ++ more) (a.input f o)
        ∙ append_assoc (buffer_data w.peer.input) got more;
    pending = λ o'. omega (arith, a.pending o, b.pending o', length-append a.new b.new);
    output = b.output ∙ a.output;
    token = b.token ∙ a.token;
  }

  -- With nothing received after it.
  pub Pumps-quiet :
      {w w' w'' : World} {got : Bytes}
      → w'.peer.closed ≡ false
      → Pumps c got w w'
      → Pumps c [] w' w''
      → Pumps c got w w''
  Pumps-quiet {w} {w''} {got} o a b =
      subst (λ z. Pumps c z w w'') (append-nil got) (Pumps-trans o a b)
