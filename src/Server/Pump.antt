-- ===== src/Server/Pump.antt =====
-- The peers of an event loop of src/tcp_server.cpp: `Close`, `Deadline`, `Schedule`, `Attach`, `Pump`
-- and the callback that takes a reply. A peer has its own socket; the map `peers` holds those that
-- are not closed. What the loop is told of a peer, its timer and its interest, is kept with it.
pub mod Sending
pub mod Delivery
pub mod Receiving
pub mod Framing
pub mod Limits
pub mod Replies
pub mod Events
pub mod Stages
pub mod Sessions
use kvrpc.Base.{
  ℕ, zero, suc, ◌+◌, ◌-◌, ◌*◌, ◌/◌, ◌-size◌, min, Bool, true, false, not, ◌&&◌, ◌||◌, List, [], ◌∷◌,
  ◌++◌, Bytes, length, Option, none, some, take, drop, ltb, leb, ◌==◌, if◌then◌else◌, Outcome, ok,
  throws, stuck,
}
use kvrpc.Buffer.{Buffer, buffer_size, buffer_data, append, consume, copy}
use kvrpc.Service.{Reply}
use kvrpc.Server.{Config, Job, Runtime, submit}

-- Results of `send`, which takes at most `n` bytes, and of `recv`, which delivers the bytes or as many
-- as were asked for; no bytes are the end of the stream. A script ends in calls that would block.
pub data SendResult : Type 0 where
  moved : ℕ → SendResult
  send_interrupted send_blocks send_fails : SendResult

pub data RecvResult : Type 0 where
  received : Bytes → RecvResult
  recv_interrupted recv_blocks recv_fails : RecvResult

pub record Peer : Type 0 where
  pub token : ℕ
  pub input : Buffer
  pub output : List Bytes
  pub sent : ℕ
  pub output_bytes : ℕ
  pub pending : ℕ
  pub eof : Bool
  pub closed : Bool
  pub scheduled : Bool
  pub incomplete : Bool
  pub deadline : ℕ
  pub reads : Bool
  pub writes : Bool

-- A peer with the server's state, the scripts of its socket, and the bytes that `send` has taken.
pub record World : Type 0 where
  pub peer : Peer
  pub runtime : Runtime
  pub sends : List SendResult
  pub receives : List RecvResult
  pub wire : Bytes

abbrev pub work_budget : ℕ
work_budget = 256 * 1024

abbrev pub read_chunk : ℕ
read_chunk = 16384

-- `Close`
unfoldable pub close_peer : World → World
close_peer w = if w.peer.closed then w else record w {
  peer = record w.peer { closed = true };
  runtime = record w.runtime { active = w.runtime.active -size 1 };
}

-- `Deadline`: the timer is moved.
abbrev pub set_deadline : Config → ℕ → Peer → Peer
set_deadline c now p = record p { deadline = now + c.options.idle_timeout }

-- `Schedule` posts a `Pump`; `scheduled` is that post.
abbrev pub schedule : Peer → Peer
schedule p = if p.scheduled || p.closed then p else record p { scheduled = true }

-- `Attach`
abbrev pub attach : Config → ℕ → ℕ → Peer
attach c now token = set_deadline c now (record {
  token = token;
  input = record { bytes = []; read = 0 };
  output = [];
  sent = 0;
  output_bytes = 0;
  pending = 0;
  eof = false;
  closed = false;
  scheduled = false;
  incomplete = false;
  deadline = 0;
  reads = true;
  writes = false;
})

-- The callback of the timer.
unfoldable pub time_out : World → World
time_out w =
    close_peer (record w { runtime = record w.runtime { timeouts = w.runtime.timeouts + 1 } })

-- The bytes that a `send` of `n` bytes takes from the front of `output`.
unfoldable pub sent_some : Config → ℕ → ℕ → Bytes → List Bytes → World → World
sent_some c now n bytes rest w =
    let p = w.peer in
    let out = record p { sent = p.sent + n; output_bytes = p.output_bytes -size n } in
    record w {
      peer =
          if p.sent + n == length bytes
          then set_deadline c now (record out { output = rest; sent = 0 })
          else out;
      wire = w.wire ++ take n (drop p.sent bytes);
    }

-- The loop of `Pump` that sends, and the budget that it leaves. A `send` of nothing is an error.
unfoldable pub send_loop : Config → ℕ → List SendResult → ℕ → World → World × ℕ
send_loop c now os zero w = (record w { sends = os }, 0)
send_loop c now [] (suc budget) w = (record w { sends = [] }, suc budget)
send_loop c now (r ∷ os) (suc budget) w = elim w.peer.output [
  | [] ↦ (record w { sends = r ∷ os }, suc budget)
  | bytes ∷ rest ↦ elim r [
    | send_interrupted ↦ send_loop c now os (suc budget) w
    | send_blocks ↦ (record w { sends = os }, suc budget)
    | send_fails ↦ (close_peer (record w { sends = os }), suc budget)
    | moved k ↦
        let n = min k (min (suc budget) (length bytes -size w.peer.sent)) in
        let more = send_loop c now os (suc budget - n) (sent_some c now n bytes rest w) in
        if n == 0 then (close_peer (record w { sends = os }), suc budget) else more
  ]
]

-- The room that is left for replies, and with it for requests.
abbrev pub has_room : Config → ℕ → Peer → Bool
has_room c limit p = ltb p.pending limit && ltb p.output_bytes (c.options.output_bytes / 2)

-- Bytes that `recv` delivered.
abbrev pub take_in : Bytes → World → World
take_in bytes w = record w {
  peer = record w.peer { input = append bytes w.peer.input; incomplete = false };
}

abbrev pub at_eof : World → World
at_eof w = record w { peer = record w.peer { eof = true } }

-- The loop that receives, once `can_read` holds, and the budget that it leaves.
unfoldable pub recv_loop : Config → List RecvResult → ℕ → World → World × ℕ
recv_loop c os zero w = (record w { receives = os }, 0)
recv_loop c [] (suc budget) w = (record w { receives = [] }, suc budget)
recv_loop c (r ∷ os) (suc budget) w =
    let asked =
      min read_chunk (min (suc budget) (c.max_frame_bytes -size buffer_size w.peer.input)) in
    if not (ltb (buffer_size w.peer.input) c.max_frame_bytes)
    then (record w { receives = r ∷ os }, suc budget)
    else elim r [
      | recv_interrupted ↦ recv_loop c os (suc budget) w
      | recv_blocks ↦ (record w { receives = os }, suc budget)
      | recv_fails ↦ (close_peer (record w { receives = os }), suc budget)
      | received bytes ↦
          let got = take asked bytes in
          let more = recv_loop c os (suc budget - length got) (take_in got w) in
          if length got == 0 then (at_eof (record w { receives = os }), suc budget) else more
    ]

-- The size of the next frame; with no sizer it is all of the input.
abbrev pub next_size : Config → Peer → Option ℕ
next_size c p = elim c.sizer [
  | none ↦ some (buffer_size p.input)
  | some sizer ↦ sizer (buffer_data p.input)
]

abbrev pub is_framed : Config → Bool
is_framed c = elim c.sizer [ none ↦ false | some sizer ↦ true ]

-- The peer when a frame of a size has been cut off.
abbrev pub cut : Config → ℕ → Peer → Peer
cut c size p = record p {
  input = if is_framed c then consume size p.input else p.input;
  pending = p.pending + 1;
}

abbrev pub job_of : Config → ℕ → Peer → Job
job_of c size p = record {
  input = copy size p.input;
  peer = p.token;
  size = size;
  framed = is_framed c;
}

-- A job that `Submit` took or refused.
abbrev pub submitted : Bool × Runtime → World → (World → World × ℕ) → ℕ → World × ℕ
submitted (true, r) w more left = more (record w { runtime = r })
submitted (false, r) w more left =
    (close_peer (record w { runtime = record r { rejected = r.rejected + 1 } }), left)

-- The loop that cuts frames, with `left` rounds, and the rounds that it leaves.
unfoldable pub frame_loop : Config → ℕ → ℕ → World → World × ℕ
frame_loop c limit zero w = (w, 0)
frame_loop c limit (suc left) w =
    let p = w.peer in
    if not (buffer_size p.input == 0) && (not p.incomplete && has_room c limit p)
    then elim (next_size c p) [
      | none ↦ (close_peer w, left)
      | some size ↦
          if ltb c.max_frame_bytes size
          then (close_peer w, left)
          else if size == 0 || ltb (buffer_size p.input) size
          then (w, left)
          else submitted (submit c.options (job_of c size p) w.runtime)
              (record w { peer = cut c size p }) (frame_loop c limit left) left
    ]
    else (w, suc left)

abbrev pub limit_of : Config → ℕ
limit_of c = if c.batched || not (is_framed c) then 1 else c.options.pipeline

-- The end of `Pump`.
unfoldable pub finish_pump : Config → World × ℕ → World
finish_pump c (w, left) =
    let limit = limit_of c in
    let p = if left == 0 && ltb w.peer.pending limit then schedule w.peer else w.peer in
    if w.peer.closed
    then w
    else if p.eof && (p.pending == 0 && length p.output == 0)
    then close_peer (record w { peer = p })
    else record w {
      peer = record p {
        reads = not p.eof && has_room c limit p;
        writes = not (length p.output == 0);
      };
    }

-- From the receiving on.
unfoldable pub receive_and_cut : Config → World × ℕ → World
receive_and_cut c (w, budget) =
    if w.peer.closed
    then w
    else let p = if budget == 0 then schedule w.peer else w.peer in
      finish_pump c (frame_loop c (limit_of c) 32 (record w { peer = p }))

-- The reading, if it is allowed; a closed peer has been left alone.
unfoldable pub read_some : Config → World × ℕ → World × ℕ
read_some c (w, budget) =
    let p = if budget == 0 && not (length w.peer.output == 0) then schedule w.peer else w.peer in
    let w' = record w { peer = p } in
    if w.peer.closed
    then (w, work_budget)
    else if not p.eof && has_room c (limit_of c) p
    then recv_loop c w.receives work_budget w'
    else (w', work_budget)

unfoldable pub pump : Config → ℕ → World → World
pump c now w =
    if w.peer.closed
    then w
    else receive_and_cut c (read_some c (send_loop c now w.sends work_budget w))

-- The test on a reply.
abbrev pub bad_reply : Config → Job → Reply → Peer → Bool
bad_reply c job reply p =
    reply.close
    || ltb job.size reply.consumed
    || (job.framed && not (reply.consumed == job.size))
    || ltb c.max_frame_bytes (length reply.bytes)
    || ltb (c.options.output_bytes -size p.output_bytes) (length reply.bytes)
    || (reply.consumed == 0 && (not (length reply.bytes == 0) || job.size == c.max_frame_bytes))

-- A reply that is taken.
abbrev pub take_reply : Job → Reply → Peer → Peer
take_reply job reply p = record p {
  input = if job.framed then p.input else consume reply.consumed p.input;
  incomplete = if job.framed then p.incomplete else reply.consumed == 0;
  output = if length reply.bytes == 0 then p.output else p.output ++ reply.bytes ∷ [];
  output_bytes = p.output_bytes + length reply.bytes;
}

-- The callback with a reply, on the loop of the peer.
unfoldable pub complete : Config → ℕ → Job → Reply → World → World
complete c now job reply w =
    let p = record w.peer { pending = w.peer.pending -size 1 } in
    let r = w.runtime in
    if w.peer.closed
    then w
    else if bad_reply c job reply p
    then close_peer (record w { peer = p })
    else pump c now (record w {
      peer = take_reply job reply p;
      runtime = if reply.consumed == 0 then r else record r { requests = r.requests + 1 };
    })

-- The task that `Schedule` posted.
unfoldable pub scheduled_pump : Config → ℕ → World → World
scheduled_pump c now w = pump c now (record w { peer = record w.peer { scheduled = false } })

-- The callback of the peer's descriptor; `failed` is EPOLLERR.
unfoldable pub on_event : Config → ℕ → Bool → World → World
on_event c now failed w = if failed then close_peer w else pump c now w
