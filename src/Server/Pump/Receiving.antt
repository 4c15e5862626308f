-- ===== src/Server/Pump/Receiving.antt =====
-- What a peer receives goes behind what it has, and the whole fits a frame.
use kvrpc.Base.{
  ℕ, zero, suc, ◌+◌, ◌-◌, ◌-size◌, size_sub, ◌≤◌, ◌<◌, ◌≡◌, refl, sym, ap, subst, ◌∙◌, inl, inr,
  Bool, true, not, List, [], ◌∷◌, ◌++◌, Bytes, length, take, min, append_assoc, append-nil,
  length-append, length-take, length-drop, ltb, ◌==◌, if◌then◌else◌, if_true, if_false, Bool-cases,
  arith,
}
use kvrpc.Buffer.{Buffer, buffer_size, buffer_data}
use kvrpc.Buffer.Queue.{IsBuffer, append_lem}
use kvrpc.Server.{Config}
use kvrpc.Server.Pump.Delivery.{
  Delivers, stopped, interruption, blocking, failing, ending, chunk, room_of,
}
use kvrpc.Server.Pump.{
  Peer, World, RecvResult, received, recv_interrupted, recv_blocks, recv_fails, close_peer, take_in,
  at_eof, read_chunk, recv_loop,
}

-- The bytes that a peer has received and not used are no more than a frame may have.
pub record IsReceiving (c : Config) (p : Peer) : Type 0 where
  pub buffer : IsBuffer p.input
  pub fits : length (buffer_data p.input) ≤ c.max_frame_bytes

-- What receiving leaves alone, and the bytes it puts behind the others.
pub record Receives (c : Config) (got : Bytes) (w w' : World) : Type 0 where
  pub receiving : IsReceiving c w'.peer
  pub stream : buffer_data w'.peer.input ≡ buffer_data w.peer.input ++ got
  pub output : w'.peer.output ≡ w.peer.output
  pub sent : w'.peer.sent ≡ w.peer.sent
  pub output_bytes : w'.peer.output_bytes ≡ w.peer.output_bytes
  pub pending : w'.peer.pending ≡ w.peer.pending
  pub token : w'.peer.token ≡ w.peer.token
  pub wire : w'.wire ≡ w.wire
  pub jobs : w'.runtime.jobs ≡ w.runtime.jobs

-- As `Receives`, with the bytes that the results from `os` on deliver.
pub record Reads (c : Config) (budget : ℕ) (os : List RecvResult) (w w' : World) : Type 0 where
  pub got : Bytes
  pub stage : Receives c got w w'
  pub delivered : Delivers (room_of c w) budget os w'.receives got

-- The size of a buffer is the number of its unread bytes.
pub buffer_size_lem : (b : Buffer) → IsBuffer b → buffer_size b ≡ length (buffer_data b)
unfolding buffer_data
buffer_size_lem b v = size_sub (length b.bytes) b.read v.within ∙ sym (length-drop b.read b.bytes)

Receives-trans :
    {c : Config} {w w' w'' : World} {got more : Bytes}
    → Receives c got w w'
    → Receives c more w' w''
    → Receives c (got ++ more) w w''
Receives-trans {w} {w'} {w''} {got} {more} a b = record {
  receiving = b.receiving;
  stream =
      b.stream ∙ ap (λ z. z ++ more) a.stream ∙ append_assoc (buffer_data w.peer.input) got more;
  output = b.output ∙ a.output;
  sent = b.sent ∙ a.sent;
  output_bytes = b.output_bytes ∙ a.output_bytes;
  pending = b.pending ∙ a.pending;
  token = b.token ∙ a.token;
  wire = b.wire ∙ a.wire;
  jobs = b.jobs ∙ a.jobs;
}

module _ (c : Config) where
  -- A world of which the script and the flags alone have changed.
  nothing_read :
      (w : World) (budget : ℕ) (rs os : List RecvResult) (eof closed : Bool) (active : ℕ)
      → IsReceiving c w.peer
      → Delivers (room_of c w) budget rs os []
      → Reads c budget rs w (record w {
        peer = record w.peer { eof = eof; closed = closed };
        runtime = record w.runtime { active = active };
        receives = os;
      })
  nothing_read w budget rs os eof closed active v d = record {
    got = [];
    stage = record {
      receiving = record { buffer = v.buffer; fits = v.fits };
      stream = sym (append-nil (buffer_data w.peer.input));
      output = refl;
      sent = refl;
      output_bytes = refl;
      pending = refl;
      token = refl;
      wire = refl;
      jobs = refl;
    };
    delivered = d;
  }

  unread :
      (w : World) (budget : ℕ) (rs os : List RecvResult)
      → IsReceiving c w.peer
      → Delivers (room_of c w) budget rs os []
      → Reads c budget rs w (record w { receives = os })
  unread w budget rs os v d =
      nothing_read w budget rs os w.peer.eof w.peer.closed w.runtime.active v d

  closed_read :
      (w : World) (budget : ℕ) (os : List RecvResult)
      → IsReceiving c w.peer
      → 0 < min budget (room_of c w)
      → Reads c budget (recv_fails ∷ os) w (close_peer (record w { receives = os }))
  unfolding close_peer
  closed_read w budget os v wanted = elim (Bool-cases w.peer.closed) [
    | inl p ↦
        subst (Reads c budget (recv_fails ∷ os) w) (sym (if_true w.peer.closed _ _ p))
          (unread w budget (recv_fails ∷ os) os v (failing wanted))
    | inr p ↦ subst (Reads c budget (recv_fails ∷ os) w) (sym (if_false w.peer.closed _ _ p)) (
        nothing_read w budget (recv_fails ∷ os) os w.peer.eof true (w.runtime.active -size 1) v
          (failing wanted))
  ]

  took_in :
      (w : World) (bytes : Bytes)
      → IsReceiving c w.peer
      → length (buffer_data w.peer.input) + length bytes ≤ c.max_frame_bytes
      → Receives c bytes w (take_in bytes w)
  took_in w bytes v h =
      let (ok_buffer, stream) = append_lem bytes w.peer.input v.buffer in
      record {
        receiving = record {
          buffer = ok_buffer;
          fits = omega (arith, ap length stream, length-append (buffer_data w.peer.input) bytes);
        };
        stream = stream;
        output = refl;
        sent = refl;
        output_bytes = refl;
        pending = refl;
        token = refl;
        wire = refl;
        jobs = refl;
      }

  -- The test of the loop on the size of the input.
  with_room :
      (w : World) (r : RecvResult) (os : List RecvResult) (budget : ℕ) (y : World × ℕ)
      → IsReceiving c w.peer
      → (0 < min (suc budget) (room_of c w) → Reads c (suc budget) (r ∷ os) w y.0)
      → Reads c
          (suc budget)
          (r ∷ os)
          w
          (if not (ltb (buffer_size w.peer.input) c.max_frame_bytes)
            then (record w { receives = r ∷ os }, suc budget)
            else y).0
  with_room w r os budget y v f =
      elim (Bool-cases (ltb (buffer_size w.peer.input) c.max_frame_bytes)) [
        | inr full ↦
            let all : c.max_frame_bytes ≤ buffer_size w.peer.input = ground arith in
            let none_left : room_of c w ≡ 0 =
              omega (arith, all, buffer_size_lem w.peer.input v.buffer) in
            rw full (unread w (suc budget) (r ∷ os) (r ∷ os) v (stopped (inr (inl none_left))))
        | inl room ↦
            let less : buffer_size w.peer.input < c.max_frame_bytes = ground arith in
            let wanted : 0 < min (suc budget) (room_of c w) =
              omega (arith, less, buffer_size_lem w.peer.input v.buffer) in
            rw room (f wanted)
      ]

  -- What `recv` is asked for.
  asked_lem :
      (w : World) (budget : ℕ)
      → IsReceiving c w.peer
      → min read_chunk (min budget (c.max_frame_bytes -size buffer_size w.peer.input))
        ≡ min read_chunk (min budget (room_of c w))
  asked_lem w budget v =
      let n = buffer_size_lem w.peer.input v.buffer in
      ap (λ z. min read_chunk (min budget z))
        (size_sub c.max_frame_bytes (buffer_size w.peer.input) (omega (arith, n, v.fits))
          ∙ ap (λ z. c.max_frame_bytes - z) n)

  -- A result with bytes, and the results after it.
  chunk_read :
      (w w' : World) (budget : ℕ) (bytes : Bytes) (os : List RecvResult)
      → IsReceiving c w.peer
      → let part = take (min read_chunk (min budget (room_of c w))) bytes in
        0 < length part
        → (IsReceiving c (take_in part w).peer
            → Reads c (budget - length part) os (take_in part w) w')
        → Reads c budget (received bytes ∷ os) w w'
  chunk_read w w' budget bytes os v some_bytes rest =
      let part = take (min read_chunk (min budget (room_of c w))) bytes in
      let fits : length (buffer_data w.peer.input) + length part ≤ c.max_frame_bytes =
        omega (arith, v.fits, length-take (min read_chunk (min budget (room_of c w))) bytes) in
      let a = took_in w part v fits in
      let b = rest a.receiving in
      let room : room_of c (take_in part w) ≡ room_of c w - length part =
        omega (arith, ap length a.stream, length-append (buffer_data w.peer.input) part) in
      record {
        got = part ++ b.got;
        stage = Receives-trans a b.stage;
        delivered =
            chunk refl some_bytes (
              subst (λ z. Delivers z (budget - length part) os w'.receives b.got) room b.delivered);
      }

  pub Reads-recv_loop :
      (os : List RecvResult) (budget : ℕ) (w : World)
      → IsReceiving c w.peer
      → Reads c budget os w (recv_loop c os budget w).0
  unfolding recv_loop
  Reads-recv_loop os zero w v = unread w 0 os os v (stopped (inl refl))
  Reads-recv_loop [] (suc budget) w v = unread w (suc budget) [] [] v (stopped (inr (inr refl)))
  Reads-recv_loop (recv_interrupted ∷ os) (suc budget) w v =
      let a = Reads-recv_loop os (suc budget) w v in
      with_room w recv_interrupted os budget (recv_loop c os (suc budget) w) v
        (λ h. record { got = a.got; stage = a.stage; delivered = interruption h a.delivered })
  Reads-recv_loop (recv_blocks ∷ os) (suc budget) w v =
      with_room w recv_blocks os budget (record w { receives = os }, suc budget) v
        (λ h. unread w (suc budget) (recv_blocks ∷ os) os v (blocking h))
  Reads-recv_loop (recv_fails ∷ os) (suc budget) w v =
      with_room w recv_fails os budget (close_peer (record w { receives = os }), suc budget) v
        (λ h. closed_read w (suc budget) os v h)
  Reads-recv_loop (received bytes ∷ os) (suc budget) w v =
      let got =
        take (min read_chunk (min (suc budget) (c.max_frame_bytes -size buffer_size w.peer.input)))
          bytes in
      let asked = ap (λ n. take n bytes) (asked_lem w (suc budget) v) in
      with_room w (received bytes) os budget
        (if length got == 0
          then (at_eof (record w { receives = os }), suc budget)
          else recv_loop c os (suc budget - length got) (take_in got w))
        v
        (λ h. elim (Bool-cases (length got == 0)) [
          | inl z ↦ rw z (
              nothing_read w (suc budget) (received bytes ∷ os) os true w.peer.closed
                w.runtime.active v (ending h (ap length (sym asked) ∙ ground arith)))
          | inr z ↦
              let some_bytes : 0 < length got = ground arith in
              rw z (
                chunk_read w _ (suc budget) bytes os v
                  (subst (λ part. 0 < length part) asked some_bytes)
                  (subst
                    (λ part.
                      IsReceiving c (take_in part w).peer
                      → Reads c (suc budget - length part) os (take_in part w)
                          (recv_loop c os (suc budget - length got) (take_in got w)).0)
                    asked (Reads-recv_loop os (suc budget - length got) (take_in got w))))
        ])
