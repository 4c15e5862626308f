-- ===== src/Server/Pump/Delivery.antt =====
-- What the results of `recv` deliver, and when `Pump` asks for them.
use kvrpc.Base.{
  ℕ, ◌-◌, ◌<◌, ◌≡◌, ◌⊎◌, refl, subst, inl, inr, Bool, true, false, not, ◌&&◌, ◌||◌, List, [], ◌∷◌,
  ◌++◌, Bytes, length, take, min, if◌then◌else◌, Bool-cases,
}
use kvrpc.Buffer.{buffer_data}
use kvrpc.Server.{Config}
use kvrpc.Server.Pump.{
  Peer, World, RecvResult, received, recv_interrupted, recv_blocks, recv_fails, read_chunk,
  work_budget, schedule, has_room, limit_of,
}

-- What `recv` brings of a script, and the script that it leaves, where no more bytes than `room` and
-- `budget` are wanted: each result with bytes brings as many of them as were asked for, an
-- interruption is passed over, and the rest is left when nothing is wanted or a result says so. No
-- result is used when nothing is wanted.
pub data Delivers : ℕ → ℕ → List RecvResult → List RecvResult → Bytes → Type 0 where
  stopped :
      {room budget : ℕ} {os : List RecvResult}
      → (budget ≡ 0) ⊎ (room ≡ 0) ⊎ (os ≡ [])
      → Delivers room budget os os []
  interruption :
      {room budget : ℕ} {os os' : List RecvResult} {got : Bytes}
      → 0 < min budget room
      → Delivers room budget os os' got
      → Delivers room budget (recv_interrupted ∷ os) os' got
  blocking :
      {room budget : ℕ} {os : List RecvResult}
      → 0 < min budget room
      → Delivers room budget (recv_blocks ∷ os) os []
  failing :
      {room budget : ℕ} {os : List RecvResult}
      → 0 < min budget room
      → Delivers room budget (recv_fails ∷ os) os []
  ending :
      {room budget : ℕ} {os : List RecvResult} {bytes : Bytes}
      → 0 < min budget room
      → length (take (min read_chunk (min budget room)) bytes) ≡ 0
      → Delivers room budget (received bytes ∷ os) os []
  chunk :
      {room budget : ℕ} {os os' : List RecvResult} {bytes part got : Bytes}
      → part ≡ take (min read_chunk (min budget room)) bytes
      → 0 < length part
      → Delivers (room - length part) (budget - length part) os os' got
      → Delivers room budget (received bytes ∷ os) os' (part ++ got)

-- What a peer can still receive.
abbrev pub room_of : Config → World → ℕ
room_of c w = c.max_frame_bytes - length (buffer_data w.peer.input)

-- Whether a peer may be read from.
abbrev pub may_read : Config → Peer → Bool
may_read c p = not p.eof && has_room c (limit_of c) p

module _ (c : Config) where
  pub Delivers-as :
      (w w₁ : World) {os os' : List RecvResult} {got : Bytes}
      → w₁.peer.input ≡ w.peer.input
      → os ≡ w.receives
      → Delivers (room_of c w₁) work_budget os os' got
      → Delivers (room_of c w) work_budget w.receives os' got
  Delivers-as w w₁ {os} {os'} {got} i e d =
      subst (λ rs. Delivers (room_of c w) work_budget rs os' got) e
        (subst (λ b. Delivers (c.max_frame_bytes - length (buffer_data b)) work_budget os os' got) i
          d)

  pub schedule_reads :
      (b : Bool) (p : Peer) → may_read c (if b then schedule p else p) ≡ may_read c p
  schedule_reads false p = refl
  schedule_reads true p = elim (Bool-cases (p.scheduled || p.closed)) [
    | inl z ↦ rw z refl
    | inr z ↦ rw z refl
  ]
