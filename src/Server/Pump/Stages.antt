-- ===== src/Server/Pump/Stages.antt =====
-- `Pump` as a whole, from its stages.
use kvrpc.Base.{
  ◌⊎◌, true-ne-false, ℕ, ◌+◌, ◌≡◌, refl, sym, subst, ◌∙◌, inl, inr, true, false, not, ◌&&◌, List,
  [], ◌++◌, Bytes, length, All, ltb, ◌==◌, if◌then◌else◌, if_true, if_false, Bool-cases,
}
use kvrpc.Buffer.{buffer_data}
use kvrpc.Server.{Config, Job}
use kvrpc.Server.Pump.{
  World, work_budget, schedule, has_room, is_framed, limit_of, finish_pump, receive_and_cut,
  send_loop, read_some, pump,
}
use kvrpc.Server.Pump.Sending.{unsent, Sends, Sends-send_loop}
use kvrpc.Server.Pump.Receiving.{Reads-recv_loop}
use kvrpc.Server.Pump.Delivery.{Delivers, room_of, may_read, Delivers-as, schedule_reads}
use kvrpc.Server.Pump.Framing.{IsJob, inputs, Cuts-frame_loop, close_peer-Shut}
use kvrpc.Server.Pump.Limits.{
  IsPeer, Pumps, Still, Still-trans, Shut-Still, Still-schedule, schedule_open, Still-Pumps,
  Sends-Pumps, Receives-Pumps, Cuts-Pumps, Pumps-trans, Pumps-quiet,
}

-- As `Pumps`, with what is received if the peer that is left open may be read from in `w₀`.
record Takes (c : Config) (w₀ w w' : World) : Type 0 where
  got : Bytes
  pumps : Pumps c got w w'
  read :
      w'.peer.closed ≡ false
      → may_read c w₀.peer ≡ true
      → Delivers (room_of c w) work_budget w.receives w'.receives got
  idle :
      w'.peer.closed ≡ false → may_read c w₀.peer ≡ false → (got ≡ []) × (w'.receives ≡ w.receives)

module _ (c : Config) where
  Takes-quiet :
      {w₀ w w' w'' : World}
      → w'.peer.closed ≡ false
      → Takes c w₀ w w'
      → Pumps c [] w' w''
      → w''.receives ≡ w'.receives
      → Takes c w₀ w w''
  Takes-quiet {w} o a b e = record {
    got = a.got;
    pumps = Pumps-quiet c o a.pumps b;
    read = λ o' r.
        subst (λ os. Delivers (room_of c w) work_budget w.receives os a.got) (sym e) (a.read o r);
    idle = λ o' r. let (none_got, same) = a.idle o r in (none_got, e ∙ same);
  }

  -- A world that flags alone tell from one that has been reached.
  still :
      {w₀ w w' w'' : World}
      → w'.peer.closed ≡ false
      → Takes c w₀ w w'
      → Still w' w''
      → Takes c w₀ w w''
  still o a k = Takes-quiet o a (Still-Pumps c a.pumps.valid k) k.receives

  Takes-finish_pump :
      (w₀ w w' : World) (left : ℕ) → Takes c w₀ w w' → Takes c w₀ w (finish_pump c (w', left))
  unfolding finish_pump
  Takes-finish_pump w₀ w w' left a =
      let limit = limit_of c in
      let again = left == 0 && ltb w'.peer.pending limit in
      let p = if again then schedule w'.peer else w'.peer in
      let w₁ = record w' { peer = p } in
      let k = Still-schedule again w' in
      let w₂ = record w' {
        peer = record p {
          reads = not p.eof && has_room c limit p;
          writes = not (length p.output == 0);
        };
      } in
      let k₂ : Still w' w₂ = record {
        input = k.input;
        pending = k.pending;
        jobs = refl;
        output = k.output;
        sent = k.sent;
        output_bytes = k.output_bytes;
        token = k.token;
        wire = refl;
        receives = refl;
      } in
      elim (Bool-cases w'.peer.closed) [
        | inl o ↦ subst (Takes c w₀ w) (sym (if_true w'.peer.closed _ _ o)) a
        | inr o ↦
            subst (Takes c w₀ w) (sym (if_false w'.peer.closed _ _ o))
              (elim (Bool-cases (p.eof && (p.pending == 0 && length p.output == 0))) [
                | inl e ↦
                    subst (Takes c w₀ w)
                      (sym (if_true (p.eof && (p.pending == 0 && length p.output == 0)) _ _ e))
                      (still o a (Still-trans k (Shut-Still (close_peer-Shut w₁))))
                | inr e ↦
                    subst (Takes c w₀ w)
                      (sym (if_false (p.eof && (p.pending == 0 && length p.output == 0)) _ _ e))
                      (still o a k₂)
              ])
      ]

  Takes-receive_and_cut :
      (w₀ w w' : World) (budget : ℕ)
      → Takes c w₀ w w'
      → Takes c w₀ w (receive_and_cut c (w', budget))
  unfolding receive_and_cut
  Takes-receive_and_cut w₀ w w' budget a =
      let w₁ = record w' { peer = if budget == 0 then schedule w'.peer else w'.peer } in
      let k = Still-schedule (budget == 0) w' in
      let b = Still-Pumps c a.pumps.valid k in
      let cuts = Cuts-frame_loop c (limit_of c) 32 w₁ b.valid.receiving b.valid.pending in
      elim (Bool-cases w'.peer.closed) [
        | inl o ↦ subst (Takes c w₀ w) (sym (if_true w'.peer.closed _ _ o)) a
        | inr o ↦ subst (Takes c w₀ w) (sym (if_false w'.peer.closed _ _ o)) (
            Takes-finish_pump w₀ w _ _ (
              Takes-quiet o a
                (Pumps-trans c (schedule_open (budget == 0) w' o) b (Cuts-Pumps c b.valid cuts))
                (cuts.receives ∙ k.receives)))
      ]

  Takes-read_some :
      (w w' : World) (budget : ℕ)
      → IsPeer c w.peer
      → Sends w w'
      → Takes c w' w (read_some c (w', budget)).0
  unfolding read_some
  Takes-read_some w w' budget v k =
      let again = budget == 0 && not (length w'.peer.output == 0) in
      let p = if again then schedule w'.peer else w'.peer in
      let w₁ = record w' { peer = p } in
      let a = Sends-Pumps c v k in
      let s = Still-schedule again w' in
      let b = Still-Pumps c a.valid s in
      let reads = Reads-recv_loop c w'.receives work_budget w₁ b.valid.receiving in
      let same = schedule_reads c again w'.peer in
      elim (Bool-cases w'.peer.closed) [
        | inl o ↦
            subst (λ (z : World × ℕ). Takes c w' w z.0) (sym (if_true w'.peer.closed _ _ o))
              (record {
                got = [];
                pumps = a;
                read = λ o' r. absurd (true-ne-false o o');
                idle = λ o' r. absurd (true-ne-false o o');
              })
        | inr o ↦
            subst (λ (z : World × ℕ). Takes c w' w z.0) (sym (if_false w'.peer.closed _ _ o))
              (elim (Bool-cases (may_read c p)) [
                | inl e ↦
                    subst (λ (z : World × ℕ). Takes c w' w z.0) (sym (if_true (may_read c p) _ _ e))
                      (record {
                        got = reads.got;
                        pumps = Pumps-trans c o a (
                            Pumps-trans c (schedule_open again w' o) b
                              (Receives-Pumps c b.valid reads.stage));
                        read = λ o' r.
                            Delivers-as c w w₁ (s.input ∙ k.input) k.receives reads.delivered;
                        idle = λ o' r. absurd (true-ne-false (sym same ∙ e) r);
                      })
                | inr e ↦
                    subst (λ (z : World × ℕ). Takes c w' w z.0)
                      (sym (if_false (may_read c p) _ _ e))
                      (record {
                        got = [];
                        pumps = Pumps-trans c o a b;
                        read = λ o' r. absurd (true-ne-false r (sym same ∙ e));
                        idle = λ o' r. (refl, k.receives);
                      })
              ])
      ]

  Takes-pump :
      (now : ℕ) (w : World)
      → IsPeer c w.peer
      → Takes c (send_loop c now w.sends work_budget w).0 w (pump c now w)
  unfolding pump
  Takes-pump now w v =
      let w₁ = (send_loop c now w.sends work_budget w).0 in
      elim (Bool-cases w.peer.closed) [
        | inl o ↦ subst (Takes c w₁ w) (sym (if_true w.peer.closed _ _ o)) (record {
          got = [];
          pumps = Still-Pumps c v (Still-schedule false w);
          read = λ o' r. absurd (true-ne-false o o');
          idle = λ o' r. absurd (true-ne-false o o');
        })
        | inr o ↦ subst (Takes c w₁ w) (sym (if_false w.peer.closed _ _ o)) (
            Takes-receive_and_cut w₁ w _ _
              (Takes-read_some w _ _ v (Sends-send_loop c now w.sends work_budget w v.sending)))
      ]

  pub Pumps-pump :
      (now : ℕ) (w : World) → IsPeer c w.peer → (got : Bytes) × Pumps c got w (pump c now w)
  Pumps-pump now w v = let a = Takes-pump now w v in (a.got, a.pumps)

  -- `Pump` of a peer that is within its bounds, which it leaves open, in a server with a sizer: the
  -- bounds still hold; each byte of the output is sent once and in order or is still to be sent;
  -- the inputs of the new jobs, and then the bytes that are left, are the bytes that there were and
  -- then those received; the jobs go to the end of the queue, each with the size and the token of
  -- the peer; and `pending` grows by their number. Either the peer may be read from once it has
  -- sent, and the bytes received are those that the results of `recv` bring, in order, each as many
  -- as were asked for within the frame limit and the budget, until one of the two or the results
  -- are used up or a result ends the reading, and the other results are left; or it may not, and no
  -- bytes are received and all results are left.
  pub pump_lem :
      (now : ℕ) (w : World)
      → IsPeer c w.peer
      → is_framed c ≡ true
      → (pump c now w).peer.closed ≡ false
      → (got : Bytes) × (new : List Job) × IsPeer c (pump c now w).peer
        × ((pump c now w).wire ++ unsent (pump c now w).peer ≡ w.wire ++ unsent w.peer)
        × (inputs new ++ buffer_data (pump c now w).peer.input ≡ buffer_data w.peer.input ++ got)
        × ((pump c now w).runtime.jobs ≡ w.runtime.jobs ++ new)
        × All (IsJob c w.peer.token) new
        × ((pump c now w).peer.pending ≡ w.peer.pending + length new)
        × (((may_read c (send_loop c now w.sends work_budget w).0.peer ≡ true)
              × Delivers (room_of c w) work_budget w.receives (pump c now w).receives got)
            ⊎ ((may_read c (send_loop c now w.sends work_budget w).0.peer ≡ false)
                × (got ≡ [])
                × ((pump c now w).receives ≡ w.receives)))
  pump_lem now w v framed o =
      let t = Takes-pump now w v in
      let a = t.pumps in
      (
        t.got,
        a.new,
        a.valid,
        a.output,
        a.input framed o,
        a.jobs,
        a.made,
        a.pending o,
        elim (Bool-cases (may_read c (send_loop c now w.sends work_budget w).0.peer)) [
          | inl r ↦ inl (r, t.read o r)
          | inr r ↦ inr (r, (t.idle o r).0, (t.idle o r).1)
        ],
      )
