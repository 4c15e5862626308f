-- ===== src/Server/Pump/Events.antt =====
-- The life of a peer on its event loop: the order in which its descriptor, its posts, its timer and
-- its replies run is open, and between two of them the rest of the server changes what they share.
use kvrpc.Base.{ℕ, ◌≡◌, Bool, List, [], ◌∷◌, ◌++◌, Bytes, length, drop, if◌then◌else◌, ◌-size◌}
use kvrpc.Service.{Reply}
use kvrpc.Server.{Config, Job, Runtime}
use kvrpc.Server.Pump.{
  World, SendResult, RecvResult, attach, time_out, bad_reply, complete, scheduled_pump, on_event,
}

-- What the loop runs for a peer, replies aside.
pub data Event : Type 0 where
  ready : Bool → Event
  posted timed : Event

unfoldable pub run_event : Config → ℕ → Event → World → World
run_event c now (ready failed) w = on_event c now failed w
run_event c now posted w = scheduled_pump c now w
run_event c now timed w = if w.peer.closed then w else time_out w

-- A peer, its jobs that have no reply yet, and the bytes of the replies that it took.
pub record Session : Type 0 where
  pub world : World
  pub outstanding : List Job
  pub replies : Bytes

-- The jobs that a call has put on the queue.
abbrev pub queued : World → World → List Job
queued w w' = drop (length w.runtime.jobs) w'.runtime.jobs

-- The other threads change the state of the server, and the socket its next results.
abbrev pub elsewhere : Runtime → List SendResult → List RecvResult → World → World
elsewhere r os is w = record w { runtime = r; sends = os; receives = is }

abbrev pub attached : Config → ℕ → ℕ → Runtime → Session
attached c now token r = record {
  world = record { peer = attach c now token; runtime = r; sends = []; receives = []; wire = [] };
  outstanding = [];
  replies = [];
}

abbrev pub after_event : Config → ℕ → Event → World → Session → Session
after_event c now e w s = record s {
  world = run_event c now e w;
  outstanding = s.outstanding ++ queued w (run_event c now e w);
}

-- After a reply for the job between `front` and `back`.
abbrev pub after_reply : Config → ℕ → List Job → Job → List Job → Reply → World → Session → Session
after_reply c now front job back reply w s =
    let w' = complete c now job reply w in
    let refused = bad_reply c job reply (record w.peer { pending = w.peer.pending -size 1 }) in
    record {
      world = w';
      outstanding = (front ++ back) ++ queued w w';
      replies =
          if w.peer.closed
          then s.replies
          else if refused
          then s.replies
          else s.replies ++ reply.bytes;
    }

pub data Step (c : Config) : Session → Session → Type 0 where
  happens :
      (now : ℕ) (e : Event) (r : Runtime) (os : List SendResult) (is : List RecvResult)
      (s : Session)
      → Step c s (after_event c now e (elsewhere r os is s.world) s)
  answered :
      (now : ℕ) (front : List Job) (job : Job) (back : List Job) (reply : Reply) (r : Runtime)
      (os : List SendResult) (is : List RecvResult) (s : Session)
      → s.outstanding ≡ front ++ job ∷ back
      → Step c s (after_reply c now front job back reply (elsewhere r os is s.world) s)

pub data Reach (c : Config) (now token : ℕ) (r : Runtime) : Session → Type 0 where
  started : Reach c now token r (attached c now token r)
  then_step : {s s' : Session} → Reach c now token r s → Step c s s' → Reach c now token r s'
