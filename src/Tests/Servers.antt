-- ===== src/Tests/Servers.antt =====
-- A server whose frames are two bytes, one peer of it, and its queue.
use kvrpc.Base.{
  ◌+◌, ◌≡◌, ◌≤◌, ◌⊎◌, ◌-size◌, All, map, refl, true, false, List, [], ◌∷◌, ◌++◌, some, Bytes,
  length, drop, take, arith, ok,
}
use kvrpc.Buffer.{buffer_data, append, consume, copy}
use kvrpc.Service.{Reply}
use kvrpc.Server.{Config, Job, Runtime, Handler, per_batch, is_batch, default_options, submit, work}
use kvrpc.Server.Queue.{IsQueue, Takes, batch_size, submit-IsQueue, work_lem}
use kvrpc.Server.Accept.{
  Accepted, Accepts, connected, interrupted, none_left, accept_ready, Accepts-accept_ready,
}
use kvrpc.Server.Pump.{
  work_budget, limit_of, bad_reply, World, attach, moved, send_blocks, received, recv_blocks, pump,
  complete, on_event, send_loop, recv_loop, frame_loop, sent_some, finish_pump, receive_and_cut,
  read_some,
}
use kvrpc.Server.Pump.Sending.{unsent}
use kvrpc.Server.Pump.Delivery.{Delivers, room_of, may_read}
use kvrpc.Server.Pump.Framing.{IsJob, inputs}
use kvrpc.Server.Pump.Limits.{IsPeer}
use kvrpc.Server.Pump.Stages.{pump_lem}
use kvrpc.Server.Pump.Replies.{reply_lem}
use kvrpc.Server.Pump.Events.{
  Session, attached, Reach, started, then_step, happens, ready, elsewhere, after_event, run_event,
}
use kvrpc.Server.Pump.Sessions.{session_lem}

abbrev config : Config
config = record {
  options = default_options;
  max_connections = 2;
  max_frame_bytes = 4;
  sizer = some (λ bs. some 2);
  batched = false;
}

abbrev runtime : Runtime
runtime = record {
  jobs = [];
  queued_bytes = 0;
  closing = false;
  stat_bytes = 0;
  stat_tasks = 0;
  accepted = 0;
  active = 1;
  rejected = 0;
  requests = 0;
  timeouts = 0;
  handler_errors = 0;
}

-- The peer has received three bytes, the first two of which are a frame.
abbrev world : World
world = record {
  peer = attach config 5 7;
  runtime = runtime;
  sends = [];
  receives = received (1 ∷ 2 ∷ 3 ∷ []) ∷ recv_blocks ∷ [];
  wire = [];
}

world-IsPeer : IsPeer config world.peer
world-IsPeer = record {
  sending = record { counted = refl; short = refl };
  receiving = record {
    buffer = record { within = omega arith };
    fits = unfold buffer_data drop in omega arith;
  };
  pending = omega arith;
  output_bytes = omega arith;
}

test_pump :
    (pump config 5 world).runtime.jobs
    ≡ record { input = 1 ∷ 2 ∷ []; peer = 7; size = 2; framed = true } ∷ []
unfolding pump send_loop recv_loop frame_loop submit copy finish_pump receive_and_cut read_some
    append consume buffer_data drop take
test_pump = refl

-- The peer stays open.
test_open : (pump config 5 world).peer.closed ≡ false
unfolding pump send_loop recv_loop frame_loop submit copy finish_pump receive_and_cut read_some
    append consume buffer_data drop take
test_open = refl

pump_lem_example :
    (got : Bytes) × (new : List Job) × IsPeer config (pump config 5 world).peer
    × ((pump config 5 world).wire ++ unsent (pump config 5 world).peer
        ≡ world.wire ++ unsent world.peer)
    × (inputs new ++ buffer_data (pump config 5 world).peer.input
        ≡ buffer_data world.peer.input ++ got)
    × ((pump config 5 world).runtime.jobs ≡ world.runtime.jobs ++ new)
    × All (IsJob config world.peer.token) new
    × ((pump config 5 world).peer.pending ≡ world.peer.pending + length new)
    × (((may_read config (send_loop config 5 world.sends work_budget world).0.peer ≡ true)
          × Delivers
              (room_of config world)
              work_budget
              world.receives
              (pump config 5 world).receives
              got)
        ⊎ ((may_read config (send_loop config 5 world.sends work_budget world).0.peer ≡ false)
            × (got ≡ [])
            × ((pump config 5 world).receives ≡ world.receives)))
pump_lem_example = pump_lem config 5 world world-IsPeer refl test_open

-- A job of two bytes that waits for its reply.
abbrev job : Job
job = record { input = 1 ∷ 2 ∷ []; peer = 7; size = 2; framed = true }

abbrev reply : Reply
reply = record { bytes = 9 ∷ 8 ∷ 7 ∷ []; consumed = 2; close = false }

abbrev waiting : World
waiting = record world {
  peer = record world.peer { pending = 1 };
  receives = [];
  sends = moved 2 ∷ send_blocks ∷ [];
}

waiting-IsPeer : IsPeer config waiting.peer
waiting-IsPeer = record {
  sending = record { counted = refl; short = refl };
  receiving = record {
    buffer = record { within = omega arith };
    fits = unfold buffer_data drop in omega arith;
  };
  pending = omega arith;
  output_bytes = omega arith;
}

-- Two bytes of the reply have been sent.
test_complete : (complete config 5 job reply waiting).wire ≡ 9 ∷ 8 ∷ []
unfolding complete sent_some pump send_loop recv_loop frame_loop submit copy finish_pump
    receive_and_cut read_some append consume buffer_data drop take
test_complete = refl

reply_lem_example :
    let w' = complete config 5 job reply waiting in
    let bad =
      bad_reply config job reply (record waiting.peer { pending = waiting.peer.pending -size 1 }) in
    IsPeer config w'.peer
    × ((bad ≡ true)
          × (w'.peer.closed ≡ true)
          × (w'.wire ++ unsent w'.peer ≡ waiting.wire ++ unsent waiting.peer)
        ⊎ (bad ≡ false)
          × (w'.wire ++ unsent w'.peer ≡ (waiting.wire ++ unsent waiting.peer) ++ reply.bytes))
reply_lem_example = reply_lem config 5 job reply waiting waiting-IsPeer refl (omega arith) refl

-- The descriptor is ready, and the bytes of a frame and a half have come.
abbrev session : Session
session =
    after_event config 5 (ready false)
      (elsewhere runtime [] (received (1 ∷ 2 ∷ 3 ∷ []) ∷ recv_blocks ∷ [])
        (attached config 5 7 runtime).world)
      (attached config 5 7 runtime)

session-Reach : Reach config 5 7 runtime session
session-Reach = then_step started (
    happens 5 (ready false) runtime [] (received (1 ∷ 2 ∷ 3 ∷ []) ∷ recv_blocks ∷ [])
      (attached config 5 7 runtime))

test_session : session.world.peer.closed ≡ false
unfolding run_event on_event pump send_loop recv_loop frame_loop submit copy finish_pump
    receive_and_cut read_some append consume buffer_data drop take
test_session = refl

session_lem_example :
    (session.world.peer.pending ≡ length session.outstanding)
    × (session.world.wire ++ unsent session.world.peer ≡ session.replies)
    × (session.world.peer.pending ≤ limit_of config)
    × (session.world.peer.output_bytes ≤ config.options.output_bytes)
    × (length (buffer_data session.world.peer.input) ≤ config.max_frame_bytes)
session_lem_example = session_lem config 7 refl 5 runtime session session-Reach test_session

runtime-IsQueue : IsQueue default_options runtime
runtime-IsQueue = record {
  bytes = refl;
  stat_bytes = refl;
  stat_tasks = refl;
  fits = omega arith;
  capacity = omega arith;
}

submit-IsQueue_example :
    IsQueue default_options (submit default_options job runtime).1
    × (((submit default_options job runtime).0 ≡ true)
          × ((submit default_options job runtime).1.jobs ≡ runtime.jobs ++ job ∷ [])
        ⊎ ((submit default_options job runtime).0 ≡ false)
          × ((submit default_options job runtime).1 ≡ runtime))
submit-IsQueue_example = submit-IsQueue default_options job runtime runtime-IsQueue

abbrev replies_to : List Bytes → List Reply
replies_to [] = []
replies_to (b ∷ bs) = record { bytes = b; consumed = length b; close = false } ∷ replies_to bs

-- A batch handler that echoes.
abbrev echo : Handler Unit
echo = per_batch (λ bs h. (some (replies_to bs), h))

abbrev queue : Runtime
queue = record runtime { jobs = job ∷ job ∷ []; queued_bytes = 4; stat_bytes = 4; stat_tasks = 2 }

queue-IsQueue : IsQueue default_options queue
queue-IsQueue = record {
  bytes = refl;
  stat_bytes = refl;
  stat_tasks = refl;
  fits = omega arith;
  capacity = omega arith;
}

work_lem_example :
    ((queue.jobs ≡ []) × (work echo queue tt ≡ ok ([], queue, tt)))
    ⊎ ((answers : List (Job × Reply)) × (r' : Runtime) × (h' : Unit) × (work echo queue tt
          ≡ ok (answers, r', h'))
        × Takes default_options queue (map (λ x. x.0) answers) r'
        × (length answers ≡ batch_size (is_batch echo) (length queue.jobs)))
work_lem_example = work_lem default_options echo queue tt queue-IsQueue

abbrev before : Accepted
before = record { posts = []; next = 3; runtime = runtime }

Accepts-accept_ready_example :
    Accepts config 2 before
      (accept_ready config 2 64 (connected ∷ interrupted ∷ connected ∷ none_left ∷ []) before).0
Accepts-accept_ready_example =
    Accepts-accept_ready config 2 64 (connected ∷ interrupted ∷ connected ∷ none_left ∷ []) before
      (omega arith)
