-- ===== src/Tests/Transports.antt =====
-- A transport with two requests on its one connection, and completions that refuse every response.
use kvrpc.Base.{
  ℕ, ◌<◌, ◌≡◌, ◌⊎◌, refl, Bool, true, false, [], ◌∷◌, ◌++◌, none, some, arith, ok, ErrorCode,
  if◌then◌else◌,
}
use kvrpc.Transport.{
  Request, Response, response, failure, Transport, finish, finish_all, disconnect, submit_request,
}
use kvrpc.Transport.Requests.{IsTransport, Keeps, times_completed}
use kvrpc.Transport.Completions.{IsWithin, finish_once, disconnect_lem, submit_request_lem}

abbrev first : Request
first = record { id = 1; size = 10; slot = some 0; sent = true }

abbrev second : Request
second = record { id = 2; size = 20; slot = some 0; sent = false }

abbrev transport : Transport
transport = record {
  options = record {
    workers = 4;
    queue_capacity = 2;
    max_frame_bytes = 1000;
    queue_bytes = 100;
    max_inflight = 16;
  };
  with_ids = true;
  sockets =
      record {
        connected = true;
        connecting = false;
        input = [];
        output = 2 ∷ [];
        order = [];
        sent = 0;
        inflight = 2;
        retired = [];
      }
      ∷ [];
  waiting = [];
  requests = first ∷ second ∷ [];
  posted = [];
  admitted = 2;
  bytes = 30;
  closing = false;
  draining = false;
  stopped = false;
  completed = [];
}

abbrev refuse : ℕ → Response → Bool
refuse id reply = false

transport-IsTransport : IsTransport transport
transport-IsTransport = record { admitted = refl; bytes = refl }

transport-IsWithin : IsWithin transport
transport-IsWithin = record {
  counters = transport-IsTransport;
  capacity = omega arith;
  memory = omega arith;
}

-- The response to the first request is refused, and the second fails with the connection.
test_finish :
    finish refuse 3 1 (response []) transport
    ≡ ok (record transport {
      sockets =
          record {
            connected = false;
            connecting = false;
            input = [];
            output = [];
            order = [];
            sent = 0;
            inflight = 0;
            retired = [];
          }
          ∷ [];
      requests = [];
      admitted = 0;
      bytes = 0;
      completed = (1, response []) ∷ (2, failure ErrorCode.protocol) ∷ [];
    })
unfolding finish finish_all
test_finish = refl

finish_once_example :
    (t' : Transport) × (finish refuse 3 1 (response []) transport ≡ ok t')
    × Keeps transport t'
    × (times_completed 1 transport.completed < times_completed 1 t'.completed)
finish_once_example = finish_once refuse 1 (response []) transport first transport-IsTransport refl

disconnect_lem_example :
    (t' : Transport) × (disconnect refuse 3 0 ErrorCode.timeout transport ≡ ok t')
    × Keeps transport t'
disconnect_lem_example = disconnect_lem refuse 0 ErrorCode.timeout transport transport-IsTransport

submit_request_lem_example :
    IsWithin (submit_request 3 5 transport)
    × (((submit_request 3 5 transport).posted
            ≡ [] ++ record { id = 3; size = 5; slot = none; sent = false } ∷ [])
          × ((submit_request 3 5 transport).completed ≡ [])
        ⊎ ((submit_request 3 5 transport).posted ≡ [])
          × ((submit_request 3 5 transport).completed
              ≡ []
                ++ (
                  3,
                  failure (if transport.closing then ErrorCode.closed else ErrorCode.overloaded),
                )
                  ∷ []))
submit_request_lem_example = submit_request_lem 3 5 transport transport-IsWithin
