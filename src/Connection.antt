-- ===== src/Connection.antt =====
-- include/kvrpc/tcp_connection.h and src/tcp_connection.cpp: a blocking connection of a client, with
-- its deadlines. The kernel and the clock are a script: what `Wait` meets, and after it the result of
-- the call that waited. At the end of a script the deadline has passed.
pub mod Transfers
use kvrpc.Base.{
  ℕ, zero, suc, ◌+◌, ◌-◌, ◌^◌, min, Bool, true, false, not, ◌&&◌, ◌||◌, List, [], ◌∷◌, ◌++◌, Bytes,
  length, take, drop, ltb, ◌==◌, if◌then◌else◌, Outcome, ok, Exception, ErrorCode, throw_if, ◌>>=◌,
  ◌>>◌,
}
use kvrpc.Server.Pump.{SendResult, RecvResult}

pub record TransportOptions : Type 0 where
  pub connect_timeout : ℕ
  pub io_timeout : ℕ

-- `connected` is that `fd_` is a descriptor.
pub record Connection : Type 0 where
  pub options : TransportOptions
  pub connected : Bool
  pub deadline : ℕ
  pub timed_out : Bool

-- A round of `Wait`: no time remains, `epoll_wait` ends without an event, a call fails, a signal
-- interrupts it, or the descriptor is ready.
pub data Poll (A : Type 0) : Type 0 where
  late elapsed broken interrupted : Poll A
  ready : A → Poll A

abbrev pub int_max : ℕ
int_max = 2 ^ 31 - 1

-- `BeginRequest`, at a time.
abbrev pub begin_request : ℕ → Connection → Connection
begin_request now c = record c { timed_out = false; deadline = now + c.options.io_timeout }

-- The constructor; a count is not negative.
unfoldable pub new_connection : ℕ → TransportOptions → Outcome Connection
new_connection now o = do
  throw_if
      (o.connect_timeout == 0
        || o.io_timeout == 0
        || ltb int_max o.connect_timeout
        || ltb int_max o.io_timeout)
      (Exception.rpc_error ErrorCode.invalid_argument)
  ok (
      begin_request now
        (record { options = o; connected = false; deadline = 0; timed_out = false }))

-- `Close`
abbrev pub close_connection : Connection → Connection
close_connection c = record c { connected = false }

-- The end of a `Wait` that fails, and the `Close` after it.
abbrev pub expired_wait : Connection → Connection
expired_wait c = close_connection (record c { timed_out = true })

abbrev pub failed_wait : Connection → Connection
failed_wait c = close_connection c

-- The loop of `SendAll` with the bytes that are left, and the bytes that `send` took.
unfoldable pub send_rest :
    List (Poll SendResult) → Bytes → Bytes → Connection → Bool × Bytes × Connection
send_rest ps [] wire c = (true, wire, c)
send_rest [] (b ∷ bs) wire c = (false, wire, expired_wait c)
send_rest (late ∷ ps) (b ∷ bs) wire c = (false, wire, expired_wait c)
send_rest (elapsed ∷ ps) (b ∷ bs) wire c = (false, wire, expired_wait c)
send_rest (broken ∷ ps) (b ∷ bs) wire c = (false, wire, failed_wait c)
send_rest (interrupted ∷ ps) (b ∷ bs) wire c = send_rest ps (b ∷ bs) wire c
send_rest (ready SendResult.send_interrupted ∷ ps) (b ∷ bs) wire c = send_rest ps (b ∷ bs) wire c
send_rest (ready SendResult.send_blocks ∷ ps) (b ∷ bs) wire c = send_rest ps (b ∷ bs) wire c
send_rest (ready SendResult.send_fails ∷ ps) (b ∷ bs) wire c = (false, wire, close_connection c)
send_rest (ready (SendResult.moved k) ∷ ps) (b ∷ bs) wire c =
    let n = min k (min (length (b ∷ bs)) int_max) in
    let more = send_rest ps (drop n (b ∷ bs)) (wire ++ take n (b ∷ bs)) c in
    if n == 0 then (false, wire, close_connection c) else more

-- `SendAll`; `null` is that there is no pointer.
unfoldable pub send_all :
    List (Poll SendResult) → Bool → Bytes → Connection → Bool × Bytes × Connection
send_all ps null bytes c =
    if not c.connected || (null && not (length bytes == 0))
    then (false, [], c)
    else send_rest ps bytes [] c

-- The loop of `RecvAll` with the number of bytes that are left, and the bytes that `recv` delivered.
unfoldable pub recv_rest :
    List (Poll RecvResult) → ℕ → Bytes → Connection → Bool × Bytes × Connection
recv_rest ps zero got c = (true, got, c)
recv_rest [] (suc left) got c = (false, got, expired_wait c)
recv_rest (late ∷ ps) (suc left) got c = (false, got, expired_wait c)
recv_rest (elapsed ∷ ps) (suc left) got c = (false, got, expired_wait c)
recv_rest (broken ∷ ps) (suc left) got c = (false, got, failed_wait c)
recv_rest (interrupted ∷ ps) (suc left) got c = recv_rest ps (suc left) got c
recv_rest (ready RecvResult.recv_interrupted ∷ ps) (suc left) got c = recv_rest ps (suc left) got c
recv_rest (ready RecvResult.recv_blocks ∷ ps) (suc left) got c = recv_rest ps (suc left) got c
recv_rest (ready RecvResult.recv_fails ∷ ps) (suc left) got c = (false, got, close_connection c)
recv_rest (ready (RecvResult.received bytes) ∷ ps) (suc left) got c =
    let more = take (min (suc left) int_max) bytes in
    let next = recv_rest ps (suc left - length more) (got ++ more) c in
    if length more == 0 then (false, got, close_connection c) else next

-- `RecvAll`
unfoldable pub recv_all : List (Poll RecvResult) → Bool → ℕ → Connection → Bool × Bytes × Connection
recv_all ps null len c =
    if not c.connected || (null && not (len == 0)) then (false, [], c) else recv_rest ps len [] c

-- The result of `connect`: at once, later, or an error.
pub data ConnectResult : Type 0 where
  at_once in_progress refused_connect : ConnectResult

-- The loop of `Wait` in `Connect`; a ready descriptor comes with the answer of `getsockopt`.
unfoldable pub await : List (Poll Bool) → Connection → Bool × Connection
await [] c = (false, expired_wait c)
await (late ∷ ps) c = (false, expired_wait c)
await (elapsed ∷ ps) c = (false, expired_wait c)
await (broken ∷ ps) c = (false, failed_wait c)
await (interrupted ∷ ps) c = await ps c
await (ready connected ∷ ps) c = if connected then (true, c) else (false, close_connection c)

abbrev pub after_connect : ConnectResult → List (Poll Bool) → Connection → Bool × Connection
after_connect at_once ps c = (true, c)
after_connect in_progress ps c = await ps c
after_connect refused_connect ps c = (false, close_connection c)

-- The end of `Connect`.
abbrev pub connected_at : ℕ → Bool × Connection → Bool × Connection
connected_at now (true, c) = (true, begin_request now c)
connected_at now (false, c) = (false, c)

-- `Connect` to a port, with whether the address parses, whether there is a descriptor, whether its
-- set-up succeeds, the results of the calls, and the time at the end.
unfoldable pub connect :
    ℕ → Bool → Bool → Bool → ConnectResult → List (Poll Bool) → ℕ → Connection → Bool × Connection
connect port parses socket setup result ps now c =
    let fresh = record (close_connection c) { timed_out = false } in
    if port == 0 || not parses || not socket
    then (false, fresh)
    else if not setup
    then (false, fresh)
    else connected_at now (after_connect result ps (record fresh { connected = true }))
