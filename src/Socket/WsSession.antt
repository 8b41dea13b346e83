-- ===== src/Socket/WsSession.antt =====
-- socket/websocket/session.go: `RunRecv` on what the websocket's reads give, one after the other, through
-- the websocket processor of socket/procrpc.go, and `RunSend` on its queue. The interleavings of the
-- two with the callers of Send and Close are those of socket/tcp/session.go, in Socket.Session.
pub mod Received
mod Tests
use rocommon.Prelude.{
  ℕ, suc, ◌+◌, List, [], ◌∷◌, ◌++◌, Bool, true, false, Option, none, some, if◌then◌else◌, ◌≡◌, ltb,
  ◌==◌, not, length,
}
use rocommon.Codec.{Registry, GoType}
use rocommon.Rpc.Fault.{Result, ok, err, panic}
use rocommon.Rpc.Aes.{Bytes}
use rocommon.Rpc.Message.{Env, MsgCodec}
use rocommon.Socket.Processor.{WsRead, ws_on_recv_msg}

-- Where RunRecv is after some reads: in its loop, past `exitWg.Done()`, or recovered from a panic, which
-- leaves the function without it.
pub data RecvPlace : Type 0 where
  in_loop done recovered : RecvPlace

-- An event that RunRecv hands to ProcEvent: a message, which can be nil, with its sequence number, or
-- SessionClosed.
pub data RecvEvent (M : Type 0) : Type 0 where
  received : Option M → ℕ → RecvEvent M
  session_closed : RecvEvent M

module _ {M : Type 0} (type_of : M → GoType) (reg : Registry (MsgCodec M)) (env : Env)
    (aes_key : Bytes) where
  -- One result of ReadMsg, and what the later rounds come to.
  unfoldable pub recv_round :
      Result (Option M × ℕ) → List (RecvEvent M) × RecvPlace → List (RecvEvent M) × RecvPlace
  recv_round (ok (msg, seq_id)) (events, place) = (received msg seq_id ∷ events, place)
  recv_round (err e) later = (session_closed ∷ [], RecvPlace.done)
  recv_round panic later = ([], RecvPlace.recovered)

  -- `RunRecv`: its events in their order and its place, after as many reads as given. The put of nil
  -- that wakes RunSend up is taken to find room.
  unfoldable pub run_recv : List WsRead → List (RecvEvent M) × RecvPlace
  unfolding recv_round
  run_recv [] = ([], RecvPlace.in_loop)
  run_recv (r ∷ reads) =
      recv_round (ws_on_recv_msg type_of reg env (some r) aes_key) (run_recv reads)

-- The queue's messages that RunSend hands to SendMsg, whose n-th error is given, and whether it left the
-- loop: nil ends it, and so does an error.
unfoldable pub run_send : {M : Type 0} → List (Option M) → List Bool → List M × Bool
run_send [] fails = ([], false)
run_send (none ∷ queue) fails = ([], true)
run_send (some m ∷ queue) [] = let (sent, left) = run_send queue [] in (m ∷ sent, left)
run_send (some m ∷ queue) (failed ∷ fails) =
    let (sent, left) = run_send queue fails in if failed then (m ∷ [], true) else (m ∷ sent, left)
