-- ===== src/Socket/WsSession/Received.antt =====
-- What the loop of `RunRecv` of socket/websocket/session.go comes to.
use rocommon.Prelude.{
  ℕ, zero, suc, List, [], ◌∷◌, ◌++◌, map, replicate, none, some, true, ◌≡◌, refl, ap, ◌∙◌,
}
use rocommon.Codec.{Registry, GoType}
use rocommon.Rpc.Fault.{ok}
use rocommon.Rpc.Aes.{Bytes}
use rocommon.Rpc.Message.{Env, MsgCodec, message}
use rocommon.Rpc.Message.Crypt.{IsSound}
use rocommon.Rpc.Message.RoundTrip.{Known}
use rocommon.Socket.Processor.{WsRead, read, read_error, read_panics, ws_on_send_msg}
use rocommon.Socket.Processor.WebSocket.{
  ws_on_recv_msg-ws_on_send_msg, ws_on_recv_msg_bad_input, ws_on_recv_msg_panic,
}
use rocommon.Socket.WsSession.{RecvPlace, RecvEvent, received, recv_round, run_recv}

module _ {M : Type 0} (type_of : M → GoType) (reg : Registry (MsgCodec M)) (env : Env)
    (aes_key : Bytes) where
  -- Messages that the peer handed to its websocket, each with what was put out for it.
  pub data Handed (max : ℕ) : List M → List Bytes → Type 0 where
    none_handed : Handed max [] []
    then_handed :
        {msgs : List M} {outs : List Bytes} (msg : M) (plain out : Bytes)
        → Known type_of reg msg plain
        → ws_on_send_msg type_of reg env true true (message msg) max aes_key ≡ ok (some out)
        → Handed max msgs outs
        → Handed max (msg ∷ msgs) (out ∷ outs)

  -- Of messages that a peer under the same key handed to its websocket, RunRecv posts each once, in the
  -- order in which they were sent and with sequence number 0, before it goes on with its later reads.
  pub run_recv-ws_on_send_msg :
      (max : ℕ) (msgs : List M) (outs : List Bytes) (later : List WsRead)
      → IsSound env
      → Handed max msgs outs
      → run_recv type_of reg env aes_key (map (λ o. read true o) outs ++ later) ≡ (
        map (λ m. received (some m) 0) msgs ++ (run_recv type_of reg env aes_key later).0,
        (run_recv type_of reg env aes_key later).1,
      )
  unfolding run_recv recv_round
  run_recv-ws_on_send_msg max msgs outs later s none_handed = refl
  run_recv-ws_on_send_msg max msgs outs later s
        (then_handed {msgs = ms} {outs = os} msg plain out k e hs) =
      let ih = run_recv-ws_on_send_msg max ms os later s hs in
      let got = ws_on_recv_msg-ws_on_send_msg type_of reg env aes_key msg plain out max k s e in
      ap (λ r. recv_round type_of reg env aes_key r (rest ms os later)) got
      ∙ ap (λ l. recv_round type_of reg env aes_key (ok (some msg, 0)) l) ih
    where
      rest : List M → List Bytes → List WsRead → List (RecvEvent M) × RecvPlace
      rest ms os later = run_recv type_of reg env aes_key (map (λ o. read true o) os ++ later)

  -- One read that fails.
  run_recv-error :
      (reads : List WsRead)
      → run_recv type_of reg env aes_key (read_error ∷ reads) ≡ (
        received none 0 ∷ (run_recv type_of reg env aes_key reads).0,
        (run_recv type_of reg env aes_key reads).1,
      )
  unfolding run_recv recv_round
  run_recv-error reads =
      ap (λ r. recv_round type_of reg env aes_key r (run_recv type_of reg env aes_key reads))
        (ws_on_recv_msg_bad_input type_of reg env aes_key []).1

  run_recv-panic :
      (later : List WsRead)
      → run_recv type_of reg env aes_key (read_panics ∷ later) ≡ ([], RecvPlace.recovered)
  unfolding run_recv recv_round
  run_recv-panic later =
      ap (λ r. recv_round type_of reg env aes_key r (run_recv type_of reg env aes_key later))
        (ws_on_recv_msg_panic type_of reg env aes_key)

  -- Where the reads of a failed connection give errors and then the panic of the websocket's library,
  -- RunRecv posts a nil message for each error, and is recovered from the panic: it posts no SessionClosed,
  -- and leaves no `exitWg.Done()`. Before the panic, after any number of errors, it is in its loop.
  pub run_recv-read_error :
      (n : ℕ) (later : List WsRead)
      → (run_recv type_of reg env aes_key (replicate n read_error ++ read_panics ∷ later)
          ≡ (replicate n (received none 0), RecvPlace.recovered))
        × (run_recv type_of reg env aes_key (replicate n read_error)
            ≡ (replicate n (received none 0), RecvPlace.in_loop))
  unfolding run_recv
  run_recv-read_error zero later = (run_recv-panic later, refl)
  run_recv-read_error (suc n) later =
      let (failed, looping) = run_recv-read_error n later in
      (
        run_recv-error (replicate n read_error ++ read_panics ∷ later)
            ∙ ap (λ l. (received none 0 ∷ l.0, l.1)) failed,
        run_recv-error (replicate n read_error) ∙ ap (λ l. (received none 0 ∷ l.0, l.1)) looping,
      )
