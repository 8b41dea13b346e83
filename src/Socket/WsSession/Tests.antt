-- ===== src/Socket/WsSession/Tests.antt =====
-- `RunRecv` of socket/websocket/session.go on two messages, then on reads that fail.
use rocommon.Prelude.{ℕ, ◌≡◌, refl, replicate, [], ◌∷◌, ◌++◌, none, some, true, false}
use rocommon.Rpc.Fault.{ok}
use rocommon.Rpc.Message.{message}
use rocommon.Rpc.Tests.{type_of, reg, env, env-IsSound, hi-Known, hi_frame, hi_frame_run}
use rocommon.Socket.Processor.{read, read_error, read_panics, ws_on_send_msg}
use rocommon.Socket.WsSession.{RecvPlace, received, run_recv, run_send}
use rocommon.Socket.WsSession.Received.{
  none_handed, then_handed, run_recv-ws_on_send_msg, run_recv-read_error,
}

hi_handed :
    ws_on_send_msg type_of reg env true true (message (5 ∷ 6 ∷ [])) 40960 [] ≡ ok (some hi_frame)
unfolding ws_on_send_msg
hi_handed = hi_frame_run

run_recv-ws_on_send_msg_example :
    run_recv type_of reg env [] (read true hi_frame ∷ read true hi_frame ∷ [])
    ≡ (received (some (5 ∷ 6 ∷ [])) 0 ∷ received (some (5 ∷ 6 ∷ [])) 0 ∷ [], RecvPlace.in_loop)
unfolding run_recv
run_recv-ws_on_send_msg_example =
    run_recv-ws_on_send_msg type_of reg env [] 40960 ((5 ∷ 6 ∷ []) ∷ (5 ∷ 6 ∷ []) ∷ [])
      (hi_frame ∷ hi_frame ∷ []) [] env-IsSound
      (then_handed (5 ∷ 6 ∷ []) (5 ∷ 6 ∷ []) hi_frame hi-Known hi_handed
        (then_handed (5 ∷ 6 ∷ []) (5 ∷ 6 ∷ []) hi_frame hi-Known hi_handed none_handed))

run_recv-read_error_example :
    (run_recv type_of reg env [] (replicate 3 read_error ++ read_panics ∷ [])
      ≡ (replicate 3 (received none 0), RecvPlace.recovered))
    × (run_recv type_of reg env [] (replicate 3 read_error)
        ≡ (replicate 3 (received none 0), RecvPlace.in_loop))
run_recv-read_error_example = run_recv-read_error type_of reg env [] 3 []

send_error : run_send {M = ℕ} (some 1 ∷ some 2 ∷ none ∷ []) (true ∷ false ∷ []) ≡ (1 ∷ [], true)
unfolding run_send
send_error = refl
