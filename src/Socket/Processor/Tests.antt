-- ===== src/Socket/Processor/Tests.antt =====
-- Runs of the message processors of socket/procrpc.go.
use rocommon.Prelude.{◌≡◌, refl, [], ◌∷◌, none, some, true, false}
use rocommon.Rpc.Fault.{ok}
use rocommon.Rpc.Message.{message}
use rocommon.Rpc.Tests.{type_of, reg, env, hi_frame, hi_frame_run}
use rocommon.Socket.Processor.{ws_on_send_msg, tcp_on_recv_msg}

no_reader_run : tcp_on_recv_msg type_of reg env none 100 [] ≡ ok (none, 0, [])
unfolding tcp_on_recv_msg
no_reader_run = refl

other_node_run : ws_on_send_msg type_of reg env true false (message (5 ∷ [])) 100 [] ≡ ok none
unfolding ws_on_send_msg
other_node_run = refl

hi_sent :
    ws_on_send_msg type_of reg env true true (message (5 ∷ 6 ∷ [])) 40960 [] ≡ ok (some hi_frame)
unfolding ws_on_send_msg
hi_sent = hi_frame_run
