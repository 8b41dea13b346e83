-- ===== src/Socket/WsConnector/Tests.antt =====
-- A connector of socket/websocket/connector.go that was stopped while it dialled, and then connects.
use rocommon.Prelude.{true, ◌≢◌, refl}
use rocommon.Socket.WsConnector.{
  Stopping, WsConnector, new_ws_connector, start_ws, run_ws, ws_test_run_state, ws_add_stop,
  ws_close_session, ws_set_close_flag, ws_dialed, ws_session_closed, ws_flag_set, ws_connected,
  WsMoves, ws_none, ws_more,
}
use rocommon.Socket.WsConnector.Stop.{ws_add_stop-waits}

abbrev dialing : WsConnector
dialing = ws_test_run_state (run_ws (start_ws (new_ws_connector true)))

abbrev connected : WsConnector
connected = ws_dialed (ws_set_close_flag (ws_close_session (ws_add_stop dialing)))

to_connected : WsMoves (ws_add_stop dialing) connected
unfolding new_ws_connector start_ws run_ws ws_test_run_state ws_add_stop ws_close_session
    ws_set_close_flag ws_dialed
to_connected =
    ws_more (ws_more (ws_more ws_none (ws_session_closed refl)) (ws_flag_set refl))
      (ws_connected refl)

ws_add_stop-waits_example : (connected.stopping ≢ Stopping.outside) × (connected.stop_wg ≢ 0)
unfolding new_ws_connector start_ws run_ws ws_test_run_state ws_add_stop ws_close_session
    ws_set_close_flag ws_dialed
ws_add_stop-waits_example = ws_add_stop-waits dialing connected refl to_connected
