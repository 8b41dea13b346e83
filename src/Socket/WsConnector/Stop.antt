-- ===== src/Socket/WsConnector/Stop.antt =====
-- What a `Stop` of socket/websocket/connector.go comes to.
use rocommon.Prelude.{◌+◌, ◌≤◌, ◌≡◌, ◌≢◌, refl, arith}
use rocommon.Socket.WsConnector.{
  Stage, Stopping, WsConnector, start_ws, run_ws, ws_dial_failed, ws_dialed, ws_session_ended,
  ws_woken, ws_stopped, ws_test_run_state, ws_add_stop, ws_close_session, ws_set_close_flag,
  ws_stop_returned, ws_started, ws_begun, ws_dial_error, ws_connected, ws_session_lost,
  ws_time_over, ws_loop_left, ws_stop_called, ws_stop_added, ws_session_closed, ws_flag_set,
  ws_wait_over, WsMove, WsMoves, ws_none, ws_more,
}

-- Past the Add of Stop.
abbrev pub IsStopped : Stopping → Type 0
IsStopped Stopping.outside = ⊥
IsStopped Stopping.tested = ⊥
IsStopped s = Unit {0}

-- A Stop that made its Add, and whose Done is still to come.
abbrev Owed : WsConnector → Type 0
Owed c = IsStopped c.stopping × (1 ≤ c.stop_wg)

Owed-WsMove : (c d : WsConnector) → WsMove c d → Owed c → Owed d
unfolding start_ws run_ws ws_dial_failed ws_dialed ws_session_ended ws_woken ws_stopped
    ws_test_run_state ws_add_stop ws_close_session ws_set_close_flag ws_stop_returned
Owed-WsMove c d (ws_started e w r) h = ground (arith, e, w, r, h)
Owed-WsMove c d (ws_begun e) h = ground (arith, e, h)
Owed-WsMove c d (ws_dial_error e) h = ground (arith, e, h)
Owed-WsMove c d (ws_connected e) h = ground (arith, e, h)
Owed-WsMove c d (ws_session_lost e) h = ground (arith, e, h)
Owed-WsMove c d (ws_time_over e) h = ground (arith, e, h)
Owed-WsMove c d (ws_loop_left e) h = ground (arith, e, h)
Owed-WsMove c d (ws_stop_called e) h = ground (arith, e, h)
Owed-WsMove c d (ws_stop_added e) h = ground (arith, e, h)
Owed-WsMove c d (ws_session_closed e) h = ground (arith, e, h)
Owed-WsMove c d (ws_flag_set e) h = ground (arith, e, h)
Owed-WsMove c d (ws_wait_over e w) h = ground (arith, e, w, h)

Owed-WsMoves : (c d : WsConnector) → WsMoves c d → Owed c → Owed d
Owed-WsMoves c d ws_none h = h
Owed-WsMoves c d (ws_more {d = b} ms m) h = Owed-WsMove b d m (Owed-WsMoves c b ms h)

-- A Stop that found the connector running waits for ever: whatever else happens, from its Add on it has
-- not returned and no Start gets past its own wait.
pub ws_add_stop-waits :
    (c d : WsConnector)
    → c.stopping ≡ Stopping.tested
    → WsMoves (ws_add_stop c) d
    → (d.stopping ≢ Stopping.outside) × (d.stop_wg ≢ 0)
unfolding ws_add_stop
ws_add_stop-waits c d e ms =
    let h = Owed-WsMoves (ws_add_stop c) d ms (tt, omega arith) in
    (λ o. ground (arith, o, h), λ z. ground (arith, z, h))

-- While a dial is under way, Stop does not keep the connector from a further session.
pub ws_set_close_flag-connections :
    (c : WsConnector)
    → c.stage ≡ Stage.dialing
    → WsMove (ws_set_close_flag c) (ws_dialed (ws_set_close_flag c))
      × ((ws_dialed (ws_set_close_flag c)).connections ≡ c.connections + 1)
unfolding ws_set_close_flag ws_dialed
ws_set_close_flag-connections c e = (ws_connected e, refl)
