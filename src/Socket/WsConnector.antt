-- ===== src/Socket/WsConnector.antt =====
-- socket/websocket/connector.go: the goroutine of `connect` and the callers of `Start` and `Stop`, in
-- every interleaving, as in Socket.Connector for TCP. `Start` and `Stop` are called any number of times,
-- each call of `Stop` after the one before it returned.
pub mod Stop
mod Tests
use rocommon.Prelude.{ℕ, ◌+◌, ◌≤◌, Bool, true, false, not, ◌||◌, if◌then◌else◌, ◌≡◌}

-- Where `connect` is: not begun, in `Dial`, with a session, in its sleep, out of the loop, at its end.
pub data Stage : Type 0 where
  begun dialing connected sleeping out_of_loop gone : Stage

-- Where `Stop` is: not called, past the test of the run state, past the Add, past the Close of the
-- session, or in the wait.
pub data Stopping : Type 0 where
  outside tested added closed waiting : Stopping

pub record WsConnector : Type 0 where
  pub reconnects : Bool
  pub conn_num : ℕ
  pub run_state : Bool
  pub close_flag : Bool
  pub stop_wg : ℕ
  pub stage : Stage
  pub stopping : Stopping
  pub connections : ℕ
  pub errors : ℕ

-- A connector; `SetReconnectTime` says whether it connects again.
pub new_ws_connector : Bool → WsConnector
new_ws_connector reconnects = record {
  reconnects = reconnects;
  conn_num = 0;
  run_state = false;
  close_flag = false;
  stop_wg = 0;
  stage = Stage.gone;
  stopping = Stopping.outside;
  connections = 0;
  errors = 0;
}

-- `Start`, past its wait and its test.
pub start_ws : WsConnector → WsConnector
start_ws c = record c { stage = Stage.begun }

-- The start of `connect`.
pub run_ws : WsConnector → WsConnector
run_ws c = record c { run_state = true; stage = Stage.dialing }

-- `reconnectTime == 0 || GetCloseFlag()`
no_retry : WsConnector → Bool
no_retry c = not c.reconnects || c.close_flag

-- The dial fails: an error event, or a sleep.
pub ws_dial_failed : WsConnector → WsConnector
unfolding no_retry
ws_dial_failed c =
    if no_retry c
    then record c { conn_num = c.conn_num + 1; errors = c.errors + 1; stage = Stage.out_of_loop }
    else record c { conn_num = c.conn_num + 1; stage = Stage.sleeping }

-- The dial succeeds: a session and its event, whatever the close flag says.
pub ws_dialed : WsConnector → WsConnector
ws_dialed c = record c { conn_num = 0; connections = c.connections + 1; stage = Stage.connected }

-- The session ends.
pub ws_session_ended : WsConnector → WsConnector
unfolding no_retry
ws_session_ended c = record c { stage = if no_retry c then Stage.out_of_loop else Stage.sleeping }

pub ws_woken : WsConnector → WsConnector
ws_woken c = record c { stage = Stage.dialing }

-- After the loop; the Done is commented out.
pub ws_stopped : WsConnector → WsConnector
ws_stopped c = record c { run_state = false; stage = Stage.gone }

-- `Stop`, call by call.
pub ws_test_run_state : WsConnector → WsConnector
ws_test_run_state c = record c {
  stopping = if c.run_state then Stopping.tested else Stopping.outside;
}

pub ws_add_stop : WsConnector → WsConnector
ws_add_stop c = record c { stop_wg = c.stop_wg + 1; stopping = Stopping.added }

pub ws_close_session : WsConnector → WsConnector
ws_close_session c = record c { stopping = Stopping.closed }

pub ws_set_close_flag : WsConnector → WsConnector
ws_set_close_flag c = record c { close_flag = true; stopping = Stopping.waiting }

pub ws_stop_returned : WsConnector → WsConnector
ws_stop_returned c = record c { stopping = Stopping.outside }

-- One step of `connect`, of a caller of `Start`, or of the caller of `Stop`.
pub data WsMove (c : WsConnector) : WsConnector → Type 0 where
  ws_started : c.stage ≡ Stage.gone → c.stop_wg ≡ 0 → c.run_state ≡ false → WsMove c (start_ws c)
  ws_begun : c.stage ≡ Stage.begun → WsMove c (run_ws c)
  ws_dial_error : c.stage ≡ Stage.dialing → WsMove c (ws_dial_failed c)
  ws_connected : c.stage ≡ Stage.dialing → WsMove c (ws_dialed c)
  ws_session_lost : c.stage ≡ Stage.connected → WsMove c (ws_session_ended c)
  ws_time_over : c.stage ≡ Stage.sleeping → WsMove c (ws_woken c)
  ws_loop_left : c.stage ≡ Stage.out_of_loop → WsMove c (ws_stopped c)
  ws_stop_called : c.stopping ≡ Stopping.outside → WsMove c (ws_test_run_state c)
  ws_stop_added : c.stopping ≡ Stopping.tested → WsMove c (ws_add_stop c)
  ws_session_closed : c.stopping ≡ Stopping.added → WsMove c (ws_close_session c)
  ws_flag_set : c.stopping ≡ Stopping.closed → WsMove c (ws_set_close_flag c)
  ws_wait_over : c.stopping ≡ Stopping.waiting → c.stop_wg ≡ 0 → WsMove c (ws_stop_returned c)

-- Any number of steps.
pub data WsMoves (c : WsConnector) : WsConnector → Type 0 where
  ws_none : WsMoves c c
  ws_more : {d e : WsConnector} → WsMoves c d → WsMove d e → WsMoves c e
