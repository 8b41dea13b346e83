-- ===== src/Socket/Connector/Tests.antt =====
-- A connector of socket/tcp/connector.go at concrete runs.
use rocommon.Prelude.{arith, true, false, refl}
use rocommon.Socket.Connector.{
  Connector, new_connector, start_connect, set_running, gives_up, dial_succeeded, session_ended,
  set_stopped, finish, test_running, set_close_flag, add_stop, close_session, stop_returned, Move,
  start_called, connect_begun, dialed, loop_left, Moves, none_made, one_more,
}
use rocommon.Socket.Connector.Restart.{stop_stuck}

-- A connected connector, and one whose Stop waits.
abbrev with_session : Connector
with_session = dial_succeeded (set_running (start_connect (new_connector true)))

abbrev stopping : Connector
stopping = close_session (add_stop (set_close_flag (test_running with_session)))

abbrev stopped : Connector
stopped = stop_returned (finish (set_stopped (session_ended stopping)))

abbrev restarted : Connector
restarted = set_stopped (dial_succeeded (set_running (start_connect stopped)))

restarting : Moves stopped restarted
unfolding new_connector start_connect set_running gives_up dial_succeeded session_ended set_stopped
    finish test_running set_close_flag add_stop close_session stop_returned
restarting =
    one_more
      (one_more (one_more (one_more none_made (start_called refl refl refl)) (connect_begun refl))
        (dialed refl))
      (loop_left refl)

-- A Stop that was overtaken by the end of connect.
abbrev overtaken : Connector
overtaken = close_session (
    add_stop (
      set_close_flag (
        finish (
          set_stopped (
            session_ended (
              test_running
                (dial_succeeded (set_running (start_connect (new_connector false))))))))))

overtaken_stuck : (d : Connector) → Move overtaken d → ⊥
unfolding new_connector start_connect set_running gives_up dial_succeeded session_ended set_stopped
    finish test_running set_close_flag add_stop close_session
overtaken_stuck d m = stop_stuck overtaken d refl (λ e. absurd (ground arith)) refl m
