-- ===== src/Socket/Acceptor/Tests.antt =====
-- An acceptor of socket/tcp/acceptor.go at concrete runs: one session, then a Stop that waits.
use rocommon.Prelude.{true, ◌≡◌, refl}
use rocommon.Socket.Acceptor.{
  Accepted, Acceptor, new_acceptor, start_accept, accept_running, accept_returned, test_accepted,
  test_run_state, stop_wg_add, set_stop_flag, close_listener, start_called, accept_begun, accepted,
  accept_tested, stop_called, stop_added, flag_set, listener_closed, Turns, no_turn, then_turn,
}
use rocommon.Socket.Acceptor.Panics.{waiting-stopped, other_error_panics}

abbrev one_session : Acceptor
one_session =
    test_accepted Accepted.connection
      (accept_returned Accepted.connection (accept_running (start_accept new_acceptor)))

to_one_session : Turns new_acceptor one_session
unfolding new_acceptor start_accept accept_running accept_returned test_accepted
to_one_session =
    then_turn
      (then_turn
        (then_turn (then_turn no_turn (start_called refl refl refl refl)) (accept_begun refl))
        (accepted refl))
      (accept_tested Accepted.connection refl)

abbrev stopping : Acceptor
stopping = close_listener (set_stop_flag (stop_wg_add (test_run_state one_session)))

to_stopping : Turns new_acceptor stopping
unfolding new_acceptor start_accept accept_running accept_returned test_accepted test_run_state
    stop_wg_add set_stop_flag
to_stopping =
    then_turn
      (then_turn (then_turn (then_turn to_one_session (stop_called refl)) (stop_added refl))
        (flag_set refl))
      (listener_closed refl)

waiting-stopped_example : Turns stopping (record new_acceptor { sessions = 1 })
unfolding new_acceptor start_accept accept_running accept_returned test_accepted test_run_state
    stop_wg_add set_stop_flag close_listener
waiting-stopped_example = waiting-stopped stopping to_stopping refl

other_error_panics_example :
    (b : Acceptor) × Turns (accept_returned Accepted.other_error one_session) b
    × (b.panicked ≡ true)
unfolding new_acceptor start_accept accept_running accept_returned test_accepted
other_error_panics_example = other_error_panics one_session to_one_session refl refl
