-- ===== src/Socket/Connector/Restart.antt =====
-- What a stopped connector of socket/tcp/connector.go keeps: its close flag, which nothing resets.
use rocommon.Prelude.{true, ◌≡◌, ◌≢◌, refl, ◌∙◌, arith}
use rocommon.Socket.Connector.{
  Place, Caller, Connector, start_connect, set_running, gives_up, dial_failed, dial_succeeded,
  session_ended, woken, set_stopped, finish, test_running, set_close_flag, add_stop, close_session,
  stop_returned, Move, start_called, connect_begun, dial_error, dialed, session_lost, time_over,
  loop_left, connect_ended, stop_called, flag_set, stop_added, session_closed, wait_over, Moves,
  none_made, one_more,
}

-- A caller of Stop whose wait is over, and the tags that it leaves.
abbrev Stopped : Connector → Type 0
Stopped c = (c.close_flag ≡ true) × (c.stop_wg ≡ 0) × (c.caller ≡ Caller.returned)

Stopped-Move :
    (c d : Connector) → Move c d → Stopped c → Stopped d × (d.connections ≡ c.connections)
unfolding start_connect set_running gives_up dial_failed dial_succeeded session_ended woken
    set_stopped finish test_running set_close_flag add_stop close_session stop_returned
Stopped-Move c d (start_called p w r) (f, z, q) = ((f, z, q), refl)
Stopped-Move c d (connect_begun p) (f, z, q) = ((f, z, q), refl)
Stopped-Move c d (dial_error p) (f, z, q) = ground (arith, f, z, q)
Stopped-Move c d (dialed p) (f, z, q) = ground (arith, f, z, q)
Stopped-Move c d (session_lost p) (f, z, q) = ((f, z, q), refl)
Stopped-Move c d (time_over p) (f, z, q) = ((f, z, q), refl)
Stopped-Move c d (loop_left p) (f, z, q) = ((f, z, q), refl)
Stopped-Move c d (connect_ended p) (f, z, q) = ground (arith, f, z, q)
Stopped-Move c d (stop_called p) (f, z, q) = absurd (ground (arith, p, q))
Stopped-Move c d (flag_set p) (f, z, q) = absurd (ground (arith, p, q))
Stopped-Move c d (stop_added p) (f, z, q) = absurd (ground (arith, p, q))
Stopped-Move c d (session_closed p) (f, z, q) = absurd (ground (arith, p, q))
Stopped-Move c d (wait_over p w) (f, z, q) = absurd (ground (arith, p, q))

Stopped-Moves :
    (c d : Connector) → Moves c d → Stopped c → Stopped d × (d.connections ≡ c.connections)
Stopped-Moves c d none_made h = (h, refl)
Stopped-Moves c d (one_more {d = b} ms m) h =
    let (g, n) = Stopped-Moves c b ms h in let (i, k) = Stopped-Move b d m g in (i, k ∙ n)

-- A connector for which Stop has returned, and which is started again, makes no connection, and its
-- goroutine panics at its end.
pub restart_panics :
    (c d : Connector)
    → c.close_flag ≡ true
    → c.stop_wg ≡ 0
    → c.caller ≡ Caller.returned
    → Moves c d
    → d.place ≡ Place.at_last_test
    → (d.connections ≡ c.connections) × ((finish d).panicked ≡ true)
unfolding finish
restart_panics c d f z q ms p =
    let ((g, w, r), n) = Stopped-Moves c d ms (f, z, q) in (n, ground (arith, g, w))

-- A Stop that passed its test while connect ran, and added to its wait group after connect had ended,
-- waits for ever: no step is possible.
pub stop_stuck :
    (c d : Connector)
    → c.place ≡ Place.gone
    → c.stop_wg ≢ 0
    → c.caller ≡ Caller.waiting
    → Move c d
    → ⊥
stop_stuck c d p w q (start_called r z s) = w z
stop_stuck c d p w q (connect_begun r) = ground (arith, p, r)
stop_stuck c d p w q (dial_error r) = ground (arith, p, r)
stop_stuck c d p w q (dialed r) = ground (arith, p, r)
stop_stuck c d p w q (session_lost r) = ground (arith, p, r)
stop_stuck c d p w q (time_over r) = ground (arith, p, r)
stop_stuck c d p w q (loop_left r) = ground (arith, p, r)
stop_stuck c d p w q (connect_ended r) = ground (arith, p, r)
stop_stuck c d p w q (stop_called r) = ground (arith, q, r)
stop_stuck c d p w q (flag_set r) = ground (arith, q, r)
stop_stuck c d p w q (stop_added r) = ground (arith, q, r)
stop_stuck c d p w q (session_closed r) = ground (arith, q, r)
stop_stuck c d p w q (wait_over r z) = w z
