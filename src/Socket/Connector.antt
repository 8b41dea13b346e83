-- ===== src/Socket/Connector.antt =====
-- socket/tcp/connector.go: the goroutine of `connect` and a caller of `Stop`, with the tags of
-- socket/runtimetag.go that they share, in every interleaving. A wait group is its counter, of which
-- a Done below zero panics. Start is called when no goroutine of an earlier Start runs; Stop is called
-- once.
pub mod Stop
pub mod Restart
mod Tests
use rocommon.Prelude.{
  zero, ℕ, suc, ◌+◌, ◌-◌, ◌==◌, Bool, true, false, not, ◌||◌, if◌then◌else◌, ◌≡◌,
}

-- Where `connect` is: not begun, in `net.Dial`, with a session, in its sleep, out of the loop, before the
-- last test, and at its end.
pub data Place : Type 0 where
  begun dialing connected sleeping out_of_loop at_last_test gone : Place

-- Where the caller of `Stop` is: before it, past the test of the run state, past each of the three calls
-- that follow, returned after the wait, or returned at once.
pub data Caller : Type 0 where
  outside tested flagged added waiting returned refused : Caller

pub record Connector : Type 0 where
  pub reconnects : Bool
  pub conn_num : ℕ
  pub run_state : Bool
  pub close_flag : Bool
  pub stop_wg : ℕ
  pub place : Place
  pub caller : Caller
  pub panicked : Bool
  pub connections : ℕ
  pub errors : ℕ

-- A connector; `SetReconnectTime` says whether it connects again.
pub new_connector : Bool → Connector
new_connector reconnects = record {
  reconnects = reconnects;
  conn_num = 0;
  run_state = false;
  close_flag = false;
  stop_wg = 0;
  place = Place.gone;
  caller = Caller.outside;
  panicked = false;
  connections = 0;
  errors = 0;
}

-- `Start`, past its wait and its test.
pub start_connect : Connector → Connector
start_connect c = record c { place = Place.begun }

-- The start of `connect`.
pub set_running : Connector → Connector
set_running c = record c { run_state = true; place = Place.dialing }

-- `reconnectTime == 0 || GetCloseFlag()`
pub gives_up : Connector → Bool
gives_up c = not c.reconnects || c.close_flag

-- The dial fails: an error event, or a sleep.
pub dial_failed : Connector → Connector
unfolding gives_up
dial_failed c =
    if gives_up c
    then record c { conn_num = c.conn_num + 1; errors = c.errors + 1; place = Place.out_of_loop }
    else record c { conn_num = c.conn_num + 1; place = Place.sleeping }

-- The dial succeeds: a session and its event, unless the connector was stopped.
pub dial_succeeded : Connector → Connector
dial_succeeded c =
    if c.close_flag
    then record c { conn_num = c.conn_num + 1; place = Place.out_of_loop }
    else record c { conn_num = 0; connections = c.connections + 1; place = Place.connected }

-- The session ends.
pub session_ended : Connector → Connector
unfolding gives_up
session_ended c = record c { place = if gives_up c then Place.out_of_loop else Place.sleeping }

pub woken : Connector → Connector
woken c = record c { place = Place.dialing }

-- After the loop: the run state, then `StopWg.Done()` where the connector was stopped.
pub set_stopped : Connector → Connector
set_stopped c = record c { run_state = false; place = Place.at_last_test }

pub finish : Connector → Connector
finish c =
    if c.close_flag
    then (if c.stop_wg == 0
        then record c { panicked = true; place = Place.gone }
        else record c { stop_wg = c.stop_wg - 1; place = Place.gone })
    else record c { place = Place.gone }

-- `Stop`: the test, and the calls up to the wait.
pub test_running : Connector → Connector
test_running c = record c { caller = if c.run_state then Caller.tested else Caller.refused }

pub set_close_flag : Connector → Connector
set_close_flag c = record c { close_flag = true; caller = Caller.flagged }

pub add_stop : Connector → Connector
add_stop c = record c { stop_wg = c.stop_wg + 1; caller = Caller.added }

pub close_session : Connector → Connector
close_session c = record c { caller = Caller.waiting }

pub stop_returned : Connector → Connector
stop_returned c = record c { caller = Caller.returned }

-- One step of `connect`, of the caller of `Start`, or of the caller of `Stop`.
pub data Move (c : Connector) : Connector → Type 0 where
  start_called :
      c.place ≡ Place.gone → c.stop_wg ≡ 0 → c.run_state ≡ false → Move c (start_connect c)
  connect_begun : c.place ≡ Place.begun → Move c (set_running c)
  dial_error : c.place ≡ Place.dialing → Move c (dial_failed c)
  dialed : c.place ≡ Place.dialing → Move c (dial_succeeded c)
  session_lost : c.place ≡ Place.connected → Move c (session_ended c)
  time_over : c.place ≡ Place.sleeping → Move c (woken c)
  loop_left : c.place ≡ Place.out_of_loop → Move c (set_stopped c)
  connect_ended : c.place ≡ Place.at_last_test → Move c (finish c)
  stop_called : c.caller ≡ Caller.outside → Move c (test_running c)
  flag_set : c.caller ≡ Caller.tested → Move c (set_close_flag c)
  stop_added : c.caller ≡ Caller.flagged → Move c (add_stop c)
  session_closed : c.caller ≡ Caller.added → Move c (close_session c)
  wait_over : c.caller ≡ Caller.waiting → c.stop_wg ≡ 0 → Move c (stop_returned c)

-- Any number of steps.
pub data Moves (c : Connector) : Connector → Type 0 where
  none_made : Moves c c
  one_more : {d e : Connector} → Moves c d → Move d e → Moves c e
