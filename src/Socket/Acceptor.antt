-- ===== src/Socket/Acceptor.antt =====
-- socket/tcp/acceptor.go: the goroutine of `tcpAccept` and the callers of `Start` and `Stop`, with the
-- tags of socket/runtimetag.go that they share, in every interleaving. `Start` and `Stop` are called any
-- number of times, each when no other call of the two runs. The listener is open or closed; an Accept
-- on an open one gives a connection or a temporary error, unless it fails for good. What a session does
-- is in Socket.Session.
pub mod Panics
mod Tests
use rocommon.Prelude.{ℕ, zero, suc, ◌+◌, Bool, true, false, if◌then◌else◌, ◌≡◌}

-- The result of `listener.Accept()`.
pub data Accepted : Type 0 where
  connection temporary_error other_error : Accepted

-- Where `tcpAccept` is: not begun, in Accept, before the tests on what that returned, in its sleep, out of
-- the loop, past each of the two resets, and at its end.
pub data Point : Type 0 where
  begun accepting : Point
  returned : Accepted → Point
  sleeping out_of_loop run_state_reset close_flag_reset gone : Point

-- Where `Stop` is: not called, past the test of the run state, past the Add, past the flag, or in the
-- wait after the listener was closed. `CloseAllSession` of an acceptor is empty.
pub data Stopper : Type 0 where
  outside tested added flagged waiting : Stopper

pub record Acceptor : Type 0 where
  pub run_state : Bool
  pub close_flag : Bool
  pub stop_wg : ℕ
  pub listening : Bool
  pub point : Point
  pub stopper : Stopper
  pub panicked : Bool
  pub sessions : ℕ

pub new_acceptor : Acceptor
new_acceptor = record {
  run_state = false;
  close_flag = false;
  stop_wg = 0;
  listening = false;
  point = Point.gone;
  stopper = Stopper.outside;
  panicked = false;
  sessions = 0;
}

-- `Start`, past its wait and its test: it listens and starts the goroutine.
pub start_accept : Acceptor → Acceptor
start_accept a = record a { listening = true; point = Point.begun }

-- The start of `tcpAccept`.
pub accept_running : Acceptor → Acceptor
accept_running a = record a { run_state = true; point = Point.accepting }

pub accept_returned : Accepted → Acceptor → Acceptor
accept_returned r a = record a { point = Point.returned r }

-- The tests of the loop on what Accept returned: the close flag first, then the error, then a session.
pub test_accepted : Accepted → Acceptor → Acceptor
test_accepted r a = if a.close_flag then record a { point = Point.out_of_loop } else elim r [
  | Accepted.connection ↦ record a { sessions = a.sessions + 1; point = Point.accepting }
  | Accepted.temporary_error ↦ record a { point = Point.sleeping }
  | Accepted.other_error ↦ record a { point = Point.out_of_loop }
]

pub time_after : Acceptor → Acceptor
time_after a = record a { point = Point.accepting }

-- The three calls after the loop. A Done below zero panics.
pub reset_run_state : Acceptor → Acceptor
reset_run_state a = record a { run_state = false; point = Point.run_state_reset }

pub reset_close_flag : Acceptor → Acceptor
reset_close_flag a = record a { close_flag = false; point = Point.close_flag_reset }

done_of : ℕ → Acceptor → Acceptor
done_of zero a = record a { panicked = true; point = Point.gone }
done_of (suc n) a = record a { stop_wg = n; point = Point.gone }

unfoldable pub stop_wg_done : Acceptor → Acceptor
unfolding done_of
stop_wg_done a = done_of a.stop_wg a

-- `Stop`, call by call.
pub test_run_state : Acceptor → Acceptor
test_run_state a = record a { stopper = if a.run_state then Stopper.tested else Stopper.outside }

pub stop_wg_add : Acceptor → Acceptor
stop_wg_add a = record a { stop_wg = a.stop_wg + 1; stopper = Stopper.added }

pub set_stop_flag : Acceptor → Acceptor
set_stop_flag a = record a { close_flag = true; stopper = Stopper.flagged }

pub close_listener : Acceptor → Acceptor
close_listener a = record a { listening = false; stopper = Stopper.waiting }

pub stop_over : Acceptor → Acceptor
stop_over a = record a { stopper = Stopper.outside }

-- One step, where Accept fails for good on a closed listener only. A second Start before the goroutine
-- has set the run state passes the tests too: its Listen fails, since the address is in use, and the
-- caller panics, with the acceptor as it was.
pub data Turn (a : Acceptor) : Acceptor → Type 0 where
  start_called :
      a.stopper ≡ Stopper.outside
      → a.stop_wg ≡ 0
      → a.run_state ≡ false
      → a.listening ≡ false
      → Turn a (start_accept a)
  listen_failed :
      a.stopper ≡ Stopper.outside
      → a.stop_wg ≡ 0
      → a.run_state ≡ false
      → a.listening ≡ true
      → Turn a a
  accept_begun : a.point ≡ Point.begun → Turn a (accept_running a)
  accepted : a.point ≡ Point.accepting → Turn a (accept_returned Accepted.connection a)
  accept_retry : a.point ≡ Point.accepting → Turn a (accept_returned Accepted.temporary_error a)
  accept_closed :
      a.point ≡ Point.accepting
      → a.listening ≡ false
      → Turn a (accept_returned Accepted.other_error a)
  accept_tested : (r : Accepted) → a.point ≡ Point.returned r → Turn a (test_accepted r a)
  time_over : a.point ≡ Point.sleeping → Turn a (time_after a)
  loop_left : a.point ≡ Point.out_of_loop → Turn a (reset_run_state a)
  run_state_off : a.point ≡ Point.run_state_reset → Turn a (reset_close_flag a)
  accept_ended : a.point ≡ Point.close_flag_reset → Turn a (stop_wg_done a)
  stop_called : a.stopper ≡ Stopper.outside → Turn a (test_run_state a)
  stop_added : a.stopper ≡ Stopper.tested → Turn a (stop_wg_add a)
  flag_set : a.stopper ≡ Stopper.added → Turn a (set_stop_flag a)
  listener_closed : a.stopper ≡ Stopper.flagged → Turn a (close_listener a)
  wait_over : a.stopper ≡ Stopper.waiting → a.stop_wg ≡ 0 → Turn a (stop_over a)

-- Any number of steps.
pub data Turns (a : Acceptor) : Acceptor → Type 0 where
  no_turn : Turns a a
  then_turn : {b c : Acceptor} → Turns a b → Turn b c → Turns a c
