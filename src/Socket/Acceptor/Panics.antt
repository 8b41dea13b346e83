-- ===== src/Socket/Acceptor/Panics.antt =====
-- When the goroutine of socket/tcp/acceptor.go panics, and what a `Stop` leaves.
use mathlib.Core.Path.{subst}
use rocommon.Prelude.{ℕ, Bool, true, false, ◌≡◌, refl, Option, none, some, arith}
use rocommon.Socket.Acceptor.{
  Accepted, Point, Stopper, Acceptor, new_acceptor, start_accept, accept_running, accept_returned,
  test_accepted, time_after, reset_run_state, reset_close_flag, stop_wg_done, test_run_state,
  stop_wg_add, set_stop_flag, close_listener, stop_over, Turn, start_called, listen_failed,
  accept_begun, accepted, accept_retry, accept_closed, accept_tested, time_over, loop_left,
  run_state_off, accept_ended, stop_called, stop_added, flag_set, listener_closed, wait_over, Turns,
  no_turn, then_turn,
}

-- The run state, the close flag and the wait group, for each place of the goroutine and of Stop that can
-- be reached together.
abbrev pub running_tags : Stopper → Option (Bool × Bool × ℕ)
running_tags Stopper.outside = some (true, false, 0)
running_tags Stopper.tested = some (true, false, 0)
running_tags Stopper.added = some (true, false, 1)
running_tags Stopper.flagged = some (true, true, 1)
running_tags Stopper.waiting = some (true, true, 1)

abbrev pub stopped_tags : Bool × Bool × ℕ → Stopper → Option (Bool × Bool × ℕ)
stopped_tags t Stopper.outside = none
stopped_tags t Stopper.tested = none
stopped_tags t Stopper.added = none
stopped_tags t Stopper.flagged = some t
stopped_tags t Stopper.waiting = some t

abbrev pub idle_tags : Stopper → Option (Bool × Bool × ℕ)
idle_tags Stopper.outside = some (false, false, 0)
idle_tags Stopper.tested = none
idle_tags Stopper.added = none
idle_tags Stopper.flagged = none
idle_tags Stopper.waiting = none

abbrev pub gone_tags : Stopper → Option (Bool × Bool × ℕ)
gone_tags Stopper.outside = some (false, false, 0)
gone_tags Stopper.tested = none
gone_tags Stopper.added = none
gone_tags Stopper.flagged = some (false, false, 0)
gone_tags Stopper.waiting = some (false, false, 0)

abbrev pub tags : Point → Stopper → Option (Bool × Bool × ℕ)
tags Point.begun s = idle_tags s
tags Point.accepting s = running_tags s
tags (Point.returned Accepted.connection) s = running_tags s
tags (Point.returned Accepted.temporary_error) s = running_tags s
tags (Point.returned Accepted.other_error) s = stopped_tags (true, true, 1) s
tags Point.sleeping s = running_tags s
tags Point.out_of_loop s = stopped_tags (true, true, 1) s
tags Point.run_state_reset s = stopped_tags (false, true, 1) s
tags Point.close_flag_reset s = stopped_tags (false, false, 1) s
tags Point.gone s = gone_tags s

-- The listener is open from Start until Stop closes it.
abbrev pub Listens : Point → Stopper → Bool → Type 0
Listens Point.gone Stopper.outside b = b ≡ false
Listens p Stopper.waiting b = b ≡ false
Listens p s b = b ≡ true

-- The tags are those of the places.
abbrev pub Fits : Acceptor → Type 0
Fits a =
    (tags a.point a.stopper ≡ some (a.run_state, a.close_flag, a.stop_wg))
    × Listens a.point a.stopper a.listening
    × (a.panicked ≡ false)

-- Where Start passes its tests and its Listen, no goroutine of an earlier Start runs.
start_place :
    (a : Acceptor)
    → a.stopper ≡ Stopper.outside
    → a.run_state ≡ false
    → a.listening ≡ false
    → Fits a
    → a.point ≡ Point.gone
start_place a s r l h = by_point a.point refl
  where
    by_point : (p : Point) → a.point ≡ p → a.point ≡ Point.gone
    by_point Point.gone e = e
    by_point Point.begun e = absurd (ground (arith, s, r, l, e, h))
    by_point Point.accepting e = absurd (ground (arith, s, r, l, e, h))
    by_point (Point.returned Accepted.connection) e = absurd (ground (arith, s, r, l, e, h))
    by_point (Point.returned Accepted.temporary_error) e = absurd (ground (arith, s, r, l, e, h))
    by_point (Point.returned Accepted.other_error) e = absurd (ground (arith, s, r, l, e, h))
    by_point Point.sleeping e = absurd (ground (arith, s, r, l, e, h))
    by_point Point.out_of_loop e = absurd (ground (arith, s, r, l, e, h))
    by_point Point.run_state_reset e = absurd (ground (arith, s, r, l, e, h))
    by_point Point.close_flag_reset e = absurd (ground (arith, s, r, l, e, h))

Fits-Turn : (a b : Acceptor) → Turn a b → Fits a → Fits b
unfolding start_accept accept_running accept_returned test_accepted time_after reset_run_state
    reset_close_flag stop_wg_done test_run_state stop_wg_add set_stop_flag close_listener stop_over
Fits-Turn a b (start_called s w r l) h =
    let e = start_place a s r l h in ground (arith, s, e, w, r, h)
Fits-Turn a b (listen_failed s w r l) h = h
Fits-Turn a b (accept_begun e) h = ground (arith, e, h)
Fits-Turn a b (accepted e) h = ground (arith, e, h)
Fits-Turn a b (accept_retry e) h = ground (arith, e, h)
Fits-Turn a b (accept_closed e w) h = ground (arith, e, w, h)
Fits-Turn a b (accept_tested Accepted.connection e) h = ground (arith, e, h)
Fits-Turn a b (accept_tested Accepted.temporary_error e) h = ground (arith, e, h)
Fits-Turn a b (accept_tested Accepted.other_error e) h = ground (arith, e, h)
Fits-Turn a b (time_over e) h = ground (arith, e, h)
Fits-Turn a b (loop_left e) h = ground (arith, e, h)
Fits-Turn a b (run_state_off e) h = ground (arith, e, h)
Fits-Turn a b (accept_ended e) h = ground (arith, e, h)
Fits-Turn a b (stop_called e) h = ground (arith, e, h)
Fits-Turn a b (stop_added e) h = ground (arith, e, h)
Fits-Turn a b (flag_set e) h = ground (arith, e, h)
Fits-Turn a b (listener_closed e) h = ground (arith, e, h)
Fits-Turn a b (wait_over e w) h = ground (arith, e, w, h)

-- Whatever is called and in whatever order, the run state, the close flag and the wait group are those
-- of the places of the goroutine and of Stop, and no Done goes below zero, as long as Accept fails for
-- good on a closed listener only.
pub Turns-Fits : (a : Acceptor) → Turns new_acceptor a → Fits a
unfolding new_acceptor
Turns-Fits a no_turn = (refl, refl, refl)
Turns-Fits a (then_turn {b = b} ts t) = Fits-Turn b a t (Turns-Fits b ts)

-- Once the close flag is set no step adds a session.
pub Turn-sessions : (a b : Acceptor) → a.close_flag ≡ true → Turn a b → b.sessions ≡ a.sessions
unfolding start_accept accept_running accept_returned test_accepted time_after reset_run_state
    reset_close_flag stop_wg_done test_run_state stop_wg_add set_stop_flag close_listener stop_over
Turn-sessions a b f (start_called s w r l) = refl
Turn-sessions a b f (listen_failed s w r l) = refl
Turn-sessions a b f (accept_begun e) = refl
Turn-sessions a b f (accepted e) = refl
Turn-sessions a b f (accept_retry e) = refl
Turn-sessions a b f (accept_closed e w) = refl
Turn-sessions a b f (accept_tested r e) = ground (arith, f)
Turn-sessions a b f (time_over e) = refl
Turn-sessions a b f (loop_left e) = refl
Turn-sessions a b f (run_state_off e) = refl
Turn-sessions a b f (accept_ended e) = ground (arith, f)
Turn-sessions a b f (stop_called e) = refl
Turn-sessions a b f (stop_added e) = refl
Turn-sessions a b f (flag_set e) = refl
Turn-sessions a b f (listener_closed e) = refl
Turn-sessions a b f (wait_over e w) = refl

-- The acceptor after a Stop: a new one, but for its count of sessions.
abbrev pub stopped : Acceptor → Acceptor
stopped a = record new_acceptor { sessions = a.sessions }

prepend : {a b c : Acceptor} → Turn a b → Turns b c → Turns a c
prepend t no_turn = then_turn no_turn t
prepend t (then_turn ts u) = then_turn (prepend t ts) u

-- Where a step leads to the same stopped acceptor.
Stops-prepend :
    (a b : Acceptor)
    → Turn a b
    → b.sessions ≡ a.sessions
    → Turns b (stopped b)
    → Turns a (stopped a)
Stops-prepend a b t e ts =
    prepend t (subst (λ n. Turns b (record new_acceptor { sessions = n })) e ts)

Stop-gone :
    (a : Acceptor)
    → a.stopper ≡ Stopper.waiting
    → a.point ≡ Point.gone
    → Fits a
    → stop_over a ≡ stopped a
unfolding stop_over new_acceptor
Stop-gone a s p h = ground (arith, s, p, h)

Stops-gone :
    (a : Acceptor)
    → a.stopper ≡ Stopper.waiting
    → a.point ≡ Point.gone
    → Fits a
    → Turns a (stopped a)
Stops-gone a s p h =
    subst (Turns a) (Stop-gone a s p h) (then_turn no_turn (wait_over s (ground (arith, s, p, h))))

Stops-ended :
    (a : Acceptor)
    → a.stopper ≡ Stopper.waiting
    → a.point ≡ Point.close_flag_reset
    → Fits a
    → Turns a (stopped a)
unfolding stop_wg_done
Stops-ended a s p h =
    let f = Fits-Turn a (stop_wg_done a) (accept_ended p) h in
    Stops-prepend a (stop_wg_done a) (accept_ended p) (ground (arith, s, p, h))
      (Stops-gone (stop_wg_done a) (ground (arith, s, p, h)) (ground (arith, s, p, h)) f)

Stops-flag :
    (a : Acceptor)
    → a.stopper ≡ Stopper.waiting
    → a.point ≡ Point.run_state_reset
    → Fits a
    → Turns a (stopped a)
unfolding reset_close_flag
Stops-flag a s p h =
    Stops-prepend a (reset_close_flag a) (run_state_off p) refl (
      Stops-ended (reset_close_flag a) s refl
        (Fits-Turn a (reset_close_flag a) (run_state_off p) h))

Stops-left :
    (a : Acceptor)
    → a.stopper ≡ Stopper.waiting
    → a.point ≡ Point.out_of_loop
    → Fits a
    → Turns a (stopped a)
unfolding reset_run_state
Stops-left a s p h =
    Stops-prepend a (reset_run_state a) (loop_left p) refl
      (Stops-flag (reset_run_state a) s refl (Fits-Turn a (reset_run_state a) (loop_left p) h))

Stops-returned :
    (r : Accepted) (a : Acceptor)
    → a.stopper ≡ Stopper.waiting
    → a.point ≡ Point.returned r
    → Fits a
    → Turns a (stopped a)
unfolding test_accepted
Stops-returned r a s p h =
    let f = Fits-Turn a (test_accepted r a) (accept_tested r p) h in
    let c = waiting_flag r a s p h in
    Stops-prepend a (test_accepted r a) (accept_tested r p) (ground (arith, c))
      (Stops-left (test_accepted r a) (ground (arith, s, c)) (ground (arith, c)) f)
  where
    waiting_flag :
        (r : Accepted) (a : Acceptor)
        → a.stopper ≡ Stopper.waiting
        → a.point ≡ Point.returned r
        → Fits a
        → a.close_flag ≡ true
    waiting_flag Accepted.connection a s p h = ground (arith, s, p, h)
    waiting_flag Accepted.temporary_error a s p h = ground (arith, s, p, h)
    waiting_flag Accepted.other_error a s p h = ground (arith, s, p, h)

Stops-accepting :
    (a : Acceptor)
    → a.stopper ≡ Stopper.waiting
    → a.point ≡ Point.accepting
    → Fits a
    → Turns a (stopped a)
unfolding accept_returned
Stops-accepting a s p h =
    let t = accept_closed p (ground (arith, s, p, h)) in
    let b = accept_returned Accepted.other_error a in
    Stops-prepend a b t refl (Stops-returned Accepted.other_error b s refl (Fits-Turn a b t h))

Stops-sleeping :
    (a : Acceptor)
    → a.stopper ≡ Stopper.waiting
    → a.point ≡ Point.sleeping
    → Fits a
    → Turns a (stopped a)
unfolding time_after
Stops-sleeping a s p h =
    Stops-prepend a (time_after a) (time_over p) refl
      (Stops-accepting (time_after a) s refl (Fits-Turn a (time_after a) (time_over p) h))

-- A Stop that waits, with the goroutine anywhere, can return with the goroutine ended, no further session
-- and no panic, and leaves the acceptor as a new one that can be started again, under the same
-- proviso.
pub waiting-stopped :
    (a : Acceptor)
    → Turns new_acceptor a
    → a.stopper ≡ Stopper.waiting
    → Turns a (record new_acceptor { sessions = a.sessions })
waiting-stopped a ts s = by_point a.point refl
  where
    fits : Fits a
    fits = Turns-Fits a ts

    by_point : (p : Point) → a.point ≡ p → Turns a (stopped a)
    by_point Point.begun e = absurd (ground (arith, s, e, fits))
    by_point Point.accepting e = Stops-accepting a s e fits
    by_point (Point.returned r) e = Stops-returned r a s e fits
    by_point Point.sleeping e = Stops-sleeping a s e fits
    by_point Point.out_of_loop e = Stops-left a s e fits
    by_point Point.run_state_reset e = Stops-flag a s e fits
    by_point Point.close_flag_reset e = Stops-ended a s e fits
    by_point Point.gone e = Stops-gone a s e fits

-- Where Accept fails for good while no Stop is called, the goroutine can end in a panic.
pub other_error_panics :
    (a : Acceptor)
    → Turns new_acceptor a
    → a.point ≡ Point.accepting
    → a.stopper ≡ Stopper.outside
    → (b : Acceptor) × Turns (accept_returned Accepted.other_error a) b × (b.panicked ≡ true)
unfolding accept_returned test_accepted reset_run_state reset_close_flag stop_wg_done
other_error_panics a ts p s =
    let f = Turns-Fits a ts in
    let b = accept_returned Accepted.other_error a in
    let c = test_accepted Accepted.other_error b in
    let d = reset_close_flag (reset_run_state c) in
    (
      stop_wg_done d,
      then_turn
          (then_turn
            (then_turn (then_turn no_turn (accept_tested Accepted.other_error refl))
              (loop_left (ground (arith, p, s, f))))
            (run_state_off refl))
          (accept_ended refl),
      ground (arith, p, s, f),
    )
