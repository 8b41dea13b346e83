-- ===== src/Socket/Connector/Stop.antt =====
-- What `Stop` of socket/tcp/connector.go brings about.
use rocommon.Prelude.{◌+◌, true, if◌then◌else◌, ◌≡◌, refl, ap, ◌∙◌, sym, arith}
use mathlib.Core.Path.{subst}
use rocommon.Socket.Connector.{
  Place, Caller, Connector, start_connect, set_running, gives_up, dial_failed, dial_succeeded,
  session_ended, woken, set_stopped, finish, test_running, set_close_flag, add_stop, close_session,
  stop_returned, Move, start_called, connect_begun, dial_error, dialed, session_lost, time_over,
  loop_left, connect_ended, stop_called, flag_set, stop_added, session_closed, wait_over, Moves,
  none_made, one_more,
}

-- A step of a stopped connector.
abbrev Kept : Connector → Connector → Type 0
Kept c d = (d.close_flag ≡ true) × (d.connections ≡ c.connections)

Kept-Move : (c d : Connector) → Move c d → c.close_flag ≡ true → Kept c d
unfolding start_connect set_running gives_up dial_failed dial_succeeded session_ended woken
    set_stopped finish test_running set_close_flag add_stop close_session stop_returned
Kept-Move c d (start_called p w r) f = (f, refl)
Kept-Move c d (connect_begun p) f = (f, refl)
Kept-Move c d (dial_error p) f = ground (arith, f)
Kept-Move c d (dialed p) f = ground (arith, f)
Kept-Move c d (session_lost p) f = (f, refl)
Kept-Move c d (time_over p) f = (f, refl)
Kept-Move c d (loop_left p) f = (f, refl)
Kept-Move c d (connect_ended p) f = ground (arith, f)
Kept-Move c d (stop_called q) f = (f, refl)
Kept-Move c d (flag_set q) f = (refl, refl)
Kept-Move c d (stop_added q) f = (f, refl)
Kept-Move c d (session_closed q) f = (f, refl)
Kept-Move c d (wait_over q w) f = (f, refl)

-- Once Stop has set its flag the connector makes no further connection, whatever is called.
pub close_flag-connections :
    (c d : Connector)
    → Moves c d
    → c.close_flag ≡ true
    → (d.close_flag ≡ true) × (d.connections ≡ c.connections)
close_flag-connections c d none_made f = (f, refl)
close_flag-connections c d (one_more {d = b} ms m) f =
    let (g, n) = close_flag-connections c b ms f in let (h, k) = Kept-Move b d m g in (h, k ∙ n)

-- Where a waiting Stop still has its Done to come.
abbrev pub IsRunning : Place → Type 0
IsRunning Place.gone = ⊥
IsRunning Place.begun = ⊥
IsRunning p = Unit {0}

Can : Connector → Type 0
Can c =
    (d : Connector) × Moves c d
    × (d.caller ≡ Caller.returned)
    × (d.place ≡ Place.gone)
    × (d.panicked ≡ c.panicked)

-- Of a stopped connector, its one Done to come, and its caller in the wait.
abbrev Awaited : Connector → Type 0
Awaited c = (c.close_flag ≡ true) × (c.stop_wg ≡ 1) × (c.caller ≡ Caller.waiting)

prepend : {c d e : Connector} → Move c d → Moves d e → Moves c e
prepend m none_made = one_more none_made m
prepend m (one_more ms n) = one_more (prepend m ms) n

Can-prepend : (c d : Connector) → Move c d → d.panicked ≡ c.panicked → Can d → Can c
unfolding Can
Can-prepend c d m p (e, ms, r, g, q) = (e, prepend m ms, r, g, q ∙ p)

finish_lem :
    (c : Connector)
    → c.close_flag ≡ true
    → c.stop_wg ≡ 1
    → finish c ≡ record c { stop_wg = 0; place = Place.gone }
unfolding finish
finish_lem c f w = rw (f, w) refl

Can-gone :
    (c : Connector) → c.caller ≡ Caller.waiting → c.stop_wg ≡ 0 → c.place ≡ Place.gone → Can c
unfolding Can stop_returned
Can-gone c q w p = (stop_returned c, one_more none_made (wait_over q w), refl, p, refl)

Can-last_test : (c : Connector) → Awaited c → c.place ≡ Place.at_last_test → Can c
Can-last_test c (f, w, q) p =
    Can-prepend c (finish c) (connect_ended p)
      (ap (λ (d : Connector). d.panicked) (finish_lem c f w))
      (subst Can (sym (finish_lem c f w))
        (Can-gone (record c { stop_wg = 0; place = Place.gone }) q refl refl))

Can-out_of_loop : (c : Connector) → Awaited c → c.place ≡ Place.out_of_loop → Can c
unfolding set_stopped
Can-out_of_loop c a p =
    Can-prepend c (set_stopped c) (loop_left p) refl (Can-last_test (set_stopped c) a refl)

gives_up_lem : (c : Connector) → c.close_flag ≡ true → gives_up c ≡ true
unfolding gives_up
gives_up_lem c f = ground (arith, f)

dial_failed_lem :
    (c : Connector)
    → c.close_flag ≡ true
    → dial_failed c
      ≡ record c { conn_num = c.conn_num + 1; errors = c.errors + 1; place = Place.out_of_loop }
unfolding dial_failed
dial_failed_lem c f = rw (gives_up_lem c f) refl

Can-dialing : (c : Connector) → Awaited c → c.place ≡ Place.dialing → Can c
Can-dialing c (f, w, q) p =
    Can-prepend c (dial_failed c) (dial_error p) (ap (λ (d : Connector). d.panicked) (left c f))
      (subst Can (sym (left c f)) (Can-out_of_loop (given_up c) (f, w, q) refl))
  where
    given_up : Connector → Connector
    given_up c = record c {
      conn_num = c.conn_num + 1;
      errors = c.errors + 1;
      place = Place.out_of_loop;
    }

    left : (c : Connector) → c.close_flag ≡ true → dial_failed c ≡ given_up c
    left c f = dial_failed_lem c f

Can-connected : (c : Connector) → Awaited c → c.place ≡ Place.connected → Can c
unfolding session_ended
Can-connected c (f, w, q) p = Can-prepend c (session_ended c) (session_lost p) refl (
    Can-out_of_loop (session_ended c) (f, w, q)
      (ap (λ b. if b then Place.out_of_loop else Place.sleeping) (gives_up_lem c f)))

Can-sleeping : (c : Connector) → Awaited c → c.place ≡ Place.sleeping → Can c
unfolding woken
Can-sleeping c a p = Can-prepend c (woken c) (time_over p) refl (Can-dialing (woken c) a refl)

-- A Stop that waits on a connector which runs and whose Done is still to come can return, with the goroutine
-- of connect at its end and no further panic.
pub waiting-returned :
    (c : Connector)
    → c.close_flag ≡ true
    → c.stop_wg ≡ 1
    → c.caller ≡ Caller.waiting
    → IsRunning c.place
    → (d : Connector) × Moves c d
      × (d.caller ≡ Caller.returned)
      × (d.place ≡ Place.gone)
      × (d.panicked ≡ c.panicked)
unfolding Can
waiting-returned c f w q r = by_place c.place refl r
  where
    by_place : (p : Place) → c.place ≡ p → IsRunning p → Can c
    by_place Place.begun e r = absurd r
    by_place Place.dialing e r = Can-dialing c (f, w, q) e
    by_place Place.connected e r = Can-connected c (f, w, q) e
    by_place Place.sleeping e r = Can-sleeping c (f, w, q) e
    by_place Place.out_of_loop e r = Can-out_of_loop c (f, w, q) e
    by_place Place.at_last_test e r = Can-last_test c (f, w, q) e
    by_place Place.gone e r = absurd r
