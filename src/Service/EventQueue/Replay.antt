-- ===== src/Service/EventQueue/Replay.antt =====
-- The state that the loop of service/eventqueue.go leaves, from what it has done.
use rocommon.Prelude.{
  some, none, length, ltb, ℕ, ◌+◌, List, [], ◌∷◌, ◌++◌, leb, ◌≡◌, refl, ap, sym, ◌∙◌, if_holds,
}
use rocommon.Service.EventQueue.{
  Action, selected, posted, stop_called, stop_queue, post_cb, get_or_else, enqueue, act,
  start_queue, CallEnd, returned, panicked, Done, ran, updated, Callback, Message, call, stop,
  EventQueue, Event, received, ticked, after_call, queue_call, end_turn, turn_on, turn, run,
}

-- What a list of calls and updates makes of a state and of a number of errors, on its own.
module _ {S : Type 0} (update : ℕ → S → S) where
  abbrev pub settled : ℕ → CallEnd S → S × ℕ
  settled errors (returned s) = (s, errors)
  settled errors (panicked s) = (s, errors + 1)

  abbrev pub replay_one : S × ℕ → Done S → S × ℕ
  replay_one (s, errors) (ran cb) = settled errors (cb s)
  replay_one (s, errors) (updated now) = (update now s, errors)

  abbrev pub replay : S × ℕ → List (Done S) → S × ℕ
  replay x [] = x
  replay x (d ∷ log) = replay (replay_one x d) log

  replay-snoc :
      (x : S × ℕ) (log : List (Done S)) (d : Done S)
      → replay x (log ++ d ∷ []) ≡ replay_one (replay x log) d
  replay-snoc x [] d = refl
  replay-snoc x (c ∷ log) d = replay-snoc (replay_one x c) log d

  module _ (start : S) where
    Replayed : EventQueue S → Type 0
    Replayed a = (a.state, a.errors) ≡ replay (start, 0) a.log

    end_turn-Replayed : (a : EventQueue S) (now : ℕ) → Replayed a → Replayed (end_turn update a now)
    unfolding end_turn Replayed
    end_turn-Replayed a now i =
        if_holds Replayed (leb (a.now_time + 10) now)
          (λ h.
            ap (λ x. replay_one x (updated now)) i
            ∙ sym (replay-snoc (start, 0) a.log (updated now)))
          (λ h. i)

    after_call-settled :
        (a : EventQueue S) (x : CallEnd S)
        → settled a.errors x ≡ replay (start, 0) a.log
        → Replayed (after_call update a x)
    unfolding after_call Replayed
    after_call-settled a (returned s) e = e
    after_call-settled a (panicked s) e = e

    queue_call-Replayed :
        (a : EventQueue S) (cb : Callback S) → Replayed a → Replayed (queue_call update a cb)
    unfolding queue_call Replayed
    queue_call-Replayed a cb i =
        after_call-settled (record a { log = a.log ++ ran cb ∷ [] }) (cb a.state)
          (ap (λ x. replay_one x (ran cb)) i ∙ sym (replay-snoc (start, 0) a.log (ran cb)))

    turn_on-Replayed :
        (a : EventQueue S) (q : List (Message S)) (e : Event)
        → Replayed a
        → Replayed (turn_on update a q e)
    unfolding turn_on Replayed
    turn_on-Replayed a q (ticked now) i = end_turn-Replayed a now i
    turn_on-Replayed a [] (received now) i = i
    turn_on-Replayed a (stop ∷ rest) (received now) i = i
    turn_on-Replayed a (call cb ∷ rest) (received now) i =
        end_turn-Replayed (queue_call update (record a { que_list = rest }) cb) now
          (queue_call-Replayed (record a { que_list = rest }) cb i)

    enqueue-Replayed :
        (a : EventQueue S) (m : Message S) → Replayed a → Replayed (get_or_else a (enqueue a m))
    unfolding enqueue get_or_else Replayed
    enqueue-Replayed a m i =
        if_holds (λ o. Replayed (get_or_else a o)) (ltb (length a.que_list) 20000) (λ h. i) (λ h. i)

    act-Replayed : (a : EventQueue S) (x : Action S) → Replayed a → Replayed (act update a x)
    unfolding act turn post_cb stop_queue get_or_else
    act-Replayed a (selected e) i =
        if_holds Replayed a.running (λ h. turn_on-Replayed a a.que_list e i) (λ h. i)
    act-Replayed a (posted none) i = i
    act-Replayed a (posted (some cb)) i = enqueue-Replayed a (call cb) i
    act-Replayed a stop_called i = enqueue-Replayed a stop i

    run-Replayed :
        (a : EventQueue S) (xs : List (Action S)) → Replayed a → Replayed (run update a xs)
    unfolding run
    run-Replayed a [] i = i
    run-Replayed a (x ∷ xs) i = run-Replayed (act update a x) xs (act-Replayed a x i)

  pub start_queue-replay :
      (s : S) (first now : ℕ) (xs : List (Action S))
      → let a = run update (start_queue update s first now) xs in
        (a.state, a.errors) ≡ replay (update first s, 0) a.log
  unfolding start_queue Replayed
  start_queue-replay s first now xs =
      run-Replayed (update first s) (start_queue update s first now) xs refl
