-- ===== src/Service/EventQueue/Order.antt =====
-- In which order the loop of service/eventqueue.go calls, and how often.
use rocommon.Prelude.{
  some, none, length, ltb, ℕ, ◌+◌, List, [], ◌∷◌, ◌++◌, leb, Bool, true, false, ◌≡◌, refl,
  append_assoc, append-nil, ap, sym, ◌∙◌, if_holds,
}
use rocommon.Service.EventQueue.{
  Action, selected, posted, stop_called, stop_queue, post_cb, get_or_else, enqueue, act,
  start_queue, CallEnd, returned, panicked, Done, ran, updated, Callback, Message, call, stop,
  EventQueue, Event, received, ticked, after_call, queue_call, end_turn, turn_on, turn, run,
}
use rocommon.Service.EventQueue.Replay.{replay, start_queue-replay}

-- The callbacks of a log, as the messages that they came in.
abbrev pub calls_of : {S : Type 0} → List (Done S) → List (Message S)
calls_of [] = []
calls_of (ran cb ∷ log) = call cb ∷ calls_of log
calls_of (updated now ∷ log) = calls_of log

calls_of-ran :
    {S : Type 0} (log : List (Done S)) (cb : Callback S)
    → calls_of (log ++ ran cb ∷ []) ≡ calls_of log ++ call cb ∷ []
calls_of-ran [] cb = refl
calls_of-ran (ran c ∷ log) cb = ap (λ l. call c ∷ l) (calls_of-ran log cb)
calls_of-ran (updated t ∷ log) cb = calls_of-ran log cb

calls_of-updated :
    {S : Type 0} (log : List (Done S)) (now : ℕ) → calls_of (log ++ updated now ∷ []) ≡ calls_of log
calls_of-updated [] now = refl
calls_of-updated (ran c ∷ log) now = ap (λ l. call c ∷ l) (calls_of-updated log now)
calls_of-updated (updated t ∷ log) now = calls_of-updated log now

module _ {S : Type 0} (update : ℕ → S → S) where
  -- The nil that a stopped loop has taken out.
  abbrev pub taken_stop : Bool → List (Message S)
  taken_stop true = []
  taken_stop false = stop ∷ []

  -- The messages called, the nil if it was taken, and the queue: what the loop was given.
  abbrev pub given : EventQueue S → List (Message S)
  given a = calls_of a.log ++ taken_stop a.running ++ a.que_list

  abbrev pub Balanced : EventQueue S → Type 0
  Balanced a = a.entered ≡ given a

  end_turn-Balanced : (a : EventQueue S) (now : ℕ) → Balanced a → Balanced (end_turn update a now)
  unfolding end_turn
  end_turn-Balanced a now i =
      if_holds Balanced (leb (a.now_time + 10) now)
        (λ h.
          i ∙ ap (λ c. c ++ taken_stop a.running ++ a.que_list) (sym (calls_of-updated a.log now)))
        (λ h. i)

  after_call-Balanced :
      (a : EventQueue S) (x : CallEnd S) → Balanced a → Balanced (after_call update a x)
  unfolding after_call
  after_call-Balanced a (returned s) i = i
  after_call-Balanced a (panicked s) i = i

  given_running :
      (a : EventQueue S) (q : List (Message S))
      → a.running ≡ true
      → a.que_list ≡ q
      → given a ≡ calls_of a.log ++ q
  given_running a q h k =
      ap (λ x. calls_of a.log ++ taken_stop x ++ a.que_list) h
      ∙ ap (λ x. x ++ a.que_list) (append-nil (calls_of a.log))
      ∙ ap (λ x. calls_of a.log ++ x) k

  queue_call-Balanced :
      (a : EventQueue S) (cb : Callback S) (rest : List (Message S))
      → a.running ≡ true
      → a.que_list ≡ call cb ∷ rest
      → Balanced a
      → Balanced (queue_call update (record a { que_list = rest }) cb)
  unfolding queue_call
  queue_call-Balanced a cb rest h q i =
      after_call-Balanced (record a { que_list = rest; log = a.log ++ ran cb ∷ [] }) (cb a.state)
        (i
          ∙ given_running a (call cb ∷ rest) h q
          ∙ sym (append_assoc (calls_of a.log) (call cb ∷ []) rest)
          ∙ ap (λ c. c ++ rest) (sym (calls_of-ran a.log cb))
          ∙ sym (
              given_running (record a { que_list = rest; log = a.log ++ ran cb ∷ [] }) rest h refl))

  turn_on-Balanced :
      (a : EventQueue S) (q : List (Message S)) (e : Event)
      → a.running ≡ true
      → a.que_list ≡ q
      → Balanced a
      → Balanced (turn_on update a q e)
  unfolding turn_on
  turn_on-Balanced a q (ticked now) h k i = end_turn-Balanced a now i
  turn_on-Balanced a [] (received now) h k i = i
  turn_on-Balanced a (stop ∷ rest) (received now) h k i =
      i ∙ given_running a (stop ∷ rest) h k ∙ sym (append_assoc (calls_of a.log) (stop ∷ []) rest)
  turn_on-Balanced a (call cb ∷ rest) (received now) h k i =
      end_turn-Balanced (queue_call update (record a { que_list = rest }) cb) now
        (queue_call-Balanced a cb rest h k i)

  enqueue-Balanced :
      (a : EventQueue S) (m : Message S) → Balanced a → Balanced (get_or_else a (enqueue a m))
  unfolding enqueue get_or_else
  enqueue-Balanced a m i =
      if_holds (λ o. Balanced (get_or_else a o)) (ltb (length a.que_list) 20000)
        (λ h.
          ap (λ q. q ++ m ∷ []) i
          ∙ append_assoc (calls_of a.log ++ taken_stop a.running) a.que_list (m ∷ []))
        (λ h. i)

  act-Balanced : (a : EventQueue S) (x : Action S) → Balanced a → Balanced (act update a x)
  unfolding act turn post_cb stop_queue get_or_else
  act-Balanced a (selected e) i =
      if_holds Balanced a.running (λ h. turn_on-Balanced a a.que_list e h refl i) (λ h. i)
  act-Balanced a (posted none) i = i
  act-Balanced a (posted (some cb)) i = enqueue-Balanced a (call cb) i
  act-Balanced a stop_called i = enqueue-Balanced a stop i

  run-Balanced : (a : EventQueue S) (xs : List (Action S)) → Balanced a → Balanced (run update a xs)
  unfolding run
  run-Balanced a [] i = i
  run-Balanced a (x ∷ xs) i = run-Balanced (act update a x) xs (act-Balanced a x i)

  -- However posts, stops and turns interleave: the messages put into the queue are, in their order, the
  -- callbacks that were called, each once, the nil if the loop has ended, and the messages left, so that no
  -- callback after the nil is called; and the state and the number of reported errors are what running
  -- these callbacks, panics included, makes of the first state, with the updates in between.
  pub run-start_queue :
      (s : S) (first now : ℕ) (xs : List (Action S))
      → let a = run update (start_queue update s first now) xs in
        (a.entered ≡ given a) × ((a.state, a.errors) ≡ replay update (update first s, 0) a.log)
  unfolding start_queue
  run-start_queue s first now xs = (
    run-Balanced (start_queue update s first now) xs refl,
    start_queue-replay update s first now xs,
  )
