-- ===== src/Service/EventQueue/Spacing.antt =====
-- The times between the updates of the loop of service/eventqueue.go.
use mathlib.Core.Path.{subst}
use rocommon.Prelude.{
  some, none, length, ltb, ℕ, ◌+◌, ◌≤◌, List, [], ◌∷◌, ◌++◌, leb, ◌≡◌, refl, arith, ap, sym,
  if_holds,
}
use rocommon.Service.EventQueue.{
  Action, selected, posted, stop_called, stop_queue, post_cb, get_or_else, enqueue, act,
  start_queue, CallEnd, returned, panicked, Done, ran, updated, Callback, Message, call, stop,
  EventQueue, Event, received, ticked, after_call, queue_call, end_turn, turn_on, turn, run,
}
use rocommon.Service.EventQueue.Replay.{replay, start_queue-replay}

-- The times of the updates of a log.
abbrev pub updates_of : {S : Type 0} → List (Done S) → List ℕ
updates_of [] = []
updates_of (ran cb ∷ log) = updates_of log
updates_of (updated now ∷ log) = now ∷ updates_of log

updates_of-ran :
    {S : Type 0} (log : List (Done S)) (cb : Callback S)
    → updates_of (log ++ ran cb ∷ []) ≡ updates_of log
updates_of-ran [] cb = refl
updates_of-ran (ran c ∷ log) cb = updates_of-ran log cb
updates_of-ran (updated t ∷ log) cb = ap (λ l. t ∷ l) (updates_of-ran log cb)

updates_of-updated :
    {S : Type 0} (log : List (Done S)) (now : ℕ)
    → updates_of (log ++ updated now ∷ []) ≡ updates_of log ++ now ∷ []
updates_of-updated [] now = refl
updates_of-updated (ran c ∷ log) now = updates_of-updated log now
updates_of-updated (updated t ∷ log) now = ap (λ l. t ∷ l) (updates_of-updated log now)

module _ {S : Type 0} (update : ℕ → S → S) where
  -- Every update is at least 10 ms after the one before, the first after `first`; `last` is the last.
  abbrev pub Spaced : ℕ → List ℕ → ℕ → Type 0
  Spaced first [] last = last ≡ first
  Spaced first (u ∷ us) last = (first + 10 ≤ u) × Spaced u us last

  abbrev pub SpacedQueue : ℕ → EventQueue S → Type 0
  SpacedQueue first a = Spaced first (updates_of a.log) a.now_time

  Spaced-snoc :
      (first last now : ℕ) (us : List ℕ)
      → Spaced first us last
      → last + 10 ≤ now
      → Spaced first (us ++ now ∷ []) now
  Spaced-snoc first last now [] s h = (omega (arith, s), refl)
  Spaced-snoc first last now (u ∷ us) s h = (s.0, Spaced-snoc u last now us (s.1) h)

  end_turn-Spaced :
      (first : ℕ) (a : EventQueue S) (now : ℕ)
      → Spaced first (updates_of a.log) a.now_time
      → Spaced first (updates_of (end_turn update a now).log) (end_turn update a now).now_time
  unfolding end_turn
  end_turn-Spaced first a now s =
      if_holds (SpacedQueue first) (leb (a.now_time + 10) now)
        (λ h.
          subst (λ us. Spaced first us now) (sym (updates_of-updated a.log now))
            (Spaced-snoc first a.now_time now (updates_of a.log) s (ground arith)))
        (λ h. s)

  after_call-Spaced :
      (first : ℕ) (a : EventQueue S) (x : CallEnd S)
      → Spaced first (updates_of a.log) a.now_time
      → Spaced first (updates_of (after_call update a x).log) (after_call update a x).now_time
  unfolding after_call
  after_call-Spaced first a (returned t) s = s
  after_call-Spaced first a (panicked t) s = s

  turn_on-Spaced :
      (first : ℕ) (a : EventQueue S) (q : List (Message S)) (e : Event)
      → Spaced first (updates_of a.log) a.now_time
      → Spaced first (updates_of (turn_on update a q e).log) (turn_on update a q e).now_time
  unfolding turn_on queue_call
  turn_on-Spaced first a q (ticked now) s = end_turn-Spaced first a now s
  turn_on-Spaced first a [] (received now) s = s
  turn_on-Spaced first a (stop ∷ rest) (received now) s = s
  turn_on-Spaced first a (call cb ∷ rest) (received now) s =
      end_turn-Spaced first (queue_call update (record a { que_list = rest }) cb) now (
        after_call-Spaced first (record a { que_list = rest; log = a.log ++ ran cb ∷ [] })
          (cb a.state) (subst (λ us. Spaced first us a.now_time) (sym (updates_of-ran a.log cb)) s))

  enqueue-Spaced :
      (first : ℕ) (a : EventQueue S) (m : Message S)
      → Spaced first (updates_of a.log) a.now_time
      → SpacedQueue first (get_or_else a (enqueue a m))
  unfolding enqueue get_or_else
  enqueue-Spaced first a m s =
      if_holds (λ o. SpacedQueue first (get_or_else a o)) (ltb (length a.que_list) 20000) (λ h. s)
        (λ h. s)

  act-Spaced :
      (first : ℕ) (a : EventQueue S) (x : Action S)
      → SpacedQueue first a
      → SpacedQueue first (act update a x)
  unfolding act turn post_cb stop_queue get_or_else
  act-Spaced first a (selected e) s =
      if_holds (SpacedQueue first) a.running (λ h. turn_on-Spaced first a a.que_list e s) (λ h. s)
  act-Spaced first a (posted none) s = s
  act-Spaced first a (posted (some cb)) s = enqueue-Spaced first a (call cb) s
  act-Spaced first a stop_called s = enqueue-Spaced first a stop s

  run-Spaced :
      (first : ℕ) (a : EventQueue S) (xs : List (Action S))
      → SpacedQueue first a
      → SpacedQueue first (run update a xs)
  unfolding run
  run-Spaced first a [] s = s
  run-Spaced first a (x ∷ xs) s = run-Spaced first (act update a x) xs (act-Spaced first a x s)

  -- However posts, stops and turns interleave, the updates among what the loop does are at least 10 ms
  -- apart, the first at least 10 ms after the loop began; and the state is what these updates make of the
  -- first state, with the callbacks in between.
  pub start_queue-Spaced :
      (s : S) (first now : ℕ) (xs : List (Action S))
      → let a = run update (start_queue update s first now) xs in
        Spaced now (updates_of a.log) a.now_time
        × ((a.state, a.errors) ≡ replay update (update first s, 0) a.log)
  unfolding start_queue
  start_queue-Spaced s first now xs = (
    run-Spaced now (start_queue update s first now) xs refl,
    start_queue-replay update s first now xs,
  )
