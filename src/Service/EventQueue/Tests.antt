-- ===== src/Service/EventQueue/Tests.antt =====
-- Runs of the event queue of service/eventqueue.go over a counter.
use rocommon.Prelude.{ℕ, ◌≡◌, ◌+◌, List, [], ◌∷◌, some, none, refl}
use rocommon.Service.EventQueue.{
  returned, panicked, Callback, received, ticked, Action, selected, posted, stop_called,
  start_queue, run, act, turn, turn_on, queue_call, end_turn, after_call, enqueue, post_cb,
  stop_queue, get_or_else,
}
use rocommon.Service.EventQueue.Order.{given, run-start_queue}
use rocommon.Service.EventQueue.Replay.{replay}
use rocommon.Service.EventQueue.Spacing.{updates_of, Spaced, start_queue-Spaced}

abbrev adds : Callback ℕ
adds n = returned (n + 1)

abbrev fails : Callback ℕ
fails n = panicked (n + 10)

abbrev update : ℕ → ℕ → ℕ
update now n = n + 100

-- Two posts, one that panics, a stop, and a post that comes too late.
abbrev actions : List (Action ℕ)
actions =
    posted (some adds)
    ∷ posted (some fails)
    ∷ posted none
    ∷ selected (ticked 5)
    ∷ selected (received 12)
    ∷ stop_called
    ∷ selected (received 15)
    ∷ selected (received 40)
    ∷ posted (some adds)
    ∷ selected (received 60)
    ∷ []

late_post_run :
    let a = run update (start_queue update 0 0 0) actions in
    (a.state ≡ 211) × (a.errors ≡ 1) × (updates_of a.log ≡ 12 ∷ [])
unfolding run act turn turn_on queue_call end_turn after_call enqueue post_cb stop_queue get_or_else
    start_queue
late_post_run = (refl, refl, refl)

run-start_queue_example :
    let a = run update (start_queue update 0 0 0) actions in
    (a.entered ≡ given update a) × ((a.state, a.errors) ≡ replay update (update 0 0, 0) a.log)
run-start_queue_example = run-start_queue update 0 0 0 actions

start_queue-Spaced_example :
    let a = run update (start_queue update 0 0 0) actions in
    Spaced update 0 (updates_of a.log) a.now_time
    × ((a.state, a.errors) ≡ replay update (update 0 0, 0) a.log)
start_queue-Spaced_example = start_queue-Spaced update 0 0 0 actions
