-- ===== src/Service/EventQueue.antt =====
-- service/eventqueue.go: the queue of callbacks and its loop. The state that callbacks and the update
-- module work on is `S`; `update` is the module's Update, taken not to panic (a panic there would
-- end the process). The time of each turn is an argument.
pub mod Order
pub mod Replay
pub mod Spacing
mod Tests
use rocommon.Prelude.{
  ℕ, ◌+◌, List, [], ◌∷◌, ◌++◌, Option, none, some, leb, ltb, length, if◌then◌else◌, Bool, true,
  false,
}

-- How a callback ends: it returns, or panics, with what it has done to the state.
pub data CallEnd (S : Type 0) : Type 0 where
  returned : S → CallEnd S
  panicked : S → CallEnd S

abbrev pub Callback : Type 0 → Type 0
Callback S = S → CallEnd S

-- What the queue holds: a callback, or the nil of StopQueue.
pub data Message (S : Type 0) : Type 0 where
  call : Callback S → Message S
  stop : Message S

-- What the loop has done: a callback was called, or an update was made at a time.
pub data Done (S : Type 0) : Type 0 where
  ran : Callback S → Done S
  updated : ℕ → Done S

-- `now_time` is the loop's `nowTime1`, the time of the last update; `errors` counts the calls of
-- onError. `entered` and `log` record the messages put into the queue, and what the loop has done.
pub record EventQueue (S : Type 0) : Type 0 where
  pub que_list : List (Message S)
  pub state : S
  pub now_time : ℕ
  pub running : Bool
  pub errors : ℕ
  pub entered : List (Message S)
  pub log : List (Done S)

-- What a turn of the loop selects: the next message or a tick.
pub data Event : Type 0 where
  received ticked : ℕ → Event

module _ {S : Type 0} (update : ℕ → S → S) where
  -- `StartQueue` up to the loop, with the update that comes first.
  pub start_queue : S → ℕ → ℕ → EventQueue S
  start_queue s first now = record {
    que_list = [];
    state = update first s;
    now_time = now;
    running = true;
    errors = 0;
    entered = [];
    log = [];
  }

  -- `queueCall`: a panic is recovered and reported.
  after_call : EventQueue S → CallEnd S → EventQueue S
  after_call a (returned s) = record a { state = s }
  after_call a (panicked s) = record a { state = s; errors = a.errors + 1 }

  pub queue_call : EventQueue S → Callback S → EventQueue S
  unfolding after_call
  queue_call a cb = after_call (record a { log = a.log ++ ran cb ∷ [] }) (cb a.state)

  -- The update that ends a turn, when 10 ms have passed.
  pub end_turn : EventQueue S → ℕ → EventQueue S
  end_turn a now =
      if leb (a.now_time + 10) now
      then record a { now_time = now; state = update now a.state; log = a.log ++ updated now ∷ [] }
      else a

  -- One turn with the queue's content: nil leaves the loop at once, with no update; with an empty queue
  -- no message is selected.
  turn_on : EventQueue S → List (Message S) → Event → EventQueue S
  unfolding queue_call end_turn
  turn_on a q (ticked now) = end_turn a now
  turn_on a [] (received now) = a
  turn_on a (stop ∷ rest) (received now) = record a { que_list = rest; running = false }
  turn_on a (call cb ∷ rest) (received now) =
      end_turn (queue_call (record a { que_list = rest }) cb) now

  pub turn : EventQueue S → Event → EventQueue S
  unfolding turn_on
  turn a e = if a.running then turn_on a a.que_list e else a

-- `PostCb` and `StopQueue`: a nil callback is not queued. With 20000 messages in the queue both wait,
-- `none`.
module _ {S : Type 0} where
  enqueue : EventQueue S → Message S → Option (EventQueue S)
  enqueue a m =
      if ltb (length a.que_list) 20000
      then some (record a { que_list = a.que_list ++ m ∷ []; entered = a.entered ++ m ∷ [] })
      else none

  pub post_cb : EventQueue S → Option (Callback S) → Option (EventQueue S)
  unfolding enqueue
  post_cb a none = some a
  post_cb a (some cb) = enqueue a (call cb)

  pub stop_queue : EventQueue S → Option (EventQueue S)
  unfolding enqueue
  stop_queue a = enqueue a stop

-- What happens to the queue: a turn of its loop, a call of PostCb, a call of StopQueue.
pub data Action (S : Type 0) : Type 0 where
  selected : Event → Action S
  posted : Option (Callback S) → Action S
  stop_called : Action S

get_or_else {ℓ} : {A : Type ℓ} → A → Option A → A
get_or_else a none = a
get_or_else a (some b) = b

module _ {S : Type 0} (update : ℕ → S → S) where
  -- One action; a call that waits changes nothing, and may be made again later.
  pub act : EventQueue S → Action S → EventQueue S
  unfolding turn post_cb stop_queue get_or_else
  act a (selected e) = turn update a e
  act a (posted cb) = get_or_else a (post_cb a cb)
  act a stop_called = get_or_else a (stop_queue a)

  pub run : EventQueue S → List (Action S) → EventQueue S
  unfolding act
  run a [] = a
  run a (x ∷ xs) = run (act a x) xs
