-- ===== src/Util/TimeWheel.antt =====
-- util/timewheel.go: the time wheel. A task is the record of its delay, circles, key and whether it is
-- repeated, and its uid (the other fields are passed on); a task that is in the wheel is there once, and its
-- callback does not use the wheel. There is at least one slot. An int holds the quotients of delays by the interval.
pub mod Keys
pub mod Steps
pub mod PutBack
pub mod Waiting
pub mod Reached
pub mod Due
pub mod Clock
pub mod Called
pub mod Delay
pub mod Lighter
pub mod Ends
pub mod Calm
pub mod OnTime
pub mod Endless
mod Tests
use rocommon.Prelude.{
  zero, ℕ, suc, ◌+◌, ◌-◌, ◌*◌, ◌/◌, ◌%◌, List, [], ◌∷◌, ◌++◌, Option, none, some, Bool, true, false,
  ltb, leb, ◌==◌, if◌then◌else◌, drop, length,
}

pub record TwTask : Type 0 where
  pub delay : ℕ
  pub circle : ℕ
  pub key : Option ℕ
  pub repeated : Bool
  pub uid : ℕ

pub record TimeWheel : Type 0 where
  pub interval : ℕ
  pub slots : ℕ → List TwTask
  pub timer : ℕ → Option ℕ
  pub current_idx : ℕ
  pub slot_num : ℕ
  pub old_ms : ℕ

-- A map or an array with one entry changed.
unfoldable pub replaced {ℓ} : {A : Type ℓ} → ℕ → A → (ℕ → A) → ℕ → A
replaced i a f j = if j == i then a else f j

-- `NewTimeWheel`: nil at the interval 0.
pub new_time_wheel : ℕ → ℕ → Option TimeWheel
new_time_wheel interval slot_num =
    if interval == 0
    then none
    else some (record {
      interval = interval;
      slots = λ i. [];
      timer = λ k. none;
      current_idx = 0;
      slot_num = slot_num;
      old_ms = 0;
    })

-- `getIdxAndCircle`.
pub get_idx_and_circle : TimeWheel → ℕ → ℕ × ℕ
get_idx_and_circle a task_duration =
    let tmp_val = task_duration / a.interval in
    ((a.current_idx + tmp_val) % a.slot_num, tmp_val / a.slot_num)

-- `_, ok := a.timer[key]`: no task is under the key nil.
pub find_timer : TimeWheel → Option ℕ → Option ℕ
find_timer a none = none
find_timer a (some k) = a.timer k

pub with_timer : Option ℕ → Option ℕ → TimeWheel → TimeWheel
unfolding replaced
with_timer none idx a = a
with_timer (some k) idx a = record a { timer = replaced k idx a.timer }

-- The end of `AddTask`: the task goes to the back of its slot.
pub push_back : TwTask → TimeWheel → TimeWheel
unfolding get_idx_and_circle with_timer replaced
push_back task a =
    let (idx, circle) = get_idx_and_circle a task.delay in
    let t = record task { circle = circle } in
    with_timer task.key (some idx)
      (record a { slots = replaced idx (a.slots idx ++ t ∷ []) a.slots })

-- `AddTask`: a key that is in use is refused.
unless_used : Option ℕ → TwTask → TimeWheel → Bool × TimeWheel
unfolding push_back
unless_used (some idx) task a = (false, a)
unless_used none task a = (true, push_back task a)

pub add_task : TwTask → TimeWheel → Bool × TimeWheel
unfolding find_timer unless_used
add_task task a = unless_used (find_timer a task.key) task a

-- `RemoveTask`: the element that is removed has no next one, so that the loop ends with it.
remove_key : ℕ → List TwTask → List TwTask
remove_key key [] = []
remove_key key (t ∷ ts) = elim t.key [
  | none ↦ t ∷ remove_key key ts
  | some k ↦ if k == key then ts else t ∷ remove_key key ts
]

pub remove_task : ℕ → TimeWheel → TimeWheel
unfolding remove_key replaced
remove_task key a = elim (a.timer key) [
  | none ↦ a
  | some idx ↦ record a {
    timer = replaced key none a.timer;
    slots = replaced idx (remove_key key (a.slots idx)) a.slots;
  }
]

-- The loop of `update`: the wheel, the tasks of the slot that stay, those to come, and those that
-- were called.
pub record Walk : Type 0 where
  pub wheel : TimeWheel
  pub kept : List TwTask
  pub todo : List TwTask
  pub fired : List TwTask

-- A repeated task goes back into the wheel; at the end of its slot it is not met again, since the next
-- element was read before.
pub again : Walk → TwTask → List TwTask → Walk
unfolding replaced add_task
again s task [] =
    let w =
      (add_task task
        (record s.wheel { slots = replaced s.wheel.current_idx s.kept s.wheel.slots })).1 in
    record s { wheel = w; kept = w.slots w.current_idx; todo = [] }
again s task (r ∷ rest) =
    let w =
      (add_task task (record s.wheel {
        slots = replaced s.wheel.current_idx (s.kept ++ r ∷ rest) s.wheel.slots;
      })).1 in
    record s { wheel = w; todo = drop (length s.kept) (w.slots w.current_idx) }

-- A task whose circles are over: one with no key stays where it is.
pub with_key : Option ℕ → Walk → TwTask → List TwTask → Walk
unfolding again with_timer
with_key none s task rest = record s { kept = s.kept ++ task ∷ []; todo = rest }
with_key (some k) s task rest =
    let t = record s { wheel = with_timer (some k) none s.wheel; todo = rest } in
    if task.repeated then again t task rest else t

-- One turn of the loop, by the circles that the task has left.
pub with_circle : ℕ → Walk → TwTask → List TwTask → Walk
unfolding with_key
with_circle zero s task rest =
    with_key task.key (record s { fired = s.fired ++ task ∷ [] }) task rest
with_circle (suc c) s task rest = record s {
  kept = s.kept ++ record task { circle = c } ∷ [];
  todo = rest;
}

pub visit : Walk → TwTask → List TwTask → Walk
unfolding with_circle
visit s task rest = with_circle task.circle s task rest

pub walk : ℕ → Walk → Option Walk
unfolding visit
walk zero s = elim s.todo [ [] ↦ some s | t ∷ rest ↦ none ]
walk (suc f) s = elim s.todo [ [] ↦ some s | t ∷ rest ↦ walk f (visit s t rest) ]

-- The end of `update`.
pub turned : Walk → TimeWheel
unfolding replaced
turned s =
    let w = s.wheel in
    record w {
      slots = replaced w.current_idx s.kept w.slots;
      current_idx = if leb (w.slot_num - 1) w.current_idx then 0 else suc w.current_idx;
    }

pub start_walk : TimeWheel → Walk
start_walk a = record { wheel = a; kept = []; todo = a.slots a.current_idx; fired = [] }

ended : Option Walk → Option (TimeWheel × List TwTask)
unfolding turned
ended none = none
ended (some s) = some (turned s, s.fired)

-- `update`, of at most `fuel` visits: the wheel, and the tasks that were called.
pub update : ℕ → TimeWheel → Option (TimeWheel × List TwTask)
unfolding walk ended start_walk
update fuel a = ended (walk fuel (start_walk a))

-- The loop of `Update`, of at most `rounds` turns: a clock that went back is followed.
pub followed : ℕ → TimeWheel → TimeWheel
followed ms a = if ltb ms a.old_ms then record a { old_ms = ms } else a

continued : List TwTask → Option (TimeWheel × List TwTask) → Option (TimeWheel × List TwTask)
continued fired none = none
continued fired (some q) = some (q.0, fired ++ q.1)

pub and_then :
    Option (TimeWheel × List TwTask)
    → (TimeWheel → Option (TimeWheel × List TwTask))
    → Option (TimeWheel × List TwTask)
unfolding continued
and_then none rest = none
and_then (some r) rest = continued (r.1) (rest (r.0))

pub loop_turn :
    ℕ
    → TimeWheel
    → ℕ
    → (TimeWheel → Option (TimeWheel × List TwTask))
    → Option (TimeWheel × List TwTask)
unfolding update and_then
loop_turn fuel b ms rest =
    if ltb (ms - b.old_ms) b.interval
    then some (b, [])
    else and_then (update fuel (record b { old_ms = b.old_ms + b.interval })) rest

pub update_loop : ℕ → ℕ → ℕ → TimeWheel → Option (TimeWheel × List TwTask)
unfolding loop_turn followed
update_loop zero fuel ms a = none
update_loop (suc rounds) fuel ms a = loop_turn fuel (followed ms a) ms (update_loop rounds fuel ms)

-- `Update`, with the tasks that it calls; the first one sets the time.
pub update_to : ℕ → ℕ → ℕ → TimeWheel → Option (TimeWheel × List TwTask)
unfolding update_loop
update_to rounds fuel ms a =
    if a.old_ms == 0 then some (record a { old_ms = ms }, []) else update_loop rounds fuel ms a
