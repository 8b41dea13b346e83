-- ===== src/Util/TimeWheel/Tests.antt =====
-- The time wheel of util/timewheel.go at concrete inputs.
use rocommon.Prelude.{
  ◌≤◌, ℕ, ◌/◌, ◌-◌, ◌<◌, List, [], ◌∷◌, Option, none, some, true, ◌≡◌, ◌↔◌, refl, arith,
}
use rocommon.Util.TimeWheel.{
  TwTask, TimeWheel, add_task, remove_task, remove_key, update, update_to, update_loop, loop_turn,
  followed, and_then, continued, walk, visit, with_circle, with_key, again, turned, start_walk,
  ended, push_back, unless_used, find_timer, with_timer, replaced, get_idx_and_circle,
}
use rocommon.Util.TimeWheel.Keys.{Has}
use rocommon.Util.TimeWheel.OnTime.{update_to-on_time}
use rocommon.Util.TimeWheel.Ends.{update_ends}
use rocommon.Util.TimeWheel.Endless.{IsRestless}

abbrev empty_wheel : TimeWheel
empty_wheel = record {
  interval = 10;
  slots = λ i. [];
  timer = λ k. none;
  current_idx = 1;
  slot_num = 2;
  old_ms = 100;
}

abbrev save : TwTask
save = record { delay = 25; circle = 0; key = some 7; repeated = true; uid = 3 }

abbrev at_once : ℕ → TwTask
at_once k = record { delay = 5; circle = 0; key = some k; repeated = true; uid = k }

abbrev fired_of : Option (TimeWheel × List TwTask) → TimeWheel × List TwTask
fired_of none = (empty_wheel, [])
fired_of (some r) = r

abbrev saved_by : ℕ → TimeWheel × List TwTask
saved_by ms = fired_of (update_to 5 5 ms (add_task save empty_wheel).1)

saved_by_run : update_to 5 5 135 (add_task save empty_wheel).1 ≡ some (saved_by 135)
unfolding update_to update_loop loop_turn followed and_then continued update walk visit with_circle
    with_key again turned start_walk ended push_back unless_used find_timer with_timer replaced
    get_idx_and_circle add_task
saved_by_run = refl

update_to-on_time_example :
    (enough : ℕ) × ((fuel : ℕ)
      → enough ≤ fuel
      → (r : TimeWheel × List TwTask) × (update_to 5 fuel 135 (add_task save empty_wheel).1
          ≡ some r)
        × (Has 7 (r.1) ↔ (25 / 10 < (135 - 100) / 10)))
update_to-on_time_example =
    update_to-on_time save 7 5 135 empty_wheel refl refl (λ i l h. h) (omega arith) (omega arith)
      (omega arith) (omega arith) (λ i. tt) (λ e. omega arith) (omega arith)

-- At 125 the delay is over, and the task is not called yet.
not_called_yet : (saved_by 125).1 ≡ []
unfolding update_to update_loop loop_turn followed and_then continued update walk visit with_circle
    with_key again turned start_walk ended push_back unless_used find_timer with_timer replaced
    get_idx_and_circle add_task
not_called_yet = refl

update_ends_example :
    (r : TimeWheel × List TwTask) × (update 4 (record empty_wheel { slots = λ i. save ∷ save ∷ [] })
      ≡ some r)
update_ends_example =
    update_ends 4 (record empty_wheel { slots = λ i. save ∷ save ∷ [] }) (omega arith) (omega arith)
      (λ e. omega arith, (λ e. omega arith, tt)) (omega arith)

at_once-IsRestless : (k : ℕ) → IsRestless 10 (at_once k)
at_once-IsRestless k = record {
  at_once = refl;
  is_repeated = refl;
  has_key = (k, refl);
  short = omega arith;
}

-- A task that was taken out is gone.
remove_task_test : (remove_task 7 (add_task save empty_wheel).1).slots 1 ≡ []
unfolding remove_task remove_key add_task push_back unless_used find_timer with_timer replaced
    get_idx_and_circle
remove_task_test = refl
