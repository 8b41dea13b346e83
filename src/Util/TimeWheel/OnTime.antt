-- ===== src/Util/TimeWheel/OnTime.antt =====
-- Calls of Update in util/timewheel.go that end, and what they call.
use mathlib.Core.Path.{subst}
use rocommon.Prelude.{
  ℕ, zero, suc, ◌+◌, ◌-◌, ◌*◌, ◌/◌, ◌<◌, ◌≤◌, List, [], ◌++◌, none, some, ◌≡◌, ◌↔◌, ap, ◌∙◌, sym,
  arith, ltb, Bool-cases, ltb→lt, inl, inr, length,
}
use rocommon.Util.TimeWheel.{
  TwTask, TimeWheel, update, and_then, continued, loop_turn, update_loop, update_to, add_task,
}
use rocommon.Util.TimeWheel.Keys.{Has, add_task-Alike}
use rocommon.Util.TimeWheel.Called.{
  followed_lem, loop_stops, loop_turns, with_time, turns_more, ltb→ge,
}
use rocommon.Util.TimeWheel.Delay.{Absent, update_to-update_loop, update_to-add_task}
use rocommon.Util.TimeWheel.Lighter.{IsCalm}
use rocommon.Util.TimeWheel.Ends.{Alike-range}
use rocommon.Util.TimeWheel.Calm.{IsCalmWheel, add_task-Calm, update_calm, update_more}

-- With enough visits for each update, the loop of Update ends.
abbrev Ends : ℕ → ℕ → TimeWheel → Type 0
Ends rounds ms a =
    (enough : ℕ) × ((fuel : ℕ)
      → enough ≤ fuel
      → (r : TimeWheel × List TwTask) × (update_loop rounds fuel ms a ≡ some r))

loop_last :
    (rounds ms : ℕ) (a : TimeWheel)
    → a.old_ms ≤ ms
    → ms - a.old_ms < a.interval
    → Ends (suc rounds) ms a
unfolding update_loop
loop_last rounds ms a o l = (
  0,
  λ fuel h. (
    (a, []),
    ap (λ c. loop_turn fuel c ms (update_loop rounds fuel ms)) (followed_lem ms a o)
        ∙ loop_stops fuel ms a (update_loop rounds fuel ms) l,
  ),
)

-- A turn whose update ends within `f` visits, and then the rest of the loop.
loop_next :
    (rounds ms f : ℕ) (a : TimeWheel) (u : TimeWheel × List TwTask)
    → a.old_ms ≤ ms
    → a.interval ≤ ms - a.old_ms
    → update f (with_time (a.old_ms + a.interval) a) ≡ some u
    → Ends rounds ms (u.0)
    → Ends (suc rounds) ms a
unfolding update_loop and_then continued
loop_next rounds ms f a u o l e (enough, rest) = (
  f + enough,
  λ fuel h.
      let b = with_time (a.old_ms + a.interval) a in
      let (r, q) = rest fuel (omega arith) in
      let more : update fuel b ≡ some u =
        subst (λ n. update n b ≡ some u) (omega arith) (update_more f (fuel - f) b u e) in
      (
        (r.0, u.1 ++ r.1),
        ap (λ c. loop_turn fuel c ms (update_loop rounds fuel ms)) (followed_lem ms a o)
            ∙ loop_turns fuel ms a (update_loop rounds fuel ms) l
            ∙ ap (λ x. and_then x (update_loop rounds fuel ms)) more
            ∙ ap (continued (u.1)) q,
      ),
)

loop-Ends :
    (rounds ms : ℕ) (a : TimeWheel)
    → a.current_idx < a.slot_num
    → 0 < a.interval
    → a.old_ms ≤ ms
    → IsCalmWheel a.interval a
    → (ms - a.old_ms) / a.interval < rounds
    → Ends rounds ms a
loop-Ends zero ms a l p o c h = absurd (omega (arith, h))
loop-Ends (suc rounds) ms a l p o c h = elim (Bool-cases (ltb (ms - a.old_ms) a.interval)) [
  | inl b ↦ loop_last rounds ms a o (ltb→lt _ _ b)
  | inr b ↦
      let ge : a.interval ≤ ms - a.old_ms = ltb→ge (ms - a.old_ms) a.interval b in
      let w = with_time (a.old_ms + a.interval) a in
      let f = 2 * length (a.slots a.current_idx) in
      let (u, e, calm, range, i, t) = update_calm f w l p c (omega arith) in
      let m = turns_more (ms - a.old_ms) a.interval p ge in
      let elapsed : ms - a.old_ms - a.interval ≡ ms - (a.old_ms + a.interval) = omega arith in
      let left : (ms - u.0.old_ms) / u.0.interval < rounds =
        subst (λ d. (ms - u.0.old_ms) / d < rounds) (sym i)
          (subst (λ d. (ms - d) / a.interval < rounds) (sym t)
            (subst (λ d. d / a.interval < rounds) elapsed (omega (arith, m, h)))) in
      loop_next rounds ms f a u o ge e (
        loop-Ends rounds ms (u.0) range (subst (λ d. 0 < d) (sym i) p)
          (subst (λ d. d ≤ ms) (sym t) (omega arith))
          (subst (λ d. IsCalmWheel d (u.0)) (sym i) calm) left)
]

-- In a wheel whose repeated tasks wait an interval at least, also the task that AddTask takes in under a key
-- that was free: with enough visits for each update, and a round for each interval that is over and one
-- more, Update returns; and it has called the task exactly when more intervals are over than its delay
-- holds.
pub update_to-on_time :
    (task : TwTask) (k rounds ms : ℕ) (a : TimeWheel)
    → task.key ≡ some k
    → a.timer k ≡ none
    → Absent k a
    → a.current_idx < a.slot_num
    → 0 < a.interval
    → 0 < a.old_ms
    → a.old_ms ≤ ms
    → IsCalmWheel a.interval a
    → IsCalm a.interval task
    → (ms - a.old_ms) / a.interval < rounds
    → (enough : ℕ) × ((fuel : ℕ)
        → enough ≤ fuel
        → (r : TimeWheel × List TwTask) × (update_to rounds fuel ms (add_task task a).1 ≡ some r)
          × (Has k (r.1) ↔ (task.delay / a.interval < (ms - a.old_ms) / a.interval)))
update_to-on_time task k rounds ms a e free x l p o t calm task_calm h =
    let b = (add_task task a).1 in
    let (c, n, i, old) = add_task-Alike task a in
    let (enough, returns) =
      loop-Ends rounds ms b (Alike-range a b (c, n, i, old) l) (subst (λ d. 0 < d) (sym i) p)
        (subst (λ d. d ≤ ms) (sym old) t)
        (subst (λ d. IsCalmWheel d b) (sym i) (add_task-Calm a.interval task a task_calm calm))
        (subst (λ d. (ms - b.old_ms) / d < rounds) (sym i)
          (subst (λ d. (ms - d) / a.interval < rounds) (sym old) h)) in
    (
      enough,
      λ fuel g.
          let (r, q) = returns fuel g in
          let run = update_to-update_loop rounds fuel ms b (subst (λ d. 0 < d) (sym old) o) ∙ q in
          (r, run, update_to-add_task task k rounds fuel ms a r e free x l p o t run),
    )
