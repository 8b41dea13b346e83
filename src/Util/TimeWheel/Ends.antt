-- ===== src/Util/TimeWheel/Ends.antt =====
-- The loop of `update` in util/timewheel.go ends where no repeated task has a delay below the interval.
use rocommon.Prelude.{
  ℕ, zero, suc, ◌+◌, ◌*◌, ◌<◌, ◌≤◌, List, [], ◌∷◌, ◌++◌, Option, none, some, ◌≡◌, refl, ap, ◌∙◌,
  sym, arith, All, if◌then◌else◌, if_holds, ◌==◌, length,
}
use mathlib.Core.Path.{subst}
use rocommon.Util.TimeWheel.{
  TwTask, TimeWheel, Walk, replaced, with_timer, with_key, with_circle, visit, walk, update, ended,
  start_walk, turned,
}
use rocommon.Util.TimeWheel.Keys.{Alike}
use rocommon.Util.TimeWheel.Steps.{walk_nil, walk_cons}
use rocommon.Util.TimeWheel.Lighter.{weight, IsCalm, Lighter, again-Lighter}

with_key-Lighter :
    (key : Option ℕ) (s : Walk) (task : TwTask) (rest : List TwTask)
    → s.wheel.current_idx < s.wheel.slot_num
    → 0 < s.wheel.interval
    → IsCalm s.wheel.interval task
    → All (IsCalm s.wheel.interval) rest
    → Lighter s (2 + weight rest) (with_key key s task rest)
unfolding with_key with_timer
with_key-Lighter none s task rest l p c h = ((refl, refl, refl, refl), omega arith, h)
with_key-Lighter (some k) s task rest l p c h =
    if_holds (Lighter s (2 + weight rest)) task.repeated
      (λ b.
        again-Lighter
          (record s {
            wheel = record s.wheel { timer = replaced k none s.wheel.timer };
            todo = rest;
          })
          task rest l p (c b) h)
      (λ b. ((refl, refl, refl, refl), omega arith, h))

with_circle-Lighter :
    (c : ℕ) (s : Walk) (task : TwTask) (rest : List TwTask)
    → task.circle ≡ c
    → s.wheel.current_idx < s.wheel.slot_num
    → 0 < s.wheel.interval
    → IsCalm s.wheel.interval task
    → All (IsCalm s.wheel.interval) rest
    → Lighter s (weight (task ∷ rest)) (with_circle c s task rest)
unfolding with_circle
with_circle-Lighter zero s task rest e l p i h =
    subst (λ w. Lighter s w (with_circle zero s task rest))
      (sym (ap (λ b. (if b then 2 else 1) + weight rest) (ap (λ d. d == 0) e)))
      (with_key-Lighter task.key (record s { fired = s.fired ++ task ∷ [] }) task rest l p i h)
with_circle-Lighter (suc c) s task rest e l p i h = ((refl, refl, refl, refl), ground arith, h)

pub visit-Lighter :
    (s : Walk) (task : TwTask) (rest : List TwTask)
    → s.wheel.current_idx < s.wheel.slot_num
    → 0 < s.wheel.interval
    → All (IsCalm s.wheel.interval) (task ∷ rest)
    → Lighter s (weight (task ∷ rest)) (visit s task rest)
unfolding visit
visit-Lighter s task rest l p h = with_circle-Lighter task.circle s task rest refl l p (h.0) (h.1)

pub Alike-range :
    (a b : TimeWheel) → Alike a b → a.current_idx < a.slot_num → b.current_idx < b.slot_num
Alike-range a b (c, n, i, o) l = ground (arith, c, n)

-- The loop ends within `f` turns.
walk_ends :
    (f : ℕ) (s : Walk) (ts : List TwTask)
    → s.todo ≡ ts
    → s.wheel.current_idx < s.wheel.slot_num
    → 0 < s.wheel.interval
    → All (IsCalm s.wheel.interval) ts
    → weight ts ≤ f
    → (r : Walk) × (walk f s ≡ some r)
walk_ends f s [] e l p h w = (s, walk_nil f s e)
walk_ends zero s (t ∷ rest) e l p h w = absurd (ground arith)
walk_ends (suc f) s (t ∷ rest) e l p h w =
    let v = visit s t rest in
    let (alike, lighter, calm) = visit-Lighter s t rest l p h in
    let i = sym (alike.2) in
    let (r, q) =
      walk_ends f v v.todo refl (Alike-range s.wheel v.wheel alike l) (subst (λ d. 0 < d) i p)
        (subst (λ d. All (IsCalm d) v.todo) i calm) (omega arith) in
    (r, walk_cons f s t rest e ∙ q)

pub weight_bound : (ts : List TwTask) → weight ts ≤ 2 * length ts
weight_bound [] = omega arith
weight_bound (t ∷ ts) = let h = weight_bound ts in ground arith

-- An update ends within twice as many visits as its slot has tasks, where every repeated task of the slot
-- has a delay of an interval at least.
pub update_ends :
    (fuel : ℕ) (a : TimeWheel)
    → a.current_idx < a.slot_num
    → 0 < a.interval
    → All (IsCalm a.interval) (a.slots a.current_idx)
    → 2 * length (a.slots a.current_idx) ≤ fuel
    → (r : TimeWheel × List TwTask) × (update fuel a ≡ some r)
unfolding update ended start_walk
update_ends fuel a l p h f =
    let (s, q) =
      walk_ends fuel (start_walk a) (a.slots a.current_idx) refl l p h
        (let b = weight_bound (a.slots a.current_idx) in omega arith) in
    ((turned s, s.fired), ap ended q)
