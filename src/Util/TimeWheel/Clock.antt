-- ===== src/Util/TimeWheel/Clock.antt =====
-- The interval and the time of a wheel of util/timewheel.go stay through an update.
use rocommon.Prelude.{
  ℕ, zero, suc, List, [], ◌∷◌, ◌++◌, Option, none, some, ◌≡◌, refl, ap, ◌∙◌, sym, if_holds,
  Option-cases, inl, inr,
}
use mathlib.Core.Path.{subst}
use mathlib.Core.Option.{some-injective, some-ne-none}
use rocommon.Util.TimeWheel.{
  TwTask, TimeWheel, Walk, replaced, with_timer, again, with_key, with_circle, visit, walk, turned,
  start_walk, update, ended,
}
use rocommon.Util.TimeWheel.Steps.{walk_nil, walk-none, walk_cons}
use rocommon.Util.TimeWheel.Keys.{add_task-Alike}

-- The interval and the time of a wheel, which a walk keeps.
abbrev pub SameClock : TimeWheel → TimeWheel → Type 0
SameClock a b = (b.interval ≡ a.interval) × (b.old_ms ≡ a.old_ms)

SameClock-trans : (a b c : TimeWheel) → SameClock a b → SameClock b c → SameClock a c
SameClock-trans a b c (p, q) (r, s) = (r ∙ p, s ∙ q)

again-SameClock :
    (s : Walk) (task : TwTask) (rest : List TwTask) → SameClock s.wheel (again s task rest).wheel
unfolding again
again-SameClock s task [] =
    let (c, n, i, o) =
      add_task-Alike task
        (record s.wheel { slots = replaced s.wheel.current_idx s.kept s.wheel.slots }) in
    (i, o)
again-SameClock s task (r ∷ rest) =
    let (c, n, i, o) = add_task-Alike task (record s.wheel {
      slots = replaced s.wheel.current_idx (s.kept ++ r ∷ rest) s.wheel.slots;
    }) in
    (i, o)

with_key-SameClock :
    (key : Option ℕ) (s : Walk) (task : TwTask) (rest : List TwTask)
    → SameClock s.wheel (with_key key s task rest).wheel
unfolding with_key with_timer
with_key-SameClock none s task rest = (refl, refl)
with_key-SameClock (some k) s task rest =
    if_holds (λ (t : Walk). SameClock s.wheel t.wheel) task.repeated
      (λ b.
        again-SameClock
          (record s {
            wheel = record s.wheel { timer = replaced k none s.wheel.timer };
            todo = rest;
          })
          task rest)
      (λ b. (refl, refl))

visit-SameClock :
    (s : Walk) (task : TwTask) (rest : List TwTask) → SameClock s.wheel (visit s task rest).wheel
unfolding visit with_circle
visit-SameClock s task rest = by_circle task.circle
  where
    by_circle : (c : ℕ) → SameClock s.wheel (with_circle c s task rest).wheel
    by_circle zero =
        with_key-SameClock task.key (record s { fired = s.fired ++ task ∷ [] }) task rest
    by_circle (suc c) = (refl, refl)

walk-SameClock : (f : ℕ) (s s1 : Walk) → walk f s ≡ some s1 → SameClock s.wheel s1.wheel
walk-SameClock f s s1 r = by_todo f s s.todo refl r
  where
    by_todo :
        (f : ℕ) (s : Walk) (ts : List TwTask)
        → s.todo ≡ ts
        → walk f s ≡ some s1
        → SameClock s.wheel s1.wheel
    by_todo f s [] e r =
        subst (λ (u : Walk). SameClock s.wheel u.wheel)
          (some-injective _ _ (sym (walk_nil f s e) ∙ r)) (refl, refl)
    by_todo zero s (t ∷ rest) e r = absurd (some-ne-none _ (sym r ∙ walk-none s t rest e))
    by_todo (suc f) s (t ∷ rest) e r =
        SameClock-trans s.wheel (visit s t rest).wheel s1.wheel (visit-SameClock s t rest)
          (by_todo f (visit s t rest) (visit s t rest).todo refl (sym (walk_cons f s t rest e) ∙ r))

pub update-SameClock :
    (fuel : ℕ) (a : TimeWheel) (r : TimeWheel × List TwTask)
    → update fuel a ≡ some r
    → SameClock a (r.0)
unfolding update ended turned start_walk
update-SameClock fuel a r q = elim (Option-cases (walk fuel (start_walk a))) [
  | inl e ↦ absurd (some-ne-none _ (sym q ∙ ap ended e))
  | inr (s, e) ↦
      subst (λ (p : TimeWheel × List TwTask). SameClock a (p.0))
        (some-injective _ _ (sym (ap ended e) ∙ q)) (walk-SameClock fuel (start_walk a) s e)
]
