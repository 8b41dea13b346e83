-- ===== src/Util/TimeWheel/Steps.antt =====
-- The loop of `update` in util/timewheel.go, step by step.
use rocommon.Prelude.{ℕ, zero, suc, List, [], ◌∷◌, none, some, ◌≡◌, refl}
use rocommon.Util.TimeWheel.{TwTask, Walk, visit, walk}

pub walk_nil : (f : ℕ) (s : Walk) → s.todo ≡ [] → walk f s ≡ some s
unfolding walk
walk_nil zero s e = rw e refl
walk_nil (suc f) s e = rw e refl

pub walk-none :
    (s : Walk) (t : TwTask) (rest : List TwTask) → s.todo ≡ t ∷ rest → walk zero s ≡ none
unfolding walk
walk-none s t rest e = rw e refl

pub walk_cons :
    (f : ℕ) (s : Walk) (t : TwTask) (rest : List TwTask)
    → s.todo ≡ t ∷ rest
    → walk (suc f) s ≡ walk f (visit s t rest)
unfolding walk
walk_cons f s t rest e = rw e refl
