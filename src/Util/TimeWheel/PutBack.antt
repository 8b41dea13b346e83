-- ===== src/Util/TimeWheel/PutBack.antt =====
-- The slots of a wheel of util/timewheel.go after a repeated task was put back.
use rocommon.Prelude.{
  ℕ, List, [], ◌∷◌, ◌++◌, ◌≡◌, ◌≢◌, inl, inr, refl, ap, ◌∙◌, sym, length, drop, append_assoc, ==_ne,
  ==_refl,
}
use mathlib.Core.Path.{subst}
use rocommon.Util.TimeWheel.{TwTask, TimeWheel, add_task, replaced}
use rocommon.Util.TimeWheel.Keys.{Added, Added-add_task, add_task-Alike, drop-append}

pub replaced_at {ℓ} : {A : Type ℓ} (i : ℕ) (a : A) (f : ℕ → A) → replaced i a f i ≡ a
unfolding replaced
replaced_at i a f = rw (==_refl i) refl

pub replaced_off {ℓ} : {A : Type ℓ} (i j : ℕ) (a : A) (f : ℕ → A) → j ≢ i → replaced i a f j ≡ f j
unfolding replaced
replaced_off i j a f n = rw (==_ne j i n) refl

-- The wheel in which a repeated task is put back, its slot being `ts`.
abbrev pub put_back : TwTask → List TwTask → TimeWheel → TimeWheel
put_back task ts a = (add_task task (record a { slots = replaced a.current_idx ts a.slots })).1

pub put_back_current :
    (task : TwTask) (ts : List TwTask) (a : TimeWheel)
    → (put_back task ts a).current_idx ≡ a.current_idx
put_back_current task ts a =
    (add_task-Alike task (record a { slots = replaced a.current_idx ts a.slots })).0

pub Added-current :
    (task : TwTask) (ts : List TwTask) (a : TimeWheel)
    → Added task ts ((put_back task ts a).slots (put_back task ts a).current_idx)
Added-current task ts a =
    subst (λ i. Added task ts ((put_back task ts a).slots i)) (sym (put_back_current task ts a))
      (subst (λ us. Added task us ((put_back task ts a).slots a.current_idx))
        (replaced_at a.current_idx ts a.slots)
        (Added-add_task task (record a { slots = replaced a.current_idx ts a.slots })
          a.current_idx))

pub Added-other :
    (task : TwTask) (ts : List TwTask) (a : TimeWheel) (i : ℕ)
    → i ≢ a.current_idx
    → Added task (a.slots i) ((put_back task ts a).slots i)
Added-other task ts a i n =
    subst (λ us. Added task us ((put_back task ts a).slots i))
      (replaced_off a.current_idx i ts a.slots n)
      (Added-add_task task (record a { slots = replaced a.current_idx ts a.slots }) i)

pub Added-drop :
    (task : TwTask) (xs ts us : List TwTask)
    → Added task (xs ++ ts) us
    → Added task ts (drop (length xs) us)
Added-drop task xs ts us (inl e) = inl (ap (drop (length xs)) e ∙ drop-append xs ts)
Added-drop task xs ts us (inr (c, e)) = inr (
  c,
  ap (drop (length xs)) (e ∙ append_assoc xs ts (record task { circle = c } ∷ []))
      ∙ drop-append xs (ts ++ record task { circle = c } ∷ []),
)
