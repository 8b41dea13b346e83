-- ===== src/Util/TimeWheel/Lighter.antt =====
-- A repeated task that util/timewheel.go puts back into the slot in which `update` is has a circle left,
-- where its delay is an interval at least.
use rocommon.Prelude.{
  ℕ, ◌+◌, ◌*◌, ◌/◌, ◌%◌, ◌<◌, ◌≤◌, List, [], ◌∷◌, ◌++◌, Option, none, some, true, false, ◌≡◌, ◌⊎◌,
  inl, inr, refl, ap, ◌∙◌, sym, arith, All, if◌then◌else◌, if_holds, ==_iff, ◌==◌, ==_ne, length,
  drop, append_assoc,
}
use mathlib.Core.Path.{subst}
use native.Mathlib.Nat.{mod-add-div', zero-mul}
use rocommon.Text.Digits.{All-append}
use rocommon.Util.TimeWheel.{
  TwTask, TimeWheel, Walk, add_task, push_back, unless_used, find_timer, get_idx_and_circle,
  replaced, again,
}
use rocommon.Util.TimeWheel.Keys.{add_task-Alike, Alike, with_timer_slots, drop-append}
use rocommon.Util.TimeWheel.Waiting.{distance}
use rocommon.Util.TimeWheel.PutBack.{replaced_at}
use rocommon.Util.TimeWheel.Delay.{distance-mod}
use rocommon.Util.TimeWheel.Called.{turns_more}

-- How often the loop can still meet a task of a list.
abbrev pub weight : List TwTask → ℕ
weight [] = 0
weight (t ∷ ts) = (if t.circle == 0 then 2 else 1) + weight ts

weight-append : (xs ys : List TwTask) → weight (xs ++ ys) ≡ weight xs + weight ys
weight-append [] ys = omega arith
weight-append (x ∷ xs) ys = let h = weight-append xs ys in omega arith

-- A task that is repeated after an interval at least.
abbrev pub IsCalm : ℕ → TwTask → Type 0
IsCalm interval t = t.repeated ≡ true → interval ≤ t.delay

circles_left : (n cur q : ℕ) → cur < n → 0 < q → (cur + q) % n ≡ cur → (q / n == 0) ≡ false
circles_left n cur q l p e = ==_ne (q / n) 0 (λ z.
    let d : q % n ≡ 0 =
      sym (distance-mod n cur q l) ∙ ap (distance n cur) e ∙ distance_here n cur in
    let s = mod-add-div' q n in
    let z1 : q / n * n ≡ 0 = ap (λ c. c * n) z ∙ zero-mul n in omega arith)
  where
    distance_here : (n i : ℕ) → distance n i i ≡ 0
    distance_here n i = ground arith

-- The slot in which `update` is, after a task was put back.
abbrev Here : TwTask → TimeWheel → List TwTask → Type 0
Here task a us =
    let q = task.delay / a.interval in
    (us ≡ a.slots a.current_idx)
    ⊎ ((us ≡ a.slots a.current_idx ++ record task { circle = q / a.slot_num } ∷ [])
        × ((a.current_idx + q) % a.slot_num ≡ a.current_idx))

Here-push_back :
    (task : TwTask) (a : TimeWheel) → Here task a ((push_back task a).slots a.current_idx)
unfolding push_back get_idx_and_circle replaced
Here-push_back task a =
    let idx = (a.current_idx + task.delay / a.interval) % a.slot_num in
    let t = record task { circle = task.delay / a.interval / a.slot_num } in
    subst (λ ss. Here task a (ss a.current_idx))
      (sym (
        with_timer_slots task.key (some idx)
          (record a { slots = replaced idx (a.slots idx ++ t ∷ []) a.slots })))
      (if_holds (Here task a) (a.current_idx == idx)
        (λ e.
          let q = sym ((==_iff a.current_idx idx).0 e) in inr (ap (λ j. a.slots j ++ t ∷ []) q, q))
        (λ e. inl refl))

Here-unless_used :
    (used : Option ℕ) (task : TwTask) (a : TimeWheel)
    → Here task a ((unless_used used task a).1.slots a.current_idx)
unfolding unless_used
Here-unless_used (some idx) task a = inl refl
Here-unless_used none task a = Here-push_back task a

-- One turn of the loop makes what is left to do lighter and keeps the place and the interval.
abbrev pub Lighter : Walk → ℕ → Walk → Type 0
Lighter s w t = Alike s.wheel t.wheel × (weight t.todo < w) × All (IsCalm s.wheel.interval) t.todo

Lighter-todo :
    (interval c : ℕ) (task : TwTask) (kept rest us : List TwTask)
    → IsCalm interval task
    → All (IsCalm interval) rest
    → (us ≡ kept ++ rest)
      ⊎ ((us ≡ (kept ++ rest) ++ record task { circle = c } ∷ []) × ((c == 0) ≡ false))
    → (weight (drop (length kept) us) < 2 + weight rest)
      × All (IsCalm interval) (drop (length kept) us)
Lighter-todo interval c task kept rest us i h (inl e) =
    subst (λ ts. (weight ts < 2 + weight rest) × All (IsCalm interval) ts)
      (sym (ap (drop (length kept)) e ∙ drop-append kept rest)) (omega arith, h)
Lighter-todo interval c task kept rest us i h (inr (e, z)) =
    let next = record task { circle = c } ∷ [] in
    let w : weight next ≡ 1 = ap (λ b. (if b then 2 else 1) + 0) z in
    let sum = weight-append rest next in
    subst (λ ts. (weight ts < 2 + weight rest) × All (IsCalm interval) ts)
      (sym (
        ap (drop (length kept)) (e ∙ append_assoc kept rest next)
        ∙ drop-append kept (rest ++ next)))
      (
        subst (λ v. v < 2 + weight rest) (sym (sum ∙ ap (λ v. weight rest + v) w)) (omega arith),
        All-append (IsCalm interval) rest next h (i, tt),
      )

-- The slot after a task of a delay of an interval at least was put back: the task has a circle left.
abbrev Refilled : TwTask → List TwTask → ℕ → List TwTask → Type 0
Refilled task ts c us =
    (us ≡ ts) ⊎ ((us ≡ ts ++ record task { circle = c } ∷ []) × ((c == 0) ≡ false))

Here-Refilled :
    (task : TwTask) (ts us : List TwTask) (a : TimeWheel)
    → a.current_idx < a.slot_num
    → 0 < a.interval
    → a.interval ≤ task.delay
    → a.slots a.current_idx ≡ ts
    → Here task a us
    → Refilled task ts (task.delay / a.interval / a.slot_num) us
Here-Refilled task ts us a l p d e (inl h) = inl (h ∙ e)
Here-Refilled task ts us a l p d e (inr (h, z)) =
    let q = turns_more task.delay a.interval p d in
    inr (
      h ∙ ap (λ vs. vs ++ record task { circle = task.delay / a.interval / a.slot_num } ∷ []) e,
      circles_left a.slot_num a.current_idx (task.delay / a.interval) l (omega arith) z,
    )

Refilled-put_back :
    (task : TwTask) (ts : List TwTask) (w : TimeWheel)
    → w.current_idx < w.slot_num
    → 0 < w.interval
    → w.interval ≤ task.delay
    → let b = (add_task task (record w { slots = replaced w.current_idx ts w.slots })).1 in
      Refilled task ts (task.delay / w.interval / w.slot_num) (b.slots b.current_idx)
unfolding add_task
Refilled-put_back task ts w l p d =
    let a = record w { slots = replaced w.current_idx ts w.slots } in
    subst
      (λ i. Refilled task ts (task.delay / w.interval / w.slot_num) ((add_task task a).1.slots i))
      (sym ((add_task-Alike task a).0))
      (Here-Refilled task ts _ a l p d (replaced_at w.current_idx ts w.slots)
        (Here-unless_used (find_timer a task.key) task a))

pub again-Lighter :
    (s : Walk) (task : TwTask) (rest : List TwTask)
    → s.wheel.current_idx < s.wheel.slot_num
    → 0 < s.wheel.interval
    → s.wheel.interval ≤ task.delay
    → All (IsCalm s.wheel.interval) rest
    → Lighter s (2 + weight rest) (again s task rest)
unfolding again
again-Lighter s task [] l p d h = (
  add_task-Alike task
      (record s.wheel { slots = replaced s.wheel.current_idx s.kept s.wheel.slots }),
  omega arith,
  tt,
)
again-Lighter s task (r ∷ rest) l p d h =
    let a = record s.wheel {
      slots = replaced s.wheel.current_idx (s.kept ++ r ∷ rest) s.wheel.slots;
    } in
    let alike = add_task-Alike task a in
    let (light, calm) =
      Lighter-todo s.wheel.interval (task.delay / s.wheel.interval / s.wheel.slot_num) task s.kept
        (r ∷ rest) ((add_task task a).1.slots (add_task task a).1.current_idx) (λ b. d) h
        (Refilled-put_back task (s.kept ++ r ∷ rest) s.wheel l p d) in
    (alike, light, calm)
