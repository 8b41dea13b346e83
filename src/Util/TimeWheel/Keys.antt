-- ===== src/Util/TimeWheel/Keys.antt =====
-- The tasks of util/timewheel.go that are under one key, in a slot and through AddTask.
use rocommon.Prelude.{
  ==_iff, if_holds, ℕ, List, [], ◌∷◌, ◌++◌, Option, none, some, true, ◌≡◌, ◌≢◌, ◌⊎◌, inl, inr, refl,
  ap, sym, All, length, drop, ◌==◌,
}
use mathlib.Core.Path.{subst}
use rocommon.Text.Digits.{All-append}
use rocommon.Util.TimeWheel.{
  TwTask, TimeWheel, add_task, push_back, get_idx_and_circle, find_timer, unless_used, with_timer,
  replaced,
}

-- Every task of a list under the key `k` satisfies `Q`.
abbrev pub Only : ℕ → (TwTask → Type 0) → List TwTask → Type 0
Only k Q ts = All (λ t. t.key ≡ some k → Q t) ts

-- A task of the list is under the key `k`.
abbrev pub Has : ℕ → List TwTask → Type 0
Has k [] = ⊥
Has k (t ∷ ts) = (t.key ≡ some k) ⊎ Has k ts

pub Only-append :
    (k : ℕ) (Q : TwTask → Type 0) (xs ys : List TwTask)
    → Only k Q xs
    → Only k Q ys
    → Only k Q (xs ++ ys)
Only-append k Q xs ys = All-append (λ t. t.key ≡ some k → Q t) xs ys

pub Has-append_left : (k : ℕ) (xs ys : List TwTask) → Has k xs → Has k (xs ++ ys)
Has-append_left k [] ys h = absurd h
Has-append_left k (x ∷ xs) ys (inl e) = inl e
Has-append_left k (x ∷ xs) ys (inr h) = inr (Has-append_left k xs ys h)

pub Has-append_right : (k : ℕ) (xs ys : List TwTask) → Has k ys → Has k (xs ++ ys)
Has-append_right k [] ys h = h
Has-append_right k (x ∷ xs) ys h = inr (Has-append_right k xs ys h)

pub Only-Has :
    (k : ℕ) (Q : TwTask → Type 0) (ts : List TwTask) → Only k Q ts → Has k ts → (t : TwTask) × Q t
Only-Has k Q [] o h = absurd h
Only-Has k Q (t ∷ ts) o (inl e) = (t, o.0 e)
Only-Has k Q (t ∷ ts) o (inr h) = Only-Has k Q ts (o.1) h

-- What AddTask leaves of a slot: the slot, or the slot with the task behind it.
abbrev pub Added : TwTask → List TwTask → List TwTask → Type 0
Added task ts us = (us ≡ ts) ⊎ ((c : ℕ) × (us ≡ ts ++ record task { circle = c } ∷ []))

pub with_timer_slots : (key idx : Option ℕ) (a : TimeWheel) → (with_timer key idx a).slots ≡ a.slots
unfolding with_timer
with_timer_slots none idx a = refl
with_timer_slots (some k) idx a = refl

-- What AddTask and the walk keep of a wheel.
abbrev pub Alike : TimeWheel → TimeWheel → Type 0
Alike a b =
    (b.current_idx ≡ a.current_idx)
    × (b.slot_num ≡ a.slot_num)
    × (b.interval ≡ a.interval)
    × (b.old_ms ≡ a.old_ms)

pub with_timer-Alike : (key idx : Option ℕ) (a : TimeWheel) → Alike a (with_timer key idx a)
unfolding with_timer
with_timer-Alike none idx a = (refl, refl, refl, refl)
with_timer-Alike (some k) idx a = (refl, refl, refl, refl)

Added-push_back :
    (task : TwTask) (a : TimeWheel) (i : ℕ) → Added task (a.slots i) ((push_back task a).slots i)
unfolding push_back replaced
Added-push_back task a i =
    let (idx, circle) = get_idx_and_circle a task.delay in
    let t = record task { circle = circle } in
    subst (λ ss. Added task (a.slots i) (ss i))
      (sym (
        with_timer_slots task.key (some idx)
          (record a { slots = replaced idx (a.slots idx ++ t ∷ []) a.slots })))
      (if_holds (Added task (a.slots i)) (i == idx)
        (λ (e : (i == idx) ≡ true).
          let q : i ≡ idx = (==_iff i idx).0 e in
          inr (circle, ap (λ j. a.slots j ++ t ∷ []) (sym q)))
        (λ e. inl refl))

Added-unless_used :
    (used : Option ℕ) (task : TwTask) (a : TimeWheel) (i : ℕ)
    → Added task (a.slots i) ((unless_used used task a).1.slots i)
unfolding unless_used
Added-unless_used (some idx) task a i = inl refl
Added-unless_used none task a i = Added-push_back task a i

pub Added-add_task :
    (task : TwTask) (a : TimeWheel) (i : ℕ) → Added task (a.slots i) ((add_task task a).1.slots i)
unfolding add_task
Added-add_task task a i = Added-unless_used (find_timer a task.key) task a i

unless_used-Alike :
    (used : Option ℕ) (task : TwTask) (a : TimeWheel) → Alike a (unless_used used task a).1
unfolding unless_used push_back
unless_used-Alike (some idx) task a = (refl, refl, refl, refl)
unless_used-Alike none task a =
    let (idx, circle) = get_idx_and_circle a task.delay in
    with_timer-Alike task.key (some idx) (record a {
      slots = replaced idx (a.slots idx ++ record task { circle = circle } ∷ []) a.slots;
    })

pub add_task-Alike : (task : TwTask) (a : TimeWheel) → Alike a (add_task task a).1
unfolding add_task
add_task-Alike task a = unless_used-Alike (find_timer a task.key) task a

pub Added-Only :
    (k : ℕ) (Q : TwTask → Type 0) (task : TwTask) (ts us : List TwTask)
    → task.key ≢ some k
    → Added task ts us
    → Only k Q ts
    → Only k Q us
Added-Only k Q task ts us n (inl e) o = subst (λ vs. Only k Q vs) (sym e) o
Added-Only k Q task ts us n (inr (c, e)) o =
    subst (λ vs. Only k Q vs) (sym e)
      (Only-append k Q ts (record task { circle = c } ∷ []) o (λ x. absurd (n x), tt))

pub Added-Has :
    (k : ℕ) (task : TwTask) (ts us : List TwTask) → Added task ts us → Has k ts → Has k us
Added-Has k task ts us (inl e) h = subst (λ vs. Has k vs) (sym e) h
Added-Has k task ts us (inr (c, e)) h =
    subst (λ vs. Has k vs) (sym e) (Has-append_left k ts (record task { circle = c } ∷ []) h)

pub drop-append : (xs ys : List TwTask) → drop (length xs) (xs ++ ys) ≡ ys
drop-append [] ys = refl
drop-append (x ∷ xs) ys = drop-append xs ys
