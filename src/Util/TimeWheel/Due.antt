-- ===== src/Util/TimeWheel/Due.antt =====
-- When a task of util/timewheel.go is called: the updates that its slot and its circles leave.
use rocommon.Prelude.{
  ℕ, zero, suc, ◌+◌, ◌-◌, ◌*◌, ◌<◌, List, [], ◌∷◌, ◌++◌, some, true, false, ◌≡◌, ◌≢◌, ◌⊎◌, inl, inr,
  refl, ap, ◌∙◌, sym, arith, leb, if◌then◌else◌, Bool-cases, Option-cases, ==_iff, ◌==◌,
}
use mathlib.Core.Path.{subst}
use mathlib.Core.Option.{some-injective, some-ne-none}
use rocommon.Text.Digits.{All-mono}
use rocommon.Util.TimeWheel.{
  TwTask, TimeWheel, replaced, Walk, with_circle, visit, walk, turned, start_walk, update, ended,
}
use rocommon.Util.TimeWheel.Steps.{walk_nil, walk-none, walk_cons}
use rocommon.Util.TimeWheel.Keys.{Only, Has, Only-Has, Has-append_left}
use rocommon.Util.TimeWheel.Waiting.{distance, Waiting, There}
use rocommon.Util.TimeWheel.Reached.{Reached, with_circle-Reached, with_key_fired}
use rocommon.Util.TimeWheel.PutBack.{replaced_at, replaced_off}

visit_fired :
    (k c : ℕ) (s : Walk) (t : TwTask) (rest : List TwTask)
    → Has k s.fired
    → Has k (with_circle c s t rest).fired
unfolding with_circle
visit_fired k zero s t rest h =
    subst (λ ts. Has k ts)
      (sym (with_key_fired k 0 0 0 t.key (record s { fired = s.fired ++ t ∷ [] }) t rest))
      (Has-append_left k s.fired (t ∷ []) h)
visit_fired k (suc c) s t rest h = h

module _ (k n cur m : ℕ) where
  visit-Reached :
      (s : Walk) (t : TwTask) (rest : List TwTask)
      → s.todo ≡ t ∷ rest
      → Reached k n cur m s
      → Reached k n cur m (visit s t rest)
  unfolding visit
  visit-Reached s t rest e (inl (z, h)) = inl (z, visit_fired k t.circle s t rest h)
  visit-Reached s t rest e (inr w) = with_circle-Reached k n cur m t.circle s t rest refl e w

  walk-Reached :
      (f : ℕ) (s s1 : Walk) (ts : List TwTask)
      → s.todo ≡ ts
      → Reached k n cur m s
      → walk f s ≡ some s1
      → Reached k n cur m s1 × (s1.todo ≡ [])
  walk-Reached f s s1 [] e h r =
      let q : s ≡ s1 = some-injective _ _ (sym (walk_nil f s e) ∙ r) in
      (subst (λ (u : Walk). Reached k n cur m u) q h, ap (λ (u : Walk). u.todo) (sym q) ∙ e)
  walk-Reached zero s s1 (t ∷ rest) e h r = absurd (some-ne-none _ (sym r ∙ walk-none s t rest e))
  walk-Reached (suc f) s s1 (t ∷ rest) e h r =
      walk-Reached f (visit s t rest) s1 (visit s t rest).todo refl (visit-Reached s t rest e h)
        (sym (walk_cons f s t rest e) ∙ r)

-- The tasks under `k` of a wheel are called by the update after `m` further ones, and there is one.
pub record IsDue (a : TimeWheel) (k m : ℕ) : Type 0 where
  pub in_range : a.current_idx < a.slot_num
  pub due_after :
      (i : ℕ)
      → i < a.slot_num
      → Only k (λ t. distance a.slot_num a.current_idx i + t.circle * a.slot_num ≡ m) (a.slots i)
  pub is_in : (i : ℕ) × (i < a.slot_num) × Has k (a.slots i)

none_less : (d c m : ℕ) → d ≡ 0 → d + c ≡ m → c ≡ m
none_less d c m p q = omega arith

distance_self : (n i : ℕ) → distance n i i ≡ 0
distance_self n i = ground arith

Waiting-start_walk :
    (a : TimeWheel) (k m : ℕ) → IsDue a k m → Waiting k a.slot_num a.current_idx m (start_walk a)
unfolding start_walk
Waiting-start_walk a k m d = record {
  current = refl;
  slots_of = refl;
  other_slots = λ i l x. d.due_after i l;
  kept_tasks = tt;
  todo_tasks =
      All-mono _ _ (λ t h e. none_less _ _ _ (distance_self a.slot_num a.current_idx) (h e)) _
        (d.due_after a.current_idx d.in_range);
  not_fired = λ h. h;
  is_there = there d.is_in;
}
  where
    there :
        (i : ℕ) × (i < a.slot_num) × Has k (a.slots i)
        → There k a.slot_num a.current_idx m a.slots [] (a.slots a.current_idx)
    there (i, l, h) = elim (Bool-cases (i == a.current_idx)) [
      | inl b ↦ inr (inr (subst (λ j. Has k (a.slots j)) ((==_iff i a.current_idx).0 b) h))
      | inr b ↦ inl (i, l, λ e. ground arith, h)
    ]

-- At the end of a walk.
Waiting-zero : (k n cur : ℕ) (s : Walk) → cur < n → s.todo ≡ [] → Waiting k n cur 0 s → ⊥
Waiting-zero k n cur s l e w = go w.is_there
  where
    go : There k n cur 0 s.wheel.slots s.kept s.todo → ⊥
    go (inl (i, li, x, h)) =
        let (t, q) = Only-Has k _ (s.wheel.slots i) (w.other_slots i li x) h in ground (arith, q, x)
    go (inr (inl h)) = let (t, q) = Only-Has k _ s.kept w.kept_tasks h in omega arith
    go (inr (inr h)) = subst (λ ts. Has k ts) e h

-- The slot after `cur`.
abbrev next : ℕ → ℕ → ℕ
next n cur = if leb (n - 1) cur then 0 else suc cur

next_range : (n cur : ℕ) → cur < n → next n cur < n
next_range n cur l = ground arith

distance-next_same : (n cur : ℕ) → cur < n → suc (distance n (next n cur) cur) ≡ n
distance-next_same n cur l = ground arith

distance-next :
    (n cur i : ℕ) → cur < n → i < n → i ≢ cur → suc (distance n (next n cur) i) ≡ distance n cur i
distance-next n cur i l li x = ground arith

one_less : (d e c m : ℕ) → suc d ≡ e → e + c ≡ suc m → d + c ≡ m
one_less d e c m p q = omega arith

IsDue-turned :
    (k m : ℕ) (s : Walk)
    → s.wheel.current_idx < s.wheel.slot_num
    → s.todo ≡ []
    → Waiting k s.wheel.slot_num s.wheel.current_idx (suc m) s
    → IsDue (turned s) k m
unfolding turned
IsDue-turned k m s l e w = record {
  in_range = next_range s.wheel.slot_num s.wheel.current_idx l;
  due_after = λ i li. due i li (Bool-cases (i == s.wheel.current_idx));
  is_in = there w.is_there;
}
  where
    After : ℕ → List TwTask → Type 0
    After i ts =
        Only k
          (λ t.
            distance s.wheel.slot_num (next s.wheel.slot_num s.wheel.current_idx) i
              + t.circle * s.wheel.slot_num
            ≡ m)
          ts

    in_slot :
        (i : ℕ)
        → i ≡ s.wheel.current_idx
        → After i (replaced s.wheel.current_idx s.kept s.wheel.slots i)
    in_slot i q =
        subst (λ j. After j (replaced s.wheel.current_idx s.kept s.wheel.slots j)) (sym q)
          (subst (After s.wheel.current_idx)
            (sym (replaced_at s.wheel.current_idx s.kept s.wheel.slots))
            (All-mono _ _
              (λ t h y.
                one_less _ _ _ _ (distance-next_same s.wheel.slot_num s.wheel.current_idx l) (h y))
              _ w.kept_tasks))

    off_slot :
        (i : ℕ)
        → i < s.wheel.slot_num
        → i ≢ s.wheel.current_idx
        → After i (replaced s.wheel.current_idx s.kept s.wheel.slots i)
    off_slot i li x =
        subst (After i) (sym (replaced_off s.wheel.current_idx i s.kept s.wheel.slots x)) (
          All-mono _ _
            (λ t h y.
              one_less _ _ _ _ (distance-next s.wheel.slot_num s.wheel.current_idx i l li x) (h y))
            _ (w.other_slots i li x))

    due :
        (i : ℕ)
        → i < s.wheel.slot_num
        → ((i == s.wheel.current_idx) ≡ true) ⊎ ((i == s.wheel.current_idx) ≡ false)
        → After i (replaced s.wheel.current_idx s.kept s.wheel.slots i)
    due i li (inl b) = in_slot i ((==_iff i s.wheel.current_idx).0 b)
    due i li (inr b) = off_slot i li (λ e. ground arith)

    there :
        There k s.wheel.slot_num s.wheel.current_idx (suc m) s.wheel.slots s.kept s.todo
        → (i : ℕ) × (i < s.wheel.slot_num)
          × Has k (replaced s.wheel.current_idx s.kept s.wheel.slots i)
    there (inl (i, li, x, h)) = (
      i,
      li,
      subst (λ ts. Has k ts) (sym (replaced_off s.wheel.current_idx i s.kept s.wheel.slots x)) h,
    )
    there (inr (inl h)) = (
      s.wheel.current_idx,
      l,
      subst (λ ts. Has k ts) (sym (replaced_at s.wheel.current_idx s.kept s.wheel.slots)) h,
    )
    there (inr (inr h)) = absurd (subst (λ ts. Has k ts) e h)

-- What an update gives, for a task that is due later and for one that is due.
abbrev pub After : (a : TimeWheel) (k m : ℕ) → TimeWheel × List TwTask → Type 0
After a k zero r = Has k (r.1)
After a k (suc m) r = IsDue (r.0) k m × (Has k (r.1) → ⊥)

After-ended :
    (a : TimeWheel) (k m : ℕ) (s : Walk)
    → a.current_idx < a.slot_num
    → Reached k a.slot_num a.current_idx m s
    → s.todo ≡ []
    → After a k m (turned s, s.fired)
After-ended a k zero s l (inl (z, h)) e = h
After-ended a k zero s l (inr w) e = absurd (Waiting-zero k a.slot_num a.current_idx s l e w)
After-ended a k (suc m) s l (inl (z, h)) e = absurd (omega arith)
After-ended a k (suc m) s l (inr w) e = (IsDue-turned k m s in_wheel e at_wheel, w.not_fired)
  where
    in_wheel : s.wheel.current_idx < s.wheel.slot_num
    in_wheel = ground (arith, w.current, w.slots_of)

    at_wheel : Waiting k s.wheel.slot_num s.wheel.current_idx (suc m) s
    at_wheel =
        subst (λ c. Waiting k s.wheel.slot_num c (suc m) s) (sym w.current)
          (subst (λ n. Waiting k n a.current_idx (suc m) s) (sym w.slots_of) w)

pub update-After :
    (fuel k m : ℕ) (a : TimeWheel) (r : TimeWheel × List TwTask)
    → IsDue a k m
    → update fuel a ≡ some r
    → After a k m r
unfolding update ended
update-After fuel k m a r d q = elim (Option-cases (walk fuel (start_walk a))) [
  | inl e ↦ absurd (some-ne-none _ (sym q ∙ ap ended e))
  | inr (s, e) ↦
      let (h, done) =
        walk-Reached k a.slot_num a.current_idx m fuel (start_walk a) s (a.slots a.current_idx) refl
          (inr (Waiting-start_walk a k m d)) e in
      subst (After a k m) (some-injective _ _ (sym (ap ended e) ∙ q))
        (After-ended a k m s d.in_range h done)
]
