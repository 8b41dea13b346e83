-- ===== src/Util/TimeWheel/Delay.antt =====
-- The delay of a task that AddTask of util/timewheel.go takes in.
use rocommon.Prelude.{
  ℕ, ◌+◌, ◌-◌, ◌*◌, ◌/◌, ◌%◌, ◌<◌, ◌≤◌, List, [], ◌∷◌, ◌++◌, Option, none, some, false, ◌≡◌, ◌≢◌,
  ◌↔◌, inl, inr, refl, ap, ◌∙◌, sym, arith, ltb, Bool-cases, ==_iff, ◌==◌, ==_ne,
}
use mathlib.Core.Path.{subst}
use native.Mathlib.Nat.{add-mod-mod, mod-eq_of_lt, mod-eq-sub-mod, mod-add-div', mod-lt}
use rocommon.Util.TimeWheel.{
  TwTask, TimeWheel, update_loop, update_to, add_task, push_back, unless_used, find_timer,
  get_idx_and_circle, replaced, with_timer,
}
use rocommon.Util.TimeWheel.Keys.{Only, Has, Has-append_right, Only-append, add_task-Alike}
use rocommon.Util.TimeWheel.Waiting.{distance}
use rocommon.Util.TimeWheel.PutBack.{replaced_at, replaced_off}
use rocommon.Util.TimeWheel.Due.{IsDue}
use rocommon.Util.TimeWheel.Called.{loop-Runs}

distance-mod_near : (n cur r : ℕ) → cur + r < n → distance n cur ((cur + r) % n) ≡ r
distance-mod_near n cur r l = ap (distance n cur) (mod-eq_of_lt l) ∙ ground arith

distance-mod_far :
    (n cur r : ℕ) → cur < n → r < n → n ≤ cur + r → distance n cur ((cur + r) % n) ≡ r
distance-mod_far n cur r lc lr l =
    let q : cur + r - n < n = omega arith in
    ap (distance n cur) (mod-eq-sub-mod l ∙ mod-eq_of_lt q) ∙ ground arith

pub above : (a b : ℕ) → a < b → 0 < b
above a b l = omega arith

pub distance-mod : (n cur q : ℕ) → cur < n → distance n cur ((cur + q) % n) ≡ q % n
distance-mod n cur q lc =
    ap (distance n cur) (sym (add-mod-mod cur q n)) ∙ elim (Bool-cases (ltb (cur + q % n) n)) [
      | inl b ↦ distance-mod_near n cur (q % n) (ground arith)
      | inr b ↦ distance-mod_far n cur (q % n) lc (mod-lt q (above cur n lc)) (ground arith)
    ]

-- The slot and the circles that AddTask gives make up the delay in intervals.
distance-get_idx_and_circle :
    (n cur q : ℕ) → cur < n → distance n cur ((cur + q) % n) + q / n * n ≡ q
distance-get_idx_and_circle n cur q lc =
    ap (λ d. d + q / n * n) (distance-mod n cur q lc) ∙ mod-add-div' q n

Only-none : (k : ℕ) (Q : TwTask → Type 0) (ts : List TwTask) → (Has k ts → ⊥) → Only k Q ts
Only-none k Q [] x = tt
Only-none k Q (t ∷ ts) x = (λ e. absurd (x (inl e)), Only-none k Q ts (λ h. x (inr h)))

-- No task of a wheel is under the key `k`.
abbrev pub Absent : ℕ → TimeWheel → Type 0
Absent k a = (i : ℕ) → i < a.slot_num → Has k (a.slots i) → ⊥

pub add_task-push_back :
    (task : TwTask) (k : ℕ) (a : TimeWheel)
    → task.key ≡ some k
    → a.timer k ≡ none
    → (add_task task a).1 ≡ push_back task a
unfolding add_task unless_used find_timer
add_task-push_back task k a e h = ap (λ o. (unless_used o task a).1) (ap (find_timer a) e ∙ h)

IsDue-with_timer :
    (key o : Option ℕ) (k m : ℕ) (a : TimeWheel) → IsDue a k m → IsDue (with_timer key o a) k m
unfolding with_timer
IsDue-with_timer none o k m a d = d
IsDue-with_timer (some j) o k m a d = record {
  in_range = d.in_range;
  due_after = d.due_after;
  is_in = d.is_in;
}

==_false : (a b : ℕ) → (a == b) ≡ false → a ≢ b
==_false a b h = ground arith

module _ (task : TwTask) (k : ℕ) (a : TimeWheel) (e : task.key ≡ some k)
    (l : a.current_idx < a.slot_num) (x : Absent k a) where
  abbrev place : ℕ
  place = (a.current_idx + task.delay / a.interval) % a.slot_num

  abbrev placed : TwTask
  placed = record task { circle = task.delay / a.interval / a.slot_num }

  abbrev with_task : TimeWheel
  with_task = record a { slots = replaced place (a.slots place ++ placed ∷ []) a.slots }

  abbrev DueIn : ℕ → List TwTask → Type 0
  DueIn i ts =
      Only k
        (λ t. distance a.slot_num a.current_idx i + t.circle * a.slot_num ≡ task.delay / a.interval)
        ts

  DueIn-place : DueIn place (a.slots place ++ placed ∷ [])
  DueIn-place =
      Only-append k _ (a.slots place) (placed ∷ [])
        (Only-none k _ (a.slots place) (x place (mod-lt _ (above a.current_idx a.slot_num l))))
        (λ y. distance-get_idx_and_circle a.slot_num a.current_idx (task.delay / a.interval) l, tt)

  DueIn-slots :
      (i : ℕ) → i < a.slot_num → DueIn i (replaced place (a.slots place ++ placed ∷ []) a.slots i)
  DueIn-slots i li = elim (Bool-cases (i == place)) [
    | inl b ↦
        subst (λ j. DueIn j (replaced place (a.slots place ++ placed ∷ []) a.slots j))
          (sym ((==_iff i place).0 b))
          (subst (DueIn place) (sym (replaced_at place (a.slots place ++ placed ∷ []) a.slots))
            DueIn-place)
    | inr b ↦
        subst (DueIn i)
          (sym (replaced_off place i (a.slots place ++ placed ∷ []) a.slots (==_false i place b)))
          (Only-none k _ (a.slots i) (x i li))
  ]

  IsDue-with_task : IsDue with_task k (task.delay / a.interval)
  IsDue-with_task = record {
    in_range = l;
    due_after = DueIn-slots;
    is_in = (
      place,
      mod-lt _ (above a.current_idx a.slot_num l),
      subst (λ ts. Has k ts) (sym (replaced_at place (a.slots place ++ placed ∷ []) a.slots))
          (Has-append_right k (a.slots place) (placed ∷ []) (inl e)),
    );
  }

  IsDue-push_back : IsDue (push_back task a) k (task.delay / a.interval)
  unfolding push_back get_idx_and_circle
  IsDue-push_back = IsDue-with_timer task.key _ k _ with_task IsDue-with_task

-- After the first call, which sets the time, Update runs its loop.
pub update_to-update_loop :
    (rounds fuel ms : ℕ) (a : TimeWheel)
    → 0 < a.old_ms
    → update_to rounds fuel ms a ≡ update_loop rounds fuel ms a
unfolding update_to
update_to-update_loop rounds fuel ms a o = rw (==_ne a.old_ms 0 (λ e. omega arith)) refl

-- The calls of Update bring a task that AddTask took in, under a key that was free, when as many intervals
-- are over as its delay holds, and one more; at an earlier time it is not called.
pub update_to-add_task :
    (task : TwTask) (k rounds fuel ms : ℕ) (a : TimeWheel) (r : TimeWheel × List TwTask)
    → task.key ≡ some k
    → a.timer k ≡ none
    → Absent k a
    → a.current_idx < a.slot_num
    → 0 < a.interval
    → 0 < a.old_ms
    → a.old_ms ≤ ms
    → update_to rounds fuel ms (add_task task a).1 ≡ some r
    → Has k (r.1) ↔ (task.delay / a.interval < (ms - a.old_ms) / a.interval)
update_to-add_task task k rounds fuel ms a r e h x l p o t q =
    let b = (add_task task a).1 in
    let (c, n, i, old) = add_task-Alike task a in
    let due =
      subst (λ w. IsDue w k (task.delay / a.interval)) (sym (add_task-push_back task k a e h))
        (IsDue-push_back task k a e l x) in
    let (before, after, _) =
      loop-Runs k fuel ms rounds (task.delay / a.interval) b r (subst (λ d. 0 < d) (sym i) p)
        (subst (λ d. d ≤ ms) (sym old) t) due
        (sym (update_to-update_loop rounds fuel ms b (subst (λ d. 0 < d) (sym old) o)) ∙ q) in
    subst (λ j. Has k (r.1) ↔ (task.delay / a.interval < j))
      (ap (λ d. (ms - d) / b.interval) old ∙ ap (λ d. (ms - a.old_ms) / d) i) (before, after)
