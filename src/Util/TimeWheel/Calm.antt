-- ===== src/Util/TimeWheel/Calm.antt =====
-- A wheel of util/timewheel.go whose repeated tasks all wait an interval at least, through its updates.
use mathlib.Core.Option.{some-ne-none}
use mathlib.Core.Path.{subst}
use rocommon.Prelude.{
  ℕ, zero, suc, ◌+◌, ◌*◌, ◌<◌, ◌≤◌, List, [], ◌∷◌, ◌++◌, Option, none, some, ◌≡◌, refl, ap, ◌∙◌,
  sym, arith, All, if_holds, ◌==◌, length, drop, ◌/◌, ◌%◌, Option-cases, inl, inr,
}
use rocommon.Text.Digits.{All-append}
use rocommon.Util.TimeWheel.{
  TwTask, TimeWheel, Walk, replaced, with_timer, add_task, unless_used, push_back, find_timer,
  get_idx_and_circle, again, with_key, with_circle, visit, walk, update, ended, start_walk, turned,
}
use rocommon.Util.TimeWheel.Keys.{Alike, with_timer_slots}
use rocommon.Util.TimeWheel.Steps.{walk_nil, walk_cons, walk-none}
use rocommon.Util.TimeWheel.Lighter.{weight, IsCalm}
use rocommon.Util.TimeWheel.Ends.{visit-Lighter, Alike-range, weight_bound}

abbrev pub IsCalmWheel : ℕ → TimeWheel → Type 0
IsCalmWheel d a = (i : ℕ) → All (IsCalm d) (a.slots i)

All-drop : (d n : ℕ) (ts : List TwTask) → All (IsCalm d) ts → All (IsCalm d) (drop n ts)
All-drop d zero ts h = h
All-drop d (suc n) [] h = tt
All-drop d (suc n) (t ∷ ts) h = All-drop d n ts (h.1)

replaced-Calm :
    (d i : ℕ) (ts : List TwTask) (slots : ℕ → List TwTask)
    → All (IsCalm d) ts
    → ((j : ℕ) → All (IsCalm d) (slots j))
    → (j : ℕ) → All (IsCalm d) (replaced i ts slots j)
unfolding replaced
replaced-Calm d i ts slots h hs j = if_holds (All (IsCalm d)) (j == i) (λ e. h) (λ e. hs j)

pub push_back-Calm :
    (d : ℕ) (task : TwTask) (a : TimeWheel)
    → IsCalm d task
    → IsCalmWheel d a
    → IsCalmWheel d (push_back task a)
unfolding push_back get_idx_and_circle
push_back-Calm d task a h hs =
    let idx = (a.current_idx + task.delay / a.interval) % a.slot_num in
    let t = record task { circle = task.delay / a.interval / a.slot_num } in
    subst (λ ss. (j : ℕ) → All (IsCalm d) (ss j))
      (sym (
        with_timer_slots task.key (some idx)
          (record a { slots = replaced idx (a.slots idx ++ t ∷ []) a.slots })))
      (replaced-Calm d idx (a.slots idx ++ t ∷ []) a.slots
        (All-append (IsCalm d) (a.slots idx) (t ∷ []) (hs idx) (h, tt)) hs)

unless_used-Calm :
    (d : ℕ) (used : Option ℕ) (task : TwTask) (a : TimeWheel)
    → IsCalm d task
    → IsCalmWheel d a
    → IsCalmWheel d (unless_used used task a).1
unfolding unless_used
unless_used-Calm d (some idx) task a h hs = hs
unless_used-Calm d none task a h hs = push_back-Calm d task a h hs

pub add_task-Calm :
    (d : ℕ) (task : TwTask) (a : TimeWheel)
    → IsCalm d task
    → IsCalmWheel d a
    → IsCalmWheel d (add_task task a).1
unfolding add_task
add_task-Calm d task a h hs = unless_used-Calm d (find_timer a task.key) task a h hs

-- The same of a walk, with the tasks that stay and those to come.
abbrev IsCalmWalk : ℕ → Walk → Type 0
IsCalmWalk d s = IsCalmWheel d s.wheel × All (IsCalm d) s.kept × All (IsCalm d) s.todo

again-Calm :
    (d : ℕ) (s : Walk) (task : TwTask) (rest : List TwTask)
    → IsCalm d task
    → IsCalmWheel d s.wheel
    → All (IsCalm d) s.kept
    → All (IsCalm d) rest
    → IsCalmWalk d (again s task rest)
unfolding again
again-Calm d s task [] t w k r =
    let b =
      add_task-Calm d task
        (record s.wheel { slots = replaced s.wheel.current_idx s.kept s.wheel.slots }) t
        (replaced-Calm d s.wheel.current_idx s.kept s.wheel.slots k w) in
    (b, b _, tt)
again-Calm d s task (u ∷ rest) t w k r =
    let ts = s.kept ++ u ∷ rest in
    let b =
      add_task-Calm d task
        (record s.wheel { slots = replaced s.wheel.current_idx ts s.wheel.slots }) t
        (replaced-Calm d s.wheel.current_idx ts s.wheel.slots
          (All-append (IsCalm d) s.kept (u ∷ rest) k r) w) in
    (b, k, All-drop d (length s.kept) _ (b _))

with_key-Calm :
    (d : ℕ) (key : Option ℕ) (s : Walk) (task : TwTask) (rest : List TwTask)
    → IsCalm d task
    → IsCalmWheel d s.wheel
    → All (IsCalm d) s.kept
    → All (IsCalm d) rest
    → IsCalmWalk d (with_key key s task rest)
unfolding with_key with_timer
with_key-Calm d none s task rest t w k r =
    (w, All-append (IsCalm d) s.kept (task ∷ []) k (t, tt), r)
with_key-Calm d (some j) s task rest t w k r =
    let v = record s {
      wheel = record s.wheel { timer = replaced j none s.wheel.timer };
      todo = rest;
    } in
    if_holds (IsCalmWalk d) task.repeated (λ b. again-Calm d v task rest t w k r) (λ b. (w, k, r))

visit-Calm :
    (d : ℕ) (s : Walk) (task : TwTask) (rest : List TwTask)
    → IsCalm d task
    → IsCalmWheel d s.wheel
    → All (IsCalm d) s.kept
    → All (IsCalm d) rest
    → IsCalmWalk d (visit s task rest)
unfolding visit with_circle
visit-Calm d s task rest t w k r = by_circle task.circle
  where
    by_circle : (c : ℕ) → IsCalmWalk d (with_circle c s task rest)
    by_circle zero =
        with_key-Calm d task.key (record s { fired = s.fired ++ task ∷ [] }) task rest t w k r
    by_circle (suc c) =
        (w, All-append (IsCalm d) s.kept (record task { circle = c } ∷ []) k (t, tt), r)

Alike-trans : (a b c : TimeWheel) → Alike a b → Alike b c → Alike a c
Alike-trans a b c (p, q, r, s) (t, u, v, w) = (t ∙ p, u ∙ q, v ∙ r, w ∙ s)

-- What a walk comes to within `f` visits.
walk-IsCalm :
    (d f : ℕ) (s : Walk) (ts : List TwTask)
    → s.todo ≡ ts
    → s.wheel.current_idx < s.wheel.slot_num
    → 0 < s.wheel.interval
    → d ≡ s.wheel.interval
    → IsCalmWalk d s
    → weight ts ≤ f
    → (r : Walk) × (walk f s ≡ some r)
      × Alike s.wheel r.wheel
      × IsCalmWheel d r.wheel
      × All (IsCalm d) r.kept
walk-IsCalm d f s [] e l p q (w, k, t) h = (s, walk_nil f s e, (refl, refl, refl, refl), w, k)
walk-IsCalm d zero s (t ∷ rest) e l p q c h = absurd (ground arith)
walk-IsCalm d (suc f) s (t ∷ rest) e l p q (w, k, c) h =
    let v = visit s t rest in
    let now = subst (All (IsCalm d)) e c in
    let (alike, lighter, _) =
      visit-Lighter s t rest l p (subst (λ i. All (IsCalm i) (t ∷ rest)) q now) in
    let i = sym (alike.2) in
    let (r, g, a, w1, k1) =
      walk-IsCalm d f v v.todo refl (Alike-range s.wheel v.wheel alike l) (subst (λ j. 0 < j) i p)
        (q ∙ i) (visit-Calm d s t rest (now.0) w k (now.1)) (omega arith) in
    (r, walk_cons f s t rest e ∙ g, Alike-trans s.wheel v.wheel r.wheel alike a, w1, k1)

-- An update of a calm wheel ends, in a calm wheel of the same interval and time.
pub update_calm :
    (fuel : ℕ) (a : TimeWheel)
    → a.current_idx < a.slot_num
    → 0 < a.interval
    → IsCalmWheel a.interval a
    → 2 * length (a.slots a.current_idx) ≤ fuel
    → (r : TimeWheel × List TwTask) × (update fuel a ≡ some r)
      × IsCalmWheel a.interval (r.0)
      × (r.0.current_idx < r.0.slot_num)
      × (r.0.interval ≡ a.interval)
      × (r.0.old_ms ≡ a.old_ms)
unfolding update ended start_walk turned
update_calm fuel a l p c f =
    let (s, q, alike, w, k) =
      walk-IsCalm a.interval fuel (start_walk a) (a.slots a.current_idx) refl l p refl
        (c, tt, c a.current_idx) (let b = weight_bound (a.slots a.current_idx) in omega arith) in
    (
      (turned s, s.fired),
      ap ended q,
      replaced-Calm a.interval s.wheel.current_idx s.kept s.wheel.slots k w,
      ground (arith, l, alike),
      alike.2,
      alike.3,
    )

-- More visits than needed change nothing.
walk_more :
    (f n : ℕ) (s r : Walk) (ts : List TwTask)
    → s.todo ≡ ts
    → walk f s ≡ some r
    → walk (f + n) s ≡ some r
walk_more f n s r [] e h = walk_nil (f + n) s e ∙ sym (walk_nil f s e) ∙ h
walk_more zero n s r (t ∷ ts) e h = absurd (ground (arith, walk-none s t ts e, h))
walk_more (suc f) n s r (t ∷ ts) e h =
    let v = visit s t ts in
    ap (λ m. walk m s) (omega arith)
    ∙ walk_cons (f + n) s t ts e
    ∙ walk_more f n v r v.todo refl (sym (walk_cons f s t ts e) ∙ h)

pub update_more :
    (f n : ℕ) (a : TimeWheel) (r : TimeWheel × List TwTask)
    → update f a ≡ some r
    → update (f + n) a ≡ some r
unfolding update ended
update_more f n a r h = elim (Option-cases (walk f (start_walk a))) [
  | inl none_left ↦ absurd (some-ne-none _ (sym h ∙ ap ended none_left))
  | inr (s, e) ↦
      ap ended (walk_more f n (start_walk a) s (start_walk a).todo refl e) ∙ sym (ap ended e) ∙ h
]
