-- ===== src/Util/TimeWheel/Endless.antt =====
-- The loop of `update` in util/timewheel.go does not end on two repeated tasks of a delay below the
-- interval.
use rocommon.Prelude.{
  ℕ, zero, suc, ◌+◌, ◌/◌, ◌%◌, ◌<◌, List, [], ◌∷◌, ◌++◌, Option, none, some, Bool, true, ◌≡◌, refl,
  ap, ◌∙◌, sym, arith, All, if◌then◌else◌, length, drop, append_assoc,
}
use mathlib.Core.Path.{subst}
use mathlib.Core.Option.{some-ne-none}
use native.Mathlib.Nat.{div-eq_of_lt, mod-eq_of_lt}
use rocommon.Text.Digits.{All-append}
use rocommon.Util.TimeWheel.{
  TwTask, TimeWheel, Walk, add_task, push_back, get_idx_and_circle, replaced, with_timer, again,
  with_key, with_circle, visit, walk, update, ended, start_walk,
}
use rocommon.Util.TimeWheel.Keys.{add_task-Alike, with_timer_slots, drop-append}
use rocommon.Util.TimeWheel.Steps.{walk_cons, walk-none}
use rocommon.Util.TimeWheel.PutBack.{replaced_at}
use rocommon.Util.TimeWheel.Delay.{add_task-push_back, above}
use rocommon.Util.TimeWheel.Called.{turns_none}

-- A repeated task of a delay below the interval, whose turn it is.
pub record IsRestless (interval : ℕ) (t : TwTask) : Type 0 where
  pub at_once : t.circle ≡ 0
  pub is_repeated : t.repeated ≡ true
  pub has_key : (k : ℕ) × (t.key ≡ some k)
  pub short : t.delay < interval

abbrev first_circle : TwTask → TwTask
first_circle t = record t { circle = 0 }

pushed_at :
    (task : TwTask) (a : TimeWheel) (q : ℕ)
    → a.current_idx < a.slot_num
    → q ≡ 0
    → replaced
        ((a.current_idx + q) % a.slot_num)
        (a.slots ((a.current_idx + q) % a.slot_num) ++ record task { circle = q / a.slot_num } ∷ [])
        a.slots
        a.current_idx
      ≡ a.slots a.current_idx ++ first_circle task ∷ []
pushed_at task a q l z =
    let none_over : q / a.slot_num ≡ 0 =
      div-eq_of_lt (subst (λ j. j < a.slot_num) (sym z) (above a.current_idx a.slot_num l)) in
    let same : (a.current_idx + q) % a.slot_num ≡ a.current_idx =
      ap (λ j. (a.current_idx + j) % a.slot_num) z
      ∙ ap (λ j. j % a.slot_num) (omega arith)
      ∙ mod-eq_of_lt l in
    ap
      (λ j.
        replaced j (a.slots j ++ record task { circle = q / a.slot_num } ∷ []) a.slots
          a.current_idx)
      same
    ∙ replaced_at a.current_idx
        (a.slots a.current_idx ++ record task { circle = q / a.slot_num } ∷ []) a.slots
    ∙ ap (λ c. a.slots a.current_idx ++ record task { circle = c } ∷ []) none_over

push_back_slot :
    (task : TwTask) (a : TimeWheel)
    → a.current_idx < a.slot_num
    → task.delay / a.interval ≡ 0
    → (push_back task a).slots a.current_idx ≡ a.slots a.current_idx ++ first_circle task ∷ []
unfolding push_back get_idx_and_circle
push_back_slot task a l z =
    ap (λ f. f a.current_idx) (with_timer_slots task.key _ _)
    ∙ pushed_at task a (task.delay / a.interval) l z

-- The walk goes on with the task at its end.
abbrev Turned : Walk → TwTask → TwTask → List TwTask → Type 0
Turned v t u ts =
    (v.wheel.current_idx < v.wheel.slot_num)
    × (v.kept ≡ [])
    × (v.todo ≡ u ∷ (ts ++ first_circle t ∷ []))
    × All (IsRestless v.wheel.interval) (u ∷ (ts ++ first_circle t ∷ []))

again-Turned :
    (s : Walk) (k : ℕ) (t u : TwTask) (ts : List TwTask)
    → s.wheel.current_idx < s.wheel.slot_num
    → s.wheel.timer k ≡ none
    → t.key ≡ some k
    → s.kept ≡ []
    → All (IsRestless s.wheel.interval) (t ∷ u ∷ ts)
    → Turned (again s t (u ∷ ts)) t u ts
unfolding again
again-Turned s k t u ts l f e z h =
    let a = record s.wheel {
      slots = replaced s.wheel.current_idx (s.kept ++ u ∷ ts) s.wheel.slots;
    } in
    let (c, n, i, o) = add_task-Alike t a in
    let slot : (add_task t a).1.slots s.wheel.current_idx
        ≡ s.kept ++ u ∷ (ts ++ first_circle t ∷ []) =
      ap (λ (w : TimeWheel). w.slots s.wheel.current_idx) (add_task-push_back t k a e f)
      ∙ push_back_slot t a l (turns_none t.delay s.wheel.interval h.0.short)
      ∙ ap (λ vs. vs ++ first_circle t ∷ [])
          (replaced_at s.wheel.current_idx (s.kept ++ u ∷ ts) s.wheel.slots)
      ∙ append_assoc s.kept (u ∷ ts) (first_circle t ∷ []) in
    (
      ground (arith, c, n),
      z,
      ap (drop (length s.kept)) (ap (λ j. (add_task t a).1.slots j) c ∙ slot)
          ∙ drop-append s.kept (u ∷ (ts ++ first_circle t ∷ [])),
      subst (λ d. All (IsRestless d) (u ∷ (ts ++ first_circle t ∷ []))) (sym i)
          (All-append (IsRestless s.wheel.interval) (u ∷ ts) (first_circle t ∷ []) (h.1)
            (restless_again (h.0), tt)),
    )
  where
    restless_again : IsRestless s.wheel.interval t → IsRestless s.wheel.interval (first_circle t)
    restless_again r = record {
      at_once = refl;
      is_repeated = r.is_repeated;
      has_key = r.has_key;
      short = r.short;
    }

with_key-Turned :
    (key : Option ℕ) (s : Walk) (t u : TwTask) (ts : List TwTask)
    → t.key ≡ key
    → s.wheel.current_idx < s.wheel.slot_num
    → s.kept ≡ []
    → All (IsRestless s.wheel.interval) (t ∷ u ∷ ts)
    → Turned (with_key key s t (u ∷ ts)) t u ts
unfolding with_key with_timer
with_key-Turned none s t u ts e l z h = absurd (some-ne-none _ (sym (h.0.has_key.1) ∙ e))
with_key-Turned (some k) s t u ts e l z h =
    let v = record s {
      wheel = record s.wheel { timer = replaced k none s.wheel.timer };
      todo = u ∷ ts;
    } in
    subst (λ (b : Bool). Turned (if b then again v t (u ∷ ts) else v) t u ts)
      (sym (h.0.is_repeated)) (again-Turned v k t u ts l (replaced_at k none s.wheel.timer) e z h)

visit-Turned :
    (s : Walk) (t u : TwTask) (ts : List TwTask)
    → s.wheel.current_idx < s.wheel.slot_num
    → s.kept ≡ []
    → All (IsRestless s.wheel.interval) (t ∷ u ∷ ts)
    → Turned (visit s t (u ∷ ts)) t u ts
unfolding visit with_circle
visit-Turned s t u ts l z h =
    subst (λ c. Turned (with_circle c s t (u ∷ ts)) t u ts) (sym (h.0.at_once))
      (with_key-Turned t.key (record s { fired = s.fired ++ t ∷ [] }) t u ts refl l z h)

walk_endless :
    (f : ℕ) (s : Walk) (t u : TwTask) (ts : List TwTask)
    → s.wheel.current_idx < s.wheel.slot_num
    → s.kept ≡ []
    → s.todo ≡ t ∷ u ∷ ts
    → All (IsRestless s.wheel.interval) (t ∷ u ∷ ts)
    → walk f s ≡ none
walk_endless zero s t u ts l z e h = walk-none s t (u ∷ ts) e
walk_endless (suc f) s t u [] l z e h =
    let (l1, z1, e1, h1) = visit-Turned s t u [] l z h in
    walk_cons f s t (u ∷ []) e
    ∙ walk_endless f (visit s t (u ∷ [])) u (first_circle t) [] l1 z1 e1 h1
walk_endless (suc f) s t u (v ∷ ts) l z e h =
    let (l1, z1, e1, h1) = visit-Turned s t u (v ∷ ts) l z h in
    walk_cons f s t (u ∷ v ∷ ts) e
    ∙ walk_endless f (visit s t (u ∷ v ∷ ts)) u v (ts ++ first_circle t ∷ []) l1 z1 e1 h1

-- An update of a slot that holds two or more tasks, all repeated after less than an interval and due, does
-- not end, whatever the number of visits.
pub update_endless :
    (fuel : ℕ) (a : TimeWheel) (t u : TwTask) (ts : List TwTask)
    → a.current_idx < a.slot_num
    → a.slots a.current_idx ≡ t ∷ u ∷ ts
    → All (IsRestless a.interval) (t ∷ u ∷ ts)
    → update fuel a ≡ none
unfolding update ended start_walk
update_endless fuel a t u ts l e h = ap ended (walk_endless fuel (start_walk a) t u ts l refl e h)
