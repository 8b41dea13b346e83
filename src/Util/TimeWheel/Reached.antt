-- ===== src/Util/TimeWheel/Reached.antt =====
-- One turn of the walk of util/timewheel.go: a task under a key is called at its time, or waits on.
use rocommon.Prelude.{
  ℕ, zero, suc, ◌+◌, ◌*◌, List, [], ◌∷◌, ◌++◌, Option, none, some, ◌≡◌, ◌≢◌, ◌⊎◌, inl, inr, refl,
  ap, ◌∙◌, sym, arith, ◌==◌, if_holds, Bool-cases, ==_iff,
}
use mathlib.Core.Path.{subst}
use rocommon.Util.TimeWheel.{TwTask, Walk, again, with_key, with_circle}
use rocommon.Util.TimeWheel.Keys.{Only, Has, Only-append, Has-append_left, Has-append_right}
use rocommon.Util.TimeWheel.Waiting.{Waiting, There, with_key-Waiting}

suc_times : (c n : ℕ) → suc c * n ≡ n + c * n
suc_times c n = grind arith

zero_times : (n : ℕ) → 0 * n ≡ 0
zero_times n = omega arith

module _ (k n cur m : ℕ) where
  -- One turn of the walk: the task under `k` is called, at its time, or waits on.
  abbrev pub Reached : Walk → Type 0
  Reached s = ((m ≡ 0) × Has k s.fired) ⊎ Waiting k n cur m s

  circled-Waiting :
      (c : ℕ) (s : Walk) (task : TwTask) (rest : List TwTask)
      → task.circle ≡ suc c
      → s.todo ≡ task ∷ rest
      → Waiting k n cur m s
      → Waiting k n cur m
          (record s { kept = s.kept ++ record task { circle = c } ∷ []; todo = rest })
  circled-Waiting c s task rest q e w =
      let todo : Only k (λ t. t.circle * n ≡ m) (task ∷ rest) =
        subst (λ ts. Only k (λ t. t.circle * n ≡ m) ts) e w.todo_tasks in
      let next = record task { circle = c } ∷ [] in
      record {
        current = w.current;
        slots_of = w.slots_of;
        other_slots = w.other_slots;
        kept_tasks =
            Only-append k _ s.kept next w.kept_tasks
              (λ y. sym (suc_times c n) ∙ ap (λ d. d * n) (sym q) ∙ todo.0 y, tt);
        todo_tasks = todo.1;
        not_fired = w.not_fired;
        is_there = there w.is_there;
      }
    where
      from_todo :
          Has k (task ∷ rest)
          → There k n cur m s.wheel.slots (s.kept ++ record task { circle = c } ∷ []) rest
      from_todo (inl y) =
          inr (inl (Has-append_right k s.kept (record task { circle = c } ∷ []) (inl y)))
      from_todo (inr p) = inr (inr p)

      there :
          There k n cur m s.wheel.slots s.kept s.todo
          → There k n cur m s.wheel.slots (s.kept ++ record task { circle = c } ∷ []) rest
      there (inl p) = inl p
      there (inr (inl p)) = inr (inl (Has-append_left k s.kept (record task { circle = c } ∷ []) p))
      there (inr (inr p)) = from_todo (subst (λ ts. Has k ts) e p)

  pub with_key_fired :
      (key : Option ℕ) (s : Walk) (task : TwTask) (rest : List TwTask)
      → (with_key key s task rest).fired ≡ s.fired
  unfolding with_key again
  with_key_fired none s task rest = refl
  with_key_fired (some j) s task [] =
      if_holds (λ (t : Walk). t.fired ≡ s.fired) task.repeated (λ b. refl) (λ b. refl)
  with_key_fired (some j) s task (r ∷ rest) =
      if_holds (λ (t : Walk). t.fired ≡ s.fired) task.repeated (λ b. refl) (λ b. refl)

  Has-snoc :
      (task : TwTask) (ts : List TwTask)
      → task.key ≢ some k
      → (Has k ts → ⊥)
      → Has k (ts ++ task ∷ [])
      → ⊥
  Has-snoc task [] x f (inl y) = x y
  Has-snoc task [] x f (inr p) = p
  Has-snoc task (t ∷ ts) x f (inl y) = f (inl y)
  Has-snoc task (t ∷ ts) x f (inr p) = Has-snoc task ts x (λ q. f (inr q)) p

  fired-Waiting :
      (s : Walk) (task : TwTask)
      → task.key ≢ some k
      → Waiting k n cur m s
      → Waiting k n cur m (record s { fired = s.fired ++ task ∷ [] })
  fired-Waiting s task x w = record {
    current = w.current;
    slots_of = w.slots_of;
    other_slots = w.other_slots;
    kept_tasks = w.kept_tasks;
    todo_tasks = w.todo_tasks;
    not_fired = λ p. Has-snoc task s.fired x w.not_fired p;
    is_there = w.is_there;
  }

  key-cases : (o : Option ℕ) → (o ≡ some k) ⊎ (o ≢ some k)
  key-cases none = inr (λ e. ground arith)
  key-cases (some j) = elim (Bool-cases (j == k)) [
    | inl b ↦ inl (ap some ((==_iff j k).0 b))
    | inr b ↦ inr (λ e. ground arith)
  ]

  pub with_circle-Reached :
      (c : ℕ) (s : Walk) (task : TwTask) (rest : List TwTask)
      → task.circle ≡ c
      → s.todo ≡ task ∷ rest
      → Waiting k n cur m s
      → Reached (with_circle c s task rest)
  unfolding with_circle
  with_circle-Reached zero s task rest q e w = elim (key-cases task.key) [
    | inl y ↦ inl (
      sym ((subst (λ ts. Only k (λ t. t.circle * n ≡ m) ts) e w.todo_tasks).0 y)
          ∙ ap (λ d. d * n) q
          ∙ zero_times n,
      subst (λ ts. Has k ts)
          (sym (with_key_fired task.key (record s { fired = s.fired ++ task ∷ [] }) task rest))
          (Has-append_right k s.fired (task ∷ []) (inl y)),
    )
    | inr x ↦ inr (
        with_key-Waiting k n cur m task.key (record s { fired = s.fired ++ task ∷ [] }) task rest x
          e (fired-Waiting s task x w))
  ]
  with_circle-Reached (suc c) s task rest q e w = inr (circled-Waiting c s task rest q e w)
