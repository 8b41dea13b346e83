-- ===== src/Util/TimeWheel/Waiting.antt =====
-- The walk of util/timewheel.go through a slot: a task under a key is called at its time, and waits before.
use rocommon.Prelude.{
  ℕ, ◌+◌, ◌-◌, ◌*◌, ◌<◌, List, [], ◌∷◌, ◌++◌, Option, none, some, ◌≡◌, ◌≢◌, ◌⊎◌, inl, inr, refl,
  ◌∙◌, leb, if◌then◌else◌, if_holds,
}
use mathlib.Core.Path.{subst}
use rocommon.Util.TimeWheel.{TwTask, replaced, with_timer, Walk, again, with_key}
use rocommon.Util.TimeWheel.Keys.{
  Only, Has, Only-append, Has-append_left, Added-Only, Added-Has, add_task-Alike,
}
use rocommon.Util.TimeWheel.PutBack.{put_back_current, Added-current, Added-other, Added-drop}

-- How many slots the current one is before the slot `i`.
abbrev pub distance : ℕ → ℕ → ℕ → ℕ
distance n cur i = if leb cur i then i - cur else i + n - cur

module _ (k n cur m : ℕ) where
  -- In a walk through the slot `cur`: the tasks under `k` are due after `m` further updates, there is one,
  -- and none was called.
  pub record Waiting (s : Walk) : Type 0 where
    pub current : s.wheel.current_idx ≡ cur
    pub slots_of : s.wheel.slot_num ≡ n
    pub other_slots :
        (i : ℕ)
        → i < n
        → i ≢ cur
        → Only k (λ t. distance n cur i + t.circle * n ≡ m) (s.wheel.slots i)
    pub kept_tasks : Only k (λ t. n + t.circle * n ≡ m) s.kept
    pub todo_tasks : Only k (λ t. t.circle * n ≡ m) s.todo
    pub not_fired : Has k s.fired → ⊥
    pub is_there :
        ((i : ℕ) × (i < n) × (i ≢ cur) × Has k (s.wheel.slots i)) ⊎ (Has k s.kept ⊎ Has k s.todo)

  -- Where a walk has a task under `k`.
  abbrev pub There : (ℕ → List TwTask) → List TwTask → List TwTask → Type 0
  There a kept todo = ((i : ℕ) × (i < n) × (i ≢ cur) × Has k (a i)) ⊎ (Has k kept ⊎ Has k todo)

  pub There-more :
      (a b : ℕ → List TwTask) (kept kept1 todo todo1 : List TwTask)
      → ((i : ℕ) → i ≢ cur → Has k (a i) → Has k (b i))
      → (Has k kept → Has k kept1)
      → (Has k todo → Has k todo1)
      → There a kept todo
      → There b kept1 todo1
  There-more a b kept kept1 todo todo1 f g h (inl (i, l, x, p)) = inl (i, l, x, f i x p)
  There-more a b kept kept1 todo todo1 f g h (inr (inl p)) = inr (inl (g p))
  There-more a b kept kept1 todo todo1 f g h (inr (inr p)) = inr (inr (h p))

  again-Waiting :
      (s : Walk) (task : TwTask) (rest : List TwTask)
      → task.key ≢ some k
      → s.todo ≡ rest
      → Waiting s
      → Waiting (again s task rest)
  unfolding again
  again-Waiting s task [] x e w = record {
    current = put_back_current task s.kept s.wheel ∙ w.current;
    slots_of =
        (add_task-Alike task
          (record s.wheel { slots = replaced s.wheel.current_idx s.kept s.wheel.slots })).1
        ∙ w.slots_of;
    other_slots = λ i l n.
        Added-Only k _ task (s.wheel.slots i) _ x
          (Added-other task s.kept s.wheel i (λ q. n (q ∙ w.current))) (w.other_slots i l n);
    kept_tasks = Added-Only k _ task s.kept _ x (Added-current task s.kept s.wheel) w.kept_tasks;
    todo_tasks = tt;
    not_fired = w.not_fired;
    is_there =
        There-more s.wheel.slots _ s.kept _ s.todo []
          (λ i y p.
            Added-Has k task (s.wheel.slots i) _
              (Added-other task s.kept s.wheel i (λ q. y (q ∙ w.current))) p)
          (λ p. Added-Has k task s.kept _ (Added-current task s.kept s.wheel) p)
          (λ p. subst (λ ts. Has k ts) e p) w.is_there;
  }
  again-Waiting s task (r ∷ rest) x e w = record {
    current = put_back_current task (s.kept ++ r ∷ rest) s.wheel ∙ w.current;
    slots_of =
        (add_task-Alike task (record s.wheel {
          slots = replaced s.wheel.current_idx (s.kept ++ r ∷ rest) s.wheel.slots;
        })).1
        ∙ w.slots_of;
    other_slots = λ i l n.
        Added-Only k _ task (s.wheel.slots i) _ x
          (Added-other task (s.kept ++ r ∷ rest) s.wheel i (λ q. n (q ∙ w.current)))
          (w.other_slots i l n);
    kept_tasks = w.kept_tasks;
    todo_tasks =
        Added-Only k _ task (r ∷ rest) _ x
          (Added-drop task s.kept (r ∷ rest) _ (Added-current task (s.kept ++ r ∷ rest) s.wheel))
          (subst (λ ts. Only k (λ t. t.circle * n ≡ m) ts) e w.todo_tasks);
    not_fired = w.not_fired;
    is_there =
        There-more s.wheel.slots _ s.kept s.kept s.todo _
          (λ i y p.
            Added-Has k task (s.wheel.slots i) _
              (Added-other task (s.kept ++ r ∷ rest) s.wheel i (λ q. y (q ∙ w.current))) p)
          (λ p. p)
          (λ p.
            Added-Has k task (r ∷ rest) _
              (Added-drop task s.kept (r ∷ rest) _
                (Added-current task (s.kept ++ r ∷ rest) s.wheel))
              (subst (λ ts. Has k ts) e p))
          w.is_there;
  }

  Has-later : (t : TwTask) (ts : List TwTask) → t.key ≢ some k → Has k (t ∷ ts) → Has k ts
  Has-later t ts x (inl e) = absurd (x e)
  Has-later t ts x (inr h) = h

  -- A task under another key leaves the walk, and the map of keys changes.
  left-Waiting :
      (s : Walk) (timer : ℕ → Option ℕ) (task : TwTask) (rest : List TwTask)
      → task.key ≢ some k
      → s.todo ≡ task ∷ rest
      → Waiting s
      → Waiting (record s { wheel = record s.wheel { timer = timer }; todo = rest })
  left-Waiting s timer task rest x e w = record {
    current = w.current;
    slots_of = w.slots_of;
    other_slots = w.other_slots;
    kept_tasks = w.kept_tasks;
    todo_tasks = (subst (λ ts. Only k (λ t. t.circle * n ≡ m) ts) e w.todo_tasks).1;
    not_fired = w.not_fired;
    is_there =
        There-more s.wheel.slots s.wheel.slots s.kept s.kept s.todo rest (λ i y p. p) (λ p. p)
          (λ p. Has-later task rest x (subst (λ ts. Has k ts) e p)) w.is_there;
  }

  kept-Waiting :
      (s : Walk) (task : TwTask) (ts : List TwTask)
      → (task.key ≡ some k → n + task.circle * n ≡ m)
      → s.todo ≡ ts
      → Waiting s
      → Waiting (record s { kept = s.kept ++ task ∷ [] })
  kept-Waiting s task ts h e w = record {
    current = w.current;
    slots_of = w.slots_of;
    other_slots = w.other_slots;
    kept_tasks = Only-append k _ s.kept (task ∷ []) w.kept_tasks (h, tt);
    todo_tasks = w.todo_tasks;
    not_fired = w.not_fired;
    is_there =
        There-more s.wheel.slots s.wheel.slots s.kept (s.kept ++ task ∷ []) s.todo s.todo
          (λ i y p. p) (λ p. Has-append_left k s.kept (task ∷ []) p) (λ p. p) w.is_there;
  }

  pub with_key-Waiting :
      (key : Option ℕ) (s : Walk) (task : TwTask) (rest : List TwTask)
      → task.key ≢ some k
      → s.todo ≡ task ∷ rest
      → Waiting s
      → Waiting (with_key key s task rest)
  unfolding with_key with_timer
  with_key-Waiting none s task rest x e w =
      kept-Waiting (record s { todo = rest }) task rest (λ y. absurd (x y)) refl
        (left-Waiting s s.wheel.timer task rest x e w)
  with_key-Waiting (some j) s task rest x e w =
      let w1 = left-Waiting s (replaced j none s.wheel.timer) task rest x e w in
      if_holds Waiting task.repeated (λ b. again-Waiting _ task rest x refl w1) (λ b. w1)
