-- ===== src/Util/TimeWheel/Called.antt =====
-- At which time Update of util/timewheel.go calls a task that AddTask took in.
use rocommon.Prelude.{
  ℕ, zero, suc, ◌+◌, ◌-◌, ◌/◌, ◌<◌, ◌≤◌, List, [], ◌∷◌, ◌++◌, Option, some, false, ◌≡◌, inl, inr,
  refl, ap, ◌∙◌, sym, arith, ltb, Bool-cases, ge→ltb, lt→ltb, ltb→lt, Option-cases,
}
use mathlib.Core.Path.{subst}
use native.Mathlib.Nat.{div-eq_of_lt, div-eq-sub-div}
use mathlib.Core.Option.{some-injective, some-ne-none}
use rocommon.Util.TimeWheel.{
  TwTask, TimeWheel, update, followed, and_then, continued, loop_turn, update_loop,
}
use rocommon.Util.TimeWheel.Keys.{Has, Has-append_left, Has-append_right}
use rocommon.Util.TimeWheel.Due.{IsDue, After, update-After}
use rocommon.Util.TimeWheel.Clock.{update-SameClock}

pub ltb→ge : (a b : ℕ) → ltb a b ≡ false → b ≤ a
ltb→ge a b h = ground arith

pub turns_none : (d n : ℕ) → d < n → d / n ≡ 0
turns_none d n l = div-eq_of_lt l

pub turns_more : (d n : ℕ) → 0 < n → n ≤ d → d / n ≡ suc ((d - n) / n)
turns_more d n p l = let q = div-eq-sub-div p l in omega arith

abbrev pub with_time : ℕ → TimeWheel → TimeWheel
with_time ms a = record a { old_ms = ms }

pub followed_lem : (ms : ℕ) (a : TimeWheel) → a.old_ms ≤ ms → followed ms a ≡ a
unfolding followed
followed_lem ms a h = rw (ge→ltb ms a.old_ms h) refl

pub loop_stops :
    (fuel ms : ℕ) (a : TimeWheel) (rest : TimeWheel → Option (TimeWheel × List TwTask))
    → ms - a.old_ms < a.interval
    → loop_turn fuel a ms rest ≡ some (a, [])
unfolding loop_turn
loop_stops fuel ms a rest l = rw (lt→ltb (ms - a.old_ms) a.interval l) refl

pub loop_turns :
    (fuel ms : ℕ) (a : TimeWheel) (rest : TimeWheel → Option (TimeWheel × List TwTask))
    → a.interval ≤ ms - a.old_ms
    → loop_turn fuel a ms rest ≡ and_then (update fuel (with_time (a.old_ms + a.interval) a)) rest
unfolding loop_turn
loop_turns fuel ms a rest l = rw (ge→ltb (ms - a.old_ms) a.interval l) refl

-- What `Update` makes of a task that is due after `m` further updates, `n` updates being run.
abbrev pub Run : ℕ → ℕ → ℕ → TimeWheel × List TwTask → Type 0
Run k m n r = (Has k (r.1) → m < n) × (m < n → Has k (r.1)) × (n ≤ m → IsDue (r.0) k (m - n))

sub_twice : (a b c : ℕ) → a - (b + c) ≡ a - b - c
sub_twice a b c = omega arith

Run-stops : (k m : ℕ) (a : TimeWheel) → IsDue a k m → Run k m 0 (a, [])
Run-stops k m a d =
    (λ h. absurd h, λ l. absurd (omega arith), λ l. subst (λ j. IsDue a k j) (omega arith) d)

Has-split : (k : ℕ) (xs ys : List TwTask) → (Has k xs → ⊥) → Has k (xs ++ ys) → Has k ys
Has-split k [] ys x h = h
Has-split k (t ∷ xs) ys x (inl e) = absurd (x (inl e))
Has-split k (t ∷ xs) ys x (inr h) = Has-split k xs ys (λ p. x (inr p)) h

Run-turns :
    (k m n : ℕ) (a : TimeWheel) (u p : TimeWheel × List TwTask)
    → After a k m u
    → ((j : ℕ) → m ≡ suc j → Run k j n p)
    → Run k m (suc n) (p.0, u.1 ++ p.1)
Run-turns k zero n a u p h f =
    (λ x. omega arith, λ l. Has-append_left k (u.1) (p.1) h, λ l. absurd (omega arith))
Run-turns k (suc m) n a u p h f =
    let (before, after, due) = f m refl in
    (
      λ x. let y = before (Has-split k (u.1) (p.1) (h.1) x) in omega arith,
      λ l. Has-append_right k (u.1) (p.1) (after (omega arith)),
      λ l. subst (λ j. IsDue (p.0) k j) (omega arith) (due (omega arith)),
    )

IsDue-with_time : (t k m : ℕ) (a : TimeWheel) → IsDue a k m → IsDue (with_time t a) k m
IsDue-with_time t k m a d = record {
  in_range = d.in_range;
  due_after = d.due_after;
  is_in = d.is_in;
}

module _ (k fuel ms : ℕ) where
  -- What one turn of the loop is followed by.
  abbrev pub Runs : (TimeWheel → Option (TimeWheel × List TwTask)) → Type 0
  Runs rest =
      (m : ℕ) (a : TimeWheel) (r : TimeWheel × List TwTask)
      → 0 < a.interval
      → a.old_ms ≤ ms
      → IsDue a k m
      → rest a ≡ some r
      → Run k m ((ms - a.old_ms) / a.interval) r

  turn-Runs :
      (rest : TimeWheel → Option (TimeWheel × List TwTask))
      → Runs rest
      → (m : ℕ) (a : TimeWheel) (u r : TimeWheel × List TwTask) → 0 < a.interval
      → a.old_ms ≤ ms
      → a.interval ≤ ms - a.old_ms
      → IsDue a k m
      → update fuel (with_time (a.old_ms + a.interval) a) ≡ some u
      → and_then (some u) rest ≡ some r
      → Run k m (suc ((ms - a.old_ms - a.interval) / a.interval)) r
  unfolding and_then continued
  turn-Runs rest f m a u r p h l d e q = elim (Option-cases (rest (u.0))) [
    | inl x ↦ absurd (some-ne-none _ (sym q ∙ ap (continued (u.1)) x))
    | inr (v, x) ↦
        let (i, o) = update-SameClock fuel (with_time (a.old_ms + a.interval) a) u e in
        let after =
          update-After fuel k m (with_time (a.old_ms + a.interval) a) u (IsDue-with_time _ k m a d)
            e in
        subst (Run k m (suc ((ms - a.old_ms - a.interval) / a.interval)))
          (some-injective _ _ (sym (ap (continued (u.1)) x) ∙ q))
          (Run-turns k m ((ms - a.old_ms - a.interval) / a.interval)
            (with_time (a.old_ms + a.interval) a) u v after
            (λ j y.
              subst (λ t. Run k j t v)
                (ap (λ t. (ms - t) / u.0.interval) o
                  ∙ ap (λ t. (ms - (a.old_ms + a.interval)) / t) i
                  ∙ ap (λ t. t / a.interval) (sub_twice ms a.old_ms a.interval))
                (f j (u.0) v (subst (λ t. 0 < t) (sym i) p)
                  (subst (λ t. t ≤ ms) (sym o) (omega arith))
                  (subst (λ t. After (with_time (a.old_ms + a.interval) a) k t u) y after).0 x)))
  ]

  goes_on :
      (rest : TimeWheel → Option (TimeWheel × List TwTask))
      → Runs rest
      → (m : ℕ) (a : TimeWheel) (r : TimeWheel × List TwTask) → 0 < a.interval
      → a.old_ms ≤ ms
      → IsDue a k m
      → a.interval ≤ ms - a.old_ms
      → and_then (update fuel (with_time (a.old_ms + a.interval) a)) rest ≡ some r
      → Run k m ((ms - a.old_ms) / a.interval) r
  unfolding and_then
  goes_on rest f m a r p h d l q =
      elim (Option-cases (update fuel (with_time (a.old_ms + a.interval) a))) [
        | inl x ↦ absurd (some-ne-none _ (sym q ∙ ap (λ o. and_then o rest) x))
        | inr (u, e) ↦
            subst (λ j. Run k m j r) (sym (turns_more _ _ p l))
              (turn-Runs rest f m a u r p h l d e (ap (λ o. and_then o rest) (sym e) ∙ q))
      ]

  pub loop-Runs : (rounds : ℕ) → Runs (update_loop rounds fuel ms)
  unfolding update_loop
  loop-Runs zero m a r p h d q = absurd (some-ne-none _ (sym q))
  loop-Runs (suc rounds) m a r p h d q = elim (Bool-cases (ltb (ms - a.old_ms) a.interval)) [
    | inl b ↦
        let l = ltb→lt _ _ b in
        subst (λ j. Run k m j r) (sym (turns_none _ _ l))
          (subst (Run k m 0)
            (some-injective _ _ (
              sym (loop_stops fuel ms a _ l)
              ∙ ap (λ c. loop_turn fuel c ms (update_loop rounds fuel ms))
                  (sym (followed_lem ms a h))
              ∙ q))
            (Run-stops k m a d))
    | inr b ↦ goes_on (update_loop rounds fuel ms) (loop-Runs rounds) m a r p h d (ltb→ge _ _ b) (
        sym (loop_turns fuel ms a (update_loop rounds fuel ms) (ltb→ge _ _ b))
        ∙ ap (λ c. loop_turn fuel c ms (update_loop rounds fuel ms)) (sym (followed_lem ms a h))
        ∙ q)
  ]
