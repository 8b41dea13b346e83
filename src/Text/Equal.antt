-- ===== src/Text/Equal.antt =====
-- The Boolean equality of strings is equality.
use rocommon.Prelude.{[], ◌∷◌, true, false, ◌≡◌, refl, arith, Bool-cases, inl, inr}
use mathlib.Core.Path.{subst}
use rocommon.Text.{String, ◌=s◌}

pub =s_refl : (s : String) → (s =s s) ≡ true
unfolding ◌=s◌
=s_refl [] = refl
=s_refl (c ∷ s) = ground (arith, =s_refl s)

pub =s_eq : (s t : String) → (s =s t) ≡ true → s ≡ t
unfolding ◌=s◌
=s_eq [] [] e = refl
=s_eq [] (d ∷ t) e = absurd (ground arith)
=s_eq (c ∷ s) [] e = absurd (ground arith)
=s_eq (c ∷ s) (d ∷ t) e = ground (arith, =s_eq s t)

pub =s_sym : (s t : String) → (s =s t) ≡ false → (t =s s) ≡ false
=s_sym s t h = elim (Bool-cases (t =s s)) [
  | inr apart ↦ apart
  | inl same ↦ absurd (ground (arith, subst (λ r. (s =s r) ≡ false) (=s_eq t s same) h, =s_refl s))
]
