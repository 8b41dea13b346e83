-- ===== src/Util/Names/Camel.antt =====
-- The two name functions of util/utils.go undo one another.
use rocommon.Prelude.{ℕ, List, [], ◌∷◌, true, false, ◌≡◌, ◌≢◌, All, arith, refl}
use rocommon.Util.Names.{
  Letters, lower_rest, lower_case_with_underscores, upper_rest, upper_case_with_no_underscores,
}

-- What is used of package unicode.
pub record IsUnicode (u : Letters) : Type 0 where
  pub upper_of_lower : (c : ℕ) → u.is_upper c ≡ true → u.to_upper (u.to_lower c) ≡ c
  pub lower_no_underscore : (c : ℕ) → u.is_upper c ≡ true → u.to_lower c ≢ b'_'

module _ (u : Letters) (laws : IsUnicode u) where
  upper_rest-lower_rest :
      (cs : List ℕ) → All (λ c. c ≢ b'_') cs → upper_rest u false false (lower_rest u cs) ≡ cs
  unfolding upper_rest lower_rest
  upper_rest-lower_rest [] h = refl
  upper_rest-lower_rest (c ∷ cs) h = ground (
    arith,
    h.0,
    upper_rest-lower_rest cs (h.1),
    λ (e : u.is_upper c ≡ true). laws.upper_of_lower c e,
    λ (e : u.is_upper c ≡ true). laws.lower_no_underscore c e,
  )

  -- A name that begins with an upper-case letter and holds no underscore comes back from its lower-case
  -- form.
  pub upper_case-lower_case :
      (c : ℕ) (cs : List ℕ)
      → u.is_upper c ≡ true
      → All (λ d. d ≢ b'_') cs
      → upper_case_with_no_underscores u (lower_case_with_underscores u (c ∷ cs)) ≡ c ∷ cs
  unfolding upper_case_with_no_underscores lower_case_with_underscores
  upper_case-lower_case c cs e h =
      ground
        (arith, upper_rest-lower_rest cs h, laws.upper_of_lower c e, laws.lower_no_underscore c e)
