-- ===== src/Text/Split.antt =====
-- Splitting at a byte that the parts do not hold.
use rocommon.Prelude.{refl, ℕ, [], ◌∷◌, ◌++◌, ◌≡◌, ◌≢◌, All, arith}
use rocommon.Text.{String, split, cons_head}

-- No byte of a string is the separator.
abbrev pub Free : ℕ → String → Type 0
Free sep s = All (λ c. c ≢ sep) s

pub split-Free : (sep : ℕ) (s : String) → Free sep s → split sep s ≡ s ∷ []
unfolding split cons_head
split-Free sep [] h = refl
split-Free sep (c ∷ cs) h = ground (arith, h.0, split-Free sep cs (h.1))

pub split_at :
    (sep : ℕ) (s rest : String) → Free sep s → split sep (s ++ sep ∷ rest) ≡ s ∷ split sep rest
unfolding split cons_head
split_at sep [] rest h = ground arith
split_at sep (c ∷ cs) rest h = ground (arith, h.0, split_at sep cs rest (h.1))
