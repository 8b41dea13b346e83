-- ===== src/Service/Start/Naming.antt =====
-- The name of a configuration of service/init.go, from the path of its file.
use rocommon.Prelude.{ℕ, List, [], ◌∷◌, ◌++◌, ◌≡◌, refl, ap, ◌∙◌, arith, ◌==◌, inl, inr, Bool-cases}
use rocommon.Text.{String, split, cons_head}
use rocommon.Text.Split.{Free, split-Free, split_at}
use rocommon.Service.Start.{last_of, first_of, server_name_of}

-- The last part of a path.
Parted : ℕ → String → String → Type 0
Parted sep dir s =
    (p : String) × (ps : List String) × (split sep (dir ++ sep ∷ s) ≡ p ∷ (ps ++ s ∷ []))

split-Parted : (sep : ℕ) (dir s : String) → Free sep s → Parted sep dir s
unfolding Parted split cons_head
split-Parted sep [] s h = ([], [], ground (arith, split-Free sep s h))
split-Parted sep (c ∷ dir) s h =
    let (p, ps, e) = split-Parted sep dir s h in
    elim (Bool-cases (c == sep)) [
      | inl at_sep ↦ ([], p ∷ ps, ground (arith, at_sep, e))
      | inr other ↦ (c ∷ p, ps, ground (arith, other, e))
    ]

last_of_lem : (p : String) (ps : List String) (s : String) → last_of (p ∷ (ps ++ s ∷ [])) ≡ s
last_of_lem p [] s = refl
last_of_lem p (q ∷ ps) s = last_of_lem q ps s

-- Without a server's name the configuration is that of the first part of the file's name: what stands
-- before its first "_", whatever directory the file is in.
pub server_name_of_path :
    (dir name rest : String)
    → Free 47 (name ++ 95 ∷ rest)
    → Free 95 name
    → server_name_of (dir ++ 47 ∷ (name ++ 95 ∷ rest)) [] ≡ name
unfolding server_name_of Parted
server_name_of_path dir name rest h hn =
    let (p, ps, e) = split-Parted 47 dir (name ++ 95 ∷ rest) h in
    ap (λ s. first_of (split 95 (last_of s))) e
    ∙ ap (λ s. first_of (split 95 s)) (last_of_lem p ps (name ++ 95 ∷ rest))
    ∙ ap first_of (split_at 95 name rest hn)
