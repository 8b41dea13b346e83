-- ===== src/Sql/Where/Connectives.antt =====
-- `parseWhere` of socket/mysql/sqler.go: which connective it drops, and which calls of Where.
use rocommon.Prelude.{
  ℕ, List, [], ◌∷◌, ◌++◌, none, some, ◌≡◌, ◌≢◌, ◌⊎◌, inl, inr, refl, arith, ap, ◌∙◌, append_assoc,
  ◌<◌, length, All,
}
use rocommon.Text.{String, join, codes, trim, trim_left, trim_right}
use rocommon.Sql.{Param, built, plain, mapping, rows, one, slice, str, int, moment, other}
use rocommon.Sql.Where.{where_text, where_texts, parse_where, trim_connective, is_space}

-- Not empty, with no space at its front; with no space at its end.
abbrev pub StartsSolid : String → Type 0
StartsSolid [] = ⊥
StartsSolid (c ∷ s) = c ≢ b' '

abbrev pub EndsSolid : String → Type 0
EndsSolid [] = ⊥
EndsSolid (c ∷ []) = c ≢ b' '
EndsSolid (c ∷ d ∷ s) = EndsSolid (d ∷ s)

trim_right-EndsSolid : (s : String) → EndsSolid s → trim_right is_space s ≡ s
unfolding trim_right is_space
trim_right-EndsSolid [] h = refl
trim_right-EndsSolid (c ∷ []) h = ground arith
trim_right-EndsSolid (c ∷ d ∷ s) h = rw (trim_right-EndsSolid (d ∷ s) h, trim_right)

-- The connectives that Where and OrWhere put in front.
abbrev pub IsConnective : String → Type 0
IsConnective c = (c ≡ codes "and") ⊎ (c ≡ codes "or")

trim_connective_and :
    (d : ℕ) (s : String)
    → d ≢ b' '
    → EndsSolid (d ∷ s)
    → trim_connective (codes "and" ++ (codes " " ++ (d ∷ s))) ≡ d ∷ s
unfolding trim_connective trim trim_left is_space
trim_connective_and d s k e =
    ground (arith, trim_right-EndsSolid (b'a' ∷ b'n' ∷ b'd' ∷ b' ' ∷ d ∷ s) e)

trim_connective_or :
    (d : ℕ) (s : String)
    → d ≢ b' '
    → EndsSolid (d ∷ s)
    → trim_connective (codes "or" ++ (codes " " ++ (d ∷ s))) ≡ d ∷ s
unfolding trim_connective trim trim_left is_space
trim_connective_or d s k e = ground (arith, trim_right-EndsSolid (b'o' ∷ b'r' ∷ b' ' ∷ d ∷ s) e)

trim_connective_lem :
    (c s : String)
    → IsConnective c
    → StartsSolid s
    → EndsSolid s
    → trim_connective (c ++ (codes " " ++ s)) ≡ s
trim_connective_lem c [] k h e = absurd h
trim_connective_lem c (d ∷ s) (inl k) h e =
    ap (λ x. trim_connective (x ++ (codes " " ++ (d ∷ s)))) k ∙ trim_connective_and d s h e
trim_connective_lem c (d ∷ s) (inr k) h e =
    ap (λ x. trim_connective (x ++ (codes " " ++ (d ∷ s)))) k ∙ trim_connective_or d s h e

join_first :
    (c r : String) (ts : List String)
    → join ((c ++ (codes " " ++ r)) ∷ ts) (codes " ")
      ≡ c ++ (codes " " ++ join (r ∷ ts) (codes " "))
unfolding join
join_first c r [] = refl
join_first c r (t ∷ ts) = append_assoc c (codes " " ++ r) (codes " " ++ join (t ∷ ts) (codes " "))

StartsSolid-join :
    (r : String) (ts : List String) → StartsSolid r → StartsSolid (join (r ∷ ts) (codes " "))
unfolding join
StartsSolid-join r [] h = h
StartsSolid-join [] (t ∷ ts) h = absurd h
StartsSolid-join (c ∷ r) (t ∷ ts) h = h

-- Of conditions that give texts, parseWhere returns the texts in their order, each but the first behind
-- its connective, where the first text begins with no space and the last ends with none.
pub parse_where_texts :
    (c r : String) (params : List Param) (ws : List (String × List Param)) (ts : List String)
    → IsConnective c
    → where_text params ≡ built (some r)
    → where_texts ws ≡ built ts
    → StartsSolid r
    → EndsSolid (join (r ∷ ts) (codes " "))
    → parse_where ((c, params) ∷ ws) ≡ built (join (r ∷ ts) (codes " "))
unfolding parse_where where_texts
parse_where_texts c r params ws ts k e f h l =
    rw (e, f)
      (ap built (
        ap trim_connective (join_first c r ts)
        ∙ trim_connective_lem c (join (r ∷ ts) (codes " ")) k (StartsSolid-join r ts h) l))

-- A call of Where with no argument or with more than three.
abbrev pub IsIgnored : List Param → Type 0
IsIgnored params = (length params ≡ 0) ⊎ (3 < length params)

where_text-IsIgnored : (params : List Param) → IsIgnored params → where_text params ≡ built none
unfolding where_text
where_text-IsIgnored [] h = refl
where_text-IsIgnored (a ∷ b ∷ c ∷ d ∷ ps) h = refl
where_text-IsIgnored (plain (one (str s)) ∷ []) h = absurd (omega arith)
where_text-IsIgnored (plain (one (int s)) ∷ []) h = absurd (omega arith)
where_text-IsIgnored (plain (one (moment s)) ∷ []) h = absurd (omega arith)
where_text-IsIgnored (plain (one (other s)) ∷ []) h = absurd (omega arith)
where_text-IsIgnored (plain (slice p s) ∷ []) h = absurd (omega arith)
where_text-IsIgnored (mapping p s ∷ []) h = absurd (omega arith)
where_text-IsIgnored (rows p s ∷ []) h = absurd (omega arith)
where_text-IsIgnored (a ∷ b ∷ []) h = absurd (omega arith)
where_text-IsIgnored (a ∷ b ∷ c ∷ []) h = absurd (omega arith)

-- Such a call is dropped without an error: the clause is that of the other calls.
pub parse_where-IsIgnored :
    (c : String) (params : List Param) (ws : List (String × List Param))
    → IsIgnored params
    → parse_where ((c, params) ∷ ws) ≡ parse_where ws
unfolding parse_where where_texts
parse_where-IsIgnored c params ws h = rw (where_text-IsIgnored params h) (ground arith)

pub parse_where-nil : parse_where [] ≡ built []
unfolding parse_where where_texts trim_connective trim trim_left trim_right join
parse_where-nil = refl

pub parse_where-All-IsIgnored :
    (ws : List (String × List Param)) → All (λ w. IsIgnored (w.1)) ws → parse_where ws ≡ built []
parse_where-All-IsIgnored [] h = parse_where-nil
parse_where-All-IsIgnored ((c, params) ∷ ws) h =
    parse_where-IsIgnored c params ws (h.0) ∙ parse_where-All-IsIgnored ws (h.1)
