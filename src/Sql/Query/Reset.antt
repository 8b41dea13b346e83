-- ===== src/Sql/Query/Reset.antt =====
-- What a builder of socket/mysql/sqler.go keeps from one statement to the next.
use mathlib.Core.Path.{subst}
use rocommon.Prelude.{true, List, [], ◌∷◌, Option, none, ◌≡◌, ◌⊎◌, inl, inr, refl, ap, sym}
use rocommon.Text.{String, codes, ◌=s◌}
use rocommon.Sql.{Sqler, Arg, one, slice, str, int, moment, other, new_sqler}
use rocommon.Sql.Query.{
  build_query, set_part, set_parts, reset, select, Setter, set_table, set_group, set_having,
  set_order, set_limit, set_offset, set_page, add_where, add_or_where, add_join, add_left_join,
  add_right_join, set_distinct, set_ignore, ret_str, count, aggregate, selected,
}

-- A builder less what a select statement does not show.
forget : Sqler → Sqler
forget s = record s { content = none; inc_fields = []; translate = none; optype = []; ignore = [] }

set_part-forget :
    (p : Setter) (s t : Sqler) → forget s ≡ forget t → forget (set_part p s) ≡ forget (set_part p t)
unfolding set_part forget
set_part-forget (set_table x) s t e = ap (λ (u : Sqler). record u { table = x }) e
set_part-forget (set_group x) s t e = ap (λ (u : Sqler). record u { group = x }) e
set_part-forget (set_having x) s t e = ap (λ (u : Sqler). record u { having = x }) e
set_part-forget (set_order x) s t e = ap (λ (u : Sqler). record u { order = x }) e
set_part-forget (set_limit x) s t e = ap (λ (u : Sqler). record u { limit = x }) e
set_part-forget (set_offset x) s t e = ap (λ (u : Sqler). record u { offset = x }) e
set_part-forget (set_page x) s t e = ap (λ (u : Sqler). forget (set_part (set_page x) u)) e
set_part-forget (add_where x) s t e = ap (λ (u : Sqler). forget (set_part (add_where x) u)) e
set_part-forget (add_or_where x) s t e = ap (λ (u : Sqler). forget (set_part (add_or_where x) u)) e
set_part-forget (add_join x) s t e = ap (λ (u : Sqler). forget (set_part (add_join x) u)) e
set_part-forget (add_left_join x) s t e =
    ap (λ (u : Sqler). forget (set_part (add_left_join x) u)) e
set_part-forget (add_right_join x) s t e =
    ap (λ (u : Sqler). forget (set_part (add_right_join x) u)) e
set_part-forget set_distinct s t e = ap (λ (u : Sqler). record u { distinct = true }) e
set_part-forget set_ignore s t e = e

set_parts-forget :
    (ps : List Setter) (s t : Sqler)
    → forget s ≡ forget t
    → forget (set_parts ps s) ≡ forget (set_parts ps t)
unfolding set_parts
set_parts-forget [] s t e = e
set_parts-forget (p ∷ ps) s t e =
    set_parts-forget ps (set_part p s) (set_part p t) (set_part-forget p s t e)

build_query-forget : (s t : Sqler) → forget s ≡ forget t → build_query s ≡ build_query t
unfolding build_query forget
build_query-forget s t e = ap build_query e

select-forget :
    (args : List Arg) (s t : Sqler) → forget s ≡ forget t → (select s args).1 ≡ (select t args).1
unfolding select forget
select-forget [] s t e = ap ret_str (build_query-forget s t e)
select-forget (one (str f) ∷ args) s t e = ap ret_str (
    build_query-forget (record s { fields = f }) (record t { fields = f })
      (ap (λ (u : Sqler). record u { fields = f }) e))
select-forget (one (int f) ∷ args) s t e = refl
select-forget (one (moment f) ∷ args) s t e = refl
select-forget (one (other f) ∷ args) s t e = refl
select-forget (slice p l ∷ args) s t e = refl

-- A select statement built after Reset is the one that a new builder gives under the same calls,
-- whatever was done before.
pub select-set_parts-reset :
    (s : Sqler) (translate : Option (String → String)) (ps : List Setter) (args : List Arg)
    → (select (set_parts ps (reset s)) args).1
      ≡ (select (set_parts ps (new_sqler translate)) args).1
unfolding reset new_sqler forget
select-set_parts-reset s translate ps args =
    select-forget args (set_parts ps (reset s)) (set_parts ps (new_sqler translate))
      (set_parts-forget ps (reset s) (new_sqler translate) refl)

-- `union` asked for after Count gives the statement that counts.
abbrev Counts : String → Type 0
Counts union =
    (s : Sqler) (field : String) (args : List Arg)
    → (aggregate union (count s args).0 field).1 ≡ (count s args).1

sum-Counts : Counts (codes "sum")
unfolding aggregate count build_query selected ◌=s◌
sum-Counts s field [] = refl
sum-Counts s field (a ∷ args) = refl

avg-Counts : Counts (codes "avg")
unfolding aggregate count build_query selected ◌=s◌
avg-Counts s field [] = refl
avg-Counts s field (a ∷ args) = refl

max-Counts : Counts (codes "max")
unfolding aggregate count build_query selected ◌=s◌
max-Counts s field [] = refl
max-Counts s field (a ∷ args) = refl

min-Counts : Counts (codes "min")
unfolding aggregate count build_query selected ◌=s◌
min-Counts s field [] = refl
min-Counts s field (a ∷ args) = refl

-- After Count, and until Reset, Sum, Avg, Max and Min give the statement that counts.
pub aggregate-count :
    (s : Sqler) (union field : String) (args : List Arg)
    → (union ≡ codes "sum" ⊎ union ≡ codes "avg") ⊎ (union ≡ codes "max" ⊎ union ≡ codes "min")
    → (aggregate union (count s args).0 field).1 ≡ (count s args).1
aggregate-count s union field args h = at_union h s field args
  where
    at_union :
        (union ≡ codes "sum" ⊎ union ≡ codes "avg") ⊎ (union ≡ codes "max" ⊎ union ≡ codes "min")
        → Counts union
    at_union (inl (inl e)) = subst (λ u. Counts u) (sym e) sum-Counts
    at_union (inl (inr e)) = subst (λ u. Counts u) (sym e) avg-Counts
    at_union (inr (inl e)) = subst (λ u. Counts u) (sym e) max-Counts
    at_union (inr (inr e)) = subst (λ u. Counts u) (sym e) min-Counts
