-- ===== src/Mysql/Wrapper/Closed.antt =====
-- What `Each` and `Query` of socket/mysql leave of the rows.
use rocommon.Prelude.{
  List, [], ◌∷◌, ◌++◌, Bool, true, false, Option, none, some, ◌≡◌, refl, map, ap, arith,
}
use rocommon.Text.{String}
use rocommon.Mysql.{DbError, Answer, gave, failed}
use rocommon.Mysql.Wrapper.{Wrapper, closed_rows, each_row, row_record, query_rows}

-- When Each ends without an error, its rows are closed.
each_row-closed :
    (cb : Answer (List String) → Option DbError → Bool × Option DbError)
    (rs : List (Answer (List String))) (a : Wrapper)
    → (each_row cb rs a).err ≡ none
    → (each_row cb rs a).row ≡ some closed_rows
unfolding each_row
each_row-closed cb [] a h = refl
each_row-closed cb (r ∷ rs) a h =
    let ih = each_row-closed cb rs (record a { err = (cb r a.err).1 }) in ground (arith, h, ih)

-- When the callback goes on although it set an error, the rows stay open and no later row is read.
each_row-left_open :
    (cb : Answer (List String) → Option DbError → Bool × Option DbError) (r : Answer (List String))
    (rs : List (Answer (List String))) (a : Wrapper) (e : DbError)
    → cb r a.err ≡ (true, some e)
    → (each_row cb (r ∷ rs) a).row ≡ some (record { coming = rs; current = some r; closed = false })
unfolding each_row
each_row-left_open cb r rs a e h = rw h refl

-- Rows that can be scanned are all returned, one record each; from the first that cannot be on the rows
-- are missing, and Query returns no error.
pub query_rows_cut :
    (columns : List String) (values : List (List String)) (e : DbError)
    (rest : List (Answer (List String)))
    → (query_rows columns (map gave values) ≡ map (λ v. row_record columns v []) values)
      × (query_rows columns (map gave values ++ failed e ∷ rest)
          ≡ map (λ v. row_record columns v []) values)
unfolding query_rows
query_rows_cut columns [] e rest = (refl, refl)
query_rows_cut columns (v ∷ values) e rest =
    let (h, k) = query_rows_cut columns values e rest in
    (ap (λ rs. row_record columns v [] ∷ rs) h, ap (λ rs. row_record columns v [] ∷ rs) k)
