-- ===== src/Mysql/Api/Tests.antt =====
-- Inserts of socket/mysql/sql_api.go on a driver that keeps the statements.
use rocommon.Prelude.{
  suc, List, [], ◌∷◌, ◌++◌, none, some, ltb, if◌then◌else◌, length, All, ◌≡◌, refl, arith,
}
use rocommon.Text.{digits_from, itoa, codes, pos, String}
use rocommon.Mysql.{Answer, gave, Driver, SqlResult, no_rows, driver, with_sql}
use rocommon.Mysql.Api.{count3_texts, sql_values_insert_batch, query_error}
use rocommon.Mysql.Api.Batches.{concat, IsBatch, insert_each, sql_values_insert_batch-insert_each}

abbrev keep : String → List String → Answer SqlResult × List String
keep s d = (gave (record { rows_affected = gave 1; last_insert_id = gave 0 }), d ++ s ∷ [])

abbrev keeping : Driver (List String)
keeping = record {
  begin_tx = λ d. (none, d);
  exec_tx = keep;
  commit = λ d. (none, d);
  rollback = λ d. (none, d);
  exec_db = keep;
}

abbrev values : List String
values = (1 ∷ []) ∷ (2 ∷ []) ∷ (3 ∷ []) ∷ []

sql_values_insert_batch-insert_each_example :
    (parts : List (List String)) × (concat parts ≡ values)
    × All (IsBatch keeping (λ s. 9 ∷ s) (if ltb 2 100 then 100 else 2)) parts
    × ((d : List String)
        → sql_values_insert_batch keeping (suc (length values)) (λ s. 9 ∷ s) values 2 d
          ≡ insert_each keeping (λ s. 9 ∷ s) parts d)
sql_values_insert_batch-insert_each_example =
    sql_values_insert_batch-insert_each keeping (λ s. 9 ∷ s) values 2 (omega arith)

missing_row : query_error [] (some no_rows) ≡ some no_rows
unfolding query_error
missing_row = refl

failed_query : query_error (1 ∷ []) (some (driver 5)) ≡ some (with_sql (driver 5) (1 ∷ []))
unfolding query_error
failed_query = refl

third_texts :
    count3_texts (λ sel. sel ++ codes " FROM t") (codes "a") (pos 20) (pos 10)
    ≡ (codes "a FROM t LIMIT 10 OFFSET 20", codes "COUNT(*) AS total FROM t")
unfolding count3_texts itoa digits_from
third_texts = refl
