-- ===== src/Mysql/Wrapper/Tests.antt =====
-- Rows of socket/mysql at concrete results.
use rocommon.Prelude.{[], ◌∷◌, false, some, ◌≡◌, refl}
use rocommon.Mysql.{gave, failed, driver, driver_not_ready}
use rocommon.Mysql.Wrapper.{new_wrapper, wrapper_query, row_record, query_rows, pool_query}

-- A row, then one that cannot be scanned: the caller sees one record and no error.
cut_query :
    pool_query (gave (gave ((5 ∷ []) ∷ []) ∷ failed (driver 1) ∷ [])) (gave ((1 ∷ []) ∷ []))
    ≡ gave (((1 ∷ [], 5 ∷ []) ∷ []) ∷ [])
unfolding pool_query query_rows row_record
cut_query = refl

not_ready :
    (wrapper_query (1 ∷ []) (failed (driver 2)) (new_wrapper false)).err ≡ some driver_not_ready
unfolding wrapper_query new_wrapper
not_ready = refl
