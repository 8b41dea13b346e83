-- ===== src/Mysql/Pool/Tests.antt =====
-- Transactions of socket/mysql on a database whose contents are the statements that were committed. An
-- empty statement fails, a Commit of four or five is refused, and the answer of a longer one is lost.
use rocommon.Prelude.{
  false, List, [], ◌∷◌, ◌++◌, Option, none, some, ltb, if◌then◌else◌, length, ◌≡◌, ◌≢◌, ◌⊎◌, refl,
  arith,
}
use rocommon.Text.{String}
use rocommon.Mysql.{no_rows, DbError, driver, Answer, gave, failed, SqlResult, Driver}
use rocommon.Mysql.Pool.{
  committed, sqlx_tx_get, close_sqlx_tx, batch_next, batch_loop, batch_begun, batch_exec,
}
use rocommon.Mysql.Pool.Atomic.{
  IsTransactional, IsCommitError, run_tx, batch_exec-all_or_none, run_tx-all_or_error,
}

record Db : Type 0 where
  visible : List String
  pending : List String

abbrev one_row : SqlResult
one_row = record { rows_affected = gave 1; last_insert_id = gave 7 }

abbrev exec_on : String → Db → Answer SqlResult × Db
exec_on [] d = (failed (driver 1064), d)
exec_on (c ∷ s) d = (gave one_row, record d { pending = d.pending ++ (c ∷ s) ∷ [] })

abbrev commit_on : Db → Option DbError × Db
commit_on d =
    if ltb 5 (length d.pending)
    then (some (driver 2013), record d { visible = d.pending })
    else if ltb 3 (length d.pending)
    then (some (driver 1213), d)
    else (none, record d { visible = d.pending })

abbrev sample : Driver Db
sample = record {
  begin_tx = λ d. (none, record d { pending = d.visible });
  exec_tx = exec_on;
  commit = commit_on;
  rollback = λ d. (none, record d { pending = d.visible });
  exec_db = exec_on;
}

abbrev add : String → List String → List String
add s v = v ++ s ∷ []

sample-IsTransactional : IsTransactional sample (λ d. d.visible) (λ d. d.pending) add
sample-IsTransactional = record {
  begins = λ d e. (refl, refl);
  begin_fails = λ d. refl;
  executes = sample-executes;
  exec_hidden = sample-hidden;
  commits = λ d e. ground (arith, e);
  commit_fails = λ d x e. ground (arith, e);
  rolls_back = λ d. refl;
}
  where
    sample-executes :
        (s : String) (d : Db) (res : SqlResult)
        → (exec_on s d).0 ≡ gave res
        → (exec_on s d).1.pending ≡ add s d.pending
    sample-executes [] d res e = absurd (ground (arith, e))
    sample-executes (c ∷ s) d res e = refl

    sample-hidden : (s : String) (d : Db) → (exec_on s d).1.visible ≡ d.visible
    sample-hidden [] d = refl
    sample-hidden (c ∷ s) d = refl

abbrev two : List String
two = (1 ∷ []) ∷ (2 ∷ []) ∷ []

abbrev one_kept : Db
one_kept = record { visible = (9 ∷ []) ∷ []; pending = [] }

batch_exec-all_or_none_example :
    let (r, e) = batch_exec sample two one_kept in
    (((r ≡ none) × (e.visible ≡ (9 ∷ []) ∷ two)) ⊎ (e.visible ≡ (9 ∷ []) ∷ []))
    × (r ≢ none → e.visible ≡ (9 ∷ []) ∷ [])
batch_exec-all_or_none_example =
    batch_exec-all_or_none sample (λ d. d.visible) (λ d. d.pending) add sample-IsTransactional two
      one_kept

run_tx-all_or_error_example :
    let (r, e) = run_tx sample two one_kept in
    ((r ≡ none) × (e.visible ≡ (9 ∷ []) ∷ two))
    ⊎ (((r ≢ none) × (e.visible ≡ (9 ∷ []) ∷ []))
        ⊎ (IsCommitError sample (λ d. d.visible) (λ d. d.pending) add sample-IsTransactional r
            × (e.visible ≡ (9 ∷ []) ∷ two)))
run_tx-all_or_error_example =
    run_tx-all_or_error sample (λ d. d.visible) (λ d. d.pending) add sample-IsTransactional two
      one_kept

-- A Commit that fails is no error of BatchExec.
commit_lost :
    batch_exec sample (two ++ two) one_kept
    ≡ (none, record { visible = (9 ∷ []) ∷ []; pending = (9 ∷ []) ∷ (two ++ two) })
unfolding batch_exec batch_begun batch_loop batch_next
commit_lost = refl

no_row_is_no_error : sqlx_tx_get (some no_rows) ≡ (false, none)
unfolding sqlx_tx_get
no_row_is_no_error = refl

closed_without_error :
    close_sqlx_tx sample none (record { visible = []; pending = (1 ∷ []) ∷ [] })
    ≡ (none, record { visible = (1 ∷ []) ∷ []; pending = (1 ∷ []) ∷ [] })
unfolding close_sqlx_tx committed
closed_without_error = refl
