-- ===== src/Mysql/Pool/Atomic.antt =====
-- The transactions of socket/mysql against what a database promises of its own.
use rocommon.Prelude.{List, [], ◌∷◌, Option, none, some, ◌≡◌, ◌≢◌, refl, ◌∙◌, ◌⊎◌, inl, inr, arith}
use rocommon.Text.{String}
use rocommon.Mysql.{DbError, in_commit, Answer, gave, failed, SqlResult, Driver}
use rocommon.Mysql.Pool.{
  end_xorm_tx, close_sqlx_tx, batch_next, batch_loop, batch_begun, batch_exec, committed,
  rolled_back, executed, sql_tx_proc, sql_tx_exec,
}

-- What all the statements make of the contents.
abbrev pub run_all : {V : Type 0} → (String → V → V) → List String → V → V
run_all run [] v = v
run_all run (s ∷ sqls) v = run_all run sqls (run s v)

-- The use that the package makes of a transaction: NewSqlTxConn, a SqlTxExec for each statement until one
-- fails, and a deferred CloseSqlTxConn with the error.
module _ {D : Type 0} (drv : Driver D) where
  exec_more : Option DbError × D → (D → Option DbError × D) → Option DbError × D
  exec_more (none, d) next = next d
  exec_more (some e, d) next = (some e, d)

  pub exec_until : List String → D → Option DbError × D
  unfolding exec_more
  exec_until [] d = (none, d)
  exec_until (s ∷ sqls) d = exec_more (sql_tx_exec drv s d) (λ e. exec_until sqls e)

  proc_of : Option DbError × D → Option DbError × D
  proc_of (r, d) = sql_tx_proc drv r d

  tx_begun : List String → Option DbError × D → Option DbError × D
  unfolding exec_until proc_of
  tx_begun sqls (none, d) = proc_of (exec_until sqls d)
  tx_begun sqls (some e, d) = (some e, d)

  pub run_tx : List String → D → Option DbError × D
  unfolding tx_begun
  run_tx sqls d = tx_begun sqls (drv.begin_tx d)

module _ {D V : Type 0} (drv : Driver D) (visible pending : D → V) (run : String → V → V) where
  -- The contents that others see, and those within the transaction: a statement changes the latter
  -- only, and a Commit alone makes them visible. A Commit that fails may have made them visible before the
  -- answer was lost, but never a part.
  pub record IsTransactional : Type 0 where
    pub begins :
        (d : D)
        → (drv.begin_tx d).0 ≡ none
        → (visible (drv.begin_tx d).1 ≡ visible d) × (pending (drv.begin_tx d).1 ≡ visible d)
    pub begin_fails : (d : D) → visible (drv.begin_tx d).1 ≡ visible d
    pub executes :
        (s : String) (d : D) (res : SqlResult)
        → (drv.exec_tx s d).0 ≡ gave res
        → pending (drv.exec_tx s d).1 ≡ run s (pending d)
    pub exec_hidden : (s : String) (d : D) → visible (drv.exec_tx s d).1 ≡ visible d
    pub commits : (d : D) → (drv.commit d).0 ≡ none → visible (drv.commit d).1 ≡ pending d
    pub commit_fails :
        (d : D) (e : DbError)
        → (drv.commit d).0 ≡ some e
        → (visible (drv.commit d).1 ≡ visible d) ⊎ (visible (drv.commit d).1 ≡ pending d)
    pub rolls_back : (d : D) → visible (drv.rollback d).1 ≡ visible d

  module _ (t : IsTransactional) where
    -- The end of a call that began with the contents `v`, where `w` are those of all the statements.
    abbrev BatchEnd : V → V → Option DbError × D → Type 0
    BatchEnd v w (r, d) = ((r ≡ none) × (visible d ≡ w)) ⊎ (visible d ≡ v)

    BatchEnd-commit : (d : D) → BatchEnd (visible d) (pending d) (none, (drv.commit d).1)
    BatchEnd-commit d = by_answer (drv.commit d).0 refl
      where
        by_answer :
            (r : Option DbError)
            → (drv.commit d).0 ≡ r
            → BatchEnd (visible d) (pending d) (none, (drv.commit d).1)
        by_answer none e = inl (refl, t.commits d e)
        by_answer (some x) e = elim (t.commit_fails d x e) [
          | inl same ↦ inr same
          | inr all ↦ inl (refl, all)
        ]

    BatchEnd-next :
        (s : String) (sqls : List String) (d : D) (a : Answer SqlResult)
        → (drv.exec_tx s d).0 ≡ a
        → ((e : D) → BatchEnd (visible e) (run_all run sqls (pending e)) (batch_loop drv sqls e))
        → BatchEnd
            (visible d)
            (run_all run sqls (run s (pending d)))
            (batch_next drv (a, (drv.exec_tx s d).1) (λ e. batch_loop drv sqls e))
    unfolding batch_next
    BatchEnd-next s sqls d (gave res) e ih =
        ground (arith, ih (drv.exec_tx s d).1, t.exec_hidden s d, t.executes s d res e)
    BatchEnd-next s sqls d (failed x) e ih =
        inr (t.rolls_back (drv.exec_tx s d).1 ∙ t.exec_hidden s d)

    BatchEnd-loop :
        (sqls : List String) (d : D)
        → BatchEnd (visible d) (run_all run sqls (pending d)) (batch_loop drv sqls d)
    unfolding batch_loop
    BatchEnd-loop [] d = BatchEnd-commit d
    BatchEnd-loop (s ∷ sqls) d =
        BatchEnd-next s sqls d (drv.exec_tx s d).0 refl (λ e. BatchEnd-loop sqls e)

    BatchEnd-begun :
        (sqls : List String) (d : D) (r : Option DbError)
        → (drv.begin_tx d).0 ≡ r
        → BatchEnd
            (visible d)
            (run_all run sqls (visible d))
            (batch_begun drv sqls (r, (drv.begin_tx d).1))
    unfolding batch_begun
    BatchEnd-begun sqls d none e =
        ground (arith, BatchEnd-loop sqls (drv.begin_tx d).1, t.begins d e)
    BatchEnd-begun sqls d (some x) e = inr (t.begin_fails d)

    -- BatchExec is all or nothing: the contents are those after all the statements, with no error, or those
    -- before the call; after an error they are the latter.
    pub batch_exec-all_or_none :
        (sqls : List String) (d : D)
        → let (r, e) = batch_exec drv sqls d in
          (((r ≡ none) × (visible e ≡ run_all run sqls (visible d))) ⊎ (visible e ≡ visible d))
          × (r ≢ none → visible e ≡ visible d)
    unfolding batch_exec
    batch_exec-all_or_none sqls d =
        let h = BatchEnd-begun sqls d (drv.begin_tx d).0 refl in
        (h, λ ne. elim h [ inl (n, _) ↦ absurd (ne n) | inr same ↦ same ])

    -- An error of Commit, as SqlTxProc reports it.
    abbrev pub IsCommitError : Option DbError → Type 0
    IsCommitError r = (e : DbError) × (r ≡ some (in_commit e))

    -- The same with the error of Commit kept: after another error the contents are those before.
    abbrev TxEnd : V → V → Option DbError × D → Type 0
    TxEnd v w (r, d) =
        ((r ≡ none) × (visible d ≡ w))
        ⊎ (((r ≢ none) × (visible d ≡ v)) ⊎ (IsCommitError r × (visible d ≡ w)))

    abbrev Until : V → V → Option DbError × D → Type 0
    Until v w (r, d) = (visible d ≡ v) × (r ≡ none → pending d ≡ w)

    Until-more :
        (s : String) (sqls : List String) (d : D) (a : Answer SqlResult)
        → (drv.exec_tx s d).0 ≡ a
        → ((e : D) → Until (visible e) (run_all run sqls (pending e)) (exec_until drv sqls e))
        → Until
            (visible d)
            (run_all run sqls (run s (pending d)))
            (exec_more drv (executed drv s (a, (drv.exec_tx s d).1)) (λ e. exec_until drv sqls e))
    unfolding exec_more executed
    Until-more s sqls d (gave res) e ih =
        ground (arith, ih (drv.exec_tx s d).1, t.exec_hidden s d, t.executes s d res e)
    Until-more s sqls d (failed x) e ih = (t.exec_hidden s d, λ n. absurd (ground (arith, n)))

    Until-exec_until :
        (sqls : List String) (d : D)
        → Until (visible d) (run_all run sqls (pending d)) (exec_until drv sqls d)
    unfolding exec_until sql_tx_exec
    Until-exec_until [] d = (refl, λ n. refl)
    Until-exec_until (s ∷ sqls) d =
        Until-more s sqls d (drv.exec_tx s d).0 refl (λ e. Until-exec_until sqls e)

    TxEnd-commit :
        (v w : V) (d : D) (c : Option DbError)
        → (drv.commit d).0 ≡ c
        → Until v w (none, d)
        → TxEnd v w (committed drv (c, (drv.commit d).1))
    unfolding committed
    TxEnd-commit v w d none e h = inl (refl, t.commits d e ∙ h.1 refl)
    TxEnd-commit v w d (some x) e h = elim (t.commit_fails d x e) [
      | inl same ↦ inr (inl (λ n. absurd (ground (arith, n)), same ∙ h.0))
      | inr all ↦ inr (inr ((x, refl), all ∙ h.1 refl))
    ]

    TxEnd-rollback :
        (v w : V) (d : D) (x : DbError) (c : Option DbError)
        → Until v w (some x, d)
        → TxEnd v w (rolled_back drv x (c, (drv.rollback d).1))
    unfolding rolled_back
    TxEnd-rollback v w d x none h =
        inr (inl (λ n. absurd (ground (arith, n)), t.rolls_back d ∙ h.0))
    TxEnd-rollback v w d x (some y) h =
        inr (inl (λ n. absurd (ground (arith, n)), t.rolls_back d ∙ h.0))

    TxEnd-proc :
        (v w : V) (r : Option DbError) (d : D) → Until v w (r, d) → TxEnd v w (sql_tx_proc drv r d)
    unfolding sql_tx_proc
    TxEnd-proc v w none d h = TxEnd-commit v w d (drv.commit d).0 refl h
    TxEnd-proc v w (some x) d h = TxEnd-rollback v w d x (drv.rollback d).0 h

    TxEnd-begun :
        (sqls : List String) (d : D) (r : Option DbError)
        → (drv.begin_tx d).0 ≡ r
        → TxEnd
            (visible d)
            (run_all run sqls (visible d))
            (tx_begun drv sqls (r, (drv.begin_tx d).1))
    unfolding tx_begun proc_of
    TxEnd-begun sqls d none e =
        let b = (drv.begin_tx d).1 in
        let (v, p) = t.begins d e in
        let u = exec_until drv sqls b in
        TxEnd-proc (visible d) (run_all run sqls (visible d)) u.0 u.1
          (ground (arith, Until-exec_until sqls b, v, p))
    TxEnd-begun sqls d (some x) e = inr (inl (λ n. absurd (ground (arith, n)), t.begin_fails d))

    -- Statements by SqlTxExec until one fails, closed by SqlTxProc with that error: without an error in the
    -- end all of them are visible; with one none is, unless it is the error of the Commit, after which
    -- none or all of them are.
    pub run_tx-all_or_error :
        (sqls : List String) (d : D)
        → let (r, e) = run_tx drv sqls d in
          ((r ≡ none) × (visible e ≡ run_all run sqls (visible d)))
          ⊎ (((r ≢ none) × (visible e ≡ visible d))
              ⊎ (IsCommitError r × (visible e ≡ run_all run sqls (visible d))))
    unfolding run_tx
    run_tx-all_or_error sqls d = TxEnd-begun sqls d (drv.begin_tx d).0 refl

-- The three ways to close a transaction are one.
pub sql_tx_proc_variants :
    {D : Type 0} (drv : Driver D) (e : Option DbError) (d : D)
    → (close_sqlx_tx drv e d ≡ sql_tx_proc drv e d) × (end_xorm_tx drv e d ≡ sql_tx_proc drv e d)
unfolding close_sqlx_tx end_xorm_tx sql_tx_proc
sql_tx_proc_variants drv none d = (refl, refl)
sql_tx_proc_variants drv (some x) d = (refl, refl)
