-- ===== src/World/Calls.antt =====
-- How a statement reaches the database server: pgxpool's Query, QueryRow and Exec, and pgx.Tx.
-- A statement runs whole or not at all. Inside a transaction it acts on the transaction's view, and
-- a failed one aborts the transaction, whose Commit then rolls back and reports an error.
use go_ticket_booking_app.Base.{ℕ, suc, ◌+◌, List, [], ◌∷◌, length}
use go_ticket_booking_app.Domain.Errors.{
  driver, connection_lost, in_failed_transaction, tx_closed, commit_rollback,
}
use go_ticket_booking_app.World.{
  Database, Session, idle, active, failed, Delivery, delivered, lost_before, lost_after, Env, World,
  Result, ok, err, M,
}

-- A statement at the given number, over the tables: rows and the new tables, or an error.
abbrev pub Statement : Type 0 → Type 0
Statement A = ℕ → Database → Result (A × Database)

module _ {S : Type 0} where
  abbrev pub sent : World S → World S
  sent w = record w { statements = suc w.statements }

  abbrev pub settle : {A : Type 0} → Result (A × Database) → World S → Result A × World S
  settle (ok (a, d)) w = (ok a, record w { db = d })
  settle (err e) w = (err e, w)

  abbrev pub with_reply :
      {A : Type 0} → Delivery → (World S → Result A × World S) → World S → Result A × World S
  with_reply delivered run w = run w
  with_reply lost_before run w = (err (driver connection_lost), w)
  with_reply lost_after run w = (err (driver connection_lost), (run w).1)

  abbrev pub settle_tx : {A : Type 0} → Result (A × Database) → World S → Result A × World S
  settle_tx (ok (a, d)) w = (ok a, record w { session = active d })
  settle_tx (err e) w = (err e, record w { session = failed })

  abbrev pub in_session :
      {A : Type 0} → Session → Delivery → Statement A → ℕ → World S → Result A × World S
  in_session idle _ st t w = (err (driver tx_closed), w)
  in_session failed _ st t w = (err (driver in_failed_transaction), w)
  in_session (active d) delivered st t w = settle_tx (st t d) w
  in_session (active d) _ st t w = (err (driver connection_lost), record w { session = failed })

  abbrev pub commit_session : Session → Delivery → World S → Result (Unit {0}) × World S
  commit_session idle _ w = (err (driver tx_closed), w)
  commit_session failed _ w = (err (driver commit_rollback), record w { session = idle })
  commit_session (active d) delivered w = (ok tt, record w { db = d; session = idle })
  commit_session (active d) lost_before w =
      (err (driver connection_lost), record w { session = idle })
  commit_session (active d) lost_after w =
      (err (driver connection_lost), record w { db = d; session = idle })

-- The statements of a pgx.Batch in turn, each over the tables that the one before it left.
abbrev pub and_then : {A : Type 0} → A → Result (List A × Database) → Result (List A × Database)
and_then a (ok (rows, d)) = ok (a ∷ rows, d)
and_then a (err e) = err e

unfoldable pub run_batch :
    {A : Type 0} → List (Statement A) → ℕ → Database → Result (List A × Database)
run_batch [] t d = ok ([], d)
run_batch (st ∷ sts) t d = elim (st t d) [
  | err e ↦ err e
  | ok (a, d') ↦ and_then a (run_batch sts (suc t) d')
]

module _ {S : Type 0} (env : Env) where
  -- r.db.QueryRow and r.db.Exec: on a connection of the pool, committed at once.
  unfoldable pub pool_query : {A : Type 0} → Statement A → M S A
  pool_query st w =
      with_reply (env.delivery w.statements) (λ v. settle (st w.statements v.db) v) (sent w)

  -- r.db.SendBatch, outside a transaction: the server runs the statements in one of its own, so the
  -- first that fails undoes those before it.
  unfoldable pub send_batch : {A : Type 0} → List (Statement A) → M S (List A)
  send_batch sts w =
      with_reply (env.delivery w.statements) (λ v. settle (run_batch sts w.statements v.db) v)
        (record w { statements = w.statements + length sts })

  -- tx.QueryRow and tx.Exec
  unfoldable pub tx_query : {A : Type 0} → Statement A → M S A
  tx_query st w = in_session w.session (env.delivery w.statements) st w.statements (sent w)

  -- r.db.Begin
  unfoldable pub begin_tx : M S (Unit {0})
  begin_tx w =
      with_reply (env.delivery w.statements) (λ v. (ok tt, record v { session = active v.db }))
        (sent w)

  -- tx.Commit
  unfoldable pub commit : M S (Unit {0})
  commit w = commit_session w.session (env.delivery w.statements) (sent w)

  -- tx.Rollback: nothing once the transaction is over.
  unfoldable pub rollback : M S (Unit {0})
  rollback w = (ok tt, record (sent w) { session = idle })
