-- ===== src/World/Transactions.antt =====
-- A transaction in progress, and what a statement and a commit do to it, whatever is lost on the
-- way.
use go_ticket_booking_app.Base.{ℕ, suc, ◌≡◌, ◌⊎◌, arith}
use go_ticket_booking_app.Domain.Errors.{Error, driver, connection_lost}
use go_ticket_booking_app.World.{Database, active, Env, World}
use go_ticket_booking_app.World.Calls.{begin_tx, commit}
use go_ticket_booking_app.World.Logic.{After}

-- The committed tables are `start`, the transaction sees `d`, and `n` statements have been sent.
pub record InTx {S : Type 0} (start d : Database) (n : ℕ) (w : World S) : Type 0 where
  pub committed : w.db ≡ start
  pub view : w.session ≡ active d
  pub count : w.statements ≡ n

module _ {S : Type 0} (env : Env) (start d : Database) (n : ℕ) (w : World S) where
  -- The committed tables have not changed.
  abbrev pub Untouched : Error → World S → Type 0
  Untouched e w' = w'.db ≡ start

  pub begin_tx-After :
      w.db ≡ start
      → w.statements ≡ n
      → After (λ _ w'. InTx start start (suc n) w') (λ _ w'. w'.db ≡ start) (begin_tx env w)
  unfolding begin_tx
  begin_tx-After h k = ground arith

  -- A commit makes the view the committed tables. Where it fails, it has not, unless its reply
  -- was lost.
  pub commit-After :
      InTx start d n w
      → After
          (λ _ w'. w'.db ≡ d)
          (λ e w'. (w'.db ≡ start) ⊎ ((w'.db ≡ d) × (e ≡ driver connection_lost)))
          (commit env w)
  unfolding commit
  commit-After h = ground arith
