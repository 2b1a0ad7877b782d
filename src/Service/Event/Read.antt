-- ===== src/Service/Event/Read.antt =====
-- EventRepo.GetByID, with which Update and Delete begin.
use go_ticket_booking_app.Base.{ℕ, ◌≡◌, none, some, find, arith, suc}
use go_ticket_booking_app.Domain.{Event}
use go_ticket_booking_app.World.{Env, World}
use go_ticket_booking_app.World.Calls.{pool_query}
use go_ticket_booking_app.World.Logic.{After}
use go_ticket_booking_app.Postgres.EventRepo
use go_ticket_booking_app.Postgres.EventRepo.{is_live, select_event}

module _ {S : Type 0} (env : Env) (id : ℕ) (w : World S) where
  pub get_by_id-found :
      (e : Event)
      → find (is_live id) w.db.events ≡ some e
      → After
          (λ a w'. (a ≡ e) × (w'.db ≡ w.db) × (w'.statements ≡ suc w.statements))
          (λ _ w'. w'.db ≡ w.db)
          (EventRepo.get_by_id env id w)
  unfolding EventRepo.get_by_id pool_query select_event
  get_by_id-found e found = ground arith

  pub get_by_id-missing :
      find (is_live id) w.db.events ≡ none
      → After (λ _ _. ⊥) (λ _ w'. w'.db ≡ w.db) (EventRepo.get_by_id env id w)
  unfolding EventRepo.get_by_id pool_query select_event
  get_by_id-missing missing = ground arith
