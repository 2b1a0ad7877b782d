-- ===== src/Service/Event/Create.antt =====
-- EventService.Create as one step.
use go_ticket_booking_app.Base.{ℕ, ◌≡◌, ◌⊎◌, none, ◌∷◌, find, arith, ◌==◌}
use go_ticket_booking_app.Base.Text.{bytes}
use go_ticket_booking_app.Domain.{Event}
use go_ticket_booking_app.Domain.Errors.{wrap, driver, connection_lost}
use go_ticket_booking_app.World.{Database, Env, World}
use go_ticket_booking_app.World.Calls.{pool_query}
use go_ticket_booking_app.World.Logic.{After}
use go_ticket_booking_app.Cache.{Cache}
use go_ticket_booking_app.Postgres.Schema.{event_violation}
use go_ticket_booking_app.Postgres.EventRepo
use go_ticket_booking_app.Postgres.EventRepo.{new_event, insert_event}
use go_ticket_booking_app.Postgres.AuditRepo
use go_ticket_booking_app.Postgres.AuditRepo.{insert_audit_log}
use go_ticket_booking_app.Service.Booking.Cancel.{SameButLogs}
use go_ticket_booking_app.Service.Event.{
  CreateEventRequest, validate_create_event, drafted, create_event,
}

module _ {S : Type 0} (env : Env) (cache : Cache S) (req : CreateEventRequest) (actor_id : ℕ) where
  abbrev pub new_row : ℕ → Event
  new_row n = new_event env n (drafted req actor_id)

  -- The row is in the table, and it was valid, of a new id, and all its tickets are on sale.
  abbrev pub Added : Database → ℕ → Database → Type 0
  Added start n d =
      SameButLogs (record start { events = new_row n ∷ start.events }) d
      × (validate_create_event req ≡ none)
      × (event_violation env (new_row n) ≡ none)
      × (find (λ x. x.id == (new_row n).id) start.events ≡ none)

  pub create_event_atomic :
      (w : World S)
      → After
          (λ e w'. (e ≡ new_row w.statements) × Added w.db w.statements w'.db)
          (λ x w'.
            (w'.db ≡ w.db)
            ⊎ ((x
                  ≡ wrap
                      (bytes "create event: ")
                      (wrap (bytes "create event: ") (driver connection_lost)))
                × Added w.db w.statements w'.db))
          (create_event env cache req actor_id w)
  unfolding create_event EventRepo.create pool_query insert_event AuditRepo.log insert_audit_log
  create_event_atomic w = ground arith
