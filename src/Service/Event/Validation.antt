-- ===== src/Service/Event/Validation.antt =====
-- What the event service's own validation accepts, against the constraints of the schema.
use go_ticket_booking_app.Base.{ℕ, ◌≡◌, ◌≢◌, ◌↔◌, ◌≤◌, true, none, [], length, arith}
use go_ticket_booking_app.World.{Env}
use go_ticket_booking_app.Postgres.Schema.{event_checks}
use go_ticket_booking_app.Postgres.EventRepo.{to_microseconds, new_event}
use go_ticket_booking_app.Service.Event.{CreateEventRequest, validate_create_event, drafted}

-- Of a request whose times are whole microseconds, the validation of a new event accepts exactly the
-- one whose name has at least three bytes, whose location is not empty, and whose row, as the INSERT
-- makes it, meets every CHECK constraint of the table.
pub validate_create_event_exact :
    (env : Env) (t actor_id : ℕ) (req : CreateEventRequest)
    → to_microseconds req.starts_at ≡ req.starts_at
    → to_microseconds req.ends_at ≡ req.ends_at
    → (validate_create_event req ≡ none) ↔ (
        (3 ≤ length req.name)
        × (req.location ≢ [])
        × (event_checks (new_event env t (drafted req actor_id)) ≡ true))
unfolding validate_create_event drafted
validate_create_event_exact env t actor_id req starts ends =
    rw (starts, ends) (λ h. ground arith, λ h. ground arith)
