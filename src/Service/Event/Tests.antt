-- ===== src/Service/Event/Tests.antt =====
-- The event service run on the small database.
use go_ticket_booking_app.Base.{◌≡◌, ◌≢◌, ◌↔◌, ◌≤◌, ◌⊎◌, refl, true, false, none, [], ◌∷◌, length}
use go_ticket_booking_app.Base.Int.{pos}
use go_ticket_booking_app.Base.Text.{bytes}
use go_ticket_booking_app.Domain.Errors.{wrap, driver, connection_lost}
use go_ticket_booking_app.World.Logic.{After}
use go_ticket_booking_app.Postgres.Schema.{event_checks}
use go_ticket_booking_app.Postgres.EventRepo.{new_event, overwrite}
use go_ticket_booking_app.Samples.{env, free, tables, world, concert, gig, larger, tables-Integrity}
use go_ticket_booking_app.Service.Booking.{book_ticket}
use go_ticket_booking_app.Service.Event.{
  CreateEventRequest, validate_create_event, drafted, revised, update_event, delete_event,
  batch_create_events,
}
use go_ticket_booking_app.Service.Event.Validation.{validate_create_event_exact}
use go_ticket_booking_app.Service.Event.Update.{Saved, update_event_atomic}
use go_ticket_booking_app.Service.Event.Delete.{delete_event-unbookable}
use go_ticket_booking_app.Service.Event.Batch.{
  rows_of, drafts, AddedAll, batch_create_events_atomic,
}

validate_create_event_exact_example : (validate_create_event gig ≡ none) ↔ (
    (3 ≤ length (bytes "Gig"))
    × (bytes "Club" ≢ [])
    × (event_checks (new_event env 3 (drafted gig 1)) ≡ true))
validate_create_event_exact_example = validate_create_event_exact env 3 1 gig refl refl

-- An event that ends in the microsecond in which it starts.
abbrev brief : CreateEventRequest
brief = record gig { starts_at = 5100; ends_at = 5200 }

brief_accepted :
    (validate_create_event brief ≡ none)
    × (event_checks (new_event env 3 (drafted brief 1)) ≡ false)
unfolding validate_create_event drafted
brief_accepted = (refl, refl)

update_event_atomic_example :
    After
      (λ row w'.
        (pos 2 ≡ pos 2)
        × (row ≡ overwrite 1001 (revised concert (larger (pos 2))) concert)
        × Saved env free 7 (larger (pos 2)) 1 concert tables 1 w'.db)
      (λ x w'.
        (w'.db ≡ tables)
        ⊎ ((x ≡ wrap (bytes "update event: ") (driver connection_lost))
            × (pos 2 ≡ pos 2)
            × Saved env free 7 (larger (pos 2)) 1 concert tables 1 w'.db))
      (update_event env free 7 (larger (pos 2)) 1 world)
update_event_atomic_example =
    update_event_atomic env free 7 (larger (pos 2)) 1 world concert tables-Integrity refl

delete_event-unbookable_example :
    After
      (λ _ w'.
        After (λ _ _. ⊥) (λ _ w''. w''.db ≡ w'.db) (book_ticket env free 2 7 (pos 1) [] [] w'))
      (λ _ _. Unit {0})
      (delete_event env free 7 1 world)
delete_event-unbookable_example = delete_event-unbookable env free 7 1 world 2 (pos 1) [] []

batch_create_events_atomic_example :
    After
      (λ rows w'.
        (rows ≡ rows_of env 0 (drafts 1 (gig ∷ gig ∷ [])))
        × AddedAll env free (gig ∷ gig ∷ []) 1 tables 0 w'.db)
      (λ x w'.
        (w'.db ≡ tables)
        ⊎ ((x
              ≡ wrap
                  (bytes "batch create events: ")
                  (wrap (bytes "batch create event row: ") (driver connection_lost)))
            × AddedAll env free (gig ∷ gig ∷ []) 1 tables 0 w'.db))
      (batch_create_events env free (gig ∷ gig ∷ []) 1 world)
batch_create_events_atomic_example = batch_create_events_atomic env free (gig ∷ gig ∷ []) 1 world
