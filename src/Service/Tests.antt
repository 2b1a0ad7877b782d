-- ===== src/Service/Tests.antt =====
-- Both services run on the small database.
use go_ticket_booking_app.Base.{◌≡◌, refl, some, find, List, [], ◌∷◌}
use go_ticket_booking_app.Base.Int.{pos, ◌+ℤ◌}
use go_ticket_booking_app.Samples.{
  env, free, tables, world, concert, reserved, gig, larger, tables-Integrity,
}
use go_ticket_booking_app.Service.Booking.History.{books, cancels, batches}
use go_ticket_booking_app.World.Logic.{After}
use go_ticket_booking_app.Postgres.EventRepo.{is_at_version}
use go_ticket_booking_app.Postgres.Cancelling.{cancelled}
use go_ticket_booking_app.Service.Event.{save_event}
use go_ticket_booking_app.Service.LostUpdate.{restocked, save_event-cancelled}
use go_ticket_booking_app.Service.History.{Action, booking, creates, updates, deletes, creates_all}

-- Two bookings, one of them refused, a move to a larger hall, two cancellations, new events, a
-- batch of bookings and a deletion.
abbrev acts : List Action
acts =
    booking (books 1 7 (pos 4) [] [])
    ∷ booking (books 1 7 (pos 4) [] [])
    ∷ updates 7 (larger (pos 3)) 1
    ∷ booking (cancels 20 2 [] [])
    ∷ booking (cancels 20 2 [] [])
    ∷ creates gig 1
    ∷ creates_all (gig ∷ gig ∷ []) 1
    ∷ booking (batches (record { event_id = 7; ticket_count = pos 1 } ∷ []) 2 [] [])
    ∷ deletes 7 1
    ∷ []

save_event-cancelled_example :
    (find (is_at_version 7 (pos 2)) (cancelled env 20 2 tables reserved 1).events
      ≡ some (restocked env free tables concert reserved 20 2 1))
    × (pos 7 +ℤ pos 3 ≡ pos 7 +ℤ pos 3)
    × After
        (λ row _. row.remaining_tickets ≡ pos 7)
        (λ _ _. Unit {0})
        (save_event env free 7
          (larger (pos 2))
          1
          concert
          (record world { db = cancelled env 20 2 tables reserved 1 }))
save_event-cancelled_example =
    save_event-cancelled env free tables concert reserved 20 2 1 7 (larger (pos 2)) 1
      (record world { db = cancelled env 20 2 tables reserved 1 }) tables-Integrity refl refl refl
