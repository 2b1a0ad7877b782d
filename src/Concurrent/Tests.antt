-- ===== src/Concurrent/Tests.antt =====
-- Calls that run at the same time on the small database: the first user books two tickets, while
-- the second one cancels a booking of three, or books again.
use go_ticket_booking_app.Base.{
  ℕ, zero, suc, ◌≡◌, refl, true, some, none, List, [], ◌∷◌, find, ◌==◌, if◌then◌else◌,
}
use go_ticket_booking_app.Base.Int.{pos, ◌≤ℤ◌, ◌+ℤ◌, ◌-ℤ◌, ◌*ℤ◌, wrap64}
use go_ticket_booking_app.Base.Text.{text_eq}
use go_ticket_booking_app.Domain.{Booking}
use go_ticket_booking_app.World.Calls.{rollback, tx_query, pool_query, commit}
use go_ticket_booking_app.Domain.EventStatus
use go_ticket_booking_app.Postgres.Schema.{event_violation, booking_violation, first_violation}
use go_ticket_booking_app.Postgres.EventRepo
use go_ticket_booking_app.Postgres.EventRepo.{
  is_live, select_event, update_events, update_row, update_events_returning,
}
use go_ticket_booking_app.Postgres.BookingRepo
use go_ticket_booking_app.Postgres.BookingRepo.{
  is_active_for, new_booking, insert_booking, select_booking, select_booking_of, cancel_row,
}
use go_ticket_booking_app.Postgres.AuditRepo
use go_ticket_booking_app.Postgres.AuditRepo.{insert_audit_log}
use go_ticket_booking_app.Service.Booking.{requested, total_price, finish}
use go_ticket_booking_app.Service.Event.{
  revised, save_event, validate_create_event, validate_update_event,
}
use go_ticket_booking_app.Concurrent.Commits.{with_everything, commit_is_booking}
use go_ticket_booking_app.Postgres.Integrity.{Integrity}
use go_ticket_booking_app.Postgres.Capacity.{capacity, sold}
use go_ticket_booking_app.Samples.{env, free, world, concert, reserved, larger, tables-Integrity}
use go_ticket_booking_app.Concurrent.{
  BookRequest, CancelRequest, books, selected, taken, marked, updates,
}
use go_ticket_booking_app.Concurrent.Steps.{step, step_book, step_cancel, step_event}
use go_ticket_booking_app.Concurrent.System.{
  Call, book_ticket, cancel_booking, update_event, System, Move, proceeds, aborts, begins,
  interleave, move,
}
use go_ticket_booking_app.Concurrent.Safety.{interleave_no_oversell}

abbrev two_tickets : ℕ → BookRequest
two_tickets user_id = record { user_id = user_id; event_id = 7; count = pos 2; ip = []; ua = [] }

abbrev cancel_three : CancelRequest
cancel_three = record { booking_id = 20; user_id = 2; ip = []; ua = [] }

abbrev calls : ℕ → Call
calls zero = book_ticket (two_tickets 1)
calls (suc zero) = cancel_booking cancel_three
calls (suc (suc n)) = update_event 7 (larger (pos 0)) 1

-- The update reads the event, the booking and the cancellation meet at its row, and the update's
-- version is stale in the end.
abbrev mixed : List Move
mixed =
    proceeds 2
    ∷ proceeds 0
    ∷ proceeds 1
    ∷ proceeds 1
    ∷ proceeds 1
    ∷ proceeds 0
    ∷ proceeds 2
    ∷ proceeds 0
    ∷ proceeds 0
    ∷ proceeds 1
    ∷ aborts 3
    ∷ proceeds 1
    ∷ proceeds 2
    ∷ []

interleave_no_oversell_example :
    Integrity env (interleave env free mixed (begins calls world)).server.world.db
    × (sold 7 (interleave env free mixed (begins calls world)).server.world.db.bookings ≤ℤ pos 10)
unfolding capacity sold ◌+ℤ◌
interleave_no_oversell_example =
    interleave_no_oversell env free calls mixed world 7 (pos 10) tables-Integrity refl

abbrev three_steps : List Move
three_steps = proceeds 0 ∷ proceeds 0 ∷ proceeds 0 ∷ []

abbrev made : Booking
made = new_booking env 1 (requested 1 7 (pos 2) concert)

commit_is_booking_example :
    ((step env free 0
        (taken (two_tickets 1) concert made 1002)
        (interleave env free three_steps (begins calls world)).server).1.world.db
      ≡ with_everything env free
          (two_tickets 1)
          concert
          made
          1002
          (interleave env free three_steps (begins calls world)).server.world.statements
          (interleave env free three_steps (begins calls world)).server.world.db)
    × (made ≡ made)
    × (find
          (is_live 7)
          (interleave env free three_steps (begins calls world)).server.world.db.events
        ≡ some concert)
    × (text_eq concert.status EventStatus.published ≡ true)
    × (pos 2 ≤ℤ concert.remaining_tickets)
    × (find
          (is_active_for 1 7)
          (interleave env free three_steps (begins calls world)).server.world.db.bookings
        ≡ none)
unfolding interleave move step rollback step_book EventRepo.get_by_id_for_update
    BookingRepo.create_in_tx EventRepo.update_tickets_in_tx tx_query select_event insert_booking
    update_events first_violation event_violation booking_violation total_price wrap64 ◌+ℤ◌ ◌-ℤ◌
    ◌*ℤ◌ finish commit AuditRepo.log_in_tx insert_audit_log
commit_is_booking_example =
    commit_is_booking env free calls three_steps world 0 (two_tickets 1) concert made made 1002
      tables-Integrity refl refl

-- A user who cancels a booking and books the event again at the same time: the booking has locked
-- the event and waits for the index entry of the cancelled row, the cancellation has locked that row
-- and waits for the event. Neither proceeds, until PostgreSQL ends one of them.
abbrev crossed : ℕ → Call
crossed zero = book_ticket (two_tickets 2)
crossed (suc n) = cancel_booking cancel_three

abbrev until_locked : List Move
until_locked = proceeds 0 ∷ proceeds 1 ∷ proceeds 1 ∷ []

deadlocked :
    ((interleave env free
          (proceeds 0 ∷ proceeds 1 ∷ [])
          (interleave env free until_locked (begins crossed world))).threads
        0
      ≡ selected (two_tickets 2) concert)
    × ((interleave env free
            (proceeds 0 ∷ proceeds 1 ∷ [])
            (interleave env free until_locked (begins crossed world))).threads
          1
        ≡ marked cancel_three reserved reserved 1003)
unfolding interleave move step rollback step_book step_cancel EventRepo.get_by_id_for_update
    tx_query select_event BookingRepo.get_by_id pool_query select_booking select_booking_of
    cancel_row booking_violation first_violation ◌+ℤ◌
deadlocked = (refl, refl)

-- An update that names the version that a booking is about to make writes the unsold tickets that it
-- has read over those that the booking has left: five bookable tickets become seven.
abbrev guessed : System (Unit {0})
guessed = record (begins calls world) {
  threads = λ i. if i == 1 then updates 7 (larger (pos 3)) 1 else books (two_tickets 1);
}

abbrev around_a_booking : List Move
around_a_booking = proceeds 1 ∷ proceeds 0 ∷ proceeds 0 ∷ proceeds 0 ∷ proceeds 0 ∷ proceeds 1 ∷ []

oversold : capacity 7 (interleave env free around_a_booking guessed).server.world.db ≡ some (pos 12)
unfolding interleave move step rollback step_book step_event EventRepo.get_by_id_for_update
    BookingRepo.create_in_tx EventRepo.update_tickets_in_tx tx_query select_event insert_booking
    update_events first_violation event_violation booking_violation total_price wrap64 ◌+ℤ◌ ◌-ℤ◌
    ◌*ℤ◌ finish commit AuditRepo.log_in_tx insert_audit_log EventRepo.get_by_id pool_query
    save_event validate_update_event EventRepo.update update_row update_events_returning revised
    validate_create_event AuditRepo.log capacity sold
oversold = refl
