-- ===== src/Service/Booking/Tests.antt =====
-- The booking service run on a small database: one published event with ten tickets, a user with an
-- active booking for three of them, and a user with none.
use go_ticket_booking_app.Samples.{env, free, tables, world, concert, reserved, tables-Integrity}
use go_ticket_booking_app.Base.{◌≡◌, refl, false, none, [], arith}
use go_ticket_booking_app.Base.Int.{pos, ◌+ℤ◌, ◌-ℤ◌, ◌*ℤ◌, ◌≤ℤ◌}
use go_ticket_booking_app.Base.Text.{bytes}
use go_ticket_booking_app.Domain.Errors.{sentinel, insufficient_tickets, not_booking_owner}
use go_ticket_booking_app.World.{ok, err}
use go_ticket_booking_app.World.Logic.{After}
use go_ticket_booking_app.Postgres.Schema.{event_violation, booking_violation, first_violation}
use go_ticket_booking_app.Postgres.BookingRepo.{new_booking}
use go_ticket_booking_app.Service.Booking.{total_price, requested, book_ticket, cancel_booking}
use go_ticket_booking_app.Service.Booking.Outcome.{booked_row}
use go_ticket_booking_app.Service.Booking.Atomic.{Made, NotMade, book_ticket_atomic}
use go_ticket_booking_app.Service.Booking.Cancel.{Returned, Refused, cancel_booking_atomic}
use go_ticket_booking_app.Service.Booking.Pricing.{total_price_exact}
use go_ticket_booking_app.Service.Booking.Address.{book_ticket_bad_address}
use go_ticket_booking_app.Service.Booking.Verdicts.{book_ticket_refused}
use go_ticket_booking_app.Service.Booking.Granted.{book_ticket_granted}
use go_ticket_booking_app.Service.Booking.CancelVerdicts.{cancel_booking_refused}

book_ticket_atomic_example :
    After
      (λ b w'. Made env free 1 7 (pos 2) [] [] tables concert 1 b w'.db)
      (λ x w'. NotMade env free 1 7 (pos 2) [] [] tables concert 1 x w'.db)
      (book_ticket env free 1 7 (pos 2) [] [] world)
book_ticket_atomic_example = book_ticket_atomic env free 1 7 (pos 2) [] [] world concert refl

book_ticket_refused_example :
    (book_ticket env free 1 7 (pos 8) [] [] world).0 ≡ err (sentinel insufficient_tickets)
book_ticket_refused_example =
    book_ticket_refused env free 1 7 (pos 8) [] [] (sentinel insufficient_tickets) world
      (bytes "token") tt tables-Integrity refl (λ _. refl) (omega arith) refl

book_ticket_granted_example :
    (book_ticket env free 1 7 (pos 2) [] [] world).0
    ≡ ok (booked_row env free 1 7 (pos 2) [] [] tables concert 1)
unfolding first_violation event_violation ◌+ℤ◌ ◌-ℤ◌
book_ticket_granted_example =
    book_ticket_granted env free 1 7 (pos 2) [] [] world concert (bytes "token") tt tables-Integrity
      refl (λ _. refl) (omega arith) refl refl refl refl refl refl refl

cancel_booking_atomic_example :
    After
      (λ row w'. Returned env free 20 2 [] [] tables reserved 2 row w'.db)
      (λ x w'. Refused env free 20 2 [] [] tables reserved 2 x w'.db)
      (cancel_booking env free 20 2 [] [] world)
cancel_booking_atomic_example = cancel_booking_atomic env free 20 2 [] [] world reserved refl

cancel_booking_refused_example :
    (cancel_booking env free 20 1 [] [] world).0 ≡ err (sentinel not_booking_owner)
cancel_booking_refused_example =
    cancel_booking_refused env free 20 1 [] [] (sentinel not_booking_owner) world (λ _. refl) refl

total_price_exact_example :
    (total_price (pos 2) concert ≡ pos 2 *ℤ pos 2500)
    × (pos 0 ≤ℤ total_price (pos 2) concert)
    × (booking_violation (new_booking env 3 (requested 1 7 (pos 2) concert)) ≡ none)
unfolding event_violation
total_price_exact_example =
    total_price_exact env concert (pos 2) 1 7 3 refl (omega arith) (omega arith)

-- A proxy that does not know the address.
book_ticket_bad_address_example :
    After
      (λ _ _. ⊥)
      (λ _ w'. w'.db ≡ world.db)
      (book_ticket (record env { inet = λ _. false }) free 1 7 (pos 4) (bytes "unknown") [] world)
book_ticket_bad_address_example =
    book_ticket_bad_address (record env { inet = λ _. false }) free 1 7 (pos 4) (bytes "unknown") []
      world refl refl
