-- ===== src/Handler/Tests.antt =====
-- The booking handlers on the small database.
use go_ticket_booking_app.Base.{ℕ, ◌≤◌, ◌≡◌, ◌≢◌, ◌⊎◌, refl, [], arith}
use go_ticket_booking_app.Base.Int.{pos, ◌+ℤ◌}
use go_ticket_booking_app.Base.Text.{Text, bytes}
use go_ticket_booking_app.Base.{some, false}
use go_ticket_booking_app.Domain.{Booking, UserClaims}
use go_ticket_booking_app.Domain.Role
use go_ticket_booking_app.Domain.Errors.{
  Error, Failure, sentinel, insufficient_tickets, not_booking_owner,
}
use go_ticket_booking_app.World.{World, ok}
use go_ticket_booking_app.Samples.{
  env, free, tables, world, concert, reserved, larger, user, tables-Integrity,
}
use go_ticket_booking_app.Service.Booking.Atomic.{Made, NotMade}
use go_ticket_booking_app.Base.Strings.{to_lower, trim_space}
use go_ticket_booking_app.World.Calls.{pool_query}
use go_ticket_booking_app.Postgres.Schema.{first_violation, event_violation}
use go_ticket_booking_app.Postgres.EventRepo
use go_ticket_booking_app.Postgres.EventRepo.{select_event, update_row, update_events_returning}
use go_ticket_booking_app.Service.Event.{
  UpdateEventRequest, update_event, save_event, validate_update_event, validate_create_event,
  revised,
}
use go_ticket_booking_app.Service.Auth.Plain.{plain, sign}
use go_ticket_booking_app.Handler.Event
use go_ticket_booking_app.Handler.Event.{uuid}
use go_ticket_booking_app.Handler.Account
use go_ticket_booking_app.Handler.Updates.{update_once}
use go_ticket_booking_app.Handler.Logins.{due_answer, login_answers}
use go_ticket_booking_app.Handler.Answers.{Response, render, booking_body}
use go_ticket_booking_app.Handler.Booking.{
  CreateBookingRequest, create, create_error_response, cancel,
}
use go_ticket_booking_app.Handler.Statuses.{
  create_status, cancel_status, create_refused_status, cancel_refused_status, create_answers,
}

abbrev show : Failure → Text
show _ = bytes "driver error"

abbrev claims : UserClaims
claims = record {
  user_id = 1;
  email = bytes "u@example.com";
  role = Role.user;
  issued_at = 1;
  expires_at = 100;
}

abbrev asks : ℕ → CreateBookingRequest
asks n = record { event_id = 7; ticket_count = pos n }

create_refused_status_example :
    (create show env free [] [] (some claims) (ok (asks 8)) world).0.status
    ≡ create_status (some concert) (pos 8) false
create_refused_status_example =
    create_refused_status show env free [] [] claims (asks 8) (sentinel insufficient_tickets) world
      (bytes "token") tt tables-Integrity refl (λ _. refl) (omega arith) refl

cancel_refused_status_example :
    (cancel show env free [] [] (some 20) (some claims) world).0.status
    ≡ cancel_status 1 (some reserved)
cancel_refused_status_example =
    cancel_refused_status show env free [] [] claims 20 (sentinel not_booking_owner) world
      (λ _. refl) refl

create_answers_example :
    ((b : Booking) × ((create show env free [] [] (some claims) (ok (asks 2)) world).0
        ≡ render 201 (booking_body b))
      × Made env free 1 7
          (pos 2)
          []
          []
          tables
          concert
          1
          b
          (create show env free [] [] (some claims) (ok (asks 2)) world).1.db)
    ⊎ ((x : Error) × ((create show env free [] [] (some claims) (ok (asks 2)) world).0
          ≡ create_error_response show x)
        × (400 ≤ (create show env free [] [] (some claims) (ok (asks 2)) world).0.status)
        × NotMade env free 1 7
            (pos 2)
            []
            []
            tables
            concert
            1
            x
            (create show env free [] [] (some claims) (ok (asks 2)) world).1.db)
create_answers_example = create_answers show env free [] [] claims (asks 2) world concert refl

abbrev put : UserClaims → UpdateEventRequest → World (Unit {0}) → Response × World (Unit {0})
put by req w = Event.update show env free (uuid 7) (some by) (ok req) w

put_ok : (put claims (larger (pos 2)) world).0.status ≡ 200
unfolding Event.update update_event save_event validate_update_event validate_create_event revised
    EventRepo.get_by_id EventRepo.update select_event update_row update_events_returning pool_query
    first_violation event_violation ◌+ℤ◌
put_ok = refl

-- Two admins move the concert to a larger hall at once.
update_once_example :
    (put claims (larger (pos 2)) (put claims (larger (pos 2)) world).1).0.status ≢ 200
update_once_example =
    update_once show env free 7 claims claims (larger (pos 2)) (larger (pos 2)) world concert
      tables-Integrity refl refl put_ok

-- A wrong password.
login_answers_example :
    (Account.login show plain env
      (ok record { email = bytes "u@example.com"; password = bytes "guess" })
      world).0
    ≡ due_answer plain (sign (bytes "secret")) 101 (bytes "guess") (some (user 1))
unfolding to_lower trim_space
login_answers_example =
    login_answers show plain env record { email = bytes "u@example.com"; password = bytes "guess" }
      (sign (bytes "secret")) world refl refl (λ _. refl)
