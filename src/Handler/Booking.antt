-- ===== src/Handler/Booking.antt =====
-- internal/handler/booking_handler.go.
use go_ticket_booking_app.Base.{ℕ, Option, none, some, List, if◌then◌else◌}
use go_ticket_booking_app.Base.Int.{ℤ}
use go_ticket_booking_app.Base.Text.{Text, bytes}
use go_ticket_booking_app.Domain.{Booking, UserClaims}
use go_ticket_booking_app.Domain.Errors.{
  Error, is, Failure, event_not_found, event_not_available, insufficient_tickets,
  booking_already_active, booking_not_found, not_booking_owner, booking_cannot_cancel,
}
use go_ticket_booking_app.World.{Env, World, Result, ok, err}
use go_ticket_booking_app.Cache.{Cache}
use go_ticket_booking_app.Handler.Answers.{
  Response, render, render_error, error_text, respond, unauthorized, invalid_body, booking_body,
  bookings_body,
}
use go_ticket_booking_app.Service.Booking.{
  BatchBookRequest, book_ticket, cancel_booking, batch_book,
}

pub record CreateBookingRequest : Type 0 where
  pub event_id : ℕ
  pub ticket_count : ℤ

module _ (show : Failure → Text) where
  -- The switch of Create.
  unfoldable pub create_error_response : Error → Response
  create_error_response e =
      if is event_not_found e
      then render_error 404 (bytes "event not found")
      else (if is event_not_available e
          then render_error 422 (error_text show e)
          else (if is insufficient_tickets e
              then render_error 409 (error_text show e)
              else (if is booking_already_active e
                  then render_error 409 (error_text show e)
                  else render_error 400 (error_text show e))))

  -- The switch of Cancel.
  unfoldable pub cancel_error_response : Error → Response
  cancel_error_response e =
      if is booking_not_found e
      then render_error 404 (bytes "booking not found")
      else (if is not_booking_owner e
          then render_error 403 (error_text show e)
          else (if is booking_cannot_cancel e
              then render_error 422 (error_text show e)
              else render_error 500 (bytes "could not cancel booking")))

  -- render(…) of the bookings, unless BatchBook has returned an error: then the bookings are dropped.
  abbrev pub batch_response : List Booking × Option Error → Response
  batch_response (bookings, none) = render 201 (bookings_body bookings)
  batch_response (bookings, some e) = render_error 400 (error_text show e)

  module _ {S : Type 0} (env : Env) (cache : Cache S) (ip ua : Text) where
    -- BookingHandler.Create: the claims in the context, and the body or the error that decoding it
    -- gave.
    unfoldable pub create :
        Option UserClaims → Result CreateBookingRequest → World S → Response × World S
    create none body w = (unauthorized, w)
    create (some claims) (err e) w = (invalid_body show e, w)
    create (some claims) (ok req) w =
        respond (λ b. render 201 (booking_body b)) create_error_response
          (book_ticket env cache claims.user_id req.event_id req.ticket_count ip ua w)

    -- BookingHandler.Cancel: the id of the path, where it is a UUID.
    unfoldable pub cancel : Option ℕ → Option UserClaims → World S → Response × World S
    cancel none claims w = (render_error 400 (bytes "invalid UUID"), w)
    cancel (some booking_id) none w = (unauthorized, w)
    cancel (some booking_id) (some claims) w =
        respond (λ b. render 200 (booking_body b)) cancel_error_response
          (cancel_booking env cache booking_id claims.user_id ip ua w)

    -- BookingHandler.BatchCreate
    unfoldable pub batch_create :
        Option UserClaims → Result (List BatchBookRequest) → World S → Response × World S
    batch_create none body w = (unauthorized, w)
    batch_create (some claims) (err e) w = (invalid_body show e, w)
    batch_create (some claims) (ok reqs) w =
        respond batch_response (λ e. render_error 400 (error_text show e))
          (batch_book env cache reqs claims.user_id ip ua w)
