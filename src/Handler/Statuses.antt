-- ===== src/Handler/Statuses.antt =====
-- The status codes of the booking handlers, against the rules and the tables.
use go_ticket_booking_app.Base.{
  ℕ, ◌≡◌, ◌≤◌, ◌⊎◌, inl, inr, refl, ap, ◌∙◌, Bool, Option, none, some, find, is_some, not,
  if◌then◌else◌, arith, ◌==◌, suc,
}
use go_ticket_booking_app.Base.Int.{ℤ, pos, ◌≤ℤ◌, ltb_ℤ}
use go_ticket_booking_app.Base.Text.{Text, text_eq}
use go_ticket_booking_app.Base.Rows.{has_key}
use go_ticket_booking_app.Domain.{Event, Booking, UserClaims}
use go_ticket_booking_app.Domain.EventStatus
use go_ticket_booking_app.Domain.Errors.{Error, Failure}
use go_ticket_booking_app.World.{Database, Env, World, Result, ok, err, delivered}
use go_ticket_booking_app.World.Logic.{After}
use go_ticket_booking_app.Cache.{Cache}
use go_ticket_booking_app.Postgres.Schema.{is_active}
use go_ticket_booking_app.Postgres.EventRepo.{is_live}
use go_ticket_booking_app.Postgres.BookingRepo.{is_active_for}
use go_ticket_booking_app.Postgres.Integrity.{Integrity, booking_id_of}
use go_ticket_booking_app.Service.Booking.{lock_key, lock_ttl, book_ticket, cancel_booking}
use go_ticket_booking_app.Service.Booking.Atomic.{Made, NotMade, book_ticket_atomic}
use go_ticket_booking_app.Service.Booking.Verdicts.{refusal, book_ticket_refused}
use go_ticket_booking_app.Service.Booking.CancelVerdicts.{cancel_refusal, cancel_booking_refused}
use go_ticket_booking_app.Handler.Answers.{Response, render, booking_body, respond}
use go_ticket_booking_app.Handler.Booking.{
  CreateBookingRequest, create_error_response, cancel_error_response, create, cancel,
}

-- The status that each rule of booking has, in the order of the rules.
abbrev pub create_status : Option Event → ℤ → Bool → ℕ
create_status none count booked = 404
create_status (some e) count booked =
    if not (text_eq e.status EventStatus.published)
    then 422
    else (if ltb_ℤ e.remaining_tickets count then 409 else (if booked then 409 else 201))

-- The status that each rule of cancelling has.
abbrev pub cancel_status : ℕ → Option Booking → ℕ
cancel_status user none = 404
cancel_status user (some b) =
    if not (b.user_id == user) then 403 else (if not (is_active b) then 422 else 200)

module _ {S : Type 0} (show : Failure → Text) where
  respond-err :
      {A : Type 0} (good : A → Response) (bad : Error → Response) (r : Result A × World S)
      (x : Error)
      → r.0 ≡ err x
      → (respond good bad r).0 ≡ bad x
  respond-err good bad (ok a, w) x h = cc
  respond-err good bad (err e, w) x h = ground arith

  module _ (env : Env) (cache : Cache S) (ip ua : Text) (claims : UserClaims) where
    refused_status :
        (event_id : ℕ) (o : Option Event) (count : ℤ) (booked : Bool) (x : Error)
        → refusal env cache claims.user_id event_id count ip ua o booked ≡ some x
        → (create_error_response show x).status ≡ create_status o count booked
    unfolding create_error_response
    refused_status event_id none count booked x h = ground arith
    refused_status event_id (some e) count booked x h = ground arith

    -- Where nothing is lost and the lock is free, a request for a positive number of tickets that
    -- the rules turn down is answered with the status of the first rule that it breaks: 404, 422
    -- or 409.
    pub create_refused_status :
        (req : CreateBookingRequest) (x : Error) (w : World S) (token : Text) (s : S)
        → Integrity env w.db
        → cache.acquire_lock (lock_key env req.event_id) lock_ttl w.cache ≡ (ok token, s)
        → ((k : ℕ) → env.delivery k ≡ delivered)
        → pos 1 ≤ℤ req.ticket_count
        → refusal env cache claims.user_id req.event_id req.ticket_count ip ua
            (find (is_live req.event_id) w.db.events)
            (is_some (find (is_active_for claims.user_id req.event_id) w.db.bookings))
          ≡ some x
        → (create show env cache ip ua (some claims) (ok req) w).0.status
          ≡ create_status
              (find (is_live req.event_id) w.db.events)
              req.ticket_count
              (is_some (find (is_active_for claims.user_id req.event_id) w.db.bookings))
    unfolding create
    create_refused_status req x w token s h lock calm positive r =
        ap (λ a. a.status)
          (respond-err (λ b. render 201 (booking_body b)) (create_error_response show)
            (book_ticket env cache claims.user_id req.event_id req.ticket_count ip ua w) x
            (book_ticket_refused env cache claims.user_id req.event_id req.ticket_count ip ua x w
              token s h lock calm positive r))
        ∙ refused_status req.event_id (find (is_live req.event_id) w.db.events) req.ticket_count
            (is_some (find (is_active_for claims.user_id req.event_id) w.db.bookings)) x r

    cancelled_status :
        (o : Option Booking) (x : Error)
        → cancel_refusal claims.user_id o ≡ some x
        → (cancel_error_response show x).status ≡ cancel_status claims.user_id o
    unfolding cancel_error_response
    cancelled_status none x h = ground arith
    cancelled_status (some b) x h = ground arith

    -- Where nothing is lost, a cancellation that the rules turn down is answered with the status of
    -- the first rule that it breaks: 404, 403 or 422.
    pub cancel_refused_status :
        (key : ℕ) (x : Error) (w : World S)
        → ((k : ℕ) → env.delivery k ≡ delivered)
        → cancel_refusal claims.user_id (find (has_key booking_id_of key) w.db.bookings) ≡ some x
        → (cancel show env cache ip ua (some key) (some claims) w).0.status
          ≡ cancel_status claims.user_id (find (has_key booking_id_of key) w.db.bookings)
    unfolding cancel
    cancel_refused_status key x w calm r =
        ap (λ a. a.status)
          (respond-err (λ b. render 200 (booking_body b)) (cancel_error_response show)
            (cancel_booking env cache key claims.user_id ip ua w) x
            (cancel_booking_refused env cache key claims.user_id ip ua x w calm r))
        ∙ cancelled_status (find (has_key booking_id_of key) w.db.bookings) x r

    error_status : (x : Error) → 400 ≤ (create_error_response show x).status
    unfolding create_error_response
    error_status x = ground arith

    answered :
        (P : Booking → Database → Type 0) (Q : Error → Database → Type 0)
        (r : Result Booking × World S)
        → After (λ b w'. P b w'.db) (λ x w'. Q x w'.db) r
        → let a = respond (λ b. render 201 (booking_body b)) (create_error_response show) r in
          ((b : Booking) × (a.0 ≡ render 201 (booking_body b)) × P b a.1.db)
          ⊎ ((x : Error) × (a.0 ≡ create_error_response show x) × (400 ≤ a.0.status) × Q x a.1.db)
    answered P Q (ok b, v) h = inl (b, refl, h)
    answered P Q (err x, v) h = inr (x, refl, error_status x, h)

    -- For an event that is live, the answer to a booking request is true. Either it is 201 with the
    -- booking, and the whole booking has been made; or it is the answer to an error, with a status of
    -- 400 or more, and the tables are as they were, unless that error is a COMMIT whose reply was lost.
    pub create_answers :
        (req : CreateBookingRequest) (w : World S) (e : Event)
        → find (is_live req.event_id) w.db.events ≡ some e
        → ((b : Booking) × ((create show env cache ip ua (some claims) (ok req) w).0
              ≡ render 201 (booking_body b))
            × Made env cache claims.user_id req.event_id req.ticket_count ip ua w.db e
                (suc w.statements)
                b
                (create show env cache ip ua (some claims) (ok req) w).1.db)
          ⊎ ((x : Error) × ((create show env cache ip ua (some claims) (ok req) w).0
                ≡ create_error_response show x)
              × (400 ≤ (create show env cache ip ua (some claims) (ok req) w).0.status)
              × NotMade env cache claims.user_id req.event_id req.ticket_count ip ua w.db e
                  (suc w.statements)
                  x
                  (create show env cache ip ua (some claims) (ok req) w).1.db)
    unfolding create
    create_answers req w e found =
        answered
          (Made env cache claims.user_id req.event_id req.ticket_count ip ua w.db e
            (suc w.statements))
          (NotMade env cache claims.user_id req.event_id req.ticket_count ip ua w.db e
            (suc w.statements))
          (book_ticket env cache claims.user_id req.event_id req.ticket_count ip ua w)
          (book_ticket_atomic env cache claims.user_id req.event_id req.ticket_count ip ua w e
            found)
