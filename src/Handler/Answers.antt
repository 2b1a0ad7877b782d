-- ===== src/Handler/Answers.antt =====
-- internal/handler/helper.go: what the handlers write, and the texts of errors.
use go_ticket_booking_app.Base.{ℕ, Bool, List, ◌++◌}
use go_ticket_booking_app.Base.Text.{Text, bytes}
use go_ticket_booking_app.Domain.{User, Event, Booking, AuditLog}
use go_ticket_booking_app.Domain.Errors.{
  Error, sentinel, message, driver, wrap, Failure, sentinel_text,
}
use go_ticket_booking_app.World.{World, Result, ok, err}

-- The JSON of a User: its fields but PasswordHash.
pub record UserJson : Type 0 where
  pub id : ℕ
  pub email : Text
  pub first_name : Text
  pub last_name : Text
  pub role : Text
  pub is_active : Bool
  pub created_at : ℕ
  pub updated_at : ℕ

abbrev pub user_json : User → UserJson
user_json u = record {
  id = u.id;
  email = u.email;
  first_name = u.first_name;
  last_name = u.last_name;
  role = u.role;
  is_active = u.is_active;
  created_at = u.created_at;
  updated_at = u.updated_at;
}

pub data Body : Type 0 where
  error_body : Text → Body
  booking_body : Booking → Body
  bookings_body : List Booking → Body
  session_body : UserJson → (token : Text) → Body
  event_body : Event → Body
  events_body : List Event → Body
  logs_body : List AuditLog → Body
  no_body : Body
  health_body : Body

-- What render and renderError write.
pub record Response : Type 0 where
  pub status : ℕ
  pub body : Body

abbrev pub render : ℕ → Body → Response
render status body = record { status = status; body = body }

abbrev pub render_error : ℕ → Text → Response
render_error status msg = render status (error_body msg)

-- err.Error(), over the texts of the driver's errors
abbrev pub error_text : (Failure → Text) → Error → Text
error_text show (sentinel s) = sentinel_text s
error_text show (message t) = t
error_text show (driver f) = show f
error_text show (wrap t e) = t ++ error_text show e

abbrev pub respond :
    {S A : Type 0} → (A → Response) → (Error → Response) → Result A × World S → Response × World S
respond good bad r = (elim r.0 [ ok a ↦ good a | err e ↦ bad e ], r.1)

abbrev pub unauthorized : Response
unauthorized = render_error 401 (bytes "unauthorized")

module _ (show : Failure → Text) where
  -- What decode writes when the body cannot be read.
  abbrev pub invalid_body : Error → Response
  invalid_body e = render_error 400 (bytes "invalid request body: " ++ error_text show e)
