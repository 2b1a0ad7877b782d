-- ===== src/Domain.antt =====
-- internal/domain: the structs and constants that flow through all layers.
-- A UUID is a number, only ever compared; uuid.Nil is 0. A time.Time is a number of nanoseconds since the
-- zero time. Go strings are byte sequences, also the status and role types, which are strings in
-- the source. The request context carries nothing that the modelled code reads but the claims.
pub mod Errors
pub mod EventStatus
pub mod BookingStatus
pub mod Role
pub mod AuditAction
use go_ticket_booking_app.Base.{ℕ, Bool, Option, List}
use go_ticket_booking_app.Base.Int.{ℤ}
use go_ticket_booking_app.Base.Text.{Text}

pub record User : Type 0 where
  pub id : ℕ
  pub email : Text
  pub password_hash : Text
  pub first_name : Text
  pub last_name : Text
  pub role : Text
  pub is_active : Bool
  pub created_at : ℕ
  pub updated_at : ℕ

pub record Event : Type 0 where
  pub id : ℕ
  pub name : Text
  pub description : Text
  pub location : Text
  pub starts_at : ℕ
  pub ends_at : ℕ
  pub total_tickets : ℤ
  pub remaining_tickets : ℤ
  pub price_cents : ℤ
  pub status : Text
  pub created_by : ℕ
  pub version : ℤ
  pub created_at : ℕ
  pub updated_at : ℕ
  pub deleted_at : Option ℕ

pub record Booking : Type 0 where
  pub id : ℕ
  pub user_id : ℕ
  pub event_id : ℕ
  pub ticket_count : ℤ
  pub total_price_cents : ℤ
  pub status : Text
  pub version : ℤ
  pub booked_at : ℕ
  pub updated_at : ℕ
  pub cancelled_at : Option ℕ

-- UserClaims, with the two registered claims that are set.
pub record UserClaims : Type 0 where
  pub user_id : ℕ
  pub email : Text
  pub role : Text
  pub issued_at : ℕ
  pub expires_at : ℕ

-- The values of a map[string]any that comes from the JSON of a struct: texts (strings, UUIDs and
-- times) and numbers. A field that is null or left out by omitempty is not in the map.
pub data Value : Type 0 where
  text : Text → Value
  number : ℤ → Value

abbrev pub StateMap : Type 0
StateMap = List (Text × Value)

-- A nil `any` is `none`.
pub record DiffEntry : Type 0 where
  pub old : Option Value
  pub new : Option Value

abbrev pub DiffMap : Type 0
DiffMap = List (Text × DiffEntry)

-- A nil map or pointer is `none`.
pub record AuditLog : Type 0 where
  pub id : ℕ
  pub actor_id : Option ℕ
  pub resource_type : Text
  pub resource_id : ℕ
  pub action : Text
  pub old_state : Option StateMap
  pub new_state : Option StateMap
  pub diff : Option DiffMap
  pub ip_address : Text
  pub user_agent : Text
  pub created_at : ℕ
