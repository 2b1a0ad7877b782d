-- ===== src/Postgres/Schema.antt =====
-- The constraints of migrations/001 to 004 on a row: its column types and CHECK constraints.
use go_ticket_booking_app.Base.{
  Bool, not, Option, none, some, ◌&&◌, ◌||◌, ltb, List, [], ◌∷◌, if◌then◌else◌,
}
use go_ticket_booking_app.Base.Int.{pos, is_int32, ltb_ℤ, leb_ℤ}
use go_ticket_booking_app.Base.Text.{Text, text_eq}
use go_ticket_booking_app.Domain.{Event, Booking}
use go_ticket_booking_app.Domain.EventStatus
use go_ticket_booking_app.Domain.BookingStatus
use go_ticket_booking_app.Domain.Errors.{Failure, check_violation, out_of_range, invalid_text}
use go_ticket_booking_app.World.{Env}

-- CREATE TYPE event_status AS ENUM
abbrev pub is_event_status : Text → Bool
is_event_status s =
    text_eq s EventStatus.draft
    || text_eq s EventStatus.published
    || text_eq s EventStatus.cancelled
    || text_eq s EventStatus.sold_out

-- CREATE TYPE booking_status AS ENUM
abbrev pub is_booking_status : Text → Bool
is_booking_status s =
    text_eq s BookingStatus.pending
    || text_eq s BookingStatus.confirmed
    || text_eq s BookingStatus.cancelled
    || text_eq s BookingStatus.refunded

-- The INT columns of events.
abbrev pub event_ints : Event → Bool
event_ints e =
    is_int32 e.total_tickets
    && is_int32 e.remaining_tickets
    && is_int32 e.price_cents
    && is_int32 e.version

-- events_tickets_positive, events_remaining_valid, events_dates_valid, events_price_nonnegative
abbrev pub event_checks : Event → Bool
event_checks e =
    ltb_ℤ (pos 0) e.total_tickets
    && (leb_ℤ (pos 0) e.remaining_tickets && leb_ℤ e.remaining_tickets e.total_tickets)
    && ltb e.starts_at e.ends_at
    && leb_ℤ (pos 0) e.price_cents

-- The texts of an event: VARCHAR(255), TEXT, and the enumeration of the status.
abbrev pub event_texts : Env → Event → Bool
event_texts env e =
    env.varchar 255 e.name
    && env.is_text e.description
    && env.varchar 255 e.location
    && is_event_status e.status

-- BIGINT holds every int64.
abbrev pub booking_ints : Booking → Bool
booking_ints b = is_int32 b.ticket_count && is_int32 b.version

-- bookings_ticket_count_positive, bookings_price_nonnegative
abbrev pub booking_checks : Booking → Bool
booking_checks b = ltb_ℤ (pos 0) b.ticket_count && leb_ℤ (pos 0) b.total_price_cents

-- The rows of idx_bookings_one_active_per_user.
abbrev pub is_active : Booking → Bool
is_active b = text_eq b.status BookingStatus.pending || text_eq b.status BookingStatus.confirmed

-- What is wrong with the parameters of a statement that sends an event, before any row is looked at:
-- pgx encodes an INT parameter in 32 bits or not at all, and the server reads the texts and the
-- enumeration.
abbrev pub parameter_violation : Env → Event → Option Failure
parameter_violation env e =
    if not (event_ints e)
    then some out_of_range
    else (if not (
          env.is_text e.name
          && env.is_text e.description
          && env.is_text e.location
          && is_event_status e.status)
        then some invalid_text
        else none)

-- The first constraint that a row breaks.
unfoldable pub event_violation : Env → Event → Option Failure
event_violation env e =
    if not (event_ints e)
    then some out_of_range
    else (if not (event_texts env e)
        then some invalid_text
        else (if not (event_checks e) then some check_violation else none))

unfoldable pub booking_violation : Booking → Option Failure
booking_violation b =
    if not (booking_ints b)
    then some out_of_range
    else (if not (is_booking_status b.status)
        then some invalid_text
        else (if not (booking_checks b) then some check_violation else none))

-- An UPDATE checks each row that it changes; one violation undoes it whole.
unfoldable pub first_violation {ℓ} :
    {A : Type ℓ} → (A → Option Failure) → (A → Bool) → (A → A) → List A → Option Failure
first_violation check p f [] = none
first_violation check p f (x ∷ xs) =
    let rest = first_violation check p f xs in
    if p x then elim (check (f x)) [ some v ↦ some v | none ↦ rest ] else rest
