-- ===== src/Samples.antt =====
-- A small database and a cache server whose lock is free, on which the examples run.
use go_ticket_booking_app.Base.{ℕ, ◌+◌, refl, none, [], ◌∷◌, true}
use go_ticket_booking_app.Base.Int.{ℤ, pos}
use go_ticket_booking_app.Base.Text.{bytes}
use go_ticket_booking_app.Domain.{User, Event, Booking}
use go_ticket_booking_app.Domain.EventStatus
use go_ticket_booking_app.Domain.BookingStatus
use go_ticket_booking_app.Domain.Role
use go_ticket_booking_app.World.{Database, Env, World, delivered, idle, ok}
use go_ticket_booking_app.Cache.{Cache}
use go_ticket_booking_app.Service.Event.{CreateEventRequest, UpdateEventRequest}
use go_ticket_booking_app.Postgres.Schema.{event_violation, booking_violation}
use go_ticket_booking_app.Postgres.Integrity.{Integrity}

abbrev pub env : Env
env = record {
  delivery = λ _. delivered;
  now = λ k. 1000 + k;
  new_uuid = λ k. 500 + k;
  varchar = λ _ _. true;
  is_text = λ _. true;
  inet = λ _. true;
  email_format = λ _. true;
  uuid_text = λ id. id ∷ [];
  time_text = λ t. t ∷ [];
  value_text = λ _. [];
}

-- A lock that is always free.
abbrev pub free : Cache (Unit {0})
free = record {
  acquire_lock = λ _ _ s. (ok (bytes "token"), s);
  release_lock = λ _ _ s. (ok tt, s);
  invalidate_event = λ _ s. s;
}

abbrev pub user : ℕ → User
user id = record {
  id = id;
  email = bytes "u@example.com";
  password_hash = [];
  first_name = bytes "Ada";
  last_name = bytes "Byron";
  role = Role.user;
  is_active = true;
  created_at = 1;
  updated_at = 1;
}

abbrev pub concert : Event
concert = record {
  id = 7;
  name = bytes "Concert";
  description = [];
  location = bytes "Hall";
  starts_at = 2000;
  ends_at = 3000;
  total_tickets = pos 10;
  remaining_tickets = pos 7;
  price_cents = pos 2500;
  status = EventStatus.published;
  created_by = 1;
  version = pos 2;
  created_at = 1;
  updated_at = 1;
  deleted_at = none;
}

abbrev pub reserved : Booking
reserved = record {
  id = 20;
  user_id = 2;
  event_id = 7;
  ticket_count = pos 3;
  total_price_cents = pos 7500;
  status = BookingStatus.confirmed;
  version = pos 1;
  booked_at = 5;
  updated_at = 5;
  cancelled_at = none;
}

abbrev pub tables : Database
tables = record {
  users = user 1 ∷ user 2 ∷ [];
  events = concert ∷ [];
  bookings = reserved ∷ [];
  audit_logs = [];
}

abbrev pub world : World (Unit {0})
world = record { db = tables; session = idle; statements = 0; cache = tt }

pub tables-Integrity : Integrity env tables
unfolding event_violation booking_violation
tables-Integrity = record {
  event_keys = (refl, tt);
  event_rows = (refl, tt);
  booking_keys = (refl, tt);
  booking_rows = (refl, tt);
  one_active = (λ _. refl, tt);
}

abbrev pub gig : CreateEventRequest
gig = record {
  name = bytes "Gig";
  description = [];
  location = bytes "Club";
  starts_at = 5000;
  ends_at = 6000;
  total_tickets = pos 80;
  price_cents = pos 1500;
  status = [];
}

-- The concert moved to a larger hall, as read at the given version.
abbrev pub larger : ℤ → UpdateEventRequest
larger version = record {
  id = 0;
  name = bytes "Concert";
  description = [];
  location = bytes "Arena";
  starts_at = 2000;
  ends_at = 3000;
  total_tickets = pos 20;
  price_cents = pos 2500;
  status = EventStatus.published;
  version = version;
}
