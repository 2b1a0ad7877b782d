-- ===== src/Service/Booking/Keeps.antt =====
-- What every call of the booking service keeps, whether it returns or fails: the integrity of the
-- tables, and the capacity of every event.
use mathlib.Core.Path.{subst}
use go_ticket_booking_app.Base.{ℕ, suc, ◌≡◌, refl, sym, inl, inr, some, find, arith, Option-cases}
use go_ticket_booking_app.Base.Int.{ℤ}
use go_ticket_booking_app.Base.Text.{Text}
use go_ticket_booking_app.Base.Rows.{has_key, modify_where-Distinct}
use go_ticket_booking_app.Domain.{Event, Booking}
use go_ticket_booking_app.World.{Database, Env, World, Result, ok, err}
use go_ticket_booking_app.World.Logic.{After}
use go_ticket_booking_app.Cache.{Cache}
use go_ticket_booking_app.Postgres.Schema.{event_violation, booking_violation}
use go_ticket_booking_app.Postgres.EventRepo.{is_live, is_at_version, take_tickets}
use go_ticket_booking_app.Postgres.BookingRepo.{mark_cancelled, give_tickets}
use go_ticket_booking_app.Postgres.Integrity.{
  Integrity, event_id_of, booking_id_of, modify_where-All, cancelled-OneActive,
}
use go_ticket_booking_app.Postgres.Capacity.{capacity, capacity-booked, capacity-cancelled}
use go_ticket_booking_app.Postgres.Cancelling.{cancelled, MayCancel}
use go_ticket_booking_app.Service.Booking.{book_ticket, cancel_booking}
use go_ticket_booking_app.Service.Booking.Outcome.{booked, booked_row, MayBook}
use go_ticket_booking_app.Service.Booking.Atomic.{
  Made, NotMade, book_ticket_atomic, book_ticket_no_event,
}
use go_ticket_booking_app.Service.Booking.Cancel.{
  Returned, Refused, SameButLogs, cancel_booking_atomic, cancel_booking_absent,
}

-- The tables after a call keep their integrity, and every event its capacity.
pub record Keeps (env : Env) (d d' : Database) : Type 0 where
  pub integrity : Integrity env d'
  pub capacities : (id : ℕ) → capacity id d' ≡ capacity id d

module _ (env : Env) (d : Database) (h : Integrity env d) where
  pub unchanged-Keeps : (d' : Database) → d' ≡ d → Keeps env d d'
  unchanged-Keeps d' e =
      subst (Keeps env d) (sym e) (record { integrity = h; capacities = λ _. refl })

  booked-Keeps :
      {S : Type 0} (cache : Cache S) (user_id event_id : ℕ) (count : ℤ) (ip ua : Text) (e : Event)
      (n : ℕ)
      → find (is_live event_id) d.events ≡ some e
      → MayBook env cache user_id event_id count ip ua d e n
      → Keeps env d (booked env cache user_id event_id count ip ua d e n)
  booked-Keeps cache user_id event_id count ip ua e n found may = record {
    integrity = record {
      event_keys =
          modify_where-Distinct event_id_of (is_at_version event_id e.version)
            (take_tickets (env.now (suc (suc n))) count) d.events (λ _. refl) h.event_keys;
      event_rows =
          modify_where-All (event_violation env) (is_at_version event_id e.version)
            (take_tickets (env.now (suc (suc n))) count) d.events may.in_range h.event_rows;
      booking_keys = (may.new_id, h.booking_keys);
      booking_rows = (may.checked, h.booking_rows);
      one_active = (λ _. ground (arith, may.alone), h.one_active);
    };
    capacities = λ id.
        capacity-booked id event_id d (booked env cache user_id event_id count ip ua d e n) e
          (booked_row env cache user_id event_id count ip ua d e n) (env.now (suc (suc n)))
          h.event_keys found refl refl refl refl;
  }

  cancelled-Keeps :
      (key user : ℕ) (b : Booking) (n : ℕ) (d' : Database)
      → find (has_key booking_id_of key) d.bookings ≡ some b
      → MayCancel env key user d b n
      → SameButLogs (cancelled env key user d b n) d'
      → Keeps env d d'
  cancelled-Keeps key user b n d' found (active, fits, valid) (_, events, bookings) = record {
    integrity = record {
      event_keys = rw events (
          modify_where-Distinct event_id_of (has_key event_id_of b.event_id)
            (give_tickets (env.now (suc (suc n))) b.ticket_count) d.events (λ _. refl)
            h.event_keys);
      event_rows = rw events (
          modify_where-All (event_violation env) (has_key event_id_of b.event_id)
            (give_tickets (env.now (suc (suc n))) b.ticket_count) d.events fits h.event_rows);
      booking_keys = rw bookings (
          modify_where-Distinct booking_id_of (has_key booking_id_of key)
            (mark_cancelled (env.now (suc n))) d.bookings (λ _. refl) h.booking_keys);
      booking_rows = rw bookings (
          modify_where-All booking_violation (has_key booking_id_of key)
            (mark_cancelled (env.now (suc n))) d.bookings valid h.booking_rows);
      one_active = rw bookings (
          cancelled-OneActive (env.now (suc n)) (has_key booking_id_of key) d.bookings
            h.one_active);
    };
    capacities = λ id.
        capacity-cancelled id key d d' b (env.now (suc n)) (env.now (suc (suc n))) h.booking_keys
          found active bookings events;
  }

module _ {S : Type 0} (env : Env) (cache : Cache S) (user_id : ℕ) (ip ua : Text) where
  untouched-Keeps :
      (d : Database) (r : Result Booking × World S)
      → Integrity env d
      → After (λ _ _. ⊥) (λ _ w'. w'.db ≡ d) r
      → Keeps env d r.1.db
  untouched-Keeps d (ok b, w') h a = absurd a
  untouched-Keeps d (err x, w') h a = unchanged-Keeps env d h w'.db a

  Made-Keeps :
      (event_id : ℕ) (count : ℤ) (d : Database) (e : Event) (n : ℕ) (r : Result Booking × World S)
      → Integrity env d
      → find (is_live event_id) d.events ≡ some e
      → After
          (λ b w'. Made env cache user_id event_id count ip ua d e n b w'.db)
          (λ x w'. NotMade env cache user_id event_id count ip ua d e n x w'.db)
          r
      → Keeps env d r.1.db
  Made-Keeps event_id count d e n (ok b, w') h found (made, _, _, may) =
      subst (Keeps env d) (sym made)
        (booked-Keeps env d h cache user_id event_id count ip ua e n found may)
  Made-Keeps event_id count d e n (err x, w') h found (inl same) =
      unchanged-Keeps env d h w'.db same
  Made-Keeps event_id count d e n (err x, w') h found (inr (_, (made, _, _, may))) =
      subst (Keeps env d) (sym made)
        (booked-Keeps env d h cache user_id event_id count ip ua e n found may)

  -- Every call of BookTicket, whether it returns or fails, keeps the constraints of the schema on
  -- the tables and the capacity (unsold tickets and tickets in active bookings) of every event.
  pub book_ticket-Keeps :
      (event_id : ℕ) (count : ℤ) (w : World S)
      → Integrity env w.db
      → Keeps env w.db (book_ticket env cache user_id event_id count ip ua w).1.db
  book_ticket-Keeps event_id count w h = elim (Option-cases (find (is_live event_id) w.db.events)) [
    | inl missing ↦
        untouched-Keeps w.db _ h
          (book_ticket_no_event env cache user_id event_id count ip ua w missing)
    | inr (e, found) ↦
        Made-Keeps event_id count w.db e (suc w.statements) _ h found
          (book_ticket_atomic env cache user_id event_id count ip ua w e found)
  ]

  Returned-Keeps :
      (key : ℕ) (d : Database) (old : Booking) (n : ℕ) (r : Result Booking × World S)
      → Integrity env d
      → find (has_key booking_id_of key) d.bookings ≡ some old
      → After
          (λ b w'. Returned env cache key user_id ip ua d old n b w'.db)
          (λ x w'. Refused env cache key user_id ip ua d old n x w'.db)
          r
      → Keeps env d r.1.db
  Returned-Keeps key d old n (ok b, w') h found (_, may, _, same) =
      cancelled-Keeps env d h key user_id old n w'.db found may same
  Returned-Keeps key d old n (err x, w') h found (inl same) = unchanged-Keeps env d h w'.db same
  Returned-Keeps key d old n (err x, w') h found (inr (_, may, _, same)) =
      cancelled-Keeps env d h key user_id old n w'.db found may (ground arith)

  -- So does every call of CancelBooking.
  pub cancel_booking-Keeps :
      (key : ℕ) (w : World S)
      → Integrity env w.db
      → Keeps env w.db (cancel_booking env cache key user_id ip ua w).1.db
  cancel_booking-Keeps key w h =
      elim (Option-cases (find (has_key booking_id_of key) w.db.bookings)) [
        | inl missing ↦
            untouched-Keeps w.db _ h (cancel_booking_absent env cache key user_id ip ua w missing)
        | inr (old, found) ↦
            Returned-Keeps key w.db old (suc (suc w.statements)) _ h found
              (cancel_booking_atomic env cache key user_id ip ua w old found)
      ]
