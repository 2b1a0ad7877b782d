-- ===== src/Postgres/BookingRepo.antt =====
-- internal/repository/postgres/booking_repo.go: each statement over the tables, and the methods
-- that send it.
use mathlib.Core.Option
use go_ticket_booking_app.Base.{
  ℕ, Bool, not, ◌&&◌, ◌||◌, Option, none, some, ◌∷◌, ◌==◌, if◌then◌else◌, find, modify_where,
  is_some,
}
use go_ticket_booking_app.Base.Int.{ℤ, pos, ◌+ℤ◌}
use go_ticket_booking_app.Base.Text.{bytes}
use go_ticket_booking_app.Domain.{Event, Booking}
use go_ticket_booking_app.Domain.BookingStatus
use go_ticket_booking_app.Domain.Errors.{
  Error, sentinel, driver, wrap, is, is_unique_violation, unique_violation, foreign_key_violation,
  booking_not_found, booking_already_active, booking_cannot_cancel,
}
use go_ticket_booking_app.World.{
  Env, Result, ok, err, M, lift, pure, raise, ◌>>=◌, ◌>>◌, on_error, deferred,
}
use go_ticket_booking_app.World.Calls.{Statement, pool_query, tx_query, begin_tx, commit, rollback}
use go_ticket_booking_app.Postgres.Schema.{
  event_violation, booking_violation, first_violation, is_active,
}

abbrev pub scan_booking : Option Booking → Result Booking
scan_booking none = err (sentinel booking_not_found)
scan_booking (some b) = ok b

-- An entry of idx_bookings_one_active_per_user for this user and event.
abbrev pub is_active_for : ℕ → ℕ → Booking → Bool
is_active_for user event b = (b.user_id == user) && ((b.event_id == event) && is_active b)

-- SET status='cancelled', cancelled_at=NOW(), updated_at=NOW(), version=version+1
abbrev pub mark_cancelled : ℕ → Booking → Booking
mark_cancelled now b = record b {
  status = BookingStatus.cancelled;
  cancelled_at = some now;
  updated_at = now;
  version = b.version +ℤ pos 1;
}

-- SET remaining_tickets = remaining_tickets + $1, updated_at = NOW()
abbrev pub give_tickets : ℕ → ℤ → Event → Event
give_tickets now n e = record e { remaining_tickets = e.remaining_tickets +ℤ n; updated_at = now }

unfoldable pub select_booking : ℕ → Statement (Option Booking)
select_booking id t d = ok (find (λ b. b.id == id) d.bookings, d)

-- WHERE id=$1 AND user_id=$2 FOR UPDATE
unfoldable pub select_booking_of : ℕ → ℕ → Statement (Option Booking)
select_booking_of id user t d = ok (find (λ b. (b.id == id) && (b.user_id == user)) d.bookings, d)

abbrev pub create_error : Error → Error
create_error e =
    if is_unique_violation e
    then sentinel booking_already_active
    else wrap (bytes "create booking in tx: ") e

abbrev pub lock_error : Error → Error
lock_error e =
    if is booking_not_found e then sentinel booking_not_found else wrap (bytes "lock booking: ") e

module _ (env : Env) where
  -- The row that INSERT INTO bookings makes, with the defaults of the schema.
  abbrev pub new_booking : ℕ → Booking → Booking
  new_booking t b = record b {
    id = env.new_uuid t;
    version = pos 1;
    booked_at = env.now t;
    updated_at = env.now t;
    cancelled_at = none;
  }

  unfoldable pub insert_booking : Booking → Statement (Option Booking)
  insert_booking b t d =
      let row = new_booking t b in
      elim (booking_violation row) [
        | some v ↦ err (driver v)
        | none ↦
            if is_some (find (λ x. x.id == row.id) d.bookings)
              || (is_active row
                  && is_some (find (is_active_for row.user_id row.event_id) d.bookings))
            then err (driver unique_violation)
            else (if not (
                  is_some (find (λ u. u.id == row.user_id) d.users)
                  && is_some (find (λ e. e.id == row.event_id) d.events))
                then err (driver foreign_key_violation)
                else ok (some row, record d { bookings = row ∷ d.bookings }))
      ]

  -- UPDATE bookings … WHERE id=$1 RETURNING
  unfoldable pub cancel_row : ℕ → Statement (Option Booking)
  cancel_row id t d =
      let p : Booking → Bool = λ b. b.id == id in
      elim (first_violation booking_violation p (mark_cancelled (env.now t)) d.bookings) [
        | some v ↦ err (driver v)
        | none ↦ ok (
          Option.map (mark_cancelled (env.now t)) (find p d.bookings),
          record d { bookings = modify_where p (mark_cancelled (env.now t)) d.bookings },
        )
      ]

  -- UPDATE events … WHERE id = $2, without a condition on the version or on deleted_at
  unfoldable pub restore_tickets : ℤ → ℕ → Statement (Unit {0})
  restore_tickets n id t d =
      let p : Event → Bool = λ e. e.id == id in
      elim (first_violation (event_violation env) p (give_tickets (env.now t) n) d.events) [
        | some v ↦ err (driver v)
        | none ↦ ok (tt, record d { events = modify_where p (give_tickets (env.now t) n) d.events })
      ]

  module _ {S : Type 0} where
    -- BookingRepo.CreateInTx
    unfoldable pub create_in_tx : Booking → M S Booking
    create_in_tx b =
        on_error create_error do row ← tx_query env (insert_booking b); lift (scan_booking row)

    -- BookingRepo.GetByID
    unfoldable pub get_by_id : ℕ → M S Booking
    get_by_id id =
        on_error (wrap (bytes "get booking by id: "))
          do row ← pool_query env (select_booking id); lift (scan_booking row)

    -- The body of BookingRepo.Cancel between Begin and the deferred Rollback.
    unfoldable pub cancel_in_tx : ℕ → ℕ → M S Booking
    cancel_in_tx id user = do
      bk ←
          on_error lock_error
            do row ← tx_query env (select_booking_of id user); lift (scan_booking row)
      if not (is_active bk) then raise (sentinel booking_cannot_cancel) else pure tt
      updated ←
          on_error (wrap (bytes "cancel booking update: "))
            do row ← tx_query env (cancel_row id); lift (scan_booking row)
      on_error (wrap (bytes "restore event tickets: "))
          (tx_query env (restore_tickets bk.ticket_count bk.event_id))
      on_error (wrap (bytes "commit cancel: ")) (commit env)
      pure updated

    -- BookingRepo.Cancel
    unfoldable pub cancel : ℕ → ℕ → M S Booking
    cancel id user = do
      on_error (wrap (bytes "begin cancel tx: ")) (begin_tx env)
      deferred (rollback env) (cancel_in_tx id user)
