-- ===== src/Service/Booking/CancelVerdicts.antt =====
-- Which error a cancellation that the rules forbid gets.
use go_ticket_booking_app.Base.{
  ℕ, suc, ◌≡◌, refl, Option, none, some, find, arith, not, ◌==◌, ◌&&◌, false, if◌then◌else◌, inl,
  inr, Bool-cases,
}
use go_ticket_booking_app.Base.Text.{Text, bytes}
use go_ticket_booking_app.Base.Rows.{has_key, find_with}
use go_ticket_booking_app.Domain.{Booking}
use go_ticket_booking_app.Domain.Errors.{
  Error, sentinel, wrap, booking_not_found, booking_cannot_cancel, not_booking_owner,
}
use go_ticket_booking_app.World.{Env, World, err, active, delivered}
use go_ticket_booking_app.World.Calls.{pool_query, tx_query, begin_tx}
use go_ticket_booking_app.Cache.{Cache}
use go_ticket_booking_app.Postgres.Schema.{is_active}
use go_ticket_booking_app.Postgres.BookingRepo
use go_ticket_booking_app.Postgres.BookingRepo.{select_booking, select_booking_of, cancel_in_tx}
use go_ticket_booking_app.Postgres.Integrity.{booking_id_of}
use go_ticket_booking_app.Service.Booking.{cancel_owned, cancel_booking}

-- The rules: the booking is there, it is the caller's, and it is pending or confirmed.
abbrev pub cancel_refusal : ℕ → Option Booking → Option Error
cancel_refusal user none = some (wrap (bytes "get booking by id: ") (sentinel booking_not_found))
cancel_refusal user (some b) =
    if not (b.user_id == user)
    then some (sentinel not_booking_owner)
    else (if not (is_active b) then some (sentinel booking_cannot_cancel) else none)

module _ {S : Type 0} (env : Env) (cache : Cache S) (key user : ℕ) (ip ua : Text) where
  cancel_in_tx-refused :
      (b : Booking) (w : World S)
      → w.session ≡ active w.db
      → env.delivery w.statements ≡ delivered
      → find (λ r. (r.id == key) && (r.user_id == user)) w.db.bookings ≡ some b
      → is_active b ≡ false
      → (cancel_in_tx env key user w).0 ≡ err (sentinel booking_cannot_cancel)
  unfolding cancel_in_tx tx_query select_booking_of
  cancel_in_tx-refused b w view calm found over = ground arith

  cancel_owned-refused :
      (b : Booking) (w : World S)
      → ((k : ℕ) → env.delivery k ≡ delivered)
      → find (λ r. (r.id == key) && (r.user_id == user)) w.db.bookings ≡ some b
      → is_active b ≡ false
      → (cancel_owned env cache key user ip ua b w).0 ≡ err (sentinel booking_cannot_cancel)
  unfolding cancel_owned BookingRepo.cancel begin_tx
  cancel_owned-refused b w calm found over = ground (
    arith,
    calm w.statements,
    cancel_in_tx-refused b (record w { session = active w.db; statements = suc w.statements }) refl
        (calm _) found over,
  )

  -- Where nothing is lost, a cancellation that the rules turn down fails with the error of the
  -- first rule that it breaks: no such booking, another user's booking, a booking that is over.
  pub cancel_booking_refused :
      (x : Error) (w : World S)
      → ((k : ℕ) → env.delivery k ≡ delivered)
      → cancel_refusal user (find (has_key booking_id_of key) w.db.bookings) ≡ some x
      → (cancel_booking env cache key user ip ua w).0 ≡ err x
  unfolding cancel_booking BookingRepo.get_by_id pool_query select_booking
  cancel_booking_refused x w calm r =
      decided (find (has_key booking_id_of key) w.db.bookings) refl r
    where
      decided :
          (o : Option Booking)
          → find (has_key booking_id_of key) w.db.bookings ≡ o
          → cancel_refusal user o ≡ some x
          → (cancel_booking env cache key user ip ua w).0 ≡ err x
      decided none f q = ground (arith, calm w.statements)
      decided (some b) f q = elim (Bool-cases (b.user_id == user)) [
        | inr other ↦ ground (arith, calm w.statements)
        | inl mine ↦ ground (
          arith,
          calm w.statements,
          cancel_owned-refused b (record w { statements = suc w.statements }) calm
              (find_with booking_id_of key (λ y. y.user_id == user) w.db.bookings b f mine),
        )
      ]
