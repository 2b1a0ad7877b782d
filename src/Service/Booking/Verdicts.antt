-- ===== src/Service/Booking/Verdicts.antt =====
-- Which error a booking that the rules forbid gets, and that a booking that they allow is made.
use go_ticket_booking_app.Base.{
  ℕ, suc, ◌≡◌, refl, Option, none, some, find, arith, is_some, inl, inr, Bool-cases, Bool, not,
  if◌then◌else◌,
}
use go_ticket_booking_app.Base.Int.{ℤ, pos, ◌≤ℤ◌, ltb_ℤ}
use go_ticket_booking_app.Base.Text.{Text, bytes, text_eq}
use go_ticket_booking_app.Domain.{Event}
use go_ticket_booking_app.Domain.EventStatus
use go_ticket_booking_app.Domain.Errors.{
  Error, sentinel, wrap, event_not_found, event_not_available, insufficient_tickets,
  booking_already_active,
}
use go_ticket_booking_app.World.{Env, World, ok, err, active, delivered}
use go_ticket_booking_app.World.Calls.{tx_query, begin_tx}
use go_ticket_booking_app.Cache.{Cache}
use go_ticket_booking_app.Postgres.Schema.{event_violation, booking_violation}
use go_ticket_booking_app.Postgres.EventRepo
use go_ticket_booking_app.Postgres.EventRepo.{is_live, select_event}
use go_ticket_booking_app.Postgres.BookingRepo
use go_ticket_booking_app.Postgres.BookingRepo.{is_active_for, new_booking, insert_booking}
use go_ticket_booking_app.Base.Rows.{All-find}
use go_ticket_booking_app.Postgres.Integrity.{Integrity}
use go_ticket_booking_app.Postgres.EventRepo.{is_at_version, take_tickets, update_events}
use go_ticket_booking_app.Service.Booking.Pricing.{total_price_exact}
use go_ticket_booking_app.Service.Booking.{
  lock_key, lock_ttl, requested, book_event, book_in_tx, book_with_tx, book_ticket,
}

-- The rules of booking, as the documentation gives them: the event is there, it is published, it
-- has tickets enough, and the user has no active booking for it.
abbrev pub refusal_of : Event → ℤ → Bool → Option Error
refusal_of e count booked =
    if not (text_eq e.status EventStatus.published)
    then some (sentinel event_not_available)
    else (if ltb_ℤ e.remaining_tickets count
        then some (sentinel insufficient_tickets)
        else (if booked then some (sentinel booking_already_active) else none))

module _ {S : Type 0} (env : Env) (cache : Cache S) (user_id event_id : ℕ) (count : ℤ)
    (ip ua : Text) where
  book_event-refused :
      (e : Event) (x : Error) (w : World S)
      → w.session ≡ active w.db
      → env.delivery w.statements ≡ delivered
      → (count ≤ℤ e.remaining_tickets
          → booking_violation (new_booking env w.statements (requested user_id event_id count e))
            ≡ none)
      → refusal_of e count (is_some (find (is_active_for user_id event_id) w.db.bookings)) ≡ some x
      → (book_event env cache user_id event_id count ip ua e w).0 ≡ err x
  unfolding book_event BookingRepo.create_in_tx tx_query insert_booking
  book_event-refused e x w view calm valid r = elim (Bool-cases (ltb_ℤ e.remaining_tickets count)) [
    | inl short ↦ ground arith
    | inr enough ↦ ground (arith, valid (ground arith))
  ]

  -- The rules, from the row that the SELECT finds.
  abbrev pub refusal : Option Event → Bool → Option Error
  refusal none booked = some (wrap (bytes "get event for update: ") (sentinel event_not_found))
  refusal (some e) booked = refusal_of e count booked

  book_in_tx-refused :
      (x : Error) (w : World S) (o : Option Event)
      → w.session ≡ active w.db
      → env.delivery w.statements ≡ delivered
      → env.delivery (suc w.statements) ≡ delivered
      → find (is_live event_id) w.db.events ≡ o
      → ((e : Event)
          → o ≡ some e
          → count ≤ℤ e.remaining_tickets
          → booking_violation
              (new_booking env (suc w.statements) (requested user_id event_id count e))
            ≡ none)
      → refusal o (is_some (find (is_active_for user_id event_id) w.db.bookings)) ≡ some x
      → (book_in_tx env cache user_id event_id count ip ua w).0 ≡ err x
  unfolding book_in_tx EventRepo.get_by_id_for_update tx_query select_event
  book_in_tx-refused x w none view now next f valid r = ground arith
  book_in_tx-refused x w (some e) view now next f valid r = ground (
    arith,
    book_event-refused e x (record w { statements = suc w.statements }) view next (valid e refl) r,
  )

  -- Where nothing is lost and the lock is free, a request for a positive number of tickets that the
  -- rules turn down fails with the error of the first rule that it breaks.
  pub book_ticket_refused :
      (x : Error) (w : World S) (token : Text) (s : S)
      → Integrity env w.db
      → cache.acquire_lock (lock_key env event_id) lock_ttl w.cache ≡ (ok token, s)
      → ((k : ℕ) → env.delivery k ≡ delivered)
      → pos 1 ≤ℤ count
      → refusal
          (find (is_live event_id) w.db.events)
          (is_some (find (is_active_for user_id event_id) w.db.bookings))
        ≡ some x
      → (book_ticket env cache user_id event_id count ip ua w).0 ≡ err x
  unfolding book_ticket book_with_tx begin_tx
  book_ticket_refused x w token s h lock calm positive r = ground (
    arith,
    calm w.statements,
    book_in_tx-refused x
        (record w { session = active w.db; statements = suc w.statements; cache = s })
        (find (is_live event_id) w.db.events) refl (calm _) (calm _) refl
        (λ e f enough.
          (total_price_exact env e count user_id event_id (suc (suc w.statements))
            (All-find (λ y. event_violation env y ≡ none) (is_live event_id) w.db.events e
              h.event_rows f)
            positive enough).2)
        r,
  )
