-- ===== src/Service/Booking/History.antt =====
-- Any sequence of calls of the booking service, by any users, whatever fails on the way.
use mathlib.Core.Option
use go_ticket_booking_app.Base.{
  ℕ, suc, ◌≡◌, refl, ◌∙◌, inl, inr, Option, none, some, List, [], ◌∷◌, find, arith, ◌==◌, length,
  ltb, Bool-cases,
}
use go_ticket_booking_app.Base.Int.{ℤ, pos, ◌≤ℤ◌, ◌+ℤ◌, +ℤ_parts}
use go_ticket_booking_app.Base.Text.{Text}
use go_ticket_booking_app.Base.Rows.{has_key, All-find}
use go_ticket_booking_app.Domain.{Event, Booking}
use go_ticket_booking_app.Domain.Errors.{Error}
use go_ticket_booking_app.World.{Database, Env, World, Result, ok, err}
use go_ticket_booking_app.Cache.{Cache}
use go_ticket_booking_app.Postgres.Schema.{event_violation}
use go_ticket_booking_app.Postgres.Integrity.{Integrity, event_id_of}
use go_ticket_booking_app.Postgres.Capacity.{capacity, sold}
use go_ticket_booking_app.Service.Booking.{
  BatchBookRequest, book_ticket, cancel_booking, on_results, batch_error, book_each, batch_book,
}
use go_ticket_booking_app.Service.Booking.Keeps.{
  Keeps, unchanged-Keeps, book_ticket-Keeps, cancel_booking-Keeps,
}

pub data Call : Type 0 where
  books : (user_id event_id : ℕ) → ℤ → (ip ua : Text) → Call
  cancels : (key user_id : ℕ) → (ip ua : Text) → Call
  batches : List BatchBookRequest → ℕ → (ip ua : Text) → Call

Keeps-trans : (env : Env) (a b c : Database) → Keeps env a b → Keeps env b c → Keeps env a c
Keeps-trans env a b c h k = record {
  integrity = k.integrity;
  capacities = λ id. k.capacities id ∙ h.capacities id;
}

at_most : (r s t : ℤ) → pos 0 ≤ℤ r → some (r +ℤ s) ≡ some t → s ≤ℤ t
at_most r s t h e = ground (arith, +ℤ_parts r s)

remaining_nonneg :
    (env : Env) (e : Event) → event_violation env e ≡ none → pos 0 ≤ℤ e.remaining_tickets
unfolding event_violation
remaining_nonneg env e h = ground arith

-- In tables that meet the schema, an event has no more tickets sold than its capacity.
pub sold_within :
    (env : Env) (d : Database) (id : ℕ) (total : ℤ)
    → Integrity env d
    → capacity id d ≡ some total
    → sold id d.bookings ≤ℤ total
unfolding capacity
sold_within env d id total h = covered (find (has_key event_id_of id) d.events) refl
  where
    covered :
        (o : Option Event)
        → find (has_key event_id_of id) d.events ≡ o
        → Option.map (λ e. e.remaining_tickets +ℤ sold id d.bookings) o ≡ some total
        → sold id d.bookings ≤ℤ total
    covered none f e = cc
    covered (some x) f e =
        let fine : event_violation env x ≡ none =
          All-find (λ y. event_violation env y ≡ none) (has_key event_id_of id) d.events x
            h.event_rows f in
        at_most x.remaining_tickets (sold id d.bookings) total (remaining_nonneg env x fine) e

module _ {S : Type 0} (env : Env) (cache : Cache S) where
  unfoldable pub perform : Call → World S → World S
  perform (books user_id event_id count ip ua) w =
      (book_ticket env cache user_id event_id count ip ua w).1
  perform (cancels key user_id ip ua) w = (cancel_booking env cache key user_id ip ua w).1
  perform (batches reqs user_id ip ua) w = (batch_book env cache reqs user_id ip ua w).1

  unfoldable pub history : List Call → World S → World S
  history [] w = w
  history (c ∷ cs) w = history cs (perform c w)

  on_results_state :
      (b : Booking) (r : Result (List Booking × Option Error) × World S)
      → (on_results env cache b r).1 ≡ r.1
  on_results_state b (ok (bs, e), w) = refl
  on_results_state b (err e, w) = refl

  -- One round of the loop, from what the booking and the rest of the loop keep.
  round-Keeps :
      (user_id : ℕ) (ip ua : Text) (i : ℕ) (req : BatchBookRequest) (reqs : List BatchBookRequest)
      (d : Database) (r : Result Booking × World S)
      → Keeps env d r.1.db
      → ((v : World S)
          → Integrity env v.db
          → Keeps env v.db (book_each env cache user_id ip ua (suc i) reqs v).1.db)
      → Keeps env d
          (elim r.0 as (λ _. Result (List Booking × Option Error) × World S) [
            | err e ↦ (ok ([], some (batch_error env cache i req.event_id e)), r.1)
            | ok b ↦ on_results env cache b (book_each env cache user_id ip ua (suc i) reqs r.1)
          ]).1.db
  round-Keeps user_id ip ua i req reqs d (err e, v) h rest = h
  round-Keeps user_id ip ua i req reqs d (ok b, v) h rest =
      rw (on_results_state b (book_each env cache user_id ip ua (suc i) reqs v))
        (Keeps-trans env d v.db _ h (rest v h.integrity))

  book_each-Keeps :
      (user_id : ℕ) (ip ua : Text) (i : ℕ) (reqs : List BatchBookRequest) (w : World S)
      → Integrity env w.db
      → Keeps env w.db (book_each env cache user_id ip ua i reqs w).1.db
  unfolding book_each
  book_each-Keeps user_id ip ua i [] w h = unchanged-Keeps env w.db h w.db refl
  book_each-Keeps user_id ip ua i (req ∷ reqs) w h =
      round-Keeps user_id ip ua i req reqs w.db
        (book_ticket env cache user_id req.event_id req.ticket_count ip ua w)
        (book_ticket-Keeps env cache user_id ip ua req.event_id req.ticket_count w h)
        (book_each-Keeps user_id ip ua (suc i) reqs)

  batch_book-Keeps :
      (reqs : List BatchBookRequest) (user_id : ℕ) (ip ua : Text) (w : World S)
      → Integrity env w.db
      → Keeps env w.db (batch_book env cache reqs user_id ip ua w).1.db
  unfolding batch_book
  batch_book-Keeps reqs user_id ip ua w h = elim (Bool-cases (length reqs == 0)) [
    | inl e ↦ rw e (unchanged-Keeps env w.db h w.db refl)
    | inr e ↦ rw e (elim (Bool-cases (ltb 10 (length reqs))) [
      | inl f ↦ rw f (unchanged-Keeps env w.db h w.db refl)
      | inr f ↦ rw f (book_each-Keeps user_id ip ua 0 reqs w h)
    ])
  ]

  pub perform-Keeps :
      (c : Call) (w : World S) → Integrity env w.db → Keeps env w.db (perform c w).db
  unfolding perform
  perform-Keeps (books user_id event_id count ip ua) w h =
      book_ticket-Keeps env cache user_id ip ua event_id count w h
  perform-Keeps (cancels key user_id ip ua) w h =
      cancel_booking-Keeps env cache user_id ip ua key w h
  perform-Keeps (batches reqs user_id ip ua) w h = batch_book-Keeps reqs user_id ip ua w h

  -- After any sequence of bookings, batches and cancellations, whatever fails, tables that met the
  -- constraints of the schema meet them, and every event has the capacity that it had.
  pub history-Keeps :
      (cs : List Call) (w : World S) → Integrity env w.db → Keeps env w.db (history cs w).db
  unfolding history
  history-Keeps [] w h = unchanged-Keeps env w.db h w.db refl
  history-Keeps (c ∷ cs) w h =
      let k = perform-Keeps c w h in
      Keeps-trans env w.db (perform c w).db (history cs (perform c w)).db k
        (history-Keeps cs (perform c w) k.integrity)
