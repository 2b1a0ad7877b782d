-- ===== src/Postgres/Integrity.antt =====
-- What the constraints of the schema promise of the tables: distinct primary keys, rows that meet
-- their CHECK constraints and column types, and one active booking for each user and event.
use go_ticket_booking_app.Base.{
  ℕ, ◌≡◌, refl, Bool, true, false, Option, none, some, List, [], ◌∷◌, find, modify_where, All,
  arith, if◌then◌else◌,
}
use go_ticket_booking_app.Base.Rows.{Distinct}
use go_ticket_booking_app.Domain.{Event, Booking}
use go_ticket_booking_app.Domain.Errors.{Failure}
use go_ticket_booking_app.World.{Database, Env}
use go_ticket_booking_app.Postgres.Schema.{
  event_violation, booking_violation, first_violation, is_active,
}
use go_ticket_booking_app.Postgres.BookingRepo.{is_active_for, mark_cancelled}

abbrev pub event_id_of : Event → ℕ
event_id_of e = e.id

abbrev pub booking_id_of : Booking → ℕ
booking_id_of b = b.id

-- No active booking has another one of its user for its event behind it.
abbrev pub OneActive : List Booking → Type 0
OneActive [] = Unit {0}
OneActive (b ∷ bs) =
    (is_active b ≡ true → find (is_active_for b.user_id b.event_id) bs ≡ none) × OneActive bs

pub record Integrity (env : Env) (d : Database) : Type 0 where
  pub event_keys : Distinct event_id_of d.events
  pub event_rows : All (λ e. event_violation env e ≡ none) d.events
  pub booking_keys : Distinct booking_id_of d.bookings
  pub booking_rows : All (λ b. booking_violation b ≡ none) d.bookings
  pub one_active : OneActive d.bookings

-- An UPDATE that finds no violation leaves rows that meet their constraints.
pub modify_where-All {ℓ} :
    {A : Type ℓ} (check : A → Option Failure) (p : A → Bool) (f : A → A) (xs : List A)
    → first_violation check p f xs ≡ none
    → All (λ x. check x ≡ none) xs
    → All (λ x. check x ≡ none) (modify_where p f xs)
unfolding first_violation
modify_where-All check p f [] h k = tt
modify_where-All check p f (x ∷ xs) h k = ground (arith, modify_where-All check p f xs)

-- Cancelling rows makes no booking active.
pub find_active-cancelled :
    (user event : ℕ) (now : ℕ) (p : Booking → Bool) (bs : List Booking)
    → find (is_active_for user event) bs ≡ none
    → find (is_active_for user event) (modify_where p (mark_cancelled now) bs) ≡ none
find_active-cancelled user event now p [] h = refl
find_active-cancelled user event now p (b ∷ bs) h =
    ground (arith, find_active-cancelled user event now p bs)

pub cancelled-OneActive :
    (now : ℕ) (p : Booking → Bool) (bs : List Booking)
    → OneActive bs
    → OneActive (modify_where p (mark_cancelled now) bs)
cancelled-OneActive now p [] h = tt
cancelled-OneActive now p (b ∷ bs) h = (still_alone (p b) refl, cancelled-OneActive now p bs h.1)
  where
    after : Bool → Booking
    after c = if c then mark_cancelled now b else b

    still_alone :
        (c : Bool)
        → p b ≡ c
        → is_active (after c) ≡ true
        → find
            (is_active_for (after c).user_id (after c).event_id)
            (modify_where p (mark_cancelled now) bs)
          ≡ none
    still_alone true e a = cc
    still_alone false e a = find_active-cancelled b.user_id b.event_id now p bs (h.0 a)

-- An UPDATE of no row finds no violation.
pub first_violation-missing {ℓ} :
    {A : Type ℓ} (check : A → Option Failure) (p : A → Bool) (f : A → A) (xs : List A)
    → find p xs ≡ none
    → first_violation check p f xs ≡ none
unfolding first_violation
first_violation-missing check p f [] h = refl
first_violation-missing check p f (x ∷ xs) h = ground (arith, first_violation-missing check p f xs)

-- An UPDATE that finds no violation found none in the row that its condition finds.
pub first_violation-found {ℓ} :
    {A : Type ℓ} (check : A → Option Failure) (p : A → Bool) (f : A → A) (xs : List A) (x : A)
    → first_violation check p f xs ≡ none
    → find p xs ≡ some x
    → check (f x) ≡ none
unfolding first_violation
first_violation-found check p f [] x h e = cc
first_violation-found check p f (y ∷ xs) x h e =
    ground (arith, first_violation-found check p f xs x)
