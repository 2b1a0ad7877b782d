-- ===== src/Postgres/Capacity.antt =====
-- The tickets of an event, sold and unsold: what bookings and cancellations keep.
use mathlib.Core.Option
use mathlib.Core.Path.{subst}
use go_ticket_booking_app.Base.{
  ℕ, ap, sym, ◌∙◌, not, is_some, ◌≡◌, refl, inl, inr, true, false, ◌&&◌, Option, none, some, List,
  [], ◌∷◌, find, modify_where, arith, ◌==◌, if◌then◌else◌, ==_iff, Bool-cases,
}
use go_ticket_booking_app.Base.Int.{ℤ, pos, ◌+ℤ◌, int_laws}
use go_ticket_booking_app.Base.Rows.{Distinct, has_key, find-modify_where, find_by_key, find_holds}
use go_ticket_booking_app.Domain.{Event, Booking}
use go_ticket_booking_app.World.{Database}
use go_ticket_booking_app.Postgres.Schema.{is_active}
use go_ticket_booking_app.Postgres.EventRepo.{is_live, is_at_version, take_tickets}
use go_ticket_booking_app.Postgres.BookingRepo.{mark_cancelled, give_tickets}
use go_ticket_booking_app.Postgres.Integrity.{event_id_of, booking_id_of}

-- The tickets of the active bookings of an event.
unfoldable pub sold : ℕ → List Booking → ℤ
sold id [] = pos 0
sold id (b ∷ bs) =
    if is_active b && (b.event_id == id) then b.ticket_count +ℤ sold id bs else sold id bs

-- The tickets of an event, on sale or in active bookings.
unfoldable pub capacity : ℕ → Database → Option ℤ
capacity id d =
    Option.map (λ e. e.remaining_tickets +ℤ sold id d.bookings)
      (find (has_key event_id_of id) d.events)

-- Cancelling the row of an active booking takes its tickets out of those sold for its event.
sold-absent :
    (id key now : ℕ) (bs : List Booking)
    → find (has_key booking_id_of key) bs ≡ none
    → sold id (modify_where (has_key booking_id_of key) (mark_cancelled now) bs) ≡ sold id bs
unfolding sold
sold-absent id key now [] h = refl
sold-absent id key now (b ∷ bs) h = ground (arith, sold-absent id key now bs)

abbrev pub tickets_for : ℕ → Booking → ℤ
tickets_for id b = if b.event_id == id then b.ticket_count else pos 0

pub sold-cancelled :
    (id key now : ℕ) (bs : List Booking) (b : Booking)
    → Distinct booking_id_of bs
    → find (has_key booking_id_of key) bs ≡ some b
    → is_active b ≡ true
    → sold id (modify_where (has_key booking_id_of key) (mark_cancelled now) bs) +ℤ tickets_for id b
      ≡ sold id bs
unfolding sold
sold-cancelled id key now [] b d f a = cc
sold-cancelled id key now (x ∷ bs) b d f a = elim (Bool-cases (x.id == key)) [
  | inl hit ↦ grind (
    int_laws,
    sold-absent id key now bs
        (subst (λ k. find (has_key booking_id_of k) bs ≡ none) ((==_iff _ _).0 hit) d.0),
  )
  | inr miss ↦ grind (int_laws, sold-cancelled id key now bs b d.1)
]

found_same :
    (event_id id : ℕ) (es : List Event) (e x : Event)
    → Distinct event_id_of es
    → find (is_live event_id) es ≡ some e
    → event_id ≡ id
    → find (has_key event_id_of id) es ≡ some x
    → x ≡ e
found_same event_id id es e x keys f same q =
    let both : some x ≡ some e =
      sym q
      ∙ subst (λ k. find (has_key event_id_of k) es ≡ some e) same
          (find_by_key event_id_of event_id (λ r. not (is_some r.deleted_at)) es e keys f) in
    cc

-- A booking that is made leaves the capacity of every event as it was.
pub capacity-booked :
    (id event_id : ℕ) (d d' : Database) (e : Event) (row : Booking) (now : ℕ)
    → Distinct event_id_of d.events
    → find (is_live event_id) d.events ≡ some e
    → row.event_id ≡ event_id
    → is_active row ≡ true
    → d'.bookings ≡ row ∷ d.bookings
    → d'.events
      ≡ modify_where (is_at_version event_id e.version) (take_tickets now row.ticket_count) d.events
    → capacity id d' ≡ capacity id d
unfolding capacity sold
capacity-booked id event_id d d' e row now keys f re ra bs es =
    rw
      (
        bs,
        es,
        find-modify_where event_id_of id (is_at_version event_id e.version)
            (take_tickets now row.ticket_count) d.events (λ _. refl),
      )
      (moved (find (has_key event_id_of id) d.events) refl)
  where
    moved :
        (o : Option Event)
        → find (has_key event_id_of id) d.events ≡ o
        → Option.map
            (λ x.
              x.remaining_tickets
              +ℤ (if is_active row && (row.event_id == id)
                  then row.ticket_count +ℤ sold id d.bookings
                  else sold id d.bookings))
            (Option.map
              (λ r.
                if is_at_version event_id e.version r
                then take_tickets now row.ticket_count r
                else r)
              o)
          ≡ Option.map (λ x. x.remaining_tickets +ℤ sold id d.bookings) o
    moved none q = refl
    moved (some x) q = ap some (elim (Bool-cases (event_id == id)) [
      | inl this ↦
          let same : x ≡ e = found_same event_id id d.events e x keys f ((==_iff _ _).0 this) q in
          let at : is_at_version event_id e.version x ≡ true =
            rw same (ground (arith, find_holds (is_live event_id) d.events e f)) in
          let for_this : (is_active row && (row.event_id == id)) ≡ true = ground arith in
          rw (at, for_this) (omega int_laws)
      | inr other ↦
          let at : is_at_version event_id e.version x ≡ false =
            ground (arith, find_holds (has_key event_id_of id) d.events x q) in
          let for_other : (is_active row && (row.event_id == id)) ≡ false = ground arith in
          rw (at, for_other)
    ])

-- Giving the tickets of a cancelled booking back leaves the capacity of every event as it was.
pub capacity-cancelled :
    (id key : ℕ) (d d' : Database) (b : Booking) (now later : ℕ)
    → Distinct booking_id_of d.bookings
    → find (has_key booking_id_of key) d.bookings ≡ some b
    → is_active b ≡ true
    → d'.bookings ≡ modify_where (has_key booking_id_of key) (mark_cancelled now) d.bookings
    → d'.events
      ≡ modify_where (has_key event_id_of b.event_id) (give_tickets later b.ticket_count) d.events
    → capacity id d' ≡ capacity id d
unfolding capacity
capacity-cancelled id key d d' b now later keys f a bs es =
    rw
      (
        bs,
        es,
        find-modify_where event_id_of id (has_key event_id_of b.event_id)
            (give_tickets later b.ticket_count) d.events (λ _. refl),
      )
      (moved (find (has_key event_id_of id) d.events) refl)
  where
    left : ℤ
    left = sold id (modify_where (has_key booking_id_of key) (mark_cancelled now) d.bookings)

    moved :
        (o : Option Event)
        → find (has_key event_id_of id) d.events ≡ o
        → Option.map
            (λ x. x.remaining_tickets +ℤ left)
            (Option.map
              (λ r. if r.id == b.event_id then give_tickets later b.ticket_count r else r)
              o)
          ≡ Option.map (λ x. x.remaining_tickets +ℤ sold id d.bookings) o
    moved none q = refl
    moved (some x) q = ap some (
        grind (
          int_laws,
          find_holds (has_key event_id_of id) d.events x q,
          sold-cancelled id key now d.bookings b keys f a,
        ))
