-- ===== src/Concurrent/Sale.antt =====
-- The COMMIT of BookTicket among other calls: the booking's row is new, and the event's row is put in
-- the place of the one that the transaction had locked.
use mathlib.Core.Path.{subst}
use go_ticket_booking_app.Base.{
  ℕ, ◌≡◌, ◌≢◌, refl, sym, ◌∙◌, some, none, find, modify_where, arith, ==_iff, ◌==◌, true, not,
  is_some,
}
use go_ticket_booking_app.Base.Int.{pos, +ℤ_parts}
use go_ticket_booking_app.Base.Rows.{
  has_key, find_holds, find_with, find-put, put_update, put-All, modify_where-Distinct,
}
use go_ticket_booking_app.Domain.{Event, Booking}
use go_ticket_booking_app.World.{Database, Env}
use go_ticket_booking_app.Cache.{Cache}
use go_ticket_booking_app.Postgres.Schema.{event_violation}
use go_ticket_booking_app.Postgres.EventRepo.{is_live, is_at_version, take_tickets}
use go_ticket_booking_app.Postgres.Integrity.{Integrity, event_id_of}
use go_ticket_booking_app.Postgres.Capacity.{capacity-booked}
use go_ticket_booking_app.Service.Booking.Cancel.{SameButLogs}
use go_ticket_booking_app.Concurrent.{BookRequest, Server}
use go_ticket_booking_app.Concurrent.Steps.{with_sale}
use go_ticket_booking_app.Concurrent.Locks.{Newer, RowsKept}
use go_ticket_booking_app.Concurrent.Invariant.{EventLocked, Pending}
use go_ticket_booking_app.Concurrent.Stepping.{NoMore, Changed, other_row, put-Newer}

module _ {S : Type 0} (i : ℕ) (r : BookRequest) (e : Event) (s : Server S)
    (l : EventLocked i r e s) where
  pub EventLocked-id : e.id ≡ r.event_id
  EventLocked-id =
      (==_iff _ _).0 (find_holds (has_key event_id_of r.event_id) s.world.db.events e l.found)

  pub EventLocked-at : is_at_version r.event_id e.version e ≡ true
  EventLocked-at =
      let named : (e.id == r.event_id) ≡ true =
        find_holds (has_key event_id_of r.event_id) s.world.db.events e l.found in
      ground (arith, l.live)

module _ {S : Type 0} (env : Env) (cache : Cache S) (i : ℕ) (s : Server S) (r : BookRequest)
    (e : Event) (b : Booking) (now : ℕ) (h : Integrity env s.world.db) (l : EventLocked i r e s)
    (p : Pending i r b s) (fine : event_violation env (take_tickets now r.count e) ≡ none) where
  -- The tables once the booking is committed, but for audit records.
  abbrev sale : Database
  sale = with_sale env cache r e b now s.world.db

  sale-events :
      sale.events
      ≡ modify_where
          (is_at_version r.event_id e.version)
          (take_tickets now r.count)
          s.world.db.events
  sale-events =
      subst
        (λ k.
          modify_where (has_key event_id_of k) (λ _. take_tickets now r.count e) s.world.db.events
          ≡ modify_where (is_at_version r.event_id e.version) (take_tickets now r.count)
              s.world.db.events)
        (sym (EventLocked-id i r e s l))
        (put_update event_id_of r.event_id (is_at_version r.event_id e.version)
          (take_tickets now r.count) s.world.db.events e h.event_keys l.found
          (EventLocked-at i r e s l) (λ x m. ground arith))

  pub live : find (is_live r.event_id) s.world.db.events ≡ some e
  live =
      find_with event_id_of r.event_id (λ x. not (is_some x.deleted_at)) s.world.db.events e l.found
        (ground (arith, l.live))

  sale-NoMore : (d' : Database) → SameButLogs sale d' → NoMore env s.world.db d'
  sale-NoMore d' (users, events, bookings) = record {
    integrity = record {
      event_keys =
          rw (events, sale-events)
            (modify_where-Distinct event_id_of (is_at_version r.event_id e.version)
              (take_tickets now r.count) s.world.db.events (λ _. refl) h.event_keys);
      event_rows = rw events (
          put-All (λ x. event_violation env x ≡ none) (has_key event_id_of e.id)
            (take_tickets now r.count e) s.world.db.events h.event_rows fine);
      booking_keys = rw bookings (p.new_id, h.booking_keys);
      booking_rows = rw bookings (p.checked, h.booking_rows);
      one_active = rw bookings (λ _. rw (p.of_user, p.of_event) p.alone, h.one_active);
    };
    at_most = λ id t c. (
      t,
      capacity-booked id r.event_id s.world.db d' e b now h.event_keys live p.of_event p.is_on
            bookings (rw p.of_count (events ∙ sale-events))
          ∙ c,
      ground arith,
    );
  }

  sale-RowsKept :
      (d' : Database)
      → SameButLogs sale d'
      → (j : ℕ) → j ≢ i
      → RowsKept j s.event_locks s.booking_locks s.world.db d'
  sale-RowsKept d' (users, events, bookings) j other = record {
    event_kept = λ k x mine found.
        let away : ¬ (k ≡ e.id) = λ same.
          other_row i j r.event_id k s.event_locks l.locked other mine
            (same ∙ EventLocked-id i r e s l) in
        rw events (
          find-put event_id_of e.id k (take_tickets now r.count e) s.world.db.events refl away
          ∙ found);
    booking_kept = λ k mine.
        let away : ¬ (k ≡ b.id) = other_row i j b.id k s.booking_locks p.locked other mine in
        rw bookings (ground arith);
    alone_kept = λ k user mine none_there.
        let away : ¬ (k ≡ r.event_id) =
          other_row i j r.event_id k s.event_locks l.locked other mine in
        rw bookings (ground (arith, p.of_event));
    newer_kept = λ k x found. rw events (
        put-Newer e.id e (take_tickets now r.count e) s.world.db.events
          (subst (λ n. find (has_key event_id_of n) s.world.db.events ≡ some e)
            (sym (EventLocked-id i r e s l)) l.found)
          refl newer k x found);
  }
    where
      newer : Newer e (some (take_tickets now r.count e))
      newer = ground (arith, +ℤ_parts e.version (pos 1))

  pub sale-Changed : (d' : Database) → SameButLogs sale d' → Changed env i s d'
  sale-Changed d' same = record {
    tables = sale-NoMore d' same;
    rows = λ j other. sale-RowsKept d' same j other;
  }
