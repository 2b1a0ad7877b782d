-- ===== src/Concurrent/Return.antt =====
-- The COMMIT of CancelBooking among other calls: the rows of the booking and of its event are put in
-- the places of those that the transaction had locked.
use mathlib.Core.Option
use mathlib.Core.Path.{subst}
use go_ticket_booking_app.Base.{
  ℕ, ◌≡◌, ◌≢◌, refl, sym, ◌∙◌, Option, some, none, find, modify_where, arith, ==_iff, ◌==◌, true,
}
use go_ticket_booking_app.Base.Int.{ℤ, pos, ◌+ℤ◌, ◌≤ℤ◌, +ℤ_parts}
use go_ticket_booking_app.Base.Rows.{
  has_key, find_holds, find-put, put_update, put-All, modify_where-Distinct,
}
use go_ticket_booking_app.Domain.{Event, Booking}
use go_ticket_booking_app.World.{Database, Env}
use go_ticket_booking_app.Cache.{Cache}
use go_ticket_booking_app.Postgres.Schema.{event_violation, booking_violation}
use go_ticket_booking_app.Postgres.BookingRepo.{mark_cancelled, give_tickets}
use go_ticket_booking_app.Postgres.Integrity.{
  Integrity, event_id_of, booking_id_of, cancelled-OneActive, find_active-cancelled,
}
use go_ticket_booking_app.Postgres.Capacity.{
  capacity, capacity-cancelled, sold, sold-cancelled, tickets_for,
}
use go_ticket_booking_app.Service.Booking.Cancel.{SameButLogs}
use go_ticket_booking_app.Concurrent.{CancelRequest, Server}
use go_ticket_booking_app.Concurrent.Steps.{with_return}
use go_ticket_booking_app.Concurrent.Locks.{Newer, RowsKept, Newer-same}
use go_ticket_booking_app.Concurrent.Invariant.{Marked, Restored}
use go_ticket_booking_app.Concurrent.Stepping.{NoMore, Changed, other_row, put-Newer}

module _ {S : Type 0} (env : Env) (cache : Cache S) (i : ℕ) (s : Server S) (c : CancelRequest)
    (bk : Booking) (now : ℕ) (h : Integrity env s.world.db) (m : Marked env i c bk now s) where
  bk-id : bk.id ≡ c.booking_id
  bk-id =
      (==_iff _ _).0
        (find_holds (has_key booking_id_of c.booking_id) s.world.db.bookings bk m.found)

  counted : pos 0 ≤ℤ bk.ticket_count
  unfolding booking_violation
  counted = ground (arith, m.checked)

  return-bookings :
      (with_return env cache bk now none now s.world.db).bookings
      ≡ modify_where (has_key booking_id_of c.booking_id) (mark_cancelled now) s.world.db.bookings
  return-bookings =
      subst
        (λ k.
          modify_where (has_key booking_id_of k) (λ _. mark_cancelled now bk) s.world.db.bookings
          ≡ modify_where (has_key booking_id_of c.booking_id) (mark_cancelled now)
              s.world.db.bookings)
        (sym bk-id)
        (put_update booking_id_of c.booking_id (has_key booking_id_of c.booking_id)
          (mark_cancelled now) s.world.db.bookings bk h.booking_keys m.found
          (find_holds (has_key booking_id_of c.booking_id) s.world.db.bookings bk m.found)
          (λ x q. q))

  return-events :
      (e : Event) (later : ℕ)
      → find (has_key event_id_of bk.event_id) s.world.db.events ≡ some e
      → (with_return env cache bk now (some e) later s.world.db).events
        ≡ modify_where
            (has_key event_id_of bk.event_id)
            (give_tickets later bk.ticket_count)
            s.world.db.events
  return-events e later found =
      let at : (e.id == bk.event_id) ≡ true =
        find_holds (has_key event_id_of bk.event_id) s.world.db.events e found in
      subst
        (λ k.
          modify_where (has_key event_id_of k) (λ _. give_tickets later bk.ticket_count e)
            s.world.db.events
          ≡ modify_where (has_key event_id_of bk.event_id) (give_tickets later bk.ticket_count)
              s.world.db.events)
        (sym ((==_iff _ _).0 at))
        (put_update event_id_of bk.event_id (has_key event_id_of bk.event_id)
          (give_tickets later bk.ticket_count) s.world.db.events e h.event_keys found at (λ x q. q))

  -- Without its event, a booking that is cancelled takes its tickets away.
  fewer_sold :
      (id : ℕ) (d' : Database) (t : ℤ)
      → d'.events ≡ s.world.db.events
      → d'.bookings
        ≡ modify_where (has_key booking_id_of c.booking_id) (mark_cancelled now) s.world.db.bookings
      → capacity id s.world.db ≡ some t
      → (u : ℤ) × (capacity id d' ≡ some u) × (u ≤ℤ t)
  unfolding capacity
  fewer_sold id d' t es bs cap =
      of_row (find (has_key event_id_of id) s.world.db.events) (rw es refl) cap
    where
      left : ℤ
      left = sold id (
          modify_where (has_key booking_id_of c.booking_id) (mark_cancelled now)
            s.world.db.bookings)

      no_more : left ≤ℤ sold id s.world.db.bookings
      no_more =
          let split : left +ℤ tickets_for id bk ≡ sold id s.world.db.bookings =
            sold-cancelled id c.booking_id now s.world.db.bookings bk h.booking_keys m.found
              m.is_on in
          ground (arith, +ℤ_parts left (tickets_for id bk), counted)

      of_row :
          (o : Option Event)
          → find (has_key event_id_of id) d'.events ≡ o
          → Option.map (λ x. x.remaining_tickets +ℤ sold id s.world.db.bookings) o ≡ some t
          → (u : ℤ) × (Option.map
                (λ x. x.remaining_tickets +ℤ sold id d'.bookings)
                (find (has_key event_id_of id) d'.events)
              ≡ some u)
            × (u ≤ℤ t)
      of_row none q e = cc
      of_row (some x) q e = (
        x.remaining_tickets +ℤ left,
        rw (q, bs) refl,
        ground (
          arith,
          no_more,
          +ℤ_parts x.remaining_tickets left,
          +ℤ_parts x.remaining_tickets (sold id s.world.db.bookings),
        ),
      )

  return-NoMore :
      (seen : Option Event) (later : ℕ) (d' : Database)
      → Restored env i bk seen later s
      → SameButLogs (with_return env cache bk now seen later s.world.db) d'
      → NoMore env s.world.db d'
  return-NoMore none later d' r (users, events, bookings) = record {
    integrity = record {
      event_keys = rw events h.event_keys;
      event_rows = rw events h.event_rows;
      booking_keys =
          rw (bookings, return-bookings)
            (modify_where-Distinct booking_id_of (has_key booking_id_of c.booking_id)
              (mark_cancelled now) s.world.db.bookings (λ _. refl) h.booking_keys);
      booking_rows = rw bookings (
          put-All (λ x. booking_violation x ≡ none) (has_key booking_id_of bk.id)
            (mark_cancelled now bk) s.world.db.bookings h.booking_rows m.checked);
      one_active =
          rw (bookings, return-bookings)
            (cancelled-OneActive now (has_key booking_id_of c.booking_id) s.world.db.bookings
              h.one_active);
    };
    at_most = λ id t cap. fewer_sold id d' t events (bookings ∙ return-bookings) cap;
  }
  return-NoMore (some e) later d' (locked, found, fine) (users, events, bookings) = record {
    integrity = record {
      event_keys =
          rw (events, return-events e later found)
            (modify_where-Distinct event_id_of (has_key event_id_of bk.event_id)
              (give_tickets later bk.ticket_count) s.world.db.events (λ _. refl) h.event_keys);
      event_rows = rw events (
          put-All (λ x. event_violation env x ≡ none) (has_key event_id_of e.id)
            (give_tickets later bk.ticket_count e) s.world.db.events h.event_rows fine);
      booking_keys =
          rw (bookings, return-bookings)
            (modify_where-Distinct booking_id_of (has_key booking_id_of c.booking_id)
              (mark_cancelled now) s.world.db.bookings (λ _. refl) h.booking_keys);
      booking_rows = rw bookings (
          put-All (λ x. booking_violation x ≡ none) (has_key booking_id_of bk.id)
            (mark_cancelled now bk) s.world.db.bookings h.booking_rows m.checked);
      one_active =
          rw (bookings, return-bookings)
            (cancelled-OneActive now (has_key booking_id_of c.booking_id) s.world.db.bookings
              h.one_active);
    };
    at_most = λ id t cap. (
      t,
      capacity-cancelled id c.booking_id s.world.db d' bk now later h.booking_keys m.found m.is_on
            (bookings ∙ return-bookings) (events ∙ return-events e later found)
          ∙ cap,
      ground arith,
    );
  }

  module _ (j : ℕ) (other : j ≢ i) where
    return-booking_kept :
        (k : ℕ)
        → s.booking_locks k ≡ some j
        → find (has_key booking_id_of k) (with_return env cache bk now none now s.world.db).bookings
          ≡ find (has_key booking_id_of k) s.world.db.bookings
    return-booking_kept k mine =
        find-put booking_id_of bk.id k (mark_cancelled now bk) s.world.db.bookings refl
          λ same. other_row i j c.booking_id k s.booking_locks m.locked other mine (same ∙ bk-id)

    return-RowsKept :
        (seen : Option Event) (later : ℕ) (d' : Database)
        → Restored env i bk seen later s
        → SameButLogs (with_return env cache bk now seen later s.world.db) d'
        → RowsKept j s.event_locks s.booking_locks s.world.db d'
    return-RowsKept none later d' r (users, events, bookings) = record {
      event_kept = λ k x mine there. rw events there;
      booking_kept = λ k mine. rw bookings (return-booking_kept k mine);
      alone_kept = λ k user mine alone.
          rw (bookings, return-bookings)
            (find_active-cancelled user k now (has_key booking_id_of c.booking_id)
              s.world.db.bookings alone);
      newer_kept = λ k x found. Newer-same x _ (rw events found);
    }
    return-RowsKept (some e) later d' (locked, found, fine) (users, events, bookings) = record {
      event_kept = λ k x mine there. rw events (
          find-put event_id_of e.id k (give_tickets later bk.ticket_count e) s.world.db.events refl
            (λ same. other_row i j bk.event_id k s.event_locks locked other mine (same ∙ named))
          ∙ there);
      booking_kept = λ k mine. rw bookings (return-booking_kept k mine);
      alone_kept = λ k user mine alone.
          rw (bookings, return-bookings)
            (find_active-cancelled user k now (has_key booking_id_of c.booking_id)
              s.world.db.bookings alone);
      newer_kept = λ k x found_x. rw events (
          put-Newer e.id e (give_tickets later bk.ticket_count e) s.world.db.events
            (subst (λ n. find (has_key event_id_of n) s.world.db.events ≡ some e) (sym named) found)
            refl newer k x found_x);
    }
      where
        named : e.id ≡ bk.event_id
        named =
            (==_iff _ _).0 (find_holds (has_key event_id_of bk.event_id) s.world.db.events e found)

        newer : Newer e (some (give_tickets later bk.ticket_count e))
        newer = ground (arith, +ℤ_parts e.remaining_tickets bk.ticket_count, counted)

  pub return-Changed :
      (seen : Option Event) (later : ℕ) (d' : Database)
      → Restored env i bk seen later s
      → SameButLogs (with_return env cache bk now seen later s.world.db) d'
      → Changed env i s d'
  return-Changed seen later d' r same = record {
    tables = return-NoMore seen later d' r same;
    rows = λ j other. return-RowsKept j other seen later d' r same;
  }
