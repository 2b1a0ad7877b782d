-- ===== src/Concurrent/Rewrite.antt =====
-- A statement of the pool among other calls: an UPDATE of events whose rows no other thread has
-- locked, and insertions of events.
use mathlib.Core.Option
use mathlib.Core.Path.{subst}
use go_ticket_booking_app.Base.{
  ℕ, Bool, ◌≡◌, ◌≢◌, refl, ap, ◌∙◌, inl, inr, Option, some, none, find, modify_where, arith,
  Bool-cases, Option-cases, ◌==◌, ==_iff, true, false, if◌then◌else◌, List, [], ◌∷◌,
}
use go_ticket_booking_app.Base.Int.{ℤ, ◌+ℤ◌, ◌≤ℤ◌, +ℤ_parts}
use go_ticket_booking_app.Base.Rows.{has_key, find-modify_where, modify_where-Distinct}
use go_ticket_booking_app.Domain.{Event}
use go_ticket_booking_app.World.{Database, Env}
use go_ticket_booking_app.Postgres.Schema.{event_violation, first_violation}
use go_ticket_booking_app.Postgres.Integrity.{Integrity, event_id_of, modify_where-All}
use go_ticket_booking_app.Postgres.Capacity.{capacity, sold}
use go_ticket_booking_app.Service.Booking.Cancel.{SameButLogs}
use go_ticket_booking_app.Service.Event.Batch.{stacked, Insertable}
use go_ticket_booking_app.Concurrent.{Server, held}
use go_ticket_booking_app.Concurrent.Locks.{Newer, RowsKept, Newer-same}
use go_ticket_booking_app.Concurrent.Stepping.{Changed}

module _ {S : Type 0} (env : Env) (i : ℕ) (s : Server S) (h : Integrity env s.world.db)
    (p : Event → Bool) (f : Event → Event) (ids : (x : Event) → (f x).id ≡ x.id) where
  -- What an UPDATE may do to a row that it finds: it is not locked by another thread, it becomes
  -- newer, and gains no tickets.
  abbrev pub Fair : Type 0
  Fair =
      (k : ℕ) (x : Event)
      → find (has_key event_id_of k) s.world.db.events ≡ some x
      → p x ≡ true
      → (held (s.event_locks k) i ≡ false)
        × ((f x).remaining_tickets ≤ℤ x.remaining_tickets)
        × Newer x (some (f x))

  found_after :
      (k : ℕ) (x : Event)
      → find (has_key event_id_of k) s.world.db.events ≡ some x
      → find (has_key event_id_of k) (modify_where p f s.world.db.events)
        ≡ some (if p x then f x else x)
  found_after k x found =
      find-modify_where event_id_of k p f s.world.db.events ids
      ∙ ap (Option.map (λ r. if p r then f r else r)) found

  rewritten-at_most :
      (d' : Database) (id : ℕ) (t : ℤ)
      → Fair
      → SameButLogs (record s.world.db { events = modify_where p f s.world.db.events }) d'
      → capacity id s.world.db ≡ some t
      → (u : ℤ) × (capacity id d' ≡ some u) × (u ≤ℤ t)
  unfolding capacity
  rewritten-at_most d' id t fair (users, events, bookings) start =
      elim (Option-cases (find (has_key event_id_of id) s.world.db.events)) [
        | inl missing ↦ absurd (
            no_capacity (
              subst
                (λ (o : Option Event).
                  Option.map (λ (x : Event). x.remaining_tickets +ℤ sold id s.world.db.bookings) o
                  ≡ some t)
                missing start))
        | inr (x, found) ↦
            let row : Event = if p x then f x else x in
            (
              row.remaining_tickets +ℤ sold id s.world.db.bookings,
              rw (events, bookings, found_after id x found) refl,
              fewer x row found (less x found) (
                  subst
                    (λ (o : Option Event).
                      Option.map (λ (x : Event). x.remaining_tickets +ℤ sold id s.world.db.bookings)
                        o
                      ≡ some t)
                    found start),
            )
      ]
    where
      no_capacity : ¬ (
          Option.map (λ (x : Event). x.remaining_tickets +ℤ sold id s.world.db.bookings) none
          ≡ some t)
      no_capacity e = cc

      less :
          (x : Event)
          → find (has_key event_id_of id) s.world.db.events ≡ some x
          → (if p x then f x else x).remaining_tickets ≤ℤ x.remaining_tickets
      less x found = elim (Bool-cases (p x)) [
        | inl hit ↦ rw hit (fair id x found hit).1
        | inr miss ↦ rw miss (ground arith)
      ]

      fewer :
          (x row : Event)
          → find (has_key event_id_of id) s.world.db.events ≡ some x
          → row.remaining_tickets ≤ℤ x.remaining_tickets
          → some (x.remaining_tickets +ℤ sold id s.world.db.bookings) ≡ some t
          → (row.remaining_tickets +ℤ sold id s.world.db.bookings) ≤ℤ t
      fewer x row found l e = ground (
        arith,
        +ℤ_parts x.remaining_tickets (sold id s.world.db.bookings),
        +ℤ_parts row.remaining_tickets (sold id s.world.db.bookings),
      )

  rewritten-RowsKept :
      (j : ℕ) (d' : Database)
      → j ≢ i
      → Fair
      → SameButLogs (record s.world.db { events = modify_where p f s.world.db.events }) d'
      → RowsKept j s.event_locks s.booking_locks s.world.db d'
  rewritten-RowsKept j d' other fair (users, events, bookings) = record {
    event_kept = λ k x mine found.
        let miss : p x ≡ false = elim (Bool-cases (p x)) [
          | inl hit ↦
              let open_row : held (s.event_locks k) i ≡ false = (fair k x found hit).0 in
              absurd (other (ground arith))
          | inr miss ↦ miss
        ] in
        rw events (found_after k x found ∙ rw miss refl);
    booking_kept = λ k _. rw bookings refl;
    alone_kept = λ k user _ alone. rw bookings alone;
    newer_kept = λ k x found.
        rw (events, found_after k x found)
          (elim (Bool-cases (p x)) [
            | inl hit ↦ rw hit (fair k x found hit).2
            | inr miss ↦ rw miss (Newer-same x (some x) refl)
          ]);
  }

  pub rewritten-Changed :
      (d' : Database)
      → first_violation (event_violation env) p f s.world.db.events ≡ none
      → Fair
      → SameButLogs (record s.world.db { events = modify_where p f s.world.db.events }) d'
      → Changed env i s d'
  rewritten-Changed d' fine fair (users, events, bookings) = record {
    tables = record {
      integrity = record {
        event_keys =
            rw events (modify_where-Distinct event_id_of p f s.world.db.events ids h.event_keys);
        event_rows =
            rw events
              (modify_where-All (event_violation env) p f s.world.db.events fine h.event_rows);
        booking_keys = rw bookings h.booking_keys;
        booking_rows = rw bookings h.booking_rows;
        one_active = rw bookings h.one_active;
      };
      at_most = λ id t start. rewritten-at_most d' id t fair (users, events, bookings) start;
    };
    rows = λ j other. rewritten-RowsKept j d' other fair (users, events, bookings);
  }

-- Rows that are inserted with ids of their own hide no row that was there.
pub find-stacked :
    (env : Env) (k : ℕ) (rows table : List Event) (e : Event)
    → Insertable env rows table
    → find (has_key event_id_of k) table ≡ some e
    → find (has_key event_id_of k) (stacked rows table) ≡ some e
find-stacked env k [] table e fits found = found
find-stacked env k (row ∷ rows) table e (fine, new, fits) found =
    find-stacked env k rows (row ∷ table) e fits (elim (Bool-cases (row.id == k)) [
      | inl same ↦ absurd (twice ((==_iff _ _).0 same))
      | inr away ↦ rw away found
    ])
  where
    twice : ¬ (row.id ≡ k)
    twice same =
        let gone : find (has_key event_id_of k) table ≡ none =
          subst (λ x. find (has_key event_id_of x) table ≡ none) same new in
        ground arith

pub stacked-RowsKept :
    (env : Env) (j : ℕ) (events bookings : ℕ → Option ℕ) (rows : List Event) (d d' : Database)
    → Insertable env rows d.events
    → SameButLogs (record d { events = stacked rows d.events }) d'
    → RowsKept j events bookings d d'
stacked-RowsKept env j events bookings rows d d' fits (_, es, bs) = record {
  event_kept = λ k x _ found. rw es (find-stacked env k rows d.events x fits found);
  booking_kept = λ k _. rw bs refl;
  alone_kept = λ k user _ alone. rw bs alone;
  newer_kept = λ k x found. Newer-same x _ (rw es (find-stacked env k rows d.events x fits found));
}
