-- ===== src/Service/Maintains.antt =====
-- What every call of the event service keeps, whether it returns or fails: the integrity of the
-- tables, and the capacity of every event that is there.
use mathlib.Core.Option
use mathlib.Core.Path.{subst}
use go_ticket_booking_app.Base.{
  ℕ, ◌≡◌, refl, sym, ap, ◌∙◌, inl, inr, none, some, Option, find, arith, Bool-cases, ◌∷◌,
  modify_where, if◌then◌else◌, true, ◌==◌, ==_iff, Bool,
}
use go_ticket_booking_app.Base.Int.{ℤ, ◌+ℤ◌}
use go_ticket_booking_app.Base.Rows.{has_key, modify_where-Distinct, find-modify_where}
use go_ticket_booking_app.Domain.{Event}
use go_ticket_booking_app.World.{Database, Env}
use go_ticket_booking_app.Postgres.Schema.{event_violation, first_violation}
use go_ticket_booking_app.Postgres.Integrity.{Integrity, event_id_of, modify_where-All}
use go_ticket_booking_app.Postgres.Capacity.{capacity, sold}
use go_ticket_booking_app.Service.Booking.Cancel.{SameButLogs}
use go_ticket_booking_app.Service.Booking.Keeps.{Keeps}

pub record Maintains (env : Env) (d d' : Database) : Type 0 where
  pub integrity : Integrity env d'
  pub capacities : (id : ℕ) (t : ℤ) → capacity id d ≡ some t → capacity id d' ≡ some t

pub Keeps-Maintains : (env : Env) (d d' : Database) → Keeps env d d' → Maintains env d d'
Keeps-Maintains env d d' k = record {
  integrity = k.integrity;
  capacities = λ id t e. k.capacities id ∙ e;
}

pub Maintains-trans :
    (env : Env) (a b c : Database) → Maintains env a b → Maintains env b c → Maintains env a c
Maintains-trans env a b c h k = record {
  integrity = k.integrity;
  capacities = λ id t e. k.capacities id t (h.capacities id t e);
}

module _ (env : Env) (d : Database) (h : Integrity env d) where
  pub unchanged-Maintains : (d' : Database) → d' ≡ d → Maintains env d d'
  unchanged-Maintains d' e =
      subst (Maintains env d) (sym e) (record { integrity = h; capacities = λ _ _ x. x })

  -- The same events and bookings, whatever the other tables.
  pub stock-Maintains :
      (d' : Database) → d'.events ≡ d.events → d'.bookings ≡ d.bookings → Maintains env d d'
  unfolding capacity
  stock-Maintains d' events bookings = record {
    integrity = record {
      event_keys = rw events h.event_keys;
      event_rows = rw events h.event_rows;
      booking_keys = rw bookings h.booking_keys;
      booking_rows = rw bookings h.booking_rows;
      one_active = rw bookings h.one_active;
    };
    capacities = λ id t e. rw (events, bookings) e;
  }

  -- The same tables but for audit records.
  pub logged-Maintains : (d' : Database) → SameButLogs d d' → Maintains env d d'
  logged-Maintains d' (users, events, bookings) = stock-Maintains d' events bookings

  -- A new row with an id of its own.
  pub inserted-Maintains :
      (row : Event) (d' : Database)
      → event_violation env row ≡ none
      → find (λ x. x.id == row.id) d.events ≡ none
      → SameButLogs (record d { events = row ∷ d.events }) d'
      → Maintains env d d'
  unfolding capacity
  inserted-Maintains row d' fine new (users, events, bookings) = record {
    integrity = record {
      event_keys = rw events (new, h.event_keys);
      event_rows = rw events (fine, h.event_rows);
      booking_keys = rw bookings h.booking_keys;
      booking_rows = rw bookings h.booking_rows;
      one_active = rw bookings h.one_active;
    };
    capacities = λ id t e.
        rw (events, bookings)
          (elim (Bool-cases (row.id == id)) [
            | inl same ↦
                let gone : find (has_key event_id_of id) d.events ≡ none =
                  subst (λ k. find (has_key event_id_of k) d.events ≡ none) ((==_iff _ _).0 same)
                    new in
                absurd (ground arith)
            | inr other ↦ rw other e
          ]);
  }

  -- An UPDATE of events that keeps the ids and, on the rows that it changes, the unsold tickets.
  pub updated-Maintains :
      (p : Event → Bool) (f : Event → Event) (d' : Database)
      → ((x : Event) → (f x).id ≡ x.id)
      → ((id : ℕ) (x : Event)
          → find (has_key event_id_of id) d.events ≡ some x
          → p x ≡ true
          → (f x).remaining_tickets ≡ x.remaining_tickets)
      → first_violation (event_violation env) p f d.events ≡ none
      → SameButLogs (record d { events = modify_where p f d.events }) d'
      → Maintains env d d'
  unfolding capacity
  updated-Maintains p f d' ids kept fine (users, events, bookings) = record {
    integrity = record {
      event_keys = rw events (modify_where-Distinct event_id_of p f d.events ids h.event_keys);
      event_rows =
          rw events (modify_where-All (event_violation env) p f d.events fine h.event_rows);
      booking_keys = rw bookings h.booking_keys;
      booking_rows = rw bookings h.booking_rows;
      one_active = rw bookings h.one_active;
    };
    capacities = λ id t e.
        rw (events, bookings, find-modify_where event_id_of id p f d.events ids)
          (moved id (find (has_key event_id_of id) d.events) refl ∙ e);
  }
    where
      moved :
          (id : ℕ) (o : Option Event)
          → find (has_key event_id_of id) d.events ≡ o
          → Option.map
              (λ x. x.remaining_tickets +ℤ sold id d.bookings)
              (Option.map (λ r. if p r then f r else r) o)
            ≡ Option.map (λ x. x.remaining_tickets +ℤ sold id d.bookings) o
      moved id none q = refl
      moved id (some x) q = ap some (elim (Bool-cases (p x)) [
        | inl hit ↦ rw hit (ap (λ n. n +ℤ sold id d.bookings) (kept id x q hit))
        | inr miss ↦ rw miss refl
      ])
