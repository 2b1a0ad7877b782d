-- ===== src/Concurrent/Invariant.antt =====
-- What holds of a call at each of its steps: the rows that it has read stand under its locks as it
-- read them, and what it has written meets the constraints of the schema.
use mathlib.Core.Path.{subst}
use go_ticket_booking_app.Base.{
  ℕ, ◌≡◌, ◌∙◌, Option, none, some, find, Option-cases, inl, inr, is_some, false, true,
}
use go_ticket_booking_app.Base.Int.{ℤ, ◌≤ℤ◌}
use go_ticket_booking_app.Base.Rows.{has_key}
use go_ticket_booking_app.Base.Text.{text_eq}
use go_ticket_booking_app.Domain.{Event, Booking}
use go_ticket_booking_app.Domain.EventStatus
use go_ticket_booking_app.World.{Env}
use go_ticket_booking_app.Postgres.Schema.{event_violation, booking_violation, is_active}
use go_ticket_booking_app.Postgres.EventRepo.{take_tickets}
use go_ticket_booking_app.Postgres.BookingRepo.{is_active_for, mark_cancelled, give_tickets}
use go_ticket_booking_app.Postgres.Integrity.{event_id_of, booking_id_of}
use go_ticket_booking_app.Concurrent.{
  BookRequest, CancelRequest, Thread, books, selected, inserted, taken, cancels, owned, marked,
  restored, consults, updates, has_read, deletes, removes, creates, creates_all, over, Server,
}
use go_ticket_booking_app.Concurrent.Locks.{Seen, Newer, Respects, Newer-trans, Newer-Seen}

-- Thread i has locked the row e of the event, and found it bookable.
pub record EventLocked {S : Type 0} (i : ℕ) (r : BookRequest) (e : Event) (s : Server S)
    : Type 0 where
  pub locked : s.event_locks r.event_id ≡ some i
  pub found : find (has_key event_id_of r.event_id) s.world.db.events ≡ some e
  pub live : is_some e.deleted_at ≡ false
  pub published : text_eq e.status EventStatus.published ≡ true
  pub enough : r.count ≤ℤ e.remaining_tickets

-- The booking that thread i has inserted, and not committed.
pub record Pending {S : Type 0} (i : ℕ) (r : BookRequest) (b : Booking) (s : Server S)
    : Type 0 where
  pub locked : s.booking_locks b.id ≡ some i
  pub new_id : find (has_key booking_id_of b.id) s.world.db.bookings ≡ none
  pub alone : find (is_active_for r.user_id r.event_id) s.world.db.bookings ≡ none
  pub checked : booking_violation b ≡ none
  pub is_on : is_active b ≡ true
  pub of_event : b.event_id ≡ r.event_id
  pub of_user : b.user_id ≡ r.user_id
  pub of_count : b.ticket_count ≡ r.count

-- Thread i has locked the active booking bk and marked it.
pub record Marked {S : Type 0} (env : Env) (i : ℕ) (c : CancelRequest) (bk : Booking) (now : ℕ)
    (s : Server S) : Type 0 where
  pub locked : s.booking_locks c.booking_id ≡ some i
  pub found : find (has_key booking_id_of c.booking_id) s.world.db.bookings ≡ some bk
  pub is_on : is_active bk ≡ true
  pub checked : booking_violation (mark_cancelled now bk) ≡ none

-- The event whose tickets thread i has given back, if it is there.
abbrev pub Restored : {S : Type 0} → Env → ℕ → Booking → Option Event → ℕ → Server S → Type 0
Restored env i bk none later s = Unit
Restored env i bk (some e) later s =
    (s.event_locks bk.event_id ≡ some i)
    × (find (has_key event_id_of bk.event_id) s.world.db.events ≡ some e)
    × (event_violation env (give_tickets later bk.ticket_count e) ≡ none)

module _ {S : Type 0} (env : Env) where
  abbrev pub Good : ℕ → Thread → Server S → Type 0
  Good i (selected r e) s = EventLocked i r e s
  Good i (inserted r e b) s = EventLocked i r e s × Pending i r b s
  Good i (taken r e b now) s =
      EventLocked i r e s
      × Pending i r b s
      × (event_violation env (take_tickets now r.count e) ≡ none)
  Good i (marked c old bk now) s = Marked env i c bk now s
  Good i (restored c old bk now seen later) s =
      Marked env i c bk now s × Restored env i bk seen later s
  Good i (updates id req actor_id) s =
      Seen req.version (find (has_key event_id_of id) s.world.db.events)
  Good i (has_read id req actor_id old) s =
      (req.version ≤ℤ old.version) × Newer old (find (has_key event_id_of old.id) s.world.db.events)
  Good i t s = Unit

module _ {S : Type 0} (env : Env) (j : ℕ) (s s' : Server S) (k : Respects j s s') where
  EventLocked-kept : (r : BookRequest) (e : Event) → EventLocked j r e s → EventLocked j r e s'
  EventLocked-kept r e h = record {
    locked = k.event_locks.kept r.event_id h.locked;
    found = k.rows.event_kept r.event_id e h.locked h.found;
    live = h.live;
    published = h.published;
    enough = h.enough;
  }

  Pending-kept :
      (r : BookRequest) (e : Event) (b : Booking)
      → EventLocked j r e s
      → Pending j r b s
      → Pending j r b s'
  Pending-kept r e b l h = record {
    locked = k.booking_locks.kept b.id h.locked;
    new_id = k.rows.booking_kept b.id h.locked ∙ h.new_id;
    alone = k.rows.alone_kept r.event_id r.user_id l.locked h.alone;
    checked = h.checked;
    is_on = h.is_on;
    of_event = h.of_event;
    of_user = h.of_user;
    of_count = h.of_count;
  }

  Marked-kept :
      (c : CancelRequest) (bk : Booking) (now : ℕ)
      → Marked env j c bk now s
      → Marked env j c bk now s'
  Marked-kept c bk now h = record {
    locked = k.booking_locks.kept c.booking_id h.locked;
    found = k.rows.booking_kept c.booking_id h.locked ∙ h.found;
    is_on = h.is_on;
    checked = h.checked;
  }

  Restored-kept :
      (bk : Booking) (seen : Option Event) (later : ℕ)
      → Restored env j bk seen later s
      → Restored env j bk seen later s'
  Restored-kept bk none later h = tt
  Restored-kept bk (some e) later (locked, found, fine) =
      (k.event_locks.kept bk.event_id locked, k.rows.event_kept bk.event_id e locked found, fine)

  Seen-kept :
      (id : ℕ) (v : ℤ)
      → Seen v (find (has_key event_id_of id) s.world.db.events)
      → Seen v (find (has_key event_id_of id) s'.world.db.events)
  Seen-kept id v h = elim (Option-cases (find (has_key event_id_of id) s.world.db.events)) [
    | inl missing ↦ absurd (subst (Seen v) missing h)
    | inr (e, found) ↦ Newer-Seen v e _ (subst (Seen v) found h) (k.rows.newer_kept id e found)
  ]

  Newer-kept :
      (id : ℕ) (old : Event)
      → Newer old (find (has_key event_id_of id) s.world.db.events)
      → Newer old (find (has_key event_id_of id) s'.world.db.events)
  Newer-kept id old h = elim (Option-cases (find (has_key event_id_of id) s.world.db.events)) [
    | inl missing ↦ absurd (subst (Newer old) missing h)
    | inr (e, found) ↦
        Newer-trans old e _ (subst (Newer old) found h) (k.rows.newer_kept id e found)
  ]

  -- A step of another thread that respects j leaves what holds of j.
  pub Good-kept : (t : Thread) → Good env j t s → Good env j t s'
  Good-kept (selected r e) h = EventLocked-kept r e h
  Good-kept (inserted r e b) (l, p) = (EventLocked-kept r e l, Pending-kept r e b l p)
  Good-kept (taken r e b now) (l, p, fine) = (EventLocked-kept r e l, Pending-kept r e b l p, fine)
  Good-kept (marked c old bk now) h = Marked-kept c bk now h
  Good-kept (restored c old bk now seen later) (m, r) =
      (Marked-kept c bk now m, Restored-kept bk seen later r)
  Good-kept (updates id req actor_id) h = Seen-kept id req.version h
  Good-kept (has_read id req actor_id old) (v, n) = (v, Newer-kept old.id old n)
  Good-kept (books r) h = tt
  Good-kept (cancels c) h = tt
  Good-kept (owned c old) h = tt
  Good-kept (consults id req actor_id) h = tt
  Good-kept (deletes id actor_id) h = tt
  Good-kept (removes id actor_id old) h = tt
  Good-kept (creates req actor_id) h = tt
  Good-kept (creates_all reqs actor_id) h = tt
  Good-kept (over r) h = tt
