-- ===== src/Concurrent/BookStep.antt =====
-- Every step of BookTicket among other calls.
pub mod Selling
use go_ticket_booking_app.Base.{
  ℕ, Bool, List, [], suc, ◌≡◌, refl, ◌⊎◌, inl, inr, Option, some, none, find, arith, Bool-cases,
  ==_refl, true, false, is_some, not, ◌&&◌, ◌∷◌,
}
use go_ticket_booking_app.Base.Int.{◌≤ℤ◌, pos, leb_ℤ, eqb_ℤ}
use go_ticket_booking_app.Base.Rows.{find_by_key, find_with, find_holds}
use go_ticket_booking_app.Domain.{Event, Booking}
use go_ticket_booking_app.Domain.Errors.{Failure}
use go_ticket_booking_app.Base.Text.{text_eq}
use go_ticket_booking_app.Domain.EventStatus
use go_ticket_booking_app.World.{Database, Env, World}
use go_ticket_booking_app.World.Calls.{tx_query, commit}
use go_ticket_booking_app.World.Logic.{After}
use go_ticket_booking_app.World.Transactions.{InTx}
use go_ticket_booking_app.Cache.{Cache}
use go_ticket_booking_app.Postgres.Schema.{event_violation, first_violation, is_active}
use go_ticket_booking_app.Postgres.EventRepo
use go_ticket_booking_app.Postgres.EventRepo.{is_live, is_at_version, take_tickets, select_event}
use go_ticket_booking_app.Postgres.BookingRepo
use go_ticket_booking_app.Postgres.BookingRepo.{is_active_for}
use go_ticket_booking_app.Postgres.AuditRepo
use go_ticket_booking_app.Postgres.AuditRepo.{insert_audit_log}
use go_ticket_booking_app.Postgres.Integrity.{Integrity, event_id_of}
use go_ticket_booking_app.Postgres.Effects.{
  Inserted, create_in_tx-After, update_tickets_in_tx-After,
}
use go_ticket_booking_app.Service.Booking.{requested, finish}
use go_ticket_booking_app.Service.Booking.Cancel.{SameButLogs}
use go_ticket_booking_app.Concurrent.{
  BookRequest, books, selected, inserted, taken, over, Server, held, lock, lock_event, lock_booking,
  inside, after_statement, a_booking,
}
use go_ticket_booking_app.Concurrent.Steps.{
  insert_waits, read_for_update, seal, with_booking, with_sale, step_book,
}
use go_ticket_booking_app.Concurrent.Locks.{lock_mine, lock-LocksKept, same-LocksKept}
use go_ticket_booking_app.Concurrent.Invariant.{EventLocked, Pending}
use go_ticket_booking_app.Concurrent.Stepping.{
  Stepped, logged-Changed, locking-Stepped, waiting-Stepped, in_tx-Stepped, closing-Stepped,
  inside-InTx,
}
use go_ticket_booking_app.Concurrent.Sale.{sale-Changed}

module _ {S : Type 0} (env : Env) (cache : Cache S) (i : ℕ) (s : Server S)
    (h : Integrity env s.world.db) where
  -- What the SELECT and the validation find.
  abbrev Bookable : BookRequest → Event → Type 0
  Bookable r e =
      (find (is_live r.event_id) s.world.db.events ≡ some e)
      × (text_eq e.status EventStatus.published ≡ true)
      × (r.count ≤ℤ e.remaining_tickets)

  read_for_update-After :
      (r : BookRequest)
      → After
          (λ e _. Bookable r e)
          (λ _ _. Unit {0})
          (read_for_update env cache r (inside s.world.db s))
  unfolding EventRepo.get_by_id_for_update tx_query select_event
  read_for_update-After r = ground arith

  -- The row that the SELECT returns is the row of its key.
  live-EventLocked :
      (r : BookRequest) (e : Event) (t : Server S)
      → Bookable r e
      → t.world.db ≡ s.world.db
      → t.event_locks r.event_id ≡ some i
      → EventLocked i r e t
  live-EventLocked r e t (found, published, enough) same mine = record {
    locked = mine;
    found = rw same (
        find_by_key event_id_of r.event_id (λ x. not (is_some x.deleted_at)) s.world.db.events e
          h.event_keys found);
    live = ground (arith, find_holds (is_live r.event_id) s.world.db.events e found);
    published = published;
    enough = enough;
  }

  selecting-Stepped :
      (r : BookRequest) (e : Event) (w : World S)
      → (is_some (find (is_live r.event_id) s.world.db.events) && held (s.event_locks r.event_id) i)
        ≡ false
      → Bookable r e
      → Stepped env i s (selected r e, lock_event i r.event_id (after_statement w s))
  selecting-Stepped r e w free may =
      let unheld : held (s.event_locks r.event_id) i ≡ false = ground (arith, may.0) in
      locking-Stepped env i s h (selected r e) (lock_event i r.event_id (after_statement w s))
        (live-EventLocked r e (lock_event i r.event_id (after_statement w s)) may refl
          (lock_mine i r.event_id s.event_locks))
        refl (λ j other. lock-LocksKept i j r.event_id s.event_locks other unheld)
        (λ j _. same-LocksKept j s.booking_locks)

  pub books-Stepped : (r : BookRequest) → Stepped env i s (step_book env cache i (books r) s)
  unfolding step_book
  books-Stepped r = elim (Bool-cases (leb_ℤ r.count (pos 0))) [
    | inl few ↦ rw few (waiting-Stepped env i s h (over _) tt)
    | inr many ↦
        elim (Bool-cases (
          is_some (find (is_live r.event_id) s.world.db.events)
          && held (s.event_locks r.event_id) i)) [
            | inl waits ↦ rw (many, waits) (waiting-Stepped env i s h (books r) tt)
            | inr free ↦
                rw (many, free)
                  (in_tx-Stepped env i s (λ e _. Bookable r e) (λ _ _. Unit {0})
                    (read_for_update env cache r (inside s.world.db s)) _ h
                    (read_for_update-After r) (λ e w found. selecting-Stepped r e w free found))
          ]
  ]

  pub EventLocked-same :
      (r : BookRequest) (e : Event) (t : Server S)
      → EventLocked i r e s
      → t.world.db ≡ s.world.db
      → t.event_locks r.event_id ≡ s.event_locks r.event_id
      → EventLocked i r e t
  EventLocked-same r e t l same locks = record {
    locked = rw locks l.locked;
    found = rw same l.found;
    live = l.live;
    published = l.published;
    enough = l.enough;
  }

  inserting-Stepped :
      (r : BookRequest) (e : Event) (b : Booking) (w : World S)
      → EventLocked i r e s
      → insert_waits env cache i r s ≡ false
      → Inserted env s.world.db s.world.statements (requested r.user_id r.event_id r.count e) b
      → Stepped env i s (inserted r e b, lock_booking i b.id (after_statement w s))
  inserting-Stepped r e b w l free ins =
      let unheld : held (s.booking_locks b.id) i ≡ false = rw ins.is_row (ground arith) in
      let is_on : is_active b ≡ true = rw ins.is_row refl in
      let of_event : b.event_id ≡ r.event_id = rw ins.is_row refl in
      let of_user : b.user_id ≡ r.user_id = rw ins.is_row refl in
      let of_count : b.ticket_count ≡ r.count = rw ins.is_row refl in
      locking-Stepped env i s h (inserted r e b) (lock_booking i b.id (after_statement w s))
        (
          EventLocked-same r e (lock_booking i b.id (after_statement w s)) l refl refl,
          record {
            locked = lock_mine i b.id s.booking_locks;
            new_id = ins.new_id;
            alone = ground (arith, ins.alone);
            checked = ins.checked;
            is_on = is_on;
            of_event = of_event;
            of_user = of_user;
            of_count = of_count;
          },
        )
        refl (λ j _. same-LocksKept j s.event_locks)
        (λ j other. lock-LocksKept i j b.id s.booking_locks other unheld)

  pub selected-Stepped :
      (r : BookRequest) (e : Event)
      → EventLocked i r e s
      → Stepped env i s (step_book env cache i (selected r e) s)
  unfolding step_book
  selected-Stepped r e l = elim (Bool-cases (insert_waits env cache i r s)) [
    | inl waits ↦ rw waits (waiting-Stepped env i s h (selected r e) l)
    | inr free ↦ rw free (
        in_tx-Stepped env i s
          (λ b w.
            Inserted env s.world.db s.world.statements (requested r.user_id r.event_id r.count e) b
            × InTx s.world.db (record s.world.db { bookings = b ∷ s.world.db.bookings })
                (suc s.world.statements) w)
          (λ _ w. w.db ≡ s.world.db)
          (BookingRepo.create_in_tx env (requested r.user_id r.event_id r.count e)
            (inside s.world.db s))
          _ h
          (create_in_tx-After env s.world.db s.world.db s.world.statements (inside s.world.db s)
            (requested r.user_id r.event_id r.count e) (inside-InTx s.world.db s))
          (λ b w (ins, _). inserting-Stepped r e b w l free ins))
  ]
