-- ===== src/Concurrent/BookStep/Selling.antt =====
-- Every step of BookTicket from its UPDATE of the event to its COMMIT.
use go_ticket_booking_app.Base.{
  ℕ, ◌≡◌, refl, ◌⊎◌, inl, inr, some, none, find, arith, is_some, not, ◌&&◌,
}
use go_ticket_booking_app.Base.Int.{eqb_ℤ}
use go_ticket_booking_app.Base.Rows.{find_with}
use go_ticket_booking_app.Domain.{Event, Booking}
use go_ticket_booking_app.World.{Database, Env}
use go_ticket_booking_app.World.Calls.{tx_query, commit}
use go_ticket_booking_app.Cache.{Cache}
use go_ticket_booking_app.Postgres.Schema.{event_violation, first_violation}
use go_ticket_booking_app.Postgres.EventRepo
use go_ticket_booking_app.Postgres.EventRepo.{is_live, is_at_version, take_tickets, select_event}
use go_ticket_booking_app.Postgres.AuditRepo
use go_ticket_booking_app.Postgres.AuditRepo.{insert_audit_log}
use go_ticket_booking_app.Postgres.Integrity.{first_violation-found, Integrity, event_id_of}
use go_ticket_booking_app.Postgres.Effects.{update_tickets_in_tx-After}
use go_ticket_booking_app.Service.Booking.{finish}
use go_ticket_booking_app.Service.Booking.Cancel.{SameButLogs}
use go_ticket_booking_app.Concurrent.{
  BookRequest, inserted, taken, Server, inside, after_statement, a_booking,
}
use go_ticket_booking_app.Concurrent.Steps.{seal, with_booking, with_sale, step_book}
use go_ticket_booking_app.Concurrent.Locks.{same-LocksKept}
use go_ticket_booking_app.Concurrent.Invariant.{EventLocked, Pending}
use go_ticket_booking_app.Concurrent.Stepping.{
  Stepped, logged-Changed, locking-Stepped, in_tx-Stepped, closing-Stepped, inside-InTx,
}
use go_ticket_booking_app.Concurrent.Sale.{sale-Changed}
use go_ticket_booking_app.Concurrent.BookStep.{EventLocked-same}

module _ {S : Type 0} (env : Env) (cache : Cache S) (i : ℕ) (s : Server S)
    (h : Integrity env s.world.db) where
  Pending-same :
      (r : BookRequest) (b : Booking) (t : Server S)
      → Pending i r b s
      → t.world.db ≡ s.world.db
      → t.booking_locks b.id ≡ s.booking_locks b.id
      → Pending i r b t
  Pending-same r b t p same locks = record {
    locked = rw locks p.locked;
    new_id = rw same p.new_id;
    alone = rw same p.alone;
    checked = p.checked;
    is_on = p.is_on;
    of_event = p.of_event;
    of_user = p.of_user;
    of_count = p.of_count;
  }

  pub inserted-Stepped :
      (r : BookRequest) (e : Event) (b : Booking)
      → EventLocked i r e s
      → Pending i r b s
      → Stepped env i s (step_book env cache i (inserted r e b) s)
  unfolding step_book
  inserted-Stepped r e b l p =
      let view : Database = with_booking env cache b s.world.db in
      let at : find (is_at_version r.event_id e.version) s.world.db.events ≡ some e =
        find_with event_id_of r.event_id
          (λ x. eqb_ℤ x.version e.version && not (is_some x.deleted_at)) s.world.db.events e l.found
          (ground (arith, l.live)) in
      in_tx-Stepped env i s
        (λ _ w.
          (first_violation (event_violation env) (is_at_version r.event_id e.version)
              (take_tickets (env.now s.world.statements) r.count) s.world.db.events
            ≡ none)
          × (w.db ≡ s.world.db))
        (λ _ w. w.db ≡ s.world.db)
        (EventRepo.update_tickets_in_tx env r.event_id e.version r.count (inside view s)) _ h
        (ground (
          arith,
          update_tickets_in_tx-After env s.world.db view s.world.statements (inside view s)
              r.event_id e.version r.count (inside-InTx view s),
        ))
        λ _ w (fine, _).
          locking-Stepped env i s h (taken r e b (env.now s.world.statements)) (after_statement w s)
            (
              EventLocked-same env cache i s h r e (after_statement w s) l refl refl,
              Pending-same r b (after_statement w s) p refl refl,
              first_violation-found (event_violation env) (is_at_version r.event_id e.version)
                  (take_tickets (env.now s.world.statements) r.count) s.world.db.events e fine at,
            )
            refl (λ j _. same-LocksKept j s.event_locks) (λ j _. same-LocksKept j s.booking_locks)

  -- COMMIT makes the whole booking, or nothing.
  seal-After :
      (r : BookRequest) (b : Booking) (d : Database)
      → (SameButLogs s.world.db (seal env cache r b (inside d s)).1.db)
        ⊎ (SameButLogs d (seal env cache r b (inside d s)).1.db)
  unfolding AuditRepo.log_in_tx tx_query insert_audit_log finish commit
  seal-After r b d = ground arith

  pub taken-Stepped :
      (r : BookRequest) (e : Event) (b : Booking) (now : ℕ)
      → EventLocked i r e s
      → Pending i r b s
      → event_violation env (take_tickets now r.count e) ≡ none
      → Stepped env i s (step_book env cache i (taken r e b now) s)
  unfolding step_book
  taken-Stepped r e b now l p fine =
      let view : Database = with_sale env cache r e b now s.world.db in
      closing-Stepped env i s a_booking (seal env cache r b (inside view s))
        (elim (seal-After r b view) [
          | inl same ↦ logged-Changed env i s h _ same
          | inr made ↦ sale-Changed env cache i s r e b now h l p fine _ made
        ])
