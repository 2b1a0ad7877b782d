-- ===== src/Concurrent/CancelStep/Restoring.antt =====
-- Every step of CancelBooking from its UPDATE of the event to its COMMIT.
use go_ticket_booking_app.Base.{
  ℕ, ◌≡◌, refl, ◌⊎◌, inl, inr, Option, some, none, find, arith, Bool-cases, false, is_some, ◌&&◌,
  if◌then◌else◌,
}
use go_ticket_booking_app.Base.Rows.{has_key}
use go_ticket_booking_app.Domain.{Event, Booking}
use go_ticket_booking_app.World.{Database, Env, World}
use go_ticket_booking_app.World.Calls.{tx_query, pool_query, commit}
use go_ticket_booking_app.World.Logic.{After}
use go_ticket_booking_app.Cache.{Cache}
use go_ticket_booking_app.Postgres.Schema.{event_violation, first_violation}
use go_ticket_booking_app.Postgres.BookingRepo.{mark_cancelled, give_tickets, restore_tickets}
use go_ticket_booking_app.Postgres.AuditRepo
use go_ticket_booking_app.Postgres.AuditRepo.{insert_audit_log}
use go_ticket_booking_app.Postgres.Integrity.{first_violation-found, Integrity, event_id_of}
use go_ticket_booking_app.Service.Booking.{record_cancel}
use go_ticket_booking_app.Service.Booking.Cancel.{SameButLogs}
use go_ticket_booking_app.Concurrent.{
  CancelRequest, marked, restored, Server, held, lock_event, inside, after_statement, a_booking,
}
use go_ticket_booking_app.Concurrent.Steps.{
  restore, close_cancel, with_mark, with_return, step_cancel,
}
use go_ticket_booking_app.Concurrent.Locks.{lock_mine, lock-LocksKept, same-LocksKept}
use go_ticket_booking_app.Concurrent.Invariant.{Marked, Restored}
use go_ticket_booking_app.Concurrent.Stepping.{
  Stepped, logged-Changed, locking-Stepped, waiting-Stepped, in_tx-Stepped, closing-Stepped,
}
use go_ticket_booking_app.Concurrent.Return.{return-Changed}

module _ {S : Type 0} (env : Env) (cache : Cache S) (i : ℕ) (s : Server S)
    (h : Integrity env s.world.db) where
  restore-After :
      (bk : Booking) (d : Database)
      → After
          (λ _ _.
            first_violation
              (event_violation env)
              (has_key event_id_of bk.event_id)
              (give_tickets (env.now s.world.statements) bk.ticket_count)
              d.events
            ≡ none)
          (λ _ _. Unit {0})
          (restore env cache bk (inside d s))
  unfolding tx_query restore_tickets
  restore-After bk d = ground arith

  Marked-same :
      (c : CancelRequest) (bk : Booking) (now : ℕ) (t : Server S)
      → Marked env i c bk now s
      → t.world.db ≡ s.world.db
      → t.booking_locks c.booking_id ≡ s.booking_locks c.booking_id
      → Marked env i c bk now t
  Marked-same c bk now t m same locks = record {
    locked = rw locks m.locked;
    found = rw same m.found;
    is_on = m.is_on;
    checked = m.checked;
  }

  restoring-Stepped :
      (c : CancelRequest) (old bk : Booking) (now : ℕ) (seen : Option Event) (w : World S)
      → Marked env i c bk now s
      → find (has_key event_id_of bk.event_id) s.world.db.events ≡ seen
      → (is_some seen && held (s.event_locks bk.event_id) i) ≡ false
      → first_violation
          (event_violation env)
          (has_key event_id_of bk.event_id)
          (give_tickets (env.now s.world.statements) bk.ticket_count)
          s.world.db.events
        ≡ none
      → Stepped env i s (
        restored c old bk now seen (env.now s.world.statements),
        if is_some seen
            then lock_event i bk.event_id (after_statement w s)
            else after_statement w s,
      )
  restoring-Stepped c old bk now none w m found free fine =
      locking-Stepped env i s h (restored c old bk now none (env.now s.world.statements))
        (after_statement w s) (Marked-same c bk now (after_statement w s) m refl refl, tt) refl
        (λ j _. same-LocksKept j s.event_locks) (λ j _. same-LocksKept j s.booking_locks)
  restoring-Stepped c old bk now (some e) w m found free fine =
      locking-Stepped env i s h (restored c old bk now (some e) (env.now s.world.statements))
        (lock_event i bk.event_id (after_statement w s))
        (
          Marked-same c bk now (lock_event i bk.event_id (after_statement w s)) m refl refl,
          (
            lock_mine i bk.event_id s.event_locks,
            found,
            first_violation-found (event_violation env) (has_key event_id_of bk.event_id)
                (give_tickets (env.now s.world.statements) bk.ticket_count) s.world.db.events e fine
                found,
          ),
        )
        refl (λ j other. lock-LocksKept i j bk.event_id s.event_locks other free)
        (λ j _. same-LocksKept j s.booking_locks)

  pub marked-Stepped :
      (c : CancelRequest) (old bk : Booking) (now : ℕ)
      → Marked env i c bk now s
      → Stepped env i s (step_cancel env cache i (marked c old bk now) s)
  unfolding step_cancel
  marked-Stepped c old bk now m =
      elim (Bool-cases (
        is_some (find (has_key event_id_of bk.event_id) s.world.db.events)
        && held (s.event_locks bk.event_id) i)) [
          | inl waits ↦ rw waits (waiting-Stepped env i s h (marked c old bk now) m)
          | inr free ↦ rw free (
              in_tx-Stepped env i s
                (λ _ _.
                  first_violation (event_violation env) (has_key event_id_of bk.event_id)
                    (give_tickets (env.now s.world.statements) bk.ticket_count) s.world.db.events
                  ≡ none)
                (λ _ _. Unit {0})
                (restore env cache bk (inside (with_mark env cache bk now s.world.db) s)) _ h
                (restore-After bk (with_mark env cache bk now s.world.db))
                (λ _ w fine.
                  restoring-Stepped c old bk now
                    (find (has_key event_id_of bk.event_id) s.world.db.events) w m refl free fine))
        ]

  -- COMMIT makes the whole cancellation, or nothing.
  close_cancel-After :
      (c : CancelRequest) (old updated : Booking) (d : Database)
      → (SameButLogs s.world.db (close_cancel env cache c old updated (inside d s)).1.db)
        ⊎ (SameButLogs d (close_cancel env cache c old updated (inside d s)).1.db)
  unfolding record_cancel AuditRepo.log pool_query insert_audit_log commit
  close_cancel-After c old updated d = ground arith

  pub restored-Stepped :
      (c : CancelRequest) (old bk : Booking) (now : ℕ) (seen : Option Event) (later : ℕ)
      → Marked env i c bk now s
      → Restored env i bk seen later s
      → Stepped env i s (step_cancel env cache i (restored c old bk now seen later) s)
  unfolding step_cancel
  restored-Stepped c old bk now seen later m r =
      let view : Database = with_return env cache bk now seen later s.world.db in
      closing-Stepped env i s a_booking
        (close_cancel env cache c old (mark_cancelled now bk) (inside view s))
        (elim (close_cancel-After c old (mark_cancelled now bk) view) [
          | inl same ↦ logged-Changed env i s h _ same
          | inr made ↦ return-Changed env cache i s c bk now h m seen later _ r made
        ])
