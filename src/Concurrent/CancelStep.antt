-- ===== src/Concurrent/CancelStep.antt =====
-- Every step of CancelBooking among other calls.
pub mod Restoring
use go_ticket_booking_app.Base.{
  ℕ, suc, ◌≡◌, refl, ◌⊎◌, inl, inr, Option, some, none, find, arith, Bool-cases, ◌==◌, true, false,
  is_some, ◌&&◌, if◌then◌else◌,
}
use go_ticket_booking_app.Base.Rows.{has_key, find_by_key}
use go_ticket_booking_app.Domain.{Event, Booking}
use go_ticket_booking_app.World.{Database, Env, World}
use go_ticket_booking_app.World.Calls.{tx_query, pool_query, commit}
use go_ticket_booking_app.World.Logic.{After}
use go_ticket_booking_app.Cache.{Cache}
use go_ticket_booking_app.Postgres.Schema.{
  event_violation, booking_violation, first_violation, is_active,
}
use go_ticket_booking_app.Postgres.BookingRepo
use go_ticket_booking_app.Postgres.BookingRepo.{
  mark_cancelled, give_tickets, select_booking, select_booking_of, cancel_row, restore_tickets,
}
use go_ticket_booking_app.Postgres.AuditRepo
use go_ticket_booking_app.Postgres.AuditRepo.{insert_audit_log}
use go_ticket_booking_app.Postgres.Integrity.{
  first_violation-found, Integrity, event_id_of, booking_id_of,
}
use go_ticket_booking_app.Service.Booking.{record_cancel}
use go_ticket_booking_app.Service.Booking.Cancel.{SameButLogs}
use go_ticket_booking_app.Concurrent.{
  CancelRequest, cancels, owned, marked, restored, Server, held, lock_event, lock_booking, inside,
  after_statement, a_booking,
}
use go_ticket_booking_app.Concurrent.Steps.{
  read_own, lock_and_mark, restore, close_cancel, with_mark, with_return, step_cancel,
}
use go_ticket_booking_app.Concurrent.Locks.{lock_mine, lock-LocksKept, same-LocksKept}
use go_ticket_booking_app.Concurrent.Invariant.{Marked, Restored}
use go_ticket_booking_app.Concurrent.Stepping.{
  Stepped, same-Changed, logged-Changed, locking-Stepped, waiting-Stepped, in_tx-Stepped,
  closing-Stepped, on_pool-Stepped,
}
use go_ticket_booking_app.Concurrent.Return.{return-Changed}

module _ {S : Type 0} (env : Env) (cache : Cache S) (i : ℕ) (s : Server S)
    (h : Integrity env s.world.db) where
  read_own-unchanged : (c : CancelRequest) → (read_own env cache c s.world).1.db ≡ s.world.db
  unfolding BookingRepo.get_by_id pool_query select_booking
  read_own-unchanged c = ground arith

  read_own-After :
      (c : CancelRequest) → After (λ _ _. Unit {0}) (λ _ _. Unit {0}) (read_own env cache c s.world)
  unfolding BookingRepo.get_by_id pool_query select_booking
  read_own-After c = ground arith

  pub cancels-Stepped :
      (c : CancelRequest) → Stepped env i s (step_cancel env cache i (cancels c) s)
  unfolding step_cancel
  cancels-Stepped c =
      on_pool-Stepped env i s (λ _ _. Unit {0}) (λ _ _. Unit {0}) (read_own env cache c s.world)
        (owned c) (same-Changed env i s h _ (read_own-unchanged c)) (read_own-After c)
        (λ old w _. tt)

  abbrev Chosen : CancelRequest → Booking → Type 0
  Chosen c bk =
      (find (λ b. (b.id == c.booking_id) && (b.user_id == c.user_id)) s.world.db.bookings ≡ some bk)
      × (is_active bk ≡ true)
      × (first_violation booking_violation (has_key booking_id_of c.booking_id)
            (mark_cancelled (env.now (suc s.world.statements))) s.world.db.bookings
          ≡ none)

  lock_and_mark-After :
      (c : CancelRequest)
      → After
          (λ bk _. Chosen c bk)
          (λ _ _. Unit {0})
          (lock_and_mark env cache c (inside s.world.db s))
  unfolding tx_query select_booking_of cancel_row
  lock_and_mark-After c = ground arith

  marking-Stepped :
      (c : CancelRequest) (old bk : Booking) (w : World S)
      → (is_some
            (find (λ b. (b.id == c.booking_id) && (b.user_id == c.user_id)) s.world.db.bookings)
          && held (s.booking_locks c.booking_id) i)
        ≡ false
      → Chosen c bk
      → Stepped env i s (
        marked c old bk (env.now (suc s.world.statements)),
        lock_booking i c.booking_id (after_statement w s),
      )
  marking-Stepped c old bk w free (found, is_on, fine) =
      let unheld : held (s.booking_locks c.booking_id) i ≡ false = ground arith in
      let by_id : find (has_key booking_id_of c.booking_id) s.world.db.bookings ≡ some bk =
        find_by_key booking_id_of c.booking_id (λ b. b.user_id == c.user_id) s.world.db.bookings bk
          h.booking_keys found in
      locking-Stepped env i s h (marked c old bk (env.now (suc s.world.statements)))
        (lock_booking i c.booking_id (after_statement w s))
        (record {
          locked = lock_mine i c.booking_id s.booking_locks;
          found = by_id;
          is_on = is_on;
          checked =
              first_violation-found booking_violation (has_key booking_id_of c.booking_id)
                (mark_cancelled (env.now (suc s.world.statements))) s.world.db.bookings bk fine
                by_id;
        })
        refl (λ j _. same-LocksKept j s.event_locks)
        (λ j other. lock-LocksKept i j c.booking_id s.booking_locks other unheld)

  pub owned-Stepped :
      (c : CancelRequest) (old : Booking)
      → Stepped env i s (step_cancel env cache i (owned c old) s)
  unfolding step_cancel
  owned-Stepped c old =
      elim (Bool-cases (
        is_some (find (λ b. (b.id == c.booking_id) && (b.user_id == c.user_id)) s.world.db.bookings)
        && held (s.booking_locks c.booking_id) i)) [
          | inl waits ↦ rw waits (waiting-Stepped env i s h (owned c old) tt)
          | inr free ↦ rw free (
              in_tx-Stepped env i s (λ bk _. Chosen c bk) (λ _ _. Unit {0})
                (lock_and_mark env cache c (inside s.world.db s)) _ h (lock_and_mark-After c)
                (λ bk w chosen. marking-Stepped c old bk w free chosen))
        ]
