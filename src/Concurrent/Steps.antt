-- ===== src/Concurrent/Steps.antt =====
-- The steps of BookTicket, CancelBooking and the calls of the event service: booking_service.go,
-- event_service.go and the statements of internal/repository/postgres.
use mathlib.Core.Option
use go_ticket_booking_app.Base.{
  ℕ, suc, Bool, false, not, ◌&&◌, ◌||◌, Option, none, some, ◌∷◌, ◌==◌, if◌then◌else◌, find, is_some,
}
use go_ticket_booking_app.Base.Int.{pos, leb_ℤ}
use go_ticket_booking_app.Base.Text.{bytes}
use go_ticket_booking_app.Base.Rows.{has_key}
use go_ticket_booking_app.Domain.{Event, Booking}
use go_ticket_booking_app.Domain.Errors.{
  sentinel, message, driver, wrap, not_booking_owner, booking_cannot_cancel, connection_lost,
}
use go_ticket_booking_app.World.{
  Database, Env, ok, err, M, pure, raise, lift, ◌>>=◌, ◌>>◌, on_error, ignored,
}
use go_ticket_booking_app.World.Calls.{tx_query, commit}
use go_ticket_booking_app.Cache.{Cache}
use go_ticket_booking_app.Postgres.Schema.{parameter_violation, is_active}
use go_ticket_booking_app.Postgres.EventRepo
use go_ticket_booking_app.Postgres.EventRepo.{is_live, is_at_version, take_tickets}
use go_ticket_booking_app.Postgres.BookingRepo
use go_ticket_booking_app.Postgres.BookingRepo.{
  is_active_for, mark_cancelled, give_tickets, select_booking_of, cancel_row, restore_tickets,
  scan_booking, lock_error,
}
use go_ticket_booking_app.Postgres.AuditRepo
use go_ticket_booking_app.Postgres.Integrity.{event_id_of}
use go_ticket_booking_app.Service.Booking.{
  requested, validate_booking, created_log, finish, record_cancel,
}
use go_ticket_booking_app.Service.Event.{
  revised, validate_update_event, save_event, remove_event, create_event, batch_create_events,
}
use go_ticket_booking_app.Concurrent.{
  BookRequest, CancelRequest, a_booking, an_event, all_events, nothing, Thread, books, selected,
  inserted, taken, cancels, owned, marked, restored, consults, updates, has_read, deletes, removes,
  creates, creates_all, over, is_over, Server, held, put_event, put_booking, lock_event,
  lock_booking, release, inside, in_tx, on_pool, closing,
}

module _ {S : Type 0} (env : Env) (cache : Cache S) where
  -- Whether the INSERT INTO bookings waits: for an uncommitted row with its id, or for a thread that
  -- has locked the row that its index entry for the user and the event clashes with. (An uncommitted
  -- insertion with the same entry there is none, since its thread has locked the event.)
  abbrev pub insert_waits : ℕ → BookRequest → Server S → Bool
  insert_waits i r s =
      held (s.booking_locks (env.new_uuid s.world.statements)) i
      || elim (find (is_active_for r.user_id r.event_id) s.world.db.bookings) [
        | none ↦ false
        | some x ↦ held (s.booking_locks x.id) i
      ]

  -- SELECT … FOR UPDATE and the business validation.
  abbrev pub read_for_update : BookRequest → M S Event
  read_for_update r = do
    event ← EventRepo.get_by_id_for_update env r.event_id
    validate_booking event r.count
    pure event

  -- The audit record and COMMIT.
  abbrev pub seal : BookRequest → Booking → M S Booking
  seal r b = do
    ignored (AuditRepo.log_in_tx env (created_log env cache r.user_id b r.ip r.ua))
    finish env cache r.event_id b

  -- The view of a booking's transaction after its INSERT, and after its UPDATE.
  abbrev pub with_booking : Booking → Database → Database
  with_booking b d = record d { bookings = b ∷ d.bookings }

  abbrev pub with_sale : BookRequest → Event → Booking → ℕ → Database → Database
  with_sale r e b now d = record (with_booking b d) {
    events = put_event (some (take_tickets now r.count e)) d.events;
  }

  unfoldable pub step_book : ℕ → Thread → Server S → Thread × Server S
  step_book i (books r) s =
      if leb_ℤ r.count (pos 0)
      then (over (err (message (bytes "ticket_count must be positive"))), s)
      else (if is_some (find (is_live r.event_id) s.world.db.events)
            && held (s.event_locks r.event_id) i
          then (books r, s)
          else in_tx env i s (read_for_update r (inside s.world.db s))
              λ e t. (selected r e, lock_event i r.event_id t))
  step_book i (selected r e) s =
      if insert_waits i r s
      then (selected r e, s)
      else in_tx env i s
          (BookingRepo.create_in_tx env (requested r.user_id r.event_id r.count e)
            (inside s.world.db s))
          λ b t. (inserted r e b, lock_booking i b.id t)
  step_book i (inserted r e b) s =
      in_tx env i s
        (EventRepo.update_tickets_in_tx env r.event_id e.version r.count
          (inside (with_booking b s.world.db) s))
        λ _ t. (taken r e b (env.now s.world.statements), t)
  step_book i (taken r e b now) s =
      closing env i s (seal r b (inside (with_sale r e b now s.world.db) s)) a_booking
  step_book i t s = (t, s)

  -- CancelBooking up to the test of the owner.
  abbrev pub read_own : CancelRequest → M S Booking
  read_own c = do
    old ← BookingRepo.get_by_id env c.booking_id
    if not (old.user_id == c.user_id) then raise (sentinel not_booking_owner) else pure old

  -- SELECT … FOR UPDATE, the test of the status, and the UPDATE of the booking.
  abbrev pub lock_and_mark : CancelRequest → M S Booking
  lock_and_mark c = do
    bk ←
        on_error lock_error
          do row ← tx_query env (select_booking_of c.booking_id c.user_id); lift (scan_booking row)
    if not (is_active bk) then raise (sentinel booking_cannot_cancel) else pure tt
    on_error (wrap (bytes "cancel booking update: "))
        do row ← tx_query env (cancel_row env c.booking_id); lift (scan_booking row)
    pure bk

  abbrev pub restore : Booking → M S (Unit {0})
  restore bk =
      on_error (wrap (bytes "restore event tickets: "))
        (tx_query env (restore_tickets env bk.ticket_count bk.event_id))

  abbrev pub close_cancel : CancelRequest → Booking → Booking → M S Booking
  close_cancel c old updated = do
    on_error (wrap (bytes "commit cancel: ")) (commit env)
    record_cancel env cache c.booking_id c.user_id c.ip c.ua old updated

  abbrev pub with_mark : Booking → ℕ → Database → Database
  with_mark bk now d = record d { bookings = put_booking (mark_cancelled now bk) d.bookings }

  abbrev pub with_return : Booking → ℕ → Option Event → ℕ → Database → Database
  with_return bk now seen later d = record (with_mark bk now d) {
    events = put_event (Option.map (give_tickets later bk.ticket_count) seen) d.events;
  }

  unfoldable pub step_cancel : ℕ → Thread → Server S → Thread × Server S
  step_cancel i (cancels c) s = on_pool s (read_own c s.world) (owned c)
  step_cancel i (owned c old) s =
      if is_some
          (find (λ b. (b.id == c.booking_id) && (b.user_id == c.user_id)) s.world.db.bookings)
        && held (s.booking_locks c.booking_id) i
      then (owned c old, s)
      else in_tx env i s (lock_and_mark c (inside s.world.db s)) λ bk t.
        (marked c old bk (env.now (suc s.world.statements)), lock_booking i c.booking_id t)
  step_cancel i (marked c old bk now) s =
      let seen = find (has_key event_id_of bk.event_id) s.world.db.events in
      if is_some seen && held (s.event_locks bk.event_id) i
      then (marked c old bk now, s)
      else in_tx env i s (restore bk (inside (with_mark bk now s.world.db) s)) λ _ t. (
        restored c old bk now seen (env.now s.world.statements),
        if is_some seen then lock_event i bk.event_id t else t,
      )
  step_cancel i (restored c old bk now seen later) s =
      closing env i s
        (close_cancel c old (mark_cancelled now bk)
          (inside (with_return bk now seen later s.world.db) s))
        a_booking
  step_cancel i t s = (t, s)

  unfoldable pub step_event : ℕ → Thread → Server S → Thread × Server S
  step_event i (consults id req actor_id) s =
      on_pool s (EventRepo.get_by_id env id s.world)
        λ e. updates id (record req { version = e.version }) actor_id
  step_event i (updates id req actor_id) s =
      on_pool s (EventRepo.get_by_id env id s.world) λ old. has_read id req actor_id old
  step_event i (has_read id req actor_id old) s =
      if not (is_some (validate_update_event req))
        && not (is_some (parameter_violation env (revised old req)))
        && (is_some (find (is_at_version old.id req.version) s.world.db.events)
            && held (s.event_locks old.id) i)
      then (has_read id req actor_id old, s)
      else on_pool s (save_event env cache id req actor_id old s.world) λ e. over (ok (an_event e))
  step_event i (deletes id actor_id) s =
      on_pool s (EventRepo.get_by_id env id s.world) λ old. removes id actor_id old
  step_event i (removes id actor_id old) s =
      if is_some (find (is_live id) s.world.db.events) && held (s.event_locks id) i
      then (removes id actor_id old, s)
      else on_pool s (remove_event env cache id actor_id old s.world) λ _. over (ok nothing)
  step_event i (creates req actor_id) s =
      on_pool s (create_event env cache req actor_id s.world) λ e. over (ok (an_event e))
  step_event i (creates_all reqs actor_id) s =
      on_pool s (batch_create_events env cache reqs actor_id s.world)
        λ es. over (ok (all_events es))
  step_event i t s = (t, s)

  -- The next step of thread i, or none where it waits or is over.
  unfoldable pub step : ℕ → Thread → Server S → Thread × Server S
  step i (books r) s = step_book i (books r) s
  step i (selected r e) s = step_book i (selected r e) s
  step i (inserted r e b) s = step_book i (inserted r e b) s
  step i (taken r e b now) s = step_book i (taken r e b now) s
  step i (cancels c) s = step_cancel i (cancels c) s
  step i (owned c old) s = step_cancel i (owned c old) s
  step i (marked c old bk now) s = step_cancel i (marked c old bk now) s
  step i (restored c old bk now seen later) s = step_cancel i (restored c old bk now seen later) s
  step i t s = step_event i t s

  -- A call whose connection is lost, or that PostgreSQL picks to end a deadlock, is rolled back.
  abbrev pub abort : ℕ → Thread → Server S → Thread × Server S
  abort i t s = if is_over t then (t, s) else (over (err (driver connection_lost)), release i s)
