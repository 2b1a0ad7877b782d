-- ===== src/Concurrent.antt =====
-- Calls of internal/service/booking_service.go and event_service.go that run at the same time on one
-- PostgreSQL: their statements interleave in any order, under READ COMMITTED and row locks.
-- A transaction's own row versions stay with its thread until COMMIT installs them; a row that a
-- transaction has locked (FOR UPDATE, UPDATE, or a new index entry) makes the statement of another
-- one that needs it wait: its thread makes no step. A step is one statement, with the tests that the
-- code makes before the next one. A statement that neither waits nor makes others wait goes with the
-- one before or after it: the mark on a booking with its lock, an audit record with its COMMIT or
-- with the call that ends. The lock in Redis is left out, so the steps interleave in more ways.
pub mod Steps
pub mod Locks
pub mod Invariant
pub mod Stepping
mod Sale
mod Return
mod BookStep
mod CancelStep
mod Rewrite
mod EventStep
mod Insertion
pub mod System
pub mod Safety
pub mod Commits
mod Leaks
pub mod Locked
mod Tests
use mathlib.Core.Option
use go_ticket_booking_app.Base.{
  ℕ, suc, Bool, true, false, not, ◌&&◌, ◌||◌, Option, none, some, List, [], ◌∷◌, ◌==◌,
  if◌then◌else◌, find, modify_where, is_some,
}
use go_ticket_booking_app.Base.Int.{ℤ, pos, leb_ℤ}
use go_ticket_booking_app.Base.Text.{Text, bytes}
use go_ticket_booking_app.Base.Rows.{has_key}
use go_ticket_booking_app.Domain.{Event, Booking}
use go_ticket_booking_app.Domain.Errors.{
  sentinel, message, driver, wrap, not_booking_owner, booking_cannot_cancel, connection_lost,
}
use go_ticket_booking_app.World.{
  Session, Database, idle, active, failed, Env, World, Result, ok, err, M, pure, raise, lift, ◌>>=◌,
  ◌>>◌, on_error, ignored,
}
use go_ticket_booking_app.World.Calls.{rollback, tx_query, commit}
use go_ticket_booking_app.Cache.{Cache}
use go_ticket_booking_app.Postgres.Schema.{is_active}
use go_ticket_booking_app.Postgres.EventRepo
use go_ticket_booking_app.Postgres.EventRepo.{is_live, is_at_version, take_tickets}
use go_ticket_booking_app.Postgres.BookingRepo
use go_ticket_booking_app.Postgres.BookingRepo.{
  is_active_for, mark_cancelled, give_tickets, select_booking_of, cancel_row, restore_tickets,
  scan_booking, lock_error,
}
use go_ticket_booking_app.Postgres.AuditRepo
use go_ticket_booking_app.Postgres.Integrity.{event_id_of, booking_id_of}
use go_ticket_booking_app.Service.Booking.{
  requested, validate_booking, created_log, finish, record_cancel,
}
use go_ticket_booking_app.Service.Event.{
  CreateEventRequest, UpdateEventRequest, validate_update_event, save_event, remove_event,
  create_event, batch_create_events,
}

pub record BookRequest : Type 0 where
  pub user_id : ℕ
  pub event_id : ℕ
  pub count : ℤ
  pub ip : Text
  pub ua : Text

pub record CancelRequest : Type 0 where
  pub booking_id : ℕ
  pub user_id : ℕ
  pub ip : Text
  pub ua : Text

pub data Reply : Type 0 where
  a_booking : Booking → Reply
  an_event : Event → Reply
  all_events : List Event → Reply
  nothing : Reply

-- How far a call has come, and what it keeps: the rows it has read, the row versions that its
-- transaction has written, and the times at which it wrote them.
pub data Thread : Type 0 where
  -- BookTicket: at its start; the event read, locked and found bookable; the booking inserted; the
  -- tickets taken
  books : BookRequest → Thread
  selected : BookRequest → Event → Thread
  inserted : BookRequest → Event → Booking → Thread
  taken : BookRequest → Event → Booking → ℕ → Thread
  -- CancelBooking: at its start; the owner found to be the caller; the row locked and marked, the
  -- tickets given back to the event, if it is there
  cancels : CancelRequest → Thread
  owned : CancelRequest → Booking → Thread
  marked : CancelRequest → Booking → Booking → ℕ → Thread
  restored : CancelRequest → Booking → Booking → ℕ → Option Event → ℕ → Thread
  -- Update: its client about to read the event, for the version to name; at its start; the event read
  consults : ℕ → UpdateEventRequest → ℕ → Thread
  updates : ℕ → UpdateEventRequest → ℕ → Thread
  has_read : ℕ → UpdateEventRequest → ℕ → Event → Thread
  -- Delete: at its start; the event read
  deletes : ℕ → ℕ → Thread
  removes : ℕ → ℕ → Event → Thread
  -- Create and BatchCreate at their starts
  creates : CreateEventRequest → ℕ → Thread
  creates_all : List CreateEventRequest → ℕ → Thread
  over : Result Reply → Thread

abbrev pub is_over : Thread → Bool
is_over (over r) = true
is_over t = false

-- The committed tables, with the thread that has locked the row of an id.
pub record Server (S : Type 0) : Type 0 where
  pub world : World S
  pub event_locks : ℕ → Option ℕ
  pub booking_locks : ℕ → Option ℕ

-- Locked by another thread than i.
abbrev pub held : Option ℕ → ℕ → Bool
held none i = false
held (some j) i = not (j == i)

abbrev pub lock : ℕ → ℕ → (ℕ → Option ℕ) → ℕ → Option ℕ
lock i k locks x = if x == k then some i else locks x

abbrev pub unless_of : ℕ → Option ℕ → Option ℕ
unless_of i none = none
unless_of i (some j) = if j == i then none else some j

-- The new version of a row in its place.
abbrev pub put_event : Option Event → List Event → List Event
put_event none es = es
put_event (some e) es = modify_where (has_key event_id_of e.id) (λ _. e) es

abbrev pub put_booking : Booking → List Booking → List Booking
put_booking b bs = modify_where (has_key booking_id_of b.id) (λ _. b) bs

abbrev pub map_result {ℓ κ} : {A : Type ℓ} {B : Type κ} → (A → B) → Result A → Result B
map_result f (ok a) = ok (f a)
map_result f (err x) = err x

module _ {S : Type 0} where
  abbrev pub lock_event : ℕ → ℕ → Server S → Server S
  lock_event i k s = record s { event_locks = lock i k s.event_locks }

  abbrev pub lock_booking : ℕ → ℕ → Server S → Server S
  lock_booking i k s = record s { booking_locks = lock i k s.booking_locks }

  -- Thread i gives up its locks.
  abbrev pub release : ℕ → Server S → Server S
  release i s = record s {
    event_locks = λ k. unless_of i (s.event_locks k);
    booking_locks = λ k. unless_of i (s.booking_locks k);
  }

  -- A transaction whose view of the tables is d.
  abbrev pub inside : Database → Server S → World S
  inside d s = record s.world { session = active d }

  abbrev pub after_statement : World S → Server S → Server S
  after_statement w s = record s { world = record s.world { statements = w.statements } }

  -- A session whose transaction is over, or aborted by a failed statement, holds no locks; one whose
  -- transaction is open keeps them.
  abbrev pub unlock : Session → ℕ → Server S → Server S
  unlock (active d) i s = s
  unlock idle i s = release i s
  unlock failed i s = release i s

  -- `defer tx.Rollback(ctx)`: a call that returns, or that an error ends, leaves its session without
  -- a transaction.
  abbrev pub deferred_rollback : Env → World S → World S
  deferred_rollback env w = (rollback env w).1

  -- A statement of a transaction, and the tests after it, change no committed table; an error ends
  -- the call, by way of its deferred Rollback.
  abbrev pub in_tx :
      {A : Type 0}
      → Env
      → ℕ
      → Server S
      → Result A × World S
      → (A → Server S → Thread × Server S)
      → Thread × Server S
  in_tx env i s (ok a, w) next = next a (after_statement w s)
  in_tx env i s (err x, w) next =
      let w' = deferred_rollback env w in (over (err x), unlock w'.session i (after_statement w' s))

  -- A statement on a connection of the pool, committed at once.
  abbrev pub on_pool :
      {A : Type 0} → Server S → Result A × World S → (A → Thread) → Thread × Server S
  on_pool s (ok a, w) next = (next a, record s { world = w })
  on_pool s (err x, w) next = (over (err x), record s { world = w })

  -- COMMIT and what follows it, the deferred Rollback last.
  abbrev pub closing :
      {A : Type 0} → Env → ℕ → Server S → Result A × World S → (A → Reply) → Thread × Server S
  closing env i s (r, w) f =
      let w' = deferred_rollback env w in
      (over (map_result f r), unlock w'.session i (record s { world = w' }))
