-- ===== src/Service/Booking.antt =====
-- internal/service/booking_service.go.
pub mod Outcome
pub mod Atomic
pub mod Cancel
pub mod Keeps
pub mod History
pub mod Pricing
pub mod Verdicts
pub mod Granted
pub mod CancelVerdicts
pub mod Locking
pub mod Address
mod Tests
use go_ticket_booking_app.Base.{
  ℕ, suc, ◌+◌, not, Option, none, some, List, [], ◌∷◌, ◌++◌, if◌then◌else◌, ◌==◌, ltb, length,
}
use go_ticket_booking_app.Base.Int.{ℤ, pos, ◌*ℤ◌, leb_ℤ, ltb_ℤ, wrap64}
use go_ticket_booking_app.Base.Text.{Text, bytes, text_eq}
use go_ticket_booking_app.Domain.{Event, Booking, AuditLog}
use go_ticket_booking_app.Domain.EventStatus
use go_ticket_booking_app.Domain.BookingStatus
use go_ticket_booking_app.Domain.AuditAction
use go_ticket_booking_app.Domain.Errors.{
  Error, sentinel, message, wrap, is, lock_not_acquired, event_not_available, insufficient_tickets,
  not_booking_owner,
}
use go_ticket_booking_app.World.{
  Env, World, Result, ok, err, M, pure, raise, ◌>>=◌, ◌>>◌, on_error, deferred, ignored, on_cache,
}
use go_ticket_booking_app.World.Calls.{begin_tx, commit, rollback}
use go_ticket_booking_app.Cache.{Cache}
use go_ticket_booking_app.Postgres.EventRepo
use go_ticket_booking_app.Postgres.BookingRepo
use go_ticket_booking_app.Postgres.AuditRepo
use go_ticket_booking_app.Service.Audit.{booking_to_map, compute_diff}

pub record BatchBookRequest : Type 0 where
  pub event_id : ℕ
  pub ticket_count : ℤ

-- fmt.Sprintf("lock:event:%s", eventID)
abbrev pub lock_key : Env → ℕ → Text
lock_key env event_id = bytes "lock:event:" ++ env.uuid_text event_id

-- 5*time.Second, in milliseconds
abbrev pub lock_ttl : ℕ
lock_ttl = 5000

abbrev pub acquire_error : Error → Error
acquire_error e =
    if is lock_not_acquired e
    then message (bytes "event is currently being processed, try again shortly")
    else wrap (bytes "acquire lock: ") e

-- int64(ticketCount) * int64(event.PriceCents)
unfoldable pub total_price : ℤ → Event → ℤ
total_price count e = wrap64 (count *ℤ e.price_cents)

-- The &domain.Booking{…} that the flow inserts.
abbrev pub requested : ℕ → ℕ → ℤ → Event → Booking
requested user_id event_id count e = record {
  id = 0;
  user_id = user_id;
  event_id = event_id;
  ticket_count = count;
  total_price_cents = total_price count e;
  status = BookingStatus.confirmed;
  version = pos 0;
  booked_at = 0;
  updated_at = 0;
  cancelled_at = none;
}

-- Step 4, the business validation.
abbrev pub validate_booking : {S : Type 0} → Event → ℤ → M S (Unit {0})
validate_booking e count =
    if not (text_eq e.status EventStatus.published)
    then raise (sentinel event_not_available)
    else (if ltb_ℤ e.remaining_tickets count
        then raise (sentinel insufficient_tickets)
        else pure tt)

module _ {S : Type 0} (env : Env) (cache : Cache S) where
  abbrev pub created_log : ℕ → Booking → Text → Text → AuditLog
  created_log user_id b ip ua = record {
    id = 0;
    actor_id = some user_id;
    resource_type = bytes "booking";
    resource_id = b.id;
    action = AuditAction.create;
    old_state = none;
    new_state = some (booking_to_map env b);
    diff = none;
    ip_address = ip;
    user_agent = ua;
    created_at = 0;
  }

  -- Steps 8 and 10: COMMIT, and the invalidation of the cached availability.
  unfoldable pub finish : ℕ → Booking → M S Booking
  finish event_id booking = do
    on_error (wrap (bytes "commit booking: ")) (commit env)
    on_cache (λ s. (ok tt, cache.invalidate_event event_id s))
    pure booking

  -- Steps 6 and 7: the tickets leave the event, and the audit record is written.
  unfoldable pub sell : ℕ → ℕ → ℤ → Text → Text → Event → Booking → M S Booking
  sell user_id event_id count ip ua event booking = do
    EventRepo.update_tickets_in_tx env event_id event.version count
    ignored (AuditRepo.log_in_tx env (created_log user_id booking ip ua))
    finish event_id booking

  -- Steps 4 and 5: the business validation, and the insertion.
  unfoldable pub book_event : ℕ → ℕ → ℤ → Text → Text → Event → M S Booking
  book_event user_id event_id count ip ua event = do
    validate_booking event count
    booking ← BookingRepo.create_in_tx env (requested user_id event_id count event)
    sell user_id event_id count ip ua event booking

  -- BookTicket from step 3 to its end.
  unfoldable pub book_in_tx : ℕ → ℕ → ℤ → Text → Text → M S Booking
  book_in_tx user_id event_id count ip ua = do
    event ← EventRepo.get_by_id_for_update env event_id
    book_event user_id event_id count ip ua event

  -- Step 2 and what it covers.
  unfoldable pub book_with_tx : ℕ → ℕ → ℤ → Text → Text → M S Booking
  book_with_tx user_id event_id count ip ua = do
    on_error (wrap (bytes "begin tx: ")) (begin_tx env)
    deferred (rollback env) (book_in_tx user_id event_id count ip ua)

  -- BookingService.BookTicket
  unfoldable pub book_ticket : ℕ → ℕ → ℤ → Text → Text → M S Booking
  book_ticket user_id event_id count ip ua =
      if leb_ℤ count (pos 0) then raise (message (bytes "ticket_count must be positive")) else do
        token ←
            on_error acquire_error (on_cache (cache.acquire_lock (lock_key env event_id) lock_ttl))
        deferred (on_cache (cache.release_lock (lock_key env event_id) token))
            (book_with_tx user_id event_id count ip ua)

  abbrev pub cancelled_log : ℕ → ℕ → Booking → Booking → Text → Text → AuditLog
  cancelled_log user_id booking_id old new ip ua =
      let old_map = booking_to_map env old in
      let new_map = booking_to_map env new in
      record {
        id = 0;
        actor_id = some user_id;
        resource_type = bytes "booking";
        resource_id = booking_id;
        action = AuditAction.update;
        old_state = some old_map;
        new_state = some new_map;
        diff = some (compute_diff env.value_text old_map new_map);
        ip_address = ip;
        user_agent = ua;
        created_at = 0;
      }

  -- CancelBooking once the row is cancelled: the cached availability, and an audit record outside
  -- the transaction whose failure is dropped.
  unfoldable pub record_cancel : ℕ → ℕ → Text → Text → Booking → Booking → M S Booking
  record_cancel booking_id user_id ip ua old updated = do
    on_cache (λ s. (ok tt, cache.invalidate_event old.event_id s))
    ignored (AuditRepo.log env (cancelled_log user_id booking_id old updated ip ua))
    pure updated

  -- CancelBooking past the test of the owner.
  unfoldable pub cancel_owned : ℕ → ℕ → Text → Text → Booking → M S Booking
  cancel_owned booking_id user_id ip ua old = do
    updated ← BookingRepo.cancel env booking_id user_id
    record_cancel booking_id user_id ip ua old updated

  -- BookingService.CancelBooking
  unfoldable pub cancel_booking : ℕ → ℕ → Text → Text → M S Booking
  cancel_booking booking_id user_id ip ua = do
    old ← BookingRepo.get_by_id env booking_id
    if not (old.user_id == user_id)
        then raise (sentinel not_booking_owner)
        else cancel_owned booking_id user_id ip ua old

  -- fmt.Errorf("booking[%d] (event %s): %w", …), where i is one digit
  abbrev pub batch_error : ℕ → ℕ → Error → Error
  batch_error i event_id e =
      wrap
        (bytes "booking["
          ++ ((b'0' + i) ∷ bytes "] (event ")
          ++ (env.uuid_text event_id ++ bytes "): "))
        e

  abbrev pub on_results :
      Booking
      → Result (List Booking × Option Error) × World S
      → Result (List Booking × Option Error) × World S
  on_results b (ok (bs, e), w) = (ok (b ∷ bs, e), w)
  on_results b (err e, w) = (err e, w)

  -- The loop of BatchBook: the bookings made, and the error that stopped it.
  unfoldable pub book_each :
      ℕ → Text → Text → ℕ → List BatchBookRequest → M S (List Booking × Option Error)
  book_each user_id ip ua i [] w = (ok ([], none), w)
  book_each user_id ip ua i (req ∷ reqs) w =
      let (r, w') = book_ticket user_id req.event_id req.ticket_count ip ua w in
      elim r [
        | err e ↦ (ok ([], some (batch_error i req.event_id e)), w')
        | ok b ↦ on_results b (book_each user_id ip ua (suc i) reqs w')
      ]

  -- BookingService.BatchBook
  unfoldable pub batch_book :
      List BatchBookRequest → ℕ → Text → Text → M S (List Booking × Option Error)
  batch_book reqs user_id ip ua =
      if length reqs == 0
      then pure ([], some (message (bytes "no bookings provided")))
      else (if ltb 10 (length reqs)
          then pure ([], some (message (bytes "batch size exceeds maximum of 10")))
          else book_each user_id ip ua 0 reqs)
