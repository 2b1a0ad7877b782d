-- ===== src/Service/Booking/Address.antt =====
-- BookTicket with an address that is no INET: the audit record, whose error is dropped, takes the
-- whole transaction with it.
use go_ticket_booking_app.Base.{ℕ, ◌≡◌, refl, ◌∙◌, false, [], arith}
use go_ticket_booking_app.Base.Int.{ℤ}
use go_ticket_booking_app.Base.Text.{Text, bytes, text_eq}
use go_ticket_booking_app.Domain.{Event, Booking}
use go_ticket_booking_app.Domain.Errors.{wrap}
use go_ticket_booking_app.World.{
  Env, World, Database, Session, idle, active, failed, on_error, deferred, ignored, ◌>>=◌, ◌>>◌,
}
use go_ticket_booking_app.World.Calls.{tx_query, begin_tx, commit, rollback}
use go_ticket_booking_app.World.Logic.{After, bind-After, deferred-After}
use go_ticket_booking_app.Cache.{Cache}
use go_ticket_booking_app.Postgres.EventRepo
use go_ticket_booking_app.Postgres.BookingRepo
use go_ticket_booking_app.Postgres.AuditRepo
use go_ticket_booking_app.Postgres.AuditRepo.{insert_audit_log}
use go_ticket_booking_app.Service.Booking.{
  requested, validate_booking, created_log, finish, sell, book_event, book_in_tx, book_with_tx,
  book_ticket,
}
use go_ticket_booking_app.Service.Booking.Atomic.{lock-After}

-- No transaction that could still commit.
abbrev Dead : Session → Type 0
Dead idle = Unit {0}
Dead (active _) = ⊥
Dead failed = Unit {0}

module _ {S : Type 0} (env : Env) (cache : Cache S) (user_id event_id : ℕ) (count : ℤ)
    (ip ua : Text) (start : Database) where
  abbrev Never : {A : Type 0} → A → World S → Type 0
  Never _ _ = ⊥

  abbrev Unchanged : {A : Type 0} → A → World S → Type 0
  Unchanged _ w = w.db ≡ start

  finish-Dead :
      (b : Booking) (w : World S)
      → w.db ≡ start
      → Dead w.session
      → After Never Unchanged (finish env cache event_id b w)
  unfolding finish commit
  finish-Dead b w h dead = ground arith

  update_tickets-Unchanged :
      (v n : ℤ) (w : World S)
      → w.db ≡ start
      → After Unchanged Unchanged (EventRepo.update_tickets_in_tx env event_id v n w)
  unfolding EventRepo.update_tickets_in_tx tx_query
  update_tickets-Unchanged v n w h = ground arith

  create_in_tx-Unchanged :
      (b : Booking) (w : World S)
      → w.db ≡ start
      → After Unchanged Unchanged (BookingRepo.create_in_tx env b w)
  unfolding BookingRepo.create_in_tx tx_query
  create_in_tx-Unchanged b w h = ground arith

  get_for_update-Unchanged :
      (w : World S)
      → w.db ≡ start
      → After Unchanged Unchanged (EventRepo.get_by_id_for_update env event_id w)
  unfolding EventRepo.get_by_id_for_update tx_query
  get_for_update-Unchanged w h = ground arith

  module _ (given : text_eq ip [] ≡ false) (bad : env.inet ip ≡ false) where
    log-Dead :
        (b : Booking) (w : World S)
        → let w' = (AuditRepo.log_in_tx env (created_log env cache user_id b ip ua) w).1 in
          (w'.db ≡ w.db) × Dead w'.session
    unfolding AuditRepo.log_in_tx tx_query insert_audit_log
    log-Dead b w = ground (arith, given, bad)

    sell-Never :
        (e : Event) (b : Booking) (w : World S)
        → w.db ≡ start
        → After Never Unchanged (sell env cache user_id event_id count ip ua e b w)
    unfolding sell
    sell-Never e b w h =
        bind-After Unchanged Never Unchanged
          (EventRepo.update_tickets_in_tx env event_id e.version count)
          (λ _.
            ignored (AuditRepo.log_in_tx env (created_log env cache user_id b ip ua))
            >> finish env cache event_id b)
          w (update_tickets-Unchanged e.version count w h)
          (λ _ w' k.
            let (same, dead) = log-Dead b w' in
            finish-Dead b (AuditRepo.log_in_tx env (created_log env cache user_id b ip ua) w').1
              (same ∙ k) dead)

    book_event-Never :
        (e : Event) (w : World S)
        → w.db ≡ start
        → After Never Unchanged (book_event env cache user_id event_id count ip ua e w)
    unfolding book_event
    book_event-Never e w h =
        let request : Booking = requested user_id event_id count e in
        bind-After Unchanged Never Unchanged (validate_booking e count)
          (λ _.
            BookingRepo.create_in_tx env request >>= sell env cache user_id event_id count ip ua e)
          w (ground arith)
          (λ _ w' k.
            bind-After Unchanged Never Unchanged (BookingRepo.create_in_tx env request)
              (sell env cache user_id event_id count ip ua e) w'
              (create_in_tx-Unchanged request w' k) (λ b w'' k'. sell-Never e b w'' k'))

    book_in_tx-Never :
        (w : World S)
        → w.db ≡ start
        → After Never Unchanged (book_in_tx env cache user_id event_id count ip ua w)
    unfolding book_in_tx
    book_in_tx-Never w h =
        bind-After Unchanged Never Unchanged (EventRepo.get_by_id_for_update env event_id)
          (book_event env cache user_id event_id count ip ua) w (get_for_update-Unchanged w h)
          (λ e w' k. book_event-Never e w' k)

    book_with_tx-Never :
        (w : World S)
        → w.db ≡ start
        → After Never Unchanged (book_with_tx env cache user_id event_id count ip ua w)
    unfolding book_with_tx begin_tx rollback
    book_with_tx-Never w h =
        bind-After Unchanged Never Unchanged (on_error (wrap (bytes "begin tx: ")) (begin_tx env))
          (λ _. deferred (rollback env) (book_in_tx env cache user_id event_id count ip ua)) w
          (ground arith)
          (λ _ w' k.
            deferred-After Never Unchanged (rollback env)
              (book_in_tx env cache user_id event_id count ip ua) w' (book_in_tx-Never w' k))

-- With an address that is neither empty nor an INET, BookTicket fails and changes no table, whatever
-- is asked and whatever the tables hold: the insertion of the audit record, whose error is dropped,
-- aborts the transaction of the booking.
pub book_ticket_bad_address :
    {S : Type 0} (env : Env) (cache : Cache S) (user_id event_id : ℕ) (count : ℤ) (ip ua : Text)
    (w : World S)
    → text_eq ip [] ≡ false
    → env.inet ip ≡ false
    → After (λ _ _. ⊥) (λ _ w'. w'.db ≡ w.db) (book_ticket env cache user_id event_id count ip ua w)
book_ticket_bad_address env cache user_id event_id count ip ua w given bad =
    lock-After env cache user_id event_id count ip ua (λ _ _. ⊥) (λ _ d. d ≡ w.db) w
      (λ _ v d _. book_with_tx-Never env cache user_id event_id count ip ua w.db given bad v d)
      (λ _. refl)
