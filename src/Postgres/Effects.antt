-- ===== src/Postgres/Effects.antt =====
-- What the methods of the repositories do to the view of a transaction when they succeed. When
-- they fail, the committed tables are as they were.
use go_ticket_booking_app.Base.{
  ℕ, suc, ◌≡◌, ◌≢◌, none, some, ◌∷◌, find, filter, length, modify_where, arith, is_some, ◌&&◌, ◌==◌,
  true, false,
}
use go_ticket_booking_app.Base.Int.{ℤ}
use go_ticket_booking_app.Domain.{Event, Booking, AuditLog}
use go_ticket_booking_app.World.{Database, failed, Env, World}
use go_ticket_booking_app.World.Calls.{tx_query}
use go_ticket_booking_app.World.Logic.{After}
use go_ticket_booking_app.World.Transactions.{InTx}
use go_ticket_booking_app.Postgres.Schema.{
  event_violation, booking_violation, first_violation, is_active,
}
use go_ticket_booking_app.Postgres.EventRepo
use go_ticket_booking_app.Postgres.EventRepo.{
  is_live, is_at_version, take_tickets, select_event, update_events, scan_event,
}
use go_ticket_booking_app.Postgres.BookingRepo
use go_ticket_booking_app.Postgres.BookingRepo.{
  new_booking, is_active_for, insert_booking, select_booking_of, cancel_row, restore_tickets,
  scan_booking, mark_cancelled, give_tickets,
}
use go_ticket_booking_app.Postgres.AuditRepo
use go_ticket_booking_app.Postgres.AuditRepo.{insert_audit_log}

module _ (env : Env) (d : Database) (n : ℕ) where
  -- The row of a booking that was inserted, and what the constraints made sure of.
  pub record Inserted (b row : Booking) : Type 0 where
    pub is_row : row ≡ new_booking env n b
    pub checked : booking_violation row ≡ none
    pub new_id : find (λ x. x.id == row.id) d.bookings ≡ none
    pub alone :
        (is_active row && is_some (find (is_active_for row.user_id row.event_id) d.bookings))
        ≡ false
    pub event_known : is_some (find (λ e. e.id == row.event_id) d.events) ≡ true

module _ {S : Type 0} (env : Env) (start d : Database) (n : ℕ) (w : World S) where
  pub get_by_id_for_update-After :
      (id : ℕ) (e : Event)
      → find (is_live id) d.events ≡ some e
      → InTx start d n w
      → After
          (λ a w'. (a ≡ e) × InTx start d (suc n) w')
          (λ _ w'. w'.db ≡ start)
          (EventRepo.get_by_id_for_update env id w)
  unfolding EventRepo.get_by_id_for_update tx_query select_event
  get_by_id_for_update-After id e f h = ground arith

  pub get_by_id_for_update-absent :
      (id : ℕ)
      → find (is_live id) d.events ≡ none
      → InTx start d n w
      → After (λ _ _. ⊥) (λ _ w'. w'.db ≡ start) (EventRepo.get_by_id_for_update env id w)
  unfolding EventRepo.get_by_id_for_update tx_query select_event
  get_by_id_for_update-absent id f h = ground arith

  pub create_in_tx-After :
      (b : Booking)
      → InTx start d n w
      → After
          (λ row w'.
            Inserted env d n b row
            × InTx start (record d { bookings = row ∷ d.bookings }) (suc n) w')
          (λ _ w'. w'.db ≡ start)
          (BookingRepo.create_in_tx env b w)
  unfolding BookingRepo.create_in_tx tx_query insert_booking
  create_in_tx-After b h = ground arith

  pub update_tickets_in_tx-After :
      (id : ℕ) (v k : ℤ)
      → InTx start d n w
      → After
          (λ _ w'.
            (first_violation
                (event_violation env)
                (is_at_version id v)
                (take_tickets (env.now n) k)
                d.events
              ≡ none)
            × (length (filter (is_at_version id v) d.events) ≢ 0)
            × InTx start
                (record d {
                  events = modify_where (is_at_version id v) (take_tickets (env.now n) k) d.events;
                })
                (suc n)
                w')
          (λ _ w'. w'.db ≡ start)
          (EventRepo.update_tickets_in_tx env id v k w)
  unfolding EventRepo.update_tickets_in_tx tx_query update_events
  update_tickets_in_tx-After id v k h = ground arith

  pub log_in_tx-After :
      (a : AuditLog)
      → InTx start d n w
      → After
          (λ row w'.
            (row ≡ record a { id = env.new_uuid n; created_at = env.now n })
            × InTx start (record d { audit_logs = row ∷ d.audit_logs }) (suc n) w')
          (λ _ w'. (w'.db ≡ start) × (w'.session ≡ failed))
          (AuditRepo.log_in_tx env a w)
  unfolding AuditRepo.log_in_tx tx_query insert_audit_log
  log_in_tx-After a h = ground arith
