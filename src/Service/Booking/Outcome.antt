-- ===== src/Service/Booking/Outcome.antt =====
-- What one call of BookTicket leaves behind.
use mathlib.Core.Path.{subst}
use go_ticket_booking_app.Base.{
  ℕ, suc, ◌≡◌, sym, ◌⊎◌, true, false, none, some, ◌∷◌, ◌==◌, find, modify_where, is_some, arith,
  inl, inr, Bool-cases,
}
use go_ticket_booking_app.Base.Int.{ℤ, ◌≤ℤ◌, ltb_ℤ}
use go_ticket_booking_app.Base.Text.{Text, bytes, text_eq}
use go_ticket_booking_app.Domain.{Event, Booking, AuditLog}
use go_ticket_booking_app.Domain.EventStatus
use go_ticket_booking_app.Domain.Errors.{Error, wrap, driver, connection_lost}
use go_ticket_booking_app.World.{Database, Env, World, failed, Result, ok, err, on_error}
use go_ticket_booking_app.World.Calls.{begin_tx, commit, rollback}
use go_ticket_booking_app.World.Logic.{After, bind-After}
use go_ticket_booking_app.World.Transactions.{InTx, begin_tx-After, commit-After}
use go_ticket_booking_app.Cache.{Cache}
use go_ticket_booking_app.Postgres.Schema.{event_violation, booking_violation, first_violation}
use go_ticket_booking_app.Postgres.EventRepo
use go_ticket_booking_app.Postgres.EventRepo.{is_live, is_at_version, take_tickets}
use go_ticket_booking_app.Postgres.BookingRepo
use go_ticket_booking_app.Postgres.BookingRepo.{new_booking, is_active_for}
use go_ticket_booking_app.Postgres.AuditRepo
use go_ticket_booking_app.Postgres.Effects.{
  Inserted, get_by_id_for_update-After, create_in_tx-After, update_tickets_in_tx-After,
  log_in_tx-After,
}
use go_ticket_booking_app.Service.Booking.{
  requested, finish, sell, book_event, created_log, book_in_tx, book_with_tx,
}

module _ {S : Type 0} (env : Env) (cache : Cache S) (user_id event_id : ℕ) (count : ℤ)
    (ip ua : Text) (start : Database) (e : Event) (n : ℕ) where
  -- The booking that the flow makes when its SELECT is statement n.
  abbrev pub booked_row : Booking
  booked_row = new_booking env (suc n) (requested user_id event_id count e)

  abbrev pub booked_log : AuditLog
  booked_log = record (created_log env cache user_id booked_row ip ua) {
    id = env.new_uuid (suc (suc (suc n)));
    created_at = env.now (suc (suc (suc n)));
  }

  abbrev after_insert : Database
  after_insert = record start { bookings = booked_row ∷ start.bookings }

  abbrev after_update : Database
  after_update = record after_insert {
    events =
        modify_where (is_at_version event_id e.version) (take_tickets (env.now (suc (suc n))) count)
          start.events;
  }

  -- The tables once the booking is committed.
  abbrev pub booked : Database
  booked = record after_update { audit_logs = booked_log ∷ start.audit_logs }

  -- What held when the booking was made.
  pub record MayBook : Type 0 where
    pub published : text_eq e.status EventStatus.published ≡ true
    pub enough : count ≤ℤ e.remaining_tickets
    pub checked : booking_violation booked_row ≡ none
    pub new_id : find (λ x. x.id == booked_row.id) start.bookings ≡ none
    pub alone : is_some (find (is_active_for user_id event_id) start.bookings) ≡ false
    pub in_range :
        first_violation
          (event_violation env)
          (is_at_version event_id e.version)
          (take_tickets (env.now (suc (suc n))) count)
          start.events
        ≡ none

  abbrev pub Booked : Booking → World S → Type 0
  Booked b w' = (w'.db ≡ booked) × (b ≡ booked_row) × MayBook

  -- A failed call changed no table, or it lost the reply to its COMMIT.
  abbrev pub NotBooked : Error → World S → Type 0
  NotBooked x w' =
      (w'.db ≡ start)
      ⊎ ((w'.db ≡ booked)
          × (x ≡ wrap (bytes "commit booking: ") (driver connection_lost))
          × MayBook)

  finish-committing :
      MayBook
      → (w : World S) → InTx start booked (suc (suc (suc (suc n)))) w
      → After Booked NotBooked (finish env cache event_id booked_row w)
  unfolding finish
  finish-committing may w h =
      ground (arith, commit-After env start booked (suc (suc (suc (suc n)))) w h)

  finish-aborted :
      (w : World S)
      → (w.db ≡ start) × (w.session ≡ failed)
      → After Booked NotBooked (finish env cache event_id booked_row w)
  unfolding finish commit
  finish-aborted w h = ground arith

  finish-logged :
      MayBook
      → (r : Result AuditLog × World S)
      → After
          (λ row w'.
            (row ≡ booked_log)
            × InTx start
                (record after_update { audit_logs = row ∷ start.audit_logs })
                (suc (suc (suc (suc n))))
                w')
          (λ _ w'. (w'.db ≡ start) × (w'.session ≡ failed))
          r
      → After Booked NotBooked (finish env cache event_id booked_row r.1)
  finish-logged may (ok row, w) h = finish-committing may w (ground arith)
  finish-logged may (err x, w) h = finish-aborted w h

  sell-Booked :
      (published : text_eq e.status EventStatus.published ≡ true)
      → count ≤ℤ e.remaining_tickets
      → Inserted env start (suc n) (requested user_id event_id count e) booked_row
      → (w : World S) → InTx start after_insert (suc (suc n)) w
      → After Booked NotBooked (sell env cache user_id event_id count ip ua e booked_row w)
  unfolding sell
  sell-Booked published enough row w h =
      bind-After
        (λ _ w'.
          (first_violation (event_violation env) (is_at_version event_id e.version)
              (take_tickets (env.now (suc (suc n))) count) start.events
            ≡ none)
          × InTx start after_update (suc (suc (suc n))) w')
        Booked NotBooked (EventRepo.update_tickets_in_tx env event_id e.version count) _ w
        (ground (
          arith,
          update_tickets_in_tx-After env start after_insert (suc (suc n)) w event_id e.version count
              h,
        ))
        λ _ w3 h3.
          finish-logged
            (record {
              published = published;
              enough = enough;
              checked = row.checked;
              new_id = row.new_id;
              alone = row.alone;
              in_range = h3.0;
            })
            (AuditRepo.log_in_tx env (created_log env cache user_id booked_row ip ua) w3)
            (ground (
              arith,
              log_in_tx-After env start after_update (suc (suc (suc n))) w3
                  (created_log env cache user_id booked_row ip ua) h3.1,
            ))

  sell_row-Booked :
      (row : Booking)
      → text_eq e.status EventStatus.published ≡ true
      → count ≤ℤ e.remaining_tickets
      → Inserted env start (suc n) (requested user_id event_id count e) row
      → (w : World S)
      → InTx start (record start { bookings = row ∷ start.bookings }) (suc (suc n)) w
      → After Booked NotBooked (sell env cache user_id event_id count ip ua e row w)
  sell_row-Booked row published enough ins w h =
      subst
        (λ r.
          Inserted env start (suc n) (requested user_id event_id count e) r
          → InTx start (record start { bookings = r ∷ start.bookings }) (suc (suc n)) w
          → After Booked NotBooked (sell env cache user_id event_id count ip ua e r w))
        (sym ins.is_row) (λ ins' h'. sell-Booked published enough ins' w h') ins h

  book_event-Booked :
      (w : World S)
      → InTx start start (suc n) w
      → After Booked NotBooked (book_event env cache user_id event_id count ip ua e w)
  unfolding book_event
  book_event-Booked w h = elim (Bool-cases (text_eq e.status EventStatus.published)) [
    | inr other ↦ ground arith
    | inl published ↦ elim (Bool-cases (ltb_ℤ e.remaining_tickets count)) [
      | inl short ↦ ground arith
      | inr enough ↦
          rw (published, enough)
            (bind-After
              (λ row w'.
                Inserted env start (suc n) (requested user_id event_id count e) row
                × InTx start (record start { bookings = row ∷ start.bookings }) (suc (suc n)) w')
              Booked NotBooked (BookingRepo.create_in_tx env (requested user_id event_id count e)) _
              w
              (ground (
                arith,
                create_in_tx-After env start start (suc n) w (requested user_id event_id count e) h,
              ))
              λ row w' (ins, h'). sell_row-Booked row published (ground arith) ins w' h')
    ]
  ]

  book_in_tx-Booked :
      find (is_live event_id) start.events ≡ some e
      → (w : World S) → InTx start start n w
      → After Booked NotBooked (book_in_tx env cache user_id event_id count ip ua w)
  unfolding book_in_tx
  book_in_tx-Booked found w h =
      bind-After (λ a w'. (a ≡ e) × InTx start start (suc n) w') Booked NotBooked
        (EventRepo.get_by_id_for_update env event_id) _ w
        (ground (arith, get_by_id_for_update-After env start start n w event_id e found h))
        λ a w' (same, h').
          subst
            (λ x. After Booked NotBooked (book_event env cache user_id event_id count ip ua x w'))
            (sym same) (book_event-Booked w' h')

  rolled_back :
      (r : Result Booking × World S)
      → After Booked NotBooked r
      → After Booked NotBooked (r.0, (rollback env r.1).1)
  unfolding rollback
  rolled_back (ok b, w) h = h
  rolled_back (err x, w) h = h

  pub book_with_tx-Booked :
      find (is_live event_id) start.events ≡ some e
      → (w : World S) → w.db ≡ start
      → suc w.statements ≡ n
      → After Booked NotBooked (book_with_tx env cache user_id event_id count ip ua w)
  unfolding book_with_tx
  book_with_tx-Booked found w h k =
      bind-After (λ _ w'. InTx start start n w') Booked NotBooked
        (on_error (wrap (bytes "begin tx: ")) (begin_tx env)) _ w
        (ground (arith, begin_tx-After env start start w.statements w h))
        λ _ w' h'. rolled_back _ (book_in_tx-Booked found w' h')
