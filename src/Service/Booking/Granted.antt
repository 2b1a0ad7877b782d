-- ===== src/Service/Booking/Granted.antt =====
-- A booking that the rules allow is made, where nothing is lost.
use go_ticket_booking_app.Base.{
  ℕ, suc, length, filter, List, ap, ◌∷◌, ◌≡◌, refl, ◌≢◌, none, some, find, arith, is_some, true,
  false, ◌==◌, Bool, not,
}
use go_ticket_booking_app.Base.Int.{ℤ, pos, ◌≤ℤ◌}
use go_ticket_booking_app.Base.Text.{Text}
use go_ticket_booking_app.Domain.{Event, Booking}
use go_ticket_booking_app.World.{Database, Env, World, ok, active, delivered}
use go_ticket_booking_app.World.Calls.{tx_query, begin_tx, commit, rollback}
use go_ticket_booking_app.Cache.{Cache}
use go_ticket_booking_app.Postgres.Schema.{event_violation, booking_violation, first_violation}
use go_ticket_booking_app.Postgres.EventRepo
use go_ticket_booking_app.Postgres.EventRepo.{is_live, select_event}
use go_ticket_booking_app.Postgres.BookingRepo
use go_ticket_booking_app.Postgres.BookingRepo.{is_active_for, new_booking, insert_booking}
use go_ticket_booking_app.Base.Rows.{All-find, Distinct, find_by_key, find_holds, filter_found}
use go_ticket_booking_app.Postgres.Integrity.{Integrity, event_id_of}
use go_ticket_booking_app.Postgres.EventRepo.{is_at_version, take_tickets, update_events}
use go_ticket_booking_app.Postgres.AuditRepo
use go_ticket_booking_app.Postgres.AuditRepo.{audit_texts, insert_audit_log}
use go_ticket_booking_app.Service.Booking.Pricing.{total_price_exact}
use go_ticket_booking_app.Service.Booking.Outcome.{booked_row}
use go_ticket_booking_app.Service.Booking.{
  created_log, lock_key, lock_ttl, requested, finish, sell, book_event, book_in_tx, book_with_tx,
  book_ticket,
}
use go_ticket_booking_app.Service.Booking.Verdicts.{refusal_of}

refusal_none :
    (e : Event) (count : ℤ) (b : Bool) → refusal_of e count b ≡ none → count ≤ℤ e.remaining_tickets
refusal_none e count b h = ground arith

module _ {S : Type 0} (env : Env) (cache : Cache S) (user_id event_id : ℕ) (count : ℤ)
    (ip ua : Text) where
  event_known :
      (es : List Event) (e : Event)
      → Distinct event_id_of es
      → find (is_live event_id) es ≡ some e
      → is_some (find (λ x. x.id == event_id) es) ≡ true
  event_known es e keys found =
      ap is_some
        (find_by_key event_id_of event_id (λ r. not (is_some r.deleted_at)) es e keys found)

  sell_granted :
      (e : Event) (row : Booking) (d : Database) (w : World S)
      → w.session ≡ active d
      → env.delivery w.statements ≡ delivered
      → env.delivery (suc w.statements) ≡ delivered
      → env.delivery (suc (suc w.statements)) ≡ delivered
      → length (filter (is_at_version event_id e.version) d.events) ≢ 0
      → first_violation
          (event_violation env)
          (is_at_version event_id e.version)
          (take_tickets (env.now w.statements) count)
          d.events
        ≡ none
      → audit_texts env (created_log env cache user_id row ip ua) ≡ true
      → is_some (find (λ a. a.id == env.new_uuid (suc w.statements)) d.audit_logs) ≡ false
      → is_some (find (λ u. u.id == user_id) d.users) ≡ true
      → (sell env cache user_id event_id count ip ua e row w).0 ≡ ok row
  unfolding sell EventRepo.update_tickets_in_tx update_events AuditRepo.log_in_tx insert_audit_log
      tx_query finish commit
  sell_granted e row d w view c0 c1 c2 some_row range texts new_log user_known = ground arith

  book_event_granted :
      (e : Event) (d : Database) (w : World S)
      → w.session ≡ active d
      → ((k : ℕ) → env.delivery k ≡ delivered)
      → refusal_of e count (is_some (find (is_active_for user_id event_id) d.bookings)) ≡ none
      → booking_violation (new_booking env w.statements (requested user_id event_id count e)) ≡ none
      → is_some (find (λ x. x.id == user_id) d.users) ≡ true
      → is_some (find (λ x. x.id == event_id) d.events) ≡ true
      → is_some (find (λ x. x.id == env.new_uuid w.statements) d.bookings) ≡ false
      → length (filter (is_at_version event_id e.version) d.events) ≢ 0
      → first_violation
          (event_violation env)
          (is_at_version event_id e.version)
          (take_tickets (env.now (suc w.statements)) count)
          d.events
        ≡ none
      → audit_texts env (
          created_log env cache user_id
            (new_booking env w.statements (requested user_id event_id count e))
            ip
            ua)
        ≡ true
      → is_some (find (λ a. a.id == env.new_uuid (suc (suc w.statements))) d.audit_logs) ≡ false
      → (book_event env cache user_id event_id count ip ua e w).0
        ≡ ok (new_booking env w.statements (requested user_id event_id count e))
  unfolding book_event BookingRepo.create_in_tx tx_query insert_booking
  book_event_granted e d w view calm allowed valid user_known event_known new_id some_row range
        texts new_log =
      let row = new_booking env w.statements (requested user_id event_id count e) in
      let d1 : Database = record d { bookings = row ∷ d.bookings } in
      ground (
        arith,
        calm w.statements,
        sell_granted e row d1 (record w { session = active d1; statements = suc w.statements }) refl
            (calm _) (calm _) (calm _) some_row range texts new_log user_known,
      )

  -- Where nothing is lost and the lock is free, a request that the rules allow is granted: the user
  -- is known, the generated ids are new, the audit record fits its columns, and the new row of the
  -- event its constraints.
  pub book_ticket_granted :
      (w : World S) (e : Event) (token : Text) (s : S)
      → Integrity env w.db
      → cache.acquire_lock (lock_key env event_id) lock_ttl w.cache ≡ (ok token, s)
      → ((k : ℕ) → env.delivery k ≡ delivered)
      → pos 1 ≤ℤ count
      → find (is_live event_id) w.db.events ≡ some e
      → refusal_of e count (is_some (find (is_active_for user_id event_id) w.db.bookings)) ≡ none
      → is_some (find (λ u. u.id == user_id) w.db.users) ≡ true
      → is_some (find (λ b. b.id == env.new_uuid (suc (suc w.statements))) w.db.bookings) ≡ false
      → is_some
          (find (λ a. a.id == env.new_uuid (suc (suc (suc (suc w.statements))))) w.db.audit_logs)
        ≡ false
      → audit_texts env (
          created_log env cache user_id
            (booked_row env cache user_id event_id count ip ua w.db e (suc w.statements))
            ip
            ua)
        ≡ true
      → first_violation
          (event_violation env)
          (is_at_version event_id e.version)
          (take_tickets (env.now (suc (suc (suc w.statements)))) count)
          w.db.events
        ≡ none
      → (book_ticket env cache user_id event_id count ip ua w).0
        ≡ ok (booked_row env cache user_id event_id count ip ua w.db e (suc w.statements))
  unfolding book_ticket book_with_tx begin_tx book_in_tx EventRepo.get_by_id_for_update tx_query
      select_event rollback
  book_ticket_granted w e token s h lock calm positive found allowed user_known new_id new_log texts
        range =
      let n = w.statements in
      let enough : count ≤ℤ e.remaining_tickets = refusal_none e count _ allowed in
      ground (
        arith,
        calm n,
        calm (suc n),
        book_event_granted e w.db
            (record w { session = active w.db; statements = suc (suc n); cache = s }) refl calm
            allowed
            (total_price_exact env e count user_id event_id (suc (suc n))
              (All-find (λ y. event_violation env y ≡ none) (is_live event_id) w.db.events e
                h.event_rows found)
              positive enough).2
            user_known (event_known w.db.events e h.event_keys found) new_id
            (filter_found (is_live event_id) (is_at_version event_id e.version) w.db.events e found
              (ground (arith, find_holds (is_live event_id) w.db.events e found)))
            range texts new_log,
      )
