-- ===== src/Service/Event/Delete.antt =====
-- EventService.Delete as one step, and what it means for bookings.
use go_ticket_booking_app.Base.{
  ℕ, ◌≡◌, refl, ◌⊎◌, inl, inr, none, some, List, [], ◌∷◌, find, modify_where, arith, suc, ◌≢◌,
  length, filter, Option-cases,
}
use go_ticket_booking_app.Base.Int.{ℤ}
use go_ticket_booking_app.Base.Text.{Text, bytes}
use go_ticket_booking_app.Base.Rows.{filter_found, find_holds}
use go_ticket_booking_app.Domain.{Event}
use go_ticket_booking_app.Domain.Errors.{Error, wrap, driver, connection_lost}
use go_ticket_booking_app.World.{Database, Env, World}
use go_ticket_booking_app.World.Calls.{pool_query}
use go_ticket_booking_app.World.Logic.{After, bind-After, weaken}
use go_ticket_booking_app.Cache.{Cache}
use go_ticket_booking_app.Postgres.Schema.{event_violation, first_violation}
use go_ticket_booking_app.Postgres.EventRepo
use go_ticket_booking_app.Postgres.EventRepo.{is_live, select_event, mark_deleted, update_events}
use go_ticket_booking_app.Postgres.AuditRepo
use go_ticket_booking_app.Postgres.AuditRepo.{insert_audit_log}
use go_ticket_booking_app.Service.Event.{remove_event, delete_event}
use go_ticket_booking_app.Service.Booking.Cancel.{SameButLogs}
use go_ticket_booking_app.Service.Event.Read.{get_by_id-found, get_by_id-missing}
use go_ticket_booking_app.Service.Booking.{book_ticket}
use go_ticket_booking_app.Service.Booking.Atomic.{book_ticket_no_event}

-- A deleted event is not found any more.
find_live-deleted :
    (id t : ℕ) (es : List Event)
    → find (is_live id) (modify_where (is_live id) (mark_deleted t) es) ≡ none
find_live-deleted id t [] = refl
find_live-deleted id t (e ∷ es) = ground (arith, find_live-deleted id t es)

module _ {S : Type 0} (env : Env) (cache : Cache S) (id actor_id : ℕ) where
  abbrev pub Deleted : Database → ℕ → Database → Type 0
  Deleted start n d =
      (first_violation (event_violation env) (is_live id) (mark_deleted (env.now n)) start.events
        ≡ none)
      × SameButLogs
          (record start {
            events = modify_where (is_live id) (mark_deleted (env.now n)) start.events;
          })
          d

  remove_event-Deleted :
      (w : World S) (e : Event)
      → length (filter (is_live id) w.db.events) ≢ 0
      → After
          (λ _ w'. Deleted w.db w.statements w'.db)
          (λ x w'.
            (w'.db ≡ w.db)
            ⊎ ((x ≡ wrap (bytes "soft delete event: ") (driver connection_lost))
                × Deleted w.db w.statements w'.db))
          (remove_event env cache id actor_id e w)
  unfolding remove_event EventRepo.soft_delete pool_query update_events AuditRepo.log
      insert_audit_log
  remove_event-Deleted w e some_row = ground arith

  -- Before the deletion there is a live row, so the UPDATE is not the one that finds none.
  counted :
      (e : Event) (es : List Event)
      → find (is_live id) es ≡ some e
      → length (filter (is_live id) es) ≢ 0
  counted e es found =
      filter_found (is_live id) (is_live id) es e found (find_holds (is_live id) es e found)

  pub delete_event_atomic :
      (w : World S) (e : Event)
      → find (is_live id) w.db.events ≡ some e
      → After
          (λ _ w'. Deleted w.db (suc w.statements) w'.db)
          (λ x w'.
            (w'.db ≡ w.db)
            ⊎ ((x ≡ wrap (bytes "soft delete event: ") (driver connection_lost))
                × Deleted w.db (suc w.statements) w'.db))
          (delete_event env cache id actor_id w)
  unfolding delete_event
  delete_event_atomic w e found =
      bind-After (λ a w'. (a ≡ e) × (w'.db ≡ w.db) × (w'.statements ≡ suc w.statements))
        (λ _ w'. Deleted w.db (suc w.statements) w'.db)
        (λ x w'.
          (w'.db ≡ w.db)
          ⊎ ((x ≡ wrap (bytes "soft delete event: ") (driver connection_lost))
              × Deleted w.db (suc w.statements) w'.db))
        (EventRepo.get_by_id env id) (remove_event env cache id actor_id) w
        (ground (arith, get_by_id-found env id w e found))
        λ a w' (same, d, k).
          ground (arith, remove_event-Deleted w' a (ground (arith, counted e w.db.events found)))

  -- Once a deletion has returned, no user can book the event: every call fails and changes no table.
  pub delete_event-unbookable :
      (w : World S) (user_id : ℕ) (count : ℤ) (ip ua : Text)
      → After
          (λ _ w'.
            After
              (λ _ _. ⊥)
              (λ _ w''. w''.db ≡ w'.db)
              (book_ticket env cache user_id id count ip ua w'))
          (λ _ _. Unit {0})
          (delete_event env cache id actor_id w)
  unfolding delete_event
  delete_event-unbookable w user_id count ip ua =
      elim (Option-cases (find (is_live id) w.db.events)) [
        | inl missing ↦
            bind-After (λ _ _. ⊥) Unbookable (λ _ _. Unit {0}) (EventRepo.get_by_id env id)
              (remove_event env cache id actor_id) w
              (weaken (λ _ _. ⊥) (λ _ _. ⊥) (λ _ w'. w'.db ≡ w.db) (λ _ _. Unit {0}) _
                (get_by_id-missing env id w missing) (λ _ _ nothing. nothing) (λ _ _ _. tt))
              (λ _ _ nothing. absurd nothing)
        | inr (e, found) ↦
            weaken (λ _ w'. Deleted w.db (suc w.statements) w'.db) Unbookable Failed
              (λ _ _. Unit {0}) _ (delete_event_atomic w e found)
              (λ _ w' (_, (_, events, _)).
                book_ticket_no_event env cache user_id id count ip ua w'
                  (rw events (find_live-deleted id (env.now (suc w.statements)) w.db.events)))
              (λ _ _ _. tt)
      ]
    where
      Unbookable : Unit {0} → World S → Type 0
      Unbookable _ w' =
          After (λ _ _. ⊥) (λ _ w''. w''.db ≡ w'.db)
            (book_ticket env cache user_id id count ip ua w')

      Failed : Error → World S → Type 0
      Failed x w' =
          (w'.db ≡ w.db)
          ⊎ ((x ≡ wrap (bytes "soft delete event: ") (driver connection_lost))
              × Deleted w.db (suc w.statements) w'.db)

  -- For an event that is not there, a deletion fails and changes no table.
  pub delete_event_absent :
      (w : World S)
      → find (is_live id) w.db.events ≡ none
      → After (λ _ _. ⊥) (λ _ w'. w'.db ≡ w.db) (delete_event env cache id actor_id w)
  unfolding delete_event
  delete_event_absent w missing =
      bind-After (λ _ _. ⊥) (λ _ _. ⊥) (λ _ w'. w'.db ≡ w.db) (EventRepo.get_by_id env id)
        (remove_event env cache id actor_id) w (get_by_id-missing env id w missing)
        (λ _ _ nothing. absurd nothing)
