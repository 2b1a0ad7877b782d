-- ===== src/Service/Event/Update.antt =====
-- EventService.Update as one step.
use mathlib.Core.Path.{subst}
use go_ticket_booking_app.Base.Int.{eqb_ℤ, eqb_ℤ→eq}
use go_ticket_booking_app.Base.{
  List, ◌≢◌, inl, inr, false, Bool-cases, Bool, ==_iff, sym, not, is_some, ◌&&◌, ℕ, ◌≡◌, ◌⊎◌, none,
  some, find, modify_where, arith, suc,
}
use go_ticket_booking_app.Base.Text.{bytes}
use go_ticket_booking_app.Base.Rows.{
  Distinct, has_key, find_by_key, find_with, find_without, find_holds, modify_where-missing,
}
use go_ticket_booking_app.Postgres.Integrity.{Integrity, event_id_of}
use go_ticket_booking_app.Domain.{Event}
use go_ticket_booking_app.Domain.Errors.{Error, wrap, driver, connection_lost}
use go_ticket_booking_app.World.{Database, Env, World}
use go_ticket_booking_app.World.Calls.{pool_query}
use go_ticket_booking_app.World.Logic.{After, bind-After}
use go_ticket_booking_app.Cache.{Cache}
use go_ticket_booking_app.Postgres.Schema.{event_violation, first_violation}
use go_ticket_booking_app.Postgres.EventRepo
use go_ticket_booking_app.Postgres.EventRepo.{
  is_live, is_at_version, overwrite, update_row, update_events_returning,
}
use go_ticket_booking_app.Postgres.AuditRepo
use go_ticket_booking_app.Postgres.AuditRepo.{insert_audit_log}
use go_ticket_booking_app.Service.Event.{
  UpdateEventRequest, validate_update_event, revised, save_event, update_event,
}
use go_ticket_booking_app.Service.Booking.Cancel.{SameButLogs}
use go_ticket_booking_app.Service.Event.Read.{get_by_id-found, get_by_id-missing}

module _ {S : Type 0} (env : Env) (cache : Cache S) (id : ℕ) (req : UpdateEventRequest)
    (actor_id : ℕ) (old : Event) where
  abbrev pub rewritten : Database → ℕ → Database
  rewritten d n = record d {
    events =
        modify_where (is_at_version old.id req.version) (overwrite (env.now n) (revised old req))
          d.events;
  }

  -- The UPDATE was valid and rewrote the row at the version of the request.
  abbrev pub Saved : Database → ℕ → Database → Type 0
  Saved start n d =
      (validate_update_event req ≡ none)
      × (first_violation (event_violation env) (is_at_version old.id req.version)
            (overwrite (env.now n) (revised old req)) start.events
          ≡ none)
      × SameButLogs (rewritten start n) d

  pub save_event-Saved :
      (w : World S) (row : Event)
      → find (is_at_version old.id req.version) w.db.events ≡ some row
      → After
          (λ e w'.
            (e ≡ overwrite (env.now w.statements) (revised old req) row)
            × Saved w.db w.statements w'.db)
          (λ x w'.
            (w'.db ≡ w.db)
            ⊎ ((x ≡ wrap (bytes "update event: ") (driver connection_lost))
                × Saved w.db w.statements w'.db))
          (save_event env cache id req actor_id old w)
  unfolding save_event EventRepo.update pool_query update_row update_events_returning AuditRepo.log
      insert_audit_log revised
  save_event-Saved w row found = ground arith

  -- Where no row stands at the version of the request, none is changed.
  save_event-stale :
      (w : World S)
      → find (is_at_version old.id req.version) w.db.events ≡ none
      → After (λ _ _. ⊥) (λ _ w'. w'.db ≡ w.db) (save_event env cache id req actor_id old w)
  unfolding save_event EventRepo.update pool_query update_row update_events_returning AuditRepo.log
      insert_audit_log revised
  save_event-stale w missing = ground (
    arith,
    modify_where-missing (is_at_version old.id req.version)
        (overwrite (env.now w.statements) (revised old req)) w.db.events missing,
  )

module _ {S : Type 0} (env : Env) (cache : Cache S) (id : ℕ) (req : UpdateEventRequest)
    (actor_id : ℕ) where
  -- The row that an update finds is the row that it has read.
  same_row :
      (es : List Event) (e : Event)
      → Distinct event_id_of es
      → find (is_live id) es ≡ some e
      → ((e.version ≡ req.version) × (find (is_at_version e.id req.version) es ≡ some e))
        ⊎ ((e.version ≢ req.version) × (find (is_at_version e.id req.version) es ≡ none))
  same_row es e d found =
      let key : e.id ≡ id = (==_iff _ _).0 (ground (arith, find_holds (is_live id) es e found)) in
      let by_id : find (has_key event_id_of e.id) es ≡ some e =
        subst (λ k. find (has_key event_id_of k) es ≡ some e) (sym key)
          (find_by_key event_id_of id (λ x. not (is_some x.deleted_at)) es e d found) in
      let live : is_some e.deleted_at ≡ false =
        ground (arith, find_holds (is_live id) es e found) in
      let q : Event → Bool = λ x. eqb_ℤ x.version req.version && not (is_some x.deleted_at) in
      elim (Bool-cases (eqb_ℤ e.version req.version)) [
        | inl same ↦ inl (eqb_ℤ→eq _ _ same, find_with event_id_of e.id q es e by_id (ground arith))
        | inr other ↦
            inr (λ same. ground arith, find_without event_id_of e.id q es e d by_id (ground arith))
      ]

  -- For tables that meet the schema and an event that is live: an update that returns was valid, named the version in force, and
  -- rewrote that row alone; an update that fails has changed no table, except that the reply to the
  -- UPDATE may have been lost.
  pub update_event_atomic :
      (w : World S) (e : Event)
      → Integrity env w.db
      → find (is_live id) w.db.events ≡ some e
      → After
          (λ row w'.
            (e.version ≡ req.version)
            × (row ≡ overwrite (env.now (suc w.statements)) (revised e req) e)
            × Saved env cache id req actor_id e w.db (suc w.statements) w'.db)
          (λ x w'.
            (w'.db ≡ w.db)
            ⊎ ((x ≡ wrap (bytes "update event: ") (driver connection_lost))
                × (e.version ≡ req.version)
                × Saved env cache id req actor_id e w.db (suc w.statements) w'.db))
          (update_event env cache id req actor_id w)
  unfolding update_event
  update_event_atomic w e h found =
      bind-After (λ a w'. (a ≡ e) × (w'.db ≡ w.db) × (w'.statements ≡ suc w.statements))
        (λ row w'.
          (e.version ≡ req.version)
          × (row ≡ overwrite (env.now (suc w.statements)) (revised e req) e)
          × Saved env cache id req actor_id e w.db (suc w.statements) w'.db)
        (λ x w'.
          (w'.db ≡ w.db)
          ⊎ ((x ≡ wrap (bytes "update event: ") (driver connection_lost))
              × (e.version ≡ req.version)
              × Saved env cache id req actor_id e w.db (suc w.statements) w'.db))
        (EventRepo.get_by_id env id) (save_event env cache id req actor_id) w
        (ground (arith, get_by_id-found env id w e found))
        λ a w' (same, d, k).
          subst (λ x. After Accepted Rejected (save_event env cache id req actor_id x w'))
            (sym same)
            (elim (same_row w.db.events e h.event_keys found) [
              | inl (now, at) ↦
                  ground (arith, save_event-Saved env cache id req actor_id e w' e (ground arith))
              | inr (other, none_there) ↦
                  ground (arith, save_event-stale env cache id req actor_id e w' (ground arith))
            ])
    where
      Accepted : Event → World S → Type 0
      Accepted row w' =
          (e.version ≡ req.version)
          × (row ≡ overwrite (env.now (suc w.statements)) (revised e req) e)
          × Saved env cache id req actor_id e w.db (suc w.statements) w'.db

      Rejected : Error → World S → Type 0
      Rejected x w' =
          (w'.db ≡ w.db)
          ⊎ ((x ≡ wrap (bytes "update event: ") (driver connection_lost))
              × (e.version ≡ req.version)
              × Saved env cache id req actor_id e w.db (suc w.statements) w'.db)

  -- For an event that is not there, an update fails and changes no table.
  pub update_event_absent :
      (w : World S)
      → find (is_live id) w.db.events ≡ none
      → After (λ _ _. ⊥) (λ _ w'. w'.db ≡ w.db) (update_event env cache id req actor_id w)
  unfolding update_event
  update_event_absent w missing =
      bind-After (λ _ _. ⊥) (λ _ _. ⊥) (λ _ w'. w'.db ≡ w.db) (EventRepo.get_by_id env id)
        (save_event env cache id req actor_id) w (get_by_id-missing env id w missing)
        (λ _ _ nothing. absurd nothing)
