-- ===== src/Concurrent/EventStep/Writing.antt =====
-- The steps of Update and Delete that write.
use go_ticket_booking_app.Base.{
  ℕ, ◌≡◌, refl, sym, ◌∙◌, ◌⊎◌, inl, inr, some, none, find, modify_where, arith, Bool-cases, ==_iff,
  false, is_some, not, ◌&&◌,
}
use mathlib.Core.Path.{subst}
use go_ticket_booking_app.Base.Int.{pos, ◌≤ℤ◌, +ℤ_parts, eqb_ℤ}
use go_ticket_booking_app.Base.Rows.{has_key, find_with, find_holds}
use go_ticket_booking_app.Domain.{Event}
use go_ticket_booking_app.World.{Env, ok}
use go_ticket_booking_app.World.Calls.{pool_query}
use go_ticket_booking_app.Cache.{Cache}
use go_ticket_booking_app.Postgres.Schema.{parameter_violation, event_violation, first_violation}
use go_ticket_booking_app.Postgres.EventRepo
use go_ticket_booking_app.Postgres.EventRepo.{
  is_live, is_at_version, overwrite, mark_deleted, select_event, update_events, update_row,
  update_events_returning,
}
use go_ticket_booking_app.Postgres.AuditRepo
use go_ticket_booking_app.Postgres.AuditRepo.{insert_audit_log}
use go_ticket_booking_app.Postgres.Integrity.{Integrity, event_id_of}
use go_ticket_booking_app.Service.Booking.Cancel.{SameButLogs}
use go_ticket_booking_app.Service.Event.{
  UpdateEventRequest, validate_update_event, revised, save_event, remove_event,
}
use go_ticket_booking_app.Concurrent.{has_read, removes, an_event, nothing, over, Server, held}
use go_ticket_booking_app.Concurrent.Steps.{step_event}
use go_ticket_booking_app.Concurrent.Locks.{Newer, Newer-same}
use go_ticket_booking_app.Concurrent.Stepping.{
  Stepped, logged-Changed, waiting-Stepped, on_pool-Stepped,
}
use go_ticket_booking_app.Concurrent.Rewrite.{Fair, rewritten-Changed}
use go_ticket_booking_app.Concurrent.EventStep.{some_row, any_end}

module _ {S : Type 0} (env : Env) (cache : Cache S) (i : ℕ) (s : Server S)
    (h : Integrity env s.world.db) where
  -- The UPDATE of a valid request, or nothing.
  save_event-either :
      (id : ℕ) (req : UpdateEventRequest) (actor_id : ℕ) (old : Event)
      → (SameButLogs s.world.db (save_event env cache id req actor_id old s.world).1.db)
        ⊎ ((validate_update_event req ≡ none)
            × (parameter_violation env (revised old req) ≡ none)
            × (first_violation
                  (event_violation env)
                  (is_at_version old.id req.version)
                  (overwrite (env.now s.world.statements) (revised old req))
                  s.world.db.events
                ≡ none)
            × SameButLogs
                (record s.world.db {
                  events =
                      modify_where
                        (is_at_version old.id req.version)
                        (overwrite (env.now s.world.statements) (revised old req))
                        s.world.db.events;
                })
                (save_event env cache id req actor_id old s.world).1.db)
  unfolding save_event EventRepo.update pool_query update_row update_events_returning AuditRepo.log
      insert_audit_log revised
  save_event-either id req actor_id old = ground arith

  -- A row at the version that the request names is the one that was read, with no fewer tickets.
  update-Fair :
      (req : UpdateEventRequest) (old : Event) (now : ℕ)
      → req.version ≤ℤ old.version
      → Newer old (find (has_key event_id_of old.id) s.world.db.events)
      → (is_some (find (is_at_version old.id req.version) s.world.db.events)
          && held (s.event_locks old.id) i)
        ≡ false
      → Fair env i s h
          (is_at_version old.id req.version)
          (overwrite now (revised old req))
          (λ _. refl)
  unfolding revised
  update-Fair req old now named newer free k x found hit =
      let here : x.id ≡ k =
        (==_iff _ _).0 (find_holds (has_key event_id_of k) s.world.db.events x found) in
      let mine : x.id ≡ old.id = (==_iff _ _).0 (ground arith) in
      let same : k ≡ old.id = sym here ∙ mine in
      let found_old : find (has_key event_id_of old.id) s.world.db.events ≡ some x =
        subst (λ n. find (has_key event_id_of n) s.world.db.events ≡ some x) same found in
      let at : find (is_at_version old.id req.version) s.world.db.events ≡ some x =
        find_with event_id_of old.id
          (λ e. eqb_ℤ e.version req.version && not (is_some e.deleted_at)) s.world.db.events x
          found_old (ground arith) in
      let unheld : held (s.event_locks old.id) i ≡ false = ground (arith, some_row _ x at) in
      let newer_x : Newer old (some x) = subst (Newer old) found_old newer in
      (rw same unheld, ground arith, ground (arith, +ℤ_parts x.version (pos 1)))

  remove_event-either :
      (id actor_id : ℕ) (old : Event)
      → (SameButLogs s.world.db (remove_event env cache id actor_id old s.world).1.db)
        ⊎ ((first_violation
                (event_violation env)
                (is_live id)
                (mark_deleted (env.now s.world.statements))
                s.world.db.events
              ≡ none)
            × SameButLogs
                (record s.world.db {
                  events =
                      modify_where
                        (is_live id)
                        (mark_deleted (env.now s.world.statements))
                        s.world.db.events;
                })
                (remove_event env cache id actor_id old s.world).1.db)
  unfolding remove_event EventRepo.soft_delete pool_query update_events AuditRepo.log
      insert_audit_log
  remove_event-either id actor_id old = ground arith

  delete-Fair :
      (id now : ℕ)
      → (is_some (find (is_live id) s.world.db.events) && held (s.event_locks id) i) ≡ false
      → Fair env i s h (is_live id) (mark_deleted now) (λ _. refl)
  delete-Fair id now free k x found hit =
      let here : x.id ≡ k =
        (==_iff _ _).0 (find_holds (has_key event_id_of k) s.world.db.events x found) in
      let mine : x.id ≡ id = (==_iff _ _).0 (ground arith) in
      let same : k ≡ id = sym here ∙ mine in
      let found_id : find (has_key event_id_of id) s.world.db.events ≡ some x =
        subst (λ n. find (has_key event_id_of n) s.world.db.events ≡ some x) same found in
      let at : find (is_live id) s.world.db.events ≡ some x =
        find_with event_id_of id (λ e. not (is_some e.deleted_at)) s.world.db.events x found_id
          (ground arith) in
      let unheld : held (s.event_locks id) i ≡ false = ground (arith, some_row _ x at) in
      (rw same unheld, ground arith, Newer-same x (some x) refl)

  pub has_read-Stepped :
      (id : ℕ) (req : UpdateEventRequest) (actor_id : ℕ) (old : Event)
      → req.version ≤ℤ old.version
      → Newer old (find (has_key event_id_of old.id) s.world.db.events)
      → Stepped env i s (step_event env cache i (has_read id req actor_id old) s)
  unfolding step_event
  has_read-Stepped id req actor_id old named newer =
      elim (Bool-cases (
        not (is_some (validate_update_event req))
        && not (is_some (parameter_violation env (revised old req)))
        && (is_some (find (is_at_version old.id req.version) s.world.db.events)
            && held (s.event_locks old.id) i))) [
              | inl waits ↦
                  rw waits (waiting-Stepped env i s h (has_read id req actor_id old) (named, newer))
              | inr free ↦ rw free (
                  on_pool-Stepped env i s (λ _ _. Unit {0}) (λ _ _. Unit {0})
                    (save_event env cache id req actor_id old s.world) (λ e. over (ok (an_event e)))
                    (elim (save_event-either id req actor_id old) [
                      | inl same ↦ logged-Changed env i s h _ same
                      | inr (valid, readable, fine, saved) ↦
                          rewritten-Changed env i s h (is_at_version old.id req.version)
                            (overwrite (env.now s.world.statements) (revised old req)) (λ _. refl) _
                            fine
                            (update-Fair req old (env.now s.world.statements) named newer
                              (ground arith))
                            saved
                    ])
                    (any_end _) (λ _ _ _. tt))
            ]

  pub removes-Stepped :
      (id actor_id : ℕ) (old : Event)
      → Stepped env i s (step_event env cache i (removes id actor_id old) s)
  unfolding step_event
  removes-Stepped id actor_id old =
      elim (Bool-cases
        (is_some (find (is_live id) s.world.db.events) && held (s.event_locks id) i)) [
          | inl waits ↦ rw waits (waiting-Stepped env i s h (removes id actor_id old) tt)
          | inr free ↦ rw free (
              on_pool-Stepped env i s (λ _ _. Unit {0}) (λ _ _. Unit {0})
                (remove_event env cache id actor_id old s.world) (λ _. over (ok nothing))
                (elim (remove_event-either id actor_id old) [
                  | inl same ↦ logged-Changed env i s h _ same
                  | inr (fine, gone) ↦
                      rewritten-Changed env i s h (is_live id)
                        (mark_deleted (env.now s.world.statements)) (λ _. refl) _ fine
                        (delete-Fair id (env.now s.world.statements) free) gone
                ])
                (any_end _) (λ _ _ _. tt))
        ]
