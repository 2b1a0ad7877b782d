-- ===== src/Concurrent/EventStep.antt =====
-- Every step of the calls of the event service among other calls.
pub mod Writing
use go_ticket_booking_app.Base.{
  ℕ, ◌≡◌, refl, sym, ◌∙◌, ◌⊎◌, inl, inr, Option, some, none, find, modify_where, arith, Bool-cases,
  ==_iff, true, false, is_some, not, ◌&&◌,
}
use mathlib.Core.Path.{subst}
use go_ticket_booking_app.Base.Int.{pos, ◌≤ℤ◌, +ℤ_parts, eqb_ℤ}
use go_ticket_booking_app.Base.Rows.{has_key, find_by_key, find_with, find_holds}
use go_ticket_booking_app.Domain.{Event}
use go_ticket_booking_app.World.{Env, World, Result, ok, err}
use go_ticket_booking_app.World.Calls.{pool_query}
use go_ticket_booking_app.World.Logic.{After}
use go_ticket_booking_app.Cache.{Cache}
use go_ticket_booking_app.Postgres.Schema.{event_violation, first_violation}
use go_ticket_booking_app.Postgres.EventRepo
use go_ticket_booking_app.Postgres.EventRepo.{
  is_live, is_at_version, overwrite, mark_deleted, select_event, update_events, update_row,
  update_events_returning,
}
use go_ticket_booking_app.Postgres.AuditRepo
use go_ticket_booking_app.Postgres.AuditRepo.{insert_audit_log}
use go_ticket_booking_app.Postgres.Integrity.{Integrity, event_id_of}
use go_ticket_booking_app.Service.Booking.Cancel.{SameButLogs}
use go_ticket_booking_app.Service.Event.{
  UpdateEventRequest, validate_update_event, revised, save_event, remove_event,
}
use go_ticket_booking_app.Concurrent.{
  Thread, updates, has_read, removes, an_event, nothing, consults, over, Server, held, on_pool,
}
use go_ticket_booking_app.Concurrent.Steps.{step_event}
use go_ticket_booking_app.Concurrent.Locks.{Seen, Newer, Newer-same}
use go_ticket_booking_app.Concurrent.Invariant.{Good}
use go_ticket_booking_app.Concurrent.Stepping.{
  Stepped, same-Changed, logged-Changed, waiting-Stepped, on_pool-Stepped,
}
use go_ticket_booking_app.Concurrent.Rewrite.{Fair, rewritten-Changed}

pub some_row : (o : Option Event) (x : Event) → o ≡ some x → is_some o ≡ true
some_row none x e = cc
some_row (some y) x e = refl

pub any_end : {S A : Type 0} (r : Result A × World S) → After (λ _ _. Unit {0}) (λ _ _. Unit {0}) r
any_end (ok a, w) = tt
any_end (err x, w) = tt

module _ {S : Type 0} (env : Env) (cache : Cache S) (i : ℕ) (s : Server S)
    (h : Integrity env s.world.db) where
  read-unchanged : (id : ℕ) → (EventRepo.get_by_id env id s.world).1.db ≡ s.world.db
  unfolding EventRepo.get_by_id pool_query select_event
  read-unchanged id = ground arith

  read-After :
      (id : ℕ)
      → After
          (λ e w. (find (is_live id) s.world.db.events ≡ some e) × (w.db ≡ s.world.db))
          (λ _ _. Unit {0})
          (EventRepo.get_by_id env id s.world)
  unfolding EventRepo.get_by_id pool_query select_event
  read-After id = ground arith

  by_key :
      (id : ℕ) (e : Event)
      → find (is_live id) s.world.db.events ≡ some e
      → find (has_key event_id_of id) s.world.db.events ≡ some e
  by_key id e found =
      find_by_key event_id_of id (λ x. not (is_some x.deleted_at)) s.world.db.events e h.event_keys
        found

  -- A step that reads an event.
  pub reading-Stepped :
      (id : ℕ) (next : Event → Thread)
      → ((e : Event) (w : World S)
          → find (is_live id) s.world.db.events ≡ some e
          → w.db ≡ s.world.db
          → Good env i (next e) (record s { world = w }))
      → Stepped env i s (on_pool s (EventRepo.get_by_id env id s.world) next)
  reading-Stepped id next good =
      on_pool-Stepped env i s
        (λ e w. (find (is_live id) s.world.db.events ≡ some e) × (w.db ≡ s.world.db))
        (λ _ _. Unit {0}) (EventRepo.get_by_id env id s.world) next
        (same-Changed env i s h _ (read-unchanged id)) (read-After id)
        (λ e w (found, same). good e w found same)

  pub consults-Stepped :
      (id : ℕ) (req : UpdateEventRequest) (actor_id : ℕ)
      → Stepped env i s (step_event env cache i (consults id req actor_id) s)
  unfolding step_event
  consults-Stepped id req actor_id =
      reading-Stepped id (λ e. updates id (record req { version = e.version }) actor_id)
        λ e w found same. rw (same, by_key id e found) (ground arith)

  pub updates-Stepped :
      (id : ℕ) (req : UpdateEventRequest) (actor_id : ℕ)
      → Seen req.version (find (has_key event_id_of id) s.world.db.events)
      → Stepped env i s (step_event env cache i (updates id req actor_id) s)
  unfolding step_event
  updates-Stepped id req actor_id seen =
      reading-Stepped id (λ old. has_read id req actor_id old)
        λ e w found same.
          let named : e.id ≡ id =
            (==_iff _ _).0
              (find_holds (has_key event_id_of id) s.world.db.events e (by_key id e found)) in
          let now : find (has_key event_id_of e.id) w.db.events ≡ some e = rw same (
            subst (λ k. find (has_key event_id_of k) s.world.db.events ≡ some e) (sym named)
              (by_key id e found)) in
          (subst (Seen req.version) (by_key id e found) seen, Newer-same e _ now)
