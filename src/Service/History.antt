-- ===== src/Service/History.antt =====
-- Any sequence of calls of both services, by any users, whatever fails on the way.
use mathlib.Core.Path.{subst}
use go_ticket_booking_app.Base.{
  ℕ, suc, ◌≡◌, refl, sym, ◌∙◌, inl, inr, ◌⊎◌, some, find, arith, Option-cases, List, [], ◌∷◌, true,
  not, is_some, ==_iff,
}
use go_ticket_booking_app.Base.Int.{ℤ, ◌≤ℤ◌}
use go_ticket_booking_app.Base.Rows.{has_key, find_by_key, find_holds}
use go_ticket_booking_app.Domain.{Event}
use go_ticket_booking_app.Domain.Errors.{Error, wrap, driver, connection_lost}
use go_ticket_booking_app.Base.Text.{bytes}
use go_ticket_booking_app.World.{Database, Env, World, Result, ok, err}
use go_ticket_booking_app.World.Logic.{After}
use go_ticket_booking_app.Cache.{Cache}
use go_ticket_booking_app.Postgres.EventRepo.{is_live, is_at_version, mark_deleted, overwrite}
use go_ticket_booking_app.Postgres.Integrity.{Integrity, event_id_of}
use go_ticket_booking_app.Postgres.Capacity.{capacity, sold}
use go_ticket_booking_app.Service.Booking.Cancel.{SameButLogs}
use go_ticket_booking_app.Service.Booking.History.{Call, perform, perform-Keeps, sold_within}
use go_ticket_booking_app.Service.Maintains.{
  Maintains, Keeps-Maintains, Maintains-trans, unchanged-Maintains, logged-Maintains,
  inserted-Maintains, updated-Maintains,
}
use go_ticket_booking_app.Service.Event.{
  CreateEventRequest, UpdateEventRequest, revised, create_event, update_event, delete_event,
  batch_create_events,
}
use go_ticket_booking_app.Service.Event.Create.{Added, new_row, create_event_atomic}
use go_ticket_booking_app.Service.Event.Update.{Saved, update_event_atomic, update_event_absent}
use go_ticket_booking_app.Service.Event.Delete.{Deleted, delete_event_atomic, delete_event_absent}
use go_ticket_booking_app.Service.Event.Batch.{
  AddedAll, Insertable, rows_of, drafts, stacked, batch_create_events_atomic,
}

-- A call of the booking service, or one of the event service.
pub data Action : Type 0 where
  booking : Call → Action
  creates : CreateEventRequest → ℕ → Action
  updates : ℕ → UpdateEventRequest → ℕ → Action
  deletes : ℕ → ℕ → Action
  creates_all : List CreateEventRequest → ℕ → Action

module _ {S : Type 0} (env : Env) (cache : Cache S) where
  unfoldable pub act : Action → World S → World S
  act (booking c) w = perform env cache c w
  act (creates req actor_id) w = (create_event env cache req actor_id w).1
  act (updates id req actor_id) w = (update_event env cache id req actor_id w).1
  act (deletes id actor_id) w = (delete_event env cache id actor_id w).1
  act (creates_all reqs actor_id) w = (batch_create_events env cache reqs actor_id w).1

  unfoldable pub act_all : List Action → World S → World S
  act_all [] w = w
  act_all (a ∷ acts) w = act_all acts (act a w)

  -- A call that succeeded as `P` says, or failed and changed nothing or all the same did `P`.
  outcome-Maintains :
      {A : Type 0} (d : Database) (P : A → Database → Type 0) (Q : Error → Database → Type 0)
      (r : Result A × World S)
      → Integrity env d
      → After (λ a w'. P a w'.db) (λ x w'. (w'.db ≡ d) ⊎ Q x w'.db) r
      → ((a : A) (d' : Database) → P a d' → Maintains env d d')
      → ((x : Error) (d' : Database) → Q x d' → Maintains env d d')
      → Maintains env d r.1.db
  outcome-Maintains d P Q (ok a, w) h k f g = f a w.db k
  outcome-Maintains d P Q (err x, w) h (inl same) f g = unchanged-Maintains env d h w.db same
  outcome-Maintains d P Q (err x, w) h (inr q) f g = g x w.db q

  absent-Maintains :
      {A : Type 0} (d : Database) (r : Result A × World S)
      → Integrity env d
      → After (λ _ _. ⊥) (λ _ w'. w'.db ≡ d) r
      → Maintains env d r.1.db
  absent-Maintains d (ok a, w) h k = absurd k
  absent-Maintains d (err x, w) h k = unchanged-Maintains env d h w.db k

  pub create_event-Maintains :
      (req : CreateEventRequest) (actor_id : ℕ) (w : World S)
      → Integrity env w.db
      → Maintains env w.db (create_event env cache req actor_id w).1.db
  create_event-Maintains req actor_id w h =
      let row : Event = new_row env cache req actor_id w.statements in
      outcome-Maintains w.db (λ e d. (e ≡ row) × Added env cache req actor_id w.db w.statements d)
        (λ x d.
          (x
            ≡ wrap (bytes "create event: ")
                (wrap (bytes "create event: ") (driver connection_lost)))
          × Added env cache req actor_id w.db w.statements d)
        (create_event env cache req actor_id w) h (create_event_atomic env cache req actor_id w)
        (λ _ d' (_, (same, _, fine, new)). inserted-Maintains env w.db h row d' fine new same)
        (λ _ d' (_, (same, _, fine, new)). inserted-Maintains env w.db h row d' fine new same)

  -- The row that an update rewrites is the one whose unsold tickets it has read.
  Saved-Maintains :
      (id : ℕ) (req : UpdateEventRequest) (actor_id : ℕ) (e : Event) (d : Database) (n : ℕ)
      (d' : Database)
      → Integrity env d
      → find (is_live id) d.events ≡ some e
      → Saved env cache id req actor_id e d n d'
      → Maintains env d d'
  unfolding revised
  Saved-Maintains id req actor_id e d n d' h found (valid, fine, same) =
      updated-Maintains env d h (is_at_version e.id req.version)
        (overwrite (env.now n) (revised e req)) d' (λ _. refl) kept fine same
    where
      kept :
          (k : ℕ) (x : Event)
          → find (has_key event_id_of k) d.events ≡ some x
          → is_at_version e.id req.version x ≡ true
          → e.remaining_tickets ≡ x.remaining_tickets
      kept k x at hit =
          let here : x.id ≡ k = (==_iff _ _).0 (find_holds (has_key event_id_of k) d.events x at) in
          let named : x.id ≡ e.id = (==_iff _ _).0 (ground arith) in
          let read : e.id ≡ id =
            (==_iff _ _).0 (ground (arith, find_holds (is_live id) d.events e found)) in
          let by_id : find (has_key event_id_of id) d.events ≡ some e =
            find_by_key event_id_of id (λ y. not (is_some y.deleted_at)) d.events e h.event_keys
              found in
          let both : some x ≡ some e =
            sym (
              subst (λ j. find (has_key event_id_of j) d.events ≡ some x)
                (sym here ∙ (named ∙ read)) at)
            ∙ by_id in
          ground arith

  update_event-Maintains :
      (id : ℕ) (req : UpdateEventRequest) (actor_id : ℕ) (w : World S)
      → Integrity env w.db
      → Maintains env w.db (update_event env cache id req actor_id w).1.db
  update_event-Maintains id req actor_id w h = elim (Option-cases (find (is_live id) w.db.events)) [
    | inl missing ↦
        absent-Maintains w.db _ h (update_event_absent env cache id req actor_id w missing)
    | inr (e, found) ↦
        outcome-Maintains w.db
          (λ row d.
            (e.version ≡ req.version)
            × (row ≡ overwrite (env.now (suc w.statements)) (revised e req) e)
            × Saved env cache id req actor_id e w.db (suc w.statements) d)
          (λ x d.
            (x ≡ wrap (bytes "update event: ") (driver connection_lost))
            × (e.version ≡ req.version)
            × Saved env cache id req actor_id e w.db (suc w.statements) d)
          (update_event env cache id req actor_id w) h
          (update_event_atomic env cache id req actor_id w e h found)
          (λ _ d' (_, _, saved).
            Saved-Maintains id req actor_id e w.db (suc w.statements) d' h found saved)
          (λ _ d' (_, _, saved).
            Saved-Maintains id req actor_id e w.db (suc w.statements) d' h found saved)
  ]

  delete_event-Maintains :
      (id actor_id : ℕ) (w : World S)
      → Integrity env w.db
      → Maintains env w.db (delete_event env cache id actor_id w).1.db
  delete_event-Maintains id actor_id w h = elim (Option-cases (find (is_live id) w.db.events)) [
    | inl missing ↦ absent-Maintains w.db _ h (delete_event_absent env cache id actor_id w missing)
    | inr (e, found) ↦
        outcome-Maintains w.db (λ _ d. Deleted env cache id actor_id w.db (suc w.statements) d)
          (λ x d.
            (x ≡ wrap (bytes "soft delete event: ") (driver connection_lost))
            × Deleted env cache id actor_id w.db (suc w.statements) d)
          (delete_event env cache id actor_id w) h
          (delete_event_atomic env cache id actor_id w e found) (λ _ d' gone. marked d' gone)
          (λ _ d' (_, gone). marked d' gone)
  ]
    where
      marked :
          (d' : Database)
          → Deleted env cache id actor_id w.db (suc w.statements) d'
          → Maintains env w.db d'
      marked d' (fine, same) =
          updated-Maintains env w.db h (is_live id) (mark_deleted (env.now (suc w.statements))) d'
            (λ _. refl) (λ _ _ _ _. refl) fine same

  -- The rows of a batch, one after the other.
  stacked-Maintains :
      (rows : List Event) (d d' : Database)
      → Integrity env d
      → Insertable env rows d.events
      → SameButLogs (record d { events = stacked rows d.events }) d'
      → Maintains env d d'
  stacked-Maintains [] d d' h fits same = logged-Maintains env d h d' same
  stacked-Maintains (row ∷ rows) d d' h (fine, new, fits) same =
      let next : Database = record d { events = row ∷ d.events } in
      let k : Maintains env d next =
        inserted-Maintains env d h row next fine new (refl, refl, refl) in
      Maintains-trans env d next d' k (stacked-Maintains rows next d' k.integrity fits same)

  pub batch_create_events-Maintains :
      (reqs : List CreateEventRequest) (actor_id : ℕ) (w : World S)
      → Integrity env w.db
      → Maintains env w.db (batch_create_events env cache reqs actor_id w).1.db
  batch_create_events-Maintains reqs actor_id w h =
      outcome-Maintains w.db
        (λ rows d.
          (rows ≡ rows_of env w.statements (drafts actor_id reqs))
          × AddedAll env cache reqs actor_id w.db w.statements d)
        (λ x d.
          (x
            ≡ wrap (bytes "batch create events: ")
                (wrap (bytes "batch create event row: ") (driver connection_lost)))
          × AddedAll env cache reqs actor_id w.db w.statements d)
        (batch_create_events env cache reqs actor_id w) h
        (batch_create_events_atomic env cache reqs actor_id w)
        (λ _ d' (_, (same, fits, _)).
          stacked-Maintains (rows_of env w.statements (drafts actor_id reqs)) w.db d' h fits same)
        (λ _ d' (_, (same, fits, _)).
          stacked-Maintains (rows_of env w.statements (drafts actor_id reqs)) w.db d' h fits same)

  pub act-Maintains :
      (a : Action) (w : World S) → Integrity env w.db → Maintains env w.db (act a w).db
  unfolding act
  act-Maintains (booking c) w h = Keeps-Maintains env w.db _ (perform-Keeps env cache c w h)
  act-Maintains (creates req actor_id) w h = create_event-Maintains req actor_id w h
  act-Maintains (updates id req actor_id) w h = update_event-Maintains id req actor_id w h
  act-Maintains (deletes id actor_id) w h = delete_event-Maintains id actor_id w h
  act-Maintains (creates_all reqs actor_id) w h = batch_create_events-Maintains reqs actor_id w h

  -- After any sequence of calls of both services, whatever fails, tables that met the constraints of
  -- the schema meet them, and every event that was there has its capacity (unsold tickets and
  -- tickets in active bookings).
  pub act_all-Maintains :
      (acts : List Action) (w : World S)
      → Integrity env w.db
      → Maintains env w.db (act_all acts w).db
  unfolding act_all
  act_all-Maintains [] w h = unchanged-Maintains env w.db h w.db refl
  act_all-Maintains (a ∷ acts) w h =
      let k = act-Maintains a w h in
      Maintains-trans env w.db (act a w).db (act_all acts (act a w)).db k
        (act_all-Maintains acts (act a w) k.integrity)

  -- No event is oversold: after any sequence of calls of both services, whatever fails, the tickets
  -- in active bookings of an event are no more than its unsold and booked tickets were at the start,
  -- where the tables met the constraints of the schema.
  pub no_oversell :
      (acts : List Action) (w : World S) (id : ℕ) (total : ℤ)
      → Integrity env w.db
      → capacity id w.db ≡ some total
      → sold id (act_all acts w).db.bookings ≤ℤ total
  no_oversell acts w id total h start =
      let k = act_all-Maintains acts w h in
      sold_within env (act_all acts w).db id total k.integrity (k.capacities id total start)
