-- ===== src/Concurrent/Insertion.antt =====
-- Create and BatchCreate among other calls: each is one statement, or one batch in one transaction.
use go_ticket_booking_app.Base.{ℕ, ◌≡◌, ◌⊎◌, inl, inr, List, [], ◌∷◌}
use go_ticket_booking_app.Base.Text.{bytes}
use go_ticket_booking_app.Domain.{Event}
use go_ticket_booking_app.Domain.Errors.{Error, wrap, driver, connection_lost}
use go_ticket_booking_app.World.{Database, Env, World, Result, ok, err}
use go_ticket_booking_app.World.Logic.{After}
use go_ticket_booking_app.Cache.{Cache}
use go_ticket_booking_app.Postgres.Integrity.{Integrity}
use go_ticket_booking_app.Service.Booking.Cancel.{SameButLogs}
use go_ticket_booking_app.Service.Maintains.{Maintains}
use go_ticket_booking_app.Service.History.{create_event-Maintains, batch_create_events-Maintains}
use go_ticket_booking_app.Service.Event.{CreateEventRequest, create_event, batch_create_events}
use go_ticket_booking_app.Service.Event.Create.{Added, new_row, create_event_atomic}
use go_ticket_booking_app.Service.Event.Batch.{
  AddedAll, Insertable, rows_of, drafts, stacked, batch_create_events_atomic,
}
use go_ticket_booking_app.Concurrent.{creates, creates_all, over, an_event, all_events, Server}
use go_ticket_booking_app.Concurrent.Steps.{step_event}
use go_ticket_booking_app.Concurrent.Stepping.{
  Changed, Stepped, same-Changed, on_pool-Stepped, Maintains-NoMore,
}
use go_ticket_booking_app.Concurrent.Rewrite.{stacked-RowsKept}
use go_ticket_booking_app.Concurrent.EventStep.{any_end}

module _ {S : Type 0} (env : Env) (cache : Cache S) (i : ℕ) (s : Server S)
    (h : Integrity env s.world.db) where
  -- A call that has put rows on the table, or changed nothing.
  inserting-Changed :
      {A : Type 0} (r : Result A × World S) (rows : List Event) (P : A → Database → Type 0)
      (Q : Error → Database → Type 0)
      → Maintains env s.world.db r.1.db
      → After (λ a w'. P a w'.db) (λ x w'. (w'.db ≡ s.world.db) ⊎ Q x w'.db) r
      → ((a : A) (d' : Database)
          → P a d'
          → Insertable env rows s.world.db.events
            × SameButLogs (record s.world.db { events = stacked rows s.world.db.events }) d')
      → ((x : Error) (d' : Database)
          → Q x d'
          → Insertable env rows s.world.db.events
            × SameButLogs (record s.world.db { events = stacked rows s.world.db.events }) d')
      → Changed env i s r.1.db
  inserting-Changed (ok a, w) rows P Q m p f g =
      let (fits, same) = f a w.db p in
      record {
        tables = Maintains-NoMore env s.world.db w.db m;
        rows = λ j _.
            stacked-RowsKept env j s.event_locks s.booking_locks rows s.world.db w.db fits same;
      }
  inserting-Changed (err x, w) rows P Q m (inl same) f g = same-Changed env i s h w.db same
  inserting-Changed (err x, w) rows P Q m (inr q) f g =
      let (fits, same) = g x w.db q in
      record {
        tables = Maintains-NoMore env s.world.db w.db m;
        rows = λ j _.
            stacked-RowsKept env j s.event_locks s.booking_locks rows s.world.db w.db fits same;
      }

  pub creates-Stepped :
      (req : CreateEventRequest) (actor_id : ℕ)
      → Stepped env i s (step_event env cache i (creates req actor_id) s)
  unfolding step_event
  creates-Stepped req actor_id =
      let row : Event = new_row env cache req actor_id s.world.statements in
      on_pool-Stepped env i s (λ _ _. Unit {0}) (λ _ _. Unit {0})
        (create_event env cache req actor_id s.world) (λ e. over (ok (an_event e)))
        (inserting-Changed (create_event env cache req actor_id s.world) (row ∷ [])
          (λ e d. (e ≡ row) × Added env cache req actor_id s.world.db s.world.statements d)
          (λ x d.
            (x
              ≡ wrap (bytes "create event: ")
                  (wrap (bytes "create event: ") (driver connection_lost)))
            × Added env cache req actor_id s.world.db s.world.statements d)
          (create_event-Maintains env cache req actor_id s.world h)
          (create_event_atomic env cache req actor_id s.world)
          (λ _ _ (_, (same, _, fine, new)). ((fine, new, tt), same))
          (λ _ _ (_, (same, _, fine, new)). ((fine, new, tt), same)))
        (any_end _) (λ _ _ _. tt)

  pub creates_all-Stepped :
      (reqs : List CreateEventRequest) (actor_id : ℕ)
      → Stepped env i s (step_event env cache i (creates_all reqs actor_id) s)
  unfolding step_event
  creates_all-Stepped reqs actor_id =
      let rows : List Event = rows_of env s.world.statements (drafts actor_id reqs) in
      on_pool-Stepped env i s (λ _ _. Unit {0}) (λ _ _. Unit {0})
        (batch_create_events env cache reqs actor_id s.world) (λ es. over (ok (all_events es)))
        (inserting-Changed (batch_create_events env cache reqs actor_id s.world) rows
          (λ es d. (es ≡ rows) × AddedAll env cache reqs actor_id s.world.db s.world.statements d)
          (λ x d.
            (x
              ≡ wrap (bytes "batch create events: ")
                  (wrap (bytes "batch create event row: ") (driver connection_lost)))
            × AddedAll env cache reqs actor_id s.world.db s.world.statements d)
          (batch_create_events-Maintains env cache reqs actor_id s.world h)
          (batch_create_events_atomic env cache reqs actor_id s.world)
          (λ _ _ (_, (same, fits, _)). (fits, same)) (λ _ _ (_, (same, fits, _)). (fits, same)))
        (any_end _) (λ _ _ _. tt)
