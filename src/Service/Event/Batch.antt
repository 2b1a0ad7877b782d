-- ===== src/Service/Event/Batch.antt =====
-- EventService.BatchCreate as one step: all the events or none.
use mathlib.Core.Path.{subst}
use go_ticket_booking_app.Base.{
  find, ◌==◌, ℕ, ◌≡◌, refl, sym, ◌∙◌, ap, ◌⊎◌, inl, inr, none, some, Option, List, [], ◌∷◌, arith,
  ◌==◌, suc, length, ltb, Bool-cases, All, map,
}
use go_ticket_booking_app.Base.Text.{bytes}
use go_ticket_booking_app.Domain.{Event}
use go_ticket_booking_app.Domain.Errors.{Error, wrap, driver, connection_lost}
use go_ticket_booking_app.World.{
  Database, Env, World, Result, ok, err, lift, on_error, pure, ◌>>=◌, ◌>>◌,
}
use go_ticket_booking_app.World.Calls.{run_batch, send_batch}
use go_ticket_booking_app.World.Logic.{After, bind-After}
use go_ticket_booking_app.Cache.{Cache}
use go_ticket_booking_app.Postgres.Schema.{event_violation}
use go_ticket_booking_app.Postgres.EventRepo
use go_ticket_booking_app.Postgres.EventRepo.{new_event, insert_event, scan_events}
use go_ticket_booking_app.Postgres.AuditRepo
use go_ticket_booking_app.Postgres.AuditRepo.{insert_audit_log}
use go_ticket_booking_app.Service.Booking.Cancel.{SameButLogs, log-After}
use go_ticket_booking_app.Service.Event.{
  CreateEventRequest, validate_create_event, drafted, draft_first, draft_each, event_created_log,
  log_each, insert_each, create_each, batch_create_events,
}

-- The rows that a batch inserts from statement t on, in the order of the requests, and the table
-- with them on top.
abbrev pub rows_of : Env → ℕ → List Event → List Event
rows_of env t [] = []
rows_of env t (e ∷ es) = new_event env t e ∷ rows_of env (suc t) es

abbrev pub stacked : List Event → List Event → List Event
stacked [] table = table
stacked (row ∷ rows) table = stacked rows (row ∷ table)

-- Each row, when it was inserted, met its constraints and had an id of its own.
abbrev pub Insertable : Env → List Event → List Event → Type 0
Insertable env [] table = Unit
Insertable env (row ∷ rows) table =
    (event_violation env row ≡ none)
    × (find (λ x. x.id == row.id) table ≡ none)
    × Insertable env rows (row ∷ table)

-- The events of the requests.
abbrev pub drafts : ℕ → List CreateEventRequest → List Event
drafts actor_id [] = []
drafts actor_id (req ∷ reqs) = drafted req actor_id ∷ drafts actor_id reqs

-- A batch of insertions that succeeds has put every row on the table.
abbrev Inserts : Env → ℕ → List Event → Database → Result (List (Option Event) × Database) → Type 0
Inserts env t es d (err _) = Unit
Inserts env t es d (ok (rows, d')) =
    (scan_events rows ≡ ok (rows_of env t es))
    × (d' ≡ record d { events = stacked (rows_of env t es) d.events })
    × Insertable env (rows_of env t es) d.events

run_batch-Inserts :
    (env : Env) (t : ℕ) (es : List Event) (d : Database)
    → Inserts env t es d (run_batch (map (λ e. insert_event env e) es) t d)
unfolding run_batch insert_event
run_batch-Inserts env t [] d = ground arith
run_batch-Inserts env t (e ∷ es) d =
    ground
      (arith, run_batch-Inserts env (suc t) es (record d { events = new_event env t e ∷ d.events }))

draft_first-ok :
    (i : ℕ) (o : Option Error) (e : Event) (rest : Result (List Event)) (es : List Event)
    → draft_first i o e rest ≡ ok es
    → (o ≡ none) × (tail : List Event) × (rest ≡ ok tail) × (es ≡ e ∷ tail)
draft_first-ok i (some x) e rest es h = cc
draft_first-ok i none e (err x) es h = cc
draft_first-ok i none e (ok tail) es h = (refl, tail, refl, ground arith)

-- The requests are accepted all or not at all.
draft_each-valid :
    (actor_id i : ℕ) (reqs : List CreateEventRequest) (es : List Event)
    → draft_each actor_id i reqs ≡ ok es
    → (es ≡ drafts actor_id reqs) × All (λ req. validate_create_event req ≡ none) reqs
unfolding draft_each
draft_each-valid actor_id i [] es h = ground arith
draft_each-valid actor_id i (req ∷ reqs) es h =
    let (fine, tail, rest, cons) = draft_first-ok i _ _ _ es h in
    let (same, all_fine) = draft_each-valid actor_id (suc i) reqs tail rest in
    (cons ∙ ap (λ t. drafted req actor_id ∷ t) same, (fine, all_fine))

module _ {S : Type 0} (env : Env) (cache : Cache S) where
  log_each-SameButLogs :
      (actor_id : ℕ) (es : List Event) (w : World S)
      → SameButLogs w.db (log_each env cache actor_id es w).1.db
  unfolding log_each
  log_each-SameButLogs actor_id [] w = (refl, refl, refl)
  log_each-SameButLogs actor_id (e ∷ es) w =
      let v : World S = (AuditRepo.log env (event_created_log env cache actor_id e) w).1 in
      let (u, ev, b) = log_each-SameButLogs actor_id es v in
      let (u', ev', b') = log-After env (event_created_log env cache actor_id e) w in
      (u ∙ u', ev ∙ ev', b ∙ b')

  batch_create-After :
      (es : List Event) (w : World S)
      → After
          (λ rows w'.
            (rows ≡ rows_of env w.statements es)
            × Insertable env (rows_of env w.statements es) w.db.events
            × (w'.db ≡ record w.db { events = stacked (rows_of env w.statements es) w.db.events }))
          (λ x w'.
            (w'.db ≡ w.db)
            ⊎ (Insertable env (rows_of env w.statements es) w.db.events
                × (x ≡ wrap (bytes "batch create event row: ") (driver connection_lost))
                × (w'.db
                    ≡ record w.db { events = stacked (rows_of env w.statements es) w.db.events })))
          (EventRepo.batch_create env es w)
  unfolding EventRepo.batch_create send_batch
  batch_create-After es w = ground (arith, run_batch-Inserts env w.statements es w.db)

  -- All the rows of the requests are in the table, each of a valid request.
  abbrev pub AddedAll : List CreateEventRequest → ℕ → Database → ℕ → Database → Type 0
  AddedAll reqs actor_id start n d =
      SameButLogs
        (record start { events = stacked (rows_of env n (drafts actor_id reqs)) start.events }) d
      × Insertable env (rows_of env n (drafts actor_id reqs)) start.events
      × All (λ req. validate_create_event req ≡ none) reqs

  module _ (reqs : List CreateEventRequest) (actor_id : ℕ) (w : World S) where
    abbrev Done : List Event → World S → Type 0
    Done rows w' =
        (rows ≡ rows_of env w.statements (drafts actor_id reqs))
        × AddedAll reqs actor_id w.db w.statements w'.db

    abbrev Failed : Error → World S → Type 0
    Failed x w' =
        (w'.db ≡ w.db)
        ⊎ ((x
              ≡ wrap (bytes "batch create events: ")
                  (wrap (bytes "batch create event row: ") (driver connection_lost)))
            × AddedAll reqs actor_id w.db w.statements w'.db)

    log_each-ok : (es : List Event) (v : World S) → (log_each env cache actor_id es v).0 ≡ ok tt
    unfolding log_each
    log_each-ok [] v = refl
    log_each-ok (e ∷ es) v =
        log_each-ok es (AuditRepo.log env (event_created_log env cache actor_id e) v).1

    insert_each-Done :
        All (λ req. validate_create_event req ≡ none) reqs
        → After Done Failed (insert_each env cache actor_id (drafts actor_id reqs) w)
    unfolding insert_each
    insert_each-Done valid =
        bind-After Inserted Done Failed
          (on_error (wrap (bytes "batch create events: "))
            (EventRepo.batch_create env (drafts actor_id reqs)))
          (λ created. log_each env cache actor_id created >> pure created) w
          (ground (arith, batch_create-After (drafts actor_id reqs) w))
          λ created v (same, ins, d).
            let (u, ev, b) = log_each-SameButLogs actor_id created v in
            ground (arith, log_each-ok created v)
      where
        Inserted : List Event → World S → Type 0
        Inserted created v =
            (created ≡ rows_of env w.statements (drafts actor_id reqs))
            × Insertable env (rows_of env w.statements (drafts actor_id reqs)) w.db.events
            × (v.db ≡ record w.db {
              events = stacked (rows_of env w.statements (drafts actor_id reqs)) w.db.events;
            })

    create_each-Done : After Done Failed (create_each env cache reqs actor_id w)
    unfolding create_each
    create_each-Done = from (draft_each actor_id 0 reqs) refl
      where
        from :
            (r : Result (List Event))
            → draft_each actor_id 0 reqs ≡ r
            → After Done Failed ((lift r >>= insert_each env cache actor_id) w)
        from (err x) e = inl refl
        from (ok es) e =
            let (same, valid) = draft_each-valid actor_id 0 reqs es e in
            subst (λ l. After Done Failed (insert_each env cache actor_id l w)) (sym same)
              (insert_each-Done valid)

  -- A batch that returns has inserted the row of every request, in order, and all of them were valid;
  -- a batch that fails has changed no table, except that the reply to the insertions may have been
  -- lost, and then all of them are made.
  pub batch_create_events_atomic :
      (reqs : List CreateEventRequest) (actor_id : ℕ) (w : World S)
      → After
          (λ rows w'.
            (rows ≡ rows_of env w.statements (drafts actor_id reqs))
            × AddedAll reqs actor_id w.db w.statements w'.db)
          (λ x w'.
            (w'.db ≡ w.db)
            ⊎ ((x
                  ≡ wrap
                      (bytes "batch create events: ")
                      (wrap (bytes "batch create event row: ") (driver connection_lost)))
                × AddedAll reqs actor_id w.db w.statements w'.db))
          (batch_create_events env cache reqs actor_id w)
  unfolding batch_create_events
  batch_create_events_atomic reqs actor_id w = elim (Bool-cases (length reqs == 0)) [
    | inl empty ↦ rw empty (inl refl)
    | inr some_there ↦ rw some_there (elim (Bool-cases (ltb 50 (length reqs))) [
      | inl many ↦ rw many (inl refl)
      | inr few ↦ rw few (create_each-Done reqs actor_id w)
    ])
  ]
