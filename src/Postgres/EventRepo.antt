-- ===== src/Postgres/EventRepo.antt =====
-- internal/repository/postgres/event_repo.go: each statement over the tables, and the methods that
-- send it.
use mathlib.Core.Option
use go_ticket_booking_app.Base.{
  ℕ, ◌-◌, ◌%◌, Bool, not, ◌&&◌, Option, none, some, ◌∷◌, ◌==◌, if◌then◌else◌, length, find, filter,
  modify_where, is_some, List, [], map,
}
use go_ticket_booking_app.Base.Int.{ℤ, pos, ◌+ℤ◌, ◌-ℤ◌, eqb_ℤ}
use go_ticket_booking_app.Base.Text.{bytes}
use go_ticket_booking_app.Domain.{Event}
use go_ticket_booking_app.Domain.Errors.{
  Error, sentinel, driver, wrap, is, unique_violation, foreign_key_violation, event_not_found,
  version_conflict,
}
use go_ticket_booking_app.World.{Env, Result, ok, err, M, lift, pure, raise, ◌>>=◌, on_error}
use go_ticket_booking_app.World.Calls.{Statement, pool_query, tx_query, send_batch}
use go_ticket_booking_app.Postgres.Schema.{event_violation, parameter_violation, first_violation}

-- WHERE id=$1 AND deleted_at IS NULL
abbrev pub is_live : ℕ → Event → Bool
is_live id e = (e.id == id) && not (is_some e.deleted_at)

-- WHERE id=$1 AND version=$2 AND deleted_at IS NULL
abbrev pub is_at_version : ℕ → ℤ → Event → Bool
is_at_version id v e = (e.id == id) && (eqb_ℤ e.version v && not (is_some e.deleted_at))

unfoldable pub select_event : ℕ → Statement (Option Event)
select_event id t d = ok (find (is_live id) d.events, d)

-- SET remaining_tickets = remaining_tickets - $1, version = version + 1, updated_at = NOW()
abbrev pub take_tickets : ℕ → ℤ → Event → Event
take_tickets now n e = record e {
  remaining_tickets = e.remaining_tickets -ℤ n;
  version = e.version +ℤ pos 1;
  updated_at = now;
}

-- The TIMESTAMPTZ that pgx makes of a time.Time: the nanoseconds below a microsecond are cut off.
abbrev pub to_microseconds : ℕ → ℕ
to_microseconds t = t - t % 1000

-- The row that UPDATE events SET name=$1, … writes over `old`.
abbrev pub overwrite : ℕ → Event → Event → Event
overwrite now e old = record old {
  name = e.name;
  description = e.description;
  location = e.location;
  starts_at = to_microseconds e.starts_at;
  ends_at = to_microseconds e.ends_at;
  total_tickets = e.total_tickets;
  remaining_tickets = e.remaining_tickets;
  price_cents = e.price_cents;
  status = e.status;
  version = old.version +ℤ pos 1;
  updated_at = now;
}

abbrev pub mark_deleted : ℕ → Event → Event
mark_deleted now e = record e { deleted_at = some now; updated_at = now }

abbrev pub scan_event : Option Event → Result Event
scan_event none = err (sentinel event_not_found)
scan_event (some e) = ok e

-- The rows of a batch, read one by one.
abbrev pub scan_next : Result Event → Result (List Event) → Result (List Event)
scan_next (ok e) (ok es) = ok (e ∷ es)
scan_next (ok e) (err x) = err x
scan_next (err x) _ = err x

abbrev pub scan_events : List (Option Event) → Result (List Event)
scan_events [] = ok []
scan_events (row ∷ rows) = scan_next (scan_event row) (scan_events rows)

abbrev pub update_error : Error → Error
update_error e =
    if is event_not_found e then sentinel version_conflict else wrap (bytes "update event: ") e

module _ (env : Env) where
  -- The row that INSERT INTO events makes, with the defaults of the schema.
  abbrev pub new_event : ℕ → Event → Event
  new_event t e = record e {
    id = env.new_uuid t;
    starts_at = to_microseconds e.starts_at;
    ends_at = to_microseconds e.ends_at;
    version = pos 1;
    created_at = env.now t;
    updated_at = env.now t;
    deleted_at = none;
  }

  unfoldable pub insert_event : Event → Statement (Option Event)
  insert_event e t d =
      let row = new_event t e in
      elim (event_violation env row) [
        | some v ↦ err (driver v)
        | none ↦
            if is_some (find (λ x. x.id == row.id) d.events)
            then err (driver unique_violation)
            else (if not (is_some (find (λ u. u.id == row.created_by) d.users))
                then err (driver foreign_key_violation)
                else ok (some row, record d { events = row ∷ d.events }))
      ]

  -- An UPDATE of the rows that `p` selects, with the number of rows that it changed.
  unfoldable pub update_events : (Event → Bool) → (ℕ → Event → Event) → Statement ℕ
  update_events p f t d = elim (first_violation (event_violation env) p (f (env.now t)) d.events) [
    | some v ↦ err (driver v)
    | none ↦
        ok (
          length (filter p d.events),
          record d { events = modify_where p (f (env.now t)) d.events },
        )
  ]

  -- The same with RETURNING: the row that it changed.
  unfoldable pub update_events_returning :
      (Event → Bool) → (ℕ → Event → Event) → Statement (Option Event)
  update_events_returning p f t d =
      elim (first_violation (event_violation env) p (f (env.now t)) d.events) [
        | some v ↦ err (driver v)
        | none ↦ ok (
          Option.map (f (env.now t)) (find p d.events),
          record d { events = modify_where p (f (env.now t)) d.events },
        )
      ]

  -- UPDATE events SET name=$1, … WHERE id=$10 AND version=$11 AND deleted_at IS NULL RETURNING …
  unfoldable pub update_row : Event → Statement (Option Event)
  update_row e t d = elim (parameter_violation env e) [
    | some v ↦ err (driver v)
    | none ↦ update_events_returning (is_at_version e.id e.version) (λ now. overwrite now e) t d
  ]

  module _ {S : Type 0} where
    -- EventRepo.Create
    unfoldable pub create : Event → M S Event
    create e =
        on_error (wrap (bytes "create event: "))
          do row ← pool_query env (insert_event e); lift (scan_event row)

    -- EventRepo.GetByID
    unfoldable pub get_by_id : ℕ → M S Event
    get_by_id id =
        on_error (wrap (bytes "get event by id: "))
          do row ← pool_query env (select_event id); lift (scan_event row)

    -- EventRepo.GetByIDForUpdate
    unfoldable pub get_by_id_for_update : ℕ → M S Event
    get_by_id_for_update id =
        on_error (wrap (bytes "get event for update: "))
          do row ← tx_query env (select_event id); lift (scan_event row)

    -- EventRepo.Update
    unfoldable pub update : Event → M S Event
    update e = on_error update_error do row ← pool_query env (update_row e); lift (scan_event row)

    -- EventRepo.UpdateTicketsInTx
    unfoldable pub update_tickets_in_tx : ℕ → ℤ → ℤ → M S (Unit {0})
    update_tickets_in_tx id version decrement = do
      affected ← on_error (wrap (bytes "update tickets in tx: ")) (
          tx_query env
            (update_events (is_at_version id version) (λ now. take_tickets now decrement)))
      if affected == 0 then raise (sentinel version_conflict) else pure tt

    -- EventRepo.SoftDelete
    unfoldable pub soft_delete : ℕ → M S (Unit {0})
    soft_delete id = do
      affected ←
          on_error (wrap (bytes "soft delete event: "))
            (pool_query env (update_events (is_live id) mark_deleted))
      if affected == 0 then raise (sentinel event_not_found) else pure tt

    -- EventRepo.BatchCreate
    unfoldable pub batch_create : List Event → M S (List Event)
    batch_create es =
        on_error (wrap (bytes "batch create event row: "))
          do rows ← send_batch env (map (λ e. insert_event e) es); lift (scan_events rows)
