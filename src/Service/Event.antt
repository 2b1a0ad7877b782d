-- ===== src/Service/Event.antt =====
-- internal/service/event_service.go.
pub mod Validation
mod Read
pub mod Create
pub mod Update
pub mod Delete
pub mod Batch
mod Tests
use go_ticket_booking_app.Base.{
  ℕ, suc, ◌+◌, ◌-◌, ◌==◌, Option, none, some, List, [], ◌∷◌, ◌++◌, if◌then◌else◌, ltb, leb, not,
  length,
}
use go_ticket_booking_app.Base.Int.{ℤ, pos, leb_ℤ, ltb_ℤ}
use go_ticket_booking_app.Base.Text.{Text, bytes, text_eq}
use go_ticket_booking_app.Domain.{Event, AuditLog}
use go_ticket_booking_app.Domain.EventStatus
use go_ticket_booking_app.Domain.AuditAction
use go_ticket_booking_app.Domain.Errors.{Error, message, wrap}
use go_ticket_booking_app.World.{
  Env, World, Result, ok, err, M, pure, raise, lift, ◌>>=◌, ◌>>◌, on_error, ignored, on_cache,
}
use go_ticket_booking_app.Cache.{Cache}
use go_ticket_booking_app.Postgres.EventRepo
use go_ticket_booking_app.Postgres.AuditRepo
use go_ticket_booking_app.Service.Audit.{event_to_map, compute_diff}

pub record CreateEventRequest : Type 0 where
  pub name : Text
  pub description : Text
  pub location : Text
  pub starts_at : ℕ
  pub ends_at : ℕ
  pub total_tickets : ℤ
  pub price_cents : ℤ
  pub status : Text

pub record UpdateEventRequest : Type 0 where
  pub id : ℕ
  pub name : Text
  pub description : Text
  pub location : Text
  pub starts_at : ℕ
  pub ends_at : ℕ
  pub total_tickets : ℤ
  pub price_cents : ℤ
  pub status : Text
  pub version : ℤ

-- validateCreateEvent, where a nil error is `none`.
unfoldable pub validate_create_event : CreateEventRequest → Option Error
validate_create_event req =
    if ltb (length req.name) 3
    then some (message (bytes "event name must be at least 3 characters"))
    else (if text_eq req.location []
        then some (message (bytes "location is required"))
        else (if leb_ℤ req.total_tickets (pos 0)
            then some (message (bytes "total_tickets must be positive"))
            else (if ltb_ℤ req.price_cents (pos 0)
                then some (message (bytes "price_cents cannot be negative"))
                else (if not (ltb req.starts_at req.ends_at)
                    then some (message (bytes "ends_at must be after starts_at"))
                    else none))))

-- validateUpdateEvent
unfoldable pub validate_update_event : UpdateEventRequest → Option Error
validate_update_event req =
    if leb_ℤ req.version (pos 0)
    then some (message (bytes "version is required for update (optimistic lock)"))
    else validate_create_event record {
      name = req.name;
      description = [];
      location = req.location;
      starts_at = req.starts_at;
      ends_at = req.ends_at;
      total_tickets = req.total_tickets;
      price_cents = req.price_cents;
      status = [];
    }

-- `if err := validate(req); err != nil { return nil, err }`
abbrev pub require_none : {S : Type 0} → Option Error → M S (Unit {0})
require_none none = pure tt
require_none (some e) = raise e

-- The status of a new event.
abbrev pub status_or_draft : Text → Text
status_or_draft s = if text_eq s [] then EventStatus.draft else s

-- The domain.Event{…} that Create and BatchCreate insert.
unfoldable pub drafted : CreateEventRequest → ℕ → Event
drafted req actor_id = record {
  id = 0;
  name = req.name;
  description = req.description;
  location = req.location;
  starts_at = req.starts_at;
  ends_at = req.ends_at;
  total_tickets = req.total_tickets;
  remaining_tickets = req.total_tickets;
  price_cents = req.price_cents;
  status = status_or_draft req.status;
  created_by = actor_id;
  version = pos 0;
  created_at = 0;
  updated_at = 0;
  deleted_at = none;
}

-- The copy of the event that Update sends.
unfoldable pub revised : Event → UpdateEventRequest → Event
revised old req = record old {
  name = req.name;
  description = req.description;
  location = req.location;
  starts_at = req.starts_at;
  ends_at = req.ends_at;
  total_tickets = req.total_tickets;
  price_cents = req.price_cents;
  status = req.status;
  version = req.version;
}

-- strconv.Itoa of an index below 50, in %d
abbrev pub index_text : ℕ → Text
index_text i =
    if ltb i 10
    then (b'0' + i) ∷ []
    else (if ltb i 20
        then b'1' ∷ (b'0' + (i - 10)) ∷ []
        else (if ltb i 30
            then b'2' ∷ (b'0' + (i - 20)) ∷ []
            else (if ltb i 40
                then b'3' ∷ (b'0' + (i - 30)) ∷ []
                else b'4' ∷ (b'0' + (i - 40)) ∷ [])))

-- The loop of BatchCreate that validates the requests and builds the events.
abbrev pub draft_first : ℕ → Option Error → Event → Result (List Event) → Result (List Event)
draft_first i (some x) e rest = err (wrap (bytes "event[" ++ (index_text i ++ bytes "]: ")) x)
draft_first i none e (ok es) = ok (e ∷ es)
draft_first i none e (err x) = err x

unfoldable pub draft_each : ℕ → ℕ → List CreateEventRequest → Result (List Event)
draft_each actor_id i [] = ok []
draft_each actor_id i (req ∷ reqs) =
    draft_first i (validate_create_event req) (drafted req actor_id)
      (draft_each actor_id (suc i) reqs)

module _ {S : Type 0} (env : Env) (cache : Cache S) where
  abbrev pub event_log : ℕ → ℕ → Text → AuditLog
  event_log actor_id event_id action = record {
    id = 0;
    actor_id = some actor_id;
    resource_type = bytes "event";
    resource_id = event_id;
    action = action;
    old_state = none;
    new_state = none;
    diff = none;
    ip_address = [];
    user_agent = [];
    created_at = 0;
  }

  abbrev pub event_created_log : ℕ → Event → AuditLog
  event_created_log actor_id e = record (event_log actor_id e.id AuditAction.create) {
    new_state = some (event_to_map env e);
  }

  -- EventService.Create
  unfoldable pub create_event : CreateEventRequest → ℕ → M S Event
  create_event req actor_id = do
    require_none (validate_create_event req)
    event ← on_error (wrap (bytes "create event: ")) (EventRepo.create env (drafted req actor_id))
    ignored (AuditRepo.log env (event_created_log actor_id event))
    pure event

  abbrev pub event_updated_log : ℕ → ℕ → Event → Event → AuditLog
  event_updated_log actor_id id old new =
      let old_map = event_to_map env old in
      let new_map = event_to_map env new in
      record (event_log actor_id id AuditAction.update) {
        old_state = some old_map;
        new_state = some new_map;
        diff = some (compute_diff env.value_text old_map new_map);
      }

  abbrev invalidate : ℕ → M S (Unit {0})
  invalidate id = on_cache (λ s. (ok tt, cache.invalidate_event id s))

  -- Update once it has read the event.
  unfoldable pub save_event : ℕ → UpdateEventRequest → ℕ → Event → M S Event
  save_event id req actor_id old = do
    require_none (validate_update_event req)
    updated ← EventRepo.update env (revised old req)
    invalidate id
    ignored (AuditRepo.log env (event_updated_log actor_id id old updated))
    pure updated

  -- EventService.Update
  unfoldable pub update_event : ℕ → UpdateEventRequest → ℕ → M S Event
  update_event id req actor_id = do old ← EventRepo.get_by_id env id; save_event id req actor_id old

  -- Delete once it has read the event.
  unfoldable pub remove_event : ℕ → ℕ → Event → M S (Unit {0})
  remove_event id actor_id old = do
    EventRepo.soft_delete env id
    invalidate id
    ignored (
        AuditRepo.log env (record (event_log actor_id id AuditAction.delete) {
          old_state = some (event_to_map env old);
        }))

  -- EventService.Delete
  unfoldable pub delete_event : ℕ → ℕ → M S (Unit {0})
  delete_event id actor_id = do old ← EventRepo.get_by_id env id; remove_event id actor_id old

  -- The loop of BatchCreate that records the events.
  unfoldable pub log_each : ℕ → List Event → M S (Unit {0})
  log_each actor_id [] = pure tt
  log_each actor_id (e ∷ es) = do
    ignored (AuditRepo.log env (event_created_log actor_id e))
    log_each actor_id es

  -- BatchCreate once the events are built.
  unfoldable pub insert_each : ℕ → List Event → M S (List Event)
  insert_each actor_id events = do
    created ← on_error (wrap (bytes "batch create events: ")) (EventRepo.batch_create env events)
    log_each actor_id created
    pure created

  -- BatchCreate past the tests of the size.
  unfoldable pub create_each : List CreateEventRequest → ℕ → M S (List Event)
  create_each reqs actor_id = do
    events ← lift (draft_each actor_id 0 reqs)
    insert_each actor_id events

  -- EventService.BatchCreate
  unfoldable pub batch_create_events : List CreateEventRequest → ℕ → M S (List Event)
  batch_create_events reqs actor_id =
      if length reqs == 0
      then raise (message (bytes "no events provided"))
      else (if ltb 50 (length reqs)
          then raise (message (bytes "batch size exceeds maximum of 50"))
          else create_each reqs actor_id)
