-- ===== src/Handler/Event.antt =====
-- internal/handler/event_handler.go.
use go_ticket_booking_app.Base.{
  ℕ, ◌⊎◌, inl, inr, not, Option, none, some, List, [], ◌∷◌, ◌++◌, ◌==◌, if◌then◌else◌,
}
use go_ticket_booking_app.Base.Int.{ℤ, pos}
use go_ticket_booking_app.Base.Text.{Text, bytes, text_eq}
use go_ticket_booking_app.Base.Decimal.{atoi}
use go_ticket_booking_app.Domain.{UserClaims}
use go_ticket_booking_app.Domain.Errors.{Error, Failure, is, event_not_found, version_conflict}
use go_ticket_booking_app.World.{Env, World, Result, ok, err}
use go_ticket_booking_app.Cache.{Cache}
use go_ticket_booking_app.Postgres.EventRepo
use go_ticket_booking_app.Postgres.Queries
use go_ticket_booking_app.Postgres.Queries.{Sorter, EventFilter}
use go_ticket_booking_app.Service.Event.{
  CreateEventRequest, UpdateEventRequest, create_event, update_event, delete_event,
  batch_create_events,
}
use go_ticket_booking_app.Handler.Answers.{
  Response, render, render_error, error_text, respond, unauthorized, invalid_body, event_body,
  events_body, no_body,
}

-- parseIntQuery, of the text of the query parameter, empty when it is missing.
abbrev pub parse_int_query : Text → ℤ → ℤ
parse_int_query v fallback =
    if text_eq v [] then fallback else elim (atoi v) [ none ↦ fallback | some n ↦ n ]

-- The filter of List, of the texts of its query parameters.
abbrev pub event_filter : (status limit offset : Text) → EventFilter
event_filter status limit offset = record {
  status = if text_eq status [] then none else some status;
  limit = parse_int_query limit (pos 20);
  offset = parse_int_query offset (pos 0);
}

-- The path parameter of Update: missing, not a UUID, or a UUID.
pub data PathId : Type 0 where
  missing malformed : PathId
  uuid : ℕ → PathId

-- The id that Update acts on: that of the path, else that of the body, where uuid.Nil is 0.
abbrev pub update_id : PathId → UpdateEventRequest → Response ⊎ ℕ
update_id malformed req = inl (render_error 400 (bytes "invalid UUID in URL path"))
update_id (uuid id) req = inr id
update_id missing req =
    if not (req.id == 0)
    then inr req.id
    else inl (
        render_error 400 (
          bytes
            "event id is required: provide it in the URL path (/events/{id}) or as 'id' in the request body"))

module _ (show : Failure → Text) where
  -- The switches of GetByID, Update and Delete.
  abbrev pub get_error_response : Error → Response
  get_error_response e =
      if is event_not_found e
      then render_error 404 (bytes "event not found")
      else render_error 500 (bytes "could not fetch event")

  unfoldable pub update_error_response : Error → Response
  update_error_response e =
      if is event_not_found e
      then render_error 404 (bytes "event not found")
      else (if is version_conflict e
          then render_error 409
              (bytes "version conflict " ++ (226 ∷ 128 ∷ 148 ∷ bytes " reload and retry"))
          else render_error 400 (error_text show e))

  unfoldable pub delete_error_response : Error → Response
  delete_error_response e =
      if is event_not_found e
      then render_error 404 (bytes "event not found")
      else render_error 500 (bytes "could not delete event")

  module _ {S : Type 0} (env : Env) (cache : Cache S) where
    -- EventHandler.List, with the texts of the query parameters
    unfoldable pub list : Sorter → (status limit offset : Text) → World S → Response × World S
    list sorter status limit offset w =
        respond (λ es. render 200 (events_body es))
          (λ _. render_error 500 (bytes "could not list events"))
          (Queries.list sorter env (event_filter status limit offset) w)

    -- EventHandler.GetByID
    unfoldable pub get_by_id : Option ℕ → World S → Response × World S
    get_by_id none w = (render_error 400 (bytes "invalid UUID"), w)
    get_by_id (some id) w =
        respond (λ e. render 200 (event_body e)) get_error_response (EventRepo.get_by_id env id w)

    -- EventHandler.Create
    unfoldable pub create :
        Option UserClaims → Result CreateEventRequest → World S → Response × World S
    create none body w = (unauthorized, w)
    create (some claims) (err e) w = (invalid_body show e, w)
    create (some claims) (ok req) w =
        respond (λ e. render 201 (event_body e)) (λ e. render_error 400 (error_text show e))
          (create_event env cache req claims.user_id w)

    -- Update of the resolved id.
    abbrev pub update_resolved :
        UserClaims → UpdateEventRequest → Response ⊎ ℕ → World S → Response × World S
    update_resolved claims req (inl answer) w = (answer, w)
    update_resolved claims req (inr id) w =
        respond (λ e. render 200 (event_body e)) update_error_response
          (update_event env cache id req claims.user_id w)

    -- EventHandler.Update
    unfoldable pub update :
        PathId → Option UserClaims → Result UpdateEventRequest → World S → Response × World S
    update path none body w = (unauthorized, w)
    update path (some claims) (err e) w = (invalid_body show e, w)
    update path (some claims) (ok req) w = update_resolved claims req (update_id path req) w

    -- EventHandler.Delete
    unfoldable pub delete : Option ℕ → Option UserClaims → World S → Response × World S
    delete none claims w = (render_error 400 (bytes "invalid UUID"), w)
    delete (some id) none w = (unauthorized, w)
    delete (some id) (some claims) w =
        respond (λ _. render 204 no_body) delete_error_response
          (delete_event env cache id claims.user_id w)

    -- EventHandler.BatchCreate
    unfoldable pub batch_create :
        Option UserClaims → Result (List CreateEventRequest) → World S → Response × World S
    batch_create none body w = (unauthorized, w)
    batch_create (some claims) (err e) w = (invalid_body show e, w)
    batch_create (some claims) (ok reqs) w =
        respond (λ es. render 201 (events_body es)) (λ e. render_error 400 (error_text show e))
          (batch_create_events env cache reqs claims.user_id w)
