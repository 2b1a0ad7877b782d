-- ===== src/Handler/Audit.antt =====
-- internal/handler/audit_handler.go, and the GetHistory of internal/service/audit_service.go.
use go_ticket_booking_app.Base.{ℕ, Option, none, some, List}
use go_ticket_booking_app.Base.Text.{Text, bytes}
use go_ticket_booking_app.Domain.{AuditLog}
use go_ticket_booking_app.Domain.Errors.{wrap}
use go_ticket_booking_app.World.{Env, World, M, on_error}
use go_ticket_booking_app.Postgres.Queries
use go_ticket_booking_app.Postgres.Queries.{Sorter, Columns}
use go_ticket_booking_app.Handler.Answers.{Response, render, render_error, respond, logs_body}

module _ {S : Type 0} (sorter : Sorter) (env : Env) (columns : Columns) where
  -- AuditService.GetHistory
  abbrev pub audit_history : Text → ℕ → M S (List AuditLog)
  audit_history resource_type id =
      on_error (wrap (bytes "get history: "))
        (Queries.get_history sorter env columns resource_type id)

  -- AuditHandler.GetHistory: the resource type and, where it is a UUID, the id of the path.
  unfoldable pub get_history : Text → Option ℕ → World S → Response × World S
  get_history resource_type none w = (render_error 400 (bytes "invalid resource_id UUID"), w)
  get_history resource_type (some id) w =
      respond (λ logs. render 200 (logs_body logs))
        (λ _. render_error 500 (bytes "could not fetch audit logs"))
        (audit_history resource_type id w)
