-- ===== src/Postgres/AuditRepo.antt =====
-- internal/repository/postgres/audit_repo.go: the insertion of an audit record.
use go_ticket_booking_app.Base.{
  ℕ, Bool, true, not, Option, none, some, [], ◌∷◌, ◌==◌, if◌then◌else◌, find, is_some, ◌||◌, ◌&&◌,
}
use go_ticket_booking_app.Base.Text.{Text, text_eq}
use go_ticket_booking_app.Domain.{AuditLog}
use go_ticket_booking_app.Domain.AuditAction
use go_ticket_booking_app.Domain.Errors.{
  driver, invalid_text, foreign_key_violation, unique_violation,
}
use go_ticket_booking_app.World.{Database, Env, ok, err, M}
use go_ticket_booking_app.World.Calls.{Statement, pool_query, tx_query}

-- CREATE TYPE audit_action AS ENUM
abbrev pub is_audit_action : Text → Bool
is_audit_action s =
    text_eq s AuditAction.create
    || text_eq s AuditAction.update
    || text_eq s AuditAction.delete
    || text_eq s AuditAction.login

-- actor_id REFERENCES users(id), NULL allowed
abbrev pub actor_exists : Option ℕ → Database → Bool
actor_exists none d = true
actor_exists (some actor) d = is_some (find (λ u. u.id == actor) d.users)

module _ (env : Env) where
  -- An empty address or user agent is stored as NULL, any other must be of the column's type.
  abbrev pub audit_texts : AuditLog → Bool
  audit_texts a =
      env.is_text a.resource_type
      && env.varchar 50 a.resource_type
      && is_audit_action a.action
      && (text_eq a.ip_address [] || env.inet a.ip_address)
      && (text_eq a.user_agent [] || env.is_text a.user_agent)

  unfoldable pub insert_audit_log : AuditLog → Statement AuditLog
  insert_audit_log a t d =
      let row : AuditLog = record a { id = env.new_uuid t; created_at = env.now t } in
      if not (audit_texts a)
      then err (driver invalid_text)
      else (if is_some (find (λ x. x.id == row.id) d.audit_logs)
          then err (driver unique_violation)
          else (if not (actor_exists a.actor_id d)
              then err (driver foreign_key_violation)
              else ok (row, record d { audit_logs = row ∷ d.audit_logs })))

  module _ {S : Type 0} where
    -- AuditRepo.Log
    unfoldable pub log : AuditLog → M S AuditLog
    log a = pool_query env (insert_audit_log a)

    -- AuditRepo.LogInTx
    unfoldable pub log_in_tx : AuditLog → M S AuditLog
    log_in_tx a = tx_query env (insert_audit_log a)
