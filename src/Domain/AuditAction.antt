-- ===== src/Domain/AuditAction.antt =====
-- The audit actions, internal/domain/audit.go.
use go_ticket_booking_app.Base.Text.{Text, bytes}

abbrev pub create : Text
create = bytes "create"

abbrev pub update : Text
update = bytes "update"

abbrev pub delete : Text
delete = bytes "delete"

abbrev pub login : Text
login = bytes "login"
