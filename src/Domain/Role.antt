-- ===== src/Domain/Role.antt =====
-- The roles, internal/domain/user.go.
use go_ticket_booking_app.Base.Text.{Text, bytes}

abbrev pub admin : Text
admin = bytes "admin"

abbrev pub user : Text
user = bytes "user"
