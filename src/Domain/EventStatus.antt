-- ===== src/Domain/EventStatus.antt =====
-- The event_status values, internal/domain/event.go.
use go_ticket_booking_app.Base.Text.{Text, bytes}

abbrev pub draft : Text
draft = bytes "draft"

abbrev pub published : Text
published = bytes "published"

abbrev pub cancelled : Text
cancelled = bytes "cancelled"

abbrev pub sold_out : Text
sold_out = bytes "sold_out"
