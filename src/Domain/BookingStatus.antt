-- ===== src/Domain/BookingStatus.antt =====
-- The booking_status values, internal/domain/booking.go.
use go_ticket_booking_app.Base.Text.{Text, bytes}

abbrev pub pending : Text
pending = bytes "pending"

abbrev pub confirmed : Text
confirmed = bytes "confirmed"

abbrev pub cancelled : Text
cancelled = bytes "cancelled"

abbrev pub refunded : Text
refunded = bytes "refunded"
