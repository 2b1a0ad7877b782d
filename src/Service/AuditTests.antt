-- ===== src/Service/AuditTests.antt =====
-- The audit service on two states of a booking.
use go_ticket_booking_app.Base.{◌≡◌, refl, some, [], ◌∷◌}
use go_ticket_booking_app.Base.Int.{pos}
use go_ticket_booking_app.Base.Text.{Text, bytes}
use go_ticket_booking_app.Domain.{Value, StateMap, text, number}
use go_ticket_booking_app.Service.Audit.{get, compute_diff}
use go_ticket_booking_app.Service.AuditDiff.{entry, compute_diff_exact}

abbrev show : Value → Text
show (text t) = t
show (number _) = bytes "n"

abbrev before : StateMap
before = (bytes "status", text (bytes "confirmed")) ∷ (bytes "version", number (pos 1)) ∷ []

abbrev after : StateMap
after = (bytes "status", text (bytes "cancelled")) ∷ (bytes "version", number (pos 1)) ∷ []

compute_diff_exact_example :
    get (bytes "status") (compute_diff show before after)
    ≡ entry show (some (text (bytes "confirmed"))) (some (text (bytes "cancelled")))
compute_diff_exact_example =
    compute_diff_exact show before after (bytes "status") (refl, (refl, tt))
