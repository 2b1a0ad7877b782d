-- ===== src/Middleware/Tests.antt =====
-- The middleware on small requests.
use go_ticket_booking_app.Base.{[], ◌≡◌, ◌≢◌, ◌↔◌, refl, some, Option, ◌++◌, arith}
use go_ticket_booking_app.Base.Text.{Text, bytes}
use go_ticket_booking_app.Domain.{UserClaims}
use go_ticket_booking_app.Domain.Role
use go_ticket_booking_app.Middleware.Rbac.{admin_route, passes, admin_route_exact}
use go_ticket_booking_app.Middleware.RateLimiter.{Request, limit_key, limit_key_separates}

abbrev admin_claims : UserClaims
admin_claims = record {
  user_id = 1;
  email = bytes "a@example.com";
  role = Role.admin;
  issued_at = 1;
  expires_at = 100;
}

admin_route_exact_example :
    (admin_route (λ _. some admin_claims) (bytes "Bearer t") ≡ passes admin_claims) ↔ (
      (token : Text) × (bytes "Bearer t" ≡ bytes "Bearer " ++ token)
      × (◌≡◌ {A = Option UserClaims} (some admin_claims) (some admin_claims))
      × (Role.admin ≡ Role.admin))
admin_route_exact_example =
    admin_route_exact (λ _. some admin_claims) (bytes "Bearer t") admin_claims

abbrev from_host : Text → Request
from_host path = record {
  real_ip = [];
  forwarded_for = [];
  remote_addr = bytes "10.0.0.1:5000";
  path = path;
}

limit_key_separates_example :
    (limit_key (from_host (bytes "/events/abc/availability"))
      ≡ limit_key (from_host (bytes "/events/abc")))
    × (limit_key (from_host (bytes "/events/abc")) ≢ limit_key (from_host (bytes "/events/def")))
limit_key_separates_example =
    limit_key_separates (from_host []) (bytes "events") (bytes "abc") (bytes "def")
      (bytes "availability") refl refl refl (λ same. ground arith)
