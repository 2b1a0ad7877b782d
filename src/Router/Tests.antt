-- ===== src/Router/Tests.antt =====
-- An admin reads the audit trail of an event through the router.
use go_ticket_booking_app.Samples.{env, tables, tables-Integrity}
use go_ticket_booking_app.Base.{List, ◌≡◌, refl, ◌∷◌, [], ◌++◌, none, some, arith}
use go_ticket_booking_app.Base.Text.{Text, bytes}
use go_ticket_booking_app.Domain.{UserClaims}
use go_ticket_booking_app.Domain.Role
use go_ticket_booking_app.World.{World, ok, idle, delivered}
use go_ticket_booking_app.World.Calls.{pool_query}
use go_ticket_booking_app.Base.Int.{pos, ◌-ℤ◌, ◌+ℤ◌, ◌≤ℤ◌}
use go_ticket_booking_app.Handler.Audit
use go_ticket_booking_app.Postgres.Queries
use go_ticket_booking_app.Postgres.Queries.{select_logs}
use go_ticket_booking_app.Cache.RedisRepo.{Server, allow, sliding_window_script}
use go_ticket_booking_app.Service.Auth.{validate_token, key_for}
use go_ticket_booking_app.Middleware.Rbac.{admin_route, authenticate, require_admin}
use go_ticket_booking_app.Cache.Memory.{Keys, memory}
use go_ticket_booking_app.Postgres.Queries.Order.{insertion_sorter}
use go_ticket_booking_app.Service.Auth.Plain.{plain, plain-AuthLaws, header, signed_with, sign}
use go_ticket_booking_app.Middleware.RateLimiter.{
  Request, rate_limiter, limit_key, extract_ip, path_group,
}
use go_ticket_booking_app.Router.{
  App, Call, reads_audit, books, deletes_event, pass_gate, dispatch, serve,
}
use go_ticket_booking_app.Postgres.Integrity.{Integrity}
use go_ticket_booking_app.Postgres.Capacity.{capacity, sold}
use go_ticket_booking_app.Router.Arrivals.{Arrival, arrive_all, requests_no_oversell}
use go_ticket_booking_app.Router.Guarded.{Due, serve-Due}

abbrev app : App Keys
app = record {
  env = env;
  auth = plain;
  redis = memory;
  redis_env = record {
    delivery = λ _. delivered;
    new_token = λ k. k ∷ [];
    uuid_text = λ id. id ∷ [];
  };
  sorter = insertion_sorter;
  columns = record { state = λ m. m; diff = λ d. d; inet_text = λ ip. ip };
  show = λ _. [];
  unix_milli = λ t. t;
}

abbrev fresh : World (Server Keys)
fresh = record {
  db = tables;
  session = idle;
  statements = 0;
  cache = record { keys = record { texts = λ _. none; sets = λ _. [] }; calls = 0 };
}

abbrev admin_claims : UserClaims
admin_claims = record {
  user_id = 1;
  email = bytes "a@example.com";
  role = Role.admin;
  issued_at = 1;
  expires_at = 5000;
}

abbrev authorization : Text
authorization = bytes "Bearer " ++ sign (bytes "secret") admin_claims

abbrev request : Request
request = record {
  real_ip = bytes "10.0.0.1";
  forwarded_for = [];
  remote_addr = [];
  path = bytes "/audit/event/7";
}

served_audit :
    (serve app [] [] request authorization
      (reads_audit (bytes "event") (some 7))
      fresh).1.statements
    ≡ 1
unfolding serve rate_limiter allow sliding_window_script limit_key extract_ip path_group pass_gate
    admin_route authenticate require_admin validate_token key_for dispatch Audit.get_history
    Queries.get_history select_logs pool_query ◌-ℤ◌
served_audit = refl

serve-Due_example :
    Due app header signed_with (reads_audit (bytes "event") (some 7)) authorization 100
serve-Due_example =
    serve-Due app header signed_with plain-AuthLaws [] [] request authorization
      (reads_audit (bytes "event") (some 7)) fresh
      (λ none_sent. ground (arith, served_audit, none_sent))

-- A user books too many tickets and then a few, an admin reads the audit trail, and somebody without
-- a token tries to delete the event.
abbrev arrival : Text → Call → Arrival
arrival header call = record {
  request = request;
  authorization = header;
  ip = [];
  user_agent = [];
  call = call;
}

abbrev arrivals : List Arrival
arrivals =
    arrival authorization (books (ok record { event_id = 7; ticket_count = pos 8 }))
    ∷ arrival authorization (books (ok record { event_id = 7; ticket_count = pos 4 }))
    ∷ arrival authorization (reads_audit (bytes "event") (some 7))
    ∷ arrival [] (deletes_event (some 7))
    ∷ []

requests_no_oversell_example :
    Integrity env (arrive_all app arrivals fresh).db
    × (sold 7 (arrive_all app arrivals fresh).db.bookings ≤ℤ pos 10)
unfolding capacity sold ◌+ℤ◌
requests_no_oversell_example =
    requests_no_oversell app arrivals fresh 7 (pos 10) tables-Integrity refl
