-- ===== src/Router.antt =====
-- internal/router/router.go: the middleware in front of the handlers, and which routes ask for what.
-- Finding the route and its parameters is chi's: a call is a route with what was decoded for it.

pub mod Guarded
pub mod Stock
pub mod Arrivals
mod Tests
use go_ticket_booking_app.Base.{ℕ, Bool, Option, none, some, List}
use go_ticket_booking_app.Base.Int.{ℤ, pos}
use go_ticket_booking_app.Base.Text.{Text, bytes}
use go_ticket_booking_app.Domain.{UserClaims}
use go_ticket_booking_app.Domain.Errors.{Failure}
use go_ticket_booking_app.World.{Env, World, Result}
use go_ticket_booking_app.Cache.{Cache}
use go_ticket_booking_app.Cache.Redis.{Redis}
use go_ticket_booking_app.Cache.RedisRepo.{Server, RedisEnv, redis_cache, allow}
use go_ticket_booking_app.Postgres.Queries.{Sorter, Columns}
use go_ticket_booking_app.Service.Auth.{AuthEnv, validate_token}
use go_ticket_booking_app.Service.Auth.Access.{accepted}
use go_ticket_booking_app.Service.Booking.{BatchBookRequest}
use go_ticket_booking_app.Service.Event.{CreateEventRequest, UpdateEventRequest}
use go_ticket_booking_app.Middleware.RateLimiter.{Request, Limited, served, limited, rate_limiter}
use go_ticket_booking_app.Middleware.Rbac.{Verdict, answers, passes, authenticate, admin_route}
use go_ticket_booking_app.Handler.Answers.{Response, render, render_error, health_body}
use go_ticket_booking_app.Handler.Account
use go_ticket_booking_app.Handler.Account.{RegisterRequest, LoginRequest}
use go_ticket_booking_app.Handler.Audit
use go_ticket_booking_app.Handler.Booking
use go_ticket_booking_app.Handler.Booking.{CreateBookingRequest}
use go_ticket_booking_app.Handler.Event
use go_ticket_booking_app.Handler.Event.{PathId}

-- The services and repositories that New is given, and what they stand on.
pub record App (R : Type 0) : Type 1 where
  pub env : Env
  pub auth : AuthEnv
  pub redis : Redis R
  pub redis_env : RedisEnv
  pub sorter : Sorter
  pub columns : Columns
  pub show : Failure → Text
  -- UnixMilli of a time
  pub unix_milli : ℕ → ℕ

pub data Call : Type 0 where
  registers : Result RegisterRequest → Call
  logs_in : Result LoginRequest → Call
  checks_health : Call
  lists_events : (status limit offset : Text) → Call
  gets_event : Option ℕ → Call
  creates_event : Result CreateEventRequest → Call
  updates_event : PathId → Result UpdateEventRequest → Call
  deletes_event : Option ℕ → Call
  creates_events : Result (List CreateEventRequest) → Call
  books : Result CreateBookingRequest → Call
  cancels : Option ℕ → Call
  books_all : Result (List BatchBookRequest) → Call
  reads_audit : Text → Option ℕ → Call

pub data Gate : Type 0 where
  public authenticated admin_only : Gate

-- The groups of New.
abbrev pub gate : Call → Gate
gate (registers _) = public
gate (logs_in _) = public
gate checks_health = public
gate (lists_events _ _ _) = authenticated
gate (gets_event _) = authenticated
gate (creates_event _) = admin_only
gate (updates_event _ _) = admin_only
gate (deletes_event _) = admin_only
gate (creates_events _) = admin_only
gate (books _) = authenticated
gate (cancels _) = authenticated
gate (books_all _) = authenticated
gate (reads_audit _ _) = admin_only

module _ {R : Type 0} (app : App R) (ip ua : Text) where
  -- The handler of a route, with the claims in the context.
  unfoldable pub dispatch :
      Option UserClaims → Call → World (Server R) → Response × World (Server R)
  dispatch claims (registers body) w = Account.register app.show app.auth app.env body w
  dispatch claims (logs_in body) w = Account.login app.show app.auth app.env body w
  dispatch claims checks_health w = (render 200 health_body, w)
  dispatch claims (lists_events status limit offset) w =
      Event.list app.show app.env (redis_cache app.redis app.redis_env) app.sorter status limit
        offset w
  dispatch claims (gets_event id) w =
      Event.get_by_id app.show app.env (redis_cache app.redis app.redis_env) id w
  dispatch claims (creates_event body) w =
      Event.create app.show app.env (redis_cache app.redis app.redis_env) claims body w
  dispatch claims (updates_event path body) w =
      Event.update app.show app.env (redis_cache app.redis app.redis_env) path claims body w
  dispatch claims (deletes_event id) w =
      Event.delete app.show app.env (redis_cache app.redis app.redis_env) id claims w
  dispatch claims (creates_events body) w =
      Event.batch_create app.show app.env (redis_cache app.redis app.redis_env) claims body w
  dispatch claims (books body) w =
      Booking.create app.show app.env (redis_cache app.redis app.redis_env) ip ua claims body w
  dispatch claims (cancels id) w =
      Booking.cancel app.show app.env (redis_cache app.redis app.redis_env) ip ua id claims w
  dispatch claims (books_all body) w =
      Booking.batch_create app.show app.env (redis_cache app.redis app.redis_env) ip ua claims body
        w
  dispatch claims (reads_audit resource_type id) w =
      Audit.get_history app.sorter app.env app.columns resource_type id w

  abbrev pub validator : World (Server R) → Text → Option UserClaims
  validator w token = accepted (validate_token app.auth (app.auth.clock w.statements) token)

  abbrev pub after_verdict : Call → Verdict → World (Server R) → Response × World (Server R)
  after_verdict call (answers status body) w = (render_error status body, w)
  after_verdict call (passes claims) w = dispatch (some claims) call w

  -- Authenticate and RequireAdmin, where the route has them.
  unfoldable pub pass_gate : Gate → Text → Call → World (Server R) → Response × World (Server R)
  pass_gate public header call w = dispatch none call w
  pass_gate authenticated header call w = after_verdict call (authenticate (validator w) header) w
  pass_gate admin_only header call w = after_verdict call (admin_route (validator w) header) w

  abbrev pub after_limit :
      Limited × Server R → Text → Call → World (Server R) → Response × World (Server R)
  after_limit (limited, s) header call w =
      (render_error 429 (bytes "rate limit exceeded"), record w { cache = s })
  after_limit (served, s) header call w = pass_gate (gate call) header call (record w { cache = s })

  -- The router that New returns, on a request with the given Authorization header: 100 requests in
  -- a minute.
  unfoldable pub serve : Request → Text → Call → World (Server R) → Response × World (Server R)
  serve req header call w =
      after_limit
        (rate_limiter (allow app.redis app.redis_env) 60000 (pos 100)
          (app.unix_milli (app.auth.clock w.statements)) req w.cache)
        header call w
