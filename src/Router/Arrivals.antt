-- ===== src/Router/Arrivals.antt =====
-- The events and bookings under any sequence of requests to the router.
use go_ticket_booking_app.Base.{ℕ, ◌≡◌, refl, none, some, List, [], ◌∷◌}
use go_ticket_booking_app.Base.Int.{ℤ, pos, ◌≤ℤ◌}
use go_ticket_booking_app.Base.Text.{Text}
use go_ticket_booking_app.World.{World}
use go_ticket_booking_app.Cache.RedisRepo.{Server, allow}
use go_ticket_booking_app.Postgres.Integrity.{Integrity}
use go_ticket_booking_app.Postgres.Capacity.{capacity, sold}
use go_ticket_booking_app.Service.Maintains.{Maintains, Maintains-trans, unchanged-Maintains}
use go_ticket_booking_app.Service.Booking.History.{sold_within}
use go_ticket_booking_app.Middleware.RateLimiter.{Request, Limited, served, limited, rate_limiter}
use go_ticket_booking_app.Middleware.Rbac.{Verdict, answers, passes, authenticate, admin_route}
use go_ticket_booking_app.Router.{
  App, Call, Gate, public, authenticated, admin_only, gate, validator, after_verdict, pass_gate,
  after_limit, serve,
}
use go_ticket_booking_app.Router.Stock.{Kept, same, dispatch-Kept}

-- A request as it arrives: what the rate limiter reads of it, the Authorization header, the address
-- and the agent that are recorded, and the call.
pub record Arrival : Type 0 where
  pub request : Request
  pub authorization : Text
  pub ip : Text
  pub user_agent : Text
  pub call : Call

module _ {R : Type 0} (app : App R) where
  module _ (ip ua : Text) where
    verdict-Kept :
        (call : Call) (v : Verdict) (w : World (Server R))
        → Integrity app.env w.db
        → Kept app w (after_verdict app ip ua call v w).1
    verdict-Kept call (answers status body) w h = same app ip ua w w h refl
    verdict-Kept call (passes claims) w h = dispatch-Kept app ip ua (some claims) call w h

    pass_gate-Kept :
        (g : Gate) (header : Text) (call : Call) (w : World (Server R))
        → Integrity app.env w.db
        → Kept app w (pass_gate app ip ua g header call w).1
    unfolding pass_gate
    pass_gate-Kept public header call w h = dispatch-Kept app ip ua none call w h
    pass_gate-Kept authenticated header call w h =
        verdict-Kept call (authenticate (validator app ip ua w) header) w h
    pass_gate-Kept admin_only header call w h =
        verdict-Kept call (admin_route (validator app ip ua w) header) w h

    after_limit-Kept :
        (l : Limited × Server R) (header : Text) (call : Call) (w : World (Server R))
        → Integrity app.env w.db
        → Kept app w (after_limit app ip ua l header call w).1
    after_limit-Kept (limited, s) header call w h = unchanged-Maintains app.env w.db h w.db refl
    after_limit-Kept (served, s) header call w h =
        pass_gate-Kept (gate call) header call (record w { cache = s }) h

  unfoldable pub arrive : Arrival → World (Server R) → World (Server R)
  arrive a w = (serve app a.ip a.user_agent a.request a.authorization a.call w).1

  unfoldable pub arrive_all : List Arrival → World (Server R) → World (Server R)
  arrive_all [] w = w
  arrive_all (a ∷ arrivals) w = arrive_all arrivals (arrive a w)

  arrive-Maintains :
      (a : Arrival) (w : World (Server R))
      → Integrity app.env w.db
      → Maintains app.env w.db (arrive a w).db
  unfolding arrive serve
  arrive-Maintains a w h =
      after_limit-Kept a.ip a.user_agent
        (rate_limiter (allow app.redis app.redis_env) 60000 (pos 100)
          (app.unix_milli (app.auth.clock w.statements)) a.request w.cache)
        a.authorization a.call w h

  arrive_all-Maintains :
      (arrivals : List Arrival) (w : World (Server R))
      → Integrity app.env w.db
      → Maintains app.env w.db (arrive_all arrivals w).db
  unfolding arrive_all
  arrive_all-Maintains [] w h = unchanged-Maintains app.env w.db h w.db refl
  arrive_all-Maintains (a ∷ arrivals) w h =
      let k = arrive-Maintains a w h in
      Maintains-trans app.env w.db (arrive a w).db (arrive_all arrivals (arrive a w)).db k
        (arrive_all-Maintains arrivals (arrive a w) k.integrity)

  -- After any sequence of requests to the router, by anyone and with any headers and bodies, whatever
  -- Redis does and whatever call is lost: tables that met the constraints of the schema for events
  -- and bookings meet them, and no event that was there is oversold: the tickets in its active
  -- bookings are no more than its unsold and booked tickets were at the start.
  pub requests_no_oversell :
      (arrivals : List Arrival) (w : World (Server R)) (id : ℕ) (total : ℤ)
      → Integrity app.env w.db
      → capacity id w.db ≡ some total
      → Integrity app.env (arrive_all arrivals w).db
        × (sold id (arrive_all arrivals w).db.bookings ≤ℤ total)
  requests_no_oversell arrivals w id total h start =
      let k = arrive_all-Maintains arrivals w h in
      (
        k.integrity,
        sold_within app.env (arrive_all arrivals w).db id total k.integrity
            (k.capacities id total start),
      )
