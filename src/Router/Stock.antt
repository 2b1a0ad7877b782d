-- ===== src/Router/Stock.antt =====
-- What a handler behind the router does to the events and bookings.
use go_ticket_booking_app.Base.{ℕ, ◌≡◌, ◌⊎◌, refl, inl, inr, Option, none, some, arith, ap}
use go_ticket_booking_app.Base.Text.{Text}
use go_ticket_booking_app.Domain.{User, UserClaims}
use go_ticket_booking_app.World.{Env, World, Result, ok, err}
use go_ticket_booking_app.World.Calls.{pool_query}
use go_ticket_booking_app.World.Logic.{After}
use go_ticket_booking_app.Cache.{Cache}
use go_ticket_booking_app.Cache.RedisRepo.{Server, redis_cache}
use go_ticket_booking_app.Postgres.EventRepo
use go_ticket_booking_app.Postgres.EventRepo.{select_event}
use go_ticket_booking_app.Postgres.Queries
use go_ticket_booking_app.Postgres.Queries.{select_events, select_logs}
use go_ticket_booking_app.Postgres.Integrity.{Integrity}
use go_ticket_booking_app.Service.Maintains.{Maintains, unchanged-Maintains, stock-Maintains}
use go_ticket_booking_app.Service.Booking.History.{books, cancels, batches, perform}
use go_ticket_booking_app.Service.History.{
  Action, booking, creates, updates, deletes, creates_all, act, act-Maintains,
}
use go_ticket_booking_app.Service.Auth
use go_ticket_booking_app.Service.Auth.{AuthEnv, registered}
use go_ticket_booking_app.Service.Auth.Accounts.{Registered, NotRegistered, register_atomic}
use go_ticket_booking_app.Service.Auth.Users.{login-db}
use go_ticket_booking_app.Handler.Answers.{Response}
use go_ticket_booking_app.Handler.Account
use go_ticket_booking_app.Handler.Audit
use go_ticket_booking_app.Handler.Booking
use go_ticket_booking_app.Handler.Event
use go_ticket_booking_app.Handler.Event.{PathId, update_id, update_resolved}
use go_ticket_booking_app.Router as Routing
use go_ticket_booking_app.Router.{
  App, Call, Gate, public, authenticated, admin_only, gate, dispatch, validator, after_verdict,
  pass_gate, after_limit, serve,
}

register-stock :
    {S : Type 0} (auth : AuthEnv) (env : Env) (raw password first_name last_name : Text)
    (w : World S)
    → let d = (Auth.register auth env raw password first_name last_name w).1.db in
      (d.events ≡ w.db.events) × (d.bookings ≡ w.db.bookings)
register-stock {S = S} auth env raw password first_name last_name w =
    kept (Auth.register auth env raw password first_name last_name w)
      (register_atomic auth env raw password first_name last_name w)
  where
    kept :
        (r : Result (User × Text) × World S)
        → After
            (λ a w'.
              Registered auth env raw password first_name last_name w.statements w.db a w'.db)
            (λ e w'.
              NotRegistered auth env raw password first_name last_name w.statements w.db e w'.db)
            r
        → (r.1.db.events ≡ w.db.events) × (r.1.db.bookings ≡ w.db.bookings)
    kept (ok (u, token), w') (long, (hash, hashed, row, (unknown, added)), issued) =
        (ap (λ d. d.events) added, ap (λ d. d.bookings) added)
    kept (err e, w') (inl same) = (ap (λ d. d.events) same, ap (λ d. d.bookings) same)
    kept (err e, w') (inr (hash, hashed, (unknown, added), why)) =
        (ap (λ d. d.events) added, ap (λ d. d.bookings) added)

module _ {R : Type 0} (app : App R) where
  abbrev pub Kept : World (Server R) → World (Server R) → Type 0
  Kept w w' = Maintains app.env w.db w'.db

  module _ (ip ua : Text) where
    pub same : (w w' : World (Server R)) → Integrity app.env w.db → w'.db ≡ w.db → Kept w w'
    same w w' h e = unchanged-Maintains app.env w.db h w'.db e

    acted :
        (a : Action) (w : World (Server R))
        → Integrity app.env w.db
        → Kept w (act app.env (redis_cache app.redis app.redis_env) a w)
    acted a w h = act-Maintains app.env (redis_cache app.redis app.redis_env) a w h

    list-db :
        (c : Cache (Server R)) (status limit offset : Text) (w : World (Server R))
        → (Event.list app.show app.env c app.sorter status limit offset w).1.db ≡ w.db
    unfolding Event.list Queries.list pool_query select_events
    list-db c status limit offset w = ground arith

    get-db :
        (c : Cache (Server R)) (id : Option ℕ) (w : World (Server R))
        → (Event.get_by_id app.show app.env c id w).1.db ≡ w.db
    unfolding Event.get_by_id EventRepo.get_by_id pool_query select_event
    get-db c none w = refl
    get-db c (some id) w = ground arith

    audit-db :
        (resource_type : Text) (id : Option ℕ) (w : World (Server R))
        → (Audit.get_history app.sorter app.env app.columns resource_type id w).1.db ≡ w.db
    unfolding Audit.get_history Queries.get_history pool_query select_logs
    audit-db resource_type none w = refl
    audit-db resource_type (some id) w = ground arith

    pub dispatch-Kept :
        (claims : Option UserClaims) (call : Call) (w : World (Server R))
        → Integrity app.env w.db
        → Kept w (dispatch app ip ua claims call w).1
    unfolding dispatch Account.register Account.login Event.create Event.update Event.delete
        Event.batch_create Booking.create Booking.cancel Booking.batch_create act perform
    dispatch-Kept claims (Routing.registers (err e)) w h = same w w h refl
    dispatch-Kept claims (Routing.registers (ok req)) w h =
        let (events, bookings) =
          register-stock app.auth app.env req.email req.password req.first_name req.last_name w in
        stock-Maintains app.env w.db h _ events bookings
    dispatch-Kept claims (Routing.logs_in (err e)) w h = same w w h refl
    dispatch-Kept claims (Routing.logs_in (ok req)) w h =
        unchanged-Maintains app.env w.db h _ (login-db app.auth app.env req.email req.password w)
    dispatch-Kept claims Routing.checks_health w h = same w w h refl
    dispatch-Kept claims (Routing.lists_events status limit offset) w h =
        unchanged-Maintains app.env w.db h _
          (list-db (redis_cache app.redis app.redis_env) status limit offset w)
    dispatch-Kept claims (Routing.gets_event id) w h =
        unchanged-Maintains app.env w.db h _ (get-db (redis_cache app.redis app.redis_env) id w)
    dispatch-Kept none (Routing.creates_event body) w h = same w w h refl
    dispatch-Kept (some c) (Routing.creates_event (err e)) w h = same w w h refl
    dispatch-Kept (some c) (Routing.creates_event (ok req)) w h = acted (creates req c.user_id) w h
    dispatch-Kept none (Routing.updates_event path body) w h = same w w h refl
    dispatch-Kept (some c) (Routing.updates_event path (err e)) w h = same w w h refl
    dispatch-Kept (some c) (Routing.updates_event path (ok req)) w h = resolved (update_id path req)
      where
        resolved :
            (r : Response ⊎ ℕ)
            → Kept w
                (update_resolved app.show app.env (redis_cache app.redis app.redis_env) c req r w).1
        resolved (inl answer) = same w w h refl
        resolved (inr id) = acted (updates id req c.user_id) w h
    dispatch-Kept claims (Routing.deletes_event none) w h = same w w h refl
    dispatch-Kept none (Routing.deletes_event (some id)) w h = same w w h refl
    dispatch-Kept (some c) (Routing.deletes_event (some id)) w h = acted (deletes id c.user_id) w h
    dispatch-Kept none (Routing.creates_events body) w h = same w w h refl
    dispatch-Kept (some c) (Routing.creates_events (err e)) w h = same w w h refl
    dispatch-Kept (some c) (Routing.creates_events (ok reqs)) w h =
        acted (creates_all reqs c.user_id) w h
    dispatch-Kept none (Routing.books body) w h = same w w h refl
    dispatch-Kept (some c) (Routing.books (err e)) w h = same w w h refl
    dispatch-Kept (some c) (Routing.books (ok req)) w h =
        acted (booking (books c.user_id req.event_id req.ticket_count ip ua)) w h
    dispatch-Kept claims (Routing.cancels none) w h = same w w h refl
    dispatch-Kept none (Routing.cancels (some id)) w h = same w w h refl
    dispatch-Kept (some c) (Routing.cancels (some id)) w h =
        acted (booking (cancels id c.user_id ip ua)) w h
    dispatch-Kept none (Routing.books_all body) w h = same w w h refl
    dispatch-Kept (some c) (Routing.books_all (err e)) w h = same w w h refl
    dispatch-Kept (some c) (Routing.books_all (ok reqs)) w h =
        acted (booking (batches reqs c.user_id ip ua)) w h
    dispatch-Kept claims (Routing.reads_audit resource_type id) w h =
        unchanged-Maintains app.env w.db h _ (audit-db resource_type id w)
