-- ===== src/Router/Guarded.antt =====
-- Which requests reach the database.
use go_ticket_booking_app.Base.{ℕ, ◌≡◌, ◌≢◌, refl, Bool, true, some, ◌++◌, arith}
use go_ticket_booking_app.Base.Int.{pos}
use go_ticket_booking_app.Base.Text.{Text, bytes}
use go_ticket_booking_app.Domain.{UserClaims}
use go_ticket_booking_app.Domain.Role
use go_ticket_booking_app.World.{World, Result, ok, err}
use go_ticket_booking_app.Cache.RedisRepo.{Server, allow}
use go_ticket_booking_app.Service.Auth.{Header, validate_token}
use go_ticket_booking_app.Service.Auth.Access.{AuthLaws, accepted, validate_token_signed}
use go_ticket_booking_app.Middleware.RateLimiter.{Request, Limited, served, limited, rate_limiter}
use go_ticket_booking_app.Middleware.Rbac.{
  Verdict, answers, passes, authenticate, admin_route, authenticate-passes, admin_route_exact,
}
use go_ticket_booking_app.Router.{
  App, Call, registers, logs_in, checks_health, lists_events, gets_event, creates_event,
  updates_event, deletes_event, creates_events, books, cancels, books_all, reads_audit, Gate,
  public, authenticated, admin_only, gate, validator, after_verdict, pass_gate, after_limit, serve,
}

module _ {R : Type 0} (app : App R) (header_of : Text → Header)
    (signed_with : Text → Text → Bool) where
  -- The header is "Bearer " and a token of the HMAC family that is signed under the secret of the
  -- service and is valid at the time of the call, with these claims.
  abbrev pub Bears : Text → ℕ → UserClaims → Type 0
  Bears header now claims =
      (token : Text) × (header ≡ bytes "Bearer " ++ token)
      × (validate_token app.auth now token ≡ ok claims)
      × ((header_of token).is_hmac ≡ true)
      × (signed_with app.auth.jwt_secret token ≡ true)

  -- What a request must have to pass a gate.
  abbrev pub Cleared : Gate → Text → ℕ → Type 0
  Cleared public header now = Unit {0}
  Cleared authenticated header now = (claims : UserClaims) × Bears header now claims
  Cleared admin_only header now =
      (claims : UserClaims) × Bears header now claims × (claims.role ≡ Role.admin)

  -- What a request of each kind must have: nothing to register, log in or check the health, a token to
  -- read events and to book, and the token of an admin to write events and to read the audit trail.
  abbrev pub Due : Call → Text → ℕ → Type 0
  Due (registers _) header now = Cleared public header now
  Due (logs_in _) header now = Cleared public header now
  Due checks_health header now = Cleared public header now
  Due (lists_events _ _ _) header now = Cleared authenticated header now
  Due (gets_event _) header now = Cleared authenticated header now
  Due (books _) header now = Cleared authenticated header now
  Due (cancels _) header now = Cleared authenticated header now
  Due (books_all _) header now = Cleared authenticated header now
  Due (creates_event _) header now = Cleared admin_only header now
  Due (creates_events _) header now = Cleared admin_only header now
  Due (updates_event _ _) header now = Cleared admin_only header now
  Due (deletes_event _) header now = Cleared admin_only header now
  Due (reads_audit _ _) header now = Cleared admin_only header now

  gate-Due :
      (call : Call) (header : Text) (now : ℕ) → Cleared (gate call) header now → Due call header now
  gate-Due (registers _) header now c = c
  gate-Due (logs_in _) header now c = c
  gate-Due checks_health header now c = c
  gate-Due (lists_events _ _ _) header now c = c
  gate-Due (gets_event _) header now c = c
  gate-Due (books _) header now c = c
  gate-Due (cancels _) header now c = c
  gate-Due (books_all _) header now c = c
  gate-Due (creates_event _) header now c = c
  gate-Due (creates_events _) header now c = c
  gate-Due (updates_event _ _) header now c = c
  gate-Due (deletes_event _) header now c = c
  gate-Due (reads_audit _ _) header now c = c

  module _ (laws : AuthLaws app.auth header_of signed_with) (ip ua : Text) where
    accepted_lem :
        (r : Result UserClaims) (claims : UserClaims) → accepted r ≡ some claims → r ≡ ok claims
    accepted_lem (ok c) claims h = ground arith
    accepted_lem (err e) claims h = cc

    bearer :
        (header : Text) (w : World (Server R)) (claims : UserClaims)
        → ((token : Text) × (header ≡ bytes "Bearer " ++ token)
            × (validator app ip ua w token ≡ some claims))
        → Bears header (app.auth.clock w.statements) claims
    bearer header w claims (token, shape, valid) =
        let now = app.auth.clock w.statements in
        let good : validate_token app.auth now token ≡ ok claims =
          accepted_lem (validate_token app.auth now token) claims valid in
        let (hmac, signed) =
          validate_token_signed app.auth header_of signed_with laws now token claims good in
        (token, shape, good, hmac, signed)

    -- A verdict that answers sends nothing.
    passed :
        (v : Verdict) (call : Call) (w : World (Server R))
        → (after_verdict app ip ua call v w).1.statements ≢ w.statements
        → (claims : UserClaims) × (v ≡ passes claims)
    passed (answers status body) call w sent = absurd (sent refl)
    passed (passes claims) call w sent = (claims, refl)

    pass_gate-Cleared :
        (g : Gate) (header : Text) (call : Call) (w : World (Server R))
        → (pass_gate app ip ua g header call w).1.statements ≢ w.statements
        → Cleared g header (app.auth.clock w.statements)
    unfolding pass_gate
    pass_gate-Cleared public header call w sent = tt
    pass_gate-Cleared authenticated header call w sent =
        let (claims, through) = passed (authenticate (validator app ip ua w) header) call w sent in
        (
          claims,
          bearer header w claims
              (authenticate-passes (validator app ip ua w) header claims through),
        )
    pass_gate-Cleared admin_only header call w sent =
        let (claims, through) = passed (admin_route (validator app ip ua w) header) call w sent in
        let (token, shape, valid, admin) =
          (admin_route_exact (validator app ip ua w) header claims).0 through in
        (claims, bearer header w claims (token, shape, valid), admin)

    after_limit-Cleared :
        (l : Limited × Server R) (header : Text) (call : Call) (w : World (Server R))
        → (after_limit app ip ua l header call w).1.statements ≢ w.statements
        → Cleared (gate call) header (app.auth.clock w.statements)
    after_limit-Cleared (limited, s) header call w sent = absurd (sent refl)
    after_limit-Cleared (served, s) header call w sent =
        pass_gate-Cleared (gate call) header call (record w { cache = s }) sent

    -- A request of which the router sends any statement to the database has what its kind must have:
    -- but for registration, login and the health check, a valid token of the HMAC family signed under
    -- the secret of the service, and to write events or read the audit trail, one whose claims are
    -- those of an admin.
    pub serve-Due :
        (req : Request) (header : Text) (call : Call) (w : World (Server R))
        → (serve app ip ua req header call w).1.statements ≢ w.statements
        → Due call header (app.auth.clock w.statements)
    unfolding serve
    serve-Due req header call w sent = gate-Due call header (app.auth.clock w.statements) (
        after_limit-Cleared
          (rate_limiter (allow app.redis app.redis_env) 60000 (pos 100)
            (app.unix_milli (app.auth.clock w.statements)) req w.cache)
          header call w sent)
