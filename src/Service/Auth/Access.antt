-- ===== src/Service/Auth/Access.antt =====
-- Who gets a token, and which tokens give access.
use mathlib.Core.Path.{subst}
use go_ticket_booking_app.Base.{
  ℕ, suc, ◌<◌, ◌≡◌, sym, Bool, true, Option, none, some, ◌++◌, find, arith,
}
use go_ticket_booking_app.Base.Int.{pos, ◌+ℤ◌}
use go_ticket_booking_app.Base.Text.{Text, bytes, text_eq_refl}
use go_ticket_booking_app.Domain.{User, UserClaims}
use go_ticket_booking_app.World.{Env, World, Result, ok, err, delivered}
use go_ticket_booking_app.World.Calls.{pool_query}
use go_ticket_booking_app.World.Logic.{After}
use go_ticket_booking_app.Middleware.Rbac.{passes, authenticate}
use go_ticket_booking_app.Postgres.UserRepo
use go_ticket_booking_app.Postgres.UserRepo.{has_email, select_user_by_email}
use go_ticket_booking_app.Service.Auth.{
  AuthEnv, Header, normalised, claims_of, issue_token, key_for, validate_token, register,
  login_user, login,
}
use go_ticket_booking_app.Service.Auth.Accounts.{
  Registered, NotRegistered, register_atomic, register-text,
}

-- What the documentation of jwt and bcrypt promises. `header` reads the header of a token, and
-- `signed_with` says whether its signature is that of its method under a key.
pub record AuthLaws (auth : AuthEnv) (header : Text → Header) (signed_with : Text → Text → Bool)
    : Type 0 where
  -- a token is parsed only with a key that the key function gives for its header
  pub parse_verified :
      (key_of : Header → Result Text) (now : ℕ) (token : Text) (claims : UserClaims)
      → auth.parse_with_claims key_of now token ≡ ok claims
      → (key : Text) × (key_of (header token) ≡ ok key) × (signed_with key token ≡ true)
  -- a token that SignedString made is parsed until it expires
  pub parse_signed :
      (key_of : Header → Result Text) (now : ℕ) (key token : Text) (claims : UserClaims)
      → auth.signed_string key claims ≡ ok token
      → key_of (header token) ≡ ok key
      → now < claims.expires_at
      → auth.parse_with_claims key_of now token ≡ ok claims
  pub signs :
      (key : Text) (claims : UserClaims)
      → (token : Text) × (auth.signed_string key claims ≡ ok token)
  pub signs_hmac :
      (key token : Text) (claims : UserClaims)
      → auth.signed_string key claims ≡ ok token
      → (header token).is_hmac ≡ true
  pub matches :
      (k : ℕ) (password hash : Text)
      → auth.hash_password k password ≡ ok hash
      → auth.compare_password hash password ≡ true

-- What Authenticate reads of ValidateToken.
abbrev pub accepted : Result UserClaims → Option UserClaims
accepted (ok claims) = some claims
accepted (err _) = none

module _ (auth : AuthEnv) (header : Text → Header) (signed_with : Text → Text → Bool)
    (laws : AuthLaws auth header signed_with) where
  open laws use {parse_verified, parse_signed, signs, signs_hmac, matches}

  -- A token that ValidateToken accepts has a method of the HMAC family and is signed under the
  -- service's own secret: one of another method, or of none, is refused.
  pub validate_token_signed :
      (now : ℕ) (token : Text) (claims : UserClaims)
      → validate_token auth now token ≡ ok claims
      → ((header token).is_hmac ≡ true) × (signed_with auth.jwt_secret token ≡ true)
  unfolding validate_token key_for
  validate_token_signed now token claims accepted =
      let (key, given, signed) = parse_verified (key_for auth) now token claims (ground arith) in
      (ground (arith, given), ground (arith, given, signed))

  issued_token :
      (u : User) (now later : ℕ)
      → later < auth.numeric_date (pos now +ℤ auth.jwt_expiry)
      → (token : Text) × (issue_token auth now u ≡ ok token)
        × (validate_token auth later token ≡ ok (claims_of auth now u))
  unfolding issue_token validate_token key_for
  issued_token u now later in_time =
      let (token, made) = signs auth.jwt_secret (claims_of auth now u) in
      let hmac = signs_hmac auth.jwt_secret token (claims_of auth now u) made in
      (
        token,
        ground (arith, made),
        ground (
          arith,
          parse_signed (key_for auth) later auth.jwt_secret token (claims_of auth now u) made
              (ground (arith, hmac)) in_time,
        ),
      )

  login_user-ok :
      {S : Type 0} (env : Env) (password token : Text) (u : User) (w : World S)
      → u.is_active ≡ true
      → auth.compare_password u.password_hash password ≡ true
      → issue_token auth (auth.clock w.statements) u ≡ ok token
      → login_user auth env password u w ≡ (ok (u, token), w)
  unfolding login_user
  login_user-ok env password token u w active right issued = ground arith

  get_by_email-found :
      {S : Type 0} (env : Env) (email : Text) (u : User) (w : World S)
      → env.delivery w.statements ≡ delivered
      → env.is_text email ≡ true
      → find (has_email email) w.db.users ≡ some u
      → UserRepo.get_by_email env email w ≡ (ok u, record w { statements = suc w.statements })
  unfolding UserRepo.get_by_email pool_query select_user_by_email
  get_by_email-found env email u w arrives sendable found = ground arith

  same_text : (env : Env) (a b : Text) → a ≡ b → env.is_text b ≡ true → env.is_text a ≡ true
  same_text env a b same h = subst (λ t. env.is_text t ≡ true) (sym same) h

  -- Where no statement is lost, a user who has registered can log in under the same email, however
  -- its letters are cased and whatever space surrounds it, with the same password; Authenticate
  -- accepts the token of the login until it expires, with the id, the email and the role of the
  -- user.
  pub register-login :
      {S : Type 0} (env : Env) (raw again password first_name last_name issued : Text) (u : User)
      (w w' : World S) (later : ℕ)
      → ((k : ℕ) → env.delivery k ≡ delivered)
      → register auth env raw password first_name last_name w ≡ (ok (u, issued), w')
      → normalised auth again ≡ normalised auth raw
      → later < auth.numeric_date (pos (auth.clock (suc w'.statements)) +ℤ auth.jwt_expiry)
      → (token : Text) × ((login auth env again password w').0 ≡ ok (u, token))
        × (authenticate (λ t. accepted (validate_token auth later t)) (bytes "Bearer " ++ token)
            ≡ passes (claims_of auth (auth.clock (suc w'.statements)) u))
  unfolding login authenticate
  register-login {S = S} env raw again password first_name last_name issued u w w' later calm done
        same in_time =
      let (long, (hash, hashed, row, (unknown, added)), signed) =
        subst
          (After
            (λ a v. Registered auth env raw password first_name last_name w.statements w.db a v.db)
            (λ e v.
              NotRegistered auth env raw password first_name last_name w.statements w.db e v.db))
          done (register_atomic auth env raw password first_name last_name w) in
      let (token, made, valid) = issued_token u (auth.clock (suc w'.statements)) later in_time in
      let sendable : env.is_text (normalised auth raw) ≡ true =
        subst (After (λ _ _. env.is_text (normalised auth raw) ≡ true) (λ _ _. Unit {0})) done
          (register-text auth env raw password first_name last_name w) in
      let found : find (has_email (normalised auth again)) w'.db.users ≡ some u =
        ground (arith, added, row, same, text_eq_refl (normalised auth raw)) in
      let asked : World S = record w' { statements = suc w'.statements } in
      (
        token,
        ground (
          arith,
          get_by_email-found env (normalised auth again) u w' (calm w'.statements)
              (same_text env (normalised auth again) (normalised auth raw) same sendable) found,
          login_user-ok env password token u asked (ground (arith, row))
              (ground (arith, row, matches w.statements password hash hashed)) made,
        ),
        ground (arith, valid),
      )
