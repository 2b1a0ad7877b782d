-- ===== src/Service/Auth.antt =====
-- internal/service/auth_service.go. The packages bcrypt and jwt are parameters.
pub mod Access
pub mod Plain
mod Tests
pub mod Accounts
pub mod Users
use go_ticket_booking_app.Base.{
  ℕ, Bool, true, false, not, ◌||◌, Option, none, some, ◌++◌, if◌then◌else◌, ltb, length,
}
use go_ticket_booking_app.Base.Int.{ℤ, pos, ◌+ℤ◌}
use go_ticket_booking_app.Base.Text.{Text, bytes}
use go_ticket_booking_app.Base.Strings.{Unicode, to_lower, trim_space, contains}
use go_ticket_booking_app.Domain.{User, UserClaims}
use go_ticket_booking_app.Domain.Role
use go_ticket_booking_app.Domain.Errors.{
  Error, sentinel, message, wrap, is, user_not_found, invalid_credentials, user_inactive,
}
use go_ticket_booking_app.World.{
  Env, World, Result, ok, err, M, pure, raise, lift, ◌>>=◌, ◌>>◌, on_error,
}
use go_ticket_booking_app.Postgres.UserRepo

-- The header of a token: whether its method is of the HMAC family, and "alg".
pub record Header : Type 0 where
  pub is_hmac : Bool
  pub alg : Text

-- What the service is given: the signing secret and the expiry, the clock and the random numbers of
-- the process at the given number of statements, and the functions of the libraries.
pub record AuthEnv : Type 0 where
  pub jwt_secret : Text
  pub jwt_expiry : ℤ
  pub clock : ℕ → ℕ
  pub unicode : Unicode
  -- bcrypt.GenerateFromPassword with a random salt, and whether CompareHashAndPassword is nil
  pub hash_password : ℕ → Text → Result Text
  pub compare_password : Text → Text → Bool
  -- jwt.NewNumericDate, of a time that may lie before the zero time
  pub numeric_date : ℤ → ℕ
  -- SignedString of a token of HS256 under a key, and ParseWithClaims at a time
  pub signed_string : Text → UserClaims → Result Text
  pub parse_with_claims : (Header → Result Text) → ℕ → Text → Result UserClaims

-- validateEmail
abbrev pub validate_email : Text → Result (Unit {0})
validate_email email =
    if not (contains b'@' email) || not (contains b'.' email)
    then err (message (bytes "invalid email address"))
    else ok tt

-- The user that Register inserts.
abbrev pub registered : Text → Text → Text → Text → User
registered email hash first_name last_name = record {
  id = 0;
  email = email;
  password_hash = hash;
  first_name = first_name;
  last_name = last_name;
  role = Role.user;
  is_active = false;
  created_at = 0;
  updated_at = 0;
}

abbrev pub login_error : Error → Error
login_error e = if is user_not_found e then sentinel invalid_credentials else e

module _ (auth : AuthEnv) where
  -- strings.ToLower(strings.TrimSpace(email))
  abbrev pub normalised : Text → Text
  normalised email = to_lower auth.unicode (trim_space auth.unicode email)

  -- The claims of issueToken.
  abbrev pub claims_of : ℕ → User → UserClaims
  claims_of now u = record {
    user_id = u.id;
    email = u.email;
    role = u.role;
    issued_at = auth.numeric_date (pos now);
    expires_at = auth.numeric_date (pos now +ℤ auth.jwt_expiry);
  }

  abbrev pub signed : Result Text → Result Text
  signed (ok token) = ok token
  signed (err e) = err (wrap (bytes "sign token: ") e)

  -- AuthService.issueToken at a time
  unfoldable pub issue_token : ℕ → User → Result Text
  issue_token now u = signed (auth.signed_string auth.jwt_secret (claims_of now u))

  -- The key function of ValidateToken.
  unfoldable pub key_for : Header → Result Text
  key_for h =
      if not h.is_hmac
      then err (message (bytes "unexpected signing method: " ++ h.alg))
      else ok auth.jwt_secret

  abbrev pub parsed : Result UserClaims → Result UserClaims
  parsed (ok claims) = ok claims
  parsed (err e) = err (wrap (bytes "invalid token: ") e)

  -- AuthService.ValidateToken at a time
  unfoldable pub validate_token : ℕ → Text → Result UserClaims
  validate_token now token = parsed (auth.parse_with_claims key_for now token)

  module _ {S : Type 0} (env : Env) where
    -- The token for a user, issued now.
    abbrev pub with_token : User → M S (User × Text)
    with_token u w = elim (issue_token (auth.clock w.statements) u) [
      | ok token ↦ (ok (u, token), w)
      | err e ↦ (err e, w)
    ]

    -- Register once the hash is made.
    unfoldable pub create_user : Text → Text → Text → Text → M S (User × Text)
    create_user email hash first_name last_name = do
      u ← UserRepo.create env (registered email hash first_name last_name)
      with_token u

    -- Register past the tests of its arguments.
    abbrev pub hash_and_create : Text → Text → Text → Text → M S (User × Text)
    hash_and_create email password first_name last_name w =
        elim (auth.hash_password w.statements password) [
          | err e ↦ (err (wrap (bytes "hash password: ") e), w)
          | ok hash ↦ create_user email hash first_name last_name w
        ]

    -- AuthService.Register
    unfoldable pub register : Text → Text → Text → Text → M S (User × Text)
    register raw password first_name last_name =
        let email = normalised raw in
        lift (validate_email email)
        >> (if ltb (length password) 8
            then raise (message (bytes "password must be at least 8 characters"))
            else (if ltb (length first_name) 2 || ltb (length last_name) 2
                then raise (message (bytes "first and last name must be at least 2 characters"))
                else hash_and_create email password first_name last_name))

    -- Login once the user is found.
    unfoldable pub login_user : Text → User → M S (User × Text)
    login_user password u =
        if not u.is_active
        then raise (sentinel user_inactive)
        else (if not (auth.compare_password u.password_hash password)
            then raise (sentinel invalid_credentials)
            else with_token u)

    -- AuthService.Login
    unfoldable pub login : Text → Text → M S (User × Text)
    login raw password = do
      u ← on_error login_error (UserRepo.get_by_email env (normalised raw))
      login_user password u
