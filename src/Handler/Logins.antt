-- ===== src/Handler/Logins.antt =====
-- The answers to a login, against the table of users.
use go_ticket_booking_app.Base.{
  ℕ, suc, ◌≡◌, true, not, Option, none, some, find, if◌then◌else◌, arith, Option-cases, inl, inr,
}
use go_ticket_booking_app.Base.Text.{Text, bytes}
use go_ticket_booking_app.Domain.{User, UserClaims}
use go_ticket_booking_app.Domain.Errors.{Failure}
use go_ticket_booking_app.World.{Env, World, ok, delivered}
use go_ticket_booking_app.World.Calls.{pool_query}
use go_ticket_booking_app.Postgres.UserRepo
use go_ticket_booking_app.Postgres.UserRepo.{has_email, select_user_by_email}
use go_ticket_booking_app.Service.Auth
use go_ticket_booking_app.Service.Auth.{AuthEnv, normalised, claims_of, issue_token, login_user}
use go_ticket_booking_app.Handler.Answers.{Response, render, render_error, session_body, user_json}
use go_ticket_booking_app.Handler.Account.{LoginRequest, login, login_error_response}

-- The answer that the table calls for, at the given time.
abbrev pub due_answer :
    AuthEnv → (UserClaims → Text) → ℕ → (password : Text) → Option User → Response
due_answer auth token_of now password none = render_error 401 (bytes "invalid email or password")
due_answer auth token_of now password (some u) =
    if not u.is_active
    then render_error 403 (bytes "user account is inactive")
    else (if auth.compare_password u.password_hash password
        then render 200 (session_body (user_json u) (token_of (claims_of auth now u)))
        else render_error 401 (bytes "invalid email or password"))

-- Where nothing is lost, claims can be signed, and the email, trimmed and in lower case, is a text that
-- the database takes as a parameter: a login is answered with the user and a
-- token of its claims when the account is active and the password is right, with 403 when the account is
-- inactive, and with one and the same 401 when the email is unknown and when the password is wrong.
pub login_answers :
    {S : Type 0} (show : Failure → Text) (auth : AuthEnv) (env : Env) (req : LoginRequest)
    (token_of : UserClaims → Text) (w : World S)
    → env.delivery w.statements ≡ delivered
    → env.is_text (normalised auth req.email) ≡ true
    → ((claims : UserClaims) → auth.signed_string auth.jwt_secret claims ≡ ok (token_of claims))
    → (login show auth env (ok req) w).0
      ≡ due_answer auth token_of
          (auth.clock (suc w.statements))
          req.password
          (find (has_email (normalised auth req.email)) w.db.users)
unfolding login login_error_response Auth.login login_user issue_token UserRepo.get_by_email
    pool_query select_user_by_email
login_answers show auth env req token_of w arrives sendable signs =
    elim (Option-cases (find (has_email (normalised auth req.email)) w.db.users)) [
      | inl unknown ↦ ground (arith, arrives, sendable)
      | inr (u, found) ↦
          ground
            (arith, arrives, sendable, signs (claims_of auth (auth.clock (suc w.statements)) u))
    ]
