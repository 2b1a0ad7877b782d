-- ===== src/Handler/Account.antt =====
-- internal/handler/auth_handler.go.
use go_ticket_booking_app.Base.{if◌then◌else◌}
use go_ticket_booking_app.Base.Text.{Text, bytes}
use go_ticket_booking_app.Domain.{User}
use go_ticket_booking_app.Domain.Errors.{
  Error, Failure, is, duplicate_email, invalid_credentials, user_inactive,
}
use go_ticket_booking_app.World.{Env, World, Result, ok, err}
use go_ticket_booking_app.Service.Auth
use go_ticket_booking_app.Service.Auth.{AuthEnv}
use go_ticket_booking_app.Handler.Answers.{
  Body, Response, render, render_error, error_text, respond, invalid_body, session_body, user_json,
}

pub record RegisterRequest : Type 0 where
  pub email : Text
  pub password : Text
  pub first_name : Text
  pub last_name : Text

pub record LoginRequest : Type 0 where
  pub email : Text
  pub password : Text

abbrev pub session : User × Text → Body
session (u, token) = session_body (user_json u) token

module _ (show : Failure → Text) where
  -- The switch of Register.
  abbrev pub register_error_response : Error → Response
  register_error_response e =
      if is duplicate_email e
      then render_error 409 (error_text show e)
      else render_error 400 (error_text show e)

  -- The switch of Login.
  unfoldable pub login_error_response : Error → Response
  login_error_response e =
      if is invalid_credentials e
      then render_error 401 (bytes "invalid email or password")
      else (if is user_inactive e
          then render_error 403 (error_text show e)
          else render_error 500 (bytes "login failed"))

  module _ {S : Type 0} (auth : AuthEnv) (env : Env) where
    -- AuthHandler.Register
    unfoldable pub register : Result RegisterRequest → World S → Response × World S
    register (err e) w = (invalid_body show e, w)
    register (ok req) w =
        respond (λ a. render 201 (session a)) register_error_response
          (Auth.register auth env req.email req.password req.first_name req.last_name w)

    -- AuthHandler.Login
    unfoldable pub login : Result LoginRequest → World S → Response × World S
    login (err e) w = (invalid_body show e, w)
    login (ok req) w =
        respond (λ a. render 200 (session a)) login_error_response
          (Auth.login auth env req.email req.password w)
