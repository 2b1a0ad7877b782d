-- ===== src/Postgres/UserRepo.antt =====
-- internal/repository/postgres/user_repo.go, and the constraints of migrations/001 on a row.
use go_ticket_booking_app.Base.{
  ℕ, Bool, true, not, Option, none, some, ◌∷◌, ◌==◌, ◌||◌, ◌&&◌, if◌then◌else◌, find, is_some,
}
use go_ticket_booking_app.Base.Text.{Text, bytes, text_eq}
use go_ticket_booking_app.Domain.{User}
use go_ticket_booking_app.Domain.Role
use go_ticket_booking_app.Domain.Errors.{
  Error, Failure, sentinel, driver, wrap, is_unique_violation, unique_violation, check_violation,
  invalid_text, user_not_found, duplicate_email,
}
use go_ticket_booking_app.World.{Env, Result, ok, err, M, lift, ◌>>=◌, on_error}
use go_ticket_booking_app.World.Calls.{Statement, pool_query}

-- CREATE TYPE user_role AS ENUM
abbrev pub is_user_role : Text → Bool
is_user_role r = text_eq r Role.admin || text_eq r Role.user

-- WHERE email = $1
abbrev pub has_email : Text → User → Bool
has_email email u = text_eq u.email email

-- The first constraint that a row breaks: VARCHAR, TEXT and the enumeration, users_email_format.
unfoldable pub user_violation : Env → User → Option Failure
user_violation env u =
    if not (
      env.is_text u.email
      && env.varchar 255 u.email
      && env.is_text u.password_hash
      && env.varchar 100 u.first_name
      && env.varchar 100 u.last_name
      && is_user_role u.role)
    then some invalid_text
    else (if not (env.email_format u.email) then some check_violation else none)

-- The SELECT by an id
unfoldable pub select_user : (User → Bool) → Statement (Option User)
select_user p t d = ok (find p d.users, d)

-- The SELECT by an email: the server refuses a parameter that is not a text, whatever the rows.
unfoldable pub select_user_by_email : Env → Text → Statement (Option User)
select_user_by_email env email t d =
    if not (env.is_text email)
    then err (driver invalid_text)
    else ok (find (has_email email) d.users, d)

abbrev pub create_error : Error → Error
create_error e =
    if is_unique_violation e then sentinel duplicate_email else wrap (bytes "create user: ") e

-- Scan, with pgx.ErrNoRows as ErrUserNotFound.
abbrev pub scan_user : Option User → Result User
scan_user none = err (sentinel user_not_found)
scan_user (some u) = ok u

module _ (env : Env) where
  -- The row that INSERT INTO users makes, with the defaults of the schema.
  abbrev pub new_user : ℕ → User → User
  new_user t u = record u {
    id = env.new_uuid t;
    is_active = true;
    created_at = env.now t;
    updated_at = env.now t;
  }

  -- The row meets the constraints, and no other has its id or its email.
  unfoldable pub insert_user : User → Statement User
  insert_user u t d =
      let row = new_user t u in
      elim (user_violation env row) [
        | some v ↦ err (driver v)
        | none ↦
            if is_some (find (λ x. x.id == row.id) d.users)
              || is_some (find (has_email row.email) d.users)
            then err (driver unique_violation)
            else ok (row, record d { users = row ∷ d.users })
      ]

  module _ {S : Type 0} where
    -- UserRepo.Create
    unfoldable pub create : User → M S User
    create u = on_error create_error do
      row ← pool_query env (insert_user u)
      lift (
          ok record u {
            id = row.id;
            is_active = row.is_active;
            created_at = row.created_at;
            updated_at = row.updated_at;
          })

    -- UserRepo.GetByEmail
    unfoldable pub get_by_email : Text → M S User
    get_by_email email = do
      row ←
          on_error (wrap (bytes "get user by email: "))
            (pool_query env (select_user_by_email env email))
      lift (scan_user row)

    -- UserRepo.GetByID
    unfoldable pub get_by_id : ℕ → M S User
    get_by_id id = do
      row ←
          on_error (wrap (bytes "get user by id: "))
            (pool_query env (select_user (λ u. u.id == id)))
      lift (scan_user row)
