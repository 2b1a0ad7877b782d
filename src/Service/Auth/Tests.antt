-- ===== src/Service/Auth/Tests.antt =====
-- The authentication service on the small database, with plain tokens and passwords.
use go_ticket_booking_app.Samples.{env, world}
use go_ticket_booking_app.Base.{◌≡◌, refl, [], ◌∷◌, List, true, ◌++◌, arith}
use go_ticket_booking_app.Base.Int.{◌+ℤ◌}
use go_ticket_booking_app.Base.Text.{Text, bytes}
use go_ticket_booking_app.Base.Strings.{to_lower, trim_space}
use go_ticket_booking_app.Domain.{User}
use go_ticket_booking_app.World.{World, ok}
use go_ticket_booking_app.World.Logic.{After}
use go_ticket_booking_app.World.Calls.{pool_query}
use go_ticket_booking_app.Middleware.Rbac.{passes, authenticate}
use go_ticket_booking_app.Postgres.UserRepo
use go_ticket_booking_app.Postgres.UserRepo.{new_user, insert_user, user_violation}
use go_ticket_booking_app.Service.Auth.{
  registered, claims_of, issue_token, key_for, validate_token, create_user, register, login,
}
use go_ticket_booking_app.Service.Auth.Accounts.{Registered, NotRegistered, register_atomic}
use go_ticket_booking_app.Service.Auth.Users.{
  AuthCall, registers, logs_in, after_calls, DistinctEmails, Extends, accounts_grow,
}
use go_ticket_booking_app.Service.Auth.Access.{accepted, validate_token_signed, register-login}
use go_ticket_booking_app.Service.Auth.Plain.{plain, plain-AuthLaws, header, signed_with, sign}

-- An address with capitals and spaces, and how it is stored.
abbrev raw : Text
raw = bytes " Eve@Example.com "

abbrev stored : Text
stored = bytes "eve@example.com"

abbrev eve : User
eve = new_user env 0 (registered stored (bytes "passw0rd") (bytes "Eve") (bytes "Moss"))

abbrev token : Text
token = sign (bytes "secret") (claims_of plain 101 eve)

abbrev with_eve : World (Unit {0})
with_eve = record world { db = record world.db { users = eve ∷ world.db.users }; statements = 1 }

eve_registers :
    register plain env raw (bytes "passw0rd") (bytes "Eve") (bytes "Moss") world
    ≡ (ok (eve, token), with_eve)
unfolding register to_lower trim_space create_user UserRepo.create pool_query insert_user
    user_violation issue_token
eve_registers = refl

register_atomic_example :
    After
      (λ a w.
        Registered plain env raw (bytes "passw0rd") (bytes "Eve") (bytes "Moss") 0 world.db a w.db)
      (λ e w.
        NotRegistered plain env raw
          (bytes "passw0rd")
          (bytes "Eve")
          (bytes "Moss")
          0
          world.db
          e
          w.db)
      (register plain env raw (bytes "passw0rd") (bytes "Eve") (bytes "Moss") world)
register_atomic_example =
    register_atomic plain env raw (bytes "passw0rd") (bytes "Eve") (bytes "Moss") world

-- Eve registers twice, and logs in.
abbrev calls : List AuthCall
calls =
    registers raw (bytes "passw0rd") (bytes "Eve") (bytes "Moss")
    ∷ registers stored (bytes "another one") (bytes "Eve") (bytes "Moss")
    ∷ logs_in stored (bytes "passw0rd")
    ∷ []

accounts_grow_example :
    DistinctEmails
      (after_calls plain env calls (record world { db = record world.db { users = [] } })).db.users
    × Extends []
        (after_calls plain env calls
          (record world { db = record world.db { users = [] } })).db.users
accounts_grow_example =
    accounts_grow plain env calls (record world { db = record world.db { users = [] } }) tt

validate_token_signed_example :
    ((header token).is_hmac ≡ true) × (signed_with (bytes "secret") token ≡ true)
unfolding validate_token key_for ◌+ℤ◌
validate_token_signed_example =
    validate_token_signed plain header signed_with plain-AuthLaws 200 token
      (claims_of plain 101 eve) refl

register-login_example :
    (t : Text) × ((login plain env stored (bytes "passw0rd") with_eve).0 ≡ ok (eve, t))
    × (authenticate (λ s. accepted (validate_token plain 200 s)) (bytes "Bearer " ++ t)
        ≡ passes (claims_of plain 102 eve))
unfolding to_lower trim_space ◌+ℤ◌
register-login_example =
    register-login plain header signed_with plain-AuthLaws env raw stored (bytes "passw0rd")
      (bytes "Eve") (bytes "Moss") token eve world with_eve 200 (λ _. refl) eve_registers refl
      (omega arith)
