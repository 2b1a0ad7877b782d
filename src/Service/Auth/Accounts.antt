-- ===== src/Service/Auth/Accounts.antt =====
-- What Register and Login do to the table of users.
use go_ticket_booking_app.Base.{
  true, sym, ap, ◌∙◌, ℕ, suc, ◌≤◌, ◌≡◌, ◌⊎◌, inl, inr, none, ◌∷◌, find, length, arith,
}
use go_ticket_booking_app.Base.Text.{Text, bytes}
use go_ticket_booking_app.Domain.{User}
use go_ticket_booking_app.Domain.Errors.{Error, driver, wrap, connection_lost}
use go_ticket_booking_app.World.{Env, World, Database, Result, ok, err}
use go_ticket_booking_app.World.Calls.{pool_query}
use go_ticket_booking_app.World.Logic.{After, Result-cases, weaken, bind-After}
use go_ticket_booking_app.Postgres.UserRepo
use go_ticket_booking_app.Postgres.UserRepo.{has_email, new_user, insert_user, user_violation}
use go_ticket_booking_app.Service.Auth.{
  AuthEnv, normalised, registered, issue_token, with_token, create_user, register,
}

module _ (auth : AuthEnv) (env : Env) where
  -- The row of a new account.
  abbrev pub account : Text → Text → Text → Text → ℕ → User
  account email hash first_name last_name t =
      new_user env t (registered email hash first_name last_name)

  -- The row is in the table, where its email was not.
  abbrev pub Added : User → Database → Database → Type 0
  Added row d d' =
      (find (has_email row.email) d.users ≡ none) × (d' ≡ record d { users = row ∷ d.users })

  module _ {S : Type 0} where
    pub create-After :
        (u : User) (w : World S)
        → let row = new_user env w.statements u in
          After
            (λ a w'. (a ≡ row) × Added row w.db w'.db × (w'.statements ≡ suc w.statements))
            (λ e w'.
              (w'.db ≡ w.db)
              ⊎ (Added row w.db w'.db
                  × (e ≡ wrap (bytes "create user: ") (driver connection_lost))))
            (UserRepo.create env u w)
    unfolding UserRepo.create pool_query insert_user
    create-After u w = ground arith

  module _ (raw password first_name last_name : Text) where
    -- Register has made the account, returns it, and has issued its token.
    abbrev pub Registered : ℕ → Database → User × Text → Database → Type 0
    Registered t d (u, token) d' =
        (8 ≤ length password)
        × ((hash : Text) × (auth.hash_password t password ≡ ok hash)
            × (u ≡ account (normalised auth raw) hash first_name last_name t)
            × Added (account (normalised auth raw) hash first_name last_name t) d d')
        × (issue_token auth (auth.clock (suc t)) u ≡ ok token)

    -- Register has failed: the table is as it was, unless the reply to the INSERT was lost or the
    -- token could not be signed.
    abbrev pub NotRegistered : ℕ → Database → Error → Database → Type 0
    NotRegistered t d e d' =
        (d' ≡ d)
        ⊎ ((hash : Text) × (auth.hash_password t password ≡ ok hash)
            × Added (account (normalised auth raw) hash first_name last_name t) d d'
            × ((e ≡ wrap (bytes "create user: ") (driver connection_lost))
                ⊎ (issue_token auth (auth.clock (suc t))
                      (account (normalised auth raw) hash first_name last_name t)
                    ≡ err e)))

    module _ {S : Type 0} where
      with_token-After :
          (hash : Text) (start : World S) (u : User) (w : World S)
          → 8 ≤ length password
          → auth.hash_password start.statements password ≡ ok hash
          → u ≡ account (normalised auth raw) hash first_name last_name start.statements
          → Added
              (account (normalised auth raw) hash first_name last_name start.statements)
              start.db
              w.db
          → w.statements ≡ suc start.statements
          → After
              (λ a w'. Registered start.statements start.db a w'.db)
              (λ e w'. NotRegistered start.statements start.db e w'.db)
              (with_token auth env u w)
      with_token-After hash start u w long hashed row made at =
          issued (issue_token auth (auth.clock w.statements) u)
            (ap (λ n. issue_token auth (auth.clock n) u) (sym at))
        where
          issued :
              (r : Result Text)
              → issue_token auth (auth.clock (suc start.statements)) u ≡ r
              → After {S = S}
                  (λ a w'. Registered start.statements start.db a w'.db)
                  (λ e w'. NotRegistered start.statements start.db e w'.db)
                  (elim r [ ok token ↦ (ok (u, token), w) | err e ↦ (err e, w) ])
          issued (ok token) h = (long, (hash, hashed, row, made), h)
          issued (err e) h = inr (
            hash,
            hashed,
            made,
            inr (ap (issue_token auth (auth.clock (suc start.statements))) (sym row) ∙ h),
          )

      create_user-After :
          (hash : Text) (w : World S)
          → 8 ≤ length password
          → auth.hash_password w.statements password ≡ ok hash
          → After
              (λ a w'. Registered w.statements w.db a w'.db)
              (λ e w'. NotRegistered w.statements w.db e w'.db)
              (create_user auth env (normalised auth raw) hash first_name last_name w)
      unfolding create_user
      create_user-After hash w long hashed =
          let start : User = registered (normalised auth raw) hash first_name last_name in
          let row : User = new_user env w.statements start in
          bind-After (λ a w'. (a ≡ row) × Added row w.db w'.db × (w'.statements ≡ suc w.statements))
            (λ a w'. Registered w.statements w.db a w'.db)
            (λ e w'. NotRegistered w.statements w.db e w'.db) (UserRepo.create env start)
            (with_token auth env) w
            (weaken (λ a w'. (a ≡ row) × Added row w.db w'.db × (w'.statements ≡ suc w.statements))
              (λ a w'. (a ≡ row) × Added row w.db w'.db × (w'.statements ≡ suc w.statements))
              (λ e w'.
                (w'.db ≡ w.db)
                ⊎ (Added row w.db w'.db
                    × (e ≡ wrap (bytes "create user: ") (driver connection_lost))))
              (λ e w'. NotRegistered w.statements w.db e w'.db) (UserRepo.create env start w)
              (create-After start w) (λ a w' h. h)
              (λ e w' h. elim h [
                | inl same ↦ inl same
                | inr (made, lost) ↦ inr (hash, hashed, made, inl lost)
              ]))
            (λ u w' (same, made, at). with_token-After hash w u w' long hashed same made at)

      -- A call that returns has sent an email that is a text.
      pub register-text :
          (w : World S)
          → After
              (λ _ _. env.is_text (normalised auth raw) ≡ true)
              (λ _ _. Unit {0})
              (register auth env raw password first_name last_name w)
      unfolding register create_user UserRepo.create pool_query insert_user user_violation
      register-text w = ground arith

      -- Register is one step: a call that returns found the email unknown, has added the account with
      -- the hash of a password of at least 8 bytes, and returns it with its token; a call that fails
      -- has changed no table, unless the reply to its INSERT was lost or the token could not be
      -- signed.
      pub register_atomic :
          (w : World S)
          → After
              (λ a w'. Registered w.statements w.db a w'.db)
              (λ e w'. NotRegistered w.statements w.db e w'.db)
              (register auth env raw password first_name last_name w)
      unfolding register
      register_atomic w = elim (Result-cases (auth.hash_password w.statements password)) [
        | inl (hash, hashed) ↦ ground (arith, create_user-After hash w)
        | inr (e, failed) ↦ ground arith
      ]
