-- ===== src/Service/Auth/Users.antt =====
-- Sequences of calls of the authentication service: what they do to the table of users.
use mathlib.Core.Path.{subst}
use go_ticket_booking_app.Base.{
  ℕ, ◌≡◌, refl, sym, ap, ◌∙◌, inl, inr, none, List, [], ◌∷◌, ◌++◌, All, find, arith,
}
use go_ticket_booking_app.Base.Text.{Text}
use go_ticket_booking_app.Domain.{User}
use go_ticket_booking_app.Domain.Role
use go_ticket_booking_app.World.{Env, World, Database, Result, ok, err}
use go_ticket_booking_app.World.Calls.{pool_query}
use go_ticket_booking_app.World.Logic.{After}
use go_ticket_booking_app.Postgres.UserRepo
use go_ticket_booking_app.Postgres.UserRepo.{has_email, select_user_by_email}
use go_ticket_booking_app.Service.Auth.{AuthEnv, normalised, register, login_user, login}
use go_ticket_booking_app.Service.Auth.Accounts.{
  account, Added, Registered, NotRegistered, register_atomic,
}

-- No two users have the same email, as users_email_unique demands.
abbrev pub DistinctEmails : List User → Type 0
DistinctEmails [] = Unit {0}
DistinctEmails (u ∷ us) = (find (has_email u.email) us ≡ none) × DistinctEmails us

-- A call of the service that reaches the database.
pub data AuthCall : Type 0 where
  registers : (email password first_name last_name : Text) → AuthCall
  logs_in : (email password : Text) → AuthCall

-- The later table has the rows of the earlier one unchanged, and before them new rows, all with the
-- role of a user.
abbrev pub Extends : List User → List User → Type 0
Extends us us' = (new : List User) × (us' ≡ new ++ us) × All (λ u. u.role ≡ Role.user) new

abbrev Grown : List User → List User → Type 0
Grown us us' = (DistinctEmails us → DistinctEmails us') × Extends us us'

Added-Grown :
    (auth : AuthEnv) (env : Env) (email hash first_name last_name : Text) (t : ℕ) (d d' : Database)
    → Added auth env (account auth env email hash first_name last_name t) d d'
    → Grown d.users d'.users
Added-Grown auth env email hash first_name last_name t d d' (unknown, added) =
    subst (λ x. Grown d.users x.users) (sym added)
      (
        λ distinct. (unknown, distinct),
        (account auth env email hash first_name last_name t ∷ [], refl, (refl, tt)),
      )

Grown-same : (d d' : Database) → d' ≡ d → Grown d.users d'.users
Grown-same d d' same =
    subst (λ x. Grown d.users x.users) (sym same) (λ distinct. distinct, ([], refl, tt))

All-append {ℓ κ} :
    {A : Type ℓ} (P : A → Type κ) (xs ys : List A) → All P xs → All P ys → All P (xs ++ ys)
All-append P [] ys p q = q
All-append P (x ∷ xs) ys p q = (p.0, All-append P xs ys p.1 q)

append_assoc {ℓ} : {A : Type ℓ} (xs ys zs : List A) → xs ++ (ys ++ zs) ≡ (xs ++ ys) ++ zs
append_assoc [] ys zs = refl
append_assoc (x ∷ xs) ys zs = ap (λ l. x ∷ l) (append_assoc xs ys zs)

Grown-trans : (us vs ws : List User) → Grown us vs → Grown vs ws → Grown us ws
Grown-trans us vs ws (d, (new, e, plain)) (d', (new', e', plain')) = (
  λ distinct. d' (d distinct),
  (
    new' ++ new,
    e' ∙ (ap (λ l. new' ++ l) e ∙ append_assoc new' new us),
    All-append (λ u. u.role ≡ Role.user) new' new plain' plain,
  ),
)

module _ (auth : AuthEnv) (env : Env) {S : Type 0} where
  unfoldable pub after_call : AuthCall → World S → World S
  after_call (registers email password first_name last_name) w =
      (register auth env email password first_name last_name w).1
  after_call (logs_in email password) w = (login auth env email password w).1

  unfoldable pub after_calls : List AuthCall → World S → World S
  after_calls [] w = w
  after_calls (c ∷ cs) w = after_calls cs (after_call c w)

  pub login-db : (raw password : Text) (w : World S) → (login auth env raw password w).1.db ≡ w.db
  unfolding login login_user UserRepo.get_by_email pool_query select_user_by_email
  login-db raw password w = ground arith

  register-Grown :
      (raw password first_name last_name : Text) (w : World S)
      → Grown w.db.users (register auth env raw password first_name last_name w).1.db.users
  register-Grown raw password first_name last_name w =
      grown (register auth env raw password first_name last_name w)
        (register_atomic auth env raw password first_name last_name w)
    where
      grown :
          (r : Result (User × Text) × World S)
          → After
              (λ a w'.
                Registered auth env raw password first_name last_name w.statements w.db a w'.db)
              (λ e w'.
                NotRegistered auth env raw password first_name last_name w.statements w.db e w'.db)
              r
          → Grown w.db.users r.1.db.users
      grown (ok (u, token), w') (long, (hash, hashed, row, made), issued) =
          Added-Grown auth env (normalised auth raw) hash first_name last_name w.statements w.db
            w'.db made
      grown (err e, w') (inl same) = Grown-same w.db w'.db same
      grown (err e, w') (inr (hash, hashed, made, why)) =
          Added-Grown auth env (normalised auth raw) hash first_name last_name w.statements w.db
            w'.db made

  after_call-Grown : (c : AuthCall) (w : World S) → Grown w.db.users (after_call c w).db.users
  unfolding after_call
  after_call-Grown (registers email password first_name last_name) w =
      register-Grown email password first_name last_name w
  after_call-Grown (logs_in email password) w =
      Grown-same w.db (login auth env email password w).1.db (login-db email password w)

  after_calls-Grown :
      (cs : List AuthCall) (w : World S) → Grown w.db.users (after_calls cs w).db.users
  unfolding after_calls
  after_calls-Grown [] w = Grown-same w.db w.db refl
  after_calls-Grown (c ∷ cs) w =
      Grown-trans w.db.users (after_call c w).db.users (after_calls cs (after_call c w)).db.users
        (after_call-Grown c w) (after_calls-Grown cs (after_call c w))

  -- Where no two users have the same email at the start, none have after any sequence of
  -- registrations and logins, whatever fails on the way; no row that was there has changed, and every
  -- account that was added has the role of a user, never that of an admin.
  pub accounts_grow :
      (cs : List AuthCall) (w : World S)
      → DistinctEmails w.db.users
      → DistinctEmails (after_calls cs w).db.users × Extends w.db.users (after_calls cs w).db.users
  accounts_grow cs w distinct =
      let (kept, extended) = after_calls-Grown cs w in (kept distinct, extended)
