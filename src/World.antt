-- ===== src/World.antt =====
-- The state that the services act on, and their calls as a monad: a context.Context and an error
-- result become state and exception. `S` is the state of the cache server (internal/repository/cache).
pub mod Calls
pub mod Logic
pub mod Transactions
use go_ticket_booking_app.Base.{ℕ, Bool, List}
use go_ticket_booking_app.Base.Text.{Text}
use go_ticket_booking_app.Domain.{User, Event, Booking, AuditLog, Value}
use go_ticket_booking_app.Domain.Errors.{Error}

-- The tables of migrations/001 to 004, newest row first.
pub record Database : Type 0 where
  pub users : List User
  pub events : List Event
  pub bookings : List Booking
  pub audit_logs : List AuditLog

-- The connection that BeginTx opens: no transaction, one with its own view of the tables, or one
-- that a failed statement has aborted.
pub data Session : Type 0 where
  idle : Session
  active : Database → Session
  failed : Session

-- What becomes of a call of the database server: the reply arrives, the call is lost before it
-- runs, or it runs and the reply is lost.
pub data Delivery : Type 0 where
  delivered lost_before lost_after : Delivery

-- What the code does not implement. The functions of a number are given the number of statements
-- sent so far.
pub record Env : Type 0 where
  pub delivery : ℕ → Delivery
  -- NOW() and gen_random_uuid()
  pub now : ℕ → ℕ
  pub new_uuid : ℕ → ℕ
  -- whether a text fits VARCHAR(n) or TEXT, is an address of type INET, and matches the format
  -- of users_email_format
  pub varchar : ℕ → Text → Bool
  pub is_text : Text → Bool
  pub inet : Text → Bool
  pub email_format : Text → Bool
  -- uuid.UUID's String and the JSON of a time.Time
  pub uuid_text : ℕ → Text
  pub time_text : ℕ → Text
  -- fmt's %v of a value of a state map
  pub value_text : Value → Text

pub record World (S : Type 0) : Type 0 where
  pub db : Database
  pub session : Session
  pub statements : ℕ
  pub cache : S

pub data Result {ℓ} (A : Type ℓ) : Type ℓ where
  ok : A → Result A
  err : Error → Result A

abbrev pub M : Type 0 → Type 0 → Type 0
M S A = World S → Result A × World S

module _ {S A : Type 0} where
  abbrev pub pure : A → M S A
  pure a w = (ok a, w)

  abbrev pub raise : Error → M S A
  raise e w = (err e, w)

  abbrev pub lift : Result A → M S A
  lift r w = (r, w)

infixl 5 ◌>>=◌ ◌>>◌
abbrev pub ◌>>=◌ : {S A B : Type 0} → M S A → (A → M S B) → M S B
◌>>=◌ m f w = let (r, w') = m w in elim r [ ok a ↦ f a w' | err e ↦ (err e, w') ]

abbrev pub ◌>>◌ : {S A B : Type 0} → M S A → M S B → M S B
m >> k = m >>= λ _. k

module _ {S A : Type 0} where
  -- `if err != nil { return f(err) }`
  abbrev pub on_error : (Error → Error) → M S A → M S A
  on_error f m w = let (r, w') = m w in elim r [ ok a ↦ (ok a, w') | err e ↦ (err (f e), w') ]

  -- `defer cleanup()`, whose own error is dropped.
  abbrev pub deferred : {B : Type 0} → M S B → M S A → M S A
  deferred cleanup m w = let (r, w') = m w in (r, (cleanup w').1)

  -- A call whose error is dropped, `//nolint:errcheck`.
  abbrev pub ignored : M S A → M S (Unit {0})
  ignored m w = (ok tt, (m w).1)

  -- A call that acts on the cache server alone.
  abbrev pub on_cache : (S → Result A × S) → M S A
  on_cache f w = let (r, s) = f w.cache in (r, record w { cache = s })
