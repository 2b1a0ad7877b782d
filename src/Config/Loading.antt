-- ===== src/Config/Loading.antt =====
-- What Load returns.
use mathlib.Core.Path.{subst}
use go_ticket_booking_app.Base.{
  ◌≡◌, ◌≢◌, refl, ◌⊎◌, inl, inr, Bool, true, false, List, [], ◌∷◌, ◌++◌, some, filter, arith,
  Bool-cases,
}
use go_ticket_booking_app.Base.Int.{ℤ, pos, negsuc, is_int32, wrap32}
use go_ticket_booking_app.Base.Text.{Text, bytes, text_eq, text_eq→eq}
use go_ticket_booking_app.Base.Strings.{join}
use go_ticket_booking_app.Base.Decimal.{itoa, atoi, atoi-itoa_pos, atoi-itoa_neg}
use go_ticket_booking_app.Domain.Errors.{message}
use go_ticket_booking_app.World.{ok, err}
use go_ticket_booking_app.Config.{Process, Config, configured, load}

-- The variables without which the server does not start.
abbrev pub required : List Text
required = bytes "DATABASE_URL" ∷ bytes "JWT_SECRET" ∷ []

abbrev pub unset : Process → Text → Bool
unset process key = text_eq (process.getenv key) []

-- Load returns a configuration, with the URL of the database and the secret that are set, exactly
-- when no required variable is missing or empty; else it fails, and the error names every one that is
-- missing, in order.
pub load_exact :
    (process : Process)
    → let missing = filter (unset process) required in
      ((missing ≡ [])
        × ((config : Config) × (load process ≡ ok config)
            × (config.database.url ≡ process.getenv (bytes "DATABASE_URL"))
            × (config.jwt.secret ≡ process.getenv (bytes "JWT_SECRET"))))
      ⊎ ((missing ≢ [])
          × (load process
              ≡ err (
                  message (
                    bytes "missing required environment variables: "
                    ++ join (bytes ", ") missing))))
unfolding load
load_exact process =
    let url = process.getenv (bytes "DATABASE_URL") in
    let secret = process.getenv (bytes "JWT_SECRET") in
    elim (Bool-cases (text_eq url [])) [
      | inl no_url ↦ elim (Bool-cases (text_eq secret [])) [
        | inl no_secret ↦ inr (λ e. ground arith, ground arith)
        | inr has_secret ↦ inr (λ e. ground arith, ground arith)
      ]
      | inr has_url ↦ elim (Bool-cases (text_eq secret [])) [
        | inl no_secret ↦ inr (λ e. ground arith, ground arith)
        | inr has_secret ↦
            inl (ground arith, (configured process url secret, ground arith, refl, refl))
      ]
    ]

wrap32_lem : (n : ℤ) → is_int32 n ≡ true → wrap32 n ≡ n
unfolding wrap32
wrap32_lem (pos n) h = ground arith
wrap32_lem (negsuc n) h = ground arith

atoi_lem : (n : ℤ) → is_int32 n ≡ true → atoi (itoa n) ≡ some n
atoi_lem (pos n) h = atoi-itoa_pos n (ground arith)
atoi_lem (negsuc n) h = atoi-itoa_neg n (ground arith)

itoa_lem : (n : ℤ) → is_int32 n ≡ true → text_eq (itoa n) [] ≡ false
unfolding atoi
itoa_lem n small = elim (Bool-cases (text_eq (itoa n) [])) [
  | inl empty ↦
      let parsed : atoi [] ≡ some n =
        subst (λ s. atoi s ≡ some n) (text_eq→eq (itoa n) [] empty) (atoi_lem n small) in
      absurd (ground (arith, parsed))
  | inr some_digits ↦ some_digits
]

-- The decimal text of any number of 32 bits in DB_MAX_CONNS, the sign included, is the MaxConns that
-- Load returns, when it returns.
pub load_max_conns :
    (process : Process) (n : ℤ) (config : Config)
    → is_int32 n ≡ true
    → process.getenv (bytes "DB_MAX_CONNS") ≡ itoa n
    → load process ≡ ok config
    → config.database.max_conns ≡ n
unfolding load
load_max_conns process n config small given loaded =
    ground (arith, wrap32_lem n small, itoa_lem n small, atoi_lem n small)
