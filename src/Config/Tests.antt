-- ===== src/Config/Tests.antt =====
-- Load with and without its variables.
use go_ticket_booking_app.Base.{◌≡◌, ◌≢◌, refl, ◌⊎◌, none, [], ◌++◌, filter, if◌then◌else◌}
use go_ticket_booking_app.Base.Int.{pos, wrap32}
use go_ticket_booking_app.Base.Text.{bytes, text_eq}
use go_ticket_booking_app.Base.Strings.{join}
use go_ticket_booking_app.Base.Decimal.{itoa}
use go_ticket_booking_app.Domain.Errors.{message}
use go_ticket_booking_app.World.{ok, err}
use go_ticket_booking_app.Config.{Process, Config, load}
use go_ticket_booking_app.Config.Loading.{required, unset, load_exact}

-- The two required variables, and a number of connections.
abbrev process : Process
process = record {
  getenv = λ key.
      if text_eq key (bytes "DATABASE_URL")
      then bytes "postgres://db"
      else (if text_eq key (bytes "JWT_SECRET")
          then bytes "secret"
          else (if text_eq key (bytes "DB_MAX_CONNS") then itoa (pos 40) else []));
  parse_duration = λ _. none;
}

-- A number of connections beyond 32 bits wraps around.
get_int_wraps : wrap32 (pos 4294967306) ≡ pos 10
unfolding wrap32
get_int_wraps = refl

abbrev empty : Process
empty = record { getenv = λ _. []; parse_duration = λ _. none }

load-empty :
    load empty
    ≡ err (message (bytes "missing required environment variables: DATABASE_URL, JWT_SECRET"))
unfolding load
load-empty = refl

load_exact_example :
    let missing = filter (unset process) required in
    ((missing ≡ [])
      × ((config : Config) × (load process ≡ ok config)
          × (config.database.url ≡ process.getenv (bytes "DATABASE_URL"))
          × (config.jwt.secret ≡ process.getenv (bytes "JWT_SECRET"))))
    ⊎ ((missing ≢ [])
        × (load process
            ≡ err (
                message
                  (bytes "missing required environment variables: " ++ join (bytes ", ") missing))))
load_exact_example = load_exact process
