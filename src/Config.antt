-- ===== src/Config.antt =====
-- internal/config/config.go. The environment variables and time.ParseDuration are parameters.
pub mod Loading
mod Tests
use go_ticket_booking_app.Base.{Option, none, some, List, [], ◌∷◌, ◌++◌, ltb, if◌then◌else◌, length}
use go_ticket_booking_app.Base.Int.{ℤ, pos, wrap32}
use go_ticket_booking_app.Base.Text.{Text, bytes, text_eq}
use go_ticket_booking_app.Base.Strings.{join}
use go_ticket_booking_app.Base.Decimal.{atoi}
use go_ticket_booking_app.Domain.Errors.{message}
use go_ticket_booking_app.World.{Result, ok, err}

-- os.Getenv, empty where a variable is not set, and time.ParseDuration, in nanoseconds.
pub record Process : Type 0 where
  pub getenv : Text → Text
  pub parse_duration : Text → Option ℤ

pub record ServerConfig : Type 0 where
  pub port : Text
  pub read_timeout : ℤ
  pub write_timeout : ℤ
  pub idle_timeout : ℤ

pub record DatabaseConfig : Type 0 where
  pub url : Text
  pub max_conns : ℤ
  pub min_conns : ℤ
  pub max_conn_lifetime : ℤ

pub record RedisConfig : Type 0 where
  pub url : Text
  pub db : ℤ

pub record JwtConfig : Type 0 where
  pub secret : Text
  pub expiration : ℤ

pub record Config : Type 0 where
  pub server : ServerConfig
  pub database : DatabaseConfig
  pub redis : RedisConfig
  pub jwt : JwtConfig

-- The value that was parsed, if any.
abbrev or_else : Option ℤ → ℤ → ℤ
or_else none fallback = fallback
or_else (some n) fallback = n

module _ (process : Process) where
  -- getEnv
  abbrev pub get_env : Text → Text → Text
  get_env key fallback = let v = process.getenv key in if text_eq v [] then fallback else v

  -- getInt
  abbrev pub get_int : Text → ℤ → ℤ
  get_int key fallback =
      let v = process.getenv key in if text_eq v [] then fallback else or_else (atoi v) fallback

  -- getDuration
  abbrev pub get_duration : Text → ℤ → ℤ
  get_duration key fallback =
      let v = process.getenv key in
      if text_eq v [] then fallback else or_else (process.parse_duration v) fallback

  -- The closure `require` of Load, with the list that it appends to.
  abbrev pub require : Text → List Text → Text × List Text
  require key missing =
      let v = process.getenv key in (v, if text_eq v [] then missing ++ (key ∷ []) else missing)

  -- The &Config{…} of Load, of the values that `require` returned.
  abbrev pub configured : (url secret : Text) → Config
  configured url secret = record {
    server = record {
      port = get_env (bytes "PORT") (bytes "8080");
      read_timeout = get_duration (bytes "SERVER_READ_TIMEOUT") (pos 15000000000);
      write_timeout = get_duration (bytes "SERVER_WRITE_TIMEOUT") (pos 15000000000);
      idle_timeout = get_duration (bytes "SERVER_IDLE_TIMEOUT") (pos 60000000000);
    };
    database = record {
      url = url;
      max_conns = wrap32 (get_int (bytes "DB_MAX_CONNS") (pos 10));
      min_conns = wrap32 (get_int (bytes "DB_MIN_CONNS") (pos 2));
      max_conn_lifetime = get_duration (bytes "DB_MAX_CONN_LIFETIME") (pos 1800000000000);
    };
    redis = record {
      url = get_env (bytes "REDIS_URL") (bytes "redis://localhost:6379");
      db = get_int (bytes "REDIS_DB") (pos 0);
    };
    jwt = record {
      secret = secret;
      expiration = get_duration (bytes "JWT_EXPIRATION") (pos 86400000000000);
    };
  }

  -- Load
  unfoldable pub load : Result Config
  load =
      let (url, missing) = require (bytes "DATABASE_URL") [] in
      let (secret, missing) = require (bytes "JWT_SECRET") missing in
      if ltb 0 (length missing)
      then err
          (message (bytes "missing required environment variables: " ++ join (bytes ", ") missing))
      else ok (configured url secret)
