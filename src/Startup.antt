-- ===== src/Startup.antt =====
-- cmd/api/main.go, NewPool and RunMigrations of internal/repository/postgres/db.go, NewRedisRepo and
-- Close of internal/repository/cache/redis_repo.go. What the libraries answer is a parameter; what
-- the process asks of them, and writes to its log, is a trace, oldest entry first.
pub mod Readiness
mod Tests
use go_ticket_booking_app.Base.{Option, none, some, List, [], ◌∷◌, ◌++◌, if◌then◌else◌}
use go_ticket_booking_app.Base.Int.{ℤ}
use go_ticket_booking_app.Base.Text.{Text, bytes, text_eq}
use go_ticket_booking_app.Domain.Errors.{Error, wrap}
use go_ticket_booking_app.World.{Result, ok, err}
use go_ticket_booking_app.Config.{Process, Config, DatabaseConfig, RedisConfig, load}

-- How m.Up ends: migrations were applied, there were none, or one failed.
pub data Upgrade : Type 0 where
  applied no_change : Upgrade
  broke : Error → Upgrade

-- What ends the wait of main: SIGINT or SIGTERM, or an error of ListenAndServe other than
-- http.ErrServerClosed.
pub data Stop : Type 0 where
  signalled : Stop
  server_failed : Error → Stop

-- The environment, the file .env, and the answers of pgx, golang-migrate, go-redis and net/http. A nil
-- error is `none`.
pub record Host : Type 0 where
  pub process : Process
  pub dotenv : Process → Process
  pub parse_config : Text → Option Error
  pub new_with_config : ℤ → ℤ → ℤ → Option Error
  pub ping_pool : Option Error
  pub migrate_new : Text → Text → Option Error
  pub up : Upgrade
  pub close_migrate : Option Error × Option Error
  pub parse_url : Text → Option Error
  pub ping_redis : ℤ → Option Error
  pub stop : Stop
  pub shutdown : Option Error

pub data Effect : Type 0 where
  -- pools of at most, and at least, so many connections, and their lifetime
  pool_opened : ℤ → ℤ → ℤ → Effect
  pool_closed migrate_opened migrate_closed redis_closed : Effect
  -- the number of the database of Redis
  redis_opened : ℤ → Effect
  -- ListenAndServe at an address, and Shutdown
  server_started : Text → Effect
  server_shut_down : Effect
  info : Text → Effect
  error fatal : Text → Error → Effect

-- What a function returns, and what it has done.
abbrev pub Traced {ℓ} : Type ℓ → Type ℓ
Traced A = A × List Effect

abbrev log_error : Text → Option Error → List Effect
log_error msg none = []
log_error msg (some e) = error msg e ∷ []

module _ (host : Host) where
  -- NewPool once the pool is there.
  abbrev pinged : DatabaseConfig → Traced (Option Error)
  pinged c = elim host.ping_pool [
    | some e ↦ (
      some (wrap (bytes "ping db: ") e),
      pool_opened c.max_conns c.min_conns c.max_conn_lifetime ∷ pool_closed ∷ [],
    )
    | none ↦ (
      none,
      pool_opened c.max_conns c.min_conns c.max_conn_lifetime
          ∷ info (bytes "postgres pool connected")
          ∷ [],
    )
  ]

  -- NewPool
  unfoldable pub new_pool : DatabaseConfig → Traced (Option Error)
  new_pool c = elim (host.parse_config c.url) [
    | some e ↦ (some (wrap (bytes "parse db config: ") e), [])
    | none ↦ elim (host.new_with_config c.max_conns c.min_conns c.max_conn_lifetime) [
      | some e ↦ (some (wrap (bytes "create pool: ") e), [])
      | none ↦ pinged c
    ]
  ]

  -- The deferred closing of RunMigrations.
  abbrev close_migrate_lines : List Effect
  close_migrate_lines =
      migrate_closed
      ∷ (log_error (bytes "migrate close source error") host.close_migrate.0
          ++ log_error (bytes "migrate close db error") host.close_migrate.1)

  -- RunMigrations
  unfoldable pub run_migrations : Text → Text → Traced (Option Error)
  run_migrations dsn path = elim (host.migrate_new (bytes "file://" ++ path) dsn) [
    | some e ↦ (some (wrap (bytes "init migrate: ") e), [])
    | none ↦ elim host.up [
      | broke e ↦ (some (wrap (bytes "run migrations: ") e), migrate_opened ∷ close_migrate_lines)
      | _ ↦
          (none, migrate_opened ∷ info (bytes "database migrations applied") ∷ close_migrate_lines)
    ]
  ]

  -- NewRedisRepo
  unfoldable pub new_redis_repo : RedisConfig → Traced (Option Error)
  new_redis_repo c = elim (host.parse_url c.url) [
    | some e ↦ (some (wrap (bytes "parse redis url: ") e), [])
    | none ↦ elim (host.ping_redis c.db) [
      | some e ↦ (some (wrap (bytes "redis ping: ") e), redis_opened c.db ∷ [])
      | none ↦ (none, redis_opened c.db ∷ [])
    ]
  ]

  -- migrationsDir, after godotenv.Load
  abbrev pub migrations_dir : Process → Text
  migrations_dir p =
      let v = p.getenv (bytes "MIGRATIONS_PATH") in if text_eq v [] then bytes "migrations" else v

  -- `if err != nil { log.Fatal()… }`, which ends the process, else what follows.
  abbrev or_fatal : Text → Traced (Option Error) → List Effect → List Effect
  or_fatal msg (none, done) rest = done ++ rest
  or_fatal msg (some e, done) rest = done ++ (fatal msg e ∷ [])

  -- The deferred calls of main, once Redis is connected, in the order in which they run.
  abbrev close_all : List Effect
  close_all = redis_closed ∷ pool_closed ∷ []

  -- main from the start of the server on. A failed server ends the process at once.
  abbrev serve_until : Stop → Text → List Effect
  serve_until (server_failed e) addr =
      server_started addr ∷ info (bytes "server starting") ∷ fatal (bytes "server error") e ∷ []
  serve_until signalled addr =
      server_started addr
      ∷ info (bytes "server starting")
      ∷ info (bytes "shutdown signal received")
      ∷ server_shut_down
      ∷ (log_error (bytes "graceful shutdown failed") host.shutdown
          ++ (info (bytes "server stopped") ∷ close_all))

  -- main once the configuration is loaded.
  unfoldable pub connect : Process → Config → List Effect
  connect p c = or_fatal (bytes "database connection failed") (new_pool c.database) (
      or_fatal (bytes "migrations failed") (run_migrations c.database.url (migrations_dir p)) (
        or_fatal (bytes "redis connection failed") (new_redis_repo c.redis)
          (serve_until host.stop (b':' ∷ c.server.port))))

  abbrev configured_or_fatal : Process → Result Config → List Effect
  configured_or_fatal p (err e) = fatal (bytes "config load failed") e ∷ []
  configured_or_fatal p (ok c) = connect p c

  -- main
  unfoldable pub main : List Effect
  main = let p = host.dotenv host.process in configured_or_fatal p (load p)
