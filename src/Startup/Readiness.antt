-- ===== src/Startup/Readiness.antt =====
-- When the server starts, and what it leaves behind.
use go_ticket_booking_app.Base.{
  ℕ, suc, ◌≡◌, ◌↔◌, inl, inr, Bool, true, false, none, List, [], ◌∷◌, ◌++◌, if◌then◌else◌, arith,
}
use go_ticket_booking_app.Base.Text.{bytes}
use go_ticket_booking_app.World.{ok}
use go_ticket_booking_app.World.Logic.{Result-cases}
use go_ticket_booking_app.Config.{Process, Config, load}
use go_ticket_booking_app.Startup.{
  Host, Upgrade, broke, signalled, Effect, pool_opened, pool_closed, migrate_opened, migrate_closed,
  redis_opened, redis_closed, server_started, new_pool, run_migrations, new_redis_repo,
  migrations_dir, connect, main,
}

-- Whether the server was started.
abbrev pub has_started : List Effect → Bool
has_started [] = false
has_started (server_started addr ∷ trace) = true
has_started (x ∷ trace) = has_started trace

abbrev pub Upgraded : Upgrade → Type 0
Upgraded (broke e) = ⊥
Upgraded u = Unit

-- Everything that main asks for answers without an error.
pub record Ready (host : Host) (p : Process) (c : Config) : Type 0 where
  pub loaded : load p ≡ ok c
  pub pool_parsed : host.parse_config c.database.url ≡ none
  pub pool_made :
      host.new_with_config c.database.max_conns c.database.min_conns c.database.max_conn_lifetime
      ≡ none
  pub pool_answers : host.ping_pool ≡ none
  pub migrations_found :
      host.migrate_new (bytes "file://" ++ migrations_dir host p) c.database.url ≡ none
  pub upgraded : Upgraded host.up
  pub redis_parsed : host.parse_url c.redis.url ≡ none
  pub redis_answers : host.ping_redis c.redis.db ≡ none

module _ (host : Host) where
  connect-Ready :
      (p : Process) (c : Config)
      → load p ≡ ok c
      → has_started (connect host p c) ≡ true
      → Ready host p c
  unfolding connect new_pool run_migrations new_redis_repo
  connect-Ready p c e h = record {
    loaded = e;
    pool_parsed = ground arith;
    pool_made = ground arith;
    pool_answers = ground arith;
    migrations_found = ground arith;
    upgraded = ground arith;
    redis_parsed = ground arith;
    redis_answers = ground arith;
  }

  Ready-connect :
      (p : Process) (c : Config) → Ready host p c → has_started (connect host p c) ≡ true
  unfolding connect new_pool run_migrations new_redis_repo
  Ready-connect p c r = ground (
    arith, r.pool_parsed, r.pool_made, r.pool_answers, r.migrations_found, r.upgraded,
    r.redis_parsed, r.redis_answers,
  )

  -- main starts the server exactly when the configuration is complete and the pool, the migrations
  -- and Redis answer without an error.
  pub starts_exact :
      (has_started (main host) ≡ true) ↔ ((c : Config) × Ready host (host.dotenv host.process) c)
  unfolding main
  starts_exact = (starts, ready)
    where
      p : Process
      p = host.dotenv host.process

      starts : has_started (main host) ≡ true → (c : Config) × Ready host p c
      starts h = elim (Result-cases (load p)) [
        | inl (c, loaded) ↦ (c, connect-Ready p c loaded (ground arith))
        | inr (e, missing) ↦ absurd (ground arith)
      ]

      ready : (c : Config) × Ready host p c → has_started (main host) ≡ true
      ready (c, r) = rw r.loaded (Ready-connect p c r)

abbrev pub opens_pool : Effect → Bool
opens_pool (pool_opened x y z) = true
opens_pool x = false

abbrev pub closes_pool : Effect → Bool
closes_pool pool_closed = true
closes_pool x = false

abbrev pub opens_migrate : Effect → Bool
opens_migrate migrate_opened = true
opens_migrate x = false

abbrev pub closes_migrate : Effect → Bool
closes_migrate migrate_closed = true
closes_migrate x = false

abbrev pub opens_redis : Effect → Bool
opens_redis (redis_opened db) = true
opens_redis x = false

abbrev pub closes_redis : Effect → Bool
closes_redis redis_closed = true
closes_redis x = false

-- How often a trace does something.
abbrev pub times : (Effect → Bool) → List Effect → ℕ
times p [] = 0
times p (x ∷ trace) = if p x then suc (times p trace) else times p trace

-- Each of the three connections was opened once and closed once.
abbrev pub EachOnce : List Effect → Type 0
EachOnce trace =
    (times opens_pool trace ≡ 1)
    × (times closes_pool trace ≡ 1)
    × (times opens_migrate trace ≡ 1)
    × (times closes_migrate trace ≡ 1)
    × (times opens_redis trace ≡ 1)
    × (times closes_redis trace ≡ 1)

module _ (host : Host) where
  connect-closes :
      (p : Process) (c : Config)
      → Ready host p c
      → host.stop ≡ signalled
      → EachOnce (connect host p c)
  unfolding connect new_pool run_migrations new_redis_repo
  connect-closes p c r s = ground (
    arith, r.pool_parsed, r.pool_made, r.pool_answers, r.migrations_found, r.upgraded,
    r.redis_parsed, r.redis_answers,
  )

  -- A process that has started its server and is then told to stop by a signal has opened the pool,
  -- the connection of the migrations and that of Redis once each, and has closed each of them once.
  pub signal_closes_all :
      has_started (main host) ≡ true → host.stop ≡ signalled → EachOnce (main host)
  unfolding main
  signal_closes_all h s =
      let (c, r) = (starts_exact host).0 h in
      rw r.loaded (connect-closes (host.dotenv host.process) c r s)
