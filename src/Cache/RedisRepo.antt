-- ===== src/Cache/RedisRepo.antt =====
-- internal/repository/cache/redis_repo.go, over the commands of the Redis server.
use go_ticket_booking_app.Base.{
  ℕ, suc, ◌==◌, Bool, true, false, Option, none, some, ◌++◌, if◌then◌else◌, length,
}
use go_ticket_booking_app.Base.Int.{ℤ, pos, ltb_ℤ, ◌-ℤ◌}
use go_ticket_booking_app.Base.Text.{Text, bytes, text_eq}
use go_ticket_booking_app.Base.Decimal.{itoa, atoi}
use go_ticket_booking_app.Domain.Errors.{sentinel, driver, wrap, lock_not_acquired, connection_lost}
use go_ticket_booking_app.World.{Delivery, delivered, lost_before, lost_after, Result, ok, err}
use go_ticket_booking_app.Cache.{Cache}
use go_ticket_booking_app.Cache.Redis.{Redis}

-- The keys of the server, and how many commands have been sent.
pub record Server (R : Type 0) : Type 0 where
  pub keys : R
  pub calls : ℕ

-- What the code does not implement, by the number of the command: whether it and its reply arrive,
-- uuid.New().String(), and the text of a UUID.
pub record RedisEnv : Type 0 where
  pub delivery : ℕ → Delivery
  pub new_token : ℕ → Text
  pub uuid_text : ℕ → Text

-- The Lua script of releaseLockScript, which the server runs as one command.
unfoldable pub release_script : {R : Type 0} → Redis R → Text → Text → R → ℕ × R
release_script redis key token r = elim (redis.get key r) [
  | none ↦ (0, r)
  | some held ↦ if text_eq held token then (1, redis.del key r) else (0, r)
]

-- The Lua script of slidingWindowScript.
unfoldable pub sliding_window_script : {R : Type 0} → Redis R → Text → ℕ → ℤ → ℕ → Text → R → ℕ × R
sliding_window_script redis key window limit now req_id r =
    let r' = redis.zremrangebyscore key (pos 0) (pos now -ℤ pos window) r in
    if ltb_ℤ (pos (length (redis.zset key r'))) limit
    then (1, redis.pexpire key window (redis.zadd key now req_id r'))
    else (0, r')

-- The reply of GET read by Int(): a key that is not there is an error too.
abbrev pub read_int : Option Text → ℤ × Bool
read_int none = (pos 0, false)
read_int (some t) = elim (atoi t) [ none ↦ (pos 0, false) | some n ↦ (n, true) ]

module _ {R : Type 0} where
  abbrev pub replied : {A : Type 0} → Delivery → (R → A × R) → Server R → Result A × Server R
  replied delivered f s = (ok (f s.keys).0, record s { keys = (f s.keys).1 })
  replied lost_before f s = (err (driver connection_lost), s)
  replied lost_after f s = (err (driver connection_lost), record s { keys = (f s.keys).1 })

  -- One command, sent and replied to.
  abbrev pub command : {A : Type 0} → RedisEnv → (R → A × R) → Server R → Result A × Server R
  command env f s = replied (env.delivery s.calls) f (record s { calls = suc s.calls })

  abbrev pub acquired : Text → Text → Result Bool × Server R → Result Text × Server R
  acquired key token (err e, s) = (err (wrap (bytes "acquire lock " ++ (key ++ bytes ": ")) e), s)
  acquired key token (ok false, s) = (err (sentinel lock_not_acquired), s)
  acquired key token (ok true, s) = (ok token, s)

  abbrev pub ended : {A : Type 0} → Result A × Server R → Result (Unit {0}) × Server R
  ended (ok _, s) = (ok tt, s)
  ended (err e, s) = (err e, s)

  abbrev pub allowed : Result ℕ × Server R → Result Bool × Server R
  allowed (err e, s) = (err (wrap (bytes "rate limit script: ") e), s)
  allowed (ok res, s) = (ok (res == 1), s)

  abbrev pub availability : Result (Option Text) × Server R → (ℤ × Bool) × Server R
  availability (err _, s) = ((pos 0, false), s)
  availability (ok o, s) = (read_int o, s)

module _ {R : Type 0} (redis : Redis R) (env : RedisEnv) where
  -- RedisRepo.AcquireLock
  unfoldable pub acquire_lock : Text → ℕ → Server R → Result Text × Server R
  acquire_lock key ttl s =
      let token = env.new_token s.calls in
      acquired key token (command env (redis.set_nx key token ttl) s)

  -- RedisRepo.ReleaseLock
  unfoldable pub release_lock : Text → Text → Server R → Result (Unit {0}) × Server R
  release_lock key token s = ended (command env (release_script redis key token) s)

  -- eventCacheKey
  abbrev pub event_cache_key : ℕ → Text
  event_cache_key event_id = bytes "event:avail:" ++ env.uuid_text event_id

  -- RedisRepo.CacheAvailability
  unfoldable pub cache_availability : ℕ → ℤ → ℕ → Server R → Result (Unit {0}) × Server R
  cache_availability event_id remaining ttl s =
      ended (command env (λ r. (tt, redis.set (event_cache_key event_id) (itoa remaining) ttl r)) s)

  -- RedisRepo.GetAvailability
  unfoldable pub get_availability : ℕ → Server R → (ℤ × Bool) × Server R
  get_availability event_id s =
      availability (command env (λ r. (redis.get (event_cache_key event_id) r, r)) s)

  -- RedisRepo.InvalidateEvent
  unfoldable pub invalidate_event : ℕ → Server R → Server R
  invalidate_event event_id s =
      (command {A = Unit {0}} env (λ r. (tt, redis.del (event_cache_key event_id) r)) s).1

  -- RedisRepo.Allow
  unfoldable pub allow : Text → ℕ → ℤ → ℕ → Server R → Result Bool × Server R
  allow key window limit now s =
      allowed
        (command env (sliding_window_script redis key window limit now (env.new_token s.calls)) s)

  -- What the services call of RedisRepo.
  unfoldable pub redis_cache : Cache (Server R)
  redis_cache = record {
    acquire_lock = acquire_lock;
    release_lock = release_lock;
    invalidate_event = invalidate_event;
  }
