-- ===== src/Cache.antt =====
-- internal/repository/cache as its clients see it: the distributed lock and the availability cache.
pub mod Redis
pub mod RedisRepo
pub mod Lock
pub mod Window
pub mod Availability
pub mod Memory
mod Tests
use go_ticket_booking_app.Base.{ℕ}
use go_ticket_booking_app.Base.Text.{Text}
use go_ticket_booking_app.World.{Result}

-- What the services call of RedisRepo, over the state of the cache server.
pub record Cache (S : Type 0) : Type 0 where
  pub acquire_lock : Text → ℕ → S → Result Text × S
  pub release_lock : Text → Text → S → Result (Unit {0}) × S
  pub invalidate_event : ℕ → S → S
