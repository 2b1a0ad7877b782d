-- ===== src/Cache/Tests.antt =====
-- RedisRepo run over a Redis server in memory.
use go_ticket_booking_app.Samples.{env, world}
use go_ticket_booking_app.Base.{
  ℕ, ◌≤◌, ◌≡◌, refl, none, some, List, [], ◌∷◌, All, length, filter, arith,
}
use go_ticket_booking_app.Base.Int.{pos, ◌-ℤ◌}
use go_ticket_booking_app.Base.Text.{bytes}
use go_ticket_booking_app.World.{World, delivered}
use go_ticket_booking_app.Cache.RedisRepo.{
  Server, RedisEnv, redis_cache, acquire_lock, allow, sliding_window_script,
}
use go_ticket_booking_app.Cache.Memory.{Keys, memory, memory-RedisLaws}
use go_ticket_booking_app.Cache.Lock.{
  Turn, acquires, releases, expires, take_turn, take_turns, nobody, is_lock_of, lock_of,
}
use go_ticket_booking_app.Cache.Lock.Exclusion.{mutual_exclusion}
use go_ticket_booking_app.Cache.Window.{ask_all, in_window, allow_window}
use go_ticket_booking_app.Service.Booking.{book_ticket, lock_key}
use go_ticket_booking_app.Service.Booking.Locking.{book_ticket_unlocks}

-- Nothing is lost, and the token of a command is its number.
abbrev redis_env : RedisEnv
redis_env = record { delivery = λ _. delivered; new_token = λ k. k ∷ []; uuid_text = λ id. id ∷ [] }

abbrev empty : Server Keys
empty = record { keys = record { texts = λ _. none; sets = λ _. [] }; calls = 0 }

-- Two clients of one lock: the second one fails, the first one outlives its lock, a third one takes
-- it, and the late release of the first one, with the token [0], does nothing.
abbrev turns : List Turn
turns =
    acquires (bytes "e") 5000
    ∷ acquires (bytes "e") 5000
    ∷ expires (bytes "e")
    ∷ acquires (bytes "e") 5000
    ∷ releases 0
    ∷ []

turns_held :
    (take_turns memory redis_env turns (nobody empty)).held
    ≡ record { client = 2; name = bytes "e"; token = 2 ∷ [] } ∷ []
unfolding take_turns take_turn acquire_lock
turns_held = refl

mutual_exclusion_example :
    let c = take_turns memory redis_env turns (nobody empty) in
    (length (filter (is_lock_of (bytes "e")) c.held) ≤ 1)
    × All (λ h. memory.get (lock_of h.name) c.server.keys ≡ some h.token) c.held
mutual_exclusion_example =
    mutual_exclusion memory redis_env memory-RedisLaws (λ i j e. ground (arith, e)) turns empty
      (bytes "e")

abbrev times : List ℕ
times = 1 ∷ 2 ∷ 3 ∷ 12 ∷ []

-- Two requests in ten milliseconds: the third one is refused, the fourth one is in time again.
times_allowed : (ask_all memory redis_env (bytes "ip") 10 2 times ([], empty)).0 ≡ 12 ∷ 2 ∷ 1 ∷ []
unfolding ask_all allow sliding_window_script ◌-ℤ◌
times_allowed = refl

allow_window_example :
    length
      (filter (in_window 10 3) (ask_all memory redis_env (bytes "ip") 10 2 times ([], empty)).0)
    ≤ 2
allow_window_example =
    allow_window memory redis_env (bytes "ip") 10 2 memory-RedisLaws (λ i j e. ground (arith, e))
      times empty 3 (ground arith) refl

-- The sample tables with a server on which the lock of event 7 is free, and one on which it is held.
abbrev unlocked : World (Server Keys)
unlocked = record { db = world.db; session = world.session; statements = 0; cache = empty }

abbrev taken : World (Server Keys)
taken = record unlocked {
  cache = record empty {
    keys = (memory.set_nx (lock_key env 7) (bytes "other") 5000 empty.keys).1;
  };
}

book_ticket_unlocks_example :
    memory.get
      (lock_key env 7)
      (book_ticket env (redis_cache memory redis_env) 1 7 (pos 4) [] [] unlocked).1.cache.keys
    ≡ none
book_ticket_unlocks_example =
    book_ticket_unlocks memory redis_env env 1 7 (pos 4) [] [] unlocked memory-RedisLaws (λ _. refl)
      refl
