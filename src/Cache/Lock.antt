-- ===== src/Cache/Lock.antt =====
-- The distributed lock under any interleaving of the calls of its clients.
pub mod Held
pub mod Exclusion
use mathlib.Core.Path.{subst}
use go_ticket_booking_app.Base.{
  ℕ, ◌≤◌, ◌≡◌, refl, ◌∙◌, inl, inr, Bool, true, ◌==◌, not, Option, none, some, List, [], ◌∷◌, ◌++◌,
  All, find, if◌then◌else◌, length, filter, arith, Bool-cases, Option-cases,
}
use go_ticket_booking_app.Base.Int.{ℤ, pos, ◌-ℤ◌}
use go_ticket_booking_app.Base.Decimal.{itoa}
use go_ticket_booking_app.Base.Text.{Text, text_eq, text_eq_refl, text_eq_sym, text_eq→eq, bytes}
use go_ticket_booking_app.World.{Result, ok, err}
use go_ticket_booking_app.Cache.Redis.{Redis, RedisLaws}
use go_ticket_booking_app.Cache.RedisRepo.{
  Server, RedisEnv, release_script, sliding_window_script, event_cache_key, acquire_lock,
  release_lock, cache_availability, invalidate_event, allow,
}

-- The key of the lock of an event, of which the last part is the text of the event's UUID.
abbrev pub lock_of : Text → Text
lock_of name = bytes "lock:event:" ++ name

-- What a client of the cache, or the clock of the server, does next: the calls of RedisRepo, and
-- the end of a lock's time to live, which deletes its key. A client releases the lock that it has
-- acquired, under the token that it was given, also when the lock has expired in the meantime.
pub data Turn : Type 0 where
  acquires : (name : Text) → (ttl : ℕ) → Turn
  releases : (client : ℕ) → Turn
  expires : (name : Text) → Turn
  caches : (event_id : ℕ) → ℤ → (ttl : ℕ) → Turn
  invalidates : (event_id : ℕ) → Turn
  asks : (key : Text) → (window : ℕ) → ℤ → (now : ℕ) → Turn

-- An AcquireLock that has returned: its client, which is the number of the command, the name of the
-- lock and the token returned.
pub record Hold : Type 0 where
  pub client : ℕ
  pub name : Text
  pub token : Text

-- The server, every lock that a client was ever given, and those that are held: neither released by
-- their own client since, nor expired.
pub record Clients (R : Type 0) : Type 0 where
  pub server : Server R
  pub grants : List Hold
  pub held : List Hold

abbrev pub is_lock_of : Text → Hold → Bool
is_lock_of name h = text_eq h.name name

abbrev pub is_of : ℕ → Hold → Bool
is_of client h = h.client == client

abbrev pub nobody : {R : Type 0} → Server R → Clients R
nobody s = record { server = s; grants = []; held = [] }

module _ {R : Type 0} (redis : Redis R) (env : RedisEnv) where
  abbrev pub granted : Text → Clients R → Result Text × Server R → Clients R
  granted name c (ok token, s) =
      let hold : Hold = record { client = c.server.calls; name = name; token = token } in
      record { server = s; grants = hold ∷ c.grants; held = hold ∷ c.held }
  granted name c (err _, s) = record c { server = s }

  abbrev pub released : Option Hold → Clients R → Clients R
  released none c = c
  released (some g) c = record c {
    server = (release_lock redis env (lock_of g.name) g.token c.server).1;
    held = filter (λ h. not (is_of g.client h)) c.held;
  }

  unfoldable pub take_turn : Turn → Clients R → Clients R
  take_turn (acquires name ttl) c =
      granted name c (acquire_lock redis env (lock_of name) ttl c.server)
  take_turn (releases client) c = released (find (is_of client) c.grants) c
  take_turn (expires name) c = record c {
    server = record c.server { keys = redis.del (lock_of name) c.server.keys };
    held = filter (λ h. not (is_lock_of name h)) c.held;
  }
  take_turn (caches event_id n ttl) c = record c {
    server = (cache_availability redis env event_id n ttl c.server).1;
  }
  take_turn (invalidates event_id) c = record c {
    server = invalidate_event redis env event_id c.server;
  }
  take_turn (asks key window limit now) c = record c {
    server = (allow redis env key window limit now c.server).1;
  }

  unfoldable pub take_turns : List Turn → Clients R → Clients R
  take_turns [] c = c
  take_turns (t ∷ ts) c = take_turns ts (take_turn t c)
