-- ===== src/Cache/Redis.antt =====
-- The commands of the Redis server that internal/repository/cache/redis_repo.go sends, over any
-- state R of the server, and what their documentation promises. A key holds a text or a sorted set,
-- never both, as the prefixes of the code's keys keep them apart.
use go_ticket_booking_app.Base.{
  ℕ, ◌+◌, ◌≡◌, Bool, true, false, not, ◌&&◌, Option, none, some, List, if◌then◌else◌, filter,
  length,
}
use go_ticket_booking_app.Base.Int.{ℤ, pos, leb_ℤ}
use go_ticket_booking_app.Base.Text.{Text, text_eq}

pub record Redis (R : Type 0) : Type 0 where
  pub get : Text → R → Option Text
  -- SET key value NX PX ttl, and SET key value PX ttl
  pub set_nx : Text → Text → ℕ → R → Bool × R
  pub set : Text → Text → ℕ → R → R
  pub del : Text → R → R
  -- The members of a sorted set with their scores, in any order.
  pub zset : Text → R → List (ℕ × Text)
  pub zremrangebyscore : Text → ℤ → ℤ → R → R
  pub zadd : Text → ℕ → Text → R → R
  pub pexpire : Text → ℕ → R → R

-- How many entries, of a score and a member, meet `p`.
abbrev pub count : (ℕ × Text → Bool) → List (ℕ × Text) → ℕ
count p zs = length (filter p zs)

abbrev pub is_entry_of : Text → ℕ × Text → Bool
is_entry_of m z = text_eq z.1 m

abbrev pub between : ℤ → ℤ → ℕ → Bool
between low high score = leb_ℤ low (pos score) && leb_ℤ (pos score) high

pub record RedisLaws {R : Type 0} (redis : Redis R) : Type 0 where
  pub set_nx_free :
      (k v : Text) (ttl : ℕ) (r : R)
      → redis.get k r ≡ none
      → ((redis.set_nx k v ttl r).0 ≡ true)
        × ((j : Text)
            → redis.get j (redis.set_nx k v ttl r).1
              ≡ (if text_eq k j then some v else redis.get j r))
  pub set_nx_held :
      (k v u : Text) (ttl : ℕ) (r : R)
      → redis.get k r ≡ some u
      → redis.set_nx k v ttl r ≡ (false, r)
  pub get_set :
      (k v j : Text) (ttl : ℕ) (r : R)
      → redis.get j (redis.set k v ttl r) ≡ (if text_eq k j then some v else redis.get j r)
  pub get_del :
      (k j : Text) (r : R)
      → redis.get j (redis.del k r) ≡ (if text_eq k j then none else redis.get j r)
  pub get_zremrangebyscore :
      (k j : Text) (low high : ℤ) (r : R)
      → redis.get j (redis.zremrangebyscore k low high r) ≡ redis.get j r
  pub get_zadd :
      (k j m : Text) (score : ℕ) (r : R) → redis.get j (redis.zadd k score m r) ≡ redis.get j r
  pub get_pexpire :
      (k j : Text) (ttl : ℕ) (r : R) → redis.get j (redis.pexpire k ttl r) ≡ redis.get j r
  pub zset_zremrangebyscore :
      (k : Text) (low high : ℤ) (r : R) (p : ℕ × Text → Bool)
      → count p (redis.zset k (redis.zremrangebyscore k low high r))
        ≡ count (λ z. p z && not (between low high z.0)) (redis.zset k r)
  pub zset_zadd :
      (k m : Text) (score : ℕ) (r : R) (p : ℕ × Text → Bool)
      → count (is_entry_of m) (redis.zset k r) ≡ 0
      → count p (redis.zset k (redis.zadd k score m r))
        ≡ (if p (score, m) then 1 else 0) + count p (redis.zset k r)
  pub zset_pexpire :
      (k : Text) (ttl : ℕ) (r : R) → redis.zset k (redis.pexpire k ttl r) ≡ redis.zset k r
