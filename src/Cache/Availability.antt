-- ===== src/Cache/Availability.antt =====
-- The cached availability of an event: written as a text, read back as a number.
use go_ticket_booking_app.Base.{ℕ, suc, ◌≡◌, Bool, true, false, some, ◌^◌, ltb, arith}
use go_ticket_booking_app.Base.Int.{ℤ, pos, negsuc}
use go_ticket_booking_app.Base.Text.{Text, text_eq_refl}
use go_ticket_booking_app.Base.Decimal.{itoa, atoi, atoi-itoa_pos, atoi-itoa_neg}
use go_ticket_booking_app.World.{delivered}
use go_ticket_booking_app.Cache.Redis.{Redis, RedisLaws}
use go_ticket_booking_app.Cache.RedisRepo.{
  Server, RedisEnv, event_cache_key, cache_availability, get_availability, invalidate_event,
}

-- The range of Go's int.
abbrev pub is_int64 : ℤ → Bool
is_int64 (pos n) = ltb n (2 ^ 63)
is_int64 (negsuc n) = ltb n (2 ^ 63)

pub atoi-itoa : (n : ℤ) → is_int64 n ≡ true → atoi (itoa n) ≡ some n
atoi-itoa (pos n) h = atoi-itoa_pos n (ground arith)
atoi-itoa (negsuc n) h = atoi-itoa_neg n (ground arith)

-- Where nothing is lost, the count that CacheAvailability stored is what GetAvailability reads, for
-- every int, and after InvalidateEvent it reads that there is none.
pub get-cache_availability :
    {R : Type 0} (redis : Redis R) (env : RedisEnv) (event_id : ℕ) (n : ℤ) (ttl : ℕ) (s : Server R)
    → RedisLaws redis
    → ((k : ℕ) → env.delivery k ≡ delivered)
    → is_int64 n ≡ true
    → let stored = (cache_availability redis env event_id n ttl s).1 in
      ((get_availability redis env event_id stored).0 ≡ (n, true))
      × ((get_availability redis env event_id (invalidate_event redis env event_id stored)).0
          ≡ (pos 0, false))
unfolding cache_availability get_availability invalidate_event
get-cache_availability redis env event_id n ttl s laws calm small =
    let key : Text = event_cache_key redis env event_id in
    let keys = redis.set key (itoa n) ttl s.keys in
    (
      ground (
        arith,
        calm s.calls,
        calm (suc s.calls),
        laws.get_set key (itoa n) key ttl s.keys,
        text_eq_refl key,
        atoi-itoa n small,
      ),
      ground (
        arith,
        calm s.calls,
        calm (suc s.calls),
        calm (suc (suc s.calls)),
        laws.get_del key key keys,
        text_eq_refl key,
      ),
    )
