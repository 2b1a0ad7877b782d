-- ===== src/Cache/Memory.antt =====
-- A Redis server in memory that keeps the promises of Cache/Redis. Nothing expires by itself.
use go_ticket_booking_app.Base.{
  ℕ, ◌≡◌, refl, Bool, true, false, not, ◌&&◌, Option, none, some, List, [], ◌∷◌, if◌then◌else◌,
  filter, arith, is_some,
}
use go_ticket_booking_app.Base.Text.{Text, text_eq, text_eq_refl}
use go_ticket_booking_app.Cache.Redis.{Redis, RedisLaws, count, is_entry_of, between}

-- The texts, and the sorted sets, by their keys.
pub record Keys : Type 0 where
  pub texts : Text → Option Text
  pub sets : Text → List (ℕ × Text)

abbrev put {ℓ} : {V : Type ℓ} → Text → V → (Text → V) → Text → V
put k v f j = if text_eq k j then v else f j

abbrev pub memory : Redis Keys
memory = record {
  get = λ k r. r.texts k;
  set_nx = λ k v _ r.
      if is_some (r.texts k)
      then (false, r)
      else (true, record r { texts = put k (some v) r.texts });
  set = λ k v _ r. record r { texts = put k (some v) r.texts };
  del = λ k r. record r { texts = put k none r.texts; sets = put k [] r.sets };
  zset = λ k r. r.sets k;
  zremrangebyscore = λ k low high r. record r {
    sets = put k (filter (λ z. not (between low high z.0)) (r.sets k)) r.sets;
  };
  zadd = λ k score m r. record r {
    sets = put k ((score, m) ∷ filter (λ z. not (text_eq z.1 m)) (r.sets k)) r.sets;
  };
  pexpire = λ k ttl r. r;
}

count_filter :
    (p q : ℕ × Text → Bool) (zs : List (ℕ × Text))
    → count p (filter (λ z. not (q z)) zs) ≡ count (λ z. p z && not (q z)) zs
count_filter p q [] = refl
count_filter p q (z ∷ zs) = ground (arith, count_filter p q zs)

count_others :
    (p : ℕ × Text → Bool) (m : Text) (zs : List (ℕ × Text))
    → count (is_entry_of m) zs ≡ 0
    → count p (filter (λ z. not (is_entry_of m z)) zs) ≡ count p zs
count_others p m [] h = refl
count_others p m (z ∷ zs) h = ground (arith, count_others p m zs)

pub memory-RedisLaws : RedisLaws memory
memory-RedisLaws = record {
  set_nx_free = λ k v ttl r free. (ground arith, λ j. ground arith);
  set_nx_held = λ k v u ttl r held. ground arith;
  get_set = λ k v j ttl r. refl;
  get_del = λ k j r. refl;
  get_zremrangebyscore = λ k j low high r. refl;
  get_zadd = λ k j m score r. refl;
  get_pexpire = λ k j ttl r. refl;
  zset_zremrangebyscore = λ k low high r p.
      ground (arith, text_eq_refl k, count_filter p (λ z. between low high z.0) (r.sets k));
  zset_zadd = λ k m score r p new. ground (arith, text_eq_refl k, count_others p m (r.sets k) new);
  zset_pexpire = λ k ttl r. refl;
}
