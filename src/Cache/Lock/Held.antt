-- ===== src/Cache/Lock/Held.antt =====
-- What each call of a client does to the locks that are held.
use mathlib.Core.Path.{subst}
use go_ticket_booking_app.Base.{
  ℕ, ◌≡◌, refl, ◌∙◌, inl, inr, All, Bool, true, not, none, some, List, [], ◌∷◌, find, if◌then◌else◌,
  filter, arith, Bool-cases, Option-cases,
}
use go_ticket_booking_app.Base.Int.{ℤ, pos, ◌-ℤ◌}
use go_ticket_booking_app.Base.Decimal.{itoa}
use go_ticket_booking_app.Base.Text.{Text, text_eq, text_eq_refl, text_eq_sym, text_eq→eq}
use go_ticket_booking_app.Cache.Redis.{Redis, RedisLaws}
use go_ticket_booking_app.Cache.RedisRepo.{
  Server, RedisEnv, release_script, sliding_window_script, event_cache_key, acquire_lock,
  release_lock, cache_availability, invalidate_event, allow,
}
use go_ticket_booking_app.Cache.Lock.{
  lock_of, acquires, expires, Clients, Hold, is_lock_of, is_of, released, take_turn,
}

module _ {R : Type 0} (redis : Redis R) (env : RedisEnv) where
  -- The token of a client is the one that its command made.
  abbrev pub OwnToken : Hold → Type 0
  OwnToken h = h.token ≡ env.new_token h.client

  -- Every lock that is held stands in the server under its token, and no other of its name is.
  abbrev pub Locked : R → List Hold → Type 0
  Locked keys [] = Unit {0}
  Locked keys (h ∷ held) =
      OwnToken h
      × (redis.get (lock_of h.name) keys ≡ some h.token)
      × (find (is_lock_of h.name) held ≡ none)
      × Locked keys held

  find-filter :
      (q p : Hold → Bool) (held : List Hold) → find q held ≡ none → find q (filter p held) ≡ none
  find-filter q p [] e = refl
  find-filter q p (h ∷ held) e = ground (arith, find-filter q p held)

  pub find-OwnToken :
      (p : Hold → Bool) (grants : List Hold) (g : Hold)
      → All OwnToken grants
      → find p grants ≡ some g
      → OwnToken g
  find-OwnToken p [] g own e = cc
  find-OwnToken p (h ∷ grants) g (mine, own) e = elim (Bool-cases (p h)) [
    | inl here ↦ let same : h ≡ g = ground arith in subst OwnToken same mine
    | inr there ↦ find-OwnToken p grants g own (ground arith)
  ]

  -- The locks that are left stand as before.
  Locked-filter :
      (p : Hold → Bool) (keys keys' : R) (held : List Hold)
      → ((h : Hold)
          → p h ≡ true
          → OwnToken h
          → redis.get (lock_of h.name) keys ≡ some h.token
          → redis.get (lock_of h.name) keys' ≡ some h.token)
      → Locked keys held
      → Locked keys' (filter p held)
  Locked-filter p keys keys' [] same l = tt
  Locked-filter p keys keys' (h ∷ held) same (own, stands, alone, l) = elim (Bool-cases (p h)) [
    | inl stays ↦ rw stays (
      own,
      same h stays own stands,
      find-filter (is_lock_of h.name) p held alone,
      Locked-filter p keys keys' held same l,
    )
    | inr goes ↦ rw goes (Locked-filter p keys keys' held same l)
  ]

  Locked-free :
      (name : Text) (keys : R) (held : List Hold)
      → redis.get (lock_of name) keys ≡ none
      → Locked keys held
      → find (is_lock_of name) held ≡ none
  Locked-free name keys [] e l = refl
  Locked-free name keys (h ∷ held) e (own, stands, alone, l) =
      elim (Bool-cases (text_eq h.name name)) [
        | inl same ↦ absurd (ground (arith, text_eq→eq h.name name same))
        | inr differs ↦ ground (arith, Locked-free name keys held e l)
      ]

  pub Locked-same :
      (keys keys' : R) (held : List Hold)
      → ((name : Text) → redis.get (lock_of name) keys' ≡ redis.get (lock_of name) keys)
      → Locked keys held
      → Locked keys' held
  Locked-same keys keys' [] same l = tt
  Locked-same keys keys' (h ∷ held) same (own, stands, alone, l) =
      (own, same h.name ∙ stands, alone, Locked-same keys keys' held same l)

  module _ (laws : RedisLaws redis) where
    open laws use {
      set_nx_free, set_nx_held, get_set, get_del, get_zremrangebyscore, get_zadd, get_pexpire,
    }

    -- A lock that is set beside those that stand.
    Locked-set :
        (name token : Text) (keys keys' : R) (held : List Hold)
        → ((j : Text)
            → redis.get j keys'
              ≡ (if text_eq (lock_of name) j then some token else redis.get j keys))
        → find (is_lock_of name) held ≡ none
        → Locked keys held
        → Locked keys' held
    Locked-set name token keys keys' [] same free l = tt
    Locked-set name token keys keys' (h ∷ held) same free (own, stands, alone, l) =
        elim (Bool-cases (text_eq h.name name)) [
          | inl here ↦ absurd (ground arith)
          | inr away ↦ (
            own,
            ground (arith, same (lock_of h.name), text_eq_sym name h.name),
            alone,
            Locked-set name token keys keys' held same (ground arith) l,
          )
        ]

    pub acquires-Locked :
        (name : Text) (ttl : ℕ) (c : Clients R)
        → Locked c.server.keys c.held
        → All OwnToken c.grants
        → let c' = take_turn redis env (acquires name ttl) c in
          Locked c'.server.keys c'.held × All OwnToken c'.grants
    unfolding take_turn acquire_lock
    acquires-Locked name ttl c l own =
        let key : Text = lock_of name in
        let keys : R = c.server.keys in
        let token : Text = env.new_token c.server.calls in
        elim (Option-cases (redis.get key keys)) [
          | inl free ↦
              let (set, same) = set_nx_free key token ttl keys free in
              let alone : find (is_lock_of name) c.held ≡ none =
                Locked-free name keys c.held free l in
              let kept : Locked (redis.set_nx key token ttl keys).1 c.held =
                Locked-set name token keys (redis.set_nx key token ttl keys).1 c.held same alone
                  l in
              ground (arith, same key, text_eq_refl name)
          | inr (u, taken) ↦ ground (arith, set_nx_held key token u ttl keys taken)
        ]

    -- A client's release takes away no lock but its own, since no two clients have the same token.
    pub released-Locked :
        (g : Hold) (c : Clients R)
        → ((i j : ℕ) → env.new_token i ≡ env.new_token j → i ≡ j)
        → OwnToken g
        → Locked c.server.keys c.held
        → let c' = released redis env (some g) c in Locked c'.server.keys c'.held
    unfolding release_lock release_script
    released-Locked g c fresh mine l =
        Locked-filter (λ h. not (is_of g.client h)) c.server.keys
          (release_lock redis env (lock_of g.name) g.token c.server).1.keys c.held
          (λ h other own stands. ground (
            arith,
            get_del (lock_of g.name) (lock_of h.name) c.server.keys,
            text_eq_sym g.name h.name,
            text_eq→eq g.name h.name,
            text_eq→eq h.token g.token,
            fresh h.client g.client,
          ))
          l

    pub expires-Locked :
        (name : Text) (c : Clients R)
        → Locked c.server.keys c.held
        → let c' = take_turn redis env (expires name) c in Locked c'.server.keys c'.held
    unfolding take_turn
    expires-Locked name c l =
        Locked-filter (λ h. not (is_lock_of name h)) c.server.keys
          (redis.del (lock_of name) c.server.keys) c.held
          (λ h kept own stands.
            ground (
              arith,
              get_del (lock_of name) (lock_of h.name) c.server.keys,
              text_eq_sym name h.name,
            ))
          l

    -- The other calls leave the locks alone.
    pub cache_availability-get :
        (event_id : ℕ) (n : ℤ) (ttl : ℕ) (name : Text) (s : Server R)
        → redis.get (lock_of name) (cache_availability redis env event_id n ttl s).1.keys
          ≡ redis.get (lock_of name) s.keys
    unfolding cache_availability
    cache_availability-get event_id n ttl name s =
        ground
          (arith, get_set (event_cache_key redis env event_id) (itoa n) (lock_of name) ttl s.keys)

    pub invalidate_event-get :
        (event_id : ℕ) (name : Text) (s : Server R)
        → redis.get (lock_of name) (invalidate_event redis env event_id s).keys
          ≡ redis.get (lock_of name) s.keys
    unfolding invalidate_event
    invalidate_event-get event_id name s =
        ground (arith, get_del (event_cache_key redis env event_id) (lock_of name) s.keys)

    pub allow-get :
        (key : Text) (window : ℕ) (limit : ℤ) (now : ℕ) (name : Text) (s : Server R)
        → redis.get (lock_of name) (allow redis env key window limit now s).1.keys
          ≡ redis.get (lock_of name) s.keys
    unfolding allow sliding_window_script
    allow-get key window limit now name s =
        let j : Text = lock_of name in
        let r : R = redis.zremrangebyscore key (pos 0) (pos now -ℤ pos window) s.keys in
        let added : R = redis.zadd key now (env.new_token s.calls) r in
        ground (
          arith,
          get_zremrangebyscore key j (pos 0) (pos now -ℤ pos window) s.keys,
          get_zadd key j (env.new_token s.calls) now r,
          get_pexpire key j window added,
        )
