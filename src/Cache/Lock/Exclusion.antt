-- ===== src/Cache/Lock/Exclusion.antt =====
-- Who holds the lock of an event after any calls of its clients.
use mathlib.Core.Path.{subst}
use go_ticket_booking_app.Base.{
  ℕ, ◌≤◌, ◌≡◌, refl, inl, inr, Option-cases, none, some, List, [], ◌∷◌, All, find, length, filter,
  arith, Bool-cases,
}
use go_ticket_booking_app.Base.Text.{Text, text_eq, text_eq→eq}
use go_ticket_booking_app.Cache.Redis.{Redis, RedisLaws}
use go_ticket_booking_app.Cache.RedisRepo.{
  Server, RedisEnv, cache_availability, invalidate_event, allow,
}
use go_ticket_booking_app.Cache.Lock.{
  lock_of, Turn, acquires, releases, expires, caches, invalidates, asks, Clients, Hold, nobody,
  is_of, is_lock_of, take_turn, take_turns,
}
use go_ticket_booking_app.Cache.Lock.Held.{
  OwnToken, Locked, Locked-same, find-OwnToken, acquires-Locked, released-Locked, expires-Locked,
  cache_availability-get, invalidate_event-get, allow-get,
}

module _ {R : Type 0} (redis : Redis R) (env : RedisEnv) (laws : RedisLaws redis)
    (fresh : (i j : ℕ) → env.new_token i ≡ env.new_token j → i ≡ j) where
  -- The locks that are held stand in the server, and every client has the token of its own command.
  abbrev Orderly : Clients R → Type 0
  Orderly c = Locked redis env c.server.keys c.held × All (OwnToken redis env) c.grants

  take_turn-Orderly : (t : Turn) (c : Clients R) → Orderly c → Orderly (take_turn redis env t c)
  unfolding take_turn
  take_turn-Orderly (acquires name ttl) c (l, own) = acquires-Locked redis env laws name ttl c l own
  take_turn-Orderly (releases client) c (l, own) =
      elim (Option-cases (find (is_of client) c.grants)) [
        | inl stranger ↦ rw stranger (l, own)
        | inr (g, known) ↦ rw known (
          released-Locked redis env laws g c fresh
              (find-OwnToken redis env (is_of client) c.grants g own known) l,
          own,
        )
      ]
  take_turn-Orderly (expires name) c (l, own) = (expires-Locked redis env laws name c l, own)
  take_turn-Orderly (caches event_id n ttl) c (l, own) = (
    Locked-same redis env c.server.keys
        (cache_availability redis env event_id n ttl c.server).1.keys c.held
        (λ name. cache_availability-get redis env laws event_id n ttl name c.server) l,
    own,
  )
  take_turn-Orderly (invalidates event_id) c (l, own) = (
    Locked-same redis env c.server.keys (invalidate_event redis env event_id c.server).keys c.held
        (λ name. invalidate_event-get redis env laws event_id name c.server) l,
    own,
  )
  take_turn-Orderly (asks key window limit now) c (l, own) = (
    Locked-same redis env c.server.keys (allow redis env key window limit now c.server).1.keys
        c.held (λ name. allow-get redis env laws key window limit now name c.server) l,
    own,
  )

  take_turns-Orderly :
      (ts : List Turn) (c : Clients R) → Orderly c → Orderly (take_turns redis env ts c)
  unfolding take_turns
  take_turns-Orderly [] c o = o
  take_turns-Orderly (t ∷ ts) c o =
      take_turns-Orderly ts (take_turn redis env t c) (take_turn-Orderly t c o)

module _ {R : Type 0} (redis : Redis R) (env : RedisEnv) where
  count_free :
      (name : Text) (held : List Hold)
      → find (is_lock_of name) held ≡ none
      → length (filter (is_lock_of name) held) ≡ 0
  count_free name [] e = refl
  count_free name (h ∷ held) e = ground (arith, count_free name held)

  count_held :
      (name : Text) (keys : R) (held : List Hold)
      → Locked redis env keys held
      → length (filter (is_lock_of name) held) ≤ 1
  count_held name keys [] l = omega arith
  count_held name keys (h ∷ held) (own, stands, alone, l) =
      elim (Bool-cases (text_eq h.name name)) [
        | inl same ↦
            let e : h.name ≡ name = text_eq→eq h.name name same in
            let none_left : find (is_lock_of name) held ≡ none =
              subst (λ n. find (is_lock_of n) held ≡ none) e alone in
            ground (arith, count_free name held none_left)
        | inr differs ↦ ground (arith, count_held name keys held l)
      ]

  All-stand :
      (keys : R) (held : List Hold)
      → Locked redis env keys held
      → All (λ h. redis.get (lock_of h.name) keys ≡ some h.token) held
  All-stand keys [] l = tt
  All-stand keys (h ∷ held) (own, stands, alone, l) = (stands, All-stand keys held l)

  -- Mutual exclusion: where nobody holds a lock at the start and no two commands make the same token,
  -- whatever the clients do in whatever order, whatever expires and whatever call or reply is lost,
  -- at most one client holds the lock of an event, and every lock that its client has been given and
  -- has not released, and that has not expired, stands in the server under its token: no release by
  -- another client, however late, has taken it away.
  pub mutual_exclusion :
      (laws : RedisLaws redis) (fresh : (i j : ℕ) → env.new_token i ≡ env.new_token j → i ≡ j)
      (ts : List Turn) (start : Server R) (name : Text)
      → let c = take_turns redis env ts (nobody start) in
        (length (filter (is_lock_of name) c.held) ≤ 1)
        × All (λ h. redis.get (lock_of h.name) c.server.keys ≡ some h.token) c.held
  mutual_exclusion laws fresh ts start name =
      let c : Clients R = take_turns redis env ts (nobody start) in
      let (l, own) = take_turns-Orderly redis env laws fresh ts (nobody start) (tt, tt) in
      (count_held name c.server.keys c.held l, All-stand c.server.keys c.held l)
