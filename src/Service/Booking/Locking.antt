-- ===== src/Service/Booking/Locking.antt =====
-- BookTicket over RedisRepo: what it does to the lock of the event.
use go_ticket_booking_app.Base.{ℕ, ◌≡◌, refl, ◌∙◌, ap, ◌⊎◌, inl, inr, false, none, some, arith}
use go_ticket_booking_app.Base.Int.{ℤ, pos, leb_ℤ}
use go_ticket_booking_app.Base.Text.{Text, bytes, text_eq_refl}
use go_ticket_booking_app.Domain.{Event, Booking}
use go_ticket_booking_app.Domain.Errors.{message, wrap}
use go_ticket_booking_app.World.{
  Env, World, err, delivered, on_error, deferred, ignored, ◌>>=◌, ◌>>◌,
}
use go_ticket_booking_app.World.Calls.{Statement, tx_query, begin_tx, commit, rollback}
use go_ticket_booking_app.World.Logic.{bind-state}
use go_ticket_booking_app.Cache.{Cache}
use go_ticket_booking_app.Cache.Redis.{Redis, RedisLaws}
use go_ticket_booking_app.Cache.RedisRepo.{
  Server, RedisEnv, redis_cache, acquire_lock, release_lock, release_script,
}
use go_ticket_booking_app.Cache.Lock.Held.{invalidate_event-get}
use go_ticket_booking_app.Postgres.EventRepo
use go_ticket_booking_app.Postgres.EventRepo.{
  update_events, is_at_version, take_tickets, select_event,
}
use go_ticket_booking_app.Postgres.BookingRepo
use go_ticket_booking_app.Postgres.BookingRepo.{insert_booking}
use go_ticket_booking_app.Postgres.AuditRepo
use go_ticket_booking_app.Postgres.AuditRepo.{insert_audit_log}
use go_ticket_booking_app.Service.Booking.{
  lock_key, lock_ttl, requested, validate_booking, created_log, finish, sell, book_event,
  book_in_tx, book_with_tx, book_ticket,
}

module _ {S : Type 0} (env : Env) where
  -- A statement of a transaction does nothing to the cache server.
  tx_query-cache :
      {A : Type 0} (st : Statement A) (w : World S) → (tx_query env st w).1.cache ≡ w.cache
  unfolding tx_query
  tx_query-cache st w = ground arith

  module _ (cache : Cache S) (user_id event_id : ℕ) (count : ℤ) (ip ua : Text) (s : S) where
    -- The cache server is as it was, or the event has been invalidated.
    abbrev pub CacheKept : S → Type 0
    CacheKept s' = (s' ≡ s) ⊎ (s' ≡ cache.invalidate_event event_id s)

    abbrev Same : World S → Type 0
    Same w = w.cache ≡ s

    abbrev Kept : World S → Type 0
    Kept w = CacheKept w.cache

    finish-Kept : (b : Booking) (w : World S) → Same w → Kept (finish env cache event_id b w).1
    unfolding finish commit
    finish-Kept b w h = ground arith

    create_in_tx-Same :
        (b : Booking) (w : World S) → Same w → Same (BookingRepo.create_in_tx env b w).1
    unfolding BookingRepo.create_in_tx
    create_in_tx-Same b w h = ground (arith, tx_query-cache (insert_booking env b) w)

    update_tickets-Same :
        (v n : ℤ) (w : World S)
        → Same w
        → Same (EventRepo.update_tickets_in_tx env event_id v n w).1
    unfolding EventRepo.update_tickets_in_tx
    update_tickets-Same v n w h = ground (
      arith,
      tx_query-cache (update_events env (is_at_version event_id v) (λ now. take_tickets now n)) w,
    )

    get_for_update-Same :
        (w : World S) → Same w → Same (EventRepo.get_by_id_for_update env event_id w).1
    unfolding EventRepo.get_by_id_for_update
    get_for_update-Same w h = ground (arith, tx_query-cache (select_event event_id) w)

    sell-Kept :
        (e : Event) (b : Booking) (w : World S)
        → Same w
        → Kept (sell env cache user_id event_id count ip ua e b w).1
    unfolding sell AuditRepo.log_in_tx
    sell-Kept e b w h =
        let logged = insert_audit_log env (created_log env cache user_id b ip ua) in
        bind-state Same Kept (EventRepo.update_tickets_in_tx env event_id e.version count)
          (λ _.
            ignored (AuditRepo.log_in_tx env (created_log env cache user_id b ip ua))
            >> finish env cache event_id b)
          w (update_tickets-Same e.version count w h) (λ w' k. inl k)
          (λ _ w' k. finish-Kept b (tx_query env logged w').1 (tx_query-cache logged w' ∙ k))

    book_event-Kept :
        (e : Event) (w : World S)
        → Same w
        → Kept (book_event env cache user_id event_id count ip ua e w).1
    unfolding book_event
    book_event-Kept e w h =
        let request : Booking = requested user_id event_id count e in
        bind-state Same Kept (validate_booking e count)
          (λ _.
            BookingRepo.create_in_tx env request >>= sell env cache user_id event_id count ip ua e)
          w (ground arith) (λ w' k. inl k)
          (λ _ w' k.
            bind-state Same Kept (BookingRepo.create_in_tx env request)
              (sell env cache user_id event_id count ip ua e) w' (create_in_tx-Same request w' k)
              (λ w'' k'. inl k') (λ b w'' k'. sell-Kept e b w'' k'))

    book_in_tx-Kept :
        (w : World S) → Same w → Kept (book_in_tx env cache user_id event_id count ip ua w).1
    unfolding book_in_tx
    book_in_tx-Kept w h =
        bind-state Same Kept (EventRepo.get_by_id_for_update env event_id)
          (book_event env cache user_id event_id count ip ua) w (get_for_update-Same w h)
          (λ w' k. inl k) (λ e w' k. book_event-Kept e w' k)

    pub book_with_tx-Kept :
        (w : World S) → Same w → Kept (book_with_tx env cache user_id event_id count ip ua w).1
    unfolding book_with_tx rollback begin_tx
    book_with_tx-Kept w h =
        bind-state Same Kept (on_error (wrap (bytes "begin tx: ")) (begin_tx env))
          (λ _. deferred (rollback env) (book_in_tx env cache user_id event_id count ip ua)) w
          (ground arith) (λ w' k. inl k) (λ _ w' k. book_in_tx-Kept w' k)

module _ {R : Type 0} (redis : Redis R) (redis_env : RedisEnv) (env : Env) where
  -- Where Redis loses nothing and another client holds the lock of the event, BookTicket for a
  -- positive number of tickets tells the caller to try again shortly; it sends no statement to the
  -- database, and the lock of the other client stays.
  pub book_ticket_locked :
      (user_id event_id : ℕ) (count : ℤ) (ip ua token : Text) (w : World (Server R))
      → RedisLaws redis
      → ((k : ℕ) → redis_env.delivery k ≡ delivered)
      → leb_ℤ count (pos 0) ≡ false
      → redis.get (lock_key env event_id) w.cache.keys ≡ some token
      → let (r, w') =
          book_ticket env (redis_cache redis redis_env) user_id event_id count ip ua w in
        (r ≡ err (message (bytes "event is currently being processed, try again shortly")))
        × (w'.db ≡ w.db)
        × (w'.statements ≡ w.statements)
        × (w'.cache.keys ≡ w.cache.keys)
  unfolding book_ticket redis_cache acquire_lock
  book_ticket_locked user_id event_id count ip ua token w laws calm positive taken =
      let key : Text = lock_key env event_id in
      let mine : Text = redis_env.new_token w.cache.calls in
      ground
        (arith, calm w.cache.calls, laws.set_nx_held key mine token lock_ttl w.cache.keys taken)

  release_lock-get :
      (key token : Text) (s : Server R)
      → RedisLaws redis
      → ((k : ℕ) → redis_env.delivery k ≡ delivered)
      → redis.get key s.keys ≡ some token
      → redis.get key (release_lock redis redis_env key token s).1.keys ≡ none
  unfolding release_lock release_script
  release_lock-get key token s laws calm held =
      ground
        (arith, calm s.calls, laws.get_del key key s.keys, text_eq_refl key, text_eq_refl token)

  abbrev Holds : ℕ → Text → World (Server R) → Type 0
  Holds event_id token w = redis.get (lock_key env event_id) w.cache.keys ≡ some token

  book_with_tx-Holds :
      (user_id event_id : ℕ) (count : ℤ) (ip ua token : Text) (w : World (Server R))
      → RedisLaws redis
      → Holds event_id token w
      → Holds event_id token
          (book_with_tx env (redis_cache redis redis_env) user_id event_id count ip ua w).1
  unfolding redis_cache
  book_with_tx-Holds user_id event_id count ip ua token w laws held =
      let c : Cache (Server R) = redis_cache redis redis_env in
      elim (book_with_tx-Kept env c user_id event_id count ip ua w.cache w refl) [
        | inl same ↦ ap (λ s. redis.get (lock_key env event_id) s.keys) same ∙ held
        | inr gone ↦
            ap (λ s. redis.get (lock_key env event_id) s.keys) gone
            ∙ (invalidate_event-get redis redis_env laws event_id (env.uuid_text event_id) w.cache
                ∙ held)
      ]

  -- Where Redis loses nothing and the lock of the event is free, it is free again after BookTicket,
  -- whatever the request, and whether the database answers, refuses or is lost.
  pub book_ticket_unlocks :
      (user_id event_id : ℕ) (count : ℤ) (ip ua : Text) (w : World (Server R))
      → RedisLaws redis
      → ((k : ℕ) → redis_env.delivery k ≡ delivered)
      → redis.get (lock_key env event_id) w.cache.keys ≡ none
      → redis.get
          (lock_key env event_id)
          (book_ticket env
            (redis_cache redis redis_env)
            user_id
            event_id
            count
            ip
            ua
            w).1.cache.keys
        ≡ none
  unfolding book_ticket redis_cache acquire_lock
  book_ticket_unlocks user_id event_id count ip ua w laws calm free =
      let c : Cache (Server R) = redis_cache redis redis_env in
      let key : Text = lock_key env event_id in
      let token : Text = redis_env.new_token w.cache.calls in
      let (set, same) = laws.set_nx_free key token lock_ttl w.cache.keys free in
      let locked : World (Server R) = record w {
        cache = (c.acquire_lock key lock_ttl w.cache).1;
      } in
      let held : Holds event_id token locked =
        ground (arith, calm w.cache.calls, same key, text_eq_refl key) in
      let after : World (Server R) = (book_with_tx env c user_id event_id count ip ua locked).1 in
      let still : Holds event_id token after =
        book_with_tx-Holds user_id event_id count ip ua token locked laws held in
      ground (arith, calm w.cache.calls, release_lock-get key token after.cache laws calm still)
