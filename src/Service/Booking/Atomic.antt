-- ===== src/Service/Booking/Atomic.antt =====
-- BookTicket as one step: the whole booking, or nothing.
use go_ticket_booking_app.Base.{
  ℕ, suc, ◌≡◌, refl, ◌⊎◌, none, some, find, arith, inl, inr, Bool-cases,
}
use go_ticket_booking_app.Base.Int.{ℤ, pos, ◌≤ℤ◌, leb_ℤ}
use go_ticket_booking_app.Base.Text.{Text, bytes}
use go_ticket_booking_app.Domain.{Event, Booking}
use go_ticket_booking_app.Domain.Errors.{Error, wrap, driver, connection_lost}
use go_ticket_booking_app.World.{Database, Env, World, Result, ok, err, on_error, on_cache}
use go_ticket_booking_app.World.Logic.{After, bind-After}
use go_ticket_booking_app.World.Transactions.{InTx, begin_tx-After}
use go_ticket_booking_app.Postgres.Effects.{get_by_id_for_update-absent}
use go_ticket_booking_app.World.Calls.{begin_tx, rollback}
use go_ticket_booking_app.Cache.{Cache}
use go_ticket_booking_app.Postgres.EventRepo
use go_ticket_booking_app.Postgres.EventRepo.{is_live}
use go_ticket_booking_app.Service.Booking.{
  lock_key, lock_ttl, acquire_error, book_in_tx, book_event, book_with_tx, book_ticket,
}
use go_ticket_booking_app.Service.Booking.Outcome.{
  booked_row, booked, MayBook, Booked, NotBooked, book_with_tx-Booked,
}

module _ {S : Type 0} (env : Env) (cache : Cache S) (user_id event_id : ℕ) (count : ℤ)
    (ip ua : Text) where
  -- The lock is taken before and given back after; neither touches the tables.
  pub lock-After :
      (P : Booking → Database → Type 0) (Q : Error → Database → Type 0) (w : World S)
      → (pos 1 ≤ℤ count
          → (v : World S) → v.db ≡ w.db
          → v.statements ≡ w.statements
          → After
              (λ b v'. P b v'.db)
              (λ x v'. Q x v'.db)
              (book_with_tx env cache user_id event_id count ip ua v))
      → ((x : Error) → Q x w.db)
      → After
          (λ b w'. P b w'.db)
          (λ x w'. Q x w'.db)
          (book_ticket env cache user_id event_id count ip ua w)
  unfolding book_ticket
  lock-After P Q w body refused = elim (Bool-cases (leb_ℤ count (pos 0))) [
    | inl negative ↦ rw negative (refused _)
    | inr positive ↦ rw positive (
        bind-After (λ _ w'. (w'.db ≡ w.db) × (w'.statements ≡ w.statements)) (λ b w'. P b w'.db)
          (λ x w'. Q x w'.db)
          (on_error acquire_error (on_cache (cache.acquire_lock (lock_key env event_id) lock_ttl)))
          _ w (acquired (cache.acquire_lock (lock_key env event_id) lock_ttl w.cache))
          λ token w' (d, k). released token _ (body (ground arith) w' d k))
  ]
    where
      acquired :
          (r : Result Text × S)
          → After {A = Text}
              (λ _ w'. (w'.db ≡ w.db) × (w'.statements ≡ w.statements))
              (λ x w'. Q x w'.db)
              (on_error acquire_error (λ v. (r.0, record v { cache = r.1 })) w)
      acquired (ok t, s) = (refl, refl)
      acquired (err x, s) = refused _

      released :
          (token : Text) (r : Result Booking × World S)
          → After (λ b v'. P b v'.db) (λ x v'. Q x v'.db) r
          → After
              (λ b v'. P b v'.db)
              (λ x v'. Q x v'.db)
              (r.0, (on_cache (cache.release_lock (lock_key env event_id) token) r.1).1)
      released token (ok b, v) h = h
      released token (err x, v) h = h

  -- What a call that began at `start` leaves in the tables, by how it ended; `n` is the number of
  -- its SELECT and `e` the event's row.
  abbrev pub Made : Database → Event → ℕ → Booking → Database → Type 0
  Made start e n b d =
      (d ≡ booked env cache user_id event_id count ip ua start e n)
      × (b ≡ booked_row env cache user_id event_id count ip ua start e n)
      × (pos 1 ≤ℤ count)
      × MayBook env cache user_id event_id count ip ua start e n

  abbrev pub NotMade : Database → Event → ℕ → Error → Database → Type 0
  NotMade start e n x d =
      (d ≡ start)
      ⊎ ((x ≡ wrap (bytes "commit booking: ") (driver connection_lost))
          × Made start e n (booked_row env cache user_id event_id count ip ua start e n) d)

  made :
      (start : Database) (e : Event) (n : ℕ) (r : Result Booking × World S)
      → pos 1 ≤ℤ count
      → After
          (Booked env cache user_id event_id count ip ua start e n)
          (NotBooked env cache user_id event_id count ip ua start e n)
          r
      → After (λ b w'. Made start e n b w'.db) (λ x w'. NotMade start e n x w'.db) r
  made start e n (ok b, w') positive (h, row, may) = (h, row, positive, may)
  made start e n (err x, w') positive (inl h) = inl h
  made start e n (err x, w') positive (inr (h, lost, may)) = inr (lost, (h, refl, positive, may))

  -- For an event that is live: a call that returns has made the whole booking, all of it under
  -- the guards; a call that fails has changed no table, except that a COMMIT whose reply was lost
  -- may have made that same booking.
  pub book_ticket_atomic :
      (w : World S) (e : Event)
      → find (is_live event_id) w.db.events ≡ some e
      → After
          (λ b w'. Made w.db e (suc w.statements) b w'.db)
          (λ x w'. NotMade w.db e (suc w.statements) x w'.db)
          (book_ticket env cache user_id event_id count ip ua w)
  book_ticket_atomic w e found =
      lock-After (Made w.db e (suc w.statements)) (NotMade w.db e (suc w.statements)) w
        (λ positive v d k. made w.db e (suc w.statements) _ positive (
          book_with_tx-Booked env cache user_id event_id count ip ua w.db e (suc w.statements) found
            v d (ground arith)))
        (λ x. inl refl)

  module _ (start : Database) (missing : find (is_live event_id) start.events ≡ none) where
    book_in_tx-absent :
        (n : ℕ) (w : World S)
        → InTx start start n w
        → After
            (λ _ _. ⊥)
            (λ _ w'. w'.db ≡ start)
            (book_in_tx env cache user_id event_id count ip ua w)
    unfolding book_in_tx
    book_in_tx-absent n w h =
        bind-After (λ _ _. ⊥) (λ _ _. ⊥) (λ _ w'. w'.db ≡ start)
          (EventRepo.get_by_id_for_update env event_id)
          (book_event env cache user_id event_id count ip ua) w
          (get_by_id_for_update-absent env start start n w event_id missing h)
          (λ _ _ nothing. absurd nothing)

    unreturned :
        (r : Result Booking × World S)
        → After (λ _ _. ⊥) (λ _ w'. w'.db ≡ start) r
        → After (λ _ _. ⊥) (λ _ w'. w'.db ≡ start) (r.0, (rollback env r.1).1)
    unfolding rollback
    unreturned (ok b, w') h = h
    unreturned (err x, w') h = h

    book_with_tx-absent :
        (v : World S)
        → v.db ≡ start
        → After
            (λ _ _. ⊥)
            (λ _ w'. w'.db ≡ start)
            (book_with_tx env cache user_id event_id count ip ua v)
    unfolding book_with_tx
    book_with_tx-absent v d =
        bind-After (λ _ w'. InTx start start (suc v.statements) w') (λ _ _. ⊥)
          (λ _ w'. w'.db ≡ start) (on_error (wrap (bytes "begin tx: ")) (begin_tx env)) _ v
          (ground (arith, begin_tx-After env start start v.statements v d))
          λ _ w1 h. unreturned _ (book_in_tx-absent (suc v.statements) w1 h)

  -- For an event that is not there, or deleted, every call fails and changes no table.
  pub book_ticket_no_event :
      (w : World S)
      → find (is_live event_id) w.db.events ≡ none
      → After
          (λ _ _. ⊥)
          (λ _ w'. w'.db ≡ w.db)
          (book_ticket env cache user_id event_id count ip ua w)
  book_ticket_no_event w missing =
      lock-After (λ _ _. ⊥) (λ _ d. d ≡ w.db) w (λ _ v d _. book_with_tx-absent w.db missing v d)
        (λ _. refl)
