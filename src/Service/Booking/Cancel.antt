-- ===== src/Service/Booking/Cancel.antt =====
-- CancelBooking as one step.
use mathlib.Core.Path.{subst}
use go_ticket_booking_app.Base.{
  ℕ, suc, sym, ==_iff, ◌≡◌, ◌⊎◌, inl, inr, none, some, find, arith, ◌==◌, not, true, false,
  Bool-cases, if◌then◌else◌,
}
use go_ticket_booking_app.Base.Text.{Text, bytes}
use go_ticket_booking_app.Base.Rows.{has_key, find_with}
use go_ticket_booking_app.Domain.{Booking, AuditLog}
use go_ticket_booking_app.Domain.Errors.{
  Error, wrap, driver, connection_lost, sentinel, not_booking_owner,
}
use go_ticket_booking_app.World.{Database, Env, World, raise}
use go_ticket_booking_app.World.Calls.{pool_query}
use go_ticket_booking_app.World.Logic.{After, bind-After}
use go_ticket_booking_app.Cache.{Cache}
use go_ticket_booking_app.Postgres.BookingRepo
use go_ticket_booking_app.Postgres.BookingRepo.{select_booking, mark_cancelled}
use go_ticket_booking_app.Postgres.AuditRepo
use go_ticket_booking_app.Postgres.AuditRepo.{insert_audit_log}
use go_ticket_booking_app.Postgres.Integrity.{booking_id_of}
use go_ticket_booking_app.Postgres.Cancelling.{cancelled, MayCancel, cancel-Cancelled}
use go_ticket_booking_app.Service.Booking.{
  cancelled_log, record_cancel, cancel_owned, cancel_booking,
}

-- The tables `d` with any audit records.
abbrev pub SameButLogs : Database → Database → Type 0
SameButLogs d d' = (d'.users ≡ d.users) × (d'.events ≡ d.events) × (d'.bookings ≡ d.bookings)

-- A read of one booking.
get_by_id-After :
    {S : Type 0} (env : Env) (key : ℕ) (old : Booking) (w : World S)
    → find (λ b. b.id == key) w.db.bookings ≡ some old
    → After
        (λ b w'. (b ≡ old) × (w'.db ≡ w.db) × (w'.statements ≡ suc w.statements))
        (λ _ w'. w'.db ≡ w.db)
        (BookingRepo.get_by_id env key w)
unfolding BookingRepo.get_by_id pool_query select_booking
get_by_id-After env key old w found = ground arith

get_by_id-absent :
    {S : Type 0} (env : Env) (key : ℕ) (w : World S)
    → find (λ b. b.id == key) w.db.bookings ≡ none
    → After (λ _ _. ⊥) (λ _ w'. w'.db ≡ w.db) (BookingRepo.get_by_id env key w)
unfolding BookingRepo.get_by_id pool_query select_booking
get_by_id-absent env key w found = ground arith

-- Whatever becomes of the record, the other tables stay.
pub log-After :
    {S : Type 0} (env : Env) (a : AuditLog) (w : World S)
    → SameButLogs w.db (AuditRepo.log env a w).1.db
unfolding AuditRepo.log pool_query insert_audit_log
log-After env a w = ground arith

module _ {S : Type 0} (env : Env) (cache : Cache S) (key user : ℕ) (ip ua : Text) where
  module _ (start : Database) (old : Booking) (n : ℕ) where
    -- The call returned: the caller owns the booking, it was active, and it alone is cancelled,
    -- with its tickets back on its event. `n` is the number of the locking SELECT.
    abbrev pub Returned : Booking → Database → Type 0
    Returned row d =
        (old.user_id ≡ user)
        × MayCancel env key user start old n
        × (row ≡ mark_cancelled (env.now (suc n)) old)
        × SameButLogs (cancelled env key user start old n) d

    -- The call failed: no table changed, or the reply to a COMMIT that did all of it was lost.
    abbrev pub Refused : Error → Database → Type 0
    Refused x d =
        (d ≡ start)
        ⊎ ((old.user_id ≡ user)
            × MayCancel env key user start old n
            × (x ≡ wrap (bytes "commit cancel: ") (driver connection_lost))
            × (d ≡ cancelled env key user start old n))

  record_cancel-Returned :
      (start : Database) (old : Booking) (n : ℕ)
      → old.user_id ≡ user
      → MayCancel env key user start old n
      → (row : Booking) (w : World S) → row ≡ mark_cancelled (env.now (suc n)) old
      → w.db ≡ cancelled env key user start old n
      → After
          (λ b w'. Returned start old n b w'.db)
          (λ x w'. Refused start old n x w'.db)
          (record_cancel env cache key user ip ua old row w)
  unfolding record_cancel
  record_cancel-Returned start old n mine may row w e h = (
    mine,
    may,
    e,
    ground (
      arith,
      log-After env (cancelled_log env cache user key old row ip ua)
          (record w { cache = cache.invalidate_event old.event_id w.cache }),
    ),
  )

  cancel_owned-Returned :
      (start : Database) (old : Booking) (n : ℕ) (w : World S)
      → find (has_key booking_id_of key) start.bookings ≡ some old
      → old.user_id ≡ user
      → w.db ≡ start
      → suc w.statements ≡ n
      → After
          (λ row w'. Returned start old n row w'.db)
          (λ x w'. Refused start old n x w'.db)
          (cancel_owned env cache key user ip ua old w)
  unfolding cancel_owned
  cancel_owned-Returned start old n w found mine d k =
      bind-After
        (λ row w'.
          (row ≡ mark_cancelled (env.now (suc n)) old)
          × MayCancel env key user start old n
          × (w'.db ≡ cancelled env key user start old n))
        (λ row w'. Returned start old n row w'.db) (λ x w'. Refused start old n x w'.db)
        (BookingRepo.cancel env key user) (record_cancel env cache key user ip ua old) w
        (ground (
          arith,
          cancel-Cancelled env key user start old n
              (find_with booking_id_of key (λ r. r.user_id == user) start.bookings old found
                (ground arith))
              w d k,
        ))
        λ row w' (e, may, h). record_cancel-Returned start old n mine may row w' e h

  -- For a booking that is there: a call that returns found it owned by the caller and active, and
  -- cancelled it alone and gave its tickets back to its event; a call that fails has changed no
  -- table, except that a COMMIT whose reply was lost may have done all of that.
  pub cancel_booking_atomic :
      (w : World S) (old : Booking)
      → find (has_key booking_id_of key) w.db.bookings ≡ some old
      → After
          (λ row w'. Returned w.db old (suc (suc w.statements)) row w'.db)
          (λ x w'. Refused w.db old (suc (suc w.statements)) x w'.db)
          (cancel_booking env cache key user ip ua w)
  unfolding cancel_booking
  cancel_booking_atomic w old found =
      bind-After (λ b w'. (b ≡ old) × (w'.db ≡ w.db) × (w'.statements ≡ suc w.statements))
        (λ row w'. Returned w.db old (suc (suc w.statements)) row w'.db)
        (λ x w'. Refused w.db old (suc (suc w.statements)) x w'.db) (BookingRepo.get_by_id env key)
        _ w (ground (arith, get_by_id-After env key old w found))
        λ b w' (same, d, k).
          subst
            (λ r.
              After (λ row v. Returned w.db old (suc (suc w.statements)) row v.db)
                (λ x v. Refused w.db old (suc (suc w.statements)) x v.db)
                ((if not (r.user_id == user)
                    then raise (sentinel not_booking_owner)
                    else cancel_owned env cache key user ip ua r)
                  w'))
            (sym same) (owned w' d k (Bool-cases (old.user_id == user)))
    where
      owned :
          (w' : World S)
          → w'.db ≡ w.db
          → w'.statements ≡ suc w.statements
          → ((old.user_id == user) ≡ true) ⊎ ((old.user_id == user) ≡ false)
          → After
              (λ row v. Returned w.db old (suc (suc w.statements)) row v.db)
              (λ x v. Refused w.db old (suc (suc w.statements)) x v.db)
              ((if not (old.user_id == user)
                  then raise (sentinel not_booking_owner)
                  else cancel_owned env cache key user ip ua old)
                w')
      owned w' d k (inl mine) = rw mine (
          cancel_owned-Returned w.db old (suc (suc w.statements)) w' found ((==_iff _ _).0 mine) d
            (ground arith))
      owned w' d k (inr other) = rw other (inl d)

  -- For a booking that is not there, the call fails and changes no table.
  pub cancel_booking_absent :
      (w : World S)
      → find (has_key booking_id_of key) w.db.bookings ≡ none
      → After (λ _ _. ⊥) (λ _ w'. w'.db ≡ w.db) (cancel_booking env cache key user ip ua w)
  unfolding cancel_booking
  cancel_booking_absent w missing =
      bind-After (λ _ _. ⊥) (λ _ _. ⊥) (λ _ w'. w'.db ≡ w.db) (BookingRepo.get_by_id env key)
        (λ b.
          if not (b.user_id == user)
          then raise (sentinel not_booking_owner)
          else cancel_owned env cache key user ip ua b)
        w (get_by_id-absent env key w missing) (λ _ _ nothing. absurd nothing)
