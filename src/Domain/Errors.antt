-- ===== src/Domain/Errors.antt =====
-- The error values: the sentinels of internal/domain and internal/repository/cache, errors.New,
-- the `%w` wrapping of fmt.Errorf, and what the database driver returns.
use go_ticket_booking_app.Base.{Bool, true, false, ◌∷◌, ◌++◌}
use go_ticket_booking_app.Base.Text.{Text, bytes}

pub data Sentinel : Type 0 where
  user_not_found duplicate_email invalid_credentials user_inactive : Sentinel
  event_not_found event_not_available insufficient_tickets version_conflict : Sentinel
  booking_not_found booking_already_active booking_cannot_cancel not_booking_owner : Sentinel
  lock_not_acquired : Sentinel

-- How a statement or a connection fails: the SQLSTATE classes that the schema can raise, a
-- transaction that an earlier failure has aborted, one that is over, and a lost connection.
pub data Failure : Type 0 where
  unique_violation check_violation foreign_key_violation : Failure
  out_of_range invalid_text negative_row_count : Failure
  in_failed_transaction tx_closed commit_rollback connection_lost : Failure

pub data Error : Type 0 where
  sentinel : Sentinel → Error
  -- errors.New
  message : Text → Error
  driver : Failure → Error
  -- fmt.Errorf("…: %w", err)
  wrap : Text → Error → Error

abbrev pub same : Sentinel → Sentinel → Bool
same user_not_found user_not_found = true
same duplicate_email duplicate_email = true
same invalid_credentials invalid_credentials = true
same user_inactive user_inactive = true
same event_not_found event_not_found = true
same event_not_available event_not_available = true
same insufficient_tickets insufficient_tickets = true
same version_conflict version_conflict = true
same booking_not_found booking_not_found = true
same booking_already_active booking_already_active = true
same booking_cannot_cancel booking_cannot_cancel = true
same not_booking_owner not_booking_owner = true
same lock_not_acquired lock_not_acquired = true
same _ _ = false

-- errors.Is(err, s): through every wrapping.
abbrev pub is : Sentinel → Error → Bool
is s (sentinel t) = same s t
is s (message _) = false
is s (driver _) = false
is s (wrap _ e) = is s e

-- errors.As(err, &pgErr) && pgErr.Code == "23505"
abbrev pub is_unique_violation : Error → Bool
is_unique_violation (driver unique_violation) = true
is_unique_violation (wrap _ e) = is_unique_violation e
is_unique_violation _ = false

abbrev pub sentinel_text : Sentinel → Text
sentinel_text user_not_found = bytes "user not found"
sentinel_text duplicate_email = bytes "email already registered"
sentinel_text invalid_credentials = bytes "invalid credentials"
sentinel_text user_inactive = bytes "user account is inactive"
sentinel_text event_not_found = bytes "event not found"
sentinel_text event_not_available = bytes "event is not available for booking"
sentinel_text insufficient_tickets = bytes "not enough tickets remaining"
sentinel_text version_conflict =
    bytes "version conflict " ++ (226 ∷ 128 ∷ 148 ∷ bytes " event was modified concurrently")
sentinel_text booking_not_found = bytes "booking not found"
sentinel_text booking_already_active = bytes "active booking already exists for this event"
sentinel_text booking_cannot_cancel = bytes "booking cannot be cancelled in current status"
sentinel_text not_booking_owner = bytes "only the booking owner can perform this action"
sentinel_text lock_not_acquired = bytes "lock already held by another process"
