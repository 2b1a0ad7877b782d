-- ===== src/Postgres/Queries.antt =====
-- The queries of internal/repository/postgres that list rows: EventRepo.List, BookingRepo.ListByUser
-- and AuditRepo.GetHistory. ORDER BY leaves the order of equal keys open, so the sort is a parameter.
pub mod Order
pub mod Answers
mod Tests
use mathlib.Core.Option
use go_ticket_booking_app.Base.{
  ℕ, zero, suc, ◌+◌, ◌≤◌, ◌≡◌, Bool, true, false, not, ◌&&◌, ◌||◌, ◌==◌, Option, none, some, List,
  [], ◌∷◌, if◌then◌else◌, filter, length, map, is_some,
}
use go_ticket_booking_app.Base.Int.{ℤ, pos, negsuc, leb_ℤ, ltb_ℤ}
use go_ticket_booking_app.Base.Text.{Text, bytes, text_eq}
use go_ticket_booking_app.Domain.{Event, Booking, AuditLog, StateMap, DiffMap}
use go_ticket_booking_app.Domain.Errors.{driver, wrap, invalid_text, negative_row_count}
use go_ticket_booking_app.World.{Database, Env, Result, ok, err, M, on_error}
use go_ticket_booking_app.World.Calls.{Statement, pool_query}
use go_ticket_booking_app.Postgres.Schema.{is_event_status}

-- ORDER BY key ASC and ORDER BY key DESC, as the statement of the given number does them.
pub record Sorter : Type 1 where
  pub ascending : (A : Type 0) → ℕ → (A → ℕ) → List A → List A
  pub descending : (A : Type 0) → ℕ → (A → ℕ) → List A → List A

module _ {ℓ} {A : Type ℓ} where
  -- LIMIT and OFFSET
  abbrev pub take : ℕ → List A → List A
  take zero xs = []
  take (suc n) [] = []
  take (suc n) (x ∷ xs) = x ∷ take n xs

  abbrev pub drop : ℕ → List A → List A
  drop zero xs = xs
  drop (suc n) [] = []
  drop (suc n) (x ∷ xs) = drop n xs

-- EventFilter; a nil Status is `none`.
pub record EventFilter : Type 0 where
  pub status : Option Text
  pub limit : ℤ
  pub offset : ℤ

abbrev pub page_limit : ℤ → ℤ
page_limit limit = if leb_ℤ limit (pos 0) || ltb_ℤ (pos 100) limit then pos 20 else limit

abbrev pub page_offset : ℤ → ℤ
page_offset offset = if ltb_ℤ offset (pos 0) then pos 0 else offset

-- LIMIT and OFFSET with their parameters; the server refuses a negative one.
abbrev pub page_of {ℓ} : {A : Type ℓ} → ℤ → ℤ → List A → Result (List A)
page_of (negsuc _) offset xs = err (driver negative_row_count)
page_of (pos n) (negsuc _) xs = err (driver negative_row_count)
page_of (pos n) (pos k) xs = ok (take n (drop k xs))

abbrev pub unchanged : {A : Type 0} → Database → Result A → Result (A × Database)
unchanged d (ok a) = ok (a, d)
unchanged d (err x) = err x

-- WHERE deleted_at IS NULL AND status=$1
abbrev pub is_listed : Option Text → Event → Bool
is_listed none e = not (is_some e.deleted_at)
is_listed (some s) e = not (is_some e.deleted_at) && text_eq e.status s

-- A status that is not one of the enumeration is refused by the server.
abbrev pub valid_status : Option Text → Bool
valid_status none = true
valid_status (some s) = is_event_status s

-- What reading JSONB and INET columns back does to what was written: json.Unmarshal of a state and
-- of a diff, and ip_address::text.
pub record Columns : Type 0 where
  pub state : StateMap → StateMap
  pub diff : DiffMap → DiffMap
  pub inet_text : Text → Text

-- The diff is made an empty map where the column is NULL.
abbrev pub read_diff : (DiffMap → DiffMap) → Option DiffMap → DiffMap
read_diff f none = []
read_diff f (some d) = f d

-- Scan of a row of audit_logs: an empty address or agent was stored as NULL and stays empty.
abbrev pub scan_log : Columns → AuditLog → AuditLog
scan_log columns a = record a {
  old_state = Option.map columns.state a.old_state;
  new_state = Option.map columns.state a.new_state;
  diff = some (read_diff columns.diff a.diff);
  ip_address = if text_eq a.ip_address [] then [] else columns.inet_text a.ip_address;
}

abbrev pub is_log_of : Text → ℕ → AuditLog → Bool
is_log_of resource_type id a = text_eq a.resource_type resource_type && (a.resource_id == id)

module _ (sorter : Sorter) where
  unfoldable pub select_events : EventFilter → Statement (List Event)
  select_events f t d =
      if not (valid_status f.status)
      then err (driver invalid_text)
      else unchanged d (
          page_of (page_limit f.limit) (page_offset f.offset)
            (sorter.ascending Event t (λ e. e.starts_at) (filter (is_listed f.status) d.events)))

  unfoldable pub select_bookings_of : ℕ → Statement (List Booking)
  select_bookings_of user_id t d = ok (
    sorter.descending Booking t (λ b. b.booked_at) (filter (λ b. b.user_id == user_id) d.bookings),
    d,
  )

  unfoldable pub select_logs : Env → Columns → Text → ℕ → Statement (List AuditLog)
  select_logs env columns resource_type id t d =
      if not (env.is_text resource_type)
      then err (driver invalid_text)
      else ok (
        map (scan_log columns) (
            sorter.descending AuditLog t (λ a. a.created_at)
              (filter (is_log_of resource_type id) d.audit_logs)),
        d,
      )

  module _ {S : Type 0} (env : Env) where
    -- EventRepo.List
    unfoldable pub list : EventFilter → M S (List Event)
    list f = on_error (wrap (bytes "list events: ")) (pool_query env (select_events f))

    -- BookingRepo.ListByUser
    unfoldable pub list_by_user : ℕ → M S (List Booking)
    list_by_user user_id =
        on_error (wrap (bytes "list bookings by user: "))
          (pool_query env (select_bookings_of user_id))

    -- AuditRepo.GetHistory
    unfoldable pub get_history : Columns → Text → ℕ → M S (List AuditLog)
    get_history columns resource_type id =
        on_error (wrap (bytes "get audit history: "))
          (pool_query env (select_logs env columns resource_type id))
