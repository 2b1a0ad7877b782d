-- ===== src/Postgres/Queries/Tests.antt =====
-- The queries on the small database, with an insertion sort.
use mathlib.Core.List.{Perm}
use go_ticket_booking_app.Samples.{env, world}
use go_ticket_booking_app.Base.{ℕ, ◌≤◌, ◌≡◌, refl, none, some, List, [], ◌∷◌, ◌++◌, length, filter}
use go_ticket_booking_app.Base.Int.{pos, negsuc}
use go_ticket_booking_app.Base.Text.{bytes}
use go_ticket_booking_app.Domain.{Event, AuditLog}
use go_ticket_booking_app.Domain.AuditAction
use go_ticket_booking_app.World.{World, ok}
use go_ticket_booking_app.World.Calls.{pool_query}
use go_ticket_booking_app.Postgres.Queries.{
  EventFilter, Columns, take, drop, list, get_history, select_logs,
}
use go_ticket_booking_app.Postgres.Queries.Order.{
  Ascends, insertion_sorter, insertion_sorter-SorterLaws,
}
use go_ticket_booking_app.Postgres.Queries.Answers.{asked_for, PageSize, PageStart, list_page}

abbrev page : EventFilter
page = record { status = some (bytes "published"); limit = pos 500; offset = negsuc 2 }

list_page_example :
    (all : List Event) × (n k : ℕ) × Ascends (λ e. e.starts_at) all
    × Perm all (filter (asked_for (some (bytes "published"))) world.db.events)
    × PageSize (pos 500) n
    × PageStart (negsuc 2) k
    × (list insertion_sorter env page world
        ≡ (ok (take n (drop k all)), record world { statements = 1 }))
    × (length (take n (drop k all)) ≤ 100)
list_page_example = list_page insertion_sorter insertion_sorter-SorterLaws env page world refl refl

-- Columns that give everything back but print an address with its mask.
abbrev columns : Columns
columns = record { state = λ m. m; diff = λ d. d; inet_text = λ ip. ip ++ bytes "/32" }

abbrev login : AuditLog
login = record {
  id = 0;
  actor_id = some 1;
  resource_type = bytes "event";
  resource_id = 7;
  action = AuditAction.login;
  old_state = none;
  new_state = none;
  diff = none;
  ip_address = bytes "10.0.0.1";
  user_agent = [];
  created_at = 0;
}

-- A record of another event.
abbrev other : AuditLog
other = record login { id = 300; resource_id = 8 }

abbrev stored : AuditLog
stored = record login { id = 500; created_at = 1000 }

abbrev logged : World (Unit {0})
logged = record world { db = record world.db { audit_logs = stored ∷ other ∷ [] }; statements = 1 }

-- The record comes back with an address that is printed otherwise, and with an empty diff.
history_read :
    (get_history insertion_sorter env columns (bytes "event") 7 logged).0
    ≡ ok (record stored { ip_address = bytes "10.0.0.1/32"; diff = some [] } ∷ [])
unfolding get_history select_logs pool_query
history_read = refl
