-- ===== src/Service/Audit.antt =====
-- internal/service/audit_service.go.
use go_ticket_booking_app.Base.{
  ℕ, Bool, true, not, Option, none, some, List, [], ◌∷◌, ◌++◌, if◌then◌else◌,
}
use go_ticket_booking_app.Base.Text.{Text, bytes, text_eq}
use go_ticket_booking_app.Domain.{Event, Booking, Value, text, number, StateMap, DiffMap}
use go_ticket_booking_app.World.{Env}

-- The field of a pointer with omitempty.
abbrev pub optional_field : (ℕ → Text) → Text → Option ℕ → StateMap
optional_field show key none = []
optional_field show key (some t) = (key, text (show t)) ∷ []

-- ToMap of a *domain.Booking
unfoldable pub booking_to_map : Env → Booking → StateMap
booking_to_map env b =
    (bytes "id", text (env.uuid_text b.id))
    ∷ (bytes "user_id", text (env.uuid_text b.user_id))
    ∷ (bytes "event_id", text (env.uuid_text b.event_id))
    ∷ (bytes "ticket_count", number b.ticket_count)
    ∷ (bytes "total_price_cents", number b.total_price_cents)
    ∷ (bytes "status", text b.status)
    ∷ (bytes "version", number b.version)
    ∷ (bytes "booked_at", text (env.time_text b.booked_at))
    ∷ (bytes "updated_at", text (env.time_text b.updated_at))
    ∷ optional_field env.time_text (bytes "cancelled_at") b.cancelled_at

-- ToMap of a *domain.Event
unfoldable pub event_to_map : Env → Event → StateMap
event_to_map env e =
    (bytes "id", text (env.uuid_text e.id))
    ∷ (bytes "name", text e.name)
    ∷ (bytes "description", text e.description)
    ∷ (bytes "location", text e.location)
    ∷ (bytes "starts_at", text (env.time_text e.starts_at))
    ∷ (bytes "ends_at", text (env.time_text e.ends_at))
    ∷ (bytes "total_tickets", number e.total_tickets)
    ∷ (bytes "remaining_tickets", number e.remaining_tickets)
    ∷ (bytes "price_cents", number e.price_cents)
    ∷ (bytes "status", text e.status)
    ∷ (bytes "created_by", text (env.uuid_text e.created_by))
    ∷ (bytes "version", number e.version)
    ∷ (bytes "created_at", text (env.time_text e.created_at))
    ∷ (bytes "updated_at", text (env.time_text e.updated_at))
    ∷ optional_field env.time_text (bytes "deleted_at") e.deleted_at

abbrev pub get {ℓ} : {V : Type ℓ} → Text → List (Text × V) → Option V
get k [] = none
get k ((j, v) ∷ m) = if text_eq k j then some v else get k m

-- The tests `!exists || Sprintf("%v", oldVal) != Sprintf("%v", newVal)`, by fmt's `show`.
abbrev pub changed : (Value → Text) → Option Value → Value → Bool
changed show none new = true
changed show (some old) new = not (text_eq (show old) (show new))

-- The first loop of ComputeDiff: the keys of the new state.
abbrev pub diff_new : (Value → Text) → StateMap → StateMap → DiffMap
diff_new show old [] = []
diff_new show old ((k, v) ∷ m) =
    let rest = diff_new show old m in
    if changed show (get k old) v
    then (k, record { old = get k old; new = some v }) ∷ rest
    else rest

-- The second loop: the keys of the old state that the new one lacks.
abbrev pub diff_removed : StateMap → StateMap → DiffMap
diff_removed new [] = []
diff_removed new ((k, v) ∷ m) = elim (get k new) [
  | none ↦ (k, record { old = some v; new = none }) ∷ diff_removed new m
  | some _ ↦ diff_removed new m
]

unfoldable pub compute_diff : (Value → Text) → StateMap → StateMap → DiffMap
compute_diff show old new = diff_new show old new ++ diff_removed new old
