-- ===== src/Service/AuditDiff.antt =====
-- ComputeDiff against its description, key by key.
use go_ticket_booking_app.Base.{
  ◌≡◌, refl, Option, none, some, List, [], ◌∷◌, ◌++◌, if◌then◌else◌, arith, Bool-cases,
  Option-cases, ap, inl, inr,
}
use go_ticket_booking_app.Base.Text.{Text, text_eq, text_eq→eq}
use go_ticket_booking_app.Domain.{Value, StateMap, DiffEntry}
use go_ticket_booking_app.Service.Audit.{get, changed, diff_new, diff_removed, compute_diff}

-- No key stands twice, as in a map of Go.
abbrev pub UniqueKeys {ℓ} : {V : Type ℓ} → List (Text × V) → Type ℓ
UniqueKeys [] = Unit
UniqueKeys ((k, v) ∷ m) = (get k m ≡ none) × UniqueKeys m

-- What the diff says of a key, by what the two states hold there.
abbrev pub entry : (Value → Text) → Option Value → Option Value → Option DiffEntry
entry show none none = none
entry show (some a) none = some (record { old = some a; new = none })
entry show none (some b) = some (record { old = none; new = some b })
entry show (some a) (some b) =
    if text_eq (show a) (show b) then none else some (record { old = some a; new = some b })

abbrev or_else {ℓ} : {V : Type ℓ} → Option V → Option V → Option V
or_else none o = o
or_else (some v) o = some v

get-append {ℓ} :
    {V : Type ℓ} (k : Text) (m n : List (Text × V)) → get k (m ++ n) ≡ or_else (get k m) (get k n)
get-append k [] n = refl
get-append k ((j, v) ∷ m) n = ground (arith, get-append k m n)

abbrev new_entry : (Value → Text) → Option Value → Option Value → Option DiffEntry
new_entry show o none = none
new_entry show o (some b) =
    if changed show o b then some (record { old = o; new = some b }) else none

abbrev removed_entry : Option Value → Option Value → Option DiffEntry
removed_entry o (some _) = none
removed_entry none none = none
removed_entry (some a) none = some (record { old = some a; new = none })

get-diff_new :
    (show : Value → Text) (old m : StateMap) (k : Text)
    → UniqueKeys m
    → get k (diff_new show old m) ≡ new_entry show (get k old) (get k m)
get-diff_new show old [] k u = refl
get-diff_new show old ((j, v) ∷ m) k u = elim (Bool-cases (text_eq k j)) [
  | inl same ↦
      let e : k ≡ j = text_eq→eq k j same in
      ground (arith, ap (λ t. get t old) e, ap (λ t. get t m) e, get-diff_new show old m k u.1)
  | inr other ↦ ground (arith, get-diff_new show old m k u.1)
]

get-diff_removed :
    (new m : StateMap) (k : Text) → get k (diff_removed new m) ≡ removed_entry (get k m) (get k new)
get-diff_removed new [] k = elim (Option-cases (get k new)) [
  | inl e ↦ rw e refl
  | inr (v, e) ↦ rw e refl
]
get-diff_removed new ((j, v) ∷ m) k = elim (Bool-cases (text_eq k j)) [
  | inl same ↦
      let e : k ≡ j = text_eq→eq k j same in
      ground (arith, ap (λ t. get t new) e, get-diff_removed new m k)
  | inr other ↦ ground (arith, get-diff_removed new m k)
]

-- For every key, the diff of two states, the new one with distinct keys, holds what the description
-- says: nothing where neither state has the key, or both have values there that print alike; else the
-- old and the new value, as far as the states have them.
pub compute_diff_exact :
    (show : Value → Text) (old new : StateMap) (k : Text)
    → UniqueKeys new
    → get k (compute_diff show old new) ≡ entry show (get k old) (get k new)
unfolding compute_diff
compute_diff_exact show old new k u = ground (
  arith,
  get-append k (diff_new show old new) (diff_removed new old),
  get-diff_new show old new k u,
  get-diff_removed new old k,
)
