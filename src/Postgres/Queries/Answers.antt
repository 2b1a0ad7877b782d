-- ===== src/Postgres/Queries/Answers.antt =====
-- What the queries that list rows answer.
use mathlib.Core.Path.{subst}
use mathlib.Core.List.Perm
use mathlib.Core.List.{Perm}
use go_ticket_booking_app.Base.{
  ℕ, suc, zero, ◌≤◌, ◌≡◌, ◌⊎◌, refl, inl, inr, Bool, Bool-cases, Option, none, some, Option-cases,
  false, ◌||◌, true, List, [], ◌∷◌, length, filter, arith,
}
use go_ticket_booking_app.Base.Int.{ℤ, pos, negsuc, ◌≤ℤ◌, leb_ℤ, ltb_ℤ}
use go_ticket_booking_app.Base.Text.{Text, text_eq}
use go_ticket_booking_app.Domain.{Event}
use go_ticket_booking_app.World.{Env, World, ok, delivered}
use go_ticket_booking_app.World.Calls.{pool_query}
use go_ticket_booking_app.Postgres.Queries.{
  Sorter, EventFilter, take, drop, page_limit, page_offset, is_listed, valid_status, select_events,
  list,
}
use go_ticket_booking_app.Postgres.Queries.Order.{Ascends, SorterLaws}

length-take {ℓ} : {A : Type ℓ} (n : ℕ) (xs : List A) → length (take n xs) ≤ n
length-take zero xs = omega arith
length-take (suc n) [] = omega arith
length-take (suc n) (x ∷ xs) = omega (arith, length-take n xs)

-- The number of rows asked for: a limit from 1 to 100 as it is, else 20.
abbrev pub PageSize : ℤ → ℕ → Type 0
PageSize limit n =
    ((pos 1 ≤ℤ limit) × (limit ≤ℤ pos 100) × (limit ≡ pos n))
    ⊎ (((limit ≤ℤ pos 0) ⊎ (pos 101 ≤ℤ limit)) × (n ≡ 20))

-- The number of rows passed over: the offset as it is, or none where it is negative.
abbrev pub PageStart : ℤ → ℕ → Type 0
PageStart offset k = (offset ≡ pos k) ⊎ ((offset ≤ℤ negsuc 0) × (k ≡ 0))

page_size : (limit : ℤ) → (n : ℕ) × (page_limit limit ≡ pos n) × PageSize limit n × (n ≤ 100)
page_size (pos n) = elim (Bool-cases (leb_ℤ (pos n) (pos 0) || ltb_ℤ (pos 100) (pos n))) [
  | inl out ↦ (20, ground arith, inr (ground arith, refl), ground arith)
  | inr within ↦ (n, ground arith, inl (ground arith, ground arith, refl), ground arith)
]
page_size (negsuc n) = (20, ground arith, inr (inl (ground arith), refl), ground arith)

page_start : (offset : ℤ) → (k : ℕ) × (page_offset offset ≡ pos k) × PageStart offset k
page_start (pos k) = (k, ground arith, inl refl)
page_start (negsuc k) = (0, ground arith, inr (ground arith, refl))

-- An event that is not deleted and has the status asked for, if any.
abbrev pub asked_for : Option Text → Event → Bool
asked_for none e = elim e.deleted_at [ none ↦ true | some t ↦ false ]
asked_for (some s) e = elim e.deleted_at [ none ↦ text_eq e.status s | some t ↦ false ]

filter-same {ℓ} :
    {A : Type ℓ} (p q : A → Bool)
    → ((x : A) → p x ≡ q x)
    → (xs : List A) → filter p xs ≡ filter q xs
filter-same p q same [] = refl
filter-same p q same (x ∷ xs) = rw (same x, filter-same p q same xs) refl

is_listed-asked_for : (s : Option Text) (e : Event) → is_listed s e ≡ asked_for s e
is_listed-asked_for none e = elim (Option-cases e.deleted_at) [
  | inl live ↦ rw live refl
  | inr (t, gone) ↦ rw gone refl
]
is_listed-asked_for (some s) e = elim (Option-cases e.deleted_at) [
  | inl live ↦ rw live refl
  | inr (t, gone) ↦ rw gone refl
]

module _ (sorter : Sorter) (laws : SorterLaws sorter) {S : Type 0} (env : Env) where
  -- Where nothing is lost and the status asked for, if any, is one of the schema: List returns the
  -- page of the events that are not deleted and have the status, each once and ordered by their
  -- start. The page begins at the offset, or at the first event for a negative one, and has at most
  -- as many events as the limit, or 20 where this is not from 1 to 100. No table is changed.
  pub list_page :
      (f : EventFilter) (w : World S)
      → env.delivery w.statements ≡ delivered
      → valid_status f.status ≡ true
      → (all : List Event) × (n k : ℕ) × Ascends (λ e. e.starts_at) all
        × Perm all (filter (asked_for f.status) w.db.events)
        × PageSize f.limit n
        × PageStart f.offset k
        × (list sorter env f w
            ≡ (ok (take n (drop k all)), record w { statements = suc w.statements }))
        × (length (take n (drop k all)) ≤ 100)
  unfolding list select_events pool_query
  list_page f w arrives valid =
      let all : List Event =
        sorter.ascending Event w.statements (λ e. e.starts_at)
          (filter (is_listed f.status) w.db.events) in
      let (n, limit, size, few) = page_size f.limit in
      let (k, offset, start) = page_start f.offset in
      (
        all,
        n,
        k,
        laws.ascends Event w.statements (λ e. e.starts_at)
            (filter (is_listed f.status) w.db.events),
        subst (λ es. Perm all es)
            (filter-same (is_listed f.status) (asked_for f.status) (is_listed-asked_for f.status)
              w.db.events)
            (laws.ascending_same Event w.statements (λ e. e.starts_at)
              (filter (is_listed f.status) w.db.events)),
        size,
        start,
        ground (arith, arrives, valid, limit, offset),
        omega (arith, length-take n (drop k all), few),
      )
