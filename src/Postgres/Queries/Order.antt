-- ===== src/Postgres/Queries/Order.antt =====
-- What ORDER BY promises, and a sort that keeps the promise.
use mathlib.Core.List.Perm
use mathlib.Core.List.{Perm}
use go_ticket_booking_app.Base.{
  ℕ, ◌≤◌, inl, inr, Bool, List, [], ◌∷◌, if◌then◌else◌, leb, arith, Bool-cases,
}
use go_ticket_booking_app.Postgres.Queries.{Sorter}

module _ {A : Type 0} (key : A → ℕ) where
  -- No key is less than the one before it, and none greater.
  abbrev pub Ascends : List A → Type 0
  Ascends [] = Unit {0}
  Ascends (x ∷ []) = Unit {0}
  Ascends (x ∷ y ∷ xs) = (key x ≤ key y) × Ascends (y ∷ xs)

  abbrev pub Descends : List A → Type 0
  Descends [] = Unit {0}
  Descends (x ∷ []) = Unit {0}
  Descends (x ∷ y ∷ xs) = (key y ≤ key x) × Descends (y ∷ xs)

-- The same rows, in the order of their keys.
pub record SorterLaws (sorter : Sorter) : Type 1 where
  pub ascends :
      (A : Type 0) (t : ℕ) (key : A → ℕ) (xs : List A) → Ascends key (sorter.ascending A t key xs)
  pub ascending_same :
      (A : Type 0) (t : ℕ) (key : A → ℕ) (xs : List A) → Perm (sorter.ascending A t key xs) xs
  pub descends :
      (A : Type 0) (t : ℕ) (key : A → ℕ) (xs : List A) → Descends key (sorter.descending A t key xs)
  pub descending_same :
      (A : Type 0) (t : ℕ) (key : A → ℕ) (xs : List A) → Perm (sorter.descending A t key xs) xs

abbrev geb : ℕ → ℕ → Bool
geb a b = leb b a

-- Insertion sort, where `before` says which key comes first.
module _ {A : Type 0} (before : ℕ → ℕ → Bool) (key : A → ℕ) where
  abbrev insert : A → List A → List A
  insert x [] = x ∷ []
  insert x (y ∷ ys) =
      let rest = insert x ys in if before (key x) (key y) then x ∷ y ∷ ys else y ∷ rest

  abbrev insertion : List A → List A
  insertion [] = []
  insertion (x ∷ xs) = insert x (insertion xs)

  insert-same : (x : A) (xs : List A) → Perm (insert x xs) (x ∷ xs)
  insert-same x [] = Perm.refl (x ∷ [])
  insert-same x (y ∷ ys) = elim (Bool-cases (before (key x) (key y))) [
    | inl first ↦ rw first (Perm.refl (x ∷ y ∷ ys))
    | inr later ↦ rw later (Perm.trans (Perm.cons y (insert-same x ys)) (Perm.swap x y ys))
  ]

  insertion-same : (xs : List A) → Perm (insertion xs) xs
  insertion-same [] = Perm.nil
  insertion-same (x ∷ xs) =
      Perm.trans (insert-same x (insertion xs)) (Perm.cons x (insertion-same xs))

module _ {A : Type 0} (key : A → ℕ) where
  insert-Ascends : (x : A) (xs : List A) → Ascends key xs → Ascends key (insert leb key x xs)
  insert-Ascends x [] h = tt
  insert-Ascends x (y ∷ []) h = ground arith
  insert-Ascends x (y ∷ z ∷ zs) h = ground (arith, insert-Ascends x (z ∷ zs))

  insertion-Ascends : (xs : List A) → Ascends key (insertion leb key xs)
  insertion-Ascends [] = tt
  insertion-Ascends (x ∷ xs) = insert-Ascends x (insertion leb key xs) (insertion-Ascends xs)

  insert-Descends : (x : A) (xs : List A) → Descends key xs → Descends key (insert geb key x xs)
  insert-Descends x [] h = tt
  insert-Descends x (y ∷ []) h = ground arith
  insert-Descends x (y ∷ z ∷ zs) h = ground (arith, insert-Descends x (z ∷ zs))

  insertion-Descends : (xs : List A) → Descends key (insertion geb key xs)
  insertion-Descends [] = tt
  insertion-Descends (x ∷ xs) = insert-Descends x (insertion geb key xs) (insertion-Descends xs)

abbrev pub insertion_sorter : Sorter
insertion_sorter = record {
  ascending = λ A t key xs. insertion leb key xs;
  descending = λ A t key xs. insertion geb key xs;
}

pub insertion_sorter-SorterLaws : SorterLaws insertion_sorter
insertion_sorter-SorterLaws = record {
  ascends = λ A t key xs. insertion-Ascends key xs;
  ascending_same = λ A t key xs. insertion-same leb key xs;
  descends = λ A t key xs. insertion-Descends key xs;
  descending_same = λ A t key xs. insertion-same geb key xs;
}
