-- ===== src/Base/Rows.antt =====
-- Lists as the rows of a table: what a statement finds before and after an update, and a key that
-- no two rows share.
use mathlib.Core.Option
use mathlib.Core.Path.{subst}
use go_ticket_booking_app.Base.Tests.{◌==◌, ==_iff, if◌then◌else◌, Bool-cases}
use go_ticket_booking_app.Base.Lists.{All, find, filter, length, modify_where}
use Prim.Native.Nat.{ℕ}
use mathlib.Core.Path.{◌≡◌, refl}
use mathlib.Core.Logic.{inl, inr, ◌≢◌}
use mathlib.Core.Bool.{Bool, true, false, ◌&&◌}
use mathlib.Core.Option.{Option, none, some}
use mathlib.Core.List.{List, [], ◌∷◌}
use native.Mathlib.Omega.{arith}

module _ {ℓ} {A : Type ℓ} where
  pub All-find {κ} :
      (P : A → Type κ) (p : A → Bool) (xs : List A) (x : A) → All P xs → find p xs ≡ some x → P x
  All-find P p [] x h e = cc
  All-find P p (y ∷ xs) x h e = ground (arith, All-find P p xs x h.1)

  pub find_holds : (p : A → Bool) (xs : List A) (x : A) → find p xs ≡ some x → p x ≡ true
  find_holds p [] x e = cc
  find_holds p (y ∷ xs) x e = ground (arith, find_holds p xs x)

module _ {ℓ} {A : Type ℓ} (key : A → ℕ) where
  abbrev pub has_key : ℕ → A → Bool
  has_key k r = key r == k

  -- No key stands twice.
  abbrev pub Distinct : List A → Type ℓ
  Distinct [] = Unit
  Distinct (x ∷ xs) = (find (has_key (key x)) xs ≡ none) × Distinct xs

  abbrev pub KeepsKey : (A → A) → Type ℓ
  KeepsKey f = (r : A) → key (f r) ≡ key r

  -- An update that keeps the key changes the row that the key finds, and no other lookup.
  pub find-modify_where :
      (k : ℕ) (p : A → Bool) (f : A → A) (xs : List A)
      → KeepsKey f
      → find (has_key k) (modify_where p f xs)
        ≡ Option.map (λ r. if p r then f r else r) (find (has_key k) xs)
  find-modify_where k p f [] h = refl
  find-modify_where k p f (x ∷ xs) h = ground (arith, h x, find-modify_where k p f xs h)

  pub modify_where-Distinct :
      (p : A → Bool) (f : A → A) (xs : List A)
      → KeepsKey f
      → Distinct xs
      → Distinct (modify_where p f xs)
  modify_where-Distinct p f [] h d = tt
  modify_where-Distinct p f (x ∷ xs) h d =
      ground (arith, h x, find-modify_where (key x) p f xs h, modify_where-Distinct p f xs h d.1)

  not_found :
      (k j : ℕ) (xs : List A) (x : A)
      → j ≡ k
      → find (has_key k) xs ≡ some x
      → ¬ (find (has_key j) xs ≡ none)
  not_found k j xs x e h n = cc (rw e at n)

  -- With distinct keys, the row found under a further condition is the row of its key.
  pub find_by_key :
      (k : ℕ) (q : A → Bool) (xs : List A) (x : A)
      → Distinct xs
      → find (λ r. has_key k r && q r) xs ≡ some x
      → find (has_key k) xs ≡ some x
  find_by_key k q [] x d e = cc
  find_by_key k q (y ∷ xs) x d e = elim (Bool-cases (has_key k y)) [
    | inl hit ↦ elim (Bool-cases (q y)) [
      | inl chosen ↦ ground arith
      | inr other ↦ absurd (
          not_found k (key y) xs x ((==_iff _ _).0 hit) (find_by_key k q xs x d.1 (ground arith))
            d.0)
    ]
    | inr miss ↦ ground (arith, find_by_key k q xs x d.1)
  ]

  -- The first row of a key, if it meets a further condition, is the first that meets both.
  pub find_with :
      (k : ℕ) (q : A → Bool) (xs : List A) (x : A)
      → find (has_key k) xs ≡ some x
      → q x ≡ true
      → find (λ r. has_key k r && q r) xs ≡ some x
  find_with k q [] x e h = cc
  find_with k q (y ∷ xs) x e h = ground (arith, find_with k q xs x)

  none_with :
      (k : ℕ) (q : A → Bool) (xs : List A)
      → find (has_key k) xs ≡ none
      → find (λ r. has_key k r && q r) xs ≡ none
  none_with k q [] n = refl
  none_with k q (y ∷ xs) n = ground (arith, none_with k q xs)

  -- With distinct keys, a condition that the row of the key fails is met by no row of that key.
  pub find_without :
      (k : ℕ) (q : A → Bool) (xs : List A) (x : A)
      → Distinct xs
      → find (has_key k) xs ≡ some x
      → q x ≡ false
      → find (λ r. has_key k r && q r) xs ≡ none
  find_without k q [] x d e h = refl
  find_without k q (y ∷ xs) x d e h = elim (Bool-cases (has_key k y)) [
    | inl hit ↦
        let rest : find (has_key k) xs ≡ none =
          subst (λ j. find (has_key j) xs ≡ none) ((==_iff _ _).0 hit) d.0 in
        ground (arith, none_with k q xs rest)
    | inr miss ↦ ground (arith, find_without k q xs x d.1)
  ]

module _ {ℓ} {A : Type ℓ} where
  -- A row that is found is counted by every condition that it meets.
  pub filter_found :
      (p q : A → Bool) (xs : List A) (x : A)
      → find p xs ≡ some x
      → q x ≡ true
      → length (filter q xs) ≢ 0
  filter_found p q [] x e h = cc
  filter_found p q (y ∷ xs) x e h = ground (arith, filter_found p q xs x)

  -- An update of no row is none.
  pub modify_where-missing :
      (p : A → Bool) (f : A → A) (xs : List A) → find p xs ≡ none → modify_where p f xs ≡ xs
  modify_where-missing p f [] e = refl
  modify_where-missing p f (y ∷ xs) e = ground (arith, modify_where-missing p f xs)

module _ {ℓ} {A : Type ℓ} (key : A → ℕ) where
  -- A new version in the place of the row of a key: no other lookup changes.
  pub find-put :
      (k j : ℕ) (y : A) (xs : List A)
      → key y ≡ k
      → ¬ (j ≡ k)
      → find (has_key key j) (modify_where (has_key key k) (λ _. y) xs) ≡ find (has_key key j) xs
  find-put k j y [] e n = refl
  find-put k j y (x ∷ xs) e n = ground (arith, find-put k j y xs e n)

  -- Where keys are distinct, to put f e in the place of the row e is to update the rows by f on any
  -- condition that e meets, and only rows of its key can meet.
  pub put_update :
      (k : ℕ) (p : A → Bool) (f : A → A) (xs : List A) (e : A)
      → Distinct key xs
      → find (has_key key k) xs ≡ some e
      → p e ≡ true
      → ((r : A) → p r ≡ true → has_key key k r ≡ true)
      → modify_where (has_key key k) (λ _. f e) xs ≡ modify_where p f xs
  put_update k p f [] e d q m only = refl
  put_update k p f (x ∷ xs) e d q m only = elim (Bool-cases (has_key key k x)) [
    | inl hit ↦
        let rest : find (has_key key k) xs ≡ none =
          subst (λ j. find (has_key key j) xs ≡ none) ((==_iff _ _).0 hit) d.0 in
        let same : some x ≡ some e = ground arith in
        let none_left : find p xs ≡ none = no_other k p xs rest only in
        ground (
          arith,
          modify_where-missing (has_key key k) (λ _. f e) xs rest,
          modify_where-missing p f xs none_left,
        )
    | inr miss ↦ ground (arith, only x, put_update k p f xs e d.1)
  ]
    where
      no_other :
          (k : ℕ) (p : A → Bool) (ys : List A)
          → find (has_key key k) ys ≡ none
          → ((r : A) → p r ≡ true → has_key key k r ≡ true)
          → find p ys ≡ none
      no_other k p [] n o = refl
      no_other k p (y ∷ ys) n o = ground (arith, o y, no_other k p ys)

module _ {ℓ} {A : Type ℓ} where
  pub put-All {κ} :
      (P : A → Type κ) (p : A → Bool) (y : A) (xs : List A)
      → All P xs
      → P y
      → All P (modify_where p (λ _. y) xs)
  put-All P p y [] h k = tt
  put-All P p y (x ∷ xs) (hx, h) k =
      (elim (Bool-cases (p x)) [ inl hit ↦ rw hit k | inr miss ↦ rw miss hx ], put-All P p y xs h k)

module _ {ℓ} {A : Type ℓ} (key : A → ℕ) where
  pub put-found :
      (k : ℕ) (y e : A) (xs : List A)
      → key y ≡ k
      → find (has_key key k) xs ≡ some e
      → find (has_key key k) (modify_where (has_key key k) (λ _. y) xs) ≡ some y
  put-found k y e [] h f = cc
  put-found k y e (x ∷ xs) h f = ground (arith, put-found k y e xs h)
