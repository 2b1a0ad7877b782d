-- ===== src/World/Logic.antt =====
-- How a property of a chain of calls follows from those of its calls: what holds of the value and
-- the state after a call that returns, and of the error and the state after one that fails.
use go_ticket_booking_app.Base.{◌≡◌, refl, ◌⊎◌, inl, inr}
use go_ticket_booking_app.Domain.Errors.{Error}
use go_ticket_booking_app.World.{World, Result, ok, err, M, ◌>>=◌, on_error, deferred}

pub Result-cases {ℓ} :
    {A : Type ℓ} (r : Result A) → ((a : A) × (r ≡ ok a)) ⊎ ((e : Error) × (r ≡ err e))
Result-cases (ok a) = inl (a, refl)
Result-cases (err e) = inr (e, refl)

module _ {S A : Type 0} where
  abbrev pub After :
      (A → World S → Type 0) → (Error → World S → Type 0) → Result A × World S → Type 0
  After P Q (ok a, w) = P a w
  After P Q (err e, w) = Q e w

  pub weaken :
      (P P' : A → World S → Type 0) (Q Q' : Error → World S → Type 0) (r : Result A × World S)
      → After P Q r
      → ((a : A) (w : World S) → P a w → P' a w)
      → ((e : Error) (w : World S) → Q e w → Q' e w)
      → After P' Q' r
  weaken P P' Q Q' (ok a, w) h f g = f a w h
  weaken P P' Q Q' (err e, w) h f g = g e w h

module _ {S A B : Type 0} (P : A → World S → Type 0) (R : B → World S → Type 0)
    (Q : Error → World S → Type 0) where
  bound-After :
      (r : Result A × World S) (f : A → M S B)
      → After P Q r
      → ((a : A) (w : World S) → P a w → After R Q (f a w))
      → After R Q (elim r.0 [ ok a ↦ f a r.1 | err e ↦ (err e, r.1) ])
  bound-After (ok a, w) f h k = k a w h
  bound-After (err e, w) f h k = h

  pub bind-After :
      (m : M S A) (f : A → M S B) (w : World S)
      → After P Q (m w)
      → ((a : A) (w' : World S) → P a w' → After R Q (f a w'))
      → After R Q ((m >>= f) w)
  bind-After m f w h k = bound-After (m w) f h k

module _ {S A : Type 0} (P : A → World S → Type 0) (Q : Error → World S → Type 0) where
  pub on_error-After :
      (g : Error → Error) (m : M S A) (w : World S)
      → After P (λ e w'. Q (g e) w') (m w)
      → After P Q (on_error g m w)
  on_error-After g m w h = mapped (m w) h
    where
      mapped :
          (r : Result A × World S)
          → After P (λ e w'. Q (g e) w') r
          → After P Q (elim r.0 [ ok a ↦ (ok a, r.1) | err e ↦ (err (g e), r.1) ])
      mapped (ok a, v) k = k
      mapped (err e, v) k = k

  pub deferred-After :
      {B : Type 0} (cleanup : M S B) (m : M S A) (w : World S)
      → After (λ a w'. P a (cleanup w').1) (λ e w'. Q e (cleanup w').1) (m w)
      → After P Q (deferred cleanup m w)
  deferred-After cleanup m w h = cleaned (m w) h
    where
      cleaned :
          (r : Result A × World S)
          → After (λ a w'. P a (cleanup w').1) (λ e w'. Q e (cleanup w').1) r
          → After P Q (r.0, (cleanup r.1).1)
      cleaned (ok a, v) k = k
      cleaned (err e, v) k = k

-- The same for the state alone, whether a call returns or fails.
module _ {S A B : Type 0} (P Q : World S → Type 0) where
  bound-state :
      (r : Result A × World S) (f : A → M S B)
      → P r.1
      → ((w : World S) → P w → Q w)
      → ((a : A) (w : World S) → P w → Q (f a w).1)
      → Q (elim r.0 as (λ _. Result B × World S) [ ok a ↦ f a r.1 | err e ↦ (err e, r.1) ]).1
  bound-state (ok a, w) f h g k = k a w h
  bound-state (err e, w) f h g k = g w h

  pub bind-state :
      (m : M S A) (f : A → M S B) (w : World S)
      → P (m w).1
      → ((w' : World S) → P w' → Q w')
      → ((a : A) (w' : World S) → P w' → Q (f a w').1)
      → Q ((m >>= f) w).1
  bind-state m f w h g k = bound-state (m w) f h g k
