-- ===== src/Base/Text.antt =====
-- Go strings: sequences of bytes, with the functions of package strings that the program calls.
use Prim.Native.Nat.{ℕ, zero, suc}
use Prim.Native.Char.{code}
use Prim.Native.String.{String}
use mathlib.Core.Path.{◌≡◌, refl}
use mathlib.Core.Bool.{Bool, true, false, not, ◌&&◌}
use mathlib.Core.Option.{Option, none, some}
use mathlib.Core.List.{List, [], ◌∷◌, ◌++◌}
use native.Mathlib.Omega.{arith}
use go_ticket_booking_app.Base.Tests.{◌==◌, if◌then◌else◌}

abbrev pub Text : Type 0
Text = List ℕ

-- The bytes of an ASCII literal.
abbrev pub bytes : String → Text
bytes String.[] = []
bytes (String.◌∷◌ c s) = code c ∷ bytes s

abbrev pub text_eq : Text → Text → Bool
text_eq [] [] = true
text_eq [] (_ ∷ _) = false
text_eq (_ ∷ _) [] = false
text_eq (a ∷ s) (b ∷ t) = a == b && text_eq s t

pub text_eq_refl : (s : Text) → text_eq s s ≡ true
text_eq_refl [] = refl
text_eq_refl (a ∷ s) = ground (arith, text_eq_refl s)

pub text_eq_sym : (s t : Text) → text_eq s t ≡ text_eq t s
text_eq_sym [] [] = refl
text_eq_sym [] (b ∷ t) = refl
text_eq_sym (a ∷ s) [] = refl
text_eq_sym (a ∷ s) (b ∷ t) = ground (arith, text_eq_sym s t)

pub text_eq→eq : (s t : Text) → text_eq s t ≡ true → s ≡ t
text_eq→eq [] [] h = refl
text_eq→eq [] (b ∷ t) h = cc
text_eq→eq (a ∷ s) [] h = cc
text_eq→eq (a ∷ s) (b ∷ t) h = ground (arith, text_eq→eq s t)

-- The text before the first `sep` and the text after it, where there is one.
abbrev pub cut_found : ℕ → Option (Text × Text) → Option (Text × Text)
cut_found a none = none
cut_found a (some (s, t)) = some (a ∷ s, t)

abbrev pub cut : ℕ → Text → Option (Text × Text)
cut sep [] = none
cut sep (a ∷ s) = if a == sep then some ([], s) else cut_found a (cut sep s)

-- strings.SplitN(s, sep, n), for a separator of one byte.
abbrev pub split_n : ℕ → ℕ → Text → List Text
split_n sep zero s = []
split_n sep (suc zero) s = s ∷ []
split_n sep (suc (suc n)) s = elim (cut sep s) [
  | none ↦ s ∷ []
  | some (a, rest) ↦ a ∷ split_n sep (suc n) rest
]

-- strings.TrimPrefix, for a prefix of one byte.
abbrev pub trim_prefix : ℕ → Text → Text
trim_prefix b [] = []
trim_prefix b (a ∷ s) = if a == b then s else a ∷ s

-- The text before the last `sep`, where there is one: s[:strings.LastIndex(s, sep)].
abbrev pub before_last : ℕ → Text → Option Text
before_last sep [] = none
before_last sep (a ∷ s) = elim (before_last sep s) [
  | some t ↦ some (a ∷ t)
  | none ↦ if a == sep then some [] else none
]

-- The byte does not stand in the text.
abbrev pub free_of : ℕ → Text → Bool
free_of sep [] = true
free_of sep (a ∷ s) = not (a == sep) && free_of sep s

pub cut-free : (sep : ℕ) (s : Text) → free_of sep s ≡ true → cut sep s ≡ none
cut-free sep [] h = refl
cut-free sep (a ∷ s) h = ground (arith, cut-free sep s)

pub cut-append :
    (sep : ℕ) (s t : Text) → free_of sep s ≡ true → cut sep (s ++ sep ∷ t) ≡ some (s, t)
cut-append sep [] t h = ground arith
cut-append sep (a ∷ s) t h = ground (arith, cut-append sep s t)

pub before_last-free : (sep : ℕ) (s : Text) → free_of sep s ≡ true → before_last sep s ≡ none
before_last-free sep [] h = refl
before_last-free sep (a ∷ s) h = ground (arith, before_last-free sep s)

pub before_last-append :
    (sep : ℕ) (s t : Text) → free_of sep t ≡ true → before_last sep (s ++ sep ∷ t) ≡ some s
before_last-append sep [] t h = ground (arith, before_last-free sep t h)
before_last-append sep (a ∷ s) t h = ground (arith, before_last-append sep s t h)
