-- ===== src/Base/Decimal.antt =====
-- strconv.Itoa and strconv.Atoi: decimal texts of the int64 values.
use Prim.Native.Nat.{ℕ, zero, suc, ◌+◌, ◌-◌, ◌*◌, ◌/◌, ◌%◌, ◌^◌, ◌≤◌, ◌<◌}
use mathlib.Core.Path.{◌≡◌, refl, ap}
use mathlib.Core.Logic.{inl, inr}
use mathlib.Core.Bool.{◌&&◌}
use mathlib.Core.Option.{Option, none, some}
use mathlib.Core.List.{[], ◌∷◌, ◌++◌}
use native.Mathlib.Omega.{arith}
use go_ticket_booking_app.Base.Tests.{ltb, leb, ◌==◌, if◌then◌else◌, Bool-cases}
use go_ticket_booking_app.Base.Int.{ℤ, pos, negsuc}
use go_ticket_booking_app.Base.Text.{Text}

-- The digits of n, with fuel; more than n of it is enough.
pub digits : ℕ → ℕ → Text
digits zero n = []
digits (suc fuel) n =
    let front = digits fuel (n / 10) in
    if ltb n 10 then (48 + n) ∷ [] else front ++ (48 + n % 10) ∷ []

unfoldable pub itoa_ℕ : ℕ → Text
unfolding digits
itoa_ℕ n = digits (suc n) n

unfoldable pub itoa : ℤ → Text
itoa (pos n) = itoa_ℕ n
itoa (negsuc n) = b'-' ∷ itoa_ℕ (suc n)

unfoldable pub parse_digits : ℕ → Text → Option ℕ
parse_digits acc [] = some acc
parse_digits acc (c ∷ s) =
    let rest = parse_digits (acc * 10 + (c - 48)) s in if leb 48 c && ltb c 58 then rest else none

-- At least one digit.
abbrev pub parse_number : Text → Option ℕ
parse_number [] = none
parse_number (c ∷ s) = parse_digits 0 (c ∷ s)

abbrev pub in_range_pos : Option ℕ → Option ℤ
in_range_pos none = none
in_range_pos (some n) = if ltb n (2 ^ 63) then some (pos n) else none

abbrev pub in_range_neg : Option ℕ → Option ℤ
in_range_neg none = none
in_range_neg (some zero) = some (pos 0)
in_range_neg (some (suc n)) = if ltb n (2 ^ 63) then some (negsuc n) else none

-- strconv.Atoi, where an error is `none`.
unfoldable pub atoi : Text → Option ℤ
atoi [] = none
atoi (c ∷ s) =
    if c == b'-'
    then in_range_neg (parse_number s)
    else (if c == b'+' then in_range_pos (parse_number s) else in_range_pos (parse_number (c ∷ s)))

parse_digits-append :
    (acc mid n : ℕ) (s t : Text)
    → parse_digits acc s ≡ some mid
    → parse_digits mid t ≡ some n
    → parse_digits acc (s ++ t) ≡ some n
unfolding parse_digits
parse_digits-append acc mid n [] t h k = ground arith
parse_digits-append acc mid n (c ∷ s) t h k =
    ground (arith, parse_digits-append (acc * 10 + (c - 48)) mid n s t)

pub parse_digits-digits : (fuel n : ℕ) → n < fuel → parse_digits 0 (digits fuel n) ≡ some n
unfolding digits parse_digits
parse_digits-digits zero n h = absurd (omega arith)
parse_digits-digits (suc fuel) n h = elim (Bool-cases (ltb n 10)) [
  | inl small ↦ ground arith
  | inr large ↦ rw large (
      parse_digits-append 0 (n / 10) n (digits fuel (n / 10)) ((48 + n % 10) ∷ [])
        (parse_digits-digits fuel (n / 10) (ground arith)) (ground arith))
]

-- The digits of a number begin with a digit.
digits_head :
    (fuel n : ℕ) → n < fuel → (c : ℕ) × (s : Text) × (digits fuel n ≡ c ∷ s) × (48 ≤ c) × (c < 58)
unfolding digits
digits_head zero n h = absurd (omega arith)
digits_head (suc fuel) n h = elim (Bool-cases (ltb n 10)) [
  | inl small ↦ (48 + n, [], rw small refl, omega arith, ground arith)
  | inr large ↦
      let (c, s, e, low, high) = digits_head fuel (n / 10) (ground arith) in
      (c, s ++ (48 + n % 10) ∷ [], rw (large, e) refl, low, high)
]

parse_number-digits :
    (fuel n : ℕ) (c : ℕ) (s : Text)
    → n < fuel
    → digits fuel n ≡ c ∷ s
    → parse_number (c ∷ s) ≡ some n
parse_number-digits fuel n c s h e = rw (← e) (parse_digits-digits fuel n h)

-- Any fuel above n gives the same digits.
pub digits_fuel : (f g n : ℕ) → n < f → n < g → digits f n ≡ digits g n
unfolding digits
digits_fuel zero g n h k = absurd (omega arith)
digits_fuel (suc f) zero n h k = absurd (omega arith)
digits_fuel (suc f) (suc g) n h k = elim (Bool-cases (ltb n 10)) [
  | inl small ↦ rw small refl
  | inr large ↦
      rw large
        (ap (λ t. t ++ (48 + n % 10) ∷ []) (digits_fuel f g (n / 10) (ground arith) (ground arith)))
]

-- The text of an int64 is read back as that int64.
pub atoi-itoa_pos : (n : ℕ) → n < 2 ^ 63 → atoi (itoa (pos n)) ≡ some (pos n)
unfolding atoi itoa itoa_ℕ
atoi-itoa_pos n h =
    let (c, s, e, low, high) = digits_head (suc n) n (omega arith) in
    rw e (ground (arith, parse_number-digits (suc n) n c s (omega arith) e))

pub atoi-itoa_neg : (n : ℕ) → n < 2 ^ 63 → atoi (itoa (negsuc n)) ≡ some (negsuc n)
unfolding atoi itoa itoa_ℕ
atoi-itoa_neg n h =
    let (c, s, e, low, high) = digits_head (suc (suc n)) (suc n) (omega arith) in
    rw e (ground (arith, parse_number-digits (suc (suc n)) (suc n) c s (omega arith) e))
