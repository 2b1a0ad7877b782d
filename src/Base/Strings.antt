-- ===== src/Base/Strings.antt =====
-- The functions of package strings on Go strings as bytes: the loops over ASCII of ToLower and
-- TrimSpace, and Contains and Join. Where a string has other runes, ToLower and TrimSpace go through
-- the tables of package unicode, which are a parameter.
use Prim.Native.Nat.{ℕ, ◌+◌}
use mathlib.Core.Bool.{Bool, false, ◌&&◌, ◌||◌}
use mathlib.Core.List.{List, [], ◌∷◌, ◌++◌}
use go_ticket_booking_app.Base.Tests.{◌==◌, ltb, leb, if◌then◌else◌}
use go_ticket_booking_app.Base.Lists.{all}
use go_ticket_booking_app.Base.Text.{Text}

-- What the functions do with runes that are not ASCII: Map(unicode.ToLower, s),
-- TrimFunc(s, unicode.IsSpace) and TrimRightFunc(s, unicode.IsSpace).
pub record Unicode : Type 0 where
  pub to_lower : Text → Text
  pub trim_space : Text → Text
  pub trim_right_space : Text → Text

abbrev pub is_ascii : ℕ → Bool
is_ascii c = ltb c 128

abbrev pub lower_byte : ℕ → ℕ
lower_byte c = if leb 65 c && leb c 90 then c + 32 else c

abbrev pub is_space : ℕ → Bool
is_space c = (leb 9 c && leb c 13) || (c == 32)

abbrev pub lower_bytes : Text → Text
lower_bytes [] = []
lower_bytes (c ∷ s) = lower_byte c ∷ lower_bytes s

abbrev pub reversed : Text → Text → Text
reversed [] t = t
reversed (c ∷ s) t = reversed s (c ∷ t)

-- strings.Contains(s, sub), for one byte.
abbrev pub contains : ℕ → Text → Bool
contains b [] = false
contains b (c ∷ s) = (c == b) || contains b s

-- strings.Join(texts, sep)
abbrev pub join : Text → List Text → Text
join sep [] = []
join sep (s ∷ []) = s
join sep (s ∷ t ∷ ts) = s ++ (sep ++ join sep (t ∷ ts))

module _ (unicode : Unicode) where
  -- strings.ToLower
  unfoldable pub to_lower : Text → Text
  to_lower s = if all is_ascii s then lower_bytes s else unicode.to_lower s

  -- The second loop of strings.TrimSpace, over the bytes from the last one on.
  abbrev pub trim_end : Text → Text
  trim_end [] = []
  trim_end (c ∷ s) =
      let rest = trim_end s in
      if is_ascii c
      then (if is_space c then rest else reversed (c ∷ s) [])
      else unicode.trim_right_space (reversed (c ∷ s) [])

  -- strings.TrimSpace
  unfoldable pub trim_space : Text → Text
  trim_space [] = []
  trim_space (c ∷ s) =
      let rest = trim_space s in
      if is_ascii c
      then (if is_space c then rest else trim_end (reversed (c ∷ s) []))
      else unicode.trim_space (c ∷ s)
