-- ===== src/Middleware/Rbac.antt =====
-- internal/middleware/rbac.go, and the Authenticate of auth.go. A middleware answers itself or
-- passes the request on; the claims in the context are those that Authenticate put there.
use go_ticket_booking_app.Base.{
  ℕ, ◌≡◌, ◌↔◌, Bool, false, not, ◌||◌, Option, none, some, List, [], ◌∷◌, ◌++◌, ◌==◌, if◌then◌else◌,
  arith, inl, inr, Option-cases,
}
use go_ticket_booking_app.Base.Text.{Text, bytes, text_eq, text_eq→eq}
use go_ticket_booking_app.Domain.{UserClaims}
use go_ticket_booking_app.Domain.Role

-- Which response a middleware writes, or the claims with which the next handler runs.
pub data Verdict : Type 0 where
  answers : ℕ → Text → Verdict
  passes : UserClaims → Verdict

-- RequireAdmin
unfoldable pub require_admin : Option UserClaims → Verdict
require_admin none = answers 403 (bytes "forbidden: admin access required")
require_admin (some claims) =
    if not (text_eq claims.role Role.admin)
    then answers 403 (bytes "forbidden: admin access required")
    else passes claims

-- The lookup in the set of allowed roles.
abbrev pub permits : List Text → Text → Bool
permits [] role = false
permits (r ∷ roles) role = text_eq r role || permits roles role

-- RequireRole
unfoldable pub require_role : List Text → Option UserClaims → Verdict
require_role roles none = answers 401 (bytes "unauthorized")
require_role roles (some claims) =
    if not (permits roles claims.role) then answers 403 (bytes "forbidden") else passes claims

-- strings.HasPrefix(header, "Bearer ") with what TrimPrefix leaves.
abbrev pub after_prefix : Text → Text → Option Text
after_prefix [] s = some s
after_prefix (a ∷ p) [] = none
after_prefix (a ∷ p) (b ∷ s) = if a == b then after_prefix p s else none

-- Authenticate, over the ValidateToken of the authentication service.
unfoldable pub authenticate : (Text → Option UserClaims) → Text → Verdict
authenticate validate_token header = elim (after_prefix (bytes "Bearer ") header) [
  | none ↦ answers 401 (bytes "missing or invalid authorization header")
  | some token ↦ elim (validate_token token) [
    | none ↦ answers 401 (bytes "invalid or expired token")
    | some claims ↦ passes claims
  ]
]

-- The claims that GetClaims finds behind a verdict.
abbrev pub get_claims : Verdict → Option UserClaims
get_claims (answers _ _) = none
get_claims (passes claims) = some claims

-- Authenticate with RequireAdmin behind it, as the router chains them for the writing routes.
unfoldable pub admin_route : (Text → Option UserClaims) → Text → Verdict
admin_route validate_token header = elim (authenticate validate_token header) [
  | answers status body ↦ answers status body
  | passes claims ↦ require_admin (some claims)
]

after_prefix-exact : (p s t : Text) → (after_prefix p s ≡ some t) ↔ (s ≡ p ++ t)
after_prefix-exact [] s t = (λ h. ground arith, λ h. ground arith)
after_prefix-exact (a ∷ p) [] t = (λ h. cc, λ h. cc)
after_prefix-exact (a ∷ p) (b ∷ s) t =
    (λ h. ground (arith, after_prefix-exact p s t), λ h. ground (arith, after_prefix-exact p s t))

-- What Authenticate lets pass has a header of "Bearer " and a token that is valid.
pub authenticate-passes :
    (validate_token : Text → Option UserClaims) (header : Text) (claims : UserClaims)
    → authenticate validate_token header ≡ passes claims
    → (token : Text) × (header ≡ bytes "Bearer " ++ token) × (validate_token token ≡ some claims)
unfolding authenticate
authenticate-passes validate_token header claims h =
    elim (Option-cases (after_prefix (bytes "Bearer ") header)) [
      | inl missing ↦ absurd (ground arith)
      | inr (token, found) ↦
          (token, (after_prefix-exact (bytes "Bearer ") header token).0 found, ground arith)
    ]

-- A request reaches a handler behind Authenticate and RequireAdmin exactly when its header is
-- "Bearer " and a token that the authentication service validates, with the claims of an admin.
pub admin_route_exact :
    (validate_token : Text → Option UserClaims) (header : Text) (claims : UserClaims)
    → (admin_route validate_token header ≡ passes claims) ↔ (
        (token : Text) × (header ≡ bytes "Bearer " ++ token)
        × (validate_token token ≡ some claims)
        × (claims.role ≡ Role.admin))
unfolding admin_route authenticate require_admin
admin_route_exact validate_token header claims = (only, enough)
  where
    only :
        admin_route validate_token header ≡ passes claims
        → (token : Text) × (header ≡ bytes "Bearer " ++ token)
          × (validate_token token ≡ some claims)
          × (claims.role ≡ Role.admin)
    only h = elim (Option-cases (after_prefix (bytes "Bearer ") header)) [
      | inl missing ↦ absurd (ground arith)
      | inr (token, found) ↦ (
        token,
        (after_prefix-exact (bytes "Bearer ") header token).0 found,
        ground arith,
        ground (arith, text_eq→eq claims.role Role.admin),
      )
    ]

    enough :
        (token : Text) × (header ≡ bytes "Bearer " ++ token)
          × (validate_token token ≡ some claims)
          × (claims.role ≡ Role.admin)
        → admin_route validate_token header ≡ passes claims
    enough (token, shape, valid, admin) =
        ground (arith, (after_prefix-exact (bytes "Bearer ") header token).1 shape)
