-- ===== src/Service/Auth/Plain.antt =====
-- Tokens and passwords that keep the promises of Service/Auth/Access without any cryptography: a
-- token spells out its claims and its key, and the hash of a password is the password.
use go_ticket_booking_app.Base.{
  ℕ, zero, suc, ◌+◌, inl, inr, ◌≡◌, refl, Bool, true, false, ◌&&◌, Option, none, some, [], ◌∷◌,
  if◌then◌else◌, ltb, arith,
}
use go_ticket_booking_app.Base.Int.{pos, negsuc}
use go_ticket_booking_app.Base.Text.{Text, bytes, text_eq, text_eq_refl}
use go_ticket_booking_app.Domain.{UserClaims}
use go_ticket_booking_app.Domain.Errors.{message}
use go_ticket_booking_app.World.{Result, ok, err}
use go_ticket_booking_app.World.Logic.{Result-cases}
use go_ticket_booking_app.Service.Auth.{AuthEnv, Header}
use go_ticket_booking_app.Service.Auth.Access.{AuthLaws}

-- A text with an end mark, in front of more text.
abbrev enclose : Text → Text → Text
enclose [] rest = 0 ∷ rest
enclose (c ∷ s) rest = suc c ∷ enclose s rest

abbrev consed : ℕ → Text × Text → Text × Text
consed c (s, rest) = (c ∷ s, rest)

abbrev disclose : Text → Text × Text
disclose [] = ([], [])
disclose (zero ∷ rest) = ([], rest)
disclose (suc c ∷ s) = consed c (disclose s)

disclose-enclose : (s rest : Text) → disclose (enclose s rest) ≡ (s, rest)
disclose-enclose [] rest = refl
disclose-enclose (c ∷ s) rest = ground (arith, disclose-enclose s rest)

abbrev pub header : Text → Header
header (zero ∷ _) = record { is_hmac = true; alg = bytes "HS256" }
header _ = record { is_hmac = false; alg = bytes "none" }

abbrev pub sign : Text → UserClaims → Text
sign key c =
    0 ∷ c.user_id ∷ c.issued_at ∷ c.expires_at ∷ enclose key (enclose c.email (enclose c.role []))

abbrev key_of_token : Text → Text
key_of_token (_ ∷ _ ∷ _ ∷ _ ∷ s) = (disclose s).0
key_of_token _ = []

abbrev pub signed_with : Text → Text → Bool
signed_with key token = text_eq (key_of_token token) key

abbrev claims_in : Text → Option UserClaims
claims_in (_ ∷ id ∷ issued ∷ expires ∷ s) =
    let rest = (disclose s).1 in
    some record {
      user_id = id;
      email = (disclose rest).0;
      role = (disclose (disclose rest).1).0;
      issued_at = issued;
      expires_at = expires;
    }
claims_in _ = none

abbrev verified : ℕ → Text → Text → Option UserClaims → Result UserClaims
verified now token key none = err (message (bytes "token is malformed"))
verified now token key (some c) =
    if signed_with key token && ltb now c.expires_at
    then ok c
    else err (message (bytes "token signature is invalid"))

abbrev parse : (Header → Result Text) → ℕ → Text → Result UserClaims
parse key_of now token = elim (key_of (header token)) [
  | err e ↦ err e
  | ok key ↦ verified now token key (claims_in token)
]

abbrev pub plain : AuthEnv
plain = record {
  jwt_secret = bytes "secret";
  jwt_expiry = pos 86400;
  clock = λ k. 100 + k;
  unicode = record { to_lower = λ s. s; trim_space = λ s. s; trim_right_space = λ s. s };
  hash_password = λ _ p. ok p;
  compare_password = text_eq;
  numeric_date = λ z. elim z [ pos n ↦ n | negsuc _ ↦ 0 ];
  signed_string = λ key c. ok (sign key c);
  parse_with_claims = parse;
}

verified-key :
    (now : ℕ) (token key : Text) (o : Option UserClaims) (claims : UserClaims)
    → verified now token key o ≡ ok claims
    → signed_with key token ≡ true
verified-key now token key none claims h = cc
verified-key now token key (some c) claims h = ground arith

claims_in-sign : (key : Text) (c : UserClaims) → claims_in (sign key c) ≡ some c
claims_in-sign key c = ground (
  arith,
  disclose-enclose key (enclose c.email (enclose c.role [])),
  disclose-enclose c.email (enclose c.role []),
  disclose-enclose c.role [],
)

signed_with-sign : (key : Text) (c : UserClaims) → signed_with key (sign key c) ≡ true
signed_with-sign key c =
    ground (arith, disclose-enclose key (enclose c.email (enclose c.role [])), text_eq_refl key)

pub plain-AuthLaws : AuthLaws plain header signed_with
plain-AuthLaws = record {
  parse_verified = λ key_of now token claims parsed. found key_of now token claims parsed;
  parse_signed = λ key_of now key token claims made given in_time.
      ground (arith, claims_in-sign key claims, signed_with-sign key claims);
  signs = λ key claims. (sign key claims, refl);
  signs_hmac = λ key token claims made. ground arith;
  matches = λ k password hash made. ground (arith, text_eq_refl password);
}
  where
    found :
        (key_of : Header → Result Text) (now : ℕ) (token : Text) (claims : UserClaims)
        → parse key_of now token ≡ ok claims
        → (key : Text) × (key_of (header token) ≡ ok key) × (signed_with key token ≡ true)
    found key_of now token claims parsed = elim (Result-cases (key_of (header token))) [
      | inl (key, given) ↦
          (key, given, ground (arith, verified-key now token key (claims_in token) claims))
      | inr (e, refused) ↦ absurd (ground arith)
    ]
