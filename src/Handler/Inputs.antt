-- ===== src/Handler/Inputs.antt =====
-- What the handlers read of a request besides its body: clientIP of
-- internal/handler/booking_handler.go, parseUUID and parseIntQuery of event_handler.go.
-- uuid.Parse and net.SplitHostPort are parameters, none where they return an error.
use go_ticket_booking_app.Base.{
  ℕ, ◌≡◌, ◌⊎◌, inl, inr, not, Option, none, some, if◌then◌else◌, [], arith, false,
}
use go_ticket_booking_app.Base.Int.{ℤ}
use go_ticket_booking_app.Base.Text.{Text, bytes, text_eq, split_n}
use go_ticket_booking_app.Base.Decimal.{atoi}
use go_ticket_booking_app.Middleware.RateLimiter.{Request, first_part, extract_ip}

abbrev host_or : Option Text → Text → Text
host_or none addr = addr
host_or (some host) addr = host

abbrev number_or : Option ℤ → ℤ → ℤ
number_or none fallback = fallback
number_or (some n) fallback = n

-- clientIP
unfoldable pub client_ip : (split_host_port : Text → Option Text) → Request → Text
client_ip split_host_port r =
    if not (text_eq r.real_ip [])
    then r.real_ip
    else (if not (text_eq r.forwarded_for [])
        then first_part (split_n b',' 2 r.forwarded_for)
        else host_or (split_host_port r.remote_addr) r.remote_addr)

-- parseIntQuery, given the value of the key.
unfoldable pub parse_int_query : Text → ℤ → ℤ
parse_int_query v fallback = if not (text_eq v []) then number_or (atoi v) fallback else fallback

-- parseUUID: the id, or the status and the text of the answer.
unfoldable pub parse_uuid : (parse : Text → Option ℕ) → Text → (ℕ × Text) ⊎ ℕ
parse_uuid parse s = elim (parse s) [ none ↦ inl (400, bytes "invalid UUID") | some id ↦ inr id ]

-- Behind a proxy that sets a header, the address that a booking records is the one that the rate
-- limiter counts.
pub client_ip-extract_ip :
    (split_host_port : Text → Option Text) (r : Request)
    → (text_eq r.real_ip [] ≡ false) ⊎ (text_eq r.forwarded_for [] ≡ false)
    → client_ip split_host_port r ≡ extract_ip r
unfolding client_ip extract_ip
client_ip-extract_ip split_host_port r h = ground arith
