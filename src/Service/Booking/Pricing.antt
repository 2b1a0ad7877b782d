-- ===== src/Service/Booking/Pricing.antt =====
-- The price of a booking, `int64(ticketCount) * int64(event.PriceCents)`, and the row that it
-- goes into.
use go_ticket_booking_app.Base.{ℕ, ◌≡◌, none, ◌*◌, ◌^◌, ◌<◌, ◌≤◌, arith, refl}
use go_ticket_booking_app.Base.Int.{ℤ, pos, negsuc, pos_part, ◌≤ℤ◌, ◌*ℤ◌, wrap64}
use go_ticket_booking_app.Domain.{Event}
use go_ticket_booking_app.World.{Env}
use go_ticket_booking_app.Postgres.Schema.{event_violation, booking_violation}
use go_ticket_booking_app.Postgres.BookingRepo.{new_booking}
use go_ticket_booking_app.Service.Booking.{total_price, requested}

-- The bounds of the columns, for the numbers that a booking multiplies.
price_bounds :
    (env : Env) (e : Event) (count : ℤ)
    → event_violation env e ≡ none
    → pos 1 ≤ℤ count
    → count ≤ℤ e.remaining_tickets
    → (c : ℕ) × (p : ℕ) × (count ≡ pos c)
      × (e.price_cents ≡ pos p)
      × (1 ≤ c)
      × (c < 2147483648)
      × (p < 2147483648)
unfolding event_violation
price_bounds env e (negsuc c) h positive enough = absurd (omega arith)
price_bounds env e (pos c) h positive enough =
    (c, pos_part e.price_cents, refl, ground arith, omega arith, ground arith, ground arith)

product_bound : (c p : ℕ) → c < 2147483648 → p < 2147483648 → c * p < 2 ^ 62
product_bound c p h k = grind arith

product_pos : (c p : ℕ) → pos c *ℤ pos p ≡ pos (c * p)
unfolding ◌*ℤ◌
product_pos c p = ground arith

wrap64-pos : (n : ℕ) → n < 2 ^ 62 → wrap64 (pos n) ≡ pos n
unfolding wrap64
wrap64-pos n h = ground arith

exact :
    (count price : ℤ) (c p : ℕ)
    → count ≡ pos c
    → price ≡ pos p
    → c < 2147483648
    → p < 2147483648
    → (wrap64 (count *ℤ price) ≡ count *ℤ price) × (pos 0 ≤ℤ wrap64 (count *ℤ price))
exact count price c p ec ep h k =
    let e : wrap64 (pos (c * p)) ≡ pos (c * p) = wrap64-pos (c * p) (product_bound c p h k) in
    rw (ec, ep, product_pos c p, e) (refl, omega arith)

-- For a row of the schema and a count that BookTicket lets through, the product does not wrap: the
-- price is the exact product, and the booking meets every constraint of its table.
pub total_price_exact :
    (env : Env) (e : Event) (count : ℤ) (user_id event_id n : ℕ)
    → event_violation env e ≡ none
    → pos 1 ≤ℤ count
    → count ≤ℤ e.remaining_tickets
    → (total_price count e ≡ count *ℤ e.price_cents)
      × (pos 0 ≤ℤ total_price count e)
      × (booking_violation (new_booking env n (requested user_id event_id count e)) ≡ none)
unfolding total_price booking_violation
total_price_exact env e count user_id event_id n h positive enough =
    let (c, p, ec, ep, one, small, cheap) = price_bounds env e count h positive enough in
    let (same, positive_price) = exact count e.price_cents c p ec ep small cheap in
    (same, positive_price, ground arith)
