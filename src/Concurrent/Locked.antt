-- ===== src/Concurrent/Locked.antt =====
-- Which calls have locked rows: those in a transaction, and no others.
use go_ticket_booking_app.Base.{ℕ}
use go_ticket_booking_app.World.{Env, World}
use go_ticket_booking_app.Cache.{Cache}
use go_ticket_booking_app.Postgres.EventRepo
use go_ticket_booking_app.Postgres.BookingRepo
use go_ticket_booking_app.Postgres.BookingRepo.{mark_cancelled}
use go_ticket_booking_app.Concurrent.System.{System}
use go_ticket_booking_app.Concurrent.Leaks.{Tidy}

module _ {S : Type 0} (env : Env) (cache : Cache S) where
  abbrev AllTidy : System S → Type 0
  AllTidy st = (j : ℕ) → Tidy j (st.threads j) st.server
