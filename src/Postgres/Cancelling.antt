-- ===== src/Postgres/Cancelling.antt =====
-- What BookingRepo.Cancel does to the committed tables.
use mathlib.Core.Option
use go_ticket_booking_app.Base.{
  ℕ, suc, ◌≡◌, ◌⊎◌, none, some, find, modify_where, arith, ◌&&◌, ◌==◌, true,
}
use go_ticket_booking_app.Base.Rows.{has_key}
use go_ticket_booking_app.Domain.{Booking}
use go_ticket_booking_app.Domain.Errors.{Error, wrap, driver, connection_lost}
use go_ticket_booking_app.Base.Text.{bytes}
use go_ticket_booking_app.World.{Database, Env, World, Result, ok, err, on_error}
use go_ticket_booking_app.World.Calls.{tx_query, begin_tx, commit, rollback}
use go_ticket_booking_app.World.Logic.{After, bind-After}
use go_ticket_booking_app.World.Transactions.{InTx, begin_tx-After}
use go_ticket_booking_app.Postgres.Schema.{
  event_violation, booking_violation, first_violation, is_active,
}
use go_ticket_booking_app.Postgres.BookingRepo.{
  mark_cancelled, give_tickets, select_booking_of, cancel_row, restore_tickets, cancel_in_tx,
  cancel,
}
use go_ticket_booking_app.Postgres.Integrity.{event_id_of, booking_id_of}

module _ (env : Env) (key user : ℕ) (start : Database) (b : Booking) (n : ℕ) where
  -- The tables once the row `b` is cancelled, when the locking SELECT is statement n.
  abbrev pub cancelled : Database
  cancelled = record start {
    bookings =
        modify_where (has_key booking_id_of key) (mark_cancelled (env.now (suc n))) start.bookings;
    events =
        modify_where (has_key event_id_of b.event_id)
          (give_tickets (env.now (suc (suc n))) b.ticket_count) start.events;
  }

  -- What held when the booking was cancelled.
  abbrev pub MayCancel : Type 0
  MayCancel =
      (is_active b ≡ true)
      × (first_violation (event_violation env) (has_key event_id_of b.event_id)
            (give_tickets (env.now (suc (suc n))) b.ticket_count) start.events
          ≡ none)
      × (first_violation booking_violation (has_key booking_id_of key)
            (mark_cancelled (env.now (suc n))) start.bookings
          ≡ none)

  abbrev pub Cancelled : {S : Type 0} → Booking → World S → Type 0
  Cancelled row w' =
      (w'.db ≡ cancelled)
      × (some row
          ≡ Option.map (mark_cancelled (env.now (suc n)))
              (find (has_key booking_id_of key) start.bookings))
      × MayCancel

  abbrev pub NotCancelled : {S : Type 0} → Error → World S → Type 0
  NotCancelled x w' =
      (w'.db ≡ start)
      ⊎ ((w'.db ≡ cancelled)
          × (x ≡ wrap (bytes "commit cancel: ") (driver connection_lost))
          × MayCancel)

  module _ {S : Type 0} where
    cancel_in_tx-Cancelled :
        find (λ r. (r.id == key) && (r.user_id == user)) start.bookings ≡ some b
        → (w : World S) → InTx start start n w
        → After Cancelled NotCancelled (cancel_in_tx env key user w)
    unfolding cancel_in_tx tx_query commit select_booking_of cancel_row restore_tickets
    cancel_in_tx-Cancelled found w h = ground arith

    pub cancel-Cancelled :
        find (λ r. (r.id == key) && (r.user_id == user)) start.bookings ≡ some b
        → (w : World S) → w.db ≡ start
        → suc w.statements ≡ n
        → After Cancelled NotCancelled (cancel env key user w)
    unfolding cancel rollback
    cancel-Cancelled found w h k =
        bind-After (λ _ w'. InTx start start n w') Cancelled NotCancelled
          (on_error (wrap (bytes "begin cancel tx: ")) (begin_tx env)) _ w
          (ground (arith, begin_tx-After env start start w.statements w h))
          λ _ w' h'. rolled_back _ (cancel_in_tx-Cancelled found w' h')
      where
        rolled_back :
            (r : Result Booking × World S)
            → After Cancelled NotCancelled r
            → After Cancelled NotCancelled (r.0, (rollback env r.1).1)
        rolled_back (ok row, v) m = m
        rolled_back (err x, v) m = m
