-- ===== src/Concurrent/Safety.antt =====
-- No interleaving of the calls oversells an event.
use go_ticket_booking_app.Base.{
  ℕ, ◌≡◌, refl, sym, some, arith, Bool-cases, inl, inr, ◌==◌, ==_iff, false, List, [], ◌∷◌,
}
use mathlib.Core.Path.{subst}
use go_ticket_booking_app.Base.Int.{ℤ, ◌≤ℤ◌}
use go_ticket_booking_app.Domain.Errors.{driver, connection_lost}
use go_ticket_booking_app.World.{Database, Env, World, err}
use go_ticket_booking_app.Cache.{Cache}
use go_ticket_booking_app.Postgres.Integrity.{Integrity}
use go_ticket_booking_app.Postgres.Capacity.{capacity, sold}
use go_ticket_booking_app.Service.Booking.History.{sold_within}
use go_ticket_booking_app.Concurrent.{
  Thread, books, selected, inserted, taken, cancels, owned, marked, restored, consults, updates,
  has_read, deletes, removes, creates, creates_all, over, is_over, Server,
}
use go_ticket_booking_app.Concurrent.Steps.{step, abort, step_event}
use go_ticket_booking_app.Concurrent.Invariant.{Good, Good-kept}
use go_ticket_booking_app.Concurrent.Stepping.{
  NoMore, Stepped, same-NoMore, same-Changed, waiting-Stepped, ending-Stepped,
}
use go_ticket_booking_app.Concurrent.BookStep.{books-Stepped, selected-Stepped}
use go_ticket_booking_app.Concurrent.BookStep.Selling.{inserted-Stepped, taken-Stepped}
use go_ticket_booking_app.Concurrent.CancelStep.{cancels-Stepped, owned-Stepped}
use go_ticket_booking_app.Concurrent.CancelStep.Restoring.{marked-Stepped, restored-Stepped}
use go_ticket_booking_app.Concurrent.EventStep.{reading-Stepped, consults-Stepped, updates-Stepped}
use go_ticket_booking_app.Concurrent.EventStep.Writing.{has_read-Stepped, removes-Stepped}
use go_ticket_booking_app.Concurrent.Insertion.{creates-Stepped, creates_all-Stepped}
use go_ticket_booking_app.Concurrent.System.{
  Call, book_ticket, cancel_booking, update_event, delete_event, create_event, batch_create_events,
  start, System, Move, proceeds, aborts, settled, begins, move, interleave,
}

NoMore-trans : (env : Env) (a b c : Database) → NoMore env a b → NoMore env b c → NoMore env a c
NoMore-trans env a b c h k = record {
  integrity = k.integrity;
  at_most = λ id t cap.
      let (u, cap_u, less) = h.at_most id t cap in
      let (v, cap_v, less_v) = k.at_most id u cap_u in (v, cap_v, ground arith);
}

module _ {S : Type 0} (env : Env) (cache : Cache S) where
  -- The tables meet the schema, and every call is where its rows and locks allow.
  pub record Sound (st : System S) : Type 0 where
    pub integrity : Integrity env st.server.world.db
    pub good : (j : ℕ) → Good env j (st.threads j) st.server

  module _ (i : ℕ) (s : Server S) (h : Integrity env s.world.db) where
    step-Stepped : (t : Thread) → Good env i t s → Stepped env i s (step env cache i t s)
    unfolding step step_event
    step-Stepped (books r) g = books-Stepped env cache i s h r
    step-Stepped (selected r e) g = selected-Stepped env cache i s h r e g
    step-Stepped (inserted r e b) (l, p) = inserted-Stepped env cache i s h r e b l p
    step-Stepped (taken r e b now) (l, p, fine) = taken-Stepped env cache i s h r e b now l p fine
    step-Stepped (cancels c) g = cancels-Stepped env cache i s h c
    step-Stepped (owned c old) g = owned-Stepped env cache i s h c old
    step-Stepped (marked c old bk now) g = marked-Stepped env cache i s h c old bk now g
    step-Stepped (restored c old bk now seen later) (m, r) =
        restored-Stepped env cache i s h c old bk now seen later m r
    step-Stepped (consults id req actor_id) g = consults-Stepped env cache i s h id req actor_id
    step-Stepped (updates id req actor_id) g = updates-Stepped env cache i s h id req actor_id g
    step-Stepped (has_read id req actor_id old) (v, n) =
        has_read-Stepped env cache i s h id req actor_id old v n
    step-Stepped (deletes id actor_id) g =
        reading-Stepped env cache i s h id (λ old. removes id actor_id old) (λ _ _ _ _. tt)
    step-Stepped (removes id actor_id old) g = removes-Stepped env cache i s h id actor_id old
    step-Stepped (creates req actor_id) g = creates-Stepped env cache i s h req actor_id
    step-Stepped (creates_all reqs actor_id) g = creates_all-Stepped env cache i s h reqs actor_id
    step-Stepped (over r) g = waiting-Stepped env i s h (over r) tt

    abort-Stepped : (t : Thread) → Good env i t s → Stepped env i s (abort env cache i t s)
    abort-Stepped t g = elim (Bool-cases (is_over t)) [
      | inl done ↦ rw done (waiting-Stepped env i s h t g)
      | inr running ↦ rw running (
          ending-Stepped env i s (err (driver connection_lost)) s.world
            (same-Changed env i s h s.world.db refl))
    ]

  settled-Sound :
      (i : ℕ) (st : System S) (out : Thread × Server S)
      → Sound st
      → Stepped env i st.server out
      → Sound (settled i st.threads out)
  settled-Sound i st (t, s) h k = record {
    integrity = k.tables.integrity;
    good = λ j. elim (Bool-cases (j == i)) [
      | inl mine ↦ rw mine (subst (λ n. Good env n t s) (sym ((==_iff _ _).0 mine)) k.good)
      | inr away ↦ rw away (
          Good-kept env j st.server s (k.respects j (λ e. apart j e away)) (st.threads j)
            (h.good j))
    ];
  }
    where
      apart : (j : ℕ) → j ≡ i → (j == i) ≡ false → ⊥
      apart j e n = ground arith

  move-Sound :
      (m : Move) (st : System S)
      → Sound st
      → Sound (move env cache m st)
        × NoMore env st.server.world.db (move env cache m st).server.world.db
  unfolding move
  move-Sound (proceeds i) st h =
      let k : Stepped env i st.server (step env cache i (st.threads i) st.server) =
        step-Stepped i st.server h.integrity (st.threads i) (h.good i) in
      (settled-Sound i st (step env cache i (st.threads i) st.server) h k, k.tables)
  move-Sound (aborts i) st h =
      let k : Stepped env i st.server (abort env cache i (st.threads i) st.server) =
        abort-Stepped i st.server h.integrity (st.threads i) (h.good i) in
      (settled-Sound i st (abort env cache i (st.threads i) st.server) h k, k.tables)

  interleave-NoMore :
      (moves : List Move) (st : System S)
      → Sound st
      → NoMore env st.server.world.db (interleave env cache moves st).server.world.db
  unfolding interleave
  interleave-NoMore [] st h = same-NoMore env _ _ h.integrity refl
  interleave-NoMore (m ∷ moves) st h =
      let (next, first) = move-Sound m st h in
      NoMore-trans env _ _ _ first (interleave-NoMore moves (move env cache m st) next)

  pub interleave-Sound :
      (moves : List Move) (st : System S) → Sound st → Sound (interleave env cache moves st)
  unfolding interleave
  interleave-Sound [] st h = h
  interleave-Sound (m ∷ moves) st h =
      interleave-Sound moves (move env cache m st) (move-Sound m st h).0

  pub begins-Sound : (calls : ℕ → Call) (w : World S) → Integrity env w.db → Sound (begins calls w)
  begins-Sound calls w h = record { integrity = h; good = λ j. fresh j (calls j) }
    where
      fresh : (j : ℕ) (c : Call) → Good env j (start c) (begins calls w).server
      fresh j (book_ticket r) = tt
      fresh j (cancel_booking c) = tt
      fresh j (update_event id req actor_id) = tt
      fresh j (delete_event id actor_id) = tt
      fresh j (create_event req actor_id) = tt
      fresh j (batch_create_events reqs actor_id) = tt

  -- However the statements of any number of calls interleave, without the lock in Redis, whatever
  -- fails and whichever calls are aborted: tables that met the constraints of the schema for events
  -- and bookings meet them, and no event that was there is oversold: the tickets in its active
  -- bookings are no more than its unsold and booked tickets were at the start. (A client that updates
  -- an event names the version that it has read.)
  pub interleave_no_oversell :
      (calls : ℕ → Call) (moves : List Move) (w : World S) (id : ℕ) (total : ℤ)
      → Integrity env w.db
      → capacity id w.db ≡ some total
      → Integrity env (interleave env cache moves (begins calls w)).server.world.db
        × (sold id (interleave env cache moves (begins calls w)).server.world.db.bookings ≤ℤ total)
  interleave_no_oversell calls moves w id total h cap =
      let k : NoMore env w.db (interleave env cache moves (begins calls w)).server.world.db =
        interleave-NoMore moves (begins calls w) (begins-Sound calls w h) in
      let (left, cap_left, less) = k.at_most id total cap in
      let within =
        sold_within env (interleave env cache moves (begins calls w)).server.world.db id left
          k.integrity cap_left in
      (k.integrity, ground arith)
