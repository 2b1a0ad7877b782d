-- ===== src/Concurrent/Commits.antt =====
-- What BookTicket commits, whatever came between its statements.
use go_ticket_booking_app.Base.{ℕ, ◌≡◌, some, none, find, arith, ◌∷◌, List, true}
use mathlib.Core.Path.{subst}
use go_ticket_booking_app.Base.Int.{◌≤ℤ◌}
use go_ticket_booking_app.Base.Text.{text_eq}
use go_ticket_booking_app.Domain.{Event, Booking}
use go_ticket_booking_app.Domain.EventStatus
use go_ticket_booking_app.World.{Database, Env, World, Result, ok, err}
use go_ticket_booking_app.World.Calls.{tx_query, commit, rollback}
use go_ticket_booking_app.World.Logic.{After}
use go_ticket_booking_app.Cache.{Cache}
use go_ticket_booking_app.Postgres.EventRepo.{is_live}
use go_ticket_booking_app.Postgres.BookingRepo.{is_active_for}
use go_ticket_booking_app.Postgres.AuditRepo
use go_ticket_booking_app.Postgres.AuditRepo.{insert_audit_log}
use go_ticket_booking_app.Postgres.Integrity.{Integrity}
use go_ticket_booking_app.Service.Booking.{finish, created_log}
use go_ticket_booking_app.Concurrent.{BookRequest, taken, over, a_booking, Server, inside, closing}
use go_ticket_booking_app.Concurrent.Steps.{seal, with_sale, step, step_book}
use go_ticket_booking_app.Concurrent.Invariant.{Good}
use go_ticket_booking_app.Concurrent.Sale.{live}
use go_ticket_booking_app.Concurrent.Safety.{Sound, interleave-Sound, begins-Sound}
use go_ticket_booking_app.Concurrent.System.{Call, System, Move, begins, interleave}

module _ {S : Type 0} (env : Env) (cache : Cache S) where
  -- The tables d with the whole booking: its row, the event's row, and the audit record of statement n.
  abbrev pub with_everything : BookRequest → Event → Booking → ℕ → ℕ → Database → Database
  with_everything r e b now n d = record (with_sale env cache r e b now d) {
    audit_logs =
        record (created_log env cache r.user_id b r.ip r.ua) {
          id = env.new_uuid n;
          created_at = env.now n;
        }
        ∷ d.audit_logs;
  }

  seal-returns :
      (r : BookRequest) (b : Booking) (d : Database) (s : Server S)
      → After
          (λ x w.
            (x ≡ b)
            × (w.db ≡ record d {
              audit_logs =
                  record (created_log env cache r.user_id b r.ip r.ua) {
                    id = env.new_uuid s.world.statements;
                    created_at = env.now s.world.statements;
                  }
                  ∷ d.audit_logs;
            }))
          (λ _ _. Unit {0})
          (seal env cache r b (inside d s))
  unfolding AuditRepo.log_in_tx tx_query insert_audit_log finish commit
  seal-returns r b d s = ground arith

  -- Of a call that has closed its transaction and returns a booking.
  closed :
      (i : ℕ) (s : Server S) (P : Booking → World S → Type 0) (r : Result Booking × World S)
      (x : Booking)
      → After P (λ _ _. Unit {0}) r
      → (closing env i s r a_booking).0 ≡ over (ok (a_booking x))
      → P x r.1
  closed i s P (ok y, w) x p e = subst (λ z. P z w) (same e) p
    where
      same : over (ok (a_booking y)) ≡ over (ok (a_booking x)) → y ≡ x
      same q = cc
  closed i s P (err z, w) x p e = cc

  -- However the calls interleave, from tables that meet the schema: a BookTicket whose COMMIT returns
  -- has made the whole booking (row, tickets, version, audit record) in the tables as they stood then,
  -- and in these every rule held: the event was not deleted, it was the row that the call had read,
  -- published, with tickets enough, and its user had no active booking of it.
  pub commit_is_booking :
      (calls : ℕ → Call) (moves : List Move) (w : World S) (i : ℕ) (r : BookRequest) (e : Event)
      (b x : Booking) (now : ℕ)
      → Integrity env w.db
      → (interleave env cache moves (begins calls w)).threads i ≡ taken r e b now
      → (step env cache i (taken r e b now) (interleave env cache moves (begins calls w)).server).0
        ≡ over (ok (a_booking x))
      → ((step env cache i
            (taken r e b now)
            (interleave env cache moves (begins calls w)).server).1.world.db
          ≡ with_everything r e b now
              (interleave env cache moves (begins calls w)).server.world.statements
              (interleave env cache moves (begins calls w)).server.world.db)
        × (x ≡ b)
        × (find
              (is_live r.event_id)
              (interleave env cache moves (begins calls w)).server.world.db.events
            ≡ some e)
        × (text_eq e.status EventStatus.published ≡ true)
        × (r.count ≤ℤ e.remaining_tickets)
        × (find
              (is_active_for r.user_id r.event_id)
              (interleave env cache moves (begins calls w)).server.world.db.bookings
            ≡ none)
  unfolding step step_book rollback finish
  commit_is_booking calls moves w i r e b x now h at returns =
      let st : System S = interleave env cache moves (begins calls w) in
      let sound : Sound env cache st =
        interleave-Sound env cache moves (begins calls w) (begins-Sound env cache calls w h) in
      let (l, p, fine) = subst (λ t. Good env i t st.server) at (sound.good i) in
      let view : Database = with_sale env cache r e b now st.server.world.db in
      let (same, made) =
        closed i st.server
          (λ y v.
            (y ≡ b)
            × (v.db ≡ with_everything r e b now st.server.world.statements st.server.world.db))
          (seal env cache r b (inside view st.server)) x (seal-returns r b view st.server)
          returns in
      (
        made,
        same,
        live env cache i st.server r e b now sound.integrity l p fine,
        l.published,
        l.enough,
        p.alone,
      )
