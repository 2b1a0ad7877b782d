-- ===== src/Service/LostUpdate.antt =====
-- A cancellation between the read and the write of EventService.Update: BookingRepo.Cancel gives
-- tickets back and leaves the version of the event as it is.
use mathlib.Core.Path.{subst}
use go_ticket_booking_app.Base.{
  ℕ, suc, ◌≡◌, refl, sym, ap, ◌∙◌, some, find, arith, false, not, is_some, ==_iff, ◌&&◌,
}
use go_ticket_booking_app.Base.Int.{eqb_ℤ, ◌+ℤ◌}
use go_ticket_booking_app.Base.Rows.{has_key, find-modify_where, find_by_key, find_holds, find_with}
use go_ticket_booking_app.Domain.{Event, Booking}
use go_ticket_booking_app.World.{Env, World, Database}
use go_ticket_booking_app.World.Logic.{After, weaken}
use go_ticket_booking_app.Cache.{Cache}
use go_ticket_booking_app.Postgres.EventRepo.{is_live, is_at_version}
use go_ticket_booking_app.Postgres.BookingRepo.{give_tickets}
use go_ticket_booking_app.Postgres.Integrity.{Integrity, event_id_of}
use go_ticket_booking_app.Postgres.Cancelling.{cancelled}
use go_ticket_booking_app.Service.Event.{UpdateEventRequest, revised, save_event}
use go_ticket_booking_app.Service.Event.Update.{save_event-Saved}

module _ {S : Type 0} (env : Env) (cache : Cache S) (start : Database) (e : Event) (b : Booking)
    (key user n : ℕ) where
  -- The event's row once the booking is cancelled.
  abbrev pub restocked : Event
  restocked = give_tickets (env.now (suc (suc n))) b.ticket_count e

  found_restocked :
      Integrity env start
      → find (is_live b.event_id) start.events ≡ some e
      → find (is_at_version e.id e.version) (cancelled env key user start b n).events
        ≡ some restocked
  found_restocked h found =
      let named : e.id ≡ b.event_id =
        (==_iff _ _).0 (ground (arith, find_holds (is_live b.event_id) start.events e found)) in
      let by_id : find (has_key event_id_of b.event_id) start.events ≡ some e =
        find_by_key event_id_of b.event_id (λ y. not (is_some y.deleted_at)) start.events e
          h.event_keys found in
      let live : is_some e.deleted_at ≡ false =
        ground (arith, find_holds (is_live b.event_id) start.events e found) in
      let now : find (has_key event_id_of b.event_id) (cancelled env key user start b n).events
          ≡ some restocked =
        find-modify_where event_id_of b.event_id (has_key event_id_of b.event_id)
          (give_tickets (env.now (suc (suc n))) b.ticket_count) start.events (λ _. refl)
        ∙ rw by_id (ground arith) in
      find_with event_id_of e.id (λ x. eqb_ℤ x.version e.version && not (is_some x.deleted_at))
        (cancelled env key user start b n).events restocked
        (subst
          (λ k.
            find (has_key event_id_of k) (cancelled env key user start b n).events ≡ some restocked)
          (sym named) now)
        (ground arith)

  -- In tables that meet the schema, let an update have read an event, and then a booking of it be
  -- cancelled. The row of the event has the tickets back, and stands at the version that was read,
  -- so the update finds it; an update of that version that returns has written the unsold tickets
  -- that it had read over it.
  pub save_event-cancelled :
      (id : ℕ) (req : UpdateEventRequest) (actor_id : ℕ) (w : World S)
      → Integrity env start
      → find (is_live b.event_id) start.events ≡ some e
      → req.version ≡ e.version
      → w.db ≡ cancelled env key user start b n
      → (find (is_at_version e.id req.version) w.db.events ≡ some restocked)
        × (restocked.remaining_tickets ≡ e.remaining_tickets +ℤ b.ticket_count)
        × After
            (λ row _. row.remaining_tickets ≡ e.remaining_tickets)
            (λ _ _. Unit {0})
            (save_event env cache id req actor_id e w)
  unfolding revised
  save_event-cancelled id req actor_id w h found version tables =
      let at : find (is_at_version e.id req.version) w.db.events ≡ some restocked =
        rw (version, tables) (found_restocked h found) in
      (
        at,
        refl,
        weaken _ _ _ _ (save_event env cache id req actor_id e w)
            (save_event-Saved env cache id req actor_id e w restocked at)
            (λ row _ (same, _). ap (λ r. r.remaining_tickets) same) (λ _ _ _. tt),
      )
