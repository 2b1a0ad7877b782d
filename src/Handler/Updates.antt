-- ===== src/Handler/Updates.antt =====
-- Two updates of one event that name the same version: the optimistic lock, seen from outside.
use mathlib.Core.Option
use go_ticket_booking_app.Base.{
  ℕ, suc, ◌≡◌, ◌≢◌, refl, sym, ◌∙◌, ap, ◌⊎◌, Bool, true, some, List, [], ◌∷◌, find, modify_where,
  if◌then◌else◌, arith,
}
use go_ticket_booking_app.Base.Int.{ℤ, pos, negsuc, ◌+ℤ◌, eqb_ℤ}
use go_ticket_booking_app.Base.Text.{Text, bytes}
use go_ticket_booking_app.Base.Rows.{find_holds}
use go_ticket_booking_app.Domain.{Event, UserClaims}
use go_ticket_booking_app.Domain.Errors.{Error, Failure, wrap, driver, connection_lost}
use go_ticket_booking_app.World.{Database, Env, World, Result, ok, err}
use go_ticket_booking_app.World.Logic.{After}
use go_ticket_booking_app.Cache.{Cache}
use go_ticket_booking_app.Postgres.EventRepo.{is_live, is_at_version, overwrite}
use go_ticket_booking_app.Postgres.Integrity.{Integrity}
use go_ticket_booking_app.Service.Event.{UpdateEventRequest, revised, update_event}
use go_ticket_booking_app.Service.Event.Update.{Saved, update_event_atomic}
use go_ticket_booking_app.Service.History.{act, act, act-Maintains, updates}
use go_ticket_booking_app.Handler.Answers.{Response, render, respond, event_body}
use go_ticket_booking_app.Handler.Event.{uuid, update_error_response, update}

next_version : (v : ℤ) → v +ℤ pos 1 ≢ v
unfolding ◌+ℤ◌
next_version (pos n) e = ground (arith, e)
next_version (negsuc n) e = ground (arith, e)

eqb_refl : (v : ℤ) → eqb_ℤ v v ≡ true
eqb_refl (pos n) = ground arith
eqb_refl (negsuc n) = ground arith

-- An update of rows that leaves the condition of a lookup alone.
find-modify_same {ℓ} :
    {A : Type ℓ} (q p : A → Bool) (f : A → A) (xs : List A)
    → ((x : A) → q (f x) ≡ q x)
    → find q (modify_where p f xs) ≡ Option.map (λ x. if p x then f x else x) (find q xs)
find-modify_same q p f [] h = refl
find-modify_same q p f (x ∷ xs) h = ground (arith, h x, find-modify_same q p f xs h)

module _ {S : Type 0} (show : Failure → Text) (env : Env) (cache : Cache S) (id : ℕ) where
  -- The row of a live event after an update that has returned: live, at the next version.
  updated_row :
      (req : UpdateEventRequest) (actor_id : ℕ) (w : World S) (e : Event) (n : ℕ) (d : Database)
      → find (is_live id) w.db.events ≡ some e
      → e.version ≡ req.version
      → Saved env cache id req actor_id e w.db n d
      → find (is_live id) d.events ≡ some (overwrite (env.now n) (revised e req) e)
  updated_row req actor_id w e n d found same (valid, fine, (users, events, bookings)) =
      let p : Event → Bool = is_at_version e.id req.version in
      let f : Event → Event = overwrite (env.now n) (revised e req) in
      let live : is_live id e ≡ true = find_holds (is_live id) w.db.events e found in
      let here : p e ≡ true = ground (arith, live, same, eqb_refl e.version) in
      ap (find (is_live id)) events
      ∙ (find-modify_same (is_live id) p f w.db.events (λ x. refl) ∙ ground (arith, found, here))

  not_ok : (x : Error) → (update_error_response show x).status ≢ 200
  unfolding update_error_response
  not_ok x h = ground arith

  abbrev answer : Result Event × World S → Response × World S
  answer = respond (λ e. render 200 (event_body e)) (update_error_response show)

  -- A 200 names the version in force, and leaves the row at the next one.
  moved_on :
      (req : UpdateEventRequest) (actor_id : ℕ) (w : World S) (e : Event)
      → find (is_live id) w.db.events ≡ some e
      → (r : Result Event × World S)
      → After
          (λ row w'.
            (e.version ≡ req.version)
            × (row ≡ overwrite (env.now (suc w.statements)) (revised e req) e)
            × Saved env cache id req actor_id e w.db (suc w.statements) w'.db)
          (λ x w'.
            (w'.db ≡ w.db)
            ⊎ ((x ≡ wrap (bytes "update event: ") (driver connection_lost))
                × (e.version ≡ req.version)
                × Saved env cache id req actor_id e w.db (suc w.statements) w'.db))
          r
      → (answer r).0.status ≡ 200
      → (e.version ≡ req.version)
        × ((e' : Event) × (find (is_live id) r.1.db.events ≡ some e')
            × (e'.version ≡ e.version +ℤ pos 1))
  moved_on req actor_id w e found (ok row, v) (same, made, saved) s = (
    same,
    (
      overwrite (env.now (suc w.statements)) (revised e req) e,
      updated_row req actor_id w e (suc w.statements) v.db found same saved,
      refl,
    ),
  )
  moved_on req actor_id w e found (err x, v) h s = absurd (not_ok x s)

  -- For tables that meet the schema and an event that is live: of two requests to update the event
  -- that name the same version, one after the other, at most one is answered 200. When the first is,
  -- the second is not, whoever sends it and whatever else it asks for.
  pub update_once :
      (first second : UserClaims) (req next : UpdateEventRequest) (w : World S) (e : Event)
      → Integrity env w.db
      → find (is_live id) w.db.events ≡ some e
      → next.version ≡ req.version
      → (update show env cache (uuid id) (some first) (ok req) w).0.status ≡ 200
      → (update show env cache
          (uuid id)
          (some second)
          (ok next)
          (update show env cache (uuid id) (some first) (ok req) w).1).0.status
        ≢ 200
  unfolding update act
  update_once first second req next w e h found same once twice =
      let r : Result Event × World S = update_event env cache id req first.user_id w in
      let (named, (e', still, moved)) =
        moved_on req first.user_id w e found r
          (update_event_atomic env cache id req first.user_id w e h found) once in
      let k = act-Maintains env cache (updates id req first.user_id) w h in
      let (again, _) =
        moved_on next second.user_id r.1 e' still
          (update_event env cache id next second.user_id r.1)
          (update_event_atomic env cache id next second.user_id r.1 e' k.integrity still) twice in
      next_version e.version (sym moved ∙ (again ∙ (same ∙ sym named)))
