-- ===== src/Concurrent/System.antt =====
-- Any number of calls on one server, in any interleaving of their steps, from any tables.
use go_ticket_booking_app.Base.{ℕ, ◌==◌, if◌then◌else◌, none, List, [], ◌∷◌}
use go_ticket_booking_app.World.{Env, World}
use go_ticket_booking_app.Cache.{Cache}
use go_ticket_booking_app.Service.Event.{CreateEventRequest, UpdateEventRequest}
use go_ticket_booking_app.Concurrent.{
  BookRequest, CancelRequest, Thread, books, cancels, consults, deletes, creates, creates_all,
  Server,
}
use go_ticket_booking_app.Concurrent.Steps.{step, abort}

-- The calls of the services, with the actor of those of the event service. A client that updates an
-- event names the version that it has read before.
pub data Call : Type 0 where
  book_ticket : BookRequest → Call
  cancel_booking : CancelRequest → Call
  update_event : ℕ → UpdateEventRequest → ℕ → Call
  delete_event : ℕ → ℕ → Call
  create_event : CreateEventRequest → ℕ → Call
  batch_create_events : List CreateEventRequest → ℕ → Call

abbrev pub start : Call → Thread
start (book_ticket r) = books r
start (cancel_booking c) = cancels c
start (update_event id req actor_id) = consults id req actor_id
start (delete_event id actor_id) = deletes id actor_id
start (create_event req actor_id) = creates req actor_id
start (batch_create_events reqs actor_id) = creates_all reqs actor_id

pub record System (S : Type 0) : Type 0 where
  pub threads : ℕ → Thread
  pub server : Server S

-- Thread i makes its next step, if it does not wait; or its call is aborted.
pub data Move : Type 0 where
  proceeds aborts : ℕ → Move

abbrev pub put_thread : ℕ → Thread → (ℕ → Thread) → ℕ → Thread
put_thread i t threads j = if j == i then t else threads j

module _ {S : Type 0} where
  abbrev pub settled : ℕ → (ℕ → Thread) → Thread × Server S → System S
  settled i threads (t, s) = record { threads = put_thread i t threads; server = s }

  -- The calls at their starts, with no row locked.
  abbrev pub begins : (ℕ → Call) → World S → System S
  begins calls w = record {
    threads = λ i. start (calls i);
    server = record { world = w; event_locks = λ _. none; booking_locks = λ _. none };
  }

module _ {S : Type 0} (env : Env) (cache : Cache S) where
  unfoldable pub move : Move → System S → System S
  move (proceeds i) st = settled i st.threads (step env cache i (st.threads i) st.server)
  move (aborts i) st = settled i st.threads (abort env cache i (st.threads i) st.server)

  unfoldable pub interleave : List Move → System S → System S
  interleave [] st = st
  interleave (m ∷ moves) st = interleave moves (move m st)
