-- ===== src/Concurrent/Locks.antt =====
-- What the steps of one thread leave to the others: their locks, the rows that these lock, and the
-- order of the versions of an event.
use go_ticket_booking_app.Base.{
  ℕ, ◌≡◌, ◌≢◌, refl, inl, inr, Bool-cases, ==_iff, Option, none, some, find, arith, ◌==◌, ==_refl,
  true, false,
}
use mathlib.Core.Path.{subst}
use go_ticket_booking_app.Base.Int.{ℤ, ◌≤ℤ◌}
use go_ticket_booking_app.Base.Rows.{has_key}
use go_ticket_booking_app.Domain.{Event}
use go_ticket_booking_app.World.{Database}
use go_ticket_booking_app.Postgres.Integrity.{event_id_of, booking_id_of}
use go_ticket_booking_app.Postgres.BookingRepo.{is_active_for}
use go_ticket_booking_app.Concurrent.{Server, held, lock, unless_of}

-- The row of an event stands at a version no older than v.
abbrev pub Seen : ℤ → Option Event → Type 0
Seen v none = ⊥
Seen v (some e) = v ≤ℤ e.version

-- The row is no older than the one that was read; at the same version it has at least its tickets.
abbrev pub Newer : Event → Option Event → Type 0
Newer old none = ⊥
Newer old (some e) =
    (old.version ≤ℤ e.version)
    × (e.version ≤ℤ old.version → old.remaining_tickets ≤ℤ e.remaining_tickets)

-- The tables d' next to d, for a thread whose locks are these.
pub record RowsKept (j : ℕ) (events bookings : ℕ → Option ℕ) (d d' : Database) : Type 0 where
  pub event_kept :
      (k : ℕ) (e : Event)
      → events k ≡ some j
      → find (has_key event_id_of k) d.events ≡ some e
      → find (has_key event_id_of k) d'.events ≡ some e
  pub booking_kept :
      (k : ℕ)
      → bookings k ≡ some j
      → find (has_key booking_id_of k) d'.bookings ≡ find (has_key booking_id_of k) d.bookings
  -- no new active booking of a locked event
  pub alone_kept :
      (k user : ℕ)
      → events k ≡ some j
      → find (is_active_for user k) d.bookings ≡ none
      → find (is_active_for user k) d'.bookings ≡ none
  pub newer_kept :
      (k : ℕ) (e : Event)
      → find (has_key event_id_of k) d.events ≡ some e
      → Newer e (find (has_key event_id_of k) d'.events)

pub record LocksKept (j : ℕ) (locks locks' : ℕ → Option ℕ) : Type 0 where
  pub kept : (k : ℕ) → locks k ≡ some j → locks' k ≡ some j

pub record Respects {S : Type 0} (j : ℕ) (s s' : Server S) : Type 0 where
  pub event_locks : LocksKept j s.event_locks s'.event_locks
  pub booking_locks : LocksKept j s.booking_locks s'.booking_locks
  pub rows : RowsKept j s.event_locks s.booking_locks s.world.db s'.world.db

pub same-LocksKept : (j : ℕ) (locks : ℕ → Option ℕ) → LocksKept j locks locks
same-LocksKept j locks = record { kept = λ _ h. h }

-- Another thread's locks outlive a lock on a row that nobody else has, and a release.
pub lock-LocksKept :
    (i j k : ℕ) (locks : ℕ → Option ℕ)
    → j ≢ i
    → held (locks k) i ≡ false
    → LocksKept j locks (lock i k locks)
lock-LocksKept i j k locks other free = record {
  kept = λ x h. elim (Bool-cases (x == k)) [
    | inl here ↦ absurd (other (taken x h here))
    | inr away ↦ rw away h
  ];
}
  where
    taken : (x : ℕ) → locks x ≡ some j → (x == k) ≡ true → j ≡ i
    taken x h here =
        let at : locks k ≡ some j = subst (λ y. locks y ≡ some j) ((==_iff _ _).0 here) h in
        (==_iff _ _).0 (ground arith)

pub release-LocksKept :
    (i j : ℕ) (locks : ℕ → Option ℕ) → j ≢ i → LocksKept j locks (λ k. unless_of i (locks k))
release-LocksKept i j locks other = record { kept = λ x h. ground arith }

pub LocksKept-trans :
    (j : ℕ) (a b c : ℕ → Option ℕ) → LocksKept j a b → LocksKept j b c → LocksKept j a c
LocksKept-trans j a b c h k = record { kept = λ x e. k.kept x (h.kept x e) }

-- A row is as new as itself.
pub Newer-same : (e : Event) (o : Option Event) → o ≡ some e → Newer e o
Newer-same e none q = cc
Newer-same e (some x) q = ground arith

pub Newer-trans : (a b : Event) (o : Option Event) → Newer a (some b) → Newer b o → Newer a o
Newer-trans a b none h k = k
Newer-trans a b (some c) h k = ground arith

pub Newer-Seen : (v : ℤ) (e : Event) (o : Option Event) → v ≤ℤ e.version → Newer e o → Seen v o
Newer-Seen v e none h k = k
Newer-Seen v e (some x) h k = ground arith

pub same-RowsKept :
    (j : ℕ) (events bookings : ℕ → Option ℕ) (d d' : Database)
    → d'.events ≡ d.events
    → d'.bookings ≡ d.bookings
    → RowsKept j events bookings d d'
same-RowsKept j events bookings d d' es bs = record {
  event_kept = λ k e _ h. rw es h;
  booking_kept = λ k _. rw bs refl;
  alone_kept = λ k user _ h. rw bs h;
  newer_kept = λ k e h. Newer-same e _ (rw es h);
}

-- A row that thread i has locked, once it has.
pub lock_mine : (i k : ℕ) (locks : ℕ → Option ℕ) → lock i k locks k ≡ some i
lock_mine i k locks = rw (==_refl k) refl
