-- ===== src/Concurrent/Stepping.antt =====
-- What one step of a thread does: its own invariant holds at its next point, the other threads are
-- respected, and the tables keep their integrity and no event gains tickets.
use mathlib.Core.Path.{subst}
use go_ticket_booking_app.Base.{
  ℕ, suc, ◌≡◌, ◌≢◌, refl, sym, ◌∙◌, inl, inr, Option, some, find, arith, Bool-cases, ==_iff, ◌==◌,
  modify_where, List,
}
use go_ticket_booking_app.Base.Int.{ℤ, ◌≤ℤ◌}
use go_ticket_booking_app.Base.Rows.{has_key, find-put, put-found}
use go_ticket_booking_app.Domain.{Event}
use go_ticket_booking_app.Domain.Errors.{Error}
use go_ticket_booking_app.World.{Database, Env, World, Result, ok, err, idle}
use go_ticket_booking_app.World.Calls.{rollback}
use go_ticket_booking_app.World.Logic.{After}
use go_ticket_booking_app.World.Transactions.{InTx}
use go_ticket_booking_app.Postgres.Integrity.{Integrity, event_id_of}
use go_ticket_booking_app.Postgres.Capacity.{capacity}
use go_ticket_booking_app.Service.Maintains.{Maintains, logged-Maintains}
use go_ticket_booking_app.Service.Booking.Cancel.{SameButLogs}
use go_ticket_booking_app.Concurrent.{
  Thread, Reply, over, Server, release, inside, after_statement, in_tx, on_pool, closing,
  map_result,
}
use go_ticket_booking_app.Concurrent.Locks.{
  Newer, RowsKept, LocksKept, Respects, Newer-same, same-RowsKept, same-LocksKept,
  release-LocksKept,
}
use go_ticket_booking_app.Concurrent.Invariant.{Good}

-- The tables meet the schema, and of no event there are more tickets, unsold and in active bookings.
pub record NoMore (env : Env) (d d' : Database) : Type 0 where
  pub integrity : Integrity env d'
  pub at_most :
      (id : ℕ) (t : ℤ) → capacity id d ≡ some t → (u : ℤ) × (capacity id d' ≡ some u) × (u ≤ℤ t)

pub Maintains-NoMore : (env : Env) (d d' : Database) → Maintains env d d' → NoMore env d d'
Maintains-NoMore env d d' m = record {
  integrity = m.integrity;
  at_most = λ id t e. (t, m.capacities id t e, ground arith);
}

pub same-NoMore : (env : Env) (d d' : Database) → Integrity env d → d' ≡ d → NoMore env d d'
same-NoMore env d d' h e =
    subst (NoMore env d) (sym e)
      (record { integrity = h; at_most = λ id t c. (t, c, ground arith) })

module _ {S : Type 0} (env : Env) (i : ℕ) (s : Server S) where
  -- New tables for s, as far as they concern thread i and the others.
  pub record Changed (d' : Database) : Type 0 where
    pub tables : NoMore env s.world.db d'
    pub rows : (j : ℕ) → j ≢ i → RowsKept j s.event_locks s.booking_locks s.world.db d'

  pub record Stepped (out : Thread × Server S) : Type 0 where
    pub good : Good env i out.0 out.1
    pub respects : (j : ℕ) → j ≢ i → Respects j s out.1
    pub tables : NoMore env s.world.db out.1.world.db

  pub same-Changed : Integrity env s.world.db → (d' : Database) → d' ≡ s.world.db → Changed d'
  same-Changed h d' e = record {
    tables = same-NoMore env s.world.db d' h e;
    rows = λ j _.
        subst (RowsKept j s.event_locks s.booking_locks s.world.db) (sym e)
          (same-RowsKept j s.event_locks s.booking_locks s.world.db s.world.db refl refl);
  }

  -- The same tables but for audit records.
  pub logged-Changed :
      Integrity env s.world.db → (d' : Database) → SameButLogs s.world.db d' → Changed d'
  logged-Changed h d' (users, events, bookings) = record {
    tables =
        Maintains-NoMore env s.world.db d'
          (logged-Maintains env s.world.db h d' (users, events, bookings));
    rows = λ j _. same-RowsKept j s.event_locks s.booking_locks s.world.db d' events bookings;
  }

  pub locking-Stepped :
      Integrity env s.world.db
      → (t : Thread) (s' : Server S) → Good env i t s'
      → s'.world.db ≡ s.world.db
      → ((j : ℕ) → j ≢ i → LocksKept j s.event_locks s'.event_locks)
      → ((j : ℕ) → j ≢ i → LocksKept j s.booking_locks s'.booking_locks)
      → Stepped (t, s')
  locking-Stepped h t s' good same events bookings = record {
    good = good;
    respects = λ j other. record {
      event_locks = events j other;
      booking_locks = bookings j other;
      rows = (same-Changed h s'.world.db same).rows j other;
    };
    tables = same-NoMore env s.world.db s'.world.db h same;
  }

  pub waiting-Stepped : Integrity env s.world.db → (t : Thread) → Good env i t s → Stepped (t, s)
  waiting-Stepped h t good =
      locking-Stepped h t s good refl (λ j _. same-LocksKept j s.event_locks)
        (λ j _. same-LocksKept j s.booking_locks)

  -- A call that ends without a change gives up its locks.
  pub ending-Stepped :
      (r : Result Reply) (w : World S)
      → Changed w.db
      → Stepped (over r, release i (record s { world = w }))
  ending-Stepped r w c = record {
    good = tt;
    respects = λ j other. record {
      event_locks = release-LocksKept i j s.event_locks other;
      booking_locks = release-LocksKept i j s.booking_locks other;
      rows = c.rows j other;
    };
    tables = c.tables;
  }

  pub in_tx-Stepped :
      {A : Type 0} (P : A → World S → Type 0) (Q : Error → World S → Type 0)
      (r : Result A × World S) (next : A → Server S → Thread × Server S)
      → Integrity env s.world.db
      → After P Q r
      → ((a : A) (w : World S) → P a w → Stepped (next a (after_statement w s)))
      → Stepped (in_tx env i s r next)
  unfolding rollback
  in_tx-Stepped P Q (ok a, w) next h p f = f a w p
  in_tx-Stepped P Q (err x, w) next h p f =
      ending-Stepped (err x) (record s.world { statements = suc w.statements })
        (same-Changed h s.world.db refl)

  pub closing-Stepped :
      {A : Type 0} (f : A → Reply) (r : Result A × World S)
      → Changed r.1.db
      → Stepped (closing env i s r f)
  unfolding rollback
  closing-Stepped f (r, w) c =
      ending-Stepped (map_result f r) (record w { statements = suc w.statements; session = idle }) c

  pub on_pool-Stepped :
      {A : Type 0} (P : A → World S → Type 0) (Q : Error → World S → Type 0)
      (r : Result A × World S) (next : A → Thread)
      → Changed r.1.db
      → After P Q r
      → ((a : A) (w : World S) → P a w → Good env i (next a) (record s { world = w }))
      → Stepped (on_pool s r next)
  on_pool-Stepped P Q (ok a, w) next c p f = record {
    good = f a w p;
    respects = λ j other. record {
      event_locks = same-LocksKept j s.event_locks;
      booking_locks = same-LocksKept j s.booking_locks;
      rows = c.rows j other;
    };
    tables = c.tables;
  }
  on_pool-Stepped P Q (err x, w) next c p f = record {
    good = tt;
    respects = λ j other. record {
      event_locks = same-LocksKept j s.event_locks;
      booking_locks = same-LocksKept j s.booking_locks;
      rows = c.rows j other;
    };
    tables = c.tables;
  }

pub inside-InTx :
    {S : Type 0} (d : Database) (s : Server S) → InTx s.world.db d s.world.statements (inside d s)
inside-InTx d s = record { committed = refl; view = refl; count = refl }

-- A lock has one holder.
pub other_row :
    (i j k k' : ℕ) (locks : ℕ → Option ℕ)
    → locks k ≡ some i
    → j ≢ i
    → locks k' ≡ some j
    → ¬ (k' ≡ k)
other_row i j k k' locks mine other theirs same =
    let here : locks k ≡ some j = subst (λ x. locks x ≡ some j) same theirs in
    let both : some j ≡ some i = sym here ∙ mine in other (ground arith)

-- A newer version in the place of an event's row leaves every row as new as it was.
pub put-Newer :
    (k : ℕ) (e y : Event) (es : List Event)
    → find (has_key event_id_of k) es ≡ some e
    → y.id ≡ k
    → Newer e (some y)
    → (k' : ℕ) (e' : Event) → find (has_key event_id_of k') es ≡ some e'
    → Newer e' (find (has_key event_id_of k') (modify_where (has_key event_id_of k) (λ _. y) es))
put-Newer k e y es found id newer k' e' found' = elim (Bool-cases (k' == k)) [
  | inl same ↦
      let here : k' ≡ k = (==_iff _ _).0 same in
      let found_here : find (has_key event_id_of k) es ≡ some e' =
        subst (λ x. find (has_key event_id_of x) es ≡ some e') here found' in
      let both : some e' ≡ some e = sym found_here ∙ found in
      subst
        (λ x.
          Newer e'
            (find (has_key event_id_of x) (modify_where (has_key event_id_of k) (λ _. y) es)))
        (sym here) (rw (put-found event_id_of k y e es id found) (ground arith))
  | inr away ↦ Newer-same e' _ (find-put event_id_of k k' y es id (ground arith) ∙ found')
]
