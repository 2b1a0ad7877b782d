-- ===== src/Concurrent/Leaks.antt =====
-- What a step leaves of the locks: none of a call outside a transaction, and no new one of another.
use go_ticket_booking_app.Base.{
  ℕ, suc, Bool, ◌≡◌, ◌≢◌, sym, Option, some, none, arith, Bool-cases, inl, inr, ◌==◌, true, false,
  if◌then◌else◌,
}
use mathlib.Core.Path.{subst}
use go_ticket_booking_app.World.{Env, idle, World, Result, ok, err}
use go_ticket_booking_app.World.Calls.{rollback}
use go_ticket_booking_app.Concurrent.{
  Reply, Thread, selected, inserted, taken, marked, restored, over, Server, lock, unless_of,
  release, after_statement, in_tx, on_pool, closing, map_result,
}

-- Whether a call has a transaction open that has locked a row.
abbrev pub in_transaction : Thread → Bool
in_transaction (selected r e) = true
in_transaction (inserted r e b) = true
in_transaction (taken r e b now) = true
in_transaction (marked c old bk now) = true
in_transaction (restored c old bk now seen later) = true
in_transaction t = false

-- Thread i has locked no row.
abbrev pub LocksNone : {S : Type 0} → ℕ → Server S → Type 0
LocksNone i s = (k : ℕ) → (s.event_locks k ≢ some i) × (s.booking_locks k ≢ some i)

-- Thread i may have locked rows only in a transaction.
abbrev pub Tidy : {S : Type 0} → ℕ → Thread → Server S → Type 0
Tidy i t s = in_transaction t ≡ false → LocksNone i s

-- No lock of another thread is new.
abbrev pub NoneNew : ℕ → (ℕ → Option ℕ) → (ℕ → Option ℕ) → Type 0
NoneNew i locks locks' = (j k : ℕ) → j ≢ i → locks' k ≡ some j → locks k ≡ some j

pub record Leaves {S : Type 0} (i : ℕ) (s : Server S) (out : Thread × Server S) : Type 0 where
  pub tidy : Tidy i out.0 out.1
  pub events : NoneNew i s.event_locks out.1.event_locks
  pub bookings : NoneNew i s.booking_locks out.1.booking_locks

dropped : (i : ℕ) (o : Option ℕ) → unless_of i o ≢ some i
dropped i none e = cc
dropped i (some j) e = ground arith

kept_by_other : (i j : ℕ) (o : Option ℕ) → unless_of i o ≡ some j → o ≡ some j
kept_by_other i j none e = cc
kept_by_other i j (some x) e = ground arith

pub lock-NoneNew : (i k : ℕ) (locks : ℕ → Option ℕ) → NoneNew i locks (lock i k locks)
lock-NoneNew i k locks j x other e = elim (Bool-cases (x == k)) [
  | inl here ↦
      absurd (other (some_inj (sym (subst (λ b. (if b then some i else locks x) ≡ some j) here e))))
  | inr away ↦ subst (λ b. (if b then some i else locks x) ≡ some j) away e
]
  where
    some_inj : some j ≡ some i → j ≡ i
    some_inj q = ground arith

module _ {S : Type 0} (i : ℕ) (s : Server S) where
  pub waiting-Leaves : (t : Thread) → Tidy i t s → Leaves i s (t, s)
  waiting-Leaves t h = record { tidy = h; events = λ _ _ _ e. e; bookings = λ _ _ _ e. e }

  pub ending-Leaves :
      (r : Result Reply) (w : World S) → Leaves i s (over r, release i (record s { world = w }))
  ending-Leaves r w = record {
    tidy = λ _ k. (dropped i (s.event_locks k), dropped i (s.booking_locks k));
    events = λ j k _ e. kept_by_other i j (s.event_locks k) e;
    bookings = λ j k _ e. kept_by_other i j (s.booking_locks k) e;
  }

  pub in_tx-Leaves :
      {A : Type 0} (env : Env) (r : Result A × World S) (next : A → Server S → Thread × Server S)
      → ((y : A) (w : World S) → Leaves i s (next y (after_statement w s)))
      → Leaves i s (in_tx env i s r next)
  unfolding rollback
  in_tx-Leaves env (ok y, w) next f = f y w
  in_tx-Leaves env (err x, w) next f =
      ending-Leaves (err x) (record s.world { statements = suc w.statements })

  pub closing-Leaves :
      {A : Type 0} (env : Env) (f : A → Reply) (r : Result A × World S)
      → Leaves i s (closing env i s r f)
  unfolding rollback
  closing-Leaves env f (r, w) =
      ending-Leaves (map_result f r) (record w { statements = suc w.statements; session = idle })

  pub on_pool-Leaves :
      {A : Type 0} (r : Result A × World S) (next : A → Thread)
      → LocksNone i s
      → Leaves i s (on_pool s r next)
  on_pool-Leaves (ok y, w) next h = record {
    tidy = λ _ k. h k;
    events = λ _ _ _ e. e;
    bookings = λ _ _ _ e. e;
  }
  on_pool-Leaves (err x, w) next h = record {
    tidy = λ _ k. h k;
    events = λ _ _ _ e. e;
    bookings = λ _ _ _ e. e;
  }

  pub working-Leaves :
      (t : Thread) (s' : Server S)
      → in_transaction t ≡ true
      → NoneNew i s.event_locks s'.event_locks
      → NoneNew i s.booking_locks s'.booking_locks
      → Leaves i s (t, s')
  working-Leaves t s' on es bs = record {
    tidy = λ off. absurd (apart on off);
    events = es;
    bookings = bs;
  }
    where
      apart : in_transaction t ≡ true → in_transaction t ≡ false → ⊥
      apart a b = ground arith
