-- ===== src/Cache/Window.antt =====
-- The sliding window of RedisRepo.Allow over a sequence of requests.
use go_ticket_booking_app.Base.{
  ℕ, suc, ◌+◌, ◌≤◌, ◌<◌, ◌≡◌, refl, inl, inr, Bool, true, false, ◌&&◌, not, List, [], ◌∷◌,
  if◌then◌else◌, ltb, leb, length, filter, arith, Bool-cases,
}
use go_ticket_booking_app.Base.Int.{pos, ◌-ℤ◌}
use go_ticket_booking_app.Base.Text.{Text, text_eq, text_eq→eq}
use go_ticket_booking_app.World.{Result, ok, err}
use go_ticket_booking_app.Cache.Redis.{Redis, RedisLaws, count, is_entry_of, between}
use go_ticket_booking_app.Cache.RedisRepo.{Server, RedisEnv, sliding_window_script, allow}

between_lem : (now window s : ℕ) → between (pos 0) (pos now -ℤ pos window) s ≡ leb (s + window) now
unfolding ◌-ℤ◌
between_lem now window s = ground arith

length-filter_mono {ℓ} :
    {A : Type ℓ} (p q : A → Bool) (xs : List A)
    → ((x : A) → p x ≡ true → q x ≡ true)
    → length (filter p xs) ≤ length (filter q xs)
length-filter_mono p q [] h = omega arith
length-filter_mono p q (x ∷ xs) h = ground (arith, h x, length-filter_mono p q xs h)

length-filter-le {ℓ} : {A : Type ℓ} (p : A → Bool) (xs : List A) → length (filter p xs) ≤ length xs
length-filter-le p [] = omega arith
length-filter-le p (x ∷ xs) = ground (arith, length-filter-le p xs)

-- Times in the order of the requests.
abbrev pub Ascending : ℕ → List ℕ → Type 0
Ascending from [] = Unit {0}
Ascending from (t ∷ ts) = (from ≤ t) × Ascending t ts

-- The requests of the window that ends at t.
abbrev pub in_window : ℕ → ℕ → ℕ → Bool
in_window window t x = ltb t (x + window) && leb x t

-- The tokens of uuid.New() are all different.
abbrev pub AllFresh : RedisEnv → Type 0
AllFresh env = (i j : ℕ) → env.new_token i ≡ env.new_token j → i ≡ j

module _ {R : Type 0} (redis : Redis R) (env : RedisEnv) (key : Text) (window limit : ℕ) where
  abbrev pub noted : ℕ → List ℕ → Result Bool × Server R → List ℕ × Server R
  noted now granted (ok true, s) = (now ∷ granted, s)
  noted now granted (ok false, s) = (granted, s)
  noted now granted (err _, s) = (granted, s)

  -- One request after the other at the given times; the times of those that Allow let through are
  -- noted, the last one first.
  unfoldable pub ask_all : List ℕ → List ℕ × Server R → List ℕ × Server R
  ask_all [] c = c
  ask_all (now ∷ nows) c =
      ask_all nows (noted now c.0 (allow redis env key window (pos limit) now c.1))

  record Bounded (last : ℕ) (c : List ℕ × Server R) : Type 0 where
    -- every request let through and still of interest has its entry
    entered :
        (t : ℕ)
        → last ≤ t
        → length (filter (λ x. ltb t (x + window)) c.0)
          ≤ count (λ z. ltb t (z.0 + window)) (redis.zset key c.1.keys)
    bounded : (t : ℕ) → length (filter (in_window window t) c.0) ≤ limit
    fresh :
        (i : ℕ)
        → c.1.calls ≤ i
        → count (is_entry_of (env.new_token i)) (redis.zset key c.1.keys) ≡ 0

  module _ (laws : RedisLaws redis) (all_fresh : AllFresh env) where
    open laws use {zset_zremrangebyscore, zset_zadd, zset_pexpire}

    module _ (last now calls : ℕ) (granted : List ℕ) (keys : R) (le : last ≤ now)
        (b : Bounded last (granted, record { keys = keys; calls = calls })) where
      abbrev before : List (ℕ × Text)
      before = redis.zset key keys

      abbrev pruned : R
      pruned = redis.zremrangebyscore key (pos 0) (pos now -ℤ pos window) keys

      abbrev token : Text
      token = env.new_token calls

      abbrev added : R
      added = redis.pexpire key window (redis.zadd key now token pruned)

      -- No entry that still matters is pruned, and none is made.
      pruned_keeps :
          (t : ℕ)
          → now ≤ t
          → count (λ z. ltb t (z.0 + window)) before
            ≤ count (λ z. ltb t (z.0 + window)) (redis.zset key pruned)
      pruned_keeps t h =
          rw
            (zset_zremrangebyscore key (pos 0) (pos now -ℤ pos window) keys
              (λ z. ltb t (z.0 + window)))
            (length-filter_mono (λ z. ltb t (z.0 + window))
              (λ z. ltb t (z.0 + window) && not (between (pos 0) (pos now -ℤ pos window) z.0))
              before (λ z e. ground (arith, between_lem now window z.0)))

      pruned_fresh :
          (i : ℕ) → calls ≤ i → count (is_entry_of (env.new_token i)) (redis.zset key pruned) ≡ 0
      pruned_fresh i h =
          let fewer : count
                (λ z.
                  is_entry_of (env.new_token i) z
                  && not (between (pos 0) (pos now -ℤ pos window) z.0))
                before
              ≤ count (is_entry_of (env.new_token i)) before =
            length-filter_mono
              (λ z.
                is_entry_of (env.new_token i) z
                && not (between (pos 0) (pos now -ℤ pos window) z.0))
              (is_entry_of (env.new_token i)) before (λ z e. ground arith) in
          rw
            (zset_zremrangebyscore key (pos 0) (pos now -ℤ pos window) keys
              (is_entry_of (env.new_token i)))
            (omega (arith, fewer, b.fresh i h))

      added_count :
          (p : ℕ × Text → Bool)
          → count p (redis.zset key added)
            ≡ (if p (now, token) then 1 else 0) + count p (redis.zset key pruned)
      added_count p =
          rw (zset_pexpire key window (redis.zadd key now token pruned))
            (zset_zadd key token now pruned p (pruned_fresh calls (omega arith)))

      added_fresh :
          (i : ℕ) → suc calls ≤ i → count (is_entry_of (env.new_token i)) (redis.zset key added) ≡ 0
      added_fresh i h =
          let other : text_eq token (env.new_token i) ≡ false =
            elim (Bool-cases (text_eq token (env.new_token i))) [
              | inl same ↦
                  absurd
                    (omega (arith, all_fresh calls i (text_eq→eq token (env.new_token i) same)))
              | inr e ↦ e
            ] in
          rw (added_count (is_entry_of (env.new_token i)), other)
            (omega (arith, pruned_fresh i (omega arith)))

      skipped-Bounded : Bounded now (granted, record { keys = keys; calls = suc calls })
      skipped-Bounded = record {
        entered = λ t h. b.entered t (omega arith);
        bounded = b.bounded;
        fresh = λ i h. b.fresh i (omega arith);
      }

      pruned-Bounded : Bounded now (granted, record { keys = pruned; calls = suc calls })
      pruned-Bounded = record {
        entered = λ t h. omega (arith, b.entered t (omega arith), pruned_keeps t h);
        bounded = b.bounded;
        fresh = λ i h. pruned_fresh i (omega arith);
      }

      lost-Bounded : Bounded now (granted, record { keys = added; calls = suc calls })
      lost-Bounded = record {
        entered = λ t h. omega (
          arith,
          b.entered t (omega arith),
          pruned_keeps t h,
          added_count (λ z. ltb t (z.0 + window)),
        );
        bounded = b.bounded;
        fresh = added_fresh;
      }

      granted-Bounded :
          length (redis.zset key pruned) < limit
          → Bounded now (now ∷ granted, record { keys = added; calls = suc calls })
      granted-Bounded room = record {
        entered = λ t h. ground (
          arith,
          b.entered t (omega arith),
          pruned_keeps t h,
          added_count (λ z. ltb t (z.0 + window)),
        );
        bounded = λ t. elim (Bool-cases (in_window window t now)) [
          | inl hit ↦
              let older : length (filter (in_window window t) granted)
                  ≤ length (filter (λ x. ltb now (x + window)) granted) =
                length-filter_mono (in_window window t) (λ x. ltb now (x + window)) granted
                  (λ x e. ground arith) in
              let all_here : count (λ z. ltb now (z.0 + window)) (redis.zset key pruned)
                  ≤ length (redis.zset key pruned) =
                length-filter-le (λ z. ltb now (z.0 + window)) (redis.zset key pruned) in
              rw hit
                (omega (arith, older, all_here, b.entered now le, pruned_keeps now (omega arith)))
          | inr miss ↦ rw miss (b.bounded t)
        ];
        fresh = added_fresh;
      }

    allow-Bounded :
        (last now : ℕ) (c : List ℕ × Server R)
        → last ≤ now
        → Bounded last c
        → Bounded now (noted now c.0 (allow redis env key window (pos limit) now c.1))
    unfolding allow sliding_window_script
    allow-Bounded last now (granted, c) le b = ground (
      arith,
      skipped-Bounded last now c.calls granted c.keys le b,
      pruned-Bounded last now c.calls granted c.keys le b,
      lost-Bounded last now c.calls granted c.keys le b,
      granted-Bounded last now c.calls granted c.keys le b,
    )

    ask_all-Bounded :
        (nows : List ℕ) (last : ℕ) (c : List ℕ × Server R)
        → Ascending last nows
        → Bounded last c
        → (t : ℕ) → length (filter (in_window window t) (ask_all nows c).0) ≤ limit
    unfolding ask_all
    ask_all-Bounded [] last c up b t = b.bounded t
    ask_all-Bounded (now ∷ nows) last c (le, up) b t =
        ask_all-Bounded nows now _ up (allow-Bounded last now c le b) t

    -- Where the clocks of the requests never go back, no two tokens are the same, and the key has
    -- no entries at the start: whatever call or reply is lost, of the requests that Allow lets
    -- through no more than `limit` fall into any one window of time.
    pub allow_window :
        (nows : List ℕ) (start : Server R) (t : ℕ)
        → Ascending 0 nows
        → redis.zset key start.keys ≡ []
        → length (filter (in_window window t) (ask_all nows ([], start)).0) ≤ limit
    allow_window nows start t up empty =
        ask_all-Bounded nows 0 ([], start) up
          (record {
            entered = λ u h. omega arith;
            bounded = λ u. omega arith;
            fresh = λ i h. rw empty refl;
          })
          t
