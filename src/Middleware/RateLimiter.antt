-- ===== src/Middleware/RateLimiter.antt =====
-- internal/middleware/rate_limiter.go.
use go_ticket_booking_app.Base.{
  ℕ, ◌≡◌, ◌≢◌, refl, sym, ◌∙◌, Bool, true, not, none, some, List, [], ◌∷◌, ◌++◌, if◌then◌else◌,
  arith,
}
use go_ticket_booking_app.Base.Int.{ℤ}
use go_ticket_booking_app.Base.Text.{
  Text, bytes, text_eq, split_n, trim_prefix, before_last, free_of, cut-append, cut-free,
  before_last-append,
}
use go_ticket_booking_app.World.{Result, ok, err}

-- What the middleware reads of an http.Request.
pub record Request : Type 0 where
  pub real_ip : Text
  pub forwarded_for : Text
  pub remote_addr : Text
  pub path : Text

-- strings.SplitN(s, ",", 2)[0]
abbrev pub first_part : List Text → Text
first_part [] = []
first_part (a ∷ _) = a

-- extractIP
unfoldable pub extract_ip : Request → Text
extract_ip r =
    if not (text_eq r.real_ip [])
    then r.real_ip
    else (if not (text_eq r.forwarded_for [])
        then first_part (split_n b',' 2 r.forwarded_for)
        else elim (before_last b':' r.remote_addr) [ some host ↦ host | none ↦ r.remote_addr ])

abbrev pub group_of : List Text → Text
group_of [] = bytes "root"
group_of (a ∷ []) = a
group_of (a ∷ b ∷ _) = a ++ b'/' ∷ b

-- pathGroup
unfoldable pub path_group : Text → Text
path_group path = group_of (split_n b'/' 3 (trim_prefix b'/' path))

-- fmt.Sprintf("rl:%s:%s", ip, pathGroup(r.URL.Path))
unfoldable pub limit_key : Request → Text
limit_key r = bytes "rl:" ++ (extract_ip r ++ b':' ∷ path_group r.path)

-- Whether the next handler runs, or a 429 is written.
pub data Limited : Type 0 where
  served limited : Limited

-- The handler of RateLimiter over RedisRepo.Allow: window, limit and time in milliseconds.
unfoldable pub rate_limiter :
    {S : Type 0} → (Text → ℕ → ℤ → ℕ → S → Result Bool × S) → ℕ → ℤ → ℕ → Request → S → Limited × S
rate_limiter allow window max_requests now r s =
    let (reply, s') = allow (limit_key r) window max_requests now s in
    elim reply [
      | err _ ↦ (served, s')
      | ok allowed ↦ ((if not allowed then limited else served), s')
    ]

-- The bucket of a path under a resource is the resource with the next segment, whatever follows:
-- a path of two segments, and one of more.
pub path_group_segments :
    (a b rest : Text)
    → free_of b'/' a ≡ true
    → free_of b'/' b ≡ true
    → (path_group (b'/' ∷ (a ++ b'/' ∷ b)) ≡ a ++ b'/' ∷ b)
      × (path_group (b'/' ∷ (a ++ b'/' ∷ (b ++ b'/' ∷ rest))) ≡ a ++ b'/' ∷ b)
unfolding path_group
path_group_segments a b rest h k = ground (
  arith,
  cut-append b'/' a b h,
  cut-append b'/' a (b ++ b'/' ∷ rest) h,
  cut-append b'/' b rest k,
  cut-free b'/' b k,
)

cons_inj : (a b : ℕ) (s t : Text) → a ∷ s ≡ b ∷ t → s ≡ t
cons_inj a b s t h = ground arith

append_inj : (a s t : Text) → a ++ s ≡ a ++ t → s ≡ t
append_inj [] s t h = h
append_inj (x ∷ a) s t h = append_inj a s t (cons_inj x x _ _ h)

-- The key under which the requests of a client are counted is the same for a path under an id as for
-- the path of the id itself, and another one for another id under the same resource: the client has
-- a budget for each id.
pub limit_key_separates :
    (r : Request) (a b c rest : Text)
    → free_of b'/' a ≡ true
    → free_of b'/' b ≡ true
    → free_of b'/' c ≡ true
    → b ≢ c
    → (limit_key (record r { path = b'/' ∷ (a ++ b'/' ∷ (b ++ b'/' ∷ rest)) })
        ≡ limit_key (record r { path = b'/' ∷ (a ++ b'/' ∷ b) }))
      × (limit_key (record r { path = b'/' ∷ (a ++ b'/' ∷ b) })
          ≢ limit_key (record r { path = b'/' ∷ (a ++ b'/' ∷ c) }))
unfolding limit_key extract_ip
limit_key_separates r a b c rest h k l differ = (
  rw ((path_group_segments a b rest h k).0, (path_group_segments a b rest h k).1) refl,
  λ same.
      let groups : path_group (b'/' ∷ (a ++ b'/' ∷ b)) ≡ path_group (b'/' ∷ (a ++ b'/' ∷ c)) =
        cons_inj b':' b':' _ _
          (append_inj (extract_ip r) _ _ (append_inj (bytes "rl:") _ _ same)) in
      differ (
        cons_inj b'/' b'/' b c (
          append_inj a (b'/' ∷ b) (b'/' ∷ c) (
            sym (path_group_segments a b [] h k).0
            ∙ (groups ∙ (path_group_segments a c [] h l).0)))),
)

-- Without proxy headers, the key is that of the host and the group: the port does not count.
pub limit_key_host :
    (host port path : Text)
    → free_of b':' port ≡ true
    → limit_key (record {
      real_ip = [];
      forwarded_for = [];
      remote_addr = host ++ b':' ∷ port;
      path = path;
    })
      ≡ bytes "rl:" ++ (host ++ b':' ∷ path_group path)
unfolding limit_key extract_ip
limit_key_host host port path h = ground (arith, before_last-append b':' host port h)
