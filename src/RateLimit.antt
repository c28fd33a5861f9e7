-- ===== src/RateLimit.antt =====
-- services/rate_limit.rs: the sliding-window limiter. Times are nanoseconds of the monotonic clock;
-- `t > now - window` is written with the window on the other side. The map from keys to the times
-- of their requests is a list of entries whose order stands for the map's own, which is arbitrary.
-- The clock's origin is taken to be at least one window ago, so that `now - window` does not panic.
pub mod Window
pub mod Limit
pub mod Trace
mod Tests
use agent_workspace_hub.Prelude.{
  ℕ, ◌+◌, ◌-◌, ◌/◌, Bool, not, ◌&&◌, Option, none, some, List, [], ◌∷◌, ◌++◌, Text, text_eq,
  if◌then◌else◌, ltb, leb, length, any, all, find, retain, Result, ok, err,
}

pub record Entry : Type 0 where
  pub key : Text
  pub times : List ℕ

pub record RateLimiter : Type 0 where
  pub limit : ℕ
  pub window : ℕ
  pub max_keys : ℕ
  pub hits : List Entry

abbrev pub max_tracked_keys : ℕ
max_tracked_keys = 10_000

unfoldable pub new : ℕ → ℕ → RateLimiter
new limit window = record { limit = limit; window = window; max_keys = max_tracked_keys; hits = [] }

unfoldable pub with_max_keys : RateLimiter → ℕ → RateLimiter
with_max_keys rl max_keys = record rl { max_keys = max_keys }

-- A request is still inside the window.
unfoldable pub is_fresh : ℕ → ℕ → ℕ → Bool
is_fresh window now t = ltb now (t + window)

abbrev pub with_key : Text → Entry → Bool
with_key key e = text_eq e.key key

abbrev pub times_of : Option Entry → List ℕ
times_of none = []
times_of (some e) = e.times

-- The times recorded for a key.
unfoldable pub recorded : Text → List Entry → List ℕ
recorded key hits = times_of (find (with_key key) hits)

unfoldable pub is_stale : ℕ → ℕ → Text → Entry → Bool
unfolding is_fresh
is_stale window now key e =
    not (text_eq e.key key) && all (λ t. not (is_fresh window now t)) e.times

-- `remove` of a key, if one was found.
abbrev pub remove_found : List Entry → Option Entry → List Entry
remove_found hits none = hits
remove_found hits (some e) = retain (λ x. not (with_key e.key x)) hits

-- A full map gives up one other key whose requests are all outside the window.
unfoldable pub evict : RateLimiter → ℕ → Text → List Entry
evict rl now key =
    if leb rl.max_keys (length rl.hits)
    then remove_found rl.hits (find (is_stale rl.window now key) rl.hits)
    else rl.hits

-- The map with a key's times replaced, or with a new key.
unfoldable pub put : Text → List ℕ → List Entry → List Entry
put key times hits =
    retain (λ x. not (with_key key x)) hits ++ record { key = key; times = times } ∷ []

abbrev pub first_or : ℕ → List ℕ → ℕ
first_or n [] = n
first_or n (t ∷ ts) = t

abbrev pub as_secs : ℕ → ℕ
as_secs n = n / 1_000_000_000

abbrev pub at_least_one : ℕ → ℕ
at_least_one n = if leb n 0 then 1 else n

-- The end of `check`, with the key's requests inside the window.
unfoldable pub decide : RateLimiter → ℕ → Text → List Entry → List ℕ → RateLimiter × Result ℕ ℕ
decide rl now key hits entry =
    if leb rl.limit (length entry)
    then (
      record rl { hits = put key entry hits },
      err (at_least_one (as_secs (rl.window - (now - first_or now entry)))),
    )
    else (
      record rl { hits = put key (entry ++ now ∷ []) hits },
      ok (rl.limit - length (entry ++ now ∷ [])),
    )

unfoldable pub check : ℕ → Text → RateLimiter → RateLimiter × Result ℕ ℕ
unfolding evict decide
check now key rl =
    let hits = evict rl now key in
    if leb rl.max_keys (length hits) && not (any (with_key key) hits)
    then (record rl { hits = hits }, err (at_least_one (as_secs rl.window)))
    else decide rl now key hits (retain (is_fresh rl.window now) (recorded key hits))

-- The limiter after a request, and how many requests of a key are inside the window.
unfoldable pub current : ℕ → Text → RateLimiter → RateLimiter × ℕ
current now key rl =
    let entry = retain (is_fresh rl.window now) (recorded key rl.hits) in
    (
      if any (with_key key) rl.hits then record rl { hits = put key entry rl.hits } else rl,
      length entry,
    )
