-- ===== src/RateLimit/Trace.antt =====
-- services/rate_limit.rs: callers that make one request after another.
use agent_workspace_hub.Prelude.{
  ℕ, ◌+◌, ◌≤◌, ◌≡◌, sym, inl, inr, refl, true, not, ◌&&◌, List, [], ◌∷◌, ◌++◌, Text, text_eq,
  text_eq_iff, arith, if◌then◌else◌, length, length-append, length-retain, length-retain_lt, any,
  any-find, find, retain, Bool-cases, Option-cases, Result,
}
use mathlib.Core.Path.{subst}
use agent_workspace_hub.RateLimit.{
  Entry, RateLimiter, is_fresh, with_key, recorded, evict, put, check,
}
use agent_workspace_hub.RateLimit.Window.{Distinct, put-Distinct, Evicted, evict-Evicted}
use agent_workspace_hub.RateLimit.Limit.{
  is_ok, Tracks, HasRoom, Checked, saturated, limited, passed, check-Checked, own-Tracks,
  other-Tracks,
}

-- A request, as a caller makes it.
pub record Check : Type 0 where
  pub now : ℕ
  pub key : Text

unfoldable pub run : RateLimiter → List Check → RateLimiter
run rl [] = rl
run rl (q ∷ qs) = run (check q.now q.key rl).0 qs

-- The times at which requests of a key were let through, after those already known.
unfoldable pub admitted : Text → RateLimiter → List ℕ → List Check → List ℕ
admitted key rl known [] = known
admitted key rl known (q ∷ qs) =
    admitted key (check q.now q.key rl).0
      (if text_eq q.key key && is_ok (check q.now q.key rl).1 then known ++ q.now ∷ [] else known)
      qs

-- The clock does not go back.
abbrev pub Ordered : ℕ → List Check → Type 0
Ordered last [] = Unit
Ordered last (q ∷ qs) = (last ≤ q.now) × Ordered q.now qs

abbrev pub last_time : ℕ → List Check → ℕ
last_time last [] = last
last_time last (q ∷ qs) = last_time q.now qs

-- A request leaves the configuration alone.
Checked-config :
    (rl : RateLimiter) (now : ℕ) (key : Text) (out : RateLimiter × Result ℕ ℕ)
    → Checked rl now key out
    → (out.0.window ≡ rl.window) × (out.0.limit ≡ rl.limit) × (out.0.max_keys ≡ rl.max_keys)
Checked-config rl now key _ (saturated retry) = (refl, refl, refl)
Checked-config rl now key _ (limited slot retry) = (refl, refl, refl)
Checked-config rl now key _ (passed slot room) = (refl, refl, refl)

check-Tracks :
    (rl : RateLimiter) (key : Text) (known : List ℕ) (last : ℕ) (q : Check)
    → last ≤ q.now
    → Tracks key rl known last
    → Tracks key
        (check q.now q.key rl).0
        (if text_eq q.key key && is_ok (check q.now q.key rl).1 then known ++ q.now ∷ [] else known)
        q.now
check-Tracks rl key known last q order t = elim (Bool-cases (text_eq q.key key)) [
  | inr apart ↦
      rw apart
        (other-Tracks rl key known last q.now order t q.key _ apart (check-Checked rl q.now q.key))
  | inl same ↦
      let equal = (text_eq_iff q.key key).0 same in
      rw same (rw equal (own-Tracks rl key known last q.now order t _ (check-Checked rl q.now key)))
]

admitted-Tracks :
    (rl : RateLimiter) (key : Text) (known : List ℕ) (last later : ℕ) (qs : List Check)
    → Tracks key rl known last
    → Ordered last qs
    → last_time last qs ≤ later
    → length (retain (is_fresh rl.window later) (admitted key rl known qs)) ≤ rl.limit
unfolding admitted
admitted-Tracks rl key known last later [] t order end = t.within later end
admitted-Tracks rl key known last later (q ∷ qs) t order end =
    let (window, limit, _) = Checked-config rl q.now q.key _ (check-Checked rl q.now q.key) in
    let rest =
      admitted-Tracks (check q.now q.key rl).0 key _ q.now later qs
        (check-Tracks rl key known last q order.0 t) order.1 end in
    rw (window, limit) at rest

-- The promise of the limiter: started with an empty map, and asked in any sequence of requests, for
-- any keys, whose times do not go back, it has let through, at the time of the last request and at
-- any later one, at most `limit` requests of each key whose times are inside the window.
pub admitted-within :
    (rl : RateLimiter) (key : Text) (start later : ℕ) (qs : List Check)
    → rl.hits ≡ []
    → Ordered start qs
    → last_time start qs ≤ later
    → length (retain (is_fresh rl.window later) (admitted key rl [] qs)) ≤ rl.limit
admitted-within rl key start later qs e order end =
    admitted-Tracks rl key [] start later qs nothing order end
  where
    nothing : Tracks key rl [] start
    nothing = record {
      distinct = subst Distinct (sym e) tt;
      inside = λ later m. rw e (unfold recorded find in refl);
      within = λ later m. unfold retain in omega arith;
    }

length-put :
    (key : Text) (times : List ℕ) (hits : List Entry)
    → length (put key times hits) ≤ length hits + 1
unfolding put
length-put key times hits = omega (
  arith,
  length-append (retain (λ x. not (with_key key x)) hits)
      (record { key = key; times = times } ∷ []),
  length-retain (λ x. not (with_key key x)) hits,
)

length-put_known :
    (key : Text) (times : List ℕ) (hits : List Entry)
    → any (with_key key) hits ≡ true
    → length (put key times hits) ≤ length hits
unfolding put
length-put_known key times hits known = elim (Option-cases (find (with_key key) hits)) [
  | inl e ↦ absurd (ground (arith, any-find (with_key key) hits))
  | inr (x, e) ↦ omega (
    arith,
    length-append (retain (λ x. not (with_key key x)) hits)
        (record { key = key; times = times } ∷ []),
    length-retain_lt (with_key key) hits e,
  )
]

put-bounded :
    (rl : RateLimiter) (now : ℕ) (key : Text) (times : List ℕ)
    → HasRoom rl now key
    → length (evict rl now key) ≤ rl.max_keys
    → length (put key times (evict rl now key)) ≤ rl.max_keys
put-bounded rl now key times slot h = elim (Bool-cases (any (with_key key) (evict rl now key))) [
  | inl known ↦ omega (arith, length-put_known key times (evict rl now key) known)
  | inr fresh ↦ ground (arith, length-put key times (evict rl now key))
]

Checked-bounded :
    (rl : RateLimiter) (now : ℕ) (key : Text) (out : RateLimiter × Result ℕ ℕ)
    → Distinct rl.hits
    → length rl.hits ≤ rl.max_keys
    → Checked rl now key out
    → Distinct out.0.hits × (length out.0.hits ≤ rl.max_keys)
Checked-bounded rl now key _ d h c = go _ c
  where
    ev : Evicted rl now key (evict rl now key)
    ev = evict-Evicted rl now key d

    small : length (evict rl now key) ≤ rl.max_keys
    small = omega (arith, ev.shorter)

    go :
        (out : RateLimiter × Result ℕ ℕ)
        → Checked rl now key out
        → Distinct out.0.hits × (length out.0.hits ≤ rl.max_keys)
    go _ (saturated retry) = (ev.distinct, small)
    go _ (limited slot retry) =
        (put-Distinct key _ _ ev.distinct, put-bounded rl now key _ slot small)
    go _ (passed slot room) =
        (put-Distinct key _ _ ev.distinct, put-bounded rl now key _ slot small)

-- The map does not grow without bound: from a map without two entries of one key and with at most
-- `max_keys` entries, whatever requests come, it stays so.
pub run-bounded :
    (rl : RateLimiter) (qs : List Check)
    → Distinct rl.hits
    → length rl.hits ≤ rl.max_keys
    → Distinct (run rl qs).hits × (length (run rl qs).hits ≤ rl.max_keys)
unfolding run
run-bounded rl [] d h = (d, h)
run-bounded rl (q ∷ qs) d h =
    let c = check-Checked rl q.now q.key in
    let (_, _, max_keys) = Checked-config rl q.now q.key _ c in
    let (d', h') = Checked-bounded rl q.now q.key _ d h c in
    let (last, bound) = run-bounded (check q.now q.key rl).0 qs d' (omega arith) in
    (last, omega arith)
