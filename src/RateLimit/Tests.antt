-- ===== src/RateLimit/Tests.antt =====
-- A limiter of two requests in ten seconds, and the theorems of this part at it.
use agent_workspace_hub.Prelude.{
  ℕ, ◌*◌, ◌≤◌, ◌≡◌, refl, List, [], ◌∷◌, Text, codes, arith, length, retain,
}
use agent_workspace_hub.RateLimit.{RateLimiter, new, with_max_keys, is_fresh}
use agent_workspace_hub.RateLimit.Window.{Distinct}
use agent_workspace_hub.RateLimit.Trace.{Check, run, admitted, admitted-within, run-bounded}

abbrev second : ℕ
second = 1_000_000_000

abbrev limiter : RateLimiter
limiter = record { limit = 2; window = 10 * second; max_keys = 1; hits = [] }

limiter_new : with_max_keys (new 2 (10 * second)) 1 ≡ limiter
unfolding new with_max_keys
limiter_new = refl

abbrev ip : Text
ip = codes "ip"

abbrev checks : List Check
checks =
    record { now = 20 * second; key = ip }
    ∷ record { now = 21 * second; key = ip }
    ∷ record { now = 22 * second; key = codes "other" }
    ∷ record { now = 23 * second; key = ip }
    ∷ []

admitted-within_example :
    length (retain (is_fresh (10 * second) (24 * second)) (admitted ip limiter [] checks)) ≤ 2
admitted-within_example =
    admitted-within limiter ip (20 * second) (24 * second) checks refl
      (omega arith, (omega arith, (omega arith, (omega arith, tt)))) (omega arith)

run-bounded_example : Distinct (run limiter checks).hits × (length (run limiter checks).hits ≤ 1)
run-bounded_example = run-bounded limiter checks tt (omega arith)
