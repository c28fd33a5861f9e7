-- ===== src/Breaker/Counters.antt =====
-- mcp/circuit_breaker.rs: the counts of openings and of rejections.
use agent_workspace_hub.Prelude.{◌-◌, ◌^◌, ◌≤◌, List, [], ◌∷◌, arith}
use agent_workspace_hub.Breaker.{
  CircuitBreaker, allow, begin_call, record_success, record_failure, Event, begin, succeed, fail,
  step, run, saturating_increment_u64, saturating_increment_u32,
}

step-counts :
    (b : CircuitBreaker) (e : Event)
    → b.opened_count ≤ 2 ^ 32 - 1
    → b.rejected_count ≤ 2 ^ 64 - 1
    → (b.opened_count ≤ (step b e).opened_count)
      × ((step b e).opened_count ≤ 2 ^ 32 - 1)
      × (b.rejected_count ≤ (step b e).rejected_count)
      × ((step b e).rejected_count ≤ 2 ^ 64 - 1)
unfolding step begin_call allow record_success record_failure saturating_increment_u64
    saturating_increment_u32
step-counts b (begin now) h k = (ground arith, ground arith, ground arith, ground arith)
step-counts b succeed h k = (ground arith, ground arith, ground arith, ground arith)
step-counts b (fail now) h k = (ground arith, ground arith, ground arith, ground arith)

-- The metrics never wrap: from counts that fit their types, whatever calls begin, succeed and fail
-- afterwards, in any order, neither the count of openings nor that of rejections goes down, and
-- they stay within 2^32 - 1 and 2^64 - 1.
pub run-counts :
    (b : CircuitBreaker) (es : List Event)
    → b.opened_count ≤ 2 ^ 32 - 1
    → b.rejected_count ≤ 2 ^ 64 - 1
    → (b.opened_count ≤ (run b es).opened_count)
      × ((run b es).opened_count ≤ 2 ^ 32 - 1)
      × (b.rejected_count ≤ (run b es).rejected_count)
      × ((run b es).rejected_count ≤ 2 ^ 64 - 1)
unfolding run
run-counts b [] h k = (omega arith, h, omega arith, k)
run-counts b (e ∷ es) h k =
    let (up, bound, up', bound') = step-counts b e h k in
    let (more, last, more', last') = run-counts (step b e) es bound bound' in
    (omega arith, last, omega arith, last')
