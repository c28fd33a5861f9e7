-- ===== src/Breaker/Tests.antt =====
-- A breaker that opened at time 0, and the theorems of this part at it.
use agent_workspace_hub.Prelude.{
  ℕ, ◌+◌, ◌-◌, ◌*◌, ◌^◌, ◌≤◌, min, ◌≡◌, refl, true, List, [], ◌∷◌, map, length, arith, leb,
  if◌then◌else◌, Result, ok,
}
use agent_workspace_hub.Breaker.{
  CircuitBreaker, closed, opened, second, default_config, Event, begin, fail, record_failure, run,
  new,
}
use agent_workspace_hub.Breaker.Probe.{answers, all_rejected, open_rejects}
use agent_workspace_hub.Breaker.Recovery.{failures_in, threshold_opens}
use agent_workspace_hub.Breaker.Counters.{run-counts}

abbrev tripped : CircuitBreaker
tripped = record {
  config = default_config;
  state = record { failures = 5; phase = opened 0 };
  opened_count = 1;
  rejected_count = 0;
}

abbrev fresh : CircuitBreaker
fresh = record {
  config = default_config;
  state = record { failures = 0; phase = closed };
  opened_count = 0;
  rejected_count = 0;
}

abbrev soon : List ℕ
soon = second ∷ 2 * second ∷ []

abbrev answer : Result ℕ ℕ
answer = ok 7

abbrev calls : List Event
calls = begin 1 ∷ fail 2 ∷ begin 3 ∷ fail 4 ∷ begin 5 ∷ []

fresh_new : new default_config ≡ fresh
unfolding new
fresh_new = refl

open_rejects_example :
    (all_rejected (answers tripped soon) ≡ true)
    × ((run tripped (map begin soon)).state.phase ≡ opened 0)
    × ((run tripped (map begin soon)).rejected_count ≡ min (2 ^ 64 - 1) (0 + length soon))
open_rejects_example =
    open_rejects tripped 0 soon refl (omega arith) (omega arith) (omega arith, (omega arith, tt))

threshold_opens_example :
    ((run fresh calls).state.phase ≡ closed)
    × ((run fresh calls).state.failures ≡ failures_in calls)
    × ((record_failure 6 (run fresh calls)).1 ≡ leb 5 (failures_in calls + 1))
    × ((record_failure 6 (run fresh calls)).0.state.phase
        ≡ (if leb 5 (failures_in calls + 1) then opened 6 else closed))
threshold_opens_example =
    threshold_opens fresh calls 6 refl (omega arith) (tt, (tt, (tt, (tt, (tt, tt)))))
      (unfold failures_in in omega arith)

run-counts_example :
    (0 ≤ (run fresh calls).opened_count)
    × ((run fresh calls).opened_count ≤ 2 ^ 32 - 1)
    × (0 ≤ (run fresh calls).rejected_count)
    × ((run fresh calls).rejected_count ≤ 2 ^ 64 - 1)
run-counts_example = run-counts fresh calls (omega arith) (omega arith)
