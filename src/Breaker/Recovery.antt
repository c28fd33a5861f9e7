-- ===== src/Breaker/Recovery.antt =====
-- mcp/circuit_breaker.rs: what the results of calls do to the breaker.
use agent_workspace_hub.Prelude.{
  ℕ, ◌+◌, ◌^◌, ◌≤◌, ◌<◌, ◌≡◌, ap, ◌⊎◌, inl, inr, refl, true, List, [], ◌∷◌, map, length, arith, All,
  Result, ok, err, leb, if◌then◌else◌, some, Option,
}
use agent_workspace_hub.Breaker.{
  CircuitBreaker, Phase, closed, opened, half_open, after_cooldown, admit, allow_phase, allow,
  begin_call, record_success, record_failure, Event, begin, succeed, fail, step, run, tools_call,
  answered, record_result, saturating_increment_u32,
}
use agent_workspace_hub.Breaker.Probe.{begin_call-expired}

record_failure-half_open :
    (b : CircuitBreaker) (probe : Option ℕ) (now : ℕ)
    → b.state.phase ≡ half_open probe
    → ((record_failure now b).0.state.phase ≡ opened now)
      × ((record_failure now b).0.opened_count ≡ saturating_increment_u32 b.opened_count)
unfolding record_failure
record_failure-half_open b probe now e = ground arith

begin_call-opened_count :
    (b : CircuitBreaker) (now : ℕ) → ((begin_call now b).0.opened_count ≡ b.opened_count)
unfolding begin_call allow
begin_call-opened_count b now = ground arith

-- The answer to the probe decides: a call of an open breaker whose cooldown is over reaches the
-- client and returns its answer. A success closes the breaker and clears the failures; a failure
-- opens it again since that time, and adds one to the count of openings, which stops at 2^32 - 1.
pub tools_call-probe :
    {V E : Type 0} (b : CircuitBreaker) (at start finish : ℕ) (answer : Result E V)
    → b.state.phase ≡ opened at
    → at + b.config.cooldown ≤ start
    → ((tools_call start finish answer b).1 ≡ answered answer)
      × (((v : V) × (answer ≡ ok v)
            × ((tools_call start finish answer b).0.state
                ≡ record { failures = 0; phase = closed }))
          ⊎ ((e : E) × (answer ≡ err e)
              × ((tools_call start finish answer b).0.state.phase ≡ opened finish)
              × ((tools_call start finish answer b).0.opened_count
                  ≡ saturating_increment_u32 b.opened_count)))
unfolding tools_call record_result record_success record_failure
tools_call-probe b at start finish (ok v) e h =
    let (admitted, probing, _) = begin_call-expired b at start e h in
    (ground arith, inl (v, refl, ground arith))
tools_call-probe b at start finish (err x) e h =
    let (admitted, probing, _) = begin_call-expired b at start e h in
    let (again, count) =
      record_failure-half_open (begin_call start b).0 (some start) finish probing in
    let same = begin_call-opened_count b start in
    (ground arith, inr (x, refl, ground arith, ground arith))

-- The calls that begin or fail: no call succeeds.
abbrev pub Unsuccessful : Event → Type 0
Unsuccessful (begin now) = Unit
Unsuccessful succeed = ⊥
Unsuccessful (fail now) = Unit

unfoldable pub failures_in : List Event → ℕ
failures_in [] = 0
failures_in (begin now ∷ es) = failures_in es
failures_in (succeed ∷ es) = failures_in es
failures_in (fail now ∷ es) = failures_in es + 1

allow_phase-closed :
    (cooldown now : ℕ) (phase : Phase)
    → phase ≡ closed
    → allow_phase phase now (after_cooldown cooldown now phase) ≡ (closed, true)
unfolding allow_phase after_cooldown admit
allow_phase-closed cooldown now closed e = ground arith
allow_phase-closed cooldown now (opened at) e = ground arith
allow_phase-closed cooldown now (half_open probe) e = ground arith

begin_call-closed :
    (b : CircuitBreaker) (now : ℕ)
    → b.state.phase ≡ closed
    → ((begin_call now b).0.state.phase ≡ closed)
      × ((begin_call now b).0.state.failures ≡ b.state.failures)
      × ((begin_call now b).0.config ≡ b.config)
unfolding begin_call allow
begin_call-closed b now e =
    let admitted = allow_phase-closed b.config.cooldown now b.state.phase e in
    (ground arith, ground arith, ground arith)

-- Below the threshold a failure adds one to the count; at the threshold it opens the breaker.
record_failure-closed :
    (b : CircuitBreaker) (now : ℕ)
    → b.state.phase ≡ closed
    → b.state.failures + 1 < 2 ^ 32
    → ((record_failure now b).1 ≡ leb b.config.failure_threshold (b.state.failures + 1))
      × ((record_failure now b).0.state.phase
          ≡ (if leb b.config.failure_threshold (b.state.failures + 1) then opened now else closed))
      × ((record_failure now b).0.state.failures ≡ b.state.failures + 1)
      × ((record_failure now b).0.config ≡ b.config)
unfolding record_failure
record_failure-closed b now e h = (ground arith, ground arith, ground arith, ground arith)

below_threshold :
    (b : CircuitBreaker) (es : List Event)
    → b.state.phase ≡ closed
    → b.config.failure_threshold < 2 ^ 32
    → All Unsuccessful es
    → b.state.failures + failures_in es < b.config.failure_threshold
    → ((run b es).state.phase ≡ closed)
      × ((run b es).state.failures ≡ b.state.failures + failures_in es)
      × ((run b es).config ≡ b.config)
unfolding run step failures_in
below_threshold b [] e width unsuccessful h = (e, omega arith, refl)
below_threshold b (begin now ∷ es) e width (_, unsuccessful) h =
    let (phase, failures, config) = begin_call-closed b now e in
    let (phase', failures', config') =
      below_threshold (begin_call now b).0 es phase (ground arith) unsuccessful (ground arith) in
    (phase', ground arith, ground arith)
below_threshold b (succeed ∷ es) e width (impossible, unsuccessful) h = absurd impossible
below_threshold b (fail now ∷ es) e width (_, unsuccessful) h =
    let (_, phase, failures, config) = record_failure-closed b now e (ground arith) in
    let (phase', failures', config') =
      below_threshold (record_failure now b).0 es (ground arith) (ground arith) unsuccessful
        (ground arith) in
    (phase', ground arith, ground arith)

-- The threshold: in a closed breaker with no failure on record, whose threshold is a u32, let a
-- sequence of calls begin and fail with no success and with fewer failures than the threshold. The
-- breaker stays closed and its count is the number of those failures. One failure more opens it,
-- and reports that it did, exactly if the number of failures has then reached the threshold.
pub threshold_opens :
    (b : CircuitBreaker) (es : List Event) (now : ℕ)
    → b.state ≡ record { failures = 0; phase = closed }
    → b.config.failure_threshold < 2 ^ 32
    → All Unsuccessful es
    → failures_in es < b.config.failure_threshold
    → ((run b es).state.phase ≡ closed)
      × ((run b es).state.failures ≡ failures_in es)
      × ((record_failure now (run b es)).1 ≡ leb b.config.failure_threshold (failures_in es + 1))
      × ((record_failure now (run b es)).0.state.phase
          ≡ (if leb b.config.failure_threshold (failures_in es + 1) then opened now else closed))
threshold_opens b es now e width unsuccessful h =
    let (phase, failures, config) =
      below_threshold b es (ap (λ s. s.phase) e) width unsuccessful (ground arith) in
    let (tripped, phase', _, _) = record_failure-closed (run b es) now phase (ground arith) in
    (phase, ground arith, ground arith, ground arith)

record_failure-opened :
    (b : CircuitBreaker) (at now : ℕ)
    → b.state.phase ≡ opened at
    → b.config.failure_threshold ≤ b.state.failures
    → b.state.failures + 1 < 2 ^ 32
    → ((record_failure now b).0.state.phase ≡ opened now)
      × ((record_failure now b).0.state.failures ≡ b.state.failures + 1)
      × ((record_failure now b).0.opened_count ≡ saturating_increment_u32 b.opened_count)
      × ((record_failure now b).0.config ≡ b.config)
unfolding record_failure
record_failure-opened b at now e reached width =
    (ground arith, ground arith, ground arith, ground arith)

unfoldable pub last_or : ℕ → List ℕ → ℕ
last_or n [] = n
last_or n (x ∷ xs) = last_or x xs

-- Calls that were let through together and all fail are all counted as openings: if the breaker is
-- open and its count of failures has reached the threshold, and no u32 count wraps, then each of a
-- sequence of failures puts the time of opening at its own, and adds one to the count of openings.
pub late_failures :
    (b : CircuitBreaker) (at : ℕ) (nows : List ℕ)
    → b.state.phase ≡ opened at
    → b.config.failure_threshold ≤ b.state.failures
    → b.state.failures + length nows < 2 ^ 32
    → b.opened_count + length nows < 2 ^ 32
    → ((run b (map fail nows)).state.phase ≡ opened (last_or at nows))
      × ((run b (map fail nows)).opened_count ≡ b.opened_count + length nows)
unfolding run step last_or saturating_increment_u32
late_failures b at [] e reached width width' = (e, omega arith)
late_failures b at (now ∷ nows) e reached width width' =
    let (phase, failures, count, config) =
      record_failure-opened b at now e reached (ground arith) in
    let (phase', count') =
      late_failures (record_failure now b).0 now nows phase (ground arith) (ground arith)
        (ground arith) in
    (phase', ground arith)
