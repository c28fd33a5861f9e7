-- ===== src/Breaker.antt =====
-- mcp/circuit_breaker.rs: the breaker in front of an MCP provider. Times are nanoseconds of the
-- monotonic clock, read once in each call; `elapsed` is a difference that stops at 0. The mutex
-- makes `allow`, `record_success` and `record_failure` single steps.
pub mod Probe
pub mod Recovery
pub mod Counters
mod Tests
use agent_workspace_hub.Prelude.{
  ℕ, ◌+◌, ◌-◌, ◌*◌, ◌%◌, ◌^◌, Bool, true, false, Option, none, some, List, [], ◌∷◌, Text, Result,
  ok, err, ltb, leb, if◌then◌else◌, min,
}

pub record CircuitBreakerConfig : Type 0 where
  pub failure_threshold : ℕ  -- u32
  pub cooldown : ℕ

abbrev pub second : ℕ
second = 1_000_000_000

abbrev pub probe_timeout : ℕ
probe_timeout = 60 * second

abbrev pub default_config : CircuitBreakerConfig
default_config = record { failure_threshold = 5; cooldown = 30 * second }

pub data Phase : Type 0 where
  closed : Phase
  opened : ℕ → Phase
  half_open : Option ℕ → Phase

pub record State : Type 0 where
  pub failures : ℕ  -- u32
  pub phase : Phase

pub record CircuitBreaker : Type 0 where
  pub config : CircuitBreakerConfig
  pub state : State
  pub opened_count : ℕ  -- u32
  pub rejected_count : ℕ  -- u64

unfoldable pub new : CircuitBreakerConfig → CircuitBreaker
new config = record {
  config = config;
  state = record { failures = 0; phase = closed };
  opened_count = 0;
  rejected_count = 0;
}

unfoldable pub saturating_increment_u64 : ℕ → ℕ
saturating_increment_u64 n = if leb (2 ^ 64 - 1) n then 2 ^ 64 - 1 else n + 1

unfoldable pub saturating_increment_u32 : ℕ → ℕ
saturating_increment_u32 n = if leb (2 ^ 32 - 1) n then 2 ^ 32 - 1 else n + 1

-- The phase that `allow` finds once a cooldown that has passed is taken into account, or nothing
-- if the breaker is still open.
unfoldable pub after_cooldown : ℕ → ℕ → Phase → Option Phase
after_cooldown cooldown now closed = some closed
after_cooldown cooldown now (opened at) =
    if ltb (now - at) cooldown then none else some (half_open none)
after_cooldown cooldown now (half_open probe) = some (half_open probe)

-- The second `match` of `allow`: the new phase and the answer.
unfoldable pub admit : ℕ → Phase → Phase × Bool
admit now closed = (closed, true)
admit now (opened at) = (opened at, false)
admit now (half_open none) = (half_open (some now), true)
admit now (half_open (some started)) =
    if ltb (now - started) probe_timeout
    then (half_open (some started), false)
    else (half_open (some now), true)

unfoldable pub allow_phase : Phase → ℕ → Option Phase → Phase × Bool
unfolding admit
allow_phase before now none = (before, false)
allow_phase before now (some phase) = admit now phase

unfoldable pub allow : ℕ → CircuitBreaker → CircuitBreaker × Bool
unfolding after_cooldown allow_phase
allow now b =
    let (phase, answer) =
      allow_phase b.state.phase now (after_cooldown b.config.cooldown now b.state.phase) in
    (record b { state = record { failures = b.state.failures; phase = phase } }, answer)

unfoldable pub record_success : CircuitBreaker → CircuitBreaker
record_success b = record b { state = record { failures = 0; phase = closed } }

abbrev pub is_half_open : Phase → Bool
is_half_open closed = false
is_half_open (opened at) = false
is_half_open (half_open probe) = true

-- `failures += 1` on a u32 wraps in a release build.
unfoldable pub record_failure : ℕ → CircuitBreaker → CircuitBreaker × Bool
unfolding saturating_increment_u32
record_failure now b =
    let failures = (b.state.failures + 1) % 2 ^ 32 in
    let tripped =
      if is_half_open b.state.phase then true else leb b.config.failure_threshold failures in
    if tripped
    then (
      record b {
        state = record { failures = failures; phase = opened now };
        opened_count = saturating_increment_u32 b.opened_count;
      },
      true,
    )
    else (record b { state = record { failures = failures; phase = b.state.phase } }, false)

-- What happens at a breaker that callers share: a call begins, or one that was admitted ends.
pub data Event : Type 0 where
  begin : ℕ → Event
  succeed : Event
  fail : ℕ → Event

-- A rejected call adds to the count of rejections.
unfoldable pub begin_call : ℕ → CircuitBreaker → CircuitBreaker × Bool
unfolding saturating_increment_u64
begin_call now b =
    let (b', admitted) = allow now b in
    if admitted
    then (b', true)
    else (record b' { rejected_count = saturating_increment_u64 b'.rejected_count }, false)

unfoldable pub step : CircuitBreaker → Event → CircuitBreaker
unfolding begin_call allow record_success record_failure
step b (begin now) = (begin_call now b).0
step b succeed = record_success b
step b (fail now) = (record_failure now b).0

unfoldable pub run : CircuitBreaker → List Event → CircuitBreaker
run b [] = b
run b (e ∷ es) = run (step b e) es

-- `tools_call` and `tools_list`: the call is rejected, or the client's answer is recorded and
-- returned. The client is a parameter: what it answers, and when.
pub data Reply (V E : Type 0) : Type 0 where
  unavailable : Reply V E
  answered : Result E V → Reply V E

unfoldable pub record_result : {V E : Type 0} → ℕ → CircuitBreaker → Result E V → CircuitBreaker
unfolding record_success record_failure
record_result now b (ok v) = record_success b
record_result now b (err e) = (record_failure now b).0

unfoldable pub tools_call :
    {V E : Type 0} → ℕ → ℕ → Result E V → CircuitBreaker → CircuitBreaker × Reply V E
unfolding begin_call allow record_result
tools_call start finish answer b =
    let (b', admitted) = begin_call start b in
    if admitted then (record_result finish b' answer, answered answer) else (b', unavailable)
