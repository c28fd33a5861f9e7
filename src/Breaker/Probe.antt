-- ===== src/Breaker/Probe.antt =====
-- mcp/circuit_breaker.rs: when calls are let through.
use agent_workspace_hub.Prelude.{
  ℕ, ◌+◌, ◌-◌, ◌^◌, ◌≤◌, ◌<◌, min, ◌≡◌, ◌∙◌, ◌⊎◌, inl, inr, refl, Bool, true, false, none, some,
  List, [], ◌∷◌, map, length, arith, All, not, ◌&&◌,
}
use agent_workspace_hub.Breaker.{
  CircuitBreaker, Phase, closed, opened, half_open, probe_timeout, after_cooldown, admit,
  allow_phase, allow, begin_call, begin, step, run, saturating_increment_u64,
}

-- No call is let through before the deadline: the breaker cools down, or its probe is in flight.
unfoldable pub Blocked : ℕ → CircuitBreaker → Type 0
Blocked deadline b =
    ((at : ℕ) × (b.state.phase ≡ opened at)
      × (0 < b.config.cooldown)
      × (deadline ≡ at + b.config.cooldown))
    ⊎ ((started : ℕ) × (b.state.phase ≡ half_open (some started))
        × (deadline ≡ started + probe_timeout))

-- The answer to the calls that begin at the given times.
unfoldable pub answers : CircuitBreaker → List ℕ → List Bool
answers b [] = []
answers b (now ∷ nows) = (begin_call now b).1 ∷ answers (step b (begin now)) nows

abbrev pub Before : ℕ → ℕ → Type 0
Before deadline now = now < deadline

allow_phase-cooling :
    (cooldown at now : ℕ) (phase : Phase)
    → phase ≡ opened at
    → 0 < cooldown
    → now < at + cooldown
    → allow_phase phase now (after_cooldown cooldown now phase) ≡ (phase, false)
unfolding allow_phase after_cooldown admit
allow_phase-cooling cooldown at now closed e z h = ground arith
allow_phase-cooling cooldown at now (opened at') e z h = ground arith
allow_phase-cooling cooldown at now (half_open probe) e z h = ground arith

allow_phase-probing :
    (cooldown started now : ℕ) (phase : Phase)
    → phase ≡ half_open (some started)
    → now < started + probe_timeout
    → allow_phase phase now (after_cooldown cooldown now phase) ≡ (phase, false)
unfolding allow_phase after_cooldown admit
allow_phase-probing cooldown started now closed e h = ground arith
allow_phase-probing cooldown started now (opened at) e h = ground arith
allow_phase-probing cooldown started now (half_open none) e h = ground arith
allow_phase-probing cooldown started now (half_open (some started')) e h = ground arith

-- A call that a breaker with a deadline rejects changes the count of rejections alone.
begin_call-Blocked :
    (b : CircuitBreaker) (deadline now : ℕ)
    → Blocked deadline b
    → now < deadline
    → ((begin_call now b).1 ≡ false)
      × Blocked deadline (begin_call now b).0
      × ((begin_call now b).0.rejected_count ≡ saturating_increment_u64 b.rejected_count)
      × ((begin_call now b).0.state.phase ≡ b.state.phase)
      × ((begin_call now b).0.config ≡ b.config)
unfolding begin_call allow Blocked
begin_call-Blocked b deadline now (inl (at, e, z, d)) h =
    let still = allow_phase-cooling b.config.cooldown at now b.state.phase e z (ground arith) in
    (
      ground arith,
      inl (at, ground arith, ground arith, ground arith),
      ground arith,
      ground arith,
      ground arith,
    )
begin_call-Blocked b deadline now (inr (started, e, d)) h =
    let still = allow_phase-probing b.config.cooldown started now b.state.phase e (ground arith) in
    (
      ground arith,
      inr (started, ground arith, ground arith),
      ground arith,
      ground arith,
      ground arith,
    )

abbrev pub all_rejected : List Bool → Bool
all_rejected [] = true
all_rejected (answer ∷ answers) = not answer && all_rejected answers

begins-Blocked :
    (b : CircuitBreaker) (deadline : ℕ) (nows : List ℕ)
    → Blocked deadline b
    → b.rejected_count ≤ 2 ^ 64 - 1
    → All (Before deadline) nows
    → (all_rejected (answers b nows) ≡ true)
      × ((run b (map begin nows)).rejected_count
          ≡ min (2 ^ 64 - 1) (b.rejected_count + length nows))
      × ((run b (map begin nows)).state.phase ≡ b.state.phase)
      × ((run b (map begin nows)).config ≡ b.config)
unfolding answers run step saturating_increment_u64
begins-Blocked b deadline [] blocked bound before = (refl, omega arith, refl, refl)
begins-Blocked b deadline (now ∷ nows) blocked bound (h, before) =
    let (turned_down, blocked', count, phase, config) =
      begin_call-Blocked b deadline now blocked h in
    let (rest, total, phase', config') =
      begins-Blocked (begin_call now b).0 deadline nows blocked' (ground arith) before in
    (ground arith, ground arith, ground arith, ground arith)

-- The cooldown over, the next call is the probe.
allow_phase-expired :
    (cooldown at now : ℕ) (phase : Phase)
    → phase ≡ opened at
    → at + cooldown ≤ now
    → allow_phase phase now (after_cooldown cooldown now phase) ≡ (half_open (some now), true)
unfolding allow_phase after_cooldown admit
allow_phase-expired cooldown at now closed e h = ground arith
allow_phase-expired cooldown at now (opened at') e h = ground arith
allow_phase-expired cooldown at now (half_open probe) e h = ground arith

pub begin_call-expired :
    (b : CircuitBreaker) (at now : ℕ)
    → b.state.phase ≡ opened at
    → at + b.config.cooldown ≤ now
    → ((begin_call now b).1 ≡ true)
      × ((begin_call now b).0.state.phase ≡ half_open (some now))
      × ((begin_call now b).0.rejected_count ≡ b.rejected_count)
unfolding begin_call allow
begin_call-expired b at now e h =
    let probe = allow_phase-expired b.config.cooldown at now b.state.phase e h in
    (ground arith, ground arith, ground arith)

-- Fail fast: an open breaker with a positive cooldown rejects every call that begins before the
-- cooldown has passed, however many there are, stays open since the same time, and adds one to the
-- count of rejections for each of them, until the count reaches 2^64 - 1, where it stays.
pub open_rejects :
    (b : CircuitBreaker) (at : ℕ) (nows : List ℕ)
    → b.state.phase ≡ opened at
    → 0 < b.config.cooldown
    → b.rejected_count ≤ 2 ^ 64 - 1
    → All (Before (at + b.config.cooldown)) nows
    → (all_rejected (answers b nows) ≡ true)
      × ((run b (map begin nows)).state.phase ≡ opened at)
      × ((run b (map begin nows)).rejected_count
          ≡ min (2 ^ 64 - 1) (b.rejected_count + length nows))
unfolding Blocked
open_rejects b at nows e z bound before =
    let (rejected, count, phase, _) =
      begins-Blocked b (at + b.config.cooldown) nows (inl (at, e, z, refl)) bound before in
    (rejected, phase ∙ e, count)
