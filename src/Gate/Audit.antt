-- ===== src/Gate/Audit.antt =====
-- mcp/execution_gate.rs: what the audit and the caller are told of a refusal.
use mathlib.Core.Path.{subst}
use agent_workspace_hub.Prelude.{
  ◌≡◌, ◌⊎◌, inl, inr, refl, false, not, Option, none, some, List, [], ◌∷◌, ◌++◌, Text, arith, all,
  find, sym, Result, ok, err, Bool-cases, Option-cases,
}
use agent_workspace_hub.Trust.{McpApproval, TrustStore, Permission, get, can_enable, allows}
use agent_workspace_hub.Registry.{ToolDefinition, is_low, is_high, registry_lookup}
use agent_workspace_hub.Gate.{
  McpExecutionRequest, McpAuthorizationError, BuiltinError, trust_level_denied, Reason, Denial,
  Audited, builtin_tool_trust_id, builtin_tool_trust_version, builtin_request, mismatch_error,
  authorize, translate, with_store, authorize_builtin_tool,
}
use agent_workspace_hub.Gate.Requests.{grants_builtin, can_enable-requested}
use agent_workspace_hub.Gate.Decision.{
  at_unregistered, at_low, at_no_store, at_store, with_store-some, reserved_id_named,
}

-- What the audit is told of a decision on a built-in tool: nothing of one that allows it, and of
-- a refusal a last entry that names the tool.
abbrev pub Recorded : Text → Audited (Result BuiltinError (Unit {0})) → Type 0
Recorded tool (ok u, log) = log ≡ []
Recorded tool (err e, log) =
    (before : List Denial) × (last : Denial) × (log ≡ before ++ last ∷ []) × (last.subject ≡ tool)

authorize-log :
    (r : McpExecutionRequest) (store : TrustStore)
    → (authorize r store).0 ≡ ok tt
    → (authorize r store).1 ≡ []
unfolding authorize
authorize-log r store h = ground arith

translate-Recorded :
    (tool : Text) (a : McpApproval) (required : List Permission)
    (r : Audited (Result McpAuthorizationError (Unit {0})))
    → (r.0 ≡ ok tt → r.1 ≡ [])
    → Recorded tool (translate tool a required r)
unfolding translate
translate-Recorded tool a required (ok u, log) h = h refl
translate-Recorded tool a required (err McpAuthorizationError.missing_id, log) h =
    (log, _, refl, refl)
translate-Recorded tool a required (err (McpAuthorizationError.no_approval i), log) h =
    (log, _, refl, refl)
translate-Recorded tool a required (err (McpAuthorizationError.mismatch i), log) h =
    (log, record { reason = (mismatch_error tool a required).1; subject = tool }, refl, refl)

with_store-none :
    (tool : Text) (t : ToolDefinition) (store : TrustStore)
    → get store builtin_tool_trust_id ≡ none
    → (with_store tool t store ≡ (ok tt, []))
      ⊎ ((e : BuiltinError) × (last : Denial) × (with_store tool t store ≡ (err e, last ∷ []))
          × (last.subject ≡ tool))
unfolding with_store
with_store-none tool t store g = elim (Bool-cases (is_high t.risk)) [
  | inl high ↦ inr (
    BuiltinError.authorization_required tool,
    record { reason = Reason.authorization_required; subject = tool },
    ground arith,
    refl,
  )
  | inr below ↦ inl (ground arith)
]

with_store-Recorded :
    (tool : Text) (t : ToolDefinition) (store : TrustStore)
    → Recorded tool (with_store tool t store)
with_store-Recorded tool t store = elim (Option-cases (get store builtin_tool_trust_id)) [
  | inl g ↦ elim (with_store-none tool t store g) [
    | inl allowed ↦ subst (Recorded tool) (sym allowed) refl
    | inr (e, last, q, s) ↦ subst (Recorded tool) (sym q) ([], last, refl, s)
  ]
  | inr (a, g) ↦ subst (Recorded tool) (sym (with_store-some tool t store a g)) (
      translate-Recorded tool a t.required_permissions
        (authorize (builtin_request t.required_permissions) store)
        (authorize-log (builtin_request t.required_permissions) store))
]

-- Every decision of the gate on a built-in tool is audited: an allowed call records no denial,
-- and a refused one records a denial of the tool by name, last.
pub authorize_builtin_tool-Recorded :
    (tool : Text) (trust : Option TrustStore) → Recorded tool (authorize_builtin_tool tool trust)
authorize_builtin_tool-Recorded tool trust = elim (Option-cases (registry_lookup tool)) [
  | inl e ↦ subst (Recorded tool) (sym (at_unregistered tool trust e)) ([], _, refl, refl)
  | inr (t, e) ↦ elim (Bool-cases (is_low t.risk)) [
    | inl low ↦ subst (Recorded tool) (sym (at_low tool t trust e low)) refl
    | inr above ↦ elim (Option-cases trust) [
      | inl n ↦ subst (Recorded tool) (sym (at_no_store tool t trust e above n)) ([], _, refl, refl)
      | inr (store, s) ↦
          subst (Recorded tool) (sym (at_store tool t trust store e above s))
            (with_store-Recorded tool t store)
    ]
  ]
]

translate-mismatch :
    (tool : Text) (store : TrustStore) (a : McpApproval) (required : List Permission)
    → get store builtin_tool_trust_id ≡ some a
    → find (λ p. not (allows a.approved_permissions p)) required ≡ none
    → can_enable (some a) (builtin_request required).permissions builtin_tool_trust_version ≡ false
    → (translate tool a required (authorize (builtin_request required) store)).0
      ≡ err (trust_level_denied tool)
unfolding translate authorize mismatch_error
translate-mismatch tool store a required g each no_way = ground (arith, reserved_id_named)

-- A refusal that is not for the level or the version may be reported as if it were: when every
-- category that a tool of more than low risk requires has some grant, but one of them names
-- other paths or names than the reserved one, the error is `trust_level_denied`, whatever the
-- level and the version of the approval.
pub mismatch_misreported :
    (tool : Text) (t : ToolDefinition) (store : TrustStore) (a : McpApproval)
    → registry_lookup tool ≡ some t
    → is_low t.risk ≡ false
    → get store builtin_tool_trust_id ≡ some a
    → find (λ p. not (allows a.approved_permissions p)) t.required_permissions ≡ none
    → all (grants_builtin a.approved_permissions) t.required_permissions ≡ false
    → (authorize_builtin_tool tool (some store)).0 ≡ err (trust_level_denied tool)
mismatch_misreported tool t store a e above g each one =
    rw (at_store tool t (some store) store e above refl, with_store-some tool t store a g)
      (translate-mismatch tool store a t.required_permissions g each
        (ground (arith, can_enable-requested a t.required_permissions builtin_tool_trust_version)))
