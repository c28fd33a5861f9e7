-- ===== src/Gate.antt =====
-- mcp/execution_gate.rs: whether an MCP server or a built-in tool may run. The calls of
-- `audit_deny` are returned as the list of denials that they record, in order.
pub mod Requests
pub mod Decision
pub mod Audit
mod Tests
use agent_workspace_hub.Prelude.{
  Bool, true, false, not, Option, none, some, List, [], ◌∷◌, ◌++◌, Text, codes, is_blank, find,
  Result, ok, err, if◌then◌else◌,
}
use agent_workspace_hub.Trust.{
  McpPermissions, Permission, network, filesystem, environment, process, secrets, McpApproval,
  TrustStore, get, can_enable, allows,
}
use agent_workspace_hub.Registry.{
  ToolDefinition, ToolRisk, low, medium, high, is_low, is_high, registry_lookup,
}

pub record McpExecutionRequest : Type 0 where
  pub id : Text
  pub version : Text
  pub permissions : McpPermissions

pub data McpAuthorizationError : Type 0 where
  missing_id : McpAuthorizationError
  no_approval : Text → McpAuthorizationError
  mismatch : Text → McpAuthorizationError

-- The reasons that the gate passes to `audit_deny`.
pub data Reason : Type 0 where
  no_approval_reason trust_mismatch unregistered_tool trust_store_unavailable : Reason
  authorization_required permission_not_granted trust_level_or_version : Reason

pub record Denial : Type 0 where
  pub reason : Reason
  pub subject : Text

abbrev pub Audited : Type 0 → Type 0
Audited A = A × List Denial

unfoldable pub authorize :
    McpExecutionRequest → TrustStore → Audited (Result McpAuthorizationError (Unit {0}))
authorize request trust =
    if is_blank request.id then (err missing_id, []) else elim (get trust request.id) [
      | none ↦ (
        err (no_approval request.id),
        record { reason = no_approval_reason; subject = request.id } ∷ [],
      )
      | some a ↦ if can_enable (some a) request.permissions request.version then (ok tt, []) else (
        err (mismatch request.id),
        record { reason = trust_mismatch; subject = request.id } ∷ [],
      )
    ]

abbrev pub builtin_tool_trust_id : Text
builtin_tool_trust_id = codes "awh.builtin"

abbrev pub builtin_tool_trust_version : Text
builtin_tool_trust_version = codes "local"

pub data BuiltinError : Type 0 where
  unregistered store_unavailable authorization_required trust_level_denied : Text → BuiltinError
  permission_denied : Text → Permission → BuiltinError

abbrev pub no_permissions : McpPermissions
no_permissions = record {
  network = false;
  filesystem = [];
  environment = [];
  process = false;
  secrets = [];
}

-- One round of the loop of `requested_permissions`.
abbrev pub add_permission : McpPermissions → Permission → McpPermissions
add_permission p network = record p { network = true }
add_permission p process = record p { process = true }
add_permission p filesystem = record p { filesystem = builtin_tool_trust_id ∷ [] }
add_permission p environment = record p { environment = builtin_tool_trust_id ∷ [] }
add_permission p secrets = record p { secrets = builtin_tool_trust_id ∷ [] }

unfoldable pub add_permissions : McpPermissions → List Permission → McpPermissions
add_permissions p [] = p
add_permissions p (x ∷ xs) = add_permissions (add_permission p x) xs

unfoldable pub requested_permissions : List Permission → McpPermissions
unfolding add_permissions
requested_permissions required = add_permissions no_permissions required

abbrev pub builtin_request : List Permission → McpExecutionRequest
builtin_request required = record {
  id = builtin_tool_trust_id;
  version = builtin_tool_trust_version;
  permissions = requested_permissions required;
}

-- How a mismatch is reported: by the first permission that is not granted at all, if any.
unfoldable pub mismatch_error : Text → McpApproval → List Permission → BuiltinError × Reason
mismatch_error tool approval required =
    elim (find (λ p. not (allows approval.approved_permissions p)) required) [
      | some p ↦ (permission_denied tool p, permission_not_granted)
      | none ↦ (trust_level_denied tool, trust_level_or_version)
    ]

-- The `match` on the result of `authorize`.
unfoldable pub translate :
    Text
    → McpApproval
    → List Permission
    → Audited (Result McpAuthorizationError (Unit {0}))
    → Audited (Result BuiltinError (Unit {0}))
unfolding mismatch_error
translate tool approval required (ok u, log) = (ok tt, log)
translate tool approval required (err missing_id, log) = (
  err (trust_level_denied tool),
  log ++ record { reason = no_approval_reason; subject = tool } ∷ [],
)
translate tool approval required (err (no_approval i), log) = (
  err (trust_level_denied tool),
  log ++ record { reason = no_approval_reason; subject = tool } ∷ [],
)
translate tool approval required (err (mismatch i), log) =
    let (e, reason) = mismatch_error tool approval required in
    (err e, log ++ record { reason = reason; subject = tool } ∷ [])

-- The part of `authorize_builtin_tool` that the trust store decides.
unfoldable pub with_store :
    Text → ToolDefinition → TrustStore → Audited (Result BuiltinError (Unit {0}))
unfolding translate authorize
with_store tool definition store = elim (get store builtin_tool_trust_id) [
  | none ↦
      if is_high definition.risk
      then (
        err (authorization_required tool),
        record { reason = authorization_required; subject = tool } ∷ [],
      )
      else (ok tt, [])
  | some approval ↦
      translate tool approval definition.required_permissions
        (authorize (builtin_request definition.required_permissions) store)
]

unfoldable pub authorize_builtin_tool :
    Text → Option TrustStore → Audited (Result BuiltinError (Unit {0}))
unfolding with_store
authorize_builtin_tool tool trust = elim (registry_lookup tool) [
  | none ↦ (err (unregistered tool), record { reason = unregistered_tool; subject = tool } ∷ [])
  | some definition ↦ if is_low definition.risk then (ok tt, []) else elim trust [
    | none ↦ (
      err (store_unavailable tool),
      record { reason = trust_store_unavailable; subject = tool } ∷ [],
    )
    | some store ↦ with_store tool definition store
  ]
]
