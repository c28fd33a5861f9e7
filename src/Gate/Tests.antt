-- ===== src/Gate/Tests.antt =====
-- A reviewed server, an approval of the reserved identity, and the theorems of this part there.
use agent_workspace_hub.Prelude.{
  ◌≡◌, ◌↔◌, refl, true, false, not, none, some, [], ◌∷◌, Text, codes, text_eq, any, all, find, ok,
  err,
}
use agent_workspace_hub.Trust.{
  McpPermissions, filesystem, McpApproval, reviewed, get, includes, allows,
}
use agent_workspace_hub.Trust.Store.{approval}
use agent_workspace_hub.Registry.{ToolDefinition, medium, text_cmp, binary_search, registry_lookup}
use agent_workspace_hub.Gate.{
  McpExecutionRequest, authorize_builtin_tool, trust_level_denied, builtin_tool_trust_id,
}
use agent_workspace_hub.Gate.Requests.{grants_builtin}
use agent_workspace_hub.Gate.Decision.{Allowed, authorize_builtin_tool_iff}
use agent_workspace_hub.Gate.Audit.{Recorded, authorize_builtin_tool-Recorded, mismatch_misreported}

abbrev reader : McpPermissions
reader = record {
  network = false;
  filesystem = codes "docs" ∷ [];
  environment = [];
  process = false;
  secrets = [];
}

abbrev entry : McpApproval
entry = approval (codes "srv") reviewed reader (codes "1")

abbrev request : McpExecutionRequest
request = record { id = codes "srv"; version = codes "1"; permissions = reader }

abbrev builtin : McpApproval
builtin = approval builtin_tool_trust_id reviewed reader []

abbrev tool : Text
tool = codes "workspace.write_file"

abbrev definition : ToolDefinition
definition = record {
  name = tool;
  description = codes "Write a workspace file";
  category = codes "workspace";
  tool_version = codes "1.0.0";
  schema_version = 1;
  provider = codes "awh";
  risk = medium;
  required_permissions = filesystem ∷ [];
  enabled = true;
}

tool_registered : registry_lookup tool ≡ some definition
unfolding registry_lookup binary_search text_cmp
tool_registered = refl

builtin_found : get (builtin ∷ []) builtin_tool_trust_id ≡ some builtin
unfolding get find text_eq
builtin_found = refl

each_granted : find (λ p. not (allows reader p)) (filesystem ∷ []) ≡ none
unfolding find allows
each_granted = refl

none_covered : all (grants_builtin reader) (filesystem ∷ []) ≡ false
unfolding all grants_builtin includes any text_eq
none_covered = refl

authorize_builtin_tool_iff_example :
    ((authorize_builtin_tool tool (some (builtin ∷ []))).0 ≡ ok tt)
    ↔ Allowed tool (some (builtin ∷ []))
authorize_builtin_tool_iff_example = authorize_builtin_tool_iff tool (some (builtin ∷ []))

authorize_builtin_tool-Recorded_example :
    Recorded tool (authorize_builtin_tool tool (some (builtin ∷ [])))
authorize_builtin_tool-Recorded_example = authorize_builtin_tool-Recorded tool (some (builtin ∷ []))

mismatch_misreported_example :
    (authorize_builtin_tool tool (some (builtin ∷ []))).0 ≡ err (trust_level_denied tool)
mismatch_misreported_example =
    mismatch_misreported tool definition (builtin ∷ []) builtin tool_registered refl builtin_found
      each_granted none_covered
