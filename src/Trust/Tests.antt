-- ===== src/Trust/Tests.antt =====
-- A server that asks for one path, and the theorems of this part at it.
use agent_workspace_hub.Prelude.{
  ◌≡◌, refl, true, false, some, [], ◌∷◌, Text, codes, text_eq, is_blank, is_ascii_alphabetic,
  is_ascii_alphanumeric, any, all, find, retain, ok,
}
use agent_workspace_hub.Trust.{
  McpPermissions, McpApproval, reviewed, validate, is_valid_env_name, is_blocked_environment, get,
  approve, can_enable, includes, version_matches,
}
use agent_workspace_hub.Trust.Grants.{Enabled, can_enable_iff}
use agent_workspace_hub.Trust.Store.{Safe, approval, empty, approved, Built-Safe}

abbrev reader : McpPermissions
reader = record {
  network = false;
  filesystem = codes "docs" ∷ [];
  environment = codes "HOME" ∷ [];
  process = false;
  secrets = [];
}

abbrev server : Text
server = codes "srv"

abbrev entry : McpApproval
entry = approval server reviewed reader (codes "1")

reader_valid : validate reader ≡ ok tt
unfolding validate is_blank any is_valid_env_name is_ascii_alphabetic all is_ascii_alphanumeric
    is_blocked_environment text_eq
reader_valid = refl

server_approved : approve [] server reviewed reader (codes "1") ≡ ok (entry ∷ [])
unfolding approve retain validate is_blank any is_valid_env_name is_ascii_alphabetic all
    is_ascii_alphanumeric is_blocked_environment text_eq
server_approved = refl

server_found : get (entry ∷ []) server ≡ some entry
unfolding get find text_eq
server_found = refl

server_enabled : can_enable (some entry) reader (codes "1") ≡ true
unfolding can_enable includes version_matches all any text_eq
server_enabled = refl

can_enable_iff_example :
    (can_enable (some entry) reader (codes "1") ≡ true → Enabled entry reader (codes "1"))
    × (Enabled entry reader (codes "1") → can_enable (some entry) reader (codes "1") ≡ true)
can_enable_iff_example = can_enable_iff entry reader (codes "1")

Built-Safe_example : Safe entry.approved_permissions
Built-Safe_example =
    Built-Safe server entry (approved server reviewed reader (codes "1") empty server_approved)
      server_found
