-- ===== src/Gate/Requests.antt =====
-- mcp/execution_gate.rs: the permissions that a built-in tool asks for, and which approvals
-- cover them.
use agent_workspace_hub.Prelude.{
  ◌≡◌, ◌⊎◌, inl, inr, refl, Bool, true, ◌&&◌, some, List, [], ◌∷◌, Text, arith, all, ◌∙◌, ap,
}
use agent_workspace_hub.Trust.{
  McpPermissions, Permission, network, filesystem, environment, process, secrets, McpApproval,
  includes, grants_level, version_matches, can_enable, implies,
}
use agent_workspace_hub.Gate.{
  builtin_tool_trust_id, no_permissions, add_permission, add_permissions, requested_permissions,
}

-- An approval of the reserved identity grants a category to the built-in tools: network and
-- process by their flags, the others by the reserved name in their list.
unfoldable pub grants_builtin : McpPermissions → Permission → Bool
grants_builtin p network = p.network
grants_builtin p filesystem = includes p.filesystem builtin_tool_trust_id
grants_builtin p environment = includes p.environment builtin_tool_trust_id
grants_builtin p process = p.process
grants_builtin p secrets = includes p.secrets builtin_tool_trust_id

-- The comparison of the five categories in `can_enable`.
fits : McpPermissions → McpPermissions → Bool
fits requested approved =
    implies requested.network approved.network
    && implies requested.process approved.process
    && all (includes approved.filesystem) requested.filesystem
    && all (includes approved.environment) requested.environment
    && all (includes approved.secrets) requested.secrets

abbrev Sentinel : List Text → Type 0
Sentinel xs = (xs ≡ []) ⊎ (xs ≡ builtin_tool_trust_id ∷ [])

-- The loop puts nothing but the reserved name into a list.
record Sentinels (p : McpPermissions) : Type 0 where
  filesystem : Sentinel p.filesystem
  environment : Sentinel p.environment
  secrets : Sentinel p.secrets

all-single : (q : Text → Bool) (x : Text) → all q (x ∷ []) ≡ q x
unfolding all
all-single q x = ground arith

all-nil : (q : Text → Bool) → all q [] ≡ true
unfolding all
all-nil q = refl

all-Sentinel :
    (q : Text → Bool) (xs : List Text)
    → Sentinel xs
    → (all q xs ≡ true) ⊎ (all q xs ≡ q builtin_tool_trust_id)
all-Sentinel q xs h = elim h [
  | inl e ↦ inl (rw e (all-nil q))
  | inr e ↦ inr (rw e (all-single q builtin_tool_trust_id))
]

fits-add :
    (p a : McpPermissions) (x : Permission)
    → Sentinels p
    → fits (add_permission p x) a ≡ (fits p a && grants_builtin a x)
unfolding fits grants_builtin
fits-add p a network s = ground arith
fits-add p a process s = ground arith
fits-add p a filesystem s = ground (
  arith,
  all-Sentinel (includes a.filesystem) p.filesystem s.filesystem,
  all-single (includes a.filesystem) builtin_tool_trust_id,
)
fits-add p a environment s = ground (
  arith,
  all-Sentinel (includes a.environment) p.environment s.environment,
  all-single (includes a.environment) builtin_tool_trust_id,
)
fits-add p a secrets s = ground (
  arith,
  all-Sentinel (includes a.secrets) p.secrets s.secrets,
  all-single (includes a.secrets) builtin_tool_trust_id,
)

add-Sentinels : (p : McpPermissions) (x : Permission) → Sentinels p → Sentinels (add_permission p x)
add-Sentinels p network s = record {
  filesystem = s.filesystem;
  environment = s.environment;
  secrets = s.secrets;
}
add-Sentinels p process s = record {
  filesystem = s.filesystem;
  environment = s.environment;
  secrets = s.secrets;
}
add-Sentinels p filesystem s = record {
  filesystem = inr refl;
  environment = s.environment;
  secrets = s.secrets;
}
add-Sentinels p environment s = record {
  filesystem = s.filesystem;
  environment = inr refl;
  secrets = s.secrets;
}
add-Sentinels p secrets s = record {
  filesystem = s.filesystem;
  environment = s.environment;
  secrets = inr refl;
}

fits-add_permissions :
    (p a : McpPermissions) (required : List Permission)
    → Sentinels p
    → fits (add_permissions p required) a ≡ (fits p a && all (grants_builtin a) required)
unfolding add_permissions all
fits-add_permissions p a [] s = ground arith
fits-add_permissions p a (x ∷ xs) s =
    fits-add_permissions (add_permission p x) a xs (add-Sentinels p x s)
    ∙ ap (λ b. b && all (grants_builtin a) xs) (fits-add p a x s)
    ∙ and_assoc (fits p a) (grants_builtin a x) (all (grants_builtin a) xs)
  where
    and_assoc : (b c d : Bool) → ((b && c) && d) ≡ (b && (c && d))
    and_assoc b c d = ground arith

fits-requested :
    (a : McpPermissions) (required : List Permission)
    → fits (requested_permissions required) a ≡ all (grants_builtin a) required
unfolding requested_permissions fits all
fits-requested a required =
    fits-add_permissions no_permissions a required
      (record { filesystem = inl refl; environment = inl refl; secrets = inl refl })

-- An approval enables the request of a built-in tool exactly when its level and version do, and
-- each permission that the tool requires is granted to the built-in tools.
pub can_enable-requested :
    (a : McpApproval) (required : List Permission) (version : Text)
    → can_enable (some a) (requested_permissions required) version ≡ (
        grants_level a.level
        && version_matches a version
        && all (grants_builtin a.approved_permissions) required)
unfolding can_enable
can_enable-requested a required version =
    unfold fits in ground (arith, fits-requested a.approved_permissions required)
