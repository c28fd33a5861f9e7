-- ===== src/Trust.antt =====
-- mcp/permissions.rs and mcp/trust.rs: what an MCP server may request, and the approvals that
-- are kept of servers.
pub mod Grants
pub mod Store
mod Tests
use agent_workspace_hub.Prelude.{
  Bool, true, false, not, ◌&&◌, ◌||◌, Option, none, some, List, [], ◌∷◌, ◌++◌, Text, ℕ, ◌+◌, codes,
  text_eq, is_empty, is_blank, is_ascii_alphabetic, is_ascii_alphanumeric, leb, ◌==◌, if◌then◌else◌,
  any, all, find, retain, map, length, Result, ok, err, ◌>>=◌, ◌>>◌, guard,
}

pub record McpPermissions : Type 0 where
  pub network : Bool
  pub filesystem : List Text
  pub environment : List Text
  pub process : Bool
  pub secrets : List Text

pub data Permission : Type 0 where
  network filesystem environment process secrets : Permission

-- `Vec::contains`.
unfoldable pub includes : List Text → Text → Bool
includes xs x = any (λ y. text_eq y x) xs

abbrev pub blocked_environment : List Text
blocked_environment =
    codes "PATH"
    ∷ codes "LD_PRELOAD"
    ∷ codes "LD_LIBRARY_PATH"
    ∷ codes "DYLD_INSERT_LIBRARIES"
    ∷ codes "DYLD_LIBRARY_PATH"
    ∷ codes "DYLD_FRAMEWORK_PATH"
    ∷ codes "DYLD_FALLBACK_LIBRARY_PATH"
    ∷ codes "PYTHONPATH"
    ∷ codes "PYTHONHOME"
    ∷ codes "RUBYLIB"
    ∷ codes "PERL5LIB"
    ∷ []

env_start : ℕ → Bool
env_start c = c == b'_' || is_ascii_alphabetic c

env_rest : ℕ → Bool
env_rest c = c == b'_' || is_ascii_alphanumeric c

unfoldable pub is_valid_env_name : Text → Bool
unfolding env_start env_rest
is_valid_env_name [] = false
is_valid_env_name (c ∷ cs) = env_start c && all env_rest cs

-- `eq_ignore_ascii_case` folds the ASCII capitals of both sides.
unfoldable pub to_ascii_lowercase : ℕ → ℕ
to_ascii_lowercase c = if leb b'A' c && leb c b'Z' then c + 32 else c

unfoldable pub eq_ignore_ascii_case : Text → Text → Bool
unfolding to_ascii_lowercase
eq_ignore_ascii_case a b = text_eq (map to_ascii_lowercase a) (map to_ascii_lowercase b)

unfoldable pub is_blocked_environment : Text → Bool
unfolding eq_ignore_ascii_case
is_blocked_environment name = any (λ blocked. eq_ignore_ascii_case blocked name) blocked_environment

pub data PermissionError : Type 0 where
  empty_path invalid_env_name blocked_env invalid_secret_name blocked_secret : PermissionError
  secret_without_environment denied : PermissionError

-- One round of the two loops over names.
validate_names : PermissionError → PermissionError → List Text → Result PermissionError (Unit {0})
validate_names bad blocked [] = ok tt
validate_names bad blocked (name ∷ names) =
    guard (is_valid_env_name name) bad
    >> (guard (not (is_blocked_environment name)) blocked >> validate_names bad blocked names)

unfoldable pub validate : McpPermissions → Result PermissionError (Unit {0})
unfolding validate_names
validate p = do
  guard (not (any is_blank p.filesystem)) empty_path
  validate_names invalid_env_name blocked_env p.environment
  validate_names invalid_secret_name blocked_secret p.secrets
  guard (not (any (λ name. not (includes p.environment name)) p.secrets)) secret_without_environment

abbrev is_nil {ℓ} : {A : Type ℓ} → List A → Bool
is_nil [] = true
is_nil (x ∷ xs) = false

unfoldable pub allows : McpPermissions → Permission → Bool
allows p network = p.network
allows p filesystem = not (is_nil p.filesystem)
allows p environment = not (is_nil p.environment)
allows p process = p.process
allows p secrets = not (is_nil p.secrets)

unfoldable pub allowed_environment : McpPermissions → List Text → List Text
allowed_environment p requested = retain (includes p.environment) requested

unfoldable pub allows_secret : McpPermissions → Text → Bool
allows_secret p name = includes p.secrets name

unfoldable pub require : McpPermissions → Permission → Result PermissionError (Unit {0})
unfolding allows
require p permission = guard (allows p permission) denied

pub data TrustLevel : Type 0 where
  trusted reviewed unknown blocked : TrustLevel

pub record McpApproval : Type 0 where
  pub id : Text
  pub level : TrustLevel
  pub approved_permissions : McpPermissions
  pub approved_version : Text

abbrev pub TrustStore : Type 0
TrustStore = List McpApproval

unfoldable pub get : TrustStore → Text → Option McpApproval
get store id = find (λ x. text_eq x.id id) store

pub data TrustError : Type 0 where
  id_required : TrustError
  permissions : PermissionError → TrustError

abbrev from_permission_error : Result PermissionError (Unit {0}) → Result TrustError (Unit {0})
from_permission_error (ok u) = ok u
from_permission_error (err e) = err (permissions e)

unfoldable pub approve :
    TrustStore → Text → TrustLevel → McpPermissions → Text → Result TrustError TrustStore
approve store id level p version = do
  guard (not (is_blank id)) id_required
  from_permission_error (validate p)
  ok (
      retain (λ x. not (text_eq x.id id)) store
      ++ record { id = id; level = level; approved_permissions = p; approved_version = version }
        ∷ [])

-- Returns the store, and whether it had an approval for `id`.
unfoldable pub revoke : TrustStore → Text → TrustStore × Bool
revoke store id =
    let kept = retain (λ x. not (text_eq x.id id)) store in
    (kept, not (length store == length kept))

abbrev pub grants_level : TrustLevel → Bool
grants_level trusted = true
grants_level reviewed = true
grants_level unknown = false
grants_level blocked = false

-- `a <= b` on Booleans.
abbrev pub implies : Bool → Bool → Bool
implies true b = b
implies false b = true

unfoldable pub version_matches : McpApproval → Text → Bool
version_matches a version = is_empty a.approved_version || text_eq a.approved_version version

unfoldable pub can_enable : Option McpApproval → McpPermissions → Text → Bool
can_enable none requested version = false
can_enable (some a) requested version =
    grants_level a.level
    && version_matches a version
    && implies requested.network a.approved_permissions.network
    && implies requested.process a.approved_permissions.process
    && all (includes a.approved_permissions.filesystem) requested.filesystem
    && all (includes a.approved_permissions.environment) requested.environment
    && all (includes a.approved_permissions.secrets) requested.secrets
