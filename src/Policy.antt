-- ===== src/Policy.antt =====
-- core/policy.rs: the workspace's deny rules.
pub mod Paths
pub mod Matching
pub mod Rules
mod Tests
use agent_workspace_hub.Prelude.{
  Bool, true, false, not, ◌&&◌, ◌||◌, Option, none, some, List, [], ◌∷◌, ◌++◌, Text, ℕ, codes,
  text_eq, is_empty, has_char, starts_with, split, option_text_eq, ◌==◌, if◌then◌else◌, any, find,
  retain, length, Result, ok, err, ◌>>=◌, ◌>>◌, guard,
}
use agent_workspace_hub.Host.{
  Disk, missing, unreadable, corrupt, stored, Host, HostFault, dir_failed, lock_failed, read_failed,
  corrupt_file, write_failed,
}

abbrev pub supported_policy_tools : List Text
supported_policy_tools =
    codes "workspace.write_file"
    ∷ codes "workspace.delete_file"
    ∷ codes "terminal.run"
    ∷ codes "filesystem.replace"
    ∷ codes "filesystem.insert"
    ∷ codes "filesystem.delete_range"
    ∷ codes "filesystem.patch"
    ∷ codes "filesystem.apply_diff"
    ∷ codes "filesystem.rollback"
    ∷ []

pub record PolicyRule : Type 0 where
  pub id : Text
  pub tool : Text
  pub pattern_text : Text
  pub reason : Option Text
  pub created_at : Text

pub data PolicyFault : Type 0 where
  host : HostFault → PolicyFault
  invalid_rule_id unsupported_tool duplicate_rule_id : PolicyFault

abbrev pub Store : Type 0
Store = Disk (List PolicyRule)

unfoldable pub load : Store → Result PolicyFault (List PolicyRule)
load missing = ok []
load unreadable = err (host read_failed)
load corrupt = err (host corrupt_file)
load (stored rules) = ok rules

-- `PolicyStore::list`.
abbrev pub list : Store → Result PolicyFault (List PolicyRule)
list d = load d

-- `Path::file_name` on Unix: the last component that is neither empty nor `.`, unless it is `..`.
last_component : Option Text → List Text → Option Text
last_component found [] = found
last_component found (w ∷ ws) =
    last_component (if is_empty w || text_eq w (codes ".") then found else some w) ws

unfoldable pub file_name : Text → Option Text
unfolding last_component
file_name path = elim (last_component none (split b'/' path)) [
  | none ↦ none
  | some w ↦ if text_eq w (codes "..") then none else some w
]

unfoldable pub is_safe_policy_id : Text → Bool
unfolding file_name
is_safe_policy_id id =
    not (is_empty id)
    && not (text_eq id (codes "."))
    && not (text_eq id (codes ".."))
    && not (has_char b'/' id)
    && not (has_char b'\\' id)
    && option_text_eq (file_name id) (some id)

unfoldable pub validate_rule : PolicyRule → Result PolicyFault (Unit {0})
validate_rule rule = do
  guard (is_safe_policy_id rule.id) invalid_rule_id
  guard (any (λ t. text_eq t rule.tool) supported_policy_tools) unsupported_tool

unfoldable pub open_store : Host → Store → Result PolicyFault (List PolicyRule)
open_store h d = do guard h.dir_ok (host dir_failed); guard h.lock_ok (host lock_failed); load d

unfoldable pub add : Host → PolicyRule → Store → Result PolicyFault Store
add h rule d = do
  validate_rule rule
  rules ← open_store h d
  guard (not (any (λ r. text_eq r.id rule.id) rules)) duplicate_rule_id
  guard h.save_ok (host write_failed)
  ok (stored (rules ++ rule ∷ []))

-- The end of `remove`, with the rules that stay.
unfoldable pub finish_remove :
    Host → Store → List PolicyRule → List PolicyRule → Result PolicyFault (Store × Bool)
finish_remove h d rules kept =
    if length kept == length rules
    then ok (d, false)
    else (guard h.save_ok (host write_failed) >> ok (stored kept, true))

unfoldable pub remove : Host → Text → Store → Result PolicyFault (Store × Bool)
unfolding finish_remove
remove h id d = do
  rules ← open_store h d
  finish_remove h d rules (retain (λ r. not (text_eq r.id id)) rules)

-- The loop of `normalize_forward_slash`: the text built so far, and whether the last character
-- was a slash.
unfoldable pub normalize_from : Text → Bool → Text → Text
normalize_from out slash [] = out
normalize_from out slash (c ∷ cs) =
    normalize_from
      (if c == b'/'
        then out
        else (if slash && not (is_empty out) then out ++ b'/' ∷ [] else out) ++ c ∷ [])
      (c == b'/') cs

unfoldable pub normalize_forward_slash : Text → Text
unfolding normalize_from
normalize_forward_slash path = normalize_from [] false path

unfoldable pub path_prefix_matches : Text → Text → Bool
path_prefix_matches pat resource =
    let p = normalize_forward_slash pat in
    let r = normalize_forward_slash resource in
    if is_empty p then false else (text_eq r p || starts_with r (p ++ b'/' ∷ []))

-- How a rule of a tool compares its pattern with the resource.
abbrev pub path_tools : List Text
path_tools =
    codes "workspace.write_file"
    ∷ codes "workspace.delete_file"
    ∷ codes "filesystem.replace"
    ∷ codes "filesystem.insert"
    ∷ codes "filesystem.delete_range"
    ∷ codes "filesystem.patch"
    ∷ codes "filesystem.apply_diff"
    ∷ codes "filesystem.rollback"
    ∷ []

unfoldable pub matches : Text → Text → Text → Bool
matches tool pat resource =
    if any (λ t. text_eq t tool) path_tools
    then path_prefix_matches pat resource
    else (if text_eq tool (codes "terminal.run") then text_eq pat resource else false)

unfoldable pub matching_in : Text → Text → List PolicyRule → Option PolicyRule
matching_in tool resource [] = none
matching_in tool resource (rule ∷ rules) =
    let rest = matching_in tool resource rules in
    if text_eq rule.tool tool && matches tool rule.pattern_text resource then some rule else rest

unfoldable pub matching : Text → Text → Store → Result PolicyFault (Option PolicyRule)
unfolding matching_in
matching tool resource d = do rules ← load d; ok (matching_in tool resource rules)
