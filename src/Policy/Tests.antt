-- ===== src/Policy/Tests.antt =====
-- A rule that denies writing below `secret`, and the theorems of this part at it.
use agent_workspace_hub.Prelude.{
  ◌≡◌, refl, true, false, not, ◌&&◌, none, some, [], ◌∷◌, ◌++◌, Text, codes, text_eq, has_char,
  split, retain, any, ok, if◌then◌else◌, arith,
}
use agent_workspace_hub.Host.{missing, stored, Host}
use agent_workspace_hub.Policy.{
  PolicyRule, Store, load, open_store, validate_rule, is_safe_policy_id, file_name, add, remove,
  finish_remove, matching, matching_in, path_prefix_matches,
}
use agent_workspace_hub.Policy.Paths.{components}
use agent_workspace_hub.Policy.Matching.{
  is_none, is_prefix, path_prefix_matches-components, path_prefix_matches-dot,
}
use agent_workspace_hub.Policy.Rules.{applies, or_else, matching-add}

abbrev good : Host
good = record { dir_ok = true; lock_ok = true; save_ok = true; now = codes "now" }

abbrev rule : PolicyRule
rule = record {
  id = codes "r1";
  tool = codes "workspace.write_file";
  pattern_text = codes "secret";
  reason = none;
  created_at = codes "then";
}

abbrev rules : Store
rules = stored (rule ∷ [])

abbrev write : Text
write = codes "workspace.write_file"

abbrev path : Text
path = codes "/secret//key"

rule_added : add good rule missing ≡ ok rules
unfolding add validate_rule is_safe_policy_id file_name open_store load text_eq has_char split any
rule_added = refl

nothing_denied : matching write path missing ≡ ok none
unfolding matching load matching_in
nothing_denied = refl

rule_removed : remove good (codes "r1") rules ≡ ok (stored [], true)
unfolding remove open_store load finish_remove retain text_eq
rule_removed = refl

secret_components : components (codes "secret") ≡ codes "secret" ∷ []
unfolding components split retain
secret_components = refl

path_prefix_matches-components_example : path_prefix_matches (codes "secret") path ≡ (
    not (is_none (components (codes "secret")))
    && is_prefix (components (codes "secret")) (components path))
path_prefix_matches-components_example = path_prefix_matches-components (codes "secret") path

path_prefix_matches-dot_example :
    path_prefix_matches (codes "secret") (codes "./" ++ codes "secret/key") ≡ false
path_prefix_matches-dot_example =
    path_prefix_matches-dot (codes "secret") (codes "secret/key") (codes "secret") []
      secret_components (λ e. ground arith)

matching-add_example :
    matching write path rules
    ≡ ok (or_else none (if applies write path rule then some rule else none))
matching-add_example = matching-add good rule missing rules write path rule_added nothing_denied
