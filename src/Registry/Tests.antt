-- ===== src/Registry/Tests.antt =====
-- The lookup of one tool, and its theorem there.
use agent_workspace_hub.Prelude.{◌≡◌, codes, text_eq, find}
use agent_workspace_hub.Registry.Table.{registry}
use agent_workspace_hub.Registry.Lookup.{registry_lookup}
use agent_workspace_hub.Registry.Search.{registry_lookup-find}

registry_lookup-find_example :
    registry_lookup (codes "git.status") ≡ find (λ t. text_eq t.name (codes "git.status")) registry
registry_lookup-find_example = registry_lookup-find (codes "git.status")
