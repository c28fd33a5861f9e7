-- ===== src/Registry/Table.antt =====
-- mcp/tool_registry.rs: the table of the built-in tools, in the source's order, by category.
-- `awh_tool` is the macro that builds an entry.
use agent_workspace_hub.Prelude.{ℕ, Bool, true, List, [], ◌∷◌, ◌++◌, Text, codes}
use agent_workspace_hub.Trust.{Permission, network, filesystem, process}

pub data ToolRisk : Type 0 where
  low medium high : ToolRisk

pub record ToolDefinition : Type 0 where
  pub name : Text
  pub description : Text
  pub category : Text
  pub tool_version : Text
  pub schema_version : ℕ
  pub provider : Text
  pub risk : ToolRisk
  pub required_permissions : List Permission
  pub enabled : Bool

abbrev awh_tool : Text → Text → Text → ToolRisk → List Permission → ToolDefinition
awh_tool name description category risk required = record {
  name = name;
  description = description;
  category = category;
  tool_version = codes "1.0.0";
  schema_version = 1;
  provider = codes "awh";
  risk = risk;
  required_permissions = required;
  enabled = true;
}

abbrev connector_tools : List ToolDefinition
connector_tools =
    awh_tool (codes "connector.composio_accounts") (codes "List connected Composio accounts")
      (codes "connector") low (network ∷ [])
    ∷ awh_tool (codes "connector.composio_link") (codes "Create a Composio OAuth link")
        (codes "connector") medium (network ∷ [])
    ∷ awh_tool (codes "connector.composio_register") (codes "Register a Composio API key")
        (codes "connector") medium (network ∷ [])
    ∷ awh_tool (codes "connector.composio_remove") (codes "Remove the registered Composio provider")
        (codes "connector") medium ([])
    ∷ awh_tool (codes "connector.invoke") (codes "Invoke a tool exposed by a provider")
        (codes "connector") high (network ∷ [])
    ∷ awh_tool (codes "connector.providers") (codes "List registered providers") (codes "connector")
        low ([])
    ∷ awh_tool (codes "connector.tools") (codes "List tools exposed by a provider")
        (codes "connector") low ([])
    ∷ awh_tool (codes "connectors.add") (codes "Register connector metadata") (codes "connector")
        medium ([])
    ∷ awh_tool (codes "connectors.disable") (codes "Disable a connector") (codes "connector") medium
        ([])
    ∷ awh_tool (codes "connectors.enable") (codes "Enable a connector") (codes "connector") medium
        ([])
    ∷ awh_tool (codes "connectors.get") (codes "Get connector metadata by id") (codes "connector")
        low ([])
    ∷ awh_tool (codes "connectors.list") (codes "List connector metadata") (codes "connector") low
        ([])
    ∷ awh_tool (codes "connectors.remove") (codes "Remove connector metadata") (codes "connector")
        medium ([])
    ∷ []

abbrev context_tools : List ToolDefinition
context_tools =
    awh_tool (codes "context.assemble") (codes "Assemble the context window") (codes "context") low
      ([])
    ∷ awh_tool (codes "context.get") (codes "Get a context item") (codes "context") low ([])
    ∷ awh_tool (codes "context.insert") (codes "Insert a context item") (codes "context") medium
        ([])
    ∷ awh_tool (codes "context.offload") (codes "Offload a context item") (codes "context") medium
        ([])
    ∷ awh_tool (codes "context.optimize") (codes "Optimize the context window") (codes "context")
        medium ([])
    ∷ awh_tool (codes "context.protect") (codes "Protect a context item") (codes "context") medium
        ([])
    ∷ awh_tool (codes "context.remove") (codes "Remove a context item") (codes "context") medium
        ([])
    ∷ awh_tool (codes "context.restore") (codes "Restore an offloaded context item")
        (codes "context") medium ([])
    ∷ awh_tool (codes "context.search") (codes "Search context items") (codes "context") low ([])
    ∷ awh_tool (codes "context.status") (codes "Context engine status") (codes "context") low ([])
    ∷ awh_tool (codes "context.unprotect") (codes "Unprotect a context item") (codes "context")
        medium ([])
    ∷ []

abbrev filesystem_tools : List ToolDefinition
filesystem_tools =
    awh_tool (codes "filesystem.apply_diff") (codes "Apply a unified diff to workspace files")
      (codes "filesystem") medium (filesystem ∷ [])
    ∷ awh_tool (codes "filesystem.delete_range")
        (codes "Delete an inclusive range of lines from a workspace file") (codes "filesystem")
        medium (filesystem ∷ [])
    ∷ awh_tool (codes "filesystem.insert")
        (codes "Insert text at a line boundary in a workspace file") (codes "filesystem") medium
        (filesystem ∷ [])
    ∷ awh_tool (codes "filesystem.patch")
        (codes "Apply a multi-operation patch transaction to workspace files") (codes "filesystem")
        medium (filesystem ∷ [])
    ∷ awh_tool (codes "filesystem.replace")
        (codes "Replace an exact text match in a workspace file") (codes "filesystem") medium
        (filesystem ∷ [])
    ∷ awh_tool (codes "filesystem.rollback")
        (codes "Roll back one completed edit transaction by its exact id") (codes "filesystem")
        medium (filesystem ∷ [])
    ∷ []

abbrev git_tools : List ToolDefinition
git_tools =
    awh_tool (codes "git.branch") (codes "Show the current git branch name") (codes "git") medium
      (filesystem ∷ [])
    ∷ awh_tool (codes "git.commit") (codes "Commit staged changes") (codes "git") medium
        (filesystem ∷ [])
    ∷ awh_tool (codes "git.diff") (codes "Show working-tree or staged changes") (codes "git") low
        (filesystem ∷ [])
    ∷ awh_tool (codes "git.log") (codes "Show commit history") (codes "git") low (filesystem ∷ [])
    ∷ awh_tool (codes "git.stage") (codes "Stage files") (codes "git") medium (filesystem ∷ [])
    ∷ awh_tool (codes "git.status") (codes "Show repository status") (codes "git") low
        (filesystem ∷ [])
    ∷ awh_tool (codes "git.unstage") (codes "Unstage files") (codes "git") medium (filesystem ∷ [])
    ∷ []

abbrev github_tools : List ToolDefinition
github_tools =
    awh_tool (codes "github.checks_status") (codes "CI/check status for a ref") (codes "github") low
      (network ∷ [])
    ∷ awh_tool (codes "github.issue_comment") (codes "Comment on an issue or PR") (codes "github")
        high (network ∷ [])
    ∷ awh_tool (codes "github.issue_create") (codes "Create an issue") (codes "github") high
        (network ∷ [])
    ∷ awh_tool (codes "github.issue_get") (codes "Get an issue or PR") (codes "github") low
        (network ∷ [])
    ∷ awh_tool (codes "github.issue_list") (codes "List issues") (codes "github") low (network ∷ [])
    ∷ awh_tool (codes "github.pr_create") (codes "Create a pull request") (codes "github") high
        (network ∷ [])
    ∷ awh_tool (codes "github.pr_get") (codes "Get a pull request") (codes "github") low
        (network ∷ [])
    ∷ awh_tool (codes "github.pr_list") (codes "List pull requests") (codes "github") low
        (network ∷ [])
    ∷ awh_tool (codes "github.pr_merge") (codes "Merge a pull request") (codes "github") high
        (network ∷ [])
    ∷ awh_tool (codes "github.pr_review") (codes "Submit a pull request review") (codes "github")
        high (network ∷ [])
    ∷ awh_tool (codes "github.release_create") (codes "Create a release") (codes "github") high
        (network ∷ [])
    ∷ awh_tool (codes "github.workflow_dispatch") (codes "Trigger a workflow run") (codes "github")
        high (network ∷ [])
    ∷ []

abbrev memory_tools : List ToolDefinition
memory_tools =
    awh_tool (codes "mcp.status") (codes "Server status") (codes "system") low ([])
    ∷ awh_tool (codes "memory.delete") (codes "Delete a memory entry") (codes "memory") medium ([])
    ∷ awh_tool (codes "memory.get") (codes "Get a memory entry") (codes "memory") low ([])
    ∷ awh_tool (codes "memory.search") (codes "Search memory") (codes "memory") low ([])
    ∷ awh_tool (codes "memory.store") (codes "Store a memory entry") (codes "memory") medium ([])
    ∷ awh_tool (codes "memory.update") (codes "Update a memory entry") (codes "memory") medium ([])
    ∷ []

abbrev skills_tools : List ToolDefinition
skills_tools =
    awh_tool (codes "skills.add") (codes "Reference an installed skill") (codes "skills") medium
      ([])
    ∷ awh_tool (codes "skills.disable") (codes "Disable a skill reference") (codes "skills") medium
        ([])
    ∷ awh_tool (codes "skills.enable") (codes "Enable a skill reference") (codes "skills") medium
        ([])
    ∷ awh_tool (codes "skills.list") (codes "List project skills") (codes "skills") low ([])
    ∷ awh_tool (codes "skills.read") (codes "Read a skill") (codes "skills") low ([])
    ∷ awh_tool (codes "skills.remove") (codes "Remove a skill reference") (codes "skills") medium
        ([])
    ∷ awh_tool (codes "skills.search") (codes "Search installed skills") (codes "skills") low ([])
    ∷ []

abbrev tasks_tools : List ToolDefinition
tasks_tools =
    awh_tool (codes "tasks.create") (codes "Create a task") (codes "tasks") medium ([])
    ∷ awh_tool (codes "tasks.delete") (codes "Delete a task") (codes "tasks") medium ([])
    ∷ awh_tool (codes "tasks.get") (codes "Get a task") (codes "tasks") low ([])
    ∷ awh_tool (codes "tasks.list") (codes "List tasks") (codes "tasks") low ([])
    ∷ awh_tool (codes "tasks.update") (codes "Update a task") (codes "tasks") medium ([])
    ∷ awh_tool (codes "terminal.run") (codes "Run a shell command") (codes "terminal") high
        (process ∷ [])
    ∷ []

abbrev workspace_tools : List ToolDefinition
workspace_tools =
    awh_tool (codes "workspace.context") (codes "Read project agent instructions")
      (codes "workspace") low (filesystem ∷ [])
    ∷ awh_tool (codes "workspace.delete_file") (codes "Delete a workspace file") (codes "workspace")
        medium (filesystem ∷ [])
    ∷ awh_tool (codes "workspace.list_files") (codes "List workspace files") (codes "workspace") low
        (filesystem ∷ [])
    ∷ awh_tool (codes "workspace.read_file") (codes "Read a workspace file") (codes "workspace") low
        (filesystem ∷ [])
    ∷ awh_tool (codes "workspace.write_file") (codes "Write a workspace file") (codes "workspace")
        medium (filesystem ∷ [])
    ∷ []

abbrev pub registry : List ToolDefinition
registry =
    connector_tools ++ context_tools ++ filesystem_tools ++ git_tools ++ github_tools
    ++ memory_tools ++ skills_tools ++ tasks_tools ++ workspace_tools
