-- ===== src/Lib.antt =====
-- Agent Workspace Hub: the stores and the gates that decide what an agent may do.
--
-- Parts of the program and the files that model them (paths from the repository's root):
--   * Collab: src/core/collaboration.rs, who owns a task or a worktree. `load`, `assign`, `mutate`
--     and the closures that `activate`, `request_handoff`, `accept_handoff` and `release` pass to
--     it. Collab.Calls names the five writing operations, and runs callers' calls one after another.
--   * Trust: src/mcp/permissions.rs and src/mcp/trust.rs, the permissions that a server may
--     request, the approvals, and `can_enable`.
--   * Registry: src/mcp/tool_registry.rs, the table of the built-in tools (Registry.Table) and
--     `registry_lookup` (Registry.Lookup).
--   * Gate: src/mcp/execution_gate.rs, `authorize` for servers and `authorize_builtin_tool` for the
--     tools of the registry. It reads Trust and Registry; the entries of the audit are a result.
--   * Policy: src/core/policy.rs and src/models/policy_rule.rs, the deny rules that the dispatcher
--     asks after the gate: `add`, `remove`, `list`, `matching`.
--   * Breaker: src/mcp/circuit_breaker.rs, the breaker in front of a provider.
--   * Tasks: src/core/tasks.rs, the task store; Tasks.Terminal runs callers' calls.
--   * RateLimit: src/services/rate_limit.rs, the sliding-window limiter of the HTTP server. `check`,
--     with its eviction of one stale key from a full map, and `current`.
--   * Sessions: src/core/sessions.rs and src/models/session.rs, the session records: `create`,
--     `transition`, `get`. Sessions.Settled runs callers' calls.
--   * Edit: src/services/edit.rs, the edit engine. Edit.Status, the lifecycle of a transaction;
--     Edit.Matching, `find_matches` and `locate`; Edit.Lines, `LineMap`; Edit.Model and Edit.Shape,
--     transactions and their validation; Edit.Files, the reads and the atomic write of
--     src/services/files.rs; Edit.Commit, `preflight`, `check_context`, the stale-state guard and the
--     commit; Edit.Execute and Edit.LineEdits, the executors of `replace`, `insert` and
--     `delete_range`; Edit.Commit.Expected, what an expected state asks of a file; Edit.Diff, the
--     hunks of `apply_hunks_to_content`; Edit.Rollback, `rollback_edits_inner`. Edit.Lines.Pieces gives the lines of a file by themselves, as the view that
--     line edits are compared with.
--   * Host: what the stores take from the operating system. Prelude: shared names and lemmas.
--
-- State. A store's file is `Disk`: missing, unreadable, not JSON of the right form, or the value
-- that the JSON holds. An operation reads it once under the store's lock and writes it once, by
-- renaming a temporary file, so it is a function from the file to a result with the new file; on an
-- error the file is as before. Interleavings of callers are lists of such calls. What the
-- directory, the lock, the write and the clock answer during one call are fields of `Host`. The
-- breaker's mutex makes `allow`, `record_success` and `record_failure` single steps; a call begins
-- with the first and ends with one of the others, and the list of these events is any interleaving.
-- The limiter's mutex makes a `check` one step; its map is a list of entries, in any order.
--
-- Edits. A `Disk` of Edit.Files is what a read of each path gives, and links between paths are not
-- part of it; paths are compared as they are spelled, so that `./a` and `a` are two paths there.
-- The rollback has no other writer between its steps, since it holds the locks of its files; a
-- process that does not take those locks is not part of it. An executor is a function from the disk to a result and the disk after it; its
-- `World` holds what other processes do to the disk between its steps, as functions, and the
-- answers of the recovery store, of the locks and of the staging of the write. The digest of sha2
-- is a parameter. The content of a file is a list of bytes, so that offsets are indexes of it.
--
-- Numbers and texts. Texts are lists of scalar values, and `byte_len` counts their UTF-8 bytes.
-- Integers are naturals: `wrap_u64` and `% 2 ^ 32` are the wrapping additions of a release build,
-- `saturating_increment_u64` and `saturating_increment_u32` those that saturate. Times of the
-- breaker and of the limiter are nanoseconds of the monotonic clock, and the elapsed time is a
-- difference that stops at 0, as that of the standard library does.
--
-- Fuel. `binary_search` stands for `slice::binary_search_by`; it halves the table in each round and
-- its fuel is one more than the table's length, so that each round leaves fuel for a shorter slice.
-- `find_matches` loops on fuel one more than the haystack's length, since each match moves the
-- search at least one byte on. No other loop needs fuel.
--
-- Not modelled: JSON and the file system, the texts of error messages, log lines, the listing
-- of ownership records with its sort and that of sessions, the agent, session and worktree stores
-- behind an assignee (given by their answers), the parser of diffs, the patches of the edit engine
-- with its audit lines and provenance records, the context budget, the dispatcher and the command
-- line.
pub mod Prelude
pub mod Host
pub mod Collab
pub mod Trust
pub mod Registry
pub mod Edit
pub mod Gate
pub mod Policy
pub mod Breaker
pub mod Tasks
pub mod RateLimit
pub mod Sessions
