-- ===== src/Edit/LineEdits.antt =====
-- The executors of line edits (src/services/edit.rs: insert_internal, delete_range_internal).
pub mod Written
pub mod Inserted
pub mod Deleted
use agent_workspace_hub.Prelude.{
  ℕ, ◌+◌, Bool, true, false, not, Option, none, some, List, [], ◌∷◌, Text, Result, ok, err, ◌>>=◌,
  ◌>>◌, guard, or_err, if◌then◌else◌, ltb, leb, ◌==◌,
}
use agent_workspace_hub.Edit.Status.{EditStatus, committed}
use agent_workspace_hub.Edit.Matching.{Bytes}
use agent_workspace_hub.Edit.Lines.{
  parse, len, is_empty_map, insert_offset, insert_at, line_span, without_span,
}
use agent_workspace_hub.Edit.Model.{
  EditOperation, replace, insert, delete_range, patch, apply_diff, FileState, EditTransaction,
  EditError, unsupported_transaction, insert_boundary_out_of_range, line_out_of_range,
  empty_file_deletion,
}
use agent_workspace_hub.Edit.Shape.{validate_shape}
use agent_workspace_hub.Edit.Files.{Disk}
use agent_workspace_hub.Edit.Commit.{
  Preflight, first_expected, preflight, check_context, World, commit_edit,
}
use agent_workspace_hub.Edit.Execute.{
  sole_operation, verify_insert_semantics, verify_delete_range_semantics,
}

pub data LineEditKind : Type 0 where
  inserted : (boundary : ℕ) → LineEditKind
  deleted : (start end : ℕ) → LineEditKind

pub record LineEditResult : Type 0 where
  pub id : Text
  pub path : Text
  pub status : EditStatus
  pub before : FileState
  pub after : FileState
  pub kind : LineEditKind

-- What a line executor has before it commits, with its semantic check.
pub record LinePlan : Type 0 where
  pub path : Text
  pub current : Preflight
  pub prepared : Bytes
  pub kind : LineEditKind
  pub semantics : Disk → FileState → Result EditError (Unit {0})

unfoldable pub plan_insert :
    (Bytes → Text)
    → EditTransaction
    → Disk
    → (path : Text) (line : ℕ) (content : Bytes) → Result EditError LinePlan
unfolding first_expected preflight parse len insert_offset check_context insert_at
    verify_insert_semantics
plan_insert sha256_hex transaction disk path line content = do
  current ← preflight sha256_hex path (first_expected transaction) disk
  let lines = parse current.content
  guard (leb line (len lines + 1)) (insert_boundary_out_of_range path line (len lines))
  let offset = insert_offset lines line
  check_context current (first_expected transaction) offset offset
  ok record {
    path = path;
    current = current;
    prepared = insert_at lines current.content line content;
    kind = inserted line;
    semantics = verify_insert_semantics sha256_hex path content;
  }

unfoldable pub plan_delete_range :
    (Bytes → Text)
    → EditTransaction
    → Disk
    → (path : Text) (start_line end_line : ℕ) → Result EditError LinePlan
unfolding first_expected preflight parse is_empty_map len line_span check_context without_span
    verify_delete_range_semantics
plan_delete_range sha256_hex transaction disk path start_line end_line = do
  current ← preflight sha256_hex path (first_expected transaction) disk
  let lines = parse current.content
  guard (not (is_empty_map lines)) (empty_file_deletion path)
  guard (leb end_line (len lines)) (line_out_of_range path start_line end_line (len lines))
  span ←
      or_err (line_span lines start_line end_line)
        (line_out_of_range path start_line end_line (len lines))
  check_context current (first_expected transaction) span.0 span.1
  ok record {
    path = path;
    current = current;
    prepared = without_span current.content span;
    kind = deleted start_line end_line;
    semantics = verify_delete_range_semantics sha256_hex path;
  }

unfoldable pub line_result : Text → LinePlan → FileState → LineEditResult
line_result id plan after = record {
  id = id;
  path = plan.path;
  status = committed;
  before = plan.current.before;
  after = after;
  kind = plan.kind;
}

-- The rest of an executor, once the edit is planned.
unfoldable pub commit_plan :
    (Bytes → Text)
    → World
    → Text
    → Result EditError LinePlan
    → Disk
    → Result EditError LineEditResult × Disk
unfolding commit_edit line_result
commit_plan sha256_hex world id planned disk = elim planned [
  | err error ↦ (err error, disk)
  | ok plan ↦
      let outcome =
        commit_edit sha256_hex world plan.path plan.prepared plan.current.before plan.semantics
          disk in
      (outcome.0 >>= λ after. ok (line_result id plan after), outcome.1)
]

unfoldable pub plan_sole_insert :
    (Bytes → Text) → EditTransaction → Disk → EditOperation → Result EditError LinePlan
unfolding plan_insert
plan_sole_insert sha256_hex transaction disk operation = elim operation [
  | insert path line content ↦ plan_insert sha256_hex transaction disk path line content
  | _ ↦ err (unsupported_transaction 1)
]

unfoldable pub insert_internal :
    (Bytes → Text) → World → EditTransaction → Disk → Result EditError LineEditResult × Disk
unfolding validate_shape sole_operation plan_sole_insert commit_plan
insert_internal sha256_hex world transaction disk =
    let planned = do
      validate_shape transaction
      operation ← sole_operation transaction.operations
      plan_sole_insert sha256_hex transaction disk operation
    in commit_plan sha256_hex world transaction.id planned disk

unfoldable pub plan_sole_delete_range :
    (Bytes → Text) → EditTransaction → Disk → EditOperation → Result EditError LinePlan
unfolding plan_delete_range
plan_sole_delete_range sha256_hex transaction disk operation = elim operation [
  | delete_range path start_line end_line ↦
      plan_delete_range sha256_hex transaction disk path start_line end_line
  | _ ↦ err (unsupported_transaction 1)
]

unfoldable pub delete_range_internal :
    (Bytes → Text) → World → EditTransaction → Disk → Result EditError LineEditResult × Disk
unfolding validate_shape sole_operation plan_sole_delete_range commit_plan
delete_range_internal sha256_hex world transaction disk =
    let planned = do
      validate_shape transaction
      operation ← sole_operation transaction.operations
      plan_sole_delete_range sha256_hex transaction disk operation
    in commit_plan sha256_hex world transaction.id planned disk
