-- ===== src/Edit/Shape.antt =====
-- The structural validation of a transaction (src/services/edit.rs: validate_shape,
-- validate_path, validate_optional_reference). Paths are those of Unix.
use agent_workspace_hub.Prelude.{
  not, ◌||◌, Option, none, some, List, [], ◌∷◌, length, Text, codes, text_eq, is_empty, is_blank,
  is_control, any, split, Result, ok, err, ◌>>◌, guard, if◌then◌else◌, ltb, ◌==◌, starts_with,
}
use agent_workspace_hub.Edit.Model.{
  EditOperation, replace, insert, delete_range, patch, apply_diff, ExpectedState, EditIdentity,
  EditRefs, EditTransaction, is_valid_hash, EditError, empty_transaction, empty_match, empty_diff,
  empty_insert_content, empty_context, expected_state_count, invalid_path, invalid_line_range,
  invalid_hash, invalid_occurrence, empty_reference, unsafe_reference,
}

-- A path is refused when it is empty, absolute, or has a control character or a parent component.
unfoldable pub validate_path : Text → Result EditError (Unit {0})
unfolding any is_control split text_eq starts_with
validate_path path = do
  guard (not (is_empty path || starts_with path (codes "/") || any is_control path))
      (invalid_path path)
  guard (not (any (λ component. text_eq component (codes "..")) (split b'/' path)))
      (invalid_path path)

unfoldable pub validate_optional_reference : Text → Option Text → Result EditError (Unit {0})
unfolding any is_control
validate_optional_reference field none = ok tt
validate_optional_reference field (some value) =
    if is_empty value
    then err (empty_reference field)
    else if any is_control value
    then err (unsafe_reference field)
    else ok tt

unfoldable pub validate_expected : List ExpectedState → Result EditError (Unit {0})
unfolding is_valid_hash
validate_expected [] = ok tt
validate_expected (expected ∷ later) = do
  elim expected.hash [ none ↦ ok tt | some hash ↦ guard (is_valid_hash hash) (invalid_hash hash) ]
  elim expected.context [
    | none ↦ ok tt
    | some context ↦ guard (not (is_empty context)) empty_context
  ]
  validate_expected later

unfoldable pub validate_references : EditIdentity → EditRefs → Result EditError (Unit {0})
unfolding validate_optional_reference
validate_references identity refs = do
  validate_optional_reference (codes "agent_id") identity.agent_id
  validate_optional_reference (codes "session_id") identity.session_id
  validate_optional_reference (codes "workspace_id") identity.workspace_id
  validate_optional_reference (codes "snapshot_id") refs.snapshot_id
  validate_optional_reference (codes "provenance_id") refs.provenance_id
  validate_optional_reference (codes "audit_event_id") refs.audit_event_id
  validate_optional_reference (codes "policy_decision_id") refs.policy_decision_id

unfoldable pub validate_operation : EditOperation → Result EditError (Unit {0})
unfolding validate_path is_blank
validate_operation (replace path old new occurrence) = do
  validate_path path
  guard (not (is_empty old)) empty_match
  elim occurrence [ none ↦ ok tt | some n ↦ guard (not (n == 0)) invalid_occurrence ]
validate_operation (insert path line content) = do
  validate_path path
  guard (not (is_empty content)) empty_insert_content
validate_operation (delete_range path start_line end_line) = do
  validate_path path
  guard (not (start_line == 0 || end_line == 0 || ltb end_line start_line))
      (invalid_line_range start_line end_line)
validate_operation (patch path old new) = do
  validate_path path
  guard (not (is_empty old)) empty_match
validate_operation (apply_diff diff) = guard (not (is_blank diff)) empty_diff

unfoldable pub validate_operations : List EditOperation → Result EditError (Unit {0})
unfolding validate_operation
validate_operations [] = ok tt
validate_operations (operation ∷ later) = do validate_operation operation; validate_operations later

unfoldable pub validate_shape : EditTransaction → Result EditError (Unit {0})
unfolding validate_expected validate_references validate_operations
validate_shape transaction = do
  guard (not (length transaction.operations == 0)) empty_transaction
  guard
      (length transaction.expected == 0
        || length transaction.expected == length transaction.operations)
      (expected_state_count (length transaction.operations) (length transaction.expected))
  validate_expected transaction.expected
  validate_references transaction.identity transaction.refs
  validate_operations transaction.operations
