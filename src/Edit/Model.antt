-- ===== src/Edit/Model.antt =====
-- The data of the edit engine (src/services/edit.rs): operations, expected and observed file
-- states, transactions and the errors of the executors. Contents of files are lists of bytes;
-- paths, ids and references are texts. The digest of sha2 is a parameter.
use agent_workspace_hub.Prelude.{
  ℕ, Bool, false, not, ◌&&◌, ◌||◌, Option, none, some, List, [], ◌∷◌, ◌++◌, length, is_some, Text,
  codes, text_eq, byte_len, all, if◌then◌else◌, leb, ◌==◌,
}
use agent_workspace_hub.Edit.Status.{EditStatus, requested}
use agent_workspace_hub.Edit.Matching.{Bytes, MatchLocation}
use agent_workspace_hub.Edit.Lines.{line_count}

pub data EditOperation : Type 0 where
  replace : (path : Text) → (old new : Bytes) → (occurrence : Option ℕ) → EditOperation
  insert : (path : Text) → (line : ℕ) → (content : Bytes) → EditOperation
  delete_range : (path : Text) → (start_line end_line : ℕ) → EditOperation
  patch : (path : Text) → (old new : Bytes) → EditOperation
  apply_diff : (diff : Text) → EditOperation

unfoldable pub paths : EditOperation → List Text
paths operation = elim operation [
  | replace path _ _ _ ↦ path ∷ []
  | insert path _ _ ↦ path ∷ []
  | delete_range path _ _ ↦ path ∷ []
  | patch path _ _ ↦ path ∷ []
  | apply_diff _ ↦ []
]

pub record ExpectedState : Type 0 where
  pub hash : Option Text
  pub context : Option Bytes
  pub size : Option ℕ
  pub line_count : Option ℕ

pub record FileState : Type 0 where
  pub path : Text
  pub hash : Text
  pub size : ℕ
  pub line_count : ℕ

pub data ExpectedComponent : Type 0 where
  hash_component size_component line_count_component : ExpectedComponent

pub data MalformedExpectedState : Type 0 where
  invalid_hash_state empty_context_state : MalformedExpectedState

pub data StateMatch : Type 0 where
  matched : StateMatch
  conflicted : (component : ExpectedComponent) → StateMatch
  context_pending : StateMatch
  malformed : (reason : MalformedExpectedState) → (detail : Text) → StateMatch

unfoldable pub from_content : (Bytes → Text) → Text → Bytes → FileState
unfolding line_count
from_content sha256_hex path content = record {
  path = path;
  hash = sha256_hex content;
  size = length content;
  line_count = line_count content;
}

-- A digest has 64 bytes, each of them a lower-case hexadecimal digit.
unfoldable pub is_valid_hash : Text → Bool
unfolding byte_len all
is_valid_hash hash =
    byte_len hash == 64 && all (λ b. (leb b'0' b && leb b b'9') || (leb b'a' b && leb b b'f')) hash

-- `is_some_and(|v| v != actual)`.
unfoldable pub differs : Option ℕ → ℕ → Bool
differs none actual = false
differs (some v) actual = not (v == actual)

unfoldable pub check_rest : FileState → ExpectedState → StateMatch
unfolding differs
check_rest state expected =
    if differs expected.size state.size
    then conflicted size_component
    else if differs expected.line_count state.line_count
    then conflicted line_count_component
    else if is_some expected.context
    then context_pending
    else matched

unfoldable pub check : FileState → ExpectedState → StateMatch
unfolding is_valid_hash check_rest text_eq
check state expected = elim expected.hash [
  | none ↦ check_rest state expected
  | some hash ↦
      if not (is_valid_hash hash)
      then malformed invalid_hash_state
          (codes "expected-state hash must be 64 lowercase hex characters: " ++ hash)
      else if not (text_eq hash state.hash)
      then conflicted hash_component
      else check_rest state expected
]

pub record EditIdentity : Type 0 where
  pub agent_id : Option Text
  pub session_id : Option Text
  pub workspace_id : Option Text

pub record EditRefs : Type 0 where
  pub snapshot_id : Option Text
  pub provenance_id : Option Text
  pub audit_event_id : Option Text
  pub policy_decision_id : Option Text

pub record EditTransaction : Type 0 where
  pub id : Text
  pub operations : List EditOperation
  pub expected : List ExpectedState
  pub before : List FileState
  pub after : List FileState
  pub status : EditStatus
  pub identity : EditIdentity
  pub refs : EditRefs

-- The generated id of a new transaction is given.
unfoldable pub new : Text → List EditOperation → EditTransaction
new id operations = record {
  id = id;
  operations = operations;
  expected = [];
  before = [];
  after = [];
  status = requested;
  identity = record { agent_id = none; session_id = none; workspace_id = none };
  refs = record {
    snapshot_id = none;
    provenance_id = none;
    audit_event_id = none;
    policy_decision_id = none;
  };
}

unfoldable pub single : Text → EditOperation → EditTransaction
unfolding new
single id operation = new id (operation ∷ [])

pub data ContextConflictReason : Type 0 where
  missing : ContextConflictReason
  ambiguous : (count : ℕ) → ContextConflictReason
  not_anchored : ContextConflictReason

pub record ExpectedStateSummary : Type 0 where
  pub hash : Option Text
  pub size : Option ℕ
  pub line_count : Option ℕ

unfoldable pub summary_of : ExpectedState → ExpectedStateSummary
summary_of expected = record {
  hash = expected.hash;
  size = expected.size;
  line_count = expected.line_count;
}

-- The errors that validation and the executors of single edits return. The texts that explain a
-- semantic failure are left out of it.
pub data EditError : Type 0 where
  empty_transaction empty_match empty_diff empty_insert_content empty_context : EditError
  expected_state_count : (operations expected : ℕ) → EditError
  invalid_path : (path : Text) → EditError
  invalid_line_range : (start end : ℕ) → EditError
  invalid_hash : (hash : Text) → EditError
  invalid_occurrence : EditError
  empty_reference unsafe_reference : (field : Text) → EditError
  unsupported_transaction : (operation_count : ℕ) → EditError
  hunk_context_mismatch : (path : Text) → (hunk : ℕ) → EditError
  file_not_found : (path : Text) → EditError
  read_failure : (path message : Text) → EditError
  invalid_utf8 : (path : Text) → EditError
  match_not_found : (path : Text) → EditError
  ambiguous_match : (path : Text) → (match_count : ℕ) → (locations : List MatchLocation) → EditError
  occurrence_out_of_range : (path : Text) → (selected match_count : ℕ) → EditError
  insert_boundary_out_of_range : (path : Text) → (line line_count : ℕ) → EditError
  line_out_of_range : (path : Text) → (start end line_count : ℕ) → EditError
  empty_file_deletion : (path : Text) → EditError
  expected_state_conflict :
      (path : Text)
      → (component : ExpectedComponent) → (expected : ExpectedStateSummary) → (actual : FileState)
      → EditError
  context_conflict : (path : Text) → (reason : ContextConflictReason) → EditError
  write_failure : (path message : Text) → EditError
  verification_failed : (path : Text) → (expected actual : FileState) → EditError
  semantic_verification_failure : (path : Text) → (actual_state : FileState) → EditError
