-- ===== src/Edit/Execute.antt =====
-- The executors of single edits (src/services/edit.rs: replace_internal, insert_internal,
-- delete_range_internal and their semantic checks). Audit lines and provenance records change no
-- result, and are left out.
pub mod Splice
pub mod Replace
pub mod Replaced
pub mod Alone
pub mod Atomic
pub mod Empty
use agent_workspace_hub.Prelude.{
  ℕ, ◌+◌, ◌-◌, Bool, true, false, not, ◌&&◌, ◌||◌, Option, none, some, List, [], ◌∷◌, ◌++◌, length,
  get_elem?, take, drop, map, Text, codes, contains, is_some, Result, ok, err, ◌>>=◌, ◌>>◌, guard,
  or_err, if◌then◌else◌, ltb, leb, ◌==◌,
}
use agent_workspace_hub.Edit.Status.{EditStatus, committed}
use agent_workspace_hub.Edit.Matching.{Bytes, LocatedMatch, MatchLocation, find_matches}
use agent_workspace_hub.Edit.Lines.{
  parse, len, is_empty_map, insert_offset, insert_at, line_span, without_span,
}
use agent_workspace_hub.Edit.Model.{
  EditOperation, replace, insert, delete_range, patch, apply_diff, FileState, from_content,
  EditTransaction, EditError, unsupported_transaction, read_failure, match_not_found,
  ambiguous_match, occurrence_out_of_range, insert_boundary_out_of_range, line_out_of_range,
  empty_file_deletion, semantic_verification_failure,
}
use agent_workspace_hub.Edit.Shape.{validate_shape}
use agent_workspace_hub.Edit.Files.{Disk, FileFault, not_found, io_error, read}
use agent_workspace_hub.Edit.Commit.{
  Preflight, first_expected, preflight, check_context, World, commit_edit,
}

unfoldable pub sole_operation : List EditOperation → Result EditError EditOperation
sole_operation [] = err (unsupported_transaction 0)
sole_operation (operation ∷ []) = ok operation
sole_operation (first ∷ second ∷ others) =
    err (unsupported_transaction (length (first ∷ second ∷ others)))

-- The index of the match to replace.
unfoldable pub select_index : Text → List LocatedMatch → Option ℕ → Result EditError ℕ
select_index path matches occurrence =
    if length matches == 0 then err (match_not_found path) else elim occurrence [
      | none ↦
          if ltb 1 (length matches)
          then err (ambiguous_match path (length matches) (map (λ m. m.location) matches))
          else ok 0
      | some n ↦
          if leb (length matches) (n - 1)
          then err (occurrence_out_of_range path n (length matches))
          else ok (n - 1)
    ]

-- The content with one match replaced.
unfoldable pub splice : Bytes → LocatedMatch → Bytes → Bytes
splice content selected replacement =
    (take selected.byte_offset content ++ replacement)
    ++ drop (selected.byte_offset + selected.length) content

-- The text that a read of the target gives to a semantic check.
unfoldable pub observe : Disk → Text → Result EditError Bytes
unfolding read
observe disk path = elim (read disk path) [
  | ok observed ↦ ok observed
  | err fault ↦ elim fault [
    | not_found message ↦ err (read_failure path message)
    | io_error message ↦ err (read_failure path message)
  ]
]

unfoldable pub verify_replace_semantics :
    (Bytes → Text)
    → (path : Text) (old new : Bytes) (occurrence : Option ℕ) → Disk
    → FileState
    → Result EditError (Unit {0})
unfolding observe find_matches from_content
verify_replace_semantics sha256_hex path old new occurrence disk after = do
  observed ← observe disk path
  let old_matches = find_matches observed old
  let new_matches = find_matches observed new
  let failure = semantic_verification_failure path (from_content sha256_hex path observed)
  guard (is_some occurrence || length old_matches == 0 || not (length new_matches == 0)) failure
  guard (not (length new_matches == 0)) failure

unfoldable pub verify_insert_semantics :
    (Bytes → Text)
    → (path : Text) (content : Bytes) → Disk
    → FileState
    → Result EditError (Unit {0})
unfolding observe contains from_content
verify_insert_semantics sha256_hex path content disk after = do
  observed ← observe disk path
  guard (contains observed content)
      (semantic_verification_failure path (from_content sha256_hex path observed))

unfoldable pub verify_delete_range_semantics :
    (Bytes → Text) → (path : Text) → Disk → FileState → Result EditError (Unit {0})
unfolding observe parse len from_content
verify_delete_range_semantics sha256_hex path disk after = do
  observed ← observe disk path
  guard (len (parse observed) == after.line_count)
      (semantic_verification_failure path (from_content sha256_hex path observed))

-- What an executor has before it commits.
pub record Plan : Type 0 where
  pub path : Text
  pub old : Bytes
  pub new : Bytes
  pub occurrence : Option ℕ
  pub current : Preflight
  pub prepared : Bytes
  pub matches : List LocatedMatch
  pub selected_index : ℕ
  pub selected : LocatedMatch

unfoldable pub plan_replace :
    (Bytes → Text)
    → EditTransaction
    → Disk
    → (path : Text) (old new : Bytes) (occurrence : Option ℕ) → Result EditError Plan
unfolding first_expected preflight find_matches select_index check_context splice
plan_replace sha256_hex transaction disk path old new occurrence = do
  current ← preflight sha256_hex path (first_expected transaction) disk
  let matches = find_matches current.content old
  selected_index ← select_index path matches occurrence
  selected ← or_err (get_elem? matches selected_index) (match_not_found path)
  check_context current (first_expected transaction) selected.byte_offset
      (selected.byte_offset + selected.length)
  ok record {
    path = path;
    old = old;
    new = new;
    occurrence = occurrence;
    current = current;
    prepared = splice current.content selected new;
    matches = matches;
    selected_index = selected_index;
    selected = selected;
  }

pub record EditResult : Type 0 where
  pub id : Text
  pub path : Text
  pub status : EditStatus
  pub before : FileState
  pub after : FileState
  pub match_count : ℕ
  pub selected_occurrence : ℕ
  pub location : MatchLocation

unfoldable pub replace_result : Text → Plan → FileState → EditResult
replace_result id plan after = record {
  id = id;
  path = plan.path;
  status = committed;
  before = plan.current.before;
  after = after;
  match_count = length plan.matches;
  selected_occurrence = plan.selected_index + 1;
  location = plan.selected.location;
}

unfoldable pub plan_sole_replace :
    (Bytes → Text) → EditTransaction → Disk → EditOperation → Result EditError Plan
unfolding plan_replace
plan_sole_replace sha256_hex transaction disk operation = elim operation [
  | replace path old new occurrence ↦
      plan_replace sha256_hex transaction disk path old new occurrence
  | _ ↦ err (unsupported_transaction 1)
]

unfoldable pub commit_replace :
    (Bytes → Text)
    → World
    → Text
    → Result EditError Plan
    → Disk
    → Result EditError EditResult × Disk
unfolding commit_edit verify_replace_semantics replace_result
commit_replace sha256_hex world id planned disk = elim planned [
  | err error ↦ (err error, disk)
  | ok plan ↦
      let semantics =
        verify_replace_semantics sha256_hex plan.path plan.old plan.new plan.occurrence in
      let outcome =
        commit_edit sha256_hex world plan.path plan.prepared plan.current.before semantics disk in
      (outcome.0 >>= λ after. ok (replace_result id plan after), outcome.1)
]

-- The plan of a request, or the error of its validation or its planning.
unfoldable pub request : (Bytes → Text) → EditTransaction → Disk → Result EditError Plan
unfolding validate_shape sole_operation plan_sole_replace
request sha256_hex transaction disk = do
  validate_shape transaction
  operation ← sole_operation transaction.operations
  plan_sole_replace sha256_hex transaction disk operation

unfoldable pub replace_internal :
    (Bytes → Text) → World → EditTransaction → Disk → Result EditError EditResult × Disk
unfolding request commit_replace
replace_internal sha256_hex world transaction disk =
    commit_replace sha256_hex world transaction.id (request sha256_hex transaction disk) disk
