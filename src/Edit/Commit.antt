-- ===== src/Edit/Commit.antt =====
-- The steps that the executors of edits share (src/services/edit.rs: preflight, check_context,
-- verify_live_unchanged, commit_verified). What other processes do to the disk between two steps,
-- and the answers of the lock table, of the recovery store and of the file system's staging, are
-- given by a `World`.
pub mod Outcome
pub mod Edits
pub mod Expected
use agent_workspace_hub.Prelude.{
  ℕ, ◌+◌, ◌-◌, Bool, true, false, not, ◌&&◌, ◌||◌, Option, none, some, List, [], ◌∷◌, ◌++◌, length,
  get_elem?, take, drop, map, Text, codes, text_eq, contains, Result, ok, err, ◌>>=◌, ◌>>◌, guard,
  or_err, if◌then◌else◌, ltb, leb, ◌==◌,
}
use agent_workspace_hub.Edit.Status.{EditStatus, committed}
use agent_workspace_hub.Edit.Matching.{Bytes, LocatedMatch, MatchLocation, find_matches}
use agent_workspace_hub.Edit.Lines.{
  line_count, parse, len, is_empty_map, insert_offset, insert_at, line_span, without_span,
}
use agent_workspace_hub.Edit.Model.{
  EditOperation, replace, insert, delete_range, patch, apply_diff, ExpectedState, FileState,
  from_content, check, hash_component, matched, conflicted, context_pending, malformed,
  EditTransaction, missing, ambiguous, not_anchored, ExpectedStateSummary, summary_of, EditError,
  invalid_hash, unsupported_transaction, file_not_found, read_failure, invalid_utf8,
  match_not_found, ambiguous_match, occurrence_out_of_range, insert_boundary_out_of_range,
  line_out_of_range, empty_file_deletion, expected_state_conflict, context_conflict, write_failure,
  verification_failed, semantic_verification_failure,
}
use agent_workspace_hub.Edit.Shape.{validate_path, validate_shape}
use agent_workspace_hub.Edit.Files.{
  Disk, FileFault, not_found, io_error, read_bytes, is_utf8, read, write_atomic_locked,
}

pub record Preflight : Type 0 where
  pub content : Bytes
  pub before : FileState

-- `transaction.expected.first()`.
unfoldable pub first_expected : EditTransaction → Option ExpectedState
first_expected transaction = elim transaction.expected [ [] ↦ none | expected ∷ _ ↦ some expected ]

unfoldable pub check_expected : Option ExpectedState → FileState → Result EditError (Unit {0})
unfolding check summary_of
check_expected none before = ok tt
check_expected (some expected) before = elim (check before expected) [
  | matched ↦ ok tt
  | conflicted component ↦
      err (expected_state_conflict before.path component (summary_of expected) before)
  | malformed _ _ ↦ err (invalid_hash (elim expected.hash [ none ↦ [] | some hash ↦ hash ]))
  | context_pending ↦ ok tt
]

unfoldable pub preflight_read : Text → Disk → Result EditError Bytes
unfolding read_bytes is_utf8
preflight_read path disk = elim (read_bytes disk path) [
  | err fault ↦ elim fault [
    | not_found _ ↦ err (file_not_found path)
    | io_error message ↦ err (read_failure path message)
  ]
  | ok bytes ↦ if is_utf8 bytes then ok bytes else err (invalid_utf8 path)
]

unfoldable pub preflight :
    (Bytes → Text) → Text → Option ExpectedState → Disk → Result EditError Preflight
unfolding validate_path preflight_read from_content check_expected
preflight sha256_hex path expected disk = do
  validate_path path
  content ← preflight_read path disk
  let before = from_content sha256_hex path content
  check_expected expected before
  ok record { content = content; before = before }

-- The three answers to the matches of the context.
unfoldable pub anchored : Text → List LocatedMatch → ℕ → ℕ → Result EditError (Unit {0})
anchored path [] span_start span_end = err (context_conflict path missing)
anchored path (only ∷ []) span_start span_end =
    guard (leb only.byte_offset span_start && leb span_end (only.byte_offset + only.length))
      (context_conflict path not_anchored)
anchored path (m ∷ n ∷ others) span_start span_end =
    err (context_conflict path (ambiguous (length (m ∷ n ∷ others))))

unfoldable pub check_context :
    Preflight → Option ExpectedState → ℕ → ℕ → Result EditError (Unit {0})
unfolding anchored find_matches
check_context current none span_start span_end = ok tt
check_context current (some expected) span_start span_end = elim expected.context [
  | none ↦ ok tt
  | some context ↦
      anchored current.before.path (find_matches current.content context) span_start span_end
]

-- What surrounds one edit.
pub record World : Type 0 where
  pub capture : Option EditError
  pub refusal : Option Text
  pub staging : Option Text
  pub before_guard : Disk → Disk
  pub before_write : Disk → Disk
  pub after_write : Disk → Disk
  pub before_check : Disk → Disk

-- The state reported for a file that is gone.
unfoldable pub absent : Text → FileState
absent path = record { path = path; hash = []; size = 0; line_count = 0 }

unfoldable pub stale : Text → FileState → FileState → EditError
stale path before actual =
    let expected : ExpectedStateSummary = record {
      hash = some before.hash;
      size = some before.size;
      line_count = some before.line_count;
    } in
    expected_state_conflict path hash_component expected actual

unfoldable pub verify_live_unchanged :
    (Bytes → Text) → Disk → Text → FileState → Result EditError (Unit {0})
unfolding read_bytes stale absent text_eq is_utf8 line_count
verify_live_unchanged sha256_hex disk path before = elim (read_bytes disk path) [
  | err fault ↦ elim fault [
    | not_found _ ↦ err (stale path before (absent path))
    | io_error message ↦ err (read_failure path message)
  ]
  | ok bytes ↦ guard (text_eq (sha256_hex bytes) before.hash && length bytes == before.size) (
      stale path before record {
        path = path;
        hash = sha256_hex bytes;
        size = length bytes;
        line_count = if is_utf8 bytes then line_count bytes else 0;
      })
]

-- `==` of the derived `PartialEq`.
unfoldable pub file_state_eq : FileState → FileState → Bool
unfolding text_eq
file_state_eq a b =
    text_eq a.path b.path
    && text_eq a.hash b.hash
    && a.size == b.size
    && a.line_count == b.line_count

-- The verified re-read after the write.
unfoldable pub verify_written : (Bytes → Text) → Disk → Text → Bytes → Result EditError FileState
unfolding read from_content absent file_state_eq
verify_written sha256_hex disk path prepared =
    let predicted = from_content sha256_hex path prepared in
    elim (read disk path) [
      | err fault ↦ elim fault [
        | not_found _ ↦ err (verification_failed path predicted (absent path))
        | io_error message ↦ err (read_failure path message)
      ]
      | ok observed ↦
          let after = from_content sha256_hex path observed in
          if file_state_eq after predicted
          then ok after
          else err (verification_failed path predicted after)
    ]

unfoldable pub commit_verified_locked :
    (Bytes → Text) → World → Text → Bytes → FileState → Disk → Result EditError FileState × Disk
unfolding verify_live_unchanged write_atomic_locked verify_written
commit_verified_locked sha256_hex world path prepared before disk =
    elim (verify_live_unchanged sha256_hex disk path before) [
      | err error ↦ (err error, disk)
      | ok _ ↦
          let live = world.before_write disk in
          elim (write_atomic_locked world.staging path prepared live) [
            | err message ↦ (err (write_failure path message), live)
            | ok written ↦
                let observed = world.after_write written in
                (verify_written sha256_hex observed path prepared, observed)
          ]
    ]

unfoldable pub commit_verified :
    (Bytes → Text) → World → Text → Bytes → FileState → Disk → Result EditError FileState × Disk
unfolding commit_verified_locked
commit_verified sha256_hex world path prepared before disk = elim world.refusal [
  | some message ↦ (err (write_failure [] message), disk)
  | none ↦ commit_verified_locked sha256_hex world path prepared before disk
]

-- The semantic check of a commit that has answered, on the disk of that time.
unfoldable pub check_semantics :
    World
    → (semantics : Disk → FileState → Result EditError (Unit {0}))
    → Result EditError FileState × Disk
    → Result EditError FileState × Disk
check_semantics world semantics (err error, left) = (err error, left)
check_semantics world semantics (ok after, left) =
    (semantics (world.before_check left) after >> ok after, world.before_check left)

-- The steps from the capture of recovery material to the semantic check.
unfoldable pub commit_edit :
    (Bytes → Text)
    → World
    → Text
    → Bytes
    → FileState
    → (semantics : Disk → FileState → Result EditError (Unit {0})) → Disk
    → Result EditError FileState × Disk
unfolding commit_verified check_semantics
commit_edit sha256_hex world path prepared before semantics disk = elim world.capture [
  | some error ↦ (err error, disk)
  | none ↦
      check_semantics world semantics
        (commit_verified sha256_hex world path prepared before (world.before_guard disk))
]
