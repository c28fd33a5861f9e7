-- ===== src/Edit/Rollback.antt =====
-- The explicit rollback of recorded edits (src/services/edit.rs: RollbackRecord,
-- rollback_edits_inner). Reasons are given by the path that they name; the lock set is held
-- throughout, so nobody else writes in between.
pub mod Refusal
pub mod Records
pub mod Restored
mod Tests
use agent_workspace_hub.Prelude.{
  Bool, true, false, not, Option, none, some, List, [], ◌∷◌, ◌++◌, Text, codes, text_eq, Result, ok,
  err, ◌>>=◌, if◌then◌else◌,
}
use agent_workspace_hub.Edit.Matching.{Bytes}
use agent_workspace_hub.Edit.Model.{EditError, invalid_utf8, read_failure, write_failure}
use agent_workspace_hub.Edit.Files.{
  Disk, FileFault, not_found, io_error, read_bytes, is_utf8, write_atomic_locked,
}

pub record RollbackRecord : Type 0 where
  pub edit_id : Text
  pub path : Text
  pub existed_before : Bool
  pub before_bytes : Bytes
  pub after_hash : Text

pub data EditRollbackStatus : Type 0 where
  restored already_rolled_back : EditRollbackStatus
  conflict failed : (path : Text) → EditRollbackStatus

-- The disk without a file.
unfoldable pub without_file : Text → Disk → Disk
unfolding text_eq
without_file path disk asked =
    if text_eq asked path then err (not_found (codes "no such file")) else disk asked

-- `delete_locked` of a file. A failure of the system is given by its message.
unfoldable pub delete_locked : Option Text → Text → Disk → Result Text Disk
unfolding without_file
delete_locked (some message) path disk = err message
delete_locked none path disk = ok (without_file path disk)

-- The first target that is gone or is not in the state that the edit produced.
unfoldable pub find_conflict : (Bytes → Text) → Disk → List RollbackRecord → Option Text
unfolding read_bytes text_eq
find_conflict sha256_hex disk [] = none
find_conflict sha256_hex disk (entry ∷ records) = elim (read_bytes disk entry.path) [
  | err _ ↦ some entry.path
  | ok bytes ↦
      if text_eq (sha256_hex bytes) entry.after_hash
      then find_conflict sha256_hex disk records
      else some entry.path
]

-- What ends the loop that restores before its last round: a return of a failure, or an error.
pub data Interruption : Type 0 where
  failed_at : (path : Text) → Interruption
  raised : (error : EditError) → Interruption

abbrev pub Stop : Type 0
Stop = Interruption × Disk

-- The answer of a rollback, and the disk that it leaves.
abbrev pub Answer : Type 0
Answer = Result EditError EditRollbackStatus × Disk

unfoldable pub answer : Interruption → Result EditError EditRollbackStatus
answer (failed_at path) = ok (failed path)
answer (raised error) = err error

unfoldable pub delete_created : Option Text → Text → Disk → Result Stop Disk
unfolding delete_locked read_bytes
delete_created failure path disk = elim (delete_locked failure path disk) [
  | err _ ↦ err (failed_at path, disk)
  | ok left ↦ elim (read_bytes left path) [ ok _ ↦ err (failed_at path, left) | err _ ↦ ok left ]
]

unfoldable pub verify_restored : Text → Bytes → Disk → Result Stop Disk
unfolding read_bytes text_eq
verify_restored path before_bytes left = elim (read_bytes left path) [
  | err fault ↦ elim fault [
    | not_found message ↦ err (raised (read_failure path message), left)
    | io_error message ↦ err (raised (read_failure path message), left)
  ]
  | ok observed ↦ if text_eq observed before_bytes then ok left else err (failed_at path, left)
]

unfoldable pub write_back : Option Text → Text → Bytes → Disk → Result Stop Disk
unfolding is_utf8 write_atomic_locked verify_restored
write_back failure path before_bytes disk =
    if not (is_utf8 before_bytes)
    then err (raised (invalid_utf8 path), disk)
    else elim (write_atomic_locked failure path before_bytes disk) [
      | err _ ↦ err (failed_at path, disk)
      | ok left ↦ verify_restored path before_bytes left
    ]

-- One round of the loop that restores, with the failures of the system by path.
unfoldable pub restore_one : (Text → Option Text) → RollbackRecord → Disk → Result Stop Disk
unfolding delete_created write_back
restore_one failures entry disk =
    if not entry.existed_before
    then delete_created (failures entry.path) entry.path disk
    else write_back (failures entry.path) entry.path entry.before_bytes disk

unfoldable pub restore_all : (Text → Option Text) → List RollbackRecord → Disk → Result Stop Disk
unfolding restore_one
restore_all failures [] disk = ok disk
restore_all failures (entry ∷ entries) disk =
    restore_one failures entry disk >>= λ left. restore_all failures entries left

unfoldable pub reversed : List RollbackRecord → List RollbackRecord
reversed [] = []
reversed (entry ∷ entries) = reversed entries ++ entry ∷ []

unfoldable pub restore_records : (Text → Option Text) → List RollbackRecord → Disk → Answer
unfolding restore_all reversed answer
restore_records failures records disk = elim (restore_all failures (reversed records) disk) [
  | err stop ↦ (answer stop.0, stop.1)
  | ok left ↦ (ok restored, left)
]

-- What follows the check for conflicts.
unfoldable pub unless_conflict :
    Option Text → (Text → Option Text) → List RollbackRecord → Disk → Answer
unfolding restore_records
unless_conflict (some path) failures records disk = (ok (conflict path), disk)
unless_conflict none failures records disk = restore_records failures records disk

unfoldable pub rollback_edits_inner :
    (Bytes → Text) → Option Text → (Text → Option Text) → List RollbackRecord → Disk → Answer
unfolding find_conflict unless_conflict
rollback_edits_inner sha256_hex refusal failures [] disk = (ok restored, disk)
rollback_edits_inner sha256_hex refusal failures (entry ∷ entries) disk = elim refusal [
  | some message ↦ (err (write_failure [] message), disk)
  | none ↦
      unless_conflict (find_conflict sha256_hex disk (entry ∷ entries)) failures (entry ∷ entries)
        disk
]
