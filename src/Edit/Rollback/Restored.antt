-- ===== src/Edit/Rollback/Restored.antt =====
-- What a rollback that answers that it restored has done (src/services/edit.rs:
-- rollback_edits_inner).
use agent_workspace_hub.Prelude.{
  ◌≡◌, refl, ap, sym, ◌∙◌, inl, inr, false, Option, none, some, List, [], ◌∷◌, any, All, Text,
  text_eq, text_eq_iff, ok, err, Result-cases, Bool-cases, >>=-eq-ok, ok-injective, if◌then◌else◌,
}
use mathlib.Core.Path.{subst}
use agent_workspace_hub.Edit.Matching.{Bytes}
use agent_workspace_hub.Edit.Files.{Disk, FileFault, not_found, io_error, read_bytes, is_utf8, put}
use agent_workspace_hub.Edit.Commit.Outcome.{write_cases}
use agent_workspace_hub.Edit.Rollback.Records.{Distinct, none_of, Distinct-reversed, All-reversed}
use agent_workspace_hub.Edit.Rollback.{
  RollbackRecord, restored, find_conflict, without_file, delete_locked, delete_created,
  verify_restored, write_back, restore_one, restore_all, reversed, Interruption, failed_at, raised,
  answer, restore_records, unless_conflict, rollback_edits_inner,
}

-- The target of a record is as it was before the edit: its bytes are back, or it cannot be read.
unfoldable pub IsBack : Disk → RollbackRecord → Type 0
unfolding read_bytes
IsBack disk entry =
    if entry.existed_before
    then read_bytes disk entry.path ≡ ok entry.before_bytes
    else (fault : FileFault) × (read_bytes disk entry.path ≡ err fault)

-- A step leaves every path but its own.
unfoldable pub OnlyAt : Text → Disk → Disk → Type 0
OnlyAt path before after = (asked : Text) → text_eq asked path ≡ false → after asked ≡ before asked

delete_created-eq-ok :
    (failure : Option Text) (path : Text) (disk left : Disk)
    → delete_created failure path disk ≡ ok left
    → (without_file path disk ≡ left) × (fault : FileFault) × (read_bytes left path ≡ err fault)
unfolding delete_created delete_locked
delete_created-eq-ok (some message) path disk left e = cc
delete_created-eq-ok none path disk left e =
    elim (Result-cases (read_bytes (without_file path disk) path)) [
      | inl (bytes, r) ↦ cc (rw (r, delete_created) at e)
      | inr (fault, r) ↦
          let same = ok-injective (without_file path disk) left (rw (r, delete_created) at e) in
          (same, fault, subst (λ d. read_bytes d path ≡ err fault) same r)
    ]

verify_restored-eq-ok :
    (path : Text) (bytes : Bytes) (disk left : Disk)
    → verify_restored path bytes disk ≡ ok left
    → (disk ≡ left) × (read_bytes left path ≡ ok bytes)
unfolding verify_restored
verify_restored-eq-ok path bytes disk left e = elim (Result-cases (read_bytes disk path)) [
  | inr (not_found message, r) ↦ cc (rw (r, verify_restored) at e)
  | inr (io_error message, r) ↦ cc (rw (r, verify_restored) at e)
  | inl (observed, r) ↦ elim (Bool-cases (text_eq observed bytes)) [
    | inr t ↦ cc (rw t at (rw (r, verify_restored) at e))
    | inl t ↦
        let same = ok-injective disk left (rw t at (rw (r, verify_restored) at e)) in
        (
          same,
          ap (λ d. read_bytes d path) (sym same)
              ∙ r
              ∙ ap (λ b. ok b) ((text_eq_iff observed bytes).0 t),
        )
  ]
]

write_back-eq-ok :
    (failure : Option Text) (path : Text) (bytes : Bytes) (disk left : Disk)
    → write_back failure path bytes disk ≡ ok left
    → (put path bytes disk ≡ left) × (read_bytes left path ≡ ok bytes)
unfolding write_back
write_back-eq-ok failure path bytes disk left e = elim (Bool-cases (is_utf8 bytes)) [
  | inr u ↦ cc (rw (u, write_back) at e)
  | inl u ↦ elim (write_cases failure path bytes disk) [
    | inr (message, w) ↦ cc (rw (w, write_back) at (rw (u, write_back) at e))
    | inl w ↦
        verify_restored-eq-ok path bytes (put path bytes disk) left
          (rw (w, write_back) at (rw (u, write_back) at e))
  ]
]

put_elsewhere : (path : Text) (bytes : Bytes) (disk : Disk) → OnlyAt path disk (put path bytes disk)
unfolding OnlyAt put
put_elsewhere path bytes disk asked e = rw e refl

without_elsewhere : (path : Text) (disk : Disk) → OnlyAt path disk (without_file path disk)
unfolding OnlyAt without_file
without_elsewhere path disk asked e = rw e refl

-- One round puts its target back, and leaves every other path.
restore_one-IsBack :
    (failures : Text → Option Text) (entry : RollbackRecord) (disk left : Disk)
    → restore_one failures entry disk ≡ ok left
    → OnlyAt entry.path disk left × IsBack left entry
unfolding restore_one IsBack
restore_one-IsBack failures entry disk left e = elim (Bool-cases entry.existed_before) [
  | inl b ↦
      let (same, back) =
        write_back-eq-ok (failures entry.path) entry.path entry.before_bytes disk left
          (rw (b, restore_one) at e) in
      (
        subst (OnlyAt entry.path disk) same (put_elsewhere entry.path entry.before_bytes disk),
        rw (b, IsBack) back,
      )
  | inr b ↦
      let (same, fault, gone) =
        delete_created-eq-ok (failures entry.path) entry.path disk left
          (rw (b, restore_one) at e) in
      (
        subst (OnlyAt entry.path disk) same (without_elsewhere entry.path disk),
        rw (b, IsBack) (fault, gone),
      )
]

read_bytes_same :
    (before after : Disk) (path : Text)
    → after path ≡ before path
    → read_bytes after path ≡ read_bytes before path
unfolding read_bytes
read_bytes_same before after path e = rw (e, read_bytes) refl

IsBack-later :
    (before after : Disk) (entry : RollbackRecord)
    → after entry.path ≡ before entry.path
    → IsBack before entry
    → IsBack after entry
unfolding IsBack
IsBack-later before after entry e back = elim (Bool-cases entry.existed_before) [
  | inl b ↦ rw (b, IsBack) (read_bytes_same before after entry.path e ∙ (rw (b, IsBack) at back))
  | inr b ↦
      let (fault, gone) = rw (b, IsBack) at back in
      rw (b, IsBack) (fault, read_bytes_same before after entry.path e ∙ gone)
]

restore_all-IsBack :
    (failures : Text → Option Text) (entries : List RollbackRecord) (disk left : Disk)
    → Distinct entries
    → restore_all failures entries disk ≡ ok left
    → ((asked : Text)
        → any (λ entry. text_eq asked entry.path) entries ≡ false
        → left asked ≡ disk asked)
      × All (IsBack left) entries
unfolding restore_all Distinct any OnlyAt
restore_all-IsBack failures [] disk left d e = (λ asked h. cc, tt)
restore_all-IsBack failures (entry ∷ entries) disk left d e =
    let (mid, one, more) = >>=-eq-ok (restore_one failures entry disk) _ e in
    let (only, back) = restore_one-IsBack failures entry disk mid one in
    let (elsewhere, all_back) = restore_all-IsBack failures entries mid left d.1 more in
    (
      λ asked h.
          let (here, there) =
            none_of (text_eq asked entry.path) (any (λ other. text_eq asked other.path) entries)
              h in
          elsewhere asked there ∙ only asked here,
      (IsBack-later mid left entry (elsewhere entry.path d.0) back, all_back),
    )

never_restored : (stop : Interruption) → answer stop ≡ ok restored → ⊥
unfolding answer
never_restored (failed_at path) e = cc
never_restored (raised error) e = cc

restore_records-restored :
    (failures : Text → Option Text) (records : List RollbackRecord) (disk : Disk)
    → (restore_records failures records disk).0 ≡ ok restored
    → restore_all failures (reversed records) disk ≡ ok (restore_records failures records disk).1
unfolding restore_records
restore_records-restored failures records disk e =
    elim (Result-cases (restore_all failures (reversed records) disk)) [
      | inr (stop, r) ↦ absurd (never_restored stop.0 (rw (r, restore_records) at e))
      | inl (left, r) ↦ rw (r, restore_records) refl
    ]

unless_conflict-IsBack :
    (found : Option Text) (failures : Text → Option Text) (records : List RollbackRecord)
    (disk : Disk)
    → Distinct records
    → (unless_conflict found failures records disk).0 ≡ ok restored
    → All (IsBack (unless_conflict found failures records disk).1) records
unfolding unless_conflict
unless_conflict-IsBack (some path) failures records disk d e = cc
unless_conflict-IsBack none failures records disk d e =
    let left = (restore_records failures records disk).1 in
    let done = restore_records-restored failures records disk e in
    let all_back =
      (restore_all-IsBack failures (reversed records) disk left (Distinct-reversed records d)
        done).1 in
    All-reversed (IsBack left) records all_back

-- A rollback that answers that it restored has put every target back, when no two records are of
-- one path: each file that existed before the edit has the recorded bytes again, and each that
-- did not cannot be read.
pub rollback_edits_inner-restored :
    (sha256_hex : Bytes → Text) (refusal : Option Text) (failures : Text → Option Text)
    (records : List RollbackRecord) (disk : Disk)
    → Distinct records
    → (rollback_edits_inner sha256_hex refusal failures records disk).0 ≡ ok restored
    → All (IsBack (rollback_edits_inner sha256_hex refusal failures records disk).1) records
unfolding rollback_edits_inner
rollback_edits_inner-restored sha refusal failures [] disk d e = tt
rollback_edits_inner-restored sha (some message) failures (entry ∷ entries) disk d e = cc
rollback_edits_inner-restored sha none failures (entry ∷ entries) disk d e =
    unless_conflict-IsBack (find_conflict sha disk (entry ∷ entries)) failures (entry ∷ entries)
      disk d e
