-- ===== src/Edit/Rollback/Tests.antt =====
-- A rollback of one edit after somebody else wrote the file, and one that nobody disturbed. The
-- digest is the content itself.
use agent_workspace_hub.Prelude.{
  ◌≡◌, refl, ◌⊎◌, true, none, List, [], ◌∷◌, any, All, Text, codes, text_eq, ok, err, if◌then◌else◌,
}
use agent_workspace_hub.Edit.Matching.{Bytes}
use agent_workspace_hub.Edit.Model.{write_failure}
use agent_workspace_hub.Edit.Files.{Disk, not_found, read_bytes}
use agent_workspace_hub.Edit.Rollback.{RollbackRecord, conflict, rollback_edits_inner}
use agent_workspace_hub.Edit.Rollback.Records.{Distinct}
use agent_workspace_hub.Edit.Rollback.Restored.{IsBack, rollback_edits_inner-restored}
use agent_workspace_hub.Edit.Rollback.Refusal.{is_as_produced, rollback_edits_inner-refuses}

abbrev digest : Bytes → Text
digest content = content

abbrev disk : Disk
disk path =
    if text_eq path (codes "f") then ok (codes "other") else err (not_found (codes "no file"))

abbrev records : List RollbackRecord
records =
    record {
      edit_id = codes "t";
      path = codes "f";
      existed_before = true;
      before_bytes = codes "old";
      after_hash = codes "new";
    }
    ∷ []

rollback_edits_inner-refuses_example :
    ((path : Text) × (rollback_edits_inner digest none (λ _. none) records disk
        ≡ (ok (conflict path), disk)))
    ⊎ ((message : Text) × (rollback_edits_inner digest none (λ _. none) records disk
          ≡ (err (write_failure [] message), disk)))
unfolding read_bytes any is_as_produced
rollback_edits_inner-refuses_example =
    rollback_edits_inner-refuses digest none (λ _. none) records disk refl

abbrev produced : Disk
produced path =
    if text_eq path (codes "f") then ok (codes "new") else err (not_found (codes "no file"))

rollback_edits_inner-restored_example :
    All (IsBack (rollback_edits_inner digest none (λ _. none) records produced).1) records
unfolding rollback_edits_inner Distinct
rollback_edits_inner-restored_example =
    rollback_edits_inner-restored digest none (λ _. none) records produced (refl, tt) refl
