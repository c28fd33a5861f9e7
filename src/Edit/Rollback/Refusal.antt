-- ===== src/Edit/Rollback/Refusal.antt =====
-- Rollbacks after somebody else wrote (src/services/edit.rs: rollback_edits_inner).
use agent_workspace_hub.Prelude.{
  ◌≡◌, refl, ap, sym, ◌∙◌, ◌⊎◌, inl, inr, Bool, true, false, not, ◌||◌, Option, none, some, List,
  [], ◌∷◌, any, Text, text_eq, ok, err, Result-cases, Bool-cases,
}
use agent_workspace_hub.Edit.Matching.{Bytes}
use agent_workspace_hub.Edit.Model.{write_failure}
use agent_workspace_hub.Edit.Files.{Disk, read_bytes}
use agent_workspace_hub.Edit.Rollback.{
  RollbackRecord, conflict, find_conflict, unless_conflict, rollback_edits_inner,
}

-- Whether a target can be read and has the digest of the state that the edit produced.
unfoldable pub is_as_produced : (Bytes → Text) → Disk → RollbackRecord → Bool
unfolding read_bytes text_eq
is_as_produced sha256_hex disk entry = elim (read_bytes disk entry.path) [
  | err _ ↦ false
  | ok bytes ↦ text_eq (sha256_hex bytes) entry.after_hash
]

find_conflict-some :
    (sha256_hex : Bytes → Text) (disk : Disk) (records : List RollbackRecord)
    → any (λ entry. not (is_as_produced sha256_hex disk entry)) records ≡ true
    → (path : Text) × (find_conflict sha256_hex disk records ≡ some path)
unfolding any is_as_produced find_conflict
find_conflict-some sha disk [] a = cc
find_conflict-some sha disk (entry ∷ records) a = elim (Result-cases (read_bytes disk entry.path)) [
  | inr (fault, e) ↦ (entry.path, rw (e, find_conflict) refl)
  | inl (bytes, e) ↦ elim (Bool-cases (text_eq (sha bytes) entry.after_hash)) [
    | inr t ↦ (entry.path, rw (e, find_conflict) (rw t refl))
    | inl t ↦
        let here : is_as_produced sha disk entry ≡ true = rw (e, is_as_produced) t in
        let later =
          ap (λ b. not b || any (λ other. not (is_as_produced sha disk other)) records) (sym here)
          ∙ a in
        let (path, found) = find_conflict-some sha disk records later in
        (path, rw (e, find_conflict) (rw t found))
  ]
]

-- A rollback never destroys later work: when one of the targets is gone or has not the digest of
-- the state that the edit produced, the answer is a conflict, or an error when the locks were
-- refused, and no file at all is touched, whatever the other targets are.
pub rollback_edits_inner-refuses :
    (sha256_hex : Bytes → Text) (refusal : Option Text) (failures : Text → Option Text)
    (records : List RollbackRecord) (disk : Disk)
    → any (λ entry. not (is_as_produced sha256_hex disk entry)) records ≡ true
    → ((path : Text) × (rollback_edits_inner sha256_hex refusal failures records disk
          ≡ (ok (conflict path), disk)))
      ⊎ ((message : Text) × (rollback_edits_inner sha256_hex refusal failures records disk
            ≡ (err (write_failure [] message), disk)))
unfolding rollback_edits_inner unless_conflict any
rollback_edits_inner-refuses sha refusal failures [] disk a = cc
rollback_edits_inner-refuses sha (some message) failures (entry ∷ entries) disk a =
    inr (message, refl)
rollback_edits_inner-refuses sha none failures (entry ∷ entries) disk a =
    let (path, found) = find_conflict-some sha disk (entry ∷ entries) a in
    inl (path, ap (λ f. unless_conflict f failures (entry ∷ entries) disk) found)
