-- ===== src/Edit/LineEdits/Written.antt =====
-- What a line edit that answers with a result has done to the disk (src/services/edit.rs:
-- insert_internal, delete_range_internal).
use agent_workspace_hub.Prelude.{
  ◌≡◌, refl, sym, ap, ◌∙◌, inl, inr, length, Text, Result, ok, err, ◌>>=◌, Result-cases, >>=-eq-ok,
}
use agent_workspace_hub.Edit.Matching.{Bytes}
use agent_workspace_hub.Edit.Model.{FileState, EditError}
use agent_workspace_hub.Edit.Files.{Disk, read_bytes}
use agent_workspace_hub.Edit.Commit.{World, commit_edit}
use agent_workspace_hub.Edit.Commit.Outcome.{verify_live_unchanged-eq-ok, written_disk}
use agent_workspace_hub.Edit.Commit.Edits.{commit_edit-eq-ok}
use agent_workspace_hub.Edit.LineEdits.{LinePlan, LineEditResult, commit_plan, line_result}

commit_plan_refused :
    (sha256_hex : Bytes → Text) (world : World) (id : Text) (planned : Result EditError LinePlan)
    (disk : Disk) (error : EditError)
    → planned ≡ err error
    → commit_plan sha256_hex world id planned disk ≡ (err error, disk)
unfolding commit_plan
commit_plan_refused sha world id planned disk error e = rw (e, commit_plan) refl

unfoldable pub editing :
    (Bytes → Text) → World → LinePlan → Disk → Result EditError FileState × Disk
unfolding commit_edit
editing sha256_hex world plan disk =
    commit_edit sha256_hex world plan.path plan.prepared plan.current.before plan.semantics disk

commit_plan_planned :
    (sha256_hex : Bytes → Text) (world : World) (id : Text) (planned : Result EditError LinePlan)
    (disk : Disk) (plan : LinePlan)
    → planned ≡ ok plan
    → commit_plan sha256_hex world id planned disk ≡ (
      (editing sha256_hex world plan disk).0 >>= λ after. ok (line_result id plan after),
      (editing sha256_hex world plan disk).1,
    )
unfolding commit_plan editing
commit_plan_planned sha world id planned disk plan e = rw (e, commit_plan) refl

-- The write of a plan: the guard has read a file of the digest and the size that the plan was made
-- from, and the disk is that of the write with what others did.
unfoldable pub WrittenAs : (Bytes → Text) → World → Disk → Text → Bytes → FileState → Disk → Type 0
unfolding written_disk
WrittenAs sha256_hex world disk path prepared before left =
    (live : Bytes) × (read_bytes (world.before_guard disk) path ≡ ok live)
    × (sha256_hex live ≡ before.hash)
    × (length live ≡ before.size)
    × (left ≡ world.before_check (written_disk world path prepared (world.before_guard disk)))

pub commit_plan-eq-ok :
    (sha256_hex : Bytes → Text) (world : World) (id : Text) (planned : Result EditError LinePlan)
    (disk : Disk) {result : LineEditResult}
    → (commit_plan sha256_hex world id planned disk).0 ≡ ok result
    → (plan : LinePlan) × (planned ≡ ok plan)
      × WrittenAs sha256_hex world disk plan.path plan.prepared plan.current.before
          (commit_plan sha256_hex world id planned disk).1
unfolding WrittenAs editing
commit_plan-eq-ok sha world id planned disk e = elim (Result-cases planned) [
  | inr (error, r) ↦ cc (e, ap (λ p. p.0) (commit_plan_refused sha world id planned disk error r))
  | inl (plan, r) ↦
      let way = commit_plan_planned sha world id planned disk plan r in
      let (after, fine, same) =
        >>=-eq-ok (editing sha world plan disk).0 _ (sym (ap (λ p. p.0) way) ∙ e) in
      let (unchanged, verified, left) =
        commit_edit-eq-ok sha world plan.path plan.prepared plan.current.before plan.semantics disk
          after fine in
      let (live, found, digest, size) =
        verify_live_unchanged-eq-ok sha (world.before_guard disk) plan.path plan.current.before
          unchanged in
      (plan, r, (live, found, digest, size, ap (λ p. p.1) way ∙ left))
]
