-- ===== src/Edit/Execute/Empty.antt =====
-- Replacements by the empty text (src/services/edit.rs: replace_internal,
-- verify_replace_semantics).
use agent_workspace_hub.Prelude.{
  ◌≡◌, refl, ap, ◌∙◌, true, false, none, [], ◌∷◌, arith, length, Text, text_eq_refl, ltb, ◌==◌, ok,
  err, ◌>>=◌, ◌>>◌,
}
use agent_workspace_hub.Edit.Matching.{Bytes, find_matches}
use agent_workspace_hub.Edit.Model.{from_content, EditTransaction, semantic_verification_failure}
use agent_workspace_hub.Edit.Files.{
  Disk, max_file_bytes, read_bytes, is_utf8, put, write_atomic_locked,
}
use agent_workspace_hub.Edit.Commit.{verify_live_unchanged, check_semantics}
use agent_workspace_hub.Edit.Commit.Outcome.{written_disk, locked_written}
use agent_workspace_hub.Edit.Commit.Edits.{edit_locked}
use agent_workspace_hub.Edit.Execute.{
  Plan, splice, request, replace_internal, verify_replace_semantics, replace_result,
}
use agent_workspace_hub.Edit.Execute.Splice.{IsText}
use agent_workspace_hub.Edit.Execute.Replace.{Planned, Observed, request-Planned}
use agent_workspace_hub.Edit.Execute.Replaced.{replacing, commit_replace-planned}
use agent_workspace_hub.Edit.Execute.Alone.{alone, read-put, verify_written_put}
use agent_workspace_hub.Edit.Execute.Atomic.{old_not_empty, prepared-IsText, semantics_empty}

verify_live_same :
    (sha256_hex : Bytes → Text) (disk : Disk) (path : Text) (content : Bytes)
    → read_bytes disk path ≡ ok content
    → verify_live_unchanged sha256_hex disk path (from_content sha256_hex path content) ≡ ok tt
unfolding verify_live_unchanged from_content
verify_live_same sha disk path content r =
    rw (r, verify_live_unchanged) (rw (text_eq_refl (sha content)) (ground arith))

write_ok :
    (path : Text) (content : Bytes) (disk : Disk)
    → ltb max_file_bytes (length content) ≡ false
    → write_atomic_locked none path content disk ≡ ok (put path content disk)
unfolding write_atomic_locked
write_ok path content disk s = rw s refl

no_match_of_nothing :
    (content new : Bytes) → new ≡ [] → (length (find_matches content new) == 0) ≡ true
unfolding find_matches
no_match_of_nothing content [] e = refl
no_match_of_nothing content (c ∷ new) e = cc

-- A replacement by the empty text is refused after it was made: whenever it can be planned and
-- written, with no other writer and no failure of the system, the new content is on the disk and
-- the answer is a failed semantic check.
pub replace_internal-empty :
    (sha256_hex : Bytes → Text) (transaction : EditTransaction) (disk : Disk) (plan : Plan)
    → request sha256_hex transaction disk ≡ ok plan
    → plan.new ≡ []
    → IsText plan.old
    → ltb max_file_bytes (length plan.prepared) ≡ false
    → replace_internal sha256_hex (alone none none none) transaction disk ≡ (
      err (
          semantic_verification_failure plan.path
            (from_content sha256_hex plan.path plan.prepared)),
      put plan.path plan.prepared disk,
    )
unfolding replace_internal replacing alone check_semantics written_disk Planned Observed IsText
    is_utf8 splice
replace_internal-empty sha transaction disk plan r empty old size =
    let world = alone none none none in
    let (planned, sole, valid) = request-Planned sha transaction disk {plan = plan} r in
    let ((found, text, before, held), matches, index, selected, prepared, satisfied) = planned in
    let semantics = verify_replace_semantics sha plan.path plan.old plan.new plan.occurrence in
    let after = from_content sha plan.path plan.prepared in
    let written = put plan.path plan.prepared disk in
    let m = old_not_empty transaction plan.path plan.old plan.new plan.occurrence valid sole in
    let fine = prepared-IsText sha transaction disk plan planned m old (ap is_utf8 empty) in
    let got = read-put plan.path plan.prepared disk fine size in
    let same =
      ap (verify_live_unchanged sha disk plan.path) before
      ∙ verify_live_same sha disk plan.path plan.current.content found in
    let locked =
      locked_written sha world plan.path plan.prepared plan.current.before disk same
        (write_ok plan.path plan.prepared disk size) in
    let way =
      edit_locked sha world plan.path plan.prepared plan.current.before semantics disk refl refl in
    let verified = verify_written_put sha plan.path plan.prepared written got in
    let failed =
      semantics_empty sha plan.path plan.old plan.new plan.occurrence written after plan.prepared
        got (no_match_of_nothing plan.prepared plan.new empty) in
    let whole =
      way
      ∙ ap (check_semantics world semantics) locked
      ∙ ap (λ v. check_semantics world semantics (v, written)) verified
      ∙ ap (λ v. (v >> ok after, written)) failed in
    commit_replace-planned sha world transaction.id (request sha transaction disk) disk plan r
    ∙ ap (λ v. (v.0 >>= λ a. ok (replace_result transaction.id plan a), v.1)) whole
