-- ===== src/Edit/Execute/Replaced.antt =====
-- What a replacement that answers with a result has done (src/services/edit.rs:
-- replace_internal).
use agent_workspace_hub.Prelude.{
  ◌≡◌, refl, sym, ap, ◌∙◌, inl, inr, [], ◌∷◌, length, Text, Result, ok, err, ◌>>=◌, Result-cases,
  >>=-eq-ok, ok-injective,
}
use mathlib.Core.Path.{subst}
use agent_workspace_hub.Edit.Matching.{Bytes}
use agent_workspace_hub.Edit.Model.{replace, FileState, EditTransaction, EditError}
use agent_workspace_hub.Edit.Files.{Disk, read_bytes}
use agent_workspace_hub.Edit.Commit.{World, commit_edit, verify_written}
use agent_workspace_hub.Edit.Commit.Outcome.{verify_live_unchanged-eq-ok, written_disk}
use agent_workspace_hub.Edit.Commit.Edits.{commit_edit-eq-ok}
use agent_workspace_hub.Edit.Execute.{
  Plan, request, commit_replace, replace_internal, EditResult, verify_replace_semantics,
  replace_result,
}
use agent_workspace_hub.Edit.Execute.Replace.{Planned, request-Planned}

pub commit_replace-refused :
    (sha256_hex : Bytes → Text) (world : World) (id : Text) (planned : Result EditError Plan)
    (disk : Disk) (error : EditError)
    → planned ≡ err error
    → commit_replace sha256_hex world id planned disk ≡ (err error, disk)
unfolding commit_replace
commit_replace-refused sha world id planned disk error e = rw (e, commit_replace) refl

-- The commit of a plan.
unfoldable pub replacing : (Bytes → Text) → World → Plan → Disk → Result EditError FileState × Disk
unfolding commit_edit verify_replace_semantics
replacing sha256_hex world plan disk =
    commit_edit sha256_hex world plan.path plan.prepared plan.current.before
      (verify_replace_semantics sha256_hex plan.path plan.old plan.new plan.occurrence) disk

pub commit_replace-planned :
    (sha256_hex : Bytes → Text) (world : World) (id : Text) (planned : Result EditError Plan)
    (disk : Disk) (plan : Plan)
    → planned ≡ ok plan
    → commit_replace sha256_hex world id planned disk ≡ (
      (replacing sha256_hex world plan disk).0 >>= λ after. ok (replace_result id plan after),
      (replacing sha256_hex world plan disk).1,
    )
unfolding commit_replace replacing
commit_replace-planned sha world id planned disk plan e = rw (e, commit_replace) refl

-- A replacement of one match in the file as it was read, by a plan, with the live file that the
-- guard has read, the disk that is left, and the result.
unfoldable pub ReplacedAs :
    (Bytes → Text) → World → EditTransaction → Disk → EditResult → Disk → Type 0
unfolding Planned written_disk replace_result
ReplacedAs sha256_hex world transaction disk result left =
    (plan : Plan) × (live : Bytes) × Planned sha256_hex transaction disk plan
    × (transaction.operations ≡ replace plan.path plan.old plan.new plan.occurrence ∷ [])
    × (read_bytes (world.before_guard disk) plan.path ≡ ok live)
    × (sha256_hex live ≡ plan.current.before.hash)
    × (length live ≡ plan.current.before.size)
    × (left
        ≡ world.before_check (written_disk world plan.path plan.prepared (world.before_guard disk)))
    × (verify_written sha256_hex
          (written_disk world plan.path plan.prepared (world.before_guard disk)) plan.path
          plan.prepared
        ≡ ok result.after)
    × (result ≡ replace_result transaction.id plan result.after)

-- A replacement that answers with a result has replaced exactly one match in the file as it was
-- read: there is a plan for the one operation of the request, whose content is what was read and
-- satisfied the expected state (it has the digest, the size and the number of lines that the state
-- names, and the search from left to right finds the context that it names exactly once, around
-- the match), whose match is the selected one of the matches of the old text, and whose prepared
-- content is that content with that match replaced; the guard has read a file of the same digest
-- and size before the write; the disk afterwards is the one of that write with what others did;
-- and the result reports the state before, the number of matches, the selected occurrence, and a
-- state after that the written file was seen to have.
pub replace_internal-eq-ok :
    (sha256_hex : Bytes → Text) (world : World) (transaction : EditTransaction) (disk : Disk)
    (result : EditResult)
    → (replace_internal sha256_hex world transaction disk).0 ≡ ok result
    → ReplacedAs sha256_hex world transaction disk result
        (replace_internal sha256_hex world transaction disk).1
unfolding replace_internal replacing replace_result ReplacedAs
replace_internal-eq-ok sha world transaction disk result e =
    elim (Result-cases (request sha transaction disk)) [
      | inr (error, r) ↦ cc (
        e,
        ap (λ p. p.0)
            (commit_replace-refused sha world transaction.id (request sha transaction disk) disk
              error r),
      )
      | inl (plan, r) ↦
          let way =
            commit_replace-planned sha world transaction.id (request sha transaction disk) disk plan
              r in
          let outcome = replacing sha world plan disk in
          let (after, fine, same) = >>=-eq-ok outcome.0 _ (sym (ap (λ p. p.0) way) ∙ e) in
          let made = ok-injective (replace_result transaction.id plan after) result same in
          let reported = subst (λ a. outcome.0 ≡ ok a) (ap (λ r. r.after) made) fine in
          let (unchanged, verified, left) =
            commit_edit-eq-ok sha world plan.path plan.prepared plan.current.before
              (verify_replace_semantics sha plan.path plan.old plan.new plan.occurrence) disk
              result.after reported in
          let (live, found, digest, size) =
            verify_live_unchanged-eq-ok sha (world.before_guard disk) plan.path plan.current.before
              unchanged in
          let (planned, sole, valid) = request-Planned sha transaction disk {plan = plan} r in
          (
            plan,
            live,
            planned,
            sole,
            found,
            digest,
            size,
            ap (λ p. p.1) way ∙ left,
            verified,
            sym made ∙ ap (λ a. replace_result transaction.id plan a) (ap (λ r. r.after) made),
          )
    ]
