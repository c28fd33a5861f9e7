-- ===== src/Edit/Execute/Replace.antt =====
-- Replacements from the request to the disk (src/services/edit.rs: replace_internal).
use agent_workspace_hub.Prelude.{
  ℕ, ◌+◌, ◌≡◌, refl, sym, ap, ◌∙◌, true, Option, none, some, List, [], ◌∷◌, ◌++◌, arith, take, drop,
  get_elem?, Text, ok, or_err, >>=-eq-ok, ok-injective,
}
use mathlib.Core.Path.{subst}
use agent_workspace_hub.Edit.Matching.{Bytes, find_matches}
use agent_workspace_hub.Edit.Model.{
  EditOperation, replace, insert, delete_range, patch, apply_diff, from_content, EditTransaction,
  match_not_found,
}
use agent_workspace_hub.Edit.Shape.{validate_shape, validate_path}
use agent_workspace_hub.Edit.Files.{Disk, read_bytes, is_utf8}
use agent_workspace_hub.Edit.Commit.{
  Preflight, first_expected, preflight, preflight_read, check_expected, check_context,
}
use agent_workspace_hub.Edit.Commit.Expected.{Satisfied, check-Satisfied}
use agent_workspace_hub.Edit.Execute.{
  Plan, splice, sole_operation, select_index, plan_replace, plan_sole_replace, request,
}

pub sole_operation-eq-ok :
    (operations : List EditOperation) (operation : EditOperation)
    → sole_operation operations ≡ ok operation
    → operations ≡ operation ∷ []
unfolding sole_operation
sole_operation-eq-ok [] operation e = cc
sole_operation-eq-ok (first ∷ []) operation e = cc
sole_operation-eq-ok (first ∷ second ∷ others) operation e = cc

preflight_read-eq-ok :
    (path : Text) (disk : Disk) {content : Bytes}
    → preflight_read path disk ≡ ok content
    → (read_bytes disk path ≡ ok content) × (is_utf8 content ≡ true)
unfolding preflight_read
preflight_read-eq-ok path disk {content = content} e = ground arith

-- What a preflight has found.
unfoldable pub Observed : (Bytes → Text) → Text → EditTransaction → Disk → Preflight → Type 0
Observed sha256_hex path transaction disk current =
    (read_bytes disk path ≡ ok current.content)
    × (is_utf8 current.content ≡ true)
    × (current.before ≡ from_content sha256_hex path current.content)
    × (check_expected (first_expected transaction) current.before ≡ ok tt)

pub preflight-Observed :
    (sha256_hex : Bytes → Text) (path : Text) (transaction : EditTransaction) (disk : Disk)
    {current : Preflight}
    → preflight sha256_hex path (first_expected transaction) disk ≡ ok current
    → Observed sha256_hex path transaction disk current
unfolding preflight Observed
preflight-Observed sha path transaction disk {current = current} e =
    let (valid, v, e₁) = >>=-eq-ok (validate_path path) _ e in
    let (content, c, e₂) = >>=-eq-ok (preflight_read path disk) _ e₁ in
    let (held, h, e₃) =
      >>=-eq-ok (check_expected (first_expected transaction) (from_content sha path content)) _
        e₂ in
    let (found, utf8) = preflight_read-eq-ok path disk {content = content} c in
    subst (Observed sha path transaction disk) (ok-injective _ current e₃) (found, utf8, refl, h)

pub Observed-Satisfied :
    (sha256_hex : Bytes → Text) (path : Text) (transaction : EditTransaction) (disk : Disk)
    (current : Preflight) (span_start span_end : ℕ)
    → Observed sha256_hex path transaction disk current
    → check_context current (first_expected transaction) span_start span_end ≡ ok tt
    → Satisfied sha256_hex (first_expected transaction) current.content span_start span_end
unfolding Observed
Observed-Satisfied sha path transaction disk current span_start span_end (found, utf8, b, h) c =
    check-Satisfied sha path (first_expected transaction) current span_start span_end b h c

-- The plan of a replacement is the selected match of the file as read, spliced, and the file
-- satisfies the expected state around that match.
unfoldable pub Planned : (Bytes → Text) → EditTransaction → Disk → Plan → Type 0
unfolding Observed Satisfied
Planned sha256_hex transaction disk plan =
    Observed sha256_hex plan.path transaction disk plan.current
    × (plan.matches ≡ find_matches plan.current.content plan.old)
    × (select_index plan.path plan.matches plan.occurrence ≡ ok plan.selected_index)
    × (get_elem? plan.matches plan.selected_index ≡ some plan.selected)
    × (plan.prepared
        ≡ (take plan.selected.byte_offset plan.current.content ++ plan.new)
          ++ drop (plan.selected.byte_offset + plan.selected.length) plan.current.content)
    × Satisfied sha256_hex (first_expected transaction) plan.current.content
        plan.selected.byte_offset (plan.selected.byte_offset + plan.selected.length)

pub or_err-eq-ok :
    {E A : Type 0} (o : Option A) (fault : E) {x : A} → or_err o fault ≡ ok x → o ≡ some x
or_err-eq-ok none fault e = cc
or_err-eq-ok (some y) fault e = cc

plan_replace-Planned :
    (sha256_hex : Bytes → Text) (transaction : EditTransaction) (disk : Disk) (path : Text)
    (old new : Bytes) (occurrence : Option ℕ) {plan : Plan}
    → plan_replace sha256_hex transaction disk path old new occurrence ≡ ok plan
    → Planned sha256_hex transaction disk plan
      × (replace plan.path plan.old plan.new plan.occurrence ≡ replace path old new occurrence)
unfolding plan_replace Planned splice
plan_replace-Planned sha transaction disk path old new occurrence {plan = plan} e =
    let (current, c, e₁) = >>=-eq-ok (preflight sha path (first_expected transaction) disk) _ e in
    let (index, i, e₂) =
      >>=-eq-ok (select_index path (find_matches current.content old) occurrence) _ e₁ in
    let (selected, s, e₃) =
      >>=-eq-ok (or_err (get_elem? (find_matches current.content old) index) (match_not_found path))
        _ e₂ in
    let (anchor, a, e₄) =
      >>=-eq-ok
        (check_context current (first_expected transaction) selected.byte_offset
          (selected.byte_offset + selected.length))
        _ e₃ in
    let observed = preflight-Observed sha path transaction disk {current = current} c in
    subst
      (λ p.
        Planned sha transaction disk p
        × (replace p.path p.old p.new p.occurrence ≡ replace path old new occurrence))
      (ok-injective _ plan e₄)
      (
        (
          observed,
          refl,
          i,
          or_err-eq-ok _ _ s,
          refl,
          Observed-Satisfied sha path transaction disk current _ _ observed a,
        ),
        refl,
      )

plan_sole_replace-Planned :
    (sha256_hex : Bytes → Text) (transaction : EditTransaction) (disk : Disk)
    (operation : EditOperation) {plan : Plan}
    → plan_sole_replace sha256_hex transaction disk operation ≡ ok plan
    → Planned sha256_hex transaction disk plan
      × (operation ≡ replace plan.path plan.old plan.new plan.occurrence)
unfolding plan_sole_replace
plan_sole_replace-Planned sha transaction disk (replace path old new occurrence) {plan = plan} e =
    let (planned, same) =
      plan_replace-Planned sha transaction disk path old new occurrence {plan = plan} e in
    (planned, sym same)
plan_sole_replace-Planned sha transaction disk (insert _ _ _) e = cc
plan_sole_replace-Planned sha transaction disk (delete_range _ _ _) e = cc
plan_sole_replace-Planned sha transaction disk (patch _ _ _) e = cc
plan_sole_replace-Planned sha transaction disk (apply_diff _) e = cc

pub request-Planned :
    (sha256_hex : Bytes → Text) (transaction : EditTransaction) (disk : Disk) {plan : Plan}
    → request sha256_hex transaction disk ≡ ok plan
    → Planned sha256_hex transaction disk plan
      × (transaction.operations ≡ replace plan.path plan.old plan.new plan.occurrence ∷ [])
      × (validate_shape transaction ≡ ok tt)
unfolding request
request-Planned sha transaction disk {plan = plan} e =
    let (valid, v, e₁) = >>=-eq-ok (validate_shape transaction) _ e in
    let (operation, o, e₂) = >>=-eq-ok (sole_operation transaction.operations) _ e₁ in
    let (planned, same) =
      plan_sole_replace-Planned sha transaction disk operation {plan = plan} e₂ in
    (planned, sole_operation-eq-ok _ _ o ∙ ap (λ op. op ∷ []) same, v)
