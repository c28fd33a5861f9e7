-- ===== src/Edit/Execute/Atomic.antt =====
-- Errors of replacements with no other writer (src/services/edit.rs: replace_internal,
-- verify_replace_semantics).
use agent_workspace_hub.Prelude.{
  ℕ, ◌≡◌, refl, sym, ap, ◌∙◌, ◌⊎◌, inl, inr, true, false, not, ◌||◌, Option, [], ◌∷◌, arith, length,
  is_empty, get_elem?, Text, ◌==◌, ok, err, ◌>>=◌, ◌>>◌, Result-cases, >>=-eq-ok, >>-eq-ok,
}
use mathlib.Core.Path.{subst}
use agent_workspace_hub.Edit.Matching.{Bytes, find_matches}
use agent_workspace_hub.Edit.Matching.Occurrences.{IsMatch, find_matches-IsMatch}
use agent_workspace_hub.Edit.Model.{
  replace, FileState, from_content, EditTransaction, EditError, semantic_verification_failure,
  empty_match, empty_transaction, expected_state_count,
}
use agent_workspace_hub.Edit.Shape.{
  validate_shape, validate_expected, validate_references, validate_operations, validate_operation,
  validate_path,
}
use agent_workspace_hub.Edit.Files.{Disk, is_utf8, read, put}
use agent_workspace_hub.Edit.Execute.{
  Plan, splice, request, replace_internal, verify_replace_semantics, observe, replace_result,
}
use agent_workspace_hub.Edit.Execute.Splice.{IsText, splice-IsText, splice-contains, get_elem?-All}
use agent_workspace_hub.Edit.Execute.Replace.{Planned, Observed, request-Planned}
use agent_workspace_hub.Edit.Execute.Replaced.{
  replacing, commit_replace-planned, commit_replace-refused,
}
use agent_workspace_hub.Edit.Execute.Alone.{alone, Stopped, Written, alone-cases}

observe_ok :
    (disk : Disk) (path : Text) (observed : Bytes)
    → read disk path ≡ ok observed
    → observe disk path ≡ ok observed
unfolding observe
observe_ok disk path observed r = rw (r, observe) refl

semantics_found :
    (sha256_hex : Bytes → Text) (path : Text) (old new : Bytes) (occurrence : Option ℕ)
    (disk : Disk) (after : FileState) (observed : Bytes)
    → read disk path ≡ ok observed
    → (length (find_matches observed new) == 0) ≡ false
    → verify_replace_semantics sha256_hex path old new occurrence disk after ≡ ok tt
unfolding verify_replace_semantics
semantics_found sha path old new occurrence disk after observed r n =
    rw (observe_ok disk path observed r) (ground (arith, n))

pub semantics_empty :
    (sha256_hex : Bytes → Text) (path : Text) (old new : Bytes) (occurrence : Option ℕ)
    (disk : Disk) (after : FileState) (observed : Bytes)
    → read disk path ≡ ok observed
    → (length (find_matches observed new) == 0) ≡ true
    → verify_replace_semantics sha256_hex path old new occurrence disk after
      ≡ err (semantic_verification_failure path (from_content sha256_hex path observed))
unfolding verify_replace_semantics
semantics_empty sha path old new occurrence disk after observed r n =
    rw (observe_ok disk path observed r) (ground (arith, n))

sole_not_empty :
    (path : Text) (old new : Bytes) (occurrence : Option ℕ)
    → validate_operations (replace path old new occurrence ∷ []) ≡ ok tt
    → is_empty old ≡ false
unfolding validate_operations validate_operation
sole_not_empty path old new occurrence v =
    let (g, h, v₅) = >>=-eq-ok (validate_operation (replace path old new occurrence)) _ v in
    let (i, j, v₆) = >>=-eq-ok (validate_path path) _ h in
    let (k, v₇) = >>-eq-ok (not (is_empty old)) empty_match _ v₆ in ground (arith, k)

-- A request of the right shape looks for some text.
pub old_not_empty :
    (transaction : EditTransaction) (path : Text) (old new : Bytes) (occurrence : Option ℕ)
    → validate_shape transaction ≡ ok tt
    → transaction.operations ≡ replace path old new occurrence ∷ []
    → is_empty old ≡ false
unfolding validate_shape validate_operations validate_operation
old_not_empty transaction path old new occurrence v o =
    let (a, v₁) = >>-eq-ok (not (length transaction.operations == 0)) empty_transaction _ v in
    let counted =
      length transaction.expected == 0
      || length transaction.expected == length transaction.operations in
    let fault =
      expected_state_count (length transaction.operations) (length transaction.expected) in
    let (b, v₂) = >>-eq-ok counted fault _ v₁ in
    let (c, d, v₃) = >>=-eq-ok (validate_expected transaction.expected) _ v₂ in
    let (e, f, v₄) = >>=-eq-ok (validate_references transaction.identity transaction.refs) _ v₃ in
    sole_not_empty path old new occurrence (ap validate_operations (sym o) ∙ v₄)

-- What is prepared from text by text is text.
pub prepared-IsText :
    (sha256_hex : Bytes → Text) (transaction : EditTransaction) (disk : Disk) (plan : Plan)
    → Planned sha256_hex transaction disk plan
    → is_empty plan.old ≡ false
    → IsText plan.old
    → IsText plan.new
    → IsText plan.prepared
unfolding Planned Observed IsText splice
prepared-IsText sha transaction disk plan
      ((found, text, before, held), matches, index, selected, prepared, satisfied) n old new =
    let all_match = (find_matches-IsMatch plan.current.content plan.old).0 in
    let at = ap (λ ms. get_elem? ms plan.selected_index) (sym matches) ∙ selected in
    let placed =
      get_elem?-All (IsMatch plan.current.content plan.old)
        (find_matches plan.current.content plan.old) plan.selected_index {x = plan.selected}
        all_match at in
    ap is_utf8 prepared
    ∙ splice-IsText plan.current.content plan.old plan.new plan.selected n text old new placed

found_in_plan :
    (sha256_hex : Bytes → Text) (transaction : EditTransaction) (disk : Disk) (plan : Plan)
    → Planned sha256_hex transaction disk plan
    → is_empty plan.new ≡ false
    → (length (find_matches plan.prepared plan.new) == 0) ≡ false
unfolding Planned splice
found_in_plan sha transaction disk plan (observed, matches, index, selected, prepared, satisfied)
      n =
    ap (λ t. length (find_matches t plan.new) == 0) prepared
    ∙ splice-contains plan.current.content plan.selected plan.new n

-- A planned replacement by text that is not empty stops with the disk as it was, or succeeds.
replacing-cases :
    (sha256_hex : Bytes → Text) (capture : Option EditError) (refusal staging : Option Text)
    (transaction : EditTransaction) (disk : Disk) (plan : Plan)
    → Planned sha256_hex transaction disk plan
    → is_empty plan.old ≡ false
    → IsText plan.old
    → IsText plan.new
    → is_empty plan.new ≡ false
    → ((error : EditError) × (replacing sha256_hex (alone capture refusal staging) plan disk
          ≡ (err error, disk)))
      ⊎ ((after : FileState) × ((replacing sha256_hex (alone capture refusal staging) plan disk).0
            ≡ ok after))
unfolding replacing Stopped Written
replacing-cases sha capture refusal staging transaction disk plan planned m old new n =
    let semantics = verify_replace_semantics sha plan.path plan.old plan.new plan.occurrence in
    let text = prepared-IsText sha transaction disk plan planned m old new in
    let after = from_content sha plan.path plan.prepared in
    let written = put plan.path plan.prepared disk in
    elim (alone-cases sha capture refusal staging plan.path plan.prepared plan.current.before
      semantics disk text) [
        | inl stopped ↦ inl stopped
        | inr (way, got) ↦
            let passed =
              semantics_found sha plan.path plan.old plan.new plan.occurrence written after
                plan.prepared got (found_in_plan sha transaction disk plan planned n) in
            inr (after, ap (λ p. p.0) way ∙ ap (λ r. r >> ok after) passed)
      ]

same_old :
    (plan : Plan) (path : Text) (old new : Bytes) (occurrence : Option ℕ)
    → replace plan.path plan.old plan.new plan.occurrence ∷ []
      ≡ replace path old new occurrence ∷ []
    → old ≡ plan.old
same_old plan path old new occurrence e = cc

same_new :
    (plan : Plan) (path : Text) (old new : Bytes) (occurrence : Option ℕ)
    → replace plan.path plan.old plan.new plan.occurrence ∷ []
      ≡ replace path old new occurrence ∷ []
    → new ≡ plan.new
same_new plan path old new occurrence e = cc

-- With no other writer, a replacement by a text that is not empty is all or nothing: when it
-- answers with an error, the disk is as it was before.
pub replace_internal-atomic :
    (sha256_hex : Bytes → Text) (capture : Option EditError) (refusal staging : Option Text)
    (transaction : EditTransaction) (disk : Disk) (path : Text) (old new : Bytes)
    (occurrence : Option ℕ) (error : EditError)
    → transaction.operations ≡ replace path old new occurrence ∷ []
    → IsText old
    → IsText new
    → is_empty new ≡ false
    → (replace_internal sha256_hex (alone capture refusal staging) transaction disk).0 ≡ err error
    → (replace_internal sha256_hex (alone capture refusal staging) transaction disk).1 ≡ disk
unfolding replace_internal
replace_internal-atomic sha capture refusal staging transaction disk path old new occurrence error o
      t u n e =
    let world = alone capture refusal staging in
    elim (Result-cases (request sha transaction disk)) [
      | inr (fault, r) ↦
          ap (λ p. p.1)
            (commit_replace-refused sha world transaction.id (request sha transaction disk) disk
              fault r)
      | inl (plan, r) ↦
          let (planned, sole, valid) = request-Planned sha transaction disk {plan = plan} r in
          let same = sym sole ∙ o in
          let m =
            old_not_empty transaction plan.path plan.old plan.new plan.occurrence valid sole in
          let way =
            commit_replace-planned sha world transaction.id (request sha transaction disk) disk plan
              r in
          elim (replacing-cases sha capture refusal staging transaction disk plan planned m
            (subst IsText (same_old plan path old new occurrence same) t)
            (subst IsText (same_new plan path old new occurrence same) u)
            (ap is_empty (sym (same_new plan path old new occurrence same)) ∙ n)) [
              | inl (fault, stopped) ↦ ap (λ p. p.1) way ∙ ap (λ p. p.1) stopped
              | inr (after, done) ↦ cc (
                e,
                ap (λ p. p.0) way,
                ap (λ a. a >>= λ b. ok (replace_result transaction.id plan b)) done,
              )
            ]
    ]
