-- ===== src/Edit/LineEdits/Inserted.antt =====
-- The lines of a file after an insertion (src/services/edit.rs: insert_internal).
use agent_workspace_hub.Prelude.{
  ℕ, ◌+◌, ◌-◌, ◌≤◌, ◌≡◌, refl, sym, ap, ◌∙◌, true, [], ◌∷◌, ◌++◌, arith, length, take, drop, Text,
  if◌then◌else◌, ok, leb, >>=-eq-ok, >>-eq-ok, ok-injective,
}
use mathlib.Core.Path.{subst}
use agent_workspace_hub.Edit.Matching.{Bytes}
use agent_workspace_hub.Edit.Lines.{
  line_count, parse, len, insert_offset, insert_at, line_complete, terminator_str,
}
use agent_workspace_hub.Edit.Lines.Pieces.{file_lines, join}
use agent_workspace_hub.Edit.Lines.Spans.{len-line_count, len-parse}
use agent_workspace_hub.Edit.Lines.Insertion.{ends_last_line, insert_offset_lines, insert_at-lines}
use agent_workspace_hub.Edit.Model.{
  EditOperation, replace, insert, delete_range, patch, apply_diff, EditTransaction,
  insert_boundary_out_of_range,
}
use agent_workspace_hub.Edit.Shape.{validate_shape}
use agent_workspace_hub.Edit.Files.{Disk}
use agent_workspace_hub.Edit.Commit.{Preflight, World, first_expected, preflight, check_context}
use agent_workspace_hub.Edit.Commit.Expected.{Satisfied}
use agent_workspace_hub.Edit.Execute.{sole_operation}
use agent_workspace_hub.Edit.Execute.Replace.{
  Observed, Observed-Satisfied, preflight-Observed, sole_operation-eq-ok,
}
use agent_workspace_hub.Edit.LineEdits.{
  LinePlan, LineEditResult, plan_insert, plan_sole_insert, insert_internal,
}
use agent_workspace_hub.Edit.LineEdits.Written.{WrittenAs, commit_plan-eq-ok}

-- What the plan of an insertion holds.
unfoldable InsertPlanned : (Bytes → Text) → EditTransaction → Disk → ℕ → Bytes → LinePlan → Type 0
unfolding Observed Satisfied join file_lines
InsertPlanned sha256_hex transaction disk line content plan =
    Observed sha256_hex plan.path transaction disk plan.current
    × (line ≤ line_count plan.current.content + 1)
    × (plan.prepared ≡ insert_at (parse plan.current.content) plan.current.content line content)
    × Satisfied sha256_hex (first_expected transaction) plan.current.content
        (length (join (take (line - 1) (file_lines plan.current.content))))
        (length (join (take (line - 1) (file_lines plan.current.content))))

in_bound : (line n m : ℕ) → leb line (n + 1) ≡ true → n ≡ m → line ≤ m + 1
in_bound line n m g e = ground arith

plan_insert-InsertPlanned :
    (sha256_hex : Bytes → Text) (transaction : EditTransaction) (disk : Disk) (path : Text)
    (line : ℕ) (content : Bytes) {plan : LinePlan}
    → plan_insert sha256_hex transaction disk path line content ≡ ok plan
    → InsertPlanned sha256_hex transaction disk line content plan × (plan.path ≡ path)
unfolding plan_insert InsertPlanned
plan_insert-InsertPlanned sha transaction disk path line content {plan = plan} e =
    let (current, c, e₁) = >>=-eq-ok (preflight sha path (first_expected transaction) disk) _ e in
    let lines = parse current.content in
    let (g, e₂) =
      >>-eq-ok (leb line (len lines + 1)) (insert_boundary_out_of_range path line (len lines)) _
        e₁ in
    let offset = insert_offset lines line in
    let (anchor, a, e₃) =
      >>=-eq-ok (check_context current (first_expected transaction) offset offset) _ e₂ in
    let observed = preflight-Observed sha path transaction disk {current = current} c in
    let count = (len-line_count current.content).0 in
    subst (λ p. InsertPlanned sha transaction disk line content p × (p.path ≡ path))
      (ok-injective _ plan e₃)
      (
        (
          observed,
          in_bound line (len lines) (line_count current.content) g count,
          refl,
          subst (λ at. Satisfied sha (first_expected transaction) current.content at at)
              (insert_offset_lines current.content line
                (in_bound line (len lines) _ g (len-parse current.content)))
              (Observed-Satisfied sha path transaction disk current offset offset observed a),
        ),
        refl,
      )

plan_sole_insert-InsertPlanned :
    (sha256_hex : Bytes → Text) (transaction : EditTransaction) (disk : Disk)
    (operation : EditOperation) {plan : LinePlan}
    → plan_sole_insert sha256_hex transaction disk operation ≡ ok plan
    → (line : ℕ) × (content : Bytes) × (operation ≡ insert plan.path line content)
      × InsertPlanned sha256_hex transaction disk line content plan
unfolding plan_sole_insert
plan_sole_insert-InsertPlanned sha transaction disk (insert path line content) {plan = plan} e =
    let (planned, same) =
      plan_insert-InsertPlanned sha transaction disk path line content {plan = plan} e in
    (line, content, ap (λ p. insert p line content) (sym same), planned)
plan_sole_insert-InsertPlanned sha transaction disk (replace _ _ _ _) e = cc
plan_sole_insert-InsertPlanned sha transaction disk (delete_range _ _ _) e = cc
plan_sole_insert-InsertPlanned sha transaction disk (patch _ _ _) e = cc
plan_sole_insert-InsertPlanned sha transaction disk (apply_diff _) e = cc

-- An insertion into the file as it was read, and the disk that is left.
unfoldable pub InsertedAs : (Bytes → Text) → World → EditTransaction → Disk → Disk → Type 0
unfolding Observed Satisfied WrittenAs join file_lines ends_last_line terminator_str line_complete
    parse
InsertedAs sha256_hex world transaction disk left =
    (path : Text) × (line : ℕ) × (content : Bytes) × (current : Preflight) × (prepared : Bytes)
    × (transaction.operations ≡ insert path line content ∷ [])
    × Observed sha256_hex path transaction disk current
    × Satisfied sha256_hex (first_expected transaction) current.content
        (length (join (take (line - 1) (file_lines current.content))))
        (length (join (take (line - 1) (file_lines current.content))))
    × WrittenAs sha256_hex world disk path prepared current.before left
    × (file_lines prepared ≡ (
        if ends_last_line current.content line
        then file_lines (current.content ++ terminator_str (parse current.content))
          ++ file_lines (line_complete (parse current.content) content)
        else take (line - 1) (file_lines current.content)
          ++ (file_lines (line_complete (parse current.content) content)
              ++ drop (line - 1) (file_lines current.content))))

-- An insertion that answers with a result has put exactly the inserted lines between the lines of
-- the file as it was read: the request has one operation, the file that was read satisfies the
-- expected state (it has the digest, the size and the number of lines that the state names, and
-- the search from left to right finds the context that it names exactly once, around the
-- boundary), the guard has read a file of the same digest and size, what was written has the lines
-- before the boundary, those of the text with its last line ended, and those after it (after the
-- ended last line, when the boundary is the end of a file whose last line is not ended), and the
-- disk is that of the write with what others did.
pub insert_internal-lines :
    (sha256_hex : Bytes → Text) (world : World) (transaction : EditTransaction) (disk : Disk)
    (result : LineEditResult)
    → (insert_internal sha256_hex world transaction disk).0 ≡ ok result
    → InsertedAs sha256_hex world transaction disk
        (insert_internal sha256_hex world transaction disk).1
unfolding InsertedAs insert_internal InsertPlanned
insert_internal-lines sha world transaction disk result e =
    let (plan, planned, written) =
      commit_plan-eq-ok sha world transaction.id _ disk {result = result} e in
    let (valid, v, e₁) = >>=-eq-ok (validate_shape transaction) _ planned in
    let (operation, o, e₂) = >>=-eq-ok (sole_operation transaction.operations) _ e₁ in
    let (line, content, same, (observed, within, prepared, satisfied)) =
      plan_sole_insert-InsertPlanned sha transaction disk operation {plan = plan} e₂ in
    (
      plan.path,
      line,
      content,
      plan.current,
      plan.prepared,
      sole_operation-eq-ok _ _ o ∙ ap (λ op. op ∷ []) same,
      observed,
      satisfied,
      written,
      ap file_lines prepared ∙ insert_at-lines plan.current.content line content within,
    )
