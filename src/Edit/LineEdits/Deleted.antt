-- ===== src/Edit/LineEdits/Deleted.antt =====
-- The lines of a file after a deletion (src/services/edit.rs: delete_range_internal).
use agent_workspace_hub.Prelude.{
  ℕ, ◌-◌, ◌≤◌, ◌≡◌, refl, sym, ap, ◌∙◌, inl, inr, false, not, Option, some, [], ◌∷◌, ◌++◌, arith,
  length, take, drop, Text, ok, or_err, ltb, leb, ◌||◌, Bool-cases, ◌==◌, >>=-eq-ok, >>-eq-ok,
  ok-injective,
}
use mathlib.Core.Path.{subst}
use mathlib.Core.Option.{some-injective}
use agent_workspace_hub.Edit.Matching.{Bytes}
use agent_workspace_hub.Edit.Lines.{parse, len, is_empty_map, line_span, without_span}
use agent_workspace_hub.Edit.Lines.Pieces.{file_lines, join}
use agent_workspace_hub.Edit.Lines.Spans.{
  len-line_count, len-parse, line_span_lines, without_span-lines,
}
use agent_workspace_hub.Edit.Model.{
  EditOperation, replace, insert, delete_range, patch, apply_diff, ExpectedState, EditTransaction,
  line_out_of_range, empty_file_deletion,
}
use agent_workspace_hub.Edit.Shape.{validate_shape}
use agent_workspace_hub.Edit.Files.{Disk}
use agent_workspace_hub.Edit.Commit.{Preflight, World, first_expected, preflight, check_context}
use agent_workspace_hub.Edit.Commit.Expected.{Satisfied}
use agent_workspace_hub.Edit.Execute.{sole_operation}
use agent_workspace_hub.Edit.Execute.Replace.{
  Observed, Observed-Satisfied, preflight-Observed, sole_operation-eq-ok, or_err-eq-ok,
}
use agent_workspace_hub.Edit.LineEdits.{
  LinePlan, LineEditResult, plan_delete_range, plan_sole_delete_range, delete_range_internal,
}
use agent_workspace_hub.Edit.LineEdits.Written.{WrittenAs, commit_plan-eq-ok}

-- What the plan of a deletion holds.
unfoldable DeletePlanned : (Bytes → Text) → EditTransaction → Disk → ℕ → ℕ → LinePlan → Type 0
unfolding Observed Satisfied join file_lines
DeletePlanned sha256_hex transaction disk start_line end_line plan =
    Observed sha256_hex plan.path transaction disk plan.current
    × (span : ℕ × ℕ) × (line_span (parse plan.current.content) start_line end_line ≡ some span)
    × (plan.prepared ≡ without_span plan.current.content span)
    × Satisfied sha256_hex (first_expected transaction) plan.current.content
        (length (join (take (start_line - 1) (file_lines plan.current.content))))
        (length (join (take end_line (file_lines plan.current.content))))

in_range :
    (a b n : ℕ) → (a == 0 || b == 0 || ltb b a || ltb n b) ≡ false → (1 ≤ a) × (a ≤ b) × (b ≤ n)
in_range a b n t = (ground arith, ground arith, ground arith)

-- A span that was found is of a range of lines that the file has.
line_span_range :
    (content : Bytes) (start_line end_line : ℕ) {span : ℕ × ℕ}
    → line_span (parse content) start_line end_line ≡ some span
    → (1 ≤ start_line) × (start_line ≤ end_line) × (end_line ≤ len (parse content))
unfolding line_span
line_span_range content a b e =
    elim (Bool-cases (a == 0 || b == 0 || ltb b a || ltb (len (parse content)) b)) [
      | inl t ↦ cc (rw (t, line_span) at e)
      | inr t ↦ in_range a b (len (parse content)) t
    ]

range-Satisfied :
    (sha256_hex : Bytes → Text) (expected : Option ExpectedState) (content : Bytes)
    (start_line end_line : ℕ) (span : ℕ × ℕ)
    → line_span (parse content) start_line end_line ≡ some span
    → Satisfied sha256_hex expected content span.0 span.1
    → Satisfied sha256_hex expected content
        (length (join (take (start_line - 1) (file_lines content))))
        (length (join (take end_line (file_lines content))))
range-Satisfied sha expected content a b span e =
    let (one, order, within) = line_span_range content a b {span = span} e in
    let lines = line_span_lines content a b one order (omega (arith, within, len-parse content)) in
    subst (λ s. Satisfied sha expected content s.0 s.1) (some-injective _ _ (sym e ∙ lines))

plan_delete_range-DeletePlanned :
    (sha256_hex : Bytes → Text) (transaction : EditTransaction) (disk : Disk) (path : Text)
    (start_line end_line : ℕ) {plan : LinePlan}
    → plan_delete_range sha256_hex transaction disk path start_line end_line ≡ ok plan
    → DeletePlanned sha256_hex transaction disk start_line end_line plan × (plan.path ≡ path)
unfolding plan_delete_range DeletePlanned
plan_delete_range-DeletePlanned sha transaction disk path start_line end_line {plan = plan} e =
    let (current, c, e₁) = >>=-eq-ok (preflight sha path (first_expected transaction) disk) _ e in
    let lines = parse current.content in
    let outside = line_out_of_range path start_line end_line (len lines) in
    let (g, e₂) = >>-eq-ok (not (is_empty_map lines)) (empty_file_deletion path) _ e₁ in
    let (h, e₃) = >>-eq-ok (leb end_line (len lines)) outside _ e₂ in
    let (span, s, e₄) = >>=-eq-ok (or_err (line_span lines start_line end_line) outside) _ e₃ in
    let (anchor, a, e₅) =
      >>=-eq-ok (check_context current (first_expected transaction) span.0 span.1) _ e₄ in
    let observed = preflight-Observed sha path transaction disk {current = current} c in
    subst (λ p. DeletePlanned sha transaction disk start_line end_line p × (p.path ≡ path))
      (ok-injective _ plan e₅)
      (
        (
          observed,
          span,
          or_err-eq-ok _ _ s,
          refl,
          range-Satisfied sha (first_expected transaction) current.content start_line end_line span
              (or_err-eq-ok _ _ s)
              (Observed-Satisfied sha path transaction disk current span.0 span.1 observed a),
        ),
        refl,
      )

plan_sole_delete_range-DeletePlanned :
    (sha256_hex : Bytes → Text) (transaction : EditTransaction) (disk : Disk)
    (operation : EditOperation) {plan : LinePlan}
    → plan_sole_delete_range sha256_hex transaction disk operation ≡ ok plan
    → (start_line : ℕ) × (end_line : ℕ) × (operation ≡ delete_range plan.path start_line end_line)
      × DeletePlanned sha256_hex transaction disk start_line end_line plan
unfolding plan_sole_delete_range
plan_sole_delete_range-DeletePlanned sha transaction disk (delete_range path start_line end_line)
      {plan = plan} e =
    let (planned, same) =
      plan_delete_range-DeletePlanned sha transaction disk path start_line end_line {plan = plan}
        e in
    (start_line, end_line, ap (λ p. delete_range p start_line end_line) (sym same), planned)
plan_sole_delete_range-DeletePlanned sha transaction disk (replace _ _ _ _) e = cc
plan_sole_delete_range-DeletePlanned sha transaction disk (insert _ _ _) e = cc
plan_sole_delete_range-DeletePlanned sha transaction disk (patch _ _ _) e = cc
plan_sole_delete_range-DeletePlanned sha transaction disk (apply_diff _) e = cc

deleted_lines :
    (content : Bytes) (start_line end_line : ℕ) (span : ℕ × ℕ)
    → line_span (parse content) start_line end_line ≡ some span
    → file_lines (without_span content span)
      ≡ take (start_line - 1) (file_lines content) ++ drop end_line (file_lines content)
deleted_lines content a b span e =
    let (one, order, within) = line_span_range content a b {span = span} e in
    let (found, f, lines) =
      without_span-lines content a b one order
        (omega (arith, within, (len-line_count content).0)) in
    subst
      (λ s.
        file_lines (without_span content s)
        ≡ take (a - 1) (file_lines content) ++ drop b (file_lines content))
      (some-injective _ _ (sym f ∙ e)) lines

-- A deletion of lines of the file as it was read, and the disk that is left.
unfoldable pub DeletedAs : (Bytes → Text) → World → EditTransaction → Disk → Disk → Type 0
unfolding Observed Satisfied WrittenAs join file_lines
DeletedAs sha256_hex world transaction disk left =
    (path : Text) × (start_line : ℕ) × (end_line : ℕ) × (current : Preflight) × (prepared : Bytes)
    × (transaction.operations ≡ delete_range path start_line end_line ∷ [])
    × Observed sha256_hex path transaction disk current
    × Satisfied sha256_hex (first_expected transaction) current.content
        (length (join (take (start_line - 1) (file_lines current.content))))
        (length (join (take end_line (file_lines current.content))))
    × WrittenAs sha256_hex world disk path prepared current.before left
    × (file_lines prepared
        ≡ take (start_line - 1) (file_lines current.content)
          ++ drop end_line (file_lines current.content))

-- A deletion that answers with a result has removed exactly the lines of the range from the file
-- as it was read: the request has one operation, the file that was read satisfies the expected
-- state (it has the digest, the size and the number of lines that the state names, and the search
-- from left to right finds the context that it names exactly once, around the range), the guard
-- has read a file of the same digest and size, what was written has the lines before the range and
-- those after it, and the disk is that of the write with what others did.
pub delete_range_internal-lines :
    (sha256_hex : Bytes → Text) (world : World) (transaction : EditTransaction) (disk : Disk)
    (result : LineEditResult)
    → (delete_range_internal sha256_hex world transaction disk).0 ≡ ok result
    → DeletedAs sha256_hex world transaction disk
        (delete_range_internal sha256_hex world transaction disk).1
unfolding DeletedAs delete_range_internal DeletePlanned
delete_range_internal-lines sha world transaction disk result e =
    let (plan, planned, written) =
      commit_plan-eq-ok sha world transaction.id _ disk {result = result} e in
    let (valid, v, e₁) = >>=-eq-ok (validate_shape transaction) _ planned in
    let (operation, o, e₂) = >>=-eq-ok (sole_operation transaction.operations) _ e₁ in
    let (a, b, same, (observed, span, found, prepared, satisfied)) =
      plan_sole_delete_range-DeletePlanned sha transaction disk operation {plan = plan} e₂ in
    (
      plan.path,
      a,
      b,
      plan.current,
      plan.prepared,
      sole_operation-eq-ok _ _ o ∙ ap (λ op. op ∷ []) same,
      observed,
      satisfied,
      written,
      ap file_lines prepared ∙ deleted_lines plan.current.content a b span found,
    )
