-- ===== src/Edit/Diff/Restored.antt =====
-- A diff of one hunk that is applied to a file, and its reversal to the file that this leaves
-- (src/services/edit.rs: apply_hunks_to_content).
use agent_workspace_hub.Prelude.{
  ℕ, zero, suc, ◌+◌, ◌≡◌, refl, sym, ap, ◌∙◌, inl, inr, List, [], ◌∷◌, ◌++◌, arith, All, All-append,
  get_elem?, take, drop, Text, ok, >>=-eq-ok, ok-injective, Option-cases,
}
use mathlib.Core.Path.{subst}
use agent_workspace_hub.Edit.Matching.{Bytes}
use agent_workspace_hub.Edit.Execute.Splice.{get_elem?-All}
use agent_workspace_hub.Edit.Diff.{
  HunkLine, context, add, del, ParsedHunk, FileLine, target_idx, anchor_terminator, terminator_at,
  compose, remove_count, apply_hunk, apply_sorted, sort_hunks, insert_hunk, enumerate, lines_of, lf,
  repair_last, rebuild, apply_hunks_to_content,
}
use agent_workspace_hub.Edit.Diff.Sides.{texts}
use agent_workspace_hub.Edit.Diff.Undo.{reversed, undo, apply_hunk-undo}
use agent_workspace_hub.Edit.Diff.Rebuild.{
  IsTerminator, IsLineText, IsEnded, lines_of-rebuild, repair_last-ended,
}

-- The text of a line of a hunk.
abbrev pub hunk_text : HunkLine → Bytes
hunk_text (context text) = text
hunk_text (add text) = text
hunk_text (del text) = text

-- The lines of a hunk hold no terminators.
unfoldable pub IsPlainHunk : List HunkLine → Type 0
unfolding IsLineText
IsPlainHunk lines = All (λ l. IsLineText (hunk_text l)) lines

reversed-IsPlainHunk : (lines : List HunkLine) → IsPlainHunk lines → IsPlainHunk (reversed lines)
unfolding IsPlainHunk reversed
reversed-IsPlainHunk [] p = tt
reversed-IsPlainHunk (context text ∷ lines) (t, p) = (t, reversed-IsPlainHunk lines p)
reversed-IsPlainHunk (add text ∷ lines) (t, p) = (t, reversed-IsPlainHunk lines p)
reversed-IsPlainHunk (del text ∷ lines) (t, p) = (t, reversed-IsPlainHunk lines p)

undo-IsPlainHunk : (hunk : ParsedHunk) → IsPlainHunk hunk.lines → IsPlainHunk (undo hunk).lines
unfolding undo
undo-IsPlainHunk hunk p = reversed-IsPlainHunk hunk.lines p

All-take {ℓ κ} : {A : Type ℓ} (P : A → Type κ) (n : ℕ) (xs : List A) → All P xs → All P (take n xs)
All-take P zero xs a = tt
All-take P (suc n) [] a = tt
All-take P (suc n) (x ∷ xs) (p, a) = (p, All-take P n xs a)

All-drop {ℓ κ} : {A : Type ℓ} (P : A → Type κ) (n : ℕ) (xs : List A) → All P xs → All P (drop n xs)
All-drop P zero xs a = a
All-drop P (suc n) [] a = tt
All-drop P (suc n) (x ∷ xs) (p, a) = All-drop P n xs a

terminator_at-IsTerminator :
    (file : List FileLine) (k : ℕ) (fallback : Bytes)
    → All IsEnded file
    → IsTerminator fallback
    → IsTerminator (terminator_at fallback (get_elem? file k))
unfolding terminator_at IsEnded
terminator_at-IsTerminator file k fallback a f = elim (Option-cases (get_elem? file k)) [
  | inl e ↦ rw e f
  | inr (line, e) ↦ rw e ((get_elem?-All IsEnded file k {x = line} a e).1)
]

lf-IsTerminator : IsTerminator lf
unfolding IsTerminator
lf-IsTerminator = inl refl

compose-IsEnded :
    (file : List FileLine) (anchor : Bytes) (position : ℕ) (lines : List HunkLine)
    → All IsEnded file
    → IsTerminator anchor
    → IsPlainHunk lines
    → All IsEnded (compose file anchor position lines)
unfolding compose IsEnded IsPlainHunk
compose-IsEnded file anchor position [] a t p = tt
compose-IsEnded file anchor position (context text ∷ lines) a t (plain, p) = (
  (plain, terminator_at-IsTerminator file position anchor a t),
  compose-IsEnded file anchor (position + 1) lines a t p,
)
compose-IsEnded file anchor position (del text ∷ lines) a t (plain, p) =
    compose-IsEnded file anchor (position + 1) lines a t p
compose-IsEnded file anchor position (add text ∷ lines) a t (plain, p) =
    ((plain, t), compose-IsEnded file anchor position lines a t p)

-- A hunk leaves ended lines when it finds ended lines.
apply_hunk-IsEnded :
    (path : Text) (file : List FileLine) (orig : ℕ) (hunk : ParsedHunk) {result : List FileLine}
    → All IsEnded file
    → IsPlainHunk hunk.lines
    → apply_hunk path file (orig, hunk) ≡ ok result
    → All IsEnded result
unfolding apply_hunk anchor_terminator
apply_hunk-IsEnded path file orig hunk {result = result} a p e =
    let target = target_idx hunk in
    let anchor = anchor_terminator file target in
    let end = target + remove_count hunk.lines in
    let composed = compose file anchor target hunk.lines in
    let made : take target file ++ (composed ++ drop end file) ≡ result = ground arith in
    let t =
      terminator_at-IsTerminator file target (terminator_at lf (get_elem? file 0)) a
        (terminator_at-IsTerminator file 0 lf a lf-IsTerminator) in
    subst (All IsEnded) made (
      All-append IsEnded (take target file) (composed ++ drop end file)
        (All-take IsEnded target file a)
        (All-append IsEnded composed (drop end file)
          (compose-IsEnded file anchor target hunk.lines a t p) (All-drop IsEnded end file a)))

-- A diff of one hunk, on lines.
one_hunk-eq-ok :
    (content : Bytes) (hunk : ParsedHunk) (path : Text) {changed : Bytes}
    → apply_hunks_to_content content (hunk ∷ []) path ≡ ok changed
    → (result : List FileLine) × (apply_hunk path (lines_of content) (0, hunk) ≡ ok result)
      × (rebuild (repair_last content result) ≡ changed)
unfolding apply_hunks_to_content sort_hunks insert_hunk enumerate apply_sorted
one_hunk-eq-ok content hunk path {changed = changed} e =
    let (file, f, e₁) = >>=-eq-ok (apply_sorted path (lines_of content) ((0, hunk) ∷ [])) _ e in
    let (result, r, e₂) = >>=-eq-ok (apply_hunk path (lines_of content) (0, hunk)) _ f in
    let same = ok-injective result file e₂ in
    (result, r, ap (λ lines. rebuild (repair_last content lines)) same ∙ ok-injective _ changed e₁)

one_hunk-ok :
    (content : Bytes) (hunk : ParsedHunk) (path : Text) (file result : List FileLine)
    → lines_of content ≡ file
    → apply_hunk path file (0, hunk) ≡ ok result
    → apply_hunks_to_content content (hunk ∷ []) path ≡ ok (rebuild (repair_last content result))
unfolding apply_hunks_to_content sort_hunks insert_hunk enumerate apply_sorted
one_hunk-ok content hunk path file result e f = rw (e, f) refl

-- A diff of one hunk is taken back, from the file that it leaves, by the diff of the hunk with
-- additions and deletions exchanged: the second is applied without an error, and the lines of the
-- file that it leaves have the texts from before, with LF or CRLF after each as may be. The lines
-- of the file at first are any lines each ended by LF or CRLF, none with a line feed in its text
-- or a carriage return at the end of it, and the texts of the hunk are such texts too.
pub apply_hunks_to_content-undo :
    (path : Text) (lines : List FileLine) (hunk : ParsedHunk) (changed : Bytes)
    → All IsEnded lines
    → IsPlainHunk hunk.lines
    → apply_hunks_to_content (rebuild lines) (hunk ∷ []) path ≡ ok changed
    → (restored : Bytes) × (apply_hunks_to_content changed (undo hunk ∷ []) path ≡ ok restored)
      × (texts (lines_of restored) ≡ texts lines)
apply_hunks_to_content-undo path lines hunk changed a p e =
    let content = rebuild lines in
    let parted = lines_of-rebuild lines a in
    let (result, made, built) = one_hunk-eq-ok content hunk path {changed = changed} e in
    let made = ap (λ f. apply_hunk path f (0, hunk)) (sym parted) ∙ made in
    let ended = apply_hunk-IsEnded path lines 0 hunk {result = result} a p made in
    let again : lines_of changed ≡ result =
      ap lines_of (sym built ∙ ap rebuild (repair_last-ended content result ended))
      ∙ lines_of-rebuild result ended in
    let (restored, taken, same) = apply_hunk-undo path lines 0 hunk result made in
    let back =
      apply_hunk-IsEnded path result 0 (undo hunk) {result = restored} ended
        (undo-IsPlainHunk hunk p) taken in
    (
      rebuild (repair_last changed restored),
      one_hunk-ok changed (undo hunk) path result restored again taken,
      ap (λ ls. texts (lines_of (rebuild ls))) (repair_last-ended changed restored back)
          ∙ ap texts (lines_of-rebuild restored back)
          ∙ same,
    )
