-- ===== src/Edit/Diff/Sides.antt =====
-- A hunk as the replacement of its old side by its new side (src/services/edit.rs:
-- apply_hunks_to_content).
use agent_workspace_hub.Prelude.{
  ℕ, zero, suc, ◌+◌, ◌≤◌, ◌≡◌, refl, sym, ap, ◌∙◌, inl, inr, Bool, true, false, ◌&&◌, none, some,
  List, [], ◌∷◌, ◌++◌, arith, map, length, get_elem?, take, drop, Text, text_eq, text_eq_iff, ok,
  leb, Option-cases, &&-eq-true, >>-eq-ok, ok-injective,
}
use mathlib.Core.Option.{some-injective}
use agent_workspace_hub.Edit.Matching.{Bytes}
use agent_workspace_hub.Edit.Model.{hunk_context_mismatch}
use agent_workspace_hub.Edit.Diff.{
  HunkLine, context, add, del, ParsedHunk, FileLine, hunk_fits, target_idx, anchor_terminator,
  compose, remove_count, apply_hunk,
}

-- The texts that a hunk expects, and those that it leaves.
unfoldable pub old_side : List HunkLine → List Bytes
old_side [] = []
old_side (context text ∷ lines) = text ∷ old_side lines
old_side (del text ∷ lines) = text ∷ old_side lines
old_side (add _ ∷ lines) = old_side lines

unfoldable pub new_side : List HunkLine → List Bytes
new_side [] = []
new_side (context text ∷ lines) = text ∷ new_side lines
new_side (del _ ∷ lines) = new_side lines
new_side (add text ∷ lines) = text ∷ new_side lines

unfoldable pub texts : List FileLine → List Bytes
texts lines = map (λ line. line.text) lines

pub compose-texts :
    (file : List FileLine) (anchor : Bytes) (position : ℕ) (lines : List HunkLine)
    → texts (compose file anchor position lines) ≡ new_side lines
unfolding compose new_side texts
compose-texts file anchor position [] = refl
compose-texts file anchor position (context text ∷ lines) =
    ap (λ ts. text ∷ ts) (compose-texts file anchor (position + 1) lines)
compose-texts file anchor position (del text ∷ lines) =
    compose-texts file anchor (position + 1) lines
compose-texts file anchor position (add text ∷ lines) =
    ap (λ ts. text ∷ ts) (compose-texts file anchor position lines)

drop-get_elem? :
    (file : List FileLine) (k : ℕ) {line : FileLine}
    → get_elem? file k ≡ some line
    → drop k file ≡ line ∷ drop (k + 1) file
drop-get_elem? [] k e = cc
drop-get_elem? (x ∷ file) zero {line = line} e = ap (λ l. l ∷ file) (some-injective x line e)
drop-get_elem? (x ∷ file) (suc k) {line = line} e =
    let next : suc k + 1 ≡ suc (k + 1) = omega arith in
    drop-get_elem? file k {line = line} e ∙ ap (λ n. line ∷ drop n (x ∷ file)) (sym next)

-- A line of the old side is the file's line at the cursor.
one_fits :
    (file : List FileLine) (cursor : ℕ) (expected : Bytes) (later : Bool)
    → elim (get_elem? file cursor) [
      | none ↦ false
      | some line ↦ text_eq line.text expected && later
    ]
      ≡ true
    → (line : FileLine) × (get_elem? file cursor ≡ some line)
      × (line.text ≡ expected)
      × (later ≡ true)
one_fits file cursor expected later h = elim (Option-cases (get_elem? file cursor)) [
  | inl e ↦ cc (rw e at h)
  | inr (line, e) ↦
      let (same, more) = &&-eq-true (text_eq line.text expected) later (rw e at h) in
      (line, e, (text_eq_iff line.text expected).0 same, more)
]

step_texts :
    (file : List FileLine) (cursor n : ℕ) (expected : Bytes) (line : FileLine) (rest : List Bytes)
    → get_elem? file cursor ≡ some line
    → line.text ≡ expected
    → texts (take n (drop (cursor + 1) file)) ≡ rest
    → texts (take (suc n) (drop cursor file)) ≡ expected ∷ rest
unfolding texts
step_texts file cursor n expected line rest e same later =
    ap (λ t. texts (take (suc n) t)) (drop-get_elem? file cursor {line = line} e)
    ∙ ap (λ t. t ∷ texts (take n (drop (cursor + 1) file))) same
    ∙ ap (λ ts. expected ∷ ts) later

hunk_fits-texts :
    (file : List FileLine) (cursor : ℕ) (lines : List HunkLine)
    → hunk_fits file cursor lines ≡ true
    → texts (take (remove_count lines) (drop cursor file)) ≡ old_side lines
unfolding hunk_fits remove_count old_side texts
hunk_fits-texts file cursor [] h = refl
hunk_fits-texts file cursor (context expected ∷ lines) h =
    let (line, e, same, more) =
      one_fits file cursor expected (hunk_fits file (cursor + 1) lines) h in
    step_texts file cursor (remove_count lines) expected line (old_side lines) e same
      (hunk_fits-texts file (cursor + 1) lines more)
hunk_fits-texts file cursor (del expected ∷ lines) h =
    let (line, e, same, more) =
      one_fits file cursor expected (hunk_fits file (cursor + 1) lines) h in
    step_texts file cursor (remove_count lines) expected line (old_side lines) e same
      (hunk_fits-texts file (cursor + 1) lines more)
hunk_fits-texts file cursor (add text ∷ lines) h = hunk_fits-texts file cursor lines h

pub length-old_side : (lines : List HunkLine) → length (old_side lines) ≡ remove_count lines
unfolding old_side remove_count
length-old_side [] = refl
length-old_side (context text ∷ lines) = ap suc (length-old_side lines)
length-old_side (del text ∷ lines) = ap suc (length-old_side lines)
length-old_side (add text ∷ lines) = length-old_side lines

in_file : (target n size m : ℕ) → leb (target + n) size ≡ true → m ≡ n → target + m ≤ size
in_file target n size m h e = ground arith

-- A hunk that is applied has its old side in the file at its place, with every line of it there,
-- and exactly that side is replaced by its new side: the lines before and after it keep their
-- texts and their terminators.
pub apply_hunk-sides :
    (path : Text) (file : List FileLine) (orig : ℕ) (hunk : ParsedHunk) (result : List FileLine)
    → apply_hunk path file (orig, hunk) ≡ ok result
    → (composed : List FileLine) × (result
        ≡ take (target_idx hunk) file
          ++ (composed ++ drop (target_idx hunk + length (old_side hunk.lines)) file))
      × (texts composed ≡ new_side hunk.lines)
      × (texts (take (length (old_side hunk.lines)) (drop (target_idx hunk) file))
          ≡ old_side hunk.lines)
      × (target_idx hunk + length (old_side hunk.lines) ≤ length file)
unfolding apply_hunk
apply_hunk-sides path file orig hunk result e =
    let target = target_idx hunk in
    let fault = hunk_context_mismatch path (orig + 1) in
    let composed = compose file (anchor_terminator file target) target hunk.lines in
    let (fits, e₁) = >>-eq-ok (hunk_fits file target hunk.lines) fault _ e in
    let (inside, e₂) = >>-eq-ok (leb (target + remove_count hunk.lines) (length file)) fault _ e₁ in
    let count = length-old_side hunk.lines in
    (
      composed,
      sym (ok-injective _ result e₂)
          ∙ ap (λ n. take target file ++ (composed ++ drop (target + n) file)) (sym count),
      compose-texts file (anchor_terminator file target) target hunk.lines,
      ap (λ n. texts (take n (drop target file))) count
          ∙ hunk_fits-texts file target hunk.lines fits,
      in_file target (remove_count hunk.lines) (length file) (length (old_side hunk.lines)) inside
          count,
    )
