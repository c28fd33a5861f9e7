-- ===== src/Edit/Diff/Undo.antt =====
-- The reversal of a hunk (src/services/edit.rs: apply_hunks_to_content).
use agent_workspace_hub.Prelude.{
  ℕ, suc, ◌+◌, ◌≡◌, refl, sym, ap, ◌∙◌, Bool, true, false, ◌&&◌, Option, none, some, List, [], ◌∷◌,
  ◌++◌, arith, length, get_elem?, take, drop, length-append, length-take, take_prefix, drop_prefix,
  take-append-drop, drop-drop, Text, text_eq, text_eq_refl, ok, leb,
}
use mathlib.Core.List.{append_assoc}
use mathlib.Core.Option.{some-injective}
use agent_workspace_hub.Edit.Matching.{Bytes}
use agent_workspace_hub.Edit.Diff.{
  HunkLine, context, add, del, ParsedHunk, FileLine, hunk_fits, target_idx, anchor_terminator,
  compose, remove_count, apply_hunk,
}
use agent_workspace_hub.Edit.Diff.Sides.{
  old_side, new_side, texts, length-old_side, compose-texts, apply_hunk-sides,
}

-- The lines of a hunk with additions and deletions exchanged.
unfoldable pub reversed : List HunkLine → List HunkLine
reversed [] = []
reversed (context text ∷ lines) = context text ∷ reversed lines
reversed (del text ∷ lines) = add text ∷ reversed lines
reversed (add text ∷ lines) = del text ∷ reversed lines

-- The hunk that takes back a hunk, at the same place.
unfoldable pub undo : ParsedHunk → ParsedHunk
unfolding reversed
undo hunk = record hunk { lines = reversed hunk.lines }

old_side-reversed : (lines : List HunkLine) → old_side (reversed lines) ≡ new_side lines
unfolding old_side new_side reversed
old_side-reversed [] = refl
old_side-reversed (context text ∷ lines) = ap (λ ts. text ∷ ts) (old_side-reversed lines)
old_side-reversed (del text ∷ lines) = old_side-reversed lines
old_side-reversed (add text ∷ lines) = ap (λ ts. text ∷ ts) (old_side-reversed lines)

new_side-reversed : (lines : List HunkLine) → new_side (reversed lines) ≡ old_side lines
unfolding old_side new_side reversed
new_side-reversed [] = refl
new_side-reversed (context text ∷ lines) = ap (λ ts. text ∷ ts) (new_side-reversed lines)
new_side-reversed (del text ∷ lines) = ap (λ ts. text ∷ ts) (new_side-reversed lines)
new_side-reversed (add text ∷ lines) = new_side-reversed lines

-- A file whose texts at a place are the old side fits.
get_elem?-prefix :
    (before : List FileLine) (line : FileLine) (after : List FileLine)
    → get_elem? (before ++ line ∷ after) (length before) ≡ some line
get_elem?-prefix [] line after = refl
get_elem?-prefix (x ∷ before) line after = get_elem?-prefix before line after

line_fits :
    (found : Option FileLine) (line : FileLine) (expected : Bytes) (later : Bool)
    → found ≡ some line
    → line.text ≡ expected
    → later ≡ true
    → elim found [ none ↦ false | some l ↦ text_eq l.text expected && later ] ≡ true
line_fits none line expected later e same more = cc
line_fits (some l) line expected later e same more =
    let equal : l.text ≡ expected = ap (λ k. k.text) (some-injective l line e) ∙ same in
    ground (arith, more, ap (text_eq l.text) (sym equal), text_eq_refl l.text)

head_text :
    (x : FileLine) (span : List FileLine) (expected : Bytes) (rest : List Bytes)
    → texts (x ∷ span) ≡ expected ∷ rest
    → x.text ≡ expected
unfolding texts
head_text x span expected rest e = cc

tail_texts :
    (x : FileLine) (span : List FileLine) (expected : Bytes) (rest : List Bytes)
    → texts (x ∷ span) ≡ expected ∷ rest
    → texts span ≡ rest
unfolding texts
tail_texts x span expected rest e = cc

fits_at :
    (before span after : List FileLine) (cursor : ℕ) (lines : List HunkLine)
    → length before ≡ cursor
    → texts span ≡ old_side lines
    → hunk_fits (before ++ (span ++ after)) cursor lines ≡ true
unfolding hunk_fits old_side texts
fits_at before span after cursor [] c t = refl
fits_at before [] after cursor (context expected ∷ lines) c t = cc
fits_at before (x ∷ span) after cursor (context expected ∷ lines) c t =
    let here =
      ap (get_elem? (before ++ x ∷ (span ++ after))) (sym c)
      ∙ get_elem?-prefix before x (span ++ after) in
    let next : length (before ++ x ∷ []) ≡ cursor + 1 =
      omega (arith, length-append before (x ∷ []), c) in
    let later =
      fits_at (before ++ x ∷ []) span after (cursor + 1) lines next
        (tail_texts x span expected (old_side lines) t) in
    line_fits _ x expected _ here (head_text x span expected (old_side lines) t) (
      ap (λ f. hunk_fits f (cursor + 1) lines) (sym (append_assoc before (x ∷ []) (span ++ after)))
      ∙ later)
fits_at before [] after cursor (del expected ∷ lines) c t = cc
fits_at before (x ∷ span) after cursor (del expected ∷ lines) c t =
    let here =
      ap (get_elem? (before ++ x ∷ (span ++ after))) (sym c)
      ∙ get_elem?-prefix before x (span ++ after) in
    let next : length (before ++ x ∷ []) ≡ cursor + 1 =
      omega (arith, length-append before (x ∷ []), c) in
    let later =
      fits_at (before ++ x ∷ []) span after (cursor + 1) lines next
        (tail_texts x span expected (old_side lines) t) in
    line_fits _ x expected _ here (head_text x span expected (old_side lines) t) (
      ap (λ f. hunk_fits f (cursor + 1) lines) (sym (append_assoc before (x ∷ []) (span ++ after)))
      ∙ later)
fits_at before span after cursor (add text ∷ lines) c t = fits_at before span after cursor lines c t

texts-append : (xs ys : List FileLine) → texts (xs ++ ys) ≡ texts xs ++ texts ys
unfolding texts
texts-append [] ys = refl
texts-append (x ∷ xs) ys = ap (λ ts. x.text ∷ ts) (texts-append xs ys)

length-texts : (xs : List FileLine) → length (texts xs) ≡ length xs
unfolding texts
length-texts [] = refl
length-texts (x ∷ xs) = ap suc (length-texts xs)

apply_fits :
    (path : Text) (file : List FileLine) (orig : ℕ) (hunk : ParsedHunk)
    → hunk_fits file (target_idx hunk) hunk.lines ≡ true
    → leb (target_idx hunk + remove_count hunk.lines) (length file) ≡ true
    → apply_hunk path file (orig, hunk)
      ≡ ok (
          take (target_idx hunk) file
          ++ (compose file (anchor_terminator file (target_idx hunk)) (target_idx hunk) hunk.lines
              ++ drop (target_idx hunk + remove_count hunk.lines) file))
unfolding apply_hunk
apply_fits path file orig hunk f l = rw f (rw l refl)

fits_inside :
    (target n size before span after : ℕ)
    → before ≡ target
    → span ≡ n
    → size ≡ before + (span + after)
    → leb (target + n) size ≡ true
fits_inside target n size before span after b s e = ground arith

-- A hunk is applied wherever its old side is.
apply_hunk-fits :
    (path : Text) (before span after : List FileLine) (orig : ℕ) (hunk : ParsedHunk)
    → length before ≡ target_idx hunk
    → texts span ≡ old_side hunk.lines
    → (composed : List FileLine) × (apply_hunk path (before ++ (span ++ after)) (orig, hunk)
        ≡ ok (before ++ (composed ++ after)))
      × (texts composed ≡ new_side hunk.lines)
apply_hunk-fits path before span after orig hunk b t =
    let file = before ++ (span ++ after) in
    let target = target_idx hunk in
    let composed = compose file (anchor_terminator file target) target hunk.lines in
    let count : length span ≡ remove_count hunk.lines =
      sym (length-texts span) ∙ ap length t ∙ length-old_side hunk.lines in
    let size : length file ≡ length before + (length span + length after) =
      omega (arith, length-append before (span ++ after), length-append span after) in
    let applied = apply_fits path file orig hunk (fits_at before span after target hunk.lines b t) (
      fits_inside target (remove_count hunk.lines) (length file) (length before) (length span)
        (length after) b count size) in
    let front : take target file ≡ before =
      ap (λ n. take n file) (sym b) ∙ take_prefix before (span ++ after) in
    let back : drop (target + remove_count hunk.lines) file ≡ after =
      ap (λ n. drop n file) (omega (arith, b, count))
      ∙ sym (drop-drop (length span) (length before) file)
      ∙ ap (drop (length span)) (drop_prefix before (span ++ after))
      ∙ drop_prefix span after in
    (
      composed,
      applied
          ∙ ap (λ f. ok (f ++ (composed ++ drop (target + remove_count hunk.lines) file))) front
          ∙ ap (λ r. ok (before ++ (composed ++ r))) back,
      compose-texts file (anchor_terminator file target) target hunk.lines,
    )

-- On a list of lines, the hunk with additions and deletions exchanged takes back a hunk at the
-- same place: it can be applied to the list that the hunk leaves, and the texts of the lines are
-- those from before.
pub apply_hunk-undo :
    (path : Text) (file : List FileLine) (orig : ℕ) (hunk : ParsedHunk) (result : List FileLine)
    → apply_hunk path file (orig, hunk) ≡ ok result
    → (restored : List FileLine) × (apply_hunk path result (orig, undo hunk) ≡ ok restored)
      × (texts restored ≡ texts file)
unfolding apply_hunk undo target_idx
apply_hunk-undo path file orig hunk result e =
    let (composed, made, new, old, inside) = apply_hunk-sides path file orig hunk result e in
    let target = target_idx hunk in
    let n = length (old_side hunk.lines) in
    let front = take target file in
    let rest = drop (target + n) file in
    let (restored, applied, sides) =
      apply_hunk-fits path front composed rest orig (undo hunk)
        (length-take target file (omega (arith, inside)))
        (new ∙ sym (old_side-reversed hunk.lines)) in
    let middle = sides ∙ new_side-reversed hunk.lines ∙ sym old in
    let whole : take target file ++ (take n (drop target file) ++ rest) ≡ file =
      ap (λ r. front ++ (take n (drop target file) ++ r)) (sym (drop-drop n target file))
      ∙ ap (λ r. front ++ r) (take-append-drop n (drop target file))
      ∙ take-append-drop target file in
    (
      front ++ (restored ++ rest),
      ap (λ f. apply_hunk path f (orig, undo hunk)) made ∙ applied,
      texts-append front (restored ++ rest)
          ∙ ap (λ t. texts front ++ t) (texts-append restored rest)
          ∙ ap (λ t. texts front ++ (t ++ texts rest)) middle
          ∙ ap (λ t. texts front ++ t) (sym (texts-append (take n (drop target file)) rest))
          ∙ sym (texts-append front (take n (drop target file) ++ rest))
          ∙ ap texts whole,
    )
