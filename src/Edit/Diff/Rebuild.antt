-- ===== src/Edit/Diff/Rebuild.antt =====
-- Lines that are put together and parted again (src/services/edit.rs: apply_hunks_to_content).
use agent_workspace_hub.Prelude.{
  ℕ, suc, ◌-◌, ◌≤◌, ◌≡◌, ◌⊎◌, refl, sym, ap, ◌∙◌, inl, inr, Bool, true, false, not, ◌&&◌, List, [],
  ◌∷◌, ◌++◌, arith, All, length, length-append, take, drop, map, take_prefix, drop_prefix, text_eq,
  text_eq_refl, ◌==◌,
}
use mathlib.Core.List.{append_assoc}
use agent_workspace_hub.Edit.Matching.{Bytes, line_feed}
use agent_workspace_hub.Edit.Lines.{carriage_return}
use agent_workspace_hub.Edit.Lines.Pieces.{
  lines_after, file_lines, lines_after_feed, lines_after_other,
}
use agent_workspace_hub.Edit.Diff.{
  FileLine, ends_with, without_suffix, crlf, lf, file_line, lines_of, repair_last, rebuild,
}

-- No byte is a line feed.
unfoldable pub no_feed : Bytes → Bool
no_feed [] = true
no_feed (b ∷ bytes) = not (b == line_feed) && no_feed bytes

-- The last byte is a carriage return.
unfoldable pub ends_in_return : Bytes → Bool
ends_in_return [] = false
ends_in_return (b ∷ bytes) = elim bytes [ [] ↦ b == carriage_return | _ ∷ _ ↦ ends_in_return bytes ]

unfoldable pub IsTerminator : Bytes → Type 0
IsTerminator terminator = (terminator ≡ lf) ⊎ (terminator ≡ crlf)

-- The text of a line, without a terminator or a part of one.
unfoldable pub IsLineText : Bytes → Type 0
unfolding no_feed ends_in_return
IsLineText text = (no_feed text ≡ true) × (ends_in_return text ≡ false)

-- A line that is ended.
unfoldable pub IsEnded : FileLine → Type 0
unfolding IsLineText IsTerminator
IsEnded line = IsLineText line.text × IsTerminator line.terminator

-- The lines of a text that begins with a line.
lines_after-body :
    (known body rest : Bytes)
    → no_feed body ≡ true
    → lines_after known (body ++ line_feed ∷ rest)
      ≡ (known ++ (body ++ line_feed ∷ [])) ∷ lines_after [] rest
unfolding no_feed
lines_after-body known [] rest h = lines_after_feed known rest line_feed refl
lines_after-body known (b ∷ body) rest h =
    lines_after_other known (body ++ line_feed ∷ rest) b (ground arith)
    ∙ lines_after-body (known ++ b ∷ []) body rest (ground arith)
    ∙ ap (λ l. l ∷ lines_after [] rest) (append_assoc known (b ∷ []) (body ++ line_feed ∷ []))

no_feed-append : (xs ys : Bytes) → no_feed xs ≡ true → no_feed ys ≡ true → no_feed (xs ++ ys) ≡ true
unfolding no_feed
no_feed-append [] ys a b = b
no_feed-append (x ∷ xs) ys a b = let rest = no_feed-append xs ys (ground arith) b in ground arith

-- A suffix that was appended.
without_suffix-append : (xs ys : Bytes) → without_suffix (xs ++ ys) ys ≡ xs
unfolding without_suffix
without_suffix-append xs ys =
    ap (λ n. take n (xs ++ ys)) (omega (arith, length-append xs ys)) ∙ take_prefix xs ys

ends_with-append : (xs ys : Bytes) → ends_with (xs ++ ys) ys ≡ true
unfolding ends_with
ends_with-append xs ys =
    let tail : drop (length (xs ++ ys) - length ys) (xs ++ ys) ≡ ys =
      ap (λ n. drop n (xs ++ ys)) (omega (arith, length-append xs ys)) ∙ drop_prefix xs ys in
    let long : length ys ≤ length (xs ++ ys) = omega (arith, length-append xs ys) in
    rw tail (ground (arith, text_eq_refl ys, long))

ends_with-cons :
    (b c d : ℕ) (bytes : Bytes)
    → ends_with (b ∷ c ∷ d ∷ bytes) crlf ≡ ends_with (c ∷ d ∷ bytes) crlf
unfolding ends_with
ends_with-cons b c d bytes =
    let n : length (b ∷ c ∷ d ∷ bytes) - 2 ≡ suc (length (c ∷ d ∷ bytes) - 2) = omega arith in
    ground (arith, ap (λ k. text_eq (drop k (b ∷ c ∷ d ∷ bytes)) crlf) n)

not_crlf : (text : Bytes) → ends_in_return text ≡ false → ends_with (text ++ lf) crlf ≡ false
unfolding ends_in_return
not_crlf [] h = unfold ends_with in refl
not_crlf (b ∷ []) h = unfold ends_with text_eq in ground (arith, h)
not_crlf (b ∷ c ∷ []) h = ends_with-cons b c line_feed [] ∙ not_crlf (c ∷ []) h
not_crlf (b ∷ c ∷ d ∷ text) h = ends_with-cons b c d (text ++ lf) ∙ not_crlf (c ∷ d ∷ text) h

file_line-lf :
    (text : Bytes)
    → ends_in_return text ≡ false
    → file_line (text ++ lf) ≡ record { text = text; terminator = lf }
unfolding file_line
file_line-lf text h =
    rw (not_crlf text h, ends_with-append text lf, without_suffix-append text lf) refl

file_line-crlf :
    (text : Bytes) → file_line (text ++ crlf) ≡ record { text = text; terminator = crlf }
unfolding file_line
file_line-crlf text = rw (ends_with-append text crlf, without_suffix-append text crlf) refl

-- A line is parted from what follows it.
lines_of-line :
    (line : FileLine) (rest : Bytes)
    → IsEnded line
    → lines_of ((line.text ++ line.terminator) ++ rest) ≡ line ∷ lines_of rest
unfolding lines_of file_lines IsEnded IsLineText IsTerminator
lines_of-line line rest ((plain, unended), ended) = elim ended [
  | inl e ↦
      let parted : lines_after [] ((line.text ++ lf) ++ rest)
          ≡ (line.text ++ lf) ∷ lines_after [] rest =
        ap (lines_after []) (append_assoc line.text lf rest)
        ∙ lines_after-body [] line.text rest plain in
      ap (λ t. map file_line (lines_after [] ((line.text ++ t) ++ rest))) e
      ∙ ap (map file_line) parted
      ∙ ap (λ l. l ∷ map file_line (lines_after [] rest)) (file_line-lf line.text unended)
      ∙ ap (λ t. record { text = line.text; terminator = t } ∷ map file_line (lines_after [] rest))
          (sym e)
  | inr e ↦
      let body = line.text ++ carriage_return ∷ [] in
      let whole : body ++ lf ≡ line.text ++ crlf =
        append_assoc line.text (carriage_return ∷ []) lf in
      let parted : lines_after [] ((line.text ++ crlf) ++ rest)
          ≡ (line.text ++ crlf) ∷ lines_after [] rest =
        ap (λ t. lines_after [] (t ++ rest)) (sym whole)
        ∙ ap (lines_after []) (append_assoc body lf rest)
        ∙ lines_after-body [] body rest
            (no_feed-append line.text (carriage_return ∷ []) plain (unfold no_feed in refl))
        ∙ ap (λ l. l ∷ lines_after [] rest) whole in
      ap (λ t. map file_line (lines_after [] ((line.text ++ t) ++ rest))) e
      ∙ ap (map file_line) parted
      ∙ ap (λ l. l ∷ map file_line (lines_after [] rest)) (file_line-crlf line.text)
      ∙ ap (λ t. record { text = line.text; terminator = t } ∷ map file_line (lines_after [] rest))
          (sym e)
]

-- Ended lines that are put together are parted again into the same lines.
pub lines_of-rebuild :
    (lines : List FileLine) → All IsEnded lines → lines_of (rebuild lines) ≡ lines
unfolding rebuild
lines_of-rebuild [] a = unfold lines_of file_lines lines_after in refl
lines_of-rebuild (line ∷ lines) (ended, a) =
    lines_of-line line (rebuild lines) ended ∙ ap (λ ls. line ∷ ls) (lines_of-rebuild lines a)

terminator_length : (t : Bytes) → IsTerminator t → (length t == 0) ≡ false
unfolding IsTerminator
terminator_length t h = elim h [
  | inl e ↦ ap (λ u. length u == 0) e
  | inr e ↦ ap (λ u. length u == 0) e
]

-- A last line that is ended needs no repair.
pub repair_last-ended :
    (content : Bytes) (lines : List FileLine)
    → All IsEnded lines
    → repair_last content lines ≡ lines
unfolding repair_last IsEnded
repair_last-ended content [] a = refl
repair_last-ended content (line ∷ []) ((text, ended), a) =
    let some_bytes = terminator_length line.terminator ended in ground (arith, some_bytes)
repair_last-ended content (line ∷ next ∷ lines) (ended, a) =
    ap (λ ls. line ∷ ls) (repair_last-ended content (next ∷ lines) a)
