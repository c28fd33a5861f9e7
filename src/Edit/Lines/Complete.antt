-- ===== src/Edit/Lines/Complete.antt =====
-- Files of which every line is ended (src/services/edit.rs: LineMap::lacks_trailing_newline).
use agent_workspace_hub.Prelude.{
  ℕ, suc, ◌+◌, ◌-◌, ◌<◌, ◌≡◌, refl, sym, ap, ◌∙◌, inl, inr, true, false, Option, none, some, List,
  [], ◌∷◌, ◌++◌, arith, length, ◌==◌, ==_iff, Bool-cases, length-append, All,
}
use agent_workspace_hub.Edit.Matching.{Bytes, line_feed}
use agent_workspace_hub.Edit.Lines.{
  LineMap, parse_from, parse, push_line, terminator_len, len, is_empty_map, index,
  lacks_trailing_newline, terminator_str, line_complete, last, ends_with_line_feed,
}
use agent_workspace_hub.Edit.Lines.Pieces.{
  lines_after, lines_after_feed, lines_after_other, parse_from_feed, parse_from_other, file_lines,
  join, file_lines-join,
}
use agent_workspace_hub.Edit.Lines.Proper.{
  IsComplete, no_feed, no_feed_snoc, file_lines-Proper, file_lines-join-Proper, Proper-append,
}
use agent_workspace_hub.Edit.Lines.Spans.{join-append}

lacks_push :
    (s e t : ℕ) (starts ends terms : List ℕ) (size : ℕ)
    → let map : LineMap = record {
      starts = starts;
      ends = ends;
      terminators = terms;
      content_len = size;
    } in
      lacks_trailing_newline (push_line s e t map) ≡ false → lacks_trailing_newline map ≡ false
unfolding lacks_trailing_newline is_empty_map len index push_line
lacks_push s e t [] ends terms size h = refl
lacks_push s e t (x ∷ xs) ends terms size h =
    let first : suc (suc (length xs)) - 1 ≡ suc (length xs) = omega arith in
    let second : suc (length xs) - 1 ≡ length xs = omega arith in rw second (rw first at h)

completed_line :
    (known : Bytes) (b : ℕ)
    → no_feed known ≡ true
    → (b == line_feed) ≡ true
    → IsComplete (known ++ b ∷ [])
unfolding IsComplete
completed_line known b n e = (known, n, ap (λ c. known ++ c ∷ []) ((==_iff b line_feed).0 e))

unended :
    (previous : Option ℕ) (s i : ℕ)
    → s < i
    → lacks_trailing_newline (parse_from previous s i []) ≡ true
unfolding lacks_trailing_newline is_empty_map len index push_line parse_from
unended previous s i l = ground arith

-- A map that finds the last line ended has found every line ended.
parse_from-IsComplete :
    (previous : Option ℕ) (s i : ℕ) (known bytes : Bytes)
    → i ≡ s + length known
    → no_feed known ≡ true
    → lacks_trailing_newline (parse_from previous s i bytes) ≡ false
    → All IsComplete (lines_after known bytes)
unfolding lines_after no_feed
parse_from-IsComplete previous s i [] [] h n l = tt
parse_from-IsComplete previous s i (k ∷ known) [] h n l =
    cc (unended previous s i (omega (arith, h)), l)
parse_from-IsComplete previous s i known (b ∷ bytes) h n l = elim (Bool-cases (b == line_feed)) [
  | inl e ↦
      let tail = parse_from (some b) (i + 1) (i + 1) bytes in
      let later =
        lacks_push s (i + 1) (terminator_len previous) tail.starts tail.ends tail.terminators
          tail.content_len (rw (parse_from_feed previous s i bytes b e) at l) in
      rw (lines_after_feed known bytes b e) (
        completed_line known b n e,
        parse_from-IsComplete (some b) (i + 1) (i + 1) [] bytes (omega arith) refl later,
      )
  | inr e ↦ rw (lines_after_other known bytes b e) (
      parse_from-IsComplete (some b) s (i + 1) (known ++ b ∷ []) bytes
        (omega (arith, length-append known (b ∷ []))) (no_feed_snoc known b n e)
        (rw (parse_from_other previous s i bytes b e) at l))
]

last-IsComplete :
    (known bytes : Bytes)
    → no_feed known ≡ true
    → ends_with_line_feed bytes ≡ true
    → All IsComplete (lines_after known bytes)
unfolding lines_after no_feed ends_with_line_feed last
last-IsComplete known [] n l = cc
last-IsComplete known (b ∷ []) n l =
    rw (lines_after_feed known [] b l) (completed_line known b n l, tt)
last-IsComplete known (b ∷ c ∷ bytes) n l = elim (Bool-cases (b == line_feed)) [
  | inl e ↦
      rw (lines_after_feed known (c ∷ bytes) b e)
        (completed_line known b n e, last-IsComplete [] (c ∷ bytes) refl l)
  | inr e ↦
      rw (lines_after_other known (c ∷ bytes) b e)
        (last-IsComplete (known ++ b ∷ []) (c ∷ bytes) (no_feed_snoc known b n e) l)
]

pub file_lines-IsComplete :
    (bytes : Bytes) → ends_with_line_feed bytes ≡ true → All IsComplete (file_lines bytes)
unfolding file_lines no_feed
file_lines-IsComplete bytes l = last-IsComplete [] bytes refl l

pub parse-IsComplete :
    (content : Bytes)
    → lacks_trailing_newline (parse content) ≡ false
    → All IsComplete (file_lines content)
unfolding parse file_lines no_feed
parse-IsComplete content l = parse_from-IsComplete none 0 0 [] content refl refl l

pub ends_append :
    (xs ys : Bytes) → ends_with_line_feed ys ≡ true → ends_with_line_feed (xs ++ ys) ≡ true
unfolding ends_with_line_feed last
ends_append [] ys e = e
ends_append (x ∷ []) [] e = cc
ends_append (x ∷ []) (y ∷ ys) e = e
ends_append (x ∷ z ∷ xs) ys e = ends_append (z ∷ xs) ys e

pub terminator_ends : (map : LineMap) → ends_with_line_feed (terminator_str map) ≡ true
unfolding terminator_str ends_with_line_feed last
terminator_ends map = ground arith

pub line_complete_ends :
    (map : LineMap) (inserted : Bytes) → ends_with_line_feed (line_complete map inserted) ≡ true
unfolding line_complete
line_complete_ends map inserted = elim (Bool-cases (ends_with_line_feed inserted)) [
  | inl e ↦ rw e e
  | inr e ↦ rw e (ends_append inserted (terminator_str map) (terminator_ends map))
]

-- The lines of text that follows complete lines.
pub file_lines-append :
    (a b : Bytes)
    → All IsComplete (file_lines a)
    → file_lines (a ++ b) ≡ file_lines a ++ file_lines b
file_lines-append a b c =
    ap file_lines (
      ap (λ t. t ++ b) (sym (file_lines-join a))
      ∙ ap (λ t. join (file_lines a) ++ t) (sym (file_lines-join b))
      ∙ sym (join-append (file_lines a) (file_lines b)))
    ∙ file_lines-join-Proper _ (Proper-append (file_lines a) (file_lines b) c (file_lines-Proper b))
