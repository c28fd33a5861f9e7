-- ===== src/Edit/Lines/Insertion.antt =====
-- The insertion of text at a line boundary (src/services/edit.rs: LineMap::insert_at), against
-- the lines of the file.
use agent_workspace_hub.Prelude.{
  ℕ, zero, suc, ◌+◌, ◌-◌, ◌≤◌, ◌≡◌, refl, sym, ap, ◌∙◌, inl, inr, Bool, true, false, ◌&&◌, none,
  List, [], ◌++◌, arith, length, take, drop, ◌==◌, ltb, leb, Bool-cases, if◌then◌else◌, take_prefix,
  All,
}
use mathlib.Core.List.{append_assoc, append-nil}
use agent_workspace_hub.Edit.Matching.{Bytes}
use agent_workspace_hub.Edit.Lines.{
  parse, len, index, insert_offset, lacks_trailing_newline, terminator_str, line_complete,
  insert_at, line_count, ends_with_line_feed,
}
use agent_workspace_hub.Edit.Lines.Pieces.{
  file_lines, join, parse_from-content_len, file_lines-join,
}
use agent_workspace_hub.Edit.Lines.Proper.{
  Proper, IsComplete, file_lines-Proper, file_lines-join-Proper, Proper-append, Proper-drop,
  take-IsComplete,
}
use agent_workspace_hub.Edit.Lines.Complete.{
  file_lines-IsComplete, parse-IsComplete, line_complete_ends, terminator_ends, ends_append,
  file_lines-append,
}
use mathlib.Core.Path.{subst}
use agent_workspace_hub.Edit.Lines.Spans.{
  parse-starts, len-parse, index-starts_of, join-append, take_lines, drop_lines, len-line_count,
}

take_all : (ls : List Bytes) → take (length ls) ls ≡ ls
take_all ls = ap (take (length ls)) (sym (append-nil ls)) ∙ take_prefix ls []

parse-content_len : (content : Bytes) → (parse content).content_len ≡ length content
unfolding parse
parse-content_len content = parse_from-content_len none 0 0 content ∙ omega arith

-- The offset of an insertion, by the lines before it.
pub insert_offset_lines :
    (content : Bytes) (boundary : ℕ)
    → boundary ≤ length (file_lines content) + 1
    → insert_offset (parse content) boundary
      ≡ length (join (take (boundary - 1) (file_lines content)))
unfolding insert_offset join
insert_offset_lines content zero h = refl
insert_offset_lines content (suc k) h =
    let lines = file_lines content in
    let at : suc k - 1 ≡ k = omega arith in
    let count = len-parse content in
    rw at (elim (Bool-cases (leb (suc k) (len (parse content)))) [
      | inl e ↦
          let start : index (parse content).starts k ≡ length (join (take k lines)) =
            ap (λ v. index v k) (parse-starts content)
            ∙ index-starts_of 0 k lines (ground (arith, count))
            ∙ omega arith in
          ground (arith, start)
      | inr e ↦
          let all_of_them : k ≡ length lines = ground (arith, count) in
          let whole : length (join (take k lines)) ≡ length content =
            ap (λ n. length (join (take n lines))) all_of_them
            ∙ ap (λ t. length (join t)) (take_all lines)
            ∙ ap length (file_lines-join content) in
          ground (arith, whole, parse-content_len content)
    ])

-- Whether an insertion has to end the last line of the file first.
unfoldable pub ends_last_line : Bytes → ℕ → Bool
ends_last_line content boundary =
    boundary == len (parse content) + 1 && lacks_trailing_newline (parse content)

before-IsComplete :
    (content : Bytes) (boundary : ℕ)
    → boundary ≤ length (file_lines content) + 1
    → ends_last_line content boundary ≡ false
    → All IsComplete (take (boundary - 1) (file_lines content))
unfolding ends_last_line
before-IsComplete content zero h e = tt
before-IsComplete content (suc k) h e =
    let lines = file_lines content in
    let at : suc k - 1 ≡ k = omega arith in
    rw at (elim (Bool-cases (ltb k (length lines))) [
      | inl l ↦ take-IsComplete k lines (file_lines-Proper content) (ground (arith, l))
      | inr l ↦
          let all_of_them : k ≡ length lines = ground (arith, l) in
          let ended : lacks_trailing_newline (parse content) ≡ false =
            ground (arith, len-parse content) in
          subst (All IsComplete) (sym (ap (λ n. take n lines) all_of_them ∙ take_all lines))
            (parse-IsComplete content ended)
    ])

-- The lines after text was put, with its lines complete, between two runs of lines.
between :
    (before after : List Bytes) (text : Bytes)
    → All IsComplete before
    → Proper after
    → ends_with_line_feed text ≡ true
    → file_lines ((join before ++ text) ++ join after) ≡ before ++ (file_lines text ++ after)
between before after text b a t =
    let lines = file_lines text in
    let inner = Proper-append lines after (file_lines-IsComplete text t) a in
    ap file_lines (
      append_assoc (join before) text (join after)
      ∙ ap (λ u. join before ++ (u ++ join after)) (sym (file_lines-join text))
      ∙ ap (λ u. join before ++ u) (sym (join-append lines after))
      ∙ sym (join-append before (lines ++ after)))
    ∙ file_lines-join-Proper _ (Proper-append before (lines ++ after) b inner)

-- Inserting text at a boundary that the file has puts exactly the lines of the text, the last
-- ended, between the lines before the boundary and those after it. At the end of a file whose
-- last line is not ended, that line is ended first.
pub insert_at-lines :
    (content : Bytes) (boundary : ℕ) (inserted : Bytes)
    → boundary ≤ line_count content + 1
    → file_lines (insert_at (parse content) content boundary inserted) ≡ (
        if ends_last_line content boundary
        then file_lines (content ++ terminator_str (parse content))
          ++ file_lines (line_complete (parse content) inserted)
        else take (boundary - 1) (file_lines content)
          ++ (file_lines (line_complete (parse content) inserted)
              ++ drop (boundary - 1) (file_lines content)))
unfolding insert_at ends_last_line
insert_at-lines content boundary inserted h = elim (Bool-cases (ends_last_line content boundary)) [
  | inl e ↦ at_end e ∙ sym (rw e refl)
  | inr e ↦ inside e ∙ sym (rw e refl)
]
  where
    lines : List Bytes
    lines = file_lines content

    text : Bytes
    text = line_complete (parse content) inserted

    in_range : boundary ≤ length (file_lines content) + 1
    in_range = omega (arith, (len-line_count content).1)

    inside :
        ends_last_line content boundary ≡ false
        → file_lines (insert_at (parse content) content boundary inserted)
          ≡ take (boundary - 1) lines ++ (file_lines text ++ drop (boundary - 1) lines)
    inside e = rw e (
        ap (λ o. file_lines ((take o content ++ text) ++ drop o content))
          (insert_offset_lines content boundary in_range)
        ∙ ap
            (λ t.
              file_lines ((t ++ text) ++ drop (length (join (take (boundary - 1) lines))) content))
            (take_lines (boundary - 1) content)
        ∙ ap (λ t. file_lines ((join (take (boundary - 1) lines) ++ text) ++ t))
            (drop_lines (boundary - 1) content)
        ∙ between (take (boundary - 1) lines) (drop (boundary - 1) lines) text
            (before-IsComplete content boundary in_range e)
            (Proper-drop (boundary - 1) lines (file_lines-Proper content))
            (line_complete_ends (parse content) inserted))

    at_end :
        ends_last_line content boundary ≡ true
        → file_lines (insert_at (parse content) content boundary inserted)
          ≡ file_lines (content ++ terminator_str (parse content)) ++ file_lines text
    at_end e = rw e (
        file_lines-append _ text (
          file_lines-IsComplete _ (
            ends_append content (terminator_str (parse content))
              (terminator_ends (parse content)))))
