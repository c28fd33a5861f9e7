-- ===== src/Edit/Lines/Spans.antt =====
-- The offsets that the line map gives (src/services/edit.rs: LineMap), against the lines of the
-- file, and the deletion of lines between two of them.
use agent_workspace_hub.Prelude.{
  ℕ, zero, suc, ◌+◌, ◌-◌, ◌≤◌, ◌<◌, ◌≡◌, refl, sym, ap, ◌∙◌, none, some, List, [], ◌∷◌, ◌++◌, arith,
  length, take, drop, is_empty, if◌then◌else◌, length-append, take-append-drop, take_prefix,
  drop_prefix,
}
use mathlib.Core.List.{append_assoc}
use agent_workspace_hub.Edit.Matching.{Bytes, count_line_feeds}
use agent_workspace_hub.Edit.Lines.{
  parse, len, index, line_span, without_span, line_count, last, ends_with_line_feed,
}
use agent_workspace_hub.Edit.Lines.Pieces.{
  lines_after, file_lines, join, starts_of, ends_of, parse_from-starts, parse_from-ends,
  file_lines-join,
}
use agent_workspace_hub.Edit.Lines.Proper.{
  Proper, file_lines-Proper, file_lines-join-Proper, Proper-append, Proper-drop, take-IsComplete,
  snoc_not_empty,
}

pub parse-starts : (content : Bytes) → (parse content).starts ≡ starts_of 0 (file_lines content)
unfolding parse file_lines
parse-starts content = parse_from-starts none 0 0 [] content refl

parse-ends : (content : Bytes) → (parse content).ends ≡ ends_of 0 (file_lines content)
unfolding parse file_lines
parse-ends content = parse_from-ends none 0 0 [] content refl

length-starts_of : (o : ℕ) (ls : List Bytes) → length (starts_of o ls) ≡ length ls
unfolding starts_of
length-starts_of o [] = refl
length-starts_of o (l ∷ ls) = ap suc (length-starts_of (o + length l) ls)

pub len-parse : (content : Bytes) → len (parse content) ≡ length (file_lines content)
unfolding len
len-parse content = ap length (parse-starts content) ∙ length-starts_of 0 (file_lines content)

pub index-starts_of :
    (o k : ℕ) (ls : List Bytes)
    → k < length ls
    → index (starts_of o ls) k ≡ o + length (join (take k ls))
unfolding index starts_of join
index-starts_of o k [] h = omega arith
index-starts_of o zero (l ∷ ls) h = omega arith
index-starts_of o (suc k) (l ∷ ls) h =
    omega
      (arith, index-starts_of (o + length l) k ls (omega arith), length-append l (join (take k ls)))

pub index-ends_of :
    (o k : ℕ) (ls : List Bytes)
    → k < length ls
    → index (ends_of o ls) k ≡ o + length (join (take (suc k) ls))
unfolding index ends_of join
index-ends_of o k [] h = omega arith
index-ends_of o zero (l ∷ ls) h = omega (arith, length-append l [])
index-ends_of o (suc k) (l ∷ ls) h = omega (
  arith,
  index-ends_of (o + length l) k ls (omega arith),
  length-append l (join (take (suc k) ls)),
)

pub join-append : (xs ys : List Bytes) → join (xs ++ ys) ≡ join xs ++ join ys
unfolding join
join-append [] ys = refl
join-append (x ∷ xs) ys =
    ap (λ t. x ++ t) (join-append xs ys) ∙ sym (append_assoc x (join xs) (join ys))

pub halves :
    (k : ℕ) (content : Bytes)
    → join (take k (file_lines content)) ++ join (drop k (file_lines content)) ≡ content
halves k content =
    sym (join-append (take k (file_lines content)) (drop k (file_lines content)))
    ∙ ap join (take-append-drop k (file_lines content))
    ∙ file_lines-join content

-- The bytes before the end of so many lines are those lines, and the bytes after it the others.
pub take_lines :
    (k : ℕ) (content : Bytes)
    → take (length (join (take k (file_lines content)))) content
      ≡ join (take k (file_lines content))
take_lines k content =
    let n = length (join (take k (file_lines content))) in
    ap (take n) (sym (halves k content))
    ∙ take_prefix (join (take k (file_lines content))) (join (drop k (file_lines content)))

pub drop_lines :
    (k : ℕ) (content : Bytes)
    → drop (length (join (take k (file_lines content)))) content
      ≡ join (drop k (file_lines content))
drop_lines k content =
    let n = length (join (take k (file_lines content))) in
    ap (drop n) (sym (halves k content))
    ∙ drop_prefix (join (take k (file_lines content))) (join (drop k (file_lines content)))

count_lines :
    (known bytes : Bytes)
    → length (lines_after known bytes)
      ≡ count_line_feeds bytes
        + (if (if is_empty bytes then is_empty known else ends_with_line_feed bytes) then 0 else 1)
unfolding lines_after count_line_feeds ends_with_line_feed last
count_lines [] [] = ground arith
count_lines (k ∷ known) [] = ground arith
count_lines known (b ∷ []) = ground (arith, count_lines [] [], snoc_not_empty known b)
count_lines known (b ∷ c ∷ bytes) =
    ground (arith, count_lines [] (c ∷ bytes), count_lines (known ++ b ∷ []) (c ∷ bytes))

-- The map has as many lines as `line_count` counts, and these are the lines of the file.
pub len-line_count :
    (content : Bytes)
    → (len (parse content) ≡ line_count content)
      × (line_count content ≡ length (file_lines content))
unfolding line_count file_lines
len-line_count content = (len-parse content ∙ sym (counted content), counted content)
  where
    counted : (c : Bytes) → line_count c ≡ length (lines_after [] c)
    counted [] = ground (arith, count_lines [] [])
    counted (b ∷ bytes) = ground (arith, count_lines [] (b ∷ bytes))

-- The span of a range of lines.
pub line_span_lines :
    (content : Bytes) (start_line end_line : ℕ)
    → 1 ≤ start_line
    → start_line ≤ end_line
    → end_line ≤ length (file_lines content)
    → line_span (parse content) start_line end_line
      ≡ some (
        length (join (take (start_line - 1) (file_lines content))),
        length (join (take end_line (file_lines content))),
      )
unfolding line_span
line_span_lines content a b one order within =
    let lines = file_lines content in
    let count = len-parse content in
    let last_line : suc (b - 1) ≡ b = omega arith in
    let begin : index (parse content).starts (a - 1) ≡ length (join (take (a - 1) lines)) =
      ap (λ v. index v (a - 1)) (parse-starts content)
      ∙ index-starts_of 0 (a - 1) lines (omega arith)
      ∙ omega arith in
    let end : index (parse content).ends (b - 1) ≡ length (join (take b lines)) =
      ap (λ v. index v (b - 1)) (parse-ends content)
      ∙ index-ends_of 0 (b - 1) lines (omega arith)
      ∙ ap (λ k. 0 + length (join (take k lines))) last_line
      ∙ omega arith in
    ground (arith, begin, end)

-- What is left of proper lines without some that follow one another.
Proper-around :
    (j k : ℕ) (ls : List Bytes)
    → Proper ls
    → j ≤ k
    → j < length ls
    → Proper (take j ls ++ drop k ls)
Proper-around j k ls p o h =
    Proper-append (take j ls) (drop k ls) (take-IsComplete j ls p h) (Proper-drop k ls p)

-- Deleting a range of lines that the file has leaves exactly the lines before it and the lines
-- after it: the span is found, and the content without it has those lines, byte for byte.
pub without_span-lines :
    (content : Bytes) (start_line end_line : ℕ)
    → 1 ≤ start_line
    → start_line ≤ end_line
    → end_line ≤ line_count content
    → (span : ℕ × ℕ) × (line_span (parse content) start_line end_line ≡ some span)
      × (file_lines (without_span content span)
          ≡ take (start_line - 1) (file_lines content) ++ drop end_line (file_lines content))
unfolding without_span
without_span-lines content a b one order within =
    let lines = file_lines content in
    let inside : b ≤ length lines = omega (arith, (len-line_count content).1) in
    let kept =
      ap (λ t. t ++ drop (length (join (take b lines))) content) (take_lines (a - 1) content)
      ∙ ap (λ t. join (take (a - 1) lines) ++ t) (drop_lines b content)
      ∙ sym (join-append (take (a - 1) lines) (drop b lines)) in
    (
      (length (join (take (a - 1) lines)), length (join (take b lines))),
      line_span_lines content a b one order inside,
      ap file_lines kept
          ∙ file_lines-join-Proper _ (
              Proper-around (a - 1) b lines (file_lines-Proper content) (omega arith)
                (omega arith)),
    )
