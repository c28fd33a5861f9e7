-- ===== src/Edit/Lines.antt =====
-- The line boundaries of a file (src/services/edit.rs: LineMap, line_count). The content of a
-- file is the list of its bytes.
pub mod Pieces
pub mod Proper
pub mod Spans
pub mod Complete
pub mod Insertion
use agent_workspace_hub.Prelude.{
  ℕ, ◌+◌, ◌-◌, Bool, true, false, not, ◌&&◌, ◌||◌, Option, none, some, List, [], ◌∷◌, ◌++◌, length,
  get_elem?, take, drop, if◌then◌else◌, ltb, leb, ◌==◌,
}
use agent_workspace_hub.Edit.Matching.{Bytes, line_feed, count_line_feeds}

abbrev pub carriage_return : ℕ
carriage_return = 0x0d

-- The last element, if any.
unfoldable pub last : Bytes → Option ℕ
last [] = none
last (b ∷ bytes) = elim bytes [ [] ↦ some b | _ ∷ _ ↦ last bytes ]

-- `ends_with('\n')`.
unfoldable pub ends_with_line_feed : Bytes → Bool
unfolding last
ends_with_line_feed bytes = elim (last bytes) [ none ↦ false | some b ↦ b == line_feed ]

-- `line_count`: `lines().count()` counts the line feeds, and the text after the last of them when
-- there is some.
unfoldable pub line_count : Bytes → ℕ
unfolding ends_with_line_feed
line_count [] = 0
line_count (b ∷ bytes) =
    if ends_with_line_feed (b ∷ bytes)
    then count_line_feeds (b ∷ bytes)
    else count_line_feeds (b ∷ bytes) + 1

pub record LineMap : Type 0 where
  pub starts : List ℕ
  pub ends : List ℕ
  pub terminators : List ℕ
  pub content_len : ℕ

-- `bytes[i - 1] == b'\r'`, with no byte before the first.
unfoldable pub terminator_len : Option ℕ → ℕ
terminator_len none = 1
terminator_len (some previous) = if previous == carriage_return then 2 else 1

-- The pushes of one line on the three vectors.
unfoldable pub push_line : ℕ → ℕ → ℕ → LineMap → LineMap
push_line start end terminator map = record map {
  starts = start ∷ map.starts;
  ends = end ∷ map.ends;
  terminators = terminator ∷ map.terminators;
}

-- The scan of `parse`: the previous byte, the start of the current line, the index, and the bytes
-- from the index on.
unfoldable pub parse_from : Option ℕ → ℕ → ℕ → Bytes → LineMap
unfolding terminator_len push_line
parse_from previous line_start i [] =
    let finished : LineMap = record { starts = []; ends = []; terminators = []; content_len = i } in
    if ltb line_start i then push_line line_start i 0 finished else finished
parse_from previous line_start i (b ∷ bytes) = elim (b == line_feed) [
  | true ↦
      push_line line_start (i + 1) (terminator_len previous)
        (parse_from (some b) (i + 1) (i + 1) bytes)
  | false ↦ parse_from (some b) line_start (i + 1) bytes
]

unfoldable pub parse : Bytes → LineMap
unfolding parse_from
parse content = parse_from none 0 0 content

unfoldable pub len : LineMap → ℕ
len map = length map.starts

unfoldable pub is_empty_map : LineMap → Bool
is_empty_map map = elim map.starts [ [] ↦ true | _ ∷ _ ↦ false ]

-- `starts[k]` and its like, which the callers keep in range.
unfoldable pub index : List ℕ → ℕ → ℕ
index values k = elim (get_elem? values k) [ some value ↦ value | none ↦ 0 ]

unfoldable pub insert_offset : LineMap → ℕ → ℕ
unfolding len index
insert_offset map boundary =
    if boundary == 0
    then 0
    else if leb boundary (len map)
    then index map.starts (boundary - 1)
    else map.content_len

unfoldable pub line_span : LineMap → ℕ → ℕ → Option (ℕ × ℕ)
unfolding len index
line_span map start_line end_line =
    if start_line == 0 || end_line == 0 || ltb end_line start_line || ltb (len map) end_line
    then none
    else some (index map.starts (start_line - 1), index map.ends (end_line - 1))

unfoldable pub terminator_str : LineMap → Bytes
terminator_str map = elim map.terminators [
  | [] ↦ line_feed ∷ []
  | t ∷ _ ↦ if t == 2 then carriage_return ∷ line_feed ∷ [] else line_feed ∷ []
]

unfoldable pub lacks_trailing_newline : LineMap → Bool
unfolding is_empty_map index len
lacks_trailing_newline map = not (is_empty_map map) && index map.terminators (len map - 1) == 0

-- The inserted text with the terminator that it may lack.
unfoldable pub line_complete : LineMap → Bytes → Bytes
unfolding ends_with_line_feed terminator_str
line_complete map inserted =
    if ends_with_line_feed inserted then inserted else inserted ++ terminator_str map

unfoldable pub insert_at : LineMap → Bytes → ℕ → Bytes → Bytes
unfolding line_complete terminator_str lacks_trailing_newline insert_offset len
insert_at map file boundary inserted =
    let text = line_complete map inserted in
    let offset = insert_offset map boundary in
    if boundary == len map + 1 && lacks_trailing_newline map
    then (file ++ terminator_str map) ++ text
    else (take offset file ++ text) ++ drop offset file

-- What `delete_range_internal` prepares: the content before a span and the content after it.
unfoldable pub without_span : Bytes → ℕ × ℕ → Bytes
without_span content (span_start, span_end) = take span_start content ++ drop span_end content
