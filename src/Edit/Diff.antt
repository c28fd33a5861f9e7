-- ===== src/Edit/Diff.antt =====
-- The application of the hunks of a unified diff to a file (src/services/edit.rs: ParsedHunk,
-- apply_hunks_to_content). Lines are kept with their own terminators.
pub mod Sides
pub mod Rebuild
pub mod Undo
pub mod Restored
mod Tests
use agent_workspace_hub.Prelude.{
  ℕ, suc, ◌+◌, ◌-◌, Bool, true, false, not, ◌&&◌, ◌||◌, Option, none, some, List, [], ◌∷◌, ◌++◌,
  map, length, get_elem?, take, drop, retain, Text, text_eq, Result, ok, err, ◌>>=◌, ◌>>◌, guard,
  if◌then◌else◌, ltb, leb, ◌==◌,
}
use agent_workspace_hub.Edit.Matching.{Bytes, line_feed}
use agent_workspace_hub.Edit.Lines.{carriage_return, ends_with_line_feed}
use agent_workspace_hub.Edit.Lines.Pieces.{file_lines}
use agent_workspace_hub.Edit.Model.{EditError, hunk_context_mismatch}

pub data HunkLine : Type 0 where
  context add del : (text : Bytes) → HunkLine

pub record ParsedHunk : Type 0 where
  pub old_start : ℕ
  pub old_lines : ℕ
  pub new_start : ℕ
  pub new_lines : ℕ
  pub lines : List HunkLine

-- The text of a line and its terminator.
pub record FileLine : Type 0 where
  pub text : Bytes
  pub terminator : Bytes

-- `ends_with` and `strip_suffix`.
unfoldable pub ends_with : Bytes → Bytes → Bool
unfolding text_eq
ends_with bytes suffix =
    leb (length suffix) (length bytes) && text_eq (drop (length bytes - length suffix) bytes) suffix

unfoldable pub without_suffix : Bytes → Bytes → Bytes
without_suffix bytes suffix = take (length bytes - length suffix) bytes

abbrev pub crlf : Bytes
crlf = carriage_return ∷ line_feed ∷ []

abbrev pub lf : Bytes
lf = line_feed ∷ []

-- A chunk of `split_inclusive('\n')`, parted.
unfoldable pub file_line : Bytes → FileLine
unfolding ends_with without_suffix
file_line chunk =
    if ends_with chunk crlf
    then record { text = without_suffix chunk crlf; terminator = crlf }
    else if ends_with chunk lf
    then record { text = without_suffix chunk lf; terminator = lf }
    else record { text = chunk; terminator = [] }

unfoldable pub lines_of : Bytes → List FileLine
unfolding file_line file_lines
lines_of content = map file_line (file_lines content)

-- `sort_by_key` with the key `(Reverse(old_start), orig)`.
unfoldable pub comes_first : ℕ × ParsedHunk → ℕ × ParsedHunk → Bool
comes_first (i, a) (j, b) = ltb b.old_start a.old_start || (a.old_start == b.old_start && leb i j)

unfoldable pub insert_hunk : ℕ × ParsedHunk → List (ℕ × ParsedHunk) → List (ℕ × ParsedHunk)
unfolding comes_first
insert_hunk hunk [] = hunk ∷ []
insert_hunk hunk (other ∷ hunks) =
    if comes_first hunk other then hunk ∷ other ∷ hunks else other ∷ insert_hunk hunk hunks

unfoldable pub enumerate : ℕ → List ParsedHunk → List (ℕ × ParsedHunk)
enumerate i [] = []
enumerate i (hunk ∷ hunks) = (i, hunk) ∷ enumerate (i + 1) hunks

unfoldable pub sort_hunks : List (ℕ × ParsedHunk) → List (ℕ × ParsedHunk)
unfolding insert_hunk
sort_hunks [] = []
sort_hunks (hunk ∷ hunks) = insert_hunk hunk (sort_hunks hunks)

-- Whether the contexts and the deletions are the texts of the file from a cursor on.
unfoldable pub hunk_fits : List FileLine → ℕ → List HunkLine → Bool
unfolding text_eq
hunk_fits file cursor [] = true
hunk_fits file cursor (context expected ∷ lines) = elim (get_elem? file cursor) [
  | none ↦ false
  | some line ↦ text_eq line.text expected && hunk_fits file (cursor + 1) lines
]
hunk_fits file cursor (del expected ∷ lines) = elim (get_elem? file cursor) [
  | none ↦ false
  | some line ↦ text_eq line.text expected && hunk_fits file (cursor + 1) lines
]
hunk_fits file cursor (add _ ∷ lines) = hunk_fits file cursor lines

unfoldable pub target_idx : ParsedHunk → ℕ
target_idx hunk = if hunk.old_start == 0 then 0 else hunk.old_start - 1

unfoldable pub terminator_at : Bytes → Option FileLine → Bytes
terminator_at fallback none = fallback
terminator_at fallback (some line) = line.terminator

unfoldable pub anchor_terminator : List FileLine → ℕ → Bytes
unfolding terminator_at
anchor_terminator file target =
    terminator_at (terminator_at lf (get_elem? file 0)) (get_elem? file target)

-- The lines that take the place of the span.
unfoldable pub compose : List FileLine → Bytes → ℕ → List HunkLine → List FileLine
unfolding terminator_at
compose file anchor position [] = []
compose file anchor position (context text ∷ lines) =
    record { text = text; terminator = terminator_at anchor (get_elem? file position) }
    ∷ compose file anchor (position + 1) lines
compose file anchor position (del _ ∷ lines) = compose file anchor (position + 1) lines
compose file anchor position (add text ∷ lines) =
    record { text = text; terminator = anchor } ∷ compose file anchor position lines

unfoldable pub remove_count : List HunkLine → ℕ
remove_count [] = 0
remove_count (context _ ∷ lines) = suc (remove_count lines)
remove_count (del _ ∷ lines) = suc (remove_count lines)
remove_count (add _ ∷ lines) = remove_count lines

-- One round of the loop over the sorted hunks.
unfoldable pub apply_hunk : Text → List FileLine → ℕ × ParsedHunk → Result EditError (List FileLine)
unfolding target_idx hunk_fits anchor_terminator compose remove_count
apply_hunk path file (orig, hunk) = do
  let target = target_idx hunk
  guard (hunk_fits file target hunk.lines) (hunk_context_mismatch path (orig + 1))
  let composed = compose file (anchor_terminator file target) target hunk.lines
  let end = target + remove_count hunk.lines
  guard (leb end (length file)) (hunk_context_mismatch path (orig + 1))
  ok (take target file ++ (composed ++ drop end file))

unfoldable pub apply_sorted :
    Text → List FileLine → List (ℕ × ParsedHunk) → Result EditError (List FileLine)
unfolding apply_hunk
apply_sorted path file [] = ok file
apply_sorted path file (hunk ∷ hunks) =
    apply_hunk path file hunk >>= λ next. apply_sorted path next hunks

-- The last line gets the last terminator of the original file back when it has lost one.
unfoldable pub repair_last : Bytes → List FileLine → List FileLine
unfolding ends_with
repair_last content [] = []
repair_last content (line ∷ lines) = elim lines [
  | [] ↦
      (if ends_with content lf && length line.terminator == 0
        then record line { terminator = if ends_with content crlf then crlf else lf }
        else line)
      ∷ []
  | _ ∷ _ ↦ line ∷ repair_last content lines
]

unfoldable pub rebuild : List FileLine → Bytes
rebuild [] = []
rebuild (line ∷ lines) = (line.text ++ line.terminator) ++ rebuild lines

unfoldable pub apply_hunks_to_content : Bytes → List ParsedHunk → Text → Result EditError Bytes
unfolding lines_of sort_hunks enumerate apply_sorted repair_last rebuild
apply_hunks_to_content content hunks path = do
  file ← apply_sorted path (lines_of content) (sort_hunks (enumerate 0 hunks))
  ok (rebuild (repair_last content file))
