-- ===== src/Edit/Diff/Tests.antt =====
-- Hunks on small files, and the theorems on hunks at them.
use agent_workspace_hub.Prelude.{
  ◌≤◌, ◌≡◌, refl, List, [], ◌∷◌, ◌++◌, Text, codes, ok, err, All, inl, inr,
}
use agent_workspace_hub.Edit.Diff.{
  context, add, del, ParsedHunk, FileLine, lf, crlf, lines_of, rebuild, apply_hunk,
  apply_hunks_to_content,
}
use agent_workspace_hub.Edit.Diff.Sides.{old_side, new_side, texts, apply_hunk-sides}
use agent_workspace_hub.Edit.Diff.Undo.{undo}
use agent_workspace_hub.Edit.Diff.Rebuild.{
  no_feed, ends_in_return, IsTerminator, IsLineText, IsEnded,
}
use agent_workspace_hub.Edit.Diff.Restored.{IsPlainHunk, apply_hunks_to_content-undo}
use agent_workspace_hub.Edit.Matching.{Bytes}
use agent_workspace_hub.Edit.Model.{hunk_context_mismatch}

abbrev name : Text
name = codes "f"

-- A hunk that keeps a last line without a line feed, and adds one.
abbrev appending : ParsedHunk
appending = record {
  old_start = 1;
  old_lines = 1;
  new_start = 1;
  new_lines = 2;
  lines = context (codes "b") ∷ add (codes "c") ∷ [];
}

joined_line : apply_hunks_to_content (codes "b") (appending ∷ []) name ≡ ok (codes "bc")
unfolding apply_hunks_to_content
joined_line = refl

abbrev changing : ParsedHunk
changing = record {
  old_start = 1;
  old_lines = 2;
  new_start = 1;
  new_lines = 2;
  lines = context (codes "ab") ∷ del (codes "ab") ∷ add (codes "c") ∷ [];
}

abbrev two_lines : List FileLine
two_lines =
    record { text = codes "ab"; terminator = lf }
    ∷ record { text = codes "ab"; terminator = [] }
    ∷ []

abbrev changed_lines : List FileLine
changed_lines =
    record { text = codes "ab"; terminator = lf }
    ∷ record { text = codes "c"; terminator = lf }
    ∷ []

apply_hunk-sides_example :
    (composed : List FileLine) × (changed_lines ≡ [] ++ (composed ++ []))
    × (texts composed ≡ codes "ab" ∷ codes "c" ∷ [])
    × (texts two_lines ≡ codes "ab" ∷ codes "ab" ∷ [])
    × (2 ≤ 2)
unfolding apply_hunk old_side new_side texts
apply_hunk-sides_example = apply_hunk-sides name two_lines 0 changing changed_lines refl

-- The joined line is not parted again.
joined_line_kept :
    apply_hunks_to_content (codes "bc") (undo appending ∷ []) name
    ≡ err (hunk_context_mismatch name 1)
unfolding apply_hunks_to_content undo
joined_line_kept = refl

abbrev ended_lines : List FileLine
ended_lines =
    record { text = codes "ab"; terminator = lf }
    ∷ record { text = codes "ab"; terminator = crlf }
    ∷ []

abbrev changed_file : Bytes
changed_file = codes "ab" ++ lf ++ codes "c" ++ lf

ended_lines-IsEnded : All IsEnded ended_lines
unfolding IsEnded IsLineText no_feed ends_in_return IsTerminator
ended_lines-IsEnded = (((refl, refl), inl refl), (((refl, refl), inr refl), tt))

changing_plain : IsPlainHunk changing.lines
unfolding IsPlainHunk IsLineText no_feed ends_in_return
changing_plain = ((refl, refl), ((refl, refl), ((refl, refl), tt)))

lines_changed : apply_hunks_to_content (rebuild ended_lines) (changing ∷ []) name ≡ ok changed_file
unfolding apply_hunks_to_content rebuild
lines_changed = refl

apply_hunks_to_content-undo_example :
    (restored : Bytes) × (apply_hunks_to_content changed_file (undo changing ∷ []) name
      ≡ ok restored)
    × (texts (lines_of restored) ≡ texts ended_lines)
apply_hunks_to_content-undo_example =
    apply_hunks_to_content-undo name ended_lines changing changed_file ended_lines-IsEnded
      changing_plain lines_changed
