-- ===== src/Edit/Tests.antt =====
-- Edits of a small file, and the theorems of this part at them. The digest is the content
-- itself, which differs for different contents.
use agent_workspace_hub.Prelude.{
  ◌≤◌, ◌≡◌, ◌↔◌, refl, ◌⊎◌, true, none, some, List, [], ◌∷◌, ◌++◌, length, any, All, Text, codes,
  text_eq, ok, err, if◌then◌else◌, starts_with,
}
use agent_workspace_hub.Edit.Status.{
  EditStatus, requested, authorized, located, validated, snapshotted, applied, verified, committed,
  rejected, is_terminal, is_run, final, run-terminates, final-committed,
}
use agent_workspace_hub.Edit.Matching.{Bytes, find_matches, locate, line_feed}
use agent_workspace_hub.Edit.Matching.Occurrences.{
  IsMatch, Apart, covers, find_matches-IsMatch, find_matches-covers,
}
use agent_workspace_hub.Edit.Model.{
  EditTransaction, EditError, ExpectedState, from_content, replace, insert, delete_range, single,
  semantic_verification_failure, ambiguous_match,
}
use agent_workspace_hub.Edit.Files.{Disk, not_found, put, read_bytes}
use agent_workspace_hub.Edit.Commit.{World, commit_edit}
use agent_workspace_hub.Edit.Commit.Edits.{commit_edit-stale}
use agent_workspace_hub.Edit.Execute.{Plan, EditResult, request, splice, replace_internal}
use agent_workspace_hub.Edit.Execute.Splice.{IsText, splice-IsText}
use agent_workspace_hub.Edit.Execute.Replaced.{ReplacedAs, replace_internal-eq-ok}
use agent_workspace_hub.Edit.Execute.Alone.{alone}
use agent_workspace_hub.Edit.Execute.Atomic.{replace_internal-atomic}
use agent_workspace_hub.Edit.Execute.Empty.{replace_internal-empty}
use agent_workspace_hub.Edit.LineEdits.{
  LineEditResult, inserted, deleted, insert_internal, delete_range_internal,
}
use agent_workspace_hub.Edit.LineEdits.Inserted.{InsertedAs, insert_internal-lines}
use agent_workspace_hub.Edit.LineEdits.Deleted.{DeletedAs, delete_range_internal-lines}

abbrev file : Bytes
file = codes "ab" ++ line_feed ∷ codes "ab"

abbrev name : Text
name = codes "f"

abbrev digest : Bytes → Text
digest content = content

abbrev disk : Disk
disk path = if text_eq path name then ok file else err (not_found (codes "no file"))

-- The second line, with the end of the line before it; the size and the lines of the file.
abbrev around : ExpectedState
around = record {
  hash = none;
  context = some (line_feed ∷ codes "ab");
  size = some 5;
  line_count = some 2;
}

-- The first line, with the beginning of the one after it.
abbrev at_first : ExpectedState
at_first = record around { context = some (codes "ab" ++ line_feed ∷ codes "a") }

abbrev second_only : EditTransaction
second_only = record (single (codes "t") (replace name (codes "ab") (codes "xyz") (some 2))) {
  expected = around ∷ [];
}

abbrev replaced_file : Bytes
replaced_file = codes "ab" ++ line_feed ∷ codes "xyz"

abbrev replaced : EditResult
replaced = record {
  id = codes "t";
  path = name;
  status = committed;
  before = from_content digest name file;
  after = from_content digest name replaced_file;
  match_count = 2;
  selected_occurrence = 2;
  location = record { byte_offset = 3; line = 2; column = 1 };
}

replaced_result : (replace_internal digest (alone none none none) second_only disk).0 ≡ ok replaced
unfolding replace_internal alone single from_content
replaced_result = refl

replace_internal-eq-ok_example :
    ReplacedAs digest
      (alone none none none)
      second_only
      disk
      replaced
      (replace_internal digest (alone none none none) second_only disk).1
replace_internal-eq-ok_example =
    replace_internal-eq-ok digest (alone none none none) second_only disk replaced replaced_result

-- Two matches, and none selected.
abbrev either : EditTransaction
either = single (codes "t") (replace name (codes "ab") (codes "xyz") none)

ambiguous_error :
    (replace_internal digest (alone none none none) either disk).0
    ≡ err (ambiguous_match name 2 (locate file 0 ∷ locate file 3 ∷ []))
unfolding replace_internal alone single from_content
ambiguous_error = refl

replace_internal-atomic_example :
    (replace_internal digest (alone none none none) either disk).1 ≡ disk
unfolding single IsText
replace_internal-atomic_example =
    replace_internal-atomic digest none none none either disk name (codes "ab") (codes "xyz") none
      (ambiguous_match name 2 (locate file 0 ∷ locate file 3 ∷ [])) refl refl refl refl
      ambiguous_error

-- Another process writes the file between the preflight and the guard.
abbrev meddled : World
meddled = record (alone none none none) { before_guard = put name (codes "zz") }

commit_edit-stale_example :
    (error : EditError) × ((commit_edit digest meddled name replaced_file
          (from_content digest name file)
          (λ _ _. ok tt)
          disk
        ≡ (err error, disk))
      ⊎ (commit_edit digest meddled name replaced_file
            (from_content digest name file)
            (λ _ _. ok tt)
            disk
          ≡ (err error, put name (codes "zz") disk)))
unfolding alone put read_bytes from_content
commit_edit-stale_example =
    commit_edit-stale digest meddled name replaced_file (from_content digest name file)
      (λ _ _. ok tt) disk (codes "zz") refl refl

abbrev erase : EditTransaction
erase = single (codes "t") (replace name (codes "ab") [] (some 2))

abbrev erasing : Plan
erasing = record {
  path = name;
  old = codes "ab";
  new = [];
  occurrence = some 2;
  current = record { content = file; before = from_content digest name file };
  prepared = codes "ab" ++ line_feed ∷ [];
  matches = find_matches file (codes "ab");
  selected_index = 1;
  selected = record { byte_offset = 3; length = 2; location = locate file 3 };
}

replace_internal-empty_example : replace_internal digest (alone none none none) erase disk ≡ (
  err (
      semantic_verification_failure name (from_content digest name (codes "ab" ++ line_feed ∷ []))),
  put name (codes "ab" ++ line_feed ∷ []) disk,
)
unfolding single request IsText from_content
replace_internal-empty_example =
    replace_internal-empty digest erase disk erasing refl refl refl refl

abbrev insertion : EditTransaction
insertion = record (single (codes "t") (insert name 2 (codes "new"))) { expected = at_first ∷ [] }

abbrev inserted_file : Bytes
inserted_file = codes "ab" ++ line_feed ∷ codes "new" ++ line_feed ∷ codes "ab"

abbrev insertion_result : LineEditResult
insertion_result = record {
  id = codes "t";
  path = name;
  status = committed;
  before = from_content digest name file;
  after = from_content digest name inserted_file;
  kind = inserted 2;
}

insert_internal-lines_example :
    InsertedAs digest
      (alone none none none)
      insertion
      disk
      (insert_internal digest (alone none none none) insertion disk).1
unfolding insert_internal alone single from_content
insert_internal-lines_example =
    insert_internal-lines digest (alone none none none) insertion disk insertion_result refl

abbrev deletion : EditTransaction
deletion = record (single (codes "t") (delete_range name 1 1)) { expected = at_first ∷ [] }

abbrev deletion_result : LineEditResult
deletion_result = record {
  id = codes "t";
  path = name;
  status = committed;
  before = from_content digest name file;
  after = from_content digest name (codes "ab");
  kind = deleted 1 1;
}

delete_range_internal-lines_example :
    DeletedAs digest
      (alone none none none)
      deletion
      disk
      (delete_range_internal digest (alone none none none) deletion disk).1
unfolding delete_range_internal alone single from_content
delete_range_internal-lines_example =
    delete_range_internal-lines digest (alone none none none) deletion disk deletion_result refl

find_matches-IsMatch_example :
    All (IsMatch (codes "aaaa") (codes "aa")) (find_matches (codes "aaaa") (codes "aa"))
    × Apart 0 (find_matches (codes "aaaa") (codes "aa"))
find_matches-IsMatch_example = find_matches-IsMatch (codes "aaaa") (codes "aa")

find_matches-covers_example : any (covers 1) (find_matches (codes "aaaa") (codes "aa")) ≡ true
unfolding starts_with
find_matches-covers_example = find_matches-covers (codes "aaaa") (codes "aa") 1 refl refl

run-terminates_example : length (authorized ∷ rejected ∷ []) ≤ 7
unfolding is_run is_terminal
run-terminates_example = run-terminates requested (authorized ∷ rejected ∷ []) refl

abbrev full_run : List EditStatus
full_run = authorized ∷ located ∷ validated ∷ applied ∷ verified ∷ committed ∷ []

final-committed_example :
    ((is_run requested full_run ≡ true) × (final requested full_run ≡ committed)) ↔ (
      (full_run
        ≡ authorized ∷ located ∷ validated ∷ snapshotted ∷ applied ∷ verified ∷ committed ∷ [])
      ⊎ (full_run ≡ authorized ∷ located ∷ validated ∷ applied ∷ verified ∷ committed ∷ []))
final-committed_example = final-committed full_run

splice-IsText_example :
    IsText
      (splice file record { byte_offset = 3; length = 2; location = locate file 3 } (codes "xyz"))
unfolding IsText IsMatch
splice-IsText_example =
    splice-IsText file (codes "ab") (codes "xyz")
      record { byte_offset = 3; length = 2; location = locate file 3 } refl refl refl refl
      (refl, (refl, refl))
