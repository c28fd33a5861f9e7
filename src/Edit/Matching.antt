-- ===== src/Edit/Matching.antt =====
-- The search for literal text in a file (src/services/edit.rs: find_matches, locate,
-- check_context). The content of a file is the list of its UTF-8 bytes, so that a byte offset is
-- an index of the list.
pub mod Occurrences
use agent_workspace_hub.Prelude.{
  ℕ, zero, suc, ◌+◌, ◌-◌, Bool, true, false, ◌&&◌, Option, none, some, List, [], ◌∷◌, length, take,
  drop, is_empty, starts_with, Text, if◌then◌else◌, ltb, leb, ◌==◌,
}

abbrev pub Bytes : Type 0
Bytes = List ℕ

abbrev pub line_feed : ℕ
line_feed = 0x0a

-- `str::find` with a text: the offset of its leftmost occurrence.
unfoldable pub find_text : Bytes → Bytes → Option ℕ
find_text [] needle = if starts_with [] needle then some 0 else none
find_text (b ∷ bytes) needle = elim (starts_with (b ∷ bytes) needle) [
  | true ↦ some 0
  | false ↦ elim (find_text bytes needle) [ some at ↦ some (suc at) | none ↦ none ]
]

pub record MatchLocation : Type 0 where
  pub byte_offset : ℕ
  pub line : ℕ
  pub column : ℕ

pub record LocatedMatch : Type 0 where
  pub byte_offset : ℕ
  pub length : ℕ
  pub location : MatchLocation

-- `matches('\n').count()`.
unfoldable pub count_line_feeds : Bytes → ℕ
count_line_feeds [] = 0
count_line_feeds (b ∷ bytes) =
    let rest = count_line_feeds bytes in if b == line_feed then suc rest else rest

-- `rfind('\n').map_or(0, |i| i + 1)`.
unfoldable pub line_start : Bytes → ℕ
unfolding count_line_feeds
line_start [] = 0
line_start (b ∷ bytes) =
    let rest = line_start bytes in
    if ltb 0 (count_line_feeds bytes) then suc rest else if b == line_feed then 1 else 0

-- `chars().count()`: every byte but the continuation bytes begins a character.
unfoldable pub count_chars : Bytes → ℕ
count_chars [] = 0
count_chars (b ∷ bytes) =
    let rest = count_chars bytes in if leb 0x80 b && ltb b 0xc0 then rest else suc rest

unfoldable pub locate : Bytes → ℕ → MatchLocation
unfolding count_line_feeds line_start count_chars
locate content byte_offset =
    let before = take byte_offset content in
    record {
      byte_offset = byte_offset;
      line = count_line_feeds before + 1;
      column = count_chars (drop (line_start before) before) + 1;
    }

-- The loop of `find_matches`. The fuel stands for the iterations left.
unfoldable pub matches_from : ℕ → Bytes → Bytes → ℕ → List LocatedMatch
unfolding find_text locate
matches_from zero haystack needle search_from = []
matches_from (suc fuel) haystack needle search_from =
    elim (find_text (drop search_from haystack) needle) [
      | none ↦ []
      | some relative ↦
          let byte_offset = search_from + relative in
          record {
            byte_offset = byte_offset;
            length = length needle;
            location = locate haystack byte_offset;
          }
          ∷ matches_from fuel haystack needle (byte_offset + length needle)
    ]

unfoldable pub find_matches : Bytes → Bytes → List LocatedMatch
unfolding matches_from
find_matches haystack needle =
    if is_empty needle then [] else matches_from (suc (length haystack)) haystack needle 0
