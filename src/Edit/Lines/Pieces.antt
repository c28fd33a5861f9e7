-- ===== src/Edit/Lines/Pieces.antt =====
-- A file as the list of its lines, each with its terminator, and the line map of the file
-- (src/services/edit.rs: LineMap) as the positions of those lines.
use agent_workspace_hub.Prelude.{
  ℕ, ◌+◌, ◌≡◌, refl, sym, ap, ◌∙◌, inl, inr, true, false, Option, some, List, [], ◌∷◌, ◌++◌, arith,
  length, is_empty, ◌==◌, Bool-cases, length-append, if◌then◌else◌,
}
use mathlib.Core.List.{append_assoc}
use agent_workspace_hub.Edit.Matching.{Bytes, line_feed}
use agent_workspace_hub.Edit.Lines.{parse_from, push_line, terminator_len}

-- The lines of a text of which a part of the first line is known.
unfoldable pub lines_after : Bytes → Bytes → List Bytes
lines_after known [] = if is_empty known then [] else known ∷ []
lines_after known (b ∷ bytes) = elim (b == line_feed) [
  | true ↦ (known ++ b ∷ []) ∷ lines_after [] bytes
  | false ↦ lines_after (known ++ b ∷ []) bytes
]

-- The lines of a file, each with its terminator.
unfoldable pub file_lines : Bytes → List Bytes
unfolding lines_after
file_lines content = lines_after [] content

unfoldable pub join : List Bytes → Bytes
join [] = []
join (l ∷ ls) = l ++ join ls

-- Where lines that follow an offset begin and end.
unfoldable pub starts_of : ℕ → List Bytes → List ℕ
starts_of o [] = []
starts_of o (l ∷ ls) = o ∷ starts_of (o + length l) ls

unfoldable pub ends_of : ℕ → List Bytes → List ℕ
ends_of o [] = []
ends_of o (l ∷ ls) = (o + length l) ∷ ends_of (o + length l) ls

append_snoc : (known bytes : Bytes) (b : ℕ) → (known ++ b ∷ []) ++ bytes ≡ known ++ b ∷ bytes
append_snoc known bytes b = append_assoc known (b ∷ []) bytes

lines_after-join : (known bytes : Bytes) → join (lines_after known bytes) ≡ known ++ bytes
unfolding join lines_after
lines_after-join [] [] = refl
lines_after-join (k ∷ known) [] = refl
lines_after-join known (b ∷ bytes) = elim (Bool-cases (b == line_feed)) [
  | inl e ↦
      rw (e, join)
        (ap (λ t. (known ++ b ∷ []) ++ t) (lines_after-join [] bytes) ∙ append_snoc known bytes b)
  | inr e ↦ rw (e, join) (lines_after-join (known ++ b ∷ []) bytes ∙ append_snoc known bytes b)
]

-- The lines of a file make up the file.
pub file_lines-join : (content : Bytes) → join (file_lines content) ≡ content
unfolding file_lines
file_lines-join content = lines_after-join [] content

snoc_length : (known : Bytes) (b : ℕ) → length (known ++ b ∷ []) ≡ length known + 1
snoc_length known b = omega (arith, length-append known (b ∷ []))

pub lines_after_feed :
    (known bytes : Bytes) (b : ℕ)
    → (b == line_feed) ≡ true
    → lines_after known (b ∷ bytes) ≡ (known ++ b ∷ []) ∷ lines_after [] bytes
unfolding lines_after
lines_after_feed known bytes b e = rw (e, lines_after) refl

pub lines_after_other :
    (known bytes : Bytes) (b : ℕ)
    → (b == line_feed) ≡ false
    → lines_after known (b ∷ bytes) ≡ lines_after (known ++ b ∷ []) bytes
unfolding lines_after
lines_after_other known bytes b e = rw (e, lines_after) refl

pub parse_from_feed :
    (previous : Option ℕ) (s i : ℕ) (bytes : Bytes) (b : ℕ)
    → (b == line_feed) ≡ true
    → parse_from previous s i (b ∷ bytes)
      ≡ push_line s (i + 1) (terminator_len previous) (parse_from (some b) (i + 1) (i + 1) bytes)
unfolding parse_from
parse_from_feed previous s i bytes b e = rw (e, parse_from) refl

pub parse_from_other :
    (previous : Option ℕ) (s i : ℕ) (bytes : Bytes) (b : ℕ)
    → (b == line_feed) ≡ false
    → parse_from previous s i (b ∷ bytes) ≡ parse_from (some b) s (i + 1) bytes
unfolding parse_from
parse_from_other previous s i bytes b e = rw (e, parse_from) refl

-- The scan of a file whose current line begins at an offset and is known up to the index.
pub parse_from-starts :
    (previous : Option ℕ) (s i : ℕ) (known bytes : Bytes)
    → i ≡ s + length known
    → (parse_from previous s i bytes).starts ≡ starts_of s (lines_after known bytes)
unfolding parse_from push_line lines_after starts_of
parse_from-starts previous s i [] [] h = ground arith
parse_from-starts previous s i (k ∷ known) [] h = ground arith
parse_from-starts previous s i known (b ∷ bytes) h = elim (Bool-cases (b == line_feed)) [
  | inl e ↦
      let begun : i + 1 ≡ s + length (known ++ b ∷ []) = omega (arith, snoc_length known b) in
      ap (λ m. m.starts) (parse_from_feed previous s i bytes b e)
      ∙ ap (λ t. s ∷ t)
          (parse_from-starts (some b) (i + 1) (i + 1) [] bytes (omega arith)
            ∙ ap (λ o. starts_of o (lines_after [] bytes)) begun)
      ∙ ap (starts_of s) (sym (lines_after_feed known bytes b e))
  | inr e ↦
      ap (λ m. m.starts) (parse_from_other previous s i bytes b e)
      ∙ parse_from-starts (some b) s (i + 1) (known ++ b ∷ []) bytes
          (omega (arith, snoc_length known b))
      ∙ ap (starts_of s) (sym (lines_after_other known bytes b e))
]

pub parse_from-ends :
    (previous : Option ℕ) (s i : ℕ) (known bytes : Bytes)
    → i ≡ s + length known
    → (parse_from previous s i bytes).ends ≡ ends_of s (lines_after known bytes)
unfolding parse_from push_line lines_after ends_of
parse_from-ends previous s i [] [] h = ground arith
parse_from-ends previous s i (k ∷ known) [] h = ground arith
parse_from-ends previous s i known (b ∷ bytes) h = elim (Bool-cases (b == line_feed)) [
  | inl e ↦
      let begun : i + 1 ≡ s + length (known ++ b ∷ []) = omega (arith, snoc_length known b) in
      ap (λ m. m.ends) (parse_from_feed previous s i bytes b e)
      ∙ ap (λ t. (i + 1) ∷ t) (parse_from-ends (some b) (i + 1) (i + 1) [] bytes (omega arith))
      ∙ ap (λ o. o ∷ ends_of o (lines_after [] bytes)) begun
      ∙ ap (ends_of s) (sym (lines_after_feed known bytes b e))
  | inr e ↦
      ap (λ m. m.ends) (parse_from_other previous s i bytes b e)
      ∙ parse_from-ends (some b) s (i + 1) (known ++ b ∷ []) bytes
          (omega (arith, snoc_length known b))
      ∙ ap (ends_of s) (sym (lines_after_other known bytes b e))
]

pub parse_from-content_len :
    (previous : Option ℕ) (s i : ℕ) (bytes : Bytes)
    → (parse_from previous s i bytes).content_len ≡ i + length bytes
unfolding parse_from push_line
parse_from-content_len previous s i [] = ground arith
parse_from-content_len previous s i (b ∷ bytes) = ground (
  arith,
  parse_from-content_len (some b) (i + 1) (i + 1) bytes,
  parse_from-content_len (some b) s (i + 1) bytes,
)
