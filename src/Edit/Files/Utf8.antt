-- ===== src/Edit/Files/Utf8.antt =====
-- UTF-8 and the splicing of text at the offset of a match (src/services/edit.rs:
-- replace_internal), which slices at the boundaries of characters.
use agent_workspace_hub.Prelude.{
  ℕ, ◌≤◌, ◌<◌, ◌≡◌, refl, ◌⊎◌, inl, inr, true, some, List, [], ◌∷◌, ◌++◌, arith, Option-cases,
}
use agent_workspace_hub.Edit.Matching.{Bytes}
use agent_workspace_hub.Edit.Files.{following, utf8_from, is_utf8}

-- Ranges of continuation bytes.
unfoldable pub AreContinuations : List (ℕ × ℕ) → Type 0
AreContinuations [] = Unit
AreContinuations ((low, high) ∷ ranges) = (0x80 ≤ low) × ((high ≤ 0xbf) × AreContinuations ranges)

following-AreContinuations :
    (b : ℕ) {ranges : List (ℕ × ℕ)} → following b ≡ some ranges → AreContinuations ranges
unfolding following AreContinuations
following-AreContinuations b {ranges = []} e = tt
following-AreContinuations b {ranges = r ∷ []} e = (ground arith, (ground arith, tt))
following-AreContinuations b {ranges = r ∷ s ∷ []} e =
    (ground arith, (ground arith, (ground arith, (ground arith, tt))))
following-AreContinuations b {ranges = r ∷ s ∷ t ∷ []} e = (
  ground arith,
  (ground arith, (ground arith, (ground arith, (ground arith, (ground arith, tt))))),
)
following-AreContinuations b {ranges = r ∷ s ∷ t ∷ u ∷ more} e = absurd (ground arith)

following_apart :
    (b : ℕ) {ranges : List (ℕ × ℕ)} → following b ≡ some ranges → (b < 0x80) ⊎ (0xc2 ≤ b)
unfolding following
following_apart b e = ground arith

-- Bytes that stop before a leading byte are whole characters.
pub before_leading :
    (ranges : List (ℕ × ℕ)) (xs ys : Bytes) (b : ℕ) {next : List (ℕ × ℕ)}
    → AreContinuations ranges
    → following b ≡ some next
    → utf8_from ranges (xs ++ b ∷ ys) ≡ true
    → utf8_from ranges xs ≡ true
unfolding utf8_from AreContinuations
before_leading [] [] ys b c f e = refl
before_leading ((low, high) ∷ ranges) [] ys b {next = next} c f e =
    ground (arith, following_apart b {ranges = next} f, c)
before_leading [] (x ∷ xs) ys b {next = next} c f e = elim (Option-cases (following x)) [
  | inl n ↦ ground arith
  | inr (r, n) ↦
      let cs = following-AreContinuations x n in
      ground (arith, before_leading r xs ys b {next = next} cs f)
]
before_leading ((low, high) ∷ ranges) (x ∷ xs) ys b {next = next} c f e =
    ground (arith, before_leading ranges xs ys b {next = next} c.1.1 f)

-- After whole characters, the rest is judged by itself.
pub after_whole :
    (ranges : List (ℕ × ℕ)) (xs ys : Bytes)
    → utf8_from ranges xs ≡ true
    → utf8_from ranges (xs ++ ys) ≡ is_utf8 ys
unfolding utf8_from is_utf8
after_whole [] [] ys e = refl
after_whole (r ∷ ranges) [] ys e = cc
after_whole [] (x ∷ xs) ys e = elim (Option-cases (following x)) [
  | inl n ↦ ground arith
  | inr (r, n) ↦ ground (arith, after_whole r xs ys)
]
after_whole ((low, high) ∷ ranges) (x ∷ xs) ys e = ground (arith, after_whole ranges xs ys)
