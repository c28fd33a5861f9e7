-- ===== src/Edit/Matching/Occurrences.antt =====
-- Where the search finds text (src/services/edit.rs: find_matches): what each match is, how they
-- lie, and which occurrences they account for.
use agent_workspace_hub.Prelude.{
  ℕ, zero, suc, ◌+◌, ◌-◌, ◌≤◌, ◌<◌, ◌≡◌, refl, sym, ap, ◌∙◌, inl, inr, Bool, true, false, ◌&&◌,
  none, some, List, [], ◌∷◌, ◌++◌, arith, length, take, drop, is_empty, starts_with, ltb, leb, All,
  any, Option-cases, Bool-cases, drop-drop, length-drop, take-append-drop, starts_with_rest,
  starts_with_length,
}
use agent_workspace_hub.Edit.Matching.{
  Bytes, find_text, LocatedMatch, locate, matches_from, find_matches,
}

-- The leftmost occurrence is one, and there is none before it.
find_text-some :
    (h needle : Bytes) {k : ℕ} → find_text h needle ≡ some k → starts_with (drop k h) needle ≡ true
unfolding find_text
find_text-some [] needle {k = k} e = ground arith
find_text-some (b ∷ h) needle {k = zero} e = ground (arith, find_text-some h needle)
find_text-some (b ∷ h) needle {k = suc k} e = ground (arith, find_text-some h needle {k = k})

find_text_least :
    (h needle : Bytes) (j : ℕ) {k : ℕ}
    → find_text h needle ≡ some k
    → j < k
    → starts_with (drop j h) needle ≡ false
unfolding find_text
find_text_least [] needle j {k = k} e l = ground arith
find_text_least (b ∷ h) needle zero {k = k} e l = ground arith
find_text_least (b ∷ h) needle (suc j) {k = zero} e l = ground arith
find_text_least (b ∷ h) needle (suc j) {k = suc k} e l =
    ground (arith, find_text_least h needle j {k = k})

find_text-none :
    (h needle : Bytes) (j : ℕ) → find_text h needle ≡ none → starts_with (drop j h) needle ≡ false
unfolding find_text
find_text-none [] needle zero e = ground arith
find_text-none [] needle (suc j) e = ground arith
find_text-none (b ∷ h) needle zero e = ground arith
find_text-none (b ∷ h) needle (suc j) e = ground (arith, find_text-none h needle j)

-- Where a match lies in the haystack.
unfoldable pub IsMatch : Bytes → Bytes → LocatedMatch → Type 0
IsMatch haystack needle m =
    (take m.byte_offset haystack ++ (needle ++ drop (m.byte_offset + m.length) haystack) ≡ haystack)
    × ((m.length ≡ length needle) × (m.location ≡ locate haystack m.byte_offset))

-- Each match begins at or after the end of the one before it.
unfoldable pub Apart : ℕ → List LocatedMatch → Type 0
Apart from [] = Unit
Apart from (m ∷ later) = (from ≤ m.byte_offset) × Apart (m.byte_offset + m.length) later

spliced :
    (h needle : Bytes) (at : ℕ)
    → starts_with (drop at h) needle ≡ true
    → take at h ++ (needle ++ drop (at + length needle) h) ≡ h
spliced h needle at e =
    ap (λ t. take at h ++ (needle ++ t)) (sym (drop-drop (length needle) at h))
    ∙ ap (λ t. take at h ++ t) (starts_with_rest (drop at h) needle e)
    ∙ take-append-drop at h

found_at :
    (h needle : Bytes) (from : ℕ) {k : ℕ}
    → find_text (drop from h) needle ≡ some k
    → starts_with (drop (from + k) h) needle ≡ true
found_at h needle from {k = k} e = rw (← drop-drop k from h) (find_text-some (drop from h) needle e)

matches_from-IsMatch :
    (fuel : ℕ) (h needle : Bytes) (from : ℕ)
    → All (IsMatch h needle) (matches_from fuel h needle from)
unfolding matches_from IsMatch
matches_from-IsMatch zero h needle from = tt
matches_from-IsMatch (suc fuel) h needle from =
    elim (Option-cases (find_text (drop from h) needle)) [
      | inl e ↦ rw (All, e) tt
      | inr (k, e) ↦
          rw (All, e)
            (
              (spliced h needle (from + k) (found_at h needle from e), (refl, refl)),
              matches_from-IsMatch fuel h needle (from + k + length needle),
            )
    ]

matches_from-Apart :
    (fuel : ℕ) (h needle : Bytes) (from : ℕ) → Apart from (matches_from fuel h needle from)
unfolding matches_from Apart
matches_from-Apart zero h needle from = tt
matches_from-Apart (suc fuel) h needle from = elim (Option-cases (find_text (drop from h) needle)) [
  | inl e ↦ rw (Apart, e) tt
  | inr (k, e) ↦
      rw (Apart, e) (omega arith, matches_from-Apart fuel h needle (from + k + length needle))
]

-- The matches are exactly placed: replacing the bytes of any of them by the needle gives back the
-- haystack, each carries the length of the needle and the coordinates of its offset, and they
-- stand from left to right without overlap.
pub find_matches-IsMatch :
    (haystack needle : Bytes)
    → All (IsMatch haystack needle) (find_matches haystack needle)
      × Apart 0 (find_matches haystack needle)
unfolding find_matches Apart
find_matches-IsMatch haystack [] = (tt, tt)
find_matches-IsMatch haystack (c ∷ needle) = (
  matches_from-IsMatch (suc (length haystack)) haystack (c ∷ needle) 0,
  matches_from-Apart (suc (length haystack)) haystack (c ∷ needle) 0,
)

-- Whether some match begins at or before an offset and ends after it.
unfoldable pub covers : ℕ → LocatedMatch → Bool
covers at m = leb m.byte_offset at && ltb at (m.byte_offset + m.length)

-- An offset at or after the start of a search, seen from there.
seen_from :
    (h needle : Bytes) (from at : ℕ)
    → from ≤ at
    → starts_with (drop at h) needle ≡ true
    → starts_with (drop (at - from) (drop from h)) needle ≡ true
seen_from h needle from at l s =
    let sum : from + (at - from) ≡ at = omega arith in
    ap (λ t. starts_with t needle) (drop-drop (at - from) from h ∙ ap (λ k. drop k h) sum) ∙ s

positive : (needle : Bytes) → is_empty needle ≡ false → 1 ≤ length needle
positive [] n = cc
positive (c ∷ needle) n = omega arith

past_end :
    (at : ℕ) (h needle : Bytes)
    → is_empty needle ≡ false
    → length h ≤ at
    → starts_with (drop at h) needle ≡ false
past_end at h needle n l = elim (Bool-cases (starts_with (drop at h) needle)) [
  | inl e ↦
      absurd (
        omega (arith, starts_with_length (drop at h) needle e, length-drop at h, positive needle n))
  | inr e ↦ e
]

matches_from-covers :
    (fuel : ℕ) (h needle : Bytes) (from at : ℕ)
    → is_empty needle ≡ false
    → length h < fuel + from
    → from ≤ at
    → starts_with (drop at h) needle ≡ true
    → any (covers at) (matches_from fuel h needle from) ≡ true
unfolding matches_from any covers
matches_from-covers zero h needle from at n f l s = ground (arith, past_end at h needle n)
matches_from-covers (suc fuel) h needle from at n f l s =
    elim (Option-cases (find_text (drop from h) needle)) [
      | inl e ↦
          ground (
            arith,
            find_text-none (drop from h) needle (at - from) e,
            seen_from h needle from at l s,
          )
      | inr (k, e) ↦ ground (
        arith,
        find_text_least (drop from h) needle (at - from) {k = k} e,
        seen_from h needle from at l s,
        positive needle n,
        matches_from-covers fuel h needle (from + k + length needle) at n,
      )
    ]

-- No occurrence is missed: wherever a non-empty needle occurs in the haystack, some match begins
-- there or before and ends after it.
pub find_matches-covers :
    (haystack needle : Bytes) (at : ℕ)
    → is_empty needle ≡ false
    → starts_with (drop at haystack) needle ≡ true
    → any (covers at) (find_matches haystack needle) ≡ true
unfolding find_matches
find_matches-covers haystack [] at n s = cc
find_matches-covers haystack (c ∷ needle) at n s =
    matches_from-covers (suc (length haystack)) haystack (c ∷ needle) 0 at n (omega arith)
      (omega arith) s
