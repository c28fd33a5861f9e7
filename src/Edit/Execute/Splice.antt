-- ===== src/Edit/Execute/Splice.antt =====
-- The content with one match replaced (src/services/edit.rs: replace_internal): it is whole
-- text when the parts are, and holds the replacement.
use agent_workspace_hub.Prelude.{
  ℕ, zero, suc, ◌+◌, ◌≡◌, sym, ap, ◌∙◌, inl, inr, Bool, true, false, some, List, [], ◌∷◌, ◌++◌,
  arith, length, take, drop, ◌==◌, All, any, get_elem?, Option-cases, is_empty, starts_with,
  starts_with_append, drop_prefix,
}
use mathlib.Core.List.{append_assoc}
use mathlib.Core.Path.{subst}
use mathlib.Core.Option.{some-injective}
use agent_workspace_hub.Edit.Matching.{Bytes, LocatedMatch, find_matches}
use agent_workspace_hub.Edit.Matching.Occurrences.{IsMatch, find_matches-covers, covers}
use agent_workspace_hub.Edit.Files.{following, utf8_from, is_utf8}
use agent_workspace_hub.Edit.Files.Utf8.{AreContinuations, before_leading, after_whole}
use agent_workspace_hub.Edit.Execute.{splice}

leading :
    (xs needle ys : Bytes)
    → is_empty needle ≡ false
    → is_utf8 needle ≡ true
    → is_utf8 (xs ++ (needle ++ ys)) ≡ true
    → is_utf8 xs ≡ true
unfolding is_utf8 utf8_from AreContinuations
leading xs [] ys n u e = cc
leading xs (c ∷ needle) ys n u e = elim (Option-cases (following c)) [
  | inl f ↦ ground arith
  | inr (r, f) ↦ before_leading [] xs (needle ++ ys) c {next = r} tt f e
]

unfoldable pub IsText : Bytes → Type 0
unfolding is_utf8
IsText bytes = is_utf8 bytes ≡ true

IsText-append : (xs ys : Bytes) → IsText xs → IsText ys → IsText (xs ++ ys)
unfolding IsText is_utf8
IsText-append xs ys x y = after_whole [] xs ys x ∙ y

-- Replacing a match of text in text by text gives text: the slices are taken at the boundaries
-- of characters.
pub splice-IsText :
    (content needle replacement : Bytes) (m : LocatedMatch)
    → is_empty needle ≡ false
    → IsText content
    → IsText needle
    → IsText replacement
    → IsMatch content needle m
    → IsText (splice content m replacement)
unfolding IsText is_utf8 splice IsMatch
splice-IsText content needle replacement m n c t r (e, more) =
    let front = take m.byte_offset content in
    let rest = drop (m.byte_offset + m.length) content in
    let whole : is_utf8 (front ++ (needle ++ rest)) ≡ true = ap is_utf8 e ∙ c in
    let before = leading front needle rest n t whole in
    let middle : is_utf8 (needle ++ rest) ≡ true =
      sym (after_whole [] front (needle ++ rest) before) ∙ whole in
    let after : is_utf8 rest ≡ true = sym (after_whole [] needle rest t) ∙ middle in
    IsText-append (front ++ replacement) rest (IsText-append front replacement before r) after

-- What a match list has at an index satisfies what all of it satisfies.
pub get_elem?-All {ℓ κ} :
    {A : Type ℓ} (P : A → Type κ) (xs : List A) (k : ℕ) {x : A}
    → All P xs
    → get_elem? xs k ≡ some x
    → P x
get_elem?-All P [] k a e = cc
get_elem?-All P (y ∷ xs) zero a e = subst P (some-injective _ _ e) a.0
get_elem?-All P (y ∷ xs) (suc k) a e = get_elem?-All P xs k a.1 e

any_length : {A : Type 0} (p : A → Bool) (xs : List A) → any p xs ≡ true → (length xs == 0) ≡ false
unfolding any
any_length p [] e = cc
any_length p (x ∷ xs) e = ground arith

-- The replacement is found in the content that results.
pub splice-contains :
    (content : Bytes) (m : LocatedMatch) (replacement : Bytes)
    → is_empty replacement ≡ false
    → (length (find_matches (splice content m replacement) replacement) == 0) ≡ false
unfolding splice
splice-contains content m replacement n =
    let front = take m.byte_offset content in
    let rest = drop (m.byte_offset + m.length) content in
    let found : starts_with (drop (length front) ((front ++ replacement) ++ rest)) replacement
        ≡ true =
      ap (λ t. starts_with (drop (length front) t) replacement)
        (append_assoc front replacement rest)
      ∙ ap (λ t. starts_with t replacement) (drop_prefix front (replacement ++ rest))
      ∙ starts_with_append replacement rest in
    any_length (covers (length front)) _
      (find_matches-covers ((front ++ replacement) ++ rest) replacement (length front) n found)
