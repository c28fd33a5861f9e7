-- ===== src/Edit/Lines/Proper.antt =====
-- Which lists of texts are the lines of a file (src/services/edit.rs: LineMap): every text ends
-- in its only line feed, except that the last may have none and then is not empty.
use agent_workspace_hub.Prelude.{
  ℕ, zero, suc, ◌<◌, ◌≡◌, refl, sym, ap, ◌∙◌, ◌⊎◌, inl, inr, Bool, true, false, not, ◌&&◌, List, [],
  ◌∷◌, ◌++◌, arith, length, take, drop, is_empty, ◌==◌, ==_iff, All, Bool-cases, &&-eq-true,
  take-nil, drop-nil,
}
use mathlib.Core.List.{append_assoc, append-nil}
use agent_workspace_hub.Edit.Matching.{Bytes, line_feed}
use agent_workspace_hub.Edit.Lines.Pieces.{
  lines_after, lines_after_feed, lines_after_other, file_lines, join,
}

unfoldable pub no_feed : Bytes → Bool
no_feed [] = true
no_feed (b ∷ bytes) = not (b == line_feed) && no_feed bytes

unfoldable pub IsComplete : Bytes → Type 0
IsComplete l = (body : Bytes) × (no_feed body ≡ true) × (l ≡ body ++ line_feed ∷ [])

unfoldable pub IsUnfinished : Bytes → Type 0
IsUnfinished l = (no_feed l ≡ true) × (is_empty l ≡ false)

unfoldable pub Proper : List Bytes → Type 0
unfolding IsComplete IsUnfinished
Proper [] = Unit
Proper (l ∷ ls) = (IsComplete l × Proper ls) ⊎ (IsUnfinished l × (ls ≡ []))

pub no_feed_snoc :
    (known : Bytes) (b : ℕ)
    → no_feed known ≡ true
    → (b == line_feed) ≡ false
    → no_feed (known ++ b ∷ []) ≡ true
unfolding no_feed
no_feed_snoc [] b n e = ground arith
no_feed_snoc (k ∷ known) b n e = ground (arith, no_feed_snoc known b)

pub snoc_not_empty : (known : Bytes) (b : ℕ) → is_empty (known ++ b ∷ []) ≡ false
snoc_not_empty [] b = refl
snoc_not_empty (k ∷ known) b = refl

lines_after-Proper : (known bytes : Bytes) → no_feed known ≡ true → Proper (lines_after known bytes)
unfolding lines_after Proper no_feed
lines_after-Proper [] [] n = tt
lines_after-Proper (k ∷ known) [] n = inr ((n, refl), refl)
lines_after-Proper known (b ∷ bytes) n = elim (Bool-cases (b == line_feed)) [
  | inl e ↦ rw (lines_after_feed known bytes b e) (
      inl (
        (known, n, ap (λ c. known ++ c ∷ []) ((==_iff b line_feed).0 e)),
        lines_after-Proper [] bytes refl,
      ))
  | inr e ↦
      rw (lines_after_other known bytes b e)
        (lines_after-Proper (known ++ b ∷ []) bytes (no_feed_snoc known b n e))
]

pub file_lines-Proper : (content : Bytes) → Proper (file_lines content)
unfolding file_lines no_feed
file_lines-Proper content = lines_after-Proper [] content refl

lines_after_complete :
    (known body rest : Bytes)
    → no_feed body ≡ true
    → lines_after known ((body ++ line_feed ∷ []) ++ rest)
      ≡ (known ++ (body ++ line_feed ∷ [])) ∷ lines_after [] rest
unfolding no_feed
lines_after_complete known [] rest n = lines_after_feed known rest line_feed refl
lines_after_complete known (b ∷ body) rest n =
    let other = &&-eq-true (not (b == line_feed)) (no_feed body) n in
    lines_after_other known ((body ++ line_feed ∷ []) ++ rest) b (ground (arith, other.0))
    ∙ lines_after_complete (known ++ b ∷ []) body rest other.1
    ∙ ap (λ l. l ∷ lines_after [] rest) (append_assoc known (b ∷ []) (body ++ line_feed ∷ []))

lines_after_unfinished :
    (known body : Bytes)
    → no_feed body ≡ true
    → is_empty (known ++ body) ≡ false
    → lines_after known body ≡ (known ++ body) ∷ []
unfolding lines_after no_feed
lines_after_unfinished [] [] n e = cc
lines_after_unfinished (k ∷ known) [] n e = ap (λ l. l ∷ []) (sym (append-nil (k ∷ known)))
lines_after_unfinished known (b ∷ body) n e =
    let other = &&-eq-true (not (b == line_feed)) (no_feed body) n in
    let moved = append_assoc known (b ∷ []) body in
    lines_after_other known body b (ground (arith, other.0))
    ∙ lines_after_unfinished (known ++ b ∷ []) body other.1 (ap is_empty moved ∙ e)
    ∙ ap (λ l. l ∷ []) moved

-- Proper lines are the lines of the file that they make up.
pub file_lines-join-Proper : (ls : List Bytes) → Proper ls → file_lines (join ls) ≡ ls
unfolding file_lines join Proper lines_after
file_lines-join-Proper [] p = refl
file_lines-join-Proper (l ∷ ls) (inl ((body, n, e), p)) =
    ap (λ t. lines_after [] (t ++ join ls)) e
    ∙ lines_after_complete [] body (join ls) n
    ∙ ap (λ t. t ∷ lines_after [] (join ls)) (sym e)
    ∙ ap (λ t. l ∷ t) (file_lines-join-Proper ls p)
file_lines-join-Proper (l ∷ ls) (inr ((n, f), e)) =
    ap (λ t. lines_after [] (l ++ join t)) e
    ∙ ap (lines_after []) (append-nil l)
    ∙ lines_after_unfinished [] l n f
    ∙ ap (λ t. l ∷ t) (sym e)

pub Proper-append : (xs ys : List Bytes) → All IsComplete xs → Proper ys → Proper (xs ++ ys)
unfolding Proper
Proper-append [] ys c p = p
Proper-append (x ∷ xs) ys c p = inl (c.0, Proper-append xs ys c.1 p)

pub Proper-take : (k : ℕ) (ls : List Bytes) → Proper ls → Proper (take k ls)
unfolding Proper
Proper-take zero ls p = tt
Proper-take (suc k) [] p = tt
Proper-take (suc k) (l ∷ ls) (inl (c, p)) = inl (c, Proper-take k ls p)
Proper-take (suc k) (l ∷ ls) (inr (u, e)) = inr (u, ap (take k) e ∙ take-nil k)

pub Proper-drop : (k : ℕ) (ls : List Bytes) → Proper ls → Proper (drop k ls)
unfolding Proper
Proper-drop zero ls p = p
Proper-drop (suc k) [] p = tt
Proper-drop (suc k) (l ∷ ls) (inl (c, p)) = Proper-drop k ls p
Proper-drop (suc k) (l ∷ ls) (inr (u, e)) = rw (e, drop-nil k) tt

-- Lines before a line that there is are complete.
pub take-IsComplete :
    (k : ℕ) (ls : List Bytes) → Proper ls → k < length ls → All IsComplete (take k ls)
unfolding Proper
take-IsComplete zero ls p h = tt
take-IsComplete (suc k) [] p h = tt
take-IsComplete (suc k) (l ∷ ls) (inl (c, p)) h = (c, take-IsComplete k ls p (omega arith))
take-IsComplete (suc k) (l ∷ ls) (inr (u, e)) h = absurd (omega (arith, ap length e))
