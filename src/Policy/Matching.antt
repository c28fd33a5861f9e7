-- ===== src/Policy/Matching.antt =====
-- core/policy.rs: the prefix match against a comparison of components.
use agent_workspace_hub.Prelude.{
  ◌≡◌, ◌≢◌, refl, ◌∙◌, ap, Bool, true, false, not, ◌&&◌, ◌||◌, List, [], ◌∷◌, ◌++◌, Text, text_eq,
  codes, is_empty, has_char, starts_with, split, split_first, split_rest, arith, ◌==◌,
  if◌then◌else◌, retain, All, Bool-cases, inl, inr, All-retain, text_eq_iff,
}
use agent_workspace_hub.Policy.{path_prefix_matches}
use agent_workspace_hub.Policy.Paths.{components, join, tail_join, normalize_forward_slash-join}

abbrev pub is_prefix : List Text → List Text → Bool
is_prefix [] ws = true
is_prefix (v ∷ vs) [] = false
is_prefix (v ∷ vs) (w ∷ ws) = text_eq v w && is_prefix vs ws

abbrev pub is_none : List Text → Bool
is_none [] = true
is_none (w ∷ ws) = false

-- The test on normal forms: the resource is the pattern, or goes on behind it with a slash.
covers : Text → Text → Bool
covers r p = text_eq r p || starts_with r (p ++ b'/' ∷ [])

abbrev SlashFree : Text → Type 0
SlashFree w = has_char b'/' w ≡ false

-- What stands behind a component: nothing, or a slash and more.
abbrev is_tail : Text → Bool
is_tail [] = true
is_tail (c ∷ cs) = c == b'/'

covers-append :
    (v w x y : Text)
    → SlashFree v
    → SlashFree w
    → is_tail x ≡ true
    → is_tail y ≡ true
    → covers (w ++ x) (v ++ y) ≡ (text_eq v w && covers x y)
unfolding covers text_eq starts_with has_char
covers-append [] [] x y fv fw tx ty = refl
covers-append [] (c ∷ w) x [] fv fw tx ty = ground arith
covers-append [] (c ∷ w) x (d ∷ y) fv fw tx ty = ground arith
covers-append (d ∷ v) [] [] y fv fw tx ty = refl
covers-append (d ∷ v) [] (c ∷ x) y fv fw tx ty = ground arith
covers-append (d ∷ v) (c ∷ w) x y fv fw tx ty = ground (arith, covers-append v w x y)

tail_join-is_tail : (ws : List Text) → is_tail (tail_join ws) ≡ true
tail_join-is_tail [] = refl
tail_join-is_tail (w ∷ ws) = refl

covers-tail :
    (vs ws : List Text)
    → All SlashFree vs
    → All SlashFree ws
    → covers (tail_join ws) (tail_join vs) ≡ is_prefix vs ws
unfolding covers text_eq starts_with
covers-tail [] [] fv fw = refl
covers-tail [] (w ∷ ws) fv fw = refl
covers-tail (v ∷ vs) [] fv fw = refl
covers-tail (v ∷ vs) (w ∷ ws) fv fw =
    covers-append v w (tail_join ws) (tail_join vs) fv.0 fw.0 (tail_join-is_tail ws)
      (tail_join-is_tail vs)
    ∙ ap (λ b. text_eq v w && b) (covers-tail vs ws fv.1 fw.1)

split-SlashFree : (s : Text) → SlashFree (split_first b'/' s) × All SlashFree (split_rest b'/' s)
unfolding split has_char
split-SlashFree [] = (refl, tt)
split-SlashFree (c ∷ cs) = elim (Bool-cases (c == b'/')) [
  | inl e ↦ rw e (refl, split-SlashFree cs)
  | inr e ↦ rw e (ground (arith, (split-SlashFree cs).0), (split-SlashFree cs).1)
]

components-SlashFree : (path : Text) → All SlashFree (components path)
unfolding components split
components-SlashFree path =
    All-retain SlashFree (λ w. not (is_empty w)) (split b'/' path) (split-SlashFree path)

abbrev NonEmpty : Text → Type 0
NonEmpty w = is_empty w ≡ false

retain-NonEmpty : (ws : List Text) → All NonEmpty (retain (λ w. not (is_empty w)) ws)
unfolding retain
retain-NonEmpty [] = tt
retain-NonEmpty ([] ∷ ws) = retain-NonEmpty ws
retain-NonEmpty ((c ∷ cs) ∷ ws) = (refl, retain-NonEmpty ws)

join-is_empty : (ws : List Text) → All NonEmpty ws → is_empty (join ws) ≡ is_none ws
join-is_empty [] n = refl
join-is_empty ([] ∷ ws) n = absurd (ground arith)
join-is_empty ((c ∷ cs) ∷ ws) n = refl

covers-join :
    (vs ws : List Text)
    → All SlashFree vs
    → All SlashFree ws
    → All NonEmpty vs
    → All NonEmpty ws
    → (if is_none vs then false else covers (join ws) (join vs))
      ≡ (not (is_none vs) && is_prefix vs ws)
covers-join [] ws fv fw nv nw = refl
covers-join ([] ∷ vs) ws fv fw nv nw = absurd (ground arith)
covers-join ((d ∷ v) ∷ vs) [] fv fw nv nw = unfold covers text_eq starts_with in refl
covers-join ((d ∷ v) ∷ vs) (w ∷ ws) fv fw nv nw =
    covers-append (d ∷ v) w (tail_join ws) (tail_join vs) fv.0 fw.0 (tail_join-is_tail ws)
      (tail_join-is_tail vs)
    ∙ ap (λ b. text_eq (d ∷ v) w && b) (covers-tail vs ws fv.1 fw.1)

-- A pattern matches a resource exactly when it has a component and its components are the first
-- components of the resource: a rule for `secret` covers `secret` and all below it, and not
-- `secrets`, however many slashes either side has; a pattern of slashes alone matches nothing.
pub path_prefix_matches-components :
    (pat resource : Text)
    → path_prefix_matches pat resource
      ≡ (not (is_none (components pat)) && is_prefix (components pat) (components resource))
unfolding path_prefix_matches
path_prefix_matches-components pat resource =
    rw
      (
        normalize_forward_slash-join pat,
        normalize_forward_slash-join resource,
        join-is_empty (components pat) non_empty,
      )
      (unfold covers in whole)
  where
    non_empty : All NonEmpty (components pat)
    non_empty = unfold components in retain-NonEmpty (split b'/' pat)

    non_empty' : All NonEmpty (components resource)
    non_empty' = unfold components in retain-NonEmpty (split b'/' resource)

    whole :
        (if is_none (components pat)
          then false
          else covers (join (components resource)) (join (components pat)))
        ≡ (not (is_none (components pat)) && is_prefix (components pat) (components resource))
    whole =
        covers-join (components pat) (components resource) (components-SlashFree pat)
          (components-SlashFree resource) non_empty non_empty'

components-dot :
    (resource : Text) → components (codes "./" ++ resource) ≡ codes "." ∷ components resource
unfolding components split retain
components-dot resource = refl

-- A pattern whose first component is not `.` matches no resource that is spelled with a leading
-- `./`, although the path names the same file without it.
pub path_prefix_matches-dot :
    (pat resource first : Text) (rest : List Text)
    → components pat ≡ first ∷ rest
    → first ≢ codes "."
    → path_prefix_matches pat (codes "./" ++ resource) ≡ false
path_prefix_matches-dot pat resource first rest e n =
    rw (path_prefix_matches-components pat (codes "./" ++ resource), e, components-dot resource)
      (ground (arith, text_eq_iff first (codes ".")))
