-- ===== src/Policy/Paths.antt =====
-- core/policy.rs: the normal form of a path and its components.
use agent_workspace_hub.Prelude.{
  ◌≡◌, inl, inr, refl, sym, ◌∙◌, ap, true, false, not, List, [], ◌∷◌, ◌++◌, Text, ℕ, is_empty,
  split, split_first, split_rest, ◌==◌, if◌then◌else◌, retain, Bool-cases,
}
use mathlib.Core.List.{append-nil, append_assoc}
use agent_workspace_hub.Policy.{normalize_from, normalize_forward_slash}

-- The components of a path: what stands between slashes, without the empty parts.
unfoldable pub components : Text → List Text
components path = retain (λ w. not (is_empty w)) (split b'/' path)

-- One more part behind the text so far.
abbrev extend : Text → Text → Text
extend out [] = out
extend [] (c ∷ cs) = c ∷ cs
extend (o ∷ os) (c ∷ cs) = (o ∷ os) ++ b'/' ∷ c ∷ cs

join_from : Text → List Text → Text
join_from out [] = out
join_from out (w ∷ ws) = join_from (extend out w) ws

extend-nil : (w : Text) → extend [] w ≡ w
extend-nil [] = refl
extend-nil (c ∷ cs) = refl

push-extend :
    (out : Text) (c : ℕ) (w : Text)
    → ((if not (is_empty out) then out ++ b'/' ∷ [] else out) ++ c ∷ []) ++ w ≡ extend out (c ∷ w)
push-extend [] c w = refl
push-extend (o ∷ os) c w =
    append_assoc ((o ∷ os) ++ b'/' ∷ []) (c ∷ []) w ∙ append_assoc (o ∷ os) (b'/' ∷ []) (c ∷ w)

-- The loop, from a state inside a part and from one behind a slash.
normalize_from-join :
    (out : Text) (cs : Text)
    → (normalize_from out false cs ≡ join_from (out ++ split_first b'/' cs) (split_rest b'/' cs))
      × (normalize_from out true cs ≡ join_from out (split b'/' cs))
unfolding normalize_from join_from split
normalize_from-join out [] = (ap (λ w. join_from w []) (sym (append-nil out)), refl)
normalize_from-join out (c ∷ cs) = elim (Bool-cases (c == b'/')) [
  | inl e ↦
      rw e (rw (append-nil out) (normalize_from-join out cs).1, (normalize_from-join out cs).1)
  | inr e ↦ rw e (
    (normalize_from-join (out ++ c ∷ []) cs).0
        ∙ ap (λ w. join_from w (split_rest b'/' cs))
            (append_assoc out (c ∷ []) (split_first b'/' cs)),
    (normalize_from-join ((if not (is_empty out) then out ++ b'/' ∷ [] else out) ++ c ∷ []) cs).0
        ∙ ap (λ w. join_from w (split_rest b'/' cs)) (push-extend out c (split_first b'/' cs)),
  )
]

-- The components, each behind a slash; and joined.
abbrev pub tail_join : List Text → Text
tail_join [] = []
tail_join (w ∷ ws) = b'/' ∷ w ++ tail_join ws

abbrev pub join : List Text → Text
join [] = []
join (w ∷ ws) = w ++ tail_join ws

join_from-tail :
    (o : ℕ) (os : Text) (ws : List Text)
    → join_from (o ∷ os) ws ≡ (o ∷ os) ++ tail_join (retain (λ w. not (is_empty w)) ws)
unfolding join_from retain
join_from-tail o os [] = sym (append-nil (o ∷ os))
join_from-tail o os ([] ∷ ws) = join_from-tail o os ws
join_from-tail o os ((c ∷ cs) ∷ ws) =
    join_from-tail o (os ++ b'/' ∷ c ∷ cs) ws
    ∙ append_assoc (o ∷ os) (b'/' ∷ c ∷ cs) (tail_join (retain (λ w. not (is_empty w)) ws))

join_from-join : (ws : List Text) → join_from [] ws ≡ join (retain (λ w. not (is_empty w)) ws)
unfolding join_from retain
join_from-join [] = refl
join_from-join ([] ∷ ws) = join_from-join ws
join_from-join ((c ∷ cs) ∷ ws) = join_from-tail c cs ws

-- The normal form that the matching compares is the components of the path, joined by single
-- slashes: repeated, leading and trailing slashes are gone, and nothing else is changed.
pub normalize_forward_slash-join :
    (path : Text) → normalize_forward_slash path ≡ join (components path)
unfolding normalize_forward_slash components split
normalize_forward_slash-join path =
    (normalize_from-join [] path).0
    ∙ ap (λ w. join_from w (split_rest b'/' path)) (sym (extend-nil (split_first b'/' path)))
    ∙ unfold join_from in join_from-join (split_first b'/' path ∷ split_rest b'/' path)
