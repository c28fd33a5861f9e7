-- ===== src/Registry/Search.antt =====
-- mcp/tool_registry.rs: the binary search against a linear search of the table.
use Prim.Native.Nat.{Ordering}
use mathlib.Core.Path.{subst, ap}
use agent_workspace_hub.Prelude.{
  ℕ, zero, suc, ◌-◌, ◌/◌, ◌≤◌, ◌<◌, ◌≡◌, ◌⊎◌, refl, sym, ◌∙◌, Bool, true, false, Option, none, some,
  List, [], ◌∷◌, ◌++◌, Text, text_eq, text_eq_iff, arith, All, length, take, drop, find,
  find-append_none, find-append_some, Option-cases, inl, inr,
}
use agent_workspace_hub.Registry.Table.{ToolDefinition, registry}
use agent_workspace_hub.Registry.Lookup.{text_cmp, probe, binary_search, registry_lookup}
use agent_workspace_hub.Registry.Order.{
  text_cmp-eq, text_cmp_trans, text_cmp-flip, text_eq-lt, Before, IsSorted, is_sorted,
  is_sorted-IsSorted,
}

take-append-drop : (n : ℕ) (xs : List ToolDefinition) → take n xs ++ drop n xs ≡ xs
take-append-drop zero xs = refl
take-append-drop (suc n) [] = refl
take-append-drop (suc n) (x ∷ xs) = rw (take-append-drop n xs)

length-take_le : (n : ℕ) (xs : List ToolDefinition) → length (take n xs) ≤ n
length-take_le zero xs = omega arith
length-take_le (suc n) [] = omega arith
length-take_le (suc n) (x ∷ xs) = omega (arith, length-take_le n xs)

length-drop : (n : ℕ) (xs : List ToolDefinition) → length (drop n xs) ≡ length xs - n
length-drop zero xs = omega arith
length-drop (suc n) [] = omega arith
length-drop (suc n) (x ∷ xs) = omega (arith, length-drop n xs)

abbrev called : Text → ToolDefinition → Bool
called name t = text_eq t.name name

-- A sorted table splits at any entry into names below it and names above it.
IsSorted-below :
    (xs : List ToolDefinition) (m : ToolDefinition) (ys : List ToolDefinition)
    → IsSorted (xs ++ m ∷ ys)
    → IsSorted xs × All (λ x. Before x m) xs × All (Before m) ys × IsSorted ys
IsSorted-below [] m ys s = (tt, tt, s.0, s.1)
IsSorted-below (x ∷ xs) m ys s =
    let rest = IsSorted-below xs m ys s.1 in
    let (first, before) = split xs s.0 in ((first, rest.0), (before, rest.1), rest.2, rest.3)
  where
    split :
        (zs : List ToolDefinition) → All (Before x) (zs ++ m ∷ ys) → All (Before x) zs × Before x m
    split [] a = (tt, a.0)
    split (z ∷ zs) a = let (r, b) = split zs a.1 in ((a.0, r), b)

cmp-cases : (o : Ordering) → ((o ≡ Ordering.lt) ⊎ (o ≡ Ordering.eq)) ⊎ (o ≡ Ordering.gt)
cmp-cases Ordering.lt = inl (inl refl)
cmp-cases Ordering.eq = inl (inr refl)
cmp-cases Ordering.gt = inr refl

module _ (q : ToolDefinition → Bool) where
  find-skip :
      (m : ToolDefinition) (ys : List ToolDefinition) → q m ≡ false → find q (m ∷ ys) ≡ find q ys
  unfolding find
  find-skip m ys e = rw e

  find-here :
      (m : ToolDefinition) (ys : List ToolDefinition) → q m ≡ true → find q (m ∷ ys) ≡ some m
  unfolding find
  find-here m ys e = rw e

  find-front : (xs ys : List ToolDefinition) → find q ys ≡ none → find q xs ≡ find q (xs ++ ys)
  find-front xs ys e = elim (Option-cases (find q xs)) [
    | inl n ↦ n ∙ sym (find-append_none q xs ys n ∙ e)
    | inr (t, h) ↦ h ∙ sym (find-append_some q xs ys h)
  ]

-- The upper half is empty only when the table is.
empty_half :
    (xs : List ToolDefinition) → drop (length xs / 2) xs ≡ [] → take (length xs / 2) xs ≡ []
empty_half [] e = refl
empty_half (x ∷ xs) e =
    absurd (omega (arith, length-drop (length (x ∷ xs) / 2) (x ∷ xs), ap length e))

-- Above the name, and below it, nothing is called so.
find-above :
    (name : Text) (m : ToolDefinition) (ys : List ToolDefinition)
    → (m.name ≡ name) ⊎ (text_cmp name m.name ≡ Ordering.lt)
    → All (Before m) ys
    → find (called name) ys ≡ none
unfolding find
find-above name m [] h a = refl
find-above name m (y ∷ ys) h a =
    let later : text_cmp name y.name ≡ Ordering.lt = elim h [
      | inl e ↦ subst (λ w. text_cmp w y.name ≡ Ordering.lt) e a.0
      | inr e ↦ text_cmp_trans name m.name y.name e a.0
    ] in
    ground (arith, text_cmp-eq name y.name, text_eq_iff y.name name, find-above name m ys h a.1)

find-below :
    (name : Text) (m : ToolDefinition) (xs : List ToolDefinition)
    → (m.name ≡ name) ⊎ (text_cmp m.name name ≡ Ordering.lt)
    → All (λ x. Before x m) xs
    → find (called name) xs ≡ none
unfolding find
find-below name m [] h a = refl
find-below name m (x ∷ xs) h a =
    let earlier : text_cmp x.name name ≡ Ordering.lt = elim h [
      | inl e ↦ subst (λ w. text_cmp x.name w ≡ Ordering.lt) e a.0
      | inr e ↦ text_cmp_trans x.name m.name name a.0 e
    ] in
    ground (arith, text_eq-lt x.name name, find-below name m xs h a.1)

-- One round, when the search below the fuel is right on both halves.
probe-find :
    (name : Text) (look : List ToolDefinition → Option ToolDefinition)
    (xs above : List ToolDefinition)
    → (above ≡ [] → xs ≡ [])
    → ((m : ToolDefinition) (ys : List ToolDefinition)
        → above ≡ m ∷ ys
        → (look ys ≡ find (called name) ys) × (look xs ≡ find (called name) xs))
    → IsSorted (xs ++ above)
    → probe name look xs above ≡ find (called name) (xs ++ above)
unfolding probe
probe-find name look xs [] e ih s = rw (e refl) none_found
  where
    none_found : none ≡ find (called name) []
    none_found = unfold find in refl
probe-find name look xs (m ∷ ys) e ih s =
    let (low, before, after, high) = IsSorted-below xs m ys s in
    elim (cmp-cases (text_cmp m.name name)) [
      | inl (inl lt) ↦
          rw (lt, probe)
            ((ih m ys refl).0
              ∙ sym (
                  find-append_none (called name) xs (m ∷ ys) (find-below name m xs (inr lt) before)
                  ∙ find-skip (called name) m ys (text_eq-lt m.name name lt)))
      | inl (inr eq) ↦
          let same = (text_cmp-eq m.name name).0 eq in
          rw (eq, probe)
            (sym (
              find-append_none (called name) xs (m ∷ ys) (find-below name m xs (inl same) before)
              ∙ find-here (called name) m ys ((text_eq_iff m.name name).1 same)))
      | inr gt ↦
          let below = (text_cmp-flip m.name name).0 gt in
          rw (gt, probe)
            ((ih m ys refl).1
              ∙ find-front (called name) xs (m ∷ ys) (
                  find-skip (called name) m ys
                    (ground (arith, text_cmp-eq m.name name, text_eq_iff m.name name))
                  ∙ find-above name m ys (inr below) after))
    ]

binary_search-find :
    (fuel : ℕ) (name : Text) (xs : List ToolDefinition)
    → length xs < fuel
    → IsSorted xs
    → binary_search fuel name xs ≡ find (called name) xs
unfolding binary_search
binary_search-find zero name xs h s = absurd (omega arith)
binary_search-find (suc fuel) name xs h s =
    let n = length xs / 2 in
    let whole = take-append-drop n xs in
    subst (λ w. probe name (binary_search fuel name) (take n xs) (drop n xs) ≡ find (called name) w)
      whole
      (probe-find name (binary_search fuel name) (take n xs) (drop n xs) (λ e. empty_half xs e)
        (λ m ys e.
          let sorted =
            IsSorted-below (take n xs) m ys
              (subst IsSorted (sym whole ∙ ap (λ w. take n xs ++ w) e) s) in
          (
            binary_search-find fuel name ys (omega (arith, length-drop n xs, ap length e)) sorted.3,
            binary_search-find fuel name (take n xs)
                (omega (arith, length-take_le n xs, length-drop n xs, ap length e)) sorted.0,
          ))
        (subst IsSorted (sym whole) s))

registry-IsSorted : IsSorted registry
unfolding is_sorted text_cmp
registry-IsSorted = is_sorted-IsSorted registry refl

-- The binary search of the table finds, for every name, the first entry that has this name, and
-- nothing if none has: no name is found by a prefix or in another case.
pub registry_lookup-find :
    (name : Text) → registry_lookup name ≡ find (λ t. text_eq t.name name) registry
unfolding registry_lookup
registry_lookup-find name =
    binary_search-find (suc (length registry)) name registry (omega arith) registry-IsSorted
