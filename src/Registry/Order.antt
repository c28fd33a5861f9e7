-- ===== src/Registry/Order.antt =====
-- mcp/tool_registry.rs: the order of names, and tables that are sorted by it.
use Prim.Native.Nat.{Ordering}
use agent_workspace_hub.Prelude.{
  ◌≡◌, ◌↔◌, refl, Bool, true, false, List, [], ◌∷◌, Text, text_eq, text_eq_iff, arith, All, ◌&&◌,
  &&-eq-true,
}
use agent_workspace_hub.Registry.Table.{ToolDefinition}
use agent_workspace_hub.Registry.Lookup.{text_cmp}

pub text_cmp-eq : (a b : Text) → (text_cmp a b ≡ Ordering.eq) ↔ (a ≡ b)
unfolding text_cmp
text_cmp-eq [] [] = (λ _. refl, λ _. refl)
text_cmp-eq [] (y ∷ ys) = (λ h. cc, λ h. cc)
text_cmp-eq (x ∷ xs) [] = (λ h. cc, λ h. cc)
text_cmp-eq (x ∷ xs) (y ∷ ys) = ground (arith, text_cmp-eq xs ys)

pub text_cmp_trans :
    (a b c : Text)
    → text_cmp a b ≡ Ordering.lt
    → text_cmp b c ≡ Ordering.lt
    → text_cmp a c ≡ Ordering.lt
unfolding text_cmp
text_cmp_trans [] [] c h k = absurd (ground arith)
text_cmp_trans [] (y ∷ ys) [] h k = absurd (ground arith)
text_cmp_trans [] (y ∷ ys) (z ∷ zs) h k = refl
text_cmp_trans (x ∷ xs) [] c h k = absurd (ground arith)
text_cmp_trans (x ∷ xs) (y ∷ ys) [] h k = absurd (ground arith)
text_cmp_trans (x ∷ xs) (y ∷ ys) (z ∷ zs) h k = ground (arith, text_cmp_trans xs ys zs)

pub text_cmp-flip : (a b : Text) → (text_cmp a b ≡ Ordering.gt) ↔ (text_cmp b a ≡ Ordering.lt)
unfolding text_cmp
text_cmp-flip [] [] = (λ h. cc, λ h. cc)
text_cmp-flip [] (y ∷ ys) = (λ h. cc, λ h. cc)
text_cmp-flip (x ∷ xs) [] = (λ h. refl, λ h. refl)
text_cmp-flip (x ∷ xs) (y ∷ ys) = ground (arith, text_cmp-flip xs ys)

-- A name that the order puts before or after another is another name.
pub text_eq-lt : (a b : Text) → text_cmp a b ≡ Ordering.lt → text_eq a b ≡ false
text_eq-lt a b h = ground (arith, text_cmp-eq a b, text_eq_iff a b)

abbrev pub Before : ToolDefinition → ToolDefinition → Type 0
Before x y = text_cmp x.name y.name ≡ Ordering.lt

-- Each entry is before all the later ones.
abbrev pub IsSorted : List ToolDefinition → Type 0
IsSorted [] = Unit
IsSorted (x ∷ xs) = All (Before x) xs × IsSorted xs

abbrev is_lt : Ordering → Bool
is_lt Ordering.lt = true
is_lt _ = false

-- Each entry is before the next.
unfoldable pub is_sorted : List ToolDefinition → Bool
is_sorted [] = true
is_sorted (x ∷ []) = true
is_sorted (x ∷ y ∷ xs) = is_lt (text_cmp x.name y.name) && is_sorted (y ∷ xs)

All-Before :
    (x y : ToolDefinition) (xs : List ToolDefinition)
    → Before x y
    → All (Before y) xs
    → All (Before x) xs
All-Before x y [] h a = tt
All-Before x y (z ∷ xs) h a = (text_cmp_trans x.name y.name z.name h a.0, All-Before x y xs h a.1)

pub is_sorted-IsSorted : (xs : List ToolDefinition) → is_sorted xs ≡ true → IsSorted xs
unfolding is_sorted
is_sorted-IsSorted [] h = tt
is_sorted-IsSorted (x ∷ []) h = (tt, tt)
is_sorted-IsSorted (x ∷ y ∷ xs) h =
    let rest = is_sorted-IsSorted (y ∷ xs) (&&-eq-true (is_lt (text_cmp x.name y.name)) _ h).1 in
    let first : Before x y = ground arith in ((first, All-Before x y xs first rest.0), rest)
