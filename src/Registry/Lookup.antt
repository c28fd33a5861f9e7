-- ===== src/Registry/Lookup.antt =====
-- mcp/tool_registry.rs: `registry_lookup`. `slice::binary_search_by` of the standard library is
-- a search that halves the slice; the fuel is the length of the table, and each round halves.
use Prim.Native.Nat.{compare, Ordering}
use agent_workspace_hub.Prelude.{
  ℕ, zero, suc, ◌/◌, Bool, true, false, Option, none, some, List, [], ◌∷◌, Text, length, take, drop,
}
use agent_workspace_hub.Registry.Table.{ToolDefinition, ToolRisk, low, medium, high, registry}

abbrev pub is_low : ToolRisk → Bool
is_low low = true
is_low medium = false
is_low high = false

abbrev pub is_high : ToolRisk → Bool
is_high low = false
is_high medium = false
is_high high = true

-- `str::cmp`: the order of the scalar values is that of the UTF-8 bytes.
unfoldable pub text_cmp : Text → Text → Ordering
text_cmp [] [] = Ordering.eq
text_cmp [] (y ∷ ys) = Ordering.lt
text_cmp (x ∷ xs) [] = Ordering.gt
text_cmp (x ∷ xs) (y ∷ ys) =
    let rest = text_cmp xs ys in
    elim (compare x y) [
      | Ordering.lt ↦ Ordering.lt
      | Ordering.eq ↦ rest
      | Ordering.gt ↦ Ordering.gt
    ]

-- The round on the upper half of the slice, whose first element is the probe.
unfoldable pub probe :
    Text
    → (List ToolDefinition → Option ToolDefinition)
    → List ToolDefinition
    → List ToolDefinition
    → Option ToolDefinition
probe name look below [] = none
probe name look below (m ∷ above) = elim (text_cmp m.name name) [
  | Ordering.eq ↦ some m
  | Ordering.lt ↦ look above
  | Ordering.gt ↦ look below
]

unfoldable pub binary_search : ℕ → Text → List ToolDefinition → Option ToolDefinition
unfolding probe
binary_search zero name xs = none
binary_search (suc fuel) name xs =
    probe name (binary_search fuel name) (take (length xs / 2) xs) (drop (length xs / 2) xs)

unfoldable pub registry_lookup : Text → Option ToolDefinition
unfolding binary_search
registry_lookup name = binary_search (suc (length registry)) name registry
