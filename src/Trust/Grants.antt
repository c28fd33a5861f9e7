-- ===== src/Trust/Grants.antt =====
-- mcp/trust.rs: what `can_enable` decides.
use agent_workspace_hub.Prelude.{
  ◌≡◌, ◌↔◌, ◌⊎◌, inl, inr, refl, true, some, List, [], ◌∷◌, Text, text_eq, text_eq_iff,
  text_eq_refl, is_empty, any, all, arith, Bool-cases, &&-eq-true, ◌||◌,
}
use mathlib.Core.Path.{subst}
use agent_workspace_hub.Trust.{
  McpPermissions, McpApproval, TrustLevel, trusted, reviewed, unknown, blocked, includes,
  grants_level, version_matches, can_enable, implies,
}

-- `requested` asks for nothing that `approved` does not have.
pub record Within (requested approved : McpPermissions) : Type 0 where
  pub network : requested.network ≡ true → approved.network ≡ true
  pub process : requested.process ≡ true → approved.process ≡ true
  pub filesystem :
      (x : Text) → includes requested.filesystem x ≡ true → includes approved.filesystem x ≡ true
  pub environment :
      (x : Text) → includes requested.environment x ≡ true → includes approved.environment x ≡ true
  pub secrets :
      (x : Text) → includes requested.secrets x ≡ true → includes approved.secrets x ≡ true

pub all-includes :
    (ys xs : List Text)
    → all (includes ys) xs ≡ true
    → (x : Text) → includes xs x ≡ true
    → includes ys x ≡ true
unfolding all any includes
all-includes ys [] h x m = absurd (ground arith)
all-includes ys (z ∷ xs) h x m = elim (Bool-cases (text_eq z x)) [
  | inl e ↦
      let same : z ≡ x = (text_eq_iff z x).0 e in
      subst (λ w. includes ys w ≡ true) same (&&-eq-true (includes ys z) _ h).0
  | inr e ↦ all-includes ys xs (&&-eq-true (includes ys z) _ h).1 x (rw e at m)
]

pub includes-all :
    (ys xs : List Text)
    → ((x : Text) → includes xs x ≡ true → includes ys x ≡ true)
    → all (includes ys) xs ≡ true
unfolding all any includes
includes-all ys [] h = refl
includes-all ys (z ∷ xs) h =
    let here : includes ys z ≡ true = h z (rw (text_eq_refl z) refl) in
    let rest : all (includes ys) xs ≡ true = includes-all ys xs (λ x m. h x (ground arith)) in
    ground arith

-- The levels at which an approval is a grant.
unfoldable pub IsGranting : TrustLevel → Type 0
IsGranting level = (level ≡ trusted) ⊎ (level ≡ reviewed)

pub grants_level_iff : (level : TrustLevel) → (grants_level level ≡ true) ↔ IsGranting level
unfolding IsGranting
grants_level_iff trusted = (λ h. inl refl, λ h. refl)
grants_level_iff reviewed = (λ h. inr refl, λ h. refl)
grants_level_iff unknown = (λ h. absurd (ground arith), λ h. elim h [ inl e ↦ cc | inr e ↦ cc ])
grants_level_iff blocked = (λ h. absurd (ground arith), λ h. elim h [ inl e ↦ cc | inr e ↦ cc ])

-- The versions that an approval is for: any, when it names none.
unfoldable pub FitsVersion : McpApproval → Text → Type 0
FitsVersion a version = (a.approved_version ≡ []) ⊎ (a.approved_version ≡ version)

-- When `can_enable` says yes.
pub record Enabled (a : McpApproval) (requested : McpPermissions) (version : Text) : Type 0 where
  pub level : IsGranting a.level
  pub version_ok : FitsVersion a version
  pub within : Within requested a.approved_permissions

pub version_matches_iff :
    (a : McpApproval) (version : Text) → (version_matches a version ≡ true) ↔ FitsVersion a version
unfolding version_matches FitsVersion
version_matches_iff a version = (
  forward a.approved_version (text_eq_iff a.approved_version version).0,
  backward a.approved_version (text_eq_iff a.approved_version version).1,
)
  where
    forward :
        (v : Text)
        → (text_eq v version ≡ true → v ≡ version)
        → (is_empty v || text_eq v version) ≡ true
        → (v ≡ []) ⊎ (v ≡ version)
    forward [] f h = inl refl
    forward (c ∷ cs) f h = inr (f h)

    backward :
        (v : Text)
        → (v ≡ version → text_eq v version ≡ true)
        → (v ≡ []) ⊎ (v ≡ version)
        → (is_empty v || text_eq v version) ≡ true
    backward [] f h = refl
    backward (c ∷ cs) f h = elim h [ inl e ↦ absurd (ground arith) | inr e ↦ f e ]

Enabled-sound :
    (a : McpApproval) (requested : McpPermissions) (version : Text)
    → can_enable (some a) requested version ≡ true
    → Enabled a requested version
unfolding can_enable
Enabled-sound a requested version h = record {
  level = (grants_level_iff a.level).0 (ground arith);
  version_ok = (version_matches_iff a version).0 (ground arith);
  within = record {
    network = ground arith;
    process = ground arith;
    filesystem = all-includes _ requested.filesystem (ground arith);
    environment = all-includes _ requested.environment (ground arith);
    secrets = all-includes _ requested.secrets (ground arith);
  };
}

Enabled-complete :
    (a : McpApproval) (requested : McpPermissions) (version : Text)
    → Enabled a requested version
    → can_enable (some a) requested version ≡ true
unfolding can_enable
Enabled-complete a requested version h =
    let w = h.within in
    let p = a.approved_permissions in
    let n : implies requested.network p.network ≡ true = ground (arith, w.network) in
    let q : implies requested.process p.process ≡ true = ground (arith, w.process) in
    ground (
      arith,
      n,
      q,
      (grants_level_iff a.level).1 h.level,
      (version_matches_iff a version).1 h.version_ok,
      includes-all p.filesystem requested.filesystem w.filesystem,
      includes-all p.environment requested.environment w.environment,
      includes-all p.secrets requested.secrets w.secrets,
    )

-- `can_enable` says yes exactly when the approval is trusted or reviewed, names no version or
-- the one that asks, and has every permission that is asked for, category by category.
pub can_enable_iff :
    (a : McpApproval) (requested : McpPermissions) (version : Text)
    → (can_enable (some a) requested version ≡ true) ↔ Enabled a requested version
can_enable_iff a requested version =
    (Enabled-sound a requested version, Enabled-complete a requested version)
