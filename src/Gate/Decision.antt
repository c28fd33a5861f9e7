-- ===== src/Gate/Decision.antt =====
-- mcp/execution_gate.rs: who may run, and what the audit is told.
use agent_workspace_hub.Prelude.{
  ◌≡◌, ◌↔◌, inl, inr, refl, true, false, Option, none, some, List, [], ◌∷◌, Text, is_blank, arith,
  all, Result, ok, err, Bool-cases, Option-cases,
}
use agent_workspace_hub.Trust.{McpApproval, TrustStore, Permission, get}
use agent_workspace_hub.Trust.Grants.{
  IsGranting, FitsVersion, grants_level_iff, version_matches_iff,
}
use agent_workspace_hub.Registry.{ToolDefinition, is_low, is_high, registry_lookup}
use agent_workspace_hub.Gate.{
  McpAuthorizationError, unregistered, store_unavailable, unregistered_tool,
  trust_store_unavailable, Audited, builtin_tool_trust_id, builtin_tool_trust_version,
  builtin_request, authorize, translate, with_store, authorize_builtin_tool,
}
use agent_workspace_hub.Gate.Requests.{grants_builtin, can_enable-requested}

-- The approval of the reserved identity covers a tool.
abbrev pub Covers : McpApproval → ToolDefinition → Type 0
Covers a t =
    IsGranting a.level
    × FitsVersion a builtin_tool_trust_version
    × (all (grants_builtin a.approved_permissions) t.required_permissions ≡ true)

-- When a built-in tool may run.
pub data Allowed (tool : Text) (trust : Option TrustStore) : Type 0 where
  reads :
      (t : ToolDefinition)
      → registry_lookup tool ≡ some t
      → is_low t.risk ≡ true
      → Allowed tool trust
  opt_in :
      (t : ToolDefinition) (store : TrustStore)
      → registry_lookup tool ≡ some t
      → is_low t.risk ≡ false
      → is_high t.risk ≡ false
      → trust ≡ some store
      → get store builtin_tool_trust_id ≡ none
      → Allowed tool trust
  granted :
      (t : ToolDefinition) (store : TrustStore) (a : McpApproval)
      → registry_lookup tool ≡ some t
      → is_low t.risk ≡ false
      → trust ≡ some store
      → get store builtin_tool_trust_id ≡ some a
      → Covers a t
      → Allowed tool trust

pub reserved_id_named : is_blank builtin_tool_trust_id ≡ false
unfolding is_blank
reserved_id_named = refl

-- With an approval of the reserved identity, `authorize` says yes exactly when it covers the tool.
authorize-builtin :
    (store : TrustStore) (a : McpApproval) (t : ToolDefinition)
    → get store builtin_tool_trust_id ≡ some a
    → ((authorize (builtin_request t.required_permissions) store).0 ≡ ok tt) ↔ Covers a t
unfolding authorize
authorize-builtin store a t e =
    rw (reserved_id_named, e)
      (ground (
        arith,
        can_enable-requested a t.required_permissions builtin_tool_trust_version,
        grants_level_iff a.level,
        version_matches_iff a builtin_tool_trust_version,
      ))

translate-ok :
    (tool : Text) (a : McpApproval) (required : List Permission)
    (r : Audited (Result McpAuthorizationError (Unit {0})))
    → ((translate tool a required r).0 ≡ ok tt) ↔ (r.0 ≡ ok tt)
unfolding translate
translate-ok tool a required (r, log) = ground arith

pub with_store-some :
    (tool : Text) (t : ToolDefinition) (store : TrustStore) (a : McpApproval)
    → get store builtin_tool_trust_id ≡ some a
    → with_store tool t store
      ≡ translate tool a t.required_permissions
          (authorize (builtin_request t.required_permissions) store)
unfolding with_store
with_store-some tool t store a e = ground arith

module _ (tool : Text) (trust : Option TrustStore) where
  pub at_unregistered :
      registry_lookup tool ≡ none
      → authorize_builtin_tool tool trust
        ≡ (err (unregistered tool), record { reason = unregistered_tool; subject = tool } ∷ [])
  unfolding authorize_builtin_tool
  at_unregistered e = ground arith

module _ (tool : Text) (t : ToolDefinition) (trust : Option TrustStore)
    (e : registry_lookup tool ≡ some t) where
  pub at_low : is_low t.risk ≡ true → authorize_builtin_tool tool trust ≡ (ok tt, [])
  unfolding authorize_builtin_tool
  at_low low = ground arith

  pub at_no_store :
      is_low t.risk ≡ false
      → trust ≡ none
      → authorize_builtin_tool tool trust ≡ (
        err (store_unavailable tool),
        record { reason = trust_store_unavailable; subject = tool } ∷ [],
      )
  unfolding authorize_builtin_tool
  at_no_store above n = ground arith

pub at_store :
    (tool : Text) (t : ToolDefinition) (trust : Option TrustStore) (store : TrustStore)
    → registry_lookup tool ≡ some t
    → is_low t.risk ≡ false
    → trust ≡ some store
    → authorize_builtin_tool tool trust ≡ with_store tool t store
unfolding authorize_builtin_tool
at_store tool t trust store e above s = ground arith

with_store-ok :
    (tool : Text) (t : ToolDefinition) (store : TrustStore) (a : McpApproval)
    → get store builtin_tool_trust_id ≡ some a
    → ((with_store tool t store).0 ≡ ok tt) ↔ Covers a t
with_store-ok tool t store a e =
    let one =
      translate-ok tool a t.required_permissions
        (authorize (builtin_request t.required_permissions) store) in
    let two = authorize-builtin store a t e in
    rw (with_store-some tool t store a e) (λ h. two.0 (one.0 h), λ c. one.1 (two.1 c))

Allowed-sound :
    (tool : Text) (trust : Option TrustStore)
    → (authorize_builtin_tool tool trust).0 ≡ ok tt
    → Allowed tool trust
unfolding authorize_builtin_tool
Allowed-sound tool trust h = elim (Option-cases (registry_lookup tool)) [
  | inl e ↦ absurd (ground arith)
  | inr (t, e) ↦ elim (Bool-cases (is_low t.risk)) [
    | inl low ↦ reads t e low
    | inr above ↦ elim (Option-cases trust) [
      | inl n ↦ absurd (ground arith)
      | inr (store, s) ↦
          let here : (with_store tool t store).0 ≡ ok tt = ground arith in
          elim (Option-cases (get store builtin_tool_trust_id)) [
            | inl g ↦ opt_in t store e above (unfold with_store in ground arith) s g
            | inr (a, g) ↦ granted t store a e above s g ((with_store-ok tool t store a g).0 here)
          ]
    ]
  ]
]

Allowed-complete :
    (tool : Text) (trust : Option TrustStore)
    → Allowed tool trust
    → (authorize_builtin_tool tool trust).0 ≡ ok tt
unfolding authorize_builtin_tool
Allowed-complete tool trust (reads t e low) = ground arith
Allowed-complete tool trust (opt_in t store e above below s g) =
    rw (at_store tool t trust store e above s) (unfold with_store in ground arith)
Allowed-complete tool trust (granted t store a e above s g c) =
    rw (at_store tool t trust store e above s) ((with_store-ok tool t store a g).1 c)

-- A built-in tool may run exactly when it is registered and either it is a low-risk tool; or it
-- is a medium-risk one, the trust store could be read, and the reserved identity has no
-- approval; or the reserved identity has an approval, trusted or reviewed, for any or the local
-- version, that grants each permission that the tool requires to the built-in tools.
pub authorize_builtin_tool_iff :
    (tool : Text) (trust : Option TrustStore)
    → ((authorize_builtin_tool tool trust).0 ≡ ok tt) ↔ Allowed tool trust
authorize_builtin_tool_iff tool trust = (Allowed-sound tool trust, Allowed-complete tool trust)
