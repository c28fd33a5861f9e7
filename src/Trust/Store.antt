-- ===== src/Trust/Store.antt =====
-- mcp/trust.rs: the approvals that a store holds after any approvals and revocations.
use mathlib.Core.Path.{subst}
use agent_workspace_hub.Prelude.{
  ◌≡◌, inl, inr, Bool, true, false, not, none, some, List, [], ◌∷◌, ◌++◌, Text, text_eq,
  text_eq_iff, is_blank, any, retain, arith, Bool-cases, ok, if◌then◌else◌, retain_shorter, is_some,
  find-put_key, find-remove_key, find-All, All, All-retain, All-append, sym, >>-eq-ok, Result-cases,
}
use agent_workspace_hub.Trust.{
  McpPermissions, McpApproval, TrustLevel, TrustStore, PermissionError, includes, validate,
  validate_names, is_valid_env_name, is_blocked_environment, get, approve, revoke,
}

-- What `validate` promises of a permission set.
pub record Safe (p : McpPermissions) : Type 0 where
  pub paths : any is_blank p.filesystem ≡ false
  pub environment :
      (x : Text)
      → includes p.environment x ≡ true
      → (is_valid_env_name x ≡ true) × (is_blocked_environment x ≡ false)
  pub secrets : (x : Text) → includes p.secrets x ≡ true → includes p.environment x ≡ true

validate_names-eq-ok :
    (bad worse : PermissionError) (xs : List Text)
    → validate_names bad worse xs ≡ ok tt
    → (x : Text) → includes xs x ≡ true
    → (is_valid_env_name x ≡ true) × (is_blocked_environment x ≡ false)
unfolding validate_names includes any
validate_names-eq-ok bad worse [] h x m = absurd (ground arith)
validate_names-eq-ok bad worse (z ∷ xs) h x m =
    let (valid, h1) = >>-eq-ok (is_valid_env_name z) bad _ h in
    let (free, h2) = >>-eq-ok (not (is_blocked_environment z)) worse _ h1 in
    elim (Bool-cases (text_eq z x)) [
      | inl e ↦
          subst (λ w. (is_valid_env_name w ≡ true) × (is_blocked_environment w ≡ false))
            ((text_eq_iff z x).0 e) (valid, ground arith)
      | inr e ↦ validate_names-eq-ok bad worse xs h2 x (rw e at m)
    ]

any-false :
    (p : Text → Bool) (xs : List Text)
    → any p xs ≡ false
    → (x : Text) → includes xs x ≡ true
    → p x ≡ false
unfolding includes any
any-false p [] h x m = absurd (ground arith)
any-false p (z ∷ xs) h x m = elim (Bool-cases (text_eq z x)) [
  | inl e ↦ subst (λ w. p w ≡ false) ((text_eq_iff z x).0 e) (ground arith)
  | inr e ↦ any-false p xs (ground arith) x (rw e at m)
]

-- A permission set that validates has no blank path, only well-formed environment names, none of
-- them a loader or interpreter variable in any case, and no secret outside its environment.
pub validate-Safe : (p : McpPermissions) → validate p ≡ ok tt → Safe p
unfolding validate
validate-Safe p h =
    let (no_blank, h1) = >>-eq-ok (not (any is_blank p.filesystem)) _ _ h in
    elim (Result-cases
      (validate_names PermissionError.invalid_env_name PermissionError.blocked_env p.environment)) [
        | inr (x, bad) ↦ absurd (ground arith)
        | inl (u, names) ↦ record {
          paths = ground arith;
          environment = validate_names-eq-ok _ _ p.environment names;
          secrets = λ x m.
              let inside : not (includes p.environment x) ≡ false =
                any-false (λ name. not (includes p.environment name)) p.secrets (ground arith) x
                  m in
              ground arith;
        }
      ]

-- An approval, as the store then holds it.
abbrev pub approval : Text → TrustLevel → McpPermissions → Text → McpApproval
approval id level p version = record {
  id = id;
  level = level;
  approved_permissions = p;
  approved_version = version;
}

approve-eq-ok :
    (store store' : TrustStore) (id : Text) (level : TrustLevel) (p : McpPermissions)
    (version : Text)
    → approve store id level p version ≡ ok store'
    → (validate p ≡ ok tt)
      × (store' ≡ retain (λ x. not (text_eq x.id id)) store ++ approval id level p version ∷ [])
unfolding approve
approve-eq-ok store store' id level p version h = elim (Result-cases (validate p)) [
  | inr (x, e) ↦ absurd (ground arith)
  | inl (u, e) ↦ (e, ground arith)
]

-- After an approval, the id that was approved has exactly the new approval, and every other id
-- has the approval that it had.
pub get-approve :
    (store store' : TrustStore) (id : Text) (level : TrustLevel) (p : McpPermissions)
    (version other : Text)
    → approve store id level p version ≡ ok store'
    → get store' other
      ≡ (if text_eq id other then some (approval id level p version) else get store other)
unfolding get
get-approve store store' id level p version other h =
    rw ((approve-eq-ok store store' id level p version h).1)
      (find-put_key (λ a. a.id) (approval id level p version) other store)

-- A revoked id has no approval, every other id keeps its own, and the answer is whether the id
-- had one.
pub get-revoke :
    (store : TrustStore) (id other : Text)
    → (get (revoke store id).0 other ≡ (if text_eq id other then none else get store other))
      × ((revoke store id).1 ≡ is_some (get store id))
unfolding get revoke
get-revoke store id other =
    (find-remove_key (λ a. a.id) id other store, retain_shorter (λ x. text_eq x.id id) store)

-- The stores that approvals and revocations build from the empty one.
pub data Built : TrustStore → Type 0 where
  empty : Built []
  approved :
      {store store' : TrustStore} (id : Text) (level : TrustLevel) (p : McpPermissions)
      (version : Text)
      → Built store
      → approve store id level p version ≡ ok store'
      → Built store'
  revoked :
      {store store' : TrustStore} (id : Text)
      → Built store
      → store' ≡ (revoke store id).0
      → Built store'

abbrev pub HasSafe : McpApproval → Type 0
HasSafe a = Safe a.approved_permissions

Built-All : {store : TrustStore} → Built store → All HasSafe store
unfolding revoke
Built-All empty = tt
Built-All (approved {store} {store'} id level p version b h) =
    let (valid, written) = approve-eq-ok store store' id level p version h in
    subst (All HasSafe) (sym written) (
      All-append HasSafe (retain (λ x. not (text_eq x.id id)) store) _
        (All-retain HasSafe _ store (Built-All b)) (validate-Safe p valid, tt))
Built-All (revoked {store} id b e) =
    subst (All HasSafe) (sym e) (All-retain HasSafe _ store (Built-All b))

-- Every approval that any approvals and revocations have left in the store is of a permission
-- set that validated.
pub Built-Safe :
    {store : TrustStore} (id : Text) (a : McpApproval)
    → Built store
    → get store id ≡ some a
    → Safe a.approved_permissions
unfolding get
Built-Safe {store} id a b h = find-All HasSafe (λ x. text_eq x.id id) store (Built-All b) h
