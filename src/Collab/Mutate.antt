-- ===== src/Collab/Mutate.antt =====
-- core/collaboration.rs: what a successful `assign` or `mutate` has read and written.
use agent_workspace_hub.Prelude.{
  ℕ, ◌++◌, ◌≡◌, ◌≢◌, ◌⊎◌, inl, inr, true, not, Option, none, some, [], ◌∷◌, Text, Result, ok, arith,
  length, find, retain, replace_first, Result-cases, Option-cases,
}
use agent_workspace_hub.Host.{stored, Host}
use agent_workspace_hub.Collab.{
  ResourceKind, CollabRecord, CollabStoreFile, Failure, Store, assigned, load, validate_resource,
  names, next_revision, assign, owned_by, commit, mutate, open_store,
}

open_store-eq-ok :
    (h : Host) (d : Store) (file : CollabStoreFile) → open_store h d ≡ ok file → load d ≡ ok file
unfolding open_store
open_store-eq-ok h d file p = ground arith

abbrev pub written : Host → ResourceKind → Text → CollabStoreFile → CollabRecord → CollabStoreFile
written h kind id file r' = record file {
  records = replace_first (names kind id) (record r' { updated_at = h.now }) file.records;
}

module _ (h : Host) (kind : ResourceKind) (id : Text) (acting : Option Text) (expected : ℕ)
    (apply : CollabRecord → Result Failure (CollabRecord × CollabRecord)) (d : Store) (d' : Store)
    (outcome : CollabRecord) where
  -- The steps of a `mutate` that succeeded.
  pub record Mutated : Type 0 where
    pub file : CollabStoreFile
    pub before : CollabRecord
    pub changed : CollabRecord
    pub loaded : load d ≡ ok file
    pub found : find (names kind id) file.records ≡ some before
    pub owned : owned_by acting before ≡ true
    pub current : before.revision ≡ expected
    pub applied : apply before ≡ ok (changed, outcome)
    pub saved :
        ((changed.revision ≡ expected) × (d' ≡ d))
        ⊎ ((changed.revision ≢ expected) × (d' ≡ stored (written h kind id file changed)))

  abbrev Saved : CollabStoreFile → CollabRecord → Type 0
  Saved file r' =
      ((r'.revision ≡ expected) × (d' ≡ d))
      ⊎ ((r'.revision ≢ expected) × (d' ≡ stored (written h kind id file r')))

  commit-eq-ok :
      (file : CollabStoreFile) (r' out : CollabRecord)
      → commit h kind id file expected d r' out ≡ ok (d', outcome)
      → (out ≡ outcome) × Saved file r'
  unfolding commit
  commit-eq-ok file r' out p = ground arith

  mutated :
      (file : CollabStoreFile) (before changed out : CollabRecord)
      → validate_resource id ≡ ok tt
      → open_store h d ≡ ok file
      → find (names kind id) file.records ≡ some before
      → apply before ≡ ok (changed, out)
      → mutate h kind id acting expected apply d ≡ ok (d', outcome)
      → Mutated
  unfolding mutate
  mutated file before changed out e0 e1 e2 e3 p = record {
    file = file;
    before = before;
    changed = changed;
    loaded = open_store-eq-ok h d file e1;
    found = e2;
    owned = ground arith;
    current = ground arith;
    applied = ground (arith);
    saved = ground (arith);
  }

  pub mutate-eq-ok : mutate h kind id acting expected apply d ≡ ok (d', outcome) → Mutated
  unfolding mutate
  mutate-eq-ok p = elim (Result-cases (validate_resource id)) [
    | inr (x, e0) ↦ absurd (ground arith)
    | inl (u, e0) ↦ elim (Result-cases (open_store h d)) [
      | inr (x, e1) ↦ absurd (ground arith)
      | inl (file, e1) ↦ elim (Option-cases (find (names kind id) file.records)) [
        | inl e2 ↦ absurd (ground arith)
        | inr (before, e2) ↦ elim (Result-cases (apply before)) [
          | inr (x, e3) ↦ absurd (ground arith)
          | inl (pair, e3) ↦ mutated file before pair.0 pair.1 e0 e1 e2 e3 p
        ]
      ]
    ]
  ]

module _ (h : Host) (kind : ResourceKind) (id : Text) (owner : Text) (session note : Option Text)
    (expected : Option ℕ) (d d' : Store) (outcome : CollabRecord) where
  -- The steps of an `assign` that succeeded.
  pub record Assigned : Type 0 where
    pub file : CollabStoreFile
    pub loaded : load d ≡ ok file
    pub revision :
        next_revision (find (names kind id) file.records) expected (length file.records)
        ≡ ok outcome.revision
    pub new_kind : outcome.resource_kind ≡ kind
    pub new_id : outcome.resource_id ≡ id
    pub new_owner : outcome.owner_agent ≡ owner
    pub new_state : outcome.state ≡ assigned
    pub new_pending : outcome.pending_to_agent ≡ none
    pub saved :
        d'
        ≡ stored (record file {
          records = retain (λ x. not (names kind id x)) file.records ++ outcome ∷ [];
        })

  abbrev next : CollabStoreFile → Result Failure ℕ
  next file = next_revision (find (names kind id) file.records) expected (length file.records)

  assigned_lem :
      (file : CollabStoreFile) (revision : ℕ)
      → validate_resource id ≡ ok tt
      → open_store h d ≡ ok file
      → next file ≡ ok revision
      → assign h kind id owner session note expected d ≡ ok (d', outcome)
      → Assigned
  unfolding assign
  assigned_lem file revision e0 e1 e2 p = record {
    file = file;
    loaded = open_store-eq-ok h d file e1;
    revision = ground arith;
    new_kind = ground arith;
    new_id = ground arith;
    new_owner = ground arith;
    new_state = ground arith;
    new_pending = ground arith;
    saved = ground arith;
  }

  pub assign-eq-ok : assign h kind id owner session note expected d ≡ ok (d', outcome) → Assigned
  unfolding assign
  assign-eq-ok p = elim (Result-cases (validate_resource id)) [
    | inr (x, e0) ↦ absurd (ground arith)
    | inl (u, e0) ↦ elim (Result-cases (open_store h d)) [
      | inr (x, e1) ↦ absurd (ground arith)
      | inl (file, e1) ↦ elim (Result-cases (next file)) [
        | inr (x, e2) ↦ absurd (ground arith)
        | inl (revision, e2) ↦ assigned_lem file revision e0 e1 e2 p
      ]
    ]
  ]
