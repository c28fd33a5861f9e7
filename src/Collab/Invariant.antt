-- ===== src/Collab/Invariant.antt =====
-- core/collaboration.rs: what holds of the store's file between two calls.
use agent_workspace_hub.Prelude.{
  ◌^◌, ◌≤◌, ◌<◌, ◌++◌, ◌≡◌, inl, inr, refl, Bool, false, true, none, List, [], ◌∷◌, Text, is_some,
  arith, length, find, retain, replace_first, All, find-retain_absent, find-replace_first-none,
  Bool-cases,
}
use agent_workspace_hub.Host.{stored}
use agent_workspace_hub.Collab.{
  ResourceKind, CollabRecord, CollabStoreFile, Store, names, is_handoff_requested,
  collab_schema_version, max_collab_records,
}
use agent_workspace_hub.Collab.Names.{names_iff}

-- No two records are about one resource.
abbrev pub Unique : List CollabRecord → Type 0
Unique [] = Unit
Unique (r ∷ rs) = (find (names r.resource_kind r.resource_id) rs ≡ none) × Unique rs

-- A handoff target is recorded exactly while a handoff is requested, and the revision is a u64.
pub record IsSound (r : CollabRecord) : Type 0 where
  pub pending_when_requested : is_some r.pending_to_agent ≡ is_handoff_requested r.state
  pub revision_u64 : r.revision < 2 ^ 64

pub record IsValid (file : CollabStoreFile) : Type 0 where
  pub version : file.version ≡ collab_schema_version
  pub bounded : length file.records ≤ max_collab_records
  pub unique : Unique file.records
  pub sound : All IsSound file.records

-- A missing file is an empty store, and a file that cannot be read promises nothing.
abbrev pub StoreIsValid : Store → Type 0
StoreIsValid (stored file) = IsValid file
StoreIsValid _ = Unit

pub Unique-replace_first :
    (k : ResourceKind) (i : Text) (y : CollabRecord) (xs : List CollabRecord)
    → names k i y ≡ true
    → Unique xs
    → Unique (replace_first (names k i) y xs)
unfolding replace_first
Unique-replace_first k i y [] h u = tt
Unique-replace_first k i y (x ∷ xs) h u = elim (Bool-cases (names k i x)) [
  | inl e ↦
      let (yk, yi) = (names_iff k i y).0 h in
      let (xk, xi) = (names_iff k i x).0 e in rw e (rw (yk, yi, ← xk, ← xi) u.0, u.1)
  | inr e ↦ rw e (
    find-replace_first-none (names k i) (names x.resource_kind x.resource_id) y xs u.0 (
        ground
          (arith, names_iff k i y, names_iff k i x, names_iff x.resource_kind x.resource_id y)),
    Unique-replace_first k i y xs h u.1,
  )
]

pub Unique-retain :
    (p : CollabRecord → Bool) (xs : List CollabRecord) → Unique xs → Unique (retain p xs)
unfolding retain
Unique-retain p [] u = tt
Unique-retain p (x ∷ xs) u = elim (Bool-cases (p x)) [
  | inl e ↦
      rw e
        (find-retain_absent p (names x.resource_kind x.resource_id) xs u.0, Unique-retain p xs u.1)
  | inr e ↦ rw e (Unique-retain p xs u.1)
]

-- An absent resource stays absent when a record of another resource is put at the end.
find-push_none :
    (q : CollabRecord → Bool) (r : CollabRecord) (xs : List CollabRecord)
    → find q xs ≡ none
    → q r ≡ false
    → find q (xs ++ r ∷ []) ≡ none
unfolding find
find-push_none q r [] h e = ground arith
find-push_none q r (x ∷ xs) h e = ground (arith, find-push_none q r xs)

pub Unique-push :
    (r : CollabRecord) (xs : List CollabRecord)
    → Unique xs
    → find (names r.resource_kind r.resource_id) xs ≡ none
    → Unique (xs ++ r ∷ [])
unfolding find
Unique-push r [] u h = (refl, tt)
Unique-push r (x ∷ xs) u h =
    let q = names r.resource_kind r.resource_id in
    let apart : names r.resource_kind r.resource_id x ≡ false = ground arith in
    let rest : find (names r.resource_kind r.resource_id) xs ≡ none = ground arith in
    (
      find-push_none (names x.resource_kind x.resource_id) r xs u.0 (
          ground (
            arith,
            names_iff r.resource_kind r.resource_id x,
            names_iff x.resource_kind x.resource_id r,
          )),
      Unique-push r xs u.1 rest,
    )
