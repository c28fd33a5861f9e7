-- ===== src/Collab/Preservation.antt =====
-- core/collaboration.rs: the calls, and the validity of the store's file.
use mathlib.Core.Path.{subst}
use agent_workspace_hub.Prelude.{
  ℕ, suc, ◌+◌, ◌^◌, ◌≤◌, ◌<◌, ◌++◌, ◌≡◌, ◌⊎◌, inl, inr, refl, Bool, true, not, none, some, List, [],
  ◌∷◌, Text, Result, ok, Option, arith, length, find, retain, All-retain, All-append,
  All-replace_first, length-append, length-retain, length-retain_lt, length-replace_first,
  find-retain-none, find-holds, find-All, Option-cases, Result-cases,
}
use agent_workspace_hub.Host.{wrap_u64, missing, unreadable, corrupt, stored, Host}
use agent_workspace_hub.Collab
use agent_workspace_hub.Collab.{
  CollabRecord, CollabStoreFile, Failure, Store, load, names, next_revision, assigned, mutate,
  collab_schema_version, max_collab_records, activate_record, request_record, accept_record,
  release_record, validate_note, ResourceKind,
}
use agent_workspace_hub.Collab.Mutate.{written, mutate-eq-ok, Assigned, assign-eq-ok}
use agent_workspace_hub.Collab.Calls.{
  Call, assign, activate, request_handoff, accept_handoff, release, Request, perform, after, step,
  run,
}
use agent_workspace_hub.Collab.Invariant.{
  IsSound, IsValid, StoreIsValid, Unique-replace_first, Unique-retain, Unique-push,
}

-- What the closures of the four operations on a record have in common.
pub record Follows (r r' out : CollabRecord) : Type 0 where
  pub sound : IsSound r → IsSound r'
  pub kind : r'.resource_kind ≡ r.resource_kind
  pub id : r'.resource_id ≡ r.resource_id
  pub outcome : out ≡ r'
  pub revision : (r' ≡ r) ⊎ (r'.revision ≡ wrap_u64 (r.revision + 1))

abbrev pub IsClosure : (CollabRecord → Result Failure (CollabRecord × CollabRecord)) → Type 0
IsClosure apply = (r r' out : CollabRecord) → apply r ≡ ok (r', out) → Follows r r' out

pub activate-IsClosure : IsClosure activate_record
activate-IsClosure r r' out h = ground arith

pub request-IsClosure : (to : Text) (note : Option Text) → IsClosure (request_record to note)
request-IsClosure to _ r r' out h = ground arith

pub accept-IsClosure : (by : Text) → IsClosure (accept_record by)
accept-IsClosure by r r' out h = ground arith

pub release-IsClosure : IsClosure release_record
release-IsClosure r r' out h = ground arith

-- A valid store loads as a valid file.
pub load-IsValid :
    (d : Store) (file : CollabStoreFile) → StoreIsValid d → load d ≡ ok file → IsValid file
unfolding load
load-IsValid missing file v h = subst IsValid (ground arith) empty-IsValid
  where
    empty-IsValid : IsValid (record { version = collab_schema_version; records = [] })
    empty-IsValid = record { version = refl; bounded = omega arith; unique = tt; sound = tt }
load-IsValid unreadable file v h = absurd (ground arith)
load-IsValid corrupt file v h = absurd (ground arith)
load-IsValid (stored f) file v h = subst IsValid (ground arith) v

pub written-IsValid :
    (h : Host) (k : ResourceKind) (i : Text) (file : CollabStoreFile) (before r' out : CollabRecord)
    → IsValid file
    → find (names k i) file.records ≡ some before
    → Follows before r' out
    → IsValid (written h k i file r')
unfolding names
written-IsValid h k i file before r' out v found f = record {
  version = v.version;
  bounded = rw length-replace_first v.bounded;
  unique = Unique-replace_first k i y file.records here v.unique;
  sound = All-replace_first IsSound (names k i) y file.records v.sound (record {
    pending_when_requested = changed.pending_when_requested;
    revision_u64 = changed.revision_u64;
  });
}
  where
    y : CollabRecord
    y = record r' { updated_at = h.now }

    named : names k i before ≡ true
    named = find-holds (names k i) file.records found

    here : names k i y ≡ true
    here = rw (f.kind, f.id) named

    changed : IsSound r'
    changed = f.sound (find-All IsSound (names k i) file.records v.sound found)

-- A `mutate` with a proper closure keeps the store valid.
pub mutate-IsValid :
    (h : Host) (k : ResourceKind) (i : Text) (acting : Option Text) (expected : ℕ)
    (apply : CollabRecord → Result Failure (CollabRecord × CollabRecord)) (d : Store)
    → IsClosure apply
    → StoreIsValid d
    → StoreIsValid (after d (mutate h k i acting expected apply d))
mutate-IsValid h k i acting expected apply d c v =
    elim (Result-cases (mutate h k i acting expected apply d)) [
      | inr (x, e) ↦ rw e v
      | inl (p, e) ↦
          let m = mutate-eq-ok h k i acting expected apply d p.0 p.1 e in
          let f = c m.before m.changed p.1 m.applied in
          rw e (elim m.saved [
            | inl s ↦ rw (s.1) v
            | inr s ↦ rw (s.1) (
                written-IsValid h k i m.file m.before m.changed p.1
                  (load-IsValid d m.file v m.loaded) m.found f)
          ])
    ]

next_revision_bounds :
    (o : Option CollabRecord) (expected : Option ℕ) (count : ℕ) (n : ℕ)
    → next_revision o expected count ≡ ok n
    → (n < 2 ^ 64) × ((o ≡ none) → suc count ≤ max_collab_records)
unfolding next_revision
next_revision_bounds o expected count n h = ground arith

-- The records of an `assign` fit the bound: one is dropped for the new one, or there was room.
assign_bounded :
    (k : ResourceKind) (i : Text) (expected : Option ℕ) (r : CollabRecord) (rs : List CollabRecord)
    → next_revision (find (names k i) rs) expected (length rs) ≡ ok r.revision
    → length rs ≤ max_collab_records
    → length (retain (λ x. not (names k i x)) rs ++ r ∷ []) ≤ max_collab_records
assign_bounded k i expected r rs h b =
    let room = next_revision_bounds (find (names k i) rs) expected (length rs) r.revision h in
    elim (Option-cases (find (names k i) rs)) [
      | inl absent ↦ omega (
        arith,
        room.1 absent,
        length-retain (λ x. not (names k i x)) rs,
        length-append (retain (λ x. not (names k i x)) rs) (r ∷ []),
      )
      | inr (x, e) ↦ omega (
        arith,
        length-retain_lt (names k i) rs e,
        length-append (retain (λ x. not (names k i x)) rs) (r ∷ []),
      )
    ]

fresh :
    (r : CollabRecord)
    → r.state ≡ assigned
    → r.pending_to_agent ≡ none
    → r.revision < 2 ^ 64
    → IsSound r
fresh r s p n = ground arith

-- The file that a successful `assign` writes.
abbrev pub appended :
    (h : Host) (k : ResourceKind) (i owner : Text) (session note : Option Text)
    (expected : Option ℕ) (d d' : Store) (out : CollabRecord)
    → Collab.assign h k i owner session note expected d ≡ ok (d', out)
    → CollabStoreFile
appended h k i owner session note expected d d' out p =
    let m = assign-eq-ok h k i owner session note expected d d' out p in
    record m.file { records = retain (λ x. not (names k i x)) m.file.records ++ out ∷ [] }

pub assigned-IsValid :
    (h : Host) (k : ResourceKind) (i owner : Text) (session note : Option Text)
    (expected : Option ℕ) (d d' : Store) (out : CollabRecord)
    → StoreIsValid d
    → (p : Collab.assign h k i owner session note expected d ≡ ok (d', out))
    → IsValid (appended h k i owner session note expected d d' out p)
assigned-IsValid h k i owner session note expected d d' out v p = record {
  version = w.version;
  bounded = assign_bounded k i expected out m.file.records m.revision w.bounded;
  unique = Unique-push out kept (Unique-retain other m.file.records w.unique) (
      rw (m.new_kind, m.new_id)
        (find-retain-none other (names k i) m.file.records (λ x q. ground arith)));
  sound =
      All-append IsSound kept (out ∷ []) (All-retain IsSound other m.file.records w.sound)
        (fresh out m.new_state m.new_pending bounds.0, tt);
}
  where
    m : Assigned h k i owner session note expected d d' out
    m = assign-eq-ok h k i owner session note expected d d' out p

    w : IsValid m.file
    w = load-IsValid d m.file v m.loaded

    other : CollabRecord → Bool
    other x = not (names k i x)

    kept : List CollabRecord
    kept = retain other m.file.records

    bounds :
        (out.revision < 2 ^ 64)
        × ((find (names k i) m.file.records ≡ none)
            → suc (length m.file.records) ≤ max_collab_records)
    bounds =
        next_revision_bounds (find (names k i) m.file.records) expected (length m.file.records)
          out.revision m.revision

pub assign-IsValid :
    (h : Host) (k : ResourceKind) (i owner : Text) (session note : Option Text)
    (expected : Option ℕ) (d : Store)
    → StoreIsValid d
    → StoreIsValid (after d (Collab.assign h k i owner session note expected d))
assign-IsValid h k i owner session note expected d v =
    elim (Result-cases (Collab.assign h k i owner session note expected d)) [
      | inr (x, e) ↦ rw e v
      | inl (p, e) ↦
          let m = assign-eq-ok h k i owner session note expected d p.0 p.1 e in
          rw e (rw (m.saved) (assigned-IsValid h k i owner session note expected d p.0 p.1 v e))
    ]

-- Every call keeps the store valid.
pub perform-IsValid :
    (c : Call) (h : Host) (k : ResourceKind) (i : Text) (d : Store)
    → StoreIsValid d
    → StoreIsValid (after d (perform c h k i d))
unfolding perform
perform-IsValid (assign owner session note expected) h k i d v =
    assign-IsValid h k i owner session note expected d v
perform-IsValid (activate acting expected) h k i d v =
    mutate-IsValid h k i (some acting) expected activate_record d activate-IsClosure v
perform-IsValid (request_handoff from to note expected) h k i d v =
    elim (Result-cases (validate_note note)) [
      | inr (x, e) ↦ rw e v
      | inl (u, e) ↦ rw e (
          mutate-IsValid h k i (some from) expected (request_record to note) d
            (request-IsClosure to note) v)
    ]
perform-IsValid (accept_handoff by expected) h k i d v =
    mutate-IsValid h k i none expected (accept_record by) d (accept-IsClosure by) v
perform-IsValid (release acting expected) h k i d v =
    mutate-IsValid h k i (some acting) expected release_record d release-IsClosure v

-- From a valid store, a missing file among them, any sequence of calls, by any agents, with any
-- answers of the host, leaves a valid store: at most one record for a resource, at most 10000
-- records, a handoff target exactly while a handoff is requested, and revisions within a u64.
pub run-IsValid : (qs : List Request) (d : Store) → StoreIsValid d → StoreIsValid (run qs d)
unfolding run step
run-IsValid [] d v = v
run-IsValid (q ∷ qs) d v = run-IsValid qs (step q d) (perform-IsValid q.call q.host q.kind q.id d v)
