-- ===== src/Collab/Handoff.antt =====
-- core/collaboration.rs: the protocol of ownership as a relation between what a resource's record
-- says before and after a call, and the calls as steps of it.
use mathlib.Core.Path.{subst}
use agent_workspace_hub.Prelude.{
  ℕ, ◌+◌, ◌<◌, ◌^◌, ◌≡◌, ◌≢◌, ◌⊎◌, inl, inr, true, Option, none, some, Text, Result, ok, arith,
  find, Option-cases, Bool-cases, ◌&&◌, option_text_eq, find-replace_first, text_eq_iff, find-holds,
  ◌∙◌, sym, find-All, ap,
}
use agent_workspace_hub.Host.{wrap_u64, stored, Host}
use agent_workspace_hub.Collab.{
  ResourceKind, OwnershipState, assigned, active, handoff_requested, handed_off, released,
  CollabRecord, CollabStoreFile, Failure, Store, load, names, mutate, record_of, owned_by,
  activate_record, release_record, accept_record, request_record, is_handoff_requested,
}
use agent_workspace_hub.Collab.Mutate.{Mutated, written, mutate-eq-ok}
use agent_workspace_hub.Collab.Invariant.{IsSound, IsValid, StoreIsValid}
use agent_workspace_hub.Collab.Preservation.{IsClosure, Follows, load-IsValid, written-IsValid}

-- What the protocol says of a record.
pub record View : Type 0 where
  pub state : OwnershipState
  pub owner : Text
  pub pending : Option Text

abbrev pub view : CollabRecord → View
view r = record { state = r.state; owner = r.owner_agent; pending = r.pending_to_agent }

-- One move of the protocol, by the agent `actor`. `claim` needs no record or a released one; the
-- owner may start work, offer the resource to another agent, or give it up; only the agent that
-- a handoff is offered to may take it.
pub data Move (actor : Text) : Option View → View → Type 0 where
  claim :
      (o : Option View) (w : View)
      → ((v : View) → o ≡ some v → v.state ≡ released)
      → w ≡ record { state = assigned; owner = actor; pending = none }
      → Move actor o w
  start :
      (v w : View)
      → (v.state ≡ assigned) ⊎ (v.state ≡ handed_off)
      → v.owner ≡ actor
      → w ≡ record v { state = active }
      → Move actor (some v) w
  offer :
      (v w : View) (to : Text)
      → (v.state ≡ assigned) ⊎ (v.state ≡ active)
      → v.owner ≡ actor
      → w ≡ record v { state = handoff_requested; pending = some to }
      → Move actor (some v) w
  take :
      (v w : View)
      → v.state ≡ handoff_requested
      → v.pending ≡ some actor
      → w ≡ record { state = handed_off; owner = actor; pending = none }
      → Move actor (some v) w
  give_up :
      (v w : View)
      → v.state ≢ released
      → v.owner ≡ actor
      → w ≡ record { state = released; owner = v.owner; pending = none }
      → Move actor (some v) w

load-stored : (file : CollabStoreFile) → IsValid file → load (stored file) ≡ ok file
unfolding load
load-stored file v = ground arith

pub record_of-load :
    (k : ResourceKind) (i : Text) (d : Store) (file : CollabStoreFile)
    → load d ≡ ok file
    → record_of k i d ≡ find (names k i) file.records
unfolding record_of
record_of-load k i d file e = rw e

pub wrap-ne : (n : ℕ) → n < 2 ^ 64 → wrap_u64 (n + 1) ≢ n
wrap-ne n h = omega arith

pub record_of-stored :
    (k : ResourceKind) (i : Text) (file : CollabStoreFile)
    → IsValid file
    → record_of k i (stored file) ≡ find (names k i) file.records
record_of-stored k i file v = record_of-load k i (stored file) file (load-stored file v)

-- After a write to the found record, the store holds what was written.
record_of-written :
    (h : Host) (k : ResourceKind) (i : Text) (file : CollabStoreFile) (before r' out : CollabRecord)
    → IsValid file
    → find (names k i) file.records ≡ some before
    → Follows before r' out
    → record_of k i (stored (written h k i file r')) ≡ some (record r' { updated_at = h.now })
unfolding names
record_of-written h k i file before r' out v e f =
    record_of-stored k i (written h k i file r') (written-IsValid h k i file before r' out v e f)
    ∙ find-replace_first (names k i) (record r' { updated_at = h.now }) file.records
        (rw (f.kind, f.id) (find-holds (names k i) file.records e)) (rw e)

-- A `mutate` that succeeded, as seen through `record_of`.
pub record Seen (h : Host) (k : ResourceKind) (i : Text) (acting : Option Text) (expected : ℕ)
    (apply : CollabRecord → Result Failure (CollabRecord × CollabRecord)) (d d' : Store)
    (out : CollabRecord) : Type 0 where
  pub before : CollabRecord
  pub held_before : record_of k i d ≡ some before
  pub owned : owned_by acting before ≡ true
  pub current : before.revision ≡ expected
  pub applied : apply before ≡ ok (out, out)
  pub sound : IsSound before
  pub after :
      ((d' ≡ d) × (out ≡ before))
      ⊎ ((record_of k i d' ≡ some (record out { updated_at = h.now }))
          × (out.revision ≡ wrap_u64 (before.revision + 1)))

pub mutate-Seen :
    (h : Host) (k : ResourceKind) (i : Text) (acting : Option Text) (expected : ℕ)
    (apply : CollabRecord → Result Failure (CollabRecord × CollabRecord)) (d d' : Store)
    (out : CollabRecord)
    → IsClosure apply
    → StoreIsValid d
    → mutate h k i acting expected apply d ≡ ok (d', out)
    → Seen h k i acting expected apply d d' out
mutate-Seen h k i acting expected apply d d' out c v p = record {
  before = m.before;
  held_before = record_of-load k i d m.file m.loaded ∙ m.found;
  owned = m.owned;
  current = m.current;
  applied = subst (λ x. apply m.before ≡ ok (x, out)) (sym f.outcome) m.applied;
  sound = sound;
  after = elim m.saved [
    | inl s ↦ inl (s.1, f.outcome ∙ still s.0)
    | inr s ↦ inr (
      subst (λ x. record_of k i d' ≡ some (record x { updated_at = h.now })) (sym f.outcome)
          (rw (s.1) (record_of-written h k i m.file m.before m.changed out valid m.found f)),
      ground (arith, f),
    )
  ];
}
  where
    m : Mutated h k i acting expected apply d d' out
    m = mutate-eq-ok h k i acting expected apply d d' out p

    f : Follows m.before m.changed out
    f = c m.before m.changed out m.applied

    valid : IsValid m.file
    valid = load-IsValid d m.file v m.loaded

    sound : IsSound m.before
    sound = find-All IsSound (names k i) m.file.records valid.sound m.found

    still : m.changed.revision ≡ expected → m.changed ≡ m.before
    still e = elim f.revision [
      | inl same ↦ same
      | inr next ↦
          absurd (wrap-ne m.before.revision sound.revision_u64 (sym next ∙ e ∙ sym m.current))
    ]

abbrev pub old_view : Option CollabRecord → Option View
old_view none = none
old_view (some r) = some (view r)

option_text_eq-some :
    (o : Option Text) (to : Text) → option_text_eq o (some to) ≡ true → o ≡ some to
option_text_eq-some none to h = absurd (ground arith)
option_text_eq-some (some t) to h = ap some ((text_eq_iff t to).0 h)

-- Each closure makes its move on the record that it is given, with the next revision.
module _ (actor : Text) (r r' : CollabRecord) where
  pub activate-Move :
      owned_by (some actor) r ≡ true
      → activate_record r ≡ ok (r', r')
      → Move actor (some (view r)) (view r') × (r'.revision ≡ wrap_u64 (r.revision + 1))
  activate-Move o e = (
    start (view r) (view r') (ground arith) (ground (arith, text_eq_iff r.owner_agent actor))
        (ground arith),
    ground arith,
  )

  pub release-Move :
      owned_by (some actor) r ≡ true
      → release_record r ≡ ok (r', r')
      → Move actor (some (view r)) (view r') × (r'.revision ≡ wrap_u64 (r.revision + 1))
  release-Move o e = (
    give_up (view r) (view r') (ground arith) (ground (arith, text_eq_iff r.owner_agent actor))
        (ground arith),
    ground arith,
  )

  pub accept-Move :
      accept_record actor r ≡ ok (r', r')
      → Move actor (some (view r)) (view r') × (r'.revision ≡ wrap_u64 (r.revision + 1))
  accept-Move e = elim (Option-cases r.pending_to_agent) [
    | inl n ↦ absurd (ground arith)
    | inr (t, p) ↦ (
      take (view r) (view r') (ground arith) (ground (arith, text_eq_iff t actor)) (ground arith),
      ground arith,
    )
  ]

  pub owner_is : owned_by (some actor) r ≡ true → r.owner_agent ≡ actor
  owner_is o = ground (arith, text_eq_iff r.owner_agent actor)

  -- A request that succeeds leaves the handoff requested, be it new or repeated.
  pub request-reaches :
      (to : Text) (note : Option Text)
      → owned_by (some actor) r ≡ true
      → request_record to note r ≡ ok (r', r')
      → (r'.state ≡ handoff_requested) × (r'.owner_agent ≡ actor) × (r'.pending_to_agent ≡ some to)
  request-reaches to _ o e =
      elim (Bool-cases
        (is_handoff_requested r.state && option_text_eq r.pending_to_agent (some to))) [
          | inl repeated ↦
              let pending = option_text_eq-some r.pending_to_agent to (ground arith) in
              (ground arith, ground (arith, owner_is o), ground (arith, pending))
          | inr fresh ↦ (ground arith, ground (arith, owner_is o), ground arith)
        ]

  -- A repeated request changes nothing; any other is an offer.
  pub request-Move :
      (to : Text) (note : Option Text)
      → owned_by (some actor) r ≡ true
      → request_record to note r ≡ ok (r', r')
      → ((r' ≡ r) × (r.state ≡ handoff_requested) × (r.pending_to_agent ≡ some to))
        ⊎ (Move actor (some (view r)) (view r') × (r'.revision ≡ wrap_u64 (r.revision + 1)))
  request-Move to _ o e =
      elim (Bool-cases
        (is_handoff_requested r.state && option_text_eq r.pending_to_agent (some to))) [
          | inl again ↦
              inl (
                ground arith,
                ground arith,
                option_text_eq-some r.pending_to_agent to (ground arith),
              )
          | inr fresh ↦ inr (
            offer (view r) (view r') to (ground arith)
                (ground (arith, text_eq_iff r.owner_agent actor)) (ground arith),
            ground arith,
          )
        ]
