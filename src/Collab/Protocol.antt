-- ===== src/Collab/Protocol.antt =====
-- core/collaboration.rs: the moves of the ownership protocol, with the agent and the revision that
-- a call names.
use mathlib.Core.Path.{subst}
use agent_workspace_hub.Prelude.{
  ℕ, ◌+◌, ◌++◌, ◌≡◌, ◌⊎◌, inl, inr, refl, true, not, Option, none, some, Text, Result, ok, err, [],
  ◌∷◌, arith, ap, ◌∙◌, sym, length, find, retain, find-append_none, find-retain-none, Result-cases,
  find-All,
}
use agent_workspace_hub.Host.{wrap_u64, Host}
use agent_workspace_hub.Collab
use agent_workspace_hub.Collab.{
  ResourceKind, assigned, active, handoff_requested, handed_off, CollabRecord, CollabStoreFile,
  Failure, Store, released, is_held, names, next_revision, mutate, record_of, activate_record,
  request_record, accept_record, release_record, validate_note, load,
}
use agent_workspace_hub.Collab.Names.{names_iff}
use agent_workspace_hub.Collab.Calls.{
  Call, assign, activate, request_handoff, accept_handoff, release,
}
use agent_workspace_hub.Collab.Mutate.{Assigned, assign-eq-ok}
use agent_workspace_hub.Collab.Invariant.{IsValid, StoreIsValid, IsSound}
use agent_workspace_hub.Collab.Preservation.{load-IsValid, assigned-IsValid, appended}
use agent_workspace_hub.Collab.Handoff.{
  View, view, old_view, Move, claim, Seen, record_of-load, record_of-stored, wrap-ne,
}

-- The agent that a call acts for, and the revision that it claims to have seen.
abbrev pub actor_of : Call → Text
actor_of (assign owner _ _ expected) = owner
actor_of (activate acting expected) = acting
actor_of (request_handoff from _ _ expected) = from
actor_of (accept_handoff accepting expected) = accepting
actor_of (release acting expected) = acting

abbrev pub expected_of : Call → Option ℕ
expected_of (assign owner _ _ expected) = expected
expected_of (activate acting expected) = some expected
expected_of (request_handoff from _ _ expected) = some expected
expected_of (accept_handoff accepting expected) = some expected
expected_of (release acting expected) = some expected

-- A fresh record has revision 1, and every write adds one.
abbrev pub advanced : Option CollabRecord → ℕ
advanced none = 1
advanced (some r) = wrap_u64 (r.revision + 1)

-- What a call leads to: the state that it asks for, with the agent that it names as the owner or as
-- the target of the handoff.
unfoldable pub Reached : Call → View → Type 0
Reached (assign owner _ _ _) w = (w.state ≡ assigned) × (w.owner ≡ owner)
Reached (activate acting _) w = (w.state ≡ active) × (w.owner ≡ acting)
Reached (request_handoff from to _ _) w =
    (w.state ≡ handoff_requested) × (w.owner ≡ from) × (w.pending ≡ some to)
Reached (accept_handoff accepting _) w = (w.state ≡ handed_off) × (w.owner ≡ accepting)
Reached (release acting _) w = (w.state ≡ released) × (w.owner ≡ acting)

-- A request of the handoff that the record has already, by its owner and to the same target.
pub data Repeats : Call → CollabRecord → Type 0 where
  again :
      (from to : Text) (note : Option Text) (expected : ℕ) (r : CollabRecord)
      → r.owner_agent ≡ from
      → r.state ≡ handoff_requested
      → r.pending_to_agent ≡ some to
      → Repeats (request_handoff from to note expected) r

-- What a call that succeeded has done to the record of its resource. The record that it returns
-- is the one in the store but for the time of the update.
pub record Effect (c : Call) (k : ResourceKind) (i : Text) (d d' : Store) (out : CollabRecord)
    : Type 0 where
  pub new : CollabRecord
  pub found : record_of k i d' ≡ some new
  pub returned : out ≡ record new { updated_at = out.updated_at }
  pub moved :
      ((d' ≡ d) × Repeats c new)
      ⊎ (Move (actor_of c) (old_view (record_of k i d)) (view new)
          × (new.revision ≡ advanced (record_of k i d)))
  pub reached : Reached c (view new)
  pub current : (r : CollabRecord) → record_of k i d ≡ some r → expected_of c ≡ some r.revision

pub Effect-of :
    (c : Call) (h : Host) (k : ResourceKind) (i : Text) (acting : Option Text) (e : ℕ)
    (apply : CollabRecord → Result Failure (CollabRecord × CollabRecord)) (d d' : Store)
    (out : CollabRecord) (s : Seen h k i acting e apply d d' out)
    → expected_of c ≡ some e
    → (((out ≡ s.before) × Repeats c s.before)
        ⊎ (Move (actor_of c) (some (view s.before)) (view out)
            × (out.revision ≡ wrap_u64 (s.before.revision + 1))))
    → Reached c (view out)
    → Effect c k i d d' out
Effect-of c h k i acting e apply d d' out s x m reached = elim s.after [
  | inl (same, o) ↦ record {
    new = s.before;
    found = rw same s.held_before;
    returned = ground arith;
    moved = inl (same, repeated o);
    reached = subst (λ b. Reached c (view b)) o reached;
    current = current;
  }
  | inr (written, r) ↦ record {
    new = record out { updated_at = h.now };
    found = written;
    returned = refl;
    moved = inr (rw (s.held_before) (moved r, r));
    reached = reached;
    current = current;
  }
]
  where
    current : (r : CollabRecord) → record_of k i d ≡ some r → expected_of c ≡ some r.revision
    current r q = x ∙ ap some (sym s.current ∙ ap (λ y. y.revision) same)
      where
        same : s.before ≡ r
        same = ground (arith, s.held_before)

    moved :
        out.revision ≡ wrap_u64 (s.before.revision + 1)
        → Move (actor_of c) (some (view s.before)) (view out)
    moved r = elim m [
      | inl (o, repeats) ↦
          absurd (wrap-ne s.before.revision s.sound.revision_u64 (sym r ∙ ap (λ y. y.revision) o))
      | inr (v, next) ↦ v
    ]

    repeated : out ≡ s.before → Repeats c s.before
    repeated o = elim m [
      | inl (same, repeats) ↦ repeats
      | inr (v, next) ↦
          absurd
            (wrap-ne s.before.revision s.sound.revision_u64 (sym next ∙ ap (λ y. y.revision) o))
    ]

next_revision_facts :
    (o : Option CollabRecord) (expected : Option ℕ) (count n : ℕ)
    → next_revision o expected count ≡ ok n
    → (n ≡ advanced o)
      × ((r : CollabRecord) → o ≡ some r → (r.state ≡ released) × (expected ≡ some r.revision))
unfolding next_revision
next_revision_facts none expected count n h = (ground arith, λ r q. absurd (ground arith))
next_revision_facts (some o) none count n h = absurd (ground arith)
next_revision_facts (some o) (some e) count n h = (
  ground arith,
  λ r q.
      subst (λ x. (x.state ≡ released) × (some e ≡ some x.revision)) (some-eq o r q)
        (ground arith, ground arith),
)
  where
    some-eq : (a b : CollabRecord) → some a ≡ some b → a ≡ b
    some-eq a b p = cc

-- An assignment appends a record in place of any that the resource had.
find-assigned :
    (k : ResourceKind) (i : Text) (r : CollabRecord) (file : CollabStoreFile)
    → names k i r ≡ true
    → find (names k i) (retain (λ x. not (names k i x)) file.records ++ r ∷ []) ≡ some r
unfolding find
find-assigned k i r file h =
    find-append_none (names k i) (retain (λ x. not (names k i x)) file.records) (r ∷ [])
      (find-retain-none (λ x. not (names k i x)) (names k i) file.records (λ x q. ground arith))
    ∙ rw h refl

pub assign-Effect :
    (h : Host) (k : ResourceKind) (i owner : Text) (session note : Option Text)
    (expected : Option ℕ) (d d' : Store) (out : CollabRecord)
    → StoreIsValid d
    → Collab.assign h k i owner session note expected d ≡ ok (d', out)
    → Effect (assign owner session note expected) k i d d' out
unfolding Reached
assign-Effect h k i owner session note expected d d' out v p = record {
  new = out;
  found = rw (m.saved) (
      record_of-stored k i
        (record m.file { records = retain (λ x. not (names k i x)) m.file.records ++ out ∷ [] })
        valid
      ∙ find-assigned k i out m.file ((names_iff k i out).1 (m.new_kind, m.new_id)));
  returned = refl;
  moved = inr (
      rw here (
        claim (old_view (find (names k i) m.file.records)) (view out)
            (free (find (names k i) m.file.records) facts.1) (ground (arith, m)),
        facts.0,
      ));
  reached = (ground (arith, m), ground (arith, m));
  current = λ r q. (facts.1 r (sym here ∙ q)).1;
}
  where
    m : Assigned h k i owner session note expected d d' out
    m = assign-eq-ok h k i owner session note expected d d' out p

    here : record_of k i d ≡ find (names k i) m.file.records
    here = record_of-load k i d m.file m.loaded

    facts :
        (out.revision ≡ advanced (find (names k i) m.file.records))
        × ((r : CollabRecord)
            → find (names k i) m.file.records ≡ some r
            → (r.state ≡ released) × (expected ≡ some r.revision))
    facts =
        next_revision_facts (find (names k i) m.file.records) expected (length m.file.records)
          out.revision m.revision

    valid : IsValid (appended h k i owner session note expected d d' out p)
    valid = assigned-IsValid h k i owner session note expected d d' out v p

    free :
        (o : Option CollabRecord)
        → ((r : CollabRecord) → o ≡ some r → (r.state ≡ released) × (expected ≡ some r.revision))
        → (w : View) → old_view o ≡ some w
        → w.state ≡ released
    free none f w q = absurd (ground arith)
    free (some r) f w q = ground (arith, f r refl)

pub record_of-err :
    (k : ResourceKind) (i : Text) (d : Store) (r : CollabRecord) (x : Failure)
    → load d ≡ err x
    → record_of k i d ≡ some r
    → ⊥
unfolding record_of
record_of-err k i d r x e h = ground arith

pub record_of-IsSound :
    (k : ResourceKind) (i : Text) (d : Store) (r : CollabRecord)
    → StoreIsValid d
    → record_of k i d ≡ some r
    → IsSound r
record_of-IsSound k i d r v h = elim (Result-cases (load d)) [
  | inr (x, e) ↦ absurd (record_of-err k i d r x e h)
  | inl (file, e) ↦
      find-All IsSound (names k i) file.records (load-IsValid d file v e).sound
        (sym (record_of-load k i d file e) ∙ h)
]
