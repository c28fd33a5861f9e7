-- ===== src/Collab/Race.antt =====
-- core/collaboration.rs: calls as moves of the protocol, and two calls that saw one revision.
use agent_workspace_hub.Prelude.{
  ◌≡◌, ◌≢◌, refl, inl, inr, none, some, Text, ok, err, arith, ap, ◌∙◌, sym, Result-cases,
}
use agent_workspace_hub.Host.{Host}
use agent_workspace_hub.Collab.{
  ResourceKind, CollabRecord, Failure, Store, mutate, record_of, activate_record, request_record,
  accept_record, release_record, validate_note,
}
use agent_workspace_hub.Collab.Calls.{
  Call, assign, activate, request_handoff, accept_handoff, release, perform,
}
use agent_workspace_hub.Collab.Invariant.{StoreIsValid}
use agent_workspace_hub.Collab.Preservation.{
  activate-IsClosure, request-IsClosure, accept-IsClosure, release-IsClosure, perform-IsValid,
}
use agent_workspace_hub.Collab.Handoff.{
  mutate-Seen, activate-Move, release-Move, accept-Move, request-Move, request-reaches, owner_is,
  wrap-ne,
}
use agent_workspace_hub.Collab.Protocol.{
  expected_of, advanced, Reached, again, Effect, Effect-of, assign-Effect, record_of-IsSound,
}

-- In a valid store, a call that succeeds either is a request of the handoff that the record has
-- already, by its owner and to the same target, and writes nothing, or makes one move of the
-- ownership protocol as the agent that it names: a claim of a resource that is free, a start, an
-- offer or a release by the owner, or the acceptance of a handoff by its target. Afterwards the
-- record is in the state that the call asks for, with the owner or the target that it names. A
-- move sets the revision: it becomes 1 for a new record, and is one more (mod 2^64) otherwise; the
-- caller had named the revision that the record had; and the record in the store is the returned
-- one but for the time of the update.
pub perform-Effect :
    (c : Call) (h : Host) (k : ResourceKind) (i : Text) (d d' : Store) (out : CollabRecord)
    → StoreIsValid d
    → perform c h k i d ≡ ok (d', out)
    → Effect c k i d d' out
unfolding perform Reached
perform-Effect (assign owner session note expected) h k i d d' out v p =
    assign-Effect h k i owner session note expected d d' out v p
perform-Effect (activate acting e) h k i d d' out v p =
    let s = mutate-Seen h k i (some acting) e activate_record d d' out activate-IsClosure v p in
    Effect-of (activate acting e) h k i (some acting) e activate_record d d' out s refl
      (inr (activate-Move acting s.before out s.owned s.applied))
      (ground arith, ground (arith, owner_is acting s.before out s.owned))
perform-Effect (request_handoff from to note e) h k i d d' out v p =
    elim (Result-cases (validate_note note)) [
      | inr (x, bad) ↦ absurd (ground arith)
      | inl (u, good) ↦
          let q : mutate h k i (some from) e (request_record to note) d ≡ ok (d', out) =
            ground arith in
          let s =
            mutate-Seen h k i (some from) e (request_record to note) d d' out
              (request-IsClosure to note) v q in
          Effect-of (request_handoff from to note e) h k i (some from) e (request_record to note) d
            d' out s refl
            (elim (request-Move from s.before out to note s.owned s.applied) [
              | inl (same, state, pending) ↦ inl (
                same,
                again from to note e s.before (owner_is from s.before out s.owned) state pending,
              )
              | inr step ↦ inr step
            ])
            (request-reaches from s.before out to note s.owned s.applied)
    ]
perform-Effect (accept_handoff by e) h k i d d' out v p =
    let s = mutate-Seen h k i none e (accept_record by) d d' out (accept-IsClosure by) v p in
    Effect-of (accept_handoff by e) h k i none e (accept_record by) d d' out s refl
      (inr (accept-Move by s.before out s.applied)) (ground arith, ground arith)
perform-Effect (release acting e) h k i d d' out v p =
    let s = mutate-Seen h k i (some acting) e release_record d d' out release-IsClosure v p in
    Effect-of (release acting e) h k i (some acting) e release_record d d' out s refl
      (inr (release-Move acting s.before out s.owned s.applied))
      (ground arith, ground (arith, owner_is acting s.before out s.owned))

-- Two callers act on one resource, each having seen the record `r`. If the first call succeeds
-- and changes the file, the second, made on the file that the first leaves, fails: whatever the
-- two calls are, whoever makes them, and whatever the host answers.
pub perform-race :
    (c c' : Call) (h h' : Host) (k : ResourceKind) (i : Text) (d d' : Store) (out r : CollabRecord)
    → StoreIsValid d
    → record_of k i d ≡ some r
    → expected_of c' ≡ some r.revision
    → perform c h k i d ≡ ok (d', out)
    → d' ≢ d
    → (x : Failure) × (perform c' h' k i d' ≡ err x)
perform-race c c' h h' k i d d' out r v seen e p moved =
    elim (Result-cases (perform c' h' k i d')) [
      | inr failed ↦ failed
      | inl (q, p') ↦
          let first = perform-Effect c h k i d d' out v p in
          let second = perform-Effect c' h' k i d' q.0 q.1 (valid p) p' in
          absurd (elim first.moved [
            | inl (same, repeats) ↦ moved same
            | inr step ↦
                wrap-ne r.revision (record_of-IsSound k i d r v seen).revision_u64
                  (newer first.new step.1 (ground (arith, e, second.current first.new first.found)))
          ])
    ]
  where
    valid : perform c h k i d ≡ ok (d', out) → StoreIsValid d'
    valid p = rw p at (perform-IsValid c h k i d v)

    newer :
        (new : CollabRecord)
        → new.revision ≡ advanced (record_of k i d)
        → r.revision ≡ new.revision
        → advanced (some r) ≡ r.revision
    newer new a b = ap advanced (sym seen) ∙ sym a ∙ sym b
