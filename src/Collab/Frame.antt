-- ===== src/Collab/Frame.antt =====
-- core/collaboration.rs: a call on one resource, and the records of the others.
use agent_workspace_hub.Prelude.{
  ℕ, ◌≡◌, inl, inr, true, not, Option, none, some, Text, Result, ok, arith, ◌∙◌, sym, retain,
  find-retain_same, find-push_other, find-replace_first_other, find-holds, Result-cases, ◌>>◌,
}
use agent_workspace_hub.Host.{Host}
use agent_workspace_hub.Collab
use agent_workspace_hub.Collab.{
  ResourceKind, CollabRecord, CollabStoreFile, Failure, Store, names, mutate, record_of,
  activate_record, request_record, accept_record, release_record, validate_note,
}
use agent_workspace_hub.Collab.Names.{names_iff, Differ, names-Differ}
use agent_workspace_hub.Collab.Calls.{
  Call, assign, activate, request_handoff, accept_handoff, release, perform,
}
use agent_workspace_hub.Collab.Mutate.{Mutated, mutate-eq-ok, Assigned, assign-eq-ok}
use agent_workspace_hub.Collab.Invariant.{StoreIsValid}
use agent_workspace_hub.Collab.Preservation.{
  IsClosure, Follows, activate-IsClosure, request-IsClosure, accept-IsClosure, release-IsClosure,
  load-IsValid, written-IsValid, assigned-IsValid,
}
use agent_workspace_hub.Collab.Handoff.{record_of-load, record_of-stored}

request-eq-ok :
    (note : Option Text) (r : Result Failure (Store × CollabRecord)) {p : Store × CollabRecord}
    → (validate_note note >> r) ≡ ok p
    → r ≡ ok p
request-eq-ok note r h = elim (Result-cases (validate_note note)) [
  | inl (u, e) ↦ rw e at h
  | inr (x, e) ↦ absurd (ground arith)
]

module _ (k : ResourceKind) (i : Text) (k' : ResourceKind) (i' : Text)
    (apart : Differ k i k' i') where
  mutate_other :
      (h : Host) (acting : Option Text) (e : ℕ)
      (apply : CollabRecord → Result Failure (CollabRecord × CollabRecord)) (d d' : Store)
      (out : CollabRecord)
      → IsClosure apply
      → StoreIsValid d
      → mutate h k i acting e apply d ≡ ok (d', out)
      → record_of k' i' d' ≡ record_of k' i' d
  unfolding names
  mutate_other h acting e apply d d' out c v p = elim m.saved [
    | inl same ↦ rw (same.1)
    | inr w ↦ rw (w.1) (
        record_of-stored k' i' _ (
          written-IsValid h k i m.file m.before m.changed out (load-IsValid d m.file v m.loaded)
            m.found f)
        ∙ find-replace_first_other (names k i) (names k' i')
            (record m.changed { updated_at = h.now }) m.file.records m.found
            (names-Differ k i k' i' m.before apart named)
            (rw (f.kind, f.id) (names-Differ k i k' i' m.before apart named))
        ∙ sym (record_of-load k' i' d m.file m.loaded))
  ]
    where
      m : Mutated h k i acting e apply d d' out
      m = mutate-eq-ok h k i acting e apply d d' out p

      f : Follows m.before m.changed out
      f = c m.before m.changed out m.applied

      named : names k i m.before ≡ true
      named = find-holds (names k i) m.file.records m.found

  assign_other :
      (h : Host) (owner : Text) (session note : Option Text) (expected : Option ℕ) (d d' : Store)
      (out : CollabRecord)
      → StoreIsValid d
      → Collab.assign h k i owner session note expected d ≡ ok (d', out)
      → record_of k' i' d' ≡ record_of k' i' d
  assign_other h owner session note expected d d' out v p = rw (m.saved) (
      record_of-stored k' i' _ (assigned-IsValid h k i owner session note expected d d' out v p)
      ∙ find-push_other (names k' i') out (retain (λ x. not (names k i x)) m.file.records)
          (names-Differ k i k' i' out apart ((names_iff k i out).1 (m.new_kind, m.new_id)))
      ∙ find-retain_same (λ x. not (names k i x)) (names k' i') m.file.records (λ x q. kept x q)
      ∙ sym (record_of-load k' i' d m.file m.loaded))
    where
      m : Assigned h k i owner session note expected d d' out
      m = assign-eq-ok h k i owner session note expected d d' out p

      kept : (x : CollabRecord) → names k' i' x ≡ true → not (names k i x) ≡ true
      kept x q = ground (arith, names-Differ k i k' i' x apart)

  -- In a valid store, a call on one resource leaves the record of every other resource, of
  -- another kind or another id, as it was.
  pub perform_other :
      (c : Call) (h : Host) (d d' : Store) (out : CollabRecord)
      → StoreIsValid d
      → perform c h k i d ≡ ok (d', out)
      → record_of k' i' d' ≡ record_of k' i' d
  unfolding perform
  perform_other (assign owner session note expected) h d d' out v p =
      assign_other h owner session note expected d d' out v p
  perform_other (activate acting e) h d d' out v p =
      mutate_other h (some acting) e activate_record d d' out activate-IsClosure v p
  perform_other (request_handoff from to note e) h d d' out v p =
      mutate_other h (some from) e (request_record to note) d d' out (request-IsClosure to note) v
        (request-eq-ok note (mutate h k i (some from) e (request_record to note) d) p)
  perform_other (accept_handoff by e) h d d' out v p =
      mutate_other h none e (accept_record by) d d' out (accept-IsClosure by) v p
  perform_other (release acting e) h d d' out v p =
      mutate_other h (some acting) e release_record d d' out release-IsClosure v p
