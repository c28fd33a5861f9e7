-- ===== src/Collab/Progress.antt =====
-- core/collaboration.rs: the calls of a handoff, one after another.
use agent_workspace_hub.Prelude.{
  ℕ, ◌+◌, ◌<◌, ◌^◌, ◌≡◌, ◌≢◌, ◌⊎◌, inl, inr, refl, true, Option, none, some, Text, Result, ok,
  arith, ◌∙◌, sym, find, text_eq_refl, text_eq_iff, Result-cases, [], ◌∷◌,
}
use agent_workspace_hub.Host.{stored, Host, wrap_u64}
use agent_workspace_hub.Collab.{
  ResourceKind, CollabRecord, CollabStoreFile, Failure, Store, assigned, active, handoff_requested,
  handed_off, validate_note, names, load, open_store, validate_resource, owned_by, commit, mutate,
  record_of, activate_record, request_record, accept_record,
}
use agent_workspace_hub.Collab.Calls.{activate, request_handoff, accept_handoff, perform, step, run}
use agent_workspace_hub.Collab.Mutate.{written}
use agent_workspace_hub.Collab.Invariant.{StoreIsValid}
use agent_workspace_hub.Collab.Preservation.{
  IsClosure, activate-IsClosure, request-IsClosure, accept-IsClosure, mutate-IsValid,
}
use agent_workspace_hub.Collab.Handoff.{mutate-Seen, record_of-load}
use agent_workspace_hub.Collab.Protocol.{record_of-err}

-- A host on which nothing fails.
pub record Answers (h : Host) : Type 0 where
  pub dir : h.dir_ok ≡ true
  pub lock : h.lock_ok ≡ true
  pub save : h.save_ok ≡ true

commit-ok :
    (h : Host) (k : ResourceKind) (i : Text) (file : CollabStoreFile) (e : ℕ) (d : Store)
    (r' : CollabRecord)
    → Answers h
    → r'.revision ≢ e
    → commit h k i file e d r' r' ≡ ok (stored (written h k i file r'), r')
unfolding commit
commit-ok h k i file e d r' a n = ground arith

module _ (h : Host) (k : ResourceKind) (i : Text) (answers : Answers h)
    (valid_id : validate_resource i ≡ ok tt) where
  open_store-ok : (d : Store) (file : CollabStoreFile) → load d ≡ ok file → open_store h d ≡ ok file
  unfolding open_store
  open_store-ok d file e = ground arith

  mutate-ok :
      (acting : Option Text) (e : ℕ)
      (apply : CollabRecord → Result Failure (CollabRecord × CollabRecord)) (d : Store)
      (file : CollabStoreFile) (r r' : CollabRecord)
      → load d ≡ ok file
      → find (names k i) file.records ≡ some r
      → owned_by acting r ≡ true
      → r.revision ≡ e
      → apply r ≡ ok (r', r')
      → r'.revision ≢ e
      → mutate h k i acting e apply d ≡ ok (stored (written h k i file r'), r')
  unfolding mutate
  mutate-ok acting e apply d file r r' l f o c a n =
      ground (arith, valid_id, open_store-ok d file l, commit-ok h k i file e d r' answers n)

  -- The call goes through, and the store then holds what the closure made of the record.
  mutate-progress :
      (acting : Option Text) (e : ℕ)
      (apply : CollabRecord → Result Failure (CollabRecord × CollabRecord)) (d : Store)
      (r r' : CollabRecord)
      → IsClosure apply
      → StoreIsValid d
      → record_of k i d ≡ some r
      → owned_by acting r ≡ true
      → r.revision ≡ e
      → apply r ≡ ok (r', r')
      → r'.revision ≢ e
      → (d' : Store) × (mutate h k i acting e apply d ≡ ok (d', r'))
        × (record_of k i d' ≡ some (record r' { updated_at = h.now }))
        × StoreIsValid d'
  mutate-progress acting e apply d r r' c v f o q a n = elim (Result-cases (load d)) [
    | inr (x, bad) ↦ absurd (record_of-err k i d r x bad f)
    | inl (file, l) ↦
        let p =
          mutate-ok acting e apply d file r r' l (sym (record_of-load k i d file l) ∙ f) o q a n in
        let s = mutate-Seen h k i acting e apply d (stored (written h k i file r')) r' c v p in
        (
          stored (written h k i file r'),
          p,
          elim s.after [ inl same ↦ absurd (n (ground (arith, s.current))) | inr w ↦ w.0 ],
          rw p at (mutate-IsValid h k i acting e apply d c v),
        )
  ]

  -- A handoff from `a` to `b` of a resource that `a` holds, assigned or active, with a sound
  -- store, a valid resource id, a host that answers, and a revision that does not wrap: the
  -- request, the acceptance and the activation, each on the revision that the last one left,
  -- all succeed, and `b` then holds the resource, active, with no handoff pending and the
  -- revision three higher.
  pub handoff_completes :
      (a b : Text) (d : Store) (r : CollabRecord)
      → StoreIsValid d
      → record_of k i d ≡ some r
      → r.owner_agent ≡ a
      → (r.state ≡ assigned) ⊎ (r.state ≡ active)
      → r.revision + 3 < 2 ^ 64
      → (new : CollabRecord) × (record_of k i (
            run
              (record { host = h; kind = k; id = i; call = request_handoff a b none r.revision }
                ∷ record { host = h; kind = k; id = i; call = accept_handoff b (r.revision + 1) }
                ∷ record { host = h; kind = k; id = i; call = activate b (r.revision + 2) }
                ∷ [])
              d)
          ≡ some new)
        × (new.owner_agent ≡ b)
        × (new.state ≡ active)
        × (new.pending_to_agent ≡ none)
        × (new.revision ≡ r.revision + 3)
  unfolding run step perform validate_note
  handoff_completes a b d r v f o s n =
      let r1 : CollabRecord = record r {
        state = handoff_requested;
        pending_to_agent = some b;
        revision = wrap_u64 (r.revision + 1);
      } in
      let (d1, p1, f1, v1) =
        mutate-progress (some a) r.revision (request_record b none) d r r1
          (request-IsClosure b none) v f (ground (arith, text_eq_iff r.owner_agent a)) refl
          (ground arith) (omega arith) in
      let r1' = record r1 { updated_at = h.now } in
      let r2 : CollabRecord = record r1' {
        state = handed_off;
        owner_agent = b;
        owner_session = none;
        pending_to_agent = none;
        revision = wrap_u64 (r1.revision + 1);
      } in
      let (d2, p2, f2, v2) =
        mutate-progress none (r.revision + 1) (accept_record b) d1 r1' r2 (accept-IsClosure b) v1 f1
          refl (omega arith) (ground (arith, text_eq_refl b)) (omega arith) in
      let r2' = record r2 { updated_at = h.now } in
      let r3 : CollabRecord = record r2' {
        state = active;
        revision = wrap_u64 (r2.revision + 1);
      } in
      let (d3, p3, f3, v3) =
        mutate-progress (some b) (r.revision + 2) activate_record d2 r2' r3 activate-IsClosure v2 f2
          (text_eq_refl b) (omega arith) (ground arith) (omega arith) in
      (record r3 { updated_at = h.now }, rw (p1, p2, p3) f3, refl, refl, refl, omega arith)
