-- ===== src/Edit/Commit/Edits.antt =====
-- An edit from the capture of its recovery material to its semantic check (src/services/edit.rs:
-- the tail that replace_internal, insert_internal and delete_range_internal share).
use agent_workspace_hub.Prelude.{
  ◌≡◌, refl, sym, ap, ◌∙◌, ◌⊎◌, inl, inr, false, none, some, [], Text, text_eq, Result, ok, err,
  Option-cases, >>=-eq-ok, ok-injective,
}
use mathlib.Core.Path.{subst}
use agent_workspace_hub.Edit.Matching.{Bytes}
use agent_workspace_hub.Edit.Model.{FileState, EditError, write_failure}
use agent_workspace_hub.Edit.Files.{Disk, read_bytes}
use agent_workspace_hub.Edit.Commit.{
  World, verify_live_unchanged, verify_written, commit_verified_locked, commit_verified,
  check_semantics, commit_edit,
}
use agent_workspace_hub.Edit.Commit.Outcome.{
  verify_live_unchanged_stale, written_disk, locked_refused, commit_verified_locked-eq-ok,
}

-- A checked commit that answers is one that has answered, and has passed its check.
check_semantics-eq-ok :
    (world : World) (semantics : Disk → FileState → Result EditError (Unit {0}))
    (committed : Result EditError FileState × Disk) {after : FileState}
    → (check_semantics world semantics committed).0 ≡ ok after
    → (committed.0 ≡ ok after)
      × (semantics (world.before_check committed.1) after ≡ ok tt)
      × ((check_semantics world semantics committed).1 ≡ world.before_check committed.1)
unfolding check_semantics
check_semantics-eq-ok world semantics (err error, left) e = cc
check_semantics-eq-ok world semantics (ok state, left) {after = after} e =
    let (done, passed, same) = >>=-eq-ok (semantics (world.before_check left) state) _ e in
    (
      same,
      subst (λ s. semantics (world.before_check left) s ≡ ok tt) (ok-injective state after same)
          passed,
      refl,
    )

module _ (sha256_hex : Bytes → Text) (world : World) (path : Text) (prepared : Bytes)
    (before : FileState) (semantics : Disk → FileState → Result EditError (Unit {0}))
    (disk : Disk) where
  pub edit_uncaptured :
      (error : EditError)
      → world.capture ≡ some error
      → commit_edit sha256_hex world path prepared before semantics disk ≡ (err error, disk)
  unfolding commit_edit
  edit_uncaptured error c = rw c refl

  pub edit_unlocked :
      (message : Text)
      → world.capture ≡ none
      → world.refusal ≡ some message
      → commit_edit sha256_hex world path prepared before semantics disk
        ≡ (err (write_failure [] message), world.before_guard disk)
  unfolding commit_edit commit_verified
  edit_unlocked message c r = rw c (rw r refl)

  pub edit_locked :
      world.capture ≡ none
      → world.refusal ≡ none
      → commit_edit sha256_hex world path prepared before semantics disk
        ≡ check_semantics world semantics
            (commit_verified_locked sha256_hex world path prepared before (world.before_guard disk))
  unfolding commit_edit commit_verified
  edit_locked c r = rw c (rw r refl)

  -- When the digest of the file that the guard reads is not the one that the edit was prepared
  -- from, the edit fails and nothing is written: the disk is as the others left it.
  pub commit_edit-stale :
      (live : Bytes)
      → read_bytes (world.before_guard disk) path ≡ ok live
      → text_eq (sha256_hex live) before.hash ≡ false
      → (error : EditError) × ((commit_edit sha256_hex world path prepared before semantics disk
            ≡ (err error, disk))
          ⊎ (commit_edit sha256_hex world path prepared before semantics disk
              ≡ (err error, world.before_guard disk)))
  unfolding check_semantics
  commit_edit-stale live r d = elim (Option-cases world.capture) [
    | inr (error, c) ↦ (error, inl (edit_uncaptured error c))
    | inl c ↦ elim (Option-cases world.refusal) [
      | inr (message, f) ↦ (write_failure [] message, inr (edit_unlocked message c f))
      | inl f ↦
          let (error, e) =
            verify_live_unchanged_stale sha256_hex (world.before_guard disk) path before live r d in
          let way =
            locked_refused sha256_hex world path prepared before (world.before_guard disk) error
              e in
          (error, inr (edit_locked c f ∙ ap (check_semantics world semantics) way))
    ]
  ]

  -- What holds when an edit has answered with a state.
  pub commit_edit-eq-ok :
      (after : FileState)
      → (commit_edit sha256_hex world path prepared before semantics disk).0 ≡ ok after
      → (verify_live_unchanged sha256_hex (world.before_guard disk) path before ≡ ok tt)
        × (verify_written sha256_hex
              (written_disk world path prepared (world.before_guard disk))
              path
              prepared
            ≡ ok after)
        × ((commit_edit sha256_hex world path prepared before semantics disk).1
            ≡ world.before_check (written_disk world path prepared (world.before_guard disk)))
  commit_edit-eq-ok after e = elim (Option-cases world.capture) [
    | inr (error, c) ↦ cc (e, ap (λ p. p.0) (edit_uncaptured error c))
    | inl c ↦ elim (Option-cases world.refusal) [
      | inr (message, f) ↦ cc (e, ap (λ p. p.0) (edit_unlocked message c f))
      | inl f ↦
          let start = world.before_guard disk in
          let locked = commit_verified_locked sha256_hex world path prepared before start in
          let way = edit_locked c f in
          let (fine, passed, left) =
            check_semantics-eq-ok world semantics locked {after = after}
              (sym (ap (λ p. p.0) way) ∙ e) in
          let (live, disk_after, verified) =
            commit_verified_locked-eq-ok sha256_hex world path prepared before after start fine in
          (live, verified, ap (λ p. p.1) way ∙ left ∙ ap world.before_check disk_after)
    ]
  ]
