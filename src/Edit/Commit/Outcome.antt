-- ===== src/Edit/Commit/Outcome.antt =====
-- What a commit does to the disk and what it answers (src/services/edit.rs: commit_verified,
-- verify_live_unchanged).
use agent_workspace_hub.Prelude.{
  ◌≡◌, refl, sym, ap, ◌∙◌, ◌⊎◌, inl, inr, Bool, true, false, Option, none, some, length, Text,
  codes, text_eq, text_eq_iff, ltb, ◌==◌, ==_iff, ok, err, guard, Result-cases, Bool-cases,
  &&-eq-true,
}
use agent_workspace_hub.Edit.Matching.{Bytes}
use agent_workspace_hub.Edit.Model.{FileState, EditError, write_failure}
use agent_workspace_hub.Edit.Files.{
  Disk, not_found, io_error, max_file_bytes, read_bytes, put, write_atomic_locked,
}
use agent_workspace_hub.Edit.Commit.{
  World, verify_live_unchanged, verify_written, commit_verified_locked,
}

guard-eq-ok : {E : Type 0} (test : Bool) (fault : E) → guard test fault ≡ ok tt → test ≡ true
guard-eq-ok false fault e = cc
guard-eq-ok true fault e = refl

-- What the guard has found when it lets a commit go on.
pub verify_live_unchanged-eq-ok :
    (sha256_hex : Bytes → Text) (disk : Disk) (path : Text) (before : FileState)
    → verify_live_unchanged sha256_hex disk path before ≡ ok tt
    → (live : Bytes) × (read_bytes disk path ≡ ok live)
      × (sha256_hex live ≡ before.hash)
      × (length live ≡ before.size)
unfolding verify_live_unchanged
verify_live_unchanged-eq-ok sha disk path before e = elim (Result-cases (read_bytes disk path)) [
  | inr (not_found message, f) ↦ cc (rw (f, verify_live_unchanged) at e)
  | inr (io_error message, f) ↦ cc (rw (f, verify_live_unchanged) at e)
  | inl (live, f) ↦
      let both = &&-eq-true _ _ (guard-eq-ok _ _ (rw (f, verify_live_unchanged) at e)) in
      (live, f, (text_eq_iff _ _).0 both.0, (==_iff _ _).0 both.1)
]

-- A file that differs from the state that the edit was prepared from stops the edit.
pub verify_live_unchanged_stale :
    (sha256_hex : Bytes → Text) (disk : Disk) (path : Text) (before : FileState) (live : Bytes)
    → read_bytes disk path ≡ ok live
    → text_eq (sha256_hex live) before.hash ≡ false
    → (error : EditError) × (verify_live_unchanged sha256_hex disk path before ≡ err error)
unfolding verify_live_unchanged
verify_live_unchanged_stale sha disk path before live r d =
    elim (Result-cases (verify_live_unchanged sha disk path before)) [
      | inr found ↦ found
      | inl (done, e) ↦
          let both =
            &&-eq-true (text_eq (sha live) before.hash) (length live == before.size)
              (guard-eq-ok _ _ (rw (r, verify_live_unchanged) at e)) in
          cc (d, both.0)
    ]

unfoldable pub written_disk : World → Text → Bytes → Disk → Disk
unfolding put
written_disk world path prepared disk =
    world.after_write (put path prepared (world.before_write disk))

pub write_cases :
    (failure : Option Text) (path : Text) (content : Bytes) (disk : Disk)
    → (write_atomic_locked failure path content disk ≡ ok (put path content disk))
      ⊎ ((message : Text) × (write_atomic_locked failure path content disk ≡ err message))
unfolding write_atomic_locked
write_cases none path content disk = elim (Bool-cases (ltb max_file_bytes (length content))) [
  | inl e ↦ inr (codes "content exceeds the 8388608 byte limit", rw e refl)
  | inr e ↦ inl (rw e refl)
]
write_cases (some message) path content disk =
    elim (Bool-cases (ltb max_file_bytes (length content))) [
      | inl e ↦ inr (codes "content exceeds the 8388608 byte limit", rw e refl)
      | inr e ↦ inr (message, rw e refl)
    ]

-- The three ways of a commit.
module _ (sha256_hex : Bytes → Text) (world : World) (path : Text) (prepared : Bytes)
    (before : FileState) (disk : Disk) where
  pub locked_refused :
      (error : EditError)
      → verify_live_unchanged sha256_hex disk path before ≡ err error
      → commit_verified_locked sha256_hex world path prepared before disk ≡ (err error, disk)
  unfolding commit_verified_locked
  locked_refused error f = rw (f, commit_verified_locked) refl

  pub locked_failed :
      (message : Text)
      → verify_live_unchanged sha256_hex disk path before ≡ ok tt
      → write_atomic_locked world.staging path prepared (world.before_write disk) ≡ err message
      → commit_verified_locked sha256_hex world path prepared before disk
        ≡ (err (write_failure path message), world.before_write disk)
  unfolding commit_verified_locked
  locked_failed message f g = rw (f, commit_verified_locked) (rw (g, commit_verified_locked) refl)

  pub locked_written :
      verify_live_unchanged sha256_hex disk path before ≡ ok tt
      → write_atomic_locked world.staging path prepared (world.before_write disk)
        ≡ ok (put path prepared (world.before_write disk))
      → commit_verified_locked sha256_hex world path prepared before disk ≡ (
        verify_written sha256_hex (written_disk world path prepared disk) path prepared,
        written_disk world path prepared disk,
      )
  unfolding commit_verified_locked written_disk
  locked_written f g = rw (f, commit_verified_locked) (rw (g, commit_verified_locked) refl)

-- A commit that answers with a state has read the file as it was prepared from, has written the
-- prepared content, and has read that content again.
pub commit_verified_locked-eq-ok :
    (sha256_hex : Bytes → Text) (world : World) (path : Text) (prepared : Bytes)
    (before after : FileState) (disk : Disk)
    → (commit_verified_locked sha256_hex world path prepared before disk).0 ≡ ok after
    → (verify_live_unchanged sha256_hex disk path before ≡ ok tt)
      × ((commit_verified_locked sha256_hex world path prepared before disk).1
          ≡ written_disk world path prepared disk)
      × (verify_written sha256_hex (written_disk world path prepared disk) path prepared ≡ ok after)
commit_verified_locked-eq-ok sha world path prepared before after disk e =
    elim (Result-cases (verify_live_unchanged sha disk path before)) [
      | inr (error, f) ↦
          cc (e, ap (λ p. p.0) (locked_refused sha world path prepared before disk error f))
      | inl (done, f) ↦ elim (write_cases world.staging path prepared (world.before_write disk)) [
        | inr (message, g) ↦
            cc (e, ap (λ p. p.0) (locked_failed sha world path prepared before disk message f g))
        | inl g ↦
            let way = locked_written sha world path prepared before disk f g in
            (f, ap (λ p. p.1) way, sym (ap (λ p. p.0) way) ∙ e)
      ]
    ]
