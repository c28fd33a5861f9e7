-- ===== src/Edit/Execute/Alone.antt =====
-- Replacements with no other writer (src/services/edit.rs: replace_internal): when an error
-- means that nothing was written, and when it does not.
use agent_workspace_hub.Prelude.{
  ◌≡◌, refl, ap, ◌∙◌, ◌⊎◌, inl, inr, true, false, Option, arith, length, Text, text_eq_refl, ltb,
  Result, ok, err, ◌>>◌, Result-cases, Option-cases, Bool-cases,
}
use agent_workspace_hub.Edit.Matching.{Bytes}
use agent_workspace_hub.Edit.Model.{FileState, from_content, EditError}
use agent_workspace_hub.Edit.Files.{
  Disk, max_file_bytes, read_bytes, read, put, write_atomic_locked,
}
use agent_workspace_hub.Edit.Commit.{
  World, verify_live_unchanged, verify_written, file_state_eq, check_semantics, commit_edit,
}
use agent_workspace_hub.Edit.Commit.Outcome.{
  written_disk, write_cases, locked_refused, locked_failed, locked_written,
}
use agent_workspace_hub.Edit.Commit.Edits.{edit_uncaptured, edit_unlocked, edit_locked}
use agent_workspace_hub.Edit.Execute.Splice.{IsText}

-- A world in which nobody else writes, with the answers of recovery, locks and staging.
unfoldable pub alone : Option EditError → Option Text → Option Text → World
alone capture refusal staging = record {
  capture = capture;
  refusal = refusal;
  staging = staging;
  before_guard = λ disk. disk;
  before_write = λ disk. disk;
  after_write = λ disk. disk;
  before_check = λ disk. disk;
}

read_bytes_ok :
    (disk : Disk) (path : Text) (content : Bytes)
    → disk path ≡ ok content
    → ltb max_file_bytes (length content) ≡ false
    → read_bytes disk path ≡ ok content
unfolding read_bytes
read_bytes_ok disk path content r s = rw (r, read_bytes) (rw s refl)

read_ok :
    (disk : Disk) (path : Text) (content : Bytes)
    → IsText content
    → read_bytes disk path ≡ ok content
    → read disk path ≡ ok content
unfolding read IsText
read_ok disk path content t r = rw (r, read) (rw t refl)

put_path : (path : Text) (content : Bytes) (disk : Disk) → put path content disk path ≡ ok content
unfolding put
put_path path content disk = rw (text_eq_refl path) refl

pub read-put :
    (path : Text) (content : Bytes) (disk : Disk)
    → IsText content
    → ltb max_file_bytes (length content) ≡ false
    → read (put path content disk) path ≡ ok content
read-put path content disk t s =
    let now = put path content disk in
    read_ok now path content t (read_bytes_ok now path content (put_path path content disk) s)

file_state_eq_refl : (state : FileState) → file_state_eq state state ≡ true
unfolding file_state_eq
file_state_eq_refl state = ground (arith, text_eq_refl state.path, text_eq_refl state.hash)

pub verify_written_put :
    (sha256_hex : Bytes → Text) (path : Text) (content : Bytes) (disk : Disk)
    → read disk path ≡ ok content
    → verify_written sha256_hex disk path content ≡ ok (from_content sha256_hex path content)
unfolding verify_written
verify_written_put sha path content disk r =
    rw (r, verify_written) (rw (file_state_eq_refl (from_content sha path content)) refl)

pub write_size :
    (failure : Option Text) (path : Text) (content : Bytes) (disk : Disk) {left : Disk}
    → write_atomic_locked failure path content disk ≡ ok left
    → ltb max_file_bytes (length content) ≡ false
unfolding write_atomic_locked
write_size failure path content disk {left = left} e =
    elim (Bool-cases (ltb max_file_bytes (length content))) [
      | inl s ↦ cc (rw (s, write_atomic_locked) at e)
      | inr s ↦ s
    ]

-- The two ends of an edit of text with no other writer: it stops with the disk as it was, or the
-- prepared content is on the disk and the semantic check decides.
module _ (sha256_hex : Bytes → Text) (capture : Option EditError) (refusal staging : Option Text)
    (path : Text) (prepared : Bytes) (before : FileState)
    (semantics : Disk → FileState → Result EditError (Unit {0})) (disk : Disk) where
  unfoldable pub Stopped : Type 0
  unfolding alone
  Stopped =
      (error : EditError) × (commit_edit sha256_hex (alone capture refusal staging) path prepared
          before semantics disk
        ≡ (err error, disk))

  unfoldable pub Written : Type 0
  unfolding alone
  Written =
      (commit_edit sha256_hex (alone capture refusal staging) path prepared before semantics disk
        ≡ (
          semantics (put path prepared disk) (from_content sha256_hex path prepared)
              >> ok (from_content sha256_hex path prepared),
          put path prepared disk,
        ))
      × (read (put path prepared disk) path ≡ ok prepared)

  pub alone-cases : IsText prepared → Stopped ⊎ Written
  unfolding Stopped Written alone check_semantics written_disk
  alone-cases t = elim (Option-cases capture) [
    | inr (error, c) ↦ inl (
      error,
      edit_uncaptured sha256_hex (alone capture refusal staging) path prepared before semantics disk
          error c,
    )
    | inl c ↦ elim (Option-cases refusal) [
      | inr (message, f) ↦ inl (
        _,
        edit_unlocked sha256_hex (alone capture refusal staging) path prepared before semantics disk
            message c f,
      )
      | inl f ↦
          let world = alone capture refusal staging in
          let way = edit_locked sha256_hex world path prepared before semantics disk c f in
          elim (Result-cases (verify_live_unchanged sha256_hex disk path before)) [
            | inr (error, v) ↦ inl (
              error,
              way
                  ∙ ap (check_semantics world semantics)
                      (locked_refused sha256_hex world path prepared before disk error v),
            )
            | inl (done, v) ↦ elim (write_cases staging path prepared disk) [
              | inr (message, w) ↦ inl (
                _,
                way
                    ∙ ap (check_semantics world semantics)
                        (locked_failed sha256_hex world path prepared before disk message v w),
              )
              | inl w ↦
                  let got =
                    read-put path prepared disk t
                      (write_size staging path prepared disk {left = put path prepared disk} w) in
                  let verified =
                    verify_written_put sha256_hex path prepared (put path prepared disk) got in
                  inr (
                    way
                        ∙ ap (check_semantics world semantics)
                            (locked_written sha256_hex world path prepared before disk v w)
                        ∙ ap (λ r. check_semantics world semantics (r, put path prepared disk))
                            verified,
                    got,
                  )
            ]
          ]
    ]
  ]
