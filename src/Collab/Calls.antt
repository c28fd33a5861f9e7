-- ===== src/Collab/Calls.antt =====
-- core/collaboration.rs: the writing operations of the store, each a call of `assign` or `mutate`
-- with its closure; and a caller's whole session with the store, one call after another.
use agent_workspace_hub.Prelude.{ℕ, Option, none, some, List, [], ◌∷◌, Text, Result, ok, err, ◌>>◌}
use agent_workspace_hub.Host.{Host}
use agent_workspace_hub.Collab
use agent_workspace_hub.Collab.{
  ResourceKind, CollabRecord, Failure, Store, validate_note, mutate, activate_record,
  request_record, accept_record, release_record,
}

-- The operations that write, with the arguments that they have beside the resource.
pub data Call : Type 0 where
  assign : Text → Option Text → Option Text → Option ℕ → Call
  activate : Text → ℕ → Call
  request_handoff : Text → Text → Option Text → ℕ → Call
  accept_handoff : Text → ℕ → Call
  release : Text → ℕ → Call

unfoldable pub perform :
    Call → Host → ResourceKind → Text → Store → Result Failure (Store × CollabRecord)
perform (assign owner session note expected) h kind id d =
    Collab.assign h kind id owner session note expected d
perform (activate acting expected) h kind id d =
    mutate h kind id (some acting) expected activate_record d
perform (request_handoff from to note expected) h kind id d =
    validate_note note >> mutate h kind id (some from) expected (request_record to note) d
perform (accept_handoff accepting expected) h kind id d =
    mutate h kind id none expected (accept_record accepting) d
perform (release acting expected) h kind id d =
    mutate h kind id (some acting) expected release_record d

-- One call on one resource, as a caller makes it.
pub record Request : Type 0 where
  pub host : Host
  pub kind : ResourceKind
  pub id : Text
  pub call : Call

-- The file after a call: a call that fails has written nothing.
abbrev pub after : Store → Result Failure (Store × CollabRecord) → Store
after d (ok (d', r)) = d'
after d (err e) = d

unfoldable pub step : Request → Store → Store
unfolding perform
step q d = after d (perform q.call q.host q.kind q.id d)

unfoldable pub run : List Request → Store → Store
run [] d = d
run (q ∷ qs) d = run qs (step q d)
