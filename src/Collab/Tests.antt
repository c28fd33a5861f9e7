-- ===== src/Collab/Tests.antt =====
-- A store with one task, and the theorems of this part at it.
use agent_workspace_hub.Prelude.{
  ◌≡◌, inl, refl, true, none, some, Text, codes, text_eq, ok, err, [], ◌∷◌, arith, find, has_char,
  byte_len, contains, starts_with, len_utf8, replace_first,
}
use agent_workspace_hub.Host.{stored, Host}
use agent_workspace_hub.Collab.{
  ResourceKind, task, worktree, CollabRecord, Store, Failure, assigned, active, released,
  already_owned, refused, names, load, open_store, record_of, validate_resource, validate_note,
  mutate, commit, next_revision,
}
use agent_workspace_hub.Collab
use agent_workspace_hub.Collab.Calls.{
  assign, activate, request_handoff, accept_handoff, release, perform, run,
}
use agent_workspace_hub.Collab.Invariant.{StoreIsValid}
use agent_workspace_hub.Collab.Preservation.{run-IsValid}
use agent_workspace_hub.Collab.Protocol.{Effect}
use agent_workspace_hub.Collab.Race.{perform-Effect, perform-race}
use agent_workspace_hub.Collab.Progress.{handoff_completes}

abbrev good : Host
good = record { dir_ok = true; lock_ok = true; save_ok = true; now = codes "now" }

abbrev alice : Text
alice = codes "alice"

abbrev bob : Text
bob = codes "bob"

abbrev job : Text
job = codes "t1"

abbrev held : CollabRecord
held = record {
  resource_kind = task;
  resource_id = job;
  owner_agent = alice;
  owner_session = none;
  state = assigned;
  pending_to_agent = none;
  revision = 1;
  note = none;
  created_at = codes "then";
  updated_at = codes "then";
}

abbrev store : Store
store = stored (record { version = 1; records = held ∷ [] })

abbrev working : CollabRecord
working = record held { state = active; revision = 2 }

abbrev store' : Store
store' = stored (record { version = 1; records = record working { updated_at = codes "now" } ∷ [] })

store-StoreIsValid : StoreIsValid store
unfolding find
store-StoreIsValid = record {
  version = refl;
  bounded = omega arith;
  unique = (refl, tt);
  sound = (record { pending_when_requested = refl; revision_u64 = omega arith }, tt);
}

activates : perform (activate alice 1) good task job store ≡ ok (store', working)
unfolding perform mutate validate_resource open_store load names commit find text_eq replace_first
    byte_len len_utf8 has_char contains starts_with
activates = refl

-- A second agent cannot assign a task that is held.
assign_held :
    perform (assign bob none none (some 1)) good task job store ≡ err (refused already_owned)
unfolding perform Collab.assign validate_resource validate_note open_store load names next_revision
    find text_eq byte_len len_utf8 has_char contains starts_with
assign_held = refl

seen : record_of task job store ≡ some held
unfolding record_of load names find text_eq
seen = refl

run-IsValid_example :
    StoreIsValid
      (run (record { host = good; kind = task; id = job; call = activate alice 1 } ∷ []) store)
run-IsValid_example =
    run-IsValid (record { host = good; kind = task; id = job; call = activate alice 1 } ∷ []) store
      store-StoreIsValid

perform-Effect_example : Effect (activate alice 1) task job store store' working
perform-Effect_example =
    perform-Effect (activate alice 1) good task job store store' working store-StoreIsValid
      activates

perform-race_example : (x : Failure) × (perform (release alice 1) good task job store' ≡ err x)
perform-race_example =
    perform-race (activate alice 1) (release alice 1) good good task job store store' working held
      store-StoreIsValid seen refl activates (ground arith)

job_valid : validate_resource job ≡ ok tt
unfolding validate_resource byte_len len_utf8 has_char contains starts_with
job_valid = refl

handoff_completes_example :
    (new : CollabRecord) × (record_of task job (
        run
          (record { host = good; kind = task; id = job; call = request_handoff alice bob none 1 }
            ∷ record { host = good; kind = task; id = job; call = accept_handoff bob 2 }
            ∷ record { host = good; kind = task; id = job; call = activate bob 3 }
            ∷ [])
          store)
      ≡ some new)
    × (new.owner_agent ≡ bob)
    × (new.state ≡ active)
    × (new.pending_to_agent ≡ none)
    × (new.revision ≡ 4)
handoff_completes_example =
    handoff_completes good task job (record { dir = refl; lock = refl; save = refl }) job_valid
      alice bob store held store-StoreIsValid seen refl (inl refl) (omega arith)
