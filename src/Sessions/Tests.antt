-- ===== src/Sessions/Tests.antt =====
-- A session that was stopped and one that is active, and the theorems of this part at them.
use agent_workspace_hub.Prelude.{
  ◌≡◌, ◌⊎◌, refl, true, none, some, List, [], ◌∷◌, codes, text_eq, byte_len, len_utf8, has_char,
  contains, starts_with, any, all, is_control, split, if◌then◌else◌, ok,
}
use agent_workspace_hub.Host.{missing, Host}
use agent_workspace_hub.Policy.{file_name}
use agent_workspace_hub.Sessions.{
  active, paused, stopped, is_usable, AgentSessionRecord, is_safe_session_id, is_valid_transition,
  lock_record, Store, write_record, transition_found, transition, get,
}
use agent_workspace_hub.Sessions.Lifecycle.{get-transition}
use agent_workspace_hub.Sessions.Settled.{
  Request, open_session, move, run, spares, HasStatus, settled_stays,
}

abbrev good : Host
good = record { dir_ok = true; lock_ok = true; save_ok = true; now = codes "now" }

abbrev live : AgentSessionRecord
live = record {
  session_id = codes "sess-1";
  agent_id = codes "writer";
  workspace_id = codes "w";
  status = active;
  created_at = codes "then";
  last_activity_at = codes "then";
}

abbrev ended : AgentSessionRecord
ended = record live { session_id = codes "sess-2"; status = stopped }

abbrev resting : AgentSessionRecord
resting = record live { status = paused; last_activity_at = codes "now" }

abbrev store : Store
store = write_record (codes "sess-1") live (write_record (codes "sess-2") ended (λ id. missing))

abbrev store' : Store
store' = write_record (codes "sess-1") resting store

live_paused : transition good (codes "sess-1") paused store ≡ ok (store', some resting)
unfolding transition lock_record transition_found is_valid_transition is_safe_session_id file_name
    text_eq byte_len len_utf8 has_char contains starts_with any is_control split
live_paused = refl

ended_found : get (codes "sess-2") store ≡ ok (some ended)
unfolding get is_safe_session_id file_name text_eq byte_len len_utf8 has_char contains starts_with
    any is_control split
ended_found = refl

get-transition_example :
    ((get (codes "sess-1") store ≡ ok none) × (some resting ≡ none) × (store' ≡ store))
    ⊎ ((session : AgentSessionRecord) × (get (codes "sess-1") store ≡ ok (some session))
        × ((is_usable session.status ≡ true) ⊎ (session.status ≡ paused))
        × (some resting ≡ some (record session { status = paused; last_activity_at = codes "now" }))
        × (get (codes "sess-2") store' ≡ (
            if text_eq (codes "sess-2") (codes "sess-1")
            then ok (some resting)
            else get (codes "sess-2") store)))
get-transition_example =
    get-transition good (codes "sess-1") paused store store' (some resting) (codes "sess-2")
      live_paused

abbrev calls : List Request
calls =
    record { host = good; call = move (codes "sess-2") active }
    ∷ record { host = good; call = open_session live }
    ∷ []

all_spare : all (λ q. spares (codes "sess-2") q.call) calls ≡ true
unfolding all spares text_eq
all_spare = refl

settled_stays_example : HasStatus (codes "sess-2") stopped (run calls store)
settled_stays_example =
    settled_stays calls (codes "sess-2") stopped store refl all_spare (ended, ended_found, refl)
