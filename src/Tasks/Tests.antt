-- ===== src/Tasks/Tests.antt =====
-- A store with a live task and a cancelled one, and the theorems of this part at it.
use agent_workspace_hub.Prelude.{
  ◌≡◌, ◌⊎◌, refl, true, false, none, some, List, [], ◌∷◌, codes, text_eq, is_blank, byte_len,
  len_utf8, any, all, find, retain, replace_first, ok, if◌then◌else◌,
}
use agent_workspace_hub.Host.{stored, Host}
use agent_workspace_hub.Tasks.{
  Task, TaskStatus, todo, in_progress, done, cancelled, is_terminal, is_allowed, TaskPriority,
  normal, high, Store, load, open_store, save, validate_task_input, new_task, get, Directory,
  check_assignee, update_task, update_found, set_or,
}
use agent_workspace_hub.Tasks
use agent_workspace_hub.Tasks.Lifecycle.{get-create, get-update}
use agent_workspace_hub.Tasks.Terminal.{
  update, cancel, delete, Request, run, spares, HasStatus, terminal_stays,
}

abbrev good : Host
good = record { dir_ok = true; lock_ok = true; save_ok = true; now = codes "now" }

abbrev nobody : Directory
nobody = record { session = λ t. ok false; worktree = λ t. ok false; agent = λ t. ok false }

abbrev live : Task
live = new_task (codes "then") (codes "t1") (codes "title") [] normal []

abbrev ended : Task
ended = record live { id = codes "t2"; status = cancelled }

abbrev store : Store
store = stored (live ∷ ended ∷ [])

abbrev reopened : Task
reopened = new_task (codes "now") (codes "t2") (codes "again") [] normal []

abbrev stopped : Task
stopped = record live { status = cancelled; updated_at = codes "now" }

abbrev started : Task
started = record live { status = in_progress; updated_at = codes "now" }

live_found : get (codes "t1") store ≡ ok (some live)
unfolding get load find text_eq
live_found = refl

ended_found : get (codes "t2") store ≡ ok (some ended)
unfolding get load find text_eq
ended_found = refl

-- A cancelled task is replaced by a live one of the same id.
ended_replaced :
    Tasks.create good (codes "t2") (codes "again") [] normal [] store
    ≡ ok (stored (live ∷ reopened ∷ []), reopened)
unfolding Tasks.create validate_task_input open_store save load is_blank byte_len len_utf8 any
    retain text_eq
ended_replaced = refl

live_deleted : Tasks.delete good (codes "t1") store ≡ ok (stored (ended ∷ []), true)
unfolding Tasks.delete open_store save load retain text_eq
live_deleted = refl

live_cancelled : Tasks.cancel good (codes "t1") store ≡ ok (stored (stopped ∷ ended ∷ []), stopped)
unfolding Tasks.cancel open_store save load find replace_first text_eq
live_cancelled = refl

live_started :
    Tasks.update nobody good (codes "t1") (some in_progress) none none store
    ≡ ok (stored (started ∷ ended ∷ []), some started)
unfolding Tasks.update check_assignee update_found update_task open_store save load find
    replace_first text_eq
live_started = refl

get-create_example :
    (reopened ≡ new_task (codes "now") (codes "t2") (codes "again") [] normal [])
    × (reopened.status ≡ todo)
    × (get (codes "t2") (stored (live ∷ reopened ∷ []))
        ≡ ok (if text_eq (codes "t2") (codes "t2") then some reopened else some ended))
get-create_example =
    get-create good (codes "t2") (codes "again") [] normal [] store (stored (live ∷ reopened ∷ []))
      reopened (codes "t2") ended_replaced ended_found

get-update_example :
    ((get (codes "t1") store ≡ ok none)
      × (some started ≡ none)
      × (stored (started ∷ ended ∷ []) ≡ store))
    ⊎ ((task : Task) × (task' : Task) × (get (codes "t1") store ≡ ok (some task))
        × (is_allowed (some in_progress) task.status ≡ true)
        × (task' ≡ record task {
          status = set_or (some in_progress) task.status;
          priority = set_or none task.priority;
          assignee = set_or none task.assignee;
          updated_at = codes "now";
        })
        × (some started ≡ some task')
        × (get (codes "t2") (stored (started ∷ ended ∷ []))
            ≡ ok (if text_eq (codes "t1") (codes "t2") then some task' else some ended)))
get-update_example =
    get-update nobody good (codes "t1") (some in_progress) none none store
      (stored (started ∷ ended ∷ [])) (some started) (codes "t2") live_started ended_found

abbrev meddling : List Request
meddling =
    record { host = good; stores = nobody; call = update (codes "t2") (some todo) none none }
    ∷ record { host = good; stores = nobody; call = delete (codes "t1") }
    ∷ record { host = good; stores = nobody; call = cancel (codes "t2") }
    ∷ []

all_spare : all (λ q. spares (codes "t2") q.call) meddling ≡ true
unfolding all spares text_eq
all_spare = refl

terminal_stays_example : HasStatus (codes "t2") cancelled (run meddling store)
terminal_stays_example =
    terminal_stays meddling (codes "t2") cancelled store refl all_spare (ended, ended_found, refl)
