-- ===== src/Tasks.antt =====
-- core/tasks.rs: the project's task store, one JSON file behind a lock.
pub mod Calls
pub mod Lifecycle
pub mod Terminal
mod Tests
use agent_workspace_hub.Prelude.{
  ℕ, ◌*◌, Bool, true, false, not, ◌&&◌, ◌||◌, Option, none, some, is_some, List, [], ◌∷◌, ◌++◌,
  Text, codes, text_eq, is_empty, is_blank, byte_len, starts_with, ltb, leb, ◌==◌, if◌then◌else◌,
  length, any, find, retain, replace_first, Result, ok, err, ◌>>=◌, ◌>>◌, guard, or_err,
}
use agent_workspace_hub.Host.{
  Disk, missing, unreadable, corrupt, stored, Host, HostFault, dir_failed, lock_failed, read_failed,
  corrupt_file, write_failed,
}

abbrev pub max_tasks : ℕ
max_tasks = 10_000

abbrev pub max_task_id_len : ℕ
max_task_id_len = 256

abbrev pub max_task_title_len : ℕ
max_task_title_len = 1024

abbrev pub max_task_description_len : ℕ
max_task_description_len = 64 * 1024

abbrev pub max_task_tags : ℕ
max_task_tags = 64

abbrev pub max_task_tag_len : ℕ
max_task_tag_len = 128

pub data TaskStatus : Type 0 where
  todo in_progress blocked done cancelled : TaskStatus

abbrev pub is_terminal : TaskStatus → Bool
is_terminal todo = false
is_terminal in_progress = false
is_terminal blocked = false
is_terminal done = true
is_terminal cancelled = true

abbrev pub is_valid_task_transition : TaskStatus → TaskStatus → Bool
is_valid_task_transition from to = not (is_terminal from)

-- The derived equality of two statuses.
abbrev pub status_code : TaskStatus → ℕ
status_code todo = 0
status_code in_progress = 1
status_code blocked = 2
status_code done = 3
status_code cancelled = 4

abbrev pub status_eq : TaskStatus → TaskStatus → Bool
status_eq a b = status_code a == status_code b

pub data TaskPriority : Type 0 where
  low normal high critical : TaskPriority

pub record Task : Type 0 where
  pub id : Text
  pub title : Text
  pub description : Text
  pub status : TaskStatus
  pub priority : TaskPriority
  pub assignee : Option Text
  pub tags : List Text
  pub created_at : Text
  pub updated_at : Text

pub data TaskFault : Type 0 where
  host : HostFault → TaskFault
  empty_id id_too_long empty_title title_too_long description_too_long too_many_tags tag_too_long :
      TaskFault
  store_full no_changes invalid_transition task_not_found assignee_not_found : TaskFault
  assignee_store_failed : TaskFault

-- The file `tasks.json`, with the list that its one field holds.
abbrev pub Store : Type 0
Store = Disk (List Task)

unfoldable pub load : Store → Result TaskFault (List Task)
load missing = ok []
load unreadable = err (host read_failed)
load corrupt = err (host corrupt_file)
load (stored tasks) = ok tasks

-- `StoreLock::acquire`, then `load`, as each writing operation begins.
unfoldable pub open_store : Host → Store → Result TaskFault (List Task)
open_store h d = do guard h.lock_ok (host lock_failed); load d

unfoldable pub save : Host → List Task → Result TaskFault Store
save h tasks = do guard h.save_ok (host write_failed); ok (stored tasks)

unfoldable pub validate_task_input : Text → Text → Text → List Text → Result TaskFault (Unit {0})
validate_task_input id title description tags = do
  guard (not (is_blank id)) empty_id
  guard (leb (byte_len id) max_task_id_len) id_too_long
  guard (not (is_blank title)) empty_title
  guard (leb (byte_len title) max_task_title_len) title_too_long
  guard (leb (byte_len description) max_task_description_len) description_too_long
  guard (leb (length tags) max_task_tags) too_many_tags
  guard (not (any (λ t. ltb max_task_tag_len (byte_len t)) tags)) tag_too_long

abbrev pub with_id : Text → Task → Bool
with_id id t = text_eq t.id id

abbrev pub new_task : Text → Text → Text → Text → TaskPriority → List Text → Task
new_task now id title description priority tags = record {
  id = id;
  title = title;
  description = description;
  status = todo;
  priority = priority;
  assignee = none;
  tags = tags;
  created_at = now;
  updated_at = now;
}

unfoldable pub create :
    Host → Text → Text → Text → TaskPriority → List Text → Store → Result TaskFault (Store × Task)
create h id title description priority tags d = do
  validate_task_input id title description tags
  tasks ← open_store h d
  guard (any (with_id id) tasks || ltb (length tasks) max_tasks) store_full
  d' ← save h (
      retain (λ t. not (with_id id t)) tasks
      ++ new_task h.now id title description priority tags ∷ [])
  ok (d', new_task h.now id title description priority tags)

-- `TaskStore::list`.
unfoldable pub list : Option TaskStatus → Store → Result TaskFault (List Task)
list none d = load d
list (some status) d = do tasks ← load d; ok (retain (λ t. status_eq t.status status) tasks)

unfoldable pub get : Text → Store → Result TaskFault (Option Task)
get id d = do tasks ← load d; ok (find (with_id id) tasks)

-- What the agent, session and worktree stores answer when they are asked for an id.
pub record Directory : Type 0 where
  pub session : Text → Result TaskFault Bool
  pub worktree : Text → Result TaskFault Bool
  pub agent : Text → Result TaskFault Bool

unfoldable pub validate_assignee : Directory → Text → Result TaskFault (Unit {0})
validate_assignee stores target = do
  found ←
      (if starts_with target (codes "sess-")
        then stores.session target
        else (if starts_with target (codes "wt-")
            then stores.worktree target
            else stores.agent target))
  guard found assignee_not_found

-- The check of an assignment that names a target; clearing the assignee needs none.
unfoldable pub check_assignee : Directory → Option (Option Text) → Result TaskFault (Unit {0})
check_assignee stores none = ok tt
check_assignee stores (some none) = ok tt
check_assignee stores (some (some target)) =
    if is_empty target then ok tt else validate_assignee stores target

abbrev pub set_or {ℓ} : {A : Type ℓ} → Option A → A → A
set_or none a = a
set_or (some b) a = b

-- The test of a requested status.
abbrev pub is_allowed : Option TaskStatus → TaskStatus → Bool
is_allowed none from = true
is_allowed (some to) from = status_eq from to || is_valid_task_transition from to

unfoldable pub update_task :
    Text
    → Option TaskStatus
    → Option TaskPriority
    → Option (Option Text)
    → Task
    → Result TaskFault Task
update_task now status priority assignee task = do
  guard (is_some status || is_some priority || is_some assignee) no_changes
  guard (is_allowed status task.status) invalid_transition
  ok (record task {
    status = set_or status task.status;
    priority = set_or priority task.priority;
    assignee = set_or assignee task.assignee;
    updated_at = now;
  })

-- The rest of `update`, with the tasks read and the task that was found.
unfoldable pub update_found :
    Host
    → Text
    → Option TaskStatus
    → Option TaskPriority
    → Option (Option Text)
    → List Task
    → Option Task
    → Store
    → Result TaskFault (Store × Option Task)
update_found h id status priority assignee tasks none d = ok (d, none)
update_found h id status priority assignee tasks (some task) d = do
  task' ← update_task h.now status priority assignee task
  d' ← save h (replace_first (with_id id) task' tasks)
  ok (d', some task')

unfoldable pub update :
    Directory
    → Host
    → Text
    → Option TaskStatus
    → Option TaskPriority
    → Option (Option Text)
    → Store
    → Result TaskFault (Store × Option Task)
update stores h id status priority assignee d = do
  check_assignee stores assignee
  tasks ← open_store h d
  update_found h id status priority assignee tasks (find (with_id id) tasks) d

unfoldable pub cancel : Host → Text → Store → Result TaskFault (Store × Task)
cancel h id d = do
  tasks ← open_store h d
  task ← or_err (find (with_id id) tasks) task_not_found
  guard (not (is_terminal task.status)) invalid_transition
  let task' = record task { status = cancelled; updated_at = h.now }
  d' ← save h (replace_first (with_id id) task' tasks)
  ok (d', task')

unfoldable pub delete : Host → Text → Store → Result TaskFault (Store × Bool)
delete h id d = do
  tasks ← open_store h d
  d' ← save h (retain (λ t. not (with_id id t)) tasks)
  ok (d', not (length tasks == length (retain (λ t. not (with_id id t)) tasks)))
