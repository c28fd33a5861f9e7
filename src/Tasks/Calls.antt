-- ===== src/Tasks/Calls.antt =====
-- core/tasks.rs: what the writing operations do to the store, each read back with `get`.
use agent_workspace_hub.Prelude.{
  Bool, true, false, not, ◌||◌, ◌≡◌, ◌⊎◌, inl, inr, refl, Option, none, some, is_some, List, [],
  ◌∷◌, ◌++◌, Text, ltb, length, ◌==◌, arith, any, find, retain, replace_first, ok, or_err, >>-eq-ok,
  >>=-eq-ok,
}
use agent_workspace_hub.Host.{stored, Host}
use agent_workspace_hub.Tasks.{
  Task, TaskStatus, cancelled, is_terminal, is_allowed, TaskPriority, Store, load, open_store, save,
  validate_task_input, with_id, new_task, max_tasks, create, get, Directory, check_assignee,
  update_task, update_found, update, cancel, delete, set_or, store_full, no_changes, task_not_found,
  invalid_transition,
}

pub open_store-eq-ok :
    (h : Host) (d : Store) (tasks : List Task) → open_store h d ≡ ok tasks → load d ≡ ok tasks
unfolding open_store
open_store-eq-ok h d tasks p = ground arith

save-eq-ok : (h : Host) (tasks : List Task) (d : Store) → save h tasks ≡ ok d → d ≡ stored tasks
unfolding save
save-eq-ok h tasks d p = ground arith

-- The list that a store holds, searched: `get` of a stored file, and of a loaded one.
pub get-load :
    (id : Text) (d : Store) (tasks : List Task)
    → load d ≡ ok tasks
    → get id d ≡ ok (find (with_id id) tasks)
unfolding get
get-load id d tasks l = rw l refl

pub get-stored :
    (id : Text) (tasks : List Task) → get id (stored tasks) ≡ ok (find (with_id id) tasks)
unfolding get load
get-stored id tasks = refl

-- What a creation that succeeds has read and written.
pub create-eq-ok :
    (h : Host) (id title description : Text) (priority : TaskPriority) (tags : List Text)
    (d d' : Store) (t : Task)
    → create h id title description priority tags d ≡ ok (d', t)
    → (tasks : List Task) × (load d ≡ ok tasks)
      × (t ≡ new_task h.now id title description priority tags)
      × (d' ≡ stored (retain (λ t. not (with_id id t)) tasks ++ t ∷ []))
      × ((any (with_id id) tasks || ltb (length tasks) max_tasks) ≡ true)
      × (validate_task_input id title description tags ≡ ok tt)
unfolding create
create-eq-ok h id title description priority tags d d' t p =
    let (tt, valid, p₁) = >>=-eq-ok (validate_task_input id title description tags) _ p in
    let (tasks, opened, p₂) = >>=-eq-ok (open_store h d) _ p₁ in
    let (room, p₃) =
      >>-eq-ok (any (with_id id) tasks || ltb (length tasks) max_tasks) store_full _ p₂ in
    let (d₁, saved, p₄) = >>=-eq-ok (save h _) _ p₃ in
    let written = save-eq-ok h _ d₁ saved in
    (tasks, open_store-eq-ok h d tasks opened, ground arith, ground arith, room, valid)

pub cancel-eq-ok :
    (h : Host) (id : Text) (d d' : Store) (t : Task)
    → cancel h id d ≡ ok (d', t)
    → (tasks : List Task) × (task : Task) × (load d ≡ ok tasks)
      × (find (with_id id) tasks ≡ some task)
      × (is_terminal task.status ≡ false)
      × (t ≡ record task { status = cancelled; updated_at = h.now })
      × (d' ≡ stored (replace_first (with_id id) t tasks))
unfolding cancel
cancel-eq-ok h id d d' t p =
    let (tasks, opened, p₁) = >>=-eq-ok (open_store h d) _ p in
    let (task, found, p₂) = >>=-eq-ok (or_err (find (with_id id) tasks) task_not_found) _ p₁ in
    let (live, p₃) = >>-eq-ok (not (is_terminal task.status)) invalid_transition _ p₂ in
    let (d₁, saved, p₄) = >>=-eq-ok (save h _) _ p₃ in
    let written = save-eq-ok h _ d₁ saved in
    (
      tasks,
      task,
      open_store-eq-ok h d tasks opened,
      ground arith,
      ground arith,
      ground arith,
      ground arith,
    )

pub update_found-eq-ok :
    (h : Host) (id : Text) (status : Option TaskStatus) (priority : Option TaskPriority)
    (assignee : Option (Option Text)) (tasks : List Task) (found : Option Task) (d d' : Store)
    (out : Option Task)
    → update_found h id status priority assignee tasks found d ≡ ok (d', out)
    → ((found ≡ none) × (d' ≡ d) × (out ≡ none))
      ⊎ ((task : Task) × (task' : Task) × (found ≡ some task)
          × (update_task h.now status priority assignee task ≡ ok task')
          × (out ≡ some task')
          × (d' ≡ stored (replace_first (with_id id) task' tasks)))
unfolding update_found
update_found-eq-ok h id status priority assignee tasks none d d' out p =
    inl (refl, ground arith, ground arith)
update_found-eq-ok h id status priority assignee tasks (some task) d d' out p =
    let (task', changed, p₁) = >>=-eq-ok (update_task h.now status priority assignee task) _ p in
    let (d₁, saved, p₂) = >>=-eq-ok (save h _) _ p₁ in
    let written = save-eq-ok h _ d₁ saved in
    inr (task, task', refl, changed, ground arith, ground arith)

pub update_task-eq-ok :
    (now : Text) (status : Option TaskStatus) (priority : Option TaskPriority)
    (assignee : Option (Option Text)) (task task' : Task)
    → update_task now status priority assignee task ≡ ok task'
    → (is_allowed status task.status ≡ true)
      × (task' ≡ record task {
        status = set_or status task.status;
        priority = set_or priority task.priority;
        assignee = set_or assignee task.assignee;
        updated_at = now;
      })
unfolding update_task
update_task-eq-ok now status priority assignee task task' p =
    let (named, p₁) =
      >>-eq-ok (is_some status || is_some priority || is_some assignee) no_changes _ p in
    let (allowed, p₂) = >>-eq-ok (is_allowed status task.status) invalid_transition _ p₁ in
    (allowed, ground arith)

pub update-eq-ok :
    (stores : Directory) (h : Host) (id : Text) (status : Option TaskStatus)
    (priority : Option TaskPriority) (assignee : Option (Option Text)) (d d' : Store)
    (out : Option Task)
    → update stores h id status priority assignee d ≡ ok (d', out)
    → (tasks : List Task) × (load d ≡ ok tasks)
      × (check_assignee stores assignee ≡ ok tt)
      × (update_found h id status priority assignee tasks (find (with_id id) tasks) d
          ≡ ok (d', out))
unfolding update
update-eq-ok stores h id status priority assignee d d' out p =
    let (tt, checked, p₁) = >>=-eq-ok (check_assignee stores assignee) _ p in
    let (tasks, opened, p₂) = >>=-eq-ok (open_store h d) _ p₁ in
    (tasks, open_store-eq-ok h d tasks opened, checked, p₂)

pub delete-eq-ok :
    (h : Host) (id : Text) (d d' : Store) (existed : Bool)
    → delete h id d ≡ ok (d', existed)
    → (tasks : List Task) × (load d ≡ ok tasks)
      × (d' ≡ stored (retain (λ t. not (with_id id t)) tasks))
      × (existed ≡ not (length tasks == length (retain (λ t. not (with_id id t)) tasks)))
unfolding delete
delete-eq-ok h id d d' existed p =
    let (tasks, opened, p₁) = >>=-eq-ok (open_store h d) _ p in
    let (d₁, saved, p₂) = >>=-eq-ok (save h _) _ p₁ in
    let written = save-eq-ok h _ d₁ saved in
    (tasks, open_store-eq-ok h d tasks opened, ground arith, ground arith)
