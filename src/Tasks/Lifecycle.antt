-- ===== src/Tasks/Lifecycle.antt =====
-- core/tasks.rs: the life of one task, as `get` reads it after each writing operation.
use agent_workspace_hub.Prelude.{
  ◌∙◌, ap, Bool, true, false, not, ◌≡◌, ◌⊎◌, inl, inr, refl, Option, none, some, is_some, List, [],
  ◌∷◌, ◌++◌, Text, text_eq, text_eq_iff, if◌then◌else◌, find, retain, replace_first, retain_shorter,
  find-put_key, find-remove_key, find-holds, find-replace_first, find-replace_first_other, ok,
  Bool-cases,
}
use agent_workspace_hub.Host.{Host}
use agent_workspace_hub.Tasks.{
  new_task, Task, TaskStatus, todo, cancelled, is_terminal, is_allowed, TaskPriority, Store, load,
  with_id, create, get, Directory, update, cancel, delete, set_or,
}
use agent_workspace_hub.Tasks.Calls.{
  get-load, get-stored, create-eq-ok, cancel-eq-ok, update_found-eq-ok, update_task-eq-ok,
  update-eq-ok, delete-eq-ok,
}

-- What `get` finds in a store is what a search of its list finds.
read_as :
    (id : Text) (d : Store) (tasks : List Task) {found : Option Task}
    → load d ≡ ok tasks
    → get id d ≡ ok found
    → find (with_id id) tasks ≡ found
read_as id d tasks l g = let old = get-load id d tasks l in cc

find-created :
    (id other : Text) (t : Task) (tasks : List Task)
    → t.id ≡ id
    → find (with_id other) (retain (λ t. not (with_id id t)) tasks ++ t ∷ [])
      ≡ (if text_eq id other then some t else find (with_id other) tasks)
find-created id other t tasks named = rw (← named) (find-put_key (λ t. t.id) t other tasks)

-- A creation that succeeds returns the task with the given fields and the time of the call, in the
-- state Todo and with no assignee, whatever task had the id before, even one that was done or
-- cancelled. `get` then finds that task under its id, and under every other id what it found before.
pub get-create :
    (h : Host) (id title description : Text) (priority : TaskPriority) (tags : List Text)
    (d d' : Store) (t : Task) (other : Text) {before : Option Task}
    → create h id title description priority tags d ≡ ok (d', t)
    → get other d ≡ ok before
    → (t ≡ new_task h.now id title description priority tags)
      × (t.status ≡ todo)
      × (get other d' ≡ ok (if text_eq id other then some t else before))
get-create h id title description priority tags d d' t other {before} p g =
    let (tasks, l, made, written, _, _) =
      create-eq-ok h id title description priority tags d d' t p in
    (
      made,
      ap (λ t. t.status) made,
      rw (written, ← read_as other d tasks l g)
          (get-stored other _ ∙ ap ok (find-created id other t tasks (ap (λ t. t.id) made))),
    )

-- A deletion that succeeds answers whether a task had the id; `get` then finds nothing under it,
-- and under every other id what it found before.
pub get-delete :
    (h : Host) (id : Text) (d d' : Store) (existed : Bool) (other : Text) {at before : Option Task}
    → delete h id d ≡ ok (d', existed)
    → get id d ≡ ok at
    → get other d ≡ ok before
    → (existed ≡ is_some at) × (get other d' ≡ ok (if text_eq id other then none else before))
get-delete h id d d' existed other {at} {before} p g g' =
    let (tasks, l, written, answer) = delete-eq-ok h id d d' existed p in
    (
      answer ∙ retain_shorter (with_id id) tasks ∙ ap is_some (read_as id d tasks l g),
      rw (written, ← read_as other d tasks l g')
          (get-stored other _ ∙ ap ok (find-remove_key (λ t. t.id) id other tasks)),
    )

-- A task in a list, replaced by one of the same id.
find-changed :
    (id other : Text) (task task' : Task) (tasks : List Task)
    → find (with_id id) tasks ≡ some task
    → task'.id ≡ task.id
    → find (with_id other) (replace_first (with_id id) task' tasks)
      ≡ (if text_eq id other then some task' else find (with_id other) tasks)
find-changed id other task task' tasks found same =
    let named = (text_eq_iff task.id id).0 (find-holds (with_id id) tasks found) in
    let named' = same ∙ named in
    elim (Bool-cases (text_eq id other)) [
      | inl e ↦
          let equal = (text_eq_iff id other).0 e in
          rw (e, ← equal)
            (find-replace_first (with_id id) task' tasks ((text_eq_iff task'.id id).1 named')
              (rw found refl))
      | inr e ↦ rw e (
          find-replace_first_other (with_id id) (with_id other) task' tasks found (rw named e)
            (rw named' e))
    ]

-- A cancellation that succeeds found a live task under the id, and returns it with the state
-- Cancelled and the time of the call, and nothing else changed. `get` then finds that under the
-- id, and under every other id what it found before.
pub get-cancel :
    (h : Host) (id : Text) (d d' : Store) (t : Task) (other : Text) {before : Option Task}
    → cancel h id d ≡ ok (d', t)
    → get other d ≡ ok before
    → (task : Task) × (get id d ≡ ok (some task))
      × (is_terminal task.status ≡ false)
      × (t ≡ record task { status = cancelled; updated_at = h.now })
      × (get other d' ≡ ok (if text_eq id other then some t else before))
get-cancel h id d d' t other {before} p g =
    let (tasks, task, l, found, live, made, written) = cancel-eq-ok h id d d' t p in
    (
      task,
      get-load id d tasks l ∙ ap ok found,
      live,
      made,
      rw (written, ← read_as other d tasks l g)
          (get-stored other _
            ∙ ap ok (find-changed id other task t tasks found (ap (λ t. t.id) made))),
    )

-- An update that succeeds found no task under the id, answers so and leaves the store alone; or it
-- found one whose state is the requested one, or is not terminal, or no state was requested. It
-- then returns the task with the requested fields set, and the time of the call: `get` finds that
-- under the id, and under every other id what it found before.
pub get-update :
    (stores : Directory) (h : Host) (id : Text) (status : Option TaskStatus)
    (priority : Option TaskPriority) (assignee : Option (Option Text)) (d d' : Store)
    (out : Option Task) (other : Text) {before : Option Task}
    → update stores h id status priority assignee d ≡ ok (d', out)
    → get other d ≡ ok before
    → ((get id d ≡ ok none) × (out ≡ none) × (d' ≡ d))
      ⊎ ((task : Task) × (task' : Task) × (get id d ≡ ok (some task))
          × (is_allowed status task.status ≡ true)
          × (task' ≡ record task {
            status = set_or status task.status;
            priority = set_or priority task.priority;
            assignee = set_or assignee task.assignee;
            updated_at = h.now;
          })
          × (out ≡ some task')
          × (get other d' ≡ ok (if text_eq id other then some task' else before)))
get-update stores h id status priority assignee d d' out other {before} p g =
    let (tasks, l, _, q) = update-eq-ok stores h id status priority assignee d d' out p in
    elim (update_found-eq-ok h id status priority assignee tasks _ d d' out q) [
      | inl (absent, same, answer) ↦ inl (get-load id d tasks l ∙ ap ok absent, answer, same)
      | inr (task, task', found, changed, answer, written) ↦
          let (allowed, made) =
            update_task-eq-ok h.now status priority assignee task task' changed in
          inr (
            task,
            task',
            get-load id d tasks l ∙ ap ok found,
            allowed,
            made,
            answer,
            rw (written, ← read_as other d tasks l g)
                (get-stored other _
                  ∙ ap ok (find-changed id other task task' tasks found (ap (λ t. t.id) made))),
          )
    ]
