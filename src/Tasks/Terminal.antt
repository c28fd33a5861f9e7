-- ===== src/Tasks/Terminal.antt =====
-- core/tasks.rs: callers that make one call after another on the store, and terminal tasks.
use agent_workspace_hub.Prelude.{
  ◌∙◌, sym, ap, Bool, true, false, not, ◌≡◌, inl, inr, refl, Option, none, some, List, [], ◌∷◌,
  Text, text_eq, text_eq_iff, arith, all, find, Bool-cases, Result, ok, err, Result-cases,
}
use agent_workspace_hub.Host.{Host}
use agent_workspace_hub.Tasks.{
  Task, TaskStatus, is_terminal, is_allowed, status_eq, status_code, todo, in_progress, blocked,
  done, cancelled, TaskPriority, TaskFault, Store, get, Directory, set_or, load, with_id,
}
use agent_workspace_hub.Tasks
use agent_workspace_hub.Tasks.Lifecycle.{get-create, get-delete, get-cancel, get-update}

-- The operations that write, with their arguments.
pub data Call : Type 0 where
  create : Text → Text → Text → TaskPriority → List Text → Call
  update : Text → Option TaskStatus → Option TaskPriority → Option (Option Text) → Call
  cancel : Text → Call
  delete : Text → Call

-- One call, with what the host and the other stores answer during it.
pub record Request : Type 0 where
  pub host : Host
  pub stores : Directory
  pub call : Call

-- The file after a call: a call that fails has written nothing.
abbrev pub after {ℓ} : {A : Type ℓ} → Store → Result TaskFault (Store × A) → Store
after d (ok (d', a)) = d'
after d (err e) = d

unfoldable pub perform : Host → Directory → Call → Store → Store
perform h stores (create id title description priority tags) d =
    after d (Tasks.create h id title description priority tags d)
perform h stores (update id status priority assignee) d =
    after d (Tasks.update stores h id status priority assignee d)
perform h stores (cancel id) d = after d (Tasks.cancel h id d)
perform h stores (delete id) d = after d (Tasks.delete h id d)

unfoldable pub run : List Request → Store → Store
run [] d = d
run (q ∷ qs) d = run qs (perform q.host q.stores q.call d)

-- Whether a call neither creates nor deletes a task under an id.
unfoldable pub spares : Text → Call → Bool
spares id (create id' title description priority tags) = not (text_eq id' id)
spares id (update id' status priority assignee) = true
spares id (cancel id') = true
spares id (delete id') = not (text_eq id' id)

-- The task that `get` finds under an id has a given state.
abbrev pub HasStatus : Text → TaskStatus → Store → Type 0
HasStatus id status d = (t : Task) × (get id d ≡ ok (some t)) × (t.status ≡ status)

-- A terminal state allows itself alone.
status_eq-true : (a b : TaskStatus) → status_eq a b ≡ true → a ≡ b
status_eq-true todo b e = ground arith
status_eq-true in_progress b e = ground arith
status_eq-true blocked b e = ground arith
status_eq-true done b e = ground arith
status_eq-true cancelled b e = ground arith

terminal-set_or :
    (wanted : Option TaskStatus) (from : TaskStatus)
    → is_terminal from ≡ true
    → is_allowed wanted from ≡ true
    → set_or wanted from ≡ from
terminal-set_or none from terminal allowed = refl
terminal-set_or (some to) from terminal allowed = sym (status_eq-true from to (ground arith))

not-true : (b : Bool) → not b ≡ true → b ≡ false
not-true false h = refl
not-true true h = sym h

-- Two searches under one id find one task.
same_task :
    (id' id : Text) (d : Store) (task t : Task)
    → text_eq id' id ≡ true
    → get id' d ≡ ok (some task)
    → get id d ≡ ok (some t)
    → task ≡ t
same_task id' id d task t e g' g =
    let equal = (text_eq_iff id' id).0 e in let g'' = rw equal at g' in ground arith

get-total :
    (id' id : Text) (d : Store) {a : Option Task}
    → get id d ≡ ok a
    → (b : Option Task) × (get id' d ≡ ok b)
unfolding get
get-total id' id d g = elim (Result-cases (load d)) [
  | inl (tasks, e) ↦ (find (with_id id') tasks, rw e refl)
  | inr (x, e) ↦ absurd (ground arith)
]

perform-HasStatus :
    (h : Host) (stores : Directory) (call : Call) (id : Text) (status : TaskStatus) (d : Store)
    → is_terminal status ≡ true
    → spares id call ≡ true
    → HasStatus id status d
    → HasStatus id status (perform h stores call d)
unfolding perform spares
perform-HasStatus h stores (create id' title description priority tags) id status d terminal spared
      (t, g, s) =
    elim (Result-cases (Tasks.create h id' title description priority tags d)) [
      | inr (x, e) ↦ rw e (t, g, s)
      | inl ((d', made), e) ↦
          let (_, _, now) = get-create h id' title description priority tags d d' made id e g in
          rw e (t, now ∙ ap ok (rw (not-true (text_eq id' id) spared) refl), s)
    ]
perform-HasStatus h stores (update id' wanted priority assignee) id status d terminal spared
      (t, g, s) =
    elim (Result-cases (Tasks.update stores h id' wanted priority assignee d)) [
      | inr (x, e) ↦ rw e (t, g, s)
      | inl ((d', out), e) ↦
          elim (get-update stores h id' wanted priority assignee d d' out id e g) [
            | inl (_, _, same) ↦ rw (e, same) (t, g, s)
            | inr (task, task', g', allowed, made, _, now) ↦ elim (Bool-cases (text_eq id' id)) [
              | inl same ↦
                  let found = same_task id' id d task t same g' g in
                  let from = ap (λ t. t.status) found ∙ s in
                  rw e (
                    task',
                    now ∙ ap ok (rw same refl),
                    ap (λ t. t.status) made
                        ∙ terminal-set_or wanted task.status (rw from terminal) allowed
                        ∙ from,
                  )
              | inr apart ↦ rw e (t, now ∙ ap ok (rw apart refl), s)
            ]
          ]
    ]
perform-HasStatus h stores (cancel id') id status d terminal spared (t, g, s) =
    elim (Result-cases (Tasks.cancel h id' d)) [
      | inr (x, e) ↦ rw e (t, g, s)
      | inl ((d', made), e) ↦
          let (task, g', live, _, now) = get-cancel h id' d d' made id e g in
          elim (Bool-cases (text_eq id' id)) [
            | inl same ↦
                let from = ap (λ t. t.status) (same_task id' id d task t same g' g) ∙ s in
                absurd (ground arith)
            | inr apart ↦ rw e (t, now ∙ ap ok (rw apart refl), s)
          ]
    ]
perform-HasStatus h stores (delete id') id status d terminal spared (t, g, s) =
    elim (Result-cases (Tasks.delete h id' d)) [
      | inr (x, e) ↦ rw e (t, g, s)
      | inl ((d', existed), e) ↦
          let (_, g') = get-total id' id d g in
          let (_, now) = get-delete h id' d d' existed id e g' g in
          rw e (t, now ∙ ap ok (rw (not-true (text_eq id' id) spared) refl), s)
    ]

-- Terminal means terminal: once a task is done or cancelled, then whatever updates, cancellations,
-- creations and deletions callers make, as long as none creates or deletes a task under its id,
-- `get` still finds a task under the id, and in the same state.
pub terminal_stays :
    (qs : List Request) (id : Text) (status : TaskStatus) (d : Store)
    → is_terminal status ≡ true
    → all (λ q. spares id q.call) qs ≡ true
    → HasStatus id status d
    → HasStatus id status (run qs d)
unfolding run all
terminal_stays [] id status d terminal spared found = found
terminal_stays (q ∷ qs) id status d terminal spared found =
    terminal_stays qs id status (perform q.host q.stores q.call d) terminal (ground arith)
      (perform-HasStatus q.host q.stores q.call id status d terminal (ground arith) found)
