-- ===== src/Operations/Lifecycle.antt =====
-- nc/operations.py: `retry_blocked_tasks`, `requeue_task` and `rollback_task`. The git calls are
-- arguments that return or raise, and so is what other processes commit between the first look at the
-- task and the lock of its repository, which is free.
pub mod Retried
pub mod Again
pub mod Reverts
use neocortex.Session.{read}
use neocortex.State.Tasks.{task_id}
use neocortex.Operations.Ownership.{truthy}
use neocortex.Scheduler.Handlers.{say, worker_id}
use neocortex.State.Rows.{insert_incident, or_else, update_agent, update_messages, update_task}
use neocortex.State.Query.{is_open, opt_eq, project_by_id, status_eq, task_by_id, task_is}
use neocortex.State.Incidents.{new_incident, incident}
use neocortex.State.Exec.{
  Result, lift, raise_if, or_raise, raise, pure, ◌>>=◌, ◌>>◌, Exec, active_run, already_accepted,
  bad_requeue_budget, gets, modify, no_merge_commit, not_accepted, now, transaction, unconfirmed,
  unknown_project, unknown_task, when,
}
use neocortex.Prelude.{
  Bool, List, Option, String, [], any, false, if◌then◌else◌, keep, map, none, some, str_eq,
  text_append, true, update, ℕ, ◌&&◌, ◌==◌, ◌∷◌,
}
use neocortex.State.Tables.{Incident, AgentState, Db, Project, Task, TaskStatus}

abbrev pub is_blocked_task : Task → Bool
is_blocked_task t = status_eq t.status TaskStatus.blocked

-- `WHERE id=? AND status='blocked'`
abbrev pub is_blocked_row : String → Task → Bool
is_blocked_row tid t = task_is tid t && is_blocked_task t

-- The two updates of `retry_blocked_tasks` for one task.
abbrev pub retry_task : ℕ → String → Db → Db
retry_task at tid db =
    update_agent (worker_id tid) (λ a. record a { state = AgentState.runnable; updated_at = at })
      (record db {
        tasks =
            update (is_blocked_row tid)
              (λ t. record t { status = TaskStatus.in_progress; attempts = 0; updated_at = at })
              db.tasks;
      })

-- The loop over the rows: a task that changes is retried, and its id is given.
unfoldable pub retry_each : ℕ → List Task → Exec (List String)
retry_each at [] = pure []
retry_each at (t ∷ ts) = do
  changes ← gets (λ db. any (is_blocked_row t.id) db.tasks)
  when changes (modify (retry_task at t.id))
  ids ← retry_each at ts
  pure (if changes then t.id ∷ ids else ids)

abbrev pub blocked_tasks : Db → List Task
blocked_tasks db = keep is_blocked_task db.tasks

unfoldable pub retry_blocked_tasks : Exec (List String)
retry_blocked_tasks = transaction (do rows ← gets blocked_tasks; at ← now; retry_each at rows)

abbrev pub any_open_run : Db → Bool
any_open_run db = any is_open db.runs.rows

-- The checks of `requeue_task` on the row of the task.
unfoldable pub requeueable_row : String → Option Task → Exec Task
requeueable_row tid none = raise (unknown_task tid)
requeueable_row tid (some t) = do
  raise_if (status_eq t.status TaskStatus.done) already_accepted
  running ← gets any_open_run
  raise_if running active_run
  pure t

unfoldable pub requeueable : String → Exec Task
unfolding requeueable_row
requeueable tid = do row ← gets (task_by_id tid); requeueable_row tid row

unfoldable pub project_of : String → Exec Project
project_of pid = do row ← gets (project_by_id pid); or_raise row (unknown_project pid)

-- The three writes of a requeue.
unfoldable pub requeue_writes : String → Task → Option ℕ → Option String → ℕ → Db → Db
requeue_writes tid task budget reason at db =
    update_task tid
      (λ t. record t {
        status = TaskStatus.queued;
        attempts = 0;
        result = some (or_else (truthy reason) "requeued by the owner");
        budget_turns = or_else budget task.budget_turns;
        updated_at = at;
      })
      (update_messages (λ m. opt_eq m.task_id tid && str_eq m.recipient "owner")
        (λ m. record m { delivered = true })
        (record db {
          agents =
              update (λ a. opt_eq a.task_id tid)
                (λ a. record a { state = AgentState.blocked; turns = 0 }) db.agents;
        }))

abbrev pub bad_budget_of : Option ℕ → Bool
bad_budget_of none = false
bad_budget_of (some n) = n == 0

-- The given confirmation is the current one.
abbrev pub confirms : Option String → String → Bool
confirms given current = elim (truthy given) [ none ↦ false | some s ↦ str_eq s current ]

-- With the merge commit, which is not the empty text.
unfoldable pub revertible_row : String → Option Task → Exec (Task × String)
revertible_row tid none = raise no_merge_commit
revertible_row tid (some t) = elim (truthy t.merge_commit) [
  | none ↦ raise no_merge_commit
  | some commit ↦ pure (t, commit)
]

unfoldable pub revertible : String → Exec (Task × String)
unfolding revertible_row
revertible tid = do row ← gets (task_by_id tid); revertible_row tid row

abbrev pub rollback_writes : String → String → ℕ → Db → Db
rollback_writes tid commit at = update_task tid (λ t. record t {
  status = TaskStatus.blocked;
  result = some (text_append "reverted by the owner in " commit);
  updated_at = at;
})

-- The text of this incident is not cut.
abbrev pub rollback_incident : String → ℕ → ℕ → Incident
rollback_incident detail at n = record (new_incident "rollback" "" at n) { detail = detail }

-- `_discard_preview(...)["token"]`, the git calls of a fresh requeue, `arbiter.revert` and the error of
-- `arbiter.mirror`.
module _ (token : Task → String) (discard : Task → Result (Unit {0}))
    (revert : Project → String → Result String) (mirror_error : Project → Option String)
    (meanwhile : Db → Db) where
  -- With the lock of the repository, on the task as it is read again.
  unfoldable pub requeue_read :
      String → Bool → Option ℕ → Option String → Option String → Task → Exec (Unit {0})
  unfolding requeue_writes
  requeue_read tid fresh budget reason expected task = do
    raise_if (fresh && (if confirms expected (token task) then false else true)) unconfirmed
    transaction (do
      when fresh (lift (discard task))
      at ← now
      modify (requeue_writes tid task budget reason at))

  unfoldable pub requeue_locked :
      String → Bool → Option ℕ → Option String → Option String → Exec (Unit {0})
  unfolding requeueable requeue_read
  requeue_locked tid fresh budget reason expected = do
    task ← requeueable tid
    requeue_read tid fresh budget reason expected task

  -- On the row of the first look.
  unfoldable pub requeue_found :
      String → Bool → Option ℕ → Option String → Option String → Task → Exec (Unit {0})
  unfolding requeue_locked project_of
  requeue_found tid fresh budget reason expected first = do
    project ← project_of first.project_id
    modify meanwhile
    requeue_locked tid fresh budget reason expected

  unfoldable pub requeue_task :
      String → Bool → Option ℕ → Option String → Option String → Exec (Unit {0})
  unfolding requeueable requeue_found
  requeue_task tid fresh budget reason expected = do
    raise_if (bad_budget_of budget) bad_requeue_budget
    first ← requeueable tid
    requeue_found tid fresh budget reason expected first

  -- With the lock of the repository, on the task as it is read again and its merge commit. The result
  -- is the commit of the revert.
  unfoldable pub rollback_read : Project → String → Option String → Task × String → Exec String
  rollback_read project tid expected (task, old) = do
    raise_if (if status_eq task.status TaskStatus.done then false else true) not_accepted
    running ← gets any_open_run
    raise_if running active_run
    transaction (do
      raise_if (if confirms expected old then false else true) unconfirmed
      commit ← lift (revert project old)
      at ← now
      modify (rollback_writes tid commit at)
      noted ← now
      modify (insert_incident (rollback_incident (say (tid ∷ " reverted in " ∷ commit ∷ [])) noted))
      pure commit)

  unfoldable pub rollback_locked : Project → String → Option String → Exec String
  unfolding revertible rollback_read
  rollback_locked project tid expected = do
    row ← revertible tid
    rollback_read project tid expected row

  -- An error of the mirror is an incident.
  unfoldable pub report_mirror : Project → String → Exec (Unit {0})
  unfolding incident
  report_mirror project tid = elim (truthy (mirror_error project)) [
    | none ↦ pure tt
    | some text ↦ (do _ ← incident "mirror_push" (say (tid ∷ ": " ∷ text ∷ [])); pure tt)
  ]

  -- The mirror comes after the revert.
  unfoldable pub rollback_and_mirror : Project → String → Option String → Exec String
  unfolding rollback_locked report_mirror
  rollback_and_mirror project tid expected = do
    commit ← rollback_locked project tid expected
    report_mirror project tid
    pure commit

  -- On the row of the first look.
  unfoldable pub rollback_found : String → Option String → Task × String → Exec String
  unfolding rollback_and_mirror project_of
  rollback_found tid expected (first, old) = do
    running ← gets any_open_run
    raise_if running active_run
    project ← project_of first.project_id
    raise_if (if status_eq first.status TaskStatus.done then false else true) not_accepted
    modify meanwhile
    rollback_and_mirror project tid expected

  unfoldable pub rollback_task : String → Option String → Exec String
  unfolding revertible rollback_found
  rollback_task tid expected = do row ← revertible tid; rollback_found tid expected row
