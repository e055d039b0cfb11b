-- ===== src/Scheduler/Step.antt =====
-- nc/scheduler.py: `_step_locked`, one step under the lifecycle lock. The turns of planners and plan
-- critics, the preflight and the task's turn are arguments; so is what other processes commit between
-- the selection and the lock of the repository. The locks are free: a busy one ends `step` as idle.
use neocortex.State.Tasks.{task_id}
use neocortex.Json.{specs_eq}
use neocortex.Session.{read}
use neocortex.Scheduler.Pick.{pick}
use neocortex.State.Query.{
  agent_by_id, is_open, is_pending, is_planner, is_retryable, is_runnable, project_by_id,
  task_by_id,
}
use neocortex.Scheduler.Turn.{StepResult, count_outcome, outcome_of}
use neocortex.Protocol.{Outcome}
use neocortex.State.Exec.{◌>>=◌, ◌>>◌, Exec, gets, modify, or_raise, pure, type_error}
use neocortex.Config.{Config}
use neocortex.Prelude.{
  is_some, Bool, Option, String, any, false, find, if◌then◌else◌, none, some, true, ◌&&◌, ◌==◌,
}
use neocortex.State.Tables.{Agent, Db, Project, Proposal, Role, Task, TaskStatus}
pub mod Reread

-- The review of exactly this text is done, failed or under way.
abbrev pub is_reviewed : Db → Proposal → Bool
is_reviewed db p =
    any
      (λ r.
        r.proposal_id == p.id
        && specs_eq r.spec p.spec
        && (if is_retryable r.status then false else true))
      db.plan_reviews.rows

-- The first pending proposal that wants a review.
unfoldable pub unreviewed_proposal : Db → Option Proposal
unreviewed_proposal db =
    find (λ p. is_pending p.status && (if is_reviewed db p then false else true)) db.proposals.rows

abbrev pub may_continue : TaskStatus → Bool
may_continue TaskStatus.in_progress = true
may_continue TaskStatus.in_review = true
may_continue TaskStatus.blocked = true
may_continue _ = false

-- The agent and its task as they are read again.
unfoldable pub is_eligible : Agent → Agent → Task → Db → Bool
is_eligible picked current latest db =
    is_runnable current.state
    && may_continue latest.status
    && current.updated_at == picked.updated_at
    && (if any is_open db.runs.rows then false else true)

abbrev pub task_of : Agent → Db → Option Task
task_of a db = elim a.task_id [ none ↦ none | some tid ↦ task_by_id tid db ]

module _ (preflight : Role → Exec (Option StepResult)) (critic_turn : Proposal → Exec Outcome)
    (planner_turn : Agent → Exec Outcome) (run_task : Agent → Task → Project → Exec StepResult)
    (meanwhile : Db → Db) where
  -- Advice on a plan never counts against the breaker.
  unfoldable pub review_plan : Proposal → Exec StepResult
  review_plan p = do
    refused ← preflight Role.plan_critic
    elim refused [
      | some r ↦ pure r
      | none ↦ (do
        o ← critic_turn p
        pure (if o.host_deferred then StepResult.deferred else outcome_of o.kind))
    ]

  unfoldable pub plan : Agent → Exec StepResult
  plan a = do
    refused ← preflight Role.planner
    elim refused [
      | some r ↦ pure r
      | none ↦ (do
        o ← planner_turn a
        if o.host_deferred
            then pure StepResult.deferred
            else (do count_outcome o.kind; pure (outcome_of o.kind)))
    ]

  -- On the agent's row as it is read again.
  unfoldable pub reread_row : Agent → String → Project → Option Agent → Exec StepResult
  reread_row a tid project none = pure StepResult.idle
  reread_row a tid project (some c) =
      if is_runnable c.state
      then (do
        row ← gets (task_by_id tid)
        latest ← or_raise row type_error
        eligible ← gets (is_eligible a c latest)
        if eligible then run_task c latest project else pure StepResult.idle)
      else pure StepResult.idle

  -- With the lock of the repository: selection was a hint, so the rows are read again.
  unfoldable pub reread : Agent → String → Project → Exec StepResult
  unfolding reread_row
  reread a tid project = do current ← gets (agent_by_id a.id); reread_row a tid project current

  unfoldable pub work : Agent → Exec StepResult
  unfolding reread
  work a = do
    row ← gets (task_of a)
    found ← gets (project_by_id a.project_id)
    project ← or_raise found type_error
    modify meanwhile
    task ← or_raise row type_error
    reread a task.id project

  unfoldable pub step_agent : Option Agent → Exec StepResult
  unfolding work plan
  step_agent none = pure StepResult.idle
  step_agent (some a) =
      if is_planner a.role && (if is_some a.task_id then false else true) then plan a else work a

  abbrev pub spare_time : Option Agent → Bool
  spare_time none = true
  spare_time (some a) = is_planner a.role

  unfoldable pub step_locked : Config → Exec StepResult
  unfolding pick unreviewed_proposal review_plan step_agent
  step_locked cfg = do
    picked ← pick cfg
    proposal ← gets unreviewed_proposal
    elim proposal [
      | some p ↦ if spare_time picked then review_plan p else step_agent picked
      | none ↦ step_agent picked
    ]
