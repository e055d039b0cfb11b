-- ===== src/Scheduler/Step/Reread.antt =====
-- nc/scheduler.py: `_step_locked` from the lock of the repository on.
use neocortex.Scheduler.Turn.{StepResult}
use neocortex.Protocol.{Outcome}
use neocortex.State.Exec.{Exec, World, ok}
use neocortex.State.Query.{agent_by_id, is_runnable, project_by_id, task_by_id, is_open, status_eq}
use neocortex.Scheduler.Step.{reread_row, reread, task_of, work, is_eligible}
use neocortex.Prelude.{
  none, Bool-cases, Option, String, arith, inl, inr, refl, some, Bool, any, false, true, ◌||◌, ◌≡◌,
}
use neocortex.State.Tables.{Project, Proposal, Role, Agent, Db, Task, TaskStatus}

abbrev pub must_not_run : Task → Db → Bool
must_not_run latest db = status_eq latest.status TaskStatus.cancelled || any is_open db.runs.rows

not_eligible :
    (a c : Agent) (t : Task) (db : Db) (s : TaskStatus)
    → t.status ≡ s
    → must_not_run t db ≡ true
    → is_eligible a c t db ≡ false
unfolding is_eligible
not_eligible a c t db TaskStatus.queued e h = ground arith
not_eligible a c t db TaskStatus.in_progress e h = ground arith
not_eligible a c t db TaskStatus.in_review e h = ground arith
not_eligible a c t db TaskStatus.done e h = ground arith
not_eligible a c t db TaskStatus.failed e h = ground arith
not_eligible a c t db TaskStatus.blocked e h = ground arith
not_eligible a c t db TaskStatus.cancelled e h = ground arith

module _ (preflight : Role → Exec (Option StepResult)) (critic_turn : Proposal → Exec Outcome)
    (planner_turn : Agent → Exec Outcome) (run_task : Agent → Task → Project → Exec StepResult)
    (meanwhile : Db → Db) where
  reread_row-idle :
      (a : Agent) (tid : String) (project : Project) (o : Option Agent) (w : World) (latest : Task)
      → task_by_id tid w.db ≡ some latest
      → must_not_run latest w.db ≡ true
      → reread_row preflight critic_turn planner_turn run_task meanwhile a tid project o w
        ≡ (ok StepResult.idle, w)
  unfolding reread_row
  reread_row-idle a tid project none w latest found h = refl
  reread_row-idle a tid project (some c) w latest found h =
      elim (Bool-cases (is_runnable c.state)) [
        | inl runs ↦
            rw runs (rw found (rw (not_eligible a c latest w.db latest.status refl h) refl))
        | inr rests ↦ rw rests refl
      ]

  reread_idle :
      (a : Agent) (tid : String) (project : Project) (w : World) (latest : Task)
      → task_by_id tid w.db ≡ some latest
      → must_not_run latest w.db ≡ true
      → reread preflight critic_turn planner_turn run_task meanwhile a tid project w
        ≡ (ok StepResult.idle, w)
  unfolding reread
  reread_idle a tid project w latest found h =
      reread_row-idle a tid project (agent_by_id a.id w.db) w latest found h

  -- Whatever other processes commit between the selection and the lock of the repository: if then the
  -- task of the agent that was picked is cancelled, or a run is open, the step is idle. The task's turn
  -- is not taken, and only what the others wrote has changed.
  pub raced_task_never_runs :
      (a : Agent) (t latest : Task) (p : Project) (w : World)
      → task_of a w.db ≡ some t
      → project_by_id a.project_id w.db ≡ some p
      → task_by_id t.id (meanwhile w.db) ≡ some latest
      → must_not_run latest (meanwhile w.db) ≡ true
      → work preflight critic_turn planner_turn run_task meanwhile a w
        ≡ (ok StepResult.idle, record w { db = meanwhile w.db })
  unfolding work
  raced_task_never_runs a t latest p w on known found h =
      rw known (rw on (reread_idle a t.id p (record w { db = meanwhile w.db }) latest found h))
