-- ===== src/Examples/TurnRuns.antt =====
-- Inputs of the theorems on turns, on picking work and on the loop.
use neocortex.Json.{Json, dict, end, field, str}
use neocortex.Scheduler.Escalate.Timeouts.{escalation_once, timeouts}
use neocortex.Scheduler.Escalate.{escalate_unanswered_questions}
use neocortex.Scheduler.Step.{work}
use neocortex.Scheduler.Step.Reread.{raced_task_never_runs}
use neocortex.Protocol.{Python, read_value, Outcome}
use neocortex.State.Rows.{write_fields}
use neocortex.Session.Inbox.{unacknowledged_inbox_kept}
use neocortex.State.Query.{task_by_id}
use neocortex.Scheduler.Turn.Acceptance.{only_merged_pass_accepts}
use neocortex.State.Exec.{World, Exec, ok, pure}
use neocortex.Session.{no_outcome_for, raised, run_turn}
use neocortex.Scheduler.Pick.{next_ready_task}
use neocortex.State.Cancel.{retire}
use neocortex.Examples.Sample.{
  one_row, sample_agent, sample_message, current_task, sample_arbiter, sample_config, sample_critic,
  sample_db, sample_outcome, sample_project, sample_worker, sample_world,
}
use neocortex.Scheduler.Loop.{check_breaker, round, run_turns}
use neocortex.Scheduler.Loop.Breaker.{breaker_stays_down, read_twice, run_turns_ends}
use neocortex.Scheduler.Turn.Unaccepted.{accepted}
use neocortex.Scheduler.Turn.Merged.{acceptance, merged_pass_marks_done}
use neocortex.Prelude.{
  ◌⊎◌, join, ◌+◌, ◌≤◌, Option, update, [], any, arith, false, find, keep, none, refl, some, true, ℕ,
  ◌∷◌, ◌≡◌, ◌≢◌, ◌⊎◌,
}
use neocortex.Scheduler.Turn.{StepResult, apply_outcome, outcome_of}
use neocortex.State.Tables.{
  AgentState, MessageKind, Agent, Db, Project, Proposal, OutcomeKind, Role, Task, TaskStatus,
}
use neocortex.Scheduler.Pick.First.{IsFirst, may_start, next_ready_task_lem}

only_merged_pass_accepts_example :
    accepted "p-T002"
      (apply_outcome sample_config sample_arbiter sample_worker current_task sample_project
        "nc/p-T002"
        (sample_outcome OutcomeKind.done "pass")
        (sample_world 0)).1.db
    ≡ false
unfolding any
only_merged_pass_accepts_example =
    only_merged_pass_accepts "p-T002" sample_config sample_arbiter sample_worker current_task
      sample_project "nc/p-T002" (sample_outcome OutcomeKind.done "pass") (sample_world 0) refl refl

merged_pass_marks_done_example :
    let r =
      apply_outcome sample_config sample_arbiter sample_critic current_task sample_project
        "nc/p-T002"
        (sample_outcome OutcomeKind.done "pass")
        (sample_world 2) in
    (r.0 ≡ ok (outcome_of OutcomeKind.done))
    × ((at : ℕ) × (task_by_id "p-T002" r.1.db
          ≡ some (
              write_fields
                (acceptance (sample_outcome OutcomeKind.done "pass") "c0ffee")
                at
                current_task)))
    × (r.1.db.backup.dirty_generation ≡ 3)
unfolding find
merged_pass_marks_done_example =
    merged_pass_marks_done sample_config sample_arbiter sample_critic current_task current_task
      sample_project "nc/p-T002" (sample_outcome OutcomeKind.done "pass") (sample_world 2) "c0ffee"
      refl refl refl refl refl

breaker_stays_down_example :
    let r = check_breaker sample_config (sample_world 3) in
    (r.0 ≡ ok (some true))
    × (round (pure StepResult.idle) sample_config r.1 ≡ (ok (some true), read_twice r.1))
breaker_stays_down_example =
    breaker_stays_down sample_config sample_config (pure StepResult.idle) (sample_world 3)
      (omega arith)

run_turns_ends_example :
    (run_turns (pure (outcome_of OutcomeKind.done)) 3 sample_config 2 0 (sample_world 0)).0
    ≢ ok none
run_turns_ends_example =
    run_turns_ends (pure (outcome_of OutcomeKind.done)) sample_config 2 0 3 (sample_world 0)
      (omega arith) (omega arith) (omega arith)

unacknowledged_inbox_kept_example :
    (run_turn sample_worker "log" (raised none "adapter failed") (sample_world 0)).1.db.messages
    ≡ sample_db.messages
unfolding run_turn any find
unacknowledged_inbox_kept_example =
    unacknowledged_inbox_kept sample_worker "log" (raised none "adapter failed") (sample_world 0)
      (run_turn sample_worker "log" (raised none "adapter failed") (sample_world 0)).1
      (no_outcome_for Role.worker "adapter failed") refl refl

next_ready_task_lem_example :
    ((next_ready_task sample_db ≡ none) × (any (may_start sample_db) sample_db.tasks ≡ false))
    ⊎ ((t : Task) × (next_ready_task sample_db ≡ some t) × IsFirst sample_db t)
unfolding find
next_ready_task_lem_example = next_ready_task_lem sample_db (refl, (refl, (refl, tt)))

abbrev pub passing_preflight : Role → Exec (Option StepResult)
passing_preflight role = pure none

abbrev pub plan_advice : Proposal → Exec Outcome
plan_advice p = pure (sample_outcome OutcomeKind.done "")

abbrev pub plan_turn : Agent → Exec Outcome
plan_turn a = pure (sample_outcome OutcomeKind.done "")

abbrev pub quick_turn : Agent → Task → Project → Exec StepResult
quick_turn a t p = pure (outcome_of OutcomeKind.done)

-- The owner cancels the task.
abbrev pub owner_cancels : Db → Db
owner_cancels = retire "p-T002" "not needed" 200

raced_task_never_runs_example :
    work passing_preflight plan_advice plan_turn quick_turn owner_cancels sample_worker
      (sample_world 0)
    ≡ (ok StepResult.idle, record (sample_world 0) { db = owner_cancels sample_db })
unfolding find update any
raced_task_never_runs_example =
    raced_task_never_runs passing_preflight plan_advice plan_turn quick_turn owner_cancels
      sample_worker current_task
      (record current_task { status = TaskStatus.cancelled; updated_at = 200 }) sample_project
      (sample_world 0) refl refl refl refl

-- The worker has asked and waited for more than the limit.
abbrev pub asking_world : World
asking_world = record (sample_world 0) {
  clock = λ n. 100000 + n;
  db = record sample_db {
    agents = sample_agent Role.worker "worker-p-T002" AgentState.blocked ∷ [];
    messages =
        one_row (record sample_message { kind = MessageKind.question; sender = "worker-p-T002" });
  };
}

escalation_once_example :
    timeouts "worker-p-T002: blocked on an unanswered question (task p-T002)"
      (escalate_unanswered_questions sample_config asking_world).1.db
    ≤ 1
unfolding keep
escalation_once_example =
    escalation_once "worker-p-T002: blocked on an unanswered question (task p-T002)" sample_config
      asking_world (omega arith)

asking_world_inserts :
    timeouts "worker-p-T002: blocked on an unanswered question (task p-T002)"
      (escalate_unanswered_questions sample_config asking_world).1.db
    ≡ 1
unfolding keep any escalate_unanswered_questions join
asking_world_inserts = refl

abbrev plain_python : Python
plain_python = record { str_value = λ v. "None"; upper = λ s. s; lower = λ s. s; repr = λ s. s }

abbrev verdict_file : Json
verdict_file =
    dict
      (field "outcome" (str "DONE") (field "verdict" (str "pass") (field "findings" Json.null end)))

abbrev verdict_read : Outcome
verdict_read = read_value plain_python verdict_file
