-- ===== src/Scheduler/Turn.antt =====
-- nc/scheduler.py: `_task_turn`, from the preflight to the handler and its recovery. What git, the
-- acceptance commands, the preflight and the session return are arguments.
pub mod Unaccepted
pub mod Acceptance
pub mod Merged
use neocortex.Scheduler.Verdict.{note, on_done}
use neocortex.State.Incidents.{incident}
use neocortex.Scheduler.Handlers.{add_failure, block_task, on_ask, on_fail, on_yield, say}
use neocortex.Session.{SessionEnd, run_turn}
use neocortex.Protocol.{Outcome}
use neocortex.State.Exec.{Error, Exec, err, lift, modify_host, ok, pure, ◌>>=◌, ◌>>◌}
use neocortex.Config.{Config}
use neocortex.Prelude.{
  Bool, Option, String, [], decimal, false, if◌then◌else◌, leb, none, some, text_append, true, ◌&&◌,
  ◌∷◌,
}
use neocortex.Arbiter.{Arbiter}
use neocortex.State.Tables.{Agent, OutcomeKind, Project, Role, Task}

pub data StepResult : Type 0 where
  idle deferred preflight_failed budget_exhausted error : StepResult
  outcome_of : OutcomeKind → StepResult

-- A failed turn, in the sense of the circuit breaker.
abbrev pub is_failure : OutcomeKind → Bool
is_failure OutcomeKind.no_outcome = true
is_failure OutcomeKind.fail = true
is_failure _ = false

abbrev pub reset_failures : Exec (Unit {0})
reset_failures = modify_host (λ h. record h { failures = 0 })

abbrev pub count_outcome : OutcomeKind → Exec (Unit {0})
count_outcome k = if is_failure k then add_failure else reset_failures

unfoldable pub handle :
    Config → Arbiter → Agent → Task → Project → String → Outcome → Exec (Unit {0})
unfolding on_ask on_yield on_fail on_done
handle cfg arb agent task project branch outcome = elim outcome.kind [
  | OutcomeKind.ask ↦ on_ask agent task outcome
  | OutcomeKind.yielded ↦ on_yield agent
  | OutcomeKind.fail ↦ on_fail cfg agent task outcome
  | OutcomeKind.no_outcome ↦ on_fail cfg agent task outcome
  | OutcomeKind.done ↦ on_done cfg arb agent task project branch outcome
]

abbrev pub kind_name : OutcomeKind → String
kind_name OutcomeKind.done = "DONE"
kind_name OutcomeKind.ask = "ASK"
kind_name OutcomeKind.yielded = "YIELD"
kind_name OutcomeKind.fail = "FAIL"
kind_name OutcomeKind.no_outcome = "NO_OUTCOME"

abbrev pub handler_error_text : Arbiter → OutcomeKind → Error → String
handler_error_text arb k e =
    say ("scheduler error while applying " ∷ kind_name k ∷ ": " ∷ arb.error_str e ∷ [])

-- `except Exception`: the handler's writes stay, the task is blocked, the failure counts.
unfoldable pub recover_handler : Arbiter → Agent → Task → OutcomeKind → Error → Exec StepResult
unfolding incident block_task
recover_handler arb agent task k e = do
  note "handler_error" task.id (arb.error_repr e)
  block_task task agent (handler_error_text arb k e)
  add_failure
  pure StepResult.error

-- `try: handler(...)`
abbrev pub attempt : Exec (Unit {0}) → (Error → Exec StepResult) → StepResult → Exec StepResult
attempt m rescue done w = let (r, w') = m w in elim r [ ok _ ↦ (ok done, w') | err e ↦ rescue e w' ]

-- The breaker's count, then the handler.
unfoldable pub apply_outcome :
    Config → Arbiter → Agent → Task → Project → String → Outcome → Exec StepResult
unfolding handle recover_handler
apply_outcome cfg arb agent task project branch outcome =
    if is_failure outcome.kind && outcome.host_deferred then pure StepResult.deferred else (do
      count_outcome outcome.kind
      attempt (handle cfg arb agent task project branch outcome)
          (recover_handler arb agent task outcome.kind) (outcome_of outcome.kind))

abbrev pub branch_of : Task → String
branch_of task = text_append "nc/" task.id

unfoldable pub budget_spent : Agent → Task → Exec StepResult
unfolding block_task
budget_spent agent task = do
  block_task task agent (say ("turn budget (" ∷ decimal task.budget_turns ∷ ") exhausted" ∷ []))
  pure StepResult.budget_exhausted

unfoldable pub task_turn :
    Config
    → Arbiter
    → (Role → Exec (Option StepResult))
    → SessionEnd
    → String
    → Agent
    → Task
    → Project
    → Exec StepResult
unfolding budget_spent apply_outcome run_turn
task_turn cfg arb preflight session log_path agent task project = do
  refused ← preflight agent.role
  elim refused [
    | some r ↦ pure r
    | none ↦ if leb task.budget_turns agent.turns then budget_spent agent task else (do
      _ ← lift arb.ensure_worktree
      outcome ← run_turn agent log_path session
      apply_outcome cfg arb agent task project (branch_of task) outcome)
  ]
