-- ===== src/Scheduler/Handlers.antt =====
-- nc/scheduler.py: the handlers of the outcomes, `_rework` and `_block`.
pub mod Attempts
use neocortex.State.Mail.{send}
use neocortex.State.Rows.{no_fields, set_agent, set_task}
use neocortex.State.Incidents.{incident}
use neocortex.Protocol.{Outcome}
use neocortex.Json.{Fields, Items, Json, cons, dict, end, field, list, nil, str}
use neocortex.State.Exec.{Exec, modify_host, pure, ◌>>=◌, ◌>>◌}
use neocortex.Config.{Config}
use neocortex.Prelude.{
  Bool, List, String, [], decimal, if◌then◌else◌, join, leb, none, some, str_eq, text_append, ◌+◌,
  ◌||◌, ◌∷◌,
}
use neocortex.State.Tables.{Agent, AgentState, MessageKind, Task, TaskStatus}

abbrev pub worker_id : String → String
worker_id tid = text_append "worker-" tid

abbrev pub say : List String → String
say = join ""

abbrev pub object : String → Json → Fields → Json
object k v rest = dict (field k v rest)

unfoldable pub to_items : List String → Items
to_items [] = nil
to_items (s ∷ ss) = cons (str s) (to_items ss)

abbrev pub set_status : String → TaskStatus → Exec (Unit {0})
set_status tid s = set_task tid (record no_fields { status = some s })

unfoldable pub block_task : Task → Agent → String → Exec (Unit {0})
unfolding set_task set_agent incident send
block_task task agent reason = do
  set_status task.id TaskStatus.blocked
  set_agent agent.id AgentState.blocked
  _ ← incident "task_blocked" (say (task.id ∷ ": " ∷ reason ∷ []))
  _ ←
      send MessageKind.incident "scheduler" "owner"
        (object "task" (str task.id) (field "reason" (str reason) end)) (some task.id) none
  pure tt

-- Verdicts as the worker reads them.
abbrev pub verdict_payload : String → String → List String → Json
verdict_payload verdict summary findings =
    object "verdict" (str verdict)
      (field "summary" (str summary) (field "findings" (list (to_items findings)) end))

unfoldable pub rework : Config → Agent → Task → List String → Bool → Exec (Unit {0})
unfolding block_task set_task set_agent send
rework cfg agent task findings attempt = do
  let attempts = task.attempts + (if attempt then 1 else 0)
  _ ←
      send MessageKind.review_verdict "arbiter" (worker_id task.id)
        (verdict_payload "rework" "acceptance not met" findings) (some task.id) none
  set_task task.id
      (record no_fields { status = some TaskStatus.in_progress; attempts = some attempts })
  if leb cfg.max_attempts attempts
      then block_task task agent (say (decimal attempts ∷ " rework cycles without acceptance" ∷ []))
      else set_agent (worker_id task.id) AgentState.runnable

abbrev pub question_recipient : String → String
question_recipient to = if str_eq to "worker" || str_eq to "critic" then to else "owner"

unfoldable pub on_ask : Agent → Task → Outcome → Exec (Unit {0})
unfolding set_task set_agent send
on_ask agent task outcome = do
  _ ←
      send MessageKind.question agent.id (question_recipient outcome.to)
        (object "question" (str outcome.question) (field "summary" (str outcome.summary) end))
        (some task.id) none
  set_agent agent.id AgentState.blocked
  set_status task.id TaskStatus.blocked

unfoldable pub on_yield : Agent → Exec (Unit {0})
unfolding set_agent
on_yield agent = set_agent agent.id AgentState.runnable

unfoldable pub on_fail : Config → Agent → Task → Outcome → Exec (Unit {0})
unfolding block_task set_task set_agent
on_fail cfg agent task outcome = do
  let attempts = task.attempts + 1
  set_task task.id (record no_fields { attempts = some attempts })
  if leb cfg.max_attempts attempts
      then block_task task agent
          (say ("failed " ∷ decimal attempts ∷ " times: " ∷ outcome.summary ∷ []))
      else set_agent agent.id AgentState.runnable

abbrev pub add_failure : Exec (Unit {0})
add_failure = modify_host (λ h. record h { failures = h.failures + 1 })
