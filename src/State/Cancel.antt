-- ===== src/State/Cancel.antt =====
-- nc/state.py: `cancel_task` and `unmet_dependencies`.
pub mod Final
use neocortex.Prelude.{
  Option, ℕ, String, Bool, true, false, ◌&&◌, ◌||◌, List, [], none, some, update, any, keep, str_eq,
  blank, if◌then◌else◌,
}
use neocortex.Json.{str, dict, end, field}
use neocortex.State.Tables.{Task, TaskStatus, AgentState, MessageKind, Agent, Message, Db}
use neocortex.State.Exec.{
  raise, Exec, pure, gets, or_raise, raise_if, modify, now, transaction, ◌>>=◌, ◌>>◌, unknown_task,
  reason_required, active_run, not_cancellable,
}
use neocortex.State.Query.{status_eq, opt_eq, task_by_id, is_open}
use neocortex.State.Rows.{update_task, insert_message}

-- `agent_id IN (SELECT id FROM agent WHERE task_id=?)`
abbrev pub agent_of_task : String → Db → String → Bool
agent_of_task tid db aid = any (λ a. str_eq a.id aid && opt_eq a.task_id tid) db.agents

-- An open run of the task, or of an agent of the task.
abbrev pub has_open_run : String → Db → Bool
has_open_run tid db =
    any (λ r. is_open r && (opt_eq r.task_id tid || agent_of_task tid db r.agent_id)) db.runs.rows

abbrev pub can_cancel : TaskStatus → Bool
can_cancel TaskStatus.queued = true
can_cancel TaskStatus.blocked = true
can_cancel TaskStatus.failed = true
can_cancel _ = false

abbrev pub retire_agents : String → ℕ → List Agent → List Agent
retire_agents tid at =
    update (λ a. opt_eq a.task_id tid) (λ a. record a { state = AgentState.done; updated_at = at })

abbrev pub cancellation_note : String → String → ℕ → ℕ → Message
cancellation_note tid reason at mid = record {
  id = mid;
  kind = MessageKind.cancellation;
  sender = "owner";
  recipient = "owner";
  task_id = some tid;
  payload = dict (field "reason" (str reason) end);
  in_reply_to = none;
  delivered = false;
  created_at = at;
}

-- The three writes of a cancellation.
abbrev pub retire : String → String → ℕ → Db → Db
retire tid reason at db =
    let cancelled =
      update_task tid (λ t. record t { status = TaskStatus.cancelled; updated_at = at }) db in
    insert_message (cancellation_note tid reason at)
      (record cancelled { agents = retire_agents tid at db.agents })

-- On a task that exists and has no open run.
unfoldable pub cancel_idle : String → String → Task → Exec Bool
cancel_idle tid reason task = if status_eq task.status TaskStatus.cancelled then pure false else (do
  raise_if (if can_cancel task.status then false else true) not_cancellable
  at ← now
  modify (retire tid reason at)
  pure true)

-- On the row that the transaction found.
unfoldable pub cancel_row : String → String → Option Task → Exec Bool
cancel_row tid reason none = raise (unknown_task tid)
cancel_row tid reason (some task) = do
  running ← gets (has_open_run tid)
  raise_if running active_run
  cancel_idle tid reason task

unfoldable pub cancel_known : String → String → Exec Bool
cancel_known tid reason = do row ← gets (task_by_id tid); cancel_row tid reason row

unfoldable pub cancel_task : String → String → Exec Bool
cancel_task tid reason = do
  raise_if (blank reason) reason_required
  transaction (cancel_known tid reason)

-- A dependency is met once its task is accepted; a missing one never is.
abbrev pub is_met : Db → String → Bool
is_met db dep = elim (task_by_id dep db) [
  | none ↦ false
  | some t ↦ status_eq t.status TaskStatus.done
]

unfoldable pub unmet_dependencies : String → Db → List String
unmet_dependencies tid db = elim (task_by_id tid db) [
  | none ↦ []
  | some t ↦ keep (λ dep. if is_met db dep then false else true) t.depends_on
]
