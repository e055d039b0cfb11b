-- ===== src/Operations/Answers.antt =====
-- nc/operations.py: `answerable_question`, `answer_message`, `inbox`, `request_plan` and
-- `submit_feedback`.
pub mod Once
use neocortex.Operations.Ownership.{truthy}
use neocortex.State.Runs.{names_cancelled}
use neocortex.State.Rows.{insert_message, update_agent, update_messages, update_task}
use neocortex.State.Mail.{inbox, new_message}
use neocortex.State.Query.{agent_by_id, is_question, message_is, task_by_id}
use neocortex.Json.{Json, dict, end, field, str}
use neocortex.State.Exec.{
  pure, raise_if, raise, ◌>>=◌, ◌>>◌, Exec, answer_required, cancelled_task, gets, modify,
  not_answerable, now, transaction, unknown_message,
}
use neocortex.Prelude.{
  Bool, List, Option, String, blank, false, find, if◌then◌else◌, map, none, some, str_eq, true, ℕ,
  ◌&&◌,
}
use neocortex.State.Tables.{AgentState, Db, Message, MessageKind, TaskStatus}

abbrev pub message_by_id : ℕ → Db → Option Message
message_by_id mid db = find (message_is mid) db.messages.rows

abbrev pub is_final : TaskStatus → Bool
is_final TaskStatus.done = true
is_final TaskStatus.cancelled = true
is_final _ = false

abbrev pub same_task : Option String → Option String → Bool
same_task none none = true
same_task (some s) (some t) = str_eq s t
same_task _ _ = false

-- A question of no task, or of a task that is neither accepted nor cancelled.
abbrev pub open_task : Option String → Db → Bool
open_task none db = true
open_task (some tid) db = elim (task_by_id tid db) [
  | none ↦ false
  | some t ↦ if is_final t.status then false else true
]

unfoldable pub answerable_question : Message → Db → Bool
answerable_question q db =
    if is_question q.kind && str_eq q.recipient "owner" && (if q.delivered then false else true)
    then elim (agent_by_id q.sender db) [
      | none ↦ false
      | some a ↦ same_task a.task_id q.task_id && open_task (truthy q.task_id) db
    ]
    else false

abbrev pub answer_payload : String → Json
answer_payload text = dict (field "answer" (str text) end)

-- The task goes on with the answer.
abbrev pub resume_task : ℕ → Option String → Db → Db
resume_task at none db = db
resume_task at (some tid) db =
    update_task tid (λ t. record t { status = TaskStatus.in_progress; updated_at = at }) db

-- The claim of the question, the answer, and the agent and its task that go on.
unfoldable pub answer_writes : Message → String → ℕ → Db → Db
answer_writes q text at db = resume_task at (truthy q.task_id) (
    update_agent q.sender (λ a. record a { state = AgentState.runnable; updated_at = at })
      (insert_message
        (new_message MessageKind.answer "owner" q.sender (answer_payload text) q.task_id (some q.id)
          at)
        (update_messages (λ m. message_is q.id m && (if m.delivered then false else true))
          (λ m. record m { delivered = true }) db)))

-- On the message that the transaction found.
unfoldable pub answer_row : String → Option Message → Exec String
unfolding answerable_question answer_writes
answer_row text none = raise unknown_message
answer_row text (some q) = do
  dead ← gets (names_cancelled q.task_id q.sender)
  raise_if dead cancelled_task
  fits ← gets (answerable_question q)
  raise_if (if fits then false else true) not_answerable
  at ← now
  modify (answer_writes q text at)
  pure q.sender

unfoldable pub answer_known : ℕ → String → Exec String
unfolding answer_row
answer_known mid text = do row ← gets (message_by_id mid); answer_row text row

-- The agent that the answer goes to.
unfoldable pub answer_message : ℕ → String → Exec String
unfolding answer_known
answer_message mid text = do
  raise_if (blank text) answer_required
  transaction (answer_known mid text)

-- A row of the owner's inbox: the message and whether it can be answered.
unfoldable pub owner_inbox : Bool → Db → List (Message × Bool)
unfolding inbox answerable_question
owner_inbox include_delivered db =
    map (λ m. (m, answerable_question m db))
      (inbox "owner" (if include_delivered then false else true) db)
