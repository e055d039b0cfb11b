-- ===== src/State/Query.antt =====
-- Equality of the enumerated columns, and the look-ups that several methods make.
use neocortex.Prelude.{ℕ, String, Bool, true, false, Option, none, some, find, str_eq, ◌==◌}
use neocortex.State.Tables.{
  TaskStatus, AgentState, Role, MessageKind, ProposalStatus, ReviewStatus, Project, Task, Agent,
  Message, Run, Proposal, Db,
}

abbrev pub status_eq : TaskStatus → TaskStatus → Bool
status_eq a b = rank a == rank b
  where
    rank : TaskStatus → ℕ
    rank TaskStatus.queued = 0
    rank TaskStatus.in_progress = 1
    rank TaskStatus.in_review = 2
    rank TaskStatus.done = 3
    rank TaskStatus.failed = 4
    rank TaskStatus.blocked = 5
    rank TaskStatus.cancelled = 6

abbrev pub is_runnable : AgentState → Bool
is_runnable AgentState.runnable = true
is_runnable _ = false

abbrev pub is_blocked : AgentState → Bool
is_blocked AgentState.blocked = true
is_blocked _ = false

abbrev pub is_planner : Role → Bool
is_planner Role.planner = true
is_planner _ = false

abbrev pub is_critic : Role → Bool
is_critic Role.critic = true
is_critic _ = false

abbrev pub is_worker : Role → Bool
is_worker Role.worker = true
is_worker _ = false

abbrev pub is_question : MessageKind → Bool
is_question MessageKind.question = true
is_question _ = false

abbrev pub is_answer : MessageKind → Bool
is_answer MessageKind.answer = true
is_answer _ = false

abbrev pub is_pending : ProposalStatus → Bool
is_pending ProposalStatus.pending = true
is_pending _ = false

abbrev pub is_running : ReviewStatus → Bool
is_running ReviewStatus.running = true
is_running _ = false

abbrev pub is_retryable : ReviewStatus → Bool
is_retryable ReviewStatus.retryable = true
is_retryable _ = false

-- SQL's `column = ?` on a nullable column and a text.
abbrev pub opt_eq : Option String → String → Bool
opt_eq none s = false
opt_eq (some t) s = str_eq t s

abbrev pub project_is : String → Project → Bool
project_is pid p = str_eq p.id pid

abbrev pub task_is : String → Task → Bool
task_is tid t = str_eq t.id tid

abbrev pub agent_is : String → Agent → Bool
agent_is aid a = str_eq a.id aid

abbrev pub message_is : ℕ → Message → Bool
message_is mid m = m.id == mid

abbrev pub run_is : ℕ → Run → Bool
run_is rid r = r.id == rid

abbrev pub proposal_is : ℕ → Proposal → Bool
proposal_is pid p = p.id == pid

abbrev pub project_by_id : String → Db → Option Project
project_by_id pid db = find (project_is pid) db.projects

abbrev pub task_by_id : String → Db → Option Task
task_by_id tid db = find (task_is tid) db.tasks

abbrev pub agent_by_id : String → Db → Option Agent
agent_by_id aid db = find (agent_is aid) db.agents

-- `run.ended_at IS NULL`
abbrev pub is_open : Run → Bool
is_open r = elim r.ended_at [ none ↦ true | some t ↦ false ]
