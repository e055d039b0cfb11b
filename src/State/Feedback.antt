-- ===== src/State/Feedback.antt =====
-- nc/state.py: `planner_feedback` and `pending_revision`.
use neocortex.State.Proposals.{pending_proposal}
use neocortex.State.Mail.{new_agent, new_message}
use neocortex.State.Rows.{backup_dirty, insert_message, update_agent, update_proposal}
use neocortex.State.Query.{agent_by_id, is_planner, project_by_id, task_by_id}
use neocortex.Json.{Json, dict, end, field, str}
use neocortex.State.Tables.{
  Agent, AgentState, Db, MessageKind, Project, ProposalStatus, Revision, Role,
}
use neocortex.Prelude.{
  List, [], if◌then◌else◌, is_some, keep, ltb, str_eq, text_append, ◌&&◌, ◌++◌, ◌∷◌, ℕ, String,
  Bool, true, false, Option, none, some, find,
}
use neocortex.State.Exec.{
  Exec, exclusive_targets, foreign_proposal, foreign_task, gets, integrity_error, modify, now,
  or_raise, project_required, pure, raise, raise_if, transaction, unknown_project, unknown_task,
  ◌>>=◌, ◌>>◌,
}

-- A named project must be the one that the target belongs to.
abbrev pub same_project : Option String → String → Bool
same_project none pid = true
same_project (some q) pid = str_eq q pid

unfoldable pub target_project : Option String → Option String → Option ℕ → Exec (Option String)
unfolding pending_proposal
target_project pid none none = pure pid
target_project pid none (some n) = do
  p ← pending_proposal n
  raise_if (if same_project pid p.project_id then false else true) (foreign_proposal)
  pure (some p.project_id)
target_project pid (some tid) none = do
  row ← gets (task_by_id tid)
  t ← or_raise row (unknown_task tid)
  raise_if (if same_project pid t.project_id then false else true) (foreign_task)
  pure (some t.project_id)
target_project pid (some tid) (some n) = raise exclusive_targets

-- With no project named there must be exactly one.
abbrev pub only_project : List Project → Option String
only_project (p ∷ []) = some p.id
only_project _ = none

unfoldable pub choose_project : Option String → Exec String
choose_project pid = do
  default ← gets (λ db. only_project db.projects)
  chosen ← or_raise (elim pid [ none ↦ default | some p ↦ some p ]) project_required
  row ← gets (project_by_id chosen)
  raise_if (if is_some row then false else true) (unknown_project chosen)
  pure chosen

abbrev pub planner_of : String → Db → Option Agent
planner_of pid db = find (λ a. is_planner a.role && str_eq a.project_id pid) db.agents

abbrev pub planner_id : String → Option Agent → String
planner_id pid none = text_append "planner-" pid
planner_id pid (some a) = a.id

unfoldable pub wake_planner : String → String → ℕ → Exec String
wake_planner pid model at = do
  agent ← gets (planner_of pid)
  let aid = planner_id pid agent
  taken ← gets (agent_by_id aid)
  elim agent [
    | some a ↦
        modify (update_agent aid (λ b. record b { state = AgentState.runnable; updated_at = at }))
    | none ↦ (do
      raise_if (is_some taken) integrity_error
      modify (λ db. record db {
        agents = db.agents ++ new_agent aid Role.planner pid none model at ∷ [];
      }))
  ]
  pure aid

abbrev pub feedback_payload : String → Bool → Json
feedback_payload text plan_request =
    dict (field "text" (str text) (if plan_request then field "request" (str "plan") end else end))

-- The proposal gives way to the revision that the feedback asks for.
abbrev pub request_revision : ℕ → ℕ → String → Db → Db
request_revision pid mid aid db =
    let superseded =
      update_proposal pid (λ p. record p { status = ProposalStatus.superseded }) db in
    record superseded {
      revisions =
          db.revisions
          ++ record {
            original_id = pid;
            feedback_id = mid;
            planner_id = aid;
            replacement_id = none;
          }
            ∷ [];
    }

unfoldable pub planner_feedback :
    Option String → String → String → Option String → Option ℕ → Bool → Exec (String × ℕ)
unfolding target_project choose_project wake_planner
planner_feedback pid text model tid proposal plan_request = transaction (do
  target ← target_project pid tid proposal
  project ← choose_project target
  at ← now
  aid ← wake_planner project model at
  modify (
      insert_message (
        new_message MessageKind.feedback "owner" aid (feedback_payload text plan_request) tid none
          at))
  mid ← gets (λ db. db.messages.seq)
  modify (λ db. elim proposal [ none ↦ db | some n ↦ request_revision n mid aid db ])
  backup_dirty
  pure (aid, mid))

-- The revision with the least original id.
unfoldable pub oldest : List Revision → Option Revision
oldest [] = none
oldest (r ∷ rs) = elim (oldest rs) [
  | none ↦ some r
  | some q ↦ if ltb q.original_id r.original_id then some q else some r
]

unfoldable pub pending_revision : String → Db → Option Revision
unfolding oldest
pending_revision planner db = oldest (
    keep
      (λ r. str_eq r.planner_id planner && (elim r.replacement_id [ none ↦ true | some n ↦ false ]))
      db.revisions)
