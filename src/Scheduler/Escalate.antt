-- ===== src/Scheduler/Escalate.antt =====
-- nc/scheduler.py: `_escalate_unanswered_questions`.
pub mod Timeouts
use neocortex.Scheduler.Handlers.{say}
use neocortex.State.Query.{is_answer, is_blocked, is_question, opt_eq, status_eq}
use neocortex.State.Rows.{insert_incident}
use neocortex.State.Exec.{Exec, gets, modify, now, pure, when, ◌>>=◌, ◌>>◌}
use neocortex.Config.{Config}
use neocortex.Prelude.{
  Bool, List, Option, String, [], any, false, if◌then◌else◌, keep, ltb, none, some, str_eq, true, ℕ,
  ◌&&◌, ◌+◌, ◌==◌, ◌∷◌,
}
use neocortex.State.Tables.{Agent, Db, Incident, Message, TaskStatus}

abbrev pub replies_to : Message → Message → Bool
replies_to q r = is_answer r.kind && (elim r.in_reply_to [ none ↦ false | some n ↦ n == q.id ])

-- The agent has asked something that no answer replies to.
abbrev pub has_open_question : String → Db → Bool
has_open_question aid db =
    any
      (λ q.
        str_eq q.sender aid
        && is_question q.kind
        && (if any (replies_to q) db.messages.rows then false else true))
      db.messages.rows

abbrev pub task_cancelled : Agent → Db → Bool
task_cancelled a db =
    any (λ t. opt_eq a.task_id t.id && status_eq t.status TaskStatus.cancelled) db.tasks

-- `a.updated_at < limit - timeout`, where the difference may be negative.
abbrev pub is_overdue : Config → ℕ → Agent → Db → Bool
is_overdue cfg at a db =
    is_blocked a.state
    && ltb (a.updated_at + cfg.ask_timeout_s) at
    && (if task_cancelled a db then false else true)
    && has_open_question a.id db

-- How Python prints `agent['task_id']`, `None` included.
abbrev pub opt_text : Option String → String
opt_text none = "None"
opt_text (some s) = s

abbrev pub timeout_detail : Agent → String
timeout_detail a =
    say (a.id ∷ ": blocked on an unanswered question (task " ∷ opt_text a.task_id ∷ ")" ∷ [])

abbrev pub reported : String → Db → Bool
reported detail db =
    any (λ i. str_eq i.kind "ask_timeout" && str_eq i.detail detail) db.incidents.rows

abbrev pub still_overdue : Config → ℕ → Agent → Db → Bool
still_overdue cfg at a db = any (λ b. str_eq b.id a.id && is_overdue cfg at b db) db.agents

abbrev pub timeout_incident : String → ℕ → ℕ → Incident
timeout_incident detail at n = record {
  id = n;
  kind = "ask_timeout";
  detail = detail;
  resolved = false;
  created_at = at;
  resolved_at = none;
  resolution_note = none;
}

-- The guarded insert: eligibility and novelty are checked again in the statement.
unfoldable pub escalate_one : Config → Agent → Exec (Unit {0})
escalate_one cfg a = do
  at ← now
  limit ← now
  due ← gets (still_overdue cfg limit a)
  known ← gets (reported (timeout_detail a))
  when (due && (if known then false else true))
      (modify (insert_incident (timeout_incident (timeout_detail a) at)))

unfoldable pub escalate_each : Config → List Agent → Exec (Unit {0})
unfolding escalate_one
escalate_each cfg [] = pure tt
escalate_each cfg (a ∷ rest) = escalate_one cfg a >> escalate_each cfg rest

unfoldable pub escalate_unanswered_questions : Config → Exec (Unit {0})
unfolding escalate_each
escalate_unanswered_questions cfg = do
  at ← now
  agents ← gets (λ db. keep (λ a. is_overdue cfg at a db) db.agents)
  escalate_each cfg agents
