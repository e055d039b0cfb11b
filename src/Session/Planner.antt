-- ===== src/Session/Planner.antt =====
-- nc/turn.py: `run_planner_turn`, from the revision that is read to the planner's row. The text of
-- an exception is an argument, and so is the linter.
pub mod Records
pub mod Finish
pub mod Effects
use neocortex.Protocol.{Outcome}
use neocortex.State.Query.{project_is}
use neocortex.Session.Plan.{planner_specs}
use neocortex.State.Feedback.{pending_revision}
use neocortex.State.Rows.{or_else, update_agent}
use neocortex.State.Mail.{inbox, mark_delivered, send}
use neocortex.State.Runs.{end_run, start_run}
use neocortex.State.Proposals.{add_proposal}
use neocortex.Session.{
  raised, unreadable, finished, SessionEnd, blank_outcome, failure_of, is_temporary, memo_or, read,
  unavailable, write_defer,
}
use neocortex.Json.{Json, dict, end, field, str}
use neocortex.State.Exec.{
  ◌>>=◌, ◌>>◌, pure, raise, raise_if, or_raise, value_error, Error, Exec, bad_revision, err, gets,
  lift, malformed_specs, modify, no_model, now, ok, type_error, when,
}
use neocortex.Config.{Config, model_for}
use neocortex.Prelude.{
  Bool, List, Option, String, blank, false, if◌then◌else◌, is_some, map, none, not, some, str_eq,
  text_append, true, update, ℕ, ◌&&◌, ◌+◌, ◌==◌, ◌||◌,
}
use neocortex.State.Tables.{Agent, AgentState, Db, MessageKind, OutcomeKind, Revision, Role}

abbrev pub has_failed : Option Outcome → Bool
has_failed host = is_some host

-- The outcome of the session, and the failure of the host where there is one.
unfoldable pub planner_read : String → SessionEnd → Option Outcome × Outcome
planner_read speaker (finished tokens a (read o)) =
    (if a.failed then some (failure_of speaker a) else none, o)
planner_read speaker (finished tokens a (unreadable text)) = (
  if a.failed && is_temporary a.category then some (failure_of speaker a) else none,
  unavailable speaker text,
)
planner_read speaker (raised (some a) text) = (some (failure_of speaker a), failure_of speaker a)
planner_read speaker (raised none text) = (none, unavailable speaker text)

abbrev pub tokens_of : SessionEnd → Option ℕ
tokens_of (finished tokens a r) = tokens
tokens_of (raised a text) = none

-- `_record_host` and `_record_exception_host`, of which the column `defer_until` is modelled.
abbrev pub reset_of : SessionEnd → Option ℕ
reset_of (finished tokens a r) = a.reset_at
reset_of (raised (some a) text) = a.reset_at
reset_of (raised none text) = none

abbrev pub question_payload : Outcome → Json
question_payload o = dict (field "question" (str o.question) (field "summary" (str o.summary) end))

-- What `except (ValueError, TypeError)` catches of what the plan's checks and `add_proposal` raise.
abbrev pub is_protocol_error : Error → Bool
is_protocol_error (value_error text) = true
is_protocol_error malformed_specs = true
is_protocol_error bad_revision = true
is_protocol_error type_error = true
is_protocol_error _ = false

abbrev pub original_of : Option Revision → Option ℕ
original_of none = none
original_of (some r) = some r.original_id

abbrev pub ask_owner : Agent → Outcome → Exec (Unit {0})
ask_owner agent o = do
  raise_if (not (str_eq o.to "owner") || blank o.question)
      (value_error "planner ASK requires a question addressed to owner")
  _ ← send MessageKind.question agent.id "owner" (question_payload o) none none
  pure tt

abbrev pub planner_acknowledges : OutcomeKind → Bool
planner_acknowledges OutcomeKind.done = true
planner_acknowledges OutcomeKind.ask = true
planner_acknowledges _ = false

abbrev pub start_planner : String → ℕ → Db → Db
start_planner pid at db = record db {
  projects =
      update (project_is pid)
        (λ p. record p { planner_last_ran_at = some at; planner_skip_reason = none }) db.projects;
}

-- The state that the planner's row gets if nobody woke the planner during its session.
abbrev pub planner_state : Option Outcome → OutcomeKind → Bool → AgentState
planner_state (some host) kind revises =
    if host.host_deferred then AgentState.runnable else AgentState.blocked
planner_state none OutcomeKind.done revises =
    if revises then AgentState.runnable else AgentState.done
planner_state none _ revises = AgentState.blocked

abbrev pub host_defers : Option Outcome → Bool
host_defers none = false
host_defers (some host) = host.host_deferred

abbrev pub close_planner : Agent → Option Outcome → Outcome → AgentState → Agent → Agent
close_planner agent host o s row = record row {
  turns = row.turns + (if host_defers host then 0 else 1);
  memo = if has_failed host then agent.memo else memo_or o.memo agent.memo;
  state = if row.updated_at == agent.updated_at then s else row.state;
}

-- The end of the turn: the inbox, the run, the planner's row.
unfoldable pub finish_planner :
    Agent → ℕ → List ℕ → Option ℕ → Option Outcome → Outcome → Exec Outcome
unfolding mark_delivered end_run pending_revision
finish_planner agent rid ids tokens host o = do
  when (not (has_failed host) && planner_acknowledges o.kind) (mark_delivered ids)
  end_run rid o.kind o.summary tokens
  revises ← gets (λ db. is_some (pending_revision agent.id db))
  modify (update_agent agent.id (close_planner agent host o (planner_state host o.kind revises)))
  pure (or_else host o)

module _ (check : List Json → List String → Option (List String)) (error_str : Error → String) where
  -- What the outcome of a session asks for.
  unfoldable pub apply_plan : Agent → Option Revision → Outcome → Exec (Unit {0})
  unfolding planner_specs add_proposal send
  apply_plan agent revision o = elim o.kind [
    | OutcomeKind.done ↦ (do
      specs ← lift (planner_specs check agent.project_id o)
      _ ← add_proposal check agent.project_id agent.id o.summary specs (original_of revision)
      pure tt)
    | OutcomeKind.ask ↦ ask_owner agent o
    | OutcomeKind.yielded ↦
        raise (value_error "planner must record one proposal or ask the owner a question")
    | OutcomeKind.fail ↦ pure tt
    | OutcomeKind.no_outcome ↦ pure tt
  ]

  abbrev pub protocol_failure : Error → Outcome
  protocol_failure e =
      blank_outcome OutcomeKind.fail (text_append "Planner protocol failure: " (error_str e)) false

  -- `try: ... except (ValueError, TypeError)`
  abbrev pub settle_plan : Exec (Unit {0}) → Outcome → Exec Outcome
  settle_plan m o w =
      let (r, w') = m w in
      elim r [
        | ok _ ↦ (ok o, w')
        | err e ↦ if is_protocol_error e then (ok (protocol_failure e), w') else (err e, w')
      ]

  unfoldable pub applied_plan : Agent → Option Revision → Option Outcome → Outcome → Exec Outcome
  unfolding apply_plan
  applied_plan agent revision host o =
      settle_plan (if has_failed host then pure tt else apply_plan agent revision o) o

  unfoldable pub after_planner : Agent → Option Revision → ℕ → List ℕ → SessionEnd → Exec Outcome
  unfolding planner_read applied_plan finish_planner
  after_planner agent revision rid ids session = do
    write_defer rid (reset_of session)
    let found = planner_read "Planner" session
    o ← applied_plan agent revision found.0 found.1
    finish_planner agent rid ids (tokens_of session) found.0 o

  unfoldable pub run_planner_turn : Config → Agent → String → SessionEnd → Exec Outcome
  unfolding pending_revision inbox start_run after_planner model_for
  run_planner_turn cfg agent log_path session = do
    revision ← gets (pending_revision agent.id)
    ids ← gets (λ db. map (λ m. m.id) (inbox agent.id true db))
    model ← or_raise (model_for cfg Role.planner) no_model
    rid ← start_run agent.id none Role.planner model log_path
    at ← now
    modify (start_planner agent.project_id at)
    after_planner agent revision rid ids session
