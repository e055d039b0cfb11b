-- ===== src/Session.antt =====
-- nc/turn.py: `run_turn`, one agent session. The adapter process and the outcome file are the
-- argument `SessionEnd`; of the host evidence the columns `outcome` .. `defer_until` are modelled.
pub mod Inbox
pub mod Assessed
pub mod Plan
pub mod Planner
pub mod PlanCritic
use neocortex.Json.{end}
use neocortex.State.Rows.{set_turns, update_runs}
use neocortex.State.Query.{run_is}
use neocortex.Config.{role_name}
use neocortex.State.Mail.{inbox, mark_delivered}
use neocortex.State.Runs.{end_run, start_run}
use neocortex.Protocol.{Outcome}
use neocortex.State.Exec.{Exec, gets, modify, pure, when, ◌>>=◌, ◌>>◌}
use neocortex.Prelude.{
  Bool, List, Option, String, [], false, if◌then◌else◌, join, map, none, some, str_eq, text_append,
  true, ℕ, ◌&&◌, ◌+◌, ◌||◌, ◌∷◌,
}
use neocortex.State.Tables.{Agent, OutcomeKind, Role}

-- `HostAssessment`; `reset_at` is what `_defer_until` reads from the diagnostic.
pub record Assessment : Type 0 where
  pub failed : Bool
  pub category : String
  pub diagnostic : String
  pub reset_at : Option ℕ

pub data OutcomeRead : Type 0 where
  read : Outcome → OutcomeRead
  unreadable : String → OutcomeRead

-- `raised`: the adapter raised, with typed provider evidence or without.
-- `finished`: it returned tokens and an assessment, and the outcome file was read.
pub data SessionEnd : Type 0 where
  raised : Option Assessment → String → SessionEnd
  finished : Option ℕ → Assessment → OutcomeRead → SessionEnd

abbrev pub is_temporary : String → Bool
is_temporary c =
    str_eq c "subscription_limit"
    || str_eq c "throttled"
    || str_eq c "overloaded"
    || str_eq c "transient"

abbrev pub blank_outcome : OutcomeKind → String → Bool → Outcome
blank_outcome kind summary host_deferred = record {
  kind = kind;
  summary = summary;
  memo = "";
  to = "owner";
  question = "";
  verdict = "";
  findings = [];
  raw = end;
  host_deferred = host_deferred;
}

-- `_host_failure`
abbrev pub failure_of : String → Assessment → Outcome
failure_of speaker a =
    blank_outcome OutcomeKind.fail
      (join "" (
        speaker
        ∷ " host session failed: "
        ∷ a.category
        ∷ (if str_eq a.diagnostic "" then "" else text_append " (" (text_append a.diagnostic ")"))
        ∷ []))
      (is_temporary a.category)

unfoldable pub host_failure : Role → Assessment → Outcome
host_failure role a = failure_of (role_name role) a

-- `_no_outcome`
abbrev pub unavailable : String → String → Outcome
unavailable speaker text =
    blank_outcome OutcomeKind.no_outcome (join "" (speaker ∷ " outcome unavailable: " ∷ text ∷ []))
      false

unfoldable pub no_outcome_for : Role → String → Outcome
no_outcome_for role text = unavailable (role_name role) text

-- The outcomes that acknowledge the inbox.
abbrev pub acknowledges : OutcomeKind → Bool
acknowledges OutcomeKind.done = true
acknowledges OutcomeKind.ask = true
acknowledges OutcomeKind.yielded = true
acknowledges _ = false

-- `_set_defer_until`
abbrev pub write_defer : ℕ → Option ℕ → Exec (Unit {0})
write_defer rid none = pure tt
write_defer rid (some t) =
    modify (update_runs (run_is rid) (λ r. record r { defer_until = some t }))

abbrev pub memo_or : String → String → String
memo_or new old = if str_eq new "" then old else new

-- The end of `run_turn`: the run, the inbox, the turn count and the memo.
unfoldable pub finish_turn : Agent → ℕ → List ℕ → Option ℕ → Outcome → Exec Outcome
unfolding end_run mark_delivered set_turns
finish_turn agent rid ids tokens outcome = do
  end_run rid outcome.kind outcome.summary tokens
  when (acknowledges outcome.kind) (mark_delivered ids)
  set_turns agent.id (agent.turns + (if outcome.host_deferred then 0 else 1))
      (memo_or outcome.memo agent.memo)
  pure outcome

-- The host failed after the agent wrote an outcome: the run keeps the outcome, nobody applies it.
unfoldable pub host_failed : Agent → ℕ → Option ℕ → Assessment → Outcome → Exec Outcome
unfolding end_run set_turns host_failure
host_failed agent rid tokens a outcome = do
  end_run rid outcome.kind outcome.summary tokens
  when (if is_temporary a.category then false else true)
      (set_turns agent.id (agent.turns + 1) agent.memo)
  pure (host_failure agent.role a)

unfoldable pub after_session : Agent → ℕ → List ℕ → SessionEnd → Exec Outcome
unfolding finish_turn host_failed host_failure no_outcome_for end_run
after_session agent rid ids (finished tokens a (read o)) = do
  write_defer rid a.reset_at
  if a.failed then host_failed agent rid tokens a o else finish_turn agent rid ids tokens o
after_session agent rid ids (finished tokens a (unreadable text)) = do
  write_defer rid a.reset_at
  let outcome = no_outcome_for agent.role text
  if a.failed && is_temporary a.category
      then (do end_run rid outcome.kind outcome.summary tokens; pure (host_failure agent.role a))
      else finish_turn agent rid ids tokens outcome
after_session agent rid ids (raised (some a) text) = do
  write_defer rid a.reset_at
  finish_turn agent rid ids none (host_failure agent.role a)
after_session agent rid ids (raised none text) =
    finish_turn agent rid ids none (no_outcome_for agent.role text)

unfoldable pub run_turn : Agent → String → SessionEnd → Exec Outcome
unfolding start_run after_session inbox
run_turn agent log_path session = do
  ids ← gets (λ db. map (λ m. m.id) (inbox agent.id true db))
  rid ← start_run agent.id agent.task_id agent.role agent.model log_path
  after_session agent rid ids session
