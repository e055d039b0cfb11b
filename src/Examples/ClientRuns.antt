-- ===== src/Examples/ClientRuns.antt =====
-- Concrete sessions of an adapter, their assessment and the evidence of an ACP turn.
use neocortex.Adapters.Sessions.Judged.{is_clean_turn, session_result-IsFailed}
use neocortex.Examples.Sample.{sample_db, sample_outcome, sample_worker, sample_world}
use neocortex.Session.Assessed.{returned_session, unclean_session_inert}
use neocortex.Session.{acknowledges, host_failure, read, run_turn}
use neocortex.Adapters.Sessions.{Turn, returned, session_result}
use neocortex.State.Tables.{OutcomeKind, Role}
use neocortex.Json.{lookup, strings}
use neocortex.Prelude.{any, find, all}
use neocortex.Acp.Projection.{project_prompt_response, prompt_fact}
use neocortex.Prelude.Int.{pos}
use neocortex.Acp.Projection.Success.{is_effective_fact, projected_success}
use neocortex.Adapters.Assess.Clean.{assess_session-IsFailed, is_clean_session}
use neocortex.Prelude.{[], false, none, not, refl, some, true, ◌∷◌, ◌≡◌}
use neocortex.Adapters.Assess.Defers.{RetryEvidence, acp_deferral}
use neocortex.Protocol.{Python}
use neocortex.Acp.Decoder.{PromptResult, ResultKind}
use neocortex.Adapters.Assess.{Platform, SessionResult, assess_session}
use neocortex.Adapters.Terminal.{Patterns}
use neocortex.Acp.Evidence.Bounds.{IsBounded, answered, asked, on_events, on_events-IsBounded}
use neocortex.Json.{Fields, Json, bool, cons, dict, end, field, int, list, nil, str}
use neocortex.Acp.Evidence.{Collector, Sizes, empty_collector, prompt_request}
use neocortex.Acp.Evidence.Response.{prompt_response}

abbrev sample_python : Python
sample_python = record { str_value = λ v. "?"; upper = λ s. s; lower = λ s. s; repr = λ s. s }

abbrev no_patterns : Patterns
no_patterns = record {
  lower = λ s. s;
  usage_limit_hit = λ s. false;
  upgrade_to_pro = λ s. false;
  usage_settings = λ s. false;
  try_again_at = λ s. false;
  subscription_product = λ s. false;
  resettable_allowance = λ s. false;
  credits_exhausted = λ s. false;
}

abbrev sample_platform : Platform
sample_platform = record {
  python = sample_python;
  sanitize = λ s. s;
  loads = λ s. none;
  patterns = no_patterns;
  signal_name = λ n. none;
  defer_until = λ s. none;
}

abbrev sample_process : Fields
sample_process = field "pid" (int (pos 7)) (
    field "exit_code" (int (pos 0)) (
      field "signal" Json.null (
        field "timed_out" (bool false) (
          field "timeout_phases" (list nil) (
            field "stderr_available" (bool false)
              (field "supervisor_terminated" (bool false) end))))))

abbrev limit_failure : Json
limit_failure = dict (
    field "id" (str "4:1") (
      field "revision" (int (pos 1)) (
        field "category" (str "limit") (
          field "severity" (str "error") (
            field "title" (str "Slow down")
              (field "actions" (list (cons (str "retry") nil)) end))))))

abbrev limited_prompt : Fields
limited_prompt = field "request_id" (str "4") (
    field "session_id" (str "s") (
      field "prompt_id" (str "4") (
        field "prompt_response_valid" (bool true) (
          field "stop_reason" (str "end_turn") (
            field "session_failures" (list (cons limit_failure nil))
              (field "jsonrpc_result" (dict (field "stopReason" (str "end_turn") end)) end))))))

abbrev limited_session : SessionResult
limited_session = record {
  exit_code = pos 0;
  log = none;
  tokens = none;
  timed_out = false;
  terminal_category = "";
  terminal_diagnostic = "";
  transport = "acp";
  completion = some false;
  acp_result_kind = some "failed";
  acp_process = some sample_process;
  acp_prompt = some limited_prompt;
  acp_cleanup_uncertain = false;
}

assess_session-IsFailed_example :
    (assess_session sample_platform "codex" limited_session).failed
    ≡ not (is_clean_session sample_platform "codex" limited_session)
assess_session-IsFailed_example = assess_session-IsFailed sample_platform "codex" limited_session

acp_deferral_example : RetryEvidence limited_session
unfolding assess_session all lookup strings
acp_deferral_example = acp_deferral sample_platform "codex" limited_session refl refl

abbrev sample_sizes : Sizes
sample_sizes = record { json_bytes = λ v. some 40; text_bytes = λ s. 9 }

abbrev prompt_answer : Json
prompt_answer =
    dict (
      field "id" (int (pos 4))
        (field "result" (dict (field "stopReason" (str "end_turn") end)) end))

on_events-IsBounded_example :
    IsBounded sample_sizes (
      on_events sample_sizes
        (asked (str "2.0") 4 "s" ∷ answered prompt_answer ∷ [])
        empty_collector)
on_events-IsBounded_example =
    on_events-IsBounded sample_sizes (asked (str "2.0") 4 "s" ∷ answered prompt_answer ∷ [])

abbrev asking_collector : Collector
asking_collector = (prompt_request sample_sizes (str "2.0") 4 "s" empty_collector).1

abbrev sample_result : PromptResult
sample_result = record {
  kind = ResultKind.success;
  stop_reason = some "end_turn";
  diagnostic = none;
  failures = [];
  usage = none;
}

projected_success_example :
    is_effective_fact (
      prompt_fact 4 "s" 0 false
        (prompt_response sample_sizes prompt_answer asking_collector).1
        sample_result)
    ≡ true
unfolding project_prompt_response lookup prompt_request all
projected_success_example =
    projected_success sample_sizes (λ s. s) 4 "s" 0 prompt_answer asking_collector
      (prompt_response sample_sizes prompt_answer asking_collector).1 sample_result
      (prompt_fact 4 "s" 0 false (prompt_response sample_sizes prompt_answer asking_collector).1
        sample_result)
      refl refl

-- A turn with the right exit whose shutdown is not sure of the descendants.
abbrev leaky_turn : Turn
leaky_turn = record {
  kind = ResultKind.success;
  fact = limited_prompt;
  process = sample_process;
  shutdown = "containment uncertain";
}

session_result-IsFailed_example :
    (assess_session sample_platform "codex-acp"
      (session_result sample_platform none (returned leaky_turn))).failed
    ≡ not (is_clean_turn sample_platform (returned leaky_turn))
session_result-IsFailed_example =
    session_result-IsFailed sample_platform none "codex-acp" (returned leaky_turn)

unclean_session_inert_example :
    let w' =
      (run_turn sample_worker "log"
        (returned_session sample_platform "codex" limited_session
          (read (sample_outcome OutcomeKind.done "")))
        (sample_world 0)).1 in
    (acknowledges OutcomeKind.fail ≡ false) × (w'.db.messages ≡ sample_db.messages)
unfolding run_turn assess_session all lookup strings any find
unclean_session_inert_example =
    let s =
      returned_session sample_platform "codex" limited_session
        (read (sample_outcome OutcomeKind.done "")) in
    unclean_session_inert sample_worker "log" "codex" sample_platform limited_session
      (read (sample_outcome OutcomeKind.done "")) (sample_world 0)
      (run_turn sample_worker "log" s (sample_world 0)).1
      (host_failure Role.worker (assess_session sample_platform "codex" limited_session)) refl refl
