-- ===== src/Examples/AcpRuns.antt =====
-- A concrete ACP turn.
use neocortex.Json.{lookup}
use neocortex.Prelude.{any, find, all}
use neocortex.Acp.Projection.{prompt_fact}
use neocortex.Prelude.Int.{pos}
use neocortex.Prelude.{String, [], false, none, refl, some, true, ◌≡◌, ◌⊎◌}
use neocortex.Acp.Evidence.{Sizes}
use neocortex.Acp.Decoder.{PromptResult, ResultKind}
use neocortex.Acp.Client.{Policy}
use neocortex.Acp.Turn.Returned.{IsAgreed, returned_turn-IsAgreed}
use neocortex.Json.{Fields, Json, cons, dict, end, field, int, list, nil, str}
use neocortex.Acp.Turn.{Exchange, Progress, Server, TurnError, new_progress, replied, run_acp_turn}

abbrev calm_wait : Fields → Exchange
calm_wait result = record { incoming = []; ending = replied (field "result" (dict result) end) }

abbrev one_item : Json → Json
one_item v = list (cons v nil)

abbrev profile : Fields
profile = field "protocolVersion" (int (pos 1)) (
    field "_meta"
      (dict (
        field "jetbrains"
          (dict (
            field "air"
              (dict (
                field "version" (int (pos 1))
                  (field "capabilities" (one_item (str "sessionFailure")) end)))
              end))
          end))
      end)

abbrev option : String → String → Json
option id value = dict (
    field "id" (str id) (
      field "currentValue" (str value)
        (field "options" (one_item (dict (field "value" (str value) end))) end)))

abbrev snapshot : Fields
snapshot = field "sessionId" (str "s") (
    field "configOptions" (list (cons (option "model" "m") (cons (option "mode" "agent") nil))) end)

abbrev sample_server : Server
sample_server = record {
  initialize = calm_wait profile;
  session_new = calm_wait snapshot;
  set_model = calm_wait snapshot;
  set_mode = calm_wait snapshot;
  prompt = record {
    incoming = [];
    ending = replied (
        field "id" (int (pos 4))
          (field "result" (dict (field "stopReason" (str "end_turn") end)) end));
  };
  cancel = calm_wait end;
  close = calm_wait end;
  late_exit = none;
  shutdown_failure = none;
  cleanup_uncertain = false;
}

abbrev ordinary : Policy
ordinary = record {
  kind = "ordinary";
  cwd = "/srv/p";
  workspace_root = "/srv/p";
  public_web_search = false;
  network_access = false;
  absolute = true;
  directories = true;
}

abbrev turn_sizes : Sizes
turn_sizes = record { json_bytes = λ v. some 40; text_bytes = λ s. 9 }

abbrev same_text : String → String
same_text s = s

abbrev whole_turn : (TurnError ⊎ (PromptResult × Fields)) × Progress
whole_turn = run_acp_turn turn_sizes same_text 4 sample_server ordinary true "m" new_progress

abbrev turn_answer : PromptResult
turn_answer = record {
  kind = ResultKind.success;
  stop_reason = some "end_turn";
  diagnostic = none;
  failures = [];
  usage = none;
}

returned_turn-IsAgreed_example :
    IsAgreed turn_sizes same_text 4 sample_server ordinary true "m"
    × (whole_turn.1.denials.rejection ≡ none)
unfolding run_acp_turn lookup any find all
returned_turn-IsAgreed_example =
    returned_turn-IsAgreed turn_sizes same_text 4 sample_server ordinary true "m" new_progress
      whole_turn.1 (turn_answer, prompt_fact 4 "s" 0 false whole_turn.1.collector turn_answer) refl
