-- ===== src/Examples/WireRuns.antt =====
-- An input of the theorem on the decoder: a request, a warning of the agent, and the response.
use neocortex.Prelude.Int.{pos}
use neocortex.Acp.Failure.{Evidence, Severity}
use neocortex.Prelude.{List, [], none, some, ◌∷◌}
use neocortex.Acp.Decoder.{PromptResult, ResultKind}
use neocortex.Json.{Json, dict, end, field, int, list, nil, str}

abbrev request_record : Json
request_record = dict (
    field "id" (str "r1") (
      field "method" (str "session/prompt")
        (field "params" (dict (field "sessionId" (str "s1") end)) end)))

abbrev response_record : Json
response_record =
    dict
      (field "id" (str "r1") (field "result" (dict (field "stopReason" (str "end_turn") end)) end))

abbrev slow_down : Json
slow_down = dict (
    field "id" (str "r1:1") (
      field "revision" (int (pos 1)) (
        field "category" (str "limit") (
          field "severity" (str "warning")
            (field "title" (str "Slow down") (field "actions" (list nil) end))))))

abbrev update_value : Json
update_value = dict (
    field "_meta"
      (dict (
        field "jetbrains"
          (dict (
            field "air"
              (dict (field "version" (int (pos 1)) (field "sessionFailure" slow_down end))) end))
          end))
      end)

abbrev update_record : Json
update_record = dict (
    field "method" (str "session/update")
      (field "params" (dict (field "sessionId" (str "s1") (field "update" update_value end))) end))

abbrev slow : Evidence
slow = record {
  incident_id = "r1:1";
  revision = 1;
  category = "limit";
  actions = [];
  severity = Severity.warning;
  title = "Slow down";
  details = none;
  diagnostic = "Slow down";
  unknown_category = none;
  unknown_actions = [];
}

abbrev successful : PromptResult
successful = record {
  kind = ResultKind.success;
  stop_reason = some "end_turn";
  diagnostic = none;
  failures = slow ∷ [];
  usage = none;
}

abbrev wire : List Json
wire = request_record ∷ update_record ∷ response_record ∷ []
