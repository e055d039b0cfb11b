-- ===== src/Acp/Contract.antt =====
-- nc/acp_contract.py: the validator of effective AIR records and the completion rule.
use neocortex.Acp.Wire.{under}
use neocortex.Acp.Failure.{as_incident_id, as_revision, known_category}
use neocortex.Json.{
  Fields, Json, as_str, as_strings, bool, dict, get, has, is_str, items, list, lookup,
}
use neocortex.Prelude.{
  Bool, List, Option, [], all, false, if◌then◌else◌, is_some, none, null, some, true, ◌&&◌, ◌||◌,
}

abbrev pub valid_severity : Json → Bool
valid_severity v = is_str "warning" v || is_str "error" v

abbrev pub valid_category : Json → Bool
valid_category v = elim (as_str v) [ none ↦ false | some c ↦ known_category c ]

-- `"details" not in value or isinstance(value["details"], str)`
abbrev pub valid_details : Option Json → Bool
valid_details none = true
valid_details (some v) = is_some (as_str v)

-- The required keys are read by `lookup`: a missing one fails its test.
abbrev pub passes : Option Json → (Json → Bool) → Bool
passes none p = false
passes (some v) p = p v

unfoldable pub is_air_session_failure : Json → Bool
is_air_session_failure (dict fs) =
    passes (lookup "id" fs) (λ v. is_some (as_incident_id v))
    && passes (lookup "revision" fs) (λ v. is_some (as_revision v))
    && passes (lookup "category" fs) valid_category
    && passes (lookup "severity" fs) valid_severity
    && passes (lookup "title" fs) (λ v. is_some (as_str v))
    && passes (lookup "actions" fs) (λ v. is_some (as_strings v))
    && valid_details (lookup "details" fs)
is_air_session_failure _ = false

-- `is_effective_completion`: no record is left, whatever its severity.
unfoldable pub is_effective_completion : Json → List Json → Bool
is_effective_completion stop severities = is_str "end_turn" stop && null severities

abbrev pub is_text : Json → Bool
is_text v = is_some (as_incident_id v)

-- Request, prompt and session are named, and request and prompt are the same.
abbrev pub same_request : Fields → Bool
same_request fs =
    is_text (get "request_id" fs)
    && is_text (get "prompt_id" fs)
    && is_text (get "session_id" fs)
    && (elim (as_str (get "prompt_id" fs)) [
      | none ↦ false
      | some p ↦ is_str p (get "request_id" fs)
    ])

abbrev pub is_true : Json → Bool
is_true (bool b) = b
is_true _ = false

abbrev pub is_list : Json → Bool
is_list (list xs) = true
is_list _ = false

abbrev pub listed : Json → List Json
listed (list xs) = items xs
listed _ = []

-- `is_completion_candidate`, on the fields of the prompt fact.
unfoldable pub is_completion_candidate : Fields → Bool
unfolding is_air_session_failure is_effective_completion items
is_completion_candidate fs =
    is_list (get "air_observations" fs)
    && is_list (get "session_failures" fs)
    && same_request fs
    && is_true (get "prompt_response_valid" fs)
    && under (get "jsonrpc_result" fs) false (λ r. is_str "end_turn" (get "stopReason" r))
    && (if has "jsonrpc_error" fs then false else true)
    && all is_air_session_failure (listed (get "session_failures" fs))
    && is_effective_completion (get "stop_reason" fs) (listed (get "session_failures" fs))
