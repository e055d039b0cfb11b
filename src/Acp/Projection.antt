-- ===== src/Acp/Projection.antt =====
-- nc/acp_client.py: `project_prompt_response`, from the prompt's response to the result of the turn
-- and the fact about the prompt that the host keeps.
pub mod Success
use neocortex.Prelude.Int.{pos}
use neocortex.Acp.Wire.{is_response, session_update, under}
use neocortex.Acp.Air.{air_of, fields_of, raw_air_failure}
use neocortex.Acp.Usage.{Usage}
use neocortex.Json.{
  Fields, Items, Json, bool, cons, dict, end, field, get, int, int_eq, is_str, list, nil, str,
}
use neocortex.Acp.Failure.{Evidence, Severity, error, warning}
use neocortex.Acp.Decoder.{
  is_warning, crashed, Decoded, PromptResult, ResultKind, decode_prompt_result, decoded,
}
use neocortex.Acp.Evidence.{Collector, Sizes, kept, overflowed, update_record}
use neocortex.Acp.Evidence.Response.{prompt_response, usage_field, usage_json}
use neocortex.Prelude.{
  Bool, List, Option, String, [], all, any, decimal, false, if◌then◌else◌, is_some, keep, map, none,
  not, null, some, str_eq, true, ℕ, ◌&&◌, ◌++◌, ◌||◌, ◌∷◌,
}

-- What the projection gives, or how it raises: an overflow of the evidence, or a decoder that does.
pub data Projected : Type 0 where
  projected : PromptResult → Fields → Projected
  lost : String → Projected
  stopped : Projected

abbrev pub items_of : List Json → Items
items_of [] = nil
items_of (v ∷ vs) = cons v (items_of vs)

-- `dict(item, key=value)` on a key that is there.
unfoldable pub set_field : String → Json → Fields → Fields
set_field k v end = end
set_field k v (field j w fs) = if str_eq j k then field j v fs else field j w (set_field k v fs)

-- The textual identity that the decoder correlates by.
abbrev pub renamed : ℕ → Json → Json
renamed prompt (dict fs) =
    if int_eq (pos prompt) (get "id" fs)
    then dict (set_field "id" (str (decimal prompt)) fs)
    else dict fs
renamed prompt v = v

abbrev pub usage_update : String → Usage → Json
usage_update session u =
    update_record session
      (field "sessionUpdate" (str "usage_update") (field "usage" (usage_json u) end))

-- Before the first response of the prompt, or at the end.
unfoldable pub insert_before : (Json → Bool) → Json → List Json → List Json
insert_before test u [] = u ∷ []
insert_before test u (v ∷ vs) =
    let rest = insert_before test u vs in if test v then u ∷ v ∷ vs else v ∷ rest

unfoldable pub decoder_wire : ℕ → String → Collector → List Json
unfolding insert_before set_field decimal int_eq
decoder_wire prompt session c =
    let wire = map (renamed prompt) c.records in
    elim c.usage [
      | none ↦ wire
      | some u ↦ insert_before (is_response (decimal prompt)) (usage_update session u) wire
    ]

-- Records were projected when they were added, so their texts are within the limits.
abbrev pub is_air_update : Json → Bool
is_air_update v = under v false λ fs.
    is_str "session/update" (get "method" fs)
    && under (get "params" fs) false (λ ps. is_some (air_of (get "update" ps)))

abbrev pub is_progress : String → Json → Bool
is_progress session v = elim (session_update session v) [
  | none ↦ false
  | some u ↦ under u false (λ fs. is_str "agent_message_chunk" (get "sessionUpdate" fs))
]

-- Whether progress follows the last AIR update.
unfoldable pub progress_after : String → List Json → Bool
progress_after session [] = false
progress_after session (v ∷ vs) =
    let rest = progress_after session vs in
    if any is_air_update vs
    then rest
    else (if is_air_update v then any (is_progress session) vs else is_progress session v || rest)

-- A warning whose category and actions the client knows.
abbrev pub is_known_warning : Evidence → Bool
is_known_warning e = is_warning e && not (is_some e.unknown_category) && null e.unknown_actions

abbrev pub is_success : ResultKind → Bool
is_success ResultKind.success = true
is_success _ = false

abbrev pub stops_with : String → Option String → Bool
stops_with text none = false
stops_with text (some s) = str_eq s text

-- Warnings that the rest of the turn has overcome.
unfoldable pub has_recovered : String → Json → Collector → PromptResult → Bool
unfolding progress_after raw_air_failure
has_recovered session response c r =
    is_success r.kind
    && (not (null r.failures) && all is_known_warning r.failures)
    && not (is_some (raw_air_failure (under response Json.null (get "result"))))
    && (progress_after session c.records || stops_with "end_turn" r.stop_reason)

abbrev pub severity_name : Severity → String
severity_name warning = "warning"
severity_name error = "error"

abbrev pub details_field : Option String → List (String × Json)
details_field none = []
details_field (some s) = ("details", str s) ∷ []

abbrev pub failure_json : Evidence → Json
failure_json e = dict (
    fields_of (
      ("id", str e.incident_id)
      ∷ ("revision", int (pos e.revision))
      ∷ ("category", str e.category)
      ∷ ("severity", str (severity_name e.severity))
      ∷ ("title", str e.title)
      ∷ ("actions", list (items_of (map str e.actions)))
      ∷ details_field e.details))

-- The failures that are still active for the host.
abbrev pub active_failures : Bool → PromptResult → List Evidence
active_failures recovered r =
    keep (λ e. not (is_success r.kind && recovered && is_warning e)) r.failures

abbrev pub is_valid_kind : ResultKind → Bool
is_valid_kind ResultKind.protocol_invalid = false
is_valid_kind _ = true

abbrev pub stop_json : Option String → Json
stop_json none = Json.null
stop_json (some s) = str s

-- A dict of the retained response, under the name it has in the fact.
abbrev pub retained_field : String → Json → List (String × Json)
retained_field name (dict fs) = (name, dict fs) ∷ []
retained_field name v = []

abbrev pub last_record : List Json → Json
last_record [] = Json.null
last_record (v ∷ []) = v
last_record (v ∷ w ∷ vs) = last_record (w ∷ vs)

abbrev pub retained : Collector → String → Json
retained c key = under (last_record c.records) Json.null (get key)

unfoldable pub prompt_fact : ℕ → String → ℕ → Bool → Collector → PromptResult → Fields
unfolding fields_of decimal
prompt_fact prompt session cancelled recovered c r = fields_of (
    ("request_id", str (decimal prompt))
    ∷ ("session_id", str session)
    ∷ ("prompt_id", str (decimal prompt))
    ∷ ("prompt_response_valid", bool (is_valid_kind r.kind))
    ∷ ("stop_reason", stop_json r.stop_reason)
    ∷ ("air_observations", list (items_of c.air_observations))
    ∷ ("cancelled_permission_requests", int (pos cancelled))
    ∷ ("session_failures", list (items_of (map failure_json (active_failures recovered r))))
    ∷ (retained_field "jsonrpc_result" (retained c "result")
        ++ retained_field "jsonrpc_error" (retained c "error")
        ++ usage_field c.usage))

-- A success with active failures is a failure of the session.
abbrev pub turn_result : Bool → PromptResult → PromptResult
turn_result recovered r =
    if is_success r.kind && not (null r.failures) && not recovered
    then record {
      kind = ResultKind.failed;
      stop_reason = r.stop_reason;
      diagnostic = some "ACP reported session failure";
      failures = r.failures;
      usage = r.usage;
    }
    else r

abbrev pub conclude_turn : ℕ → String → ℕ → Json → Collector → Decoded → Projected
conclude_turn prompt session cancelled response c crashed = stopped
conclude_turn prompt session cancelled response c (decoded r) =
    let recovered = has_recovered session response c r in
    projected (turn_result recovered r) (prompt_fact prompt session cancelled recovered c r)

-- `sanitize` is the redaction of the decoder's diagnostics.
unfoldable pub project_prompt_response :
    Sizes → (String → String) → ℕ → String → ℕ → Json → Collector → Projected × Collector
unfolding prompt_response decoder_wire decode_prompt_result has_recovered prompt_fact
project_prompt_response sizes sanitize prompt session cancelled response c =
    let (r, c') = prompt_response sizes response c in
    elim r [
      | overflowed text ↦ (lost text, c')
      | kept _ ↦ (
        conclude_turn prompt session cancelled response c' (
            decode_prompt_result sanitize (decoder_wire prompt session c') (decimal prompt) session
              (int (pos 1))),
        c',
      )
    ]
