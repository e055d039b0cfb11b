-- ===== src/Acp/Evidence/Response.antt =====
-- nc/acp_client.py: `_TurnEvidenceCollector.prompt_response` and `_project_usage`.
use neocortex.Acp.Air.{bind_kept, bounded_text, fields_of, int_or_null}
use neocortex.Acp.Air.{project_air}
use neocortex.Prelude.Int.{pos}
use neocortex.Acp.Usage.{Usage, decode_usage}
use neocortex.Json.{lookup, Fields, Json, dict, end, field, get, int, str}
use neocortex.Prelude.{◌⊎◌, List, Option, String, [], inl, inr, none, some, ℕ, ◌++◌, ◌∷◌}
use neocortex.Acp.Evidence.{
  kept, overflowed, overflowed, kept, Sizes, Collects, and_then, add, refuse_marked, raw_failure,
  own_failure, with_usage,
}

abbrev pub cached_field : Option ℕ → List (String × Json)
cached_field none = []
cached_field (some n) = ("cachedInputTokens", int (pos n)) ∷ []

-- `_project_usage`, of a report that was decoded.
abbrev pub usage_json : Usage → Json
usage_json u = dict (
    fields_of (
      ("inputTokens", int (pos u.input_tokens))
      ∷ ("outputTokens", int (pos u.output_tokens))
      ∷ (cached_field u.cached_input_tokens ++ ("totalTokens", int (pos u.total_tokens)) ∷ [])))

abbrev pub text_or_null : Json → Json
text_or_null (str s) = str s
text_or_null _ = Json.null

abbrev pub stop_field : Option Json → List (String × Json)
stop_field none = []
stop_field (some v) = ("stopReason", text_or_null v) ∷ []

abbrev pub usage_field : Option Usage → List (String × Json)
usage_field none = []
usage_field (some u) = ("usage", usage_json u) ∷ []

abbrev pub air_field : Option Fields → List (String × Json)
air_field none = []
air_field (some air) =
    ("_meta", dict (field "jetbrains" (dict (field "air" (dict air) end)) end)) ∷ []

-- With the projection of the result, or the text of its overflow.
abbrev pub keep_result :
    Fields → String ⊎ Option Fields → Option Json → Collects (Option Json × List (String × Json))
keep_result fs (inl text) raw c =
    refuse_marked "AIR decoder projection exceeds local limit" text
      (with_usage (decode_usage (get "usage" fs)) c)
keep_result fs (inr air) raw c = (
  kept (
    raw,
    (
      "result",
      dict (
          fields_of (
            stop_field (lookup "stopReason" fs)
            ++ usage_field (decode_usage (get "usage" fs))
            ++ air_field air)),
    )
        ∷ [],
  ),
  with_usage (decode_usage (get "usage" fs)) c,
)

-- The terminal fields of a result, and the raw failure in it.
unfoldable pub take_result : Sizes → Fields → Collects (Option Json × List (String × Json))
unfolding raw_failure project_air decode_usage fields_of
take_result sizes fs =
    and_then (raw_failure sizes (dict fs)) (keep_result fs (project_air sizes.text_bytes (dict fs)))

abbrev pub result_part : Sizes → Option Json → Collects (Option Json × List (String × Json))
result_part sizes none c = (kept (none, []), c)
result_part sizes (some (dict fs)) c = take_result sizes fs c
result_part sizes (some _) c = (kept (none, ("result", Json.null) ∷ []), c)

abbrev pub max_error_bytes : ℕ
max_error_bytes = 4096

abbrev pub error_message : Sizes → Json → String ⊎ Json
error_message sizes (str s) = bounded_text sizes.text_bytes s max_error_bytes "JSON-RPC error"
error_message sizes _ = inr Json.null

-- The error of a response.
abbrev pub error_part : Sizes → Option Json → String ⊎ List (String × Json)
error_part sizes none = inr []
error_part sizes (some (dict fs)) = bind_kept (error_message sizes (get "message" fs)) (λ message.
    inr (
      (
        "error",
        dict (fields_of (("code", int_or_null (get "code" fs)) ∷ ("message", message) ∷ [])),
      )
      ∷ []))
error_part sizes (some _) = inr (("error", Json.null) ∷ [])

-- With the error, or the text of its overflow.
abbrev pub add_response :
    Sizes
    → Fields
    → String ⊎ List (String × Json)
    → Option Json × List (String × Json)
    → Collects (Unit {0})
add_response sizes fs (inl text) part c = (overflowed text, c)
add_response sizes fs (inr error) part c =
    add sizes (dict (fields_of (("id", get "id" fs) ∷ (part.1 ++ error))))
      (own_failure part.0 c.prompt_id) c

-- `prompt_response`
unfoldable pub prompt_response : Sizes → Json → Collects (Unit {0})
unfolding take_result add fields_of
prompt_response sizes (dict fs) =
    and_then (result_part sizes (lookup "result" fs))
      (add_response sizes fs (error_part sizes (lookup "error" fs)))
prompt_response sizes v = add sizes v none
