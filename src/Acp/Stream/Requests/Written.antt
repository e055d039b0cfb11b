-- ===== src/Acp/Stream/Requests/Written.antt =====
-- nc/acp_stream.py: the envelopes that the connection writes, under the checks of `_validated`.
use neocortex.Acp.Stream.Requests.{
  answer_by, handled_answer, closed_answer, error_object, response_message, answer, request_message,
}
use neocortex.Acp.Stream.{Settings}
use neocortex.Prelude.{Bool-cases, inl, inr, arith, true, Option, String, none, some, ℕ, ◌≡◌}
use neocortex.Acp.Stream.Envelope.{
  error_problem, valid_id, validated_response, Validated, Kind, valid, validate_outbound, validated,
  validated_call,
}
use neocortex.Json.{is_str, get, Fields, Json, dict, end, lookup}

abbrev accepted : Kind → Fields → Validated
accepted k fs = valid (record { kind = k; value = fs })

abbrev as_fields : Json → Fields
as_fields (dict fs) = fs
as_fields _ = end

-- A request with a valid method and parameters passes the peer's checks as a request.
pub validated-request_message :
    (n : ℕ) (method : String) (params : Option Json)
    → validate_outbound method params ≡ none
    → validated (request_message n method params)
      ≡ accepted Kind.request (as_fields (request_message n method params))
unfolding request_message validate_outbound validated validated_call lookup
validated-request_message n method none e = ground arith
validated-request_message n method (some v) e = ground arith

valid_id_of :
    (fs : Fields) → validated (dict fs) ≡ accepted Kind.request fs → valid_id (get "id" fs) ≡ true
unfolding validated validated_call validated_response
valid_id_of fs e = ground arith

-- The peer reads the value as a response.
abbrev IsResponse : Json → Type 0
IsResponse v = validated v ≡ accepted Kind.response (as_fields v)

result-IsResponse : (id v : Json) → valid_id id ≡ true → IsResponse (response_message id "result" v)
unfolding validated validated_response lookup
result-IsResponse id v e = ground (arith, e)

error-IsResponse :
    (id : Json) (n : ℕ) (text : String)
    → valid_id id ≡ true
    → IsResponse (response_message id "error" (error_object n text))
unfolding validated validated_response error_problem lookup
error-IsResponse id n text e = ground (arith, e)

closed_answer-IsResponse :
    (id method : Json) → valid_id id ≡ true → IsResponse (closed_answer id method)
unfolding closed_answer
closed_answer-IsResponse id method e =
    elim (Bool-cases (is_str "session/request_permission" method)) [
      | inl h ↦ rw h (result-IsResponse id _ e)
      | inr h ↦ elim (Bool-cases (is_str "elicitation/create" method)) [
        | inl k ↦ rw (h, k) (result-IsResponse id _ e)
        | inr k ↦ rw (h, k) (error-IsResponse id _ _ e)
      ]
    ]

handled-IsResponse :
    (id : Json) (o : Option Json) → valid_id id ≡ true → IsResponse (handled_answer id o)
unfolding handled_answer
handled-IsResponse id none e = error-IsResponse id _ _ e
handled-IsResponse id (some v) e = result-IsResponse id v e

answer_by-IsResponse :
    (h : Option (Fields → Option Json)) (fs : Fields)
    → valid_id (get "id" fs) ≡ true
    → IsResponse (answer_by h fs)
unfolding answer_by
answer_by-IsResponse none fs e = closed_answer-IsResponse (get "id" fs) (get "method" fs) e
answer_by-IsResponse (some f) fs e = handled-IsResponse (get "id" fs) (f fs) e

-- The answer to a message that was read as a request passes the peer's checks as a response, whether
-- a handler gives it, the handler fails, or there is no handler.
pub answer-IsResponse :
    (s : Settings) (fs : Fields)
    → validated (dict fs) ≡ accepted Kind.request fs
    → validated (answer s fs) ≡ accepted Kind.response (as_fields (answer s fs))
unfolding answer
answer-IsResponse s fs e = answer_by-IsResponse s.request_handler fs (valid_id_of fs e)
