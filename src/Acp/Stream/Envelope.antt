-- ===== src/Acp/Stream/Envelope.antt =====
-- nc/acp_stream.py: `_valid_id`, `_validate_outbound_method_params` and `_validated`.
use neocortex.Acp.Stream.{StreamError, value_error}
use neocortex.Json.{Fields, Json, as_int, as_str, dict, get, has, int, is_str, list, lookup, str}
use neocortex.Prelude.{
  Bool, Option, String, false, if◌then◌else◌, is_some, none, some, str_eq, true, ◌||◌,
}

pub data Kind : Type 0 where
  request notification response : Kind

-- `AcpMessage`
pub record AcpMessage : Type 0 where
  pub kind : Kind
  pub value : Fields

-- What `_validated` gives: the message, or the text of an `AcpProtocolError`.
pub data Validated : Type 0 where
  valid : AcpMessage → Validated
  invalid : String → Validated

unfoldable pub valid_id : Json → Bool
valid_id (str s) = true
valid_id (int z) = true
valid_id _ = false

abbrev pub nonempty_text : Json → Bool
nonempty_text v = elim (as_str v) [ none ↦ false | some s ↦ if str_eq s "" then false else true ]

abbrev pub is_container : Json → Bool
is_container (dict fs) = true
is_container (list xs) = true
is_container _ = false

-- The texts of the two `ValueError`s; a method is text by its type.
unfoldable pub validate_outbound : String → Option Json → Option StreamError
validate_outbound method params =
    if str_eq method ""
    then some (value_error "method must be a nonempty string")
    else if elim params [ none ↦ false | some v ↦ if is_container v then false else true ]
    then some (value_error "params must be an object or array")
    else none

-- A key that is there holds an object or a list.
abbrev pub bad_params : Fields → Bool
bad_params fs = elim (lookup "params" fs) [
  | none ↦ false
  | some v ↦ if is_container v then false else true
]

unfoldable pub validated_call : Fields → Validated
unfolding valid_id
validated_call fs =
    if has "result" fs
      || has "error" fs
      || (if nonempty_text (get "method" fs) then false else true)
    then invalid "invalid JSON-RPC request envelope"
    else if bad_params fs
    then invalid "JSON-RPC params must be an object or array"
    else if has "id" fs
    then (if valid_id (get "id" fs)
        then valid (record { kind = request; value = fs })
        else invalid "JSON-RPC request id is invalid")
    else valid (record { kind = notification; value = fs })

-- The `error` of a response.
unfoldable pub error_problem : Json → Option String
error_problem (dict es) =
    if is_some (as_int (get "code" es))
    then (if is_some (as_str (get "message" es))
        then none
        else some "JSON-RPC error message is invalid")
    else some "JSON-RPC error object is invalid"
error_problem _ = some "JSON-RPC error object is invalid"

abbrev pub same : Bool → Bool → Bool
same a b = if a then b else (if b then false else true)

unfoldable pub validated_response : Fields → Validated
unfolding valid_id error_problem
validated_response fs =
    if (if has "id" fs then false else true)
      || same (has "result" fs) (has "error" fs)
      || (if valid_id (get "id" fs) then false else true)
    then invalid "invalid JSON-RPC response envelope"
    else elim (if has "error" fs then error_problem (get "error" fs) else none) [
      | some text ↦ invalid text
      | none ↦ valid (record { kind = response; value = fs })
    ]

unfoldable pub validated : Json → Validated
unfolding validated_call validated_response
validated (dict fs) =
    if is_str "2.0" (get "jsonrpc" fs)
    then (if has "method" fs then validated_call fs else validated_response fs)
    else invalid "JSON-RPC version must be exactly 2.0"
validated _ = invalid "JSON-RPC version must be exactly 2.0"
