-- ===== src/Adapters/Facts.antt =====
-- nc/adapters.py: what is asked of the facts about an ACP process and prompt, `_valid_acp_process`
-- and `_is_canonical_acp_terminal` with the policy for active failures.
use neocortex.Acp.Wire.{under}
use neocortex.Prelude.Int.{pos}
use neocortex.Acp.Contract.{is_air_session_failure, is_list, is_true, listed, same_request}
use neocortex.Adapters.Usage.{count_of, is_null}
use neocortex.Json.{Fields, Json, as_str, bool, get, has, int, is_str, items, list}
use neocortex.Prelude.{
  Bool, List, String, [], all, any, false, if◌then◌else◌, is_some, not, null, suc, true, ◌&&◌, ◌||◌,
  ◌∷◌,
}

abbrev pub is_bool : Json → Bool
is_bool (bool b) = true
is_bool _ = false

abbrev pub is_positive : Json → Bool
is_positive (int (pos (suc n))) = true
is_positive _ = false

abbrev pub is_known_phase : Json → Bool
is_known_phase v =
    is_str "cancel_response" v
    || is_str "session_close" v
    || is_str "term_grace" v
    || is_str "kill_grace" v

abbrev pub valid_phases : Json → Bool → Bool
valid_phases (list vs) timed_out = (timed_out || null (items vs)) && all is_known_phase (items vs)
valid_phases _ timed_out = false

-- The keys that `_valid_acp_process` requires.
abbrev pub has_process_keys : Fields → Bool
has_process_keys fs =
    all (λ key. has key fs)
      ("pid" ∷ "exit_code" ∷ "signal" ∷ "timed_out" ∷ "timeout_phases" ∷ "stderr_available"
        ∷ "supervisor_terminated" ∷ [])

-- `_valid_acp_process`
unfoldable pub valid_acp_process : Fields → Bool
unfolding items
valid_acp_process fs =
    has_process_keys fs
    && is_positive (get "pid" fs)
    && (is_null (get "exit_code" fs) || is_some (count_of (get "exit_code" fs)))
    && (is_null (get "signal" fs) || is_positive (get "signal" fs))
    && (is_bool (get "timed_out" fs)
        && is_bool (get "stderr_available" fs)
        && is_bool (get "supervisor_terminated" fs))
    && valid_phases (get "timeout_phases" fs) (is_true (get "timed_out" fs))

-- `_is_canonical_acp_terminal`
unfoldable pub is_canonical_terminal : Fields → Bool
is_canonical_terminal fs =
    is_true (get "prompt_response_valid" fs)
    && same_request fs
    && under (get "jsonrpc_result" fs) false (λ r. is_str "end_turn" (get "stopReason" r))
    && is_str "end_turn" (get "stop_reason" fs)
    && not (has "jsonrpc_error" fs)

abbrev pub is_error_record : Json → Bool
is_error_record v = under v false (λ fs. is_str "error" (get "severity" fs))

-- Active AIR records, all valid, of which one is an error.
abbrev pub active_air_errors : Json → Bool
active_air_errors v =
    is_list v
    && not (null (listed v))
    && all is_air_session_failure (listed v)
    && any is_error_record (listed v)

abbrev pub is_listed_action : Json → Bool
is_listed_action v = is_str "retry" v || is_str "new_session" v || is_str "login" v

-- The policy for one error: only a limit or a service failure with a retry is deferred.
abbrev pub air_category : Json → List Json → String
air_category category actions =
    if any (λ v. not (is_listed_action v)) actions
    then "unknown"
    else if is_str "limit" category && any (is_str "retry") actions
    then "throttled"
    else if is_str "service" category && any (is_str "retry") actions
    then "transient"
    else "unknown"

abbrev pub is_known_shape : Fields → Bool
is_known_shape fs = is_some (as_str (get "category" fs)) && is_list (get "actions" fs)
