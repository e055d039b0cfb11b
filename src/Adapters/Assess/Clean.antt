-- ===== src/Adapters/Assess/Clean.antt =====
-- nc/adapters.py: which sessions `assess_session` calls a success.
use neocortex.Session.{Assessment}
use neocortex.Acp.Wire.{under}
use neocortex.Prelude.Int.{negsuc, ℤ, pos}
use neocortex.Adapters.Usage.{is_null}
use neocortex.Acp.Contract.{
  is_air_session_failure, is_list, listed, same_request, is_completion_candidate,
  is_effective_completion, is_true,
}
use neocortex.Adapters.Assess.{
  assess_legacy, assess_session, assess_acp, assess_exit, assess_facts, assess_signal,
  find_terminal, failed_with, succeeded, Platform, SessionResult, assess_air_failures,
  assess_prompt, completes, is_kind,
}
use neocortex.Adapters.Facts.{active_air_errors, is_canonical_terminal, valid_acp_process}
use neocortex.Json.{dict, Json, has, is_str, Fields, get, int_eq}
use neocortex.Prelude.{
  Option, Option-cases, String, ap, is_some, none, some, str_eq, ℕ, ◌==◌, ◌∙◌, List, [], ◌||◌, ◌∷◌,
  all, if◌then◌else◌, null, refl, Bool, Bool-cases, arith, false, inl, inr, not, true, ◌&&◌, ◌≡◌,
}

-- A process that ended by itself with code 0, in time and with its descendants contained.
abbrev pub is_clean_process : SessionResult → Fields → Bool
is_clean_process r process =
    valid_acp_process process
    && not r.acp_cleanup_uncertain
    && not (is_true (get "timed_out" process))
    && is_null (get "signal" process)
    && int_eq (pos 0) (get "exit_code" process)

-- A prompt that the contract takes for completed.
abbrev pub is_clean_prompt : Platform → SessionResult → Fields → Bool
is_clean_prompt host r prompt =
    is_kind host "success" r.acp_result_kind
    && completes host true r.completion
    && is_completion_candidate prompt

canonical_of :
    (seen kept agrees answered ended error known stopped idle : Bool)
    → (seen
        && kept
        && agrees
        && answered
        && ended
        && (if error then false else true)
        && known
        && (stopped && idle))
      ≡ true
    → (answered && agrees && ended && stopped && not error ≡ true) × (idle ≡ true)
canonical_of seen kept agrees answered ended error known stopped idle h = ground arith

candidate_canonical :
    (prompt : Fields)
    → is_completion_candidate prompt ≡ true
    → (is_canonical_terminal prompt ≡ true) × (null (listed (get "session_failures" prompt)) ≡ true)
unfolding is_completion_candidate is_canonical_terminal is_effective_completion
candidate_canonical prompt h =
    canonical_of (is_list (get "air_observations" prompt)) (is_list (get "session_failures" prompt))
      (same_request prompt) (is_true (get "prompt_response_valid" prompt))
      (under (get "jsonrpc_result" prompt) false (λ r. is_str "end_turn" (get "stopReason" r)))
      (has "jsonrpc_error" prompt)
      (all is_air_session_failure (listed (get "session_failures" prompt)))
      (is_str "end_turn" (get "stop_reason" prompt)) (null (listed (get "session_failures" prompt)))
      h

idle_failures : (v : Json) → null (listed v) ≡ true → active_air_errors v ≡ false
idle_failures v h = ground (arith, h)

air_failed :
    (host : Platform) (prompt : Fields) (vs : List Json)
    → (assess_air_failures host prompt vs).failed ≡ true
unfolding assess_air_failures
air_failed host prompt [] = ground arith
air_failed host prompt (v ∷ w ∷ vs) = ground arith
air_failed host prompt (dict fs ∷ []) = ground arith
air_failed host prompt (v ∷ []) = ground arith

-- The order of the tests of a prompt.
prompt_tests :
    (canonical won whole lost broken active candidate : Bool) (air : Assessment)
    → air.failed ≡ true
    → (not candidate || canonical ≡ true)
    → (candidate && active ≡ false)
    → (if not (canonical && ((won && whole) || (lost && broken && active)))
        then failed_with "protocol" "ACP prompt did not complete canonically"
        else if active
        then air
        else if not candidate
        then failed_with "protocol" "ACP prompt did not complete canonically"
        else succeeded).failed
      ≡ not (won && whole && candidate)
prompt_tests canonical won whole lost broken active candidate air h c a = ground arith

prompt_lem :
    (host : Platform) (r : SessionResult) (prompt : Fields)
    → (assess_prompt host r prompt).failed ≡ not (is_clean_prompt host r prompt)
unfolding assess_prompt
prompt_lem host r prompt =
    let k = is_completion_candidate prompt in
    let v = get "session_failures" prompt in
    let (c, a) : (not k || is_canonical_terminal prompt ≡ true)
        × (k && active_air_errors v ≡ false) =
      elim (Bool-cases k) [
        | inl fits ↦
            let (canonical, idle) = candidate_canonical prompt fits in
            (rw (fits, canonical) refl, rw (fits, idle_failures v idle) refl)
        | inr other ↦ (rw other refl, rw other refl)
      ] in
    prompt_tests (is_canonical_terminal prompt) (is_kind host "success" r.acp_result_kind)
      (completes host true r.completion) (is_kind host "failed" r.acp_result_kind)
      (completes host false r.completion) (active_air_errors v) k
      (assess_air_failures host prompt (listed v)) (air_failed host prompt (listed v)) c a

-- The order of the tests of a process.
process_tests :
    (sound uncertain late still zero_exit : Bool) (signalled prompt : Assessment)
    → signalled.failed ≡ true
    → (if not sound
        then failed_with "protocol" "ACP process evidence is incomplete"
        else if uncertain
        then failed_with "local_error" "ACP cleanup containment is uncertain"
        else if late
        then failed_with "host_timeout" "ACP host deadline expired"
        else if not still
        then signalled
        else if not zero_exit
        then failed_with "local_error" "ACP process did not exit successfully"
        else prompt).failed
      ≡ not (sound && not uncertain && not late && still && zero_exit) || prompt.failed
process_tests sound uncertain late still zero_exit signalled prompt h = ground arith

signal_failed : (host : Platform) (process : Fields) → (assess_signal host process).failed ≡ true
signal_failed host process = ground arith

not_both : (a b : Bool) → not a || not b ≡ not (a && b)
not_both a b = ground arith

-- The host's own evidence of one session, and what a correct assessment makes of it.
abbrev pub is_clean_acp : Platform → SessionResult → Bool
is_clean_acp host r = elim r.acp_process [
  | none ↦ false
  | some process ↦ elim r.acp_prompt [
    | none ↦ false
    | some prompt ↦ is_clean_process r process && is_clean_prompt host r prompt
  ]
]

facts_lem :
    (host : Platform) (r : SessionResult) (process prompt : Fields)
    → (assess_facts host r process prompt).failed
      ≡ not (is_clean_process r process && is_clean_prompt host r prompt)
unfolding assess_facts
facts_lem host r process prompt =
    process_tests (valid_acp_process process) r.acp_cleanup_uncertain
      (is_true (get "timed_out" process)) (is_null (get "signal" process))
      (int_eq (pos 0) (get "exit_code" process)) (assess_signal host process)
      (assess_prompt host r prompt) (signal_failed host process)
    ∙ ap (λ b. not (is_clean_process r process) || b) (prompt_lem host r prompt)
    ∙ not_both (is_clean_process r process) (is_clean_prompt host r prompt)

acp_split :
    (host : Platform) (r : SessionResult) (o p : Option Fields)
    → r.acp_process ≡ o
    → r.acp_prompt ≡ p
    → (assess_acp host r).failed ≡ not (is_clean_acp host r)
unfolding assess_acp
acp_split host r none p e f = rw e refl
acp_split host r (some process) none e f = rw (e, f) refl
acp_split host r (some process) (some prompt) e f = rw (e, f) (facts_lem host r process prompt)

abbrev pub is_zero : ℤ → Bool
is_zero (pos n) = n == 0
is_zero (negsuc n) = false

-- A CLI that exited with code 0 in time, with no failure reported by the adapter or in the log's end.
abbrev pub is_clean_cli : Platform → String → SessionResult → Bool
is_clean_cli host adapter r =
    not r.timed_out
    && is_zero r.exit_code
    && str_eq r.terminal_category ""
    && not (is_some (find_terminal host adapter r.log))

exit_lem :
    (host : Platform) (adapter : String) (r : SessionResult) (code : ℕ)
    → (assess_exit host adapter r code).failed
      ≡ not (
          code == 0
          && str_eq r.terminal_category ""
          && not (is_some (find_terminal host adapter r.log)))
unfolding assess_exit
exit_lem host adapter r code = elim (Option-cases (find_terminal host adapter r.log)) [
  | inl e ↦ ground (arith, e)
  | inr (found, e) ↦ ground (arith, e)
]

cli_lem :
    (host : Platform) (adapter : String) (r : SessionResult) (late : Bool) (z : ℤ)
    → r.timed_out ≡ late
    → r.exit_code ≡ z
    → (assess_legacy host adapter r).failed ≡ not (is_clean_cli host adapter r)
unfolding assess_legacy
cli_lem host adapter r true z e f = rw e refl
cli_lem host adapter r false (negsuc n) e f = rw (e, f) refl
cli_lem host adapter r false (pos n) e f = rw (e, f) (exit_lem host adapter r n)

-- By the transport.
abbrev pub is_clean_session : Platform → String → SessionResult → Bool
is_clean_session host adapter r =
    if str_eq r.transport "acp" then is_clean_acp host r else is_clean_cli host adapter r

-- A session fails its assessment exactly when it is not clean. A clean ACP session has complete
-- evidence of a process that ended by itself with code 0, in time and contained, and a successful
-- prompt that is a completion candidate; a clean CLI session exited with code 0 in time with no
-- failure reported by the adapter or by the last event of its log.
pub assess_session-IsFailed :
    (host : Platform) (adapter : String) (r : SessionResult)
    → (assess_session host adapter r).failed ≡ not (is_clean_session host adapter r)
unfolding assess_session
assess_session-IsFailed host adapter r = elim (Bool-cases (str_eq r.transport "acp")) [
  | inl acp ↦ rw acp (acp_split host r r.acp_process r.acp_prompt refl refl)
  | inr cli ↦ rw cli (cli_lem host adapter r r.timed_out r.exit_code refl refl)
]
