-- ===== src/Adapters/Assess.antt =====
-- nc/adapters.py: `assess_session`, what the host makes of a session that returned.
pub mod Clean
pub mod Policy
pub mod Defers
use neocortex.Adapters.Facts.{
  valid_acp_process, is_canonical_terminal, active_air_errors, air_category, is_known_shape,
}
use neocortex.Acp.Wire.{under}
use neocortex.Prelude.Int.{negsuc, pos, ℤ}
use neocortex.Acp.Contract.{
  is_air_session_failure, is_completion_candidate, is_list, is_true, listed, same_request,
}
use neocortex.Adapters.Usage.{count_of, is_null}
use neocortex.Protocol.{Python, text_of}
use neocortex.Adapters.Terminal.{Patterns, fallback_terminal, structured_terminal}
use neocortex.Json.{Fields, Json, as_dict, as_str, bool, get, has, int, int_eq, is_str, items, list}
use neocortex.Prelude.{
  Bool, List, Option, String, [], all, any, decimal, false, if◌then◌else◌, is_some, join, none, not,
  null, some, str_eq, suc, text_append, true, ℕ, ◌&&◌, ◌==◌, ◌||◌, ◌∷◌,
}
use neocortex.Session.{Assessment}

-- `SessionResult`. `log` is the lines of the log's end, or `none` where it cannot be read.
pub record SessionResult : Type 0 where
  pub exit_code : ℤ
  pub log : Option (List String)
  pub tokens : Option ℕ
  pub timed_out : Bool
  pub terminal_category : String
  pub terminal_diagnostic : String
  pub transport : String
  pub completion : Option Bool
  pub acp_result_kind : Option String
  pub acp_process : Option Fields
  pub acp_prompt : Option Fields
  pub acp_cleanup_uncertain : Bool

-- What the assessment asks of Python and the operating system: `sanitize_diagnostic`, `json.loads`,
-- the regular expressions, the name of a signal, `_defer_until`.
pub record Platform : Type 0 where
  pub python : Python
  pub sanitize : String → String
  pub loads : String → Option Json
  pub patterns : Patterns
  pub signal_name : ℕ → Option String
  pub defer_until : String → Option ℕ

abbrev pub failed_with : String → String → Assessment
failed_with category diagnostic = record {
  failed = true;
  category = category;
  diagnostic = diagnostic;
  reset_at = none;
}

abbrev pub succeeded : Assessment
succeeded = record { failed = false; category = "none"; diagnostic = ""; reset_at = none }

-- `_TERMINAL_CATEGORIES`
abbrev pub is_terminal_category : String → Bool
is_terminal_category c = any (str_eq c) (
    "subscription_limit" ∷ "throttled" ∷ "overloaded" ∷ "transient" ∷ "authentication"
    ∷ "permission" ∷ "invalid_request" ∷ "billing_credits" ∷ "local_error" ∷ "host_timeout"
    ∷ "protocol" ∷ "unknown" ∷ [])

module _ (host : Platform) where
  abbrev pub air_text : Fields → String
  air_text fs = host.sanitize (
      join "" (
        "ACP AIR "
        ∷ text_of host.python (get "category" fs)
        ∷ " revision "
        ∷ text_of host.python (get "revision" fs)
        ∷ " actions="
        ∷ text_of host.python (get "actions" fs)
        ∷ ": "
        ∷ text_of host.python (get "title" fs)
        ∷ []))

  abbrev pub assess_air_record : Json → Assessment
  assess_air_record v = elim (as_dict v) [
    | none ↦ failed_with "unknown" "ACP active session failure is not an eligible error"
    | some fs ↦
        if not (is_str "error" (get "severity" fs))
        then failed_with "unknown" "ACP active session failure is not an eligible error"
        else if not (is_known_shape fs)
        then failed_with "unknown" "ACP AIR category or actions are unknown"
        else failed_with (air_category (get "category" fs) (listed (get "actions" fs)))
            (air_text fs)
  ]

  abbrev pub assess_single : List Json → Assessment
  assess_single (v ∷ []) = assess_air_record v
  assess_single _ = failed_with "unknown" "ACP has conflicting active session failures"

  -- `_assess_air_failures`
  unfoldable pub assess_air_failures : Fields → List Json → Assessment
  assess_air_failures prompt failures =
      if not (is_true (get "prompt_response_valid" prompt))
      then failed_with "protocol" "ACP prompt evidence is malformed"
      else assess_single failures

  abbrev pub is_kind : String → Option String → Bool
  is_kind name kind = elim kind [ none ↦ false | some k ↦ str_eq k name ]

  abbrev pub completes : Bool → Option Bool → Bool
  completes wanted none = false
  completes wanted (some b) = if wanted then b else not b

  -- The prompt ended as a success, or as a failure that active errors explain.
  abbrev pub ends_canonically : SessionResult → Fields → Bool
  ends_canonically r prompt =
      is_canonical_terminal prompt
      && ((is_kind "success" r.acp_result_kind && completes true r.completion)
          || (is_kind "failed" r.acp_result_kind
              && completes false r.completion
              && active_air_errors (get "session_failures" prompt)))

  -- Of a process that ended well.
  unfoldable pub assess_prompt : SessionResult → Fields → Assessment
  unfolding is_canonical_terminal assess_air_failures is_completion_candidate items
  assess_prompt r prompt =
      if not (ends_canonically r prompt)
      then failed_with "protocol" "ACP prompt did not complete canonically"
      else if active_air_errors (get "session_failures" prompt)
      then assess_air_failures prompt (listed (get "session_failures" prompt))
      else if not (is_completion_candidate prompt)
      then failed_with "protocol" "ACP prompt did not complete canonically"
      else succeeded

  abbrev pub assess_signal : Fields → Assessment
  assess_signal process =
      if is_true (get "supervisor_terminated" process)
      then failed_with "local_error" "ACP deliberately terminated by supervisor after response"
      else failed_with "local_error" (
          text_append "ACP process terminated unexpectedly by signal "
            (text_of host.python (get "signal" process)))

  unfoldable pub assess_facts : SessionResult → Fields → Fields → Assessment
  unfolding assess_prompt int_eq valid_acp_process
  assess_facts r process prompt =
      if not (valid_acp_process process)
      then failed_with "protocol" "ACP process evidence is incomplete"
      else if r.acp_cleanup_uncertain
      then failed_with "local_error" "ACP cleanup containment is uncertain"
      else if is_true (get "timed_out" process)
      then failed_with "host_timeout" "ACP host deadline expired"
      else if not (is_null (get "signal" process))
      then assess_signal process
      else if not (int_eq (pos 0) (get "exit_code" process))
      then failed_with "local_error" "ACP process did not exit successfully"
      else assess_prompt r prompt

  -- `_assess_acp`
  unfoldable pub assess_acp : SessionResult → Assessment
  unfolding assess_facts
  assess_acp r = elim r.acp_process [
    | none ↦ failed_with "protocol" "ACP completion evidence is absent"
    | some process ↦ elim r.acp_prompt [
      | none ↦ failed_with "protocol" "ACP completion evidence is absent"
      | some prompt ↦ assess_facts r process prompt
    ]
  ]

  abbrev pub signal_text : ℕ → String
  signal_text n = elim (host.signal_name n) [
    | some name ↦ name
    | none ↦ text_append "signal " (decimal n)
  ]

  abbrev pub killed_by : ℕ → Assessment
  killed_by n = failed_with "host_timeout" (
      host.sanitize (
        join ""
          ("host-killed process terminated by " ∷ signal_text n ∷ " (" ∷ decimal n ∷ ")" ∷ [])))

  abbrev pub find_terminal : String → Option (List String) → Option (String × String)
  find_terminal adapter none = none
  find_terminal adapter (some lines) =
      structured_terminal host.patterns host.sanitize host.loads adapter lines

  abbrev pub bad_exit : String → SessionResult → ℕ → Assessment
  bad_exit adapter r code =
      let found = fallback_terminal host.patterns host.sanitize host.loads adapter r.log in
      failed_with found.0
        (if str_eq found.1 "" then text_append "CLI exited " (decimal code) else found.1)

  -- The terminal event and the exit code of a process that no signal ended.
  unfoldable pub assess_exit : String → SessionResult → ℕ → Assessment
  unfolding structured_terminal fallback_terminal decimal
  assess_exit adapter r code =
      if not (str_eq r.terminal_category "")
      then failed_with
          (if is_terminal_category r.terminal_category then r.terminal_category else "unknown")
          (host.sanitize r.terminal_diagnostic)
      else (elim (find_terminal adapter r.log) [
        | some found ↦ failed_with found.0 found.1
        | none ↦ if code == 0 then succeeded else bad_exit adapter r code
      ])

  unfoldable pub assess_legacy : String → SessionResult → Assessment
  unfolding assess_exit
  assess_legacy adapter r =
      if r.timed_out
      then failed_with "host_timeout" "host timeout"
      else elim r.exit_code [ pos code ↦ assess_exit adapter r code | negsuc n ↦ killed_by (suc n) ]

  -- The reset time that `_record_host` takes from a diagnostic, but not from an ACP session's.
  abbrev pub with_reset : Assessment → Assessment
  with_reset a = record a { reset_at = host.defer_until a.diagnostic }

  unfoldable pub assess_session : String → SessionResult → Assessment
  unfolding assess_acp assess_legacy
  assess_session adapter r =
      if str_eq r.transport "acp" then assess_acp r else with_reset (assess_legacy adapter r)
