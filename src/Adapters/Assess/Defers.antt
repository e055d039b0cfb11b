-- ===== src/Adapters/Assess/Defers.antt =====
-- nc/adapters.py: which ACP sessions `assess_session` calls temporary, so that they are tried again.
use neocortex.Adapters.Assess.Policy.{is_retry_record, single_retry}
use neocortex.Protocol.{text_of}
use neocortex.Prelude.Int.{pos}
use neocortex.Adapters.Usage.{is_null}
use mathlib.Core.Path.{subst}
use neocortex.Acp.Contract.{is_completion_candidate, is_true, listed}
use neocortex.Session.{Assessment, is_temporary}
use neocortex.Adapters.Assess.Clean.{is_clean_process}
use neocortex.Adapters.Assess.{
  assess_acp, assess_facts, assess_legacy, assess_session, completes, is_kind, succeeded,
  with_reset, assess_air_failures, assess_prompt, assess_single, failed_with, Platform,
  SessionResult,
}
use neocortex.Adapters.Facts.{active_air_errors, valid_acp_process, is_canonical_terminal}
use neocortex.Json.{int_eq, Fields, get}
use neocortex.Prelude.{
  ◌⊎◌, Option, none, str_eq, text_append, String, arith, if◌then◌else◌, inl, inr, not, refl, Bool,
  [], false, null, some, true, ◌&&◌, ◌||◌, ◌∷◌, ◌≡◌,
}

abbrev pub is_retry_prompt : Fields → Bool
is_retry_prompt prompt = elim (listed (get "session_failures" prompt)) [
  | [] ↦ false
  | v ∷ vs ↦ null vs && is_retry_record v
]

-- What a temporary assessment rests on.
abbrev pub RetryEvidence : SessionResult → Type 0
RetryEvidence r =
    (process : Fields) × (prompt : Fields) × (r.acp_process ≡ some process)
    × (r.acp_prompt ≡ some prompt)
    × (is_clean_process r process ≡ true)
    × (is_canonical_terminal prompt ≡ true)
    × (is_retry_prompt prompt ≡ true)

-- Only active errors of a canonical prompt can be temporary.
prompt_table :
    (canonical ended active candidate : Bool) (air : Assessment)
    → is_temporary
        (if not (canonical && ended)
          then failed_with "protocol" "ACP prompt did not complete canonically"
          else if active
          then air
          else if not candidate
          then failed_with "protocol" "ACP prompt did not complete canonically"
          else succeeded).category
      ≡ true
    → (canonical ≡ true) × (is_temporary air.category ≡ true)
prompt_table false ended active candidate air h = cc
prompt_table true false active candidate air h = cc
prompt_table true true true candidate air h = (refl, h)
prompt_table true true false false air h = cc
prompt_table true true false true air h = cc

answered_retry :
    (answered : Bool) (air : Assessment)
    → is_temporary
        (if not answered
          then failed_with "protocol" "ACP prompt evidence is malformed"
          else air).category
      ≡ true
    → is_temporary air.category ≡ true
answered_retry true air h = h
answered_retry false air h = cc

prompt_retry :
    (host : Platform) (r : SessionResult) (prompt : Fields)
    → is_temporary (assess_prompt host r prompt).category ≡ true
    → (is_canonical_terminal prompt ≡ true) × (is_retry_prompt prompt ≡ true)
unfolding assess_prompt assess_air_failures
prompt_retry host r prompt h =
    let v = get "session_failures" prompt in
    let (canonical, later) =
      prompt_table (is_canonical_terminal prompt)
        ((is_kind host "success" r.acp_result_kind && completes host true r.completion)
          || (is_kind host "failed" r.acp_result_kind
              && completes host false r.completion
              && active_air_errors v))
        (active_air_errors v) (is_completion_candidate prompt)
        (assess_air_failures host prompt (listed v)) h in
    (
      canonical,
      single_retry host (listed v) (
          answered_retry (is_true (get "prompt_response_valid" prompt))
            (assess_single host (listed v)) later),
    )

process_table :
    (sound uncertain late still zero_exit supervised : Bool) (text : String) (prompt : Assessment)
    → is_temporary
        (if not sound
          then failed_with "protocol" "ACP process evidence is incomplete"
          else if uncertain
          then failed_with "local_error" "ACP cleanup containment is uncertain"
          else if late
          then failed_with "host_timeout" "ACP host deadline expired"
          else if not still
          then (if supervised
              then failed_with "local_error"
                  "ACP deliberately terminated by supervisor after response"
              else failed_with "local_error" text)
          else if not zero_exit
          then failed_with "local_error" "ACP process did not exit successfully"
          else prompt).category
      ≡ true
    → (sound && not uncertain && not late && still && zero_exit ≡ true)
      × (is_temporary prompt.category ≡ true)
process_table false uncertain late still zero_exit supervised text prompt h = cc
process_table true true late still zero_exit supervised text prompt h = cc
process_table true false true still zero_exit supervised text prompt h = cc
process_table true false false false zero_exit true text prompt h = cc
process_table true false false false zero_exit false text prompt h = cc
process_table true false false true false supervised text prompt h = cc
process_table true false false true true supervised text prompt h = (refl, h)

facts_retry :
    (host : Platform) (r : SessionResult) (process prompt : Fields)
    → is_temporary (assess_facts host r process prompt).category ≡ true
    → (is_clean_process r process ≡ true)
      × (is_canonical_terminal prompt ≡ true)
      × (is_retry_prompt prompt ≡ true)
unfolding assess_facts
facts_retry host r process prompt h =
    let (clean, later) =
      process_table (valid_acp_process process) r.acp_cleanup_uncertain
        (is_true (get "timed_out" process)) (is_null (get "signal" process))
        (int_eq (pos 0) (get "exit_code" process)) (is_true (get "supervisor_terminated" process))
        (text_append "ACP process terminated unexpectedly by signal "
          (text_of host.python (get "signal" process)))
        (assess_prompt host r prompt) h in
    let (canonical, retry) = prompt_retry host r prompt later in (clean, canonical, retry)

acp_of :
    (host : Platform) (r : SessionResult) (process prompt : Fields)
    → r.acp_process ≡ some process
    → r.acp_prompt ≡ some prompt
    → assess_acp host r ≡ assess_facts host r process prompt
unfolding assess_acp
acp_of host r process prompt e f = rw (e, f) refl

acp_absent :
    (host : Platform) (r : SessionResult) (o : Option Fields)
    → r.acp_process ≡ o
    → (o ≡ none) ⊎ (r.acp_prompt ≡ none)
    → assess_acp host r ≡ failed_with "protocol" "ACP completion evidence is absent"
unfolding assess_acp
acp_absent host r none e k = rw e refl
acp_absent host r (some process) e (inl k) = absurd (ground (arith, k))
acp_absent host r (some process) e (inr k) = rw (e, k) refl

not_protocol : ¬ (is_temporary "protocol" ≡ true)
not_protocol h = cc

not_absent :
    (a : Assessment)
    → a ≡ failed_with "protocol" "ACP completion evidence is absent"
    → ¬ (is_temporary a.category ≡ true)
not_absent a e h = not_protocol (subst (λ b. is_temporary b.category ≡ true) e h)

acp_retry :
    (host : Platform) (r : SessionResult) (o p : Option Fields)
    → r.acp_process ≡ o
    → r.acp_prompt ≡ p
    → is_temporary (assess_acp host r).category ≡ true
    → RetryEvidence r
unfolding assess_acp
acp_retry host r none p e f h =
    absurd (not_absent (assess_acp host r) (acp_absent host r none e (inl refl)) h)
acp_retry host r (some process) none e f h =
    absurd (not_absent (assess_acp host r) (acp_absent host r (some process) e (inr f)) h)
acp_retry host r (some process) (some prompt) e f h =
    let (clean, canonical, retry) =
      facts_retry host r process prompt
        (subst (λ a. is_temporary a.category ≡ true) (acp_of host r process prompt e f) h) in
    (process, prompt, e, f, clean, canonical, retry)

-- An ACP session is tried again on a timer only on one kind of evidence: a clean process whose prompt
-- ended canonically with exactly one active record, an error about a limit or a service, that lists
-- a retry and no action the policy does not know.
pub acp_deferral :
    (host : Platform) (adapter : String) (r : SessionResult)
    → str_eq r.transport "acp" ≡ true
    → is_temporary (assess_session host adapter r).category ≡ true
    → RetryEvidence r
unfolding assess_session
acp_deferral host adapter r acp h = acp_retry host r r.acp_process r.acp_prompt refl refl (
    subst
      (λ b.
        is_temporary
          (if b then assess_acp host r else with_reset host (assess_legacy host adapter r)).category
        ≡ true)
      acp h)
