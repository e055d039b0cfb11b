-- ===== src/Adapters/Sessions.antt =====
-- nc/adapters.py: `CodexAcpAdapter._run`, from the end of an ACP turn to the result of the session.
-- Writing the evidence file is not modelled.
use neocortex.Adapters.Usage.{acp_usage_total}
use neocortex.Adapters.Assess.{Platform, SessionResult}
use neocortex.Prelude.Int.{pos, ℤ}
use neocortex.Acp.Projection.{is_success}
use neocortex.Acp.Contract.{is_completion_candidate, is_true}
use neocortex.Acp.Decoder.{ResultKind}
use neocortex.Json.{Fields, Json, bool, dict, end, field, get, has, int}
use neocortex.Prelude.{
  Bool, List, Option, String, contains, false, if◌then◌else◌, none, null, some, str_eq, ◌&&◌,
}
pub mod Judged

-- `CodexAcpTurn`
pub record Turn : Type 0 where
  pub kind : ResultKind
  pub fact : Fields
  pub process : Fields
  pub shutdown : String

-- `AcpTurnEvidence`, on an exception.
pub record TurnEvidence : Type 0 where
  pub prompt : Option Fields
  pub usage : Json
  pub process : Option Fields
  pub shutdown : String
  pub cleanup_uncertain : Bool

-- The turn returned, or it raised: with evidence or without, with what the exception itself says of
-- the process, and with its text.
pub data TurnEnd : Type 0 where
  returned : Turn → TurnEnd
  failed_turn : Option TurnEvidence → Option Fields → String → TurnEnd

abbrev pub kind_text : ResultKind → String
kind_text ResultKind.success = "success"
kind_text ResultKind.failed = "failed"
kind_text ResultKind.cancelled = "cancelled"
kind_text ResultKind.protocol_invalid = "protocol_invalid"

-- `value if isinstance(value, dict) else None`
abbrev pub dict_or_null : Json → Json
dict_or_null (dict fs) = dict fs
dict_or_null _ = Json.null

-- `value or other` on dicts: an empty one is falsy.
abbrev pub dict_or : Option Fields → Option Fields → Option Fields
dict_or (some (field k v fs)) other = some (field k v fs)
dict_or _ other = other

abbrev pub or_empty_dict : Option Fields → Fields
or_empty_dict none = end
or_empty_dict (some fs) = fs

unfoldable pub append_field : String → Json → Fields → Fields
append_field k v end = field k v end
append_field k v (field j w fs) = field j w (append_field k v fs)

-- The usage of the evidence, or the one that the prompt's fact has.
abbrev pub usage_or : Json → Fields → Json
usage_or (dict fs) prompt = dict fs
usage_or _ prompt = dict_or_null (get "usage" prompt)

abbrev pub with_usage_field : Json → Fields → Fields
with_usage_field (dict fs) prompt =
    if has "usage" prompt then prompt else append_field "usage" (dict fs) prompt
with_usage_field _ prompt = prompt

-- `exit_code if isinstance(exit_code, int) else 1`; a bool is an int.
abbrev pub code_or_one : Json → ℤ
code_or_one (int z) = z
code_or_one (bool b) = if b then pos 1 else pos 0
code_or_one _ = pos 1

abbrev pub text_or : String → String → String
text_or s other = if str_eq s "" then other else s

module _ (host : Platform) (log : Option (List String)) where
  abbrev pub acp_result : Fields → Fields → Json → Bool → String → String → Bool → SessionResult
  acp_result process prompt usage completion kind shutdown uncertain = record {
    exit_code = code_or_one (get "exit_code" process);
    log = log;
    tokens = acp_usage_total usage;
    timed_out = is_true (get "timed_out" process);
    terminal_category = "";
    terminal_diagnostic = host.sanitize shutdown;
    transport = "acp";
    completion = some completion;
    acp_result_kind = some kind;
    acp_process = some process;
    acp_prompt = some prompt;
    acp_cleanup_uncertain = uncertain;
  }

  abbrev pub completes_turn : Turn → Bool
  completes_turn t = is_success t.kind && is_completion_candidate t.fact

  abbrev pub returned_result : Turn → SessionResult
  returned_result t =
      acp_result t.process t.fact (dict_or_null (get "usage" t.fact)) (completes_turn t)
        (kind_text t.kind) t.shutdown
        (contains "containment uncertain" (host.patterns.lower t.shutdown))

  abbrev pub no_evidence : TurnEvidence
  no_evidence = record {
    prompt = none;
    usage = Json.null;
    process = none;
    shutdown = "";
    cleanup_uncertain = false;
  }

  abbrev pub evidence_or : Option TurnEvidence → TurnEvidence
  evidence_or none = no_evidence
  evidence_or (some e) = e

  abbrev pub failed_result : TurnEvidence → Option Fields → String → SessionResult
  failed_result e process text =
      let prompt = or_empty_dict e.prompt in
      let usage = usage_or e.usage prompt in
      acp_result (or_empty_dict (dict_or e.process process)) (with_usage_field usage prompt) usage
        false "local_failure" (text_or e.shutdown text) e.cleanup_uncertain

  unfoldable pub session_result : TurnEnd → SessionResult
  unfolding is_completion_candidate acp_usage_total contains append_field
  session_result (returned t) = returned_result t
  session_result (failed_turn e process text) = failed_result (evidence_or e) process text
