-- ===== src/Adapters/Sessions/Judged.antt =====
-- nc/adapters.py: the assessment of what `CodexAcpAdapter._run` returns.
use neocortex.Acp.Projection.{is_success}
use neocortex.Acp.Contract.{is_completion_candidate, is_true}
use neocortex.Adapters.Facts.{valid_acp_process}
use neocortex.Adapters.Usage.{is_null}
use neocortex.Json.{Fields, get, int_eq}
use neocortex.Prelude.Int.{pos}
use neocortex.Adapters.Assess.Clean.{assess_session-IsFailed, is_clean_process}
use neocortex.Adapters.Sessions.{
  dict_or, returned, TurnEnd, evidence_or, failed_result, failed_turn, kind_text, or_empty_dict,
  returned_result, session_result,
}
use neocortex.Acp.Decoder.{ResultKind}
use neocortex.Adapters.Assess.{Platform, assess_session, completes, is_kind}
use neocortex.Prelude.{
  Bool, List, Option, String, ap, arith, contains, false, not, refl, some, true, ◌&&◌, ◌∙◌, ◌≡◌,
}

-- What the shutdown of a turn says of the descendants of its process.
abbrev pub is_contained : Platform → String → Bool
is_contained host shutdown = not (contains "containment uncertain" (host.patterns.lower shutdown))

-- Evidence of a process that ended by itself with code 0 and in time.
abbrev pub has_clean_exit : Fields → Bool
has_clean_exit process =
    not (is_true (get "timed_out" process))
    && is_null (get "signal" process)
    && int_eq (pos 0) (get "exit_code" process)

-- A turn that returned a completed success, with the process and its cleanup as they should be.
abbrev pub is_clean_turn : Platform → TurnEnd → Bool
is_clean_turn host (failed_turn e process text) = false
is_clean_turn host (returned t) =
    valid_acp_process t.process
    && is_contained host t.shutdown
    && has_clean_exit t.process
    && is_success t.kind
    && is_completion_candidate t.fact

kinds :
    (host : Platform) (k : ResultKind) (candidate : Bool)
    → is_kind host "success" (some (kind_text k))
        && completes host true (some (is_success k && candidate))
        && candidate
      ≡ is_success k && candidate
kinds host ResultKind.success true = refl
kinds host ResultKind.success false = refl
kinds host ResultKind.failed candidate = refl
kinds host ResultKind.cancelled candidate = refl
kinds host ResultKind.protocol_invalid candidate = refl

and_false : (b : Bool) → b && false ≡ false
and_false true = refl
and_false false = refl

conjuncts :
    (a b c d e f g : Bool) → (a && b && c && d && e) && (f && g) ≡ a && b && (c && d && e) && f && g
conjuncts a b c d e f g = ground arith

-- An ACP session fails its assessment exactly when its turn is not clean. A turn that raised, with
-- whatever evidence, fails always; one that returned passes exactly when it was a success, its prompt
-- is a completion candidate, its process ended by itself with code 0 in time with complete evidence,
-- and its shutdown does not say that the containment is uncertain.
pub session_result-IsFailed :
    (host : Platform) (log : Option (List String)) (adapter : String) (e : TurnEnd)
    → (assess_session host adapter (session_result host log e)).failed ≡ not (is_clean_turn host e)
unfolding session_result
session_result-IsFailed host log adapter (failed_turn e process text) =
    let r = failed_result host log (evidence_or host log e) process text in
    assess_session-IsFailed host adapter r
    ∙ ap not (
        and_false
          (is_clean_process r (or_empty_dict (dict_or (evidence_or host log e).process process))))
session_result-IsFailed host log adapter (returned t) =
    assess_session-IsFailed host adapter (returned_result host log t)
    ∙ ap (λ b. not (is_clean_process (returned_result host log t) t.process && b))
        (kinds host t.kind (is_completion_candidate t.fact))
    ∙ ap not (
        conjuncts (valid_acp_process t.process) (is_contained host t.shutdown)
          (not (is_true (get "timed_out" t.process))) (is_null (get "signal" t.process))
          (int_eq (pos 0) (get "exit_code" t.process)) (is_success t.kind)
          (is_completion_candidate t.fact))
