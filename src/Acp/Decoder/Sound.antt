-- ===== src/Acp/Decoder/Sound.antt =====
-- nc/acp_decoder.py: what a decoded success means.
use neocortex.Acp.Wire.{between, notification_usage}
use neocortex.Acp.Usage.{Usage}
use neocortex.Json.{Fields, Json, dict}
use neocortex.Acp.Failure.{jsonrpc_error, Evidence}
use neocortex.Acp.Decoder.{
  PromptResult, crashed, Decoded, Effective, ResultKind, conclude, crash, decode_between,
  decode_failures, decode_prompt_result, decode_response, decode_result, decoded, defective,
  effective, error_result, invalid, is_warning, judge, reconcile_all, response_at, result_usage,
}
use neocortex.Prelude.{
  eq_iff, ap, sym, ◌∙◌, Bool, List, Option, String, [], all, arith, false, none, refl, some, str_eq,
  true, ℕ, ◌&&◌, ◌≡◌,
}

-- A success has the stop reason "end_turn" and no failure in effect beyond warnings.
abbrev pub is_sound : Decoded → Bool
is_sound crashed = true
is_sound (decoded r) = elim r.kind [
  | ResultKind.success ↦
      (elim r.stop_reason [ none ↦ false | some s ↦ str_eq s "end_turn" ])
      && all is_warning r.failures
  | _ ↦ true
]

conclude_sound :
    (stop : String) (failures : List Evidence) (usage : Option Usage)
    → is_sound (conclude stop failures usage) ≡ true
unfolding conclude
conclude_sound stop failures usage = ground arith

module _ (sanitize : String → String) where
  error_result_sound :
      (m : Option String) (usage : Option Usage) → is_sound (error_result sanitize m usage) ≡ true
  error_result_sound none usage = refl
  error_result_sound (some m) usage = refl

  judged :
      (stop : String) (usage : Option Usage) (e : Effective)
      → is_sound (elim e [
        | crash ↦ crashed
        | defective text seen ↦ invalid (some stop) text seen usage
        | effective failures ↦ conclude stop failures usage
      ])
        ≡ true
  judged stop usage crash = refl
  judged stop usage (defective text seen) = refl
  judged stop usage (effective failures) = conclude_sound stop failures usage

  judge_sound :
      (stop : String) (usage : Option Usage) (raws : List Json)
      → is_sound (judge sanitize stop usage raws) ≡ true
  unfolding judge
  judge_sound stop usage raws = judged stop usage (reconcile_all sanitize [] raws)

  decode_failures_sound :
      (rid sid stop : String) (result : Json) (updates : List Json) (usage : Option Usage)
      → is_sound (decode_failures sanitize rid sid stop result updates usage) ≡ true
  unfolding decode_failures
  decode_failures_sound rid sid stop result updates usage = ground (arith, judge_sound stop usage)

  decode_result_sound :
      (rid sid : String) (version result : Json) (updates : List Json) (usage : Option Usage)
      → is_sound (decode_result sanitize rid sid version result updates usage) ≡ true
  unfolding decode_result
  decode_result_sound rid sid version result updates usage = ground (
    arith,
    λ (fs : Fields) (stop : String).
        decode_failures_sound rid sid stop (dict fs) updates (result_usage sanitize fs usage),
  )

  decode_response_sound :
      (rid sid : String) (version : Json) (fs : Fields) (updates : List Json) (usage : Option Usage)
      → is_sound (decode_response sanitize rid sid version fs updates usage) ≡ true
  unfolding decode_response
  decode_response_sound rid sid version fs updates usage = ground (
    arith,
    λ (e : Json). error_result_sound (jsonrpc_error sanitize e) usage,
    λ (r : Json). decode_result_sound rid sid version r updates usage,
  )

  decode_between_sound :
      (rid sid : String) (version : Json) (wire : List Json) (start stop : ℕ)
      → is_sound (decode_between sanitize rid sid version wire start stop) ≡ true
  unfolding decode_between
  decode_between_sound rid sid version wire start stop = ground (
    arith,
    decode_response_sound rid sid version (response_at sanitize stop wire) (between start stop wire)
        (notification_usage sid none (between start stop wire)),
  )

  decode_prompt_result_sound :
      (wire : List Json) (rid sid : String) (version : Json)
      → is_sound (decode_prompt_result sanitize wire rid sid version) ≡ true
  unfolding decode_prompt_result
  decode_prompt_result_sound wire rid sid version =
      ground (arith, decode_between_sound rid sid version wire)

sound_success :
    (stop : Option String) (kind : ResultKind) (r : PromptResult)
    → r.kind ≡ kind
    → kind ≡ ResultKind.success
    → r.stop_reason ≡ stop
    → is_sound (decoded r) ≡ true
    → (stop ≡ some "end_turn") × (all is_warning r.failures ≡ true)
sound_success none ResultKind.success r e k s h = absurd (ground arith)
sound_success (some text) ResultKind.success r e k s h =
    let both : (str_eq text "end_turn" && all is_warning r.failures) ≡ true = ground arith in
    (ap some (ground (arith, eq_iff text "end_turn")), ground arith)
sound_success stop ResultKind.failed r e k s h = cc
sound_success stop ResultKind.cancelled r e k s h = cc
sound_success stop ResultKind.protocol_invalid r e k s h = cc

-- Whatever the wire holds, if the decoder returns a success, its stop reason is "end_turn" and every
-- failure in effect is a warning.
pub decoded_success :
    (sanitize : String → String) (wire : List Json) (rid sid : String) (version : Json)
    (r : PromptResult)
    → decode_prompt_result sanitize wire rid sid version ≡ decoded r
    → r.kind ≡ ResultKind.success
    → (r.stop_reason ≡ some "end_turn") × (all is_warning r.failures ≡ true)
decoded_success sanitize wire rid sid version r e k =
    sound_success r.stop_reason r.kind r refl k refl
      (sym (ap is_sound e) ∙ decode_prompt_result_sound sanitize wire rid sid version)
