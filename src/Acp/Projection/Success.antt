-- ===== src/Acp/Projection/Success.antt =====
-- nc/acp_client.py: what a projected success says of the prompt.
use neocortex.Prelude.Int.{pos}
use neocortex.Acp.Contract.{is_effective_completion, is_true, listed}
use neocortex.Acp.Air.{fields_of}
use neocortex.Acp.Decoder.Sound.{decoded_success}
use neocortex.Acp.Evidence.{Collected, Collector, Sizes, kept, overflowed}
use neocortex.Acp.Evidence.Response.{prompt_response}
use mathlib.Core.Path.{subst}
use neocortex.Acp.Decoder.{Decoded, decode_prompt_result, decoded, crashed}
use neocortex.Acp.Projection.{
  Projected, conclude_turn, decoder_wire, has_recovered, lost, project_prompt_response, projected,
  prompt_fact, active_failures, turn_result,
}
use neocortex.Acp.Decoder.{is_warning, PromptResult, ResultKind}
use neocortex.Json.{Fields, get, int, lookup, Json, items}
use neocortex.Acp.Failure.{Evidence}
use neocortex.Prelude.{
  String, decimal, some, ℕ, ◌∙◌, arith, inl, inr, Bool, List, [], all, ap, false, keep, not, refl,
  true, ◌&&◌, ◌∷◌, ◌≡◌, ◌⊎◌,
}

warnings_dropped :
    (es : List Evidence)
    → all is_warning es ≡ true
    → keep (λ e. not (true && true && is_warning e)) es ≡ []
unfolding all keep
warnings_dropped [] h = refl
warnings_dropped (e ∷ es) h = ground (arith, h, warnings_dropped es)

-- A success is a success of the decoder, with no failure or only overcome ones.
kind_cases :
    (recovered : Bool) (r : PromptResult) (k : ResultKind) (fs : List Evidence)
    → r.kind ≡ k
    → r.failures ≡ fs
    → (turn_result recovered r).kind ≡ ResultKind.success
    → (r.kind ≡ ResultKind.success) × ((r.failures ≡ []) ⊎ (recovered ≡ true))
kind_cases recovered r ResultKind.success [] e f h = (e, inl f)
kind_cases true r ResultKind.success (x ∷ fs) e f h = (e, inr refl)
kind_cases false r ResultKind.success (x ∷ fs) e f h = absurd (ground (arith, e, f, h))
kind_cases recovered r ResultKind.failed fs e f h = absurd (ground (arith, e, h))
kind_cases recovered r ResultKind.cancelled fs e f h = absurd (ground (arith, e, h))
kind_cases recovered r ResultKind.protocol_invalid fs e f h = absurd (ground (arith, e, h))

-- No failure is left for the host.
none_active :
    (recovered : Bool) (r : PromptResult)
    → r.kind ≡ ResultKind.success
    → all is_warning r.failures ≡ true
    → (r.failures ≡ []) ⊎ (recovered ≡ true)
    → active_failures recovered r ≡ []
unfolding keep
none_active recovered r k warnings (inl e) = rw e refl
none_active recovered r k warnings (inr e) = rw (k, e) (warnings_dropped r.failures warnings)

-- The prompt has answered, ended its turn and left no active failure.
abbrev pub is_effective_fact : Fields → Bool
is_effective_fact fact =
    is_true (get "prompt_response_valid" fact)
    && is_effective_completion (get "stop_reason" fact) (listed (get "session_failures" fact))

fact_lem :
    (prompt : ℕ) (session : String) (cancelled : ℕ) (recovered : Bool) (c : Collector)
    (r : PromptResult)
    → r.kind ≡ ResultKind.success
    → r.stop_reason ≡ some "end_turn"
    → active_failures recovered r ≡ []
    → is_effective_fact (prompt_fact prompt session cancelled recovered c r) ≡ true
unfolding prompt_fact lookup fields_of is_effective_completion items
fact_lem prompt session cancelled recovered c r k s a = rw (a, k, s) refl

concluded :
    (prompt : ℕ) (session : String) (cancelled : ℕ) (response : Json) (c : Collector) (d : Decoded)
    (r : PromptResult) (fact : Fields)
    → ((q : PromptResult)
        → d ≡ decoded q
        → q.kind ≡ ResultKind.success
        → (q.stop_reason ≡ some "end_turn") × (all is_warning q.failures ≡ true))
    → conclude_turn prompt session cancelled response c d ≡ projected r fact
    → r.kind ≡ ResultKind.success
    → is_effective_fact fact ≡ true
concluded prompt session cancelled response c crashed r fact sound e k = absurd (ground (arith, e))
concluded prompt session cancelled response c (decoded q) r fact sound e k =
    let recovered = has_recovered session response c q in
    let same : turn_result recovered q ≡ r = ground (arith, e) in
    let is_fact : prompt_fact prompt session cancelled recovered c q ≡ fact = ground (arith, e) in
    let won : (turn_result recovered q).kind ≡ ResultKind.success = ap (λ p. p.kind) same ∙ k in
    let (kind, cases) = kind_cases recovered q q.kind q.failures refl refl won in
    let (stop, warnings) = sound q refl kind in
    subst (λ f. is_effective_fact f ≡ true) is_fact
      (fact_lem prompt session cancelled recovered c q kind stop
        (none_active recovered q kind warnings cases))

-- A response of the prompt whose projection is a success gives a fact that says so: the response is
-- valid, its stop reason is "end_turn" and no failure is left active.
pub projected_success :
    (sizes : Sizes) (sanitize : String → String) (prompt : ℕ) (session : String) (cancelled : ℕ)
    (response : Json) (c c' : Collector) (r : PromptResult) (fact : Fields)
    → project_prompt_response sizes sanitize prompt session cancelled response c
      ≡ (projected r fact, c')
    → r.kind ≡ ResultKind.success
    → is_effective_fact fact ≡ true
unfolding project_prompt_response
projected_success sizes sanitize prompt session cancelled response c c' r fact e k =
    go (prompt_response sizes response c) e
  where
    decoded_from : Collector → Decoded
    decoded_from d =
        decode_prompt_result sanitize (decoder_wire prompt session d) (decimal prompt) session
          (int (pos 1))

    go :
        (q : Collected (Unit {0}) × Collector)
        → (elim q.0 as (λ _. Projected × Collector) [
          | overflowed text ↦ (lost text, q.1)
          | kept _ ↦ (conclude_turn prompt session cancelled response q.1 (decoded_from q.1), q.1)
        ])
          ≡ (projected r fact, c')
        → is_effective_fact fact ≡ true
    go (overflowed text, d) f = absurd (ground (arith, f))
    go (kept u, d) f =
        concluded prompt session cancelled response d (decoded_from d) r fact
          (decoded_success sanitize (decoder_wire prompt session d) (decimal prompt) session
            (int (pos 1)))
          (ap (λ x. x.0) f) k
