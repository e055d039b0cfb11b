-- ===== src/Acp/Decoder/Taken.antt =====
-- nc/acp_decoder.py: the failures that a success has taken from the wire.
use mathlib.Core.Path.{subst}
use neocortex.Acp.Wire.{between, is_request, is_response, notification_usage, only, positions}
use neocortex.Acp.Usage.{Usage, at_path}
use neocortex.Acp.Failure.{Evidence, jsonrpc_error}
use neocortex.Acp.Decoder.{
  belongs, failure_id, Effective, PromptResult, ResultKind, Seen, collect, conclude, crash,
  decode_between, decode_failures, decode_prompt_result, decode_response, decode_result, decoded,
  defect, defective, effective, failure_path, invalid, judge, nothing, raw, reconcile_all,
  response_at, result_usage, supported, error_result, terminal_failure, terminal_version,
}
use neocortex.Acp.Decoder.Reconciled.{IsTaken, reconcile_all-IsTaken}
use neocortex.Json.{Fields, Json, as_str, dict, get, lookup}
use neocortex.Prelude.{
  All, Bool-cases, List, Option, Option-cases, String, [], arith, inl, inr, leb, none, refl, some,
  ℕ, ◌++◌, ◌∷◌, ◌≡◌, ◌≢◌, ◌⊎◌,
}

invalid_fails :
    (stop : Option String) (text : String) (failures : List Evidence) (usage : Option Usage)
    (r : PromptResult)
    → invalid stop text failures usage ≡ decoded r
    → r.kind ≢ ResultKind.success
invalid_fails stop text failures usage r h k = ground arith

conclude-failures :
    (stop : String) (failures : List Evidence) (usage : Option Usage) (r : PromptResult)
    → conclude stop failures usage ≡ decoded r
    → failures ≡ r.failures
unfolding conclude
conclude-failures stop failures usage r h = ground arith

All-before :
    {A : Type 0} (P : A → Type 0) (xs : List A) (x : A) → All P (xs ++ x ∷ []) → All P xs × P x
All-before P [] x (h, _) = (tt, h)
All-before P (y ∷ xs) x (h, hs) = let (k, last) = All-before P xs x hs in ((h, k), last)

raw_same : (v f : Json) → raw v ≡ raw f → f ≡ v
raw_same v f h = ground arith

module _ (sanitize : String → String) where
  judged-IsTaken :
      (stop : String) (usage : Option Usage) (raws : List Json) (r : PromptResult) (e : Effective)
      → reconcile_all sanitize [] raws ≡ e
      → judge sanitize stop usage raws ≡ decoded r
      → r.kind ≡ ResultKind.success
      → All (IsTaken sanitize r.failures) raws
  unfolding judge
  judged-IsTaken stop usage raws r crash a h k = cc (rw (judge, a) at h)
  judged-IsTaken stop usage raws r (defective text seen) a h k =
      absurd (invalid_fails (some stop) text seen usage r (rw (judge, a) at h) k)
  judged-IsTaken stop usage raws r (effective fs) a h k =
      let same = conclude-failures stop fs usage r (rw (judge, a) at h) in
      subst (λ gs. All (IsTaken sanitize gs) raws) same
        (reconcile_all-IsTaken sanitize [] fs raws a).0

  -- The failures of the updates and of the prompt's result are taken.
  abbrev pub AreTaken : String → String → Json → List Json → PromptResult → Type 0
  AreTaken rid sid result updates r =
      (raws : List Json) × (collect rid sid updates ≡ inl raws)
      × All (IsTaken sanitize r.failures) raws
      × ((value : Json)
          → at_path failure_path result ≡ some value
          → IsTaken sanitize r.failures value)

  terminal_nothing :
      (rid : String) (result value : Json)
      → terminal_failure rid result ≡ nothing
      → at_path failure_path result ≢ some value
  unfolding terminal_failure
  terminal_nothing rid result value h e = elim (Option-cases (failure_id value)) [
    | inl a ↦ cc (rw (terminal_failure, e, a) at h)
    | inr (iid, a) ↦ elim (Bool-cases (belongs rid iid)) [
      | inl b ↦ cc (rw (terminal_failure, e, a, b) at h)
      | inr b ↦ cc (rw (terminal_failure, e, a, b) at h)
    ]
  ]

  terminal_raw :
      (rid : String) (result value f : Json)
      → terminal_failure rid result ≡ raw f
      → at_path failure_path result ≡ some value
      → f ≡ value
  unfolding terminal_failure
  terminal_raw rid result value f h e = elim (Option-cases (failure_id value)) [
    | inl a ↦ cc (rw (terminal_failure, e, a) at h)
    | inr (iid, a) ↦ elim (Bool-cases (belongs rid iid)) [
      | inl b ↦ raw_same value f (rw (terminal_failure, e, a, b) at h)
      | inr b ↦ cc (rw (terminal_failure, e, a, b) at h)
    ]
  ]

  -- On the terminal failure.
  terminal-AreTaken :
      (rid sid stop : String) (result : Json) (updates raws : List Json) (usage : Option Usage)
      (r : PromptResult) (t : Seen)
      → collect rid sid updates ≡ inl raws
      → terminal_failure rid result ≡ t
      → (elim t [
        | nothing ↦ judge sanitize stop usage raws
        | raw f ↦ judge sanitize stop usage (raws ++ f ∷ [])
        | defect text ↦ invalid (some stop) text [] usage
      ])
        ≡ decoded r
      → r.kind ≡ ResultKind.success
      → AreTaken rid sid result updates r
  terminal-AreTaken rid sid stop result updates raws usage r nothing c t h k = (
    raws,
    c,
    judged-IsTaken stop usage raws r (reconcile_all sanitize [] raws) refl h k,
    λ value e. absurd (terminal_nothing rid result value t e),
  )
  terminal-AreTaken rid sid stop result updates raws usage r (raw f) c t h k =
      let all_of = raws ++ f ∷ [] in
      let (before, last) =
        All-before (IsTaken sanitize r.failures) raws f
          (judged-IsTaken stop usage all_of r (reconcile_all sanitize [] all_of) refl h k) in
      (
        raws,
        c,
        before,
        λ value e. subst (IsTaken sanitize r.failures) (terminal_raw rid result value f t e) last,
      )
  terminal-AreTaken rid sid stop result updates raws usage r (defect text) c t h k =
      absurd (invalid_fails (some stop) text [] usage r h k)

  decode_failures-AreTaken :
      (rid sid stop : String) (result : Json) (updates : List Json) (usage : Option Usage)
      (r : PromptResult) (o : List Json ⊎ String)
      → collect rid sid updates ≡ o
      → decode_failures sanitize rid sid stop result updates usage ≡ decoded r
      → r.kind ≡ ResultKind.success
      → AreTaken rid sid result updates r
  unfolding decode_failures
  decode_failures-AreTaken rid sid stop result updates usage r (inr text) c h k =
      absurd (invalid_fails (some stop) text [] usage r (rw (decode_failures, c) at h) k)
  decode_failures-AreTaken rid sid stop result updates usage r (inl raws) c h k =
      elim (Option-cases (terminal_version result)) [
        | inr (text, v) ↦
            absurd (invalid_fails (some stop) text [] usage r (rw (decode_failures, c, v) at h) k)
        | inl v ↦
            terminal-AreTaken rid sid stop result updates raws usage r (terminal_failure rid result)
              c refl (rw (decode_failures, c, v) at h) k
      ]

  decode_result-AreTaken :
      (rid sid : String) (version result : Json) (updates : List Json) (usage : Option Usage)
      (r : PromptResult)
      → decode_result sanitize rid sid version result updates usage ≡ decoded r
      → r.kind ≡ ResultKind.success
      → AreTaken rid sid result updates r
  unfolding decode_result
  decode_result-AreTaken rid sid version (dict fs) updates usage r h k =
      elim (Option-cases (as_str (get "stopReason" fs))) [
        | inl a ↦ absurd (
            invalid_fails none "prompt stopReason is invalid" [] (result_usage sanitize fs usage) r
              (rw (decode_result, a) at h) k)
        | inr (stop, a) ↦ elim (Bool-cases (supported sanitize version)) [
          | inl b ↦
              decode_failures-AreTaken rid sid stop (dict fs) updates
                (result_usage sanitize fs usage) r (collect rid sid updates) refl
                (rw (decode_result, a, b) at h) k
          | inr b ↦ absurd (
              invalid_fails (some stop) "unsupported AIR extension version" []
                (result_usage sanitize fs usage) r (rw (decode_result, a, b) at h) k)
        ]
      ]
  decode_result-AreTaken rid sid version v updates usage r h k =
      absurd (invalid_fails none "prompt result is not an object" [] none r h k)

  error_fails :
      (m : Option String) (usage : Option Usage) (r : PromptResult)
      → error_result sanitize m usage ≡ decoded r
      → r.kind ≢ ResultKind.success
  error_fails none usage r h k = ground arith
  error_fails (some text) usage r h k = ground arith

  -- Of a response with a result.
  decode_response-AreTaken :
      (rid sid : String) (version : Json) (fs : Fields) (updates : List Json) (usage : Option Usage)
      (r : PromptResult)
      → decode_response sanitize rid sid version fs updates usage ≡ decoded r
      → r.kind ≡ ResultKind.success
      → (result : Json) × (lookup "result" fs ≡ some result) × AreTaken rid sid result updates r
  unfolding decode_response
  decode_response-AreTaken rid sid version fs updates usage r h k =
      elim (Option-cases (lookup "result" fs)) [
        | inl a ↦ elim (Option-cases (lookup "error" fs)) [
          | inl b ↦ absurd (invalid_fails none _ [] none r (rw (decode_response, a, b) at h) k)
          | inr (e, b) ↦
              absurd
                (error_fails (jsonrpc_error sanitize e) usage r (rw (decode_response, a, b) at h) k)
        ]
        | inr (result, a) ↦ elim (Option-cases (lookup "error" fs)) [
          | inl b ↦ (
            result,
            a,
            decode_result-AreTaken rid sid version result updates usage r
                (rw (decode_response, a, b) at h) k,
          )
          | inr (e, b) ↦ absurd (invalid_fails none _ [] none r (rw (decode_response, a, b) at h) k)
        ]
      ]

  abbrev pub BetweenAreTaken : String → String → List Json → ℕ → ℕ → PromptResult → Type 0
  BetweenAreTaken rid sid wire start stop r =
      (result : Json) × (lookup "result" (response_at sanitize stop wire) ≡ some result)
      × AreTaken rid sid result (between start stop wire) r

  decode_between-AreTaken :
      (rid sid : String) (version : Json) (wire : List Json) (start stop : ℕ) (r : PromptResult)
      → decode_between sanitize rid sid version wire start stop ≡ decoded r
      → r.kind ≡ ResultKind.success
      → BetweenAreTaken rid sid wire start stop r
  unfolding decode_between
  decode_between-AreTaken rid sid version wire start stop r h k =
      elim (Bool-cases (leb stop start)) [
        | inl a ↦ absurd (invalid_fails none _ [] none r (rw (decode_between, a) at h) k)
        | inr a ↦
            decode_response-AreTaken rid sid version (response_at sanitize stop wire)
              (between start stop wire) (notification_usage sid none (between start stop wire)) r
              (rw (decode_between, a) at h) k
      ]

  -- The two positions that the decoder found.
  pub decode_prompt_result-AreTaken :
      (wire : List Json) (rid sid : String) (version : Json) (r : PromptResult)
      → decode_prompt_result sanitize wire rid sid version ≡ decoded r
      → r.kind ≡ ResultKind.success
      → (start stop : ℕ) × (only (positions (is_request rid sid) 0 wire) ≡ some start)
        × (only (positions (is_response rid) 0 wire) ≡ some stop)
        × BetweenAreTaken rid sid wire start stop r
  unfolding decode_prompt_result
  decode_prompt_result-AreTaken wire rid sid version r h k =
      elim (Option-cases (only (positions (is_request rid sid) 0 wire))) [
        | inl a ↦ absurd (invalid_fails none _ [] none r (rw (decode_prompt_result, a) at h) k)
        | inr (start, a) ↦ elim (Option-cases (only (positions (is_response rid) 0 wire))) [
          | inl b ↦ absurd (invalid_fails none _ [] none r (rw (decode_prompt_result, a, b) at h) k)
          | inr (stop, b) ↦ (
            start,
            stop,
            a,
            b,
            decode_between-AreTaken rid sid version wire start stop r
                (rw (decode_prompt_result, a, b) at h) k,
          )
        ]
      ]
