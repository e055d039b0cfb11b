-- ===== src/Acp/Decoder.antt =====
-- nc/acp_decoder.py: `decode_acp_prompt_result`.
pub mod Sound
pub mod Reconciled
pub mod Reported
pub mod Superseded
pub mod Taken
use neocortex.Prelude.Int.{eq_ℤ, pos}
use neocortex.Acp.Wire.{
  between, is_request, is_response, notification_usage, only, positions, session_update, under,
}
use neocortex.Acp.Usage.{Usage, at_path, decode_usage, or_null}
use neocortex.Json.{Fields, Json, as_int, as_str, dict, end, get, lookup}
use neocortex.Acp.Failure.{
  Evidence, Severity, bad, failure, good, jsonrpc_error, raises, version_problem,
}
use neocortex.Prelude.{
  Bool, List, Option, String, [], all, false, find, get_elem?, if◌then◌else◌, inl, inr, leb, ltb,
  none, some, starts_with, str_eq, text_append, true, update, ℕ, ◌&&◌, ◌++◌, ◌==◌, ◌∷◌, ◌⊎◌,
}

pub data ResultKind : Type 0 where
  success failed cancelled protocol_invalid : ResultKind

pub record PromptResult : Type 0 where
  pub kind : ResultKind
  pub stop_reason : Option String
  pub diagnostic : Option String
  pub failures : List Evidence
  pub usage : Option Usage

-- The decoder returns, or it raises on a value that is not hashable.
pub data Decoded : Type 0 where
  decoded : PromptResult → Decoded
  crashed : Decoded

abbrev pub invalid : Option String → String → List Evidence → Option Usage → Decoded
invalid stop text failures usage = decoded (record {
  kind = ResultKind.protocol_invalid;
  stop_reason = stop;
  diagnostic = some text;
  failures = failures;
  usage = usage;
})

abbrev pub belongs : String → String → Bool
belongs rid iid = starts_with iid (text_append rid ":")

abbrev pub air_path : List String
air_path = "_meta" ∷ "jetbrains" ∷ "air" ∷ []

abbrev pub failure_path : List String
failure_path = "_meta" ∷ "jetbrains" ∷ "air" ∷ "sessionFailure" ∷ []

-- What one update adds: nothing, a failure of this prompt, or a protocol defect.
pub data Seen : Type 0 where
  nothing : Seen
  raw : Json → Seen
  defect : String → Seen

abbrev pub owned_failure : Json → Json → Seen
owned_failure update value = elim (version_problem (or_null (at_path air_path update))) [
  | none ↦ raw value
  | some text ↦ defect text
]

-- The id of a failure record.
abbrev pub failure_id : Json → Option String
failure_id v = under v none (λ fs. as_str (get "id" fs))

unfoldable pub inspect_update : String → Json → Seen
inspect_update rid update = elim (at_path failure_path update) [
  | none ↦ nothing
  | some value ↦ elim (failure_id value) [
    | none ↦ defect "malformed correlated AIR update"
    | some iid ↦ if belongs rid iid then owned_failure update value else nothing
  ]
]

-- The failures of the prompt among the updates, in wire order, or the first defect.
unfoldable pub collect : String → String → List Json → List Json ⊎ String
unfolding inspect_update
collect rid sid [] = inl []
collect rid sid (v ∷ vs) = elim (session_update sid v) [
  | none ↦ collect rid sid vs
  | some update ↦ elim (inspect_update rid update) [
    | nothing ↦ collect rid sid vs
    | defect text ↦ inr text
    | raw f ↦ elim (collect rid sid vs) [ inl fs ↦ inl (f ∷ fs) | inr text ↦ inr text ]
  ]
]

-- The version of a terminal AIR envelope, if there is one.
abbrev pub terminal_version : Json → Option String
terminal_version result = elim (at_path air_path result) [
  | none ↦ none
  | some air ↦ version_problem air
]

-- The terminal failure: none, one of this prompt, or a foreign one.
unfoldable pub terminal_failure : String → Json → Seen
terminal_failure rid result = elim (at_path failure_path result) [
  | none ↦ nothing
  | some value ↦ elim (failure_id value) [
    | none ↦ defect "terminal AIR failure identity conflicts with prompt"
    | some iid ↦
        if belongs rid iid
        then raw value
        else defect "terminal AIR failure identity conflicts with prompt"
  ]
]

abbrev pub severity_eq : Severity → Severity → Bool
severity_eq Severity.warning Severity.warning = true
severity_eq Severity.error Severity.error = true
severity_eq _ _ = false

unfoldable pub texts_eq : List String → List String → Bool
texts_eq [] [] = true
texts_eq (a ∷ as') (b ∷ bs) = str_eq a b && texts_eq as' bs
texts_eq _ _ = false

abbrev pub opt_text_eq : Option String → Option String → Bool
opt_text_eq none none = true
opt_text_eq (some a) (some b) = str_eq a b
opt_text_eq _ _ = false

-- Equality of the frozen dataclass.
unfoldable pub evidence_eq : Evidence → Evidence → Bool
unfolding texts_eq
evidence_eq a b =
    str_eq a.incident_id b.incident_id
    && a.revision == b.revision
    && str_eq a.category b.category
    && texts_eq a.actions b.actions
    && severity_eq a.severity b.severity
    && str_eq a.title b.title
    && opt_text_eq a.details b.details
    && str_eq a.diagnostic b.diagnostic
    && opt_text_eq a.unknown_category b.unknown_category
    && texts_eq a.unknown_actions b.unknown_actions

abbrev pub has_id : String → Evidence → Bool
has_id iid e = str_eq e.incident_id iid

-- `failures[id] = evidence`: a new key goes to the end, a known one keeps its place.
abbrev pub record_failure : Evidence → List Evidence → List Evidence
record_failure e fs = elim (find (has_id e.incident_id) fs) [
  | none ↦ fs ++ e ∷ []
  | some old ↦ update (has_id e.incident_id) (λ x. e) fs
]

-- One revision against those seen: `none` is a conflict of equal revisions.
unfoldable pub reconcile : Evidence → List Evidence → Option (List Evidence)
unfolding evidence_eq
reconcile e fs = elim (find (has_id e.incident_id) fs) [
  | none ↦ some (record_failure e fs)
  | some old ↦
      if e.revision == old.revision
      then (if evidence_eq e old then some fs else none)
      else if ltb old.revision e.revision
      then some (record_failure e fs)
      else some fs
]

-- The failures in effect, or the defect with those seen before it, or a crash.
pub data Effective : Type 0 where
  effective : List Evidence → Effective
  defective : String → List Evidence → Effective
  crash : Effective

abbrev pub is_warning : Evidence → Bool
is_warning e = severity_eq e.severity Severity.warning

-- The diagnostic of the last error.
unfoldable pub last_error : List Evidence → Option String → Option String
last_error [] d = d
last_error (e ∷ es) d = last_error es (if is_warning e then d else some e.diagnostic)

abbrev pub nonempty : Option String → Option String
nonempty none = none
nonempty (some s) = if str_eq s "" then none else some s

abbrev pub finished : ResultKind → String → Option String → List Evidence → Option Usage → Decoded
finished kind stop text failures usage = decoded (record {
  kind = kind;
  stop_reason = some stop;
  diagnostic = text;
  failures = failures;
  usage = usage;
})

-- The last part of the decoder: the stop reason and the failures in effect decide.
unfoldable pub conclude : String → List Evidence → Option Usage → Decoded
unfolding last_error
conclude stop failures usage =
    if str_eq stop "cancelled"
    then finished ResultKind.cancelled stop none failures usage
    else if str_eq stop "end_turn"
    then (if all is_warning failures
        then finished ResultKind.success stop none failures usage
        else finished ResultKind.failed stop (nonempty (last_error failures none)) failures usage)
    else finished ResultKind.failed stop none failures usage

module _ (sanitize : String → String) where
  unfoldable pub reconcile_all : List Evidence → List Json → Effective
  unfolding reconcile
  reconcile_all seen [] = effective seen
  reconcile_all seen (v ∷ vs) = elim (failure sanitize v) [
    | raises ↦ crash
    | bad text ↦ defective text seen
    | good e ↦ elim (reconcile e seen) [
      | none ↦ defective "conflicting AIR failure revision" seen
      | some seen' ↦ reconcile_all seen' vs
    ]
  ]

  unfoldable pub judge : String → Option Usage → List Json → Decoded
  unfolding reconcile_all conclude
  judge stop usage raws = elim (reconcile_all [] raws) [
    | crash ↦ crashed
    | defective text seen ↦ invalid (some stop) text seen usage
    | effective failures ↦ conclude stop failures usage
  ]

  -- From the prompt's result and its updates on.
  unfoldable pub decode_failures :
      String → String → String → Json → List Json → Option Usage → Decoded
  unfolding collect terminal_failure judge
  decode_failures rid sid stop result updates usage = elim (collect rid sid updates) [
    | inr text ↦ invalid (some stop) text [] usage
    | inl raws ↦ elim (terminal_version result) [
      | some text ↦ invalid (some stop) text [] usage
      | none ↦ elim (terminal_failure rid result) [
        | nothing ↦ judge stop usage raws
        | raw f ↦ judge stop usage (raws ++ f ∷ [])
        | defect text ↦ invalid (some stop) text [] usage
      ]
    ]
  ]

  abbrev pub result_usage : Fields → Option Usage → Option Usage
  result_usage fs notified = elim (lookup "usage" fs) [ none ↦ notified | some u ↦ decode_usage u ]

  abbrev pub supported : Json → Bool
  supported v = elim (as_int v) [ none ↦ false | some z ↦ eq_ℤ z (pos 1) ]

  unfoldable pub decode_result : String → String → Json → Json → List Json → Option Usage → Decoded
  unfolding decode_failures
  decode_result rid sid version (dict fs) updates notified =
      let usage = result_usage fs notified in
      elim (as_str (get "stopReason" fs)) [
        | none ↦ invalid none "prompt stopReason is invalid" [] usage
        | some stop ↦
            if supported version
            then decode_failures rid sid stop (dict fs) updates usage
            else invalid (some stop) "unsupported AIR extension version" [] usage
      ]
  decode_result rid sid version _ updates notified =
      invalid none "prompt result is not an object" [] none

  abbrev pub error_result : Option String → Option Usage → Decoded
  error_result none usage = invalid none "prompt error is invalid" [] usage
  error_result (some m) usage = decoded (record {
    kind = ResultKind.failed;
    stop_reason = none;
    diagnostic = some (if str_eq m "" then "JSON-RPC prompt error" else m);
    failures = [];
    usage = usage;
  })

  -- The response has exactly one of a result and an error.
  unfoldable pub decode_response :
      String → String → Json → Fields → List Json → Option Usage → Decoded
  unfolding decode_result jsonrpc_error
  decode_response rid sid version fs updates notified = elim (lookup "result" fs) [
    | none ↦ elim (lookup "error" fs) [
      | none ↦ invalid none "prompt response must have exactly one result or error" [] none
      | some e ↦ error_result (jsonrpc_error sanitize e) notified
    ]
    | some r ↦ elim (lookup "error" fs) [
      | none ↦ decode_result rid sid version r updates notified
      | some e ↦ invalid none "prompt response must have exactly one result or error" [] none
    ]
  ]

  abbrev pub response_at : ℕ → List Json → Fields
  response_at n wire = elim (get_elem? wire n) [ none ↦ end | some v ↦ under v end (λ fs. fs) ]

  unfoldable pub decode_between : String → String → Json → List Json → ℕ → ℕ → Decoded
  unfolding decode_response notification_usage
  decode_between rid sid version wire start stop =
      if leb stop start
      then invalid none "prompt response precedes active request" [] none
      else (let updates = between start stop wire in
          decode_response rid sid version (response_at stop wire) updates
            (notification_usage sid none updates))

  -- `decode_acp_prompt_result`
  unfoldable pub decode_prompt_result : List Json → String → String → Json → Decoded
  unfolding decode_between positions
  decode_prompt_result wire rid sid version = elim (only (positions (is_request rid sid) 0 wire)) [
    | none ↦ invalid none "conflicting active prompt request identity" [] none
    | some start ↦ elim (only (positions (is_response rid) 0 wire)) [
      | none ↦ invalid none "conflicting prompt response identity" [] none
      | some stop ↦ decode_between rid sid version wire start stop
    ]
  ]
