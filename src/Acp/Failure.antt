-- ===== src/Acp/Failure.antt =====
-- nc/acp_decoder.py: `_air_version_problem`, `_jsonrpc_error` and `_failure`. `sanitize` is
-- `_diagnostic` on a text: the redaction by regular expressions.
use neocortex.Prelude.Int.{eq_ℤ, pos}
use neocortex.Json.{Fields, Json, as_int, as_str, as_strings, dict, get, int, list, lookup, str}
use neocortex.Prelude.{
  Bool, List, Option, String, false, if◌then◌else◌, keep, none, some, str_eq, suc, text_append,
  true, ℕ, ◌||◌,
}

pub data Severity : Type 0 where
  warning error : Severity

-- `AirFailureEvidence`
pub record Evidence : Type 0 where
  pub incident_id : String
  pub revision : ℕ
  pub category : String
  pub actions : List String
  pub severity : Severity
  pub title : String
  pub details : Option String
  pub diagnostic : String
  pub unknown_category : Option String
  pub unknown_actions : List String

abbrev pub known_category : String → Bool
known_category c =
    str_eq c "connection"
    || str_eq c "access"
    || str_eq c "limit"
    || str_eq c "request"
    || str_eq c "service"
    || str_eq c "unknown"

abbrev pub known_action : String → Bool
known_action a = str_eq a "retry" || str_eq a "new_session" || str_eq a "login"

-- `none` is a version that is fine.
unfoldable pub version_problem : Json → Option String
version_problem (dict fs) = elim (as_int (get "version" fs)) [
  | none ↦ some "AIR extension version is invalid"
  | some z ↦ if eq_ℤ z (pos 1) then none else some "unsupported AIR extension version"
]
version_problem _ = some "AIR extension envelope is not an object"

-- An absent or null text, a text, or anything else.
abbrev pub as_details : Json → Option (Option String)
as_details Json.null = some none
as_details (str s) = some (some s)
as_details _ = none

abbrev pub as_revision : Json → Option ℕ
as_revision (int (pos (suc n))) = some (suc n)
as_revision _ = none

abbrev pub as_incident_id : Json → Option String
as_incident_id v = elim (as_str v) [ none ↦ none | some s ↦ if str_eq s "" then none else some s ]

-- What `severity not in {"warning", "error"}` gives: a dict or a list is not hashable and raises.
pub data Checked (A : Type 0) : Type 0 where
  good : A → Checked A
  bad : String → Checked A
  raises : Checked A

abbrev pub as_severity : Option Json → Checked Severity
as_severity none = good Severity.error
as_severity (some (str s)) =
    if str_eq s "warning"
    then good Severity.warning
    else if str_eq s "error"
    then good Severity.error
    else bad "AIR sessionFailure severity is invalid"
as_severity (some (list xs)) = raises
as_severity (some (dict fs)) = raises
as_severity (some _) = bad "AIR sessionFailure severity is invalid"

infixl 5 ◌>>=◌
abbrev pub ◌>>=◌ : {A B : Type 0} → Checked A → (A → Checked B) → Checked B
good a >>= f = f a
bad p >>= f = bad p
raises >>= f = raises

abbrev pub or_bad : {A : Type 0} → Option A → String → Checked A
or_bad none p = bad p
or_bad (some a) p = good a

module _ (sanitize : String → String) where
  abbrev pub failure_text : String → Option String → String
  failure_text title none = title
  failure_text title (some d) =
      if str_eq d "" then title else text_append title (text_append ": " d)

  abbrev pub evidence_of :
      String → ℕ → String → List String → Severity → String → Option String → Evidence
  evidence_of iid rev category actions severity title details = record {
    incident_id = iid;
    revision = rev;
    category = if known_category category then category else "unknown";
    actions = actions;
    severity = severity;
    title = title;
    details = details;
    diagnostic = sanitize (failure_text title details);
    unknown_category = if known_category category then none else some category;
    unknown_actions = keep (λ a. if known_action a then false else true) actions;
  }

  unfoldable pub fields_failure : Fields → Checked Evidence
  fields_failure fs = do
    iid ← or_bad (as_incident_id (get "id" fs)) "AIR sessionFailure id is invalid"
    rev ← or_bad (as_revision (get "revision" fs)) "AIR sessionFailure revision is invalid"
    title ← or_bad (as_str (get "title" fs)) "AIR sessionFailure diagnostic is invalid"
    details ← or_bad (as_details (get "details" fs)) "AIR sessionFailure diagnostic is invalid"
    category ←
        or_bad (as_str (get "category" fs)) "AIR sessionFailure category or actions is invalid"
    actions ←
        or_bad (as_strings (get "actions" fs)) "AIR sessionFailure category or actions is invalid"
    severity ← as_severity (lookup "severity" fs)
    good (evidence_of iid rev category actions severity title details)

  -- `_failure`
  unfoldable pub failure : Json → Checked Evidence
  unfolding fields_failure
  failure (dict fs) = fields_failure fs
  failure _ = bad "AIR sessionFailure is not an object"

  -- `_jsonrpc_error`: `none` for an object that is no error.
  unfoldable pub jsonrpc_error : Json → Option String
  jsonrpc_error (dict fs) = elim (as_int (get "code" fs)) [
    | none ↦ none
    | some z ↦ elim (as_str (get "message" fs)) [ none ↦ none | some m ↦ some (sanitize m) ]
  ]
  jsonrpc_error _ = none
