-- ===== src/Adapters/Terminal.antt =====
-- nc/adapters.py: the failure that the last event of a stream reports, and its category.
use neocortex.Acp.Contract.{is_true}
use neocortex.Adapters.Usage.{last_of, final_event, spoken}
use neocortex.Json.{Fields, Json, dict, get, is_str, str}
use neocortex.Prelude.{
  Bool, List, Option, String, [], any, contains, false, if◌then◌else◌, join, none, not, some,
  str_eq, strip, ◌&&◌, ◌++◌, ◌||◌, ◌∷◌,
}

-- Whether the regular expressions of `_category_from_terminal` are found, and `str.lower`.
pub record Patterns : Type 0 where
  pub lower : String → String
  pub usage_limit_hit : String → Bool
  pub upgrade_to_pro : String → Bool
  pub usage_settings : String → Bool
  pub try_again_at : String → Bool
  pub subscription_product : String → Bool
  pub resettable_allowance : String → Bool
  pub credits_exhausted : String → Bool

abbrev pub text_bit : Json → List String
text_bit (str s) = s ∷ []
text_bit _ = []

-- The texts that the terminal event owns.
abbrev pub error_bits : Json → List String
error_bits (str s) = s ∷ []
error_bits (dict fs) =
    text_bit (get "code" fs) ++ text_bit (get "message" fs) ++ text_bit (get "type" fs)
error_bits _ = []

unfoldable pub error_text : Fields → String
error_text fs = join " " (
    text_bit (get "code" fs)
    ++ text_bit (get "message" fs)
    ++ error_bits (get "error" fs)
    ++ text_bit (get "result" fs))

abbrev pub names_any : List String → String → Bool
names_any tokens value = any (λ token. contains token value) tokens

-- A limit of a subscription that will reset.
abbrev pub is_subscription_limit : Patterns → String → String → Bool
is_subscription_limit re adapter value =
    (str_eq adapter "codex"
      && re.usage_limit_hit value
      && (re.upgrade_to_pro value && re.usage_settings value)
      && re.try_again_at value)
    || (re.subscription_product value && re.resettable_allowance value)

-- The categories in their order, each with its test.
abbrev pub category_tests : Patterns → String → String → List (Bool × String)
category_tests re adapter value =
    (is_subscription_limit re adapter value, "subscription_limit")
    ∷ (contains "insufficient_quota" value || re.credits_exhausted value, "billing_credits")
    ∷ (
      names_any ("permission_denied" ∷ "permission denied" ∷ "forbidden" ∷ "not authorized" ∷ [])
          value,
      "permission",
    )
    ∷ (
      names_any
          ("authentication" ∷ "unauthenticated" ∷ "invalid api key" ∷ "login required"
            ∷ "not logged in" ∷ "expired token" ∷ [])
          value,
      "authentication",
    )
    ∷ (
      names_any
          ("invalid_request" ∷ "invalid request" ∷ "bad request" ∷ "model_not_found"
            ∷ "model not found" ∷ "unsupported model" ∷ "unknown model" ∷ [])
          value,
      "invalid_request",
    )
    ∷ (
      names_any ("rate_limit" ∷ "rate limit" ∷ "too many requests" ∷ "http 429" ∷ "status 429" ∷ [])
          value,
      "throttled",
    )
    ∷ (
      names_any ("overloaded" ∷ "overload" ∷ "capacity" ∷ "http 529" ∷ "status 529" ∷ []) value,
      "overloaded",
    )
    ∷ (
      names_any
          ("server_error" ∷ "internal server error" ∷ "connection" ∷ "network" ∷ "transport"
            ∷ "temporarily unavailable" ∷ "http 5" ∷ "status 5" ∷ [])
          value,
      "transient",
    )
    ∷ []

-- The first category whose test holds.
unfoldable pub first_category : List (Bool × String) → String
first_category [] = "unknown"
first_category (c ∷ cs) = if c.0 then c.1 else first_category cs

unfoldable pub category_from_terminal : Patterns → String → String → String
unfolding first_category contains any
category_from_terminal re adapter text = first_category (category_tests re adapter (re.lower text))

-- The event is a failure that ends the stream of this adapter.
abbrev pub is_failed_end : String → Fields → Bool
is_failed_end adapter fs =
    if str_eq adapter "codex"
    then is_str "error" (get "type" fs) || is_str "turn.failed" (get "type" fs)
    else str_eq adapter "claude" && (is_str "result" (get "type" fs) && is_true (get "is_error" fs))

-- The category and the diagnostic; `sanitize` is `sanitize_diagnostic`.
unfoldable pub structured_terminal :
    Patterns
    → (String → String)
    → (String → Option Json)
    → String
    → List String
    → Option (String × String)
unfolding final_event error_text category_from_terminal
structured_terminal re sanitize loads adapter lines = elim (final_event loads lines) [
  | none ↦ none
  | some fs ↦
      if is_failed_end adapter fs
      then some (category_from_terminal re adapter (error_text fs), sanitize (error_text fs))
      else none
]

abbrev pub or_blank : Option String → String
or_blank none = ""
or_blank (some s) = s

-- `_fallback_terminal`, of the lines of the log or of one that cannot be read.
unfoldable pub fallback_terminal :
    Patterns
    → (String → String)
    → (String → Option Json)
    → String
    → Option (List String)
    → String × String
unfolding structured_terminal last_of strip
fallback_terminal re sanitize loads adapter none = ("unknown", "terminal diagnostic unavailable")
fallback_terminal re sanitize loads adapter (some lines) =
    elim (structured_terminal re sanitize loads adapter lines) [
      | some found ↦ found
      | none ↦ ("unknown", sanitize (or_blank (last_of (spoken lines))))
    ]

-- `has_successful_terminal`
unfoldable pub has_successful_terminal :
    (String → Option Json) → String → Option (List String) → Bool
unfolding final_event
has_successful_terminal loads adapter none = false
has_successful_terminal loads adapter (some lines) = elim (final_event loads lines) [
  | none ↦ false
  | some fs ↦
      if str_eq adapter "codex"
      then is_str "turn.completed" (get "type" fs)
      else str_eq adapter "claude"
        && is_str "result" (get "type" fs)
        && not (is_true (get "is_error" fs))
]
