-- ===== src/Adapters/Usage.antt =====
-- nc/adapters.py: the token totals, `_usage_total`, `_acp_usage_total`, `parse_stream_tokens`.
use neocortex.Prelude.Int.{pos}
use neocortex.Json.{Fields, Json, as_dict, dict, get, int, is_str, lookup}
use neocortex.Prelude.{
  Bool, List, Option, String, [], false, if◌then◌else◌, keep, map, none, not, some, str_eq, strip,
  true, ℕ, ◌&&◌, ◌+◌, ◌||◌, ◌∷◌,
}

-- `isinstance(value, int) and not isinstance(value, bool) and value >= 0`
abbrev pub count_of : Json → Option ℕ
count_of (int (pos n)) = some n
count_of _ = none

-- The sum, if every value is a count.
unfoldable pub sum_counts : List Json → Option ℕ
sum_counts [] = some 0
sum_counts (v ∷ vs) = elim (sum_counts vs) [
  | none ↦ none
  | some total ↦ elim (count_of v) [ none ↦ none | some n ↦ some (n + total) ]
]

abbrev pub is_null : Json → Bool
is_null Json.null = true
is_null _ = false

-- The cache fields of older streams are missing.
abbrev pub reported : List Json → List Json
reported = keep (λ v. not (is_null v))

-- The sum of the fields that an adapter reports.
unfoldable pub field_total : String → Fields → Option ℕ
unfolding sum_counts
field_total adapter fs =
    if str_eq adapter "codex"
    then sum_counts (get "input_tokens" fs ∷ get "output_tokens" fs ∷ [])
    else if str_eq adapter "claude"
    then sum_counts (
        get "input_tokens" fs
        ∷ get "output_tokens" fs
        ∷ reported (get "cache_creation_input_tokens" fs ∷ get "cache_read_input_tokens" fs ∷ []))
    else none

unfoldable pub usage_total : String → Json → Option ℕ
unfolding field_total
usage_total adapter (dict fs) = elim (count_of (get "total_tokens" fs)) [
  | some total ↦ some total
  | none ↦ field_total adapter fs
]
usage_total adapter _ = none

-- `usage.get("totalTokens", usage.get("total_tokens"))`
unfoldable pub acp_usage_total : Json → Option ℕ
acp_usage_total (dict fs) =
    count_of (elim (lookup "totalTokens" fs) [ some v ↦ v | none ↦ get "total_tokens" fs ])
acp_usage_total _ = none

-- The lines of a log that are not blank, without the blanks around them.
abbrev pub spoken : List String → List String
spoken lines = keep (λ s. not (str_eq s "")) (map strip lines)

unfoldable pub last_of : List String → Option String
last_of [] = none
last_of (s ∷ []) = some s
last_of (s ∷ t ∷ ts) = last_of (t ∷ ts)

-- The object on the last line of a log; `loads` is `json.loads`, or `none` where it raises.
unfoldable pub final_event : (String → Option Json) → List String → Option Fields
unfolding last_of strip
final_event loads lines = elim (last_of (spoken lines)) [
  | none ↦ none
  | some line ↦ elim (loads line) [ none ↦ none | some v ↦ as_dict v ]
]

abbrev pub ends_stream : String → Fields → Bool
ends_stream adapter fs =
    if str_eq adapter "codex"
    then is_str "turn.completed" (get "type" fs) || is_str "turn.failed" (get "type" fs)
    else str_eq adapter "claude" && is_str "result" (get "type" fs)

-- `parse_stream_tokens`
unfoldable pub stream_tokens : (String → Option Json) → String → List String → Option ℕ
unfolding final_event usage_total
stream_tokens loads adapter lines = elim (final_event loads lines) [
  | none ↦ none
  | some fs ↦ if ends_stream adapter fs then usage_total adapter (get "usage" fs) else none
]
