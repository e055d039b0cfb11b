-- ===== src/Acp/Usage.antt =====
-- nc/acp_decoder.py: `_at`, `_has`, `_integer`, `_usage_integer`, `_usage`.
use neocortex.Prelude.Int.{pos}
use neocortex.Prelude.{List, Option, String, [], if◌then◌else◌, none, some, ℕ, ◌+◌, ◌∷◌}
use neocortex.Json.{Fields, Json, dict, int, int_eq, lookup}

-- `AcpUsage`; a decoded report always has input, output and total.
pub record Usage : Type 0 where
  pub input_tokens : ℕ
  pub output_tokens : ℕ
  pub cached_input_tokens : Option ℕ
  pub total_tokens : ℕ

-- The value behind a path of keys; `_has` asks whether there is one, `_at` takes null for none.
unfoldable pub at_path : List String → Json → Option Json
at_path [] v = some v
at_path (k ∷ ks) (dict fs) = elim (lookup k fs) [ none ↦ none | some v ↦ at_path ks v ]
at_path (k ∷ ks) _ = none

abbrev pub or_null : Option Json → Json
or_null none = Json.null
or_null (some v) = v

-- `_integer`
abbrev pub as_nat : Json → Option ℕ
as_nat (int (pos n)) = some n
as_nat _ = none

-- Two spellings of one field: `none` if neither is there. Where the first value is not an integer
-- the answer is the same whether or not the second equals it.
unfoldable pub agreed : Json → Json → Option ℕ
agreed (int z) b = if int_eq z b then as_nat (int z) else none
agreed _ b = none

unfoldable pub usage_integer : Fields → String → String → Option (Option ℕ)
unfolding agreed
usage_integer fs camel snake = elim (lookup camel fs) [
  | none ↦ elim (lookup snake fs) [ none ↦ none | some b ↦ some (as_nat b) ]
  | some a ↦ elim (lookup snake fs) [ none ↦ some (as_nat a) | some b ↦ some (agreed a b) ]
]

-- A required field, an optional one: `none` refuses the report.
abbrev pub required : Option (Option ℕ) → Option ℕ
required none = none
required (some v) = v

abbrev pub optional : Option (Option ℕ) → Option (Option ℕ)
optional none = some none
optional (some none) = none
optional (some (some n)) = some (some n)

abbrev pub usage_of : ℕ → ℕ → Option ℕ → Option ℕ → Usage
usage_of i o cached total = record {
  input_tokens = i;
  output_tokens = o;
  cached_input_tokens = cached;
  total_tokens = elim total [ none ↦ i + o | some t ↦ t ];
}

unfoldable pub build_usage :
    Option ℕ → Option ℕ → Option (Option ℕ) → Option (Option ℕ) → Option Usage
build_usage (some i) (some o) (some cached) (some total) = some (usage_of i o cached total)
build_usage _ _ _ _ = none

-- `_usage`
unfoldable pub decode_usage : Json → Option Usage
unfolding usage_integer build_usage
decode_usage (dict fs) =
    build_usage (required (usage_integer fs "inputTokens" "input_tokens"))
      (required (usage_integer fs "outputTokens" "output_tokens"))
      (optional (usage_integer fs "cachedInputTokens" "cached_input_tokens"))
      (optional (usage_integer fs "totalTokens" "total_tokens"))
decode_usage _ = none
