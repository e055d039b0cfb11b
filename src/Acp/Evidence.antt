-- ===== src/Acp/Evidence.antt =====
-- nc/acp_client.py: `_TurnEvidenceCollector`, the bounded evidence of one turn. How long a value is
-- as JSON in UTF-8, and a text in UTF-8, are arguments; a value that cannot be written has no length.
pub mod Response
pub mod Bounds
use neocortex.Acp.Air.{bind_kept, bounded_text, fields_of, int_or_null}
use neocortex.Acp.Wire.{session_update}
use neocortex.Acp.Air.{project_air, raw_air_failure}
use neocortex.Prelude.Int.{pos}
use neocortex.Acp.Usage.{Usage, decode_usage}
use neocortex.Json.{lookup, Fields, Json, as_dict, as_str, dict, end, field, get, int, is_str, str}
use neocortex.Prelude.{
  null, ◌⊎◌, Bool, List, Option, String, [], decimal, false, if◌then◌else◌, inl, inr, leb, length,
  ltb, none, size, some, starts_with, text_append, true, update, ℕ, ◌++◌, ◌+◌, ◌||◌, ◌∷◌,
}

pub record Sizes : Type 0 where
  pub json_bytes : Json → Option ℕ
  pub text_bytes : String → ℕ

abbrev pub max_records : ℕ
max_records = 128

abbrev pub max_bytes : ℕ
max_bytes = 65536

abbrev pub max_raw_bytes : ℕ
max_raw_bytes = 8192

-- What a call returns, or the text of its `AcpEvidenceOverflow`.
pub data Collected (A : Type 0) : Type 0 where
  kept : A → Collected A
  overflowed : String → Collected A

pub record Collector : Type 0 where
  pub records : List Json
  pub prompt_id : Option ℕ
  pub session_id : Option String
  pub bytes : ℕ
  pub overflow : Bool
  pub air_observations : List Json
  pub usage : Option Usage

abbrev pub empty_collector : Collector
empty_collector = record {
  records = [];
  prompt_id = none;
  session_id = none;
  bytes = 0;
  overflow = false;
  air_observations = [];
  usage = none;
}

-- A call on the collector: what it raises leaves its writes.
abbrev pub Collects : Type 0 → Type 0
Collects A = Collector → Collected A × Collector

-- One call after another; an exception ends both.
abbrev pub and_then : {A B : Type 0} → Collects A → (A → Collects B) → Collects B
and_then m f c =
    let (r, c') = m c in elim r [ overflowed text ↦ (overflowed text, c') | kept a ↦ f a c' ]

abbrev pub refuse : {A : Type 0} → String → Collects A
refuse text c = (overflowed text, record c { overflow = true })

abbrev pub raw_bytes : Sizes → Option Json → Option ℕ
raw_bytes sizes none = some 0
raw_bytes sizes (some v) = sizes.json_bytes v

abbrev pub observed : Option Json → List Json
observed none = []
observed (some v) = v ∷ []

abbrev pub is_full : Collector → ℕ → ℕ → Bool
is_full c size raw = leb max_records (length c.records) || ltb max_bytes (c.bytes + size + raw)

abbrev pub add_record : Json → Option Json → ℕ → Collector → Collector
add_record value raw more c = record c {
  records = c.records ++ value ∷ [];
  bytes = c.bytes + more;
  air_observations = c.air_observations ++ observed raw;
}

abbrev pub add_sized : Json → Option Json → ℕ → ℕ → Collects (Unit {0})
add_sized value raw size raw_size c =
    if is_full c size raw_size
    then refuse "ACP evidence-overflow: correlated evidence limit exceeded" c
    else (kept tt, add_record value raw (size + raw_size) c)

-- With the lengths of the value and of the raw failure.
abbrev pub add_measured : Json → Option Json → Option ℕ → Option ℕ → Collects (Unit {0})
add_measured value raw none raw_size c =
    refuse "ACP evidence-overflow: unserializable authoritative evidence" c
add_measured value raw (some size) none c =
    refuse "ACP evidence-overflow: unserializable raw AIR evidence" c
add_measured value raw (some size) (some raw_size) c = add_sized value raw size raw_size c

-- `_add`
unfoldable pub add : Sizes → Json → Option Json → Collects (Unit {0})
add sizes value raw c = add_measured value raw (sizes.json_bytes value) (raw_bytes sizes raw) c

abbrev pub overflow_mark : String → Json
overflow_mark reason =
    dict (field "evidence_status" (str "evidence_overflow") (field "reason" (str reason) end))

-- An overflow that the observations show.
abbrev pub refuse_marked : {A : Type 0} → String → String → Collects A
refuse_marked reason text c = (
  overflowed text,
  record c { overflow = true; air_observations = c.air_observations ++ overflow_mark reason ∷ [] },
)

-- `_raw_failure`. The round trip through JSON gives the value back.
unfoldable pub raw_failure : Sizes → Json → Collects (Option Json)
unfolding raw_air_failure
raw_failure sizes update c = elim (raw_air_failure update) [
  | none ↦ (kept none, c)
  | some v ↦ elim (sizes.json_bytes v) [
    | none ↦
        refuse_marked "unserializable AIR sessionFailure"
          "ACP evidence-overflow: unserializable raw AIR evidence" c
    | some size ↦
        if ltb max_raw_bytes size
        then refuse_marked "AIR sessionFailure exceeds local limit"
            "ACP evidence-overflow: raw AIR sessionFailure exceeds local limit" c
        else (kept (some v), c)
  ]
]

-- `prompt_request`: the prompt's text is not kept.
unfoldable pub prompt_request : Sizes → Json → ℕ → String → Collects (Unit {0})
unfolding add
prompt_request sizes version prompt session c =
    add sizes
      (dict (
        field "jsonrpc" version (
          field "id" (int (pos prompt)) (
            field "method" (str "session/prompt")
              (field "params" (dict (field "sessionId" (str session) end)) end)))))
      none (record c { prompt_id = some prompt; session_id = some session })

-- `_incident_belongs`
abbrev pub incident_belongs : Json → Option ℕ → Bool
incident_belongs value none = false
incident_belongs value (some prompt) = elim (as_dict value) [
  | none ↦ true
  | some fs ↦ elim (as_str (get "id" fs)) [
    | none ↦ true
    | some id ↦ starts_with id (text_append (decimal prompt) ":")
  ]
]

-- The raw failure that is kept beside its record.
abbrev pub own_failure : Option Json → Option ℕ → Option Json
own_failure none prompt = none
own_failure (some v) prompt = if incident_belongs v prompt then some v else none

abbrev pub meta_of : Fields → Fields
meta_of air = field "_meta" (dict (field "jetbrains" (dict (field "air" (dict air) end)) end)) end

abbrev pub update_record : String → Fields → Json
update_record session update = dict (
    field "method" (str "session/update") (
      field "params" (dict (field "sessionId" (str session) (field "update" (dict update) end)))
        end))

abbrev pub progress_update : Fields
progress_update = field "sessionUpdate" (str "agent_message_chunk") end

abbrev pub with_usage : Option Usage → Collector → Collector
with_usage none c = c
with_usage (some u) c = record c { usage = some u }

abbrev pub reported_usage : Fields → Option Usage
reported_usage fs =
    if is_str "usage_update" (get "sessionUpdate" fs) then decode_usage (get "usage" fs) else none

-- What is kept of an update: AIR evidence, or the mere fact of progress.
abbrev pub keep_update : Sizes → String → Fields → Option Json → Option Fields → Collects (Unit {0})
keep_update sizes session fs raw (some air) c =
    add sizes (update_record session (meta_of air)) (own_failure raw c.prompt_id) c
keep_update sizes session fs raw none c =
    if is_str "agent_message_chunk" (get "sessionUpdate" fs)
    then add sizes (update_record session progress_update) none c
    else (kept tt, c)

-- With the projection, or the text of its overflow.
abbrev pub keep_projected :
    Sizes → String → Fields → String ⊎ Option Fields → Option Json → Collects (Unit {0})
keep_projected sizes session fs (inl text) raw c =
    refuse_marked "AIR decoder projection exceeds local limit" text c
keep_projected sizes session fs (inr air) raw c =
    keep_update sizes session fs raw air (with_usage (reported_usage fs) c)

-- An update of the session.
unfoldable pub take_update : Sizes → String → Fields → Collects (Unit {0})
unfolding raw_failure project_air add decode_usage
take_update sizes session fs =
    and_then (raw_failure sizes (dict fs))
      (keep_projected sizes session fs (project_air sizes.text_bytes (dict fs)))

-- The fields of an update that belongs to the session.
abbrev pub own_update : Json → Option String → Option (String × Fields)
own_update value none = none
own_update value (some session) = elim (session_update session value) [
  | none ↦ none
  | some update ↦ elim (as_dict update) [ none ↦ none | some fs ↦ some (session, fs) ]
]

abbrev pub take_own : Sizes → Option (String × Fields) → Collects (Unit {0})
take_own sizes none c = (kept tt, c)
take_own sizes (some u) c = take_update sizes u.0 u.1 c

unfoldable pub notification : Sizes → Json → Collects (Unit {0})
unfolding take_update
notification sizes value c = take_own sizes (own_update value c.session_id) c
