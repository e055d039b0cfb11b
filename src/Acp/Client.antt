-- ===== src/Acp/Client.antt =====
-- nc/acp_client.py: the checks of `_run_codex_acp_turn` on what the server answers, the requests it
-- denies, and the projection of the prompt's response. A result on the left is the text of an
-- `AcpClientRejected`.
use neocortex.Acp.Wire.{under}
use neocortex.Prelude.Int.{pos}
use neocortex.Acp.Contract.{is_list, listed}
use neocortex.Acp.Usage.{at_path}
use neocortex.Json.{
  Fields, Json, as_dict, bool, dict, end, field, get, int_eq, is_str, items, list, str,
}
use neocortex.Prelude.{
  Bool, List, Option, String, [], any, false, find, if◌then◌else◌, inl, inr, none, not, some,
  str_eq, suc, ℕ, ◌&&◌, ◌||◌, ◌∷◌, ◌⊎◌,
}

-- `CodexAcpPolicy`; whether a path is absolute and whether it is a directory are facts of it.
pub record Policy : Type 0 where
  pub kind : String
  pub cwd : String
  pub workspace_root : String
  pub public_web_search : Bool
  pub network_access : Bool
  pub absolute : Bool
  pub directories : Bool

unfoldable pub first_rejected : List (Bool × String) → Option String
first_rejected [] = none
first_rejected (c ∷ cs) = if c.0 then some c.1 else first_rejected cs

abbrev pub is_restricted : Policy → Bool
is_restricted p = str_eq p.kind "restricted"

abbrev pub is_ordinary : Policy → Bool
is_ordinary p = str_eq p.kind "ordinary"

-- `CodexAcpPolicy.validate`: the first test that holds rejects.
unfoldable pub policy_problem : Policy → Option String
unfolding first_rejected
policy_problem p = first_rejected (
    (not (is_ordinary p || is_restricted p), "unknown ACP policy kind")
    ∷ (not p.absolute, "ACP cwd and workspace root must be absolute")
    ∷ (not p.directories, "ACP cwd and workspace root must exist")
    ∷ (
      is_restricted p && not (str_eq p.cwd p.workspace_root),
      "restricted ACP must preserve its run-directory cwd",
    )
    ∷ (
      is_restricted p && not (p.public_web_search && p.network_access),
      "restricted ACP requires pinned web and network settings",
    )
    ∷ (
      is_ordinary p && (p.public_web_search || p.network_access),
      "ordinary ACP cannot request web or network access",
    )
    ∷ [])

-- `_validate_pinned_mode_for_policy`: the pinned mode writes the workspace and has no network.
abbrev pub mode_problem : Policy → Option String
mode_problem p =
    if is_restricted p
    then some "restricted ACP profile is unsupported by the pinned artifact"
    else none

-- What `_run_codex_acp_turn` checks before it looks at the launch evidence.
unfoldable pub setup_problem : Policy → Bool → Option String
unfolding policy_problem
setup_problem p complete = elim (policy_problem p) [
  | some text ↦ some text
  | none ↦ elim (mode_problem p) [
    | some text ↦ some text
    | none ↦
        if complete then none else some "command, model, prompt, and positive timeout are required"
  ]
]

unfoldable pub dicts_of : List Json → Option (List Fields)
dicts_of [] = some []
dicts_of (v ∷ vs) = elim (dicts_of vs) [
  | none ↦ none
  | some rest ↦ elim (as_dict v) [ none ↦ none | some fs ↦ some (fs ∷ rest) ]
]

abbrev pub malformed_options : String
malformed_options = "server config options are malformed"

-- `_options`
unfoldable pub options_of : Json → String ⊎ List Fields
unfolding dicts_of items
options_of response = under response (inl "server did not return config options") λ fs.
    elim (get "configOptions" fs) [
      | list vs ↦ elim (dicts_of (items vs)) [ none ↦ inl malformed_options | some os ↦ inr os ]
      | _ ↦ inl "server did not return config options"
    ]

abbrev pub offers : String → Json → Bool
offers value (list vs) =
    any (λ choice. under choice false (λ fs. is_str value (get "value" fs))) (items vs)
offers value _ = false

-- `_offered`: the first option with the id.
unfoldable pub offered : List Fields → String → String → Bool
unfolding items
offered options id value = elim (find (λ fs. is_str id (get "id" fs)) options) [
  | none ↦ false
  | some fs ↦ offers value (get "options" fs)
]

-- `_selected`
unfoldable pub selected : Json → String → String → String ⊎ Bool
unfolding options_of
selected response id value = elim (options_of response) [
  | inl text ↦ inl text
  | inr options ↦
      inr (any (λ fs. is_str id (get "id" fs) && is_str value (get "currentValue" fs)) options)
]

-- `value == 1 and not isinstance(value, bool)`
abbrev pub is_one : Json → Bool
is_one (bool b) = false
is_one v = int_eq (pos 1) v

abbrev pub advertises : Json → Bool
advertises air = under air false λ fs.
    is_one (get "version" fs)
    && is_list (get "capabilities" fs)
    && any (is_str "sessionFailure") (listed (get "capabilities" fs))

-- `_air_advertised`
unfoldable pub air_advertised : Json → Bool
unfolding at_path int_eq items
air_advertised response = under response false λ fs.
    is_one (get "protocolVersion" fs)
    && (elim (at_path ("_meta" ∷ "jetbrains" ∷ "air" ∷ []) response) [
      | none ↦ false
      | some air ↦ advertises air
    ])

-- What the host remembers of the server's own requests.
pub record Denials : Type 0 where
  pub cancelled : ℕ
  pub rejection : Option String

abbrev pub cancelled_outcome : Json
cancelled_outcome = dict (field "outcome" (dict (field "outcome" (str "cancelled") end)) end)

abbrev pub cancelled_elicitation : Json
cancelled_elicitation = dict (field "action" (str "cancel") (field "content" Json.null end))

abbrev pub is_own_request : Option String → Fields → Bool
is_own_request none fs = false
is_own_request (some session) fs =
    under (get "params" fs) false (λ ps. is_str session (get "sessionId" ps))

abbrev pub reject_request : String → Denials → (String ⊎ Json) × Denials
reject_request text d = (inl text, record d { rejection = some text })

-- `deny_request`: no request of the server is granted.
unfoldable pub deny_request : Option String → Fields → Denials → (String ⊎ Json) × Denials
deny_request session fs d =
    if not (is_own_request session fs)
    then reject_request "malformed or foreign server request" d
    else if is_str "session/request_permission" (get "method" fs)
    then (inr cancelled_outcome, record d { cancelled = suc d.cancelled })
    else if is_str "elicitation/create" (get "method" fs)
    then (inr cancelled_elicitation, d)
    else reject_request "unsupported server request" d
