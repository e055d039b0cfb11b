-- ===== src/Acp/Wire.antt =====
-- nc/acp_decoder.py: the records of the wire that belong to one prompt.
use neocortex.Acp.Usage.{Usage, decode_usage}
use neocortex.Json.{Fields, Json, as_dict, get, has, is_str, lookup}
use neocortex.Prelude.{
  Bool, List, Option, String, [], drop, false, if◌then◌else◌, none, some, suc, take, true, ℕ, ◌&&◌,
  ◌-◌, ◌∷◌,
}

abbrev pub under : {A : Type 0} → Json → A → (Fields → A) → A
under v d f = elim (as_dict v) [ none ↦ d | some fs ↦ f fs ]

-- The active `session/prompt` request.
abbrev pub is_request : String → String → Json → Bool
is_request rid sid v = under v false λ fs.
    is_str rid (get "id" fs)
    && is_str "session/prompt" (get "method" fs)
    && under (get "params" fs) false (λ ps. is_str sid (get "sessionId" ps))

-- A response to it.
abbrev pub is_response : String → Json → Bool
is_response rid v =
    under v false λ fs. is_str rid (get "id" fs) && (if has "method" fs then false else true)

-- The positions of the records that pass a test, from position n on.
unfoldable pub positions : (Json → Bool) → ℕ → List Json → List ℕ
positions p n [] = []
positions p n (v ∷ vs) = let rest = positions p (suc n) vs in if p v then n ∷ rest else rest

abbrev pub only : List ℕ → Option ℕ
only (n ∷ []) = some n
only _ = none

-- `wire[start + 1:stop]`
abbrev pub between : ℕ → ℕ → List Json → List Json
between start stop wire = take (stop - suc start) (drop (suc start) wire)

-- The `update` of a `session/update` notification for the session.
abbrev pub session_update : String → Json → Option Json
session_update sid v = under v none λ fs.
    if is_str "session/update" (get "method" fs)
    then under (get "params" fs) none
        (λ ps. if is_str sid (get "sessionId" ps) then some (get "update" ps) else none)
    else none

-- The direct usage report of an update.
abbrev pub usage_report : Json → Option Json
usage_report u =
    under u none
      λ fs. if is_str "usage_update" (get "sessionUpdate" fs) then lookup "usage" fs else none

-- `_notification_usage`: the last report counts, also if it is malformed.
unfoldable pub notification_usage : String → Option Usage → List Json → Option Usage
notification_usage sid last [] = last
notification_usage sid last (v ∷ vs) =
    notification_usage sid
      (elim (session_update sid v) [
        | none ↦ last
        | some u ↦ elim (usage_report u) [ none ↦ last | some r ↦ decode_usage r ]
      ])
      vs
