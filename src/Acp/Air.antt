-- ===== src/Acp/Air.antt =====
-- nc/acp_client.py: the projection of AIR evidence, `_project_air` and `_raw_air_failure`. A result
-- on the left is the text of an `AcpEvidenceOverflow`.
use neocortex.Acp.Usage.{at_path}
use neocortex.Prelude.{
  List, Option, String, [], if◌then◌else◌, inl, inr, join, length, ltb, none, some, text_append,
  update, ℕ, ◌++◌, ◌∷◌, ◌⊎◌,
}
use neocortex.Json.{
  Fields, Items, Json, as_dict, bool, cons, dict, end, field, float, get, int, items, list, lookup,
  nil, str,
}

abbrev pub max_text_bytes : ℕ
max_text_bytes = 4096

abbrev pub max_actions : ℕ
max_actions = 64

abbrev pub max_action_bytes : ℕ
max_action_bytes = 256

-- `update["_meta"]["jetbrains"]["air"]`
abbrev pub air_of : Json → Option Json
air_of update = at_path ("_meta" ∷ "jetbrains" ∷ "air" ∷ []) update

-- `_raw_air_failure`
unfoldable pub raw_air_failure : Json → Option Json
unfolding at_path
raw_air_failure update = elim (air_of update) [
  | none ↦ none
  | some air ↦ elim (as_dict air) [ none ↦ none | some fs ↦ lookup "sessionFailure" fs ]
]

-- `_safe_scalar`
abbrev pub safe_scalar : Json → Json
safe_scalar (bool b) = bool b
safe_scalar (int z) = int z
safe_scalar (float m k) = float m k
safe_scalar _ = Json.null

abbrev pub int_or_null : Json → Json
int_or_null (int z) = int z
int_or_null _ = Json.null

abbrev pub too_long : String → String
too_long name = join "" ("ACP evidence-overflow: " ∷ name ∷ " exceeds local limit" ∷ [])

abbrev pub bind_kept : {A B : Type 0} → String ⊎ A → (A → String ⊎ B) → String ⊎ B
bind_kept (inl text) f = inl text
bind_kept (inr a) f = f a

unfoldable pub fields_of : List (String × Json) → Fields
fields_of [] = end
fields_of (p ∷ ps) = field p.0 p.1 (fields_of ps)

abbrev pub version_field : Fields → String × Json
version_field air = ("version", int_or_null (get "version" air))

abbrev pub safe_revision : Option Json → List (String × Json)
safe_revision none = []
safe_revision (some v) = ("revision", int_or_null v) ∷ []

module _ (text_bytes : String → ℕ) where
  -- `_bounded_text`
  abbrev pub bounded_text : String → ℕ → String → String ⊎ Json
  bounded_text value limit name =
      if ltb limit (text_bytes value) then inl (too_long name) else inr (str value)

  -- A field of the failure, if it is there.
  abbrev pub safe_field : String → Option Json → String ⊎ List (String × Json)
  safe_field key none = inr []
  safe_field key (some (str s)) =
      bind_kept (bounded_text s max_text_bytes (text_append "AIR " key)) (λ v. inr ((key, v) ∷ []))
  safe_field key (some v) = inr ((key, safe_scalar v) ∷ [])

  unfoldable pub safe_fields : Fields → List String → String ⊎ List (String × Json)
  safe_fields fs [] = inr []
  safe_fields fs (key ∷ keys) =
      let rest = safe_fields fs keys in
      bind_kept (safe_field key (lookup key fs)) (λ a. bind_kept rest (λ b. inr (a ++ b)))

  abbrev pub safe_action : Json → String ⊎ Json
  safe_action (str s) = bounded_text s max_action_bytes "AIR action"
  safe_action _ = inr Json.null

  unfoldable pub safe_actions : Items → String ⊎ Items
  safe_actions nil = inr nil
  safe_actions (cons v vs) =
      let rest = safe_actions vs in
      bind_kept (safe_action v) (λ a. bind_kept rest (λ more. inr (cons a more)))

  abbrev pub safe_action_field : Option Json → String ⊎ List (String × Json)
  safe_action_field none = inr []
  safe_action_field (some (list vs)) =
      if ltb max_actions (length (items vs))
      then inl "ACP evidence-overflow: AIR actions limit exceeded"
      else bind_kept (safe_actions vs) (λ kept_actions. inr (("actions", list kept_actions) ∷ []))
  safe_action_field (some _) = inr (("actions", Json.null) ∷ [])

  -- What is kept of a failure.
  unfoldable pub safe_failure : Fields → String ⊎ List (String × Json)
  unfolding safe_fields safe_actions items
  safe_failure fs =
      bind_kept (safe_fields fs ("id" ∷ "category" ∷ "severity" ∷ "title" ∷ "details" ∷ []))
        (λ texts.
          bind_kept (safe_action_field (lookup "actions" fs))
            (λ actions. inr (texts ++ safe_revision (lookup "revision" fs) ++ actions)))

  abbrev pub project_failure : Fields → Option Json → String ⊎ Option Fields
  project_failure air none = inr (some (fields_of (version_field air ∷ [])))
  project_failure air (some (dict fs)) = bind_kept (safe_failure fs) (λ safe.
      inr (some (fields_of (version_field air ∷ ("sessionFailure", dict (fields_of safe)) ∷ []))))
  project_failure air (some _) =
      inr (some (fields_of (version_field air ∷ ("sessionFailure", Json.null) ∷ [])))

  -- `_project_air`
  unfoldable pub project_air : Json → String ⊎ Option Fields
  unfolding at_path safe_failure fields_of
  project_air update = elim (air_of update) [
    | none ↦ inr none
    | some air ↦ elim (as_dict air) [
      | none ↦ inr (some (field "version" Json.null end))
      | some fs ↦ project_failure fs (lookup "sessionFailure" fs)
    ]
  ]
