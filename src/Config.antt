-- ===== src/Config.antt =====
-- nc/config.py: the limits of the scheduler and the choice of a model for a role.
use neocortex.State.Tables.{Role}
use neocortex.Prelude.{List, Option, String, [], if◌then◌else◌, ltb, none, some, str_eq, ℕ, ◌∷◌}

abbrev pub role_name : Role → String
role_name Role.worker = "worker"
role_name Role.critic = "critic"
role_name Role.planner = "planner"
role_name Role.plan_critic = "plan_critic"

pub record Config : Type 0 where
  pub models : List (String × String)
  pub max_consecutive_failures : ℕ
  pub max_attempts : ℕ
  pub planner_max_queued : ℕ
  pub planner_max_pending_proposals : ℕ
  pub ask_timeout_s : ℕ

-- `PLANNER_MODEL_PRIORITY.get(model, 0)`
unfoldable pub planner_priority : String → ℕ
planner_priority m =
    if str_eq m "gpt-5.6-luna"
    then 1
    else if str_eq m "gpt-5.5"
    then 2
    else if str_eq m "gpt-5.6-terra"
    then 3
    else if str_eq m "gpt-5.6-sol"
    then 4
    else if str_eq m "gpt-6-astra"
    then 5
    else 0

unfoldable pub model_named : String → List (String × String) → Option String
model_named role [] = none
model_named role ((r, m) ∷ rest) = if str_eq r role then some m else model_named role rest

-- `max(models.values(), key=...)`: the first of the heaviest models.
unfoldable pub heaviest : List (String × String) → Option String
unfolding planner_priority
heaviest [] = none
heaviest ((r, m) ∷ rest) = elim (heaviest rest) [
  | none ↦ some m
  | some b ↦ if ltb (planner_priority m) (planner_priority b) then some b else some m
]

abbrev pub first_model : List (String × String) → Option String
first_model [] = none
first_model ((r, m) ∷ rest) = some m

abbrev pub planner_model : Config → Option String
planner_model cfg = elim (model_named "planner" cfg.models) [
  | some m ↦ some m
  | none ↦ heaviest cfg.models
]

-- `none` where the source raises, with no model configured.
unfoldable pub model_for : Config → Role → Option String
unfolding model_named heaviest
model_for cfg role = elim (model_named (role_name role) cfg.models) [
  | some m ↦ some m
  | none ↦ elim role [
    | Role.plan_critic ↦ planner_model cfg
    | Role.planner ↦ heaviest cfg.models
    | _ ↦ first_model cfg.models
  ]
]
