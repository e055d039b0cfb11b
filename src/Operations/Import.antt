-- ===== src/Operations/Import.antt =====
-- nc/operations.py: `create_task`, `import_tasks`, `submit_feedback` and `request_plan`.
use neocortex.Operations.Ownership.{truthy}
use neocortex.Operations.Lifecycle.{project_of}
use neocortex.Prelude.Int.{pos}
use neocortex.State.Feedback.{planner_feedback}
use neocortex.State.Rows.{or_else}
use neocortex.State.Tasks.{
  TaskInput, add_task, as_positive, get_or, insert_task, spec_input, text_value,
  validate_task_fields,
}
use neocortex.State.Tables.{Role}
use neocortex.Json.{Fields, Json, as_int, as_strings, dict, get, int, is_str, items, list, nil}
use neocortex.State.Exec.{
  raise, raise_if, ◌>>=◌, ◌>>◌, or_raise, pure, Exec, acceptance_not_strings, bad_budget,
  boundaries_not_strings, depends_on_not_strings, foreign_spec, no_model, objective_required,
  priority_not_int, reason_required, title_required, transaction, type_error,
}
use neocortex.Config.{Config, model_for}
use neocortex.Prelude.{
  Bool, List, Option, String, [], blank, false, if◌then◌else◌, is_some, none, some, true, ℕ, ◌∷◌,
}
pub mod Atomic

unfoldable pub create_task : TaskInput → Exec String
create_task i = add_task i

-- `spec.get(key, default)` where the values have to be lists of texts.
abbrev pub bad_texts : Json → Bool
bad_texts v = if is_some (as_strings v) then false else true

abbrev pub bad_text : Json → Bool
bad_text v = if is_some (text_value v) then false else true

-- The checks on one item of a batch for the project.
unfoldable pub check_item : String → Json → Exec Fields
check_item pid (dict fs) = do
  raise_if (if is_str pid (get "project" fs) then false else true) foreign_spec
  raise_if (bad_text (get "title" fs)) title_required
  raise_if (bad_text (get "objective" fs)) objective_required
  raise_if (bad_texts (get "acceptance" fs)) acceptance_not_strings
  raise_if (bad_texts (get_or "boundaries" (list nil) fs)) boundaries_not_strings
  raise_if (bad_texts (get_or "depends_on" (list nil) fs)) depends_on_not_strings
  raise_if (if is_some (as_int (get_or "priority" (int (pos 100)) fs)) then false else true)
      priority_not_int
  raise_if (if is_some (as_positive (get_or "budget_turns" (int (pos 6)) fs)) then false else true)
      bad_budget
  pure fs
check_item pid _ = raise type_error

-- The checks, and then the validation of the fields, of each item.
unfoldable pub check_items : String → List Json → Exec (Unit {0})
unfolding check_item
check_items pid [] = pure tt
check_items pid (v ∷ vs) = do
  fs ← check_item pid v
  i ← spec_input fs
  _ ← validate_task_fields i []
  check_items pid vs

-- `state._add_task_spec(spec)`; a value that is no object has no keys.
abbrev pub add_item : Json → Exec String
add_item (dict fs) = do i ← spec_input fs; insert_task i []
add_item _ = raise type_error

unfoldable pub add_items : List Json → Exec (List String)
unfolding spec_input insert_task
add_items [] = pure []
add_items (v ∷ vs) = do tid ← add_item v; ids ← add_items vs; pure (tid ∷ ids)

-- Without a project each item has its own transaction.
unfoldable pub import_each : List Json → Exec (List String)
unfolding spec_input insert_task
import_each [] = pure []
import_each (v ∷ vs) = do tid ← transaction (add_item v); ids ← import_each vs; pure (tid ∷ ids)

unfoldable pub import_batch : String → List Json → Exec (List String)
unfolding check_items add_items project_of
import_batch pid specs = do _ ← project_of pid; check_items pid specs; transaction (add_items specs)

-- `specs if isinstance(specs, list) else [specs]`
abbrev pub batch : Json → List Json
batch (list vs) = items vs
batch v = v ∷ []

unfoldable pub import_tasks : Json → Option String → Exec (List String)
unfolding import_each import_batch items
import_tasks specs none = import_each (batch specs)
import_tasks specs (some pid) = import_batch pid (batch specs)

-- The model of a planner, where there is one.
unfoldable pub planner_model_of : Config → Exec String
unfolding model_for
planner_model_of cfg = or_raise (model_for cfg Role.planner) no_model

unfoldable pub submit_feedback :
    Config → Option String → String → Option String → Option ℕ → Exec (String × ℕ)
unfolding planner_model_of planner_feedback
submit_feedback cfg pid text tid proposal = do
  raise_if (blank text) reason_required
  model ← planner_model_of cfg
  planner_feedback pid text model tid proposal false

unfoldable pub request_plan : Config → String → Option String → Exec (String × ℕ)
unfolding planner_model_of planner_feedback
request_plan cfg pid text = do
  model ← planner_model_of cfg
  planner_feedback (some pid) (or_else (truthy text) "Request a planning pass.") model none none
      true
