-- ===== src/State/Tasks.antt =====
-- nc/state.py: task ids, validation and creation of tasks, import of specs.
use neocortex.Prelude.{
  ℕ, suc, String, true, false, List, [], ◌∷◌, ◌++◌, Option, none, some, any, is_some, str_eq,
  text_append, decimal_03, blank, if◌then◌else◌,
}
use neocortex.Prelude.Int.{ℤ, pos}
use neocortex.Json.{Json, null, int, as_str, as_int, as_strings, Fields, lookup, list, nil}
use neocortex.State.Tables.{TaskStatus, Task}
use neocortex.State.Exec.{
  Exec, pure, raise, gets, or_raise, raise_if, modify, now, transaction, ◌>>=◌, ◌>>◌,
  unknown_project, unknown_dependency, foreign_dependency, title_required, objective_required,
  acceptance_not_strings, boundaries_not_strings, depends_on_not_strings, priority_not_int,
  bad_budget, integrity_error, key_error,
}
use neocortex.State.Query.{project_by_id, task_by_id}

-- The upsert on `task_seq`.
unfoldable pub bump : String → List (String × ℕ) → List (String × ℕ)
bump pid [] = (pid, 1) ∷ []
bump pid ((q, n) ∷ rest) = if str_eq q pid then (q, suc n) ∷ rest else (q, n) ∷ bump pid rest

unfoldable pub last_seq : String → List (String × ℕ) → ℕ
last_seq pid [] = 0
last_seq pid ((q, n) ∷ rest) = if str_eq q pid then n else last_seq pid rest

unfoldable pub task_id : String → ℕ → String
task_id pid n = text_append pid (text_append "-T" (decimal_03 n))

unfoldable pub next_task_id : String → Exec String
unfolding task_id bump last_seq
next_task_id pid = do
  modify (λ db. record db { task_seq = bump pid db.task_seq })
  n ← gets (λ db. last_seq pid db.task_seq)
  pure (task_id pid n)

-- What `_validate_task_fields` lets through, at its types.
pub record ValidTask : Type 0 where
  pub project_id : String
  pub title : String
  pub objective : String
  pub acceptance : List String
  pub boundaries : List String
  pub priority : ℤ
  pub budget_turns : ℕ
  pub depends_on : List String

abbrev pub text_value : Json → Option String
text_value v = elim (as_str v) [ none ↦ none | some s ↦ if blank s then none else some s ]

abbrev pub or_empty : Json → Json
or_empty null = list nil
or_empty v = v

-- `type(value) is int and value >= 1`
abbrev pub as_positive : Json → Option ℕ
as_positive (int (pos (suc n))) = some (suc n)
as_positive _ = none

unfoldable pub check_dependency : List String → String → String → Exec (Unit {0})
check_dependency allowed pid dep = do
  row ← gets (task_by_id dep)
  elim row [
    | none ↦ if any (str_eq dep) allowed then pure tt else raise (unknown_dependency dep)
    | some t ↦ if str_eq t.project_id pid then pure tt else raise (foreign_dependency dep)
  ]

unfoldable pub check_dependencies : List String → String → List String → Exec (Unit {0})
unfolding check_dependency
check_dependencies allowed pid [] = pure tt
check_dependencies allowed pid (d ∷ ds) =
    check_dependency allowed pid d >> check_dependencies allowed pid ds

-- The arguments of `_add_task`, as they come from a caller or from decoded JSON.
pub record TaskInput : Type 0 where
  pub project_id : Json
  pub title : Json
  pub objective : Json
  pub acceptance : Json
  pub boundaries : Json
  pub priority : Json
  pub budget_turns : Json
  pub depends_on : Json

unfoldable pub known_project : Json → Exec String
known_project v = do
  pid ← or_raise (as_str v) (unknown_project "")
  row ← gets (project_by_id pid)
  raise_if (elim row [ none ↦ true | some p ↦ false ]) (unknown_project pid)
  pure pid

-- `_validate_task_fields` from the known project on.
unfoldable pub validate_fields : TaskInput → List String → String → Exec ValidTask
unfolding check_dependencies
validate_fields i allowed pid = do
  title ← or_raise (text_value i.title) title_required
  objective ← or_raise (text_value i.objective) objective_required
  acceptance ← or_raise (as_strings i.acceptance) acceptance_not_strings
  boundaries ← or_raise (as_strings (or_empty i.boundaries)) boundaries_not_strings
  depends_on ← or_raise (as_strings (or_empty i.depends_on)) depends_on_not_strings
  priority ← or_raise (as_int i.priority) priority_not_int
  budget ← or_raise (as_positive i.budget_turns) bad_budget
  check_dependencies allowed pid depends_on
  pure (record {
    project_id = pid;
    title = title;
    objective = objective;
    acceptance = acceptance;
    boundaries = boundaries;
    priority = priority;
    budget_turns = budget;
    depends_on = depends_on;
  })

unfoldable pub validate_task_fields : TaskInput → List String → Exec ValidTask
unfolding known_project validate_fields
validate_task_fields i allowed = do pid ← known_project i.project_id; validate_fields i allowed pid

abbrev pub new_task : String → ValidTask → ℕ → Task
new_task tid v at = record {
  id = tid;
  project_id = v.project_id;
  title = v.title;
  objective = v.objective;
  acceptance = v.acceptance;
  boundaries = v.boundaries;
  status = TaskStatus.queued;
  priority = v.priority;
  attempts = 0;
  budget_turns = v.budget_turns;
  merge_commit = none;
  result = none;
  depends_on = v.depends_on;
  created_at = at;
  updated_at = at;
}

-- `_add_task`; the caller owns the transaction.
unfoldable pub insert_task : TaskInput → List String → Exec String
insert_task i allowed = do
  v ← validate_task_fields i allowed
  tid ← next_task_id v.project_id
  at ← now
  taken ← gets (task_by_id tid)
  raise_if (is_some taken) integrity_error
  modify (λ db. record db { tasks = db.tasks ++ new_task tid v at ∷ [] })
  pure tid

unfoldable pub add_task : TaskInput → Exec String
add_task i = transaction (insert_task i [])

-- `spec["key"]`: a missing key raises `KeyError`.
abbrev pub item : String → Fields → Exec Json
item k fs = or_raise (lookup k fs) key_error

-- `spec.get("key", default)`
abbrev pub get_or : String → Json → Fields → Json
get_or k d fs = elim (lookup k fs) [ none ↦ d | some v ↦ v ]

unfoldable pub spec_input : Fields → Exec TaskInput
spec_input fs = do
  project ← item "project" fs
  title ← item "title" fs
  objective ← item "objective" fs
  acceptance ← item "acceptance" fs
  pure (record {
    project_id = project;
    title = title;
    objective = objective;
    acceptance = acceptance;
    boundaries = get_or "boundaries" null fs;
    priority = get_or "priority" (int (pos 100)) fs;
    budget_turns = get_or "budget_turns" (int (pos 6)) fs;
    depends_on = get_or "depends_on" null fs;
  })

unfoldable pub add_task_spec : Fields → Exec String
unfolding spec_input
add_task_spec fs = transaction (do i ← spec_input fs; insert_task i [])
