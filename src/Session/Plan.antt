-- ===== src/Session/Plan.antt =====
-- nc/turn.py: `_planner_specs`. The linter `check_proposal` is an argument.
use neocortex.Protocol.{Outcome}
use neocortex.State.Proposals.{is_spec_of}
use neocortex.State.Exec.{value_error, Result, err, ok, type_error}
use neocortex.Json.{Fields, Json, as_dict, as_str, as_strings, get, items, list, lookup}
use neocortex.Prelude.{
  Bool, List, Option, String, [], all, blank, contains, false, find, if◌then◌else◌, is_some, leb,
  length, none, not, some, true, ◌&&◌, ◌∷◌,
}

abbrev pub text_field : Json → Bool
text_field v = elim (as_str v) [ none ↦ false | some s ↦ not (blank s) ]

-- A list of texts, none of them blank, and at least one.
abbrev pub text_list : Json → Bool
text_list v = elim (as_strings v) [
  | none ↦ false
  | some ss ↦ leb 1 (length ss) && all (λ s. not (blank s)) ss
]

-- Missing, or as the test says.
abbrev pub optional_field : (Json → Bool) → String → Fields → Bool
optional_field test key fs = elim (lookup key fs) [ none ↦ true | some v ↦ test v ]

abbrev pub is_text_list : Json → Bool
is_text_list v = is_some (as_strings v)

abbrev pub is_string : Json → Bool
is_string v = is_some (as_str v)

-- The checks of one task after that of its project, in their order, with the text of the failure.
abbrev pub task_checks : Fields → List (Bool × String)
task_checks fs =
    (text_field (get "title" fs), "proposed task requires a nonempty title")
    ∷ (text_field (get "objective" fs), "proposed task requires a nonempty objective")
    ∷ (text_list (get "acceptance" fs), "proposed task requires nonempty acceptance strings")
    ∷ (text_list (get "boundaries" fs), "proposed task requires nonempty boundaries strings")
    ∷ (optional_field is_text_list "depends_on" fs, "depends_on must be a list of task IDs")
    ∷ (optional_field is_string "id" fs, "proposal-local id must be a string")
    ∷ []

-- The first check that fails.
unfoldable pub first_failed : List (Bool × String) → Option String
first_failed [] = none
first_failed (c ∷ cs) = if c.0 then first_failed cs else some c.1

unfoldable pub spec_problem : String → Json → Option String
unfolding first_failed
spec_problem pid v =
    if is_spec_of pid v
    then (elim (as_dict v) [ none ↦ none | some fs ↦ first_failed (task_checks fs) ])
    else some "each proposed task must belong to the planner project"

-- The first problem of the first task that has one.
unfoldable pub specs_problem : String → List Json → Option String
unfolding spec_problem
specs_problem pid [] = none
specs_problem pid (v ∷ vs) = elim (spec_problem pid v) [
  | some text ↦ some text
  | none ↦ specs_problem pid vs
]

abbrev pub names_path : String → Bool
names_path finding = contains "boundary names a path instead of an invariant" finding

abbrev pub proposed : Outcome → Option (List Json)
proposed o = elim (get "proposal" o.raw) [
  | list vs ↦
      if leb 1 (length (items vs)) && leb (length (items vs)) 5 then some (items vs) else none
  | _ ↦ none
]

module _ (check : List Json → List String → Option (List String)) where
  -- A plan whose tasks have passed the checks.
  unfoldable pub linted_specs : List Json → Result (List Json)
  linted_specs specs = elim (check specs []) [
    | none ↦ err type_error
    | some findings ↦ elim (find names_path findings) [
      | some finding ↦ err (value_error finding)
      | none ↦ ok specs
    ]
  ]

  unfoldable pub checked_specs : String → List Json → Result (List Json)
  unfolding linted_specs specs_problem
  checked_specs pid specs = elim (specs_problem pid specs) [
    | some text ↦ err (value_error text)
    | none ↦ linted_specs specs
  ]

  unfoldable pub planner_specs : String → Outcome → Result (List Json)
  unfolding checked_specs
  planner_specs pid o = elim (proposed o) [
    | none ↦ err (value_error "planner proposal must contain between one and five tasks")
    | some specs ↦ checked_specs pid specs
  ]
