-- ===== src/State/Approve.antt =====
-- nc/state.py: `approve_proposal`, which turns a pending proposal into queued tasks.
pub mod Atomic
use neocortex.Prelude.{
  ℕ, String, Bool, true, false, ◌||◌, List, [], ◌∷◌, ◌++◌, map, Option, none, some, null, str_eq,
  if◌then◌else◌,
}
use neocortex.Json.{Json, Fields, as_dict, as_str, as_strings, lookup, get, is_str}
use neocortex.State.Tables.{ProposalStatus, Proposal}
use neocortex.State.Exec.{
  Exec, pure, or_raise, raise_if, modify, now, transaction, ◌>>=◌, ◌>>◌, has_findings, foreign_spec,
  type_error,
}
use neocortex.State.Rows.{update_task, update_proposal, backup_dirty}
use neocortex.State.Tasks.{spec_input, insert_task, item}
use neocortex.State.Proposals.{pending_proposal, proposal_findings}

-- `spec["id"]` where `spec.get("id")` is true. Only a text can name a dependency.
abbrev pub spec_id : Fields → Option String
spec_id fs = elim (as_str (get "id" fs)) [
  | none ↦ none
  | some s ↦ if str_eq s "" then none else some s
]

-- `spec.get("depends_on", [])`
abbrev pub spec_deps : Fields → Option (List String)
spec_deps fs = elim (lookup "depends_on" fs) [ none ↦ some [] | some v ↦ as_strings v ]

unfoldable pub local_names : List Json → List String
local_names [] = []
local_names (v ∷ vs) = elim (as_dict v) [
  | none ↦ local_names vs
  | some fs ↦ elim (spec_id fs) [ none ↦ local_names vs | some s ↦ s ∷ local_names vs ]
]

unfoldable pub all_deps : List Json → List String
all_deps [] = []
all_deps (v ∷ vs) = elim (as_dict v) [
  | none ↦ all_deps vs
  | some fs ↦ elim (spec_deps fs) [ none ↦ all_deps vs | some ds ↦ ds ++ all_deps vs ]
]

-- The names that a dependency may have beside those of existing tasks.
abbrev pub allowed_dependencies : Bool → List Json → List String
allowed_dependencies force specs =
    if force then local_names specs ++ all_deps specs else local_names specs

unfoldable pub insert_specs : List String → String → List Json → Exec (List String)
insert_specs allowed pid [] = pure []
insert_specs allowed pid (v ∷ vs) = do
  fs ← or_raise (as_dict v) type_error
  project ← item "project" fs
  raise_if (if is_str pid project then false else true) foreign_spec
  i ← spec_input fs
  tid ← insert_task i allowed
  rest ← insert_specs allowed pid vs
  pure (tid ∷ rest)

-- `local_ids`, in the order of the specs; a later entry hides an earlier one.
unfoldable pub local_ids : List Json → List String → List (String × String)
local_ids (v ∷ vs) (t ∷ ts) = elim (as_dict v) [
  | none ↦ local_ids vs ts
  | some fs ↦ elim (spec_id fs) [ none ↦ local_ids vs ts | some s ↦ (s, t) ∷ local_ids vs ts ]
]
local_ids _ _ = []

unfoldable pub last_of : String → List (String × String) → Option String
last_of k [] = none
last_of k ((j, t) ∷ rest) = elim (last_of k rest) [
  | none ↦ if str_eq j k then some t else none
  | some u ↦ some u
]

-- `local_ids.get(dep, dep)`
unfoldable pub resolve : List (String × String) → String → String
unfolding last_of
resolve ids dep = elim (last_of dep ids) [ none ↦ dep | some t ↦ t ]

unfoldable pub link_tasks : List (String × String) → List Json → List String → Exec (Unit {0})
link_tasks ids (v ∷ vs) (t ∷ ts) = do
  fs ← or_raise (as_dict v) type_error
  deps ← or_raise (spec_deps fs) type_error
  modify (update_task t (λ row. record row { depends_on = map (resolve ids) deps }))
  link_tasks ids vs ts
link_tasks ids _ _ = pure tt

unfoldable pub create_tasks : ℕ → Bool → Proposal → Exec (List String)
unfolding insert_specs local_ids link_tasks
create_tasks pid force p = do
  ids ← insert_specs (allowed_dependencies force p.spec) p.project_id p.spec
  link_tasks (local_ids p.spec ids) p.spec ids
  at ← now
  modify (
      update_proposal pid
        (λ q. record q { status = ProposalStatus.approved; decided_at = some at }))
  backup_dirty
  pure ids

module _ (check : List Json → List String → Option (List String)) where
  -- A pending proposal and its fresh findings; `none` commits the findings and refuses.
  unfoldable pub decide_on : ℕ → Bool → Proposal → List String → Exec (Option (List String))
  unfolding create_tasks
  decide_on pid force p findings = do
    modify (update_proposal pid (λ q. record q { findings = findings }))
    if null findings || force
        then (do ids ← create_tasks pid force p; pure (some ids))
        else pure none

  unfoldable pub check_and_decide : ℕ → Bool → Proposal → Exec (Option (List String))
  unfolding proposal_findings decide_on
  check_and_decide pid force p =
      proposal_findings check p.spec >>= λ findings. decide_on pid force p findings

  -- The body of the transaction.
  unfoldable pub decide : ℕ → Bool → Exec (Option (List String))
  unfolding pending_proposal check_and_decide
  decide pid force = pending_proposal pid >>= λ p. check_and_decide pid force p

  unfoldable pub approve_proposal : ℕ → Bool → Exec (List String)
  unfolding decide
  approve_proposal pid force = do ids ← transaction (decide pid force); or_raise ids has_findings
