-- ===== src/Scheduler/Verdict.antt =====
-- nc/scheduler.py: `_on_done`, `_apply_verdict` and `_store_checks`.
use neocortex.State.Rows.{no_fields, set_agent, set_task}
use neocortex.State.Query.{is_critic, opt_eq}
use neocortex.State.Incidents.{incident}
use neocortex.Scheduler.Handlers.{
  add_failure, block_task, on_fail, rework, say, set_status, verdict_payload, worker_id,
}
use neocortex.State.Mail.{add_agent, send}
use neocortex.Protocol.{Outcome}
use neocortex.State.Exec.{
  Exec, gets, lift, modify_host, or_raise, pure, raise, runtime_error, stop_iteration, when, ◌>>=◌,
  ◌>>◌,
}
use neocortex.Config.{Config, model_for}
use neocortex.Prelude.{
  Bool, List, String, [], decimal, false, if◌then◌else◌, join, keep, length, map, none, null,
  prefix, some, str_eq, true, ℕ, ◌&&◌, ◌++◌, ◌+◌, ◌||◌, ◌∷◌,
}
use neocortex.Arbiter.{
  Arbiter, CheckResult, checks_summary, conflict, merge_failed, merged, parse_acceptance, render,
}
use neocortex.State.Tables.{Agent, AgentState, Db, MessageKind, Project, Role, Task, TaskStatus}

abbrev pub known_verdict : String → Bool
known_verdict v = str_eq v "pass" || str_eq v "rework" || str_eq v "reject"

abbrev pub note : String → String → String → Exec (Unit {0})
note kind tid text = incident kind (say (tid ∷ ": " ∷ text ∷ [])) >>= λ _. pure tt

abbrev pub no_verdict_text : Arbiter → Agent → Outcome → String
no_verdict_text arb agent outcome = say (
    agent.id
    ∷ " ended DONE without a verdict (got "
    ∷ arb.repr outcome.verdict
    ∷ "): "
    ∷ prefix 200 outcome.summary
    ∷ [])

-- A review without a verdict counts against the critic, not against the work.
unfoldable pub no_verdict : Config → Arbiter → Agent → Task → Outcome → Exec (Unit {0})
unfolding on_fail incident
no_verdict cfg arb agent task outcome = do
  note "protocol" task.id (no_verdict_text arb agent outcome)
  add_failure
  on_fail cfg agent task outcome

abbrev pub conflict_finding : String → List String → String
conflict_finding base files = say (
    "The critic accepted your work, but the branch no longer merges into "
    ∷ base
    ∷ ": conflicts in "
    ∷ join ", " files
    ∷ ". Merge "
    ∷ base
    ∷ " into your branch, resolve the conflicts, keep the acceptance checks green and commit. Do not rewrite history."
    ∷ [])

-- The text of `MergeConflict`.
abbrev pub conflict_text : String → List String → String
conflict_text branch files =
    say (branch ∷ " conflicts with the base branch in: " ∷ join ", " files ∷ [])

-- The writes once git has merged the branch, in the order of the source.
unfoldable pub accept : Arbiter → Task → Outcome → String → Exec (Unit {0})
unfolding set_task set_agent incident
accept arb task outcome commit = do
  set_task task.id (record no_fields {
    status = some TaskStatus.done;
    merge_commit = some commit;
    result = some (say (outcome.summary ∷ " (merged as " ∷ commit ∷ ")" ∷ []));
  })
  set_agent (worker_id task.id) AgentState.done
  when (if str_eq arb.mirror "" then false else true) (note "mirror_push" task.id arb.mirror)
  elim arb.remove_worktree [ none ↦ pure tt | some text ↦ note "worktree_cleanup" task.id text ]

unfoldable pub try_merge : Config → Arbiter → Agent → Task → String → Outcome → Exec (Unit {0})
unfolding accept rework incident
try_merge cfg arb agent task branch outcome = elim arb.integrate [
  | merged commit ↦ accept arb task outcome commit
  | merge_failed text ↦ raise (runtime_error text)
  | conflict files ↦ (do
    base ← lift arb.base_branch
    note "merge_conflict" task.id (conflict_text branch files)
    rework cfg agent task (conflict_finding base files ∷ []) false)
]

abbrev pub findings_or_summary : Outcome → List String
findings_or_summary o = if null o.findings then o.summary ∷ [] else o.findings

-- Once the verdict is known.
unfoldable pub act_on_verdict : Config → Arbiter → Agent → Task → String → Outcome → Exec (Unit {0})
unfolding try_merge rework block_task
act_on_verdict cfg arb agent task branch outcome =
    if str_eq outcome.verdict "pass"
    then try_merge cfg arb agent task branch outcome
    else if str_eq outcome.verdict "reject"
    then block_task task agent (say ("critic rejected the approach: " ∷ outcome.summary ∷ []))
    else rework cfg agent task (findings_or_summary outcome) true

unfoldable pub apply_verdict : Config → Arbiter → Agent → Task → String → Outcome → Exec (Unit {0})
unfolding no_verdict act_on_verdict set_agent send
apply_verdict cfg arb agent task branch outcome =
    if known_verdict outcome.verdict
    then (do
      _ ←
          send MessageKind.review_verdict agent.id (worker_id task.id)
            (verdict_payload outcome.verdict outcome.summary outcome.findings) (some task.id) none
      set_agent agent.id AgentState.done
      act_on_verdict cfg arb agent task branch outcome)
    else no_verdict cfg arb agent task outcome

-- The file checks/<task>.txt.
unfoldable pub put_checks : String → String → List (String × String) → List (String × String)
put_checks tid text [] = (tid, text) ∷ []
put_checks tid text ((k, v) ∷ rest) =
    if str_eq k tid then (k, text) ∷ rest else (k, v) ∷ put_checks tid text rest

abbrev pub store_checks : String → List CheckResult → Exec (Unit {0})
store_checks tid results =
    modify_host (λ h. record h { checks = put_checks tid (checks_summary results) h.checks })

-- The commands of the criteria, then the project's own test command, if it has one.
abbrev pub commands_for : Task → Project → List String
commands_for task project =
    (parse_acceptance task.acceptance).0
    ++ (elim project.test_cmd [ none ↦ [] | some c ↦ if str_eq c "" then [] else c ∷ [] ])

abbrev pub failed_checks : List CheckResult → List CheckResult
failed_checks = keep (λ r. if r.passed then false else true)

abbrev pub critics_of : String → Db → ℕ
critics_of tid db = length (keep (λ a. opt_eq a.task_id tid && is_critic a.role) db.agents)

abbrev pub next_critic : String → ℕ → String
next_critic tid reviews = say ("critic-" ∷ tid ∷ "-" ∷ decimal (reviews + 1) ∷ [])

-- A critic gets the task; the worker waits for the verdict.
unfoldable pub hand_to_critic : Config → Agent → Task → Project → Exec (Unit {0})
unfolding add_agent set_agent set_task
hand_to_critic cfg agent task project = do
  reviews ← gets (critics_of task.id)
  model ← or_raise (model_for cfg Role.critic) stop_iteration
  _ ← add_agent (next_critic task.id reviews) Role.critic project.id (some task.id) model
  set_agent agent.id AgentState.blocked
  set_status task.id TaskStatus.in_review

-- The acceptance checks of a branch with commits decide.
unfoldable pub check_work : Config → Arbiter → Agent → Task → Project → Exec (Unit {0})
unfolding hand_to_critic rework
check_work cfg arb agent task project = do
  let results = arb.run_checks (commands_for task project)
  store_checks task.id results
  if null (failed_checks results)
      then hand_to_critic cfg agent task project
      else rework cfg agent task (map render (failed_checks results)) true

unfoldable pub review_work : Config → Arbiter → Agent → Task → Project → Exec (Unit {0})
unfolding check_work rework
review_work cfg arb agent task project = do
  committed ← lift arb.has_commits
  if committed
      then check_work cfg arb agent task project
      else rework cfg agent task ("You reported DONE but the branch has no commits." ∷ []) true

unfoldable pub on_done :
    Config → Arbiter → Agent → Task → Project → String → Outcome → Exec (Unit {0})
unfolding apply_verdict review_work
on_done cfg arb agent task project branch outcome =
    if is_critic agent.role
    then apply_verdict cfg arb agent task branch outcome
    else review_work cfg arb agent task project
