-- ===== src/Scheduler/Pick.antt =====
-- nc/scheduler.py: `pick`, `next_ready_task` and `_spawn_for_queued_task`.
pub mod Ready
pub mod First
pub mod Sorted
use neocortex.State.Cancel.{unmet_dependencies}
use neocortex.State.Rows.{set_agent, update_agent, update_task}
use neocortex.Scheduler.Handlers.{say, worker_id}
use neocortex.State.Mail.{new_agent}
use neocortex.Prelude.Int.{lt_ℤ, ℤ}
use neocortex.State.Query.{
  agent_by_id, is_critic, is_pending, is_planner, is_runnable, is_worker, project_is, status_eq,
  task_by_id,
}
use neocortex.State.Exec.{
  Exec, gets, modify, now, or_raise, pure, stop_iteration, transaction, when, ◌>>=◌, ◌>>◌,
}
use neocortex.Config.{Config, model_for}
use neocortex.Prelude.{
  order_by, Bool, List, Option, String, [], decimal, false, find, if◌then◌else◌, is_some, keep, leb,
  length, ltb, none, null, some, str_eq, str_lt, true, update, ℕ, ◌&&◌, ◌++◌, ◌||◌, ◌∷◌,
}
use neocortex.State.Tables.{Agent, AgentState, Db, Role, Task, TaskStatus}

abbrev pub is_task_role : Role → Bool
is_task_role r = is_worker r || is_critic r

-- An agent with the task that it is joined to.
abbrev pub with_task : Db → Agent → Option (Agent × Task)
with_task db a = elim a.task_id [
  | none ↦ none
  | some tid ↦ elim (task_by_id tid db) [ none ↦ none | some t ↦ some (a, t) ]
]

-- `a.state='runnable' AND a.role IN ('worker','critic') AND t.status != 'cancelled'`
abbrev pub is_candidate : Agent × Task → Bool
is_candidate (a, t) =
    is_runnable a.state
    && is_task_role a.role
    && (if status_eq t.status TaskStatus.cancelled then false else true)

-- The `WHERE` of the query, on one row of the join.
abbrev pub join_row : Option (Agent × Task) → List (Agent × Task) → List (Agent × Task)
join_row none rest = rest
join_row (some row) rest = if is_candidate row then row ∷ rest else rest

unfoldable pub joined : Db → List Agent → List (Agent × Task)
joined db [] = []
joined db (a ∷ as') = join_row (with_task db a) (joined db as')

-- One key of an `ORDER BY`, then the rest.
abbrev pub by_key : ℕ → ℕ → Bool → Bool
by_key a b rest = if ltb a b then true else if ltb b a then false else rest

abbrev pub by_priority : ℤ → ℤ → Bool → Bool
by_priority a b rest = if lt_ℤ a b then true else if lt_ℤ b a then false else rest

abbrev pub role_rank : Role → ℕ
role_rank Role.critic = 0
role_rank _ = 1

-- Critics first, then priority, age of the task, age of the agent, id.
unfoldable pub goes_before : Agent × Task → Agent × Task → Bool
goes_before (a, t) (b, u) = by_key (role_rank a.role) (role_rank b.role) (
    by_priority t.priority u.priority
      (by_key t.created_at u.created_at (by_key a.updated_at b.updated_at (str_lt a.id b.id))))

abbrev pub first_row {ℓ} : {A : Type ℓ} → List A → Option A
first_row [] = none
first_row (x ∷ xs) = some x

abbrev pub agent_of : Option (Agent × Task) → Option Agent
agent_of none = none
agent_of (some (a, t)) = some a

-- The query of `pick`.
unfoldable pub runnable_work : Db → Option Agent
unfolding joined goes_before
runnable_work db = agent_of (first_row (order_by goes_before (joined db db.agents)))

unfoldable pub task_before : Task → Task → Bool
task_before t u = by_priority t.priority u.priority (ltb t.created_at u.created_at)

abbrev pub is_queued : Task → Bool
is_queued t = status_eq t.status TaskStatus.queued

abbrev pub is_ready : Db → Task → Bool
is_ready db t = null (unmet_dependencies t.id db)

-- The first queued task, by priority and age, whose dependencies are all accepted.
unfoldable pub next_ready_task : Db → Option Task
unfolding task_before
next_ready_task db = find (is_ready db) (order_by task_before (keep is_queued db.tasks))

-- `INSERT ... ON CONFLICT(id) DO UPDATE SET state='runnable', updated_at=...`
abbrev pub upsert_worker : Agent → Db → Db
upsert_worker a db = elim (agent_by_id a.id db) [
  | some b ↦
      update_agent a.id (λ c. record c { state = AgentState.runnable; updated_at = a.updated_at })
        db
  | none ↦ record db { agents = db.agents ++ a ∷ [] }
]

abbrev pub activate : Task → String → ℕ → Db → Db
activate t model at db =
    let woken =
      upsert_worker (new_agent (worker_id t.id) Role.worker t.project_id (some t.id) model at) db in
    update_task t.id (λ u. record u { status = TaskStatus.in_progress; updated_at = at }) woken

unfoldable pub spawn_for_queued_task : Config → Exec (Option String)
spawn_for_queued_task cfg = transaction (do
  ready ← gets next_ready_task
  elim ready [
    | none ↦ pure none
    | some t ↦ (do
      at ← now
      model ← or_raise (model_for cfg Role.worker) stop_iteration
      modify (activate t model at)
      pure (some (worker_id t.id)))
  ])

-- `role='planner' AND task_id IS NULL AND state IN ('runnable','waiting')`
abbrev pub is_idle_planner : Agent → Bool
is_idle_planner a =
    is_planner a.role
    && (elim a.task_id [ none ↦ true | some t ↦ false ])
    && (elim a.state [ AgentState.runnable ↦ true | AgentState.waiting ↦ true | _ ↦ false ])

unfoldable pub planner_before : Agent → Agent → Bool
planner_before a b = by_key a.updated_at b.updated_at (str_lt a.id b.id)

abbrev pub queued_count : String → Db → ℕ
queued_count pid db = length (keep (λ t. str_eq t.project_id pid && is_queued t) db.tasks)

abbrev pub pending_count : String → Db → ℕ
pending_count pid db =
    length (keep (λ p. str_eq p.project_id pid && is_pending p.status) db.proposals.rows)

-- Why a planner has to wait.
unfoldable pub wait_reason : Config → Bool → String → Db → Option String
wait_reason cfg has_work pid db =
    if has_work
    then some "worker or critic is runnable"
    else if leb cfg.planner_max_pending_proposals (pending_count pid db)
    then some (
        say (
          "pending proposals "
          ∷ decimal (pending_count pid db)
          ∷ " reached planner_max_pending_proposals="
          ∷ decimal cfg.planner_max_pending_proposals
          ∷ []))
    else if ltb cfg.planner_max_queued (queued_count pid db)
    then some (
        say (
          "queued tasks "
          ∷ decimal (queued_count pid db)
          ∷ " exceed planner_max_queued="
          ∷ decimal cfg.planner_max_queued
          ∷ []))
    else none

abbrev pub is_waiting : AgentState → Bool
is_waiting AgentState.waiting = true
is_waiting _ = false

abbrev pub set_skip_reason : String → String → Db → Db
set_skip_reason pid reason db = record db {
  projects =
      update (project_is pid) (λ p. record p { planner_skip_reason = some reason }) db.projects;
}

-- One round of the loop over planners: the first that need not wait is chosen.
unfoldable pub consider_planner : Config → Bool → Option Agent → Agent → Exec (Option Agent)
unfolding wait_reason set_agent
consider_planner cfg has_work chosen a = do
  reason ← gets (wait_reason cfg has_work a.project_id)
  elim reason [
    | some text ↦ (do
      when (if is_waiting a.state then false else true) (set_agent a.id AgentState.waiting)
      modify (set_skip_reason a.project_id text)
      pure chosen)
    | none ↦ elim chosen [
      | some b ↦ pure (some b)
      | none ↦ (do
        when (is_waiting a.state) (set_agent a.id AgentState.runnable)
        gets (agent_by_id a.id))
    ]
  ]

unfoldable pub consider_planners : Config → Bool → Option Agent → List Agent → Exec (Option Agent)
unfolding consider_planner
consider_planners cfg has_work chosen [] = pure chosen
consider_planners cfg has_work chosen (a ∷ rest) =
    consider_planner cfg has_work chosen a >>= λ c. consider_planners cfg has_work c rest

-- The work to do, after one queued task is activated if there was none.
unfoldable pub find_work : Config → Exec (Option Agent)
unfolding spawn_for_queued_task runnable_work
find_work cfg = do
  work ← gets runnable_work
  elim work [
    | some a ↦ pure (some a)
    | none ↦ (do _ ← spawn_for_queued_task cfg; gets runnable_work)
  ]

unfoldable pub pick : Config → Exec (Option Agent)
unfolding find_work consider_planners
pick cfg = do
  work ← find_work cfg
  planners ← gets (λ db. order_by planner_before (keep is_idle_planner db.agents))
  planner ← consider_planners cfg (is_some work) none planners
  pure (elim work [ some a ↦ some a | none ↦ planner ])
