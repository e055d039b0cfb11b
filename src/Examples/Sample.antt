-- ===== src/Examples/Sample.antt =====
-- A small project in the middle of its work.
use neocortex.Json.{end, str}
use neocortex.Prelude.Int.{pos}
use neocortex.State.Exec.{World, ok}
use neocortex.Protocol.{Outcome}
use neocortex.Prelude.{List, String, [], false, none, some, true, ℕ, ◌+◌, ◌∷◌}
use neocortex.Config.{Config}
use neocortex.Arbiter.{Arbiter, merged}
use neocortex.State.Tables.{
  Agent, AgentState, BackupState, Db, Incident, Message, MessageKind, OutcomeKind, Project,
  Proposal, ProposalStatus, Role, Table, Task, TaskStatus,
}

abbrev pub sample_config : Config
sample_config = record {
  models = ("worker", "m1") ∷ ("critic", "m2") ∷ ("planner", "m3") ∷ [];
  max_consecutive_failures = 3;
  max_attempts = 3;
  planner_max_queued = 5;
  planner_max_pending_proposals = 3;
  ask_timeout_s = 600;
}

abbrev pub sample_project : Project
sample_project = record {
  id = "p";
  title = "Project";
  repo_path = "/srv/p";
  test_cmd = none;
  mirror = none;
  created_at = 1;
  planner_skip_reason = none;
  planner_last_ran_at = none;
}

abbrev pub sample_task : TaskStatus → String → List String → Task
sample_task status tid deps = record {
  id = tid;
  project_id = "p";
  title = "Parser";
  objective = "Write it";
  acceptance = "$ make test" ∷ [];
  boundaries = [];
  status = status;
  priority = pos 100;
  attempts = 0;
  budget_turns = 6;
  merge_commit = none;
  result = none;
  depends_on = deps;
  created_at = 2;
  updated_at = 2;
}

abbrev pub sample_agent : Role → String → AgentState → Agent
sample_agent role aid state = record {
  id = aid;
  role = role;
  project_id = "p";
  task_id = some "p-T002";
  state = state;
  model = "m1";
  turns = 0;
  memo = "";
  created_at = 3;
  updated_at = 3;
}

abbrev pub sample_worker : Agent
sample_worker = sample_agent Role.worker "worker-p-T002" AgentState.runnable

abbrev pub sample_critic : Agent
sample_critic = sample_agent Role.critic "critic-p-T002-1" AgentState.runnable

abbrev pub current_task : Task
current_task = sample_task TaskStatus.in_review "p-T002" ("p-T001" ∷ [])

abbrev pub sample_incident : Incident
sample_incident = record {
  id = 1;
  kind = "circuit_breaker";
  detail = "3 consecutive failed turns; stopping";
  resolved = false;
  created_at = 4;
  resolved_at = none;
  resolution_note = none;
}

abbrev pub sample_proposal : Proposal
sample_proposal = record {
  id = 1;
  project_id = "p";
  source = "planner-p";
  rationale = "next step";
  spec = [];
  status = ProposalStatus.pending;
  created_at = 5;
  decided_at = none;
  reason = none;
  findings = [];
}

abbrev pub sample_message : Message
sample_message = record {
  id = 1;
  kind = MessageKind.review_verdict;
  sender = "arbiter";
  recipient = "worker-p-T002";
  task_id = some "p-T002";
  payload = str "rework";
  in_reply_to = none;
  delivered = false;
  created_at = 6;
}

abbrev pub no_rows : {A : Type 0} → Table A
no_rows = record { rows = []; seq = 0 }

abbrev pub one_row : {A : Type 0} → A → Table A
one_row a = record { rows = a ∷ []; seq = 1 }

abbrev pub sample_backup : BackupState
sample_backup = record {
  dirty_generation = 2;
  acknowledged_generation = 1;
  last_attempt_at = none;
  last_success_at = none;
  last_error = none;
}

-- T001 is accepted, T002 is under review and T003 waits in the queue.
abbrev pub sample_db : Db
sample_db = record {
  projects = sample_project ∷ [];
  task_seq = ("p", 3) ∷ [];
  tasks =
      sample_task TaskStatus.done "p-T001" []
      ∷ current_task
      ∷ sample_task TaskStatus.queued "p-T003" ("p-T001" ∷ [])
      ∷ [];
  agents = sample_worker ∷ sample_critic ∷ [];
  messages = one_row sample_message;
  runs = no_rows;
  incidents = one_row sample_incident;
  proposals = one_row sample_proposal;
  plan_reviews = no_rows;
  review_attempts = no_rows;
  preflight_attempts = no_rows;
  revisions = [];
  backup = sample_backup;
}

abbrev pub sample_world : ℕ → World
sample_world failures = record {
  db = sample_db;
  clock = λ n. 100 + n;
  reads = 0;
  host = record { failures = failures; stop = none; checks = [] };
}

abbrev pub sample_arbiter : Arbiter
sample_arbiter = record {
  has_commits = ok true;
  run_checks = λ cs. [];
  integrate = merged "c0ffee";
  base_branch = ok "main";
  mirror = "";
  remove_worktree = none;
  ensure_worktree = ok tt;
  repr = λ s. s;
  error_str = λ e. "error";
  error_repr = λ e. "error";
}

abbrev pub sample_outcome : OutcomeKind → String → Outcome
sample_outcome kind verdict = record {
  kind = kind;
  summary = "done";
  memo = "";
  to = "owner";
  question = "";
  verdict = verdict;
  findings = [];
  raw = end;
  host_deferred = false;
}
