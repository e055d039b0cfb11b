-- ===== src/State/Tables.antt =====
-- The schema of nc/state.py: a record for each table's row, and the database.
-- Text columns that hold JSON are the values that the JSON stands for; times are numbers of ticks.
use neocortex.Prelude.{ℕ, suc, String, Bool, List, [], ◌∷◌, ◌++◌, Option}
use neocortex.Prelude.Int.{ℤ}
use neocortex.Json.{Json}

pub data TaskStatus : Type 0 where
  queued in_progress in_review done failed blocked cancelled : TaskStatus

pub data AgentState : Type 0 where
  runnable waiting blocked done failed : AgentState

pub data Role : Type 0 where
  worker critic planner plan_critic : Role

pub data MessageKind : Type 0 where
  question answer review_verdict incident feedback cancellation : MessageKind

pub data OutcomeKind : Type 0 where
  done ask yielded fail no_outcome : OutcomeKind

-- The `outcome` column of a run; recovery writes INTERRUPTED.
pub data RunOutcome : Type 0 where
  of_turn : OutcomeKind → RunOutcome
  interrupted : RunOutcome

pub data ProposalStatus : Type 0 where
  pending approved rejected superseded : ProposalStatus

pub data ReviewStatus : Type 0 where
  running retryable done failed : ReviewStatus

pub record Project : Type 0 where
  pub id : String
  pub title : String
  pub repo_path : String
  pub test_cmd : Option String
  pub mirror : Option String
  pub created_at : ℕ
  pub planner_skip_reason : Option String
  pub planner_last_ran_at : Option ℕ

pub record Task : Type 0 where
  pub id : String
  pub project_id : String
  pub title : String
  pub objective : String
  pub acceptance : List String
  pub boundaries : List String
  pub status : TaskStatus
  pub priority : ℤ
  pub attempts : ℕ
  pub budget_turns : ℕ
  pub merge_commit : Option String
  pub result : Option String
  pub depends_on : List String
  pub created_at : ℕ
  pub updated_at : ℕ

pub record Agent : Type 0 where
  pub id : String
  pub role : Role
  pub project_id : String
  pub task_id : Option String
  pub state : AgentState
  pub model : String
  pub turns : ℕ
  pub memo : String
  pub created_at : ℕ
  pub updated_at : ℕ

pub record Message : Type 0 where
  pub id : ℕ
  pub kind : MessageKind
  pub sender : String
  pub recipient : String
  pub task_id : Option String
  pub payload : Json
  pub in_reply_to : Option ℕ
  pub delivered : Bool
  pub created_at : ℕ

-- The columns of `run` that the modelled code reads or writes.
pub record Run : Type 0 where
  pub id : ℕ
  pub agent_id : String
  pub task_id : Option String
  pub role : Role
  pub model : String
  pub outcome : Option RunOutcome
  pub detail : Option String
  pub tokens : Option ℕ
  pub log_path : String
  pub started_at : ℕ
  pub ended_at : Option ℕ
  pub defer_until : Option ℕ
  pub recovered_at : Option ℕ
  pub recovery_reason : Option String

pub record Incident : Type 0 where
  pub id : ℕ
  pub kind : String
  pub detail : String
  pub resolved : Bool
  pub created_at : ℕ
  pub resolved_at : Option ℕ
  pub resolution_note : Option String

pub record Proposal : Type 0 where
  pub id : ℕ
  pub project_id : String
  pub source : String
  pub rationale : String
  pub spec : List Json
  pub status : ProposalStatus
  pub created_at : ℕ
  pub decided_at : Option ℕ
  pub reason : Option String
  pub findings : List String

pub record PlanReview : Type 0 where
  pub id : ℕ
  pub proposal_id : ℕ
  pub spec : List Json
  pub status : ReviewStatus
  pub findings : List String
  pub recommendation : String

pub record ReviewAttempt : Type 0 where
  pub id : ℕ
  pub review_id : ℕ
  pub run_id : ℕ
  pub status : ReviewStatus
  pub created_at : ℕ

pub record Revision : Type 0 where
  pub original_id : ℕ
  pub feedback_id : ℕ
  pub planner_id : String
  pub replacement_id : Option ℕ

pub record BackupState : Type 0 where
  pub dirty_generation : ℕ
  pub acknowledged_generation : ℕ
  pub last_attempt_at : Option ℕ
  pub last_success_at : Option ℕ
  pub last_error : Option String

pub record PreflightAttempt : Type 0 where
  pub id : ℕ
  pub role : Role
  pub adapter : String
  pub model : String
  pub category : String
  pub diagnostic : String
  pub defer_until : Option ℕ
  pub usage : Option ℕ
  pub evidence_path : Option String
  pub created_at : ℕ

-- A table with an AUTOINCREMENT key: its rows in order, and the last key given.
pub record Table {ℓ} (A : Type ℓ) : Type ℓ where
  pub rows : List A
  pub seq : ℕ

abbrev pub insert {ℓ} : {A : Type ℓ} → (ℕ → A) → Table A → Table A
insert row t = record { rows = t.rows ++ row (suc t.seq) ∷ []; seq = suc t.seq }

pub record Db : Type 0 where
  pub projects : List Project
  pub task_seq : List (String × ℕ)
  pub tasks : List Task
  pub agents : List Agent
  pub messages : Table Message
  pub runs : Table Run
  pub incidents : Table Incident
  pub proposals : Table Proposal
  pub plan_reviews : Table PlanReview
  pub review_attempts : Table ReviewAttempt
  pub preflight_attempts : Table PreflightAttempt
  pub revisions : List Revision
  pub backup : BackupState
