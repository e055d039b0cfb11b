-- ===== src/State/Reviews.antt =====
-- nc/state.py: the claim of a plan review and its completion.
pub mod Claim
use neocortex.State.Proposals.{proposal_by_id}
use neocortex.State.Query.{agent_by_id, is_pending, is_retryable, is_running, project_by_id}
use neocortex.Json.{Json, specs_eq}
use neocortex.State.Tables.{Agent, AgentState, Db, PlanReview, ReviewStatus, Role, insert}
use neocortex.Prelude.{
  [], if◌then◌else◌, is_some, ◌&&◌, ◌++◌, ◌==◌, ◌∷◌, ℕ, String, Bool, true, false, List, Option,
  none, some, find, update, any, text_append, decimal,
}
use neocortex.State.Exec.{
  Exec, gets, integrity_error, modify, now, pure, raise_if, transaction, ◌>>=◌, ◌>>◌,
}

abbrev pub review_of : ℕ → List Json → PlanReview → Bool
review_of pid spec r = r.proposal_id == pid && specs_eq r.spec spec

abbrev pub review_for : ℕ → List Json → Db → Option PlanReview
review_for pid spec db = find (review_of pid spec) db.plan_reviews.rows

-- The proposal is still pending with exactly this text.
abbrev pub is_current : ℕ → List Json → Db → Bool
is_current pid spec db = elim (proposal_by_id pid db) [
  | none ↦ false
  | some p ↦ is_pending p.status && specs_eq p.spec spec
]

-- `INSERT OR IGNORE INTO plan_review`, on the key (proposal, text).
abbrev pub add_review : ℕ → List Json → Db → Db
add_review pid spec db = elim (review_for pid spec db) [
  | some r ↦ db
  | none ↦ record db {
    plan_reviews =
        insert
          (λ n. record {
            id = n;
            proposal_id = pid;
            spec = spec;
            status = ReviewStatus.running;
            findings = [];
            recommendation = "";
          })
          db.plan_reviews;
  }
]

abbrev pub update_reviews : (PlanReview → Bool) → (PlanReview → PlanReview) → Db → Db
update_reviews p f db = record db {
  plan_reviews = record db.plan_reviews { rows = update p f db.plan_reviews.rows };
}

-- `id=? AND status='running'`
abbrev pub running_review : ℕ → PlanReview → Bool
running_review rid r = r.id == rid && is_running r.status

-- The claim succeeds on a new review, or on one that was released for a retry.
abbrev pub claimable : Bool → ReviewStatus → Bool
claimable inserted ReviewStatus.running = inserted
claimable inserted ReviewStatus.retryable = true
claimable inserted _ = false

abbrev pub critic_agent : String → String → String → ℕ → Agent
critic_agent aid pid model at = record {
  id = aid;
  role = Role.plan_critic;
  project_id = pid;
  task_id = none;
  state = AgentState.runnable;
  model = model;
  turns = 0;
  memo = "";
  created_at = at;
  updated_at = at;
}

abbrev pub critic_id : ℕ → String
critic_id rid = text_append "plan-critic-" (decimal rid)

-- `INSERT OR IGNORE INTO agent`
abbrev pub add_critic : Agent → Db → Db
add_critic a db = elim (agent_by_id a.id db) [
  | some b ↦ db
  | none ↦ record db { agents = db.agents ++ a ∷ [] }
]

abbrev pub start_retry : ℕ → Db → Db
start_retry rid =
    update_reviews (λ r. r.id == rid && is_retryable r.status)
      (λ r. record r { status = ReviewStatus.running })

unfoldable pub take_claim : String → String → Bool → PlanReview → Exec (Option ℕ)
take_claim pid model inserted review =
    if claimable inserted review.status
    then (do
      modify (start_retry review.id)
      at ← now
      project ← gets (project_by_id pid)
      raise_if (if is_some project then false else true) integrity_error
      modify (add_critic (critic_agent (critic_id review.id) pid model at))
      pure (some review.id))
    else pure none

-- On the row that the key (proposal, text) has after the insert.
unfoldable pub claim_row : String → String → Bool → Option PlanReview → Exec (Option ℕ)
unfolding take_claim
claim_row project model inserted none = pure none
claim_row project model inserted (some r) = take_claim project model inserted r

-- On a proposal that is still as the caller read it.
unfoldable pub claim_current : ℕ → List Json → String → String → Exec (Option ℕ)
unfolding claim_row
claim_current pid spec project model = do
  known ← gets (review_for pid spec)
  modify (add_review pid spec)
  row ← gets (review_for pid spec)
  claim_row project model (if is_some known then false else true) row

unfoldable pub claim_plan_review : ℕ → List Json → String → String → Exec (Option ℕ)
unfolding claim_current
claim_plan_review pid spec project model = transaction (do
  current ← gets (is_current pid spec)
  if current then claim_current pid spec project model else pure none)

abbrev pub set_attempt : ℕ → ReviewStatus → Db → Db
set_attempt run s db = record db {
  review_attempts = record db.review_attempts {
    rows = update (λ a. a.run_id == run) (λ a. record a { status = s }) db.review_attempts.rows;
  };
}

-- Advice is kept only for a proposal that is still as it was reviewed.
unfoldable pub complete_plan_review : ℕ → ℕ → List Json → ℕ → List String → String → Exec Bool
complete_plan_review rid pid spec run findings recommendation = transaction (do
  current ← gets (is_current pid spec)
  running ← gets (λ db. any (running_review rid) db.plan_reviews.rows)
  if current
      then (do
        modify (
            update_reviews (running_review rid) (λ r. record r {
              status = ReviewStatus.done;
              findings = findings;
              recommendation = recommendation;
            }))
        if running then (do modify (set_attempt run ReviewStatus.done); pure true) else pure false)
      else (do
        modify (
            update_reviews (running_review rid) (λ r. record r {
              status = ReviewStatus.failed;
              recommendation = "proposal changed while review was running";
            }))
        modify (set_attempt run ReviewStatus.failed)
        pure false))
