-- ===== src/Session/PlanCritic.antt =====
-- nc/turn.py: `run_plan_critic_turn`, from the claim of the review to its end. The text of an
-- exception is an argument; the brief is part of the session.
pub mod Inert
pub mod Ends
use neocortex.Protocol.{Outcome}
use neocortex.State.Rows.{update_agent}
use neocortex.Session.Planner.{reset_of}
use neocortex.State.Runs.{end_run, start_run}
use neocortex.State.Reviews.{
  claim_plan_review, complete_plan_review, critic_id, set_attempt, update_reviews,
}
use neocortex.Json.{as_str, as_strings, get}
use neocortex.State.Exec.{
  pure, or_raise, value_error, ◌>>=◌, ◌>>◌, Error, Exec, Result, err, lift, modify, no_model, now,
  ok,
}
use neocortex.Config.{Config, model_for}
use neocortex.Prelude.{
  Bool, List, Option, String, false, if◌then◌else◌, none, some, text_append, true, ℕ, ◌&&◌, ◌==◌,
}
use neocortex.Session.{
  raised, unreadable, finished, Assessment, SessionEnd, blank_outcome, failure_of, is_temporary,
  read, unavailable, write_defer,
}
use neocortex.State.Tables.{
  AgentState, Db, OutcomeKind, Proposal, ReviewAttempt, ReviewStatus, Role, insert,
}

abbrev pub new_attempt : ℕ → ℕ → ℕ → ℕ → ReviewAttempt
new_attempt review run at n = record {
  id = n;
  review_id = review;
  run_id = run;
  status = ReviewStatus.running;
  created_at = at;
}

abbrev pub add_attempt : ℕ → ℕ → ℕ → Db → Db
add_attempt review run at db = record db {
  review_attempts = insert (new_attempt review run at) db.review_attempts;
}

-- `UPDATE plan_review SET status=?, recommendation=? WHERE id=?`
abbrev pub set_review : ℕ → ReviewStatus → String → Db → Db
set_review rid status recommendation =
    update_reviews (λ r. r.id == rid)
      (λ r. record r { status = status; recommendation = recommendation })

-- `set_agent(agent_id, state="done", turns=...)`
unfoldable pub close_critic : String → Bool → Exec (Unit {0})
close_critic aid deferred = do
  at ← now
  modify (
      update_agent aid (λ a. record a {
        state = AgentState.done;
        turns = if deferred then 0 else 1;
        updated_at = at;
      }))

abbrev pub released : Bool → ReviewStatus
released deferred = if deferred then ReviewStatus.retryable else ReviewStatus.failed

-- A claimed review, its agent and its run.
pub record Claim : Type 0 where
  pub review : ℕ
  pub run : ℕ
  pub tokens : Option ℕ

unfoldable pub finish_critic : Claim → Bool → Outcome → Outcome → Exec Outcome
unfolding end_run close_critic
finish_critic c deferred o result = do
  end_run c.run o.kind o.summary c.tokens
  close_critic (critic_id c.review) deferred
  pure result

-- The review and its attempt end without advice.
unfoldable pub give_up : Claim → Bool → String → Outcome → Outcome → Exec Outcome
unfolding finish_critic
give_up c deferred recommendation o result = do
  modify (set_review c.review (released deferred) recommendation)
  modify (set_attempt c.run (released deferred))
  finish_critic c deferred o result

-- What the plan critic wrote: a recommendation and its findings.
unfoldable pub advice : Outcome → Result (String × List String)
advice o = elim o.kind [
  | OutcomeKind.done ↦ elim (as_str (get "recommendation" o.raw)) [
    | none ↦ err (value_error "plan critic requires DONE with a recommendation")
    | some text ↦ elim (as_strings (get "findings" o.raw)) [
      | none ↦ err (value_error "plan critic requires a list of findings")
      | some findings ↦ ok (text, findings)
    ]
  ]
  | _ ↦ err (value_error "plan critic requires DONE with a recommendation")
]

-- The advice is recorded if the proposal is still as it was reviewed.
unfoldable pub record_advice : Claim → Proposal → Outcome → String × List String → Exec Outcome
unfolding complete_plan_review
record_advice c p o a = do
  kept ← complete_plan_review c.review p.id p.spec c.run a.1 a.0
  pure (
      if kept
      then o
      else blank_outcome OutcomeKind.done "Proposal changed while review was running" false)

module _ (error_str : Error → String) where
  abbrev pub review_failure : Error → Outcome
  review_failure e =
      blank_outcome OutcomeKind.fail (text_append "Plan review protocol failure: " (error_str e))
        false

  -- `try: ... except Exception` around the advice of a session that succeeded.
  abbrev pub settle_review : Claim → Exec Outcome → Exec Outcome
  settle_review c m w =
      let (r, w') = m w in
      elim r [
        | ok o ↦ finish_critic c false o o w'
        | err e ↦
            give_up c false (review_failure e).summary (review_failure e) (review_failure e) w'
      ]

  unfoldable pub take_advice : Claim → Proposal → Outcome → Exec Outcome
  unfolding advice record_advice finish_critic give_up
  take_advice c p o = settle_review c (do a ← lift (advice o); record_advice c p o a)

  unfoldable pub host_gave_up : Claim → Assessment → Outcome → Exec Outcome
  unfolding give_up
  host_gave_up c a o =
      give_up c (is_temporary a.category) (text_append "host session failed: " a.category) o
        (failure_of "Plan review" a)

  unfoldable pub after_review : ℕ → ℕ → Proposal → SessionEnd → Exec Outcome
  unfolding take_advice host_gave_up give_up
  after_review review run p (finished tokens a (read o)) =
      let c : Claim = record { review = review; run = run; tokens = tokens } in
      if a.failed then host_gave_up c a o else take_advice c p o
  after_review review run p (finished tokens a (unreadable text)) =
      let c : Claim = record { review = review; run = run; tokens = tokens } in
      let o = unavailable "Plan review" text in
      if a.failed && is_temporary a.category
      then (let failure = failure_of "Plan review" a in give_up c true failure.summary o failure)
      else give_up c false o.summary o o
  after_review review run p (raised (some a) text) =
      let o = failure_of "Plan review" a in
      give_up (record { review = review; run = run; tokens = none }) true o.summary o o
  after_review review run p (raised none text) =
      let o = unavailable "Plan review" text in
      give_up (record { review = review; run = run; tokens = none }) false o.summary o o

  -- With the claim.
  unfoldable pub claimed_turn : String → String → Proposal → SessionEnd → ℕ → Exec Outcome
  unfolding start_run after_review
  claimed_turn model log_path p session review = do
    run ← start_run (critic_id review) none Role.plan_critic model log_path
    at ← now
    modify (add_attempt review run at)
    write_defer run (reset_of session)
    after_review review run p session

  unfoldable pub claim_result : String → String → Proposal → SessionEnd → Option ℕ → Exec Outcome
  unfolding claimed_turn
  claim_result model log_path p session none =
      pure (blank_outcome OutcomeKind.done "Proposal is no longer reviewable" false)
  claim_result model log_path p session (some review) = claimed_turn model log_path p session review

  unfoldable pub run_plan_critic_turn : Config → Proposal → String → SessionEnd → Exec Outcome
  unfolding claim_plan_review claim_result model_for
  run_plan_critic_turn cfg p log_path session = do
    model ← or_raise (model_for cfg Role.plan_critic) no_model
    claim ← claim_plan_review p.id p.spec p.project_id model
    claim_result model log_path p session claim
