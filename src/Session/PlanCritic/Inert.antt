-- ===== src/Session/PlanCritic/Inert.antt =====
-- nc/turn.py: the tables that `run_plan_critic_turn` does not write.
use neocortex.Session.Planner.{reset_of}
use neocortex.State.Runs.{end_run, start_run}
use neocortex.State.Query.{agent_by_id, project_by_id}
use neocortex.State.Reviews.{
  add_review, add_critic, add_critic, add_review, claim_current, claim_plan_review, claim_row,
  claimable, complete_plan_review, critic_agent, critic_id, is_current, review_for, start_retry,
  take_claim,
}
use neocortex.Session.{
  raised, unreadable, finished, Outcome, SessionEnd, failure_of, is_temporary, read, unavailable,
  write_defer,
}
use neocortex.Json.{Json}
use neocortex.State.Exec.{
  ◌>>=◌, ◌>>◌, World, pure, Error, Exec, Result, World, err, gets, lift, modify, now, ok,
}
use neocortex.Config.{Config, model_for}
use neocortex.Session.PlanCritic.{
  Claim, add_attempt, advice, after_review, claim_result, claimed_turn, close_critic, finish_critic,
  give_up, host_gave_up, record_advice, review_failure, run_plan_critic_turn, settle_review,
  take_advice,
}
use neocortex.Prelude.{
  Bool, Bool-cases, List, Option, Option-cases, String, arith, false, if◌then◌else◌, inl, inr,
  is_some, none, refl, some, suc, text_append, true, ℕ, ◌&&◌, ◌∙◌, ◌≡◌,
}
use neocortex.State.Tables.{
  Agent, BackupState, Db, Incident, Message, PlanReview, PreflightAttempt, Project, Proposal,
  Revision, Role, Table, Task,
}
use neocortex.State.Keeps.{>>-Keeps, >>=-Keeps, Keeps, if-Keeps, transaction-Keeps}

-- The tables besides agents, runs, reviews and their attempts.
abbrev pub Decided : Type 0
Decided =
    List Project
    × List (String × ℕ)
    × List Task
    × Table Message
    × Table Incident
    × Table Proposal
    × Table PreflightAttempt
    × List Revision
    × BackupState

abbrev pub decided : Db → Decided
decided db = (
  db.projects, db.task_seq, db.tasks, db.messages, db.incidents, db.proposals,
  db.preflight_attempts, db.revisions, db.backup,
)

abbrev IsInert : {A : Type 0} → Exec A → Type 0
IsInert m = Keeps decided m

start_run-IsInert :
    (aid : String) (tid : Option String) (role : Role) (model log : String)
    → IsInert (start_run aid tid role model log)
unfolding start_run
start_run-IsInert aid tid role model log w = ground arith

write_defer-IsInert : (rid : ℕ) (until : Option ℕ) → IsInert (write_defer rid until)
write_defer-IsInert rid none w = refl
write_defer-IsInert rid (some t) w = refl

finish_critic-IsInert :
    (c : Claim) (deferred : Bool) (o result : Outcome) → IsInert (finish_critic c deferred o result)
unfolding finish_critic end_run close_critic
finish_critic-IsInert c deferred o result w = refl

give_up-IsInert :
    (c : Claim) (deferred : Bool) (text : String) (o result : Outcome)
    → IsInert (give_up c deferred text o result)
unfolding give_up finish_critic end_run close_critic
give_up-IsInert c deferred text o result w = refl

complete-IsInert :
    (rid pid : ℕ) (spec : List Json) (run : ℕ) (findings : List String) (text : String)
    → IsInert (complete_plan_review rid pid spec run findings text)
unfolding complete_plan_review
complete-IsInert rid pid spec run findings text w = ground arith

record_advice-IsInert :
    (c : Claim) (p : Proposal) (o : Outcome) (a : String × List String)
    → IsInert (record_advice c p o a)
unfolding record_advice
record_advice-IsInert c p o a w =
    ground (arith, complete-IsInert c.review p.id p.spec c.run a.1 a.0 w)

add_review-decided :
    (pid : ℕ) (spec : List Json) (db : Db) → decided (add_review pid spec db) ≡ decided db
add_review-decided pid spec db = elim (Option-cases (review_for pid spec db)) [
  | inl e ↦ rw (add_review, e) refl
  | inr (r, e) ↦ rw (add_review, e) refl
]

add_critic-decided : (a : Agent) (db : Db) → decided (add_critic a db) ≡ decided db
add_critic-decided a db = elim (Option-cases (agent_by_id a.id db)) [
  | inl e ↦ rw (add_critic, e) refl
  | inr (b, e) ↦ rw (add_critic, e) refl
]

take_claim-IsInert :
    (pid model : String) (inserted : Bool) (r : PlanReview)
    → IsInert (take_claim pid model inserted r)
unfolding take_claim
take_claim-IsInert pid model inserted r w = elim (Bool-cases (claimable inserted r.status)) [
  | inr no_claim ↦ rw no_claim refl
  | inl claim ↦ elim (Option-cases (project_by_id pid (start_retry r.id w.db))) [
    | inl e ↦ rw (claim, e) refl
    | inr (p, e) ↦
        rw (claim, e)
          (add_critic-decided (critic_agent (critic_id r.id) pid model (w.clock w.reads))
            (start_retry r.id w.db))
  ]
]

claim_row-IsInert :
    (pid model : String) (inserted : Bool) (o : Option PlanReview)
    → IsInert (claim_row pid model inserted o)
unfolding claim_row
claim_row-IsInert pid model inserted none w = refl
claim_row-IsInert pid model inserted (some r) w = take_claim-IsInert pid model inserted r w

claim_current-IsInert :
    (pid : ℕ) (spec : List Json) (project model : String)
    → IsInert (claim_current pid spec project model)
unfolding claim_current
claim_current-IsInert pid spec project model w =
    let db = add_review pid spec w.db in
    claim_row-IsInert project model (if is_some (review_for pid spec w.db) then false else true)
      (review_for pid spec db) (record w { db = db })
    ∙ add_review-decided pid spec w.db

claim-IsInert :
    (pid : ℕ) (spec : List Json) (project model : String)
    → IsInert (claim_plan_review pid spec project model)
unfolding claim_plan_review
claim-IsInert pid spec project model =
    transaction-Keeps decided
      (gets (is_current pid spec) >>= λ current.
        if current then claim_current pid spec project model else pure none)
      (λ w.
        if-Keeps decided (is_current pid spec w.db) (claim_current pid spec project model)
          (pure none) (claim_current-IsInert pid spec project model) (λ v. refl) w)

module _ (error_str : Error → String) where
  settle_split :
      (c : Claim) (r : Result Outcome × World) (w : World)
      → decided r.1.db ≡ decided w.db
      → decided (settle_review error_str c (λ _. r) w).1.db ≡ decided w.db
  settle_split c (ok o, v) w h = finish_critic-IsInert c false o o v ∙ h
  settle_split c (err e, v) w h =
      give_up-IsInert c false (review_failure error_str e).summary (review_failure error_str e)
        (review_failure error_str e) v
      ∙ h

  advise_split :
      (c : Claim) (p : Proposal) (o : Outcome) (r : Result (String × List String)) (w : World)
      → decided ((lift r >>= λ a. record_advice c p o a) w).1.db ≡ decided w.db
  advise_split c p o (ok a) w = record_advice-IsInert c p o a w
  advise_split c p o (err e) w = refl

  take_advice-IsInert :
      (c : Claim) (p : Proposal) (o : Outcome) → IsInert (take_advice error_str c p o)
  unfolding take_advice
  take_advice-IsInert c p o w =
      settle_split c ((lift (advice o) >>= λ a. record_advice c p o a) w) w
        (advise_split c p o (advice o) w)

  after_review-IsInert :
      (review run : ℕ) (p : Proposal) (s : SessionEnd)
      → IsInert (after_review error_str review run p s)
  unfolding after_review host_gave_up
  after_review-IsInert review run p (finished tokens a (read o)) =
      let c : Claim = record { review = review; run = run; tokens = tokens } in
      if-Keeps decided a.failed (host_gave_up error_str c a o) (take_advice error_str c p o)
        (give_up-IsInert c (is_temporary a.category)
          (text_append "host session failed: " a.category) o (failure_of "Plan review" a))
        (take_advice-IsInert c p o)
  after_review-IsInert review run p (finished tokens a (unreadable text)) =
      let c : Claim = record { review = review; run = run; tokens = tokens } in
      let o = unavailable "Plan review" text in
      let failure = failure_of "Plan review" a in
      if-Keeps decided (a.failed && is_temporary a.category)
        (give_up c true failure.summary o failure) (give_up c false o.summary o o)
        (give_up-IsInert c true failure.summary o failure) (give_up-IsInert c false o.summary o o)
  after_review-IsInert review run p (raised (some a) text) =
      let o = failure_of "Plan review" a in
      give_up-IsInert (record { review = review; run = run; tokens = none }) true o.summary o o
  after_review-IsInert review run p (raised none text) =
      let o = unavailable "Plan review" text in
      give_up-IsInert (record { review = review; run = run; tokens = none }) false o.summary o o

  claimed_turn-IsInert :
      (model log : String) (p : Proposal) (s : SessionEnd) (review : ℕ)
      → IsInert (claimed_turn error_str model log p s review)
  unfolding claimed_turn
  claimed_turn-IsInert model log p s review =
      let rest =
        λ (run : ℕ). write_defer run (reset_of s) >> after_review error_str review run p s in
      >>=-Keeps decided (start_run (critic_id review) none Role.plan_critic model log)
        (λ run. now >>= λ at. modify (add_attempt review run at) >> rest run)
        (start_run-IsInert (critic_id review) none Role.plan_critic model log)
        (λ run w.
          >>-Keeps decided (write_defer run (reset_of s)) (after_review error_str review run p s)
            (write_defer-IsInert run (reset_of s)) (after_review-IsInert review run p s)
            (record w { db = add_attempt review run (w.clock w.reads) w.db; reads = suc w.reads }))

  claim_result-IsInert :
      (model log : String) (p : Proposal) (s : SessionEnd) (o : Option ℕ)
      → IsInert (claim_result error_str model log p s o)
  unfolding claim_result
  claim_result-IsInert model log p s none w = refl
  claim_result-IsInert model log p s (some review) w = claimed_turn-IsInert model log p s review w

  -- The turn of a plan critic, whether it returns or raises, leaves the projects, tasks, messages,
  -- incidents, proposals, revisions, preflight attempts and the backup's row as they were: it writes
  -- agents, runs, reviews and attempts only.
  pub plan_critic_inert :
      (cfg : Config) (p : Proposal) (log : String) (s : SessionEnd) (w : World)
      → decided (run_plan_critic_turn error_str cfg p log s w).1.db ≡ decided w.db
  unfolding run_plan_critic_turn
  plan_critic_inert cfg p log s w = elim (Option-cases (model_for cfg Role.plan_critic)) [
    | inl e ↦ rw e refl
    | inr (model, e) ↦ rw e (
        >>=-Keeps decided (claim_plan_review p.id p.spec p.project_id model)
          (λ claim. claim_result error_str model log p s claim)
          (claim-IsInert p.id p.spec p.project_id model)
          (λ claim. claim_result-IsInert model log p s claim) w)
  ]
