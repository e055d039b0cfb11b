-- ===== src/Scheduler/Turn/Acceptance.antt =====
-- nc/scheduler.py: which turns accept a task.
use neocortex.Scheduler.Turn.Unaccepted.{
  accepted, bind-accepts_none, block_task-accepts_none, if-accepts_none, no_verdict-accepts_none,
  on_ask-accepts_none, on_fail-accepts_none, review_work-accepts_none, rework-accepts_none,
}
use neocortex.Scheduler.Turn.{
  attempt, StepResult, apply_outcome, count_outcome, handler_error_text, is_failure, outcome_of,
  recover_handler, reset_failures, handle,
}
use neocortex.Arbiter.{Merge, conflict, merge_failed, merged, Arbiter}
use neocortex.Scheduler.Verdict.{
  act_on_verdict, apply_verdict, findings_or_summary, known_verdict, on_done, conflict_finding,
  conflict_text, note, try_merge,
}
use neocortex.State.Mail.{send}
use neocortex.Protocol.{Outcome}
use neocortex.Scheduler.Handlers.{block_task, say, verdict_payload, worker_id, add_failure, rework}
use neocortex.State.Exec.{Error, pure, ◌>>◌, ◌>>=◌, Exec, Result, err, ok, World}
use neocortex.State.Rows.{set_agent}
use neocortex.Config.{Config}
use neocortex.Prelude.{
  str_eq, ◌≢◌, [], true, ◌∷◌, Bool-cases, inl, inr, Bool, String, arith, false, none, refl, some,
  ◌&&◌, ◌≡◌,
}
use neocortex.State.Query.{is_critic}
use neocortex.State.Tables.{MessageKind, OutcomeKind, AgentState, Project, Agent, Task}

-- The one way to an accepted task: the verdict "pass", and a merge.
abbrev pub accepts : Arbiter → Outcome → Bool
accepts arb outcome =
    str_eq outcome.verdict "pass"
    && (elim arb.integrate [ merged c ↦ true | conflict fs ↦ false | merge_failed e ↦ false ])

try_merge-accepts_none :
    (tid : String) (cfg : Config) (arb : Arbiter) (agent : Agent) (task : Task) (branch : String)
    (outcome : Outcome) (w : World) (m : Merge)
    → arb.integrate ≡ m
    → ((c : String) → m ≢ merged c)
    → accepted tid w.db ≡ false
    → accepted tid (try_merge cfg arb agent task branch outcome w).1.db ≡ false
unfolding try_merge
try_merge-accepts_none tid cfg arb agent task branch outcome w (merged c) e apart h =
    absurd (apart c refl)
try_merge-accepts_none tid cfg arb agent task branch outcome w (merge_failed text) e apart h =
    rw e h
try_merge-accepts_none tid cfg arb agent task branch outcome w (conflict files) e apart h = rw e (
    bind-accepts_none tid (arb.base_branch, w)
      (λ base.
        note "merge_conflict" task.id (conflict_text branch files)
        >> rework cfg agent task (conflict_finding base files ∷ []) false)
      w h
      λ base.
        rework-accepts_none tid cfg agent task (conflict_finding base files ∷ []) false
          (note "merge_conflict" task.id (conflict_text branch files) w).1 h)

act_on_verdict-accepts_none :
    (tid : String) (cfg : Config) (arb : Arbiter) (agent : Agent) (task : Task) (branch : String)
    (outcome : Outcome) (w : World)
    → accepts arb outcome ≡ false
    → accepted tid w.db ≡ false
    → accepted tid (act_on_verdict cfg arb agent task branch outcome w).1.db ≡ false
unfolding act_on_verdict
act_on_verdict-accepts_none tid cfg arb agent task branch outcome w e h =
    elim (Bool-cases (str_eq outcome.verdict "pass")) [
      | inl passed ↦ rw passed (
          try_merge-accepts_none tid cfg arb agent task branch outcome w arb.integrate refl
            (λ c k. ground arith) h)
      | inr other ↦ rw other (
          if-accepts_none tid (str_eq outcome.verdict "reject")
            (block_task task agent (say ("critic rejected the approach: " ∷ outcome.summary ∷ [])))
            (rework cfg agent task (findings_or_summary outcome) true) w
            (block_task-accepts_none tid agent task
              (say ("critic rejected the approach: " ∷ outcome.summary ∷ [])) w h)
            (rework-accepts_none tid cfg agent task (findings_or_summary outcome) true w h))
    ]

-- The critic's message and the end of its turn.
abbrev pub report_verdict : Agent → Task → Outcome → Exec (Unit {0})
report_verdict agent task outcome = do
  _ ←
      send MessageKind.review_verdict agent.id (worker_id task.id)
        (verdict_payload outcome.verdict outcome.summary outcome.findings) (some task.id) none
  set_agent agent.id AgentState.done

apply_verdict-accepts_none :
    (tid : String) (cfg : Config) (arb : Arbiter) (agent : Agent) (task : Task) (branch : String)
    (outcome : Outcome) (w : World)
    → accepts arb outcome ≡ false
    → accepted tid w.db ≡ false
    → accepted tid (apply_verdict cfg arb agent task branch outcome w).1.db ≡ false
unfolding apply_verdict
apply_verdict-accepts_none tid cfg arb agent task branch outcome w e h =
    elim (Bool-cases (known_verdict outcome.verdict)) [
      | inl known ↦ rw known (
          act_on_verdict-accepts_none tid cfg arb agent task branch outcome
            (report_verdict agent task outcome w).1 e h)
      | inr other ↦ rw other (no_verdict-accepts_none tid cfg arb agent task outcome w h)
    ]

abbrev pub is_done : OutcomeKind → Bool
is_done OutcomeKind.done = true
is_done _ = false

-- A critic's DONE whose verdict is "pass", with a branch that git merges.
abbrev pub may_accept : Arbiter → Agent → Outcome → Bool
may_accept arb agent outcome = is_done outcome.kind && is_critic agent.role && accepts arb outcome

on_done-accepts_none :
    (tid : String) (cfg : Config) (arb : Arbiter) (agent : Agent) (task : Task) (project : Project)
    (branch : String) (outcome : Outcome) (w : World)
    → (is_critic agent.role && accepts arb outcome) ≡ false
    → accepted tid w.db ≡ false
    → accepted tid (on_done cfg arb agent task project branch outcome w).1.db ≡ false
unfolding on_done
on_done-accepts_none tid cfg arb agent task project branch outcome w e h =
    elim (Bool-cases (is_critic agent.role)) [
      | inl critic ↦
          rw critic
            (apply_verdict-accepts_none tid cfg arb agent task branch outcome w (ground arith) h)
      | inr worker ↦ rw worker (review_work-accepts_none tid cfg arb agent task project w h)
    ]

handle-accepts_none :
    (tid : String) (cfg : Config) (arb : Arbiter) (agent : Agent) (task : Task) (project : Project)
    (branch : String) (outcome : Outcome) (w : World) (k : OutcomeKind)
    → outcome.kind ≡ k
    → may_accept arb agent outcome ≡ false
    → accepted tid w.db ≡ false
    → accepted tid (handle cfg arb agent task project branch outcome w).1.db ≡ false
unfolding handle
handle-accepts_none tid cfg arb agent task project branch outcome w OutcomeKind.ask k e h =
    rw k (on_ask-accepts_none tid agent task outcome w h)
handle-accepts_none tid cfg arb agent task project branch outcome w OutcomeKind.yielded k e h =
    rw k h
handle-accepts_none tid cfg arb agent task project branch outcome w OutcomeKind.fail k e h =
    rw k (on_fail-accepts_none tid cfg agent task outcome w h)
handle-accepts_none tid cfg arb agent task project branch outcome w OutcomeKind.no_outcome k e h =
    rw k (on_fail-accepts_none tid cfg agent task outcome w h)
handle-accepts_none tid cfg arb agent task project branch outcome w OutcomeKind.done k e h =
    rw k (on_done-accepts_none tid cfg arb agent task project branch outcome w (ground arith) h)

recover_handler-accepts_none :
    (tid : String) (arb : Arbiter) (agent : Agent) (task : Task) (k : OutcomeKind) (e : Error)
    (w : World)
    → accepted tid w.db ≡ false
    → accepted tid (recover_handler arb agent task k e w).1.db ≡ false
unfolding recover_handler
recover_handler-accepts_none tid arb agent task k e w h =
    block_task-accepts_none tid agent task (handler_error_text arb k e)
      (note "handler_error" task.id (arb.error_repr e) w).1 h

attempt-accepts_none :
    (tid : String) (r : Result (Unit {0}) × World) (rescue : Error → Exec StepResult)
    (s : StepResult) (w : World)
    → accepted tid r.1.db ≡ false
    → ((e : Error) → accepted tid (rescue e r.1).1.db ≡ false)
    → accepted tid (attempt (λ _. r) rescue s w).1.db ≡ false
attempt-accepts_none tid (ok u, v) rescue s w h k = h
attempt-accepts_none tid (err e, v) rescue s w h k = k e

-- Unless the outcome is a critic's DONE with the verdict "pass" and git merges the branch, applying
-- it leaves every task that was not accepted as it was in that respect: no other outcome, check, error
-- or recovery of the turn marks any task done. In particular a worker cannot accept its own work.
pub only_merged_pass_accepts :
    (tid : String) (cfg : Config) (arb : Arbiter) (agent : Agent) (task : Task) (project : Project)
    (branch : String) (outcome : Outcome) (w : World)
    → may_accept arb agent outcome ≡ false
    → accepted tid w.db ≡ false
    → accepted tid (apply_outcome cfg arb agent task project branch outcome w).1.db ≡ false
unfolding apply_outcome
only_merged_pass_accepts tid cfg arb agent task project branch outcome w e h =
    let v = (count_outcome outcome.kind w).1 in
    let counted : accepted tid v.db ≡ false =
      if-accepts_none tid (is_failure outcome.kind) add_failure reset_failures w h h in
    let r = handle cfg arb agent task project branch outcome v in
    let handled =
      handle-accepts_none tid cfg arb agent task project branch outcome v outcome.kind refl e
        counted in
    if-accepts_none tid (is_failure outcome.kind && outcome.host_deferred)
      (pure StepResult.deferred)
      (count_outcome outcome.kind
        >> attempt (handle cfg arb agent task project branch outcome)
            (recover_handler arb agent task outcome.kind) (outcome_of outcome.kind))
      w h
      (bind-accepts_none tid (count_outcome outcome.kind w)
        (λ _.
          attempt (handle cfg arb agent task project branch outcome)
            (recover_handler arb agent task outcome.kind) (outcome_of outcome.kind))
        w counted
        λ _.
          attempt-accepts_none tid r (recover_handler arb agent task outcome.kind)
            (outcome_of outcome.kind) v handled
            λ x. recover_handler-accepts_none tid arb agent task outcome.kind x r.1 handled)
