-- ===== src/Scheduler/Turn/Merged.antt =====
-- nc/scheduler.py: a critic's "pass" on a branch that git merges.
use neocortex.State.Mail.{send}
use neocortex.Scheduler.Turn.Acceptance.{report_verdict}
use neocortex.Scheduler.Handlers.{say}
use neocortex.State.Query.{is_critic, task_by_id, task_is}
use neocortex.Scheduler.Turn.{
  recover_handler, attempt, StepResult, reset_failures, apply_outcome, handle, outcome_of,
}
use neocortex.Scheduler.Verdict.{accept, act_on_verdict, apply_verdict, on_done, try_merge}
use neocortex.State.Exec.{Error, Exec, Result, err, World, ok}
use neocortex.State.Rows.{set_agent, TaskFields, no_fields, write_fields}
use neocortex.Protocol.{Outcome}
use neocortex.Config.{Config}
use neocortex.Prelude.{
  ap, find_sound, find-update, ◌∙◌, Bool-cases, Option-cases, String, [], inl, inr, refl, some,
  str_eq, suc, true, update, ℕ, ◌∷◌, ◌≡◌,
}
use neocortex.Arbiter.{Arbiter, merged}
use neocortex.State.Tables.{Agent, OutcomeKind, Project, Task, TaskStatus}

-- What `accept` writes to the task.
abbrev pub acceptance : Outcome → String → TaskFields
acceptance outcome commit = record no_fields {
  status = some TaskStatus.done;
  merge_commit = some commit;
  result = some (say (outcome.summary ∷ " (merged as " ∷ commit ∷ ")" ∷ []));
}

accept-tasks :
    (arb : Arbiter) (task : Task) (outcome : Outcome) (c : String) (w : World)
    → let r = accept arb task outcome c w in
      (r.0 ≡ ok tt)
      × (r.1.db.tasks
          ≡ update
              (task_is task.id)
              (write_fields (acceptance outcome c) (w.clock w.reads))
              w.db.tasks)
      × (r.1.db.backup.dirty_generation ≡ suc w.db.backup.dirty_generation)
unfolding accept
accept-tasks arb task outcome c w = elim (Bool-cases (str_eq arb.mirror "")) [
  | inl same ↦ elim (Option-cases arb.remove_worktree) [
    | inl removed ↦ rw (same, removed) (refl, refl, refl)
    | inr (text, kept) ↦ rw (same, kept) (refl, refl, refl)
  ]
  | inr failed ↦ elim (Option-cases arb.remove_worktree) [
    | inl removed ↦ rw (failed, removed) (refl, refl, refl)
    | inr (text, kept) ↦ rw (failed, kept) (refl, refl, refl)
  ]
]

handle_accepts :
    (cfg : Config) (arb : Arbiter) (agent : Agent) (task : Task) (project : Project)
    (branch : String) (outcome : Outcome) (w : World) (c : String)
    → outcome.kind ≡ OutcomeKind.done
    → is_critic agent.role ≡ true
    → str_eq outcome.verdict "pass" ≡ true
    → arb.integrate ≡ merged c
    → handle cfg arb agent task project branch outcome w
      ≡ accept arb task outcome c (report_verdict agent task outcome w).1
unfolding handle on_done apply_verdict act_on_verdict try_merge
handle_accepts cfg arb agent task project branch outcome w c kind critic pass merges =
    rw (kind, critic, pass, merges) refl

attempt-returned :
    (r : Result (Unit {0}) × World) (rescue : Error → Exec StepResult) (s : StepResult) (w : World)
    → r.0 ≡ ok tt
    → attempt (λ _. r) rescue s w ≡ (ok s, r.1)
attempt-returned (ok u, v) rescue s w h = refl
attempt-returned (err e, v) rescue s w h = cc

attempt-eq-ok :
    (m : Exec (Unit {0})) (rescue : Error → Exec StepResult) (s : StepResult) (w : World)
    (r : Result (Unit {0}) × World)
    → m w ≡ r
    → r.0 ≡ ok tt
    → attempt m rescue s w ≡ (ok s, r.1)
attempt-eq-ok m rescue s w r e h =
    attempt-returned (m w) rescue s w (rw e h) ∙ ap (λ x. (ok s, x.1)) e

-- The world in which `accept` writes: the turn is counted and the verdict reported.
abbrev pub before_accept : Agent → Task → Outcome → World → World
before_accept agent task outcome w = (report_verdict agent task outcome (reset_failures w).1).1

apply_outcome_accepts :
    (cfg : Config) (arb : Arbiter) (agent : Agent) (task : Task) (project : Project)
    (branch : String) (outcome : Outcome) (w : World) (c : String)
    → outcome.kind ≡ OutcomeKind.done
    → is_critic agent.role ≡ true
    → str_eq outcome.verdict "pass" ≡ true
    → arb.integrate ≡ merged c
    → apply_outcome cfg arb agent task project branch outcome w ≡ (
      ok (outcome_of outcome.kind),
      (accept arb task outcome c (before_accept agent task outcome w)).1,
    )
unfolding apply_outcome
apply_outcome_accepts cfg arb agent task project branch outcome w c kind critic pass merges =
    let rescue = recover_handler arb agent task outcome.kind in
    let opened : apply_outcome cfg arb agent task project branch outcome w
        ≡ attempt (handle cfg arb agent task project branch outcome) rescue
            (outcome_of outcome.kind) (reset_failures w).1 =
      rw kind refl in
    opened
    ∙ attempt-eq-ok (handle cfg arb agent task project branch outcome) rescue
        (outcome_of outcome.kind) (reset_failures w).1
        (accept arb task outcome c (before_accept agent task outcome w))
        (handle_accepts cfg arb agent task project branch outcome (reset_failures w).1 c kind critic
          pass merges)
        (accept-tasks arb task outcome c (before_accept agent task outcome w)).0

-- A critic's DONE with the verdict "pass" on a branch that git merges as `c` is applied without an
-- error: the task's row becomes done with that commit, and a backup is asked for.
pub merged_pass_marks_done :
    (cfg : Config) (arb : Arbiter) (agent : Agent) (task t : Task) (project : Project)
    (branch : String) (outcome : Outcome) (w : World) (c : String)
    → task_by_id task.id w.db ≡ some t
    → outcome.kind ≡ OutcomeKind.done
    → is_critic agent.role ≡ true
    → str_eq outcome.verdict "pass" ≡ true
    → arb.integrate ≡ merged c
    → let r = apply_outcome cfg arb agent task project branch outcome w in
      (r.0 ≡ ok (outcome_of outcome.kind))
      × ((at : ℕ) × (task_by_id task.id r.1.db ≡ some (write_fields (acceptance outcome c) at t)))
      × (r.1.db.backup.dirty_generation ≡ suc w.db.backup.dirty_generation)
unfolding send set_agent
merged_pass_marks_done cfg arb agent task t project branch outcome w c found kind critic pass
      merges =
    let v = before_accept agent task outcome w in
    let (fine, wrote, dirty) = accept-tasks arb task outcome c v in
    let written = write_fields (acceptance outcome c) (v.clock v.reads) in
    rw
      (
        apply_outcome_accepts cfg arb agent task project branch outcome w c kind critic pass merges,
        wrote,
      )
      (
        refl,
        (
          (v.clock v.reads),
          find-update (task_is task.id) (task_is task.id) written w.db.tasks t (λ y. refl) found
              ∙ rw (find_sound (task_is task.id) w.db.tasks t found) refl,
        ),
        dirty,
      )
