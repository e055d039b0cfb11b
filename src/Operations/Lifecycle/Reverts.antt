-- ===== src/Operations/Lifecycle/Reverts.antt =====
-- nc/operations.py: what `rollback_task` needs, and what it leaves.
use mathlib.Core.Path.{subst}
use neocortex.Operations.Ownership.{truthy}
use neocortex.State.Query.{project_by_id, status_eq, task_by_id, task_is}
use neocortex.Acp.Stream.Envelope.{same}
use neocortex.Acp.Stream.Requests.Rounds.{left}
use neocortex.State.Incidents.{incident}
use neocortex.Operations.Lifecycle.{
  project_of, rollback_found, rollback_task, any_open_run, confirms, report_mirror, revertible,
  revertible_row, rollback_and_mirror, rollback_locked, rollback_read, rollback_writes,
}
use neocortex.Scheduler.Turn.Unaccepted.{accepted}
use neocortex.Prelude.{
  Option-cases, inl, inr, Option, String, ap, arith, false, find, find-update, find_sound, none,
  refl, some, sym, text_append, true, ℕ, ◌∙◌, ◌≡◌,
}
use neocortex.State.Tables.{Db, Project, Task, TaskStatus}
use neocortex.State.Exec.{◌>>◌, pure, >>=-eq-ok, Result, World, ok}

revertible_row_cases :
    (tid old : String) (o : Option Task) (t : Task) (w w' : World)
    → revertible_row tid o w ≡ (ok (t, old), w')
    → (o ≡ some t) × (truthy t.merge_commit ≡ some old) × (w' ≡ w)
unfolding revertible_row
revertible_row_cases tid old none t w w' e = cc
revertible_row_cases tid old (some u) t w w' e = (ground arith, ground arith, ground arith)

revertible_cases :
    (tid old : String) (t : Task) (w w' : World)
    → revertible tid w ≡ (ok (t, old), w')
    → (task_by_id tid w.db ≡ some t) × (truthy t.merge_commit ≡ some old) × (w' ≡ w)
unfolding revertible
revertible_cases tid old t w w' e = revertible_row_cases tid old (task_by_id tid w.db) t w w' e

-- The row after a rollback.
abbrev pub reverted : String → ℕ → Task → Task
reverted commit at t = record t {
  status = TaskStatus.blocked;
  result = some (text_append "reverted by the owner in " commit);
  updated_at = at;
}

task_after_rollback :
    (tid commit : String) (t : Task) (at : ℕ) (db : Db)
    → task_by_id tid db ≡ some t
    → task_by_id tid (rollback_writes tid commit at db) ≡ some (reverted commit at t)
task_after_rollback tid commit t at db e =
    find-update (task_is tid) (task_is tid) _ db.tasks t (λ y. refl) e
    ∙ rw (find_sound (task_is tid) db.tasks t e) refl

module _ (token : Task → String) (discard : Task → Result (Unit {0}))
    (revert : Project → String → Result String) (mirror_error : Project → Option String)
    (meanwhile : Db → Db) where
  rollback_read_cases :
      (project : Project) (tid old commit : String) (expected : Option String) (t : Task)
      (w w' : World)
      → rollback_read token discard revert mirror_error meanwhile project tid expected (t, old) w
        ≡ (ok commit, w')
      → (status_eq t.status TaskStatus.done ≡ true)
        × (any_open_run w.db ≡ false)
        × (confirms expected old ≡ true)
        × (revert project old ≡ ok commit)
        × (w'.db.tasks ≡ (rollback_writes tid commit (w.clock w.reads) w.db).tasks)
  unfolding rollback_read
  rollback_read_cases project tid old commit expected t w w' e =
      (ground arith, ground arith, ground arith, ground arith, ground arith)

  report_mirror-tasks :
      (project : Project) (tid : String) (w : World)
      → (report_mirror token discard revert mirror_error meanwhile project tid w).1.db.tasks
        ≡ w.db.tasks
  unfolding report_mirror incident
  report_mirror-tasks project tid w = ground arith

  -- What a rollback with the lock of the repository found, and what it left.
  abbrev Reverts : Project → String → Option String → String → World → World → Type 0
  Reverts project tid expected commit w w' =
      (t : Task) × (old : String) × (task_by_id tid w.db ≡ some t)
      × (truthy t.merge_commit ≡ some old)
      × (status_eq t.status TaskStatus.done ≡ true)
      × (any_open_run w.db ≡ false)
      × (confirms expected old ≡ true)
      × (revert project old ≡ ok commit)
      × (task_by_id tid w'.db ≡ some (reverted commit (w.clock w.reads) t))

  rollback_locked-Reverts :
      (project : Project) (tid commit : String) (expected : Option String) (w w' : World)
      → rollback_locked token discard revert mirror_error meanwhile project tid expected w
        ≡ (ok commit, w')
      → Reverts project tid expected commit w w'
  unfolding rollback_locked
  rollback_locked-Reverts project tid commit expected w w' e =
      let rest = rollback_read token discard revert mirror_error meanwhile project tid expected in
      let ((t, old), found, after) = >>=-eq-ok (revertible tid) rest w commit w' e in
      let (known, recorded, same) =
        revertible_cases tid old t w (revertible tid w).1
          (ap (λ r. (r, (revertible tid w).1)) found) in
      let (accepted, quiet, confirmed, reverts, writes) =
        rollback_read_cases project tid old commit expected t w w'
          (ap (λ v. rest (t, old) v) (sym same) ∙ after) in
      (
        t,
        old,
        known,
        recorded,
        accepted,
        quiet,
        confirmed,
        reverts,
        ap (find (task_is tid)) writes
            ∙ task_after_rollback tid commit t (w.clock w.reads) w.db known,
      )

  rollback_and_mirror-Reverts :
      (project : Project) (tid commit : String) (expected : Option String) (w w' : World)
      → rollback_and_mirror token discard revert mirror_error meanwhile project tid expected w
        ≡ (ok commit, w')
      → Reverts project tid expected commit w w'
  unfolding rollback_and_mirror
  rollback_and_mirror-Reverts project tid commit expected w w' e =
      let first =
        rollback_locked token discard revert mirror_error meanwhile project tid expected in
      let report = report_mirror token discard revert mirror_error meanwhile project tid in
      let v = (first w).1 in
      let (c, found, after) = >>=-eq-ok first (λ c. report >> pure c) w commit w' e in
      let (_, _, done) = >>=-eq-ok report (λ _. pure c) v commit w' after in
      let same : c ≡ commit = ground (arith, done) in
      let (t, old, known, recorded, accepted, quiet, confirmed, reverts, left) =
        rollback_locked-Reverts project tid c expected w v (ap (λ r. (r, v)) found) in
      subst (λ x. Reverts project tid expected x w w') same
        (
          t,
          old,
          known,
          recorded,
          accepted,
          quiet,
          confirmed,
          reverts,
          ap (λ r. find (task_is tid) r.1.db.tasks) (sym done)
              ∙ ap (find (task_is tid)) (report_mirror-tasks project tid v)
              ∙ left,
        )

  rollback_found_cases :
      (tid old commit : String) (expected : Option String) (t : Task) (w w' : World)
      → rollback_found token discard revert mirror_error meanwhile tid expected (t, old) w
        ≡ (ok commit, w')
      → (project : Project) × (project_by_id t.project_id w.db ≡ some project)
        × (rollback_and_mirror token discard revert mirror_error meanwhile project tid expected
              (record w { db = meanwhile w.db })
            ≡ (ok commit, w'))
  unfolding rollback_found project_of
  rollback_found_cases tid old commit expected t w w' e =
      elim (Option-cases (project_by_id t.project_id w.db)) [
        | inl missing ↦ absurd (ground (arith, missing))
        | inr (project, h) ↦ (project, h, ground (arith, h))
      ]

  -- Whatever other processes commit between the first look at the task and the lock of its
  -- repository: a rollback that returns found then that the task was accepted, that no run was open,
  -- and that the confirmed commit was the task's recorded merge commit; the commit that it returns is
  -- git's revert of that one in the project of the task, and the task is blocked and keeps the merge
  -- commit.
  pub rollback_task-Reverts :
      (tid commit : String) (expected : Option String) (w w' : World)
      → rollback_task token discard revert mirror_error meanwhile tid expected w ≡ (ok commit, w')
      → (first : Task) × (project : Project) × (task_by_id tid w.db ≡ some first)
        × (project_by_id first.project_id w.db ≡ some project)
        × Reverts project tid expected commit (record w { db = meanwhile w.db }) w'
  unfolding rollback_task
  rollback_task-Reverts tid commit expected w w' e =
      let found = rollback_found token discard revert mirror_error meanwhile tid expected in
      let ((t, old), known, after) = >>=-eq-ok (revertible tid) found w commit w' e in
      let (there_first, _, same) =
        revertible_cases tid old t w (revertible tid w).1
          (ap (λ r. (r, (revertible tid w).1)) known) in
      let (project, there, ran) =
        rollback_found_cases tid old commit expected t w w'
          (ap (λ v. found (t, old) v) (sym same) ∙ after) in
      (
        t,
        project,
        there_first,
        there,
        rollback_and_mirror-Reverts project tid commit expected (record w { db = meanwhile w.db })
            w' ran,
      )
