-- ===== src/Operations/Lifecycle/Again.antt =====
-- nc/operations.py: what `requeue_task` and `rollback_task` need, and what they leave.
use neocortex.Acp.Stream.Envelope.{same}
use neocortex.Operations.Ownership.{truthy}
use neocortex.State.Query.{status_eq, task_by_id, task_is}
use neocortex.State.Rows.{or_else}
use neocortex.Operations.Lifecycle.{
  bad_budget_of, project_of, requeue_found, requeue_read, requeue_task, any_open_run, confirms,
  requeue_locked, requeue_writes, requeueable, requeueable_row,
}
use neocortex.State.Exec.{◌>>=◌, >>=-eq-ok, bad_requeue_budget, raise_if-passed, Result, World, ok}
use neocortex.State.Tables.{Db, Project, Task, TaskStatus}
use neocortex.Prelude.{
  ap, sym, Bool, Option, String, arith, false, find-update, find_sound, if◌then◌else◌, none, refl,
  some, true, ℕ, ◌&&◌, ◌∙◌, ◌≡◌,
}

requeueable_row_cases :
    (tid : String) (o : Option Task) (t : Task) (w w' : World)
    → requeueable_row tid o w ≡ (ok t, w')
    → (o ≡ some t)
      × (status_eq t.status TaskStatus.done ≡ false)
      × (any_open_run w.db ≡ false)
      × (w' ≡ w)
unfolding requeueable_row
requeueable_row_cases tid none t w w' e = cc
requeueable_row_cases tid (some u) t w w' e =
    (ground arith, ground arith, ground arith, ground arith)

requeueable_cases :
    (tid : String) (t : Task) (w w' : World)
    → requeueable tid w ≡ (ok t, w')
    → (task_by_id tid w.db ≡ some t)
      × (status_eq t.status TaskStatus.done ≡ false)
      × (any_open_run w.db ≡ false)
      × (w' ≡ w)
unfolding requeueable
requeueable_cases tid t w w' e = requeueable_row_cases tid (task_by_id tid w.db) t w w' e

-- The row after a requeue.
abbrev pub requeued : Option ℕ → Option String → ℕ → Task → Task
requeued budget reason at t = record t {
  status = TaskStatus.queued;
  attempts = 0;
  result = some (or_else (truthy reason) "requeued by the owner");
  budget_turns = or_else budget t.budget_turns;
  updated_at = at;
}

task_after_requeue :
    (tid : String) (t : Task) (budget : Option ℕ) (reason : Option String) (at : ℕ) (db : Db)
    → task_by_id tid db ≡ some t
    → task_by_id tid (requeue_writes tid t budget reason at db) ≡ some (requeued budget reason at t)
unfolding requeue_writes
task_after_requeue tid t budget reason at db e =
    find-update (task_is tid) (task_is tid) _ db.tasks t (λ y. refl) e
    ∙ rw (find_sound (task_is tid) db.tasks t e) refl

module _ (token : Task → String) (discard : Task → Result (Unit {0}))
    (revert : Project → String → Result String) (mirror_error : Project → Option String)
    (meanwhile : Db → Db) where
  requeue_read_cases :
      (tid : String) (fresh : Bool) (budget : Option ℕ) (reason expected : Option String) (t : Task)
      (w w' : World)
      → requeue_read token discard revert mirror_error meanwhile tid fresh budget reason expected t
          w
        ≡ (ok tt, w')
      → ((fresh && (if confirms expected (token t) then false else true)) ≡ false)
        × (w'.db ≡ requeue_writes tid t budget reason (w.clock w.reads) w.db)
  unfolding requeue_read
  requeue_read_cases tid fresh budget reason expected t w w' e = (ground arith, ground arith)

  -- What a requeue with the lock of the repository found, and what it left.
  abbrev Requeues :
      String → Bool → Option ℕ → Option String → Option String → World → World → Type 0
  Requeues tid fresh budget reason expected w w' =
      (t : Task) × (task_by_id tid w.db ≡ some t)
      × (status_eq t.status TaskStatus.done ≡ false)
      × (any_open_run w.db ≡ false)
      × ((fresh && (if confirms expected (token t) then false else true)) ≡ false)
      × (task_by_id tid w'.db ≡ some (requeued budget reason (w.clock w.reads) t))

  requeue_locked-Requeues :
      (tid : String) (fresh : Bool) (budget : Option ℕ) (reason expected : Option String)
      (w w' : World)
      → requeue_locked token discard revert mirror_error meanwhile tid fresh budget reason expected
          w
        ≡ (ok tt, w')
      → Requeues tid fresh budget reason expected w w'
  unfolding requeue_locked
  requeue_locked-Requeues tid fresh budget reason expected w w' e =
      let rest =
        requeue_read token discard revert mirror_error meanwhile tid fresh budget reason expected in
      let (t, found, after) = >>=-eq-ok (requeueable tid) rest w tt w' e in
      let (known, undone, quiet, same) =
        requeueable_cases tid t w (requeueable tid w).1
          (ap (λ r. (r, (requeueable tid w).1)) found) in
      let (confirmed, writes) =
        requeue_read_cases tid fresh budget reason expected t w w'
          (ap (λ v. rest t v) (sym same) ∙ after) in
      (
        t,
        known,
        undone,
        quiet,
        confirmed,
        ap (task_by_id tid) writes
            ∙ task_after_requeue tid t budget reason (w.clock w.reads) w.db known,
      )

  requeue_found_cases :
      (tid : String) (fresh : Bool) (budget : Option ℕ) (reason expected : Option String) (t : Task)
      (w w' : World)
      → requeue_found token discard revert mirror_error meanwhile tid fresh budget reason expected t
          w
        ≡ (ok tt, w')
      → requeue_locked token discard revert mirror_error meanwhile tid fresh budget reason expected
          (record w { db = meanwhile w.db })
        ≡ (ok tt, w')
  unfolding requeue_found project_of
  requeue_found_cases tid fresh budget reason expected t w w' e = ground arith

  -- Whatever other processes commit between the first look at the task and the lock of its
  -- repository: a requeue that returns found then that the task was not accepted, that no run was
  -- open, and, if it discards the work, that the confirmation was that of the task as it is; the
  -- task is queued, with no attempts and the budget that was asked for, or its own.
  pub requeue_task-Requeues :
      (tid : String) (fresh : Bool) (budget : Option ℕ) (reason expected : Option String)
      (w w' : World)
      → requeue_task token discard revert mirror_error meanwhile tid fresh budget reason expected w
        ≡ (ok tt, w')
      → Requeues tid fresh budget reason expected (record w { db = meanwhile w.db }) w'
  unfolding requeue_task
  requeue_task-Requeues tid fresh budget reason expected w w' e =
      let found =
        requeue_found token discard revert mirror_error meanwhile tid fresh budget reason
          expected in
      let (fine, h) =
        raise_if-passed (bad_budget_of budget) bad_requeue_budget (requeueable tid >>= found) w w'
          tt e in
      let (t, known, after) = >>=-eq-ok (requeueable tid) found w tt w' h in
      let (_, _, _, same) =
        requeueable_cases tid t w (requeueable tid w).1
          (ap (λ r. (r, (requeueable tid w).1)) known) in
      requeue_locked-Requeues tid fresh budget reason expected (record w { db = meanwhile w.db }) w'
        (requeue_found_cases tid fresh budget reason expected t w w'
          (ap (λ v. found t v) (sym same) ∙ after))
