-- ===== src/Scheduler/Handlers/Attempts.antt =====
-- nc/scheduler.py: the attempts of a task and their limit.
use neocortex.State.Query.{task_by_id, task_is}
use neocortex.Scheduler.Handlers.{on_fail, rework}
use neocortex.State.Exec.{World}
use neocortex.State.Rows.{TaskFields, no_fields, write_fields}
use neocortex.Protocol.{Outcome}
use neocortex.Config.{Config}
use neocortex.Prelude.{
  Bool, Bool-cases, List, Option, String, find, find-update, find_sound, if◌then◌else◌, inl, inr,
  leb, refl, some, suc, update, ℕ, ◌+◌, ◌∙◌, ◌≡◌,
}
use neocortex.State.Tables.{Agent, Task, TaskStatus}

-- The row of a task after its fields are written.
written-found :
    (tid : String) (f : TaskFields) (at : ℕ) (ts : List Task) (t : Task)
    → find (task_is tid) ts ≡ some t
    → find (task_is tid) (update (task_is tid) (write_fields f at) ts) ≡ some (write_fields f at t)
written-found tid f at ts t e =
    find-update (task_is tid) (task_is tid) (write_fields f at) ts t (λ y. refl) e
    ∙ rw (find_sound (task_is tid) ts t e) refl

-- The task has this many attempts, and is blocked if that reaches the limit.
abbrev pub Counted : Config → ℕ → TaskStatus → Option Task → Type 0
Counted cfg n otherwise row =
    (t : Task) × (row ≡ some t)
    × (t.attempts ≡ n)
    × (t.status ≡ (if leb cfg.max_attempts n then TaskStatus.blocked else otherwise))

-- `_on_fail` counts one attempt more than the task had. If that reaches the limit the task is blocked,
-- and otherwise its status is as before.
pub on_fail-Counted :
    (cfg : Config) (agent : Agent) (task t : Task) (outcome : Outcome) (w : World)
    → task_by_id task.id w.db ≡ some t
    → Counted cfg
        (task.attempts + 1)
        t.status
        (task_by_id task.id (on_fail cfg agent task outcome w).1.db)
unfolding on_fail
on_fail-Counted cfg agent task t outcome w e =
    let f = record no_fields { attempts = some (task.attempts + 1) } in
    let at = w.clock w.reads in
    let once = written-found task.id f at w.db.tasks t e in
    elim (Bool-cases (leb cfg.max_attempts (task.attempts + 1))) [
      | inl spent ↦
          let g = record no_fields { status = some TaskStatus.blocked } in
          let later = w.clock (suc w.reads) in
          let twice =
            written-found task.id g later (update (task_is task.id) (write_fields f at) w.db.tasks)
              (write_fields f at t) once in
          rw spent (write_fields g later (write_fields f at t), twice, refl, refl)
      | inr left ↦ rw left (write_fields f at t, once, refl, refl)
    ]

-- `_rework` counts an attempt, or none after a merge conflict. If that reaches the limit the task is
-- blocked, and otherwise it is in progress again.
pub rework-Counted :
    (cfg : Config) (agent : Agent) (task t : Task) (findings : List String) (attempt : Bool)
    (w : World)
    → task_by_id task.id w.db ≡ some t
    → Counted cfg
        (task.attempts + (if attempt then 1 else 0))
        TaskStatus.in_progress
        (task_by_id task.id (rework cfg agent task findings attempt w).1.db)
unfolding rework
rework-Counted cfg agent task t findings attempt w e =
    let n = task.attempts + (if attempt then 1 else 0) in
    let f = record no_fields { status = some TaskStatus.in_progress; attempts = some n } in
    let at = w.clock (suc w.reads) in
    let once = written-found task.id f at w.db.tasks t e in
    elim (Bool-cases (leb cfg.max_attempts n)) [
      | inl spent ↦
          let g = record no_fields { status = some TaskStatus.blocked } in
          let later = w.clock (suc (suc w.reads)) in
          let twice =
            written-found task.id g later (update (task_is task.id) (write_fields f at) w.db.tasks)
              (write_fields f at t) once in
          rw spent (write_fields g later (write_fields f at t), twice, refl, refl)
      | inr left ↦ rw left (write_fields f at t, once, refl, refl)
    ]
