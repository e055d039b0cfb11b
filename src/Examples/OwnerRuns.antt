-- ===== src/Examples/OwnerRuns.antt =====
-- Inputs of the theorems on the operations of the owner: an interrupted run, a question, a task that
-- waits and one that is accepted.
use neocortex.Operations.Lifecycle.Retried.{fresh, retry_blocked_tasks_lem}
use neocortex.Json.{Fields, Json, cons, dict, end, field, list, nil, str}
use neocortex.Operations.Lifecycle.Reverts.{reverted, rollback_task-Reverts}
use neocortex.Operations.Lifecycle.Again.{requeue_task-Requeues, requeued}
use neocortex.State.Query.{project_by_id, status_eq, task_by_id}
use neocortex.Examples.Sample.{one_row, sample_db, sample_message, sample_task, sample_world}
use neocortex.State.Runs.{new_run}
use neocortex.Operations.Recovery.Closes.{recovered_closed}
use neocortex.Operations.Recovery.Quiet.{closed_by, is_asked, may_close, recovered_quiet}
use neocortex.Operations.Lifecycle.{
  is_blocked_task, retry_blocked_tasks, any_open_run, confirms, requeue_task, requeueable,
  revertible, rollback_task,
}
use neocortex.Operations.Answers.Once.{answered_once}
use neocortex.Operations.Answers.{answer_known, answer_message, answerable_question}
use neocortex.Operations.Recovery.{distinct, mem, open_run, recover_runs}
use neocortex.Operations.Ownership.{Owner, Processes, no_process, owner_status, truthy}
use neocortex.Prelude.{
  List, Option, String, [], all, update, any, blank, false, find, if◌then◌else◌, keep, none, refl,
  some, true, ℕ, ◌&&◌, ◌∷◌, ◌≡◌,
}
use neocortex.State.Exec.{ok, err, Result, Error, Error, Result, World, err, ok}
use neocortex.State.Tables.{Db, Message, MessageKind, Project, Role, Run, Task, TaskStatus}

abbrev lost_run : Run
lost_run = new_run "worker-p-T002" (some "p-T002") Role.worker "m1" "log" 7 1

abbrev with_run : World
with_run = record (sample_world 0) { db = record sample_db { runs = one_row lost_run } }

abbrev dead_owner : ℕ → Owner
dead_owner n = record {
  owner_pid = some 7;
  owner_start = some "5";
  ownership_version = 2;
  adapter_cgroup = some "/user/neocortex-run-1";
  adapter_pgid = none;
}

-- The scheduler is gone, and the adapter has these processes.
abbrev left_over : List ℕ → Processes
left_over members = record {
  signal = λ pid. no_process;
  cgroup_members = λ name. some members;
  group_members = λ pgid. none;
}

abbrev recovered : Result (List Run) × World
recovered = recover_runs (left_over []) dead_owner (1 ∷ []) "host restarted" false with_run

recovered_closed_example : any (open_run 1) recovered.1.db.runs.rows ≡ false
unfolding recover_runs distinct keep any owner_status blank
recovered_closed_example =
    recovered_closed (left_over []) dead_owner 1 (1 ∷ []) "host restarted" false (lost_run ∷ [])
      with_run recovered.1 refl refl

recovered_quiet_example :
    (recovered.1.db.runs.rows
      ≡ update (is_asked (1 ∷ [])) (closed_by 100 "host restarted") (lost_run ∷ []))
    × (all
          (λ r. if mem r.id (1 ∷ []) then may_close (left_over []) dead_owner false r else true)
          (lost_run ∷ [])
        ≡ true)
unfolding recover_runs distinct keep any owner_status blank
recovered_quiet_example =
    recovered_quiet (left_over []) dead_owner (1 ∷ []) "host restarted" false (lost_run ∷ [])
      with_run recovered.1 refl

abbrev question : Message
question = record sample_message {
  kind = MessageKind.question;
  sender = "worker-p-T002";
  recipient = "owner";
}

abbrev asked : World
asked = record (sample_world 0) { db = record sample_db { messages = one_row question } }

answered_once_example :
    (x : Error) × (answer_message 1 "No" (answer_message 1 "Yes" asked).1
      ≡ (err x, (answer_message 1 "Yes" asked).1))
unfolding answer_message answer_known find blank any answerable_question
answered_once_example =
    answered_once 1 "Yes" "worker-p-T002" "No" asked (answer_message 1 "Yes" asked).1 refl

abbrev same_token : Task → String
same_token t = "t1"

abbrev discards : Task → Result (Unit {0})
discards t = ok tt

abbrev reverts : Project → String → Result String
reverts p commit = ok "beef"

abbrev no_mirror : Project → Option String
no_mirror p = none

abbrev nothing_else : Db → Db
nothing_else db = db

abbrev requeued_world : World
requeued_world =
    (requeue_task same_token discards reverts no_mirror nothing_else "p-T002" true (some 9) none
      (some "t1") (sample_world 0)).1

requeue_task-Requeues_example :
    (t : Task) × (task_by_id "p-T002" sample_db ≡ some t)
    × (status_eq t.status TaskStatus.done ≡ false)
    × (any_open_run sample_db ≡ false)
    × ((true && (if confirms (some "t1") "t1" then false else true)) ≡ false)
    × (task_by_id "p-T002" requeued_world.db ≡ some (requeued (some 9) none 100 t))
unfolding requeue_task requeueable any find
requeue_task-Requeues_example =
    requeue_task-Requeues same_token discards reverts no_mirror nothing_else "p-T002" true (some 9)
      none (some "t1") (sample_world 0) requeued_world refl

abbrev accepted_task : Task
accepted_task = record (sample_task TaskStatus.done "p-T001" []) { merge_commit = some "c0ffee" }

abbrev accepted : World
accepted = record (sample_world 0) { db = record sample_db { tasks = accepted_task ∷ [] } }

abbrev rolled_back : World
rolled_back =
    (rollback_task same_token discards reverts no_mirror nothing_else "p-T001" (some "c0ffee")
      accepted).1

rollback_task-Reverts_example :
    (first : Task) × (project : Project) × (task_by_id "p-T001" accepted.db ≡ some first)
    × (project_by_id first.project_id accepted.db ≡ some project)
    × ((t : Task) × (old : String) × (task_by_id "p-T001" accepted.db ≡ some t)
        × (truthy t.merge_commit ≡ some old)
        × (status_eq t.status TaskStatus.done ≡ true)
        × (any_open_run accepted.db ≡ false)
        × (confirms (some "c0ffee") old ≡ true)
        × (reverts project old ≡ ok "beef")
        × (task_by_id "p-T001" rolled_back.db ≡ some (reverted "beef" 100 t)))
unfolding rollback_task revertible any find
rollback_task-Reverts_example =
    rollback_task-Reverts same_token discards reverts no_mirror nothing_else "p-T001" "beef"
      (some "c0ffee") accepted rolled_back refl

-- The second item depends on a task that is not there.
abbrev two_items : Json
two_items = list (cons (dict good_item) (cons (dict late_item) nil))
  where
    good_item : Fields
    good_item = field "project" (str "p") (
        field "title" (str "Parser")
          (field "objective" (str "Write it") (field "acceptance" (list nil) end)))

    late_item : Fields
    late_item = field "depends_on" (list (cons (str "p-T009") nil)) good_item

abbrev stuck : World
stuck = record (sample_world 0) {
  db = record sample_db { tasks = sample_task TaskStatus.blocked "p-T002" [] ∷ accepted_task ∷ [] };
}

retry_blocked_tasks_lem_example :
    ((retry_blocked_tasks stuck).0 ≡ ok ("p-T002" ∷ []))
    × (any is_blocked_task (retry_blocked_tasks stuck).1.db.tasks ≡ false)
unfolding keep any fresh
retry_blocked_tasks_lem_example = retry_blocked_tasks_lem stuck
