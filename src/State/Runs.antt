-- ===== src/State/Runs.antt =====
-- nc/state.py: the start and the end of a run. The process columns are not modelled.
use neocortex.State.Rows.{update_runs}
use neocortex.State.Query.{agent_by_id, opt_eq, run_is, status_eq}
use neocortex.State.Tables.{Db, OutcomeKind, Role, Run, TaskStatus, insert, of_turn}
use neocortex.Prelude.{
  if◌then◌else◌, is_some, prefix, ◌&&◌, ◌||◌, ℕ, String, Bool, true, false, Option, none, some, any,
}
use neocortex.State.Exec.{
  Exec, cancelled_task, gets, integrity_error, modify, now, raise_if, transaction, ◌>>=◌, ◌>>◌,
}

-- `id=? OR id=(SELECT task_id FROM agent WHERE id=?)` on a cancelled task.
abbrev pub names_cancelled : Option String → String → Db → Bool
names_cancelled tid aid db =
    any
      (λ t.
        status_eq t.status TaskStatus.cancelled
        && (opt_eq tid t.id
            || (elim (agent_by_id aid db) [ none ↦ false | some a ↦ opt_eq a.task_id t.id ])))
      db.tasks

abbrev pub new_run : String → Option String → Role → String → String → ℕ → ℕ → Run
new_run aid tid role model log_path at rid = record {
  id = rid;
  agent_id = aid;
  task_id = tid;
  role = role;
  model = model;
  outcome = none;
  detail = none;
  tokens = none;
  log_path = log_path;
  started_at = at;
  ended_at = none;
  defer_until = none;
  recovered_at = none;
  recovery_reason = none;
}

unfoldable pub start_run : String → Option String → Role → String → String → Exec ℕ
start_run aid tid role model log_path = transaction (do
  dead ← gets (names_cancelled tid aid)
  raise_if dead cancelled_task
  at ← now
  row ← gets (agent_by_id aid)
  raise_if (if is_some row then false else true) integrity_error
  modify (λ db. record db { runs = insert (new_run aid tid role model log_path at) db.runs })
  gets (λ db. db.runs.seq))

unfoldable pub end_run : ℕ → OutcomeKind → String → Option ℕ → Exec (Unit {0})
end_run rid outcome detail tokens = do
  at ← now
  modify (
      update_runs (run_is rid) (λ r. record r {
        outcome = some (of_turn outcome);
        detail = some (prefix 4000 detail);
        tokens = tokens;
        ended_at = some at;
      }))

unfoldable pub record_preflight_attempt :
    Role → String → String → String → String → Option ℕ → Option ℕ → Option String → Exec (Unit {0})
record_preflight_attempt role adapter model category diagnostic until usage evidence = do
  at ← now
  modify (λ db. record db {
    preflight_attempts =
        insert
          (λ n. record {
            id = n;
            role = role;
            adapter = adapter;
            model = model;
            category = category;
            diagnostic = prefix 1000 diagnostic;
            defer_until = until;
            usage = usage;
            evidence_path = evidence;
            created_at = at;
          })
          db.preflight_attempts;
  })
