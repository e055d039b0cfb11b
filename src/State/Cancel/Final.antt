-- ===== src/State/Cancel/Final.antt =====
-- nc/state.py: `start_run` after `cancel_task`.
use neocortex.State.Exec.{World, cancelled_task, err, ok}
use neocortex.State.Cancel.{
  cancel_row, cancel_idle, cancel_known, has_open_run, cancel_task, retire,
}
use neocortex.State.Runs.{start_run, names_cancelled}
use neocortex.State.Query.{status_eq, task_by_id, task_is}
use neocortex.State.Tables.{Role, TaskStatus, Db, Task}
use neocortex.Prelude.{
  Option, none, refl, inl, inr, false, ◌⊎◌, Bool, any_of_find, find_sound, any-update_found, eq_iff,
  String, arith, some, true, ℕ, ◌≡◌,
}

retired-names_cancelled :
    (tid reason aid : String) (at : ℕ) (db : Db) (t : Task)
    → task_by_id tid db ≡ some t
    → names_cancelled (some tid) aid (retire tid reason at db) ≡ true
retired-names_cancelled tid reason aid at db t e =
    any-update_found (task_is tid) _ _ db.tasks t e
      λ y h. ground (arith, eq_iff y.id tid, eq_iff tid y.id)

cancelled-names_cancelled :
    (tid aid : String) (db : Db) (t : Task)
    → task_by_id tid db ≡ some t
    → status_eq t.status TaskStatus.cancelled ≡ true
    → names_cancelled (some tid) aid db ≡ true
cancelled-names_cancelled tid aid db t e h =
    any_of_find (task_is tid) _ db.tasks t e
      (ground (arith, find_sound (task_is tid) db.tasks t, eq_iff t.id tid, eq_iff tid t.id))

start_run_refused :
    (aid tid : String) (role : Role) (model log : String) (w : World)
    → names_cancelled (some tid) aid w.db ≡ true
    → start_run aid (some tid) role model log w ≡ (err cancelled_task, w)
unfolding start_run
start_run_refused aid tid role model log w h = ground arith

-- A successful call found the task, and left it cancelled.
cancel_idle_cases :
    (tid reason : String) (t : Task) (w w' : World) (b : Bool)
    → cancel_idle tid reason t w ≡ (ok b, w')
    → ((status_eq t.status TaskStatus.cancelled ≡ true) × (w' ≡ w))
      ⊎ (w'.db ≡ retire tid reason (w.clock w.reads) w.db)
unfolding cancel_idle
cancel_idle_cases tid reason t w w' b e = ground arith

cancel_row_cases :
    (tid reason : String) (o : Option Task) (w w' : World) (b : Bool)
    → cancel_row tid reason o w ≡ (ok b, w')
    → (t : Task) × (o ≡ some t)
      × (has_open_run tid w.db ≡ false)
      × (cancel_idle tid reason t w ≡ (ok b, w'))
unfolding cancel_row
cancel_row_cases tid reason none w w' b e = cc
cancel_row_cases tid reason (some t) w w' b e = (t, refl, ground arith, ground arith)

cancel_task_cases :
    (tid reason : String) (w w' : World) (b : Bool)
    → cancel_task tid reason w ≡ (ok b, w')
    → cancel_row tid reason (task_by_id tid w.db) w ≡ (ok b, w')
unfolding cancel_task cancel_known
cancel_task_cases tid reason w w' b e = ground arith

-- Once `cancel_task` has succeeded, whether it cancelled the task or found it cancelled, `start_run`
-- refuses the task to every agent and leaves the state as it is.
pub cancelled_never_runs :
    (tid reason aid : String) (role : Role) (model log : String) (w w' : World) (b : Bool)
    → cancel_task tid reason w ≡ (ok b, w')
    → start_run aid (some tid) role model log w' ≡ (err cancelled_task, w')
cancelled_never_runs tid reason aid role model log w w' b e =
    let (t, found, quiet, h) =
      cancel_row_cases tid reason (task_by_id tid w.db) w w' b
        (cancel_task_cases tid reason w w' b e) in
    start_run_refused aid tid role model log w' (elim (cancel_idle_cases tid reason t w w' b h) [
      | inl (dead, same) ↦ rw same (cancelled-names_cancelled tid aid w.db t found dead)
      | inr wrote ↦ rw wrote (retired-names_cancelled tid reason aid (w.clock w.reads) w.db t found)
    ])
