-- ===== src/Scheduler/Turn/Unaccepted.antt =====
-- nc/scheduler.py: what each handler does to the accepted tasks.
use neocortex.Scheduler.Turn.{attempt}
use neocortex.State.Incidents.{incident}
use neocortex.Arbiter.{Arbiter, render}
use neocortex.Json.{has}
use neocortex.Scheduler.Verdict.{
  no_verdict_text, note, check_work, commands_for, failed_checks, no_verdict, review_work,
  store_checks, critics_of, hand_to_critic, next_critic,
}
use neocortex.State.Mail.{add_agent, agent_fits}
use neocortex.Protocol.{Outcome}
use neocortex.Scheduler.Handlers.{block_task, add_failure, set_status, on_ask, on_fail, rework}
use neocortex.State.Exec.{◌>>◌, ◌>>=◌, Exec, Result, err, ok, World}
use neocortex.State.Rows.{set_task, set_agent, TaskFields, no_fields, write_fields}
use neocortex.Config.{model_for, Config}
use neocortex.Prelude.{
  [], map, null, true, ◌∷◌, Option-cases, Bool-cases, if◌then◌else◌, inl, inr, leb, suc, ◌+◌, Bool,
  List, Option, String, any, any-update-false, arith, false, none, refl, some, update, ℕ, ◌&&◌, ◌≡◌,
}
use neocortex.State.Query.{status_eq, task_is}
use neocortex.State.Tables.{AgentState, Project, Role, Agent, Db, TaskStatus, Task}

abbrev pub is_accepted : String → Task → Bool
is_accepted tid t = task_is tid t && status_eq t.status TaskStatus.done

-- A task of this name is accepted.
abbrev pub accepted : String → Db → Bool
accepted tid db = any (is_accepted tid) db.tasks

abbrev pub writes_done : TaskFields → Bool
writes_done f = elim f.status [ none ↦ false | some s ↦ status_eq s TaskStatus.done ]

written-not_accepted :
    (tid : String) (s : Option TaskStatus) (f : TaskFields) (at : ℕ) (t : Task)
    → writes_done (record f { status = s }) ≡ false
    → is_accepted tid t ≡ false
    → is_accepted tid (write_fields (record f { status = s }) at t) ≡ false
written-not_accepted tid none f at t h e = e
written-not_accepted tid (some s) f at t h e = ground arith

update-not_accepted :
    (tid other : String) (f : TaskFields) (at : ℕ) (ts : List Task)
    → writes_done f ≡ false
    → any (is_accepted tid) ts ≡ false
    → any (is_accepted tid) (update (task_is other) (write_fields f at) ts) ≡ false
update-not_accepted tid other f at ts h e =
    any-update-false (is_accepted tid) (task_is other) (write_fields f at) ts
      (λ t k. written-not_accepted tid f.status f at t h k) e

pub block_task-accepts_none :
    (tid : String) (agent : Agent) (task : Task) (reason : String) (w : World)
    → accepted tid w.db ≡ false
    → accepted tid (block_task task agent reason w).1.db ≡ false
unfolding block_task
block_task-accepts_none tid agent task reason w h =
    update-not_accepted tid task.id (record no_fields { status = some TaskStatus.blocked })
      (w.clock w.reads) w.db.tasks refl h

pub rework-accepts_none :
    (tid : String) (cfg : Config) (agent : Agent) (task : Task) (findings : List String)
    (attempt : Bool) (w : World)
    → accepted tid w.db ≡ false
    → accepted tid (rework cfg agent task findings attempt w).1.db ≡ false
unfolding rework
rework-accepts_none tid cfg agent task findings attempt w h =
    let n = task.attempts + (if attempt then 1 else 0) in
    let fields = record no_fields { status = some TaskStatus.in_progress; attempts = some n } in
    let at = w.clock (suc w.reads) in
    let once = update-not_accepted tid task.id fields at w.db.tasks refl h in
    elim (Bool-cases (leb cfg.max_attempts n)) [
      | inl spent ↦ rw spent (
          update-not_accepted tid task.id (record no_fields { status = some TaskStatus.blocked })
            (w.clock (suc (suc w.reads)))
            (update (task_is task.id) (write_fields fields at) w.db.tasks) refl once)
      | inr left ↦ rw left once
    ]

pub on_fail-accepts_none :
    (tid : String) (cfg : Config) (agent : Agent) (task : Task) (outcome : Outcome) (w : World)
    → accepted tid w.db ≡ false
    → accepted tid (on_fail cfg agent task outcome w).1.db ≡ false
unfolding on_fail
on_fail-accepts_none tid cfg agent task outcome w h =
    let fields = record no_fields { attempts = some (task.attempts + 1) } in
    let at = w.clock w.reads in
    let once = update-not_accepted tid task.id fields at w.db.tasks refl h in
    elim (Bool-cases (leb cfg.max_attempts (task.attempts + 1))) [
      | inl spent ↦ rw spent (
          update-not_accepted tid task.id (record no_fields { status = some TaskStatus.blocked })
            (w.clock (suc w.reads)) (update (task_is task.id) (write_fields fields at) w.db.tasks)
            refl once)
      | inr left ↦ rw left once
    ]

pub on_ask-accepts_none :
    (tid : String) (agent : Agent) (task : Task) (outcome : Outcome) (w : World)
    → accepted tid w.db ≡ false
    → accepted tid (on_ask agent task outcome w).1.db ≡ false
unfolding on_ask
on_ask-accepts_none tid agent task outcome w h =
    update-not_accepted tid task.id (record no_fields { status = some TaskStatus.blocked })
      (w.clock (suc (suc w.reads))) w.db.tasks refl h

add_agent-tasks :
    (aid : String) (role : Role) (pid : String) (t : Option String) (model : String) (w : World)
    → (add_agent aid role pid t model w).1.db.tasks ≡ w.db.tasks
unfolding add_agent
add_agent-tasks aid role pid t model w = elim (Bool-cases (agent_fits aid pid t w.db)) [
  | inl fits ↦ rw fits refl
  | inr clash ↦ rw clash refl
]

-- What every end of a first part keeps, and the rest keeps from there, the whole keeps.
pub bind-accepts_none :
    {A B : Type 0} (tid : String) (r : Result A × World) (f : A → Exec B) (w : World)
    → accepted tid r.1.db ≡ false
    → ((a : A) → accepted tid (f a r.1).1.db ≡ false)
    → accepted tid (((λ _. r) >>= f) w).1.db ≡ false
bind-accepts_none tid (ok a, v) f w h k = k a
bind-accepts_none tid (err e, v) f w h k = h

pub if-accepts_none :
    {A : Type 0} (tid : String) (b : Bool) (m n : Exec A) (w : World)
    → accepted tid (m w).1.db ≡ false
    → accepted tid (n w).1.db ≡ false
    → accepted tid ((if b then m else n) w).1.db ≡ false
if-accepts_none tid true m n w k l = k
if-accepts_none tid false m n w k l = l

pub start_review-accepts_none :
    (tid aid model : String) (agent : Agent) (task : Task) (project : Project) (w : World)
    → accepted tid w.db ≡ false
    → accepted tid
        ((add_agent aid Role.critic project.id (some task.id) model >>= λ _.
            set_agent agent.id AgentState.blocked >> set_status task.id TaskStatus.in_review)
          w).1.db
      ≡ false
unfolding set_agent set_task
start_review-accepts_none tid aid model agent task project w h =
    let r = add_agent aid Role.critic project.id (some task.id) model w in
    let added : accepted tid r.1.db ≡ false =
      rw (add_agent-tasks aid Role.critic project.id (some task.id) model w) h in
    bind-accepts_none tid r
      (λ _. set_agent agent.id AgentState.blocked >> set_status task.id TaskStatus.in_review) w
      added
      λ _.
        update-not_accepted tid task.id (record no_fields { status = some TaskStatus.in_review })
          (r.1.clock (suc r.1.reads)) r.1.db.tasks refl added

pub hand_to_critic-accepts_none :
    (tid : String) (cfg : Config) (agent : Agent) (task : Task) (project : Project) (w : World)
    → accepted tid w.db ≡ false
    → accepted tid (hand_to_critic cfg agent task project w).1.db ≡ false
unfolding hand_to_critic
hand_to_critic-accepts_none tid cfg agent task project w h =
    elim (Option-cases (model_for cfg Role.critic)) [
      | inl lacks ↦ rw lacks h
      | inr (model, has) ↦ rw has (
          start_review-accepts_none tid (next_critic task.id (critics_of task.id w.db)) model agent
            task project w h)
    ]

pub check_work-accepts_none :
    (tid : String) (cfg : Config) (arb : Arbiter) (agent : Agent) (task : Task) (project : Project)
    (w : World)
    → accepted tid w.db ≡ false
    → accepted tid (check_work cfg arb agent task project w).1.db ≡ false
unfolding check_work
check_work-accepts_none tid cfg arb agent task project w h =
    let results = arb.run_checks (commands_for task project) in
    let stored = (store_checks task.id results w).1 in
    elim (Bool-cases (null (failed_checks results))) [
      | inl passed ↦ rw passed (hand_to_critic-accepts_none tid cfg agent task project stored h)
      | inr failed ↦ rw failed (
          rework-accepts_none tid cfg agent task (map render (failed_checks results)) true stored h)
    ]

pub review_work-accepts_none :
    (tid : String) (cfg : Config) (arb : Arbiter) (agent : Agent) (task : Task) (project : Project)
    (w : World)
    → accepted tid w.db ≡ false
    → accepted tid (review_work cfg arb agent task project w).1.db ≡ false
unfolding review_work
review_work-accepts_none tid cfg arb agent task project w h =
    let none_yet = "You reported DONE but the branch has no commits." ∷ [] in
    bind-accepts_none tid (arb.has_commits, w)
      (λ committed.
        if committed
        then check_work cfg arb agent task project
        else rework cfg agent task none_yet true)
      w h
      λ committed.
        if-accepts_none tid committed (check_work cfg arb agent task project)
          (rework cfg agent task none_yet true) w
          (check_work-accepts_none tid cfg arb agent task project w h)
          (rework-accepts_none tid cfg agent task none_yet true w h)

pub no_verdict-accepts_none :
    (tid : String) (cfg : Config) (arb : Arbiter) (agent : Agent) (task : Task) (outcome : Outcome)
    (w : World)
    → accepted tid w.db ≡ false
    → accepted tid (no_verdict cfg arb agent task outcome w).1.db ≡ false
unfolding no_verdict incident
no_verdict-accepts_none tid cfg arb agent task outcome w h =
    on_fail-accepts_none tid cfg agent task outcome
      ((note "protocol" task.id (no_verdict_text arb agent outcome) >> add_failure) w).1 h
