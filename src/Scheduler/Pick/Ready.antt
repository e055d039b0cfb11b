-- ===== src/Scheduler/Pick/Ready.antt =====
-- nc/scheduler.py: which work `pick` and `next_ready_task` find.
use mathlib.Core.Path.{subst}
use neocortex.State.Query.{is_runnable, status_eq, task_by_id}
use neocortex.State.Cancel.{is_met, unmet_dependencies}
use neocortex.Scheduler.Pick.{
  agent_of, first_row, goes_before, is_task_role, join_row, runnable_work, with_task, is_candidate,
  is_queued, is_ready, joined, next_ready_task, task_before,
}
use neocortex.Prelude.{
  find, Option, String, Option-cases, ap, sym, All-order_by, All, Bool-cases, inl, inr, none, not,
  null, ◌⊎◌, any-order_by, order_by, Bool, List, [], all, any, any-keep, arith, false, find_sound,
  if◌then◌else◌, is_some, is_some-find, keep, refl, some, true, ◌&&◌, ◌∙◌, ◌∷◌, ◌≡◌,
}
use neocortex.State.Tables.{TaskStatus, Agent, Db, Task}

null-eq-true : {A : Type 0} (xs : List A) → null xs ≡ true → xs ≡ []
null-eq-true [] h = refl
null-eq-true (x ∷ xs) h = cc

-- `next_ready_task` finds a task exactly when some task is queued and has no unmet dependency.
pub next_ready_task_exists :
    (db : Db) → is_some (next_ready_task db) ≡ any (λ t. is_queued t && is_ready db t) db.tasks
unfolding next_ready_task
next_ready_task_exists db =
    let sorted = order_by task_before (keep is_queued db.tasks) in
    is_some-find (is_ready db) sorted
    ∙ any-order_by task_before (is_ready db) (keep is_queued db.tasks)
    ∙ any-keep is_queued (is_ready db) db.tasks

kept_none :
    {A : Type 0} (p : A → Bool) (xs : List A)
    → keep (λ x. if p x then false else true) xs ≡ []
    → all p xs ≡ true
unfolding keep all
kept_none p [] e = refl
kept_none p (x ∷ xs) e = ground (arith, kept_none p xs)

-- Every dependency of a task with no unmet dependency is a task that is done.
ready_deps :
    (db : Db) (t : Task)
    → task_by_id t.id db ≡ some t
    → unmet_dependencies t.id db ≡ []
    → all (is_met db) t.depends_on ≡ true
unfolding unmet_dependencies
ready_deps db t found e =
    let listed : unmet_dependencies t.id db
        ≡ keep (λ dep. if is_met db dep then false else true) t.depends_on =
      rw (unmet_dependencies, found) refl in
    kept_none (is_met db) t.depends_on (sym listed ∙ e)

pub All-keep : {A : Type 0} (p : A → Bool) (xs : List A) → All (λ x. p x ≡ true) (keep p xs)
unfolding keep
All-keep p [] = tt
All-keep p (x ∷ xs) = elim (Bool-cases (p x)) [
  | inl fits ↦ rw fits (fits, All-keep p xs)
  | inr other ↦ rw other (All-keep p xs)
]

pub find-All :
    {A : Type 0} (P : A → Type 0) (p : A → Bool) (xs : List A) (x : A)
    → All P xs
    → find p xs ≡ some x
    → P x
unfolding find
find-All P p [] x hs e = cc
find-All P p (y ∷ xs) x (h, hs) e = elim (Bool-cases (p y)) [
  | inl fits ↦
      let first : find p (y ∷ xs) ≡ some y = rw fits refl in
      subst P (ap (λ o. elim o [ none ↦ y | some c ↦ c ]) (sym first ∙ e)) h
  | inr other ↦
      let later : find p (y ∷ xs) ≡ find p xs = rw other refl in
      find-All P p xs x hs (sym later ∙ e)
]

-- The task that `next_ready_task` finds is queued, and if the row of its id is this one, every
-- dependency of it is the id of a task that is done.
pub next_ready_task_met :
    (db : Db) (t : Task)
    → next_ready_task db ≡ some t
    → task_by_id t.id db ≡ some t
    → (is_queued t ≡ true) × (all (is_met db) t.depends_on ≡ true)
unfolding next_ready_task
next_ready_task_met db t e found =
    let queued = keep is_queued db.tasks in
    let sorted = order_by task_before queued in
    (
      find-All (λ u. is_queued u ≡ true) (is_ready db) sorted t
          (All-order_by task_before (λ u. is_queued u ≡ true) queued (All-keep is_queued db.tasks))
          e,
      ready_deps db t found
          (null-eq-true (unmet_dependencies t.id db) (find_sound (is_ready db) sorted t e)),
    )

-- An agent that may run, with the task that it runs on.
abbrev pub CanRun : Db → Agent × Task → Type 0
CanRun db (a, t) =
    (with_task db a ≡ some (a, t))
    × (is_runnable a.state ≡ true)
    × (is_task_role a.role ≡ true)
    × (status_eq t.status TaskStatus.cancelled ≡ false)

join_row-CanRun :
    (db : Db) (a : Agent) (t : Task) (rest : List (Agent × Task))
    → with_task db a ≡ some (a, t)
    → All (CanRun db) rest
    → All (CanRun db) (join_row (some (a, t)) rest)
join_row-CanRun db a t rest e hs = elim (Bool-cases (is_candidate (a, t))) [
  | inl fits ↦ rw fits ((e, ground arith, ground arith, ground arith), hs)
  | inr not ↦ rw not hs
]

with_task_on :
    (db : Db) (a : Agent) (o : Option String)
    → a.task_id ≡ o
    → with_task db a ≡ (elim o [
      | none ↦ none
      | some tid ↦ elim (task_by_id tid db) [ none ↦ none | some t ↦ some (a, t) ]
    ])
with_task_on db a o e =
    ap
      (λ o. elim o [
        | none ↦ none
        | some tid ↦ elim (task_by_id tid db) [ none ↦ none | some t ↦ some (a, t) ]
      ])
      e

with_task-cases :
    (db : Db) (a : Agent) → (with_task db a ≡ none) ⊎ ((t : Task) × (with_task db a ≡ some (a, t)))
with_task-cases db a = elim (Option-cases a.task_id) [
  | inl free ↦ inl (with_task_on db a none free)
  | inr (tid, on) ↦ elim (Option-cases (task_by_id tid db)) [
    | inl gone ↦ inl (with_task_on db a (some tid) on ∙ rw gone refl)
    | inr (t, found) ↦ inr (t, with_task_on db a (some tid) on ∙ rw found refl)
  ]
]

joined-CanRun : (db : Db) (rows : List Agent) → All (CanRun db) (joined db rows)
unfolding joined
joined-CanRun db [] = tt
joined-CanRun db (a ∷ rest) = elim (with_task-cases db a) [
  | inl alone ↦ rw alone (joined-CanRun db rest)
  | inr (t, e) ↦ rw e (join_row-CanRun db a t (joined db rest) e (joined-CanRun db rest))
]

first_row-CanRun :
    (db : Db) (rows : List (Agent × Task)) (a : Agent)
    → All (CanRun db) rows
    → agent_of (first_row rows) ≡ some a
    → (t : Task) × CanRun db (a, t)
first_row-CanRun db [] a hs e = cc
first_row-CanRun db ((b, t) ∷ rest) a (h, hs) e =
    let same : b ≡ a = ap (λ o. elim o [ none ↦ b | some c ↦ c ]) e in
    (t, subst (λ c. CanRun db (c, t)) same h)

-- The agent that the query of `pick` chooses is a runnable worker or critic, and the task that it
-- is on exists and is not cancelled.
pub runnable_work-CanRun :
    (db : Db) (a : Agent) → runnable_work db ≡ some a → (t : Task) × CanRun db (a, t)
unfolding runnable_work
runnable_work-CanRun db a e =
    first_row-CanRun db (order_by goes_before (joined db db.agents)) a
      (All-order_by goes_before (CanRun db) (joined db db.agents) (joined-CanRun db db.agents)) e
